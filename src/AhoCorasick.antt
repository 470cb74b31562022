-- ===== src/AhoCorasick.antt =====
-- The tables that `bkAhoCorasick::prepare` of bklib/bklib.cpp builds from the words. The table
-- `gotos` is a function of the state and the character, and `failures` of the state, `none` for -1.
-- The entry of a state in `matches` is the set of its bits.
pub mod Trie
pub mod Suffix
pub mod Tree
pub mod Fall
pub mod Links
pub mod Queue
pub mod Rounds
pub mod States
pub mod Rest
pub mod Built
pub mod Search
pub mod Hits
pub mod Tally
pub mod Count
pub mod Occurrences
pub mod Combine
pub mod Load
pub mod Size
use bkjs_utils.Prelude.{
  ℕ, zero, suc, ◌+◌, Bytes, List, [], ◌∷◌, Bool, true, false, ◌&&◌, ◌||◌, Option, none, some, ◌==◌,
  if◌then◌else◌, ltb, length, ◌*◌, ◌++◌, ◌>>=◌,
}
use bkjs_utils.Strings.{tolower}

-- `gotos`, `matches` and the next state.
pub record Tables : Type 0 where
  pub gotos : ℕ → ℕ → Option ℕ
  pub matches : ℕ → ℕ → Bool
  pub state : ℕ

-- The tables before the loop over the words.
abbrev pub empty_tables : Tables
empty_tables = record { gotos = λ r c. none; matches = λ r j. false; state = 1 }

-- `gotos[r*256+c] = q`
unfoldable pub set_goto : (ℕ → ℕ → Option ℕ) → ℕ → ℕ → ℕ → ℕ → ℕ → Option ℕ
set_goto gotos r c q s d = if r == s && (c == d) then some q else gotos s d

-- The loop over the letters of a word, from the state `r`; the result is its last state.
unfoldable pub add_letters : Bytes → ℕ → Tables → ℕ × Tables
add_letters [] r t = (r, t)
add_letters (k ∷ kword) r t = elim (t.gotos r (tolower k)) [
  | some q ↦ add_letters kword q t
  | none ↦
      add_letters kword t.state
        (record t { gotos = set_goto t.gotos r (tolower k) t.state; state = suc t.state })
]

-- The round for the word number `i`.
unfoldable pub add_word : ℕ → Bytes → Tables → Tables
add_word i kword t =
    let (r, t') = add_letters kword 0 t in
    record t' { matches = λ s j. (r == s && (i == j)) || t'.matches s j }

-- The loop over the words, from the word number `i` on.
unfoldable pub add_words : ℕ → List Bytes → Tables → Tables
add_words i [] t = t
add_words i (kword ∷ list) t = add_words (suc i) list (add_word i kword t)

-- The loop that gives the state 0 an edge for every character.
unfoldable pub close_root : Tables → Tables
close_root t = record t {
  gotos = λ r c. elim (t.gotos r c) [
    | some q ↦ some q
    | none ↦ if r == 0 && ltb c 256 then some 0 else none
  ];
}

-- The tables before the failure function is built; `1 << i` is undefined from `i = 31` on.
unfoldable pub trie : List Bytes → Option Tables
trie list = if ltb (length list) 32 then some (close_root (add_words 0 list empty_tables)) else none

-- `failures`, `matches` and `queued`.
pub record Linked : Type 0 where
  pub failures : ℕ → Option ℕ
  pub matches : ℕ → ℕ → Bool
  pub queued : List ℕ

-- The numbers from `c` on.
unfoldable pub up_from : ℕ → ℕ → List ℕ
up_from c zero = []
up_from c (suc n) = c ∷ up_from (suc c) n

-- `for (int c = 0; c < 256; ++c)`
unfoldable pub characters : List ℕ
unfolding up_from
characters = up_from 0 256

-- `while (gotos[r*256+c] == -1) r = failures[r];` and `gotos[r*256+c]`, with a bound on the rounds;
-- a failure of -1 is no index.
unfoldable pub fall : ℕ → (ℕ → ℕ → Option ℕ) → (ℕ → Option ℕ) → ℕ → ℕ → Option ℕ
fall zero gotos failures r c = none
fall (suc rounds) gotos failures r c = elim (gotos r c) [
  | some q ↦ some q
  | none ↦ elim (failures r) [ none ↦ none | some f ↦ fall rounds gotos failures f c ]
]

-- `failures[q] = f` and `queued.push(q)`, where the bits of `g` are added to those of `q`.
unfoldable pub link : ℕ → ℕ → (ℕ → Bool) → Linked → Linked
link q f more l = record {
  failures = λ s. if q == s then some f else l.failures s;
  matches = λ s j. if q == s then l.matches s j || more j else l.matches s j;
  queued = l.queued ++ q ∷ [];
}

module _ (t : Tables) where
  -- A round of the loop over the edges of the state 0.
  unfoldable pub start_char : ℕ → Linked → Linked
  start_char c l = elim (t.gotos 0 c) [
    | none ↦ l
    | some q ↦ if q == 0 then l else link q 0 (λ j. false) l
  ]

  unfoldable pub start_chars : List ℕ → Linked → Linked
  start_chars [] l = l
  start_chars (c ∷ cs) l = start_chars cs (start_char c l)

  -- A round of the loop over the edges of the state `r`. A word of a state is no longer than the
  -- number of the state, and gets shorter by a failure.
  unfoldable pub link_char : ℕ → ℕ → Linked → Option Linked
  link_char r c l = elim (t.gotos r c) [
    | none ↦ some l
    | some q ↦ do
      failure ← l.failures r
      f ← fall t.state t.gotos l.failures failure c
      some (link q f (l.matches f) l)
  ]

  unfoldable pub link_chars : ℕ → List ℕ → Linked → Option Linked
  link_chars r [] l = some l
  link_chars r (c ∷ cs) l = do l' ← link_char r c l; link_chars r cs l'

  -- `while (queued.size())`, with a bound on the rounds.
  unfoldable pub link_states : ℕ → Linked → Option Linked
  link_states zero l = elim l.queued [ [] ↦ some l | r ∷ rest ↦ none ]
  link_states (suc rounds) l = elim l.queued [
    | [] ↦ some l
    | r ∷ rest ↦ do l' ← link_chars r characters (record l { queued = rest }); link_states rounds l'
  ]

-- A bound on the states behind a state that so many states follow, since an edge leads to a greater
-- number.
unfoldable pub weight : ℕ → ℕ
weight zero = 1
weight (suc k) = 257 * weight k

-- `prepare`
pub record Prepared : Type 0 where
  pub tables : Tables
  pub linked : Linked

unfoldable pub prepare : List Bytes → Option Prepared
prepare list = do
  t ← trie list
  l ←
      link_states t (weight t.state) (
        start_chars t characters
          (record { failures = λ s. none; matches = t.matches; queued = [] }))
  some (record { tables = t; linked = l })
