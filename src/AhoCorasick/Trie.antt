-- ===== src/AhoCorasick/Trie.antt =====
-- The states that the words of `bkAhoCorasick` lead to.
use bkjs_utils.Prelude.{
  ℕ, zero, suc, ◌+◌, ◌≡◌, refl, sym, ap, subst, ◌∙◌, arith, Bytes, List, [], ◌∷◌, true, ◌&&◌, ◌||◌,
  Option, none, some, ◌==◌, length, lt→ltb, ◌<◌, get_elem?, Bool-cases, Option-cases, ◌⊎◌, inl, inr,
  ◌↔◌,
}
use bkjs_utils.Strings.{tolower}
use bkjs_utils.AhoCorasick.{
  Tables, empty_tables, set_goto, add_letters, add_word, add_words, close_root, trie,
}

-- Where the letters of a word lead, from a state.
unfoldable pub walk : (ℕ → ℕ → Option ℕ) → ℕ → Bytes → Option ℕ
walk gotos r [] = some r
walk gotos r (k ∷ word) = elim (gotos r (tolower k)) [ none ↦ none | some q ↦ walk gotos q word ]

-- The second table has the edges of the first.
abbrev Extends : (ℕ → ℕ → Option ℕ) → (ℕ → ℕ → Option ℕ) → Type 0
Extends g h = (r c q : ℕ) → g r c ≡ some q → h r c ≡ some q

walk_step :
    (g : ℕ → ℕ → Option ℕ) (r k q : ℕ) (word : Bytes)
    → g r (tolower k) ≡ some q
    → walk g r (k ∷ word) ≡ walk g q word
unfolding walk
walk_step g r k q word e = rw (walk, e)

walk_stop :
    (g : ℕ → ℕ → Option ℕ) (r k : ℕ) (word : Bytes)
    → g r (tolower k) ≡ none
    → walk g r (k ∷ word) ≡ none
unfolding walk
walk_stop g r k word e = rw (walk, e)

-- The tables with a new state behind `r`.
abbrev pub grown : Tables → ℕ → ℕ → Tables
grown t r k = record t { gotos = set_goto t.gotos r (tolower k) t.state; state = suc t.state }

pub add_letters_old :
    (k : ℕ) (word : Bytes) (r q : ℕ) (t : Tables)
    → t.gotos r (tolower k) ≡ some q
    → add_letters (k ∷ word) r t ≡ add_letters word q t
unfolding add_letters
add_letters_old k word r q t e = rw (add_letters, e)

pub add_letters_new :
    (k : ℕ) (word : Bytes) (r : ℕ) (t : Tables)
    → t.gotos r (tolower k) ≡ none
    → add_letters (k ∷ word) r t ≡ add_letters word t.state (grown t r k)
unfolding add_letters
add_letters_new k word r t e = rw (add_letters, e)

walk-Extends :
    (g h : ℕ → ℕ → Option ℕ) (r : ℕ) (word : Bytes) (n : ℕ)
    → Extends g h
    → walk g r word ≡ some n
    → walk h r word ≡ some n
unfolding walk
walk-Extends g h r [] n more e = e
walk-Extends g h r (k ∷ word) n more e = elim (Option-cases (g r (tolower k))) [
  | inl f ↦ absurd (cc (e, walk_stop g r k word f))
  | inr (q, f) ↦
      let rest = sym (walk_step g r k q word f) ∙ e in
      walk_step h r k q word (more r (tolower k) q f) ∙ walk-Extends g h q word n more rest
]

set_goto-Extends : (g : ℕ → ℕ → Option ℕ) (r c q : ℕ) → g r c ≡ none → Extends g (set_goto g r c q)
unfolding set_goto
set_goto-Extends g r c q e s d p f = elim (Bool-cases (r == s && (c == d))) [
  | inr other ↦ rw other f
  | inl same ↦
      let rs : r ≡ s = ground (same, arith) in
      let cd : c ≡ d = ground (same, arith) in absurd (cc (e, f, rs, cd))
]

set_goto_self : (g : ℕ → ℕ → Option ℕ) (r c q : ℕ) → set_goto g r c q r c ≡ some q
unfolding set_goto
set_goto_self g r c q = ground arith

add_letters-Extends :
    (word : Bytes) (r : ℕ) (t : Tables) → Extends t.gotos (add_letters word r t).1.gotos
unfolding add_letters
add_letters-Extends [] r t s d p f = f
add_letters-Extends (k ∷ word) r t s d p f = elim (Option-cases (t.gotos r (tolower k))) [
  | inr (q, e) ↦ rw (add_letters_old k word r q t e) (add_letters-Extends word q t s d p f)
  | inl e ↦ rw (add_letters_new k word r t e) (
      add_letters-Extends word t.state (grown t r k) s d p
        (set_goto-Extends t.gotos r (tolower k) t.state e s d p f))
]

add_letters-matches :
    (word : Bytes) (r : ℕ) (t : Tables) → (add_letters word r t).1.matches ≡ t.matches
unfolding add_letters
add_letters-matches [] r t = refl
add_letters-matches (k ∷ word) r t = elim (Option-cases (t.gotos r (tolower k))) [
  | inr (q, e) ↦ rw (add_letters_old k word r q t e) (add_letters-matches word q t)
  | inl e ↦ rw (add_letters_new k word r t e) (add_letters-matches word t.state (grown t r k))
]

walk-add_letters :
    (word : Bytes) (r : ℕ) (t : Tables)
    → walk (add_letters word r t).1.gotos r word ≡ some (add_letters word r t).0
unfolding add_letters walk
walk-add_letters [] r t = refl
walk-add_letters (k ∷ word) r t = elim (Option-cases (t.gotos r (tolower k))) [
  | inr (q, e) ↦ rw (add_letters_old k word r q t e) (
      walk_step (add_letters word q t).1.gotos r k q word
        (add_letters-Extends word q t r (tolower k) q e)
      ∙ walk-add_letters word q t)
  | inl e ↦
      let t' = grown t r k in
      rw (add_letters_new k word r t e) (
        walk_step (add_letters word t.state t').1.gotos r k t.state word (
          add_letters-Extends word t.state t' r (tolower k) t.state
            (set_goto_self t.gotos r (tolower k) t.state))
        ∙ walk-add_letters word t.state t')
]

-- What the rounds for the words from number `i` on keep, and add.
add_word-Extends : (i : ℕ) (word : Bytes) (t : Tables) → Extends t.gotos (add_word i word t).gotos
unfolding add_word
add_word-Extends i word t = add_letters-Extends word 0 t

add_words-Extends :
    (i : ℕ) (list : List Bytes) (t : Tables) → Extends t.gotos (add_words i list t).gotos
unfolding add_words
add_words-Extends i [] t s d p f = f
add_words-Extends i (word ∷ list) t s d p f =
    add_words-Extends (suc i) list (add_word i word t) s d p (add_word-Extends i word t s d p f)

add_word-keeps :
    (i : ℕ) (word : Bytes) (t : Tables) (s j : ℕ)
    → t.matches s j ≡ true
    → (add_word i word t).matches s j ≡ true
unfolding add_word
add_word-keeps i word t s j e = rw (add_letters-matches word 0 t, e) (ground arith)

add_words-keeps :
    (i : ℕ) (list : List Bytes) (t : Tables) (s j : ℕ)
    → t.matches s j ≡ true
    → (add_words i list t).matches s j ≡ true
unfolding add_words
add_words-keeps i [] t s j e = e
add_words-keeps i (word ∷ list) t s j e =
    add_words-keeps (suc i) list (add_word i word t) s j (add_word-keeps i word t s j e)

shifted : (i k : ℕ) → suc i + k ≡ i + suc k
shifted i k = omega arith

-- The last state of a word.
abbrev last : Bytes → Tables → ℕ
last word t = (add_letters word 0 t).0

walk-add_word :
    (i : ℕ) (word : Bytes) (t : Tables) → walk (add_word i word t).gotos 0 word ≡ some (last word t)
unfolding add_word
walk-add_word i word t = walk-add_letters word 0 t

add_word-matches :
    (i : ℕ) (word : Bytes) (t : Tables) (s j : ℕ)
    → (add_word i word t).matches s j ≡ ((last word t == s && (i == j)) || t.matches s j)
unfolding add_word
add_word-matches i word t s j = rw (add_letters-matches word 0 t)

walk-add_words :
    (i : ℕ) (word : Bytes) (list : List Bytes) (t : Tables)
    → walk (add_words (suc i) list (add_word i word t)).gotos 0 word ≡ some (last word t)
walk-add_words i word list t =
    walk-Extends (add_word i word t).gotos (add_words (suc i) list (add_word i word t)).gotos 0 word
      (last word t) (add_words-Extends (suc i) list (add_word i word t)) (walk-add_word i word t)

pub add_words_complete :
    (i : ℕ) (list : List Bytes) (t : Tables) (k : ℕ) (word : Bytes)
    → get_elem? list k ≡ some word
    → (n : ℕ) × (walk (add_words i list t).gotos 0 word ≡ some n)
      × ((add_words i list t).matches n (i + k) ≡ true)
unfolding add_words
add_words_complete i [] t k word e = absurd (cc e)
add_words_complete i (w ∷ list) t zero word e =
    let same : w ≡ word = cc e in
    let marked : (add_word i w t).matches (last w t) i ≡ true =
      add_word-matches i w t (last w t) i ∙ ground arith in
    let at : i ≡ i + 0 = omega arith in
    (
      last w t,
      subst (λ x. walk (add_words (suc i) list (add_word i w t)).gotos 0 x ≡ some (last w t)) same
          (walk-add_words i w list t),
      subst (λ x. (add_words (suc i) list (add_word i w t)).matches (last w t) x ≡ true) at
          (add_words-keeps (suc i) list (add_word i w t) (last w t) i marked),
    )
add_words_complete i (w ∷ list) t (suc k) word e =
    let (n, walked, matched) = add_words_complete (suc i) list (add_word i w t) k word e in
    (
      n,
      walked,
      subst (λ x. (add_words (suc i) list (add_word i w t)).matches n x ≡ true) (shifted i k)
          matched,
    )

add_words_sound :
    (i : ℕ) (list : List Bytes) (t : Tables) (s j : ℕ)
    → (add_words i list t).matches s j ≡ true
    → (t.matches s j ≡ true)
      ⊎ ((k : ℕ) × (word : Bytes) × (j ≡ i + k)
          × (get_elem? list k ≡ some word)
          × (walk (add_words i list t).gotos 0 word ≡ some s))
unfolding add_words
add_words_sound i [] t s j e = inl e
add_words_sound i (w ∷ list) t s j e = elim (add_words_sound (suc i) list (add_word i w t) s j e) [
  | inr (k, word, jk, found, walked) ↦ inr (suc k, word, omega (arith, jk), found, walked)
  | inl here ↦ elim (Bool-cases (last w t == s && (i == j))) [
    | inr other ↦ inl (ground (here, add_word-matches i w t s j, other, arith))
    | inl same ↦
        let at : last w t ≡ s = ground (same, arith) in
        let number : j ≡ i + 0 = ground (same, arith) in
        inr (zero, w, number, refl, walk-add_words i w list t ∙ ap some at)
  ]
]

close_root-Extends : (t : Tables) → Extends t.gotos (close_root t).gotos
unfolding close_root
close_root-Extends t r c q e = rw e

zero_add : (j : ℕ) → 0 + j ≡ j
zero_add j = omega arith

pub marked_walk :
    (list : List Bytes) (j : ℕ) (word : Bytes)
    → get_elem? list j ≡ some word
    → (s : ℕ) → (add_words 0 list empty_tables).matches s j ≡ true
    → walk (add_words 0 list empty_tables).gotos 0 word ≡ some s
marked_walk list j word e s h = elim (add_words_sound 0 list empty_tables s j h) [
  | inl wrong ↦ absurd (ground (wrong, arith))
  | inr (k, w, jk, found, walked) ↦
      let number : k ≡ j = omega (arith, jk) in
      let same : w ≡ word = cc (found, e, number) in
      subst (λ x. walk (add_words 0 list empty_tables).gotos 0 x ≡ some s) same walked
]

closed-matches :
    (list : List Bytes) (j : ℕ) (word : Bytes)
    → get_elem? list j ≡ some word
    → (s : ℕ)
    → ((close_root (add_words 0 list empty_tables)).matches s j ≡ true)
      ↔ (walk (close_root (add_words 0 list empty_tables)).gotos 0 word ≡ some s)
unfolding close_root
closed-matches list j word e s =
    let t = add_words 0 list empty_tables in
    let (n, walked, matched) = add_words_complete 0 list empty_tables j word e in
    let grow = close_root-Extends t in
    let closed : walk (close_root t).gotos 0 word ≡ some n =
      walk-Extends t.gotos (close_root t).gotos 0 word n grow walked in
    (
      λ h. walk-Extends t.gotos (close_root t).gotos 0 word s grow (marked_walk list j word e s h),
      λ h.
          let same : n ≡ s = cc (h, closed) in
          subst (λ x. t.matches x j ≡ true) same
            (subst (λ x. t.matches n x ≡ true) (zero_add j) matched),
    )

-- For fewer than 32 words the loops over the words and over the edges of the state 0 end in tables
-- where the bit of a word is set in a state exactly when the letters of the word lead there from
-- the state 0.
trie-matches :
    (list : List Bytes)
    → length list < 32
    → (t : Tables) × (trie list ≡ some t)
      × ((j : ℕ) (word : Bytes)
          → get_elem? list j ≡ some word
          → (s : ℕ) → (t.matches s j ≡ true) ↔ (walk t.gotos 0 word ≡ some s))
unfolding trie
trie-matches list few = (
  close_root (add_words 0 list empty_tables),
  rw (lt→ltb (length list) 32 few),
  closed-matches list,
)
