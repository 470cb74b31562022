-- ===== src/AhoCorasick/Search.antt =====
-- `bkAhoCorasick::search` of bklib/bklib.cpp up to the combination of the values, without the
-- early return. `none` is a read outside of an array, a count that leaves the `int`, or a loop that
-- goes on. The text is the list of its `tsize` bytes, a byte of
-- a word past its end is the 0 that ends the C string. `strncasecmp` and `tolower` are those of the
-- C locale.
use bkjs_utils.Prelude.{
  ℕ, zero, suc, ◌-◌, ◌^◌, Bytes, List, [], ◌∷◌, Bool, true, false, not, ◌&&◌, ◌||◌, Option, none,
  some, ◌>>=◌, ◌==◌, ltb, leb, if◌then◌else◌, length, get_or, drop, replicate,
}
use bkjs_utils.Strings.{tolower}
use bkjs_utils.CountWords.{token_chars}
use bkjs_utils.AhoCorasick.{Prepared, fall}

-- `alphabet` as the constructor leaves it.
unfoldable pub initial_alphabet : ℕ → Bool
initial_alphabet c = leb 32 c && not (get_or token_chars (c - 32) 0 == 0)

-- `setAlphabet`: the index is a `char`, and below the array from 128 on.
unfoldable pub set_alphabet : Bytes → Bool → (ℕ → Bool) → Option (ℕ → Bool)
set_alphabet [] delimiter alphabet = some alphabet
set_alphabet (symbol ∷ symbols) delimiter alphabet =
    if ltb symbol 128
    then set_alphabet symbols delimiter (λ c. if symbol == c then not delimiter else alphabet c)
    else none

-- `!strncasecmp(text, word, n)`
unfoldable pub strncasecmp : ℕ → Bytes → Bytes → Bool
strncasecmp zero text word = true
strncasecmp (suc n) text word =
    let rest = strncasecmp n (drop 1 text) (drop 1 word) in
    if tolower (get_or text 0 0) == tolower (get_or word 0 0)
    then get_or text 0 0 == 0 || rest
    else false

-- `counters[j]++`
unfoldable pub bump : ℕ → List ℕ → List ℕ
bump j [] = []
bump zero (n ∷ counters) = suc n ∷ counters
bump (suc j) (n ∷ counters) = n ∷ bump j counters

-- `count` and `counters`, of `int`s; a counter is at most the count.
pub record Counts : Type 0 where
  pub count : ℕ
  pub counters : List ℕ

-- `matches[state] != 0`; the bits are those of words.
unfoldable pub any_bit : ℕ → (ℕ → Bool) → Bool
any_bit zero bits = false
any_bit (suc n) bits = bits n || any_bit n bits

-- `counters[j]++; count++` at a hit; past the range of an `int` it is undefined.
unfoldable pub count_hit : ℕ → Bool → Counts → Option Counts
count_hit j here found =
    if not here
    then some found
    else if ltb (suc found.count) (2 ^ 31)
    then some (record { count = suc found.count; counters = bump j found.counters })
    else none

module _ (alphabet : ℕ → Bool) (text : Bytes) where
  -- `!alphabet[(int)text[i]]`
  unfoldable pub apart : ℕ → Option Bool
  apart i = if ltb (get_or text i 0) 128 then some (not (alphabet (get_or text i 0))) else none

  -- The test on a word that ends at `text[i]`; its `pos` is `i - size + 1`.
  unfoldable pub is_word : ℕ → Bytes → Option Bool
  is_word i word = if ltb (suc i) (length word) then none else do
    before ← if suc i == length word then some true else apart (suc i - length word - 1)
    after ←
        if before then (if suc i == length text then some true else apart (suc i)) else some false
    some (after && strncasecmp (length word) (drop (suc i - length word) text) word)

  -- The loop over the words, from the number `j` on, at a state with these bits.
  unfoldable pub search_words : ℕ → (ℕ → Bool) → ℕ → List Bytes → Counts → Option Counts
  search_words i bits j [] found = some found
  search_words i bits j (word ∷ list) found = elim (bits j && ltb 0 (length word)) [
    | false ↦ search_words i bits (suc j) list found
    | true ↦ do
      here ← is_word i word
      found' ← count_hit j here found
      search_words i bits (suc j) list found'
  ]

  -- The loop over the text, from `text[i]` on.
  unfoldable pub search_text : Prepared → List Bytes → ℕ → Bytes → ℕ → Counts → Option Counts
  search_text p list i [] state found = some found
  search_text p list i (c ∷ rest) state found = do
    q ← fall p.tables.state p.tables.gotos p.linked.failures state (tolower c)
    found' ← elim (any_bit (length list) (p.linked.matches q)) [
      | false ↦ some found
      | true ↦ search_words i (p.linked.matches q) 0 list found
    ]
    search_text p list (suc i) rest q found'

-- `count = 0` and `counters.resize(list.size(), 0)`
unfoldable pub no_counts : List Bytes → Counts
no_counts list = record { count = 0; counters = replicate (length list) 0 }

-- The whole loop over the text.
unfoldable pub count_all : (ℕ → Bool) → Prepared → List Bytes → Bytes → Option Counts
count_all alphabet p list text = search_text alphabet text p list 0 text 0 (no_counts list)
