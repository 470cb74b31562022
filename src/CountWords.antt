-- ===== src/CountWords.antt =====
-- `bkCountWords` of bklib/bklib.cpp, with `isDelim` and the table `_alphabet`. A link of
-- `kmpNext` is `none` where the source has -1. A byte of the word past its end is the 0 that ends
-- the C string. The null tests are left out: the buffers are lists.
pub mod Links
pub mod Search
pub mod Spec
pub mod Table
use bkjs_utils.Prelude.{
  ℕ, zero, suc, ◌+◌, ◌-◌, ◌*◌, ◌/◌, ◌%◌, ◌^◌, ◌<◌, ◌≤◌, ◌≡◌, ◌≢◌, arith, Bytes, List, [], ◌∷◌, ◌++◌,
  length, refl, Bool, true, false, ◌&&◌, ◌||◌, not, Option, none, some, get_or, ltb, leb, ◌==◌,
  if◌then◌else◌, bit_and, replicate,
}

-- `_alphabet`, from the space to 0x7f: 1 for a character that can be part of a token.
abbrev pub token_chars : List ℕ
token_chars =
    replicate 16 0
    ++ replicate 10 1
    ++ replicate 6 0
    ++ 0 ∷ replicate 26 1
    ++ replicate 4 0
    ++ 1 ∷ 0 ∷ replicate 26 1
    ++ replicate 5 0

-- `isDelim`
unfoldable pub is_delim : ℕ → Bool
is_delim ch = bit_and ch 0x80 == 0 && (ltb ch 0x20 || get_or token_chars (ch - 0x20) 0 == 0)

-- The test on a full match of `word` at `text[start..end)`.
unfoldable pub is_delimited : Bytes → ℕ → ℕ → Bool
is_delimited text start end =
    (start == 0 || is_delim (get_or text (start - 1) 0))
    && (end == length text || is_delim (get_or text end 0))

-- One more matched character: `i++` from an index, 0 from -1.
abbrev pub advance : Option ℕ → ℕ
advance none = 0
advance (some t) = suc t

module _ (word : Bytes) where
  -- `word[i]`
  abbrev pub char_at : ℕ → ℕ
  char_at i = get_or word i 0

  -- `while (j > -1 && word[j] != c) j = kmpNext[j];` with a bound on the rounds.
  pub fall_back : List (Option ℕ) → ℕ → ℕ → Option ℕ → Option ℕ
  fall_back next c fuel none = none
  fall_back next c zero (some t) = some t
  fall_back next c (suc fuel) (some t) = elim (char_at t == c) [
    | true ↦ some t
    | false ↦ fall_back next c fuel (get_or next t none)
  ]

  -- The preprocessing loop with `wlen - i` rounds left; `next` holds `kmpNext[0..i]`.
  pub prepare : ℕ → ℕ → Option ℕ → List (Option ℕ) → List (Option ℕ)
  prepare zero i j next = next
  prepare (suc rounds) i j next =
      let j' = advance (fall_back next (char_at i) (suc (length word)) j) in
      let link = if char_at (suc i) == char_at j' then get_or next j' none else some j' in
      prepare rounds (suc i) (some j') (next ++ link ∷ [])

  pub links : List (Option ℕ)
  links = prepare (length word) 0 none (none ∷ [])

  -- The searching loop with `tlen - j` rounds left.
  pub search : List (Option ℕ) → Bytes → Bool → ℕ → Option ℕ → ℕ → ℕ → ℕ
  search next text all zero i j count = count
  search next text all (suc rounds) i j count =
      let i' = advance (fall_back next (get_or text j 0) (suc (length word)) i) in
      let j' = suc j in
      let partial = search next text all rounds (some i') j' count in
      let missed = search next text all rounds (get_or next i' none) j' count in
      let counted = search next text all rounds (get_or next i' none) j' (suc count) in
      if leb (length word) i'
      then (if is_delimited text (j' - i') j'
          then (if not all then suc count else counted)
          else missed)
      else partial

-- `bkCountWords`
pub count_words : Bytes → Bytes → Bool → ℕ
count_words word text all =
    if length word == 0 || length text == 0 || ltb (length text) (length word)
    then 0
    else search word (links word) text all (length text) (some 0) 0 0

-- `bkFindWords`: the count of the first match alone.
pub find_words : Bytes → Bytes → Bool
find_words word text = ltb 0 (count_words word text false)
