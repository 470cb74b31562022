-- ===== src/Strings/Replace.antt =====
-- Replacing.
use bkjs_utils.Prelude.{
  ℕ, zero, suc, ◌+◌, ◌<◌, ◌≡◌, refl, arith, ap, ap₂, Bytes, [], ◌∷◌, ◌++◌, true, none, some, length,
  take, drop, length-append, length-take, length-drop, Bool-cases, Option-cases, inl, inr,
}
use bkjs_utils.Strings.{starts_with, find, replace_loop, str_replace}

find_empty : (text : Bytes) → find [] text ≡ some 0
unfolding find starts_with
find_empty [] = refl
find_empty (c ∷ text) = refl

-- A search for the empty string never ends.
str_replace_empty :
    (rounds : ℕ) (value replace : Bytes) → str_replace rounds value [] replace ≡ none
unfolding str_replace replace_loop
str_replace_empty zero value replace = refl
str_replace_empty (suc rounds) value replace =
    rw (replace_loop, find_empty value, str_replace_empty rounds (drop 0 value) replace)

starts_with-front :
    (word text : Bytes) → starts_with word text ≡ true → word ++ drop (length word) text ≡ text
unfolding starts_with
starts_with-front [] text h = refl
starts_with-front (c ∷ word) [] h = absurd (ground arith)
starts_with-front (c ∷ word) (d ∷ text) h =
    let same : c ≡ d = ground arith in
    let rest : starts_with word text ≡ true = ground arith in
    ap₂ (λ a l. a ∷ l) same (starts_with-front word text rest)

-- The word stands at the place that `find` returns.
FoundAt : Bytes → Bytes → ℕ → Type 0
FoundAt word text n = take n text ++ (word ++ drop (n + length word) text) ≡ text

find-FoundAt : (word text : Bytes) (n : ℕ) → find word text ≡ some n → FoundAt word text n
unfolding find FoundAt
find-FoundAt word [] n h = elim (Bool-cases (starts_with word [])) [
  | inl t ↦
      let zero_at : n ≡ 0 = ground arith in
      let sum : 0 + length word ≡ length word = omega arith in
      rw (zero_at, sum) (starts_with-front word [] t)
  | inr f ↦ absurd (ground arith)
]
find-FoundAt word (c ∷ text) n h = elim (Bool-cases (starts_with word (c ∷ text))) [
  | inl t ↦
      let zero_at : n ≡ 0 = ground arith in
      let sum : 0 + length word ≡ length word = omega arith in
      rw (zero_at, sum) (starts_with-front word (c ∷ text) t)
  | inr f ↦ elim (Option-cases (find word text)) [
    | inl missing ↦ absurd (ground arith)
    | inr (m, found) ↦
        let next : n ≡ suc m = ground arith in
        let sum : suc m + length word ≡ suc (m + length word) = omega arith in
        rw (next, sum) (ap (λ t. c ∷ t) (find-FoundAt word text m found))
  ]
]

-- Replacing a text that is not empty by itself ends, and changes nothing; one round more than the
-- string has characters is enough.
str_replace_self :
    (rounds : ℕ) (value word : Bytes)
    → 0 < length word
    → length value < rounds
    → str_replace rounds value word word ≡ some value
unfolding str_replace replace_loop FoundAt
str_replace_self zero value word w h = absurd (omega arith)
str_replace_self (suc rounds) value word w h = elim (Option-cases (find word value)) [
  | inl missing ↦ rw (replace_loop, missing)
  | inr (n, found) ↦
      let at = find-FoundAt word value n found in
      let rest = drop (n + length word) value in
      let shorter : length rest < rounds = omega (
        arith,
        ap length at,
        length-append (take n value) (word ++ rest),
        length-append word rest,
        length-take n value,
        length-drop (n + length word) value,
      ) in
      rw (replace_loop, found, str_replace_self rounds rest word w shorter) (ap some at)
]
