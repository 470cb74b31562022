-- ===== src/Strings/Trim.antt =====
-- Trimming.
use bkjs_utils.Prelude.{
  ℕ, ◌+◌, ◌-◌, ◌≡◌, refl, arith, ap, Bytes, [], ◌∷◌, ◌++◌, true, false, none, some, length, All,
  append_assoc, length-append, take_all, drop_all,
}
use bkjs_utils.Strings.{occurs, find_first_not_of, find_last_not_of, str_trim}

-- Bytes that are trimmed away.
abbrev pub Trimmed : Bytes → Bytes → Type 0
Trimmed delim = All (λ c. occurs c delim ≡ true)

find_first_not_of-front :
    (delim front : Bytes) (x : ℕ) (rest : Bytes)
    → Trimmed delim front
    → occurs x delim ≡ false
    → find_first_not_of delim (front ++ x ∷ rest) ≡ some (length front)
unfolding find_first_not_of
find_first_not_of-front delim [] x rest h n = rw n
find_first_not_of-front delim (c ∷ front) x rest (hc, h) n =
    rw (hc, find_first_not_of-front delim front x rest h n)

find_last_not_of-none : (delim s : Bytes) → Trimmed delim s → find_last_not_of delim s ≡ none
unfolding find_last_not_of
find_last_not_of-none delim [] h = refl
find_last_not_of-none delim (c ∷ s) (hc, h) = rw (find_last_not_of-none delim s h, hc)

find_last_not_of-back :
    (delim s : Bytes) (y : ℕ) (back : Bytes)
    → Trimmed delim back
    → occurs y delim ≡ false
    → find_last_not_of delim (s ++ y ∷ back) ≡ some (length s)
unfolding find_last_not_of
find_last_not_of-back delim [] y back h n = rw (find_last_not_of-none delim back h, n)
find_last_not_of-back delim (c ∷ s) y back h n = rw (find_last_not_of-back delim s y back h n)

module _ (delim front back text : Bytes) (x y : ℕ) (tail init : Bytes) where
  -- A text that begins and ends with bytes that are not in `delim` is what `bkStrTrim` leaves of it
  -- between bytes of `delim`.
  str_trim-padded :
      text ≡ x ∷ tail
      → text ≡ init ++ y ∷ []
      → occurs x delim ≡ false
      → occurs y delim ≡ false
      → Trimmed delim front
      → Trimmed delim back
      → str_trim (front ++ (text ++ back)) delim ≡ text
  unfolding str_trim
  str_trim-padded begins ends nx ny hf hb =
      let first : find_first_not_of delim (front ++ (text ++ back)) ≡ some (length front) =
        rw begins (find_first_not_of-front delim front x (tail ++ back) hf nx) in
      let split : front ++ (text ++ back) ≡ (front ++ init) ++ y ∷ back =
        rw (ends, append_assoc init (y ∷ []) back, append_assoc front init (y ∷ back)) in
      let last : find_last_not_of delim (front ++ (text ++ back)) ≡ some (length (front ++ init)) =
        rw split (find_last_not_of-back delim (front ++ init) y back hb ny) in
      let count : length (front ++ init) - length front + 1 ≡ length text =
        omega (arith, length-append front init, ap length ends, length-append init (y ∷ [])) in
      rw (str_trim, first, last, drop_all front (text ++ back), count, take_all text back)
