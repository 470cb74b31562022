-- ===== src/Strings/Split/Total.antt =====
-- The rounds of the loop of `bkStrSplit`.
use bkjs_utils.Prelude.{
  ℕ, zero, suc, ◌<◌, ◌≤◌, ◌≡◌, refl, ap, ◌∙◌, arith, Bytes, List, [], ◌∷◌, ◌++◌, Bool, true, false,
  not, ◌&&◌, Option, none, some, ◌>>=◌, ◌==◌, length, Bool-cases, Option-cases, inl, inr,
}
use bkjs_utils.Strings.{occurs}
use bkjs_utils.Strings.Split.{
  leading, skip, until, close_quote, next_word, push, start_word, split_loop, str_split,
}

-- Nothing grows, and a delimiter is consumed.
length-leading : (delim str : Bytes) → length (leading delim str).1 ≤ length str
unfolding leading
length-leading delim [] = omega arith
length-leading delim (c ∷ str) = ground (length-leading delim str, arith)

length-skip : (delim str : Bytes) → length (skip delim str) ≤ length str
unfolding skip
length-skip delim [] = omega arith
length-skip delim (c ∷ str) = ground (length-skip delim str, arith)

-- What is left behind a delimiter, with it.
abbrev left : Option Bytes → ℕ
left none = 0
left (some next) = suc (length next)

abbrev left_closed : Option (Bytes × Bytes) → ℕ
left_closed none = 0
left_closed (some (word, rest)) = length rest

until_left : (delim str : Bytes) → left (until delim str).1 ≤ length str
unfolding until
until_left delim [] = omega arith
until_left delim (c ∷ str) = ground (until_left delim str, arith)

left_closed_more :
    (c : ℕ) (found : Option (Bytes × Bytes)) (n : ℕ)
    → left_closed found ≤ n
    → left_closed (do (word, rest) ← found; some (c ∷ word, rest)) ≤ suc n
left_closed_more c none n h = omega arith
left_closed_more c (some (word, rest)) n h = omega arith

close_quote_left :
    (quotes : Bytes) (fresh : Bool) (prev : ℕ) (str : Bytes)
    → left_closed (close_quote quotes fresh prev str) ≤ length str
unfolding close_quote
close_quote_left quotes fresh prev [] = ground arith
close_quote_left quotes fresh prev (c ∷ str) =
    let ih = close_quote_left quotes (occurs c quotes) c str in
    elim (Bool-cases (occurs c quotes && not (prev == b'\\'))) [
      | inl e ↦ rw e (omega arith)
      | inr e ↦
          rw e (left_closed_more c (close_quote quotes (occurs c quotes) c str) (length str) ih)
    ]

next_word_left :
    (delim quotes : Bytes) (c : ℕ) (str : Bytes)
    → left (next_word delim quotes c str).1 ≤ suc (length str)
unfolding next_word
next_word_left delim quotes c str = elim (Bool-cases (occurs c quotes)) [
  | inr e ↦ rw e (until_left delim (c ∷ str))
  | inl e ↦ elim (Option-cases (close_quote quotes true c str)) [
    | inl f ↦ rw (e, f) (ground (until_left delim str, arith))
    | inr ((word, rest), f) ↦
        let short : length rest ≤ length str =
          ground (close_quote_left quotes true c str, f, arith) in
        rw (e, f) (ground (until_left delim rest, short, arith))
  ]
]

length-start_word :
    (keepempty : Bool) (delim str : Bytes) → length (start_word keepempty delim str).1 ≤ length str
unfolding start_word
length-start_word true delim str = length-leading delim str
length-start_word false delim str = length-skip delim str

module _ (rounds : ℕ) (delim quotes : Bytes) (keepempty : Bool) (str : Bytes) where
  -- The three ways that a round goes.
  pub round_end :
      (empties : List Bytes)
      → start_word keepempty delim str ≡ (empties, [])
      → split_loop (suc rounds) delim quotes keepempty str ≡ some empties
  unfolding split_loop
  round_end empties h = rw (split_loop, ap (λ x. x.1) h, ap (λ x. x.0) h)

  pub round_last :
      (empties : List Bytes) (c : ℕ) (rest word : Bytes)
      → start_word keepempty delim str ≡ (empties, c ∷ rest)
      → next_word delim quotes c rest ≡ (word, none)
      → split_loop (suc rounds) delim quotes keepempty str
        ≡ some (empties ++ push keepempty word [])
  unfolding split_loop
  round_last empties c rest word h e =
      ground (h, e, ap (λ x. x.0) h, ap (λ x. x.1) h, ap (λ x. x.0) e, ap (λ x. x.1) e, arith)

  pub round_more :
      (empties : List Bytes) (c : ℕ) (rest word next : Bytes)
      → start_word keepempty delim str ≡ (empties, c ∷ rest)
      → next_word delim quotes c rest ≡ (word, some next)
      → split_loop (suc rounds) delim quotes keepempty str ≡ (do
        rc ← split_loop rounds delim quotes keepempty next
        some (empties ++ push keepempty word rc))
  unfolding split_loop
  round_more empties c rest word next h e =
      ground (h, e, ap (λ x. x.0) h, ap (λ x. x.1) h, ap (λ x. x.0) e, ap (λ x. x.1) e, arith)

word_cases :
    (n : ℕ) (delim quotes : Bytes) (keepempty : Bool) (str : Bytes) (empties : List Bytes) (c : ℕ)
    (rest : Bytes)
    → start_word keepempty delim str ≡ (empties, c ∷ rest)
    → suc (length rest) ≤ length str
    → length str < suc n
    → ((next : Bytes)
        → length next < n
        → (rc : List Bytes) × (split_loop n delim quotes keepempty next ≡ some rc))
    → (w : Bytes × Option Bytes) → next_word delim quotes c rest ≡ w
    → (rc : List Bytes) × (split_loop (suc n) delim quotes keepempty str ≡ some rc)
word_cases n delim quotes keepempty str empties c rest e short h ih (word, none) f =
    (_, round_last n delim quotes keepempty str empties c rest word e f)
word_cases n delim quotes keepempty str empties c rest e short h ih (word, some next) f =
    let less : suc (length next) ≤ suc (length rest) =
      ground (next_word_left delim quotes c rest, ap (λ x. left x.1) f, arith) in
    let (rc, g) = ih next (omega arith) in
    (
      empties ++ push keepempty word rc,
      round_more n delim quotes keepempty str empties c rest word next e f ∙ rw g,
    )

round_cases :
    (n : ℕ) (delim quotes : Bytes) (keepempty : Bool) (str : Bytes) (s : List Bytes × Bytes)
    → start_word keepempty delim str ≡ s
    → length str < suc n
    → ((next : Bytes)
        → length next < n
        → (rc : List Bytes) × (split_loop n delim quotes keepempty next ≡ some rc))
    → (rc : List Bytes) × (split_loop (suc n) delim quotes keepempty str ≡ some rc)
round_cases n delim quotes keepempty str (empties, []) e h ih =
    (empties, round_end n delim quotes keepempty str empties e)
round_cases n delim quotes keepempty str (empties, c ∷ rest) e h ih =
    let short : suc (length rest) ≤ length str =
      ground (ap (λ x. length x.1) e, length-start_word keepempty delim str, arith) in
    word_cases n delim quotes keepempty str empties c rest e short h ih
      (next_word delim quotes c rest) refl

split_loop_total :
    (rounds : ℕ) (delim quotes : Bytes) (keepempty : Bool) (str : Bytes)
    → length str < rounds
    → (rc : List Bytes) × (split_loop rounds delim quotes keepempty str ≡ some rc)
split_loop_total zero delim quotes keepempty str h = absurd (omega arith)
split_loop_total (suc n) delim quotes keepempty str h =
    round_cases n delim quotes keepempty str (start_word keepempty delim str) refl h
      (split_loop_total n delim quotes keepempty)

-- `bkStrSplit` ends on every text, delimiters, quotes and mode.
pub str_split_total :
    (str delim quotes : Bytes) (keepempty : Bool)
    → (rc : List Bytes) × (str_split str delim quotes keepempty ≡ some rc)
unfolding str_split
str_split_total str delim quotes keepempty =
    split_loop_total (suc (length str)) delim quotes keepempty str (omega arith)
