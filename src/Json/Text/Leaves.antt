-- ===== src/Json/Text/Leaves.antt =====
-- What the loops over strings and numbers leave of their text.
use bkjs_utils.Prelude.{
  ℕ, zero, suc, ◌<◌, ◌≤◌, ◌≡◌, refl, arith, Bytes, [], ◌∷◌, ◌++◌, Bool, true, false, Option, none,
  some, ◌==◌, if◌then◌else◌, ltb, length, length-drop,
}
use bkjs_utils.Json.Text.{
  Outcome, ok, failed, overrun, out_of_fuel, ◌>>=◌, string_round, escape_sequence, simple_escape,
  unicode_escape, hatoui, string_loop, read_string, read_number, ends_number,
}

-- The outcome is not for lack of fuel, and a result satisfies the predicate.
pub data Ensures {ℓ κ} {A : Type ℓ} (P : A → Type κ) : Outcome A → Type (ℓ ⊔ κ) where
  holds : {a : A} → P a → Ensures P (ok a)
  fails : Ensures P failed
  overruns : Ensures P overrun

module _ {ℓ κ} {A : Type ℓ} {P : A → Type κ} where
  pub Ensures-if :
      (b : Bool) {x y : Outcome A}
      → (b ≡ true → Ensures P x)
      → (b ≡ false → Ensures P y)
      → Ensures P (if b then x else y)
  Ensures-if true hx hy = hx refl
  Ensures-if false hx hy = hy refl

  pub Ensures-bind {ℓ' κ'} :
      {B : Type ℓ'} {Q : B → Type κ'} {r : Outcome A} {f : A → Outcome B}
      → Ensures P r
      → ((a : A) → P a → Ensures Q (f a))
      → Ensures Q (r >>= f)
  Ensures-bind (holds {a} h) k = k a h
  Ensures-bind fails k = fails
  Ensures-bind overruns k = overruns

-- What is left is no longer than `n`.
abbrev pub Leaves {ℓ} : {A : Type ℓ} → ℕ → Outcome (A × Bytes) → Type ℓ
Leaves n r = Ensures (λ p. length p.1 ≤ n) r

unicode_escape-Leaves : (it : Bytes) → Leaves (length it) (unicode_escape it)
unfolding unicode_escape
unicode_escape-Leaves it =
    Ensures-if ((hatoui 4 0 it).1 == 0) (λ h. holds (omega (arith, length-drop 4 it))) (λ h. fails)

pub weaken {ℓ} : {A : Type ℓ} {r : Outcome (A × Bytes)} (n m : ℕ) → n ≤ m → Leaves n r → Leaves m r
weaken n m le (holds h) = holds (omega arith)
weaken n m le fails = fails
weaken n m le overruns = overruns

simple-Leaves :
    (it : Bytes) (o : Option ℕ)
    → Leaves {A = Option Bytes}
        (suc (length it))
        (elim o [ none ↦ failed | some d ↦ ok (some (d ∷ []), it) ])
simple-Leaves it none = fails
simple-Leaves it (some d) = holds (omega arith)

escape_sequence-Leaves : (it : Bytes) → Leaves (length it) (escape_sequence it)
unfolding escape_sequence
escape_sequence-Leaves [] = fails
escape_sequence-Leaves (c ∷ it) =
    Ensures-if (c == b'u')
      (λ h. weaken (length it) (suc (length it)) (omega arith) (unicode_escape-Leaves it))
      (λ h. simple-Leaves it (simple_escape c))

string_round-Leaves : (c : ℕ) (it : Bytes) → Leaves (length it) (string_round c it)
unfolding string_round
string_round-Leaves c it =
    Ensures-if (ltb c 0x20) (λ h. fails)
      (λ h.
        Ensures-if (c == b'\\') (λ h. escape_sequence-Leaves it)
          (λ h. Ensures-if (c == b'"') (λ h. holds (omega arith)) (λ h. holds (omega arith))))

string_loop-Leaves :
    (rounds : ℕ) (it val : Bytes)
    → length it < rounds
    → Leaves (length it) (string_loop rounds it val)
unfolding string_loop
string_loop-Leaves zero it val h = absurd (omega arith)
string_loop-Leaves (suc rounds) [] val h = holds (omega arith)
string_loop-Leaves (suc rounds) (c ∷ it) val h =
    further (string_loop-Leaves rounds) (string_round c it) (string_round-Leaves c it)
  where
    further :
        ((rest val : Bytes)
          → length rest < rounds
          → Leaves (length rest) (string_loop rounds rest val))
        → (r : Outcome (Option Bytes × Bytes)) → Leaves (length it) r
        → Leaves (suc (length it)) (elim r [
          | ok (piece, rest) ↦ elim piece [
            | none ↦ ok (val, rest)
            | some bs ↦ string_loop rounds rest (val ++ bs)
          ]
          | failed ↦ failed
          | overrun ↦ overrun
          | out_of_fuel ↦ out_of_fuel
        ])
    further ih (ok (none, rest)) (holds p) = holds (omega arith)
    further ih (ok (some bs, rest)) (holds p) =
        weaken (length rest) (suc (length it)) (omega arith) (ih rest (val ++ bs) (omega arith))
    further ih failed p = fails
    further ih overrun p = overruns
    further ih out_of_fuel p = elim p [ ]

pub read_string-Leaves : (it : Bytes) → Leaves (length it) (read_string it)
unfolding read_string
read_string-Leaves it = string_loop-Leaves (suc (length it)) it [] (omega arith)

read_number-Leaves : (it : Bytes) → Leaves (length it) (read_number it)
unfolding read_number
read_number-Leaves [] = overruns
read_number-Leaves (c ∷ it) =
    Ensures-if (ends_number c) (λ h. holds (omega arith))
      (λ h. Ensures-bind (read_number-Leaves it) (λ r p. holds (omega arith)))

-- A number that begins with a character of a number reads it.
pub read_number_shorter :
    (c : ℕ) (it : Bytes) → ends_number c ≡ false → Leaves (length it) (read_number (c ∷ it))
unfolding read_number
read_number_shorter c it h = rw h (Ensures-bind (read_number-Leaves it) (λ r p. holds p))
