-- ===== src/Json/Text/Ended.antt =====
-- What the loops over strings and numbers leave of a text whose end stops the loop over a number.
use bkjs_utils.Prelude.{
  ℕ, zero, suc, ◌≡◌, refl, Bytes, [], ◌∷◌, ◌++◌, Bool, true, false, Option, none, some, ◌==◌,
  length, drop, if◌then◌else◌, ltb,
}
use bkjs_utils.Json.Text.{
  Outcome, ok, failed, overrun, out_of_fuel, ◌>>=◌, string_round, escape_sequence, simple_escape,
  unicode_escape, hatoui, string_loop, read_string, read_number, ends_number,
}

-- A text that is empty, or whose last byte ends a number.
unfoldable pub is_ended : Bytes → Bool
is_ended [] = true
is_ended (c ∷ []) = ends_number c
is_ended (c ∷ d ∷ it) = is_ended (d ∷ it)

abbrev pub IsEnded : Bytes → Type 0
IsEnded it = is_ended it ≡ true

pub IsEnded-tail : (c : ℕ) (it : Bytes) → IsEnded (c ∷ it) → IsEnded it
unfolding is_ended
IsEnded-tail c [] h = refl
IsEnded-tail c (d ∷ it) h = h

pub IsEnded-drop : (n : ℕ) (it : Bytes) → IsEnded it → IsEnded (drop n it)
unfolding is_ended
IsEnded-drop zero it h = h
IsEnded-drop (suc n) [] h = refl
IsEnded-drop (suc n) (c ∷ it) h = IsEnded-drop n it (IsEnded-tail c it h)

-- The outcome is not a read past the end, and a result satisfies the predicate.
pub data Stays {ℓ} {A : Type ℓ} (P : A → Type 0) : Outcome A → Type ℓ where
  stays : {a : A} → P a → Stays P (ok a)
  refuses : Stays P failed
  lacks : Stays P out_of_fuel

module _ {ℓ} {A : Type ℓ} {P : A → Type 0} where
  pub Stays-if :
      (b : Bool) {x y : Outcome A}
      → (b ≡ true → Stays P x)
      → (b ≡ false → Stays P y)
      → Stays P (if b then x else y)
  Stays-if true hx hy = hx refl
  Stays-if false hx hy = hy refl

  pub Stays-bind {ℓ'} :
      {B : Type ℓ'} {Q : B → Type 0} {r : Outcome A} {f : A → Outcome B}
      → Stays P r
      → ((a : A) → P a → Stays Q (f a))
      → Stays Q (r >>= f)
  Stays-bind (stays {a} h) k = k a h
  Stays-bind refuses k = refuses
  Stays-bind lacks k = lacks

-- What is left is ended.
abbrev pub Leaves {ℓ} : {A : Type ℓ} → Outcome (A × Bytes) → Type ℓ
Leaves r = Stays (λ p. IsEnded p.1) r

simple-Leaves :
    (it : Bytes) (o : Option ℕ)
    → IsEnded it
    → Leaves {A = Option Bytes} (elim o [ none ↦ failed | some d ↦ ok (some (d ∷ []), it) ])
simple-Leaves it none h = refuses
simple-Leaves it (some d) h = stays h

escape_sequence-Leaves : (it : Bytes) → IsEnded it → Leaves (escape_sequence it)
unfolding escape_sequence unicode_escape
escape_sequence-Leaves [] h = refuses
escape_sequence-Leaves (c ∷ it) h =
    let later = IsEnded-tail c it h in
    Stays-if (c == b'u')
      (λ e. Stays-if ((hatoui 4 0 it).1 == 0) (λ e. stays (IsEnded-drop 4 it later)) (λ e. refuses))
      (λ e. simple-Leaves it (simple_escape c) later)

string_round-Leaves : (c : ℕ) (it : Bytes) → IsEnded it → Leaves (string_round c it)
unfolding string_round
string_round-Leaves c it h =
    Stays-if (ltb c 0x20) (λ e. refuses)
      (λ e.
        Stays-if (c == b'\\') (λ e. escape_sequence-Leaves it h)
          (λ e. Stays-if (c == b'"') (λ e. stays h) (λ e. stays h)))

string_loop-Leaves : (rounds : ℕ) (it val : Bytes) → IsEnded it → Leaves (string_loop rounds it val)
unfolding string_loop
string_loop-Leaves zero it val h = lacks
string_loop-Leaves (suc rounds) [] val h = stays h
string_loop-Leaves (suc rounds) (c ∷ it) val h =
    further (string_loop-Leaves rounds) (string_round c it)
      (string_round-Leaves c it (IsEnded-tail c it h))
  where
    further :
        ((rest val : Bytes) → IsEnded rest → Leaves (string_loop rounds rest val))
        → (r : Outcome (Option Bytes × Bytes)) → Leaves r
        → Leaves (elim r [
          | ok (piece, rest) ↦ elim piece [
            | none ↦ ok (val, rest)
            | some bs ↦ string_loop rounds rest (val ++ bs)
          ]
          | failed ↦ failed
          | overrun ↦ overrun
          | out_of_fuel ↦ out_of_fuel
        ])
    further ih (ok (none, rest)) (stays p) = stays p
    further ih (ok (some bs, rest)) (stays p) = ih rest (val ++ bs) p
    further ih failed p = refuses
    further ih overrun p = elim p [ ]
    further ih out_of_fuel p = lacks

-- The loop over a number stops at the last byte, if not before.
pub read_number-Leaves : (c : ℕ) (it : Bytes) → IsEnded (c ∷ it) → Leaves (read_number (c ∷ it))
unfolding read_number is_ended
read_number-Leaves c [] h = rw (read_number, h) (stays h)
read_number-Leaves c (d ∷ it) h =
    Stays-if (ends_number c) (λ e. stays h)
      (λ e. Stays-bind (read_number-Leaves d it h) (λ r p. stays p))

pub read_string-Leaves : (it : Bytes) → IsEnded it → Leaves (read_string it)
unfolding read_string
read_string-Leaves it h = string_loop-Leaves (suc (length it)) it [] h
