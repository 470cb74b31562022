-- ===== src/Prelude/Text.antt =====
-- Comparison of byte strings.

use mathlib.Core.Path.{◌≡◌, refl, ap₂}
use mathlib.Core.Logic.{◌≢◌, inl, inr}
use mathlib.Core.Bool.{Bool, true, false, ◌&&◌}
use mathlib.Core.List.{[], ◌∷◌}
use native.Mathlib.Omega.{arith}
use bkjs_utils.Prelude.Tests.{◌==◌, Bool-cases}
use bkjs_utils.Prelude.Lists.{Bytes}

-- `string::operator==`
abbrev pub string_eq : Bytes → Bytes → Bool
string_eq [] [] = true
string_eq [] (d ∷ ds) = false
string_eq (c ∷ cs) [] = false
string_eq (c ∷ cs) (d ∷ ds) = (c == d) && string_eq cs ds

pub string_eq_self : (s : Bytes) → string_eq s s ≡ true
string_eq_self [] = refl
string_eq_self (c ∷ s) = ground (arith, string_eq_self s)

pub string_eq_equal : (s t : Bytes) → string_eq s t ≡ true → s ≡ t
string_eq_equal [] [] h = refl
string_eq_equal [] (d ∷ t) h = ground arith
string_eq_equal (c ∷ s) [] h = ground arith
string_eq_equal (c ∷ s) (d ∷ t) h =
    let heads : c ≡ d = ground arith in
    let tails : string_eq s t ≡ true = ground arith in
    ap₂ (λ a l. a ∷ l) heads (string_eq_equal s t tails)

pub string_eq_differ : (s t : Bytes) → s ≢ t → string_eq s t ≡ false
string_eq_differ s t h = elim (Bool-cases (string_eq s t)) [
  | inl e ↦ absurd (h (string_eq_equal s t e))
  | inr e ↦ e
]
