-- ===== src/Prelude/Int.antt =====
-- The `int` of 32 bits: whole numbers, of which a result outside the range is undefined, and the
-- conversion from an unsigned number, which wraps.
use Prim.Native.Nat.{ℕ, suc, ◌+◌, ◌-◌, ◌*◌, ◌/◌, ◌%◌, ◌^◌, ◌<◌}
use mathlib.Core.Path.{◌≡◌}
use native.Mathlib.Omega.{arith}
use mathlib.Core.Bool.{Bool, true, false, ◌&&◌}
use mathlib.Core.Option.{Option, none, some}
use bkjs_utils.Prelude.Tests.{ltb, leb, if◌then◌else◌}

infixl 20 ◌+ℤ◌
infixl 30 ◌*ℤ◌
pub data ℤ : Type 0 where
  pos negsuc : ℕ → ℤ

-- `i <= j`
abbrev pub int_leb : ℤ → ℤ → Bool
int_leb (ℤ.pos m) (ℤ.pos n) = leb m n
int_leb (ℤ.pos m) (ℤ.negsuc n) = false
int_leb (ℤ.negsuc m) (ℤ.pos n) = true
int_leb (ℤ.negsuc m) (ℤ.negsuc n) = leb n m

abbrev pub int_eq : ℤ → ℤ → Bool
int_eq i j = int_leb i j && int_leb j i

-- `m - n`
abbrev pub int_minus : ℕ → ℕ → ℤ
int_minus m n = if leb n m then ℤ.pos (m - n) else ℤ.negsuc (n - m - 1)

-- `(int)n`
unfoldable pub as_int : ℕ → ℤ
as_int n = if ltb (n % 2 ^ 32) (2 ^ 31) then ℤ.pos (n % 2 ^ 32) else int_minus (n % 2 ^ 32) (2 ^ 32)

pub as_int_small : (n : ℕ) → n < 2 ^ 31 → as_int n ≡ ℤ.pos n
unfolding as_int
as_int_small n h = ground (h, arith)

abbrev pub ◌+ℤ◌ : ℤ → ℤ → ℤ
ℤ.pos m +ℤ ℤ.pos n = ℤ.pos (m + n)
ℤ.pos m +ℤ ℤ.negsuc n = int_minus m (suc n)
ℤ.negsuc m +ℤ ℤ.pos n = int_minus n (suc m)
ℤ.negsuc m +ℤ ℤ.negsuc n = ℤ.negsuc (suc (m + n))

abbrev pub ◌*ℤ◌ : ℤ → ℤ → ℤ
ℤ.pos m *ℤ ℤ.pos n = ℤ.pos (m * n)
ℤ.pos m *ℤ ℤ.negsuc n = int_minus 0 (m * suc n)
ℤ.negsuc m *ℤ ℤ.pos n = int_minus 0 (suc m * n)
ℤ.negsuc m *ℤ ℤ.negsuc n = ℤ.pos (suc m * suc n)

-- `i / n` for a positive `n`
abbrev pub int_div : ℤ → ℕ → ℤ
int_div (ℤ.pos m) n = ℤ.pos (m / n)
int_div (ℤ.negsuc m) n = int_minus 0 (suc m / n)

abbrev pub int_max : ℤ
int_max = ℤ.pos 0x7fffffff

abbrev pub int_min : ℤ
int_min = ℤ.negsuc 0x7fffffff

-- A result of the signed arithmetic.
abbrev pub to_int : ℤ → Option ℤ
to_int i = if int_leb int_min i && int_leb i int_max then some i else none
