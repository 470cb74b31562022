-- ===== src/Hash/Mixing.antt =====
-- The steps that `bkHash2` and `bkHash3` compose on a 32-bit word lose nothing.
use bkjs_utils.Prelude.{
  ℕ, zero, suc, ◌+◌, ◌-◌, ◌*◌, ◌/◌, ◌%◌, ◌^◌, ◌<◌, ◌≤◌, ◌≡◌, arith, bit_xor, bit_or, u32, ◌<<<◌,
  ◌>>>◌, ◌∙◌, sym, ap,
}
use bkjs_utils.Prelude.Xor.{bit_xor_shift, bit_xor_lt_pow, bit_xor_cancel_right, bit_or_fields}
use native.Mathlib.Nat.{pow-suc, pow-succ', div-le_self, div-div-eq-div-mul}

-- `x ^= x >> k`
abbrev pub xor_shift : ℕ → ℕ → ℕ
xor_shift k x = bit_xor x (x >>> k)

pub xor_shift-lt : (k x : ℕ) → x < 2 ^ 32 → xor_shift k x < 2 ^ 32
xor_shift-lt k x h = bit_xor_lt_pow 32 x (x >>> k) h (omega (arith, div-le_self x (2 ^ k)))

shift-le_half : (k x : ℕ) → x / 2 ^ suc k ≤ x / 2
shift-le_half k x =
    let e : x / 2 ^ suc k ≡ x / 2 / 2 ^ k =
      ap (λ t. x / t) (pow-succ' 2 k) ∙ sym (div-div-eq-div-mul x 2 (2 ^ k)) in
    omega (arith, e, div-le_self (x / 2) (2 ^ k))

-- The bits that a shift drops are found again from the top, `suc k` of them at a time.
xor_shift_inj_below :
    (k n x y : ℕ) → x < 2 ^ n → y < 2 ^ n → xor_shift (suc k) x ≡ xor_shift (suc k) y → x ≡ y
xor_shift_inj_below k zero x y hx hy e = omega arith
xor_shift_inj_below k (suc n) x y hx hy e =
    let p = 2 ^ suc k in
    let high : xor_shift (suc k) (x / p) ≡ xor_shift (suc k) (y / p) =
      sym (bit_xor_shift (suc k) x (x / p)) ∙ ap (λ t. t / p) e ∙ bit_xor_shift (suc k) y (y / p) in
    let rest : x / p ≡ y / p =
      xor_shift_inj_below k n (x / p) (y / p) (omega (arith, shift-le_half k x, pow-suc 2 n))
        (omega (arith, shift-le_half k y, pow-suc 2 n)) high in
    bit_xor_cancel_right x y (y / p) (ap (bit_xor x) (sym rest) ∙ e)

-- `x ^= x >> k` is injective on 32-bit words for every shift `k` but 0.
pub xor_shift_inj :
    (k x y : ℕ) → x < 2 ^ 32 → y < 2 ^ 32 → xor_shift (suc k) x ≡ xor_shift (suc k) y → x ≡ y
xor_shift_inj k = xor_shift_inj_below k 32

-- `x = (x << k) | (x >> (32 - k))`
abbrev pub rotate_left : ℕ → ℕ → ℕ
rotate_left k x = bit_or (u32 (x <<< k)) (x >>> (32 - k))

rotate_left-sum : (x : ℕ) → x < 2 ^ 32 → rotate_left 13 x ≡ x % 2 ^ 19 * 2 ^ 13 + x / 2 ^ 19
rotate_left-sum x h =
    let e : u32 (x <<< 13) ≡ x % 2 ^ 19 * 2 ^ 13 = omega arith in
    rw e (bit_or_fields 13 (x % 2 ^ 19) (x >>> 19) (omega arith))

pub rotate_left-lt : (x : ℕ) → x < 2 ^ 32 → rotate_left 13 x < 2 ^ 32
rotate_left-lt x h = omega (arith, rotate_left-sum x h)

pub rotate_left_inj :
    (x y : ℕ) → x < 2 ^ 32 → y < 2 ^ 32 → rotate_left 13 x ≡ rotate_left 13 y → x ≡ y
rotate_left_inj x y hx hy e = omega (arith, rotate_left-sum x hx, rotate_left-sum y hy, e)

-- A multiplier `c` with an inverse `d` modulo 2 ^ 32 loses nothing.
pub mul_inj :
    (c d x y : ℕ)
    → ((z : ℕ) → z < 2 ^ 32 → u32 (u32 (z * c) * d) ≡ z)
    → x < 2 ^ 32
    → y < 2 ^ 32
    → u32 (x * c) ≡ u32 (y * c)
    → x ≡ y
mul_inj c d x y undo hx hy e = sym (undo x hx) ∙ ap (λ t. u32 (t * d)) e ∙ undo y hy
