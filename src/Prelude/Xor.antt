-- ===== src/Prelude/Xor.antt =====
-- The laws of `^`, and `&` with a low mask, on words of every width.
mod Digits
pub use Digits.{zero-bit_xor}
use Digits.{bit_xor_step, bit_and_step, bit_or_step, zero-bit_and, zero-bit_or}
use mathlib.Core.Path.{◌≡◌, refl, ap, ◌∙◌, sym}
use Prim.Native.Nat.{ℕ, zero, suc, ◌+◌, ◌-◌, ◌*◌, ◌/◌, ◌%◌, ◌^◌, ◌≤◌, ◌<◌, bit_xor, bit_and, bit_or}
use native.Mathlib.Nat.{pow-suc, pow-succ', one-le-pow, div-div-eq-div-mul, div-add-mod', mul_comm}
use native.Mathlib.Omega.{arith}

pub half-bit_xor : (a b : ℕ) → bit_xor a b / 2 ≡ bit_xor (a / 2) (b / 2)
half-bit_xor a b = omega (arith, bit_xor_step a b)

pub parity-bit_xor : (a b : ℕ) → bit_xor a b % 2 ≡ (a % 2 + b % 2) % 2
parity-bit_xor a b = omega (arith, bit_xor_step a b)

-- Equal halves and equal lowest digits make equal numbers.
eq_of_halves : (a b : ℕ) → a / 2 ≡ b / 2 → a % 2 ≡ b % 2 → a ≡ b
eq_of_halves a b p q = omega arith

bit_xor_assoc_below :
    (n a b c : ℕ) → a + b + c ≤ n → bit_xor (bit_xor a b) c ≡ bit_xor a (bit_xor b c)
bit_xor_assoc_below zero a b c h =
    let ea : a ≡ 0 = omega arith in
    rw ea (ap (λ t. bit_xor t c) (zero-bit_xor b) ∙ sym (zero-bit_xor _))
bit_xor_assoc_below (suc n) a b c h =
    eq_of_halves _ _
      (rw
        (
          half-bit_xor (bit_xor a b) c,
          half-bit_xor a b,
          half-bit_xor a (bit_xor b c),
          half-bit_xor b c,
        )
        (bit_xor_assoc_below n (a / 2) (b / 2) (c / 2) (omega arith)))
      (omega (
        arith,
        parity-bit_xor (bit_xor a b) c,
        parity-bit_xor a b,
        parity-bit_xor a (bit_xor b c),
        parity-bit_xor b c,
      ))

pub bit_xor_assoc : (a b c : ℕ) → bit_xor (bit_xor a b) c ≡ bit_xor a (bit_xor b c)
bit_xor_assoc a b c = bit_xor_assoc_below (a + b + c) a b c (omega arith)

bit_xor_comm_below : (n a b : ℕ) → a + b ≤ n → bit_xor a b ≡ bit_xor b a
bit_xor_comm_below zero a b h =
    let ea : a ≡ 0 = omega arith in let eb : b ≡ 0 = omega arith in rw (ea, eb)
bit_xor_comm_below (suc n) a b h =
    omega (
      arith,
      bit_xor_step a b,
      bit_xor_step b a,
      bit_xor_comm_below n (a / 2) (b / 2) (omega arith),
    )

pub bit_xor_comm : (a b : ℕ) → bit_xor a b ≡ bit_xor b a
bit_xor_comm a b = bit_xor_comm_below (a + b) a b (omega arith)

bit_xor_self_below : (n a : ℕ) → a ≤ n → bit_xor a a ≡ 0
bit_xor_self_below zero a h = let ea : a ≡ 0 = omega arith in rw ea (zero-bit_xor 0)
bit_xor_self_below (suc n) a h =
    omega (arith, bit_xor_step a a, bit_xor_self_below n (a / 2) (omega arith))

pub bit_xor_self : (a : ℕ) → bit_xor a a ≡ 0
bit_xor_self a = bit_xor_self_below a a (omega arith)

pub bit_xor-zero : (a : ℕ) → bit_xor a 0 ≡ a
bit_xor-zero a = bit_xor_comm a 0 ∙ zero-bit_xor a

-- A second `^` by the same word undoes the first.
pub bit_xor_undo : (a b : ℕ) → bit_xor (bit_xor a b) b ≡ a
bit_xor_undo a b = bit_xor_assoc a b b ∙ ap (bit_xor a) (bit_xor_self b) ∙ bit_xor-zero a

pub bit_xor_cancel_right : (a b c : ℕ) → bit_xor a c ≡ bit_xor b c → a ≡ b
bit_xor_cancel_right a b c h = sym (bit_xor_undo a c) ∙ ap (λ t. bit_xor t c) h ∙ bit_xor_undo b c

pub bit_xor_cancel_left : (a b c : ℕ) → bit_xor c a ≡ bit_xor c b → a ≡ b
bit_xor_cancel_left a b c h = bit_xor_cancel_right a b c (bit_xor_comm a c ∙ h ∙ bit_xor_comm c b)

pub bit_xor_lt_pow : (k a b : ℕ) → a < 2 ^ k → b < 2 ^ k → bit_xor a b < 2 ^ k
bit_xor_lt_pow zero a b h g =
    let ea : a ≡ 0 = omega arith in let eb : b ≡ 0 = omega arith in rw (ea, eb) (omega arith)
bit_xor_lt_pow (suc k) a b h g = omega (
  arith,
  pow-suc 2 k,
  bit_xor_step a b,
  bit_xor_lt_pow k (a / 2) (b / 2) (omega (arith, pow-suc 2 k)) (omega (arith, pow-suc 2 k)),
)

half_shift : (a k : ℕ) → a / 2 ^ suc k ≡ a / 2 / 2 ^ k
half_shift a k = rw (pow-succ' 2 k) (sym (div-div-eq-div-mul a 2 (2 ^ k)))

-- A shift to the right goes through `^`.
pub bit_xor_shift : (k a b : ℕ) → bit_xor a b / 2 ^ k ≡ bit_xor (a / 2 ^ k) (b / 2 ^ k)
bit_xor_shift zero a b =
    let e : (t : ℕ) → t / 2 ^ 0 ≡ t = λ t. omega arith in rw (e (bit_xor a b), e a, e b)
bit_xor_shift (suc k) a b =
    rw (half_shift (bit_xor a b) k, half_shift a k, half_shift b k, half-bit_xor a b)
      (bit_xor_shift k (a / 2) (b / 2))

mod_double : (a p : ℕ) → a / 2 % p * 2 + a % 2 ≡ a % (p * 2)
mod_double a p =
    let e : a / 2 / p ≡ a / (p * 2) = div-div-eq-div-mul a 2 p ∙ ap (λ t. a / t) (mul_comm 2 p) in
    let m : a / 2 / p * p ≡ a / (p * 2) * p = ap (λ (t : ℕ). t * p) e in
    omega (arith, m, div-add-mod' a (p * 2), div-add-mod' (a / 2) p)

bit_and-zero_below : (bound x : ℕ) → x ≤ bound → bit_and x 0 ≡ 0
bit_and-zero_below zero x h = let e : x ≡ 0 = omega arith in rw e (zero-bit_and 0)
bit_and-zero_below (suc bound) x h =
    let half = bit_and-zero_below bound (x / 2) (omega arith) in
    omega (arith, half, bit_and_step x 0)

bit_and-zero : (x : ℕ) → bit_and x 0 ≡ 0
bit_and-zero x = bit_and-zero_below x x (omega arith)

-- A mask of `k` low bits is the remainder by `2 ^ k`.
pub bit_and_mask : (k a : ℕ) → bit_and a (2 ^ k - 1) ≡ a % 2 ^ k
bit_and_mask zero a = bit_and-zero a ∙ omega arith
bit_and_mask (suc k) a =
    let e : 2 ^ suc k ≡ 2 ^ k * 2 = pow-suc 2 k in
    let low : (2 ^ k * 2 - 1) / 2 ≡ 2 ^ k - 1 = omega (arith, one-le-pow k 2) in
    rw (e, bit_and_step a (2 ^ k * 2 - 1), low, bit_and_mask k (a / 2))
      (omega (arith, one-le-pow k 2, mod_double a (2 ^ k)))

bit_or-zero_below : (n a : ℕ) → a ≤ n → bit_or a 0 ≡ a
bit_or-zero_below zero a h = let ea : a ≡ 0 = omega arith in rw ea (zero-bit_or 0)
bit_or-zero_below (suc n) a h =
    omega (arith, bit_or_step a 0, bit_or-zero_below n (a / 2) (omega arith))

-- `|` of two fields that do not meet is their sum.
pub bit_or_fields : (k q r : ℕ) → r < 2 ^ k → bit_or (q * 2 ^ k) r ≡ q * 2 ^ k + r
bit_or_fields zero q r h =
    let e : r ≡ 0 = omega arith in
    rw e (bit_or-zero_below (q * 2 ^ 0) (q * 2 ^ 0) (omega arith) ∙ omega arith)
bit_or_fields (suc k) q r h =
    let p : q * 2 ^ suc k ≡ q * 2 ^ k * 2 = ap (λ (t : ℕ). q * t) (pow-suc 2 k) ∙ omega arith in
    let half : q * 2 ^ k * 2 / 2 ≡ q * 2 ^ k = omega arith in
    rw
      (
        p,
        bit_or_step (q * 2 ^ k * 2) r,
        half,
        bit_or_fields k q (r / 2) (omega (arith, pow-suc 2 k)),
      )
      (omega arith)

-- The low bits of `^` come from the low bits.
pub bit_xor_mod : (k a b : ℕ) → bit_xor a b % 2 ^ k ≡ bit_xor (a % 2 ^ k) (b % 2 ^ k)
bit_xor_mod zero a b =
    let ea : a % 2 ^ 0 ≡ 0 = omega arith in
    let eb : b % 2 ^ 0 ≡ 0 = omega arith in rw (ea, eb) (omega arith)
bit_xor_mod (suc k) a b =
    let e : 2 ^ suc k ≡ 2 ^ k * 2 = pow-suc 2 k in
    let ha : a % (2 ^ k * 2) / 2 ≡ a / 2 % 2 ^ k = omega (arith, mod_double a (2 ^ k)) in
    let hb : b % (2 ^ k * 2) / 2 ≡ b / 2 % 2 ^ k = omega (arith, mod_double b (2 ^ k)) in
    rw
      (
        e,
        ← mod_double (bit_xor a b) (2 ^ k),
        bit_xor_step (a % (2 ^ k * 2)) (b % (2 ^ k * 2)),
        ha,
        hb,
        half-bit_xor a b,
        bit_xor_mod k (a / 2) (b / 2),
      )
      (omega (arith, parity-bit_xor a b, mod_double a (2 ^ k), mod_double b (2 ^ k)))

-- A mask of higher bits reads the field behind a shift.
pub bit_and_field : (k x m : ℕ) → bit_and x (m * 2 ^ k) ≡ bit_and (x / 2 ^ k) m * 2 ^ k
bit_and_field zero x m =
    let em : m * 2 ^ 0 ≡ m = omega arith in
    let ex : x / 2 ^ 0 ≡ x = omega arith in rw (em, ex) (omega arith)
bit_and_field (suc k) x m =
    let p : m * 2 ^ suc k ≡ m * 2 ^ k * 2 = ap (λ (t : ℕ). m * t) (pow-suc 2 k) ∙ omega arith in
    let half : m * 2 ^ k * 2 / 2 ≡ m * 2 ^ k = omega arith in
    let r = bit_and (x / 2 / 2 ^ k) m in
    let q : r * 2 ^ suc k ≡ r * 2 ^ k * 2 = ap (λ (t : ℕ). r * t) (pow-suc 2 k) ∙ omega arith in
    rw (p, bit_and_step x (m * 2 ^ k * 2), half, bit_and_field k (x / 2) m, half_shift x k, q)
      (omega arith)
