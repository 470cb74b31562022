-- ===== src/Geohash/Bits.antt =====
-- The five bits of a character of a geohash.
use bkjs_utils.Prelude.{
  same_bool, same_bool-true, ℕ, suc, ◌<◌, ◌≡◌, refl, ap, ◌∙◌, arith, Bytes, List, [], ◌∷◌, map,
  Bool, true, false, ◌&&◌, Option, none, some, ◌==◌, ltb, if◌then◌else◌, length, get_or, bit_or,
  all_below-true, Bool-cases, inl, inr,
}
use bkjs_utils.Geohash.{base32, index_of}
use bkjs_utils.Geohash.Inverse.{IsBase32}
use bkjs_utils.Strings.{occurs}
use bkjs_utils.Geohash.Code.{masks, has_bit}

-- The number with these bits.
unfoldable pub gather : List ℕ → List Bool → ℕ → ℕ
gather (mask ∷ ms) (b ∷ bs) ch = gather ms bs (if b then bit_or ch mask else ch)
gather _ _ ch = ch

-- A number below 32 is that of its bits.
gather_bits : (cd : ℕ) → cd < 32 → gather masks (map (has_bit (some cd)) masks) 0 ≡ cd
unfolding gather has_bit
gather_bits cd h =
    let test =
      all_below-true 32 (λ c. gather masks (map (has_bit (some c)) masks) 0 == c) refl cd h in
    ground (test, arith)

-- A test of both values.
abbrev both : (Bool → Bool) → Bool
both p = p true && p false

both-true : (p : Bool → Bool) → both p ≡ true → (b : Bool) → p b ≡ true
both-true p e true = ground (e, arith)
both-true p e false = ground (e, arith)

abbrev same_bits : List Bool → List Bool → Bool
same_bits [] [] = true
same_bits (a ∷ bits) (b ∷ bs) = same_bool a b && same_bits bits bs
same_bits _ _ = false

same_bits-true : (bits bs : List Bool) → same_bits bits bs ≡ true → bits ≡ bs
same_bits-true [] [] e = refl
same_bits-true [] (b ∷ bs) e = absurd (cc e)
same_bits-true (a ∷ bits) [] e = absurd (cc e)
same_bits-true (a ∷ bits) (b ∷ bs) e =
    let first = same_bool-true a b (ground (e, arith)) in
    let rest = same_bits-true bits bs (ground (e, arith)) in rw (first, rest)

-- The number of five bits is below 32, stands for its character, and has these bits.
unfoldable pub recovered : List Bool → Bool
recovered bs =
    let n = gather masks bs 0 in
    ltb n 32
    && elim (index_of (get_or base32 n 0) base32) [ none ↦ false | some d ↦ d == n ]
    && same_bits (map (has_bit (some n)) masks) bs

all_recovered :
    both (λ a. both (λ b. both (λ c. both (λ d. both (λ e. recovered (a ∷ b ∷ c ∷ d ∷ e ∷ []))))))
    ≡ true
unfolding recovered gather has_bit index_of
all_recovered = refl

pub five_recovered : (a b c d e : Bool) → recovered (a ∷ b ∷ c ∷ d ∷ e ∷ []) ≡ true
five_recovered a b c d e =
    both-true (λ e. recovered (a ∷ b ∷ c ∷ d ∷ e ∷ []))
      (both-true (λ d. both (λ e. recovered (a ∷ b ∷ c ∷ d ∷ e ∷ [])))
        (both-true (λ c. both (λ d. both (λ e. recovered (a ∷ b ∷ c ∷ d ∷ e ∷ []))))
          (both-true (λ b. both (λ c. both (λ d. both (λ e. recovered (a ∷ b ∷ c ∷ d ∷ e ∷ [])))))
            (both-true
              (λ a.
                both (λ b. both (λ c. both (λ d. both (λ e. recovered (a ∷ b ∷ c ∷ d ∷ e ∷ []))))))
              all_recovered a)
            b)
          c)
        d)
      e

found_number :
    (o : Option ℕ) (n : ℕ) → (elim o [ none ↦ false | some d ↦ d == n ]) ≡ true → o ≡ some n
found_number none n e = absurd (cc e)
found_number (some d) n e = let same : d ≡ n = ground (e, arith) in ap some same

-- The character of the bits, decoded.
pub recovered_bits :
    (bs : List Bool)
    → recovered bs ≡ true
    → map (has_bit (index_of (get_or base32 (gather masks bs 0) 0) base32)) masks ≡ bs
unfolding recovered
recovered_bits bs h =
    let n = gather masks bs 0 in
    let found = found_number (index_of (get_or base32 n 0) base32) n (ground (h, arith)) in
    rw found (same_bits-true (map (has_bit (some n)) masks) bs (ground (h, arith)))

occurs-index_of :
    (c : ℕ) (text : Bytes)
    → occurs c text ≡ true
    → (i : ℕ) × (index_of c text ≡ some i) × (i < length text) × (get_or text i 0 ≡ c)
unfolding occurs index_of
occurs-index_of c [] h = absurd (ground (h, arith))
occurs-index_of c (d ∷ text) h = elim (Bool-cases (c == d)) [
  | inl same ↦ (0, rw same, omega arith, ground (same, arith))
  | inr other ↦
      let (i, e, less, at) = occurs-index_of c text (ground (h, other, arith)) in
      (suc i, rw (other, e), omega (arith, less), at)
]

-- The bits of a character, and the character back.
unfoldable pub bits_of : ℕ → List Bool
bits_of c = map (has_bit (index_of c base32)) masks

pub bits_of_lem : (c : ℕ) → IsBase32 c → get_or base32 (gather masks (bits_of c) 0) 0 ≡ c
unfolding bits_of
bits_of_lem c h =
    let (i, found, less, at) = occurs-index_of c base32 h in
    let back : gather masks (map (has_bit (index_of c base32)) masks) 0 ≡ i =
      ap (λ o. gather masks (map (has_bit o) masks) 0) found ∙ gather_bits i less in
    ap (λ n. get_or base32 n 0) back ∙ at
