-- ===== src/Geohash/Inverse.antt =====
-- Opposite steps cancel.
use bkjs_utils.Prelude.{
  ℕ, suc, ◌≡◌, refl, arith, ap, ◌∙◌, Bytes, [], ◌∷◌, Bool, true, false, not, ◌&&◌, none, some, ◌==◌,
  length, All, All-reverse, reverse, reverse-reverse, if◌then◌else◌, Bool-cases, Option-cases, inl,
  inr,
}
use bkjs_utils.Strings.{occurs}
use bkjs_utils.Geohash.{
  Direction, base32, neighbors, borders, index_of, even, neighbor, on_border, adjacent_back,
  geo_hash_adjacent,
}

-- A character of `BASE32`.
abbrev pub IsBase32 : ℕ → Type 0
IsBase32 c = occurs c base32 ≡ true

abbrev pub opposite : Direction → Direction
opposite Direction.right = Direction.left
opposite Direction.left = Direction.right
opposite Direction.top = Direction.bottom
opposite Direction.bottom = Direction.top

-- The tables take the character to another and back, and the first is on the border exactly if the
-- other is on the opposite one.
cancels : Direction → Bool → ℕ → Bool
cancels dir parity c = elim (neighbor dir parity c) [
  | none ↦ false
  | some d ↦
      (if on_border dir parity c
        then on_border (opposite dir) parity d
        else not (on_border (opposite dir) parity d))
      && elim (neighbor (opposite dir) parity d) [ none ↦ false | some e ↦ e == c ]
]

all : (ℕ → Bool) → Bytes → Bool
all test [] = true
all test (c ∷ cs) = test c && all test cs

all-apply :
    (test : ℕ → Bool) (cs : Bytes) (c : ℕ) → all test cs ≡ true → occurs c cs ≡ true → test c ≡ true
unfolding all occurs
all-apply test [] c h o = absurd (ground arith)
all-apply test (d ∷ cs) c h o = elim (Bool-cases (c == d)) [
  | inl e ↦
      let same : c ≡ d = ground arith in let first : test d ≡ true = ground arith in rw same first
  | inr n ↦
      let later : occurs c cs ≡ true = ground arith in
      let rest : all test cs ≡ true = ground arith in all-apply test cs c rest later
]

all-cancels : (dir : Direction) (parity : Bool) → all (cancels dir parity) base32 ≡ true
unfolding all cancels neighbor neighbors borders index_of on_border
all-cancels Direction.right true = refl
all-cancels Direction.right false = refl
all-cancels Direction.left true = refl
all-cancels Direction.left false = refl
all-cancels Direction.top true = refl
all-cancels Direction.top false = refl
all-cancels Direction.bottom true = refl
all-cancels Direction.bottom false = refl

-- What the tables have for a character.
record Step (dir : Direction) (parity : Bool) (c : ℕ) : Type 0 where
  d : ℕ
  there : neighbor dir parity c ≡ some d
  back : neighbor (opposite dir) parity d ≡ some c
  border : on_border (opposite dir) parity d ≡ on_border dir parity c

IsBase32-Step : (dir : Direction) (parity : Bool) (c : ℕ) → IsBase32 c → Step dir parity c
unfolding cancels
IsBase32-Step dir parity c h =
    let ok = all-apply (cancels dir parity) base32 c (all-cancels dir parity) h in
    elim (Option-cases (neighbor dir parity c)) [
      | inl missing ↦ absurd (ground (arith, ok, missing))
      | inr (d, there) ↦ elim (Option-cases (neighbor (opposite dir) parity d)) [
        | inl missing ↦ absurd (ground (arith, ok, missing, there))
        | inr (e, back) ↦
            let same : e ≡ c = ground (arith, ok, there, back) in
            record {
              d = d;
              there = there;
              back = back ∙ ap some same;
              border = ground (arith, ok, there, back);
            }
      ]
    ]

adjacent_back-step :
    (dir : Direction) (c d : ℕ) (base : Bytes)
    → neighbor dir (even (suc (length base))) c ≡ some d
    → adjacent_back dir (c ∷ base)
      ≡ d ∷ (if on_border dir (even (suc (length base))) c then adjacent_back dir base else base)
unfolding adjacent_back
adjacent_back-step dir c d base h = rw (adjacent_back, h)

length-adjacent_back :
    (dir : Direction) (back : Bytes)
    → All IsBase32 back
    → length (adjacent_back dir back) ≡ length back
unfolding adjacent_back
length-adjacent_back dir [] h = refl
length-adjacent_back dir (c ∷ base) (hc, h) =
    let step = IsBase32-Step dir (even (suc (length base))) c hc in
    let next = length-adjacent_back dir base h in
    elim (Bool-cases (on_border dir (even (suc (length base))) c)) [
      | inl b ↦ rw (adjacent_back-step dir c step.d base step.there, b) (ap suc next)
      | inr b ↦ rw (adjacent_back-step dir c step.d base step.there, b)
    ]

adjacent_back-opposite :
    (dir : Direction) (back : Bytes)
    → All IsBase32 back
    → adjacent_back (opposite dir) (adjacent_back dir back) ≡ back
unfolding adjacent_back
adjacent_back-opposite dir [] h = refl
adjacent_back-opposite dir (c ∷ base) (hc, h) =
    let parity = even (suc (length base)) in
    let step = IsBase32-Step dir parity c hc in
    let moved = adjacent_back dir base in
    let next = length-adjacent_back dir base h in
    let first = adjacent_back-step dir c step.d base step.there in
    elim (Bool-cases (on_border dir parity c)) [
      | inl b ↦
          let there : neighbor (opposite dir) (even (suc (length moved))) step.d ≡ some c =
            rw next step.back in
          rw
            (first, b, adjacent_back-step (opposite dir) step.d c moved there, next, step.border, b)
            (ap (λ t. c ∷ t) (adjacent_back-opposite dir base h))
      | inr b ↦
          rw (first, b, adjacent_back-step (opposite dir) step.d c base step.back, step.border, b)
    ]

-- On a hash of base-32 characters a step of `bkGeoHashAdjacent` in the opposite direction undoes a
-- step, across the edges of the map too.
pub geo_hash_adjacent-opposite :
    (hash : Bytes) (dir : Direction)
    → All IsBase32 hash
    → geo_hash_adjacent (geo_hash_adjacent hash dir) (opposite dir) ≡ hash
unfolding geo_hash_adjacent
geo_hash_adjacent-opposite hash dir h = rw (
  reverse-reverse (adjacent_back dir (reverse hash)),
  adjacent_back-opposite dir (reverse hash) (All-reverse IsBase32 hash h),
  reverse-reverse hash,
)
