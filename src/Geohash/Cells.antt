-- ===== src/Geohash/Cells.antt =====
-- The cells of `bkGeoHashEncode` and `bkGeoHashDecode`.
use bkjs_utils.Prelude.{
  ℕ, zero, suc, ◌≤◌, ◌<◌, ◌≡◌, refl, sym, ap, subst, arith, List, [], ◌∷◌, map, Bool, true, false,
  not, Option, ltb, length, Bool-cases, inl, inr,
}
use bkjs_utils.Geohash.Code.{Cell, middle, narrow, has_bit, decode_bits, higher}

-- What the bits of a character do to a cell, and whether the next bit is one of the longitude.
unfoldable pub steps : List Bool → Bool × Cell → Bool × Cell
steps [] st = st
steps (b ∷ bs) (is_even, cell) = steps bs (not is_even, narrow is_even b cell)

pub decode_bits-steps :
    (cd : Option ℕ) (ms : List ℕ) (st : Bool × Cell)
    → decode_bits cd ms st ≡ steps (map (has_bit cd) ms) st
unfolding decode_bits steps
decode_bits-steps cd [] st = refl
decode_bits-steps cd (mask ∷ ms) (is_even, cell) =
    decode_bits-steps cd ms (not is_even, narrow is_even (has_bit cd mask) cell)

module _ (latitude longitude : ℕ) where
  -- The point is in the cell, and not on its lower bounds.
  pub record Inside (cell : Cell) : Type 0 where
    pub south : cell.lat0 < latitude
    pub north : latitude ≤ cell.lat1
    pub west : cell.lon0 < longitude
    pub east : longitude ≤ cell.lon1

  abbrev above : Bool → Cell → Bool
  above is_even cell = higher latitude longitude is_even cell

  narrow-Inside :
      (is_even : Bool) (cell : Cell)
      → Inside cell
      → Inside (narrow is_even (above is_even cell) cell)
  unfolding narrow higher
  narrow-Inside true cell h = elim (Bool-cases (ltb (middle cell.lon0 cell.lon1) longitude)) [
    | inl e ↦
        rw e (record { south = h.south; north = h.north; west = ground (e, arith); east = h.east })
    | inr e ↦
        rw e (record { south = h.south; north = h.north; west = h.west; east = ground (e, arith) })
  ]
  narrow-Inside false cell h = elim (Bool-cases (ltb (middle cell.lat0 cell.lat1) latitude)) [
    | inl e ↦
        rw e (record { south = ground (e, arith); north = h.north; west = h.west; east = h.east })
    | inr e ↦
        rw e (record { south = h.south; north = ground (e, arith); west = h.west; east = h.east })
  ]

  -- The half that has the point is the one that the comparison takes, and the whole has it too.
  Inside-narrow :
      (is_even b : Bool) (cell : Cell)
      → Inside (narrow is_even b cell)
      → (above is_even cell ≡ b) × Inside cell
  unfolding narrow higher
  Inside-narrow true true cell h = (
    ground (h.west, arith),
    record {
      south = h.south;
      north = h.north;
      west = omega (arith, h.west, h.east);
      east = h.east;
    },
  )
  Inside-narrow true false cell h = (
    ground (h.east, arith),
    record {
      south = h.south;
      north = h.north;
      west = h.west;
      east = omega (arith, h.west, h.east);
    },
  )
  Inside-narrow false true cell h = (
    ground (h.south, arith),
    record {
      south = omega (arith, h.south, h.north);
      north = h.north;
      west = h.west;
      east = h.east;
    },
  )
  Inside-narrow false false cell h = (
    ground (h.north, arith),
    record {
      south = h.south;
      north = omega (arith, h.south, h.north);
      west = h.west;
      east = h.east;
    },
  )

  -- The bits that the comparisons give.
  unfoldable pub choose : ℕ → Bool × Cell → List Bool
  choose zero st = []
  choose (suc n) (is_even, cell) =
      above is_even cell ∷ choose n (not is_even, narrow is_even (above is_even cell) cell)

  pub choose-Inside : (n : ℕ) (st : Bool × Cell) → Inside st.1 → Inside (steps (choose n st) st).1
  unfolding steps choose
  choose-Inside zero st h = h
  choose-Inside (suc n) (is_even, cell) h =
      choose-Inside n (not is_even, narrow is_even (above is_even cell) cell)
        (narrow-Inside is_even cell h)

  -- The bits that lead to a cell with the point are those.
  pub choose-steps :
      (bs : List Bool) (st : Bool × Cell)
      → Inside (steps bs st).1
      → (choose (length bs) st ≡ bs) × Inside st.1
  unfolding steps choose
  choose-steps [] st h = (refl, h)
  choose-steps (b ∷ bs) (is_even, cell) h =
      let (same, inside) = choose-steps bs (not is_even, narrow is_even b cell) h in
      let (here, whole) = Inside-narrow is_even b cell inside in
      (
        subst (λ x. (x ∷ choose (length bs) (not is_even, narrow is_even x cell)) ≡ b ∷ bs)
            (sym here) (ap (λ xs. b ∷ xs) same),
        whole,
      )
