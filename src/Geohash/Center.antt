-- ===== src/Geohash/Center.antt =====
-- `bkGeoHashEncode` and `bkGeoHashDecode` together.
use bkjs_utils.Prelude.{
  ℕ, zero, suc, ◌+◌, ◌*◌, ◌^◌, ◌≤◌, ◌<◌, ◌≡◌, refl, sym, ap, subst, ◌∙◌, arith, Bytes, List, [],
  ◌∷◌, ◌++◌, append_assoc, append-nil, Bool, true, false, not, ◌&&◌, some, ◌==◌, ltb, leb, length,
  length-append, get_or, all_below-true, All,
}
use bkjs_utils.Geohash.{base32}
use bkjs_utils.Geohash.Inverse.{IsBase32}
use bkjs_utils.Geohash.Code.{
  masks, Cell, world, middle, narrow, decode_chars, code_loop, geo_hash_encode, geo_hash_decode,
  corners,
}
use bkjs_utils.Geohash.Cells.{steps, Inside, choose, choose-Inside}
use bkjs_utils.Geohash.Bits.{gather, five_recovered, recovered_bits, bits_of}
use bkjs_utils.Geohash.Rounds.{
  decode_char, decode_char-steps, begin, five, loop_stop, char_round, chars_of_cell,
}

module _ (latitude longitude : ℕ) where
  -- The character that five rounds give.
  next_char : Bool × Cell → ℕ
  next_char st = get_or base32 (gather masks (five latitude longitude st) 0) 0

  next_char-bits : (st : Bool × Cell) → bits_of (next_char st) ≡ five latitude longitude st
  unfolding bits_of choose next_char
  next_char-bits st = recovered_bits (five latitude longitude st) (five_recovered _ _ _ _ _)

  next_char-steps :
      (st : Bool × Cell) → steps (five latitude longitude st) st ≡ decode_char st (next_char st)
  next_char-steps st =
      ap (λ bs. steps bs st) (sym (next_char-bits st)) ∙ sym (decode_char-steps st (next_char st))

  -- From a cell that has the point on, characters are found whose cell has it.
  chars_of_point :
      (n : ℕ) (st : Bool × Cell) (hash : Bytes) (precision : ℕ)
      → Inside latitude longitude st.1
      → length hash + n ≡ precision
      → (cs : Bytes) × (code_loop latitude longitude
            (suc (5 * n))
            precision
            (begin latitude longitude st hash)
          ≡ some (hash ++ cs))
        × (length cs ≡ n)
        × Inside latitude longitude (decode_chars cs st).1
  unfolding decode_chars decode_char next_char
  chars_of_point zero st hash precision inside long = (
    [],
    loop_stop latitude longitude (5 * 0) precision (begin latitude longitude st hash)
          (omega (arith, long))
        ∙ ap some (sym (append-nil hash)),
    refl,
    inside,
  )
  chars_of_point (suc n) st hash precision inside long =
      let c = next_char st in
      let inside' =
        subst (λ (x : Bool × Cell). Inside latitude longitude x.1) (next_char-steps st)
          (choose-Inside latitude longitude 5 st inside) in
      let (cs, ran, count, there) =
        chars_of_point n (decode_char st c) (hash ++ c ∷ []) precision inside'
          (omega (arith, length-append hash (c ∷ []), long)) in
      (
        c ∷ cs,
        char_round latitude longitude n precision st hash c (omega (arith, long)) refl
            ∙ ap
                (λ x.
                  code_loop latitude longitude (suc (5 * n)) precision
                    (begin latitude longitude x (hash ++ c ∷ [])))
                (next_char-steps st)
            ∙ ran
            ∙ ap some (append_assoc hash (c ∷ []) cs),
        ap suc count,
        there,
      )

  geo_hash_encode-loop :
      (precision : ℕ)
      → 0 < precision
      → precision ≤ 12
      → geo_hash_encode latitude longitude precision
        ≡ code_loop latitude longitude
            (suc (5 * precision))
            precision
            (begin latitude longitude (true, world) [])
  unfolding geo_hash_encode
  geo_hash_encode-loop precision some_char few =
      let positive : (precision == 0) ≡ false = ground (some_char, arith) in
      let small : ltb 12 precision ≡ false = ground (few, arith) in
      rw (geo_hash_encode, positive, small)

  -- Of a point of the world, its lower bounds apart, and a precision from 1 to 12,
  -- `bkGeoHashEncode` makes a hash of that size whose cell, as `bkGeoHashDecode` bounds it, has the
  -- point.
  pub geo_hash_encode-Inside :
      (precision : ℕ)
      → 0 < precision
      → precision ≤ 12
      → Inside latitude longitude world
      → (hash : Bytes) × (geo_hash_encode latitude longitude precision ≡ some hash)
        × (length hash ≡ precision)
        × (cell : Cell) × (geo_hash_decode hash ≡ corners cell)
        × Inside latitude longitude cell
  unfolding geo_hash_decode
  geo_hash_encode-Inside precision some_char few inside =
      let (cs, ran, count, there) =
        chars_of_point precision (true, world) [] precision inside (omega arith) in
      (
        cs,
        geo_hash_encode-loop precision some_char few ∙ ran,
        count,
        (decode_chars cs (true, world)).1,
        refl,
        there,
      )

  encode-cell :
      (hash : Bytes)
      → All IsBase32 hash
      → 0 < length hash
      → length hash ≤ 12
      → Inside latitude longitude (decode_chars hash (true, world)).1
      → geo_hash_encode latitude longitude (length hash) ≡ some hash
  encode-cell hash known some_char few inside =
      geo_hash_encode-loop (length hash) some_char few
      ∙ (chars_of_cell latitude longitude hash (true, world) [] (length hash) known inside
          (omega arith)).0

-- The sizes that so many bits leave: of the coordinate that the next bit is of, and of the other.
mutual
  next_size : ℕ → ℕ
  next_size zero = 2
  next_size (suc m) = 2 * other_size m

  other_size : ℕ → ℕ
  other_size zero = 2
  other_size (suc m) = next_size m

-- The cell is large enough for so many bits.
Wide : ℕ → Bool → Cell → Type 0
Wide m true cell = (cell.lon0 + next_size m ≤ cell.lon1) × (cell.lat0 + other_size m ≤ cell.lat1)
Wide m false cell = (cell.lat0 + next_size m ≤ cell.lat1) × (cell.lon0 + other_size m ≤ cell.lon1)

narrow-Wide :
    (m : ℕ) (is_even b : Bool) (cell : Cell)
    → Wide (suc m) is_even cell
    → Wide m (not is_even) (narrow is_even b cell)
unfolding Wide narrow next_size other_size
narrow-Wide m true true cell (wide, other) = (other, omega (arith, wide))
narrow-Wide m true false cell (wide, other) = (other, omega (arith, wide))
narrow-Wide m false true cell (wide, other) = (other, omega (arith, wide))
narrow-Wide m false false cell (wide, other) = (other, omega (arith, wide))

steps-Wide :
    (bs : List Bool) (m : ℕ) (st : Bool × Cell)
    → Wide (length bs + m) st.0 st.1
    → Wide m (steps bs st).0 (steps bs st).1
unfolding steps
steps-Wide [] m (is_even, cell) wide =
    let same : 0 + m ≡ m = omega arith in subst (λ n. Wide n is_even cell) same wide
steps-Wide (b ∷ bs) m (is_even, cell) wide =
    let same : suc (length bs) + m ≡ suc (length bs + m) = omega arith in
    steps-Wide bs m (not is_even, narrow is_even b cell)
      (narrow-Wide (length bs + m) is_even b cell (subst (λ n. Wide n is_even cell) same wide))

decode_chars-Wide :
    (hash : Bytes) (m : ℕ) (st : Bool × Cell)
    → Wide (5 * length hash + m) st.0 st.1
    → Wide m (decode_chars hash st).0 (decode_chars hash st).1
unfolding decode_chars decode_char bits_of
decode_chars-Wide [] m (is_even, cell) wide =
    let same : 5 * 0 + m ≡ m = omega arith in subst (λ n. Wide n is_even cell) same wide
decode_chars-Wide (c ∷ hash) m (is_even, cell) wide =
    let same : 5 * suc (length hash) + m ≡ 5 + (5 * length hash + m) = omega arith in
    let st' = steps (bits_of c) (is_even, cell) in
    let wide' =
      steps-Wide (bits_of c) (5 * length hash + m) (is_even, cell)
        (subst (λ n. Wide n is_even cell) same wide) in
    decode_chars-Wide hash m (decode_char (is_even, cell) c) (
      subst (λ (x : Bool × Cell). Wide (5 * length hash + m) x.0 x.1)
        (sym (decode_char-steps (is_even, cell) c)) wide')

sizes_fit : (m : ℕ) → m < 61 → (next_size m ≤ 2 ^ 31) × (other_size m ≤ 2 ^ 31)
unfolding next_size other_size
sizes_fit m h =
    let fits =
      all_below-true 61 (λ m. leb (next_size m) (2 ^ 31) && leb (other_size m) (2 ^ 31)) refl m h in
    (ground (fits, arith), ground (fits, arith))

world-Wide : (m : ℕ) → m < 61 → Wide m true world
unfolding Wide
world-Wide m h = let (next, other) = sizes_fit m h in (omega (arith, next), omega (arith, other))

center-Inside :
    (is_even : Bool) (cell : Cell)
    → Wide 0 is_even cell
    → Inside (middle cell.lat0 cell.lat1) (middle cell.lon0 cell.lon1) cell
unfolding Wide next_size other_size
center-Inside true cell (lon, lat) = record {
  south = omega (arith, lat);
  north = omega (arith, lat);
  west = omega (arith, lon);
  east = omega (arith, lon);
}
center-Inside false cell (lat, lon) = record {
  south = omega (arith, lat);
  north = omega (arith, lat);
  west = omega (arith, lon);
  east = omega (arith, lon);
}

-- `bkGeoHashEncode` of the center that `bkGeoHashDecode` gives a hash of 1 to 12 base-32 characters,
-- with the size of the hash as its precision, is the hash.
pub geo_hash_encode-geo_hash_decode :
    (hash : Bytes)
    → All IsBase32 hash
    → 0 < length hash
    → length hash ≤ 12
    → (latitude : ℕ) × (longitude : ℕ) × (bounds : List ℕ) × (geo_hash_decode hash
        ≡ latitude ∷ longitude ∷ bounds)
      × (geo_hash_encode latitude longitude (length hash) ≡ some hash)
unfolding geo_hash_decode corners
geo_hash_encode-geo_hash_decode hash known some_char few =
    let st = decode_chars hash (true, world) in
    let wide =
      decode_chars-Wide hash 0 (true, world)
        (world-Wide (5 * length hash + 0) (omega (arith, few))) in
    let cell = st.1 in
    (
      middle cell.lat0 cell.lat1,
      middle cell.lon0 cell.lon1,
      cell.lat0 ∷ cell.lat1 ∷ cell.lon0 ∷ cell.lon1 ∷ [],
      refl,
      encode-cell (middle cell.lat0 cell.lat1) (middle cell.lon0 cell.lon1) hash known some_char few
          (center-Inside st.0 cell wide),
    )
