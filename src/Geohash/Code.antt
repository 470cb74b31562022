-- ===== src/Geohash/Code.antt =====
-- `bkGeoHashDecode` and `bkGeoHashEncode` of bklib/bklib.cpp. A latitude is counted in units of
-- 90 / 2^30 degrees from -90 on, and a longitude in units of 180 / 2^30 degrees from -180 on. On these
-- units the bounds of a hash of at most 12 characters are whole, and the arithmetic of the `double`s
-- of the code is exact. A coordinate that is not whole is rounded up: the code compares it with `>`
-- to whole numbers only.
use bkjs_utils.Prelude.{
  ℕ, zero, suc, ◌+◌, ◌*◌, ◌/◌, ◌^◌, Bytes, List, [], ◌∷◌, ◌++◌, Bool, true, false, not, Option,
  none, some, ◌==◌, ltb, if◌then◌else◌, length, get_or, bit_and, bit_or,
}
use bkjs_utils.Geohash.{base32, index_of}

-- `BITS`
abbrev pub masks : List ℕ
masks = 16 ∷ 8 ∷ 4 ∷ 2 ∷ 1 ∷ []

-- `lat` and `lon`.
pub record Cell : Type 0 where
  pub lat0 : ℕ
  pub lat1 : ℕ
  pub lon0 : ℕ
  pub lon1 : ℕ

abbrev pub world : Cell
world = record { lat0 = 0; lat1 = 2 ^ 31; lon0 = 0; lon1 = 2 ^ 31 }

abbrev pub middle : ℕ → ℕ → ℕ
middle lo hi = (lo + hi) / 2

-- The assignment of the middle to a bound.
unfoldable pub narrow : Bool → Bool → Cell → Cell
narrow true true cell = record cell { lon0 = middle cell.lon0 cell.lon1 }
narrow true false cell = record cell { lon1 = middle cell.lon0 cell.lon1 }
narrow false true cell = record cell { lat0 = middle cell.lat0 cell.lat1 }
narrow false false cell = record cell { lat1 = middle cell.lat0 cell.lat1 }

-- `cd & mask`; a character that is not found has the number `npos`, all of whose bits are set.
unfoldable pub has_bit : Option ℕ → ℕ → Bool
has_bit none mask = true
has_bit (some cd) mask = not (bit_and cd mask == 0)

-- The loop over the bits of a character, with `is_even`.
unfoldable pub decode_bits : Option ℕ → List ℕ → Bool × Cell → Bool × Cell
decode_bits cd [] st = st
decode_bits cd (mask ∷ ms) (is_even, cell) =
    decode_bits cd ms (not is_even, narrow is_even (has_bit cd mask) cell)

-- The loop over the characters.
unfoldable pub decode_chars : Bytes → Bool × Cell → Bool × Cell
decode_chars [] st = st
decode_chars (c ∷ hash) st = decode_chars hash (decode_bits (index_of c base32) masks st)

-- `rc`
unfoldable pub corners : Cell → List ℕ
corners cell =
    middle cell.lat0 cell.lat1
    ∷ middle cell.lon0 cell.lon1
    ∷ cell.lat0
    ∷ cell.lat1
    ∷ cell.lon0
    ∷ cell.lon1
    ∷ []

-- `bkGeoHashDecode`
unfoldable pub geo_hash_decode : Bytes → List ℕ
geo_hash_decode hash = corners (decode_chars hash (true, world)).1

-- The state of the loop of `bkGeoHashEncode`.
pub record Coding : Type 0 where
  pub is_even : Bool
  pub bit : ℕ
  pub ch : ℕ
  pub cell : Cell
  pub hash : Bytes

module _ (latitude longitude : ℕ) where
  -- The comparison with the middle.
  unfoldable pub higher : Bool → Cell → Bool
  higher true cell = ltb (middle cell.lon0 cell.lon1) longitude
  higher false cell = ltb (middle cell.lat0 cell.lat1) latitude

  -- A round.
  unfoldable pub code_bit : Coding → Coding
  code_bit s =
      let up = higher s.is_even s.cell in
      let ch = if up then bit_or s.ch (get_or masks s.bit 0) else s.ch in
      let cell = narrow s.is_even up s.cell in
      if ltb s.bit 4
      then record { is_even = not s.is_even; bit = suc s.bit; ch = ch; cell = cell; hash = s.hash }
      else record {
        is_even = not s.is_even;
        bit = 0;
        ch = 0;
        cell = cell;
        hash = s.hash ++ get_or base32 ch 0 ∷ [];
      }

  -- The loop, with a bound on its rounds.
  unfoldable pub code_loop : ℕ → ℕ → Coding → Option Bytes
  code_loop zero precision s = none
  code_loop (suc rounds) precision s = elim (ltb (length s.hash) precision) [
    | false ↦ some s.hash
    | true ↦ code_loop rounds precision (code_bit s)
  ]

  -- `bkGeoHashEncode`: five rounds for each character.
  unfoldable pub geo_hash_encode : ℕ → Option Bytes
  geo_hash_encode precision =
      let most = if precision == 0 then 8 else if ltb 12 precision then 12 else precision in
      code_loop (suc (5 * most)) most
        (record { is_even = true; bit = 0; ch = 0; cell = world; hash = [] })
