-- ===== src/Tests/Geohash.antt =====
-- Runs of bkGeoHashEncode and bkGeoHashDecode.
use bkjs_utils.Prelude.{ℕ, ◌≡◌, refl, arith, Bytes, List, ◌∷◌, some, codes, length, All}
use bkjs_utils.Geohash.Inverse.{IsBase32}
use bkjs_utils.Strings.{occurs}
use bkjs_utils.Geohash.Code.{
  Cell, narrow, higher, code_bit, code_loop, geo_hash_encode, geo_hash_decode, corners,
}
use bkjs_utils.Geohash.Cells.{Inside}
use bkjs_utils.Geohash.Center.{geo_hash_encode-geo_hash_decode, geo_hash_encode-Inside}

-- The latitude 42.605 and the longitude -5.603.
abbrev latitude : ℕ
latitude = 1582039274

abbrev longitude : ℕ
longitude = 1040318628

encode_run : geo_hash_encode latitude longitude 5 ≡ some (codes "ezs42")
unfolding geo_hash_encode code_loop code_bit higher narrow
encode_run = refl

geo_hash_encode-Inside_example :
    (hash : Bytes) × (geo_hash_encode latitude longitude 5 ≡ some hash)
    × (length hash ≡ 5)
    × (cell : Cell) × (geo_hash_decode hash ≡ corners cell)
    × Inside latitude longitude cell
geo_hash_encode-Inside_example =
    geo_hash_encode-Inside latitude longitude 5 (omega arith) (omega arith)
      (record { south = omega arith; north = omega arith; west = omega arith; east = omega arith })

ezs42-IsBase32 : All IsBase32 (codes "ezs42")
unfolding occurs
ezs42-IsBase32 = (refl, (refl, (refl, (refl, (refl, tt)))))

geo_hash_encode-geo_hash_decode_example :
    (latitude : ℕ) × (longitude : ℕ) × (bounds : List ℕ) × (geo_hash_decode (codes "ezs42")
      ≡ latitude ∷ longitude ∷ bounds)
    × (geo_hash_encode latitude longitude 5 ≡ some (codes "ezs42"))
geo_hash_encode-geo_hash_decode_example =
    geo_hash_encode-geo_hash_decode (codes "ezs42") ezs42-IsBase32 (omega arith) (omega arith)
