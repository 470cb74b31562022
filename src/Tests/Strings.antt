-- ===== src/Tests/Strings.antt =====
-- Runs of the string helpers and of the geohash steps.
use bkjs_utils.Prelude.{◌≡◌, refl, Bytes, List, [], ◌∷◌, true, false, codes, some}
use bkjs_utils.Strings.{occurs, to_string}
use bkjs_utils.Strings.Split.{
  str_split, split_loop, start_word, skip, next_word, close_quote, until, push,
}
use bkjs_utils.Strings.Split.Total.{str_split_total}
use bkjs_utils.Strings.Split.RoundTrip.{str_split-to_string}
use bkjs_utils.Geohash.{Direction, geo_hash_adjacent}
use bkjs_utils.Geohash.Inverse.{geo_hash_adjacent-opposite}

geo_hash_adjacent-opposite_example :
    geo_hash_adjacent (geo_hash_adjacent (codes "zzz") Direction.right) Direction.left ≡ codes "zzz"
unfolding occurs
geo_hash_adjacent-opposite_example =
    geo_hash_adjacent-opposite (codes "zzz") Direction.right (refl, (refl, (refl, tt)))

str_split_total_example :
    (rc : List Bytes) × (str_split (codes "a 'b c") (codes " ") (codes "'") true ≡ some rc)
str_split_total_example = str_split_total (codes "a 'b c") (codes " ") (codes "'") true

str_split-to_string_example :
    str_split (to_string (codes "ab" ∷ [] ∷ codes "c'" ∷ []) (44 ∷ [])) (44 ∷ []) (codes "'") true
    ≡ some (codes "ab" ∷ [] ∷ codes "c'" ∷ [])
unfolding occurs
str_split-to_string_example =
    str_split-to_string 44 (codes "'") true (codes "ab" ∷ [] ∷ codes "c'" ∷ [])
      ((refl, (refl, (refl, tt))), (refl, (refl, (refl, (refl, tt)))))

-- A quoted word keeps its delimiters, and what follows the quote goes.
str_split_quoted :
    str_split (codes "a 'b c'd e") (codes " ") (codes "'") false
    ≡ some (codes "a" ∷ codes "b c" ∷ codes "e" ∷ [])
unfolding occurs str_split split_loop start_word skip next_word close_quote until push
str_split_quoted = refl
