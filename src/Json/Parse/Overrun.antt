-- ===== src/Json/Parse/Overrun.antt =====
-- `bkJsonParse` on a number that ends the source.
use bkjs_utils.Prelude.{◌≡◌, ◌∙◌, Bytes, [], ◌∷◌, none}
use bkjs_utils.Json.{JsonType, no_members}
use bkjs_utils.Json.Text.{overrun}
use bkjs_utils.Json.Parse.{json_parse}
use bkjs_utils.Json.Parse.Reads.{json_parse-result, result-overrun}
use bkjs_utils.Json.Parse.Brackets.{IsContainer, frame, opening, result-root}
use bkjs_utils.Json.Parse.Printed.{IsNumber, IsNumber-Solid}

-- On an opening bracket and a number that the source ends with, the loop over the number does not
-- stop at the 0 that ends the source: it reads on behind it.
pub json_parse_overrun :
    (t : JsonType) (value : Bytes)
    → IsContainer t
    → IsNumber value
    → json_parse (opening t ∷ value) none ≡ overrun
json_parse_overrun t [] c h = absurd h
json_parse_overrun t (d ∷ value) c h =
    let source : Bytes = opening t ∷ d ∷ value in
    json_parse-result source
    ∙ result-root source t c (d ∷ value) (IsNumber-Solid (d ∷ value) h)
    ∙ result-overrun source none (frame t [] no_members) [] [] d value h.0 h.1
