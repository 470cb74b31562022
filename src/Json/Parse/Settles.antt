-- ===== src/Json/Parse/Settles.antt =====
-- `bkJsonParse` on a source whose end stops the loop over a number.
use bkjs_utils.Json.{Json}
use bkjs_utils.Json.Text.{Outcome}
use bkjs_utils.Json.Text.Ended.{IsEnded, Stays}
use bkjs_utils.Json.Parse.{State}

-- What the state has left is ended.
abbrev Rest : Outcome State → Type 0
Rest r = Stays (λ s. IsEnded s.it) r
