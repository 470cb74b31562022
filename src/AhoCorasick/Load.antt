-- ===== src/AhoCorasick/Load.antt =====
-- `bkAhoCorasick::addJson` of bklib/bklib.cpp over `bkJsonParse`. `none` is undefined: a parse that
-- reads outside of the source, or an `atoi` that leaves the range of `int`.
use bkjs_utils.Prelude.{
  ℕ, suc, Bytes, List, [], ◌∷◌, map, Bool, true, false, ◌==◌, Option, none, some, ◌>>=◌,
  if◌then◌else◌, length,
}
use bkjs_utils.Prelude.Int.{ℤ, to_int, int_minus}
use bkjs_utils.Log.{digits_loop}
use bkjs_utils.Json.{JsonType, Json, Members, node, no_members, member}
use bkjs_utils.Json.Text.{ok, failed, overrun, out_of_fuel}
use bkjs_utils.Json.Parse.{json_parse, decimal}
use bkjs_utils.AhoCorasick.Combine.{Word, AhoCorasick, set_mode, reset, add}

-- `atoi` of the text of a JSON number.
unfoldable pub number_of : Bytes → Option ℤ
number_of [] = some (ℤ.pos 0)
number_of (c ∷ str) =
    if c == b'-'
    then to_int (int_minus 0 (digits_loop 0 str))
    else to_int (ℤ.pos (digits_loop 0 (c ∷ str)))

-- `list.back().value = v`
unfoldable pub set_last : ℤ → List Word → List Word
set_last v [] = []
set_last v (w ∷ []) = record w { value = v } ∷ []
set_last v (w ∷ x ∷ list) = w ∷ set_last v (x ∷ list)

-- The loop over the values of the array.
unfoldable pub load_words : Members → AhoCorasick → Option AhoCorasick
load_words no_members a = some a
load_words (member (node t name value ms) rest) a = elim t [
  | JsonType.json_string ↦ load_words rest (add value (ℤ.pos 0) a)
  | JsonType.json_int ↦ elim (length a.list == 0) [
    | true ↦ load_words rest a
    | false ↦ do v ← number_of value; load_words rest (record a { list = set_last v a.list })
  ]
  | _ ↦ load_words rest a
]

-- `words`, when it is an array.
unfoldable pub load_array : Json → AhoCorasick → Option (Bool × AhoCorasick)
load_array (node t name value ms) a = elim t [
  | JsonType.json_array ↦ do a' ← load_words ms a; some (true, a')
  | _ ↦ some (false, a)
]

-- The value that was parsed: of an object the first member, whose name is the mode.
unfoldable pub load_json : Json → AhoCorasick → Option (Bool × AhoCorasick)
load_json (node t name value ms) a = elim t [
  | JsonType.json_object ↦ elim ms [
    | no_members ↦ some (false, a)
    | member v rest ↦ elim v [
      | node u mode text members ↦
          load_array (node u mode text members) (record a { mode = set_mode mode a.mode })
    ]
  ]
  | other ↦ load_array (node other name value ms) a
]

abbrev zero_size : Option ℕ → Bool
zero_size none = false
zero_size (some n) = n == 0

-- `addJson`; a negative size is `none`.
unfoldable pub add_json : Bytes → Option ℕ → AhoCorasick → Option (Bool × AhoCorasick)
add_json text size a =
    if zero_size size then some (false, reset a) else elim (json_parse text size) [
      | failed ↦ some (false, reset a)
      | ok json ↦ elim json [ none ↦ some (false, reset a) | some json ↦ load_json json (reset a) ]
      | overrun ↦ none
      | out_of_fuel ↦ none
    ]

-- The members of an array of strings, from an index on.
abbrev pub strings : ℕ → List Bytes → Members
strings i [] = no_members
strings i (word ∷ list) =
    member (node JsonType.json_string (decimal i) word no_members) (strings (suc i) list)

-- An object with these words under the name of a mode.
abbrev pub mode_object : Bytes → List Bytes → Json
mode_object mode list =
    node JsonType.json_object [] []
      (member (node JsonType.json_array mode [] (strings 0 list)) no_members)

abbrev pub plain_words : List Bytes → List Word
plain_words list = map (λ word. record { word = word; value = ℤ.pos 0 }) list
