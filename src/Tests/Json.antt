-- ===== src/Tests/Json.antt =====
-- Runs of the JSON functions.
use bkjs_utils.Prelude.{◌≡◌, refl, arith, [], ◌∷◌, ◌++◌, codes, false, none, some, inl}
use bkjs_utils.Strings.{isdigit, str_numeric}
use bkjs_utils.Json.{JsonType, Json, Members, node, no_members, member, json_length}
use bkjs_utils.Json.Text.{
  ok, overrun, ends_number, read_string, json_escape, escape_char, hex_digit, is_float,
}
use bkjs_utils.Json.Text.RoundTrip.{read_string-json_escape}
use bkjs_utils.Json.Stringify.{json_stringify, print_name, print_value}
use bkjs_utils.Json.Parse.{json_parse, decimal, decimal_loop}
use bkjs_utils.Json.Parse.Printed.{IsJson, IsMembers}
use bkjs_utils.Json.Parse.RoundTrip.{json_parse-json_stringify}
use bkjs_utils.Json.Parse.Overrun.{json_parse_overrun}
use bkjs_utils.Json.Tree.{Root, has_members, find_member, json_get, json_set, json_del}
use bkjs_utils.Json.Tree.Names.{IsDistinct}
use bkjs_utils.Json.Tree.Table.{IsTable, json_del_dangles}

-- The members of `{"a":[1,"x\ny"],"b":true}`.
abbrev two_members : Members
two_members =
    member
      (node JsonType.json_array (codes "a") [] (
        member (node JsonType.json_int (codes "0") (codes "1") no_members) (
          member (node JsonType.json_string (codes "1") (120 ∷ 10 ∷ 121 ∷ []) no_members)
            no_members)))
      (member (node JsonType.json_bool (codes "b") (codes "true") no_members) no_members)

two_members-IsMembers : IsMembers JsonType.json_object 0 two_members
unfolding IsJson IsMembers decimal decimal_loop isdigit ends_number is_float
two_members-IsMembers = (
  (omega arith, omega arith),
  (
    (refl, (refl, (((refl, (refl, tt)), (refl, refl)), (refl, ((omega arith, refl), tt))))),
    ((omega arith, omega arith), ((inl refl, refl), tt)),
  ),
)

json_parse-json_stringify_example :
    json_parse (json_stringify none (node JsonType.json_object [] [] two_members)) none
    ≡ ok (some (node JsonType.json_object [] [] two_members))
json_parse-json_stringify_example =
    json_parse-json_stringify JsonType.json_object two_members tt two_members-IsMembers

json_stringify_run :
    json_stringify none (node JsonType.json_object [] [] two_members)
    ≡ codes "{\"a\":[1,\"x\\ny\"],\"b\":true}"
unfolding json_stringify print_name print_value json_escape escape_char hex_digit str_numeric
    isdigit
json_stringify_run = refl

json_parse_overrun_example : json_parse (91 ∷ codes "12") none ≡ overrun
unfolding isdigit ends_number
json_parse_overrun_example =
    json_parse_overrun JsonType.json_array (codes "12") tt (refl, (refl, (refl, tt)))

read_string-json_escape_example :
    read_string (json_escape (9 ∷ 1 ∷ codes "a\"") ++ 34 ∷ codes ",")
    ≡ ok (9 ∷ 1 ∷ codes "a\"", codes ",")
read_string-json_escape_example =
    read_string-json_escape (9 ∷ 1 ∷ codes "a\"") (codes ",") (omega arith)

-- The object `{"a":1}`.
abbrev one_entry : Root
one_entry = record {
  frame = record {
    type = JsonType.json_object;
    name = [];
    members = member (node JsonType.json_int (codes "a") (codes "1") no_members) no_members;
  };
  stale = false;
}

one_entry-IsTable : IsTable one_entry
unfolding has_members IsDistinct find_member
one_entry-IsTable = record {
  holds_members = refl;
  distinct = (refl, tt);
  stale_empty = λ e. absurd (cc e);
}

-- The value `"b":2`.
abbrev two : Json
two = node JsonType.json_int (codes "b") (codes "2") no_members

json_del_dangles_example : json_set (json_del one_entry (codes "a")).1 two ≡ none
unfolding json_get find_member has_members json_length
json_del_dangles_example =
    json_del_dangles one_entry (codes "a") one_entry-IsTable
      (node JsonType.json_int (codes "a") (codes "1") no_members) two refl refl
