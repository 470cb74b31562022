-- ===== src/Json/Stringify.antt =====
-- `bkJsonStringify` of bklib/bklib.cpp. The type of the parent is an argument, `none` where there
-- is no parent; the caller's `rc` stands before the result.
use bkjs_utils.Prelude.{
  Bytes, [], ◌∷◌, ◌++◌, Bool, false, ◌&&◌, ◌||◌, Option, none, some, ◌==◌, if◌then◌else◌, length,
}
use bkjs_utils.Strings.{str_numeric}
use bkjs_utils.Json.{JsonType, Json, Members, node, no_members, member, same_type}
use bkjs_utils.Json.Text.{json_escape}

-- The name, unless it is an index in an array.
unfoldable pub print_name : Option JsonType → Bytes → Bytes
print_name parent name =
    let indexed : Bool = elim parent [
      | none ↦ false
      | some t ↦ same_type t JsonType.json_array && str_numeric name
    ] in
    if length name == 0 || indexed then [] else b'"' ∷ name ++ b'"' ∷ b':' ∷ []

-- The `switch`, with what the loop over the members gives.
unfoldable pub print_value : JsonType → Bytes → Bytes → Bytes
print_value JsonType.json_null value inner = b'n' ∷ b'u' ∷ b'l' ∷ b'l' ∷ []
print_value JsonType.json_object value inner = b'{' ∷ inner ++ b'}' ∷ []
print_value JsonType.json_array value inner = b'[' ∷ inner ++ b']' ∷ []
print_value JsonType.json_string value inner = b'"' ∷ json_escape value ++ b'"' ∷ []
print_value JsonType.json_int value inner = value
print_value JsonType.json_float value inner = value
print_value JsonType.json_bool value inner = value

-- `if (it->next) rc += ","`
abbrev pub separator : Members → Bytes
separator no_members = []
separator (member v ms) = b',' ∷ []

unfoldable mutual
  unfolding print_name print_value

  -- `bkJsonStringify`
  pub json_stringify : Option JsonType → Json → Bytes
  json_stringify parent (node t name value ms) =
      print_name parent name ++ print_value t value (print_members t ms)

  -- The loop over the members.
  pub print_members : JsonType → Members → Bytes
  print_members t no_members = []
  print_members t (member v ms) = json_stringify (some t) v ++ (separator ms ++ print_members t ms)
