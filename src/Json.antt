-- ===== src/Json.antt =====
-- JSON values of bklib/bklib.cpp and bklib/bklib.h.
pub mod Text
pub mod Parse
pub mod Stringify
pub mod Tree
use bkjs_utils.Prelude.{ℕ, zero, suc, ◌+◌, Bytes, Bool, ◌==◌}

-- `bkJsonType`
pub data JsonType : Type 0 where
  json_null json_object json_array json_string json_int json_float json_bool : JsonType

-- `bkJsonValue`: its type, name, value and the list of `first` and `next`.
mutual
  pub data Json : Type 0 where
    node : JsonType → Bytes → Bytes → Members → Json

  pub data Members : Type 0 where
    no_members : Members
    member : Json → Members → Members

-- The number of an enumerator.
abbrev pub type_code : JsonType → ℕ
type_code JsonType.json_null = 0
type_code JsonType.json_object = 1
type_code JsonType.json_array = 2
type_code JsonType.json_string = 3
type_code JsonType.json_int = 4
type_code JsonType.json_float = 5
type_code JsonType.json_bool = 6

abbrev pub same_type : JsonType → JsonType → Bool
same_type s t = type_code s == type_code t

-- `bkJsonLength`
unfoldable pub json_length : Members → ℕ
json_length no_members = 0
json_length (member v ms) = suc (json_length ms)

abbrev pub join : Members → Members → Members
join no_members ns = ns
join (member v ms) ns = member v (join ms ns)

abbrev pub name_of : Json → Bytes
name_of (node t name value ms) = name

abbrev pub rename : Bytes → Json → Json
rename name (node t _ value ms) = node t name value ms
