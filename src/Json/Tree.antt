-- ===== src/Json/Tree.antt =====
-- The operations of bklib/bklib.cpp on the members of an object or array: `bkJsonAppend`,
-- `bkJsonGet`, `bkJsonGetStr`, `bkJsonSet` and `bkJsonDel`. The members are the list that `first`
-- and `next` make. `last` is the last of them, but where `stale` says that it points to a member
-- that was freed: then the next `bkJsonAppend` writes there, and the model has no result.
pub mod Names
pub mod Table
use bkjs_utils.Prelude.{
  ℕ, Bytes, [], Bool, true, false, not, ◌||◌, Option, none, some, ◌>>=◌, ◌==◌, if◌then◌else◌,
  string_eq,
}
use bkjs_utils.Json.{
  JsonType, Json, Members, node, no_members, member, same_type, json_length, name_of,
}
use bkjs_utils.Json.Parse.{Frame, append_value}

-- A `bkJsonValue` on which the operations work.
pub record Root : Type 0 where
  pub frame : Frame
  pub stale : Bool

abbrev pub value_of : Json → Bytes
value_of (node t name value ms) = value

-- `type == JSON_OBJECT || type == JSON_ARRAY`
unfoldable pub has_members : Root → Bool
has_members r =
    same_type r.frame.type JsonType.json_object || same_type r.frame.type JsonType.json_array

-- `bkJsonAppend`
unfoldable pub json_append : Root → Json → Option Root
json_append r v = if r.stale then none else some (record r { frame = append_value r.frame v })

-- The loop of `bkJsonGet`.
unfoldable pub find_member : Bytes → Members → Option Json
find_member name no_members = none
find_member name (member v ms) = if string_eq (name_of v) name then some v else find_member name ms

-- `bkJsonGet`
unfoldable pub json_get : Root → Bytes → Option Json
json_get r name = if has_members r then find_member name r.frame.members else none

-- `bkJsonGetStr`
unfoldable pub json_get_str : Root → Bytes → Bytes
json_get_str r name = elim (json_get r name) [ some v ↦ value_of v | none ↦ [] ]

-- `old->value = val->value` at the member that `bkJsonGet` finds.
unfoldable pub assign : Bytes → Bytes → Members → Members
assign name val no_members = no_members
assign name val (member (node t own value ms) rest) =
    if string_eq own name
    then member (node t own val ms) rest
    else member (node t own value ms) (assign name val rest)

abbrev pub with_members : Root → Members → Root
with_members r ms = record r { frame = record r.frame { members = ms } }

-- `bkJsonSet` of a value.
unfoldable pub json_set : Root → Json → Option (Bool × Root)
json_set r v = if not (has_members r) then some (false, r) else elim (json_get r (name_of v)) [
  | none ↦ do r' ← json_append r v; some (true, r')
  | some old ↦ some (true, with_members r (assign (name_of v) (value_of v) r.frame.members))
]

-- `bkJsonSet` of a type, a name and a text.
unfoldable pub json_set_new : Root → JsonType → Bytes → Bytes → Option (Bool × Root)
json_set_new r type name val = json_set r (node type name val no_members)

-- The loop of `bkJsonDel`.
unfoldable pub remove_member : Bytes → Members → Option Members
remove_member name no_members = none
remove_member name (member v ms) =
    if string_eq (name_of v) name
    then some ms
    else do rest ← remove_member name ms; some (member v rest)

-- `bkJsonDel`; `last` is not moved when the first member goes.
unfoldable pub json_del : Root → Bytes → Bool × Root
json_del r name =
    if not (has_members r) then (false, r) else elim (remove_member name r.frame.members) [
      | none ↦ (false, r)
      | some ms ↦ (
        true,
        record {
          frame = record r.frame { members = ms };
          stale = r.stale || (json_length ms == 0);
        },
      )
    ]
