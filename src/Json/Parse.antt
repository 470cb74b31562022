-- ===== src/Json/Parse.antt =====
-- `bkJsonParse` of bklib/bklib.cpp. `top` with its chain of parents is the list of the open
-- objects and arrays, the innermost first, each with the members that it has so far; one is
-- appended to its parent when it closes, under the name that it had when it opened. The counter
-- `i` moves with `it`, so it is the number of bytes read. A source is the list of its bytes before
-- the 0 that ends it.
pub mod Progress
pub mod Reads
pub mod Brackets
pub mod Printed
pub mod Inner
pub mod RoundTrip
pub mod Overrun
pub mod Settles
use bkjs_utils.Prelude.{
  ℕ, zero, suc, ◌+◌, ◌-◌, ◌*◌, ◌/◌, ◌%◌, ◌^◌, Bytes, List, [], ◌∷◌, ◌++◌, Bool, true, false, not,
  ◌&&◌, ◌||◌, Option, none, some, ◌==◌, if◌then◌else◌, ltb, leb, codes, length, drop,
}
use bkjs_utils.Strings.{isdigit, starts_with}
use bkjs_utils.Json.{
  JsonType, Json, Members, node, no_members, member, same_type, json_length, join, name_of, rename,
}
use bkjs_utils.Json.Text.{
  Outcome, ok, failed, overrun, out_of_fuel, ◌>>=◌, read_string, read_number, is_float,
}

-- An open object or array.
pub record Frame : Type 0 where
  pub type : JsonType
  pub name : Bytes
  pub members : Members

-- `root` once it is closed, the open objects and arrays, `name` and `it`.
pub record State : Type 0 where
  pub root : Option Json
  pub frames : List Frame
  pub name : Bytes
  pub it : Bytes

-- `%d` of a number that is not negative, with a bound on its digits.
unfoldable pub decimal_loop : ℕ → ℕ → Bytes → Bytes
decimal_loop zero n out = out
decimal_loop (suc rounds) n out =
    let out' = (48 + n % 10) ∷ out in
    elim (ltb n 10) [ true ↦ out' | false ↦ decimal_loop rounds (n / 10) out' ]

-- A number has fewer digits than its successor.
unfoldable pub decimal : ℕ → Bytes
decimal n = decimal_loop (suc n) n []

-- The name that `bkJsonAppend` gives a value: its own, or its index in an array.
unfoldable pub name_in : Frame → Bytes → Bytes
name_in f name =
    if same_type f.type JsonType.json_array && (length name == 0)
    then decimal (json_length f.members)
    else name

-- `bkJsonAppend`
unfoldable pub append_value : Frame → Json → Frame
append_value f v = record f {
  members = join f.members (member (rename (name_in f (name_of v)) v) no_members);
}

-- `bkJsonAppend(top, object)` of a new value, and `name.clear()`.
unfoldable pub put : State → Json → Bytes → State
put s v rest = elim s.frames [
  | [] ↦ record s { name = []; it = rest }
  | f ∷ fs ↦ record s { frames = append_value f v ∷ fs; name = []; it = rest }
]

-- The cases `{` and `[`.
unfoldable pub open_value : State → JsonType → Bytes → Outcome State
open_value s type rest = elim s.frames [
  | [] ↦ elim s.root [
    | none ↦ ok (record s {
      frames = record { type = type; name = s.name; members = no_members } ∷ [];
      name = [];
      it = rest;
    })
    | some r ↦ failed
  ]
  | f ∷ fs ↦ ok (record s {
    frames = record { type = type; name = name_in f s.name; members = no_members } ∷ f ∷ fs;
    name = [];
    it = rest;
  })
]

-- What a closed object or array becomes.
abbrev pub closed : Frame → Json
closed f = node f.type f.name [] f.members

-- The cases `}` and `]`.
unfoldable pub close_value : State → JsonType → Bytes → Outcome State
close_value s type rest = elim s.frames [
  | [] ↦ failed
  | f ∷ fs ↦ if not (same_type f.type type) then failed else elim fs [
    | [] ↦ ok (record s { root = some (closed f); frames = []; it = rest })
    | g ∷ gs ↦ ok (record s {
      frames = record g { members = join g.members (member (closed f) no_members) } ∷ gs;
      it = rest;
    })
  ]
]

-- The case `:`.
unfoldable pub colon : State → Bytes → Outcome State
colon s rest = elim s.frames [
  | [] ↦ failed
  | f ∷ fs ↦ if same_type f.type JsonType.json_object then ok (record s { it = rest }) else failed
]

-- The case `,`.
unfoldable pub comma : State → Bytes → Outcome State
comma s rest = elim s.frames [ [] ↦ failed | f ∷ fs ↦ ok (record s { it = rest }) ]

-- The case `"`.
unfoldable pub string_value : State → Bytes → Outcome State
string_value s it = elim s.frames [
  | [] ↦ failed
  | f ∷ fs ↦ do
    (val, rest) ← read_string it
    if length s.name == 0 && same_type f.type JsonType.json_object
        then ok (record s { name = val; it = rest })
        else ok (put s (node JsonType.json_string s.name val no_members) rest)
]

-- The cases `n`, `t` and `f`.
unfoldable pub literal : State → Bytes → Outcome State
literal s it = elim s.frames [
  | [] ↦ failed
  | f ∷ fs ↦
      if starts_with (codes "null") it
      then ok (put s (node JsonType.json_null s.name [] no_members) (drop 4 it))
      else if starts_with (codes "true") it
      then ok (put s (node JsonType.json_bool s.name (codes "true") no_members) (drop 4 it))
      else if starts_with (codes "false") it
      then ok (put s (node JsonType.json_bool s.name (codes "false") no_members) (drop 5 it))
      else failed
]

-- The type of a number.
abbrev pub number_type : Bytes → JsonType
number_type value = if is_float value then JsonType.json_float else JsonType.json_int

-- The cases `-` and `0` to `9`.
unfoldable pub number : State → Bytes → Outcome State
number s it = elim s.frames [
  | [] ↦ failed
  | f ∷ fs ↦ do
    (value, rest) ← read_number it
    ok (put s (node (number_type value) s.name value no_members) rest)
]

-- The `switch` on a character, with what follows it.
unfoldable pub switch : State → ℕ → Bytes → Outcome State
switch s c rest =
    if c == b'{'
    then open_value s JsonType.json_object rest
    else if c == b'['
    then open_value s JsonType.json_array rest
    else if c == b'}'
    then close_value s JsonType.json_object rest
    else if c == b']'
    then close_value s JsonType.json_array rest
    else if c == b':'
    then colon s rest
    else if c == b','
    then comma s rest
    else if c == b'"'
    then string_value s rest
    else if c == b'n' || (c == b't') || (c == b'f')
    then literal s (c ∷ rest)
    else if c == b'-' || isdigit c
    then number s (c ∷ rest)
    else failed

unfoldable pub is_space : ℕ → Bool
is_space c = c == 0x20 || (c == 0x09) || (c == 0x0d) || (c == 0x0a)

-- The loop over white space.
unfoldable pub skip_space : Bytes → Bytes
skip_space [] = []
skip_space (c ∷ it) = if is_space c then skip_space it else c ∷ it

-- One round of the main loop.
unfoldable pub step : State → Outcome State
step s = elim s.it [
  | [] ↦ failed
  | c ∷ rest ↦ do s' ← switch s c rest; ok (record s' { it = skip_space s'.it })
]

module _ (source : Bytes) (size : Option ℕ) where
  -- `*it && (size < 0 || size > i)`; a negative size is `none`.
  unfoldable pub more : State → Bool
  more s = elim s.it [
    | [] ↦ false
    | c ∷ rest ↦ elim size [ none ↦ true | some n ↦ ltb (length source - length s.it) n ]
  ]

  -- What stands behind the main loop.
  unfoldable pub finish : State → Outcome (Option Json)
  finish s = elim s.frames [ [] ↦ ok s.root | f ∷ fs ↦ failed ]

  -- The main loop, with a bound on its rounds.
  pub run : ℕ → State → Outcome (Option Json)
  run zero s = out_of_fuel
  run (suc rounds) s = elim (more s) [
    | false ↦ finish s
    | true ↦ elim (step s) [
      | ok s' ↦ run rounds s'
      | failed ↦ failed
      | overrun ↦ overrun
      | out_of_fuel ↦ out_of_fuel
    ]
  ]

  -- `bkJsonParse`; each round reads a byte or more.
  pub json_parse : Outcome (Option Json)
  json_parse =
      run (suc (length source)) (record { root = none; frames = []; name = []; it = source })
