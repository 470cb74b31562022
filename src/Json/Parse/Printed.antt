-- ===== src/Json/Parse/Printed.antt =====
-- Which values `bkJsonStringify` prints so that they can be read, and how the text begins.
use bkjs_utils.Prelude.{
  ℕ, zero, suc, ◌+◌, ◌/◌, ◌%◌, ◌<◌, ◌≡◌, ◌≢◌, refl, arith, subst, Bytes, [], ◌∷◌, ◌++◌, true, false,
  ◌||◌, some, ◌==◌, ==-false, codes, length, All, append-nil, ◌⊎◌, inl, inr, ltb, Bool-cases, ap,
  append_assoc,
}
use bkjs_utils.Strings.{isdigit, str_numeric}
use bkjs_utils.Json.{JsonType, Json, Members, node, no_members, member, name_of, json_length, join}
use bkjs_utils.Json.Text.{ends_number}
use bkjs_utils.Json.Text.RoundTrip.{IsPlain}
use bkjs_utils.Json.Stringify.{print_name, print_value, separator, json_stringify, print_members}
use bkjs_utils.Json.Parse.{decimal_loop, decimal, number_type, skip_space, is_space}
use bkjs_utils.Json.Parse.Reads.{Solid}
use bkjs_utils.Json.Parse.Brackets.{IsContainer, closing}

-- The characters of a number.
abbrev pub IsNumber : Bytes → Type 0
IsNumber [] = ⊥
IsNumber (c ∷ value) =
    ((c == b'-' || isdigit c) ≡ true) × All (λ d. ends_number d ≡ false) (c ∷ value)

-- The name of a member: in an object one that needs no escape, in an array the index.
abbrev pub IsName : JsonType → ℕ → Bytes → Type 0
IsName JsonType.json_array i name = name ≡ decimal i
IsName _ i name = (0 < length name) × All IsPlain name

unfoldable mutual
  -- Values that print and read back, but for their names.
  pub IsJson : Json → Type 0
  IsJson (node JsonType.json_null name value ms) = (value ≡ []) × (ms ≡ no_members)
  IsJson (node JsonType.json_object name value ms) =
      (value ≡ []) × IsMembers JsonType.json_object 0 ms
  IsJson (node JsonType.json_array name value ms) =
      (value ≡ []) × IsMembers JsonType.json_array 0 ms
  IsJson (node JsonType.json_string name value ms) = All (λ c. c ≢ 0) value × (ms ≡ no_members)
  IsJson (node JsonType.json_int name value ms) =
      IsNumber value × ((number_type value ≡ JsonType.json_int) × (ms ≡ no_members))
  IsJson (node JsonType.json_float name value ms) =
      IsNumber value × ((number_type value ≡ JsonType.json_float) × (ms ≡ no_members))
  IsJson (node JsonType.json_bool name value ms) =
      ((value ≡ codes "true") ⊎ (value ≡ codes "false")) × (ms ≡ no_members)

  -- Members from an index on.
  pub IsMembers : JsonType → ℕ → Members → Type 0
  IsMembers t i no_members = Unit
  IsMembers t i (member v ms) = IsName t i (name_of v) × (IsJson v × IsMembers t (suc i) ms)

decimal_loop-numeric :
    (rounds n : ℕ) (out : Bytes)
    → str_numeric out ≡ true
    → str_numeric (decimal_loop rounds n out) ≡ true
unfolding decimal_loop str_numeric isdigit
decimal_loop-numeric zero n out h = h
decimal_loop-numeric (suc rounds) n out h =
    let digit : str_numeric ((48 + n % 10) ∷ out) ≡ true = ground arith in
    elim (Bool-cases (ltb n 10)) [
      | inl last ↦ rw (decimal_loop, last) digit
      | inr more ↦
          rw (decimal_loop, more) (decimal_loop-numeric rounds (n / 10) ((48 + n % 10) ∷ out) digit)
    ]

decimal-numeric : (n : ℕ) → str_numeric (decimal n) ≡ true
unfolding decimal str_numeric
decimal-numeric n = decimal_loop-numeric (suc n) n [] refl

pub print_name-index : (i : ℕ) → print_name (some JsonType.json_array) (decimal i) ≡ []
unfolding print_name
print_name-index i = rw (print_name, decimal-numeric i) (ground arith)

pub print_name-object :
    (name : Bytes)
    → 0 < length name
    → print_name (some JsonType.json_object) name ≡ b'"' ∷ name ++ b'"' ∷ b':' ∷ []
unfolding print_name
print_name-object name h = rw (==-false (length name) 0 (λ z. omega arith))

IsNumber-starts : (value rest : Bytes) → IsNumber value → Solid (value ++ rest)
unfolding skip_space is_space isdigit
IsNumber-starts [] rest h = absurd h
IsNumber-starts (c ∷ value) rest (starts, _) = ground arith

-- A number does not begin with white space.
pub IsNumber-Solid : (value : Bytes) → IsNumber value → Solid value
IsNumber-Solid value h = subst Solid (append-nil value) (IsNumber-starts value [] h)

-- A printed value does not begin with white space.
pub print_value-Solid :
    (t : JsonType) (name value : Bytes) (ms : Members) (inner rest : Bytes)
    → IsJson (node t name value ms)
    → Solid (print_value t value inner ++ rest)
unfolding IsJson print_value skip_space is_space
print_value-Solid JsonType.json_null name value ms inner rest h = refl
print_value-Solid JsonType.json_object name value ms inner rest h = refl
print_value-Solid JsonType.json_array name value ms inner rest h = refl
print_value-Solid JsonType.json_string name value ms inner rest h = refl
print_value-Solid JsonType.json_int name value ms inner rest (n, _) = IsNumber-starts value rest n
print_value-Solid JsonType.json_float name value ms inner rest (n, _) = IsNumber-starts value rest n
print_value-Solid JsonType.json_bool name value ms inner rest (inl e, _) = rw e
print_value-Solid JsonType.json_bool name value ms inner rest (inr e, _) = rw e

pub join_nil : (ms : Members) → join ms no_members ≡ ms
join_nil no_members = refl
join_nil (member v ms) = ap (member v) (join_nil ms)

pub join_assoc : (xs bs cs : Members) → join (join xs bs) cs ≡ join xs (join bs cs)
join_assoc no_members bs cs = refl
join_assoc (member v xs) bs cs = ap (member v) (join_assoc xs bs cs)

pub json_length-join :
    (xs : Members) (v : Json) → json_length (join xs (member v no_members)) ≡ suc (json_length xs)
unfolding json_length
json_length-join no_members v = refl
json_length-join (member w xs) v = ap suc (json_length-join xs v)

-- A printed member does not begin with white space.
stringify-Solid :
    (t : JsonType) (i : ℕ) (v : Json) (rest : Bytes)
    → IsContainer t
    → IsName t i (name_of v)
    → IsJson v
    → Solid (json_stringify (some t) v ++ rest)
unfolding json_stringify skip_space is_space
stringify-Solid JsonType.json_object i (node vt name value ms) rest c (long, _) j =
    rw (print_name-object name long) refl
stringify-Solid JsonType.json_array i (node vt name value ms) rest c e j =
    rw (e, print_name-index i) (print_value-Solid vt name value ms (print_members vt ms) rest j)
stringify-Solid _ i (node vt name value ms) rest c e j = elim c [ ]

pub closing-Solid : (t : JsonType) (rest : Bytes) → IsContainer t → Solid (closing t ∷ rest)
unfolding skip_space is_space
closing-Solid JsonType.json_object rest c = refl
closing-Solid JsonType.json_array rest c = refl
closing-Solid _ rest c = elim c [ ]

pub members-Solid :
    (t : JsonType) (i : ℕ) (ms : Members) (rest : Bytes)
    → IsContainer t
    → IsMembers t i ms
    → Solid (print_members t ms ++ closing t ∷ rest)
unfolding print_members IsMembers
members-Solid t i no_members rest c h = closing-Solid t rest c
members-Solid t i (member v ms) rest c (n, (j, _)) =
    rw
      (append_assoc (json_stringify (some t) v) (separator ms ++ print_members t ms)
        (closing t ∷ rest))
      (stringify-Solid t i v ((separator ms ++ print_members t ms) ++ closing t ∷ rest) c n j)

pub closing-ends : (t : JsonType) → IsContainer t → ends_number (closing t) ≡ true
unfolding ends_number
closing-ends JsonType.json_object c = refl
closing-ends JsonType.json_array c = refl
closing-ends _ c = elim c [ ]
