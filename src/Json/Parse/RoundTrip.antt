-- ===== src/Json/Parse/RoundTrip.antt =====
-- `bkJsonParse` on the text of `bkJsonStringify`.
use bkjs_utils.Prelude.{
  ◌≡◌, refl, ap, ◌∙◌, sym, Bytes, [], ◌∷◌, ◌++◌, none, some, append_assoc, append-nil,
}
use bkjs_utils.Json.{JsonType, Members, node, no_members, json_length}
use bkjs_utils.Json.Text.{ok}
use bkjs_utils.Json.Stringify.{print_name, print_value, json_stringify, print_members}
use bkjs_utils.Json.Parse.{State, skip_space, json_parse}
use bkjs_utils.Json.Parse.Reads.{result, json_parse-result, result-finished, Solid}
use bkjs_utils.Json.Parse.Brackets.{IsContainer, opening, closing, result-root, result-end}
use bkjs_utils.Json.Parse.Printed.{IsMembers, members-Solid}
use bkjs_utils.Json.Parse.Inner.{reads-members}

print_root :
    (t : JsonType) (ms : Members) (rest : Bytes)
    → IsContainer t
    → json_stringify none (node t [] [] ms) ++ rest
      ≡ opening t ∷ print_members t ms ++ closing t ∷ rest
unfolding json_stringify print_name print_value
print_root JsonType.json_object ms rest c =
    ap (λ x. b'{' ∷ x) (append_assoc (print_members JsonType.json_object ms) (b'}' ∷ []) rest)
print_root JsonType.json_array ms rest c =
    ap (λ x. b'[' ∷ x) (append_assoc (print_members JsonType.json_array ms) (b']' ∷ []) rest)
print_root _ ms rest c = elim c [ ]

-- The state before the first bracket.
abbrev before : Bytes → State
before it = record { root = none; frames = []; name = []; it = it }

-- The state behind the text of an object or array.
reads-root :
    (source : Bytes) (t : JsonType) (ms : Members) (rest : Bytes)
    → IsContainer t
    → IsMembers t 0 ms
    → Solid rest
    → result source (before (json_stringify none (node t [] [] ms) ++ rest))
      ≡ result source (record { root = some (node t [] [] ms); frames = []; name = []; it = rest })
unfolding json_length
reads-root source t ms rest c h solid =
    ap (λ it. result source (before it)) (print_root t ms rest c)
    ∙ result-root source t c (print_members t ms ++ closing t ∷ rest)
        (members-Solid t 0 ms rest c h)
    ∙ reads-members source ms t [] [] no_members rest c h
    ∙ result-end source t c none [] ms rest solid

-- The text that `bkJsonStringify` makes of an object or array without a name is parsed back to it,
-- where a number is written with the characters of one and has the type that these say, a literal is
-- `true` or `false`, a string has no 0 byte, a member of an object has a name that is not empty and
-- has no quotes, backslashes and control characters, and a member of an array has its index as its
-- name. No size is given.
pub json_parse-json_stringify :
    (t : JsonType) (ms : Members)
    → IsContainer t
    → IsMembers t 0 ms
    → json_parse (json_stringify none (node t [] [] ms)) none ≡ ok (some (node t [] [] ms))
unfolding skip_space
json_parse-json_stringify t ms c h =
    let source = json_stringify none (node t [] [] ms) in
    json_parse-result source
    ∙ ap (λ it. result source (before it)) (sym (append-nil source))
    ∙ reads-root source t ms [] c h refl
    ∙ result-finished source (some (node t [] [] ms)) []
