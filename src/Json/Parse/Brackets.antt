-- ===== src/Json/Parse/Brackets.antt =====
-- What a round of `bkJsonParse` makes of a bracket.
use bkjs_utils.Prelude.{
  ℕ, ◌≡◌, refl, ◌∙◌, Bytes, List, [], ◌∷◌, true, Option, none, some, if◌then◌else◌,
}
use bkjs_utils.Json.{JsonType, Json, Members, node, no_members, member, same_type, join}
use bkjs_utils.Json.Parse.{Frame, State, name_in, open_value, close_value, switch}
use bkjs_utils.Json.Parse.Reads.{result, result-switch, Solid}

-- An object or an array.
abbrev pub IsContainer : JsonType → Type 0
IsContainer JsonType.json_object = Unit
IsContainer JsonType.json_array = Unit
IsContainer _ = ⊥

-- The brackets.
abbrev pub opening : JsonType → ℕ
opening t = if same_type t JsonType.json_object then b'{' else b'['

abbrev pub closing : JsonType → ℕ
closing t = if same_type t JsonType.json_object then b'}' else b']'

abbrev pub frame : JsonType → Bytes → Members → Frame
frame t name ms = record { type = t; name = name; members = ms }

switch-opening :
    (s : State) (t : JsonType) (rest : Bytes)
    → IsContainer t
    → switch s (opening t) rest ≡ open_value s t rest
unfolding switch
switch-opening s JsonType.json_object rest h = refl
switch-opening s JsonType.json_array rest h = refl
switch-opening s _ rest h = elim h [ ]

switch-closing :
    (s : State) (t : JsonType) (rest : Bytes)
    → IsContainer t
    → switch s (closing t) rest ≡ close_value s t rest
unfolding switch
switch-closing s JsonType.json_object rest h = refl
switch-closing s JsonType.json_array rest h = refl
switch-closing s _ rest h = elim h [ ]

same_type_self : (t : JsonType) → IsContainer t → same_type t t ≡ true
same_type_self JsonType.json_object h = refl
same_type_self JsonType.json_array h = refl
same_type_self _ h = elim h [ ]

module _ (source : Bytes) (t : JsonType) (container : IsContainer t) where
  -- The round over an opening bracket inside an object or array.
  pub result-opening :
      (root : Option Json) (f : Frame) (fs : List Frame) (name rest : Bytes)
      → Solid rest
      → result source (record { root = root; frames = f ∷ fs; name = name; it = opening t ∷ rest })
        ≡ result source (record {
          root = root;
          frames = frame t (name_in f name) no_members ∷ f ∷ fs;
          name = [];
          it = rest;
        })
  unfolding open_value
  result-opening root f fs name rest solid =
      result-switch source root (f ∷ fs) name (opening t) rest _ (switch-opening _ t rest container)
        solid

  -- The round over the first bracket.
  pub result-root :
      (rest : Bytes)
      → Solid rest
      → result source (record { root = none; frames = []; name = []; it = opening t ∷ rest })
        ≡ result source
            (record { root = none; frames = frame t [] no_members ∷ []; name = []; it = rest })
  unfolding open_value
  result-root rest solid =
      result-switch source none [] [] (opening t) rest _ (switch-opening _ t rest container) solid

  -- The round over a closing bracket inside an object or array, and over the last one.
  pub result-closing :
      (root : Option Json) (g : Frame) (gs : List Frame) (name : Bytes) (ms : Members)
      (rest : Bytes)
      → Solid rest
      → result source (record {
        root = root;
        frames = frame t name ms ∷ g ∷ gs;
        name = [];
        it = closing t ∷ rest;
      })
        ≡ result source (record {
          root = root;
          frames =
              record g { members = join g.members (member (node t name [] ms) no_members) } ∷ gs;
          name = [];
          it = rest;
        })
  unfolding close_value
  result-closing root g gs name ms rest solid =
      result-switch source root (frame t name ms ∷ g ∷ gs) [] (closing t) rest _
        (switch-closing _ t rest container ∙ rw (close_value, same_type_self t container)) solid

  pub result-end :
      (root : Option Json) (name : Bytes) (ms : Members) (rest : Bytes)
      → Solid rest
      → result source
          (record { root = root; frames = frame t name ms ∷ []; name = []; it = closing t ∷ rest })
        ≡ result source
            (record { root = some (node t name [] ms); frames = []; name = []; it = rest })
  unfolding close_value
  result-end root name ms rest solid =
      result-switch source root (frame t name ms ∷ []) [] (closing t) rest _
        (switch-closing _ t rest container ∙ rw (close_value, same_type_self t container)) solid
