-- ===== src/Json/Parse/Inner.antt =====
-- `bkJsonParse` on the printed members of an object or array.
use bkjs_utils.Prelude.{
  ℕ, suc, ◌≡◌, refl, arith, ap, ◌∙◌, sym, Bytes, List, [], ◌∷◌, ◌++◌, true, false, ◌&&◌, none, some,
  ◌==◌, ==-false, length, append_assoc, append-nil, inl, inr,
}
use bkjs_utils.Json.{
  JsonType, Json, Members, node, no_members, member, same_type, json_length, join, rename,
}
use bkjs_utils.Json.Text.{ends_number, json_escape}
use bkjs_utils.Json.Stringify.{print_name, print_value, json_stringify, print_members}
use bkjs_utils.Json.Parse.{Frame, State, name_in, append_value, skip_space, is_space}
use bkjs_utils.Json.Parse.Reads.{
  result, Solid, result-comma, result-colon, result-name, result-string, result-number, result-null,
  result-true, result-false,
}
use bkjs_utils.Json.Parse.Brackets.{
  IsContainer, frame, opening, closing, result-opening, result-closing,
}
use bkjs_utils.Json.Parse.Printed.{
  IsName, IsJson, IsMembers, print_name-index, print_name-object, print_value-Solid, join_nil,
  join_assoc, json_length-join, members-Solid, closing-Solid, closing-ends,
}

-- The state inside the innermost object or array.
abbrev pub reading : Frame → List Frame → Bytes → Bytes → State
reading f fs name it = record { root = none; frames = f ∷ fs; name = name; it = it }

-- A value without its name.
abbrev print_bare : Json → Bytes
print_bare (node vt own value ms) = print_value vt value (print_members vt ms)

-- What a member becomes that is read under the name that the parser has for it.
module _ (source : Bytes) where
  reads-named :
      (t : JsonType) (n : Bytes) (cs : Members) (fs : List Frame) (vt : JsonType)
      (name value : Bytes) (ms : Members) (d : ℕ) (rest : Bytes)
      → IsContainer t
      → IsName t (json_length cs) name
      → IsJson (node vt name value ms)
      → ((given : Bytes)
          → (length given == 0 && same_type t JsonType.json_object) ≡ false
          → result source (
              reading
                (frame t n cs)
                fs
                given
                (print_value vt value (print_members vt ms) ++ d ∷ rest))
            ≡ result source
                (reading (append_value (frame t n cs) (node vt given value ms)) fs [] (d ∷ rest)))
      → result source (
          reading
            (frame t n cs)
            fs
            []
            (json_stringify (some t) (node vt name value ms) ++ d ∷ rest))
        ≡ result source (
            reading
              (frame t n (join cs (member (node vt name value ms) no_members)))
              fs
              []
              (d ∷ rest))
  unfolding json_stringify append_value name_in skip_space is_space
  reads-named JsonType.json_object n cs fs vt name value ms d rest c (long, plain) j body =
      let printed = print_value vt value (print_members vt ms) in
      let tail = printed ++ d ∷ rest in
      let solid : Solid tail =
        print_value-Solid vt name value ms (print_members vt ms) (d ∷ rest) j in
      let f = frame JsonType.json_object n cs in
      let nonempty : (length name == 0) ≡ false = ==-false (length name) 0 (λ z. omega arith) in
      let text : (print_name (some JsonType.json_object) name ++ printed) ++ d ∷ rest
          ≡ b'"' ∷ name ++ b'"' ∷ b':' ∷ tail =
        rw (print_name-object name long) (simp append_assoc) in
      ap (λ x. result source (reading f fs [] x)) text
      ∙ result-name source none f fs name (b':' ∷ tail) refl plain refl
      ∙ result-colon source none f fs name tail refl solid
      ∙ body name (rw nonempty)
  reads-named JsonType.json_array n cs fs vt name value ms d rest c e j body =
      rw (e, print_name-index (json_length cs)) (body [] refl)
  reads-named _ n cs fs vt name value ms d rest c e j body = elim c [ ]

  -- An object or array, once its members are read.
  reads-container :
      (t : JsonType) (f : Frame) (fs : List Frame) (name : Bytes) (ms : Members) (d : ℕ)
      (rest : Bytes)
      → IsContainer t
      → IsMembers t 0 ms
      → Solid (d ∷ rest)
      → result source (
          reading
            (frame t (name_in f name) no_members)
            (f ∷ fs)
            []
            (print_members t ms ++ closing t ∷ d ∷ rest))
        ≡ result source (reading (frame t (name_in f name) ms) (f ∷ fs) [] (closing t ∷ d ∷ rest))
      → result source
          (reading f fs name ((opening t ∷ print_members t ms ++ closing t ∷ []) ++ d ∷ rest))
        ≡ result source (reading (append_value f (node t name [] ms)) fs [] (d ∷ rest))
  unfolding append_value
  reads-container t f fs name ms d rest c h solid inside =
      ap (λ x. result source (reading f fs name (opening t ∷ x)))
        (append_assoc (print_members t ms) (closing t ∷ []) (d ∷ rest))
      ∙ result-opening source t c none f fs name (print_members t ms ++ closing t ∷ d ∷ rest)
          (members-Solid t 0 ms (d ∷ rest) c h)
      ∙ inside
      ∙ result-closing source t c none f fs (name_in f name) ms (d ∷ rest) solid

  mutual
    unfolding IsJson IsMembers print_value print_members json_length ends_number skip_space is_space

    -- A value that the parser has a name for.
    reads-value :
        (v : Json) (f : Frame) (fs : List Frame) (name : Bytes) (d : ℕ) (rest : Bytes)
        → IsJson v
        → (length name == 0 && same_type f.type JsonType.json_object) ≡ false
        → ends_number d ≡ true
        → Solid (d ∷ rest)
        → result source (reading f fs name (print_bare v ++ d ∷ rest))
          ≡ result source (reading (append_value f (rename name v)) fs [] (d ∷ rest))
    reads-value (node JsonType.json_null own value ms) f fs name d rest (e, es) ready ends solid =
        rw (e, es) (result-null source none f fs name (d ∷ rest) solid)
    reads-value (node JsonType.json_object own value ms) f fs name d rest (e, h) ready ends solid =
        rw e (
          reads-container JsonType.json_object f fs name ms d rest tt h solid (
            reads-members ms JsonType.json_object (name_in f name) (f ∷ fs) no_members (d ∷ rest) tt
              h))
    reads-value (node JsonType.json_array own value ms) f fs name d rest (e, h) ready ends solid =
        rw e (
          reads-container JsonType.json_array f fs name ms d rest tt h solid (
            reads-members ms JsonType.json_array (name_in f name) (f ∷ fs) no_members (d ∷ rest) tt
              h))
    reads-value (node JsonType.json_string own value ms) f fs name d rest (nz, es) ready ends
          solid =
        rw es (
          ap (λ x. result source (reading f fs name (b'"' ∷ x)))
            (append_assoc (json_escape value) (b'"' ∷ []) (d ∷ rest))
          ∙ result-string source none f fs name value (d ∷ rest) ready nz solid)
    reads-value (node JsonType.json_int own [] ms) f fs name d rest (h, _) ready ends solid =
        absurd h
    reads-value (node JsonType.json_int own (c ∷ value) ms) f fs name d rest
          ((starts, inside), (e, es)) ready ends solid =
        rw (es, sym e) (result-number source none f fs name c value d rest starts inside ends solid)
    reads-value (node JsonType.json_float own [] ms) f fs name d rest (h, _) ready ends solid =
        absurd h
    reads-value (node JsonType.json_float own (c ∷ value) ms) f fs name d rest
          ((starts, inside), (e, es)) ready ends solid =
        rw (es, sym e) (result-number source none f fs name c value d rest starts inside ends solid)
    reads-value (node JsonType.json_bool own value ms) f fs name d rest (inl e, es) ready ends
          solid =
        rw (e, es) (result-true source none f fs name (d ∷ rest) solid)
    reads-value (node JsonType.json_bool own value ms) f fs name d rest (inr e, es) ready ends
          solid =
        rw (e, es) (result-false source none f fs name (d ∷ rest) solid)

    -- The members of the innermost object or array.
    pub reads-members :
        (ms : Members) (t : JsonType) (n : Bytes) (fs : List Frame) (cs : Members) (rest : Bytes)
        → IsContainer t
        → IsMembers t (json_length cs) ms
        → result source (reading (frame t n cs) fs [] (print_members t ms ++ closing t ∷ rest))
          ≡ result source (reading (frame t n (join cs ms)) fs [] (closing t ∷ rest))
    reads-members no_members t n fs cs rest c h = rw (join_nil cs)
    reads-members (member (node vt name value ms) no_members) t n fs cs rest c (nm, (j, _)) =
        let d = closing t in
        let solid : Solid (d ∷ rest) = closing-Solid t rest c in
        rw (append-nil (json_stringify (some t) (node vt name value ms))) (
          reads-named t n cs fs vt name value ms d rest c nm j (λ given ready.
            reads-value (node vt name value ms) (frame t n cs) fs given d rest j ready
              (closing-ends t c) solid))
    reads-members (member (node vt name value ms) (member w ws)) t n fs cs rest c (nm, (j, h)) =
        let v = node vt name value ms in
        let next = print_members t (member w ws) in
        let tail = next ++ closing t ∷ rest in
        let h' : IsMembers t (json_length (join cs (member v no_members))) (member w ws) =
          rw (json_length-join cs v) h in
        ap (λ x. result source (reading (frame t n cs) fs [] x))
          (append_assoc (json_stringify (some t) v) (b',' ∷ next) (closing t ∷ rest))
        ∙ reads-named t n cs fs vt name value ms b',' tail c nm j (λ given ready.
          reads-value (node vt name value ms) (frame t n cs) fs given b',' tail j ready refl refl)
        ∙ result-comma source none (frame t n (join cs (member v no_members))) fs [] tail
            (members-Solid t (suc (json_length cs)) (member w ws) rest c h)
        ∙ reads-members (member w ws) t n fs (join cs (member v no_members)) rest c h'
        ∙ rw (join_assoc cs (member v no_members) (member w ws))
