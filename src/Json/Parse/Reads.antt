-- ===== src/Json/Parse/Reads.antt =====
-- What a round of `bkJsonParse` makes of the text of one value, name or separator.
use bkjs_utils.Prelude.{
  ℕ, suc, ◌≤◌, ◌≡◌, ◌≢◌, refl, arith, ap, subst, ◌∙◌, Bytes, List, [], ◌∷◌, ◌++◌, true, false, ◌&&◌,
  ◌||◌, Option, none, some, ◌==◌, codes, length, All,
}
use bkjs_utils.Strings.{isdigit, starts_with}
use bkjs_utils.Json.{JsonType, Json, node, no_members, same_type}
use bkjs_utils.Json.Text.{Outcome, ok, failed, overrun, ◌>>=◌, ends_number, json_escape}
use bkjs_utils.Json.Text.RoundTrip.{
  IsPlain, read_string-json_escape, read_string_plain, read_number_exact, read_number_overrun,
}
use bkjs_utils.Json.Text.Leaves.{holds}
use bkjs_utils.Json.Parse.{
  Frame, State, append_value, put, open_value, close_value, colon, comma, string_value, literal,
  number, number_type, switch, skip_space, step, more, finish, run, json_parse,
}
use bkjs_utils.Json.Parse.Progress.{run_go, run_enough, step_shorter, Rest}

-- Nothing is skipped at the front.
abbrev pub Solid : Bytes → Type 0
Solid rest = skip_space rest ≡ rest

Ensures-inside : {n : ℕ} {s : State} → Rest n (ok s) → length s.it ≤ n
Ensures-inside (holds h) = h

switch-number :
    (s : State) (c : ℕ) (rest : Bytes)
    → (c == b'-' || isdigit c) ≡ true
    → switch s c rest ≡ number s (c ∷ rest)
unfolding switch isdigit
switch-number s c rest h = ground arith

step-overrun :
    (s : State) (f : Frame) (fs : List Frame) (c : ℕ) (value : Bytes)
    → s.frames ≡ f ∷ fs
    → s.it ≡ c ∷ value
    → (c == b'-' || isdigit c) ≡ true
    → All (λ e. ends_number e ≡ false) (c ∷ value)
    → step s ≡ overrun
unfolding step number
step-overrun s f fs c value open_one at starts inside = rw (
  step,
  at,
  switch-number s c value starts,
  number,
  open_one,
  read_number_overrun (c ∷ value) inside,
)

module _ (source : Bytes) where
  -- The result from a state, without a limit on the size.
  pub result : State → Outcome (Option Json)
  result s = run source none (suc (length s.it)) s

  pub json_parse-result :
      json_parse source none ≡ result (record { root = none; frames = []; name = []; it = source })
  unfolding json_parse result
  json_parse-result = refl

  pub result-finished :
      (root : Option Json) (name : Bytes)
      → result (record { root = root; frames = []; name = name; it = [] }) ≡ ok root
  unfolding result run more finish
  result-finished root name = refl

  -- Behind the root every character is an error.
  pub result-after_root :
      (r : Json) (name : Bytes) (c : ℕ) (rest : Bytes)
      → result (record { root = some r; frames = []; name = name; it = c ∷ rest }) ≡ failed
  unfolding result run more step switch open_value close_value colon comma string_value literal
      number isdigit
  result-after_root r name c rest = ground arith

  -- A number that nothing ends is read past the end of the source.
  pub result-overrun :
      (root : Option Json) (f : Frame) (fs : List Frame) (name : Bytes) (c : ℕ) (value : Bytes)
      → (c == b'-' || isdigit c) ≡ true
      → All (λ e. ends_number e ≡ false) (c ∷ value)
      → result (record { root = root; frames = f ∷ fs; name = name; it = c ∷ value }) ≡ overrun
  unfolding result run more
  result-overrun root f fs name c value starts inside =
      let s : State = record { root = root; frames = f ∷ fs; name = name; it = c ∷ value } in
      rw (result, run, step-overrun s f fs c value refl refl starts inside)

  result-step :
      (s t : State) (c : ℕ) (rest : Bytes) → s.it ≡ c ∷ rest → step s ≡ ok t → result s ≡ result t
  unfolding result more
  result-step s t c rest e h =
      let shorter : length t.it ≤ length rest =
        Ensures-inside (subst (Rest (length rest)) h (step_shorter s c rest e)) in
      let goes : more source none s ≡ true = rw e in
      let long = ap length e in
      run_go source none (length s.it) s t goes h
      ∙ run_enough source none (length s.it) (suc (length t.it)) t (omega arith) (omega arith)

  -- A round over the character `c`, whose case leads to a state before something solid.
  pub result-switch :
      (root : Option Json) (frames : List Frame) (name : Bytes) (c : ℕ) (rest : Bytes) (t : State)
      → switch (record { root = root; frames = frames; name = name; it = c ∷ rest }) c rest ≡ ok t
      → Solid t.it
      → result (record { root = root; frames = frames; name = name; it = c ∷ rest }) ≡ result t
  unfolding step
  result-switch root frames name c rest t e solid =
      result-step (record { root = root; frames = frames; name = name; it = c ∷ rest }) t c rest
        refl (rw (step, e, solid))

  -- The rounds over `,` and `:`.
  pub result-comma :
      (root : Option Json) (f : Frame) (fs : List Frame) (name rest : Bytes)
      → Solid rest
      → result (record { root = root; frames = f ∷ fs; name = name; it = b',' ∷ rest })
        ≡ result (record { root = root; frames = f ∷ fs; name = name; it = rest })
  unfolding switch comma
  result-comma root f fs name rest solid = result-switch root (f ∷ fs) name b',' rest _ refl solid

  pub result-colon :
      (root : Option Json) (f : Frame) (fs : List Frame) (name rest : Bytes)
      → f.type ≡ JsonType.json_object
      → Solid rest
      → result (record { root = root; frames = f ∷ fs; name = name; it = b':' ∷ rest })
        ≡ result (record { root = root; frames = f ∷ fs; name = name; it = rest })
  unfolding switch colon
  result-colon root f fs name rest object solid =
      let yes_object : same_type f.type JsonType.json_object ≡ true = rw object in
      result-switch root (f ∷ fs) name b':' rest
        (record { root = root; frames = f ∷ fs; name = name; it = rest }) (rw (colon, yes_object))
        solid

  -- The round over the name of a member.
  pub result-name :
      (root : Option Json) (f : Frame) (fs : List Frame) (name rest : Bytes)
      → f.type ≡ JsonType.json_object
      → All IsPlain name
      → Solid rest
      → result (record { root = root; frames = f ∷ fs; name = []; it = b'"' ∷ name ++ b'"' ∷ rest })
        ≡ result (record { root = root; frames = f ∷ fs; name = name; it = rest })
  unfolding switch string_value
  result-name root f fs name rest object plain solid =
      let yes_object : same_type f.type JsonType.json_object ≡ true = rw object in
      result-switch root (f ∷ fs) [] b'"' (name ++ b'"' ∷ rest)
        (record { root = root; frames = f ∷ fs; name = name; it = rest })
        (rw (string_value, read_string_plain name rest plain, ◌>>=◌, yes_object)) solid

  -- The round over a string that is a value.
  pub result-string :
      (root : Option Json) (f : Frame) (fs : List Frame) (name value rest : Bytes)
      → (length name == 0 && same_type f.type JsonType.json_object) ≡ false
      → All (λ c. c ≢ 0) value
      → Solid rest
      → result (record {
        root = root;
        frames = f ∷ fs;
        name = name;
        it = b'"' ∷ json_escape value ++ b'"' ∷ rest;
      })
        ≡ result (record {
          root = root;
          frames = append_value f (node JsonType.json_string name value no_members) ∷ fs;
          name = [];
          it = rest;
        })
  unfolding switch string_value put
  result-string root f fs name value rest ready nonzero solid =
      result-switch root (f ∷ fs) name b'"' (json_escape value ++ b'"' ∷ rest) _
        (rw (string_value, read_string-json_escape value rest nonzero, ◌>>=◌, ready)) solid

  -- The round over a number.
  pub result-number :
      (root : Option Json) (f : Frame) (fs : List Frame) (name : Bytes) (c : ℕ) (value : Bytes)
      (d : ℕ) (rest : Bytes)
      → (c == b'-' || isdigit c) ≡ true
      → All (λ e. ends_number e ≡ false) (c ∷ value)
      → ends_number d ≡ true
      → Solid (d ∷ rest)
      → result (record { root = root; frames = f ∷ fs; name = name; it = c ∷ value ++ d ∷ rest })
        ≡ result (record {
          root = root;
          frames = append_value f (node (number_type (c ∷ value)) name (c ∷ value) no_members) ∷ fs;
          name = [];
          it = d ∷ rest;
        })
  unfolding put number
  result-number root f fs name c value d rest starts inside ends solid =
      result-switch root (f ∷ fs) name c (value ++ d ∷ rest) _
        (switch-number _ c (value ++ d ∷ rest) starts
          ∙ rw (number, read_number_exact (c ∷ value) rest d inside ends, ◌>>=◌))
        solid

  -- The round over `null`, `true` or `false`.
  pub result-null :
      (root : Option Json) (f : Frame) (fs : List Frame) (name rest : Bytes)
      → Solid rest
      → result (record { root = root; frames = f ∷ fs; name = name; it = codes "null" ++ rest })
        ≡ result (record {
          root = root;
          frames = append_value f (node JsonType.json_null name [] no_members) ∷ fs;
          name = [];
          it = rest;
        })
  unfolding switch literal put starts_with
  result-null root f fs name rest solid =
      result-switch root (f ∷ fs) name b'n' (codes "ull" ++ rest) _ refl solid

  pub result-true :
      (root : Option Json) (f : Frame) (fs : List Frame) (name rest : Bytes)
      → Solid rest
      → result (record { root = root; frames = f ∷ fs; name = name; it = codes "true" ++ rest })
        ≡ result (record {
          root = root;
          frames = append_value f (node JsonType.json_bool name (codes "true") no_members) ∷ fs;
          name = [];
          it = rest;
        })
  unfolding switch literal put starts_with
  result-true root f fs name rest solid =
      result-switch root (f ∷ fs) name b't' (codes "rue" ++ rest) _ refl solid

  pub result-false :
      (root : Option Json) (f : Frame) (fs : List Frame) (name rest : Bytes)
      → Solid rest
      → result (record { root = root; frames = f ∷ fs; name = name; it = codes "false" ++ rest })
        ≡ result (record {
          root = root;
          frames = append_value f (node JsonType.json_bool name (codes "false") no_members) ∷ fs;
          name = [];
          it = rest;
        })
  unfolding switch literal put starts_with
  result-false root f fs name rest solid =
      result-switch root (f ∷ fs) name b'f' (codes "alse" ++ rest) _ refl solid
