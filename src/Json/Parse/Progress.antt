-- ===== src/Json/Parse/Progress.antt =====
-- How far a round of the main loop of `bkJsonParse` gets.
use bkjs_utils.Prelude.{
  ℕ, zero, suc, ◌<◌, ◌≤◌, ◌≡◌, ◌≢◌, refl, arith, ap, ◌∙◌, sym, Bytes, List, [], ◌∷◌, true, false,
  not, ◌&&◌, ◌||◌, Option, none, some, ◌==◌, codes, length, length-drop, Bool-cases, inl, inr,
}
use bkjs_utils.Strings.{isdigit, starts_with}
use bkjs_utils.Json.{JsonType, Json, same_type}
use bkjs_utils.Json.Text.{Outcome, ok, failed, overrun, out_of_fuel, ends_number}
use bkjs_utils.Json.Text.Leaves.{
  Ensures, holds, fails, overruns, Ensures-if, Ensures-bind, read_string-Leaves,
  read_number_shorter,
}
use bkjs_utils.Json.Parse.{
  Frame, State, put, open_value, close_value, colon, comma, string_value, literal, number, switch,
  skip_space, step, more, finish, run, json_parse,
}

-- The state has no more than `n` bytes left.
abbrev pub Rest : ℕ → Outcome State → Type 0
Rest n r = Ensures (λ s. length s.it ≤ n) r

open_value-Rest :
    (s : State) (t : JsonType) (rest : Bytes) → Rest (length rest) (open_value s t rest)
unfolding open_value
open_value-Rest s t rest =
    elim s.frames as (λ fs. Rest (length rest) (open_value (record s { frames = fs }) t rest)) [
      | [] ↦
          elim s.root
            as (λ o. Rest (length rest) (open_value (record s { frames = []; root = o }) t rest)) [
              | none ↦ holds (omega arith)
              | some r ↦ fails
            ]
      | f ∷ fs ↦ holds (omega arith)
    ]

close_value-frames :
    (fs : List Frame) (s : State) (t : JsonType) (rest : Bytes)
    → Rest (length rest) (close_value (record s { frames = fs }) t rest)
unfolding close_value
close_value-frames [] s t rest = fails
close_value-frames (f ∷ []) s t rest =
    Ensures-if (not (same_type f.type t)) (λ h. fails) (λ h. holds (omega arith))
close_value-frames (f ∷ g ∷ gs) s t rest =
    Ensures-if (not (same_type f.type t)) (λ h. fails) (λ h. holds (omega arith))

close_value-Rest :
    (s : State) (t : JsonType) (rest : Bytes) → Rest (length rest) (close_value s t rest)
close_value-Rest s t rest = close_value-frames s.frames s t rest

colon-Rest : (s : State) (rest : Bytes) → Rest (length rest) (colon s rest)
unfolding colon
colon-Rest s rest =
    elim s.frames as (λ fs. Rest (length rest) (colon (record s { frames = fs }) rest)) [
      | [] ↦ fails
      | f ∷ fs ↦
          Ensures-if (same_type f.type JsonType.json_object) (λ h. holds (omega arith)) (λ h. fails)
    ]

comma-Rest : (s : State) (rest : Bytes) → Rest (length rest) (comma s rest)
unfolding comma
comma-Rest s rest =
    elim s.frames as (λ fs. Rest (length rest) (comma (record s { frames = fs }) rest)) [
      | [] ↦ fails
      | f ∷ fs ↦ holds (omega arith)
    ]

string_value-Rest : (s : State) (it : Bytes) → Rest (length it) (string_value s it)
unfolding string_value put
string_value-Rest s it =
    elim s.frames as (λ fs. Rest (length it) (string_value (record s { frames = fs }) it)) [
      | [] ↦ fails
      | f ∷ fs ↦ Ensures-bind (read_string-Leaves it) (λ r p.
          Ensures-if (length s.name == 0 && same_type f.type JsonType.json_object) (λ h. holds p)
            (λ h. holds p))
    ]

literal-Rest : (s : State) (c : ℕ) (it : Bytes) → Rest (length it) (literal s (c ∷ it))
unfolding literal put
literal-Rest s c it =
    elim s.frames as (λ fs. Rest (length it) (literal (record s { frames = fs }) (c ∷ it))) [
      | [] ↦ fails
      | f ∷ fs ↦
          Ensures-if (starts_with (codes "null") (c ∷ it))
            (λ h. holds (omega (arith, length-drop 3 it)))
            (λ h.
              Ensures-if (starts_with (codes "true") (c ∷ it))
                (λ h. holds (omega (arith, length-drop 3 it)))
                (λ h.
                  Ensures-if (starts_with (codes "false") (c ∷ it))
                    (λ h. holds (omega (arith, length-drop 4 it))) (λ h. fails)))
    ]

number-Rest :
    (s : State) (c : ℕ) (it : Bytes) → ends_number c ≡ false → Rest (length it) (number s (c ∷ it))
unfolding number put
number-Rest s c it h =
    elim s.frames as (λ fs. Rest (length it) (number (record s { frames = fs }) (c ∷ it))) [
      | [] ↦ fails
      | f ∷ fs ↦ Ensures-bind (read_number_shorter c it h) (λ r p. holds p)
    ]

number_starts : (c : ℕ) → (c == b'-' || isdigit c) ≡ true → ends_number c ≡ false
unfolding ends_number isdigit
number_starts c h = ground arith

switch-Rest : (s : State) (c : ℕ) (rest : Bytes) → Rest (length rest) (switch s c rest)
unfolding switch
switch-Rest s c rest =
    Ensures-if (c == b'{') (λ h. open_value-Rest s JsonType.json_object rest)
      (λ h.
        Ensures-if (c == b'[') (λ h. open_value-Rest s JsonType.json_array rest)
          (λ h.
            Ensures-if (c == b'}') (λ h. close_value-Rest s JsonType.json_object rest)
              (λ h.
                Ensures-if (c == b']') (λ h. close_value-Rest s JsonType.json_array rest)
                  (λ h.
                    Ensures-if (c == b':') (λ h. colon-Rest s rest)
                      (λ h.
                        Ensures-if (c == b',') (λ h. comma-Rest s rest)
                          (λ h.
                            Ensures-if (c == b'"') (λ h. string_value-Rest s rest)
                              (λ h.
                                Ensures-if (c == b'n' || (c == b't') || (c == b'f'))
                                  (λ h. literal-Rest s c rest)
                                  (λ h.
                                    Ensures-if (c == b'-' || isdigit c)
                                      (λ h. number-Rest s c rest (number_starts c h))
                                      (λ h. fails)))))))))

length-skip_space : (it : Bytes) → length (skip_space it) ≤ length it
unfolding skip_space
length-skip_space [] = omega arith
length-skip_space (c ∷ it) = let ih = length-skip_space it in ground arith

-- A round that goes on leaves less than it was given.
pub step_shorter :
    (s : State) (c : ℕ) (rest : Bytes) → s.it ≡ c ∷ rest → Rest (length rest) (step s)
unfolding step
step_shorter s c rest h =
    rw (step, h)
      (Ensures-bind (switch-Rest s c rest) (λ s' p. holds (omega (arith, length-skip_space s'.it))))

module _ (source : Bytes) (size : Option ℕ) where
  -- What a round leads to, with two bounds on the rounds behind it.
  after : ℕ → Outcome State → Outcome (Option Json)
  after rounds (ok s) = run source size rounds s
  after rounds failed = failed
  after rounds overrun = overrun
  after rounds out_of_fuel = out_of_fuel

  pub run_stop :
      (rounds : ℕ) (s : State)
      → more source size s ≡ false
      → run source size (suc rounds) s ≡ finish source size s
  unfolding run
  run_stop rounds s h = rw (run, h)

  run_round :
      (rounds : ℕ) (s : State)
      → more source size s ≡ true
      → run source size (suc rounds) s ≡ after rounds (step s)
  unfolding run after
  run_round rounds s h = rw (run, h)

  pub run_go :
      (rounds : ℕ) (s t : State)
      → more source size s ≡ true
      → step s ≡ ok t
      → run source size (suc rounds) s ≡ run source size rounds t
  unfolding after
  run_go rounds s t h e = run_round rounds s h ∙ ap (after rounds) e

  more-some :
      (it : Bytes) (s : State)
      → more source size (record s { it = it }) ≡ true
      → (c : ℕ) × ((rest : Bytes) × (it ≡ c ∷ rest))
  unfolding more
  more-some [] s h = absurd (cc h)
  more-some (c ∷ rest) s h = (c, (rest, refl))

  after_same :
      (k n m : ℕ) {r : Outcome State}
      → Rest k r
      → ((s : State) → length s.it ≤ k → run source size n s ≡ run source size m s)
      → after n r ≡ after m r
  unfolding after
  after_same k n m (holds {a} p) h = h a p
  after_same k n m fails h = refl
  after_same k n m overruns h = refl

  -- Any two bounds above the length of what is left give the same result.
  pub run_enough :
      (n m : ℕ) (s : State)
      → length s.it < n
      → length s.it < m
      → run source size n s ≡ run source size m s
  run_enough zero m s hn hm = absurd (omega arith)
  run_enough (suc n) zero s hn hm = absurd (omega arith)
  run_enough (suc n) (suc m) s hn hm = elim (Bool-cases (more source size s)) [
    | inl goes ↦
        let (c, (rest, e)) = more-some s.it s goes in
        let l = ap length e in
        run_round n s goes
        ∙ after_same (length rest) n m (step_shorter s c rest e)
            (λ s' p. run_enough n m s' (omega arith) (omega arith))
        ∙ sym (run_round m s goes)
    | inr stops ↦ run_stop n s stops ∙ sym (run_stop m s stops)
  ]

  finish_settles : (s : State) → finish source size s ≢ out_of_fuel
  unfolding finish
  finish_settles s =
      elim s.frames as (λ fs. finish source size (record s { frames = fs }) ≢ out_of_fuel) [
        | [] ↦ (λ e. cc e)
        | f ∷ fs ↦ (λ e. cc e)
      ]

  after_settles :
      (k n : ℕ) {r : Outcome State}
      → Rest k r
      → ((s : State) → length s.it ≤ k → run source size n s ≢ out_of_fuel)
      → after n r ≢ out_of_fuel
  unfolding after
  after_settles k n (holds {a} p) h = h a p
  after_settles k n fails h = λ e. cc e
  after_settles k n overruns h = λ e. cc e

  run_settles : (n : ℕ) (s : State) → length s.it < n → run source size n s ≢ out_of_fuel
  run_settles zero s hn = absurd (omega arith)
  run_settles (suc n) s hn = elim (Bool-cases (more source size s)) [
    | inl goes ↦
        let (c, (rest, e)) = more-some s.it s goes in
        let l = ap length e in
        rw (run_round n s goes) (
          after_settles (length rest) n (step_shorter s c rest e)
            (λ s' p. run_settles n s' (omega arith)))
    | inr stops ↦ rw (run_stop n s stops) (finish_settles s)
  ]

-- The rounds that the parser is given are enough.
pub json_parse_bounded : (source : Bytes) (size : Option ℕ) → json_parse source size ≢ out_of_fuel
unfolding json_parse
json_parse_bounded source size = run_settles source size (suc (length source)) _ (omega arith)
