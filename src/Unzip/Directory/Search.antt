-- ===== src/Unzip/Directory/Search.antt =====
-- `search_file` finds the first entry of a name.
use bkjs_utils.Prelude.{
  ℕ, zero, suc, ◌+◌, ◌<◌, ◌≡◌, refl, arith, ap, ◌∙◌, Bytes, List, [], ◌∷◌, ◌++◌, Bool, true, false,
  not, Option, none, some, length, append_assoc, string_eq, Bool-cases, Option-cases, inl, inr,
  if◌then◌else◌, u32,
}
use bkjs_utils.Unzip.Entry.{Tm, Info, get_current_file_info}
use bkjs_utils.Unzip.Directory.{Unzip, next_file, search_loop, search_file}
use bkjs_utils.Unzip.Directory.Walk.{
  IsDirectory, at, get_current_file_info_at, first_file-at, next_file-at, next_file-last,
}

-- The first of the entries that has the name, with those before it.
abbrev pub first_named : Bytes → List Info → List Info → Option (List Info × Info)
first_named name passed [] = none
first_named name passed (e ∷ todo) =
    if string_eq e.file name then some (passed, e) else first_named name (passed ++ e ∷ []) todo

module _ (mktime : Tm → ℕ) (file name : Bytes) (rounds : ℕ) (s : Unzip) (e : Info)
    (here : get_current_file_info mktime file
        (u32 (s.pos_in_central_dir + s.byte_before_the_zipfile))
      ≡ some e) where
  search_loop-stop : search_loop mktime file name (suc rounds) (false, s) ≡ some (false, s)
  unfolding search_loop
  search_loop-stop = refl

  search_loop-same :
      string_eq e.file name ≡ true
      → search_loop mktime file name (suc rounds) (true, s) ≡ some (true, record s { info = e })
  unfolding search_loop
  search_loop-same same = rw (search_loop, here, same)

  search_loop-other :
      string_eq e.file name ≡ false
      → search_loop mktime file name (suc rounds) (true, s)
        ≡ search_loop mktime file name rounds (next_file mktime file (record s { info = e }))
  unfolding search_loop
  search_loop-other other = rw (search_loop, here, other)

module _ (mktime : Tm → ℕ) (file : Bytes) (unz : Unzip) where
  -- The state at the last of the entries.
  abbrev ending : List Info → Info → List Info → Unzip
  ending passed e [] = at unz passed e
  ending passed e (e' ∷ todo) = ending (passed ++ e ∷ []) e' todo

  abbrev outcome : Bytes → List Info → Info → List Info → Bool × Unzip
  outcome name passed e todo = elim (first_named name passed (e ∷ todo)) [
    | none ↦ (false, ending passed e todo)
    | some (p, x) ↦ (true, at unz p x)
  ]

  restored : Unzip → Unzip
  restored last = record last {
    num_file = unz.num_file;
    pos_in_central_dir = unz.pos_in_central_dir;
    info = unz.info;
    offset_curfile = unz.offset_curfile;
  }

  restored-ending :
      (passed : List Info) (e : Info) (todo : List Info)
      → unz.current_file_ok ≡ true
      → restored (ending passed e todo) ≡ unz
  unfolding restored
  restored-ending passed e [] ok = rw (← ok)
  restored-ending passed e (e' ∷ todo) ok = restored-ending (passed ++ e ∷ []) e' todo ok

  search_loop-at :
      (name : Bytes) (rounds : ℕ) (passed : List Info) (e : Info) (todo : List Info)
      → IsDirectory mktime file unz (passed ++ e ∷ todo)
      → length todo + 1 < rounds
      → search_loop mktime file name rounds (true, at unz passed e)
        ≡ some (outcome name passed e todo)
  search_loop-at name zero passed e todo dir h = absurd (omega arith)
  search_loop-at name (suc zero) passed e todo dir h = absurd (omega arith)
  search_loop-at name (suc (suc rounds)) passed e [] dir h =
      let here = get_current_file_info_at mktime file unz passed e [] dir in
      let s = at unz passed e in
      elim (Bool-cases (string_eq e.file name)) [
        | inl same ↦
            search_loop-same mktime file name (suc rounds) s e here same ∙ rw (outcome, same)
        | inr other ↦
            search_loop-other mktime file name (suc rounds) s e here other
            ∙ rw (next_file-last mktime file unz passed e dir, outcome, other)
                (search_loop-stop mktime file name rounds s e here)
      ]
  search_loop-at name (suc (suc rounds)) passed e (e' ∷ todo) dir h =
      let here = get_current_file_info_at mktime file unz passed e (e' ∷ todo) dir in
      let s = at unz passed e in
      elim (Bool-cases (string_eq e.file name)) [
        | inl same ↦
            search_loop-same mktime file name (suc rounds) s e here same ∙ rw (outcome, same)
        | inr other ↦
            let dir' : IsDirectory mktime file unz ((passed ++ e ∷ []) ++ e' ∷ todo) =
              rw (append_assoc passed (e ∷ []) (e' ∷ todo)) dir in
            search_loop-other mktime file name (suc rounds) s e here other
            ∙ rw (next_file-at mktime file unz passed e e' todo dir, outcome, other)
                (search_loop-at name (suc rounds) (passed ++ e ∷ []) e' todo dir' (omega arith))
      ]

  -- In a directory that has an entry, from a state whose current file is usable, `search_file` of
  -- a name that is not empty ends: with 1 and the state at the first entry of the name, or, if
  -- there is none, with 0 and the state as it was. One round more than there are entries is enough.
  pub search_file-first_named :
      (c : ℕ) (name : Bytes) (rounds : ℕ) (e : Info) (es : List Info)
      → IsDirectory mktime file unz (e ∷ es)
      → unz.current_file_ok ≡ true
      → length (e ∷ es) < rounds
      → search_file mktime file rounds (c ∷ name) unz ≡ elim (first_named (c ∷ name) [] (e ∷ es)) [
        | none ↦ some (false, unz)
        | some (passed, x) ↦ some (true, at unz passed x)
      ]
  unfolding search_file restored
  search_file-first_named c name rounds e es dir ok h =
      let usable : not unz.current_file_ok ≡ false = ap not ok in
      let first = first_file-at mktime file unz e es dir in
      let loop = search_loop-at (c ∷ name) rounds [] e es dir (omega arith) in
      elim (Option-cases (first_named (c ∷ name) [] (e ∷ es))) [
        | inl missing ↦
            rw (search_file, usable, first, loop, outcome, missing)
              (ap (λ s. some (false, s)) (restored-ending [] e es ok))
        | inr ((passed, x), found) ↦ rw (search_file, usable, first, loop, outcome, found)
      ]
