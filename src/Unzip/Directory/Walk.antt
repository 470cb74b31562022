-- ===== src/Unzip/Directory/Walk.antt =====
-- `first_file` and `next_file` step through the entries of a well-formed directory.
use bkjs_utils.Prelude.{
  ℕ, suc, ◌+◌, ◌^◌, ◌<◌, ◌≡◌, refl, arith, ap, ◌∙◌, sym, Bytes, List, [], ◌∷◌, ◌++◌, true, false,
  some, length, ◌==◌, ==-false, append_assoc, length-append, All, u32,
}
use bkjs_utils.Unzip.Entry.{Tm, Info, get_current_file_info}
use bkjs_utils.Unzip.Entry.RoundTrip.{
  entry_bytes, length-entry_bytes, IsEntry, get_current_file_info-entry_bytes,
}
use bkjs_utils.Unzip.Directory.{Unzip, size_central_dir_item, load_info, first_file, next_file}

abbrev pub directory_bytes : List Info → Bytes
directory_bytes [] = []
directory_bytes (e ∷ es) = entry_bytes e ++ directory_bytes es

-- The file holds the entries where the state says, and the counts and positions fit their widths.
pub record IsDirectory (mktime : Tm → ℕ) (file : Bytes) (unz : Unzip) (es : List Info)
    : Type 0 where
  pub before : Bytes
  pub after : Bytes
  pub layout : file ≡ before ++ (directory_bytes es ++ after)
  pub start : unz.offset_central_dir + unz.byte_before_the_zipfile ≡ length before
  pub small : length file < 2 ^ 32
  pub entries : All (IsEntry mktime) es
  pub count : unz.number_entry ≡ length es
  pub few : length es < 0xffff

-- The state that stands at `e`, with the entries `passed` before it.
abbrev pub at : Unzip → List Info → Info → Unzip
at unz passed e = record unz {
  num_file = length passed;
  pos_in_central_dir = unz.offset_central_dir + length (directory_bytes passed);
  offset_curfile = e.offset;
  current_file_ok = true;
  info = e;
}

pub IsDirectory-at :
    (mktime : Tm → ℕ) (file : Bytes) (unz : Unzip) (es passed : List Info) (e : Info)
    → IsDirectory mktime file unz es
    → IsDirectory mktime file (at unz passed e) es
IsDirectory-at mktime file unz es passed e dir = record {
  before = dir.before;
  after = dir.after;
  layout = dir.layout;
  start = dir.start;
  small = dir.small;
  entries = dir.entries;
  count = dir.count;
  few = dir.few;
}

directory_bytes-append :
    (xs ys : List Info) → directory_bytes (xs ++ ys) ≡ directory_bytes xs ++ directory_bytes ys
directory_bytes-append [] ys = refl
directory_bytes-append (e ∷ xs) ys =
    ap (λ t. entry_bytes e ++ t) (directory_bytes-append xs ys)
    ∙ sym (append_assoc (entry_bytes e) (directory_bytes xs) (directory_bytes ys))

All-last :
    (P : Info → Type 0) (xs : List Info) (e : Info) (ys : List Info) → All P (xs ++ e ∷ ys) → P e
All-last P [] e ys (p, ps) = p
All-last P (x ∷ xs) e ys (p, ps) = All-last P xs e ys ps

module _ (mktime : Tm → ℕ) (file : Bytes) (unz : Unzip) (passed : List Info) (e : Info)
    (todo : List Info) (dir : IsDirectory mktime file unz (passed ++ e ∷ todo)) where
  position :
      unz.offset_central_dir + length (directory_bytes passed) + unz.byte_before_the_zipfile
      ≡ length (dir.before ++ directory_bytes passed)
  position = omega (arith, length-append dir.before (directory_bytes passed), dir.start)

  layout_at :
      file
      ≡ (dir.before ++ directory_bytes passed)
        ++ (entry_bytes e ++ (directory_bytes todo ++ dir.after))
  layout_at =
      rw
        (
          append_assoc dir.before (directory_bytes passed)
              (entry_bytes e ++ (directory_bytes todo ++ dir.after)),
          ← append_assoc (entry_bytes e) (directory_bytes todo) dir.after,
          ← append_assoc (directory_bytes passed) (directory_bytes (e ∷ todo)) dir.after,
          ← directory_bytes-append passed (e ∷ todo),
        )
        dir.layout

  position_small :
      length (dir.before ++ directory_bytes passed)
        + (length (entry_bytes e) + length (directory_bytes todo ++ dir.after))
      < 2 ^ 32
  position_small =
      let rest = entry_bytes e ++ (directory_bytes todo ++ dir.after) in
      omega (
        arith,
        dir.small,
        ap length layout_at,
        length-append (dir.before ++ directory_bytes passed) rest,
        length-append (entry_bytes e) (directory_bytes todo ++ dir.after),
      )

  pub get_current_file_info_at :
      get_current_file_info mktime file (
        u32
          (unz.offset_central_dir + length (directory_bytes passed) + unz.byte_before_the_zipfile))
      ≡ some e
  get_current_file_info_at =
      let pos = length (dir.before ++ directory_bytes passed) in
      let at : u32
            (unz.offset_central_dir + length (directory_bytes passed) + unz.byte_before_the_zipfile)
          ≡ pos =
        omega (arith, position, position_small) in
      rw (at, layout_at)
        (get_current_file_info-entry_bytes mktime e (dir.before ++ directory_bytes passed)
          (directory_bytes todo ++ dir.after) (All-last (IsEntry mktime) passed e todo dir.entries))

load_info-some :
    (mktime : Tm → ℕ) (file : Bytes) (s : Unzip) (e : Info)
    → get_current_file_info mktime file (u32 (s.pos_in_central_dir + s.byte_before_the_zipfile))
      ≡ some e
    → load_info mktime file s
      ≡ (true, record s { info = e; offset_curfile = e.offset; current_file_ok = true })
unfolding load_info
load_info-some mktime file s e h = rw (load_info, h)

module _ (mktime : Tm → ℕ) (file : Bytes) (unz : Unzip) where
  -- `first_file` succeeds in a directory that has an entry, and the state stands at the first one.
  pub first_file-at :
      (e : Info) (es : List Info)
      → IsDirectory mktime file unz (e ∷ es)
      → first_file mktime file unz ≡ (true, at unz [] e)
  unfolding first_file
  first_file-at e es dir =
      let start = record unz { num_file = 0; pos_in_central_dir = unz.offset_central_dir } in
      let here : unz.offset_central_dir + 0 ≡ unz.offset_central_dir = omega arith in
      let h = get_current_file_info_at mktime file unz [] e es dir in
      rw here (load_info-some mktime file start e (rw here at h))

  few_passed :
      (passed : List Info) (e : Info) (todo : List Info)
      → IsDirectory mktime file unz (passed ++ e ∷ todo)
      → (length passed + suc (length todo) ≡ unz.number_entry) × (unz.number_entry < 0xffff)
  few_passed passed e todo dir =
      let l = length-append passed (e ∷ todo) in
      (omega (arith, l, dir.count), omega (arith, dir.few, dir.count))

  next_position :
      (passed : List Info) (e e' : Info) (todo : List Info)
      → IsDirectory mktime file unz (passed ++ e ∷ e' ∷ todo)
      → IsDirectory mktime file unz ((passed ++ e ∷ []) ++ e' ∷ todo)
      → u32 (
          unz.offset_central_dir
          + length (directory_bytes passed)
          + (size_central_dir_item + e.size_filename + e.size_file_extra + e.size_file_comment))
        ≡ unz.offset_central_dir + length (directory_bytes (passed ++ e ∷ []))
  next_position passed e e' todo dir dir' =
      let both = directory_bytes-append passed (e ∷ []) in
      omega (
        arith,
        ap length both,
        length-append (directory_bytes passed) (directory_bytes (e ∷ [])),
        length-append (entry_bytes e) [],
        length-entry_bytes mktime e (All-last (IsEntry mktime) passed e (e' ∷ todo) dir.entries),
        position mktime file unz (passed ++ e ∷ []) e' todo dir',
        position_small mktime file unz (passed ++ e ∷ []) e' todo dir',
      )

  -- From an entry that is not the last one `next_file` succeeds, and the state stands at the entry
  -- behind it.
  pub next_file-at :
      (passed : List Info) (e e' : Info) (todo : List Info)
      → IsDirectory mktime file unz (passed ++ e ∷ e' ∷ todo)
      → next_file mktime file (at unz passed e) ≡ (true, at unz (passed ++ e ∷ []) e')
  unfolding next_file
  next_file-at passed e e' todo dir =
      let (n, few) = few_passed passed e (e' ∷ todo) dir in
      let more : (u32 (length passed + 1) == unz.number_entry) ≡ false =
        ==-false (u32 (length passed + 1)) unz.number_entry (λ q. omega arith) in
      let fits : (unz.number_entry == 0xffff) ≡ false =
        ==-false unz.number_entry 0xffff (λ q. omega arith) in
      let dir' : IsDirectory mktime file unz ((passed ++ e ∷ []) ++ e' ∷ todo) =
        rw (append_assoc passed (e ∷ []) (e' ∷ todo)) dir in
      let num : u32 (length passed + 1) ≡ length (passed ++ e ∷ []) =
        omega (arith, length-append passed (e ∷ [])) in
      rw (more, fits, num, next_position passed e e' todo dir dir')
        (load_info-some mktime file _ e'
          (get_current_file_info_at mktime file unz (passed ++ e ∷ []) e' todo dir'))

  -- From the last entry `next_file` fails, and leaves the state as it is.
  pub next_file-last :
      (passed : List Info) (e : Info)
      → IsDirectory mktime file unz (passed ++ e ∷ [])
      → next_file mktime file (at unz passed e) ≡ (false, at unz passed e)
  unfolding next_file
  next_file-last passed e dir =
      let (n, few) = few_passed passed e [] dir in
      let last : (u32 (length passed + 1) == unz.number_entry) ≡ true = ground arith in
      let fits : (unz.number_entry == 0xffff) ≡ false =
        ==-false unz.number_entry 0xffff (λ q. omega arith) in
      rw (last, fits)
