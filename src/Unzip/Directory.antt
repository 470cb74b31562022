-- ===== src/Unzip/Directory.antt =====
-- The walk through the central directory: `open`, `first_file`, `next_file`, `search_file` and
-- `get_file_count` of bklib/bkunzip.cpp. The bytes of the file and `mktime` are parameters; a
-- result 1 is `true`. Opening a file with `fopen` does not fail here.
pub mod Walk
pub mod Search
pub mod Open
use bkjs_utils.Prelude.{
  ℕ, zero, suc, ◌+◌, ◌-◌, ◌*◌, ◌/◌, ◌%◌, ◌^◌, Bytes, List, [], ◌∷◌, Bool, true, false, not, ◌&&◌,
  ◌||◌, Option, none, some, ◌==◌, if◌then◌else◌, leb, ltb, u32, string_eq,
}
use bkjs_utils.Unzip.Reader.{Reader, ◌>>=◌, ◌>>◌, pure, check, get_short, get_long, seek}
use bkjs_utils.Unzip.Locate.{get_central_dir}
use bkjs_utils.Unzip.Entry.{Tm, Info, get_current_file_info}

-- `bkUnzip::Unzip` and `_info`, but for the file, the keys and the table of the cipher.
pub record Unzip : Type 0 where
  pub number_entry : ℕ
  pub size_central_dir : ℕ
  pub offset_central_dir : ℕ
  pub size_comment : ℕ
  pub byte_before_the_zipfile : ℕ
  pub central_pos : ℕ
  pub encrypted : Bool
  pub num_file : ℕ
  pub pos_in_central_dir : ℕ
  pub offset_curfile : ℕ
  pub current_file_ok : Bool
  pub info : Info

-- `SIZECENTRALDIRITEM`
abbrev pub size_central_dir_item : ℕ
size_central_dir_item = 0x2e

-- `get_file_count`
pub get_file_count : Unzip → ℕ
get_file_count unz = unz.number_entry

-- The reads of `open` behind its `fseek`, over the state that it starts from.
pub read_end_record : Unzip → ℕ → Reader Unzip
read_end_record unz central_pos = do
  signature ← get_long
  number_disk ← get_short
  number_disk_with_cd ← get_short
  number_entry ← get_short
  number_entry_cd ← get_short
  check ((number_entry_cd == number_entry) && (number_disk_with_cd == 0) && (number_disk == 0))
  size_central_dir ← get_long
  offset_central_dir ← get_long
  size_comment ← get_short
  check (leb (u32 (offset_central_dir + size_central_dir)) central_pos)
  pure (record unz {
    number_entry = number_entry;
    size_central_dir = size_central_dir;
    offset_central_dir = offset_central_dir;
    size_comment = size_comment;
    byte_before_the_zipfile = central_pos - u32 (offset_central_dir + size_central_dir);
    central_pos = central_pos;
    encrypted = false;
  })

module _ (mktime : Tm → ℕ) (file : Bytes) where
  -- `get_current_file_info(&_info)` with the two assignments that follow it.
  pub load_info : Unzip → Bool × Unzip
  load_info unz =
      elim (get_current_file_info mktime file
        (u32 (unz.pos_in_central_dir + unz.byte_before_the_zipfile))) [
          | none ↦ (false, record unz { offset_curfile = unz.info.offset; current_file_ok = false })
          | some info ↦ (
            true,
            record unz { info = info; offset_curfile = info.offset; current_file_ok = true },
          )
        ]

  -- `first_file`
  pub first_file : Unzip → Bool × Unzip
  first_file unz =
      load_info (record unz { num_file = 0; pos_in_central_dir = unz.offset_central_dir })

  -- `next_file`
  pub next_file : Unzip → Bool × Unzip
  next_file unz =
      if not unz.current_file_ok
        || (not (unz.number_entry == 0xffff) && (u32 (unz.num_file + 1) == unz.number_entry))
      then (false, unz)
      else load_info (record unz {
        num_file = u32 (unz.num_file + 1);
        pos_in_central_dir = u32 (
            unz.pos_in_central_dir
            + (size_central_dir_item + unz.info.size_filename + unz.info.size_file_extra
                + unz.info.size_file_comment));
      })

  -- The loop of `search_file`, with a bound on its rounds; `none` is a loop that goes on.
  pub search_loop : Bytes → ℕ → Bool × Unzip → Option (Bool × Unzip)
  search_loop name zero state = none
  search_loop name (suc rounds) (false, unz) = some (false, unz)
  search_loop name (suc rounds) (true, unz) =
      elim (get_current_file_info mktime file
        (u32 (unz.pos_in_central_dir + unz.byte_before_the_zipfile))) [
          | none ↦ search_loop name rounds (true, unz)
          | some info ↦ elim (string_eq info.file name) [
            | true ↦ some (true, record unz { info = info })
            | false ↦ search_loop name rounds (next_file (record unz { info = info }))
          ]
        ]

  -- `search_file`
  pub search_file : ℕ → Bytes → Unzip → Option (Bool × Unzip)
  search_file rounds [] unz = some (false, unz)
  search_file rounds (c ∷ name) unz =
      if not unz.current_file_ok
      then some (false, unz)
      else elim (search_loop (c ∷ name) rounds (first_file unz)) [
        | none ↦ none
        | some (true, found) ↦ some (true, found)
        | some (false, last) ↦ some (
          false,
          record last {
            num_file = unz.num_file;
            pos_in_central_dir = unz.pos_in_central_dir;
            info = unz.info;
            offset_curfile = unz.offset_curfile;
          },
        )
      ]

  -- `open`, from the state of a new object; `none` is the result 0.
  pub open_archive : Unzip → Option Unzip
  open_archive unz =
      let central_pos = get_central_dir file in
      if central_pos == 0
      then none
      else elim (read_end_record unz central_pos (seek file central_pos)) [
        | none ↦ none
        | some (found, rest) ↦ some (first_file found).1
      ]
