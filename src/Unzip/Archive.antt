-- ===== src/Unzip/Archive.antt =====
-- What an archive answers: `get_file_name`, `get_file_size`, `get_file_mode`, `get_comment`,
-- `toString` and `get_files` of bklib/bkunzip.cpp.
pub mod Find
pub mod Files
use bkjs_utils.Prelude.{
  ℕ, zero, suc, ◌+◌, ◌-◌, ◌*◌, ◌/◌, ◌%◌, ◌^◌, Bytes, List, [], ◌∷◌, ◌++◌, Bool, true, false, not,
  Option, none, some, ◌==◌, if◌then◌else◌, u32, bit_and, ◌>>>◌,
}
use bkjs_utils.Prelude.Int.{ℤ, as_int}
use bkjs_utils.Unzip.Reader.{read_bytes, seek}
use bkjs_utils.Unzip.Cipher.{Keys}
use bkjs_utils.Unzip.Entry.{Tm, Info, c_string, get_current_file_info}
use bkjs_utils.Unzip.Directory.{Unzip, open_archive, search_file, next_file}
use bkjs_utils.Unzip.File.{Zlib, open_file}
use bkjs_utils.Unzip.File.Read.{contents}

module _ (mktime : Tm → ℕ) (file : Bytes) where
  -- `get_current_file_info` at the state's entry.
  pub current_info : Unzip → Option Info
  current_info unz =
      get_current_file_info mktime file (u32 (unz.pos_in_central_dir + unz.byte_before_the_zipfile))

  -- `get_file_name`
  pub get_file_name : Unzip → Bytes
  get_file_name unz = elim (current_info unz) [ none ↦ [] | some info ↦ info.file ]

  -- `get_file_size`
  pub get_file_size : Unzip → ℕ
  get_file_size unz = elim (current_info unz) [ none ↦ 0 | some info ↦ info.uncompressed_size ]

  -- `get_file_mode`
  pub get_file_mode : Unzip → ℕ
  get_file_mode unz = elim (current_info unz) [
    | none ↦ 0
    | some info ↦ bit_and (info.external_fa >>> 16) 0xffff
  ]

  -- `get_comment`
  pub get_comment : Unzip → Bytes
  get_comment unz =
      if unz.size_comment == 0
      then []
      else elim (read_bytes unz.size_comment (seek file (u32 (unz.central_pos + 22)))) [
        | none ↦ []
        | some (buf, rest) ↦ c_string buf
      ]

  module _ {Z : Type 0} (zlib : Zlib Z) where
    -- `toString`, with bounds on the rounds of the search, the calls of `read_file` and their
    -- rounds; `none` is a loop that goes on. Where the archive or the entry does not open or is not
    -- found, it returns the empty string.
    pub to_string : ℕ → ℕ → ℕ → Unzip → Keys → Bytes → Option Bytes
    to_string entries calls rounds unz keys name = elim (open_archive mktime file unz) [
      | none ↦ some []
      | some first ↦ elim (search_file mktime file entries name first) [
        | none ↦ none
        | some (false, last) ↦ some []
        | some (true, found) ↦ contents zlib file calls rounds found keys []
      ]
    ]

    -- The loop of `get_files`, with a bound on its rounds; a size is listed as an `int`.
    pub list_files : ℕ → Unzip → Keys → List (Bytes × ℤ)
    list_files zero unz keys = []
    list_files (suc rounds) unz keys = elim (open_file zlib file unz keys false []) [
      | none ↦ []
      | some f ↦
          let (more, next) = next_file mktime file unz in
          let entry : Bytes × ℤ = (get_file_name unz, as_int (get_file_size unz)) in
          elim more [ true ↦ entry ∷ list_files rounds next keys | false ↦ entry ∷ [] ]
    ]

    -- `get_files`
    pub get_files : ℕ → Unzip → Keys → List (Bytes × ℤ)
    get_files rounds unz keys = elim (open_archive mktime file unz) [
      | none ↦ []
      | some first ↦ list_files rounds first keys
    ]
