-- ===== src/Unzip/Archive/Find.antt =====
-- The answers about the entry that the state stands at, and `toString` of an entry by its name.
use bkjs_utils.Prelude.{
  ℕ, ◌/◌, ◌%◌, ◌^◌, ◌<◌, ◌≡◌, Bytes, List, [], ◌∷◌, ◌++◌, true, false, some, length, ◌>>>◌,
}
use bkjs_utils.Prelude.Xor.{bit_and_mask}
use bkjs_utils.Unzip.Cipher.{Keys}
use bkjs_utils.Unzip.Entry.{Tm, Info}
use bkjs_utils.Unzip.Directory.{Unzip, open_archive}
use bkjs_utils.Unzip.Directory.Walk.{IsDirectory, at, get_current_file_info_at}
use bkjs_utils.Unzip.Directory.Search.{first_named, search_file-first_named}
use bkjs_utils.Unzip.File.{Zlib}
use bkjs_utils.Unzip.File.Read.Local.{IsLocal}
use bkjs_utils.Unzip.File.Read.Contents.{contents-plain}
use bkjs_utils.Unzip.Archive.{current_info, get_file_name, get_file_size, get_file_mode, to_string}

-- At an entry of a well-formed directory `get_file_name`, `get_file_size` and `get_file_mode` return
-- its name, its uncompressed size and the high half of its external attributes.
pub answers-at :
    (mktime : Tm → ℕ) (file : Bytes) (unz : Unzip) (passed : List Info) (e : Info)
    (todo : List Info)
    → IsDirectory mktime file unz (passed ++ e ∷ todo)
    → (get_file_name mktime file (at unz passed e) ≡ e.file)
      × ((get_file_size mktime file (at unz passed e) ≡ e.uncompressed_size)
          × (get_file_mode mktime file (at unz passed e) ≡ e.external_fa / 2 ^ 16 % 2 ^ 16))
unfolding get_file_name get_file_size get_file_mode current_info
answers-at mktime file unz passed e todo dir =
    let here = get_current_file_info_at mktime file unz passed e todo dir in
    (
      rw (get_file_name, current_info, here),
      (
        rw (get_file_size, current_info, here),
        rw (get_file_mode, current_info, here) (bit_and_mask 16 (e.external_fa >>> 16)),
      ),
    )

-- If the archive opens in a well-formed directory, whose first entry of the name is stored without
-- encryption behind its local header, `toString` ends and returns that entry's text.
pub to_string-stored :
    {Z : Type 0} (zlib : Zlib Z) (mktime : Tm → ℕ) (file : Bytes) (unz first : Unzip) (keys : Keys)
    (c : ℕ) (name : Bytes) (e : Info) (es passed : List Info) (x : Info) (plain : Bytes)
    (entries calls rounds : ℕ)
    → open_archive mktime file unz ≡ some first
    → IsDirectory mktime file first (e ∷ es)
    → first.current_file_ok ≡ true
    → first_named (c ∷ name) [] (e ∷ es) ≡ some (passed, x)
    → IsLocal mktime file (at first passed x) plain plain
    → first.encrypted ≡ false
    → length (e ∷ es) < entries
    → length plain < calls
    → 4096 < rounds
    → to_string mktime file zlib entries calls rounds unz keys (c ∷ name) ≡ some plain
unfolding to_string
to_string-stored zlib mktime file unz first keys c name e es passed x plain entries calls rounds
      opens dir ok found local open_text n l r =
    let search = search_file-first_named mktime file first c name entries e es dir ok n in
    rw (to_string, opens, search, found)
      (contents-plain zlib mktime file (at first passed x) keys plain local open_text calls rounds l
        r)
