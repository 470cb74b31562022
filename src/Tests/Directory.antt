-- ===== src/Tests/Directory.antt =====
-- Runs of the walk through a directory of two entries.
use bkjs_utils.Prelude.{
  ℕ, ◌+◌, ◌≡◌, ◌≢◌, refl, arith, Bytes, List, [], ◌∷◌, ◌++◌, codes, Bool, true, false, not, some,
  ltb, ◌||◌, All, ltb-false, sym,
}
use bkjs_utils.Prelude.Tables.{holds_below, holds_below-apply}
use bkjs_utils.Unzip.Locate.{is_end_record}
use bkjs_utils.Unzip.Entry.{Tm, Info, tm_of, get_current_file_info}
use bkjs_utils.Unzip.Entry.RoundTrip.{IsEntry, entry_bytes, get_current_file_info-entry_bytes}
use bkjs_utils.Unzip.Entry.Date.{dos_date_of, tm_of-dos_date_of}
use bkjs_utils.Unzip.Directory.{Unzip, search_file, open_archive}
use bkjs_utils.Unzip.Directory.Walk.{IsDirectory, IsDirectory-at, at}
use bkjs_utils.Unzip.Directory.Search.{search_file-first_named}
use bkjs_utils.Unzip.Directory.Open.{archive, opened, open_archive-at, opened-IsDirectory}

-- A function that stands for `mktime`.
abbrev pub sample_time : Tm → ℕ
sample_time tm = tm.tm_sec + tm.tm_min + tm.tm_hour

abbrev sample_date : ℕ
sample_date = 0x5a21_4b2c

abbrev pub sample_entry : ℕ → Info
sample_entry letter = record {
  version = 20;
  version_needed = 20;
  flag = 0;
  compression_method = 8;
  dos_date = sample_date;
  crc = 0x1234_5678;
  compressed_size = 7;
  uncompressed_size = 9;
  size_filename = 1;
  size_file_extra = 0;
  size_file_comment = 0;
  disk_num_start = 0;
  internal_fa = 0;
  external_fa = 0x81a4_0000;
  offset = 3;
  timestamp = sample_time (tm_of sample_date);
  file = letter ∷ [];
  extra = [];
  comment = [];
}

pub sample_entry-IsEntry : (letter : ℕ) → letter ≢ 0 → IsEntry sample_time (sample_entry letter)
sample_entry-IsEntry letter nz = record {
  version = omega arith;
  version_needed = omega arith;
  flag = omega arith;
  compression_method = omega arith;
  dos_date = omega arith;
  crc = omega arith;
  compressed_size = omega arith;
  uncompressed_size = omega arith;
  file = (refl, omega arith, (nz, tt));
  extra = (refl, omega arith, tt);
  comment = (refl, omega arith, tt);
  disk_num_start = omega arith;
  internal_fa = omega arith;
  external_fa = omega arith;
  offset = omega arith;
  timestamp = refl;
}

-- The entries "a" and "b".
abbrev entry_a : Info
entry_a = sample_entry 97

abbrev entry_b : Info
entry_b = sample_entry 98

abbrev sample_entries : List Info
sample_entries = entry_a ∷ entry_b ∷ []

sample_entries-valid : All (IsEntry sample_time) sample_entries
sample_entries-valid =
    (sample_entry-IsEntry 97 (λ e. omega arith), (sample_entry-IsEntry 98 (λ e. omega arith), tt))

abbrev sample_archive : Bytes
sample_archive = archive (codes "stub data") sample_entries 4 (codes "hi")

-- The state of a new object.
abbrev pub new_unzip : Unzip
new_unzip = record {
  number_entry = 0;
  size_central_dir = 0;
  offset_central_dir = 0;
  size_comment = 0;
  byte_before_the_zipfile = 0;
  central_pos = 0;
  encrypted = false;
  num_file = 0;
  pos_in_central_dir = 0;
  offset_curfile = 0;
  current_file_ok = false;
  info = entry_a;
}

abbrev sample_unzip : Unzip
sample_unzip = opened new_unzip 2 94 4 2 103

sample_unzip-IsDirectory : IsDirectory sample_time sample_archive sample_unzip sample_entries
unfolding entry_bytes
sample_unzip-IsDirectory =
    opened-IsDirectory sample_time new_unzip (codes "stub data") entry_a (entry_b ∷ []) 4
      (codes "hi") (omega arith) (omega arith) (omega arith) (omega arith) sample_entries-valid

get_current_file_info-entry_bytes_example :
    get_current_file_info sample_time (codes "stub" ++ (entry_bytes entry_a ++ codes "more")) 4
    ≡ some entry_a
get_current_file_info-entry_bytes_example =
    get_current_file_info-entry_bytes sample_time entry_a (codes "stub") (codes "more")
      (sample_entry-IsEntry 97 (λ e. omega arith))

tm_of-dos_date_of_example :
    tm_of (dos_date_of 2024 2 29 23 59 59)
    ≡ record { tm_mday = 29; tm_mon = 1; tm_year = 124; tm_hour = 23; tm_min = 59; tm_sec = 58 }
tm_of-dos_date_of_example =
    tm_of-dos_date_of 2024 2 29 23 59 59 (omega arith) (omega arith) (omega arith) (omega arith)
      (omega arith) (omega arith) (omega arith) (omega arith)

search_file-first_named_example :
    search_file sample_time sample_archive 3 (codes "b") (at sample_unzip [] entry_a)
    ≡ some (true, at sample_unzip (entry_a ∷ []) entry_b)
search_file-first_named_example =
    search_file-first_named sample_time sample_archive (at sample_unzip [] entry_a) 98 [] 3 entry_a
      (entry_b ∷ [])
      (IsDirectory-at sample_time sample_archive sample_unzip sample_entries [] entry_a
        sample_unzip-IsDirectory)
      refl (omega arith)

-- No later end record: the test fails behind the record's place.
abbrev no_record : ℕ → Bool
no_record q = ltb q 104 || not (is_end_record sample_archive q)

pub not-true : (b : Bool) → not b ≡ true → b ≡ false
not-true true h = sym h
not-true false h = refl

open_archive-at_example :
    open_archive sample_time sample_archive new_unzip ≡ some (at sample_unzip [] entry_a)
unfolding is_end_record entry_bytes holds_below
open_archive-at_example =
    open_archive-at sample_time new_unzip (codes "stub data") entry_a (entry_b ∷ []) 4 (codes "hi")
      (omega arith) (omega arith) (omega arith) (omega arith) sample_entries-valid
      (λ q a b.
        let passes : no_record q ≡ true = holds_below-apply no_record 124 refl q (omega arith) in
        let behind : ltb q 104 ≡ false = ltb-false q 104 (omega arith) in
        not-true (is_end_record sample_archive q) (rw behind at passes))
