-- ===== src/Tests/Contents.antt =====
-- Runs of the reader of an open entry.
use bkjs_utils.Prelude.{
  ℕ, ◌+◌, ◌*◌, ◌<◌, ◌≡◌, refl, arith, ap, subst, Bytes, List, [], ◌∷◌, ◌++◌, codes, length,
  length-append, ◌^◌, replicate, Bool, true, false, none, some, All, take, not, ltb, ltb-false,
  ◌||◌,
}
use bkjs_utils.Unzip.Cipher.{Keys, init_keys}
use bkjs_utils.Unzip.Cipher.RoundTrip.{length-encode}
use bkjs_utils.Unzip.Entry.{Info}
use bkjs_utils.Unzip.Entry.RoundTrip.{IsEntry}
use bkjs_utils.Unzip.Directory.{Unzip}
use bkjs_utils.Unzip.File.{Zlib, File, open_file, open_encrypted}
use bkjs_utils.Prelude.Int.{ℤ, as_int}
use bkjs_utils.Unzip.File.Read.{contents, read_file, decrypted}
use bkjs_utils.Unzip.File.Read.Stored.{Holds}
use bkjs_utils.Unzip.File.Read.Loop.{read_file-stored}
use bkjs_utils.Unzip.File.Read.Local.{IsLocal, local_entry, local_header, open_file-opened}
use bkjs_utils.Unzip.File.Read.Contents.{contents-encrypted, encrypted_text}
use bkjs_utils.Prelude.Tables.{holds_below, holds_below-apply}
use bkjs_utils.Unzip.Locate.{is_end_record}
use bkjs_utils.Unzip.Entry.RoundTrip.{entry_bytes}
use bkjs_utils.Unzip.Directory.{open_archive}
use bkjs_utils.Unzip.Directory.Walk.{IsDirectory, IsDirectory-at, at, directory_bytes}
use bkjs_utils.Unzip.Directory.Open.{
  archive, end_record, opened, open_archive-at, opened-IsDirectory,
}
use bkjs_utils.Unzip.Archive.{to_string, get_files, get_file_name, get_file_size, get_file_mode}
use bkjs_utils.Unzip.Archive.Find.{to_string-stored, answers-at}
use bkjs_utils.Unzip.Archive.Files.{get_files-all, AllOpen}
use bkjs_utils.Tests.Directory.{
  sample_time, sample_entry, sample_entry-IsEntry, new_unzip, not-true,
}

-- Functions that stand for zlib's: an `inflate` that copies.
abbrev sample_zlib : Zlib (Unit {0})
sample_zlib = record {
  crc_table = λ i. i * 0x0101_0101;
  crc32 = λ crc buf. crc + length buf;
  inflate_init = some tt;
  inflate = λ z input room. record {
    code = (true, true);
    rest = [];
    output = take room input;
    stream = z;
  };
}

abbrev sample_keys : Keys
sample_keys = record { k0 = 0; k1 = 0; k2 = 0 }

abbrev stored_entry : ℕ → Info
stored_entry size = record (sample_entry 97) {
  compression_method = 0;
  compressed_size = size;
  uncompressed_size = 5;
  offset = 0;
}

stored_entry-IsEntry : (size : ℕ) → size < 2 ^ 32 → IsEntry sample_time (stored_entry size)
stored_entry-IsEntry size h =
    let e = sample_entry-IsEntry 97 (λ e. omega arith) in
    record {
      version = e.version;
      version_needed = e.version_needed;
      flag = e.flag;
      compression_method = omega arith;
      dos_date = e.dos_date;
      crc = e.crc;
      compressed_size = h;
      uncompressed_size = omega arith;
      file = e.file;
      extra = e.extra;
      comment = e.comment;
      disk_num_start = e.disk_num_start;
      internal_fa = e.internal_fa;
      external_fa = e.external_fa;
      offset = omega arith;
      timestamp = e.timestamp;
    }

-- The state at a stored entry at the start of the file.
abbrev at_stored : ℕ → Unzip
at_stored size = record new_unzip { info = stored_entry size; current_file_ok = true }

abbrev local_file : Bytes → Bytes
local_file packed =
    local_entry (stored_entry (length packed)) 0 (codes "a") packed ++ replicate 22 0

local_file-IsLocal :
    (packed : Bytes)
    → length packed < 2 ^ 16
    → IsLocal sample_time (local_file packed) (at_stored (length packed)) packed (codes "hello")
unfolding local_header
local_file-IsLocal packed h = record {
  before = [];
  after = replicate 22 0;
  names = codes "a";
  size_extra = 0;
  layout = refl;
  start = refl;
  small = omega (arith, length-append packed (replicate 22 0));
  short = omega arith;
  named = refl;
  usable = refl;
  valid = stored_entry-IsEntry (length packed) (omega arith);
  stored = refl;
  whole = refl;
  text = refl;
}

-- "hello" behind a header of twelve bytes, encrypted with the password "pw".
abbrev sample_secret : Bytes
sample_secret = encrypted_text sample_zlib (codes "pw") (replicate 12 7) (codes "hello")

length-sample_secret : length sample_secret ≡ 17
length-sample_secret =
    length-encode sample_zlib.crc_table (init_keys sample_zlib.crc_table (codes "pw"))
      (replicate 12 7 ++ codes "hello")

contents-encrypted_example :
    contents sample_zlib
      (local_file sample_secret)
      6
      4097
      (at_stored (length sample_secret))
      sample_keys
      (codes "pw")
    ≡ some (codes "hello")
unfolding local_file-IsLocal
contents-encrypted_example =
    contents-encrypted sample_zlib sample_time (local_file sample_secret)
      (at_stored (length sample_secret)) sample_keys 112 (codes "w") (replicate 12 7)
      (codes "hello") (local_file-IsLocal sample_secret (omega (arith, length-sample_secret))) refl
      (omega arith) 6 4097 (omega arith) (omega arith)

-- An archive of the one stored entry.
abbrev one_entry : Info
one_entry = stored_entry 5

abbrev one_before : Bytes
one_before = local_entry one_entry 0 (codes "a") (codes "hello")

abbrev one_archive : Bytes
one_archive = archive one_before (one_entry ∷ []) 36 []

one_valid : All (IsEntry sample_time) (one_entry ∷ [])
one_valid = (stored_entry-IsEntry 5 (omega arith), tt)

abbrev one_first : Unzip
one_first = at (opened new_unzip 1 47 36 0 83) [] one_entry

one_opens : open_archive sample_time one_archive new_unzip ≡ some one_first
unfolding is_end_record entry_bytes local_header holds_below
one_opens =
    open_archive-at sample_time new_unzip one_before one_entry [] 36 [] (omega arith) (omega arith)
      (omega arith) (omega arith) one_valid
      (λ q a b.
        let test : ℕ → Bool = λ p. ltb p 84 || not (is_end_record one_archive p) in
        let passes : test q ≡ true = holds_below-apply test 102 refl q (omega arith) in
        let behind : ltb q 84 ≡ false = ltb-false q 84 (omega arith) in
        not-true (is_end_record one_archive q) (rw behind at passes))

one_archive-IsDirectory : IsDirectory sample_time one_archive one_first (one_entry ∷ [])
unfolding entry_bytes local_header
one_archive-IsDirectory =
    IsDirectory-at sample_time one_archive (opened new_unzip 1 47 36 0 83) (one_entry ∷ []) []
      one_entry
      (opened-IsDirectory sample_time new_unzip one_before one_entry [] 36 [] (omega arith)
        (omega arith) (omega arith) (omega arith) one_valid)

one_archive-IsLocal : IsLocal sample_time one_archive one_first (codes "hello") (codes "hello")
unfolding local_header entry_bytes
one_archive-IsLocal = record {
  before = [];
  after = directory_bytes (one_entry ∷ []) ++ end_record 1 47 36 [];
  names = codes "a";
  size_extra = 0;
  layout = refl;
  start = refl;
  small = omega arith;
  short = omega arith;
  named = refl;
  usable = refl;
  valid = stored_entry-IsEntry 5 (omega arith);
  stored = refl;
  whole = refl;
  text = refl;
}

to_string-stored_example :
    to_string sample_time one_archive sample_zlib 2 6 4097 new_unzip sample_keys (codes "a")
    ≡ some (codes "hello")
to_string-stored_example =
    to_string-stored sample_zlib sample_time one_archive new_unzip one_first sample_keys 97 []
      one_entry [] [] one_entry (codes "hello") 2 6 4097 one_opens one_archive-IsDirectory refl refl
      one_archive-IsLocal refl (omega arith) (omega arith) (omega arith)

head_or : Info → List Info → Info
head_or d [] = d
head_or d (e ∷ es) = e

one_opened :
    (f : File (Unit {0})) × (open_file sample_zlib one_archive one_first sample_keys false []
      ≡ some f)
unfolding open_encrypted
one_opened = (
  _,
  open_file-opened sample_zlib sample_time one_archive one_first sample_keys (codes "hello")
      (codes "hello") one_archive-IsLocal [],
)

one_archive-AllOpen :
    AllOpen sample_zlib sample_time one_archive
      (opened new_unzip 1 47 36 0 83)
      sample_keys
      (one_entry ∷ [])
unfolding head_or
one_archive-AllOpen [] e todo h =
    let same : one_entry ≡ e = ap (head_or one_entry) h in
    subst
      (λ x.
        (f : File (Unit {0})) × (open_file sample_zlib one_archive
            (at (opened new_unzip 1 47 36 0 83) [] x) sample_keys false []
          ≡ some f))
      same one_opened
one_archive-AllOpen (x ∷ passed) e todo h =
    absurd (omega (arith, ap length h, length-append passed (e ∷ todo)))

get_files-all_example :
    get_files sample_time one_archive sample_zlib 1 new_unzip sample_keys
    ≡ (codes "a", ℤ.pos 5) ∷ []
unfolding as_int local_header entry_bytes
get_files-all_example =
    get_files-all sample_zlib sample_time one_archive (opened new_unzip 1 47 36 0 83) sample_keys
      new_unzip 1 one_entry [] one_opens
      (opened-IsDirectory sample_time new_unzip one_before one_entry [] 36 [] (omega arith)
        (omega arith) (omega arith) (omega arith) one_valid)
      one_archive-AllOpen (omega arith)

answers-at_example :
    (get_file_name sample_time one_archive one_first ≡ codes "a")
    × ((get_file_size sample_time one_archive one_first ≡ 5)
        × (get_file_mode sample_time one_archive one_first ≡ 0x81a4))
unfolding local_header entry_bytes
answers-at_example =
    answers-at sample_time one_archive (opened new_unzip 1 47 36 0 83) [] one_entry [] (
      opened-IsDirectory sample_time new_unzip one_before one_entry [] 36 [] (omega arith)
        (omega arith) (omega arith) (omega arith) one_valid)

abbrev one_file : File (Unit {0})
one_file = record {
  stream = none;
  next_in = codes "he";
  total_out = 0;
  pos_in_zipfile = 33;
  offset_local_extrafield = 31;
  size_local_extrafield = 0;
  pos_local_extrafield = 0;
  crc32 = 0;
  crc32_wait = 0;
  rest_read_compressed = 3;
  rest_read_uncompressed = 5;
  compression_method = 0;
  byte_before_the_zipfile = 0;
  raw = false;
  encrypted = false;
  keys = sample_keys;
}

one_file-Holds : Holds sample_zlib one_archive one_file (codes "hello")
unfolding decrypted local_header entry_bytes
one_file-Holds = record {
  stored = refl;
  plainly = refl;
  left = refl;
  inside = omega arith;
  small = omega arith;
  fits = omega arith;
  slack = [];
  text = refl;
}

read_file-stored_example :
    (g : File (Unit {0})) × ((read_file sample_zlib one_archive 4 one_file 3
        ≡ some (ℤ.pos 3, codes "hel", g))
      × Holds sample_zlib one_archive g (codes "lo"))
read_file-stored_example =
    read_file-stored sample_zlib one_archive 4 one_file 3 (codes "hello") one_file-Holds
      (omega arith) (omega arith)
