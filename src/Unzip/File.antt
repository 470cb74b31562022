-- ===== src/Unzip/File.antt =====
-- An open entry: `check_header`, `open_file` and `read_file` of bklib/bkunzip.cpp. zlib is a record
-- of functions, a parameter; the bytes of the archive are another. A buffer is the list of its
-- unread bytes, so `next_in`, `avail_in` are one list and `next_out` is what has been written.
pub mod Read
use bkjs_utils.Prelude.{
  ℕ, zero, suc, ◌+◌, ◌-◌, ◌*◌, ◌/◌, ◌%◌, ◌^◌, Bytes, List, [], ◌∷◌, ◌++◌, Bool, true, false, not,
  ◌&&◌, ◌||◌, Option, none, some, ◌==◌, if◌then◌else◌, leb, ltb, u32, bit_and, length, take, drop,
  min,
}
use bkjs_utils.Unzip.Reader.{
  Reader, ◌>>=◌, ◌>>◌, pure, check, get_short, get_long, read_bytes, seek,
}
use bkjs_utils.Unzip.Cipher.{Keys, init_keys, decode}
use bkjs_utils.Unzip.Entry.{Info}
use bkjs_utils.Unzip.Directory.{Unzip}

-- What `inflate` does with the input and the room for output: its code, the input that is left,
-- the output and the stream's state.
pub record Inflated (Z : Type 0) : Type 0 where
  pub code : Bool × Bool
  pub rest : Bytes
  pub output : Bytes
  pub stream : Z

-- The functions of zlib that the reader calls. The code of `inflate` is the pair of "Z_OK" and
-- "Z_STREAM_END", both without a message.
pub record Zlib (Z : Type 0) : Type 0 where
  pub crc_table : ℕ → ℕ
  pub crc32 : ℕ → Bytes → ℕ
  pub inflate_init : Option Z
  pub inflate : Z → Bytes → ℕ → Inflated Z

-- `bkUnzip::File`, with the keys of the cipher.
pub record File (Z : Type 0) : Type 0 where
  pub stream : Option Z
  pub next_in : Bytes
  pub total_out : ℕ
  pub pos_in_zipfile : ℕ
  pub offset_local_extrafield : ℕ
  pub size_local_extrafield : ℕ
  pub pos_local_extrafield : ℕ
  pub crc32 : ℕ
  pub crc32_wait : ℕ
  pub rest_read_compressed : ℕ
  pub rest_read_uncompressed : ℕ
  pub compression_method : ℕ
  pub byte_before_the_zipfile : ℕ
  pub raw : Bool
  pub encrypted : Bool
  pub keys : Keys

-- `UNZ_BUFSIZE`, `SIZEZIPLOCALHEADER`, `Z_DEFLATED`
abbrev pub unz_bufsize : ℕ
unz_bufsize = 16384

abbrev pub size_zip_local_header : ℕ
size_zip_local_header = 0x1e

abbrev pub z_deflated : ℕ
z_deflated = 8

-- `check_header` behind its `fseek`: `size_filename` and `size_extra_field`.
pub check_header : Info → Reader (ℕ × ℕ)
check_header info = do
  magic ← get_long
  check (magic == 0x0403_4b50)
  version ← get_short
  flags ← get_short
  method ← get_short
  check (method == info.compression_method)
  check (info.compression_method == 0 || info.compression_method == z_deflated)
  date ← get_long
  crc ← get_long
  check (crc == info.crc || not (bit_and flags 8 == 0))
  compressed ← get_long
  check (compressed == info.compressed_size || not (bit_and flags 8 == 0))
  uncompressed ← get_long
  check (uncompressed == info.uncompressed_size || not (bit_and flags 8 == 0))
  size_filename ← get_short
  check (size_filename == info.size_filename)
  size_extra_field ← get_short
  pure (size_filename, size_extra_field)

module _ {Z : Type 0} (zlib : Zlib Z) (file : Bytes) where
  -- The part of `open_file` behind `inflateInit2`: the twelve bytes of the encryption header.
  unfoldable pub open_encrypted : Bytes → File Z → Option (File Z)
  open_encrypted [] f = some f
  open_encrypted (c ∷ password) f =
      elim (read_bytes 12 (seek file (u32 (f.pos_in_zipfile + f.byte_before_the_zipfile)))) [
        | none ↦ none
        | some (source, rest) ↦ some (record f {
          keys = (decode zlib.crc_table (init_keys zlib.crc_table (c ∷ password)) source).0;
          pos_in_zipfile = u32 (f.pos_in_zipfile + 12);
          encrypted = true;
        })
      ]

  -- `open_file(method, level, raw, password)` with no place for a method and a level; `none` is
  -- the result 0. The keys and `encrypted` are those of the archive's last use.
  pub open_file : Unzip → Keys → Bool → Bytes → Option (File Z)
  open_file unz keys raw password =
      if not unz.current_file_ok
      then none
      else elim (check_header unz.info
          (seek file (u32 (unz.offset_curfile + unz.byte_before_the_zipfile)))) [
            | none ↦ none
            | some ((size_filename, size_extra_field), ahead) ↦
                let opened : Option Z → File Z = λ stream. record {
                  stream = stream;
                  next_in = [];
                  total_out = 0;
                  pos_in_zipfile = u32 (
                      unz.offset_curfile
                      + size_zip_local_header
                      + (size_filename + size_extra_field));
                  offset_local_extrafield =
                      u32 (unz.offset_curfile + size_zip_local_header + size_filename);
                  size_local_extrafield = size_extra_field;
                  pos_local_extrafield = 0;
                  crc32 = 0;
                  crc32_wait = unz.info.crc;
                  rest_read_compressed = unz.info.compressed_size;
                  rest_read_uncompressed = unz.info.uncompressed_size;
                  compression_method = unz.info.compression_method;
                  byte_before_the_zipfile = unz.byte_before_the_zipfile;
                  raw = raw;
                  encrypted = unz.encrypted;
                  keys = keys;
                } in
                if unz.info.compression_method == z_deflated && not raw
                then elim zlib.inflate_init [
                  | none ↦ none
                  | some z ↦ open_encrypted password (opened (some z))
                ]
                else open_encrypted password (opened none)
          ]
