-- ===== src/Unzip/Entry.antt =====
-- `bkUnzip::get_current_file_info` of bklib/bkunzip.cpp: an entry of the central directory.
-- `mktime` is a parameter. The seeks by `lSeek` are left out: it is 0 at each of them.
pub mod RoundTrip
pub mod Date
use bkjs_utils.Prelude.{
  ℕ, zero, suc, ◌+◌, ◌-◌, ◌*◌, ◌/◌, ◌%◌, ◌^◌, Bytes, List, [], ◌∷◌, Bool, true, false, Option, none,
  some, ◌==◌, if◌then◌else◌, ◌>>>◌, u32, bit_and,
}
use bkjs_utils.Unzip.Reader.{
  Reader, ◌>>=◌, ◌>>◌, pure, check, get_short, get_long, read_bytes, seek,
}

-- `struct tm`; a field holds the bits of its `int`.
pub record Tm : Type 0 where
  pub tm_mday : ℕ
  pub tm_mon : ℕ
  pub tm_year : ℕ
  pub tm_hour : ℕ
  pub tm_min : ℕ
  pub tm_sec : ℕ

-- `bkUnzip::Info`
pub record Info : Type 0 where
  pub version : ℕ
  pub version_needed : ℕ
  pub flag : ℕ
  pub compression_method : ℕ
  pub dos_date : ℕ
  pub crc : ℕ
  pub compressed_size : ℕ
  pub uncompressed_size : ℕ
  pub size_filename : ℕ
  pub size_file_extra : ℕ
  pub size_file_comment : ℕ
  pub disk_num_start : ℕ
  pub internal_fa : ℕ
  pub external_fa : ℕ
  pub offset : ℕ
  pub timestamp : ℕ
  pub file : Bytes
  pub extra : Bytes
  pub comment : Bytes

-- The fields of `ltm`.
pub tm_of : ℕ → Tm
tm_of dos_date =
    let u_date = dos_date >>> 16 in
    record {
      tm_mday = bit_and u_date 0x1f;
      tm_mon = u32 (bit_and u_date 0x1e0 / 0x20 + 2 ^ 32 - 1);
      tm_year = u32 (bit_and u_date 0xfe00 / 0x200 + 1980) - 1900;
      tm_hour = bit_and dos_date 0xf800 / 0x800;
      tm_min = bit_and dos_date 0x7e0 / 0x20;
      tm_sec = 2 * bit_and dos_date 0x1f;
    }

-- `string::append` of a buffer that ends with a 0.
pub c_string : Bytes → Bytes
c_string [] = []
c_string (c ∷ bs) = if c == 0 then [] else c ∷ c_string bs

-- `if (size > 0) { fread; append }`
pub read_text : ℕ → Reader Bytes
read_text zero = pure []
read_text (suc n) = do bs ← read_bytes (suc n); pure (c_string bs)

module _ (mktime : Tm → ℕ) where
  -- The reads behind `fseek`, in the order of the record in the file.
  pub read_info : Reader Info
  read_info = do
    magic ← get_long
    check (magic == 0x0201_4b50)
    version ← get_short
    version_needed ← get_short
    flag ← get_short
    compression_method ← get_short
    dos_date ← get_long
    crc ← get_long
    compressed_size ← get_long
    uncompressed_size ← get_long
    size_filename ← get_short
    size_file_extra ← get_short
    size_file_comment ← get_short
    disk_num_start ← get_short
    internal_fa ← get_short
    external_fa ← get_long
    offset ← get_long
    file ← read_text size_filename
    extra ← read_text size_file_extra
    comment ← read_text size_file_comment
    pure (record {
      version = version;
      version_needed = version_needed;
      flag = flag;
      compression_method = compression_method;
      dos_date = dos_date;
      crc = crc;
      compressed_size = compressed_size;
      uncompressed_size = uncompressed_size;
      size_filename = size_filename;
      size_file_extra = size_file_extra;
      size_file_comment = size_file_comment;
      disk_num_start = disk_num_start;
      internal_fa = internal_fa;
      external_fa = external_fa;
      offset = offset;
      timestamp = mktime (tm_of dos_date);
      file = file;
      extra = extra;
      comment = comment;
    })

  -- `get_current_file_info`, from the position that it seeks to; `none` is the result 0.
  pub get_current_file_info : Bytes → ℕ → Option Info
  get_current_file_info file pos = elim (read_info (seek file pos)) [
    | none ↦ none
    | some (info, rest) ↦ some info
  ]
