-- ===== src/Unzip/File/Read/Local.antt =====
-- Opening and reading an entry that stands in the file behind a local header.
use bkjs_utils.Prelude.{
  ℕ, ◌+◌, ◌^◌, ◌<◌, ◌≡◌, arith, ap, ◌∙◌, Bytes, [], ◌++◌, true, false, none, some, ◌==◌, u32,
  length, drop, drop_all, length-append, append_assoc,
}
use bkjs_utils.Unzip.Reader.{◌>>=◌, ◌>>◌, check, seek}
use bkjs_utils.Unzip.Reader.Reads.{Reads, short_bytes, long_bytes, Reads-get_short, Reads-get_long}
use bkjs_utils.Unzip.Cipher.{Keys}
use bkjs_utils.Unzip.Entry.{Tm, Info}
use bkjs_utils.Unzip.Entry.RoundTrip.{IsEntry}
use bkjs_utils.Unzip.Directory.{Unzip}
use bkjs_utils.Unzip.File.{
  Zlib, File, check_header, open_file, open_encrypted, size_zip_local_header,
}

-- The local header of an entry, with the size of its own extra field.
unfoldable pub local_header : Info → ℕ → Bytes
local_header e size_extra =
    long_bytes 0x0403_4b50
    ++ (short_bytes e.version_needed
        ++ (short_bytes e.flag
            ++ (short_bytes e.compression_method
                ++ (long_bytes e.dos_date
                    ++ (long_bytes e.crc
                        ++ (long_bytes e.compressed_size
                            ++ (long_bytes e.uncompressed_size
                                ++ (short_bytes e.size_filename ++ short_bytes size_extra))))))))

Reads-check_header :
    (mktime : Tm → ℕ) (e : Info) (size_extra : ℕ)
    → IsEntry mktime e
    → e.compression_method ≡ 0
    → size_extra < 2 ^ 16
    → Reads (check_header e) (local_header e size_extra) (e.size_filename, size_extra)
unfolding check_header local_header
Reads-check_header mktime e size_extra h stored x rest =
    let self : (n : ℕ) → (n == n) ≡ true = λ n. ground arith in
    let zero_method : (e.compression_method == 0) ≡ true = ground arith in
    simp (
      append_assoc,
      Reads-get_long 0x0403_4b50 (omega arith),
      Reads-get_short e.version_needed h.version_needed,
      Reads-get_short e.flag h.flag,
      Reads-get_short e.compression_method h.compression_method,
      Reads-get_long e.dos_date h.dos_date,
      Reads-get_long e.crc h.crc,
      Reads-get_long e.compressed_size h.compressed_size,
      Reads-get_long e.uncompressed_size h.uncompressed_size,
      Reads-get_short e.size_filename h.file.1,
      Reads-get_short size_extra x,
      ◌>>=◌,
      self e.compression_method,
      self e.crc,
      self e.compressed_size,
      self e.uncompressed_size,
      self e.size_filename,
      zero_method,
      check,
      ◌>>◌,
    )

-- What an entry has in the file: the header, its name and extra field, and its data.
abbrev pub local_entry : Info → ℕ → Bytes → Bytes → Bytes
local_entry e size_extra names packed = local_header e size_extra ++ (names ++ packed)

-- The state stands at a stored entry whose local entry with the data `packed` is in the file.
pub record IsLocal (mktime : Tm → ℕ) (file : Bytes) (unz : Unzip) (packed plain : Bytes)
    : Type 0 where
  pub before : Bytes
  pub after : Bytes
  pub names : Bytes
  pub size_extra : ℕ
  pub layout : file ≡ before ++ (local_entry unz.info size_extra names packed ++ after)
  pub start : unz.offset_curfile + unz.byte_before_the_zipfile ≡ length before
  pub small : length file < 2 ^ 32
  pub short : size_extra < 2 ^ 16
  pub named : length names ≡ unz.info.size_filename + size_extra
  pub usable : unz.current_file_ok ≡ true
  pub valid : IsEntry mktime unz.info
  pub stored : unz.info.compression_method ≡ 0
  pub whole : unz.info.compressed_size ≡ length packed
  pub text : unz.info.uncompressed_size ≡ length plain

module _ {Z : Type 0} (zlib : Zlib Z) (mktime : Tm → ℕ) (file : Bytes) (unz : Unzip) (keys : Keys)
    (packed plain : Bytes) (h : IsLocal mktime file unz packed plain) where
  -- The state that `open_file` fills in.
  unfoldable pub opened : File Z
  opened = record {
    stream = none;
    next_in = [];
    total_out = 0;
    pos_in_zipfile = unz.offset_curfile + size_zip_local_header + length h.names;
    offset_local_extrafield = unz.offset_curfile + size_zip_local_header + unz.info.size_filename;
    size_local_extrafield = h.size_extra;
    pos_local_extrafield = 0;
    crc32 = 0;
    crc32_wait = unz.info.crc;
    rest_read_compressed = length packed;
    rest_read_uncompressed = length plain;
    compression_method = 0;
    byte_before_the_zipfile = unz.byte_before_the_zipfile;
    raw = false;
    encrypted = unz.encrypted;
    keys = keys;
  }

  pub front : Bytes
  front = h.before ++ (local_header unz.info h.size_extra ++ h.names)

  pub length-front :
      length front ≡ unz.offset_curfile + unz.byte_before_the_zipfile + 30 + length h.names
  unfolding front local_header
  length-front =
      omega (arith, h.start, length-append h.before (local_header unz.info h.size_extra ++ h.names))

  file-front : file ≡ front ++ (packed ++ h.after)
  unfolding front
  file-front =
      h.layout
      ∙ rw (
        append_assoc h.before (local_header unz.info h.size_extra ++ h.names) (packed ++ h.after),
        append_assoc (local_header unz.info h.size_extra) h.names (packed ++ h.after),
        append_assoc (local_header unz.info h.size_extra) (h.names ++ packed) h.after,
        append_assoc h.names packed h.after,
      )

  pub size-file : length file ≡ length front + (length packed + length h.after)
  size-file = omega (
    arith,
    ap length file-front,
    length-append front (packed ++ h.after),
    length-append packed h.after,
  )

  pub ahead : drop (length front) file ≡ packed ++ h.after
  ahead = ap (drop (length front)) file-front ∙ drop_all front (packed ++ h.after)

  header-read :
      check_header unz.info (seek file (u32 (unz.offset_curfile + unz.byte_before_the_zipfile)))
      ≡ some ((unz.info.size_filename, h.size_extra), (h.names ++ packed) ++ h.after)
  header-read =
      let body = local_entry unz.info h.size_extra h.names packed ++ h.after in
      let place : u32 (unz.offset_curfile + unz.byte_before_the_zipfile) ≡ length h.before =
        omega (arith, h.start, h.small, ap length h.layout, length-append h.before body) in
      let there : drop (length h.before) file ≡ body =
        ap (drop (length h.before)) h.layout ∙ drop_all h.before body in
      rw
        (
          place,
          there,
          append_assoc (local_header unz.info h.size_extra) (h.names ++ packed) h.after,
        )
        (Reads-check_header mktime unz.info h.size_extra h.valid h.stored h.short
          ((h.names ++ packed) ++ h.after))

  pub open_file-opened :
      (password : Bytes)
      → open_file zlib file unz keys false password ≡ open_encrypted zlib file password opened
  unfolding open_file opened
  open_file-opened password =
      let pos : u32
            (unz.offset_curfile + size_zip_local_header + (unz.info.size_filename + h.size_extra))
          ≡ unz.offset_curfile + size_zip_local_header + length h.names =
        omega (arith, length-front, size-file, h.small, h.named) in
      let extra : u32 (unz.offset_curfile + size_zip_local_header + unz.info.size_filename)
          ≡ unz.offset_curfile + size_zip_local_header + unz.info.size_filename =
        omega (arith, length-front, size-file, h.small, h.named) in
      rw (open_file, h.usable, header-read, h.stored, h.whole, h.text, pos, extra)
