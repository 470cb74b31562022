-- ===== src/Unzip/Entry/RoundTrip.antt =====
-- An entry that is written in the form of the zip format is read back.
use bkjs_utils.Prelude.{
  ℕ, ◌+◌, ◌^◌, ◌<◌, ◌≡◌, ◌≢◌, refl, arith, ap, ◌∙◌, Bytes, [], ◌∷◌, ◌++◌, some, length, ==-false,
  append_assoc, drop_all, length-append, All,
}
use bkjs_utils.Unzip.Reader.{◌>>=◌, seek}
use bkjs_utils.Unzip.Reader.Reads.{
  Reads, short_bytes, long_bytes, Reads-get_short, Reads-get_long, Reads-read_bytes,
}
use bkjs_utils.Unzip.Entry.{Tm, Info, tm_of, c_string, read_text, read_info, get_current_file_info}

-- The record of the zip format for an entry of the central directory.
unfoldable pub entry_bytes : Info → Bytes
entry_bytes e =
    long_bytes 0x0201_4b50
    ++ (short_bytes e.version
        ++ (short_bytes e.version_needed
            ++ (short_bytes e.flag
                ++ (short_bytes e.compression_method
                    ++ (long_bytes e.dos_date
                        ++ (long_bytes e.crc
                            ++ (long_bytes e.compressed_size
                                ++ (long_bytes e.uncompressed_size
                                    ++ (short_bytes e.size_filename
                                        ++ (short_bytes e.size_file_extra
                                            ++ (short_bytes e.size_file_comment
                                                ++ (short_bytes e.disk_num_start
                                                    ++ (short_bytes e.internal_fa
                                                        ++ (long_bytes e.external_fa
                                                            ++ (long_bytes e.offset
                                                            ++ (e.file
                                                            ++ (e.extra
                                                            ++ e.comment)))))))))))))))))

-- A text that fits its size field and holds no 0.
abbrev pub IsField : ℕ → Bytes → Type 0
IsField size text = (size ≡ length text) × (size < 2 ^ 16) × All (λ c. c ≢ 0) text

-- The fields fit their widths, and the time is that of the date field.
pub record IsEntry (mktime : Tm → ℕ) (e : Info) : Type 0 where
  pub version : e.version < 2 ^ 16
  pub version_needed : e.version_needed < 2 ^ 16
  pub flag : e.flag < 2 ^ 16
  pub compression_method : e.compression_method < 2 ^ 16
  pub dos_date : e.dos_date < 2 ^ 32
  pub crc : e.crc < 2 ^ 32
  pub compressed_size : e.compressed_size < 2 ^ 32
  pub uncompressed_size : e.uncompressed_size < 2 ^ 32
  pub file : IsField e.size_filename e.file
  pub extra : IsField e.size_file_extra e.extra
  pub comment : IsField e.size_file_comment e.comment
  pub disk_num_start : e.disk_num_start < 2 ^ 16
  pub internal_fa : e.internal_fa < 2 ^ 16
  pub external_fa : e.external_fa < 2 ^ 32
  pub offset : e.offset < 2 ^ 32
  pub timestamp : e.timestamp ≡ mktime (tm_of e.dos_date)

pub length-entry_bytes :
    (mktime : Tm → ℕ) (e : Info)
    → IsEntry mktime e
    → length (entry_bytes e) ≡ 0x2e + e.size_filename + e.size_file_extra + e.size_file_comment
unfolding entry_bytes
length-entry_bytes mktime e h = omega (
  arith,
  h.file.0,
  h.extra.0,
  h.comment.0,
  length-append e.file (e.extra ++ e.comment),
  length-append e.extra e.comment,
)

c_string_whole : (bs : Bytes) → All (λ c. c ≢ 0) bs → c_string bs ≡ bs
unfolding c_string
c_string_whole [] h = refl
c_string_whole (c ∷ bs) (hc, h) = rw (==-false c 0 hc) (ap (λ t. c ∷ t) (c_string_whole bs h))

Reads-read_text : (size : ℕ) (text : Bytes) → IsField size text → Reads (read_text size) text text
unfolding read_text
Reads-read_text size [] (e, _, h) rest = rw e
Reads-read_text size (c ∷ text) (e, _, h) rest =
    rw e (rw (Reads-read_bytes (c ∷ text) rest, ◌>>=◌, c_string_whole (c ∷ text) h))

module _ (mktime : Tm → ℕ) (e : Info) (h : IsEntry mktime e) where
  Reads-read_info : Reads (read_info mktime) (entry_bytes e) e
  unfolding read_info entry_bytes
  Reads-read_info rest =
      simp
        (
          append_assoc,
          Reads-get_long 0x0201_4b50 (omega arith),
          Reads-get_short e.version h.version,
          Reads-get_short e.version_needed h.version_needed,
          Reads-get_short e.flag h.flag,
          Reads-get_short e.compression_method h.compression_method,
          Reads-get_short e.disk_num_start h.disk_num_start,
          Reads-get_short e.internal_fa h.internal_fa,
          Reads-get_long e.dos_date h.dos_date,
          Reads-get_long e.crc h.crc,
          Reads-get_long e.compressed_size h.compressed_size,
          Reads-get_long e.uncompressed_size h.uncompressed_size,
          Reads-get_long e.external_fa h.external_fa,
          Reads-get_long e.offset h.offset,
          Reads-get_short e.size_filename h.file.1,
          Reads-get_short e.size_file_extra h.extra.1,
          Reads-get_short e.size_file_comment h.comment.1,
          Reads-read_text e.size_filename e.file h.file,
          Reads-read_text e.size_file_extra e.extra h.extra,
          Reads-read_text e.size_file_comment e.comment h.comment,
          ◌>>=◌,
        )
        (rw (← h.timestamp))

-- The entry that a file has at a position, in the form of the zip format, with 32-bit fields,
-- sizes that are those of its texts, no 0 in a text and the time that `mktime` gives for its date,
-- is what `get_current_file_info` returns there, whatever stands before and behind it.
pub get_current_file_info-entry_bytes :
    (mktime : Tm → ℕ) (e : Info) (before after : Bytes)
    → IsEntry mktime e
    → get_current_file_info mktime (before ++ (entry_bytes e ++ after)) (length before) ≡ some e
unfolding get_current_file_info
get_current_file_info-entry_bytes mktime e before after h =
    let ahead = entry_bytes e ++ after in
    let opened : read_info mktime (seek (before ++ ahead) (length before)) ≡ some (e, after) =
      ap (read_info mktime) (drop_all before ahead) ∙ Reads-read_info mktime e h after in
    rw (get_current_file_info, opened)
