-- ===== src/Unzip/Directory/Open.antt =====
-- `open` on an archive that is laid out in the zip format.
use bkjs_utils.Prelude.{
  ℕ, ◌+◌, ◌-◌, ◌^◌, ◌<◌, ◌≤◌, ◌≡◌, refl, arith, ap, Bytes, List, [], ◌∷◌, ◌++◌, true, false, some,
  length, append_assoc, drop_all, length-append, All, u32, le→leb, ◌==◌, ==-false,
}
use bkjs_utils.Unzip.Reader.{check, ◌>>◌, ◌>>=◌}
use bkjs_utils.Unzip.Reader.Reads.{short_bytes, long_bytes, Reads-get_short, Reads-get_long}
use bkjs_utils.Unzip.Locate.{is_end_record, get_central_dir}
use bkjs_utils.Unzip.Locate.Place.{get_central_dir-last}
use bkjs_utils.Unzip.Entry.{Tm, Info}
use bkjs_utils.Unzip.Entry.RoundTrip.{IsEntry, entry_bytes, length-entry_bytes}
use bkjs_utils.Unzip.Directory.{Unzip, read_end_record, open_archive}
use bkjs_utils.Unzip.Directory.Walk.{IsDirectory, directory_bytes, at, first_file-at}

-- The end record behind its signature.
abbrev pub end_bytes : ℕ → ℕ → ℕ → Bytes → Bytes
end_bytes count size offset comment =
    short_bytes 0
    ++ (short_bytes 0
        ++ (short_bytes count
            ++ (short_bytes count
                ++ (long_bytes size
                    ++ (long_bytes offset ++ (short_bytes (length comment) ++ comment))))))

-- The end record with the archive's comment.
abbrev pub end_record : ℕ → ℕ → ℕ → Bytes → Bytes
end_record count size offset comment = long_bytes 0x0605_4b50 ++ end_bytes count size offset comment

-- The state that `open` fills in before it moves to the first entry.
abbrev pub opened : Unzip → ℕ → ℕ → ℕ → ℕ → ℕ → Unzip
opened unz count size offset comment_size pos = record unz {
  number_entry = count;
  size_central_dir = size;
  offset_central_dir = offset;
  size_comment = comment_size;
  byte_before_the_zipfile = pos - (offset + size);
  central_pos = pos;
  encrypted = false;
}

read_end_record-end_record :
    (unz : Unzip) (pos count size offset : ℕ) (comment : Bytes)
    → count < 2 ^ 16
    → offset + size ≤ pos
    → pos < 2 ^ 32
    → length comment < 2 ^ 16
    → read_end_record unz pos (end_record count size offset comment)
      ≡ some (opened unz count size offset (length comment) pos, comment)
unfolding read_end_record
read_end_record-end_record unz pos count size offset comment c fits p k =
    let sum : u32 (offset + size) ≡ offset + size = omega arith in
    let same : (count == count) ≡ true = ground arith in
    simp (
      Reads-get_long 0x0605_4b50 (omega arith),
      Reads-get_short 0 (omega arith),
      Reads-get_short count c,
      Reads-get_long size (omega arith),
      Reads-get_long offset (omega arith),
      Reads-get_short (length comment) k,
      ◌>>=◌,
      sum,
      le→leb (offset + size) pos fits,
      same,
      check,
      ◌>>◌,
    )

-- An archive: what precedes the directory, the directory and the end record with its comment.
abbrev pub archive : Bytes → List Info → ℕ → Bytes → Bytes
archive before es offset comment =
    (before ++ directory_bytes es)
    ++ end_record (length es) (length (directory_bytes es)) offset comment

abbrev pub end_position : Bytes → List Info → ℕ
end_position before es = length (before ++ directory_bytes es)

module _ (mktime : Tm → ℕ) (unz : Unzip) (before : Bytes) (e : Info) (es : List Info) (offset : ℕ)
    (comment : Bytes) (inside : offset ≤ length before) (few : length (e ∷ es) < 0xffff)
    (near : length comment + 22 ≤ 0xffff)
    (small : end_position before (e ∷ es) + (length comment + 22) < 2 ^ 32)
    (entries : All (IsEntry mktime) (e ∷ es)) where
  abbrev pub state : Unzip
  state =
      opened unz (length (e ∷ es)) (length (directory_bytes (e ∷ es))) offset (length comment)
        (end_position before (e ∷ es))

  end_position-sum :
      end_position before (e ∷ es) ≡ length before + length (directory_bytes (e ∷ es))
  end_position-sum = length-append before (directory_bytes (e ∷ es))

  pub opened-IsDirectory :
      IsDirectory mktime (archive before (e ∷ es) offset comment) state (e ∷ es)
  opened-IsDirectory =
      let end = end_record (length (e ∷ es)) (length (directory_bytes (e ∷ es))) offset comment in
      record {
        before = before;
        after = end;
        layout = append_assoc before (directory_bytes (e ∷ es)) end;
        start = omega (arith, end_position-sum);
        small = omega (arith, length-append (before ++ directory_bytes (e ∷ es)) end);
        entries = entries;
        count = refl;
        few = few;
      }

  -- An archive that holds a directory of at least one entry of the zip format and an end record, the
  -- last one of the file, with the directory's true size and its offset behind whatever precedes the
  -- archive, opens, and the state stands at the first entry. The comment and the 22 bytes of the
  -- record have at most 0xffff bytes together, there are fewer than 0xffff entries, and the file is
  -- below 4 GB.
  pub open_archive-at :
      ((q : ℕ)
        → end_position before (e ∷ es) < q
        → q < end_position before (e ∷ es) + length comment + 19
        → is_end_record (archive before (e ∷ es) offset comment) q ≡ false)
      → open_archive mktime (archive before (e ∷ es) offset comment) unz ≡ some (at state [] e)
  unfolding open_archive
  open_archive-at last =
      let front = before ++ directory_bytes (e ∷ es) in
      let behind = end_bytes (length (e ∷ es)) (length (directory_bytes (e ∷ es))) offset comment in
      let end = end_record (length (e ∷ es)) (length (directory_bytes (e ∷ es))) offset comment in
      let full : 0 < end_position before (e ∷ es) = omega (
        arith,
        end_position-sum,
        length-append (entry_bytes e) (directory_bytes es),
        length-entry_bytes mktime e entries.0,
      ) in
      let found : get_central_dir (archive before (e ∷ es) offset comment) ≡ length front =
        get_central_dir-last front behind full (omega arith) (omega arith)
          (λ q a b. last q a (omega arith)) in
      let there : (length front == 0) ≡ false = ==-false (length front) 0 (λ z. omega arith) in
      rw
        (
          found,
          there,
          drop_all front end,
          read_end_record-end_record unz (length front) (length (e ∷ es))
              (length (directory_bytes (e ∷ es))) offset comment (omega arith)
              (omega (arith, end_position-sum)) (omega arith) (omega arith),
        )
        (ap (λ r. some r.1)
          (first_file-at mktime (archive before (e ∷ es) offset comment) state e es
            opened-IsDirectory))
