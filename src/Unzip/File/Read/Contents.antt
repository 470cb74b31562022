-- ===== src/Unzip/File/Read/Contents.antt =====
-- What opening a stored entry and reading it to the end gives, plain or encrypted.
use bkjs_utils.Prelude.{
  ℕ, ◌+◌, ◌^◌, ◌<◌, ◌≤◌, ◌≡◌, refl, arith, ap, ◌∙◌, sym, Bytes, [], ◌∷◌, ◌++◌, true, false, some,
  u32, length, take, drop, take_all, drop_all, drop_add, take_add, length-append, append_assoc,
  append-nil,
}
use bkjs_utils.Unzip.Reader.{read_bytes}
use bkjs_utils.Unzip.Reader.Reads.{Reads-read_bytes}
use bkjs_utils.Unzip.Cipher.{Keys, init_keys, decode, encode}
use bkjs_utils.Unzip.Cipher.RoundTrip.{decode-encode, decode-append, encode-append, length-encode}
use bkjs_utils.Unzip.Entry.{Tm}
use bkjs_utils.Unzip.Directory.{Unzip}
use bkjs_utils.Unzip.File.{Zlib, File, open_encrypted, size_zip_local_header}
use bkjs_utils.Unzip.File.Read.{decrypted, contents}
use bkjs_utils.Unzip.File.Read.Stored.{Holds}
use bkjs_utils.Unzip.File.Read.Loop.{read_all-stored}
use bkjs_utils.Unzip.File.Read.Local.{
  IsLocal, opened, front, length-front, size-file, ahead, open_file-opened,
}

-- The encryption header and the text, encoded from the keys of the password.
abbrev pub encrypted_text : {Z : Type 0} → Zlib Z → Bytes → Bytes → Bytes → Bytes
encrypted_text zlib password head plain =
    (encode zlib.crc_table (init_keys zlib.crc_table password) (head ++ plain)).1

module _ {Z : Type 0} (zlib : Zlib Z) (mktime : Tm → ℕ) (file : Bytes) (unz : Unzip)
    (keys : Keys) where
  module _ (plain : Bytes) (h : IsLocal mktime file unz plain plain)
      (open_text : unz.encrypted ≡ false) where
    opened-Holds : Holds zlib file (opened zlib mktime file unz keys plain plain h) plain
    unfolding opened decrypted
    opened-Holds =
        let lf = length-front zlib mktime file unz keys plain plain h in
        let sf = size-file zlib mktime file unz keys plain plain h in
        let place : unz.offset_curfile
              + size_zip_local_header
              + length h.names
              + unz.byte_before_the_zipfile
            ≡ length (front zlib mktime file unz keys plain plain h) =
          omega (arith, lf) in
        record {
          stored = refl;
          plainly = refl;
          left = refl;
          inside = omega (arith, lf, sf);
          small = h.small;
          fits = omega (arith, sf, h.small);
          slack = [];
          text = rw (
            open_text,
            place,
            ahead zlib mktime file unz keys plain plain h,
            take_all plain h.after,
            append-nil plain,
          );
        }

    -- An entry that is stored without encryption is read back whole.
    pub contents-plain :
        (calls rounds : ℕ)
        → length plain < calls
        → 4096 < rounds
        → contents zlib file calls rounds unz keys [] ≡ some plain
    unfolding contents open_encrypted
    contents-plain calls rounds c r =
        let opens = open_file-opened zlib mktime file unz keys plain plain h [] in
        let reads = read_all-stored zlib file calls rounds _ [] plain opened-Holds c r in
        rw (contents, opens) reads

  module _ (c : ℕ) (password head plain : Bytes) where
    first_keys : Keys
    first_keys = init_keys zlib.crc_table (c ∷ password)

    header_text : Bytes
    header_text = (encode zlib.crc_table first_keys head).1

    text_keys : Keys
    text_keys = (encode zlib.crc_table first_keys head).0

    body_text : Bytes
    body_text = (encode zlib.crc_table text_keys plain).1

    encrypted_text-parts : encrypted_text zlib (c ∷ password) head plain ≡ header_text ++ body_text
    unfolding header_text body_text text_keys first_keys
    encrypted_text-parts = ap (λ r. r.1) (encode-append zlib.crc_table first_keys head plain)

    header-decoded : decode zlib.crc_table first_keys header_text ≡ (text_keys, head)
    unfolding header_text text_keys
    header-decoded = decode-encode zlib.crc_table first_keys head

    body-decoded :
        (more : Bytes)
        → (decode zlib.crc_table text_keys (body_text ++ more)).1
          ≡ plain ++ (decode zlib.crc_table (encode zlib.crc_table text_keys plain).0 more).1
    unfolding body_text
    body-decoded more =
        ap (λ r. r.1) (decode-append zlib.crc_table text_keys body_text more)
        ∙ rw (decode-encode zlib.crc_table text_keys plain)

    module _ (h : IsLocal mktime file unz (encrypted_text zlib (c ∷ password) head plain) plain)
        (twelve : length head ≡ 12) (enough : 12 ≤ length h.after) where
      state : File Z
      state =
          record (opened zlib mktime file unz keys (encrypted_text zlib (c ∷ password) head plain)
            plain h) {
              keys = text_keys;
              pos_in_zipfile = unz.offset_curfile + size_zip_local_header + length h.names + 12;
              encrypted = true;
            }

      length-header_text : length header_text ≡ 12
      unfolding header_text
      length-header_text = length-encode zlib.crc_table first_keys head ∙ twelve

      ahead-parts :
          drop
            (length (
              front zlib mktime file unz keys
                (encrypted_text zlib (c ∷ password) head plain)
                plain
                h))
            file
          ≡ header_text ++ (body_text ++ h.after)
      ahead-parts =
          ahead zlib mktime file unz keys (encrypted_text zlib (c ∷ password) head plain) plain h
          ∙ ap (λ t. t ++ h.after) encrypted_text-parts
          ∙ append_assoc header_text body_text h.after

      open_encrypted-state :
          open_encrypted zlib file (c ∷ password) (
            opened zlib mktime file unz keys
              (encrypted_text zlib (c ∷ password) head plain)
              plain
              h)
          ≡ some state
      unfolding open_encrypted state opened first_keys
      open_encrypted-state =
          let lf =
            length-front zlib mktime file unz keys (encrypted_text zlib (c ∷ password) head plain)
              plain h in
          let sf =
            size-file zlib mktime file unz keys (encrypted_text zlib (c ∷ password) head plain)
              plain h in
          let pos = unz.offset_curfile + size_zip_local_header + length h.names in
          let place : u32 (pos + unz.byte_before_the_zipfile)
              ≡ length (
                  front zlib mktime file unz keys (encrypted_text zlib (c ∷ password) head plain)
                    plain h) =
            omega (arith, lf, sf, h.small) in
          let next : u32 (pos + 12) ≡ pos + 12 = omega (arith, lf, sf, h.small, enough) in
          let read : read_bytes 12 (header_text ++ (body_text ++ h.after))
              ≡ some (header_text, body_text ++ h.after) =
            rw length-header_text at (Reads-read_bytes header_text (body_text ++ h.after)) in
          rw (open_encrypted, place, ahead-parts, read, header-decoded, next)

      -- The twelve bytes behind the text that are read with it.
      slack : Bytes
      slack = (decode zlib.crc_table (encode zlib.crc_table text_keys plain).0 (take 12 h.after)).1

      body-ahead :
          take (length (encrypted_text zlib (c ∷ password) head plain)) (
            drop
              (length (
                  front zlib mktime file unz keys
                    (encrypted_text zlib (c ∷ password) head plain)
                    plain
                    h)
                + 12)
              file)
          ≡ body_text ++ take 12 h.after
      body-ahead =
          let place = length (
            front zlib mktime file unz keys (encrypted_text zlib (c ∷ password) head plain) plain
              h) in
          let long : length (encrypted_text zlib (c ∷ password) head plain)
              ≡ length body_text + 12 =
            omega (
              arith,
              ap length encrypted_text-parts,
              length-append header_text body_text,
              length-header_text,
            ) in
          let behind : drop (place + 12) file ≡ body_text ++ h.after =
            drop_add place 12 file
            ∙ ap (drop 12) ahead-parts
            ∙ (rw length-header_text at (drop_all header_text (body_text ++ h.after))) in
          rw (
            long,
            behind,
            take_add (length body_text) 12 (body_text ++ h.after),
            take_all body_text h.after,
            drop_all body_text h.after,
          )

      fits_plain : length plain < 2 ^ 32
      unfolding first_keys
      fits_plain = omega (
        arith,
        size-file zlib mktime file unz keys (encrypted_text zlib (c ∷ password) head plain) plain h,
        h.small,
        length-encode zlib.crc_table first_keys (head ++ plain),
        length-append head plain,
      )

      state-Holds : Holds zlib file state plain
      unfolding state opened decrypted slack
      state-Holds =
          let lf =
            length-front zlib mktime file unz keys (encrypted_text zlib (c ∷ password) head plain)
              plain h in
          let sf =
            size-file zlib mktime file unz keys (encrypted_text zlib (c ∷ password) head plain)
              plain h in
          let place : unz.offset_curfile
                + size_zip_local_header
                + length h.names
                + 12
                + unz.byte_before_the_zipfile
              ≡ length (
                  front zlib mktime file unz keys (encrypted_text zlib (c ∷ password) head plain)
                    plain h)
                + 12 =
            omega (arith, lf) in
          record {
            stored = refl;
            plainly = refl;
            left = refl;
            inside = omega (arith, lf, sf, enough);
            small = h.small;
            fits = fits_plain;
            slack = slack;
            text = rw (place, body-ahead) (sym (body-decoded (take 12 h.after)));
          }

      -- An entry that is stored with the traditional encryption, its header of twelve bytes first,
      -- is read back whole with its password.
      pub contents-encrypted :
          (calls rounds : ℕ)
          → length plain < calls
          → 4096 < rounds
          → contents zlib file calls rounds unz keys (c ∷ password) ≡ some plain
      unfolding contents
      contents-encrypted calls rounds l r =
          let opens =
            open_file-opened zlib mktime file unz keys
              (encrypted_text zlib (c ∷ password) head plain) plain h (c ∷ password) in
          rw (contents, opens, open_encrypted-state)
            (read_all-stored zlib file calls rounds state [] plain state-Holds l r)
