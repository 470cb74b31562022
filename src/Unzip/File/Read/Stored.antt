-- ===== src/Unzip/File/Read/Stored.antt =====
-- Reading an entry that is stored, encrypted or not.
use bkjs_utils.Prelude.{
  ℕ, ◌+◌, ◌-◌, ◌^◌, ◌<◌, ◌≤◌, ◌≡◌, arith, ap, ◌∙◌, sym, Bytes, [], ◌++◌, false, not, ◌&&◌, some,
  ◌==◌, u32, length, take, drop, drop_add, take_add, drop-append_left, length-append, length_zero,
  length-take, length-drop, Bool-cases, inl, inr,
}
use bkjs_utils.Unzip.Reader.{seek}
use bkjs_utils.Unzip.Reader.Reads.{read_bytes-take}
use bkjs_utils.Unzip.Cipher.RoundTrip.{decode-append, length-decode}
use bkjs_utils.Unzip.File.{Zlib, File}
use bkjs_utils.Unzip.File.Read.{read_size, fetch, decrypted, refill, written}

module _ {Z : Type 0} (zlib : Zlib Z) (file : Bytes) where
  -- The open entry is stored, and `plain` is what is left to read of it; the bytes behind
  -- it that are read with it are `slack`: the size of an encrypted entry counts the twelve bytes of
  -- its header.
  pub record Holds (f : File Z) (plain : Bytes) : Type 0 where
    pub stored : f.compression_method ≡ 0
    pub plainly : f.raw ≡ false
    pub left : f.rest_read_uncompressed ≡ length plain
    pub inside : f.pos_in_zipfile + f.byte_before_the_zipfile + f.rest_read_compressed ≤ length file
    pub small : length file < 2 ^ 32
    pub fits : length plain < 2 ^ 32
    pub slack : Bytes
    pub text :
        plain ++ slack
        ≡ f.next_in
          ++ (decrypted zlib f (
              take f.rest_read_compressed
                (seek file (f.pos_in_zipfile + f.byte_before_the_zipfile)))).1

  -- What is read is the front of what is left.
  decrypted-split :
      (f : File Z) (n m : ℕ) (ahead : Bytes)
      → (decrypted zlib f (take (n + m) ahead)).1
        ≡ (decrypted zlib f (take n ahead)).1
          ++ (decrypted zlib
              (record f { keys = (decrypted zlib f (take n ahead)).0 })
              (take m (drop n ahead))).1
  unfolding decrypted
  decrypted-split f n m ahead = elim (Bool-cases f.encrypted) [
    | inl e ↦ rw (
      decrypted,
      e,
      take_add n m ahead,
      decode-append zlib.crc_table f.keys (take n ahead) (take m (drop n ahead)),
    )
    | inr e ↦ rw (decrypted, e) (take_add n m ahead)
  ]

  length-decrypted : (f : File Z) (buf : Bytes) → length (decrypted zlib f buf).1 ≡ length buf
  unfolding decrypted
  length-decrypted f buf = elim (Bool-cases f.encrypted) [
    | inl e ↦ rw (decrypted, e) (length-decode zlib.crc_table f.keys buf)
    | inr e ↦ rw (decrypted, e)
  ]

  -- The state behind a read of `n` bytes.
  fetched : File Z → ℕ → File Z
  fetched f n =
      let buf = take n (seek file (f.pos_in_zipfile + f.byte_before_the_zipfile)) in
      record f {
        keys = (decrypted zlib f buf).0;
        next_in = (decrypted zlib f buf).1;
        pos_in_zipfile = f.pos_in_zipfile + n;
        rest_read_compressed = f.rest_read_compressed - n;
      }

  fetch-fetched :
      (f : File Z) (plain : Bytes) (n : ℕ)
      → Holds f plain
      → n ≤ f.rest_read_compressed
      → fetch zlib file f n ≡ some (fetched f n)
  unfolding fetch fetched
  fetch-fetched f plain n h le =
      let pos = f.pos_in_zipfile + f.byte_before_the_zipfile in
      let here : u32 (f.pos_in_zipfile + f.byte_before_the_zipfile) ≡ pos =
        omega (arith, h.inside, h.small) in
      let next : u32 (f.pos_in_zipfile + n) ≡ f.pos_in_zipfile + n =
        omega (arith, h.inside, h.small) in
      let enough : n ≤ length (seek file pos) = omega (arith, h.inside, length-drop pos file) in
      rw (fetch, fetched, here, read_bytes-take n (seek file pos) enough, next)

  fetched-Holds :
      (f : File Z) (plain : Bytes) (n : ℕ)
      → Holds f plain
      → f.next_in ≡ []
      → n ≤ f.rest_read_compressed
      → Holds (fetched f n) plain
  unfolding fetched decrypted
  fetched-Holds f plain n h e le =
      let pos = f.pos_in_zipfile + f.byte_before_the_zipfile in
      let split = decrypted-split f n (f.rest_read_compressed - n) (seek file pos) in
      let sum : n + (f.rest_read_compressed - n) ≡ f.rest_read_compressed = omega arith in
      let place : f.pos_in_zipfile + n + f.byte_before_the_zipfile ≡ pos + n = omega arith in
      record {
        stored = h.stored;
        plainly = h.plainly;
        left = h.left;
        inside = omega (arith, h.inside);
        small = h.small;
        slack = h.slack;
        text =
            rw (place, drop_add pos n file)
              (h.text
                ∙ ap
                    (λ front.
                      front ++ (decrypted zlib f (take f.rest_read_compressed (seek file pos))).1)
                    e
                ∙ (rw sum at split));
        fits = h.fits;
      }

  pub copy-Holds :
      (g : File Z) (plain : Bytes) (n : ℕ)
      → Holds g plain
      → n ≤ length g.next_in
      → n ≤ length plain
      → Holds (written zlib g (drop n g.next_in) g.stream (take n g.next_in)) (drop n plain)
  unfolding written decrypted
  copy-Holds g plain n h le le' =
      let later =
        (decrypted zlib g (
          take g.rest_read_compressed
            (seek file (g.pos_in_zipfile + g.byte_before_the_zipfile)))).1 in
      record {
        stored = h.stored;
        plainly = h.plainly;
        left = omega (
          arith,
          h.left,
          length-drop n plain,
          length-take n g.next_in,
          ap length h.text,
          length-append g.next_in later,
        );
        fits = omega (arith, h.fits, length-drop n plain);
        inside = h.inside;
        small = h.small;
        slack = h.slack;
        text =
            sym (drop-append_left n plain h.slack le')
            ∙ ap (drop n) h.text
            ∙ drop-append_left n g.next_in later le;
      }

  pub length-plain :
      (f : File Z) (plain : Bytes)
      → (h : Holds f plain)
      → length plain + length h.slack ≡ length f.next_in + f.rest_read_compressed
  length-plain f plain h =
      let pos = f.pos_in_zipfile + f.byte_before_the_zipfile in
      let ahead = take f.rest_read_compressed (seek file pos) in
      omega (
        arith,
        h.inside,
        ap length h.text,
        length-append plain h.slack,
        length-append f.next_in (decrypted zlib f ahead).1,
        length-decrypted f ahead,
        length-take f.rest_read_compressed (seek file pos),
        length-drop pos file,
      )

  length-fetched :
      (f : File Z) (plain : Bytes) (n : ℕ)
      → Holds f plain
      → n ≤ f.rest_read_compressed
      → length (fetched f n).next_in ≡ n
  unfolding fetched
  length-fetched f plain n h le =
      let pos = f.pos_in_zipfile + f.byte_before_the_zipfile in
      omega (
        arith,
        h.inside,
        length-decrypted f (take n (seek file pos)),
        length-take n (seek file pos),
        length-drop pos file,
      )

  read_size-bounds :
      (f : File Z)
      → 0 < f.rest_read_compressed
      → (0 < read_size f) × (read_size f ≤ f.rest_read_compressed)
  unfolding read_size
  read_size-bounds f h = (ground arith, ground arith)

  -- Behind the first `if` of the loop there is input, unless nothing is left to read.
  pub refill-Holds :
      (f : File Z) (plain : Bytes)
      → Holds f plain
      → (g : File Z) × ((refill zlib file f ≡ some g)
          × (Holds g plain × (0 < length plain → 0 < length g.next_in)))
  unfolding refill
  refill-Holds f plain h =
      elim (Bool-cases (length f.next_in == 0 && not (f.rest_read_compressed == 0))) [
        | inl t ↦
            let empty : length f.next_in ≡ 0 = ground arith in
            let more : 0 < f.rest_read_compressed = ground arith in
            let (some_read, le) = read_size-bounds f more in
            let n = read_size f in
            let long = length-fetched f plain n h le in
            (
              fetched f n,
              (
                rw (refill, t) (fetch-fetched f plain n h le),
                (
                  fetched-Holds f plain n h (length_zero f.next_in empty) le,
                  λ z. omega (arith, long, some_read),
                ),
              ),
            )
        | inr t ↦
            let l = length-plain f plain h in (f, (rw (refill, t), (h, λ z. ground (arith, l))))
      ]
