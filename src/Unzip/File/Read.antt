-- ===== src/Unzip/File/Read.antt =====
-- `read_file` of bklib/bkunzip.cpp, and the loop of `toString` over it. A result is the `int`
-- that is returned, what was written to the buffer and the state of the open entry.
pub mod Stored
pub mod Loop
pub mod Local
pub mod Contents
use bkjs_utils.Prelude.{
  ℕ, zero, suc, ◌+◌, ◌-◌, ◌*◌, ◌/◌, ◌%◌, ◌^◌, Bytes, List, [], ◌∷◌, ◌++◌, Bool, true, false, not,
  ◌&&◌, ◌||◌, Option, none, some, ◌==◌, if◌then◌else◌, leb, ltb, u32, length, take, drop,
}
use bkjs_utils.Prelude.Int.{ℤ, as_int}
use bkjs_utils.Unzip.Reader.{read_bytes, seek}
use bkjs_utils.Unzip.Cipher.{Keys, decode}
use bkjs_utils.Unzip.File.{Zlib, Inflated, File, unz_bufsize, open_file}
use bkjs_utils.Unzip.Directory.{Unzip}

abbrev pub Read : Type 0 → Type 0
Read Z = Option (ℤ × Bytes × File Z)

module _ {Z : Type 0} where
  -- `uDoCopy`
  pub do_copy : File Z → ℕ → ℕ
  do_copy f avail_out = if ltb avail_out (length f.next_in) then avail_out else length f.next_in

  -- The room for output that `read_file` starts with.
  pub room : File Z → ℕ → ℕ
  room f len =
      let avail_out =
        if ltb f.rest_read_uncompressed len && not f.raw then f.rest_read_uncompressed else len in
      let avail_in = u32 (f.rest_read_compressed + length f.next_in) in
      if ltb avail_in len && f.raw then avail_in else avail_out

  -- `uReadThis`
  pub read_size : File Z → ℕ
  read_size f =
      if ltb f.rest_read_compressed unz_bufsize then f.rest_read_compressed else unz_bufsize

module _ {Z : Type 0} (zlib : Zlib Z) where
  -- The decoding of a buffer that was read, if the entry is encrypted.
  unfoldable pub decrypted : File Z → Bytes → Keys × Bytes
  decrypted f buf = if f.encrypted then decode zlib.crc_table f.keys buf else (f.keys, buf)

  -- The state behind some output, with the input that is left.
  pub written : File Z → Bytes → Option Z → Bytes → File Z
  written f rest stream output = record f {
    next_in = rest;
    stream = stream;
    crc32 = zlib.crc32 f.crc32 output;
    rest_read_uncompressed = u32 (f.rest_read_uncompressed + 2 ^ 32 - length output);
    total_out = f.total_out + length output;
  }

  -- `inflate` on a stream that was not opened is an error.
  pub inflated : File Z → ℕ → Inflated (Option Z)
  inflated f avail_out = elim f.stream [
    | none ↦ record { code = (false, false); rest = f.next_in; output = []; stream = none }
    | some z ↦
        let r = zlib.inflate z f.next_in avail_out in
        record { code = r.code; rest = r.rest; output = r.output; stream = some r.stream }
  ]

module _ {Z : Type 0} (zlib : Zlib Z) (file : Bytes) where
  -- The read of `n` bytes into the buffer of the entry; `none` is its `return 0`.
  pub fetch : File Z → ℕ → Option (File Z)
  fetch f n = elim (read_bytes n (seek file (u32 (f.pos_in_zipfile + f.byte_before_the_zipfile)))) [
    | none ↦ none
    | some (buf, rest) ↦ some (record f {
      keys = (decrypted zlib f buf).0;
      next_in = (decrypted zlib f buf).1;
      pos_in_zipfile = u32 (f.pos_in_zipfile + n);
      rest_read_compressed = f.rest_read_compressed - n;
    })
  ]

  -- The first `if` of the loop.
  pub refill : File Z → Option (File Z)
  refill f =
      if length f.next_in == 0 && not (f.rest_read_compressed == 0)
      then fetch f (read_size f)
      else some f

  -- The loop of `read_file`, with a bound on its rounds; `none` is a loop that goes on.
  pub read_loop : ℕ → File Z → ℕ → Bytes → Read Z
  read_loop zero f avail_out out = none
  read_loop (suc rounds) f avail_out out = elim (avail_out == 0) [
    | true ↦ some (as_int (length out), out, f)
    | false ↦ elim (refill f) [
      | none ↦ some (ℤ.pos 0, out, f)
      | some g ↦ elim (g.compression_method == 0 || g.raw) [
        | true ↦ elim (length g.next_in == 0 && (g.rest_read_compressed == 0)) [
          | true ↦ some (as_int (length out), out, g)
          | false ↦
              let n = do_copy g avail_out in
              read_loop rounds (written zlib g (drop n g.next_in) g.stream (take n g.next_in))
                (avail_out - n) (out ++ take n g.next_in)
        ]
        | false ↦
            let r = inflated zlib g avail_out in
            let h = written zlib g r.rest r.stream r.output in
            elim r.code.1 [
              | true ↦ some (as_int (length (out ++ r.output)), out ++ r.output, h)
              | false ↦ elim r.code.0 [
                | true ↦ read_loop rounds h (avail_out - length r.output) (out ++ r.output)
                | false ↦ some (ℤ.pos 0, out ++ r.output, h)
              ]
            ]
      ]
    ]
  ]

  -- `read_file` into a buffer of `len` bytes, a `uint`.
  pub read_file : ℕ → File Z → ℕ → Read Z
  read_file rounds f len = elim (u32 len == 0) [
    | true ↦ some (ℤ.pos 0, [], f)
    | false ↦ read_loop rounds f (room f (u32 len)) []
  ]

  -- The loop of `toString`, with a bound on its calls and on the rounds of each; `none` is a loop
  -- that goes on.
  pub read_all : ℕ → ℕ → File Z → Bytes → Option Bytes
  read_all zero rounds f out = none
  read_all (suc calls) rounds f out = elim (read_file rounds f 4096) [
    | none ↦ none
    | some (bytes, buffer, g) ↦ elim bytes [
      | ℤ.negsuc m ↦ some []
      | ℤ.pos n ↦ elim (n == 0) [
        | true ↦ some out
        | false ↦ read_all calls rounds g (out ++ take n buffer)
      ]
    ]
  ]

  -- The part of `toString` behind `search_file`: the empty string for an entry that does not open;
  -- `none` is a loop that goes on.
  pub contents : ℕ → ℕ → Unzip → Keys → Bytes → Option Bytes
  contents calls rounds unz keys password = elim (open_file zlib file unz keys false password) [
    | none ↦ some []
    | some f ↦ read_all calls rounds f []
  ]
