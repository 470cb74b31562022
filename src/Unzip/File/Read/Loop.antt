-- ===== src/Unzip/File/Read/Loop.antt =====
-- `read_file` and the loop of `toString` on an entry that is stored.
use bkjs_utils.Prelude.{
  ℕ, zero, suc, u32, ◌^◌, ◌+◌, ◌-◌, ◌<◌, ◌≤◌, ◌≡◌, refl, arith, ap, ◌∙◌, sym, subst, min, Bytes, [],
  ◌++◌, true, false, ◌&&◌, ◌||◌, some, ◌==◌, length, take, drop, take-drop, take-take, length_zero,
  take_add, drop_add, take-append_left, length-append, length-take, length-drop, append_assoc,
  append-nil, ==-false, Bool-cases, inl, inr,
}
use bkjs_utils.Prelude.Int.{ℤ, as_int, as_int_small}
use bkjs_utils.Unzip.File.{Zlib, File}
use bkjs_utils.Unzip.File.Read.{refill, written, do_copy, read_loop, room, read_file, read_all}
use bkjs_utils.Unzip.File.Read.Stored.{Holds, refill-Holds, copy-Holds}

do_copy-bounds :
    {Z : Type 0} (g : File Z) (avail_out : ℕ)
    → 0 < avail_out
    → 0 < length g.next_in
    → (0 < do_copy g avail_out)
      × ((do_copy g avail_out ≤ avail_out) × (do_copy g avail_out ≤ length g.next_in))
unfolding do_copy
do_copy-bounds g avail_out a h = (ground arith, (ground arith, ground arith))

module _ {Z : Type 0} (zlib : Zlib Z) (file : Bytes) where
  -- One round on a stored entry that has input.
  read_loop-round :
      (rounds : ℕ) (f g : File Z) (avail_out : ℕ) (out : Bytes)
      → 0 < avail_out
      → refill zlib file f ≡ some g
      → g.compression_method ≡ 0
      → 0 < length g.next_in
      → read_loop zlib file (suc rounds) f avail_out out ≡ (
          let n = do_copy g avail_out in
          read_loop zlib file rounds
            (written zlib g (drop n g.next_in) g.stream (take n g.next_in))
            (avail_out - n)
            (out ++ take n g.next_in))
  unfolding read_loop
  read_loop-round rounds f g avail_out out a e stored input =
      let room_left : (avail_out == 0) ≡ false = ==-false avail_out 0 (λ z. omega arith) in
      let copies : (g.compression_method == 0 || g.raw) ≡ true = ground arith in
      let goes_on : (length g.next_in == 0 && (g.rest_read_compressed == 0)) ≡ false =
        ground arith in
      rw (read_loop, room_left, e, copies, goes_on)

  read_loop-full :
      (rounds : ℕ) (f : File Z) (out : Bytes)
      → read_loop zlib file (suc rounds) f 0 out ≡ some (as_int (length out), out, f)
  unfolding read_loop
  read_loop-full rounds f out = refl

  -- What the loop has when it ends.
  abbrev Ends : ℕ → File Z → ℕ → Bytes → Bytes → Type 0
  Ends rounds f avail_out out plain =
      (g : File Z) × ((read_loop zlib file rounds f avail_out out
          ≡ some (as_int (length out + avail_out), out ++ take avail_out plain, g))
        × Holds zlib file g (drop avail_out plain))

  joined :
      (out plain slack input later : Bytes) (n avail_out : ℕ)
      → plain ++ slack ≡ input ++ later
      → n ≤ length plain
      → n ≤ length input
      → n ≤ avail_out
      → (out ++ take n input) ++ take (avail_out - n) (drop n plain) ≡ out ++ take avail_out plain
  joined out plain slack input later n avail_out e lp le le' =
      let front : take n plain ≡ take n input =
        sym (take-append_left n plain slack lp)
        ∙ ap (take n) e
        ∙ take-append_left n input later le in
      let sum : n + (avail_out - n) ≡ avail_out = omega arith in
      append_assoc out (take n input) (take (avail_out - n) (drop n plain))
      ∙ ap (λ t. out ++ t) (rw (← front) (sym (rw sum at (take_add n (avail_out - n) plain))))

  read_loop-Holds :
      (rounds : ℕ) (f : File Z) (avail_out : ℕ) (out plain : Bytes)
      → Holds zlib file f plain
      → avail_out ≤ length plain
      → avail_out < rounds
      → Ends rounds f avail_out out plain
  read_loop-Holds zero f avail_out out plain h le enough = absurd (omega arith)
  read_loop-Holds (suc rounds) f zero out plain h le enough =
      let none_more : length out + 0 ≡ length out = omega arith in
      (f, (rw (none_more, append-nil out) (read_loop-full rounds f out), h))
  read_loop-Holds (suc rounds) f (suc k) out plain h le enough =
      let (g, (e, (hg, input))) = refill-Holds zlib file f plain h in
      let avail_out = suc k in
      let there : 0 < length g.next_in = input (omega arith) in
      let (some_copy, (le_out, le_in)) = do_copy-bounds g avail_out (omega arith) there in
      let n = do_copy g avail_out in
      let long = length-drop n plain in
      let (last, (run, holds)) =
        read_loop-Holds rounds (written zlib g (drop n g.next_in) g.stream (take n g.next_in))
          (avail_out - n) (out ++ take n g.next_in) (drop n plain)
          (copy-Holds zlib file g plain n hg le_in (omega arith)) (omega (arith, long))
          (omega arith) in
      let count : length (out ++ take n g.next_in) + (avail_out - n) ≡ length out + avail_out =
        omega (arith, length-append out (take n g.next_in), length-take n g.next_in) in
      let all : n + (avail_out - n) ≡ avail_out = omega arith in
      (
        last,
        (
          read_loop-round rounds f g avail_out out (omega arith) e hg.stored there
              ∙ run
              ∙ rw (
                count,
                joined out plain hg.slack g.next_in _ n avail_out hg.text (omega arith) le_in
                    le_out,
              ),
          subst (λ t. Holds zlib file last t)
              (sym (drop_add n (avail_out - n) plain) ∙ ap (λ m. drop m plain) all) holds,
        ),
      )

  room-Holds :
      (f : File Z) (len : ℕ) (plain : Bytes)
      → Holds zlib file f plain
      → room f len ≡ min len (length plain)
  unfolding room
  room-Holds f len plain h = let left = h.left in let plainly = h.plainly in ground arith

  read_file_int :
      (rounds : ℕ) (f : File Z) (len : ℕ)
      → 0 < len
      → len < 2 ^ 31
      → read_file zlib file rounds f len ≡ read_loop zlib file rounds f (room f len) []
  unfolding read_file
  read_file_int rounds f len positive int =
      let whole : u32 len ≡ len = omega (arith, int) in
      let full : (u32 len == 0) ≡ false =
        ==-false (u32 len) 0 (λ z. omega (arith, positive, int)) in
      rw (read_file, full) (ap (λ n. read_loop zlib file rounds f (room f n) []) whole)

  -- On an entry that is stored, encrypted or not, with its bytes in the file, `read_file` into a
  -- buffer of fewer than 2^31 bytes ends: it returns the number of bytes that it writes, which are
  -- the next ones of the plain text as far as the buffer and the text reach, and the rest of the text
  -- is left to read.
  pub read_file-stored :
      (rounds : ℕ) (f : File Z) (len : ℕ) (plain : Bytes)
      → Holds zlib file f plain
      → len < 2 ^ 31
      → len < rounds
      → (g : File Z) × ((read_file zlib file rounds f len
            ≡ some (ℤ.pos (min len (length plain)), take (min len (length plain)) plain, g))
          × Holds zlib file g (drop (min len (length plain)) plain))
  unfolding read_file
  read_file-stored rounds f zero plain h int enough =
      let none_more : min 0 (length plain) ≡ 0 = omega arith in (f, (rw none_more, rw none_more h))
  read_file-stored rounds f (suc len) plain h int enough =
      let m = min (suc len) (length plain) in
      let (g, (run, holds)) = read_loop-Holds rounds f m [] plain h (omega arith) (omega arith) in
      let count : as_int (0 + m) ≡ ℤ.pos m =
        ap as_int (omega arith) ∙ as_int_small m (omega arith) in
      (
        g,
        (
          read_file_int rounds f (suc len) (omega arith) int
              ∙ ap (λ avail_out. read_loop zlib file rounds f avail_out [])
                  (room-Holds f (suc len) plain h)
              ∙ run
              ∙ ap (λ c. some (c, take m plain, g)) count,
          holds,
        ),
      )

  -- `toString` of an entry that is stored: the loop over `read_file` ends, with the whole plain text.
  pub read_all-stored :
      (calls rounds : ℕ) (f : File Z) (out plain : Bytes)
      → Holds zlib file f plain
      → length plain < calls
      → 4096 < rounds
      → read_all zlib file calls rounds f out ≡ some (out ++ plain)
  unfolding read_all
  read_all-stored zero rounds f out plain h c r = absurd (omega arith)
  read_all-stored (suc calls) rounds f out plain h c r =
      let (g, (run, holds)) = read_file-stored rounds f 4096 plain h (omega arith) r in
      let m = min 4096 (length plain) in
      elim (Bool-cases (m == 0)) [
        | inl t ↦
            let empty : length plain ≡ 0 = ground arith in
            rw (read_all, run, t)
              (ap some (sym (append-nil out) ∙ ap (λ t. out ++ t) (sym (length_zero plain empty))))
        | inr t ↦
            let fewer : length (drop m plain) < calls = ground (arith, length-drop m plain) in
            rw (read_all, run, t, take-take m plain)
              (read_all-stored calls rounds g (out ++ take m plain) (drop m plain) holds fewer r
                ∙ ap some (
                    append_assoc out (take m plain) (drop m plain)
                    ∙ ap (λ t. out ++ t) (take-drop m plain)))
      ]
