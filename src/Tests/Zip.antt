-- ===== src/Tests/Zip.antt =====
-- Runs of the streams, over a zlib that stores its input.
use bkjs_utils.Prelude.{
  ℕ, suc, ◌<◌, ◌≤◌, ◌≡◌, refl, sym, ap, ◌∙◌, arith, Bytes, [], ◌∷◌, ◌++◌, append_assoc, Bool, true,
  false, not, ◌&&◌, Option, none, some, if◌then◌else◌, length, length-append, length_zero,
  length-drop, length-take, take-drop, take, drop, ltb, lt→ltb, codes,
}
use bkjs_utils.Zip.{
  z_chunk, ReturnCode, Turn, ZStream, Progress, deflate_fails, inflate_fails, bk_deflate,
  bk_deflate_end, bk_inflate,
}
use bkjs_utils.Zip.Whole.{IsTransducer}
use bkjs_utils.Zip.RoundTrip.{bk_deflate_end-bk_deflate, bk_inflate-gunzip}

-- The state is whether the stream is to finish, and what was read, and so what was written. Input to a
-- stream that is to finish is an error.
abbrev Store : Type 0
Store = Bool × Bytes

abbrev store : Bool → Store → Bytes → ℕ → Turn Store
store finish s input room = record {
  code =
      if not finish && s.0
      then ReturnCode.z_stream_error
      else if finish && ltb (length input) room
      then ReturnCode.z_stream_end
      else ReturnCode.z_ok;
  written = take room input;
  unread = drop room input;
  state = (if finish then true else s.0, s.1 ++ take room input);
}

abbrev whole : Bytes → Option Bytes
whole text = some text

abbrev whole_text : Bytes → Option Bytes
whole_text [] = none
whole_text (c ∷ text) = some (c ∷ text)

abbrev Open : Store → Bytes → Type 0
Open s later = s.0 ≡ false

abbrev Finishing : Store → Bytes → Type 0
Finishing s later = later ≡ []

abbrev content : Store → Bytes
content s = s.1

abbrev amount : Store → Bytes → ℕ
amount s input = length input

short_take : (room : ℕ) (input : Bytes) → length (take room input) < room → length input < room
short_take room input h = omega (arith, length-take room input, h)

short_drop : (room : ℕ) (input : Bytes) → length (take room input) < room → drop room input ≡ []
short_drop room input h =
    length_zero (drop room input) (omega (arith, length-drop room input, short_take room input h))

long_drop :
    (room : ℕ) (input : Bytes)
    → 0 < room
    → room ≤ length (take room input)
    → length (drop room input) < length input
long_drop room input positive h =
    omega (arith, length-drop room input, length-take room input, positive, h)

store_reads : (s input : Bytes) (room : ℕ) → s ++ input ≡ (s ++ take room input) ++ drop room input
store_reads s input room =
    ap (λ x. s ++ x) (sym (take-drop room input))
    ∙ sym (append_assoc s (take room input) (drop room input))

feeding :
    IsTransducer
      (store false)
      deflate_fails
      Open
      (λ ret s. deflate_fails ret ≡ none)
      content
      content
      amount
unfolding deflate_fails
feeding = record {
  valid = λ s input later room v. v;
  succeeds = λ s input later room v positive. rw v refl;
  reads = λ s input later room v. store_reads s.1 input room;
  writes = λ s input later room v. refl;
  empties = λ s input later room v less. short_drop room input less;
  falls = λ s input later room v positive full. long_drop room input positive full;
  last = λ s input later room v less. rw v refl;
}

store_succeeds :
    (s : Store) (input : Bytes) (room : ℕ) → deflate_fails (store true s input room).code ≡ none
unfolding deflate_fails
store_succeeds s input room = ground arith

drop_nothing :
    (room : ℕ) (input later : Bytes) → input ++ later ≡ [] → drop room input ++ later ≡ []
drop_nothing room input later e = length_zero (drop room input ++ later) (
    omega (
      arith,
      ap length e,
      length-append input later,
      length-append (drop room input) later,
      length-drop room input,
    ))

finishing :
    IsTransducer
      (store true)
      deflate_fails
      Finishing
      (λ ret s.
        (ret ≡ ReturnCode.z_stream_end)
        × (whole (content s) ≡ some (content s))
        × (ReturnCode.z_ok ≡ ReturnCode.z_ok))
      content
      content
      amount
finishing = record {
  valid = λ s input later room v. drop_nothing room input later v;
  succeeds = λ s input later room v positive. store_succeeds s input room;
  reads = λ s input later room v. store_reads s.1 input room;
  writes = λ s input later room v. refl;
  empties = λ s input later room v less. short_drop room input less;
  falls = λ s input later room v positive full. long_drop room input positive full;
  last = λ s input later room v less.
      (rw (lt→ltb (length input) room (short_take room input less)), refl, refl);
}

abbrev new_stream : ZStream Store
new_stream = record { inner = (false, []); avail_in = []; freed = false }

bk_deflate_end-bk_deflate_example :
    (p : Progress Store) × (q : Progress Store) × (bk_deflate store
        (suc z_chunk)
        new_stream
        (codes "abc")
        []
      ≡ some p)
    × (deflate_fails p.ret ≡ none)
    × (bk_deflate_end store (λ s. ReturnCode.z_ok) (suc z_chunk) p.strm p.outbuf ≡ some q)
    × (q.ret ≡ ReturnCode.z_ok)
    × (whole q.outbuf ≡ some (codes "abc"))
bk_deflate_end-bk_deflate_example =
    bk_deflate_end-bk_deflate store (λ s. ReturnCode.z_ok) whole (suc z_chunk) Open Finishing
      content content amount
      (record {
        feeding = feeding;
        starts = λ s v. refl;
        finishing = finishing;
        enough = λ s input later v short. omega (arith, short);
        enough_finishing = λ s v. omega arith;
      })
      new_stream (codes "abc")
      (record { valid = refl; no_input = refl; nothing_read = refl; nothing_written = refl })

whole_text_lem : (text plain : Bytes) → whole_text text ≡ some plain → text ≡ plain
whole_text_lem [] plain e = absurd (cc e)
whole_text_lem (c ∷ text) plain e = cc e

expanding :
    IsTransducer
      (store false)
      inflate_fails
      Open
      (λ ret s. (plain : Bytes) → whole_text (content s) ≡ some plain → content s ≡ plain)
      content
      content
      amount
unfolding inflate_fails
expanding = record {
  valid = λ s input later room v. v;
  succeeds = λ s input later room v positive. rw v refl;
  reads = λ s input later room v. store_reads s.1 input room;
  writes = λ s input later room v. refl;
  empties = λ s input later room v less. short_drop room input less;
  falls = λ s input later room v positive full. long_drop room input positive full;
  last = λ s input later room v less plain e. whole_text_lem (s.1 ++ take room input) plain e;
}

bk_inflate-gunzip_example :
    (p : Progress Store) × (bk_inflate (store false) (suc z_chunk) new_stream (codes "abc") []
      ≡ some p)
    × (p.outbuf ≡ codes "abc")
bk_inflate-gunzip_example =
    bk_inflate-gunzip (store false) whole_text (suc z_chunk) Open content content amount
      (record {
        expanding = expanding;
        enough = λ s input later v short. omega (arith, short);
        no_text = refl;
      })
      new_stream (codes "abc") (codes "abc")
      (record { valid = refl; no_input = refl; nothing_read = refl; nothing_written = refl }) refl
