-- ===== src/Unzip/Locate/Place.antt =====
-- Where `_get_central_dir` finds a record that is known to be the last.
use bkjs_utils.Prelude.{
  ℕ, ◌+◌, ◌-◌, ◌^◌, ◌<◌, ◌≤◌, ◌≡◌, arith, ◌∙◌, Bytes, ◌∷◌, ◌++◌, true, false, length,
  get_or-append_right, length-append,
}
use bkjs_utils.Unzip.Locate.{is_end_record, get_central_dir}
use bkjs_utils.Unzip.Locate.Last.{highest_one, get_central_dir-highest}

is_end_record-there :
    (before after : Bytes)
    → is_end_record (before ++ 0x50 ∷ 0x4b ∷ 0x05 ∷ 0x06 ∷ after) (length before) ≡ true
unfolding is_end_record
is_end_record-there before after =
    let record_bytes = 0x50 ∷ 0x4b ∷ 0x05 ∷ 0x06 ∷ after in
    let z : length before + 0 ≡ length before = omega arith in
    rw (
      rw z at (get_or-append_right before record_bytes 0 0),
      get_or-append_right before record_bytes 1 0,
      get_or-append_right before record_bytes 2 0,
      get_or-append_right before record_bytes 3 0,
    )

-- In a file below 4 GB `_get_central_dir` returns the position of an end record that does not stand
-- at the start, has at most 0xffff bytes from its start to the end of the file, and is the last one.
pub get_central_dir-last :
    (before after : Bytes)
    → 0 < length before
    → length after + 4 ≤ 0xffff
    → length before + (length after + 4) < 2 ^ 32
    → ((q : ℕ)
        → length before < q
        → q < length before + length after + 1
        → is_end_record (before ++ 0x50 ∷ 0x4b ∷ 0x05 ∷ 0x06 ∷ after) q ≡ false)
    → get_central_dir (before ++ 0x50 ∷ 0x4b ∷ 0x05 ∷ 0x06 ∷ after) ≡ length before
get_central_dir-last before after pos near small last =
    let file = before ++ 0x50 ∷ 0x4b ∷ 0x05 ∷ 0x06 ∷ after in
    let size : length file ≡ length before + (length after + 4) =
      omega (arith, length-append before (0x50 ∷ 0x4b ∷ 0x05 ∷ 0x06 ∷ after)) in
    get_central_dir-highest file (omega arith)
    ∙ highest_one (is_end_record file) (length file - 0xffff) (length file - 3) (length before)
        (omega arith) (omega arith) (is_end_record-there before after)
        (λ q a b. last q a (omega arith))
