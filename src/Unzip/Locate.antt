-- ===== src/Unzip/Locate.antt =====
-- `_get_central_dir` of bklib/bkunzip.cpp on the bytes of the file; its size goes through a
-- `uint32_t`, and 0 stands for "not found". Seeks inside the file and `malloc` do not fail here.
pub mod Last
pub mod Place
use bkjs_utils.Prelude.{
  ℕ, zero, suc, ◌+◌, ◌-◌, ◌%◌, ◌^◌, Bytes, List, Bool, true, false, ◌&&◌, get_or, length, take,
  drop, ltb, ◌==◌, if◌then◌else◌, u32,
}

-- `BUFREADCOMMENT`
abbrev pub buf_read_comment : ℕ
buf_read_comment = 0x400

-- The four tests on the buffer: the bytes of "PK\5\6".
unfoldable pub is_end_record : Bytes → ℕ → Bool
is_end_record buf i =
    get_or buf i 0 == 0x50
    && get_or buf (i + 1) 0 == 0x4b
    && get_or buf (i + 2) 0 == 0x05
    && get_or buf (i + 3) 0 == 0x06

-- `for (i = uReadSize - 3; (i--) > 0;)`, with the positions counted from `read_pos`.
pub scan_down : Bytes → ℕ → ℕ → ℕ
scan_down buf read_pos zero = 0
scan_down buf read_pos (suc i) =
    if is_end_record buf i then read_pos + i else scan_down buf read_pos i

-- The `while` loop, with a bound on its rounds.
pub read_back : Bytes → ℕ → ℕ → ℕ → ℕ → ℕ
read_back file size max_back zero back = 0
read_back file size max_back (suc rounds) back =
    let back' =
      if ltb max_back (back + buf_read_comment) then max_back else back + buf_read_comment in
    let read_pos = size - back' in
    let read_size =
      if ltb (buf_read_comment + 4) (size - read_pos)
      then buf_read_comment + 4
      else size - read_pos in
    let buf = take read_size (drop read_pos file) in
    let found = scan_down buf read_pos (read_size - 3) in
    let further = read_back file size max_back rounds back' in
    if ltb back max_back
    then (if length buf == read_size then (if found == 0 then further else found) else 0)
    else 0

-- `_get_central_dir`; 64 rounds of 0x400 bytes cover the 0xffff bytes that are searched.
pub get_central_dir : Bytes → ℕ
get_central_dir file =
    let size = u32 (length file) in
    let max_back = if ltb size 0xffff then size else 0xffff in read_back file size max_back 65 4
