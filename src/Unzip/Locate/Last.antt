-- ===== src/Unzip/Locate/Last.antt =====
-- `_get_central_dir` finds the last end record among the last 0xffff bytes.
use bkjs_utils.Prelude.{
  ℕ, zero, suc, ◌+◌, ◌-◌, ◌^◌, ◌<◌, ◌≤◌, ◌≡◌, ◌⊎◌, inl, inr, arith, ◌*◌, refl, ==-false, sym, ap,
  ◌∙◌, Bytes, Bool, true, false, ◌&&◌, get_or, length, take, drop, ltb, ◌==◌, if◌then◌else◌, u32,
  Bool-cases, lt→ltb, ltb-false, ==_iff, le→leb, leb, get_or-take, get_or-drop, length-take,
  length-drop,
}
use native.Mathlib.Nat.{add_assoc}
use native.Mathlib.Decide.{dec_le, dec_lt, ℕ_discrete}
use bkjs_utils.Unzip.Locate.{buf_read_comment, is_end_record, scan_down, read_back, get_central_dir}

-- The result of a downward scan of `[read_pos, read_pos + n)`.
record IsScan (buf : Bytes) (read_pos n r : ℕ) : Type 0 where
  missing : r ≡ 0 → (i : ℕ) → i < n → 0 < read_pos + i → is_end_record buf i ≡ false
  start : 0 < r → read_pos ≤ r
  end : 0 < r → r < read_pos + n
  hit : 0 < r → is_end_record buf (r - read_pos) ≡ true
  above : 0 < r → (i : ℕ) → i < n → r < read_pos + i → is_end_record buf i ≡ false

same : (i n : ℕ) → i < suc n → ¬ (i < n) → i ≡ n
same i n h k = omega arith

scan_down-IsScan : (buf : Bytes) (read_pos n : ℕ) → IsScan buf read_pos n (scan_down buf read_pos n)
unfolding scan_down
scan_down-IsScan buf read_pos zero = record {
  missing = λ e i lt. absurd (omega arith);
  start = λ h. absurd (omega arith);
  end = λ h. absurd (omega arith);
  hit = λ h. absurd (omega arith);
  above = λ h i lt. absurd (omega arith);
}
scan_down-IsScan buf read_pos (suc n) = elim (Bool-cases (is_end_record buf n)) [
  | inl e ↦ rw e (record {
    missing = λ z i lt pos. absurd (omega arith);
    start = λ h. omega arith;
    end = λ h. omega arith;
    hit = λ h. let back : read_pos + n - read_pos ≡ n = omega arith in rw back e;
    above = λ h i lt gt. absurd (omega arith);
  })
  | inr e ↦
      let rest = scan_down-IsScan buf read_pos n in
      rw e (record {
        missing = λ z i lt pos. elim (dec_lt i n) [
          | yes below ↦ rest.missing z i below pos
          | no last ↦ ap (is_end_record buf) (same i n lt last) ∙ e
        ];
        start = rest.start;
        end = λ h. omega (arith, rest.end h);
        hit = rest.hit;
        above = λ h i lt gt. elim (dec_lt i n) [
          | yes below ↦ rest.above h i below gt
          | no last ↦ ap (is_end_record buf) (same i n lt last) ∙ e
        ];
      })
]

-- A record seen in the buffer is the record at its place in the file.
is_end_record-buffer :
    (file : Bytes) (p n i : ℕ)
    → i + 4 ≤ n
    → is_end_record (take n (drop p file)) i ≡ is_end_record file (p + i)
unfolding is_end_record
is_end_record-buffer file p n i h = rw (
  byte i (omega arith),
  byte (i + 1) (omega arith),
  byte (i + 2) (omega arith),
  byte (i + 3) (omega arith),
  ← add_assoc p i 1,
  ← add_assoc p i 2,
  ← add_assoc p i 3,
)
  where
    byte : (k : ℕ) → k < n → get_or (take n (drop p file)) k 0 ≡ get_or file (p + k) 0
    byte k lt = get_or-take n k (drop p file) 0 lt ∙ get_or-drop p file k 0

-- The result of a search of the file from `lowest` up to its last four bytes.
record IsLast (file : Bytes) (size lowest r : ℕ) : Type 0 where
  missing : r ≡ 0 → (q : ℕ) → 0 < q → lowest ≤ q → q + 4 ≤ size → is_end_record file q ≡ false
  low : 0 < r → lowest ≤ r
  high : 0 < r → r + 4 ≤ size
  hit : 0 < r → is_end_record file r ≡ true
  last : 0 < r → (q : ℕ) → r < q → q + 4 ≤ size → is_end_record file q ≡ false

-- Nothing from `done` on.
abbrev IsClear : Bytes → ℕ → ℕ → Type 0
IsClear file size done = (q : ℕ) → 0 < q → done ≤ q → q + 4 ≤ size → is_end_record file q ≡ false

module _ (file : Bytes) (size max_back : ℕ) (whole : size ≡ length file)
    (fits : max_back ≤ size) where
  -- A buffer of `n` bytes at `p`, scanned; nothing was found from `done` on.
  module _ (p n done : ℕ) (inside : p + n ≤ size) (reach : done ≤ p + (n - 3))
      (clear : IsClear file size done) where
    abbrev found : ℕ
    found = scan_down (take n (drop p file)) p (n - 3)

    there :
        (i : ℕ) → i < n - 3 → is_end_record (take n (drop p file)) i ≡ is_end_record file (p + i)
    there i h = is_end_record-buffer file p n i (omega arith)

    scanned-IsClear : found ≡ 0 → IsClear file size p
    scanned-IsClear z q pos low high = elim (dec_le done q) [
      | yes old ↦ clear q pos old high
      | no new ↦
          let at : p + (q - p) ≡ q = omega arith in
          ap (is_end_record file) (sym at)
          ∙ sym (there (q - p) (omega arith))
          ∙ (scan_down-IsScan _ p (n - 3)).missing z (q - p) (omega arith) (omega arith)
    ]

    scanned-IsLast : (lowest : ℕ) → lowest ≤ p → 0 < found → IsLast file size lowest found
    scanned-IsLast lowest le pos =
        let scan = scan_down-IsScan (take n (drop p file)) p (n - 3) in
        record {
          missing = λ z. absurd (omega arith);
          low = λ _. omega (arith, scan.start pos);
          high = λ _. omega (arith, scan.end pos);
          hit = λ _.
              let at : p + (found - p) ≡ found = omega (arith, scan.start pos) in
              ap (is_end_record file) (sym at)
              ∙ sym (there (found - p) (omega (arith, scan.start pos, scan.end pos)))
              ∙ scan.hit pos;
          last = λ _ q gt high. elim (dec_le done q) [
            | yes old ↦ clear q (omega arith) old high
            | no new ↦
                let at : p + (q - p) ≡ q = omega (arith, scan.start pos) in
                ap (is_end_record file) (sym at)
                ∙ sym (there (q - p) (omega (arith, scan.start pos)))
                ∙ scan.above pos (q - p) (omega (arith, scan.start pos))
                    (omega (arith, scan.start pos))
          ];
        }

  abbrev wider : ℕ → ℕ
  wider back = if ltb max_back (back + buf_read_comment) then max_back else back + buf_read_comment

  abbrev chunk : ℕ → ℕ
  chunk p = if ltb (buf_read_comment + 4) (size - p) then buf_read_comment + 4 else size - p

  wider_bounds :
      (back : ℕ)
      → back < max_back
      → (back < wider back)
        × (wider back ≤ max_back)
        × (wider back ≤ back + 0x400)
        × ((wider back ≡ max_back) ⊎ (wider back ≡ back + 0x400))
  wider_bounds back h = ground arith

  chunk_bounds : (p : ℕ) → (chunk p ≤ size - p) × ((chunk p ≡ 0x404) ⊎ (chunk p ≡ size - p))
  chunk_bounds p = ground arith

  read_back_stop :
      (rounds back : ℕ) → max_back ≤ back → read_back file size max_back rounds back ≡ 0
  unfolding read_back
  read_back_stop zero back h = refl
  read_back_stop (suc rounds) back h = ground arith

  read_back_step :
      (rounds back : ℕ)
      → back < max_back
      → read_back file size max_back (suc rounds) back ≡ (
          if scan_down
              (take (chunk (size - wider back)) (drop (size - wider back) file))
              (size - wider back)
              (chunk (size - wider back) - 3)
            == 0
          then read_back file size max_back rounds (wider back)
          else scan_down
              (take (chunk (size - wider back)) (drop (size - wider back) file))
              (size - wider back)
              (chunk (size - wider back) - 3))
  unfolding read_back
  read_back_step rounds back h =
      let p = size - wider back in
      let len : length (take (chunk p) (drop p file)) ≡ chunk p =
        omega (arith, length-take (chunk p) (drop p file), length-drop p file, chunk_bounds p) in
      rw (lt→ltb back max_back h, (==_iff _ _).1 len)

  IsLast-nothing :
      (done : ℕ)
      → (done ≤ size - max_back) ⊎ (size ≤ 4)
      → IsClear file size done
      → IsLast file size (size - max_back) 0
  IsLast-nothing done reach clear = record {
    missing = λ _ q pos low high. clear q pos (omega arith) high;
    low = λ h. absurd (omega arith);
    high = λ h. absurd (omega arith);
    hit = λ h. absurd (omega arith);
    last = λ h. absurd (omega arith);
  }

  chunk_reach :
      (back done : ℕ)
      → back < max_back
      → 4 ≤ back
      → done ≤ suc (size - back)
      → (size - wider back + chunk (size - wider back) ≤ size)
        × (done ≤ size - wider back + (chunk (size - wider back) - 3))
  chunk_reach back done h four near =
      omega (arith, wider_bounds back h, chunk_bounds (size - wider back))

  -- The loop keeps the part of the file behind `done` clear, and stops when all is searched.
  read_back-IsLast :
      (rounds back done : ℕ)
      → max_back ≤ back + 0x400 * rounds
      → 4 ≤ back
      → done ≤ suc (size - back)
      → (max_back ≤ back → (done ≤ size - max_back) ⊎ (size ≤ 4))
      → IsClear file size done
      → IsLast file size (size - max_back) (read_back file size max_back rounds back)
  read_back-IsLast zero back done enough four near full clear =
      rw (read_back_stop zero back (omega arith)) (IsLast-nothing done (full (omega arith)) clear)
  read_back-IsLast (suc rounds) back done enough four near full clear =
      elim (dec_le max_back back) [
        | yes stop ↦
            rw (read_back_stop (suc rounds) back stop) (IsLast-nothing done (full stop) clear)
        | no go ↦
            let h : back < max_back = omega arith in
            let p = size - wider back in
            let n = chunk p in
            let (inside, reach) = chunk_reach back done h four near in
            let bounds = wider_bounds back h in
            let r = scan_down (take n (drop p file)) p (n - 3) in
            rw (read_back_step rounds back h) (elim (ℕ_discrete r 0) [
              | yes z ↦ rw ((==_iff r 0).1 z) (
                  read_back-IsLast rounds (wider back) p (omega (arith, bounds))
                    (omega (arith, bounds)) (omega arith) (λ e. inl (omega (arith, bounds)))
                    (scanned-IsClear p n done inside reach clear z))
              | no nz ↦ rw (==-false r 0 nz) (
                  scanned-IsLast p n done inside reach clear (size - max_back)
                    (omega (arith, bounds)) (omega arith))
            ])
      ]

  search-IsLast :
      (max_back ≡ size) ⊎ (max_back ≡ 0xffff)
      → max_back ≤ 0xffff
      → IsLast file size (size - max_back) (read_back file size max_back 65 4)
  search-IsLast which le =
      read_back-IsLast 65 4 (size - 3) (omega arith) (omega arith) (omega arith) tiny
        (λ q pos low high. absurd (omega arith))
    where
      tiny : max_back ≤ 4 → (size - 3 ≤ size - max_back) ⊎ (size ≤ 4)
      tiny h = elim which [ inl e ↦ inr (omega arith) | inr e ↦ absurd (omega arith) ]

get_central_dir-IsLast :
    (file : Bytes)
    → length file < 2 ^ 32
    → IsLast file (length file) (length file - 0xffff) (get_central_dir file)
unfolding get_central_dir
get_central_dir-IsLast file h =
    let whole : u32 (length file) ≡ length file = omega arith in
    rw whole (elim (dec_lt (length file) 0xffff) [
      | yes small ↦
          let low : length file - length file ≡ length file - 0xffff = omega arith in
          rw (lt→ltb (length file) 0xffff small, ← low)
            (search-IsLast file (length file) (length file) refl (omega arith) (inl refl)
              (omega arith))
      | no large ↦
          rw (ltb-false (length file) 0xffff large)
            (search-IsLast file (length file) 0xffff refl (omega arith) (inr refl) (omega arith))
    ])

-- The greatest number from `lowest` up to and without `n` that passes the test, or 0.
pub highest : (ℕ → Bool) → ℕ → ℕ → ℕ
highest p lowest zero = 0
highest p lowest (suc n) = if leb lowest n && p n then n else highest p lowest n

highest_none :
    (p : ℕ → Bool) (lowest n : ℕ)
    → ((q : ℕ) → 0 < q → lowest ≤ q → q < n → p q ≡ false)
    → highest p lowest n ≡ 0
unfolding highest
highest_none p lowest zero none_hit = refl
highest_none p lowest (suc zero) none_hit = ground arith
highest_none p lowest (suc (suc n)) none_hit = ground (
  arith,
  none_hit (suc n),
  highest_none p lowest (suc n) (λ q a b c. none_hit q a b (omega arith)),
)

pub highest_one :
    (p : ℕ → Bool) (lowest n r : ℕ)
    → lowest ≤ r
    → r < n
    → p r ≡ true
    → ((q : ℕ) → r < q → q < n → p q ≡ false)
    → highest p lowest n ≡ r
unfolding highest
highest_one p lowest zero r low high hit above = absurd (omega arith)
highest_one p lowest (suc n) r low high hit above = elim (ℕ_discrete r n) [
  | yes e ↦ rw (← e, hit, le→leb lowest r low)
  | no ne ↦ ground (
    arith,
    above n,
    highest_one p lowest n r low (omega arith) hit (λ q a b. above q a (omega arith)),
  )
]

-- On a file below 4 GB `_get_central_dir` returns the greatest position of an end record among
-- those at most 0xffff bytes before the end of the file, the record's four bytes lying in the file,
-- and 0 if there is none; a record at the very start of the file is not told from none.
pub get_central_dir-highest :
    (file : Bytes)
    → length file < 2 ^ 32
    → get_central_dir file ≡ highest (is_end_record file) (length file - 0xffff) (length file - 3)
get_central_dir-highest file h =
    let last = get_central_dir-IsLast file h in
    let r = get_central_dir file in
    let n = length file - 3 in
    elim (ℕ_discrete r 0) [
      | yes z ↦
          z
          ∙ sym (
              highest_none (is_end_record file) (length file - 0xffff) n
                (λ q a b c. last.missing z q a b (omega arith)))
      | no nz ↦
          let pos : 0 < r = omega arith in
          sym (
            highest_one (is_end_record file) (length file - 0xffff) n r (last.low pos)
              (omega (arith, last.high pos)) (last.hit pos)
              (λ q a b. last.last pos q a (omega arith)))
    ]
