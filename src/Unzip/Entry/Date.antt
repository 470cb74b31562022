-- ===== src/Unzip/Entry/Date.antt =====
-- The date and time of an entry.
use bkjs_utils.Prelude.{
  ℕ, ◌+◌, ◌-◌, ◌*◌, ◌/◌, ◌%◌, ◌^◌, ◌<◌, ◌≤◌, ◌≡◌, arith, ap, ◌∙◌, bit_and, ◌>>>◌,
}
use bkjs_utils.Prelude.Xor.{bit_and_mask, bit_and_field}
use bkjs_utils.Unzip.Entry.{tm_of}

-- A date and a time of day as the zip format packs them; a second is kept to a multiple of two.
pub dos_date_of : ℕ → ℕ → ℕ → ℕ → ℕ → ℕ → ℕ
dos_date_of year month day hour minute second =
    ((year - 1980) * 512 + month * 32 + day) * 65536 + (hour * 2048 + minute * 32 + second / 2)

field : (k w x : ℕ) → bit_and x ((2 ^ w - 1) * 2 ^ k) ≡ x / 2 ^ k % 2 ^ w * 2 ^ k
field k w x = bit_and_field k x (2 ^ w - 1) ∙ ap (λ t. t * 2 ^ k) (bit_and_mask w (x / 2 ^ k))

-- The packed form of a date from 1980 to 2107 and of a time of day is unpacked to the fields of
-- `struct tm`: months count from 0, years from 1900, and an odd second loses one.
pub tm_of-dos_date_of :
    (year month day hour minute second : ℕ)
    → 1980 ≤ year
    → year < 2108
    → 1 ≤ month
    → month ≤ 12
    → day ≤ 31
    → hour < 24
    → minute < 60
    → second < 60
    → tm_of (dos_date_of year month day hour minute second) ≡ record {
      tm_mday = day;
      tm_mon = month - 1;
      tm_year = year - 1900;
      tm_hour = hour;
      tm_min = minute;
      tm_sec = second / 2 * 2;
    }
unfolding tm_of dos_date_of
tm_of-dos_date_of year month day hour minute second y1 y2 m1 m2 d h mi s =
    let packed = dos_date_of year month day hour minute second in
    let date = (year - 1980) * 512 + month * 32 + day in
    let high : packed >>> 16 ≡ date = omega arith in
    let mday : date % 32 ≡ day = omega arith in
    let mon : (date / 32 % 16 * 32 / 32 + 4294967296 - 1) % 4294967296 ≡ month - 1 = omega arith in
    let yr : (date / 512 % 128 * 512 / 512 + 1980) % 4294967296 - 1900 ≡ year - 1900 =
      omega arith in
    let hr : packed / 2048 % 32 * 2048 / 2048 ≡ hour = omega arith in
    let mins : packed / 32 % 64 * 32 / 32 ≡ minute = omega arith in
    let sec : 2 * (packed % 32) ≡ second / 2 * 2 = omega arith in
    rw
      (
        high,
        bit_and_mask 5 date,
        field 5 4 date,
        field 9 7 date,
        field 11 5 packed,
        field 5 6 packed,
        bit_and_mask 5 packed,
      )
      (λ i. record {
        tm_mday = mday i;
        tm_mon = mon i;
        tm_year = yr i;
        tm_hour = hr i;
        tm_min = mins i;
        tm_sec = sec i;
      })
