-- ===== src/Log/Levels.antt =====
-- The levels that have names.
use bkjs_utils.Prelude.{
  ℕ, zero, suc, ◌≡◌, refl, arith, Bytes, Bool, true, ◌&&◌, Option, none, some, if◌then◌else◌,
  Bool-cases, Option-cases, inl, inr,
}
use bkjs_utils.Strings.{tolower, isdigit}
use bkjs_utils.Prelude.Int.{ℤ, int_leb}
use bkjs_utils.Log.{
  log_none, log_error, log_test, log_check, log_to_string, same_word, atoi, level_of,
  starts_with_digit, log_from_string, log_set,
}

-- `bkLogFromString` reads the name that `bkLogToString` gives a level back to it; a level without
-- a name is read back as -1.
pub log_from_string-log_to_string :
    (level : ℤ)
    → log_from_string (some (log_to_string level))
      ≡ some (if int_leb log_none level && int_leb level log_test then level else log_error)
unfolding log_from_string log_to_string level_of same_word isdigit tolower
log_from_string-log_to_string (ℤ.pos zero) = refl
log_from_string-log_to_string (ℤ.pos (suc zero)) = refl
log_from_string-log_to_string (ℤ.pos (suc (suc zero))) = refl
log_from_string-log_to_string (ℤ.pos (suc (suc (suc zero)))) = refl
log_from_string-log_to_string (ℤ.pos (suc (suc (suc (suc zero))))) = refl
log_from_string-log_to_string (ℤ.pos (suc (suc (suc (suc (suc zero)))))) = refl
log_from_string-log_to_string (ℤ.pos (suc (suc (suc (suc (suc (suc n))))))) = ground arith
log_from_string-log_to_string (ℤ.negsuc zero) = refl
log_from_string-log_to_string (ℤ.negsuc (suc n)) = ground arith

abbrev in_range : ℤ → Bool
in_range log = int_leb log_none log && int_leb log log_test

level_of-range : (str : Bytes) → in_range (level_of str) ≡ true
unfolding level_of
level_of-range str = ground arith

number-range : (i : ℕ) → in_range (if in_range (ℤ.pos i) then ℤ.pos i else ℤ.negsuc 0) ≡ true
number-range i = ground arith

log_from_string-range :
    (name : Option Bytes) (log : ℤ) → log_from_string name ≡ some log → in_range log ≡ true
unfolding log_from_string
log_from_string-range none log h = let e : log ≡ ℤ.pos 0 = cc h in rw e
log_from_string-range (some str) log h = elim (Bool-cases (starts_with_digit str)) [
  | inr name ↦ let e : log ≡ level_of str = ground (h, name, arith) in rw e (level_of-range str)
  | inl digit ↦ elim (Option-cases (atoi str)) [
    | inl f ↦ absurd (ground (h, digit, f, arith))
    | inr (i, f) ↦
        let e : log ≡ (if in_range (ℤ.pos i) then ℤ.pos i else ℤ.negsuc 0) =
          ground (h, digit, f, arith) in
        rw e (number-range i)
  ]
]

-- The level that a name sets is one of those from -1 to 5; and a message of the level Log_Error is
-- printed at each of them, so that no name turns these messages off.
log_set-range :
    (name : Option Bytes) (log : ℤ)
    → log_set name ≡ some log
    → (int_leb log_none log && int_leb log log_test ≡ true) × (log_check log log_error ≡ true)
unfolding log_set log_check
log_set-range name log h =
    let range = log_from_string-range name log h in (range, ground (range, arith))
