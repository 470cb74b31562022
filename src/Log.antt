-- ===== src/Log.antt =====
-- The log levels of bklib/bklib.cpp and bklib/bklib.h. A level is an `int`; `isdigit` and
-- `strcasecmp` are those of the C locale. The texts are without the 0 that ends them.
pub mod Levels
use bkjs_utils.Prelude.{
  ℕ, zero, suc, ◌+◌, ◌-◌, ◌*◌, ◌^◌, Bytes, [], ◌∷◌, Bool, true, false, ◌&&◌, Option, none, some,
  ◌>>=◌, if◌then◌else◌, ltb, leb, ◌==◌, codes, map, string_eq,
}
use bkjs_utils.Prelude.Int.{ℤ, int_leb, int_eq}
use bkjs_utils.Strings.{tolower, isdigit}

abbrev pub log_none : ℤ
log_none = ℤ.negsuc 0

abbrev pub log_error : ℤ
log_error = ℤ.negsuc 0

abbrev pub log_warn : ℤ
log_warn = ℤ.pos 0

abbrev pub log_notice : ℤ
log_notice = ℤ.pos 1

abbrev pub log_info : ℤ
log_info = ℤ.pos 2

abbrev pub log_debug : ℤ
log_debug = ℤ.pos 3

abbrev pub log_dev : ℤ
log_dev = ℤ.pos 4

abbrev pub log_test : ℤ
log_test = ℤ.pos 5

-- `bkLogCheck`, at the level `log` that is set.
unfoldable pub log_check : ℤ → ℤ → Bool
log_check log level = int_leb level log

-- `bkLogToString`
unfoldable pub log_to_string : ℤ → Bytes
log_to_string level =
    if int_eq level log_error
    then codes "ERROR"
    else if int_eq level log_warn
    then codes "WARN"
    else if int_eq level log_notice
    then codes "NOTICE"
    else if int_eq level log_info
    then codes "INFO"
    else if int_eq level log_debug
    then codes "DEBUG"
    else if int_eq level log_dev
    then codes "DEV"
    else if int_eq level log_test
    then codes "TEST"
    else codes "NONE"

-- `!strcasecmp(str, name)`
unfoldable pub same_word : Bytes → Bytes → Bool
same_word str name = string_eq (map tolower str) (map tolower name)

-- The number that the digits at the front make, from the digits before.
unfoldable pub digits_loop : ℕ → Bytes → ℕ
digits_loop n [] = n
digits_loop n (c ∷ str) = elim (isdigit c) [
  | true ↦ digits_loop (n * 10 + (c - 48)) str
  | false ↦ n
]

-- `atoi` of a text that begins with a digit; a number that is no `int` is undefined.
unfoldable pub atoi : Bytes → Option ℕ
atoi str = if ltb (digits_loop 0 str) 0x80000000 then some (digits_loop 0 str) else none

-- The level of a name.
unfoldable pub level_of : Bytes → ℤ
level_of str =
    if same_word str (codes "ERROR")
    then log_error
    else if same_word str (codes "WARN")
    then log_warn
    else if same_word str (codes "NOTICE")
    then log_notice
    else if same_word str (codes "INFO")
    then log_info
    else if same_word str (codes "DEBUG")
    then log_debug
    else if same_word str (codes "DEV")
    then log_dev
    else if same_word str (codes "TEST")
    then log_test
    else ℤ.negsuc 0

-- `isdigit(str[0])`
abbrev pub starts_with_digit : Bytes → Bool
starts_with_digit [] = false
starts_with_digit (c ∷ str) = isdigit c

-- `bkLogFromString`; a null pointer is `none`.
unfoldable pub log_from_string : Option Bytes → Option ℤ
log_from_string none = some (ℤ.pos 0)
log_from_string (some str) =
    if starts_with_digit str
    then (do
      i ← atoi str
      some (
          if int_leb log_none (ℤ.pos i) && int_leb (ℤ.pos i) log_test then ℤ.pos i else ℤ.negsuc 0))
    else some (level_of str)

-- `bkLogSet` of a name: the level that is set.
unfoldable pub log_set : Option Bytes → Option ℤ
log_set level = log_from_string level
