-- ===== src/Json/Text.antt =====
-- Texts in JSON: `hatoui`, `bkJsonEscape` and the loops over strings and numbers of `bkJsonParse`.
-- A source is the list of its bytes before the 0 that ends it.
pub mod Leaves
pub mod Ended
pub mod RoundTrip
use bkjs_utils.Prelude.{
  ℕ, zero, suc, ◌+◌, ◌-◌, ◌*◌, ◌/◌, ◌%◌, ◌^◌, Bytes, List, [], ◌∷◌, ◌++◌, Bool, true, false, not,
  ◌&&◌, ◌||◌, Option, none, some, ◌==◌, if◌then◌else◌, ltb, leb, u32, bit_and, bit_or, ◌>>>◌, codes,
  length, drop,
}
use bkjs_utils.Strings.{isdigit}

-- A run of the parser: `overrun` reads past the end of the source, and a loop that goes on beyond
-- its bound is `out_of_fuel`.
pub data Outcome {ℓ} (A : Type ℓ) : Type ℓ where
  ok : A → Outcome A
  failed overrun out_of_fuel : Outcome A

infixl 5 ◌>>=◌
abbrev pub ◌>>=◌ {ℓ κ} : {A : Type ℓ} {B : Type κ} → Outcome A → (A → Outcome B) → Outcome B
ok a >>= f = f a
failed >>= f = failed
overrun >>= f = overrun
out_of_fuel >>= f = out_of_fuel

-- The value of a digit in `hatoui`.
pub hex_value : ℕ → Option ℕ
hex_value c =
    if isdigit c
    then some (c - 48)
    else if leb 97 c && leb c 102
    then some (c - 97 + 10)
    else if leb 65 c && leb c 70
    then some (c - 65 + 10)
    else none

-- `hatoui` over at most `n` characters: the number, and how many are left unread.
unfoldable pub hatoui : ℕ → ℕ → Bytes → ℕ × ℕ
hatoui zero result it = (result, 0)
hatoui (suc n) result [] = (result, suc n)
hatoui (suc n) result (c ∷ it) = elim (hex_value c) [
  | none ↦ (result, suc n)
  | some digit ↦ hatoui n (u32 (16 * result + digit)) it
]

-- The bytes of a code point.
pub utf8 : ℕ → Bytes
utf8 codepoint =
    if leb codepoint 0x7f
    then codepoint ∷ []
    else if leb codepoint 0x7ff
    then bit_or 0xc0 (codepoint >>> 6) ∷ bit_or 0x80 (bit_and codepoint 0x3f) ∷ []
    else if leb codepoint 0xffff
    then bit_or 0xe0 (codepoint >>> 12)
      ∷ bit_or 0x80 (bit_and (codepoint >>> 6) 0x3f)
      ∷ bit_or 0x80 (bit_and codepoint 0x3f)
      ∷ []
    else []

-- The escape of one character behind the backslash.
pub simple_escape : ℕ → Option ℕ
simple_escape c =
    if c == b'"'
    then some b'"'
    else if c == b'\\'
    then some b'\\'
    else if c == b'/'
    then some b'/'
    else if c == b'b'
    then some 8
    else if c == b'f'
    then some 12
    else if c == b'n'
    then some 10
    else if c == b'r'
    then some 13
    else if c == b't'
    then some 9
    else none

-- The case `\u`, on what stands behind the `u`: the bytes of the code point, and the rest.
pub unicode_escape : Bytes → Outcome (Option Bytes × Bytes)
unicode_escape it =
    let (codepoint, unread) = hatoui 4 0 it in
    if unread == 0 then ok (some (utf8 codepoint), drop 4 it) else failed

-- The `switch` over what stands behind a backslash.
pub escape_sequence : Bytes → Outcome (Option Bytes × Bytes)
escape_sequence [] = failed
escape_sequence (c ∷ it) =
    if c == b'u'
    then unicode_escape it
    else elim (simple_escape c) [ none ↦ failed | some d ↦ ok (some (d ∷ []), it) ]

-- One round of the loop over a string: what it appends, or `none` at the closing quote.
pub string_round : ℕ → Bytes → Outcome (Option Bytes × Bytes)
string_round c it =
    if ltb c 0x20
    then failed
    else if c == b'\\'
    then escape_sequence it
    else if c == b'"'
    then ok (none, it)
    else ok (some (c ∷ []), it)

-- The loop, with a bound on its rounds: `val` and what is left of the source.
pub string_loop : ℕ → Bytes → Bytes → Outcome (Bytes × Bytes)
string_loop zero it val = out_of_fuel
string_loop (suc rounds) [] val = ok (val, [])
string_loop (suc rounds) (c ∷ it) val = elim (string_round c it) [
  | ok (piece, rest) ↦ elim piece [
    | none ↦ ok (val, rest)
    | some bs ↦ string_loop rounds rest (val ++ bs)
  ]
  | failed ↦ failed
  | overrun ↦ overrun
  | out_of_fuel ↦ out_of_fuel
]

-- The string behind an opening quote; each round reads a character.
pub read_string : Bytes → Outcome (Bytes × Bytes)
read_string it = string_loop (suc (length it)) it []

-- The characters that end a number.
unfoldable pub ends_number : ℕ → Bool
ends_number c =
    c == 0x20
    || (c == 0x09)
    || (c == 0x0d)
    || (c == 0x0a)
    || (c == b',')
    || (c == b']')
    || (c == b'}')

-- The loop over a number has no test for the end of the source.
pub read_number : Bytes → Outcome (Bytes × Bytes)
read_number [] = overrun
read_number (c ∷ it) =
    if ends_number c
    then ok ([], c ∷ it)
    else (do (value, rest) ← read_number it; ok (c ∷ value, rest))

-- A character that makes a number a `JSON_FLOAT`.
abbrev pub marks_float : ℕ → Bool
marks_float c = c == b'.' || (c == b'e') || (c == b'E')

unfoldable pub is_float : Bytes → Bool
is_float [] = false
is_float (c ∷ value) = marks_float c || is_float value

-- `%x` of a digit.
unfoldable pub hex_digit : ℕ → ℕ
hex_digit d = if ltb d 10 then 48 + d else 87 + d

-- The `switch` of `bkJsonEscape`.
unfoldable pub escape_char : ℕ → Bytes
escape_char c =
    if c == 8
    then b'\\' ∷ b'b' ∷ []
    else if c == 12
    then b'\\' ∷ b'f' ∷ []
    else if c == 10
    then b'\\' ∷ b'n' ∷ []
    else if c == 13
    then b'\\' ∷ b'r' ∷ []
    else if c == 9
    then b'\\' ∷ b't' ∷ []
    else if c == b'"'
    then b'\\' ∷ b'"' ∷ []
    else if c == b'\\'
    then b'\\' ∷ b'\\' ∷ []
    else if ltb c 0x20
    then b'\\' ∷ b'u' ∷ b'0' ∷ b'0' ∷ hex_digit (c / 16) ∷ hex_digit (c % 16) ∷ []
    else c ∷ []

-- `bkJsonEscape`, up to the first 0.
unfoldable pub json_escape : Bytes → Bytes
json_escape [] = []
json_escape (c ∷ value) = if c == 0 then [] else escape_char c ++ json_escape value
