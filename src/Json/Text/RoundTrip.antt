-- ===== src/Json/Text/RoundTrip.antt =====
-- Reading back a string that `bkJsonEscape` made.
use bkjs_utils.Prelude.{
  ℕ, zero, suc, ◌+◌, ◌*◌, ◌/◌, ◌%◌, ◌<◌, ◌≤◌, ◌≡◌, ◌≢◌, refl, arith, ap, ◌∙◌, Bytes, [], ◌∷◌, ◌++◌,
  true, false, some, ==-false, ltb, ltb→lt, le→leb, u32, length, length-append, append_assoc,
  append-nil, All, Bool-cases, inl, inr,
}
use bkjs_utils.Strings.{isdigit}
use bkjs_utils.Json.Text.{
  ok, overrun, hex_value, hatoui, utf8, unicode_escape, escape_sequence, simple_escape,
  string_round, string_loop, read_string, read_number, ends_number, hex_digit, escape_char,
  json_escape,
}

hex_value-hex_digit : (d : ℕ) → d < 16 → hex_value (hex_digit d) ≡ some d
unfolding hex_value hex_digit isdigit
hex_value-hex_digit d h = ground arith

hatoui-step :
    (n result c digit : ℕ) (it : Bytes)
    → hex_value c ≡ some digit
    → hatoui (suc n) result (c ∷ it) ≡ hatoui n (u32 (16 * result + digit)) it
unfolding hatoui hex_digit
hatoui-step n result c digit it h = rw (hatoui, h)

hatoui_control :
    (c : ℕ) (rest : Bytes)
    → c < 0x20
    → hatoui 4 0 (b'0' ∷ b'0' ∷ hex_digit (c / 16) ∷ hex_digit (c % 16) ∷ rest) ≡ (c, 0)
unfolding hatoui hex_digit
hatoui_control c rest h =
    let zero_value : hex_value 48 ≡ some 0 = hex_value-hex_digit 0 (omega arith) in
    let high = hex_value-hex_digit (c / 16) (omega arith) in
    let low = hex_value-hex_digit (c % 16) (omega arith) in
    let sum : u32 (16 * u32 (16 * 0 + c / 16) + c % 16) ≡ c = omega arith in
    let tail = hex_digit (c / 16) ∷ hex_digit (c % 16) ∷ rest in
    hatoui-step 3 0 48 0 (48 ∷ tail) zero_value
    ∙ hatoui-step 2 0 48 0 tail zero_value
    ∙ hatoui-step 1 0 (hex_digit (c / 16)) (c / 16) (hex_digit (c % 16) ∷ rest) high
    ∙ hatoui-step 0 (u32 (16 * 0 + c / 16)) (hex_digit (c % 16)) (c % 16) rest low
    ∙ ap (λ r. (r, 0)) sum

utf8_small : (c : ℕ) → c ≤ 0x7f → utf8 c ≡ c ∷ []
unfolding utf8
utf8_small c h = rw (le→leb c 0x7f h)

unicode_escape-hex :
    (c : ℕ) (rest : Bytes)
    → c < 0x20
    → unicode_escape (b'0' ∷ b'0' ∷ hex_digit (c / 16) ∷ hex_digit (c % 16) ∷ rest)
      ≡ ok (some (c ∷ []), rest)
unfolding unicode_escape
unicode_escape-hex c rest h =
    let one : utf8 c ≡ c ∷ [] = utf8_small c (omega arith) in
    rw (unicode_escape, hatoui_control c rest h, one)

-- The rounds over the escape of a character append that character.
string_loop-escape_char :
    (rounds : ℕ) (c : ℕ) (rest val : Bytes)
    → string_loop (suc rounds) (escape_char c ++ rest) val ≡ string_loop rounds rest (val ++ c ∷ [])
unfolding string_loop string_round escape_sequence simple_escape escape_char
string_loop-escape_char rounds c rest val = elim (Bool-cases (ltb c 0x20)) [
  | inl small ↦ let hex = unicode_escape-hex c rest (ltb→lt c 0x20 small) in ground (arith, hex)
  | inr large ↦ ground arith
]

length-escape_char : (c : ℕ) → 0 < length (escape_char c)
unfolding escape_char
length-escape_char c = ground arith

string_loop-json_escape :
    (rounds : ℕ) (value rest val : Bytes)
    → All (λ c. c ≢ 0) value
    → length value < rounds
    → string_loop rounds (json_escape value ++ b'"' ∷ rest) val ≡ ok (val ++ value, rest)
unfolding string_loop string_round json_escape
string_loop-json_escape zero value rest val h r = absurd (omega arith)
string_loop-json_escape (suc rounds) [] rest val h r = rw (append-nil val)
string_loop-json_escape (suc rounds) (c ∷ value) rest val (hc, h) r =
    let step = string_loop-escape_char rounds c (json_escape value ++ b'"' ∷ rest) val in
    let further = string_loop-json_escape rounds value rest (val ++ c ∷ []) h (omega arith) in
    rw (
      ==-false c 0 hc,
      append_assoc (escape_char c) (json_escape value) (b'"' ∷ rest),
      step,
      further,
      append_assoc val (c ∷ []) value,
    )

length-json_escape :
    (value : Bytes) → All (λ c. c ≢ 0) value → length value ≤ length (json_escape value)
unfolding json_escape
length-json_escape [] h = omega arith
length-json_escape (c ∷ value) (hc, h) = rw (==-false c 0 hc) (
    omega (
      arith,
      length-escape_char c,
      length-append (escape_char c) (json_escape value),
      length-json_escape value h,
    ))

-- A string that holds no 0 is what the parser reads of its escaped form behind an opening quote,
-- whatever follows the closing quote.
pub read_string-json_escape :
    (value rest : Bytes)
    → All (λ c. c ≢ 0) value
    → read_string (json_escape value ++ b'"' ∷ rest) ≡ ok (value, rest)
unfolding read_string
read_string-json_escape value rest h =
    string_loop-json_escape (suc (length (json_escape value ++ b'"' ∷ rest))) value rest [] h
      (omega (arith, length-json_escape value h, length-append (json_escape value) (b'"' ∷ rest)))

-- A character that stands for itself in a string.
abbrev pub IsPlain : ℕ → Type 0
IsPlain c = (0x20 ≤ c) × ((c ≢ b'"') × (c ≢ b'\\'))

json_escape_plain : (name : Bytes) → All IsPlain name → json_escape name ≡ name
unfolding json_escape escape_char
json_escape_plain [] h = refl
json_escape_plain (c ∷ name) ((low, (quote, slash)), h) =
    let ih = json_escape_plain name h in ground (arith, ih)

plain-nonzero : (name : Bytes) → All IsPlain name → All (λ c. c ≢ 0) name
plain-nonzero [] h = tt
plain-nonzero (c ∷ name) ((low, _), h) = (λ z. omega arith, plain-nonzero name h)

pub read_string_plain :
    (name rest : Bytes) → All IsPlain name → read_string (name ++ b'"' ∷ rest) ≡ ok (name, rest)
read_string_plain name rest h =
    rw (json_escape_plain name h) at (read_string-json_escape name rest (plain-nonzero name h))

pub read_number_exact :
    (value rest : Bytes) (c : ℕ)
    → All (λ d. ends_number d ≡ false) value
    → ends_number c ≡ true
    → read_number (value ++ c ∷ rest) ≡ ok (value, c ∷ rest)
unfolding read_number
read_number_exact [] rest c h e = rw e
read_number_exact (d ∷ value) rest c (hd, h) e = rw (hd, read_number_exact value rest c h e)

pub read_number_overrun :
    (value : Bytes) → All (λ d. ends_number d ≡ false) value → read_number value ≡ overrun
unfolding read_number
read_number_overrun [] h = refl
read_number_overrun (d ∷ value) (hd, h) = rw (hd, read_number_overrun value h)
