-- ===== src/Strings.antt =====
-- The string helpers of bklib/bklib.cpp. A `string` is the list of its bytes; `tolower` and
-- `isdigit` are those of the C locale.
pub mod Trim
pub mod Replace
pub mod Fold
pub mod Split
use bkjs_utils.Prelude.{
  ℕ, zero, suc, ◌+◌, ◌-◌, Bytes, List, [], ◌∷◌, ◌++◌, Bool, true, false, not, ◌&&◌, ◌||◌, Option,
  none, some, ◌>>=◌, ◌==◌, if◌then◌else◌, leb, length, take, drop, map, string_eq,
}

-- `tolower`
unfoldable pub tolower : ℕ → ℕ
tolower c = if leb 65 c && leb c 90 then c + 32 else c

-- `isdigit`
unfoldable pub isdigit : ℕ → Bool
isdigit c = leb 48 c && leb c 57

-- `bkStrNumeric`
unfoldable pub str_numeric : Bytes → Bool
str_numeric [] = true
str_numeric (c ∷ str) = (isdigit c || (c == 46) || (c == 45)) && str_numeric str

-- `delim.find(c) != npos`
unfoldable pub occurs : ℕ → Bytes → Bool
occurs c [] = false
occurs c (d ∷ delim) = (c == d) || occurs c delim

-- `find_first_not_of`
pub find_first_not_of : Bytes → Bytes → Option ℕ
find_first_not_of delim [] = none
find_first_not_of delim (c ∷ str) =
    if occurs c delim then (do i ← find_first_not_of delim str; some (suc i)) else some 0

-- `find_last_not_of`
pub find_last_not_of : Bytes → Bytes → Option ℕ
find_last_not_of delim [] = none
find_last_not_of delim (c ∷ str) = elim (find_last_not_of delim str) [
  | some j ↦ some (suc j)
  | none ↦ if occurs c delim then none else some 0
]

-- `bkStrTrim`
pub str_trim : Bytes → Bytes → Bytes
str_trim str delim = elim (find_first_not_of delim str) [
  | none ↦ []
  | some i ↦ elim (find_last_not_of delim str) [
    | none ↦ drop i str
    | some j ↦ take (j - i + 1) (drop i str)
  ]
]

-- `bkStrRtrim`
pub str_rtrim : Bytes → Bytes → Bytes
str_rtrim str delim = elim (find_last_not_of delim str) [ none ↦ str | some j ↦ take (j + 1) str ]

-- The text begins with the word.
unfoldable pub starts_with : Bytes → Bytes → Bool
starts_with [] text = true
starts_with (c ∷ word) [] = false
starts_with (c ∷ word) (d ∷ text) = (c == d) && starts_with word text

-- `find`
pub find : Bytes → Bytes → Option ℕ
find word [] = if starts_with word [] then some 0 else none
find word (c ∷ text) =
    if starts_with word (c ∷ text) then some 0 else (do n ← find word text; some (suc n))

-- The loop of `bkStrReplace` on what is behind `prev`, where `next` stands too, with a bound on its
-- rounds; `none` is a loop that goes on.
pub replace_loop : Bytes → Bytes → ℕ → Bytes → Option Bytes
replace_loop word replace zero value = none
replace_loop word replace (suc rounds) value = elim (find word value) [
  | none ↦ some value
  | some n ↦ do
    rc ← replace_loop word replace rounds (drop (n + length word) value)
    some (take n value ++ (replace ++ rc))
]

-- `bkStrReplace` of `word`, the argument `search`.
pub str_replace : ℕ → Bytes → Bytes → Bytes → Option Bytes
str_replace rounds value word replace = replace_loop word replace rounds value

-- `bkToString`
unfoldable pub to_string : List Bytes → Bytes → Bytes
to_string [] delim = []
to_string (s ∷ []) delim = s
to_string (s ∷ t ∷ list) delim = s ++ (delim ++ to_string (t ∷ list) delim)

-- `bkStrToLower`
pub str_to_lower : Bytes → Bytes
str_to_lower word = map tolower word

-- `bkStrContains`
pub str_contains : List Bytes → Bytes → Bool
str_contains [] key = false
str_contains (s ∷ list) key = string_eq s key || str_contains list key

-- The loop of `bkStrEqual`.
pub equal_loop : Bytes → Bytes → Bool
equal_loop (c ∷ a) (d ∷ b) = if not (tolower c == tolower d) then false else equal_loop a b
equal_loop _ _ = true

-- `bkStrEqual`
pub str_equal : Bytes → Bytes → Bool
str_equal a b = if not (length b == length a) then false else equal_loop a b
