-- ===== src/AhoCorasick/Combine.antt =====
-- The object `bkAhoCorasick` of bklib/bklib.cpp and bklib/bklib.h: `add`, `addJson`, `setMode`,
-- `modeName`, `reset` and the whole of `search` with the combination of the values. A mode is an
-- `int`, and so is a value; `none` is undefined.
pub mod Values
pub mod Whole
use bkjs_utils.Prelude.{
  ℕ, zero, suc, ◌+◌, Bytes, List, [], ◌∷◌, ◌++◌, map, Bool, true, false, not, ◌&&◌, ◌||◌, Option,
  none, some, ◌>>=◌, ◌==◌, ltb, if◌then◌else◌, codes, string_eq, length, get_or,
}
use bkjs_utils.Prelude.Int.{ℤ, int_leb, int_eq, ◌+ℤ◌, ◌*ℤ◌, int_div, int_max, int_min, to_int}
use bkjs_utils.AhoCorasick.{Prepared, prepare}
use bkjs_utils.AhoCorasick.Search.{Counts, initial_alphabet, set_alphabet, no_counts, count_all}

-- `Word`
pub record Word : Type 0 where
  pub word : Bytes
  pub value : ℤ

-- `CW_MODE`
abbrev pub cw_sum : ℕ
cw_sum = 0

abbrev pub cw_sumv : ℕ
cw_sumv = 1

abbrev pub cw_min : ℕ
cw_min = 2

abbrev pub cw_minv : ℕ
cw_minv = 3

abbrev pub cw_max : ℕ
cw_max = 4

abbrev pub cw_maxv : ℕ
cw_maxv = 5

abbrev pub cw_avg : ℕ
cw_avg = 6

abbrev pub cw_avgv : ℕ
cw_avgv = 7

abbrev pub cw_mul : ℕ
cw_mul = 8

abbrev pub cw_mulv : ℕ
cw_mulv = 9

abbrev pub cw_any : ℕ
cw_any = 10

abbrev pub cw_anyv : ℕ
cw_anyv = 11

-- `_cwModes`
abbrev pub cw_modes : List Bytes
cw_modes =
    codes "SUM"
    ∷ codes "SUMV"
    ∷ codes "MIN"
    ∷ codes "MINV"
    ∷ codes "MAX"
    ∷ codes "MAXV"
    ∷ codes "AVG"
    ∷ codes "AVGV"
    ∷ codes "MUL"
    ∷ codes "MULV"
    ∷ codes "ANY"
    ∷ codes "ANYV"
    ∷ []

-- The loop of `setMode`; a name that is not there leaves the number of the names.
unfoldable pub mode_loop : List Bytes → Bytes → ℕ → ℕ
mode_loop [] name mode = mode
mode_loop (known ∷ modes) name mode =
    let next = mode_loop modes name (suc mode) in if string_eq name known then mode else next

-- `setMode`, which returns `mode`.
unfoldable pub set_mode : Bytes → ℕ → ℕ
set_mode name mode = if length name == 0 then mode else mode_loop cw_modes name 0

-- `modeName`
unfoldable pub mode_name : ℕ → Bytes
mode_name mode = if ltb mode (length cw_modes) then get_or cw_modes mode [] else codes "SUM"

-- `i < j`
abbrev pub int_ltb : ℤ → ℤ → Bool
int_ltb i j = not (int_leb j i)

abbrev pub is_zero : ℤ → Bool
is_zero i = int_eq i (ℤ.pos 0)

-- The value before the loop over the counters.
unfoldable pub first_value : ℕ → ℤ
first_value mode =
    if mode == cw_max || mode == cw_max
    then int_min
    else if mode == cw_min || mode == cw_minv
    then int_max
    else ℤ.pos 0

-- The switch for a word with the product `v`, and whether the loop ends.
unfoldable pub combine_word : ℕ → ℤ → ℤ → ℤ → Option (ℤ × Bool)
combine_word mode own v value =
    if mode == cw_any
    then some ((if is_zero value then v else value), is_zero value)
    else if mode == cw_anyv
    then some ((if is_zero value then own else value), is_zero value)
    else if mode == cw_min
    then some ((if int_ltb v value then v else value), false)
    else if mode == cw_minv
    then some ((if int_ltb own value then own else value), false)
    else if mode == cw_max
    then some ((if int_ltb value v then v else value), false)
    else if mode == cw_maxv
    then some ((if int_ltb value own then own else value), false)
    else do
      next ← to_int (
          if mode == cw_mul
          then value *ℤ v
          else if mode == cw_mulv
          then value *ℤ own
          else if mode == cw_avgv || mode == cw_sumv
          then value +ℤ own
          else value +ℤ v)
      some (next, false)

-- The loop over the counters.
unfoldable pub combine_words : ℕ → List Word → List ℕ → ℤ → Option ℤ
combine_words mode (w ∷ list) (n ∷ counters) value = elim (n == 0) [
  | true ↦ combine_words mode list counters value
  | false ↦ do
    v ← to_int (w.value *ℤ ℤ.pos n)
    (value', ends) ← combine_word mode w.value v value
    elim ends [ true ↦ some value' | false ↦ combine_words mode list counters value' ]
]
combine_words mode _ _ value = some value

-- `list[0].value`
abbrev pub head_value : List Word → ℤ
head_value [] = ℤ.pos 0
head_value (w ∷ list) = w.value

-- The combination according to the mode, and the steps behind the loop.
unfoldable pub combine : ℕ → List Word → Counts → Option ℤ
combine mode list found = if found.count == 0 then some (ℤ.pos 0) else do
  value ← combine_words mode list found.counters (first_value mode)
  value' ←
      if mode == cw_any && is_zero value && not (is_zero (head_value list))
      then to_int (head_value list *ℤ ℤ.pos found.count)
      else some value
  let value'' =
      if mode == cw_anyv && is_zero value' && not (is_zero (head_value list))
      then head_value list
      else value'
  some (if mode == cw_avg || mode == cw_avgv then int_div value'' found.count else value'')

-- `bkAhoCorasick`; `tables` is `none` before `prepare`.
pub record AhoCorasick : Type 0 where
  pub mode : ℕ
  pub list : List Word
  pub alphabet : ℕ → Bool
  pub tables : Option Prepared
  pub found : Counts
  pub value : ℤ

unfoldable pub new_aho_corasick : AhoCorasick
new_aho_corasick = record {
  mode = 0;
  list = [];
  alphabet = initial_alphabet;
  tables = none;
  found = record { count = 0; counters = [] };
  value = ℤ.pos 0;
}

-- `reset`
unfoldable pub reset : AhoCorasick → AhoCorasick
reset a = record a {
  mode = 0;
  list = [];
  tables = none;
  found = record { count = 0; counters = [] };
  value = ℤ.pos 0;
}

-- `add`
unfoldable pub add : Bytes → ℤ → AhoCorasick → AhoCorasick
add word value a = record a { list = a.list ++ record { word = word; value = value } ∷ [] }

abbrev pub words : List Word → List Bytes
words list = map (λ w. w.word) list

-- `search`: the early return leaves the tables as they are.
unfoldable pub search : Bytes → AhoCorasick → Option AhoCorasick
search text a =
    if length text == 0 || length a.list == 0 || get_or text 0 0 == 0
    then some (record a { found = no_counts (words a.list); value = ℤ.pos 0 })
    else do
      p ← elim a.tables [ some p ↦ some p | none ↦ prepare (words a.list) ]
      found ← count_all a.alphabet p (words a.list) text
      value ← combine a.mode a.list found
      some (record a { tables = some p; found = found; value = value })
