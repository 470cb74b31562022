-- ===== src/AhoCorasick/Combine/Values.antt =====
-- The combination of the values of `bkAhoCorasick`, by mode.
use bkjs_utils.Prelude.{
  ℕ, ◌<◌, ◌≡◌, refl, sym, ap, subst, ◌∙◌, arith, List, [], ◌∷◌, Bool, true, false, not, some, ◌==◌,
  if◌then◌else◌, All, Bool-cases, ◌⊎◌, inl, inr,
}
use mathlib.Core.List.{Memᴰ}
use bkjs_utils.Prelude.Int.{ℤ, int_leb, ◌*ℤ◌, to_int, int_max, int_min}
use bkjs_utils.AhoCorasick.Search.{Counts}
use bkjs_utils.AhoCorasick.Combine.{
  Word, cw_min, cw_minv, cw_max, cw_maxv, cw_mul, cw_mulv, first_value, combine_word, combine_words,
  combine,
}

int_leb_refl : (i : ℤ) → int_leb i i ≡ true
int_leb_refl (ℤ.pos m) = ground arith
int_leb_refl (ℤ.negsuc m) = ground arith

int_leb_trans : (i j k : ℤ) → int_leb i j ≡ true → int_leb j k ≡ true → int_leb i k ≡ true
int_leb_trans (ℤ.pos l) (ℤ.pos m) (ℤ.pos n) e f = ground (e, f, arith)
int_leb_trans (ℤ.pos l) (ℤ.pos m) (ℤ.negsuc n) e f = f
int_leb_trans (ℤ.pos l) (ℤ.negsuc m) k e f = absurd (cc e)
int_leb_trans (ℤ.negsuc l) (ℤ.pos m) (ℤ.pos n) e f = refl
int_leb_trans (ℤ.negsuc l) (ℤ.pos m) (ℤ.negsuc n) e f = absurd (cc f)
int_leb_trans (ℤ.negsuc l) (ℤ.negsuc m) (ℤ.pos n) e f = refl
int_leb_trans (ℤ.negsuc l) (ℤ.negsuc m) (ℤ.negsuc n) e f = ground (e, f, arith)

int_leb_total : (i j : ℤ) → int_leb i j ≡ false → int_leb j i ≡ true
int_leb_total (ℤ.pos l) (ℤ.pos m) e = ground (e, arith)
int_leb_total (ℤ.pos l) (ℤ.negsuc m) e = refl
int_leb_total (ℤ.negsuc l) (ℤ.pos m) e = absurd (cc e)
int_leb_total (ℤ.negsuc l) (ℤ.negsuc m) e = ground (e, arith)

-- `v` is the product of the value of a word and its counter.
abbrev product : Word → ℕ → ℤ
product w n = w.value *ℤ ℤ.pos n

-- No product leaves the range of `int`.
abbrev pub Fits : List Word → List ℕ → Type 0
Fits (w ∷ list) (n ∷ counters) = (to_int (product w n) ≡ some (product w n)) × Fits list counters
Fits _ _ = Unit

-- The modes that choose one of the values or of the products.
pub data Choice : Type 0 where
  least least_value greatest greatest_value : Choice

abbrev pub mode_of : Choice → ℕ
mode_of Choice.least = cw_min
mode_of Choice.least_value = cw_minv
mode_of Choice.greatest = cw_max
mode_of Choice.greatest_value = cw_maxv

-- What is chosen from.
abbrev key : Choice → ℤ → ℤ → ℤ
key Choice.least own v = v
key Choice.least_value own v = own
key Choice.greatest own v = v
key Choice.greatest_value own v = own

-- `i` comes before `j`, or is it, in the order of the mode.
abbrev pub before : Choice → ℤ → ℤ → Bool
before Choice.least i j = int_leb i j
before Choice.least_value i j = int_leb i j
before Choice.greatest i j = int_leb j i
before Choice.greatest_value i j = int_leb j i

before_refl : (choice : Choice) (i : ℤ) → before choice i i ≡ true
before_refl Choice.least i = int_leb_refl i
before_refl Choice.least_value i = int_leb_refl i
before_refl Choice.greatest i = int_leb_refl i
before_refl Choice.greatest_value i = int_leb_refl i

before_trans :
    (choice : Choice) (i j k : ℤ)
    → before choice i j ≡ true
    → before choice j k ≡ true
    → before choice i k ≡ true
before_trans Choice.least i j k e f = int_leb_trans i j k e f
before_trans Choice.least_value i j k e f = int_leb_trans i j k e f
before_trans Choice.greatest i j k e f = int_leb_trans k j i f e
before_trans Choice.greatest_value i j k e f = int_leb_trans k j i f e

before_total : (choice : Choice) (i j : ℤ) → before choice i j ≡ false → before choice j i ≡ true
before_total Choice.least i j e = int_leb_total i j e
before_total Choice.least_value i j e = int_leb_total i j e
before_total Choice.greatest i j e = int_leb_total j i e
before_total Choice.greatest_value i j e = int_leb_total j i e

-- The keys of the words that were found.
unfoldable pub found_keys : Choice → List Word → List ℕ → List ℤ
found_keys choice (w ∷ list) (n ∷ counters) =
    let rest = found_keys choice list counters in
    if n == 0 then rest else key choice w.value (product w n) ∷ rest
found_keys choice _ _ = []

abbrev pick : Choice → ℤ → ℤ → ℤ
pick choice x value = if not (before choice value x) then x else value

module _ (choice : Choice) where
  combine_word-pick :
      (own v value : ℤ)
      → combine_word (mode_of choice) own v value
        ≡ some (pick choice (key choice own v) value, false)
  unfolding combine_word
  combine_word-pick own v value =
      elim choice
        as (λ choice.
          combine_word (mode_of choice) own v value
          ≡ some (pick choice (key choice own v) value, false)) [
            | least ↦ refl
            | least_value ↦ refl
            | greatest ↦ refl
            | greatest_value ↦ refl
          ]

  skipped :
      (w : Word) (list : List Word) (n : ℕ) (counters : List ℕ) (value : ℤ)
      → (n == 0) ≡ true
      → combine_words (mode_of choice) (w ∷ list) (n ∷ counters) value
        ≡ combine_words (mode_of choice) list counters value
  unfolding combine_words
  skipped w list n counters value e = rw (combine_words, e)

  picked :
      (w : Word) (list : List Word) (n : ℕ) (counters : List ℕ) (value : ℤ)
      → (n == 0) ≡ false
      → to_int (product w n) ≡ some (product w n)
      → combine_words (mode_of choice) (w ∷ list) (n ∷ counters) value
        ≡ combine_words
            (mode_of choice)
            list
            counters
            (pick choice (key choice w.value (product w n)) value)
  unfolding combine_words
  picked w list n counters value e fits =
      rw (combine_words, e, fits, combine_word-pick w.value (product w n) value)

  -- What the loop comes to: one of the keys or the first value, and none of these before it.
  abbrev pub Extreme : ℤ → ℤ → List ℤ → Type 0
  Extreme z value keys =
      (before choice z value ≡ true)
      × All (λ k. before choice z k ≡ true) keys
      × ((z ≡ value) ⊎ Memᴰ z keys)

  pick_first :
      (x value z : ℤ)
      → before choice z (pick choice x value) ≡ true
      → (before choice z x ≡ true) × (before choice z value ≡ true)
  pick_first x value z h = elim (Bool-cases (before choice value x)) [
    | inl e ↦
        let same : pick choice x value ≡ value = rw e in
        let first = subst (λ i. before choice z i ≡ true) same h in
        (before_trans choice z value x first e, first)
    | inr e ↦
        let same : pick choice x value ≡ x = rw e in
        let first = subst (λ i. before choice z i ≡ true) same h in
        (first, before_trans choice z x value first (before_total choice value x e))
  ]

  pick_either : (x value : ℤ) → (pick choice x value ≡ value) ⊎ (pick choice x value ≡ x)
  pick_either x value = elim (Bool-cases (before choice value x)) [
    | inl e ↦ inl (rw e)
    | inr e ↦ inr (rw e)
  ]

  found_keys_skip :
      (w : Word) (list : List Word) (n : ℕ) (counters : List ℕ)
      → (n == 0) ≡ true
      → found_keys choice (w ∷ list) (n ∷ counters) ≡ found_keys choice list counters
  unfolding found_keys
  found_keys_skip w list n counters e = rw (found_keys, e)

  found_keys_next :
      (w : Word) (list : List Word) (n : ℕ) (counters : List ℕ)
      → (n == 0) ≡ false
      → found_keys choice (w ∷ list) (n ∷ counters)
        ≡ key choice w.value (product w n) ∷ found_keys choice list counters
  unfolding found_keys
  found_keys_next w list n counters e = rw (found_keys, e)

  combine_words-Extreme :
      (list : List Word) (counters : List ℕ) (value : ℤ)
      → Fits list counters
      → (z : ℤ) × (combine_words (mode_of choice) list counters value ≡ some z)
        × Extreme z value (found_keys choice list counters)
  unfolding combine_words found_keys
  combine_words-Extreme [] counters value fits =
      (value, refl, (before_refl choice value, tt, inl refl))
  combine_words-Extreme (w ∷ list) [] value fits =
      (value, refl, (before_refl choice value, tt, inl refl))
  combine_words-Extreme (w ∷ list) (n ∷ counters) value (fit, fits) = elim (Bool-cases (n == 0)) [
    | inl e ↦
        let (z, ran, extreme) = combine_words-Extreme list counters value fits in
        (
          z,
          skipped w list n counters value e ∙ ran,
          subst (Extreme z value) (sym (found_keys_skip w list n counters e)) extreme,
        )
    | inr e ↦
        let x = key choice w.value (product w n) in
        let (z, ran, (first, all, one_of)) =
          combine_words-Extreme list counters (pick choice x value) fits in
        let (first_x, first_value) = pick_first x value z first in
        (
          z,
          picked w list n counters value e fit ∙ ran,
          subst (Extreme z value) (sym (found_keys_next w list n counters e)) (
            first_value,
            (first_x, all),
            elim one_of [
              | inr later ↦ inr (Memᴰ.tail later)
              | inl here ↦ elim (pick_either x value) [
                | inl kept ↦ inl (here ∙ kept)
                | inr taken ↦ inr (Memᴰ.head (here ∙ taken))
              ]
            ],
          ),
        )
  ]

-- The value that the loop begins with.
abbrev pub start : Choice → ℤ
start Choice.least = int_max
start Choice.least_value = int_max
start Choice.greatest = int_min
start Choice.greatest_value = ℤ.pos 0

combine_run :
    (choice : Choice) (list : List Word) (found : Counts) (z : ℤ)
    → (found.count == 0) ≡ false
    → combine_words (mode_of choice) list found.counters (start choice) ≡ some z
    → combine (mode_of choice) list found ≡ some z
unfolding combine first_value
combine_run Choice.least list found z e ran = rw (combine, e, ran)
combine_run Choice.least_value list found z e ran = rw (combine, e, ran)
combine_run Choice.greatest list found z e ran = rw (combine, e, ran)
combine_run Choice.greatest_value list found z e ran = rw (combine, e, ran)

-- In the modes CW_MIN and CW_MINV the value of a search that found a word is the least, and in the
-- modes CW_MAX and CW_MAXV the greatest, of the products of the words that were found and their
-- counters, or for the modes with a V of the values of these words, and of one more value: INT_MAX,
-- INT_MIN for CW_MAX, and 0 for CW_MAXV. No product leaves the range of `int`.
pub combine-Extreme :
    (choice : Choice) (list : List Word) (found : Counts)
    → 0 < found.count
    → Fits list found.counters
    → (z : ℤ) × (combine (mode_of choice) list found ≡ some z)
      × Extreme choice z (start choice) (found_keys choice list found.counters)
combine-Extreme choice list found h fits =
    let (z, ran, extreme) = combine_words-Extreme choice list found.counters (start choice) fits in
    (z, combine_run choice list found z (ground (h, arith)) ran, extreme)

zero_times : (i : ℤ) → ℤ.pos 0 *ℤ i ≡ ℤ.pos 0
zero_times (ℤ.pos n) = ap ℤ.pos (omega arith)
zero_times (ℤ.negsuc n) = ground arith

-- The modes of products.
pub data Factor : Type 0 where
  by_product by_value : Factor

abbrev pub factor_mode : Factor → ℕ
factor_mode Factor.by_product = cw_mul
factor_mode Factor.by_value = cw_mulv

module _ (factor : Factor) where
  zero_stays :
      (own v : ℤ) → combine_word (factor_mode factor) own v (ℤ.pos 0) ≡ some (ℤ.pos 0, false)
  unfolding combine_word
  zero_stays own v =
      elim factor
        as (λ factor. combine_word (factor_mode factor) own v (ℤ.pos 0) ≡ some (ℤ.pos 0, false)) [
          | by_product ↦ rw (combine_word, zero_times v)
          | by_value ↦ rw (combine_word, zero_times own)
        ]

  combine_words_zero :
      (list : List Word) (counters : List ℕ)
      → Fits list counters
      → combine_words (factor_mode factor) list counters (ℤ.pos 0) ≡ some (ℤ.pos 0)
  unfolding combine_words
  combine_words_zero [] counters fits = refl
  combine_words_zero (w ∷ list) [] fits = refl
  combine_words_zero (w ∷ list) (n ∷ counters) (fit, fits) =
      let rest = combine_words_zero list counters fits in
      elim (Bool-cases (n == 0)) [
        | inl e ↦ rw (combine_words, e) rest
        | inr e ↦ rw (combine_words, e, fit, zero_stays w.value (product w n)) rest
      ]

-- In the modes CW_MUL and CW_MULV the value of a search is 0, whatever was found, where no product
-- leaves the range of `int`.
combine_zero :
    (factor : Factor) (list : List Word) (found : Counts)
    → Fits list found.counters
    → combine (factor_mode factor) list found ≡ some (ℤ.pos 0)
unfolding combine first_value
combine_zero factor list found fits = elim (Bool-cases (found.count == 0)) [
  | inl e ↦ rw (combine, e)
  | inr e ↦
      let ran = combine_words_zero factor list found.counters fits in
      elim factor
          as (λ factor.
            combine_words (factor_mode factor) list found.counters (ℤ.pos 0) ≡ some (ℤ.pos 0)
            → combine (factor_mode factor) list found ≡ some (ℤ.pos 0)) [
              | by_product ↦ λ ran. rw (combine, e, ran)
              | by_value ↦ λ ran. rw (combine, e, ran)
            ]
        ran
]
