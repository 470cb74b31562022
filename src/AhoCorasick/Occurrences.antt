-- ===== src/AhoCorasick/Occurrences.antt =====
-- `bkAhoCorasick::search` beside `bkCountWords`.
use bkjs_utils.Prelude.{
  same_bool, same_bool-true, all_below, all_below-true, ℕ, zero, suc, ◌+◌, ◌-◌, ◌<◌, ◌≡◌, refl, sym,
  ap, ◌∙◌, arith, Bytes, [], ◌∷◌, Bool, true, false, not, ◌==◌, ltb, leb, if◌then◌else◌, length,
  get_or, Bool-cases, inl, inr,
}
use bkjs_utils.Strings.{tolower}
use bkjs_utils.CountWords.{is_delim, is_delimited, count_words}
use bkjs_utils.CountWords.Spec.{word_at, count_below, occurrences}
use bkjs_utils.CountWords.Search.{IsText, count_words-occurrences}
use bkjs_utils.AhoCorasick.Search.{initial_alphabet}
use bkjs_utils.AhoCorasick.Hits.{lower, IsAscii, length-lower, delimited, ends_at, ends_at_empty}
use bkjs_utils.AhoCorasick.Count.{get_or-IsAscii}

all_agree : all_below 128 (λ c. same_bool (is_delim (tolower c)) (not (initial_alphabet c))) ≡ true
unfolding is_delim tolower initial_alphabet
all_agree = refl

-- The characters that are not in the alphabet are the delimiters.
delimiters : (c : ℕ) → c < 128 → is_delim (tolower c) ≡ not (initial_alphabet c)
delimiters c h = same_bool-true (is_delim (tolower c)) (not (initial_alphabet c)) (
    all_below-true 128 (λ c. same_bool (is_delim (tolower c)) (not (initial_alphabet c))) all_agree
      c h)

get_or-lower : (text : Bytes) (i : ℕ) → get_or (lower text) i 0 ≡ tolower (get_or text i 0)
unfolding tolower
get_or-lower [] i = refl
get_or-lower (c ∷ text) zero = refl
get_or-lower (c ∷ text) (suc i) = get_or-lower text i

module _ (text : Bytes) (ascii : IsAscii text) where
  delimiter_at :
      (i : ℕ) → is_delim (get_or (lower text) i 0) ≡ not (initial_alphabet (get_or text i 0))
  delimiter_at i =
      ap is_delim (get_or-lower text i) ∙ delimiters (get_or text i 0) (get_or-IsAscii text ascii i)

  delimited-lower : (s e : ℕ) → is_delimited (lower text) s e ≡ delimited initial_alphabet text s e
  unfolding is_delimited
  delimited-lower s e = rw (is_delimited, delimiter_at (s - 1), delimiter_at e, length-lower text)

  -- The end of the word at a place where it may start.
  ends_at-word_at :
      (word : Bytes) (s i : ℕ)
      → 0 < length word
      → suc i ≡ s + length word
      → ends_at initial_alphabet text word i ≡ word_at (lower word) (lower text) s
  unfolding ends_at
  ends_at-word_at word s i h e =
      let start : suc i - length word ≡ s = omega (arith, e) in
      let fits : leb (length word) (suc i) ≡ true = ground (e, arith) in
      let full : ltb 0 (length word) ≡ true = ground (h, arith) in
      rw (ends_at, fits, full, start, length-lower word, e, delimited-lower s (s + length word))

  ends_at_early :
      (word : Bytes) (i : ℕ) → suc i < length word → ends_at initial_alphabet text word i ≡ false
  unfolding ends_at
  ends_at_early word i h = ground (h, arith)

count_below_none : (n : ℕ) (p : ℕ → Bool) → ((i : ℕ) → i < n → p i ≡ false) → count_below n p ≡ 0
unfolding count_below
count_below_none zero p h = refl
count_below_none (suc n) p h =
    rw (h n (omega arith)) (count_below_none n p (λ i less. h i (omega (arith, less))))

-- Where the first `k` numbers fail, the others are counted from there.
count_below_from :
    (k m : ℕ) (p q : ℕ → Bool)
    → ((i : ℕ) → i < k → p i ≡ false)
    → ((s : ℕ) → p (k + s) ≡ q s)
    → count_below (k + m) p ≡ count_below m q
unfolding count_below
count_below_from k zero p q h same =
    let number : k + 0 ≡ k = omega arith in rw number (count_below_none k p h)
count_below_from k (suc m) p q h same =
    let number : k + suc m ≡ suc (k + m) = omega arith in
    let rest = count_below_from k m p q h same in rw (number, same m, rest)

module _ (text : Bytes) (ascii : IsAscii text) where
  ends_at-occurrences :
      (word : Bytes)
      → 0 < length word
      → count_below (length text) (ends_at initial_alphabet text word)
        ≡ occurrences (lower word) (lower text)
  unfolding occurrences count_below
  ends_at-occurrences word h =
      let k = length word - 1 in
      let m = suc (length text) - length word in
      let places : suc (length (lower text)) - length (lower word) ≡ m =
        omega (arith, length-lower text, length-lower word) in
      elim (Bool-cases (leb (length word) (length text))) [
        | inl fits ↦
            let whole : length text ≡ k + m = ground (fits, h, arith) in
            ap (λ n. count_below n (ends_at initial_alphabet text word)) whole
            ∙ count_below_from k m (ends_at initial_alphabet text word)
                (word_at (lower word) (lower text))
                (λ i less. ends_at_early text ascii word i (omega (arith, less)))
                (λ s. ends_at-word_at text ascii word s (k + s) h (omega (arith, h)))
            ∙ ap (λ n. count_below n (word_at (lower word) (lower text))) (sym places)
        | inr long ↦
            let no_place : m ≡ 0 = ground (long, arith) in
            count_below_none (length text) (ends_at initial_alphabet text word)
              (λ i less. ends_at_early text ascii word i (ground (long, less, arith)))
            ∙ sym (ap (λ n. count_below n (word_at (lower word) (lower text))) (places ∙ no_place))
      ]

  lower-IsText : (word : Bytes) → IsText word → IsText (lower word)
  unfolding tolower
  lower-IsText [] h = tt
  lower-IsText (c ∷ word) (solid, h) =
      (λ e. absurd (solid (ground (e, arith))), lower-IsText word h)

  pub ends_at-count_words :
      (word : Bytes)
      → IsText word
      → count_below (length text) (ends_at initial_alphabet text word)
        ≡ count_words (lower word) (lower text) true
  ends_at-count_words [] solid =
      count_below_none (length text) (ends_at initial_alphabet text [])
        (λ i less. ends_at_empty initial_alphabet text i [] refl)
      ∙ sym (count_words-occurrences [] (lower text) true solid)
  ends_at-count_words (c ∷ word) solid =
      let full : (length (lower (c ∷ word)) == 0) ≡ false = ground arith in
      ends_at-occurrences (c ∷ word) (omega arith)
      ∙ sym (
          count_words-occurrences (lower (c ∷ word)) (lower text) true
            (lower-IsText (c ∷ word) solid)
          ∙ ap (λ b. if b then 0 else occurrences (lower (c ∷ word)) (lower text)) full)
