-- ===== src/AhoCorasick/Tally.antt =====
-- What the loop of `bkAhoCorasick::search` over the words counts.
use bkjs_utils.Prelude.{
  ℕ, zero, suc, ◌+◌, ◌≤◌, ◌<◌, ◌≡◌, refl, sym, ap, subst, ◌∙◌, arith, Bytes, List, [], ◌∷◌, Bool,
  true, false, ◌&&◌, some, ◌==◌, ltb, ◌^◌, lt→ltb, if◌then◌else◌, length, get_or, get_elem?,
  Bool-cases, inl, inr,
}
use bkjs_utils.AhoCorasick.Search.{
  bump, Counts, is_word, count_hit, search_words, any_bit, no_counts,
}
use bkjs_utils.AhoCorasick.Hits.{ends_at}

unfoldable pub sum : List ℕ → ℕ
sum [] = 0
sum (n ∷ counters) = n + sum counters

-- 1 for a hit.
abbrev pub one : Bool → ℕ
one b = if b then 1 else 0

length-bump : (j : ℕ) (counters : List ℕ) → length (bump j counters) ≡ length counters
unfolding bump
length-bump j [] = refl
length-bump zero (n ∷ counters) = refl
length-bump (suc j) (n ∷ counters) = ap suc (length-bump j counters)

sum-bump :
    (j : ℕ) (counters : List ℕ) → j < length counters → sum (bump j counters) ≡ suc (sum counters)
unfolding bump sum
sum-bump j [] h = absurd (omega arith)
sum-bump zero (n ∷ counters) h = omega arith
sum-bump (suc j) (n ∷ counters) h = omega (arith, sum-bump j counters (omega arith))

get_or-bump :
    (j : ℕ) (counters : List ℕ)
    → j < length counters
    → get_or (bump j counters) j 0 ≡ suc (get_or counters j 0)
unfolding bump
get_or-bump j [] h = absurd (omega arith)
get_or-bump zero (n ∷ counters) h = refl
get_or-bump (suc j) (n ∷ counters) h = get_or-bump j counters (omega arith)

bump_other :
    (j m : ℕ) (counters : List ℕ)
    → (j == m) ≡ false
    → get_or (bump j counters) m 0 ≡ get_or counters m 0
unfolding bump
bump_other j m [] h = refl
bump_other zero zero (n ∷ counters) h = absurd (ground (h, arith))
bump_other zero (suc m) (n ∷ counters) h = refl
bump_other (suc j) zero (n ∷ counters) h = refl
bump_other (suc j) (suc m) (n ∷ counters) h = bump_other j m counters (ground (h, arith))

-- The counters add up to the count.
abbrev pub IsTotal : Counts → Type 0
IsTotal found = found.count ≡ sum found.counters

-- The counts after a hit, or not, of the word number `j`.
abbrev counted : ℕ → Bool → Counts → Counts
counted j here found =
    if here then record { count = suc found.count; counters = bump j found.counters } else found

counted-length :
    (j : ℕ) (here : Bool) (found : Counts)
    → length (counted j here found).counters ≡ length found.counters
counted-length j true found = length-bump j found.counters
counted-length j false found = refl

counted-IsTotal :
    (j : ℕ) (here : Bool) (found : Counts)
    → j < length found.counters
    → IsTotal found
    → IsTotal (counted j here found)
counted-IsTotal j true found h e = ap suc e ∙ sym (sum-bump j found.counters h)
counted-IsTotal j false found h e = e

counted_at :
    (j : ℕ) (here : Bool) (found : Counts)
    → j < length found.counters
    → get_or (counted j here found).counters j 0 ≡ get_or found.counters j 0 + one here
counted_at j true found h = omega (arith, get_or-bump j found.counters h)
counted_at j false found h = omega arith

counted_other :
    (j m : ℕ) (here : Bool) (found : Counts)
    → (j == m) ≡ false
    → get_or (counted j here found).counters m 0 ≡ get_or found.counters m 0
counted_other j m true found h = bump_other j m found.counters h
counted_other j m false found h = refl

count_hit-counted :
    (j : ℕ) (here : Bool) (found : Counts)
    → suc found.count < 2 ^ 31
    → count_hit j here found ≡ some (counted j here found)
unfolding count_hit
count_hit-counted j true found h = rw (lt→ltb (suc found.count) (2 ^ 31) h)
count_hit-counted j false found h = refl

counted-count :
    (j : ℕ) (here : Bool) (found : Counts) → (counted j here found).count ≤ suc found.count
counted-count j true found = omega arith
counted-count j false found = omega arith

module _ (alphabet : ℕ → Bool) (text : Bytes) (i : ℕ) (bits : ℕ → Bool) where
  -- The bits of the words from the number `j` on: they decide where the test is made.
  abbrev pub AreBits : ℕ → List Bytes → Type 0
  AreBits j words =
      (k : ℕ) (word : Bytes)
      → get_elem? words k ≡ some word
      → (((bits (j + k) && ltb 0 (length word)) ≡ true)
          → is_word alphabet text i word ≡ some (ends_at alphabet text word i))
        × (((bits (j + k) && ltb 0 (length word)) ≡ false) → ends_at alphabet text word i ≡ false)

  AreBits-tail :
      (j : ℕ) (word : Bytes) (words : List Bytes) → AreBits j (word ∷ words) → AreBits (suc j) words
  AreBits-tail j word words h k w e =
      let at : j + suc k ≡ suc j + k = omega arith in
      subst
        (λ n.
          (((bits n && ltb 0 (length w)) ≡ true)
            → is_word alphabet text i w ≡ some (ends_at alphabet text w i))
          × (((bits n && ltb 0 (length w)) ≡ false) → ends_at alphabet text w i ≡ false))
        at (h (suc k) w e)

  -- The counts `found'` have one more for the words from the number `j` on that end at `text[i]`.
  pub record Tallied (j : ℕ) (words : List Bytes) (found found' : Counts) : Type 0 where
    pub lengths : length found'.counters ≡ length found.counters
    pub before : (m : ℕ) → m < j → get_or found'.counters m 0 ≡ get_or found.counters m 0
    pub at :
        (k : ℕ) (word : Bytes)
        → get_elem? words k ≡ some word
        → get_or found'.counters (j + k) 0
          ≡ get_or found.counters (j + k) 0 + one (ends_at alphabet text word i)
    pub totals : IsTotal found → IsTotal found'
    pub grown : found'.count ≤ found.count + length words

  search_words_hit :
      (j : ℕ) (word : Bytes) (words : List Bytes) (found : Counts) (here : Bool)
      → (bits j && ltb 0 (length word)) ≡ true
      → is_word alphabet text i word ≡ some here
      → suc found.count < 2 ^ 31
      → search_words alphabet text i bits j (word ∷ words) found
        ≡ search_words alphabet text i bits (suc j) words (counted j here found)
  unfolding search_words
  search_words_hit j word words found here e h small =
      rw (search_words, e, h, count_hit-counted j here found small)

  search_words_miss :
      (j : ℕ) (word : Bytes) (words : List Bytes) (found : Counts)
      → (bits j && ltb 0 (length word)) ≡ false
      → search_words alphabet text i bits j (word ∷ words) found
        ≡ search_words alphabet text i bits (suc j) words found
  unfolding search_words
  search_words_miss j word words found e = rw (search_words, e)

  -- A round of the loop.
  search_word :
      (j : ℕ) (word : Bytes) (words : List Bytes) (found : Counts)
      → AreBits j (word ∷ words)
      → suc found.count < 2 ^ 31
      → search_words alphabet text i bits j (word ∷ words) found
        ≡ search_words alphabet text i bits
            (suc j)
            words
            (counted j (ends_at alphabet text word i) found)
  search_word j word words found h small =
      let at : j ≡ j + 0 = omega arith in
      let (hit, miss) = h 0 word refl in
      elim (Bool-cases (bits j && ltb 0 (length word))) [
        | inl e ↦
            search_words_hit j word words found (ends_at alphabet text word i) e
              (hit (ap (λ n. bits n && ltb 0 (length word)) (sym at) ∙ e)) small
        | inr e ↦
            let not_here = miss (ap (λ n. bits n && ltb 0 (length word)) (sym at) ∙ e) in
            search_words_miss j word words found e
            ∙ ap (λ here. search_words alphabet text i bits (suc j) words (counted j here found))
                (sym not_here)
      ]

  Tallied-at :
      (j : ℕ) (word : Bytes) (words : List Bytes) (found found' : Counts)
      → j < length found.counters
      → Tallied (suc j) words (counted j (ends_at alphabet text word i) found) found'
      → (k : ℕ) (w : Bytes) → get_elem? (word ∷ words) k ≡ some w
      → get_or found'.counters (j + k) 0
        ≡ get_or found.counters (j + k) 0 + one (ends_at alphabet text w i)
  Tallied-at j word words found found' fits rest zero w e =
      let here = ends_at alphabet text word i in
      let number : j + 0 ≡ j = omega arith in
      let same : word ≡ w = cc e in
      rw (number, sym same) (rest.before j (omega arith) ∙ counted_at j here found fits)
  Tallied-at j word words found found' fits rest (suc k) w e =
      let here = ends_at alphabet text word i in
      let number : suc j + k ≡ j + suc k = omega arith in
      subst
        (λ n.
          get_or found'.counters n 0 ≡ get_or found.counters n 0 + one (ends_at alphabet text w i))
        number
        (rest.at k w e
          ∙ ap (λ n. n + one (ends_at alphabet text w i))
              (counted_other j (suc j + k) here found (ground arith)))

  pub search_words-Tallied :
      (j : ℕ) (words : List Bytes) (found : Counts)
      → AreBits j words
      → j + length words ≤ length found.counters
      → found.count + length words < 2 ^ 31
      → (found' : Counts) × (search_words alphabet text i bits j words found ≡ some found')
        × Tallied j words found found'
  unfolding search_words
  search_words-Tallied j [] found h fits small = (
    found,
    refl,
    record {
      lengths = refl;
      before = λ m less. refl;
      at = λ k word e. absurd (cc e);
      totals = λ e. e;
      grown = omega arith;
    },
  )
  search_words-Tallied j (word ∷ words) found h fits small =
      let here = ends_at alphabet text word i in
      let (found', ran, rest) =
        search_words-Tallied (suc j) words (counted j here found) (AreBits-tail j word words h)
          (omega (arith, counted-length j here found, fits))
          (omega (arith, counted-count j here found, small)) in
      (
        found',
        search_word j word words found h (omega (arith, small)) ∙ ran,
        record {
          lengths = rest.lengths ∙ counted-length j here found;
          before = λ m less.
              rest.before m (omega (arith, less))
              ∙ counted_other j m here found (ground (less, arith));
          at = Tallied-at j word words found found' (omega (arith, fits)) rest;
          totals = λ e. rest.totals (counted-IsTotal j here found (omega (arith, fits)) e);
          grown = omega (arith, rest.grown, counted-count j here found);
        },
      )

  skip_words :
      (j : ℕ) (words : List Bytes) (found : Counts)
      → ((k : ℕ) → k < length words → bits (j + k) ≡ false)
      → search_words alphabet text i bits j words found ≡ some found
  unfolding search_words
  skip_words j [] found h = refl
  skip_words j (word ∷ words) found h =
      let number : j + 0 ≡ j = omega arith in
      let none_here : bits j ≡ false = ap bits (sym number) ∙ h 0 (omega arith) in
      search_words_miss j word words found (ground (none_here, arith))
      ∙ skip_words (suc j) words found (λ k less.
        let next : suc j + k ≡ j + suc k = omega arith in
        ap bits next ∙ h (suc k) (omega (arith, less)))

  any_bit-false : (n : ℕ) → any_bit n bits ≡ false → (k : ℕ) → k < n → bits k ≡ false
  unfolding any_bit
  any_bit-false zero e k less = absurd (omega (arith, less))
  any_bit-false (suc n) e k less = elim (Bool-cases (k == n)) [
    | inl same ↦ let at : k ≡ n = ground (same, arith) in ap bits at ∙ ground (e, arith)
    | inr other ↦ any_bit-false n (ground (e, arith)) k (ground (other, less, arith))
  ]

  -- With no bit set the loop over the words does nothing.
  pub skip-search_words :
      (list : List Bytes) (found : Counts)
      → (elim (any_bit (length list) bits) [
        | false ↦ some found
        | true ↦ search_words alphabet text i bits 0 list found
      ])
        ≡ search_words alphabet text i bits 0 list found
  skip-search_words list found = elim (Bool-cases (any_bit (length list) bits)) [
    | inl e ↦ rw e
    | inr e ↦ rw e (
        sym (
          skip_words 0 list found (λ k less.
            let number : 0 + k ≡ k = omega arith in
            ap bits number ∙ any_bit-false (length list) e k less)))
  ]

pub no_counts-length : (list : List Bytes) → length (no_counts list).counters ≡ length list
unfolding no_counts
no_counts-length [] = refl
no_counts-length (word ∷ list) = ap suc (no_counts-length list)

pub no_counts_zero : (list : List Bytes) (j : ℕ) → get_or (no_counts list).counters j 0 ≡ 0
unfolding no_counts
no_counts_zero [] j = refl
no_counts_zero (word ∷ list) zero = refl
no_counts_zero (word ∷ list) (suc j) = no_counts_zero list j

pub no_counts-IsTotal : (list : List Bytes) → IsTotal (no_counts list)
unfolding no_counts sum
no_counts-IsTotal [] = refl
no_counts-IsTotal (word ∷ list) = omega (arith, no_counts-IsTotal list)
