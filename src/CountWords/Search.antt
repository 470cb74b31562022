-- ===== src/CountWords/Search.antt =====
-- The searching loop counts every place where the word stands between delimiters.
use bkjs_utils.Prelude.{
  ℕ, zero, suc, ◌+◌, ◌-◌, ◌<◌, ◌≤◌, ◌≡◌, ◌≢◌, arith, Bytes, [], ◌∷◌, length, sym, ap, ◌∙◌, refl,
  Bool, true, false, not, Option, none, some, get_or, ◌==◌, le→leb, Bool-cases, inl, inr, subst,
  drop, min, if◌then◌else◌, All,
}
use native.Mathlib.Decide.{dec_le, dec_lt}
use bkjs_utils.CountWords.{char_at, fall_back, advance, links, search, count_words, is_delimited}
use bkjs_utils.CountWords.Links.{
  Agrees, IsLink, IsBest, fall_back-IsFound, advance-IsLongest, IsLongest, Agrees-border,
  Agrees-trans,
}
use bkjs_utils.CountWords.Table.{IsBest-IsBelow, links-AreLinks}
use bkjs_utils.CountWords.Spec.{
  starts_with, word_at, count_below, occurrences, text_at, starts_with-of_Agrees,
  Agrees-of_starts_with,
}

-- The word holds no 0, as no C string does.
abbrev pub IsText : Bytes → Type 0
IsText = All (λ c. c ≢ 0)

IsText-char_at : (word : Bytes) → IsText word → (k : ℕ) → k < length word → char_at word k ≢ 0
IsText-char_at [] h k lt = absurd (omega arith)
IsText-char_at (c ∷ word) (hc, hw) zero lt = hc
IsText-char_at (c ∷ word) (hc, hw) (suc k) lt = IsText-char_at word hw k (omega arith)

char_at_end : (word : Bytes) → char_at word (length word) ≡ 0
char_at_end [] = refl
char_at_end (c ∷ word) = char_at_end word

module _ (word text : Bytes) (solid : IsText word) (some_char : 0 < length word) where
  abbrev size : ℕ
  size = length word

  -- After a full match the link of the whole word leaves the longest shorter match.
  IsBest-full :
      (p : ℕ) (e : Option ℕ)
      → IsLink word size e
      → Agrees word (text_at word text) size p
      → IsBest word (text_at word text) p size e
  IsBest-full p none link agree = λ k kl ka ke. IsText-char_at word solid k kl (
      link k kl (Agrees-border word (text_at word text) k size p (omega arith) agree ka)
      ∙ char_at_end word)
  IsBest-full p (some t) link agree = (
    link.0,
    Agrees-trans word (text_at word text) t size p link.1 agree,
    λ k kl ka ke. elim (dec_le k t) [
      | yes h ↦ h
      | no h ↦ absurd (
          IsText-char_at word solid k kl (
            link.2 k (omega arith) kl
              (Agrees-border word (text_at word text) k size p (omega arith) agree ka)
            ∙ char_at_end word))
    ],
  )

  -- The places that end by the `j`-th character, as a count.
  abbrev counted : ℕ → ℕ
  counted j = count_below (suc j - size) (word_at word text)

  counted_early : (j : ℕ) → suc j < size → counted (suc j) ≡ counted j
  unfolding count_below
  counted_early j h =
      let a : suc (suc j) - size ≡ 0 = omega arith in
      let b : suc j - size ≡ 0 = omega arith in rw (a, b)

  counted-suc :
      (j : ℕ) (b : Bool)
      → size ≤ suc j
      → word_at word text (suc j - size) ≡ b
      → counted (suc j) ≡ (if b then suc (counted j) else counted j)
  unfolding count_below
  counted-suc j b h e = let a : suc (suc j) - size ≡ suc (suc j - size) = omega arith in rw (a, e)

  -- A shorter longest match means that no occurrence ends here.
  counted_partial :
      (j t : ℕ)
      → suc j ≤ length text
      → IsLongest word (text_at word text) (suc j) size t
      → t < size
      → counted (suc j) ≡ counted j
  counted_partial j t hj long h = elim (dec_lt (suc j) size) [
    | yes early ↦ counted_early j early
    | no late ↦ counted-suc j false (omega arith) (absent (omega arith))
  ]
    where
      absent : size ≤ suc j → word_at word text (suc j - size) ≡ false
      absent le = elim (Bool-cases (starts_with word (drop (suc j - size) text))) [
        | inl here ↦
            let at = Agrees-of_starts_with word text (suc j - size) here in
            let back : suc j - size + size ≡ suc j = omega arith in
            absurd (
              omega (
                arith,
                long.2 size (omega arith) (subst (Agrees word (text_at word text) size) back at),
              ))
        | inr none_here ↦ rw none_here
      ]

  -- A full match is counted if it stands between delimiters.
  counted_full :
      (j t : ℕ)
      → suc j ≤ length text
      → IsLongest word (text_at word text) (suc j) size t
      → size ≤ t
      → counted (suc j)
        ≡ (if is_delimited text (suc j - t) (suc j) then suc (counted j) else counted j)
  counted_full j t hj long h =
      let et : t ≡ size = omega (arith, long.0) in
      rw et (
        counted-suc j (is_delimited text (suc j - size) (suc j)) (omega arith)
          (here (omega arith) (subst (λ k. Agrees word (text_at word text) k (suc j)) et long.1)))
    where
      here :
          size ≤ suc j
          → Agrees word (text_at word text) size (suc j)
          → word_at word text (suc j - size) ≡ is_delimited text (suc j - size) (suc j)
      here le at =
          let back : suc j - size + size ≡ suc j = omega arith in
          let starts =
            starts_with-of_Agrees word text (suc j - size) (omega arith)
              (subst (Agrees word (text_at word text) size) (sym back) at) in
          rw (starts, back)

  counted_grows : (k j : ℕ) → counted j ≤ counted (j + k)
  counted_grows zero j = let e : j + 0 ≡ j = omega arith in rw e (omega arith)
  counted_grows (suc k) j =
      let e : j + suc k ≡ suc (j + k) = omega arith in
      rw e (omega (arith, counted_grows k j, one (j + k)))
    where
      one : (j : ℕ) → counted j ≤ counted (suc j)
      one j = elim (dec_lt (suc j) size) [
        | yes early ↦ rw (counted_early j early) (omega arith)
        | no late ↦
            ground (arith, counted-suc j (word_at word text (suc j - size)) (omega arith) refl)
      ]

  -- The next matched length, from the state of the loop.
  abbrev grown : ℕ → Option ℕ → ℕ
  grown j i = advance (fall_back word (links word) (get_or text j 0) (suc size) i)

  grown-IsLongest :
      (j : ℕ) (i : Option ℕ)
      → IsBest word (text_at word text) j size i
      → IsLongest word (text_at word text) (suc j) size (grown j i)
  grown-IsLongest j i best =
      let (links_hold, links_size) = links-AreLinks word in
      advance-IsLongest word (text_at word text) j size _ (
        fall_back-IsFound word (links word) (text_at word text) j size (suc size) i links_hold
          (omega (arith, links_size))
          (IsBest-IsBelow word (text_at word text) j size (suc size) i (omega arith) best) best)

  search_partial :
      (all : Bool) (rounds j count : ℕ) (i : Option ℕ)
      → grown j i < size
      → search word (links word) text all (suc rounds) i j count
        ≡ search word (links word) text all rounds (some (grown j i)) (suc j) count
  unfolding search
  search_partial all rounds j count i h = ground arith

  search_full :
      (all : Bool) (rounds j count : ℕ) (i : Option ℕ)
      → size ≤ grown j i
      → search word (links word) text all (suc rounds) i j count ≡ (
          if is_delimited text (suc j - grown j i) (suc j)
          then (if not all
              then suc count
              else search word
                  (links word)
                  text
                  all
                  rounds
                  (get_or (links word) (grown j i) none)
                  (suc j)
                  (suc count))
          else search word
              (links word)
              text
              all
              rounds
              (get_or (links word) (grown j i) none)
              (suc j)
              count)
  unfolding search
  search_full all rounds j count i h = rw (le→leb size (grown j i) h)

  -- The state behind the step is best again.
  grown-IsBest :
      (j : ℕ) (i : Option ℕ)
      → IsBest word (text_at word text) j size i
      → grown j i < size
      → IsBest word (text_at word text) (suc j) size (some (grown j i))
  grown-IsBest j i best h =
      let long = grown-IsLongest j i best in (h, long.1, λ k kl ka ke. long.2 k (omega arith) ka)

  full-IsBest :
      (j : ℕ) (i : Option ℕ)
      → IsBest word (text_at word text) j size i
      → size ≤ grown j i
      → IsBest word (text_at word text) (suc j) size (get_or (links word) (grown j i) none)
  full-IsBest j i best h =
      let long = grown-IsLongest j i best in
      let e : grown j i ≡ size = omega (arith, long.0) in
      let (links_hold, links_size) = links-AreLinks word in
      subst (λ n. IsBest word (text_at word text) (suc j) size (get_or (links word) n none)) (sym e)
        (IsBest-full (suc j) _ (links_hold size (omega (arith, links_size)))
          (subst (λ k. Agrees word (text_at word text) k (suc j)) e long.1))

  search-all :
      (rounds j count : ℕ) (i : Option ℕ)
      → j + rounds ≡ length text
      → IsBest word (text_at word text) j size i
      → count ≡ counted j
      → search word (links word) text true rounds i j count ≡ counted (length text)
  search-all zero j count i e best c = unfold search in c ∙ ap counted (omega arith)
  search-all (suc rounds) j count i e best c = elim (dec_lt (grown j i) size) [
    | yes h ↦
        search_partial true rounds j count i h
        ∙ search-all rounds (suc j) count (some (grown j i)) (omega arith) (grown-IsBest j i best h)
            (c ∙ sym (counted_partial j (grown j i) (omega arith) (grown-IsLongest j i best) h))
    | no h ↦
        let full : size ≤ grown j i = omega arith in
        let more = counted_full j (grown j i) (omega arith) (grown-IsLongest j i best) full in
        let best' = full-IsBest j i best full in
        let link = get_or (links word) (grown j i) none in
        search_full true rounds j count i full
        ∙ elim (Bool-cases (is_delimited text (suc j - grown j i) (suc j))) [
          | inl d ↦ rw d (
              search-all rounds (suc j) (suc count) link (omega arith) best'
                (ap suc c ∙ sym (rw d at more)))
          | inr d ↦
              rw d
                (search-all rounds (suc j) count link (omega arith) best' (c ∙ sym (rw d at more)))
        ]
  ]

  search_first :
      (rounds j : ℕ) (i : Option ℕ)
      → j + rounds ≡ length text
      → IsBest word (text_at word text) j size i
      → counted j ≡ 0
      → search word (links word) text false rounds i j 0 ≡ min 1 (counted (length text))
  search_first zero j i e best c =
      let z : counted (length text) ≡ 0 = ap counted (omega arith) ∙ c in unfold search in rw z
  search_first (suc rounds) j i e best c = elim (dec_lt (grown j i) size) [
    | yes h ↦
        search_partial false rounds j 0 i h
        ∙ search_first rounds (suc j) (some (grown j i)) (omega arith) (grown-IsBest j i best h)
            (counted_partial j (grown j i) (omega arith) (grown-IsLongest j i best) h ∙ c)
    | no h ↦
        let full : size ≤ grown j i = omega arith in
        let more = counted_full j (grown j i) (omega arith) (grown-IsLongest j i best) full in
        let best' = full-IsBest j i best full in
        let link = get_or (links word) (grown j i) none in
        search_full false rounds j 0 i full
        ∙ elim (Bool-cases (is_delimited text (suc j - grown j i) (suc j))) [
          | inl d ↦
              let hit : counted (suc j) ≡ suc (counted j) = rw d at more in
              let end : counted (suc j + rounds) ≡ counted (length text) =
                ap counted (omega arith) in
              rw d (omega (arith, hit, end, counted_grows rounds (suc j)))
          | inr d ↦ rw d (search_first rounds (suc j) link (omega arith) best' ((rw d at more) ∙ c))
        ]
  ]

  start-IsBest : IsBest word (text_at word text) 0 size (some 0)
  start-IsBest = (some_char, (omega arith, λ d lt. absurd (omega arith)), λ k kl ka ke. ka.0)

  counted_none : counted 0 ≡ 0
  unfolding count_below
  counted_none = let e : suc 0 - size ≡ 0 = omega arith in rw e

  search-occurrences :
      (all : Bool)
      → search word (links word) text all (length text) (some 0) 0 0
        ≡ (if all then occurrences word text else min 1 (occurrences word text))
  unfolding occurrences
  search-occurrences true =
      search-all (length text) 0 0 (some 0) (omega arith) start-IsBest (sym counted_none)
  search-occurrences false =
      search_first (length text) 0 (some 0) (omega arith) start-IsBest counted_none

occurrences_short : (word text : Bytes) → length text < length word → occurrences word text ≡ 0
unfolding occurrences count_below
occurrences_short word text h = let e : suc (length text) - length word ≡ 0 = omega arith in rw e

-- On a word without 0 bytes `bkCountWords` returns the number of places of the text where the word
-- occurs with no token character before or behind it, overlapping occurrences included; without
-- the flag `all` it returns 1 if there is such a place and 0 if there is none. An empty word has
-- the count 0.
pub count_words-occurrences :
    (word text : Bytes) (all : Bool)
    → IsText word
    → count_words word text all ≡ (
        if length word == 0
        then 0
        else if all
        then occurrences word text
        else min 1 (occurrences word text))
count_words-occurrences [] text all solid = unfold count_words in refl
count_words-occurrences (c ∷ w) text all solid = elim (dec_lt (length text) (length (c ∷ w))) [
  | yes short ↦
      let e = occurrences_short (c ∷ w) text short in unfold count_words in rw e (ground arith)
  | no fits ↦
      unfold count_words in ground (arith, search-occurrences (c ∷ w) text solid (omega arith) all)
]
