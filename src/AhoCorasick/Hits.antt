-- ===== src/AhoCorasick/Hits.antt =====
-- The test of `bkAhoCorasick::search` on a word at a place of the text.
use bkjs_utils.Prelude.{
  ℕ, zero, suc, ◌+◌, ◌-◌, ◌≤◌, ◌<◌, ◌≡◌, refl, sym, ap, ◌∙◌, arith, Bytes, [], ◌∷◌, ◌++◌,
  append_assoc, Bool, true, false, not, ◌&&◌, ◌||◌, some, ◌>>=◌, ◌==◌, ltb, leb, if◌then◌else◌,
  length, length-append, length-take, map, get_or, drop, take, take-drop, take_all, drop_all, All,
  Bool-cases, inl, inr,
}
use bkjs_utils.Strings.{tolower}
use bkjs_utils.CountWords.Spec.{starts_with}
use bkjs_utils.AhoCorasick.Suffix.{IsSuffix}
use bkjs_utils.AhoCorasick.Search.{strncasecmp, apart, is_word}

-- The text without its capitals.
abbrev pub lower : Bytes → Bytes
lower text = map tolower text

-- Every character of an ASCII text.
abbrev pub IsAscii : Bytes → Type 0
IsAscii = All (λ c. c < 128)

pub length-lower : (text : Bytes) → length (lower text) ≡ length text
length-lower [] = refl
length-lower (c ∷ text) = ap suc (length-lower text)

pub take-lower : (n : ℕ) (text : Bytes) → take n (lower text) ≡ lower (take n text)
take-lower zero text = refl
take-lower (suc n) [] = refl
take-lower (suc n) (c ∷ text) = ap (λ x. tolower c ∷ x) (take-lower n text)

drop-lower : (n : ℕ) (text : Bytes) → drop n (lower text) ≡ lower (drop n text)
drop-lower zero text = refl
drop-lower (suc n) [] = refl
drop-lower (suc n) (c ∷ text) = drop-lower n text

starts_with-append : (word rest : Bytes) → starts_with word (word ++ rest) ≡ true
starts_with-append [] rest = refl
starts_with-append (c ∷ word) rest = ground (arith, starts_with-append word rest)

starts_with_front :
    (word text : Bytes) → starts_with word text ≡ true → (rest : Bytes) × (text ≡ word ++ rest)
starts_with_front [] text e = (text, refl)
starts_with_front (c ∷ word) [] e = absurd (ground (e, arith))
starts_with_front (c ∷ word) (d ∷ text) e =
    let (rest, f) = starts_with_front word text (ground (e, arith)) in
    let same : c ≡ d = ground (e, arith) in (rest, cc (f, same))

-- The end of the first `n` characters, and the place where it starts.
suffix_starts :
    (u t : Bytes) (n : ℕ)
    → n ≤ length t
    → IsSuffix u (take n t)
    → (length u ≤ n) × (starts_with u (drop (n - length u) t) ≡ true)
suffix_starts u t n h (before, e) =
    let long : n ≡ length before + length u =
      omega (arith, length-take n t, ap length e, length-append before u, h) in
    let at : n - length u ≡ length before = omega (arith, long) in
    let whole : t ≡ before ++ (u ++ drop n t) =
      sym (take-drop n t) ∙ ap (λ x. x ++ drop n t) e ∙ append_assoc before u (drop n t) in
    let rest : drop (length before) t ≡ u ++ drop n t =
      ap (drop (length before)) whole ∙ drop_all before (u ++ drop n t) in
    (
      omega (arith, long),
      ap (λ x. starts_with u (drop x t)) at
          ∙ ap (starts_with u) rest
          ∙ starts_with-append u (drop n t),
    )

starts_suffix :
    (u t : Bytes) (n : ℕ)
    → n ≤ length t
    → length u ≤ n
    → starts_with u (drop (n - length u) t) ≡ true
    → IsSuffix u (take n t)
starts_suffix u t n h fits e =
    let s = n - length u in
    let (rest, f) = starts_with_front u (drop s t) e in
    let whole : t ≡ (take s t ++ u) ++ rest =
      sym (take-drop s t) ∙ ap (λ x. take s t ++ x) f ∙ sym (append_assoc (take s t) u rest) in
    let long : n ≡ length (take s t ++ u) =
      omega (arith, length-take s t, length-append (take s t) u, h, fits) in
    (
      take s t,
      ap (λ k. take k t) long
          ∙ ap (take (length (take s t ++ u))) whole
          ∙ take_all (take s t ++ u) rest,
    )

strncasecmp-true :
    (word text : Bytes)
    → starts_with (lower word) (lower text) ≡ true
    → strncasecmp (length word) text word ≡ true
unfolding strncasecmp
strncasecmp-true [] text e = refl
strncasecmp-true (c ∷ word) [] e = absurd (ground (e, arith))
strncasecmp-true (c ∷ word) (d ∷ text) e = ground (arith, e, strncasecmp-true word text)

-- The tests in the order of the code.
tests :
    (a b c d : Bool)
    → (do
      before ← if a then some true else some b
      after ← if before then if c then some true else some d else some false
      some (after && true))
      ≡ some ((a || b) && (c || d))
tests true b true d = refl
tests true b false true = refl
tests true b false false = refl
tests false true true d = refl
tests false true false true = refl
tests false true false false = refl
tests false false c d = refl

module _ (alphabet : ℕ → Bool) (text : Bytes) where
  -- No character of a token stands at `s - 1` and at `e`.
  abbrev pub delimited : ℕ → ℕ → Bool
  delimited s e =
      (s == 0 || not (alphabet (get_or text (s - 1) 0)))
      && (e == length text || not (alphabet (get_or text e 0)))

  -- The word ends at `text[i]`, where capitals count as the small letters, and is delimited.
  unfoldable pub ends_at : Bytes → ℕ → Bool
  ends_at word i =
      ltb 0 (length word)
      && leb (length word) (suc i)
      && starts_with (lower word) (drop (suc i - length word) (lower text))
      && delimited (suc i - length word) (suc i)

  apart_ascii :
      (i : ℕ)
      → get_or text i 0 < 128
      → apart alphabet text i ≡ some (not (alphabet (get_or text i 0)))
  unfolding apart
  apart_ascii i h = ground (h, arith)

  module _ (ascii : (i : ℕ) → get_or text i 0 < 128) where
    -- On a word that ends here the test returns whether it is delimited.
    pub is_word-delimited :
        (i : ℕ) (word : Bytes)
        → length word ≤ suc i
        → starts_with (lower word) (drop (suc i - length word) (lower text)) ≡ true
        → is_word alphabet text i word ≡ some (delimited (suc i - length word) (suc i))
    unfolding is_word
    is_word-delimited i word fits e =
        let same : strncasecmp (length word) (drop (suc i - length word) text) word ≡ true =
          strncasecmp-true word (drop (suc i - length word) text)
            (ap (starts_with (lower word)) (sym (drop-lower (suc i - length word) text)) ∙ e) in
        let begins : (suc i == length word) ≡ (suc i - length word == 0) = ground (fits, arith) in
        let inside : ltb (suc i) (length word) ≡ false = ground (fits, arith) in
        rw
          (
            is_word,
            inside,
            begins,
            same,
            apart_ascii (suc i - length word - 1) (ascii (suc i - length word - 1)),
            apart_ascii (suc i) (ascii (suc i)),
          )
          (tests (suc i - length word == 0)
            (not (alphabet (get_or text (suc i - length word - 1) 0))) (suc i == length text)
            (not (alphabet (get_or text (suc i) 0))))

    -- The test on the words whose bits are set is the one of the definition above.
    pub ends_at_hit :
        (i : ℕ) (word : Bytes)
        → i < length text
        → 0 < length word
        → IsSuffix (lower word) (take (suc i) (lower text))
        → is_word alphabet text i word ≡ some (ends_at word i)
    unfolding ends_at
    ends_at_hit i word inside h suffix =
        let (fits, e) =
          suffix_starts (lower word) (lower text) (suc i) (omega (arith, length-lower text, inside))
            suffix in
        let fits' : length word ≤ suc i = omega (arith, fits, length-lower word) in
        let e' : starts_with (lower word) (drop (suc i - length word) (lower text)) ≡ true =
          ap (λ n. starts_with (lower word) (drop (suc i - n) (lower text)))
            (sym (length-lower word))
          ∙ e in
        is_word-delimited i word fits' e' ∙ ap some (ground (arith, h, fits', e'))

  pub ends_at_none :
      (i : ℕ) (word : Bytes)
      → i < length text
      → ¬ IsSuffix (lower word) (take (suc i) (lower text))
      → ends_at word i ≡ false
  unfolding ends_at
  ends_at_none i word inside other = elim (Bool-cases (leb (length word) (suc i))) [
    | inr long ↦ ground (long, arith)
    | inl fits ↦
        elim (Bool-cases (starts_with (lower word) (drop (suc i - length word) (lower text)))) [
          | inr no_match ↦ ground (no_match, arith)
          | inl e ↦
              let fits' : length word ≤ suc i = ground (fits, arith) in
              absurd (
                other (
                  starts_suffix (lower word) (lower text) (suc i)
                    (omega (arith, length-lower text, inside))
                    (omega (arith, length-lower word, fits'))
                    (ap (λ n. starts_with (lower word) (drop (suc i - n) (lower text)))
                        (length-lower word)
                      ∙ e)))
        ]
  ]

  pub ends_at_empty : (i : ℕ) (word : Bytes) → ltb 0 (length word) ≡ false → ends_at word i ≡ false
  unfolding ends_at
  ends_at_empty i word e = ground (e, arith)
