-- ===== src/CountWords/Spec.antt =====
-- What `bkCountWords` counts: the places where the word stands between delimiters.
use bkjs_utils.Prelude.{
  ℕ, zero, suc, ◌+◌, ◌-◌, ◌<◌, ◌≤◌, ◌≡◌, arith, Bytes, [], ◌∷◌, length, sym, ap, ◌∙◌, refl, Bool,
  true, false, get_or, ◌==◌, get_or-drop, length-drop, drop, ◌&&◌, if◌then◌else◌,
}
use bkjs_utils.CountWords.{char_at, is_delimited}
use bkjs_utils.CountWords.Links.{Agrees}

abbrev pub starts_with : Bytes → Bytes → Bool
starts_with [] text = true
starts_with (c ∷ word) [] = false
starts_with (c ∷ word) (d ∷ text) = c == d && starts_with word text

-- The word stands at `s`, and no token character touches it.
abbrev pub word_at : Bytes → Bytes → ℕ → Bool
word_at word text s = starts_with word (drop s text) && is_delimited text s (s + length word)

-- How many numbers below `n` pass the test.
unfoldable pub count_below : ℕ → (ℕ → Bool) → ℕ
count_below zero p = 0
count_below (suc n) p = if p n then suc (count_below n p) else count_below n p

-- The number of places at which the word occurs, overlapping ones included.
unfoldable pub occurrences : Bytes → Bytes → ℕ
occurrences word text = count_below (suc (length text) - length word) (word_at word text)

starts_with_complete :
    (word text : Bytes)
    → length word ≤ length text
    → ((d : ℕ) → d < length word → char_at word d ≡ get_or text d 0)
    → starts_with word text ≡ true
starts_with_complete [] text h same = refl
starts_with_complete (c ∷ word) [] h same = absurd (omega arith)
starts_with_complete (c ∷ word) (d ∷ text) h same = ground (
  arith,
  same 0,
  starts_with_complete word text (omega arith) (λ k lt. same (suc k) (omega arith)),
)

starts_with_sound :
    (word text : Bytes)
    → starts_with word text ≡ true
    → (d : ℕ) → d < length word
    → char_at word d ≡ get_or text d 0
starts_with_sound [] text h d lt = absurd (omega arith)
starts_with_sound (c ∷ word) [] h d lt = cc
starts_with_sound (c ∷ word) (x ∷ text) h zero lt = ground arith
starts_with_sound (c ∷ word) (x ∷ text) h (suc d) lt =
    ground (arith, starts_with_sound word text _ d (omega arith))

module _ (word text : Bytes) where
  -- `text[j]`
  abbrev pub text_at : ℕ → ℕ
  text_at j = get_or text j 0

  pub starts_with-of_Agrees :
      (s : ℕ)
      → s + length word ≤ length text
      → Agrees word text_at (length word) (s + length word)
      → starts_with word (drop s text) ≡ true
  starts_with-of_Agrees s h (_, agree) =
      starts_with_complete word (drop s text) (omega (arith, length-drop s text))
        (λ d lt. agree d lt ∙ ap text_at (omega arith) ∙ sym (get_or-drop s text d 0))

  pub Agrees-of_starts_with :
      (s : ℕ)
      → starts_with word (drop s text) ≡ true
      → Agrees word text_at (length word) (s + length word)
  Agrees-of_starts_with s h = (
    omega arith,
    λ d lt.
        starts_with_sound word (drop s text) h d lt
        ∙ get_or-drop s text d 0
        ∙ ap text_at (omega arith),
  )
