-- ===== src/CountWords/Table.antt =====
-- The preprocessing loop fills the table with links.
use bkjs_utils.Prelude.{
  ℕ, zero, suc, ◌+◌, ◌<◌, ◌≤◌, ◌≡◌, ◌≢◌, arith, Bytes, List, [], ◌∷◌, ◌++◌, length, sym, ap, ◌∙◌,
  refl, Option, none, some, get_or, ◌==◌, ==_iff, Bool-cases, inl, inr, subst, length-append,
  get_or-append_left, get_or-append_last, if◌then◌else◌,
}
use native.Mathlib.Decide.{dec_lt, ℕ_discrete}
use bkjs_utils.CountWords.{char_at, fall_back, advance, prepare, links}
use bkjs_utils.CountWords.Links.{
  Agrees, IsLink, AreLinks, IsBest, IsBelow, fall_back-IsFound, advance-IsLongest, IsLongest,
  Agrees-border, Agrees-trans,
}

module _ (word : Bytes) where
  -- What the loop appends for `i`, where `j` is the longest border of the first `i` characters.
  abbrev next_link : List (Option ℕ) → ℕ → ℕ → Option ℕ
  next_link next i j = if char_at word i == char_at word j then get_or next j none else some j

  -- A border other than the longest one is a border of it.
  longest_rest :
      (i j k : ℕ)
      → IsLongest word (char_at word) (suc i) i j
      → k < suc i
      → Agrees word (char_at word) k (suc i)
      → (k ≢ j)
      → (k < j) × Agrees word (char_at word) k j
  longest_rest i j k (ji, agree, longest) ki ka ne = (
    omega (arith, longest k (omega arith) ka, ne),
    Agrees-border word (char_at word) k j (suc i) (longest k (omega arith) ka) agree ka,
  )

  IsLink-weaken :
      (i j : ℕ) (e : Option ℕ)
      → char_at word (suc i) ≡ char_at word j
      → IsLongest word (char_at word) (suc i) i j
      → IsLink word j e
      → IsLink word (suc i) e
  IsLink-weaken i j none same long link = λ k ki ka. elim (ℕ_discrete k j) [
    | yes e ↦ ap (char_at word) e ∙ sym same
    | no ne ↦ let (kj, border) = longest_rest i j k long ki ka ne in link k kj border ∙ sym same
  ]
  IsLink-weaken i j (some t) same long link = (
    omega (arith, link.0, long.0),
    Agrees-trans word (char_at word) t j (suc i) link.1 long.1,
    λ k tk ki ka. elim (ℕ_discrete k j) [
      | yes e ↦ ap (char_at word) e ∙ sym same
      | no ne ↦
          let (kj, border) = longest_rest i j k long ki ka ne in link.2 k tk kj border ∙ sym same
    ],
  )

  next_link-IsLink :
      (next : List (Option ℕ)) (i j : ℕ)
      → AreLinks word next
      → suc i ≤ length next
      → IsLongest word (char_at word) (suc i) i j
      → IsLink word (suc i) (next_link next (suc i) j)
  next_link-IsLink next i j links hl long =
      elim (Bool-cases (char_at word (suc i) == char_at word j)) [
        | inl e ↦ rw e (
            IsLink-weaken i j (get_or next j none) ((==_iff _ _).0 e) long
              (links j (omega (arith, long.0))))
        | inr e ↦ rw e (
          omega (arith, long.0),
          long.1,
          λ k jk ki ka. absurd (omega (arith, long.2 k (omega arith) ka)),
        )
      ]

  AreLinks-append :
      (next : List (Option ℕ)) (e : Option ℕ)
      → AreLinks word next
      → IsLink word (length next) e
      → AreLinks word (next ++ e ∷ [])
  AreLinks-append next e links link s h = elim (dec_lt s (length next)) [
    | yes below ↦ rw (get_or-append_left next (e ∷ []) s none below) (links s below)
    | no last ↦
        let es : s ≡ length next = omega (arith, length-append next (e ∷ [])) in
        rw (es, get_or-append_last next e none) link
  ]

  pub IsBest-IsBelow :
      (f : ℕ → ℕ) (p limit n : ℕ) (j : Option ℕ)
      → limit ≤ n
      → IsBest word f p limit j
      → IsBelow word n j
  IsBest-IsBelow f p limit n none h best = tt
  IsBest-IsBelow f p limit n (some t) h best = omega (arith, best.0)

  prepare-AreLinks :
      (rounds i : ℕ) (j : Option ℕ) (next : List (Option ℕ))
      → i + rounds ≡ length word
      → length next ≡ suc i
      → AreLinks word next
      → IsBest word (char_at word) i i j
      → AreLinks word (prepare word rounds i j next)
        × (length (prepare word rounds i j next) ≡ suc (length word))
  unfolding prepare
  prepare-AreLinks zero i j next e l links best = (links, omega arith)
  prepare-AreLinks (suc rounds) i j next e l links best =
      let found =
        fall_back-IsFound word next (char_at word) i i (suc (length word)) j links (omega arith)
          (IsBest-IsBelow (char_at word) i i (suc (length word)) j (omega arith) best) best in
      let r = fall_back word next (char_at word i) (suc (length word)) j in
      let long = advance-IsLongest word (char_at word) i i r found in
      let link = next_link-IsLink next i (advance r) links (omega arith) long in
      let e' = next_link next (suc i) (advance r) in
      prepare-AreLinks rounds (suc i) (some (advance r)) (next ++ e' ∷ []) (omega arith)
        (omega (arith, length-append next (e' ∷ [])))
        (AreLinks-append next e' links (subst (λ n. IsLink word n e') (sym l) link))
        (omega (arith, long.0), long.1, λ k kl ka ke. long.2 k (omega arith) ka)

  -- The table has a link for every prefix of the word, the whole word included.
  pub links-AreLinks : AreLinks word (links word) × (length (links word) ≡ suc (length word))
  unfolding links
  links-AreLinks =
      prepare-AreLinks (length word) 0 none (none ∷ []) (omega arith) refl start
        (λ k kl. absurd (omega arith))
    where
      start : AreLinks word (none ∷ [])
      start zero h = λ k kl. absurd (omega arith)
      start (suc s) h = absurd (omega arith)
