-- ===== src/AhoCorasick/Suffix.antt =====
-- The longest suffix of a text that a table of edges spells.
use bkjs_utils.Prelude.{
  ℕ, ◌≤◌, ◌≡◌, refl, sym, ap, subst, ◌∙◌, arith, Bytes, [], ◌∷◌, ◌++◌, append_assoc, Bool, true,
  false, Option, none, some, ◌>>=◌, if◌then◌else◌, length, length-append, Bool-cases, Option-cases,
  ◌⊎◌, inl, inr,
}

-- Where the characters lead, from a state.
unfoldable pub follow : (ℕ → ℕ → Option ℕ) → ℕ → Bytes → Option ℕ
follow g r [] = some r
follow g r (c ∷ text) = elim (g r c) [ none ↦ none | some q ↦ follow g q text ]

pub follow_step :
    (g : ℕ → ℕ → Option ℕ) (r c q : ℕ) (text : Bytes)
    → g r c ≡ some q
    → follow g r (c ∷ text) ≡ follow g q text
unfolding follow
follow_step g r c q text e = rw (follow, e)

pub follow_stop :
    (g : ℕ → ℕ → Option ℕ) (r c : ℕ) (text : Bytes) → g r c ≡ none → follow g r (c ∷ text) ≡ none
unfolding follow
follow_stop g r c text e = rw (follow, e)

-- The suffixes of a text.
abbrev pub IsSuffix : Bytes → Bytes → Type 0
IsSuffix u text = (before : Bytes) × (text ≡ before ++ u)

pub IsSuffix-cons : (a : ℕ) (u text : Bytes) → IsSuffix u text → IsSuffix u (a ∷ text)
IsSuffix-cons a u text (before, e) = (a ∷ before, ap (λ x. a ∷ x) e)

pub IsSuffix-trans : (u v text : Bytes) → IsSuffix u v → IsSuffix v text → IsSuffix u text
IsSuffix-trans u v text (before, e) (front, f) =
    (front ++ before, f ∙ ap (λ x. front ++ x) e ∙ sym (append_assoc front before u))

-- A suffix is the whole text or one of what is behind its first character.
pub IsSuffix-cases :
    (a : ℕ) (u text : Bytes) → IsSuffix u (a ∷ text) → (u ≡ a ∷ text) ⊎ IsSuffix u text
IsSuffix-cases a u text ([], e) = inl (sym e)
IsSuffix-cases a u text (b ∷ before, e) = inr (before, cc e)

module _ (g : ℕ → ℕ → Option ℕ) where
  -- A text that leads somewhere from the state 0.
  unfoldable pub spelled : Bytes → Bool
  spelled text = elim (follow g 0 text) [ none ↦ false | some q ↦ true ]

  unfoldable pub longest : Bytes → Bytes
  longest [] = []
  longest (a ∷ text) = if spelled (a ∷ text) then a ∷ text else longest text

  pub follow-append :
      (r : ℕ) (text : Bytes) (c : ℕ) → follow g r (text ++ c ∷ []) ≡ (do q ← follow g r text; g q c)
  unfolding follow
  follow-append r [] c = elim (g r c) as (λ x. (elim x [ none ↦ none | some q ↦ some q ]) ≡ x) [
    | none ↦ refl
    | some q ↦ refl
  ]
  follow-append r (b ∷ text) c = elim (Option-cases (g r b)) [
    | inl e ↦ rw (follow_stop g r b (text ++ c ∷ []) e, follow_stop g r b text e)
    | inr (q, e) ↦
        rw (follow_step g r b q (text ++ c ∷ []) e, follow_step g r b q text e)
          (follow-append q text c)
  ]

  pub follow_one : (c : ℕ) → follow g 0 (c ∷ []) ≡ g 0 c
  unfolding follow
  follow_one c = follow-append 0 [] c

  pub spelled-some : (text : Bytes) (q : ℕ) → follow g 0 text ≡ some q → spelled text ≡ true
  unfolding spelled
  spelled-some text q e = rw (spelled, e)

  pub spelled-none : (text : Bytes) → follow g 0 text ≡ none → spelled text ≡ false
  unfolding spelled
  spelled-none text e = rw (spelled, e)

  spelled-cases : (text : Bytes) → (spelled text ≡ false) ⊎ ((q : ℕ) × (follow g 0 text ≡ some q))
  spelled-cases text = elim (Option-cases (follow g 0 text)) [
    | inl e ↦ inl (spelled-none text e)
    | inr (q, e) ↦ inr (q, e)
  ]

  spelled-append : (text : Bytes) (c : ℕ) → spelled text ≡ false → spelled (text ++ c ∷ []) ≡ false
  spelled-append text c e = elim (Option-cases (follow g 0 text)) [
    | inr (q, f) ↦ absurd (ground (e, spelled-some text q f, arith))
    | inl f ↦ spelled-none (text ++ c ∷ []) (rw (follow-append 0 text c, f))
  ]

  pub longest_self : (text : Bytes) → spelled text ≡ true → longest text ≡ text
  unfolding longest
  longest_self [] e = refl
  longest_self (a ∷ text) e = rw e

  pub longest_skip :
      (a : ℕ) (text : Bytes) → spelled (a ∷ text) ≡ false → longest (a ∷ text) ≡ longest text
  unfolding longest
  longest_skip a text e = rw (longest, e)

  spelled-longest : (text : Bytes) → spelled (longest text) ≡ true
  unfolding longest spelled follow
  spelled-longest [] = refl
  spelled-longest (a ∷ text) = elim (Bool-cases (spelled (a ∷ text))) [
    | inl e ↦ rw (longest_self (a ∷ text) e) e
    | inr e ↦ rw (longest_skip a text e) (spelled-longest text)
  ]

  pub longest-IsSuffix : (text : Bytes) → IsSuffix (longest text) text
  unfolding longest
  longest-IsSuffix [] = ([], refl)
  longest-IsSuffix (a ∷ text) = elim (Bool-cases (spelled (a ∷ text))) [
    | inl e ↦ ([], sym (longest_self (a ∷ text) e))
    | inr e ↦
        subst (λ x. IsSuffix x (a ∷ text)) (sym (longest_skip a text e))
          (IsSuffix-cons a (longest text) text (longest-IsSuffix text))
  ]

  -- No suffix that is spelled is longer.
  pub longest_greatest : (before u : Bytes) → spelled u ≡ true → IsSuffix u (longest (before ++ u))
  longest_greatest [] u e = ([], longest_self u e)
  longest_greatest (a ∷ before) u e = elim (Bool-cases (spelled (a ∷ before ++ u))) [
    | inl f ↦ (a ∷ before, longest_self (a ∷ before ++ u) f)
    | inr f ↦
        subst (IsSuffix u) (sym (longest_skip a (before ++ u) f)) (longest_greatest before u e)
  ]

  pub longest-length : (text : Bytes) → length (longest text) ≤ length text
  longest-length text =
      let (before, e) = longest-IsSuffix text in
      omega (arith, ap length e, length-append before (longest text))

  -- The longest suffix after one more character is found from the longest one before.
  pub longest-append :
      (text : Bytes) (c : ℕ) → longest (text ++ c ∷ []) ≡ longest (longest text ++ c ∷ [])
  unfolding longest
  longest-append [] c = refl
  longest-append (a ∷ text) c = elim (Bool-cases (spelled (a ∷ text))) [
    | inl e ↦ rw (longest_self (a ∷ text) e)
    | inr e ↦
        rw (longest_skip a text e, longest_skip a (text ++ c ∷ []) (spelled-append (a ∷ text) c e))
          (longest-append text c)
  ]
