-- ===== src/AhoCorasick/Fall.antt =====
-- Where the failures of `bkAhoCorasick` lead.
use bkjs_utils.Prelude.{
  ℕ, zero, suc, ◌≤◌, ◌<◌, ◌≡◌, sym, ap, subst, ◌∙◌, arith, Bytes, [], ◌∷◌, ◌++◌, false, Option,
  none, some, length, Option-cases, inl, inr,
}
use bkjs_utils.AhoCorasick.{Tables, close_root, fall}
use bkjs_utils.AhoCorasick.Suffix.{
  follow, follow-append, follow_stop, spelled, spelled-some, spelled-none, longest, longest_self,
  longest_skip, longest-append, longest-length,
}
use bkjs_utils.AhoCorasick.Tree.{IsTree, follow-length, refl_follow}

module _ (gotos : ℕ → ℕ → Option ℕ) (failures : ℕ → Option ℕ) where
  fall_found : (n r c q : ℕ) → gotos r c ≡ some q → fall (suc n) gotos failures r c ≡ some q
  unfolding fall
  fall_found n r c q e = rw (fall, e)

  fall_next :
      (n r c f : ℕ)
      → gotos r c ≡ none
      → failures r ≡ some f
      → fall (suc n) gotos failures r c ≡ fall n gotos failures f c
  unfolding fall
  fall_next n r c f e h = rw (fall, e, h)

module _ (t : Tables) (tree : IsTree t) where
  pub closed_edge : (r c q : ℕ) → t.gotos r c ≡ some q → (close_root t).gotos r c ≡ some q
  unfolding close_root
  closed_edge r c q e = rw e

  pub closed_none : (r c : ℕ) → t.gotos r c ≡ none → 0 < r → (close_root t).gotos r c ≡ none
  unfolding close_root
  closed_none r c e h = rw e (ground (h, arith))

  pub closed_zero : (c : ℕ) → t.gotos 0 c ≡ none → c < 256 → (close_root t).gotos 0 c ≡ some 0
  unfolding close_root
  closed_zero c e h = rw e (ground (h, arith))

  module _ (failures : ℕ → Option ℕ) where
    -- A failure leads to the longest suffix of what is behind the first character of a word.
    abbrev pub AreFailures : Type 0
    AreFailures =
        (a : ℕ) (text : Bytes) (s f : ℕ)
        → follow t.gotos 0 (a ∷ text) ≡ some s
        → failures s ≡ some f
        → follow t.gotos 0 (longest t.gotos text) ≡ some f

    -- The words of so many characters have one.
    abbrev pub KnownTo : ℕ → Type 0
    KnownTo d =
        (a : ℕ) (text : Bytes) (s : ℕ)
        → follow t.gotos 0 (a ∷ text) ≡ some s
        → length (a ∷ text) ≤ d
        → (f : ℕ) × (failures s ≡ some f)

    longest_one : (c : ℕ) → t.gotos 0 c ≡ none → longest t.gotos (c ∷ []) ≡ []
    unfolding follow longest
    longest_one c e =
        longest_skip t.gotos c [] (spelled-none t.gotos (c ∷ []) (follow_stop t.gotos 0 c [] e))

    fall_edge :
        (n : ℕ) (text : Bytes) (r c q : ℕ)
        → follow t.gotos 0 text ≡ some r
        → t.gotos r c ≡ some q
        → (q : ℕ) × (fall (suc n) (close_root t).gotos failures r c ≡ some q)
          × (follow t.gotos 0 (longest t.gotos (text ++ c ∷ [])) ≡ some q)
    fall_edge n text r c q e edge =
        let at : follow t.gotos 0 (text ++ c ∷ []) ≡ some q =
          follow-append t.gotos 0 text c ∙ rw e edge in
        (
          q,
          fall_found (close_root t).gotos failures n r c q (closed_edge r c q edge),
          ap (follow t.gotos 0)
                (longest_self t.gotos (text ++ c ∷ []) (spelled-some t.gotos (text ++ c ∷ []) q at))
              ∙ at,
        )

    -- The loop over the failures ends at the longest suffix of the word with one more character.
    pub fall-longest :
        (n d : ℕ) (text : Bytes) (r c : ℕ)
        → AreFailures
        → KnownTo d
        → c < 256
        → length text < n
        → length text ≤ d
        → follow t.gotos 0 text ≡ some r
        → (q : ℕ) × (fall n (close_root t).gotos failures r c ≡ some q)
          × (follow t.gotos 0 (longest t.gotos (text ++ c ∷ [])) ≡ some q)
    fall-longest zero d text r c right known byte less short e = absurd (omega arith)
    fall-longest (suc n) d [] r c right known byte less short e =
        let zero_state : 0 ≡ r = cc (e, refl_follow t tree) in
        elim (Option-cases (t.gotos r c)) [
          | inr (q, edge) ↦ fall_edge n [] r c q e edge
          | inl stuck ↦
              let root = subst (λ x. t.gotos x c ≡ none) (sym zero_state) stuck in
              (
                0,
                subst (λ x. fall (suc n) (close_root t).gotos failures x c ≡ some 0) zero_state
                    (fall_found (close_root t).gotos failures n 0 c 0 (closed_zero c root byte)),
                ap (follow t.gotos 0) (longest_one c root) ∙ refl_follow t tree,
              )
        ]
    fall-longest (suc n) d (a ∷ text) r c right known byte less short e =
        elim (Option-cases (t.gotos r c)) [
          | inr (q, edge) ↦ fall_edge n (a ∷ text) r c q e edge
          | inl stuck ↦
              let (f, failure) = known a text r e short in
              let shorter = longest-length t.gotos text in
              let (q, falls, at) =
                fall-longest n d (longest t.gotos text) f c right known byte (omega arith)
                  (omega arith) (right a text r f e failure) in
              let positive : 0 < r = omega (arith, follow-length t tree (a ∷ text) r e) in
              let unspelled : spelled t.gotos (a ∷ text ++ c ∷ []) ≡ false =
                spelled-none t.gotos (a ∷ text ++ c ∷ [])
                  (follow-append t.gotos 0 (a ∷ text) c ∙ rw (e, stuck)) in
              (
                q,
                fall_next (close_root t).gotos failures n r c f (closed_none r c stuck positive)
                      failure
                    ∙ falls,
                ap (follow t.gotos 0) (
                      longest_skip t.gotos a (text ++ c ∷ []) unspelled
                      ∙ longest-append t.gotos text c)
                    ∙ at,
              )
        ]
