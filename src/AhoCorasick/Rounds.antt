-- ===== src/AhoCorasick/Rounds.antt =====
-- The loops of `bkAhoCorasick::prepare` over the characters of the state 0 and of another state.
use bkjs_utils.Prelude.{
  ℕ, suc, ◌+◌, ◌*◌, ◌-◌, ◌<◌, ◌≡◌, refl, sym, ap, subst, ◌∙◌, arith, Bytes, IsBytes, List, [], ◌∷◌,
  ◌++◌, false, Option, none, some, ◌==◌, length, length-append, All, Option-cases, inl, inr,
}
use native.Mathlib.Nat.{suc-mul}
use mathlib.Core.List.{Memᴰ}
use mathlib.Core.List.Memᴰ
use bkjs_utils.AhoCorasick.{
  Tables, close_root, Linked, link, fall, start_char, start_chars, link_char, link_chars, weight,
}
use bkjs_utils.AhoCorasick.Suffix.{follow, follow-append, longest, longest-append, longest-length}
use bkjs_utils.AhoCorasick.Tree.{IsTree, add_words-tree, follow-length, follow_bounded}
use bkjs_utils.AhoCorasick.Fall.{KnownTo, fall-longest, closed_edge, closed_none, closed_zero}
use bkjs_utils.AhoCorasick.Links.{
  words_tree, Known, At, IsLinked, state-HasBits, link-Known, no_suffix,
}
use bkjs_utils.AhoCorasick.Queue.{Shape, Steps, no-Steps, more-Steps, link-Steps}

module _ (t : Tables) where
  pub start_found :
      (c q : ℕ) (l : Linked)
      → t.gotos 0 c ≡ some q
      → (q == 0) ≡ false
      → start_char t c l ≡ link q 0 (λ j. false) l
  unfolding start_char
  start_found c q l e h = rw (start_char, e, h)

  pub start_none : (c : ℕ) (l : Linked) → t.gotos 0 c ≡ some 0 → start_char t c l ≡ l
  unfolding start_char
  start_none c l e = rw (start_char, e)

  link_found :
      (r c q failure f : ℕ) (l : Linked)
      → t.gotos r c ≡ some q
      → l.failures r ≡ some failure
      → fall t.state t.gotos l.failures failure c ≡ some f
      → link_char t r c l ≡ some (link q f (l.matches f) l)
  unfolding link_char
  link_found r c q failure f l e h falls = rw (link_char, e, h, falls)

  link_none : (r c : ℕ) (l : Linked) → t.gotos r c ≡ none → link_char t r c l ≡ some l
  unfolding link_char
  link_none r c l e = rw (link_char, e)

suc_times : (n k : ℕ) → k + n * k ≡ suc n * k
suc_times n k = omega (arith, suc-mul n k)

module _ (list : List Bytes) (bytes : All IsBytes list) (Open : ℕ → Type 0) where
  -- The tables with the edges of the state 0, and the edges without these.
  abbrev pub closed_tables : Tables
  closed_tables = close_root (words_tree list)

  abbrev pub edges : ℕ → ℕ → Option ℕ
  edges = (words_tree list).gotos

  -- The failures of the states behind an edge of a character.
  abbrev pub Reached : ℕ → ℕ → Linked → Type 0
  Reached r c m = (q : ℕ) → edges r c ≡ some q → Known m q

  abbrev pub tree : IsTree (words_tree list)
  tree = add_words-tree list bytes

  start_char-Steps :
      (c : ℕ) (l : Linked)
      → c < 256
      → IsLinked list bytes Open l
      → Shape list bytes 0 l.queued
      → Steps list bytes Open 0
          (weight ((words_tree list).state - 1))
          l
          (start_char closed_tables c l)
        × Reached 0 c (start_char closed_tables c l)
  unfolding follow longest
  start_char-Steps c l byte linked shape = elim (Option-cases (edges 0 c)) [
    | inl e ↦
        let same = start_none closed_tables c l (closed_zero (words_tree list) tree c e byte) in
        rw same (
          no-Steps list bytes Open 0 (weight ((words_tree list).state - 1)) l linked shape,
          λ q edge. absurd (cc (e, edge)),
        )
    | inr (q, e) ↦
        let less = tree.rises 0 c q e in
        let at : At list bytes (c ∷ []) q = follow-append edges 0 [] c ∙ e in
        let same =
          start_found closed_tables c q l (closed_edge (words_tree list) tree 0 c q e)
            (ground (less, arith)) in
        rw same (
          link-Steps list bytes Open 0 0 l c [] q 0 (λ j. false) linked shape at refl refl
              (λ j word f long. (
                λ wrong. absurd (ground (wrong, arith)),
                λ suffix. absurd (no_suffix list bytes word long suffix),
              ))
              less,
          λ p edge.
              let here : q ≡ p = cc (e, edge) in
              subst (Known (link q 0 (λ j. false) l)) here (link-Known q 0 (λ j. false) l),
        )
  ]

  link_char-Steps :
      (d r c : ℕ) (a : ℕ) (text : Bytes) (l : Linked)
      → c < 256
      → At list bytes (a ∷ text) r
      → length (a ∷ text) ≡ d
      → Known l r
      → KnownTo (words_tree list) tree l.failures d
      → IsLinked list bytes Open l
      → Shape list bytes d l.queued
      → (m : Linked) × (link_char closed_tables r c l ≡ some m)
        × Steps list bytes Open d (weight ((words_tree list).state - suc r)) l m
        × Reached r c m
  unfolding close_root
  link_char-Steps d r c a text l byte at long (failure, fails) known linked shape =
      let long_state = follow-length (words_tree list) tree (a ∷ text) r at in
      elim (Option-cases (edges r c)) [
        | inl e ↦ (
          l,
          link_none closed_tables r c l
              (closed_none (words_tree list) tree r c e (omega (arith, long_state))),
          no-Steps list bytes Open d (weight ((words_tree list).state - suc r)) l linked shape,
          λ q edge. absurd (cc (e, edge)),
        )
        | inr (q, e) ↦
            let failure_at = linked.right a text r failure at fails in
            let below = follow_bounded (words_tree list) tree (a ∷ text) r at in
            let (f, falls, found) =
              fall-longest (words_tree list) tree l.failures (words_tree list).state d
                (longest edges text) failure c linked.right known byte
                (omega (arith, longest-length edges text, below, long_state))
                (omega (arith, longest-length edges text, long)) failure_at in
            let next : Bytes = text ++ c ∷ [] in
            let f_at : At list bytes (longest edges next) f =
              ap (follow edges 0) (longest-append edges text c) ∙ found in
            let q_at : At list bytes (a ∷ next) q = follow-append edges 0 (a ∷ text) c ∙ rw at e in
            let count : length next ≡ d = omega (arith, length-append text (c ∷ []), long) in
            let bits =
              state-HasBits list bytes Open l linked (longest edges next) f f_at (λ b rest same.
                known b rest f (ap (follow edges 0) (sym same) ∙ f_at)
                  (omega (arith, ap length same, longest-length edges next, count))) in
            (
              link q f (l.matches f) l,
              link_found closed_tables r c q failure f l
                  (closed_edge (words_tree list) tree r c q e) fails falls,
              link-Steps list bytes Open d r l a next q f (l.matches f) linked shape q_at
                  (ap suc count) f_at bits (tree.rises r c q e),
              λ p edge.
                  let here : q ≡ p = cc (e, edge) in
                  subst (Known (link q f (l.matches f) l)) here (link-Known q f (l.matches f) l),
            )
      ]

  pub start_chars-Steps :
      (cs : List ℕ) (l : Linked)
      → All (λ c. c < 256) cs
      → IsLinked list bytes Open l
      → Shape list bytes 0 l.queued
      → Steps list bytes Open 0
          (length cs * weight ((words_tree list).state - 1))
          l
          (start_chars closed_tables cs l)
        × ((c : ℕ) → Memᴰ c cs → Reached 0 c (start_chars closed_tables cs l))
  unfolding start_chars
  start_chars-Steps [] l b linked shape =
      (no-Steps list bytes Open 0 _ l linked shape, λ c m. absurd (Memᴰ.not-nil m))
  start_chars-Steps (c ∷ cs) l (byte, b) linked shape =
      let (first, reached) = start_char-Steps c l byte linked shape in
      let (rest, others) =
        start_chars-Steps cs (start_char closed_tables c l) b first.linked first.shape in
      (
        subst
            (λ x.
              Steps list bytes Open 0 x l
                (start_chars closed_tables cs (start_char closed_tables c l)))
            (suc_times (length cs) (weight ((words_tree list).state - 1)))
            (more-Steps list bytes Open 0 _ _ l (start_char closed_tables c l) _ first rest),
        λ d m q edge. elim (Memᴰ.cases_cons m) [
          | inl here ↦ rest.keeps q (reached q (subst (λ x. edges 0 x ≡ some q) here edge))
          | inr later ↦ others d later q edge
        ],
      )

  pub link_chars-Steps :
      (cs : List ℕ) (d r : ℕ) (a : ℕ) (text : Bytes) (l : Linked)
      → All (λ c. c < 256) cs
      → At list bytes (a ∷ text) r
      → length (a ∷ text) ≡ d
      → Known l r
      → KnownTo (words_tree list) tree l.failures d
      → IsLinked list bytes Open l
      → Shape list bytes d l.queued
      → (m : Linked) × (link_chars closed_tables r cs l ≡ some m)
        × Steps list bytes Open d (length cs * weight ((words_tree list).state - suc r)) l m
        × ((c : ℕ) → Memᴰ c cs → Reached r c m)
  unfolding link_chars
  link_chars-Steps [] d r a text l b at long here known linked shape =
      (l, refl, no-Steps list bytes Open d _ l linked shape, λ c m. absurd (Memᴰ.not-nil m))
  link_chars-Steps (c ∷ cs) d r a text l (byte, b) at long here known linked shape =
      let (m, ran, first, reached) =
        link_char-Steps d r c a text l byte at long here known linked shape in
      let known' : KnownTo (words_tree list) tree m.failures d =
        λ x rest s there short. first.keeps s (known x rest s there short) in
      let (n, ran', rest, others) =
        link_chars-Steps cs d r a text m b at long (first.keeps r here) known' first.linked
          first.shape in
      (
        n,
        rw ran ran',
        subst (λ x. Steps list bytes Open d x l n)
            (suc_times (length cs) (weight ((words_tree list).state - suc r)))
            (more-Steps list bytes Open d _ _ l m n first rest),
        λ k mem q edge. elim (Memᴰ.cases_cons mem) [
          | inl same ↦ rest.keeps q (reached q (subst (λ x. edges r x ≡ some q) same edge))
          | inr later ↦ others k later q edge
        ],
      )
