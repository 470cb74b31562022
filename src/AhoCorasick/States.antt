-- ===== src/AhoCorasick/States.antt =====
-- The loop of `bkAhoCorasick::prepare` over the queued states.
use bkjs_utils.Prelude.{
  ℕ, zero, suc, ◌≤◌, ◌<◌, ◌≡◌, refl, sym, ap, subst, ◌∙◌, arith, Bytes, IsBytes, List, [], ◌∷◌,
  ◌==◌, length, length-append, append-nil, All, Bool-cases, inl, inr,
}
use mathlib.Core.List.{Memᴰ}
use mathlib.Core.List.Memᴰ
use bkjs_utils.AhoCorasick.{Tables, close_root, Linked}
use bkjs_utils.AhoCorasick.Tree.{IsTree, add_words-tree, follow_unique, follow-snoc, snoc-cases}
use bkjs_utils.AhoCorasick.Fall.{KnownTo}
use bkjs_utils.AhoCorasick.Links.{words_tree, At, IsLinked}
use bkjs_utils.AhoCorasick.Queue.{Level, Shape}

module _ (list : List Bytes) (bytes : All IsBytes list) where
  abbrev pub tree : IsTree (words_tree list)
  tree = add_words-tree list bytes

  abbrev pub closed : Tables
  closed = close_root (words_tree list)

  abbrev pub AllTo : ℕ → Linked → Type 0
  AllTo d l = KnownTo (words_tree list) tree l.failures d

  -- Nothing is open.
  abbrev pub NoState : ℕ → Type 0
  NoState s = ⊥

  -- Where no state of a level is queued, the states of the next level have failures.
  next-Level :
      (d : ℕ) (l : Linked)
      → 0 < d
      → IsLinked list bytes NoState l
      → ((s : ℕ) → Memᴰ s l.queued → Level list bytes d s → ⊥)
      → AllTo d l
      → AllTo (suc d) l
  next-Level d l positive linked elsewhere known a text s at short = elim (snoc-cases text) [
    | inl e ↦ known a text s at (omega (arith, ap length e, positive))
    | inr (front, c, e) ↦
        let count = length-append front (c ∷ []) in
        let (r, parent, edge) =
          follow-snoc (words_tree list).gotos (a ∷ front) c s
            (subst (λ x. At list bytes (a ∷ x) s) e at) in
        let near : length (a ∷ front) ≤ d = omega (arith, ap length e, count, short) in
        elim (linked.closed r (known a front r parent near)) [
          | inl never ↦ absurd never
          | inr (inr children) ↦ children c s edge
          | inr (inl queued) ↦ elim (Bool-cases (length (a ∷ front) == d)) [
            | inl same ↦ absurd (elsewhere r queued (a ∷ front, parent, ground (same, arith)))
            | inr differ ↦ known a text s at (ground (near, differ, e, count, ap length e, arith))
          ]
        ]
  ]

  levels_differ : (d s : ℕ) → Level list bytes (suc d) s → Level list bytes d s → ⊥
  levels_differ d s (u, at_u, long) (v, at_v, short) =
      let same = follow_unique (words_tree list) tree u v s at_u at_v in
      omega (arith, ap length same, long, short)

  -- Where nothing is queued, every state has a failure.
  pub all_levels :
      (l : Linked)
      → IsLinked list bytes NoState l
      → l.queued ≡ []
      → AllTo 1 l
      → (d : ℕ) → AllTo (suc d) l
  all_levels l linked empty known zero = known
  all_levels l linked empty known (suc d) =
      next-Level (suc d) l (omega arith) linked (λ s m level. Memᴰ.not-nil (subst (Memᴰ s) empty m))
        (all_levels l linked empty known d)

  -- A queue that is not empty begins with a state of the least level.
  pub front-Level :
      (d : ℕ) (l : Linked) (r : ℕ) (rest : List ℕ)
      → 0 < d
      → IsLinked list bytes NoState l
      → AllTo d l
      → l.queued ≡ r ∷ rest
      → Shape list bytes d (r ∷ rest)
      → (e : ℕ) × (0 < e) × AllTo e l × Level list bytes e r × Shape list bytes e rest
  front-Level d l r rest positive linked known queue (x ∷ xs, ys, e, low, high) = (
    d,
    positive,
    known,
    low r (Memᴰ.head (cc e)),
    (xs, ys, cc e, λ s m. low s (Memᴰ.tail m), high),
  )
  front-Level d l r rest positive linked known queue ([], ys, e, low, high) = (
    suc d,
    omega arith,
    next-Level d l positive linked
        (λ s m level. levels_differ d s (high s (subst (Memᴰ s) (queue ∙ e) m)) level) known,
    high r (subst (Memᴰ r) e (Memᴰ.head refl)),
    (
      rest,
      [],
      sym (append-nil rest),
      λ s m. high s (subst (Memᴰ s) e (Memᴰ.tail m)),
      λ s m. absurd (Memᴰ.not-nil m),
    ),
  )
