-- ===== src/AhoCorasick/Queue.antt =====
-- The loops of `bkAhoCorasick::prepare` over the characters of a state.
use bkjs_utils.Prelude.{
  ℕ, zero, suc, ◌+◌, ◌-◌, ◌≤◌, ◌<◌, ◌≡◌, refl, sym, ap, subst, ◌∙◌, arith, Bytes, IsBytes, List, [],
  ◌∷◌, ◌++◌, append_assoc, Bool, ◌==◌, ==_iff, length, All, Bool-cases, inl, inr,
}
use mathlib.Core.List.{Memᴰ}
use mathlib.Core.List.Memᴰ
use bkjs_utils.AhoCorasick.{Linked, link, up_from, characters, weight}
use bkjs_utils.AhoCorasick.Suffix.{longest}
use bkjs_utils.AhoCorasick.Links.{
  words_tree, Known, At, HasBits, IsLinked, link_keeps, link_queued, link-IsLinked,
}

-- What is in the loop over the characters.
up_from-All : (n c : ℕ) → c + n ≤ 256 → All (λ k. k < 256) (up_from c n)
unfolding up_from
up_from-All zero c h = tt
up_from-All (suc n) c h = (omega arith, up_from-All n (suc c) (omega arith))

up_from-Mem : (n c k : ℕ) → c ≤ k → k < c + n → Memᴰ k (up_from c n)
unfolding up_from
up_from-Mem zero c k h less = absurd (omega arith)
up_from-Mem (suc n) c k h less = elim (Bool-cases (k == c)) [
  | inl same ↦ Memᴰ.head ((==_iff k c).0 same)
  | inr other ↦ Memᴰ.tail (up_from-Mem n (suc c) k (ground (other, h, arith)) (omega arith))
]

length-up_from : (n c : ℕ) → length (up_from c n) ≡ n
unfolding up_from
length-up_from zero c = refl
length-up_from (suc n) c = ap suc (length-up_from n (suc c))

pub characters-All : All (λ k. k < 256) characters
unfolding characters
characters-All = up_from-All 256 0 (omega arith)

pub characters-Mem : (k : ℕ) → k < 256 → Memᴰ k characters
unfolding characters
characters-Mem k h = up_from-Mem 256 0 k (omega arith) (omega arith)

pub length-characters : length characters ≡ 256
unfolding characters
length-characters = length-up_from 256 0

pub weight_positive : (k : ℕ) → 0 < weight k
unfolding weight
weight_positive zero = omega arith
weight_positive (suc k) = omega (arith, weight_positive k)

weight_mono : (m k : ℕ) → k ≤ m → weight k ≤ weight m
unfolding weight
weight_mono zero zero h = omega arith
weight_mono zero (suc k) h = absurd (omega arith)
weight_mono (suc m) zero h = weight_positive (suc m)
weight_mono (suc m) (suc k) h = omega (arith, weight_mono m k (omega arith))

-- The weights of the states of a queue, where there are `n` states.
unfoldable pub total : ℕ → List ℕ → ℕ
total n [] = 0
total n (s ∷ queued) = weight (n - s) + total n queued

total-append : (n : ℕ) (xs : List ℕ) (q : ℕ) → total n (xs ++ q ∷ []) ≡ weight (n - q) + total n xs
unfolding total
total-append n [] q = refl
total-append n (x ∷ xs) q = omega (arith, total-append n xs q)

module _ (list : List Bytes) (bytes : All IsBytes list) where
  -- The word of the state has so many characters.
  abbrev pub Level : ℕ → ℕ → Type 0
  Level d s = (text : Bytes) × (At list bytes text s) × (length text ≡ d)

  -- The queue has states of one level, and behind them states of the next.
  abbrev pub Shape : ℕ → List ℕ → Type 0
  Shape d queued =
      (xs : List ℕ) × (ys : List ℕ) × (queued ≡ xs ++ ys)
      × ((s : ℕ) → Memᴰ s xs → Level d s)
      × ((s : ℕ) → Memᴰ s ys → Level (suc d) s)

  Shape-append :
      (d : ℕ) (queued : List ℕ) (q : ℕ)
      → Shape d queued
      → Level (suc d) q
      → Shape d (queued ++ q ∷ [])
  Shape-append d queued q (xs, ys, e, low, high) level = (
    xs,
    ys ++ q ∷ [],
    ap (λ x. x ++ q ∷ []) e ∙ append_assoc xs ys (q ∷ []),
    low,
    λ s m. elim (Memᴰ.append_cases ys m) [
      | inl old ↦ high s old
      | inr new ↦ subst (Level (suc d)) (sym (Memᴰ.eq_of_singleton new)) level
    ],
  )

  -- What some rounds lead to.
  pub record Steps (Open : ℕ → Type 0) (d cost : ℕ) (l m : Linked) : Type 0 where
    pub linked : IsLinked list bytes Open m
    pub shape : Shape d m.queued
    pub keeps : (s : ℕ) → Known l s → Known m s
    pub costs :
        total (words_tree list).state m.queued ≤ cost + total (words_tree list).state l.queued

  pub no-Steps :
      (Open : ℕ → Type 0) (d cost : ℕ) (l : Linked)
      → IsLinked list bytes Open l
      → Shape d l.queued
      → Steps Open d cost l l
  no-Steps Open d cost l linked shape = record {
    linked = linked;
    shape = shape;
    keeps = λ s k. k;
    costs = omega arith;
  }

  pub more-Steps :
      (Open : ℕ → Type 0) (d cost costs : ℕ) (l m n : Linked)
      → Steps Open d cost l m
      → Steps Open d costs m n
      → Steps Open d (cost + costs) l n
  more-Steps Open d cost costs l m n first next = record {
    linked = next.linked;
    shape = next.shape;
    keeps = λ s k. next.keeps s (first.keeps s k);
    costs = omega (arith, first.costs, next.costs);
  }

  -- A right link of a state behind `r`.
  pub link-Steps :
      (Open : ℕ → Type 0) (d r : ℕ) (l : Linked) (a : ℕ) (text : Bytes) (q f : ℕ) (more : ℕ → Bool)
      → IsLinked list bytes Open l
      → Shape d l.queued
      → At list bytes (a ∷ text) q
      → length (a ∷ text) ≡ suc d
      → At list bytes (longest (words_tree list).gotos text) f
      → HasBits list bytes more (longest (words_tree list).gotos text)
      → r < q
      → Steps Open d (weight ((words_tree list).state - suc r)) l (link q f more l)
  link-Steps Open d r l a text q f more linked shape at long failure bits less =
      let n = (words_tree list).state in
      record {
        linked = link-IsLinked list bytes Open l linked a text q f more at failure bits;
        shape = rw (link_queued q f more l) (Shape-append d l.queued q shape (a ∷ text, at, long));
        keeps = λ s k. link_keeps q f more l s k;
        costs = rw (link_queued q f more l) (
            omega
              (arith, total-append n l.queued q, weight_mono (n - suc r) (n - q) (omega arith)));
      }
