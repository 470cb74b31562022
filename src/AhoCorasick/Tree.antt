-- ===== src/AhoCorasick/Tree.antt =====
-- The edges of the words of `bkAhoCorasick` make a tree.
use bkjs_utils.Prelude.{
  ℕ, zero, suc, ◌+◌, ◌≤◌, ◌<◌, ◌≡◌, refl, sym, ap, subst, ◌∙◌, arith, Bytes, IsBytes, List, [], ◌∷◌,
  ◌++◌, true, ◌&&◌, Option, some, ◌==◌, length, length-append, length_zero, map, All, get_elem?,
  Bool-cases, Option-cases, ◌⊎◌, inl, inr, ◌↔◌,
}
use bkjs_utils.Strings.{tolower}
use bkjs_utils.AhoCorasick.{Tables, empty_tables, set_goto, add_letters, add_word, add_words}
use bkjs_utils.AhoCorasick.Trie.{
  walk, grown, add_letters_old, add_letters_new, marked_walk, add_words_complete,
}
use bkjs_utils.AhoCorasick.Suffix.{follow, follow_step, follow_stop, follow-append}

-- An edge of a byte leads to a greater state below `state`, and no two edges to one state.
pub record IsTree (t : Tables) : Type 0 where
  pub positive : 0 < t.state
  pub rises : (r c q : ℕ) → t.gotos r c ≡ some q → r < q
  pub bounded : (r c q : ℕ) → t.gotos r c ≡ some q → q < t.state
  pub is_byte : (r c q : ℕ) → t.gotos r c ≡ some q → c < 256
  pub from_one : (r c q s d : ℕ) → t.gotos r c ≡ some q → t.gotos s d ≡ some q → r ≡ s
  pub by_one : (r c q s d : ℕ) → t.gotos r c ≡ some q → t.gotos s d ≡ some q → c ≡ d

-- An edge of the grown tables is the new one or an old one.
grown-cases :
    (t : Tables) (r k s d q : ℕ)
    → (grown t r k).gotos s d ≡ some q
    → ((r ≡ s) × (tolower k ≡ d) × (q ≡ t.state)) ⊎ (t.gotos s d ≡ some q)
unfolding set_goto
grown-cases t r k s d q e = elim (Bool-cases (r == s && (tolower k == d))) [
  | inl same ↦ inl (ground (same, arith), ground (same, arith), ground (same, e, arith))
  | inr other ↦ inr (ground (other, e, arith))
]

grown-IsTree :
    (t : Tables) (r k : ℕ) → r < t.state → tolower k < 256 → IsTree t → IsTree (grown t r k)
grown-IsTree t r k less byte h = record {
  positive = omega arith;
  rises = λ s d q e. ground (grown-cases t r k s d q e, h.rises s d q, less, arith);
  bounded = λ s d q e. ground (grown-cases t r k s d q e, h.bounded s d q, arith);
  is_byte = λ s d q e. ground (grown-cases t r k s d q e, h.is_byte s d q, byte, arith);
  from_one = λ s d q s' d' e f. ground (
    grown-cases t r k s d q e,
    grown-cases t r k s' d' q f,
    h.from_one s d q s' d',
    h.bounded s d q,
    h.bounded s' d' q,
    arith,
  );
  by_one = λ s d q s' d' e f. ground (
    grown-cases t r k s d q e,
    grown-cases t r k s' d' q f,
    h.by_one s d q s' d',
    h.bounded s d q,
    h.bounded s' d' q,
    arith,
  );
}

pub tolower-byte : (k : ℕ) → k < 256 → tolower k < 256
unfolding tolower
tolower-byte k h = ground arith

add_letters-IsTree :
    (word : Bytes) (r : ℕ) (t : Tables)
    → IsBytes word
    → r < t.state
    → IsTree t
    → IsTree (add_letters word r t).1
unfolding add_letters
add_letters-IsTree [] r t b less h = h
add_letters-IsTree (k ∷ word) r t (byte, b) less h = elim (Option-cases (t.gotos r (tolower k))) [
  | inr (q, e) ↦
      rw (add_letters_old k word r q t e)
        (add_letters-IsTree word q t b (h.bounded r (tolower k) q e) h)
  | inl e ↦ rw (add_letters_new k word r t e) (
      add_letters-IsTree word t.state (grown t r k) b (omega arith)
        (grown-IsTree t r k less (tolower-byte k byte) h))
]

add_word-IsTree :
    (i : ℕ) (word : Bytes) (t : Tables) → IsBytes word → IsTree t → IsTree (add_word i word t)
unfolding add_word
add_word-IsTree i word t b h =
    let h' = add_letters-IsTree word 0 t b h.positive h in
    record {
      positive = h'.positive;
      rises = h'.rises;
      bounded = h'.bounded;
      is_byte = h'.is_byte;
      from_one = h'.from_one;
      by_one = h'.by_one;
    }

add_words-IsTree :
    (i : ℕ) (list : List Bytes) (t : Tables)
    → All IsBytes list
    → IsTree t
    → IsTree (add_words i list t)
unfolding add_words
add_words-IsTree i [] t b h = h
add_words-IsTree i (word ∷ list) t (byte, b) h =
    add_words-IsTree (suc i) list (add_word i word t) b (add_word-IsTree i word t byte h)

empty_tables-IsTree : IsTree empty_tables
empty_tables-IsTree = record {
  positive = omega arith;
  rises = λ r c q e. absurd (cc e);
  bounded = λ r c q e. absurd (cc e);
  is_byte = λ r c q e. absurd (cc e);
  from_one = λ r c q s d e f. cc e;
  by_one = λ r c q s d e f. cc e;
}

-- The tables of the words have such edges, and the bit of a word in the state that the word spells.
pub add_words-tree : (list : List Bytes) → All IsBytes list → IsTree (add_words 0 list empty_tables)
add_words-tree list b = add_words-IsTree 0 list empty_tables b empty_tables-IsTree

walk-follow :
    (g : ℕ → ℕ → Option ℕ) (r : ℕ) (word : Bytes) → walk g r word ≡ follow g r (map tolower word)
unfolding walk follow
walk-follow g r [] = refl
walk-follow g r (k ∷ word) = elim (Option-cases (g r (tolower k))) [
  | inl e ↦ rw (walk, follow, e)
  | inr (q, e) ↦ rw (walk, follow, e) (walk-follow g q word)
]

pub word_bit :
    (list : List Bytes) (j : ℕ) (word : Bytes)
    → get_elem? list j ≡ some word
    → (s : ℕ)
    → ((add_words 0 list empty_tables).matches s j ≡ true)
      ↔ (follow (add_words 0 list empty_tables).gotos 0 (map tolower word) ≡ some s)
word_bit list j word e s =
    let t = add_words 0 list empty_tables in
    let (n, walked, matched) = add_words_complete 0 list empty_tables j word e in
    let same = walk-follow t.gotos 0 word in
    (
      λ h. sym same ∙ marked_walk list j word e s h,
      λ h.
          let at : n ≡ s = cc (walked, same, h) in
          let number : 0 + j ≡ j = omega arith in
          subst (λ x. t.matches x j ≡ true) at (subst (λ x. t.matches n x ≡ true) number matched),
    )

pub word_spelled :
    (list : List Bytes) (j : ℕ) (word : Bytes)
    → get_elem? list j ≡ some word
    → (s : ℕ) × (follow (add_words 0 list empty_tables).gotos 0 (map tolower word) ≡ some s)
word_spelled list j word e =
    let (n, walked, _) = add_words_complete 0 list empty_tables j word e in
    (n, sym (walk-follow (add_words 0 list empty_tables).gotos 0 word) ∙ walked)

pub snoc-cases :
    (text : Bytes) → (text ≡ []) ⊎ ((front : Bytes) × (c : ℕ) × (text ≡ front ++ c ∷ []))
snoc-cases [] = inl refl
snoc-cases (a ∷ text) = elim (snoc-cases text) [
  | inl e ↦ inr ([], a, ap (λ x. a ∷ x) e)
  | inr (front, c, e) ↦ inr (a ∷ front, c, ap (λ x. a ∷ x) e)
]

pub follow-snoc :
    (g : ℕ → ℕ → Option ℕ) (text : Bytes) (c s : ℕ)
    → follow g 0 (text ++ c ∷ []) ≡ some s
    → (r : ℕ) × (follow g 0 text ≡ some r) × (g r c ≡ some s)
follow-snoc g text c s e = elim (Option-cases (follow g 0 text)) [
  | inl f ↦ absurd (cc (e, follow-append g 0 text c, f))
  | inr (r, f) ↦ (r, f, cc (e, follow-append g 0 text c, f))
]

module _ (t : Tables) (tree : IsTree t) where
  follow_rises :
      (r : ℕ) (text : Bytes) (s : ℕ) → follow t.gotos r text ≡ some s → r + length text ≤ s
  unfolding follow
  follow_rises r [] s e = ground (e, arith)
  follow_rises r (c ∷ text) s e = elim (Option-cases (t.gotos r c)) [
    | inl f ↦ absurd (cc (e, follow_stop t.gotos r c text f))
    | inr (q, f) ↦ omega (
      arith,
      tree.rises r c q f,
      follow_rises q text s (sym (follow_step t.gotos r c q text f) ∙ e),
    )
  ]

  -- A word is no longer than the number of its state.
  pub follow-length : (text : Bytes) (s : ℕ) → follow t.gotos 0 text ≡ some s → length text ≤ s
  follow-length text s e = omega (arith, follow_rises 0 text s e)

  pub follow_bounded : (text : Bytes) (s : ℕ) → follow t.gotos 0 text ≡ some s → s < t.state
  unfolding follow
  follow_bounded text s e = elim (snoc-cases text) [
    | inl f ↦ let z : 0 ≡ s = cc (e, f) in omega (arith, z, tree.positive)
    | inr (front, c, f) ↦
        let (r, _, edge) =
          follow-snoc t.gotos front c s (subst (λ x. follow t.gotos 0 x ≡ some s) f e) in
        tree.bounded r c s edge
  ]

  pub refl_follow : follow t.gotos 0 [] ≡ some 0
  unfolding follow
  refl_follow = refl

  -- The state 0 has the empty word.
  root_word : (v : Bytes) (s : ℕ) → some 0 ≡ some s → follow t.gotos 0 v ≡ some s → v ≡ []
  root_word v s e f = let z : 0 ≡ s = cc e in length_zero v (omega (arith, z, follow-length v s f))

  follow_unique_below :
      (n : ℕ) (u v : Bytes) (s : ℕ)
      → length u < n
      → follow t.gotos 0 u ≡ some s
      → follow t.gotos 0 v ≡ some s
      → u ≡ v
  follow_unique_below zero u v s h e f = absurd (omega arith)
  follow_unique_below (suc n) u v s h e f = elim (snoc-cases u) [
    | inl eu ↦ eu ∙ sym (root_word v s (cc (e, eu, refl_follow)) f)
    | inr (fu, c, eu) ↦ elim (snoc-cases v) [
      | inl ev ↦ root_word u s (cc (f, ev, refl_follow)) e ∙ sym ev
      | inr (fv, d, ev) ↦
          let (r, er, cr) =
            follow-snoc t.gotos fu c s (subst (λ x. follow t.gotos 0 x ≡ some s) eu e) in
          let (q, eq, dq) =
            follow-snoc t.gotos fv d s (subst (λ x. follow t.gotos 0 x ≡ some s) ev f) in
          let parent : r ≡ q = tree.from_one r c s q d cr dq in
          let letter : c ≡ d = tree.by_one r c s q d cr dq in
          let shorter : length fu < n = omega (arith, h, ap length eu, length-append fu (c ∷ [])) in
          let fronts : fu ≡ fv =
            follow_unique_below n fu fv r shorter er
              (subst (λ x. follow t.gotos 0 fv ≡ some x) (sym parent) eq) in
          cc (eu, ev, fronts, letter)
    ]
  ]

  -- A state has one word.
  pub follow_unique :
      (u v : Bytes) (s : ℕ) → follow t.gotos 0 u ≡ some s → follow t.gotos 0 v ≡ some s → u ≡ v
  follow_unique u v s e f = follow_unique_below (suc (length u)) u v s (omega arith) e f
