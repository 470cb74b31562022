-- ===== src/AhoCorasick/Links.antt =====
-- The failures and bits of `bkAhoCorasick`: what they mean, and what a new link does to them.
use bkjs_utils.Prelude.{
  ℕ, suc, ◌<◌, ◌≡◌, refl, sym, ap, subst, ◌∙◌, arith, Bytes, IsBytes, List, [], ◌∷◌, ◌++◌, Bool,
  true, false, ◌||◌, none, some, ◌==◌, ==_iff, length, map, All, get_elem?, Bool-cases,
  Option-cases, ◌⊎◌, inl, inr, ◌↔◌,
}
use mathlib.Core.List.{Memᴰ}
use mathlib.Core.List.Memᴰ
use bkjs_utils.Strings.{tolower}
use bkjs_utils.AhoCorasick.{Tables, empty_tables, add_words, Linked, link}
use bkjs_utils.AhoCorasick.Suffix.{
  follow, spelled-some, longest, longest_greatest, longest-IsSuffix, IsSuffix, IsSuffix-cons,
  IsSuffix-trans, IsSuffix-cases,
}
use bkjs_utils.AhoCorasick.Tree.{
  add_words-tree, word_bit, word_spelled, follow-length, follow_unique, refl_follow,
}
use bkjs_utils.AhoCorasick.Fall.{AreFailures}

-- The tables of the words, before the state 0 gets its edges.
abbrev pub words_tree : List Bytes → Tables
words_tree list = add_words 0 list empty_tables

-- The state has a failure.
abbrev pub Known : Linked → ℕ → Type 0
Known l s = (f : ℕ) × (l.failures s ≡ some f)

module _ (list : List Bytes) (bytes : All IsBytes list) where
  -- The state of a word.
  abbrev pub At : Bytes → ℕ → Type 0
  At text s = follow (words_tree list).gotos 0 text ≡ some s

  -- The bits of a state are those of the words that its word ends with.
  abbrev pub HasBits : (ℕ → Bool) → Bytes → Type 0
  HasBits bits text =
      (j : ℕ) (word : Bytes)
      → get_elem? list j ≡ some word
      → 0 < length word
      → (bits j ≡ true) ↔ IsSuffix (map tolower word) text

  -- The links that are there are right. The states in `Open` may have edges to states without a
  -- failure, and so may those that are queued.
  pub record IsLinked (Open : ℕ → Type 0) (l : Linked) : Type 0 where
    pub right : AreFailures (words_tree list) (add_words-tree list bytes) l.failures
    pub bits :
        (a : ℕ) (text : Bytes) (s : ℕ)
        → At (a ∷ text) s
        → Known l s
        → HasBits (l.matches s) (a ∷ text)
    pub fresh : (s j : ℕ) → l.failures s ≡ none → l.matches s j ≡ (words_tree list).matches s j
    pub root : l.failures 0 ≡ none
    pub closed :
        (s : ℕ)
        → Known l s
        → Open s
          ⊎ (Memᴰ s l.queued ⊎ ((c q : ℕ) → (words_tree list).gotos s c ≡ some q → Known l q))

  length-map : (word : Bytes) → length (map tolower word) ≡ length word
  length-map [] = refl
  length-map (c ∷ word) = ap suc (length-map word)

  -- A word that is not empty is no suffix of the empty word, and not that of the state 0.
  pub no_suffix : (word : Bytes) → 0 < length word → ¬ IsSuffix (map tolower word) []
  no_suffix word h ([], e) = omega (arith, ap length e, length-map word)
  no_suffix word h (b ∷ before, e) = absurd (cc e)

  root_bit :
      (j : ℕ) (word : Bytes)
      → get_elem? list j ≡ some word
      → 0 < length word
      → (words_tree list).matches 0 j ≡ false
  root_bit j word e h = elim (Bool-cases ((words_tree list).matches 0 j)) [
    | inr no_bit ↦ no_bit
    | inl bit ↦
        let tree = add_words-tree list bytes in
        absurd (
          omega (
            arith,
            follow-length (words_tree list) tree (map tolower word) 0
                ((word_bit list j word e 0).0 bit),
            length-map word,
            h,
          ))
  ]

  module _ (Open : ℕ → Type 0) (l : Linked) (linked : IsLinked Open l) where
    -- The bits of the state 0 and of those that have a failure.
    pub state-HasBits :
        (text : Bytes) (s : ℕ)
        → At text s
        → ((a : ℕ) (rest : Bytes) → text ≡ a ∷ rest → Known l s)
        → HasBits (l.matches s) text
    state-HasBits [] s at known j word e h =
        let zero_state : 0 ≡ s =
          cc (at, refl_follow (words_tree list) (add_words-tree list bytes)) in
        let none_bit : l.matches s j ≡ false =
          subst (λ x. l.matches x j ≡ false) zero_state
            (linked.fresh 0 j linked.root ∙ root_bit j word e h) in
        (λ bit. absurd (ground (none_bit, bit, arith)), λ suffix. absurd (no_suffix word h suffix))
    state-HasBits (a ∷ text) s at known j word e h =
        linked.bits a text s at (known a text refl) j word e h

    -- The bits of a state before it is linked: its own word is among them, and others only end it.
    before_link :
        (a : ℕ) (text : Bytes) (q j : ℕ) (word : Bytes)
        → At (a ∷ text) q
        → get_elem? list j ≡ some word
        → 0 < length word
        → ((l.matches q j ≡ true) → IsSuffix (map tolower word) (a ∷ text))
          × ((map tolower word ≡ a ∷ text) → l.matches q j ≡ true)
    before_link a text q j word at e h = elim (Option-cases (l.failures q)) [
      | inr (f, known) ↦
          let bits = linked.bits a text q at (f, known) j word e h in
          (bits.0, λ whole. bits.1 ([], sym whole))
      | inl unknown ↦
          let own = word_bit list j word e q in
          let same = linked.fresh q j unknown in
          (
            λ bit. (
              [],
              follow_unique (words_tree list) (add_words-tree list bytes) (a ∷ text)
                  (map tolower word) q at (own.0 (sym same ∙ bit)),
            ),
            λ whole. same ∙ own.1 (ap (follow (words_tree list).gotos 0) whole ∙ at),
          )
    ]

-- The failure and the bits of a state behind a new link.
link_at : (q f : ℕ) (more : ℕ → Bool) (l : Linked) → (link q f more l).failures q ≡ some f
unfolding link
link_at q f more l = ground arith

link_other :
    (q f : ℕ) (more : ℕ → Bool) (l : Linked) (s : ℕ)
    → (q == s) ≡ false
    → (link q f more l).failures s ≡ l.failures s
unfolding link
link_other q f more l s e = rw e

link_bit_at :
    (q f : ℕ) (more : ℕ → Bool) (l : Linked) (j : ℕ)
    → (link q f more l).matches q j ≡ (l.matches q j || more j)
unfolding link
link_bit_at q f more l j = ground arith

link_bit_other :
    (q f : ℕ) (more : ℕ → Bool) (l : Linked) (s j : ℕ)
    → (q == s) ≡ false
    → (link q f more l).matches s j ≡ l.matches s j
unfolding link
link_bit_other q f more l s j e = rw e

equal : (q s : ℕ) → (q == s) ≡ true → q ≡ s
equal q s = (==_iff q s).0

pub link-Known : (q f : ℕ) (more : ℕ → Bool) (l : Linked) → Known (link q f more l) q
link-Known q f more l = (f, link_at q f more l)

-- A link keeps the states that have a failure.
pub link_keeps :
    (q f : ℕ) (more : ℕ → Bool) (l : Linked) (s : ℕ) → Known l s → Known (link q f more l) s
link_keeps q f more l s (g, e) = elim (Bool-cases (q == s)) [
  | inl same ↦ subst (Known (link q f more l)) (equal q s same) (link-Known q f more l)
  | inr other ↦ (g, link_other q f more l s other ∙ e)
]

pub link_queued :
    (q f : ℕ) (more : ℕ → Bool) (l : Linked) → (link q f more l).queued ≡ l.queued ++ q ∷ []
unfolding link
link_queued q f more l = refl

module _ (list : List Bytes) (bytes : All IsBytes list) (Open : ℕ → Type 0) (l : Linked)
    (linked : IsLinked list bytes Open l) (a : ℕ) (text : Bytes) (q f : ℕ) (more : ℕ → Bool)
    (at : At list bytes (a ∷ text) q)
    (failure : At list bytes (longest (words_tree list).gotos text) f)
    (more_bits : HasBits list bytes more (longest (words_tree list).gotos text)) where
  linked_bits : HasBits list bytes ((link q f more l).matches q) (a ∷ text)
  linked_bits j word e h =
      let g = (words_tree list).gotos in
      let (own, whole) = before_link list bytes Open l linked a text q j word at e h in
      let added = more_bits j word e h in
      let both = link_bit_at q f more l j in
      (
        λ bit. elim (Bool-cases (l.matches q j)) [
          | inl old ↦ own old
          | inr new ↦ IsSuffix-cons a (map tolower word) text (
              IsSuffix-trans (map tolower word) (longest g text) text
                (added.0 (ground (bit, both, new, arith))) (longest-IsSuffix g text))
        ],
        λ suffix. elim (IsSuffix-cases a (map tolower word) text suffix) [
          | inl same ↦ both ∙ ground (whole same, arith)
          | inr (before, front) ↦
              let (s, spells) = word_spelled list j word e in
              let inside : IsSuffix (map tolower word) (longest g text) =
                subst (λ x. IsSuffix (map tolower word) (longest g x)) (sym front)
                  (longest_greatest g before (map tolower word)
                    (spelled-some g (map tolower word) s spells)) in
              both ∙ ground (added.1 inside, arith)
        ],
      )

  same_word : (b : ℕ) (rest : Bytes) → At list bytes (b ∷ rest) q → a ∷ text ≡ b ∷ rest
  same_word b rest other =
      follow_unique (words_tree list) (add_words-tree list bytes) (a ∷ text) (b ∷ rest) q at other

  linked_right :
      AreFailures (words_tree list) (add_words-tree list bytes) (link q f more l).failures
  linked_right b rest s g there e = elim (Bool-cases (q == s)) [
    | inr other ↦ linked.right b rest s g there (sym (link_other q f more l s other) ∙ e)
    | inl same ↦
        let here = equal q s same in
        let word = same_word b rest (subst (At list bytes (b ∷ rest)) (sym here) there) in
        let tails : text ≡ rest = cc word in
        let fails : f ≡ g = cc (e, link_at q f more l, here) in
        subst (λ x. At list bytes (longest (words_tree list).gotos x) g) tails
          (subst (At list bytes (longest (words_tree list).gotos text)) fails failure)
  ]

  linked_all_bits :
      (b : ℕ) (rest : Bytes) (s : ℕ)
      → At list bytes (b ∷ rest) s
      → Known (link q f more l) s
      → HasBits list bytes ((link q f more l).matches s) (b ∷ rest)
  linked_all_bits b rest s there (g, known) = elim (Bool-cases (q == s)) [
    | inl same ↦
        let here = equal q s same in
        let word = same_word b rest (subst (At list bytes (b ∷ rest)) (sym here) there) in
        subst (λ x. HasBits list bytes ((link q f more l).matches x) (b ∷ rest)) here
          (subst (HasBits list bytes ((link q f more l).matches q)) word linked_bits)
    | inr other ↦ λ j word e h.
        let bits =
          linked.bits b rest s there (g, sym (link_other q f more l s other) ∙ known) j word e h in
        let keeps = link_bit_other q f more l s j other in
        (λ bit. bits.0 (sym keeps ∙ bit), λ suffix. keeps ∙ bits.1 suffix)
  ]

  not_root : (q == 0) ≡ false
  not_root =
      let long = follow-length (words_tree list) (add_words-tree list bytes) (a ∷ text) q at in
      ground (long, arith)

  linked_fresh :
      (s j : ℕ)
      → (link q f more l).failures s ≡ none
      → (link q f more l).matches s j ≡ (words_tree list).matches s j
  linked_fresh s j e = elim (Bool-cases (q == s)) [
    | inl same ↦ absurd (cc (e, link_at q f more l, equal q s same))
    | inr other ↦
        link_bit_other q f more l s j other
        ∙ linked.fresh s j (sym (link_other q f more l s other) ∙ e)
  ]

  linked_closed :
      (s : ℕ)
      → Known (link q f more l) s
      → Open s
        ⊎ (Memᴰ s (link q f more l).queued
            ⊎ ((c p : ℕ) → (words_tree list).gotos s c ≡ some p → Known (link q f more l) p))
  linked_closed s (g, e) = elim (Bool-cases (q == s)) [
    | inl same ↦ inr (
        inl (
          rw (link_queued q f more l)
            (Memᴰ.append_right l.queued (Memᴰ.head (sym (equal q s same))))))
    | inr other ↦ elim (linked.closed s (g, sym (link_other q f more l s other) ∙ e)) [
      | inl open_state ↦ inl open_state
      | inr (inl queued) ↦
          inr (inl (rw (link_queued q f more l) (Memᴰ.append_left (q ∷ []) queued)))
      | inr (inr known) ↦ inr (inr (λ c p edge. link_keeps q f more l p (known c p edge)))
    ]
  ]

  -- A right link keeps the links right, and queues the state.
  pub link-IsLinked : IsLinked list bytes Open (link q f more l)
  link-IsLinked = record {
    right = linked_right;
    bits = linked_all_bits;
    fresh = linked_fresh;
    root = link_other q f more l 0 not_root ∙ linked.root;
    closed = linked_closed;
  }
