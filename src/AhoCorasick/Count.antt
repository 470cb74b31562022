-- ===== src/AhoCorasick/Count.antt =====
-- The loop of `bkAhoCorasick::search` over the text.
use bkjs_utils.Prelude.{
  ℕ, zero, suc, ◌+◌, ◌*◌, ◌^◌, ◌≤◌, ◌<◌, ◌≡◌, refl, sym, ap, subst, ◌∙◌, arith, Bytes, IsBytes,
  List, [], ◌∷◌, ◌++◌, append_assoc, Bool, true, Option, some, ltb, length, length-append, map,
  take, take_all, get_or, get_elem?, All, Bool-cases, inl, inr, ◌↔◌,
}
use bkjs_utils.Strings.{tolower}
use bkjs_utils.CountWords.Spec.{count_below}
use bkjs_utils.AhoCorasick.{close_root, Linked, Prepared, fall, prepare}
use bkjs_utils.AhoCorasick.Suffix.{
  follow, spelled-some, longest, longest-append, longest-IsSuffix, longest_greatest, IsSuffix,
  IsSuffix-trans,
}
use bkjs_utils.AhoCorasick.Tree.{
  word_spelled, tolower-byte, follow-length, follow_bounded, refl_follow,
}
use bkjs_utils.AhoCorasick.Fall.{fall-longest}
use bkjs_utils.AhoCorasick.Links.{words_tree, At, state-HasBits}
use bkjs_utils.AhoCorasick.States.{tree, closed, AllTo, NoState, all_levels}
use bkjs_utils.AhoCorasick.Rest.{Left, states}
use bkjs_utils.AhoCorasick.Built.{prepare-Left}
use bkjs_utils.AhoCorasick.Search.{Counts, search_text, no_counts, count_all}
use bkjs_utils.AhoCorasick.Hits.{
  lower, IsAscii, take-lower, ends_at, ends_at_hit, ends_at_none, ends_at_empty,
}
use bkjs_utils.AhoCorasick.Tally.{
  AreBits, Tallied, IsTotal, one, search_words-Tallied, skip-search_words, no_counts-length,
  no_counts_zero, no_counts-IsTotal, sum,
}

suc-mul : (n k : ℕ) → suc n * k ≡ k + n * k
suc-mul n k = ground arith

pub get_or-IsAscii : (text : Bytes) → IsAscii text → (i : ℕ) → get_or text i 0 < 128
get_or-IsAscii [] ascii i = omega arith
get_or-IsAscii (c ∷ text) (h, ascii) zero = h
get_or-IsAscii (c ∷ text) (h, ascii) (suc i) = get_or-IsAscii text ascii i

lower-append : (front : Bytes) (c : ℕ) → lower (front ++ c ∷ []) ≡ lower front ++ tolower c ∷ []
lower-append [] c = refl
lower-append (a ∷ front) c = ap (λ x. tolower a ∷ x) (lower-append front c)

module _ (list : List Bytes) (bytes : All IsBytes list) (m : Linked)
    (left : Left list bytes m) where
  abbrev edges : ℕ → ℕ → Option ℕ
  edges = (words_tree list).gotos

  -- The state after a text is that of its longest suffix with which a word begins.
  abbrev After : Bytes → ℕ → Type 0
  After front state = At list bytes (longest edges (lower front)) state

  known_to : (d : ℕ) → AllTo list bytes (suc d) m
  known_to d = all_levels list bytes m left.0 left.1 left.2 d

  next_state :
      (front : Bytes) (c state : ℕ)
      → c < 256
      → After front state
      → (q : ℕ) × (fall (states list bytes) (closed list bytes).gotos m.failures state (tolower c)
          ≡ some q)
        × After (front ++ c ∷ []) q
  next_state front c state byte at =
      let text = longest edges (lower front) in
      let (q, falls, found) =
        fall-longest (words_tree list) (tree list bytes) m.failures (states list bytes)
          (suc (length text)) text state (tolower c) left.0.right (known_to (length text))
          (tolower-byte c byte)
          (omega (
            arith,
            follow-length (words_tree list) (tree list bytes) text state at,
            follow_bounded (words_tree list) (tree list bytes) text state at,
          ))
          (omega arith) at in
      (
        q,
        falls,
        ap (λ x. follow edges 0 (longest edges x)) (lower-append front c)
            ∙ ap (follow edges 0) (longest-append edges (lower front) (tolower c))
            ∙ found,
      )

  state_bits :
      (front : Bytes) (state j : ℕ) (word : Bytes)
      → After front state
      → get_elem? list j ≡ some word
      → 0 < length word
      → (m.matches state j ≡ true) ↔ IsSuffix (lower word) (lower front)
  state_bits front state j word at e h =
      let text = longest edges (lower front) in
      let bits =
        state-HasBits list bytes (NoState list bytes) m left.0 text state at
          (λ a rest same.
            known_to (length text) a rest state (ap (follow edges 0) (sym same) ∙ at)
              (omega (arith, ap length same)))
          j word e h in
      let (s, spells) = word_spelled list j word e in
      (
        λ bit.
            IsSuffix-trans (lower word) text (lower front) (bits.0 bit)
              (longest-IsSuffix edges (lower front)),
        λ (before, ends). bits.1 (
            subst (λ x. IsSuffix (lower word) (longest edges x)) (sym ends)
              (longest_greatest edges before (lower word)
                (spelled-some edges (lower word) s spells))),
      )

  module _ (alphabet : ℕ → Bool) (text : Bytes) (ascii : IsAscii text) where
    bits_here :
        (front rest : Bytes) (c i state : ℕ)
        → text ≡ (front ++ c ∷ []) ++ rest
        → length front ≡ i
        → After (front ++ c ∷ []) state
        → AreBits alphabet text i (m.matches state) 0 list
    bits_here front rest c i state whole long at k word e =
        let count = length-append front (c ∷ []) in
        let inside : i < length text =
          omega (arith, ap length whole, length-append (front ++ c ∷ []) rest, count, long) in
        let here : suc i ≡ length (front ++ c ∷ []) = omega (arith, count, long) in
        let seen : take (suc i) (lower text) ≡ lower (front ++ c ∷ []) =
          take-lower (suc i) text
          ∙ ap lower (
              ap (λ n. take n text) here
              ∙ ap (take (length (front ++ c ∷ []))) whole
              ∙ take_all (front ++ c ∷ []) rest) in
        let number : 0 + k ≡ k = omega arith in
        let iff = state_bits (front ++ c ∷ []) state k word at e in
        (
          λ set.
              let bit : m.matches state k ≡ true =
                ap (m.matches state) (sym number) ∙ ground (set, arith) in
              let some_char : 0 < length word = ground (set, arith) in
              ends_at_hit alphabet text (get_or-IsAscii text ascii) i word inside some_char
                (subst (IsSuffix (lower word)) (sym seen) ((iff some_char).0 bit)),
          λ unset. elim (Bool-cases (ltb 0 (length word))) [
            | inr empty ↦ ends_at_empty alphabet text i word empty
            | inl full ↦
                let some_char : 0 < length word = ground (full, arith) in
                ends_at_none alphabet text i word inside (λ suffix.
                  let bit = (iff some_char).1 (subst (IsSuffix (lower word)) seen suffix) in
                  let bit' : m.matches state (0 + k) ≡ true = ap (m.matches state) number ∙ bit in
                  absurd (ground (unset, full, bit', arith)))
          ],
        )

    -- The counts after the first `i` characters.
    pub record IsCounted (i : ℕ) (found : Counts) : Type 0 where
      pub lengths : length found.counters ≡ length list
      pub totals : IsTotal found
      pub counts :
          (j : ℕ) (word : Bytes)
          → get_elem? list j ≡ some word
          → get_or found.counters j 0 ≡ count_below i (ends_at alphabet text word)

    count_below-suc :
        (n k : ℕ) (p : ℕ → Bool) → k ≡ count_below n p → k + one (p n) ≡ count_below (suc n) p
    unfolding count_below
    count_below-suc n k p e = elim (Bool-cases (p n)) [
      | inl h ↦ rw h (omega (arith, e))
      | inr h ↦ rw h (omega (arith, e))
    ]

    Tallied-IsCounted :
        (i state : ℕ) (found found' : Counts)
        → IsCounted i found
        → Tallied alphabet text i (m.matches state) 0 list found found'
        → IsCounted (suc i) found'
    Tallied-IsCounted i state found found' counted tallied = record {
      lengths = tallied.lengths ∙ counted.lengths;
      totals = tallied.totals counted.totals;
      counts = λ j word e.
          let number : 0 + j ≡ j = omega arith in
          ap (λ n. get_or found'.counters n 0) (sym number)
          ∙ tallied.at j word e
          ∙ ap (λ n. get_or found.counters n 0 + one (ends_at alphabet text word i)) number
          ∙ count_below-suc i (get_or found.counters j 0) (ends_at alphabet text word)
              (counted.counts j word e);
    }

    abbrev prepared : Prepared
    prepared = record { tables = closed list bytes; linked = m }

    -- A round of the loop over the text.
    next_char :
        (front rest : Bytes) (c i state : ℕ) (found : Counts)
        → text ≡ (front ++ c ∷ []) ++ rest
        → length front ≡ i
        → c < 256
        → After front state
        → IsCounted i found
        → found.count + length list < 2 ^ 31
        → (q : ℕ) × (found' : Counts) × (search_text alphabet text prepared list i
              (c ∷ rest)
              state
              found
            ≡ search_text alphabet text prepared list (suc i) rest q found')
          × After (front ++ c ∷ []) q
          × IsCounted (suc i) found'
          × (found'.count ≤ found.count + length list)
    unfolding search_text close_root
    next_char front rest c i state found whole long byte at counted small =
        let (q, falls, next) = next_state front c state byte at in
        let (found', ran, tallied) =
          search_words-Tallied alphabet text i (m.matches q) 0 list found
            (bits_here front rest c i q whole long next) (omega (arith, counted.lengths)) small in
        (
          q,
          found',
          rw (search_text, falls, skip-search_words alphabet text i (m.matches q) list found, ran),
          next,
          Tallied-IsCounted i q found found' counted tallied,
          tallied.grown,
        )

    search_text-IsCounted :
        (front rest : Bytes) (i state : ℕ) (found : Counts)
        → text ≡ front ++ rest
        → length front ≡ i
        → IsAscii rest
        → After front state
        → IsCounted i found
        → found.count + length rest * length list < 2 ^ 31
        → (found' : Counts) × (search_text alphabet text prepared list i rest state found
            ≡ some found')
          × IsCounted (i + length rest) found'
    unfolding search_text
    search_text-IsCounted front [] i state found whole long a at counted room =
        let same : i ≡ i + 0 = omega arith in
        (found, refl, subst (λ n. IsCounted n found) same counted)
    search_text-IsCounted front (c ∷ rest) i state found whole long (small, a) at counted room =
        let rounds = suc-mul (length rest) (length list) in
        let more : text ≡ (front ++ c ∷ []) ++ rest =
          whole ∙ sym (append_assoc front (c ∷ []) rest) in
        let (q, found', ran, next, counted', grown) =
          next_char front rest c i state found more long (omega (arith, small)) at counted
            (omega (arith, room, rounds)) in
        let (last, ran', counts) =
          search_text-IsCounted (front ++ c ∷ []) rest (suc i) q found' more
            (omega (arith, long, length-append front (c ∷ []))) a next counted'
            (omega (arith, room, rounds, grown)) in
        let same : suc i + length rest ≡ i + suc (length rest) = omega arith in
        (last, ran ∙ ran', subst (λ n. IsCounted n last) same counts)

    start-IsCounted : IsCounted 0 (no_counts list)
    unfolding count_below
    start-IsCounted = record {
      lengths = no_counts-length list;
      totals = no_counts-IsTotal list;
      counts = λ j word e. no_counts_zero list j;
    }

    start-After : After [] 0
    unfolding longest
    start-After = refl_follow (words_tree list) (tree list bytes)

    pub count_all-IsCounted :
        length text * length list < 2 ^ 31
        → (found : Counts) × (count_all alphabet prepared list text ≡ some found)
          × IsCounted (length text) found
    unfolding count_all no_counts
    count_all-IsCounted room =
        let (found, ran, counts) =
          search_text-IsCounted [] text 0 0 (no_counts list) refl refl ascii start-After
            start-IsCounted (omega (arith, room)) in
        let number : 0 + length text ≡ length text = omega arith in
        (found, ran, subst (λ n. IsCounted n found) number counts)

-- A list with these elements.
counters_map :
    (counters : List ℕ) (list : List Bytes) (f : Bytes → ℕ)
    → length counters ≡ length list
    → ((j : ℕ) (word : Bytes) → get_elem? list j ≡ some word → get_or counters j 0 ≡ f word)
    → counters ≡ map f list
counters_map [] [] f e h = refl
counters_map [] (word ∷ list) f e h = absurd (omega (arith, e))
counters_map (n ∷ counters) [] f e h = absurd (omega (arith, e))
counters_map (n ∷ counters) (word ∷ list) f e h =
    let rest = counters_map counters list f (omega (arith, e)) (λ j w found. h (suc j) w found) in
    let here : n ≡ f word = h 0 word refl in rw (here, rest)

pub count_all-ends_at :
    (list : List Bytes) (alphabet : ℕ → Bool) (text : Bytes)
    → All IsBytes list
    → length list < 32
    → IsAscii text
    → length text * length list < 2 ^ 31
    → (p : Prepared) × (found : Counts) × (prepare list ≡ some p)
      × (count_all alphabet p list text ≡ some found)
      × (found.counters ≡ map (λ word. count_below (length text) (ends_at alphabet text word)) list)
      × (found.count ≡ sum found.counters)
count_all-ends_at list alphabet text bytes few ascii room =
    let (m, ran, left) = prepare-Left list bytes few in
    let (found, searched, counts) =
      count_all-IsCounted list bytes m left alphabet text ascii room in
    (
      record { tables = closed list bytes; linked = m },
      found,
      ran,
      searched,
      counters_map found.counters list
          (λ word. count_below (length text) (ends_at alphabet text word)) counts.lengths
          counts.counts,
      counts.totals,
    )
