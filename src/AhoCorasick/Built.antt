-- ===== src/AhoCorasick/Built.antt =====
-- `bkAhoCorasick::prepare` as a whole.
use bkjs_utils.Prelude.{
  ℕ, ◌+◌, ◌*◌, ◌-◌, ◌≤◌, ◌<◌, ◌≡◌, refl, sym, ap, subst, ◌∙◌, arith, Bytes, IsBytes, List, [], ◌∷◌,
  false, none, some, length, append-nil, All, Option-cases, inl, inr, lt→ltb,
}
use mathlib.Core.List.{Memᴰ}
use mathlib.Core.List.Memᴰ
use bkjs_utils.AhoCorasick.{
  close_root, Linked, characters, start_char, start_chars, weight, trie, prepare,
}
use bkjs_utils.AhoCorasick.Suffix.{follow, follow_one, longest}
use bkjs_utils.AhoCorasick.Fall.{closed_zero, closed_edge}
use bkjs_utils.AhoCorasick.Links.{words_tree, IsLinked, link_queued}
use bkjs_utils.AhoCorasick.Queue.{
  Level, characters-All, characters-Mem, length-characters, weight_positive, total,
}
use bkjs_utils.AhoCorasick.Rounds.{start_chars-Steps, start_found, start_none, Reached}
use bkjs_utils.AhoCorasick.States.{tree, closed, AllTo, NoState}
use bkjs_utils.AhoCorasick.Rest.{Between, Left, states, link_states-Left, weight_step}

module _ (list : List Bytes) (bytes : All IsBytes list) where
  -- The links before the loop over the edges of the state 0.
  abbrev unlinked : Linked
  unlinked = record { failures = λ s. none; matches = (closed list bytes).matches; queued = [] }

  unlinked-IsLinked : IsLinked list bytes (NoState list bytes) unlinked
  unfolding close_root
  unlinked-IsLinked = record {
    right = λ a text s f at e. absurd (cc e);
    bits = λ a text s at (f, e). absurd (cc e);
    fresh = λ s j e. refl;
    root = refl;
    closed = λ s (f, e). absurd (cc e);
  }

  -- The queued states are those of one character.
  abbrev Ones : Linked → Type 0
  Ones l = (s : ℕ) → Memᴰ s l.queued → Level list bytes 1 s

  start_char-Level :
      (c : ℕ) (l : Linked) → c < 256 → Ones l → Ones (start_char (closed list bytes) c l)
  unfolding close_root
  start_char-Level c l byte ones = elim (Option-cases ((words_tree list).gotos 0 c)) [
    | inl e ↦
        let same =
          start_none (closed list bytes) c l
            (closed_zero (words_tree list) (tree list bytes) c e byte) in
        subst Ones (sym same) ones
    | inr (q, e) ↦
        let less = (tree list bytes).rises 0 c q e in
        let same =
          start_found (closed list bytes) c q l
            (closed_edge (words_tree list) (tree list bytes) 0 c q e) (ground (less, arith)) in
        subst Ones (sym same) (λ s m.
          elim (Memᴰ.append_cases l.queued (subst (Memᴰ s) (link_queued q 0 (λ j. false) l) m)) [
            | inl old ↦ ones s old
            | inr new ↦
                subst (Level list bytes 1) (sym (Memᴰ.eq_of_singleton new))
                  (c ∷ [], follow_one (words_tree list).gotos c ∙ e, refl)
          ])
  ]

  start_chars-Level :
      (cs : List ℕ) (l : Linked)
      → All (λ c. c < 256) cs
      → Ones l
      → Ones (start_chars (closed list bytes) cs l)
  unfolding start_chars
  start_chars-Level [] l b ones = ones
  start_chars-Level (c ∷ cs) l (byte, b) ones =
      start_chars-Level cs (start_char (closed list bytes) c l) b (start_char-Level c l byte ones)

  abbrev started : Linked
  started = start_chars (closed list bytes) characters unlinked

  started_total :
      (m : ℕ)
      → m ≤ length characters * weight (states list bytes - 1) + 0
      → m ≤ weight (states list bytes)
  started_total m less =
      let times = ap (λ k. k * weight (states list bytes - 1)) length-characters in
      let positive = (tree list bytes).positive in
      let whole : states list bytes - 0 ≡ states list bytes = omega arith in
      omega (
        arith,
        times,
        ap weight whole,
        less,
        weight_step (states list bytes) 0 positive,
        weight_positive (states list bytes - 1),
      )

  -- The states of one character come behind an edge of the state 0.
  started-AllTo :
      (m : Linked)
      → ((c : ℕ) → Memᴰ c characters → Reached list bytes (NoState list bytes) 0 c m)
      → AllTo list bytes 1 m
  unfolding follow
  started-AllTo m reached a [] s at short =
      let edge : (words_tree list).gotos 0 a ≡ some s =
        sym (follow_one (words_tree list).gotos a) ∙ at in
      reached a (characters-Mem a ((tree list bytes).is_byte 0 a s edge)) s edge
  started-AllTo m reached a (b ∷ text) s at short = absurd (omega (arith, short))

  started-Between :
      Between list bytes 1 started
      × (total (states list bytes) started.queued ≤ weight (states list bytes))
  unfolding total follow
  started-Between =
      let (steps, reached) =
        start_chars-Steps list bytes (NoState list bytes) characters unlinked characters-All
          unlinked-IsLinked
          ([], [], refl, λ s m. absurd (Memᴰ.not-nil m), λ s m. absurd (Memᴰ.not-nil m)) in
      let ones =
        start_chars-Level characters unlinked characters-All (λ s m. absurd (Memᴰ.not-nil m)) in
      (
        record {
          positive = omega arith;
          linked = steps.linked;
          known = started-AllTo started reached;
          shape = (
            started.queued,
            [],
            sym (append-nil started.queued),
            ones,
            λ s m. absurd (Memᴰ.not-nil m),
          );
        },
        started_total (total (states list bytes) started.queued) steps.costs,
      )

  -- The words are prepared, and nothing is left in the queue.
  pub prepare-Left :
      length list < 32
      → (m : Linked) × (prepare list ≡ some (record { tables = closed list bytes; linked = m }))
        × Left list bytes m
  unfolding prepare trie close_root
  prepare-Left h =
      let (between, less) = started-Between in
      let (m, ran, left) =
        link_states-Left list bytes (weight (states list bytes)) 1 started between less in
      (m, rw (prepare, trie, lt→ltb (length list) 32 h, ran), left)

  -- The longest suffix of the rest of a word that the words spell.
  abbrev pub fallback : Bytes → Bytes
  fallback text = longest (words_tree list).gotos text
