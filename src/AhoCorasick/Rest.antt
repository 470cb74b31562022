-- ===== src/AhoCorasick/Rest.antt =====
-- The loop of `bkAhoCorasick::prepare` over the queued states, to its end.
use bkjs_utils.Prelude.{
  ℕ, zero, suc, ◌+◌, ◌*◌, ◌-◌, ◌≤◌, ◌<◌, ◌≡◌, refl, ap, subst, ◌∙◌, arith, Bytes, IsBytes, List, [],
  ◌∷◌, none, some, ◌>>=◌, length, All, ◌⊎◌, inl, inr,
}
use mathlib.Core.List.{Memᴰ}
use mathlib.Core.List.Memᴰ
use bkjs_utils.AhoCorasick.{Linked, characters, link_chars, link_states, weight}
use bkjs_utils.AhoCorasick.Tree.{follow_bounded}
use bkjs_utils.AhoCorasick.Links.{words_tree, At, IsLinked}
use bkjs_utils.AhoCorasick.Queue.{
  Level, Shape, characters-All, characters-Mem, length-characters, weight_positive, total,
}
use bkjs_utils.AhoCorasick.Rounds.{link_chars-Steps, Reached}
use bkjs_utils.AhoCorasick.States.{tree, closed, AllTo, NoState, front-Level}

pub weight_step : (n r : ℕ) → r < n → weight (n - r) ≡ 257 * weight (n - suc r)
unfolding weight
weight_step n r h = let next : n - r ≡ suc (n - suc r) = omega arith in ap weight next

-- The states behind the edges of a state weigh less than it.
cheaper :
    (n r m : ℕ) (rest queue : List ℕ)
    → r < n
    → queue ≡ r ∷ rest
    → m ≤ length characters * weight (n - suc r) + total n rest
    → m < total n queue
unfolding total
cheaper n r m rest queue h e less =
    let all : total n queue ≡ weight (n - r) + total n rest = ap (total n) e in
    let times = ap (λ k. k * weight (n - suc r)) length-characters in
    omega (arith, all, times, less, weight_step n r h, weight_positive (n - suc r))

module _ (list : List Bytes) (bytes : All IsBytes list) where
  abbrev pub states : ℕ
  states = (words_tree list).state

  -- The links with the first state taken off the queue.
  abbrev without : List ℕ → Linked → Linked
  without rest l = record l { queued = rest }

  pop-IsLinked :
      (l : Linked) (r : ℕ) (rest : List ℕ)
      → l.queued ≡ r ∷ rest
      → IsLinked list bytes (NoState list bytes) l
      → IsLinked list bytes (λ s. s ≡ r) (without rest l)
  pop-IsLinked l r rest queue linked = record {
    right = linked.right;
    bits = linked.bits;
    fresh = linked.fresh;
    root = linked.root;
    closed = λ s known. elim (linked.closed s known) [
      | inl never ↦ absurd never
      | inr (inr children) ↦ inr (inr children)
      | inr (inl queued) ↦ elim (Memᴰ.cases_cons (subst (Memᴰ s) queue queued)) [
        | inl here ↦ inl here
        | inr later ↦ inr (inl later)
      ]
    ];
  }

  -- A state whose edges all lead to states with failures is not open any longer.
  closed-IsLinked :
      (r : ℕ) (m : Linked)
      → ((c : ℕ) → Memᴰ c characters → Reached list bytes (λ s. s ≡ r) r c m)
      → IsLinked list bytes (λ s. s ≡ r) m
      → IsLinked list bytes (NoState list bytes) m
  closed-IsLinked r m reached linked = record {
    right = linked.right;
    bits = linked.bits;
    fresh = linked.fresh;
    root = linked.root;
    closed = λ s known. elim (linked.closed s known) [
      | inr (inl queued) ↦ inr (inl queued)
      | inr (inr children) ↦ inr (inr children)
      | inl here ↦ inr (
          inr (λ c q edge.
            let from = subst (λ x. (words_tree list).gotos x c ≡ some q) here edge in
            reached c (characters-Mem c ((tree list bytes).is_byte r c q from)) q from))
    ];
  }

  -- What is true between two rounds: all states of the levels to `d` have failures.
  pub record Between (d : ℕ) (l : Linked) : Type 0 where
    pub positive : 0 < d
    pub linked : IsLinked list bytes (NoState list bytes) l
    pub known : AllTo list bytes d l
    pub shape : Shape list bytes d l.queued

  -- What a round leads to.
  record Round (l m : Linked) : Type 0 where
    level : ℕ
    between : Between level m
    lighter : total states m.queued < total states l.queued

  -- The round of a state whose level is known.
  level-Round :
      (e : ℕ) (l : Linked) (a : ℕ) (text : Bytes) (r : ℕ) (rest : List ℕ)
      → l.queued ≡ r ∷ rest
      → At list bytes (a ∷ text) r
      → length (a ∷ text) ≡ e
      → IsLinked list bytes (NoState list bytes) l
      → AllTo list bytes e l
      → Shape list bytes e rest
      → (m : Linked) × (link_chars (closed list bytes) r characters (without rest l) ≡ some m)
        × Round l m
  level-Round e l a text r rest queue at long linked known shape =
      let (m, ran, steps, reached) =
        link_chars-Steps list bytes (λ s. s ≡ r) characters e r a text (without rest l)
          characters-All at long (known a text r at (omega (arith, long))) known
          (pop-IsLinked l r rest queue linked) shape in
      (
        m,
        ran,
        record {
          level = e;
          between = record {
            positive = omega (arith, long);
            linked = closed-IsLinked r m reached steps.linked;
            known = λ b word s there short. steps.keeps s (known b word s there short);
            shape = steps.shape;
          };
          lighter =
              cheaper states r (total states m.queued) rest l.queued
                (follow_bounded (words_tree list) (tree list bytes) (a ∷ text) r at) queue
                steps.costs;
        },
      )

  -- A round takes a state off the queue, and those that it queues weigh less.
  Round-Between :
      (d : ℕ) (l : Linked) (r : ℕ) (rest : List ℕ)
      → l.queued ≡ r ∷ rest
      → Between d l
      → (m : Linked) × (link_chars (closed list bytes) r characters (without rest l) ≡ some m)
        × Round l m
  Round-Between d l r rest queue between =
      let (e, positive, known, level, shape) =
        front-Level list bytes d l r rest between.positive between.linked between.known queue
          (subst (Shape list bytes d) queue between.shape) in
      of_level e positive known level shape
    where
      of_level :
          (e : ℕ)
          → 0 < e
          → AllTo list bytes e l
          → Level list bytes e r
          → Shape list bytes e rest
          → (m : Linked) × (link_chars (closed list bytes) r characters (without rest l) ≡ some m)
            × Round l m
      of_level e positive known ([], at, long) shape = absurd (omega (arith, long, positive))
      of_level e positive known (a ∷ text, at, long) shape =
          level-Round e l a text r rest queue at long between.linked known shape

  queue-cases : (queue : List ℕ) → (queue ≡ []) ⊎ ((r : ℕ) × (rest : List ℕ) × (queue ≡ r ∷ rest))
  queue-cases [] = inl refl
  queue-cases (r ∷ rest) = inr (r, rest, refl)

  link_states_stop :
      (n : ℕ) (l : Linked) → l.queued ≡ [] → link_states (closed list bytes) n l ≡ some l
  unfolding link_states
  link_states_stop zero l e =
      ap (λ (queue : List ℕ). elim queue [ [] ↦ some l | r ∷ rest ↦ none ]) e
  link_states_stop (suc n) l e =
      ap
        (λ (queue : List ℕ). elim queue [
          | [] ↦ some l
          | r ∷ rest ↦ do
            l' ← link_chars (closed list bytes) r characters (without rest l)
            link_states (closed list bytes) n l'
        ])
        e

  link_states_next :
      (n : ℕ) (l m : Linked) (r : ℕ) (rest : List ℕ)
      → l.queued ≡ r ∷ rest
      → link_chars (closed list bytes) r characters (without rest l) ≡ some m
      → link_states (closed list bytes) (suc n) l ≡ link_states (closed list bytes) n m
  unfolding link_states
  link_states_next n l m r rest e ran =
      ap
        (λ (queue : List ℕ). elim queue [
          | [] ↦ some l
          | r ∷ rest ↦ do
            l' ← link_chars (closed list bytes) r characters (without rest l)
            link_states (closed list bytes) n l'
        ])
        e
      ∙ rw ran

  no_weight : (l : Linked) (r : ℕ) (rest : List ℕ) → l.queued ≡ r ∷ rest → 0 < total states l.queued
  unfolding total
  no_weight l r rest e =
      let all : total states l.queued ≡ weight (states - r) + total states rest =
        ap (total states) e in
      omega (arith, all, weight_positive (states - r))

  -- What the loop leaves: no queue, and a failure for every state of one character.
  abbrev pub Left : Linked → Type 0
  Left m = IsLinked list bytes (NoState list bytes) m × (m.queued ≡ []) × AllTo list bytes 1 m

  stop_Left :
      (n d : ℕ) (l : Linked)
      → Between d l
      → l.queued ≡ []
      → (m : Linked) × (link_states (closed list bytes) n l ≡ some m) × Left m
  stop_Left n d l between e = (
    l,
    link_states_stop n l e,
    (
      between.linked,
      e,
      λ a text s at short. between.known a text s at (omega (arith, short, between.positive)),
    ),
  )

  -- The weight of the queue bounds the rounds.
  pub link_states-Left :
      (n d : ℕ) (l : Linked)
      → Between d l
      → total states l.queued ≤ n
      → (m : Linked) × (link_states (closed list bytes) n l ≡ some m) × Left m
  link_states-Left zero d l between h = elim (queue-cases l.queued) [
    | inl e ↦ stop_Left zero d l between e
    | inr (r, rest, e) ↦ absurd (omega (arith, h, no_weight l r rest e))
  ]
  link_states-Left (suc n) d l between h = elim (queue-cases l.queued) [
    | inl e ↦ stop_Left (suc n) d l between e
    | inr (r, rest, e) ↦
        let (m, ran, round) = Round-Between d l r rest e between in
        let (k, ran', left) =
          link_states-Left n round.level m round.between (omega (arith, round.lighter, h)) in
        (k, link_states_next n l m r rest e ran ∙ ran', left)
  ]
