-- ===== src/CountWords/Links.antt =====
-- What a link of the table means, and what following links finds.
use native.Mathlib.Decide.{dec_le, dec_lt, ℕ_discrete}
use bkjs_utils.Prelude.{
  ℕ, zero, suc, ◌+◌, ◌-◌, ◌<◌, ◌≤◌, ◌≡◌, ◌≢◌, arith, Bytes, List, length, sym, ap, ◌∙◌, Option,
  none, some, get_or,
}
use bkjs_utils.CountWords.{char_at, fall_back, advance}

module _ (word : Bytes) where
  -- The first `k` characters of the word are the `k` characters of `f` that end before `p`.
  abbrev pub Agrees : (ℕ → ℕ) → ℕ → ℕ → Type 0
  Agrees f k p = (k ≤ p) × ((d : ℕ) → d < k → char_at word d ≡ f (p - k + d))

  -- A link of `s` names a shorter border of the first `s` characters, and every border between
  -- the two is followed by the same character as these are.
  abbrev pub IsLink : ℕ → Option ℕ → Type 0
  IsLink s none = (k : ℕ) → k < s → Agrees (char_at word) k s → char_at word k ≡ char_at word s
  IsLink s (some t) =
      (t < s)
      × Agrees (char_at word) t s
      × ((k : ℕ) → t < k → k < s → Agrees (char_at word) k s → char_at word k ≡ char_at word s)

  abbrev pub AreLinks : List (Option ℕ) → Type 0
  AreLinks next = (s : ℕ) → s < length next → IsLink s (get_or next s none)

  -- The matched prefix `j`, among those below `limit`, is not shorter than any that the character
  -- `f p` extends.
  abbrev pub IsBest : (ℕ → ℕ) → ℕ → ℕ → Option ℕ → Type 0
  IsBest f p limit none = (k : ℕ) → k < limit → Agrees f k p → char_at word k ≢ f p
  IsBest f p limit (some t) =
      (t < limit)
      × Agrees f t p
      × ((k : ℕ) → k < limit → Agrees f k p → char_at word k ≡ f p → k ≤ t)

  -- Two prefixes that end at one place: the shorter is a border of the longer.
  pub Agrees-border :
      (f : ℕ → ℕ) (k t p : ℕ) → k ≤ t → Agrees f t p → Agrees f k p → Agrees (char_at word) k t
  Agrees-border f k t p h (tp, ft) (kp, fk) =
      (h, λ d lt. fk d lt ∙ ap f (omega arith) ∙ sym (ft (t - k + d) (omega arith)))

  -- A border of a prefix that ends at `p` ends there too.
  pub Agrees-trans :
      (f : ℕ → ℕ) (k t p : ℕ) → Agrees (char_at word) k t → Agrees f t p → Agrees f k p
  Agrees-trans f k t p (kt, fk) (tp, ft) =
      (omega arith, λ d lt. fk d lt ∙ ft (t - k + d) (omega arith) ∙ ap f (omega arith))

  -- A match that the character extends is a shorter border, when that character does not fit.
  module _ (f : ℕ → ℕ) (p limit t : ℕ) (ne : char_at word t ≢ f p)
      (best : IsBest f p limit (some t)) (k : ℕ) (kl : k < limit) (ka : Agrees f k p)
      (ke : char_at word k ≡ f p) where
    shorter : k < t
    shorter = omega (arith, best.2 k kl ka ke, λ (e : k ≡ t). ne (ap (char_at word) (sym e) ∙ ke))

    border : Agrees (char_at word) k t
    border = Agrees-border f k t p (best.2 k kl ka ke) best.1 ka

  -- Following one link keeps the matched prefix best, if its next character does not fit.
  IsBest-link :
      (f : ℕ → ℕ) (p limit t : ℕ) (e : Option ℕ)
      → IsLink t e
      → char_at word t ≢ f p
      → IsBest f p limit (some t)
      → IsBest f p limit e
  IsBest-link f p limit t none link ne best = λ k kl ka ke. ne (
      sym (link k (shorter f p limit t ne best k kl ka ke) (border f p limit t ne best k kl ka ke))
      ∙ ke)
  IsBest-link f p limit t (some u) (ut, ua, link) ne best = (
    omega (arith, best.0),
    Agrees-trans f u t p ua best.1,
    λ k kl ka ke. elim (dec_le k u) [
      | yes h ↦ h
      | no h ↦ absurd (
          ne (
            sym (
              link k (omega arith) (shorter f p limit t ne best k kl ka ke)
                (border f p limit t ne best k kl ka ke))
            ∙ ke))
    ],
  )

  -- What the inner loop ends with: no match that the character extends, or the longest one.
  abbrev pub IsFound : (ℕ → ℕ) → ℕ → ℕ → Option ℕ → Type 0
  IsFound f p limit none = IsBest f p limit none
  IsFound f p limit (some t) = (char_at word t ≡ f p) × IsBest f p limit (some t)

  abbrev pub IsBelow : ℕ → Option ℕ → Type 0
  IsBelow n none = Unit
  IsBelow n (some t) = t < n

  IsLink-IsBelow : (t n : ℕ) (e : Option ℕ) → t < suc n → IsLink t e → IsBelow n e
  IsLink-IsBelow t n none h link = tt
  IsLink-IsBelow t n (some u) h (ut, ua, link) = omega arith

  fall_back_hit :
      (next : List (Option ℕ)) (c fuel t : ℕ)
      → char_at word t ≡ c
      → fall_back word next c (suc fuel) (some t) ≡ some t
  unfolding fall_back
  fall_back_hit next c fuel t e = ground arith

  fall_back_miss :
      (next : List (Option ℕ)) (c fuel t : ℕ)
      → char_at word t ≢ c
      → fall_back word next c (suc fuel) (some t) ≡ fall_back word next c fuel (get_or next t none)
  unfolding fall_back
  fall_back_miss next c fuel t ne = ground arith

  -- The inner loop ends by its test within the rounds given.
  pub fall_back-IsFound :
      (next : List (Option ℕ)) (f : ℕ → ℕ) (p limit fuel : ℕ) (j : Option ℕ)
      → AreLinks next
      → limit ≤ length next
      → IsBelow fuel j
      → IsBest f p limit j
      → IsFound f p limit (fall_back word next (f p) fuel j)
  fall_back-IsFound next f p limit zero none links hl hb best = unfold fall_back in best
  fall_back-IsFound next f p limit (suc fuel) none links hl hb best = unfold fall_back in best
  fall_back-IsFound next f p limit zero (some t) links hl hb best = absurd (omega arith)
  fall_back-IsFound next f p limit (suc fuel) (some t) links hl hb best =
      elim (ℕ_discrete (char_at word t) (f p)) [
        | yes e ↦ rw (fall_back_hit next (f p) fuel t e) (e, best)
        | no ne ↦
            let link = links t (omega (arith, best.0)) in
            rw (fall_back_miss next (f p) fuel t ne) (
              fall_back-IsFound next f p limit fuel (get_or next t none) links hl
                (IsLink-IsBelow t fuel _ hb link) (IsBest-link f p limit t _ link ne best))
      ]

  -- After the step to the next character the matched prefix is the longest one up to the limit.
  abbrev pub IsLongest : (ℕ → ℕ) → ℕ → ℕ → ℕ → Type 0
  IsLongest f p limit t = (t ≤ limit) × Agrees f t p × ((k : ℕ) → k ≤ limit → Agrees f k p → k ≤ t)

  Agrees-pred :
      (f : ℕ → ℕ) (k p : ℕ) → Agrees f (suc k) (suc p) → Agrees f k p × (char_at word k ≡ f p)
  Agrees-pred f k p (h, agree) = (
    (omega arith, λ d lt. agree d (omega arith) ∙ ap f (omega arith)),
    agree k (omega arith) ∙ ap f (omega arith),
  )

  Agrees-suc :
      (f : ℕ → ℕ) (k p : ℕ) → Agrees f k p → char_at word k ≡ f p → Agrees f (suc k) (suc p)
  Agrees-suc f k p (h, agree) e = (
    omega arith,
    λ d lt. elim (dec_lt d k) [
      | yes below ↦ agree d below ∙ ap f (omega arith)
      | no last ↦ ap (char_at word) (omega arith) ∙ e ∙ ap f (omega arith)
    ],
  )

  pub advance-IsLongest :
      (f : ℕ → ℕ) (p limit : ℕ) (r : Option ℕ)
      → IsFound f p limit r
      → IsLongest f (suc p) limit (advance r)
  advance-IsLongest f p limit none best =
      (omega arith, (omega arith, λ d lt. absurd (omega arith)), go)
    where
      go : (k : ℕ) → k ≤ limit → Agrees f k (suc p) → k ≤ 0
      go zero kl ka = omega arith
      go (suc k) kl ka =
          let (before, last) = Agrees-pred f k p ka in absurd (best k (omega arith) before last)
  advance-IsLongest f p limit (some t) (fits, (lt, agree, best)) =
      (omega arith, Agrees-suc f t p agree fits, go)
    where
      go : (k : ℕ) → k ≤ limit → Agrees f k (suc p) → k ≤ suc t
      go zero kl ka = omega arith
      go (suc k) kl ka =
          let (before, last) = Agrees-pred f k p ka in
          omega (arith, best k (omega arith) before last)
