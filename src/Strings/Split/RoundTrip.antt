-- ===== src/Strings/Split/RoundTrip.antt =====
-- `bkStrSplit` on what `bkToString` joins.
use bkjs_utils.Prelude.{
  ℕ, zero, suc, ◌<◌, ◌≡◌, refl, ap, ◌∙◌, arith, Bytes, List, [], ◌∷◌, ◌++◌, Bool, true, false,
  Option, none, some, ◌>>=◌, ◌==◌, length, length-append, All,
}
use bkjs_utils.Strings.{occurs, to_string}
use bkjs_utils.Strings.Split.{
  leading, skip, until, next_word, push, start_word, split_loop, str_split,
}
use bkjs_utils.Strings.Split.Total.{round_end, round_last, round_more}

bind_assoc :
    (o : Option (List Bytes)) (f g : List Bytes → List Bytes)
    → (do rc ← o; some (g (f rc))) ≡ (do rc ← (do rc ← o; some (f rc)); some (g rc))
bind_assoc none f g = refl
bind_assoc (some rc) f g = refl

bind_ap :
    (o : Option (List Bytes)) (f g : List Bytes → List Bytes)
    → ((rc : List Bytes) → f rc ≡ g rc)
    → (do rc ← o; some (f rc)) ≡ (do rc ← o; some (g rc))
bind_ap none f g h = refl
bind_ap (some rc) f g h = ap some (h rc)

start_none : (keepempty : Bool) (delim : Bytes) → start_word keepempty delim [] ≡ ([], [])
unfolding start_word leading skip
start_none true delim = refl
start_none false delim = refl

module _ (d : ℕ) (quotes : Bytes) (keepempty : Bool) where
  -- A word without the delimiter that does not begin with a quote, and is not empty, where empty
  -- ones are not kept.
  abbrev pub IsField : Bytes → Type 0
  IsField [] = keepempty ≡ true
  IsField (c ∷ w) = (occurs c quotes ≡ false) × All (λ b. (b == d) ≡ false) (c ∷ w)

  -- Such words, the last one not empty.
  abbrev pub IsFields : List Bytes → Type 0
  IsFields [] = Unit
  IsFields ([] ∷ []) = ⊥
  IsFields ((c ∷ w) ∷ []) = IsField (c ∷ w)
  IsFields (w ∷ v ∷ ws) = IsField w × IsFields (v ∷ ws)

  until_end : (w : Bytes) → All (λ b. (b == d) ≡ false) w → until (d ∷ []) w ≡ (w, none)
  unfolding until occurs
  until_end [] h = refl
  until_end (c ∷ w) (e, h) = rw (e, until_end w h)

  until_next :
      (w s : Bytes) → All (λ b. (b == d) ≡ false) w → until (d ∷ []) (w ++ d ∷ s) ≡ (w, some s)
  unfolding until occurs
  until_next [] s h = ground arith
  until_next (c ∷ w) s (e, h) = rw (e, until_next w s h)

  start_plain :
      (c : ℕ) (s : Bytes) → (c == d) ≡ false → start_word keepempty (d ∷ []) (c ∷ s) ≡ ([], c ∷ s)
  unfolding start_word leading skip occurs
  start_plain c s e = elim keepempty as (λ k. start_word k (d ∷ []) (c ∷ s) ≡ ([], c ∷ s)) [
    | true ↦ rw e
    | false ↦ rw e
  ]

  push_word : (c : ℕ) (w : Bytes) (rc : List Bytes) → push keepempty (c ∷ w) rc ≡ (c ∷ w) ∷ rc
  unfolding push
  push_word c w rc = ground arith

  word_cases :
      (n : ℕ) (s : Bytes) (empties : List Bytes) (c : ℕ) (rest : Bytes)
      → start_word keepempty (d ∷ []) s ≡ (empties, c ∷ rest)
      → start_word keepempty (d ∷ []) (d ∷ s) ≡ ([] ∷ empties, c ∷ rest)
      → (w : Bytes × Option Bytes) → next_word (d ∷ []) quotes c rest ≡ w
      → split_loop (suc n) (d ∷ []) quotes keepempty (d ∷ s)
        ≡ (do rc ← split_loop (suc n) (d ∷ []) quotes keepempty s; some ([] ∷ rc))
  word_cases n s empties c rest e one (word, none) f = rw (
    round_last n (d ∷ []) quotes keepempty s empties c rest word e f,
    round_last n (d ∷ []) quotes keepempty (d ∷ s) ([] ∷ empties) c rest word one f,
  )
  word_cases n s empties c rest e one (word, some next) f =
      rw
        (
          round_more n (d ∷ []) quotes keepempty s empties c rest word next e f,
          round_more n (d ∷ []) quotes keepempty (d ∷ s) ([] ∷ empties) c rest word next one f,
        )
        (bind_assoc (split_loop n (d ∷ []) quotes keepempty next)
          (λ rc. empties ++ push keepempty word rc) (λ rc. [] ∷ rc))

  start_cases :
      (n : ℕ) (s : Bytes) (start : List Bytes × Bytes)
      → start_word keepempty (d ∷ []) s ≡ start
      → start_word keepempty (d ∷ []) (d ∷ s) ≡ ([] ∷ start.0, start.1)
      → split_loop (suc n) (d ∷ []) quotes keepempty (d ∷ s)
        ≡ (do rc ← split_loop (suc n) (d ∷ []) quotes keepempty s; some ([] ∷ rc))
  start_cases n s (empties, []) e one = rw (
    round_end n (d ∷ []) quotes keepempty s empties e,
    round_end n (d ∷ []) quotes keepempty (d ∷ s) ([] ∷ empties) one,
  )
  start_cases n s (empties, c ∷ rest) e one =
      word_cases n s empties c rest e one (next_word (d ∷ []) quotes c rest) refl

  -- A round over a delimiter, where empty words are kept.
  loop_empty :
      (n : ℕ) (s : Bytes)
      → keepempty ≡ true
      → split_loop (suc n) (d ∷ []) quotes keepempty (d ∷ s)
        ≡ (do rc ← split_loop (suc n) (d ∷ []) quotes keepempty s; some ([] ∷ rc))
  unfolding start_word leading occurs
  loop_empty n s keep =
      let start = start_word keepempty (d ∷ []) s in
      let one : start_word keepempty (d ∷ []) (d ∷ s) ≡ ([] ∷ start.0, start.1) =
        rw keep (ground arith) in
      start_cases n s start refl one

  -- A round over a word and the delimiter behind it, and over the last word.
  loop_word :
      (n c : ℕ) (w s : Bytes)
      → IsField (c ∷ w)
      → split_loop (suc n) (d ∷ []) quotes keepempty ((c ∷ w) ++ d ∷ s)
        ≡ (do rc ← split_loop n (d ∷ []) quotes keepempty s; some ((c ∷ w) ∷ rc))
  unfolding next_word push
  loop_word n c w s (q, (e, h)) =
      round_more n (d ∷ []) quotes keepempty (c ∷ w ++ d ∷ s) [] c (w ++ d ∷ s) (c ∷ w) s
        (start_plain c (w ++ d ∷ s) e) (rw (q, until_next (c ∷ w) s (e, h)))
      ∙ bind_ap (split_loop n (d ∷ []) quotes keepempty s) (push keepempty (c ∷ w))
          (λ rc. (c ∷ w) ∷ rc) (push_word c w)

  loop_last :
      (n c : ℕ) (w : Bytes)
      → IsField (c ∷ w)
      → split_loop (suc n) (d ∷ []) quotes keepempty (c ∷ w) ≡ some ((c ∷ w) ∷ [])
  unfolding next_word push
  loop_last n c w (q, (e, h)) =
      round_last n (d ∷ []) quotes keepempty (c ∷ w) [] c w (c ∷ w) (start_plain c w e)
        (rw (q, until_end (c ∷ w) (e, h)))
      ∙ ap some (push_word c w [])

  fields :
      (n : ℕ) (ws : List Bytes)
      → IsFields ws
      → length (to_string ws (d ∷ [])) < n
      → split_loop n (d ∷ []) quotes keepempty (to_string ws (d ∷ [])) ≡ some ws
  unfolding to_string
  fields zero ws h less = absurd (omega arith)
  fields (suc n) [] h less =
      round_end n (d ∷ []) quotes keepempty [] [] (start_none keepempty (d ∷ []))
  fields (suc n) ([] ∷ []) h less = absurd h
  fields (suc n) ((c ∷ w) ∷ []) h less = loop_last n c w h
  fields (suc n) ([] ∷ v ∷ ws) (keep, h) less =
      loop_empty n (to_string (v ∷ ws) (d ∷ [])) keep
      ∙ rw (fields (suc n) (v ∷ ws) h (omega (arith, less)))
  fields (suc n) ((c ∷ w) ∷ v ∷ ws) (f, h) less =
      loop_word n c w (to_string (v ∷ ws) (d ∷ [])) f
      ∙ rw (
          fields n (v ∷ ws) h
            (omega (arith, less, length-append w (d ∷ to_string (v ∷ ws) (d ∷ [])))))

  -- `bkStrSplit` at one delimiter takes what `bkToString` joins by it apart into the same words,
  -- where no word has the delimiter or begins with a quote, the last word is not empty, and the
  -- others are not, unless empty words are kept.
  pub str_split-to_string :
      (ws : List Bytes)
      → IsFields ws
      → str_split (to_string ws (d ∷ [])) (d ∷ []) quotes keepempty ≡ some ws
  unfolding str_split
  str_split-to_string ws h = fields (suc (length (to_string ws (d ∷ [])))) ws h (omega arith)
