-- ===== src/Geohash/Rounds.antt =====
-- The rounds of `bkGeoHashEncode` for a character.
use bkjs_utils.Prelude.{
  ℕ, suc, ◌+◌, ◌*◌, ◌<◌, ◌≡◌, sym, ap, subst, ◌∙◌, arith, Bytes, List, [], ◌∷◌, ◌++◌, append_assoc,
  append-nil, Bool, true, false, some, ltb, length, length-append, get_or, All,
}
use bkjs_utils.Geohash.{base32, index_of}
use bkjs_utils.Geohash.Inverse.{IsBase32}
use bkjs_utils.Geohash.Code.{masks, Cell, decode_bits, decode_chars, Coding, code_bit, code_loop}
use bkjs_utils.Geohash.Cells.{steps, Inside, choose, choose-steps, decode_bits-steps}
use bkjs_utils.Geohash.Bits.{gather, bits_of, bits_of_lem}

unfoldable pub decode_char : Bool × Cell → ℕ → Bool × Cell
decode_char st c = decode_bits (index_of c base32) masks st

pub decode_char-steps : (st : Bool × Cell) (c : ℕ) → decode_char st c ≡ steps (bits_of c) st
unfolding decode_char bits_of
decode_char-steps st c = decode_bits-steps (index_of c base32) masks st

module _ (latitude longitude : ℕ) where
  loop_next :
      (rounds precision : ℕ) (s : Coding)
      → length s.hash < precision
      → code_loop latitude longitude (suc rounds) precision s
        ≡ code_loop latitude longitude rounds precision (code_bit latitude longitude s)
  unfolding code_loop
  loop_next rounds precision s h =
      let e : ltb (length s.hash) precision ≡ true = ground (h, arith) in rw (code_loop, e)

  abbrev pub begin : Bool × Cell → Bytes → Coding
  begin (is_even, cell) hash = record {
    is_even = is_even;
    bit = 0;
    ch = 0;
    cell = cell;
    hash = hash;
  }

  abbrev pub five : Bool × Cell → List Bool
  five st = choose latitude longitude 5 st

  -- Five rounds give a character.
  five_rounds :
      (rounds precision : ℕ) (is_even : Bool) (cell : Cell) (hash : Bytes)
      → length hash < precision
      → code_loop latitude longitude
          (suc (suc (suc (suc (suc rounds)))))
          precision
          (begin (is_even, cell) hash)
        ≡ code_loop latitude longitude rounds precision (
            begin
              (steps (five (is_even, cell)) (is_even, cell))
              (hash ++ get_or base32 (gather masks (five (is_even, cell)) 0) 0 ∷ []))
  unfolding code_bit choose steps gather
  five_rounds rounds precision is_even cell hash h =
      let s0 = begin (is_even, cell) hash in
      let s1 = code_bit latitude longitude s0 in
      let s2 = code_bit latitude longitude s1 in
      let s3 = code_bit latitude longitude s2 in
      let s4 = code_bit latitude longitude s3 in
      loop_next (suc (suc (suc (suc rounds)))) precision s0 h
      ∙ loop_next (suc (suc (suc rounds))) precision s1 h
      ∙ loop_next (suc (suc rounds)) precision s2 h
      ∙ loop_next (suc rounds) precision s3 h
      ∙ loop_next rounds precision s4 h

  five_more : (n : ℕ) → suc (5 * suc n) ≡ suc (suc (suc (suc (suc (suc (5 * n))))))
  five_more n = omega arith

  pub loop_stop :
      (rounds precision : ℕ) (s : Coding)
      → length s.hash ≡ precision
      → code_loop latitude longitude (suc rounds) precision s ≡ some s.hash
  unfolding code_loop
  loop_stop rounds precision s h =
      let e : ltb (length s.hash) precision ≡ false = ground (h, arith) in rw (code_loop, e)

  -- A character whose bits are chosen.
  pub char_round :
      (n precision : ℕ) (st : Bool × Cell) (hash : Bytes) (c : ℕ)
      → length hash < precision
      → get_or base32 (gather masks (five st) 0) 0 ≡ c
      → code_loop latitude longitude (suc (5 * suc n)) precision (begin st hash)
        ≡ code_loop latitude longitude
            (suc (5 * n))
            precision
            (begin (steps (five st) st) (hash ++ c ∷ []))
  char_round n precision (is_even, cell) hash c h e =
      rw (five_more n) (five_rounds (suc (5 * n)) precision is_even cell hash h)
      ∙ ap
          (λ x.
            code_loop latitude longitude (suc (5 * n)) precision
              (begin (steps (five (is_even, cell)) (is_even, cell)) (hash ++ x ∷ [])))
          e

  -- Where the cell of some characters has the point, these are the next ones.
  pub chars_of_cell :
      (cs : Bytes) (st : Bool × Cell) (hash : Bytes) (precision : ℕ)
      → All IsBase32 cs
      → Inside latitude longitude (decode_chars cs st).1
      → length hash + length cs ≡ precision
      → (code_loop latitude longitude (suc (5 * length cs)) precision (begin st hash)
          ≡ some (hash ++ cs))
        × Inside latitude longitude st.1
  unfolding decode_chars decode_char bits_of
  chars_of_cell [] st hash precision known inside long = (
    loop_stop (5 * 0) precision (begin st hash) (omega (arith, long))
        ∙ ap some (sym (append-nil hash)),
    inside,
  )
  chars_of_cell (c ∷ cs) st hash precision (base, known) inside long =
      let (rest, whole) =
        chars_of_cell cs (decode_char st c) (hash ++ c ∷ []) precision known inside
          (omega (arith, length-append hash (c ∷ []), long)) in
      let (chosen, before) = choose-steps latitude longitude (bits_of c) st (
        subst (λ (x : Bool × Cell). Inside latitude longitude x.1) (decode_char-steps st c)
          whole) in
      let char : get_or base32 (gather masks (five st) 0) 0 ≡ c =
        ap (λ bs. get_or base32 (gather masks bs 0) 0) chosen ∙ bits_of_lem c base in
      let next : steps (five st) st ≡ decode_char st c =
        ap (λ bs. steps bs st) chosen ∙ sym (decode_char-steps st c) in
      (
        char_round (length cs) precision st hash c (omega (arith, long)) char
            ∙ ap
                (λ x.
                  code_loop latitude longitude (suc (5 * length cs)) precision
                    (begin x (hash ++ c ∷ [])))
                next
            ∙ rest
            ∙ ap some (append_assoc hash (c ∷ []) cs),
        before,
      )
