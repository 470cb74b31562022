-- ===== src/Hash/Word.antt =====
-- `bkHash3` of bklib/bklib.cpp. The buffer holds exactly the `size` bytes.
use bkjs_utils.Prelude.{
  ℕ, suc, ◌+◌, ◌*◌, ◌^◌, ◌<◌, ◌≡◌, ◌≢◌, arith, bit_xor, bit_or, u32, ◌<<<◌, Bytes, [], ◌∷◌, length,
}
use bkjs_utils.Prelude.Xor.{bit_xor_lt_pow, bit_xor_cancel_right}
use bkjs_utils.Hash.Mixing.{xor_shift, xor_shift-lt, xor_shift_inj, mul_inj}

-- `m`
abbrev pub hash3_multiplier : ℕ
hash3_multiplier = 0xc6a4_a793

-- One round of the loop: add the little-endian word, multiply, mix.
pub hash3_word : ℕ → ℕ → ℕ → ℕ → ℕ → ℕ
hash3_word h a b c d =
    let w = bit_or (bit_or (bit_or a (b <<< 8)) (c <<< 16)) (d <<< 24) in
    xor_shift 16 (u32 (u32 (h + w) * hash3_multiplier))

-- What the switch does when all its cases have added their bytes.
pub hash3_last : ℕ → ℕ
hash3_last h = xor_shift 24 (u32 (h * hash3_multiplier))

-- The loop while four bytes are left, and the switch over the rest.
pub hash3_loop : ℕ → Bytes → ℕ
hash3_loop h (a ∷ b ∷ c ∷ d ∷ rest) = hash3_loop (hash3_word h a b c d) rest
hash3_loop h (a ∷ b ∷ c ∷ []) = hash3_last (u32 (u32 (u32 (h + (c <<< 16)) + (b <<< 8)) + a))
hash3_loop h (a ∷ b ∷ []) = hash3_last (u32 (u32 (h + (b <<< 8)) + a))
hash3_loop h (a ∷ []) = hash3_last (u32 (h + a))
hash3_loop h [] = h

-- `bkHash3`
pub hash3 : Bytes → ℕ → ℕ
hash3 bs seed = hash3_loop (bit_xor seed (u32 (length bs * hash3_multiplier))) bs

undo_multiplier : (z : ℕ) → z < 2 ^ 32 → u32 (u32 (z * hash3_multiplier) * 0xd819_8e9b) ≡ z
undo_multiplier z h = omega arith

-- Adding a number to a word, modulo 2 ^ 32, loses nothing.
add_inj : (w x y : ℕ) → x < 2 ^ 32 → y < 2 ^ 32 → u32 (x + w) ≡ u32 (y + w) → x ≡ y
add_inj w x y hx hy e = omega arith

hash3_mul_inj :
    (k x y : ℕ)
    → x < 2 ^ 32
    → y < 2 ^ 32
    → xor_shift (suc k) (u32 (x * hash3_multiplier))
      ≡ xor_shift (suc k) (u32 (y * hash3_multiplier))
    → x ≡ y
hash3_mul_inj k x y hx hy e =
    mul_inj hash3_multiplier 0xd819_8e9b x y undo_multiplier hx hy
      (xor_shift_inj k _ _ (omega arith) (omega arith) e)

hash3_word-lt : (h a b c d : ℕ) → hash3_word h a b c d < 2 ^ 32
unfolding hash3_word
hash3_word-lt h a b c d = xor_shift-lt 16 _ (omega arith)

hash3_loop_inj :
    (bs : Bytes) (s t : ℕ) → s < 2 ^ 32 → t < 2 ^ 32 → hash3_loop s bs ≡ hash3_loop t bs → s ≡ t
unfolding hash3_loop hash3_last hash3_word
hash3_loop_inj [] s t hs ht e = e
hash3_loop_inj (a ∷ []) s t hs ht e =
    add_inj a s t hs ht (hash3_mul_inj 23 _ _ (omega arith) (omega arith) e)
hash3_loop_inj (a ∷ b ∷ []) s t hs ht e =
    let f = hash3_mul_inj 23 _ _ (omega arith) (omega arith) e in omega (arith, f)
hash3_loop_inj (a ∷ b ∷ c ∷ []) s t hs ht e =
    let f = hash3_mul_inj 23 _ _ (omega arith) (omega arith) e in omega (arith, f)
hash3_loop_inj (a ∷ b ∷ c ∷ d ∷ bs) s t hs ht e =
    let w = bit_or (bit_or (bit_or a (b <<< 8)) (c <<< 16)) (d <<< 24) in
    let f =
      hash3_loop_inj bs (hash3_word s a b c d) (hash3_word t a b c d) (hash3_word-lt s a b c d)
        (hash3_word-lt t a b c d) e in
    add_inj w s t hs ht (hash3_mul_inj 15 _ _ (omega arith) (omega arith) f)

hash3_inj : (bs : Bytes) (s t : ℕ) → s < 2 ^ 32 → t < 2 ^ 32 → hash3 bs s ≡ hash3 bs t → s ≡ t
unfolding hash3
hash3_inj bs s t hs ht e =
    let m = u32 (length bs * hash3_multiplier) in
    bit_xor_cancel_right s t m (
      hash3_loop_inj bs _ _ (bit_xor_lt_pow 32 s m hs (omega arith))
        (bit_xor_lt_pow 32 t m ht (omega arith)) e)

-- On every buffer two different 32-bit seeds give different hashes.
pub hash3_seeds : (bs : Bytes) (s t : ℕ) → s < 2 ^ 32 → t < 2 ^ 32 → s ≢ t → hash3 bs s ≢ hash3 bs t
hash3_seeds bs s t hs ht ne e = ne (hash3_inj bs s t hs ht e)
