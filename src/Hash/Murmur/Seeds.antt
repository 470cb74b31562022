-- ===== src/Hash/Murmur/Seeds.antt =====
-- `bkHash2` keeps different seeds apart.
use bkjs_utils.Prelude.{
  ℕ, ◌*◌, ◌^◌, ◌<◌, ◌≡◌, ◌≢◌, arith, bit_xor, u32, ◌∙◌, sym, ap, Bytes, [], ◌∷◌, length, refl,
}
use bkjs_utils.Prelude.Xor.{bit_xor_lt_pow, bit_xor_cancel_right}
use bkjs_utils.Hash.Mixing.{xor_shift, xor_shift-lt, xor_shift_inj, mul_inj}
use bkjs_utils.Hash.Murmur.{
  load_word, hash2_scramble-lt, hash2_block, hash2_block-lt, hash2_block_inj, hash2_blocks,
  hash2_tail, hash2_finish, hash2,
}

-- The bytes behind the whole blocks do not depend on the running value.
hash2_blocks_rest : (bs : Bytes) (s t : ℕ) → (hash2_blocks s bs).1 ≡ (hash2_blocks t bs).1
unfolding hash2_blocks
hash2_blocks_rest [] s t = refl
hash2_blocks_rest (a ∷ []) s t = refl
hash2_blocks_rest (a ∷ b ∷ []) s t = refl
hash2_blocks_rest (a ∷ b ∷ c ∷ []) s t = refl
hash2_blocks_rest (a ∷ b ∷ c ∷ d ∷ bs) s t = hash2_blocks_rest bs _ _

hash2_blocks-lt : (bs : Bytes) (s : ℕ) → s < 2 ^ 32 → (hash2_blocks s bs).0 < 2 ^ 32
unfolding hash2_blocks
hash2_blocks-lt [] s h = h
hash2_blocks-lt (a ∷ []) s h = h
hash2_blocks-lt (a ∷ b ∷ []) s h = h
hash2_blocks-lt (a ∷ b ∷ c ∷ []) s h = h
hash2_blocks-lt (a ∷ b ∷ c ∷ d ∷ bs) s h =
    hash2_blocks-lt bs (hash2_block s (load_word a b c d)) (hash2_block-lt s _)

hash2_blocks_inj :
    (bs : Bytes) (s t : ℕ)
    → s < 2 ^ 32
    → t < 2 ^ 32
    → (hash2_blocks s bs).0 ≡ (hash2_blocks t bs).0
    → s ≡ t
unfolding hash2_blocks
hash2_blocks_inj [] s t hs ht e = e
hash2_blocks_inj (a ∷ []) s t hs ht e = e
hash2_blocks_inj (a ∷ b ∷ []) s t hs ht e = e
hash2_blocks_inj (a ∷ b ∷ c ∷ []) s t hs ht e = e
hash2_blocks_inj (a ∷ b ∷ c ∷ d ∷ bs) s t hs ht e =
    let k = load_word a b c d in
    hash2_block_inj s t k hs ht (
      hash2_blocks_inj bs (hash2_block s k) (hash2_block t k) (hash2_block-lt s k)
        (hash2_block-lt t k) e)

hash2_tail-lt : (bs : Bytes) (s : ℕ) → s < 2 ^ 32 → hash2_tail s bs < 2 ^ 32
unfolding hash2_tail
hash2_tail-lt [] s h = h
hash2_tail-lt (a ∷ []) s h = bit_xor_lt_pow 32 s _ h (hash2_scramble-lt _)
hash2_tail-lt (a ∷ b ∷ []) s h = bit_xor_lt_pow 32 s _ h (hash2_scramble-lt _)
hash2_tail-lt (a ∷ b ∷ c ∷ []) s h = bit_xor_lt_pow 32 s _ h (hash2_scramble-lt _)
hash2_tail-lt (a ∷ b ∷ c ∷ d ∷ bs) s h = h

hash2_tail_inj : (bs : Bytes) (s t : ℕ) → hash2_tail s bs ≡ hash2_tail t bs → s ≡ t
unfolding hash2_tail
hash2_tail_inj [] s t e = e
hash2_tail_inj (a ∷ []) s t e = bit_xor_cancel_right s t _ e
hash2_tail_inj (a ∷ b ∷ []) s t e = bit_xor_cancel_right s t _ e
hash2_tail_inj (a ∷ b ∷ c ∷ []) s t e = bit_xor_cancel_right s t _ e
hash2_tail_inj (a ∷ b ∷ c ∷ d ∷ bs) s t e = e

undo_first : (z : ℕ) → z < 2 ^ 32 → u32 (u32 (z * 0x85eb_ca6b) * 0xa5cb_9243) ≡ z
undo_first z h = omega arith

undo_second : (z : ℕ) → z < 2 ^ 32 → u32 (u32 (z * 0xc2b2_ae35) * 0x7ed1_b41d) ≡ z
undo_second z h = omega arith

hash2_finish_inj :
    (n s t : ℕ) → n < 2 ^ 32 → s < 2 ^ 32 → t < 2 ^ 32 → hash2_finish n s ≡ hash2_finish n t → s ≡ t
unfolding hash2_finish
hash2_finish_inj n s t hn hs ht e =
    let xs = bit_xor_lt_pow 32 s n hs hn in
    let xt = bit_xor_lt_pow 32 t n ht hn in
    let ms = xor_shift-lt 16 (bit_xor s n) xs in
    let mt = xor_shift-lt 16 (bit_xor t n) xt in
    let ps : u32 (xor_shift 16 (bit_xor s n) * 0x85eb_ca6b) < 2 ^ 32 = omega arith in
    let pt : u32 (xor_shift 16 (bit_xor t n) * 0x85eb_ca6b) < 2 ^ 32 = omega arith in
    let outer = xor_shift_inj 15 _ _ (omega arith) (omega arith) e in
    let second =
      mul_inj _ 0x7ed1_b41d _ _ undo_second (xor_shift-lt 13 _ ps) (xor_shift-lt 13 _ pt) outer in
    let middle = xor_shift_inj 12 _ _ ps pt second in
    let first = mul_inj _ 0xa5cb_9243 _ _ undo_first ms mt middle in
    bit_xor_cancel_right s t n (xor_shift_inj 15 _ _ xs xt first)

hash2_inj :
    (bs : Bytes) (s t : ℕ) → bs ≢ [] → s < 2 ^ 32 → t < 2 ^ 32 → hash2 bs s ≡ hash2 bs t → s ≡ t
unfolding hash2
hash2_inj [] s t ne hs ht e = absurd (ne refl)
hash2_inj (b ∷ bs) s t ne hs ht e =
    let same = hash2_blocks_rest (b ∷ bs) s t in
    let hs' = hash2_blocks-lt (b ∷ bs) s hs in
    let ht' = hash2_blocks-lt (b ∷ bs) t ht in
    let rest = (hash2_blocks t (b ∷ bs)).1 in
    hash2_blocks_inj (b ∷ bs) s t hs ht (
      hash2_tail_inj rest _ _ (
        hash2_finish_inj (u32 (length (b ∷ bs))) _ _ (omega arith) (hash2_tail-lt rest _ hs')
          (hash2_tail-lt rest _ ht')
          (ap (λ r. hash2_finish (u32 (length (b ∷ bs))) (hash2_tail (hash2_blocks s (b ∷ bs)).0 r))
              (sym same)
            ∙ e)))

-- On a buffer that is not empty, two different 32-bit seeds give different hashes.
pub hash2_seeds :
    (bs : Bytes) (s t : ℕ) → bs ≢ [] → s < 2 ^ 32 → t < 2 ^ 32 → s ≢ t → hash2 bs s ≢ hash2 bs t
hash2_seeds bs s t full hs ht ne e = ne (hash2_inj bs s t full hs ht e)
