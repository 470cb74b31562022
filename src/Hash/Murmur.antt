-- ===== src/Hash/Murmur.antt =====
-- `bkHash2` of bklib/bklib.cpp. A block is read as a little-endian word, as on the
-- machines that the library is built for. The buffer holds exactly the `size` bytes.
pub mod Seeds
use bkjs_utils.Prelude.{
  ℕ, zero, suc, ◌+◌, ◌-◌, ◌*◌, ◌/◌, ◌%◌, ◌^◌, ◌<◌, ◌≤◌, ◌≡◌, ◌≢◌, arith, bit_xor, bit_or, u32,
  ◌<<<◌, ◌>>>◌, ◌∙◌, sym, ap, Bytes, List, [], ◌∷◌, length, refl,
}
use bkjs_utils.Prelude.Xor.{bit_xor_lt_pow, bit_xor_cancel_right}
use bkjs_utils.Hash.Mixing.{
  xor_shift, xor_shift-lt, xor_shift_inj, rotate_left, rotate_left-lt, rotate_left_inj, mul_inj,
}

-- The four bytes of a block as one `uint32_t`.
abbrev pub load_word : ℕ → ℕ → ℕ → ℕ → ℕ
load_word a b c d = a + b * 2 ^ 8 + c * 2 ^ 16 + d * 2 ^ 24

-- What a block or a tail is turned into before it meets the running value.
pub hash2_scramble : ℕ → ℕ
hash2_scramble k1 = u32 (rotate_left 15 (u32 (k1 * 0xcc9e_2d51)) * 0x1b87_3593)

-- One round of the loop over the blocks.
pub hash2_block : ℕ → ℕ → ℕ
hash2_block h1 k1 = u32 (rotate_left 13 (bit_xor h1 (hash2_scramble k1)) * 5 + 0xe654_6b64)

-- The loop over whole blocks, with the bytes behind them.
pub hash2_blocks : ℕ → Bytes → ℕ × Bytes
hash2_blocks h1 (a ∷ b ∷ c ∷ d ∷ rest) = hash2_blocks (hash2_block h1 (load_word a b c d)) rest
hash2_blocks h1 rest = (h1, rest)

-- The switch over the bytes left.
pub hash2_tail : ℕ → Bytes → ℕ
hash2_tail h1 (a ∷ b ∷ c ∷ []) =
    bit_xor h1 (hash2_scramble (bit_xor (bit_xor (c <<< 16) (b <<< 8)) a))
hash2_tail h1 (a ∷ b ∷ []) = bit_xor h1 (hash2_scramble (bit_xor (b <<< 8) a))
hash2_tail h1 (a ∷ []) = bit_xor h1 (hash2_scramble a)
hash2_tail h1 _ = h1

-- The final mix.
pub hash2_finish : ℕ → ℕ → ℕ
hash2_finish size h1 =
    xor_shift 16
      (u32 (xor_shift 13 (u32 (xor_shift 16 (bit_xor h1 size) * 0x85eb_ca6b)) * 0xc2b2_ae35))

-- `bkHash2`
pub hash2 : Bytes → ℕ → ℕ
hash2 [] seed = 0
hash2 (b ∷ bs) seed =
    let (h1, tail) = hash2_blocks seed (b ∷ bs) in
    hash2_finish (u32 (length (b ∷ bs))) (hash2_tail h1 tail)

hash2_scramble-lt : (k : ℕ) → hash2_scramble k < 2 ^ 32
unfolding hash2_scramble
hash2_scramble-lt k = omega arith

hash2_block-lt : (h k : ℕ) → hash2_block h k < 2 ^ 32
unfolding hash2_block
hash2_block-lt h k = omega arith

undo_five : (z : ℕ) → z < 2 ^ 32 → u32 (u32 (z * 5) * 0xcccc_cccd) ≡ z
undo_five z h = omega arith

-- A block keeps different running values apart.
hash2_block_inj : (s t k : ℕ) → s < 2 ^ 32 → t < 2 ^ 32 → hash2_block s k ≡ hash2_block t k → s ≡ t
unfolding hash2_block
hash2_block_inj s t k hs ht e =
    let m = hash2_scramble k in
    let sm = bit_xor_lt_pow 32 s m hs (hash2_scramble-lt k) in
    let tm = bit_xor_lt_pow 32 t m ht (hash2_scramble-lt k) in
    bit_xor_cancel_right s t m (
      rotate_left_inj _ _ sm tm (
        mul_inj 5 0xcccc_cccd _ _ undo_five (rotate_left-lt _ sm) (rotate_left-lt _ tm)
          (omega (arith, e))))
