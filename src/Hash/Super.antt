-- ===== src/Hash/Super.antt =====
-- `bkHash` of bklib/bklib.cpp. The buffer holds exactly the `size` bytes.
use bkjs_utils.Prelude.{
  ℕ, zero, suc, ◌+◌, ◌≡◌, bit_xor, u32, ◌<<<◌, ◌>>>◌, Bytes, [], ◌∷◌, refl, replicate,
}

-- `get16bits`
abbrev pub get_16_bits : ℕ → ℕ → ℕ
get_16_bits lo hi = (hi <<< 8) + lo

-- `hash += hash >> k`
abbrev add_shift : ℕ → ℕ → ℕ
add_shift k hash = u32 (hash + (hash >>> k))

-- `hash ^= hash << k`
abbrev xor_up : ℕ → ℕ → ℕ
xor_up k hash = bit_xor hash (u32 (hash <<< k))

-- One round of the loop, over two pairs of bytes.
pub hash1_block : ℕ → ℕ → ℕ → ℕ → ℕ → ℕ
hash1_block hash a b c d =
    let sum = u32 (hash + get_16_bits a b) in
    let tmp = bit_xor (u32 (get_16_bits c d <<< 11)) sum in
    add_shift 11 (bit_xor (u32 (sum <<< 16)) tmp)

-- The loop while four bytes are left, and the switch over the rest.
pub hash1_loop : ℕ → Bytes → ℕ
hash1_loop hash (a ∷ b ∷ c ∷ d ∷ rest) = hash1_loop (hash1_block hash a b c d) rest
hash1_loop hash (a ∷ b ∷ c ∷ []) =
    add_shift 11 (bit_xor (xor_up 16 (u32 (hash + get_16_bits a b))) (c <<< 18))
hash1_loop hash (a ∷ b ∷ []) = add_shift 17 (xor_up 11 (u32 (hash + get_16_bits a b)))
hash1_loop hash (a ∷ []) = add_shift 1 (xor_up 10 (u32 (hash + a)))
hash1_loop hash [] = hash

-- The six lines that force the bits of the last bytes apart.
pub hash1_finish : ℕ → ℕ
hash1_finish hash = add_shift 6 (xor_up 25 (add_shift 17 (xor_up 4 (add_shift 5 (xor_up 3 hash)))))

-- `bkHash`
pub hash1 : Bytes → ℕ
hash1 [] = 0
hash1 (b ∷ bs) = hash1_finish (hash1_loop 0 (b ∷ bs))

hash1_loop_zeros : (n : ℕ) → hash1_loop 0 (replicate n 0) ≡ 0
unfolding hash1_loop hash1_block
hash1_loop_zeros zero = refl
hash1_loop_zeros (suc zero) = refl
hash1_loop_zeros (suc (suc zero)) = refl
hash1_loop_zeros (suc (suc (suc zero))) = refl
hash1_loop_zeros (suc (suc (suc (suc n)))) = hash1_loop_zeros n

-- The size does not enter the hash: buffers of zero bytes of all sizes have the hash 0, and so
-- collide with one another.
hash1_zeros : (n : ℕ) → hash1 (replicate n 0) ≡ 0
unfolding hash1 hash1_finish
hash1_zeros zero = refl
hash1_zeros (suc n) = rw (hash1_loop_zeros (suc n))
