-- ===== src/Unzip/Cipher/Width.antt =====
-- The cipher decodes alike whether `unsigned long` has 64 or 32 bits.
use bkjs_utils.Prelude.{
  ℕ, ◌+◌, ◌*◌, ◌%◌, ◌^◌, ◌≡◌, refl, arith, Bytes, [], ◌∷◌, bit_xor, bit_and, u32, u64, ◌>>>◌, ◌∙◌,
  sym, ap,
}
use bkjs_utils.Prelude.Xor.{bit_xor_mod, bit_and_mask}
use bkjs_utils.Unzip.Cipher.{
  Keys, decrypt_byte, crc_macro, update_keys, absorb, init_keys, zdecode, decode,
}

module _ (crc_table : ℕ → ℕ) where
  -- The key update on 32-bit words, as the zip format states it.
  update_words : Keys → ℕ → Keys
  update_words keys c =
      let k0 = crc_macro crc_table keys.k0 c in
      let k1 = u32 (u32 (keys.k1 + bit_and k0 0xff) * 134775813 + 1) in
      record { k0 = k0; k1 = k1; k2 = crc_macro crc_table keys.k2 (k1 >>> 24) }

  pub decode_words : Keys → Bytes → Bytes
  decode_words keys [] = []
  decode_words keys (c ∷ buf) =
      let plain = bit_xor c (decrypt_byte keys) in
      plain ∷ decode_words (update_words keys plain) buf

  -- The keys agree, the second one in its low 32 bits.
  abbrev Alike : Keys → Keys → Type 0
  Alike a b = (a.k0 ≡ b.k0) × (a.k1 % 2 ^ 32 ≡ b.k1 % 2 ^ 32) × (a.k2 ≡ b.k2)

  crc_macro_low :
      (c a b : ℕ) → a % 256 ≡ b % 256 → crc_macro crc_table c a ≡ crc_macro crc_table c b
  unfolding crc_macro
  crc_macro_low c a b e = ap (λ x. bit_xor (crc_table x) (c >>> 8)) same
    where
      same : bit_and (bit_xor c a) 0xff ≡ bit_and (bit_xor c b) 0xff
      same =
          bit_and_mask 8 (bit_xor c a)
          ∙ bit_xor_mod 8 c a
          ∙ ap (bit_xor (c % 256)) e
          ∙ sym (bit_xor_mod 8 c b)
          ∙ sym (bit_and_mask 8 (bit_xor c b))

  second_key :
      (x y m : ℕ)
      → x % 2 ^ 32 ≡ y % 2 ^ 32
      → u64 (u64 (x + m) * 134775813 + 1) % 2 ^ 32 ≡ u32 (u32 (y + m) * 134775813 + 1)
  second_key x y m e = omega arith

  shift_byte : (x y : ℕ) → x % 2 ^ 32 ≡ y → u32 (x >>> 24) % 256 ≡ (y >>> 24) % 256
  shift_byte x y e = omega arith

  update-Alike :
      (a b : Keys) (c : ℕ) → Alike a b → Alike (update_keys crc_table a c) (update_words b c)
  unfolding update_keys update_words
  update-Alike a b c (e0, e1, e2) =
      let first : crc_macro crc_table a.k0 c ≡ crc_macro crc_table b.k0 c =
        ap (λ k. crc_macro crc_table k c) e0 in
      let m = bit_and (crc_macro crc_table b.k0 c) 0xff in
      let second = second_key a.k1 b.k1 m e1 in
      let wide = u64 (u64 (a.k1 + m) * 134775813 + 1) in
      let y = u32 (u32 (b.k1 + m) * 134775813 + 1) in
      (
        first,
        rw first (second ∙ omega arith),
        rw first (
            ap (λ k. crc_macro crc_table k (u32 (wide >>> 24))) e2
            ∙ crc_macro_low b.k2 (u32 (wide >>> 24)) (y >>> 24) (shift_byte wide y second)),
      )

  absorb_words : Keys → Bytes → Keys
  absorb_words keys [] = keys
  absorb_words keys (c ∷ passwd) = absorb_words (update_words keys c) passwd

  absorb-Alike :
      (a b : Keys) (passwd : Bytes)
      → Alike a b
      → Alike (absorb crc_table a passwd) (absorb_words b passwd)
  unfolding absorb absorb_words
  absorb-Alike a b [] h = h
  absorb-Alike a b (c ∷ passwd) h =
      absorb-Alike (update_keys crc_table a c) (update_words b c) passwd (update-Alike a b c h)

  same_byte : (a b : Keys) → Alike a b → decrypt_byte a ≡ decrypt_byte b
  unfolding decrypt_byte
  same_byte a b (_, _, e2) = rw e2

  decode-Alike :
      (a b : Keys) (buf : Bytes) → Alike a b → (decode crc_table a buf).1 ≡ decode_words b buf
  unfolding decode zdecode decode_words
  decode-Alike a b [] h = refl
  decode-Alike a b (c ∷ buf) h =
      let e : bit_xor c (decrypt_byte a) ≡ bit_xor c (decrypt_byte b) =
        ap (bit_xor c) (same_byte a b h) in
      let p = bit_xor c (decrypt_byte b) in
      let rest =
        decode-Alike (update_keys crc_table a p) (update_words b p) buf (update-Alike a b p h) in
      rw e (ap (λ r. p ∷ r) rest)

  -- The keys of the zip format for a password, on 32-bit words.
  pub init_words : Bytes → Keys
  init_words passwd =
      absorb_words (record { k0 = 0x1234_5678; k1 = 0x2345_6789; k2 = 0x3456_7890 }) passwd

  -- What is decoded with a password by keys of 64 bits is what the same cipher on words of 32 bits
  -- decodes, for every table, password and buffer.
  pub decode-eq-decode_words :
      (passwd buf : Bytes)
      → (decode crc_table (init_keys crc_table passwd) buf).1 ≡ decode_words (init_words passwd) buf
  unfolding init_keys init_words
  decode-eq-decode_words passwd buf =
      decode-Alike _ _ buf (absorb-Alike _ _ passwd (refl, refl, refl))
