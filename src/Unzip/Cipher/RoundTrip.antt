-- ===== src/Unzip/Cipher/RoundTrip.antt =====
-- Decoding undoes encoding.
use bkjs_utils.Prelude.{ℕ, ◌≡◌, refl, Bytes, [], ◌∷◌, bit_xor, ap, ◌∙◌, ◌++◌, length, suc}
use bkjs_utils.Prelude.Xor.{bit_xor_comm, bit_xor_undo}
use bkjs_utils.Unzip.Cipher.{Keys, decrypt_byte, update_keys, zdecode, zencode, decode, encode}

module _ (crc_table : ℕ → ℕ) where
  plain_again :
      (keys : Keys) (c : ℕ) → bit_xor (bit_xor (decrypt_byte keys) c) (decrypt_byte keys) ≡ c
  plain_again keys c =
      ap (λ x. bit_xor x (decrypt_byte keys)) (bit_xor_comm (decrypt_byte keys) c)
      ∙ bit_xor_undo c (decrypt_byte keys)

  -- Decoding, from the same keys, what `zencode` made of a buffer gives the buffer back, and ends
  -- with the keys that the encoder ended with.
  pub decode-encode :
      (keys : Keys) (buf : Bytes)
      → decode crc_table keys (encode crc_table keys buf).1 ≡ ((encode crc_table keys buf).0, buf)
  unfolding decode encode zdecode zencode
  decode-encode keys [] = refl
  decode-encode keys (c ∷ buf) =
      rw (plain_again keys c, decode-encode (update_keys crc_table keys c) buf)

  pub decode-append :
      (keys : Keys) (xs ys : Bytes)
      → decode crc_table keys (xs ++ ys) ≡ (
        (decode crc_table (decode crc_table keys xs).0 ys).0,
        (decode crc_table keys xs).1 ++ (decode crc_table (decode crc_table keys xs).0 ys).1,
      )
  unfolding decode
  decode-append keys [] ys = refl
  decode-append keys (c ∷ xs) ys = rw (decode-append (zdecode crc_table keys c).0 xs ys)

  pub length-decode :
      (keys : Keys) (buf : Bytes) → length (decode crc_table keys buf).1 ≡ length buf
  unfolding decode
  length-decode keys [] = refl
  length-decode keys (c ∷ buf) = ap suc (length-decode (zdecode crc_table keys c).0 buf)

  pub encode-append :
      (keys : Keys) (xs ys : Bytes)
      → encode crc_table keys (xs ++ ys) ≡ (
        (encode crc_table (encode crc_table keys xs).0 ys).0,
        (encode crc_table keys xs).1 ++ (encode crc_table (encode crc_table keys xs).0 ys).1,
      )
  unfolding encode
  encode-append keys [] ys = refl
  encode-append keys (c ∷ xs) ys = rw (encode-append (zencode crc_table keys c).0 xs ys)

  pub length-encode :
      (keys : Keys) (buf : Bytes) → length (encode crc_table keys buf).1 ≡ length buf
  unfolding encode
  length-encode keys [] = refl
  length-encode keys (c ∷ buf) = ap suc (length-encode (zencode crc_table keys c).0 buf)
