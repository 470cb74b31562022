-- ===== src/Unzip/Cipher.antt =====
-- The traditional zip encryption of bklib/bkunzip.cpp: `_decrypt_byte`, `_update_keys`,
-- `_init_keys`, `zdecode` and `zencode`. A `char` is its byte, since the `CRC32` macro reads no
-- higher bit of it. The table is zlib's `get_crc_table()`, a parameter. `unsigned long` has 64 bits.
pub mod RoundTrip
pub mod Width
use bkjs_utils.Prelude.{
  ℕ, zero, suc, ◌+◌, ◌-◌, ◌*◌, ◌/◌, ◌%◌, ◌^◌, Bytes, List, [], ◌∷◌, bit_xor, bit_and, bit_or, u32,
  u64, ◌>>>◌,
}

-- `keys[3]`
pub record Keys : Type 0 where
  pub k0 : ℕ
  pub k1 : ℕ
  pub k2 : ℕ

-- `_decrypt_byte`, of the third key alone.
pub decrypt_byte : Keys → ℕ
decrypt_byte keys =
    let temp = bit_or (bit_and (u32 keys.k2) 0xffff) 2 in
    bit_and (u32 (temp * bit_xor temp 1) >>> 8) 0xff

module _ (crc_table : ℕ → ℕ) where
  -- The macro `CRC32`.
  pub crc_macro : ℕ → ℕ → ℕ
  crc_macro c b = bit_xor (crc_table (bit_and (bit_xor c b) 0xff)) (c >>> 8)

  -- `_update_keys`
  pub update_keys : Keys → ℕ → Keys
  update_keys keys c =
      let k0 = crc_macro keys.k0 c in
      let sum = u64 (keys.k1 + bit_and k0 0xff) in
      let k1 = u64 (sum * 134775813 + 1) in
      let keyshift = u32 (k1 >>> 24) in record { k0 = k0; k1 = k1; k2 = crc_macro keys.k2 keyshift }

  -- The loop of `_init_keys` over the characters of the password.
  pub absorb : Keys → Bytes → Keys
  absorb keys [] = keys
  absorb keys (c ∷ passwd) = absorb (update_keys keys c) passwd

  -- `_init_keys`
  pub init_keys : Bytes → Keys
  init_keys passwd = absorb (record { k0 = 305419896; k1 = 591751049; k2 = 878082192 }) passwd

  -- `zdecode`: the plain byte, and the keys that it turns.
  pub zdecode : Keys → ℕ → Keys × ℕ
  zdecode keys c = let plain = bit_xor c (decrypt_byte keys) in (update_keys keys plain, plain)

  -- `zencode`
  pub zencode : Keys → ℕ → Keys × ℕ
  zencode keys c = let t = decrypt_byte keys in (update_keys keys c, bit_xor t c)

  -- The decoding loops of `open_file` and `read_file` over a buffer.
  pub decode : Keys → Bytes → Keys × Bytes
  decode keys [] = (keys, [])
  decode keys (c ∷ buf) =
      let (keys', plain) = zdecode keys c in
      let (last, rest) = decode keys' buf in (last, plain ∷ rest)

  -- A buffer encoded byte by byte with `zencode`.
  pub encode : Keys → Bytes → Keys × Bytes
  encode keys [] = (keys, [])
  encode keys (c ∷ buf) =
      let (keys', cipher) = zencode keys c in
      let (last, rest) = encode keys' buf in (last, cipher ∷ rest)
