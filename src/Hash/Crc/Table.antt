-- ===== src/Hash/Crc/Table.antt =====
-- The table of `bkCrc32`: what it holds, and that its top bytes tell the entries apart.
use bkjs_utils.Prelude.{
  ℕ, zero, suc, ◌^◌, ◌<◌, ◌≡◌, refl, List, [], ◌∷◌, bit_xor, u32, ◌<<<◌, ◌>>>◌, ◌==◌, ==_iff, ltb,
  ltb→lt, if◌then◌else◌, true, ◌∙◌, sym, ap,
}
use bkjs_utils.Prelude.Tables.{holds_below, holds_below-apply}
use bkjs_utils.Hash.Crc.{crc_table, crc_entry}

-- One division step by the polynomial 0x04c11db7, highest bit first.
abbrev poly_step : ℕ → ℕ
poly_step r = if r >>> 31 == 1 then bit_xor (u32 (r <<< 1)) 0x04c1_1db7 else u32 (r <<< 1)

abbrev pub poly_steps : ℕ → ℕ → ℕ
poly_steps zero r = r
poly_steps (suc k) r = poly_steps k (poly_step r)

table_check : holds_below (λ i. crc_entry i == poly_steps 8 (i <<< 24)) 256 ≡ true
unfolding holds_below crc_entry
table_check = refl

-- Entry `i` of the table is the remainder of the byte `i`, shifted to the top of a word, after
-- eight division steps by the polynomial 0x04c11db7, highest bit first.
pub crc_entry-poly_steps : (i : ℕ) → i < 256 → crc_entry i ≡ poly_steps 8 (i <<< 24)
crc_entry-poly_steps i h = (==_iff _ _).0 (holds_below-apply _ 256 table_check i h)

-- The place of the first entry with a given top byte.
place : List ℕ → ℕ → ℕ → ℕ
place [] i t = i
place (x ∷ xs) i t = let rest = place xs (suc i) t in if x >>> 24 == t then i else rest

place_check : holds_below (λ i. place crc_table 0 (crc_entry i >>> 24) == i) 256 ≡ true
unfolding holds_below crc_entry place
place_check = refl

-- No two entries have the same top byte.
pub crc_entry_inj : (i j : ℕ) → i < 256 → j < 256 → crc_entry i >>> 24 ≡ crc_entry j >>> 24 → i ≡ j
crc_entry_inj i j hi hj e = sym (back i hi) ∙ ap (place crc_table 0) e ∙ back j hj
  where
    back : (k : ℕ) → k < 256 → place crc_table 0 (crc_entry k >>> 24) ≡ k
    back k h = (==_iff _ _).0 (holds_below-apply _ 256 place_check k h)

bound_check : holds_below (λ i. ltb (crc_entry i) (2 ^ 32)) 256 ≡ true
unfolding holds_below crc_entry
bound_check = refl

pub crc_entry-lt : (i : ℕ) → i < 256 → crc_entry i < 2 ^ 32
crc_entry-lt i h = ltb→lt _ _ (holds_below-apply _ 256 bound_check i h)
