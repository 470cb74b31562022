-- ===== src/Hash/Crc/Detect.antt =====
-- A single wrong byte always changes `bkCrc32`.
use bkjs_utils.Prelude.{
  ℕ, ◌/◌, ◌^◌, ◌<◌, ◌≡◌, ◌≢◌, refl, arith, [], ◌∷◌, ◌++◌, Bytes, bit_xor, bit_and, ◌>>>◌, ◌∙◌, sym,
  ap, IsBytes,
}
use bkjs_utils.Prelude.Xor.{
  bit_xor_shift, bit_xor_lt_pow, bit_xor_cancel_left, bit_xor_cancel_right, bit_and_mask,
  zero-bit_xor,
}
use bkjs_utils.Hash.Crc.{crc_entry, crc_step, crc_loop, crc32}
use bkjs_utils.Hash.Crc.Table.{crc_entry_inj, crc_entry-lt}

abbrev slot : ℕ → ℕ → ℕ
slot rc b = bit_xor b (bit_and rc 0xff)

slot-lt : (rc b : ℕ) → b < 256 → slot rc b < 256
slot-lt rc b h = bit_xor_lt_pow 8 b (bit_and rc 0xff) h (rw (bit_and_mask 8 rc) (omega arith))

crc_step-lt : (rc b : ℕ) → rc < 2 ^ 32 → b < 256 → crc_step rc b < 2 ^ 32
unfolding crc_step
crc_step-lt rc b h k =
    bit_xor_lt_pow 32 (rc >>> 8) (crc_entry (slot rc b)) (omega arith)
      (crc_entry-lt (slot rc b) (slot-lt rc b k))

-- The top byte of the new value is that of the entry used.
crc_step_top : (rc b : ℕ) → rc < 2 ^ 32 → crc_step rc b >>> 24 ≡ crc_entry (slot rc b) >>> 24
unfolding crc_step
crc_step_top rc b h =
    let e : rc / 2 ^ 8 / 2 ^ 24 ≡ 0 = omega arith in
    bit_xor_shift 24 (rc >>> 8) (crc_entry (slot rc b))
    ∙ ap (λ t. bit_xor t (crc_entry (slot rc b) >>> 24)) e
    ∙ zero-bit_xor _

module _ (s t b c : ℕ) (hs : s < 2 ^ 32) (ht : t < 2 ^ 32) (hb : b < 256) (hc : c < 256)
    (same : crc_step s b ≡ crc_step t c) where
  same_slot : slot s b ≡ slot t c
  same_slot =
      crc_entry_inj (slot s b) (slot t c) (slot-lt s b hb) (slot-lt t c hc)
        (sym (crc_step_top s b hs) ∙ ap (λ x. x >>> 24) same ∙ crc_step_top t c ht)

  same_high : s >>> 8 ≡ t >>> 8
  unfolding crc_step
  same_high =
      bit_xor_cancel_right (s >>> 8) (t >>> 8) (crc_entry (slot s b))
        (same ∙ ap (λ i. bit_xor (t >>> 8) (crc_entry i)) (sym same_slot))

crc_step_inj : (s t b : ℕ) → s < 2 ^ 32 → t < 2 ^ 32 → b < 256 → crc_step s b ≡ crc_step t b → s ≡ t
crc_step_inj s t b hs ht hb same =
    let low : bit_and s 0xff ≡ bit_and t 0xff =
      bit_xor_cancel_left _ _ b (same_slot s t b b hs ht hb hb same) in
    omega (arith, bit_and_mask 8 s, bit_and_mask 8 t, low, same_high s t b b hs ht hb hb same)

crc_loop_inj :
    (bs : Bytes) (s t : ℕ)
    → s < 2 ^ 32
    → t < 2 ^ 32
    → IsBytes bs
    → crc_loop s bs ≡ crc_loop t bs
    → s ≡ t
unfolding crc_loop
crc_loop_inj [] s t hs ht _ e = e
crc_loop_inj (b ∷ bs) s t hs ht (hb, hbs) e = crc_step_inj s t b hs ht hb (
    crc_loop_inj bs (crc_step s b) (crc_step t b) (crc_step-lt s b hs hb) (crc_step-lt t b ht hb)
      hbs e)

crc_loop-lt : (bs : Bytes) (s : ℕ) → s < 2 ^ 32 → IsBytes bs → crc_loop s bs < 2 ^ 32
unfolding crc_loop
crc_loop-lt [] s h _ = h
crc_loop-lt (b ∷ bs) s h (hb, hbs) = crc_loop-lt bs (crc_step s b) (crc_step-lt s b h hb) hbs

crc_loop-append : (xs ys : Bytes) (s : ℕ) → crc_loop s (xs ++ ys) ≡ crc_loop (crc_loop s xs) ys
unfolding crc_loop
crc_loop-append [] ys s = refl
crc_loop-append (x ∷ xs) ys s = crc_loop-append xs ys (crc_step s x)

crc32_inj :
    (before after : Bytes) (b c : ℕ)
    → IsBytes before
    → IsBytes after
    → b < 256
    → c < 256
    → crc32 (before ++ b ∷ after) ≡ crc32 (before ++ c ∷ after)
    → b ≡ c
unfolding crc32
crc32_inj before after b c hp ha hb hc e =
    let s = crc_loop 0xffff_ffff before in
    let hs : s < 2 ^ 32 = crc_loop-lt before 0xffff_ffff (omega arith) hp in
    let hsb = crc_step-lt s b hs hb in
    let hsc = crc_step-lt s c hs hc in
    let same : crc_loop (crc_step s b) after ≡ crc_loop (crc_step s c) after = omega (
      arith,
      e,
      tail b,
      tail c,
      crc_loop-lt after (crc_step s b) hsb ha,
      crc_loop-lt after (crc_step s c) hsc ha,
    ) in
    bit_xor_cancel_right b c (bit_and s 0xff) (
      same_slot s s b c hs hs hb hc
        (crc_loop_inj after (crc_step s b) (crc_step s c) hsb hsc ha same))
  where
    tail :
        (x : ℕ)
        → crc_loop 0xffff_ffff (before ++ x ∷ after)
          ≡ crc_loop (crc_step (crc_loop 0xffff_ffff before) x) after
    tail x = unfold crc_loop in crc_loop-append before (x ∷ after) 0xffff_ffff

-- Two buffers of bytes that differ in exactly one byte have different checksums: a change of a
-- single byte is always detected.
pub crc32_detects :
    (before after : Bytes) (b c : ℕ)
    → IsBytes before
    → IsBytes after
    → b < 256
    → c < 256
    → b ≢ c
    → crc32 (before ++ b ∷ after) ≢ crc32 (before ++ c ∷ after)
crc32_detects before after b c hp ha hb hc ne e = ne (crc32_inj before after b c hp ha hb hc e)
