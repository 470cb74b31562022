-- ===== src/Tests/Hash.antt =====
-- Runs of the hash functions.
use bkjs_utils.Prelude.{◌≡◌, ◌≢◌, arith, ◌∷◌, ◌++◌, codes, ◌<<<◌}
use mathlib.Core.List.{cons-ne-nil}
use bkjs_utils.Hash.Crc.{crc_entry, crc32}
use bkjs_utils.Hash.Crc.Table.{poly_steps, crc_entry-poly_steps}
use bkjs_utils.Hash.Crc.Detect.{crc32_detects}
use bkjs_utils.Hash.Murmur.{hash2}
use bkjs_utils.Hash.Murmur.Seeds.{hash2_seeds}
use bkjs_utils.Hash.Word.{hash3}
use bkjs_utils.Hash.Word.{hash3_seeds}

crc_entry-poly_steps_example : crc_entry 10 ≡ poly_steps 8 (10 <<< 24)
crc_entry-poly_steps_example = crc_entry-poly_steps 10 (omega arith)

crc32_detects_example :
    crc32 (codes "ab" ++ b'X' ∷ codes "c") ≢ crc32 (codes "ab" ++ b'Y' ∷ codes "c")
crc32_detects_example =
    crc32_detects (codes "ab") (codes "c") b'X' b'Y' (omega arith) (omega arith) (omega arith)
      (omega arith) (omega arith)

hash2_seeds_example : hash2 (codes "hello") 7 ≢ hash2 (codes "hello") 8
hash2_seeds_example =
    hash2_seeds (codes "hello") 7 8 (cons-ne-nil _ _) (omega arith) (omega arith) (omega arith)

hash3_seeds_example : hash3 (codes "hello") 7 ≢ hash3 (codes "hello") 8
hash3_seeds_example = hash3_seeds (codes "hello") 7 8 (omega arith) (omega arith) (omega arith)
