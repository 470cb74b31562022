-- ===== src/Tests/Unzip.antt =====
-- Runs of the zip reader.
use bkjs_utils.Prelude.{ℕ, ◌-◌, ◌*◌, ◌≡◌, arith, Bytes, ◌∷◌, ◌++◌, codes, length, replicate}
use bkjs_utils.Unzip.Cipher.{init_keys, decode, encode}
use bkjs_utils.Unzip.Cipher.RoundTrip.{decode-encode}
use bkjs_utils.Unzip.Cipher.Width.{decode_words, init_words, decode-eq-decode_words}
use bkjs_utils.Unzip.Locate.{get_central_dir, is_end_record}
use bkjs_utils.Unzip.Locate.Last.{highest, get_central_dir-highest}

-- A table that stands for zlib's.
abbrev sample_table : ℕ → ℕ
sample_table i = i * 0x0101_0101

decode-encode_example :
    decode sample_table
      (init_keys sample_table (codes "pw"))
      (encode sample_table (init_keys sample_table (codes "pw")) (codes "text")).1
    ≡ ((encode sample_table (init_keys sample_table (codes "pw")) (codes "text")).0, codes "text")
decode-encode_example =
    decode-encode sample_table (init_keys sample_table (codes "pw")) (codes "text")

decode-eq-decode_words_example :
    (decode sample_table (init_keys sample_table (codes "pw")) (codes "text")).1
    ≡ decode_words sample_table (init_words sample_table (codes "pw")) (codes "text")
decode-eq-decode_words_example = decode-eq-decode_words sample_table (codes "pw") (codes "text")

abbrev sample_file : Bytes
sample_file = codes "x" ++ 0x50 ∷ 0x4b ∷ 0x05 ∷ 0x06 ∷ replicate 18 0

get_central_dir-highest_example :
    get_central_dir sample_file
    ≡ highest (is_end_record sample_file) (length sample_file - 0xffff) (length sample_file - 3)
get_central_dir-highest_example = get_central_dir-highest sample_file (omega arith)
