-- ===== src/AhoCorasick/Size.antt =====
-- The sizes of the arrays that `bkAhoCorasick::prepare` allocates.
use bkjs_utils.Prelude.{ℕ, ◌+◌, ◌*◌, u32, Bytes, List, [], ◌∷◌, length}

-- `msize`, a `uint`: the number of entries of `matches` and of `failures`.
unfoldable pub msize : List Bytes → ℕ
msize [] = 1
msize (word ∷ list) = u32 (length word + msize list)

-- `msize * 256`, a `uint`: the number of entries of `gotos`.
unfoldable pub gotos_size : List Bytes → ℕ
gotos_size list = u32 (msize list * 256)

-- The number of letters of the words.
unfoldable pub letters : List Bytes → ℕ
letters [] = 0
letters (word ∷ list) = length word + letters list
