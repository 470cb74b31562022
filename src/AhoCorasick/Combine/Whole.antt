-- ===== src/AhoCorasick/Combine/Whole.antt =====
-- The whole of `bkAhoCorasick::search`.
use bkjs_utils.Prelude.{◌≡◌, Bytes, Option, none, some, ◌>>=◌}
use bkjs_utils.AhoCorasick.{Prepared, prepare}
use bkjs_utils.AhoCorasick.Search.{Counts}
use bkjs_utils.AhoCorasick.Combine.{AhoCorasick, words, combine}

-- The tables, where there are any, are those of the words.
abbrev pub IsFresh : AhoCorasick → Type 0
IsFresh a = (p : Prepared) → a.tables ≡ some p → prepare (words a.list) ≡ some p

-- The object after the search, where the value is defined.
abbrev pub searched : AhoCorasick → Prepared → Counts → Option AhoCorasick
searched a p found = do
  value ← combine a.mode a.list found
  some (record a { tables = some p; found = found; value = value })

module _ (text : Bytes) (a : AhoCorasick) where
  -- The tables that the search uses.
  abbrev used : Option Prepared
  used = elim a.tables [ some p ↦ some p | none ↦ prepare (words a.list) ]
