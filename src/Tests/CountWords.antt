-- ===== src/Tests/CountWords.antt =====
-- Runs of the word search.
use bkjs_utils.Prelude.{◌≡◌, arith, codes, true}
use bkjs_utils.CountWords.{count_words}
use bkjs_utils.CountWords.Spec.{occurrences}
use bkjs_utils.CountWords.Search.{count_words-occurrences}

count_words-occurrences_example :
    count_words (codes "ab") (codes "ab cab ab") true ≡ occurrences (codes "ab") (codes "ab cab ab")
count_words-occurrences_example =
    count_words-occurrences (codes "ab") (codes "ab cab ab") true (omega arith)
