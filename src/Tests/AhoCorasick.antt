-- ===== src/Tests/AhoCorasick.antt =====
-- Runs of bkAhoCorasick.
use bkjs_utils.Prelude.{
  ℕ, ◌≡◌, refl, arith, Bytes, IsBytes, List, [], ◌∷◌, Option, some, none, codes, All,
}
use bkjs_utils.Prelude.Int.{ℤ}
use bkjs_utils.Strings.{tolower}
use bkjs_utils.AhoCorasick.{
  trie, characters, up_from, fall, link, start_char, start_chars, link_char, link_chars,
  link_states, weight, close_root, Prepared, set_goto, add_letters, add_word, add_words, prepare,
}
use bkjs_utils.AhoCorasick.States.{closed}
use bkjs_utils.AhoCorasick.Links.{words_tree}
use bkjs_utils.AhoCorasick.Built.{prepare-Left}
use bkjs_utils.AhoCorasick.Search.{
  count_all, search_text, search_words, count_hit, any_bit, is_word, apart, strncasecmp, bump,
  no_counts, Counts, initial_alphabet,
}
use bkjs_utils.AhoCorasick.Combine.{
  Word, AhoCorasick, set_mode, mode_loop, mode_name, first_value, combine_word, combine_words,
  combine, search,
}
use bkjs_utils.AhoCorasick.Combine.Values.{Choice, start, found_keys, Extreme, combine-Extreme}
use bkjs_utils.AhoCorasick.Load.{plain_words}

-- Words of which one ends the other.
abbrev two_words : List Bytes
two_words = codes "she" ∷ codes "he" ∷ []

two_words-IsBytes : All IsBytes two_words
two_words-IsBytes =
    ((omega arith, (omega arith, (omega arith, tt))), ((omega arith, (omega arith, tt)), tt))

-- There is a state for each letter that is new behind the letters before.
add_words_states : (words_tree two_words).state ≡ 6
unfolding add_words add_word add_letters set_goto tolower
add_words_states = refl

abbrev counter : AhoCorasick
counter = record {
  mode = 0;
  list = plain_words two_words;
  alphabet = initial_alphabet;
  tables = none;
  found = record { count = 0; counters = [] };
  value = ℤ.pos 0;
}

abbrev text : Bytes
text = codes "He, SHE"

-- The tables that `prepare` makes of the words.
abbrev two_tables : Prepared
two_tables = record {
  tables = closed two_words two_words-IsBytes;
  linked = (prepare-Left two_words two_words-IsBytes (omega arith)).0;
}

-- A word of the value 7 that was found twice, one of the value -5 found once, and one not found.
abbrev three : List Word
three =
    record { word = codes "a"; value = ℤ.pos 7 }
    ∷ record { word = codes "b"; value = ℤ.negsuc 4 }
    ∷ record { word = codes "c"; value = ℤ.pos 100 }
    ∷ []

abbrev thrice : Counts
thrice = record { count = 3; counters = 2 ∷ 1 ∷ 0 ∷ [] }

combine-Extreme_example :
    (z : ℤ) × (combine 4 three thrice ≡ some z)
    × Extreme Choice.greatest z
        (start Choice.greatest)
        (found_keys Choice.greatest three (2 ∷ 1 ∷ 0 ∷ []))
combine-Extreme_example =
    combine-Extreme Choice.greatest three thrice (omega arith) (refl, (refl, (refl, tt)))

combine_run : (combine 4 three thrice ≡ some (ℤ.pos 14)) × (combine 8 three thrice ≡ some (ℤ.pos 0))
unfolding combine combine_words combine_word first_value
combine_run = (refl, refl)

-- Where every value is negative the greatest of them is 0.
maxv_run :
    combine 5
      (record { word = codes "b"; value = ℤ.negsuc 4 } ∷ [])
      (record { count = 1; counters = 1 ∷ [] })
    ≡ some (ℤ.pos 0)
unfolding combine combine_words combine_word first_value
maxv_run = refl

abbrev outcome : Option AhoCorasick → List ℕ
outcome none = []
outcome (some a) = a.found.count ∷ a.found.counters

search_run : outcome (search text counter) ≡ 2 ∷ 1 ∷ 1 ∷ []
unfolding search count_all search_text search_words count_hit any_bit is_word apart strncasecmp bump
    no_counts initial_alphabet prepare trie close_root add_words add_word add_letters set_goto
    tolower characters up_from fall link start_char start_chars link_char link_chars link_states
    weight combine combine_words combine_word first_value
search_run = refl

-- A name that is no mode is read as the number behind the last mode, which is shown as SUM.
mode_run :
    (set_mode (codes "AVGV") 0 ≡ 7) × (set_mode (codes "avg") 0 ≡ 12) × (mode_name 12 ≡ codes "SUM")
unfolding set_mode mode_loop mode_name
mode_run = (refl, refl, refl)
