-- ===== src/Strings/Split.antt =====
-- `bkStrSplit` of bklib/bklib.cpp. What is behind `i` is a list of bytes.
pub mod Total
pub mod RoundTrip
use bkjs_utils.Prelude.{
  ℕ, zero, suc, ◌+◌, Bytes, List, [], ◌∷◌, ◌++◌, Bool, true, false, not, ◌&&◌, ◌||◌, Option, none,
  some, ◌>>=◌, ◌==◌, if◌then◌else◌, length,
}
use bkjs_utils.Strings.{occurs}

-- The loop over delimiters, where empty words are kept.
unfoldable pub leading : Bytes → Bytes → List Bytes × Bytes
leading delim [] = ([], [])
leading delim (c ∷ str) =
    let (empties, start) = leading delim str in
    if occurs c delim then ([] ∷ empties, start) else ([], c ∷ str)

-- `find_first_not_of(delim, i)`
unfoldable pub skip : Bytes → Bytes → Bytes
skip delim [] = []
skip delim (c ∷ str) = if occurs c delim then skip delim str else c ∷ str

-- `find_first_of(delim, i)`: what is before a delimiter, and what is behind it.
unfoldable pub until : Bytes → Bytes → Bytes × Option Bytes
until delim [] = ([], none)
until delim (c ∷ str) =
    let (word, next) = until delim str in
    if occurs c delim then ([], some str) else (c ∷ word, next)

-- The search for the closing quote: what is before it, and what begins with it. `fresh` says that
-- the search starts here, `prev` is the character before.
unfoldable pub close_quote : Bytes → Bool → ℕ → Bytes → Option (Bytes × Bytes)
close_quote quotes fresh prev [] = if fresh then some ([], []) else none
close_quote quotes fresh prev (c ∷ str) =
    let later = close_quote quotes (occurs c quotes) c str in
    if occurs c quotes && not (prev == b'\\')
    then some ([], c ∷ str)
    else (do (word, rest) ← later; some (c ∷ word, rest))

-- A word from its first character on, and what is behind the delimiter that follows.
unfoldable pub next_word : Bytes → Bytes → ℕ → Bytes → Bytes × Option Bytes
next_word delim quotes c str =
    if occurs c quotes
    then elim (close_quote quotes true c str) [
      | some (word, rest) ↦ (word, (until delim rest).1)
      | none ↦ until delim str
    ]
    else until delim (c ∷ str)

-- How a round begins: the empty words that are kept, and where the next word starts.
unfoldable pub start_word : Bool → Bytes → Bytes → List Bytes × Bytes
start_word keepempty delim str = if keepempty then leading delim str else ([], skip delim str)

-- `if (keepempty || q - i > 0) rc.push_back(...)`
unfoldable pub push : Bool → Bytes → List Bytes → List Bytes
push keepempty word rc = if keepempty || not (length word == 0) then word ∷ rc else rc

-- The main loop, with a bound on its rounds; `none` is a loop that goes on.
unfoldable pub split_loop : ℕ → Bytes → Bytes → Bool → Bytes → Option (List Bytes)
split_loop zero delim quotes keepempty str = none
split_loop (suc rounds) delim quotes keepempty str =
    let (empties, start) = start_word keepempty delim str in
    elim start [
      | [] ↦ some empties
      | c ∷ rest ↦
          let (word, next) = next_word delim quotes c rest in
          elim next [
            | none ↦ some (empties ++ push keepempty word [])
            | some str' ↦ do
              rc ← split_loop rounds delim quotes keepempty str'
              some (empties ++ push keepempty word rc)
          ]
    ]

-- `bkStrSplit`; each round reads a character or more.
unfoldable pub str_split : Bytes → Bytes → Bytes → Bool → Option (List Bytes)
str_split str delim quotes keepempty = split_loop (suc (length str)) delim quotes keepempty str
