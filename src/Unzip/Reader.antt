-- ===== src/Unzip/Reader.antt =====
-- `_get_byte`, `_get_short`, `_get_long` and `fread` of bklib/bkunzip.cpp. A reader works on the
-- bytes ahead of the file position; a failed read drops them, since every caller gives up and the
-- next read starts with `fseek`.
pub mod Reads
use bkjs_utils.Prelude.{
  ℕ, zero, suc, ◌+◌, ◌-◌, ◌*◌, ◌/◌, ◌%◌, ◌^◌, Bytes, List, [], ◌∷◌, Bool, true, false, Option, none,
  some, length, take, drop, leb, if◌then◌else◌, ◌<<<◌, u32,
}

abbrev pub Reader : Type 0 → Type 0
Reader A = Bytes → Option (A × Bytes)

infixl 5 ◌>>=◌ ◌>>◌
abbrev pub ◌>>=◌ : {A B : Type 0} → Reader A → (A → Reader B) → Reader B
◌>>=◌ m f ahead = elim (m ahead) [ none ↦ none | some (a, rest) ↦ f a rest ]

abbrev pub ◌>>◌ : {B : Type 0} → Reader (Unit {0}) → Reader B → Reader B
m >> k = m >>= λ _. k

abbrev pub pure : {A : Type 0} → A → Reader A
pure a ahead = some (a, ahead)

-- `if (!ok) return 0;`
abbrev pub check : Bool → Reader (Unit {0})
check true ahead = some (tt, ahead)
check false ahead = none

-- `_get_byte`
pub get_byte : Reader ℕ
get_byte [] = none
get_byte (c ∷ rest) = some (c, rest)

-- `_get_short`
pub get_short : Reader ℕ
get_short = do a ← get_byte; b ← get_byte; pure (a + (b <<< 8))

-- `_get_long`
pub get_long : Reader ℕ
get_long = do
  a ← get_byte
  b ← get_byte
  c ← get_byte
  d ← get_byte
  pure (a + (b <<< 8) + (c <<< 16) + (d <<< 24))

-- `fread(buf, 1, n, fp) != n` is a failure.
pub read_bytes : ℕ → Reader Bytes
read_bytes n ahead = if leb n (length ahead) then some (take n ahead, drop n ahead) else none

-- `fseek(fp, pos, SEEK_SET)`: the bytes ahead of the position.
abbrev pub seek : Bytes → ℕ → Bytes
seek file pos = drop pos file
