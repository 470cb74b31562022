-- ===== src/Unzip/Reader/Reads.antt =====
-- What a reader makes of the bytes that a value is written as.
use bkjs_utils.Prelude.{
  ℕ, ◌/◌, ◌%◌, ◌^◌, ◌<◌, ◌≤◌, ◌≡◌, arith, Bytes, [], ◌∷◌, ◌++◌, some, length, take, drop, le→leb,
  length-append, append_assoc, take_all, drop_all,
}
use bkjs_utils.Unzip.Reader.{Reader, ◌>>=◌, pure, get_byte, get_short, get_long, read_bytes}

-- The little-endian forms.
abbrev pub short_bytes : ℕ → Bytes
short_bytes v = v % 256 ∷ v / 256 ∷ []

abbrev pub long_bytes : ℕ → Bytes
long_bytes v = v % 256 ∷ v / 256 % 256 ∷ v / 65536 % 256 ∷ v / 16777216 ∷ []

-- The reader turns `bs` into `v` whatever follows, and stops behind it.
abbrev pub Reads : {A : Type 0} → Reader A → Bytes → A → Type 0
Reads r bs v = (rest : Bytes) → r (bs ++ rest) ≡ some (v, rest)

pub Reads->>= :
    {A B : Type 0} (m : Reader A) (f : A → Reader B) (xs ys : Bytes) (v : A) (w : B)
    → Reads m xs v
    → Reads (f v) ys w
    → Reads (m >>= f) (xs ++ ys) w
Reads->>= m f xs ys v w hm hf rest = rw (append_assoc xs ys rest, hm (ys ++ rest), ◌>>=◌) (hf rest)

pub Reads-get_short : (v : ℕ) → v < 2 ^ 16 → Reads get_short (short_bytes v) v
unfolding get_short get_byte
Reads-get_short v h rest = ground arith

pub Reads-get_long : (v : ℕ) → v < 2 ^ 32 → Reads get_long (long_bytes v) v
unfolding get_long get_byte
Reads-get_long v h rest = ground arith

pub read_bytes-take :
    (n : ℕ) (ahead : Bytes)
    → n ≤ length ahead
    → read_bytes n ahead ≡ some (take n ahead, drop n ahead)
unfolding read_bytes
read_bytes-take n ahead h = rw (le→leb n (length ahead) h)

pub Reads-read_bytes : (xs : Bytes) → Reads (read_bytes (length xs)) xs xs
unfolding read_bytes
Reads-read_bytes xs rest = rw (
  le→leb (length xs) (length (xs ++ rest)) (omega (arith, length-append xs rest)),
  take_all xs rest,
  drop_all xs rest,
)

-- The last read of a chain, and what is made of it.
pub Reads-pure :
    {A B : Type 0} (m : Reader A) (g : A → B) (xs : Bytes) (v : A)
    → Reads m xs v
    → Reads (m >>= λ a. pure (g a)) xs (g v)
Reads-pure m g xs v hm rest = rw (hm rest, ◌>>=◌)
