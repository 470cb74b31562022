-- ===== src/Geohash.antt =====
-- `bkGeoHashAdjacent`, `bkGeoHashRow` and `bkGeoHashGrid` of bklib/bklib.cpp, for the four
-- directions that the tables have.
pub mod Inverse
pub mod Code
pub mod Cells
pub mod Bits
pub mod Rounds
pub mod Center
use bkjs_utils.Prelude.{
  ℕ, zero, suc, ◌+◌, ◌-◌, ◌%◌, Bytes, List, [], ◌∷◌, ◌++◌, Bool, true, false, not, Option, none,
  some, ◌>>=◌, ◌==◌, if◌then◌else◌, codes, length, get_or, reverse,
}

-- The argument `dir`.
pub data Direction : Type 0 where
  right : Direction
  left : Direction
  top : Direction
  bottom : Direction

-- `BASE32`
abbrev pub base32 : Bytes
base32 = codes "0123456789bcdefghjkmnpqrstuvwxyz"

-- `NEIGHBORS` of the key `dir + ".even"` (`true`) or `dir + ".odd"` (`false`).
unfoldable pub neighbors : Direction → Bool → Bytes
neighbors Direction.right true = codes "bc01fg45238967deuvhjyznpkmstqrwx"
neighbors Direction.left true = codes "238967debc01fg45kmstqrwxuvhjyznp"
neighbors Direction.top true = codes "p0r21436x8zb9dcf5h7kjnmqesgutwvy"
neighbors Direction.bottom true = codes "14365h7k9dcfesgujnmqp0r2twvyx8zb"
neighbors Direction.bottom false = codes "238967debc01fg45kmstqrwxuvhjyznp"
neighbors Direction.top false = codes "bc01fg45238967deuvhjyznpkmstqrwx"
neighbors Direction.left false = codes "14365h7k9dcfesgujnmqp0r2twvyx8zb"
neighbors Direction.right false = codes "p0r21436x8zb9dcf5h7kjnmqesgutwvy"

-- `BORDERS`
unfoldable pub borders : Direction → Bool → Bytes
borders Direction.right true = codes "bcfguvyz"
borders Direction.left true = codes "0145hjnp"
borders Direction.top true = codes "prxz"
borders Direction.bottom true = codes "028b"
borders Direction.bottom false = codes "0145hjnp"
borders Direction.top false = codes "bcfguvyz"
borders Direction.left false = codes "028b"
borders Direction.right false = codes "prxz"

-- `string::find` of a character.
unfoldable pub index_of : ℕ → Bytes → Option ℕ
index_of c [] = none
index_of c (d ∷ text) = if c == d then some 0 else (do i ← index_of c text; some (suc i))

-- The size of the hash is even.
abbrev pub even : ℕ → Bool
even n = n % 2 == 0

-- The character that the table gives for one.
unfoldable pub neighbor : Direction → Bool → ℕ → Option ℕ
neighbor dir parity c = do cd ← index_of c (neighbors dir parity); some (get_or base32 cd 0)

-- The character is in `BORDERS`.
unfoldable pub on_border : Direction → Bool → ℕ → Bool
on_border dir parity last = elim (index_of last (borders dir parity)) [
  | none ↦ false
  | some i ↦ true
]

-- `bkGeoHashAdjacent` on the characters in reverse order.
pub adjacent_back : Direction → Bytes → Bytes
adjacent_back dir [] = []
adjacent_back dir (last ∷ base) =
    let parity = even (suc (length base)) in
    let next = adjacent_back dir base in
    let kept = if on_border dir parity last then next else base in
    elim (neighbor dir parity last) [ none ↦ kept | some c ↦ c ∷ kept ]

-- `bkGeoHashAdjacent`
pub geo_hash_adjacent : Bytes → Direction → Bytes
geo_hash_adjacent hash dir = reverse (adjacent_back dir (reverse hash))

-- The loop of `bkGeoHashRow`.
pub row_loop : ℕ → Bytes → Bytes → List Bytes
row_loop zero l r = []
row_loop (suc steps) l r =
    let next_left = geo_hash_adjacent l Direction.left in
    let next_right = geo_hash_adjacent r Direction.right in
    next_left ∷ next_right ∷ row_loop steps next_left next_right

-- `bkGeoHashRow`
pub geo_hash_row : Bytes → ℕ → List Bytes
geo_hash_row center steps = center ∷ row_loop steps center center

-- The loop of `bkGeoHashGrid`.
pub grid_loop : ℕ → ℕ → Bytes → Bytes → List (List Bytes)
grid_loop steps zero t b = []
grid_loop steps (suc rest) t b =
    let next_top = geo_hash_adjacent t Direction.top in
    let next_bottom = geo_hash_adjacent b Direction.bottom in
    geo_hash_row next_top steps
    ∷ geo_hash_row next_bottom steps
    ∷ grid_loop steps rest next_top next_bottom

-- `bkGeoHashGrid`
pub geo_hash_grid : Bytes → ℕ → List (List Bytes)
geo_hash_grid center steps = geo_hash_row center steps ∷ grid_loop steps steps center center
