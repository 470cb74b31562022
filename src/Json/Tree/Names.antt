-- ===== src/Json/Tree/Names.antt =====
-- The loops of `bkJsonGet`, `bkJsonSet` and `bkJsonDel` over members with different names.
use bkjs_utils.Prelude.{
  suc, ◌≡◌, refl, sym, ap, ◌∙◌, arith, Bytes, true, false, Option, none, some, if◌then◌else◌,
  string_eq, string_eq_equal, Bool-cases, inl, inr, Option-cases,
}
use bkjs_utils.Json.{JsonType, Json, Members, node, no_members, member, json_length, join, name_of}
use bkjs_utils.Json.Tree.{find_member, assign, remove_member}

-- No two members have one name.
unfoldable pub IsDistinct : Members → Type 0
IsDistinct no_members = Unit
IsDistinct (member v ms) = (find_member (name_of v) ms ≡ none) × IsDistinct ms

-- What a table has under a name: the type, the value and the members of the member of that name.
abbrev pub Entry : Type 0
Entry = JsonType × Bytes × Members

abbrev pub data_of : Json → Entry
data_of (node t n value ms) = (t, value, ms)

abbrev pub value_at : Option Json → Option Entry
value_at none = none
value_at (some v) = some (data_of v)

-- An entry with another value.
abbrev pub with_value : Entry → Bytes → Entry
with_value x val = (x.0, val, x.2)

string_eq_sym : (s t : Bytes) → string_eq s t ≡ string_eq t s
string_eq_sym s t = elim (Bool-cases (string_eq s t)) [
  | inl e ↦ rw (string_eq_equal s t e)
  | inr e ↦ elim (Bool-cases (string_eq t s)) [
    | inl f ↦ rw (string_eq_equal t s f)
    | inr f ↦ e ∙ sym f
  ]
]

string_eq_trans : (s t n : Bytes) → string_eq s t ≡ true → string_eq s n ≡ string_eq t n
string_eq_trans s t n e = rw (string_eq_equal s t e)

-- A name that is not found is not that of the first member.
find_member-none :
    (n : Bytes) (v : Json) (ms : Members)
    → find_member n (member v ms) ≡ none
    → (string_eq (name_of v) n ≡ false) × (find_member n ms ≡ none)
unfolding find_member
find_member-none n v ms h = elim (Bool-cases (string_eq (name_of v) n)) [
  | inl e ↦ absurd (ground (h, e, arith))
  | inr e ↦ (e, ground (h, e, arith))
]

-- `find_member` at the end of the list.
pub find_member-join :
    (n : Bytes) (ms : Members) (v : Json)
    → find_member (name_of v) ms ≡ none
    → value_at (find_member n (join ms (member v no_members)))
      ≡ (if string_eq n (name_of v) then some (data_of v) else value_at (find_member n ms))
unfolding find_member
find_member-join n no_members v h = rw (string_eq_sym (name_of v) n) (ground arith)
find_member-join n (member w ms) v h =
    let (differ, later) = find_member-none (name_of v) w ms h in
    let ih = find_member-join n ms v later in
    ground
      (ih, differ, string_eq_sym n (name_of v), string_eq_trans (name_of w) n (name_of v), arith)

pub find_member-assign :
    (n name val : Bytes) (ms : Members) (old : Json)
    → find_member name ms ≡ some old
    → value_at (find_member n (assign name val ms)) ≡ (
        if string_eq n name
        then some (with_value (data_of old) val)
        else value_at (find_member n ms))
unfolding find_member assign
find_member-assign n name val no_members old h = absurd (cc h)
find_member-assign n name val (member (node t own value ms) rest) old h =
    elim (Bool-cases (string_eq own name)) [
      | inl same ↦
          let found : old ≡ node t own value ms = ground (h, same, arith) in
          rw (found, same, sym (string_eq_equal own name same), string_eq_sym n own) (ground arith)
      | inr differ ↦
          let ih = find_member-assign n name val rest old (ground (h, differ, arith)) in
          ground (ih, differ, string_eq_sym n name, string_eq_trans own n name, arith)
    ]

pub find_member-remove_member :
    (n name : Bytes) (ms rest : Members)
    → IsDistinct ms
    → remove_member name ms ≡ some rest
    → value_at (find_member n rest)
      ≡ (if string_eq n name then none else value_at (find_member n ms))
unfolding find_member remove_member IsDistinct
find_member-remove_member n name no_members rest u h = absurd (cc h)
find_member-remove_member n name (member v ms) rest (fresh, u) h =
    elim (Bool-cases (string_eq (name_of v) name)) [
      | inl same ↦
          let found : rest ≡ ms = ground (h, same, arith) in
          let absent = ap value_at fresh in
          let equal = string_eq_equal (name_of v) name same in
          rw (found, sym equal, string_eq_sym n (name_of v))
            (elim (Bool-cases (string_eq (name_of v) n)) [
              | inl e ↦ rw (e, sym (string_eq_equal (name_of v) n e)) absent
              | inr e ↦ rw e
            ])
      | inr differ ↦ elim (Option-cases (remove_member name ms)) [
        | inl e ↦ absurd (ground (h, differ, e, arith))
        | inr (r, e) ↦
            let found : rest ≡ member v r = ground (h, differ, e, arith) in
            let ih = find_member-remove_member n name ms r u e in
            rw found
              (ground (ih, differ, string_eq_sym n name, string_eq_trans (name_of v) n name, arith))
      ]
    ]

-- The three operations keep the names different.
find_member-join-none :
    (n : Bytes) (ms : Members) (v : Json)
    → string_eq (name_of v) n ≡ false
    → find_member n ms ≡ none
    → find_member n (join ms (member v no_members)) ≡ none
unfolding find_member
find_member-join-none n no_members v differ h = rw differ
find_member-join-none n (member w ms) v differ h =
    let (other, later) = find_member-none n w ms h in
    rw other (find_member-join-none n ms v differ later)

pub join-IsDistinct :
    (ms : Members) (v : Json)
    → find_member (name_of v) ms ≡ none
    → IsDistinct ms
    → IsDistinct (join ms (member v no_members))
unfolding IsDistinct find_member
join-IsDistinct no_members v h u = (refl, tt)
join-IsDistinct (member w ms) v h (fresh, u) =
    let (differ, later) = find_member-none (name_of v) w ms h in
    (
      find_member-join-none (name_of w) ms v (string_eq_sym (name_of v) (name_of w) ∙ differ) fresh,
      join-IsDistinct ms v later u,
    )

find_member-assign-none :
    (n name val : Bytes) (ms : Members)
    → find_member n ms ≡ none
    → find_member n (assign name val ms) ≡ none
unfolding find_member assign
find_member-assign-none n name val no_members h = refl
find_member-assign-none n name val (member (node t own value ms) rest) h =
    let (other, later) = find_member-none n (node t own value ms) rest h in
    let ih = find_member-assign-none n name val rest later in
    elim (Bool-cases (string_eq own name)) [
      | inl e ↦ rw (e, other) later
      | inr e ↦ rw (e, other) ih
    ]

pub assign-IsDistinct :
    (name val : Bytes) (ms : Members) → IsDistinct ms → IsDistinct (assign name val ms)
unfolding IsDistinct assign
assign-IsDistinct name val no_members u = tt
assign-IsDistinct name val (member (node t own value ms) rest) (fresh, u) =
    elim (Bool-cases (string_eq own name)) [
      | inl e ↦ rw e (fresh, u)
      | inr e ↦
          rw e (find_member-assign-none own name val rest fresh, assign-IsDistinct name val rest u)
    ]

-- What the loop of `bkJsonDel` does when it does not stop at the first member.
remove_member_later :
    (name : Bytes) (v : Json) (ms rest : Members)
    → string_eq (name_of v) name ≡ false
    → remove_member name (member v ms) ≡ some rest
    → (r : Members) × (remove_member name ms ≡ some r) × (rest ≡ member v r)
unfolding remove_member
remove_member_later name v ms rest differ h = elim (Option-cases (remove_member name ms)) [
  | inl e ↦ absurd (ground (h, differ, e, arith))
  | inr (r, e) ↦ (r, e, ground (h, differ, e, arith))
]

find_member-remove_member-none :
    (n name : Bytes) (ms rest : Members)
    → find_member n ms ≡ none
    → remove_member name ms ≡ some rest
    → find_member n rest ≡ none
unfolding find_member remove_member
find_member-remove_member-none n name no_members rest h e = absurd (cc e)
find_member-remove_member-none n name (member v ms) rest h e =
    let (other, later) = find_member-none n v ms h in
    elim (Bool-cases (string_eq (name_of v) name)) [
      | inl same ↦ let found : rest ≡ ms = ground (e, same, arith) in rw found later
      | inr differ ↦
          let (r, more, found) = remove_member_later name v ms rest differ e in
          rw (found, other) (find_member-remove_member-none n name ms r later more)
    ]

pub remove_member-IsDistinct :
    (name : Bytes) (ms rest : Members)
    → IsDistinct ms
    → remove_member name ms ≡ some rest
    → IsDistinct rest
unfolding IsDistinct remove_member
remove_member-IsDistinct name no_members rest u e = absurd (cc e)
remove_member-IsDistinct name (member v ms) rest (fresh, u) e =
    elim (Bool-cases (string_eq (name_of v) name)) [
      | inl same ↦ let found : rest ≡ ms = ground (e, same, arith) in rw found u
      | inr differ ↦
          let (r, more, found) = remove_member_later name v ms rest differ e in
          rw found (
            find_member-remove_member-none (name_of v) name ms r fresh more,
            remove_member-IsDistinct name ms r u more,
          )
    ]

-- A member is removed exactly when it is found.
pub remove_member-none :
    (name : Bytes) (ms : Members) → remove_member name ms ≡ none → find_member name ms ≡ none
unfolding find_member remove_member
remove_member-none name no_members h = refl
remove_member-none name (member v ms) h = elim (Bool-cases (string_eq (name_of v) name)) [
  | inl same ↦ absurd (ground (h, same, arith))
  | inr differ ↦ elim (Option-cases (remove_member name ms)) [
    | inl e ↦ rw differ (remove_member-none name ms e)
    | inr (r, e) ↦ absurd (ground (h, differ, e, arith))
  ]
]

pub remove_member-some :
    (name : Bytes) (ms rest : Members)
    → remove_member name ms ≡ some rest
    → (v : Json) × (find_member name ms ≡ some v)
unfolding find_member remove_member
remove_member-some name no_members rest h = absurd (cc h)
remove_member-some name (member v ms) rest h = elim (Bool-cases (string_eq (name_of v) name)) [
  | inl same ↦ (v, rw same)
  | inr differ ↦
      let (r, more, _) = remove_member_later name v ms rest differ h in
      let (w, found) = remove_member-some name ms r more in (w, rw (differ, found))
]

pub json_length-remove_member :
    (name : Bytes) (ms rest : Members)
    → remove_member name ms ≡ some rest
    → json_length ms ≡ suc (json_length rest)
unfolding remove_member json_length
json_length-remove_member name no_members rest h = absurd (cc h)
json_length-remove_member name (member v ms) rest h =
    elim (Bool-cases (string_eq (name_of v) name)) [
      | inl same ↦ let found : rest ≡ ms = ground (h, same, arith) in rw found refl
      | inr differ ↦
          let (r, more, found) = remove_member_later name v ms rest differ h in
          rw found (ap suc (json_length-remove_member name ms r more))
    ]
