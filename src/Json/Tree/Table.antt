-- ===== src/Json/Tree/Table.antt =====
-- An object or array of bklib/bklib.cpp as a table from names to values.
use bkjs_utils.Prelude.{
  ◌≡◌, refl, ap, arith, Bytes, Bool, true, false, ◌||◌, Option, none, some, ◌==◌, Bool-cases, inl,
  inr, Option-cases,
}
use bkjs_utils.Json.{Json, Members, no_members, member, json_length}
use bkjs_utils.Json.Tree.{
  Root, value_of, has_members, json_append, find_member, json_get, json_set, remove_member,
  json_del,
}
use bkjs_utils.Json.Tree.Names.{
  IsDistinct, Entry, data_of, with_value, value_at, remove_member-none, json_length-remove_member,
}

-- An object or array whose members have different names, and whose `last` may point to a freed
-- member only while it has no members.
pub record IsTable (r : Root) : Type 0 where
  pub holds_members : has_members r ≡ true
  pub distinct : IsDistinct r.frame.members
  pub stale_empty : r.stale ≡ true → r.frame.members ≡ no_members

-- The table.
abbrev pub entry : Root → Bytes → Option Entry
entry r name = value_at (json_get r name)

-- What `bkJsonSet` makes of the entry of a name: the type and the members of an old one stay.
abbrev pub replaced : Option Entry → Json → Entry
replaced none v = data_of v
replaced (some x) v = with_value x (value_of v)

abbrev pub is_some {ℓ} : {A : Type ℓ} → Option A → Bool
is_some none = false
is_some (some a) = true

-- The root with other members.
abbrev changed : Root → Members → Bool → Root
changed r ms stale = record { frame = record r.frame { members = ms }; stale = stale }

json_get_lem :
    (r : Root) (n : Bytes) → has_members r ≡ true → json_get r n ≡ find_member n r.frame.members
unfolding json_get
json_get_lem r n h = rw h

changed_holds :
    (r : Root) (ms : Members) (stale : Bool)
    → has_members r ≡ true
    → has_members (changed r ms stale) ≡ true
unfolding has_members
changed_holds r ms stale h = h

length_zero : (ms : Members) → (json_length ms == 0) ≡ true → ms ≡ no_members
unfolding json_length
length_zero no_members h = refl
length_zero (member v ms) h = ground arith

json_set_stale :
    (r : Root) (w : Json)
    → has_members r ≡ true
    → r.frame.members ≡ no_members
    → r.stale ≡ true
    → json_set r w ≡ none
unfolding json_set json_append json_get find_member
json_set_stale r w h e s = rw (h, e, s)

module _ (r : Root) (name : Bytes) (t : IsTable r) where
  json_del_present :
      (ms : Members)
      → remove_member name r.frame.members ≡ some ms
      → json_del r name ≡ (true, changed r ms (r.stale || (json_length ms == 0)))
  unfolding json_del
  json_del_present ms e = rw (t.holds_members, e)

  -- A member is there, so `last` is not stale.
  present_fresh : (ms : Members) → remove_member name r.frame.members ≡ some ms → r.stale ≡ false
  unfolding remove_member
  present_fresh ms e = elim (Bool-cases r.stale) [
    | inr fresh ↦ fresh
    | inl stale ↦ absurd (cc (e, ap (remove_member name) (t.stale_empty stale)))
  ]

  -- Where the member was the only one, what `bkJsonSet` would do next is undefined: it writes
  -- through a pointer to the freed member.
  pub json_del_dangles :
      (v w : Json)
      → json_length r.frame.members ≡ 1
      → json_get r name ≡ some v
      → json_set (json_del r name).1 w ≡ none
  json_del_dangles v w one found = elim (Option-cases (remove_member name r.frame.members)) [
    | inl e ↦
        absurd (
          cc
            (found, json_get_lem r name t.holds_members, remove_member-none name r.frame.members e))
    | inr (ms, e) ↦
        let count = json_length-remove_member name r.frame.members ms e in
        let empty : (json_length ms == 0) ≡ true = ground (one, count, arith) in
        rw (json_del_present ms e) (
          json_set_stale (changed r ms _) w (changed_holds r ms _ t.holds_members)
            (length_zero ms empty) (rw (present_fresh ms e, empty)))
  ]
