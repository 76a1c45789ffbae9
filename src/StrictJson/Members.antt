-- ===== src/StrictJson/Members.antt =====
-- `_object_without_duplicate_members`: the dict holds exactly the pairs, in their order, and is
-- made exactly when no name is repeated.
use sacrysty.Prelude.{
  ◌≡◌, refl, sym, ap, ◌∙◌, Bool, true, false, not, ◌&&◌, ◌||◌, Str, [], str_eq, str_eq_iff,
  str_eq_refl, str_eq_sound, arith, Bool-cases, inl, inr, if◌then◌else◌,
}
use mathlib.Core.Bool.{false≢true}
use sacrysty.Json.{Value, Fields, end, field, has, insert}
use sacrysty.StrictJson.Result.{ok, fail, duplicate_member}
use sacrysty.StrictJson.Scan.{collect, object_without_duplicate_members}

-- No name stands twice.
unfoldable pub distinct : Fields → Bool
distinct end = true
distinct (field k v d) = not (has k d) && distinct d

append : Fields → Fields → Fields
append end e = e
append (field k v d) e = field k v (append d e)

append-end : (d : Fields) → append d end ≡ d
unfolding append
append-end end = refl
append-end (field k v d) = ap (field k v) (append-end d)

append_assoc : (d e f : Fields) → append (append d e) f ≡ append d (append e f)
unfolding append
append_assoc end e f = refl
append_assoc (field k v d) e f = ap (field k v) (append_assoc d e f)

has-append : (k : Str) (d e : Fields) → has k (append d e) ≡ (has k d || has k e)
unfolding has append
has-append k end e = refl
has-append k (field j v d) e = ground (arith, has-append k d e)

-- A new name goes to the end.
insert_new :
    (k : Str) (v : Value) (d : Fields) → has k d ≡ false → insert k v d ≡ append d (field k v end)
unfolding has insert append
insert_new k v end h = refl
insert_new k v (field j w d) h = ground (arith, insert_new k v d)

repeated :
    (k : Str) (v : Value) (d e : Fields)
    → has k d ≡ true
    → distinct (append d (field k v e)) ≡ false
unfolding has append distinct
repeated k v end e h = cc
repeated k v (field j w d) e h = elim (Bool-cases (str_eq k j)) [
  | inl same ↦ ground (arith, str_eq_sound k j same, has-append j d (field k v e), str_eq_refl j)
  | inr other ↦ ground (arith, repeated k v d e)
]

collect-distinct :
    (d pairs : Fields) → distinct (append d pairs) ≡ true → collect d pairs ≡ ok (append d pairs)
unfolding collect append
collect-distinct d end h = ap ok (sym (append-end d))
collect-distinct d (field k v pairs) h = elim (Bool-cases (has k d)) [
  | inl old ↦ absurd (false≢true (sym (repeated k v d pairs old) ∙ h))
  | inr new ↦
      let moved : append (insert k v d) pairs ≡ append d (field k v pairs) =
        rw (insert_new k v d new) (append_assoc d (field k v end) pairs) in
      rw new (collect-distinct (insert k v d) pairs (ap distinct moved ∙ h) ∙ ap ok moved)
]

-- The name of the first pair whose name stands in `seen` or in an earlier pair.
unfoldable pub first_repeated : Fields → Fields → Str
unfolding append
first_repeated seen end = []
first_repeated seen (field k v pairs) =
    if has k seen then k else first_repeated (append seen (field k v end)) pairs

distinct-new :
    (k : Str) (v : Value) (d : Fields)
    → has k d ≡ false
    → distinct d ≡ true
    → distinct (append d (field k v end)) ≡ true
unfolding has append distinct
distinct-new k v end h p = refl
distinct-new k v (field j w d) h p =
    ground
      (arith, distinct-new k v d, has-append j d (field k v end), str_eq_iff k j, str_eq_iff j k)

collect_repeated :
    (d pairs : Fields)
    → distinct (append d pairs) ≡ false
    → distinct d ≡ true
    → collect d pairs ≡ fail (duplicate_member (first_repeated d pairs))
unfolding collect first_repeated append
collect_repeated d end h p = absurd (false≢true (sym h ∙ (ap distinct (append-end d) ∙ p)))
collect_repeated d (field k v pairs) h p = elim (Bool-cases (has k d)) [
  | inl old ↦ rw old
  | inr new ↦
      rw (new, insert_new k v d new)
        (collect_repeated (append d (field k v end)) pairs
          (ap distinct (append_assoc d (field k v end) pairs) ∙ h) (distinct-new k v d new p))
]

-- The hook returns the very pairs, in their order, where no name is repeated; otherwise it reports
-- the first name that an earlier pair has already.
pub object_without_duplicate_members_lem :
    (pairs : Fields)
    → object_without_duplicate_members pairs
      ≡ (if distinct pairs then ok pairs else fail (duplicate_member (first_repeated end pairs)))
unfolding object_without_duplicate_members append distinct
object_without_duplicate_members_lem pairs = elim (Bool-cases (distinct pairs)) [
  | inl once ↦ rw once (collect-distinct end pairs once)
  | inr twice ↦ rw twice (collect_repeated end pairs twice refl)
]
