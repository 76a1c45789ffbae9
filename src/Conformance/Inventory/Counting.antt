-- ===== src/Conformance/Inventory/Counting.antt =====
-- The counts that an accepted inventory reports.
use sacrysty.Prelude.{
  ℕ, suc, ◌+◌, Bool, true, false, none, some, List, [], ◌∷◌, ◌≡◌, refl, sym, ap, ◌∙◌, pos, Str,
  Bytes, codes, length, length-append, str_eq, str_eq_sound, arith, if◌then◌else◌,
}
use sacrysty.Json.{Value, array, integer, Fields, Items, nil, cons, lookup}
use sacrysty.Json.Equality.{py_eq}
use sacrysty.Conformance.{
  accepted, at, >>=-eq-accepted, require-eq-accepted, accepted-injective, found-eq-accepted,
}
use sacrysty.Conformance.Inventory.{
  producers, issue_in, group_entries, empty_groups, count_items, check_producers, check_entries,
  items_of,
}
use sacrysty.Conformance.Inventory.Git.{GitCommand, require_complete_history}
use sacrysty.Conformance.Inventory.Grouping.{
  IsDistinct, Names, entry_for-Names, entries_of, producers-IsDistinct, AreEntries, total_of,
  group_entries-eq-groups_of,
}
use sacrysty.Conformance.Inventory.Producing.{AllProduced, check_producers-AllProduced}

abbrev counts : Bool → Fields → ℕ
counts b entry = length (if b then entry ∷ [] else [])

length-entries_of :
    (v : Value) (vs : Items) (entry : Fields) (commit c : Str)
    → Names v entry commit
    → length (entries_of c (cons v vs)) ≡ counts (str_eq commit c) entry + length (entries_of c vs)
length-entries_of v vs entry commit c h =
    rw (entry_for-Names v entry commit c h)
      (length-append (if str_eq commit c then entry ∷ [] else []) (entries_of c vs))

total_of-none :
    (v : Value) (vs : Items) (entry : Fields) (commit : Str) (ps : List (Str × ℕ))
    → Names v entry commit
    → issue_in commit ps ≡ none
    → total_of (cons v vs) ps ≡ total_of vs ps
total_of-none v vs entry commit [] h k = refl
total_of-none v vs entry commit ((c, issue) ∷ ps) h k =
    by_test (str_eq commit c) k (length-entries_of v vs entry commit c h)
      (total_of-none v vs entry commit ps h)
  where
    by_test :
        (b : Bool)
        → (if b then some issue else issue_in commit ps) ≡ none
        → length (entries_of c (cons v vs)) ≡ counts b entry + length (entries_of c vs)
        → (issue_in commit ps ≡ none → total_of (cons v vs) ps ≡ total_of vs ps)
        → total_of (cons v vs) ((c, issue) ∷ ps) ≡ total_of vs ((c, issue) ∷ ps)
    by_test true k l r = cc
    by_test false k l r = omega (arith, l, r k)

total_of-some :
    (v : Value) (vs : Items) (entry : Fields) (commit : Str) (ps : List (Str × ℕ)) {i : ℕ}
    → Names v entry commit
    → IsDistinct ps
    → issue_in commit ps ≡ some i
    → total_of (cons v vs) ps ≡ suc (total_of vs ps)
total_of-some v vs entry commit [] h d k = cc
total_of-some v vs entry commit ((c, issue) ∷ ps) {i = i} h (absent, d) k =
    by_test (str_eq commit c) refl k (length-entries_of v vs entry commit c h)
      (total_of-some v vs entry commit ps h d)
  where
    by_test :
        (b : Bool)
        → str_eq commit c ≡ b
        → (if b then some issue else issue_in commit ps) ≡ some i
        → length (entries_of c (cons v vs)) ≡ counts b entry + length (entries_of c vs)
        → (issue_in commit ps ≡ some i → total_of (cons v vs) ps ≡ suc (total_of vs ps))
        → total_of (cons v vs) ((c, issue) ∷ ps) ≡ suc (total_of vs ((c, issue) ∷ ps))
    by_test true e k l r = omega (
      arith,
      l,
      total_of-none v vs entry commit ps h
          (ap (λ x. issue_in x ps) (str_eq_sound commit c e) ∙ absent),
    )
    by_test false e k l r = omega (arith, l, r k)

-- Every entry is one producer's.
total_of-eq-count_items : (vs : Items) → AreEntries vs → total_of vs producers ≡ count_items vs
unfolding count_items
total_of-eq-count_items nil h = refl
total_of-eq-count_items (cons v vs) ((entry, commit, path, e), rest) =
    total_of-some v vs entry commit producers (e.is_object, e.commit_found) producers-IsDistinct
      e.is_known
    ∙ ap suc (total_of-eq-count_items vs rest)

items_of-eq-accepted : (v : Value) {vs : Items} → items_of v ≡ accepted vs → v ≡ array vs
items_of-eq-accepted (array us) e = ap array (accepted-injective e)
items_of-eq-accepted _ e = cc

-- What an accepted inventory with n paths and k producers contains.
pub record IsInventory (git : GitCommand) (sha256 : Bytes → Str) (inventory : Fields) (n k : ℕ)
    : Type 0 where
  entries : Items
  entries_found : lookup (codes "entries") inventory ≡ some (array entries)
  are_entries : AreEntries entries
  produced : AllProduced git sha256 entries producers
  total : n ≡ total_of entries producers
  every_entry : n ≡ count_items entries
  item_count :
      (c : Value) × (lookup (codes "item_count") inventory ≡ some c)
      × (py_eq (integer (pos n)) c ≡ true)
  producer_count : k ≡ length producers

-- If the inventory is accepted with n paths and k producers, then its entries are an array of n
-- items, its item count equals n, and k is the number of producers. Each item is an object with
-- exactly the nine members, a producer's commit, this producer's issue, and a valid path. For each
-- producer, take the entries that name its commit, which are n in total over the producers: their
-- paths are the paths that Git reports as changed between the commit and its parent, as many as
-- there are entries; and each of them has the parent, the tree, and the mode, the identifier, the
-- length and the digest of the object that Git reports at its path.
pub check_entries-counts :
    (git : GitCommand) (sha256 : Bytes → Str) (inventory : Fields) {n k : ℕ}
    → check_entries git sha256 inventory ≡ accepted (n, k)
    → IsInventory git sha256 inventory n k
unfolding check_entries
check_entries-counts git sha256 inventory {n = n} {k = k} e₀ =
    let (u, a, e₁) = >>=-eq-accepted (require_complete_history git) _ e₀ in
    let (raw, b, e₂) = >>=-eq-accepted (at (codes "entries") inventory) _ e₁ in
    let (vs, c, e₃) = >>=-eq-accepted (items_of raw) _ e₂ in
    let (grouped, d, e₄) = >>=-eq-accepted (group_entries vs [] (empty_groups producers)) _ e₃ in
    let (total, f, e₅) = >>=-eq-accepted (check_producers git sha256 grouped) _ e₄ in
    let (count, g, e₆) = >>=-eq-accepted (at (codes "item_count") inventory) _ e₅ in
    let (equal, e₇) = require-eq-accepted (py_eq (integer (pos total)) count) _ _ e₆ in
    let pair = accepted-injective e₇ in
    let (groups, are_entries) = group_entries-eq-groups_of vs d in
    let (produced, sum, groups_size) =
      check_producers-AllProduced git sha256 vs producers
        (ap (check_producers git sha256) (sym groups) ∙ f) in
    let is_total : n ≡ total = sym (ap (λ t. t.0) pair) in
    record {
      entries = vs;
      entries_found = found-eq-accepted _ b ∙ ap some (items_of-eq-accepted raw c);
      are_entries = are_entries;
      produced = produced;
      total = is_total ∙ sum;
      every_entry = is_total ∙ sum ∙ total_of-eq-count_items vs are_entries;
      item_count =
          (count, found-eq-accepted _ g, ap (λ m. py_eq (integer (pos m)) count) is_total ∙ equal);
      producer_count = sym (ap (λ t. t.1) pair) ∙ ap length groups ∙ groups_size;
    }
