-- ===== src/Conformance/Inventory.antt =====
-- conformance/check-source-inventory.py: the inventory of genesis sources against the Git objects.
pub mod Git
pub mod Grouping
pub mod Producing
pub mod Counting
mod Tests
use sacrysty.Prelude.{
  decimal, ℕ, zero, suc, ◌+◌, ◌/◌, ◌%◌, ltb, take, Bool, true, false, ◌&&◌, ◌||◌, not, Option, none,
  some, List, [], ◌∷◌, ◌++◌, ℤ, pos, eq_ℤ, Str, Bytes, codes, length, is_empty, all, any, ◌==◌,
  str_eq, mem, starts_with, if◌then◌else◌,
}
use sacrysty.Json.{
  Value, text, integer, array, Fields, Items, nil, cons, lookup, keys, set_eq, subset, as_dict,
}
use sacrysty.Json.Equality.{py_eq}
use sacrysty.Conformance.{
  Verdict, accepted, rejected, type_error, key_error, ◌>>=◌, ◌>>◌, require, found, at, is_text,
  object_of, load,
}
use sacrysty.StrictJson.Utf8.{decode_utf8}
use Git.{
  GitCommand, run_git, decoded, split_lines, split_on, require_complete_history, commit_identity,
  changed_paths, tree_entry,
}

-- The producers' commits and issues, in the order of PRODUCERS.
abbrev pub producers : List (Str × ℕ)
producers =
    (codes "cad9c98aa2a122368e31f4ab14aeff4e6c95a6cf", 12)
    ∷ (codes "5a4332f7c2801df808fee58e7997cdb3ed9c855d", 13)
    ∷ (codes "b7b23d92fa9d1535683f7417051ebb2c886c1d28", 14)
    ∷ (codes "2579e8011e298a8863ae4a6ee439d5faf2e037b7", 15)
    ∷ []

abbrev pub entry_fields : List Str
entry_fields =
    codes "blob_oid"
    ∷ codes "byte_length"
    ∷ codes "git_file_mode"
    ∷ codes "issue"
    ∷ codes "parent_sha"
    ∷ codes "path"
    ∷ codes "sha256"
    ∷ codes "source_commit"
    ∷ codes "tree_sha"
    ∷ []

abbrev inventory_members : List Str
inventory_members =
    codes "entries" ∷ codes "format" ∷ codes "item_count" ∷ codes "lookup_failures" ∷ []

unfoldable pub count_items : Items → ℕ
count_items nil = 0
count_items (cons v vs) = suc (count_items vs)

abbrev pub items_of : Value → Verdict Items
items_of (array vs) = accepted vs
items_of _ = rejected (codes "source inventory entries are not an array")

abbrev pub is_int : Value → ℕ → Bool
is_int (integer n) m = eq_ℤ n (pos m)
is_int _ m = false

unfoldable pub load_inventory : Option Bytes → Verdict Fields
load_inventory file = do
  value ← load (codes "inventory") (codes "source inventory") file
  require (set_eq (keys value) inventory_members)
      (codes "source inventory top-level members are incomplete")
  format ← at (codes "format") value
  require (is_text format (codes "sacrysty-source-inventory/v1"))
      (codes "source inventory format mismatch")
  failures ← at (codes "lookup_failures") value
  require (py_eq failures (array nil)) (codes "source inventory retains lookup failures")
  raw ← at (codes "entries") value
  entries ← items_of raw
  item_count ← at (codes "item_count") value
  require (is_int item_count (count_items entries)) (codes "source inventory item count mismatch")
  accepted value

abbrev pub text_of : Str → Value → Verdict Str
text_of field (text s) = accepted s
text_of field _ = rejected (codes "inventory " ++ field ++ codes " is not a string")

unfoldable pub entry_string : Fields → Str → Verdict Str
entry_string entry field = at field entry >>= text_of field

abbrev issue_in : Str → List (Str × ℕ) → Option ℕ
issue_in commit [] = none
issue_in commit ((c, issue) ∷ rest) = if str_eq commit c then some issue else issue_in commit rest

abbrev known_issue : Str → Option ℕ → Verdict ℕ
known_issue commit none = rejected (codes "unknown producer commit: " ++ commit)
known_issue commit (some issue) = accepted issue

-- Empty, absolute, or with a part "..": pathlib drops empty and "." parts.
unfoldable pub is_invalid_path : Str → Bool
is_invalid_path path =
    is_empty path
    || starts_with path (codes "/")
    || any (λ part. str_eq part (codes "..")) (split_on b'/' path)

abbrev pub Group : Type 0
Group = (Str × ℕ) × List Fields

-- `grouped[commit].append(entry)`
unfoldable pub append_entry : Str → Fields → List Group → List Group
append_entry commit entry [] = []
append_entry commit entry (((c, issue), entries) ∷ groups) =
    if str_eq commit c
    then ((c, issue), entries ++ entry ∷ []) ∷ groups
    else ((c, issue), entries) ∷ append_entry commit entry groups

abbrev is_pair : Str → Str → Str × Str → Bool
is_pair commit path (c, p) = str_eq commit c && str_eq path p

unfoldable pub entry_members : Value → Verdict Fields
entry_members v = do
  entry ← object_of (codes "source inventory entry members are incomplete") (as_dict v)
  require (set_eq (keys entry) entry_fields) (codes "source inventory entry members are incomplete")
  accepted entry

-- The tests of one entry: its commit and its path.
unfoldable pub check_entry : List (Str × Str) → Value → Verdict (Fields × Str × Str)
check_entry identities v = do
  entry ← entry_members v
  commit ← entry_string entry (codes "source_commit")
  path ← entry_string entry (codes "path")
  issue ← known_issue commit (issue_in commit producers)
  claimed ← at (codes "issue") entry
  require (py_eq claimed (integer (pos issue))) (codes "producer issue mismatch: " ++ commit)
  require (not (is_invalid_path path)) (codes "invalid producer path: " ++ path)
  require (not (any (is_pair commit path) identities))
      (codes "duplicate producer path identity: " ++ commit ++ codes ":" ++ path)
  accepted (entry, commit, path)

unfoldable pub group_entries : Items → List (Str × Str) → List Group → Verdict (List Group)
unfolding check_entry append_entry
group_entries nil identities groups = accepted groups
group_entries (cons v vs) identities groups = do
  (entry, commit, path) ← check_entry identities v
  group_entries vs ((commit, path) ∷ identities) (append_entry commit entry groups)

abbrev empty_group : Str × ℕ → Group
empty_group p = (p, [])

abbrev pub empty_groups : List (Str × ℕ) → List Group
empty_groups [] = []
empty_groups (p ∷ ps) = empty_group p ∷ empty_groups ps

unfoldable pub paths_of : List Fields → Verdict (List Str)
paths_of [] = accepted []
paths_of (entry ∷ entries) = do
  path ← entry_string entry (codes "path")
  paths ← paths_of entries
  accepted (path ∷ paths)

module _ (git : GitCommand) (sha256 : Bytes → Str) where
  abbrev mismatch : Str → Str → Str → Str
  mismatch what commit path =
      codes "producer " ++ what ++ codes " mismatch: " ++ commit ++ codes ":" ++ path

  -- `_entry_string(entry, key) != expected`
  abbrev matches : Fields → Str → Str → Str → Verdict (Unit {0})
  matches entry key expected message = do
    s ← entry_string entry key
    require (str_eq s expected) message

  -- One entry against the objects of its producer.
  unfoldable pub check_object : Str → Str → Str → Fields → Verdict (Unit {0})
  check_object commit parent tree entry = do
    path ← entry_string entry (codes "path")
    matches entry (codes "parent_sha") parent (mismatch (codes "parent") commit path)
    matches entry (codes "tree_sha") tree (mismatch (codes "tree") commit path)
    (mode, oid, blob) ← tree_entry git commit path
    matches entry (codes "git_file_mode") mode (mismatch (codes "file mode") commit path)
    matches entry (codes "blob_oid") oid (mismatch (codes "blob") commit path)
    byte_length ← at (codes "byte_length") entry
    require (is_int byte_length (length blob)) (mismatch (codes "byte length") commit path)
    matches entry (codes "sha256") (sha256 blob) (mismatch (codes "SHA-256") commit path)

  unfoldable pub check_objects : Str → Str → Str → List Fields → Verdict (Unit {0})
  check_objects commit parent tree [] = accepted tt
  check_objects commit parent tree (entry ∷ entries) = do
    check_object commit parent tree entry
    check_objects commit parent tree entries

  -- One producer: the number of paths that its commit changes.
  unfoldable pub check_producer : Group → Verdict ℕ
  check_producer ((commit, issue), entries) = do
    (parent, tree) ← commit_identity git commit
    changed ← changed_paths git parent commit
    manifest ← paths_of entries
    require (set_eq manifest changed && length entries == length changed)
        (codes "producer path inventory mismatch: " ++ commit)
    check_objects commit parent tree entries
    accepted (length changed)

  unfoldable pub check_producers : List Group → Verdict ℕ
  check_producers [] = accepted 0
  check_producers (group ∷ groups) = do
    here ← check_producer group
    rest ← check_producers groups
    accepted (here + rest)

  -- `_check_inventory`: the number of paths and of producers.
  unfoldable pub check_entries : Fields → Verdict (ℕ × ℕ)
  check_entries inventory = do
    require_complete_history git
    raw ← at (codes "entries") inventory
    entries ← items_of raw
    grouped ← group_entries entries [] (empty_groups producers)
    exact_total ← check_producers grouped
    item_count ← at (codes "item_count") inventory
    require (py_eq (integer (pos exact_total)) item_count)
        (codes "exact producer path count mismatch")
    accepted (exact_total, length grouped)

abbrev pub expected_refs : List (Str × ℕ) → List Str
expected_refs [] = []
expected_refs ((commit, issue) ∷ rest) =
    (commit ++ codes " refs/heads/producer-" ++ decimal issue) ∷ expected_refs rest

abbrev pub bundle_bytes : ℕ
bundle_bytes = 61436

abbrev pub bundle_sha256 : Str
bundle_sha256 = codes "2ad3bdfdac795e880f4fe28e74ae3593a1b0f4141b7ca921d55c148a06c893b0"

abbrev bundle_of : Option Bytes → Verdict Bytes
bundle_of none = rejected (codes "source bundle is unavailable")
bundle_of (some bytes) = accepted (take (suc bundle_bytes) bytes)

abbrev repository_of : Option GitCommand → Verdict GitCommand
repository_of none = rejected (codes "source bundle cannot supply its complete objects")
repository_of (some git) = accepted git

-- `clone` is git clone of a bundle with these bytes, none for a nonzero exit. The files are their
-- bytes, none for an OSError.
module _ (clone : Bytes → Option GitCommand) (sha256 : Bytes → Str) where
  unfoldable pub check_inventory : Option Bytes → Option Bytes → Verdict (ℕ × ℕ)
  check_inventory file bundle = do
    inventory ← load_inventory file
    bytes ← bundle_of bundle
    require ((length bytes == bundle_bytes) && str_eq (sha256 bytes) bundle_sha256)
        (codes "source bundle identity mismatch")
    git ← repository_of (clone bytes)
    output ← run_git git (codes "show-ref" ∷ [])
    refs ← decoded (decode_utf8 output)
    require (set_eq (split_lines refs) (expected_refs producers))
        (codes "source bundle producer references mismatch")
    check_entries git sha256 inventory

  -- What main prints from, or exits with.
  unfoldable pub main : Option Bytes → Option Bytes → Verdict Str
  main file bundle = do
    (items, count) ← check_inventory file bundle
    accepted (
        codes "source inventory conformance passed: "
        ++ decimal items
        ++ codes " path entries across "
        ++ decimal count
        ++ codes " producers")
