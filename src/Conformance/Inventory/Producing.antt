-- ===== src/Conformance/Inventory/Producing.antt =====
-- What the check of each producer shows of its entries.
use sacrysty.Prelude.{
  ℕ, suc, Bool, true, false, ◌&&◌, some, List, [], ◌∷◌, ◌≡◌, refl, sym, ap, ◌∙◌, Str, Bytes, codes,
  length, str_eq_sound, All, arith, ◌==◌,
}
use sacrysty.Json.{Value, text, Fields, Items, lookup, set_eq}
use sacrysty.Conformance.{
  Verdict, accepted, at, require, ◌>>◌, >>=-eq-accepted, require-eq-accepted, accepted-injective,
  found-eq-accepted,
}
use sacrysty.Conformance.Inventory.{
  is_int, entry_string, matches, check_object, check_objects, check_producer, check_producers,
  paths_of,
}
use sacrysty.Conformance.Inventory.Git.{GitCommand, commit_identity, changed_paths, tree_entry}
use sacrysty.Conformance.Inventory.Grouping.{
  total_of, entries_of, groups_of, entry_string-eq-accepted,
}

eq_sound : (m n : ℕ) → (m == n) ≡ true → m ≡ n
eq_sound m n h = ground arith

and_left : (a b : Bool) → (a && b) ≡ true → a ≡ true
and_left true b h = refl
and_left false b h = cc

and_right : (a b : Bool) → (a && b) ≡ true → b ≡ true
and_right true b h = h
and_right false b h = cc

passes : (b : Bool) (message : Str) → require b message ≡ accepted tt → b ≡ true
passes true message e = refl
passes false message e = cc

module _ (git : GitCommand) (sha256 : Bytes → Str) where
  -- An entry with the members of the object that its producer's commit has at its path.
  pub record IsObject (commit parent tree : Str) (entry : Fields) : Type 0 where
    path : Str
    path_found : lookup (codes "path") entry ≡ some (text path)
    parent_found : lookup (codes "parent_sha") entry ≡ some (text parent)
    tree_found : lookup (codes "tree_sha") entry ≡ some (text tree)
    mode : Str
    oid : Str
    blob : Bytes
    object_read : tree_entry git commit path ≡ accepted (mode, oid, blob)
    mode_found : lookup (codes "git_file_mode") entry ≡ some (text mode)
    oid_found : lookup (codes "blob_oid") entry ≡ some (text oid)
    byte_length :
        (v : Value) × (lookup (codes "byte_length") entry ≡ some v)
        × (is_int v (length blob) ≡ true)
    digest_found : lookup (codes "sha256") entry ≡ some (text (sha256 blob))

  -- A producer whose entries are the paths that its commit changes, each with its object.
  pub record IsProduced (commit : Str) (entries : List Fields) : Type 0 where
    parent : Str
    tree : Str
    identity : commit_identity git commit ≡ accepted (parent, tree)
    changed : List Str
    changed_found : changed_paths git parent commit ≡ accepted changed
    manifest : List Str
    manifest_found : paths_of entries ≡ accepted manifest
    same : set_eq manifest changed ≡ true
    as_many : length entries ≡ length changed
    objects : All (IsObject commit parent tree) entries

  matched {ℓ} :
      {There : Type ℓ} (entry : Fields) (key expected message : Str) (rest : Verdict There)
      {there : There}
      → (matches git sha256 entry key expected message >> rest) ≡ accepted there
      → (lookup key entry ≡ some (text expected)) × (rest ≡ accepted there)
  matched entry key expected message rest e =
      let (u, a, e₁) = >>=-eq-accepted (matches git sha256 entry key expected message) _ e in
      let (s, found, b) = >>=-eq-accepted (entry_string entry key) _ a in
      (
        entry_string-eq-accepted entry key found
            ∙ ap (λ x. some (text x)) (str_eq_sound s expected (passes _ message b)),
        e₁,
      )

  last_matched :
      (entry : Fields) (key expected message : Str)
      → matches git sha256 entry key expected message ≡ accepted tt
      → lookup key entry ≡ some (text expected)
  last_matched entry key expected message e =
      let (s, found, b) = >>=-eq-accepted (entry_string entry key) _ e in
      entry_string-eq-accepted entry key found
      ∙ ap (λ x. some (text x)) (str_eq_sound s expected (passes _ message b))

  check_object-IsObject :
      (commit parent tree : Str) (entry : Fields)
      → check_object git sha256 commit parent tree entry ≡ accepted tt
      → IsObject commit parent tree entry
  unfolding check_object
  check_object-IsObject commit parent tree entry e₀ =
      let (path, at_path, e₁) = >>=-eq-accepted (entry_string entry (codes "path")) _ e₀ in
      let (parent_found, e₂) = matched entry (codes "parent_sha") parent _ _ e₁ in
      let (tree_found, e₃) = matched entry (codes "tree_sha") tree _ _ e₂ in
      let ((mode, oid, blob), object_read, e₄) =
        >>=-eq-accepted (tree_entry git commit path) _ e₃ in
      let (mode_found, e₅) = matched entry (codes "git_file_mode") mode _ _ e₄ in
      let (oid_found, e₆) = matched entry (codes "blob_oid") oid _ _ e₅ in
      let (v, at_length, e₇) = >>=-eq-accepted (at (codes "byte_length") entry) _ e₆ in
      let (is_length, e₈) = require-eq-accepted (is_int v (length blob)) _ _ e₇ in
      record {
        path = path;
        path_found = entry_string-eq-accepted entry _ at_path;
        parent_found = parent_found;
        tree_found = tree_found;
        mode = mode;
        oid = oid;
        blob = blob;
        object_read = object_read;
        mode_found = mode_found;
        oid_found = oid_found;
        byte_length = (v, found-eq-accepted _ at_length, is_length);
        digest_found = last_matched entry (codes "sha256") (sha256 blob) _ e₈;
      }

  check_objects-IsObject :
      (commit parent tree : Str) (entries : List Fields)
      → check_objects git sha256 commit parent tree entries ≡ accepted tt
      → All (IsObject commit parent tree) entries
  unfolding check_objects
  check_objects-IsObject commit parent tree [] e = tt
  check_objects-IsObject commit parent tree (entry ∷ entries) e =
      let (u, here, rest) =
        >>=-eq-accepted (check_object git sha256 commit parent tree entry) _ e in
      (
        check_object-IsObject commit parent tree entry here,
        check_objects-IsObject commit parent tree entries rest,
      )

  check_producer-IsProduced :
      (commit : Str) (issue : ℕ) (entries : List Fields) {n : ℕ}
      → check_producer git sha256 ((commit, issue), entries) ≡ accepted n
      → IsProduced commit entries × (n ≡ length entries)
  unfolding check_producer
  check_producer-IsProduced commit issue entries e₀ =
      let ((parent, tree), a, e₁) = >>=-eq-accepted (commit_identity git commit) _ e₀ in
      let (changed, b, e₂) = >>=-eq-accepted (changed_paths git parent commit) _ e₁ in
      let (manifest, c, e₃) = >>=-eq-accepted (paths_of entries) _ e₂ in
      let (same, e₄) =
        require-eq-accepted (set_eq manifest changed && length entries == length changed) _ _ e₃ in
      let (u, d, e₅) = >>=-eq-accepted (check_objects git sha256 commit parent tree entries) _ e₄ in
      let as_many = eq_sound (length entries) (length changed) (and_right _ _ same) in
      (
        record {
          parent = parent;
          tree = tree;
          identity = a;
          changed = changed;
          changed_found = b;
          manifest = manifest;
          manifest_found = c;
          same = and_left _ _ same;
          as_many = as_many;
          objects = check_objects-IsObject commit parent tree entries d;
        },
        sym (accepted-injective e₅) ∙ sym as_many,
      )

  -- Every producer has exactly the entries that name its commit.
  abbrev pub AllProduced : Items → List (Str × ℕ) → Type 0
  AllProduced vs [] = Unit
  AllProduced vs ((commit, issue) ∷ ps) =
      IsProduced commit (entries_of commit vs) × AllProduced vs ps

  pub check_producers-AllProduced :
      (vs : Items) (ps : List (Str × ℕ)) {n : ℕ}
      → check_producers git sha256 (groups_of vs ps) ≡ accepted n
      → AllProduced vs ps × (n ≡ total_of vs ps) × (length (groups_of vs ps) ≡ length ps)
  unfolding check_producers
  check_producers-AllProduced vs [] e = (tt, sym (accepted-injective e), refl)
  check_producers-AllProduced vs ((commit, issue) ∷ ps) e =
      let (here, a, e₁) =
        >>=-eq-accepted (check_producer git sha256 ((commit, issue), entries_of commit vs)) _ e in
      let (rest, b, e₂) = >>=-eq-accepted (check_producers git sha256 (groups_of vs ps)) _ e₁ in
      let (produced, size) = check_producer-IsProduced commit issue (entries_of commit vs) a in
      let (others, sizes, groups) = check_producers-AllProduced vs ps b in
      ((produced, others), sym (accepted-injective e₂) ∙ omega (arith, size, sizes), ap suc groups)
