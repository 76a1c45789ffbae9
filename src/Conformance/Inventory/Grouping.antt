-- ===== src/Conformance/Inventory/Grouping.antt =====
-- The grouping of the inventory's entries by their producers' commits.
use mathlib.Core.List.{append_assoc}
use sacrysty.Prelude.{
  length, ◌+◌, ℕ, Bool, true, false, not, Option, none, some, List, [], ◌∷◌, ◌++◌, ◌≡◌, refl, sym,
  ap, ◌∙◌, pos, Str, codes, str_eq, str_eq_sound, any, append_nil, if◌then◌else◌,
}
use sacrysty.Json.{Value, text, integer, Fields, Items, nil, cons, lookup, keys, set_eq, as_dict}
use sacrysty.Json.Equality.{py_eq}
use sacrysty.Conformance.{
  accepted, at, is_text, object_of, >>=-eq-accepted, require-eq-accepted, accepted-injective,
  found-eq-accepted, object_of-eq-accepted,
}
use sacrysty.Conformance.Inventory.{
  producers, Group, append_entry, check_entry, entry_members, entry_fields, entry_string, text_of,
  issue_in, known_issue, group_entries, empty_groups, is_invalid_path, is_pair,
}

abbrev pub producers_of : List Group → List (Str × ℕ)
producers_of [] = []
producers_of ((p, entries) ∷ groups) = p ∷ producers_of groups

abbrev names_commit : Str → Option Value → Bool
names_commit commit none = false
names_commit commit (some v) = is_text v commit

abbrev entry_for : Str → Option Fields → List Fields
entry_for commit none = []
entry_for commit (some d) =
    if names_commit commit (lookup (codes "source_commit") d) then d ∷ [] else []

-- The entries that name the commit, in the order of the inventory.
abbrev pub entries_of : Str → Items → List Fields
entries_of commit nil = []
entries_of commit (cons v vs) = entry_for commit (as_dict v) ++ entries_of commit vs

abbrev pub IsDistinct : List (Str × ℕ) → Type 0
IsDistinct [] = Unit
IsDistinct ((c, issue) ∷ ps) = (issue_in c ps ≡ none) × IsDistinct ps

abbrev extend : Items → List Group → List Group
extend vs [] = []
extend vs (((c, issue), entries) ∷ groups) =
    ((c, issue), entries ++ entries_of c vs) ∷ extend vs groups

extend-nil : (groups : List Group) → extend nil groups ≡ groups
extend-nil [] = refl
extend-nil (((c, issue), entries) ∷ groups) = rw (sym (append_nil entries), extend-nil groups) refl

append_entry-producers :
    (commit : Str) (entry : Fields) (groups : List Group)
    → producers_of (append_entry commit entry groups) ≡ producers_of groups
unfolding append_entry
append_entry-producers commit entry [] = refl
append_entry-producers commit entry (((c, issue), entries) ∷ groups) =
    by_test (str_eq commit c) (append_entry-producers commit entry groups)
  where
    by_test :
        (b : Bool)
        → producers_of (append_entry commit entry groups) ≡ producers_of groups
        → producers_of (
            if b
            then ((c, issue), entries ++ entry ∷ []) ∷ groups
            else ((c, issue), entries) ∷ append_entry commit entry groups)
          ≡ (c, issue) ∷ producers_of groups
    by_test true h = refl
    by_test false h = ap (λ ps. (c, issue) ∷ ps) h

-- An entry that names the commit.
abbrev pub Names : Value → Fields → Str → Type 0
Names v entry commit =
    (as_dict v ≡ some entry) × (lookup (codes "source_commit") entry ≡ some (text commit))

pub entry_for-Names :
    (v : Value) (entry : Fields) (commit c : Str)
    → Names v entry commit
    → entry_for c (as_dict v) ≡ (if str_eq commit c then entry ∷ [] else [])
entry_for-Names v entry commit c (h, k) = rw (h, k) refl

extend-absent :
    (v : Value) (vs : Items) (entry : Fields) (commit : Str) (groups : List Group)
    → Names v entry commit
    → issue_in commit (producers_of groups) ≡ none
    → extend vs groups ≡ extend (cons v vs) groups
extend-absent v vs entry commit [] h k = refl
extend-absent v vs entry commit (((c, issue), entries) ∷ groups) h k =
    rw (entry_for-Names v entry commit c h)
      (by_test (str_eq commit c) k (extend-absent v vs entry commit groups h))
  where
    by_test :
        (b : Bool)
        → (if b then some issue else issue_in commit (producers_of groups)) ≡ none
        → (issue_in commit (producers_of groups) ≡ none
            → extend vs groups ≡ extend (cons v vs) groups)
        → ((c, issue), entries ++ entries_of c vs) ∷ extend vs groups
          ≡ ((c, issue), entries ++ ((if b then entry ∷ [] else []) ++ entries_of c vs))
            ∷ extend (cons v vs) groups
    by_test true k h = cc
    by_test false k h = ap (λ gs. ((c, issue), entries ++ entries_of c vs) ∷ gs) (h k)

append_entry-extend :
    (v : Value) (vs : Items) (entry : Fields) (commit : Str) (groups : List Group)
    → Names v entry commit
    → IsDistinct (producers_of groups)
    → extend vs (append_entry commit entry groups) ≡ extend (cons v vs) groups
unfolding append_entry
append_entry-extend v vs entry commit [] h d = refl
append_entry-extend v vs entry commit (((c, issue), entries) ∷ groups) h (absent, d) =
    rw (entry_for-Names v entry commit c h)
      (by_test (str_eq commit c) refl (append_entry-extend v vs entry commit groups h d))
  where
    by_test :
        (b : Bool)
        → str_eq commit c ≡ b
        → extend vs (append_entry commit entry groups) ≡ extend (cons v vs) groups
        → extend vs (
            if b
            then ((c, issue), entries ++ entry ∷ []) ∷ groups
            else ((c, issue), entries) ∷ append_entry commit entry groups)
          ≡ ((c, issue), entries ++ ((if b then entry ∷ [] else []) ++ entries_of c vs))
            ∷ extend (cons v vs) groups
    by_test true e k =
        rw
          (
            append_assoc entries (entry ∷ []) (entries_of c vs),
            extend-absent v vs entry commit groups h
                (ap (λ x. issue_in x (producers_of groups)) (str_eq_sound commit c e) ∙ absent),
          )
          refl
    by_test false e k = ap (λ gs. ((c, issue), entries ++ entries_of c vs) ∷ gs) k

pub entry_string-eq-accepted :
    (entry : Fields) (key : Str) {s : Str}
    → entry_string entry key ≡ accepted s
    → lookup key entry ≡ some (text s)
unfolding entry_string
entry_string-eq-accepted entry key e =
    let (v, at_key, e₁) = >>=-eq-accepted (at key entry) _ e in
    found-eq-accepted (lookup key entry) at_key ∙ ap some (is_string v e₁)
  where
    is_string : (v : Value) {s : Str} → text_of key v ≡ accepted s → v ≡ text s
    is_string (text t) e = ap text (accepted-injective e)
    is_string _ e = cc

known_issue-eq-accepted :
    (commit : Str) (o : Option ℕ) {i : ℕ} → known_issue commit o ≡ accepted i → o ≡ some i
known_issue-eq-accepted commit none e = cc
known_issue-eq-accepted commit (some i) e = ap some (accepted-injective e)

-- A checked entry: exactly the nine members, a producer's commit with the producer's issue, and a
-- relative path without "..".
pub record IsEntry (v : Value) (entry : Fields) (commit path : Str) : Type 0 where
  pub is_object : as_dict v ≡ some entry
  exact : set_eq (keys entry) entry_fields ≡ true
  pub commit_found : lookup (codes "source_commit") entry ≡ some (text commit)
  path_found : lookup (codes "path") entry ≡ some (text path)
  issue : ℕ
  pub is_known : issue_in commit producers ≡ some issue
  claimed :
      (w : Value) × (lookup (codes "issue") entry ≡ some w) × (py_eq w (integer (pos issue)) ≡ true)
  valid : is_invalid_path path ≡ false

-- Every item of the inventory is a checked entry.
abbrev pub AreEntries : Items → Type 0
AreEntries nil = Unit
AreEntries (cons v vs) =
    ((entry : Fields) × (commit : Str) × (path : Str) × IsEntry v entry commit path) × AreEntries vs

check_entry-IsEntry :
    (identities : List (Str × Str)) (v : Value) {entry : Fields} {commit path : Str}
    → check_entry identities v ≡ accepted (entry, commit, path)
    → IsEntry v entry commit path
unfolding check_entry entry_members
check_entry-IsEntry identities v {entry = entry} {commit = commit} {path = path} e₀ =
    let (d, a, e₁) = >>=-eq-accepted (entry_members v) _ e₀ in
    let (raw, is_dict, a₁) = >>=-eq-accepted (object_of _ (as_dict v)) _ a in
    let (exact, a₂) = require-eq-accepted (set_eq (keys raw) entry_fields) _ (accepted raw) a₁ in
    let (c, at_commit, e₂) = >>=-eq-accepted (entry_string d (codes "source_commit")) _ e₁ in
    let (p, at_path, e₃) = >>=-eq-accepted (entry_string d (codes "path")) _ e₂ in
    let (issue, known, e₄) = >>=-eq-accepted (known_issue c (issue_in c producers)) _ e₃ in
    let (claimed, at_issue, e₅) = >>=-eq-accepted (at (codes "issue") d) _ e₄ in
    let (equal, e₆) = require-eq-accepted (py_eq claimed (integer (pos issue))) _ _ e₅ in
    let (valid, e₇) = require-eq-accepted (not (is_invalid_path p)) _ _ e₆ in
    let (new, e₈) = require-eq-accepted (not (any (is_pair c p) identities)) _ _ e₇ in
    let same = accepted-injective e₈ in
    let same_dict = accepted-injective a₂ ∙ ap (λ t. t.0) same in
    let same_commit = ap (λ t. t.1) same in
    let same_path = ap (λ t. t.2) same in
    record {
      is_object = object_of-eq-accepted _ (as_dict v) is_dict ∙ ap some same_dict;
      exact = ap (λ x. set_eq (keys x) entry_fields) (sym same_dict) ∙ exact;
      commit_found =
          ap (lookup (codes "source_commit")) (sym (ap (λ t. t.0) same))
          ∙ entry_string-eq-accepted d _ at_commit
          ∙ ap (λ x. some (text x)) same_commit;
      path_found =
          ap (lookup (codes "path")) (sym (ap (λ t. t.0) same))
          ∙ entry_string-eq-accepted d _ at_path
          ∙ ap (λ x. some (text x)) same_path;
      issue = issue;
      is_known =
          ap (λ x. issue_in x producers) (sym same_commit) ∙ known_issue-eq-accepted c _ known;
      claimed = (
        claimed,
        ap (lookup (codes "issue")) (sym (ap (λ t. t.0) same)) ∙ found-eq-accepted _ at_issue,
        equal,
      );
      valid = ap is_invalid_path (sym same_path) ∙ not_true _ valid;
    }
  where
    not_true : (b : Bool) → not b ≡ true → b ≡ false
    not_true true h = cc
    not_true false h = refl

group_entries-extend :
    (vs : Items) (identities : List (Str × Str)) (groups : List Group) {grouped : List Group}
    → IsDistinct (producers_of groups)
    → group_entries vs identities groups ≡ accepted grouped
    → (grouped ≡ extend vs groups) × AreEntries vs
unfolding group_entries
group_entries-extend nil identities groups d e =
    (sym (accepted-injective e) ∙ sym (extend-nil groups), tt)
group_entries-extend (cons v vs) identities groups d e =
    let ((entry, commit, path), checked, rest) = >>=-eq-accepted (check_entry identities v) _ e in
    let is_entry = check_entry-IsEntry identities v checked in
    let (grouped, others) =
      group_entries-extend vs ((commit, path) ∷ identities) (append_entry commit entry groups)
        (rw (append_entry-producers commit entry groups) d) rest in
    (
      grouped
          ∙ append_entry-extend v vs entry commit groups (is_entry.is_object, is_entry.commit_found)
              d,
      ((entry, commit, path, is_entry), others),
    )

-- The number of the entries of all producers.
abbrev pub total_of : Items → List (Str × ℕ) → ℕ
total_of vs [] = 0
total_of vs ((commit, issue) ∷ ps) = length (entries_of commit vs) + total_of vs ps

-- The groups of the producers' entries.
abbrev pub groups_of : Items → List (Str × ℕ) → List Group
groups_of vs [] = []
groups_of vs ((c, issue) ∷ ps) = ((c, issue), entries_of c vs) ∷ groups_of vs ps

extend-empty : (vs : Items) (ps : List (Str × ℕ)) → extend vs (empty_groups ps) ≡ groups_of vs ps
extend-empty vs [] = refl
extend-empty vs ((c, issue) ∷ ps) =
    ap (λ gs. ((c, issue), entries_of c vs) ∷ gs) (extend-empty vs ps)

pub producers-IsDistinct : IsDistinct (producers_of (empty_groups producers))
unfolding str_eq
producers-IsDistinct = (refl, (refl, (refl, (refl, tt))))

pub group_entries-eq-groups_of :
    (vs : Items) {grouped : List Group}
    → group_entries vs [] (empty_groups producers) ≡ accepted grouped
    → (grouped ≡ groups_of vs producers) × AreEntries vs
group_entries-eq-groups_of vs e =
    let (same, are_entries) =
      group_entries-extend vs [] (empty_groups producers) producers-IsDistinct e in
    (same ∙ extend-empty vs producers, are_entries)
