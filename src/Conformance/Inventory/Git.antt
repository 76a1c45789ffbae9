-- ===== src/Conformance/Inventory/Git.antt =====
-- The Git objects that the inventory is checked against. `git` is the command, by its arguments: its
-- output, or none for a nonzero exit.
use sacrysty.Prelude.{
  ℕ, zero, suc, Bool, true, false, ◌&&◌, ◌||◌, not, Option, none, some, List, [], ◌∷◌, ◌++◌, Str,
  Bytes, codes, length, is_empty, all, leb, ltb, ◌==◌, str_eq, mem, if◌then◌else◌,
}
use sacrysty.StrictJson.Utf8.{decode_utf8}
use sacrysty.Conformance.{Verdict, accepted, rejected, value_error, ◌>>=◌, ◌>>◌, require}

abbrev pub GitCommand : Type 0
GitCommand = List Str → Option Bytes

-- " ".join(arguments[:2])
abbrev pub first_two : List Str → Str
first_two [] = []
first_two (a ∷ []) = a
first_two (a ∷ b ∷ rest) = a ++ codes " " ++ b

abbrev output_of : List Str → Option Bytes → Verdict Bytes
output_of arguments none = rejected (codes "Git object check failed: " ++ first_two arguments)
output_of arguments (some bytes) = accepted bytes

unfoldable pub run_git : GitCommand → List Str → Verdict Bytes
run_git git arguments = output_of arguments (git arguments)

-- bytes.split(b"…") for one byte.
abbrev put_first : ℕ → List Bytes → List Bytes
put_first c [] = (c ∷ []) ∷ []
put_first c (piece ∷ pieces) = (c ∷ piece) ∷ pieces

unfoldable pub split_on : ℕ → Bytes → List Bytes
split_on separator [] = [] ∷ []
split_on separator (c ∷ s) =
    let rest = split_on separator s in if c == separator then [] ∷ rest else put_first c rest

-- White space of str.split() and str.strip().
abbrev is_space : ℕ → Bool
is_space c =
    (leb 9 c && leb c 13)
    || (leb 28 c && leb c 32)
    || c == 0x85
    || c == 0xA0
    || c == 0x1680
    || (leb 0x2000 c && leb c 0x200A)
    || c == 0x2028
    || c == 0x2029
    || c == 0x202F
    || c == 0x205F
    || c == 0x3000

-- The pieces between white space; str.split() drops the empty ones.
unfoldable pub split_words : Str → List Str
split_words [] = []
split_words (c ∷ s) = let rest = split_words s in if is_space c then [] ∷ rest else put_first c rest

abbrev nonempty : List Str → List Str
nonempty [] = []
nonempty (w ∷ ws) = if is_empty w then nonempty ws else w ∷ nonempty ws

abbrev pub words_of : Str → List Str
words_of s = nonempty (split_words s)

abbrev drop_space : (ℕ → Bool) → Str → Str
drop_space p [] = []
drop_space p (c ∷ s) = if p c then drop_space p s else c ∷ s

abbrev reverse_onto : Str → Str → Str
reverse_onto [] acc = acc
reverse_onto (c ∷ s) acc = reverse_onto s (c ∷ acc)

abbrev pub strip : (ℕ → Bool) → Str → Str
strip p s = reverse_onto (drop_space p (reverse_onto (drop_space p s) [])) []

abbrev is_ascii_space : ℕ → Bool
is_ascii_space c = (leb 9 c && leb c 13) || c == 32

-- `.decode()`, whose UnicodeDecodeError is a ValueError that nothing here catches.
abbrev pub decoded : Option Str → Verdict Str
decoded none = value_error
decoded (some s) = accepted s

-- str.splitlines(), where \r\n is one line's end.
abbrev is_boundary : ℕ → Bool
is_boundary c =
    (leb 10 c && leb c 13) || (leb 28 c && leb c 30) || c == 0x85 || c == 0x2028 || c == 0x2029

abbrev joins : ℕ → Str → Bool
joins c [] = false
joins c (d ∷ s) = c == 13 && d == 10

abbrev put_line : Bool → List Str → List Str
put_line true lines = lines
put_line false lines = [] ∷ lines

unfoldable pub split_lines : Str → List Str
split_lines [] = []
split_lines (c ∷ s) =
    let rest = split_lines s in
    if is_boundary c then put_line (joins c s) rest else put_first c rest

-- The lines of bytes.splitlines(): a line ends at \n, \r or \r\n. The test of their first bytes
-- does not see the empty line between \r and \n.
abbrev is_line_end : ℕ → Bool
is_line_end c = c == 10 || c == 13

unfoldable pub has_question_line : Bool → Bytes → Bool
has_question_line at_start [] = false
has_question_line at_start (c ∷ s) = (at_start && c == b'?') || has_question_line (is_line_end c) s

unfoldable pub require_complete_history : GitCommand → Verdict (Unit {0})
require_complete_history git = do
  shallow ← run_git git (codes "rev-parse" ∷ codes "--is-shallow-repository" ∷ [])
  require (str_eq (strip is_ascii_space shallow) (codes "false"))
      (codes "complete Git history is required for source provenance")
  listing ←
      run_git git
        (codes "rev-list" ∷ codes "--objects" ∷ codes "--all" ∷ codes "--missing=print" ∷ [])
  require (not (has_question_line true listing))
      (codes "complete Git objects are required for source provenance")
  _ ←
      run_git git
        (codes "fsck" ∷ codes "--full" ∷ codes "--no-dangling" ∷ codes "--no-reflogs" ∷ [])
  accepted tt

abbrev parent_in : Str → List Str → Verdict Str
parent_in commit (head ∷ parent ∷ []) =
    if str_eq head commit
    then accepted parent
    else rejected (codes "producer does not have one exact parent: " ++ commit)
parent_in commit _ = rejected (codes "producer does not have one exact parent: " ++ commit)

-- The parent and the tree.
unfoldable pub commit_identity : GitCommand → Str → Verdict (Str × Str)
commit_identity git commit = do
  _ ← run_git git (codes "cat-file" ∷ codes "-e" ∷ (commit ++ codes "^{commit}") ∷ [])
  line ← run_git git (codes "rev-list" ∷ codes "--parents" ∷ codes "-n" ∷ codes "1" ∷ commit ∷ [])
  words ← decoded (decode_utf8 line)
  parent ← parent_in commit (words_of words)
  output ← run_git git (codes "rev-parse" ∷ (commit ++ codes "^{tree}") ∷ [])
  tree ← decoded (decode_utf8 output)
  accepted (parent, strip is_space tree)

-- fields[:-1] where the last field is empty.
abbrev pub drop_last_empty : List Bytes → List Bytes
drop_last_empty [] = []
drop_last_empty (f ∷ []) = if is_empty f then [] else f ∷ []
drop_last_empty (f ∷ fields) = f ∷ drop_last_empty fields

abbrev is_even : ℕ → Bool
is_even zero = true
is_even (suc n) = not (is_even n)

abbrev path_of : Str → Option Str → Verdict Str
path_of commit none = rejected (codes "non-UTF-8 producer path: " ++ commit)
path_of commit (some path) = accepted path

abbrev change_statuses : List Bytes
change_statuses = codes "A" ∷ codes "M" ∷ codes "T" ∷ []

-- The loop over the pairs of fields. `paths` are those read, the last first.
unfoldable pub collect_paths : Str → List Bytes → List Str → Verdict (List Str)
collect_paths commit (status ∷ field ∷ fields) paths = do
  path ← path_of commit (decode_utf8 field)
  require (not (str_eq status (codes "D")))
      (codes "deleted producer path cannot have a blob: " ++ path)
  require (mem status change_statuses && not (mem path paths))
      (codes "unsupported or duplicate producer path: " ++ path)
  collect_paths commit fields (path ∷ paths)
collect_paths commit _ paths = accepted paths

unfoldable pub changed_paths : GitCommand → Str → Str → Verdict (List Str)
changed_paths git parent commit = do
  output ← run_git git (
      codes "diff-tree"
      ∷ codes "--no-commit-id"
      ∷ codes "--name-status"
      ∷ codes "-r"
      ∷ codes "-z"
      ∷ codes "--no-renames"
      ∷ parent
      ∷ commit
      ∷ [])
  let fields = drop_last_empty (split_on 0 output)
  require (is_even (length fields)) (codes "unparseable producer path list: " ++ commit)
  collect_paths commit fields []

abbrev nonempty_records : List Bytes → List Bytes
nonempty_records [] = []
nonempty_records (r ∷ rs) = if is_empty r then nonempty_records rs else r ∷ nonempty_records rs

-- record.split(b"\t", 1): the part before the first tab, and the part behind it.
abbrev put_head : ℕ → Option (Bytes × Bytes) → Option (Bytes × Bytes)
put_head c none = none
put_head c (some (a, b)) = some (c ∷ a, b)

unfoldable pub split_tab : Bytes → Option (Bytes × Bytes)
split_tab [] = none
split_tab (c ∷ s) = if c == 9 then some ([], s) else put_head c (split_tab s)

abbrev unique_entry : List Bytes → Option (Bytes × Bytes)
unique_entry (record_ ∷ []) = split_tab record_
unique_entry _ = none

abbrev split_entry : Str → Option (Bytes × Bytes) → Verdict (Bytes × Bytes)
split_entry path none = rejected (codes "producer path has no unique tree entry: " ++ path)
split_entry path (some entry) = accepted entry

abbrev ascii_words : Bytes → List Str
ascii_words metadata = if all (λ c. ltb c 128) metadata then words_of metadata else []

-- The path, the mode, the type and the object id.
abbrev parsed_entry : Str → Option Str → List Str → Verdict (Str × Str × Str × Str)
parsed_entry path (some actual) (mode ∷ object_type ∷ oid ∷ []) =
    accepted (actual, mode, object_type, oid)
parsed_entry path _ _ = rejected (codes "unparseable producer tree entry: " ++ path)

-- The mode, the object id and the blob.
unfoldable pub tree_entry : GitCommand → Str → Str → Verdict (Str × Str × Bytes)
tree_entry git commit path = do
  output ← run_git git (codes "ls-tree" ∷ codes "-z" ∷ commit ∷ codes "--" ∷ path ∷ [])
  (metadata, encoded_path) ← split_entry path (unique_entry (nonempty_records (split_on 0 output)))
  (actual, mode, object_type, oid) ←
      parsed_entry path (decode_utf8 encoded_path) (ascii_words metadata)
  require (str_eq actual path && str_eq object_type (codes "blob"))
      (codes "producer tree entry is not the expected blob: " ++ path)
  blob ← run_git git (codes "cat-file" ∷ codes "blob" ∷ oid ∷ [])
  accepted (mode, oid, blob)
