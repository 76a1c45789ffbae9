-- ===== src/Conformance/Inventory/Tests.antt =====
-- The inventory check on a small repository.
use sacrysty.Prelude.{
  ◌∷◌, [], List, ◌++◌, ◌≡◌, refl, some, none, codes, pos, Str, Bytes, str_eq, mem, starts_with,
  ◌-ℤ◌, if◌then◌else◌,
}
use sacrysty.Json.{
  Value, text, integer, array, object, Fields, nil, cons, end, field, lookup, keys, set_eq, subset,
}
use sacrysty.Json.Equality.{py_eq, number_eq}
use sacrysty.StrictJson.Utf8.{decode_utf8, decode_from}
use sacrysty.Conformance.{accepted}
use sacrysty.Conformance.Inventory.{
  check_entries, check_producers, check_producer, check_objects, check_object, paths_of,
  group_entries, check_entry, entry_members, append_entry, is_invalid_path, entry_string,
}
use sacrysty.Conformance.Inventory.Git.{
  GitCommand, run_git, split_on, split_words, has_question_line, require_complete_history,
  commit_identity, collect_paths, changed_paths, split_tab, tree_entry,
}
use sacrysty.Conformance.Inventory.Counting.{IsInventory, check_entries-counts}

abbrev first_commit : Str
first_commit = codes "cad9c98aa2a122368e31f4ab14aeff4e6c95a6cf"

abbrev last_of : List Str → Str
last_of [] = []
last_of (a ∷ []) = a
last_of (a ∷ as_) = last_of as_

-- Only the first producer changes a path.
abbrev git : GitCommand
git [] = none
git (command ∷ []) = none
git (command ∷ option ∷ rest) = some (
    if str_eq command (codes "rev-parse")
    then (if str_eq option (codes "--is-shallow-repository")
        then codes "false\n"
        else codes "tree\n")
    else if str_eq option (codes "--parents")
    then last_of rest ++ codes " parent\n"
    else if str_eq command (codes "diff-tree")
    then (if str_eq (last_of rest) first_commit
        then codes "A" ++ 0 ∷ codes "file" ++ 0 ∷ []
        else [])
    else if str_eq command (codes "ls-tree")
    then codes "100644 blob oid" ++ 9 ∷ codes "file" ++ 0 ∷ []
    else if str_eq option (codes "blob")
    then codes "content"
    else [])

abbrev digest : Bytes → Str
digest bytes = bytes

abbrev entry : Value
entry = object (
    field (codes "blob_oid") (text (codes "oid")) (
      field (codes "byte_length") (integer (pos 7)) (
        field (codes "git_file_mode") (text (codes "100644")) (
          field (codes "issue") (integer (pos 12)) (
            field (codes "parent_sha") (text (codes "parent")) (
              field (codes "path") (text (codes "file")) (
                field (codes "sha256") (text (codes "content")) (
                  field (codes "source_commit") (text first_commit)
                    (field (codes "tree_sha") (text (codes "tree")) end)))))))))

abbrev inventory : Fields
inventory =
    field (codes "entries") (array (cons entry nil))
      (field (codes "item_count") (integer (pos 1)) end)

inventory_accepted : check_entries git digest inventory ≡ accepted (1, 4)
unfolding check_entries check_producers check_producer check_objects check_object paths_of
    group_entries check_entry entry_members append_entry is_invalid_path entry_string run_git
    split_on split_words has_question_line require_complete_history commit_identity collect_paths
    changed_paths split_tab tree_entry lookup keys set_eq subset py_eq number_eq decode_utf8
    decode_from str_eq mem starts_with ◌-ℤ◌
inventory_accepted = refl

check_entries-counts_example : IsInventory git digest inventory 1 4
check_entries-counts_example = check_entries-counts git digest inventory inventory_accepted
