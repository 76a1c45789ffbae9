-- ===== src/Evidence/Receipt.antt =====
-- `CleanupReceipt`: the file that a helper writes for its caller, who consumes it.
use sacrysty.Prelude.{
  Bool, true, false, ◌≡◌, refl, ap, ◌∙◌, ◌||◌, not, Option, none, some, List, [], ◌∷◌, Str, Bytes,
  str_eq, str_eq_sound, str_eq_refl, if◌then◌else◌,
}
use sacrysty.Evidence.{process_cleanup_receipt, cleanup_receipt_path}
use sacrysty.Evidence.Files.{
  Disk, Denials, BoundaryError, cleanup_receipt_unwritable, cleanup_receipt_invalid,
  cleanup_receipt_unavailable, Result, done, raises, Io, ◌>>◌, carry, throw, demand, create,
  read_file, unlink, content, without, exists, is_some,
}

content-without-same :
    (path : Str) (files : List (Str × Bytes)) → content path (without path files) ≡ none
unfolding content without
content-without-same path [] = refl
content-without-same path ((q, bytes) ∷ files) =
    by_test (str_eq path q) refl (content-without-same path files)
  where
    by_test :
        (b : Bool)
        → str_eq path q ≡ b
        → content path (without path files) ≡ none
        → content path (if b then without path files else (q, bytes) ∷ without path files) ≡ none
    by_test true e ih = ih
    by_test false e ih = rw e ih

without-fresh :
    (path : Str) (files : List (Str × Bytes))
    → is_some (content path files) ≡ false
    → without path files ≡ files
unfolding content without
without-fresh path [] h = refl
without-fresh path ((q, bytes) ∷ files) h = by_test (str_eq path q) h (without-fresh path files)
  where
    by_test :
        (b : Bool)
        → is_some (if b then some bytes else content path files) ≡ false
        → (is_some (content path files) ≡ false → without path files ≡ files)
        → (if b then without path files else (q, bytes) ∷ without path files) ≡ (q, bytes) ∷ files
    by_test true e ih = cc
    by_test false e ih = ap (λ l. (q, bytes) ∷ l) (ih e)

module _ (denials : Denials) (path : Str) where
  unlink-content :
      (x : BoundaryError) (d : Disk)
      → (unlink denials path x d).0 ≡ done tt
      → content path (unlink denials path x d).1.files ≡ none
  unfolding unlink
  unlink-content x d h = by_test (denials.removing path || not (is_some (content path d.files))) h
    where
      by_test :
          (b : Bool)
          → (if◌then◌else◌ {A = Result (Unit {0}) × Disk} b
              (raises x, d)
              (done tt, record d { files = without path d.files })).0
            ≡ done tt
          → content path
              (if◌then◌else◌ {A = Result (Unit {0}) × Disk} b
                (raises x, d)
                (done tt, record d { files = without path d.files })).1.files
            ≡ none
      by_test true e = cc
      by_test false e = content-without-same path d.files

  read_file-content :
      (d : Disk) (bytes : Bytes)
      → read_file denials path d ≡ some bytes
      → content path d.files ≡ some bytes
  unfolding read_file
  read_file-content d bytes h = by_test (denials.reading path) h
    where
      by_test :
          (b : Bool)
          → (if b then none else content path d.files) ≡ some bytes
          → content path d.files ≡ some bytes
      by_test true e = cc
      by_test false e = e

  create-fresh :
      (bytes : Bytes) (x : BoundaryError) (d : Disk)
      → exists path d ≡ false
      → denials.creating path ≡ false
      → create denials path bytes x d ≡ (done tt, record d { files = (path, bytes) ∷ d.files })
  unfolding create
  create-fresh bytes x d absent creating = rw (creating, absent) refl

  read_file-new :
      (bytes : Bytes) (d : Disk)
      → denials.reading path ≡ false
      → read_file denials path (record d { files = (path, bytes) ∷ d.files }) ≡ some bytes
  unfolding read_file content
  read_file-new bytes d reading = rw (reading, str_eq_refl path) refl

  unlink-new :
      (bytes : Bytes) (x : BoundaryError) (d : Disk)
      → exists path d ≡ false
      → denials.removing path ≡ false
      → unlink denials path x (record d { files = (path, bytes) ∷ d.files }) ≡ (done tt, d)
  unfolding unlink content without
  unlink-new bytes x d absent removing =
      rw (removing, str_eq_refl path)
        (ap (λ l. (done tt, record d { files = l }))
          (without-fresh path d.files (no_file _ _ absent)))
    where
      no_file : (a b : Bool) → (a || b) ≡ false → a ≡ false
      no_file true b e = cc
      no_file false b e = refl

module _ (denials : Denials) (status : Str) where
  -- `write`
  unfoldable pub write_cleanup_receipt : Io (Unit {0})
  write_cleanup_receipt =
      create denials (cleanup_receipt_path status) process_cleanup_receipt
        cleanup_receipt_unwritable

  abbrev compare_content : Option Bytes → Io (Unit {0})
  compare_content none = throw cleanup_receipt_unavailable
  compare_content (some bytes) =
      demand (str_eq bytes process_cleanup_receipt) cleanup_receipt_invalid

  -- `consume`
  unfoldable pub consume_cleanup_receipt : Io (Unit {0})
  consume_cleanup_receipt d =
      (compare_content (read_file denials (cleanup_receipt_path status) d)
          >> unlink denials (cleanup_receipt_path status) cleanup_receipt_unavailable)
        d

  -- A receipt that is consumed with no error was the one of a completed cleanup, and its file is gone.
  pub consume_cleanup_receipt-content :
      (d : Disk)
      → (consume_cleanup_receipt d).0 ≡ done tt
      → (content (cleanup_receipt_path status) d.files ≡ some process_cleanup_receipt)
        × (content (cleanup_receipt_path status) (consume_cleanup_receipt d).1.files ≡ none)
  unfolding consume_cleanup_receipt
  consume_cleanup_receipt-content d h = by_found (read_file denials path d) refl h
    where
      path : Str
      path = cleanup_receipt_path status

      take_away : Io (Unit {0})
      take_away = unlink denials path cleanup_receipt_unavailable

      by_test :
          (bytes : Bytes) (b : Bool)
          → str_eq bytes process_cleanup_receipt ≡ b
          → content path d.files ≡ some bytes
          → ((demand b cleanup_receipt_invalid >> take_away) d).0 ≡ done tt
          → (content path d.files ≡ some process_cleanup_receipt)
            × (content path ((demand b cleanup_receipt_invalid >> take_away) d).1.files ≡ none)
      by_test bytes true e f k = (
        f ∙ ap some (str_eq_sound bytes process_cleanup_receipt e),
        unlink-content denials path cleanup_receipt_unavailable d k,
      )
      by_test bytes false e f k = cc

      by_found :
          (o : Option Bytes)
          → read_file denials path d ≡ o
          → ((compare_content o >> take_away) d).0 ≡ done tt
          → (content path d.files ≡ some process_cleanup_receipt)
            × (content path ((compare_content o >> take_away) d).1.files ≡ none)
      by_found none e k = cc
      by_found (some bytes) e k =
          by_test bytes (str_eq bytes process_cleanup_receipt) refl
            (read_file-content denials path d bytes e) k

  consume-new :
      (d : Disk)
      → exists (cleanup_receipt_path status) d ≡ false
      → denials.reading (cleanup_receipt_path status) ≡ false
      → denials.removing (cleanup_receipt_path status) ≡ false
      → consume_cleanup_receipt
          (record d { files = (cleanup_receipt_path status, process_cleanup_receipt) ∷ d.files })
        ≡ (done tt, d)
  unfolding consume_cleanup_receipt
  consume-new d absent reading removing =
      rw
        (
          read_file-new denials (cleanup_receipt_path status) process_cleanup_receipt d reading,
          str_eq_refl process_cleanup_receipt,
        )
        (unlink-new denials (cleanup_receipt_path status) process_cleanup_receipt
          cleanup_receipt_unavailable d absent removing)

  -- Let nothing stand at the receipt's path and the system deny nothing there. Then a receipt that is
  -- written is consumed with no error, and the files are as they were.
  pub write-consume :
      (d : Disk)
      → exists (cleanup_receipt_path status) d ≡ false
      → denials.creating (cleanup_receipt_path status) ≡ false
      → denials.reading (cleanup_receipt_path status) ≡ false
      → denials.removing (cleanup_receipt_path status) ≡ false
      → (write_cleanup_receipt >> consume_cleanup_receipt) d ≡ (done tt, d)
  unfolding write_cleanup_receipt
  write-consume d absent creating reading removing =
      ap (λ r. carry r.0 (λ u. consume_cleanup_receipt) r.1)
        (create-fresh denials (cleanup_receipt_path status) process_cleanup_receipt
          cleanup_receipt_unwritable d absent creating)
      ∙ consume-new d absent reading removing
