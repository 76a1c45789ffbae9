-- ===== src/Evidence/Run/Receipts.antt =====
-- The receipts that a run writes and consumes.
use sacrysty.Prelude.{
  Bool, true, false, ◌≡◌, ◌≢◌, refl, ap, sym, ◌∙◌, ◌||◌, not, Option, none, some, List, [], ◌∷◌,
  ◌++◌, Str, Bytes, codes, str_eq, str_eq_sound, str_eq_refl, is_empty, ==_iff, if◌then◌else◌,
}
use sacrysty.Evidence.{
  ProcessOutputPaths, process_cleanup_receipt, cleanup_receipt_path, runner_receipt_path,
  runner_trace_path,
}
use sacrysty.Evidence.Files.{
  Disk, Denials, BoundaryError, cleanup_unconfirmed, runner_receipt_invalid, status_unwritable,
  cleanup_receipt_unwritable, runner_receipt_unavailable, output_uncreatable, Result, done, raises,
  Io, content, without, is_some, read_file, unlink, demand, give,
}
use sacrysty.Evidence.Files.Post.{Post, Post-bind, demand-Post, create-Post}
use sacrysty.Evidence.Receipt.{write_cleanup_receipt}
use sacrysty.Evidence.Trace.{discard_runner_trace}
use sacrysty.Evidence.Watch.{Session}
use sacrysty.Evidence.Run.{
  compare_receipt, consume_runner_receipt, with_trace, settle_runner_receipt,
  record_completed_cleanup, owes_runner_receipt, is_confirmed,
}

str_eq-append : (s a b : Str) → str_eq (s ++ a) (s ++ b) ≡ str_eq a b
unfolding str_eq
str_eq-append [] a b = refl
str_eq-append (c ∷ s) a b = rw ((==_iff c c).1 refl) (str_eq-append s a b)

pub str_eq-longer : (s a : Str) → str_eq (s ++ a) s ≡ is_empty a
unfolding str_eq
str_eq-longer [] [] = refl
str_eq-longer [] (c ∷ a) = refl
str_eq-longer (c ∷ s) a = rw ((==_iff c c).1 refl) (str_eq-longer s a)

str_eq-nested : (s a b c : Str) → str_eq (s ++ a) ((s ++ b) ++ c) ≡ str_eq a (b ++ c)
unfolding str_eq
str_eq-nested [] a b c = refl
str_eq-nested (d ∷ s) a b c = rw ((==_iff d d).1 refl) (str_eq-nested s a b c)

no_path : false ≢ true
no_path h = cc

content-without :
    (q path : Str) (files : List (Str × Bytes))
    → str_eq q path ≡ false
    → content q (without path files) ≡ content q files
unfolding content without
content-without q path [] h = refl
content-without q path ((r, bytes) ∷ files) h =
    by_tests (str_eq path r) (str_eq q r) refl refl (content-without q path files h)
  where
    by_tests :
        (b c : Bool)
        → str_eq path r ≡ b
        → str_eq q r ≡ c
        → content q (without path files) ≡ content q files
        → content q (if b then without path files else (r, bytes) ∷ without path files)
          ≡ (if c then some bytes else content q files)
    by_tests true true e f ih =
        elim (no_path (
          sym h
          ∙ ap (λ x. str_eq x path) (str_eq_sound q r f ∙ sym (str_eq_sound path r e))
          ∙ str_eq_refl path)) [ ]
    by_tests true false e f ih = ih
    by_tests false c e f ih = rw (f, ih) refl

-- No status is refused.
abbrev pub NotStatusError : BoundaryError → Type 0
NotStatusError status_unwritable = ⊥
NotStatusError _ = Unit

module _ (denials : Denials) (mode : Str) (p : ProcessOutputPaths) where
  abbrev pub receipt : Disk → Option Bytes
  receipt d = content (cleanup_receipt_path p.status) d.files

  -- An error leaves the receipt's file as it was.
  abbrev pub Leaves : Disk → BoundaryError → Disk → Type 0
  Leaves d e d' = NotStatusError e × (receipt d' ≡ receipt d)

  unlink-Leaves :
      (path : Str) (x : BoundaryError) (d₀ d : Disk)
      → str_eq (cleanup_receipt_path p.status) path ≡ false
      → NotStatusError x
      → receipt d ≡ receipt d₀
      → Post (λ u d'. receipt d' ≡ receipt d₀) (Leaves d₀) (unlink denials path x d)
  unfolding unlink
  unlink-Leaves path x d₀ d apart n h =
      by_test (denials.removing path || not (is_some (content path d.files)))
    where
      by_test :
          (b : Bool)
          → Post
              (λ u d'. receipt d' ≡ receipt d₀)
              (Leaves d₀)
              (if b then (raises x, d) else (done tt, record d { files = without path d.files }))
      by_test true = (n, h)
      by_test false = content-without _ path d.files apart ∙ h

  runner_apart : str_eq (cleanup_receipt_path p.status) (runner_receipt_path p.status) ≡ false
  unfolding str_eq
  runner_apart = str_eq-append p.status (codes ".cleanup") (codes ".runner-cleanup")

  trace_apart : str_eq (cleanup_receipt_path p.status) (runner_trace_path p.status) ≡ false
  unfolding str_eq
  trace_apart = str_eq-nested p.status (codes ".cleanup") (codes ".runner-cleanup") (codes ".trace")

  abbrev Same : Disk → Unit {0} → Disk → Type 0
  Same d u d' = receipt d' ≡ receipt d

  discard-receipt :
      (d : Disk) → receipt (discard_runner_trace denials (runner_trace_path p.status) d) ≡ receipt d
  unfolding discard_runner_trace
  discard-receipt d =
      at_end (unlink denials (runner_trace_path p.status) output_uncreatable d)
        (unlink-Leaves _ output_uncreatable d d trace_apart tt refl)
    where
      at_end : (r : Result (Unit {0}) × Disk) → Post (Same d) (Leaves d) r → receipt r.1 ≡ receipt d
      at_end (done u, d') h = h
      at_end (raises e, d') h = h.1

  compare-Leaves :
      (o : Option Bytes) (d : Disk) → Post (Same d) (Leaves d) (compare_receipt denials mode p o d)
  compare-Leaves none d = (tt, refl)
  compare-Leaves (some bytes) d =
      demand-Post (Leaves d) _ runner_receipt_invalid d (Same d) (λ e. refl) (tt, refl)

  consume-Leaves :
      (d : Disk)
      → Post
          (Same d)
          (Leaves d)
          (consume_runner_receipt denials mode p (runner_receipt_path p.status) d)
  unfolding consume_runner_receipt
  consume-Leaves d =
      let found = read_file denials (runner_receipt_path p.status) d in
      Post-bind (Leaves d) (Same d) (Same d) (compare_receipt denials mode p found d) _
        (compare-Leaves found d)
        (λ u d' h. unlink-Leaves _ runner_receipt_unavailable d d' runner_apart tt h)

  settle-Leaves : (d : Disk) → Post (Same d) (Leaves d) (settle_runner_receipt denials mode p d)
  unfolding settle_runner_receipt
  settle-Leaves d =
      traced (consume_runner_receipt denials mode p (runner_receipt_path p.status) d)
        (consume-Leaves d)
    where
      traced :
          (r : Result (Unit {0}) × Disk)
          → Post (Same d) (Leaves d) r
          → Post (Same d) (Leaves d) (with_trace denials mode p r.0 r.1)
      traced (done u, d') h = discard-receipt d' ∙ h
      traced (raises e, d') h = (tt, h.1)

  -- A completed cleanup was confirmed, and its receipt is new on the disk.
  abbrev pub Recorded : Option Session → Disk → Unit {0} → Disk → Type 0
  Recorded o d u d' =
      (is_confirmed denials mode p o ≡ true)
      × (is_some (receipt d) ≡ false)
      × (receipt d' ≡ some process_cleanup_receipt)

  if-Same :
      (b : Bool) (x y : Io (Unit {0})) (d : Disk)
      → Post (Same d) (Leaves d) (x d)
      → Post (Same d) (Leaves d) (y d)
      → Post (Same d) (Leaves d) ((if b then x else y) d)
  if-Same true x y d h k = h
  if-Same false x y d h k = k

  not_some_or : (o : Option Bytes) (b : Bool) → (is_some o || b) ≡ false → is_some o ≡ false
  not_some_or none b h = refl
  not_some_or (some bytes) b h = h

  pub record_completed_cleanup-Post :
      (o : Option Session) (d : Disk)
      → Post (Recorded o d) (Leaves d) (record_completed_cleanup denials mode p o d)
  unfolding record_completed_cleanup write_cleanup_receipt
  record_completed_cleanup-Post o d =
      Post-bind (Leaves d) (λ u d'. (is_confirmed denials mode p o ≡ true) × (d' ≡ d))
        (Recorded o d) (demand (is_confirmed denials mode p o) cleanup_unconfirmed d) _
        (demand-Post (Leaves d) (is_confirmed denials mode p o) cleanup_unconfirmed d _
          (λ e. (e, refl)) (tt, refl))
        (λ u d₁ (confirmed, e). rw e (
          Post-bind (Leaves d) (Same d) (Recorded o d)
            ((if owes_runner_receipt denials mode p o
                then settle_runner_receipt denials mode p
                else give tt)
              d)
            _ (if-Same (owes_runner_receipt denials mode p o) _ _ d (settle-Leaves d) refl)
            (λ u d₂ same.
              create-Post (Leaves d) denials (cleanup_receipt_path p.status) process_cleanup_receipt
                cleanup_receipt_unwritable d₂ (Recorded o d)
                (λ d₃ absent written others.
                  (confirmed, ap is_some (sym same) ∙ not_some_or (receipt d₂) _ absent, written))
                (tt, same))))
