-- ===== src/Evidence/Run/Finish.antt =====
-- What follows the loop: how it ends with the status of the process, and how it fails.
use sacrysty.Prelude.{
  ℕ, Bool, true, false, ◌≡◌, ◌≢◌, refl, ◌∙◌, ◌&&◌, not, Option, none, some, List, [], ◌∷◌, ◌++◌, ℤ,
  Str, codes, leb, str_eq, ◌==◌, ==_iff, decimal, arith, if◌then◌else◌, ◌⊎◌, inl, inr,
}
use sacrysty.Evidence.{
  ProcessOutputPaths, file_limit_bytes, process_cleanup_receipt, cleanup_receipt_path,
  normalized_status,
}
use sacrysty.Evidence.Files.{
  Disk, Denials, BoundaryError, no_exit_status, file_bound_failed, file_limit, setup_failed,
  status_unwritable, Result, done, raises, ◌>>◌, create, content, demand, from_option, give,
}
use sacrysty.Evidence.Files.Post.{Post, Post-bind, demand-Post, from_option-Post, create-Post}
use sacrysty.Evidence.Watch.{Session}
use sacrysty.Evidence.Run.{Metadata, regular_file_limit_reached, record_completed_cleanup, finish}
use sacrysty.Evidence.Run.Receipts.{
  receipt, Leaves, Recorded, record_completed_cleanup-Post, str_eq-longer,
}

not_125 : (n : ℕ) → not (n == 125) ≡ true → n ≢ 125
not_125 n h e = grind (arith, (==_iff n 125).0)

module _ (denials : Denials) (mode : Str) (p : ProcessOutputPaths) where
  -- The status of a process that was cleaned up stands in its file, and the receipt in its own.
  pub record Finished (s : Session) (n : ℕ) (d : Disk) : Type 0 where
    pub returncode : (c : ℤ) × ((s.process.returncode ≡ some c) × (n ≡ normalized_status c))
    pub ran : n ≢ 125
    pub complete : s.cleanup_complete ≡ true
    pub recorded : receipt denials mode p d ≡ some process_cleanup_receipt
    pub status : content p.status d.files ≡ some (decimal n ++ (10 ∷ []))

  -- An error comes before the receipt is written, or it is the status file's and comes after.
  abbrev pub Unfinished : Disk → Session → BoundaryError → Disk → Type 0
  Unfinished d s e d' =
      Leaves denials mode p d e d'
      ⊎ ((e ≡ status_unwritable)
          × ((s.cleanup_complete ≡ true)
              × (receipt denials mode p d' ≡ some process_cleanup_receipt)))

  early :
      {A : Type 0} (Q : A → Disk → Type 0) (d : Disk) (s : Session) (r : Result A × Disk)
      → Post Q (Leaves denials mode p d) r
      → Post Q (Unfinished d s) r
  early Q d s (done a, d') h = h
  early Q d s (raises e, d') h = inl h

  walk-Post :
      (E : BoundaryError → Disk → Type 0) (walk : List (Option Metadata)) (d : Disk)
      → E file_bound_failed d
      → Post (λ b d'. d' ≡ d) E (regular_file_limit_reached walk, d)
  unfolding regular_file_limit_reached
  walk-Post E [] d h = refl
  walk-Post E (none ∷ files) d h = h
  walk-Post E (some m ∷ files) d h =
      by_test (m.is_regular && leb file_limit_bytes m.size) _ (walk-Post E files d h)
    where
      by_test :
          (b : Bool) (r : Result Bool)
          → Post (λ x d'. d' ≡ d) E (r, d)
          → Post (λ x d'. d' ≡ d) E (if b then done true else r, d)
      by_test true r k = refl
      by_test false r k = k

  apart : str_eq (cleanup_receipt_path p.status) p.status ≡ false
  apart = str_eq-longer p.status (codes ".cleanup")

  pub finish-Post :
      (walk : List (Option Metadata)) (s : Session) (d : Disk)
      → Post (Finished s) (Unfinished d s) (finish denials mode p walk s d)
  unfolding finish
  finish-Post walk s d =
      Post-bind (Unfinished d s) (λ c d'. (s.process.returncode ≡ some c) × (d' ≡ d)) (Finished s)
        (from_option s.process.returncode no_exit_status d) _
        (from_option-Post (Unfinished d s) s.process.returncode no_exit_status d _
          (λ c e. (e, refl)) (inl (tt, refl)))
        (λ c d₁ (found, e). rw e (
          Post-bind (Unfinished d s) (λ b d'. d' ≡ d) (Finished s)
            (regular_file_limit_reached walk, d) _
            (walk-Post (Unfinished d s) walk d (inl (tt, refl)))
            (λ reached d₂ e₂. rw e₂ (after_walk c found reached))))
    where
      written :
          (c : ℤ)
          → s.process.returncode ≡ some c
          → normalized_status c ≢ 125
          → (d₁ : Disk) (u : Unit {0}) → Recorded denials mode p (some s) d u d₁
          → Post (Finished s) (Unfinished d s) (
              (create denials p.status
                    (decimal (normalized_status c) ++ (10 ∷ []))
                    status_unwritable
                  >> give (normalized_status c))
                d₁)
      written c found ran d₁ u (confirmed, new, recorded) =
          Post-bind (Unfinished d s) (λ v. Finished s (normalized_status c)) (Finished s)
            (create denials p.status (decimal (normalized_status c) ++ (10 ∷ [])) status_unwritable
              d₁)
            _
            (create-Post (Unfinished d s) denials p.status _ status_unwritable d₁ _
              (λ d₂ absent put others. record {
                returncode = (c, (found, refl));
                ran = ran;
                complete = confirmed;
                recorded = others (cleanup_receipt_path p.status) ∙ (rw apart recorded);
                status = put;
              })
              (inr (refl, (confirmed, recorded))))
            (λ v d₂ h. h)

      after_walk :
          (c : ℤ)
          → s.process.returncode ≡ some c
          → (reached : Bool)
          → Post (Finished s) (Unfinished d s) (
              (demand (not reached) file_limit
                  >> (demand (not (normalized_status c == 125)) setup_failed
                      >> (record_completed_cleanup denials mode p (some s)
                          >> (create denials p.status
                                (decimal (normalized_status c) ++ (10 ∷ []))
                                status_unwritable
                              >> give (normalized_status c)))))
                d)
      after_walk c found reached =
          Post-bind (Unfinished d s) (λ u d'. d' ≡ d) (Finished s)
            (demand (not reached) file_limit d) _
            (demand-Post (Unfinished d s) (not reached) file_limit d _ (λ e. refl) (inl (tt, refl)))
            (λ u d₁ e₁. rw e₁ (
              Post-bind (Unfinished d s) (λ v d'. (normalized_status c ≢ 125) × (d' ≡ d))
                (Finished s) (demand (not (normalized_status c == 125)) setup_failed d) _
                (demand-Post (Unfinished d s) (not (normalized_status c == 125)) setup_failed d _
                  (λ e. (not_125 _ e, refl)) (inl (tt, refl)))
                (λ v d₂ (ran, e₂). rw e₂ (
                  Post-bind (Unfinished d s) (Recorded denials mode p (some s) d) (Finished s)
                    (record_completed_cleanup denials mode p (some s) d) _
                    (early (Recorded denials mode p (some s) d) d s _
                      (record_completed_cleanup-Post denials mode p (some s) d))
                    (λ w d₃ h. written c found ran d₃ w h)))))
