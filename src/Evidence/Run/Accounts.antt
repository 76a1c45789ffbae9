-- ===== src/Evidence/Run/Accounts.antt =====
-- What a run's report accounts for: the status, the receipt, the bounded outputs, and the cleanup of
-- the process, by how the run ends.
use mathlib.Core.Path.{subst}
use sacrysty.Prelude.{ℕ, true, false, ◌≡◌, refl, Option, none, some, Str, ◌⊎◌, inl, inr}
use sacrysty.ProcessGroups.{Posix}
use sacrysty.Evidence.{ProcessLimits, ProcessOutputPaths}
use sacrysty.Evidence.Files.{
  Disk, Denials, BoundaryError, status_unwritable, Result, done, raises, is_some,
}
use sacrysty.Evidence.Files.Post.{Post}
use sacrysty.Evidence.Watch.{Failure, boundary, Session}
use sacrysty.Evidence.Watch.Sessions.{IsCleaned, CleanIf, IsSound, NotStatus}
use sacrysty.Evidence.Run.{
  Ending, exits, fails, Report, record_completed_cleanup, reported, left_as_is, is_confirmed,
}
use sacrysty.Evidence.Run.Receipts.{
  NotStatusError, receipt, Leaves, Recorded, record_completed_cleanup-Post,
}
use sacrysty.Evidence.Run.Finish.{Finished}

module _ (denials : Denials) (mode : Str) (p : ProcessOutputPaths) where
  abbrev pub EndsWell : Ending → Option Session → Disk → Type 0
  EndsWell (exits n) (some s) d = Finished denials mode p s n d
  EndsWell (exits n) none d = ⊥
  EndsWell (fails f) o d = NotStatus f

  abbrev pub AllSound : Option Session → Type 0
  AllSound none = Unit
  AllSound (some s) = IsSound s

  abbrev pub Accounted : Option Session → Type 0
  Accounted none = Unit
  Accounted (some s) = IsCleaned s.process

  -- The report of a run that began its end on a disk.
  pub record Accounts (d : Disk) (r : Report) : Type 0 where
    pub ending : EndsWell r.ending r.session r.disk
    pub sound : AllSound r.session
    pub receipts : (receipt denials mode p r.disk ≡ receipt denials mode p d) ⊎ Accounted r.session

  pub IsCleaned-session :
      (s : Session) → s.cleanup_complete ≡ true → IsSound s → IsCleaned s.process
  IsCleaned-session s e h = subst (λ b. CleanIf b s.process) e h.clean

  confirmed-Accounted :
      (o : Option Session) → is_confirmed denials mode p o ≡ true → AllSound o → Accounted o
  confirmed-Accounted none e h = tt
  confirmed-Accounted (some s) e h = IsCleaned-session s e h

  pub NotStatus-boundary : (e : BoundaryError) → NotStatusError e → NotStatus (boundary e)
  NotStatus-boundary status_unwritable h = h
  NotStatus-boundary _ h = tt

  module _ (os : Posix) (fuel : ℕ) (limits : ProcessLimits) where
    pub left-Accounts :
        (f : Failure) (s : Session) (d : Disk)
        → NotStatus f
        → IsSound s
        → Accounts d (left_as_is denials mode p os fuel limits f s d)
    left-Accounts f s d n h = record { ending = n; sound = h; receipts = inl refl }

    -- Either the receipt is new on the disk, or its error is reported.
    pub reported-Accounts :
        (f : Failure) (o : Option Session) (d₀ d : Disk)
        → NotStatus f ⊎ (is_some (receipt denials mode p d) ≡ true)
        → AllSound o
        → Accounted o
        → Accounts d₀ (
            reported denials mode p os fuel limits f o
              (record_completed_cleanup denials mode p o d))
    reported-Accounts f o d₀ d n h a =
        by_result _ (record_completed_cleanup-Post denials mode p o d)
      where
        not_masked :
            NotStatus f ⊎ (is_some (receipt denials mode p d) ≡ true)
            → is_some (receipt denials mode p d) ≡ false
            → NotStatus f
        not_masked (inl k) e = k
        not_masked (inr k) e = cc

        by_result :
            (r : Result (Unit {0}) × Disk)
            → Post (Recorded denials mode p o d) (Leaves denials mode p d) r
            → Accounts d₀ (reported denials mode p os fuel limits f o r)
        by_result (done u, d') (confirmed, new, recorded) = record {
          ending = not_masked n new;
          sound = h;
          receipts = inr a;
        }
        by_result (raises e, d') (k, same) = record {
          ending = NotStatus-boundary e k;
          sound = h;
          receipts = inr a;
        }
