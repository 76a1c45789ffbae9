-- ===== src/Evidence/Run/Outcome.antt =====
-- The account of a whole run.
use mathlib.Core.Path.{subst}
use sacrysty.Prelude.{
  map, str_eq, ℕ, length, Bool, true, false, ◌≡◌, ◌≢◌, refl, ◌&&◌, not, Option, none, some, List,
  [], ◌∷◌, Str, codes, decimal, ◌++◌, ◌≤◌, if◌then◌else◌, ◌⊎◌, inl, arith,
}
use sacrysty.ProcessGroups.{Posix}
use sacrysty.Evidence.{
  cancellation_requested, cleanup_receipt_path, ProcessLimits, ProcessOutputPaths,
  stream_limit_bytes, process_cleanup_receipt,
}
use sacrysty.Evidence.Files.{
  Disk, Denials, status_unwritable, pipes_unavailable, interrupted, not_started, Result, done,
  raises, content,
}
use sacrysty.Evidence.Watch.{boundary, Session, Progress, next, stop}
use sacrysty.Evidence.Watch.Holds.{Good, watch-Good}
use sacrysty.Evidence.Watch.Sessions.{
  IsCleaned, IsSound, NotStatus, sound_streams, sound_clock, sound_process,
}
use sacrysty.Custody.Environment.{Env}
use sacrysty.Evidence.Trace.{Platform}
use sacrysty.Evidence.Setup.{Paths, prepare}
use sacrysty.Evidence.Run.{
  main, run_process, prepared, exit_status, heed_marker, World, Ending, exits, fails, Report, fresh,
  unregistered, record_completed_cleanup, watched, run_started, run_prepared, reported,
}
use sacrysty.Evidence.Run.Receipts.{receipt}
use sacrysty.Evidence.Run.Finish.{Finished, finish-Post}
use sacrysty.Evidence.Run.Accounts.{
  EndsWell, AllSound, Accounted, Accounts, IsCleaned-session, reported-Accounts,
}
use sacrysty.Evidence.Run.Handling.{handle_failure-Accounts, finished-Accounts}

module _ (denials : Denials) (mode : Str) (p : ProcessOutputPaths) where
  module _ (os : Posix) (fuel : ℕ) (limits : ProcessLimits) where
    watched-Accounts :
        (w : World) (r : Progress × Session) (d : Disk)
        → Good IsSound NotStatus r
        → Accounts denials mode p (w.leaves d) (watched denials mode p os fuel limits w r d)
    watched-Accounts w (next, s) d h =
        finished-Accounts denials mode p os fuel limits w.drains s (w.leaves d) _ h
          (finish-Post denials mode p w.walk s (w.leaves d))
    watched-Accounts w (stop f, s) d (h, n) =
        handle_failure-Accounts denials mode p os fuel limits f w.drains s (w.leaves d) n h

    fresh-IsSound : IsSound fresh
    fresh-IsSound = record { out_within = omega arith; err_within = omega arith; clean = tt }

    unregistered-IsSound : IsSound unregistered
    unregistered-IsSound = record { out_within = omega arith; err_within = omega arith; clean = tt }

    if-Accounts :
        (b : Bool) (d : Disk) (x y : Report)
        → Accounts denials mode p d x
        → Accounts denials mode p d y
        → Accounts denials mode p d (if b then x else y)
    if-Accounts true d x y h k = h
    if-Accounts false d x y h k = k

    run_started-Accounts :
        (w : World) (d : Disk)
        → Accounts denials mode p (w.leaves d) (run_started denials mode p os fuel limits w d)
    unfolding run_started
    run_started-Accounts w d =
        if-Accounts w.signalled (w.leaves d) _ _
          (handle_failure-Accounts denials mode p os fuel limits (boundary interrupted) w.drains
            unregistered (w.leaves d) tt unregistered-IsSound)
          (if-Accounts (not w.pipes_available) (w.leaves d) _ _
            (handle_failure-Accounts denials mode p os fuel limits (boundary pipes_unavailable)
              w.drains unregistered (w.leaves d) tt unregistered-IsSound)
            (watched-Accounts w _ d (
              watch-Good IsSound NotStatus sound_streams os fuel limits
                (sound_process os fuel limits) _ (map (heed_marker denials mode p) w.rounds) _
                (sound_clock os fuel limits fresh fresh-IsSound))))

    -- What stands on the disk when a run comes to its end: what the process left, where there is one.
    abbrev pub left_by : World → Disk → Disk
    left_by w d = if not (cancellation_requested mode w.marker) && w.spawns then w.leaves d else d

    pub run_prepared-Accounts :
        (w : World) (d : Disk)
        → Accounts denials mode p (left_by w d) (run_prepared denials mode p os fuel limits w d)
    unfolding run_prepared
    run_prepared-Accounts w d =
        by_tests (cancellation_requested mode w.marker) w.spawns w.signalled
          (run_started-Accounts w d)
      where
        by_tests :
            (marked spawned signalled : Bool) {r : Report}
            → Accounts denials mode p (w.leaves d) r
            → Accounts denials mode p (if not marked && spawned then w.leaves d else d) (
                if marked
                then reported denials mode p os fuel limits
                    (boundary interrupted)
                    none
                    (record_completed_cleanup denials mode p none d)
                else if spawned
                then r
                else reported denials mode p os fuel limits
                    (boundary (if signalled then interrupted else not_started))
                    none
                    (record_completed_cleanup denials mode p none d))
        by_tests true spawned signalled h =
            reported-Accounts denials mode p os fuel limits (boundary interrupted) none d d (inl tt)
              tt tt
        by_tests false true signalled h = h
        by_tests false false true h =
            reported-Accounts denials mode p os fuel limits (boundary interrupted) none d d (inl tt)
              tt tt
        by_tests false false false h =
            reported-Accounts denials mode p os fuel limits (boundary not_started) none d d (inl tt)
              tt tt

    -- A run that exits with a status n had a process that was cleaned up, the group observed absent
    -- and the leader reaped; n is its normalized return code and not 125, it stands in the status
    -- file, and the cleanup receipt stands in its own file.
    pub run_prepared-IsFinished :
        (w : World) (d : Disk) (n : ℕ)
        → (run_prepared denials mode p os fuel limits w d).ending ≡ exits n
        → (s : Session) × (((run_prepared denials mode p os fuel limits w d).session ≡ some s)
            × (Finished denials mode p s n (run_prepared denials mode p os fuel limits w d).disk
                × IsCleaned s.process))
    run_prepared-IsFinished w d n h =
        by_session (run_prepared denials mode p os fuel limits w d).session refl
          (subst (λ e. EndsWell denials mode p e report.session report.disk) h
            (run_prepared-Accounts w d).ending)
          (run_prepared-Accounts w d).sound
      where
        report : Report
        report = run_prepared denials mode p os fuel limits w d

        by_session :
            (o : Option Session)
            → report.session ≡ o
            → EndsWell denials mode p (exits n) o report.disk
            → AllSound denials mode p o
            → (s : Session) × ((report.session ≡ some s)
                × (Finished denials mode p s n report.disk × IsCleaned s.process))
        by_session none e k m = elim k [ ]
        by_session (some s) e k m = (s, (e, (k, IsCleaned-session denials mode p s k.complete m)))

    -- At the end of a run the file of the cleanup receipt is as it stood before the run's own end, or
    -- there is no process that is not cleaned up: none was started, or its group was observed absent
    -- and its leader reaped.
    pub run_prepared-receipt :
        (w : World) (d : Disk)
        → (receipt denials mode p (run_prepared denials mode p os fuel limits w d).disk
            ≡ receipt denials mode p (left_by w d))
          ⊎ Accounted denials mode p (run_prepared denials mode p os fuel limits w d).session
    run_prepared-receipt w d = (run_prepared-Accounts w d).receipts

    -- However a run ends, what it kept of each stream is at most the stream limit.
    pub run_prepared-bounds :
        (w : World) (d : Disk) (s : Session)
        → (run_prepared denials mode p os fuel limits w d).session ≡ some s
        → (length s.out ≤ stream_limit_bytes) × (length s.err ≤ stream_limit_bytes)
    run_prepared-bounds w d s e =
        let h = subst (AllSound denials mode p) e (run_prepared-Accounts w d).sound in
        (h.out_within, h.err_within)

    -- No run ends with the error that the status file cannot be written.
    pub run_prepared-status_unwritable :
        (w : World) (d : Disk)
        → (run_prepared denials mode p os fuel limits w d).ending
          ≢ fails (boundary status_unwritable)
    run_prepared-status_unwritable w d e =
        subst
          (λ x.
            EndsWell denials mode p x (run_prepared denials mode p os fuel limits w d).session
              (run_prepared denials mode p os fuel limits w d).disk)
          e (run_prepared-Accounts w d).ending

module _ (os : Posix) (fuel : ℕ) (denials : Denials) (ps : Paths) (platform : Platform)
    (ambient : Env) (w : World) where
  -- What the caller of the helper may rely on.
  pub record Attested (p : ProcessOutputPaths) (d : Disk) : Type 0 where
    pub status : ℕ
    pub ran : status ≢ 125
    pub recorded : content (cleanup_receipt_path p.status) d.files ≡ some process_cleanup_receipt
    pub written : content p.status d.files ≡ some (decimal status ++ (10 ∷ []))

  -- The helper exits with 0 only where the cleanup receipt and the status file of a process that
  -- was set up stand on the disk.
  pub main-Attested :
      (mode status stdout stderr separator first : Str) (rest : List Str) (d : Disk)
      → (main os fuel denials ps platform ambient w
          (mode ∷ status ∷ stdout ∷ stderr ∷ separator ∷ first ∷ rest)
          d).0
        ≡ some 0
      → Attested
          (record { status = status; stdout = stdout; stderr = stderr })
          (main os fuel denials ps platform ambient w
            (mode ∷ status ∷ stdout ∷ stderr ∷ separator ∷ first ∷ rest)
            d).1
  unfolding main run_process
  main-Attested mode status stdout stderr separator first rest d h =
      by_test (str_eq separator (codes "--")) h
    where
      p : ProcessOutputPaths
      p = record { status = status; stdout = stdout; stderr = stderr }

      of_finished :
          (s : Session) (n : ℕ) (d' : Disk) → Finished denials mode p s n d' → Attested p d'
      of_finished s n d' k = record {
        status = n;
        ran = k.ran;
        recorded = k.recorded;
        written = k.status;
      }

      by_ending :
          (r : Report)
          → ((n : ℕ)
              → r.ending ≡ exits n
              → (s : Session) × ((r.session ≡ some s)
                  × (Finished denials mode p s n r.disk × IsCleaned s.process)))
          → (e : Ending) → r.ending ≡ e
          → exit_status os fuel denials ps platform ambient w e ≡ some 0
          → Attested p r.disk
      by_ending r k (exits n) e x =
          let (s, (found, (done_, cleaned))) = k n e in of_finished s n r.disk done_
      by_ending r k (fails (boundary f)) e x = cc
      by_ending r k (fails f) e x = cc

      by_preparation :
          (r : Result (ProcessLimits × Env) × Disk)
          → exit_status os fuel denials ps platform ambient w
              (prepared os fuel denials ps platform ambient w mode p r).ending
            ≡ some 0
          → Attested p (prepared os fuel denials ps platform ambient w mode p r).disk
      by_preparation (done (limits, environment), d') x =
          by_ending (run_prepared denials mode p os fuel limits w d')
            (run_prepared-IsFinished denials mode p os fuel limits w d') _ refl x
      by_preparation (raises e, d') x = cc

      report : Report
      report = run_process os fuel denials ps platform ambient w mode p (first ∷ rest) d

      answer : Option ℕ × Disk
      answer = (exit_status os fuel denials ps platform ambient w report.ending, report.disk)

      refusal : Option ℕ × Disk
      refusal = (some 64, d)

      by_test :
          (b : Bool)
          → (if◌then◌else◌ {A = Option ℕ × Disk} b answer refusal).0 ≡ some 0
          → Attested p (if◌then◌else◌ {A = Option ℕ × Disk} b answer refusal).1
      by_test true x =
          by_preparation (prepare denials ps platform mode ambient p (first ∷ rest) d) x
      by_test false x = cc
