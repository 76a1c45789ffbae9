-- ===== src/Evidence/Run/Handling.antt =====
-- How an exception is handled: the cleanup of the process, the drain of its streams, the receipt.
use mathlib.Core.Path.{subst}
use sacrysty.Prelude.{
  ℕ, ◌+◌, ◌-◌, length, take, Bool, true, false, ◌≡◌, refl, ap, sym, ◌∙◌, ◌&&◌, not, some, List, [],
  ◌∷◌, Str, Bytes, leb, if◌then◌else◌, ◌⊎◌, inl, inr,
}
use sacrysty.ProcessGroups.{Posix, clock}
use sacrysty.Evidence.{ProcessLimits, ProcessOutputPaths, stream_limit_bytes, kill_grace}
use sacrysty.Evidence.Files.{
  Stream, stdout, stderr, Disk, Denials, status_unwritable, Result, done, raises, is_some,
}
use sacrysty.Evidence.Files.Post.{Post}
use sacrysty.Evidence.Watch.{
  Failure, boundary, pending, Ready, Session, is_open, Progress, next, stop, any_open, with_process,
  clean_up_process, capture, captured, close, is_open,
}
use sacrysty.Evidence.Watch.Holds.{Good, KeepsStreams, if-Good, capture_ready_streams-Good}
use sacrysty.Evidence.Watch.Sessions.{
  IsSound, NotStatus, sound_streams, sound_clock, clean_up_process-Good,
}
use sacrysty.Evidence.Run.{
  Report, is_none, is_ownership_lost, is_nonempty, clean_up_failed, drain, drain_and_report, handle,
  handle_failure, is_model_end, finished, left_as_is, after_drain, after_cleanup,
}
use sacrysty.Evidence.Run.Receipts.{receipt}
use sacrysty.Evidence.Run.Finish.{Finished, Unfinished}
use sacrysty.Evidence.Run.Accounts.{
  Accounted, Accounts, IsCleaned-session, NotStatus-boundary, left-Accounts, reported-Accounts,
}

module _ (denials : Denials) (mode : Str) (p : ProcessOutputPaths) where
  module _ (os : Posix) (fuel : ℕ) (limits : ProcessLimits) where
    -- Sound, with a completed cleanup.
    abbrev IsSettled : Session → Type 0
    IsSettled s = IsSound s × (s.cleanup_complete ≡ true)

    IsSettled-streams : KeepsStreams IsSettled NotStatus
    IsSettled-streams = record {
      keeps_chunk = settled_chunk;
      closes = settled_close;
      over_limit = λ stream. tt;
      on_os_error = tt;
    }
      where
        settled_chunk :
            (stream : Stream) (chunk : Bytes) (s : Session)
            → is_open stream s ≡ true
            → IsSettled s
            → IsSettled
                (capture stream (take (stream_limit_bytes - length (captured stream s)) chunk) s)
        settled_chunk stdout chunk s o (h, e) = (sound_streams.keeps_chunk stdout chunk s o h, e)
        settled_chunk stderr chunk s o (h, e) = (sound_streams.keeps_chunk stderr chunk s o h, e)

        settled_close :
            (stream : Stream) (s : Session)
            → is_open stream s ≡ true
            → IsSettled s
            → IsSettled (close stream s)
        settled_close stdout s o (h, e) = (sound_streams.closes stdout s o h, e)
        settled_close stderr s o (h, e) = (sound_streams.closes stderr s o h, e)

    drain-Good :
        (deadline : ℕ) (drains : List (List Ready)) (s : Session)
        → IsSettled s
        → Good IsSettled NotStatus (drain denials mode p os fuel limits deadline drains s)
    unfolding drain
    drain-Good deadline [] s h = at_end (any_open s)
      where
        at_end : (b : Bool) → Good IsSettled NotStatus (if b then stop pending else next, s)
        at_end true = (h, tt)
        at_end false = h
    drain-Good deadline (events ∷ more) s h =
        by_tests (any_open s) (leb deadline (clock os s.process).0) _
          (capture_ready_streams-Good IsSettled NotStatus IsSettled-streams events _ timed)
          (drain-Good deadline more)
      where
        timed : IsSettled (with_process (clock os s.process).1 s)
        timed = (sound_clock os fuel limits s h.0, h.1)

        by_tests :
            (open_ late : Bool) (r : Progress × Session)
            → Good IsSettled NotStatus r
            → ((s' : Session)
                → IsSettled s'
                → Good IsSettled NotStatus (drain denials mode p os fuel limits deadline more s'))
            → Good IsSettled NotStatus (elim open_ [
              | false ↦ (next, s)
              | true ↦ elim late [
                | true ↦ (next, with_process (clock os s.process).1 s)
                | false ↦ elim r.0 [
                  | stop f ↦ (stop f, r.1)
                  | next ↦
                      if is_nonempty denials mode p os fuel limits events
                      then drain denials mode p os fuel limits deadline more r.1
                      else (next, r.1)
                ]
              ]
            ])
        by_tests false late r k again = h
        by_tests true true r k again = timed
        by_tests true false (stop f, s') k again = k
        by_tests true false (next, s') k again =
            if-Good IsSettled NotStatus (is_nonempty denials mode p os fuel limits events) _
              (next, s') (again s' k) k

    drained :
        (f : Failure) (r : Progress × Session) (d₀ d : Disk)
        → NotStatus f ⊎ (is_some (receipt denials mode p d) ≡ true)
        → Good IsSettled NotStatus r
        → Accounts denials mode p d₀ (after_drain denials mode p os fuel limits f r d)
    drained f (next, s) d₀ d n (h, e) =
        reported-Accounts denials mode p os fuel limits f (some s) d₀ d n h
          (IsCleaned-session denials mode p s e h)
    drained f (stop g, s) d₀ d n ((h, e), k) = record {
      ending = k;
      sound = h;
      receipts = inr (IsCleaned-session denials mode p s e h);
    }

    drain_and_report-Accounts :
        (f : Failure) (drains : List (List Ready)) (s : Session) (d : Disk)
        → NotStatus f
        → IsSound s
        → Accounts denials mode p d (drain_and_report denials mode p os fuel limits f drains s d)
    unfolding drain_and_report
    drain_and_report-Accounts f drains s d n h = by_test s.cleanup_complete refl
      where
        by_test :
            (b : Bool)
            → s.cleanup_complete ≡ b
            → Accounts denials mode p d (
                if b
                then after_drain denials mode p os fuel limits f
                    (drain denials mode p os fuel limits
                      ((clock os s.process).0 + kill_grace)
                      drains
                      (with_process (clock os s.process).1 s))
                    d
                else left_as_is denials mode p os fuel limits f s d)
        by_test true e =
            drained f _ d d (inl n) (drain-Good _ drains _ (sound_clock os fuel limits s h, e))
        by_test false e = left-Accounts denials mode p os fuel limits f s d n h

    clean_up_failed-Good :
        (f : Failure) (s : Session)
        → IsSound s
        → Good IsSound NotStatus (clean_up_failed denials mode p os fuel limits f s)
    unfolding clean_up_failed
    clean_up_failed-Good f s h =
        by_test
          (not s.cleanup_complete
            && is_none denials mode p os fuel limits s.process.returncode
            && not (is_ownership_lost denials mode p os fuel limits f))
          (left s.cleanup_complete _ _)
      where
        left : (a b c : Bool) → (not a && b && c) ≡ true → a ≡ false
        left true b c e = cc
        left false b c e = refl

        by_test :
            (b : Bool)
            → (b ≡ true → s.cleanup_complete ≡ false)
            → Good IsSound NotStatus (if b then clean_up_process os fuel limits s else (next, s))
        by_test true k = clean_up_process-Good os fuel limits s (k refl) h
        by_test false k = h

    handle-Accounts :
        (f : Failure) (drains : List (List Ready)) (s : Session) (d : Disk)
        → NotStatus f
        → IsSound s
        → Accounts denials mode p d (handle denials mode p os fuel limits f drains s d)
    unfolding handle
    handle-Accounts f drains s d n h = by_result _ (clean_up_failed-Good f s h)
      where
        by_result :
            (r : Progress × Session)
            → Good IsSound NotStatus r
            → Accounts denials mode p d (after_cleanup denials mode p os fuel limits f drains r d)
        by_result (next, s') k = drain_and_report-Accounts f drains s' d n k
        by_result (stop g, s') (k, m) = left-Accounts denials mode p os fuel limits g s' d m k

    pub handle_failure-Accounts :
        (f : Failure) (drains : List (List Ready)) (s : Session) (d : Disk)
        → NotStatus f
        → IsSound s
        → Accounts denials mode p d (handle_failure denials mode p os fuel limits f drains s d)
    handle_failure-Accounts f drains s d n h =
        by_test (is_model_end denials mode p os fuel limits f)
      where
        by_test :
            (b : Bool)
            → Accounts denials mode p d (
                if b
                then left_as_is denials mode p os fuel limits f s d
                else handle denials mode p os fuel limits f drains s d)
        by_test true = left-Accounts denials mode p os fuel limits f s d n h
        by_test false = handle-Accounts f drains s d n h

    if_complete : {A : Type 0} (b : Bool) (x y : A) → b ≡ true → (if b then x else y) ≡ x
    if_complete true x y e = refl
    if_complete false x y e = cc

    unless_complete :
        {A : Type 0} (b c d : Bool) (x y : A) → b ≡ true → (if not b && c && d then x else y) ≡ y
    unless_complete true c d x y e = refl
    unless_complete false c d x y e = cc

    complete-clean_up_failed :
        (f : Failure) (s : Session)
        → s.cleanup_complete ≡ true
        → clean_up_failed denials mode p os fuel limits f s ≡ (next, s)
    unfolding clean_up_failed
    complete-clean_up_failed f s e = unless_complete s.cleanup_complete _ _ _ _ e

    -- The status file's error comes behind a receipt, so that another error takes its place.
    handle-masked :
        (drains : List (List Ready)) (s : Session) (d₀ d : Disk)
        → s.cleanup_complete ≡ true
        → is_some (receipt denials mode p d) ≡ true
        → IsSound s
        → Accounts denials mode p d₀
            (handle denials mode p os fuel limits (boundary status_unwritable) drains s d)
    unfolding handle drain_and_report
    handle-masked drains s d₀ d complete there h =
        let f = boundary status_unwritable in
        subst
          (λ r.
            Accounts denials mode p d₀ (after_cleanup denials mode p os fuel limits f drains r d))
          (sym (complete-clean_up_failed f s complete))
          (subst (Accounts denials mode p d₀) (sym (if_complete s.cleanup_complete _ _ complete)) (
            drained f _ d₀ d (inr there)
              (drain-Good _ drains _ (sound_clock os fuel limits s h, complete))))

    since_same :
        (d d' : Disk) (r : Report)
        → receipt denials mode p d' ≡ receipt denials mode p d
        → Accounts denials mode p d' r
        → Accounts denials mode p d r
    since_same d d' r e h = record {
      ending = h.ending;
      sound = h.sound;
      receipts = either h.receipts;
    }
      where
        either :
            (receipt denials mode p r.disk ≡ receipt denials mode p d')
              ⊎ Accounted denials mode p r.session
            → (receipt denials mode p r.disk ≡ receipt denials mode p d)
              ⊎ Accounted denials mode p r.session
        either (inl k) = inl (k ∙ e)
        either (inr k) = inr k

    pub finished-Accounts :
        (drains : List (List Ready)) (s : Session) (d : Disk) (r : Result ℕ × Disk)
        → IsSound s
        → Post (Finished denials mode p s) (Unfinished denials mode p d s) r
        → Accounts denials mode p d (finished denials mode p os fuel limits drains s r)
    finished-Accounts drains s d (done n, d') h k = record {
      ending = k;
      sound = h;
      receipts = inr (IsCleaned-session denials mode p s k.complete h);
    }
    finished-Accounts drains s d (raises e, d') h (inl (n, same)) =
        since_same d d' _ same (
          handle_failure-Accounts (boundary e) drains s d' (NotStatus-boundary denials mode p e n)
            h)
    finished-Accounts drains s d (raises e, d') h (inr (masked, (complete, recorded))) =
        subst
          (λ x.
            Accounts denials mode p d
              (handle_failure denials mode p os fuel limits (boundary x) drains s d'))
          (sym masked) (handle-masked drains s d d' complete (ap is_some recorded) h)
