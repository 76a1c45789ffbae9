-- ===== src/Evidence/Watch/Sessions.antt =====
-- What holds of a session at each moment: its outputs are bounded, and where its cleanup is complete
-- the group was observed absent and nothing was asked of the process since.
use mathlib.Core.Path.{subst}
use sacrysty.Prelude.{
  ℕ, ◌-◌, ◌≤◌, Bool, true, false, ◌≡◌, refl, ap, sym, ◌∙◌, List, [], ◌∷◌, ◌++◌, pos, Bytes, length,
  take, length-append, length-take, arith, if◌then◌else◌,
}
use sacrysty.ProcessGroups.{
  Posix, Popen, Event, clock_read, slept, Outcome, returned, raised, stalled, GroupError,
  ownership_lost, leader_exited_unreaped, clock, sleep,
}
use sacrysty.ProcessGroups.Absence.{IsAbsent, IsClean, is_some, terminate_and_reap-IsClean}
use sacrysty.Evidence.{ProcessLimits, stream_limit_bytes, kill_grace, signal_steps}
use sacrysty.Evidence.Files.{Stream, stdout, stderr, status_unwritable}
use sacrysty.Evidence.Watch.Holds.{Good, KeepsStreams, KeepsProcess}
use sacrysty.Evidence.Watch.{
  Failure, boundary, group_failure, Session, is_open, next, captured, capture, close, with_process,
  cleaned, clean_up_process, after_status, check_leader,
}

-- Since the group was observed absent, the clock was read and time was spent.
abbrev pub WasAbsent : List Event → Type 0
WasAbsent (clock_read n ∷ t) = WasAbsent t
WasAbsent (slept d ∷ t) = WasAbsent t
WasAbsent t = IsAbsent t

abbrev pub IsCleaned : Popen → Type 0
IsCleaned p = WasAbsent p.trace × (is_some p.returncode ≡ true)

abbrev pub CleanIf : Bool → Popen → Type 0
CleanIf true p = IsCleaned p
CleanIf false p = Unit

pub record IsSound (s : Session) : Type 0 where
  pub out_within : length s.out ≤ stream_limit_bytes
  pub err_within : length s.err ≤ stream_limit_bytes
  pub clean : CleanIf s.cleanup_complete s.process

pub capture-within :
    (b chunk : Bytes)
    → length b ≤ stream_limit_bytes
    → length (b ++ take (stream_limit_bytes - length b) chunk) ≤ stream_limit_bytes
capture-within b chunk h = omega (
  arith,
  length-append b (take (stream_limit_bytes - length b) chunk),
  length-take (stream_limit_bytes - length b) chunk,
)

-- The errors that come before the receipts.
abbrev pub NotStatus : Failure → Type 0
NotStatus (boundary status_unwritable) = ⊥
NotStatus _ = Unit

sound_chunk :
    (stream : Stream) (chunk : Bytes) (s : Session)
    → is_open stream s ≡ true
    → IsSound s
    → IsSound (capture stream (take (stream_limit_bytes - length (captured stream s)) chunk) s)
sound_chunk stdout chunk s o h = record {
  out_within = capture-within s.out chunk h.out_within;
  err_within = h.err_within;
  clean = h.clean;
}
sound_chunk stderr chunk s o h = record {
  out_within = h.out_within;
  err_within = capture-within s.err chunk h.err_within;
  clean = h.clean;
}

sound_close :
    (stream : Stream) (s : Session) → is_open stream s ≡ true → IsSound s → IsSound (close stream s)
sound_close stdout s o h = record {
  out_within = h.out_within;
  err_within = h.err_within;
  clean = h.clean;
}
sound_close stderr s o h = record {
  out_within = h.out_within;
  err_within = h.err_within;
  clean = h.clean;
}

pub sound_streams : KeepsStreams IsSound NotStatus
sound_streams = record {
  keeps_chunk = sound_chunk;
  closes = sound_close;
  over_limit = λ stream. tt;
  on_os_error = tt;
}

-- Reading the clock and sleeping ask nothing of the process.
CleanIf-later :
    (b : Bool) (p q : Popen)
    → (WasAbsent p.trace → WasAbsent q.trace)
    → q.returncode ≡ p.returncode
    → CleanIf b p
    → CleanIf b q
CleanIf-later true p q t e h = (t h.0, ap is_some e ∙ h.1)
CleanIf-later false p q t e h = tt

WasAbsent-of_absent : (t : List Event) → IsAbsent t → WasAbsent t
WasAbsent-of_absent (clock_read n ∷ t) h = elim h [ ]
WasAbsent-of_absent (slept d ∷ t) h = elim h [ ]
WasAbsent-of_absent [] h = h
WasAbsent-of_absent (_ ∷ t) h = h

module _ (os : Posix) (fuel : ℕ) (limits : ProcessLimits) where
  pub sound_clock : (s : Session) → IsSound s → IsSound (with_process (clock os s.process).1 s)
  unfolding clock
  sound_clock s h = record {
    out_within = h.out_within;
    err_within = h.err_within;
    clean = CleanIf-later s.cleanup_complete s.process _ (λ k. k) refl h.clean;
  }

  sound_sleep : (d : ℕ) (s : Session) → IsSound s → IsSound (with_process (sleep d s.process).1 s)
  sound_sleep d s h = record {
    out_within = h.out_within;
    err_within = h.err_within;
    clean = CleanIf-later s.cleanup_complete s.process _ (λ k. k) refl h.clean;
  }

  NotStatus-group : (e : GroupError) → NotStatus (group_failure e)
  NotStatus-group ownership_lost = tt
  NotStatus-group _ = tt

  -- While the cleanup is not complete, the process may change.
  sound_incomplete :
      (p : Popen) (s : Session)
      → s.cleanup_complete ≡ false
      → IsSound s
      → IsSound (with_process p s)
  sound_incomplete p s e h = record {
    out_within = h.out_within;
    err_within = h.err_within;
    clean = subst (λ b. CleanIf b p) (sym e) tt;
  }

  sound_cleaned :
      (o : Outcome (Unit {0})) (p : Popen) (s : Session)
      → (o ≡ returned tt → IsClean p)
      → s.cleanup_complete ≡ false
      → IsSound s
      → Good IsSound NotStatus (cleaned os fuel limits o (with_process p s))
  sound_cleaned (returned u) p s c e h = record {
    out_within = h.out_within;
    err_within = h.err_within;
    clean = (WasAbsent-of_absent p.trace (c refl).0, (c refl).1);
  }
  sound_cleaned (raised x) p s c e h = (sound_incomplete p s e h, NotStatus-group x)
  sound_cleaned stalled p s c e h = (sound_incomplete p s e h, tt)

  pub clean_up_process-Good :
      (s : Session)
      → s.cleanup_complete ≡ false
      → IsSound s
      → Good IsSound NotStatus (clean_up_process os fuel limits s)
  unfolding clean_up_process
  clean_up_process-Good s e h =
      sound_cleaned _ _ s
        (terminate_and_reap-IsClean os fuel (signal_steps limits) (pos kill_grace) (pos kill_grace)
          s.process)
        e h

  check_leader-Good :
      (s : Session) → IsSound s → Good IsSound NotStatus (check_leader os fuel limits s)
  unfolding check_leader
  check_leader-Good s h = by_test s.cleanup_complete refl
    where
      status :
          (o : Outcome Bool) (s' : Session)
          → s'.cleanup_complete ≡ false
          → IsSound s'
          → Good IsSound NotStatus (after_status os fuel limits o s')
      status (returned true) s' e k = clean_up_process-Good s' e k
      status (returned false) s' e k = k
      status (raised x) s' e k = (k, NotStatus-group x)
      status stalled s' e k = (k, tt)

      by_test :
          (b : Bool)
          → s.cleanup_complete ≡ b
          → Good IsSound NotStatus (
              if b
              then (next, s)
              else after_status os fuel limits
                  (leader_exited_unreaped os s.process).0
                  (with_process (leader_exited_unreaped os s.process).1 s))
      by_test true e = h
      by_test false e = status _ _ e (sound_incomplete _ s e h)

  pub sound_process : KeepsProcess IsSound NotStatus sound_streams os fuel limits
  sound_process = record {
    reads_clock = sound_clock;
    sleeps = sound_sleep;
    checks = check_leader-Good;
    on_interrupt = tt;
    on_timeout = tt;
    on_pending = tt;
  }
