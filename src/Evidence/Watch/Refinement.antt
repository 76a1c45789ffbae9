-- ===== src/Evidence/Watch/Refinement.antt =====
-- The loop refines the machine of its sessions.
use sacrysty.Prelude.{
  ℕ, ◌-◌, Bool, true, false, ◌≡◌, refl, ◌&&◌, ◌||◌, not, List, [], ◌∷◌, Bytes, length, take,
  if◌then◌else◌,
}
use sacrysty.ProcessGroups.{Posix, Outcome, returned, raised, stalled, leader_exited_unreaped}
use sacrysty.Evidence.{ProcessLimits, stream_limit_bytes}
use sacrysty.Evidence.Files.{Stream, stdout, stderr}
use sacrysty.Evidence.Watch.{
  Failure, pending, Round, Session, Progress, next, stop, and_then, captured, is_open, capture,
  close, with_process, cleaned, clean_up_process, after_status, check_leader, turn, is_finished,
  watch,
}
use sacrysty.Evidence.Watch.Holds.{Good, KeepsStreams, KeepsProcess, watch-Good}
use sacrysty.Evidence.Watch.Sessions.{
  IsSound, NotStatus, sound_streams, sound_process, capture-within,
}
use sacrysty.Evidence.Watch.Machine.{
  View, view, keeps_out, keeps_err, closes_out, closes_err, settles, Reaches, here, then_moves,
  IsOver, Refines,
}

abbrev Anything : Failure → Type 0
Anything f = Unit

Good-pair :
    (P Q : Session → Type 0) (E : Failure → Type 0) (r : Progress × Session)
    → Good P E r
    → Good Q Anything r
    → Good (λ s. P s × Q s) E r
Good-pair P Q E (next, s) h k = (h, k)
Good-pair P Q E (stop f, s) (h, e) (k, u) = ((h, k), e)

module _ (v : View) where
  abbrev IsReached : Session → Type 0
  IsReached s = IsSound s × Reaches v (view s)

  reached_streams : KeepsStreams IsReached NotStatus
  reached_streams = record {
    keeps_chunk = keeps;
    closes = closes;
    over_limit = λ stream. tt;
    on_os_error = tt;
  }
    where
      keeps :
          (stream : Stream) (chunk : Bytes) (s : Session)
          → is_open stream s ≡ true
          → IsReached s
          → IsReached
              (capture stream (take (stream_limit_bytes - length (captured stream s)) chunk) s)
      keeps stdout chunk s o (h, r) = (
        sound_streams.keeps_chunk stdout chunk s o h,
        then_moves r (keeps_out (view s) _ o (capture-within s.out chunk h.out_within)),
      )
      keeps stderr chunk s o (h, r) = (
        sound_streams.keeps_chunk stderr chunk s o h,
        then_moves r (keeps_err (view s) _ o (capture-within s.err chunk h.err_within)),
      )

      closes :
          (stream : Stream) (s : Session)
          → is_open stream s ≡ true
          → IsReached s
          → IsReached (close stream s)
      closes stdout s o (h, r) =
          (sound_streams.closes stdout s o h, then_moves r (closes_out (view s) o))
      closes stderr s o (h, r) =
          (sound_streams.closes stderr s o h, then_moves r (closes_err (view s) o))

  module _ (os : Posix) (fuel : ℕ) (limits : ProcessLimits) where
    abbrev Moved : Progress × Session → Type 0
    Moved = Good (λ s. Reaches v (view s)) Anything

    cleaned-Moved :
        (o : Outcome (Unit {0})) (s : Session)
        → s.cleanup_complete ≡ false
        → Reaches v (view s)
        → Moved (cleaned os fuel limits o s)
    cleaned-Moved (returned u) s e r = then_moves r (settles (view s) e)
    cleaned-Moved (raised x) s e r = (r, tt)
    cleaned-Moved stalled s e r = (r, tt)

    after_status-Moved :
        (o : Outcome Bool) (s : Session)
        → s.cleanup_complete ≡ false
        → Reaches v (view s)
        → Moved (after_status os fuel limits o s)
    unfolding clean_up_process
    after_status-Moved (returned true) s e r = cleaned-Moved _ _ e r
    after_status-Moved (returned false) s e r = r
    after_status-Moved (raised x) s e r = (r, tt)
    after_status-Moved stalled s e r = (r, tt)

    check_leader-Moved : (s : Session) → Reaches v (view s) → Moved (check_leader os fuel limits s)
    unfolding check_leader
    check_leader-Moved s r = by_test s.cleanup_complete refl
      where
        by_test :
            (b : Bool)
            → s.cleanup_complete ≡ b
            → Moved (
                if b
                then (next, s)
                else after_status os fuel limits
                    (leader_exited_unreaped os s.process).0
                    (with_process (leader_exited_unreaped os s.process).1 s))
        by_test true e = r
        by_test false e = after_status-Moved _ _ e r

    reached_process : KeepsProcess IsReached NotStatus reached_streams os fuel limits
    reached_process = record {
      reads_clock = λ s (h, r). ((sound_process os fuel limits).reads_clock s h, r);
      sleeps = λ d s (h, r). ((sound_process os fuel limits).sleeps d s h, r);
      checks = λ s (h, r).
          Good-pair IsSound (λ s. Reaches v (view s)) NotStatus _
            ((sound_process os fuel limits).checks s h) (check_leader-Moved s r);
      on_interrupt = tt;
      on_timeout = tt;
      on_pending = tt;
    }

module _ (os : Posix) (fuel : ℕ) (limits : ProcessLimits) where
  abbrev EndsOver : Progress × Session → Type 0
  EndsOver (next, s) = IsOver (view s)
  EndsOver (stop f, s) = Unit

  is_finished-IsOver : (s : Session) → is_finished os fuel limits s ≡ true → IsOver (view s)
  is_finished-IsOver s h = parts s.cleanup_complete s.out_open s.err_open h
    where
      parts : (a b c : Bool) → (a && not (b || c)) ≡ true → (a ≡ true) × ((b ≡ false) × (c ≡ false))
      parts true false false e = (refl, (refl, refl))
      parts true false true e = cc
      parts true true c e = cc
      parts false b c e = cc

  watch-EndsOver :
      (deadline : ℕ) (rounds : List Round) (s : Session)
      → EndsOver (watch os fuel limits deadline rounds s)
  unfolding watch
  watch-EndsOver deadline [] s = by_test (is_finished os fuel limits s) refl
    where
      by_test :
          (b : Bool)
          → is_finished os fuel limits s ≡ b
          → EndsOver (if b then next else stop pending, s)
      by_test true e = is_finished-IsOver s e
      by_test false e = tt
  watch-EndsOver deadline (r ∷ rounds) s =
      by_test (is_finished os fuel limits s) refl (turn os fuel limits deadline r s)
        (watch-EndsOver deadline rounds)
    where
      by_test :
          (b : Bool)
          → is_finished os fuel limits s ≡ b
          → (p : Progress × Session)
          → ((s' : Session) → EndsOver (watch os fuel limits deadline rounds s'))
          → EndsOver (if b then (next, s) else and_then p (watch os fuel limits deadline rounds))
      by_test true e p again = is_finished-IsOver s e
      by_test false e (next, s') again = again s'
      by_test false e (stop f, s') again = tt

  Good-Refines :
      (v : View) (r : Progress × Session)
      → Good (IsReached v) NotStatus r
      → EndsOver r
      → Refines v r
  Good-Refines v (next, s) (h, r) over = (r, over)
  Good-Refines v (stop f, s) ((h, r), e) over = r

  -- The loop refines the machine: from a session whose outputs are within the limit, and whose
  -- cleanup is not recorded as complete unless it is, the loop moves as the machine does; where it
  -- does not stop with a failure, the cleanup is complete and both streams are closed.
  pub watch-Refines :
      (deadline : ℕ) (rounds : List Round) (s : Session)
      → IsSound s
      → Refines (view s) (watch os fuel limits deadline rounds s)
  watch-Refines deadline rounds s h =
      Good-Refines (view s) _
        (watch-Good (IsReached (view s)) NotStatus (reached_streams (view s)) os fuel limits
          (reached_process (view s) os fuel limits) deadline rounds s (h, here))
        (watch-EndsOver deadline rounds s)
