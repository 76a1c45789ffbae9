-- ===== src/Custody/Unwrap/Worker.antt =====
-- The worker process behind a call of `unwrap`: what a returned result says of it, and that no
-- cleanup signals a group that is no longer the caller's.
use sacrysty.Prelude.{
  ℕ, Bool, true, false, ◌≡◌, ◌≢◌, refl, sym, ap, ◌∙◌, not, ◌&&◌, ltb, is_empty, length, Option,
  none, some, [], ◌∷◌, map, ◌≤◌, ℤ, pos, eq_ℤ_sound, Str, Bytes, arith, if◌then◌else◌,
}
use sacrysty.ProcessGroups.{
  Posix, Popen, Outcome, returned, raised, stalled, ownership_lost, invalid_arguments,
  terminate_and_reap,
}
use sacrysty.ProcessGroups.Absence.{IsClean, terminate_and_reap-IsClean}
use sacrysty.Custody.{
  CustodyRequest, CustodyResult, CustodyError, worker_failure, main_thread_required, empty_envelope,
  envelope_too_large,
}
use sacrysty.Custody.Configure.{Adapter}
use sacrysty.Custody.Exchange.{
  Signal, sigint, sigterm, Exchange, exchanged, failed, unfinished, stdout, stderr,
  output_limit_exceeded, group_error, Pipes, ExchangeError, bounded_communicate,
}
use sacrysty.Custody.Exchange.Delivery.{bounded_communicate-delivers}
use sacrysty.Custody.Message.{Checked, good, refused, value_error, key_error, check_message}
use sacrysty.Custody.Unwrap.{
  Caller, World, Unwrapped, Ending, custody_error, result, Attempt, completed, Flight, Cleanup,
  clean, stuck, invalid, unclean, unwrap, guarded, declined, concluded, settled,
  propagate_cancellation, call_handler, conclude, admitted, exit_zero, previous, keeps_process,
  not_launched, cleanup_of, terminate_worker, clean_flight, fly, spawn, after_spawn, communicate,
  attempt_of, exchange_error, spawn_failure, arrives, heard, fresh, final_cancellation, half_second,
  sigkill_step, released, is_released, or_else, default_action, handler_action,
}
use sacrysty.Custody.Unwrap.Signals.{
  Disposition, default, callable, ignored, foreign, Response, handler_returns, handler_raises, Mask,
}

exit_zero_sound : (code : Option ℤ) → exit_zero code ≡ true → code ≡ some (pos 0)
exit_zero_sound none h = cc
exit_zero_sound (some code) h = ap some (eq_ℤ_sound code (pos 0) h)

exchange_error-fails :
    (e : ExchangeError) {p : Pipes} → exchange_error e ≡ completed p → failed e ≡ exchanged p
exchange_error-fails (output_limit_exceeded stdout) h = cc
exchange_error-fails (output_limit_exceeded stderr) h = cc
exchange_error-fails (group_error ownership_lost) h = cc
exchange_error-fails (group_error _) h = cc
exchange_error-fails _ h = cc

attempt_of-eq-completed : (x : Exchange) {p : Pipes} → attempt_of x ≡ completed p → x ≡ exchanged p
attempt_of-eq-completed (exchanged q) h = cc
attempt_of-eq-completed (failed e) h = exchange_error-fails e h
attempt_of-eq-completed unfinished h = cc

admitted-eq-result :
    (m : Checked CustodyResult) {r : CustodyResult} → admitted m ≡ result r → m ≡ good r
admitted-eq-result (good x) h = cc
admitted-eq-result (refused e) h = cc
admitted-eq-result value_error h = cc
admitted-eq-result key_error h = cc

conclude-eq-result :
    (sha256 : Bytes → Str) (request : CustodyRequest) (code : Option ℤ) (x : Attempt)
    {r : CustodyResult}
    → conclude sha256 request code x ≡ result r
    → (p : Pipes) × (x ≡ completed p)
      × (code ≡ some (pos 0))
      × (check_message sha256 request p.out ≡ good r)
unfolding conclude
conclude-eq-result sha256 request code (completed p) {r = r} h = at_exit (exit_zero code) refl h
  where
    at_exit :
        (b : Bool)
        → exit_zero code ≡ b
        → (if b
            then admitted (check_message sha256 request p.out)
            else custody_error worker_failure)
          ≡ result r
        → (q : Pipes) × (completed p ≡ completed q)
          × (code ≡ some (pos 0))
          × (check_message sha256 request q.out ≡ good r)
    at_exit true z h = (p, refl, exit_zero_sound code z, admitted-eq-result _ h)
    at_exit false z h = cc
conclude-eq-result sha256 request code _ h = cc

cleanup_of-eq-clean : (o : Outcome (Unit {0})) → cleanup_of o ≡ clean → o ≡ returned tt
cleanup_of-eq-clean (returned _) h = refl
cleanup_of-eq-clean (raised ownership_lost) h = cc
cleanup_of-eq-clean (raised invalid_arguments) h = cc
cleanup_of-eq-clean (raised _) h = cc
cleanup_of-eq-clean stalled h = cc

call_handler-no_result : (x : Response) {r : CustodyResult} → call_handler x ≢ result r
call_handler-no_result handler_returns h = cc
call_handler-no_result handler_raises h = cc

propagate-no_result :
    (m : Mask) (signal : Signal) (d : Disposition) {r : CustodyResult}
    → propagate_cancellation m signal d ≢ result r
unfolding propagate_cancellation
propagate-no_result m signal default h = ground arith
propagate-no_result m signal (callable x) h = call_handler-no_result x h
propagate-no_result m signal ignored h = cc
propagate-no_result m signal foreign h = cc

both_true : {a b : Bool} → a ≡ true → b ≡ true → (a && b) ≡ true
both_true h k = ground arith

terminate_worker-eq-clean :
    (os : Posix) (fuel : ℕ) (s : Popen)
    → (terminate_worker os fuel s).0 ≡ clean
    → IsClean (terminate_worker os fuel s).1
unfolding terminate_worker
terminate_worker-eq-clean os fuel s h =
    terminate_and_reap-IsClean os fuel (sigkill_step ∷ []) half_second half_second s (
      cleanup_of-eq-clean
        (terminate_and_reap os fuel (sigkill_step ∷ []) half_second half_second s).0 h)

clean_flight-eq-clean :
    (os : Posix) (fuel : ℕ) (f : Flight)
    → f.launched ≡ true
    → f.process_owned ≡ true
    → (clean_flight os fuel f).0 ≡ clean
    → IsClean (clean_flight os fuel f).1
unfolding clean_flight
clean_flight-eq-clean os fuel f l o h = swept (f.launched && f.process_owned) (both_true l o) h
  where
    swept :
        (b : Bool)
        → b ≡ true
        → (if b then terminate_worker os fuel f.process else (clean, f.process)).0 ≡ clean
        → IsClean (if b then terminate_worker os fuel f.process else (clean, f.process)).1
    swept true e h = terminate_worker-eq-clean os fuel f.process h
    swept false e h = cc

-- Neither the default action nor a handler that raises.
abbrev pub IsHarmless : Disposition → Type 0
IsHarmless default = ⊥
IsHarmless (callable handler_raises) = ⊥
IsHarmless _ = Unit

-- No ending in `e` is a result.
abbrev pub NoResult : Option Ending → Type 0
NoResult e = (r : CustodyResult) (x : Ending) → e ≡ some x → x ≢ result r

default_action-NoResult :
    (b : Bool) (signal : Signal) (d : Disposition) → NoResult (default_action b signal d)
default_action-NoResult true signal default r x e h = cc
default_action-NoResult true signal ignored r x e h = cc
default_action-NoResult true signal (callable _) r x e h = cc
default_action-NoResult true signal foreign r x e h = cc
default_action-NoResult false signal d r x e h = cc

handler_action-NoResult : (b : Bool) (d : Disposition) → NoResult (handler_action b d)
handler_action-NoResult true default r x e h = cc
handler_action-NoResult true ignored r x e h = cc
handler_action-NoResult true (callable handler_returns) r x e h = cc
handler_action-NoResult true (callable handler_raises) r x e h = cc
handler_action-NoResult true foreign r x e h = cc
handler_action-NoResult false d r x e h = cc

or_else-NoResult : (e f : Option Ending) → NoResult e → NoResult f → NoResult (or_else e f)
or_else-NoResult none f m n r x q h = n r x q h
or_else-NoResult (some y) f m n r x q h = m r x q h

or_else-eq-none : (e f : Option Ending) → or_else e f ≡ none → (e ≡ none) × (f ≡ none)
or_else-eq-none none f h = (refl, h)
or_else-eq-none (some y) f h = cc

harmless :
    (b : Bool) (signal : Signal) (d : Disposition)
    → default_action b signal d ≡ none
    → handler_action b d ≡ none
    → b ≡ true
    → IsHarmless d
harmless true signal default e h t = cc
harmless true signal ignored e h t = tt
harmless true signal (callable handler_returns) e h t = tt
harmless true signal (callable handler_raises) e h t = cc
harmless true signal foreign e h t = tt
harmless false signal d e h t = cc

module _ (os : Posix) (a : Adapter) (c : Caller) (w : World) (request : CustodyRequest) where
  -- What the worker's exchange comes to.
  abbrev pub exchange : Exchange × Popen
  exchange =
      bounded_communicate os w.pipes_available request.envelope a.timeout_seconds a.max_output_bytes
        (map (heard c) w.rounds) fresh

  abbrev IsCompleted : Flight → Pipes → Type 0
  IsCompleted f p = (f.launched ≡ true) × (f.process_owned ≡ true) × (exchange.0 ≡ exchanged p)

  communicate-IsCompleted :
      {p : Pipes}
      → (communicate os a c w request).attempt ≡ completed p
      → IsCompleted (communicate os a c w request) p
  unfolding communicate
  communicate-IsCompleted h =
      let done = attempt_of-eq-completed exchange.0 h in (refl, ap keeps_process done, done)

  after_spawn-IsCompleted :
      (o : Option Signal) {p : Pipes}
      → (after_spawn os a c w request o).attempt ≡ completed p
      → IsCompleted (after_spawn os a c w request o) p
  unfolding after_spawn
  after_spawn-IsCompleted (some signal) h = cc
  after_spawn-IsCompleted none h = communicate-IsCompleted h

  spawn_failure-fails : (o : Option Signal) {p : Pipes} → spawn_failure o ≢ completed p
  spawn_failure-fails (some signal) h = cc
  spawn_failure-fails none h = cc

  spawn-IsCompleted :
      (o : Option Signal) {p : Pipes}
      → (spawn os a c w request o).attempt ≡ completed p
      → IsCompleted (spawn os a c w request o) p
  unfolding spawn
  spawn-IsCompleted (some signal) h = cc
  spawn-IsCompleted none {p = p} h = popen w.spawns h
    where
      popen :
          (b : Bool)
          → let f =
              if b
              then after_spawn os a c w request (arrives c w.spawning)
              else not_launched (spawn_failure (arrives c w.spawning)) in
            f.attempt ≡ completed p → IsCompleted f p
      popen true h = after_spawn-IsCompleted _ h
      popen false h = elim (spawn_failure-fails (arrives c w.spawning) h) [ ]

  released-NoResult : NoResult (released c w)
  unfolding released
  released-NoResult = or_else-NoResult _ _ (default_action-NoResult _ sigint c.on_int) (
      or_else-NoResult _ _ (default_action-NoResult _ sigterm c.on_term) (
        or_else-NoResult _ _ (handler_action-NoResult _ c.on_int)
          (handler_action-NoResult _ c.on_term)))

  -- A signal that was held comes to no default action and to no handler that raises.
  released-IsHarmless :
      released c w ≡ none
      → (signal : Signal) → is_released c w signal ≡ true
      → IsHarmless (previous c signal)
  unfolding released
  released-IsHarmless e signal h =
      let (d_int, more) = or_else-eq-none _ _ e in
      let (d_term, more) = or_else-eq-none _ _ more in
      let (h_int, h_term) = or_else-eq-none _ _ more in each signal d_int d_term h_int h_term h
    where
      each :
          (signal : Signal)
          → default_action (is_released c w sigint) sigint c.on_int ≡ none
          → default_action (is_released c w sigterm) sigterm c.on_term ≡ none
          → handler_action (is_released c w sigint) c.on_int ≡ none
          → handler_action (is_released c w sigterm) c.on_term ≡ none
          → is_released c w signal ≡ true
          → IsHarmless (previous c signal)
      each sigint d_int d_term h_int h_term h = harmless _ sigint c.on_int d_int h_int h
      each sigterm d_int d_term h_int h_term h = harmless _ sigterm c.on_term d_term h_term h

  -- What follows from a returned result.
  pub record Returns (fuel : ℕ) (sha256 : Bytes → Str) (r : CustodyResult) (u : Unwrapped)
      : Type 0 where
    launched : u.launched ≡ true
    clean : IsClean u.process
    exit_status : u.process.returncode ≡ some (pos 0)
    uninterrupted : arrives c w.late ≡ none
    released_harmless :
        (signal : Signal) → is_released c w signal ≡ true → IsHarmless (previous c signal)
    pipes : Pipes
    delivered : pipes.delivered ≡ request.envelope
    out_within : length pipes.out ≤ a.max_output_bytes
    err_within : length pipes.err ≤ a.max_output_bytes
    message : check_message sha256 request pipes.out ≡ good r

  module _ (fuel : ℕ) (sha256 : Bytes → Str) where
    settled-eq-result :
        (swept : Cleanup) (o : Option Signal) (rest : Ending) {r : CustodyResult}
        → settled os fuel sha256 a c w request swept o rest ≡ result r
        → (swept ≡ clean) × (o ≡ none) × (rest ≡ result r)
    settled-eq-result clean (some signal) rest h =
        elim (propagate-no_result c.mask signal (previous c signal) h) [ ]
    settled-eq-result clean none rest h = (refl, refl, h)
    settled-eq-result stuck o rest h = cc
    settled-eq-result invalid o rest h = cc
    settled-eq-result (unclean e) o rest h = cc

    concluded-eq-result :
        (stopped restored : Bool) (e : Option Ending) (swept : Cleanup) (o : Option Signal)
        (rest : Ending) {r : CustodyResult}
        → NoResult e
        → concluded os fuel sha256 a c w request stopped restored e swept o rest ≡ result r
        → (e ≡ none) × (swept ≡ clean) × (o ≡ none) × (rest ≡ result r)
    concluded-eq-result true restored e swept o rest n h = cc
    concluded-eq-result false false e swept o rest n h = cc
    concluded-eq-result false true (some x) swept o rest {r = r} n h = elim (n r x refl h) [ ]
    concluded-eq-result false true none swept o rest n h =
        let (is_clean, quiet, done) = settled-eq-result swept o rest h in
        (refl, is_clean, quiet, done)

    guarded-Returns :
        {r : CustodyResult}
        → (guarded os fuel sha256 a c w request).ending ≡ result r
        → Returns fuel sha256 r (guarded os fuel sha256 a c w request)
    unfolding guarded fly
    guarded-Returns {r = r} h =
        let f = fly os a c w request in
        let (swept, s) = clean_flight os fuel f in
        let (at_mask, is_clean, quiet, rest) =
          concluded-eq-result _ _ (released c w) swept (final_cancellation c w f.attempt) _
            released-NoResult h in
        let (p, done, code, message) =
          conclude-eq-result sha256 request s.returncode f.attempt rest in
        let (l, o, x) = spawn-IsCompleted (arrives c w.early) done in
        let (d, out, err) =
          bounded_communicate-delivers os w.pipes_available request.envelope a.timeout_seconds
            a.max_output_bytes (map (heard c) w.rounds) fresh p x in
        record {
          launched = l;
          clean = clean_flight-eq-clean os fuel f l o is_clean;
          exit_status = code;
          released_harmless = released-IsHarmless at_mask;
          uninterrupted = sym (ap (final_cancellation c w) done) ∙ quiet;
          pipes = p;
          delivered = d;
          out_within = out;
          err_within = err;
          message = message;
        }

    -- A declined call has no result.
    otherwise :
        (b : Bool) (e : CustodyError) (u : Unwrapped) {r : CustodyResult}
        → (u.ending ≡ result r → Returns fuel sha256 r u)
        → (if b then declined os fuel sha256 a c w request e else u).ending ≡ result r
        → Returns fuel sha256 r (if b then declined os fuel sha256 a c w request e else u)
    otherwise true e u k h = cc
    otherwise false e u k h = k h

    -- If `unwrap` ends in a result, then it launched the worker; the worker was given exactly the
    -- envelope, kept both outputs within the limit and exited with status zero; its group was
    -- observed absent by the last call made; no signal that the caller does not ignore came between
    -- the exchange and the adapter's last block of the signals; a signal that came while they were
    -- blocked is still blocked by the caller, or met neither the default action nor a handler that
    -- raises; and the result is what the message on the standard output admits.
    pub unwrap-Returns :
        {r : CustodyResult}
        → (unwrap os fuel sha256 a c w request).ending ≡ result r
        → Returns fuel sha256 r (unwrap os fuel sha256 a c w request)
    unfolding unwrap
    unwrap-Returns h =
        otherwise (not c.is_main_thread) main_thread_required _
          (otherwise (is_empty request.envelope) empty_envelope _ (
            otherwise (ltb a.max_envelope_bytes (length request.envelope)) envelope_too_large _
              guarded-Returns))
          h
