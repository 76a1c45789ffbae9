-- ===== src/Custody/Unwrap.antt =====
-- `OneShotCustodyAdapter.unwrap`: the caller's signal mask and handlers, the start of the worker,
-- the exchange, the cleanup, and the propagation of a cancellation that came meanwhile.
pub mod Signals
pub mod Admission
pub mod Restoration
pub mod Worker
pub mod Group
mod Tests
use sacrysty.Prelude.{
  ℕ, suc, Bool, true, false, ◌&&◌, ◌||◌, not, Option, none, some, List, [], ◌∷◌, map, ℤ, pos, eq_ℤ,
  Str, Bytes, length, is_empty, ltb, if◌then◌else◌,
}
use sacrysty.ProcessGroups.{
  Posix, Popen, Outcome, returned, raised, stalled, GroupError, ownership_lost, invalid_arguments,
  SignalStep, terminate_and_reap,
}
use sacrysty.Custody.{
  CustodyRequest, CustodyResult, CustodyError, main_thread_required, empty_envelope,
  envelope_too_large, worker_unavailable, worker_timeout, stderr_too_large, output_too_large,
  io_failure, worker_ownership_lost, worker_cleanup_failure, worker_interrupted, propagation_failed,
  worker_failure,
}
use sacrysty.Custody.Configure.{Adapter}
use sacrysty.Custody.Exchange.{
  Signal, sigint, sigterm, Stream, stdout, stderr, Round, ExchangeError, timed_out, os_error,
  output_limit_exceeded, cancelled, group_error, Pipes, Exchange, exchanged, failed, unfinished,
  bounded_communicate,
}
use sacrysty.Custody.Message.{Checked, good, refused, value_error, key_error, check_message}
use Signals.{
  Disposition, default, ignored, callable, foreign, Response, handler_returns, handler_raises, Mask,
  Handlers, SignalState, block, install, restore_mask, restore_handlers, is_ignored, is_blocked,
  disposition,
}

-- Who calls.
pub record Caller : Type 0 where
  pub is_main_thread : Bool
  pub mask : Mask
  pub on_int : Disposition
  pub on_term : Disposition

-- What happens during the call: the signals that reach the caller before Popen, during Popen, and
-- after the last test of the exchange; whether SIGINT and SIGTERM come while the adapter blocks them
-- at its end; whether Popen succeeds and gives its pipes; the turns of the exchange.
pub record World : Type 0 where
  pub early : List Signal
  pub spawning : List Signal
  pub late : List Signal
  pub held_int : Bool
  pub held_term : Bool
  pub spawns : Bool
  pub pipes_available : Bool
  pub rounds : List Round

pub data Ending : Type 0 where
  result : CustodyResult → Ending
  custody_error : CustodyError → Ending
  killed : Signal → Ending
  handler_error uncaught type_error pending : Ending

-- What the body of the outer `try` comes to.
pub data Attempt : Type 0 where
  completed : Pipes → Attempt
  errored : CustodyError → Attempt
  cancelled_by : Signal → Attempt
  running : Attempt

-- With the process, if there is one, and whether it is still owned.
pub record Flight : Type 0 where
  pub attempt : Attempt
  pub launched : Bool
  pub process_owned : Bool
  pub process : Popen

abbrev pub previous : Caller → Signal → Disposition
previous c sigint = c.on_int
previous c sigterm = c.on_term

-- `defer_caller_cancellation` keeps the first signal; an ignored signal has no such handler.
unfoldable pub arrives : Caller → List Signal → Option Signal
arrives c [] = none
arrives c (signal ∷ signals) =
    if is_ignored (previous c signal) then arrives c signals else some signal

abbrev pub heard : Caller → Round → Round
heard c r = record r {
  cancellation = elim r.cancellation [ none ↦ none | some signal ↦ arrives c (signal ∷ []) ];
}

abbrev pub exchange_error : ExchangeError → Attempt
exchange_error timed_out = errored worker_timeout
exchange_error (output_limit_exceeded stderr) = errored stderr_too_large
exchange_error (output_limit_exceeded stdout) = errored output_too_large
exchange_error os_error = errored io_failure
exchange_error (group_error ownership_lost) = errored worker_ownership_lost
exchange_error (group_error _) = errored worker_cleanup_failure
exchange_error (cancelled signal) = cancelled_by signal

abbrev pub keeps_process : Exchange → Bool
keeps_process (failed (group_error ownership_lost)) = false
keeps_process _ = true

abbrev pub attempt_of : Exchange → Attempt
attempt_of (exchanged p) = completed p
attempt_of (failed e) = exchange_error e
attempt_of unfinished = running

abbrev pub fresh : Popen
fresh = record { returncode = none; trace = [] }

abbrev pub not_launched : Attempt → Flight
not_launched a = record { attempt = a; launched = false; process_owned = true; process = fresh }

-- `raise CustodyError` of an OSError of Popen, unless a cancellation came first.
abbrev pub spawn_failure : Option Signal → Attempt
spawn_failure (some signal) = cancelled_by signal
spawn_failure none = errored worker_unavailable

module _ (os : Posix) (a : Adapter) (c : Caller) (w : World) (request : CustodyRequest) where
  unfoldable pub communicate : Flight
  communicate =
      let (x, s) =
        bounded_communicate os w.pipes_available request.envelope a.timeout_seconds
          a.max_output_bytes (map (heard c) w.rounds) fresh in
      record {
        attempt = attempt_of x;
        launched = true;
        process_owned = keeps_process x;
        process = s;
      }

  unfoldable pub after_spawn : Option Signal → Flight
  unfolding communicate
  after_spawn (some signal) = record {
    attempt = cancelled_by signal;
    launched = true;
    process_owned = true;
    process = fresh;
  }
  after_spawn none = communicate

  -- From the test before Popen to the end of the exchange.
  unfoldable pub spawn : Option Signal → Flight
  unfolding after_spawn
  spawn (some signal) = not_launched (cancelled_by signal)
  spawn none =
      if w.spawns
      then after_spawn (arrives c w.spawning)
      else not_launched (spawn_failure (arrives c w.spawning))

  unfoldable pub fly : Flight
  unfolding spawn arrives
  fly = spawn (arrives c w.early)

pub data Cleanup : Type 0 where
  clean stuck invalid : Cleanup
  unclean : CustodyError → Cleanup

abbrev pub cleanup_of : Outcome (Unit {0}) → Cleanup
cleanup_of (returned _) = clean
cleanup_of (raised ownership_lost) = unclean worker_ownership_lost
cleanup_of (raised invalid_arguments) = invalid
cleanup_of (raised _) = unclean worker_cleanup_failure
cleanup_of stalled = stuck

-- Half a second each, in nanoseconds.
abbrev pub half_second : ℤ
half_second = pos 500_000_000

abbrev pub sigkill_step : SignalStep
sigkill_step = record { selected_signal = 9; grace_seconds = 0 }

-- `_terminate_and_reap`
unfoldable pub terminate_worker : Posix → ℕ → Popen → Cleanup × Popen
terminate_worker os fuel s =
    let (o, s') = terminate_and_reap os fuel (sigkill_step ∷ []) half_second half_second s in
    (cleanup_of o, s')

unfoldable pub clean_flight : Posix → ℕ → Flight → Cleanup × Popen
unfolding terminate_worker
clean_flight os fuel f =
    if f.launched && f.process_owned then terminate_worker os fuel f.process else (clean, f.process)

-- `cancellation` at the end of the outer `finally`.
abbrev pub final_cancellation : Caller → World → Attempt → Option Signal
final_cancellation c w (cancelled_by signal) = some signal
final_cancellation c w _ = arrives c w.late

abbrev pub call_handler : Response → Ending
call_handler handler_returns = custody_error worker_interrupted
call_handler handler_raises = handler_error

-- `_propagate_cancellation`: the default action ends the process unless the signal is blocked.
unfoldable pub propagate_cancellation : Mask → Signal → Disposition → Ending
propagate_cancellation mask signal default =
    if is_blocked mask signal then custody_error propagation_failed else killed signal
propagate_cancellation mask signal (callable response) = call_handler response
propagate_cancellation mask signal ignored = custody_error worker_interrupted
propagate_cancellation mask signal foreign = custody_error worker_interrupted

abbrev pub admitted : Checked CustodyResult → Ending
admitted (good r) = result r
admitted (refused e) = custody_error e
admitted value_error = uncaught
admitted key_error = uncaught

abbrev pub exit_zero : Option ℤ → Bool
exit_zero none = false
exit_zero (some code) = eq_ℤ code (pos 0)

-- What follows the outer `try`.
unfoldable pub conclude : (Bytes → Str) → CustodyRequest → Option ℤ → Attempt → Ending
conclude sha256 request returncode (completed p) =
    if exit_zero returncode
    then admitted (check_message sha256 request p.out)
    else custody_error worker_failure
conclude sha256 request returncode (errored e) = custody_error e
conclude sha256 request returncode (cancelled_by signal) = custody_error worker_interrupted
conclude sha256 request returncode running = pending

-- What a call leaves: its ending, the caller's signals, and the process.
pub record Unwrapped : Type 0 where
  pub ending : Ending
  pub signals : SignalState
  pub launched : Bool
  pub process : Popen

abbrev pub is_held : World → Signal → Bool
is_held w sigint = w.held_int
is_held w sigterm = w.held_term

-- A held signal that the caller does not block is pending no more behind the last SIG_SETMASK.
abbrev pub is_released : Caller → World → Signal → Bool
is_released c w signal = is_held w signal && not (is_blocked c.mask signal)

abbrev pub default_action : Bool → Signal → Disposition → Option Ending
default_action true signal default = some (killed signal)
default_action _ signal d = none

abbrev pub handler_action : Bool → Disposition → Option Ending
handler_action true (callable handler_raises) = some handler_error
handler_action _ d = none

abbrev pub or_else : Option Ending → Option Ending → Option Ending
or_else none more = more
or_else (some e) more = some e

-- What the last SIG_SETMASK raises or ends: a default action comes first, and the restored handlers
-- are called by signal number. A handler that returns changes nothing.
unfoldable pub released : Caller → World → Option Ending
released c w = or_else (default_action (is_released c w sigint) sigint c.on_int) (
    or_else (default_action (is_released c w sigterm) sigterm c.on_term) (
      or_else (handler_action (is_released c w sigint) c.on_int)
        (handler_action (is_released c w sigterm) c.on_term)))

-- The model's rounds or fuel ended before the code could restore anything.
abbrev pub is_stopped : Attempt → Cleanup → Bool
is_stopped running swept = true
is_stopped attempt stuck = true
is_stopped attempt swept = false

module _ (os : Posix) (fuel : ℕ) (sha256 : Bytes → Str) (a : Adapter) (c : Caller) (w : World)
    (request : CustodyRequest) where
  abbrev pub settled : Cleanup → Option Signal → Ending → Ending
  settled (unclean e) signal rest = custody_error e
  settled stuck signal rest = pending
  settled invalid signal rest = uncaught
  settled clean (some signal) rest = propagate_cancellation c.mask signal (previous c signal)
  settled clean none rest = rest

  -- The end of the outer `finally`: a handler that cannot be restored raises a TypeError, and the
  -- signals that were held are released by the mask.
  abbrev pub concluded : Bool → Bool → Option Ending → Cleanup → Option Signal → Ending → Ending
  concluded true restored at_mask swept signal rest = pending
  concluded false false at_mask swept signal rest = type_error
  concluded false true (some e) swept signal rest = e
  concluded false true none swept signal rest = settled swept signal rest

  unfoldable pub guarded : Unwrapped
  unfolding clean_flight fly conclude propagate_cancellation released
  guarded =
      let before : SignalState = record {
        mask = c.mask;
        on_int = Handlers.original c.on_int;
        on_term = Handlers.original c.on_term;
      } in
      let during = restore_mask c.mask (install (block before)) in
      let f = fly os a c w request in
      let (cleanup, s) = clean_flight os fuel f in
      let (restored, after) = restore_handlers c.on_int c.on_term c.mask (block during) in
      record {
        ending =
            concluded (is_stopped f.attempt cleanup) restored (released c w) cleanup
              (final_cancellation c w f.attempt) (conclude sha256 request s.returncode f.attempt);
        signals = after;
        launched = f.launched;
        process = s;
      }

  abbrev pub declined : CustodyError → Unwrapped
  declined e = record {
    ending = custody_error e;
    signals = record {
      mask = c.mask;
      on_int = Handlers.original c.on_int;
      on_term = Handlers.original c.on_term;
    };
    launched = false;
    process = fresh;
  }

  unfoldable pub unwrap : Unwrapped
  unwrap =
      if not c.is_main_thread
      then declined main_thread_required
      else if is_empty request.envelope
      then declined empty_envelope
      else if ltb a.max_envelope_bytes (length request.envelope)
      then declined envelope_too_large
      else guarded
