-- ===== src/Evidence/Run.antt =====
-- `run_process` from the start of the process to its end, with its receipts, and `main`.
pub mod Receipts
pub mod Accounts
pub mod Handling
pub mod Outcome
pub mod Finish
use sacrysty.Prelude.{
  ℕ, zero, suc, ◌+◌, ◌-◌, Bool, true, false, ◌&&◌, ◌||◌, not, Option, none, some, List, [], ◌∷◌,
  ◌++◌, map, ℤ, pos, negsuc, eq_ℤ, Str, Bytes, codes, str_eq, leb, ltb, is_empty, decimal,
  if◌then◌else◌, ◌==◌,
}
use sacrysty.ProcessGroups.{Posix, Popen, clock}
use sacrysty.Custody.Environment.{Env}
use sacrysty.Evidence.{
  ProcessLimits, ProcessOutputPaths, file_limit_bytes, kill_grace, process_cleanup_receipt,
  runner_cleanup_receipt, cleanup_receipt_path, runner_receipt_path, runner_trace_path, is_probe,
  normalized_status, cancellation_requested,
}
use sacrysty.Evidence.Files.{
  Disk, Denials, BoundaryError, not_started, pipes_unavailable, interrupted, no_exit_status,
  file_bound_failed, file_limit, setup_failed, cleanup_unconfirmed, cleanup_receipt_unwritable,
  runner_receipt_invalid, runner_receipt_unavailable, status_unwritable, ownership_lost,
  with_lifecycle, Result, done, raises, Io, ◌>>=◌, ◌>>◌, give, throw, demand, from_option, create,
  read_file, unlink,
}
use sacrysty.Evidence.Receipt.{write_cleanup_receipt}
use sacrysty.Evidence.Trace.{Platform, runner_lifecycle_diagnostic, discard_runner_trace}
use sacrysty.Evidence.Setup.{Paths, prepare}
use sacrysty.Evidence.Watch.{
  Failure, boundary, os_error, pending, out_of_fuel, Ready, Round, Session, Progress, next, stop,
  any_open, capture_ready_streams, clean_up_process, watch, with_process,
}

-- A file that `os.walk` finds: whether it is regular, and its size.
pub record Metadata : Type 0 where
  pub is_regular : Bool
  pub size : ℕ

-- What happens: whether the marker is there at first; whether Popen succeeds, whether SIGTERM comes
-- meanwhile, and whether there are pipes; the turns of the loop; the events of the last drain; what
-- the selected process leaves on the disk; and the files that are walked, none for an OSError.
pub record World : Type 0 where
  pub marker : Bool
  pub spawns : Bool
  pub signalled : Bool
  pub pipes_available : Bool
  pub rounds : List Round
  pub drains : List (List Ready)
  pub leaves : Disk → Disk
  pub walk : List (Option Metadata)

unfoldable pub regular_file_limit_reached : List (Option Metadata) → Result Bool
regular_file_limit_reached [] = done false
regular_file_limit_reached (none ∷ files) = raises file_bound_failed
regular_file_limit_reached (some m ∷ files) =
    let rest = regular_file_limit_reached files in
    if m.is_regular && leb file_limit_bytes m.size then done true else rest

pub data Ending : Type 0 where
  exits : ℕ → Ending
  fails : Failure → Ending

-- How a run ends: its session, where the process was started, and the disk.
pub record Report : Type 0 where
  pub ending : Ending
  pub session : Option Session
  pub disk : Disk

abbrev pub fresh : Session
fresh = record {
  process = record { returncode = none; trace = [] };
  cleanup_complete = false;
  out = [];
  err = [];
  out_open = true;
  err_open = true;
}

-- The process before its streams are registered.
abbrev pub unregistered : Session
unregistered = record fresh { out_open = false; err_open = false }

abbrev pub is_125 : Option ℤ → Bool
is_125 none = false
is_125 (some code) = eq_ℤ code (pos 125)

module _ (denials : Denials) (mode : Str) (p : ProcessOutputPaths) where
  abbrev compare_receipt : Option Bytes → Io (Unit {0})
  compare_receipt none = throw runner_receipt_unavailable
  compare_receipt (some bytes) = demand (str_eq bytes runner_cleanup_receipt) runner_receipt_invalid

  unfoldable pub consume_runner_receipt : Str → Io (Unit {0})
  consume_runner_receipt path d =
      (compare_receipt (read_file denials path d) >> unlink denials path runner_receipt_unavailable)
        d

  -- A receipt that cannot be consumed is reported with the runner's trace.
  abbrev pub with_trace : Result (Unit {0}) → Io (Unit {0})
  with_trace (done u) d = (done tt, discard_runner_trace denials (runner_trace_path p.status) d)
  with_trace (raises e) d = (
    raises (with_lifecycle e (runner_lifecycle_diagnostic denials (runner_trace_path p.status) d)),
    d,
  )

  unfoldable pub settle_runner_receipt : Io (Unit {0})
  unfolding consume_runner_receipt
  settle_runner_receipt d =
      let (r, d') = consume_runner_receipt (runner_receipt_path p.status) d in with_trace r d'

  abbrev pub owes_runner_receipt : Option Session → Bool
  owes_runner_receipt none = false
  owes_runner_receipt (some s) = is_probe mode && not (is_125 s.process.returncode)

  abbrev pub is_confirmed : Option Session → Bool
  is_confirmed none = true
  is_confirmed (some s) = s.cleanup_complete

  unfoldable pub record_completed_cleanup : Option Session → Io (Unit {0})
  unfolding settle_runner_receipt
  record_completed_cleanup o = do
    demand (is_confirmed o) cleanup_unconfirmed
    (if owes_runner_receipt o then settle_runner_receipt else give tt)
    write_cleanup_receipt denials p.status

  -- What follows the loop.
  unfoldable pub finish : List (Option Metadata) → Session → Io ℕ
  unfolding record_completed_cleanup
  finish walk s = do
    returncode ← from_option s.process.returncode no_exit_status
    reached ← λ d. (regular_file_limit_reached walk, d)
    demand (not reached) file_limit
    let child_status = normalized_status returncode
    demand (not (child_status == 125)) setup_failed
    record_completed_cleanup (some s)
    create denials p.status (decimal child_status ++ (10 ∷ [])) status_unwritable
    give child_status

  abbrev pub ended : Session → Result ℕ × Disk → Report
  ended s (done n, d) = record { ending = exits n; session = some s; disk = d }
  ended s (raises e, d) = record { ending = fails (boundary e); session = some s; disk = d }

  -- A turn's marker, where the mode heeds it.
  abbrev pub heed_marker : Round → Round
  heed_marker r = record r { marker = cancellation_requested mode r.marker }

  module _ (os : Posix) (fuel : ℕ) (limits : ProcessLimits) where
    abbrev is_ownership_lost : Failure → Bool
    is_ownership_lost (boundary ownership_lost) = true
    is_ownership_lost _ = false

    abbrev is_none : Option ℤ → Bool
    is_none none = true
    is_none (some code) = false

    -- The cleanup of the except clause, where the leader is still to be reaped.
    unfoldable pub clean_up_failed : Failure → Session → Progress × Session
    clean_up_failed f s =
        if not s.cleanup_complete && is_none s.process.returncode && not (is_ownership_lost f)
        then clean_up_process os fuel limits s
        else (next, s)

    abbrev is_nonempty : List Ready → Bool
    is_nonempty [] = false
    is_nonempty (e ∷ events) = true

    -- The drain of the streams until its deadline, or until select returns nothing.
    unfoldable pub drain : ℕ → List (List Ready) → Session → Progress × Session
    drain deadline [] s = (if any_open s then stop pending else next, s)
    drain deadline (events ∷ more) s =
        let (now, q) = clock os s.process in
        let timed = with_process q s in
        let (progress, s') = capture_ready_streams events timed in
        elim (any_open s) [
          | false ↦ (next, s)
          | true ↦ elim (leb deadline now) [
            | true ↦ (next, timed)
            | false ↦ elim progress [
              | stop f ↦ (stop f, s')
              | next ↦ if is_nonempty events then drain deadline more s' else (next, s')
            ]
          ]
        ]

    abbrev pub reported : Failure → Option Session → Result (Unit {0}) × Disk → Report
    reported f o (done u, d) = record { ending = fails f; session = o; disk = d }
    reported f o (raises e, d) = record { ending = fails (boundary e); session = o; disk = d }

    abbrev pub left_as_is : Failure → Session → Disk → Report
    left_as_is f s d = record { ending = fails f; session = some s; disk = d }

    abbrev pub after_drain : Failure → Progress × Session → Disk → Report
    after_drain f (next, s) d = reported f (some s) (record_completed_cleanup (some s) d)
    after_drain f (stop g, s) d = left_as_is g s d

    unfoldable pub drain_and_report : Failure → List (List Ready) → Session → Disk → Report
    unfolding drain
    drain_and_report f drains s d =
        let (now, q) = clock os s.process in
        if s.cleanup_complete
        then after_drain f (drain (now + kill_grace) drains (with_process q s)) d
        else left_as_is f s d

    abbrev pub after_cleanup : Failure → List (List Ready) → Progress × Session → Disk → Report
    after_cleanup f drains (next, s) d = drain_and_report f drains s d
    after_cleanup f drains (stop g, s) d = left_as_is g s d

    -- `except BaseException as original_error`, with a process.
    unfoldable pub handle : Failure → List (List Ready) → Session → Disk → Report
    unfolding clean_up_failed drain_and_report
    handle f drains s d = after_cleanup f drains (clean_up_failed f s) d

    abbrev pub is_model_end : Failure → Bool
    is_model_end pending = true
    is_model_end out_of_fuel = true
    is_model_end _ = false

    -- The end of the model's rounds or fuel is no exception of the program.
    abbrev pub handle_failure : Failure → List (List Ready) → Session → Disk → Report
    handle_failure f drains s d = if is_model_end f then left_as_is f s d else handle f drains s d

    abbrev pub finished : List (List Ready) → Session → Result ℕ × Disk → Report
    finished drains s (done n, d) = record { ending = exits n; session = some s; disk = d }
    finished drains s (raises e, d) = handle_failure (boundary e) drains s d

    abbrev pub watched : World → Progress × Session → Disk → Report
    watched w (next, s) d = finished w.drains s (finish w.walk s (w.leaves d))
    watched w (stop f, s) d = handle_failure f w.drains s (w.leaves d)

    unfoldable pub run_started : World → Disk → Report
    unfolding handle finish
    run_started w d =
        if w.signalled
        then handle_failure (boundary interrupted) w.drains unregistered (w.leaves d)
        else if not w.pipes_available
        then handle_failure (boundary pipes_unavailable) w.drains unregistered (w.leaves d)
        else (let (now, q) = clock os fresh.process in
            watched w
              (watch os fuel limits (now + limits.timeout_seconds) (map heed_marker w.rounds)
                (with_process q fresh))
              d)

    -- The except clause with no process.
    abbrev unstarted : BoundaryError → Disk → Report
    unstarted e d = reported (boundary e) none (record_completed_cleanup none d)

    unfoldable pub run_prepared : World → Disk → Report
    unfolding run_started
    run_prepared w d =
        if cancellation_requested mode w.marker
        then unstarted interrupted d
        else if w.spawns
        then run_started w d
        else unstarted (if w.signalled then interrupted else not_started) d

module _ (os : Posix) (fuel : ℕ) (denials : Denials) (ps : Paths) (platform : Platform)
    (ambient : Env) (w : World) where
  abbrev prepared : Str → ProcessOutputPaths → Result (ProcessLimits × Env) × Disk → Report
  prepared mode p (done (limits, environment), d) = run_prepared denials mode p os fuel limits w d
  prepared mode p (raises e, d) = record { ending = fails (boundary e); session = none; disk = d }

  unfoldable pub run_process : Str → ProcessOutputPaths → List Str → Disk → Report
  unfolding run_prepared
  run_process mode p command d =
      prepared mode p (prepare denials ps platform mode ambient p command d)

  -- The exit status of the helper, none where an exception is not caught.
  abbrev pub exit_status : Ending → Option ℕ
  exit_status (exits n) = some 0
  exit_status (fails (boundary e)) = some 1
  exit_status (fails f) = none

  unfoldable pub main : List Str → Disk → Option ℕ × Disk
  main (mode ∷ status ∷ stdout ∷ stderr ∷ separator ∷ first ∷ rest) d =
      if str_eq separator (codes "--")
      then (let report =
            run_process mode (record { status = status; stdout = stdout; stderr = stderr })
              (first ∷ rest) d in
          (exit_status report.ending, report.disk))
      else (some 64, d)
  main _ d = (some 64, d)
