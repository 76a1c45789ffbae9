-- ===== src/Evidence/Tests.antt =====
-- A tool's run on a small simulated system, and the theorems at concrete inputs.
use sacrysty.Prelude.{
  ℕ, true, false, ◌≡◌, ◌≢◌, ◌≤◌, zero, suc, refl, ◌⊎◌, Option, some, none, List, [], ◌∷◌, ◌++◌, pos,
  Str, codes, length, ◌↔◌, str_eq, mem, digits_in, arith,
}
use sacrysty.ProcessGroups.{
  Posix, Event, Reply, fails, esrch, eperm, has_exited, gone, sent, leader_exited_unreaped, clock,
  waitid, terminate_and_reap, signal_all, signal_owned_group, signal_group, killpg,
  check_and_settle, finish_exited, wait, wait_for_group_absence, absence_loop, absence_turn,
}
use sacrysty.Evidence.{
  ProcessOutputPaths, tool_limits, process_cleanup_receipt, stream_limit_bytes, normalized_status,
  limits_for, cancellation_requested,
}
use sacrysty.Evidence.Files.{
  stdout, stderr, Disk, Denials, status_unwritable, cleanup_receipt_unwritable, content, create,
  make_directory, ◌>>◌, read_file, unlink, done,
}
use sacrysty.Custody.Environment.{Env, env_get}
use sacrysty.Evidence.Setup.{Paths, prepare, selected_environment, environment_of, make_directories}
use sacrysty.Evidence.Setup.Ambient.{AgreesFor, prepare-ambient}
use sacrysty.Evidence.Trace.{Platform, first_line, helper_runtime_trace, lifecycle_entries}
use sacrysty.Evidence.Trace.Pattern.{full_match, Matches}
use sacrysty.Evidence.Trace.Matching.{full_match_lem}
use sacrysty.Evidence.Trace.RoundTrip.{lifecycle_entries-first_line}
use sacrysty.Evidence.Receipt.{
  write_cleanup_receipt, consume_cleanup_receipt, write-consume, consume_cleanup_receipt-content,
}
use sacrysty.Evidence.Watch.{
  boundary, offers, read_blocks, Round, Session, watch, capture_ready_streams,
}
use sacrysty.Evidence.Watch.Sessions.{IsCleaned, IsSound}
use sacrysty.Evidence.Watch.Machine.{view, Refines}
use sacrysty.Evidence.Watch.Refinement.{watch-Refines}
use sacrysty.Evidence.Run.{
  fresh, drain, run_process, World, Report, exits, fails, run_prepared, main,
  regular_file_limit_reached,
}
use sacrysty.Evidence.Run.Receipts.{receipt}
use sacrysty.Evidence.Run.Finish.{Finished}
use sacrysty.Evidence.Run.Accounts.{Accounted}
use sacrysty.Evidence.Run.Outcome.{
  run_prepared-IsFinished, run_prepared-receipt, run_prepared-bounds,
  run_prepared-status_unwritable, left_by, Attested, main-Attested,
}

abbrev absent_reply : List Event → ℕ → Reply
absent_reply t zero = fails esrch
absent_reply t (suc n) = fails eperm

-- The leader has exited, and its group is gone.
abbrev exited : Posix
exited = record {
  on_killpg = absent_reply;
  on_waitid = λ t. has_exited;
  on_wait = λ t seconds. gone (pos 3);
  on_kill = λ t. sent;
  monotonic = length;
}

abbrev permissive : Denials
permissive = record { creating = λ path. false; reading = λ path. false; removing = λ path. false }

abbrev outputs : ProcessOutputPaths
outputs = record { status = codes "o/s"; stdout = codes "o/out"; stderr = codes "o/err" }

abbrev empty_disk : Disk
empty_disk = record { files = []; directories = [] }

abbrev quiet : List Round
quiet =
    record {
      marker = false;
      signalled = false;
      events =
          record { stream = stdout; reply = offers (codes "hi") }
          ∷ record { stream = stderr; reply = read_blocks }
          ∷ [];
    }
    ∷ record {
      marker = false;
      signalled = false;
      events =
          record { stream = stdout; reply = offers [] }
          ∷ record { stream = stderr; reply = offers [] }
          ∷ [];
    }
    ∷ []

abbrev plain_world : World
plain_world = record {
  marker = false;
  spawns = true;
  signalled = false;
  pipes_available = true;
  rounds = quiet;
  drains = [];
  leaves = λ d. d;
  walk = [];
}

abbrev tool_run : Report
tool_run =
    run_prepared permissive (codes "tool") outputs exited 5 tool_limits plain_world empty_disk

tool_run-exits : tool_run.ending ≡ exits 3
unfolding run_prepared watch leader_exited_unreaped clock waitid terminate_and_reap signal_all
    signal_owned_group signal_group killpg check_and_settle finish_exited wait
    wait_for_group_absence absence_loop absence_turn capture_ready_streams content create
    normalized_status regular_file_limit_reached str_eq mem cancellation_requested
    write_cleanup_receipt
tool_run-exits = refl

abbrev session_of : Option Session → Session
session_of none = fresh
session_of (some s) = s

tool_run-session : tool_run.session ≡ some (session_of tool_run.session)
unfolding run_prepared watch leader_exited_unreaped clock waitid terminate_and_reap signal_all
    signal_owned_group signal_group killpg check_and_settle finish_exited wait
    wait_for_group_absence absence_loop absence_turn capture_ready_streams content create
    normalized_status regular_file_limit_reached str_eq mem cancellation_requested
    write_cleanup_receipt
tool_run-session = refl

-- The status file cannot be written.
abbrev no_status : Denials
no_status = record {
  creating = str_eq (codes "o/s");
  reading = λ path. false;
  removing = λ path. false;
}

abbrev refused_run : Report
refused_run =
    run_prepared no_status (codes "tool") outputs exited 5 tool_limits plain_world empty_disk

refused_run-fails : refused_run.ending ≡ fails (boundary cleanup_receipt_unwritable)
unfolding run_prepared watch leader_exited_unreaped clock waitid terminate_and_reap signal_all
    signal_owned_group signal_group killpg check_and_settle finish_exited wait
    wait_for_group_absence absence_loop absence_turn capture_ready_streams content create
    normalized_status regular_file_limit_reached str_eq mem cancellation_requested
    write_cleanup_receipt drain
refused_run-fails = refl

run_prepared-IsFinished_example :
    (s : Session) × ((tool_run.session ≡ some s)
      × (Finished permissive (codes "tool") outputs s 3 tool_run.disk × IsCleaned s.process))
run_prepared-IsFinished_example =
    run_prepared-IsFinished permissive (codes "tool") outputs exited 5 tool_limits plain_world
      empty_disk 3 tool_run-exits

run_prepared-receipt_example :
    (receipt permissive (codes "tool") outputs tool_run.disk
      ≡ receipt permissive
          (codes "tool")
          outputs
          (left_by permissive (codes "tool") outputs exited 5 tool_limits plain_world empty_disk))
    ⊎ Accounted permissive (codes "tool") outputs tool_run.session
run_prepared-receipt_example =
    run_prepared-receipt permissive (codes "tool") outputs exited 5 tool_limits plain_world
      empty_disk

run_prepared-bounds_example :
    (length (session_of tool_run.session).out ≤ stream_limit_bytes)
    × (length (session_of tool_run.session).err ≤ stream_limit_bytes)
run_prepared-bounds_example =
    run_prepared-bounds permissive (codes "tool") outputs exited 5 tool_limits plain_world
      empty_disk (session_of tool_run.session) tool_run-session

run_prepared-status_unwritable_example : refused_run.ending ≢ fails (boundary status_unwritable)
run_prepared-status_unwritable_example =
    run_prepared-status_unwritable no_status (codes "tool") outputs exited 5 tool_limits plain_world
      empty_disk

abbrev flat_paths : Paths
flat_paths = record {
  resolve = λ path. path;
  resolved_parent = λ path. codes "o";
  parent = λ path. codes "o";
  name = λ path. codes "s";
  below = λ directory name. directory ++ (codes "/" ++ name);
}

abbrev linux : Platform
linux = record { version = (3, 13, 0); name = codes "linux"; pid = 42; uid = 1000 }

abbrev ambient : Env
ambient = (codes "PATH", codes "/bin") ∷ []

abbrev arguments : List Str
arguments =
    codes "tool" ∷ codes "o/s" ∷ codes "o/out" ∷ codes "o/err" ∷ codes "--" ∷ codes "sq" ∷ []

abbrev tool_main : Option ℕ × Disk
tool_main = main exited 5 permissive flat_paths linux ambient plain_world arguments empty_disk

tool_main-exits : tool_main.0 ≡ some 0
unfolding env_get main run_process prepare selected_environment environment_of make_directories
    make_directory limits_for run_prepared watch leader_exited_unreaped clock waitid
    terminate_and_reap signal_all signal_owned_group signal_group killpg check_and_settle
    finish_exited wait wait_for_group_absence absence_loop absence_turn capture_ready_streams
    content create normalized_status regular_file_limit_reached str_eq mem cancellation_requested
    write_cleanup_receipt
tool_main-exits = refl

main-Attested_example :
    Attested exited 5 permissive flat_paths linux ambient plain_world outputs tool_main.1
main-Attested_example =
    main-Attested exited 5 permissive flat_paths linux ambient plain_world (codes "tool")
      (codes "o/s") (codes "o/out") (codes "o/err") (codes "--") (codes "sq") [] empty_disk
      tool_main-exits

lifecycle_entries-first_line_example :
    lifecycle_entries (first_line linux ++ (10 ∷ [])) ≡ first_line linux ∷ []
unfolding digits_in
lifecycle_entries-first_line_example = lifecycle_entries-first_line linux refl refl (omega arith)

full_match_lem_example :
    (full_match helper_runtime_trace (first_line linux) ≡ true)
    ↔ Matches helper_runtime_trace (first_line linux)
full_match_lem_example = full_match_lem helper_runtime_trace (first_line linux) refl

write-consume_example :
    (write_cleanup_receipt permissive (codes "o/s")
        >> consume_cleanup_receipt permissive (codes "o/s"))
      empty_disk
    ≡ (done tt, empty_disk)
unfolding content mem
write-consume_example = write-consume permissive (codes "o/s") empty_disk refl refl refl refl

-- The disk of a run that is complete.
abbrev received : Disk
received = record { files = (codes "o/s.cleanup", process_cleanup_receipt) ∷ []; directories = [] }

consume_cleanup_receipt-content_example :
    (content (codes "o/s.cleanup") received.files ≡ some process_cleanup_receipt)
    × (content
          (codes "o/s.cleanup")
          (consume_cleanup_receipt permissive (codes "o/s") received).1.files
        ≡ none)
unfolding consume_cleanup_receipt read_file unlink content str_eq
consume_cleanup_receipt-content_example =
    consume_cleanup_receipt-content permissive (codes "o/s") received refl

fresh-IsSound : IsSound fresh
fresh-IsSound = record { out_within = omega arith; err_within = omega arith; clean = tt }

watch-Refines_example :
    Refines (view fresh) (watch exited 5 tool_limits 120_000_000_000 quiet fresh)
watch-Refines_example = watch-Refines exited 5 tool_limits 120_000_000_000 quiet fresh fresh-IsSound

-- An environment that holds a name more.
abbrev other_ambient : Env
other_ambient = (codes "SECRET", codes "x") ∷ ambient

ambients_agree : AgreesFor (codes "probe") ambient other_ambient
unfolding env_get str_eq
ambients_agree = record { path = refl; tools = λ h. (refl, refl) }

prepare-ambient_example :
    prepare permissive flat_paths linux (codes "probe") ambient outputs (codes "sq" ∷ []) empty_disk
    ≡ prepare permissive flat_paths linux
        (codes "probe")
        other_ambient
        outputs
        (codes "sq" ∷ [])
        empty_disk
prepare-ambient_example =
    prepare-ambient permissive flat_paths linux (codes "probe") outputs ambient other_ambient
      (codes "sq" ∷ []) empty_disk ambients_agree
