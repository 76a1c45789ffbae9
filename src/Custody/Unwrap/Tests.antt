-- ===== src/Custody/Unwrap/Tests.antt =====
-- The adapter on a simulated system, and the theorems at concrete inputs.
use sacrysty.Prelude.{
  ℕ, zero, suc, ◌+◌, ap, false, true, false, none, some, ◌≤◌, [], ◌∷◌, ◌≡◌, refl, codes, pos, Str,
  Bytes, List, length, str_eq, mem, starts_with, ◌+ℤ◌, ◌-ℤ◌, if◌then◌else◌,
}
use sacrysty.Json.{text, Fields, has, insert, lookup, as_dict, Value, set_eq, keys}
use sacrysty.StrictJson.{decode_strict_json, loads, ok}
use sacrysty.StrictJson.Utf8.{decode_utf8, decode_from}
use sacrysty.StrictJson.Scan.{
  object_without_duplicate_members, scan_value, token, skip, closes_at_once, member_name, separator,
  collect, colon, opened,
}
use sacrysty.StrictJson.Strings.{scan_string, scan_units, join_surrogates}
use sacrysty.ProcessGroups.{
  Posix, Event, slept, Reply, fails, esrch, eperm, has_exited, gone, sent, terminate_and_reap,
  leader_exited_unreaped, waitid, signal_all, signal_owned_group, signal_group, killpg, grace,
  clock, final_reap, reap_leader, wait, wait_for_group_absence, absence_loop, absence_turn,
  check_and_settle, finish_exited,
}
use sacrysty.ProcessGroups.Ownership.{IsDisciplined}
use sacrysty.Custody.{CustodyRequest, CustodyResult}
use sacrysty.Custody.Configure.{
  Adapter, finite, real, int_argument, adapter, configure, normalize_timeout_seconds, IsConfigured,
  configure-IsConfigured,
}
use sacrysty.Custody.Environment.{
  Env, scrub_environment, keep_allowed, env_get, is_set, allowed, scrub_environment-get,
}
use sacrysty.Custody.Exchange.{
  sigint, sigterm, stdout, stderr, accepts, offers, stdin_ready, stream_ready, Round, Pipes,
  exchanged, bounded_communicate, exchange_loop, turn, pause, await_exit, on_events, on_event,
  on_stdin, on_stream, write_chunk, read_chunk,
}
use sacrysty.Custody.Exchange.Delivery.{bounded_communicate-delivers}
use sacrysty.Custody.Message.{check_message, check_members, good, eq_text, from_hex, plaintext_of}
use sacrysty.Custody.Unwrap.{
  Caller, World, unwrap, admitted, guarded, fly, spawn, after_spawn, communicate, arrives,
  clean_flight, terminate_worker, conclude, propagate_cancellation, result, type_error, killed,
  fresh, released, is_stopped,
}
use sacrysty.Custody.Unwrap.Signals.{
  default, ignored, foreign, disposition, block, install, deferring, restore_mask, restore_handlers,
}
use sacrysty.Custody.Unwrap.Admission.{IsAdmitted, check_message-IsAdmitted}
use sacrysty.Custody.Unwrap.Restoration.{
  caller_signals, unwrap_restores, foreign_handler_unrestored,
}
use sacrysty.Custody.Unwrap.Worker.{Returns, unwrap-Returns}
use sacrysty.Custody.Unwrap.Group.{unwrap-IsDisciplined}

-- The clock advances by one with each call, and by the time slept.
abbrev ticks : List Event → ℕ
ticks [] = 0
ticks (slept d ∷ t) = suc (d + ticks t)
ticks (_ ∷ t) = suc (ticks t)

-- The leader has exited, and the system denies a nonzero signal but knows that the group is gone.
abbrev group_reply : List Event → ℕ → Reply
group_reply t zero = fails esrch
group_reply t (suc n) = fails eperm

abbrev os : Posix
os = record {
  on_killpg = group_reply;
  on_waitid = λ t. has_exited;
  on_wait = λ t seconds. gone (pos 0);
  on_kill = λ t. sent;
  monotonic = ticks;
}

-- A stand-in for the digest.
abbrev digest : Bytes → Str
digest p = p

abbrev message : Bytes
message =
    codes
      "{\"status\":\"ok\",\"plaintext\":\"2a\",\"plaintext_sha256\":\"*\",\"profile_revision\":\"p\",\"plugin_digest\":\"q\",\"age_digest\":\"a\",\"uv_mode\":\"pin\",\"timing_class\":\"bounded\"}"

abbrev request : CustodyRequest
request = record {
  envelope = 7 ∷ [];
  profile_revision = codes "p";
  plugin_digest = codes "q";
  age_digest = codes "a";
}

abbrev admitted_result : CustodyResult
admitted_result = record {
  plaintext = 42 ∷ [];
  evidence = record {
    result = codes "ok";
    uv_mode = text (codes "pin");
    timing_class = text (codes "bounded");
    profile_revision = text (codes "p");
    plugin_digest = text (codes "q");
    age_digest = text (codes "a");
    plaintext_sha256 = codes "*";
  };
}

abbrev settings : Adapter
settings = record {
  command = codes "worker" ∷ [];
  timeout_seconds = 1000;
  max_envelope_bytes = 10;
  max_output_bytes = 1000;
  environment = [];
}

abbrev caller : Caller
caller = record {
  is_main_thread = true;
  mask = record { int_blocked = false; term_blocked = true };
  on_int = default;
  on_term = ignored;
}

abbrev rounds : List Round
rounds =
    record {
      cancellation = none;
      events = stdin_ready (accepts 1) ∷ stream_ready stdout (offers message) ∷ [];
    }
    ∷ record {
      cancellation = none;
      events = stream_ready stdout (offers []) ∷ stream_ready stderr (offers []) ∷ [];
    }
    ∷ []

abbrev world : World
world = record {
  early = [];
  spawning = [];
  late = sigterm ∷ [];
  held_int = false;
  held_term = true;
  spawns = true;
  pipes_available = true;
  rounds = rounds;
}

check_sample : check_message digest request message ≡ good admitted_result
unfolding check_message check_members eq_text from_hex plaintext_of mem set_eq decode_strict_json
    decode_utf8 decode_from loads starts_with scan_value token skip closes_at_once member_name
    scan_string scan_units join_surrogates separator ◌+ℤ◌ ◌-ℤ◌ has insert lookup keys str_eq collect
    colon opened object_without_duplicate_members
check_sample = refl

run_sample : (unwrap os 100 digest settings caller world request).ending ≡ result admitted_result
unfolding unwrap guarded fly spawn after_spawn communicate arrives clean_flight terminate_worker
    conclude propagate_cancellation block install restore_mask restore_handlers bounded_communicate
    exchange_loop turn pause await_exit on_events on_event on_stdin on_stream write_chunk read_chunk
    terminate_and_reap leader_exited_unreaped waitid signal_all signal_owned_group signal_group
    killpg grace clock final_reap reap_leader wait wait_for_group_absence absence_loop absence_turn
    check_and_settle finish_exited released
run_sample = ap admitted check_sample

check_message-IsAdmitted_example :
    (v : Value) × (d : Fields) × (decode_strict_json message ≡ ok v)
    × (as_dict v ≡ some d)
    × IsAdmitted digest request d admitted_result
check_message-IsAdmitted_example = check_message-IsAdmitted digest request message check_sample

unwrap-Returns_example :
    Returns os settings caller world request 100 digest admitted_result
      (unwrap os 100 digest settings caller world request)
unwrap-Returns_example = unwrap-Returns os settings caller world request 100 digest run_sample

unwrap-IsDisciplined_example :
    IsDisciplined (unwrap os 100 digest settings caller world request).process.trace
unwrap-IsDisciplined_example = unwrap-IsDisciplined os settings caller world request 100 digest

unwrap_restores_example :
    (unwrap os 100 digest settings caller world request).signals ≡ caller_signals caller
unwrap_restores_example = unwrap_restores os 100 digest settings caller world request refl refl

abbrev embedded : Caller
embedded = record caller { on_int = foreign }

embedded_stops :
    is_stopped
      (fly os settings embedded world request).attempt
      (clean_flight os 100 (fly os settings embedded world request)).0
    ≡ false
unfolding fly spawn after_spawn communicate arrives clean_flight terminate_worker
    bounded_communicate exchange_loop turn pause await_exit on_events on_event on_stdin on_stream
    write_chunk read_chunk terminate_and_reap leader_exited_unreaped waitid signal_all
    signal_owned_group signal_group killpg grace clock final_reap reap_leader wait
    wait_for_group_absence absence_loop absence_turn check_and_settle finish_exited
embedded_stops = refl

foreign_handler_unrestored_example :
    let u = unwrap os 100 digest settings embedded world request in
    (u.ending ≡ type_error)
    × (u.signals.mask.int_blocked ≡ true)
    × (u.signals.mask.term_blocked ≡ true)
    × (disposition u.signals sigint ≡ deferring)
foreign_handler_unrestored_example =
    foreign_handler_unrestored os 100 digest settings embedded world request sigint refl refl refl
      refl embedded_stops

-- A signal during the exchange.
abbrev interrupted : World
interrupted = record world { rounds = record { cancellation = some sigint; events = [] } ∷ [] }

run_interrupted : (unwrap os 100 digest settings caller interrupted request).ending ≡ killed sigint
unfolding unwrap guarded fly spawn after_spawn communicate arrives clean_flight terminate_worker
    conclude propagate_cancellation block install restore_mask restore_handlers bounded_communicate
    exchange_loop turn pause await_exit on_events on_event on_stdin on_stream write_chunk read_chunk
    terminate_and_reap leader_exited_unreaped waitid signal_all signal_owned_group signal_group
    killpg grace clock final_reap reap_leader wait wait_for_group_absence absence_loop absence_turn
    check_and_settle finish_exited released
run_interrupted = refl

abbrev closed_pipes : Pipes
closed_pipes = record {
  input_offset = 1;
  delivered = 7 ∷ [];
  out = message;
  err = [];
  stdin_open = false;
  stdout_open = false;
  stderr_open = false;
}

exchange_sample :
    (bounded_communicate os true (7 ∷ []) 1000 1000 rounds fresh).0 ≡ exchanged closed_pipes
unfolding bounded_communicate exchange_loop turn pause await_exit on_events on_event on_stdin
    on_stream write_chunk read_chunk leader_exited_unreaped waitid clock
exchange_sample = refl

bounded_communicate-delivers_example :
    (closed_pipes.delivered ≡ 7 ∷ [])
    × (length closed_pipes.out ≤ 1000)
    × (length closed_pipes.err ≤ 1000)
bounded_communicate-delivers_example =
    bounded_communicate-delivers os true (7 ∷ []) 1000 1000 rounds fresh closed_pipes
      exchange_sample

abbrev source : Env
source = (codes "HOME", codes "/h") ∷ (codes "SECRET", codes "s") ∷ []

abbrev scrubbed : Env
scrubbed = (codes "HOME", codes "/h") ∷ []

scrub_sample : scrub_environment (some source) [] ≡ some scrubbed
unfolding scrub_environment keep_allowed env_get mem str_eq
scrub_sample = refl

scrub_environment-get_example :
    (env_get (codes "SECRET") scrubbed
      ≡ (if mem (codes "SECRET") allowed then env_get (codes "SECRET") source else none))
    × (is_set (env_get (codes "AGEDEBUG") source) ≡ false)
    × (is_set (env_get (codes "RUST_LOG") source) ≡ false)
scrub_environment-get_example =
    scrub_environment-get (some source) [] scrubbed (codes "SECRET") scrub_sample

abbrev configured : Adapter
configured = record settings { environment = scrubbed }

configure_sample :
    configure
      (codes "worker" ∷ [])
      (real (some (finite (pos 1000))))
      (int_argument (pos 10))
      (int_argument (pos 1000))
      (some source)
      []
    ≡ adapter configured
unfolding configure scrub_environment keep_allowed env_get mem str_eq normalize_timeout_seconds
configure_sample = refl

configure-IsConfigured_example :
    IsConfigured configured × (scrub_environment (some source) [] ≡ some scrubbed)
configure-IsConfigured_example =
    configure-IsConfigured (codes "worker" ∷ []) (real (some (finite (pos 1000))))
      (int_argument (pos 10)) (int_argument (pos 1000)) (some source) [] configured configure_sample
