-- ===== src/Evidence/Watch.antt =====
-- The loop of `run_process` over the process and its two streams.
pub mod Holds
pub mod Sessions
pub mod Machine
pub mod Refinement
use sacrysty.Prelude.{
  ℕ, zero, suc, ◌+◌, ◌-◌, min, Bool, true, false, ◌&&◌, ◌||◌, not, Option, none, some, List, [],
  ◌∷◌, ◌++◌, ℤ, pos, Str, Bytes, length, take, is_empty, leb, ltb, if◌then◌else◌,
}
use sacrysty.ProcessGroups.{
  Posix, Popen, Outcome, returned, raised, stalled, GroupError, leader_exited_unreaped,
  terminate_and_reap, clock, sleep, poll_interval,
}
use sacrysty.Evidence.{ProcessLimits, stream_limit_bytes, kill_grace, signal_steps}
use sacrysty.Evidence.Files.{
  Stream, stdout, stderr, BoundaryError, stream_limit, timed_out, interrupted, ownership_lost,
  group,
}

-- An error of this boundary, an exception that it does not name (an OSError of os.read), the end of
-- the rounds that the world gives, or of the cleanup's fuel.
pub data Failure : Type 0 where
  boundary : BoundaryError → Failure
  os_error pending out_of_fuel : Failure

-- os.read of a ready stream.
pub data ReadReply : Type 0 where
  offers : Bytes → ReadReply
  read_blocks read_fails : ReadReply

pub record Ready : Type 0 where
  pub stream : Stream
  pub reply : ReadReply

-- One turn: whether a cancellation is requested, whether SIGTERM comes while the turn waits,
-- and the streams that select returns.
pub record Round : Type 0 where
  pub marker : Bool
  pub signalled : Bool
  pub events : List Ready

-- The process, whether its cleanup is complete, what its output files hold, and the streams that
-- are open.
pub record Session : Type 0 where
  pub process : Popen
  pub cleanup_complete : Bool
  pub out : Bytes
  pub err : Bytes
  pub out_open : Bool
  pub err_open : Bool

pub data Progress : Type 0 where
  next : Progress
  stop : Failure → Progress

abbrev pub chunk_bytes : ℕ
chunk_bytes = 65536

abbrev pub captured : Stream → Session → Bytes
captured stdout s = s.out
captured stderr s = s.err

abbrev pub is_open : Stream → Session → Bool
is_open stdout s = s.out_open
is_open stderr s = s.err_open

abbrev pub capture : Stream → Bytes → Session → Session
capture stdout bytes s = record s { out = s.out ++ bytes }
capture stderr bytes s = record s { err = s.err ++ bytes }

abbrev pub close : Stream → Session → Session
close stdout s = record s { out_open = false }
close stderr s = record s { err_open = false }

abbrev pub with_process : Popen → Session → Session
with_process p s = record s { process = p }

abbrev pub any_open : Session → Bool
any_open s = s.out_open || s.err_open

-- A chunk that was read: what fits is kept, and a byte more is an error.
unfoldable pub keep_chunk : Stream → Bytes → Session → Progress × Session
keep_chunk stream chunk s =
    let available = stream_limit_bytes - length (captured stream s) in
    let kept = capture stream (take available chunk) s in
    (if ltb available (length chunk) then stop (boundary (stream_limit stream)) else next, kept)

unfoldable pub read_stream : Stream → ReadReply → Session → Progress × Session
unfolding keep_chunk
read_stream stream (offers bytes) s =
    let chunk = take chunk_bytes bytes in
    if is_empty chunk then (next, close stream s) else keep_chunk stream chunk s
read_stream stream read_blocks s = (next, s)
read_stream stream read_fails s = (stop os_error, s)

-- A step, and what follows it where it raises nothing.
abbrev pub and_then : Progress × Session → (Session → Progress × Session) → Progress × Session
and_then (next, s) more = more s
and_then (stop f, s) more = (stop f, s)

-- The loop over the events of `_capture_ready_streams`; the selector returns registered streams.
unfoldable pub capture_ready_streams : List Ready → Session → Progress × Session
unfolding read_stream
capture_ready_streams [] s = (next, s)
capture_ready_streams (e ∷ events) s =
    and_then (if is_open e.stream s then read_stream e.stream e.reply s else (next, s))
      (capture_ready_streams events)

abbrev pub group_failure : GroupError → Failure
group_failure GroupError.ownership_lost = boundary ownership_lost
group_failure e = boundary (group e)

module _ (os : Posix) (fuel : ℕ) (limits : ProcessLimits) where
  abbrev pub cleaned : Outcome (Unit {0}) → Session → Progress × Session
  cleaned (returned u) s = (next, record s { cleanup_complete = true })
  cleaned (raised e) s = (stop (group_failure e), s)
  cleaned stalled s = (stop out_of_fuel, s)

  -- `_terminate_and_reap`, and the flag behind it.
  unfoldable pub clean_up_process : Session → Progress × Session
  clean_up_process s =
      let (o, p) =
        terminate_and_reap os fuel (signal_steps limits) (pos kill_grace) (pos kill_grace)
          s.process in
      cleaned o (with_process p s)

  abbrev pub after_status : Outcome Bool → Session → Progress × Session
  after_status (returned true) s = clean_up_process s
  after_status (returned false) s = (next, s)
  after_status (raised e) s = (stop (group_failure e), s)
  after_status stalled s = (stop out_of_fuel, s)

  -- `if not cleanup_complete and _leader_exited_unreaped(process)`
  unfoldable pub check_leader : Session → Progress × Session
  unfolding clean_up_process
  check_leader s =
      if s.cleanup_complete
      then (next, s)
      else (let (o, p) = leader_exited_unreaped os s.process in after_status o (with_process p s))

  -- The wait of one turn, for streams or for the leader.
  unfoldable pub await_events : ℕ → Round → Session → Progress × Session
  await_events remaining r s =
      if any_open s
      then (if r.signalled
          then (stop (boundary interrupted), s)
          else capture_ready_streams r.events s)
      else (if r.signalled
          then (stop (boundary interrupted), s)
          else (next, with_process (sleep (min poll_interval remaining) s.process).1 s))

  -- The deadline, and what follows it in a turn.
  unfoldable pub wait_until : ℕ → Round → Session → Progress × Session
  unfolding await_events
  wait_until deadline r s =
      let (now, p) = clock os s.process in
      if leb deadline now
      then (stop (boundary timed_out), with_process p s)
      else await_events (deadline - now) r (with_process p s)

  unfoldable pub turn : ℕ → Round → Session → Progress × Session
  unfolding wait_until check_leader
  turn deadline r s =
      if r.marker
      then (stop (boundary interrupted), s)
      else and_then (check_leader s) (wait_until deadline r)

  abbrev pub is_finished : Session → Bool
  is_finished s = s.cleanup_complete && not (any_open s)

  -- `while selector.get_map() or not cleanup_complete`
  unfoldable pub watch : ℕ → List Round → Session → Progress × Session
  unfolding turn
  watch deadline [] s = (if is_finished s then next else stop pending, s)
  watch deadline (r ∷ rounds) s =
      let more = and_then (turn deadline r s) (watch deadline rounds) in
      if is_finished s then (next, s) else more
