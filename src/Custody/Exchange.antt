-- ===== src/Custody/Exchange.antt =====
-- `_bounded_communicate`: the exchange with the worker over its three pipes, then the wait for its
-- exit. What the selector and the pipes do in each turn of the two loops is a list of rounds.
mod Pieces
pub mod Delivery
use sacrysty.Prelude.{
  ℕ, zero, suc, ◌+◌, ◌-◌, ◌≤◌, min, Bool, true, false, ◌&&◌, ◌||◌, not, Option, none, some, List,
  [], ◌∷◌, ◌++◌, Bytes, length, take, drop, is_empty, leb, ltb, ◌==◌, if◌then◌else◌,
}
use sacrysty.ProcessGroups.{
  Posix, Popen, Outcome, returned, raised, stalled, GroupError, ownership_lost,
  leader_exited_unreaped, clock, sleep, poll_interval,
}

pub data Signal : Type 0 where
  sigint sigterm : Signal

pub data Stream : Type 0 where
  stdout stderr : Stream

-- os.write and os.read on a ready pipe. The kernel takes a number of the bytes, or has bytes to give.
pub data WriteReply : Type 0 where
  accepts : ℕ → WriteReply
  write_blocks write_fails : WriteReply

pub data ReadReply : Type 0 where
  offers : Bytes → ReadReply
  read_blocks read_fails : ReadReply

pub data Ready : Type 0 where
  stdin_ready : WriteReply → Ready
  stream_ready : Stream → ReadReply → Ready

-- One turn: the cancellation that has been requested, and the pipes that select returns.
pub record Round : Type 0 where
  pub cancellation : Option Signal
  pub events : List Ready

pub data ExchangeError : Type 0 where
  timed_out os_error : ExchangeError
  output_limit_exceeded : Stream → ExchangeError
  cancelled : Signal → ExchangeError
  group_error : GroupError → ExchangeError

-- `delivered` is what the worker's standard input has been given.
pub record Pipes : Type 0 where
  pub input_offset : ℕ
  pub delivered : Bytes
  pub out : Bytes
  pub err : Bytes
  pub stdin_open : Bool
  pub stdout_open : Bool
  pub stderr_open : Bool

abbrev pub opened : Pipes
opened = record {
  input_offset = 0;
  delivered = [];
  out = [];
  err = [];
  stdin_open = true;
  stdout_open = true;
  stderr_open = true;
}

pub data Progress : Type 0 where
  next : Pipes → Progress
  stop : ExchangeError → Progress

abbrev pub chunk_bytes : ℕ
chunk_bytes = 65536

abbrev pub buffer : Stream → Pipes → Bytes
buffer stdout p = p.out
buffer stderr p = p.err

abbrev pub is_open : Stream → Pipes → Bool
is_open stdout p = p.stdout_open
is_open stderr p = p.stderr_open

abbrev pub extend : Stream → Bytes → Pipes → Pipes
extend stdout chunk p = record p { out = p.out ++ chunk }
extend stderr chunk p = record p { err = p.err ++ chunk }

abbrev pub close : Stream → Pipes → Pipes
close stdout p = record p { stdout_open = false }
close stderr p = record p { stderr_open = false }

module _ (input : Bytes) (max_output : ℕ) where
  -- os.write of the next chunk, of which the pipe takes at most all.
  unfoldable pub write_chunk : ℕ → Pipes → Pipes
  write_chunk n p =
      let chunk = take chunk_bytes (drop p.input_offset input) in
      let written = min n (length chunk) in
      let offset = p.input_offset + written in
      record p {
        input_offset = offset;
        delivered = p.delivered ++ take written chunk;
        stdin_open = not (offset == length input);
      }

  unfoldable pub on_stdin : WriteReply → Pipes → Progress
  unfolding write_chunk
  on_stdin (accepts n) p = next (write_chunk n p)
  on_stdin write_blocks p = next p
  on_stdin write_fails p = stop os_error

  -- os.read of at most one byte more than the limit leaves room for.
  unfoldable pub read_chunk : Stream → Bytes → Pipes → Progress
  read_chunk stream available p =
      let output = buffer stream p in
      let chunk = take (min chunk_bytes (max_output - length output + 1)) available in
      if is_empty chunk
      then next (close stream p)
      else if ltb max_output (length (output ++ chunk))
      then stop (output_limit_exceeded stream)
      else next (extend stream chunk p)

  unfoldable pub on_stream : Stream → ReadReply → Pipes → Progress
  unfolding read_chunk
  on_stream stream (offers available) p = read_chunk stream available p
  on_stream stream read_blocks p = next p
  on_stream stream read_fails p = stop os_error

  -- The selector returns registered pipes only.
  unfoldable pub on_event : Ready → Pipes → Progress
  unfolding on_stdin on_stream
  on_event (stdin_ready reply) p = if p.stdin_open then on_stdin reply p else next p
  on_event (stream_ready stream reply) p =
      if is_open stream p then on_stream stream reply p else next p

  unfoldable pub on_events : List Ready → Pipes → Progress
  on_events [] p = next p
  on_events (e ∷ es) p = elim (on_event e p) [ next p' ↦ on_events es p' | stop x ↦ stop x ]

pub data Exchange : Type 0 where
  exchanged : Pipes → Exchange
  failed : ExchangeError → Exchange
  unfinished : Exchange

abbrev pub all_closed : Pipes → Bool
all_closed p = not (p.stdin_open || p.stdout_open || p.stderr_open)

pub data Pause : Type 0 where
  go_on : ℕ → Pause
  give_up : ExchangeError → Pause

module _ (os : Posix) (deadline : ℕ) where
  -- The tests at the head of a turn: cancellation, then the deadline. What remains goes on.
  unfoldable pub pause : Option Signal → Popen → Pause × Popen
  pause (some signal) s = (give_up (cancelled signal), s)
  pause none s =
      let (now, s₁) = clock os s in
      (if leb deadline now then give_up timed_out else go_on (deadline - now), s₁)

  -- The last loop: the leader's exit.
  unfoldable pub await_exit : List Round → Pipes → Popen → Exchange × Popen
  await_exit [] p s =
      let (exited, s₁) = leader_exited_unreaped os s in
      elim exited [
        | returned true ↦ (exchanged p, s₁)
        | returned false ↦ (unfinished, s₁)
        | raised e ↦ (failed (group_error e), s₁)
        | stalled ↦ (unfinished, s₁)
      ]
  await_exit (r ∷ rounds) p s =
      let (exited, s₁) = leader_exited_unreaped os s in
      let (paused, s₂) = pause r.cancellation s₁ in
      elim exited [
        | returned true ↦ (exchanged p, s₁)
        | returned false ↦ elim paused [
          | give_up e ↦ (failed e, s₂)
          | go_on remaining ↦ await_exit rounds p (sleep (min poll_interval remaining) s₂).1
        ]
        | raised e ↦ (failed (group_error e), s₁)
        | stalled ↦ (unfinished, s₁)
      ]

  module _ (input : Bytes) (max_output : ℕ) where
    -- One turn of the loop over the selector.
    unfoldable pub turn : Round → Pipes → Popen → Progress × Popen
    turn r p s =
        let (paused, s₁) = pause r.cancellation s in
        elim paused [
          | give_up e ↦ (stop e, s₁)
          | go_on remaining ↦ (on_events input max_output r.events p, s₁)
        ]

    unfoldable pub exchange_loop : List Round → Pipes → Popen → Exchange × Popen
    exchange_loop [] p s = if all_closed p then await_exit [] p s else (unfinished, s)
    exchange_loop (r ∷ rounds) p s =
        let (progress, s₁) = turn r p s in
        elim (all_closed p) [
          | true ↦ await_exit (r ∷ rounds) p s
          | false ↦ elim progress [ next p' ↦ exchange_loop rounds p' s₁ | stop e ↦ (failed e, s₁) ]
        ]

-- `pipes_available` is that Popen gave all three pipes.
unfoldable pub bounded_communicate :
    Posix → Bool → Bytes → ℕ → ℕ → List Round → Popen → Exchange × Popen
bounded_communicate os pipes_available input timeout max_output rounds s =
    if pipes_available
    then (let (now, s₁) = clock os s in
        exchange_loop os (now + timeout) input max_output rounds opened s₁)
    else (failed os_error, s)
