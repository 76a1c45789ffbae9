-- ===== src/Evidence/Watch/Holds.antt =====
-- A property of sessions that each step keeps is kept by the whole loop, and so is a property of the
-- failures that each step raises.
use sacrysty.Prelude.{
  ℕ, ◌-◌, Bool, true, false, ◌≡◌, refl, List, [], ◌∷◌, Bytes, length, take, is_empty, leb, ltb,
  if◌then◌else◌,
}
use sacrysty.ProcessGroups.{Posix, clock, sleep}
use sacrysty.Evidence.{ProcessLimits, stream_limit_bytes}
use sacrysty.Evidence.Files.{Stream, timed_out, interrupted, stream_limit}
use sacrysty.Evidence.Watch.{
  Failure, boundary, os_error, pending, ReadReply, offers, read_blocks, read_fails, Ready, Round,
  Session, Progress, next, stop, and_then, captured, is_open, capture, close, with_process,
  any_open, keep_chunk, read_stream, capture_ready_streams, check_leader, await_events, wait_until,
  turn, is_finished, watch,
}

abbrev pub Good : (Session → Type 0) → (Failure → Type 0) → Progress × Session → Type 0
Good P E (next, s) = P s
Good P E (stop f, s) = P s × E f

pub record KeepsStreams (P : Session → Type 0) (E : Failure → Type 0) : Type 0 where
  pub keeps_chunk :
      (stream : Stream) (chunk : Bytes) (s : Session)
      → is_open stream s ≡ true
      → P s
      → P (capture stream (take (stream_limit_bytes - length (captured stream s)) chunk) s)
  pub closes : (stream : Stream) (s : Session) → is_open stream s ≡ true → P s → P (close stream s)
  pub over_limit : (stream : Stream) → E (boundary (stream_limit stream))
  pub on_os_error : E os_error

module _ (P : Session → Type 0) (E : Failure → Type 0) where
  pub if-Good :
      (b : Bool) (x y : Progress × Session)
      → Good P E x
      → Good P E y
      → Good P E (if b then x else y)
  if-Good true x y h k = h
  if-Good false x y h k = k

  pub and_then-Good :
      (r : Progress × Session) (more : Session → Progress × Session)
      → Good P E r
      → ((s : Session) → P s → Good P E (more s))
      → Good P E (and_then r more)
  and_then-Good (next, s) more h k = k s h
  and_then-Good (stop f, s) more h k = h

  module _ (streams : KeepsStreams P E) where
    keep_chunk-Good :
        (stream : Stream) (chunk : Bytes) (s : Session)
        → is_open stream s ≡ true
        → P s
        → Good P E (keep_chunk stream chunk s)
    unfolding keep_chunk
    keep_chunk-Good stream chunk s o h =
        at_limit (ltb (stream_limit_bytes - length (captured stream s)) (length chunk))
          (streams.keeps_chunk stream chunk s o h)
      where
        at_limit :
            (b : Bool) {s' : Session}
            → P s'
            → Good P E (if b then stop (boundary (stream_limit stream)) else next, s')
        at_limit true k = (k, streams.over_limit stream)
        at_limit false k = k

    read_stream-Good :
        (stream : Stream) (reply : ReadReply) (s : Session)
        → is_open stream s ≡ true
        → P s
        → Good P E (read_stream stream reply s)
    unfolding read_stream
    read_stream-Good stream (offers bytes) s o h =
        if-Good (is_empty (take 65536 bytes)) _ _ (streams.closes stream s o h)
          (keep_chunk-Good stream (take 65536 bytes) s o h)
    read_stream-Good stream read_blocks s o h = h
    read_stream-Good stream read_fails s o h = (h, streams.on_os_error)

    pub capture_ready_streams-Good :
        (events : List Ready) (s : Session) → P s → Good P E (capture_ready_streams events s)
    unfolding capture_ready_streams
    capture_ready_streams-Good [] s h = h
    capture_ready_streams-Good (e ∷ events) s h =
        and_then-Good _ (capture_ready_streams events) (by_test (is_open e.stream s) refl)
          (capture_ready_streams-Good events)
      where
        by_test :
            (b : Bool)
            → is_open e.stream s ≡ b
            → Good P E (if b then read_stream e.stream e.reply s else (next, s))
        by_test true o = read_stream-Good e.stream e.reply s o h
        by_test false o = h

    module _ (os : Posix) (fuel : ℕ) (limits : ProcessLimits) where
      pub record KeepsProcess : Type 0 where
        pub reads_clock : (s : Session) → P s → P (with_process (clock os s.process).1 s)
        pub sleeps : (d : ℕ) (s : Session) → P s → P (with_process (sleep d s.process).1 s)
        pub checks : (s : Session) → P s → Good P E (check_leader os fuel limits s)
        pub on_interrupt : E (boundary interrupted)
        pub on_timeout : E (boundary timed_out)
        pub on_pending : E pending

      module _ (steps : KeepsProcess) where
        await_events-Good :
            (remaining : ℕ) (r : Round) (s : Session)
            → P s
            → Good P E (await_events os fuel limits remaining r s)
        unfolding await_events
        await_events-Good remaining r s h =
            if-Good (any_open s) _ _
              (if-Good r.signalled (stop (boundary interrupted), s) _ (h, steps.on_interrupt)
                (capture_ready_streams-Good r.events s h))
              (if-Good r.signalled (stop (boundary interrupted), s) (next, _)
                (h, steps.on_interrupt) (steps.sleeps _ s h))

        wait_until-Good :
            (deadline : ℕ) (r : Round) (s : Session)
            → P s
            → Good P E (wait_until os fuel limits deadline r s)
        unfolding wait_until
        wait_until-Good deadline r s h =
            let k = steps.reads_clock s h in
            if-Good (leb deadline (clock os s.process).0) (stop (boundary timed_out), _) _
              (k, steps.on_timeout) (await_events-Good (deadline - (clock os s.process).0) r _ k)

        turn-Good :
            (deadline : ℕ) (r : Round) (s : Session)
            → P s
            → Good P E (turn os fuel limits deadline r s)
        unfolding turn
        turn-Good deadline r s h =
            if-Good r.marker (stop (boundary interrupted), s) _ (h, steps.on_interrupt)
              (and_then-Good (check_leader os fuel limits s) (wait_until os fuel limits deadline r)
                (steps.checks s h) (wait_until-Good deadline r))

        pub watch-Good :
            (deadline : ℕ) (rounds : List Round) (s : Session)
            → P s
            → Good P E (watch os fuel limits deadline rounds s)
        unfolding watch
        watch-Good deadline [] s h = at_end (is_finished os fuel limits s)
          where
            at_end : (b : Bool) → Good P E (if b then next else stop pending, s)
            at_end true = h
            at_end false = (h, steps.on_pending)
        watch-Good deadline (r ∷ rounds) s h =
            if-Good (is_finished os fuel limits s) (next, s) _ h
              (and_then-Good (turn os fuel limits deadline r s)
                (watch os fuel limits deadline rounds) (turn-Good deadline r s h)
                (watch-Good deadline rounds))
