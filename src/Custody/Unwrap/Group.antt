-- ===== src/Custody/Unwrap/Group.antt =====
-- The worker's process group during `unwrap`: no nonzero signal is sent to a group that is no
-- longer the caller's.
use sacrysty.Prelude.{
  ℕ, Bool, true, false, ◌≡◌, refl, ◌&&◌, not, ltb, is_empty, length, min, Option, none, some, List,
  [], ◌∷◌, map, Str, Bytes, arith, if◌then◌else◌,
}
use sacrysty.ProcessGroups.{
  Posix, Popen, Outcome, returned, raised, stalled, GroupError, ownership_lost,
  leader_exited_unreaped, waitid, clock, sleep, poll_interval,
}
use sacrysty.ProcessGroups.Ownership.{owned, IsDisciplined}
use sacrysty.ProcessGroups.Discipline.{terminate_and_reap-IsDisciplined}
use sacrysty.Custody.{
  CustodyRequest, CustodyError, main_thread_required, empty_envelope, envelope_too_large,
}
use sacrysty.Custody.Configure.{Adapter}
use sacrysty.Custody.Exchange.{
  Signal, Exchange, exchanged, failed, unfinished, Pipes, Round, ExchangeError, group_error,
  timed_out, os_error, output_limit_exceeded, cancelled, Pause, give_up, go_on, pause, await_exit,
  on_events, turn, exchange_loop, bounded_communicate, all_closed, Progress, next, stop,
}
use sacrysty.Custody.Unwrap.{
  Caller, World, Unwrapped, Flight, unwrap, guarded, declined, keeps_process, terminate_worker,
  clean_flight, fly, spawn, after_spawn, communicate, arrives, heard, clean, fresh, half_second,
  sigkill_step,
}

-- The group is still the caller's.
abbrev IsHeld : Popen → Type 0
IsHeld s = IsDisciplined s.trace × (owned s.trace ≡ true)

abbrev StatusHolds : Outcome Bool × Popen → Type 0
StatusHolds (raised ownership_lost, s) = IsDisciplined s.trace
StatusHolds (_, s) = IsHeld s

abbrev Holds : Exchange × Popen → Type 0
Holds (failed (group_error ownership_lost), s) = IsDisciplined s.trace
Holds (_, s) = IsHeld s

failed-Holds : (e : ExchangeError) (s : Popen) → IsHeld s → Holds (failed e, s)
failed-Holds timed_out s h = h
failed-Holds os_error s h = h
failed-Holds (output_limit_exceeded x) s h = h
failed-Holds (cancelled signal) s h = h
failed-Holds (group_error ownership_lost) s h = h.0
failed-Holds (group_error _) s h = h

raised-Holds :
    (e : GroupError) (s : Popen) → StatusHolds (raised e, s) → Holds (failed (group_error e), s)
raised-Holds ownership_lost s h = h
raised-Holds _ s h = h

module _ (os : Posix) (deadline : ℕ) where
  status-StatusHolds : (s : Popen) → IsHeld s → StatusHolds (leader_exited_unreaped os s)
  unfolding leader_exited_unreaped waitid
  status-StatusHolds s h = ground arith

  pause-IsHeld : (o : Option Signal) (s : Popen) → IsHeld s → IsHeld (pause os deadline o s).1
  unfolding pause clock
  pause-IsHeld (some signal) s h = h
  pause-IsHeld none s h = (((tt, h.0)), h.1)

  await_exit-Holds :
      (rounds : List Round) (p : Pipes) (s : Popen)
      → IsHeld s
      → Holds (await_exit os deadline rounds p s)
  unfolding await_exit
  await_exit-Holds [] p s h =
      ended (leader_exited_unreaped os s).0 (leader_exited_unreaped os s).1 (status-StatusHolds s h)
    where
      ended :
          (o : Outcome Bool) (s₁ : Popen)
          → StatusHolds (o, s₁)
          → Holds (elim o as (λ x. Exchange × Popen) [
            | returned true ↦ (exchanged p, s₁)
            | returned false ↦ (unfinished, s₁)
            | raised e ↦ (failed (group_error e), s₁)
            | stalled ↦ (unfinished, s₁)
          ])
      ended (returned true) s₁ k = k
      ended (returned false) s₁ k = k
      ended (raised e) s₁ k = raised-Holds e s₁ k
      ended stalled s₁ k = k
  await_exit-Holds (r ∷ rounds) p s h =
      turned (leader_exited_unreaped os s).0 (leader_exited_unreaped os s).1
        (status-StatusHolds s h) (await_exit-Holds rounds p)
    where
      resumed :
          (x : Pause) (s₂ : Popen)
          → IsHeld s₂
          → ((s' : Popen) → IsHeld s' → Holds (await_exit os deadline rounds p s'))
          → Holds (elim x as (λ y. Exchange × Popen) [
            | give_up e ↦ (failed e, s₂)
            | go_on remaining ↦
                await_exit os deadline rounds p (sleep (min poll_interval remaining) s₂).1
          ])
      resumed (give_up e) s₂ k rest = failed-Holds e s₂ k
      resumed (go_on remaining) s₂ k rest = rest _ (((tt, k.0)), k.1)

      turned :
          (o : Outcome Bool) (s₁ : Popen)
          → StatusHolds (o, s₁)
          → ((s' : Popen) → IsHeld s' → Holds (await_exit os deadline rounds p s'))
          → Holds (elim o as (λ x. Exchange × Popen) [
            | returned true ↦ (exchanged p, s₁)
            | returned false ↦
                elim (pause os deadline r.cancellation s₁).0 as (λ y. Exchange × Popen) [
                  | give_up e ↦ (failed e, (pause os deadline r.cancellation s₁).1)
                  | go_on remaining ↦
                      await_exit os deadline rounds p
                        (sleep
                          (min poll_interval remaining)
                          (pause os deadline r.cancellation s₁).1).1
                ]
            | raised e ↦ (failed (group_error e), s₁)
            | stalled ↦ (unfinished, s₁)
          ])
      turned (returned true) s₁ k rest = k
      turned (returned false) s₁ k rest = resumed _ _ (pause-IsHeld r.cancellation s₁ k) rest
      turned (raised e) s₁ k rest = raised-Holds e s₁ k
      turned stalled s₁ k rest = k

  module _ (input : Bytes) (max_output : ℕ) where
    turn-IsHeld :
        (r : Round) (p : Pipes) (s : Popen)
        → IsHeld s
        → IsHeld (turn os deadline input max_output r p s).1
    unfolding turn
    turn-IsHeld r p s h =
        paused (pause os deadline r.cancellation s).0 _ (pause-IsHeld r.cancellation s h)
      where
        paused :
            (x : Pause) (s₁ : Popen)
            → IsHeld s₁
            → IsHeld
                (elim x as (λ y. Progress × Popen) [
                  | give_up e ↦ (stop e, s₁)
                  | go_on remaining ↦ (on_events input max_output r.events p, s₁)
                ]).1
        paused (give_up e) s₁ k = k
        paused (go_on remaining) s₁ k = k

    exchange_loop-Holds :
        (rounds : List Round) (p : Pipes) (s : Popen)
        → IsHeld s
        → Holds (exchange_loop os deadline input max_output rounds p s)
    unfolding exchange_loop
    exchange_loop-Holds [] p s h = if-Holds (all_closed p) _ _ (await_exit-Holds [] p s h) h
      where
        if-Holds :
            (b : Bool) (x y : Exchange × Popen) → Holds x → Holds y → Holds (if b then x else y)
        if-Holds true x y h k = h
        if-Holds false x y h k = k
    exchange_loop-Holds (r ∷ rounds) p s h =
        checked (all_closed p) (turn os deadline input max_output r p s).0 _ (turn-IsHeld r p s h)
          (exchange_loop-Holds rounds)
      where
        checked :
            (b : Bool) (g : Progress) (s₁ : Popen)
            → IsHeld s₁
            → ((p' : Pipes) (s' : Popen)
                → IsHeld s'
                → Holds (exchange_loop os deadline input max_output rounds p' s'))
            → Holds (elim b as (λ x. Exchange × Popen) [
              | true ↦ await_exit os deadline (r ∷ rounds) p s
              | false ↦ elim g as (λ x. Exchange × Popen) [
                | next p' ↦ exchange_loop os deadline input max_output rounds p' s₁
                | stop e ↦ (failed e, s₁)
              ]
            ])
        checked true g s₁ k rest = await_exit-Holds (r ∷ rounds) p s h
        checked false (next p') s₁ k rest = rest p' s₁ k
        checked false (stop e) s₁ k rest = failed-Holds e s₁ k

module _ (os : Posix) (a : Adapter) (c : Caller) (w : World) (request : CustodyRequest) where
  -- A flight whose process is still owned holds its group.
  abbrev HoldsFlight : Flight → Type 0
  HoldsFlight f =
      IsDisciplined f.process.trace × (f.process_owned ≡ true → owned f.process.trace ≡ true)

  HoldsFlight-of :
      (x : Exchange) (s : Popen)
      → Holds (x, s)
      → IsDisciplined s.trace × (keeps_process x ≡ true → owned s.trace ≡ true)
  HoldsFlight-of (failed (group_error ownership_lost)) s h = (h, λ e. cc)
  HoldsFlight-of (failed (group_error _)) s h = (h.0, λ e. h.1)
  HoldsFlight-of (failed _) s h = (h.0, λ e. h.1)
  HoldsFlight-of (exchanged p) s h = (h.0, λ e. h.1)
  HoldsFlight-of unfinished s h = (h.0, λ e. h.1)

  bounded_communicate-Holds :
      (b : Bool) (input : Bytes) (timeout max_output : ℕ) (rounds : List Round)
      → Holds (bounded_communicate os b input timeout max_output rounds fresh)
  unfolding bounded_communicate clock
  bounded_communicate-Holds true input timeout max_output rounds =
      exchange_loop-Holds os _ input max_output rounds _ _ ((tt, tt), refl)
  bounded_communicate-Holds false input timeout max_output rounds = (tt, refl)

  fly-HoldsFlight : HoldsFlight (fly os a c w request)
  unfolding fly spawn after_spawn communicate
  fly-HoldsFlight = spawned (arrives c w.early)
    where
      after : (o : Option Signal) → HoldsFlight (after_spawn os a c w request o)
      after (some signal) = (tt, λ e. refl)
      after none = HoldsFlight-of _ _ (
          bounded_communicate-Holds w.pipes_available request.envelope a.timeout_seconds
            a.max_output_bytes (map (heard c) w.rounds))

      popen :
          (b : Bool) (f g : Flight)
          → HoldsFlight f
          → HoldsFlight g
          → HoldsFlight (if b then f else g)
      popen true f g h k = h
      popen false f g h k = k

      spawned : (o : Option Signal) → HoldsFlight (spawn os a c w request o)
      spawned (some signal) = (tt, λ e. refl)
      spawned none = popen w.spawns _ _ (after (arrives c w.spawning)) (tt, λ e. refl)

  module _ (fuel : ℕ) (sha256 : Bytes → Str) where
    clean_flight-IsDisciplined :
        (f : Flight) → HoldsFlight f → IsDisciplined (clean_flight os fuel f).1.trace
    unfolding clean_flight terminate_worker
    clean_flight-IsDisciplined f h = swept f.launched f.process_owned (h.1)
      where
        swept :
            (b o : Bool)
            → (o ≡ true → owned f.process.trace ≡ true)
            → IsDisciplined
                (if b && o then terminate_worker os fuel f.process else (clean, f.process)).1.trace
        swept true true k =
            terminate_and_reap-IsDisciplined os fuel (sigkill_step ∷ []) half_second half_second
              f.process h.0 (k refl)
        swept true false k = h.0
        swept false o k = h.0

    guarded-IsDisciplined : IsDisciplined (guarded os fuel sha256 a c w request).process.trace
    unfolding guarded
    guarded-IsDisciplined = clean_flight-IsDisciplined (fly os a c w request) fly-HoldsFlight

    otherwise :
        (b : Bool) (e : CustodyError) (u : Unwrapped)
        → IsDisciplined u.process.trace
        → IsDisciplined (if b then declined os fuel sha256 a c w request e else u).process.trace
    otherwise true e u h = tt
    otherwise false e u h = h

    -- On every path of `unwrap`, each nonzero signal that it sends to the worker's group is sent
    -- while the leader has been neither reaped nor lost.
    pub unwrap-IsDisciplined : IsDisciplined (unwrap os fuel sha256 a c w request).process.trace
    unfolding unwrap
    unwrap-IsDisciplined = otherwise (not c.is_main_thread) main_thread_required _ (
        otherwise (is_empty request.envelope) empty_envelope _ (
          otherwise (ltb a.max_envelope_bytes (length request.envelope)) envelope_too_large _
            guarded-IsDisciplined))
