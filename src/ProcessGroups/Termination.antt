-- ===== src/ProcessGroups/Termination.antt =====
-- With a clock that does not go back and a sleep that lasts, the loops end within their fuel, so
-- the cleanup returns or raises.
use sacrysty.Prelude.{
  ℕ, zero, suc, ◌+◌, ◌-◌, ◌*◌, ◌≤◌, ◌<◌, min, Bool, true, false, List, [], ◌∷◌, ◌≢◌, ◌⊎◌, arith, ℤ,
  pos, some, none, Option,
}
use sacrysty.ProcessGroups.{
  Posix, Event, group_signal, clock_read, slept, Errno, Popen, GroupError, Outcome, returned,
  raised, stalled, Turn, finished, again, SignalStep, resume, killpg, waitid, wait, kill, clock,
  leader_exited_unreaped, signal_group, absence_turn, after_leader_kill, absence_loop,
  wait_for_group_absence, reap_leader, fail_after_group_signal_error, finish_exited,
  check_and_settle, after_group_signal, signal_owned_group, grace_loop, grace, signal_all,
  after_reap, final_reap, finish_live, clean_up, terminate_and_reap, poll_interval,
}

-- What the code relies on of `time.monotonic` and `time.sleep`.
pub record IsSteady (os : Posix) : Type 0 where
  pub advances : (e : Event) (t : List Event) → os.monotonic t ≤ os.monotonic (e ∷ t)
  pub sleeps : (d : ℕ) (t : List Event) → os.monotonic t + d ≤ os.monotonic (slept d ∷ t)

abbrev Ends : {A : Type 0} → Outcome A → Type 0
Ends (returned a) = Unit
Ends (raised e) = Unit
Ends stalled = ⊥

ne_stalled : {A : Type 0} (o : Outcome A) → Ends o → o ≢ stalled
ne_stalled (returned a) h e = cc
ne_stalled (raised x) h e = cc
ne_stalled stalled h e = absurd h

-- A turn ends the loop, or brings the clock a poll interval nearer to the deadline.
abbrev Progress : ℕ → ℕ → Turn → ℕ → Type 0
Progress deadline before (finished o) after = Ends o
Progress deadline before again after =
    (before < deadline) × ((deadline ≤ after) ⊎ (before + poll_interval ≤ after))

-- Enough turns for a deadline `seconds` away.
abbrev pub IsEnough : ℕ → ℕ → Type 0
IsEnough zero seconds = ⊥
IsEnough (suc turns) seconds = seconds ≤ turns * poll_interval

module _ (os : Posix) (steady : IsSteady os) where
  absence_turn-Progress :
      (deadline : ℕ) (s : Popen)
      → let (turn, s') = absence_turn os deadline s in
        Progress deadline (os.monotonic s.trace) turn (os.monotonic s'.trace)
  unfolding absence_turn killpg clock
  absence_turn-Progress deadline s =
      let t = group_signal 0 (os.on_killpg s.trace 0) ∷ s.trace in
      let u = clock_read (os.monotonic t) ∷ t in
      ground (
        arith,
        steady.advances (group_signal 0 (os.on_killpg s.trace 0)) s.trace,
        steady.advances (clock_read (os.monotonic t)) t,
        steady.sleeps (min poll_interval (deadline - os.monotonic t)) u,
      )

  absence_loop-Ends :
      (turns deadline : ℕ) (s : Popen)
      → deadline ≤ os.monotonic s.trace + turns * poll_interval
      → Ends (absence_loop os (suc turns) deadline s).0
  unfolding absence_loop
  absence_loop-Ends zero deadline s h =
      turn (absence_turn os deadline s) (absence_turn-Progress deadline s)
    where
      turn :
          (t : Turn × Popen)
          → Progress deadline (os.monotonic s.trace) t.0 (os.monotonic t.1.trace)
          → Ends
              (elim t.0 as (λ x. Outcome (Unit {0}) × Popen) [
                | finished o ↦ (o, t.1)
                | again ↦ absence_loop os 0 deadline t.1
              ]).0
      turn (finished o, s') p = p
      turn (again, s') p = absurd (omega arith)
  absence_loop-Ends (suc turns) deadline s h =
      turn (absence_turn os deadline s) (absence_turn-Progress deadline s)
        (absence_loop-Ends turns deadline)
    where
      turn :
          (t : Turn × Popen)
          → Progress deadline (os.monotonic s.trace) t.0 (os.monotonic t.1.trace)
          → ((s' : Popen)
              → deadline ≤ os.monotonic s'.trace + turns * poll_interval
              → Ends (absence_loop os (suc turns) deadline s').0)
          → Ends
              (elim t.0 as (λ x. Outcome (Unit {0}) × Popen) [
                | finished o ↦ (o, t.1)
                | again ↦ absence_loop os (suc turns) deadline t.1
              ]).0
      turn (finished o, s') p rest = p
      turn (again, s') p rest = rest s' (omega arith)

  wait_for_group_absence-Ends :
      (fuel seconds : ℕ) (s : Popen)
      → IsEnough fuel seconds
      → Ends (wait_for_group_absence os fuel seconds s).0
  unfolding wait_for_group_absence clock
  wait_for_group_absence-Ends zero seconds s h = absurd h
  wait_for_group_absence-Ends (suc turns) seconds s h =
      let now = os.monotonic s.trace in
      absence_loop-Ends turns _ _ (omega (arith, steady.advances (clock_read now) s.trace, h))

  reap_leader-Ends : (seconds : ℕ) (s : Popen) → Ends (reap_leader os seconds s).0
  unfolding reap_leader wait
  reap_leader-Ends seconds s = ground arith

  Ends-then :
      {A B : Type 0} (r : Outcome A) (f : A → Popen → Outcome B × Popen) (s : Popen)
      → Ends r
      → ((a : A) → Ends (f a s).0)
      → Ends (resume r f s).0
  Ends-then (returned a) f s h k = k a
  Ends-then (raised e) f s h k = tt
  Ends-then stalled f s h k = h

  finish_exited-Ends :
      (fuel lw aw : ℕ) (s : Popen) → IsEnough fuel aw → Ends (finish_exited os fuel lw aw s).0
  unfolding finish_exited
  finish_exited-Ends fuel lw aw s h =
      Ends-then (reap_leader os lw s).0 _ _ (reap_leader-Ends lw s) (λ _.
        Ends-then (wait_for_group_absence os fuel aw (reap_leader os lw s).1).0 _ _
          (wait_for_group_absence-Ends fuel aw _ h) (λ _. tt))

  after_leader_kill-Ends :
      (e : GroupError) (f : Option Errno) (r : Outcome (Unit {0}))
      → Ends r
      → Ends (after_leader_kill e f r)
  after_leader_kill-Ends e f (returned u) h = tt
  after_leader_kill-Ends e (some x) (raised d) h = tt
  after_leader_kill-Ends e none (raised d) h = tt
  after_leader_kill-Ends e f stalled h = h

  fail_after-Ends :
      (e : GroupError) (lw : ℕ) (s : Popen) → Ends (fail_after_group_signal_error os e lw s).0
  unfolding fail_after_group_signal_error
  fail_after-Ends e lw s = after_leader_kill-Ends e _ _ (reap_leader-Ends lw _)

  leader_exited_unreaped-Ends : (s : Popen) → Ends (leader_exited_unreaped os s).0
  unfolding leader_exited_unreaped waitid
  leader_exited_unreaped-Ends s = ground arith

  check_and_settle-Ends :
      (fuel : ℕ) (e : GroupError) (lw aw : ℕ) (s : Popen)
      → IsEnough fuel aw
      → Ends (check_and_settle os fuel e lw aw s).0
  unfolding check_and_settle
  check_and_settle-Ends fuel e lw aw s h =
      Ends-then (leader_exited_unreaped os s).0 _ _ (leader_exited_unreaped-Ends s)
        elim [ true ↦ finish_exited-Ends fuel lw aw _ h | false ↦ fail_after-Ends e lw _ ]

  signal_group-Ends : (sig : ℕ) (s : Popen) → Ends (signal_group os sig s).0
  unfolding signal_group killpg
  signal_group-Ends sig s = ground arith

  after_group_signal-Ends :
      (fuel lw aw : ℕ) (r : Outcome Bool) (s : Popen)
      → IsEnough fuel aw
      → Ends r
      → Ends (after_group_signal os fuel lw aw r s).0
  unfolding after_group_signal
  after_group_signal-Ends fuel lw aw (returned true) s h p = tt
  after_group_signal-Ends fuel lw aw (returned false) s h p = check_and_settle-Ends fuel _ lw aw s h
  after_group_signal-Ends fuel lw aw (raised e) s h p =
      ground (arith, check_and_settle-Ends fuel e lw aw s h, fail_after-Ends e lw s)
  after_group_signal-Ends fuel lw aw stalled s h p = p

  -- One sleep reaches the end of a grace period.
  grace_loop-Ends :
      (fuel deadline : ℕ) (s : Popen) → 2 ≤ fuel → Ends (grace_loop os fuel deadline s).0
  unfolding grace_loop clock
  grace_loop-Ends zero deadline s h = absurd (omega arith)
  grace_loop-Ends (suc zero) deadline s h = absurd (omega arith)
  grace_loop-Ends (suc (suc fuel)) deadline s h =
      let now = os.monotonic s.trace in
      let t = clock_read now ∷ s.trace in
      let u = slept (deadline - now) ∷ t in
      ground (arith, steady.advances (clock_read now) s.trace, steady.sleeps (deadline - now) t)

  grace-Ends :
      (fuel : ℕ) (step : SignalStep) (b : Bool) (s : Popen)
      → 2 ≤ fuel
      → Ends (grace os fuel step b s).0
  unfolding grace
  grace-Ends fuel step b s h =
      ground (arith, grace_loop-Ends fuel ((clock os s).0 + step.grace_seconds) (clock os s).1 h)

  signal_all-Ends :
      (fuel lw aw : ℕ) (b : Bool) (steps : List SignalStep) (s : Popen)
      → IsEnough fuel aw
      → 2 ≤ fuel
      → Ends (signal_all os fuel lw aw b steps s).0
  unfolding signal_all signal_owned_group
  signal_all-Ends fuel lw aw b [] s h two = tt
  signal_all-Ends fuel lw aw b (step ∷ steps) s h two =
      Ends-then (signal_owned_group os fuel step.selected_signal lw aw s).0 _ _
        (after_group_signal-Ends fuel lw aw _ _ h (signal_group-Ends step.selected_signal s))
        elim [
          | true ↦
              Ends-then _ _ _ (grace-Ends fuel step b _ two)
                (λ _. signal_all-Ends fuel lw aw b steps _ h two)
          | false ↦ tt
        ]

  after_reap-Ends :
      (lw : ℕ) (r : Outcome (Unit {0})) (s : Popen) → Ends r → Ends (after_reap os lw r s).0
  unfolding after_reap
  after_reap-Ends lw (returned u) s h = tt
  after_reap-Ends lw (raised e) s h = ground (arith, reap_leader-Ends lw (kill os s).1)
  after_reap-Ends lw stalled s h = h

  finish_live-Ends :
      (fuel lw aw : ℕ) (going : Bool) (s : Popen)
      → IsEnough fuel aw
      → Ends (finish_live os fuel lw aw going s).0
  unfolding finish_live final_reap
  finish_live-Ends fuel lw aw false s h = tt
  finish_live-Ends fuel lw aw true s h =
      Ends-then (after_reap os lw _ _).0 _ _ (after_reap-Ends lw _ _ (reap_leader-Ends lw s))
        (λ _. wait_for_group_absence-Ends fuel aw _ h)

  clean_up-Ends :
      (fuel : ℕ) (steps : List SignalStep) (lw aw : ℕ) (s : Popen)
      → IsEnough fuel aw
      → 2 ≤ fuel
      → Ends (clean_up os fuel steps lw aw s).0
  unfolding clean_up
  clean_up-Ends fuel steps lw aw s h two =
      Ends-then (leader_exited_unreaped os s).0 _ _ (leader_exited_unreaped-Ends s) (λ b.
        Ends-then (signal_all os fuel lw aw b steps _).0 _ _
          (signal_all-Ends fuel lw aw b steps _ h two)
          (λ going. finish_live-Ends fuel lw aw going _ h))

  -- Let the clock never go back and a sleep last as long as asked. If the fuel is at least 2 and
  -- covers the absence window in turns of the poll interval, `terminate_and_reap` returns or
  -- raises: no loop runs out of fuel.
  pub terminate_and_reap-ends :
      (fuel : ℕ) (steps : List SignalStep) (lw : ℤ) (aw : ℕ) (s : Popen)
      → IsEnough fuel aw
      → 2 ≤ fuel
      → (terminate_and_reap os fuel steps lw (pos aw) s).0 ≢ stalled
  unfolding terminate_and_reap
  terminate_and_reap-ends fuel [] lw aw s h two = λ e. cc
  terminate_and_reap-ends fuel (step ∷ steps) (pos (suc l)) (suc a) s h two =
      ne_stalled _ (clean_up-Ends fuel (step ∷ steps) (suc l) (suc a) s h two)
  terminate_and_reap-ends fuel (step ∷ steps) _ _ s h two = λ e. cc
