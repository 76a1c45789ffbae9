-- ===== src/ProcessGroups/Discipline.antt =====
-- No group signal but signal zero is sent once the leader has been reaped or lost.
use sacrysty.Prelude.{
  ℕ, zero, suc, Bool, true, false, not, List, [], ◌∷◌, ◌≡◌, arith, ℤ, pos, some, none, ◌-◌, ltb,
  inl, inr, Bool-cases, Option, ◌&&◌,
}
use sacrysty.ProcessGroups.{
  Posix, Popen, GroupError, Outcome, returned, raised, stalled, SignalStep, killpg, waitid, kill,
  clock, leader_exited_unreaped, signal_group, reap_leader, fail_after_group_signal_error,
  finish_exited, check_and_settle, after_group_signal, signal_owned_group, grace_loop, grace,
  signal_all, after_reap, final_reap, finish_live, Errno, after_leader_kill, resume, continue_if,
  ◌>>=◌, sleep, clean_up, terminate_and_reap,
}
use sacrysty.ProcessGroups.Ownership.{
  owned, IsDisciplined, kill-IsDisciplined, reap_leader-IsDisciplined,
  leader_exited_unreaped-IsDisciplined, wait_for_group_absence-IsDisciplined,
}

-- What a group signal leaves: the trace is disciplined, and still owned where the cleanup goes on.
abbrev pub Keeps : Outcome Bool × Popen → Type 0
Keeps (returned true, s) = IsDisciplined s.trace × (owned s.trace ≡ true)
Keeps (_, s) = IsDisciplined s.trace

abbrev KeepsOwned : Outcome Bool × Popen → Type 0
KeepsOwned (returned b, s) = IsDisciplined s.trace × (owned s.trace ≡ true)
KeepsOwned (_, s) = IsDisciplined s.trace

-- The leader's kill is followed by an error on every path.
after_leader_kill-Keeps :
    (e : GroupError) (f : Option Errno) (r : Outcome (Unit {0})) (s : Popen)
    → IsDisciplined s.trace
    → Keeps (after_leader_kill e f r, s)
after_leader_kill-Keeps e f (returned u) s h = h
after_leader_kill-Keeps e (some x) (raised d) s h = h
after_leader_kill-Keeps e none (raised d) s h = h
after_leader_kill-Keeps e f stalled s h = h

module _ (os : Posix) where
  finish_exited-Keeps :
      (fuel lw aw : ℕ) (s : Popen) → IsDisciplined s.trace → Keeps (finish_exited os fuel lw aw s)
  unfolding finish_exited
  finish_exited-Keeps fuel lw aw s h = ground (
    arith,
    reap_leader-IsDisciplined os lw s h,
    wait_for_group_absence-IsDisciplined os fuel aw (reap_leader os lw s).1,
  )

  fail_after-Keeps :
      (e : GroupError) (lw : ℕ) (s : Popen)
      → IsDisciplined s.trace
      → Keeps (fail_after_group_signal_error os e lw s)
  unfolding fail_after_group_signal_error
  fail_after-Keeps e lw s h =
      after_leader_kill-Keeps e _ _ _
        (reap_leader-IsDisciplined os lw _ (kill-IsDisciplined os s h))

  check_and_settle-Keeps :
      (fuel : ℕ) (e : GroupError) (lw aw : ℕ) (s : Popen)
      → IsDisciplined s.trace
      → Keeps (check_and_settle os fuel e lw aw s)
  unfolding check_and_settle
  check_and_settle-Keeps fuel e lw aw s h =
      let s' = (leader_exited_unreaped os s).1 in
      let d = leader_exited_unreaped-IsDisciplined os s h in
      ground (arith, finish_exited-Keeps fuel lw aw s' d, fail_after-Keeps e lw s' d)

  signal_group-owned :
      (sig : ℕ) (s : Popen)
      → IsDisciplined s.trace
      → owned s.trace ≡ true
      → let (o, s') = signal_group os sig s in IsDisciplined s'.trace × (owned s'.trace ≡ true)
  unfolding signal_group killpg
  signal_group-owned zero s h o = ground arith
  signal_group-owned (suc sig) s h o = ground arith

  signal_owned_group-Keeps :
      (fuel sig lw aw : ℕ) (s : Popen)
      → IsDisciplined s.trace
      → owned s.trace ≡ true
      → Keeps (signal_owned_group os fuel sig lw aw s)
  unfolding signal_owned_group
  signal_owned_group-Keeps fuel sig lw aw s h o =
      let (r, s') = signal_group os sig s in
      let (d, p) = signal_group-owned sig s h o in after r s' d p
    where
      after :
          (r : Outcome Bool) (s' : Popen)
          → IsDisciplined s'.trace
          → owned s'.trace ≡ true
          → Keeps (after_group_signal os fuel lw aw r s')
      after (returned true) s' d p = (d, p)
      after (returned false) s' d p = check_and_settle-Keeps fuel _ lw aw s' d
      after (raised e) s' d p =
          ground (arith, check_and_settle-Keeps fuel e lw aw s' d, fail_after-Keeps e lw s' d)
      after stalled s' d p = d

  grace_loop-owned :
      (fuel deadline : ℕ) (s : Popen)
      → IsDisciplined s.trace
      → owned s.trace ≡ true
      → let (o, s') = grace_loop os fuel deadline s in
        IsDisciplined s'.trace × (owned s'.trace ≡ true)
  unfolding grace_loop clock
  grace_loop-owned zero deadline s h o = (h, o)
  grace_loop-owned (suc fuel) deadline s h o =
      let s' = (sleep (deadline - os.monotonic s.trace) (clock os s).1).1 in
      ground (arith, grace_loop-owned fuel deadline s' (tt, (tt, h)) o)

  grace-owned :
      (fuel : ℕ) (step : SignalStep) (b : Bool) (s : Popen)
      → IsDisciplined s.trace
      → owned s.trace ≡ true
      → let (o, s') = grace os fuel step b s in IsDisciplined s'.trace × (owned s'.trace ≡ true)
  unfolding grace clock
  grace-owned fuel step b s h o = elim (Bool-cases (ltb 0 step.grace_seconds && not b)) [
    | inl waits ↦ rw waits (grace_loop-owned fuel _ _ (tt, h) o)
    | inr skips ↦ rw skips (h, o)
  ]

  signal_all-Keeps :
      (fuel lw aw : ℕ) (b : Bool) (steps : List SignalStep) (s : Popen)
      → IsDisciplined s.trace
      → owned s.trace ≡ true
      → Keeps (signal_all os fuel lw aw b steps s)
  unfolding signal_all
  signal_all-Keeps fuel lw aw b [] s h o = (h, o)
  signal_all-Keeps fuel lw aw b (step ∷ steps) s h o =
      let (r, s') = signal_owned_group os fuel step.selected_signal lw aw s in
      signalled r s' (signal_owned_group-Keeps fuel step.selected_signal lw aw s h o)
        (λ s'' d p. signal_all-Keeps fuel lw aw b steps s'' d p)
    where
      Rest : Type 0
      Rest =
          (s'' : Popen)
          → IsDisciplined s''.trace
          → owned s''.trace ≡ true
          → Keeps (signal_all os fuel lw aw b steps s'')

      waited :
          (r : Outcome (Unit {0})) (s' : Popen)
          → IsDisciplined s'.trace
          → owned s'.trace ≡ true
          → Rest
          → Keeps (resume r (λ _. signal_all os fuel lw aw b steps) s')
      waited (returned u) s' d p rest = rest s' d p
      waited (raised e) s' d p rest = d
      waited stalled s' d p rest = d

      signalled :
          (r : Outcome Bool) (s' : Popen)
          → Keeps (r, s')
          → Rest
          → Keeps (
              resume r
                (λ going.
                  continue_if going
                    (grace os fuel step b >>= λ _. signal_all os fuel lw aw b steps))
                s')
      signalled (returned true) s' (d, p) rest =
          let (d', p') = grace-owned fuel step b s' d p in
          waited (grace os fuel step b s').0 (grace os fuel step b s').1 d' p' rest
      signalled (returned false) s' d rest = d
      signalled (raised e) s' d rest = d
      signalled stalled s' d rest = d

  after_reap-IsDisciplined :
      (lw : ℕ) (r : Outcome (Unit {0})) (s : Popen)
      → IsDisciplined s.trace
      → IsDisciplined (after_reap os lw r s).1.trace
  unfolding after_reap
  after_reap-IsDisciplined lw (returned u) s h = h
  after_reap-IsDisciplined lw (raised e) s h =
      ground (arith, kill-IsDisciplined os s h, reap_leader-IsDisciplined os lw (kill os s).1)
  after_reap-IsDisciplined lw stalled s h = h

  finish_live-IsDisciplined :
      (fuel lw aw : ℕ) (going : Bool) (s : Popen)
      → IsDisciplined s.trace
      → IsDisciplined (finish_live os fuel lw aw going s).1.trace
  unfolding finish_live final_reap
  finish_live-IsDisciplined fuel lw aw false s h = h
  finish_live-IsDisciplined fuel lw aw true s h =
      let (r, s') = reap_leader os lw s in
      let d = after_reap-IsDisciplined lw r s' (reap_leader-IsDisciplined os lw s h) in
      ground (arith, d, wait_for_group_absence-IsDisciplined os fuel aw (after_reap os lw r s').1)

  leader_exited_unreaped-Keeps :
      (s : Popen)
      → IsDisciplined s.trace
      → owned s.trace ≡ true
      → KeepsOwned (leader_exited_unreaped os s)
  unfolding leader_exited_unreaped waitid
  leader_exited_unreaped-Keeps s h o = ground arith

  clean_up-IsDisciplined :
      (fuel : ℕ) (steps : List SignalStep) (lw aw : ℕ) (s : Popen)
      → IsDisciplined s.trace
      → owned s.trace ≡ true
      → IsDisciplined (clean_up os fuel steps lw aw s).1.trace
  unfolding clean_up
  clean_up-IsDisciplined fuel steps lw aw s h o =
      checked (leader_exited_unreaped os s).0 (leader_exited_unreaped os s).1
        (leader_exited_unreaped-Keeps s h o)
    where
      signalled :
          (r : Outcome Bool) (s' : Popen)
          → Keeps (r, s')
          → IsDisciplined (resume r (λ going. finish_live os fuel lw aw going) s').1.trace
      signalled (returned true) s' (d, p) = finish_live-IsDisciplined fuel lw aw true s' d
      signalled (returned false) s' d = finish_live-IsDisciplined fuel lw aw false s' d
      signalled (raised e) s' d = d
      signalled stalled s' d = d

      checked :
          (r : Outcome Bool) (s' : Popen)
          → KeepsOwned (r, s')
          → IsDisciplined
              (resume r
                (λ b. signal_all os fuel lw aw b steps >>= λ going. finish_live os fuel lw aw going)
                s').1.trace
      checked (returned b) s' (d, p) =
          signalled (signal_all os fuel lw aw b steps s').0 (signal_all os fuel lw aw b steps s').1
            (signal_all-Keeps fuel lw aw b steps s' d p)
      checked (raised e) s' d = d
      checked stalled s' d = d

  -- Starting with a group that is still owned, every call of `terminate_and_reap`, whatever it
  -- returns or raises and whatever the system replies, leaves a trace in which each nonzero group
  -- signal is sent while the leader has been neither reaped nor lost.
  pub terminate_and_reap-IsDisciplined :
      (fuel : ℕ) (steps : List SignalStep) (lw aw : ℤ) (s : Popen)
      → IsDisciplined s.trace
      → owned s.trace ≡ true
      → IsDisciplined (terminate_and_reap os fuel steps lw aw s).1.trace
  unfolding terminate_and_reap
  terminate_and_reap-IsDisciplined fuel [] lw aw s h o = h
  terminate_and_reap-IsDisciplined fuel (step ∷ steps) (pos (suc l)) (pos (suc a)) s h o =
      clean_up-IsDisciplined fuel (step ∷ steps) (suc l) (suc a) s h o
  terminate_and_reap-IsDisciplined fuel (step ∷ steps) _ _ s h o = h
