-- ===== src/ProcessGroups/Absence.antt =====
-- What a successful cleanup has observed: the leader is reaped, and the last call is a signal-zero
-- probe that the system answered with ESRCH.
use sacrysty.Prelude.{
  ℕ, zero, suc, Bool, true, false, List, [], ◌∷◌, ◌≡◌, refl, arith, ℤ, pos, some, none, Option, ◌∙◌,
  ap,
}
use sacrysty.ProcessGroups.{
  Posix, Event, group_signal, fails, esrch, Errno, Popen, GroupError, Outcome, returned, raised,
  stalled, Turn, finished, again, SignalStep, resume, killpg, wait, kill, clock,
  leader_exited_unreaped, signal_group, absence_turn, after_leader_kill, absence_loop,
  wait_for_group_absence, reap_leader, fail_after_group_signal_error, finish_exited,
  check_and_settle, after_group_signal, signal_owned_group, grace, signal_all, after_reap,
  final_reap, finish_live, clean_up, terminate_and_reap, ◌>>=◌,
}

abbrev pub is_some {ℓ} : {A : Type ℓ} → Option A → Bool
is_some none = false
is_some (some a) = true

-- The newest call is a probe that found no group.
abbrev pub IsAbsent : List Event → Type 0
IsAbsent (group_signal zero (fails esrch) ∷ t) = Unit
IsAbsent _ = ⊥

abbrev pub IsClean : Popen → Type 0
IsClean s = IsAbsent s.trace × (is_some s.returncode ≡ true)

abbrev pub CleanIfReturned : Outcome (Unit {0}) × Popen → Type 0
CleanIfReturned (returned _, s) = IsClean s
CleanIfReturned _ = Unit

abbrev CleanIfFalse : Outcome Bool × Popen → Type 0
CleanIfFalse (returned false, s) = IsClean s
CleanIfFalse _ = Unit

abbrev ReapedIfReturned : Outcome (Unit {0}) × Popen → Type 0
ReapedIfReturned (returned _, s) = is_some s.returncode ≡ true
ReapedIfReturned _ = Unit

abbrev AbsentIfFinished : Turn × Popen → Type 0
AbsentIfFinished (finished (returned _), s) = IsAbsent s.trace
AbsentIfFinished _ = Unit

abbrev AbsentIfReturned : Outcome (Unit {0}) × Popen → Type 0
AbsentIfReturned (returned _, s) = IsAbsent s.trace
AbsentIfReturned _ = Unit

module _ (os : Posix) where
  returncode-absence_turn :
      (deadline : ℕ) (s : Popen) → (absence_turn os deadline s).1.returncode ≡ s.returncode
  unfolding absence_turn killpg clock
  returncode-absence_turn deadline s = ground arith

  absence_turn-AbsentIfFinished :
      (deadline : ℕ) (s : Popen) → AbsentIfFinished (absence_turn os deadline s)
  unfolding absence_turn killpg clock
  absence_turn-AbsentIfFinished deadline s = ground arith

  returncode-absence_loop :
      (fuel deadline : ℕ) (s : Popen)
      → (absence_loop os fuel deadline s).1.returncode ≡ s.returncode
  unfolding absence_loop
  returncode-absence_loop zero deadline s = refl
  returncode-absence_loop (suc fuel) deadline s = ground (
    arith,
    returncode-absence_turn deadline s,
    returncode-absence_loop fuel deadline (absence_turn os deadline s).1,
  )

  absence_loop-AbsentIfReturned :
      (fuel deadline : ℕ) (s : Popen) → AbsentIfReturned (absence_loop os fuel deadline s)
  unfolding absence_loop
  absence_loop-AbsentIfReturned zero deadline s = tt
  absence_loop-AbsentIfReturned (suc fuel) deadline s =
      turn (absence_turn os deadline s) (absence_turn-AbsentIfFinished deadline s)
        (absence_loop-AbsentIfReturned fuel deadline)
    where
      turn :
          (t : Turn × Popen)
          → AbsentIfFinished t
          → ((s' : Popen) → AbsentIfReturned (absence_loop os fuel deadline s'))
          → AbsentIfReturned
              (elim t.0 [ finished o ↦ (o, t.1) | again ↦ absence_loop os fuel deadline t.1 ])
      turn (finished (returned u), s') h rest = h
      turn (finished (raised e), s') h rest = tt
      turn (finished stalled, s') h rest = tt
      turn (again, s') h rest = rest s'

  wait_for_group_absence-Clean :
      (fuel seconds : ℕ) (s : Popen)
      → is_some s.returncode ≡ true
      → CleanIfReturned (wait_for_group_absence os fuel seconds s)
  unfolding wait_for_group_absence clock
  wait_for_group_absence-Clean fuel seconds s h =
      join (absence_loop os fuel _ _) (absence_loop-AbsentIfReturned fuel _ _)
        (ap is_some (returncode-absence_loop fuel _ _) ∙ h)
    where
      join :
          (r : Outcome (Unit {0}) × Popen)
          → AbsentIfReturned r
          → is_some r.1.returncode ≡ true
          → CleanIfReturned r
      join (returned u, s') a c = (a, c)
      join (raised e, s') a c = tt
      join (stalled, s') a c = tt

  reap_leader-Reaped : (seconds : ℕ) (s : Popen) → ReapedIfReturned (reap_leader os seconds s)
  unfolding reap_leader wait
  reap_leader-Reaped seconds s = ground arith

  reaped_then_absent :
      (fuel seconds : ℕ) (r : Outcome (Unit {0}) × Popen)
      → ReapedIfReturned r
      → CleanIfReturned (resume r.0 (λ _. wait_for_group_absence os fuel seconds) r.1)
  reaped_then_absent fuel seconds (returned u, s) h = wait_for_group_absence-Clean fuel seconds s h
  reaped_then_absent fuel seconds (raised e, s) h = tt
  reaped_then_absent fuel seconds (stalled, s) h = tt

  finish_exited-Clean : (fuel lw aw : ℕ) (s : Popen) → CleanIfFalse (finish_exited os fuel lw aw s)
  unfolding finish_exited
  finish_exited-Clean fuel lw aw s =
      ground (arith, reaped_then_absent fuel aw (reap_leader os lw s) (reap_leader-Reaped lw s))

  after_leader_kill-Clean :
      (e : GroupError) (f : Option Errno) (r : Outcome (Unit {0})) (s : Popen)
      → CleanIfFalse (after_leader_kill e f r, s)
  after_leader_kill-Clean e f (returned u) s = tt
  after_leader_kill-Clean e (some x) (raised d) s = tt
  after_leader_kill-Clean e none (raised d) s = tt
  after_leader_kill-Clean e f stalled s = tt

  fail_after-Clean :
      (e : GroupError) (lw : ℕ) (s : Popen) → CleanIfFalse (fail_after_group_signal_error os e lw s)
  unfolding fail_after_group_signal_error
  fail_after-Clean e lw s = after_leader_kill-Clean e _ _ _

  check_and_settle-Clean :
      (fuel : ℕ) (e : GroupError) (lw aw : ℕ) (s : Popen)
      → CleanIfFalse (check_and_settle os fuel e lw aw s)
  unfolding check_and_settle
  check_and_settle-Clean fuel e lw aw s =
      let s' = (leader_exited_unreaped os s).1 in
      ground (arith, finish_exited-Clean fuel lw aw s', fail_after-Clean e lw s')

  after_group_signal-Clean :
      (fuel lw aw : ℕ) (r : Outcome Bool) (s : Popen)
      → CleanIfFalse (after_group_signal os fuel lw aw r s)
  unfolding after_group_signal
  after_group_signal-Clean fuel lw aw (returned true) s = tt
  after_group_signal-Clean fuel lw aw (returned false) s = check_and_settle-Clean fuel _ lw aw s
  after_group_signal-Clean fuel lw aw (raised e) s =
      ground (arith, check_and_settle-Clean fuel e lw aw s, fail_after-Clean e lw s)
  after_group_signal-Clean fuel lw aw stalled s = tt

  signal_all-Clean :
      (fuel lw aw : ℕ) (b : Bool) (steps : List SignalStep) (s : Popen)
      → CleanIfFalse (signal_all os fuel lw aw b steps s)
  unfolding signal_all signal_owned_group
  signal_all-Clean fuel lw aw b [] s = tt
  signal_all-Clean fuel lw aw b (step ∷ steps) s = ground (
    arith,
    after_group_signal-Clean fuel lw aw (signal_group os step.selected_signal s).0
        (signal_group os step.selected_signal s).1,
    signal_all-Clean fuel lw aw b steps
        (grace os fuel step b (signal_owned_group os fuel step.selected_signal lw aw s).1).1,
  )

  after_reap-Reaped :
      (lw : ℕ) (r : Outcome (Unit {0})) (s : Popen)
      → ReapedIfReturned (r, s)
      → ReapedIfReturned (after_reap os lw r s)
  unfolding after_reap
  after_reap-Reaped lw (returned u) s h = h
  after_reap-Reaped lw (raised e) s h = ground (arith, reap_leader-Reaped lw (kill os s).1)
  after_reap-Reaped lw stalled s h = tt

  finish_live-Clean :
      (fuel lw aw : ℕ) (s : Popen) → CleanIfReturned (finish_live os fuel lw aw true s)
  unfolding finish_live final_reap
  finish_live-Clean fuel lw aw s =
      reaped_then_absent fuel aw _ (after_reap-Reaped lw _ _ (reap_leader-Reaped lw s))

  clean_up-Clean :
      (fuel : ℕ) (steps : List SignalStep) (lw aw : ℕ) (s : Popen)
      → CleanIfReturned (clean_up os fuel steps lw aw s)
  unfolding clean_up
  clean_up-Clean fuel steps lw aw s = checked (leader_exited_unreaped os s)
    where
      signalled :
          (r : Outcome Bool × Popen)
          → CleanIfFalse r
          → CleanIfReturned (resume r.0 (λ going. finish_live os fuel lw aw going) r.1)
      signalled (returned true, s') h = finish_live-Clean fuel lw aw s'
      signalled (returned false, s') h = h
      signalled (raised e, s') h = tt
      signalled (stalled, s') h = tt

      checked :
          (r : Outcome Bool × Popen)
          → CleanIfReturned (
              resume r.0
                (λ b. signal_all os fuel lw aw b steps >>= λ going. finish_live os fuel lw aw going)
                r.1)
      checked (returned b, s') =
          signalled (signal_all os fuel lw aw b steps s') (signal_all-Clean fuel lw aw b steps s')
      checked (raised e, s') = tt
      checked (stalled, s') = tt

  terminate_and_reap-Clean :
      (fuel : ℕ) (steps : List SignalStep) (lw aw : ℤ) (s : Popen)
      → CleanIfReturned (terminate_and_reap os fuel steps lw aw s)
  unfolding terminate_and_reap
  terminate_and_reap-Clean fuel [] lw aw s = tt
  terminate_and_reap-Clean fuel (step ∷ steps) (pos (suc l)) (pos (suc a)) s =
      clean_up-Clean fuel (step ∷ steps) (suc l) (suc a) s
  terminate_and_reap-Clean fuel (step ∷ steps) _ _ s = tt

  IsClean-of_returned :
      (r : Outcome (Unit {0}) × Popen) → CleanIfReturned r → r.0 ≡ returned tt → IsClean r.1
  IsClean-of_returned (returned u, s) h e = h
  IsClean-of_returned (raised x, s) h e = cc
  IsClean-of_returned (stalled, s) h e = cc

  -- When `terminate_and_reap` returns, the leader's exit status is known and the last call made is
  -- a signal-zero probe of the group that the system answered with ESRCH.
  pub terminate_and_reap-IsClean :
      (fuel : ℕ) (steps : List SignalStep) (lw aw : ℤ) (s : Popen)
      → (terminate_and_reap os fuel steps lw aw s).0 ≡ returned tt
      → IsClean (terminate_and_reap os fuel steps lw aw s).1
  terminate_and_reap-IsClean fuel steps lw aw s returns =
      IsClean-of_returned _ (terminate_and_reap-Clean fuel steps lw aw s) returns
