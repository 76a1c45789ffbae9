-- ===== src/ProcessGroups.antt =====
-- sacrysty_runtime/process_groups.py: signalling an owned process group, reaping its leader, and
-- waiting for a definitive observation that the group is absent. Each function is an action on
-- the `Popen` handle and the trace of operating system calls; the system itself is a parameter.
-- Seconds are whole nanoseconds. A loop takes fuel, and `stalled` means that it ran out.
mod Os
pub mod Ownership
pub mod Discipline
pub mod Absence
pub mod Termination
mod Tests
unfoldable pub use Os.*
use sacrysty.Prelude.{
  ℕ, zero, suc, ◌+◌, ◌-◌, min, Bool, true, false, not, ◌&&◌, ◌||◌, Option, none, some, List, [],
  ◌∷◌, ltb, leb, ◌==◌, ℤ, pos, negsuc, if◌then◌else◌,
}

-- `SignalStep` with its `__post_init__` test.
pub record SignalStep : Type 0 where
  pub selected_signal : ℕ
  pub grace_seconds : ℕ

unfoldable pub signal_step : ℕ → ℤ → Option SignalStep
signal_step sig (pos grace) =
    if sig == 0 then none else some (record { selected_signal = sig; grace_seconds = grace })
signal_step sig (negsuc n) = none

module _ (os : Posix) where
  unfoldable pub leader_exited_unreaped : Action Bool
  leader_exited_unreaped s = elim s.returncode [
    | some _ ↦ raise ownership_lost s
    | none ↦ (waitid os >>= λ status. status_reply status) s
  ]

  unfoldable pub signal_group : ℕ → Action Bool
  signal_group sig = do r ← killpg os sig; signal_reply r

  unfoldable pub group_exists : Action Bool
  group_exists = do r ← killpg os 0; exists_reply r

  -- One turn of the `while True` of `_wait_for_group_absence`.
  unfoldable pub absence_turn : ℕ → Popen → Turn × Popen
  unfolding group_exists
  absence_turn deadline s =
      let (probed, s₁) = group_exists s in
      elim (after_probe probed) [
        | inside ↦ (finished (returned tt), s₁)
        | failing e ↦ (finished (raised e), s₁)
        | out_of_fuel ↦ (finished stalled, s₁)
        | observed last_denial ↦
            let (now, s₂) = clock os s₁ in
            if leb deadline now
            then (finished (raised (denial_or_timeout last_denial)), s₂)
            else (again, (sleep (min poll_interval (deadline - now)) s₂).1)
      ]

  unfoldable pub absence_loop : ℕ → ℕ → Action (Unit {0})
  absence_loop zero deadline s = (stalled, s)
  absence_loop (suc fuel) deadline s =
      let (turn, s') = absence_turn deadline s in
      elim turn [ finished o ↦ (o, s') | again ↦ absence_loop fuel deadline s' ]

  unfoldable pub wait_for_group_absence : ℕ → ℕ → Action (Unit {0})
  wait_for_group_absence fuel seconds s =
      let (now, s₁) = clock os s in absence_loop fuel (now + seconds) s₁

  unfoldable pub reap_leader : ℕ → Action (Unit {0})
  reap_leader seconds = do w ← wait os seconds; wait_reply w

  unfoldable pub fail_after_group_signal_error : GroupError → ℕ → Action Bool
  unfolding reap_leader
  fail_after_group_signal_error group_error leader_wait s =
      let (killed, s₁) = kill os s in
      let (reaped, s₂) = reap_leader leader_wait s₁ in
      (after_leader_kill group_error (kill_failure killed) reaped, s₂)

  unfoldable pub finish_exited : ℕ → ℕ → ℕ → Action Bool
  unfolding reap_leader
  finish_exited fuel leader_wait absence_wait = do
    reap_leader leader_wait
    wait_for_group_absence fuel absence_wait
    pure false

  -- What follows a failed or refused group signal: the leader is either finished, or bounded.
  unfoldable pub settle : ℕ → GroupError → ℕ → ℕ → Bool → Action Bool
  settle fuel group_error leader_wait absence_wait exited =
      if exited
      then finish_exited fuel leader_wait absence_wait
      else fail_after_group_signal_error group_error leader_wait

  unfoldable pub check_and_settle : ℕ → GroupError → ℕ → ℕ → Action Bool
  unfolding settle
  check_and_settle fuel group_error leader_wait absence_wait = do
    gone_already ← leader_exited_unreaped
    settle fuel group_error leader_wait absence_wait gone_already

  unfoldable pub after_group_signal : ℕ → ℕ → ℕ → Outcome Bool → Action Bool
  after_group_signal fuel leader_wait absence_wait (returned true) s = (returned true, s)
  after_group_signal fuel leader_wait absence_wait (returned false) s =
      check_and_settle fuel absent_while_running leader_wait absence_wait s
  after_group_signal fuel leader_wait absence_wait (raised e) s =
      if permission_denied e
      then check_and_settle fuel e leader_wait absence_wait s
      else fail_after_group_signal_error e leader_wait s
  after_group_signal fuel leader_wait absence_wait stalled s = (stalled, s)

  unfoldable pub signal_owned_group : ℕ → ℕ → ℕ → ℕ → Action Bool
  unfolding after_group_signal
  signal_owned_group fuel sig leader_wait absence_wait s =
      let (signalled, s₁) = signal_group sig s in
      after_group_signal fuel leader_wait absence_wait signalled s₁

  -- The cooperative grace period between two signals.
  unfoldable pub grace_loop : ℕ → ℕ → Action (Unit {0})
  grace_loop zero deadline s = (stalled, s)
  grace_loop (suc fuel) deadline s =
      let (now, s₁) = clock os s in
      elim (leb deadline now) [
        | true ↦ (returned tt, s₁)
        | false ↦ grace_loop fuel deadline (sleep (deadline - now) s₁).1
      ]

  unfoldable pub grace : ℕ → SignalStep → Bool → Action (Unit {0})
  grace fuel step leader_already_exited s =
      if ltb 0 step.grace_seconds && not leader_already_exited
      then (let (now, s₁) = clock os s in grace_loop fuel (now + step.grace_seconds) s₁)
      else (returned tt, s)

  -- `false` when a step has finished the cleanup already.
  unfoldable pub signal_all : ℕ → ℕ → ℕ → Bool → List SignalStep → Action Bool
  signal_all fuel leader_wait absence_wait exited [] = pure true
  signal_all fuel leader_wait absence_wait exited (step ∷ steps) = do
    going ← signal_owned_group fuel step.selected_signal leader_wait absence_wait
    continue_if going
        (grace fuel step exited >>= λ _. signal_all fuel leader_wait absence_wait exited steps)

  unfoldable pub after_wait_error : ℕ → Action (Unit {0})
  after_wait_error leader_wait = do
    killed ← attempt (kill os)
    elim (kill_failure killed) [
      | some failure ↦ raise (leader_signal_failed failure)
      | none ↦ reap_leader leader_wait
    ]

  -- The `except` clause round the last reap: kill the leader, and reap once more.
  unfoldable pub after_reap : ℕ → Outcome (Unit {0}) → Action (Unit {0})
  unfolding after_wait_error
  after_reap leader_wait (returned u) s = (returned u, s)
  after_reap leader_wait (raised e) s = after_wait_error leader_wait s
  after_reap leader_wait stalled s = (stalled, s)

  unfoldable pub final_reap : ℕ → Action (Unit {0})
  unfolding after_reap
  final_reap leader_wait s =
      let (reaped, s₁) = reap_leader leader_wait s in after_reap leader_wait reaped s₁

  unfoldable pub finish_live : ℕ → ℕ → ℕ → Bool → Action (Unit {0})
  finish_live fuel leader_wait absence_wait going =
      if going
      then (do final_reap leader_wait; wait_for_group_absence fuel absence_wait)
      else pure tt

  unfoldable pub clean_up : ℕ → List SignalStep → ℕ → ℕ → Action (Unit {0})
  unfolding finish_live
  clean_up fuel steps leader_wait absence_wait = do
    exited ← leader_exited_unreaped
    going ← signal_all fuel leader_wait absence_wait exited steps
    finish_live fuel leader_wait absence_wait going

  unfoldable pub terminate_and_reap : ℕ → List SignalStep → ℤ → ℤ → Action (Unit {0})
  unfolding clean_up
  terminate_and_reap fuel [] leader_wait absence_wait = raise invalid_arguments
  terminate_and_reap fuel (step ∷ steps) (pos (suc l)) (pos (suc a)) =
      clean_up fuel (step ∷ steps) (suc l) (suc a)
  terminate_and_reap fuel (step ∷ steps) _ _ = raise invalid_arguments
