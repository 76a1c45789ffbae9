-- ===== src/ProcessGroups/Ownership.antt =====
-- When the numeric group stops being the caller's, and the calls that send no group signal of
-- their own.
use sacrysty.Prelude.{ℕ, zero, suc, Bool, true, false, not, List, [], ◌∷◌, ◌≡◌, all, arith}
use sacrysty.ProcessGroups.{
  Posix, Event, group_signal, status_check, leader_waited, leader_killed, gone, no_child, found,
  not_child, Popen, GroupError, killpg, waitid, wait, kill, clock, leader_exited_unreaped,
  absence_turn, absence_loop, wait_for_group_absence, reap_leader, fail_after_group_signal_error,
}

-- The calls after which the numeric group is no longer the caller's.
abbrev pub ends_ownership : Event → Bool
ends_ownership (leader_waited _ (gone _)) = true
ends_ownership (leader_waited _ no_child) = true
ends_ownership (leader_killed (found _)) = true
ends_ownership (status_check not_child) = true
ends_ownership _ = false

abbrev pub owned : List Event → Bool
owned t = all (λ e. not (ends_ownership e)) t

abbrev pub IsAllowed : Event → List Event → Type 0
IsAllowed (group_signal (suc n) r) t = owned t ≡ true
IsAllowed _ t = Unit

abbrev pub IsDisciplined : List Event → Type 0
IsDisciplined [] = Unit
IsDisciplined (e ∷ t) = IsAllowed e t × IsDisciplined t

module _ (os : Posix) where
  pub wait-IsDisciplined :
      (seconds : ℕ) (s : Popen) → IsDisciplined s.trace → IsDisciplined (wait os seconds s).1.trace
  unfolding wait
  wait-IsDisciplined seconds s h = ground arith

  pub kill-IsDisciplined : (s : Popen) → IsDisciplined s.trace → IsDisciplined (kill os s).1.trace
  unfolding kill
  kill-IsDisciplined s h = ground arith

  pub reap_leader-IsDisciplined :
      (seconds : ℕ) (s : Popen)
      → IsDisciplined s.trace
      → IsDisciplined (reap_leader os seconds s).1.trace
  unfolding reap_leader
  reap_leader-IsDisciplined seconds s h = ground (arith, wait-IsDisciplined seconds s)

  -- The status check does not end the ownership when it returns.
  pub leader_exited_unreaped-IsDisciplined :
      (s : Popen) → IsDisciplined s.trace → IsDisciplined (leader_exited_unreaped os s).1.trace
  unfolding leader_exited_unreaped waitid
  leader_exited_unreaped-IsDisciplined s h = ground arith

  pub absence_turn-IsDisciplined :
      (deadline : ℕ) (s : Popen)
      → IsDisciplined s.trace
      → IsDisciplined (absence_turn os deadline s).1.trace
  unfolding absence_turn killpg clock
  absence_turn-IsDisciplined deadline s h = ground arith

  pub absence_loop-IsDisciplined :
      (fuel deadline : ℕ) (s : Popen)
      → IsDisciplined s.trace
      → IsDisciplined (absence_loop os fuel deadline s).1.trace
  unfolding absence_loop
  absence_loop-IsDisciplined zero deadline s h = h
  absence_loop-IsDisciplined (suc fuel) deadline s h = ground (
    arith,
    absence_turn-IsDisciplined deadline s h,
    absence_loop-IsDisciplined fuel deadline (absence_turn os deadline s).1,
  )

  pub wait_for_group_absence-IsDisciplined :
      (fuel seconds : ℕ) (s : Popen)
      → IsDisciplined s.trace
      → IsDisciplined (wait_for_group_absence os fuel seconds s).1.trace
  unfolding wait_for_group_absence clock
  wait_for_group_absence-IsDisciplined fuel seconds s h =
      absence_loop-IsDisciplined fuel _ _ (tt, h)

  pub fail_after-IsDisciplined :
      (e : GroupError) (lw : ℕ) (s : Popen)
      → IsDisciplined s.trace
      → IsDisciplined (fail_after_group_signal_error os e lw s).1.trace
  unfolding fail_after_group_signal_error
  fail_after-IsDisciplined e lw s h = reap_leader-IsDisciplined lw _ (kill-IsDisciplined s h)
