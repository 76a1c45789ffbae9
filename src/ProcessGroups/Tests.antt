-- ===== src/ProcessGroups/Tests.antt =====
-- The cleanup on a small simulated system, and the theorems at concrete inputs.
use sacrysty.Prelude.{
  ℕ, zero, suc, ◌+◌, ◌≤◌, List, [], ◌∷◌, ◌≡◌, ◌≢◌, refl, arith, pos, negsuc, some, none,
  if◌then◌else◌,
}
use sacrysty.ProcessGroups.{
  Posix, Event, slept, Reply, done, fails, esrch, eperm, still_running, has_exited, gone, sent,
  Popen, returned, raised, stalled, SignalStep, signal_step, terminate_and_reap,
  leader_exited_unreaped, waitid, signal_all, signal_owned_group, signal_group, killpg, grace,
  grace_loop, clock, final_reap, reap_leader, wait, wait_for_group_absence, absence_loop,
  absence_turn, check_and_settle, finish_exited, ownership_lost,
}
use sacrysty.ProcessGroups.Ownership.{owned, IsDisciplined}
use sacrysty.ProcessGroups.Discipline.{terminate_and_reap-IsDisciplined}
use sacrysty.ProcessGroups.Absence.{IsClean, terminate_and_reap-IsClean}
use sacrysty.ProcessGroups.Termination.{IsSteady, terminate_and_reap-ends}

-- The clock advances by one with each call, and by the time slept.
abbrev ticks : List Event → ℕ
ticks [] = 0
ticks (slept d ∷ t) = suc (d + ticks t)
ticks (_ ∷ t) = suc (ticks t)

-- The group is there until its leader is reaped.
abbrev probe_reply : List Event → ℕ → Reply
probe_reply t zero = if owned t then done else fails esrch
probe_reply t (suc n) = done

abbrev healthy : Posix
healthy = record {
  on_killpg = probe_reply;
  on_waitid = λ t. still_running;
  on_wait = λ t seconds. gone (negsuc 8);
  on_kill = λ t. sent;
  monotonic = ticks;
}

-- The leader has exited, and the system denies the nonzero signal but knows that the group is gone.
abbrev denial_reply : List Event → ℕ → Reply
denial_reply t zero = fails esrch
denial_reply t (suc n) = fails eperm

abbrev denying : Posix
denying = record {
  on_killpg = denial_reply;
  on_waitid = λ t. has_exited;
  on_wait = λ t seconds. gone (pos 0);
  on_kill = λ t. sent;
  monotonic = ticks;
}

abbrev fresh : Popen
fresh = record { returncode = none; trace = [] }

abbrev both : List SignalStep
both =
    record { selected_signal = 15; grace_seconds = 250 }
    ∷ record { selected_signal = 9; grace_seconds = 0 }
    ∷ []

healthy_returns : (terminate_and_reap healthy 3 both (pos 1000) (pos 1000) fresh).0 ≡ returned tt
unfolding terminate_and_reap leader_exited_unreaped waitid signal_all signal_owned_group
    signal_group killpg grace grace_loop clock final_reap reap_leader wait wait_for_group_absence
    absence_loop absence_turn check_and_settle finish_exited
healthy_returns = refl

denying_returns : (terminate_and_reap denying 3 both (pos 1000) (pos 1000) fresh).0 ≡ returned tt
unfolding terminate_and_reap leader_exited_unreaped waitid signal_all signal_owned_group
    signal_group killpg grace grace_loop clock final_reap reap_leader wait wait_for_group_absence
    absence_loop absence_turn check_and_settle finish_exited
denying_returns = refl

lost_before :
    terminate_and_reap healthy 3 both
      (pos 1000)
      (pos 1000)
      (record fresh { returncode = some (pos 0) })
    ≡ (raised ownership_lost, record fresh { returncode = some (pos 0) })
unfolding terminate_and_reap leader_exited_unreaped
lost_before = refl

step_rejected : signal_step 0 (pos 5) ≡ none
unfolding signal_step
step_rejected = refl

ticks_advances : (e : Event) (t : List Event) → ticks t ≤ ticks (e ∷ t)
ticks_advances e t = ground arith

healthy-IsSteady : IsSteady healthy
healthy-IsSteady = record { advances = ticks_advances; sleeps = λ d t. omega arith }

terminate_and_reap-IsDisciplined_example :
    IsDisciplined (terminate_and_reap healthy 3 both (pos 1000) (pos 1000) fresh).1.trace
terminate_and_reap-IsDisciplined_example =
    terminate_and_reap-IsDisciplined healthy 3 both (pos 1000) (pos 1000) fresh tt refl

terminate_and_reap-IsClean_example :
    IsClean (terminate_and_reap healthy 3 both (pos 1000) (pos 1000) fresh).1
terminate_and_reap-IsClean_example =
    terminate_and_reap-IsClean healthy 3 both (pos 1000) (pos 1000) fresh healthy_returns

terminate_and_reap-ends_example :
    (terminate_and_reap healthy 3 both (pos 1000) (pos 1000) fresh).0 ≢ stalled
terminate_and_reap-ends_example =
    terminate_and_reap-ends healthy healthy-IsSteady 3 both (pos 1000) 1000 fresh (omega arith)
      (omega arith)
