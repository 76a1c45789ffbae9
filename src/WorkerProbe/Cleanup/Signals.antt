-- ===== src/WorkerProbe/Cleanup/Signals.antt =====
-- What the probe's cleanup observes, and whom it signals.
use sacrysty.Prelude.{ℕ, Bool, true, false, ◌≡◌, ◌&&◌, ◌∷◌, arith, if◌then◌else◌}
use sacrysty.ProcessGroups.{
  Posix, Popen, Reply, done, fails, esrch, eperm, other, group_signal, record_event,
}
use sacrysty.ProcessGroups.Ownership.{owned, IsDisciplined}
use sacrysty.ProcessGroups.Absence.{IsAbsent}
use sacrysty.WorkerProbe.Cleanup.{
  pause_after, signal_once, wait_once, wait_again, is_absence, probe_group, cleanup_group,
}

last_of : (a b c d : Bool) → (a && b && c && d) ≡ true → d ≡ true
last_of true true true d h = h
last_of true true false d h = cc
last_of true false c d h = cc
last_of false b c d h = cc

module _ (os : Posix) where
  probe_group-IsAbsent :
      (p : Popen) → (probe_group os p).0 ≡ true → IsAbsent (probe_group os p).1.trace
  unfolding probe_group
  probe_group-IsAbsent p h = by_reply (os.on_killpg p.trace 0) h
    where
      by_reply :
          (r : Reply) → is_absence os r ≡ true → IsAbsent (record_event (group_signal 0 r) p).trace
      by_reply (fails esrch) e = tt
      by_reply (fails eperm) e = cc
      by_reply (fails (other n)) e = cc
      by_reply done e = cc

  -- A cleanup that reports success ends on a probe that found no group.
  pub cleanup_group-IsAbsent :
      (p : Popen) → (cleanup_group os p).0 ≡ true → IsAbsent (cleanup_group os p).1.trace
  unfolding cleanup_group
  cleanup_group-IsAbsent p h =
      let terminated = signal_once os 15 200_000_000 p in
      let killed = signal_once os 9 50_000_000 terminated.1 in
      let waited = wait_once os killed.1 in
      let reaped = if waited.0 then waited.1 else wait_again os waited.1 in
      probe_group-IsAbsent reaped
        (last_of terminated.0 killed.0 waited.0 (probe_group os reaped).0 h)

  -- The calls before a step are disciplined where those behind it are.
  signal_once-before :
      (sig pause : ℕ) (p : Popen)
      → IsDisciplined (signal_once os sig pause p).1.trace
      → IsDisciplined (group_signal sig (os.on_killpg p.trace sig) ∷ p.trace)
  unfolding signal_once
  signal_once-before sig pause p h = by_reply (os.on_killpg p.trace sig) h
    where
      by_reply :
          (r : Reply)
          → IsDisciplined (pause_after os pause r (record_event (group_signal sig r) p)).1.trace
          → IsDisciplined (group_signal sig r ∷ p.trace)
      by_reply done k = k.1
      by_reply (fails esrch) k = k
      by_reply (fails eperm) k = k
      by_reply (fails (other n)) k = k

  wait_once-before : (p : Popen) → IsDisciplined (wait_once os p).1.trace → IsDisciplined p.trace
  unfolding wait_once
  wait_once-before p h = ground arith

  wait_again-before : (p : Popen) → IsDisciplined (wait_again os p).trace → IsDisciplined p.trace
  unfolding wait_again
  wait_again-before p h =
      (wait_once-before (record_event (group_signal 9 (os.on_killpg p.trace 9)) p) h).1

  either-before :
      (b : Bool) (p : Popen)
      → IsDisciplined (if b then p else wait_again os p).trace
      → IsDisciplined p.trace
  either-before true p h = h
  either-before false p h = wait_again-before p h

  -- Where the group is no longer the caller's, as behind a leader that was reaped, the cleanup
  -- breaks the discipline of the shared one: it sends the group a nonzero signal.
  pub cleanup_group-undisciplined :
      (p : Popen) → owned p.trace ≡ false → ¬ (IsDisciplined (cleanup_group os p).1.trace)
  unfolding cleanup_group probe_group
  cleanup_group-undisciplined p e h =
      let terminated = (signal_once os 15 200_000_000 p).1 in
      let killed = (signal_once os 9 50_000_000 terminated).1 in
      let (waited, reaped) = wait_once os killed in
      let before = wait_once-before killed (either-before waited reaped h.1) in
      no_signal
        (signal_once-before 15 200_000_000 p
          (signal_once-before 9 50_000_000 terminated before).1).0
    where
      no_signal : owned p.trace ≡ true → ⊥
      no_signal k = cc
