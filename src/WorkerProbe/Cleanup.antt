-- ===== src/WorkerProbe/Cleanup.antt =====
-- The probe's own cleanup of a child's group, and the words of its report.
pub mod Signals
use sacrysty.Prelude.{
  ℕ, zero, suc, Bool, true, false, ◌&&◌, not, Option, none, some, List, [], ◌∷◌, ◌++◌, ℤ, pos,
  negsuc, eq_ℤ, Str, codes, mem, if◌then◌else◌,
}
use sacrysty.ProcessGroups.{
  Posix, Popen, Reply, done, fails, esrch, Waited, gone, expired, no_child, Event, group_signal,
  leader_waited, record_event, learn_wait, sleep,
}

-- Nanoseconds.
abbrev wait_seconds : ℕ
wait_seconds = 700_000_000

module _ (os : Posix) where
  -- One signal to the group: whether nothing failed but for a group that is gone.
  abbrev pause_after : ℕ → Reply → Popen → Bool × Popen
  pause_after pause done p = (true, (sleep pause p).1)
  pause_after pause (fails esrch) p = (true, p)
  pause_after pause (fails e) p = (false, p)

  unfoldable pub signal_once : ℕ → ℕ → Popen → Bool × Popen
  signal_once sig pause p =
      let r = os.on_killpg p.trace sig in pause_after pause r (record_event (group_signal sig r) p)

  abbrev is_gone : Waited → Bool
  is_gone expired = false
  is_gone _ = true

  -- p.wait(timeout=0.7)
  unfoldable pub wait_once : Popen → Bool × Popen
  wait_once p = elim p.returncode [
    | some code ↦ (true, p)
    | none ↦
        let r = os.on_wait p.trace wait_seconds in
        (is_gone r, learn_wait r (record_event (leader_waited wait_seconds r) p))
  ]

  -- The second SIGKILL, and the second wait.
  unfoldable pub wait_again : Popen → Popen
  unfolding wait_once
  wait_again p = let r = os.on_killpg p.trace 9 in (wait_once (record_event (group_signal 9 r) p)).1

  abbrev is_absence : Reply → Bool
  is_absence (fails esrch) = true
  is_absence _ = false

  -- os.killpg(p.pid, 0)
  unfoldable pub probe_group : Popen → Bool × Popen
  probe_group p =
      let r = os.on_killpg p.trace 0 in (is_absence r, record_event (group_signal 0 r) p)

  unfoldable pub cleanup_group : Popen → Bool × Popen
  unfolding wait_once signal_once wait_again probe_group
  cleanup_group p =
      let (terminated, p₁) = signal_once 15 200_000_000 p in
      let (killed, p₂) = signal_once 9 50_000_000 p₁ in
      let (waited, p₃) = wait_once p₂ in
      let (absent, p₄) = probe_group (if waited then p₃ else wait_again p₃) in
      (terminated && killed && waited && absent, p₄)

unfoldable pub category : Option ℤ → Str
category none = codes "not_exited"
category (some (pos zero)) = codes "zero"
category (some (pos (suc n))) = codes "nonzero"
category (some (negsuc n)) =
    if eq_ℤ (negsuc n) (negsuc 1) then codes "signal_int" else codes "other_signal"

unfoldable pub enum_value : Option Str → List Str → Str
enum_value none allowed = codes "other"
enum_value (some value) allowed = if mem value allowed then value else codes "other"
