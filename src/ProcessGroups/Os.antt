-- ===== src/ProcessGroups/Os.antt =====
-- The operating system as sacrysty_runtime/process_groups.py meets it: each call's reply is given
-- by an oracle from the calls made so far, so a theorem over every oracle covers every behaviour
-- of the processes, of the clock and of the scheduler.
use sacrysty.Prelude.{ℕ, Bool, true, false, Option, none, some, List, ◌∷◌, ℤ}

pub data Errno : Type 0 where
  esrch eperm : Errno
  other : Option ℕ → Errno

-- os.killpg
pub data Reply : Type 0 where
  done : Reply
  fails : Errno → Reply

-- os.waitid with WEXITED | WNOHANG | WNOWAIT
pub data Status : Type 0 where
  still_running has_exited not_child : Status
  status_error : Errno → Status

-- Popen.wait(timeout)
pub data Waited : Type 0 where
  gone : ℤ → Waited
  expired no_child : Waited

-- Popen.kill, which polls before it signals
pub data Killed : Type 0 where
  sent : Killed
  found : ℤ → Killed
  kill_error : Errno → Killed

pub data Event : Type 0 where
  group_signal : ℕ → Reply → Event
  status_check : Status → Event
  leader_waited : ℕ → Waited → Event
  leader_killed : Killed → Event
  clock_read : ℕ → Event
  slept : ℕ → Event

-- The newest event stands first.
pub record Posix : Type 0 where
  pub on_killpg : List Event → ℕ → Reply
  pub on_waitid : List Event → Status
  pub on_wait : List Event → ℕ → Waited
  pub on_kill : List Event → Killed
  pub monotonic : List Event → ℕ

-- The handle of the leader.
pub record Popen : Type 0 where
  pub returncode : Option ℤ
  pub trace : List Event

-- `ProcessGroupError` by its message and cause; `invalid_arguments` is the `ValueError`.
pub data GroupError : Type 0 where
  ownership_lost group_timed_out leader_timed_out absent_while_running invalid_arguments :
      GroupError
  status_failed signal_failed check_failed leader_signal_failed : Errno → GroupError

pub data Outcome {ℓ} (A : Type ℓ) : Type ℓ where
  returned : A → Outcome A
  raised : GroupError → Outcome A
  stalled : Outcome A

abbrev pub Action : Type 0 → Type 0
Action A = Popen → Outcome A × Popen

abbrev pub pure : {A : Type 0} → A → Action A
pure a s = (returned a, s)

abbrev pub raise : {A : Type 0} → GroupError → Action A
raise e s = (raised e, s)

abbrev pub resume : {A B : Type 0} → Outcome A → (A → Action B) → Action B
resume (returned a) f s = f a s
resume (raised e) f s = (raised e, s)
resume stalled f s = (stalled, s)

infixl 5 ◌>>=◌ ◌>>◌
abbrev pub ◌>>=◌ : {A B : Type 0} → Action A → (A → Action B) → Action B
◌>>=◌ m f s = let (o, s') = m s in resume o f s'

abbrev pub ◌>>◌ : {A B : Type 0} → Action A → Action B → Action B
m >> k = m >>= λ _. k

-- A call that has a reply and raises nothing by itself.
abbrev pub Call : Type 0 → Type 0
Call A = Popen → A × Popen

abbrev pub attempt : {A : Type 0} → Call A → Action A
attempt c s = let (a, s') = c s in (returned a, s')

abbrev pub record_event : Event → Popen → Popen
record_event e s = record s { trace = e ∷ s.trace }

-- The handle learns the exit status from the call that reaps the leader.
abbrev pub learn_wait : Waited → Popen → Popen
learn_wait (gone code) s = record s { returncode = some code }
learn_wait _ s = s

abbrev pub learn_kill : Killed → Popen → Popen
learn_kill (found code) s = record s { returncode = some code }
learn_kill _ s = s

module _ (os : Posix) where
  unfoldable pub killpg : ℕ → Action Reply
  killpg sig s =
      let r = os.on_killpg s.trace sig in (returned r, record_event (group_signal sig r) s)

  unfoldable pub waitid : Action Status
  waitid s = let r = os.on_waitid s.trace in (returned r, record_event (status_check r) s)

  -- A leader that is reaped already is not waited for, and is not signalled.
  unfoldable pub wait : ℕ → Action Waited
  wait seconds s = elim s.returncode [
    | some code ↦ (returned (gone code), s)
    | none ↦
        let r = os.on_wait s.trace seconds in
        (returned r, learn_wait r (record_event (leader_waited seconds r) s))
  ]

  unfoldable pub kill : Call Killed
  kill s = elim s.returncode [
    | some code ↦ (found code, s)
    | none ↦ let r = os.on_kill s.trace in (r, learn_kill r (record_event (leader_killed r) s))
  ]

  unfoldable pub clock : Call ℕ
  clock s = let now = os.monotonic s.trace in (now, record_event (clock_read now) s)

abbrev pub sleep : ℕ → Action (Unit {0})
sleep seconds s = (returned tt, record_event (slept seconds) s)

-- time.sleep(min(0.01, remaining)), in nanoseconds
abbrev pub poll_interval : ℕ
poll_interval = 10_000_000

abbrev pub status_reply : Status → Action Bool
status_reply still_running = pure false
status_reply has_exited = pure true
status_reply not_child = raise ownership_lost
status_reply (status_error e) = raise (status_failed e)

abbrev pub signal_reply : Reply → Action Bool
signal_reply done = pure true
signal_reply (fails esrch) = pure false
signal_reply (fails eperm) = raise (signal_failed eperm)
signal_reply (fails (other n)) = raise (signal_failed (other n))

abbrev pub exists_reply : Reply → Action Bool
exists_reply done = pure true
exists_reply (fails esrch) = pure false
exists_reply (fails eperm) = raise (check_failed eperm)
exists_reply (fails (other n)) = raise (check_failed (other n))

abbrev pub wait_reply : Waited → Action (Unit {0})
wait_reply (gone code) = pure tt
wait_reply expired = raise leader_timed_out
wait_reply no_child = raise ownership_lost

-- The `cause` of the error is an OSError with EPERM.
abbrev pub permission_denied : GroupError → Bool
permission_denied (status_failed eperm) = true
permission_denied (signal_failed eperm) = true
permission_denied (check_failed eperm) = true
permission_denied _ = false

pub data Probe : Type 0 where
  inside out_of_fuel : Probe
  failing : GroupError → Probe
  observed : Option GroupError → Probe

-- The `try` of `_wait_for_group_absence`: the group is absent, the error is raised again, or the
-- loop goes on with the last denial.
abbrev pub after_probe : Outcome Bool → Probe
after_probe (returned false) = inside
after_probe (returned true) = observed none
after_probe (raised (check_failed eperm)) = observed (some (check_failed eperm))
after_probe (raised e) = failing e
after_probe stalled = out_of_fuel

abbrev pub denial_or_timeout : Option GroupError → GroupError
denial_or_timeout (some denial) = denial
denial_or_timeout none = group_timed_out

pub data Turn : Type 0 where
  finished : Outcome (Unit {0}) → Turn
  again : Turn

-- `except OSError`, in which ESRCH is passed over.
abbrev pub kill_failure : Killed → Option Errno
kill_failure (kill_error eperm) = some eperm
kill_failure (kill_error (other n)) = some (other n)
kill_failure _ = none

abbrev pub after_leader_kill : GroupError → Option Errno → Outcome (Unit {0}) → Outcome Bool
after_leader_kill group_error failure (returned _) = raised group_error
after_leader_kill group_error (some failure) (raised e) = raised (leader_signal_failed failure)
after_leader_kill group_error none (raised e) = raised e
after_leader_kill group_error failure stalled = stalled

abbrev pub continue_if : Bool → Action Bool → Action Bool
continue_if true rest = rest
continue_if false rest = pure false
