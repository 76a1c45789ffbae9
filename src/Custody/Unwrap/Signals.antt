-- ===== src/Custody/Unwrap/Signals.antt =====
-- The caller's signal mask and its handlers of SIGINT and SIGTERM, and the calls of the signal
-- module that `unwrap` makes.
use sacrysty.Prelude.{Bool, true, false, not, if◌then◌else◌}
use sacrysty.Custody.Exchange.{Signal, sigint, sigterm}

pub data Response : Type 0 where
  handler_returns handler_raises : Response

-- `signal.getsignal`: SIG_DFL, SIG_IGN, a Python callable, or None for a handler that was not
-- installed from Python.
pub data Disposition : Type 0 where
  default ignored foreign : Disposition
  callable : Response → Disposition

-- The handler in force: the caller's own, or `defer_caller_cancellation`.
pub data Handlers : Type 0 where
  original : Disposition → Handlers
  deferring : Handlers

pub record Mask : Type 0 where
  pub int_blocked : Bool
  pub term_blocked : Bool

pub record SignalState : Type 0 where
  pub mask : Mask
  pub on_int : Handlers
  pub on_term : Handlers

abbrev pub is_ignored : Disposition → Bool
is_ignored ignored = true
is_ignored _ = false

abbrev pub is_foreign : Disposition → Bool
is_foreign foreign = true
is_foreign _ = false

abbrev pub is_blocked : Mask → Signal → Bool
is_blocked m sigint = m.int_blocked
is_blocked m sigterm = m.term_blocked

abbrev pub disposition : SignalState → Signal → Handlers
disposition s sigint = s.on_int
disposition s sigterm = s.on_term

abbrev both_blocked : Mask
both_blocked = record { int_blocked = true; term_blocked = true }

-- pthread_sigmask(SIG_BLOCK, {SIGINT, SIGTERM})
unfoldable pub block : SignalState → SignalState
block s = record s { mask = both_blocked }

-- pthread_sigmask(SIG_SETMASK, mask)
unfoldable pub restore_mask : Mask → SignalState → SignalState
restore_mask m s = record s { mask = m }

abbrev installed : Handlers → Handlers
installed (original ignored) = original ignored
installed _ = deferring

-- The loop that installs the deferring handler, except over SIG_IGN.
unfoldable pub install : SignalState → SignalState
install s = record s { on_int = installed s.on_int; on_term = installed s.on_term }

-- `signal.signal(signal, previous)` for an installed handler: a TypeError for None.
abbrev pub restorable : Disposition → Bool
restorable d = not (is_foreign d)

abbrev restore_int : Disposition → SignalState → SignalState
restore_int ignored s = s
restore_int d s = record s { on_int = original d }

abbrev restore_term : Disposition → SignalState → SignalState
restore_term ignored s = s
restore_term d s = record s { on_term = original d }

-- The loop that restores the handlers, and the mask behind it. A TypeError leaves the rest undone.
unfoldable pub restore_handlers :
    Disposition → Disposition → Mask → SignalState → Bool × SignalState
unfolding restore_mask
restore_handlers on_int on_term mask s =
    if restorable on_int
    then (if restorable on_term
        then (true, restore_mask mask (restore_term on_term (restore_int on_int s)))
        else (false, restore_int on_int s))
    else (false, s)
