-- ===== src/Evidence.antt =====
-- conformance/sq_evidence_process.py: one selected process, bounded in time, in output and in file
-- size, with receipts of its cleanup. Its limits and paths here; its steps in the modules below.
pub mod Files
pub mod Trace
pub mod Setup
pub mod Watch
pub mod Receipt
pub mod Run
mod Tests
use sacrysty.Prelude.{
  ℕ, ◌+◌, ◌-◌, ◌*◌, Bool, true, false, ◌&&◌, Option, none, some, List, [], ◌∷◌, ◌++◌, ℤ, pos,
  negsuc, suc, Str, Bytes, codes, str_eq, if◌then◌else◌,
}
use sacrysty.ProcessGroups.{SignalStep}
use Files.{BoundaryError, unknown_mode, Result, done, raises, Io, give, throw, from_option}

abbrev pub stream_limit_bytes : ℕ
stream_limit_bytes = 1024 * 1024

abbrev pub file_limit_bytes : ℕ
file_limit_bytes = 16 * 1024 * 1024

-- Seconds are whole nanoseconds.
abbrev pub second : ℕ
second = 1_000_000_000

abbrev pub kill_grace : ℕ
kill_grace = second

abbrev pub inner_cleanup : ℕ
inner_cleanup = 250_000_000 + 2 * kill_grace

abbrev pub outer_cooperative_margin : ℕ
outer_cooperative_margin = second

abbrev pub process_cleanup_receipt : Bytes
process_cleanup_receipt = codes "io.nisavid.sacrysty.process-cleanup/v1\n"

abbrev pub runner_cleanup_receipt : Bytes
runner_cleanup_receipt = codes "io.nisavid.sacrysty.runner-cleanup/v1\n"

pub record ProcessLimits : Type 0 where
  pub timeout_seconds : ℕ
  pub terminate_grace_seconds : ℕ

pub record ProcessOutputPaths : Type 0 where
  pub status : Str
  pub stdout : Str
  pub stderr : Str

abbrev pub all_paths : ProcessOutputPaths → List Str
all_paths p = p.status ∷ p.stdout ∷ p.stderr ∷ []

abbrev pub cleanup_receipt_path : Str → Str
cleanup_receipt_path status = status ++ codes ".cleanup"

abbrev pub runner_receipt_path : Str → Str
runner_receipt_path status = status ++ codes ".runner-cleanup"

abbrev pub runner_trace_path : Str → Str
runner_trace_path status = runner_receipt_path status ++ codes ".trace"

abbrev pub cancellation_marker_path : Str → Str
cancellation_marker_path status = status ++ codes ".cancel"

abbrev pub tool_limits : ProcessLimits
tool_limits = record { timeout_seconds = 120 * second; terminate_grace_seconds = 250_000_000 }

abbrev pub probe_limits : ProcessLimits
probe_limits = record {
  timeout_seconds = 900 * second;
  terminate_grace_seconds = inner_cleanup + outer_cooperative_margin;
}

abbrev pub is_probe : Str → Bool
is_probe mode = str_eq mode (codes "probe")

-- Only a probe is cancelled by the marker's file.
unfoldable pub cancellation_requested : Str → Bool → Bool
cancellation_requested mode marker = is_probe mode && marker

-- `PROCESS_LIMITS[mode]`
unfoldable pub limits_for : Str → Io ProcessLimits
limits_for mode =
    if str_eq mode (codes "tool")
    then give tool_limits
    else if is_probe mode
    then give probe_limits
    else throw (unknown_mode mode)

-- SIGTERM with the grace period of the limits, then SIGKILL.
abbrev pub signal_steps : ProcessLimits → List SignalStep
signal_steps limits =
    record { selected_signal = 15; grace_seconds = limits.terminate_grace_seconds }
    ∷ record { selected_signal = 9; grace_seconds = 0 }
    ∷ []

-- A return code -n, of a signal, becomes 128 + n.
unfoldable pub normalized_status : ℤ → ℕ
normalized_status (pos n) = n
normalized_status (negsuc n) = 128 + suc n
