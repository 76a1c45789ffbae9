-- ===== src/WorkerProbe.antt =====
-- docs/research/fido-worker-interfaces/evidence/probe.py: the plugin that stands in for a worker, and
-- the checks and the cleanup of the probe that runs it.
pub mod Base64
pub mod Stanza
pub mod Phase
pub mod Cleanup
pub mod Capture
mod Tests
