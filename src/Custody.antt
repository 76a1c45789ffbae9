-- ===== src/Custody.antt =====
-- adapters/fido_custody.py: the one-shot custody adapter. Its records and errors; the operations
-- are in the modules below.
pub mod Environment
pub mod Configure
pub mod Exchange
pub mod Message
pub mod Unwrap
pub mod Launcher
use sacrysty.Prelude.{ℕ, Bool, Option, List, ℤ, Str, Bytes}
use sacrysty.Json.{Value}

pub record CustodyRequest : Type 0 where
  pub envelope : Bytes
  pub profile_revision : Str
  pub plugin_digest : Str
  pub age_digest : Str

-- The members of the worker's message are kept as they were decoded.
pub record CustodyEvidence : Type 0 where
  pub result : Str
  pub uv_mode : Value
  pub timing_class : Value
  pub profile_revision : Value
  pub plugin_digest : Value
  pub age_digest : Value
  pub plaintext_sha256 : Str

pub record CustodyResult : Type 0 where
  pub plaintext : Bytes
  pub evidence : CustodyEvidence

-- `CustodyError` by its diagnostic.
pub data CustodyError : Type 0 where
  debugging_forbidden main_thread_required empty_envelope envelope_too_large : CustodyError
  worker_unavailable worker_timeout stderr_too_large output_too_large io_failure : CustodyError
  worker_ownership_lost worker_cleanup_failure worker_interrupted propagation_failed : CustodyError
  worker_failure malformed_output rejected_envelope incomplete_output malformed_plaintext :
      CustodyError
  digest_mismatch profile_mismatch plugin_mismatch age_mismatch unknown_uv_mode : CustodyError
  unknown_timing_class : CustodyError
