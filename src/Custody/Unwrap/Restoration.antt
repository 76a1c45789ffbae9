-- ===== src/Custody/Unwrap/Restoration.antt =====
-- The caller's signal mask and handlers after `unwrap`.
use sacrysty.Prelude.{
  Bool, true, false, ◌≡◌, refl, not, ltb, is_empty, length, ℕ, Str, Bytes, arith, if◌then◌else◌,
}
use sacrysty.ProcessGroups.{Posix}
use sacrysty.Custody.{CustodyRequest}
use sacrysty.Custody.Configure.{Adapter}
use sacrysty.Custody.Exchange.{Signal, sigint, sigterm}
use sacrysty.Custody.Unwrap.{
  Caller, World, Unwrapped, unwrap, guarded, type_error, previous, is_stopped, fly, clean_flight,
}
use sacrysty.Custody.Unwrap.Signals.{
  disposition, is_foreign, SignalState, original, deferring, block, install, restore_mask,
  restore_handlers,
}

-- The mask and the handlers that the caller had.
abbrev pub caller_signals : Caller → SignalState
caller_signals c = record {
  mask = c.mask;
  on_int = original c.on_int;
  on_term = original c.on_term;
}

module _ (c : Caller) where
  restore_foreign :
      (signal : Signal)
      → is_foreign (previous c signal) ≡ true
      → let (restored, s) =
          restore_handlers c.on_int c.on_term c.mask
            (block (restore_mask c.mask (install (block (caller_signals c))))) in
        (restored ≡ false)
        × (s.mask.int_blocked ≡ true)
        × (s.mask.term_blocked ≡ true)
        × (disposition s signal ≡ deferring)
  unfolding restore_handlers restore_mask install block
  restore_foreign sigint f = ground arith
  restore_foreign sigterm f = ground arith

if-signals :
    (b : Bool) (u v : Unwrapped) {s : SignalState}
    → u.signals ≡ s
    → v.signals ≡ s
    → (if b then u else v).signals ≡ s
if-signals true u v h k = h
if-signals false u v h k = k

module _ (os : Posix) (fuel : ℕ) (sha256 : Bytes → Str) (a : Adapter) (c : Caller) (w : World)
    (request : CustodyRequest) where
  guarded_restores :
      is_foreign c.on_int ≡ false
      → is_foreign c.on_term ≡ false
      → (guarded os fuel sha256 a c w request).signals ≡ caller_signals c
  unfolding guarded restore_handlers restore_mask install block
  guarded_restores h k = ground arith

  -- If both handlers were installed from Python (or are the default, or ignored), `unwrap` leaves
  -- the caller's mask and both handlers as they were, on every path.
  pub unwrap_restores :
      is_foreign c.on_int ≡ false
      → is_foreign c.on_term ≡ false
      → (unwrap os fuel sha256 a c w request).signals ≡ caller_signals c
  unfolding unwrap
  unwrap_restores h k = if-signals (not c.is_main_thread) _ _ refl (
      if-signals (is_empty request.envelope) _ _ refl (
        if-signals (ltb a.max_envelope_bytes (length request.envelope)) _ _ refl
          (guarded_restores h k)))

  guarded_foreign :
      (signal : Signal)
      → is_foreign (previous c signal) ≡ true
      → is_stopped (fly os a c w request).attempt (clean_flight os fuel (fly os a c w request)).0
        ≡ false
      → let u = guarded os fuel sha256 a c w request in
        (u.ending ≡ type_error)
        × (u.signals.mask.int_blocked ≡ true)
        × (u.signals.mask.term_blocked ≡ true)
        × (disposition u.signals signal ≡ deferring)
  unfolding guarded
  guarded_foreign signal f n =
      let (unrestored, int_blocked, term_blocked, left) = restore_foreign c signal f in
      (rw (n, unrestored) refl, int_blocked, term_blocked, left)

  -- Take a call that passes the first three tests while the handler of SIGINT or of SIGTERM was not
  -- installed from Python. If its exchange and its cleanup come to an end, it ends in a TypeError,
  -- and leaves both signals blocked and the deferring handler in place of that handler.
  pub foreign_handler_unrestored :
      (signal : Signal)
      → is_foreign (previous c signal) ≡ true
      → c.is_main_thread ≡ true
      → is_empty request.envelope ≡ false
      → ltb a.max_envelope_bytes (length request.envelope) ≡ false
      → is_stopped (fly os a c w request).attempt (clean_flight os fuel (fly os a c w request)).0
        ≡ false
      → let u = unwrap os fuel sha256 a c w request in
        (u.ending ≡ type_error)
        × (u.signals.mask.int_blocked ≡ true)
        × (u.signals.mask.term_blocked ≡ true)
        × (disposition u.signals signal ≡ deferring)
  unfolding unwrap guarded
  foreign_handler_unrestored signal f m e l n = rw (m, e, l) (guarded_foreign signal f n)
