-- ===== src/Evidence/Watch/Machine.antt =====
-- What the loop may do to a session, as a machine: each stream takes bytes within the limit while it
-- is open and closes once, and the cleanup is complete once. The loop refines it.
use sacrysty.Prelude.{◌≤◌, Bool, true, false, ◌≡◌, ◌++◌, Bytes, length}
use sacrysty.Evidence.{stream_limit_bytes}
use sacrysty.Evidence.Watch.{Session, Progress, next, stop}

-- What is seen of a session from outside.
pub record View : Type 0 where
  pub out : Bytes
  pub err : Bytes
  pub out_open : Bool
  pub err_open : Bool
  pub settled : Bool

abbrev pub view : Session → View
view s = record {
  out = s.out;
  err = s.err;
  out_open = s.out_open;
  err_open = s.err_open;
  settled = s.cleanup_complete;
}

pub data Moves : View → View → Type 0 where
  keeps_out :
      (v : View) (b : Bytes)
      → v.out_open ≡ true
      → length (v.out ++ b) ≤ stream_limit_bytes
      → Moves v (record v { out = v.out ++ b })
  keeps_err :
      (v : View) (b : Bytes)
      → v.err_open ≡ true
      → length (v.err ++ b) ≤ stream_limit_bytes
      → Moves v (record v { err = v.err ++ b })
  closes_out : (v : View) → v.out_open ≡ true → Moves v (record v { out_open = false })
  closes_err : (v : View) → v.err_open ≡ true → Moves v (record v { err_open = false })
  settles : (v : View) → v.settled ≡ false → Moves v (record v { settled = true })

pub data Reaches (v : View) : View → Type 0 where
  here : Reaches v v
  then_moves : {u w : View} → Reaches v u → Moves u w → Reaches v w

-- No process is asked for and no stream is open.
abbrev pub IsOver : View → Type 0
IsOver v = (v.settled ≡ true) × ((v.out_open ≡ false) × (v.err_open ≡ false))

-- A run of the loop refines the machine: it moves as the machine does, and where it does not stop
-- with a failure it is over.
abbrev pub Refines : View → Progress × Session → Type 0
Refines v (next, s) = Reaches v (view s) × IsOver (view s)
Refines v (stop f, s) = Reaches v (view s)
