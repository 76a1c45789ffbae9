-- ===== src/WorkerProbe/Capture.antt =====
-- The threads that read a child's streams, and `finish`, which waits for the child.
pub mod Bounds
pub mod Finishing
use sacrysty.Prelude.{
  ℕ, zero, suc, ◌+◌, ◌-◌, Bool, true, false, ◌&&◌, ◌||◌, not, Option, none, some, List, [], ◌∷◌,
  ◌++◌, ℤ, Bytes, length, take, leb, ltb, if◌then◌else◌,
}
use sacrysty.ProcessGroups.{Posix, Popen}
use sacrysty.WorkerProbe.Cleanup.{cleanup_group}

abbrev pub stream_cap : ℕ
stream_cap = 65536

pub data Key : Type 0 where
  out err : Key

-- One stream of `state`: what is kept, and how much was read.
pub record Kept : Type 0 where
  pub bytes : Bytes
  pub total : ℕ

-- `state` of spawn, with the number of times that a thread stops the group.
pub record Capture : Type 0 where
  pub of_out : Kept
  pub of_err : Kept
  pub overflow : Bool
  pub stops : ℕ

-- A block that a thread read, which is not empty and at most 4096 bytes.
pub record Block : Type 0 where
  pub key : Key
  pub bytes : Bytes

abbrev pub first_capture : Capture
first_capture = record {
  of_out = record { bytes = []; total = 0 };
  of_err = record { bytes = []; total = 0 };
  overflow = false;
  stops = 0;
}

unfoldable pub keep : Bytes → Kept → Kept
keep block k = record {
  bytes = k.bytes ++ take (stream_cap - length k.bytes) block;
  total = k.total + length block;
}

abbrev pub kept_of : Key → Capture → Kept
kept_of out c = c.of_out
kept_of err c = c.of_err

abbrev pub put_kept : Key → Kept → Capture → Capture
put_kept out k c = record c { of_out = k }
put_kept err k c = record c { of_err = k }

-- What a thread does under the lock, and the stop behind it.
unfoldable pub take_block : Block → Capture → Capture
unfolding keep
take_block b c =
    let c' = put_kept b.key (keep b.bytes (kept_of b.key c)) c in
    if ltb stream_cap (kept_of b.key c').total && not c.overflow
    then record c' { overflow = true; stops = suc c.stops }
    else c'

-- The blocks in the order in which the threads take the lock.
unfoldable pub take_blocks : List Block → Capture → Capture
take_blocks [] c = c
take_blocks (b ∷ blocks) c = take_blocks blocks (take_block b c)

-- A turn of the loop of `finish`: the blocks that were taken before it, what poll returns and the clock.
pub record Poll : Type 0 where
  pub blocks : List Block
  pub returncode : Option ℤ
  pub now : ℕ

-- How the loop ends: what poll returned, and whether the time was over.
pub record Waited : Type 0 where
  pub returncode : Option ℤ
  pub timed_out : Bool

abbrev pub is_some : Option ℤ → Bool
is_some none = false
is_some (some code) = true

-- The loop; with no more turns it has no end.
unfoldable pub wait_for_child : ℕ → List Poll → Capture → Option Waited × Capture
unfolding take_blocks
wait_for_child deadline [] c = (none, c)
wait_for_child deadline (p ∷ polls) c =
    elim ((take_blocks p.blocks c).overflow || is_some p.returncode) [
      | true ↦
          (some (record { returncode = p.returncode; timed_out = false }), take_blocks p.blocks c)
      | false ↦ elim (leb deadline p.now) [
        | true ↦ (some (record { returncode = none; timed_out = true }), take_blocks p.blocks c)
        | false ↦ wait_for_child deadline polls (take_blocks p.blocks c)
      ]
    ]

-- What `finish` returns, its Fail where a thread is alive, or no end.
pub data Finished : Type 0 where
  finished : Bool → Option ℤ → Bytes → Bytes → Finished
  capture_failed unfinished : Finished

-- What follows the loop: the blocks up to the test, the cleanup, and the blocks up to the threads' end.
abbrev pub polled : Option ℤ → Popen → Popen
polled none p = p
polled (some code) p = record p { returncode = some code }

module _ (os : Posix) where
  abbrev pub is_in_bounds : Waited → Capture → Bool
  is_in_bounds w c = not w.timed_out && not c.overflow && is_some w.returncode

  abbrev pub after_join : Bool → Bool → Waited → Capture → Finished
  after_join true bounded w c = capture_failed
  after_join false bounded w c =
      finished (bounded && not c.overflow) w.returncode c.of_out.bytes c.of_err.bytes

  abbrev pub after_wait :
      List Block → List Block → Bool → Popen → Option Waited × Capture → Finished × Capture × Popen
  after_wait more rest alive p (none, c) = (unfinished, c, p)
  after_wait more rest alive p (some w, c) =
      let tested = take_blocks more c in
      let bounded = is_in_bounds w tested in
      let last = take_blocks rest tested in
      let q = polled w.returncode p in
      (after_join alive bounded w last, last, if bounded then q else (cleanup_group os q).1)

  unfoldable pub finish :
      ℕ → List Poll → List Block → List Block → Bool → Popen → Capture → Finished × Capture × Popen
  unfolding wait_for_child
  finish deadline polls more rest alive p c =
      after_wait more rest alive p (wait_for_child deadline polls c)
