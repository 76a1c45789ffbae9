-- ===== src/WorkerProbe/Capture/Finishing.antt =====
-- What `finish` returns of a child that ended within its bounds.
use sacrysty.Prelude.{
  ℕ, ◌≤◌, Bool, true, false, ◌≡◌, refl, ap, sym, ◌∙◌, ◌&&◌, ◌||◌, not, Option, none, some, List, [],
  ◌∷◌, ◌++◌, ℤ, Bytes, length, take_within, leb, ltb→le,
}
use sacrysty.ProcessGroups.{Posix, Popen}
use sacrysty.WorkerProbe.Capture.{
  stream_cap, out, err, Capture, Block, Poll, Waited, Finished, finished, first_capture, is_some,
  take_blocks, wait_for_child, is_in_bounds, after_join, after_wait, finish,
}
use sacrysty.WorkerProbe.Capture.Bounds.{
  Keeps, exceeds, take_blocks-later, read_of, first_capture-Keeps,
}

-- A capture of some bytes of the two streams.
abbrev pub IsCapture : Capture → Type 0
IsCapture c = (o : Bytes) × ((e : Bytes) × Keeps o e c)

take_blocks-IsCapture :
    (blocks : List Block) (c : Capture) → IsCapture c → IsCapture (take_blocks blocks c)
take_blocks-IsCapture blocks c (o, (e, h)) =
    (o ++ read_of out blocks, (e ++ read_of err blocks, take_blocks-later blocks o e c h))

wait_for_child-IsCapture :
    (deadline : ℕ) (polls : List Poll) (c : Capture)
    → IsCapture c
    → IsCapture (wait_for_child deadline polls c).1
unfolding wait_for_child
wait_for_child-IsCapture deadline [] c h = h
wait_for_child-IsCapture deadline (p ∷ polls) c h =
    let taken = take_blocks-IsCapture p.blocks c h in
    by_tests ((take_blocks p.blocks c).overflow || is_some p.returncode) (leb deadline p.now) taken
      (wait_for_child-IsCapture deadline polls (take_blocks p.blocks c) taken)
  where
    by_tests :
        (a b : Bool)
        → IsCapture (take_blocks p.blocks c)
        → IsCapture (wait_for_child deadline polls (take_blocks p.blocks c)).1
        → IsCapture
            (elim a as (λ x. Option Waited × Capture) [
              | true ↦ (
                some (record { returncode = p.returncode; timed_out = false }),
                take_blocks p.blocks c,
              )
              | false ↦ elim b [
                | true ↦
                    (some (record { returncode = none; timed_out = true }), take_blocks p.blocks c)
                | false ↦ wait_for_child deadline polls (take_blocks p.blocks c)
              ]
            ]).1
    by_tests true b k more = k
    by_tests false true k more = k
    by_tests false false k more = more

no_excess : (s : Bytes) → exceeds s ≡ false → length s ≤ stream_cap
no_excess s h = ltb→le stream_cap (length s) h

-- Where nothing overflowed, all that was read is kept.
whole-kept :
    (c : Capture)
    → IsCapture c
    → c.overflow ≡ false
    → (length c.of_out.bytes ≡ c.of_out.total) × (length c.of_err.bytes ≡ c.of_err.total)
whole-kept c (o, (e, h)) over = (
  ap length (h.out_bytes ∙ take_within stream_cap o (no_excess o (left _ _ (sym h.over ∙ over))))
      ∙ sym h.out_total,
  ap length (h.err_bytes ∙ take_within stream_cap e (no_excess e (right _ _ (sym h.over ∙ over))))
      ∙ sym h.err_total,
)
  where
    left : (a b : Bool) → (a || b) ≡ false → a ≡ false
    left true b k = cc
    left false b k = refl

    right : (a b : Bool) → (a || b) ≡ false → b ≡ false
    right true b k = cc
    right false b k = k

-- What a child that ended within its bounds has: an exit status, and outputs with nothing dropped.
pub record IsWhole (code : Option ℤ) (x y : Bytes) (c : Capture) : Type 0 where
  pub exited : is_some code ≡ true
  pub out_whole : (x ≡ c.of_out.bytes) × (length x ≡ c.of_out.total)
  pub err_whole : (y ≡ c.of_err.bytes) × (length y ≡ c.of_err.total)

abbrev flag : Finished → Bool
flag (finished b code x y) = b
flag _ = false

abbrev code_of : Finished → Option ℤ
code_of (finished b code x y) = code
code_of _ = none

abbrev out_of : Finished → Bytes
out_of (finished b code x y) = x
out_of _ = []

abbrev err_of : Finished → Bytes
err_of (finished b code x y) = y
err_of _ = []

all_of : (a b c d : Bool) → ((not a && not b && c) && not d) ≡ true → (c ≡ true) × (d ≡ false)
all_of false false true false h = (refl, refl)
all_of false false true true h = cc
all_of false false false d h = cc
all_of false true c d h = cc
all_of true b c d h = cc

module _ (os : Posix) where
  after_join-IsWhole :
      (alive : Bool) (w : Waited) (tested c : Capture) (code : Option ℤ) (x y : Bytes)
      → IsCapture c
      → after_join os alive (is_in_bounds os w tested) w c ≡ finished true code x y
      → IsWhole code x y c
  after_join-IsWhole true w tested c code x y h e = cc
  after_join-IsWhole false w tested c code x y h e =
      let (status, over) =
        all_of w.timed_out tested.overflow (is_some w.returncode) c.overflow (ap flag e) in
      let (out_kept, err_kept) = whole-kept c h over in
      record {
        exited = ap is_some (sym (ap code_of e)) ∙ status;
        out_whole = (sym (ap out_of e), ap length (sym (ap out_of e)) ∙ out_kept);
        err_whole = (sym (ap err_of e), ap length (sym (ap err_of e)) ∙ err_kept);
      }

  after_wait-IsWhole :
      (more rest : List Block) (alive : Bool) (p : Popen) (o : Option Waited) (c : Capture)
      (code : Option ℤ) (x y : Bytes)
      → IsCapture c
      → (after_wait os more rest alive p (o, c)).0 ≡ finished true code x y
      → IsWhole code x y (after_wait os more rest alive p (o, c)).1
  after_wait-IsWhole more rest alive p none c code x y h e = cc
  after_wait-IsWhole more rest alive p (some w) c code x y h e =
      let tested = take_blocks-IsCapture more c h in
      after_join-IsWhole alive w (take_blocks more c) (take_blocks rest (take_blocks more c)) code x
        y (take_blocks-IsCapture rest _ tested) e

  -- A child that `finish` reports as bounded has exited, and what is returned of each of its streams
  -- is all that the threads read of it: nothing was dropped.
  pub finish-IsWhole :
      (deadline : ℕ) (polls : List Poll) (more rest : List Block) (alive : Bool) (p : Popen)
      (code : Option ℤ) (x y : Bytes)
      → (finish os deadline polls more rest alive p first_capture).0 ≡ finished true code x y
      → IsWhole code x y (finish os deadline polls more rest alive p first_capture).1
  unfolding finish
  finish-IsWhole deadline polls more rest alive p code x y e =
      after_wait-IsWhole more rest alive p (wait_for_child deadline polls first_capture).0
        (wait_for_child deadline polls first_capture).1 code x y
        (wait_for_child-IsCapture deadline polls first_capture ([], ([], first_capture-Keeps))) e
