-- ===== src/WorkerProbe/Capture/Bounds.antt =====
-- What the threads keep, in whatever order they take the lock.
use sacrysty.Prelude.{
  ℕ, zero, suc, ◌+◌, ◌-◌, ◌≤◌, Bool, true, false, ◌≡◌, refl, ap, sym, ◌∙◌, ◌&&◌, ◌||◌, not, List,
  [], ◌∷◌, ◌++◌, append_nil, Bytes, length, take, length-append, ltb, arith, if◌then◌else◌,
}
use mathlib.Core.List.{append_assoc}
use mathlib.Core.Path.{subst}
use sacrysty.WorkerProbe.Capture.{
  stream_cap, Key, out, err, Kept, Capture, Block, first_capture, keep, take_block, take_blocks,
}

abbrev part : Key → Block → Bytes
part out b = elim b.key [ out ↦ b.bytes | err ↦ [] ]
part err b = elim b.key [ out ↦ [] | err ↦ b.bytes ]

-- The bytes that were read of a stream.
abbrev pub read_of : Key → List Block → Bytes
read_of k [] = []
read_of k (b ∷ blocks) = part k b ++ read_of k blocks

abbrev pub exceeds : Bytes → Bool
exceeds s = ltb stream_cap (length s)

abbrev pub once : Bool → ℕ
once true = 1
once false = 0

-- What is kept of two streams: their beginnings within the limit, and whether one exceeds it, for
-- which the group was stopped once.
pub record Keeps (o e : Bytes) (c : Capture) : Type 0 where
  pub out_bytes : c.of_out.bytes ≡ take stream_cap o
  pub out_total : c.of_out.total ≡ length o
  pub err_bytes : c.of_err.bytes ≡ take stream_cap e
  pub err_total : c.of_err.total ≡ length e
  pub over : c.overflow ≡ (exceeds o || exceeds e)
  pub stopped : c.stops ≡ once (exceeds o || exceeds e)

take-later : (n : ℕ) (s t : Bytes) → take n s ++ take (n - length (take n s)) t ≡ take n (s ++ t)
take-later zero s t = ap (λ m. take m t) none_left
  where
    none_left : 0 - 0 ≡ 0
    none_left = omega arith
take-later (suc n) [] t = ap (λ m. take m t) (whole (suc n))
  where
    whole : (m : ℕ) → m - 0 ≡ m
    whole m = omega arith
take-later (suc n) (c ∷ s) t =
    ap (λ l. c ∷ l) (ap (λ m. take n s ++ take m t) (less n (length (take n s))) ∙ take-later n s t)
  where
    less : (m k : ℕ) → suc m - suc k ≡ m - k
    less m k = omega arith

-- A block that exceeds the limit stops the group where nothing did before.
over-block :
    (over late before other_ : Bool) (n : ℕ)
    → (before ≡ true → late ≡ true)
    → over ≡ (before || other_)
    → n ≡ once (before || other_)
    → ((if late && not over then true else over) ≡ (late || other_))
      × ((if late && not over then suc n else n) ≡ once (late || other_))
over-block over true true q n m e f = rw e (refl, f)
over-block over true false true n m e f = rw e (refl, f)
over-block over true false false n m e f = rw e (refl, omega (arith, f))
over-block over false true q n m e f = elim (no (m refl)) [ ]
  where
    no : false ≡ true → ⊥
    no h = cc
over-block over false false q n m e f = (e, f)

exceeds-later : (s t : Bytes) → exceeds s ≡ true → exceeds (s ++ t) ≡ true
exceeds-later s t h = further (length s) (length (s ++ t)) (omega (arith, length-append s t)) h
  where
    further : (m n : ℕ) → m ≤ n → ltb stream_cap m ≡ true → ltb stream_cap n ≡ true
    further m n k e = ground arith

-- A stream that a block is added to.
record Added (s : Bytes) (block : Bytes) (k : Kept) : Type 0 where
  bytes : k.bytes ≡ take stream_cap (s ++ block)
  total : k.total ≡ length (s ++ block)

keep-Added :
    (s block : Bytes) (k : Kept)
    → k.bytes ≡ take stream_cap s
    → k.total ≡ length s
    → Added s block (keep block k)
unfolding keep
keep-Added s block k e f = record {
  bytes = ap (λ b. b ++ take (stream_cap - length b) block) e ∙ take-later stream_cap s block;
  total = ap (λ n. n + length block) f ∙ sym (length-append s block);
}

-- The test of a thread, and the flag behind it.
abbrev flagged : Bool → Capture → Capture
flagged true c = record c { overflow = true; stops = suc c.stops }
flagged false c = c

flagged-Keeps :
    (b : Bool) (o e : Bytes) (c : Capture)
    → c.of_out.bytes ≡ take stream_cap o
    → c.of_out.total ≡ length o
    → c.of_err.bytes ≡ take stream_cap e
    → c.of_err.total ≡ length e
    → ((if b then true else c.overflow) ≡ (exceeds o || exceeds e))
      × ((if b then suc c.stops else c.stops) ≡ once (exceeds o || exceeds e))
    → Keeps o e (if b then record c { overflow = true; stops = suc c.stops } else c)
flagged-Keeps true o e c h k l m (x, y) = record {
  out_bytes = h;
  out_total = k;
  err_bytes = l;
  err_total = m;
  over = x;
  stopped = y;
}
flagged-Keeps false o e c h k l m (x, y) = record {
  out_bytes = h;
  out_total = k;
  err_bytes = l;
  err_total = m;
  over = x;
  stopped = y;
}

or_comm : (a b : Bool) → (a || b) ≡ (b || a)
or_comm true true = refl
or_comm true false = refl
or_comm false true = refl
or_comm false false = refl

abbrev Settled : Capture → Bool → Bool → Type 0
Settled c b over =
    ((if b then true else c.overflow) ≡ over) × ((if b then suc c.stops else c.stops) ≡ once over)

take_block-Keeps :
    (o e : Bytes) (b : Block) (c : Capture)
    → Keeps o e c
    → Keeps (o ++ part out b) (e ++ part err b) (take_block b c)
unfolding take_block
take_block-Keeps o e b c h = by_key b.key
  where
    by_key :
        (k : Key)
        → Keeps
            (o ++ part out (record { key = k; bytes = b.bytes }))
            (e ++ part err (record { key = k; bytes = b.bytes }))
            (take_block (record { key = k; bytes = b.bytes }) c)
    by_key out =
        let k = keep b.bytes c.of_out in
        let added = keep-Added o b.bytes c.of_out h.out_bytes h.out_total in
        let late = ap (ltb stream_cap) added.total in
        subst (λ x. Keeps (o ++ b.bytes) x (take_block (record { key = out; bytes = b.bytes }) c))
          (append_nil e)
          (flagged-Keeps (ltb stream_cap k.total && not c.overflow) (o ++ b.bytes) e
            (record c { of_out = k }) added.bytes added.total h.err_bytes h.err_total
            (subst (Settled c (ltb stream_cap k.total && not c.overflow))
              (ap (λ l. l || exceeds e) late)
              (over-block c.overflow (ltb stream_cap k.total) (exceeds o) (exceeds e) c.stops
                (λ x. late ∙ exceeds-later o b.bytes x) h.over h.stopped)))
    by_key err =
        let k = keep b.bytes c.of_err in
        let added = keep-Added e b.bytes c.of_err h.err_bytes h.err_total in
        let late = ap (ltb stream_cap) added.total in
        let swap = or_comm (exceeds o) (exceeds e) in
        subst (λ x. Keeps x (e ++ b.bytes) (take_block (record { key = err; bytes = b.bytes }) c))
          (append_nil o)
          (flagged-Keeps (ltb stream_cap k.total && not c.overflow) o (e ++ b.bytes)
            (record c { of_err = k }) h.out_bytes h.out_total added.bytes added.total
            (subst (Settled c (ltb stream_cap k.total && not c.overflow))
              (ap (λ l. l || exceeds o) late ∙ or_comm (exceeds (e ++ b.bytes)) (exceeds o))
              (over-block c.overflow (ltb stream_cap k.total) (exceeds e) (exceeds o) c.stops
                (λ x. late ∙ exceeds-later e b.bytes x) (h.over ∙ swap)
                (h.stopped ∙ ap once swap))))

pub take_blocks-later :
    (blocks : List Block) (o e : Bytes) (c : Capture)
    → Keeps o e c
    → Keeps (o ++ read_of out blocks) (e ++ read_of err blocks) (take_blocks blocks c)
unfolding take_blocks
take_blocks-later [] o e c h =
    subst (λ x. Keeps x (e ++ []) c) (append_nil o) (subst (λ x. Keeps o x c) (append_nil e) h)
take_blocks-later (b ∷ blocks) o e c h =
    subst
      (λ x. Keeps x (e ++ (part err b ++ read_of err blocks)) (take_blocks blocks (take_block b c)))
      (append_assoc o (part out b) (read_of out blocks))
      (subst
        (λ x.
          Keeps ((o ++ part out b) ++ read_of out blocks) x (take_blocks blocks (take_block b c)))
        (append_assoc e (part err b) (read_of err blocks))
        (take_blocks-later blocks (o ++ part out b) (e ++ part err b) (take_block b c)
          (take_block-Keeps o e b c h)))

pub first_capture-Keeps : Keeps [] [] first_capture
first_capture-Keeps = record {
  out_bytes = refl;
  out_total = refl;
  err_bytes = refl;
  err_total = refl;
  over = refl;
  stopped = refl;
}

-- In whatever order the threads take the lock, what is kept of each stream is the beginning of what
-- was read of it, within the limit; the totals count what was read; the overflow is flagged exactly
-- when a stream exceeds the limit, and then the group was stopped once, else never.
pub take_blocks-Keeps :
    (blocks : List Block)
    → Keeps (read_of out blocks) (read_of err blocks) (take_blocks blocks first_capture)
take_blocks-Keeps blocks = take_blocks-later blocks [] [] first_capture first_capture-Keeps
