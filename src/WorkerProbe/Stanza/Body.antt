-- ===== src/WorkerProbe/Stanza/Body.antt =====
-- The lines of a stanza's body are read as the body.
use mathlib.Core.List.{append_assoc}
use mathlib.Core.Path.{subst}
use sacrysty.Prelude.{
  ℕ, zero, suc, ◌+◌, ◌<◌, ◌≤◌, Bool, true, false, ◌≡◌, refl, ap, sym, ◌∙◌, some, List, [], ◌∷◌,
  ◌++◌, Bytes, all, length, take, drop, length-append, length-take, leb, ltb, ltb→lt, ltb→le, arith,
}
use sacrysty.WorkerProbe.Base64.{b64encode}
use sacrysty.WorkerProbe.Base64.RoundTrip.{
  AreBytes, b64decode-b64encode, b64encode-append, length-b64encode, b64encode-printable,
  absurd_length,
}
use sacrysty.WorkerProbe.Stanza.{Input, Reading, with_fields, close_part, read_body}
use sacrysty.WorkerProbe.Stanza.Lines.{
  no_end, readline-line, but_last-end, is_bounded-end, lines_of, lines_of-short, lines_of-long,
}

abbrev pub after_line : Bytes → Bytes → ℕ → Input
after_line s rest total = record { rest = rest; total = total + length (s ++ (10 ∷ [])) }

pub all_mono :
    (q r : ℕ → Bool) (s : Bytes)
    → ((c : ℕ) → q c ≡ true → r c ≡ true)
    → all q s ≡ true
    → all r s ≡ true
all_mono q r [] f h = refl
all_mono q r (c ∷ s) f h = let ih = all_mono q r s f in let k = f c in ground arith

printable-no_end : (c : ℕ) → leb 43 c ≡ true → no_end c ≡ true
printable-no_end c h = ground arith

-- A line of the body is read as the part that it encodes.
read_body-line :
    (fuel : ℕ) (fields : List Bytes) (part rest : Bytes) (total size : ℕ)
    → AreBytes part
    → length part ≤ 48
    → total + length (b64encode part ++ (10 ∷ [])) ≤ 65536
    → read_body
        (suc fuel)
        fields
        (record { rest = b64encode part ++ (10 ∷ rest); total = total })
        size
      ≡ close_part
          (read_body fuel fields (after_line (b64encode part) rest total))
          (λ n. (with_fields fields n, after_line (b64encode part) rest total))
          (after_line (b64encode part) rest total)
          size
          (some part)
unfolding read_body
read_body-line fuel fields part rest total size h short k =
    let line = b64encode part in
    let fits = length-b64encode part in
    let read =
      readline-line 4097 line rest
        (all_mono (λ c. leb 43 c) no_end line printable-no_end (b64encode-printable part))
        (omega arith) in
    rw
      (
        read,
        is_bounded-end line (total + length (line ++ (10 ∷ []))) (omega arith) k,
        but_last-end line,
        b64decode-b64encode part h,
      )
      refl

take-drop : (n : ℕ) (s : Bytes) → s ≡ take n s ++ drop n s
take-drop zero s = refl
take-drop (suc n) [] = refl
take-drop (suc n) (c ∷ s) = ap (λ t. c ∷ t) (take-drop n s)

AreBytes-take : (n : ℕ) (s : Bytes) → AreBytes s → AreBytes (take n s)
AreBytes-take zero s h = tt
AreBytes-take (suc n) [] h = tt
AreBytes-take (suc n) (c ∷ s) h = (h.0, AreBytes-take n s h.1)

AreBytes-drop : (n : ℕ) (s : Bytes) → AreBytes s → AreBytes (drop n s)
AreBytes-drop zero s h = h
AreBytes-drop (suc n) [] h = tt
AreBytes-drop (suc n) (c ∷ s) h = AreBytes-drop n s h.1

-- A part of fewer than 48 bytes ends the body, and one of 48 does not.
close_part-short :
    (more over : ℕ → Reading × Input) (i : Input) (size : ℕ) (part : Bytes)
    → length part < 48
    → close_part more over i size (some part) ≡ over (size + length part)
close_part-short more over i size part h = ground arith

close_part-full :
    (more over : ℕ → Reading × Input) (i : Input) (size : ℕ) (part : Bytes)
    → length part ≡ 48
    → close_part more over i size (some part) ≡ more (size + length part)
close_part-full more over i size part h = ground arith

-- What `read_body` makes of the lines of a body.
abbrev pub Reads : ℕ → List Bytes → Bytes → Bytes → Type 0
Reads fuel fields body rest =
    (total size : ℕ)
    → total + length (lines_of (b64encode body)) ≤ 65536
    → read_body fuel fields (record { rest = lines_of (b64encode body) ++ rest; total = total })
        size
      ≡ (
        with_fields fields (size + length body),
        record { rest = rest; total = total + length (lines_of (b64encode body)) },
      )

Reads-short :
    (fuel : ℕ) (fields : List Bytes) (body rest : Bytes)
    → AreBytes body
    → length body < 48
    → Reads (suc fuel) fields body rest
Reads-short fuel fields body rest h short total size =
    let fits = length-b64encode body in
    subst
      (λ l.
        total + length l ≤ 65536
        → read_body (suc fuel) fields (record { rest = l ++ rest; total = total }) size ≡ (
          with_fields fields (size + length body),
          record { rest = rest; total = total + length l },
        ))
      (sym (lines_of-short (b64encode body) (omega arith)))
      (λ k.
        ap (λ r. read_body (suc fuel) fields (record { rest = r; total = total }) size)
          (append_assoc (b64encode body) (10 ∷ []) rest)
        ∙ read_body-line fuel fields body rest total size h (omega arith) k
        ∙ close_part-short (read_body fuel fields (after_line (b64encode body) rest total))
            (λ n. (with_fields fields n, after_line (b64encode body) rest total))
            (after_line (b64encode body) rest total) size body short)

Reads-long :
    (fuel : ℕ) (fields : List Bytes) (part body rest : Bytes)
    → AreBytes part
    → length part ≡ 48
    → Reads fuel fields body rest
    → Reads (suc fuel) fields (part ++ body) rest
Reads-long fuel fields part body rest h full reads total size =
    let fits = length-b64encode part in
    subst
      (λ l.
        total + length l ≤ 65536
        → read_body (suc fuel) fields (record { rest = l ++ rest; total = total }) size ≡ (
          with_fields fields (size + length (part ++ body)),
          record { rest = rest; total = total + length l },
        ))
      (sym (
        ap lines_of (b64encode-append 16 part body full)
        ∙ lines_of-long (b64encode part) (b64encode body) (omega arith)))
      (λ k.
        let line = b64encode part in
        let later = lines_of (b64encode body) in
        let grown = length-append line (10 ∷ later) in
        let ended = length-append line (10 ∷ []) in
        ap (λ r. read_body (suc fuel) fields (record { rest = r; total = total }) size)
          (append_assoc line (10 ∷ later) rest)
        ∙ read_body-line fuel fields part (later ++ rest) total size h (omega arith) (omega arith)
        ∙ close_part-full (read_body fuel fields (after_line line (later ++ rest) total))
            (λ n. (with_fields fields n, after_line line (later ++ rest) total))
            (after_line line (later ++ rest) total) size part full
        ∙ reads (total + length (line ++ (10 ∷ []))) (size + length part) (omega arith)
        ∙ same_end rest (omega (arith, length-append part body)) (omega arith))
  where
    same_end :
        {m n t u : ℕ} (rest : Bytes)
        → m ≡ n
        → t ≡ u
        → ◌≡◌ {A = Reading × Input}
            (with_fields fields m, record { rest = rest; total = t })
            (with_fields fields n, record { rest = rest; total = u })
    same_end {n = n} {t = t} r e f =
        ap (λ x. (with_fields fields x, record { rest = r; total = t })) e
        ∙ ap (λ x. (with_fields fields n, record { rest = r; total = x })) f

length-later :
    (part body : Bytes)
    → length part ≡ 48
    → length (lines_of (b64encode (part ++ body))) ≡ 65 + length (lines_of (b64encode body))
length-later part body full =
    let fits = length-b64encode part in
    ap length (
      ap lines_of (b64encode-append 16 part body full)
      ∙ lines_of-long (b64encode part) (b64encode body) (omega arith))
    ∙ omega (arith, length-append (b64encode part) (10 ∷ lines_of (b64encode body)))

-- The lines of a body are read as the body, whatever follows them.
pub read_body-lines :
    (fuel : ℕ) (fields : List Bytes) (body rest : Bytes)
    → AreBytes body
    → length (lines_of (b64encode body) ++ rest) < fuel
    → Reads fuel fields body rest
read_body-lines zero fields body rest h enough = absurd_length (omega arith)
read_body-lines (suc fuel) fields body rest h enough =
    by_test (ltb (length body) 48) refl
      (read_body-lines fuel fields (drop 48 body) rest (AreBytes-drop 48 body h))
  where
    full : ltb (length body) 48 ≡ false → length (take 48 body) ≡ 48
    full e = let k = ltb→le (length body) 48 e in omega (arith, length-take 48 body)

    shorter :
        ltb (length body) 48 ≡ false → length (lines_of (b64encode (drop 48 body)) ++ rest) < fuel
    shorter e =
        let split = ap (λ b. length (lines_of (b64encode b))) (take-drop 48 body) in
        let later = length-later (take 48 body) (drop 48 body) (full e) in
        omega (
          arith,
          length-append (lines_of (b64encode body)) rest,
          length-append (lines_of (b64encode (drop 48 body))) rest,
        )

    by_test :
        (b : Bool)
        → ltb (length body) 48 ≡ b
        → (length (lines_of (b64encode (drop 48 body)) ++ rest) < fuel
            → Reads fuel fields (drop 48 body) rest)
        → Reads (suc fuel) fields body rest
    by_test true e ih = Reads-short fuel fields body rest h (ltb→lt (length body) 48 e)
    by_test false e ih =
        subst (λ b. Reads (suc fuel) fields b rest) (sym (take-drop 48 body))
          (Reads-long fuel fields (take 48 body) (drop 48 body) rest (AreBytes-take 48 body h)
            (full e) (ih (shorter e)))
