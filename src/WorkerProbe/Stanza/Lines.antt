-- ===== src/WorkerProbe/Stanza/Lines.antt =====
-- Lines: reading one, and the lines that `write_stanza` makes of an encoding.
use mathlib.Core.List.{append_assoc}
use sacrysty.Prelude.{
  ℕ, zero, suc, ◌+◌, ◌%◌, ◌<◌, ◌≤◌, Bool, true, false, ◌≡◌, refl, ap, sym, ◌∙◌, ◌||◌, not, [], ◌∷◌,
  ◌++◌, Bytes, all, length, take, drop, length-append, take_within, take-append, drop-append,
  append_nil, leb, is_empty, ◌==◌, arith, if◌then◌else◌,
}
use sacrysty.WorkerProbe.Base64.RoundTrip.{absurd_length}
use sacrysty.WorkerProbe.Stanza.{readline, last_is, but_last, is_bounded, write_lines, ends_body}

abbrev pub no_end : ℕ → Bool
no_end c = not (c == 10)

-- A line of admitted length is read up to its end.
pub readline-line :
    (n : ℕ) (s rest : Bytes)
    → all no_end s ≡ true
    → length s < n
    → ◌≡◌ {A = Bytes × Bytes} (readline n (s ++ (10 ∷ rest))) (s ++ (10 ∷ []), rest)
unfolding readline
readline-line zero s rest h k = elim (none_less k) [ ]
  where
    none_less : length s < 0 → ⊥
    none_less l = omega arith
readline-line (suc n) [] rest h k = refl
readline-line (suc n) (c ∷ s) rest h k =
    by_test (c == 10) refl (readline-line n s rest (ground arith) (omega arith))
  where
    by_test :
        (b : Bool)
        → (c == 10) ≡ b
        → ◌≡◌ {A = Bytes × Bytes} (readline n (s ++ (10 ∷ rest))) (s ++ (10 ∷ []), rest)
        → ◌≡◌ {A = Bytes × Bytes}
            (if b
              then (c ∷ [], s ++ (10 ∷ rest))
              else (c ∷ (readline n (s ++ (10 ∷ rest))).0, (readline n (s ++ (10 ∷ rest))).1))
            (c ∷ (s ++ (10 ∷ [])), rest)
    by_test true e ih = ground arith
    by_test false e ih = ap (λ (r : Bytes × Bytes). (c ∷ r.0, r.1)) ih

last_is-end : (s : Bytes) → last_is 10 (s ++ (10 ∷ [])) ≡ true
last_is-end [] = refl
last_is-end (c ∷ []) = refl
last_is-end (c ∷ d ∷ s) = last_is-end (d ∷ s)

pub but_last-end : (s : Bytes) → but_last (s ++ (10 ∷ [])) ≡ s
but_last-end [] = refl
but_last-end (c ∷ []) = refl
but_last-end (c ∷ d ∷ s) = ap (λ t. c ∷ t) (but_last-end (d ∷ s))

pub nonempty-end : (s : Bytes) → is_empty (s ++ (10 ∷ [])) ≡ false
nonempty-end [] = refl
nonempty-end (c ∷ s) = refl

within-leb : (n m : ℕ) → n ≤ m → leb n m ≡ true
within-leb n m h = ground arith

pub is_bounded-end :
    (s : Bytes) (total : ℕ)
    → length s < 4096
    → total ≤ 65536
    → is_bounded (s ++ (10 ∷ [])) total ≡ true
is_bounded-end s total h k =
    rw
      (
        nonempty-end s,
        within-leb (length (s ++ (10 ∷ []))) 4096 (omega (arith, length-append s (10 ∷ []))),
        within-leb total 65536 k,
        last_is-end s,
      )
      refl

length-drop : (n : ℕ) (s : Bytes) → length (drop n s) ≤ length s
length-drop zero s = omega arith
length-drop (suc n) [] = omega arith
length-drop (suc n) (c ∷ s) = omega (arith, length-drop n s)

-- More fuel than there are characters writes no more.
write_lines-fuel :
    (f g : ℕ) (raw : Bytes)
    → length raw ≤ f
    → length raw ≤ g
    → write_lines f raw ≡ write_lines g raw
unfolding write_lines
write_lines-fuel zero zero raw h k = refl
write_lines-fuel zero (suc g) [] h k = refl
write_lines-fuel (suc f) zero [] h k = refl
write_lines-fuel (suc f) (suc g) [] h k = refl
write_lines-fuel (suc f) (suc g) (c ∷ s) h k =
    ap (λ t. take 64 (c ∷ s) ++ (10 ∷ t))
      (write_lines-fuel f g (drop 63 s) (omega (arith, length-drop 63 s))
        (omega (arith, length-drop 63 s)))
write_lines-fuel zero (suc g) (c ∷ s) h k = absurd_length (omega arith)
write_lines-fuel (suc f) zero (c ∷ s) h k = absurd_length (omega arith)

-- The lines of an encoding, with the empty one behind a full one.
abbrev pub lines_of : Bytes → Bytes
lines_of raw = write_lines (length raw) raw ++ ends_body raw

write_lines-nil : (f : ℕ) → write_lines f [] ≡ []
unfolding write_lines
write_lines-nil zero = refl
write_lines-nil (suc f) = refl

drop_within : (n : ℕ) (s : Bytes) → length s ≤ n → drop n s ≡ []
drop_within zero [] h = refl
drop_within zero (c ∷ s) h = absurd_length (omega arith)
drop_within (suc n) [] h = refl
drop_within (suc n) (c ∷ s) h = drop_within n s (omega arith)

not_full : (n : ℕ) → 0 < n → n < 64 → (n % 64 == 0) ≡ false
not_full n h k = ground arith

pub lines_of-short : (raw : Bytes) → length raw < 64 → lines_of raw ≡ raw ++ (10 ∷ [])
unfolding write_lines
lines_of-short [] h = refl
lines_of-short (c ∷ s) h =
    rw
      (
        not_full (suc (length s)) (omega arith) h,
        drop_within 63 s (omega arith),
        write_lines-nil (length s),
        take_within 63 s (omega arith),
      )
      (sym (append_nil (c ∷ (s ++ (10 ∷ [])))))

full_again : (n : ℕ) → ((64 + n) % 64 == 0) ≡ (n % 64 == 0)
full_again n = ap (λ m. m == 0) (same n)
  where
    same : (m : ℕ) → (64 + m) % 64 ≡ m % 64
    same m = omega arith

empty_or : (s : Bytes) → (is_empty s || length s % 64 == 0) ≡ (length s % 64 == 0)
empty_or [] = refl
empty_or (c ∷ s) = refl

ends_body-later :
    (c : ℕ) (s t : Bytes) → length (c ∷ s) ≡ 64 → ends_body ((c ∷ s) ++ t) ≡ ends_body t
ends_body-later c s t h =
    ap (λ b. if b then 10 ∷ [] else [])
      (ap (λ n. n % 64 == 0) (length-append (c ∷ s) t ∙ ap (λ n. n + length t) h)
        ∙ full_again (length t)
        ∙ sym (empty_or t))

-- A full line comes first, and the rest is written as it is alone.
pub lines_of-long : (s t : Bytes) → length s ≡ 64 → lines_of (s ++ t) ≡ s ++ (10 ∷ lines_of t)
unfolding write_lines
lines_of-long [] t h = absurd_length (omega arith)
lines_of-long (c ∷ s) t h =
    ap (λ e. write_lines (length ((c ∷ s) ++ t)) ((c ∷ s) ++ t) ++ e) (ends_body-later c s t h)
    ∙ ap (λ l. (c ∷ l) ++ (10 ∷ write_lines (length (s ++ t)) (drop 63 (s ++ t))) ++ ends_body t)
        (take-append 63 s t (omega arith))
    ∙ ap (λ l. ((c ∷ s) ++ (10 ∷ write_lines (length (s ++ t)) l)) ++ ends_body t)
        (drop-append 63 s t (omega arith))
    ∙ ap (λ l. ((c ∷ s) ++ (10 ∷ l)) ++ ends_body t)
        (write_lines-fuel (length (s ++ t)) (length t) t (omega (arith, length-append s t))
          (omega arith))
    ∙ append_assoc (c ∷ s) (10 ∷ write_lines (length t) t) (ends_body t)
