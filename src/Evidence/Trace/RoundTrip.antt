-- ===== src/Evidence/Trace/RoundTrip.antt =====
-- The first line of the runner's trace is one that the diagnostic reads back.
use sacrysty.Prelude.{
  take_within, append_nil, ℕ, zero, suc, ◌+◌, ◌-◌, ◌≤◌, ◌<◌, ◌/◌, ◌%◌, Bool, true, false, not, [],
  ◌∷◌, ◌++◌, ◌≡◌, refl, Str, Bytes, codes, all, is_empty, length, length-append, ltb, digits_in,
  decimal, arith, ltb→lt, if◌then◌else◌,
}
use sacrysty.Evidence.Trace.{
  Platform, first_line, is_digit, platform_char, is_line_end, helper_runtime_trace, split_lines,
  accepted_lines, lifecycle_entries, runner_trace_limit_bytes,
}
use sacrysty.Evidence.Trace.Pattern.{Matches, full_match}
use sacrysty.Evidence.Trace.Matching.{full_match_lem}

all-append : (q : ℕ → Bool) (s t : Str) → all q s ≡ true → all q t ≡ true → all q (s ++ t) ≡ true
all-append q [] t h k = k
all-append q (c ∷ s) t h k = let ih = all-append q s t in ground arith

all_mono :
    (q r : ℕ → Bool) (s : Str)
    → ((c : ℕ) → q c ≡ true → r c ≡ true)
    → all q s ≡ true
    → all r s ≡ true
all_mono q r [] f h = refl
all_mono q r (c ∷ s) f h = let ih = all_mono q r s f in let k = f c in ground arith

one_digit :
    (d : ℕ) → d < 10 → all is_digit ((if ltb d 10 then 48 + d else 65 + (d - 10)) ∷ []) ≡ true
one_digit d h = ground arith

digits_in-is_digit : (fuel n : ℕ) → all is_digit (digits_in 10 fuel n) ≡ true
unfolding digits_in
digits_in-is_digit zero n = refl
digits_in-is_digit (suc fuel) n = by_test (ltb n 10) refl (digits_in-is_digit fuel (n / 10))
  where
    last : Str
    last = (if ltb (n % 10) 10 then 48 + n % 10 else 65 + (n % 10 - 10)) ∷ []

    by_test :
        (b : Bool)
        → ltb n 10 ≡ b
        → all is_digit (digits_in 10 fuel (n / 10)) ≡ true
        → all is_digit (
            if b
            then (if ltb n 10 then 48 + n else 65 + (n - 10)) ∷ []
            else digits_in 10 fuel (n / 10) ++ last)
          ≡ true
    by_test true e ih = one_digit n (ltb→lt n 10 e)
    by_test false e ih =
        all-append is_digit (digits_in 10 fuel (n / 10)) last ih (one_digit (n % 10) (omega arith))

not_empty-append : (s t : Str) → is_empty t ≡ false → is_empty (s ++ t) ≡ false
not_empty-append [] t h = h
not_empty-append (c ∷ s) t h = refl

digits_in-nonempty : (fuel n : ℕ) → is_empty (digits_in 10 (suc fuel) n) ≡ false
unfolding digits_in
digits_in-nonempty fuel n = by_test (ltb n 10) _ _
  where
    by_test :
        (b : Bool) (c d : ℕ)
        → is_empty (if b then c ∷ [] else digits_in 10 fuel (n / 10) ++ (d ∷ [])) ≡ false
    by_test true c d = refl
    by_test false c d = not_empty-append (digits_in 10 fuel (n / 10)) (d ∷ []) refl

-- A line behind which a line end stands is read as that line.
split_lines_one :
    (s : Bytes) → all (λ c. not (is_line_end c)) s ≡ true → split_lines (s ++ (10 ∷ [])) ≡ s ∷ []
unfolding split_lines
split_lines_one [] h = refl
split_lines_one (c ∷ s) h = by_test (is_line_end c) refl (split_lines_one s (ground arith))
  where
    by_test :
        (b : Bool)
        → is_line_end c ≡ b
        → split_lines (s ++ (10 ∷ [])) ≡ s ∷ []
        → split_lines ((c ∷ s) ++ (10 ∷ [])) ≡ (c ∷ s) ∷ []
    by_test true e ih = ground arith
    by_test false e ih = rw (e, ih) refl

no_excess : (n : ℕ) → n ≤ runner_trace_limit_bytes → ltb runner_trace_limit_bytes n ≡ false
no_excess n h = ground arith

entries_one :
    (l : Bytes)
    → full_match helper_runtime_trace l ≡ true
    → all (λ c. not (is_line_end c)) l ≡ true
    → suc (length l) ≤ runner_trace_limit_bytes
    → lifecycle_entries (l ++ (10 ∷ [])) ≡ l ∷ []
unfolding lifecycle_entries accepted_lines
entries_one l matched plain h =
    let whole = length-append l (10 ∷ []) in
    let within = no_excess (length (l ++ (10 ∷ []))) (omega (arith, whole)) in
    rw
      (
        take_within runner_trace_limit_bytes (l ++ (10 ∷ [])) (omega (arith, whole)),
        split_lines_one l plain,
        matched,
        within,
      )
      refl

module _ (p : Platform) (named : is_empty p.name ≡ false)
    (plain : all platform_char p.name ≡ true) where
  digits : (n : ℕ) → (is_empty (decimal n) ≡ false) × (all is_digit (decimal n) ≡ true)
  digits n = (digits_in-nonempty n n, digits_in-is_digit (suc n) n)

  first_line-Matches : Matches helper_runtime_trace (first_line p)
  first_line-Matches = (
    _,
    _,
    refl,
    refl,
    (
      _,
      _,
      refl,
      digits p.version.0,
      (
        _,
        _,
        refl,
        refl,
        (
          _,
          _,
          refl,
          digits p.version.1,
          (
            _,
            _,
            refl,
            refl,
            (
              _,
              _,
              refl,
              digits p.version.2,
              (
                _,
                _,
                refl,
                refl,
                (
                  _,
                  _,
                  refl,
                  (named, plain),
                  (_, _, refl, refl, (_, [], append_nil (decimal p.pid), digits p.pid, refl)),
                ),
              ),
            ),
          ),
        ),
      ),
    ),
  )

  first_line-full_match : full_match helper_runtime_trace (first_line p) ≡ true
  first_line-full_match =
      (full_match_lem helper_runtime_trace (first_line p) refl).1 first_line-Matches

  -- A text of several parts, none of which holds a line end.
  abbrev Plain : Type 0
  Plain = (t : Str) × (all (λ c. not (is_line_end c)) t ≡ true)

  abbrev then_plain : Plain → Plain → Plain
  then_plain (s, h) (t, k) = (s ++ t, all-append (λ c. not (is_line_end c)) s t h k)

  digit_plain : (c : ℕ) → is_digit c ≡ true → not (is_line_end c) ≡ true
  digit_plain c h = ground arith

  platform_plain : (c : ℕ) → platform_char c ≡ true → not (is_line_end c) ≡ true
  platform_plain c h = ground arith

  abbrev number : ℕ → Plain
  number n =
      (decimal n, all_mono is_digit (λ c. not (is_line_end c)) (decimal n) digit_plain (digits n).1)

  plain_line : all (λ c. not (is_line_end c)) (first_line p) ≡ true
  plain_line =
      (then_plain (codes "helper-runtime python=", refl)
        (then_plain (number p.version.0) (
          then_plain (codes ".", refl)
            (then_plain (number p.version.1) (
              then_plain (codes ".", refl)
                (then_plain (number p.version.2) (
                  then_plain (codes " platform=", refl)
                    (then_plain
                      (
                        p.name,
                        all_mono platform_char (λ c. not (is_line_end c)) p.name platform_plain
                            plain,
                      )
                      (then_plain (codes " pid=", refl) (number p.pid)))))))))).1

  -- Let the platform have a plain name and a first line of fewer bytes than the limit. Then the
  -- diagnostic of a trace that holds just that line and its line end lists that line and nothing else.
  pub lifecycle_entries-first_line :
      suc (length (first_line p)) ≤ runner_trace_limit_bytes
      → lifecycle_entries (first_line p ++ (10 ∷ [])) ≡ first_line p ∷ []
  lifecycle_entries-first_line h = entries_one (first_line p) first_line-full_match plain_line h
