-- ===== src/StrictJson/Lengths.antt =====
-- Each part of the scanner leaves a text shorter than the one it was given.
use sacrysty.Prelude.{
  ℕ, zero, suc, ◌≤◌, ◌<◌, Bool, true, false, Option, none, some, List, [], ◌∷◌, Str, arith, length,
  drop, starts_with, codes, ◌==◌, if◌then◌else◌,
}
use sacrysty.Json.{Value}
use sacrysty.StrictJson.Result.{Decoded, ok, fail, ◌>>=◌, DecodeError, out_of_fuel}
use sacrysty.StrictJson.Numbers.{
  span_digits, exact_decimal, exact_int, scan_number, match_whole, match_fraction, match_power,
  matched, number_value, Literal,
}
use sacrysty.StrictJson.Strings.{
  scan_units, scan_string, put_unit, StringState, CodeUnit, string_step, StringStep, closes, bad,
  silent, emits, plain, join_surrogates,
}
use sacrysty.StrictJson.Scan.{
  skip, constant_or_number, token, Token, string_start, object_start, array_start, scalar,
  separator, Separator, closing, following, neither, opened, colon, closes_at_once, member_name,
}

-- The call did not run out of fuel, and what it leaves is shorter than `n`.
abbrev pub Settles {ℓ} : {A : Type ℓ} → ℕ → Decoded (A × Str) → Type 0
Settles n (ok (a, rest)) = length rest < n
Settles n (fail out_of_fuel) = ⊥
Settles n (fail _) = Unit

pub length-skip-le : (s : Str) → length (skip s) ≤ length s
unfolding skip
length-skip-le [] = omega arith
length-skip-le (c ∷ s) = ground (arith, length-skip-le s)

span_digits-le : (s : Str) → length (span_digits s).1 ≤ length s
unfolding span_digits
span_digits-le [] = omega arith
span_digits-le (c ∷ s) = ground (arith, span_digits-le s)

abbrev WholeShorter : ℕ → Option (Str × Str) → Type 0
WholeShorter n none = Unit
WholeShorter n (some (whole, rest)) = length rest < n

match_whole-lt : (s : Str) → WholeShorter (length s) (match_whole s)
match_whole-lt [] = tt
match_whole-lt (c ∷ s) = ground (arith, span_digits-le s)

match_fraction-le : (s : Str) → length (match_fraction s).1 ≤ length s
match_fraction-le [] = omega arith
match_fraction-le (c ∷ s) = ground (arith, span_digits-le s)

match_power-le : (s : Str) → length (match_power s).1 ≤ length s
match_power-le [] = omega arith
match_power-le (c ∷ []) = ground (arith, span_digits-le [])
match_power-le (c ∷ d ∷ s) = ground (arith, span_digits-le s, span_digits-le (d ∷ s))

-- A result that carries no rest.
abbrev NotOut {ℓ} : {A : Type ℓ} → Decoded A → Type 0
NotOut (ok a) = Unit
NotOut (fail out_of_fuel) = ⊥
NotOut (fail _) = Unit

number_value-NotOut : (t : Str) (l : Literal) → NotOut (number_value t l)
unfolding exact_decimal exact_int
number_value-NotOut t l = ground arith

Settles-with_rest :
    (n : ℕ) (r : Decoded Value) (rest : Str)
    → NotOut r
    → length rest < n
    → Settles n (r >>= λ v. ok (v, rest))
Settles-with_rest n (ok v) rest h k = k
Settles-with_rest n (fail out_of_fuel) rest h k = h
Settles-with_rest n (fail _) rest h k = ground arith

matched-Settles :
    (n : ℕ) (start : Str) (negative : Bool) (m : Option (Str × Str))
    → WholeShorter n m
    → Settles n (matched start negative m)
matched-Settles n start negative none h = tt
matched-Settles n start negative (some (whole, rest)) h =
    Settles-with_rest n _ _ (number_value-NotOut _ _)
      (omega (arith, match_fraction-le rest, match_power-le (match_fraction rest).1))

WholeShorter-mono : (n m : ℕ) (w : Option (Str × Str)) → n ≤ m → WholeShorter n w → WholeShorter m w
WholeShorter-mono n m none h k = tt
WholeShorter-mono n m (some (whole, rest)) h k = omega arith

pub Settles-mono {ℓ} :
    {A : Type ℓ} (n m : ℕ) (r : Decoded (A × Str)) → n ≤ m → Settles n r → Settles m r
Settles-mono n m (ok (a, rest)) h k = omega arith
Settles-mono n m (fail out_of_fuel) h k = k
Settles-mono n m (fail _) h k = ground arith

Settles-if {ℓ} :
    {A : Type ℓ} (n : ℕ) (b : Bool) (x y : Decoded (A × Str))
    → Settles n x
    → Settles n y
    → Settles n (if b then x else y)
Settles-if n true x y h k = h
Settles-if n false x y h k = k

scan_number-Settles : (s : Str) → Settles (length s) (scan_number s)
unfolding scan_number
scan_number-Settles [] = tt
scan_number-Settles (c ∷ s) =
    Settles-if _ (c == b'-') _ _
      (matched-Settles _ (c ∷ s) true _
        (WholeShorter-mono (length s) _ (match_whole s) (omega arith) (match_whole-lt s)))
      (matched-Settles _ (c ∷ s) false _ (match_whole-lt (c ∷ s)))

put_unit-Settles :
    (n : ℕ) (u : CodeUnit) (r : Decoded (List CodeUnit × Str))
    → Settles n r
    → Settles n (put_unit u r)
put_unit-Settles n u (ok (us, rest)) h = h
put_unit-Settles n u (fail e) h = ground arith

scan_units-Settles : (state : StringState) (s : Str) → Settles (length s) (scan_units state s)
unfolding scan_units
scan_units-Settles state [] = tt
scan_units-Settles state (c ∷ s) = step (string_step state c) (λ next. scan_units-Settles next s)
  where
    step :
        (t : StringStep)
        → ((next : StringState) → Settles (length s) (scan_units next s))
        → Settles (suc (length s)) (elim t as (λ x. Decoded (List CodeUnit × Str)) [
          | closes ↦ ok ([], s)
          | bad ↦ fail DecodeError.invalid_json_syntax
          | silent next ↦ scan_units next s
          | emits u ↦ put_unit u (scan_units plain s)
        ])
    step closes ih = omega arith
    step bad ih = tt
    step (silent next) ih = Settles-mono (length s) _ (scan_units next s) (omega arith) (ih next)
    step (emits u) ih =
        put_unit-Settles _ u _
          (Settles-mono (length s) _ (scan_units plain s) (omega arith) (ih plain))

pub Settles-map {ℓ κ} :
    {A : Type ℓ} {B : Type κ} (n : ℕ) (f : A → B) (r : Decoded (A × Str))
    → Settles n r
    → Settles n (r >>= λ (a, rest). ok (f a, rest))
Settles-map n f (ok (a, rest)) h = h
Settles-map n f (fail out_of_fuel) h = h
Settles-map n f (fail _) h = ground arith

pub scan_string-Settles : (s : Str) → Settles (length s) (scan_string s)
unfolding scan_string
scan_string-Settles s = Settles-map (length s) join_surrogates _ (scan_units-Settles plain s)

-- A chain: the first call leaves less than `n`, and the second less than what it was given.
pub Settles-bind {ℓ κ} :
    {A : Type ℓ} {B : Type κ} (n : ℕ) (r : Decoded (A × Str)) (f : A × Str → Decoded (B × Str))
    → Settles n r
    → ((a : A) (rest : Str) → length rest < n → Settles n (f (a, rest)))
    → Settles n (r >>= f)
Settles-bind n (ok (a, rest)) f h k = k a rest h
Settles-bind n (fail out_of_fuel) f h k = h
Settles-bind n (fail _) f h k = ground arith

abbrev pub TokenShorter : ℕ → Token → Type 0
TokenShorter n (string_start s) = length s < n
TokenShorter n (object_start s) = length s < n
TokenShorter n (array_start s) = length s < n
TokenShorter n (scalar r) = Settles n r

length-drop-le : (k : ℕ) (s : Str) → length (drop k s) ≤ length s
length-drop-le zero s = omega arith
length-drop-le (suc k) [] = omega arith
length-drop-le (suc k) (c ∷ s) = omega (arith, length-drop-le k s)

TokenShorter-if :
    (n : ℕ) (b : Bool) (x y : Token)
    → TokenShorter n x
    → TokenShorter n y
    → TokenShorter n (if b then x else y)
TokenShorter-if n true x y h k = h
TokenShorter-if n false x y h k = k

constant_or_number-Settles :
    (c : ℕ) (s : Str) → Settles (suc (length s)) (constant_or_number (c ∷ s))
constant_or_number-Settles c s =
    Settles-if n (starts_with (c ∷ s) (codes "null")) _ _ (omega (arith, length-drop-le 3 s)) (
      Settles-if n (starts_with (c ∷ s) (codes "true")) _ _ (omega (arith, length-drop-le 3 s)) (
        Settles-if n (starts_with (c ∷ s) (codes "false")) _ _ (omega (arith, length-drop-le 4 s)) (
          Settles-if n (starts_with (c ∷ s) (codes "NaN")) _ _ tt (
            Settles-if n (starts_with (c ∷ s) (codes "Infinity")) _ _ tt (
              Settles-if n (starts_with (c ∷ s) (codes "-Infinity")) _ _ tt
                (scan_number-Settles (c ∷ s)))))))
  where
    n : ℕ
    n = suc (length s)

pub token-Shorter : (s : Str) → TokenShorter (length s) (token s)
unfolding token
token-Shorter [] = tt
token-Shorter (c ∷ s) = TokenShorter-if n (c == b'"') _ _ (omega arith) (
    TokenShorter-if n (c == b'{') _ _ (omega arith)
      (TokenShorter-if n (c == b'[') _ _ (omega arith) (constant_or_number-Settles c s)))
  where
    n : ℕ
    n = suc (length s)

abbrev pub SeparatorShorter : ℕ → Separator → Type 0
SeparatorShorter n (closing s) = length s < n
SeparatorShorter n (following s) = length s < n
SeparatorShorter n neither = Unit

pub separator-Shorter : (bracket : ℕ) (s : Str) → SeparatorShorter (length s) (separator bracket s)
unfolding separator
separator-Shorter bracket [] = tt
separator-Shorter bracket (c ∷ s) = ground arith

abbrev pub OptionShorter : ℕ → Option Str → Type 0
OptionShorter n none = Unit
OptionShorter n (some s) = length s < n

pub closes_at_once-Shorter :
    (bracket : ℕ) (s : Str) → OptionShorter (length s) (closes_at_once bracket s)
unfolding closes_at_once
closes_at_once-Shorter bracket [] = tt
closes_at_once-Shorter bracket (c ∷ s) = ground arith

opened-Shorter : (s : Str) → OptionShorter (length s) (opened s)
unfolding opened
opened-Shorter [] = tt
opened-Shorter (c ∷ s) = ground arith

abbrev ColonShorter : ℕ → Decoded Str → Type 0
ColonShorter n (ok s) = length s < n
ColonShorter n (fail out_of_fuel) = ⊥
ColonShorter n (fail _) = Unit

colon-Shorter : (s : Str) → ColonShorter (length s) (colon s)
unfolding colon
colon-Shorter [] = tt
colon-Shorter (c ∷ s) = ground arith

pub member_name-Settles : (s : Str) → Settles (length s) (member_name s)
unfolding member_name
member_name-Settles s = quoted (opened s) (opened-Shorter s)
  where
    colon_then :
        (name : Str) (m : ℕ) (r : Decoded Str)
        → m ≤ length s
        → ColonShorter m r
        → Settles (length s) (r >>= λ s₃. ok (name, skip s₃))
    colon_then name m (ok s₃) h k = omega (arith, length-skip-le s₃)
    colon_then name m (fail out_of_fuel) h k = k
    colon_then name m (fail _) h k = ground arith

    quoted :
        (o : Option Str)
        → OptionShorter (length s) o
        → Settles (length s) (elim o as (λ x. Decoded (Str × Str)) [
          | none ↦ fail DecodeError.invalid_json_syntax
          | some s₁ ↦ scan_string s₁ >>= λ (name, s₂). colon (skip s₂) >>= λ s₃. ok (name, skip s₃)
        ])
    quoted none h = tt
    quoted (some s₁) h =
        Settles-bind (length s) (scan_string s₁) _
          (Settles-mono (length s₁) _ (scan_string s₁) (omega arith) (scan_string-Settles s₁))
          (λ name s₂ k.
            colon_then name (length (skip s₂)) (colon (skip s₂)) (omega (arith, length-skip-le s₂))
              (colon-Shorter (skip s₂)))
