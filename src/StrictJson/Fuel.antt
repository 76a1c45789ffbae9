-- ===== src/StrictJson/Fuel.antt =====
-- The fuel that `loads` gives is enough, so decoding ends with a value or with an error of Python's.
use sacrysty.Prelude.{
  ℕ, zero, suc, ◌+◌, ◌*◌, ◌≤◌, ◌<◌, ◌≢◌, Option, none, some, [], ◌∷◌, Str, Bytes, arith, length,
  starts_with, is_empty, Bool-cases, inl, inr, if◌then◌else◌,
}
use sacrysty.Json.{Value, array, object, text, nil, cons, Fields, end, field, insert}
use sacrysty.StrictJson.{loads, decode_strict_json}
use sacrysty.StrictJson.Utf8.{decode_utf8}
use sacrysty.StrictJson.Result.{Decoded, ok, fail, ◌>>=◌, out_of_fuel, DecodeError}
use sacrysty.StrictJson.Scan.{
  skip, token, Token, string_start, object_start, array_start, scalar, separator, Separator,
  closing, following, neither, closes_at_once, member_name, scan_value, scan_items, scan_members,
  hooked, put_item, put_member, collect, object_without_duplicate_members,
}
use sacrysty.StrictJson.Strings.{scan_string}
use sacrysty.StrictJson.Lengths.{
  Settles, Settles-mono, Settles-map, Settles-bind, TokenShorter, token-Shorter, SeparatorShorter,
  separator-Shorter, OptionShorter, closes_at_once-Shorter, length-skip-le, member_name-Settles,
  scan_string-Settles,
}

abbrev Total : Decoded Fields → Type 0
Total (ok d) = Unit
Total (fail out_of_fuel) = ⊥
Total (fail _) = Unit

collect-Total : (result pairs : Fields) → Total (collect result pairs)
unfolding collect
collect-Total result end = tt
collect-Total result (field name v pairs) =
    ground (arith, collect-Total (insert name v result) pairs)

-- The hook takes no text, and does not run out.
hooked-Settles :
    (n : ℕ) (pairs : Fields) (rest : Str) → length rest < n → Settles n (hooked (pairs, rest))
unfolding object_without_duplicate_members
hooked-Settles n pairs rest h = keep (collect end pairs) (collect-Total end pairs)
  where
    keep : (r : Decoded Fields) → Total r → Settles n (r >>= λ d. ok (object d, rest))
    keep (ok d) t = h
    keep (fail out_of_fuel) t = t
    keep (fail _) t = ground arith

-- The three calls that a scanner of the block makes, at one unit of fuel less.
abbrev ItemsSettle : ℕ → Type 0
ItemsSettle fuel = (s : Str) → 2 * length s + 1 < fuel → Settles (length s) (scan_items fuel s)

abbrev MembersSettle : ℕ → Type 0
MembersSettle fuel = (s : Str) → 2 * length s + 1 < fuel → Settles (length s) (scan_members fuel s)

abbrev ValueSettles : ℕ → Type 0
ValueSettles fuel = (s : Str) → 2 * length s < fuel → Settles (length s) (scan_value fuel s)

module _ (fuel n : ℕ) where
  items_behind :
      (s₁ : Str) (o : Option Str)
      → length s₁ < n
      → 2 * n ≤ fuel
      → OptionShorter n o
      → ItemsSettle fuel
      → Settles n (elim o as (λ x. Decoded (Value × Str)) [
        | some rest ↦ ok (array nil, rest)
        | none ↦ scan_items fuel (skip s₁) >>= λ (vs, rest). ok (array vs, rest)
      ])
  items_behind s₁ (some rest) h f k ih = k
  items_behind s₁ none h f k ih =
      let le = length-skip-le s₁ in
      Settles-map n array _ (
        Settles-mono (length (skip s₁)) n (scan_items fuel (skip s₁)) (omega arith)
          (ih (skip s₁) (omega arith)))

  members_behind :
      (s₁ : Str) (o : Option Str)
      → length s₁ < n
      → 2 * n ≤ fuel
      → OptionShorter n o
      → MembersSettle fuel
      → Settles n (elim o as (λ x. Decoded (Value × Str)) [
        | some rest ↦ hooked (end, rest)
        | none ↦ scan_members fuel (skip s₁) >>= hooked
      ])
  members_behind s₁ (some rest) h f k ih = hooked-Settles n end rest k
  members_behind s₁ none h f k ih =
      let le = length-skip-le s₁ in
      Settles-bind n (scan_members fuel (skip s₁)) hooked
        (Settles-mono (length (skip s₁)) n (scan_members fuel (skip s₁)) (omega arith)
          (ih (skip s₁) (omega arith)))
        (hooked-Settles n)

OptionShorter-mono : (n m : ℕ) (o : Option Str) → n ≤ m → OptionShorter n o → OptionShorter m o
OptionShorter-mono n m none h k = tt
OptionShorter-mono n m (some s) h k = omega arith

scan_value-step :
    (fuel : ℕ) (s : Str)
    → 2 * length s < suc fuel
    → ItemsSettle fuel
    → MembersSettle fuel
    → Settles (length s) (scan_value (suc fuel) s)
unfolding scan_value
scan_value-step fuel s h items members = at_token (token s) (token-Shorter s)
  where
    n : ℕ
    n = length s

    at_token :
        (t : Token)
        → TokenShorter n t
        → Settles n (elim t as (λ x. Decoded (Value × Str)) [
          | scalar r ↦ r
          | string_start s₁ ↦ scan_string s₁ >>= λ (t, rest). ok (text t, rest)
          | array_start s₁ ↦ elim (closes_at_once b']' (skip s₁)) as (λ x. Decoded (Value × Str)) [
            | some rest ↦ ok (array nil, rest)
            | none ↦ scan_items fuel (skip s₁) >>= λ (vs, rest). ok (array vs, rest)
          ]
          | object_start s₁ ↦ elim (closes_at_once b'}' (skip s₁)) as (λ x. Decoded (Value × Str)) [
            | some rest ↦ hooked (end, rest)
            | none ↦ scan_members fuel (skip s₁) >>= hooked
          ]
        ])
    at_token (scalar r) k = k
    at_token (string_start s₁) k =
        Settles-map n text _
          (Settles-mono (length s₁) n (scan_string s₁) (omega arith) (scan_string-Settles s₁))
    at_token (array_start s₁) k =
        let le = length-skip-le s₁ in
        items_behind fuel n s₁ (closes_at_once b']' (skip s₁)) k (omega arith)
          (OptionShorter-mono (length (skip s₁)) n _ (omega arith)
            (closes_at_once-Shorter b']' (skip s₁)))
          items
    at_token (object_start s₁) k =
        let le = length-skip-le s₁ in
        members_behind fuel n s₁ (closes_at_once b'}' (skip s₁)) k (omega arith)
          (OptionShorter-mono (length (skip s₁)) n _ (omega arith)
            (closes_at_once-Shorter b'}' (skip s₁)))
          members

SeparatorShorter-mono :
    (n m : ℕ) (t : Separator) → n ≤ m → SeparatorShorter n t → SeparatorShorter m t
SeparatorShorter-mono n m (closing s) h k = omega arith
SeparatorShorter-mono n m (following s) h k = omega arith
SeparatorShorter-mono n m neither h k = tt

-- Behind an element: the end, or the rest of the list.
module _ {L : Type 0} (n : ℕ) (last : L) (more : Str → Decoded (L × Str))
    (join : L × Str → Decoded (L × Str)) where
  after_element :
      (m : ℕ) (t : Separator)
      → m ≤ n
      → SeparatorShorter m t
      → ((s : Str) → length s < m → Settles n (more s >>= join))
      → Settles n (elim t as (λ x. Decoded (L × Str)) [
        | closing rest ↦ ok (last, rest)
        | following s ↦ more s >>= join
        | neither ↦ fail DecodeError.invalid_json_syntax
      ])
  after_element m (closing rest) h k ih = omega arith
  after_element m (following s) h k ih = ih s k
  after_element m neither h k ih = tt

scan_items-step :
    (fuel : ℕ) (s : Str)
    → 2 * length s + 1 < suc fuel
    → ValueSettles fuel
    → ItemsSettle fuel
    → Settles (length s) (scan_items (suc fuel) s)
unfolding scan_value
scan_items-step fuel s h value items =
    Settles-bind (length s) (scan_value fuel s) _ (value s (omega arith)) λ v s₁ k.
      let le = length-skip-le s₁ in
      after_element (length s) (cons v nil) (λ s₂. scan_items fuel (skip s₂)) (put_item v)
        (length (skip s₁)) (separator b']' (skip s₁)) (omega arith)
        (separator-Shorter b']' (skip s₁))
        λ s₂ p.
          let le₂ = length-skip-le s₂ in
          Settles-bind (length s) (scan_items fuel (skip s₂)) (put_item v)
            (Settles-mono (length (skip s₂)) _ (scan_items fuel (skip s₂)) (omega arith)
              (items (skip s₂) (omega arith)))
            (λ vs rest q. q)

scan_members-step :
    (fuel : ℕ) (s : Str)
    → 2 * length s + 1 < suc fuel
    → ValueSettles fuel
    → MembersSettle fuel
    → Settles (length s) (scan_members (suc fuel) s)
unfolding scan_value
scan_members-step fuel s h value members =
    Settles-bind (length s) (member_name s) _ (member_name-Settles s) λ name s₀ j.
      Settles-bind (length s) (scan_value fuel s₀) _
        (Settles-mono (length s₀) _ (scan_value fuel s₀) (omega arith) (value s₀ (omega arith)))
        λ v s₁ k.
          let le = length-skip-le s₁ in
          after_element (length s) (field name v end) (λ s₂. scan_members fuel (skip s₂))
            (put_member name v) (length (skip s₁)) (separator b'}' (skip s₁)) (omega arith)
            (separator-Shorter b'}' (skip s₁))
            λ s₂ p.
              let le₂ = length-skip-le s₂ in
              Settles-bind (length s) (scan_members fuel (skip s₂)) (put_member name v)
                (Settles-mono (length (skip s₂)) _ (scan_members fuel (skip s₂)) (omega arith)
                  (members (skip s₂) (omega arith)))
                (λ vs rest q. q)

-- With more than 2 * length units of fuel a value settles, and with one more so do the items and
-- the members behind an opening bracket.
mutual
  scan_value-Settles : (fuel : ℕ) → ValueSettles fuel
  scan_value-Settles zero s h = absurd (omega arith)
  scan_value-Settles (suc fuel) s h =
      scan_value-step fuel s h (scan_items-Settles fuel) (scan_members-Settles fuel)

  scan_items-Settles : (fuel : ℕ) → ItemsSettle fuel
  scan_items-Settles zero s h = absurd (omega arith)
  scan_items-Settles (suc fuel) s h =
      scan_items-step fuel s h (scan_value-Settles fuel) (scan_items-Settles fuel)

  scan_members-Settles : (fuel : ℕ) → MembersSettle fuel
  scan_members-Settles zero s h = absurd (omega arith)
  scan_members-Settles (suc fuel) s h =
      scan_members-step fuel s h (scan_value-Settles fuel) (scan_members-Settles fuel)

abbrev NotOut : Decoded Value → Type 0
NotOut (ok v) = Unit
NotOut (fail out_of_fuel) = ⊥
NotOut (fail _) = Unit

not_out : (r : Decoded Value) → NotOut r → r ≢ fail out_of_fuel
not_out (ok v) h e = cc
not_out (fail out_of_fuel) h e = absurd h
not_out (fail _) h e = cc

loads-NotOut : (s : Str) → NotOut (loads s)
unfolding loads
loads-NotOut s = elim (Bool-cases (starts_with s (0xFEFF ∷ []))) [
  | inl mark ↦ rw mark tt
  | inr plain_text ↦ rw plain_text (behind (scan_value _ (skip s)) settled)
]
  where
    settled : Settles (length (skip s)) (scan_value (suc (2 * length s)) (skip s))
    settled = scan_value-Settles _ (skip s) (omega (arith, length-skip-le s))

    behind :
        (r : Decoded (Value × Str))
        → Settles (length (skip s)) r
        → NotOut (
            r >>= λ (v, rest).
            if is_empty (skip rest) then ok v else fail DecodeError.invalid_json_syntax)
    behind (ok (v, rest)) h = ground arith
    behind (fail out_of_fuel) h = h
    behind (fail _) h = ground arith

-- Decoding ends on every input: the bound that the model puts on the recursion is never met.
pub decode_strict_json-ends :
    (serialized : Bytes) → decode_strict_json serialized ≢ fail out_of_fuel
unfolding decode_strict_json
decode_strict_json-ends serialized = decoded (decode_utf8 serialized)
  where
    decoded :
        (o : Option Str)
        → (elim o as (λ x. Decoded Value) [
          | none ↦ fail DecodeError.invalid_utf8
          | some s ↦ loads s
        ])
          ≢ fail out_of_fuel
    decoded none = λ e. cc
    decoded (some s) = not_out (loads s) (loads-NotOut s)
