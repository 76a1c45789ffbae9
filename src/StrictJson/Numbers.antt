-- ===== src/StrictJson/Numbers.antt =====
-- Numbers of JSON: the scanner of json.loads, `int`, and `_exact_decimal` with decimal.Decimal.
use sacrysty.Prelude.{
  ℕ, zero, suc, ◌+◌, ◌-◌, ◌*◌, Bool, true, false, ◌&&◌, ◌||◌, Option, none, some, [], ◌∷◌, ◌++◌,
  Str, leb, ltb, ◌==◌, ℤ, pos, negsuc, ◌-ℤ◌, ◌+ℤ◌, ltb_ℤ, length, take, if◌then◌else◌,
}
use sacrysty.Json.{Value, integer, decimal, Decimal}
use sacrysty.StrictJson.Result.{
  Decoded, ok, fail, ◌>>=◌, unrepresentable_number, non_finite_number, int_digits_exceeded,
  invalid_json_syntax,
}

abbrev pub is_digit : ℕ → Bool
is_digit c = leb b'0' c && leb c b'9'

-- The longest prefix of digits, and the rest.
unfoldable pub span_digits : Str → Str × Str
span_digits [] = ([], [])
span_digits (c ∷ s) =
    let (ds, rest) = span_digits s in if is_digit c then (c ∷ ds, rest) else ([], c ∷ s)

-- The value of a text of digits.
unfoldable pub digits_value : ℕ → Str → ℕ
digits_value n [] = n
digits_value n (d ∷ ds) = digits_value (n * 10 + (d - b'0')) ds

abbrev pub signed : Bool → ℕ → ℤ
signed false n = pos n
signed true zero = pos 0
signed true (suc n) = negsuc n

-- The parts of a number literal that the scanner has matched.
pub record Literal : Type 0 where
  pub negative : Bool
  pub whole : Str
  pub fraction : Option Str
  pub power : Option (Bool × Str)

-- What `decimal.Decimal(text)` does: the exact value, InvalidOperation, or a special value.
pub data Conversion : Type 0 where
  finite : Decimal → Conversion
  invalid_operation special : Conversion

abbrev pub exponent_of : Literal → ℤ
exponent_of l =
    elim l.power [ none ↦ pos 0 | some (m, p) ↦ signed m (digits_value 0 p) ]
    -ℤ elim l.fraction [ none ↦ pos 0 | some f ↦ pos (length f) ]

-- The coefficient without its leading zeros has this many digits.
unfoldable pub significant : Str → ℕ
significant [] = 1
significant (d ∷ ds) =
    let rest = significant ds in if d == b'0' && ltb 0 (length ds) then rest else length (d ∷ ds)

abbrev pub fraction_digits : Literal → Str
fraction_digits l = elim l.fraction [ none ↦ [] | some f ↦ f ]

-- MAX_EMAX and the least exponent of the decimal module on a 64-bit system.
abbrev max_emax : ℕ
max_emax = 999999999999999999

abbrev min_etiny : ℤ
min_etiny = negsuc 1999999999999999996

unfoldable pub to_decimal : Literal → Conversion
to_decimal l =
    let digits = l.whole ++ fraction_digits l in
    let exponent = exponent_of l in
    if ltb_ℤ (pos max_emax) (exponent +ℤ pos (significant digits - 1)) || ltb_ℤ exponent min_etiny
    then invalid_operation
    else finite
        (record { coefficient = signed l.negative (digits_value 0 digits); exponent = exponent })

-- `_exact_decimal`
unfoldable pub exact_decimal : Str → Conversion → Decoded Value
exact_decimal value (finite d) = ok (decimal d)
exact_decimal value invalid_operation = fail (unrepresentable_number value)
exact_decimal value special = fail (non_finite_number value)

-- sys.get_int_max_str_digits
abbrev pub int_max_str_digits : ℕ
int_max_str_digits = 4300

unfoldable pub exact_int : Bool → Str → Decoded Value
exact_int negative whole =
    if ltb int_max_str_digits (length whole)
    then fail int_digits_exceeded
    else ok (integer (signed negative (digits_value 0 whole)))

-- `parse_float` or `int` on the text that was matched.
abbrev pub number_value : Str → Literal → Decoded Value
number_value value l = elim l.fraction [
  | some f ↦ exact_decimal value (to_decimal l)
  | none ↦ elim l.power [
    | some p ↦ exact_decimal value (to_decimal l)
    | none ↦ exact_int l.negative l.whole
  ]
]

-- `-?(0|[1-9][0-9]*)`: the whole part, if there is one.
abbrev pub match_whole : Str → Option (Str × Str)
match_whole [] = none
match_whole (c ∷ s) =
    if c == b'0'
    then some (c ∷ [], s)
    else if is_digit c
    then (let (ds, rest) = span_digits s in some (c ∷ ds, rest))
    else none

-- `(\.[0-9]+)?`
abbrev pub match_fraction : Str → Option Str × Str
match_fraction [] = (none, [])
match_fraction (c ∷ s) =
    let (ds, rest) = span_digits s in
    if c == b'.' && ltb 0 (length ds) then (some ds, rest) else (none, c ∷ s)

abbrev match_sign : Str → Bool × Str
match_sign [] = (false, [])
match_sign (c ∷ s) =
    if c == b'-' then (true, s) else if c == b'+' then (false, s) else (false, c ∷ s)

-- `([eE][-+]?[0-9]+)?`
abbrev pub match_power : Str → Option (Bool × Str) × Str
match_power [] = (none, [])
match_power (c ∷ s) =
    let (negative, unsigned) = match_sign s in
    let (ds, rest) = span_digits unsigned in
    if (c == b'e' || c == b'E') && ltb 0 (length ds)
    then (some (negative, ds), rest)
    else (none, c ∷ s)

-- The text from the first place up to the second.
abbrev between : Str → Str → Str
between start rest = take (length start - length rest) start

abbrev pub after_whole : Str → Bool → Str → Str → Decoded (Value × Str)
after_whole start negative whole s =
    let (fraction, s₁) = match_fraction s in
    let (power, s₂) = match_power s₁ in
    number_value (between start s₂)
      (record { negative = negative; whole = whole; fraction = fraction; power = power })
    >>= λ v. ok (v, s₂)

abbrev pub matched : Str → Bool → Option (Str × Str) → Decoded (Value × Str)
matched start negative none = fail invalid_json_syntax
matched start negative (some (whole, rest)) = after_whole start negative whole rest

unfoldable pub scan_number : Str → Decoded (Value × Str)
scan_number [] = fail invalid_json_syntax
scan_number (c ∷ s) =
    if c == b'-'
    then matched (c ∷ s) true (match_whole s)
    else matched (c ∷ s) false (match_whole (c ∷ s))
