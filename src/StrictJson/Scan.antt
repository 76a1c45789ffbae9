-- ===== src/StrictJson/Scan.antt =====
-- json.loads with the hooks of sacrysty_runtime/strict_json.py. The fuel bounds the depth and the
-- number of members together; the text's length is enough.
use sacrysty.Prelude.{
  ℕ, zero, suc, Bool, true, false, ◌||◌, Option, none, some, [], ◌∷◌, Str, codes, drop, ◌==◌,
  starts_with, if◌then◌else◌,
}
use sacrysty.Json.{
  Value, null, boolean, text, array, object, Items, nil, cons, Fields, end, field, has, insert,
}
use sacrysty.StrictJson.Result.{
  Decoded, ok, fail, ◌>>=◌, duplicate_member, non_finite_number, invalid_json_syntax, out_of_fuel,
}
use sacrysty.StrictJson.Numbers.{scan_number}
use sacrysty.StrictJson.Strings.{scan_string}

abbrev is_space : ℕ → Bool
is_space c = c == 32 || c == 9 || c == 10 || c == 13

unfoldable pub skip : Str → Str
skip [] = []
skip (c ∷ s) = let rest = skip s in if is_space c then rest else c ∷ s

-- `_object_without_duplicate_members`, from the members that are in the result already.
unfoldable pub collect : Fields → Fields → Decoded Fields
collect result end = ok result
collect result (field name value pairs) =
    if has name result
    then fail (duplicate_member name)
    else collect (insert name value result) pairs

unfoldable pub object_without_duplicate_members : Fields → Decoded Fields
unfolding collect
object_without_duplicate_members pairs = collect end pairs

-- `_reject_nonstandard_constant`
abbrev pub reject_nonstandard_constant : Str → Decoded (Value × Str)
reject_nonstandard_constant value = fail (non_finite_number value)

pub data Token : Type 0 where
  string_start object_start array_start : Str → Token
  scalar : Decoded (Value × Str) → Token

abbrev pub constant_or_number : Str → Decoded (Value × Str)
constant_or_number s =
    if starts_with s (codes "null")
    then ok (null, drop 4 s)
    else if starts_with s (codes "true")
    then ok (boolean true, drop 4 s)
    else if starts_with s (codes "false")
    then ok (boolean false, drop 5 s)
    else if starts_with s (codes "NaN")
    then reject_nonstandard_constant (codes "NaN")
    else if starts_with s (codes "Infinity")
    then reject_nonstandard_constant (codes "Infinity")
    else if starts_with s (codes "-Infinity")
    then reject_nonstandard_constant (codes "-Infinity")
    else scan_number s

-- What stands at the head of the text.
unfoldable pub token : Str → Token
token [] = scalar (fail invalid_json_syntax)
token (c ∷ s) =
    if c == b'"'
    then string_start s
    else if c == b'{'
    then object_start s
    else if c == b'['
    then array_start s
    else scalar (constant_or_number (c ∷ s))

pub data Separator : Type 0 where
  closing following : Str → Separator
  neither : Separator

-- Behind an element: the closing bracket, or a comma.
unfoldable pub separator : ℕ → Str → Separator
separator bracket [] = neither
separator bracket (c ∷ s) =
    if c == bracket then closing s else if c == b',' then following s else neither

unfoldable pub opened : Str → Option Str
opened [] = none
opened (c ∷ s) = if c == b'"' then some s else none

unfoldable pub colon : Str → Decoded Str
colon [] = fail invalid_json_syntax
colon (c ∷ s) = if c == b':' then ok s else fail invalid_json_syntax

-- The text behind the bracket, if it closes an empty array or object at once.
unfoldable pub closes_at_once : ℕ → Str → Option Str
closes_at_once bracket [] = none
closes_at_once bracket (c ∷ s) = if c == bracket then some s else none

-- A member's name and the text of its value.
unfoldable pub member_name : Str → Decoded (Str × Str)
unfolding colon opened
member_name s = elim (opened s) [
  | none ↦ fail invalid_json_syntax
  | some s₁ ↦ scan_string s₁ >>= λ (name, s₂). colon (skip s₂) >>= λ s₃. ok (name, skip s₃)
]

abbrev pub put_item : Value → Items × Str → Decoded (Items × Str)
put_item v (vs, rest) = ok (cons v vs, rest)

abbrev pub put_member : Str → Value → Fields × Str → Decoded (Fields × Str)
put_member name v (ms, rest) = ok (field name v ms, rest)

abbrev pub hooked : Fields × Str → Decoded (Value × Str)
hooked (pairs, rest) = object_without_duplicate_members pairs >>= λ d. ok (object d, rest)

unfoldable mutual
  pub scan_value : ℕ → Str → Decoded (Value × Str)
  scan_value zero s = fail out_of_fuel
  scan_value (suc fuel) s = elim (token s) [
    | scalar r ↦ r
    | string_start s₁ ↦ scan_string s₁ >>= λ (t, rest). ok (text t, rest)
    | array_start s₁ ↦ elim (closes_at_once b']' (skip s₁)) [
      | some rest ↦ ok (array nil, rest)
      | none ↦ scan_items fuel (skip s₁) >>= λ (vs, rest). ok (array vs, rest)
    ]
    | object_start s₁ ↦ elim (closes_at_once b'}' (skip s₁)) [
      | some rest ↦ hooked (end, rest)
      | none ↦ scan_members fuel (skip s₁) >>= hooked
    ]
  ]

  pub scan_items : ℕ → Str → Decoded (Items × Str)
  scan_items zero s = fail out_of_fuel
  scan_items (suc fuel) s = scan_value fuel s >>= λ (v, s₁). elim (separator b']' (skip s₁)) [
    | closing rest ↦ ok (cons v nil, rest)
    | following s₂ ↦ scan_items fuel (skip s₂) >>= put_item v
    | neither ↦ fail invalid_json_syntax
  ]

  pub scan_members : ℕ → Str → Decoded (Fields × Str)
  scan_members zero s = fail out_of_fuel
  scan_members (suc fuel) s = member_name s >>= λ (name, s₁). scan_value fuel s₁ >>= λ (v, s₂).
      elim (separator b'}' (skip s₂)) [
        | closing rest ↦ ok (field name v end, rest)
        | following s₃ ↦ scan_members fuel (skip s₃) >>= put_member name v
        | neither ↦ fail invalid_json_syntax
      ]
