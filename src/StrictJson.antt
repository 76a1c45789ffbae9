-- ===== src/StrictJson.antt =====
-- sacrysty_runtime/strict_json.py, with the UTF-8 decoder and the scanner of json.loads that it
-- calls.
pub mod Result
pub mod Utf8
pub mod Numbers
pub mod Strings
pub mod Scan
mod Lengths
pub mod Fuel
pub mod Members
mod Tests
pub use Result.{Decoded, ok, fail}
pub use Result.{
  DecodeError, duplicate_member, non_finite_number, unrepresentable_number, invalid_utf8,
  invalid_json_syntax, int_digits_exceeded, out_of_fuel,
}
use sacrysty.Prelude.{
  ℕ, suc, ◌*◌, Bool, Option, none, some, [], ◌∷◌, Str, Bytes, length, is_empty, starts_with,
  if◌then◌else◌,
}
use sacrysty.Json.{Value}
use Result.{◌>>=◌}
use Utf8.{decode_utf8}
use Scan.{scan_value, skip}

-- `json.loads` on a str: no byte order mark, one value, and nothing but space around it.
unfoldable pub loads : Str → Decoded Value
loads s =
    if starts_with s (0xFEFF ∷ [])
    then fail invalid_json_syntax
    else (scan_value (suc (2 * length s)) (skip s) >>= λ (v, rest).
        if is_empty (skip rest) then ok v else fail invalid_json_syntax)

unfoldable pub decode_strict_json : Bytes → Decoded Value
decode_strict_json serialized = elim (decode_utf8 serialized) [
  | none ↦ fail invalid_utf8
  | some s ↦ loads s
]
