-- ===== src/StrictJson/Tests.antt =====
-- The decoder on the cases of conformance/test-strict-json.py, and the theorems at concrete inputs.
use sacrysty.Prelude.{true, [], ◌∷◌, ◌≡◌, refl, codes, pos, negsuc, Bytes, if◌then◌else◌}
use sacrysty.Json.{
  Value, null, boolean, integer, decimal, text, array, object, nil, cons, Fields, end, field,
}
use sacrysty.StrictJson.{
  decode_strict_json, loads, ok, fail, duplicate_member, non_finite_number, unrepresentable_number,
  invalid_utf8, invalid_json_syntax,
}
use sacrysty.StrictJson.Utf8.{decode_utf8, decode_from}
use sacrysty.StrictJson.Scan.{
  object_without_duplicate_members, scan_value, token, skip, closes_at_once, member_name, separator,
  collect, colon, opened,
}
use sacrysty.StrictJson.Strings.{scan_string, scan_units, join_surrogates}
use sacrysty.StrictJson.Numbers.{
  scan_number, span_digits, exact_int, digits_value, significant, exact_decimal, to_decimal,
}
use sacrysty.Json.{has, insert}
use sacrysty.Prelude.{starts_with, str_eq, ◌+ℤ◌, ◌-ℤ◌}
use sacrysty.StrictJson.Members.{distinct, first_repeated, object_without_duplicate_members_lem}

abbrev sample : Bytes
sample = codes "{\"a\": [1, -2.50, true], \"b\": {\"c\": null}}"

abbrev sample_value : Value
sample_value = object (
    field (codes "a")
      (array (
        cons (integer (pos 1)) (
          cons (decimal (record { coefficient = negsuc 249; exponent = negsuc 1 }))
            (cons (boolean true) nil))))
      (field (codes "b") (object (field (codes "c") null end)) end))

decode_sample : decode_strict_json sample ≡ ok sample_value
unfolding decode_strict_json decode_utf8 decode_from loads starts_with scan_value token skip
    closes_at_once member_name scan_string scan_units join_surrogates scan_number span_digits
    exact_int digits_value significant separator exact_decimal to_decimal ◌+ℤ◌ ◌-ℤ◌ has insert
    str_eq collect colon opened object_without_duplicate_members
decode_sample = refl

rejections :
    (decode_strict_json (codes "{\"a\": 1, \"a\": 2}") ≡ fail (duplicate_member (codes "a")))
    × (decode_strict_json (codes "[NaN]") ≡ fail (non_finite_number (codes "NaN")))
    × (decode_strict_json (codes "-Infinity") ≡ fail (non_finite_number (codes "-Infinity")))
    × (decode_strict_json (codes "1e9999999999999999999")
        ≡ fail (unrepresentable_number (codes "1e9999999999999999999")))
    × (decode_strict_json (0xFF ∷ []) ≡ fail invalid_utf8)
    × (decode_strict_json (codes "{} x") ≡ fail invalid_json_syntax)
    × (decode_strict_json (codes "01") ≡ fail invalid_json_syntax)
    × (decode_strict_json (codes "\"\\ud83d\\ude00\"") ≡ ok (text (0x1F600 ∷ [])))
unfolding decode_strict_json decode_utf8 decode_from loads starts_with scan_value token skip
    closes_at_once member_name scan_string scan_units join_surrogates scan_number span_digits
    exact_int digits_value significant separator exact_decimal to_decimal ◌+ℤ◌ ◌-ℤ◌ has insert
    str_eq collect colon opened object_without_duplicate_members
rejections = (refl, refl, refl, refl, refl, refl, refl, refl)

abbrev twice_a : Fields
twice_a = field (codes "a") null (field (codes "b") null (field (codes "a") (boolean true) end))

object_without_duplicate_members_example : object_without_duplicate_members twice_a ≡ (
    if distinct twice_a then ok twice_a else fail (duplicate_member (first_repeated end twice_a)))
object_without_duplicate_members_example = object_without_duplicate_members_lem twice_a
