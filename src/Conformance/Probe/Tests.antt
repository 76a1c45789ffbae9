-- ===== src/Conformance/Probe/Tests.antt =====
-- The admission of a crypto-conformance result at a concrete file.
use sacrysty.Prelude.{
  some, [], ◌∷◌, ◌≡◌, refl, codes, Str, Bytes, str_eq, mem, starts_with, ◌+ℤ◌, ◌-ℤ◌, ◌++◌,
}
use sacrysty.Json.{
  Value, text, object, Fields, end, field, has, insert, lookup, keys, subset, set_eq, as_dict,
  array, nil,
}
use sacrysty.Json.Equality.{py_eq, items_eq, members_in, number_eq, count}
use sacrysty.StrictJson.{decode_strict_json, loads, ok}
use sacrysty.StrictJson.Utf8.{decode_utf8, decode_from}
use sacrysty.StrictJson.Scan.{
  object_without_duplicate_members, scan_value, token, skip, closes_at_once, member_name, separator,
  collect, colon, opened,
}
use sacrysty.StrictJson.Strings.{scan_string, scan_units, join_surrogates}
use sacrysty.StrictJson.Numbers.{
  scan_number, span_digits, exact_int, digits_value, significant, exact_decimal, to_decimal,
}
use sacrysty.Conformance.{type_error, load}
use sacrysty.Conformance.Probe.{
  load_result, require_exact_members, is_hex, validate_fixture, validate_common, validate_fixtures,
  fixture_at, require_true, bind_fixture, check_bindings, check_observations, check_crypto_checks,
  validate_crypto, validate, check_file, main, admitted,
}
use sacrysty.Conformance.Probe.Admission.{IsQualified, main-IsQualified}

abbrev a16 : Str
a16 = codes "0123456789abcdef"

abbrev a64 : Str
a64 = a16 ++ a16 ++ a16 ++ a16

abbrev fixture_text : Str
fixture_text =
    codes "{\"bytes\":3,\"sha256\":\""
    ++ a64
    ++ codes "\",\"sha512\":\""
    ++ a64
    ++ a64
    ++ codes "\"}"

abbrev file : Bytes
file =
    codes
      "{\"checks\":{\"production_values\":false,\"sq_sign_verify\":true,\"sqv_detached_verify\":true,\"tampered_message_rejected\":true,\"tampered_signature_rejected\":true,\"wrong_certificate_rejected\":true,\"temporary_key_material_removed\":true},\"fixture_bytes\":3,\"fixture_sha256\":\""
    ++ a64
    ++ codes "\",\"fixture_sha512\":\""
    ++ a64
    ++ a64
    ++ codes "\",\"fixtures\":{\"message\":"
    ++ fixture_text
    ++ codes ",\"signature\":"
    ++ fixture_text
    ++ codes ",\"tampered_message\":"
    ++ fixture_text
    ++ codes ",\"tampered_signature\":"
    ++ fixture_text
    ++ codes
        "},\"reference_time\":\"20260910\",\"result\":{\"openpgp-rfc9580-classical-v1\":\"qualified-for-observed-runtime\",\"openpgp-rfc9980-pqc-v1\":\"unsupported\"},\"schema\":\"io.nisavid.sacrysty.crypto-conformance-result/v1\",\"source_revision\":\"r\",\"sq_version\":\"1\",\"sqv_version\":\"2\"}"

admit_sample :
    main (codes "crypto-conformance" ∷ codes "p" ∷ codes "r" ∷ []) (some file)
    ≡ admitted (codes "crypto-conformance")
unfolding main check_file load_result load validate validate_crypto check_crypto_checks
    check_observations check_bindings bind_fixture require_true fixture_at validate_fixtures
    validate_common validate_fixture is_hex require_exact_members set_eq subset keys lookup mem
    py_eq items_eq members_in number_eq count decode_strict_json decode_utf8 decode_from loads
    starts_with scan_value token skip closes_at_once member_name scan_string scan_units
    join_surrogates scan_number span_digits exact_int digits_value significant separator
    exact_decimal to_decimal ◌+ℤ◌ ◌-ℤ◌ has insert str_eq collect colon opened
    object_without_duplicate_members
admit_sample = refl

main-IsQualified_example :
    (bytes : Bytes) × (v : Value) × (d : Fields) × (some file ≡ some bytes)
    × (decode_strict_json bytes ≡ ok v)
    × (as_dict v ≡ some d)
    × IsQualified d (codes "r")
main-IsQualified_example = main-IsQualified (codes "p") (codes "r") (some file) admit_sample

-- A list for the PQC observation is no member of a set: a TypeError, not the check's own error.
unhashable :
    check_observations (
      object (
        field
          (codes "openpgp-rfc9580-classical-v1")
          (text (codes "qualified-for-observed-runtime"))
          (field (codes "openpgp-rfc9980-pqc-v1") (array nil) end)))
    ≡ type_error
unfolding check_observations require_exact_members set_eq subset keys lookup mem str_eq
unhashable = refl
