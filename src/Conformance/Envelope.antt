-- ===== src/Conformance/Envelope.antt =====
-- conformance/check-domain-model.py: the parsing of an envelope and the admission rules that stand
-- beside its schema.
pub mod Admission
pub mod Schema
pub mod Matcher
pub mod Conformity
pub mod Matching
pub mod Admissible
pub mod Main
mod Tests
use sacrysty.Prelude.{
  ℕ, Bool, true, false, ◌&&◌, ◌||◌, not, Option, none, some, List, [], ◌∷◌, ◌++◌, Str, Bytes, codes,
  ◌==◌, str_eq, mem, starts_with, if◌then◌else◌,
}
use sacrysty.Json.{Value, text, object, Fields, end, field, lookup, as_dict, as_text}
use sacrysty.StrictJson.{
  decode_strict_json, Decoded, ok, fail, duplicate_member, non_finite_number,
  unrepresentable_number, invalid_utf8, invalid_json_syntax, int_digits_exceeded, out_of_fuel,
}
use sacrysty.Conformance.{Verdict, accepted, rejected, value_error, unfinished, is_text}

abbrev constants : List Str
constants = codes "NaN" ∷ codes "Infinity" ∷ codes "-Infinity" ∷ []

abbrev envelope_label : Str → Str
envelope_label value =
    if mem value constants
    then codes "non-JSON constant: " ++ value
    else codes "non-finite JSON number: " ++ value

-- The except clauses round the decoder.
abbrev pub envelope_of : Decoded Value → Verdict Value
envelope_of (ok v) = accepted v
envelope_of (fail (duplicate_member member)) = rejected (codes "duplicate JSON member: " ++ member)
envelope_of (fail (non_finite_number value)) = rejected (envelope_label value)
envelope_of (fail (unrepresentable_number value)) =
    rejected (codes "unrepresentable finite JSON number: " ++ value)
envelope_of (fail invalid_utf8) = rejected (codes "serialized envelope is not UTF-8")
envelope_of (fail invalid_json_syntax) = rejected (codes "serialized envelope is not JSON")
envelope_of (fail int_digits_exceeded) = value_error
envelope_of (fail out_of_fuel) = unfinished

unfoldable pub parse_serialized_envelope : Bytes → Verdict Value
parse_serialized_envelope serialized = envelope_of (decode_strict_json serialized)

abbrev pub supported_extension_version : Str
supported_extension_version = codes "1.0.0"

abbrev pub understood_required_extensions : List Str
understood_required_extensions = []

abbrev pub option_is_text : Option Value → Str → Bool
option_is_text none s = false
option_is_text (some v) s = is_text v s

-- One extension that is a dict.
unfoldable pub extension_ok : Str → Fields → Bool
extension_ok name extension =
    option_is_text (lookup (codes "version") extension) supported_extension_version
    && not (
        option_is_text (lookup (codes "criticality") extension) (codes "required")
        && not (mem name understood_required_extensions))

abbrev pub extension_value_ok : Str → Value → Bool
extension_value_ok name (object extension) = extension_ok name extension
extension_value_ok name _ = false

unfoldable pub extensions_ok : Fields → Bool
extensions_ok end = true
extensions_ok (field name v rest) = extension_value_ok name v && extensions_ok rest

-- `record.get("extensions", {})`
abbrev pub extensions_value_ok : Option Value → Bool
extensions_value_ok none = true
extensions_value_ok (some (object extensions)) = extensions_ok extensions
extensions_value_ok (some _) = false

unfoldable pub extensions_admissible : Value → Bool
extensions_admissible (object record_) = extensions_value_ok (lookup (codes "extensions") record_)
extensions_admissible _ = false

-- `s.partition(":")`: the part before the first colon, or none where there is no colon.
abbrev put_char : ℕ → Option (Str × Str) → Option (Str × Str)
put_char c none = none
put_char c (some (qualifier, local)) = some (c ∷ qualifier, local)

unfoldable pub partition : Str → Option (Str × Str)
partition [] = none
partition (c ∷ s) = if c == b':' then some ([], s) else put_char c (partition s)

abbrev pub qualifier_ok : Str → Option (Str × Str) → Bool
qualifier_ok publisher none = false
qualifier_ok publisher (some (qualifier, local)) =
    str_eq qualifier publisher || starts_with qualifier (publisher ++ codes ".")

abbrev pub namespace_ok : Option Value → Option Value → Bool
namespace_ok (some (text publisher)) (some (text record_id)) =
    qualifier_ok publisher (partition record_id)
namespace_ok _ _ = false

unfoldable pub publisher_namespace_admissible : Value → Bool
publisher_namespace_admissible (object record_) =
    namespace_ok (lookup (codes "publisher") record_) (lookup (codes "record_id") record_)
publisher_namespace_admissible _ = false
