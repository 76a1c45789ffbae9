-- ===== src/Conformance/Envelope/Tests.antt =====
-- The admission rules at a concrete envelope.
use sacrysty.Prelude.{true, false, Bool, Str, ◌≡◌, refl, codes, str_eq, mem, starts_with, some}
use sacrysty.Json.{Value, text, object, Fields, end, field, lookup}
use sacrysty.Conformance.Envelope.{
  partition, publisher_namespace_admissible, extension_ok, extensions_ok, extensions_admissible,
}
use sacrysty.Json.{array, nil, cons, has, keys, set_eq, subset}
use sacrysty.Json.Equality.{py_eq}
use sacrysty.Conformance.{accepted}
use sacrysty.Conformance.Envelope.Schema.{audit, check_head, check_keywords, resolve, insert_sorted}
use sacrysty.Conformance.Envelope.Matcher.{
  envelope_admissible, envelope_matches_schema, matches_schema, matches_head, members_match,
}
use sacrysty.Conformance.Envelope.Admissible.{IsAdmissible, envelope_admissible-IsAdmissible}
use sacrysty.Conformance.Envelope.Admission.{
  IsQualifiedBy, IsInert, publisher_namespace_admissible-IsQualifiedBy,
  extensions_admissible-IsInert,
}

abbrev note : Value
note = object (
    field (codes "version") (text (codes "1.0.0"))
      (field (codes "criticality") (text (codes "optional")) end))

abbrev extensions : Fields
extensions = field (codes "org.example.note") note end

abbrev envelope : Fields
envelope = field (codes "publisher") (text (codes "io.nisavid")) (
    field (codes "record_id") (text (codes "io.nisavid.sacrysty:a:b"))
      (field (codes "extensions") (object extensions) end))

namespace_sample : publisher_namespace_admissible (object envelope) ≡ true
unfolding publisher_namespace_admissible partition lookup str_eq starts_with
namespace_sample = refl

-- A name that only begins like the publisher's does not belong to it.
foreign_namespace :
    publisher_namespace_admissible (
      object (
        field
          (codes "publisher")
          (text (codes "io.nis"))
          (field (codes "record_id") (text (codes "io.nisavid:a")) end)))
    ≡ false
unfolding publisher_namespace_admissible partition lookup str_eq starts_with
foreign_namespace = refl

publisher_namespace_admissible-IsQualifiedBy_example :
    (d : Fields) × (object envelope ≡ object d) × IsQualifiedBy d
publisher_namespace_admissible-IsQualifiedBy_example =
    publisher_namespace_admissible-IsQualifiedBy (object envelope) namespace_sample

extensions_sample : extensions_admissible (object envelope) ≡ true
unfolding extensions_admissible extensions_ok extension_ok lookup str_eq mem
extensions_sample = refl

extensions_found : lookup (codes "extensions") envelope ≡ some (object extensions)
unfolding lookup str_eq
extensions_found = refl

note_found : lookup (codes "org.example.note") extensions ≡ some note
unfolding lookup str_eq
note_found = refl

extensions_admissible-IsInert_example : IsInert note
extensions_admissible-IsInert_example =
    extensions_admissible-IsInert envelope extensions (codes "org.example.note") note
      extensions_sample extensions_found note_found

-- A schema in the style of contracts/schemas, with a reference.
abbrev schema : Value
schema = object (
    field (codes "type") (text (codes "object")) (
      field (codes "required") (array (cons (text (codes "publisher")) nil)) (
        field (codes "properties")
          (object (
            field (codes "publisher")
              (object (field (codes "$ref") (text (codes "#/$defs/name")) end)) end))
          (field (codes "$defs")
            (object (
              field (codes "name") (object (field (codes "type") (text (codes "string")) end)) end))
            end))))

abbrev no_pattern : Str → Bool
no_pattern s = false

abbrev finds_nothing : Str → Str → Bool
finds_nothing p s = false

envelope_sample :
    envelope_admissible no_pattern finds_nothing 20 (object envelope) schema ≡ accepted true
unfolding envelope_admissible envelope_matches_schema matches_schema matches_head members_match
    audit check_head check_keywords resolve insert_sorted publisher_namespace_admissible partition
    extensions_admissible extensions_ok extension_ok lookup has keys set_eq subset py_eq str_eq
    starts_with mem
envelope_sample = refl

envelope_admissible-IsAdmissible_example :
    IsAdmissible no_pattern finds_nothing 20 (object envelope) schema
envelope_admissible-IsAdmissible_example =
    envelope_admissible-IsAdmissible no_pattern finds_nothing 20 (object envelope) schema
      envelope_sample
