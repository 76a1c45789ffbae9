-- ===== src/Conformance/Envelope/Matcher.antt =====
-- conformance/check-domain-model.py: the matcher of a record against an audited schema, and the
-- rules of admission together.
use sacrysty.Prelude.{
  ℕ, zero, suc, Bool, true, false, ◌&&◌, ◌||◌, not, Option, none, some, [], Str, codes, ◌++◌,
  if◌then◌else◌,
}
use sacrysty.Json.{
  Value, null, boolean, text, array, object, Items, nil, cons, Fields, end, field, lookup, has,
  as_dict,
}
use sacrysty.Json.Equality.{py_eq}
use sacrysty.Conformance.{Verdict, accepted, rejected, type_error, ◌>>=◌, ◌>>◌, object_of}
use sacrysty.Conformance.Envelope.{
  option_is_text, publisher_namespace_admissible, extensions_admissible,
}
use sacrysty.Conformance.Envelope.Schema.{audit, resolve, if_present, is_str}

abbrev pub any_equal : Value → Items → Bool
any_equal v nil = false
any_equal v (cons w ws) = py_eq v w || any_equal v ws

-- `value in schema["enum"]`; the audit leaves a list.
abbrev pub in_enum : Value → Value → Bool
in_enum v (array ws) = any_equal v ws
in_enum v _ = false

-- `set(required) <= value.keys()`; the audit leaves a list of strings.
abbrev pub all_present : Items → Fields → Bool
all_present nil d = true
all_present (cons (text name) ws) d = has name d && all_present ws d
all_present (cons _ ws) d = false

abbrev pub has_required : Option Value → Fields → Bool
has_required none d = true
has_required (some (array names)) d = all_present names d
has_required (some _) d = false

abbrev pub and_then : Verdict Bool → Verdict Bool → Verdict Bool
and_then first second = first >>= λ b. if b then second else accepted false

abbrev pub referenced_of : Value → Verdict Fields
referenced_of (object d) = accepted d
referenced_of _ = rejected (codes "referenced schema is not an object")

abbrev pub properties_of : Option Value → Verdict Fields
properties_of none = accepted end
properties_of (some (object d)) = accepted d
properties_of (some _) = rejected (codes "schema properties are not an object")

-- Every name of the dict matches.
abbrev pub all_names : (Value → Verdict Bool) → Fields → Verdict Bool
all_names matches end = accepted true
all_names matches (field name v rest) = and_then (matches (text name)) (all_names matches rest)

abbrev pub names_match : (Fields → Value → Verdict Bool) → Option Value → Fields → Verdict Bool
names_match matches none d = accepted true
names_match matches (some null) d = accepted true
names_match matches (some (object names)) d = all_names (matches names) d
names_match matches (some _) d = rejected (codes "propertyNames is not a schema object")

-- A member without a schema of its own.
abbrev pub additional_match : (Fields → Value → Verdict Bool) → Option Value → Value → Verdict Bool
additional_match matches (some (boolean false)) v = accepted false
additional_match matches (some (object schema)) v = matches schema v
additional_match matches _ v = accepted true

abbrev pub member_match :
    (Fields → Value → Verdict Bool) → Option Value → Option Value → Str → Value → Verdict Bool
member_match matches additional none name v = additional_match matches additional v
member_match matches additional (some null) name v = additional_match matches additional v
member_match matches additional (some (object schema)) name v = matches schema v
member_match matches additional (some _) name v =
    rejected (codes "schema for " ++ name ++ codes " is not an object")

unfoldable pub members_match :
    (Fields → Value → Verdict Bool) → Option Value → Fields → Fields → Verdict Bool
members_match matches additional properties end = accepted true
members_match matches additional properties (field name v rest) =
    and_then (member_match matches additional (lookup name properties) name v)
      (members_match matches additional properties rest)

-- `re.compile` succeeds on the text; `re.search` finds the pattern in the text.
module _ (compiles : Str → Bool) (search : Str → Str → Bool) where
  abbrev pub pattern_found : Value → Value → Bool
  pattern_found (text s) (text pattern_) = search pattern_ s
  pattern_found _ _ = false

  -- The tests before the members.
  unfoldable pub matches_head : Value → Fields → Bool
  matches_head v schema =
      if_present (lookup (codes "const") schema) (λ w. py_eq v w)
      && if_present (lookup (codes "enum") schema) (in_enum v)
      && (not (option_is_text (lookup (codes "type") schema) (codes "string")) || is_str v)
      && if_present (lookup (codes "pattern") schema) (pattern_found v)

  abbrev pub object_match : (Fields → Value → Verdict Bool) → Fields → Value → Verdict Bool
  object_match matches schema (object d) =
      if has_required (lookup (codes "required") schema) d
      then (do
        properties ← properties_of (lookup (codes "properties") schema)
        and_then (names_match matches (lookup (codes "propertyNames") schema) d)
            (members_match matches (lookup (codes "additionalProperties") schema) properties d))
      else accepted false
  object_match matches schema _ = accepted false

  abbrev pub plain_match : (Fields → Value → Verdict Bool) → Fields → Value → Verdict Bool
  plain_match matches schema v =
      if matches_head v schema
      then (if option_is_text (lookup (codes "type") schema) (codes "object")
          then object_match matches schema v
          else accepted true)
      else accepted false

  -- The audit leaves a text for a reference.
  abbrev pub reference_match :
      (Fields → Value → Verdict Bool) → Fields → Option Value → Value → Verdict Bool
  reference_match matches root (some (text reference)) v = do
    referenced ← resolve compiles reference root
    schema ← referenced_of referenced
    matches schema v
  reference_match matches root _ v = type_error

  -- `_matches_envelope_schema`
  unfoldable pub matches_schema : ℕ → Fields → Fields → Value → Verdict Bool
  matches_schema zero root schema v = Verdict.unfinished
  matches_schema (suc fuel) root schema v =
      let matches = matches_schema fuel root in
      if has (codes "$ref") schema
      then reference_match matches root (lookup (codes "$ref") schema) v
      else plain_match matches schema v

  unfoldable pub envelope_matches_schema : ℕ → Value → Value → Verdict Bool
  envelope_matches_schema fuel record_ schema = do
    audit compiles fuel none [] false schema (codes "$")
    root ← object_of (codes "root schema is not an object") (as_dict schema)
    matches_schema fuel root root record_

  unfoldable pub envelope_admissible : ℕ → Value → Value → Verdict Bool
  envelope_admissible fuel record_ schema =
      and_then (envelope_matches_schema fuel record_ schema)
        (accepted (publisher_namespace_admissible record_ && extensions_admissible record_))
