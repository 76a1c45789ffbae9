-- ===== src/Conformance/Envelope/Schema.antt =====
-- conformance/check-domain-model.py: the audit of the envelope's schema and the matcher. References
-- make both recursive over more than a part of the schema, so both run on fuel.
use sacrysty.Prelude.{
  ℕ, zero, suc, Bool, true, false, ◌&&◌, ◌||◌, not, Option, none, some, List, [], ◌∷◌, ◌++◌, Str,
  codes, is_empty, any, drop, length, ltb, ◌==◌, str_eq, mem, starts_with, if◌then◌else◌,
}
use sacrysty.Json.{
  Value, boolean, text, array, object, Items, nil, cons, Fields, end, field, lookup, has, keys,
  set_eq, is_hashable,
}
use sacrysty.Conformance.{Verdict, accepted, rejected, type_error, ◌>>=◌, ◌>>◌, require, is_text}
use sacrysty.Conformance.Envelope.{option_is_text}

abbrev pub schema_keys : List Str
schema_keys =
    codes "$defs"
    ∷ codes "$id"
    ∷ codes "$ref"
    ∷ codes "$schema"
    ∷ codes "additionalProperties"
    ∷ codes "const"
    ∷ codes "enum"
    ∷ codes "pattern"
    ∷ codes "properties"
    ∷ codes "propertyNames"
    ∷ codes "required"
    ∷ codes "title"
    ∷ codes "type"
    ∷ []

abbrev pub object_schema_keys : List Str
object_schema_keys =
    codes "additionalProperties"
    ∷ codes "properties"
    ∷ codes "propertyNames"
    ∷ codes "required"
    ∷ []

abbrev pub root_only_schema_keys : List Str
root_only_schema_keys = codes "$defs" ∷ codes "$id" ∷ codes "$schema" ∷ []

-- ", ".join(sorted(names)): strings are compared by their code points.
abbrev leq_text : Str → Str → Bool
leq_text [] t = true
leq_text (c ∷ s) [] = false
leq_text (c ∷ s) (d ∷ t) = ltb c d || (c == d && leq_text s t)

unfoldable pub insert_sorted : Str → List Str → List Str
insert_sorted x [] = x ∷ []
insert_sorted x (y ∷ ys) =
    let rest = insert_sorted x ys in if leq_text x y then x ∷ y ∷ ys else y ∷ rest

abbrev sorted : List Str → List Str
sorted [] = []
sorted (x ∷ xs) = insert_sorted x (sorted xs)

abbrev join : List Str → Str
join [] = []
join (x ∷ []) = x
join (x ∷ xs) = x ++ codes ", " ++ join xs

abbrev keep : (Str → Bool) → List Str → List Str
keep p [] = []
keep p (x ∷ xs) = if p x then x ∷ keep p xs else keep p xs

-- `names` must be empty.
abbrev pub require_none : Str → Str → List Str → Verdict (Unit {0})
require_none what location names =
    require (is_empty names) (what ++ codes " at " ++ location ++ codes ": " ++ join (sorted names))

abbrev pub is_str : Value → Bool
is_str (text s) = true
is_str _ = false

-- A test of a member that may be absent.
abbrev pub if_present : Option Value → (Value → Bool) → Bool
if_present none p = true
if_present (some v) p = p v

abbrev texts_of : Items → Option (List Str)
texts_of nil = some []
texts_of (cons (text s) vs) = elim (texts_of vs) [ none ↦ none | some ss ↦ some (s ∷ ss) ]
texts_of (cons _ vs) = none

abbrev no_repeat : List Str → Bool
no_repeat [] = true
no_repeat (x ∷ xs) = not (mem x xs) && no_repeat xs

abbrev distinct_texts : Option (List Str) → Bool
distinct_texts none = false
distinct_texts (some ss) = no_repeat ss

abbrev pub is_text_list : Value → Bool
is_text_list (array vs) = distinct_texts (texts_of vs)
is_text_list _ = false

abbrev pub is_enum : Value → Bool
is_enum (array nil) = false
is_enum v = is_text_list v

-- `expected_type not in {"object", "string"}` of a list or a dict is a TypeError.
abbrev pub known_type : Option Value → Str → Verdict (Unit {0})
known_type none location = accepted tt
known_type (some (text s)) location =
    require (str_eq s (codes "object") || str_eq s (codes "string"))
      (codes "unsupported schema type at " ++ location)
known_type (some v) location =
    if is_hashable v then rejected (codes "unsupported schema type at " ++ location) else type_error

-- The type of a pattern's instance: the schema's own, or what the caller says where it is absent or
-- null.
abbrev is_string_typed : Option Value → Bool → Bool
is_string_typed none instance_is_string = instance_is_string
is_string_typed (some Value.null) instance_is_string = instance_is_string
is_string_typed (some v) instance_is_string = is_text v (codes "string")

abbrev is_none : Option Fields → Bool
is_none none = true
is_none (some d) = false

abbrev root_or : Fields → Option Fields → Fields
root_or schema none = schema
root_or schema (some root) = root

-- re.compile of a text succeeds.
module _ (compiles : Str → Bool) where
  abbrev check_pattern : Option Value → Option Value → Bool → Str → Verdict (Unit {0})
  check_pattern none expected_type instance_is_string location = accepted tt
  check_pattern (some (text p)) expected_type instance_is_string location = do
    require (is_string_typed expected_type instance_is_string)
        (codes "pattern without string type at " ++ location)
    require (compiles p) (codes "invalid pattern at " ++ location)
  check_pattern (some _) expected_type instance_is_string location =
      rejected (codes "pattern without string type at " ++ location)

  -- The keywords that say nothing of other schemas.
  unfoldable pub check_keywords : Fields → Str → Bool → Verdict (Unit {0})
  check_keywords schema location instance_is_string = do
    known_type (lookup (codes "type") schema) location
    require
        (is_empty (keep (λ k. mem k object_schema_keys) (keys schema))
          || option_is_text (lookup (codes "type") schema) (codes "object"))
        (codes "object keyword without object type at "
          ++ location
          ++ codes ": "
          ++ join (sorted (keep (λ k. mem k object_schema_keys) (keys schema))))
    check_pattern (lookup (codes "pattern") schema) (lookup (codes "type") schema)
        instance_is_string location
    require (if_present (lookup (codes "const") schema) is_str)
        (codes "unsupported const at " ++ location)
    require (if_present (lookup (codes "enum") schema) is_enum)
        (codes "unsupported enum at " ++ location)
    require (if_present (lookup (codes "required") schema) is_text_list)
        (codes "invalid required members at " ++ location)

  abbrev audit_each : (Value → Str → Verdict (Unit {0})) → Str → Fields → Verdict (Unit {0})
  audit_each audit prefix end = accepted tt
  audit_each audit prefix (field name child rest) = do
    audit child (prefix ++ name)
    audit_each audit prefix rest

  -- `schema.get(key, {})`, which must be a dict.
  abbrev dict_or_empty : Option Value → Str → Verdict Fields
  dict_or_empty none message = accepted end
  dict_or_empty (some (object d)) message = accepted d
  dict_or_empty (some _) message = rejected message

  abbrev audit_present : (Value → Verdict (Unit {0})) → Option Value → Verdict (Unit {0})
  audit_present audit none = accepted tt
  audit_present audit (some v) = audit v

  abbrev audit_additional : (Value → Verdict (Unit {0})) → Str → Option Value → Verdict (Unit {0})
  audit_additional audit message none = accepted tt
  audit_additional audit message (some (boolean b)) = accepted tt
  audit_additional audit message (some (object d)) = audit (object d)
  audit_additional audit message (some _) = rejected message

  abbrev reference_form : Fields → Option Value → Str → Verdict Str
  reference_form schema (some (text reference)) location = do
    require (set_eq (keys schema) (codes "$ref" ∷ []))
        (codes "unsupported reference form at " ++ location)
    accepted reference
  reference_form schema _ location = rejected (codes "unsupported reference form at " ++ location)

  abbrev definition_in : Str → Option Value → Verdict Value
  definition_in reference (some v) = accepted v
  definition_in reference none = rejected (codes "unresolved schema reference: " ++ reference)

  abbrev definitions_of : Option Value → Fields
  definitions_of (some (object d)) = d
  definitions_of _ = end

  abbrev prefix : Str
  prefix = codes "#/$defs/"

  unfoldable pub resolve : Str → Fields → Verdict Value
  resolve reference root = do
    let name = drop (length prefix) reference
    require (starts_with reference prefix && not (any (λ c. c == b'/') name))
        (codes "unsupported schema reference: " ++ reference)
    definition_in reference (lookup name (definitions_of (lookup (codes "$defs") root)))

  abbrev is_dialect : Value → Bool
  is_dialect v = is_text v (codes "https://json-schema.org/draft/2020-12/schema")

  -- The tests before the reference.
  unfoldable pub check_head : Bool → Fields → Str → Verdict (Unit {0})
  check_head is_root schema location = do
    require_none (codes "unsupported schema keyword") location
        (keep (λ k. not (mem k schema_keys)) (keys schema))
    require_none (codes "root-only schema keyword") location
        (if is_root then [] else keep (λ k. mem k root_only_schema_keys) (keys schema))
    require (if_present (lookup (codes "$schema") schema) is_dialect)
        (codes "unsupported JSON Schema dialect at " ++ location)
    require (if_present (lookup (codes "$id") schema) is_str)
        (codes "invalid schema identity at " ++ location)
    require (if_present (lookup (codes "title") schema) is_str)
        (codes "invalid schema title at " ++ location)

  unfoldable mutual
    -- `_require_supported_envelope_schema`. `root` is none for the root itself.
    pub audit : ℕ → Option Fields → List Str → Bool → Value → Str → Verdict (Unit {0})
    audit zero root stack instance_is_string v location = Verdict.unfinished
    audit (suc fuel) root stack instance_is_string (object schema) location = do
      check_head (is_none root) schema location
      audit_body fuel (root_or schema root) stack instance_is_string schema location
    audit (suc fuel) root stack instance_is_string _ location =
        rejected (location ++ codes " is not a schema object")

    audit_body : ℕ → Fields → List Str → Bool → Fields → Str → Verdict (Unit {0})
    audit_body zero root stack instance_is_string schema location = Verdict.unfinished
    audit_body (suc fuel) root stack instance_is_string schema location =
        if has (codes "$ref") schema
        then audit_reference fuel root stack instance_is_string schema location
        else audit_members fuel root stack instance_is_string schema location

    audit_reference : ℕ → Fields → List Str → Bool → Fields → Str → Verdict (Unit {0})
    audit_reference zero root stack instance_is_string schema location = Verdict.unfinished
    audit_reference (suc fuel) root stack instance_is_string schema location = do
      reference ← reference_form schema (lookup (codes "$ref") schema) location
      require (not (mem reference stack))
          (codes "cyclic schema reference at " ++ location ++ codes ": " ++ reference)
      referenced ← resolve reference root
      audit fuel (some root) (stack ++ reference ∷ []) instance_is_string referenced
          (location ++ codes ".$ref(" ++ reference ++ codes ")")

    audit_members : ℕ → Fields → List Str → Bool → Fields → Str → Verdict (Unit {0})
    audit_members zero root stack instance_is_string schema location = Verdict.unfinished
    audit_members (suc fuel) root stack instance_is_string schema location = do
      check_keywords schema location instance_is_string
      properties ←
          dict_or_empty (lookup (codes "properties") schema)
            (codes "invalid properties at " ++ location)
      audit_each (audit fuel (some root) stack false) (location ++ codes ".properties.") properties
      audit_present (λ v. audit fuel (some root) stack true v (location ++ codes ".propertyNames"))
          (lookup (codes "propertyNames") schema)
      audit_additional
          (λ v. audit fuel (some root) stack false v (location ++ codes ".additionalProperties"))
          (codes "invalid additionalProperties at " ++ location)
          (lookup (codes "additionalProperties") schema)
      definitions ←
          dict_or_empty (lookup (codes "$defs") schema)
            (codes "invalid definitions at " ++ location)
      audit_each (audit fuel (some root) stack false) (location ++ codes ".$defs.") definitions
