-- ===== src/Conformance/Envelope/Conformity.antt =====
-- The meaning of the keywords that the audit of an envelope's schema knows, without fuel: which
-- records conform to a schema.
use sacrysty.Prelude.{Bool, true, false, Option, none, some, Str, codes, ◌≡◌, ◌⊎◌}
use sacrysty.Json.{
  Value, null, boolean, text, array, object, Items, nil, cons, Fields, end, field, lookup, has,
}
use sacrysty.Json.Equality.{py_eq}
use sacrysty.Conformance.{accepted}
use sacrysty.Conformance.Envelope.{option_is_text}
use sacrysty.Conformance.Envelope.Schema.{resolve}
use sacrysty.Conformance.Envelope.Matcher.{any_equal, properties_of}

-- A property of a keyword's value, where the schema has the keyword.
abbrev pub OnMember : Option Value → (Value → Type 0) → Type 0
OnMember none P = Unit
OnMember (some v) P = P v

abbrev pub AllPresent : Items → Fields → Type 0
AllPresent nil d = Unit
AllPresent (cons (text name) ws) d = (has name d ≡ true) × AllPresent ws d
AllPresent (cons _ ws) d = ⊥

-- The names that "required" lists are members.
abbrev pub IsPresent : Option Value → Fields → Type 0
IsPresent none d = Unit
IsPresent (some (array names)) d = AllPresent names d
IsPresent (some _) d = ⊥

-- No schema of its own.
abbrev pub IsUndescribed : Option Value → Type 0
IsUndescribed none = Unit
IsUndescribed (some null) = Unit
IsUndescribed (some _) = ⊥

-- "additionalProperties" is neither false nor a schema.
abbrev pub IsOpen : Option Value → Type 0
IsOpen (some (boolean false)) = ⊥
IsOpen (some (object schema)) = ⊥
IsOpen _ = Unit

abbrev pub IsUnnamed : Option Value → Type 0
IsUnnamed none = Unit
IsUnnamed (some null) = Unit
IsUnnamed (some _) = ⊥

pub data Judgement : Type 0 where
  value_of : Fields → Value → Judgement
  names_of : Option Value → Fields → Judgement
  members_of : Option Value → Fields → Fields → Judgement

module _ (search : Str → Str → Bool) where
  -- The keywords that say nothing of members.
  pub record Agrees (schema : Fields) (v : Value) : Type 0 where
    pub no_reference : has (codes "$ref") schema ≡ false
    pub const : OnMember (lookup (codes "const") schema) (λ w. py_eq v w ≡ true)
    pub enum :
        OnMember
          (lookup (codes "enum") schema)
          (λ w. (ws : Items) × (w ≡ array ws) × (any_equal v ws ≡ true))
    pub string_typed :
        (option_is_text (lookup (codes "type") schema) (codes "string") ≡ false)
        ⊎ ((s : Str) × (v ≡ text s))
    pub pattern_ :
        OnMember
          (lookup (codes "pattern") schema)
          (λ w. (s : Str) × (p : Str) × (v ≡ text s) × (w ≡ text p) × (search p s ≡ true))

  module _ (compiles : Str → Bool) (root : Fields) where
    pub data Conforms : Judgement → Type 0 where
      refers :
          (schema referenced : Fields) (v : Value) (reference : Str)
          → lookup (codes "$ref") schema ≡ some (text reference)
          → resolve compiles reference root ≡ accepted (object referenced)
          → Conforms (value_of referenced v)
          → Conforms (value_of schema v)
      of_no_object :
          (schema : Fields) (v : Value)
          → Agrees schema v
          → option_is_text (lookup (codes "type") schema) (codes "object") ≡ false
          → Conforms (value_of schema v)
      of_object :
          (schema d properties : Fields)
          → Agrees schema (object d)
          → IsPresent (lookup (codes "required") schema) d
          → properties_of (lookup (codes "properties") schema) ≡ accepted properties
          → Conforms (names_of (lookup (codes "propertyNames") schema) d)
          → Conforms (members_of (lookup (codes "additionalProperties") schema) properties d)
          → Conforms (value_of schema (object d))
      any_names : (o : Option Value) (d : Fields) → IsUnnamed o → Conforms (names_of o d)
      no_names : (names : Fields) → Conforms (names_of (some (object names)) end)
      more_names :
          (names : Fields) (name : Str) (v : Value) (rest : Fields)
          → Conforms (value_of names (text name))
          → Conforms (names_of (some (object names)) rest)
          → Conforms (names_of (some (object names)) (field name v rest))
      no_members :
          (additional : Option Value) (properties : Fields)
          → Conforms (members_of additional properties end)
      described :
          (additional : Option Value) (properties schema : Fields) (name : Str) (v : Value)
          (rest : Fields)
          → lookup name properties ≡ some (object schema)
          → Conforms (value_of schema v)
          → Conforms (members_of additional properties rest)
          → Conforms (members_of additional properties (field name v rest))
      additional_ :
          (schema properties : Fields) (name : Str) (v : Value) (rest : Fields)
          → IsUndescribed (lookup name properties)
          → Conforms (value_of schema v)
          → Conforms (members_of (some (object schema)) properties rest)
          → Conforms (members_of (some (object schema)) properties (field name v rest))
      unchecked :
          (additional : Option Value) (properties : Fields) (name : Str) (v : Value) (rest : Fields)
          → IsUndescribed (lookup name properties)
          → IsOpen additional
          → Conforms (members_of additional properties rest)
          → Conforms (members_of additional properties (field name v rest))
