-- ===== src/Conformance/Envelope/Matching.antt =====
-- The matcher of a record against a schema accepts what conforms to it only.
use sacrysty.Prelude.{
  ℕ, zero, suc, Bool, true, false, ◌&&◌, ◌||◌, not, Option, none, some, Str, codes, ◌≡◌, ◌≢◌, refl,
  ap, ◌∙◌, ◌⊎◌, inl, inr, if◌then◌else◌,
}
use sacrysty.Json.{
  Value, null, boolean, text, array, object, Items, nil, cons, Fields, end, field, lookup, has,
}
use sacrysty.Conformance.{
  Verdict, accepted, rejected, type_error, ◌>>=◌, >>=-eq-accepted, accepted-injective,
}
use sacrysty.Conformance.Envelope.{option_is_text}
use sacrysty.Conformance.Envelope.Schema.{resolve, if_present, is_str}
use sacrysty.Conformance.Envelope.Matcher.{
  any_equal, in_enum, all_present, has_required, and_then, referenced_of, properties_of, all_names,
  names_match, additional_match, member_match, members_match, pattern_found, matches_head,
  object_match, plain_match, reference_match, matches_schema,
}
use sacrysty.Conformance.Envelope.Conformity.{
  OnMember, AllPresent, IsPresent, IsUndescribed, value_of, names_of, members_of, Agrees, Conforms,
  refers, of_no_object, of_object, any_names, no_names, more_names, no_members, described,
  additional_, unchecked,
}

no_path : false ≢ true
no_path h = cc

split : (a b : Bool) → (a && b) ≡ true → (a ≡ true) × (b ≡ true)
split true b h = (refl, h)
split false b h = cc

and_then-eq-true :
    (x y : Verdict Bool) → and_then x y ≡ accepted true → (x ≡ accepted true) × (y ≡ accepted true)
and_then-eq-true (accepted true) y e = (refl, e)
and_then-eq-true (accepted false) y e = elim (no_path (accepted-injective e)) [ ]
and_then-eq-true (rejected m) y e = cc
and_then-eq-true type_error y e = cc
and_then-eq-true Verdict.value_error y e = cc
and_then-eq-true Verdict.key_error y e = cc
and_then-eq-true Verdict.unfinished y e = cc

in_enum_sound :
    (v w : Value) → in_enum v w ≡ true → (ws : Items) × (w ≡ array ws) × (any_equal v ws ≡ true)
in_enum_sound v (array ws) h = (ws, refl, h)
in_enum_sound v _ h = cc

pattern_found_sound :
    (search : Str → Str → Bool) (compiles : Str → Bool) (v w : Value)
    → pattern_found compiles search v w ≡ true
    → (s : Str) × (p : Str) × (v ≡ text s) × (w ≡ text p) × (search p s ≡ true)
pattern_found_sound search compiles (text s) (text p) h = (s, p, refl, refl, h)
pattern_found_sound search compiles (text s) _ h = cc
pattern_found_sound search compiles _ w h = cc

if_present-OnMember :
    (o : Option Value) (p : Value → Bool) (P : Value → Type 0)
    → ((v : Value) → p v ≡ true → P v)
    → if_present o p ≡ true
    → OnMember o P
if_present-OnMember none p P f h = tt
if_present-OnMember (some v) p P f h = f v h

string_typed_sound :
    (b : Bool) (v : Value) → (not b || is_str v) ≡ true → (b ≡ false) ⊎ ((s : Str) × (v ≡ text s))
string_typed_sound false v h = inl refl
string_typed_sound true (text s) h = inr (s, refl)
string_typed_sound true _ h = cc

all_present-AllPresent : (ws : Items) (d : Fields) → all_present ws d ≡ true → AllPresent ws d
all_present-AllPresent nil d h = tt
all_present-AllPresent (cons (text name) ws) d h =
    let (here, rest) = split (has name d) (all_present ws d) h in
    (here, all_present-AllPresent ws d rest)
all_present-AllPresent (cons _ ws) d h = cc

has_required-IsPresent : (o : Option Value) (d : Fields) → has_required o d ≡ true → IsPresent o d
has_required-IsPresent none d h = tt
has_required-IsPresent (some (array names)) d h = all_present-AllPresent names d h
has_required-IsPresent (some _) d h = cc

module _ (compiles : Str → Bool) (search : Str → Str → Bool) where
  matches_head-Agrees :
      (v : Value) (schema : Fields)
      → has (codes "$ref") schema ≡ false
      → matches_head compiles search v schema ≡ true
      → Agrees search schema v
  unfolding matches_head
  matches_head-Agrees v schema n h =
      let (h₁, found) =
        split _ (if_present (lookup (codes "pattern") schema) (pattern_found compiles search v))
          h in
      let (h₂, string_) =
        split _ (not (option_is_text (lookup (codes "type") schema) (codes "string")) || is_str v)
          h₁ in
      let (const_, enum_) = split _ (if_present (lookup (codes "enum") schema) (in_enum v)) h₂ in
      record {
        no_reference = n;
        const = if_present-OnMember (lookup (codes "const") schema) _ _ (λ w e. e) const_;
        enum = if_present-OnMember (lookup (codes "enum") schema) _ _ (in_enum_sound v) enum_;
        string_typed = string_typed_sound _ v string_;
        pattern_ =
            if_present-OnMember (lookup (codes "pattern") schema) _ _
              (pattern_found_sound search compiles v) found;
      }

  module _ (root : Fields) where
    Sound : (Fields → Value → Verdict Bool) → Type 0
    Sound matches =
        (schema : Fields) (v : Value)
        → matches schema v ≡ accepted true
        → Conforms search compiles root (value_of schema v)

    all_names-Conforms :
        (matches : Fields → Value → Verdict Bool) (names d : Fields)
        → Sound matches
        → all_names (matches names) d ≡ accepted true
        → Conforms search compiles root (names_of (some (object names)) d)
    unfolding Sound
    all_names-Conforms matches names end f e = no_names names
    all_names-Conforms matches names (field name v rest) f e =
        let (here, others) =
          and_then-eq-true (matches names (text name)) (all_names (matches names) rest) e in
        more_names names name v rest (f names (text name) here)
          (all_names-Conforms matches names rest f others)

    names_match-Conforms :
        (matches : Fields → Value → Verdict Bool) (o : Option Value) (d : Fields)
        → Sound matches
        → names_match matches o d ≡ accepted true
        → Conforms search compiles root (names_of o d)
    names_match-Conforms matches none d f e = any_names none d tt
    names_match-Conforms matches (some null) d f e = any_names (some null) d tt
    names_match-Conforms matches (some (object names)) d f e =
        all_names-Conforms matches names d f e
    names_match-Conforms matches (some _) d f e = cc

    -- A member without a schema of its own.
    additional-Conforms :
        (matches : Fields → Value → Verdict Bool) (additional : Option Value) (properties : Fields)
        (name : Str) (v : Value) (rest : Fields)
        → Sound matches
        → IsUndescribed (lookup name properties)
        → additional_match matches additional v ≡ accepted true
        → Conforms search compiles root (members_of additional properties rest)
        → Conforms search compiles root (members_of additional properties (field name v rest))
    unfolding Sound
    additional-Conforms matches (some (boolean false)) properties name v rest f u e m =
        elim (no_path (accepted-injective e)) [ ]
    additional-Conforms matches (some (object schema)) properties name v rest f u e m =
        additional_ schema properties name v rest u (f schema v e) m
    additional-Conforms matches (some (boolean true)) properties name v rest f u e m =
        unchecked _ properties name v rest u tt m
    additional-Conforms matches none properties name v rest f u e m =
        unchecked _ properties name v rest u tt m
    additional-Conforms matches (some _) properties name v rest f u e m =
        unchecked _ properties name v rest u tt m

    member_match-Conforms :
        (matches : Fields → Value → Verdict Bool) (additional o : Option Value)
        (properties : Fields) (name : Str) (v : Value) (rest : Fields)
        → Sound matches
        → lookup name properties ≡ o
        → member_match matches additional o name v ≡ accepted true
        → Conforms search compiles root (members_of additional properties rest)
        → Conforms search compiles root (members_of additional properties (field name v rest))
    unfolding Sound
    member_match-Conforms matches additional none properties name v rest f u e m =
        additional-Conforms matches additional properties name v rest f (rw u tt) e m
    member_match-Conforms matches additional (some null) properties name v rest f u e m =
        additional-Conforms matches additional properties name v rest f (rw u tt) e m
    member_match-Conforms matches additional (some (object schema)) properties name v rest f u e m =
        described additional properties schema name v rest u (f schema v e) m
    member_match-Conforms matches additional (some _) properties name v rest f u e m = cc

    members_match-Conforms :
        (matches : Fields → Value → Verdict Bool) (additional : Option Value)
        (properties d : Fields)
        → Sound matches
        → members_match matches additional properties d ≡ accepted true
        → Conforms search compiles root (members_of additional properties d)
    unfolding members_match
    members_match-Conforms matches additional properties end f e = no_members additional properties
    members_match-Conforms matches additional properties (field name v rest) f e =
        let (here, others) =
          and_then-eq-true (member_match matches additional (lookup name properties) name v)
            (members_match matches additional properties rest) e in
        member_match-Conforms matches additional (lookup name properties) properties name v rest f
          refl here (members_match-Conforms matches additional properties rest f others)

    object_match-Conforms :
        (matches : Fields → Value → Verdict Bool) (schema : Fields) (v : Value)
        → Sound matches
        → Agrees search schema v
        → object_match compiles search matches schema v ≡ accepted true
        → Conforms search compiles root (value_of schema v)
    object_match-Conforms matches schema (object d) f a e =
        by_test (has_required (lookup (codes "required") schema) d) refl e
      where
        by_test :
            (b : Bool)
            → has_required (lookup (codes "required") schema) d ≡ b
            → (if b
                then (properties_of (lookup (codes "properties") schema) >>= λ properties.
                    and_then (names_match matches (lookup (codes "propertyNames") schema) d) (
                      members_match matches
                        (lookup (codes "additionalProperties") schema)
                        properties
                        d))
                else accepted false)
              ≡ accepted true
            → Conforms search compiles root (value_of schema (object d))
        by_test true r e =
            let (properties, found, e₁) =
              >>=-eq-accepted (properties_of (lookup (codes "properties") schema)) _ e in
            let (names, members) =
              and_then-eq-true (names_match matches (lookup (codes "propertyNames") schema) d)
                (members_match matches (lookup (codes "additionalProperties") schema) properties d)
                e₁ in
            of_object schema d properties a (has_required-IsPresent _ d r) found
              (names_match-Conforms matches _ d f names)
              (members_match-Conforms matches _ properties d f members)
        by_test false r e = elim (no_path (accepted-injective e)) [ ]
    object_match-Conforms matches schema _ f a e = elim (no_path (accepted-injective e)) [ ]

    plain_match-Conforms :
        (matches : Fields → Value → Verdict Bool) (schema : Fields) (v : Value)
        → Sound matches
        → has (codes "$ref") schema ≡ false
        → plain_match compiles search matches schema v ≡ accepted true
        → Conforms search compiles root (value_of schema v)
    plain_match-Conforms matches schema v f n e =
        by_tests (matches_head compiles search v schema) refl
          (option_is_text (lookup (codes "type") schema) (codes "object")) refl e
      where
        by_tests :
            (b : Bool)
            → matches_head compiles search v schema ≡ b
            → (t : Bool) → option_is_text (lookup (codes "type") schema) (codes "object") ≡ t
            → (if b
                then (if t then object_match compiles search matches schema v else accepted true)
                else accepted false)
              ≡ accepted true
            → Conforms search compiles root (value_of schema v)
        by_tests true h true t e =
            object_match-Conforms matches schema v f (matches_head-Agrees v schema n h) e
        by_tests true h false t e = of_no_object schema v (matches_head-Agrees v schema n h) t
        by_tests false h t k e = elim (no_path (accepted-injective e)) [ ]

    reference_match-Conforms :
        (matches : Fields → Value → Verdict Bool) (schema : Fields) (o : Option Value) (v : Value)
        → Sound matches
        → lookup (codes "$ref") schema ≡ o
        → reference_match compiles search matches root o v ≡ accepted true
        → Conforms search compiles root (value_of schema v)
    unfolding Sound
    reference_match-Conforms matches schema (some (text reference)) v f u e =
        let (referenced, found, e₁) = >>=-eq-accepted (resolve compiles reference root) _ e in
        let (s, is_schema, e₂) = >>=-eq-accepted (referenced_of referenced) _ e₁ in
        refers schema s v reference u (found ∙ ap accepted (is_object referenced is_schema))
          (f s v e₂)
      where
        is_object : (w : Value) {s : Fields} → referenced_of w ≡ accepted s → w ≡ object s
        is_object (object d) e = ap object (accepted-injective e)
        is_object _ e = cc
    reference_match-Conforms matches schema (some _) v f u e = cc
    reference_match-Conforms matches schema none v f u e = cc

    pub matches_schema-Conforms :
        (fuel : ℕ) (schema : Fields) (v : Value)
        → matches_schema compiles search fuel root schema v ≡ accepted true
        → Conforms search compiles root (value_of schema v)
    unfolding matches_schema Sound
    matches_schema-Conforms zero schema v e = cc
    matches_schema-Conforms (suc fuel) schema v e =
        by_test (has (codes "$ref") schema) refl (matches_schema-Conforms fuel) e
      where
        by_test :
            (b : Bool)
            → has (codes "$ref") schema ≡ b
            → Sound (matches_schema compiles search fuel root)
            → (if b
                then reference_match compiles search
                    (matches_schema compiles search fuel root)
                    root
                    (lookup (codes "$ref") schema)
                    v
                else plain_match compiles search
                    (matches_schema compiles search fuel root)
                    schema
                    v)
              ≡ accepted true
            → Conforms search compiles root (value_of schema v)
        by_test true h f e = reference_match-Conforms _ schema _ v f refl e
        by_test false h f e = plain_match-Conforms _ schema v f h e
