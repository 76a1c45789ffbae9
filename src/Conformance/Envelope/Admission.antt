-- ===== src/Conformance/Envelope/Admission.antt =====
-- What an admissible envelope says of its publisher and of its extensions.
use mathlib.Core.Path.{subst}
use sacrysty.Prelude.{
  ℕ, Bool, true, false, ◌≡◌, refl, all, sym, ap, ◌∙◌, ◌⊎◌, inl, inr, ◌&&◌, ◌||◌, not, Option, none,
  some, [], ◌∷◌, ◌++◌, Str, codes, ◌==◌, str_eq, str_eq_sound, mem, starts_with, arith,
  if◌then◌else◌,
}
use sacrysty.Json.{Value, text, object, Fields, end, field, lookup}
use sacrysty.Conformance.{is_text_sound}
use sacrysty.Conformance.Envelope.{
  put_char, partition, qualifier_ok, namespace_ok, publisher_namespace_admissible, extension_ok,
  extensions_ok, extensions_admissible, extension_value_ok, extensions_value_ok, option_is_text,
}

-- `s` is the qualifier, which has no colon, a colon and the rest.
abbrev IsSplit : Str → Option (Str × Str) → Type 0
IsSplit s none = Unit
IsSplit s (some (qualifier, local)) =
    (s ≡ qualifier ++ (b':' ∷ local)) × (all (λ c. not (c == b':')) qualifier ≡ true)

is_colon : (c : ℕ) → (c == b':') ≡ true → c ≡ b':'
is_colon c e = ground arith

partition-IsSplit : (s : Str) → IsSplit s (partition s)
unfolding partition
partition-IsSplit [] = tt
partition-IsSplit (c ∷ s) = by_test (c == b':') refl (partition s) (partition-IsSplit s)
  where
    by_test :
        (b : Bool)
        → (c == b':') ≡ b
        → (o : Option (Str × Str)) → IsSplit s o
        → IsSplit (c ∷ s) (if b then some ([], s) else put_char c o)
    by_test true e o h = (ap (λ x. x ∷ s) (is_colon c e), refl)
    by_test false e none h = tt
    by_test false e (some (qualifier, local)) (h, k) = (ap (λ t. c ∷ t) h, rw e k)

starts_with_sound : (s p : Str) → starts_with s p ≡ true → (t : Str) × (s ≡ p ++ t)
unfolding starts_with
starts_with_sound s [] h = (s, refl)
starts_with_sound [] (d ∷ p) h = cc
starts_with_sound (c ∷ s) (d ∷ p) h =
    let (t, e) = starts_with_sound s p (and_right (c == d) (starts_with s p) h) in
    (t, ap (λ x. x ∷ s) (eq_sound c d (and_left (c == d) (starts_with s p) h)) ∙ ap (λ u. d ∷ u) e)
  where
    and_left : (a b : Bool) → (a && b) ≡ true → a ≡ true
    and_left true b h = refl
    and_left false b h = cc

    and_right : (a b : Bool) → (a && b) ≡ true → b ≡ true
    and_right true b h = h
    and_right false b h = cc

    eq_sound : (m n : ℕ) → (m == n) ≡ true → m ≡ n
    eq_sound m n h = ground arith

-- The publisher and the two parts of the record's id.
pub record IsQualifiedBy (d : Fields) : Type 0 where
  publisher : Str
  qualifier : Str
  local : Str
  publisher_found : lookup (codes "publisher") d ≡ some (text publisher)
  record_id_found : lookup (codes "record_id") d ≡ some (text (qualifier ++ (b':' ∷ local)))
  no_colon : all (λ c. not (c == b':')) qualifier ≡ true
  belongs : (qualifier ≡ publisher) ⊎ ((t : Str) × (qualifier ≡ (publisher ++ codes ".") ++ t))

Parts : Str → Str → Type 0
Parts publisher record_id =
    (qualifier : Str) × (local : Str) × (record_id ≡ qualifier ++ (b':' ∷ local))
    × (all (λ c. not (c == b':')) qualifier ≡ true)
    × ((qualifier ≡ publisher) ⊎ ((t : Str) × (qualifier ≡ (publisher ++ codes ".") ++ t)))

qualifier_ok_sound :
    (publisher record_id : Str) (o : Option (Str × Str))
    → IsSplit record_id o
    → qualifier_ok publisher o ≡ true
    → Parts publisher record_id
unfolding Parts
qualifier_ok_sound publisher record_id none split h = cc
qualifier_ok_sound publisher record_id (some (qualifier, local)) (e, k) h =
    (qualifier, local, e, k, belongs (str_eq qualifier publisher) refl h)
  where
    belongs :
        (b : Bool)
        → str_eq qualifier publisher ≡ b
        → (b || starts_with qualifier (publisher ++ codes ".")) ≡ true
        → (qualifier ≡ publisher) ⊎ ((t : Str) × (qualifier ≡ (publisher ++ codes ".") ++ t))
    belongs true e h = inl (str_eq_sound qualifier publisher e)
    belongs false e h = inr (starts_with_sound qualifier (publisher ++ codes ".") h)

namespace_ok_sound :
    (p r : Option Value)
    → namespace_ok p r ≡ true
    → (publisher : Str) × (record_id : Str) × (p ≡ some (text publisher))
      × (r ≡ some (text record_id))
      × Parts publisher record_id
namespace_ok_sound (some (text publisher)) (some (text record_id)) h = (
  publisher,
  record_id,
  refl,
  refl,
  qualifier_ok_sound publisher record_id (partition record_id) (partition-IsSplit record_id) h,
)
namespace_ok_sound (some (text publisher)) none h = cc
namespace_ok_sound (some (text publisher)) (some _) h = cc
namespace_ok_sound (some _) r h = cc
namespace_ok_sound none r h = cc

-- A record whose publisher namespace is admissible is an object; its record id is a qualifier
-- without a colon, then a colon and a local part; and the qualifier is the publisher, or the
-- publisher followed by a dot and more.
pub publisher_namespace_admissible-IsQualifiedBy :
    (v : Value)
    → publisher_namespace_admissible v ≡ true
    → (d : Fields) × (v ≡ object d) × IsQualifiedBy d
unfolding publisher_namespace_admissible Parts
publisher_namespace_admissible-IsQualifiedBy (object d) h =
    let (publisher, record_id, p, r, (qualifier, local, e, k, b)) =
      namespace_ok_sound (lookup (codes "publisher") d) (lookup (codes "record_id") d) h in
    (
      d,
      refl,
      record {
        publisher = publisher;
        qualifier = qualifier;
        local = local;
        publisher_found = p;
        record_id_found = r ∙ ap (λ s. some (text s)) e;
        no_colon = k;
        belongs = b;
      },
    )
publisher_namespace_admissible-IsQualifiedBy _ h = cc

-- An extension of the supported version that is not required.
abbrev pub IsInert : Value → Type 0
IsInert v =
    (e : Fields) × (v ≡ object e)
    × (lookup (codes "version") e ≡ some (text (codes "1.0.0")))
    × (option_is_text (lookup (codes "criticality") e) (codes "required") ≡ false)

option_is_text_sound : (o : Option Value) (s : Str) → option_is_text o s ≡ true → o ≡ some (text s)
option_is_text_sound none s h = cc
option_is_text_sound (some v) s h = ap some (is_text_sound v s h)

split_and : (a b : Bool) → (a && b) ≡ true → (a ≡ true) × (b ≡ true)
split_and true b h = (refl, h)
split_and false b h = cc

extension_value_ok-IsInert : (name : Str) (v : Value) → extension_value_ok name v ≡ true → IsInert v
unfolding extension_ok mem
extension_value_ok-IsInert name (object e) h =
    let (version, rest) =
      split_and (option_is_text (lookup (codes "version") e) (codes "1.0.0")) _ h in
    (
      e,
      refl,
      option_is_text_sound _ _ version,
      not_required (option_is_text (lookup (codes "criticality") e) (codes "required")) rest,
    )
  where
    not_required : (b : Bool) → not (b && true) ≡ true → b ≡ false
    not_required true h = cc
    not_required false h = refl
extension_value_ok-IsInert name _ h = cc

-- Every extension is inert.
abbrev pub AreInertIn : Fields → Type 0
AreInertIn end = Unit
AreInertIn (field name v rest) = IsInert v × AreInertIn rest

-- The member "extensions" may be absent.
abbrev pub AreInert : Option Value → Type 0
AreInert none = Unit
AreInert (some (object extensions)) = AreInertIn extensions
AreInert (some _) = ⊥

extensions_ok-AreInertIn : (d : Fields) → extensions_ok d ≡ true → AreInertIn d
unfolding extensions_ok
extensions_ok-AreInertIn end h = tt
extensions_ok-AreInertIn (field n w rest) h =
    let (here, there) = split_and (extension_value_ok n w) (extensions_ok rest) h in
    (extension_value_ok-IsInert n w here, extensions_ok-AreInertIn rest there)

pub extensions_value_ok-AreInert : (o : Option Value) → extensions_value_ok o ≡ true → AreInert o
extensions_value_ok-AreInert none h = tt
extensions_value_ok-AreInert (some (object extensions)) h = extensions_ok-AreInertIn extensions h
extensions_value_ok-AreInert (some _) h = cc

some_eq {ℓ} : {A : Type ℓ} {x y : A} → some x ≡ some y → x ≡ y
some_eq e = cc

extensions_ok-IsInert :
    (d : Fields)
    → extensions_ok d ≡ true
    → (name : Str) (v : Value) → lookup name d ≡ some v
    → IsInert v
unfolding extensions_ok lookup
extensions_ok-IsInert end h name v e = cc
extensions_ok-IsInert (field n w rest) h name v e =
    let (here, there) = split_and (extension_value_ok n w) (extensions_ok rest) h in
    at_name (str_eq name n) (extension_value_ok-IsInert n w here)
      (extensions_ok-IsInert rest there name v) e
  where
    at_name :
        (b : Bool)
        → IsInert w
        → (lookup name rest ≡ some v → IsInert v)
        → (if b then some w else lookup name rest) ≡ some v
        → IsInert v
    at_name true h k e = subst IsInert (some_eq e) h
    at_name false h k e = k e

-- In an object whose extensions are admissible, every extension is an object of the supported
-- version whose criticality is not "required".
pub extensions_admissible-IsInert :
    (d extensions : Fields) (name : Str) (v : Value)
    → extensions_admissible (object d) ≡ true
    → lookup (codes "extensions") d ≡ some (object extensions)
    → lookup name extensions ≡ some v
    → IsInert v
unfolding extensions_admissible
extensions_admissible-IsInert d extensions name v h found_extensions at_name =
    extensions_ok-IsInert extensions (ap extensions_value_ok (sym found_extensions) ∙ h) name v
      at_name
