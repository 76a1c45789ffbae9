-- ===== src/Conformance/Envelope/Admissible.antt =====
-- What an admissible envelope is: all three rules together.
use mathlib.Core.Path.{subst}
use sacrysty.Prelude.{
  ℕ, Bool, true, false, ◌&&◌, ◌≡◌, ◌≢◌, refl, sym, ap, ◌∙◌, none, some, [], Str, codes,
  if◌then◌else◌,
}
use sacrysty.Json.{Value, object, Fields, lookup, as_dict}
use sacrysty.Conformance.{
  accepted, >>=-eq-accepted, object_of, object_of-eq-accepted, accepted-injective,
}
use sacrysty.Conformance.Envelope.{publisher_namespace_admissible, extensions_admissible}
use sacrysty.Conformance.Envelope.Schema.{audit}
use sacrysty.Conformance.Envelope.Matcher.{envelope_matches_schema, envelope_admissible}
use sacrysty.Conformance.Envelope.Conformity.{Conforms, value_of}
use sacrysty.Conformance.Envelope.Matching.{matches_schema-Conforms}
use sacrysty.Conformance.Envelope.Admission.{
  IsQualifiedBy, AreInert, extensions_value_ok-AreInert,
  publisher_namespace_admissible-IsQualifiedBy,
}

no_path : false ≢ true
no_path h = cc

as_object : (v : Value) {d : Fields} → as_dict v ≡ some d → v ≡ object d
as_object (object c) e = cc
as_object _ e = cc

module _ (compiles : Str → Bool) (search : Str → Str → Bool) where
  pub record IsAdmissible (fuel : ℕ) (v schema : Value) : Type 0 where
    root : Fields
    is_root : schema ≡ object root
    audited : audit compiles fuel none [] false schema (codes "$") ≡ accepted tt
    d : Fields
    is_object : v ≡ object d
    conforms : Conforms search compiles root (value_of root (object d))
    qualified : IsQualifiedBy d
    inert : AreInert (lookup (codes "extensions") d)

  extensions-AreInert :
      (d : Fields)
      → extensions_admissible (object d) ≡ true
      → AreInert (lookup (codes "extensions") d)
  unfolding extensions_admissible
  extensions-AreInert d h = extensions_value_ok-AreInert (lookup (codes "extensions") d) h

  both_rules :
      (b p q : Bool)
      → (if b then accepted (p && q) else accepted false) ≡ accepted true
      → (b ≡ true) × (p ≡ true) × (q ≡ true)
  both_rules true true q e = (refl, refl, accepted-injective e)
  both_rules true false q e = elim (no_path (accepted-injective e)) [ ]
  both_rules false p q e = elim (no_path (accepted-injective e)) [ ]

  -- If an envelope is admissible, then its schema passed the audit and is an object; the envelope is
  -- an object that conforms to this schema, by the meaning of each keyword: references, constants,
  -- enumerations, strings, patterns, required members, names, and the schema of every member; its
  -- record id is qualified by its publisher; and every one of its extensions is inert.
  pub envelope_admissible-IsAdmissible :
      (fuel : ℕ) (v schema : Value)
      → envelope_admissible compiles search fuel v schema ≡ accepted true
      → IsAdmissible fuel v schema
  unfolding envelope_admissible envelope_matches_schema
  envelope_admissible-IsAdmissible fuel v schema e =
      let (b, matched, rest) =
        >>=-eq-accepted (envelope_matches_schema compiles search fuel v schema) _ e in
      let (holds, p, q) =
        both_rules b (publisher_namespace_admissible v) (extensions_admissible v) rest in
      let (u, audited, f) =
        >>=-eq-accepted (audit compiles fuel none [] false schema (codes "$")) _ matched in
      let (root, is_root, g) = >>=-eq-accepted (object_of _ (as_dict schema)) _ f in
      let (d, is_object, qualified) = publisher_namespace_admissible-IsQualifiedBy v p in
      record {
        root = root;
        is_root = as_object schema (object_of-eq-accepted _ (as_dict schema) is_root);
        audited = audited;
        d = d;
        is_object = is_object;
        conforms =
            subst (λ x. Conforms search compiles root (value_of root x)) is_object
              (matches_schema-Conforms compiles search root fuel root v (g ∙ ap accepted holds));
        qualified = qualified;
        inert = extensions-AreInert d (ap extensions_admissible (sym is_object) ∙ q);
      }
