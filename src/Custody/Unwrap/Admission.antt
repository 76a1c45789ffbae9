-- ===== src/Custody/Unwrap/Admission.antt =====
-- What an admitted message says.
use sacrysty.Prelude.{
  Bool, true, false, ◌≡◌, refl, sym, ap, ◌∙◌, ◌⊎◌, inl, inr, Option, none, some, [], ◌∷◌, Str,
  Bytes, codes, str_eq, str_eq_sound, mem, arith, Bool-cases,
}
use sacrysty.Json.{Value, text, Fields, lookup, keys, set_eq, as_dict}
use sacrysty.StrictJson.{decode_strict_json, Decoded, ok, fail, int_digits_exceeded}
use sacrysty.Custody.{CustodyRequest, CustodyResult, CustodyError}
use sacrysty.Custody.Message.{
  Checked, good, refused, value_error, key_error, ◌>>=◌, ◌>>◌, unless, item, eq_text, is_text_in,
  plaintext_of, required, uv_modes, timing_classes, status_ok, matching, one_of, check_members,
  check_value, check_decoded, check_message, from_hex, decoded_plaintext,
}

>>=-eq-good {ℓ κ} :
    {A : Type ℓ} {B : Type κ} (m : Checked A) (f : A → Checked B) {b : B}
    → (m >>= f) ≡ good b
    → (a : A) × (m ≡ good a) × (f a ≡ good b)
>>=-eq-good (good a) f h = (a, refl, h)
>>=-eq-good (refused e) f h = cc
>>=-eq-good value_error f h = cc
>>=-eq-good key_error f h = cc

unless-eq-good {ℓ} :
    {B : Type ℓ} (b : Bool) (e : CustodyError) (k : Checked B) {r : B}
    → (unless b e >> k) ≡ good r
    → (b ≡ true) × (k ≡ good r)
unless-eq-good true e k h = (refl, h)
unless-eq-good false e k h = cc

eq_text_sound : (v : Value) (s : Str) → eq_text v s ≡ true → v ≡ text s
unfolding eq_text
eq_text_sound (text t) s h = ap text (str_eq_sound t s h)
eq_text_sound _ s h = cc

item-eq-good : (o : Option Value) {v : Value} → item o ≡ good v → o ≡ some v
item-eq-good none h = cc
item-eq-good (some v) h = ground arith

good-injective {ℓ} : {A : Type ℓ} {x y : A} → good x ≡ good y → x ≡ y
good-injective h = cc

matching-eq-good :
    (key expected : Str) (e : CustodyError) (d : Fields) {v : Value}
    → matching key expected e d ≡ good v
    → (lookup key d ≡ some v) × (v ≡ text expected)
matching-eq-good key expected e d h =
    let (x, found, h₁) = >>=-eq-good (item (lookup key d)) _ h in
    let (same, h₂) = unless-eq-good (eq_text x expected) e (good x) h₁ in
    let x-eq = good-injective h₂ in
    (item-eq-good (lookup key d) found ∙ ap some x-eq, sym x-eq ∙ eq_text_sound x expected same)

is_text_in_sound :
    (v : Value) (s t : Str) → is_text_in v (s ∷ t ∷ []) ≡ true → (v ≡ text s) ⊎ (v ≡ text t)
unfolding mem
is_text_in_sound (text x) s t h = elim (Bool-cases (str_eq x s)) [
  | inl y ↦ inl (ap text (str_eq_sound x s y))
  | inr n ↦ inr (ap text (str_eq_sound x t (ground arith)))
]
is_text_in_sound _ s t h = cc

one_of-eq-good :
    (key s t : Str) (e : CustodyError) (d : Fields) {v : Value}
    → one_of key (s ∷ t ∷ []) e d ≡ good v
    → (lookup key d ≡ some v) × ((v ≡ text s) ⊎ (v ≡ text t))
one_of-eq-good key s t e d h =
    let (x, found, h₁) = >>=-eq-good (item (lookup key d)) _ h in
    let (same, h₂) = unless-eq-good (is_text_in x (s ∷ t ∷ [])) e (good x) h₁ in
    let x-eq = good-injective h₂ in
    (
      item-eq-good (lookup key d) found ∙ ap some x-eq,
      is_text_in_sound _ s t (ap (λ y. is_text_in y (s ∷ t ∷ [])) (sym x-eq) ∙ same),
    )

-- What an admitted message `d` and the result `r` have to do with each other and with the request.
pub record IsAdmitted (sha256 : Bytes → Str) (request : CustodyRequest) (d : Fields)
    (r : CustodyResult) : Type 0 where
  status : lookup (codes "status") d ≡ some (text (codes "ok"))
  exact_keys : set_eq (keys d) required ≡ true
  plaintext :
      (s : Str) × (lookup (codes "plaintext") d ≡ some (text s))
      × (from_hex none s ≡ some r.plaintext)
  digest : lookup (codes "plaintext_sha256") d ≡ some (text (sha256 r.plaintext))
  digest_reported : r.evidence.plaintext_sha256 ≡ sha256 r.plaintext
  profile : lookup (codes "profile_revision") d ≡ some (text request.profile_revision)
  plugin : lookup (codes "plugin_digest") d ≡ some (text request.plugin_digest)
  age : lookup (codes "age_digest") d ≡ some (text request.age_digest)
  profile_reported : r.evidence.profile_revision ≡ text request.profile_revision
  plugin_reported : r.evidence.plugin_digest ≡ text request.plugin_digest
  age_reported : r.evidence.age_digest ≡ text request.age_digest
  uv_mode : lookup (codes "uv_mode") d ≡ some r.evidence.uv_mode
  uv_mode_known :
      (r.evidence.uv_mode ≡ text (codes "built-in")) ⊎ (r.evidence.uv_mode ≡ text (codes "pin"))
  timing_class : lookup (codes "timing_class") d ≡ some r.evidence.timing_class
  timing_class_known :
      (r.evidence.timing_class ≡ text (codes "interactive"))
      ⊎ (r.evidence.timing_class ≡ text (codes "bounded"))

status_ok_sound : (o : Option Value) → status_ok o ≡ true → o ≡ some (text (codes "ok"))
status_ok_sound none h = cc
status_ok_sound (some v) h = ap some (eq_text_sound v _ h)

plaintext_of-eq-good :
    (v : Value) {p : Bytes}
    → plaintext_of v ≡ good p
    → (s : Str) × (v ≡ text s) × (from_hex none s ≡ some p)
unfolding plaintext_of
plaintext_of-eq-good (text s) h = (s, refl, decoded (from_hex none s) h)
  where
    decoded : (o : Option Bytes) {p : Bytes} → decoded_plaintext o ≡ good p → o ≡ some p
    decoded none h = cc
    decoded (some q) h = ap some (good-injective h)
plaintext_of-eq-good _ h = cc

module _ (sha256 : Bytes → Str) (request : CustodyRequest) where
  check_members-eq-good :
      (d : Fields) {r : CustodyResult}
      → check_members sha256 request d ≡ good r
      → IsAdmitted sha256 request d r
  unfolding check_members
  check_members-eq-good d {r = r} h₀ =
      let (is_ok, h₁) = unless-eq-good (status_ok (lookup (codes "status") d)) _ _ h₀ in
      let (exact, h₂) = unless-eq-good (set_eq (keys d) required) _ _ h₁ in
      let (encoded, e, h₃) = >>=-eq-good (item (lookup (codes "plaintext") d)) _ h₂ in
      let (p, decodes, h₄) = >>=-eq-good (plaintext_of encoded) _ h₃ in
      let (claimed, c, h₅) = >>=-eq-good (item (lookup (codes "plaintext_sha256") d)) _ h₄ in
      let (same, h₆) = unless-eq-good (eq_text claimed (sha256 p)) _ _ h₅ in
      let (profile, f, h₇) =
        >>=-eq-good (matching (codes "profile_revision") request.profile_revision _ d) _ h₆ in
      let (plugin, g, h₈) =
        >>=-eq-good (matching (codes "plugin_digest") request.plugin_digest _ d) _ h₇ in
      let (age, a, h₉) = >>=-eq-good (matching (codes "age_digest") request.age_digest _ d) _ h₈ in
      let (uv, u, k) = >>=-eq-good (one_of (codes "uv_mode") uv_modes _ d) _ h₉ in
      let (timing, t, last) = >>=-eq-good (one_of (codes "timing_class") timing_classes _ d) _ k in
      let (fp, fe) = matching-eq-good _ _ _ d f in
      let (gp, ge) = matching-eq-good _ _ _ d g in
      let (ap', ae) = matching-eq-good _ _ _ d a in
      let (uk, uq) = one_of-eq-good _ _ _ _ d u in
      let (tk, tq) = one_of-eq-good _ _ _ _ d t in
      let (s, is_text, hex) = plaintext_of-eq-good encoded decodes in
      rw (sym (good-injective last)) (record {
        status = status_ok_sound _ is_ok;
        exact_keys = exact;
        plaintext = (s, item-eq-good _ e ∙ ap some is_text, hex);
        digest = item-eq-good _ c ∙ ap some (eq_text_sound claimed _ same);
        digest_reported = refl;
        profile = fp ∙ ap some fe;
        plugin = gp ∙ ap some ge;
        age = ap' ∙ ap some ae;
        profile_reported = fe;
        plugin_reported = ge;
        age_reported = ae;
        uv_mode = uk;
        uv_mode_known = uq;
        timing_class = tk;
        timing_class_known = tq;
      })

  -- If the worker's output is admitted as a result, it is the strict JSON text of an object that has
  -- exactly the required members, whose status is "ok"; the plaintext is the hex decoding of its
  -- member and the member plaintext_sha256 is its digest; the three expected members equal the
  -- request's and are reported as evidence; the UV mode and the timing class are known ones.
  pub check_message-IsAdmitted :
      (out : Bytes) {r : CustodyResult}
      → check_message sha256 request out ≡ good r
      → (v : Value) × (d : Fields) × (decode_strict_json out ≡ ok v)
        × (as_dict v ≡ some d)
        × IsAdmitted sha256 request d r
  unfolding check_message
  check_message-IsAdmitted out h = from_decoded (decode_strict_json out) h
    where
      from_value :
          (o : Option Fields) {r : CustodyResult}
          → check_value sha256 request o ≡ good r
          → (d : Fields) × (o ≡ some d) × IsAdmitted sha256 request d r
      from_value none h = cc
      from_value (some d) h = (d, refl, check_members-eq-good d h)

      from_decoded :
          (x : Decoded Value) {r : CustodyResult}
          → check_decoded sha256 request x ≡ good r
          → (v : Value) × (d : Fields) × (x ≡ ok v)
            × (as_dict v ≡ some d)
            × IsAdmitted sha256 request d r
      from_decoded (ok v) h = let (d, e, i) = from_value (as_dict v) h in (v, d, refl, e, i)
      from_decoded (fail int_digits_exceeded) h = cc
      from_decoded (fail _) h = cc
