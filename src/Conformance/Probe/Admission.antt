-- ===== src/Conformance/Probe/Admission.antt =====
-- What an admitted probe result contains.
use mathlib.Core.Path.{subst}
use sacrysty.Prelude.{
  Bool, true, false, ◌≡◌, ◌≢◌, refl, sym, ap, ◌∙◌, ◌⊎◌, inl, inr, Option, none, some, List, [], ◌∷◌,
  Str, Bytes, codes, str_eq, str_eq_sound, mem, All, Bool-cases, arith, if◌then◌else◌,
}
use sacrysty.Json.{
  Value, text, boolean, array, object, Fields, end, field, lookup, keys, set_eq, as_dict, is_true,
  is_false,
}
use sacrysty.Json.Equality.{py_eq}
use sacrysty.StrictJson.{decode_strict_json, ok}
use sacrysty.Conformance.{
  Verdict, accepted, rejected, ◌>>=◌, ◌>>◌, require, at, is_text, object_of, >>=-eq-accepted,
  require-eq-accepted, accepted-injective, found-eq-accepted, object_of-eq-accepted, is_text_sound,
  load-eq-accepted,
}
use sacrysty.Conformance.Probe.{
  require_exact_members, is_hex, is_positive_int, is_nonempty_text, fixture_members,
  validate_fixture, validate_common, validate_fixtures, fixture_at, checked_at, require_true,
  in_set, crypto_members, crypto_fixtures, crypto_profiles, pqc_outcomes, crypto_true, bind_fixture,
  check_bindings, check_observations, check_crypto_checks, validate_crypto, admitted, exit_of,
  validate, check_file, load_result, main,
}

-- `d[key]` that passes a test.
abbrev pub Has : Str → Fields → (Value → Bool) → Type 0
Has key d p = (v : Value) × (lookup key d ≡ some v) × (p v ≡ true)

tested {ℓ} :
    {There : Type ℓ} (key : Str) (d : Fields) (p : Value → Bool) (message : Str)
    (rest : Verdict There) {there : There}
    → (at key d >>= λ v. require (p v) message >> rest) ≡ accepted there
    → Has key d p × (rest ≡ accepted there)
tested key d p message rest e =
    let (v, at_key, e₁) = >>=-eq-accepted (at key d) _ e in
    let (holds, e₂) = require-eq-accepted (p v) message rest e₁ in
    ((v, found-eq-accepted (lookup key d) at_key, holds), e₂)

passes : (b : Bool) (message : Str) → require b message ≡ accepted tt → b ≡ true
passes true message e = refl
passes false message e = cc

last_tested :
    (key : Str) (d : Fields) (p : Value → Bool) (message : Str)
    → (at key d >>= λ v. require (p v) message) ≡ accepted tt
    → Has key d p
last_tested key d p message e =
    let (v, at_key, e₁) = >>=-eq-accepted (at key d) _ e in
    (v, found-eq-accepted (lookup key d) at_key, passes (p v) message e₁)

Has-text :
    (key : Str) (d : Fields) (s : Str) → Has key d (λ v. is_text v s) → lookup key d ≡ some (text s)
Has-text key d s (v, e, h) = e ∙ ap some (is_text_sound v s h)

as_dict_sound : (v : Value) {d : Fields} → as_dict v ≡ some d → v ≡ object d
as_dict_sound (object c) e = cc
as_dict_sound _ e = cc

exact_members_sound :
    (v : Value) (expected : List Str) (label : Str) {d : Fields}
    → require_exact_members v expected label ≡ accepted d
    → (v ≡ object d) × (set_eq (keys d) expected ≡ true)
unfolding require_exact_members
exact_members_sound v expected label e =
    let (m, is_object, e₁) = >>=-eq-accepted (object_of _ (as_dict v)) _ e in
    let (exact, e₂) = require-eq-accepted (set_eq (keys m) expected) _ (accepted m) e₁ in
    let same = accepted-injective e₂ in
    (
      as_dict_sound v (object_of-eq-accepted _ (as_dict v) is_object ∙ ap some same),
      ap (λ c. set_eq (keys c) expected) (sym same) ∙ exact,
    )

-- A fixture: exactly its three members, a positive byte length and lower-case digests.
pub record IsFixture (d : Fields) : Type 0 where
  exact : set_eq (keys d) fixture_members ≡ true
  byte_length : Has (codes "bytes") d is_positive_int
  sha256 : Has (codes "sha256") d (is_hex 64)
  sha512 : Has (codes "sha512") d (is_hex 128)

validate_fixture_sound :
    (v : Value) (label : Str) {d : Fields}
    → validate_fixture v label ≡ accepted d
    → (v ≡ object d) × IsFixture d
unfolding validate_fixture
validate_fixture_sound v label e =
    let (m, exact, e₁) = >>=-eq-accepted (require_exact_members v fixture_members _) _ e in
    let (same, members) = exact_members_sound v fixture_members _ exact in
    let (b, e₂) = tested (codes "bytes") m is_positive_int _ _ e₁ in
    let (s, e₃) = tested (codes "sha256") m (is_hex 64) _ _ e₂ in
    let (t, e₄) = tested (codes "sha512") m (is_hex 128) _ _ e₃ in
    rw (sym (accepted-injective e₄))
      (same, record { exact = members; byte_length = b; sha256 = s; sha512 = t })

-- Every member of the dict is a fixture.
abbrev pub AreFixtures : Fields → Type 0
AreFixtures end = Unit
AreFixtures (field name v rest) = ((f : Fields) × (v ≡ object f) × IsFixture f) × AreFixtures rest

validate_fixtures-AreFixtures :
    (d : Fields) {checked : List (Str × Fields)}
    → validate_fixtures d ≡ accepted checked
    → AreFixtures d
unfolding validate_fixtures
validate_fixtures-AreFixtures end e = tt
validate_fixtures-AreFixtures (field n v rest) e =
    let (f, is_fixture, e₁) = >>=-eq-accepted (validate_fixture v n) _ e in
    let (others, are_fixtures, e₂) = >>=-eq-accepted (validate_fixtures rest) _ e₁ in
    let (same, good) = validate_fixture_sound v n is_fixture in
    ((f, same, good), validate_fixtures-AreFixtures rest are_fixtures)

abbrev FixtureAt : Option Value → Option Fields → Type 0
FixtureAt v none = Unit
FixtureAt v (some f) = (v ≡ some (object f)) × IsFixture f

validate_fixtures_sound :
    (d : Fields) (name : Str) {checked : List (Str × Fields)}
    → validate_fixtures d ≡ accepted checked
    → FixtureAt (lookup name d) (fixture_at name checked)
unfolding validate_fixtures fixture_at lookup
validate_fixtures_sound end name e = rw (sym (accepted-injective e)) tt
validate_fixtures_sound (field n v rest) name e =
    let (f, is_fixture, e₁) = >>=-eq-accepted (validate_fixture v n) _ e in
    let (others, are_fixtures, e₂) = >>=-eq-accepted (validate_fixtures rest) _ e₁ in
    let (same, good) = validate_fixture_sound v n is_fixture in
    rw (sym (accepted-injective e₂))
      (at_head (str_eq name n) f _ same good (validate_fixtures_sound rest name are_fixtures))
  where
    at_head :
        (b : Bool) (f : Fields) (o : Option Fields)
        → v ≡ object f
        → IsFixture f
        → FixtureAt (lookup name rest) o
        → FixtureAt (if b then some v else lookup name rest) (if b then some f else o)
    at_head true f o same good others = (ap some same, good)
    at_head false f o same good others = others

abbrev AreTrue : List Str → Fields → Type 0
AreTrue names d = All (λ name. lookup name d ≡ some (boolean true)) names

is_true_sound : (v : Value) → is_true v ≡ true → v ≡ boolean true
is_true_sound (boolean b) h = ap boolean h
is_true_sound _ h = cc

is_false_sound : (v : Value) → is_false v ≡ true → v ≡ boolean false
is_false_sound (boolean true) h = cc
is_false_sound (boolean false) h = refl
is_false_sound _ h = cc

require_true_sound :
    (message : Str) (names : List Str) (d : Fields)
    → require_true message names d ≡ accepted tt
    → AreTrue names d
unfolding require_true
require_true_sound message [] d e = tt
require_true_sound message (name ∷ names) d e =
    let ((v, at_name, holds), rest) = tested name d is_true _ (require_true message names d) e in
    (at_name ∙ ap some (is_true_sound v holds), require_true_sound message names d rest)

-- Members bound to the fixture's.
abbrev pub AreEqual : Str → Str → Fields → Fields → Type 0
AreEqual key member d e =
    (v : Value) × (w : Value) × (lookup key d ≡ some v)
    × (lookup member e ≡ some w)
    × (py_eq v w ≡ true)

bind_fixture_sound :
    (key member diagnostic : Str) (d m : Fields)
    → bind_fixture key member diagnostic d m ≡ accepted tt
    → AreEqual key member d m
unfolding bind_fixture
bind_fixture_sound key member diagnostic d m e =
    let (v, at_key, e₁) = >>=-eq-accepted (at key d) _ e in
    let (w, at_member, holds) = last_tested member m (λ w. py_eq v w) diagnostic e₁ in
    (v, w, found-eq-accepted (lookup key d) at_key, at_member, holds)

in_set_sound :
    (v : Value) (s t : Str) → in_set v (s ∷ t ∷ []) ≡ accepted true → (v ≡ text s) ⊎ (v ≡ text t)
unfolding mem
in_set_sound (text x) s t e = elim (Bool-cases (str_eq x s)) [
  | inl y ↦ inl (ap text (str_eq_sound x s y))
  | inr n ↦ inr (ap text (str_eq_sound x t (among (accepted-injective e) n)))
]
  where
    among : mem x (s ∷ t ∷ []) ≡ true → str_eq x s ≡ false → str_eq x t ≡ true
    among h n = ground arith
in_set_sound (array xs) s t e = cc
in_set_sound (object d) s t e = cc
in_set_sound _ s t e = elim (no_path (accepted-injective e)) [ ]
  where
    no_path : false ≢ true
    no_path h = cc

-- What an admitted crypto-conformance result contains.
pub record IsQualified (result : Fields) (revision : Str) : Type 0 where
  exact : set_eq (keys result) crypto_members ≡ true
  schema :
      lookup (codes "schema") result
      ≡ some (text (codes "io.nisavid.sacrysty.crypto-conformance-result/v1"))
  source_revision : lookup (codes "source_revision") result ≡ some (text revision)
  reference_time : lookup (codes "reference_time") result ≡ some (text (codes "20260910"))
  sq_version : Has (codes "sq_version") result is_nonempty_text
  sqv_version : Has (codes "sqv_version") result is_nonempty_text
  fixtures :
      (f : Fields) × (lookup (codes "fixtures") result ≡ some (object f))
      × (set_eq (keys f) crypto_fixtures ≡ true)
  all_checked : AreFixtures fixtures.0
  message : Fields
  message_found : lookup (codes "message") fixtures.0 ≡ some (object message)
  message_checked : IsFixture message
  bytes_bound : AreEqual (codes "fixture_bytes") (codes "bytes") result message
  sha256_bound : AreEqual (codes "fixture_sha256") (codes "sha256") result message
  sha512_bound : AreEqual (codes "fixture_sha512") (codes "sha512") result message
  observations :
      (o : Fields) × (lookup (codes "result") result ≡ some (object o))
      × (set_eq (keys o) crypto_profiles ≡ true)
  classical :
      lookup (codes "openpgp-rfc9580-classical-v1") observations.0
      ≡ some (text (codes "qualified-for-observed-runtime"))
  pqc :
      (v : Value) × (lookup (codes "openpgp-rfc9980-pqc-v1") observations.0 ≡ some v)
      × ((v ≡ text (codes "unsupported")) ⊎ (v ≡ text (codes "qualified-for-observed-runtime")))
  checks :
      (c : Fields) × (lookup (codes "checks") result ≡ some (object c))
      × (set_eq (keys c) (codes "production_values" ∷ crypto_true) ≡ true)
  all_true : AreTrue crypto_true checks.0
  no_production : lookup (codes "production_values") checks.0 ≡ some (boolean false)

member_sound :
    (key : Str) (d : Fields) (expected : List Str) (label : Str) {v : Value} {f : Fields}
    → at key d ≡ accepted v
    → require_exact_members v expected label ≡ accepted f
    → (lookup key d ≡ some (object f)) × (set_eq (keys f) expected ≡ true)
member_sound key d expected label {v = v} at_key exact =
    let (same, members) = exact_members_sound v expected label exact in
    (found-eq-accepted (lookup key d) at_key ∙ ap some same, members)

checked_at_sound : (o : Option Fields) {f : Fields} → checked_at o ≡ accepted f → o ≡ some f
checked_at_sound none e = cc
checked_at_sound (some g) e = ap some (accepted-injective e)

validate_common_sound :
    (d : Fields) (revision : Str)
    → validate_common d revision ≡ accepted tt
    → (lookup (codes "source_revision") d ≡ some (text revision))
      × (lookup (codes "reference_time") d ≡ some (text (codes "20260910")))
      × Has (codes "sq_version") d is_nonempty_text
      × Has (codes "sqv_version") d is_nonempty_text
unfolding validate_common
validate_common_sound d revision e =
    let (source, e₁) = tested (codes "source_revision") d (λ v. is_text v revision) _ _ e in
    let (time, e₂) = tested (codes "reference_time") d (λ v. is_text v (codes "20260910")) _ _ e₁ in
    let (sq, e₃) = tested (codes "sq_version") d is_nonempty_text _ _ e₂ in
    let (sqv, e₄) = tested (codes "sqv_version") d is_nonempty_text _ _ e₃ in
    (Has-text _ d revision source, Has-text _ d _ time, sq, sqv)

check_observations_sound :
    (v : Value)
    → check_observations v ≡ accepted tt
    → (o : Fields) × (v ≡ object o)
      × (set_eq (keys o) crypto_profiles ≡ true)
      × (lookup (codes "openpgp-rfc9580-classical-v1") o
          ≡ some (text (codes "qualified-for-observed-runtime")))
      × ((p : Value) × (lookup (codes "openpgp-rfc9980-pqc-v1") o ≡ some p)
          × ((p ≡ text (codes "unsupported"))
              ⊎ (p ≡ text (codes "qualified-for-observed-runtime"))))
unfolding check_observations
check_observations_sound v e =
    let (o, exact, e₁) = >>=-eq-accepted (require_exact_members v crypto_profiles _) _ e in
    let (same, members) = exact_members_sound v crypto_profiles _ exact in
    let (classical, e₂) =
      tested (codes "openpgp-rfc9580-classical-v1") o
        (λ w. is_text w (codes "qualified-for-observed-runtime")) _ _ e₁ in
    let (p, at_p, e₃) = >>=-eq-accepted (at (codes "openpgp-rfc9980-pqc-v1") o) _ e₂ in
    let (known, member, e₄) = >>=-eq-accepted (in_set p pqc_outcomes) _ e₃ in
    (
      o,
      same,
      members,
      Has-text _ o _ classical,
      (
        p,
        found-eq-accepted (lookup _ o) at_p,
        in_set_sound p _ _ (member ∙ ap accepted (passes known _ e₄)),
      ),
    )

check_crypto_checks_sound :
    (v : Value)
    → check_crypto_checks v ≡ accepted tt
    → (c : Fields) × (v ≡ object c)
      × (set_eq (keys c) (codes "production_values" ∷ crypto_true) ≡ true)
      × AreTrue crypto_true c
      × (lookup (codes "production_values") c ≡ some (boolean false))
unfolding check_crypto_checks
check_crypto_checks_sound v e =
    let (c, exact, e₁) = >>=-eq-accepted (require_exact_members v _ _) _ e in
    let (same, members) = exact_members_sound v _ _ exact in
    let (u, are_true, e₂) = >>=-eq-accepted (require_true _ crypto_true c) _ e₁ in
    let (p, at_p, holds) = last_tested (codes "production_values") c is_false _ e₂ in
    (
      c,
      same,
      members,
      require_true_sound _ crypto_true c are_true,
      at_p ∙ ap some (is_false_sound p holds),
    )

check_bindings_sound :
    (d m : Fields)
    → check_bindings d m ≡ accepted tt
    → AreEqual (codes "fixture_bytes") (codes "bytes") d m
      × AreEqual (codes "fixture_sha256") (codes "sha256") d m
      × AreEqual (codes "fixture_sha512") (codes "sha512") d m
unfolding check_bindings
check_bindings_sound d m e =
    let (u, b, e₁) =
      >>=-eq-accepted (bind_fixture (codes "fixture_bytes") (codes "bytes") _ d m) _ e in
    let (v, s, t) =
      >>=-eq-accepted (bind_fixture (codes "fixture_sha256") (codes "sha256") _ d m) _ e₁ in
    (bind_fixture_sound _ _ _ d m b, bind_fixture_sound _ _ _ d m s, bind_fixture_sound _ _ _ d m t)

validate_crypto-IsQualified :
    (result : Fields) (revision : Str)
    → validate_crypto result revision ≡ accepted tt
    → IsQualified result revision
unfolding validate_crypto
validate_crypto-IsQualified result revision e₀ =
    let (exact, e₁) = require-eq-accepted (set_eq (keys result) crypto_members) _ _ e₀ in
    let (schema, e₂) =
      tested (codes "schema") result
        (λ v. is_text v (codes "io.nisavid.sacrysty.crypto-conformance-result/v1")) _ _ e₁ in
    let (u, common, e₃) = >>=-eq-accepted (validate_common result revision) _ e₂ in
    let (source, time, sq, sqv) = validate_common_sound result revision common in
    let (raw, at_raw, e₄) = >>=-eq-accepted (at (codes "fixtures") result) _ e₃ in
    let (fixtures, are_members, e₅) =
      >>=-eq-accepted (require_exact_members raw crypto_fixtures _) _ e₄ in
    let (checked, are_fixtures, e₆) = >>=-eq-accepted (validate_fixtures fixtures) _ e₅ in
    let (message, at_message, e₇) =
      >>=-eq-accepted (checked_at (fixture_at (codes "message") checked)) _ e₆ in
    let (w, bound, e₈) = >>=-eq-accepted (check_bindings result message) _ e₇ in
    let (bytes, sha256, sha512) = check_bindings_sound result message bound in
    let (observed, at_observed, e₉) = >>=-eq-accepted (at (codes "result") result) _ e₈ in
    let (x, seen, last) = >>=-eq-accepted (check_observations observed) _ e₉ in
    let (o, is_o, o_members, classical, pqc) = check_observations_sound observed seen in
    let (checks, at_checks, checked_all) = >>=-eq-accepted (at (codes "checks") result) _ last in
    let (c, is_c, c_members, all_true, no_production) =
      check_crypto_checks_sound checks checked_all in
    let (is_fixtures, fixture_keys) =
      member_sound (codes "fixtures") result crypto_fixtures _ at_raw are_members in
    let (found_message, good) =
      fixture_found (lookup (codes "message") fixtures) (checked_at_sound _ at_message)
        (validate_fixtures_sound fixtures (codes "message") are_fixtures) in
    record {
      exact = exact;
      schema = Has-text _ result _ schema;
      source_revision = source;
      reference_time = time;
      sq_version = sq;
      sqv_version = sqv;
      fixtures = (fixtures, is_fixtures, fixture_keys);
      all_checked = validate_fixtures-AreFixtures fixtures are_fixtures;
      message = message;
      message_found = found_message;
      message_checked = good;
      bytes_bound = bytes;
      sha256_bound = sha256;
      sha512_bound = sha512;
      observations = (o, found-eq-accepted _ at_observed ∙ ap some is_o, o_members);
      classical = classical;
      pqc = pqc;
      checks = (c, found-eq-accepted _ at_checks ∙ ap some is_c, c_members);
      all_true = all_true;
      no_production = no_production;
    }
  where
    fixture_found :
        (v : Option Value) {o : Option Fields} {m : Fields}
        → o ≡ some m
        → FixtureAt v o
        → FixtureAt v (some m)
    fixture_found v e h = subst (FixtureAt v) e h

exit_of-eq-admitted :
    (kind : Str) (r : Verdict (Unit {0})) {k : Str} → exit_of kind r ≡ admitted k → r ≡ accepted tt
exit_of-eq-admitted kind (accepted _) e = refl
exit_of-eq-admitted kind (rejected message) e = cc
exit_of-eq-admitted kind Verdict.unfinished e = cc
exit_of-eq-admitted kind _ e = cc

-- When the program admits a crypto-conformance result, the file is readable and decodes to an object
-- that has exactly the expected members, the expected schema, revision and reference time, and tool
-- versions; exactly the expected fixtures, every one with exactly its three members, a positive
-- length and digests in lower-case hexadecimals, and "message" bound to the three fixture members; a
-- qualified classical observation and a known PQC observation, and no other; and exactly the
-- expected checks, every mandatory one true, with no production values.
pub main-IsQualified :
    (path revision : Str) (file : Option Bytes) {kind : Str}
    → main (codes "crypto-conformance" ∷ path ∷ revision ∷ []) file ≡ admitted kind
    → (bytes : Bytes) × (v : Value) × (d : Fields) × (file ≡ some bytes)
      × (decode_strict_json bytes ≡ ok v)
      × (as_dict v ≡ some d)
      × IsQualified d revision
unfolding main check_file load_result validate mem str_eq
main-IsQualified path revision file e =
    let r =
      exit_of-eq-admitted (codes "crypto-conformance")
        (check_file (codes "crypto-conformance") revision file) e in
    let (d, loaded, valid) = >>=-eq-accepted (load_result file) _ r in
    let (bytes, v, is_file, decodes, is_object) = load-eq-accepted _ _ file loaded in
    (bytes, v, d, is_file, decodes, is_object, validate_crypto-IsQualified d revision valid)
