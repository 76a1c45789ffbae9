-- ===== src/Conformance/Probe.antt =====
-- conformance/check-probe-result.py: the admission of the two crypto probes' results.
pub mod Admission
mod Tests
use sacrysty.Prelude.{
  ℕ, Bool, true, false, ◌&&◌, ◌||◌, not, Option, none, some, List, [], ◌∷◌, ◌++◌, ℤ, pos, negsuc,
  ltb_ℤ, Str, Bytes, codes, length, is_empty, all, leb, ◌==◌, str_eq, mem, if◌then◌else◌,
}
use sacrysty.Json.{
  Value, text, integer, Fields, end, field, lookup, keys, set_eq, as_dict, is_true, is_false,
  is_hashable,
}
use sacrysty.Json.Equality.{py_eq}
use sacrysty.Conformance.{
  Verdict, accepted, rejected, type_error, ◌>>=◌, ◌>>◌, require, found, at, is_text, object_of,
  load,
}

unfoldable pub load_result : Option Bytes → Verdict Fields
load_result file = load (codes "result") (codes "probe result") file

unfoldable pub require_exact_members : Value → List Str → Str → Verdict Fields
require_exact_members value expected label = do
  mapping ← object_of (label ++ codes " is not an object") (as_dict value)
  require (set_eq (keys mapping) expected) (label ++ codes " members are incomplete or unknown")
  accepted mapping

abbrev is_hex_digit : ℕ → Bool
is_hex_digit c = (leb b'0' c && leb c b'9') || (leb b'a' c && leb c b'f')

-- `fullmatch` of SHA256 (64 digits) or SHA512 (128 digits).
unfoldable pub is_hex : ℕ → Value → Bool
is_hex digits (text s) = (length s == digits) && all is_hex_digit s
is_hex digits _ = false

abbrev pub is_positive_int : Value → Bool
is_positive_int (integer n) = ltb_ℤ (pos 0) n
is_positive_int _ = false

abbrev pub is_nonempty_text : Value → Bool
is_nonempty_text (text s) = not (is_empty s)
is_nonempty_text _ = false

abbrev pub is_any_text : Value → Bool
is_any_text (text s) = true
is_any_text _ = false

abbrev pub is_rejection_status : Value → Bool
is_rejection_status (integer n) = ltb_ℤ (pos 0) n && ltb_ℤ n (pos 124)
is_rejection_status _ = false

abbrev pub fixture_members : List Str
fixture_members = codes "bytes" ∷ codes "sha256" ∷ codes "sha512" ∷ []

unfoldable pub validate_fixture : Value → Str → Verdict Fields
validate_fixture value label = do
  fixture ← require_exact_members value fixture_members (label ++ codes " fixture")
  byte_length ← at (codes "bytes") fixture
  require (is_positive_int byte_length) (label ++ codes " fixture byte length is invalid")
  sha256 ← at (codes "sha256") fixture
  require (is_hex 64 sha256) (label ++ codes " fixture SHA-256 is invalid")
  sha512 ← at (codes "sha512") fixture
  require (is_hex 128 sha512) (label ++ codes " fixture SHA-512 is invalid")
  accepted fixture

unfoldable pub validate_common : Fields → Str → Verdict (Unit {0})
validate_common result revision = do
  source ← at (codes "source_revision") result
  require (is_text source revision) (codes "probe source revision mismatch")
  time ← at (codes "reference_time") result
  require (is_text time (codes "20260910")) (codes "probe reference time mismatch")
  sq ← at (codes "sq_version") result
  require (is_nonempty_text sq) (codes "sq_version is missing")
  sqv ← at (codes "sqv_version") result
  require (is_nonempty_text sqv) (codes "sqv_version is missing")
  accepted tt

-- The dict of the checked fixtures.
unfoldable pub validate_fixtures : Fields → Verdict (List (Str × Fields))
unfolding validate_fixture
validate_fixtures end = accepted []
validate_fixtures (field name value rest) = do
  fixture ← validate_fixture value name
  checked ← validate_fixtures rest
  accepted ((name, fixture) ∷ checked)

unfoldable pub fixture_at : Str → List (Str × Fields) → Option Fields
fixture_at name [] = none
fixture_at name ((n, fixture) ∷ checked) =
    if str_eq name n then some fixture else fixture_at name checked

abbrev pub checked_at : Option Fields → Verdict Fields
checked_at none = Verdict.key_error
checked_at (some fixture) = accepted fixture

-- The loop over the checks that must be true, in a set's order, here the order they are written in.
unfoldable pub require_true : Str → List Str → Fields → Verdict (Unit {0})
require_true message [] checks = accepted tt
require_true message (name ∷ names) checks = do
  check ← at name checks
  require (is_true check) (message ++ name)
  require_true message names checks

-- `v in {…}`, which needs a hashable value.
abbrev pub in_set : Value → List Str → Verdict Bool
in_set (text s) allowed = accepted (mem s allowed)
in_set v allowed = if is_hashable v then accepted false else type_error

abbrev pub crypto_members : List Str
crypto_members =
    codes "checks"
    ∷ codes "fixture_bytes"
    ∷ codes "fixture_sha256"
    ∷ codes "fixture_sha512"
    ∷ codes "fixtures"
    ∷ codes "reference_time"
    ∷ codes "result"
    ∷ codes "schema"
    ∷ codes "source_revision"
    ∷ codes "sq_version"
    ∷ codes "sqv_version"
    ∷ []

abbrev pub crypto_fixtures : List Str
crypto_fixtures =
    codes "message" ∷ codes "signature" ∷ codes "tampered_message" ∷ codes "tampered_signature" ∷ []

abbrev pub crypto_profiles : List Str
crypto_profiles = codes "openpgp-rfc9580-classical-v1" ∷ codes "openpgp-rfc9980-pqc-v1" ∷ []

abbrev pub pqc_outcomes : List Str
pqc_outcomes = codes "unsupported" ∷ codes "qualified-for-observed-runtime" ∷ []

abbrev pub crypto_true : List Str
crypto_true =
    codes "sq_sign_verify"
    ∷ codes "sqv_detached_verify"
    ∷ codes "tampered_message_rejected"
    ∷ codes "tampered_signature_rejected"
    ∷ codes "wrong_certificate_rejected"
    ∷ codes "temporary_key_material_removed"
    ∷ []

-- `result[key] == message[member]`
unfoldable pub bind_fixture : Str → Str → Str → Fields → Fields → Verdict (Unit {0})
bind_fixture key member diagnostic result message = do
  bound ← at key result
  measured ← at member message
  require (py_eq bound measured) diagnostic

-- The three fixture members of the result against the fixture "message".
unfoldable pub check_bindings : Fields → Fields → Verdict (Unit {0})
unfolding bind_fixture
check_bindings result message = do
  bind_fixture (codes "fixture_bytes") (codes "bytes") (codes "fixture byte binding mismatch")
      result message
  bind_fixture (codes "fixture_sha256") (codes "sha256") (codes "fixture SHA-256 binding mismatch")
      result message
  bind_fixture (codes "fixture_sha512") (codes "sha512") (codes "fixture SHA-512 binding mismatch")
      result message

unfoldable pub check_observations : Value → Verdict (Unit {0})
check_observations value = do
  observations ←
      require_exact_members value crypto_profiles (codes "crypto-conformance observations")
  classical ← at (codes "openpgp-rfc9580-classical-v1") observations
  require (is_text classical (codes "qualified-for-observed-runtime"))
      (codes "classical profile did not complete its required round trip")
  pqc ← at (codes "openpgp-rfc9980-pqc-v1") observations
  known ← in_set pqc pqc_outcomes
  require known (codes "PQC observation is failed, indeterminate, or unknown")

unfoldable pub check_crypto_checks : Value → Verdict (Unit {0})
check_crypto_checks value = do
  checks ←
      require_exact_members value (codes "production_values" ∷ crypto_true) (codes "crypto checks")
  require_true (codes "mandatory crypto check is false: ") crypto_true checks
  production ← at (codes "production_values") checks
  require (is_false production) (codes "crypto result indicates production values")

unfoldable pub validate_crypto : Fields → Str → Verdict (Unit {0})
validate_crypto result revision = do
  require (set_eq (keys result) crypto_members)
      (codes "crypto-conformance result members are incomplete")
  schema ← at (codes "schema") result
  require (is_text schema (codes "io.nisavid.sacrysty.crypto-conformance-result/v1"))
      (codes "crypto-conformance result schema mismatch")
  validate_common result revision
  raw ← at (codes "fixtures") result
  fixtures ← require_exact_members raw crypto_fixtures (codes "crypto-conformance fixtures")
  checked ← validate_fixtures fixtures
  message ← checked_at (fixture_at (codes "message") checked)
  check_bindings result message
  observed ← at (codes "result") result
  check_observations observed
  checks ← at (codes "checks") result
  check_crypto_checks checks

abbrev pub signing_members : List Str
signing_members =
    codes "checks"
    ∷ codes "diagnostics"
    ∷ codes "fixtures"
    ∷ codes "production_values_policy"
    ∷ codes "profile"
    ∷ codes "reference_time"
    ∷ codes "rfc9980"
    ∷ codes "schema"
    ∷ codes "source_revision"
    ∷ codes "sq_version"
    ∷ codes "sqv_version"
    ∷ []

abbrev pub signing_true : List Str
signing_true =
    codes "detached_sign_verify"
    ∷ codes "tampered_message_rejected"
    ∷ codes "tampered_signature_rejected"
    ∷ codes "wrong_certificate_rejected"
    ∷ codes "temporary_key_material_removed"
    ∷ []

abbrev pub diagnostic_names : List Str
diagnostic_names =
    codes "tampered_message" ∷ codes "tampered_signature" ∷ codes "wrong_certificate" ∷ []

abbrev pub diagnostic_members : List Str
diagnostic_members = codes "command" ∷ codes "exit_status" ∷ codes "stderr" ∷ []

unfoldable pub check_diagnostic : Str → Value → Verdict (Unit {0})
check_diagnostic name value = do
  diagnostic ← require_exact_members value diagnostic_members (name ++ codes " diagnostic")
  command ← at (codes "command") diagnostic
  require (is_nonempty_text command) (name ++ codes " diagnostic command is missing")
  exit_status ← at (codes "exit_status") diagnostic
  require (is_rejection_status exit_status) (name ++ codes " diagnostic is not a rejection")
  stderr ← at (codes "stderr") diagnostic
  require (is_any_text stderr) (name ++ codes " diagnostic stderr is not a string")

unfoldable pub check_diagnostics : Fields → Verdict (Unit {0})
check_diagnostics end = accepted tt
check_diagnostics (field name value rest) = do check_diagnostic name value; check_diagnostics rest

abbrev pub required_text : Str → Str → Str → Fields → Verdict (Unit {0})
required_text key expected message result = do
  v ← at key result
  require (is_text v expected) message

unfoldable pub validate_signing : Fields → Str → Verdict (Unit {0})
validate_signing result revision = do
  require (set_eq (keys result) signing_members)
      (codes "signing-profile result members are incomplete")
  required_text (codes "schema") (codes "io.nisavid.sacrysty.signing-profile-result/v1")
      (codes "signing-profile result schema mismatch") result
  validate_common result revision
  required_text (codes "profile") (codes "openpgp-rfc9580-classical-v1")
      (codes "signing profile mismatch") result
  required_text (codes "production_values_policy") (codes "forbidden")
      (codes "signing result production-values policy mismatch") result
  required_text (codes "rfc9980") (codes "unsupported-capability-gated")
      (codes "signing result RFC 9980 boundary mismatch") result
  raw ← at (codes "fixtures") result
  fixtures ←
      require_exact_members raw (codes "message" ∷ codes "signature" ∷ [])
        (codes "signing fixtures")
  _ ← validate_fixtures fixtures
  raw_checks ← at (codes "checks") result
  checks ← require_exact_members raw_checks signing_true (codes "signing checks")
  require_true (codes "mandatory signing check is false: ") signing_true checks
  raw_diagnostics ← at (codes "diagnostics") result
  diagnostics ← require_exact_members raw_diagnostics diagnostic_names (codes "signing diagnostics")
  check_diagnostics diagnostics

pub data Exit : Type 0 where
  usage : Exit
  admitted : Str → Exit
  diagnosed : Str → Exit
  uncaught out_of_fuel : Exit

abbrev pub exit_of : Str → Verdict (Unit {0}) → Exit
exit_of kind (accepted _) = admitted kind
exit_of kind (rejected message) = diagnosed message
exit_of kind Verdict.unfinished = out_of_fuel
exit_of kind _ = uncaught

unfoldable pub validate : Str → Str → Fields → Verdict (Unit {0})
validate kind revision result =
    if str_eq kind (codes "crypto-conformance")
    then validate_crypto result revision
    else validate_signing result revision

unfoldable pub check_file : Str → Str → Option Bytes → Verdict (Unit {0})
unfolding load_result validate
check_file kind revision file = load_result file >>= validate kind revision

abbrev pub kinds : List Str
kinds = codes "crypto-conformance" ∷ codes "signing-profile" ∷ []

-- The arguments after the program's name. The file is what reading the second one gives.
unfoldable pub main : List Str → Option Bytes → Exit
main (kind ∷ path ∷ revision ∷ []) file =
    if mem kind kinds then exit_of kind (check_file kind revision file) else usage
main _ file = usage
