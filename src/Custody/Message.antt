-- ===== src/Custody/Message.antt =====
-- The part of `unwrap` that admits the worker's message.
use sacrysty.Prelude.{
  ℕ, ◌+◌, ◌*◌, ◌-◌, Bool, true, false, ◌&&◌, ◌||◌, Option, none, some, List, [], ◌∷◌, Str, Bytes,
  codes, str_eq, leb, ◌==◌, mem, if◌then◌else◌,
}
use sacrysty.Json.{Value, text, Fields, lookup, keys, set_eq, as_dict}
use sacrysty.StrictJson.{decode_strict_json, Decoded, ok, fail, int_digits_exceeded}
use sacrysty.Custody.{
  CustodyRequest, CustodyResult, CustodyError, malformed_output, rejected_envelope,
  incomplete_output, malformed_plaintext, digest_mismatch, profile_mismatch, plugin_mismatch,
  age_mismatch, unknown_uv_mode, unknown_timing_class,
}

-- A result, a CustodyError, or an exception of Python that the code does not turn into one: the
-- ValueError of an integer with too many digits, or a KeyError.
pub data Checked {ℓ} (A : Type ℓ) : Type ℓ where
  good : A → Checked A
  refused : CustodyError → Checked A
  value_error key_error : Checked A

infixl 5 ◌>>=◌ ◌>>◌
abbrev pub ◌>>=◌ {ℓ κ} :
    {Here : Type ℓ} {There : Type κ} → Checked Here → (Here → Checked There) → Checked There
good a >>= f = f a
refused e >>= f = refused e
value_error >>= f = value_error
key_error >>= f = key_error

abbrev pub ◌>>◌ {ℓ} : {B : Type ℓ} → Checked (Unit {0}) → Checked B → Checked B
m >> k = m >>= λ _. k

abbrev pub unless : Bool → CustodyError → Checked (Unit {0})
unless true e = good tt
unless false e = refused e

-- `message[key]`
abbrev pub item : Option Value → Checked Value
item none = key_error
item (some v) = good v

-- `v == s` for a str on the right.
unfoldable pub eq_text : Value → Str → Bool
eq_text (text t) s = str_eq t s
eq_text _ s = false

abbrev pub is_text_in : Value → List Str → Bool
is_text_in (text t) allowed = mem t allowed
is_text_in _ allowed = false

abbrev hex_value : ℕ → Option ℕ
hex_value c =
    if leb b'0' c && leb c b'9'
    then some (c - b'0')
    else if leb b'a' c && leb c b'f'
    then some (c - b'a' + 10)
    else if leb b'A' c && leb c b'F'
    then some (c - b'A' + 10)
    else none

abbrev is_ascii_space : ℕ → Bool
is_ascii_space c = c == 32 || (leb 9 c && leb c 13)

pub data HexStep : Type 0 where
  wrong passed : HexStep
  half whole : ℕ → HexStep

abbrev pub hex_step : Option ℕ → ℕ → HexStep
hex_step none c =
    if is_ascii_space c then passed else elim (hex_value c) [ none ↦ wrong | some d ↦ half d ]
hex_step (some h) c = elim (hex_value c) [ none ↦ wrong | some d ↦ whole (h * 16 + d) ]

abbrev pub put_byte : ℕ → Option Bytes → Option Bytes
put_byte b none = none
put_byte b (some bs) = some (b ∷ bs)

-- bytes.fromhex: pairs of digits, with white space between the pairs.
unfoldable pub from_hex : Option ℕ → Str → Option Bytes
from_hex none [] = some []
from_hex (some h) [] = none
from_hex state (c ∷ s) = elim (hex_step state c) [
  | wrong ↦ none
  | passed ↦ from_hex none s
  | half h ↦ from_hex (some h) s
  | whole b ↦ put_byte b (from_hex none s)
]

abbrev pub decoded_plaintext : Option Bytes → Checked Bytes
decoded_plaintext none = refused malformed_plaintext
decoded_plaintext (some p) = good p

-- `bytes.fromhex(v)`, whose TypeError and ValueError are caught.
unfoldable pub plaintext_of : Value → Checked Bytes
plaintext_of (text s) = decoded_plaintext (from_hex none s)
plaintext_of _ = refused malformed_plaintext

abbrev pub required : List Str
required =
    codes "status"
    ∷ codes "plaintext"
    ∷ codes "plaintext_sha256"
    ∷ codes "profile_revision"
    ∷ codes "plugin_digest"
    ∷ codes "age_digest"
    ∷ codes "uv_mode"
    ∷ codes "timing_class"
    ∷ []

abbrev pub uv_modes : List Str
uv_modes = codes "built-in" ∷ codes "pin" ∷ []

abbrev pub timing_classes : List Str
timing_classes = codes "interactive" ∷ codes "bounded" ∷ []

abbrev pub status_ok : Option Value → Bool
status_ok none = false
status_ok (some v) = eq_text v (codes "ok")

-- `message[key]`, which must equal what the request expects.
abbrev pub matching : Str → Str → CustodyError → Fields → Checked Value
matching key expected e message = do
  v ← item (lookup key message)
  unless (eq_text v expected) e
  good v

abbrev pub one_of : Str → List Str → CustodyError → Fields → Checked Value
one_of key allowed e message = do
  v ← item (lookup key message)
  unless (is_text_in v allowed) e
  good v

module _ (sha256 : Bytes → Str) (request : CustodyRequest) where
  -- From the test of the status to the returned result.
  unfoldable pub check_members : Fields → Checked CustodyResult
  check_members message = do
    unless (status_ok (lookup (codes "status") message)) rejected_envelope
    unless (set_eq (keys message) required) incomplete_output
    encoded ← item (lookup (codes "plaintext") message)
    plaintext ← plaintext_of encoded
    claimed ← item (lookup (codes "plaintext_sha256") message)
    let digest = sha256 plaintext
    unless (eq_text claimed digest) digest_mismatch
    profile ← matching (codes "profile_revision") request.profile_revision profile_mismatch message
    plugin ← matching (codes "plugin_digest") request.plugin_digest plugin_mismatch message
    age ← matching (codes "age_digest") request.age_digest age_mismatch message
    uv ← one_of (codes "uv_mode") uv_modes unknown_uv_mode message
    timing ← one_of (codes "timing_class") timing_classes unknown_timing_class message
    good (record {
      plaintext = plaintext;
      evidence = record {
        result = codes "ok";
        uv_mode = uv;
        timing_class = timing;
        profile_revision = profile;
        plugin_digest = plugin;
        age_digest = age;
        plaintext_sha256 = digest;
      };
    })

  abbrev pub check_value : Option Fields → Checked CustodyResult
  check_value none = refused rejected_envelope
  check_value (some message) = check_members message

  abbrev pub check_decoded : Decoded Value → Checked CustodyResult
  check_decoded (ok v) = check_value (as_dict v)
  check_decoded (fail int_digits_exceeded) = value_error
  check_decoded (fail _) = refused malformed_output

  -- `decode_strict_json(stdout)` and what follows it.
  unfoldable pub check_message : Bytes → Checked CustodyResult
  check_message stdout = check_decoded (decode_strict_json stdout)
