-- ===== src/Conformance.antt =====
-- What the checks of conformance/ share: how a check ends, and the decoding of the file it reads.
pub mod Probe
pub mod Inventory
pub mod Envelope
use sacrysty.Prelude.{
  ℕ, Bool, true, false, ◌≡◌, refl, ap, Option, none, some, List, [], ◌∷◌, ◌++◌, Str, Bytes, codes,
  str_eq, str_eq_sound, mem, if◌then◌else◌,
}
use sacrysty.Json.{Value, text, Fields, lookup, keys, set_eq, as_dict}
use sacrysty.StrictJson.{
  decode_strict_json, Decoded, ok, fail, DecodeError, duplicate_member, non_finite_number,
  unrepresentable_number, invalid_utf8, invalid_json_syntax, int_digits_exceeded, out_of_fuel,
}

-- A value, the check's own error with its message, or an exception of Python that it does not turn
-- into one. `unfinished` is the end of the model's fuel.
pub data Verdict {ℓ} (A : Type ℓ) : Type ℓ where
  accepted : A → Verdict A
  rejected : Str → Verdict A
  type_error value_error key_error unfinished : Verdict A

infixl 5 ◌>>=◌
abbrev pub ◌>>=◌ {ℓ κ} :
    {Here : Type ℓ} {There : Type κ} → Verdict Here → (Here → Verdict There) → Verdict There
accepted here >>= go = go here
rejected message >>= go = rejected message
type_error >>= go = type_error
value_error >>= go = value_error
key_error >>= go = key_error
unfinished >>= go = unfinished

infixl 5 ◌>>◌
abbrev pub ◌>>◌ {ℓ} : {There : Type ℓ} → Verdict (Unit {0}) → Verdict There → Verdict There
check >> after = check >>= λ _. after

abbrev pub require : Bool → Str → Verdict (Unit {0})
require true message = accepted tt
require false message = rejected message

-- `d[key]`
abbrev pub found : Option Value → Verdict Value
found none = key_error
found (some v) = accepted v

abbrev pub at : Str → Fields → Verdict Value
at key d = found (lookup key d)

-- `v == s` for a str on the right.
abbrev pub is_text : Value → Str → Bool
is_text (text t) s = str_eq t s
is_text _ s = false

abbrev constants : List Str
constants = codes "NaN" ∷ codes "Infinity" ∷ codes "-Infinity" ∷ []

abbrev pub label_of : Str → Str → Str
label_of noun value =
    if mem value constants
    then codes "non-JSON " ++ noun ++ codes " constant: " ++ value
    else codes "non-finite " ++ noun ++ codes " number: " ++ value

-- The except clauses round the decoder. The ValueError of an integer with too many digits is none
-- of the classes they name.
abbrev pub load_error : Str → Str → DecodeError → Verdict Value
load_error noun subject (duplicate_member member) =
    rejected (codes "duplicate " ++ noun ++ codes " member: " ++ member)
load_error noun subject (non_finite_number value) = rejected (label_of noun value)
load_error noun subject (unrepresentable_number value) =
    rejected (codes "unrepresentable " ++ noun ++ codes " number: " ++ value)
load_error noun subject invalid_utf8 = rejected (subject ++ codes " is not readable strict JSON")
load_error noun subject invalid_json_syntax =
    rejected (subject ++ codes " is not readable strict JSON")
load_error noun subject int_digits_exceeded = value_error
load_error noun subject out_of_fuel = unfinished

abbrev pub from_decoded : Str → Str → Decoded Value → Verdict Value
from_decoded noun subject (ok v) = accepted v
from_decoded noun subject (fail e) = load_error noun subject e

abbrev pub object_of : Str → Option Fields → Verdict Fields
object_of message none = rejected message
object_of message (some d) = accepted d

-- The file's bytes, or none for an OSError.
unfoldable pub load : Str → Str → Option Bytes → Verdict Fields
load noun subject none = rejected (subject ++ codes " is not readable strict JSON")
load noun subject (some bytes) = do
  v ← from_decoded noun subject (decode_strict_json bytes)
  object_of (subject ++ codes " is not an object") (as_dict v)

pub >>=-eq-accepted {ℓ κ} :
    {Here : Type ℓ} {There : Type κ} (first : Verdict Here) (go : Here → Verdict There)
    {there : There}
    → (first >>= go) ≡ accepted there
    → (here : Here) × (first ≡ accepted here) × (go here ≡ accepted there)
>>=-eq-accepted (accepted here) go e = (here, refl, e)
>>=-eq-accepted (rejected message) go e = cc
>>=-eq-accepted type_error go e = cc
>>=-eq-accepted value_error go e = cc
>>=-eq-accepted key_error go e = cc
>>=-eq-accepted unfinished go e = cc

pub require-eq-accepted {ℓ} :
    {There : Type ℓ} (b : Bool) (message : Str) (after : Verdict There) {there : There}
    → (require b message >> after) ≡ accepted there
    → (b ≡ true) × (after ≡ accepted there)
require-eq-accepted true message after e = (refl, e)
require-eq-accepted false message after e = cc

pub accepted-injective {ℓ} : {A : Type ℓ} {x y : A} → accepted x ≡ accepted y → x ≡ y
accepted-injective e = cc

pub found-eq-accepted : (o : Option Value) {v : Value} → found o ≡ accepted v → o ≡ some v
found-eq-accepted none e = cc
found-eq-accepted (some v) e = ap some (accepted-injective e)

pub object_of-eq-accepted :
    (message : Str) (o : Option Fields) {d : Fields} → object_of message o ≡ accepted d → o ≡ some d
object_of-eq-accepted message none e = cc
object_of-eq-accepted message (some d) e = ap some (accepted-injective e)

pub is_text_sound : (v : Value) (s : Str) → is_text v s ≡ true → v ≡ text s
is_text_sound (text t) s h = ap text (str_eq_sound t s h)
is_text_sound _ s h = cc

from_decoded-eq-accepted :
    (noun subject : Str) (x : Decoded Value) {v : Value}
    → from_decoded noun subject x ≡ accepted v
    → x ≡ ok v
from_decoded-eq-accepted noun subject (ok v) e = ap ok (accepted-injective e)
from_decoded-eq-accepted noun subject (fail (duplicate_member m)) e = cc
from_decoded-eq-accepted noun subject (fail (non_finite_number m)) e = cc
from_decoded-eq-accepted noun subject (fail (unrepresentable_number m)) e = cc
from_decoded-eq-accepted noun subject (fail invalid_utf8) e = cc
from_decoded-eq-accepted noun subject (fail invalid_json_syntax) e = cc
from_decoded-eq-accepted noun subject (fail int_digits_exceeded) e = cc
from_decoded-eq-accepted noun subject (fail out_of_fuel) e = cc

-- A loaded object is what the file's bytes decode to.
pub load-eq-accepted :
    (noun subject : Str) (file : Option Bytes) {d : Fields}
    → load noun subject file ≡ accepted d
    → (bytes : Bytes) × (v : Value) × (file ≡ some bytes)
      × (decode_strict_json bytes ≡ ok v)
      × (as_dict v ≡ some d)
unfolding load
load-eq-accepted noun subject none e = cc
load-eq-accepted noun subject (some bytes) e =
    let (v, decoded, rest) =
      >>=-eq-accepted (from_decoded noun subject (decode_strict_json bytes)) _ e in
    (
      bytes,
      v,
      refl,
      from_decoded-eq-accepted noun subject (decode_strict_json bytes) decoded,
      object_of-eq-accepted _ (as_dict v) rest,
    )
