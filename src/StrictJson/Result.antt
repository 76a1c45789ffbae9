-- ===== src/StrictJson/Result.antt =====
-- How decoding ends: a value, or one of the errors of sacrysty_runtime/strict_json.py. Two more
-- endings stand for what is no StrictJsonError: the ValueError of `int` on a text with too many
-- digits, and the end of the model's fuel.
use sacrysty.Prelude.{Str, ◌≡◌, refl}

pub data DecodeError : Type 0 where
  duplicate_member non_finite_number unrepresentable_number : Str → DecodeError
  invalid_utf8 invalid_json_syntax int_digits_exceeded out_of_fuel : DecodeError

pub data Decoded {ℓ} (A : Type ℓ) : Type ℓ where
  ok : A → Decoded A
  fail : DecodeError → Decoded A

infixl 5 ◌>>=◌
abbrev pub ◌>>=◌ {ℓ κ} :
    {Here : Type ℓ} {There : Type κ} → Decoded Here → (Here → Decoded There) → Decoded There
ok here >>= go = go here
fail error >>= go = fail error

pub >>=-eq-ok {ℓ κ} :
    {Here : Type ℓ} {There : Type κ} (first : Decoded Here) (go : Here → Decoded There)
    {there : There}
    → (first >>= go) ≡ ok there
    → (here : Here) × (first ≡ ok here) × (go here ≡ ok there)
>>=-eq-ok (ok here) go e = (here, refl, e)
>>=-eq-ok (fail error) go e = cc
