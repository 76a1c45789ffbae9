-- ===== src/StrictJson/Utf8.antt =====
-- `serialized.decode("utf-8")`: a byte at a time, with the range that the next byte must lie in.
use sacrysty.Prelude.{
  ℕ, ◌+◌, ◌-◌, ◌*◌, ◌&&◌, Option, none, some, [], ◌∷◌, Str, Bytes, leb, ltb, if◌then◌else◌,
}

-- Between two characters, or inside one: the value so far, the number of further bytes, and the
-- range of the next byte.
pub data Utf8State : Type 0 where
  between : Utf8State
  inside : ℕ → ℕ → ℕ → ℕ → Utf8State

pub data Utf8Step : Type 0 where
  malformed : Utf8Step
  partial : Utf8State → Utf8Step
  complete : ℕ → Utf8Step

-- The first byte of a character. The narrow ranges exclude overlong forms, surrogates and values
-- above U+10FFFF.
abbrev lead_byte : ℕ → Utf8Step
lead_byte b =
    if ltb b 0x80
    then complete b
    else if ltb b 0xC2
    then malformed
    else if ltb b 0xE0
    then partial (inside (b - 0xC0) 1 0x80 0xBF)
    else if ltb b 0xF0
    then partial (
        inside (b - 0xE0) 2 (if leb b 0xE0 then 0xA0 else 0x80)
          (if leb b 0xED && leb 0xED b then 0x9F else 0xBF))
    else if ltb b 0xF5
    then partial (
        inside (b - 0xF0) 3 (if leb b 0xF0 then 0x90 else 0x80) (if leb 0xF4 b then 0x8F else 0xBF))
    else malformed

abbrev pub utf8_step : Utf8State → ℕ → Utf8Step
utf8_step between b = lead_byte b
utf8_step (inside value more low high) b =
    if leb low b && leb b high
    then (if leb more 1
        then complete (value * 64 + (b - 0x80))
        else partial (inside (value * 64 + (b - 0x80)) (more - 1) 0x80 0xBF))
    else malformed

abbrev pub put : ℕ → Option Str → Option Str
put c none = none
put c (some s) = some (c ∷ s)

unfoldable pub decode_from : Utf8State → Bytes → Option Str
decode_from between [] = some []
decode_from (inside v n l h) [] = none
decode_from state (b ∷ rest) = elim (utf8_step state b) [
  | malformed ↦ none
  | partial next ↦ decode_from next rest
  | complete c ↦ put c (decode_from between rest)
]

unfoldable pub decode_utf8 : Bytes → Option Str
unfolding decode_from
decode_utf8 serialized = decode_from between serialized
