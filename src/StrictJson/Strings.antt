-- ===== src/StrictJson/Strings.antt =====
-- Strings of JSON, as the scanner of json.loads reads them in its strict mode.
use sacrysty.Prelude.{
  ℕ, ◌+◌, ◌-◌, ◌*◌, Bool, true, false, ◌&&◌, ◌||◌, Option, none, some, List, [], ◌∷◌, Str, leb, ltb,
  ◌==◌, if◌then◌else◌,
}
use sacrysty.StrictJson.Result.{Decoded, ok, fail, ◌>>=◌, invalid_json_syntax}

-- Outside an escape, behind a backslash, or inside \uXXXX: the digits to come and the value.
pub data StringState : Type 0 where
  plain escaped : StringState
  hexadecimal : ℕ → ℕ → StringState

-- One code unit of the string, and whether it was written as \uXXXX.
abbrev pub CodeUnit : Type 0
CodeUnit = Bool × ℕ

pub data StringStep : Type 0 where
  closes bad : StringStep
  silent : StringState → StringStep
  emits : CodeUnit → StringStep

abbrev hex_digit : ℕ → Option ℕ
hex_digit c =
    if leb b'0' c && leb c b'9'
    then some (c - b'0')
    else if leb b'a' c && leb c b'f'
    then some (c - b'a' + 10)
    else if leb b'A' c && leb c b'F'
    then some (c - b'A' + 10)
    else none

abbrev escape_step : ℕ → StringStep
escape_step c =
    if c == b'"' || c == b'\\' || c == b'/'
    then emits (false, c)
    else if c == b'b'
    then emits (false, 8)
    else if c == b'f'
    then emits (false, 12)
    else if c == b'n'
    then emits (false, 10)
    else if c == b'r'
    then emits (false, 13)
    else if c == b't'
    then emits (false, 9)
    else if c == b'u'
    then silent (hexadecimal 4 0)
    else bad

abbrev hex_step : ℕ → ℕ → Option ℕ → StringStep
hex_step more value none = bad
hex_step more value (some d) =
    if leb more 1
    then emits (true, value * 16 + d)
    else silent (hexadecimal (more - 1) (value * 16 + d))

abbrev pub string_step : StringState → ℕ → StringStep
string_step plain c =
    if c == b'"'
    then closes
    else if c == b'\\'
    then silent escaped
    else if ltb c 32
    then bad
    else emits (false, c)
string_step escaped c = escape_step c
string_step (hexadecimal more value) c = hex_step more value (hex_digit c)

abbrev pub put_unit : CodeUnit → Decoded (List CodeUnit × Str) → Decoded (List CodeUnit × Str)
put_unit u (ok (us, rest)) = ok (u ∷ us, rest)
put_unit u (fail e) = fail e

unfoldable pub scan_units : StringState → Str → Decoded (List CodeUnit × Str)
scan_units state [] = fail invalid_json_syntax
scan_units state (c ∷ s) = elim (string_step state c) [
  | closes ↦ ok ([], s)
  | bad ↦ fail invalid_json_syntax
  | silent next ↦ scan_units next s
  | emits u ↦ put_unit u (scan_units plain s)
]

-- Two adjacent \u escapes that form a surrogate pair are one character.
unfoldable pub join_surrogates : List CodeUnit → Str
join_surrogates [] = []
join_surrogates (u ∷ []) = u.1 ∷ []
join_surrogates (u ∷ v ∷ us) =
    elim (u.0 && v.0 && (leb 0xD800 u.1 && leb u.1 0xDBFF) && (leb 0xDC00 v.1 && leb v.1 0xDFFF)) [
      | true ↦ (0x10000 + (u.1 - 0xD800) * 0x400 + (v.1 - 0xDC00)) ∷ join_surrogates us
      | false ↦ u.1 ∷ join_surrogates (v ∷ us)
    ]

-- The string whose opening quote has been read, and the text behind it.
unfoldable pub scan_string : Str → Decoded (Str × Str)
unfolding scan_units join_surrogates
scan_string s = scan_units plain s >>= λ (us, rest). ok (join_surrogates us, rest)
