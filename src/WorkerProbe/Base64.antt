-- ===== src/WorkerProbe/Base64.antt =====
-- base64.b64encode and base64.b64decode with validation, of Python's library.
pub mod RoundTrip
use sacrysty.Prelude.{
  ℕ, ◌+◌, ◌-◌, ◌*◌, ◌/◌, ◌%◌, Bool, true, false, ◌&&◌, Option, none, some, List, [], ◌∷◌, ◌++◌,
  Bytes, leb, is_empty, ◌==◌, if◌then◌else◌,
}

abbrev pub is_between : ℕ → ℕ → ℕ → Bool
is_between low high c = leb low c && leb c high

abbrev pub and_then : {A B : Type 0} → Option A → (A → Option B) → Option B
and_then none f = none
and_then (some a) f = f a

-- The value of a character of the alphabet.
unfoldable pub sextet : ℕ → Option ℕ
sextet c =
    if is_between b'A' b'Z' c
    then some (c - b'A')
    else if is_between b'a' b'z' c
    then some (c - b'a' + 26)
    else if is_between b'0' b'9' c
    then some (c - b'0' + 52)
    else if c == b'+'
    then some 62
    else if c == b'/'
    then some 63
    else none

unfoldable pub char_of : ℕ → ℕ
char_of n =
    if leb n 25
    then n + b'A'
    else if leb n 51
    then n - 26 + b'a'
    else if leb n 61
    then n - 52 + b'0'
    else if n == 62
    then b'+'
    else b'/'

-- The bytes of the sextets of a group.
abbrev pub byte_1 : ℕ → ℕ → ℕ
byte_1 x y = x * 4 + y / 16

abbrev pub byte_2 : ℕ → ℕ → ℕ
byte_2 y z = y % 16 * 16 + z / 4

abbrev pub byte_3 : ℕ → ℕ → ℕ
byte_3 z w = z % 4 * 64 + w

abbrev decode_4 : ℕ → ℕ → ℕ → ℕ → Option Bytes
decode_4 x y z d = and_then (sextet d) (λ w. some (byte_1 x y ∷ byte_2 y z ∷ byte_3 z w ∷ []))

abbrev decode_3 : ℕ → ℕ → ℕ → ℕ → Option Bytes
decode_3 x y c d =
    and_then (sextet c)
      (λ z. if d == b'=' then some (byte_1 x y ∷ byte_2 y z ∷ []) else decode_4 x y z d)

abbrev decode_2 : ℕ → ℕ → ℕ → ℕ → Option Bytes
decode_2 x y c d =
    if c == b'=' then (if d == b'=' then some (byte_1 x y ∷ []) else none) else decode_3 x y c d

-- The last group, which may be padded.
abbrev pub decode_last : ℕ → ℕ → ℕ → ℕ → Option Bytes
decode_last a b c d = and_then (sextet a) (λ x. and_then (sextet b) (λ y. decode_2 x y c d))

-- A group that is not the last.
abbrev pub decode_group : ℕ → ℕ → ℕ → ℕ → Option Bytes
decode_group a b c d =
    and_then (sextet a)
      (λ x. and_then (sextet b) (λ y. and_then (sextet c) (λ z. decode_4 x y z d)))

abbrev pub prepend : Option Bytes → Option Bytes → Option Bytes
prepend first rest = and_then first (λ part. and_then rest (λ more. some (part ++ more)))

unfoldable pub b64decode : Bytes → Option Bytes
b64decode [] = some []
b64decode (a ∷ b ∷ c ∷ d ∷ s) =
    let rest = b64decode s in
    if is_empty s then decode_last a b c d else prepend (decode_group a b c d) rest
b64decode _ = none

-- The encoding with no padding at its end.
unfoldable pub b64encode : Bytes → Bytes
b64encode [] = []
b64encode (a ∷ []) = char_of (a / 4) ∷ char_of (a % 4 * 16) ∷ []
b64encode (a ∷ b ∷ []) = char_of (a / 4) ∷ char_of (a % 4 * 16 + b / 16) ∷ char_of (b % 16 * 4) ∷ []
b64encode (a ∷ b ∷ c ∷ s) =
    char_of (a / 4)
    ∷ char_of (a % 4 * 16 + b / 16)
    ∷ char_of (b % 16 * 4 + c / 64)
    ∷ char_of (c % 64)
    ∷ b64encode s
