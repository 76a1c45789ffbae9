-- ===== src/Prelude/Digits.antt =====
-- Numbers as texts: `str` of an int that is not negative, and its upper-case hexadecimal form.
use sacrysty.Prelude.Tests.{ltb, if◌then◌else◌}
use sacrysty.Prelude.Text.{Str}
use Prim.Native.Nat.{ℕ, zero, suc, ◌+◌, ◌-◌, ◌/◌, ◌%◌}
use mathlib.Core.List.{[], ◌∷◌, ◌++◌}

abbrev digit_of : ℕ → ℕ
digit_of d = if ltb d 10 then b'0' + d else b'A' + (d - 10)

-- The digits in a base, the first one first. The fuel is above the number of digits.
unfoldable pub digits_in : ℕ → ℕ → ℕ → Str
digits_in base zero n = []
digits_in base (suc fuel) n =
    let rest = digits_in base fuel (n / base) in
    if ltb n base then digit_of n ∷ [] else rest ++ (digit_of (n % base) ∷ [])

-- A number has fewer digits than its successor counts.
abbrev pub decimal : ℕ → Str
decimal n = digits_in 10 (suc n) n

abbrev pub hexadecimal : ℕ → Str
hexadecimal n = digits_in 16 (suc n) n
