-- ===== src/Evidence/Trace/Pattern.antt =====
-- The regular expressions of the runner's trace: a sequence of literal texts and of classes that
-- are repeated at least once. `full_match` reads each class as far as it goes; its theorem compares
-- it with the expression's meaning.
use sacrysty.Prelude.{
  ℕ, Bool, true, false, ◌&&◌, not, Option, none, some, List, [], ◌∷◌, ◌++◌, ◌≡◌, Str, Bytes, all,
  is_empty, ◌==◌, if◌then◌else◌,
}

pub data Piece : Type 0 where
  literal : Str → Piece
  some_of : (ℕ → Bool) → Piece

abbrev pub go_on : Bool → Option Bytes → Option Bytes
go_on true rest = rest
go_on false rest = none

-- What follows the literal text.
unfoldable pub skip_literal : Str → Bytes → Option Bytes
skip_literal [] s = some s
skip_literal (c ∷ l) [] = none
skip_literal (c ∷ l) (d ∷ s) = go_on (c == d) (skip_literal l s)

-- What follows the longest run of the class.
unfoldable pub skip_run : (ℕ → Bool) → Bytes → Bytes
skip_run p [] = []
skip_run p (c ∷ s) = let rest = skip_run p s in if p c then rest else c ∷ s

-- At least one character of the class.
unfoldable pub skip_class : (ℕ → Bool) → Bytes → Option Bytes
skip_class p [] = none
skip_class p (c ∷ s) = go_on (p c) (some (skip_run p s))

abbrev pub skip : Piece → Bytes → Option Bytes
skip (literal l) s = skip_literal l s
skip (some_of p) s = skip_class p s

abbrev pub match_rest : (Bytes → Bool) → Option Bytes → Bool
match_rest matches none = false
match_rest matches (some rest) = matches rest

unfoldable pub full_match : List Piece → Bytes → Bool
full_match [] s = is_empty s
full_match (piece ∷ pieces) s = match_rest (full_match pieces) (skip piece s)

-- The meaning of an expression: a text is the concatenation of what its pieces stand for.
abbrev pub Stands : Piece → Str → Type 0
Stands (literal l) s = s ≡ l
Stands (some_of p) s = (is_empty s ≡ false) × (all p s ≡ true)

abbrev pub Matches : List Piece → Str → Type 0
Matches [] s = s ≡ []
Matches (piece ∷ pieces) s =
    (a : Str) × (b : Str) × (s ≡ a ++ b) × Stands piece a × Matches pieces b

-- No class is followed by a class, or by a literal text that begins in the class.
abbrev pub begins_outside : (ℕ → Bool) → List Piece → Bool
begins_outside p [] = true
begins_outside p (literal [] ∷ pieces) = false
begins_outside p (literal (c ∷ l) ∷ pieces) = not (p c)
begins_outside p (some_of q ∷ pieces) = false

abbrev pub is_separated : List Piece → Bool
is_separated [] = true
is_separated (literal l ∷ pieces) = is_separated pieces
is_separated (some_of p ∷ pieces) = begins_outside p pieces && is_separated pieces
