-- ===== src/Json.antt =====
-- Python values as json.loads makes them: dict, list, str, int, Decimal, bool and None.
pub mod Equality
use sacrysty.Prelude.{
  ℕ, suc, Bool, true, false, ◌&&◌, ◌||◌, Option, none, some, List, [], ◌∷◌, ℤ, pos, negsuc, Str,
  str_eq, mem, is_empty, all, if◌then◌else◌,
}

-- coefficient * 10 ^ exponent
pub record Decimal : Type 0 where
  pub coefficient : ℤ
  pub exponent : ℤ

mutual
  pub data Value : Type 0 where
    null : Value
    boolean : Bool → Value
    integer : ℤ → Value
    decimal : Decimal → Value
    text : Str → Value
    array : Items → Value
    object : Fields → Value

  -- The members of a dict in insertion order.
  pub data Fields : Type 0 where
    end : Fields
    field : Str → Value → Fields → Fields

  pub data Items : Type 0 where
    nil : Items
    cons : Value → Items → Items

-- `d.get(k)`
unfoldable pub lookup : Str → Fields → Option Value
lookup k end = none
lookup k (field j v d) = if str_eq k j then some v else lookup k d

-- `k in d`
unfoldable pub has : Str → Fields → Bool
has k end = false
has k (field j v d) = str_eq k j || has k d

unfoldable pub keys : Fields → List Str
keys end = []
keys (field j v d) = j ∷ keys d

-- `d[k] = v`, at the end where `k` is new.
unfoldable pub insert : Str → Value → Fields → Fields
insert k v end = field k v end
insert k v (field j w d) = if str_eq k j then field j v d else field j w (insert k v d)

-- `set(xs) <= set(ys)`
unfoldable pub subset : List Str → List Str → Bool
subset xs ys = all (λ x. mem x ys) xs

-- `set(xs) == set(ys)`
unfoldable pub set_eq : List Str → List Str → Bool
unfolding subset
set_eq xs ys = subset xs ys && subset ys xs

-- `isinstance(v, dict)`, with its members.
abbrev pub as_dict : Value → Option Fields
as_dict (object d) = some d
as_dict _ = none

abbrev pub as_text : Value → Option Str
as_text (text s) = some s
as_text _ = none

-- `isinstance(v, int) and not isinstance(v, bool)`
abbrev pub as_int : Value → Option ℤ
as_int (integer n) = some n
as_int _ = none

abbrev pub as_list : Value → Option Items
as_list (array xs) = some xs
as_list _ = none

-- `v is True`
abbrev pub is_true : Value → Bool
is_true (boolean b) = b
is_true _ = false

-- `v is False`
abbrev pub is_false : Value → Bool
is_false (boolean true) = false
is_false (boolean false) = true
is_false _ = false

-- A dict, a list and no other value is unhashable.
abbrev pub is_hashable : Value → Bool
is_hashable (array xs) = false
is_hashable (object d) = false
is_hashable _ = true
