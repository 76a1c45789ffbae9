-- ===== src/Json/Equality.antt =====
-- Python's == on decoded values: numbers of the three types compare by value, and dicts without
-- regard to the order of their members.
use sacrysty.Prelude.{
  ℕ, suc, ◌-◌, ◌*◌, ◌^◌, Bool, true, false, ◌&&◌, Option, none, some, ℤ, pos, negsuc, ◌-ℤ◌,
  pos_part, neg_part, eq_ℤ, str_eq, ◌==◌,
}
use sacrysty.Json.{
  Decimal, Value, null, boolean, integer, decimal, text, array, object, Items, nil, cons, Fields,
  end, field, lookup,
}

-- The coefficient of `d` at an exponent that is lower by the given number.
abbrev scale : ℤ → ℕ → ℤ
scale (pos n) k = pos (n * 10 ^ k)
scale (negsuc n) k = negsuc (suc n * 10 ^ k - 1)

unfoldable pub number_eq : Decimal → Decimal → Bool
number_eq a b =
    let gap = a.exponent -ℤ b.exponent in
    eq_ℤ (scale a.coefficient (pos_part gap)) (scale b.coefficient (neg_part gap))

abbrev pub as_number : Value → Option Decimal
as_number (boolean true) = some (record { coefficient = pos 1; exponent = pos 0 })
as_number (boolean false) = some (record { coefficient = pos 0; exponent = pos 0 })
as_number (integer n) = some (record { coefficient = n; exponent = pos 0 })
as_number (decimal d) = some d
as_number _ = none

abbrev both_numbers : Option Decimal → Option Decimal → Bool
both_numbers (some a) (some b) = number_eq a b
both_numbers _ _ = false

unfoldable pub count : Fields → ℕ
count end = 0
count (field k v d) = suc (count d)

unfoldable mutual
  unfolding number_eq

  pub py_eq : Value → Value → Bool
  py_eq null null = true
  py_eq (text s) (text t) = str_eq s t
  py_eq (array xs) (array ys) = items_eq xs ys
  py_eq (object d) (object e) = (count d == count e) && members_in d e
  py_eq v w = both_numbers (as_number v) (as_number w)

  pub items_eq : Items → Items → Bool
  items_eq nil nil = true
  items_eq (cons v xs) (cons w ys) = py_eq v w && items_eq xs ys
  items_eq _ _ = false

  -- Each member of the first dict is found in the second, with an equal value.
  pub members_in : Fields → Fields → Bool
  members_in end e = true
  members_in (field k v d) e =
      elim (lookup k e) [ none ↦ false | some w ↦ py_eq v w ] && members_in d e
