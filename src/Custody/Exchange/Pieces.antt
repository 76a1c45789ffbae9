-- ===== src/Custody/Exchange/Pieces.antt =====
-- Cutting a text of bytes into what is behind an offset and what is before it.
use native.Mathlib.Nat.{zero-add, suc-add}
use sacrysty.Prelude.{
  ℕ, zero, suc, ◌+◌, ◌≤◌, ◌≡◌, refl, ap, [], ◌∷◌, ◌++◌, Bytes, length, take, drop, arith,
  length-take, sym,
}

take-nil : (k : ℕ) → take {A = ℕ} k [] ≡ []
take-nil zero = refl
take-nil (suc k) = refl

pub take-add : (a k : ℕ) (s : Bytes) → take (a + k) s ≡ take a s ++ take k (drop a s)
take-add zero k s = rw zero-add
take-add (suc a) k [] = rw (suc-add a k) (sym (take-nil k))
take-add (suc a) k (c ∷ s) = rw (suc-add a k) (ap (λ t. c ∷ t) (take-add a k s))

pub take-take : (k n : ℕ) (s : Bytes) → k ≤ length (take n s) → take k (take n s) ≡ take k s
take-take zero n s h = refl
take-take (suc k) zero s h = absurd (omega arith)
take-take (suc k) (suc n) [] h = refl
take-take (suc k) (suc n) (c ∷ s) h = ap (λ t. c ∷ t) (take-take k n s (omega arith))

pub take_all : (s : Bytes) → take (length s) s ≡ s
take_all [] = refl
take_all (c ∷ s) = ap (λ t. c ∷ t) (take_all s)

pub length-take-drop :
    (n a : ℕ) (s : Bytes) → a ≤ length s → a + length (take n (drop a s)) ≤ length s
length-take-drop n zero s h = omega (arith, length-take n s)
length-take-drop n (suc a) [] h = absurd (omega arith)
length-take-drop n (suc a) (c ∷ s) h = omega (arith, length-take-drop n a s (omega arith))

pub length-take-le : (n : ℕ) (s : Bytes) → length (take n s) ≤ n
length-take-le zero s = omega arith
length-take-le (suc n) [] = omega arith
length-take-le (suc n) (c ∷ s) = omega (arith, length-take-le n s)
