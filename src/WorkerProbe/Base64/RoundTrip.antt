-- ===== src/WorkerProbe/Base64/RoundTrip.antt =====
-- What was encoded is decoded, and an encoding is one of its pieces.
use sacrysty.Prelude.{
  ℕ, zero, suc, ◌+◌, ◌-◌, ◌*◌, ◌/◌, ◌%◌, ◌<◌, ◌≤◌, true, false, ◌≡◌, refl, ap, ◌∙◌, some, [], ◌∷◌,
  ◌++◌, Bytes, all, length, leb, is_empty, ◌==◌, arith, if◌then◌else◌,
}
use sacrysty.WorkerProbe.Base64.{
  sextet, char_of, byte_1, byte_2, byte_3, decode_last, decode_group, b64decode, b64encode,
}
use sacrysty.WorkerProbe.Stanza.{padding}

abbrev pub AreBytes : Bytes → Type 0
AreBytes [] = Unit
AreBytes (c ∷ s) = (c < 256) × AreBytes s

sextet-char_of : (n : ℕ) → n < 64 → sextet (char_of n) ≡ some n
unfolding sextet char_of
sextet-char_of n h = ground arith

char_of-printable : (n : ℕ) → 43 ≤ char_of n
unfolding char_of
char_of-printable n = ground arith

joined_1 : (a b : ℕ) → a < 256 → b < 256 → byte_1 (a / 4) (a % 4 * 16 + b / 16) ≡ a
joined_1 a b h k = omega arith

joined_1_last : (a : ℕ) → a < 256 → byte_1 (a / 4) (a % 4 * 16) ≡ a
joined_1_last a h = omega arith

joined_2 : (a b c : ℕ) → b < 256 → c < 256 → byte_2 (a % 4 * 16 + b / 16) (b % 16 * 4 + c / 64) ≡ b
joined_2 a b c h k = omega arith

joined_2_last : (a b : ℕ) → b < 256 → byte_2 (a % 4 * 16 + b / 16) (b % 16 * 4) ≡ b
joined_2_last a b h = omega arith

joined_3 : (b c : ℕ) → c < 256 → byte_3 (b % 16 * 4 + c / 64) (c % 64) ≡ c
joined_3 b c h = omega arith

char_of-pad : (n : ℕ) → (char_of n == b'=') ≡ false
unfolding char_of
char_of-pad n = ground arith

abbrev padding_for : ℕ → Bytes
padding_for r =
    let n = (4 - r) % 4 in
    if n == 0
    then []
    else if n == 1
    then 61 ∷ []
    else if n == 2
    then 61 ∷ 61 ∷ []
    else 61 ∷ 61 ∷ 61 ∷ []

same_rest : (n : ℕ) → suc (suc (suc (suc n))) % 4 ≡ n % 4
same_rest n = omega arith

padding-longer : (a b c d : ℕ) (s : Bytes) → padding (a ∷ b ∷ c ∷ d ∷ s) ≡ padding s
padding-longer a b c d s = ap padding_for (same_rest (length s))

last_1 :
    (a : ℕ) → a < 256 → decode_last (char_of (a / 4)) (char_of (a % 4 * 16)) 61 61 ≡ some (a ∷ [])
last_1 a h =
    rw (sextet-char_of (a / 4) (omega arith), sextet-char_of (a % 4 * 16) (omega arith))
      (ap (λ x. some (x ∷ [])) (joined_1_last a h))

last_2 :
    (a b : ℕ)
    → a < 256
    → b < 256
    → decode_last (char_of (a / 4)) (char_of (a % 4 * 16 + b / 16)) (char_of (b % 16 * 4)) 61
      ≡ some (a ∷ b ∷ [])
last_2 a b h k =
    rw
      (
        sextet-char_of (a / 4) (omega arith),
        sextet-char_of (a % 4 * 16 + b / 16) (omega arith),
        char_of-pad (b % 16 * 4),
        sextet-char_of (b % 16 * 4) (omega arith),
      )
      (ap (λ x. some (x ∷ byte_2 (a % 4 * 16 + b / 16) (b % 16 * 4) ∷ [])) (joined_1 a b h k)
        ∙ ap (λ y. some (a ∷ y ∷ [])) (joined_2_last a b k))

whole :
    (a b c : ℕ)
    → a < 256
    → b < 256
    → c < 256
    → some (
        byte_1 (a / 4) (a % 4 * 16 + b / 16)
        ∷ byte_2 (a % 4 * 16 + b / 16) (b % 16 * 4 + c / 64)
        ∷ byte_3 (b % 16 * 4 + c / 64) (c % 64)
        ∷ [])
      ≡ some (a ∷ b ∷ c ∷ [])
whole a b c h k l =
    ap
      (λ x. some (
        x
        ∷ byte_2 (a % 4 * 16 + b / 16) (b % 16 * 4 + c / 64)
        ∷ byte_3 (b % 16 * 4 + c / 64) (c % 64)
        ∷ []))
      (joined_1 a b h k)
    ∙ ap (λ y. some (a ∷ y ∷ byte_3 (b % 16 * 4 + c / 64) (c % 64) ∷ [])) (joined_2 a b c k l)
    ∙ ap (λ z. some (a ∷ b ∷ z ∷ [])) (joined_3 b c l)

last_3 :
    (a b c : ℕ)
    → a < 256
    → b < 256
    → c < 256
    → decode_last
        (char_of (a / 4))
        (char_of (a % 4 * 16 + b / 16))
        (char_of (b % 16 * 4 + c / 64))
        (char_of (c % 64))
      ≡ some (a ∷ b ∷ c ∷ [])
last_3 a b c h k l =
    rw
      (
        sextet-char_of (a / 4) (omega arith),
        sextet-char_of (a % 4 * 16 + b / 16) (omega arith),
        char_of-pad (b % 16 * 4 + c / 64),
        sextet-char_of (b % 16 * 4 + c / 64) (omega arith),
        char_of-pad (c % 64),
        sextet-char_of (c % 64) (omega arith),
      )
      (whole a b c h k l)

group_3 :
    (a b c : ℕ)
    → a < 256
    → b < 256
    → c < 256
    → decode_group
        (char_of (a / 4))
        (char_of (a % 4 * 16 + b / 16))
        (char_of (b % 16 * 4 + c / 64))
        (char_of (c % 64))
      ≡ some (a ∷ b ∷ c ∷ [])
group_3 a b c h k l =
    rw
      (
        sextet-char_of (a / 4) (omega arith),
        sextet-char_of (a % 4 * 16 + b / 16) (omega arith),
        sextet-char_of (b % 16 * 4 + c / 64) (omega arith),
        sextet-char_of (c % 64) (omega arith),
      )
      (whole a b c h k l)

padding_later :
    (a b c d : ℕ) (e : Bytes)
    → ((a ∷ b ∷ c ∷ d ∷ e) ++ padding (a ∷ b ∷ c ∷ d ∷ e)) ≡ a ∷ b ∷ c ∷ d ∷ (e ++ padding e)
padding_later a b c d e = ap (λ p. a ∷ b ∷ c ∷ d ∷ (e ++ p)) (padding-longer a b c d e)

encoded-nonempty : (d : ℕ) (s t : Bytes) → is_empty (b64encode (d ∷ s) ++ t) ≡ false
unfolding b64encode
encoded-nonempty d [] t = refl
encoded-nonempty d (e ∷ []) t = refl
encoded-nonempty d (e ∷ f ∷ s) t = refl

more-decoded :
    (x y z w : ℕ) (t : Bytes) {first rest : Bytes}
    → is_empty t ≡ false
    → decode_group x y z w ≡ some first
    → b64decode t ≡ some rest
    → b64decode (x ∷ y ∷ z ∷ w ∷ t) ≡ some (first ++ rest)
unfolding b64decode
more-decoded x y z w t e f g = rw (e, f, g) refl

-- The encoding with its padding is decoded to what was encoded.
pub b64decode-b64encode :
    (s : Bytes) → AreBytes s → b64decode (b64encode s ++ padding (b64encode s)) ≡ some s
unfolding b64encode b64decode
b64decode-b64encode [] h = refl
b64decode-b64encode (a ∷ []) (h, u) = last_1 a h
b64decode-b64encode (a ∷ b ∷ []) (h, (k, u)) = last_2 a b h k
b64decode-b64encode (a ∷ b ∷ c ∷ []) (h, (k, (l, u))) = last_3 a b c h k l
b64decode-b64encode (a ∷ b ∷ c ∷ d ∷ s) (h, (k, (l, rest))) =
    ap b64decode (
      padding_later (char_of (a / 4)) (char_of (a % 4 * 16 + b / 16))
        (char_of (b % 16 * 4 + c / 64)) (char_of (c % 64)) (b64encode (d ∷ s)))
    ∙ more-decoded (char_of (a / 4)) (char_of (a % 4 * 16 + b / 16)) (char_of (b % 16 * 4 + c / 64))
        (char_of (c % 64)) (b64encode (d ∷ s) ++ padding (b64encode (d ∷ s)))
        (encoded-nonempty d s _) (group_3 a b c h k l) (b64decode-b64encode (d ∷ s) rest)

one :
    {c : ℕ} (t : Bytes) → 43 ≤ c → all (λ x. leb 43 x) t ≡ true → all (λ x. leb 43 x) (c ∷ t) ≡ true
one t h k = ground arith

two :
    {c d : ℕ} (t : Bytes)
    → 43 ≤ c
    → 43 ≤ d
    → all (λ x. leb 43 x) t ≡ true
    → all (λ x. leb 43 x) (c ∷ d ∷ t) ≡ true
two {d = d} t h k l = one (d ∷ t) h (one t k l)

pub absurd_length : {A : Type 0} → ⊥ → A
absurd_length e = elim e [ ]

-- Threes are encoded to fours, apart from what follows them.
pub b64encode-append :
    (n : ℕ) (s t : Bytes) → length s ≡ 3 * n → b64encode (s ++ t) ≡ b64encode s ++ b64encode t
unfolding b64encode
b64encode-append zero [] t h = refl
b64encode-append (suc n) (a ∷ b ∷ c ∷ s) t h =
    ap
      (λ e.
        char_of (a / 4)
        ∷ char_of (a % 4 * 16 + b / 16)
        ∷ char_of (b % 16 * 4 + c / 64)
        ∷ char_of (c % 64)
        ∷ e)
      (b64encode-append n s t (omega arith))
b64encode-append zero (a ∷ s) t h = absurd_length (omega arith)
b64encode-append (suc n) [] t h = absurd_length (omega arith)
b64encode-append (suc n) (a ∷ []) t h = absurd_length (omega arith)
b64encode-append (suc n) (a ∷ b ∷ []) t h = absurd_length (omega arith)

pub length-b64encode :
    (s : Bytes)
    → (3 * length (b64encode s) ≤ 4 * length s + 2) × (4 * length s ≤ 3 * length (b64encode s))
unfolding b64encode
length-b64encode [] = omega arith
length-b64encode (a ∷ []) = omega arith
length-b64encode (a ∷ b ∷ []) = omega arith
length-b64encode (a ∷ b ∷ c ∷ s) = let (h, k) = length-b64encode s in omega arith

pub b64encode-printable : (s : Bytes) → all (λ c. leb 43 c) (b64encode s) ≡ true
unfolding b64encode
b64encode-printable [] = refl
b64encode-printable (a ∷ []) =
    two [] (char_of-printable (a / 4)) (char_of-printable (a % 4 * 16)) refl
b64encode-printable (a ∷ b ∷ []) =
    one (char_of (a % 4 * 16 + b / 16) ∷ char_of (b % 16 * 4) ∷ []) (char_of-printable (a / 4))
      (two [] (char_of-printable (a % 4 * 16 + b / 16)) (char_of-printable (b % 16 * 4)) refl)
b64encode-printable (a ∷ b ∷ c ∷ s) =
    two (char_of (b % 16 * 4 + c / 64) ∷ char_of (c % 64) ∷ b64encode s) (char_of-printable (a / 4))
      (char_of-printable (a % 4 * 16 + b / 16))
      (two (b64encode s) (char_of-printable (b % 16 * 4 + c / 64)) (char_of-printable (c % 64))
        (b64encode-printable s))
