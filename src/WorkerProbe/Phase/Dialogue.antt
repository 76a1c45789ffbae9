-- ===== src/WorkerProbe/Phase/Dialogue.antt =====
-- The dialogue that the first phase asks for, and one stanza of it.
use mathlib.Core.Path.{subst}
use sacrysty.Prelude.{
  ℕ, zero, suc, ◌+◌, ◌<◌, Bool, true, false, ◌≡◌, refl, sym, ap, ◌∙◌, ◌⊎◌, inl, inr, ◌&&◌, arith,
  List, [], ◌∷◌, Str, codes, str_eq, str_eq_sound, ltb, is_empty, ◌==◌, if◌then◌else◌,
}
use sacrysty.WorkerProbe.Stanza.{Input, stanza, ended, failed, read_stanza, begins_with}
use sacrysty.WorkerProbe.Phase.{Phase, identity, is_identity, take_stanza, ends_phase}

-- The stanzas that are read up to "done", or up to the end or a failure: kind, arguments and the
-- body's size.
abbrev pub stanzas : ℕ → Input → List (Str × List Str × ℕ)
stanzas zero i = []
stanzas (suc n) i = elim (read_stanza i).0 [
  | failed ↦ []
  | ended ↦ []
  | stanza kind args size ↦
      (kind, args, size)
      ∷ elim (ends_phase kind) [ true ↦ [] | false ↦ stanzas n (read_stanza i).1 ]
]

-- So many identities, file keys and requests for labels, in any order and with any grease, and then
-- the end.
pub data Dialogue : ℕ → ℕ → ℕ → List (Str × List Str × ℕ) → Type 0 where
  ends : Dialogue 0 0 0 ((codes "done", [], 0) ∷ [])
  adds_identity :
      (a w e : ℕ) (ss : List (Str × List Str × ℕ))
      → Dialogue a w e ss
      → Dialogue (suc a) w e ((codes "add-identity", identity ∷ [], 0) ∷ ss)
  wraps_key :
      (a w e size : ℕ) (ss : List (Str × List Str × ℕ))
      → 0 < size
      → Dialogue a w e ss
      → Dialogue a (suc w) e ((codes "wrap-file-key", [], size) ∷ ss)
  asks_labels :
      (a w e : ℕ) (ss : List (Str × List Str × ℕ))
      → Dialogue a w e ss
      → Dialogue a w (suc e) ((codes "extension-labels", [], 0) ∷ ss)
  greases :
      (a w e : ℕ) (kind : Str) (args : List Str) (size : ℕ) (ss : List (Str × List Str × ℕ))
      → begins_with (codes "grease-") kind ≡ true
      → Dialogue a w e ss
      → Dialogue a w e ((kind, args, size) ∷ ss)

-- What the loop still has to read, after `p`.
pub record Rest (p : Phase) (a w e : ℕ) : Type 0 where
  pub identities : a + p.identities ≡ 1
  pub identity_ok : (a ≡ 1) ⊎ (p.identity_ok ≡ true)
  pub wraps : w + p.wraps ≡ 1
  pub wrap_ok : (w ≡ 1) ⊎ (p.wrap_ok ≡ true)
  pub extensions : e + p.extensions ≡ 1
  pub expected : p.expected ≡ true

abbrev pub Follows : Phase → List (Str × List Str × ℕ) → Type 0
Follows p ss = (a : ℕ) × (w : ℕ) × (e : ℕ) × Rest p a w e × Dialogue a w e ss

pub split : (x y : Bool) → (x && y) ≡ true → (x ≡ true) × (y ≡ true)
split true y h = (refl, h)
split false y h = cc

pub eq_sound : (m n : ℕ) → (m == n) ≡ true → m ≡ n
eq_sound m n h = ground arith

ltb_sound : (n : ℕ) → ltb 0 n ≡ true → 0 < n
ltb_sound n h = ground arith

pub is_empty_sound : (args : List Str) → is_empty args ≡ true → args ≡ []
is_empty_sound [] h = refl
is_empty_sound (a ∷ as_) h = cc

is_identity_sound : (args : List Str) → is_identity args ≡ true → args ≡ identity ∷ []
is_identity_sound [] h = cc
is_identity_sound (a ∷ []) h = ap (λ x. x ∷ []) (str_eq_sound a identity h)
is_identity_sound (a ∷ b ∷ as_) h = cc

abbrev Line : Type 0
Line = Str × List Str × ℕ

pub same_line :
    {kind kind' : Str} {args args' : List Str} {size size' : ℕ}
    → kind ≡ kind'
    → args ≡ args'
    → size ≡ size'
    → ◌≡◌ {A = Line} (kind', args', size') (kind, args, size)
same_line {kind' = kind'} {args = args} {args' = args'} {size = size} h k l =
    let first : ◌≡◌ {A = Line} _ _ = ap (λ x. (x, args, size)) h in
    let second : ◌≡◌ {A = Line} _ _ = ap (λ x. (kind', x, size)) k in
    let third : ◌≡◌ {A = Line} _ _ = ap (λ x. (kind', args', x)) l in sym (first ∙ second ∙ third)

-- The part is left, so it is the last of its kind.
last_holds : (a n : ℕ) {b : Bool} → a + suc n ≡ 1 → (a ≡ 1) ⊎ (b ≡ true) → b ≡ true
last_holds a n h (inl e) = elim (too_many a n h e) [ ]
  where
    too_many : (a n : ℕ) → a + suc n ≡ 1 → ¬ (a ≡ 1)
    too_many a n h e = omega (arith, h, e)
last_holds a n h (inr e) = e

module _ (kind : Str) (args : List Str) (size : ℕ) (p : Phase)
    (ss : List (Str × List Str × ℕ)) where
  pub take_stanza-done_ok : (take_stanza kind args size p).done_ok ≡ p.done_ok
  unfolding take_stanza
  take_stanza-done_ok = ground arith

  pub take_stanza-Follows :
      Follows (take_stanza kind args size p) ss → Follows p ((kind, args, size) ∷ ss)
  unfolding take_stanza
  take_stanza-Follows (a, w, e, r, d) =
      by_kind (str_eq kind (codes "add-identity")) refl (str_eq kind (codes "wrap-file-key")) refl
        (str_eq kind (codes "extension-labels")) refl (begins_with (codes "grease-") kind) refl r
    where
      by_kind :
          (b₀ : Bool)
          → str_eq kind (codes "add-identity") ≡ b₀
          → (b₁ : Bool) → str_eq kind (codes "wrap-file-key") ≡ b₁
          → (b₂ : Bool) → str_eq kind (codes "extension-labels") ≡ b₂
          → (b₃ : Bool) → begins_with (codes "grease-") kind ≡ b₃
          → Rest
              (if b₀
                then record p {
                  identities = suc p.identities;
                  identity_ok = is_identity args && size == 0;
                }
                else if b₁
                then record p { wraps = suc p.wraps; wrap_ok = is_empty args && ltb 0 size }
                else if b₂
                then record p {
                  extensions = suc p.extensions;
                  expected = p.expected && is_empty args && size == 0;
                }
                else if b₃
                then p
                else record p { expected = false })
              a
              w
              e
          → Follows p ((kind, args, size) ∷ ss)
      by_kind true h₀ b₁ h₁ b₂ h₂ b₃ h₃ r =
          let (named, empty) =
            split (is_identity args) _ (last_holds a p.identities r.identities r.identity_ok) in
          (
            suc a,
            w,
            e,
            record {
              identities = omega (arith, r.identities);
              identity_ok = inl (omega (arith, r.identities));
              wraps = r.wraps;
              wrap_ok = r.wrap_ok;
              extensions = r.extensions;
              expected = r.expected;
            },
            subst (λ x. Dialogue (suc a) w e (x ∷ ss))
                (same_line (str_eq_sound kind _ h₀) (is_identity_sound args named)
                  (eq_sound size 0 empty))
                (adds_identity a w e ss d),
          )
      by_kind false h₀ true h₁ b₂ h₂ b₃ h₃ r =
          let (no_args, body) = split (is_empty args) _ (last_holds w p.wraps r.wraps r.wrap_ok) in
          (
            a,
            suc w,
            e,
            record {
              identities = r.identities;
              identity_ok = r.identity_ok;
              wraps = omega (arith, r.wraps);
              wrap_ok = inl (omega (arith, r.wraps));
              extensions = r.extensions;
              expected = r.expected;
            },
            subst (λ x. Dialogue a (suc w) e (x ∷ ss))
                (same_line (str_eq_sound kind _ h₁) (is_empty_sound args no_args) refl)
                (wraps_key a w e size ss (ltb_sound size body) d),
          )
      by_kind false h₀ false h₁ true h₂ b₃ h₃ r =
          let (before, empty) = split _ (size == 0) r.expected in
          let (expected, no_args) = split p.expected (is_empty args) before in
          (
            a,
            w,
            suc e,
            record {
              identities = r.identities;
              identity_ok = r.identity_ok;
              wraps = r.wraps;
              wrap_ok = r.wrap_ok;
              extensions = omega (arith, r.extensions);
              expected = expected;
            },
            subst (λ x. Dialogue a w (suc e) (x ∷ ss))
                (same_line (str_eq_sound kind _ h₂) (is_empty_sound args no_args)
                  (eq_sound size 0 empty))
                (asks_labels a w e ss d),
          )
      by_kind false h₀ false h₁ false h₂ true h₃ r =
          (a, w, e, r, greases a w e kind args size ss h₃ d)
      by_kind false h₀ false h₁ false h₂ false h₃ r = cc
