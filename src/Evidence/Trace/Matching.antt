-- ===== src/Evidence/Trace/Matching.antt =====
-- The matcher of the runner's trace against the meaning of its expressions.
use sacrysty.Prelude.{
  ℕ, Bool, true, false, Option, none, some, List, [], ◌∷◌, ◌++◌, ◌≡◌, refl, ap, sym, ◌∙◌, ◌↔◌, Str,
  Bytes, all, is_empty, ◌==◌, ==_iff, arith, &&_parts, if◌then◌else◌,
}
use sacrysty.Evidence.Trace.Pattern.{
  Piece, literal, some_of, skip_literal, skip_run, skip_class, skip, full_match, match_rest, Stands,
  Matches, begins_outside, is_separated, go_on,
}

go_on-eq-some :
    (b : Bool) (o : Option Bytes) {r : Bytes} → go_on b o ≡ some r → (b ≡ true) × (o ≡ some r)
go_on-eq-some true o h = (refl, h)
go_on-eq-some false o h = cc

skip_literal_sound :
    (l : Str) (s : Bytes) {rest : Bytes} → skip_literal l s ≡ some rest → s ≡ l ++ rest
unfolding skip_literal
skip_literal_sound [] s h = some_eq h
  where
    some_eq : {x y : Bytes} → some x ≡ some y → x ≡ y
    some_eq h = cc
skip_literal_sound (c ∷ l) [] h = cc
skip_literal_sound (c ∷ l) (d ∷ s) {rest = rest} h =
    let (same, h') = go_on-eq-some (c == d) (skip_literal l s) h in
    ap (λ x. x ∷ s) (sym ((==_iff c d).0 same)) ∙ ap (λ t. c ∷ t) (skip_literal_sound l s h')

-- The longest run: what it holds is in the class.
skip_run_sound : (p : ℕ → Bool) (s : Bytes) → (a : Str) × (s ≡ a ++ skip_run p s) × (all p a ≡ true)
unfolding skip_run
skip_run_sound p [] = ([], refl, refl)
skip_run_sound p (c ∷ s) = let (a, e, h) = skip_run_sound p s in at_head (p c) refl (a, e, h)
  where
    at_head :
        (b : Bool)
        → p c ≡ b
        → ((a : Str) × (s ≡ a ++ skip_run p s) × (all p a ≡ true))
        → (a : Str) × ((c ∷ s) ≡ a ++ (if b then skip_run p s else c ∷ s)) × (all p a ≡ true)
    at_head true e (a, f, h) = (c ∷ a, ap (λ t. c ∷ t) f, ground arith)
    at_head false e (a, f, h) = ([], refl, refl)

skip_sound :
    (piece : Piece) (s : Bytes) {rest : Bytes}
    → skip piece s ≡ some rest
    → (a : Str) × (s ≡ a ++ rest) × Stands piece a
unfolding skip_class
skip_sound (literal l) s h = (l, skip_literal_sound l s h, refl)
skip_sound (some_of p) [] h = cc
skip_sound (some_of p) (c ∷ s) h =
    let (holds, ends) = go_on-eq-some (p c) _ h in
    let (a, e, k) = skip_run_sound p s in
    (c ∷ a, ap (λ t. c ∷ t) (e ∙ ap (λ r. a ++ r) (some_eq ends)), (refl, ground arith))
  where
    some_eq : {x y : Bytes} → some x ≡ some y → x ≡ y
    some_eq h = cc

empty_sound : (s : Bytes) → is_empty s ≡ true → s ≡ []
empty_sound [] h = refl
empty_sound (c ∷ s) h = cc

full_match_sound : (pieces : List Piece) (s : Bytes) → full_match pieces s ≡ true → Matches pieces s
unfolding full_match
full_match_sound [] s h = empty_sound s h
full_match_sound (piece ∷ pieces) s h = skipped (skip piece s) refl h (full_match_sound pieces)
  where
    skipped :
        (o : Option Bytes)
        → skip piece s ≡ o
        → match_rest (full_match pieces) o ≡ true
        → ((rest : Bytes) → full_match pieces rest ≡ true → Matches pieces rest)
        → Matches (piece ∷ pieces) s
    skipped none e h ih = cc
    skipped (some rest) e h ih = let (a, f, k) = skip_sound piece s e in (a, rest, f, k, ih rest h)

skip_literal-append : (l : Str) (s : Bytes) → skip_literal l (l ++ s) ≡ some s
unfolding skip_literal
skip_literal-append [] s = refl
skip_literal-append (c ∷ l) s = rw ((==_iff c c).1 refl) (skip_literal-append l s)

skip_run-append :
    (p : ℕ → Bool) (a : Str) (s : Bytes) → all p a ≡ true → skip_run p (a ++ s) ≡ skip_run p s
unfolding skip_run
skip_run-append p [] s h = refl
skip_run-append p (c ∷ a) s h =
    let (holds, rest) = &&_parts (p c) (all p a) h in rw holds (skip_run-append p a s rest)

-- What begins outside the class is no part of the run.
skip_run-outside :
    (p : ℕ → Bool) (pieces : List Piece) (s : Bytes)
    → begins_outside p pieces ≡ true
    → Matches pieces s
    → skip_run p s ≡ s
unfolding skip_run
skip_run-outside p [] s h m = rw m refl
skip_run-outside p (literal [] ∷ pieces) s h m = cc
skip_run-outside p (literal (c ∷ l) ∷ pieces) s h (a, b, e, k, m) =
    rw (e ∙ ap (λ x. x ++ b) k) (ground arith)
skip_run-outside p (some_of q ∷ pieces) s h m = cc

full_match_complete :
    (pieces : List Piece) (s : Bytes)
    → is_separated pieces ≡ true
    → Matches pieces s
    → full_match pieces s ≡ true
unfolding full_match skip_class
full_match_complete [] s h m = rw m refl
full_match_complete (literal l ∷ pieces) s h (a, b, e, k, m) =
    ap (λ t. match_rest (full_match pieces) (skip_literal l t)) (e ∙ ap (λ x. x ++ b) k)
    ∙ ap (match_rest (full_match pieces)) (skip_literal-append l b)
    ∙ full_match_complete pieces b h m
full_match_complete (some_of p ∷ pieces) s h ([], b, e, (k, k'), m) = cc
full_match_complete (some_of p ∷ pieces) s h (c ∷ a, b, e, (k, k'), m) =
    let (outside, rest) = &&_parts (begins_outside p pieces) (is_separated pieces) h in
    let (first, others) = &&_parts (p c) (all p a) k' in
    let run = skip_run-append p a b others ∙ skip_run-outside p pieces b outside m in
    ap (λ t. match_rest (full_match pieces) (skip_class p t)) e
    ∙ ap (λ x. match_rest (full_match pieces) (go_on x (some (skip_run p (a ++ b))))) first
    ∙ ap (full_match pieces) run
    ∙ full_match_complete pieces b rest m

-- Let no class of the expression be followed by a class, or by a literal text that begins inside it.
-- Then `full_match` accepts exactly the texts that the expression stands for.
pub full_match_lem :
    (pieces : List Piece) (s : Bytes)
    → is_separated pieces ≡ true
    → (full_match pieces s ≡ true) ↔ Matches pieces s
full_match_lem pieces s h = (full_match_sound pieces s, full_match_complete pieces s h)
