-- ===== src/WorkerProbe/Phase/Premises.antt =====
-- What the plugin read where its premises hold.
use mathlib.Core.Path.{subst}
use sacrysty.Prelude.{
  ℕ, zero, suc, ◌+◌, Bool, true, false, ◌≡◌, refl, sym, ap, ◌∙◌, inr, ◌&&◌, arith, Option, none,
  some, List, [], ◌∷◌, Str, str_eq_sound, is_empty, ◌==◌,
}
use sacrysty.WorkerProbe.Stanza.{Input, Reading, stanza, ended, failed, read_stanza}
use sacrysty.WorkerProbe.Phase.{
  Phase, Trace, first_phase, identity, take_stanza, ends_phase, read_stanzas, trace_of, map_option,
  read_phase,
}
use sacrysty.WorkerProbe.Phase.Dialogue.{
  stanzas, Dialogue, ends, Rest, Follows, split, eq_sound, is_empty_sound, same_line,
  take_stanza-done_ok, take_stanza-Follows,
}

-- The phase as `premises` asks for it.
record IsGood (q : Phase) : Type 0 where
  one_identity : q.identities ≡ 1
  identity_ok : q.identity_ok ≡ true
  one_wrap : q.wraps ≡ 1
  wrap_ok : q.wrap_ok ≡ true
  one_extension : q.extensions ≡ 1
  done_ok : q.done_ok ≡ true
  expected : q.expected ≡ true

some_eq : {p q : Phase} → some p ≡ some q → p ≡ q
some_eq e = cc

not_done : {A : Type 0} (p q : Phase) → p.done_ok ≡ false → p ≡ q → IsGood q → A
not_done p q n e g = elim (both (sym n ∙ ap (λ x. x.done_ok) e ∙ g.done_ok)) [ ]
  where
    both : ¬ (false ≡ true)
    both h = cc

finish-Follows :
    (p q : Phase) (kind : Str) (args : List Str) (size : ℕ)
    → ends_phase kind ≡ true
    → record p { done_ok = is_empty args && size == 0 } ≡ q
    → IsGood q
    → Follows p ((kind, args, size) ∷ [])
finish-Follows p q kind args size h e g =
    let (no_args, empty) = split (is_empty args) (size == 0) (ap (λ x. x.done_ok) e ∙ g.done_ok) in
    (
      0,
      0,
      0,
      record {
        identities = omega (arith, ap (λ x. x.identities) e, g.one_identity);
        identity_ok = inr (ap (λ x. x.identity_ok) e ∙ g.identity_ok);
        wraps = omega (arith, ap (λ x. x.wraps) e, g.one_wrap);
        wrap_ok = inr (ap (λ x. x.wrap_ok) e ∙ g.wrap_ok);
        extensions = omega (arith, ap (λ x. x.extensions) e, g.one_extension);
        expected = ap (λ x. x.expected) e ∙ g.expected;
      },
      subst (λ x. Dialogue 0 0 0 (x ∷ []))
          (same_line (str_eq_sound kind _ h) (is_empty_sound args no_args) (eq_sound size 0 empty))
          ends,
    )

read_stanzas-Follows :
    (n : ℕ) (i : Input) (p q : Phase)
    → p.done_ok ≡ false
    → read_stanzas n i p ≡ some q
    → IsGood q
    → Follows p (stanzas n i)
unfolding read_stanzas
read_stanzas-Follows zero i p q h e g = not_done p q h (some_eq e) g
read_stanzas-Follows (suc n) i p q h e g =
    by_reading (read_stanza i).0 (λ p' h' e'. read_stanzas-Follows n (read_stanza i).1 p' q h' e' g)
      e
  where
    by_kind :
        (kind : Str) (args : List Str) (size : ℕ) (b : Bool)
        → ends_phase kind ≡ b
        → ((p' : Phase)
            → p'.done_ok ≡ false
            → read_stanzas n (read_stanza i).1 p' ≡ some q
            → Follows p' (stanzas n (read_stanza i).1))
        → (elim b as (λ x. Option Phase) [
          | true ↦ some (record p { done_ok = is_empty args && size == 0 })
          | false ↦ read_stanzas n (read_stanza i).1 (take_stanza kind args size p)
        ])
          ≡ some q
        → Follows p (
            (kind, args, size) ∷ elim b as (λ x. List (Str × List Str × ℕ)) [
              | true ↦ []
              | false ↦ stanzas n (read_stanza i).1
            ])
    by_kind kind args size true d again e = finish-Follows p q kind args size d (some_eq e) g
    by_kind kind args size false d again e =
        take_stanza-Follows kind args size p _
          (again _ (take_stanza-done_ok kind args size p [] ∙ h) e)

    by_reading :
        (r : Reading)
        → ((p' : Phase)
            → p'.done_ok ≡ false
            → read_stanzas n (read_stanza i).1 p' ≡ some q
            → Follows p' (stanzas n (read_stanza i).1))
        → (elim r as (λ x. Option Phase) [
          | failed ↦ none
          | ended ↦ some p
          | stanza kind args size ↦ elim (ends_phase kind) [
            | true ↦ some (record p { done_ok = is_empty args && size == 0 })
            | false ↦ read_stanzas n (read_stanza i).1 (take_stanza kind args size p)
          ]
        ])
          ≡ some q
        → Follows p (elim r as (λ x. List (Str × List Str × ℕ)) [
          | failed ↦ []
          | ended ↦ []
          | stanza kind args size ↦
              (kind, args, size)
              ∷ elim (ends_phase kind) [ true ↦ [] | false ↦ stanzas n (read_stanza i).1 ]
        ])
    by_reading failed again e = cc
    by_reading ended again e = not_done p q h (some_eq e) g
    by_reading (stanza kind args size) again e =
        by_kind kind args size (ends_phase kind) refl again e

trace-IsGood :
    (argv : Bool) (o : Option Phase) {t : Trace}
    → map_option (trace_of argv) o ≡ some t
    → t.premises ≡ true
    → (argv ≡ true) × ((q : Phase) × (o ≡ some q) × IsGood q)
unfolding trace_of
trace-IsGood argv none e h = cc
trace-IsGood argv (some q) {t = t} e h =
    let (before, expected) = split _ q.expected (ap (λ x. x.premises) (same e) ∙ h) in
    let (before, done_ok) = split _ q.done_ok before in
    let (before, extension) = split _ (q.extensions == 1) before in
    let (before, wrap) = split _ (q.wraps == 1 && q.wrap_ok) before in
    let (arguments, identity) = split argv (q.identities == 1 && q.identity_ok) before in
    let (one_identity, identity_ok) = split (q.identities == 1) q.identity_ok identity in
    let (one_wrap, wrap_ok) = split (q.wraps == 1) q.wrap_ok wrap in
    (
      arguments,
      (
        q,
        refl,
        record {
          one_identity = eq_sound q.identities 1 one_identity;
          identity_ok = identity_ok;
          one_wrap = eq_sound q.wraps 1 one_wrap;
          wrap_ok = wrap_ok;
          one_extension = eq_sound q.extensions 1 extension;
          done_ok = done_ok;
          expected = expected;
        },
      ),
    )
  where
    same : {x y : Trace} → some x ≡ some y → x ≡ y
    same e = cc

from_start :
    {a w e : ℕ} {ss : List (Str × List Str × ℕ)}
    → Rest first_phase a w e
    → Dialogue a w e ss
    → Dialogue 1 1 1 ss
from_start {a = a} {w = w} {e = e} {ss = ss} r d =
    let first : Dialogue 1 w e ss = subst (λ x. Dialogue x w e ss) (one a r.identities) d in
    let second : Dialogue 1 1 e ss = subst (λ x. Dialogue 1 x e ss) (one w r.wraps) first in
    subst (λ x. Dialogue 1 1 x ss) (one e r.extensions) second
  where
    one : (n : ℕ) → n + 0 ≡ 1 → n ≡ 1
    one n h = omega (arith, h)

-- If the first phase ends with no exception and its premises hold, then the arguments were the
-- expected ones, and the plugin read exactly one identity, the expected one, with an empty body;
-- exactly one file key, with no arguments and a body that is not empty; exactly one request for
-- labels, with no arguments and an empty body; in any order, with no other stanza but grease; and
-- then "done", with no arguments and an empty body.
pub read_phase-Dialogue :
    (argv : Bool) (i : Input) (t : Trace)
    → read_phase argv i ≡ some t
    → t.premises ≡ true
    → (argv ≡ true) × Dialogue 1 1 1 (stanzas 20 i)
unfolding read_phase
read_phase-Dialogue argv i t h premises =
    let (arguments, (q, e, g)) = trace-IsGood argv (read_stanzas 20 i first_phase) h premises in
    let (a, w, x, r, d) = read_stanzas-Follows 20 i first_phase q refl e g in
    (arguments, from_start r d)
