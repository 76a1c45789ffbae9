-- ===== src/WorkerProbe/Phase.antt =====
-- The plugin's first phase, `read_phase`, and the probe's test of what the plugin left, `fixture_ok`.
pub mod Dialogue
pub mod Premises
use sacrysty.Prelude.{
  ℕ, zero, suc, Bool, true, false, ◌&&◌, Option, none, some, List, [], ◌∷◌, Str, codes, str_eq, all,
  ltb, is_empty, ◌==◌, if◌then◌else◌,
}
use sacrysty.Json.{Value, object, Fields, lookup, is_true}
use sacrysty.WorkerProbe.Stanza.{Input, stanza, ended, failed, read_stanza, begins_with}

-- The counts and the flags of the loop.
pub record Phase : Type 0 where
  pub identities : ℕ
  pub wraps : ℕ
  pub extensions : ℕ
  pub identity_ok : Bool
  pub wrap_ok : Bool
  pub done_ok : Bool
  pub expected : Bool

abbrev pub first_phase : Phase
first_phase = record {
  identities = 0;
  wraps = 0;
  extensions = 0;
  identity_ok = false;
  wrap_ok = false;
  done_ok = false;
  expected = true;
}

abbrev pub identity : Str
identity = codes "AGE-PLUGIN-TEST-10Q32NLXM"

abbrev pub is_identity : List Str → Bool
is_identity (a ∷ []) = str_eq a identity
is_identity _ = false

-- One stanza that does not end the phase.
unfoldable pub take_stanza : Str → List Str → ℕ → Phase → Phase
take_stanza kind args size p =
    if str_eq kind (codes "add-identity")
    then record p { identities = suc p.identities; identity_ok = is_identity args && size == 0 }
    else if str_eq kind (codes "wrap-file-key")
    then record p { wraps = suc p.wraps; wrap_ok = is_empty args && ltb 0 size }
    else if str_eq kind (codes "extension-labels")
    then record p {
      extensions = suc p.extensions;
      expected = p.expected && is_empty args && size == 0;
    }
    else if begins_with (codes "grease-") kind
    then p
    else record p { expected = false }

abbrev pub ends_phase : Str → Bool
ends_phase kind = str_eq kind (codes "done")

-- At most so many stanzas; none for an exception.
unfoldable pub read_stanzas : ℕ → Input → Phase → Option Phase
unfolding take_stanza
read_stanzas zero i p = some p
read_stanzas (suc n) i p = elim (read_stanza i).0 [
  | failed ↦ none
  | ended ↦ some p
  | stanza kind args size ↦ elim (ends_phase kind) [
    | true ↦ some (record p { done_ok = is_empty args && size == 0 })
    | false ↦ read_stanzas n (read_stanza i).1 (take_stanza kind args size p)
  ]
]

-- The trace that the phase saves.
pub record Trace : Type 0 where
  pub argv : Bool
  pub identity : Bool
  pub wrap : Bool
  pub extension : Bool
  pub done : Bool
  pub expected : Bool
  pub premises : Bool

abbrev pub all_hold : Bool → Phase → Bool
all_hold argv p =
    argv
    && (p.identities == 1 && p.identity_ok)
    && (p.wraps == 1 && p.wrap_ok)
    && p.extensions == 1
    && p.done_ok
    && p.expected

unfoldable pub trace_of : Bool → Phase → Trace
trace_of argv p = record {
  argv = argv;
  identity = p.identities == 1 && p.identity_ok;
  wrap = p.wraps == 1 && p.wrap_ok;
  extension = p.extensions == 1;
  done = p.done_ok;
  expected = p.expected;
  premises = all_hold argv p;
}

abbrev pub map_option : {A B : Type 0} → (A → B) → Option A → Option B
map_option f none = none
map_option f (some a) = some (f a)

unfoldable pub read_phase : Bool → Input → Option Trace
unfolding read_stanzas trace_of
read_phase argv i = map_option (trace_of argv) (read_stanzas 20 i first_phase)

abbrev has_true : Option Value → Bool
has_true none = false
has_true (some v) = is_true v

-- `trace.get(k) is True`
abbrev holds : Fields → Str → Bool
holds trace k = has_true (lookup k trace)

abbrev flags : List Str
flags =
    codes "argv"
    ∷ codes "identity"
    ∷ codes "wrap"
    ∷ codes "extension"
    ∷ codes "done"
    ∷ codes "expected"
    ∷ []

-- The saved trace, as it is read from the plugin's file.
unfoldable pub fixture_ok : Value → Bool
fixture_ok (object trace) = holds trace (codes "premises") && all (holds trace) flags
fixture_ok _ = false
