-- ===== src/Custody/Environment.antt =====
-- `_scrub_environment`.
use sacrysty.Prelude.{
  Bool, false, ◌||◌, not, Option, none, some, List, [], ◌∷◌, ◌≡◌, inl, inr, Str, codes, mem, str_eq,
  str_eq_iff, is_empty, arith, if◌then◌else◌, Bool-cases,
}

abbrev pub Env : Type 0
Env = List (Str × Str)

unfoldable pub env_get : Str → Env → Option Str
env_get k [] = none
env_get k ((j, v) ∷ e) = if str_eq k j then some v else env_get k e

-- Python's truth of `source.get(name)`.
abbrev pub is_set : Option Str → Bool
is_set none = false
is_set (some v) = not (is_empty v)

abbrev pub allowed : List Str
allowed = codes "PATH" ∷ codes "HOME" ∷ codes "LANG" ∷ codes "LC_ALL" ∷ codes "TMPDIR" ∷ []

unfoldable pub keep_allowed : Env → Env
keep_allowed [] = []
keep_allowed ((k, v) ∷ e) =
    let rest = keep_allowed e in if mem k allowed then (k, v) ∷ rest else rest

-- `none` is the CustodyError "debugging environment is forbidden".
unfoldable pub scrub_environment : Option Env → Env → Option Env
unfolding keep_allowed
scrub_environment source environ =
    let chosen : Env = elim source [ none ↦ environ | some e ↦ e ] in
    if is_set (env_get (codes "AGEDEBUG") chosen) || is_set (env_get (codes "RUST_LOG") chosen)
    then none
    else some (keep_allowed chosen)

keep_allowed-get :
    (k : Str) (e : Env) → env_get k (keep_allowed e) ≡ (if mem k allowed then env_get k e else none)
unfolding keep_allowed env_get
keep_allowed-get k [] = ground arith
keep_allowed-get k ((j, v) ∷ e) = elim (Bool-cases (mem j allowed)) [
  | inl kept ↦ rw kept (ground (arith, keep_allowed-get k e, str_eq_iff k j))
  | inr dropped ↦ rw dropped (ground (arith, keep_allowed-get k e, str_eq_iff k j))
]

abbrev pub chosen : Option Env → Env → Env
chosen none environ = environ
chosen (some e) environ = e

-- In a scrubbed environment each allowed name has the value that the source gives it, every other
-- name is absent, and the source sets no debugging variable.
pub scrub_environment-get :
    (source : Option Env) (environ result : Env) (k : Str)
    → scrub_environment source environ ≡ some result
    → (env_get k result ≡ (if mem k allowed then env_get k (chosen source environ) else none))
      × (is_set (env_get (codes "AGEDEBUG") (chosen source environ)) ≡ false)
      × (is_set (env_get (codes "RUST_LOG") (chosen source environ)) ≡ false)
unfolding scrub_environment
scrub_environment-get none environ result k h = ground (arith, keep_allowed-get k environ)
scrub_environment-get (some e) environ result k h = ground (arith, keep_allowed-get k e)
