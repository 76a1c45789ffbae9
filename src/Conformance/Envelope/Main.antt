-- ===== src/Conformance/Envelope/Main.antt =====
-- conformance/check-domain-model.py: `main` over the fixtures, each a name and its bytes, or none for
-- an OSError.
use sacrysty.Prelude.{
  ℕ, Bool, true, false, Option, none, some, List, [], ◌∷◌, ◌++◌, ◌+◌, not, Str, Bytes, codes,
  length,
}
use sacrysty.Json.{Value, lookup, Fields}
use sacrysty.Conformance.{
  Verdict, accepted, rejected, type_error, value_error, key_error, unfinished, ◌>>=◌, ◌>>◌, require,
}
use sacrysty.Conformance.Envelope.{parse_serialized_envelope, option_is_text}
use sacrysty.Conformance.Envelope.Matcher.{envelope_admissible}

abbrev pub Fixture : Type 0
Fixture = Str × Option Bytes

-- A record, or none where strict parsing rejects the bytes: main catches that error by itself.
abbrev loaded_of : Verdict Value → Verdict (Option Value)
loaded_of (accepted v) = accepted (some v)
loaded_of (rejected message) = accepted none
loaded_of type_error = type_error
loaded_of value_error = value_error
loaded_of key_error = key_error
loaded_of unfinished = unfinished

unfoldable pub load_envelope_fixture : Fixture → Verdict (Option Value)
load_envelope_fixture (name, none) = rejected (codes "fixture is not readable: " ++ name)
load_envelope_fixture (name, some bytes) = loaded_of (parse_serialized_envelope bytes)

abbrev nonempty : List Fixture → Bool
nonempty [] = false
nonempty (f ∷ fixtures) = true

module _ (compiles : Str → Bool) (search : Str → Str → Bool) (fuel : ℕ) (schema : Value) where
  abbrev check_canonical_fixture : Str → Option Value → Verdict (Unit {0})
  check_canonical_fixture name (some v) = do
    admissible ← envelope_admissible compiles search fuel v schema
    require admissible (codes "canonical envelope fixture rejected: " ++ name)
  check_canonical_fixture name none =
      rejected (codes "canonical envelope fixture is not strict JSON: " ++ name)

  unfoldable pub check_canonical : List Fixture → Verdict (Unit {0})
  check_canonical [] = accepted tt
  check_canonical ((name, file) ∷ fixtures) = do
    loaded ← load_envelope_fixture (name, file)
    check_canonical_fixture name loaded
    check_canonical fixtures

  -- The number of rejections at strict parsing that one fixture adds.
  abbrev check_hostile_fixture : Str → Option Value → Verdict ℕ
  check_hostile_fixture name (some v) = do
    admissible ← envelope_admissible compiles search fuel v schema
    require (not admissible) (codes "hostile envelope fixture unexpectedly admitted: " ++ name)
    accepted 0
  check_hostile_fixture name none = accepted 1

  unfoldable pub check_hostile : List Fixture → ℕ → Verdict ℕ
  check_hostile [] rejections = accepted rejections
  check_hostile ((name, file) ∷ fixtures) rejections = do
    loaded ← load_envelope_fixture (name, file)
    more ← check_hostile_fixture name loaded
    check_hostile fixtures (rejections + more)

  -- The numbers that main prints: of the canonical fixtures, of the hostile ones, and of those that
  -- strict parsing rejects. The schema is an object.
  unfoldable pub run : Fields → List Fixture → List Fixture → Verdict (ℕ × ℕ × ℕ)
  run root canonical hostile = do
    require
        (option_is_text (lookup (codes "$id") root)
          (codes "https://sacrysty.nisavid.io/schemas/public-record-envelope/v1"))
        (codes "public-record envelope schema identity mismatch")
    require (nonempty canonical) (codes "no canonical public-record fixtures found")
    check_canonical canonical
    require (nonempty hostile) (codes "no hostile public-record fixtures found")
    rejections ← check_hostile hostile 0
    accepted (length canonical, length hostile, rejections)
