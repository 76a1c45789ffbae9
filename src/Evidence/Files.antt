-- ===== src/Evidence/Files.antt =====
-- The files that conformance/sq_evidence_process.py reads and writes, and its errors.
pub mod Post
use sacrysty.Prelude.{
  ℕ, Bool, true, false, ◌||◌, not, Option, none, some, List, [], ◌∷◌, Str, Bytes, str_eq, mem,
  if◌then◌else◌,
}
use sacrysty.ProcessGroups.{GroupError}

pub data Stream : Type 0 where
  stdout stderr : Stream

-- `ProcessBoundaryError` by its message. `interrupted` is ProcessInterrupted and `ownership_lost` is
-- _ProcessOwnershipLost; `with_lifecycle` is the message that the runner's trace is added to.
pub data BoundaryError : Type 0 where
  command_empty paths_not_distinct outputs_apart path_exists path_unavailable : BoundaryError
  environment_uncreatable output_uncreatable not_started pipes_unavailable timed_out : BoundaryError
  no_exit_status file_bound_failed file_limit setup_failed cleanup_unconfirmed : BoundaryError
  cleanup_receipt_unwritable cleanup_receipt_invalid cleanup_receipt_unavailable
        runner_receipt_invalid runner_receipt_unavailable :
      BoundaryError
  status_unwritable interrupted ownership_lost : BoundaryError
  unknown_mode : Str → BoundaryError
  stream_limit : Stream → BoundaryError
  group : GroupError → BoundaryError
  with_lifecycle : BoundaryError → Str → BoundaryError

-- The files by their paths, and the directories that were made. A file that was removed is looked
-- up no more.
pub record Disk : Type 0 where
  pub files : List (Str × Bytes)
  pub directories : List Str

-- What the system denies by a path: creating, reading and removing.
pub record Denials : Type 0 where
  pub creating : Str → Bool
  pub reading : Str → Bool
  pub removing : Str → Bool

unfoldable pub content : Str → List (Str × Bytes) → Option Bytes
content path [] = none
content path ((p, bytes) ∷ files) = if str_eq path p then some bytes else content path files

unfoldable pub without : Str → List (Str × Bytes) → List (Str × Bytes)
without path [] = []
without path ((p, bytes) ∷ files) =
    let rest = without path files in if str_eq path p then rest else (p, bytes) ∷ rest

abbrev pub is_some {ℓ} : {A : Type ℓ} → Option A → Bool
is_some none = false
is_some (some a) = true

abbrev pub exists : Str → Disk → Bool
exists path d = is_some (content path d.files) || mem path d.directories

pub data Result {ℓ} (A : Type ℓ) : Type ℓ where
  done : A → Result A
  raises : BoundaryError → Result A

abbrev pub Io : Type 0 → Type 0
Io A = Disk → Result A × Disk

abbrev pub carry : {A B : Type 0} → Result A → (A → Io B) → Io B
carry (done a) next d = next a d
carry (raises e) next d = (raises e, d)

infixl 5 ◌>>=◌
abbrev pub ◌>>=◌ : {A B : Type 0} → Io A → (A → Io B) → Io B
◌>>=◌ first next d = let (r, d') = first d in carry r next d'

infixl 5 ◌>>◌
abbrev pub ◌>>◌ : {A B : Type 0} → Io A → Io B → Io B
first >> next = first >>= λ _. next

abbrev pub give : {A : Type 0} → A → Io A
give a d = (done a, d)

abbrev pub throw : {A : Type 0} → BoundaryError → Io A
throw e d = (raises e, d)

abbrev pub demand : Bool → BoundaryError → Io (Unit {0})
demand true e = give tt
demand false e = throw e

abbrev pub from_option : {A : Type 0} → Option A → BoundaryError → Io A
from_option none e = throw e
from_option (some a) e = give a

module _ (denials : Denials) where
  abbrev put_file : Str → Bytes → Disk → Disk
  put_file path bytes d = record d { files = (path, bytes) ∷ d.files }

  -- `open(path, "xb")` and the write: an OSError is raised as the given error.
  unfoldable pub create : Str → Bytes → BoundaryError → Io (Unit {0})
  create path bytes e d =
      if denials.creating path || exists path d
      then (raises e, d)
      else (done tt, put_file path bytes d)

  -- `path.read_bytes()`, none for an OSError.
  unfoldable pub read_file : Str → Disk → Option Bytes
  read_file path d = if denials.reading path then none else content path d.files

  unfoldable pub unlink : Str → BoundaryError → Io (Unit {0})
  unlink path e d =
      if denials.removing path || not (is_some (content path d.files))
      then (raises e, d)
      else (done tt, record d { files = without path d.files })

  -- `path.mkdir(mode=0o700)`
  unfoldable pub make_directory : Str → BoundaryError → Io (Unit {0})
  make_directory path e d =
      if denials.creating path || exists path d
      then (raises e, d)
      else (done tt, record d { directories = path ∷ d.directories })
