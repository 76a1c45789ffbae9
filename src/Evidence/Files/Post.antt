-- ===== src/Evidence/Files/Post.antt =====
-- Postconditions on the file operations, by how a call ends, with the rule for bind.
use sacrysty.Prelude.{
  Bool, true, false, ◌≡◌, refl, ◌||◌, Option, none, some, ◌∷◌, Str, Bytes, str_eq, str_eq_refl,
  if◌then◌else◌,
}
use sacrysty.Evidence.Files.{
  Disk, Denials, BoundaryError, Result, done, raises, Io, carry, demand, from_option, create,
  content, exists,
}

abbrev pub Post :
    {A : Type 0} → (A → Disk → Type 0) → (BoundaryError → Disk → Type 0) → Result A × Disk → Type 0
Post Q E (done a, d) = Q a d
Post Q E (raises e, d) = E e d

if-true : (b : Bool) {x : Bytes} (o : Option Bytes) → b ≡ true → (if b then some x else o) ≡ some x
if-true true o e = refl
if-true false o e = cc

module _ (E : BoundaryError → Disk → Type 0) where
  pub Post-bind :
      {A B : Type 0} (Q : A → Disk → Type 0) (R : B → Disk → Type 0) (r : Result A × Disk)
      (next : A → Io B)
      → Post Q E r
      → ((a : A) (d : Disk) → Q a d → Post R E (next a d))
      → Post R E (carry r.0 next r.1)
  Post-bind Q R (done a, d) next h k = k a d h
  Post-bind Q R (raises e, d) next h k = h

  pub demand-Post :
      (b : Bool) (x : BoundaryError) (d : Disk) (Q : Unit {0} → Disk → Type 0)
      → (b ≡ true → Q tt d)
      → E x d
      → Post Q E (demand b x d)
  demand-Post true x d Q h k = h refl
  demand-Post false x d Q h k = k

  pub from_option-Post :
      {A : Type 0} (o : Option A) (x : BoundaryError) (d : Disk) (Q : A → Disk → Type 0)
      → ((a : A) → o ≡ some a → Q a d)
      → E x d
      → Post Q E (from_option o x d)
  from_option-Post none x d Q h k = k
  from_option-Post (some a) x d Q h k = h a refl

  module _ (denials : Denials) where
    -- A created file is new and holds what was written; every other file holds what it held.
    pub create-Post :
        (path : Str) (bytes : Bytes) (x : BoundaryError) (d : Disk) (Q : Unit {0} → Disk → Type 0)
        → ((d' : Disk)
            → exists path d ≡ false
            → content path d'.files ≡ some bytes
            → ((other : Str)
                → content other d'.files
                  ≡ (if str_eq other path then some bytes else content other d.files))
            → Q tt d')
        → E x d
        → Post Q E (create denials path bytes x d)
    unfolding create content
    create-Post path bytes x d Q h k = by_tests (denials.creating path) (exists path d) refl
      where
        by_tests :
            (a b : Bool)
            → exists path d ≡ b
            → Post Q E (
                if a || b
                then (raises x, d)
                else (done tt, record d { files = (path, bytes) ∷ d.files }))
        by_tests true b e = k
        by_tests false true e = k
        by_tests false false e =
            h _ e (if-true (str_eq path path) (content path d.files) (str_eq_refl path))
              (λ other. refl)
