-- ===== src/Evidence/Setup/Ambient.antt =====
-- The selected environment against the helper's own one.
use mathlib.Core.Path.{fun_ext}
use sacrysty.Prelude.{
  Bool, true, false, Option, map, ◌≡◌, refl, ap, ◌∙◌, ◌++◌, Str, codes, List, [], ◌∷◌,
  if◌then◌else◌,
}
use sacrysty.Custody.Environment.{Env, env_get}
use sacrysty.Evidence.{ProcessOutputPaths, is_probe, runner_receipt_path}
use sacrysty.Evidence.Files.{Disk, Denials}
use sacrysty.Evidence.Trace.{Platform}
use sacrysty.Evidence.Setup.{
  Paths, prepare, selected_environment, environment_of, environment_root, directory_below,
  private_directories, fixed_variables, darwin_variables, selected_tool, probe_variables,
}

-- The names that are read of the helper's environment have the same values in both.
pub record AgreesFor (mode : Str) (a b : Env) : Type 0 where
  pub path : env_get (codes "PATH") a ≡ env_get (codes "PATH") b
  pub tools :
      is_probe mode ≡ true
      → (env_get (codes "SQ") a ≡ env_get (codes "SQ") b)
        × (env_get (codes "SQV") a ≡ env_get (codes "SQV") b)

module _ (denials : Denials) (ps : Paths) (platform : Platform) (mode : Str)
    (p : ProcessOutputPaths) where
  probe_variables-same :
      (a b : Env) → AgreesFor mode a b → probe_variables mode a p ≡ probe_variables mode b p
  probe_variables-same a b h = by_mode (is_probe mode) h.tools
    where
      selected : Option Str → Option Str → Env
      selected sq sqv =
          selected_tool (codes "SQ") sq
          ++ (selected_tool (codes "SQV") sqv
              ++ ((codes "SACRYSTY_RUNNER_CLEANUP_RECEIPT", runner_receipt_path p.status) ∷ []))

      by_mode :
          (c : Bool)
          → (c ≡ true
              → (env_get (codes "SQ") a ≡ env_get (codes "SQ") b)
                × (env_get (codes "SQV") a ≡ env_get (codes "SQV") b))
          → (if c then selected (env_get (codes "SQ") a) (env_get (codes "SQV") a) else [])
            ≡ (if c then selected (env_get (codes "SQ") b) (env_get (codes "SQV") b) else [])
      by_mode true k =
          ap (λ o. selected o (env_get (codes "SQV") a)) (k refl).0
          ∙ ap (selected (env_get (codes "SQ") b)) (k refl).1
      by_mode false k = refl

  environment_of-same :
      (a b : Env) (path : Str)
      → AgreesFor mode a b
      → environment_of ps platform mode a p path ≡ environment_of ps platform mode b p path
  unfolding environment_of
  environment_of-same a b path h =
      ap
        (λ l.
          map (directory_below ps (environment_root ps p)) private_directories
          ++ (fixed_variables ps (environment_root ps p) path ++ (darwin_variables platform ++ l)))
        (probe_variables-same a b h)

  selected_environment-same :
      (a b : Env) (d : Disk)
      → AgreesFor mode a b
      → selected_environment denials ps platform mode a p d
        ≡ selected_environment denials ps platform mode b p d
  unfolding selected_environment
  selected_environment-same a b d h =
      let same = λ (path : Str). environment_of-same a b path h in simp (h.path, same)

  -- What comes before the process reads of the helper's environment only PATH, and in the mode of a
  -- probe SQ and SQV: environments that agree on them prepare the same environment, errors and files.
  pub prepare-ambient :
      (a b : Env) (command : List Str) (d : Disk)
      → AgreesFor mode a b
      → prepare denials ps platform mode a p command d
        ≡ prepare denials ps platform mode b p command d
  unfolding prepare
  prepare-ambient a b command d h =
      let same = fun_ext (λ d'. selected_environment-same a b d' h) in simp same
