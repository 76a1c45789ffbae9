-- ===== src/Evidence/Setup.antt =====
-- `_selected_environment`, and what `run_process` does before it starts the process.
pub mod Ambient
use sacrysty.Prelude.{
  Bool, true, ◌&&◌, not, Option, none, some, List, [], ◌∷◌, ◌++◌, map, any, is_empty, Str, codes,
  str_eq, mem, hexadecimal, if◌then◌else◌,
}
use sacrysty.Custody.Environment.{Env, env_get}
use sacrysty.Evidence.{
  ProcessLimits, ProcessOutputPaths, all_paths, limits_for, is_probe, cleanup_receipt_path,
  runner_receipt_path, runner_trace_path,
}
use sacrysty.Evidence.Files.{
  command_empty, paths_not_distinct, outputs_apart, path_exists, path_unavailable,
  environment_uncreatable, output_uncreatable, Denials, done, raises, Io, ◌>>=◌, ◌>>◌, give, throw,
  demand, create, make_directory, exists,
}
use sacrysty.Evidence.Trace.{Platform, initialize_runner_trace}

-- The path operations of pathlib: a path's target behind its links, its directory's target, its
-- directory, its name, and a path below a directory.
pub record Paths : Type 0 where
  pub resolve : Str → Str
  pub resolved_parent : Str → Str
  pub parent : Str → Str
  pub name : Str → Str
  pub below : Str → Str → Str

abbrev pub environment_root : Paths → ProcessOutputPaths → Str
environment_root ps p =
    ps.below (ps.parent p.status) (codes "." ++ (ps.name p.status ++ codes ".environment"))

abbrev pub private_directories : List (Str × Str)
private_directories =
    (codes "HOME", codes "home")
    ∷ (codes "TMPDIR", codes "tmp")
    ∷ (codes "XDG_CACHE_HOME", codes "xdg-cache")
    ∷ (codes "XDG_CONFIG_HOME", codes "xdg-config")
    ∷ (codes "XDG_DATA_HOME", codes "xdg-data")
    ∷ (codes "GNUPGHOME", codes "gnupg")
    ∷ []

abbrev directory_below : Paths → Str → Str × Str → Str × Str
directory_below ps root (variable, directory) = (variable, ps.below root directory)

abbrev fixed_variables : Paths → Str → Str → Env
fixed_variables ps root path =
    (codes "GIT_CONFIG_GLOBAL", ps.below root (codes "missing-global-gitconfig"))
    ∷ (codes "GIT_CONFIG_NOSYSTEM", codes "1")
    ∷ (codes "GIT_TERMINAL_PROMPT", codes "0")
    ∷ (codes "LANG", codes "C")
    ∷ (codes "LC_ALL", codes "C")
    ∷ (codes "PATH", path)
    ∷ (codes "PYTHONDONTWRITEBYTECODE", codes "1")
    ∷ []

abbrev darwin_variables : Platform → Env
darwin_variables platform =
    if str_eq platform.name (codes "darwin")
    then (codes "__CF_USER_TEXT_ENCODING", codes "0x" ++ (hexadecimal platform.uid ++ codes ":0:0"))
      ∷ []
    else []

-- `if selected: environment[name] = selected`
abbrev selected_tool : Str → Option Str → Env
selected_tool name none = []
selected_tool name (some value) = if is_empty value then [] else (name, value) ∷ []

abbrev probe_variables : Str → Env → ProcessOutputPaths → Env
probe_variables mode ambient p =
    if is_probe mode
    then selected_tool (codes "SQ") (env_get (codes "SQ") ambient)
      ++ (selected_tool (codes "SQV") (env_get (codes "SQV") ambient)
          ++ ((codes "SACRYSTY_RUNNER_CLEANUP_RECEIPT", runner_receipt_path p.status) ∷ []))
    else []

-- The environment, whose names are distinct.
unfoldable pub environment_of : Paths → Platform → Str → Env → ProcessOutputPaths → Str → Env
environment_of ps platform mode ambient p path =
    let root = environment_root ps p in
    map (directory_below ps root) private_directories
    ++ (fixed_variables ps root path
        ++ (darwin_variables platform ++ probe_variables mode ambient p))

abbrev path_of : Option Str → Io Str
path_of none = throw path_unavailable
path_of (some path) = if is_empty path then throw path_unavailable else give path

module _ (denials : Denials) (ps : Paths) (platform : Platform) where
  unfoldable pub make_directories : List (Str × Str) → Io (Unit {0})
  make_directories [] = give tt
  make_directories ((variable, directory) ∷ rest) = do
    make_directory denials directory environment_uncreatable
    make_directories rest

  unfoldable pub selected_environment : Str → Env → ProcessOutputPaths → Io Env
  unfolding make_directories
  selected_environment mode ambient p = do
    path ← path_of (env_get (codes "PATH") ambient)
    make_directory denials (environment_root ps p) environment_uncreatable
    make_directories (map (directory_below ps (environment_root ps p)) private_directories)
    give (environment_of ps platform mode ambient p path)

  abbrev no_repeat : List Str → Bool
  no_repeat [] = true
  no_repeat (x ∷ xs) = not (mem x xs) && no_repeat xs

  abbrev all_equal : List Str → Bool
  all_equal [] = true
  all_equal (x ∷ xs) = not (any (λ y. not (str_eq x y)) xs)

  abbrev reserved_paths : Str → ProcessOutputPaths → List Str
  reserved_paths mode p =
      all_paths p
      ++ (cleanup_receipt_path p.status
          ∷ runner_receipt_path p.status
          ∷ (if is_probe mode then runner_trace_path p.status ∷ [] else []))

  abbrev none_exist : List Str → Io (Unit {0})
  none_exist paths d =
      if any (λ path. exists path d) paths then (raises path_exists, d) else (done tt, d)

  abbrev begin_trace : Str → ProcessOutputPaths → Io (Unit {0})
  begin_trace mode p d = (
    done tt,
    if is_probe mode
        then initialize_runner_trace denials platform (runner_trace_path p.status) d
        else d,
  )

  -- From the head of `run_process` to its two output files.
  unfoldable pub prepare : Str → Env → ProcessOutputPaths → List Str → Io (ProcessLimits × Env)
  unfolding selected_environment
  prepare mode ambient p command = do
    limits ← limits_for mode
    demand (not (is_empty command)) command_empty
    demand (no_repeat (map ps.resolve (all_paths p))) paths_not_distinct
    demand (all_equal (map ps.resolved_parent (all_paths p))) outputs_apart
    none_exist (reserved_paths mode p)
    environment ← selected_environment mode ambient p
    begin_trace mode p
    create denials p.stdout [] output_uncreatable
    create denials p.stderr [] output_uncreatable
    give (limits, environment)
