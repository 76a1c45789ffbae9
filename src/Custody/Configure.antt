-- ===== src/Custody/Configure.antt =====
-- `_normalize_timeout_seconds` and `OneShotCustodyAdapter.__init__`.
use sacrysty.Prelude.{
  ℕ, zero, suc, ◌<◌, Bool, true, false, ◌||◌, Option, none, some, List, ◌≡◌, refl, Str, is_empty,
  any, arith, ℤ, pos, negsuc, if◌then◌else◌,
}
use sacrysty.Custody.{CustodyError, debugging_forbidden}
use sacrysty.Custody.Environment.{Env, scrub_environment}

-- A Python float: not a number, an infinity, or a finite value, of which the sign decides.
-- A finite value is held in whole nanoseconds, rounded up.
pub data Float : Type 0 where
  nan infinity : Float
  finite : ℤ → Float

-- An argument of any type: a bool, another number that `float` converts or refuses, or no Real.
pub data TimeoutArgument : Type 0 where
  bool_argument not_real : TimeoutArgument
  real : Option Float → TimeoutArgument

-- `none` is the ValueError.
unfoldable pub normalize_timeout_seconds : TimeoutArgument → Option ℕ
normalize_timeout_seconds bool_argument = none
normalize_timeout_seconds not_real = none
normalize_timeout_seconds (real none) = none
normalize_timeout_seconds (real (some nan)) = none
normalize_timeout_seconds (real (some infinity)) = none
normalize_timeout_seconds (real (some (finite (pos zero)))) = none
normalize_timeout_seconds (real (some (finite (pos (suc n))))) = some (suc n)
normalize_timeout_seconds (real (some (finite (negsuc n)))) = none

-- `type(x) is int`, which excludes bool.
pub data LimitArgument : Type 0 where
  int_argument : ℤ → LimitArgument
  other_argument : LimitArgument

abbrev pub limit_of : LimitArgument → Option ℕ
limit_of (int_argument (pos (suc n))) = some (suc n)
limit_of _ = none

pub record Adapter : Type 0 where
  pub command : List Str
  pub timeout_seconds : ℕ
  pub max_envelope_bytes : ℕ
  pub max_output_bytes : ℕ
  pub environment : Env

pub data Configured : Type 0 where
  adapter : Adapter → Configured
  value_error : Configured
  custody_error : CustodyError → Configured

abbrev with_environment : List Str → ℕ → ℕ → ℕ → Option Env → Configured
with_environment command timeout envelope output none = custody_error debugging_forbidden
with_environment command timeout envelope output (some e) = adapter (record {
  command = command;
  timeout_seconds = timeout;
  max_envelope_bytes = envelope;
  max_output_bytes = output;
  environment = e;
})

abbrev with_limits : List Str → ℕ → Option ℕ → Option ℕ → Option Env → Configured
with_limits command timeout (some envelope) (some output) e =
    with_environment command timeout envelope output e
with_limits command timeout _ _ e = value_error

abbrev with_timeout : List Str → Option ℕ → Option ℕ → Option ℕ → Option Env → Configured
with_timeout command none envelope output e = value_error
with_timeout command (some timeout) envelope output e =
    with_limits command timeout envelope output e

unfoldable pub configure :
    List Str → TimeoutArgument → LimitArgument → LimitArgument → Option Env → Env → Configured
configure command timeout envelope output environment environ =
    if is_empty command || any is_empty command
    then value_error
    else with_timeout command (normalize_timeout_seconds timeout) (limit_of envelope)
        (limit_of output) (scrub_environment environment environ)

-- What a constructed adapter holds.
pub record IsConfigured (a : Adapter) : Type 0 where
  pub has_command : is_empty a.command ≡ false
  pub no_empty_part : any is_empty a.command ≡ false
  pub timeout_positive : 0 < a.timeout_seconds
  pub envelope_positive : 0 < a.max_envelope_bytes
  pub output_positive : 0 < a.max_output_bytes

abbrev IsPositive : Option ℕ → Type 0
IsPositive none = Unit
IsPositive (some n) = 0 < n

normalize_timeout_seconds-IsPositive :
    (t : TimeoutArgument) → IsPositive (normalize_timeout_seconds t)
unfolding normalize_timeout_seconds
normalize_timeout_seconds-IsPositive t = ground arith

limit_of-IsPositive : (l : LimitArgument) → IsPositive (limit_of l)
limit_of-IsPositive l = ground arith

module _ (command : List Str) (a : Adapter) where
  with_timeout-IsConfigured :
      (t e o : Option ℕ) (s : Option Env)
      → IsPositive t
      → IsPositive e
      → IsPositive o
      → is_empty command ≡ false
      → any is_empty command ≡ false
      → with_timeout command t e o s ≡ adapter a
      → IsConfigured a × (s ≡ some a.environment)
  with_timeout-IsConfigured none e o s pt pe po c d h = cc
  with_timeout-IsConfigured (some t) none o s pt pe po c d h = cc
  with_timeout-IsConfigured (some t) (some e) none s pt pe po c d h = cc
  with_timeout-IsConfigured (some t) (some e) (some o) none pt pe po c d h = cc
  with_timeout-IsConfigured (some t) (some e) (some o) (some s) pt pe po c d h = ground arith

  command_test :
      (x y : Bool) (r : Configured)
      → (if x || y then value_error else r) ≡ adapter a
      → (x ≡ false) × (y ≡ false) × (r ≡ adapter a)
  command_test true y r h = cc
  command_test false true r h = cc
  command_test false false r h = (refl, refl, h)

-- An adapter that the constructor returns has a command of nonempty parts, a positive timeout,
-- positive limits, and the environment that scrubbing gave.
pub configure-IsConfigured :
    (command : List Str) (timeout : TimeoutArgument) (envelope output : LimitArgument)
    (environment : Option Env) (environ : Env) (a : Adapter)
    → configure command timeout envelope output environment environ ≡ adapter a
    → IsConfigured a × (scrub_environment environment environ ≡ some a.environment)
unfolding configure
configure-IsConfigured command timeout envelope output environment environ a h =
    let (c, d, r) = command_test command a (is_empty command) (any is_empty command) _ h in
    with_timeout-IsConfigured command a _ _ _ _ (normalize_timeout_seconds-IsPositive timeout)
      (limit_of-IsPositive envelope) (limit_of-IsPositive output) c d r
