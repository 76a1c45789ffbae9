-- ===== src/Evidence/Trace.antt =====
-- The runner's trace: its first line, the patterns of its lines, and the diagnostic made of it.
pub mod Pattern
pub mod Matching
pub mod RoundTrip
use sacrysty.Prelude.{
  ℕ, zero, suc, ◌+◌, Bool, true, false, ◌&&◌, ◌||◌, not, Option, none, some, List, [], ◌∷◌, ◌++◌,
  Str, Bytes, codes, length, take, is_empty, leb, ltb, ◌==◌, decimal, if◌then◌else◌,
}
use sacrysty.Evidence.Files.{Disk, Denials, read_file, unlink, create, Result, Io, BoundaryError}
use Pattern.{Piece, literal, some_of, full_match}

abbrev pub runner_trace_limit_bytes : ℕ
runner_trace_limit_bytes = 4096

abbrev pub is_digit : ℕ → Bool
is_digit c = leb b'0' c && leb c b'9'

abbrev is_lower : ℕ → Bool
is_lower c = leb b'a' c && leb c b'z'

abbrev is_upper : ℕ → Bool
is_upper c = leb b'A' c && leb c b'Z'

abbrev pub platform_char : ℕ → Bool
platform_char c = is_lower c || is_digit c || c == b'_' || c == b'-'

abbrev phase_char : ℕ → Bool
phase_char c = is_lower c || is_digit c || c == b'-'

abbrev version_char : ℕ → Bool
version_char c =
    is_upper c
    || is_lower c
    || is_digit c
    || c == b'('
    || c == b')'
    || c == b'.'
    || c == b'_'
    || c == b'+'
    || c == b'~'
    || c == b'-'

abbrev pub helper_runtime_trace : List Piece
helper_runtime_trace =
    literal (codes "helper-runtime python=")
    ∷ some_of is_digit
    ∷ literal (codes ".")
    ∷ some_of is_digit
    ∷ literal (codes ".")
    ∷ some_of is_digit
    ∷ literal (codes " platform=")
    ∷ some_of platform_char
    ∷ literal (codes " pid=")
    ∷ some_of is_digit
    ∷ []

abbrev pub runner_phase_trace : List Piece
runner_phase_trace =
    literal (codes "runner-phase=")
    ∷ some_of phase_char
    ∷ literal (codes " bash=")
    ∷ some_of version_char
    ∷ literal (codes " pid=")
    ∷ some_of is_digit
    ∷ literal (codes " shell=")
    ∷ some_of is_digit
    ∷ literal (codes " subshell=")
    ∷ some_of is_digit
    ∷ []

-- bytes.splitlines(): a line ends at \n, \r or \r\n.
abbrev pub is_line_end : ℕ → Bool
is_line_end c = c == 10 || c == 13

abbrev joins : ℕ → Bytes → Bool
joins c [] = false
joins c (d ∷ s) = c == 13 && d == 10

abbrev begin_line : Bool → List Bytes → List Bytes
begin_line true lines = lines
begin_line false lines = [] ∷ lines

abbrev put_byte : ℕ → List Bytes → List Bytes
put_byte c [] = (c ∷ []) ∷ []
put_byte c (line ∷ lines) = (c ∷ line) ∷ lines

unfoldable pub split_lines : Bytes → List Bytes
split_lines [] = []
split_lines (c ∷ s) =
    let rest = split_lines s in
    if is_line_end c then begin_line (joins c s) rest else put_byte c rest

abbrev pub expected_at : ℕ → List Piece
expected_at zero = helper_runtime_trace
expected_at (suc index) = runner_phase_trace

-- The loop over the lines, which stops at the first one that does not match.
unfoldable pub accepted_lines : ℕ → List Bytes → List Str
accepted_lines index [] = []
accepted_lines index (line ∷ lines) =
    let rest = accepted_lines (suc index) lines in
    if full_match (expected_at index) line
    then line ∷ rest
    else (codes "trace-invalid-line-" ++ decimal (suc index)) ∷ []

abbrev or_empty : List Str → List Str
or_empty [] = codes "trace-empty" ∷ []
or_empty (line ∷ lines) = line ∷ lines

abbrev join : List Str → Str
join [] = []
join (x ∷ []) = x
join (x ∷ xs) = x ++ (codes " | " ++ join xs)

-- What the diagnostic lists of a trace's bytes.
unfoldable pub lifecycle_entries : Bytes → List Str
lifecycle_entries content =
    let entries =
      or_empty (accepted_lines 0 (split_lines (take runner_trace_limit_bytes content))) in
    if ltb runner_trace_limit_bytes (length content)
    then entries ++ (codes "trace-exceeded-bound" ∷ [])
    else entries

abbrev lifecycle_of : Option Bytes → Str
lifecycle_of none = codes "runner lifecycle trace is unavailable"
lifecycle_of (some content) = codes "runner lifecycle: " ++ join (lifecycle_entries content)

-- What runs the helper.
pub record Platform : Type 0 where
  pub version : ℕ × ℕ × ℕ
  pub name : Str
  pub pid : ℕ
  pub uid : ℕ

abbrev pub first_line : Platform → Bytes
first_line p =
    let (major, minor, micro) = p.version in
    codes "helper-runtime python="
    ++ (decimal major
        ++ (codes "."
            ++ (decimal minor
                ++ (codes "."
                    ++ (decimal micro
                        ++ (codes " platform=" ++ (p.name ++ (codes " pid=" ++ decimal p.pid))))))))

module _ (denials : Denials) where
  -- An OSError is passed over: the trace is not made.
  unfoldable pub initialize_runner_trace : Platform → Str → Disk → Disk
  initialize_runner_trace p path d =
      (create denials path (first_line p ++ (10 ∷ [])) BoundaryError.output_uncreatable d).1

  unfoldable pub runner_lifecycle_diagnostic : Str → Disk → Str
  runner_lifecycle_diagnostic path d = lifecycle_of (read_file denials path d)

  unfoldable pub discard_runner_trace : Str → Disk → Disk
  discard_runner_trace path d = (unlink denials path BoundaryError.output_uncreatable d).1
