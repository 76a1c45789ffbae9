-- ===== src/WorkerProbe/Stanza.antt =====
-- The plugin's side of the age protocol: `read_stanza` and `write_stanza`.
pub mod Lines
pub mod Body
pub mod RoundTrip
use sacrysty.Prelude.{
  ℕ, zero, suc, ◌+◌, ◌-◌, ◌%◌, Bool, true, false, ◌&&◌, ◌||◌, not, Option, none, some, List, [],
  ◌∷◌, ◌++◌, Str, Bytes, codes, length, take, drop, map, any, leb, ltb, is_empty, ◌==◌,
  if◌then◌else◌,
}
use sacrysty.WorkerProbe.Base64.{b64decode, b64encode}

-- The bytes that standard input still has, and `total`.
pub record Input : Type 0 where
  pub rest : Bytes
  pub total : ℕ

-- A stanza, None at the end of the input, or an exception.
pub data Reading : Type 0 where
  stanza : Str → List Str → ℕ → Reading
  ended failed : Reading

-- sys.stdin.buffer.readline(limit): the line, and what follows it.
unfoldable pub readline : ℕ → Bytes → Bytes × Bytes
readline zero s = ([], s)
readline (suc limit) [] = ([], [])
readline (suc limit) (c ∷ s) =
    let (line, rest) = readline limit s in if c == 10 then (c ∷ [], s) else (c ∷ line, rest)

abbrev pub next_line : Input → Bytes × Input
next_line i =
    let (line, rest) = readline 4097 i.rest in
    (line, record { rest = rest; total = i.total + length line })

abbrev pub last_is : ℕ → Bytes → Bool
last_is c [] = false
last_is c (d ∷ []) = d == c
last_is c (d ∷ e ∷ s) = last_is c (e ∷ s)

-- line[:-1]
abbrev pub but_last : Bytes → Bytes
but_last [] = []
but_last (c ∷ []) = []
but_last (c ∷ d ∷ s) = c ∷ but_last (d ∷ s)

-- What each line of a stanza has to be.
abbrev pub is_bounded : Bytes → ℕ → Bool
is_bounded line total =
    not (is_empty line) && leb (length line) 4096 && leb total 65536 && last_is 10 line

abbrev pub begins_with : Bytes → Bytes → Bool
begins_with [] s = true
begins_with (c ∷ p) [] = false
begins_with (c ∷ p) (d ∷ s) = c == d && begins_with p s

abbrev pub put_first : ℕ → List Bytes → List Bytes
put_first c [] = (c ∷ []) ∷ []
put_first c (field ∷ fields) = (c ∷ field) ∷ fields

-- line.split(b" ")
unfoldable pub split_blanks : Bytes → List Bytes
split_blanks [] = [] ∷ []
split_blanks (c ∷ s) =
    let fields = split_blanks s in if c == b' ' then [] ∷ fields else put_first c fields

abbrev pub padding : Bytes → Bytes
padding raw =
    let n = (4 - length raw % 4) % 4 in
    if n == 0 then [] else if n == 1 then codes "=" else if n == 2 then codes "==" else codes "==="

abbrev pub is_ascii : Bytes → Bool
is_ascii s = not (any (λ c. leb 128 c) s)

-- The fields of the first line, decoded behind the body.
abbrev pub with_fields : List Bytes → ℕ → Reading
with_fields (arrow ∷ kind ∷ args) size =
    if is_ascii kind && not (any (λ a. not (is_ascii a)) args)
    then stanza kind args size
    else failed
with_fields _ size = failed

abbrev pub close_part :
    (ℕ → Reading × Input) → (ℕ → Reading × Input) → Input → ℕ → Option Bytes → Reading × Input
close_part more over i size none = (failed, i)
close_part more over i size (some part) =
    if ltb 48 (length part)
    then (failed, i)
    else if ltb (length part) 48
    then over (size + length part)
    else more (size + length part)

-- The loop over the lines of the body. A turn takes a byte, so that more fuel than there are bytes
-- is enough.
unfoldable pub read_body : ℕ → List Bytes → Input → ℕ → Reading × Input
read_body zero fields i size = (failed, i)
read_body (suc fuel) fields i size =
    let (line, i') = next_line i in
    let raw = but_last line in
    let ends =
      close_part (read_body fuel fields i') (λ n. (with_fields fields n, i')) i' size
        (b64decode (raw ++ padding raw)) in
    if is_bounded line i'.total then ends else (failed, i')

abbrev pub has_fields : List Bytes → Bool
has_fields (a ∷ b ∷ fields) = true
has_fields _ = false

unfoldable pub read_stanza : Input → Reading × Input
unfolding read_body split_blanks
read_stanza i =
    let (line, i') = next_line i in
    let fields = split_blanks (but_last line) in
    if is_empty line
    then (ended, i')
    else if is_bounded line i'.total && begins_with (codes "-> ") line && has_fields fields
    then read_body (suc (length i'.rest)) fields i' 0
    else (failed, i')

-- The loop of `write_stanza` over the pieces of 64 characters.
unfoldable pub write_lines : ℕ → Bytes → Bytes
write_lines zero raw = []
write_lines (suc fuel) raw =
    let rest = write_lines fuel (drop 64 raw) in
    if is_empty raw then [] else take 64 raw ++ (10 ∷ rest)

-- What ends the body where no short line does.
abbrev pub ends_body : Bytes → Bytes
ends_body raw = if is_empty raw || length raw % 64 == 0 then 10 ∷ [] else []

unfoldable pub write_stanza : Str → Bytes → Bytes
unfolding write_lines
write_stanza kind body =
    let raw = b64encode body in
    codes "-> " ++ (kind ++ (10 ∷ (write_lines (length raw) raw ++ ends_body raw)))
