-- ===== src/WorkerProbe/Stanza/RoundTrip.antt =====
-- A stanza that is written is read.
use mathlib.Core.List.{append_assoc}
use sacrysty.Prelude.{
  ℕ, suc, ◌+◌, ◌<◌, ◌≤◌, Bool, true, false, ◌≡◌, refl, ap, ◌∙◌, ◌&&◌, List, [], ◌∷◌, ◌++◌, Str,
  Bytes, codes, all, length, length-append, leb, ◌==◌, arith, if◌then◌else◌,
}
use sacrysty.WorkerProbe.Base64.{b64encode}
use sacrysty.WorkerProbe.Base64.RoundTrip.{AreBytes}
use sacrysty.WorkerProbe.Stanza.{
  stanza, readline, is_bounded, is_ascii, begins_with, has_fields, with_fields, read_body,
  read_stanza, split_blanks, put_first, write_stanza,
}
use sacrysty.WorkerProbe.Stanza.Lines.{
  no_end, readline-line, but_last-end, nonempty-end, is_bounded-end, lines_of,
}
use sacrysty.WorkerProbe.Stanza.Body.{after_line, all_mono, read_body-lines}

-- A kind is a word of printable characters.
abbrev pub word_char : ℕ → Bool
word_char c = leb 33 c && leb c 126

word-no_end : (c : ℕ) → word_char c ≡ true → no_end c ≡ true
word-no_end c h = ground arith

split_blanks-word : (kind : Bytes) → all word_char kind ≡ true → split_blanks kind ≡ kind ∷ []
unfolding split_blanks
split_blanks-word [] h = refl
split_blanks-word (c ∷ s) h = by_test (c == b' ') refl (split_blanks-word s (ground arith))
  where
    by_test :
        (b : Bool)
        → (c == b' ') ≡ b
        → split_blanks s ≡ s ∷ []
        → (if b then [] ∷ split_blanks s else put_first c (split_blanks s)) ≡ (c ∷ s) ∷ []
    by_test true e ih = ground arith
    by_test false e ih = rw ih refl

is_ascii-word : (kind : Bytes) → all word_char kind ≡ true → is_ascii kind ≡ true
is_ascii-word [] h = refl
is_ascii-word (c ∷ s) h = let ih = is_ascii-word s in ground arith

abbrev arrow : Str → Bytes
arrow kind = codes "-> " ++ kind

split_blanks-arrow :
    (kind : Bytes) → all word_char kind ≡ true → split_blanks (arrow kind) ≡ codes "->" ∷ kind ∷ []
unfolding split_blanks
split_blanks-arrow kind h =
    ap (λ fields. put_first 45 (put_first 62 ([] ∷ fields))) (split_blanks-word kind h)

read_stanza-line :
    (s later : Bytes) (total : ℕ) (fields : List Bytes)
    → ◌≡◌ {A = Bytes × Bytes} (readline 4097 (s ++ (10 ∷ later))) (s ++ (10 ∷ []), later)
    → is_bounded (s ++ (10 ∷ [])) (total + length (s ++ (10 ∷ []))) ≡ true
    → begins_with (codes "-> ") (s ++ (10 ∷ [])) ≡ true
    → split_blanks s ≡ fields
    → has_fields fields ≡ true
    → read_stanza (record { rest = s ++ (10 ∷ later); total = total })
      ≡ read_body (suc (length later)) fields (after_line s later total) 0
unfolding read_stanza
read_stanza-line s later total fields read bounded begins split has =
    rw (read, bounded, nonempty-end s, begins, but_last-end s, split, has) refl

-- The first line is read, and the body comes next.
read_stanza-arrow :
    (kind : Str) (later : Bytes) (total : ℕ)
    → all word_char kind ≡ true
    → length kind < 4093
    → total + length (arrow kind ++ (10 ∷ [])) ≤ 65536
    → read_stanza (record { rest = arrow kind ++ (10 ∷ later); total = total })
      ≡ read_body
          (suc (length later))
          (codes "->" ∷ kind ∷ [])
          (after_line (arrow kind) later total)
          0
read_stanza-arrow kind later total word short k =
    read_stanza-line (arrow kind) later total (codes "->" ∷ kind ∷ [])
      (readline-line 4097 (arrow kind) later (all_mono word_char no_end kind word-no_end word)
        (omega arith))
      (is_bounded-end (arrow kind) (total + length (arrow kind ++ (10 ∷ []))) (omega arith) k) refl
      (split_blanks-arrow kind word) refl

with_fields-kind :
    (kind : Str) (n : ℕ)
    → all word_char kind ≡ true
    → with_fields (codes "->" ∷ kind ∷ []) n ≡ stanza kind [] n
with_fields-kind kind n h = rw (is_ascii-word kind h) refl

-- Let the kind be a word of fewer than 4093 characters, and the stanza and what was read before it
-- be within the protocol's limit. Then reading what `write_stanza` wrote returns the kind, no
-- arguments and the length of the body, and what follows the stanza is left to be read.
pub read_stanza-write_stanza :
    (kind : Str) (body rest : Bytes) (total : ℕ)
    → all word_char kind ≡ true
    → length kind < 4093
    → AreBytes body
    → total + length (write_stanza kind body) ≤ 65536
    → read_stanza (record { rest = write_stanza kind body ++ rest; total = total }) ≡ (
      stanza kind [] (length body),
      record { rest = rest; total = total + length (write_stanza kind body) },
    )
unfolding write_stanza
read_stanza-write_stanza kind body rest total word short h k =
    let later = lines_of (b64encode body) in
    let grown = length-append (arrow kind) (10 ∷ later) in
    let first = length-append (arrow kind) (10 ∷ []) in
    ap (λ r. read_stanza (record { rest = r; total = total }))
      (append_assoc (arrow kind) (10 ∷ later) rest)
    ∙ read_stanza-arrow kind (later ++ rest) total word short (omega arith)
    ∙ read_body-lines (suc (length (later ++ rest))) (codes "->" ∷ kind ∷ []) body rest h
        (omega arith) (total + length (arrow kind ++ (10 ∷ []))) 0 (omega arith)
    ∙ ap
        (λ s. (
          s,
          record { rest = rest; total = total + length (arrow kind ++ (10 ∷ [])) + length later },
        ))
        (ap (with_fields (codes "->" ∷ kind ∷ [])) (no_more (length body))
          ∙ with_fields-kind kind (length body) word)
    ∙ ap (λ n. (stanza kind [] (length body), record { rest = rest; total = n })) (omega arith)
  where
    no_more : (n : ℕ) → 0 + n ≡ n
    no_more n = omega arith
