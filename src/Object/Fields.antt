-- ===== src/Object/Fields.antt =====
-- internal/object/commit.go and tag.go: the text that both kinds of object have, lines "key value"
-- and behind an empty line the message.
use minus_sync.Prelude.{
  ℕ, Option, none, some, List, [], ◌∷◌, ◌++◌, Bytes, All, bytes_equal, if◌then◌else◌, Result, ok,
  ◌>>=◌, split_at_byte, split_at_byte-append, Lacks, trim_space, trim_space-end, is_space,
  split_newlines, split_newlines-append, split_newlines-cons, join_lines, join_lines-split_newlines,
  ◌≡◌, refl, sym, ap, ◌∙◌, arith,
}
use minus_sync.Object.{Error}
use minus_sync.Object.Header.{Lacks-append}

abbrev pub key_line : Bytes → Bytes → Bytes
key_line key value = key ++ 32 ∷ value

-- Each line with its newline, and what follows.
unfoldable pub write_lines : List Bytes → Bytes → Bytes
write_lines [] rest = rest
write_lines (line ∷ lines) rest = line ++ 10 ∷ write_lines lines rest

-- `strings.SplitN(line, " ", 2)`; a line without a space is skipped.
abbrev pub parse_parts {ℓ} :
    {A : Type ℓ}
    → (A → Bytes → Bytes → Result Error A)
    → A
    → Option (Bytes × Bytes)
    → Result Error A
parse_parts field a none = ok a
parse_parts field a (some (key, value)) = field a key value

-- The loop over the lines, up to an empty one: the lines behind that hold the message.
unfoldable pub parse_lines {ℓ} :
    {A : Type ℓ}
    → (A → Bytes → Bytes → Result Error A)
    → A
    → List Bytes
    → Result Error (A × Option (List Bytes))
parse_lines field a [] = ok (a, none)
parse_lines field a (line ∷ lines) =
    if bytes_equal line []
    then ok (a, some lines)
    else (parse_parts field a (split_at_byte 32 line) >>= λ next. parse_lines field next lines)

abbrev pub message_of : Option (List Bytes) → Bytes
message_of none = []
message_of (some []) = []
message_of (some (line ∷ lines)) = trim_space (join_lines (line ∷ lines))

pub split_newlines-write_lines :
    (lines : List Bytes) (rest : Bytes)
    → All (Lacks 10) lines
    → split_newlines (write_lines lines rest) ≡ lines ++ split_newlines rest
unfolding write_lines
split_newlines-write_lines [] rest lacks = refl
split_newlines-write_lines (line ∷ lines) rest (here, lacks) =
    split_newlines-append line (write_lines lines rest) here
    ∙ ap (◌∷◌ line) (split_newlines-write_lines lines rest lacks)

-- One turn of the loop on a line "key value".
pub parse_lines-key {ℓ} :
    {A : Type ℓ} (field : A → Bytes → Bytes → Result Error A) (a : A) (k : ℕ) (key value : Bytes)
    (lines : List Bytes) {next : A}
    → Lacks 32 (k ∷ key)
    → field a (k ∷ key) value ≡ ok next
    → parse_lines field a (key_line (k ∷ key) value ∷ lines) ≡ parse_lines field next lines
unfolding parse_lines bytes_equal
parse_lines-key field a k key value lines lacks parsed =
    rw (split_at_byte-append 32 (k ∷ key) value lacks, parsed) refl

pub parse_lines-empty {ℓ} :
    {A : Type ℓ} (field : A → Bytes → Bytes → Result Error A) (a : A) (lines : List Bytes)
    → parse_lines field a ([] ∷ lines) ≡ ok (a, some lines)
unfolding parse_lines bytes_equal
parse_lines-empty field a lines = refl

pub message_of-lines :
    (message : Bytes)
    → trim_space message ≡ message
    → message_of (some (split_newlines (message ++ 10 ∷ []))) ≡ message
message_of-lines message trimmed =
    let text = message ++ 10 ∷ [] in
    let (line, lines, e) = split_newlines-cons text in
    rw e (
      ap (λ (x : List Bytes). trim_space (join_lines x)) (sym e)
      ∙ ap trim_space (join_lines-split_newlines text)
      ∙ trim_space-end message 10 (unfold is_space in refl)
      ∙ trimmed)

pub key_line-Lacks :
    (key value : Bytes) → Lacks 10 key → Lacks 10 value → Lacks 10 (key_line key value)
key_line-Lacks key value h k = Lacks-append 10 key (32 ∷ value) h ((λ e. omega arith), k)
