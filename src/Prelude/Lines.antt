-- ===== src/Prelude/Lines.antt =====
-- Texts as lines: `strings.Split(text, "\n")`, `strings.Join(lines, "\n")` and bufio.ScanLines.
use Prim.Native.Nat.{ℕ}
use mathlib.Core.Path.{◌≡◌, refl, sym, ap, ◌∙◌}
use mathlib.Core.Logic.{inl, inr}
use mathlib.Core.List.{List, [], ◌∷◌, ◌++◌}
use native.Mathlib.Omega.{arith}
use minus_sync.Prelude.Tests.{◌==◌, if◌then◌else◌, Bool-cases, ==_iff}
use minus_sync.Prelude.Lists.{Bytes}
use minus_sync.Prelude.Strings.{Lacks, bytes_equal}

abbrev pub put_first : ℕ → List Bytes → List Bytes
put_first c [] = []
put_first c (line ∷ lines) = if c == 10 then [] ∷ line ∷ lines else (c ∷ line) ∷ lines

unfoldable pub split_newlines : Bytes → List Bytes
split_newlines [] = [] ∷ []
split_newlines (c ∷ text) = put_first c (split_newlines text)

unfoldable pub join_lines : List Bytes → Bytes
join_lines [] = []
join_lines (line ∷ []) = line
join_lines (line ∷ next ∷ lines) = line ++ 10 ∷ join_lines (next ∷ lines)

-- The lines of a file: nothing follows the last newline.
unfoldable pub without_last_empty : List Bytes → List Bytes
without_last_empty [] = []
without_last_empty (line ∷ []) = if bytes_equal line [] then [] else line ∷ []
without_last_empty (line ∷ next ∷ lines) = line ∷ without_last_empty (next ∷ lines)

-- There is always a first line.
pub split_newlines-cons :
    (text : Bytes) → (line : Bytes) × (lines : List Bytes) × (split_newlines text ≡ line ∷ lines)
unfolding split_newlines
split_newlines-cons [] = ([], [], refl)
split_newlines-cons (c ∷ text) =
    let (line, lines, e) = split_newlines-cons text in
    elim (Bool-cases (c == 10)) [
      | inl newline ↦ ([], line ∷ lines, rw (e, newline) refl)
      | inr other ↦ (c ∷ line, lines, rw (e, other) refl)
    ]

pub split_newlines-newline : (text : Bytes) → split_newlines (10 ∷ text) ≡ [] ∷ split_newlines text
unfolding split_newlines
split_newlines-newline text = let (line, lines, e) = split_newlines-cons text in rw e refl

pub split_newlines-append :
    (line text : Bytes)
    → Lacks 10 line
    → split_newlines (line ++ 10 ∷ text) ≡ line ∷ split_newlines text
unfolding split_newlines
split_newlines-append [] text lacks = split_newlines-newline text
split_newlines-append (c ∷ line) text (ne, lacks) =
    rw (split_newlines-append line text lacks) (ground arith)

pub split_newlines-Lacks : (line : Bytes) → Lacks 10 line → split_newlines line ≡ line ∷ []
unfolding split_newlines
split_newlines-Lacks [] lacks = refl
split_newlines-Lacks (c ∷ line) (ne, lacks) = rw (split_newlines-Lacks line lacks) (ground arith)

join_lines-put_first :
    (c : ℕ) (line : Bytes) (lines : List Bytes)
    → join_lines (put_first c (line ∷ lines)) ≡ c ∷ join_lines (line ∷ lines)
unfolding join_lines
join_lines-put_first c line [] = elim (Bool-cases (c == 10)) [
  | inl newline ↦ rw newline (ap (λ x. x ∷ line) (sym ((==_iff c 10).0 newline)))
  | inr other ↦ rw other refl
]
join_lines-put_first c line (next ∷ lines) = elim (Bool-cases (c == 10)) [
  | inl newline ↦
      rw newline
        (ap (λ x. x ∷ (line ++ 10 ∷ join_lines (next ∷ lines))) (sym ((==_iff c 10).0 newline)))
  | inr other ↦ rw other refl
]

pub join_lines-split_newlines : (text : Bytes) → join_lines (split_newlines text) ≡ text
unfolding split_newlines join_lines
join_lines-split_newlines [] = refl
join_lines-split_newlines (c ∷ text) =
    let (line, lines, e) = split_newlines-cons text in
    rw e (join_lines-put_first c line lines)
    ∙ ap (◌∷◌ c) (sym (ap join_lines e) ∙ join_lines-split_newlines text)
