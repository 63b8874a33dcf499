-- ===== src/Ignore/Verdict.antt =====
-- internal/ignore/ignore.go: `IsIgnored`, whose answer the last pattern that applies gives.
use minus_sync.Prelude.{
  ℕ, ◌≤◌, Bool, true, false, not, ◌&&◌, Option, none, some, List, [], ◌∷◌, Bytes, All,
  if◌then◌else◌, ◌≡◌, refl, ap, ◌∙◌, Bool-cases, inl, inr,
}
use minus_sync.Ignore.{Pattern, anchored, match_pattern, apply_pattern, ignored_loop, is_ignored}
use minus_sync.Ignore.Spec.{describes, IsSingle}
use minus_sync.Ignore.Restart.{enough_turns, glob_match-describes}

-- The pattern is about this path.
unfoldable pub applies : Bytes → Bool → Pattern → Bool
applies path is_dir p =
    let call = anchored p.raw path in not (p.dir_only && not is_dir) && describes call.0 call.1

abbrev pub or_first : Option Pattern → Option Pattern → Option Pattern
or_first first none = first
or_first first (some p) = some p

-- The last pattern that is about this path.
unfoldable pub last_applying : Bytes → Bool → List Pattern → Option Pattern
last_applying path is_dir [] = none
last_applying path is_dir (p ∷ patterns) =
    or_first (if applies path is_dir p then some p else none) (last_applying path is_dir patterns)

abbrev pub verdict : Bool → Option Pattern → Bool
verdict ignored none = ignored
verdict ignored (some p) = not p.negate

-- `globMatch` is called on a pattern without `**`, and for enough turns.
abbrev pub IsMatchable : ℕ → Bytes → Pattern → Type 0
IsMatchable fuel path p =
    IsSingle (anchored p.raw path).0
    × (enough_turns (anchored p.raw path).0 (anchored p.raw path).1 ≤ fuel)

apply_pattern-applies :
    (fuel : ℕ) (path : Bytes) (is_dir : Bool) (p : Pattern) (ignored : Bool)
    → IsMatchable fuel path p
    → apply_pattern fuel path is_dir p ignored
      ≡ some (if applies path is_dir p then not p.negate else ignored)
unfolding apply_pattern match_pattern applies
apply_pattern-applies fuel path is_dir p ignored (single, enough) =
    let call = anchored p.raw path in
    elim (Bool-cases (p.dir_only && not is_dir)) [
      | inl skipped ↦ rw skipped refl
      | inr considered ↦ rw (considered, glob_match-describes fuel call.0 call.1 single enough) refl
    ]

verdict-or_first :
    (p : Pattern) (here ignored : Bool) (later : Option Pattern)
    → verdict (if here then not p.negate else ignored) later
      ≡ verdict ignored (or_first (if here then some p else none) later)
verdict-or_first p true ignored none = refl
verdict-or_first p false ignored none = refl
verdict-or_first p here ignored (some q) = refl

ignored_loop-verdict :
    (fuel : ℕ) (path : Bytes) (is_dir : Bool) (patterns : List Pattern) (ignored : Bool)
    → All (IsMatchable fuel path) patterns
    → ignored_loop fuel path is_dir patterns ignored
      ≡ some (verdict ignored (last_applying path is_dir patterns))
unfolding ignored_loop last_applying
ignored_loop-verdict fuel path is_dir [] ignored matchable = refl
ignored_loop-verdict fuel path is_dir (p ∷ patterns) ignored (here, matchable) =
    rw (apply_pattern-applies fuel path is_dir p ignored here) (
      ignored_loop-verdict fuel path is_dir patterns
        (if applies path is_dir p then not p.negate else ignored) matchable
      ∙ ap some
          (verdict-or_first p (applies path is_dir p) ignored (last_applying path is_dir patterns)))

-- `IsIgnored` returns for patterns without `**`, and its answer is the one of the last pattern that
-- is about the path: ignored unless that one is negated, and not ignored if there is none.
pub is_ignored-verdict :
    (fuel : ℕ) (patterns : List Pattern) (path : Bytes) (is_dir : Bool)
    → All (IsMatchable fuel path) patterns
    → is_ignored fuel patterns path is_dir
      ≡ some (verdict false (last_applying path is_dir patterns))
unfolding is_ignored
is_ignored-verdict fuel patterns path is_dir matchable =
    ignored_loop-verdict fuel path is_dir patterns false matchable
