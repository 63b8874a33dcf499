-- ===== src/Ignore.antt =====
-- internal/ignore/ignore.go: the patterns of the file .msyncign and the paths that they ignore.
pub mod Spec
pub mod Restart
pub mod Diverges
pub mod Verdict
pub mod File
mod Tests
use minus_sync.Prelude.{
  ℕ, zero, suc, Bool, true, false, not, ◌&&◌, ◌||◌, Option, none, some, List, [], ◌∷◌, ◌++◌, Bytes,
  drop, map, if◌then◌else◌, ◌==◌, bytes_equal, has_prefix,
}
use mathlib.Core.List.{reverse}

pub record Pattern : Type 0 where
  pub raw : Bytes
  pub dir_only : Bool
  pub negate : Bool

-- The four indices of `globMatch`. An index into the pattern or the name is here what stands from
-- it on; `nextPx` and `nextNx` are one value, none while `nextNx` is 0 or past the name.
pub record Cursor : Type 0 where
  pub pattern : Bytes
  pub name : Bytes
  pub next : Option (Bytes × Bytes)

abbrev pub at_cursor : Bytes → Bytes → Option (Bytes × Bytes) → Cursor
at_cursor pattern name next = record { pattern = pattern; name = name; next = next }

-- One turn of the loop returns, or goes on from another place.
pub data Turn : Type 0 where
  finish : Bool → Turn
  proceed : Cursor → Turn

-- `nextPx = px` and `nextNx = nx + 1`.
unfoldable pub save_next : Bytes → Bytes → Option (Bytes × Bytes)
save_next pattern [] = none
save_next pattern (c ∷ name) = some (pattern, name)

-- The end of a turn that has not continued: back to the saved place, or no match.
unfoldable pub restore : Option (Bytes × Bytes) → Turn
restore none = finish false
restore (some (pattern, name)) = proceed (at_cursor pattern name (some (pattern, name)))

-- `**/` or `**` at the front: what stands behind it.
unfoldable pub behind_stars : Bytes → Option Bytes
behind_stars [] = none
behind_stars (c ∷ pattern) =
    if c == 42
    then some (if has_prefix (47 ∷ []) pattern then drop 1 pattern else pattern)
    else none

unfoldable pub star_turn : Option Bytes → Bytes → Bytes → Turn
unfolding save_next
star_turn (some behind) pattern name = proceed (at_cursor behind name (save_next behind name))
star_turn none pattern name = proceed (at_cursor pattern name (save_next (42 ∷ pattern) name))

-- `?`, or a byte that must be the same.
unfoldable pub byte_turn : ℕ → Bytes → Bytes → Option (Bytes × Bytes) → Turn
unfolding restore
byte_turn c pattern [] next = restore next
byte_turn c pattern (d ∷ name) next =
    if c == 63 || d == c then proceed (at_cursor pattern name next) else restore next

unfoldable pub turn : Bytes → Bytes → Option (Bytes × Bytes) → Turn
unfolding star_turn byte_turn behind_stars restore
turn [] [] next = finish true
turn [] (d ∷ name) next = restore next
turn (c ∷ pattern) name next =
    if c == 42 then star_turn (behind_stars pattern) pattern name else byte_turn c pattern name next

-- The loop, for so many turns; none is a loop that has not ended by then.
unfoldable pub follow : (Bytes → Bytes → Option (Bytes × Bytes) → Option Bool) → Turn → Option Bool
follow loop (finish answer) = some answer
follow loop (proceed at) = loop at.pattern at.name at.next

unfoldable pub glob_loop : ℕ → Bytes → Bytes → Option (Bytes × Bytes) → Option Bool
unfolding follow turn
glob_loop zero pattern name next = none
glob_loop (suc fuel) pattern name next = follow (glob_loop fuel) (turn pattern name next)

unfoldable pub glob_match : ℕ → Bytes → Bytes → Option Bool
unfolding glob_loop
glob_match fuel pattern name = glob_loop fuel pattern name none

-- `filepath.Base`: the last element of the path.
unfoldable pub drop_slashes : Bytes → Bytes
drop_slashes [] = []
drop_slashes (b ∷ bytes) = let rest = drop_slashes bytes in if b == 47 then rest else b ∷ bytes

unfoldable pub until_slash : Bytes → Bytes
until_slash [] = []
until_slash (b ∷ bytes) = if b == 47 then [] else b ∷ until_slash bytes

abbrev pub last_element : Bool → Bytes → Bytes
unfolding until_slash
last_element rooted [] = if rooted then 47 ∷ [] else 46 ∷ []
last_element rooted (b ∷ reversed) = reverse (until_slash (b ∷ reversed))

unfoldable pub base : Bytes → Bytes
unfolding drop_slashes
base path = last_element (has_prefix (47 ∷ []) path) (drop_slashes (reverse path))

unfoldable pub contains_slash : Bytes → Bool
contains_slash [] = false
contains_slash (b ∷ bytes) = b == 47 || contains_slash bytes

-- What `matchPattern` hands to `globMatch`.
unfoldable pub anchored : Bytes → Bytes → Bytes × Bytes
unfolding base contains_slash
anchored pattern path =
    if not (contains_slash pattern)
    then (pattern, base path)
    else (if has_prefix (47 ∷ []) pattern then drop 1 pattern else pattern, path)

unfoldable pub match_pattern : ℕ → Bytes → Bytes → Option Bool
unfolding glob_match anchored
match_pattern fuel pattern path = let call = anchored pattern path in glob_match fuel call.0 call.1

-- A match that does not end, does not let the loop go on.
abbrev pub then_loop : (Bool → Option Bool) → Option Bool → Option Bool
then_loop loop none = none
then_loop loop (some ignored) = loop ignored

abbrev pub judge : Bool → Bool → Option Bool → Option Bool
judge negated ignored none = none
judge negated ignored (some matched) = some (if matched then not negated else ignored)

-- What one pattern makes of the answer so far.
unfoldable pub apply_pattern : ℕ → Bytes → Bool → Pattern → Bool → Option Bool
unfolding match_pattern
apply_pattern fuel path is_dir p ignored =
    if p.dir_only && not is_dir
    then some ignored
    else judge p.negate ignored (match_pattern fuel p.raw path)

unfoldable pub ignored_loop : ℕ → Bytes → Bool → List Pattern → Bool → Option Bool
unfolding apply_pattern
ignored_loop fuel path is_dir [] ignored = some ignored
ignored_loop fuel path is_dir (p ∷ patterns) ignored =
    then_loop (ignored_loop fuel path is_dir patterns) (apply_pattern fuel path is_dir p ignored)

unfoldable pub is_ignored : ℕ → List Pattern → Bytes → Bool → Option Bool
unfolding ignored_loop
is_ignored fuel patterns path is_dir = ignored_loop fuel path is_dir patterns false

unfoldable pub add : Bytes → List Pattern → List Pattern
add pattern patterns = patterns ++ record { raw = pattern; dir_only = false; negate = false } ∷ []

-- The first pattern with this text.
unfoldable pub remove : Bytes → List Pattern → List Pattern
remove pattern [] = []
remove pattern (p ∷ patterns) =
    if bytes_equal p.raw pattern then patterns else p ∷ remove pattern patterns

unfoldable pub list : List Pattern → List Bytes
list patterns = map (λ (p : Pattern). p.raw) patterns
