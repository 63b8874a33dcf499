-- ===== src/Merge.antt =====
-- internal/merge/merge.go: the steps of the three-way merge, on the edits of
-- internal/diff/diff.go. Line numbers are not negative.
pub mod Laws
pub mod Uncovered
pub mod Lost
mod Tests
use minus_sync.Prelude.{
  ℕ, zero, suc, ◌+◌, ◌-◌, Bool, true, false, not, ◌&&◌, ◌||◌, Option, none, some, List, [], ◌∷◌,
  ◌++◌, Bytes, length, take, drop, codes, bytes_equal, ltb, leb, ◌==◌, max, if◌then◌else◌,
  split_newlines, join_lines, without_last_empty,
}

abbrev pub op_equal : ℕ
op_equal = 0

abbrev pub op_insert : ℕ
op_insert = 1

abbrev pub op_delete : ℕ
op_delete = 2

pub record Edit : Type 0 where
  pub op : ℕ
  pub old_start : ℕ
  pub old_end : ℕ
  pub new_start : ℕ
  pub new_end : ℕ

-- A conflict as `findConflicts` builds it: the texts stay empty.
pub record Conflict : Type 0 where
  pub start_line : ℕ
  pub ours_text : Bytes
  pub base_text : Bytes
  pub theirs_text : Bytes

unfoldable pub ranges_overlap : ℕ → ℕ → ℕ → ℕ → Bool
ranges_overlap a1 a2 b1 b2 = ltb a1 b2 && ltb b1 a2

-- The inner loop of `findConflicts`.
unfoldable pub conflicts_with : Edit → List Edit → List Conflict
unfolding ranges_overlap
conflicts_with o [] = []
conflicts_with o (t ∷ theirs) =
    let later = conflicts_with o theirs in
    if ranges_overlap o.old_start o.old_end t.old_start t.old_end
    then (record {
      start_line = max o.old_start t.old_start;
      ours_text = [];
      base_text = [];
      theirs_text = [];
    }
        ∷ later)
    else later

unfoldable pub find_conflicts : List Edit → List Edit → List Conflict
unfolding conflicts_with
find_conflicts [] theirs = []
find_conflicts (o ∷ ours) theirs = conflicts_with o theirs ++ find_conflicts ours theirs

-- The loop over both lists; each turn takes an edit, so the sum of the lengths is fuel enough.
unfoldable pub merge_loop : ℕ → List Edit → List Edit → List Edit
merge_loop zero ours theirs = []
merge_loop (suc fuel) [] [] = []
merge_loop (suc fuel) [] (t ∷ theirs) = t ∷ merge_loop fuel [] theirs
merge_loop (suc fuel) (o ∷ ours) [] = o ∷ merge_loop fuel ours []
merge_loop (suc fuel) (o ∷ ours) (t ∷ theirs) =
    let ours_first = merge_loop fuel ours (t ∷ theirs) in
    let theirs_first = merge_loop fuel (o ∷ ours) theirs in
    if leb o.old_start t.old_start then o ∷ ours_first else t ∷ theirs_first

unfoldable pub merge_edit_lists : List Edit → List Edit → List Edit
unfolding merge_loop
merge_edit_lists ours theirs = merge_loop (length ours + length theirs) ours theirs

-- `for pos < stop && pos < len(lines)`: the lines that the loop copies from `pos` on.
unfoldable pub copy_until : List Bytes → ℕ → ℕ → List Bytes
copy_until lines pos stop = take (stop - pos) (drop pos lines)

-- Where that loop leaves `pos`.
unfoldable pub pos_after : List Bytes → ℕ → ℕ → ℕ
pos_after lines pos stop =
    let last = if ltb stop (length lines) then stop else length lines in
    if ltb pos last then last else pos

-- The loop of `applyEdits` over the edits, with the lines so far.
unfoldable pub edits_loop : List Bytes → List Bytes → ℕ → List Edit → List Bytes
unfolding copy_until pos_after
edits_loop lines result pos [] = result ++ drop pos lines
edits_loop lines result pos (e ∷ edits) =
    let before = result ++ copy_until lines pos e.new_start in
    let at = pos_after lines pos e.new_start in
    if e.op == op_delete
    then edits_loop lines before e.new_end edits
    else if e.op == op_insert
    then edits_loop lines before e.new_end edits
    else if e.op == op_equal
    then edits_loop lines (before ++ copy_until lines at e.new_end) (pos_after lines at e.new_end)
        edits
    else edits_loop lines before at edits

-- The lines of a text, without the last one when it is empty.
unfoldable pub split_lines : Bytes → List Bytes
unfolding split_newlines without_last_empty
split_lines text = without_last_empty (split_newlines text)

unfoldable pub apply_lines : List Bytes → List Edit → List Bytes
unfolding edits_loop
apply_lines lines edits = edits_loop lines [] 0 edits

unfoldable pub apply_edits : Bytes → List Edit → Bytes
unfolding apply_lines split_lines join_lines
apply_edits text edits = join_lines (apply_lines (split_lines text) edits)

-- The set of the lines at which a conflict starts.
unfoldable pub conflict_set : List Conflict → List ℕ
conflict_set [] = []
conflict_set (c ∷ conflicts) = c.start_line ∷ conflict_set conflicts

unfoldable pub is_conflict : List ℕ → ℕ → Bool
is_conflict [] line = false
is_conflict (l ∷ conflict_lines) line = l == line || is_conflict conflict_lines line

-- The loop of `rangesOverlapWithSet` over `count` lines from `i` on.
unfoldable pub any_conflict : List ℕ → ℕ → ℕ → Bool
any_conflict conflict_lines i zero = false
any_conflict conflict_lines i (suc count) =
    is_conflict conflict_lines i || any_conflict conflict_lines (i + 1) count

unfoldable pub ranges_overlap_with_set : Edit → List ℕ → Bool
unfolding any_conflict is_conflict
ranges_overlap_with_set e conflict_lines =
    any_conflict conflict_lines e.old_start (e.old_end - e.old_start)

-- The loop of `applyMergeWithConflicts` over all edits.
unfoldable pub conflicts_loop : List Bytes → List ℕ → List Bytes → ℕ → Bool → List Edit → List Bytes
unfolding copy_until ranges_overlap_with_set
conflicts_loop base_lines conflict_lines result pos in_conflict [] = result ++ drop pos base_lines
conflicts_loop base_lines conflict_lines result pos in_conflict (e ∷ edits) =
    let before = result ++ copy_until base_lines pos e.old_start in
    let opens = is_conflict conflict_lines e.old_start && not in_conflict in
    let opened = if opens then before ++ codes "<<<<<<< ours" ∷ [] else before in
    let inside = in_conflict || opens in
    let closes = inside && not (ranges_overlap_with_set e conflict_lines) in
    let closed =
      if closes then opened ++ codes "=======" ∷ codes ">>>>>>> theirs" ∷ [] else opened in
    conflicts_loop base_lines conflict_lines closed e.old_end (inside && not closes) edits

unfoldable pub apply_merge_with_conflicts : Bytes → List Edit → List Edit → List Conflict → Bytes
unfolding conflicts_loop merge_edit_lists conflict_set
apply_merge_with_conflicts base ours theirs conflicts = join_lines (
    conflicts_loop (split_lines base) (conflict_set conflicts) [] 0 false
      (merge_edit_lists ours theirs))
