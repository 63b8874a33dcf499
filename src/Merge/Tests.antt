-- ===== src/Merge/Tests.antt =====
-- The steps of the merge on small inputs: both sides insert a line behind the first.
use minus_sync.Prelude.{inl, [], ◌∷◌, Bytes, codes, All, ◌≡◌, refl, arith, ◌++◌}
use minus_sync.Merge.{
  Edit, op_insert, find_conflicts, split_lines, apply_lines, apply_edits,
  apply_merge_with_conflicts,
}
use minus_sync.Merge.Laws.{Apart, find_conflicts-Apart}
use minus_sync.Merge.Uncovered.{Ordered, uncovered}
use minus_sync.Merge.Lost.{apply_lines-uncovered}
use minus_sync.Prelude.{join_lines}
use minus_sync.Prelude.{bytes_equal}

abbrev insert_after_first : Edit
insert_after_first = record {
  op = op_insert;
  old_start = 1;
  old_end = 1;
  new_start = 1;
  new_end = 2;
}

find_conflicts-Apart_example :
    (find_conflicts (insert_after_first ∷ []) (insert_after_first ∷ []) ≡ []
      → All (λ o. All (Apart o) (insert_after_first ∷ [])) (insert_after_first ∷ []))
    × (All (λ o. All (Apart o) (insert_after_first ∷ [])) (insert_after_first ∷ [])
        → find_conflicts (insert_after_first ∷ []) (insert_after_first ∷ []) ≡ [])
find_conflicts-Apart_example =
    find_conflicts-Apart (insert_after_first ∷ []) (insert_after_first ∷ [])

-- Both insert a line behind the first one, and no conflict is found.
not_found : find_conflicts (insert_after_first ∷ []) (insert_after_first ∷ []) ≡ []
not_found = find_conflicts-Apart_example.1 ((inl (omega arith), tt), tt)

abbrev ours_text : Bytes
ours_text = codes "a" ++ (10 ∷ codes "x" ++ (10 ∷ codes "b"))

ours_lines : split_lines ours_text ≡ codes "a" ∷ codes "x" ∷ codes "b" ∷ []
unfolding split_lines bytes_equal
ours_lines = refl

-- The line of ours at the place is dropped, and none of theirs is put there.
dropped : apply_edits ours_text (insert_after_first ∷ []) ≡ codes "a" ++ (10 ∷ codes "b")
unfolding apply_edits bytes_equal
dropped = refl

one_Ordered : Ordered 0 (insert_after_first ∷ [])
one_Ordered = omega arith

-- The second line is lost.
apply_lines-uncovered_example :
    apply_lines (split_lines ours_text) (insert_after_first ∷ [])
    ≡ uncovered 0 (insert_after_first ∷ []) (split_lines ours_text)
apply_lines-uncovered_example =
    apply_lines-uncovered ours_text (insert_after_first ∷ []) one_Ordered

marked : apply_merge_with_conflicts (codes "a") (insert_after_first ∷ []) [] [] ≡ codes "a"
unfolding apply_merge_with_conflicts join_lines split_lines bytes_equal
marked = refl
