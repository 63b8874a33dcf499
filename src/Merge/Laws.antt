-- ===== src/Merge/Laws.antt =====
-- What the merge does with insertions.
use minus_sync.Prelude.{
  ◌≤◌, ◌⊎◌, false, List, [], ◌∷◌, ◌++◌, All, Bool-cases, inl, inr, ◌≡◌, refl, arith,
}
use minus_sync.Merge.{Edit, Conflict, ranges_overlap, conflicts_with, find_conflicts}

-- One edit ends in the base at or in front of the line where the other starts.
abbrev pub Apart : Edit → Edit → Type 0
Apart o t = (o.old_end ≤ t.old_start) ⊎ (t.old_end ≤ o.old_start)

ranges_overlap-Apart :
    (o t : Edit) → Apart o t → ranges_overlap o.old_start o.old_end t.old_start t.old_end ≡ false
unfolding ranges_overlap
ranges_overlap-Apart o t (inl first) = ground arith
ranges_overlap-Apart o t (inr second) = ground arith

Apart-ranges_overlap :
    (o t : Edit) → ranges_overlap o.old_start o.old_end t.old_start t.old_end ≡ false → Apart o t
unfolding ranges_overlap
Apart-ranges_overlap o t e = ground arith

cons-ne-nil : {c : Conflict} {cs : List Conflict} → c ∷ cs ≡ [] → ⊥
cons-ne-nil e = cc

append-eq-nil : (xs ys : List Conflict) → xs ++ ys ≡ [] → (xs ≡ []) × (ys ≡ [])
append-eq-nil [] ys e = (refl, e)
append-eq-nil (x ∷ xs) ys e = absurd (cons-ne-nil e)

conflicts_with-Apart :
    (o : Edit) (theirs : List Edit)
    → (conflicts_with o theirs ≡ [] → All (Apart o) theirs)
      × (All (Apart o) theirs → conflicts_with o theirs ≡ [])
unfolding conflicts_with
conflicts_with-Apart o [] = ((λ e. tt), (λ a. refl))
conflicts_with-Apart o (t ∷ theirs) =
    let rest = conflicts_with-Apart o theirs in
    (
      (λ e. elim (Bool-cases (ranges_overlap o.old_start o.old_end t.old_start t.old_end)) [
        | inl meet ↦ absurd (cons-ne-nil (rw meet at e))
        | inr apart ↦ (Apart-ranges_overlap o t apart, rest.0 (rw apart at e))
      ]),
      (λ a. rw (ranges_overlap-Apart o t a.0) (rest.1 a.1)),
    )

-- `findConflicts` reports nothing exactly when each edit of ours and each of theirs are apart in the
-- base, that is, one ends at or in front of the line where the other starts. Two insertions at the
-- same place are apart, so they are not reported.
pub find_conflicts-Apart :
    (ours theirs : List Edit)
    → (find_conflicts ours theirs ≡ [] → All (λ o. All (Apart o) theirs) ours)
      × (All (λ o. All (Apart o) theirs) ours → find_conflicts ours theirs ≡ [])
unfolding find_conflicts
find_conflicts-Apart [] theirs = ((λ e. tt), (λ a. refl))
find_conflicts-Apart (o ∷ ours) theirs =
    let rest = find_conflicts-Apart ours theirs in
    let first = conflicts_with-Apart o theirs in
    (
      (λ e.
          let (none_here, none_later) =
            append-eq-nil (conflicts_with o theirs) (find_conflicts ours theirs) e in
          (first.0 none_here, rest.0 none_later)),
      (λ a. rw (first.1 a.0, rest.1 a.1) refl),
    )
