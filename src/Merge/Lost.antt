-- ===== src/Merge/Lost.antt =====
-- internal/merge/merge.go: `applyEdits` against the description of the lines that stay.
use minus_sync.Prelude.{
  ℕ, zero, suc, ◌+◌, ◌-◌, ◌≤◌, ◌<◌, true, false, ◌||◌, List, [], ◌∷◌, ◌++◌, Bytes, length, take,
  drop, drop-nil, drop-drop, ◌==◌, append_assoc, Bool-cases, inl, inr, ◌⊎◌, ◌≡◌, refl, sym, ap, ◌∙◌,
  arith,
}
use minus_sync.Merge.{
  Edit, op_insert, op_delete, op_equal, copy_until, pos_after, edits_loop, split_lines, apply_lines,
}
use minus_sync.Merge.Uncovered.{
  covers, covered, uncovered, Ordered, Ordered-le, covered-Ordered, uncovered-nil, uncovered-kept,
  uncovered-lost, uncovered-same,
}

module _ (lines : List Bytes) where
  -- What is uncovered from a line on.
  abbrev left : ℕ → List Edit → List Bytes
  left pos edits = uncovered pos edits (drop pos lines)

  left-kept :
      (pos stop : ℕ) (edits : List Edit)
      → pos ≤ stop
      → ((j : ℕ) → pos ≤ j → j < stop → covered edits j ≡ false)
      → left pos edits ≡ copy_until lines pos stop ++ left stop edits
  unfolding copy_until
  left-kept pos stop edits le free =
      let reach : pos + (stop - pos) ≡ stop = omega (arith, le) in
      uncovered-kept (stop - pos) pos edits (drop pos lines)
        (λ j from to. free j from (omega (arith, to, le)))
      ∙ ap (◌++◌ (take (stop - pos) (drop pos lines)))
          (rw (drop-drop pos (stop - pos) lines, reach) refl)

  left-lost :
      (pos stop : ℕ) (edits : List Edit)
      → pos ≤ stop
      → ((j : ℕ) → pos ≤ j → j < stop → covered edits j ≡ true)
      → left pos edits ≡ left stop edits
  left-lost pos stop edits le held =
      let reach : pos + (stop - pos) ≡ stop = omega (arith, le) in
      uncovered-lost (stop - pos) pos edits (drop pos lines)
        (λ j from to. held j from (omega (arith, to, le)))
      ∙ rw (drop-drop pos (stop - pos) lines, reach) refl

  drop_all : (n : ℕ) (xs : List Bytes) → length xs ≤ n → drop n xs ≡ []
  drop_all n [] le = drop-nil n
  drop_all zero (x ∷ xs) le = absurd (omega (arith, le))
  drop_all (suc n) (x ∷ xs) le = drop_all n xs (omega (arith, le))

  -- The loop stops where it is told to, or behind the last line.
  pos_after-cases :
      (pos stop : ℕ)
      → pos ≤ stop
      → (pos_after lines pos stop ≡ stop)
        ⊎ ((length lines ≤ pos_after lines pos stop) × (pos_after lines pos stop ≤ stop))
  unfolding pos_after
  pos_after-cases pos stop le = ground arith

  pos_after-le : (pos stop : ℕ) → pos ≤ stop → pos_after lines pos stop ≤ stop
  pos_after-le pos stop le = elim (pos_after-cases pos stop le) [
    | inl there ↦ omega (arith, there)
    | inr (behind, within) ↦ within
  ]

  left-pos_after :
      (pos stop : ℕ) (edits : List Edit)
      → pos ≤ stop
      → left (pos_after lines pos stop) edits ≡ left stop edits
  unfolding uncovered
  left-pos_after pos stop edits le = elim (pos_after-cases pos stop le) [
    | inl there ↦ ap (λ p. left p edits) there
    | inr (behind, within) ↦
        rw
          (
            drop_all (pos_after lines pos stop) lines behind,
            drop_all stop lines (omega (arith, behind, within)),
          )
          refl
  ]

  -- A first edit that covers nothing from here on may be left out.
  left-skip :
      (pos : ℕ) (e : Edit) (edits : List Edit)
      → ((j : ℕ) → pos ≤ j → covers e j ≡ false)
      → left pos (e ∷ edits) ≡ left pos edits
  unfolding covered
  left-skip pos e edits free =
      uncovered-same pos (e ∷ edits) edits (drop pos lines) (λ j le. rw (free j le) refl)

  before-edit :
      (pos : ℕ) (e : Edit) (edits : List Edit)
      → Ordered pos (e ∷ edits)
      → left pos (e ∷ edits) ≡ copy_until lines pos e.new_start ++ left e.new_start (e ∷ edits)
  before-edit pos e edits (first, size, o) =
      left-kept pos e.new_start (e ∷ edits) first
        (λ j from to. covered-Ordered j e.new_start (e ∷ edits) to (omega arith, size, o))

  -- The lines of an insertion or a deletion are lost.
  at-lost :
      (e : Edit) (edits : List Edit)
      → (e.op == op_delete || e.op == op_insert) ≡ true
      → e.new_start ≤ e.new_end
      → left e.new_start (e ∷ edits) ≡ left e.new_end edits
  unfolding covered covers
  at-lost e edits kind size =
      left-lost e.new_start e.new_end (e ∷ edits) size (λ j from to. ground (arith, kind, from, to))
      ∙ left-skip e.new_end e edits (λ j le. ground (arith, le))

  -- The lines of any other edit stay.
  at-kept :
      (e : Edit) (edits : List Edit)
      → (e.op == op_delete || e.op == op_insert) ≡ false
      → left e.new_start (e ∷ edits) ≡ left e.new_start edits
  unfolding covers
  at-kept e edits kind = left-skip e.new_start e edits (λ j le. rw kind refl)

  edits_loop-uncovered :
      (result : List Bytes) (pos : ℕ) (edits : List Edit)
      → Ordered pos edits
      → edits_loop lines result pos edits ≡ result ++ left pos edits
  unfolding edits_loop
  edits_loop-uncovered result pos [] o = ap (◌++◌ result) (sym (uncovered-nil pos (drop pos lines)))
  edits_loop-uncovered result pos (e ∷ edits) (first, size, o) =
      let before = result ++ copy_until lines pos e.new_start in
      let at = pos_after lines pos e.new_start in
      let at_le : at ≤ e.new_end = omega (arith, pos_after-le pos e.new_start first, size) in
      let end = pos_after lines at e.new_end in
      let regroup : before ++ left e.new_start (e ∷ edits) ≡ result ++ left pos (e ∷ edits) =
        append_assoc result (copy_until lines pos e.new_start) (left e.new_start (e ∷ edits))
        ∙ ap (◌++◌ result) (sym (before-edit pos e edits (first, size, o))) in
      let here : (e.op == op_delete || e.op == op_insert) ≡ false
          → left at edits ≡ left e.new_start (e ∷ edits) =
        λ kind. left-pos_after pos e.new_start edits first ∙ sym (at-kept e edits kind) in
      elim (Bool-cases (e.op == op_delete)) [
        | inl delete ↦ rw delete (
            edits_loop-uncovered before e.new_end edits o
            ∙ ap (◌++◌ before) (sym (at-lost e edits (rw delete refl) size))
            ∙ regroup)
        | inr other ↦ elim (Bool-cases (e.op == op_insert)) [
          | inl insert ↦
              rw (other, insert)
                (edits_loop-uncovered before e.new_end edits o
                  ∙ ap (◌++◌ before) (sym (at-lost e edits (rw (other, insert) refl) size))
                  ∙ regroup)
          | inr neither ↦
              let kind : (e.op == op_delete || e.op == op_insert) ≡ false =
                rw (other, neither) refl in
              elim (Bool-cases (e.op == op_equal)) [
                | inl equal ↦
                    rw (other, neither, equal)
                      (edits_loop-uncovered (before ++ copy_until lines at e.new_end) end edits
                          (Ordered-le end e.new_end edits (pos_after-le at e.new_end at_le) o)
                        ∙ append_assoc before (copy_until lines at e.new_end) (left end edits)
                        ∙ ap (λ xs. before ++ (copy_until lines at e.new_end ++ xs))
                            (left-pos_after at e.new_end edits at_le)
                        ∙ ap (◌++◌ before) (
                            sym (
                              left-kept at e.new_end edits at_le
                                (λ j from to. covered-Ordered j e.new_end edits to o))
                            ∙ here kind)
                        ∙ regroup)
                | inr unknown ↦
                    rw (other, neither, unknown)
                      (edits_loop-uncovered before at edits (Ordered-le at e.new_end edits at_le o)
                        ∙ ap (◌++◌ before) (here kind)
                        ∙ regroup)
              ]
        ]
      ]

-- Applying edits that stand in the order of the new text leaves the lines of the text that no
-- insertion and no deletion covers, in their order, and nothing else: a line is lost when its number
-- is in the range of the new text that an insertion or a deletion has, and no line is put in.
pub apply_lines-uncovered :
    (text : Bytes) (edits : List Edit)
    → Ordered 0 edits
    → apply_lines (split_lines text) edits ≡ uncovered 0 edits (split_lines text)
unfolding apply_lines
apply_lines-uncovered text edits o = edits_loop-uncovered (split_lines text) [] 0 edits o
