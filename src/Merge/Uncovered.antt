-- ===== src/Merge/Uncovered.antt =====
-- internal/merge/merge.go: the lines that no insertion and no deletion covers.
use minus_sync.Prelude.{
  ℕ, zero, suc, ◌+◌, ◌≤◌, ◌<◌, Bool, true, false, ◌&&◌, ◌||◌, List, [], ◌∷◌, ◌++◌, Bytes, take,
  drop, ltb, leb, ◌==◌, if◌then◌else◌, ◌≡◌, refl, ap, ◌∙◌, arith,
}
use minus_sync.Merge.{Edit, op_insert, op_delete}

-- An insertion or a deletion covers the lines from its start in the new text to its end there.
unfoldable pub covers : Edit → ℕ → Bool
covers e i = (e.op == op_delete || e.op == op_insert) && (leb e.new_start i && ltb i e.new_end)

unfoldable pub covered : List Edit → ℕ → Bool
unfolding covers
covered [] i = false
covered (e ∷ edits) i = covers e i || covered edits i

-- The lines, numbered from `i` on, that no edit covers.
unfoldable pub uncovered : ℕ → List Edit → List Bytes → List Bytes
unfolding covered
uncovered i edits [] = []
uncovered i edits (line ∷ lines) =
    let rest = uncovered (i + 1) edits lines in if covered edits i then rest else line ∷ rest

-- Each edit begins at or behind the end of the one before it, and ends at or behind its start.
abbrev pub Ordered : ℕ → List Edit → Type 0
Ordered pos [] = Unit {0}
Ordered pos (e ∷ edits) = (pos ≤ e.new_start) × (e.new_start ≤ e.new_end) × Ordered e.new_end edits

pub Ordered-le : (p q : ℕ) (edits : List Edit) → p ≤ q → Ordered q edits → Ordered p edits
Ordered-le p q [] le o = tt
Ordered-le p q (e ∷ edits) le (first, size, o) = (omega (arith, le, first), size, o)

pub covered-Ordered :
    (i p : ℕ) (edits : List Edit) → i < p → Ordered p edits → covered edits i ≡ false
unfolding covered covers
covered-Ordered i p [] lt o = refl
covered-Ordered i p (e ∷ edits) lt (first, size, o) =
    let rest = covered-Ordered i e.new_end edits (omega (arith, lt, first, size)) o in
    ground (arith, rest, lt, first)

uncovered-at :
    (i j : ℕ) (edits : List Edit) (lines : List Bytes)
    → i ≡ j
    → uncovered i edits lines ≡ uncovered j edits lines
uncovered-at i j edits lines e = ap (λ k. uncovered k edits lines) e

pub uncovered-kept :
    (n i : ℕ) (edits : List Edit) (lines : List Bytes)
    → ((j : ℕ) → i ≤ j → j < i + n → covered edits j ≡ false)
    → uncovered i edits lines ≡ take n lines ++ uncovered (i + n) edits (drop n lines)
unfolding uncovered
uncovered-kept zero i edits lines free = uncovered-at i (i + 0) edits lines (omega arith)
uncovered-kept (suc n) i edits [] free = unfold uncovered in refl
uncovered-kept (suc n) i edits (line ∷ lines) free = rw (free i (omega arith) (omega arith)) (
    ap (◌∷◌ line) (
      uncovered-kept n (i + 1) edits lines
        (λ j le lt. free j (omega (arith, le)) (omega (arith, lt)))
      ∙ ap (◌++◌ (take n lines))
          (uncovered-at (i + 1 + n) (i + suc n) edits (drop n lines) (omega arith))))

pub uncovered-lost :
    (n i : ℕ) (edits : List Edit) (lines : List Bytes)
    → ((j : ℕ) → i ≤ j → j < i + n → covered edits j ≡ true)
    → uncovered i edits lines ≡ uncovered (i + n) edits (drop n lines)
unfolding uncovered
uncovered-lost zero i edits lines held = uncovered-at i (i + 0) edits lines (omega arith)
uncovered-lost (suc n) i edits [] held = refl
uncovered-lost (suc n) i edits (line ∷ lines) held = rw (held i (omega arith) (omega arith)) (
    uncovered-lost n (i + 1) edits lines (λ j le lt. held j (omega (arith, le)) (omega (arith, lt)))
    ∙ uncovered-at (i + 1 + n) (i + suc n) edits (drop n lines) (omega arith))

pub uncovered-same :
    (i : ℕ) (edits others : List Edit) (lines : List Bytes)
    → ((j : ℕ) → i ≤ j → covered edits j ≡ covered others j)
    → uncovered i edits lines ≡ uncovered i others lines
unfolding uncovered
uncovered-same i edits others [] same = refl
uncovered-same i edits others (line ∷ lines) same =
    rw
      (
        same i (omega arith),
        uncovered-same (i + 1) edits others lines (λ j le. same j (omega (arith, le))),
      )
      refl

-- Without edits all lines stay.
pub uncovered-nil : (i : ℕ) (lines : List Bytes) → uncovered i [] lines ≡ lines
unfolding uncovered covered
uncovered-nil i [] = refl
uncovered-nil i (line ∷ lines) = ap (◌∷◌ line) (uncovered-nil (i + 1) lines)
