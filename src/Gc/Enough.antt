-- ===== src/Gc/Enough.antt =====
-- internal/gc/gc.go: `markReachable` returns.
use minus_sync.Prelude.{
  ℕ, zero, suc, ◌+◌, ◌≤◌, ◌<◌, true, false, some, List, [], ◌∷◌, Bytes, All, length, if◌then◌else◌,
  ◌≡◌, refl, sym, subst, inl, inr, Bool-cases, arith,
}
use minus_sync.Hash.{Hash, hex}
use minus_sync.Gc.Keys.{contains-cons, contains_behind, contains_first}
use minus_sync.Gc.{contains, mark_all, mark}
use minus_sync.Gc.Mark.{IsMarked, Marks-mark}

-- The keys of the universe that are not marked.
unmarked : List Bytes → List Bytes → ℕ
unmarked [] marked = 0
unmarked (key ∷ keys) marked = (if contains key marked then 0 else 1) + unmarked keys marked

unmarked-grows :
    (keys before after : List Bytes)
    → ((key : Bytes) → contains key before ≡ true → contains key after ≡ true)
    → unmarked keys after ≤ unmarked keys before
unfolding unmarked
unmarked-grows [] before after grows = omega arith
unmarked-grows (key ∷ keys) before after grows =
    ground (arith, unmarked-grows keys before after grows, grows key)

unmarked-first :
    (key : Bytes) (keys marked : List Bytes)
    → contains key keys ≡ true
    → contains key marked ≡ false
    → unmarked keys (key ∷ marked) < unmarked keys marked
unfolding unmarked
unmarked-first key [] marked inside fresh = absurd (unfold contains in cc)
unmarked-first key (other ∷ keys) marked inside fresh =
    let fewer = unmarked-grows keys marked (key ∷ marked) (λ k e. contains_behind key k marked e) in
    elim (contains-cons other key keys inside) [
      | inl same ↦
          let there : contains other (key ∷ marked) ≡ true =
            subst (λ x. contains x (key ∷ marked) ≡ true) (sym same) (contains_first key marked) in
          let missing : contains other marked ≡ false =
            subst (λ x. contains x marked ≡ false) (sym same) fresh in
          rw (there, missing) (omega (arith, fewer))
      | inr inside_keys ↦ ground (
        arith,
        unmarked-first key keys marked inside_keys fresh,
        contains_behind key other marked,
      )
    ]

length-unmarked : (keys marked : List Bytes) → unmarked keys marked ≤ length keys
unfolding unmarked
length-unmarked [] marked = omega arith
length-unmarked (key ∷ keys) marked = ground (arith, length-unmarked keys marked)

module _ (children : Hash → List Hash) (keys : List Bytes) where
  -- The universe holds the keys of all children of what it holds.
  pub record IsClosed : Type 0 where
    pub at : (h : Hash) → IsMarked keys h → All (IsMarked keys) (children h)

  -- The call returns.
  abbrev Answers : ℕ → Type 0
  Answers fuel =
      (h : Hash) (marked : List Bytes)
      → IsMarked keys h
      → unmarked keys marked < fuel
      → (after : List Bytes) × (mark children fuel h marked ≡ some after)

  mark_all-Answers :
      (fuel : ℕ)
      → Answers fuel
      → (hashes : List Hash) (marked : List Bytes) → All (IsMarked keys) hashes
      → unmarked keys marked < fuel
      → (after : List Bytes) × (mark_all (mark children fuel) hashes marked ≡ some after)
  unfolding mark_all
  mark_all-Answers fuel answers [] marked inside enough = (marked, refl)
  mark_all-Answers fuel answers (h ∷ hashes) marked (here, inside) enough =
      let (between, e) = answers h marked here enough in
      let grows = (Marks-mark children fuel h marked between e).grows in
      let (after, f) =
        mark_all-Answers fuel answers hashes between inside
          (omega (arith, unmarked-grows keys marked between grows, enough)) in
      (after, rw e f)

  mark-Answers : IsClosed → (fuel : ℕ) → Answers fuel
  unfolding mark
  mark-Answers closed zero h marked inside enough = absurd (omega arith)
  mark-Answers closed (suc fuel) h marked inside enough =
      elim (Bool-cases (contains (hex h) marked)) [
        | inl old ↦ (marked, rw old refl)
        | inr new ↦
            let fewer = unmarked-first (hex h) keys marked inside new in
            let (after, e) =
              mark_all-Answers fuel (mark-Answers closed fuel) (children h) (hex h ∷ marked)
                (closed.at h inside) (omega (arith, fewer, enough)) in
            (after, rw new e)
      ]

  -- Marking returns, whether or not the objects refer to each other in a circle, if the roots are
  -- in a finite set of hashes that holds the children of its members, with more fuel than it has
  -- members.
  pub mark_all-returns :
      (fuel : ℕ) (roots : List Hash)
      → IsClosed
      → All (IsMarked keys) roots
      → length keys < fuel
      → (after : List Bytes) × (mark_all (mark children fuel) roots [] ≡ some after)
  mark_all-returns fuel roots closed inside enough =
      mark_all-Answers fuel (mark-Answers closed fuel) roots [] inside
        (omega (arith, length-unmarked keys [], enough))
