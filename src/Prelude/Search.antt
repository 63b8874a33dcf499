-- ===== src/Prelude/Search.antt =====
-- `sort.Search`, and searches in a slice that is sorted by a key of bytes.
use Prim.Native.Nat.{ℕ, zero, suc, ◌+◌, ◌/◌, ◌≤◌, ◌<◌}
use mathlib.Core.Path.{◌≡◌, refl, sym, ◌∙◌}
use mathlib.Core.Logic.{inl, inr}
use mathlib.Core.Bool.{Bool, true, false, not}
use mathlib.Core.Option.{Option, none, some}
use mathlib.Core.List.{List, [], ◌∷◌}
use native.Mathlib.Omega.{arith}
use mathlib.Core.Bool.{false≢true}
use native.Mathlib.Decide.{dec_lt}
use minus_sync.Prelude.Tests.{ltb, if◌then◌else◌, Bool-cases}
use minus_sync.Prelude.Lists.{Bytes, length, get_elem?, All}
use minus_sync.Prelude.Strings.{
  bytes_less, bytes_less_trans, bytes_less-ne, bytes_equal, bytes_equal_iff,
}

-- `i, j := 0, n`; while `i < j` the loop halves the range.
unfoldable pub search_loop : ℕ → (ℕ → Bool) → ℕ → ℕ → ℕ
search_loop zero f i j = i
search_loop (suc fuel) f i j =
    let h = (i + j) / 2 in
    let next = search_loop fuel f (if f h then i else h + 1) (if f h then h else j) in
    if ltb i j then next else i

-- The range shrinks in every turn, so `n` turns are enough.
unfoldable pub sort_search : ℕ → (ℕ → Bool) → ℕ
unfolding search_loop
sort_search n f = search_loop n f 0 n

-- `f` changes from false to true at `r`.
pub record Switches (n : ℕ) (f : ℕ → Bool) (r : ℕ) : Type 0 where
  pub bound : r ≤ n
  pub below : (k : ℕ) → k < r → f k ≡ false
  pub above : (k : ℕ) → r ≤ k → k < n → f k ≡ true

between :
    (f : ℕ → Bool) (h r n : ℕ)
    → Switches n f r
    → h < n
    → (f h ≡ true → r ≤ h) × (f h ≡ false → h < r)
between f h r n s lt = elim (dec_lt h r) [
  | yes less ↦ ((λ e. absurd (false≢true (sym (s.below h less) ∙ e))), λ e. less)
  | no more ↦ ((λ e. omega arith), λ e. absurd (false≢true (sym e ∙ s.above h (omega arith) lt)))
]

search_loop-Switches :
    (fuel : ℕ) (f : ℕ → Bool) (i j n r : ℕ)
    → Switches n f r
    → i ≤ r
    → r ≤ j
    → j ≤ n
    → j ≤ i + fuel
    → search_loop fuel f i j ≡ r
unfolding search_loop
search_loop-Switches zero f i j n r s lo hi end enough = omega arith
search_loop-Switches (suc fuel) f i j n r s lo hi end enough = elim (Bool-cases (ltb i j)) [
  | inr done ↦ rw done (ground arith)
  | inl more ↦
      let lt : i < j = ground arith in
      let (at_most, at_least) = between f ((i + j) / 2) r n s (omega arith) in
      elim (Bool-cases (f ((i + j) / 2))) [
        | inl e ↦
            rw (more, e)
              (search_loop-Switches fuel f i ((i + j) / 2) n r s lo (at_most e) (omega arith)
                (omega arith))
        | inr e ↦
            rw (more, e)
              (search_loop-Switches fuel f ((i + j) / 2 + 1) j n r s
                (let up = at_least e in omega arith) hi end (omega arith))
      ]
]

-- `sort.Search` finds the place where a predicate changes from false to true.
pub sort_search-Switches : (n : ℕ) (f : ℕ → Bool) (r : ℕ) → Switches n f r → sort_search n f ≡ r
unfolding sort_search
sort_search-Switches n f r s =
    search_loop-Switches n f 0 n n r s (omega arith) s.bound (omega arith) (omega arith)

module _ {ℓ} {A : Type ℓ} (key : A → Bytes) where
  -- The keys increase from each element to every later one.
  abbrev pub IsSorted : List A → Type 0
  IsSorted [] = Unit {0}
  IsSorted (x ∷ xs) = All (λ y. bytes_less (key x) (key y) ≡ true) xs × IsSorted xs

  -- How many elements at the front have a smaller key.
  abbrev pub rank : Bytes → List A → ℕ
  rank k [] = 0
  rank k (x ∷ xs) = if bytes_less (key x) k then suc (rank k xs) else 0

  -- The predicate that the program gives to `sort.Search`: `key(xs[i]) >= k`.
  abbrev pub at_least : Bytes → List A → ℕ → Bool
  at_least k xs i = elim (get_elem? xs i) [ none ↦ true | some x ↦ not (bytes_less (key x) k) ]

  rank-le : (k : Bytes) (xs : List A) → rank k xs ≤ length xs
  rank-le k [] = omega arith
  rank-le k (x ∷ xs) = ground (arith, rank-le k xs)

  rank-below : (k : Bytes) (xs : List A) (i : ℕ) → i < rank k xs → at_least k xs i ≡ false
  rank-below k [] i h = absurd (omega arith)
  rank-below k (x ∷ xs) zero h = ground arith
  rank-below k (x ∷ xs) (suc i) h = ground (arith, rank-below k xs i)

  at_least_behind :
      (k y : Bytes) (xs : List A) (i : ℕ)
      → bytes_less y k ≡ false
      → All (λ x. bytes_less y (key x) ≡ true) xs
      → at_least k xs i ≡ true
  at_least_behind k y [] i h a = refl
  at_least_behind k y (x ∷ xs) zero h (lt, a) = ground (arith, bytes_less_trans y (key x) k lt)
  at_least_behind k y (x ∷ xs) (suc i) h (lt, a) = at_least_behind k y xs i h a

  rank-above :
      (k : Bytes) (xs : List A) (i : ℕ) → IsSorted xs → rank k xs ≤ i → at_least k xs i ≡ true
  rank-above k [] i s h = refl
  rank-above k (x ∷ xs) zero (a, s) h = ground arith
  rank-above k (x ∷ xs) (suc i) (a, s) h = elim (Bool-cases (bytes_less (key x) k)) [
    | inl less ↦ rank-above k xs i s (ground arith)
    | inr more ↦ at_least_behind k (key x) xs i more a
  ]

  -- In a sorted slice the binary search returns the rank of the key.
  pub sort_search-rank :
      (k : Bytes) (xs : List A) → IsSorted xs → sort_search (length xs) (at_least k xs) ≡ rank k xs
  sort_search-rank k xs s = sort_search-Switches (length xs) (at_least k xs) (rank k xs) (record {
    bound = rank-le k xs;
    below = λ i h. rank-below k xs i h;
    above = λ i h lt. rank-above k xs i s h;
  })

module _ {ℓ} {A : Type ℓ} (key : A → Bytes) where
  -- The specification of a lookup: the first element with the key.
  abbrev pub lookup_key : Bytes → List A → Option A
  lookup_key k [] = none
  lookup_key k (x ∷ xs) = if bytes_equal (key x) k then some x else lookup_key k xs

  -- The lookup of the program: the element at a position, if it has the key.
  abbrev pub matching : Bytes → Option A → Option A
  matching k none = none
  matching k (some x) = if bytes_equal (key x) k then some x else none

  pub lookup_key-above :
      (k y : Bytes) (xs : List A)
      → bytes_less y k ≡ false
      → All (λ x. bytes_less y (key x) ≡ true) xs
      → lookup_key k xs ≡ none
  lookup_key-above k y [] h a = refl
  lookup_key-above k y (x ∷ xs) h (lt, a) = elim (Bool-cases (bytes_equal (key x) k)) [
    | inl same ↦ absurd (false≢true (sym h ∙ rw ((bytes_equal_iff (key x) k).0 same) at lt))
    | inr other ↦ rw other (lookup_key-above k y xs h a)
  ]

  pub matching-rank :
      (k : Bytes) (xs : List A)
      → IsSorted key xs
      → matching k (get_elem? xs (rank key k xs)) ≡ lookup_key k xs
  matching-rank k [] s = refl
  matching-rank k (x ∷ xs) (a, s) = elim (Bool-cases (bytes_less (key x) k)) [
    | inl less ↦ rw (less, bytes_less-ne (key x) k less) (matching-rank k xs s)
    | inr more ↦ rw more (elim (Bool-cases (bytes_equal (key x) k)) [
      | inl same ↦ rw same refl
      | inr other ↦ rw other (sym (lookup_key-above k (key x) xs more a))
    ])
  ]
