-- ===== src/Prelude/Sort.antt =====
-- `sort.Slice` by a key of bytes. It need not be stable: on different keys there is one result.
use mathlib.Core.Path.{◌≡◌, refl, ap, sym, ◌∙◌, subst}
use Prim.Native.Nat.{suc}
use mathlib.Core.Logic.{inl, inr}
use mathlib.Core.Bool.{true, false, true≢false}
use mathlib.Core.List.{List, [], ◌∷◌, Memᴰ}
use mathlib.Core.Option.{some}
use minus_sync.Prelude.Tests.{if◌then◌else◌, Bool-cases}
use minus_sync.Prelude.Lists.{Bytes, All, length}
use minus_sync.Prelude.Strings.{
  bytes_equal, bytes_equal_iff, bytes_less, bytes_less_irrefl, bytes_less_trans, bytes_less_total,
  bytes_less-ne,
}
use minus_sync.Prelude.Search.{IsSorted, lookup_key}

not_less : (p q : Bytes) → bytes_less p q ≡ true → bytes_less q p ≡ false
not_less p q h = elim (Bool-cases (bytes_less q p)) [
  | inl back ↦ absurd (true≢false (sym (bytes_less_trans p q p h back) ∙ bytes_less_irrefl p))
  | inr more ↦ more
]

module _ {ℓ} {A : Type ℓ} (key : A → Bytes) where
  unfoldable pub insert_by : A → List A → List A
  insert_by x [] = x ∷ []
  insert_by x (y ∷ ys) =
      let later = y ∷ insert_by x ys in if bytes_less (key y) (key x) then later else x ∷ y ∷ ys

  unfoldable pub sort_by : List A → List A
  unfolding insert_by
  sort_by [] = []
  sort_by (x ∷ xs) = insert_by x (sort_by xs)

  length-insert_by : (x : A) (xs : List A) → length (insert_by x xs) ≡ suc (length xs)
  unfolding insert_by
  length-insert_by x [] = refl
  length-insert_by x (y ∷ ys) = elim (Bool-cases (bytes_less (key y) (key x))) [
    | inl less ↦ rw less (ap suc (length-insert_by x ys))
    | inr other ↦ rw other refl
  ]

  pub length-sort_by : (xs : List A) → length (sort_by xs) ≡ length xs
  unfolding sort_by
  length-sort_by [] = refl
  length-sort_by (x ∷ xs) = length-insert_by x (sort_by xs) ∙ ap suc (length-sort_by xs)

  -- What is sorted already stays as it is.
  pub sort_by-IsSorted : (xs : List A) → IsSorted key xs → sort_by xs ≡ xs
  unfolding sort_by insert_by
  sort_by-IsSorted [] s = refl
  sort_by-IsSorted (x ∷ []) s = refl
  sort_by-IsSorted (x ∷ y ∷ xs) ((lt, a), s) =
      ap (insert_by x) (sort_by-IsSorted (y ∷ xs) s) ∙ rw (not_less (key x) (key y) lt) refl

  insert_by-All {κ} :
      (P : A → Type κ) (x : A) (xs : List A) → P x → All P xs → All P (insert_by x xs)
  unfolding insert_by
  insert_by-All P x [] p a = (p, tt)
  insert_by-All P x (y ∷ ys) p (q, a) = elim (Bool-cases (bytes_less (key y) (key x))) [
    | inl less ↦ rw less (q, insert_by-All P x ys p a)
    | inr more ↦ rw more (p, (q, a))
  ]

  -- What holds of all elements holds of them in order.
  pub sort_by-All {κ} : (P : A → Type κ) (xs : List A) → All P xs → All P (sort_by xs)
  unfolding sort_by
  sort_by-All P [] a = tt
  sort_by-All P (x ∷ xs) (p, a) = insert_by-All P x (sort_by xs) p (sort_by-All P xs a)

  abbrev pub IsOther : A → A → Type 0
  IsOther x y = bytes_equal (key x) (key y) ≡ false

  -- No two elements have the same key.
  abbrev pub Distinct : List A → Type 0
  Distinct [] = Unit {0}
  Distinct (x ∷ xs) = All (IsOther x) xs × Distinct xs

  -- Of two different keys that are not in falling order, the first is the smaller.
  less_of_other :
      (p q : Bytes) → bytes_less q p ≡ false → bytes_equal p q ≡ false → bytes_less p q ≡ true
  less_of_other p q h ne = elim (Bool-cases (bytes_less p q)) [
    | inl less ↦ less
    | inr more ↦
        absurd (true≢false (sym ((bytes_equal_iff p q).1 (bytes_less_total p q more h)) ∙ ne))
  ]

  All-bytes_less :
      (p q : Bytes) (xs : List A)
      → bytes_less p q ≡ true
      → All (λ y. bytes_less q (key y) ≡ true) xs
      → All (λ y. bytes_less p (key y) ≡ true) xs
  All-bytes_less p q [] less a = tt
  All-bytes_less p q (x ∷ xs) less (h, a) =
      (bytes_less_trans p q (key x) less h, All-bytes_less p q xs less a)

  insert_by-Sorted :
      (x : A) (xs : List A) → IsSorted key xs → All (IsOther x) xs → IsSorted key (insert_by x xs)
  unfolding insert_by
  insert_by-Sorted x [] s other = (tt, tt)
  insert_by-Sorted x (y ∷ ys) (a, s) (ne, other) = elim (Bool-cases (bytes_less (key y) (key x))) [
    | inl less ↦ rw less (
      insert_by-All (λ z. bytes_less (key y) (key z) ≡ true) x ys less a,
      insert_by-Sorted x ys s other,
    )
    | inr more ↦
        let first = less_of_other (key x) (key y) more ne in
        rw more ((first, All-bytes_less (key x) (key y) ys first a), (a, s))
  ]

  -- Elements with different keys come out sorted.
  pub sort_by-Distinct : (xs : List A) → Distinct xs → IsSorted key (sort_by xs)
  unfolding sort_by
  sort_by-Distinct [] d = tt
  sort_by-Distinct (x ∷ xs) (other, d) =
      insert_by-Sorted x (sort_by xs) (sort_by-Distinct xs d) (sort_by-All (IsOther x) xs other)

  insert_by-behind :
      {y : A} (x z : A) (zs : List A)
      → (Memᴰ y (x ∷ zs) → Memᴰ y (insert_by x zs))
      → Memᴰ y (x ∷ z ∷ zs)
      → Memᴰ y (z ∷ insert_by x zs)
  insert_by-behind x z zs deeper (Memᴰ.head e) = Memᴰ.tail (deeper (Memᴰ.head e))
  insert_by-behind x z zs deeper (Memᴰ.tail (Memᴰ.head e)) = Memᴰ.head e
  insert_by-behind x z zs deeper (Memᴰ.tail (Memᴰ.tail m)) = Memᴰ.tail (deeper (Memᴰ.tail m))

  All-Mem_less :
      (p : Bytes) (y : A) (xs : List A)
      → Memᴰ y xs
      → All (λ z. bytes_less p (key z) ≡ true) xs
      → bytes_less p (key y) ≡ true
  All-Mem_less p y [] m a = elim m [ ]
  All-Mem_less p y (x ∷ xs) (Memᴰ.head e) (h, a) =
      subst (λ z. bytes_less p (key z) ≡ true) (sym e) h
  All-Mem_less p y (x ∷ xs) (Memᴰ.tail m) (h, a) = All-Mem_less p y xs m a

  insert_by-Mem : {y : A} (x : A) (xs : List A) → Memᴰ y (x ∷ xs) → Memᴰ y (insert_by x xs)
  unfolding insert_by
  insert_by-Mem x [] m = m
  insert_by-Mem x (z ∷ zs) m = elim (Bool-cases (bytes_less (key z) (key x))) [
    | inl less ↦ rw less (insert_by-behind x z zs (insert_by-Mem x zs) m)
    | inr more ↦ rw more m
  ]

  -- Nothing is lost.
  pub sort_by-Mem : {y : A} (xs : List A) → Memᴰ y xs → Memᴰ y (sort_by xs)
  unfolding sort_by
  sort_by-Mem [] m = m
  sort_by-Mem (x ∷ xs) (Memᴰ.head e) = insert_by-Mem x (sort_by xs) (Memᴰ.head e)
  sort_by-Mem (x ∷ xs) (Memᴰ.tail m) = insert_by-Mem x (sort_by xs) (Memᴰ.tail (sort_by-Mem xs m))

  -- In a sorted slice the lookup finds each element by its key.
  pub lookup_key-Mem :
      (y : A) (xs : List A) → IsSorted key xs → Memᴰ y xs → lookup_key key (key y) xs ≡ some y
  lookup_key-Mem y [] s m = elim m [ ]
  lookup_key-Mem y (x ∷ xs) (a, s) (Memᴰ.head e) =
      rw ((bytes_equal_iff (key x) (key y)).1 (ap key (sym e))) (ap some (sym e))
  lookup_key-Mem y (x ∷ xs) (a, s) (Memᴰ.tail m) =
      rw (bytes_less-ne (key x) (key y) (All-Mem_less (key x) y xs m a)) (lookup_key-Mem y xs s m)
