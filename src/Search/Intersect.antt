-- ===== src/Search/Intersect.antt =====
-- internal/search/index.go: `intersectPostings` keeps the documents that are in every list.
use minus_sync.Prelude.{
  ℕ, ◌+◌, ◌%◌, ◌^◌, Bool, true, false, ◌&&◌, ◌||◌, Option, none, some, List, [], ◌∷◌, ◌==◌, ◌≡◌,
  refl, sym, ap, ◌∙◌, arith, Bool-cases, Option-cases, inl, inr, ==_iff,
}
use mathlib.Core.List.{Permᴰ}
use minus_sync.Search.{
  Posting, find_posting, set_posting, first_docs, combine, next_docs, intersect_loop,
  intersect_postings,
}

-- A posting of the document is in the list.
unfoldable pub occurs : ℕ → List Posting → Bool
occurs k [] = false
occurs k (p ∷ postings) = (p.doc_id == k) || occurs k postings

unfoldable pub occurs_in_all : ℕ → List (List Posting) → Bool
unfolding occurs
occurs_in_all k [] = true
occurs_in_all k (postings ∷ all_postings) = occurs k postings && occurs_in_all k all_postings

occurs-set_posting :
    (k : ℕ) (p : Posting) (m : List Posting)
    → occurs k (set_posting p m) ≡ ((p.doc_id == k) || occurs k m)
unfolding occurs set_posting
occurs-set_posting k p [] = refl
occurs-set_posting k p (q ∷ m) = ground (arith, occurs-set_posting k p m)

occurs-first_docs :
    (k : ℕ) (postings m : List Posting)
    → occurs k (first_docs postings m) ≡ (occurs k postings || occurs k m)
unfolding occurs first_docs
occurs-first_docs k [] m = refl
occurs-first_docs k (p ∷ postings) m =
    ground (arith, occurs-first_docs k postings (set_posting p m), occurs-set_posting k p m)

some_injective : {p q : Posting} → ◌≡◌ {A = Option Posting} (some p) (some q) → p ≡ q
some_injective e = cc

find_posting-none : (k : ℕ) (m : List Posting) → find_posting k m ≡ none → occurs k m ≡ false
unfolding find_posting occurs
find_posting-none k [] e = refl
find_posting-none k (p ∷ m) e = ground (arith, find_posting-none k m)

-- What is found is of the document.
find_posting-some :
    (k : ℕ) (m : List Posting) (p : Posting)
    → find_posting k m ≡ some p
    → (p.doc_id ≡ k) × (occurs k m ≡ true)
unfolding find_posting occurs
find_posting-some k [] p e = absurd (cc)
find_posting-some k (q ∷ m) p e = elim (Bool-cases (q.doc_id == k)) [
  | inl same ↦
      let found : q ≡ p = some_injective (rw same at e) in
      (ap (λ (x : Posting). x.doc_id) (sym found) ∙ (==_iff q.doc_id k).0 same, rw same refl)
  | inr other ↦
      let (here, inside) = find_posting-some k m p (rw other at e) in
      (here, rw (other, inside) refl)
]

occurs-combine :
    (k : ℕ) (doc_ids : List Posting) (p : Posting) (next : List Posting)
    → occurs k (combine (find_posting p.doc_id doc_ids) p next)
      ≡ (((p.doc_id == k) && occurs k doc_ids) || occurs k next)
occurs-combine k doc_ids p next = elim (Bool-cases (p.doc_id == k)) [
  | inl same ↦
      let id : p.doc_id ≡ k = (==_iff p.doc_id k).0 same in
      elim (Option-cases (find_posting p.doc_id doc_ids)) [
        | inl missing ↦
            let lost : occurs k doc_ids ≡ false =
              ap (λ (x : ℕ). occurs x doc_ids) (sym id)
              ∙ find_posting-none p.doc_id doc_ids missing in
            rw (missing, same, lost) refl
        | inr (existing, found) ↦
            let (doc, there) = find_posting-some p.doc_id doc_ids existing found in
            let inside : occurs k doc_ids ≡ true =
              ap (λ (x : ℕ). occurs x doc_ids) (sym id) ∙ there in
            let first : (existing.doc_id == k) ≡ true = ground (arith, doc, id) in
            rw (found, same, inside)
              (occurs-set_posting k
                  (record existing { frequency = (existing.frequency + p.frequency) % 2 ^ 32 }) next
                ∙ rw first refl)
      ]
  | inr other ↦ elim (Option-cases (find_posting p.doc_id doc_ids)) [
    | inl missing ↦ rw (missing, other) refl
    | inr (existing, found) ↦
        let (doc, there) = find_posting-some p.doc_id doc_ids existing found in
        let first : (existing.doc_id == k) ≡ false = ground (arith, doc, other) in
        rw (found, other)
          (occurs-set_posting k
              (record existing { frequency = (existing.frequency + p.frequency) % 2 ^ 32 }) next
            ∙ rw first refl)
  ]
]

occurs-next_docs :
    (k : ℕ) (doc_ids postings next : List Posting)
    → occurs k (next_docs doc_ids postings next)
      ≡ ((occurs k postings && occurs k doc_ids) || occurs k next)
unfolding next_docs occurs
occurs-next_docs k doc_ids [] next = refl
occurs-next_docs k doc_ids (p ∷ postings) next = ground (
  arith,
  occurs-next_docs k doc_ids postings (combine (find_posting p.doc_id doc_ids) p next),
  occurs-combine k doc_ids p next,
)

occurs-intersect_loop :
    (k : ℕ) (doc_ids : List Posting) (all_postings : List (List Posting))
    → occurs k (intersect_loop doc_ids all_postings)
      ≡ (occurs k doc_ids && occurs_in_all k all_postings)
unfolding intersect_loop occurs_in_all
occurs-intersect_loop k doc_ids [] = ground arith
occurs-intersect_loop k doc_ids (postings ∷ all_postings) =
    let none_left : occurs k [] ≡ false = unfold occurs in refl in
    ground (
      arith,
      occurs-intersect_loop k (next_docs doc_ids postings []) all_postings,
      occurs-next_docs k doc_ids postings [],
      none_left,
    )

-- The loop over a map visits each entry once, in some order.
pub record Visits (iterate : List Posting → List Posting) : Type 0 where
  pub at : (m : List Posting) → Permᴰ m (iterate m)

occurs-Permᴰ : (k : ℕ) {xs ys : List Posting} → Permᴰ xs ys → occurs k xs ≡ occurs k ys
unfolding occurs
occurs-Permᴰ k Permᴰ.nil = refl
occurs-Permᴰ k (Permᴰ.cons e d) = rw (e, occurs-Permᴰ k d) refl
occurs-Permᴰ k (Permᴰ.swap e f) = rw (e, f) (ground arith)
occurs-Permᴰ k (Permᴰ.trans c d) = occurs-Permᴰ k c ∙ occurs-Permᴰ k d

-- `intersectPostings` keeps exactly the documents that have a posting in every list, in whatever
-- order the loop over the map visits them.
pub intersect_postings-occurs :
    (iterate : List Posting → List Posting) (k : ℕ) (postings : List Posting)
    (all_postings : List (List Posting))
    → Visits iterate
    → occurs k (intersect_postings iterate (postings ∷ all_postings))
      ≡ occurs_in_all k (postings ∷ all_postings)
unfolding intersect_postings occurs_in_all
intersect_postings-occurs iterate k postings all_postings visits =
    let doc_ids = first_docs postings [] in
    let none_left : occurs k [] ≡ false = unfold occurs in refl in
    sym (occurs-Permᴰ k (visits.at (intersect_loop doc_ids all_postings)))
    ∙ ground (
      arith,
      occurs-intersect_loop k doc_ids all_postings,
      occurs-first_docs k postings [],
      none_left,
    )
