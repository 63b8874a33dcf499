-- ===== src/Search/Order.antt =====
-- internal/search/index.go: `sortResults` sorts by score, and `Search` returns no more results than
-- the query allows.
use minus_sync.Prelude.{
  ℕ, zero, suc, ◌+◌, ◌-◌, ◌≤◌, ◌<◌, true, false, ◌&&◌, Option, some, List, [], ◌∷◌, All, length,
  take, set, get_elem?, length-set, length-take, ltb, if◌then◌else◌, ◌==◌, ◌≡◌, refl, sym, ap,
  subst, ◌⊎◌, inl, inr, arith, Bool-cases, Option-cases, ltb→lt,
}
use mathlib.Core.List.{Permᴰ}
use minus_sync.Search.{
  Posting, Index, SearchResult, Query, best_from, sort_loop, sort_results, limit_results,
  search_postings, search, all_postings, score_postings, intersect_postings,
}

-- No result has a higher score than one in front of it.
abbrev pub Descending : List SearchResult → Type 0
Descending [] = Unit {0}
Descending (r ∷ results) =
    All (λ (s : SearchResult). s.score ≤ r.score) results × Descending results

-- What the inner loop finds: a highest score, at its index or at the one that it started with.
record Best (best : ℕ) (r : SearchResult) (j : ℕ) (results : List SearchResult)
    (found : ℕ × SearchResult) : Type 0 where
  top : All (λ (s : SearchResult). s.score ≤ found.1.score) results
  above : r.score ≤ found.1.score
  place :
      ((found.0 ≡ best) × (found.1 ≡ r))
      ⊎ ((i : ℕ) × (found.0 ≡ j + i) × (get_elem? results i ≡ some found.1))

best_from-Best :
    (best : ℕ) (r : SearchResult) (j : ℕ) (results : List SearchResult)
    → Best best r j results (best_from best r j results)
unfolding best_from
best_from-Best best r j [] = record { top = tt; above = omega arith; place = inl (refl, refl) }
best_from-Best best r j (s ∷ results) = elim (Bool-cases (ltb r.score s.score)) [
  | inl better ↦
      let rest = best_from-Best j s (j + 1) results in
      rw better (record {
        top = (rest.above, rest.top);
        above = omega (arith, rest.above, ltb→lt r.score s.score better);
        place = elim rest.place [
          | inl (same, it) ↦ inr (0, omega (arith, same), ap some (sym it))
          | inr (i, index, there) ↦ inr (suc i, omega (arith, index), there)
        ];
      })
  | inr worse ↦
      let rest = best_from-Best best r (j + 1) results in
      let below : s.score ≤ r.score = ground (arith, worse) in
      rw worse (record {
        top = (omega (arith, rest.above, below), rest.top);
        above = rest.above;
        place = elim rest.place [
          | inl kept ↦ inl kept
          | inr (i, index, there) ↦ inr (suc i, omega (arith, index), there)
        ];
      })
]

some_injective : {r s : SearchResult} → ◌≡◌ {A = Option SearchResult} (some r) (some s) → r ≡ s
some_injective e = cc

-- The exchange of two places.
Permᴰ-set :
    (r best : SearchResult) (results : List SearchResult) (i : ℕ)
    → get_elem? results i ≡ some best
    → Permᴰ (r ∷ results) (best ∷ set results i r)
Permᴰ-set r best [] i e = absurd (cc)
Permᴰ-set r best (s ∷ results) zero e = Permᴰ.swap refl (some_injective e)
Permᴰ-set r best (s ∷ results) (suc i) e =
    Permᴰ.trans (Permᴰ.swap refl refl)
      (Permᴰ.trans (Permᴰ.cons refl (Permᴰ-set r best results i e)) (Permᴰ.swap refl refl))

Permᴰ-same : (results : List SearchResult) → Permᴰ results results
Permᴰ-same [] = Permᴰ.nil
Permᴰ-same (r ∷ results) = Permᴰ.cons refl (Permᴰ-same results)

pub All-Permᴰ :
    (P : SearchResult → Type 0) {xs ys : List SearchResult} → Permᴰ xs ys → All P xs → All P ys
All-Permᴰ P Permᴰ.nil a = tt
All-Permᴰ P (Permᴰ.cons e d) (p, a) = (subst P e p, All-Permᴰ P d a)
All-Permᴰ P (Permᴰ.swap e f) (p, (q, a)) = (subst P f q, (subst P e p, a))
All-Permᴰ P (Permᴰ.trans c d) a = All-Permᴰ P d (All-Permᴰ P c a)

-- One turn of the outer loop.
abbrev behind_best : SearchResult → List SearchResult → List SearchResult
behind_best r results =
    let best = best_from 0 r 1 results in
    if best.0 == 0 then results else set results (best.0 - 1) r

best_from-Permᴰ :
    (r : SearchResult) (results : List SearchResult)
    → Permᴰ (r ∷ results) ((best_from 0 r 1 results).1 ∷ behind_best r results)
best_from-Permᴰ r results =
    let best = best_from-Best 0 r 1 results in
    elim best.place [
      | inl (index, it) ↦
          let first : ((best_from 0 r 1 results).0 == 0) ≡ true = ground (arith, index) in
          rw first (Permᴰ.cons (sym it) (Permᴰ-same results))
      | inr (i, index, there) ↦
          let later : ((best_from 0 r 1 results).0 == 0) ≡ false = ground (arith, index) in
          let back : (best_from 0 r 1 results).0 - 1 ≡ i = omega (arith, index) in
          rw (later, back) (Permᴰ-set r (best_from 0 r 1 results).1 results i there)
    ]

sort_loop-Permᴰ : (fuel : ℕ) (results : List SearchResult) → Permᴰ results (sort_loop fuel results)
unfolding sort_loop
sort_loop-Permᴰ fuel [] = Permᴰ.nil
sort_loop-Permᴰ zero (r ∷ results) = Permᴰ-same (r ∷ results)
sort_loop-Permᴰ (suc fuel) (r ∷ results) =
    Permᴰ.trans (best_from-Permᴰ r results)
      (Permᴰ.cons refl (sort_loop-Permᴰ fuel (behind_best r results)))

length-behind_best :
    (r : SearchResult) (results : List SearchResult)
    → length (behind_best r results) ≡ length results
length-behind_best r results = elim (Bool-cases ((best_from 0 r 1 results).0 == 0)) [
  | inl first ↦ rw first refl
  | inr later ↦ rw later (length-set results ((best_from 0 r 1 results).0 - 1) r)
]

sort_loop-Descending :
    (fuel : ℕ) (results : List SearchResult)
    → length results ≤ fuel
    → Descending (sort_loop fuel results)
unfolding sort_loop
sort_loop-Descending fuel [] enough = tt
sort_loop-Descending zero (r ∷ results) enough = absurd (omega arith)
sort_loop-Descending (suc fuel) (r ∷ results) enough =
    let best = best_from-Best 0 r 1 results in
    let rest = behind_best r results in
    let lower =
      All-Permᴰ (λ (s : SearchResult). s.score ≤ (best_from 0 r 1 results).1.score)
        (best_from-Permᴰ r results) (best.above, best.top) in
    (
      All-Permᴰ _ (sort_loop-Permᴰ fuel rest) lower.1,
      sort_loop-Descending fuel rest (omega (arith, length-behind_best r results)),
    )

-- `sortResults` returns the results that it is given, each as often as before, in the order of
-- falling scores.
pub sort_results-Descending :
    (results : List SearchResult)
    → Descending (sort_results results) × Permᴰ results (sort_results results)
unfolding sort_results
sort_results-Descending results = (
  sort_loop-Descending (length results) results (omega arith),
  sort_loop-Permᴰ (length results) results,
)

pub All-take :
    (P : SearchResult → Type 0) (n : ℕ) (results : List SearchResult)
    → All P results
    → All P (take n results)
All-take P zero results a = tt
All-take P (suc n) [] a = tt
All-take P (suc n) (r ∷ results) (p, a) = (p, All-take P n results a)

Descending-take :
    (n : ℕ) (results : List SearchResult) → Descending results → Descending (take n results)
Descending-take zero results d = tt
Descending-take (suc n) [] d = tt
Descending-take (suc n) (r ∷ results) (a, d) = (All-take _ n results a, Descending-take n results d)

limit_results-bounds :
    (max_results : ℕ) (results : List SearchResult)
    → Descending results
    → Descending (limit_results max_results results)
      × (0 < max_results → length (limit_results max_results results) ≤ max_results)
unfolding limit_results
limit_results-bounds max_results results d =
    elim (Bool-cases (ltb 0 max_results && ltb max_results (length results))) [
      | inl cut ↦ rw cut (
        Descending-take max_results results d,
        (λ h. omega (arith, length-take max_results results)),
      )
      | inr whole ↦ rw whole (d, (λ h. ground (arith, whole, h)))
    ]

-- `Search` returns results of falling scores, and no more than the query allows when it gives a
-- limit, whatever the index holds and in whatever order the loop over the map runs.
pub search-Descending :
    (iterate : List Posting → List Posting) (idx : Index) (q : Query)
    → Descending (search iterate idx q)
      × (0 < q.max_results → length (search iterate idx q) ≤ q.max_results)
unfolding search search_postings
search-Descending iterate idx q = elim (Option-cases (all_postings idx q.case_sensitive q.terms)) [
  | inl missing ↦ rw missing (tt, (λ h. omega arith))
  | inr (all, found) ↦ rw found (
      limit_results-bounds q.max_results
        (sort_results (score_postings idx (intersect_postings iterate all)))
        (sort_results-Descending (score_postings idx (intersect_postings iterate all))).0)
]
