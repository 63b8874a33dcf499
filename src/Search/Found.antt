-- ===== src/Search/Found.antt =====
-- internal/search/index.go: what `Search` returns contains the terms that it was asked for.
use minus_sync.Prelude.{
  ℕ, Bool, true, ◌&&◌, if◌then◌else◌, Option, none, some, Bytes, List, [], ◌∷◌, All, length, ltb,
  ◌≡◌, refl, sym, ◌∙◌, arith, Bool-cases, Option-cases, inl, inr,
}
use minus_sync.Search.{
  Posting, DocInfo, Index, SearchResult, Query, find_doc, score_postings, intersect_postings,
  sort_results, limit_results, search_postings, search, all_postings, add_postings, find_term,
  to_lower,
}
use minus_sync.Search.Intersect.{occurs, occurs_in_all, Visits, intersect_postings-occurs}
use minus_sync.Search.Order.{All-Permᴰ, All-take, sort_results-Descending}

-- The index has postings for the term, with the document among them.
abbrev pub Contains : Index → Bool → ℕ → Bytes → Type 0
Contains idx case_sensitive k term =
    (postings : List Posting) × (find_term (if case_sensitive then term else to_lower term)
        idx.terms
      ≡ some postings)
    × (occurs k postings ≡ true)

-- The result is the file of a document that the index holds and that has every term of the query.
pub record IsFound (idx : Index) (q : Query) (r : SearchResult) : Type 0 where
  pub doc_id : ℕ
  pub doc : DocInfo
  pub held : find_doc doc_id idx.docs ≡ some doc
  pub file : r.file ≡ doc.path
  pub inside : All (Contains idx q.case_sensitive doc_id) q.terms

score_postings-IsFound :
    (idx : Index) (q : Query) (postings : List Posting)
    → ((k : ℕ) → occurs k postings ≡ true → All (Contains idx q.case_sensitive k) q.terms)
    → All (IsFound idx q) (score_postings idx postings)
unfolding score_postings
score_postings-IsFound idx q [] inside = tt
score_postings-IsFound idx q (p ∷ postings) inside =
    let rest =
      score_postings-IsFound idx q postings
        (λ k h. inside k (unfold occurs in ground (arith, h))) in
    elim (Option-cases (find_doc p.doc_id idx.docs)) [
      | inl missing ↦ rw missing rest
      | inr (doc, held) ↦ rw held (
        record {
          doc_id = p.doc_id;
          doc = doc;
          held = held;
          file = refl;
          inside = inside p.doc_id (unfold occurs in ground arith);
        },
        rest,
      )
    ]

limit_results-All :
    (P : SearchResult → Type 0) (max_results : ℕ) (results : List SearchResult)
    → All P results
    → All P (limit_results max_results results)
unfolding limit_results
limit_results-All P max_results results a =
    elim (Bool-cases (ltb 0 max_results && ltb max_results (length results))) [
      | inl cut ↦ rw cut (All-take P max_results results a)
      | inr whole ↦ rw whole a
    ]

intersect_postings-inside :
    (iterate : List Posting → List Posting) (all : List (List Posting)) (k : ℕ)
    → Visits iterate
    → occurs k (intersect_postings iterate all) ≡ true
    → occurs_in_all k all ≡ true
intersect_postings-inside iterate [] k visits h = absurd (unfold intersect_postings occurs in cc)
intersect_postings-inside iterate (postings ∷ all) k visits h =
    sym (intersect_postings-occurs iterate k postings all visits) ∙ h

add_postings-some :
    (o : Option (List Posting)) (p : Option (List (List Posting))) {all : List (List Posting)}
    → add_postings o p ≡ some all
    → (postings : List Posting) × (rest : List (List Posting)) × (o ≡ some postings)
      × (p ≡ some rest)
      × (all ≡ postings ∷ rest)
add_postings-some none p e = absurd (cc)
add_postings-some (some postings) none e = absurd (cc)
add_postings-some (some postings) (some rest) {all} e = (postings, rest, refl, refl, cc)

all_postings-Contains :
    (idx : Index) (case_sensitive : Bool) (k : ℕ) (terms : List Bytes) (all : List (List Posting))
    → all_postings idx case_sensitive terms ≡ some all
    → occurs_in_all k all ≡ true
    → All (Contains idx case_sensitive k) terms
unfolding all_postings
all_postings-Contains idx case_sensitive k [] all e h = tt
all_postings-Contains idx case_sensitive k (term ∷ terms) all e h =
    let (postings, rest, found, later, whole) = add_postings-some _ _ e in
    let both = rw whole at h in
    (
      (postings, found, unfold occurs_in_all in ground (arith, both)),
      all_postings-Contains idx case_sensitive k terms rest later
          (unfold occurs_in_all in ground (arith, both)),
    )

search_postings-IsFound :
    (iterate : List Posting → List Posting) (idx : Index) (q : Query)
    (o : Option (List (List Posting)))
    → Visits iterate
    → all_postings idx q.case_sensitive q.terms ≡ o
    → All (IsFound idx q) (search_postings iterate idx q.max_results o)
unfolding search_postings
search_postings-IsFound iterate idx q none visits e = tt
search_postings-IsFound iterate idx q (some all) visits e =
    let results = score_postings idx (intersect_postings iterate all) in
    limit_results-All (IsFound idx q) q.max_results (sort_results results) (
      All-Permᴰ (IsFound idx q) (sort_results-Descending results).1 (
        score_postings-IsFound idx q (intersect_postings iterate all) (λ k h.
          all_postings-Contains idx q.case_sensitive k q.terms all e
            (intersect_postings-inside iterate all k visits h))))

-- Each result of `Search` is the file of a document of the index, and for every term of the query
-- the index has postings with this document among them, the term in lower case unless the query
-- is case-sensitive, whatever the order in which the loop over the map visits its entries.
pub search-IsFound :
    (iterate : List Posting → List Posting) (idx : Index) (q : Query)
    → Visits iterate
    → All (IsFound idx q) (search iterate idx q)
unfolding search
search-IsFound iterate idx q visits =
    search_postings-IsFound iterate idx q (all_postings idx q.case_sensitive q.terms) visits refl
