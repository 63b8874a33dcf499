-- ===== src/Search/Tests.antt =====
-- Searches in an index of two documents.
use minus_sync.Prelude.{
  ℕ, false, some, List, [], ◌∷◌, codes, All, length, replicate, bytes_equal, ◌≡◌, ◌≤◌, ◌<◌, refl,
}
use mathlib.Core.List.{Permᴰ}
use minus_sync.Search.{
  Posting, Index, SearchResult, Query, search, all_postings, find_term, to_lower, sort_results,
  intersect_postings,
}
use minus_sync.Search.Intersect.{occurs, occurs_in_all, Visits, intersect_postings-occurs}
use minus_sync.Search.Order.{Descending, sort_results-Descending, search-Descending}
use minus_sync.Search.Found.{IsFound, search-IsFound}

abbrev posting : ℕ → Posting
posting k = record { doc_id = k; frequency = k; positions = 0 ∷ [] }

abbrev both : List Posting
both = posting 1 ∷ posting 2 ∷ []

abbrev only_second : List Posting
only_second = posting 2 ∷ []

abbrev two_docs : Index
two_docs = record {
  terms = (codes "open", both) ∷ (codes "close", only_second) ∷ [];
  docs =
      (1, record { path = codes "a.go"; hash = replicate 32 1 })
      ∷ (2, record { path = codes "b.go"; hash = replicate 32 2 })
      ∷ [];
}

abbrev two_terms : Query
two_terms = record {
  terms = codes "Open" ∷ codes "close" ∷ [];
  case_sensitive = false;
  max_results = 5;
}

abbrev in_order : List Posting → List Posting
in_order postings = postings

Permᴰ-in_order : (postings : List Posting) → Permᴰ postings (in_order postings)
Permᴰ-in_order [] = Permᴰ.nil
Permᴰ-in_order (p ∷ postings) = Permᴰ.cons refl (Permᴰ-in_order postings)

Visits-in_order : Visits in_order
Visits-in_order = record { at = Permᴰ-in_order }

intersect_postings-occurs_test :
    occurs 2 (intersect_postings in_order (both ∷ only_second ∷ []))
    ≡ occurs_in_all 2 (both ∷ only_second ∷ [])
intersect_postings-occurs_test =
    intersect_postings-occurs in_order 2 both (only_second ∷ []) Visits-in_order

search-Descending_example :
    Descending (search in_order two_docs two_terms)
    × (0 < 5 → length (search in_order two_docs two_terms) ≤ 5)
search-Descending_example = search-Descending in_order two_docs two_terms

two_found :
    all_postings two_docs false (codes "Open" ∷ codes "close" ∷ []) ≡ some (both ∷ only_second ∷ [])
unfolding all_postings find_term to_lower bytes_equal
two_found = refl

search-IsFound_example : All (IsFound two_docs two_terms) (search in_order two_docs two_terms)
search-IsFound_example = search-IsFound in_order two_docs two_terms Visits-in_order

second_file : search in_order two_docs two_terms ≡ record { file = codes "b.go"; score = 4 } ∷ []
unfolding search bytes_equal
second_file = refl

abbrev three_results : List SearchResult
three_results =
    record { file = codes "a"; score = 1 }
    ∷ record { file = codes "b"; score = 3 }
    ∷ record { file = codes "c"; score = 2 }
    ∷ []

sort_results-Descending_test :
    Descending (sort_results three_results) × Permᴰ three_results (sort_results three_results)
sort_results-Descending_test = sort_results-Descending three_results
