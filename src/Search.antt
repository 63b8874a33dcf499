-- ===== src/Search.antt =====
-- internal/search: queries on the index of terms. A map is the list of its entries.
pub mod Intersect
pub mod Order
pub mod Found
mod Tests
use minus_sync.Prelude.{
  ℕ, zero, suc, ◌+◌, ◌-◌, ◌%◌, ◌^◌, Bool, true, false, not, ◌&&◌, ◌||◌, Option, none, some, List,
  [], ◌∷◌, ◌++◌, Bytes, length, take, set, map, codes, ltb, leb, bytes_equal, has_suffix, fields,
  if◌then◌else◌, ◌==◌,
}
use minus_sync.Hash.{Hash}

pub record Posting : Type 0 where
  pub doc_id : ℕ
  pub frequency : ℕ
  pub positions : List ℕ

pub record DocInfo : Type 0 where
  pub path : Bytes
  pub hash : Hash

pub record Index : Type 0 where
  pub terms : List (Bytes × List Posting)
  pub docs : List (ℕ × DocInfo)

-- The score is a whole number, the frequency. Line and column stay zero.
pub record SearchResult : Type 0 where
  pub file : Bytes
  pub score : ℕ

pub record Query : Type 0 where
  pub terms : List Bytes
  pub case_sensitive : Bool
  pub max_results : ℕ

unfoldable pub new_index : Index
new_index = record { terms = []; docs = [] }

unfoldable pub find_posting : ℕ → List Posting → Option Posting
find_posting k [] = none
find_posting k (p ∷ postings) = if p.doc_id == k then some p else find_posting k postings

-- `docIDs[p.DocID] = …`.
unfoldable pub set_posting : Posting → List Posting → List Posting
set_posting p [] = p ∷ []
set_posting p (q ∷ postings) =
    if q.doc_id == p.doc_id then p ∷ postings else q ∷ set_posting p postings

unfoldable pub first_docs : List Posting → List Posting → List Posting
unfolding set_posting
first_docs [] doc_ids = doc_ids
first_docs (p ∷ postings) doc_ids = first_docs postings (set_posting p doc_ids)

-- Frequencies are of 32 bits.
abbrev pub combine : Option Posting → Posting → List Posting → List Posting
combine none p next = next
combine (some existing) p next =
    set_posting (record existing { frequency = (existing.frequency + p.frequency) % 2 ^ 32 }) next

unfoldable pub next_docs : List Posting → List Posting → List Posting → List Posting
unfolding find_posting
next_docs doc_ids [] next = next
next_docs doc_ids (p ∷ postings) next =
    next_docs doc_ids postings (combine (find_posting p.doc_id doc_ids) p next)

unfoldable pub intersect_loop : List Posting → List (List Posting) → List Posting
unfolding next_docs
intersect_loop doc_ids [] = doc_ids
intersect_loop doc_ids (postings ∷ all_postings) =
    intersect_loop (next_docs doc_ids postings []) all_postings

-- The order in which the loop over the map visits its entries is `iterate`.
unfoldable pub intersect_postings :
    (List Posting → List Posting) → List (List Posting) → List Posting
unfolding first_docs intersect_loop
intersect_postings iterate [] = []
intersect_postings iterate (postings ∷ all_postings) =
    iterate (intersect_loop (first_docs postings []) all_postings)

-- The inner loop of `sortResults`: the index and the value of the best result so far.
unfoldable pub best_from : ℕ → SearchResult → ℕ → List SearchResult → ℕ × SearchResult
best_from best r j [] = (best, r)
best_from best r j (s ∷ results) =
    let better = ltb r.score s.score in
    best_from (if better then j else best) (if better then s else r) (j + 1) results

-- The outer loop, with the results from `i` on: the best one changes places with the first.
unfoldable pub sort_loop : ℕ → List SearchResult → List SearchResult
unfolding best_from
sort_loop fuel [] = []
sort_loop zero (r ∷ results) = r ∷ results
sort_loop (suc fuel) (r ∷ results) =
    let best = best_from 0 r 1 results in
    best.1 ∷ sort_loop fuel (if best.0 == 0 then results else set results (best.0 - 1) r)

unfoldable pub sort_results : List SearchResult → List SearchResult
unfolding sort_loop
sort_results results = sort_loop (length results) results

unfoldable pub to_lower : Bytes → Bytes
to_lower [] = []
to_lower (c ∷ s) = (if leb 65 c && leb c 90 then c + 32 else c) ∷ to_lower s

unfoldable pub find_term : Bytes → List (Bytes × List Posting) → Option (List Posting)
find_term term [] = none
find_term term ((t, postings) ∷ terms) =
    if bytes_equal t term then some postings else find_term term terms

abbrev pub add_postings :
    Option (List Posting) → Option (List (List Posting)) → Option (List (List Posting))
add_postings none rest = none
add_postings (some postings) none = none
add_postings (some postings) (some rest) = some (postings ∷ rest)

-- The postings of each term; one term that is not found gives no results.
unfoldable pub all_postings : Index → Bool → List Bytes → Option (List (List Posting))
unfolding find_term to_lower
all_postings idx case_sensitive [] = some []
all_postings idx case_sensitive (term ∷ terms) =
    add_postings (find_term (if case_sensitive then term else to_lower term) idx.terms)
      (all_postings idx case_sensitive terms)

unfoldable pub find_doc : ℕ → List (ℕ × DocInfo) → Option DocInfo
find_doc k [] = none
find_doc k ((id, doc) ∷ docs) = if id == k then some doc else find_doc k docs

abbrev pub put_result : Posting → Option DocInfo → List SearchResult → List SearchResult
put_result p none results = results
put_result p (some doc) results = record { file = doc.path; score = p.frequency } ∷ results

unfoldable pub score_postings : Index → List Posting → List SearchResult
unfolding find_doc
score_postings idx [] = []
score_postings idx (p ∷ postings) =
    put_result p (find_doc p.doc_id idx.docs) (score_postings idx postings)

unfoldable pub limit_results : ℕ → List SearchResult → List SearchResult
limit_results max_results results =
    if ltb 0 max_results && ltb max_results (length results)
    then take max_results results
    else results

abbrev pub search_postings :
    (List Posting → List Posting) → Index → ℕ → Option (List (List Posting)) → List SearchResult
unfolding sort_results limit_results score_postings intersect_postings
search_postings iterate idx max_results none = []
search_postings iterate idx max_results (some all) =
    limit_results max_results (sort_results (score_postings idx (intersect_postings iterate all)))

-- A negative number of results is like none given, so a query has a natural number.
unfoldable pub search : (List Posting → List Posting) → Index → Query → List SearchResult
unfolding search_postings all_postings
search iterate idx q =
    search_postings iterate idx q.max_results (all_postings idx q.case_sensitive q.terms)

-- The terms that are not empty.
unfoldable pub filter_terms : List Bytes → List Bytes
filter_terms [] = []
filter_terms (t ∷ terms) = if leb 1 (length t) then t ∷ filter_terms terms else filter_terms terms

unfoldable pub parse_query : Bytes → Bool → ℕ → Query
unfolding filter_terms
parse_query raw case_sensitive max_results =
    if length (fields raw) == 0
    then record { terms = []; case_sensitive = false; max_results = max_results }
    else record {
      terms = filter_terms (fields raw);
      case_sensitive = case_sensitive;
      max_results = max_results;
    }

abbrev pub text_exts : List Bytes
text_exts =
    codes ".go"
    ∷ codes ".rs"
    ∷ codes ".c"
    ∷ codes ".cpp"
    ∷ codes ".h"
    ∷ codes ".py"
    ∷ codes ".js"
    ∷ codes ".ts"
    ∷ codes ".java"
    ∷ codes ".rb"
    ∷ codes ".md"
    ∷ codes ".txt"
    ∷ codes ".yaml"
    ∷ codes ".yml"
    ∷ codes ".json"
    ∷ codes ".toml"
    ∷ codes ".xml"
    ∷ codes ".html"
    ∷ codes ".css"
    ∷ codes ".sh"
    ∷ codes ".sql"
    ∷ codes ".proto"
    ∷ []

unfoldable pub any_suffix_of : List Bytes → Bytes → Bool
any_suffix_of [] path = false
any_suffix_of (ext ∷ exts) path = has_suffix ext path || any_suffix_of exts path

unfoldable pub is_indexable : Bytes → Bool
unfolding any_suffix_of
is_indexable path = any_suffix_of text_exts path

pub record IndexStats : Type 0 where
  pub document_count : ℕ
  pub term_count : ℕ

unfoldable pub stats : Index → IndexStats
stats idx = record { document_count = length idx.docs; term_count = length idx.terms }
