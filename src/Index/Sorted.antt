-- ===== src/Index/Sorted.antt =====
-- The operations of a map from paths to entries, on a sorted list, and the rank at which the
-- index changes it.
use minus_sync.Prelude.{
  ℕ, suc, Bool, true, false, none, some, List, [], ◌∷◌, Bytes, if◌then◌else◌, bytes_equal,
  bytes_equal_iff, bytes_less, bytes_less_irrefl, bytes_less_trans, bytes_less_total, bytes_less-ne,
  IsSorted, rank, lookup_key, lookup_key-above, ◌≡◌, refl, sym, ap, ◌∙◌, arith, All, Bool-cases,
  inl, inr,
}
use mathlib.Core.Bool.{false≢true}
use minus_sync.Index.{IndexEntry, entry_path, is_some, add_at, remove_at}

-- The abstract operations, by recursion on the sorted entries.
pub put_entry : IndexEntry → List IndexEntry → List IndexEntry
put_entry e [] = e ∷ []
put_entry e (f ∷ entries) =
    let later = f ∷ put_entry e entries in
    if bytes_less f.path e.path
    then later
    else if bytes_equal f.path e.path
    then e ∷ entries
    else e ∷ f ∷ entries

pub delete_entry : Bytes → List IndexEntry → List IndexEntry
delete_entry p [] = []
delete_entry p (f ∷ entries) =
    let later = f ∷ delete_entry p entries in if bytes_equal f.path p then entries else later

-- Every path that follows comes behind `p`.
abbrev Behind : Bytes → List IndexEntry → Type 0
Behind p = All (λ (e : IndexEntry). bytes_less p e.path ≡ true)

Behind-trans :
    (p q : Bytes) (entries : List IndexEntry)
    → bytes_less p q ≡ true
    → Behind q entries
    → Behind p entries
Behind-trans p q [] h b = tt
Behind-trans p q (e ∷ entries) h (lt, b) =
    (bytes_less_trans p q e.path h lt, Behind-trans p q entries h b)

less_of_neither :
    (p q : Bytes) → bytes_less p q ≡ false → bytes_equal p q ≡ false → bytes_less q p ≡ true
less_of_neither p q h ne = elim (Bool-cases (bytes_less q p)) [
  | inl less ↦ less
  | inr more ↦ absurd (false≢true (sym ne ∙ (bytes_equal_iff p q).1 (bytes_less_total p q h more)))
]

put_entry-Behind :
    (p : Bytes) (e : IndexEntry) (entries : List IndexEntry)
    → bytes_less p e.path ≡ true
    → Behind p entries
    → Behind p (put_entry e entries)
unfolding put_entry
put_entry-Behind p e [] h b = (h, tt)
put_entry-Behind p e (f ∷ entries) h (lt, b) = elim (Bool-cases (bytes_less f.path e.path)) [
  | inl less ↦ rw less (lt, put_entry-Behind p e entries h b)
  | inr more ↦ rw more (elim (Bool-cases (bytes_equal f.path e.path)) [
    | inl same ↦ rw same (h, b)
    | inr other ↦ rw other (h, (lt, b))
  ])
]

pub put_entry-IsSorted :
    (e : IndexEntry) (entries : List IndexEntry)
    → IsSorted entry_path entries
    → IsSorted entry_path (put_entry e entries)
unfolding put_entry
put_entry-IsSorted e [] s = (tt, tt)
put_entry-IsSorted e (f ∷ entries) (b, s) = elim (Bool-cases (bytes_less f.path e.path)) [
  | inl less ↦ rw less (put_entry-Behind f.path e entries less b, put_entry-IsSorted e entries s)
  | inr more ↦ rw more (elim (Bool-cases (bytes_equal f.path e.path)) [
    | inl same ↦ rw same (rw ((bytes_equal_iff f.path e.path).0 same) at b, s)
    | inr other ↦
        let lt = less_of_neither f.path e.path more other in
        rw other ((lt, Behind-trans e.path f.path entries lt b), (b, s))
  ])
]

pub lookup_key-put_entry :
    (p : Bytes) (e : IndexEntry) (entries : List IndexEntry)
    → lookup_key entry_path p (put_entry e entries)
      ≡ (if bytes_equal e.path p then some e else lookup_key entry_path p entries)
unfolding put_entry
lookup_key-put_entry p e [] = refl
lookup_key-put_entry p e (f ∷ entries) = ground (
  arith,
  lookup_key-put_entry p e entries,
  bytes_less-ne f.path e.path,
  bytes_equal_iff f.path e.path,
  bytes_equal_iff f.path p,
  bytes_equal_iff e.path p,
)

-- An `if` whose branches differ only behind the first element.
later_if :
    (exists : Bool) (f e : IndexEntry) (i : ℕ) (entries : List IndexEntry)
    → add_at (suc i) exists e (f ∷ entries) ≡ f ∷ add_at i exists e entries
unfolding add_at
later_if true f e i entries = refl
later_if false f e i entries = refl

pub put_entry-at_rank :
    (e : IndexEntry) (entries : List IndexEntry)
    → IsSorted entry_path entries
    → add_at
        (rank entry_path e.path entries)
        (is_some (lookup_key entry_path e.path entries))
        e
        entries
      ≡ put_entry e entries
unfolding add_at put_entry
put_entry-at_rank e [] s = refl
put_entry-at_rank e (f ∷ entries) (a, s) = elim (Bool-cases (bytes_less f.path e.path)) [
  | inl less ↦
      let found = is_some (lookup_key entry_path e.path entries) in
      rw (less, bytes_less-ne f.path e.path less, sym (put_entry-at_rank e entries s))
        (later_if found f e (rank entry_path e.path entries) entries)
  | inr more ↦ rw more (elim (Bool-cases (bytes_equal f.path e.path)) [
    | inl same ↦ rw same refl
    | inr other ↦ rw (other, lookup_key-above entry_path e.path f.path entries more a) refl
  ])
]

remove_later :
    (exists : Bool) (f : IndexEntry) (i : ℕ) (entries : List IndexEntry)
    → remove_at (suc i) exists (f ∷ entries) ≡ f ∷ remove_at i exists entries
unfolding remove_at
remove_later true f i entries = refl
remove_later false f i entries = refl

delete_entry-above :
    (p q : Bytes) (entries : List IndexEntry)
    → bytes_less q p ≡ false
    → Behind q entries
    → delete_entry p entries ≡ entries
unfolding delete_entry
delete_entry-above p q [] h b = refl
delete_entry-above p q (f ∷ entries) h (lt, b) = elim (Bool-cases (bytes_equal f.path p)) [
  | inl same ↦ absurd (false≢true (sym h ∙ rw ((bytes_equal_iff f.path p).0 same) at lt))
  | inr other ↦ rw other (ap (λ rest. f ∷ rest) (delete_entry-above p q entries h b))
]

pub delete_entry-at_rank :
    (p : Bytes) (entries : List IndexEntry)
    → IsSorted entry_path entries
    → remove_at (rank entry_path p entries) (is_some (lookup_key entry_path p entries)) entries
      ≡ delete_entry p entries
unfolding remove_at delete_entry
delete_entry-at_rank p [] s = refl
delete_entry-at_rank p (f ∷ entries) (a, s) = elim (Bool-cases (bytes_less f.path p)) [
  | inl less ↦
      let found = is_some (lookup_key entry_path p entries) in
      rw (less, bytes_less-ne f.path p less, sym (delete_entry-at_rank p entries s))
        (remove_later found f (rank entry_path p entries) entries)
  | inr more ↦ rw more (elim (Bool-cases (bytes_equal f.path p)) [
    | inl same ↦ rw same refl
    | inr other ↦
        rw (other, lookup_key-above entry_path p f.path entries more a)
          (ap (λ rest. f ∷ rest) (sym (delete_entry-above p f.path entries more a)))
  ])
]

delete_entry-Behind :
    (p q : Bytes) (entries : List IndexEntry) → Behind q entries → Behind q (delete_entry p entries)
unfolding delete_entry
delete_entry-Behind p q [] b = tt
delete_entry-Behind p q (f ∷ entries) (lt, b) = elim (Bool-cases (bytes_equal f.path p)) [
  | inl same ↦ rw same b
  | inr other ↦ rw other (lt, delete_entry-Behind p q entries b)
]

pub delete_entry-IsSorted :
    (p : Bytes) (entries : List IndexEntry)
    → IsSorted entry_path entries
    → IsSorted entry_path (delete_entry p entries)
unfolding delete_entry
delete_entry-IsSorted p [] s = tt
delete_entry-IsSorted p (f ∷ entries) (b, s) = elim (Bool-cases (bytes_equal f.path p)) [
  | inl same ↦ rw same s
  | inr other ↦ rw other (delete_entry-Behind p f.path entries b, delete_entry-IsSorted p entries s)
]

pub lookup_key-delete_entry :
    (p q : Bytes) (entries : List IndexEntry)
    → IsSorted entry_path entries
    → lookup_key entry_path q (delete_entry p entries)
      ≡ (if bytes_equal p q then none else lookup_key entry_path q entries)
unfolding delete_entry
lookup_key-delete_entry p q [] s = ground arith
lookup_key-delete_entry p q (f ∷ entries) (b, s) = elim (Bool-cases (bytes_equal f.path p)) [
  | inl same ↦
      rw (same, sym ((bytes_equal_iff f.path p).0 same))
        (elim (Bool-cases (bytes_equal f.path q)) [
          | inl it ↦
              let not_less : bytes_less f.path q ≡ false =
                rw ((bytes_equal_iff f.path q).0 it) (bytes_less_irrefl q) in
              rw it (lookup_key-above entry_path q f.path entries not_less b)
          | inr other ↦ rw other refl
        ])
  | inr other ↦
      rw (other, lookup_key-delete_entry p q entries s)
        (ground (arith, bytes_equal_iff f.path p, bytes_equal_iff f.path q, bytes_equal_iff p q))
]
