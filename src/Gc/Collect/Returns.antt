-- ===== src/Gc/Collect/Returns.antt =====
-- internal/gc/gc.go: `Collect` returns a report.
use minus_sync.Prelude.{
  ℕ, ◌<◌, ◌≤◌, true, false, ◌&&◌, Option, none, some, List, [], ◌∷◌, ◌++◌, Bytes, All, length, ltb,
  ◌==◌, ok, err, ◌>>=◌, Bool-cases, inl, inr, ◌≡◌, refl, ap, ◌∙◌, arith,
}
use minus_sync.Hash.{Hash}
use minus_sync.Object.Listing.{ObjectFile, Prefix}
use minus_sync.Object.Store.{Store}
use minus_sync.Gc.{contains}
use minus_sync.Gc.Mark.{IsMarked}
use minus_sync.Gc.Enough.{IsClosed, mark_all-returns}
use minus_sync.Gc.Collect.{
  Repository, read_dir_failed, Report, Options, children, roots, sweep_file, sweep_files,
  sweep_entries, sweep, sweep_marked, with_marks, collect,
}

-- The names of the files and of their directory together have seven bytes at least.
abbrev pub HasLongNames : Bytes → Option (List ObjectFile) → Type 0
HasLongNames prefix none = Unit {0}
HasLongNames prefix (some files) = All (λ (f : ObjectFile). 7 ≤ length (prefix ++ f.name)) files

abbrev pub IsLong : Prefix → Type 0
IsLong p = HasLongNames p.name p.entries

module _ (options : Options) (marked : List Bytes) where
  sweep_file-ok :
      (prefix : Bytes) (f : ObjectFile) (state : Report × Store)
      → (options.verbose && ltb (length (prefix ++ f.name)) 7) ≡ false
      → (next : Report × Store) × (sweep_file options marked prefix f state ≡ ok next)
  unfolding sweep_file
  sweep_file-ok prefix f (report, store) fits = elim (Bool-cases f.is_dir) [
    | inl dir ↦ rw dir (_, refl)
    | inr file ↦ elim (Bool-cases (contains (prefix ++ f.name) marked)) [
      | inl reached ↦ rw (file, reached) (_, refl)
      | inr lost ↦ elim (Bool-cases options.prune) [
        | inl prune ↦ rw (file, lost, fits, prune) (_, refl)
        | inr keep ↦ rw (file, lost, fits, keep) (_, refl)
      ]
    ]
  ]

  short_enough :
      (prefix : Bytes) (f : ObjectFile)
      → (options.verbose ≡ true → 7 ≤ length (prefix ++ f.name))
      → (options.verbose && ltb (length (prefix ++ f.name)) 7) ≡ false
  short_enough prefix f long = elim (Bool-cases options.verbose) [
    | inl verbose ↦ let fits = long verbose in ground arith
    | inr quiet ↦ rw quiet refl
  ]

  sweep_files-ok :
      (prefix : Bytes) (files : List ObjectFile) (state : Report × Store)
      → (options.verbose ≡ true → All (λ (f : ObjectFile). 7 ≤ length (prefix ++ f.name)) files)
      → (next : Report × Store) × (sweep_files options marked prefix files state ≡ ok next)
  unfolding sweep_files
  sweep_files-ok prefix [] state long = (state, refl)
  sweep_files-ok prefix (f ∷ files) state long =
      let (next, e) = sweep_file-ok prefix f state (short_enough prefix f (λ v. (long v).0)) in
      let (last, k) = sweep_files-ok prefix files next (λ v. (long v).1) in
      (last, ap (λ r. r >>= sweep_files options marked prefix files) e ∙ k)

  sweep_entries-ok :
      (prefix : Bytes) (entries : Option (List ObjectFile)) (state : Report × Store)
      → (options.verbose ≡ true → HasLongNames prefix entries)
      → (next : Report × Store) × (sweep_entries options marked prefix entries state ≡ ok next)
  unfolding sweep_entries
  sweep_entries-ok prefix none state long = (state, refl)
  sweep_entries-ok prefix (some files) state long = sweep_files-ok prefix files state long

  sweep-ok :
      (prefixes : List Prefix) (state : Report × Store)
      → (options.verbose ≡ true → All IsLong prefixes)
      → (next : Report × Store) × (sweep options marked prefixes state ≡ ok next)
  unfolding sweep
  sweep-ok [] state long = (state, refl)
  sweep-ok (p ∷ prefixes) state long = elim (Bool-cases (p.is_dir && (length p.name == 2))) [
    | inl swept ↦
        let (next, e) = sweep_entries-ok p.name p.entries state (λ v. (long v).0) in
        let (last, k) = sweep-ok prefixes next (λ v. (long v).1) in (last, rw (swept, e) k)
    | inr skipped ↦
        let (last, k) = sweep-ok prefixes state (λ v. (long v).1) in (last, rw skipped k)
  ]

-- If the hashes of the roots are in a finite set that is closed under the references of the stored
-- objects, with more fuel than that set has members, `Collect` returns: the error of reading the
-- objects directory when that cannot be listed, and a report otherwise, whatever else is listed or
-- cannot be removed. With the verbose option this needs names of seven bytes at least, that of
-- the directory included. Objects that refer to each other in a circle do no harm.
pub collect-returns :
    (compute : Bytes → Hash) (fuel : ℕ) (options : Options) (r : Repository)
    (prefixes : List Prefix) (store : Store) (keys : List Bytes)
    → IsClosed (children compute store) keys
    → All (IsMarked keys) (roots r)
    → length keys < fuel
    → (options.verbose ≡ true → All IsLong prefixes)
    → (collect compute fuel options r none store ≡ some (err read_dir_failed))
      × ((report : Report) × (after : Store) × (collect compute fuel options r (some prefixes) store
            ≡ some (ok (report, after))))
unfolding collect
collect-returns compute fuel options r prefixes store keys closed inside enough long =
    let (marked, e) =
      mark_all-returns (children compute store) keys fuel (roots r) closed inside enough in
    let (next, swept) = sweep-ok options marked prefixes (_, store) long in
    (
      ap (with_marks (sweep_marked options none store)) e,
      (
        next.0,
        next.1,
        ap (with_marks (sweep_marked options (some prefixes) store)) e
            ∙ ap (λ result. some result) swept,
      ),
    )
