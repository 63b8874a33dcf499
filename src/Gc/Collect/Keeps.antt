-- ===== src/Gc/Collect/Keeps.antt =====
-- internal/gc/gc.go: `Collect` removes no object that can be reached.
use minus_sync.Prelude.{
  ℕ, false, ◌&&◌, Option, none, some, List, [], ◌∷◌, ◌++◌, Bytes, length, take, drop, ltb,
  bytes_equal, bytes_equal_iff, if◌then◌else◌, ◌==◌, ok, Ensures, Ensures-ok, Ensures-panic,
  Ensures-bind, Ensures-if, Bool-cases, inl, inr, ◌≡◌, ◌≢◌, refl, sym, ap, ap₂, ◌∙◌, subst, arith,
}
use minus_sync.Hash.{Hash, IsHash, hex, dir_prefix, rest, dir_prefix-append-rest}
use minus_sync.Object.Listing.{ObjectFile, Prefix}
use minus_sync.Object.Store.{Store, object_path}
use minus_sync.Object.Store.Written.{length-dir_prefix, cut_front, cut_back}
use minus_sync.Gc.{contains, mark, mark_all}
use minus_sync.Gc.Mark.{IsMarked, ReachedFrom, mark_all-Reaches}
use minus_sync.Gc.Collect.{
  Repository, Report, Options, children, roots, remove_file, prune_file, sweep_file, sweep_files,
  sweep_entries, sweep, sweep_marked, with_marks, collect,
}

-- The name of the file at the path of a hash is the hash, when its directory has two letters.
object_path-name :
    (h : Hash) (prefix name : Bytes)
    → IsHash h
    → length prefix ≡ 2
    → prefix ++ 47 ∷ name ≡ object_path h
    → prefix ++ name ≡ hex h
unfolding object_path
object_path-name h prefix name valid two e =
    let front = length-dir_prefix h valid in
    let first : prefix ≡ dir_prefix h =
      sym (cut_front prefix name 2 47 two)
      ∙ ap (take 2) e
      ∙ cut_front (dir_prefix h) (rest h) 2 47 front in
    let second : 47 ∷ name ≡ 47 ∷ rest h =
      sym (cut_back prefix name 2 47 two)
      ∙ ap (drop 2) e
      ∙ cut_back (dir_prefix h) (rest h) 2 47 front in
    ap₂ ◌++◌ first (ap (drop 1) second) ∙ dir_prefix-append-rest h valid

module _ (options : Options) (marked : List Bytes) (before : Store) (h : Hash) where
  -- The object is as it was.
  abbrev Keeps : Report × Store → Type 0
  Keeps (report, store) = store (object_path h) ≡ before (object_path h)

  prune_file-Keeps :
      (path : Bytes) (size : Option ℕ) (report : Report) (store : Store)
      → path ≢ object_path h
      → Keeps (report, store)
      → Keeps (prune_file options path size (report, store))
  unfolding prune_file remove_file
  prune_file-Keeps path size report store differs kept =
      elim (Bool-cases (options.remove_fails path)) [
        | inl fails ↦ elim (Bool-cases options.verbose) [
          | inl told ↦ rw (fails, told) kept
          | inr silent ↦ rw (fails, silent) kept
        ]
        | inr removed ↦ elim (Bool-cases (bytes_equal path (object_path h))) [
          | inl same ↦ absurd (differs ((bytes_equal_iff path (object_path h)).0 same))
          | inr other ↦ rw (removed, other) kept
        ]
      ]

  sweep_file-Keeps :
      (prefix : Bytes) (f : ObjectFile) (report : Report) (store : Store)
      → IsHash h
      → IsMarked marked h
      → length prefix ≡ 2
      → Keeps (report, store)
      → Ensures Keeps (sweep_file options marked prefix f (report, store))
  unfolding sweep_file
  sweep_file-Keeps prefix f report store valid reached two kept =
      Ensures-if f.is_dir _ _ (λ e. Ensures-ok _ kept)
        (λ file.
          Ensures-if (contains (prefix ++ f.name) marked) _ _ (λ e. Ensures-ok _ kept)
            (λ lost.
              Ensures-if (options.verbose && ltb (length (prefix ++ f.name)) 7) _ _
                (λ e. Ensures-panic)
                (λ long.
                  Ensures-if options.prune _ _
                    (λ e. Ensures-ok _ (
                      prune_file-Keeps (prefix ++ 47 ∷ f.name) f.size _ store
                        (λ path.
                          let lost_hash : contains (hex h) marked ≡ false =
                            subst (λ x. contains x marked ≡ false)
                              (object_path-name h prefix f.name valid two path) lost in
                          cc)
                        kept))
                    (λ e. Ensures-ok _ kept))))

  sweep_files-Keeps :
      (prefix : Bytes) (files : List ObjectFile) (state : Report × Store)
      → IsHash h
      → IsMarked marked h
      → length prefix ≡ 2
      → Keeps state
      → Ensures Keeps (sweep_files options marked prefix files state)
  unfolding sweep_files
  sweep_files-Keeps prefix [] state valid reached two kept = Ensures-ok _ kept
  sweep_files-Keeps prefix (f ∷ files) (report, store) valid reached two kept =
      Ensures-bind Keeps (sweep_file options marked prefix f (report, store)) _
        (sweep_file-Keeps prefix f report store valid reached two kept)
        (λ next after. sweep_files-Keeps prefix files next valid reached two after)

  sweep_entries-Keeps :
      (prefix : Bytes) (entries : Option (List ObjectFile)) (state : Report × Store)
      → IsHash h
      → IsMarked marked h
      → length prefix ≡ 2
      → Keeps state
      → Ensures Keeps (sweep_entries options marked prefix entries state)
  sweep_entries-Keeps prefix none state valid reached two kept =
      unfold sweep_entries in Ensures-ok _ kept
  sweep_entries-Keeps prefix (some files) state valid reached two kept =
      unfold sweep_entries in sweep_files-Keeps prefix files state valid reached two kept

  sweep-Keeps :
      (prefixes : List Prefix) (state : Report × Store)
      → IsHash h
      → IsMarked marked h
      → Keeps state
      → Ensures Keeps (sweep options marked prefixes state)
  unfolding sweep
  sweep-Keeps [] state valid reached kept = Ensures-ok _ kept
  sweep-Keeps (p ∷ prefixes) state valid reached kept =
      Ensures-bind Keeps
        (if p.is_dir && (length p.name == 2)
          then sweep_entries options marked p.name p.entries state
          else ok state)
        _
        (Ensures-if (p.is_dir && (length p.name == 2)) _ _
          (λ e. sweep_entries-Keeps p.name p.entries state valid reached (ground (arith, e)) kept)
          (λ e. Ensures-ok _ kept))
        (λ next after. sweep-Keeps prefixes next valid reached after)

with_marks-some :
    {A : Type 0} {a : A} (next : List Bytes → A) (o : Option (List Bytes))
    → with_marks next o ≡ some a
    → (marked : List Bytes) × (o ≡ some marked) × (next marked ≡ a)
with_marks-some next none e = absurd (cc)
with_marks-some next (some marked) e = (marked, refl, cc)

-- When `Collect` returns a report, it has removed and changed no object that can be reached from
-- HEAD, a tag or a reference of a remote through the objects that are read, with whatever options it
-- is called, and whether or not the files that it removes can be removed.
pub collect-keeps :
    (compute : Bytes → Hash) (fuel : ℕ) (options : Options) (r : Repository)
    (listing : Option (List Prefix)) (store : Store) (report : Report) (after : Store) (h : Hash)
    → IsHash h
    → ReachedFrom (children compute store) (roots r) h
    → collect compute fuel options r listing store ≡ some (ok (report, after))
    → after (object_path h) ≡ store (object_path h)
unfolding collect sweep_marked
collect-keeps compute fuel options r none store report after h valid reached e =
    let (marked, found, swept) =
      with_marks-some (sweep_marked options none store)
        (mark_all (mark (children compute store) fuel) (roots r) []) e in
    absurd (cc)
collect-keeps compute fuel options r (some prefixes) store report after h valid reached e =
    let (marked, found, swept) =
      with_marks-some (sweep_marked options (some prefixes) store)
        (mark_all (mark (children compute store) fuel) (roots r) []) e in
    let is_marked =
      (mark_all-Reaches (children compute store) fuel (roots r) marked h found).1 reached in
    (sweep-Keeps options marked store h prefixes (_, store) valid is_marked refl).at (report, after)
      swept
