-- ===== src/Fsck/ShortName.antt =====
-- internal/fsck/fsck.go: the message of an error cuts the name of the file at seven bytes.
use minus_sync.Prelude.{
  ◌<◌, Bool, true, false, ◌&&◌, Option, none, some, List, [], ◌∷◌, ◌++◌, Bytes, length, ltb,
  if◌then◌else◌, ◌==◌, Result, ok, err, panic, ◌>>=◌, Bool-cases, inl, inr, ◌≡◌, refl, sym, ap, ◌∙◌,
  arith, lt→ltb, length-append, subst,
}
use mathlib.Core.List.{Memᴰ}
use minus_sync.Hash.{Hash, from_hex}
use minus_sync.Hash.{Error as HashError}
use minus_sync.Object.{type_tree, type_commit, type_tag}
use minus_sync.Object.{Error as ObjectError}
use minus_sync.Object.Header.{Header}
use minus_sync.Object.Store.{Store, read_content}
use minus_sync.Object.Tree.{parse_tree}
use minus_sync.Object.Commit.{parse_commit}
use minus_sync.Object.Tag.{parse_tag}
use minus_sync.Object.Listing.{ObjectFile, Prefix}
use minus_sync.Fsck.{
  Error, Problem, invalid_hash, Report, problem_of, check_content, check_read, append_error,
  append_problem, check_hash, verify_file, verify_files, verify_entries, verify_prefixes, verify,
}

-- No error is returned: the checks go on, or panic.
data Runs {A : Type 0} : Result Error A → Type 0 where
  ran : (a : A) → Runs (ok a)
  crashed : Runs panic

Runs-bind :
    {A B : Type 0} {r : Result Error A} (f : A → Result Error B)
    → Runs r
    → ((a : A) → Runs (f a))
    → Runs (r >>= f)
Runs-bind f (ran a) k = k a
Runs-bind f crashed k = crashed

Runs-if :
    {A : Type 0} (b : Bool) {r s : Result Error A} → Runs r → Runs s → Runs (if b then r else s)
Runs-if true h k = h
Runs-if false h k = k

Runs-problem_of :
    {A : Type 0} (problem : Problem) (r : Result ObjectError A) → Runs (problem_of problem r)
Runs-problem_of problem (ok a) = ran none
Runs-problem_of problem (err e) = ran (some problem)
Runs-problem_of problem panic = crashed

Runs-check_read : (r : Result ObjectError (Bytes × Header)) → Runs (check_read r)
unfolding check_content
Runs-check_read (ok (content, header)) =
    Runs-if (header.object_type == type_commit) (Runs-problem_of _ (parse_commit content)) (
      Runs-if (header.object_type == type_tree) (Runs-problem_of _ (parse_tree content)) (
        Runs-if (header.object_type == type_tag) (Runs-problem_of _ (parse_tag content))
          (ran none)))
Runs-check_read (err e) = ran _
Runs-check_read panic = crashed

Runs-append_error :
    (full_hex : Bytes) (problem : Problem) (report : Report)
    → Runs (append_error full_hex problem report)
unfolding append_error
Runs-append_error full_hex problem report = Runs-if (ltb (length full_hex) 7) crashed (ran _)

Runs-append_problem :
    (full_hex : Bytes) (report : Report) (problem : Option Problem)
    → Runs (append_problem full_hex report problem)
Runs-append_problem full_hex report none = ran report
Runs-append_problem full_hex report (some problem) = Runs-append_error full_hex problem report

-- A bind that comes after a panic, or before one.
panic-bind :
    {A B : Type 0} {r : Result Error A} (f : A → Result Error B)
    → Runs r
    → ((a : A) → f a ≡ panic)
    → (r >>= f) ≡ panic
panic-bind f (ran a) k = k a
panic-bind f crashed k = refl

module _ (compute : Bytes → Hash) (verbose : Bool) (store : Store) where
  Runs-check_hash :
      (full_hex : Bytes) (report : Report) (r : Result HashError Hash)
      → Runs (check_hash compute store full_hex report r)
  Runs-check_hash full_hex report (ok h) =
      Runs-bind (append_problem full_hex report) (Runs-check_read (read_content compute store h))
        (Runs-append_problem full_hex report)
  Runs-check_hash full_hex report (err e) = Runs-append_error full_hex invalid_hash report
  Runs-check_hash full_hex report panic = crashed

  Runs-verify_file :
      (prefix : Bytes) (f : ObjectFile) (report : Report)
      → Runs (verify_file compute verbose store prefix f report)
  unfolding verify_file
  Runs-verify_file prefix f report = Runs-if f.is_dir (ran report) (
      Runs-if (verbose && ltb (length (prefix ++ f.name)) 7) crashed
        (Runs-check_hash (prefix ++ f.name) _ (from_hex (prefix ++ f.name))))

  Runs-verify_files :
      (prefix : Bytes) (files : List ObjectFile) (report : Report)
      → Runs (verify_files compute verbose store prefix files report)
  unfolding verify_files
  Runs-verify_files prefix [] report = ran report
  Runs-verify_files prefix (f ∷ files) report =
      Runs-bind (verify_files compute verbose store prefix files) (Runs-verify_file prefix f report)
        (Runs-verify_files prefix files)

  Runs-verify_entries :
      (prefix : Bytes) (entries : Option (List ObjectFile)) (report : Report)
      → Runs (verify_entries compute verbose store prefix entries report)
  unfolding verify_entries
  Runs-verify_entries prefix none report = ran report
  Runs-verify_entries prefix (some files) report = Runs-verify_files prefix files report

  verify_file-panic :
      (prefix : Bytes) (f : ObjectFile) (report : Report)
      → f.is_dir ≡ false
      → length (prefix ++ f.name) < 7
      → verify_file compute verbose store prefix f report ≡ panic
  unfolding verify_file from_hex append_error
  verify_file-panic prefix f report file short =
      let other : (length (prefix ++ f.name) == 64) ≡ false = ground arith in
      let cut : ltb (length (prefix ++ f.name)) 7 ≡ true = lt→ltb _ 7 short in
      elim (Bool-cases verbose) [
        | inl told ↦ rw (file, told, cut) refl
        | inr silent ↦ rw (file, silent, other, cut) refl
      ]

  verify_files-panic :
      (prefix : Bytes) (files : List ObjectFile) (f : ObjectFile) (report : Report)
      → Memᴰ f files
      → f.is_dir ≡ false
      → length (prefix ++ f.name) < 7
      → verify_files compute verbose store prefix files report ≡ panic
  unfolding verify_files
  verify_files-panic prefix [] f report m file short = elim m [ ]
  verify_files-panic prefix (g ∷ files) f report (Memᴰ.head e) file short =
      let crash =
        verify_file-panic prefix g report (ap (λ (x : ObjectFile). x.is_dir) (sym e) ∙ file)
          (subst (λ (x : ObjectFile). length (prefix ++ x.name) < 7) e short) in
      rw crash refl
  verify_files-panic prefix (g ∷ files) f report (Memᴰ.tail m) file short =
      panic-bind (verify_files compute verbose store prefix files)
        (Runs-verify_file prefix g report)
        (λ next. verify_files-panic prefix files f next m file short)

  verify_prefixes-panic :
      (prefixes : List Prefix) (p : Prefix) (files : List ObjectFile) (f : ObjectFile)
      (report : Report)
      → Memᴰ p prefixes
      → (p.is_dir && (length p.name == 2)) ≡ true
      → p.entries ≡ some files
      → Memᴰ f files
      → f.is_dir ≡ false
      → length (p.name ++ f.name) < 7
      → verify_prefixes compute verbose store prefixes report ≡ panic
  unfolding verify_prefixes
  verify_prefixes-panic [] p files f report n looked listed m file short = elim n [ ]
  verify_prefixes-panic (q ∷ prefixes) p files f report (Memᴰ.head e) looked listed m file short =
      let crash : verify_entries compute verbose store p.name p.entries report ≡ panic =
        rw listed
          (unfold verify_entries in verify_files-panic p.name files f report m file short) in
      let step : verify_prefixes compute verbose store (p ∷ prefixes) report ≡ panic =
        unfold verify_prefixes in rw (looked, crash) refl in
      subst (λ (x : Prefix). verify_prefixes compute verbose store (x ∷ prefixes) report ≡ panic) e
        step
  verify_prefixes-panic (q ∷ prefixes) p files f report (Memᴰ.tail n) looked listed m file short =
      panic-bind (verify_prefixes compute verbose store prefixes)
        (Runs-if (q.is_dir && (length q.name == 2)) (Runs-verify_entries q.name q.entries report)
          (ran report))
        (λ next. verify_prefixes-panic prefixes p files f next n looked listed m file short)

  -- `Verify` panics, in place of a report, if a directory with two letters holds a file whose name
  -- has less than five bytes: the name is no hash, and its first seven bytes are cut for the message.
  pub verify-panic :
      (prefixes : List Prefix) (p : Prefix) (files : List ObjectFile) (f : ObjectFile)
      → Memᴰ p prefixes
      → p.is_dir ≡ true
      → length p.name ≡ 2
      → p.entries ≡ some files
      → Memᴰ f files
      → f.is_dir ≡ false
      → length f.name < 5
      → verify compute verbose store (some prefixes) ≡ panic
  unfolding verify
  verify-panic prefixes p files f m dir two listed n file short =
      verify_prefixes-panic prefixes p files f _ m (rw dir (ground (arith, two))) listed n file
        (omega (arith, length-append p.name f.name, two, short))
