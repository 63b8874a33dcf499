-- ===== src/Fsck/Clean.antt =====
-- internal/fsck/fsck.go: what a report without errors says, and the name that is too short.
use minus_sync.Prelude.{
  Bool, true, false, ◌&&◌, Option, none, some, List, [], ◌∷◌, ◌++◌, Bytes, All, length, take, ltb,
  ◌==◌, Result, ok, err, panic, ok_injective, Handed-of_ok, Result-cases, Bool-cases, inl, inr, ◌≡◌,
  refl, ap, ◌∙◌,
}
use minus_sync.Hash.{Hash, from_hex}
use minus_sync.Object.Header.{Header}
use minus_sync.Object.Store.{Store, read_content}
use minus_sync.Object.Listing.{ObjectFile, Prefix}
use minus_sync.Object.{ObjectType, type_commit, type_tree, type_tag}
use minus_sync.Object.{Error as ObjectError}
use minus_sync.Object.Tree.{TreeEntry, parse_tree}
use minus_sync.Object.Commit.{CommitData, parse_commit}
use minus_sync.Object.Tag.{TagData, parse_tag}
use minus_sync.Fsck.{
  problem_of, parse_commit_error, parse_tree_error, parse_tag_error, Error, Problem, invalid_hash,
  Report, check_content, check_read, append_error, append_problem, check_hash, verify_file,
  verify_files, verify_entries, verify_prefixes, verify,
}

panic-ne-ok : {r : Report} → ◌≡◌ {A = Result Error Report} panic (ok r) → ⊥
panic-ne-ok e = cc

append-ne-nil : {A : Type 0} (xs : List A) (x : A) → xs ++ x ∷ [] ≡ [] → ⊥
append-ne-nil [] x e = cc
append-ne-nil (y ∷ xs) x e = cc

-- An error that was appended is in the report.
append_error-errors :
    (full_hex : Bytes) (problem : Problem) (report after : Report)
    → append_error full_hex problem report ≡ ok after
    → after.errors ≡ []
    → ⊥
unfolding append_error
append_error-errors full_hex problem report after e empty =
    elim (Bool-cases (ltb (length full_hex) 7)) [
      | inl short ↦ panic-ne-ok (rw short at e)
      | inr long ↦
          append-ne-nil report.errors (take 7 full_hex, problem)
            (ap (λ (r : Report). r.errors) (ok_injective (rw long at e)) ∙ empty)
    ]

append_problem-none :
    (full_hex : Bytes) (problem : Option Problem) (report after : Report)
    → append_problem full_hex report problem ≡ ok after
    → after.errors ≡ []
    → (problem ≡ none) × (report ≡ after)
append_problem-none full_hex none report after e empty = (refl, ok_injective e)
append_problem-none full_hex (some problem) report after e empty =
    absurd (append_error-errors full_hex problem report after e empty)

some-ne-none : {p : Problem} → ◌≡◌ {A = Result Error (Option Problem)} (ok (some p)) (ok none) → ⊥
some-ne-none e = cc

panic-ne-none : ◌≡◌ {A = Result Error (Option Problem)} panic (ok none) → ⊥
panic-ne-none e = cc

problem_of-none :
    {A : Type 0} (problem : Problem) (r : Result ObjectError A)
    → problem_of problem r ≡ ok none
    → (a : A) × (r ≡ ok a)
problem_of-none problem (ok a) e = (a, refl)
problem_of-none problem (err why) e = absurd (some-ne-none e)
problem_of-none problem panic e = absurd (panic-ne-none e)

-- The parser that the type calls for ran, and returned a value.
module _ (content : Bytes) (t : ObjectType) (e : check_content content t ≡ ok none) where
  check_content-commit : t ≡ type_commit → (c : CommitData) × (parse_commit content ≡ ok c)
  unfolding check_content
  check_content-commit same =
      problem_of-none parse_commit_error (parse_commit content) (rw same at e)

  check_content-tree :
      t ≡ type_tree → (entries : List TreeEntry) × (parse_tree content ≡ ok entries)
  unfolding check_content
  check_content-tree same = problem_of-none parse_tree_error (parse_tree content) (rw same at e)

  check_content-tag : t ≡ type_tag → (d : TagData) × (parse_tag content ≡ ok d)
  unfolding check_content
  check_content-tag same = problem_of-none parse_tag_error (parse_tag content) (rw same at e)

module _ (compute : Bytes → Hash) (verbose : Bool) (store : Store) where
  -- The file is the object that its name says, and its content parses.
  pub record IsSound (prefix : Bytes) (f : ObjectFile) : Type 0 where
    pub hash : Hash
    pub named : from_hex (prefix ++ f.name) ≡ ok hash
    pub content : Bytes
    pub header : Header
    pub reads : read_content compute store hash ≡ ok (content, header)
    pub commit : header.object_type ≡ type_commit → (c : CommitData) × (parse_commit content ≡ ok c)
    pub tree :
        header.object_type ≡ type_tree
        → (entries : List TreeEntry) × (parse_tree content ≡ ok entries)
    pub tag : header.object_type ≡ type_tag → (t : TagData) × (parse_tag content ≡ ok t)

  abbrev pub SoundFile : Bytes → ObjectFile → Type 0
  SoundFile prefix f = f.is_dir ≡ false → IsSound prefix f

  check_read-none :
      (full_hex : Bytes) (h : Hash)
      → check_read (read_content compute store h) ≡ ok none
      → (content : Bytes) × (header : Header) × (read_content compute store h
          ≡ ok (content, header))
        × (check_content content header.object_type ≡ ok none)
  check_read-none full_hex h e = elim (Result-cases (read_content compute store h)) [
    | inl ((content, header), found) ↦ (content, header, found, rw found at e)
    | inr (inl (why, failed)) ↦ absurd (some-ne-none (rw failed at e))
    | inr (inr failed) ↦ absurd (panic-ne-none (rw failed at e))
  ]

  check_hash-IsSound :
      (prefix : Bytes) (f : ObjectFile) (report after : Report)
      → check_hash compute store (prefix ++ f.name) report (from_hex (prefix ++ f.name)) ≡ ok after
      → after.errors ≡ []
      → IsSound prefix f × (report ≡ after)
  check_hash-IsSound prefix f report after e empty =
      let full_hex = prefix ++ f.name in
      elim (Result-cases (from_hex full_hex)) [
        | inl (h, named) ↦
            let handed =
              Handed-of_ok (append_problem full_hex report)
                (check_read (read_content compute store h)) (rw named at e) in
            let (no_problem, same) =
              append_problem-none full_hex handed.value report after handed.behind empty in
            let (content, header, reads, parses) =
              check_read-none full_hex h (handed.before ∙ ap ok no_problem) in
            (
              record {
                hash = h;
                named = named;
                content = content;
                header = header;
                reads = reads;
                commit = check_content-commit content header.object_type parses;
                tree = check_content-tree content header.object_type parses;
                tag = check_content-tag content header.object_type parses;
              },
              same,
            )
        | inr (inl (why, failed)) ↦
            absurd (append_error-errors full_hex invalid_hash report after (rw failed at e) empty)
        | inr (inr failed) ↦ absurd (panic-ne-ok (rw failed at e))
      ]

  verify_file_sound :
      (prefix : Bytes) (f : ObjectFile) (report after : Report)
      → verify_file compute verbose store prefix f report ≡ ok after
      → after.errors ≡ []
      → SoundFile prefix f × (report.errors ≡ [])
  unfolding verify_file
  verify_file_sound prefix f report after e empty = elim (Bool-cases f.is_dir) [
    | inl dir ↦
        ((λ file. absurd (cc)), ap (λ (r : Report). r.errors) (ok_injective (rw dir at e)) ∙ empty)
    | inr file ↦ elim (Bool-cases (verbose && ltb (length (prefix ++ f.name)) 7)) [
      | inl short ↦ absurd (panic-ne-ok (rw (file, short) at e))
      | inr long ↦
          let (sound, same) = check_hash-IsSound prefix f _ after (rw (file, long) at e) empty in
          ((λ again. sound), ap (λ (r : Report). r.errors) same ∙ empty)
    ]
  ]

  verify_files_sound :
      (prefix : Bytes) (files : List ObjectFile) (report after : Report)
      → verify_files compute verbose store prefix files report ≡ ok after
      → after.errors ≡ []
      → All (SoundFile prefix) files × (report.errors ≡ [])
  unfolding verify_files
  verify_files_sound prefix [] report after e empty =
      (tt, ap (λ (r : Report). r.errors) (ok_injective e) ∙ empty)
  verify_files_sound prefix (f ∷ files) report after e empty =
      let handed =
        Handed-of_ok (verify_files compute verbose store prefix files)
          (verify_file compute verbose store prefix f report) e in
      let (rest, middle) = verify_files_sound prefix files handed.value after handed.behind empty in
      let (first, before) = verify_file_sound prefix f report handed.value handed.before middle in
      ((first, rest), before)

  -- The files that the loop looks at.
  abbrev pub SoundEntries : Bytes → Option (List ObjectFile) → Type 0
  SoundEntries prefix none = Unit {0}
  SoundEntries prefix (some files) = All (SoundFile prefix) files

  abbrev pub SoundPrefix : Prefix → Type 0
  SoundPrefix p = (p.is_dir && (length p.name == 2)) ≡ true → SoundEntries p.name p.entries

  verify_entries_sound :
      (prefix : Bytes) (entries : Option (List ObjectFile)) (report after : Report)
      → verify_entries compute verbose store prefix entries report ≡ ok after
      → after.errors ≡ []
      → SoundEntries prefix entries × (report.errors ≡ [])
  unfolding verify_entries
  verify_entries_sound prefix none report after e empty =
      (tt, ap (λ (r : Report). r.errors) (ok_injective e) ∙ empty)
  verify_entries_sound prefix (some files) report after e empty =
      verify_files_sound prefix files report after e empty

  verify_prefixes_sound :
      (prefixes : List Prefix) (report after : Report)
      → verify_prefixes compute verbose store prefixes report ≡ ok after
      → after.errors ≡ []
      → All SoundPrefix prefixes × (report.errors ≡ [])
  unfolding verify_prefixes
  verify_prefixes_sound [] report after e empty =
      (tt, ap (λ (r : Report). r.errors) (ok_injective e) ∙ empty)
  verify_prefixes_sound (p ∷ prefixes) report after e empty =
      let handed = Handed-of_ok (verify_prefixes compute verbose store prefixes) _ e in
      let (rest, middle) = verify_prefixes_sound prefixes handed.value after handed.behind empty in
      elim (Bool-cases (p.is_dir && (length p.name == 2))) [
        | inl looked ↦
            let (first, before) =
              verify_entries_sound p.name p.entries report handed.value (rw looked at handed.before)
                middle in
            (((λ again. first), rest), before)
        | inr skipped ↦ (
          ((λ looked. absurd (cc)), rest),
          ap (λ (r : Report). r.errors) (ok_injective (rw skipped at handed.before)) ∙ middle,
        )
      ]

  -- When `Verify` reports no error, every file in a directory with two letters that it could list
  -- has the name of a hash under which the store reads as an object, with the hash and the size that
  -- it should have, and a commit, a tree or a tag among them parses.
  pub verify_sound :
      (prefixes : List Prefix) (report : Report)
      → verify compute verbose store (some prefixes) ≡ ok report
      → report.errors ≡ []
      → All SoundPrefix prefixes
  unfolding verify
  verify_sound prefixes report e empty =
      (verify_prefixes_sound prefixes (record { objects_checked = 0; errors = [] }) report e
        empty).0
