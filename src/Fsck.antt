-- ===== src/Fsck.antt =====
-- internal/fsck/fsck.go: `Verify`, the check of every object in the objects directory.
pub mod Clean
pub mod ShortName
mod Tests
use minus_sync.Prelude.{
  ℕ, ◌+◌, Bool, true, false, ◌&&◌, Option, none, some, List, [], ◌∷◌, ◌++◌, Bytes, length, take,
  ltb, if◌then◌else◌, ◌==◌, Result, ok, err, panic, ◌>>=◌,
}
use minus_sync.Hash.{Hash, from_hex}
use minus_sync.Hash.{Error as HashError}
use minus_sync.Object.{ObjectType, type_tree, type_commit, type_tag}
use minus_sync.Object.{Error as ObjectError}
use minus_sync.Object.Header.{Header}
use minus_sync.Object.Store.{Store, read_content}
use minus_sync.Object.Tree.{parse_tree}
use minus_sync.Object.Commit.{parse_commit}
use minus_sync.Object.Tag.{parse_tag}
use minus_sync.Object.Listing.{ObjectFile, Prefix}

pub data Error : Type 0 where
  read_dir_failed : Error

-- The message of an error of the report.
pub data Problem : Type 0 where
  invalid_hash read_error parse_commit_error parse_tree_error parse_tag_error : Problem

pub record Report : Type 0 where
  pub objects_checked : ℕ
  pub errors : List (Bytes × Problem)

abbrev pub problem_of {ℓ} :
    {A : Type ℓ} → Problem → Result ObjectError A → Result Error (Option Problem)
problem_of problem (ok a) = ok none
problem_of problem (err e) = ok (some problem)
problem_of problem panic = panic

-- The check that the type of the object calls for.
unfoldable pub check_content : Bytes → ObjectType → Result Error (Option Problem)
check_content content t =
    if t == type_commit
    then problem_of parse_commit_error (parse_commit content)
    else if t == type_tree
    then problem_of parse_tree_error (parse_tree content)
    else if t == type_tag
    then problem_of parse_tag_error (parse_tag content)
    else ok none

abbrev pub check_read : Result ObjectError (Bytes × Header) → Result Error (Option Problem)
check_read (ok (content, header)) = check_content content header.object_type
check_read (err e) = ok (some read_error)
check_read panic = panic

-- `append(report.Errors, …)`, with the first seven bytes of the name of the file.
unfoldable pub append_error : Bytes → Problem → Report → Result Error Report
append_error full_hex problem report =
    if ltb (length full_hex) 7
    then panic
    else ok (record report { errors = report.errors ++ (take 7 full_hex, problem) ∷ [] })

abbrev pub append_problem : Bytes → Report → Option Problem → Result Error Report
append_problem full_hex report none = ok report
append_problem full_hex report (some problem) = append_error full_hex problem report

abbrev pub check_hash :
    (Bytes → Hash) → Store → Bytes → Report → Result HashError Hash → Result Error Report
check_hash compute store full_hex report (ok h) =
    check_read (read_content compute store h) >>= append_problem full_hex report
check_hash compute store full_hex report (err e) = append_error full_hex invalid_hash report
check_hash compute store full_hex report panic = panic

module _ (compute : Bytes → Hash) (verbose : Bool) (store : Store) where
  -- One turn of the inner loop. The text of a verbose call is cut at seven bytes.
  unfoldable pub verify_file : Bytes → ObjectFile → Report → Result Error Report
  verify_file prefix f report =
      let full_hex = prefix ++ f.name in
      let counted : Report = record report { objects_checked = report.objects_checked + 1 } in
      if f.is_dir
      then ok report
      else if verbose && ltb (length full_hex) 7
      then panic
      else check_hash compute store full_hex counted (from_hex full_hex)

  unfoldable pub verify_files : Bytes → List ObjectFile → Report → Result Error Report
  unfolding verify_file
  verify_files prefix [] report = ok report
  verify_files prefix (f ∷ files) report = verify_file prefix f report >>= verify_files prefix files

  unfoldable pub verify_entries : Bytes → Option (List ObjectFile) → Report → Result Error Report
  unfolding verify_files
  verify_entries prefix none report = ok report
  verify_entries prefix (some files) report = verify_files prefix files report

  -- The directories with two letters.
  unfoldable pub verify_prefixes : List Prefix → Report → Result Error Report
  unfolding verify_entries
  verify_prefixes [] report = ok report
  verify_prefixes (p ∷ prefixes) report =
      (if p.is_dir && (length p.name == 2)
        then verify_entries p.name p.entries report
        else ok report)
      >>= verify_prefixes prefixes

  unfoldable pub verify : Option (List Prefix) → Result Error Report
  unfolding verify_prefixes
  verify none = err read_dir_failed
  verify (some prefixes) = verify_prefixes prefixes (record { objects_checked = 0; errors = [] })
