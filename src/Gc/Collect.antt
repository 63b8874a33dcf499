-- ===== src/Gc/Collect.antt =====
-- internal/gc/gc.go: `Collect`. The listings of the directories are arguments.
pub mod Keeps
pub mod Returns
use minus_sync.Prelude.{
  ℕ, ◌+◌, Bool, true, false, not, ◌&&◌, Option, none, some, List, [], ◌∷◌, ◌++◌, Bytes, length, map,
  ltb, bytes_equal, if◌then◌else◌, ◌==◌, Result, ok, err, panic, ◌>>=◌,
}
use minus_sync.Hash.{Hash, is_zero}
use minus_sync.Object.{ObjectType, type_blob, type_tree, type_commit, type_tag}
use minus_sync.Object.{Error as ObjectError}
use minus_sync.Object.Listing.{ObjectFile, Prefix}
use minus_sync.Object.Header.{Header}
use minus_sync.Object.Store.{Store, read_header}
use minus_sync.Object.Tree.{TreeEntry}
use minus_sync.Object.Tree.Read.{read_tree}
use minus_sync.Object.Commit.{CommitData, read_commit}
use minus_sync.Object.Tag.{TagData, read_tag}
use minus_sync.Refs.{Files, get_tag, get_remote_ref, resolve_head}
use minus_sync.Refs.{Error as RefsError}
use minus_sync.Gc.{contains, mark, mark_all}

-- What an object refers to; an object that cannot be read refers to nothing.
abbrev pub commit_children : Result ObjectError CommitData → List Hash
commit_children (ok c) = c.tree ∷ c.parents
commit_children (err e) = []
commit_children panic = []

abbrev pub tree_children : Result ObjectError (List TreeEntry) → List Hash
tree_children (ok entries) = map (λ (e : TreeEntry). e.hash) entries
tree_children (err e) = []
tree_children panic = []

abbrev pub tag_children : Result ObjectError TagData → List Hash
tag_children (ok t) = t.object ∷ []
tag_children (err e) = []
tag_children panic = []

abbrev pub children_of : (Bytes → Hash) → Store → Hash → Result ObjectError Header → List Hash
children_of compute store h (ok header) =
    if header.object_type == type_commit
    then commit_children (read_commit compute store h)
    else if header.object_type == type_tree
    then tree_children (read_tree compute store h)
    else if header.object_type == type_tag
    then tag_children (read_tag compute store h)
    else []
children_of compute store h (err e) = []
children_of compute store h panic = []

unfoldable pub children : (Bytes → Hash) → Store → Hash → List Hash
children compute store h = children_of compute store h (read_header compute store h)

abbrev pub head_root : Result RefsError Hash → List Hash
head_root (ok h) = if is_zero h then [] else h ∷ []
head_root (err e) = []
head_root panic = []

abbrev pub ref_root : Result RefsError Hash → List Hash
ref_root (ok h) = h ∷ []
ref_root (err e) = []
ref_root panic = []

unfoldable pub tag_roots : Bytes → Files → List Bytes → List Hash
tag_roots refs_dir files [] = []
tag_roots refs_dir files (name ∷ names) =
    ref_root (get_tag refs_dir name files) ++ tag_roots refs_dir files names

unfoldable pub remote_roots : Bytes → Files → List (Bytes × Bytes) → List Hash
remote_roots refs_dir files [] = []
remote_roots refs_dir files ((remote, name) ∷ names) =
    ref_root (get_remote_ref refs_dir remote name files) ++ remote_roots refs_dir files names

-- The references as `Collect` finds them.
pub record Repository : Type 0 where
  pub refs_dir : Bytes
  pub head_path : Bytes
  pub files : Files
  pub tags : List Bytes
  pub remotes : List (Bytes × Bytes)

unfoldable pub roots : Repository → List Hash
unfolding tag_roots remote_roots
roots r =
    head_root (resolve_head r.head_path r.files)
    ++ (tag_roots r.refs_dir r.files r.tags ++ remote_roots r.refs_dir r.files r.remotes)

pub data Error : Type 0 where
  read_dir_failed : Error

pub record Report : Type 0 where
  pub total_objects : ℕ
  pub reachable_objects : ℕ
  pub unreachable_objects : ℕ
  pub recovered_bytes : ℕ
  pub pruned : Bool

abbrev pub file_size : Option ℕ → ℕ
file_size none = 0
file_size (some n) = n

-- How `Collect` is called, and which files cannot be removed.
pub record Options : Type 0 where
  pub prune : Bool
  pub verbose : Bool
  pub remove_fails : Bytes → Bool

unfoldable pub remove_file : Bytes → Store → Store
remove_file path store p = if bytes_equal path p then none else store p

unfoldable pub prune_file : Options → Bytes → Option ℕ → Report × Store → Report × Store
unfolding remove_file
prune_file options path size (report, store) =
    let recovered : Report = record report {
      recovered_bytes = report.recovered_bytes + file_size size;
    } in
    let removed : Report = record recovered { pruned = true } in
    if options.remove_fails path
    then (if options.verbose then (recovered, store) else (removed, store))
    else (removed, remove_file path store)

-- One turn of the inner loop. The text of a verbose call is cut at seven bytes.
unfoldable pub sweep_file :
    Options → List Bytes → Bytes → ObjectFile → Report × Store → Result Error (Report × Store)
unfolding prune_file
sweep_file options marked prefix f (report, store) =
    let full_hash = prefix ++ f.name in
    let counted : Report = record report { total_objects = report.total_objects + 1 } in
    let unreached : Report = record counted {
      unreachable_objects = counted.unreachable_objects + 1;
    } in
    if f.is_dir
    then ok (report, store)
    else if contains full_hash marked
    then ok (counted, store)
    else if options.verbose && ltb (length full_hash) 7
    then panic
    else if options.prune
    then ok (prune_file options (prefix ++ 47 ∷ f.name) f.size (unreached, store))
    else ok (unreached, store)

unfoldable pub sweep_files :
    Options → List Bytes → Bytes → List ObjectFile → Report × Store → Result Error (Report × Store)
unfolding sweep_file
sweep_files options marked prefix [] state = ok state
sweep_files options marked prefix (f ∷ files) state =
    sweep_file options marked prefix f state >>= sweep_files options marked prefix files

abbrev pub sweep_entries :
    Options
    → List Bytes
    → Bytes
    → Option (List ObjectFile)
    → Report × Store
    → Result Error (Report × Store)
unfolding sweep_files
sweep_entries options marked prefix none state = ok state
sweep_entries options marked prefix (some files) state =
    sweep_files options marked prefix files state

unfoldable pub sweep :
    Options → List Bytes → List Prefix → Report × Store → Result Error (Report × Store)
unfolding sweep_entries
sweep options marked [] state = ok state
sweep options marked (p ∷ prefixes) state =
    (if p.is_dir && (length p.name == 2)
      then sweep_entries options marked p.name p.entries state
      else ok state)
    >>= sweep options marked prefixes

abbrev pub sweep_marked :
    Options → Option (List Prefix) → Store → List Bytes → Result Error (Report × Store)
unfolding sweep
sweep_marked options none store marked = err read_dir_failed
sweep_marked options (some prefixes) store marked =
    let report : Report = record {
      total_objects = 0;
      reachable_objects = length marked;
      unreachable_objects = 0;
      recovered_bytes = 0;
      pruned = false;
    } in
    sweep options marked prefixes (report, store)

abbrev pub with_marks {ℓ} : {A : Type ℓ} → (List Bytes → A) → Option (List Bytes) → Option A
with_marks next none = none
with_marks next (some marked) = some (next marked)

-- `none` when the marking has not returned within the fuel.
unfoldable pub collect :
    (Bytes → Hash)
    → ℕ
    → Options
    → Repository
    → Option (List Prefix)
    → Store
    → Option (Result Error (Report × Store))
unfolding sweep_marked
collect compute fuel options r listing store =
    with_marks (sweep_marked options listing store)
      (mark_all (mark (children compute store) fuel) (roots r) [])
