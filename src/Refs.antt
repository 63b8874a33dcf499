-- ===== src/Refs.antt =====
-- internal/refs: the references under the refs directory, and HEAD.
pub mod Frame
mod Tests
use minus_sync.Prelude.{
  ℕ, Bool, true, false, Option, none, some, List, [], ◌∷◌, ◌++◌, Bytes, take, codes, bytes_equal,
  if◌then◌else◌, Result, ok, err, map_err, ◌>>=◌, trim_space, FilePath, path_equal, join_path,
}
use minus_sync.Hash.{Hash, hex, from_hex}
use minus_sync.Hash.{Error as HashError}

-- What the file system has at a path.
pub data File : Type 0 where
  absent unreadable : File
  contents : Bytes → File

abbrev pub Files : Type 0
Files = FilePath → File

pub data Error : Type 0 where
  ref_not_found read_failed mkdir_failed write_failed tag_not_found remove_failed : Error
  invalid_ref : HashError → Error
  read_head_failed invalid_head : Error

-- The error of the calls that change the file system, if there is one.
abbrev pub Outcome : Type 0
Outcome = Option Error

unfoldable pub put : FilePath → File → Files → Files
put path file files p = if path_equal path p then file else files p

abbrev pub parse_ref : File → Result Error Hash
parse_ref absent = err ref_not_found
parse_ref unreadable = err read_failed
parse_ref (contents text) = map_err invalid_ref (from_hex (trim_space text))

unfoldable pub read_ref : FilePath → Files → Result Error Hash
read_ref path files = parse_ref (files path)

-- The file is renamed to its path once it is whole, so an error leaves what was there.
unfoldable pub write_ref : Outcome → FilePath → Hash → Files → Outcome × Files
unfolding put
write_ref (some e) path h files = (some e, files)
write_ref none path h files = (none, put path (contents (hex h ++ 10 ∷ [])) files)

abbrev pub tag_path : Bytes → Bytes → FilePath
tag_path refs_dir name = join_path (refs_dir ∷ codes "tags" ∷ name ∷ [])

abbrev pub remote_path : Bytes → Bytes → Bytes → FilePath
remote_path refs_dir remote name = join_path (refs_dir ∷ codes "remotes" ∷ remote ∷ name ∷ [])

module _ (refs_dir : Bytes) where
  unfoldable pub get_tag : Bytes → Files → Result Error Hash
  unfolding read_ref
  get_tag name files = read_ref (tag_path refs_dir name) files

  unfoldable pub set_tag : Outcome → Bytes → Hash → Files → Outcome × Files
  unfolding write_ref
  set_tag outcome name h files = write_ref outcome (tag_path refs_dir name) h files

  unfoldable pub get_remote_ref : Bytes → Bytes → Files → Result Error Hash
  unfolding read_ref
  get_remote_ref remote name files = read_ref (remote_path refs_dir remote name) files

  unfoldable pub set_remote_ref : Outcome → Bytes → Bytes → Hash → Files → Outcome × Files
  unfolding write_ref
  set_remote_ref outcome remote name h files =
      write_ref outcome (remote_path refs_dir remote name) h files

-- `os.Remove` behind the test that the file is there.
abbrev pub remove_file : Outcome → File → FilePath → Files → Outcome × Files
unfolding put
remove_file outcome absent path files = (some tag_not_found, files)
remove_file (some e) unreadable path files = (some e, files)
remove_file (some e) (contents text) path files = (some e, files)
remove_file none unreadable path files = (none, put path absent files)
remove_file none (contents text) path files = (none, put path absent files)

unfoldable pub delete_tag : Bytes → Outcome → Bytes → Files → Outcome × Files
unfolding remove_file
delete_tag refs_dir outcome name files =
    let path = tag_path refs_dir name in remove_file outcome (files path) path files

abbrev pub parse_head : File → Result Error Hash
parse_head absent = err read_head_failed
parse_head unreadable = err read_head_failed
parse_head (contents text) = map_err (λ e. invalid_head) (from_hex (trim_space text))

unfoldable pub read_head : Bytes → Files → Result Error Hash
read_head head_path files = parse_head (files (join_path (head_path ∷ [])))

unfoldable pub resolve_head : Bytes → Files → Result Error Hash
unfolding read_head
resolve_head head_path files = read_head head_path files

-- `os.WriteFile` writes in place: an error leaves a part of the text, `some n` its first n bytes.
unfoldable pub write_head : Option ℕ → Bytes → Hash → Files → Outcome × Files
unfolding put
write_head none head_path h files =
    (none, put (join_path (head_path ∷ [])) (contents (hex h ++ 10 ∷ [])) files)
write_head (some n) head_path h files = (
  some write_failed,
  put (join_path (head_path ∷ [])) (contents (take n (hex h ++ 10 ∷ []))) files,
)
