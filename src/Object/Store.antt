-- ===== src/Object/Store.antt =====
-- internal/object/object.go and blob.go: the loose objects under the objects directory. SHA-256
-- is the parameter `compute`; the directory is a map from paths to contents.
pub mod Written
pub mod Laws
pub mod Blobs
use minus_sync.Prelude.{
  ℕ, zero, suc, ◌+◌, ◌-◌, Bool, true, false, not, Option, none, some, List, [], ◌∷◌, ◌++◌, Bytes,
  codes, length, drop, if◌then◌else◌, Result, ok, err, panic, or_err, ◌>>=◌, bytes_equal, ◌==◌,
}
use minus_sync.Hash.{Hash, equal, dir_prefix, rest}
use minus_sync.Object.{
  ObjectType, type_blob, Error, not_found, corrupted, size_mismatch, unexpected_type,
  create_object_dir, create_temp, write_temp, close_temp, rename_temp,
}
use minus_sync.Object.Header.{Header, parse_header, format}

-- `filepath.Join` below the objects directory.
unfoldable pub object_path : Hash → Bytes
object_path h = dir_prefix h ++ 47 ∷ rest h

-- The files of the objects directory by their paths.
abbrev pub Store : Type 0
Store = Bytes → Option Bytes

-- `os.Rename` of a temporary file with these contents to the path.
unfoldable pub rename_to : Bytes → Bytes → Store → Store
rename_to path data_bytes store p = if bytes_equal path p then some data_bytes else store p

-- The path of a temporary file of `os.CreateTemp`, which picks the suffix.
unfoldable pub temp_path : Hash → Bytes → Bytes
temp_path h suffix = dir_prefix h ++ 47 ∷ (codes ".tmp-obj-" ++ suffix)

-- The temporary file, by its suffix and its contents, when `os.Remove` fails too. Its error is
-- ignored.
abbrev pub Leftover : Type 0
Leftover = Option (Bytes × Bytes)

unfoldable pub leave : Leftover → Hash → Store → Store
unfolding rename_to temp_path
leave none h store = store
leave (some (suffix, written)) h store = rename_to (temp_path h suffix) written store

-- Where the file system stops a write: each stands for the error of one call, and behind the
-- creation of the temporary file it says whether that file is left. A file that is there when the
-- rename runs was put there by another process.
pub data Outcome : Type 0 where
  done mkdir_fails create_fails : Outcome
  write_fails close_fails rename_exists rename_fails : Leftover → Outcome

-- `Write` of an object that is not there yet.
unfoldable pub write_new : Outcome → Hash → Bytes → Store → Result Error Hash × Store
unfolding rename_to object_path leave
write_new done h data_bytes store = (ok h, rename_to (object_path h) data_bytes store)
write_new mkdir_fails h data_bytes store = (err create_object_dir, store)
write_new create_fails h data_bytes store = (err create_temp, store)
write_new (write_fails left) h data_bytes store = (err write_temp, leave left h store)
write_new (close_fails left) h data_bytes store = (err close_temp, leave left h store)
write_new (rename_exists left) h data_bytes store = (ok h, leave left h store)
write_new (rename_fails left) h data_bytes store = (err rename_temp, leave left h store)

abbrev pub write_if_new : Option Bytes → Outcome → Hash → Bytes → Store → Result Error Hash × Store
write_if_new none outcome h data_bytes store = write_new outcome h data_bytes store
write_if_new (some present) outcome h data_bytes store = (ok h, store)

unfoldable pub exists : Store → Hash → Bool
unfolding object_path
exists store h = elim (store (object_path h)) [ none ↦ false | some present ↦ true ]

unfoldable pub read_raw : Store → Hash → Result Error Bytes
unfolding object_path
read_raw store h = or_err not_found (store (object_path h))

module _ (compute : Bytes → Hash) where
  unfoldable pub write : Outcome → Bytes → Store → Result Error Hash × Store
  unfolding write_new object_path
  write outcome data_bytes store =
      let h = compute data_bytes in write_if_new (store (object_path h)) outcome h data_bytes store

  unfoldable pub read : Store → Hash → Result Error Bytes
  unfolding read_raw
  read store h = do
    data_bytes ← read_raw store h
    if not (equal (compute data_bytes) h) then err corrupted else ok data_bytes

  unfoldable pub read_content : Store → Hash → Result Error (Bytes × Header)
  unfolding read
  read_content store h = do
    data_bytes ← read store h
    (header, offset) ← parse_header data_bytes
    if not (length data_bytes - offset == header.size)
        then err (size_mismatch header.size (length data_bytes - offset))
        else ok (drop offset data_bytes, header)

  unfoldable pub read_header : Store → Hash → Result Error Header
  unfolding read
  read_header store h = do
    data_bytes ← read store h
    (header, _) ← parse_header data_bytes
    ok header

  unfoldable pub write_blob : Outcome → Bytes → Store → Result Error Hash × Store
  unfolding write
  write_blob outcome content store = write outcome (format type_blob content) store

  unfoldable pub read_blob : Store → Hash → Result Error Bytes
  unfolding read_content
  read_blob store h = do
    (content, header) ← read_content store h
    if not (header.object_type == type_blob)
        then err (unexpected_type header.object_type type_blob)
        else ok content
