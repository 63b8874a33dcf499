-- ===== src/Index/Changes.antt =====
-- internal/index/index.go: `Dirty`, `fingerprintChanged` and `ComputeHash`, and
-- internal/util/fingerprint.go. SHA-256 is the parameter `compute`; what the file system
-- returns is an argument.
use minus_sync.Prelude.{
  ℕ, ◌+◌, ◌-◌, ◌*◌, ◌/◌, Bool, true, not, Option, none, some, ◌++◌, Bytes, length, take, drop, leb,
  ◌==◌, if◌then◌else◌, Result, ok, err, panic, or_err, ◌>>=◌, get_bytes,
}
use minus_sync.Hash.{Hash, is_zero, equal}
use minus_sync.Index.{Index, IndexEntry, find}

abbrev pub fingerprint_sample_size : ℕ
fingerprint_sample_size = 4096

-- The data of the three samples, or all of a small file.
unfoldable pub fingerprint_data : Bytes → Bytes
fingerprint_data data_bytes =
    let mid = length data_bytes / 2 in
    if leb (length data_bytes) (fingerprint_sample_size * 3)
    then data_bytes
    else (take fingerprint_sample_size data_bytes
        ++ (take (mid + fingerprint_sample_size / 2 - (mid - fingerprint_sample_size / 2))
              (drop (mid - fingerprint_sample_size / 2) data_bytes)
            ++ drop (length data_bytes - fingerprint_sample_size) data_bytes))

module _ (compute : Bytes → Hash) where
  unfoldable pub compute_fingerprint : Bytes → Hash
  unfolding fingerprint_data
  compute_fingerprint data_bytes = compute (fingerprint_data data_bytes)

pub data FileError : Type 0 where
  stat_error : FileError
  unexpected_eof : FileError

-- `f.Seek` to an offset, then `io.ReadFull` of one sample.
unfoldable pub read_sample : Bytes → ℕ → Result FileError Bytes
read_sample file offset = do
  (sample, rest) ← or_err unexpected_eof (get_bytes fingerprint_sample_size (drop offset file))
  ok sample

-- A file that is there is its contents; `none` stands for a failed `os.Stat` or open.
unfoldable pub fingerprint_data_from_file : Option Bytes → Result FileError Bytes
unfolding read_sample
fingerprint_data_from_file none = err stat_error
fingerprint_data_from_file (some file) =
    let size = length file in
    let sampled = do
      head ← read_sample file 0
      middle ← read_sample file (size / 2 - fingerprint_sample_size / 2)
      tail ← read_sample file (size - fingerprint_sample_size)
      ok (head ++ (middle ++ tail))
    in if leb size (fingerprint_sample_size * 3) then ok file else sampled

module _ (compute : Bytes → Hash) where
  unfoldable pub compute_fingerprint_from_file : Option Bytes → Result FileError Hash
  unfolding fingerprint_data_from_file
  compute_fingerprint_from_file file = do
    data_bytes ← fingerprint_data_from_file file
    ok (compute data_bytes)

  unfoldable pub fingerprint_changed : IndexEntry → Option Bytes → Bool
  unfolding compute_fingerprint_from_file
  fingerprint_changed entry file =
      if is_zero entry.fingerprint then true else (elim (compute_fingerprint_from_file file) [
        | ok fp ↦ not (equal fp entry.fingerprint)
        | err why ↦ true
        | panic ↦ true
      ])

-- What `os.FileInfo` says of a file.
pub record FileInfo : Type 0 where
  pub size : ℕ
  pub mtime_ns : ℕ
  pub mode : ℕ

module _ (compute : Bytes → Hash) where
  -- `Dirty` on an entry that was found.
  unfoldable pub entry_dirty : IndexEntry → Option Bytes → FileInfo → Bool
  unfolding fingerprint_changed
  entry_dirty entry file info =
      if not (entry.size == info.size)
      then fingerprint_changed compute entry file
      else if not (entry.mtime_ns == info.mtime_ns)
      then fingerprint_changed compute entry file
      else not (entry.mode == info.mode)

  abbrev pub found_dirty : Option IndexEntry → Option Bytes → FileInfo → Bool
  found_dirty none file info = true
  found_dirty (some entry) file info = entry_dirty entry file info

  unfoldable pub dirty : Index → Bytes → Option Bytes → FileInfo → Bool
  unfolding entry_dirty
  dirty idx rel_path file info = found_dirty (find idx rel_path) file info
