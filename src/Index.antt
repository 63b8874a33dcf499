-- ===== src/Index.antt =====
-- internal/index/index.go: the staging area. Sizes and times are `int64` bit patterns, numbers
-- below 2^64.
pub mod Sorted
pub mod Refines
pub mod Codec
pub mod Changes
pub mod Clean
mod Tests
use Prim.Native.Nat.{bit_and, bit_xor}
use minus_sync.Prelude.{
  ℕ, zero, suc, ◌+◌, ◌*◌, ◌/◌, ◌%◌, ◌^◌, Bool, true, false, not, ◌&&◌, ◌||◌, Option, none, some,
  List, [], ◌∷◌, ◌++◌, map, Bytes, length, get_elem?, set, take, drop, replicate, leb, ltb, ◌==◌,
  if◌then◌else◌, Result, ok, err, or_err, ◌>>=◌, put_uint16, put_uint32, put_uint64, get_uint16,
  get_uint32, get_uint64, get_bytes, bytes_equal, bytes_less, codes, sort_search, at_least,
  matching, sort_by,
}
use minus_sync.Hash.{Hash, hash_size, zero_hash, is_zero, equal}

abbrev pub index_magic : Bytes
index_magic = codes "MSYN"

abbrev pub index_version : ℕ
index_version = 2

pub record IndexEntry : Type 0 where
  pub path : Bytes
  pub hash : Hash
  pub fingerprint : Hash
  pub size : ℕ
  pub mtime_ns : ℕ
  pub mode : ℕ
  pub flags : ℕ

abbrev pub entry_path : IndexEntry → Bytes
entry_path e = e.path

pub record Index : Type 0 where
  pub path : Bytes
  pub entries : List IndexEntry

unfoldable pub new : Bytes → Index
new path = record { path = path; entries = [] }

-- `sort.Search` for the first entry whose path is not smaller.
unfoldable pub position : List IndexEntry → Bytes → ℕ
position entries path = sort_search (length entries) (at_least entry_path path entries)

unfoldable pub find : Index → Bytes → Option IndexEntry
find idx path = matching entry_path path (get_elem? idx.entries (position idx.entries path))

abbrev pub is_some {ℓ} : {A : Type ℓ} → Option A → Bool
is_some none = false
is_some (some a) = true

unfoldable pub add_at : ℕ → Bool → IndexEntry → List IndexEntry → List IndexEntry
add_at i exists entry entries =
    if exists then set entries i entry else take i entries ++ entry ∷ drop i entries

unfoldable pub add : Index → IndexEntry → Index
add idx entry = record idx {
  entries =
      add_at (position idx.entries entry.path) (is_some (find idx entry.path)) entry idx.entries;
}

unfoldable pub remove_at : ℕ → Bool → List IndexEntry → List IndexEntry
remove_at i exists entries = if exists then take i entries ++ drop (suc i) entries else entries

unfoldable pub remove : Index → Bytes → Index
remove idx path = record idx {
  entries = remove_at (position idx.entries path) (is_some (find idx path)) idx.entries;
}

unfoldable pub clear : Index → Index
clear idx = record idx { entries = [] }

unfoldable pub len : Index → ℕ
len idx = length idx.entries

unfoldable pub is_tracked : Index → Bytes → Bool
is_tracked idx path = is_some (find idx path)

unfoldable pub get_all_paths : Index → List Bytes
get_all_paths idx = map entry_path idx.entries

-- `sort.Slice` by path.
unfoldable pub sort_by_path : List IndexEntry → List IndexEntry
sort_by_path entries = sort_by entry_path entries
