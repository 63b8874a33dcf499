-- ===== src/Index/Codec.antt =====
-- internal/index/index.go: `Save` and `Load`, with `hash/crc32`.
pub mod RoundTrip
use Prim.Native.Nat.{bit_xor}
use minus_sync.Prelude.{
  ℕ, zero, suc, ◌+◌, ◌/◌, ◌%◌, ◌^◌, Bool, true, false, not, ◌&&◌, ◌||◌, Option, none, some, List,
  [], ◌∷◌, ◌++◌, Bytes, length, take, drop, leb, ltb, ◌==◌, if◌then◌else◌, Result, ok, err, panic,
  or_err, ◌>>=◌, put_uint16, put_uint32, put_uint64, get_uint16, get_uint32, get_uint64, get_bytes,
  bytes_equal,
}
use minus_sync.Hash.{Hash, hash_size, zero_hash}
use minus_sync.Index.{Index, IndexEntry, index_magic, index_version, new, sort_by_path}

-- `crc32.ChecksumIEEE`, bit by bit.
unfoldable pub crc_step : ℕ → ℕ → ℕ
crc_step zero crc = crc
crc_step (suc bits) crc =
    let shifted = crc / 2 in
    crc_step bits (if crc % 2 == 1 then bit_xor shifted 3988292384 else shifted)

unfoldable pub crc_update : ℕ → Bytes → ℕ
unfolding crc_step
crc_update crc [] = crc
crc_update crc (b ∷ data_bytes) = crc_update (crc_step 8 (bit_xor crc b)) data_bytes

unfoldable pub checksum_ieee : Bytes → ℕ
unfolding crc_update
checksum_ieee data_bytes = bit_xor (crc_update 4294967295 data_bytes) 4294967295

unfoldable pub entry_bytes : IndexEntry → Bytes
entry_bytes e =
    put_uint16 (length e.path % 2 ^ 16)
    ++ (e.path
        ++ (e.hash
            ++ (e.fingerprint
                ++ (put_uint64 e.size
                    ++ (put_uint64 e.mtime_ns ++ (put_uint32 e.mode ++ put_uint16 e.flags))))))

unfoldable pub entries_bytes : List IndexEntry → Bytes
entries_bytes [] = []
entries_bytes (e ∷ entries) = entry_bytes e ++ entries_bytes entries

unfoldable pub header_bytes : ℕ → Bytes
header_bytes count = index_magic ++ (put_uint16 index_version ++ put_uint32 (count % 2 ^ 32))

-- `Save` sorts the entries of the index in place and writes these bytes to its path.
unfoldable pub save : Index → Index × Bytes
unfolding checksum_ieee
save idx =
    let entries = sort_by_path idx.entries in
    let body = entries_bytes entries in
    (
      record idx { entries = entries },
      header_bytes (length entries) ++ (body ++ put_uint32 (checksum_ieee body)),
    )

-- The data ends inside an entry.
pub data Truncated : Type 0 where
  truncated : Truncated

unfoldable pub read_entry : Bool → Bytes → Result Truncated (IndexEntry × Bytes)
read_entry has_fingerprint data_bytes = do
  (path_len, data_bytes) ← or_err truncated (get_uint16 data_bytes)
  (path, data_bytes) ← or_err truncated (get_bytes path_len data_bytes)
  (hash, data_bytes) ← or_err truncated (get_bytes hash_size data_bytes)
  (fingerprint, data_bytes) ←
      if has_fingerprint
      then or_err truncated (get_bytes hash_size data_bytes)
      else ok (zero_hash, data_bytes)
  (size, data_bytes) ← or_err truncated (get_uint64 data_bytes)
  (mtime_ns, data_bytes) ← or_err truncated (get_uint64 data_bytes)
  (mode, data_bytes) ← or_err truncated (get_uint32 data_bytes)
  (flags, data_bytes) ← or_err truncated (get_uint16 data_bytes)
  ok (
    record {
      path = path;
      hash = hash;
      fingerprint = fingerprint;
      size = size;
      mtime_ns = mtime_ns;
      mode = mode;
      flags = flags;
    },
    data_bytes,
  )

-- The loop of `Load`: at an entry that is cut off it breaks, and what it has read stays.
unfoldable pub read_entries : Bool → ℕ → Bytes → List IndexEntry
read_entries has_fingerprint zero data_bytes = []
read_entries has_fingerprint (suc count) data_bytes = elim (read_entry has_fingerprint data_bytes) [
  | ok (e, rest) ↦ e ∷ read_entries has_fingerprint count rest
  | err why ↦ []
  | panic ↦ []
]

-- What `os.ReadFile` returns.
pub data FileRead : Type 0 where
  contents : Bytes → FileRead
  not_exist : FileRead
  read_error : FileRead

pub data LoadError : Type 0 where
  unreadable : LoadError

-- A number that the test of the length makes sure of.
abbrev pub number_or_zero : Option (ℕ × Bytes) → ℕ
number_or_zero none = 0
number_or_zero (some (n, rest)) = n

-- The entries behind the magic, the version and the count.
unfoldable pub parse_index : Bytes → List IndexEntry
parse_index data_bytes =
    let version = number_or_zero (get_uint16 (drop 4 data_bytes)) in
    let count = number_or_zero (get_uint32 (drop 6 data_bytes)) in
    if ltb (length data_bytes) 10
    then []
    else if not (bytes_equal (take 4 data_bytes) index_magic)
    then []
    else if not (version == 1) && not (version == 2)
    then []
    else sort_by_path (read_entries (leb 2 version) count (drop 10 data_bytes))

unfoldable pub load : Bytes → FileRead → Result LoadError Index
load path not_exist = ok (new path)
load path read_error = err unreadable
load path (contents data_bytes) = ok (record { path = path; entries = parse_index data_bytes })
