-- ===== src/Index/Codec/RoundTrip.antt =====
-- `Load` on what `Save` writes.
use minus_sync.Prelude.{
  ℕ, suc, ◌%◌, ◌^◌, ◌<◌, true, false, List, [], ◌∷◌, ◌++◌, Bytes, length, take, drop, ltb, ok,
  put_uint16, put_uint32, put_uint64, get_uint16, get_uint32, bytes_equal_iff, get_uint16-put,
  get_uint32-put, get_uint64-put, get_bytes-append, get_bytes-append_of_length, append_assoc,
  IsSorted, sort_by-IsSorted, All, ◌≡◌, refl, ap, ◌∙◌, arith,
}
use minus_sync.Hash.{hash_size}
use minus_sync.Index.{Index, IndexEntry, entry_path, index_magic, sort_by_path}
use minus_sync.Index.Codec.{
  entry_bytes, entries_bytes, header_bytes, save, read_entry, read_entries, contents, parse_index,
  load, number_or_zero, checksum_ieee,
}

-- The fields fit the widths that the format and the Go types give them.
pub record Fits (e : IndexEntry) : Type 0 where
  pub path : length e.path < 2 ^ 16
  pub hash : length e.hash ≡ hash_size
  pub fingerprint : length e.fingerprint ≡ hash_size
  pub size : e.size < 2 ^ 64
  pub mtime_ns : e.mtime_ns < 2 ^ 64
  pub mode : e.mode < 2 ^ 32
  pub flags : e.flags < 2 ^ 16

entry_bytes-append :
    (e : IndexEntry) (rest : Bytes)
    → entry_bytes e ++ rest
      ≡ put_uint16 (length e.path % 2 ^ 16)
        ++ (e.path
            ++ (e.hash
                ++ (e.fingerprint
                    ++ (put_uint64 e.size
                        ++ (put_uint64 e.mtime_ns
                            ++ (put_uint32 e.mode ++ (put_uint16 e.flags ++ rest)))))))
unfolding entry_bytes
entry_bytes-append e rest = simp append_assoc

-- An entry is read back, whatever follows it.
read_entry-entry_bytes :
    (e : IndexEntry) (rest : Bytes)
    → Fits e
    → read_entry true (entry_bytes e ++ rest) ≡ ok (e, rest)
unfolding read_entry
read_entry-entry_bytes e rest fits =
    let wrap : length e.path % 2 ^ 16 ≡ length e.path = omega (arith, fits.path) in
    rw
      (
        entry_bytes-append,
        wrap,
        get_uint16-put (length e.path) _ fits.path,
        get_bytes-append e.path,
        get_bytes-append_of_length hash_size e.hash _ fits.hash,
        get_bytes-append_of_length hash_size e.fingerprint _ fits.fingerprint,
        get_uint64-put e.size _ fits.size,
        get_uint64-put e.mtime_ns _ fits.mtime_ns,
        get_uint32-put e.mode _ fits.mode,
        get_uint16-put e.flags rest fits.flags,
      )
      refl

entries_bytes-append :
    (e : IndexEntry) (entries : List IndexEntry) (rest : Bytes)
    → entries_bytes (e ∷ entries) ++ rest ≡ entry_bytes e ++ (entries_bytes entries ++ rest)
unfolding entries_bytes
entries_bytes-append e entries rest = append_assoc (entry_bytes e) (entries_bytes entries) rest

read_entries-ok :
    (n : ℕ) (data_bytes : Bytes) {e : IndexEntry} {rest : Bytes}
    → read_entry true data_bytes ≡ ok (e, rest)
    → read_entries true (suc n) data_bytes ≡ e ∷ read_entries true n rest
unfolding read_entries
read_entries-ok n data_bytes h = rw (read_entries, h) refl

read_entries-entries_bytes :
    (entries : List IndexEntry) (rest : Bytes)
    → All Fits entries
    → read_entries true (length entries) (entries_bytes entries ++ rest) ≡ entries
unfolding read_entries
read_entries-entries_bytes [] rest fits = refl
read_entries-entries_bytes (e ∷ entries) rest (fits, later) =
    ap (read_entries true (suc (length entries))) (entries_bytes-append e entries rest)
    ∙ (read_entries-ok (length entries) (entry_bytes e ++ (entries_bytes entries ++ rest))
          (read_entry-entry_bytes e (entries_bytes entries ++ rest) fits)
        ∙ ap (λ es. e ∷ es) (read_entries-entries_bytes entries rest later))

sort_by_path-IsSorted :
    (entries : List IndexEntry) → IsSorted entry_path entries → sort_by_path entries ≡ entries
unfolding sort_by_path
sort_by_path-IsSorted entries s = sort_by-IsSorted entry_path entries s

header_bytes-version :
    (n : ℕ) (rest : Bytes) → number_or_zero (get_uint16 (drop 4 (header_bytes n ++ rest))) ≡ 2
unfolding header_bytes put_uint16 get_uint16
header_bytes-version n rest = refl

header_bytes-count :
    (n : ℕ) (rest : Bytes)
    → n < 2 ^ 32
    → number_or_zero (get_uint32 (drop 6 (header_bytes n ++ rest))) ≡ n
unfolding header_bytes put_uint16 put_uint32 get_uint32
header_bytes-count n rest h = omega arith

header_bytes-frame :
    (n : ℕ) (rest : Bytes)
    → (ltb (length (header_bytes n ++ rest)) 10 ≡ false)
      × (take 4 (header_bytes n ++ rest) ≡ index_magic)
      × (drop 10 (header_bytes n ++ rest) ≡ rest)
unfolding header_bytes put_uint16 put_uint32
header_bytes-frame n rest = (ground arith, refl, refl)

-- The reader takes the entries behind a good header, whatever stands behind them.
parse_index-entries :
    (entries : List IndexEntry) (trailer : Bytes)
    → IsSorted entry_path entries
    → All Fits entries
    → length entries < 2 ^ 32
    → parse_index (header_bytes (length entries) ++ (entries_bytes entries ++ trailer)) ≡ entries
unfolding parse_index
parse_index-entries entries trailer s fits count =
    let rest = entries_bytes entries ++ trailer in
    let (long, magic, behind) = header_bytes-frame (length entries) rest in
    rw
      (
        long,
        magic,
        (bytes_equal_iff index_magic index_magic).1 refl,
        behind,
        header_bytes-version (length entries) rest,
        header_bytes-count (length entries) rest count,
        read_entries-entries_bytes entries trailer fits,
      )
      (sort_by_path-IsSorted entries s)

-- `Load` of what `Save` wrote returns the index, if its entries are sorted by path, their fields
-- fit their widths and there are less than 2^32.
pub load-save :
    (idx : Index)
    → IsSorted entry_path idx.entries
    → All Fits idx.entries
    → length idx.entries < 2 ^ 32
    → load idx.path (contents (save idx).1) ≡ ok idx
unfolding load save
load-save idx s fits count =
    rw
      (
        sort_by_path-IsSorted idx.entries s,
        parse_index-entries idx.entries (put_uint32 (checksum_ieee (entries_bytes idx.entries))) s
            fits count,
      )
      refl

-- `Load` never reads the checksum that `Save` appends: with any bytes behind the entries it returns
-- the same index, for fewer than 2 ^ 32 entries in the order of their paths with fields that fit
-- their widths.
pub load-any_checksum :
    (path : Bytes) (entries : List IndexEntry) (trailer : Bytes)
    → IsSorted entry_path entries
    → All Fits entries
    → length entries < 2 ^ 32
    → load path (contents (header_bytes (length entries) ++ (entries_bytes entries ++ trailer)))
      ≡ ok (record { path = path; entries = entries })
unfolding load
load-any_checksum path entries trailer s fits count =
    ap (λ es. ok (record { path = path; entries = es }))
      (parse_index-entries entries trailer s fits count)
