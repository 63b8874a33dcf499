-- ===== src/Object/Pack.antt =====
-- internal/object/pack.go: pack files. The compression is a parameter, compress and decompress.
pub mod Verified
pub mod Added
pub mod Table
pub mod RoundTrip
use minus_sync.Prelude.{
  ℕ, zero, suc, ◌+◌, ◌%◌, ◌^◌, Bool, true, false, not, Option, none, some, List, [], ◌∷◌, ◌++◌,
  Bytes, length, drop, map, codes, bytes_equal, get_elem?, if◌then◌else◌, ◌==◌, Result, ok, err,
  panic, or_err, map_err, ◌>>=◌, put_uint32, get_uint32, get_byte, get_bytes, sort_by, sort_search,
  at_least,
}
use minus_sync.Hash.{Hash, hash_size, equal}
use minus_sync.Object.{ObjectType}
use minus_sync.Object.{Error as ObjectError}
use minus_sync.Object.Header.{Header, parse_header}
use minus_sync.Object.Store.{Store, Outcome, write}
use minus_sync.Index.Codec.{checksum_ieee}

pub record PackEntry : Type 0 where
  pub hash : Hash
  pub object_type : ObjectType
  pub offset : ℕ
  pub compressed_len : ℕ
  pub uncompressed_len : ℕ

abbrev pub pack_hash : PackEntry → Bytes
pack_hash e = e.hash

pub data Error : Type 0 where
  header_failed : ObjectError → Error
  compress_failed decompress_failed write_failed short_read invalid_magic not_in_pack : Error
  pack_corrupted : Error
  unsupported_version : ℕ → Error
  store_failed : ObjectError → Error

pub record PackWriter : Type 0 where
  pub entries : List PackEntry
  pub body_buf : Bytes
  pub offset : ℕ

unfoldable pub new_pack_writer : PackWriter
new_pack_writer = record { entries = []; body_buf = []; offset = 0 }

abbrev pub pack_magic : Bytes
pack_magic = codes "MPAK"

abbrev pub idx_magic : Bytes
idx_magic = codes "MPIX"

unfoldable pub pack_entry_bytes : PackEntry → Bytes
pack_entry_bytes e =
    e.hash
    ++ ((e.object_type % 256)
        ∷ (put_uint32 e.offset ++ (put_uint32 e.compressed_len ++ put_uint32 e.uncompressed_len)))

unfoldable pub pack_entries_bytes : List PackEntry → Bytes
unfolding pack_entry_bytes
pack_entries_bytes [] = []
pack_entries_bytes (e ∷ entries) = pack_entry_bytes e ++ pack_entries_bytes entries

unfoldable pub sort_by_hash : List PackEntry → List PackEntry
sort_by_hash entries = sort_by pack_hash entries

-- `Close`: the file, with the count that is filled in at the end. A call of the file system may
-- fail.
unfoldable pub close_pack : Bool → PackWriter → Result Error Bytes
unfolding pack_entries_bytes sort_by_hash
close_pack written w =
    let entries = sort_by_hash w.entries in
    let table = pack_entries_bytes entries in
    if not written
    then err write_failed
    else ok (
        pack_magic
        ++ (put_uint32 1
            ++ (put_uint32 (length entries % 2 ^ 32)
                ++ (table ++ (w.body_buf ++ put_uint32 (checksum_ieee table))))))

-- The file behind the table of entries is `body`.
pub record PackReader : Type 0 where
  pub entries : List PackEntry
  pub body : Bytes

unfoldable pub read_pack_entry : Bytes → Result Error (PackEntry × Bytes)
read_pack_entry file = do
  (h, file) ← or_err short_read (get_bytes hash_size file)
  (t, file) ← or_err short_read (get_byte file)
  (offset, file) ← or_err short_read (get_uint32 file)
  (compressed, file) ← or_err short_read (get_uint32 file)
  (uncompressed, file) ← or_err short_read (get_uint32 file)
  ok (
    record {
      hash = h;
      object_type = t;
      offset = offset;
      compressed_len = compressed;
      uncompressed_len = uncompressed;
    },
    file,
  )

unfoldable pub read_pack_entries : ℕ → Bytes → Result Error (List PackEntry × Bytes)
unfolding read_pack_entry
read_pack_entries zero file = ok ([], file)
read_pack_entries (suc n) file = do
  (e, rest) ← read_pack_entry file
  (entries, body) ← read_pack_entries n rest
  ok (e ∷ entries, body)

-- The checksum at the end of the file is not read.
unfoldable pub open_pack : Bytes → Result Error PackReader
unfolding read_pack_entries
open_pack file = do
  (magic, file) ← or_err short_read (get_bytes 4 file)
  if not (bytes_equal magic pack_magic) then err invalid_magic else do
    (version, file) ← or_err short_read (get_uint32 file)
    if not (version == 1) then err (unsupported_version version) else do
      (count, file) ← or_err short_read (get_uint32 file)
      (entries, body) ← read_pack_entries count file
      ok (record { entries = entries; body = body })

abbrev pub entry_of : Hash → Option PackEntry → Result Error PackEntry
entry_of h none = err not_in_pack
entry_of h (some e) = if equal e.hash h then ok e else err not_in_pack

unfoldable pub object_count : PackReader → ℕ
object_count r = length r.entries

unfoldable pub objects : PackReader → List Hash
objects r = map pack_hash r.entries

unfoldable pub index_entries_bytes : List PackEntry → Bytes
index_entries_bytes [] = []
index_entries_bytes (e ∷ entries) =
    e.hash ++ (put_uint32 e.offset ++ (e.object_type % 256) ∷ index_entries_bytes entries)

-- The file that `WritePackIndex` writes.
unfoldable pub write_pack_index : Hash → List PackEntry → Bytes
unfolding index_entries_bytes sort_by_hash
write_pack_index pack h_entries =
    idx_magic ++ (pack ++ index_entries_bytes (sort_by_hash h_entries))

-- The entry and the bytes that `AddObject` appends; the numbers are of 32 bits.
unfoldable pub append_object : Hash → Header → ℕ → Bytes → PackWriter → PackWriter
append_object h header content_len compressed w = record {
  entries =
      w.entries
      ++ record {
        hash = h;
        object_type = header.object_type;
        offset = w.offset;
        compressed_len = length compressed % 2 ^ 32;
        uncompressed_len = content_len % 2 ^ 32;
      }
        ∷ [];
  body_buf = w.body_buf ++ compressed;
  offset = (w.offset + length compressed % 2 ^ 32) % 2 ^ 32;
}

module _ (compute : Bytes → Hash) (compress decompress : Bytes → Option Bytes) where
  unfoldable pub add_object : Bytes → PackWriter → Result Error (Hash × PackWriter)
  add_object data_bytes w = do
    (header, content_offset) ← map_err header_failed (parse_header data_bytes)
    compressed ← or_err compress_failed (compress data_bytes)
    ok (
      compute data_bytes,
      append_object (compute data_bytes) header (length (drop content_offset data_bytes)) compressed
          w,
    )

  unfoldable pub read_object : PackReader → Hash → Result Error Bytes
  read_object r h = do
    e ←
        entry_of h
          (get_elem? r.entries (sort_search (length r.entries) (at_least pack_hash h r.entries)))
    (compressed, _) ← or_err short_read (get_bytes e.compressed_len (drop e.offset r.body))
    data_bytes ← or_err decompress_failed (decompress compressed)
    if not (equal (compute data_bytes) h) then err pack_corrupted else ok data_bytes

  -- What `Write` returned, and the rest of the loop on the store as it is then. The objects that
  -- are written before an error stay in the store.
  abbrev pub then_unpack :
      (Store → Result Error (List Hash) × Store)
      → Result ObjectError Hash × Store
      → Result Error (List Hash) × Store
  then_unpack loop (ok h, store) = ((loop store).0 >>= λ hashes. ok (h ∷ hashes), (loop store).1)
  then_unpack loop (err e, store) = (err (store_failed e), store)
  then_unpack loop (panic, store) = (panic, store)

  abbrev pub write_object :
      (Store → Result Error (List Hash) × Store)
      → Outcome
      → Store
      → Result Error Bytes
      → Result Error (List Hash) × Store
  write_object loop outcome store (ok data_bytes) =
      then_unpack loop (write compute outcome data_bytes store)
  write_object loop outcome store (err e) = (err e, store)
  write_object loop outcome store panic = (panic, store)

  unfoldable pub unpack_loop :
      (Hash → Outcome) → PackReader → List PackEntry → Store → Result Error (List Hash) × Store
  unpack_loop outcome r [] store = (ok [], store)
  unpack_loop outcome r (e ∷ entries) store =
      write_object (unpack_loop outcome r entries) (outcome e.hash) store (read_object r e.hash)

  abbrev pub unpack_opened :
      (Hash → Outcome) → Result Error PackReader → Store → Result Error (List Hash) × Store
  unpack_opened outcome (ok r) store = unpack_loop outcome r r.entries store
  unpack_opened outcome (err e) store = (err e, store)
  unpack_opened outcome panic store = (panic, store)

  unfoldable pub unpack_objects :
      (Hash → Outcome) → Bytes → Store → Result Error (List Hash) × Store
  unpack_objects outcome file store = unpack_opened outcome (open_pack file) store
