-- ===== src/Object/Store/Blobs.antt =====
-- Blobs through the store: the content that was written is read.
use minus_sync.Prelude.{◌-◌, ◌^◌, ◌<◌, Bytes, length, ok, ==_iff, ◌≡◌, ◌≢◌, refl, arith}
use minus_sync.Hash.{Hash, IsHash}
use minus_sync.Object.{ObjectType, type_blob}
use minus_sync.Object.Header.{format, parse_header-format}
use minus_sync.Object.Store.{
  Store, Leftover, Outcome, rename_exists, write, read, read_content, write_blob, read_blob,
}
use minus_sync.Object.Store.Written.{IsValid}
use minus_sync.Object.Store.Laws.{read-write}

-- An object that is read and that was formatted gives its content and its header.
read_content-format :
    (compute : Bytes → Hash) (store : Store) (h : Hash) (t : ObjectType) (content : Bytes)
    → t < 4
    → length content < 2 ^ 64
    → read compute store h ≡ ok (format t content)
    → read_content compute store h ≡ ok (content, record { object_type = t; size = length content })
unfolding read_content
read_content-format compute store h t content four fits found =
    let (offset, parsed, behind, whole) = parse_header-format t content four fits in
    let left : length (format t content) - offset ≡ length content = omega arith in
    rw (found, parsed, left, (==_iff (length content) (length content)).1 refl, behind) refl

-- When `WriteBlob` returns a hash, `ReadBlob` of it returns the content: if the store was valid,
-- no other data has the hash, no other process put the file there meanwhile, and the length of
-- the content fits 64 bits.
pub read_blob-write_blob :
    (compute : Bytes → Hash) (outcome : Outcome) (content : Bytes) (store : Store) (h : Hash)
    → ((x : Bytes) → IsHash (compute x))
    → ((x : Bytes) → compute x ≡ compute (format type_blob content) → x ≡ format type_blob content)
    → IsValid compute store
    → ((left : Leftover) → outcome ≢ rename_exists left)
    → length content < 2 ^ 64
    → (write_blob compute outcome content store).0 ≡ ok h
    → read_blob compute (write_blob compute outcome content store).1 h ≡ ok content
unfolding write_blob read_blob
read_blob-write_blob compute outcome content store h hashes free valid alone fits returned =
    let found =
      (read-write compute outcome (format type_blob content) store h hashes free valid alone
        returned).1 in
    rw
      (read_content-format compute (write compute outcome (format type_blob content) store).1 h
        type_blob content (omega arith) fits found)
      refl
