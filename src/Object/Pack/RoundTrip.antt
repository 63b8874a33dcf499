-- ===== src/Object/Pack/RoundTrip.antt =====
-- internal/object/pack.go: a pack that was written is opened, and gives back each object.
use minus_sync.Prelude.{
  ◌%◌, ◌^◌, ◌<◌, Bool, true, false, Option, none, some, List, [], ◌∷◌, ◌++◌, Bytes, All, length,
  bytes_equal, bytes_equal_iff, get_elem?, ok, put_uint32, get_uint32-put, get_bytes-append,
  sort_by, length-sort_by, ok_injective, sort_by-Distinct, sort_by-All, sort_by-Mem, Distinct,
  IsSorted, rank, sort_search, sort_search-rank, matching, matching-rank, lookup_key-Mem, at_least,
  ◌≡◌, refl, sym, ap, ◌∙◌, arith, inl, inr, Bool-cases,
}
use mathlib.Core.List.{Memᴰ}
use minus_sync.Hash.{Hash, equal}
use minus_sync.Index.Codec.{checksum_ieee}
use minus_sync.Object.Pack.{
  PackEntry, pack_hash, PackWriter, PackReader, pack_magic, pack_entries_bytes, sort_by_hash,
  close_pack, open_pack, entry_of, read_object,
}
use minus_sync.Object.Pack.Added.{Fits, IsEntry, HasEntry, Added, Packs-Added, IsEntry-append}
use minus_sync.Object.Pack.Table.{read_pack_entries-bytes}

open_pack-file :
    (entries : List PackEntry) (rest : Bytes)
    → length entries < 2 ^ 32
    → All Fits entries
    → open_pack (
        pack_magic
        ++ (put_uint32 1
            ++ (put_uint32 (length entries % 2 ^ 32) ++ (pack_entries_bytes entries ++ rest))))
      ≡ ok (record { entries = entries; body = rest })
unfolding open_pack
open_pack-file entries rest few fits =
    let count : length entries % 2 ^ 32 ≡ length entries = omega (arith, few) in
    rw
      (
        get_bytes-append pack_magic,
        (bytes_equal_iff pack_magic pack_magic).1 refl,
        count,
        get_uint32-put 1 _ (omega arith),
        get_uint32-put (length entries) _ few,
        read_pack_entries-bytes entries rest fits,
      )
      refl

some_injective : {x e : PackEntry} → ◌≡◌ {A = Option PackEntry} (some x) (some e) → x ≡ e
some_injective e = cc

none-ne-some : {e : PackEntry} → ◌≡◌ {A = Option PackEntry} none (some e) → ⊥
none-ne-some e = cc

entry_of-matching :
    (h : Hash) (o : Option PackEntry) (e : PackEntry)
    → matching pack_hash h o ≡ some e
    → entry_of h o ≡ ok e
unfolding equal
entry_of-matching h none e found = absurd (cc)
entry_of-matching h (some x) e found = elim (Bool-cases (bytes_equal x.hash h)) [
  | inl same ↦ rw same (ap ok (some_injective (rw same at found)))
  | inr other ↦ absurd (none-ne-some (rw other at found))
]

-- The binary search finds the entry with the hash.
entry_of-Mem :
    (e : PackEntry) (entries : List PackEntry)
    → IsSorted pack_hash entries
    → Memᴰ e entries
    → entry_of e.hash
        (get_elem? entries (sort_search (length entries) (at_least pack_hash e.hash entries)))
      ≡ ok e
entry_of-Mem e entries s m =
    let place = sort_search-rank pack_hash e.hash entries s in
    let found = matching-rank pack_hash e.hash entries s ∙ lookup_key-Mem pack_hash e entries s m in
    ap (λ i. entry_of e.hash (get_elem? entries i)) place
    ∙ entry_of-matching e.hash (get_elem? entries (rank pack_hash e.hash entries)) e found

module _ (compute : Bytes → Hash) (compress decompress : Bytes → Option Bytes) where
  -- What was compressed is decompressed.
  pub record Restores : Type 0 where
    pub at : (d compressed : Bytes) → compress d ≡ some compressed → decompress compressed ≡ some d

  read_object-IsEntry :
      (entries : List PackEntry) (body d : Bytes) (e : PackEntry)
      → Restores
      → IsSorted pack_hash entries
      → Memᴰ e entries
      → IsEntry compute compress decompress body d e
      → read_object compute compress decompress
          (record { entries = entries; body = body })
          (compute d)
        ≡ ok d
  unfolding read_object equal
  read_object-IsEntry entries body d e restores s m h =
      let found =
        ap
          (λ k.
            entry_of k
              (get_elem? entries (sort_search (length entries) (at_least pack_hash k entries))))
          (sym h.named)
        ∙ entry_of-Mem e entries s m in
      rw
        (
          found,
          h.stands,
          h.size,
          get_bytes-append h.compressed,
          restores.at d h.compressed h.packed,
          (bytes_equal_iff (compute d) (compute d)).1 refl,
        )
        refl

  read_objects :
      (w : PackWriter) (ds : List Bytes) (more : Bytes)
      → Restores
      → IsSorted pack_hash (sort_by_hash w.entries)
      → All (HasEntry compute compress decompress w) ds
      → All
          (λ d.
            read_object compute compress decompress
              (record { entries = sort_by_hash w.entries; body = w.body_buf ++ more })
              (compute d)
            ≡ ok d)
          ds
  unfolding sort_by_hash
  read_objects w [] more restores s a = tt
  read_objects w (d ∷ ds) more restores s ((e, m, entry), a) = (
    read_object-IsEntry (sort_by pack_hash w.entries) (w.body_buf ++ more) d e restores s
        (sort_by-Mem pack_hash w.entries m)
        (IsEntry-append compute compress decompress w.body_buf more d e entry),
    read_objects w ds more restores s a,
  )

  -- Every object that was added to a writer is read back, byte for byte, from the file that the
  -- writer leaves when it is closed: the file opens, and reading the hash of such an object gives
  -- that object. The hashes have 32 bytes, what was compressed is decompressed, the entries
  -- have different hashes, and the entries and the bytes of the body are fewer than 2 ^ 32.
  pub read_object-close_pack :
      ((d : Bytes) → length (compute d) ≡ 32)
      → Restores
      → (ds : List Bytes) (w : PackWriter) → Added compute compress decompress ds w
      → length w.body_buf < 2 ^ 32
      → length w.entries < 2 ^ 32
      → Distinct pack_hash w.entries
      → (written : Bool) (file : Bytes) → close_pack written w ≡ ok file
      → (r : PackReader) × (open_pack file ≡ ok r)
        × All (λ d. read_object compute compress decompress r (compute d) ≡ ok d) ds
  unfolding close_pack sort_by_hash
  read_object-close_pack hashes restores ds w a short few distinct false file e = absurd (cc)
  read_object-close_pack hashes restores ds w a short few distinct true file e =
      let entries = sort_by pack_hash w.entries in
      let more = put_uint32 (checksum_ieee (pack_entries_bytes entries)) in
      let packs = Packs-Added compute compress decompress hashes ds w a short in
      let opened =
        open_pack-file entries (w.body_buf ++ more)
          (omega (arith, length-sort_by pack_hash w.entries, few))
          (sort_by-All pack_hash Fits w.entries packs.fits) in
      (
        record { entries = entries; body = w.body_buf ++ more },
        ap open_pack (sym (ok_injective e)) ∙ opened,
        read_objects w ds more restores (sort_by-Distinct pack_hash w.entries distinct) packs.found,
      )
