-- ===== src/Object/Pack/Table.antt =====
-- internal/object/pack.go: the table of the entries is read back.
use minus_sync.Prelude.{
  ℕ, suc, ◌%◌, List, [], ◌∷◌, ◌++◌, Bytes, All, length, append_assoc, ok, put_uint32,
  get_uint32-put, get_byte, get_bytes-append_of_length, ◌≡◌, refl, ap, ◌∙◌, arith,
}
use minus_sync.Hash.{hash_size}
use minus_sync.Object.Pack.{
  PackEntry, pack_entry_bytes, pack_entries_bytes, read_pack_entry, read_pack_entries,
}
use minus_sync.Object.Pack.Added.{Fits}

pack_entry_bytes-append :
    (e : PackEntry) (rest : Bytes)
    → pack_entry_bytes e ++ rest
      ≡ e.hash
        ++ ((e.object_type % 256)
            ∷ (put_uint32 e.offset
                ++ (put_uint32 e.compressed_len ++ (put_uint32 e.uncompressed_len ++ rest))))
unfolding pack_entry_bytes
pack_entry_bytes-append e rest = simp append_assoc

-- An entry is read back, whatever follows it.
read_pack_entry-bytes :
    (e : PackEntry) (rest : Bytes)
    → Fits e
    → read_pack_entry (pack_entry_bytes e ++ rest) ≡ ok (e, rest)
unfolding read_pack_entry get_byte
read_pack_entry-bytes e rest fits =
    let t : e.object_type % 256 ≡ e.object_type = omega (arith, fits.object_type) in
    rw
      (
        pack_entry_bytes-append,
        t,
        get_bytes-append_of_length hash_size e.hash _ fits.hash,
        get_uint32-put e.offset _ fits.offset,
        get_uint32-put e.compressed_len _ fits.compressed_len,
        get_uint32-put e.uncompressed_len rest fits.uncompressed_len,
      )
      refl

read_pack_entries-cons :
    (n : ℕ) (file : Bytes) {e : PackEntry} {rest body : Bytes} {entries : List PackEntry}
    → read_pack_entry file ≡ ok (e, rest)
    → read_pack_entries n rest ≡ ok (entries, body)
    → read_pack_entries (suc n) file ≡ ok (e ∷ entries, body)
unfolding read_pack_entries
read_pack_entries-cons n file h k = rw (h, k) refl

pub read_pack_entries-bytes :
    (entries : List PackEntry) (body : Bytes)
    → All Fits entries
    → read_pack_entries (length entries) (pack_entries_bytes entries ++ body) ≡ ok (entries, body)
unfolding pack_entries_bytes
read_pack_entries-bytes [] body fits = unfold read_pack_entries in refl
read_pack_entries-bytes (e ∷ entries) body (here, fits) =
    let rest = pack_entries_bytes entries ++ body in
    ap (read_pack_entries (suc (length entries)))
      (append_assoc (pack_entry_bytes e) (pack_entries_bytes entries) body)
    ∙ read_pack_entries-cons (length entries) (pack_entry_bytes e ++ rest)
        (read_pack_entry-bytes e rest here) (read_pack_entries-bytes entries body fits)
