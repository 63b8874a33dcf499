-- ===== src/Object/Pack/Verified.antt =====
-- internal/object/pack.go: what is read from a pack has the hash that was asked for.
use minus_sync.Prelude.{
  Bool, true, false, not, Option, List, [], ◌∷◌, Bytes, length, drop, map, bytes_equal_iff, Result,
  ok, err, panic, or_err, ok_injective, Handed-of_ok, get_bytes, bytes_equal, Ensures, Ensures-bind,
  Ensures-ok, Ensures-err, Ensures-if, get_elem?, sort_search, at_least, ◌≡◌, refl, sym, ◌∙◌, ap₂,
}
use minus_sync.Hash.{Hash, equal}
use minus_sync.Object.Store.{Store, Outcome, write}
use minus_sync.Object.{Error as ObjectError}
use minus_sync.Object.Store.Written.{
  IsValid, Written, present, stored, raced, refused, Written-write,
}
use minus_sync.Object.Store.Laws.{write-IsValid}
use minus_sync.Object.Pack.{
  PackEntry, pack_hash, Error, short_read, decompress_failed, PackReader, open_pack, entry_of,
  read_object, then_unpack, write_object, unpack_loop, unpack_opened, unpack_objects, objects,
}

not-false : (b : Bool) → not b ≡ false → b ≡ true
not-false true e = refl
not-false false e = sym e

Ensures-any : {E A : Type 0} (r : Result E A) → Ensures (λ (a : A). Unit {0}) r
Ensures-any r = record { at = λ a e. tt }

-- What `unpack_loop` returns without an error are the hashes of the entries, and the store is valid.
abbrev Unpacked : (Bytes → Hash) → List PackEntry → Result Error (List Hash) × Store → Type 0
Unpacked compute entries (result, store) =
    IsValid compute store
    × ((hashes : List Hash) → result ≡ ok hashes → hashes ≡ map pack_hash entries)

module _ (compute : Bytes → Hash) (compress decompress : Bytes → Option Bytes) where
  -- `ReadObject` returns no bytes but those of the hash.
  read_object-compute :
      (r : PackReader) (h : Hash)
      → Ensures (λ d. compute d ≡ h) (read_object compute compress decompress r h)
  unfolding read_object equal
  read_object-compute r h =
      Ensures-bind (λ (e : PackEntry). Unit {0})
        (entry_of h
          (get_elem? r.entries (sort_search (length r.entries) (at_least pack_hash h r.entries))))
        _ (Ensures-any _)
        (λ e u.
          Ensures-bind (λ (c : Bytes × Bytes). Unit {0})
            (or_err short_read (get_bytes e.compressed_len (drop e.offset r.body))) _
            (Ensures-any _)
            (λ c u.
              Ensures-bind (λ (d : Bytes). Unit {0}) (or_err decompress_failed (decompress c.0)) _
                (Ensures-any _)
                (λ d u.
                  Ensures-if (not (bytes_equal (compute d) h)) _ _ (λ differs. Ensures-err _)
                    (λ same. Ensures-ok _ ((bytes_equal_iff (compute d) h).0 (not-false _ same))))))

  Written-compute :
      {d : Bytes} {store : Store} {outcome : Outcome} {after : Result ObjectError Hash × Store}
      → Written compute d store outcome after
      → (h : Hash) → after.0 ≡ ok h
      → h ≡ compute d
  Written-compute (present there) h e = sym (ok_injective e)
  Written-compute (stored absent) h e = sym (ok_injective e)
  Written-compute (raced left) h e = sym (ok_injective e)
  Written-compute (refused left) h e = absurd (cc)

  then_unpack-Unpacked :
      (loop : Store → Result Error (List Hash) × Store) (e : PackEntry) (entries : List PackEntry)
      (written : Result ObjectError Hash × Store)
      → ((store : Store) → IsValid compute store → Unpacked compute entries (loop store))
      → IsValid compute written.1
      → ((h : Hash) → written.0 ≡ ok h → h ≡ e.hash)
      → Unpacked compute (e ∷ entries) (then_unpack compute compress decompress loop written)
  then_unpack-Unpacked loop e entries (ok h, store) next valid named =
      let rest = next store valid in
      (
        rest.0,
        (λ hashes returned.
            let handed = Handed-of_ok (λ hashes. ok (h ∷ hashes)) (loop store).0 returned in
            sym (ok_injective handed.behind)
            ∙ ap₂ ◌∷◌ (named h refl) (rest.1 handed.value handed.before)),
      )
  then_unpack-Unpacked loop e entries (err why, store) next valid named =
      (valid, (λ hashes returned. absurd (cc)))
  then_unpack-Unpacked loop e entries (panic, store) next valid named =
      (valid, (λ hashes returned. absurd (cc)))

  write_object-Unpacked :
      (loop : Store → Result Error (List Hash) × Store) (e : PackEntry) (entries : List PackEntry)
      (outcome : Outcome) (store : Store) (r : Result Error Bytes)
      → ((store : Store) → IsValid compute store → Unpacked compute entries (loop store))
      → IsValid compute store
      → Ensures (λ d. compute d ≡ e.hash) r
      → Unpacked compute
          (e ∷ entries)
          (write_object compute compress decompress loop outcome store r)
  write_object-Unpacked loop e entries outcome store (ok d) next valid verified =
      then_unpack-Unpacked loop e entries (write compute outcome d store) next
        (write-IsValid compute outcome d store valid)
        (λ h returned.
          Written-compute (Written-write compute d store outcome) h returned ∙ verified.at d refl)
  write_object-Unpacked loop e entries outcome store (err why) next valid verified =
      (valid, (λ hashes returned. absurd (cc)))
  write_object-Unpacked loop e entries outcome store panic next valid verified =
      (valid, (λ hashes returned. absurd (cc)))

  unpack_loop-Unpacked :
      (outcome : Hash → Outcome) (r : PackReader) (entries : List PackEntry) (store : Store)
      → IsValid compute store
      → Unpacked compute entries (unpack_loop compute compress decompress outcome r entries store)
  unfolding unpack_loop
  unpack_loop-Unpacked outcome r [] store valid =
      (valid, (λ hashes returned. sym (ok_injective returned)))
  unpack_loop-Unpacked outcome r (e ∷ entries) store valid =
      write_object-Unpacked (unpack_loop compute compress decompress outcome r entries) e entries
        (outcome e.hash) store (read_object compute compress decompress r e.hash)
        (unpack_loop-Unpacked outcome r entries) valid (read_object-compute r e.hash)

  unpack_opened-IsValid :
      (outcome : Hash → Outcome) (opened : Result Error PackReader) (store : Store)
      → IsValid compute store
      → IsValid compute (unpack_opened compute compress decompress outcome opened store).1
        × ((hashes : List Hash)
            → (unpack_opened compute compress decompress outcome opened store).0 ≡ ok hashes
            → (r : PackReader) × (opened ≡ ok r) × (hashes ≡ objects r))
  unfolding objects
  unpack_opened-IsValid outcome (ok r) store valid =
      let unpacked = unpack_loop-Unpacked outcome r r.entries store valid in
      (unpacked.0, (λ hashes returned. (r, refl, unpacked.1 hashes returned)))
  unpack_opened-IsValid outcome (err why) store valid = (valid, (λ hashes returned. absurd (cc)))
  unpack_opened-IsValid outcome panic store valid = (valid, (λ hashes returned. absurd (cc)))

  -- Unpacking a file, whatever its bytes and whatever the compression and the file system do, leaves
  -- every file of a valid store at the path of the hash of its contents, but for temporary files that
  -- could not be removed; when it ends without an error, it returns the hashes that the table of the
  -- pack lists, in their order.
  pub unpack_objects-IsValid :
      (outcome : Hash → Outcome) (file : Bytes) (store : Store)
      → IsValid compute store
      → IsValid compute (unpack_objects compute compress decompress outcome file store).1
        × ((hashes : List Hash)
            → (unpack_objects compute compress decompress outcome file store).0 ≡ ok hashes
            → (r : PackReader) × (open_pack file ≡ ok r) × (hashes ≡ objects r))
  unfolding unpack_objects
  unpack_objects-IsValid outcome file store valid =
      unpack_opened-IsValid outcome (open_pack file) store valid
