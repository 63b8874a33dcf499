-- ===== src/Object/Store/Laws.antt =====
-- The store returns what was written, and nothing else changes.
use minus_sync.Prelude.{
  Option, none, some, Bytes, Result, ok, bytes_equal, bytes_equal_iff, ok_injective, err-ne-ok,
  Option-cases, Bool-cases, inl, inr, ◌≡◌, ◌≢◌, refl, sym, ap, ◌∙◌, subst,
}
use minus_sync.Hash.{Hash, IsHash, equal}
use minus_sync.Object.{Error}
use minus_sync.Object.Store.{
  object_path, Store, temp_path, rename_to, Leftover, leave, Outcome, rename_exists, read_raw,
  write, read,
}
use minus_sync.Object.Store.Written.{
  object_path_injective, object_path-ne-temp_path, IsValid, IsValid-object_path, Written, present,
  stored, raced, refused, Written-write,
}

rename_to-same : (p d : Bytes) (store : Store) → rename_to p d store p ≡ some d
unfolding rename_to
rename_to-same p d store = rw ((bytes_equal_iff p p).1 refl) refl

rename_to-other : (p q d : Bytes) (store : Store) → p ≢ q → rename_to p d store q ≡ store q
unfolding rename_to
rename_to-other p q d store ne = elim (Bool-cases (bytes_equal p q)) [
  | inl same ↦ absurd (ne ((bytes_equal_iff p q).0 same))
  | inr other ↦ rw other refl
]

some_injective : {a b : Bytes} → ◌≡◌ {A = Option Bytes} (some a) (some b) → a ≡ b
some_injective e = cc

IsValid-rename_to :
    (compute : Bytes → Hash) (d : Bytes) (store : Store)
    → IsValid compute store
    → IsValid compute (rename_to (object_path (compute d)) d store)
unfolding rename_to
IsValid-rename_to compute d store valid = record {
  at = λ path found e. elim (Bool-cases (bytes_equal (object_path (compute d)) path)) [
    | inl same ↦ inl (
        sym ((bytes_equal_iff (object_path (compute d)) path).0 same)
        ∙ ap (λ x. object_path (compute x)) (some_injective (rw same at e)))
    | inr other ↦ valid.at path found (rw other at e)
  ];
}

-- A temporary file that is left does no harm.
IsValid-leave :
    (compute : Bytes → Hash) (left : Leftover) (h : Hash) (store : Store)
    → IsValid compute store
    → IsValid compute (leave left h store)
unfolding leave rename_to
IsValid-leave compute none h store valid = valid
IsValid-leave compute (some (suffix, written)) h store valid = record {
  at = λ path found e. elim (Bool-cases (bytes_equal (temp_path h suffix) path)) [
    | inl same ↦ inr (h, suffix, sym ((bytes_equal_iff (temp_path h suffix) path).0 same))
    | inr other ↦ valid.at path found (rw other at e)
  ];
}

leave-other :
    (left : Leftover) (h k : Hash) (store : Store)
    → leave left h store (object_path k) ≡ store (object_path k)
unfolding leave
leave-other none h k store = refl
leave-other (some (suffix, written)) h k store =
    rename_to-other (temp_path h suffix) (object_path k) written store
      (λ e. object_path-ne-temp_path k h suffix (sym e))

Written-IsValid :
    {compute : Bytes → Hash} {d : Bytes} {store : Store} {outcome : Outcome}
    {after : Result Error Hash × Store}
    → IsValid compute store
    → Written compute d store outcome after
    → IsValid compute after.1
Written-IsValid valid (present there) = valid
Written-IsValid {compute} {d} {store} valid (stored absent) =
    IsValid-rename_to compute d store valid
Written-IsValid {compute} {d} {store} valid (raced left) =
    IsValid-leave compute left (compute d) store valid
Written-IsValid {compute} {d} {store} valid (refused left) =
    IsValid-leave compute left (compute d) store valid

-- `Write` keeps every file of a valid store at the path of the hash of its contents, but for temporary
-- files, whichever call of the file system fails, and whether or not the temporary file can be
-- removed then.
pub write-IsValid :
    (compute : Bytes → Hash) (outcome : Outcome) (data_bytes : Bytes) (store : Store)
    → IsValid compute store
    → IsValid compute (write compute outcome data_bytes store).1
write-IsValid compute outcome data_bytes store valid =
    Written-IsValid valid (Written-write compute data_bytes store outcome)

read-present :
    (compute : Bytes → Hash) (d : Bytes) (store : Store)
    → store (object_path (compute d)) ≡ some d
    → read compute store (compute d) ≡ ok d
unfolding read read_raw equal
read-present compute d store there =
    rw (there, (bytes_equal_iff (compute d) (compute d)).1 refl) refl

-- In a valid store no object reads as corrupted: `Read` returns what `ReadRaw` does.
pub read-valid :
    (compute : Bytes → Hash) (store : Store) (h : Hash)
    → ((d : Bytes) → IsHash (compute d))
    → IsHash h
    → IsValid compute store
    → read compute store h ≡ read_raw store h
unfolding read read_raw equal
read-valid compute store h hashes hh valid = elim (Option-cases (store (object_path h))) [
  | inl absent ↦ rw absent refl
  | inr (d, there) ↦
      let same =
        object_path_injective h (compute d) hh (hashes d)
          (IsValid-object_path compute store h d valid there) in
      rw (there, (bytes_equal_iff (compute d) h).1 (sym same)) refl
]

Written-read :
    {compute : Bytes → Hash} {d : Bytes} {store : Store} {outcome : Outcome}
    {after : Result Error Hash × Store} {h : Hash}
    → ((x : Bytes) → IsHash (compute x))
    → ((x : Bytes) → compute x ≡ compute d → x ≡ d)
    → IsValid compute store
    → ((left : Leftover) → outcome ≢ rename_exists left)
    → Written compute d store outcome after
    → after.0 ≡ ok h
    → (h ≡ compute d) × (read compute after.1 h ≡ ok d)
Written-read {compute} {d} {store} hashes free valid alone (present {old = old} there) returned =
    let same = free old (
      sym (
        object_path_injective (compute d) (compute old) (hashes d) (hashes old)
          (IsValid-object_path compute store (compute d) old valid there))) in
    let e = ok_injective returned in
    (
      sym e,
      subst (λ k. read compute store k ≡ ok d) e
          (read-present compute d store (there ∙ ap some same)),
    )
Written-read {compute} {d} {store} hashes free valid alone (stored absent) returned =
    let e = ok_injective returned in
    (
      sym e,
      subst (λ k. read compute (rename_to (object_path (compute d)) d store) k ≡ ok d) e
          (read-present compute d _ (rename_to-same (object_path (compute d)) d store)),
    )
Written-read hashes free valid alone (raced left) returned = absurd (alone left refl)
Written-read hashes free valid alone (refused left) returned = absurd (err-ne-ok returned)

-- When `Write` returns a hash, it is that of the data, and `Read` returns the data: if the store
-- was valid, no other data has this hash, and no other process put the file there meanwhile.
pub read-write :
    (compute : Bytes → Hash) (outcome : Outcome) (data_bytes : Bytes) (store : Store) (h : Hash)
    → ((x : Bytes) → IsHash (compute x))
    → ((x : Bytes) → compute x ≡ compute data_bytes → x ≡ data_bytes)
    → IsValid compute store
    → ((left : Leftover) → outcome ≢ rename_exists left)
    → (write compute outcome data_bytes store).0 ≡ ok h
    → (h ≡ compute data_bytes)
      × (read compute (write compute outcome data_bytes store).1 h ≡ ok data_bytes)
read-write compute outcome data_bytes store h hashes free valid alone returned =
    Written-read hashes free valid alone (Written-write compute data_bytes store outcome) returned

read-same :
    (compute : Bytes → Hash) (store store' : Store) (k : Hash)
    → store (object_path k) ≡ store' (object_path k)
    → read compute store k ≡ read compute store' k
unfolding read read_raw
read-same compute store store' k e = rw e refl

Written-other :
    {compute : Bytes → Hash} {d : Bytes} {store : Store} {outcome : Outcome}
    {after : Result Error Hash × Store} (k : Hash)
    → IsHash (compute d)
    → IsHash k
    → k ≢ compute d
    → Written compute d store outcome after
    → read compute after.1 k ≡ read compute store k
Written-other k hd hk ne (present there) = refl
Written-other {compute} {d} {store} k hd hk ne (stored absent) =
    read-same compute (rename_to (object_path (compute d)) d store) store k (
      rename_to-other (object_path (compute d)) (object_path k) d store
        (λ e. ne (sym (object_path_injective (compute d) k hd hk e))))
Written-other {compute} {d} {store} k hd hk ne (raced left) =
    read-same compute (leave left (compute d) store) store k (leave-other left (compute d) k store)
Written-other {compute} {d} {store} k hd hk ne (refused left) =
    read-same compute (leave left (compute d) store) store k (leave-other left (compute d) k store)

-- `Write` changes what `Read` returns at no other hash.
pub read-write_other :
    (compute : Bytes → Hash) (outcome : Outcome) (data_bytes : Bytes) (store : Store) (k : Hash)
    → IsHash (compute data_bytes)
    → IsHash k
    → k ≢ compute data_bytes
    → read compute (write compute outcome data_bytes store).1 k ≡ read compute store k
read-write_other compute outcome data_bytes store k hd hk ne =
    Written-other k hd hk ne (Written-write compute data_bytes store outcome)

write-there :
    (compute : Bytes → Hash) (outcome : Outcome) (d old : Bytes) (store : Store)
    → store (object_path (compute d)) ≡ some old
    → write compute outcome d store ≡ (ok (compute d), store)
unfolding write
write-there compute outcome d old store there = rw there refl

Written-write_again :
    {compute : Bytes → Hash} {d : Bytes} {store : Store} {first : Outcome}
    {after : Result Error Hash × Store} {h : Hash} (second : Outcome)
    → ((left : Leftover) → first ≢ rename_exists left)
    → Written compute d store first after
    → after.0 ≡ ok h
    → write compute second d after.1 ≡ (ok h, after.1)
Written-write_again {compute} {d} {store} second alone (present {old = old} there) returned =
    write-there compute second d old store there ∙ ap (λ r. (r, store)) returned
Written-write_again {compute} {d} {store} second alone (stored absent) returned =
    write-there compute second d d _ (rename_to-same (object_path (compute d)) d store)
    ∙ ap (λ r. (r, rename_to (object_path (compute d)) d store)) returned
Written-write_again second alone (raced left) returned = absurd (alone left refl)
Written-write_again second alone (refused left) returned = absurd (err-ne-ok returned)

-- Data that was written is not written again: a second `Write` returns the same hash and changes
-- nothing, even where the file system would refuse it.
pub write-write :
    (compute : Bytes → Hash) (first second : Outcome) (data_bytes : Bytes) (store : Store)
    (h : Hash)
    → ((left : Leftover) → first ≢ rename_exists left)
    → (write compute first data_bytes store).0 ≡ ok h
    → write compute second data_bytes (write compute first data_bytes store).1
      ≡ (ok h, (write compute first data_bytes store).1)
write-write compute first second data_bytes store h alone returned =
    Written-write_again second alone (Written-write compute data_bytes store first) returned
