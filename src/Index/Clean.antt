-- ===== src/Index/Clean.antt =====
-- What `Dirty` reports as unchanged, and that both ways to a fingerprint agree.
use minus_sync.Prelude.{
  ℕ, ◌+◌, ◌-◌, ◌/◌, ◌<◌, ◌≤◌, Bool, true, false, not, Option, none, some, Bytes, length, take, drop,
  leb, ◌==◌, Result, ok, err, panic, get_bytes_long, bytes_equal, bytes_equal_iff, ◌≡◌, refl, arith,
  Bool-cases, inl, inr, length-drop, ap, take-all, ==_iff,
}
use mathlib.Core.Bool.{true≢false}
use minus_sync.Hash.{Hash, is_zero, equal}
use minus_sync.Index.{Index, IndexEntry, find}
use minus_sync.Index.Changes.{
  fingerprint_data, compute_fingerprint, FileError, read_sample, fingerprint_data_from_file,
  compute_fingerprint_from_file, fingerprint_changed, FileInfo, entry_dirty, found_dirty, dirty,
}

-- A sample that lies inside the file is read.
read_sample_inside :
    (file : Bytes) (offset : ℕ)
    → offset + 4096 ≤ length file
    → read_sample file offset ≡ ok (take 4096 (drop offset file))
unfolding read_sample
read_sample_inside file offset inside =
    rw (get_bytes_long 4096 (drop offset file) (omega (arith, length-drop offset file))) refl

-- Behind the last `n` elements there is nothing.
take_last : (n : ℕ) (xs : Bytes) → take n (drop (length xs - n) xs) ≡ drop (length xs - n) xs
take_last n xs =
    take-all n (drop (length xs - n) xs) (omega (arith, length-drop (length xs - n) xs))

fingerprint_data-from_file :
    (file : Bytes) → fingerprint_data_from_file (some file) ≡ ok (fingerprint_data file)
unfolding fingerprint_data fingerprint_data_from_file
fingerprint_data-from_file file = elim (Bool-cases (leb (length file) 12288)) [
  | inl small ↦ rw small refl
  | inr large ↦
      let long : 12288 < length file = ground arith in
      let width : length file / 2 + 2048 - (length file / 2 - 2048) ≡ 4096 = omega arith in
      rw
        (
          large,
          width,
          read_sample_inside file 0 (omega arith),
          read_sample_inside file (length file / 2 - 2048) (omega arith),
          read_sample_inside file (length file - 4096) (omega arith),
          take_last 4096 file,
        )
        refl
]

-- For a file that can be read, `ComputeFingerprintFromFile`, which seeks to three samples,
-- returns what `ComputeFingerprint` computes of the whole contents.
pub compute_fingerprint_from_file-contents :
    (compute : Bytes → Hash) (file : Bytes)
    → compute_fingerprint_from_file compute (some file) ≡ ok (compute_fingerprint compute file)
unfolding compute_fingerprint_from_file compute_fingerprint
compute_fingerprint_from_file-contents compute file = rw (fingerprint_data-from_file file) refl

-- Why an entry may be taken as clean: the stat is the recorded one, or the fingerprint is.
pub data IsClean (compute : Bytes → Hash) (entry : IndexEntry) (file : Option Bytes)
    (info : FileInfo) : Type 0 where
  same_stat :
      entry.size ≡ info.size
      → entry.mtime_ns ≡ info.mtime_ns
      → entry.mode ≡ info.mode
      → IsClean compute entry file info
  same_fingerprint :
      is_zero entry.fingerprint ≡ false
      → compute_fingerprint_from_file compute file ≡ ok entry.fingerprint
      → IsClean compute entry file info

matched :
    (recorded : Hash) (found : Result FileError Hash)
    → ◌≡◌ {A = Bool}
        (elim found as (λ x. Bool) [
          | ok fp ↦ not (equal fp recorded)
          | err why ↦ true
          | panic ↦ true
        ])
        false
    → found ≡ ok recorded
unfolding equal
matched recorded (ok fp) h = elim (Bool-cases (bytes_equal fp recorded)) [
  | inl same ↦ ap ok ((bytes_equal_iff fp recorded).0 same)
  | inr other ↦ absurd (true≢false (rw other at h))
]
matched recorded (err why) h = absurd (true≢false h)
matched recorded panic h = absurd (true≢false h)

fingerprint_changed-false :
    (compute : Bytes → Hash) (entry : IndexEntry) (file : Option Bytes)
    → fingerprint_changed compute entry file ≡ false
    → (is_zero entry.fingerprint ≡ false)
      × (compute_fingerprint_from_file compute file ≡ ok entry.fingerprint)
unfolding fingerprint_changed
fingerprint_changed-false compute entry file h = elim (Bool-cases (is_zero entry.fingerprint)) [
  | inl zeros ↦ absurd (true≢false (rw zeros at h))
  | inr recorded ↦ (
    recorded,
    matched entry.fingerprint (compute_fingerprint_from_file compute file) (rw recorded at h),
  )
]

entry_dirty-IsClean :
    (compute : Bytes → Hash) (entry : IndexEntry) (file : Option Bytes) (info : FileInfo)
    → entry_dirty compute entry file info ≡ false
    → IsClean compute entry file info
unfolding entry_dirty
entry_dirty-IsClean compute entry file info h =
    let by_fingerprint : fingerprint_changed compute entry file ≡ false
        → IsClean compute entry file info =
      λ e.
        let (recorded, same) = fingerprint_changed-false compute entry file e in
        same_fingerprint recorded same in
    elim (Bool-cases (entry.size == info.size)) [
      | inr other ↦ by_fingerprint (rw other at h)
      | inl size ↦ elim (Bool-cases (entry.mtime_ns == info.mtime_ns)) [
        | inr other ↦ by_fingerprint (rw (size, other) at h)
        | inl mtime ↦
            same_stat ((==_iff entry.size info.size).0 size)
              ((==_iff entry.mtime_ns info.mtime_ns).0 mtime)
              (ground (arith, rw (size, mtime) at h))
      ]
    ]

found_dirty-IsClean :
    (compute : Bytes → Hash) (found : Option IndexEntry) (file : Option Bytes) (info : FileInfo)
    → found_dirty compute found file info ≡ false
    → (entry : IndexEntry) × (found ≡ some entry) × IsClean compute entry file info
found_dirty-IsClean compute none file info h = absurd (true≢false h)
found_dirty-IsClean compute (some entry) file info h =
    (entry, refl, entry_dirty-IsClean compute entry file info h)

-- `Dirty` reports a file as unchanged only if it is in the index, and its size, modification
-- time and mode are the recorded ones or its fingerprint is the recorded one, which is not zero.
pub dirty-IsClean :
    (compute : Bytes → Hash) (idx : Index) (path : Bytes) (file : Option Bytes) (info : FileInfo)
    → dirty compute idx path file info ≡ false
    → (entry : IndexEntry) × (find idx path ≡ some entry) × IsClean compute entry file info
unfolding dirty
dirty-IsClean compute idx path file info h = found_dirty-IsClean compute (find idx path) file info h
