-- ===== src/Index/Tests.antt =====
-- The functions of internal/index on small inputs.
use minus_sync.Prelude.{
  true, false, none, some, [], ◌∷◌, ◌++◌, Bytes, replicate, codes, bytes_equal, IsSorted, ok,
  length, ◌≡◌, refl, arith,
}
use minus_sync.Hash.{Hash, zero_hash, is_zero}
use minus_sync.Index.{Index, IndexEntry, entry_path, find, add, remove, get_all_paths, is_tracked}
use minus_sync.Index.Refines.{changes-IsSorted, find-add, find-remove}
use minus_sync.Index.Codec.{header_bytes, entries_bytes, checksum_ieee, save, load, contents}
use minus_sync.Index.Codec.RoundTrip.{Fits, load-save, load-any_checksum}
use minus_sync.Index.Changes.{FileInfo, dirty, compute_fingerprint_from_file, compute_fingerprint}
use minus_sync.Index.Clean.{IsClean, compute_fingerprint_from_file-contents, dirty-IsClean}
use minus_sync.Hash.{equal}
use minus_sync.Index.{add_at}
use minus_sync.Index.{position}
use minus_sync.Index.{remove_at}
use minus_sync.Prelude.{bytes_less}
use minus_sync.Prelude.{sort_search}

abbrev entry_at : Bytes → IndexEntry
entry_at path = record {
  path = path;
  hash = replicate 32 1;
  fingerprint = replicate 32 2;
  size = 5;
  mtime_ns = 900;
  mode = 420;
  flags = 0;
}

abbrev two_files : Index
two_files = record {
  path = codes "index";
  entries = entry_at (codes "a") ∷ entry_at (codes "c") ∷ [];
}

two_files-IsSorted : IsSorted entry_path two_files.entries
unfolding bytes_less
two_files-IsSorted = ((refl, tt), (tt, tt))

added_paths :
    get_all_paths (add two_files (entry_at (codes "b"))) ≡ codes "a" ∷ codes "b" ∷ codes "c" ∷ []
unfolding get_all_paths add add_at find position sort_search bytes_less bytes_equal
added_paths = refl

removed_paths : get_all_paths (remove two_files (codes "a")) ≡ codes "c" ∷ []
unfolding get_all_paths remove remove_at find position sort_search bytes_less bytes_equal
removed_paths = refl

tracked : (is_tracked two_files (codes "c") ≡ true) × (is_tracked two_files (codes "d") ≡ false)
unfolding is_tracked find position sort_search bytes_less bytes_equal
tracked = (refl, refl)

changes-IsSorted_example :
    IsSorted entry_path (add two_files (entry_at (codes "b"))).entries
    × IsSorted entry_path (remove two_files (codes "a")).entries
changes-IsSorted_example =
    changes-IsSorted two_files (entry_at (codes "b")) (codes "a") two_files-IsSorted

find-add_example :
    find (add two_files (entry_at (codes "b"))) (codes "b") ≡ some (entry_at (codes "b"))
unfolding bytes_equal
find-add_example = find-add two_files (entry_at (codes "b")) (codes "b") two_files-IsSorted

find-remove_example : find (remove two_files (codes "a")) (codes "a") ≡ none
unfolding bytes_equal
find-remove_example = find-remove two_files (codes "a") (codes "a") two_files-IsSorted

-- The check value of CRC-32.
checksum_of_digits : checksum_ieee (codes "123456789") ≡ 3421780262
unfolding checksum_ieee
checksum_of_digits = refl

entry_at-Fits : (path : Bytes) → length path ≡ 1 → Fits (entry_at path)
entry_at-Fits path h = record {
  path = omega arith;
  hash = refl;
  fingerprint = refl;
  size = omega arith;
  mtime_ns = omega arith;
  mode = omega arith;
  flags = omega arith;
}

load-save_example : load two_files.path (contents (save two_files).1) ≡ ok two_files
load-save_example =
    load-save two_files two_files-IsSorted
      (entry_at-Fits (codes "a") refl, (entry_at-Fits (codes "c") refl, tt)) (omega arith)

load-any_checksum_example :
    load two_files.path
      (contents (header_bytes 2 ++ (entries_bytes two_files.entries ++ (1 ∷ 2 ∷ []))))
    ≡ ok two_files
load-any_checksum_example =
    load-any_checksum two_files.path two_files.entries (1 ∷ 2 ∷ []) two_files-IsSorted
      (entry_at-Fits (codes "a") refl, (entry_at-Fits (codes "c") refl, tt)) (omega arith)

-- A hash that only keeps the first byte.
abbrev first_byte : Bytes → Hash
first_byte [] = zero_hash
first_byte (b ∷ data_bytes) = replicate 32 b

compute_fingerprint_from_file-contents_test :
    compute_fingerprint_from_file first_byte (some (2 ∷ 3 ∷ []))
    ≡ ok (compute_fingerprint first_byte (2 ∷ 3 ∷ []))
compute_fingerprint_from_file-contents_test =
    compute_fingerprint_from_file-contents first_byte (2 ∷ 3 ∷ [])

abbrev touched : FileInfo
touched = record { size = 5; mtime_ns = 901; mode = 493 }

touched_clean : dirty first_byte two_files (codes "a") (some (2 ∷ 3 ∷ [])) touched ≡ false
unfolding dirty find position sort_search bytes_less bytes_equal is_zero equal
touched_clean = refl

dirty-IsClean_example :
    (entry : IndexEntry) × (find two_files (codes "a") ≡ some entry)
    × IsClean first_byte entry (some (2 ∷ 3 ∷ [])) touched
dirty-IsClean_example =
    dirty-IsClean first_byte two_files (codes "a") (some (2 ∷ 3 ∷ [])) touched touched_clean
