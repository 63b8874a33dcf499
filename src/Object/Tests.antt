-- ===== src/Object/Tests.antt =====
-- The object store on small inputs, with a hash that keeps one byte of the data.
use minus_sync.Prelude.{
  ℕ, none, [], ◌∷◌, ◌++◌, Bytes, length, replicate, codes, ok, err, drop, ◌+◌, sort_by, ◌≡◌, ◌≢◌,
  refl, arith, Returns, get_or, bytes_equal, bytes_equal_iff, Bool-cases, inl, inr, if◌then◌else◌,
  ap, ◌∙◌,
}
use minus_sync.Hash.{Hash, IsHash, zero_hash}
use minus_sync.Object.{type_blob, type_tree, type_string, missing_tree_null, malformed_header}
use minus_sync.Object.Header.{format, parse_header, parse_header-format}
use minus_sync.Object.Store.{Store, done, mkdir_fails, write, read, read_raw, write_blob, read_blob}
use minus_sync.Object.Store.Written.{IsValid}
use minus_sync.Object.Store.Laws.{
  write-IsValid, read-valid, read-write, read-write_other, write-write,
}
use minus_sync.Object.Store.Blobs.{read_blob-write_blob}
use minus_sync.Object.Tree.{TreeEntry, mode_dir, mode_regular, serialize_tree, parse_tree}
use minus_sync.Object.Tree.RoundTrip.{IsEntry, parse_tree-serialize_tree, parse_tree-Returns}
use minus_sync.Prelude.{format_uint}
use minus_sync.Prelude.{scan_uint}
use minus_sync.Prelude.{scan_word}
use minus_sync.Prelude.{split_at_byte}
use minus_sync.Prelude.{bytes_less}

parse_header-format_test :
    (offset : ℕ) × (parse_header (format type_tree (1 ∷ 2 ∷ []))
      ≡ ok (record { object_type = type_tree; size = 2 }, offset))
    × (drop offset (format type_tree (1 ∷ 2 ∷ [])) ≡ 1 ∷ 2 ∷ [])
    × (offset + 2 ≡ length (format type_tree (1 ∷ 2 ∷ [])))
parse_header-format_test = parse_header-format type_tree (1 ∷ 2 ∷ []) (omega arith) (omega arith)

blob_text : format type_blob (codes "hi") ≡ codes "blob 2" ++ (0 ∷ codes "hi")
unfolding format type_string format_uint
blob_text = refl

header_error : parse_header (codes "blob" ++ (0 ∷ [])) ≡ err malformed_header
unfolding parse_header split_at_byte scan_word scan_uint
header_error = refl

abbrev hi_blob : Bytes
hi_blob = codes "blob 2" ++ (0 ∷ codes "hi")

abbrev ones : Hash
ones = replicate 32 1

-- A hash that tells one object from all others.
marks : Bytes → Hash
marks data_bytes = if bytes_equal data_bytes hi_blob then ones else zero_hash

marks-IsHash : (x : Bytes) → IsHash (marks x)
unfolding marks
marks-IsHash x = elim (Bool-cases (bytes_equal x hi_blob)) [
  | inl same ↦ rw same (omega arith)
  | inr other ↦ rw other (omega arith)
]

marks-hi_blob : marks hi_blob ≡ ones
unfolding marks bytes_equal
marks-hi_blob = refl

zero_ne_one : zero_hash ≢ ones
zero_ne_one e = omega (arith, ap (λ h. get_or h 0 0) e)

fives_differ : replicate 32 5 ≢ marks hi_blob
fives_differ e = omega (arith, ap (λ h. get_or h 0 0) (e ∙ marks-hi_blob))

marks_unique : (x : Bytes) → marks x ≡ marks hi_blob → x ≡ hi_blob
unfolding marks
marks_unique x e = elim (Bool-cases (bytes_equal x hi_blob)) [
  | inl same ↦ (bytes_equal_iff x hi_blob).0 same
  | inr other ↦ absurd (zero_ne_one (rw (other, (bytes_equal_iff hi_blob hi_blob).1 refl) at e))
]

abbrev empty_store : Store
empty_store path = none

empty_store-IsValid : IsValid marks empty_store
empty_store-IsValid = record { at = λ path d e. absurd (cc) }

written : (write marks done hi_blob empty_store).0 ≡ ok ones
unfolding write marks bytes_equal
written = refl

write-IsValid_example : IsValid marks (write marks done hi_blob empty_store).1
write-IsValid_example = write-IsValid marks done hi_blob empty_store empty_store-IsValid

read-write_example :
    (ones ≡ marks hi_blob) × (read marks (write marks done hi_blob empty_store).1 ones ≡ ok hi_blob)
read-write_example =
    read-write marks done hi_blob empty_store ones marks-IsHash marks_unique empty_store-IsValid
      (λ e. cc) written

read-valid_test :
    read marks (write marks done hi_blob empty_store).1 ones
    ≡ read_raw (write marks done hi_blob empty_store).1 ones
read-valid_test =
    read-valid marks (write marks done hi_blob empty_store).1 ones marks-IsHash (omega arith)
      write-IsValid_example

read-write_other_test :
    read marks (write marks done hi_blob empty_store).1 (replicate 32 5)
    ≡ read marks empty_store (replicate 32 5)
read-write_other_test =
    read-write_other marks done hi_blob empty_store (replicate 32 5) (marks-IsHash hi_blob)
      (omega arith) fives_differ

write-write_test :
    write marks mkdir_fails hi_blob (write marks done hi_blob empty_store).1
    ≡ (ok ones, (write marks done hi_blob empty_store).1)
write-write_test = write-write marks done mkdir_fails hi_blob empty_store ones (λ e. cc) written

written_blob : (write_blob marks done (codes "hi") empty_store).0 ≡ ok ones
unfolding write_blob write marks bytes_equal format type_string format_uint
written_blob = refl

read_blob-write_blob_example :
    read_blob marks (write_blob marks done (codes "hi") empty_store).1 ones ≡ ok (codes "hi")
unfolding format type_string format_uint
read_blob-write_blob_example =
    read_blob-write_blob marks done (codes "hi") empty_store ones marks-IsHash marks_unique
      empty_store-IsValid (λ e. cc) (omega arith) written_blob

abbrev file_entry : TreeEntry
file_entry = record { mode = mode_regular; name = codes "a b"; hash = ones; entry_type = type_blob }

abbrev dir_entry : TreeEntry
dir_entry = record { mode = mode_dir; name = codes "Z"; hash = ones; entry_type = type_tree }

file_entry-IsEntry : IsEntry file_entry
file_entry-IsEntry = record {
  mode = omega arith;
  name = omega arith;
  hash = refl;
  entry_type = refl;
}

dir_entry-IsEntry : IsEntry dir_entry
dir_entry-IsEntry = record {
  mode = omega arith;
  name = omega arith;
  hash = refl;
  entry_type = refl;
}

parse_tree-serialize_tree_example :
    parse_tree (serialize_tree (file_entry ∷ dir_entry ∷ [])) ≡ ok (dir_entry ∷ file_entry ∷ [])
unfolding sort_by bytes_less
parse_tree-serialize_tree_example =
    parse_tree-serialize_tree (file_entry ∷ dir_entry ∷ [])
      (file_entry-IsEntry, (dir_entry-IsEntry, tt))

parse_tree_error : parse_tree (codes "100644 a") ≡ err missing_tree_null
unfolding parse_tree split_at_byte
parse_tree_error = refl

parse_tree-Returns_test : Returns (parse_tree (codes "100644 a"))
parse_tree-Returns_test = parse_tree-Returns (codes "100644 a")
