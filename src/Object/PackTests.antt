-- ===== src/Object/PackTests.antt =====
-- Packs on small inputs, with a compression that keeps the bytes and a hash that counts them.
use minus_sync.Prelude.{
  true, none, some, Option, List, [], ◌∷◌, ◌++◌, Bytes, All, length, replicate, codes, ok, err,
  bytes_equal, bytes_less, split_at_byte, scan_word, scan_uint, put_uint32, get_bytes, sort_by,
  Distinct, ◌≡◌, refl, ap, arith,
}
use minus_sync.Hash.{Hash}
use minus_sync.Index.Codec.{checksum_ieee}
use minus_sync.Object.{type_blob, type_name_to_type}
use minus_sync.Object.Header.{parse_header}
use minus_sync.Object.Store.{done}
use minus_sync.Object.Store.Written.{IsValid}
use minus_sync.Object.Pack.{
  PackWriter, PackReader, pack_hash, new_pack_writer, append_object, add_object, close_pack,
  open_pack, read_object, unpack_objects, objects, invalid_magic,
}
use minus_sync.Object.Pack.Verified.{unpack_objects-IsValid}
use minus_sync.Object.Pack.Added.{Added, started, added}
use minus_sync.Object.Pack.RoundTrip.{Restores, read_object-close_pack}

counts : Bytes → Hash
counts data_bytes = length data_bytes ∷ replicate 31 7

keeps : Bytes → Option Bytes
keeps data_bytes = some data_bytes

abbrev two_blob : Bytes
two_blob = codes "blob 2" ++ (0 ∷ codes "hi")

abbrev three_blob : Bytes
three_blob = codes "blob 3" ++ (0 ∷ codes "sun")

abbrev one_added : PackWriter
one_added =
    append_object (counts three_blob) (record { object_type = type_blob; size = 3 }) 3 three_blob
      new_pack_writer

abbrev two_added : PackWriter
two_added =
    append_object (counts two_blob) (record { object_type = type_blob; size = 2 }) 2 two_blob
      one_added

add_three :
    add_object counts keeps keeps three_blob new_pack_writer ≡ ok (counts three_blob, one_added)
unfolding add_object parse_header split_at_byte scan_word scan_uint keeps type_name_to_type
    bytes_equal
add_three = refl

add_two : add_object counts keeps keeps two_blob one_added ≡ ok (counts two_blob, two_added)
unfolding add_object parse_header split_at_byte scan_word scan_uint keeps type_name_to_type
    bytes_equal
add_two = refl

two_added-Added : Added counts keeps keeps (two_blob ∷ three_blob ∷ []) two_added
two_added-Added = added two_blob (added three_blob started add_three) add_two

keeps-Restores : Restores counts keeps keeps
unfolding keeps
keeps-Restores = record { at = λ d compressed e. ap some cc }

entries_differ : Distinct pack_hash two_added.entries
unfolding append_object counts bytes_equal new_pack_writer
entries_differ = ((refl, tt), (tt, tt))

-- The entries stand in the order of their hashes, the bodies in the order they were added.
abbrev two_file : Bytes
two_file =
    codes "MPAK"
    ++ (put_uint32 1
        ++ (put_uint32 2
            ++ (9 ∷ replicate 31 7
                ++ (0 ∷ (put_uint32 10 ++ (put_uint32 9 ++ put_uint32 2))
                    ++ (10 ∷ replicate 31 7
                        ++ (0 ∷ (put_uint32 0 ++ (put_uint32 10 ++ put_uint32 3))
                            ++ (three_blob ++ (two_blob ++ put_uint32 1859509962))))))))

two_closed : close_pack true two_added ≡ ok two_file
unfolding close_pack sort_by append_object new_pack_writer bytes_less counts put_uint32
    checksum_ieee
two_closed = refl

read_object-close_pack_example :
    (r : PackReader) × (open_pack two_file ≡ ok r)
    × All (λ d. read_object counts keeps keeps r (counts d) ≡ ok d) (two_blob ∷ three_blob ∷ [])
unfolding counts append_object new_pack_writer
read_object-close_pack_example =
    read_object-close_pack counts keeps keeps (λ d. refl) keeps-Restores
      (two_blob ∷ three_blob ∷ []) two_added two_added-Added (omega arith) (omega arith)
      entries_differ true two_file two_closed

unpack_objects-IsValid_example :
    IsValid counts (unpack_objects counts keeps keeps (λ h. done) two_file (λ path. none)).1
    × ((hashes : List Hash)
        → (unpack_objects counts keeps keeps (λ h. done) two_file (λ path. none)).0 ≡ ok hashes
        → (r : PackReader) × (open_pack two_file ≡ ok r) × (hashes ≡ objects r))
unpack_objects-IsValid_example =
    unpack_objects-IsValid counts keeps keeps (λ h. done) two_file (λ path. none)
      (record { at = λ path d e. absurd (cc) })

not_a_pack : open_pack (codes "MPIX" ++ two_file) ≡ err invalid_magic
unfolding open_pack get_bytes bytes_equal put_uint32
not_a_pack = refl
