-- ===== src/Fsck/Tests.antt =====
-- The check of a directory with one object, and of one with a stray file.
use minus_sync.Prelude.{
  true, false, none, some, List, [], ◌∷◌, ◌++◌, Bytes, codes, ok, panic, All, if◌then◌else◌,
  bytes_equal, replicate, drop, ◌≡◌, refl, arith,
}
use mathlib.Core.List.{Memᴰ}
use minus_sync.Hash.{Hash, hex}
use minus_sync.Object.Store.{Store, object_path}
use minus_sync.Object.Listing.{ObjectFile, Prefix}
use minus_sync.Fsck.{Report, verify}
use minus_sync.Fsck.Clean.{SoundPrefix, verify_sound}
use minus_sync.Fsck.ShortName.{verify-panic}
use minus_sync.Fsck.{check_content}
use minus_sync.Hash.{dir_prefix}
use minus_sync.Hash.{equal}
use minus_sync.Hash.{from_hex}
use minus_sync.Hash.{rest}
use minus_sync.Object.{type_name_to_type}
use minus_sync.Object.Header.{parse_header}
use minus_sync.Object.Store.{read_content}
use minus_sync.Prelude.{scan_uint}
use minus_sync.Prelude.{scan_word}
use minus_sync.Prelude.{split_at_byte}

abbrev ones : Hash
ones = replicate 32 1

abbrev one_hash : Bytes → Hash
one_hash data_bytes = ones

abbrev one_object : Store
one_object path =
    if bytes_equal path (object_path ones) then some (codes "blob 2" ++ (0 ∷ codes "hi")) else none

abbrev one_file : List Prefix
one_file =
    record {
      name = codes "01";
      is_dir = true;
      entries = some (record { name = drop 2 (hex ones); is_dir = false; size = some 8 } ∷ []);
    }
    ∷ []

abbrev one_checked : Report
one_checked = record { objects_checked = 1; errors = [] }

verified : verify one_hash false one_object (some one_file) ≡ ok one_checked
unfolding verify from_hex hex read_content bytes_equal dir_prefix rest equal parse_header
    split_at_byte scan_word scan_uint type_name_to_type check_content
verified = refl

verify_sound_example : All (SoundPrefix one_hash false one_object) one_file
verify_sound_example = verify_sound one_hash false one_object one_file one_checked verified refl

abbrev stray : ObjectFile
stray = record { name = codes "x"; is_dir = false; size = none }

abbrev stray_dir : Prefix
stray_dir = record { name = codes "ab"; is_dir = true; entries = some (stray ∷ []) }

verify-panic_example : verify one_hash false one_object (some (stray_dir ∷ [])) ≡ panic
verify-panic_example =
    verify-panic one_hash false one_object (stray_dir ∷ []) stray_dir (stray ∷ []) stray
      (Memᴰ.head refl) refl refl refl (Memᴰ.head refl) refl (omega arith)
