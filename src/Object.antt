-- ===== src/Object.antt =====
-- internal/object: object types, errors and the modules of the object store.
pub mod Header
pub mod Store
pub mod Tree
pub mod Fields
pub mod Listing
pub mod Person
pub mod Commit
pub mod Tag
pub mod Pack
mod Tests
mod TextTests
mod PackTests
use minus_sync.Prelude.{
  ℕ, Option, none, some, ◌++◌, Bytes, codes, bytes_equal, if◌then◌else◌, format_uint, ◌==◌,
}
use minus_sync.Hash.{Error as HashError}

-- `ObjectType` is a `uint8`.
abbrev pub ObjectType : Type 0
ObjectType = ℕ

abbrev pub type_blob : ObjectType
type_blob = 0

abbrev pub type_tree : ObjectType
type_tree = 1

abbrev pub type_commit : ObjectType
type_commit = 2

abbrev pub type_tag : ObjectType
type_tag = 3

-- `ObjectType.String`.
unfoldable pub type_string : ObjectType → Bytes
type_string t =
    if t == type_blob
    then codes "blob"
    else if t == type_tree
    then codes "tree"
    else if t == type_commit
    then codes "commit"
    else if t == type_tag
    then codes "tag"
    else codes "unknown(" ++ (format_uint 10 t ++ codes ")")

-- The map `typeNameToType`.
unfoldable pub type_name_to_type : Bytes → Option ObjectType
type_name_to_type name =
    if bytes_equal name (codes "blob")
    then some type_blob
    else if bytes_equal name (codes "tree")
    then some type_tree
    else if bytes_equal name (codes "commit")
    then some type_commit
    else if bytes_equal name (codes "tag")
    then some type_tag
    else none

pub data Error : Type 0 where
  missing_null malformed_header : Error
  unknown_type : Bytes → Error
  not_found corrupted : Error
  size_mismatch : ℕ → ℕ → Error
  unexpected_type : (got want : ObjectType) → Error
  create_object_dir create_temp write_temp close_temp rename_temp : Error
  missing_tree_null malformed_entry invalid_mode unexpected_end : Error
  invalid_hash : HashError → Error
  missing_entry : Error
