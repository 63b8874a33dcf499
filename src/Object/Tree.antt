-- ===== src/Object/Tree.antt =====
-- internal/object/tree.go: `SerializeTree` and `ParseTree`.
pub mod RoundTrip
pub mod Read
use minus_sync.Prelude.{
  ℕ, zero, suc, ◌+◌, ◌^◌, Bool, true, false, Option, none, some, List, [], ◌∷◌, ◌++◌, Bytes, length,
  if◌then◌else◌, Result, ok, err, panic, or_err, ◌>>=◌, ◌==◌, split_at_byte, get_bytes, format_uint,
  scan_uint, sort_by,
}
use minus_sync.Hash.{Hash, hash_size}
use minus_sync.Object.{
  ObjectType, type_blob, type_tree, Error, missing_tree_null, malformed_entry, invalid_mode,
  unexpected_end,
}

-- The modes, which the source writes in octal.
abbrev pub mode_regular : ℕ
mode_regular = 33188

abbrev pub mode_exec : ℕ
mode_exec = 33261

abbrev pub mode_symlink : ℕ
mode_symlink = 40960

abbrev pub mode_dir : ℕ
mode_dir = 16384

pub record TreeEntry : Type 0 where
  pub mode : ℕ
  pub name : Bytes
  pub hash : Hash
  pub entry_type : ObjectType

abbrev pub entry_name : TreeEntry → Bytes
entry_name e = e.name

unfoldable pub serialize_entry : TreeEntry → Bytes
serialize_entry e = (format_uint 8 e.mode ++ 32 ∷ e.name) ++ 0 ∷ e.hash

unfoldable pub serialize_entries : List TreeEntry → Bytes
unfolding serialize_entry
serialize_entries [] = []
serialize_entries (e ∷ entries) = serialize_entry e ++ serialize_entries entries

-- The slice is sorted in place, then written.
unfoldable pub serialize_tree : List TreeEntry → Bytes
unfolding serialize_entries
serialize_tree entries = serialize_entries (sort_by entry_name entries)

-- One turn of the loop of `ParseTree`: an entry and the data behind it.
unfoldable pub parse_entry : Bytes → Result Error (TreeEntry × Bytes)
parse_entry data_bytes = do
  (header, after_null) ← or_err missing_tree_null (split_at_byte 0 data_bytes)
  (mode_text, name) ← or_err malformed_entry (split_at_byte 32 header)
  (mode, _) ← or_err invalid_mode (scan_uint 8 (2 ^ 32) mode_text)
  (hash, rest) ← or_err unexpected_end (get_bytes hash_size after_null)
  ok (
    record {
      mode = mode;
      name = name;
      hash = hash;
      entry_type = if mode == mode_dir then type_tree else type_blob;
    },
    rest,
  )

-- The loop, which ends when nothing is left. Every turn takes a byte at least, so it makes at
-- most as many turns as there are bytes; without fuel it would panic.
unfoldable pub parse_loop : ℕ → Bytes → Result Error (List TreeEntry)
unfolding parse_entry
parse_loop fuel [] = ok []
parse_loop zero (b ∷ data_bytes) = panic
parse_loop (suc fuel) (b ∷ data_bytes) = do
  (e, rest) ← parse_entry (b ∷ data_bytes)
  entries ← parse_loop fuel rest
  ok (e ∷ entries)

unfoldable pub parse_tree : Bytes → Result Error (List TreeEntry)
unfolding parse_loop
parse_tree data_bytes = parse_loop (length data_bytes) data_bytes
