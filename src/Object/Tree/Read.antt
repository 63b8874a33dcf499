-- ===== src/Object/Tree/Read.antt =====
-- internal/object/tree.go: trees in the object store.
use minus_sync.Prelude.{not, List, Bytes, map, if◌then◌else◌, ◌==◌, Result, ok, err, ◌>>=◌}
use minus_sync.Hash.{Hash}
use minus_sync.Object.{Error, type_tree, unexpected_type}
use minus_sync.Object.Store.{Store, read_content}
use minus_sync.Object.Tree.{TreeEntry, entry_name, parse_tree}

unfoldable pub read_tree : (Bytes → Hash) → Store → Hash → Result Error (List TreeEntry)
unfolding parse_tree read_content
read_tree compute store h = do
  (content, header) ← read_content compute store h
  if not (header.object_type == type_tree)
      then err (unexpected_type header.object_type type_tree)
      else parse_tree content

-- The names, with the entries that the map holds under them.
unfoldable pub list_tree :
    (Bytes → Hash) → Store → Hash → Result Error (List Bytes × List TreeEntry)
unfolding read_tree
list_tree compute store tree_hash = do
  entries ← read_tree compute store tree_hash
  ok (map entry_name entries, entries)
