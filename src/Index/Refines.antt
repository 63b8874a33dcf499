-- ===== src/Index/Refines.antt =====
-- The index refines a map from paths to entries: the binary searches of `Find`, `Add` and
-- `Remove` agree with a plain lookup while the entries are sorted, and they stay sorted.
use minus_sync.Prelude.{
  none, some, Bytes, if◌then◌else◌, bytes_equal, IsSorted, lookup_key, sort_search-rank,
  matching-rank, ◌≡◌,
}
use minus_sync.Index.{Index, IndexEntry, entry_path, position, find, add, remove}
use minus_sync.Index.Sorted.{
  put_entry, delete_entry, put_entry-IsSorted, lookup_key-put_entry, put_entry-at_rank,
  delete_entry-at_rank, delete_entry-IsSorted, lookup_key-delete_entry,
}

-- `Find` is the plain lookup when the entries are sorted.
find-lookup :
    (idx : Index) (p : Bytes)
    → IsSorted entry_path idx.entries
    → find idx p ≡ lookup_key entry_path p idx.entries
unfolding find position
find-lookup idx p s =
    rw (sort_search-rank entry_path p idx.entries s) (matching-rank entry_path p idx.entries s)

add-put_entry :
    (idx : Index) (e : IndexEntry)
    → IsSorted entry_path idx.entries
    → (add idx e).entries ≡ put_entry e idx.entries
unfolding add position
add-put_entry idx e s =
    rw (find-lookup idx e.path s, sort_search-rank entry_path e.path idx.entries s)
      (put_entry-at_rank e idx.entries s)

remove-delete_entry :
    (idx : Index) (p : Bytes)
    → IsSorted entry_path idx.entries
    → (remove idx p).entries ≡ delete_entry p idx.entries
unfolding remove position
remove-delete_entry idx p s =
    rw (find-lookup idx p s, sort_search-rank entry_path p idx.entries s)
      (delete_entry-at_rank p idx.entries s)

-- `Add` and `Remove` keep the entries of a sorted index sorted by path, without duplicates.
pub changes-IsSorted :
    (idx : Index) (e : IndexEntry) (p : Bytes)
    → IsSorted entry_path idx.entries
    → IsSorted entry_path (add idx e).entries × IsSorted entry_path (remove idx p).entries
changes-IsSorted idx e p s = (
  rw (add-put_entry idx e s) (put_entry-IsSorted e idx.entries s),
  rw (remove-delete_entry idx p s) (delete_entry-IsSorted p idx.entries s),
)

-- In a sorted index `Find` after `Add` returns the added entry at its path, and at every other
-- path what it returned before, whether the entry was inserted or replaced another.
pub find-add :
    (idx : Index) (e : IndexEntry) (p : Bytes)
    → IsSorted entry_path idx.entries
    → find (add idx e) p ≡ (if bytes_equal e.path p then some e else find idx p)
find-add idx e p s =
    rw
      (
        find-lookup (add idx e) p (changes-IsSorted idx e p s).0,
        find-lookup idx p s,
        add-put_entry idx e s,
      )
      (lookup_key-put_entry p e idx.entries)

-- In a sorted index `Find` after `Remove` returns nothing at the removed path, and at every
-- other path what it returned before.
pub find-remove :
    (idx : Index) (p q : Bytes)
    → IsSorted entry_path idx.entries
    → find (remove idx p) q ≡ (if bytes_equal p q then none else find idx q)
find-remove idx p q s =
    let sorted : IsSorted entry_path (remove idx p).entries =
      rw (remove-delete_entry idx p s) (delete_entry-IsSorted p idx.entries s) in
    rw (find-lookup (remove idx p) q sorted, find-lookup idx q s, remove-delete_entry idx p s)
      (lookup_key-delete_entry p q idx.entries s)
