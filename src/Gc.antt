-- ===== src/Gc.antt =====
-- internal/gc/gc.go: the objects that can be reached from the references, and the removal of the
-- others.
pub mod Keys
pub mod Mark
pub mod Enough
pub mod Collect
mod Tests
use minus_sync.Prelude.{
  ℕ, zero, suc, ◌+◌, Bool, true, false, not, ◌&&◌, ◌||◌, Option, none, some, List, [], ◌∷◌, ◌++◌,
  Bytes, length, bytes_equal, if◌then◌else◌, ◌==◌, Result, ok, err, panic, map,
}
use minus_sync.Hash.{Hash, hex, is_zero}

-- The map `reachable`, by its keys.
unfoldable pub contains : Bytes → List Bytes → Bool
contains key [] = false
contains key (k ∷ marked) = bytes_equal k key || contains key marked

abbrev pub and_then : Option (List Bytes) → (List Bytes → Option (List Bytes)) → Option (List Bytes)
and_then none next = none
and_then (some marked) next = next marked

unfoldable pub mark_all :
    (Hash → List Bytes → Option (List Bytes)) → List Hash → List Bytes → Option (List Bytes)
mark_all go [] marked = some marked
mark_all go (h ∷ hashes) marked = and_then (go h marked) (mark_all go hashes)

module _ (children : Hash → List Hash) where
  -- `markReachable`, with fuel for the depth of the calls; none is a call that has not returned.
  unfoldable pub mark : ℕ → Hash → List Bytes → Option (List Bytes)
  unfolding mark_all
  mark zero h marked = none
  mark (suc fuel) h marked =
      let deeper = mark_all (mark fuel) (children h) (hex h ∷ marked) in
      if contains (hex h) marked then some marked else deeper
