-- ===== src/Object/Listing.antt =====
-- internal/gc/gc.go and internal/fsck/fsck.go: what the objects directory lists, in the order of
-- `os.ReadDir`.
use minus_sync.Prelude.{ℕ, Bool, Option, List, Bytes}

-- What `os.ReadDir` lists. The size is not there when `Info` fails.
pub record ObjectFile : Type 0 where
  pub name : Bytes
  pub is_dir : Bool
  pub size : Option ℕ

pub record Prefix : Type 0 where
  pub name : Bytes
  pub is_dir : Bool
  pub entries : Option (List ObjectFile)
