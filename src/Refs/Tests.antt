-- ===== src/Refs/Tests.antt =====
-- References on small inputs.
use minus_sync.Prelude.{
  IsCleanName, split_slashes, join_path, refl, ℕ, none, some, Bytes, codes, ok, err, if◌then◌else◌,
  bytes_equal, replicate, ◌≡◌, ◌<◌, arith,
}
use minus_sync.Hash.{Hash}
use minus_sync.Refs.{
  tag_path, remote_path, Files, absent, ref_not_found, invalid_head, get_tag, set_tag,
  get_remote_ref, delete_tag, read_head, write_head,
}
use minus_sync.Refs.Frame.{get_tag-set_tag, get_tag-delete_tag, read_head-write_head}

abbrev ones : Hash
ones = replicate 32 1

abbrev no_files : Files
no_files path = absent

abbrev with_tag : Files
with_tag = (set_tag (codes "refs") none (codes "v1") ones no_files).1

v1-IsCleanName : IsCleanName (codes "v1")
unfolding split_slashes bytes_equal
v1-IsCleanName = ((refl, refl), tt)

get_tag-set_tag_example :
    ((other : Bytes)
      → IsCleanName other
      → get_tag (codes "refs") other with_tag ≡ (
          if bytes_equal (codes "v1") other
          then ok ones
          else get_tag (codes "refs") other no_files))
    × ((remote other : Bytes)
        → IsCleanName remote
        → IsCleanName other
        → get_remote_ref (codes "refs") remote other with_tag
          ≡ get_remote_ref (codes "refs") remote other no_files)
get_tag-set_tag_example =
    get_tag-set_tag (codes "refs") (codes "v1") ones no_files (omega arith) v1-IsCleanName

get_tag-delete_tag_test :
    get_tag (codes "refs") (codes "v1") (delete_tag (codes "refs") none (codes "v1") with_tag).1 ≡ (
      if bytes_equal (codes "v1") (codes "v1")
      then err ref_not_found
      else get_tag (codes "refs") (codes "v1") with_tag)
get_tag-delete_tag_test =
    get_tag-delete_tag (codes "refs") (codes "v1") (codes "v1") with_tag v1-IsCleanName
      v1-IsCleanName

-- A tag with `..` in its name is a reference of a remote.
tag_path-other_name :
    tag_path (codes "refs") (codes "../remotes/o/m")
    ≡ remote_path (codes "refs") (codes "o") (codes "m")
unfolding join_path bytes_equal
tag_path-other_name = refl

read_head-write_head_test :
    (read_head (codes "HEAD") (write_head none (codes "HEAD") ones no_files).1 ≡ ok ones)
    × ((n : ℕ)
        → n < 64
        → read_head (codes "HEAD") (write_head (some n) (codes "HEAD") ones no_files).1
          ≡ err invalid_head)
read_head-write_head_test = read_head-write_head (codes "HEAD") ones no_files (omega arith)
