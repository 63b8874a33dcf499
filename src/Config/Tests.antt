-- ===== src/Config/Tests.antt =====
-- The configuration on small inputs.
use minus_sync.Prelude.{
  none, Option, [], ◌∷◌, ◌++◌, Bytes, codes, ok, bytes_equal, if◌then◌else◌, split_newlines,
  without_last_empty, trim_space, has_prefix, has_suffix, split_at_byte, ◌≡◌, ◌≢◌, refl,
}
use minus_sync.Ignore.File.{contents, unreadable, drop_cr}
use minus_sync.Config.{Config, get, set, unset, remove_section, lookup, assign}
use minus_sync.Config.Values.{get-changes}
use minus_sync.Config.File.{Error, load, load-ok, scan_loop, unquote}

abbrev small : Config
small = record {
  path = codes "config";
  sections = (codes "core", (codes "name", codes "ann") ∷ []) ∷ [];
}

get-changes_example :
    (get (codes "core") (codes "name") (set (codes "core") (codes "mail") (codes "a@b") small) ≡ (
      if bytes_equal (codes "core") (codes "core")
      then (if bytes_equal (codes "mail") (codes "name")
          then codes "a@b"
          else get (codes "core") (codes "name") small)
      else get (codes "core") (codes "name") small))
    × (get (codes "core") (codes "name") (unset (codes "core") (codes "mail") small) ≡ (
        if bytes_equal (codes "core") (codes "core")
        then (if bytes_equal (codes "mail") (codes "name")
            then []
            else get (codes "core") (codes "name") small)
        else get (codes "core") (codes "name") small))
    × (get (codes "core") (codes "name") (remove_section (codes "core") small) ≡ (
        if bytes_equal (codes "core") (codes "core")
        then []
        else get (codes "core") (codes "name") small))
get-changes_example =
    get-changes (codes "core") (codes "mail") (codes "a@b") (codes "core") (codes "name") small

abbrev small_text : Bytes
small_text = codes "k=v" ++ (10 ∷ codes "[core]") ++ (10 ∷ codes "name = 'ann'")

contents_ne_unreadable : contents small_text ≢ unreadable
contents_ne_unreadable e = cc

load-ok_example :
    (c : Config) × (e : Option Error) × (load (codes "config") (contents small_text) ≡ ok (c, e))
load-ok_example = load-ok (codes "config") (contents small_text) contents_ne_unreadable

small_loaded :
    load (codes "config") (contents small_text)
    ≡ ok (
      record {
        path = codes "config";
        sections = (codes "core", (codes "k", codes "v") ∷ (codes "name", codes "ann") ∷ []) ∷ [];
      },
      none,
    )
unfolding load scan_loop without_last_empty split_newlines bytes_equal trim_space drop_cr has_suffix
    has_prefix split_at_byte lookup assign unquote
small_loaded = refl
