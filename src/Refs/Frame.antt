-- ===== src/Refs/Frame.antt =====
-- internal/refs: a reference that is written is read back, and no other one changes.
use minus_sync.Prelude.{
  List, ap₂, All-append, append-nil, elements_equal, elements_equal-append,
  elements_equal-split_slashes, path_equal, path_equal-same, path_equal-path, join_path,
  join_path-clean, is_rooted, split_slashes, split_parts, clean_loop, IsClean, IsCleanName,
  FilePath, ℕ, zero, suc, ◌<◌, Bool, true, false, none, some, [], ◌∷◌, ◌++◌, Bytes, codes,
  bytes_equal, if◌then◌else◌, ok, err, trim_space, trim_space-end, trim_space-IsVisible, is_space,
  IsVisible, ◌≡◌, refl, sym, ap, ◌∙◌, arith, ◌==◌, ◌≤◌, All-take, take, length, length-take,
}
use minus_sync.Hash.{
  Hash, IsHash, hex, encode_hex, hex_digit, from_hex, from_hex-hex, length-hex, invalid_length,
}
use minus_sync.Refs.{
  File, absent, unreadable, contents, Files, ref_not_found, put, parse_ref, read_ref, write_ref,
  tag_path, remote_path, get_tag, set_tag, get_remote_ref, remove_file, delete_tag, invalid_head,
  read_head, write_head,
}

hex-IsVisible : (h : Hash) → IsVisible (hex h)
unfolding hex encode_hex hex_digit is_space
hex-IsVisible [] = tt
hex-IsVisible (b ∷ h) = (ground arith, (ground arith, hex-IsVisible h))

trim_space-hex : (h : Hash) → trim_space (hex h ++ 10 ∷ []) ≡ hex h
trim_space-hex h =
    trim_space-end (hex h) 10 (unfold is_space in refl)
    ∙ trim_space-IsVisible (hex h) (hex-IsVisible h)

read_ref-put :
    (path other : FilePath) (file : File) (files : Files) (b : Bool)
    → path_equal path other ≡ b
    → read_ref other (put path file files) ≡ (if b then parse_ref file else read_ref other files)
unfolding read_ref put
read_ref-put path other file files true e = rw e refl
read_ref-put path other file files false e = rw e refl

parse_ref-hex : (h : Hash) → IsHash h → parse_ref (contents (hex h ++ 10 ∷ [])) ≡ ok h
parse_ref-hex h valid = rw (trim_space-hex h, from_hex-hex h valid) refl

read_ref-write_ref :
    (path other : FilePath) (h : Hash) (files : Files) (b : Bool)
    → IsHash h
    → path_equal path other ≡ b
    → read_ref other (write_ref none path h files).1 ≡ (if b then ok h else read_ref other files)
unfolding write_ref
read_ref-write_ref path other h files b valid e =
    read_ref-put path other (contents (hex h ++ 10 ∷ [])) files b e
    ∙ ap (λ r. if b then r else read_ref other files) (parse_ref-hex h valid)

-- What stands in front of a name that is joined behind it.
base : Bytes → List Bytes
base refs_dir = clean_loop (is_rooted (refs_dir ∷ [])) [] (split_slashes refs_dir)

is_rooted-behind :
    (refs_dir part : Bytes) (c : ℕ) (parts : List Bytes)
    → (c == 47) ≡ false
    → is_rooted (refs_dir ∷ (c ∷ part) ∷ parts) ≡ is_rooted (refs_dir ∷ [])
unfolding is_rooted
is_rooted-behind [] part c parts e = e
is_rooted-behind (d ∷ refs_dir) part c parts e = refl

tag_path-shape :
    (refs_dir name : Bytes)
    → IsCleanName name
    → tag_path refs_dir name ≡ record {
      rooted = is_rooted (refs_dir ∷ []);
      elements = base refs_dir ++ codes "tags" ∷ split_slashes name;
    }
unfolding base
tag_path-shape refs_dir name clean =
    let parts : split_parts (codes "tags" ∷ name ∷ []) ≡ codes "tags" ∷ split_slashes name =
      unfold split_parts split_slashes in
      ap (◌∷◌ (codes "tags")) (append-nil (split_slashes name)) in
    let tags_clean : IsClean (codes "tags") = unfold bytes_equal in (refl, refl) in
    join_path-clean refs_dir (codes "tags" ∷ name ∷ []) (rw parts (tags_clean, clean))
      (is_rooted-behind refs_dir (codes "ags") 116 (name ∷ []) refl)
    ∙ rw parts refl

remote_path-shape :
    (refs_dir remote name : Bytes)
    → IsCleanName remote
    → IsCleanName name
    → remote_path refs_dir remote name ≡ record {
      rooted = is_rooted (refs_dir ∷ []);
      elements = base refs_dir ++ codes "remotes" ∷ (split_slashes remote ++ split_slashes name);
    }
unfolding base
remote_path-shape refs_dir remote name remote_clean clean =
    let parts : split_parts (codes "remotes" ∷ remote ∷ name ∷ [])
        ≡ codes "remotes" ∷ (split_slashes remote ++ split_slashes name) =
      unfold split_parts split_slashes in
      ap (λ es. codes "remotes" ∷ (split_slashes remote ++ es)) (append-nil (split_slashes name)) in
    let remotes_clean : IsClean (codes "remotes") = unfold bytes_equal in (refl, refl) in
    join_path-clean refs_dir (codes "remotes" ∷ remote ∷ name ∷ [])
      (rw parts (
        remotes_clean,
        All-append IsClean (split_slashes remote) (split_slashes name) remote_clean clean,
      ))
      (is_rooted-behind refs_dir (codes "emotes") 114 (remote ∷ name ∷ []) refl)
    ∙ rw parts refl

path_equal-rooted :
    (rooted : Bool) (es fs : List Bytes)
    → path_equal
        (record { rooted = rooted; elements = es })
        (record { rooted = rooted; elements = fs })
      ≡ elements_equal es fs
unfolding path_equal
path_equal-rooted true es fs = refl
path_equal-rooted false es fs = refl

-- Tags with clean names have the same path when the names are the same.
path_equal-tag_path :
    (refs_dir name other : Bytes)
    → IsCleanName name
    → IsCleanName other
    → path_equal (tag_path refs_dir name) (tag_path refs_dir other) ≡ bytes_equal name other
path_equal-tag_path refs_dir name other clean other_clean =
    ap₂ path_equal (tag_path-shape refs_dir name clean) (tag_path-shape refs_dir other other_clean)
    ∙ path_equal-rooted (is_rooted (refs_dir ∷ [])) _ _
    ∙ elements_equal-append (base refs_dir) (codes "tags" ∷ split_slashes name)
        (codes "tags" ∷ split_slashes other)
    ∙ unfold elements_equal bytes_equal in elements_equal-split_slashes name other

-- A tag is in another directory than the references of the remotes.
tag_path-remote_path :
    (refs_dir name remote other : Bytes)
    → IsCleanName name
    → IsCleanName remote
    → IsCleanName other
    → path_equal (tag_path refs_dir name) (remote_path refs_dir remote other) ≡ false
tag_path-remote_path refs_dir name remote other clean remote_clean other_clean =
    ap₂ path_equal (tag_path-shape refs_dir name clean)
      (remote_path-shape refs_dir remote other remote_clean other_clean)
    ∙ path_equal-rooted (is_rooted (refs_dir ∷ [])) _ _
    ∙ elements_equal-append (base refs_dir) (codes "tags" ∷ split_slashes name)
        (codes "remotes" ∷ (split_slashes remote ++ split_slashes other))
    ∙ unfold elements_equal bytes_equal in refl

-- When no element of a name is empty, `.` or `..`, the tag that `SetTag` wrote under it is the hash
-- that `GetTag` returns, and all tags and references of the remotes with other such names read as
-- before.
pub get_tag-set_tag :
    (refs_dir name : Bytes) (h : Hash) (files : Files)
    → IsHash h
    → IsCleanName name
    → ((other : Bytes)
        → IsCleanName other
        → get_tag refs_dir other (set_tag refs_dir none name h files).1
          ≡ (if bytes_equal name other then ok h else get_tag refs_dir other files))
      × ((remote other : Bytes)
          → IsCleanName remote
          → IsCleanName other
          → get_remote_ref refs_dir remote other (set_tag refs_dir none name h files).1
            ≡ get_remote_ref refs_dir remote other files)
unfolding get_tag set_tag get_remote_ref
get_tag-set_tag refs_dir name h files valid clean =
    let path = tag_path refs_dir name in
    (
      (λ other other_clean.
          read_ref-write_ref path (tag_path refs_dir other) h files (bytes_equal name other) valid
            (path_equal-tag_path refs_dir name other clean other_clean)),
      (λ remote other remote_clean other_clean.
          read_ref-write_ref path (remote_path refs_dir remote other) h files false valid
            (tag_path-remote_path refs_dir name remote other clean remote_clean other_clean)),
    )

-- Removing a file leaves it absent, and all others as they were.
read_ref-remove_file :
    (path other : FilePath) (file : File) (files : Files) (b : Bool)
    → files path ≡ file
    → path_equal path other ≡ b
    → read_ref other (remove_file none file path files).1
      ≡ (if b then err ref_not_found else read_ref other files)
unfolding remove_file
read_ref-remove_file path other absent files true there e =
    unfold read_ref in rw (sym (path_equal-path path other e), there) refl
read_ref-remove_file path other absent files false there e = refl
read_ref-remove_file path other unreadable files b there e =
    read_ref-put path other absent files b e
read_ref-remove_file path other (contents text) files b there e =
    read_ref-put path other absent files b e

-- A tag that `DeleteTag` removed, or that was not there, is not found, and all other tags read as
-- before, if the removal of the file succeeds and no element of a name is empty, `.` or `..`.
pub get_tag-delete_tag :
    (refs_dir name other : Bytes) (files : Files)
    → IsCleanName name
    → IsCleanName other
    → get_tag refs_dir other (delete_tag refs_dir none name files).1
      ≡ (if bytes_equal name other then err ref_not_found else get_tag refs_dir other files)
unfolding get_tag delete_tag
get_tag-delete_tag refs_dir name other files clean other_clean =
    let path = tag_path refs_dir name in
    read_ref-remove_file path (tag_path refs_dir other) (files path) files (bytes_equal name other)
      refl (path_equal-tag_path refs_dir name other clean other_clean)

take-append_le : (n : ℕ) (xs ys : Bytes) → n ≤ length xs → take n (xs ++ ys) ≡ take n xs
take-append_le zero xs ys h = refl
take-append_le (suc n) [] ys h = absurd (omega arith)
take-append_le (suc n) (x ∷ xs) ys h = ap (◌∷◌ x) (take-append_le n xs ys (omega arith))

from_hex-short :
    (text : Bytes) → length text < 64 → from_hex text ≡ err (invalid_length (length text))
unfolding from_hex
from_hex-short text short = let other : (length text == 64) ≡ false = ground arith in rw other refl

-- `ReadHead` returns the hash that `WriteHead` wrote. When the write stops within the text of the
-- hash, HEAD is lost: it reads as invalid, whatever it was before.
pub read_head-write_head :
    (path : Bytes) (h : Hash) (files : Files)
    → IsHash h
    → (read_head path (write_head none path h files).1 ≡ ok h)
      × ((n : ℕ) → n < 64 → read_head path (write_head (some n) path h files).1 ≡ err invalid_head)
unfolding read_head write_head put
read_head-write_head path h files valid =
    let file = join_path (path ∷ []) in
    let same : path_equal file file ≡ true = path_equal-same file in
    (
      rw (same, trim_space-hex h, from_hex-hex h valid) refl,
      (λ n short.
          let part = take n (hex h) in
          let size : length part < 64 = omega (arith, length-take n (hex h)) in
          let cut = take-append_le n (hex h) (10 ∷ []) (omega (arith, length-hex h, valid.0)) in
          let kept = trim_space-IsVisible part (All-take _ n (hex h) (hex-IsVisible h)) in
          rw (same, cut, kept, from_hex-short part size) refl),
    )
