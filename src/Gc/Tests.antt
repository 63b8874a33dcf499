-- ===== src/Gc/Tests.antt =====
-- Garbage collection of two objects, one of which a tag names.
use minus_sync.Prelude.{
  path_equal, join_path, sym, err, true, false, none, some, List, [], ◌∷◌, ◌++◌, Bytes, codes, ok,
  if◌then◌else◌, bytes_equal, replicate, drop, All, ◌≡◌, refl, subst, arith, inl, inr,
}
use mathlib.Core.List.{Memᴰ}
use minus_sync.Hash.{Hash, hex, encode_hex, hex_digit}
use minus_sync.Object.Store.{Store, object_path}
use minus_sync.Object.Listing.{Prefix}
use minus_sync.Refs.{Files, absent, contents, tag_path}
use minus_sync.Gc.{contains, mark, mark_all}
use minus_sync.Gc.Keys.{hex_text_injective, contains-cons, contains_first}
use minus_sync.Gc.Mark.{IsMarked, here}
use minus_sync.Gc.Enough.{IsClosed}
use minus_sync.Gc.Collect.{
  Repository, Options, read_dir_failed, Report, children, roots, collect, remove_file, sweep,
  sweep_files, sweep_file, prune_file,
}
use minus_sync.Gc.Collect.Keeps.{collect-keeps}
use minus_sync.Gc.Collect.Returns.{collect-returns}
use mathlib.Core.Bool.{true≢false}
use minus_sync.Hash.{dir_prefix}
use minus_sync.Hash.{equal}
use minus_sync.Hash.{from_hex}
use minus_sync.Hash.{rest}
use minus_sync.Object.{type_name_to_type}
use minus_sync.Object.Header.{parse_header}
use minus_sync.Object.Store.{read_header}
use minus_sync.Prelude.{scan_uint}
use minus_sync.Prelude.{scan_word}
use minus_sync.Prelude.{split_at_byte}
use minus_sync.Prelude.{trim_space}
use minus_sync.Refs.{get_tag}
use minus_sync.Refs.{resolve_head}

abbrev ones : Hash
ones = replicate 32 1

abbrev hi_blob : Bytes
hi_blob = codes "blob 2" ++ (0 ∷ codes "hi")

-- A hash that knows one object.
abbrev one_hash : Bytes → Hash
one_hash data_bytes = ones

abbrev one_object : Store
one_object path = if bytes_equal path (object_path ones) then some hi_blob else none

abbrev one_tag : Files
one_tag path =
    if path_equal path (tag_path (codes "refs") (codes "v1")) then contents (hex ones) else absent

abbrev tagged : Repository
tagged = record {
  refs_dir = codes "refs";
  head_path = codes "HEAD";
  files = one_tag;
  tags = codes "v1" ∷ [];
  remotes = [];
}

abbrev pruning : Options
pruning = record { prune = true; verbose = false; remove_fails = λ path. false }

abbrev two_files : List Prefix
two_files =
    record {
      name = codes "01";
      is_dir = true;
      entries = some (
          record { name = drop 2 (hex ones); is_dir = false; size = some 8 }
          ∷ record { name = codes "stray"; is_dir = false; size = some 5 }
          ∷ []);
    }
    ∷ []

abbrev stray_report : Report
stray_report = record {
  total_objects = 2;
  reachable_objects = 1;
  unreachable_objects = 1;
  recovered_bytes = 5;
  pruned = true;
}

children_none : children one_hash one_object ones ≡ []
unfolding children read_header bytes_equal dir_prefix hex rest equal parse_header split_at_byte
    scan_word scan_uint type_name_to_type
children_none = refl

roots_one : roots tagged ≡ ones ∷ []
unfolding roots resolve_head path_equal join_path bytes_equal get_tag from_hex trim_space hex
roots_one = refl

abbrev after_sweep : Store
after_sweep = remove_file (codes "01/stray") one_object

swept :
    collect one_hash 2 pruning tagged (some two_files) one_object
    ≡ some (ok (stray_report, after_sweep))
unfolding collect mark_all mark contains sweep sweep_files sweep_file prune_file hex encode_hex
    hex_digit bytes_equal
swept = rw (roots_one, children_none) refl

collect-keeps_example : after_sweep (object_path ones) ≡ one_object (object_path ones)
collect-keeps_example =
    collect-keeps one_hash 2 pruning tagged (some two_files) one_object stray_report after_sweep
      ones (omega arith) (ones, rw roots_one (Memᴰ.head refl), here) swept

ones-IsClosed : IsClosed (children one_hash one_object) (hex ones ∷ [])
ones-IsClosed = record {
  at = λ h inside. elim (contains-cons (hex ones) (hex h) [] inside) [
    | inl same ↦
        subst (λ x. All (IsMarked (hex ones ∷ [])) (children one_hash one_object x))
          (hex_text_injective ones h same) (rw children_none tt)
    | inr nothing ↦ absurd (unfold contains in cc)
  ];
}

collect-returns_example :
    (collect one_hash 2 pruning tagged none one_object ≡ some (err read_dir_failed))
    × ((report : Report) × (after : Store) × (collect one_hash 2 pruning tagged
            (some two_files)
            one_object
          ≡ some (ok (report, after))))
collect-returns_example =
    collect-returns one_hash 2 pruning tagged two_files one_object (hex ones ∷ []) ones-IsClosed
      (rw roots_one (contains_first (hex ones) [], tt)) (omega arith)
      (λ verbose. absurd (true≢false (sym verbose)))
