-- ===== src/Object/Commit.antt =====
-- internal/object/commit.go: commits as text.
pub mod Lines
pub mod RoundTrip
use minus_sync.Prelude.{
  ℕ, zero, suc, ◌+◌, ◌%◌, ◌^◌, Bool, true, false, not, Option, none, some, List, [], ◌∷◌, ◌++◌,
  Bytes, map, codes, bytes_equal, if◌then◌else◌, ◌==◌, Result, ok, err, panic, or_err, map_err,
  ◌>>=◌, ℤ, pos, negsuc, negate, format_uint, parse_uint, split_at_byte, trim_space, split_newlines,
  join_lines,
}
use minus_sync.Hash.{Hash, hex, from_hex, is_zero, zero_hash}
use minus_sync.Object.{Error, type_commit, unexpected_type, invalid_hash, missing_entry}
use minus_sync.Object.Fields.{key_line, write_lines, parse_lines, message_of}
use minus_sync.Object.Header.{Header}
use minus_sync.Object.Store.{Store, read_content}
use minus_sync.Object.Person.{
  Person, parse_person_line_full, is_negative, magnitude, format_tz, format_person,
}

pub record CommitData : Type 0 where
  pub tree : Hash
  pub parents : List Hash
  pub sequence : ℕ
  pub author : Bytes
  pub email : Bytes
  pub hostname : Bytes
  pub timestamp : ℤ
  pub tz_offset : ℤ
  pub message : Bytes

-- `NewCommitData`; the clock gives the time and the zone.
unfoldable pub new_commit_data :
    (now zone : ℤ) (tree : Hash) (parents : List Hash) (author email hostname message : Bytes)
    (parent_sequence : ℕ)
    → CommitData
new_commit_data now zone tree parents author email hostname message parent_sequence = record {
  tree = tree;
  parents = parents;
  sequence = (parent_sequence + 1) % 2 ^ 64;
  author = author;
  email = email;
  hostname = if bytes_equal hostname [] then codes "unknown" else hostname;
  timestamp = now;
  tz_offset = zone;
  message = message;
}

unfoldable pub parent_line : Hash → Bytes
parent_line h = key_line (codes "parent") (hex h)

-- The negative offset is negated in the commit itself.
unfoldable pub absolute_offset : CommitData → CommitData
unfolding is_negative
absolute_offset c = record c {
  tz_offset = if is_negative c.tz_offset then negate c.tz_offset else c.tz_offset;
}

unfoldable pub author_text : CommitData → Bytes
unfolding format_tz format_person absolute_offset is_negative
author_text c =
    format_person c.author c.email c.timestamp
      (format_tz (is_negative c.tz_offset) (magnitude (absolute_offset c).tz_offset))

unfoldable pub header_lines : CommitData → List Bytes
unfolding author_text parent_line
header_lines c =
    key_line (codes "tree") (hex c.tree)
    ∷ (map parent_line c.parents
        ++ key_line (codes "sequence") (format_uint 10 c.sequence)
          ∷ key_line (codes "author") (author_text c)
          ∷ key_line (codes "committer") (author_text c)
          ∷ key_line (codes "hostname") c.hostname
          ∷ [])

-- The text, and the commit as the call leaves it.
unfoldable pub serialize_commit : CommitData → Bytes × CommitData
unfolding header_lines write_lines absolute_offset
serialize_commit c = (write_lines (header_lines c) (10 ∷ (c.message ++ 10 ∷ [])), absolute_offset c)

abbrev pub empty_commit : CommitData
empty_commit = record {
  tree = zero_hash;
  parents = [];
  sequence = 0;
  author = [];
  email = [];
  hostname = [];
  timestamp = pos 0;
  tz_offset = pos 0;
  message = [];
}

-- A sequence that is no number is ignored.
abbrev pub set_sequence : CommitData → Option ℕ → CommitData
set_sequence c none = c
set_sequence c (some n) = record c { sequence = n }

unfoldable pub is_zero_time : ℤ → Bool
is_zero_time (pos n) = n == 0
is_zero_time (negsuc n) = false

abbrev pub set_author : CommitData → Person → CommitData
set_author c p = record c {
  author = p.name;
  email = p.email;
  timestamp = p.timestamp;
  tz_offset = p.tz_offset;
}

-- The committer overwrites what it gives.
unfoldable pub set_committer : CommitData → Person → CommitData
unfolding is_zero_time
set_committer c p = record c {
  author = if bytes_equal p.name [] then c.author else p.name;
  email = if bytes_equal p.email [] then c.email else p.email;
  timestamp = if is_zero_time p.timestamp then c.timestamp else p.timestamp;
  tz_offset = if is_zero_time p.timestamp then c.tz_offset else p.tz_offset;
}

unfoldable pub parse_field : CommitData → Bytes → Bytes → Result Error CommitData
unfolding set_committer
parse_field c key value =
    if bytes_equal key (codes "tree")
    then (map_err invalid_hash (from_hex value) >>= λ h. ok (record c { tree = h }))
    else if bytes_equal key (codes "parent")
    then (map_err invalid_hash (from_hex value) >>= λ h.
        ok (record c { parents = c.parents ++ h ∷ [] }))
    else if bytes_equal key (codes "sequence")
    then ok (set_sequence c (parse_uint (2 ^ 64) value))
    else if bytes_equal key (codes "author")
    then ok (set_author c (parse_person_line_full value))
    else if bytes_equal key (codes "committer")
    then ok (set_committer c (parse_person_line_full value))
    else if bytes_equal key (codes "hostname")
    then ok (record c { hostname = value })
    else ok c

abbrev pub with_message : CommitData × Option (List Bytes) → Result Error CommitData
with_message (c, lines) =
    if is_zero c.tree then err missing_entry else ok (record c { message = message_of lines })

unfoldable pub parse_commit : Bytes → Result Error CommitData
unfolding parse_lines parse_field
parse_commit data_bytes =
    parse_lines parse_field empty_commit (split_newlines data_bytes) >>= with_message

unfoldable pub read_commit : (Bytes → Hash) → Store → Hash → Result Error CommitData
unfolding parse_commit
read_commit compute store h = do
  (content, header) ← read_content compute store h
  if not (header.object_type == type_commit)
      then err (unexpected_type header.object_type type_commit)
      else parse_commit content
