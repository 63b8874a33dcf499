-- ===== src/Object/Tag.antt =====
-- internal/object/tag.go: annotated tags as text.
pub mod Time
pub mod RoundTrip
use minus_sync.Prelude.{
  ℕ, Bool, true, false, not, Option, none, some, List, [], ◌∷◌, ◌++◌, Bytes, codes, bytes_equal,
  if◌then◌else◌, ◌==◌, Result, ok, err, or_err, map_err, ◌>>=◌, ℤ, pos, format_int, parse_int,
  trim_space, split_newlines,
}
use minus_sync.Hash.{Hash, hex, from_hex, is_zero, zero_hash}
use minus_sync.Object.{
  ObjectType, type_blob, type_tag, type_string, type_name_to_type, Error, unknown_type,
  unexpected_type, invalid_hash, missing_entry,
}
use minus_sync.Object.Header.{Header}
use minus_sync.Object.Store.{Store, read_content}
use minus_sync.Object.Fields.{key_line, write_lines, parse_lines, message_of}
use minus_sync.Object.Person.{parse_person_line, format_person}

pub record TagData : Type 0 where
  pub object : Hash
  pub object_type : ObjectType
  pub name : Bytes
  pub tagger : Bytes
  pub email : Bytes
  pub timestamp : ℤ
  pub message : Bytes

-- `NewTagData`; the clock gives the time.
unfoldable pub new_tag_data : ℤ → Hash → ObjectType → Bytes → Bytes → Bytes → Bytes → TagData
new_tag_data now object object_type name tagger email message = record {
  object = object;
  object_type = object_type;
  name = name;
  tagger = tagger;
  email = email;
  timestamp = now;
  message = message;
}

abbrev pub no_zone : Bytes
no_zone = codes "+0000"

unfoldable pub tagger_text : TagData → Bytes
unfolding format_person
tagger_text t = format_person t.tagger t.email t.timestamp no_zone

unfoldable pub tag_lines : TagData → List Bytes
unfolding tagger_text
tag_lines t =
    key_line (codes "object") (hex t.object)
    ∷ key_line (codes "type") (type_string t.object_type)
    ∷ key_line (codes "tag") t.name
    ∷ key_line (codes "tagger") (tagger_text t)
    ∷ []

unfoldable pub serialize_tag : TagData → Bytes
unfolding tag_lines
serialize_tag t =
    write_lines (tag_lines t) (if bytes_equal t.message [] then [] else 10 ∷ (t.message ++ 10 ∷ []))

abbrev pub empty_tag : TagData
empty_tag = record {
  object = zero_hash;
  object_type = type_blob;
  name = [];
  tagger = [];
  email = [];
  timestamp = pos 0;
  message = [];
}

-- What stands behind the last `>`.
abbrev pub later_or : Bool → Bytes → Option Bytes → Option Bytes
later_or here rest (some later) = some later
later_or true rest none = some rest
later_or false rest none = none

unfoldable pub behind_last : ℕ → Bytes → Option Bytes
behind_last c [] = none
behind_last c (b ∷ bytes) = later_or (b == c) bytes (behind_last c bytes)

-- A time that is no number is ignored.
abbrev pub time_or : ℤ → Option ℤ → ℤ
time_or kept none = kept
time_or kept (some time) = time

-- `GetTimestamp`.
unfoldable pub get_timestamp : Bytes → Option ℤ
get_timestamp s = parse_int s

abbrev pub tag_time : ℤ → Option Bytes → ℤ
unfolding get_timestamp
tag_time kept none = kept
tag_time kept (some rest) = time_or kept (get_timestamp (trim_space rest))

unfoldable pub set_tagger : TagData → Bytes → TagData
unfolding tag_time behind_last
set_tagger t value =
    let person = parse_person_line value in
    record t {
      tagger = person.0;
      email = person.1;
      timestamp = tag_time t.timestamp (behind_last 62 value);
    }

unfoldable pub parse_tag_field : TagData → Bytes → Bytes → Result Error TagData
unfolding set_tagger
parse_tag_field t key value =
    if bytes_equal key (codes "object")
    then (map_err invalid_hash (from_hex value) >>= λ h. ok (record t { object = h }))
    else if bytes_equal key (codes "type")
    then (or_err (unknown_type value) (type_name_to_type value) >>= λ object_type.
        ok (record t { object_type = object_type }))
    else if bytes_equal key (codes "tag")
    then ok (record t { name = value })
    else if bytes_equal key (codes "tagger")
    then ok (set_tagger t value)
    else ok t

abbrev pub with_tag_message : TagData × Option (List Bytes) → Result Error TagData
with_tag_message (t, lines) =
    if is_zero t.object then err missing_entry else ok (record t { message = message_of lines })

unfoldable pub parse_tag : Bytes → Result Error TagData
unfolding parse_tag_field
parse_tag data_bytes =
    parse_lines parse_tag_field empty_tag (split_newlines data_bytes) >>= with_tag_message

unfoldable pub read_tag : (Bytes → Hash) → Store → Hash → Result Error TagData
unfolding parse_tag
read_tag compute store h = do
  (content, header) ← read_content compute store h
  if not (header.object_type == type_tag)
      then err (unexpected_type header.object_type type_tag)
      else parse_tag content
