-- ===== src/Object/Tag/RoundTrip.antt =====
-- internal/object/tag.go: `ParseTag` on what `SerializeTag` writes.
use minus_sync.Prelude.{
  ◌<◌, false, some, List, [], ◌∷◌, ◌++◌, Bytes, All, codes, bytes_equal, if◌then◌else◌, ok, pos,
  IsInt64, format_int, Lacks, trim_space, split_newlines, split_newlines-newline, ◌≡◌, refl, sym,
  ap, ◌∙◌, arith, Bool-cases, inl, inr, bytes_equal_iff,
}
use minus_sync.Hash.{Hash, IsHash, hex, from_hex-hex, is_zero}
use minus_sync.Object.{ObjectType, type_string}
use minus_sync.Object.Header.{type_string-IsWord, type_name_to_type-type_string}
use minus_sync.Object.Fields.{
  key_line, parse_lines, message_of, split_newlines-write_lines, parse_lines-key, parse_lines-empty,
  message_of-lines, key_line-Lacks,
}
use minus_sync.Object.Person.{format_person}
use minus_sync.Object.Tag.Time.{set_tagger-text}
use minus_sync.Object.Commit.Lines.{hex-Lacks, word-Lacks, format_person-Lacks}
use minus_sync.Object.Tag.{
  TagData, no_zone, tagger_text, tag_lines, serialize_tag, empty_tag, set_tagger, parse_tag_field,
  parse_tag,
}

parse_object_field :
    (t : TagData) (h : Hash)
    → IsHash h
    → parse_tag_field t (codes "object") (hex h) ≡ ok (record t { object = h })
unfolding parse_tag_field bytes_equal
parse_object_field t h valid = rw (from_hex-hex h valid) refl

parse_type_field :
    (t : TagData) (k : ObjectType)
    → k < 4
    → parse_tag_field t (codes "type") (type_string k) ≡ ok (record t { object_type = k })
unfolding parse_tag_field bytes_equal
parse_type_field t k known = rw (type_name_to_type-type_string k known) refl

parse_name_field :
    (t : TagData) (name : Bytes)
    → parse_tag_field t (codes "tag") name ≡ ok (record t { name = name })
unfolding parse_tag_field bytes_equal
parse_name_field t name = refl

parse_tagger_field :
    (t : TagData) (text : Bytes) {next : TagData}
    → set_tagger t text ≡ next
    → parse_tag_field t (codes "tagger") text ≡ ok next
unfolding parse_tag_field bytes_equal
parse_tagger_field t text e = ap ok e

-- What the text of a tag can hold.
pub record IsTag (t : TagData) : Type 0 where
  pub object : IsHash t.object
  pub named : is_zero t.object ≡ false
  pub known : t.object_type < 4
  pub name : Lacks 10 t.name
  pub tagger : Lacks 10 t.tagger
  pub tagger_mark : Lacks 60 t.tagger
  pub tagger_trimmed : trim_space t.tagger ≡ t.tagger
  pub email : Lacks 10 t.email
  pub email_mark : Lacks 62 t.email
  pub timestamp : IsInt64 t.timestamp
  pub message_trimmed : trim_space t.message ≡ t.message

-- The tag that the lines in front of the message give: all but the time.
abbrev without_time : TagData → Bytes → TagData
without_time t message = record t { timestamp = pos 0; message = message }

parse_lines-tag_lines :
    (t : TagData) (lines : List Bytes)
    → IsTag t
    → parse_lines parse_tag_field empty_tag (tag_lines t ++ [] ∷ lines)
      ≡ ok (without_time t [], some lines)
unfolding tag_lines
parse_lines-tag_lines t lines h =
    let rest = [] ∷ lines in
    let at_object : TagData = record empty_tag { object = t.object } in
    let at_type : TagData = record at_object { object_type = t.object_type } in
    let at_name : TagData = record at_type { name = t.name } in
    let tagger : List Bytes = key_line (codes "tagger") (tagger_text t) ∷ rest in
    let name : List Bytes = key_line (codes "tag") t.name ∷ tagger in
    parse_lines-key parse_tag_field empty_tag 111 (codes "bject") (hex t.object)
      (key_line (codes "type") (type_string t.object_type) ∷ name) (omega arith)
      (parse_object_field empty_tag t.object h.object)
    ∙ parse_lines-key parse_tag_field at_object 116 (codes "ype") (type_string t.object_type) name
        (omega arith) (parse_type_field at_object t.object_type h.known)
    ∙ parse_lines-key parse_tag_field at_type 116 (codes "ag") t.name tagger (omega arith)
        (parse_name_field at_type t.name)
    ∙ parse_lines-key parse_tag_field at_name 116 (codes "agger") (tagger_text t) rest (omega arith)
        (parse_tagger_field at_name (tagger_text t) (
          unfold tagger_text in
          set_tagger-text at_name t.tagger t.email t.timestamp h.tagger_trimmed h.tagger_mark
            h.email_mark h.timestamp))
    ∙ parse_lines-empty parse_tag_field (without_time t []) lines

tag_lines-Lacks : (t : TagData) → IsTag t → All (Lacks 10) (tag_lines t)
unfolding tag_lines tagger_text
tag_lines-Lacks t h =
    let time = format_int t.timestamp in
    (
      key_line-Lacks (codes "object") (hex t.object) (omega arith) (hex-Lacks t.object),
      (
        key_line-Lacks (codes "type") (type_string t.object_type) (omega arith)
            (word-Lacks (type_string t.object_type) (type_string-IsWord t.object_type h.known)),
        (
          key_line-Lacks (codes "tag") t.name (omega arith) h.name,
          (
            key_line-Lacks (codes "tagger") (format_person t.tagger t.email t.timestamp no_zone)
                (omega arith)
                (format_person-Lacks t.tagger t.email t.timestamp no_zone h.tagger h.email
                  (omega arith)),
            tt,
          ),
        ),
      ),
    )

message_end :
    (t : TagData)
    → IsTag t
    → (lines : List Bytes) × (split_newlines
          (if bytes_equal t.message [] then [] else 10 ∷ (t.message ++ 10 ∷ []))
        ≡ [] ∷ lines)
      × (message_of (some lines) ≡ t.message)
message_end t h = elim (Bool-cases (bytes_equal t.message [])) [
  | inl empty ↦
      ([], rw empty (unfold split_newlines in refl), sym ((bytes_equal_iff t.message []).0 empty))
  | inr present ↦ (
    split_newlines (t.message ++ 10 ∷ []),
    rw present (split_newlines-newline (t.message ++ 10 ∷ [])),
    message_of-lines t.message h.message_trimmed,
  )
]

-- `ParseTag` of what `SerializeTag` wrote returns the tag with its object, type, name, tagger,
-- address and message, and with the time 0 whatever the time was, if the tag satisfies `IsTag`.
pub parse_tag-serialize_tag :
    (t : TagData) → IsTag t → parse_tag (serialize_tag t) ≡ ok (record t { timestamp = pos 0 })
unfolding parse_tag serialize_tag
parse_tag-serialize_tag t h =
    let (lines, e, message) = message_end t h in
    rw
      (
        split_newlines-write_lines (tag_lines t)
            (if bytes_equal t.message [] then [] else 10 ∷ (t.message ++ 10 ∷ []))
            (tag_lines-Lacks t h),
        e,
        parse_lines-tag_lines t lines h,
        h.named,
        message,
      )
      refl
