-- ===== src/Object/Commit/RoundTrip.antt =====
-- internal/object/commit.go: `ParseCommit` on what `SerializeCommit` writes.
use minus_sync.Prelude.{
  ℕ, ◌^◌, ◌<◌, Bool, true, false, some, List, [], ◌∷◌, ◌++◌, Bytes, All, map, append_assoc,
  append-nil, codes, bytes_equal, ok, ℤ, pos, negsuc, negate, format_uint, parse_uint-format_uint,
  split_newlines, split_newlines-newline, ◌≡◌, refl, sym, ap, ◌∙◌, arith, ok_injective, ◌≢◌,
  if◌then◌else◌,
}
use minus_sync.Hash.{Hash, IsHash, hex, from_hex-hex}
use minus_sync.Object.Person.{Person, parse_person_line_full, is_negative, magnitude, format_tz}
use minus_sync.Object.Person.Zone.{format_tz-IsZone}
use minus_sync.Object.Person.RoundTrip.{parse_person_line_full-format_person}
use minus_sync.Object.Fields.{
  key_line, parse_lines, split_newlines-write_lines, parse_lines-key, parse_lines-empty,
  message_of-lines,
}
use minus_sync.Object.Commit.Lines.{IsCommit, magnitude_of_absolute, tail_lines, header_lines-Lacks}
use minus_sync.Object.Commit.{
  CommitData, parent_line, absolute_offset, author_text, header_lines, serialize_commit,
  empty_commit, set_author, set_committer, is_zero_time, parse_field, parse_commit,
}

parse_tree_field :
    (c : CommitData) (h : Hash)
    → IsHash h
    → parse_field c (codes "tree") (hex h) ≡ ok (record c { tree = h })
unfolding parse_field bytes_equal
parse_tree_field c h valid = rw (from_hex-hex h valid) refl

parse_parent_field :
    (c : CommitData) (h : Hash)
    → IsHash h
    → parse_field c (codes "parent") (hex h) ≡ ok (record c { parents = c.parents ++ h ∷ [] })
unfolding parse_field bytes_equal
parse_parent_field c h valid = rw (from_hex-hex h valid) refl

parse_sequence_field :
    (c : CommitData) (n : ℕ)
    → n < 2 ^ 64
    → parse_field c (codes "sequence") (format_uint 10 n) ≡ ok (record c { sequence = n })
unfolding parse_field bytes_equal
parse_sequence_field c n fits = rw (parse_uint-format_uint (2 ^ 64) n fits) refl

if_same : {A : Type 0} (b : Bool) (x : A) → (if b then x else x) ≡ x
if_same true x = refl
if_same false x = refl

-- The committer's line is the author's, so it changes nothing.
set_committer-set_author :
    (c : CommitData) (p : Person) → set_committer (set_author c p) p ≡ set_author c p
unfolding set_committer
set_committer-set_author c p =
    rw
      (
        if_same (bytes_equal p.name []) p.name,
        if_same (bytes_equal p.email []) p.email,
        if_same (is_zero_time p.timestamp) p.timestamp,
        if_same (is_zero_time p.timestamp) p.tz_offset,
      )
      refl

parse_author_field :
    (c : CommitData) (text : Bytes) {p : Person}
    → parse_person_line_full text ≡ p
    → parse_field c (codes "author") text ≡ ok (set_author c p)
unfolding parse_field bytes_equal
parse_author_field c text e = rw e refl

parse_committer_field :
    (c : CommitData) (text : Bytes) {p : Person}
    → parse_person_line_full text ≡ p
    → parse_field (set_author c p) (codes "committer") text ≡ ok (set_author c p)
unfolding parse_field bytes_equal
parse_committer_field c text {p} e = rw e (ap ok (set_committer-set_author c p))

parse_hostname_field :
    (c : CommitData) (text : Bytes)
    → parse_field c (codes "hostname") text ≡ ok (record c { hostname = text })
unfolding parse_field bytes_equal
parse_hostname_field c text = refl

parse_lines-parents :
    (c : CommitData) (parents : List Hash) (lines : List Bytes)
    → All IsHash parents
    → parse_lines parse_field c (map parent_line parents ++ lines)
      ≡ parse_lines parse_field (record c { parents = c.parents ++ parents }) lines
unfolding parent_line
parse_lines-parents c [] lines valid = rw (append-nil c.parents) refl
parse_lines-parents c (h ∷ parents) lines (here, valid) =
    parse_lines-key parse_field c 112 (codes "arent") (hex h) (map parent_line parents ++ lines)
      (omega arith) (parse_parent_field c h here)
    ∙ parse_lines-parents (record c { parents = c.parents ++ h ∷ [] }) parents lines valid
    ∙ rw (append_assoc c.parents (h ∷ []) parents) refl

-- What the lines of the author and the committer hold.
abbrev person_of : CommitData → Person
person_of c = record {
  name = c.author;
  email = c.email;
  timestamp = c.timestamp;
  tz_offset = c.tz_offset;
}

author_text-parsed :
    (c : CommitData) → IsCommit c → parse_person_line_full (author_text c) ≡ person_of c
unfolding author_text absolute_offset
author_text-parsed c h = rw (magnitude_of_absolute c.tz_offset) (
    parse_person_line_full-format_person c.author c.email c.timestamp c.tz_offset
      (format_tz (is_negative c.tz_offset) (magnitude c.tz_offset)) h.author_trimmed h.author_mark
      h.email_mark h.timestamp (format_tz-IsZone c.tz_offset h.tz_offset))

-- The commit without its message, which the header lines hold.
abbrev without_message : CommitData → CommitData
without_message c = record c { message = [] }

parse_lines-header_lines :
    (c : CommitData) (lines : List Bytes)
    → IsCommit c
    → parse_lines parse_field empty_commit (header_lines c ++ [] ∷ lines)
      ≡ ok (without_message c, some lines)
unfolding header_lines
parse_lines-header_lines c lines h =
    let rest = [] ∷ lines in
    let person = author_text c in
    let at_tree : CommitData = record empty_commit { tree = c.tree } in
    let at_parents : CommitData = record at_tree { parents = c.parents } in
    let at_sequence : CommitData = record at_parents { sequence = c.sequence } in
    let at_person : CommitData = set_author at_sequence (person_of c) in
    let host : List Bytes = key_line (codes "hostname") c.hostname ∷ rest in
    let committer : List Bytes = key_line (codes "committer") person ∷ host in
    let author : List Bytes = key_line (codes "author") person ∷ committer in
    let sequence : List Bytes = key_line (codes "sequence") (format_uint 10 c.sequence) ∷ author in
    parse_lines-key parse_field empty_commit 116 (codes "ree") (hex c.tree)
      ((map parent_line c.parents ++ tail_lines c) ++ rest) (omega arith)
      (parse_tree_field empty_commit c.tree h.tree)
    ∙ ap (parse_lines parse_field at_tree)
        (append_assoc (map parent_line c.parents) (tail_lines c) rest)
    ∙ parse_lines-parents at_tree c.parents sequence h.parents
    ∙ parse_lines-key parse_field at_parents 115 (codes "equence") (format_uint 10 c.sequence)
        author (omega arith) (parse_sequence_field at_parents c.sequence h.sequence)
    ∙ parse_lines-key parse_field at_sequence 97 (codes "uthor") person committer (omega arith)
        (parse_author_field at_sequence person (author_text-parsed c h))
    ∙ parse_lines-key parse_field at_person 99 (codes "ommitter") person host (omega arith)
        (parse_committer_field at_sequence person (author_text-parsed c h))
    ∙ parse_lines-key parse_field at_person 104 (codes "ostname") c.hostname rest (omega arith)
        (parse_hostname_field at_person c.hostname)
    ∙ parse_lines-empty parse_field (without_message c) lines

-- `ParseCommit` of what `SerializeCommit` wrote returns the commit that was serialized, with its
-- parents in their order and its offset with its sign, if the commit satisfies `IsCommit`.
pub parse_commit-serialize_commit :
    (c : CommitData) → IsCommit c → parse_commit (serialize_commit c).0 ≡ ok c
unfolding parse_commit serialize_commit
parse_commit-serialize_commit c h =
    let end = c.message ++ 10 ∷ [] in
    rw
      (
        split_newlines-write_lines (header_lines c) (10 ∷ end) (header_lines-Lacks c h),
        split_newlines-newline end,
        parse_lines-header_lines c (split_newlines end) h,
        h.named,
        message_of-lines c.message h.message_trimmed,
      )
      refl

absolute_offset-IsCommit : (c : CommitData) → IsCommit c → IsCommit (absolute_offset c)
unfolding absolute_offset
absolute_offset-IsCommit c h = record {
  tree = h.tree;
  named = h.named;
  parents = h.parents;
  sequence = h.sequence;
  author = h.author;
  author_mark = h.author_mark;
  author_trimmed = h.author_trimmed;
  email = h.email;
  email_mark = h.email_mark;
  hostname = h.hostname;
  timestamp = h.timestamp;
  tz_offset = rw (magnitude_of_absolute c.tz_offset) h.tz_offset;
  message_trimmed = h.message_trimmed;
}

is_negative-negate : (z : ℤ) → is_negative (if is_negative z then negate z else z) ≡ false
unfolding is_negative negate
is_negative-negate (pos n) = refl
is_negative-negate (negsuc n) = refl

-- A commit with a negative offset comes out of `SerializeCommit` with the opposite offset, so that
-- the second call writes other bytes than the first one, if the commit satisfies `IsCommit`.
pub serialize_commit-twice :
    (c : CommitData)
    → IsCommit c
    → is_negative c.tz_offset ≡ true
    → (serialize_commit (serialize_commit c).1).0 ≢ (serialize_commit c).0
serialize_commit-twice c h negative e =
    let second : CommitData = absolute_offset c in
    let same_text : (serialize_commit second).0 ≡ (serialize_commit c).0 =
      unfold serialize_commit in e in
    let parsed : parse_commit (serialize_commit c).0 ≡ ok second =
      sym (ap parse_commit same_text)
      ∙ parse_commit-serialize_commit second (absolute_offset-IsCommit c h) in
    let same : second ≡ c = ok_injective (sym parsed ∙ parse_commit-serialize_commit c h) in
    let positive : is_negative second.tz_offset ≡ false =
      unfold absolute_offset in is_negative-negate c.tz_offset in
    let turned : is_negative second.tz_offset ≡ true =
      ap (λ (x : CommitData). is_negative x.tz_offset) same ∙ negative in
    cc
