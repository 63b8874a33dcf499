-- ===== src/Object/Commit/Lines.antt =====
-- internal/object/commit.go: the lines of a commit, none of which holds a newline.
use minus_sync.Prelude.{
  ◌^◌, ◌<◌, false, List, [], ◌∷◌, ◌++◌, Bytes, All, All-append, map, codes, ℤ, pos, negsuc, negate,
  IsInt64, format_uint, Lacks, trim_space, is_space, ◌≡◌, refl, sym, arith, subst, IsWord,
  IsVisible, format_uint-AreDigits, format_int, if◌then◌else◌,
}
use minus_sync.Object.Header.{Lacks-append, Lacks-AreDigits}
use minus_sync.Hash.{Hash, IsHash, hex, encode_hex, hex_digit, is_zero}
use minus_sync.Object.Person.{is_negative, magnitude, format_tz, format_person}
use minus_sync.Object.Person.Zone.{IsOffset, format_tz-IsZone}
use minus_sync.Object.Person.RoundTrip.{format_int-IsVisible}
use minus_sync.Object.Fields.{key_line, key_line-Lacks}
use minus_sync.Object.Commit.{CommitData, parent_line, absolute_offset, author_text, header_lines}

-- What the text can hold: no newline outside the message, no `<` in the name and no `>` in the
-- address, no space around the name and the message.
pub record IsCommit (c : CommitData) : Type 0 where
  pub tree : IsHash c.tree
  pub named : is_zero c.tree ≡ false
  pub parents : All IsHash c.parents
  pub sequence : c.sequence < 2 ^ 64
  pub author : Lacks 10 c.author
  pub author_mark : Lacks 60 c.author
  pub author_trimmed : trim_space c.author ≡ c.author
  pub email : Lacks 10 c.email
  pub email_mark : Lacks 62 c.email
  pub hostname : Lacks 10 c.hostname
  pub timestamp : IsInt64 c.timestamp
  pub tz_offset : IsOffset c.tz_offset
  pub message_trimmed : trim_space c.message ≡ c.message

pub magnitude_of_absolute :
    (z : ℤ) → magnitude (if is_negative z then negate z else z) ≡ magnitude z
unfolding is_negative negate
magnitude_of_absolute (pos n) = refl
magnitude_of_absolute (negsuc n) = refl

-- The lines behind the parents.
abbrev pub tail_lines : CommitData → List Bytes
tail_lines c =
    key_line (codes "sequence") (format_uint 10 c.sequence)
    ∷ key_line (codes "author") (author_text c)
    ∷ key_line (codes "committer") (author_text c)
    ∷ key_line (codes "hostname") c.hostname
    ∷ []

pub hex-Lacks : (h : Hash) → Lacks 10 (hex h)
unfolding hex encode_hex hex_digit
hex-Lacks [] = tt
hex-Lacks (b ∷ h) = ((λ e. ground arith), ((λ e. ground arith), hex-Lacks h))

visible-Lacks : (text : Bytes) → IsVisible text → Lacks 10 text
unfolding is_space
visible-Lacks [] visible = tt
visible-Lacks (c ∷ text) (here, visible) = ((λ e. ground arith), visible-Lacks text visible)

parent_lines-Lacks : (parents : List Hash) → All (Lacks 10) (map parent_line parents)
unfolding parent_line
parent_lines-Lacks [] = tt
parent_lines-Lacks (h ∷ parents) = (
  key_line-Lacks (codes "parent") (hex h) (omega arith) (hex-Lacks h),
  parent_lines-Lacks parents,
)

pub word-Lacks : (text : Bytes) → IsWord text → Lacks 10 text
word-Lacks [] word = tt
word-Lacks (c ∷ text) ((visible, line), word) = (line, word-Lacks text word)

pub format_person-Lacks :
    (name email : Bytes) (time : ℤ) (zone : Bytes)
    → Lacks 10 name
    → Lacks 10 email
    → Lacks 10 zone
    → Lacks 10 (format_person name email time zone)
unfolding format_person
format_person-Lacks name email time zone h k z =
    let text = format_int time in
    let after = text ++ 32 ∷ zone in
    let after_lacks =
      Lacks-append 10 text (32 ∷ zone) (visible-Lacks text (format_int-IsVisible time))
        ((λ e. omega arith), z) in
    Lacks-append 10 (name ++ 32 ∷ []) (60 ∷ (email ++ 62 ∷ 32 ∷ after))
      (Lacks-append 10 name (32 ∷ []) h (omega arith))
      (
        (λ e. omega arith),
        Lacks-append 10 email (62 ∷ 32 ∷ after) k
            ((λ e. omega arith), ((λ e. omega arith), after_lacks)),
      )

author_text-Lacks : (c : CommitData) → IsCommit c → Lacks 10 (author_text c)
unfolding author_text absolute_offset
author_text-Lacks c h =
    let zone = format_tz (is_negative c.tz_offset) (magnitude c.tz_offset) in
    let z = format_tz-IsZone c.tz_offset h.tz_offset in
    rw (magnitude_of_absolute c.tz_offset) (
      format_person-Lacks c.author c.email c.timestamp zone h.author h.email (
        subst (λ text. Lacks 10 text) (sym z.shape)
          (visible-Lacks (z.sign ∷ (z.middle ++ z.last ∷ [])) z.visible)))

pub header_lines-Lacks : (c : CommitData) → IsCommit c → All (Lacks 10) (header_lines c)
unfolding header_lines
header_lines-Lacks c h =
    let sequence =
      Lacks-AreDigits 10 10 (format_uint 10 c.sequence) (omega arith)
        (format_uint-AreDigits 10 c.sequence (omega arith)) in
    let text = author_text-Lacks c h in
    (
      key_line-Lacks (codes "tree") (hex c.tree) (omega arith) (hex-Lacks c.tree),
      All-append (Lacks 10) (map parent_line c.parents) (tail_lines c)
          (parent_lines-Lacks c.parents)
          (
            key_line-Lacks (codes "sequence") (format_uint 10 c.sequence) (omega arith) sequence,
            (
              key_line-Lacks (codes "author") (author_text c) (omega arith) text,
              (
                key_line-Lacks (codes "committer") (author_text c) (omega arith) text,
                (key_line-Lacks (codes "hostname") c.hostname (omega arith) h.hostname, tt),
              ),
            ),
          ),
    )
