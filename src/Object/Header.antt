-- ===== src/Object/Header.antt =====
-- internal/object/object.go: `ParseHeader` and `Format`, the header "<type> <size>\0" of an
-- object. `Sscanf` is modelled on ASCII text.
use minus_sync.Prelude.{
  ℕ, zero, suc, ◌+◌, ◌^◌, ◌<◌, some, [], ◌∷◌, ◌++◌, Bytes, length, drop, bytes_equal, Result, ok,
  or_err, ◌>>=◌, split_at_byte, split_at_byte-append, Lacks, format_uint, is_digit, scan_word,
  scan_uint, skip_space, is_space, AreDigits, IsWord, scan_word-IsWord, scan_uint-format_uint,
  format_uint-AreDigits, append-nil, length-append, ◌≡◌, refl, ap, ◌∙◌, arith,
}
use minus_sync.Object.{
  ObjectType, type_blob, type_tree, type_commit, type_tag, type_string, type_name_to_type, Error,
  missing_null, malformed_header, unknown_type,
}

pub record Header : Type 0 where
  pub object_type : ObjectType
  pub size : ℕ

-- The header and the offset of the content.
unfoldable pub parse_header : Bytes → Result Error (Header × ℕ)
parse_header data_bytes = do
  (header, content) ← or_err missing_null (split_at_byte 0 data_bytes)
  (type_name, text) ← or_err malformed_header (scan_word header)
  (size, _) ← or_err malformed_header (scan_uint 10 (2 ^ 64) text)
  t ← or_err (unknown_type type_name) (type_name_to_type type_name)
  ok (record { object_type = t; size = size }, length header + 1)

abbrev pub header_text : ObjectType → ℕ → Bytes
header_text t size = type_string t ++ 32 ∷ format_uint 10 size

unfoldable pub format : ObjectType → Bytes → Bytes
format t content = header_text t (length content) ++ 0 ∷ content

pub Lacks-append : (c : ℕ) (xs ys : Bytes) → Lacks c xs → Lacks c ys → Lacks c (xs ++ ys)
Lacks-append c [] ys h k = k
Lacks-append c (x ∷ xs) ys (ne, h) k = (ne, Lacks-append c xs ys h k)

-- The text of a number holds no byte below the digits.
pub Lacks-AreDigits : (base c : ℕ) (xs : Bytes) → c < 48 → AreDigits base xs → Lacks c xs
unfolding is_digit
Lacks-AreDigits base c [] h d = tt
Lacks-AreDigits base c (x ∷ xs) h (digit, d) = ((λ e. ground arith), Lacks-AreDigits base c xs h d)

type_cases : (P : ObjectType → Type 0) → P 0 → P 1 → P 2 → P 3 → (t : ℕ) → t < 4 → P t
type_cases P a b c d zero h = a
type_cases P a b c d (suc zero) h = b
type_cases P a b c d (suc (suc zero)) h = c
type_cases P a b c d (suc (suc (suc zero))) h = d
type_cases P a b c d (suc (suc (suc (suc t)))) h = absurd (omega arith)

-- What the header needs of the name of a type.
record IsName (t : ObjectType) : Type 0 where
  word : IsWord (type_string t)
  nonempty : 0 < length (type_string t)
  lacks : Lacks 0 (type_string t)
  known : type_name_to_type (type_string t) ≡ some t

named_blob : IsName type_blob
unfolding type_string type_name_to_type bytes_equal is_space
named_blob = record {
  word = (
    (refl, λ e. omega arith),
    ((refl, λ e. omega arith), ((refl, λ e. omega arith), ((refl, λ e. omega arith), tt))),
  );
  nonempty = omega arith;
  lacks =
      ((λ e. omega arith), ((λ e. omega arith), ((λ e. omega arith), ((λ e. omega arith), tt))));
  known = refl;
}

named_tree : IsName type_tree
unfolding type_string type_name_to_type bytes_equal is_space
named_tree = record {
  word = (
    (refl, λ e. omega arith),
    ((refl, λ e. omega arith), ((refl, λ e. omega arith), ((refl, λ e. omega arith), tt))),
  );
  nonempty = omega arith;
  lacks =
      ((λ e. omega arith), ((λ e. omega arith), ((λ e. omega arith), ((λ e. omega arith), tt))));
  known = refl;
}

named_commit : IsName type_commit
unfolding type_string type_name_to_type bytes_equal is_space
named_commit = record {
  word = (
    (refl, λ e. omega arith),
    (
      (refl, λ e. omega arith),
      (
        (refl, λ e. omega arith),
        ((refl, λ e. omega arith), ((refl, λ e. omega arith), ((refl, λ e. omega arith), tt))),
      ),
    ),
  );
  nonempty = omega arith;
  lacks = (
    (λ e. omega arith),
    (
      (λ e. omega arith),
      ((λ e. omega arith), ((λ e. omega arith), ((λ e. omega arith), ((λ e. omega arith), tt)))),
    ),
  );
  known = refl;
}

named_tag : IsName type_tag
unfolding type_string type_name_to_type bytes_equal is_space
named_tag = record {
  word = ((refl, λ e. omega arith), ((refl, λ e. omega arith), ((refl, λ e. omega arith), tt)));
  nonempty = omega arith;
  lacks = ((λ e. omega arith), ((λ e. omega arith), ((λ e. omega arith), tt)));
  known = refl;
}

type_string-IsName : (t : ObjectType) → t < 4 → IsName t
type_string-IsName t h = type_cases IsName named_blob named_tree named_commit named_tag t h

pub type_string-IsWord : (t : ObjectType) → t < 4 → IsWord (type_string t)
type_string-IsWord t h = (type_string-IsName t h).word

pub type_name_to_type-type_string :
    (t : ObjectType) → t < 4 → type_name_to_type (type_string t) ≡ some t
type_name_to_type-type_string t h = (type_string-IsName t h).known

header_text-Lacks : (t : ObjectType) (size : ℕ) → t < 4 → Lacks 0 (header_text t size)
header_text-Lacks t size h =
    Lacks-append 0 (type_string t) (32 ∷ format_uint 10 size) (type_string-IsName t h).lacks (
      (λ e. omega arith),
      Lacks-AreDigits 10 0 (format_uint 10 size) (omega arith)
          (format_uint-AreDigits 10 size (omega arith)),
    )

scan_uint-space :
    (base limit : ℕ) (text : Bytes) → scan_uint base limit (32 ∷ text) ≡ scan_uint base limit text
unfolding scan_uint skip_space is_space
scan_uint-space base limit text = refl

header_size :
    (size : ℕ) → size < 2 ^ 64 → scan_uint 10 (2 ^ 64) (32 ∷ format_uint 10 size) ≡ some (size, [])
header_size size fits =
    scan_uint-space 10 (2 ^ 64) (format_uint 10 size)
    ∙ rw append-nil at
        (scan_uint-format_uint 10 (2 ^ 64) size [] (omega arith) (omega arith) fits tt)

parse_header-text :
    (header type_name text content : Bytes) {t size : ℕ}
    → Lacks 0 header
    → scan_word header ≡ some (type_name, text)
    → scan_uint 10 (2 ^ 64) text ≡ some (size, [])
    → type_name_to_type type_name ≡ some t
    → parse_header (header ++ 0 ∷ content)
      ≡ ok (record { object_type = t; size = size }, length header + 1)
unfolding parse_header
parse_header-text header type_name text content lacks word number known =
    rw (split_at_byte-append 0 header content lacks, word, number, known) refl

drop-behind : (xs ys : Bytes) (c : ℕ) → drop (length xs + 1) (xs ++ c ∷ ys) ≡ ys
drop-behind [] ys c = refl
drop-behind (x ∷ xs) ys c =
    let shift : suc (length xs) + 1 ≡ suc (length xs + 1) = omega arith in
    ap (λ n. drop n (x ∷ (xs ++ c ∷ ys))) shift ∙ drop-behind xs ys c

-- `ParseHeader` of a formatted object returns its type, the length of its content, and the
-- offset at which the content stands, if the type is one of the four and the length fits 64 bits.
pub parse_header-format :
    (t : ObjectType) (content : Bytes)
    → t < 4
    → length content < 2 ^ 64
    → (offset : ℕ) × (parse_header (format t content)
        ≡ ok (record { object_type = t; size = length content }, offset))
      × (drop offset (format t content) ≡ content)
      × (offset + length content ≡ length (format t content))
unfolding format
parse_header-format t content h fits =
    let name = type_string-IsName t h in
    let header = header_text t (length content) in
    (
      length header + 1,
      parse_header-text header (type_string t) (32 ∷ format_uint 10 (length content)) content
          (header_text-Lacks t (length content) h)
          (scan_word-IsWord (type_string t) (format_uint 10 (length content)) name.word
            name.nonempty)
          (header_size (length content) fits) name.known,
      drop-behind header content 0,
      omega (arith, length-append header (0 ∷ content)),
    )
