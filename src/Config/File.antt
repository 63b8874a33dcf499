-- ===== src/Config/File.antt =====
-- internal/config/config.go: `Load`. Storing into a map that is missing and a slice out
-- of range are panics.
use mathlib.Core.Bool.{true≢false}
use minus_sync.Prelude.{
  ℕ, ◌-◌, ◌≤◌, arith, Bool, true, false, Option, none, some, List, [], ◌∷◌, Bytes, length, take,
  drop, codes, bytes_equal, bytes_equal_iff, has_prefix, has_suffix, trim_space, split_at_byte,
  split_newlines, without_last_empty, if◌then◌else◌, leb, ◌||◌, ◌&&◌, Result, ok, err, panic, ◌>>=◌,
  Bool-cases, inl, inr, ◌≡◌, ◌≢◌, sym, refl, ◌∙◌,
}
use minus_sync.Ignore.File.{Opened, absent, unreadable, contents, max_token_size, drop_cr}
use minus_sync.Config.{Values, Config, lookup, assign}
use minus_sync.Config.Values.{lookup-assign}

pub data Error : Type 0 where
  open_failed token_too_long : Error

pub record Reading : Type 0 where
  pub current : Bytes
  pub sections : List (Bytes × Values)

abbrev pub opened_section : Option Values → Bytes → List (Bytes × Values) → List (Bytes × Values)
opened_section none section sections = assign section [] sections
opened_section (some values) section sections = sections

abbrev pub open_section : Bytes → Reading → Reading
open_section section r = record {
  current = section;
  sections = opened_section (lookup section r.sections) section r.sections;
}

unfoldable pub is_quoted_by : ℕ → Bytes → Bool
is_quoted_by quote value =
    leb 2 (length value) && (has_prefix (quote ∷ []) value && has_suffix (quote ∷ []) value)

-- The slice `s[1 : len(s)-1]`; its bounds are out of order in a text of less than two bytes.
unfoldable pub inner : Bytes → Result Error Bytes
inner text = if leb 2 (length text) then ok (take (length text - 2) (drop 1 text)) else panic

unfoldable pub unquote : Bytes → Result Error Bytes
unfolding is_quoted_by inner
unquote value = if is_quoted_by 34 value || is_quoted_by 39 value then inner value else ok value

abbrev pub put_value : Option Values → Bytes → Bytes → Reading → Result Error Reading
put_value none key value r = panic
put_value (some values) key value r = ok (record {
  current = r.current;
  sections = assign r.current (assign key value values) r.sections;
})

-- Before the first header the section is named core.
abbrev pub in_section : Reading → Reading
in_section r = if bytes_equal r.current [] then open_section (codes "core") r else r

abbrev pub store_value : Bytes → Bytes → Reading → Result Error Reading
store_value key value r = put_value (lookup r.current r.sections) key value r

abbrev pub parse_pair : Option (Bytes × Bytes) → Reading → Result Error Reading
parse_pair none r = ok r
parse_pair (some (key, value)) r = do
  value ← unquote (trim_space value)
  store_value (trim_space key) value (in_section r)

unfoldable pub parse_line : Bytes → Reading → Result Error Reading
unfolding inner
parse_line line r =
    if bytes_equal line [] || (has_prefix (35 ∷ []) line || has_prefix (59 ∷ []) line)
    then ok r
    else if has_prefix (91 ∷ []) line && has_suffix (93 ∷ []) line
    then inner line >>= (λ section. ok (open_section section r))
    else parse_pair (split_at_byte 61 line) r

-- What was read comes with the scanner's error.
unfoldable pub scan_loop : List Bytes → Reading → Result Error (Reading × Option Error)
unfolding parse_line
scan_loop [] r = ok (r, none)
scan_loop (line ∷ lines) r =
    if leb max_token_size (length line)
    then ok (r, some token_too_long)
    else parse_line (trim_space (drop_cr line)) r >>= scan_loop lines

abbrev pub loaded : Bytes → Reading × Option Error → Result Error (Config × Option Error)
loaded path (r, e) = ok (record { path = path; sections = r.sections }, e)

unfoldable pub load : Bytes → Opened → Result Error (Config × Option Error)
unfolding scan_loop
load path absent = ok (record { path = path; sections = [] }, none)
load path unreadable = err open_failed
load path (contents text) =
    scan_loop (without_last_empty (split_newlines text)) (record { current = []; sections = [] })
    >>= loaded path

abbrev IsOpened : Reading → Type 0
IsOpened r = (values : Values) × (lookup r.current r.sections ≡ some values)

-- The section of the reading exists once a header has named it.
abbrev IsReady : Reading → Type 0
IsReady r = bytes_equal r.current [] ≡ false → IsOpened r

abbrev Stays : Result Error Reading → Type 0
Stays result = (r : Reading) × (result ≡ ok r) × IsReady r

opened_section-some :
    (o : Option Values) (section : Bytes) (sections : List (Bytes × Values))
    → lookup section sections ≡ o
    → (values : Values) × (lookup section (opened_section o section sections) ≡ some values)
opened_section-some none section sections e = (
  [],
  lookup-assign section section [] sections ∙ rw ((bytes_equal_iff section section).1 refl) refl,
)
opened_section-some (some values) section sections e = (values, e)

open_section-IsOpened : (section : Bytes) (r : Reading) → IsOpened (open_section section r)
open_section-IsOpened section r =
    opened_section-some (lookup section r.sections) section r.sections refl

in_section-IsOpened : (r : Reading) → IsReady r → IsOpened (in_section r)
in_section-IsOpened r ready = elim (Bool-cases (bytes_equal r.current [])) [
  | inl empty ↦ rw empty (open_section-IsOpened (codes "core") r)
  | inr named ↦ rw named (ready named)
]

put_value-Stays :
    (o : Option Values) (values : Values) (key value : Bytes) (r : Reading)
    → o ≡ some values
    → Stays (put_value o key value r)
put_value-Stays none values key value r e = absurd (cc)
put_value-Stays (some old) values key value r e =
    let same = (bytes_equal_iff r.current r.current).1 refl in
    (
      record { current = r.current; sections = assign r.current (assign key value old) r.sections },
      refl,
      (λ named. (
        assign key value old,
        lookup-assign r.current r.current (assign key value old) r.sections ∙ rw same refl,
      )),
    )

store_value-Stays : (key value : Bytes) (r : Reading) → IsOpened r → Stays (store_value key value r)
store_value-Stays key value r (values, e) =
    put_value-Stays (lookup r.current r.sections) values key value r e

inner-ok : (text : Bytes) → 2 ≤ length text → (s : Bytes) × (inner text ≡ ok s)
unfolding inner
inner-ok text long =
    let enough : leb 2 (length text) ≡ true = ground arith in
    (take (length text - 2) (drop 1 text), rw enough refl)

is_quoted_by-length :
    (quote : ℕ) (value : Bytes) → is_quoted_by quote value ≡ true → 2 ≤ length value
unfolding is_quoted_by
is_quoted_by-length quote value e = ground arith

unquote-ok : (value : Bytes) → (unquoted : Bytes) × (unquote value ≡ ok unquoted)
unfolding unquote
unquote-ok value = elim (Bool-cases (is_quoted_by 34 value)) [
  | inl double ↦
      let (s, e) = inner-ok value (is_quoted_by-length 34 value double) in (s, rw double e)
  | inr other ↦ elim (Bool-cases (is_quoted_by 39 value)) [
    | inl single ↦
        let (s, e) = inner-ok value (is_quoted_by-length 39 value single) in
        (s, rw (other, single) e)
    | inr bare ↦ (value, rw (other, bare) refl)
  ]
]

-- One byte is not both brackets of a header.
header-length :
    (line : Bytes)
    → (has_prefix (91 ∷ []) line && has_suffix (93 ∷ []) line) ≡ true
    → 2 ≤ length line
unfolding has_prefix has_suffix bytes_equal
header-length [] e = absurd (true≢false (sym e))
header-length (b ∷ []) e = ground arith
header-length (b ∷ c ∷ line) e = omega arith

inner-header :
    (line : Bytes)
    → (has_prefix (91 ∷ []) line && has_suffix (93 ∷ []) line) ≡ true
    → (section : Bytes) × (inner line ≡ ok section)
inner-header line e = inner-ok line (header-length line e)

parse_pair-Stays : (o : Option (Bytes × Bytes)) (r : Reading) → IsReady r → Stays (parse_pair o r)
parse_pair-Stays none r ready = (r, refl, ready)
parse_pair-Stays (some (key, value)) r ready =
    let (unquoted, e) = unquote-ok (trim_space value) in
    rw e (store_value-Stays (trim_space key) unquoted (in_section r) (in_section-IsOpened r ready))

parse_line-Stays : (line : Bytes) (r : Reading) → IsReady r → Stays (parse_line line r)
unfolding parse_line
parse_line-Stays line r ready =
    let comment = bytes_equal line [] || (has_prefix (35 ∷ []) line || has_prefix (59 ∷ []) line) in
    let header = has_prefix (91 ∷ []) line && has_suffix (93 ∷ []) line in
    elim (Bool-cases comment) [
      | inl skipped ↦ rw skipped (r, refl, ready)
      | inr read ↦ elim (Bool-cases header) [
        | inl named ↦
            let (section, e) = inner-header line named in
            rw (read, named, e)
              (open_section section r, refl, (λ n. open_section-IsOpened section r))
        | inr pair ↦ rw (read, pair) (parse_pair-Stays (split_at_byte 61 line) r ready)
      ]
    ]

scan_loop-ok :
    (lines : List Bytes) (r : Reading)
    → IsReady r
    → (result : Reading × Option Error) × (scan_loop lines r ≡ ok result)
unfolding scan_loop
scan_loop-ok [] r ready = ((r, none), refl)
scan_loop-ok (line ∷ lines) r ready =
    let (next, e, stays) = parse_line-Stays (trim_space (drop_cr line)) r ready in
    let (result, f) = scan_loop-ok lines next stays in
    elim (Bool-cases (leb max_token_size (length line))) [
      | inl long ↦ ((r, some token_too_long), rw long refl)
      | inr short ↦ (result, rw (short, e) f)
    ]

-- `Load` on a file that can be read or is absent returns a configuration, whatever the bytes of the
-- file: no value is ever stored in a section that does not exist, and no slice of a quoted value or of
-- a section header is out of range, each of which would panic.
pub load-ok :
    (path : Bytes) (file : Opened)
    → file ≢ unreadable
    → (c : Config) × (e : Option Error) × (load path file ≡ ok (c, e))
unfolding load
load-ok path absent h = (record { path = path; sections = [] }, none, refl)
load-ok path unreadable h = absurd (h refl)
load-ok path (contents text) h =
    let start : Reading = record { current = []; sections = [] } in
    let (result, e) =
      scan_loop-ok (without_last_empty (split_newlines text)) start
        (λ named. absurd (true≢false (sym ((bytes_equal_iff [] []).1 refl) ∙ named))) in
    (record { path = path; sections = result.0.sections }, result.1, rw e refl)
