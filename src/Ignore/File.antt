-- ===== src/Ignore/File.antt =====
-- internal/ignore/ignore.go: `Load` and `Save`, the file that holds the patterns.
use minus_sync.Prelude.{
  ℕ, ◌-◌, ◌<◌, Bool, true, false, not, ◌&&◌, ◌||◌, Option, none, some, List, [], ◌∷◌, ◌++◌, Bytes,
  length, take, drop, All, map, if◌then◌else◌, leb, bytes_equal, has_prefix, has_suffix,
  ok_injective, trim_space, split_newlines, split_newlines-append, split_newlines-cons,
  without_last_empty, Lacks, Result, ok, err, ◌≡◌, refl, sym, arith,
}
use minus_sync.Ignore.{Pattern}

-- What `os.Open` finds.
pub data Opened : Type 0 where
  absent unreadable : Opened
  contents : Bytes → Opened

pub data Error : Type 0 where
  open_failed token_too_long create_failed : Error

-- `bufio.MaxScanTokenSize`.
abbrev pub max_token_size : ℕ
max_token_size = 65536

-- A carriage return in front of the newline is no part of the line.
unfoldable pub drop_cr : Bytes → Bytes
drop_cr line = if has_suffix (13 ∷ []) line then take (length line - 1) line else line

-- The pattern that a trimmed line holds, if it is neither empty nor a comment.
unfoldable pub parse_line : Bytes → Option Pattern
parse_line line =
    if bytes_equal line [] || has_prefix (35 ∷ []) line
    then none
    else let negate = has_prefix (33 ∷ []) line in
      let text = if negate then drop 1 line else line in
      let dir_only = has_suffix (47 ∷ []) line in
      some (record {
        raw = if dir_only && has_suffix (47 ∷ []) text then take (length text - 1) text else text;
        dir_only = dir_only;
        negate = negate;
      })

abbrev pub put : Option Pattern → List Pattern → List Pattern
put none patterns = patterns
put (some p) patterns = p ∷ patterns

-- The loop over the scanner, and the scanner's error at the end: a line that does not fit its
-- buffer stops it.
unfoldable pub scan_loop : List Bytes → List Pattern × Option Error
unfolding parse_line drop_cr
scan_loop [] = ([], none)
scan_loop (line ∷ lines) =
    let rest = scan_loop lines in
    if leb max_token_size (length line)
    then ([], some token_too_long)
    else (put (parse_line (trim_space (drop_cr line))) rest.0, rest.1)

-- The matcher is returned together with the scanner's error.
unfoldable pub load : Opened → Result Error (List Pattern × Option Error)
unfolding scan_loop
load absent = ok ([], none)
load unreadable = err open_failed
load (contents text) = ok (scan_loop (without_last_empty (split_newlines text)))

unfoldable pub save_lines : List Pattern → Bytes
save_lines [] = []
save_lines (p ∷ patterns) = p.raw ++ 10 ∷ save_lines patterns

-- The file that is written, unless it cannot be created. Errors of the writes are dropped.
unfoldable pub save : Bool → List Pattern → Result Error Bytes
unfolding save_lines
save created patterns = if not created then err create_failed else ok (save_lines patterns)

-- A text that `Load` takes as it is.
pub record IsLine (raw : Bytes) : Type 0 where
  pub lacks : Lacks 10 raw
  pub fits : length raw < max_token_size
  pub ends : drop_cr raw ≡ raw
  pub trimmed : trim_space raw ≡ raw
  pub nonempty : bytes_equal raw [] ≡ false
  pub uncommented : has_prefix (35 ∷ []) raw ≡ false
  pub positive : has_prefix (33 ∷ []) raw ≡ false
  pub unmarked : has_suffix (47 ∷ []) raw ≡ false

abbrev pub text_of : Pattern → Bytes
text_of p = p.raw

-- The pattern without its two marks.
abbrev pub unmark : Pattern → Pattern
unmark p = record { raw = p.raw; dir_only = false; negate = false }

parse_line-IsLine :
    (raw : Bytes)
    → IsLine raw
    → parse_line raw ≡ some (record { raw = raw; dir_only = false; negate = false })
unfolding parse_line
parse_line-IsLine raw line = rw (line.nonempty, line.uncommented, line.positive, line.unmarked) refl

scan_loop-IsLine :
    (raw : Bytes) (lines : List Bytes)
    → IsLine raw
    → scan_loop (raw ∷ lines) ≡ (
      record { raw = raw; dir_only = false; negate = false } ∷ (scan_loop lines).0,
      (scan_loop lines).1,
    )
unfolding scan_loop
scan_loop-IsLine raw lines line =
    let short : leb max_token_size (length raw) ≡ false = ground (arith, line.fits) in
    rw (short, line.ends, line.trimmed, parse_line-IsLine raw line) refl

without_last_empty-cons :
    (line : Bytes) (text : Bytes)
    → without_last_empty (line ∷ split_newlines text)
      ≡ line ∷ without_last_empty (split_newlines text)
unfolding without_last_empty
without_last_empty-cons line text = let (first, lines, e) = split_newlines-cons text in rw e refl

save_lines-scan_loop :
    (patterns : List Pattern)
    → All (λ (p : Pattern). IsLine p.raw) patterns
    → scan_loop (without_last_empty (split_newlines (save_lines patterns)))
      ≡ (map unmark patterns, none)
unfolding save_lines
save_lines-scan_loop [] lines =
    unfold scan_loop without_last_empty split_newlines bytes_equal in refl
save_lines-scan_loop (p ∷ patterns) (line, lines) =
    let whole = split_newlines-append p.raw (save_lines patterns) line.lacks in
    rw
      (
        whole,
        without_last_empty-cons p.raw (save_lines patterns),
        scan_loop-IsLine p.raw (without_last_empty (split_newlines (save_lines patterns))) line,
        save_lines-scan_loop patterns lines,
      )
      refl

-- `Load` of what `Save` wrote returns the patterns in their order and without an error, each with
-- its text, but none of them negated or for directories only, whatever they were, if each text is
-- one that `Load` takes as it is.
pub load-contents :
    (patterns : List Pattern) (text : Bytes)
    → All (λ (p : Pattern). IsLine p.raw) patterns
    → save true patterns ≡ ok text
    → load (contents text) ≡ ok (map unmark patterns, none)
unfolding load save
load-contents patterns text lines saved =
    rw (sym (ok_injective saved), save_lines-scan_loop patterns lines) refl
