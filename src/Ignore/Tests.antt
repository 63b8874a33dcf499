-- ===== src/Ignore/Tests.antt =====
-- The ignore patterns on small inputs.
use minus_sync.Prelude.{
  true, false, none, some, List, [], ◌∷◌, ◌++◌, Bytes, codes, ok, ◌≡◌, refl, arith, map, has_prefix,
  has_suffix, bytes_equal, trim_space, trim_left, is_space,
}
use minus_sync.Ignore.{
  Pattern, glob_match, is_ignored, behind_stars, contains_slash, base, drop_slashes, until_slash,
  anchored,
}
use minus_sync.Ignore.Spec.{describes, any_suffix, match_byte, IsSingle}
use minus_sync.Ignore.Restart.{glob_match-describes}
use minus_sync.Ignore.Diverges.{glob_match-diverges}
use minus_sync.Ignore.Verdict.{is_ignored-verdict, last_applying, verdict}
use minus_sync.Ignore.File.{
  contents, load, save, load-contents, unmark, IsLine, drop_cr, parse_line,
}

abbrev log_files : Bytes
log_files = codes "*.log"

IsSingle-log_files : IsSingle log_files
unfolding behind_stars
IsSingle-log_files = ((λ e. refl), ((λ e. refl), ((λ e. refl), ((λ e. refl), ((λ e. refl), tt)))))

glob_match-describes_example :
    glob_match 41 log_files (codes "a.log") ≡ some (describes log_files (codes "a.log"))
glob_match-describes_example =
    glob_match-describes 41 log_files (codes "a.log") IsSingle-log_files (omega arith)

log_described : describes log_files (codes "a.log.log") ≡ true
unfolding describes any_suffix match_byte
log_described = refl

-- A single `*` takes a slash.
slash_taken : describes log_files (codes "a/b.log") ≡ true
unfolding describes any_suffix match_byte
slash_taken = refl

abbrev build_behind : Bytes
build_behind = codes "build"

glob_match-diverges_example :
    glob_match 1000 (42 ∷ 42 ∷ 47 ∷ build_behind) (codes "src/main.go") ≡ none
glob_match-diverges_example =
    glob_match-diverges 1000 (47 ∷ build_behind) build_behind 115 (codes "rc/main.go")
      (unfold behind_stars has_prefix bytes_equal in refl)
      (refl, (refl, (refl, (refl, (refl, tt))))) (unfold describes match_byte in refl)
      (unfold describes match_byte in refl)

abbrev two_patterns : List Pattern
two_patterns =
    record { raw = log_files; dir_only = false; negate = false }
    ∷ record { raw = codes "a.log"; dir_only = false; negate = true }
    ∷ []

no_star : IsSingle (codes "a.log")
unfolding behind_stars
no_star = ((λ e. refl), ((λ e. refl), ((λ e. refl), ((λ e. refl), ((λ e. refl), tt)))))

anchored_logs : anchored log_files (codes "d/a.log") ≡ (log_files, codes "a.log")
unfolding anchored contains_slash base drop_slashes until_slash has_prefix
anchored_logs = refl

anchored_name : anchored (codes "a.log") (codes "d/a.log") ≡ (codes "a.log", codes "a.log")
unfolding anchored contains_slash base drop_slashes until_slash has_prefix
anchored_name = refl

is_ignored-verdict_example :
    is_ignored 50 two_patterns (codes "d/a.log") false
    ≡ some (verdict false (last_applying (codes "d/a.log") false two_patterns))
is_ignored-verdict_example = is_ignored-verdict 50 two_patterns (codes "d/a.log") false (
  rw anchored_logs (IsSingle-log_files, omega arith),
  (rw anchored_name (no_star, omega arith), tt),
)

abbrev negated : List Pattern
negated = record { raw = codes "a"; dir_only = true; negate = true } ∷ []

a_IsLine : IsLine (codes "a")
unfolding drop_cr has_suffix bytes_equal trim_space trim_left is_space has_prefix
a_IsLine = record {
  lacks = ((λ e. omega arith), tt);
  fits = omega arith;
  ends = refl;
  trimmed = refl;
  nonempty = refl;
  uncommented = refl;
  positive = refl;
  unmarked = refl;
}

load-contents_example : load (contents (codes "a" ++ (10 ∷ []))) ≡ ok (map unmark negated, none)
load-contents_example =
    load-contents negated (codes "a" ++ (10 ∷ [])) (a_IsLine, tt) (unfold save in refl)

parsed_line :
    parse_line (codes "!build/")
    ≡ some (record { raw = codes "build"; dir_only = true; negate = true })
unfolding parse_line bytes_equal has_prefix has_suffix
parsed_line = refl
