-- ===== src/Object/Tag/Time.antt =====
-- internal/object/tag.go: the line of the tagger, whose time is never read.
use minus_sync.Prelude.{
  ℕ, suc, ◌+◌, ◌^◌, ◌<◌, true, false, none, some, [], ◌∷◌, ◌++◌, Bytes, append_assoc, codes, ◌==◌,
  ℤ, pos, negsuc, IsInt64, parse_int, parse_int-format_int, parse_uint, whole, signed, format_int,
  format_uint, number_at-format_uint, format_uint-AreDigits, AreDigits, is_digit, is_space,
  IsVisible, Lacks, trim_space, trim_space-front, trim_space-visible, ◌≡◌, refl, sym, ap, ◌∙◌,
  arith, parse_int-digit, pad_two, format_loop, subst,
}
use minus_sync.Object.Header.{Lacks-append}
use minus_sync.Object.Person.{parse_person_line, format_person, format_tz, is_negative, magnitude}
use minus_sync.Object.Person.Zone.{IsZone, format_tz-IsZone}
use minus_sync.Object.Person.RoundTrip.{parse_person_line_full-format_person, format_int-IsVisible}
use minus_sync.Object.Tag.{
  TagData, no_zone, later_or, behind_last, get_timestamp, tag_time, set_tagger,
}

-- `GetTimestamp` fails on a number with a zone behind it.
parse_uint-zone :
    (limit n : ℕ) → n < limit → parse_uint limit (format_uint 10 n ++ 32 ∷ no_zone) ≡ none
unfolding parse_uint
parse_uint-zone limit n fits =
    ap whole
      (number_at-format_uint 10 limit n (32 ∷ no_zone) (omega arith) fits (unfold is_digit in refl))

parse_int-none :
    (text rest : Bytes)
    → AreDigits 10 text
    → parse_int rest ≡ none
    → parse_uint (2 ^ 63) (text ++ rest) ≡ none
    → parse_int (text ++ rest) ≡ none
parse_int-none [] rest digits none_here e = none_here
parse_int-none (c ∷ text) rest (digit, digits) none_here e =
    parse_int-digit c (text ++ rest) digit ∙ ap (signed false) e

parse_int-zone : (z : ℤ) → IsInt64 z → parse_int (format_int z ++ 32 ∷ no_zone) ≡ none
unfolding format_int
parse_int-zone (pos n) fits =
    parse_int-none (format_uint 10 n) (32 ∷ no_zone) (format_uint-AreDigits 10 n (omega arith))
      (unfold parse_int parse_uint is_digit in refl) (parse_uint-zone (2 ^ 63) n fits)
parse_int-zone (negsuc n) fits =
    unfold parse_int in ap (signed true) (parse_uint-zone (2 ^ 63 + 1) (suc n) (omega arith))

behind_last-prefix :
    (c : ℕ) (xs ys : Bytes) {rest : Bytes}
    → behind_last c ys ≡ some rest
    → behind_last c (xs ++ ys) ≡ some rest
unfolding behind_last
behind_last-prefix c [] ys e = e
behind_last-prefix c (x ∷ xs) ys e =
    ap (later_or (x == c) (xs ++ ys)) (behind_last-prefix c xs ys e)

behind_last-Lacks : (c : ℕ) (xs : Bytes) → Lacks c xs → behind_last c xs ≡ none
unfolding behind_last
behind_last-Lacks c [] lacks = refl
behind_last-Lacks c (x ∷ xs) (ne, lacks) =
    let other : (x == c) ≡ false = ground arith in rw (behind_last-Lacks c xs lacks, other) refl

behind_last-append : (c : ℕ) (rest : Bytes) → Lacks c rest → behind_last c (c ∷ rest) ≡ some rest
unfolding behind_last
behind_last-append c rest lacks =
    let same : (c == c) ≡ true = ground arith in rw (behind_last-Lacks c rest lacks, same) refl

digits-Lacks : (text : Bytes) → AreDigits 10 text → Lacks 62 text
unfolding is_digit
digits-Lacks [] digits = tt
digits-Lacks (c ∷ text) (digit, digits) = ((λ e. ground arith), digits-Lacks text digits)

format_int-Lacks : (z : ℤ) → Lacks 62 (format_int z)
unfolding format_int
format_int-Lacks (pos n) =
    digits-Lacks (format_uint 10 n) (format_uint-AreDigits 10 n (omega arith))
format_int-Lacks (negsuc n) = (
  (λ e. omega arith),
  digits-Lacks (format_uint 10 (suc n)) (format_uint-AreDigits 10 (suc n) (omega arith)),
)

trim_space-zone :
    (text : Bytes) {z : ℤ}
    → parse_int text ≡ some z
    → IsVisible text
    → parse_int (text ++ 32 ∷ no_zone) ≡ none
    → parse_int (trim_space (32 ∷ (text ++ 32 ∷ no_zone))) ≡ none
trim_space-zone [] parsed visible e = absurd (unfold parse_int in cc)
trim_space-zone (c ∷ text) parsed (here, visible) e =
    let whole : text ++ 32 ∷ no_zone ≡ (text ++ 32 ∷ codes "+000") ++ 48 ∷ [] =
      sym (append_assoc text (32 ∷ codes "+000") (48 ∷ [])) in
    ap parse_int (
      trim_space-front 32 (c ∷ (text ++ 32 ∷ no_zone)) (unfold is_space in refl)
      ∙ ap (λ x. trim_space (c ∷ x)) whole
      ∙ trim_space-visible c (text ++ 32 ∷ codes "+000") 48 here (unfold is_space in refl)
      ∙ ap (◌∷◌ c) (sym whole))
    ∙ e

IsZone-no_zone : IsZone (pos 0) no_zone
IsZone-no_zone =
    let text : format_tz (is_negative (pos 0)) (magnitude (pos 0)) ≡ no_zone =
      unfold format_tz is_negative pad_two format_uint format_loop in refl in
    subst (IsZone (pos 0)) text (format_tz-IsZone (pos 0) (omega arith, omega arith))

-- The line of the tagger gives the name and the address, and leaves the time.
pub set_tagger-text :
    (t : TagData) (name email : Bytes) (time : ℤ)
    → trim_space name ≡ name
    → Lacks 60 name
    → Lacks 62 email
    → IsInt64 time
    → set_tagger t (format_person name email time no_zone)
      ≡ record t { tagger = name; email = email }
unfolding set_tagger parse_person_line tag_time get_timestamp
set_tagger-text t name email time trimmed lacks email_lacks fits =
    let rest = 32 ∷ (format_int time ++ 32 ∷ no_zone) in
    let rest_lacks : Lacks 62 rest = (
      (λ e. omega arith),
      Lacks-append 62 (format_int time) (32 ∷ no_zone) (format_int-Lacks time) (omega arith),
    ) in
    let last : behind_last 62 (format_person name email time no_zone) ≡ some rest =
      unfold format_person in
      behind_last-prefix 62 (name ++ 32 ∷ []) (60 ∷ (email ++ 62 ∷ rest))
        (behind_last-prefix 62 (60 ∷ email) (62 ∷ rest) (behind_last-append 62 rest rest_lacks)) in
    let failed =
      trim_space-zone (format_int time) (parse_int-format_int time fits) (format_int-IsVisible time)
        (parse_int-zone time fits) in
    rw
      (
        parse_person_line_full-format_person name email time (pos 0) no_zone trimmed lacks
            email_lacks fits IsZone-no_zone,
        last,
        failed,
      )
      refl
