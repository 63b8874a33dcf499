-- ===== src/Object/Person/RoundTrip.antt =====
-- internal/object/commit.go: `parsePersonLineFull` on the line that `SerializeCommit` writes.
use minus_sync.Prelude.{
  ℕ, suc, false, some, [], ◌∷◌, ◌++◌, Bytes, append_assoc, ℤ, pos, negsuc, format_int, format_uint,
  format_uint-AreDigits, AreDigits, is_digit, is_space, IsInt64, parse_int-format_int, IsVisible,
  fields, fields-cons, trim_space, trim_space-front, trim_space-end, trim_space-visible,
  split_at_byte-append, Lacks, ◌≡◌, refl, sym, ap, ◌∙◌, arith, parse_int,
}
use minus_sync.Object.Header.{Lacks-append}
use minus_sync.Object.Person.{
  parse_times, person_at, person_after, parse_person_line_full, format_person,
}
use minus_sync.Object.Person.Zone.{IsZone}

digits-IsVisible : (text : Bytes) → AreDigits 10 text → IsVisible text
unfolding is_digit is_space
digits-IsVisible [] digits = tt
digits-IsVisible (c ∷ text) (digit, digits) = (ground arith, digits-IsVisible text digits)

-- The text of a number is a field.
pub format_int-IsVisible : (z : ℤ) → IsVisible (format_int z)
unfolding format_int is_space
format_int-IsVisible (pos n) =
    digits-IsVisible (format_uint 10 n) (format_uint-AreDigits 10 n (omega arith))
format_int-IsVisible (negsuc n) = (
  refl,
  digits-IsVisible (format_uint 10 (suc n)) (format_uint-AreDigits 10 (suc n) (omega arith)),
)

fields-times :
    (time sign : ℕ) (word rest : Bytes) (last : ℕ)
    → IsVisible (time ∷ word)
    → IsVisible (sign ∷ (rest ++ last ∷ []))
    → is_space last ≡ false
    → fields (trim_space (32 ∷ time ∷ (word ++ 32 ∷ sign ∷ (rest ++ last ∷ []))))
      ≡ (time ∷ word) ∷ (sign ∷ (rest ++ last ∷ [])) ∷ []
fields-times time sign word rest last h k visible =
    let whole : word ++ 32 ∷ sign ∷ (rest ++ last ∷ []) ≡ (word ++ 32 ∷ sign ∷ rest) ++ last ∷ [] =
      sym (append_assoc word (32 ∷ sign ∷ rest) (last ∷ [])) in
    let kept = trim_space-visible time (word ++ 32 ∷ sign ∷ rest) last h.0 visible in
    ap fields (
      trim_space-front 32 (time ∷ (word ++ 32 ∷ sign ∷ (rest ++ last ∷ [])))
        (unfold is_space in refl))
    ∙ ap (λ text. fields (trim_space (time ∷ text))) whole
    ∙ ap fields kept
    ∙ ap (λ text. fields (time ∷ text)) (sym whole)
    ∙ fields-cons time word sign (rest ++ last ∷ []) h k

parse_times-text :
    (z offset : ℤ) (text zone : Bytes)
    → IsVisible text
    → parse_int text ≡ some z
    → IsZone offset zone
    → parse_times (fields (trim_space (32 ∷ (text ++ 32 ∷ zone)))) ≡ (z, offset)
unfolding parse_times
parse_times-text z offset [] zone visible parsed h = absurd (unfold parse_int in cc)
parse_times-text z offset (time ∷ word) zone visible parsed h =
    ap (λ x. parse_times (fields (trim_space (32 ∷ time ∷ (word ++ 32 ∷ x))))) h.shape
    ∙ ap parse_times
        (fields-times time h.sign word h.middle h.last visible h.visible h.last_visible)
    ∙ rw (parsed, h.parsed) refl

-- The line gives back the name, the address, the time and the offset, if the name neither begins
-- nor ends with a space nor holds a `<`, and the address holds no `>`.
pub parse_person_line_full-format_person :
    (name email : Bytes) (time offset : ℤ) (zone : Bytes)
    → trim_space name ≡ name
    → Lacks 60 name
    → Lacks 62 email
    → IsInt64 time
    → IsZone offset zone
    → parse_person_line_full (format_person name email time zone)
      ≡ record { name = name; email = email; timestamp = time; tz_offset = offset }
unfolding parse_person_line_full format_person person_at person_after
parse_person_line_full-format_person name email time offset zone trimmed lacks email_lacks fits h =
    let after = email ++ 62 ∷ 32 ∷ (format_int time ++ 32 ∷ zone) in
    let named_lacks = Lacks-append 60 name (32 ∷ []) lacks ((λ e. omega arith), tt) in
    let named : trim_space (name ++ 32 ∷ []) ≡ name =
      trim_space-end name 32 (unfold is_space in refl) ∙ trimmed in
    let times =
      parse_times-text time offset (format_int time) zone (format_int-IsVisible time)
        (parse_int-format_int time fits) h in
    rw
      (
        split_at_byte-append 60 (name ++ 32 ∷ []) after named_lacks,
        split_at_byte-append 62 email (32 ∷ (format_int time ++ 32 ∷ zone)) email_lacks,
        named,
        times,
      )
      refl
