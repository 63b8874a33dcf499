-- ===== src/Object/Person.antt =====
-- internal/object/commit.go: the person, the time and the time zone on a line of a commit or a tag.
pub mod Zone
pub mod RoundTrip
use minus_sync.Prelude.{
  ℕ, zero, suc, ◌+◌, ◌*◌, ◌/◌, ◌%◌, ◌<◌, Bool, true, false, not, ◌||◌, Option, none, some, List, [],
  ◌∷◌, ◌++◌, Bytes, if◌then◌else◌, ◌==◌, ℤ, pos, negsuc, negate, ◌+ℤ◌, scale, format_int, pad_two,
  parse_int, split_at_byte, trim_space, fields,
}

pub record Person : Type 0 where
  pub name : Bytes
  pub email : Bytes
  pub timestamp : ℤ
  pub tz_offset : ℤ

-- The value of `ParseInt` or `Atoi` where its error leaves the variable at zero.
abbrev pub or_zero : Option ℤ → ℤ
or_zero none = pos 0
or_zero (some z) = z

abbrev pub signed_total : Bool → ℤ → ℤ
signed_total negative total = if negative then negate total else total

unfoldable pub parse_tz_offset : Bytes → ℤ
parse_tz_offset (sign ∷ a ∷ b ∷ c ∷ d ∷ []) =
    if not (sign == 43 || sign == 45)
    then pos 0
    else signed_total (sign == 45) (
        scale 3600 (or_zero (parse_int (a ∷ b ∷ [])))
        +ℤ scale 60 (or_zero (parse_int (c ∷ d ∷ []))))
parse_tz_offset _ = pos 0

-- The time and its zone, where they are given.
unfoldable pub parse_times : List Bytes → ℤ × ℤ
unfolding parse_tz_offset
parse_times [] = (pos 0, pos 0)
parse_times (time ∷ []) = (or_zero (parse_int time), pos 0)
parse_times (time ∷ zone ∷ rest) = (or_zero (parse_int time), parse_tz_offset zone)

abbrev pub person_after : Bytes → Option (Bytes × Bytes) → Person
unfolding parse_times
person_after name none = record { name = name; email = []; timestamp = pos 0; tz_offset = pos 0 }
person_after name (some (email, rest)) =
    let times = parse_times (fields (trim_space rest)) in
    record { name = name; email = email; timestamp = times.0; tz_offset = times.1 }

abbrev pub person_at : Option (Bytes × Bytes) → Person
unfolding person_after
person_at none = record { name = []; email = []; timestamp = pos 0; tz_offset = pos 0 }
person_at (some (before, after)) = person_after (trim_space before) (split_at_byte 62 after)

unfoldable pub parse_person_line_full : Bytes → Person
unfolding person_at
parse_person_line_full line = person_at (split_at_byte 60 line)

unfoldable pub parse_person_line : Bytes → Bytes × Bytes
unfolding parse_person_line_full
parse_person_line line = let p = parse_person_line_full line in (p.name, p.email)

unfoldable pub is_negative : ℤ → Bool
is_negative (pos n) = false
is_negative (negsuc n) = true

abbrev pub magnitude : ℤ → ℕ
magnitude (pos n) = n
magnitude (negsuc n) = suc n

-- `%s%02d%02d` of the sign, the hours and the minutes.
unfoldable pub format_tz : Bool → ℕ → Bytes
format_tz negative seconds =
    (if negative then 45 else 43) ∷ (pad_two (seconds / 3600) ++ pad_two ((seconds % 3600) / 60))

-- `%s <%s> %d %s` of the author, the address, the time and the zone.
unfoldable pub format_person : Bytes → Bytes → ℤ → Bytes → Bytes
format_person author email timestamp zone =
    (author ++ 32 ∷ []) ++ 60 ∷ (email ++ 62 ∷ 32 ∷ (format_int timestamp ++ 32 ∷ zone))
