-- ===== src/Object/Person/Zone.antt =====
-- internal/object/commit.go: the time zone "+hhmm" and its offset in seconds.
use minus_sync.Prelude.{
  ℕ, zero, suc, ◌+◌, ◌*◌, ◌/◌, ◌%◌, ◌^◌, ◌<◌, Bool, true, false, some, [], ◌∷◌, ◌++◌, Bytes,
  if◌then◌else◌, ltb, ℤ, pos, negsuc, negate, ◌+ℤ◌, scale, format_uint, format_loop, pad_two,
  parse_int, parse_int-digits, parse_uint, whole, number_at-format_uint, number_at-zero, AreDigits,
  is_digit, is_space, IsVisible, ◌≡◌, refl, ap, ◌∙◌, Bool-cases, inl, inr, arith, lt→ltb,
}
use minus_sync.Object.Person.{signed_total, parse_tz_offset, is_negative, magnitude, format_tz}

-- Two digits, and their number.
record IsTwo (n : ℕ) (text : Bytes) : Type 0 where
  first : ℕ
  second : ℕ
  shape : text ≡ first ∷ second ∷ []
  digits : AreDigits 10 (first ∷ second ∷ [])
  parsed : parse_int (first ∷ second ∷ []) ≡ some (pos n)

one_digit : (n : ℕ) → n < 10 → format_uint 10 n ≡ (48 + n) ∷ []
unfolding format_uint format_loop
one_digit n small = rw (lt→ltb n 10 small) refl

two_digits :
    (n : ℕ) → ltb n 10 ≡ false → n < 100 → format_uint 10 n ≡ (48 + n / 10) ∷ (48 + n % 10) ∷ []
unfolding format_uint format_loop
two_digits zero large small = absurd (ground arith)
two_digits (suc n) large small =
    let higher : ltb (suc n / 10) 10 ≡ true = lt→ltb (suc n / 10) 10 (omega arith) in
    rw (large, higher) refl

digit_of : (n : ℕ) → n < 10 → is_digit 10 (48 + n) ≡ true
unfolding is_digit
digit_of n h = ground arith

pad_two-IsTwo : (n : ℕ) → n < 100 → IsTwo n (pad_two n)
unfolding pad_two
pad_two-IsTwo n small = elim (Bool-cases (ltb n 10)) [
  | inl one ↦
      let digits : AreDigits 10 (48 ∷ (48 + n) ∷ []) =
        (digit_of 0 (omega arith), (digit_of n (ground arith), tt)) in
      rw one (record {
        first = 48;
        second = 48 + n;
        shape = ap (◌∷◌ 48) (one_digit n (ground arith));
        digits = digits;
        parsed = parse_int-digits (48 ∷ (48 + n) ∷ []) digits (
            unfold parse_uint in
            rw (one_digit n (ground arith)) at
              (ap whole (number_at-zero 10 (2 ^ 63) n [] (omega arith) (omega arith) tt)));
      })
  | inr two ↦
      let shape = two_digits n two small in
      let digits : AreDigits 10 ((48 + n / 10) ∷ (48 + n % 10) ∷ []) =
        (digit_of (n / 10) (omega arith), (digit_of (n % 10) (omega arith), tt)) in
      rw two (record {
        first = 48 + n / 10;
        second = 48 + n % 10;
        shape = shape;
        digits = digits;
        parsed = parse_int-digits ((48 + n / 10) ∷ (48 + n % 10) ∷ []) digits (
            unfold parse_uint in
            rw shape at
              (ap whole (number_at-format_uint 10 (2 ^ 63) n [] (omega arith) (omega arith) tt)));
      })
]

-- An offset that "+hhmm" can tell: whole minutes, and less than a hundred hours.
abbrev pub IsOffset : ℤ → Type 0
IsOffset z = (magnitude z < 360000) × (magnitude z % 60 ≡ 0)

visible_digit : (c : ℕ) → is_digit 10 c ≡ true → is_space c ≡ false
unfolding is_digit is_space
visible_digit c h = ground arith

-- What the line of a person needs of the text of its zone.
pub record IsZone (z : ℤ) (text : Bytes) : Type 0 where
  pub sign : ℕ
  pub middle : Bytes
  pub last : ℕ
  pub shape : text ≡ sign ∷ (middle ++ last ∷ [])
  pub visible : IsVisible (sign ∷ (middle ++ last ∷ []))
  pub last_visible : is_space last ≡ false
  pub parsed : parse_tz_offset (sign ∷ (middle ++ last ∷ [])) ≡ z

signed_total-negative : (z : ℤ) → signed_total (is_negative z) (pos (magnitude z)) ≡ z
unfolding is_negative negate
signed_total-negative (pos n) = refl
signed_total-negative (negsuc n) = refl

parse_tz_offset-digits :
    (negative : Bool) (a b c d hours minutes : ℕ)
    → parse_int (a ∷ b ∷ []) ≡ some (pos hours)
    → parse_int (c ∷ d ∷ []) ≡ some (pos minutes)
    → parse_tz_offset ((if negative then 45 else 43) ∷ a ∷ b ∷ c ∷ d ∷ [])
      ≡ signed_total negative (pos (3600 * hours + 60 * minutes))
unfolding parse_tz_offset scale ◌+ℤ◌
parse_tz_offset-digits true a b c d hours minutes e f = rw (e, f) refl
parse_tz_offset-digits false a b c d hours minutes e f = rw (e, f) refl

sign_visible : (negative : Bool) → is_space (if negative then 45 else 43) ≡ false
unfolding is_space
sign_visible true = refl
sign_visible false = refl

pub format_tz-IsZone : (z : ℤ) → IsOffset z → IsZone z (format_tz (is_negative z) (magnitude z))
unfolding format_tz
format_tz-IsZone z (bounded, minutes_only) =
    let n = magnitude z in
    let h = pad_two-IsTwo (n / 3600) (omega arith) in
    let m = pad_two-IsTwo ((n % 3600) / 60) (omega arith) in
    let (first, (second, _)) = h.digits in
    let (third, (fourth, _)) = m.digits in
    let sum : 3600 * (n / 3600) + 60 * ((n % 3600) / 60) ≡ n = omega arith in
    let sign = if is_negative z then 45 else 43 in
    record {
      sign = sign;
      middle = h.first ∷ h.second ∷ m.first ∷ [];
      last = m.second;
      shape = ap (λ text. sign ∷ text) (rw (h.shape, m.shape) refl);
      visible = (
        sign_visible (is_negative z),
        (
          visible_digit h.first first,
          (
            visible_digit h.second second,
            (visible_digit m.first third, (visible_digit m.second fourth, tt)),
          ),
        ),
      );
      last_visible = visible_digit m.second fourth;
      parsed =
          parse_tz_offset-digits (is_negative z) h.first h.second m.first m.second (n / 3600)
            ((n % 3600) / 60) h.parsed m.parsed
          ∙ ap (λ k. signed_total (is_negative z) (pos k)) sum
          ∙ signed_total-negative z;
    }
