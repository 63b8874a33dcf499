-- ===== src/Prelude/Integers.antt =====
-- Signed integers, and package `strconv` with the verb `%d` on them. The text is ASCII.
use Prim.Native.Nat.{ℕ, zero, suc, ◌+◌, ◌-◌, ◌*◌, ◌^◌, ◌<◌}
use mathlib.Core.Path.{◌≡◌, ap, ◌∙◌}
use mathlib.Core.Bool.{Bool, true, false}
use mathlib.Core.Option.{Option, none, some}
use mathlib.Core.List.{[], ◌∷◌, append-nil}
use native.Mathlib.Omega.{arith}
use minus_sync.Prelude.Tests.{ltb, leb, ◌==◌, if◌then◌else◌}
use minus_sync.Prelude.Lists.{Bytes}
use minus_sync.Prelude.Numbers.{
  format_uint, format_uint-AreDigits, AreDigits, number_at, number_at-format_uint, is_digit,
}

pub data ℤ : Type 0 where
  pos negsuc : ℕ → ℤ

unfoldable pub negate : ℤ → ℤ
negate (pos zero) = pos zero
negate (pos (suc n)) = negsuc n
negate (negsuc n) = pos (suc n)

-- `n - k` for natural numbers.
unfoldable pub subtract : ℕ → ℕ → ℤ
subtract n k = if leb k n then pos (n - k) else negsuc (k - n - 1)

infixl 60 ◌+ℤ◌
unfoldable pub ◌+ℤ◌ : ℤ → ℤ → ℤ
unfolding subtract
pos n +ℤ pos k = pos (n + k)
pos n +ℤ negsuc k = subtract n (suc k)
negsuc n +ℤ pos k = subtract k (suc n)
negsuc n +ℤ negsuc k = negsuc (suc (n + k))

unfoldable pub scale : ℕ → ℤ → ℤ
unfolding negate
scale k (pos n) = pos (k * n)
scale k (negsuc n) = negate (pos (k * suc n))

-- `%d`.
unfoldable pub format_int : ℤ → Bytes
format_int (pos n) = format_uint 10 n
format_int (negsuc n) = 45 ∷ format_uint 10 (suc n)

-- `%02d` of a number that is not negative.
unfoldable pub pad_two : ℕ → Bytes
pad_two n = if ltb n 10 then 48 ∷ format_uint 10 n else format_uint 10 n

-- `ParseUint(text, 10, 64)`, with `limit` for the first number that is out of range.
abbrev pub whole : Option (ℕ × Bytes) → Option ℕ
whole none = none
whole (some (n, [])) = some n
whole (some (n, c ∷ rest)) = none

unfoldable pub parse_uint : ℕ → Bytes → Option ℕ
parse_uint limit text = whole (number_at 10 limit text)

-- `ParseInt(text, 10, 64)`, which takes a sign.
abbrev pub signed : Bool → Option ℕ → Option ℤ
signed negative none = none
signed negative (some n) = some (if negative then negate (pos n) else pos n)

unfoldable pub parse_int : Bytes → Option ℤ
unfolding parse_uint
parse_int [] = none
parse_int (c ∷ text) =
    if c == 45
    then signed true (parse_uint (2 ^ 63 + 1) text)
    else if c == 43
    then signed false (parse_uint (2 ^ 63) text)
    else signed false (parse_uint (2 ^ 63) (c ∷ text))

-- An integer of 64 bits.
abbrev pub IsInt64 : ℤ → Type 0
IsInt64 (pos n) = n < 2 ^ 63
IsInt64 (negsuc n) = n < 2 ^ 63

pub parse_uint-format_uint :
    (limit n : ℕ) → n < limit → parse_uint limit (format_uint 10 n) ≡ some n
unfolding parse_uint
parse_uint-format_uint limit n fits =
    rw append-nil at (ap whole (number_at-format_uint 10 limit n [] (omega arith) fits tt))

-- What stands in front of a number that is not negative is no sign.
pub parse_int-digit :
    (c : ℕ) (text : Bytes)
    → is_digit 10 c ≡ true
    → parse_int (c ∷ text) ≡ signed false (parse_uint (2 ^ 63) (c ∷ text))
unfolding parse_int is_digit
parse_int-digit c text digit = ground arith

pub parse_int-digits :
    (text : Bytes) {n : ℕ}
    → AreDigits 10 text
    → parse_uint (2 ^ 63) text ≡ some n
    → parse_int text ≡ some (pos n)
unfolding parse_uint
parse_int-digits [] digits e = absurd (cc)
parse_int-digits (c ∷ text) (digit, digits) e =
    parse_int-digit c text digit ∙ ap (signed false) (unfold parse_uint in e)

pub parse_int-format_int : (z : ℤ) → IsInt64 z → parse_int (format_int z) ≡ some z
unfolding format_int negate
parse_int-format_int (pos n) fits =
    parse_int-digits (format_uint 10 n) (format_uint-AreDigits 10 n (omega arith))
      (parse_uint-format_uint (2 ^ 63) n fits)
parse_int-format_int (negsuc n) fits =
    unfold parse_int in ap (signed true) (parse_uint-format_uint (2 ^ 63 + 1) (suc n) (omega arith))
