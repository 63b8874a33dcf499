-- ===== src/Prelude/Numbers.antt =====
-- Package `fmt` on numbers: the verbs `%d` and `%o`, printed and scanned. The text is ASCII.
use Prim.Native.Nat.{ℕ, zero, suc, ◌+◌, ◌-◌, ◌*◌, ◌/◌, ◌%◌, ◌≤◌, ◌<◌}
use mathlib.Core.Path.{◌≡◌, refl, ap}
use mathlib.Core.Logic.{◌≢◌, inl, inr}
use mathlib.Core.Bool.{Bool, true, false, ◌&&◌}
use mathlib.Core.Option.{Option, none, some}
use mathlib.Core.List.{[], ◌∷◌, ◌++◌}
use native.Mathlib.Omega.{arith}
use native.Mathlib.Nat.{mod-lt, div-add-mod', div-lt_self}
use minus_sync.Prelude.Tests.{lt→ltb, ltb, leb, ◌==◌, if◌then◌else◌, Bool-cases}
use minus_sync.Prelude.Lists.{Bytes, length, All, length-append}
use minus_sync.Prelude.Strings.{is_space}

-- The digits of a number, the last one written last. A number has no more digits than itself,
-- plus one for zero, so `suc n` turns are enough.
unfoldable pub format_loop : ℕ → ℕ → ℕ → Bytes
format_loop base zero n = []
format_loop base (suc fuel) n =
    let higher = format_loop base fuel (n / base) in
    if ltb n base then (48 + n) ∷ [] else (higher ++ (48 + n % base) ∷ [])

unfoldable pub format_uint : ℕ → ℕ → Bytes
unfolding format_loop
format_uint base n = format_loop base (suc n) n

unfoldable pub is_digit : ℕ → ℕ → Bool
is_digit base c = leb 48 c && ltb c (48 + base)

-- The digits at the front add to a number read so far; what follows them stays.
unfoldable pub scan_digits : ℕ → ℕ → Bytes → ℕ × Bytes
unfolding is_digit
scan_digits base acc [] = (acc, [])
scan_digits base acc (c ∷ text) =
    let next = scan_digits base (acc * base + (c - 48)) text in
    if is_digit base c then next else (acc, c ∷ text)

-- Spaces are skipped up to a newline, which is an error.
unfoldable pub skip_space : Bytes → Option Bytes
unfolding is_space
skip_space [] = some []
skip_space (c ∷ text) =
    let next = skip_space text in
    if c == 10 then none else if is_space c then next else some (c ∷ text)

-- A number below `limit`, behind spaces: `none` is the error of `Sscanf`.
abbrev pub number_below : ℕ → ℕ × Bytes → Option (ℕ × Bytes)
number_below limit (n, text) = if ltb n limit then some (n, text) else none

abbrev pub number_at : ℕ → ℕ → Bytes → Option (ℕ × Bytes)
number_at base limit [] = none
number_at base limit (c ∷ text) =
    if is_digit base c then number_below limit (scan_digits base 0 (c ∷ text)) else none

unfoldable pub scan_uint : ℕ → ℕ → Bytes → Option (ℕ × Bytes)
unfolding skip_space scan_digits
scan_uint base limit text = elim (skip_space text) [
  | none ↦ none
  | some rest ↦ number_at base limit rest
]

-- The bytes up to the next space.
unfoldable pub scan_token : Bytes → Bytes × Bytes
unfolding is_space
scan_token [] = ([], [])
scan_token (c ∷ text) =
    let (word, rest) = scan_token text in if is_space c then ([], c ∷ text) else (c ∷ word, rest)

abbrev pub token_at : Bytes → Option (Bytes × Bytes)
token_at [] = none
token_at (c ∷ text) = some (scan_token (c ∷ text))

unfoldable pub scan_word : Bytes → Option (Bytes × Bytes)
unfolding skip_space scan_token
scan_word text = elim (skip_space text) [ none ↦ none | some rest ↦ token_at rest ]

abbrev pub AreDigits : ℕ → Bytes → Type 0
AreDigits base = All (λ (c : ℕ). is_digit base c ≡ true)

-- The text does not go on with a digit.
abbrev pub Stops : ℕ → Bytes → Type 0
Stops base [] = Unit {0}
Stops base (c ∷ text) = is_digit base c ≡ false

value : ℕ → ℕ → Bytes → ℕ
value base acc [] = acc
value base acc (c ∷ text) = value base (acc * base + (c - 48)) text

value-append :
    (base acc : ℕ) (xs ys : Bytes) → value base acc (xs ++ ys) ≡ value base (value base acc xs) ys
unfolding value
value-append base acc [] ys = refl
value-append base acc (c ∷ xs) ys = value-append base (acc * base + (c - 48)) xs ys

scan_digits-append :
    (base acc : ℕ) (xs rest : Bytes)
    → AreDigits base xs
    → Stops base rest
    → scan_digits base acc (xs ++ rest) ≡ (value base acc xs, rest)
unfolding scan_digits value
scan_digits-append base acc [] [] h stop = refl
scan_digits-append base acc [] (c ∷ rest) h stop = rw stop refl
scan_digits-append base acc (c ∷ xs) rest (d, h) stop =
    rw d (scan_digits-append base (acc * base + (c - 48)) xs rest h stop)

All-append_end :
    (base d : ℕ) (xs : Bytes)
    → AreDigits base xs
    → is_digit base d ≡ true
    → AreDigits base (xs ++ (d ∷ []))
All-append_end base d [] h e = (e, tt)
All-append_end base d (c ∷ xs) (g, h) e = (g, All-append_end base d xs h e)

is_digit-add : (base d : ℕ) → d < base → is_digit base (48 + d) ≡ true
unfolding is_digit
is_digit-add base d h = ground arith

format_loop-AreDigits : (base fuel n : ℕ) → 2 ≤ base → AreDigits base (format_loop base fuel n)
unfolding format_loop
format_loop-AreDigits base zero n h = tt
format_loop-AreDigits base (suc fuel) n h = elim (Bool-cases (ltb n base)) [
  | inl small ↦ rw small (is_digit-add base n (ground arith), tt)
  | inr large ↦ rw large (
      All-append_end base (48 + n % base) (format_loop base fuel (n / base))
        (format_loop-AreDigits base fuel (n / base) h)
        (is_digit-add base (n % base) (mod-lt n (omega arith))))
]

pub format_uint-AreDigits : (base n : ℕ) → 2 ≤ base → AreDigits base (format_uint base n)
unfolding format_uint
format_uint-AreDigits base n h = format_loop-AreDigits base (suc n) n h

-- The quotient by two or more is smaller.
quotient_less : (n base fuel : ℕ) → 2 ≤ base → base ≤ n → n < suc fuel → n / base < fuel
quotient_less n base fuel h k lt =
    omega (arith, div-lt_self {n = n} {k = base} (omega arith) (omega arith))

value-format_loop :
    (base fuel n : ℕ) → 2 ≤ base → n < fuel → value base 0 (format_loop base fuel n) ≡ n
unfolding format_loop value
value-format_loop base zero n h lt = absurd (omega arith)
value-format_loop base (suc fuel) n h lt = elim (Bool-cases (ltb n base)) [
  | inl small ↦ rw small (omega arith)
  | inr large ↦
      rw
        (
          large,
          value-append base 0 (format_loop base fuel (n / base)) ((48 + n % base) ∷ []),
          value-format_loop base fuel (n / base) h (quotient_less n base fuel h (ground arith) lt),
        )
        (omega (arith, div-add-mod' n base))
]

-- What starts with a digit holds no space in front.
skip_space-digit :
    (base c : ℕ) (text : Bytes)
    → base ≤ 10
    → is_digit base c ≡ true
    → skip_space (c ∷ text) ≡ some (c ∷ text)
unfolding skip_space is_digit is_space
skip_space-digit base c text h d = ground arith

scan_uint-digits :
    (base limit : ℕ) (xs rest : Bytes)
    → base ≤ 10
    → 0 < length xs
    → AreDigits base xs
    → Stops base rest
    → value base 0 xs < limit
    → scan_uint base limit (xs ++ rest) ≡ some (value base 0 xs, rest)
unfolding scan_uint value
scan_uint-digits base limit [] rest small some_digit h stop fits = absurd (omega arith)
scan_uint-digits base limit (c ∷ xs) rest small some_digit (d, h) stop fits =
    rw
      (
        scan_uint,
        skip_space-digit base c (xs ++ rest) small d,
        d,
        scan_digits-append base (0 * base + (c - 48)) xs rest h stop,
        lt→ltb (value base (0 * base + (c - 48)) xs) limit fits,
      )
      refl

format_loop-nonempty : (base fuel n : ℕ) → 0 < length (format_loop base (suc fuel) n)
unfolding format_loop
format_loop-nonempty base fuel n =
    ground (arith, length-append (format_loop base fuel (n / base)) ((48 + n % base) ∷ []))

value-zero : (base : ℕ) (xs : Bytes) → value base 0 (48 ∷ xs) ≡ value base 0 xs
unfolding value
value-zero base xs = ap (λ a. value base a xs) {x = 0 * base + (48 - 48)} (omega arith)

number_at-digits :
    (base limit : ℕ) (xs rest : Bytes)
    → 0 < length xs
    → AreDigits base xs
    → Stops base rest
    → value base 0 xs < limit
    → number_at base limit (xs ++ rest) ≡ some (value base 0 xs, rest)
unfolding value scan_digits
number_at-digits base limit [] rest some_digit h stop fits = absurd (omega arith)
number_at-digits base limit (c ∷ xs) rest some_digit (d, h) stop fits =
    rw
      (
        d,
        scan_digits-append base (0 * base + (c - 48)) xs rest h stop,
        lt→ltb (value base (0 * base + (c - 48)) xs) limit fits,
      )
      refl

-- A number that was printed is read where no space is skipped, with a zero in front or without.
pub number_at-format_uint :
    (base limit n : ℕ) (rest : Bytes)
    → 2 ≤ base
    → n < limit
    → Stops base rest
    → number_at base limit (format_uint base n ++ rest) ≡ some (n, rest)
unfolding format_uint
number_at-format_uint base limit n rest h fits stop =
    let it = value-format_loop base (suc n) n h (omega arith) in
    rw it at (
      number_at-digits base limit (format_loop base (suc n) n) rest (format_loop-nonempty base n n)
        (format_loop-AreDigits base (suc n) n h) stop (rw it fits))

pub number_at-zero :
    (base limit n : ℕ) (rest : Bytes)
    → 2 ≤ base
    → n < limit
    → Stops base rest
    → number_at base limit (48 ∷ (format_uint base n ++ rest)) ≡ some (n, rest)
unfolding format_uint
number_at-zero base limit n rest h fits stop =
    let it : value base 0 (48 ∷ format_loop base (suc n) n) ≡ n =
      rw value-zero (value-format_loop base (suc n) n h (omega arith)) in
    rw it at (
      number_at-digits base limit (48 ∷ format_loop base (suc n) n) rest (omega arith)
        (is_digit-add base 0 (omega arith), format_loop-AreDigits base (suc n) n h) stop
        (rw it fits))

-- A number that was printed is scanned, up to what follows it.
pub scan_uint-format_uint :
    (base limit n : ℕ) (rest : Bytes)
    → 2 ≤ base
    → base ≤ 10
    → n < limit
    → Stops base rest
    → scan_uint base limit (format_uint base n ++ rest) ≡ some (n, rest)
unfolding format_uint
scan_uint-format_uint base limit n rest h small fits stop =
    let it = value-format_loop base (suc n) n h (omega arith) in
    rw it at (
      scan_uint-digits base limit (format_loop base (suc n) n) rest small
        (format_loop-nonempty base n n) (format_loop-AreDigits base (suc n) n h) stop (rw it fits))

skip_space-visible :
    (c : ℕ) (text : Bytes) → is_space c ≡ false → c ≢ 10 → skip_space (c ∷ text) ≡ some (c ∷ text)
unfolding skip_space
skip_space-visible c text visible line = ground arith

-- A word without spaces is scanned, up to a space behind it.
abbrev pub IsWord : Bytes → Type 0
IsWord = All (λ (c : ℕ). (is_space c ≡ false) × (c ≢ 10))

scan_token-IsWord :
    (word text : Bytes) → IsWord word → scan_token (word ++ 32 ∷ text) ≡ (word, 32 ∷ text)
unfolding scan_token is_space
scan_token-IsWord [] text h = refl
scan_token-IsWord (c ∷ word) text ((visible, line), h) =
    rw (scan_token-IsWord word text h, visible) refl

pub scan_word-IsWord :
    (word text : Bytes)
    → IsWord word
    → 0 < length word
    → scan_word (word ++ 32 ∷ text) ≡ some (word, 32 ∷ text)
unfolding scan_word
scan_word-IsWord [] text h some_byte = absurd (omega arith)
scan_word-IsWord (c ∷ word) text ((visible, line), h) some_byte =
    rw
      (
        scan_word,
        skip_space-visible c (word ++ 32 ∷ text) visible line,
        scan_token-IsWord word text h,
        visible,
      )
      refl
