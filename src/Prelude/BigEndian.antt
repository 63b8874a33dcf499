-- ===== src/Prelude/BigEndian.antt =====
-- `encoding/binary.BigEndian`, and reads of a known number of bytes from the front of a slice.
use Prim.Native.Nat.{ℕ, ◌+◌, ◌≤◌, ◌*◌, ◌/◌, ◌%◌, ◌^◌, ◌<◌}
use mathlib.Core.Path.{◌≡◌, refl, sym, ◌∙◌, ap}
use mathlib.Core.Logic.{inl, inr}
use mathlib.Core.List.{append_assoc, append-nil, [], ◌∷◌, ◌++◌}
use mathlib.Core.Option.{Option, none, some}
use native.Mathlib.Omega.{arith}
use minus_sync.Prelude.Tests.{leb, leb→le, if◌then◌else◌, Bool-cases}
use minus_sync.Prelude.Lists.{
  Bytes, length, take, drop, take-append, drop-append, length-append, All, All-take, All-drop,
  take-append-drop, length-take, length-drop,
}

abbrev pub IsByte : ℕ → Type 0
IsByte b = b < 256

abbrev pub IsBytes : Bytes → Type 0
IsBytes = All IsByte

-- `PutUint16`, `PutUint32`, `PutUint64`.
unfoldable pub put_uint16 : ℕ → Bytes
put_uint16 v = v / 2 ^ 8 % 256 ∷ v % 256 ∷ []

unfoldable pub put_uint32 : ℕ → Bytes
put_uint32 v = v / 2 ^ 24 % 256 ∷ v / 2 ^ 16 % 256 ∷ v / 2 ^ 8 % 256 ∷ v % 256 ∷ []

unfoldable pub put_uint64 : ℕ → Bytes
unfolding put_uint32
put_uint64 v = put_uint32 (v / 2 ^ 32) ++ put_uint32 v

-- A read of the next number, with what follows it; `none` if the slice is too short.
unfoldable pub get_uint16 : Bytes → Option (ℕ × Bytes)
get_uint16 (a ∷ b ∷ rest) = some (a * 2 ^ 8 + b, rest)
get_uint16 _ = none

unfoldable pub get_uint32 : Bytes → Option (ℕ × Bytes)
get_uint32 (a ∷ b ∷ c ∷ d ∷ rest) = some (a * 2 ^ 24 + b * 2 ^ 16 + c * 2 ^ 8 + d, rest)
get_uint32 _ = none

unfoldable pub get_uint64 : Bytes → Option (ℕ × Bytes)
get_uint64 (a ∷ b ∷ c ∷ d ∷ e ∷ f ∷ g ∷ h ∷ rest) = some (
  (a * 2 ^ 24 + b * 2 ^ 16 + c * 2 ^ 8 + d) * 2 ^ 32 + (e * 2 ^ 24 + f * 2 ^ 16 + g * 2 ^ 8 + h),
  rest,
)
get_uint64 _ = none

-- `data[pos : pos+n]` behind the test `pos+n > len(data)`; also `io.ReadFull`.
unfoldable pub get_byte : Bytes → Option (ℕ × Bytes)
get_byte [] = none
get_byte (b ∷ rest) = some (b, rest)

unfoldable pub get_bytes : ℕ → Bytes → Option (Bytes × Bytes)
get_bytes n xs = if leb n (length xs) then some (take n xs, drop n xs) else none

pub get_uint16-put :
    (v : ℕ) (rest : Bytes) → v < 2 ^ 16 → get_uint16 (put_uint16 v ++ rest) ≡ some (v, rest)
unfolding get_uint16 put_uint16
get_uint16-put v rest h = ap (λ (n : ℕ). some (n, rest)) (omega arith)

pub get_uint32-put :
    (v : ℕ) (rest : Bytes) → v < 2 ^ 32 → get_uint32 (put_uint32 v ++ rest) ≡ some (v, rest)
unfolding get_uint32 put_uint32
get_uint32-put v rest h = ap (λ (n : ℕ). some (n, rest)) (omega arith)

pub get_uint64-put :
    (v : ℕ) (rest : Bytes) → v < 2 ^ 64 → get_uint64 (put_uint64 v ++ rest) ≡ some (v, rest)
unfolding get_uint64 put_uint64
get_uint64-put v rest h = ap (λ (n : ℕ). some (n, rest)) (omega arith)

pub get_bytes-append : (xs rest : Bytes) → get_bytes (length xs) (xs ++ rest) ≡ some (xs, rest)
unfolding get_bytes
get_bytes-append xs rest =
    ground (arith, take-append xs rest, drop-append xs rest, length-append xs rest)

pub IsBytes-put_uint16 : (v : ℕ) → IsBytes (put_uint16 v)
unfolding put_uint16
IsBytes-put_uint16 v = omega arith

pub none-ne-some {ℓ} : {A : Type ℓ} {a : A} → none ≡ some a → ⊥
none-ne-some e = cc

pub some_pair {ℓ κ} :
    {A : Type ℓ} {B : Type κ} {a c : A} {b d : B}
    → ◌≡◌ {A = Option (A × B)} (some (a, b)) (some (c, d))
    → (a ≡ c) × (b ≡ d)
some_pair e = (cc, cc)

bytes_of_uint16 : (a b : ℕ) → a < 256 → b < 256 → put_uint16 (a * 2 ^ 8 + b) ≡ a ∷ b ∷ []
unfolding put_uint16
bytes_of_uint16 a b ha hb = ground arith

bytes_of_uint32 :
    (a b c d : ℕ)
    → a < 256
    → b < 256
    → c < 256
    → d < 256
    → put_uint32 (a * 2 ^ 24 + b * 2 ^ 16 + c * 2 ^ 8 + d) ≡ a ∷ b ∷ c ∷ d ∷ []
unfolding put_uint32
bytes_of_uint32 a b c d ha hb hc hd = ground arith

put_uint64-high_low :
    (hi lo : ℕ) → lo < 2 ^ 32 → put_uint64 (hi * 2 ^ 32 + lo) ≡ put_uint32 hi ++ put_uint32 lo
unfolding put_uint64 put_uint32
put_uint64-high_low hi lo h = ground arith

pub get_bytes-append_of_length :
    (n : ℕ) (xs rest : Bytes) → length xs ≡ n → get_bytes n (xs ++ rest) ≡ some (xs, rest)
get_bytes-append_of_length n xs rest e =
    ap (λ k. get_bytes k (xs ++ rest)) (sym e) ∙ get_bytes-append xs rest

pub get_bytes_all : (n : ℕ) (xs : Bytes) → length xs ≡ n → get_bytes n xs ≡ some (xs, [])
get_bytes_all n xs e = rw append-nil at (get_bytes-append_of_length n xs [] e)

pub length-put_uint32 : (v : ℕ) → length (put_uint32 v) ≡ 4
unfolding put_uint32
length-put_uint32 v = refl

pub get_bytes_short : (n : ℕ) (xs : Bytes) → length xs < n → get_bytes n xs ≡ none
unfolding get_bytes
get_bytes_short n xs h = ground arith

pub get_bytes_long :
    (n : ℕ) (xs : Bytes) → n ≤ length xs → get_bytes n xs ≡ some (take n xs, drop n xs)
unfolding get_bytes
get_bytes_long n xs h = ground arith

-- What a successful read says of the slice: the bytes of the number stand at its front.
pub get_uint16-eq-some :
    (xs : Bytes) {v : ℕ} {rest : Bytes}
    → IsBytes xs
    → get_uint16 xs ≡ some (v, rest)
    → (xs ≡ put_uint16 v ++ rest) × (v < 2 ^ 16) × IsBytes rest
unfolding get_uint16
get_uint16-eq-some (a ∷ b ∷ rest) (ha, (hb, h)) e =
    let (v, r) = some_pair e in rw (← v, ← r) (rw (bytes_of_uint16 a b ha hb) refl, omega arith, h)
get_uint16-eq-some (a ∷ []) h e = cc
get_uint16-eq-some [] h e = cc

pub get_uint32-eq-some :
    (xs : Bytes) {v : ℕ} {rest : Bytes}
    → IsBytes xs
    → get_uint32 xs ≡ some (v, rest)
    → (xs ≡ put_uint32 v ++ rest) × (v < 2 ^ 32) × IsBytes rest
unfolding get_uint32
get_uint32-eq-some (a ∷ b ∷ c ∷ d ∷ rest) (ha, (hb, (hc, (hd, h)))) e =
    let (v, r) = some_pair e in
    rw (← v, ← r) (rw (bytes_of_uint32 a b c d ha hb hc hd) refl, omega arith, h)
get_uint32-eq-some (a ∷ b ∷ c ∷ []) h e = cc
get_uint32-eq-some (a ∷ b ∷ []) h e = cc
get_uint32-eq-some (a ∷ []) h e = cc
get_uint32-eq-some [] h e = cc

-- A 64-bit number is read as two of 32 bits.
get_uint64-halves :
    (xs : Bytes) {v : ℕ} {rest : Bytes}
    → get_uint64 xs ≡ some (v, rest)
    → (hi lo : ℕ) × (mid : Bytes) × (get_uint32 xs ≡ some (hi, mid))
      × (get_uint32 mid ≡ some (lo, rest))
      × (v ≡ hi * 2 ^ 32 + lo)
unfolding get_uint64 get_uint32
get_uint64-halves (a ∷ b ∷ c ∷ d ∷ e ∷ f ∷ g ∷ h ∷ rest) q =
    let (v, r) = some_pair q in (_, _, e ∷ f ∷ g ∷ h ∷ rest, refl, rw r refl, sym v)
get_uint64-halves (a ∷ b ∷ c ∷ d ∷ e ∷ f ∷ g ∷ []) q = cc
get_uint64-halves (a ∷ b ∷ c ∷ d ∷ e ∷ f ∷ []) q = cc
get_uint64-halves (a ∷ b ∷ c ∷ d ∷ e ∷ []) q = cc
get_uint64-halves (a ∷ b ∷ c ∷ d ∷ []) q = cc
get_uint64-halves (a ∷ b ∷ c ∷ []) q = cc
get_uint64-halves (a ∷ b ∷ []) q = cc
get_uint64-halves (a ∷ []) q = cc
get_uint64-halves [] q = cc

pub get_uint64-eq-some :
    (xs : Bytes) {v : ℕ} {rest : Bytes}
    → IsBytes xs
    → get_uint64 xs ≡ some (v, rest)
    → (xs ≡ put_uint64 v ++ rest) × (v < 2 ^ 64) × IsBytes rest
get_uint64-eq-some xs {v} {rest} h e =
    let (hi, lo, mid, first, second, sum) = get_uint64-halves xs e in
    let (front, hi_lt, mid_bytes) = get_uint32-eq-some xs h first in
    let (back, lo_lt, rest_bytes) = get_uint32-eq-some mid mid_bytes second in
    (
      rw (sum, put_uint64-high_low hi lo lo_lt, append_assoc)
          (front ∙ ap (λ (m : Bytes). put_uint32 hi ++ m) back),
      omega arith,
      rest_bytes,
    )

pub get_bytes-eq-some :
    (n : ℕ) (xs : Bytes) {ys rest : Bytes}
    → IsBytes xs
    → get_bytes n xs ≡ some (ys, rest)
    → (xs ≡ ys ++ rest) × (length ys ≡ n) × IsBytes ys × IsBytes rest
unfolding get_bytes
get_bytes-eq-some n xs h e = elim (Bool-cases (leb n (length xs))) [
  | inl fits ↦
      let (y, r) = some_pair (rw fits at e) in
      rw (← y, ← r)
        (
          sym (take-append-drop n xs),
          omega (arith, length-take n xs, leb→le n (length xs) fits),
          All-take IsByte n xs h,
          All-drop IsByte n xs h,
        )
  | inr short ↦ absurd (none-ne-some (rw short at e))
]

-- A slice that is long enough is read.
pub get_byte-eq_some_of_lt :
    (xs : Bytes)
    → 0 < length xs
    → (b : ℕ) × (rest : Bytes) × (get_byte xs ≡ some (b, rest)) × (length rest + 1 ≡ length xs)
unfolding get_byte
get_byte-eq_some_of_lt [] h = absurd (omega arith)
get_byte-eq_some_of_lt (b ∷ rest) h = (b, rest, refl, omega arith)

pub get_uint32-eq_some_of_le :
    (xs : Bytes)
    → 4 ≤ length xs
    → (v : ℕ) × (rest : Bytes) × (get_uint32 xs ≡ some (v, rest)) × (length rest + 4 ≡ length xs)
unfolding get_uint32
get_uint32-eq_some_of_le (a ∷ b ∷ c ∷ d ∷ rest) h = (_, rest, refl, omega arith)
get_uint32-eq_some_of_le (a ∷ b ∷ c ∷ []) h = absurd (omega arith)
get_uint32-eq_some_of_le (a ∷ b ∷ []) h = absurd (omega arith)
get_uint32-eq_some_of_le (a ∷ []) h = absurd (omega arith)
get_uint32-eq_some_of_le [] h = absurd (omega arith)

pub get_uint64-eq_some_of_le :
    (xs : Bytes)
    → 8 ≤ length xs
    → (v : ℕ) × (rest : Bytes) × (get_uint64 xs ≡ some (v, rest)) × (length rest + 8 ≡ length xs)
unfolding get_uint64
get_uint64-eq_some_of_le (a ∷ b ∷ c ∷ d ∷ e ∷ f ∷ g ∷ h ∷ rest) _ = (_, rest, refl, omega arith)
get_uint64-eq_some_of_le (a ∷ b ∷ c ∷ d ∷ e ∷ f ∷ g ∷ []) h = absurd (omega arith)
get_uint64-eq_some_of_le (a ∷ b ∷ c ∷ d ∷ e ∷ f ∷ []) h = absurd (omega arith)
get_uint64-eq_some_of_le (a ∷ b ∷ c ∷ d ∷ e ∷ []) h = absurd (omega arith)
get_uint64-eq_some_of_le (a ∷ b ∷ c ∷ d ∷ []) h = absurd (omega arith)
get_uint64-eq_some_of_le (a ∷ b ∷ c ∷ []) h = absurd (omega arith)
get_uint64-eq_some_of_le (a ∷ b ∷ []) h = absurd (omega arith)
get_uint64-eq_some_of_le (a ∷ []) h = absurd (omega arith)
get_uint64-eq_some_of_le [] h = absurd (omega arith)

-- The length of what is left, and of what was read.
pub length-get_uint32 :
    (xs : Bytes) {v : ℕ} {rest : Bytes}
    → get_uint32 xs ≡ some (v, rest)
    → length rest + 4 ≡ length xs
unfolding get_uint32
length-get_uint32 (a ∷ b ∷ c ∷ d ∷ rest) e = omega (arith, ap length (some_pair e).1)
length-get_uint32 (a ∷ b ∷ c ∷ []) e = cc
length-get_uint32 (a ∷ b ∷ []) e = cc
length-get_uint32 (a ∷ []) e = cc
length-get_uint32 [] e = cc

pub length-get_bytes :
    (n : ℕ) (xs : Bytes) {ys rest : Bytes}
    → get_bytes n xs ≡ some (ys, rest)
    → (length ys ≡ n) × (length rest + n ≡ length xs)
unfolding get_bytes
length-get_bytes n xs e = elim (Bool-cases (leb n (length xs))) [
  | inl fits ↦
      let (y, r) = some_pair (rw fits at e) in
      let le = leb→le n (length xs) fits in
      (omega (arith, length-take n xs, ap length y), omega (arith, length-drop n xs, ap length r))
  | inr short ↦ absurd (none-ne-some (rw short at e))
]
