-- ===== src/Prelude/Strings.antt =====
-- Go strings as lists of bytes: literals, equality, order, search and the functions of package
-- `strings` that the program calls.
use Prim.Native.Char.{code}
use Prim.Native.String.{String}
use Prim.Native.Nat.{ℕ, ◌-◌}
use mathlib.Core.Path.{◌≡◌, refl}
use mathlib.Core.Logic.{◌↔◌, ◌≢◌}
use mathlib.Core.Bool.{Bool, true, false, ◌&&◌, ◌||◌}
use mathlib.Core.Option.{Option, none, some}
use mathlib.Core.List.{[], ◌∷◌, ◌++◌, reverse}
use native.Mathlib.Omega.{arith}
use minus_sync.Prelude.Tests.{ltb, leb, ◌==◌, if◌then◌else◌}
use minus_sync.Prelude.Lists.{Bytes, length, drop}

-- The bytes of an ASCII literal.
abbrev pub codes : String → Bytes
codes String.[] = []
codes (String.◌∷◌ c s) = code c ∷ codes s

-- `==` on strings and `bytes.Equal`.
unfoldable pub bytes_equal : Bytes → Bytes → Bool
bytes_equal [] [] = true
bytes_equal (x ∷ xs) (y ∷ ys) = x == y && bytes_equal xs ys
bytes_equal _ _ = false

pub bytes_equal_iff : (xs ys : Bytes) → (bytes_equal xs ys ≡ true) ↔ (xs ≡ ys)
unfolding bytes_equal
bytes_equal_iff [] [] = ground arith
bytes_equal_iff [] (y ∷ ys) = ground arith
bytes_equal_iff (x ∷ xs) [] = ground arith
bytes_equal_iff (x ∷ xs) (y ∷ ys) = ground (arith, bytes_equal_iff xs ys)

-- `<` on strings, and `bytes.Compare(a, b) < 0`: the lexicographic order.
unfoldable pub bytes_less : Bytes → Bytes → Bool
bytes_less xs [] = false
bytes_less [] (y ∷ ys) = true
bytes_less (x ∷ xs) (y ∷ ys) = ltb x y || (x == y && bytes_less xs ys)

pub bytes_less_irrefl : (xs : Bytes) → bytes_less xs xs ≡ false
unfolding bytes_less
bytes_less_irrefl [] = refl
bytes_less_irrefl (x ∷ xs) = ground (arith, bytes_less_irrefl xs)

pub bytes_less_trans :
    (xs ys zs : Bytes) → bytes_less xs ys ≡ true → bytes_less ys zs ≡ true → bytes_less xs zs ≡ true
unfolding bytes_less
bytes_less_trans xs [] zs h k = absurd (cc)
bytes_less_trans xs (y ∷ ys) [] h k = absurd (cc)
bytes_less_trans [] (y ∷ ys) (z ∷ zs) h k = refl
bytes_less_trans (x ∷ xs) (y ∷ ys) (z ∷ zs) h k = ground (arith, bytes_less_trans xs ys zs)

pub bytes_less-ne : (xs ys : Bytes) → bytes_less xs ys ≡ true → bytes_equal xs ys ≡ false
unfolding bytes_less bytes_equal
bytes_less-ne xs [] h = absurd (cc)
bytes_less-ne [] (y ∷ ys) h = refl
bytes_less-ne (x ∷ xs) (y ∷ ys) h = ground (arith, bytes_less-ne xs ys)

-- Of two different strings one is the smaller.
pub bytes_less_total :
    (xs ys : Bytes) → bytes_less xs ys ≡ false → bytes_less ys xs ≡ false → xs ≡ ys
unfolding bytes_less
bytes_less_total [] [] h k = refl
bytes_less_total [] (y ∷ ys) h k = absurd (cc)
bytes_less_total (x ∷ xs) [] h k = absurd (cc)
bytes_less_total (x ∷ xs) (y ∷ ys) h k = ground (arith, bytes_less_total xs ys)

-- `strings.IndexByte`: what stands before the first such byte and behind it.
unfoldable pub split_at_byte : ℕ → Bytes → Option (Bytes × Bytes)
split_at_byte c [] = none
split_at_byte c (b ∷ bytes) = if b == c then some ([], bytes) else elim (split_at_byte c bytes) [
  | none ↦ none
  | some (before, after) ↦ some (b ∷ before, after)
]

-- The byte does not occur.
abbrev pub Lacks : ℕ → Bytes → Type 0
Lacks c [] = Unit {0}
Lacks c (b ∷ bytes) = (b ≢ c) × Lacks c bytes

pub split_at_byte-append :
    (c : ℕ) (before after : Bytes)
    → Lacks c before
    → split_at_byte c (before ++ c ∷ after) ≡ some (before, after)
unfolding split_at_byte
split_at_byte-append c [] after h = ground arith
split_at_byte-append c (b ∷ before) after (ne, h) =
    ground (arith, split_at_byte-append c before after h)

pub split_at_byte-Lacks : (c : ℕ) (bytes : Bytes) → Lacks c bytes → split_at_byte c bytes ≡ none
unfolding split_at_byte
split_at_byte-Lacks c [] h = refl
split_at_byte-Lacks c (b ∷ bytes) (ne, h) = ground (arith, split_at_byte-Lacks c bytes h)

-- `strings.HasPrefix` and `strings.HasSuffix`.
unfoldable pub has_prefix : Bytes → Bytes → Bool
has_prefix prefix [] = bytes_equal prefix []
has_prefix [] (b ∷ bytes) = true
has_prefix (p ∷ prefix) (b ∷ bytes) = p == b && has_prefix prefix bytes

unfoldable pub has_suffix : Bytes → Bytes → Bool
has_suffix suffix bytes =
    leb (length suffix) (length bytes)
    && bytes_equal (drop (length bytes - length suffix) bytes) suffix

-- `strings.TrimSpace` on ASCII text.
unfoldable pub is_space : ℕ → Bool
is_space c = c == 32 || (leb 9 c && leb c 13)

unfoldable pub trim_left : Bytes → Bytes
unfolding is_space
trim_left [] = []
trim_left (b ∷ bytes) = if is_space b then trim_left bytes else b ∷ bytes

unfoldable pub trim_space : Bytes → Bytes
unfolding trim_left
trim_space bytes = reverse (trim_left (reverse (trim_left bytes)))
