-- ===== src/Hash.antt =====
-- internal/hash/hash.go: SHA-256 hashes as 32 bytes, and their hexadecimal text.
mod Tests
use minus_sync.Prelude.{
  ℕ, zero, suc, ◌+◌, ◌-◌, ◌*◌, ◌/◌, ◌%◌, ◌<◌, ◌≤◌, Bool, true, false, ◌&&◌, Option, none, some,
  List, [], ◌∷◌, ◌++◌, Bytes, length, take, drop, replicate, ltb, leb, ◌==◌, if◌then◌else◌, Result,
  ok, err, or_err, ◌>>=◌, bytes_equal, bytes_equal_iff, IsBytes, IsByte, ◌≡◌, refl, ap, sym, ◌∙◌,
  ap₂, arith, take-append-drop, Ensures, Ensures-bind, Ensures-ok, Ensures-err, Ensures-or_err,
  Ensures-if, Bool-cases, ◌⊎◌, inl, inr, ok_injective, Option-cases, ==_iff, err-ne-ok,
}

abbrev pub hash_size : ℕ
hash_size = 32

abbrev pub hex_size : ℕ
hex_size = 64

abbrev pub Hash : Type 0
Hash = Bytes

-- What `[Size]byte` says of a hash.
abbrev pub IsHash : Hash → Type 0
IsHash h = (length h ≡ hash_size) × IsBytes h

abbrev pub zero_hash : Hash
zero_hash = replicate hash_size 0

pub data Error : Type 0 where
  invalid_length : ℕ → Error
  invalid_hex : Error

-- `encoding/hex`: digits are written in lower case, and read in either.
unfoldable pub hex_digit : ℕ → ℕ
hex_digit n = if ltb n 10 then 48 + n else 87 + n

unfoldable pub from_hex_char : ℕ → Option ℕ
from_hex_char c =
    if leb 48 c && leb c 57
    then some (c - 48)
    else if leb 97 c && leb c 102
    then some (c - 87)
    else if leb 65 c && leb c 70
    then some (c - 55)
    else none

unfoldable pub encode_hex : Bytes → Bytes
unfolding hex_digit
encode_hex [] = []
encode_hex (b ∷ bytes) = hex_digit (b / 16) ∷ hex_digit (b % 16) ∷ encode_hex bytes

unfoldable pub decode_pair : ℕ → ℕ → Option ℕ
unfolding from_hex_char
decode_pair c d = elim (from_hex_char c) [
  | none ↦ none
  | some hi ↦ elim (from_hex_char d) [ none ↦ none | some lo ↦ some (hi * 16 + lo) ]
]

unfoldable pub decode_hex : Bytes → Result Error Bytes
decode_hex [] = ok []
decode_hex (c ∷ []) = err invalid_hex
decode_hex (c ∷ d ∷ rest) = do
  b ← or_err invalid_hex (decode_pair c d)
  bytes ← decode_hex rest
  ok (b ∷ bytes)

unfoldable pub from_hex : Bytes → Result Error Hash
unfolding decode_hex decode_pair
from_hex s = if length s == hex_size then decode_hex s else err (invalid_length (length s))

unfoldable pub hex : Hash → Bytes
unfolding encode_hex
hex h = encode_hex h

unfoldable pub is_zero : Hash → Bool
is_zero h = bytes_equal h zero_hash

unfoldable pub equal : Hash → Hash → Bool
equal h other = bytes_equal h other

unfoldable pub prefix : Hash → ℕ → Bytes
prefix h n = let s = hex h in take (if ltb (length s) n then length s else n) s

unfoldable pub string : Hash → Bytes
string h = take 7 (hex h)

unfoldable pub dir_prefix : Hash → Bytes
unfolding prefix
dir_prefix h = prefix h 2

unfoldable pub rest : Hash → Bytes
rest h = drop 2 (hex h)

pub length-hex : (h : Bytes) → length (hex h) ≡ 2 * length h
unfolding hex
length-hex [] = refl
length-hex (b ∷ bytes) = omega (arith, length-hex bytes)

decode_pair-hex_digit :
    (b : ℕ) → b < 256 → decode_pair (hex_digit (b / 16)) (hex_digit (b % 16)) ≡ some b
unfolding decode_pair hex_digit
decode_pair-hex_digit b h = ground arith

encode_hex-cons :
    (b : ℕ) (bytes : Bytes)
    → encode_hex (b ∷ bytes) ≡ hex_digit (b / 16) ∷ hex_digit (b % 16) ∷ encode_hex bytes
unfolding encode_hex
encode_hex-cons b bytes = refl

encode_hex-nil : encode_hex [] ≡ []
unfolding encode_hex
encode_hex-nil = refl

decode_hex-encode_hex : (bytes : Bytes) → IsBytes bytes → decode_hex (encode_hex bytes) ≡ ok bytes
unfolding decode_hex
decode_hex-encode_hex [] h = rw encode_hex-nil refl
decode_hex-encode_hex (b ∷ bytes) (hb, h) =
    rw (encode_hex-cons, decode_pair-hex_digit b hb) (rw (decode_hex-encode_hex bytes h) refl)

hex-encode_hex : (h : Hash) → hex h ≡ encode_hex h
unfolding hex
hex-encode_hex h = refl

-- `FromHex` reads back the text of every hash.
pub from_hex-hex : (h : Hash) → IsHash h → from_hex (hex h) ≡ ok h
unfolding from_hex
from_hex-hex h (size, bytes) =
    let long : length (hex h) ≡ hex_size = omega (arith, length-hex h) in
    rw long (rw hex-encode_hex (decode_hex-encode_hex h bytes))

from_hex_char-lt : (c : ℕ) {v : ℕ} → from_hex_char c ≡ some v → v < 16
unfolding from_hex_char
from_hex_char-lt c e = ground arith

IsByte-decode_pair : (c d : ℕ) {b : ℕ} → decode_pair c d ≡ some b → IsByte b
unfolding decode_pair
IsByte-decode_pair c d e = ground arith

-- What was decoded: bytes, half as many as the characters.
abbrev Decoded : Bytes → Bytes → Type 0
Decoded s bytes = (2 * length bytes ≡ length s) × IsBytes bytes

decode_hex-Decoded : (s : Bytes) → Ensures (Decoded s) (decode_hex s)
unfolding decode_hex
decode_hex-Decoded [] = Ensures-ok [] (refl, tt)
decode_hex-Decoded (c ∷ []) = Ensures-err _
decode_hex-Decoded (c ∷ d ∷ s) =
    Ensures-bind IsByte _ _ (Ensures-or_err _ _ (λ b e. IsByte-decode_pair c d e)) (λ b hb.
      Ensures-bind (Decoded s) _ _ (decode_hex-Decoded s)
        (λ bytes (size, h). Ensures-ok _ (omega arith, (hb, h))))

-- Whatever `FromHex` accepts is a hash.
pub IsHash-from_hex : (s : Bytes) {h : Hash} → from_hex s ≡ ok h → IsHash h
unfolding from_hex
IsHash-from_hex s {h} e = elim (Bool-cases (length s == hex_size)) [
  | inl long ↦
      let (size, bytes) = (decode_hex-Decoded s).at h (rw long at e) in
      (omega (arith, (==_iff (length s) hex_size).0 long), bytes)
  | inr other ↦ absurd (err-ne-ok (rw other at e))
]

-- Two hashes with the same text are the same.
pub hex_injective : (h k : Hash) → IsHash h → IsHash k → hex h ≡ hex k → h ≡ k
hex_injective h k hh hk e =
    ok_injective (sym (from_hex-hex h hh) ∙ ap from_hex e ∙ from_hex-hex k hk)

pub dir_prefix-append-rest : (h : Hash) → IsHash h → dir_prefix h ++ rest h ≡ hex h
unfolding dir_prefix rest
dir_prefix-append-rest h (size, bytes) =
    let long : length (hex h) ≡ hex_size = omega (arith, length-hex h) in
    rw long (take-append-drop 2 (hex h))

-- The directory and the file name under which an object is stored determine its hash.
pub object_name_injective :
    (h k : Hash) → IsHash h → IsHash k → dir_prefix h ≡ dir_prefix k → rest h ≡ rest k → h ≡ k
object_name_injective h k hh hk e f =
    hex_injective h k hh hk
      (sym (dir_prefix-append-rest h hh) ∙ ap₂ ◌++◌ e f ∙ dir_prefix-append-rest k hk)
