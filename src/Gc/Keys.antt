-- ===== src/Gc/Keys.antt =====
-- internal/gc/gc.go: the keys of the map `reachable` are the texts of hashes.
use minus_sync.Prelude.{
  ℕ, ◌/◌, ◌%◌, true, List, [], ◌∷◌, Bytes, bytes_equal, bytes_equal_iff, ◌≡◌, refl, ap₂, ◌⊎◌, inl,
  inr, Bool-cases, arith,
}
use mathlib.Core.List.{head-eq_of_cons-eq, tail-eq_of_cons-eq}
use minus_sync.Hash.{Hash, hex, encode_hex, hex_digit}
use minus_sync.Gc.{contains}

hex_digit_injective : (m n : ℕ) → hex_digit m ≡ hex_digit n → m ≡ n
unfolding hex_digit
hex_digit_injective m n e = ground arith

-- Equal texts are texts of equal bytes, whatever their number.
pub hex_text_injective : (h k : Hash) → hex h ≡ hex k → h ≡ k
unfolding hex encode_hex
hex_text_injective [] [] e = refl
hex_text_injective [] (b ∷ k) e = absurd (cc)
hex_text_injective (a ∷ h) [] e = absurd (cc)
hex_text_injective (a ∷ h) (b ∷ k) e =
    let high = hex_digit_injective (a / 16) (b / 16) (head-eq_of_cons-eq e) in
    let low = hex_digit_injective (a % 16) (b % 16) (head-eq_of_cons-eq (tail-eq_of_cons-eq e)) in
    ap₂ ◌∷◌ (omega (arith, high, low))
      (hex_text_injective h k (tail-eq_of_cons-eq (tail-eq_of_cons-eq e)))

pub contains-cons :
    (key other : Bytes) (marked : List Bytes)
    → contains other (key ∷ marked) ≡ true
    → (key ≡ other) ⊎ (contains other marked ≡ true)
unfolding contains
contains-cons key other marked e = elim (Bool-cases (bytes_equal key other)) [
  | inl same ↦ inl ((bytes_equal_iff key other).0 same)
  | inr different ↦ inr (rw different at e)
]

pub contains_behind :
    (key other : Bytes) (marked : List Bytes)
    → contains other marked ≡ true
    → contains other (key ∷ marked) ≡ true
unfolding contains
contains_behind key other marked e = ground (arith, e)

pub contains_first : (key : Bytes) (marked : List Bytes) → contains key (key ∷ marked) ≡ true
unfolding contains
contains_first key marked = rw ((bytes_equal_iff key key).1 refl) refl
