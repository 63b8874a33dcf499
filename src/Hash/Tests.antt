-- ===== src/Hash/Tests.antt =====
-- The functions of internal/hash on small inputs.
use minus_sync.Prelude.{◌∷◌, ◌++◌, replicate, codes, ◌≡◌, refl, err, ok, arith}
use minus_sync.Hash.{
  Hash, IsHash, invalid_hex, invalid_length, hex, from_hex, string, from_hex-hex, IsHash-from_hex,
  object_name_injective,
}

abbrev some_hash : Hash
some_hash = 0xab ∷ 0x0f ∷ 0x10 ∷ 0xff ∷ replicate 28 7

some_hash-IsHash : IsHash some_hash
some_hash-IsHash = omega arith

string-some_hash : string some_hash ≡ codes "ab0f10f"
unfolding string hex
string-some_hash = refl

from_hex-hex_test : from_hex (hex some_hash) ≡ ok some_hash
from_hex-hex_test = from_hex-hex some_hash some_hash-IsHash

upper_case : from_hex (codes "AB" ++ replicate 62 48) ≡ ok (0xab ∷ replicate 31 0)
unfolding from_hex
upper_case = refl

from_hex_errors :
    (from_hex (replicate 64 103) ≡ err invalid_hex)
    × (from_hex (codes "ab") ≡ err (invalid_length 2))
unfolding from_hex
from_hex_errors = (refl, refl)

upper_case-IsHash : IsHash (0xab ∷ replicate 31 0)
upper_case-IsHash = IsHash-from_hex (codes "AB" ++ replicate 62 48) upper_case

object_name_injective_test : ◌≡◌ {A = Hash} some_hash some_hash
object_name_injective_test =
    object_name_injective some_hash some_hash some_hash-IsHash some_hash-IsHash refl refl
