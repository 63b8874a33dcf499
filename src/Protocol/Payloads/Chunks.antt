-- ===== src/Protocol/Payloads/Chunks.antt =====
-- `EncodeChunkHaves` and `DecodeChunkHaves` of internal/protocol/server.go: a bitmap in bytes.
pub mod RoundTrip
use Prim.Native.Nat.{bit_and, bit_or}
use minus_sync.Prelude.{
  ℕ, zero, suc, ◌+◌, ◌-◌, ◌*◌, ◌/◌, ◌%◌, ◌^◌, ◌<◌, ◌≤◌, Bool, true, false, not, ◌&&◌, ◌||◌, Option,
  none, some, List, [], ◌∷◌, ◌++◌, Bytes, length, take, drop, replicate, get_or, set, ltb, ◌==◌,
  if◌then◌else◌, Result, ok, err, or_err, ◌>>=◌, put_uint32, get_uint32, ◌≡◌, ◌≢◌, refl, ap, ap₂,
  ==_iff, sym, ◌∙◌, arith, get_uint32-put, length-put_uint32, length-append, length-set, get_or-set,
  length-replicate, get_or-replicate, All, Bool-cases, ◌⊎◌, inl, inr,
}
use minus_sync.Protocol.Payloads.{Error, invalid_chunk_haves}

-- `buf[4+i/8] |= 1 << (i%8)`, on the part of `buf` behind the count.
unfoldable pub set_bit : Bytes → ℕ → Bytes
set_bit buf i = set buf (i / 8) (bit_or (get_or buf (i / 8) 0) (2 ^ (i % 8)))

unfoldable pub set_bits : Bytes → ℕ → List Bool → Bytes
set_bits buf i [] = buf
set_bits buf i (have ∷ bitmap) = set_bits (if have then set_bit buf i else buf) (i + 1) bitmap

unfoldable pub encode_chunk_haves : List Bool → Bytes
unfolding set_bits set_bit
encode_chunk_haves bitmap =
    put_uint32 (length bitmap % 2 ^ 32) ++ set_bits (replicate ((length bitmap + 7) / 8) 0) 0 bitmap

-- `payload[4+i/8] & (1 << (i%8)) != 0`.
unfoldable pub test_bit : Bytes → ℕ → Bool
test_bit buf i = not (bit_and (get_or buf (i / 8) 0) (2 ^ (i % 8)) == 0)

unfoldable pub test_bits : Bytes → ℕ → ℕ → List Bool
test_bits buf zero i = []
test_bits buf (suc count) i = test_bit buf i ∷ test_bits buf count (i + 1)

unfoldable pub decode_chunk_haves : Bytes → Result Error (List Bool)
unfolding test_bits test_bit
decode_chunk_haves payload = do
  (count, buf) ← or_err invalid_chunk_haves (get_uint32 payload)
  if ltb (length payload) (4 + (count + 7) / 8)
      then err invalid_chunk_haves
      else ok (test_bits buf count 0)
