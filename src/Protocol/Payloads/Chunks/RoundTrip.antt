-- ===== src/Protocol/Payloads/Chunks/RoundTrip.antt =====
-- Every bit of a bitmap is read back.
use Prim.Native.Nat.{bit_and, bit_or}
use minus_sync.Prelude.{
  ℕ, zero, suc, ◌+◌, ◌*◌, ◌/◌, ◌%◌, ◌^◌, ◌<◌, ◌≤◌, Bool, true, false, not, ◌&&◌, ◌||◌, List, [],
  ◌∷◌, ◌++◌, Bytes, length, replicate, get_or, ltb, if◌then◌else◌, ◌==◌, ok, put_uint32, ◌≡◌, refl,
  ap, ap₂, ==_iff, sym, ◌∙◌, arith, get_uint32-put, length-put_uint32, length-append, length-set,
  get_or-set, length-replicate, get_or-replicate, Bool-cases, inl, inr,
}
use mathlib.Core.Bool.{false≢true}
use minus_sync.Protocol.Payloads.Chunks.{
  set_bit, set_bits, encode_chunk_haves, test_bit, test_bits, decode_chunk_haves,
}

-- The two operations on one byte, checked for every byte and every pair of bits.
row_holds : (ℕ → Bool) → ℕ → Bool
row_holds test zero = true
row_holds test (suc bound) =
    let earlier = row_holds test bound in if test bound then earlier else false

row_holds-entry :
    (test : ℕ → Bool) (bound k : ℕ) → k < bound → row_holds test bound ≡ true → test k ≡ true
unfolding row_holds
row_holds-entry test zero k inside whole = absurd (omega arith)
row_holds-entry test (suc bound) k inside whole = elim (Bool-cases (test bound)) [
  | inl top ↦ ground (arith, row_holds-entry test bound k)
  | inr top ↦ absurd (false≢true (rw top at whole))
]

same : Bool → Bool → Bool
same true b = b
same false b = not b

byte_bit : ℕ → ℕ → Bool
byte_bit x k = not (bit_and x (2 ^ k) == 0)

one_bit : ℕ → ℕ → ℕ → Bool
one_bit x k l =
    ltb (bit_or x (2 ^ k)) 256 && same (byte_bit (bit_or x (2 ^ k)) l) (k == l || byte_bit x l)

bit_table : row_holds (λ x. row_holds (λ k. row_holds (one_bit x k) 8) 8) 256 ≡ true
unfolding row_holds one_bit byte_bit same
bit_table = refl

bit_facts :
    (x k l : ℕ)
    → x < 256
    → k < 8
    → l < 8
    → (bit_or x (2 ^ k) < 256) × (byte_bit (bit_or x (2 ^ k)) l ≡ (k == l || byte_bit x l))
unfolding one_bit same
bit_facts x k l hx hk hl =
    let row =
      row_holds-entry (λ x. row_holds (λ k. row_holds (one_bit x k) 8) 8) 256 x hx bit_table in
    let cell = row_holds-entry (λ k. row_holds (one_bit x k) 8) 8 k hk row in
    let fact = row_holds-entry (one_bit x k) 8 l hl cell in (ground arith, ground arith)

zero_table : row_holds (λ l. not (byte_bit 0 l)) 8 ≡ true
unfolding row_holds byte_bit
zero_table = refl

byte_bit-zero : (l : ℕ) → l < 8 → byte_bit 0 l ≡ false
byte_bit-zero l h = ground (arith, row_holds-entry (λ l. not (byte_bit 0 l)) 8 l h zero_table)

-- Every element of the buffer is a byte.
record IsBuffer (buf : Bytes) : Type 0 where
  at : (j : ℕ) → get_or buf j 0 < 256

IsBuffer-set_bit :
    {buf : Bytes} (i : ℕ) → i / 8 < length buf → IsBuffer buf → IsBuffer (set_bit buf i)
unfolding set_bit
IsBuffer-set_bit {buf} i h v = record {
  at = λ j. rw (get_or-set buf (i / 8) j (bit_or (get_or buf (i / 8) 0) (2 ^ (i % 8))) 0 h) (
      ground (
        arith,
        v.at j,
        (bit_facts (get_or buf (i / 8) 0) (i % 8) 0 (v.at (i / 8)) (omega arith) (omega arith)).0,
      ));
}

test_bit-byte_bit : (buf : Bytes) (j : ℕ) → test_bit buf j ≡ byte_bit (get_or buf (j / 8) 0) (j % 8)
unfolding test_bit byte_bit
test_bit-byte_bit buf j = refl

same_index : (i j : ℕ) → i / 8 ≡ j / 8 → (i % 8 == j % 8) ≡ (i == j)
same_index i j h = ground arith

other_index : (i j : ℕ) → (i / 8 == j / 8) ≡ false → (i == j) ≡ false
other_index i j h = ground arith

test_bit-set_bit :
    (buf : Bytes) (i j : ℕ)
    → i / 8 < length buf
    → IsBuffer buf
    → test_bit (set_bit buf i) j ≡ (i == j || test_bit buf j)
unfolding set_bit
test_bit-set_bit buf i j h v =
    let x = get_or buf (i / 8) 0 in
    let facts = (bit_facts x (i % 8) (j % 8) (v.at (i / 8)) (omega arith) (omega arith)).1 in
    rw
      (
        test_bit-byte_bit,
        test_bit-byte_bit,
        get_or-set buf (i / 8) (j / 8) (bit_or x (2 ^ (i % 8))) 0 h,
      )
      (elim (Bool-cases (i / 8 == j / 8)) [
        | inl there ↦ rw there (
            let q = (==_iff (i / 8) (j / 8)).0 there in
            facts ∙ ap₂ ◌||◌ (same_index i j q) (ap (λ d. byte_bit (get_or buf d 0) (j % 8)) q))
        | inr other ↦ rw (other, other_index i j other) refl
      ])

length-set_bits :
    (buf : Bytes) (i : ℕ) (bitmap : List Bool) → length (set_bits buf i bitmap) ≡ length buf
unfolding set_bits set_bit
length-set_bits buf i [] = refl
length-set_bits buf i (true ∷ bitmap) =
    length-set_bits (set_bit buf i) (i + 1) bitmap ∙ length-set buf (i / 8) _
length-set_bits buf i (false ∷ bitmap) = length-set_bits buf (i + 1) bitmap

length-set_bit : (buf : Bytes) (i : ℕ) → length (set_bit buf i) ≡ length buf
unfolding set_bit
length-set_bit buf i = length-set buf (i / 8) _

differ : (i j : ℕ) → j < i → (i == j) ≡ false
differ i j h = ground arith

differ_up : (i n : ℕ) → (i == i + 1 + n) ≡ false
differ_up i n = ground arith

shift : (i n : ℕ) → i + suc n ≡ i + 1 + n
shift i n = omega arith

at_zero : (i : ℕ) → i + 0 ≡ i
at_zero i = omega arith

or_false : (b : Bool) → (b || false) ≡ b
or_false true = refl
or_false false = refl

set_bits-below :
    (buf : Bytes) (i : ℕ) (bitmap : List Bool) (j : ℕ)
    → IsBuffer buf
    → i + length bitmap ≤ 8 * length buf
    → j < i
    → test_bit (set_bits buf i bitmap) j ≡ test_bit buf j
unfolding set_bits
set_bits-below buf i [] j v h lt = refl
set_bits-below buf i (false ∷ bitmap) j v h lt =
    set_bits-below buf (i + 1) bitmap j v (omega arith) (omega arith)
set_bits-below buf i (true ∷ bitmap) j v h lt =
    set_bits-below (set_bit buf i) (i + 1) bitmap j (IsBuffer-set_bit i (omega arith) v)
      (omega (arith, length-set_bit buf i)) (omega arith)
    ∙ test_bit-set_bit buf i j (omega arith) v
    ∙ ap (λ b. b || test_bit buf j) (differ i j lt)

-- After the loop from `i`, the bit at `i + n` is that of the bitmap, where it was clear before.
set_bits-at :
    (buf : Bytes) (i : ℕ) (bitmap : List Bool) (n : ℕ)
    → IsBuffer buf
    → i + length bitmap ≤ 8 * length buf
    → n < length bitmap
    → test_bit (set_bits buf i bitmap) (i + n) ≡ (get_or bitmap n false || test_bit buf (i + n))
unfolding set_bits
set_bits-at buf i [] n v h lt = absurd (omega arith)
set_bits-at buf i (false ∷ bitmap) zero v h lt =
    set_bits-below buf (i + 1) bitmap (i + 0) v (omega arith) (omega arith)
set_bits-at buf i (true ∷ bitmap) zero v h lt =
    set_bits-below (set_bit buf i) (i + 1) bitmap (i + 0) (IsBuffer-set_bit i (omega arith) v)
      (omega (arith, length-set_bit buf i)) (omega arith)
    ∙ test_bit-set_bit buf i (i + 0) (omega arith) v
    ∙ ground arith
set_bits-at buf i (false ∷ bitmap) (suc n) v h lt =
    rw (shift i n) (set_bits-at buf (i + 1) bitmap n v (omega arith) (omega arith))
set_bits-at buf i (true ∷ bitmap) (suc n) v h lt = rw (shift i n) (
    set_bits-at (set_bit buf i) (i + 1) bitmap n (IsBuffer-set_bit i (omega arith) v)
      (omega (arith, length-set_bit buf i)) (omega arith)
    ∙ ap (λ b. get_or bitmap n false || b)
        (test_bit-set_bit buf i (i + 1 + n) (omega arith) v
          ∙ ap (λ b. b || test_bit buf (i + 1 + n)) (differ_up i n)))

test_bits-eq :
    (buf : Bytes) (i : ℕ) (bitmap : List Bool)
    → ((n : ℕ) → n < length bitmap → test_bit buf (i + n) ≡ get_or bitmap n false)
    → test_bits buf (length bitmap) i ≡ bitmap
unfolding test_bits
test_bits-eq buf i [] h = refl
test_bits-eq buf i (have ∷ bitmap) h =
    ap₂ ◌∷◌ (rw (at_zero i) at (h 0 (omega arith)))
      (test_bits-eq buf (i + 1) bitmap (λ n lt. rw (sym (shift i n)) (h (suc n) (omega arith))))

cleared : (n : ℕ) → IsBuffer (replicate n 0)
cleared n = record { at = λ j. omega (arith, get_or-replicate {A = ℕ} n j 0) }

clear_bit : (n j : ℕ) → test_bit (replicate n 0) j ≡ false
clear_bit n j =
    test_bit-byte_bit (replicate n 0) j
    ∙ ap (λ x. byte_bit x (j % 8)) (get_or-replicate n (j / 8) 0)
    ∙ byte_bit-zero (j % 8) (omega arith)

abbrev packed : List Bool → Bytes
packed bitmap = set_bits (replicate ((length bitmap + 7) / 8) 0) 0 bitmap

test_bits-packed : (bitmap : List Bool) → test_bits (packed bitmap) (length bitmap) 0 ≡ bitmap
test_bits-packed bitmap =
    let size = (length bitmap + 7) / 8 in
    test_bits-eq (packed bitmap) 0 bitmap (λ n lt.
      set_bits-at (replicate size 0) 0 bitmap n (cleared size)
        (omega (arith, length-replicate {A = ℕ} size 0)) lt
      ∙ rw (clear_bit size (0 + n)) (or_false (get_or bitmap n false)))

length-packed : (bitmap : List Bool) → length (packed bitmap) ≡ (length bitmap + 7) / 8
length-packed bitmap =
    length-set_bits (replicate ((length bitmap + 7) / 8) 0) 0 bitmap
    ∙ length-replicate ((length bitmap + 7) / 8) 0

encode_chunk_haves-packed :
    (bitmap : List Bool)
    → encode_chunk_haves bitmap ≡ put_uint32 (length bitmap % 2 ^ 32) ++ packed bitmap
unfolding encode_chunk_haves
encode_chunk_haves-packed bitmap = refl

decode_chunk_haves-packed :
    (bitmap : List Bool)
    → length bitmap < 2 ^ 32
    → decode_chunk_haves (put_uint32 (length bitmap) ++ packed bitmap) ≡ ok bitmap
unfolding decode_chunk_haves
decode_chunk_haves-packed bitmap fits =
    let payload = put_uint32 (length bitmap) ++ packed bitmap in
    let long : ltb (length payload) (4 + (length bitmap + 7) / 8) ≡ false = ground (
      arith,
      length-append (put_uint32 (length bitmap)) (packed bitmap),
      length-put_uint32 (length bitmap),
      length-packed bitmap,
    ) in
    rw (get_uint32-put (length bitmap) (packed bitmap) fits)
      (rw long (ap ok (test_bits-packed bitmap)))

-- A bitmap of less than 2^32 chunks, whatever its length modulo 8, is read back bit by bit.
pub decode_chunk_haves-encode_chunk_haves :
    (bitmap : List Bool)
    → length bitmap < 2 ^ 32
    → decode_chunk_haves (encode_chunk_haves bitmap) ≡ ok bitmap
decode_chunk_haves-encode_chunk_haves bitmap fits =
    let wrap : length bitmap % 2 ^ 32 ≡ length bitmap = omega arith in
    rw (encode_chunk_haves-packed, wrap) (decode_chunk_haves-packed bitmap fits)
