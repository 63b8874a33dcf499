-- ===== src/Delta/Codec.antt =====
-- `EncodeDelta` and `DecodeDelta` against each other.
use minus_sync.Prelude.{
  ℕ, zero, suc, ◌≤◌, ◌^◌, ◌<◌, some, List, [], ◌∷◌, ◌++◌, Bytes, length, ◌==◌, if◌then◌else◌, ok,
  put_uint32, put_uint64, get_uint32, get_bytes, ◌≡◌, refl, ap, ◌∙◌, append-nil, append_assoc,
  arith, All, get_bytes-append, get_uint32-put, get_uint64-put, length-append,
}
use minus_sync.Delta.{
  DeltaOp, op_copy, op_insert, copy_op, insert_op, encode_delta, decode_copy, decode_insert,
  decode_op, decode_loop, decode_delta,
}

-- An operation as `ComputeDelta` builds it: the fields of the other kind are zero, and the
-- numbers fit their widths.
pub data IsOp : DeltaOp → Type 0 where
  copy : {offset size : ℕ} → offset < 2 ^ 64 → size < 2 ^ 32 → IsOp (copy_op offset size)
  insert :
      {size : ℕ} {literal : Bytes}
      → size ≡ length literal
      → size < 2 ^ 32
      → IsOp (insert_op size literal)

-- What `encode_op` writes behind the type byte.
abbrev pub body : DeltaOp → Bytes
body op =
    if op.op_type == op_copy
    then put_uint64 op.src_offset ++ put_uint32 op.size
    else if op.op_type == op_insert
    then put_uint32 (length op.literal) ++ op.literal
    else []

get_bytes_fields :
    (offset size : ℕ) (rest : Bytes)
    → get_bytes 12 (put_uint64 offset ++ (put_uint32 size ++ rest))
      ≡ some (put_uint64 offset ++ put_uint32 size, rest)
unfolding get_bytes put_uint64 put_uint32
get_bytes_fields offset size rest = ground arith

get_uint32_end : (size : ℕ) → size < 2 ^ 32 → get_uint32 (put_uint32 size) ≡ some (size, [])
get_uint32_end size h = rw append-nil at (get_uint32-put size [] h)

decode_copy-put :
    (offset size : ℕ) (rest : Bytes)
    → offset < 2 ^ 64
    → size < 2 ^ 32
    → decode_copy (put_uint64 offset ++ (put_uint32 size ++ rest)) ≡ ok (copy_op offset size, rest)
unfolding decode_copy
decode_copy-put offset size rest ho hs =
    simp (get_bytes_fields, get_uint64-put offset (put_uint32 size) ho, get_uint32_end size hs)

decode_insert-put :
    (literal rest : Bytes)
    → length literal < 2 ^ 32
    → decode_insert (put_uint32 (length literal) ++ (literal ++ rest))
      ≡ ok (insert_op (length literal) literal, rest)
unfolding decode_insert
decode_insert-put literal rest h =
    simp (get_uint32-put (length literal) (literal ++ rest) h, get_bytes-append)

-- One operation is read back, whatever follows it.
decode_op-body :
    {op : DeltaOp} (rest : Bytes) → IsOp op → decode_op op.op_type (body op ++ rest) ≡ ok (op, rest)
unfolding decode_op
decode_op-body rest (copy {offset} {size} ho hs) =
    rw append_assoc (decode_copy-put offset size rest ho hs)
decode_op-body rest (insert {size} {literal} e h) =
    rw (e, append_assoc) (decode_insert-put literal rest (omega arith))

pub encode_delta-cons :
    {op : DeltaOp} (ops : List DeltaOp)
    → IsOp op
    → encode_delta (op ∷ ops) ≡ op.op_type ∷ (body op ++ encode_delta ops)
unfolding encode_delta
encode_delta-cons ops (copy ho hs) = refl
encode_delta-cons ops (insert e h) = refl

pub encode_delta-nil : encode_delta [] ≡ []
unfolding encode_delta
encode_delta-nil = refl

decode_loop-encode :
    (fuel : ℕ) (done ops : List DeltaOp)
    → All IsOp ops
    → length (encode_delta ops) ≤ fuel
    → decode_loop fuel done (encode_delta ops) ≡ ok (done ++ ops)
unfolding decode_loop
decode_loop-encode fuel done [] h enough = rw (encode_delta-nil, append-nil)
decode_loop-encode zero done (op ∷ ops) (h, hs) enough =
    absurd (omega (arith, ap length (encode_delta-cons ops h)))
decode_loop-encode (suc fuel) done (op ∷ ops) (h, hs) enough = rw (encode_delta-cons ops h) (
    simp (decode_op-body (encode_delta ops) h) (
      decode_loop-encode fuel (done ++ op ∷ []) ops hs (
        omega
          (arith, ap length (encode_delta-cons ops h), length-append (body op) (encode_delta ops)))
      ∙ ap ok (append_assoc done (op ∷ []) ops)))

-- `DecodeDelta` reads back what `EncodeDelta` wrote, for operations in the form of
-- `ComputeDelta` with numbers that fit their fields.
pub decode_delta-encode_delta :
    (ops : List DeltaOp) → All IsOp ops → decode_delta (encode_delta ops) ≡ ok ops
unfolding decode_delta
decode_delta-encode_delta ops h =
    decode_loop-encode (length (encode_delta ops)) [] ops h (omega arith)
