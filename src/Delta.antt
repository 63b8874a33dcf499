-- ===== src/Delta.antt =====
-- internal/delta/delta.go and internal/delta/patch.go: binary deltas. A byte slice is a list of
-- numbers below 256; a loop index `pos` is the part of the slice that it has not passed.
pub mod Codec
pub mod Decoded
pub mod Total
pub mod Compute
pub mod Applies
pub mod Compact
pub mod Matches
pub mod Reconstruct
pub mod Faults
mod Tests
use minus_sync.Prelude.{
  ℕ, zero, suc, ◌+◌, ◌-◌, ◌*◌, ◌%◌, ◌^◌, ◌<◌, Bool, true, false, not, ◌&&◌, Option, none, some,
  List, [], ◌∷◌, ◌++◌, Bytes, length, take, drop, ltb, leb, ◌==◌, if◌then◌else◌, Result, ok, err,
  panic, ◌>>=◌, put_uint32, put_uint64, get_uint32, get_uint64, get_bytes, or_err, or_panic,
}

abbrev pub op_copy : ℕ
op_copy = 0

abbrev pub op_insert : ℕ
op_insert = 1

-- `Length` and `Data` are `size` and `literal` here.
pub record DeltaOp : Type 0 where
  pub op_type : ℕ
  pub src_offset : ℕ
  pub dst_offset : ℕ
  pub size : ℕ
  pub literal : Bytes

abbrev pub copy_op : ℕ → ℕ → DeltaOp
copy_op offset size = record {
  op_type = op_copy;
  src_offset = offset;
  dst_offset = 0;
  size = size;
  literal = [];
}

abbrev pub insert_op : ℕ → Bytes → DeltaOp
insert_op size literal = record {
  op_type = op_insert;
  src_offset = 0;
  dst_offset = 0;
  size = size;
  literal = literal;
}

-- The errors that the functions of the package return. `out_of_fuel` is none of them: it says
-- that a loop of the model stopped early.
pub data Error : Type 0 where
  copy_exceeds_base truncated_copy truncated_insert truncated_literal : Error
  unknown_op : ℕ → Error
  out_of_fuel : Error

-- `base[lo:hi]` for `hi ≤ len(base)`: a slice whose bounds are out of order is a panic.
unfoldable pub slice : Bytes → ℕ → ℕ → Result Error Bytes
slice base lo hi = if leb lo hi then ok (take (hi - lo) (drop lo base)) else panic

-- One turn of the loop of `ApplyDelta`: what is appended to the result.
unfoldable pub apply_op : Bytes → DeltaOp → Result Error Bytes
unfolding slice
apply_op base op =
    if op.op_type == op_copy
    then (let src_end = (op.src_offset + op.size) % 2 ^ 64 in
        if ltb (length base) src_end
        then err copy_exceeds_base
        else slice base op.src_offset src_end)
    else if op.op_type == op_insert
    then ok op.literal
    else ok []

unfoldable pub apply_loop : Bytes → Bytes → List DeltaOp → Result Error Bytes
apply_loop base result [] = ok result
apply_loop base result (op ∷ ops) = do
  piece ← apply_op base op
  apply_loop base (result ++ piece) ops

unfoldable pub apply_delta : Bytes → List DeltaOp → Result Error Bytes
unfolding apply_loop apply_op
apply_delta base ops = apply_loop base [] ops

-- `EncodeDelta`. An operation of no known type is written as its type alone.
unfoldable pub encode_op : DeltaOp → Bytes
encode_op op =
    (op.op_type % 256)
    ∷ (if op.op_type == op_copy
        then put_uint64 op.src_offset ++ put_uint32 op.size
        else if op.op_type == op_insert
        then put_uint32 (length op.literal) ++ op.literal
        else [])

unfoldable pub encode_delta : List DeltaOp → Bytes
unfolding encode_op
encode_delta [] = []
encode_delta (op ∷ ops) = encode_op op ++ encode_delta ops

-- The two cases of `DecodeDelta`, behind the type byte.
unfoldable pub decode_copy : Bytes → Result Error (DeltaOp × Bytes)
decode_copy rest = do
  (fields, rest') ← or_err truncated_copy (get_bytes 12 rest)
  (offset, fields') ← or_panic (get_uint64 fields)
  (size, _) ← or_panic (get_uint32 fields')
  ok (copy_op offset size, rest')

unfoldable pub decode_insert : Bytes → Result Error (DeltaOp × Bytes)
decode_insert rest = do
  (size, rest') ← or_err truncated_insert (get_uint32 rest)
  (literal, rest'') ← or_err truncated_literal (get_bytes size rest')
  ok (insert_op size literal, rest'')

unfoldable pub decode_op : ℕ → Bytes → Result Error (DeltaOp × Bytes)
unfolding decode_copy decode_insert
decode_op op_type rest =
    if op_type == op_copy
    then decode_copy rest
    else if op_type == op_insert
    then decode_insert rest
    else err (unknown_op op_type)

unfoldable pub decode_loop : ℕ → List DeltaOp → Bytes → Result Error (List DeltaOp)
decode_loop fuel ops [] = ok ops
decode_loop zero ops (b ∷ rest) = err out_of_fuel
decode_loop (suc fuel) ops (b ∷ rest) = do
  (op, rest') ← decode_op b rest
  decode_loop fuel (ops ++ op ∷ []) rest'

-- Every turn of the loop takes a byte at least.
unfoldable pub decode_delta : Bytes → Result Error (List DeltaOp)
unfolding decode_loop decode_op
decode_delta bytes = decode_loop (length bytes) [] bytes

-- patch.go
unfoldable pub patch : Bytes → Bytes → Result Error Bytes
patch base delta = do ops ← decode_delta delta; apply_delta base ops

unfoldable pub patch_multiple : Bytes → List Bytes → Result Error Bytes
patch_multiple current [] = ok current
patch_multiple current (d ∷ ds) = do next ← patch current d; patch_multiple next ds
