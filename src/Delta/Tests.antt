-- ===== src/Delta/Tests.antt =====
-- The functions of internal/delta on small inputs.
use minus_sync.Prelude.{
  ◌-◌, ◌^◌, Bytes, ok, err, panic, ◌>>=◌, List, [], ◌∷◌, ◌++◌, replicate, ◌≡◌, refl, arith, All,
  IsBytes, get_bytes, get_uint64, get_uint32, put_uint64,
}
use minus_sync.Delta.{
  DeltaOp, truncated_copy, truncated_literal, unknown_op, copy_op, insert_op, apply_delta,
  encode_delta, decode_delta, patch, patch_multiple,
}
use minus_sync.Delta.Codec.{IsOp, copy, insert, decode_delta-encode_delta}
use minus_sync.Delta.Decoded.{encode_delta-decode_delta}
use minus_sync.Delta.Total.{Completes, decode_delta-Completes}
use minus_sync.Delta.Compute.{rolling_hash32, compact_ops, compute_delta}
use minus_sync.Delta.Compact.{apply_delta-compact_ops}
use minus_sync.Delta.Reconstruct.{Rebuilds, apply_delta-compute_delta}
use minus_sync.Delta.Faults.{patch-wraps, compute_delta-collision}

abbrev two_ops : List DeltaOp
two_ops = copy_op 3 20 ∷ insert_op 2 (7 ∷ 8 ∷ []) ∷ []

two_ops-IsOp : All IsOp two_ops
two_ops-IsOp = (copy (omega arith) (omega arith), (insert (omega arith) (omega arith), tt))

abbrev two_ops_bytes : Bytes
two_ops_bytes = 0 ∷ 0 ∷ 0 ∷ 0 ∷ 0 ∷ 0 ∷ 0 ∷ 0 ∷ 3 ∷ 0 ∷ 0 ∷ 0 ∷ 20 ∷ 1 ∷ 0 ∷ 0 ∷ 0 ∷ 2 ∷ 7 ∷ 8 ∷ []

encode-two_ops : encode_delta two_ops ≡ two_ops_bytes
unfolding encode_delta put_uint64
encode-two_ops = refl

errors :
    (decode_delta (0 ∷ 1 ∷ []) ≡ err truncated_copy)
    × (decode_delta (1 ∷ 0 ∷ 0 ∷ 0 ∷ 2 ∷ 9 ∷ []) ≡ err truncated_literal)
    × (decode_delta (7 ∷ []) ≡ err (unknown_op 7))
unfolding decode_delta get_bytes get_uint64 get_uint32
errors = (refl, refl, refl)

decode_delta-encode_delta_example : decode_delta (encode_delta two_ops) ≡ ok two_ops
decode_delta-encode_delta_example = decode_delta-encode_delta two_ops two_ops-IsOp

decode-two_ops : decode_delta two_ops_bytes ≡ ok two_ops
unfolding decode_delta get_bytes get_uint64 get_uint32
decode-two_ops = refl

two_ops-IsBytes : IsBytes two_ops_bytes
two_ops-IsBytes = omega arith

encode_delta-decode_delta_test : (encode_delta two_ops ≡ two_ops_bytes) × All IsOp two_ops
encode_delta-decode_delta_test =
    encode_delta-decode_delta two_ops_bytes two_ops two_ops-IsBytes decode-two_ops

decode_delta-Completes_example : Completes (λ ops. Unit {0}) (decode_delta (0 ∷ 1 ∷ []))
decode_delta-Completes_example = decode_delta-Completes (0 ∷ 1 ∷ [])

abbrev literals : List DeltaOp
literals = insert_op 1 (5 ∷ []) ∷ copy_op 2 0 ∷ insert_op 1 (6 ∷ []) ∷ copy_op 0 2 ∷ []

compact-literals : compact_ops literals ≡ insert_op 2 (5 ∷ 6 ∷ []) ∷ copy_op 0 2 ∷ []
unfolding compact_ops
compact-literals = refl

literals-IsOp : All IsOp literals
literals-IsOp = (
  insert (omega arith) (omega arith),
  (
    copy (omega arith) (omega arith),
    (insert (omega arith) (omega arith), (copy (omega arith) (omega arith), tt)),
  ),
)

apply-literals : apply_delta (1 ∷ 2 ∷ 3 ∷ []) literals ≡ ok (5 ∷ 6 ∷ 1 ∷ 2 ∷ [])
unfolding apply_delta
apply-literals = refl

apply_delta-compact_ops_example :
    apply_delta (1 ∷ 2 ∷ 3 ∷ []) (compact_ops literals) ≡ ok (5 ∷ 6 ∷ 1 ∷ 2 ∷ [])
apply_delta-compact_ops_example =
    apply_delta-compact_ops (1 ∷ 2 ∷ 3 ∷ []) literals (5 ∷ 6 ∷ 1 ∷ 2 ∷ []) literals-IsOp
      apply-literals

abbrev old_file : Bytes
old_file = 1 ∷ 2 ∷ 3 ∷ 4 ∷ replicate 16 9 ++ 5 ∷ 6 ∷ []

abbrev new_file : Bytes
new_file = 8 ∷ replicate 16 9 ++ 5 ∷ 7 ∷ []

compute-files :
    compute_delta old_file new_file
    ≡ ok (insert_op 1 (8 ∷ []) ∷ copy_op 4 17 ∷ insert_op 1 (7 ∷ []) ∷ [])
unfolding compute_delta
compute-files = refl

apply_delta-compute_delta_example : Rebuilds old_file new_file
apply_delta-compute_delta_example =
    apply_delta-compute_delta old_file new_file (omega arith) (omega arith)

-- 1 * 31 + 0 is 0 * 31 + 31.
abbrev chunk_one : Bytes
chunk_one = replicate 14 0 ++ 1 ∷ 0 ∷ []

abbrev chunk_other : Bytes
chunk_other = replicate 14 0 ++ 0 ∷ 31 ∷ []

same_hash : rolling_hash32 chunk_other ≡ rolling_hash32 chunk_one
unfolding rolling_hash32
same_hash = refl

compute_delta-collision_example :
    (compute_delta chunk_one chunk_other >>= apply_delta chunk_one) ≡ ok chunk_one
compute_delta-collision_example = compute_delta-collision chunk_one chunk_other refl refl same_hash

patch-wraps_example : patch (7 ∷ []) (encode_delta (copy_op (2 ^ 64 - 1) 2 ∷ [])) ≡ panic
patch-wraps_example =
    patch-wraps (7 ∷ []) (2 ^ 64 - 1) 2 (omega arith) (omega arith) (omega arith) (omega arith)

patch_twice :
    patch_multiple (1 ∷ 2 ∷ []) (
      encode_delta (copy_op 0 2 ∷ insert_op 1 (3 ∷ []) ∷ []) ∷ encode_delta (copy_op 1 2 ∷ []) ∷ [])
    ≡ ok (2 ∷ 3 ∷ [])
unfolding patch_multiple patch encode_delta decode_delta apply_delta get_bytes put_uint64 get_uint64
    get_uint32
patch_twice = refl
