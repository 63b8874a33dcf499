-- ===== src/Delta/Total.antt =====
-- `DecodeDelta` returns on every input: its loop ends and no index is out of range.
use minus_sync.Prelude.{
  ℕ, zero, suc, ◌≤◌, List, [], ◌∷◌, ◌++◌, Bytes, length, ◌==◌, Result, ok, err, ◌>>=◌, get_uint32,
  get_bytes, arith, inl, inr, ◌≢◌, Bool-cases, Option-cases, length-get_bytes, length-get_uint32,
  get_uint32-eq_some_of_le, get_uint64-eq_some_of_le,
}
use minus_sync.Delta.{
  DeltaOp, Error, out_of_fuel, op_copy, op_insert, decode_copy, decode_insert, decode_op,
  decode_loop, decode_delta,
}

-- The code returned: a value with `P`, or an error of the source.
pub data Completes {A : Type 0} (P : A → Type 0) : Result Error A → Type 0 where
  returned : {a : A} → P a → Completes P (ok a)
  failed : {e : Error} → e ≢ out_of_fuel → Completes P (err e)

abbrev Shorter : Bytes → DeltaOp × Bytes → Type 0
Shorter bytes r = length r.1 ≤ length bytes

decode_copy-Completes : (bytes : Bytes) → Completes (Shorter bytes) (decode_copy bytes)
unfolding decode_copy
decode_copy-Completes bytes = elim (Option-cases (get_bytes 12 bytes)) [
  | inl short ↦ rw short (failed (λ e. cc))
  | inr ((fields, rest), got) ↦
      let (twelve, total) = length-get_bytes 12 bytes got in
      let (offset, fields', got_offset, left) = get_uint64-eq_some_of_le fields (omega arith) in
      let (size, after, got_size, _) = get_uint32-eq_some_of_le fields' (omega arith) in
      rw got (rw got_offset (rw got_size (returned (omega arith))))
]

decode_insert-Completes : (bytes : Bytes) → Completes (Shorter bytes) (decode_insert bytes)
unfolding decode_insert
decode_insert-Completes bytes = elim (Option-cases (get_uint32 bytes)) [
  | inl short ↦ rw short (failed (λ e. cc))
  | inr ((size, rest), got) ↦ elim (Option-cases (get_bytes size rest)) [
    | inl short ↦ rw got (rw short (failed (λ e. cc)))
    | inr ((literal, rest'), got') ↦ rw got (
        rw got'
          (returned (omega (arith, length-get_uint32 bytes got, length-get_bytes size rest got'))))
  ]
]

decode_op-Completes :
    (op_type : ℕ) (bytes : Bytes) → Completes (Shorter bytes) (decode_op op_type bytes)
unfolding decode_op
decode_op-Completes op_type bytes = elim (Bool-cases (op_type == op_copy)) [
  | inl e ↦ rw e (decode_copy-Completes bytes)
  | inr e ↦ elim (Bool-cases (op_type == op_insert)) [
    | inl f ↦ rw (e, f) (decode_insert-Completes bytes)
    | inr f ↦ rw (e, f) (failed (λ e. cc))
  ]
]

-- The rule for a read that is followed by more of the loop.
Completes-bind :
    {A B : Type 0} {P : A → Type 0} {Q : B → Type 0} {m : Result Error A} (f : A → Result Error B)
    → Completes P m
    → ((a : A) → P a → Completes Q (f a))
    → Completes Q (m >>= f)
Completes-bind f (returned p) k = k _ p
Completes-bind f (failed e) k = failed e

decode_loop-Completes :
    (fuel : ℕ) (done : List DeltaOp) (bytes : Bytes)
    → length bytes ≤ fuel
    → Completes (λ ops. Unit) (decode_loop fuel done bytes)
unfolding decode_loop
decode_loop-Completes fuel done [] h = returned tt
decode_loop-Completes zero done (b ∷ bytes) h = absurd (omega arith)
decode_loop-Completes (suc fuel) done (b ∷ bytes) h =
    Completes-bind _ (decode_op-Completes b bytes)
      (λ (op, rest) shorter. decode_loop-Completes fuel (done ++ op ∷ []) rest (omega arith))

-- On every slice of bytes `DecodeDelta` returns operations or one of its errors.
pub decode_delta-Completes : (bytes : Bytes) → Completes (λ ops. Unit) (decode_delta bytes)
unfolding decode_delta
decode_delta-Completes bytes = decode_loop-Completes (length bytes) [] bytes (omega arith)
