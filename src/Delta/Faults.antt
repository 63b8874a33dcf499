-- ===== src/Delta/Faults.antt =====
-- Inputs on which the package does not do what it means to: a copy operation whose end wraps
-- around, and chunks whose rolling hashes collide.
use minus_sync.Prelude.{
  ℕ, zero, suc, ◌+◌, ◌-◌, ◌%◌, ◌^◌, ◌≤◌, ◌<◌, Bytes, ok, panic, ◌>>=◌, [], ◌∷◌, length, take, drop,
  ◌≡◌, refl, sym, ap, ◌∙◌, arith, take-all, ==_iff,
}
use minus_sync.Delta.{DeltaOp, copy_op, apply_op, apply_loop, apply_delta, encode_delta, patch}
use minus_sync.Delta.Codec.{copy, decode_delta-encode_delta}
use minus_sync.Delta.Compute.{
  chunk_size, rolling_hash32, HashIndex, build_hash_index, find_best_match, compute_step,
  compute_loop, compact_ops, compute_delta,
}

apply_op-wraps :
    (base : Bytes) (offset size : ℕ)
    → offset < 2 ^ 64
    → size < 2 ^ 32
    → 2 ^ 64 ≤ offset + size
    → offset + size - 2 ^ 64 ≤ length base
    → apply_op base (copy_op offset size) ≡ panic
unfolding apply_op
apply_op-wraps base offset size ho hs over fits =
    let wrapped : (offset + size) % 2 ^ 64 ≡ offset + size - 2 ^ 64 = omega arith in
    rw wrapped (ground arith)

-- A delta with a copy whose offset and length fit their fields, but whose end passes 2^64 and
-- wraps to a place inside the base, makes `Patch` panic: the test against the base's length
-- lets it through.
pub patch-wraps :
    (base : Bytes) (offset size : ℕ)
    → offset < 2 ^ 64
    → size < 2 ^ 32
    → 2 ^ 64 ≤ offset + size
    → offset + size - 2 ^ 64 ≤ length base
    → patch base (encode_delta (copy_op offset size ∷ [])) ≡ panic
unfolding patch apply_delta apply_loop
patch-wraps base offset size ho hs over fits =
    rw (decode_delta-encode_delta (copy_op offset size ∷ []) (copy ho hs, tt))
      (rw (apply_op-wraps base offset size ho hs over fits) refl)

drop-eq-nil : (n : ℕ) (xs : Bytes) → length xs ≤ n → drop n xs ≡ []
drop-eq-nil zero [] h = refl
drop-eq-nil zero (x ∷ xs) h = absurd (omega arith)
drop-eq-nil (suc n) [] h = refl
drop-eq-nil (suc n) (x ∷ xs) h = drop-eq-nil n xs (omega arith)

one_chunk_index :
    (base : Bytes) (k : ℕ)
    → length base ≡ chunk_size
    → k ≡ rolling_hash32 base
    → build_hash_index base k ≡ 0 ∷ []
unfolding build_hash_index
one_chunk_index base k h e =
    let whole = take-all chunk_size base (omega arith) in
    let same =
      (==_iff k (rolling_hash32 (take chunk_size base))).1 (e ∙ ap rolling_hash32 (sym whole)) in
    rw h (rw same refl)

best_of_one_chunk :
    (base target : Bytes)
    → length base ≡ chunk_size
    → length target ≡ chunk_size
    → rolling_hash32 target ≡ rolling_hash32 base
    → find_best_match base target (build_hash_index base) ≡ record { offset = 0; size = chunk_size }
unfolding find_best_match
best_of_one_chunk base target h g e =
    let whole = take-all chunk_size target (omega arith) in
    rw
      (
        g,
        one_chunk_index base (rolling_hash32 (take chunk_size target)) h
            (ap rolling_hash32 whole ∙ e),
        drop-eq-nil chunk_size base (omega arith),
      )
      refl

compute_loop_end :
    (fuel : ℕ) (base : Bytes) (index : HashIndex) {op : DeltaOp} (turn : DeltaOp × Bytes)
    → turn ≡ (op, [])
    → compute_loop fuel base index (turn.0 ∷ []) turn.1 ≡ ok (op ∷ [])
unfolding compute_loop
compute_loop_end fuel base index turn e = rw e refl

compute_step-no_more :
    (t : ℕ) (target : Bytes)
    → length (t ∷ target) ≡ chunk_size
    → compute_step (record { offset = 0; size = chunk_size }) t target ≡ (copy_op 0 chunk_size, [])
unfolding compute_step
compute_step-no_more t target g = rw (drop-eq-nil chunk_size (t ∷ target) (omega arith)) refl

compute_loop_once :
    (base target : Bytes) (index : HashIndex)
    → length target ≡ chunk_size
    → find_best_match base target index ≡ record { offset = 0; size = chunk_size }
    → compute_loop (length target) base index [] target ≡ ok (copy_op 0 chunk_size ∷ [])
unfolding compute_loop
compute_loop_once base [] index g best = absurd (omega arith)
compute_loop_once base (t ∷ target) index g best =
    compute_loop_end (length target) base index
      (compute_step (find_best_match base (t ∷ target) index) t target)
      (rw best (compute_step-no_more t target g))

compute_delta-cons :
    (b : ℕ) (base target : Bytes)
    → compute_delta (b ∷ base) target ≡ (
        compute_loop (length target) (b ∷ base) (build_hash_index (b ∷ base)) [] target >>= λ ops.
        ok (compact_ops ops))
unfolding compute_delta
compute_delta-cons b base target = refl

compact_one : (op : DeltaOp) → compact_ops (op ∷ []) ≡ op ∷ []
unfolding compact_ops
compact_one op = refl

apply_delta_whole :
    (base : Bytes)
    → length base ≡ chunk_size
    → apply_delta base (copy_op 0 chunk_size ∷ []) ≡ ok base
unfolding apply_delta
apply_delta_whole base h = rw h (ap ok (take-all chunk_size base (omega arith)))

-- If a base and a target of one chunk each have the same rolling hash, `ComputeDelta` takes the
-- base for the target, whatever its bytes: its delta rebuilds the base.
pub compute_delta-collision :
    (base target : Bytes)
    → length base ≡ chunk_size
    → length target ≡ chunk_size
    → rolling_hash32 target ≡ rolling_hash32 base
    → (compute_delta base target >>= apply_delta base) ≡ ok base
compute_delta-collision [] target h g e = absurd (omega arith)
compute_delta-collision (b ∷ base) target h g e =
    let once =
      compute_loop_once (b ∷ base) target (build_hash_index (b ∷ base)) g
        (best_of_one_chunk (b ∷ base) target h g e) in
    rw (compute_delta-cons, once, compact_one) (apply_delta_whole (b ∷ base) h)
