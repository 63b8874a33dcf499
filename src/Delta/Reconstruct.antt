-- ===== src/Delta/Reconstruct.antt =====
-- `ApplyDelta` after `ComputeDelta`.
use minus_sync.Prelude.{
  ℕ, zero, suc, ◌+◌, ◌-◌, ◌%◌, ◌^◌, ◌≤◌, ◌<◌, true, Bytes, Result, ok, List, [], ◌∷◌, ◌++◌, length,
  take, drop, leb, ◌≡◌, refl, sym, ap, ◌∙◌, arith, All, All-append, length-drop, length-take,
  length-append, take-append-drop, take-add, drop-drop, append_assoc, append-nil, subst, ap₂,
}
use minus_sync.Delta.{DeltaOp, Error, copy_op, insert_op, apply_op, apply_delta}
use minus_sync.Delta.Codec.{IsOp, copy, insert}
use minus_sync.Delta.Compute.{
  chunk_size, rolling_hash32, HashIndex, build_hash_index, Match, find_best_match, compute_step,
  compute_loop, compact_ops, compute_delta,
}
use minus_sync.Delta.Applies.{Applies, done, Applies-append, Applies-one, apply_delta-Applies}
use minus_sync.Delta.Compact.{Applies-compact_ops}
use minus_sync.Delta.Matches.{
  IsIndex, IsMatch, IsFound, nothing, found, build_hash_index-IsIndex, find_best_match-IsFound,
}

-- No chunk of the base has the hash of another chunk of the target.
pub record NoCollision (base target : Bytes) : Type 0 where
  pub same_chunk :
      (i j : ℕ)
      → i + chunk_size ≤ length base
      → j + chunk_size ≤ length target
      → rolling_hash32 (take chunk_size (drop i base))
        ≡ rolling_hash32 (take chunk_size (drop j target))
      → take chunk_size (drop i base) ≡ take chunk_size (drop j target)

-- The operation for `rest`, the part of the target from `j`, builds as many bytes as it takes
-- from `rest`; without collisions it builds those very bytes.
record Builds (base target : Bytes) (j : ℕ) (rest : Bytes) (r : DeltaOp × Bytes) : Type 0 where
  well_formed : IsOp r.0
  piece : Bytes
  builds : apply_op base r.0 ≡ ok piece
  progress : 0 < length piece
  taken : length piece ≤ length rest
  rest_eq : r.1 ≡ drop (length piece) rest
  exact : NoCollision base target → piece ≡ take (length piece) rest

chunk_and_more :
    (offset more : ℕ) (base rest : Bytes) {size : ℕ}
    → size ≡ chunk_size + more
    → take chunk_size (drop offset base) ≡ take chunk_size rest
    → take more (drop (offset + chunk_size) base) ≡ take more (drop chunk_size rest)
    → take size (drop offset base) ≡ take size rest
chunk_and_more offset more base rest e chunk behind =
    rw (e, take-add chunk_size more (drop offset base), take-add chunk_size more rest, chunk)
      (ap (λ (x : Bytes). take chunk_size rest ++ x)
        (ap (take more) (drop-drop offset chunk_size base) ∙ behind))

apply_op-copy :
    (base : Bytes) (offset size : ℕ)
    → offset + size ≤ length base
    → length base < 2 ^ 64
    → apply_op base (copy_op offset size) ≡ ok (take size (drop offset base))
unfolding apply_op
apply_op-copy base offset size fits bound =
    let src_end : (offset + size) % 2 ^ 64 ≡ offset + size = omega arith in
    let back : offset + size - offset ≡ size = omega arith in rw src_end (rw back (ground arith))

module _ (base target : Bytes) (base_fits : length base < 2 ^ 32)
    (target_fits : length target < 2 ^ 32) where
  copy-Builds :
      (j : ℕ) (rest : Bytes) (m : Match)
      → rest ≡ drop j target
      → IsMatch base rest m
      → Builds base target j rest (copy_op m.offset (m.size % 2 ^ 32), drop m.size rest)
  copy-Builds j rest m e v =
      let rest_length = ap length e ∙ length-drop j target in
      let first_chunk = λ (no_collision : NoCollision base target).
        subst (λ (r : Bytes). take chunk_size (drop m.offset base) ≡ take chunk_size r) (sym e)
          (no_collision.same_chunk m.offset j v.chunk_fits (omega (arith, v.size_eq, v.in_target))
            (rw e at v.same_hash)) in
      let size_fits : m.size % 2 ^ 32 ≡ m.size = omega (arith, v.in_target) in
      let piece_length : length (take m.size (drop m.offset base)) ≡ m.size =
        omega
          (arith, length-take m.size (drop m.offset base), length-drop m.offset base, v.in_base) in
      record {
        well_formed = copy (omega (arith, v.in_base)) (omega arith);
        piece = take m.size (drop m.offset base);
        builds = rw size_fits (apply_op-copy base m.offset m.size v.in_base (omega arith));
        progress = omega (arith, v.size_eq);
        taken = omega (arith, v.in_target);
        rest_eq = ap (λ n. drop n rest) (sym piece_length);
        exact = λ no_collision.
            rw piece_length (
              chunk_and_more m.offset v.more base rest v.size_eq (first_chunk no_collision)
                v.agree);
      }

  insert-Builds :
      (j b : ℕ) (rest : Bytes) → Builds base target j (b ∷ rest) (insert_op 1 (b ∷ []), rest)
  unfolding apply_op
  insert-Builds j b rest = record {
    well_formed = insert (omega arith) (omega arith);
    piece = b ∷ [];
    builds = refl;
    progress = omega arith;
    taken = omega arith;
    rest_eq = refl;
    exact = λ no_collision. refl;
  }

  compute_step-Builds :
      (best : Match) (j b : ℕ) (rest : Bytes)
      → b ∷ rest ≡ drop j target
      → IsFound base (b ∷ rest) best
      → Builds base target j (b ∷ rest) (compute_step best b rest)
  unfolding compute_step
  compute_step-Builds best j b rest e (nothing none_found) = rw none_found (insert-Builds j b rest)
  compute_step-Builds best j b rest e (found v) = rw long_enough (copy-Builds j (b ∷ rest) best e v)
    where
      long_enough : leb chunk_size best.size ≡ true
      long_enough = ground (arith, v.size_eq)

  -- The loop returns well-formed operations that build as much as is left of the target.
  record Computes (ops : List DeltaOp) (out rest : Bytes) (r : Result Error (List DeltaOp))
      : Type 0 where
    new_ops : List DeltaOp
    new : Bytes
    returns : r ≡ ok new_ops
    well_formed : All IsOp new_ops
    applies : Applies base new_ops (out ++ new)
    same_length : length new ≡ length rest
    exact : NoCollision base target → new ≡ rest

  Computes-cons :
      {j : ℕ} {rest : Bytes} {turn : DeltaOp × Bytes} (ops : List DeltaOp) (out : Bytes)
      {r : Result Error (List DeltaOp)} (s : Builds base target j rest turn)
      → Computes (ops ++ turn.0 ∷ []) (out ++ s.piece) turn.1 r
      → Computes ops out rest r
  Computes-cons {rest = rest} ops out s later = record {
    new_ops = later.new_ops;
    new = s.piece ++ later.new;
    returns = later.returns;
    well_formed = later.well_formed;
    applies = rw append_assoc at later.applies;
    same_length = omega (
      arith,
      length-append s.piece later.new,
      later.same_length,
      s.taken,
      ap length s.rest_eq,
      length-drop (length s.piece) rest,
    );
    exact = λ no_collision.
        ap₂ ◌++◌ (s.exact no_collision) (later.exact no_collision ∙ s.rest_eq)
        ∙ take-append-drop (length s.piece) rest;
  }

  compute_loop-Computes :
      (fuel : ℕ) (index : HashIndex) (j : ℕ) (ops : List DeltaOp) (out rest : Bytes)
      → IsIndex base index
      → rest ≡ drop j target
      → length rest ≤ fuel
      → All IsOp ops
      → Applies base ops out
      → Computes ops out rest (compute_loop fuel base index ops rest)
  unfolding compute_loop
  compute_loop-Computes fuel index j ops out [] v e enough h a = record {
    new_ops = ops;
    new = [];
    returns = refl;
    well_formed = h;
    applies = rw append-nil a;
    same_length = refl;
    exact = λ no_collision. refl;
  }
  compute_loop-Computes zero index j ops out (b ∷ rest) v e enough h a = absurd (omega arith)
  compute_loop-Computes (suc fuel) index j ops out (b ∷ rest) v e enough h a =
      let best = find_best_match base (b ∷ rest) index in
      let turn = compute_step best b rest in
      let s = compute_step-Builds best j b rest e (find_best_match-IsFound base (b ∷ rest) v) in
      let taken = ap length s.rest_eq ∙ length-drop (length s.piece) (b ∷ rest) in
      Computes-cons ops out s (
        compute_loop-Computes fuel index (j + length s.piece) (ops ++ turn.0 ∷ []) (out ++ s.piece)
          turn.1 v (s.rest_eq ∙ ap (drop (length s.piece)) e ∙ drop-drop j (length s.piece) target)
          (omega (arith, s.progress, s.taken))
          (All-append IsOp ops (turn.0 ∷ []) h (s.well_formed, tt))
          (Applies-append a (Applies-one turn.0 s.builds)))

-- What `ComputeDelta` returns, and what its operations build from the base.
pub record Rebuilds (base target : Bytes) : Type 0 where
  pub ops : List DeltaOp
  pub built : Bytes
  pub returns : compute_delta base target ≡ ok ops
  pub applies : apply_delta base ops ≡ ok built
  pub same_length : length built ≡ length target
  pub exact : NoCollision base target → built ≡ target

-- On a base and a target of less than 2^32 bytes `ComputeDelta` returns operations, `ApplyDelta`
-- runs them on the base without an error, and the result is as long as the target. It is the
-- target, if no chunk of 16 bytes in the base has the rolling hash of another chunk in the target.
pub apply_delta-compute_delta :
    (base target : Bytes) → length base < 2 ^ 32 → length target < 2 ^ 32 → Rebuilds base target
unfolding compute_delta
apply_delta-compute_delta [] target base_fits target_fits = record {
  ops = insert_op (length target % 2 ^ 32) target ∷ [];
  built = target;
  returns = refl;
  applies = unfold apply_delta in refl;
  same_length = refl;
  exact = λ no_collision. refl;
}
apply_delta-compute_delta (b ∷ base) target base_fits target_fits =
    let c =
      compute_loop-Computes (b ∷ base) target base_fits target_fits (length target)
        (build_hash_index (b ∷ base)) 0 [] [] target (build_hash_index-IsIndex (b ∷ base)) refl
        (omega arith) tt done in
    record {
      ops = compact_ops c.new_ops;
      built = c.new;
      returns = rw c.returns refl;
      applies = apply_delta-Applies (Applies-compact_ops c.new_ops c.well_formed c.applies);
      same_length = c.same_length;
      exact = c.exact;
    }
