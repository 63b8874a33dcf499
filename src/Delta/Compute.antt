-- ===== src/Delta/Compute.antt =====
-- `ComputeDelta` of internal/delta/delta.go with its helpers.
use minus_sync.Prelude.{
  ℕ, zero, suc, ◌+◌, ◌-◌, ◌*◌, ◌%◌, ◌^◌, ◌&&◌, List, [], ◌∷◌, ◌++◌, Bytes, length, take, drop, ltb,
  leb, ◌==◌, if◌then◌else◌, Result, ok, err, ◌>>=◌,
}
use minus_sync.Delta.{DeltaOp, Error, out_of_fuel, op_insert, copy_op, insert_op}

abbrev pub chunk_size : ℕ
chunk_size = 16

unfoldable pub rolling_hash_from : ℕ → Bytes → ℕ
rolling_hash_from h [] = h
rolling_hash_from h (b ∷ bytes) = rolling_hash_from ((h * 31 + b) % 2 ^ 32) bytes

unfoldable pub rolling_hash32 : Bytes → ℕ
unfolding rolling_hash_from
rolling_hash32 = rolling_hash_from 0

-- `map[uint32][]uint64`: a key that is not in the map has no offsets.
abbrev pub HashIndex : Type 0
HashIndex = ℕ → List ℕ

unfoldable pub append_offset : HashIndex → ℕ → ℕ → HashIndex
append_offset index h i k = if k == h then index k ++ i ∷ [] else index k

unfoldable pub index_loop : Bytes → ℕ → ℕ → HashIndex → HashIndex
index_loop base zero i index = index
index_loop base (suc rounds) i index =
    index_loop base rounds (i + 1)
      (append_offset index (rolling_hash32 (take chunk_size (drop i base))) i)

unfoldable pub build_hash_index : Bytes → HashIndex
unfolding index_loop append_offset rolling_hash32
build_hash_index base =
    if ltb (length base) chunk_size
    then (λ k. [])
    else index_loop base (length base - chunk_size + 1) 0 (λ k. [])

-- `match`; a match of length 0 is `match{}`.
pub record Match : Type 0 where
  pub offset : ℕ
  pub size : ℕ

abbrev pub no_match : Match
no_match = record { offset = 0; size = 0 }

-- The inner loop of `findBestMatch`: what is left of the base behind the match, and of the target.
unfoldable pub extend_match : Bytes → Bytes → ℕ → ℕ
extend_match (b ∷ base) (t ∷ target) size =
    let further = extend_match base target (size + 1) in if b == t then further else size
extend_match _ _ size = size

unfoldable pub match_at : Bytes → Bytes → ℕ → Match
unfolding extend_match
match_at base target off = record {
  offset = off;
  size = extend_match (drop (off + chunk_size) base) (drop chunk_size target) chunk_size;
}

unfoldable pub better : Match → Match → Match
better best found = if ltb best.size found.size then found else best

unfoldable pub best_loop : Bytes → Bytes → Match → List ℕ → Match
best_loop base target best [] = best
best_loop base target best (off ∷ offsets) =
    best_loop base target (better best (match_at base target off)) offsets

unfoldable pub find_best_match : Bytes → Bytes → HashIndex → Match
unfolding best_loop better match_at rolling_hash32
find_best_match base target index =
    if ltb (length target) chunk_size
    then no_match
    else best_loop base target no_match (index (rolling_hash32 (take chunk_size target)))

-- One turn of the loop of `ComputeDelta`, at `target[tPos:]`: the new operation and the rest.
unfoldable pub compute_step : Match → ℕ → Bytes → DeltaOp × Bytes
compute_step best b rest =
    if leb chunk_size best.size
    then (copy_op best.offset (best.size % 2 ^ 32), drop best.size (b ∷ rest))
    else (insert_op 1 (b ∷ []), rest)

unfoldable pub compute_loop :
    ℕ → Bytes → HashIndex → List DeltaOp → Bytes → Result Error (List DeltaOp)
compute_loop fuel base index ops [] = ok ops
compute_loop zero base index ops (b ∷ rest) = err out_of_fuel
compute_loop (suc fuel) base index ops (b ∷ rest) =
    let (op, rest') = compute_step (find_best_match base (b ∷ rest) index) b rest in
    compute_loop fuel base index (ops ++ op ∷ []) rest'

-- The loop of `compactOps`: `op` behind what is in `result`.
unfoldable pub push_op : List DeltaOp → DeltaOp → List DeltaOp
push_op [] op = op ∷ []
push_op (last ∷ []) op =
    if last.op_type == op_insert && op.op_type == op_insert
    then record last { literal = last.literal ++ op.literal; size = (last.size + op.size) % 2 ^ 32 }
      ∷ []
    else last ∷ op ∷ []
push_op (first ∷ next ∷ result) op = first ∷ push_op (next ∷ result) op

unfoldable pub compact_loop : List DeltaOp → List DeltaOp → List DeltaOp
compact_loop result [] = result
compact_loop result (op ∷ ops) =
    compact_loop (if op.size == 0 then result else push_op result op) ops

unfoldable pub compact_ops : List DeltaOp → List DeltaOp
unfolding compact_loop push_op
compact_ops ops = if leb (length ops) 1 then ops else compact_loop [] ops

-- Every turn of the loop takes a byte of the target at least.
unfoldable pub compute_delta : Bytes → Bytes → Result Error (List DeltaOp)
unfolding compute_loop compute_step find_best_match build_hash_index compact_ops
compute_delta [] target = ok (insert_op (length target % 2 ^ 32) target ∷ [])
compute_delta (b ∷ base) target = do
  ops ← compute_loop (length target) (b ∷ base) (build_hash_index (b ∷ base)) [] target
  ok (compact_ops ops)
