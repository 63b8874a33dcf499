-- ===== src/Delta/Compact.antt =====
-- `compactOps` keeps what the operations build.
use minus_sync.Prelude.{
  ◌+◌, ◌%◌, ◌^◌, true, ◌&&◌, Bytes, ok, List, [], ◌∷◌, ◌++◌, length, leb, ◌==◌, ◌≡◌, append-nil,
  append_assoc, arith, inl, inr, Bool-cases, All,
}
use minus_sync.Delta.{DeltaOp, op_insert, apply_op, apply_delta}
use minus_sync.Delta.Codec.{IsOp, copy, insert}
use minus_sync.Delta.Compute.{push_op, compact_loop, compact_ops}
use minus_sync.Delta.Applies.{
  Applies, done, step, Applies-append, Applies-one, apply_delta-Applies, Applies-of_apply_delta,
}

abbrev merged : DeltaOp → DeltaOp → DeltaOp
merged last op = record last {
  literal = last.literal ++ op.literal;
  size = (last.size + op.size) % 2 ^ 32;
}

apply_op-merged :
    (base : Bytes) (last op : DeltaOp) {p q : Bytes}
    → (last.op_type == op_insert && op.op_type == op_insert) ≡ true
    → apply_op base last ≡ ok p
    → apply_op base op ≡ ok q
    → apply_op base (merged last op) ≡ ok (p ++ q)
unfolding apply_op
apply_op-merged base last op both e f = ground arith

Applies-push_op :
    {base : Bytes} (ops : List DeltaOp) (op : DeltaOp) {out piece : Bytes}
    → Applies base ops out
    → apply_op base op ≡ ok piece
    → Applies base (push_op ops op) (out ++ piece)
unfolding push_op
Applies-push_op [] op done e = Applies-one op e
Applies-push_op {base} (last ∷ []) op {piece = piece} (step {piece = p} h done) e =
    elim (Bool-cases (last.op_type == op_insert && op.op_type == op_insert)) [
      | inl both ↦
          rw (both, append-nil)
            (Applies-one (merged last op) (apply_op-merged base last op both h e))
      | inr apart ↦ rw apart (Applies-append (step h done) (Applies-one op e))
    ]
Applies-push_op (first ∷ next ∷ ops) op {piece = piece} (step {piece = p} {rest = r} h a) e =
    rw (append_assoc p r piece) (step h (Applies-push_op (next ∷ ops) op a e))

-- An operation of length 0 contributes nothing.
empty_piece :
    (base : Bytes) {op : DeltaOp} {piece : Bytes}
    → IsOp op
    → (op.size == 0) ≡ true
    → apply_op base op ≡ ok piece
    → piece ≡ []
unfolding apply_op
empty_piece base (copy ho hs) z e = ground arith
empty_piece base (insert {literal = []} same h) z e = ground arith
empty_piece base (insert {literal = b ∷ literal} same h) z e = absurd (ground arith)

Applies-compact_loop :
    {base : Bytes} (result ops : List DeltaOp) {out rest : Bytes}
    → All IsOp ops
    → Applies base result out
    → Applies base ops rest
    → Applies base (compact_loop result ops) (out ++ rest)
unfolding compact_loop
Applies-compact_loop result [] h a done = rw append-nil a
Applies-compact_loop {base} result (op ∷ ops) {out} (h, hs) a (step {piece = p} {rest = r} e b) =
    elim (Bool-cases (op.size == 0)) [
      | inl zero_size ↦
          rw (zero_size, empty_piece base h zero_size e) (Applies-compact_loop result ops hs a b)
      | inr more ↦
          rw (more, ← append_assoc out p r)
            (Applies-compact_loop (push_op result op) ops hs (Applies-push_op result op a e) b)
    ]

pub Applies-compact_ops :
    {base : Bytes} (ops : List DeltaOp) {out : Bytes}
    → All IsOp ops
    → Applies base ops out
    → Applies base (compact_ops ops) out
unfolding compact_ops
Applies-compact_ops ops h a = elim (Bool-cases (leb (length ops) 1)) [
  | inl short ↦ rw short a
  | inr long ↦ rw long (Applies-compact_loop [] ops h done a)
]

-- If the operations turn `base` into `out`, so do the compacted ones, for operations as
-- `ComputeDelta` builds them: an insertion states the length of its data, and all numbers fit their
-- widths.
pub apply_delta-compact_ops :
    (base : Bytes) (ops : List DeltaOp) (out : Bytes)
    → All IsOp ops
    → apply_delta base ops ≡ ok out
    → apply_delta base (compact_ops ops) ≡ ok out
apply_delta-compact_ops base ops out h e =
    apply_delta-Applies (Applies-compact_ops ops h (Applies-of_apply_delta ops e))
