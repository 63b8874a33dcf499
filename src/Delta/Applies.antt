-- ===== src/Delta/Applies.antt =====
-- `ApplyDelta` as a relation: which bytes each operation contributes.
use minus_sync.Prelude.{
  Bytes, ok, ok_injective, Handed-of_ok, List, [], ◌∷◌, ◌++◌, ◌≡◌, sym, ap, ◌∙◌, append-nil,
  append_assoc,
}
use minus_sync.Delta.{DeltaOp, apply_op, apply_loop, apply_delta}

-- The operations turn `base` into the bytes.
pub data Applies (base : Bytes) : List DeltaOp → Bytes → Type 0 where
  done : Applies base [] []
  step :
      {op : DeltaOp} {ops : List DeltaOp} {piece rest : Bytes}
      → apply_op base op ≡ ok piece
      → Applies base ops rest
      → Applies base (op ∷ ops) (piece ++ rest)

apply_loop-Applies :
    {base : Bytes} {ops : List DeltaOp} {out : Bytes} (result : Bytes)
    → Applies base ops out
    → apply_loop base result ops ≡ ok (result ++ out)
unfolding apply_loop
apply_loop-Applies result done = rw append-nil
apply_loop-Applies result (step {piece = piece} {rest = rest} e a) =
    rw e (apply_loop-Applies (result ++ piece) a ∙ ap ok (append_assoc result piece rest))

pub apply_delta-Applies :
    {base : Bytes} {ops : List DeltaOp} {out : Bytes}
    → Applies base ops out
    → apply_delta base ops ≡ ok out
unfolding apply_delta
apply_delta-Applies a = apply_loop-Applies [] a

Applies-of_loop :
    {base : Bytes} (ops : List DeltaOp) (result : Bytes) {out : Bytes}
    → apply_loop base result ops ≡ ok out
    → (new : Bytes) × Applies base ops new × (out ≡ result ++ new)
unfolding apply_loop
Applies-of_loop [] result e = ([], done, sym (ok_injective e) ∙ sym (append-nil result))
Applies-of_loop {base} (op ∷ ops) result e =
    let h = Handed-of_ok _ (apply_op base op) e in
    let (new, a, split) = Applies-of_loop ops (result ++ h.value) h.behind in
    (h.value ++ new, step h.before a, split ∙ append_assoc result h.value new)

pub Applies-of_apply_delta :
    {base : Bytes} (ops : List DeltaOp) {out : Bytes}
    → apply_delta base ops ≡ ok out
    → Applies base ops out
unfolding apply_delta
Applies-of_apply_delta ops e = let (new, a, split) = Applies-of_loop ops [] e in rw split a

pub Applies-append :
    {base : Bytes} {ops more : List DeltaOp} {out rest : Bytes}
    → Applies base ops out
    → Applies base more rest
    → Applies base (ops ++ more) (out ++ rest)
Applies-append done b = b
Applies-append {rest = rest} (step {piece = piece} {rest = later} e a) b =
    rw (append_assoc piece later rest) (step e (Applies-append a b))

pub Applies-one :
    {base : Bytes} (op : DeltaOp) {piece : Bytes}
    → apply_op base op ≡ ok piece
    → Applies base (op ∷ []) piece
Applies-one {base} op {piece} e = rw append-nil at (step {ops = []} e done)
