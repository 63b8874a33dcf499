-- ===== src/Delta/Decoded.antt =====
-- What `DecodeDelta` accepts: exactly the encodings of well-formed operations.
use minus_sync.Prelude.{
  ℕ, zero, suc, ◌^◌, ◌<◌, List, [], ◌∷◌, ◌++◌, Bytes, length, ◌==◌, ok, put_uint32, put_uint64, ◌≡◌,
  refl, ap, sym, ◌∙◌, append-nil, append_assoc, arith, All, IsBytes, get_uint32-eq-some,
  get_uint64-eq-some, get_bytes-eq-some, Ensures, Ensures-bind, Ensures-ok, Ensures-err,
  Ensures-or_err, Ensures-or_panic, Ensures-if, subst,
}
use minus_sync.Delta.{
  DeltaOp, op_copy, op_insert, encode_delta, decode_copy, decode_insert, decode_op, decode_loop,
  decode_delta,
}
use minus_sync.Delta.Codec.{IsOp, copy, insert, body, encode_delta-cons, encode_delta-nil}

-- `op` was read behind a type byte, from the front of `bytes`, and `rest` follows it.
record Reads (op_type : ℕ) (bytes : Bytes) (op : DeltaOp) (rest : Bytes) : Type 0 where
  well_formed : IsOp op
  type_byte : op.op_type ≡ op_type
  front : bytes ≡ body op ++ rest
  rest_bytes : IsBytes rest

-- What `get_bytes` and the reads of numbers say of the slice they read.
abbrev Splits : Bytes → ℕ → Bytes × Bytes → Type 0
Splits bytes n r = (bytes ≡ r.0 ++ r.1) × (length r.0 ≡ n) × IsBytes r.0 × IsBytes r.1

abbrev Number : (ℕ → Bytes) → ℕ → Bytes → ℕ × Bytes → Type 0
Number put limit bytes r = (bytes ≡ put r.0 ++ r.1) × (r.0 < limit) × IsBytes r.1

empty_after :
    (offset size : ℕ) (after : Bytes)
    → length (put_uint64 offset ++ (put_uint32 size ++ after)) ≡ 12
    → after ≡ []
unfolding put_uint64 put_uint32
empty_after offset size [] h = refl
empty_after offset size (x ∷ after) h = absurd (omega arith)

copy_front :
    (offset size : ℕ) (after rest : Bytes) {bytes fields fields' : Bytes}
    → bytes ≡ fields ++ rest
    → length fields ≡ 12
    → fields ≡ put_uint64 offset ++ fields'
    → fields' ≡ put_uint32 size ++ after
    → bytes ≡ (put_uint64 offset ++ put_uint32 size) ++ rest
copy_front offset size after rest whole twelve first second =
    let fields_eq = first ∙ ap (λ (f : Bytes). put_uint64 offset ++ f) second in
    let after_eq = empty_after offset size after (ap length (sym fields_eq) ∙ twelve) in
    let numbers =
      fields_eq ∙ ap (λ (f : Bytes). put_uint64 offset ++ (put_uint32 size ++ f)) after_eq in
    whole ∙ ap (λ (f : Bytes). f ++ rest) (numbers ∙ rw append-nil)

insert_front :
    (literal rest' : Bytes) {size : ℕ} {bytes rest : Bytes}
    → bytes ≡ put_uint32 size ++ rest
    → rest ≡ literal ++ rest'
    → length literal ≡ size
    → bytes ≡ (put_uint32 (length literal) ++ literal) ++ rest'
insert_front literal rest' whole second size_eq = rw (append_assoc, whole, second, size_eq)

decode_copy-Reads :
    (bytes : Bytes) → IsBytes bytes → Ensures (λ r. Reads op_copy bytes r.0 r.1) (decode_copy bytes)
unfolding decode_copy
decode_copy-Reads bytes h =
    Ensures-bind (Splits bytes 12) _ _
      (Ensures-or_err _ _ (λ (f, r) e. get_bytes-eq-some 12 bytes h e))
      (λ (fields, rest) (front, twelve, fields_bytes, rest_bytes).
        Ensures-bind (Number put_uint64 (2 ^ 64) fields) _ _
          (Ensures-or_panic _ (λ (f, r) e. get_uint64-eq-some fields fields_bytes e))
          (λ (offset, fields') (front', offset_fits, fields'_bytes).
            Ensures-bind (Number put_uint32 (2 ^ 32) fields') _ _
              (Ensures-or_panic _ (λ (f, r) e. get_uint32-eq-some fields' fields'_bytes e))
              (λ (size, after) (front'', size_fits, _). Ensures-ok _ (record {
                well_formed = copy offset_fits size_fits;
                type_byte = refl;
                front = copy_front offset size after rest front twelve front' front'';
                rest_bytes = rest_bytes;
              }))))

decode_insert-Reads :
    (bytes : Bytes)
    → IsBytes bytes
    → Ensures (λ r. Reads op_insert bytes r.0 r.1) (decode_insert bytes)
unfolding decode_insert
decode_insert-Reads bytes h =
    Ensures-bind (Number put_uint32 (2 ^ 32) bytes) _ _
      (Ensures-or_err _ _ (λ (f, r) e. get_uint32-eq-some bytes h e))
      (λ (size, rest) (front, size_fits, rest_bytes).
        Ensures-bind (Splits rest size) _ _
          (Ensures-or_err _ _ (λ (f, r) e. get_bytes-eq-some size rest rest_bytes e))
          (λ (literal, rest') (front', size_eq, _, rest'_bytes). Ensures-ok _ (record {
            well_formed = insert (sym size_eq) size_fits;
            type_byte = refl;
            front = insert_front literal rest' front front' size_eq;
            rest_bytes = rest'_bytes;
          })))

decode_op-Reads :
    (op_type : ℕ) (bytes : Bytes)
    → IsBytes bytes
    → Ensures (λ r. Reads op_type bytes r.0 r.1) (decode_op op_type bytes)
unfolding decode_op
decode_op-Reads op_type bytes h =
    Ensures-if (op_type == op_copy) _ _
      (λ e.
        subst (λ t. Ensures (λ r. Reads t bytes r.0 r.1) (decode_copy bytes)) (ground arith)
          (decode_copy-Reads bytes h))
      (λ _.
        Ensures-if (op_type == op_insert) _ _
          (λ e.
            subst (λ t. Ensures (λ r. Reads t bytes r.0 r.1) (decode_insert bytes)) (ground arith)
              (decode_insert-Reads bytes h))
          (λ _. Ensures-err _))

-- `result` is `done` with well-formed operations behind it whose encoding is `bytes`.
record Decodes (done : List DeltaOp) (bytes : Bytes) (result : List DeltaOp) : Type 0 where
  new : List DeltaOp
  result_eq : result ≡ done ++ new
  encoding : encode_delta new ≡ bytes
  well_formed : All IsOp new

Decodes-cons :
    {done result : List DeltaOp} {op : DeltaOp} {b : ℕ} {bytes rest : Bytes}
    → Reads b bytes op rest
    → Decodes (done ++ op ∷ []) rest result
    → Decodes done (b ∷ bytes) result
Decodes-cons {done} {op = op} {b = b} {bytes = bytes} {rest = rest} r d = record {
  new = op ∷ d.new;
  result_eq = d.result_eq ∙ append_assoc done (op ∷ []) d.new;
  encoding =
      encode_delta-cons d.new r.well_formed
      ∙ ap (λ (x : Bytes). op.op_type ∷ (body op ++ x)) d.encoding
      ∙ ap (λ (x : Bytes). op.op_type ∷ x) (sym r.front)
      ∙ ap (λ (x : ℕ). x ∷ bytes) r.type_byte;
  well_formed = (r.well_formed, d.well_formed);
}

decode_loop-Decodes :
    (fuel : ℕ) (done : List DeltaOp) (bytes : Bytes)
    → IsBytes bytes
    → Ensures (Decodes done bytes) (decode_loop fuel done bytes)
unfolding decode_loop
decode_loop-Decodes fuel done [] h = Ensures-ok _ (record {
  new = [];
  result_eq = sym (append-nil done);
  encoding = encode_delta-nil;
  well_formed = tt;
})
decode_loop-Decodes zero done (b ∷ bytes) h = Ensures-err _
decode_loop-Decodes (suc fuel) done (b ∷ bytes) (hb, h) =
    Ensures-bind (λ r. Reads b bytes r.0 r.1) _ _ (decode_op-Reads b bytes h)
      (λ (op, rest) r. record {
        at = λ ops e.
            Decodes-cons r
              ((decode_loop-Decodes fuel (done ++ op ∷ []) rest r.rest_bytes).at ops e);
      })

-- Whatever bytes `DecodeDelta` accepts, the operations it returns are well formed and
-- `EncodeDelta` writes the same bytes again.
pub encode_delta-decode_delta :
    (bytes : Bytes) (ops : List DeltaOp)
    → IsBytes bytes
    → decode_delta bytes ≡ ok ops
    → (encode_delta ops ≡ bytes) × All IsOp ops
unfolding decode_delta
encode_delta-decode_delta bytes ops h e =
    let d = (decode_loop-Decodes (length bytes) [] bytes h).at ops e in
    rw d.result_eq (d.encoding, d.well_formed)
