-- ===== src/Protocol/Frame/RoundTrip.antt =====
-- `Decoder.Read` against `Encoder.Write`, and the two sides of the handshake.
use minus_sync.Prelude.{
  ℕ, suc, ◌+◌, ◌-◌, ◌%◌, ◌^◌, ◌<◌, ◌≤◌, true, false, Option, some, [], ◌∷◌, ◌++◌, Bytes, length,
  ltb, ok, put_uint16, put_uint32, get_uint16, get_bytes, bytes_equal, ◌≡◌, refl, ap, ◌∙◌, arith,
  get_uint32-put, get_uint16-put, get_bytes-append, append_assoc, append-nil, IsBytes, Ensures,
  Ensures-bind, Ensures-ok, Ensures-err, Ensures-or_err, Ensures-if, get_uint32-eq-some,
  get_uint16-eq-some, get_bytes-eq-some,
}
use minus_sync.Protocol.Wire.{version_major, version_minor}
use minus_sync.Protocol.Frame.{
  frame_header, encoder_write, decoder_read, decode_payload, send_handshake, receive_handshake,
}

-- A writer that keeps what it is given, such as a buffer.
abbrev pub buffer_write : Bytes → Bytes → Option Bytes
buffer_write written bytes = some (written ++ bytes)

-- What `Encoder.Write` sends, as one string of bytes.
abbrev pub frame : ℕ → Bytes → Bytes
frame msg_type payload = frame_header msg_type payload ++ payload

ltb-zero_suc : (n : ℕ) → ltb 0 (suc n) ≡ true
ltb-zero_suc n = ground arith

encoder_write-frame :
    (written : Bytes) (msg_type : ℕ) (payload : Bytes)
    → encoder_write buffer_write written msg_type payload ≡ ok (written ++ frame msg_type payload)
unfolding encoder_write
encoder_write-frame written msg_type [] = rw append-nil refl
encoder_write-frame written msg_type (b ∷ payload) =
    rw ltb-zero_suc
      (ap ok (append_assoc written (frame_header msg_type (b ∷ payload)) (b ∷ payload)))

decode_payload-append :
    (payload rest : Bytes) (n : ℕ)
    → n ≡ length payload
    → decode_payload n (payload ++ rest) ≡ ok (payload, rest)
unfolding decode_payload
decode_payload-append [] rest n e = rw e refl
decode_payload-append (b ∷ payload) rest n e =
    rw (e, ltb-zero_suc, get_bytes-append (b ∷ payload) rest) refl

decoder_read-frame :
    (msg_type : ℕ) (payload rest : Bytes)
    → msg_type < 2 ^ 16
    → 6 + length payload < 2 ^ 32
    → decoder_read (frame msg_type payload ++ rest) ≡ ok (msg_type, payload, rest)
unfolding decoder_read frame_header
decoder_read-frame msg_type payload rest ht hl =
    let wrap : (6 + length payload) % 2 ^ 32 ≡ 6 + length payload = omega arith in
    let long : ltb (6 + length payload) 6 ≡ false = ground arith in
    rw
      (
        wrap,
        append_assoc,
        append_assoc,
        get_uint32-put (6 + length payload) (put_uint16 msg_type ++ (payload ++ rest)) hl,
        long,
        get_uint16-put msg_type (payload ++ rest) ht,
        decode_payload-append payload rest (6 + length payload - 6) (omega arith),
      )
      refl

-- A frame that `Encoder.Write` sends to a buffer, whatever stands before it, is read back by
-- `Decoder.Read` with its type and its payload, and nothing behind it is touched; the type fits
-- 16 bits and the whole frame less than 2^32 bytes.
pub decoder_read-encoder_write :
    (written : Bytes) (msg_type : ℕ) (payload rest : Bytes)
    → msg_type < 2 ^ 16
    → 6 + length payload < 2 ^ 32
    → (sent : Bytes) × (encoder_write buffer_write written msg_type payload ≡ ok (written ++ sent))
      × (decoder_read (sent ++ rest) ≡ ok (msg_type, payload, rest))
decoder_read-encoder_write written msg_type payload rest ht hl = (
  frame msg_type payload,
  encoder_write-frame written msg_type payload,
  decoder_read-frame msg_type payload rest ht hl,
)

-- What a decoded frame says of the stream.
abbrev IsFrame : Bytes → ℕ × Bytes × Bytes → Type 0
IsFrame stream r = stream ≡ frame r.0 r.1 ++ r.2

decode_payload-splits :
    (n : ℕ) (stream : Bytes)
    → IsBytes stream
    → Ensures
        (λ (r : Bytes × Bytes). (stream ≡ r.0 ++ r.1) × (length r.0 ≡ n))
        (decode_payload n stream)
unfolding decode_payload
decode_payload-splits n stream h =
    Ensures-if (ltb 0 n) _ _
      (λ more.
        Ensures-or_err _ _
          (λ (f, r) e. let (split, size, _, _) = get_bytes-eq-some n stream h e in (split, size)))
      (λ none_left. Ensures-ok _ (refl, ground arith))

frame_eq :
    (total_len msg_type : ℕ) (payload rest : Bytes) {stream stream' stream'' : Bytes}
    → stream ≡ put_uint32 total_len ++ stream'
    → stream' ≡ put_uint16 msg_type ++ stream''
    → stream'' ≡ payload ++ rest
    → total_len < 2 ^ 32
    → 6 ≤ total_len
    → length payload ≡ total_len - 6
    → stream ≡ frame msg_type payload ++ rest
unfolding frame_header
frame_eq total_len msg_type payload rest front front' split fits long size =
    let wrap : (6 + length payload) % 2 ^ 32 ≡ total_len = omega arith in
    rw (wrap, append_assoc, append_assoc)
      (front
        ∙ ap (λ (s : Bytes). put_uint32 total_len ++ s)
            (front' ∙ ap (λ (s : Bytes). put_uint16 msg_type ++ s) split))

decoder_read-IsFrame :
    (stream : Bytes) → IsBytes stream → Ensures (IsFrame stream) (decoder_read stream)
unfolding decoder_read
decoder_read-IsFrame stream h =
    Ensures-bind
      (λ (r : ℕ × Bytes). (stream ≡ put_uint32 r.0 ++ r.1) × (r.0 < 2 ^ 32) × IsBytes r.1) _ _
      (Ensures-or_err _ _ (λ (f, r) e. get_uint32-eq-some stream h e))
      (λ (total_len, stream') (front, fits, h').
        Ensures-if (ltb total_len 6) _ _ (λ short. Ensures-err _)
          (λ long.
            Ensures-bind
              (λ (r : ℕ × Bytes). (stream' ≡ put_uint16 r.0 ++ r.1) × (r.0 < 2 ^ 16) × IsBytes r.1)
              _ _ (Ensures-or_err _ _ (λ (f, r) e. get_uint16-eq-some stream' h' e))
              (λ (msg_type, stream'') (front', fits', h'').
                Ensures-bind
                  (λ (r : Bytes × Bytes). (stream'' ≡ r.0 ++ r.1) × (length r.0 ≡ total_len - 6)) _
                  _ (decode_payload-splits (total_len - 6) stream'' h'')
                  (λ (payload, rest) (split, size). Ensures-ok _ (
                    frame_eq total_len msg_type payload rest front front' split fits (ground arith)
                      size)))))

-- Whatever `Decoder.Read` accepts is the frame of the message that it returns, followed by the
-- bytes that it leaves.
pub decoder_read-eq-frame :
    (stream : Bytes) (msg_type : ℕ) (payload rest : Bytes)
    → IsBytes stream
    → decoder_read stream ≡ ok (msg_type, payload, rest)
    → stream ≡ frame msg_type payload ++ rest
decoder_read-eq-frame stream msg_type payload rest h e =
    (decoder_read-IsFrame stream h).at (msg_type, payload, rest) e

-- `ReceiveHandshake` accepts what `SendHandshake` sends, with its version, and leaves the rest.
pub receive_handshake-send_handshake :
    (written rest : Bytes)
    → (sent : Bytes) × (send_handshake buffer_write written ≡ ok (written ++ sent))
      × (receive_handshake (sent ++ rest) ≡ ok (version_major, version_minor, rest))
unfolding send_handshake receive_handshake get_bytes put_uint16 get_uint16 bytes_equal
receive_handshake-send_handshake written rest = (_, refl, ground arith)
