-- ===== src/Protocol/Frame.antt =====
-- internal/protocol/encode.go and decode.go: length-prefixed frames and the handshake.
pub mod RoundTrip
use minus_sync.Prelude.{
  ℕ, ◌+◌, ◌-◌, ◌%◌, ◌^◌, Bool, true, false, Option, none, some, List, [], ◌∷◌, ◌++◌, Bytes, length,
  ltb, if◌then◌else◌, Result, ok, err, or_err, or_panic, ◌>>=◌, put_uint16, put_uint32, get_uint16,
  get_uint32, get_bytes, bytes_equal,
}
use minus_sync.Protocol.Wire.{handshake_magic, version_major, version_minor}

pub data Error : Type 0 where
  write_header write_payload write_handshake : Error
  read_length read_type read_payload read_handshake : Error
  invalid_frame_length : ℕ → Error
  invalid_magic : Bytes → Error

-- The header that `Encoder.Write` sends: the whole length in 32 bits, and the type.
unfoldable pub frame_header : ℕ → Bytes → Bytes
frame_header msg_type payload = put_uint32 ((6 + length payload) % 2 ^ 32) ++ put_uint16 msg_type

-- An `io.Writer` with its state; `none` is an error.
module _ {W : Type 0} (w_write : W → Bytes → Option W) where
  unfoldable pub encoder_write : W → ℕ → Bytes → Result Error W
  encoder_write w msg_type payload = do
    w' ← or_err write_header (w_write w (frame_header msg_type payload))
    if ltb 0 (length payload) then or_err write_payload (w_write w' payload) else ok w'

  unfoldable pub encoder_write_empty : W → ℕ → Result Error W
  encoder_write_empty w msg_type = encoder_write w msg_type []

  unfoldable pub encoder_write_uint32 : W → ℕ → ℕ → Result Error W
  encoder_write_uint32 w msg_type v = encoder_write w msg_type (put_uint32 v)

  unfoldable pub encoder_write_bytes : W → ℕ → Bytes → Result Error W
  encoder_write_bytes w msg_type bytes = encoder_write w msg_type bytes

  unfoldable pub send_handshake : W → Result Error W
  send_handshake w =
      or_err write_handshake
        (w_write w (handshake_magic ++ put_uint16 version_major ++ put_uint16 version_minor))

unfoldable pub decode_payload : ℕ → Bytes → Result Error (Bytes × Bytes)
decode_payload payload_len stream =
    if ltb 0 payload_len
    then or_err read_payload (get_bytes payload_len stream)
    else ok ([], stream)

-- `Decoder.Read` on what the reader still has: the type, the payload and the rest.
unfoldable pub decoder_read : Bytes → Result Error (ℕ × Bytes × Bytes)
decoder_read stream = do
  (total_len, stream') ← or_err read_length (get_uint32 stream)
  if ltb total_len 6 then err (invalid_frame_length total_len) else (do
    (msg_type, stream'') ← or_err read_type (get_uint16 stream')
    (payload, rest) ← decode_payload (total_len - 6) stream''
    ok (msg_type, payload, rest))

unfoldable pub receive_handshake : Bytes → Result Error (ℕ × ℕ × Bytes)
receive_handshake stream = do
  (buf, rest) ← or_err read_handshake (get_bytes 8 stream)
  (magic, versions) ← or_panic (get_bytes 4 buf)
  if bytes_equal magic handshake_magic
      then (do
        (major, versions') ← or_panic (get_uint16 versions)
        (minor, _) ← or_panic (get_uint16 versions')
        ok (major, minor, rest))
      else err (invalid_magic magic)
