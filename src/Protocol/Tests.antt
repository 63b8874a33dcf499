-- ===== src/Protocol/Tests.antt =====
-- The functions of internal/protocol on small inputs.
use minus_sync.Prelude.{
  true, false, [], ◌∷◌, ◌++◌, Bytes, replicate, codes, ok, err, panic, get_uint32, get_uint16,
  get_bytes, ◌≡◌, ◌≢◌, refl, arith,
}
use minus_sync.Hash.{Hash}
use minus_sync.Protocol.Wire.{version_major, version_minor}
use minus_sync.Protocol.Frame.{
  encoder_write, decoder_read, decode_payload, send_handshake, receive_handshake,
  invalid_frame_length,
}
use minus_sync.Protocol.Frame.RoundTrip.{
  buffer_write, frame, decoder_read-encoder_write, decoder_read-eq-frame,
  receive_handshake-send_handshake,
}
use minus_sync.Protocol.Payloads.{
  encode_ref_line, decode_ref_line, encode_error, decode_error, encode_update_ref,
  decode_update_ref, encode_chunk_query, decode_chunk_query, decode_auth_response,
}
use minus_sync.Protocol.Payloads.RoundTrip.{
  decode_ref_line-encode_ref_line, decode_error-encode_error, decode_update_ref-encode_update_ref,
  decode_chunk_query-encode_chunk_query,
}
use minus_sync.Protocol.Payloads.Total.{decoders_never_panic}
use minus_sync.Protocol.Payloads.Chunks.{encode_chunk_haves, decode_chunk_haves}
use minus_sync.Protocol.Payloads.Chunks.RoundTrip.{decode_chunk_haves-encode_chunk_haves}

decoder_read-encoder_write_example :
    (sent : Bytes) × (encoder_write buffer_write [] 3 (7 ∷ 8 ∷ []) ≡ ok sent)
    × (decoder_read (sent ++ (9 ∷ [])) ≡ ok (3, 7 ∷ 8 ∷ [], 9 ∷ []))
decoder_read-encoder_write_example =
    decoder_read-encoder_write [] 3 (7 ∷ 8 ∷ []) (9 ∷ []) (omega arith) (omega arith)

abbrev one_frame : Bytes
one_frame = 0 ∷ 0 ∷ 0 ∷ 7 ∷ 1 ∷ 2 ∷ 5 ∷ 9 ∷ []

read_frame : decoder_read one_frame ≡ ok (258, 5 ∷ [], 9 ∷ [])
unfolding decoder_read get_uint32 get_uint16 decode_payload get_bytes
read_frame = refl

short_frame : decoder_read (0 ∷ 0 ∷ 0 ∷ 5 ∷ []) ≡ err (invalid_frame_length 5)
unfolding decoder_read get_uint32
short_frame = refl

decoder_read-eq-frame_test : one_frame ≡ frame 258 (5 ∷ []) ++ (9 ∷ [])
decoder_read-eq-frame_test =
    decoder_read-eq-frame one_frame 258 (5 ∷ []) (9 ∷ []) (omega arith) read_frame

receive_handshake-send_handshake_test :
    (sent : Bytes) × (send_handshake buffer_write [] ≡ ok sent)
    × (receive_handshake (sent ++ (1 ∷ [])) ≡ ok (version_major, version_minor, 1 ∷ []))
receive_handshake-send_handshake_test = receive_handshake-send_handshake [] (1 ∷ [])

abbrev ones : Hash
ones = replicate 32 1

abbrev twos : Hash
twos = replicate 32 2

decode_ref_line-encode_ref_line_test :
    decode_ref_line (encode_ref_line (codes "refs/heads/main") ones)
    ≡ ok (codes "refs/heads/main", ones)
decode_ref_line-encode_ref_line_test =
    decode_ref_line-encode_ref_line (codes "refs/heads/main") ones refl

error_read_back : decode_error (encode_error 4 (codes "no")) ≡ ok (4, codes "no")
error_read_back = decode_error-encode_error 4 (codes "no") (omega arith)

decode_update_ref-encode_update_ref_test :
    decode_update_ref (encode_update_ref (codes "main") ones twos) ≡ ok (codes "main", ones, twos)
decode_update_ref-encode_update_ref_test =
    decode_update_ref-encode_update_ref (codes "main") ones twos (omega arith) refl refl

decode_chunk_query-encode_chunk_query_test :
    decode_chunk_query (encode_chunk_query (ones ∷ twos ∷ [])) ≡ ok (ones ∷ twos ∷ [])
decode_chunk_query-encode_chunk_query_test =
    decode_chunk_query-encode_chunk_query (ones ∷ twos ∷ []) (refl, (refl, tt)) (omega arith)

decode_chunk_haves-encode_chunk_haves_test :
    decode_chunk_haves (encode_chunk_haves (true ∷ false ∷ true ∷ []))
    ≡ ok (true ∷ false ∷ true ∷ [])
decode_chunk_haves-encode_chunk_haves_test =
    decode_chunk_haves-encode_chunk_haves (true ∷ false ∷ true ∷ []) (omega arith)

decoders_never_panic_test :
    (decode_ref_line (1 ∷ []) ≢ panic)
    × (decode_error (1 ∷ []) ≢ panic)
    × (decode_update_ref (1 ∷ []) ≢ panic)
    × (decode_chunk_query (1 ∷ []) ≢ panic)
    × (decode_auth_response (1 ∷ []) ≢ panic)
decoders_never_panic_test = decoders_never_panic (1 ∷ [])
