-- ===== src/Protocol/Payloads/Total.antt =====
-- The length tests of the decoders cover every read: no payload makes them panic.
use minus_sync.Prelude.{
  ℕ, zero, suc, ◌+◌, ◌*◌, ◌≤◌, false, Bytes, length, drop, ltb, panic, get_uint32, get_bytes, ◌≡◌,
  ◌≢◌, arith, get_bytes_long, length-drop, get_byte-eq_some_of_lt, get_uint32-eq_some_of_le,
  length-get_uint32, Returns, returned, failed, Returns-or_err, Returns-bind, Returns-if,
  Returns-ne-panic, or_err-eq-ok,
}
use minus_sync.Hash.{hash_size}
use minus_sync.Protocol.Payloads.{
  decode_ref_line, decode_error, decode_update_ref, decode_chunk_query, read_hashes,
  decode_auth_response, invalid_ref_line, invalid_error, invalid_chunk_query, invalid_auth_response,
}

le_of_ltb : (a b : ℕ) → ltb a b ≡ false → b ≤ a
le_of_ltb a b h = ground arith

decode_ref_line-Returns : (payload : Bytes) → Returns (decode_ref_line payload)
unfolding decode_ref_line
decode_ref_line-Returns payload =
    Returns-if (ltb (length payload) 33) _ _ (λ short. failed _)
      (λ long.
        let enough = le_of_ltb (length payload) 33 long in
        let (b, r, got, _) =
          get_byte-eq_some_of_lt (drop 32 payload) (omega (arith, length-drop 32 payload)) in
        rw (get_bytes_long hash_size payload (omega arith)) (
          rw got (
            Returns-bind _ (Returns-or_err invalid_ref_line (get_bytes b r))
              (λ (name, r') e. returned _))))

decode_error-Returns : (payload : Bytes) → Returns (decode_error payload)
unfolding decode_error
decode_error-Returns payload =
    Returns-if (ltb (length payload) 5) _ _ (λ short. failed _)
      (λ long.
        let enough = le_of_ltb (length payload) 5 long in
        let (code, r, got, left) = get_uint32-eq_some_of_le payload (omega arith) in
        let (b, r', got', _) = get_byte-eq_some_of_lt r (omega arith) in
        rw got (
          rw got' (
            Returns-bind _ (Returns-or_err invalid_error (get_bytes b r'))
              (λ (message, _) e. returned _))))

decode_update_ref-Returns : (payload : Bytes) → Returns (decode_update_ref payload)
unfolding decode_update_ref
decode_update_ref-Returns payload =
    Returns-if (ltb (length payload) 1) _ _ (λ short. failed _)
      (λ long.
        let enough = le_of_ltb (length payload) 1 long in
        let (n, r, got, left) = get_byte-eq_some_of_lt payload (omega arith) in
        rw got (
          Returns-if (ltb (length payload) (1 + n + 32 + 32)) _ _ (λ short. failed _)
            (λ long'.
              let enough' = le_of_ltb (length payload) (1 + n + 32 + 32) long' in
              let rest_length = length-drop n r in
              rw (get_bytes_long n r (omega arith)) (
                rw (get_bytes_long hash_size (drop n r) (omega arith)) (
                  rw
                    (get_bytes_long hash_size (drop hash_size (drop n r))
                      (omega (arith, length-drop hash_size (drop n r))))
                    (returned _))))))

read_hashes-Returns :
    (count : ℕ) (payload : Bytes)
    → count * 32 ≤ length payload
    → Returns (read_hashes count payload)
unfolding read_hashes
read_hashes-Returns zero payload h = returned _
read_hashes-Returns (suc count) payload h = rw (get_bytes_long hash_size payload (omega arith)) (
    Returns-bind _
      (read_hashes-Returns count (drop hash_size payload)
        (omega (arith, length-drop hash_size payload)))
      (λ hashes e. returned _))

decode_chunk_query-Returns : (payload : Bytes) → Returns (decode_chunk_query payload)
unfolding decode_chunk_query
decode_chunk_query-Returns payload =
    Returns-bind _ (Returns-or_err invalid_chunk_query (get_uint32 payload)) (λ (count, r) e.
      Returns-if (ltb (length payload) (4 + count * 32)) _ _ (λ short. failed _)
        (λ long. read_hashes-Returns count r (
          omega (
            arith,
            le_of_ltb (length payload) (4 + count * 32) long,
            length-get_uint32 payload (or_err-eq-ok invalid_chunk_query (get_uint32 payload) e),
          ))))

decode_auth_response-Returns : (payload : Bytes) → Returns (decode_auth_response payload)
unfolding decode_auth_response
decode_auth_response-Returns payload =
    Returns-if (ltb (length payload) 2) _ _ (λ short. failed _)
      (λ long.
        let enough = le_of_ltb (length payload) 2 long in
        let (n, r, got, left) = get_byte-eq_some_of_lt payload (omega arith) in
        rw got (
          Returns-if (ltb (length payload) (1 + n + 4)) _ _ (λ short. failed _)
            (λ long'.
              let enough' = le_of_ltb (length payload) (1 + n + 4) long' in
              let (data_len, r', got', _) =
                get_uint32-eq_some_of_le (drop n r) (omega (arith, length-drop n r)) in
              rw (get_bytes_long n r (omega arith)) (
                rw got' (
                  Returns-bind _ (Returns-or_err invalid_auth_response (get_bytes data_len r'))
                    (λ (bytes, _) e. returned _))))))

-- Whatever bytes a peer sends, the decoders of ref lines, errors, ref updates, chunk queries and
-- auth responses return a value or an error: none of their slices is out of range.
pub decoders_never_panic :
    (payload : Bytes)
    → (decode_ref_line payload ≢ panic)
      × (decode_error payload ≢ panic)
      × (decode_update_ref payload ≢ panic)
      × (decode_chunk_query payload ≢ panic)
      × (decode_auth_response payload ≢ panic)
decoders_never_panic payload = (
  Returns-ne-panic (decode_ref_line-Returns payload),
  Returns-ne-panic (decode_error-Returns payload),
  Returns-ne-panic (decode_update_ref-Returns payload),
  Returns-ne-panic (decode_chunk_query-Returns payload),
  Returns-ne-panic (decode_auth_response-Returns payload),
)
