-- ===== src/Protocol/Payloads/RoundTrip.antt =====
-- The decoders of internal/protocol/client.go and server.go on what the encoders write.
use minus_sync.Prelude.{
  ℕ, suc, ◌+◌, ◌*◌, ◌%◌, ◌^◌, ◌<◌, ◌≤◌, false, List, [], ◌∷◌, ◌++◌, Bytes, length, take, ltb, ok,
  put_uint32, get_byte, ◌≡◌, refl, arith, get_uint32-put, get_bytes-append_of_length,
  get_bytes_long, get_bytes-append, get_bytes_all, length-put_uint32, length-append, All,
}
use minus_sync.Hash.{Hash, hash_size}
use minus_sync.Protocol.Payloads.{
  encode_ref_line, decode_ref_line, encode_error, decode_error, encode_update_ref,
  decode_update_ref, concat_hashes, encode_chunk_query, decode_chunk_query, read_hashes,
}

long_enough : (a b : ℕ) → b ≤ a → ltb a b ≡ false
long_enough a b h = ground arith

-- A ref advertisement is read back with its hash, and with the first `len % 256` bytes of its
-- name: all of a name of up to 255 bytes.
pub decode_ref_line-encode_ref_line :
    (name : Bytes) (h : Hash)
    → length h ≡ hash_size
    → decode_ref_line (encode_ref_line name h) ≡ ok (take (length name % 256) name, h)
unfolding decode_ref_line encode_ref_line get_byte
decode_ref_line-encode_ref_line name h size =
    let long =
      long_enough (length (h ++ (length name % 256) ∷ name)) 33
        (omega (arith, length-append h ((length name % 256) ∷ name))) in
    rw
      (
        long,
        get_bytes-append_of_length hash_size h ((length name % 256) ∷ name) size,
        get_bytes_long (length name % 256) name (omega arith),
      )
      refl

-- An error is read back with its code, and with the first `len % 256` bytes of its message.
pub decode_error-encode_error :
    (code : ℕ) (message : Bytes)
    → code < 2 ^ 32
    → decode_error (encode_error code message) ≡ ok (code, take (length message % 256) message)
unfolding decode_error encode_error get_byte
decode_error-encode_error code message fits =
    let long = long_enough (length (put_uint32 code ++ (length message % 256) ∷ message)) 5 (
      omega (
        arith,
        length-append (put_uint32 code) ((length message % 256) ∷ message),
        length-put_uint32 code,
      )) in
    rw
      (
        long,
        get_uint32-put code ((length message % 256) ∷ message) fits,
        get_bytes_long (length message % 256) message (omega arith),
      )
      refl

-- A ref update is read back, for a name of up to 255 bytes.
pub decode_update_ref-encode_update_ref :
    (name : Bytes) (old_hash new_hash : Hash)
    → length name < 256
    → length old_hash ≡ hash_size
    → length new_hash ≡ hash_size
    → decode_update_ref (encode_update_ref name old_hash new_hash) ≡ ok (name, old_hash, new_hash)
unfolding decode_update_ref encode_update_ref get_byte
decode_update_ref-encode_update_ref name old_hash new_hash short size size' =
    let whole = length-append name (old_hash ++ new_hash) in
    let hashes = length-append old_hash new_hash in
    let wrap : length name % 256 ≡ length name = omega arith in
    rw
      (
        wrap,
        long_enough (suc (length (name ++ (old_hash ++ new_hash)))) 1 (omega arith),
        long_enough (suc (length (name ++ (old_hash ++ new_hash)))) (1 + length name + 32 + 32)
            (omega (arith, whole, hashes)),
        get_bytes-append name (old_hash ++ new_hash),
        get_bytes-append_of_length hash_size old_hash new_hash size,
        get_bytes_all hash_size new_hash size',
      )
      refl

-- The hashes are all of 32 bytes.
abbrev pub AreHashes : List Hash → Type 0
AreHashes = All (λ (h : Hash). length h ≡ hash_size)

length-concat_hashes :
    (hashes : List Hash) → AreHashes hashes → length (concat_hashes hashes) ≡ length hashes * 32
unfolding concat_hashes
length-concat_hashes [] h = refl
length-concat_hashes (x ∷ hashes) (size, h) =
    omega (arith, length-append x (concat_hashes hashes), length-concat_hashes hashes h)

read_hashes-concat_hashes :
    (hashes : List Hash)
    → AreHashes hashes
    → read_hashes (length hashes) (concat_hashes hashes) ≡ ok hashes
unfolding read_hashes concat_hashes
read_hashes-concat_hashes [] h = refl
read_hashes-concat_hashes (x ∷ hashes) (size, h) =
    rw (get_bytes-append_of_length hash_size x (concat_hashes hashes) size)
      (rw (read_hashes-concat_hashes hashes h) refl)

encode_chunk_query_lem :
    (hashes : List Hash)
    → encode_chunk_query hashes ≡ put_uint32 (length hashes % 2 ^ 32) ++ concat_hashes hashes
unfolding encode_chunk_query
encode_chunk_query_lem hashes = refl

decode_chunk_query-concat_hashes :
    (hashes : List Hash)
    → AreHashes hashes
    → length hashes < 2 ^ 32
    → decode_chunk_query (put_uint32 (length hashes) ++ concat_hashes hashes) ≡ ok hashes
unfolding decode_chunk_query
decode_chunk_query-concat_hashes hashes h fits =
    let bytes = put_uint32 (length hashes) ++ concat_hashes hashes in
    let long = long_enough (length bytes) (4 + length hashes * 32) (
      omega (
        arith,
        length-append (put_uint32 (length hashes)) (concat_hashes hashes),
        length-put_uint32 (length hashes),
        length-concat_hashes hashes h,
      )) in
    rw (get_uint32-put (length hashes) (concat_hashes hashes) fits)
      (rw long (read_hashes-concat_hashes hashes h))

-- A query of less than 2^32 chunks is read back.
pub decode_chunk_query-encode_chunk_query :
    (hashes : List Hash)
    → AreHashes hashes
    → length hashes < 2 ^ 32
    → decode_chunk_query (encode_chunk_query hashes) ≡ ok hashes
decode_chunk_query-encode_chunk_query hashes h fits =
    let wrap : length hashes % 2 ^ 32 ≡ length hashes = omega arith in
    rw (encode_chunk_query_lem, wrap) (decode_chunk_query-concat_hashes hashes h fits)
