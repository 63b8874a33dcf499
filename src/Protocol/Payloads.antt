-- ===== src/Protocol/Payloads.antt =====
-- internal/protocol/client.go and server.go: the payloads of the messages. A decoder that tests
-- the length of its payload returns `invalid_payload`; a read that is out of range is a panic.
pub mod RoundTrip
pub mod Total
pub mod Chunks
use minus_sync.Prelude.{
  ℕ, zero, suc, ◌+◌, ◌-◌, ◌*◌, ◌/◌, ◌%◌, ◌^◌, Bool, true, false, Option, none, some, List, [], ◌∷◌,
  ◌++◌, Bytes, length, ltb, if◌then◌else◌, Result, ok, err, or_err, or_panic, ◌>>=◌, put_uint32,
  get_uint32, get_byte, get_bytes,
}
use minus_sync.Hash.{Hash, hash_size}

-- `errInvalidPayload`, one for each message that is decoded here.
pub data Error : Type 0 where
  invalid_ref_line invalid_wanted invalid_error invalid_update_ref : Error
  invalid_chunk_query invalid_chunk_haves invalid_auth_response : Error

unfoldable pub encode_ref_line : Bytes → Hash → Bytes
encode_ref_line name h = h ++ (length name % 256) ∷ name

unfoldable pub decode_ref_line : Bytes → Result Error (Bytes × Hash)
decode_ref_line payload = if ltb (length payload) 33 then err invalid_ref_line else (do
  (h, payload') ← or_panic (get_bytes hash_size payload)
  (name_len, payload'') ← or_panic (get_byte payload')
  (name, _) ← or_err invalid_ref_line (get_bytes name_len payload'')
  ok (name, h))

unfoldable pub encode_wanted : Hash → Bytes
encode_wanted h = h

unfoldable pub decode_wanted : Bytes → Result Error Hash
decode_wanted payload = do (h, _) ← or_err invalid_wanted (get_bytes hash_size payload); ok h

unfoldable pub encode_pack_header : ℕ → Bytes
encode_pack_header count = put_uint32 count

unfoldable pub encode_pack_object : Hash → ℕ → Bytes → Bytes
encode_pack_object h obj_type compressed =
    h ++ obj_type ∷ (put_uint32 (length compressed % 2 ^ 32) ++ compressed)

unfoldable pub encode_error : ℕ → Bytes → Bytes
encode_error code message = put_uint32 code ++ (length message % 256) ∷ message

unfoldable pub decode_error : Bytes → Result Error (ℕ × Bytes)
decode_error payload = if ltb (length payload) 5 then err invalid_error else (do
  (code, payload') ← or_panic (get_uint32 payload)
  (msg_len, payload'') ← or_panic (get_byte payload')
  (message, _) ← or_err invalid_error (get_bytes msg_len payload'')
  ok (code, message))

unfoldable pub encode_update_ref : Bytes → Hash → Hash → Bytes
encode_update_ref name old_hash new_hash = (length name % 256) ∷ (name ++ (old_hash ++ new_hash))

unfoldable pub decode_update_ref : Bytes → Result Error (Bytes × Hash × Hash)
decode_update_ref payload = if ltb (length payload) 1 then err invalid_update_ref else (do
  (name_len, payload') ← or_panic (get_byte payload)
  if ltb (length payload) (1 + name_len + 32 + 32) then err invalid_update_ref else (do
    (name, payload'') ← or_panic (get_bytes name_len payload')
    (old_hash, payload''') ← or_panic (get_bytes hash_size payload'')
    (new_hash, _) ← or_panic (get_bytes hash_size payload''')
    ok (name, old_hash, new_hash)))

unfoldable pub concat_hashes : List Hash → Bytes
concat_hashes [] = []
concat_hashes (h ∷ hashes) = h ++ concat_hashes hashes

unfoldable pub encode_chunk_query : List Hash → Bytes
unfolding concat_hashes
encode_chunk_query hashes = put_uint32 (length hashes % 2 ^ 32) ++ concat_hashes hashes

unfoldable pub read_hashes : ℕ → Bytes → Result Error (List Hash)
read_hashes zero payload = ok []
read_hashes (suc count) payload = do
  (h, payload') ← or_panic (get_bytes hash_size payload)
  hashes ← read_hashes count payload'
  ok (h ∷ hashes)

unfoldable pub decode_chunk_query : Bytes → Result Error (List Hash)
unfolding read_hashes
decode_chunk_query payload = do
  (count, payload') ← or_err invalid_chunk_query (get_uint32 payload)
  if ltb (length payload) (4 + count * 32)
      then err invalid_chunk_query
      else read_hashes count payload'

unfoldable pub encode_search_query : Bytes → Bytes → ℕ → Bytes
encode_search_query query glob flags =
    put_uint32 flags
    ++ (length query / 2 ^ 8 % 256)
      ∷ (length query % 256)
      ∷ (query ++ (length glob / 2 ^ 8 % 256) ∷ (length glob % 256) ∷ glob)

unfoldable pub encode_methods : List Bytes → Bytes
encode_methods [] = []
encode_methods (m ∷ methods) = (length m % 256) ∷ (m ++ encode_methods methods)

unfoldable pub encode_auth_request : List Bytes → Bytes
unfolding encode_methods
encode_auth_request methods = (length methods % 256) ∷ encode_methods methods

unfoldable pub decode_auth_response : Bytes → Result Error (Bytes × Bytes)
decode_auth_response payload = if ltb (length payload) 2 then err invalid_auth_response else (do
  (method_len, payload') ← or_panic (get_byte payload)
  if ltb (length payload) (1 + method_len + 4) then err invalid_auth_response else (do
    (method, payload'') ← or_panic (get_bytes method_len payload')
    (data_len, payload''') ← or_panic (get_uint32 payload'')
    (bytes, _) ← or_err invalid_auth_response (get_bytes data_len payload''')
    ok (method, bytes)))
