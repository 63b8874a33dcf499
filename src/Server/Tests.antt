-- ===== src/Server/Tests.antt =====
-- One connection with a token, and one without.
use minus_sync.Prelude.{
  true, false, ℕ, some, List, [], ◌∷◌, ◌++◌, Bytes, codes, ◌⊎◌, ◌≡◌, refl, replicate,
}
use minus_sync.Protocol.Wire.{
  msg_error, err_auth_failed, msg_push_request, msg_update_ref, msg_auth_response, msg_stream_end,
  msg_want_pack, msg_ok,
}
use minus_sync.Protocol.Payloads.{encode_update_ref, encode_error}
use minus_sync.Server.{send, authenticate, Message, Conn, Config, handle_connection}
use minus_sync.Server.Ends.{handle_connection-ends}
use minus_sync.Server.Access.{Credentials, request, refusal, handle_connection-Credentials}
use minus_sync.Prelude.{bytes_equal}
use minus_sync.Prelude.{get_byte}
use minus_sync.Prelude.{get_bytes}
use minus_sync.Prelude.{get_uint32}
use minus_sync.Prelude.{split_at_byte}
use minus_sync.Protocol.Payloads.{decode_auth_response}
use minus_sync.Protocol.Payloads.{decode_update_ref}

abbrev token_config : Config
token_config = record {
  auth_method = codes "token";
  tokens = record { user = codes "u"; token = codes "t" } ∷ [];
}

abbrev message : ℕ → Bytes → Message
message msg_type payload = record { msg_type = msg_type; payload = payload }

abbrev response : Bytes → Message
response data_bytes = message msg_auth_response (5 ∷ codes "token" ++ (0 ∷ 0 ∷ 0 ∷ 3 ∷ data_bytes))

abbrev push : List Message
push =
    response (codes "u:t")
    ∷ message msg_push_request []
    ∷ message msg_update_ref (encode_update_ref (codes "main") (replicate 32 1) (replicate 32 2))
    ∷ message msg_stream_end []
    ∷ []

pushed :
    handle_connection token_config [] (record { received = push; sent = [] })
    ≡ some (record {
      received = [];
      sent = request ∷ message msg_want_pack [] ∷ message msg_ok [] ∷ [];
    })
unfolding handle_connection bytes_equal decode_auth_response get_byte get_bytes get_uint32
    split_at_byte decode_update_ref encode_update_ref
pushed = refl

abbrev stranger : Conn
stranger = record { received = response (codes "u:x") ∷ []; sent = [] }

refused :
    handle_connection token_config [] stranger
    ≡ some (record { received = []; sent = request ∷ refusal ∷ [] })
unfolding handle_connection bytes_equal decode_auth_response get_byte get_bytes get_uint32
    split_at_byte
refused = refl

handle_connection-ends_example :
    (after : Conn) × (handle_connection token_config [] stranger ≡ some after)
    × ((after.received ≡ [])
        ⊎ ((bytes_equal (codes "token") (codes "token") ≡ true)
            × ((authenticate token_config stranger).0 ≡ false)
            × (after
                ≡ send msg_error
                    (encode_error err_auth_failed (codes "authentication failed"))
                    (authenticate token_config stranger).1)))
handle_connection-ends_example = handle_connection-ends token_config [] stranger

handle_connection-Credentials_example :
    Credentials token_config (response (codes "u:x") ∷ [])
    ⊎ (request ∷ refusal ∷ [] ≡ request ∷ refusal ∷ [])
handle_connection-Credentials_example =
    handle_connection-Credentials token_config [] stranger
      (record { received = []; sent = request ∷ refusal ∷ [] }) refl refused
