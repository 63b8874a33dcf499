-- ===== src/Server.antt =====
-- internal/msyncd/daemon.go: how the server handles one connection. A connection is the messages
-- that the client will send, until an error ends it, and those that the server has sent.
pub mod Ends
pub mod Access
mod Tests
use minus_sync.Prelude.{
  ℕ, zero, suc, ◌+◌, Bool, true, false, ◌&&◌, ◌||◌, not, Option, none, some, List, [], ◌∷◌, ◌++◌,
  Bytes, length, codes, bytes_equal, split_at_byte, ◌==◌, if◌then◌else◌, Result, ok, err, panic,
}
use minus_sync.Hash.{Hash}
use minus_sync.Protocol.Wire.{
  msg_list_refs, msg_ref_line, msg_fetch_request, msg_fetch_done, msg_pack_header, msg_push_request,
  msg_update_ref, msg_want_pack, msg_ok, msg_error, msg_auth_request, msg_auth_response,
  msg_search_req, msg_stream_end, err_auth_failed, err_bad_request, message_name,
}
use minus_sync.Protocol.Payloads.{
  encode_error, encode_ref_line, decode_update_ref, encode_auth_request, decode_auth_response,
}

pub record Message : Type 0 where
  pub msg_type : ℕ
  pub payload : Bytes

pub record Conn : Type 0 where
  pub received : List Message
  pub sent : List Message

unfoldable pub send : ℕ → Bytes → Conn → Conn
send msg_type payload conn = record conn {
  sent = conn.sent ++ record { msg_type = msg_type; payload = payload } ∷ [];
}

-- `UserToken` of the configuration.
pub record Token : Type 0 where
  pub user : Bytes
  pub token : Bytes

pub record Config : Type 0 where
  pub auth_method : Bytes
  pub tokens : List Token

-- The loop over the tokens.
unfoldable pub has_token : List Token → Bytes → Bytes → Bool
has_token [] user token = false
has_token (t ∷ tokens) user token =
    (bytes_equal t.user user && bytes_equal t.token token) || has_token tokens user token

-- "user:token" against the configuration.
abbrev pub check_parts : List Token → Option (Bytes × Bytes) → Bool
check_parts tokens none = false
check_parts tokens (some (user, token)) = has_token tokens user token

unfoldable pub check_credentials : List Token → Bytes → Bool
unfolding has_token
check_credentials tokens data_bytes = check_parts tokens (split_at_byte 58 data_bytes)

-- The answer to the request for authentication.
unfoldable pub check_response : Config → Message → Bool
unfolding check_credentials
check_response cfg m =
    if not (m.msg_type == msg_auth_response)
    then false
    else (elim (decode_auth_response m.payload) [
      | ok (method, data_bytes) ↦
          if not (bytes_equal method (codes "token"))
          then false
          else check_credentials cfg.tokens data_bytes
      | err why ↦ false
      | panic ↦ false
    ])

-- The first message received, or the end of the connection.
abbrev pub first_answer : Config → List Message → Conn → Bool × Conn
first_answer cfg [] asked = (false, asked)
first_answer cfg (m ∷ received) asked = (check_response cfg m, record asked { received = received })

unfoldable pub authenticate : Config → Conn → Bool × Conn
unfolding send check_response
authenticate cfg conn =
    first_answer cfg conn.received
      (send msg_auth_request (encode_auth_request (codes "token" ∷ [])) conn)

-- The refs of one repository, in the order in which the map is walked; an error is skipped.
unfoldable pub send_refs : List (Bytes × Hash) → Conn → Conn
unfolding send
send_refs [] conn = conn
send_refs ((name, h) ∷ refs) conn = send_refs refs (send msg_ref_line (encode_ref_line name h) conn)

unfoldable pub send_repos : List (Option (List (Bytes × Hash))) → Conn → Conn
unfolding send_refs
send_repos [] conn = conn
send_repos (none ∷ repos) conn = send_repos repos conn
send_repos (some refs ∷ repos) conn = send_repos repos (send_refs refs conn)

unfoldable pub handle_list_refs : List (Option (List (Bytes × Hash))) → Conn → Conn
unfolding send_repos
handle_list_refs repos conn = send msg_stream_end [] (send_repos repos conn)

-- The messages behind the next one of a type; `none` when the connection ends before it.
unfoldable pub recv_until : ℕ → List Message → Option (List Message)
recv_until msg_type [] = none
recv_until msg_type (m ∷ received) =
    let later = recv_until msg_type received in
    if m.msg_type == msg_type then some received else later

abbrev pub fetch_reply : Option (List Message) → Conn → Conn
fetch_reply none conn = record conn { received = [] }
fetch_reply (some received) conn =
    send msg_stream_end []
      (send msg_pack_header (0 ∷ 0 ∷ 0 ∷ 0 ∷ []) (record conn { received = received }))

unfoldable pub handle_fetch : Conn → Conn
unfolding recv_until send
handle_fetch conn = fetch_reply (recv_until msg_fetch_done conn.received) conn

abbrev pub pack_reply : Option (List Message) → Conn → Conn
pack_reply none conn = record conn { received = [] }
pack_reply (some received) conn = send msg_ok [] (record conn { received = received })

-- The loop of `handlePush` over the pack, behind the request for it.
unfoldable pub receive_pack : Conn → Conn
unfolding recv_until send
receive_pack conn = pack_reply (recv_until msg_stream_end conn.received) conn

unfoldable pub bad_request : Bytes → Conn → Conn
unfolding send
bad_request text conn = send msg_error (encode_error err_bad_request text) conn

unfoldable pub handle_update : Message → Conn → Conn
unfolding receive_pack bad_request
handle_update m conn =
    if not (m.msg_type == msg_update_ref)
    then bad_request (codes "expected UPDATE_REF") conn
    else (elim (decode_update_ref m.payload) [
      | ok update ↦ receive_pack (send msg_want_pack [] conn)
      | err why ↦ bad_request (codes "protocol error: invalid payload for UPDATE_REF") conn
      | panic ↦ bad_request (codes "protocol error: invalid payload for UPDATE_REF") conn
    ])

unfoldable pub handle_push : Conn → Conn
unfolding handle_update
handle_push conn = elim conn.received [
  | [] ↦ bad_request (codes "expected UPDATE_REF") conn
  | ◌∷◌ m received ↦ handle_update m (record conn { received = received })
]

unfoldable pub handle_search : Conn → Conn
unfolding send
handle_search conn = send msg_stream_end [] conn

-- One turn of the loop of `handleConnection`.
unfoldable pub dispatch : List (Option (List (Bytes × Hash))) → Message → Conn → Conn
unfolding handle_list_refs handle_fetch handle_push handle_search
dispatch repos m conn =
    if m.msg_type == msg_list_refs
    then handle_list_refs repos conn
    else if m.msg_type == msg_fetch_request
    then handle_fetch conn
    else if m.msg_type == msg_push_request
    then handle_push conn
    else if m.msg_type == msg_search_req
    then handle_search conn
    else bad_request (codes "unknown message type: " ++ codes (message_name m.msg_type)) conn

-- The loop ends when nothing more is received; every turn takes a message at least.
unfoldable pub serve_loop : List (Option (List (Bytes × Hash))) → ℕ → Conn → Option Conn
unfolding dispatch
serve_loop repos zero conn = elim conn.received [ [] ↦ some conn | ◌∷◌ m received ↦ none ]
serve_loop repos (suc fuel) conn = elim conn.received [
  | [] ↦ some conn
  | ◌∷◌ m received ↦ serve_loop repos fuel (dispatch repos m (record conn { received = received }))
]

-- `handleConnection`, with as much fuel as there are messages; `none` would be a loop that runs on.
unfoldable pub handle_connection : Config → List (Option (List (Bytes × Hash))) → Conn → Option Conn
unfolding serve_loop authenticate
handle_connection cfg repos conn =
    let (admitted, answered) = authenticate cfg conn in
    let refused =
      send msg_error (encode_error err_auth_failed (codes "authentication failed")) answered in
    if bytes_equal cfg.auth_method (codes "token")
    then if admitted then serve_loop repos (length answered.received) answered else some refused
    else serve_loop repos (length conn.received) conn
