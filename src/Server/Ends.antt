-- ===== src/Server/Ends.antt =====
-- Every connection is handled to its end.
use minus_sync.Prelude.{
  ◌⊎◌, ℕ, zero, suc, ◌≤◌, Option, none, some, List, [], ◌∷◌, ◌++◌, Bytes, length, codes,
  bytes_equal, ◌==◌, true, false, Bool-cases, List-cases, Result-cases, none-ne-some, inl, inr, ◌≡◌,
  refl, ap, ◌∙◌, arith,
}
use minus_sync.Hash.{Hash}
use minus_sync.Protocol.Wire.{
  msg_list_refs, msg_fetch_request, msg_fetch_done, msg_push_request, msg_search_req, msg_error,
  err_auth_failed, msg_update_ref, msg_want_pack, msg_stream_end,
}
use minus_sync.Protocol.Payloads.{decode_update_ref, encode_error}
use minus_sync.Server.{
  Message, Conn, Config, send, authenticate, recv_until, send_refs, send_repos, handle_list_refs,
  fetch_reply, handle_fetch, pack_reply, receive_pack, bad_request, handle_update, handle_push,
  handle_search, dispatch, serve_loop, handle_connection,
}

some_injective {ℓ} : {A : Type ℓ} {a b : A} → ◌≡◌ {A = Option A} (some a) (some b) → a ≡ b
some_injective e = cc

recv_until-shorter :
    (msg_type : ℕ) (received : List Message) {rest : List Message}
    → recv_until msg_type received ≡ some rest
    → length rest ≤ length received
unfolding recv_until
recv_until-shorter msg_type [] e = absurd (none-ne-some e)
recv_until-shorter msg_type (m ∷ received) {rest} e = elim (Bool-cases (m.msg_type == msg_type)) [
  | inl here ↦ omega (arith, ap length (some_injective (rw here at e)))
  | inr further ↦ let le = recv_until-shorter msg_type received (rw further at e) in omega arith
]

send_refs-received :
    (refs : List (Bytes × Hash)) (conn : Conn) → (send_refs refs conn).received ≡ conn.received
unfolding send_refs send
send_refs-received [] conn = refl
send_refs-received ((name, h) ∷ refs) conn = send_refs-received refs _

send_repos-received :
    (repos : List (Option (List (Bytes × Hash)))) (conn : Conn)
    → (send_repos repos conn).received ≡ conn.received
unfolding send_repos
send_repos-received [] conn = refl
send_repos-received (none ∷ repos) conn = send_repos-received repos conn
send_repos-received (some refs ∷ repos) conn =
    send_repos-received repos (send_refs refs conn) ∙ send_refs-received refs conn

-- A handler leaves no more to be received than it was given.
abbrev Consumes : (Conn → Conn) → Type 0
Consumes handler = (conn : Conn) → length (handler conn).received ≤ length conn.received

fetch_reply-shorter :
    (o : Option (List Message)) (conn : Conn)
    → ((rest : List Message) → o ≡ some rest → length rest ≤ length conn.received)
    → length (fetch_reply o conn).received ≤ length conn.received
unfolding send
fetch_reply-shorter none conn le = omega arith
fetch_reply-shorter (some rest) conn le = le rest refl

handle_fetch-Consumes : Consumes handle_fetch
unfolding handle_fetch
handle_fetch-Consumes conn =
    fetch_reply-shorter (recv_until msg_fetch_done conn.received) conn
      (λ rest e. recv_until-shorter msg_fetch_done conn.received {rest = rest} e)

pack_reply-shorter :
    (o : Option (List Message)) (conn : Conn)
    → ((rest : List Message) → o ≡ some rest → length rest ≤ length conn.received)
    → length (pack_reply o conn).received ≤ length conn.received
unfolding send
pack_reply-shorter none conn le = omega arith
pack_reply-shorter (some rest) conn le = le rest refl

receive_pack-Consumes : Consumes receive_pack
unfolding receive_pack
receive_pack-Consumes conn =
    pack_reply-shorter (recv_until msg_stream_end conn.received) conn
      (λ rest e. recv_until-shorter msg_stream_end conn.received {rest = rest} e)

handle_update-Consumes : (m : Message) → Consumes (handle_update m)
unfolding handle_update send bad_request
handle_update-Consumes m conn = elim (Bool-cases (m.msg_type == msg_update_ref)) [
  | inr other ↦ rw other (omega arith)
  | inl update ↦ rw update (elim (Result-cases (decode_update_ref m.payload)) [
    | inl (fields, decoded) ↦ rw decoded (
        receive_pack-Consumes (record conn {
          sent = conn.sent ++ record { msg_type = msg_want_pack; payload = [] } ∷ [];
        }))
    | inr (inl (why, failed)) ↦ rw failed (omega arith)
    | inr (inr fault) ↦ rw fault (omega arith)
  ])
]

handle_push-Consumes : Consumes handle_push
unfolding handle_push bad_request send
handle_push-Consumes conn = elim (List-cases conn.received) [
  | inl nothing ↦ rw nothing (omega arith)
  | inr (m, rest, next) ↦
      let le = handle_update-Consumes m (record conn { received = rest }) in rw next (omega arith)
]

handle_list_refs-Consumes :
    (repos : List (Option (List (Bytes × Hash)))) → Consumes (handle_list_refs repos)
unfolding handle_list_refs send
handle_list_refs-Consumes repos conn = omega (arith, ap length (send_repos-received repos conn))

dispatch-Consumes :
    (repos : List (Option (List (Bytes × Hash)))) (m : Message) → Consumes (dispatch repos m)
unfolding dispatch bad_request send handle_search
dispatch-Consumes repos m conn = elim (Bool-cases (m.msg_type == msg_list_refs)) [
  | inl list ↦ rw list (handle_list_refs-Consumes repos conn)
  | inr a ↦ elim (Bool-cases (m.msg_type == msg_fetch_request)) [
    | inl fetch ↦ rw (a, fetch) (handle_fetch-Consumes conn)
    | inr b ↦ elim (Bool-cases (m.msg_type == msg_push_request)) [
      | inl push ↦ rw (a, b, push) (handle_push-Consumes conn)
      | inr c ↦ elim (Bool-cases (m.msg_type == msg_search_req)) [
        | inl search ↦ rw (a, b, c, search) (omega arith)
        | inr d ↦ rw (a, b, c, d) (omega arith)
      ]
    ]
  ]
]

serve_loop-stop :
    (repos : List (Option (List (Bytes × Hash)))) (fuel : ℕ) (conn : Conn)
    → conn.received ≡ []
    → serve_loop repos fuel conn ≡ some conn
unfolding serve_loop
serve_loop-stop repos zero conn e = simp (serve_loop, e)
serve_loop-stop repos (suc fuel) conn e = simp (serve_loop, e)

serve_loop-next :
    (repos : List (Option (List (Bytes × Hash)))) (fuel : ℕ) (conn : Conn) (m : Message)
    (rest : List Message)
    → conn.received ≡ m ∷ rest
    → serve_loop repos (suc fuel) conn
      ≡ serve_loop repos fuel (dispatch repos m (record conn { received = rest }))
unfolding serve_loop
serve_loop-next repos fuel conn m rest e = simp (serve_loop, e)

serve_loop-ends :
    (repos : List (Option (List (Bytes × Hash)))) (fuel : ℕ) (conn : Conn)
    → length conn.received ≤ fuel
    → (after : Conn) × (serve_loop repos fuel conn ≡ some after) × (after.received ≡ [])
serve_loop-ends repos zero conn enough = elim (List-cases conn.received) [
  | inl nothing ↦ (conn, serve_loop-stop repos zero conn nothing, nothing)
  | inr (m, rest, next) ↦ absurd (omega (arith, ap length next))
]
serve_loop-ends repos (suc fuel) conn enough = elim (List-cases conn.received) [
  | inl nothing ↦ (conn, serve_loop-stop repos (suc fuel) conn nothing, nothing)
  | inr (m, rest, next) ↦
      let le = dispatch-Consumes repos m (record conn { received = rest }) in
      let (after, returned, finished) =
        serve_loop-ends repos fuel (dispatch repos m (record conn { received = rest }))
          (omega (arith, ap length next)) in
      (after, serve_loop-next repos fuel conn m rest next ∙ returned, finished)
]

-- `handleConnection` returns in one of two states: it has received all that the client sends, or the
-- method is a token, the client was not admitted, and the refusal is the last message sent.
pub handle_connection-ends :
    (cfg : Config) (repos : List (Option (List (Bytes × Hash)))) (conn : Conn)
    → (after : Conn) × (handle_connection cfg repos conn ≡ some after)
      × ((after.received ≡ [])
          ⊎ ((bytes_equal cfg.auth_method (codes "token") ≡ true)
              × ((authenticate cfg conn).0 ≡ false)
              × (after
                  ≡ send msg_error
                      (encode_error err_auth_failed (codes "authentication failed"))
                      (authenticate cfg conn).1)))
unfolding handle_connection
handle_connection-ends cfg repos conn =
    let answered = (authenticate cfg conn).1 in
    elim (Bool-cases (bytes_equal cfg.auth_method (codes "token"))) [
      | inr free ↦
          let (after, returned, finished) =
            serve_loop-ends repos (length conn.received) conn (omega arith) in
          (after, rw free returned, inl finished)
      | inl by_token ↦ elim (Bool-cases (authenticate cfg conn).0) [
        | inr refused ↦ (_, rw (by_token, refused) refl, inr (by_token, refused, refl))
        | inl admitted ↦
            let (after, returned, finished) =
              serve_loop-ends repos (length answered.received) answered (omega arith) in
            (after, rw (by_token, admitted) returned, inl finished)
      ]
    ]
