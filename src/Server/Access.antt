-- ===== src/Server/Access.antt =====
-- Without a token of the configuration nothing is served.
use minus_sync.Prelude.{
  ℕ, Bool, true, ◌&&◌, Option, some, List, [], ◌∷◌, ◌++◌, append_assoc, Bytes, codes, bytes_equal,
  bytes_equal_iff, split_at_byte, ◌==◌, ==_iff, ok, Bool-cases, Option-cases, Result-cases,
  none-ne-some, some_pair, inl, inr, ◌⊎◌, ◌≡◌, refl, sym, ap, ◌∙◌, arith,
}
use mathlib.Core.Bool.{true≢false, false≢true}
use minus_sync.Hash.{Hash}
use minus_sync.Protocol.Wire.{msg_error, msg_auth_request, msg_auth_response, err_auth_failed}
use minus_sync.Protocol.Payloads.{encode_error, encode_auth_request, decode_auth_response}
use minus_sync.Server.{
  Message, Conn, Token, Config, send, has_token, check_credentials, check_response, first_answer,
  authenticate, handle_connection,
}

some_injective {ℓ} : {A : Type ℓ} {a b : A} → ◌≡◌ {A = Option A} (some a) (some b) → a ≡ b
some_injective e = cc

and_true : {a b : Bool} → (a && b) ≡ true → (a ≡ true) × (b ≡ true)
and_true e = ground arith

-- A pair of a user and a token stands in the configuration.
pub data Listed (user token : Bytes) : List Token → Type 0 where
  here :
      {t : Token} {tokens : List Token}
      → t.user ≡ user
      → t.token ≡ token
      → Listed user token (t ∷ tokens)
  there :
      {t : Token} {tokens : List Token} → Listed user token tokens → Listed user token (t ∷ tokens)

-- The first message answers the request for authentication with such a pair.
abbrev pub Credentials : Config → List Message → Type 0
Credentials cfg received =
    (m : Message) × (rest : List Message) × (user : Bytes) × (token : Bytes) × (received ≡ m ∷ rest)
    × (m.msg_type ≡ msg_auth_response)
    × (decode_auth_response m.payload ≡ ok (codes "token", user ++ 58 ∷ token))
    × Listed user token cfg.tokens

Listed-has_token :
    (tokens : List Token) (user token : Bytes)
    → has_token tokens user token ≡ true
    → Listed user token tokens
unfolding has_token
Listed-has_token [] user token h = absurd (true≢false (sym h))
Listed-has_token (t ∷ tokens) user token h =
    elim (Bool-cases (bytes_equal t.user user && bytes_equal t.token token)) [
      | inl both ↦
          let (u, k) = and_true both in
          here ((bytes_equal_iff t.user user).0 u) ((bytes_equal_iff t.token token).0 k)
      | inr other ↦ there (Listed-has_token tokens user token (rw other at h))
    ]

split_at_byte-whole :
    (c : ℕ) (xs : Bytes) {before after : Bytes}
    → split_at_byte c xs ≡ some (before, after)
    → xs ≡ before ++ c ∷ after
unfolding split_at_byte
split_at_byte-whole c [] e = absurd (none-ne-some e)
split_at_byte-whole c (x ∷ xs) {before} {after} e = elim (Bool-cases (x == c)) [
  | inl at ↦
      let (b, a) = some_pair (rw at at e) in rw (← b, ← a) (ap (λ y. y ∷ xs) ((==_iff x c).0 at))
  | inr further ↦ elim (Option-cases (split_at_byte c xs)) [
    | inl lacking ↦ absurd (none-ne-some (rw (further, lacking) at e))
    | inr ((front, back), found) ↦
        let (b, a) = some_pair (rw (further, found) at e) in
        rw (← b, ← a) (ap (λ ys. x ∷ ys) (split_at_byte-whole c xs found))
  ]
]

-- What a response that is accepted says.
check_response-Credentials :
    (cfg : Config) (m : Message) (rest : List Message)
    → check_response cfg m ≡ true
    → Credentials cfg (m ∷ rest)
unfolding check_response check_credentials
check_response-Credentials cfg m rest h = elim (Bool-cases (m.msg_type == msg_auth_response)) [
  | inr other ↦ absurd (false≢true (rw other at h))
  | inl response ↦ elim (Result-cases (decode_auth_response m.payload)) [
    | inr (inl (why, failed)) ↦ absurd (false≢true (rw (response, failed) at h))
    | inr (inr fault) ↦ absurd (false≢true (rw (response, fault) at h))
    | inl ((method, data_bytes), decoded) ↦ elim (Bool-cases (bytes_equal method (codes "token"))) [
      | inr unknown ↦ absurd (false≢true (rw (response, decoded, unknown) at h))
      | inl known ↦ elim (Option-cases (split_at_byte 58 data_bytes)) [
        | inl lacking ↦ absurd (false≢true (rw (response, decoded, known, lacking) at h))
        | inr ((user, token), found) ↦ (
          m,
          rest,
          user,
          token,
          refl,
          (==_iff m.msg_type msg_auth_response).0 response,
          decoded
              ∙ (ap (λ x. ok (x, data_bytes)) ((bytes_equal_iff method (codes "token")).0 known)
                  ∙ ap (λ x. ok (codes "token", x)) (split_at_byte-whole 58 data_bytes found)),
          Listed-has_token cfg.tokens user token (rw (response, decoded, known, found) at h),
        )
      ]
    ]
  ]
]

first_answer-Credentials :
    (cfg : Config) (received : List Message) (asked : Conn)
    → (first_answer cfg received asked).0 ≡ true
    → Credentials cfg received
first_answer-Credentials cfg [] asked h = absurd (false≢true h)
first_answer-Credentials cfg (m ∷ rest) asked h = check_response-Credentials cfg m rest h

first_answer-sent :
    (cfg : Config) (received : List Message) (asked : Conn)
    → (first_answer cfg received asked).1.sent ≡ asked.sent
first_answer-sent cfg [] asked = refl
first_answer-sent cfg (m ∷ rest) asked = refl

-- The two messages of a refusal.
abbrev pub request : Message
request = record { msg_type = msg_auth_request; payload = encode_auth_request (codes "token" ∷ []) }

abbrev pub refusal : Message
refusal = record {
  msg_type = msg_error;
  payload = encode_error err_auth_failed (codes "authentication failed");
}

-- What `authenticate` does with the first message, or without one.
authenticate-Credentials :
    (cfg : Config) (conn : Conn) → (authenticate cfg conn).0 ≡ true → Credentials cfg conn.received
unfolding authenticate
authenticate-Credentials cfg conn h = first_answer-Credentials cfg conn.received _ h

authenticate-sent :
    (cfg : Config) (conn : Conn) → (authenticate cfg conn).1.sent ≡ conn.sent ++ request ∷ []
unfolding authenticate send
authenticate-sent cfg conn = first_answer-sent cfg conn.received _

-- Where the configuration asks for tokens, a client that does not answer the request for
-- authentication with a user and a token of the configuration gets an error and nothing else.
pub handle_connection-Credentials :
    (cfg : Config) (repos : List (Option (List (Bytes × Hash)))) (conn after : Conn)
    → cfg.auth_method ≡ codes "token"
    → handle_connection cfg repos conn ≡ some after
    → Credentials cfg conn.received ⊎ (after.sent ≡ conn.sent ++ request ∷ refusal ∷ [])
unfolding handle_connection send
handle_connection-Credentials cfg repos conn after method returned =
    elim (Bool-cases (authenticate cfg conn).0) [
      | inl admitted ↦ inl (authenticate-Credentials cfg conn admitted)
      | inr refused ↦
          let by_token = (bytes_equal_iff cfg.auth_method (codes "token")).1 method in
          inr (
            ap (λ c. c.sent) (sym (some_injective (rw (by_token, refused) at returned)))
            ∙ (ap (λ sent. sent ++ refusal ∷ []) (authenticate-sent cfg conn)
                ∙ append_assoc conn.sent (request ∷ []) (refusal ∷ [])))
    ]
