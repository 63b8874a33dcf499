-- ===== src/Protocol/Wire.antt =====
-- internal/protocol/wire.go: message types and error codes.
use Prim.Native.String.{String}
use minus_sync.Prelude.{ℕ, ◌==◌, if◌then◌else◌, Bytes, codes}

abbrev pub handshake_magic : Bytes
handshake_magic = codes "MSYN"

abbrev pub version_major : ℕ
version_major = 1

abbrev pub version_minor : ℕ
version_minor = 0

abbrev pub msg_list_refs : ℕ
msg_list_refs = 0x0001

abbrev pub msg_ref_line : ℕ
msg_ref_line = 0x0002

abbrev pub msg_fetch_request : ℕ
msg_fetch_request = 0x0003

abbrev pub msg_wanted : ℕ
msg_wanted = 0x0004

abbrev pub msg_have : ℕ
msg_have = 0x0005

abbrev pub msg_fetch_done : ℕ
msg_fetch_done = 0x0006

abbrev pub msg_pack_header : ℕ
msg_pack_header = 0x0007

abbrev pub msg_pack_object : ℕ
msg_pack_object = 0x0008

abbrev pub msg_push_request : ℕ
msg_push_request = 0x0009

abbrev pub msg_update_ref : ℕ
msg_update_ref = 0x000a

abbrev pub msg_want_pack : ℕ
msg_want_pack = 0x000b

abbrev pub msg_ok : ℕ
msg_ok = 0x000c

abbrev pub msg_error : ℕ
msg_error = 0x000d

abbrev pub msg_auth_request : ℕ
msg_auth_request = 0x000e

abbrev pub msg_auth_response : ℕ
msg_auth_response = 0x000f

abbrev pub msg_chunk_query : ℕ
msg_chunk_query = 0x0010

abbrev pub msg_chunk_haves : ℕ
msg_chunk_haves = 0x0011

abbrev pub msg_search_req : ℕ
msg_search_req = 0x0020

abbrev pub msg_search_result : ℕ
msg_search_result = 0x0021

abbrev pub msg_stream_end : ℕ
msg_stream_end = 0xffff

abbrev pub err_auth_failed : ℕ
err_auth_failed = 0x0003

abbrev pub err_bad_request : ℕ
err_bad_request = 0x0008

unfoldable pub error_code_name : ℕ → String
error_code_name code =
    if code == 0x0001
    then "repo not found"
    else if code == 0x0002
    then "auth required"
    else if code == err_auth_failed
    then "auth failed"
    else if code == 0x0004
    then "ref not found"
    else if code == 0x0005
    then "non-fast-forward"
    else if code == 0x0006
    then "object missing"
    else if code == 0x0007
    then "internal error"
    else if code == err_bad_request
    then "bad request"
    else if code == 0x0009
    then "permission denied"
    else "unknown error"

-- The later cases of the switch.
unfoldable pub message_name_rest : ℕ → String
message_name_rest msg_type =
    if msg_type == msg_want_pack
    then "WANT_PACK"
    else if msg_type == msg_ok
    then "OK"
    else if msg_type == msg_error
    then "ERROR"
    else if msg_type == msg_auth_request
    then "AUTH_REQUEST"
    else if msg_type == msg_auth_response
    then "AUTH_RESPONSE"
    else if msg_type == msg_chunk_query
    then "CHUNK_QUERY"
    else if msg_type == msg_chunk_haves
    then "CHUNK_HAVES"
    else if msg_type == msg_search_req
    then "SEARCH_REQ"
    else if msg_type == msg_search_result
    then "SEARCH_RESULT"
    else if msg_type == msg_stream_end
    then "STREAM_END"
    else "UNKNOWN"

unfoldable pub message_name : ℕ → String
unfolding message_name_rest
message_name msg_type =
    if msg_type == msg_list_refs
    then "LIST_REFS"
    else if msg_type == msg_ref_line
    then "REF_LINE"
    else if msg_type == msg_fetch_request
    then "FETCH_REQUEST"
    else if msg_type == msg_wanted
    then "WANTED"
    else if msg_type == msg_have
    then "HAVE"
    else if msg_type == msg_fetch_done
    then "FETCH_DONE"
    else if msg_type == msg_pack_header
    then "PACK_HEADER"
    else if msg_type == msg_pack_object
    then "PACK_OBJECT"
    else if msg_type == msg_push_request
    then "PUSH_REQUEST"
    else if msg_type == msg_update_ref
    then "UPDATE_REF"
    else message_name_rest msg_type
