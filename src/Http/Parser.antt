-- ===== src/Http/Parser.antt =====
-- `struct http_parser` of http_parser.h, and the functions of http_parser.c that set it up, pause it
-- and look at it between two messages.
use jia_tuan_server.Common.{
  ℕ, ◌/◌, ◌-◌, ◌^◌, Bool, true, false, ◌&&◌, ◌||◌, not, Option, none, some, ◌==◌, ltb,
  if◌then◌else◌,
}
use jia_tuan_server.Http.State.{State, start_req, start_res, start_req_or_res, message_done}

-- `enum http_errno`.
pub data HttpErrno : Type 0 where
  hpe_ok : HttpErrno
  hpe_cb_message_begin : HttpErrno
  hpe_cb_url : HttpErrno
  hpe_cb_header_field : HttpErrno
  hpe_cb_header_value : HttpErrno
  hpe_cb_headers_complete : HttpErrno
  hpe_cb_body : HttpErrno
  hpe_cb_message_complete : HttpErrno
  hpe_cb_status : HttpErrno
  hpe_cb_chunk_header : HttpErrno
  hpe_cb_chunk_complete : HttpErrno
  hpe_invalid_eof_state : HttpErrno
  hpe_header_overflow : HttpErrno
  hpe_closed_connection : HttpErrno
  hpe_invalid_version : HttpErrno
  hpe_invalid_status : HttpErrno
  hpe_invalid_method : HttpErrno
  hpe_invalid_url : HttpErrno
  hpe_invalid_host : HttpErrno
  hpe_invalid_port : HttpErrno
  hpe_invalid_path : HttpErrno
  hpe_invalid_query_string : HttpErrno
  hpe_invalid_fragment : HttpErrno
  hpe_lf_expected : HttpErrno
  hpe_invalid_header_token : HttpErrno
  hpe_invalid_content_length : HttpErrno
  hpe_invalid_chunk_size : HttpErrno
  hpe_invalid_constant : HttpErrno
  hpe_invalid_internal_state : HttpErrno
  hpe_strict : HttpErrno
  hpe_paused : HttpErrno
  hpe_unknown : HttpErrno

-- `enum header_states`.
pub data HeaderState : Type 0 where
  h_general : HeaderState
  h_c : HeaderState
  h_co : HeaderState
  h_con : HeaderState
  h_matching_connection : HeaderState
  h_matching_proxy_connection : HeaderState
  h_matching_content_length : HeaderState
  h_matching_transfer_encoding : HeaderState
  h_matching_upgrade : HeaderState
  h_connection : HeaderState
  h_content_length : HeaderState
  h_transfer_encoding : HeaderState
  h_upgrade : HeaderState
  h_matching_transfer_encoding_chunked : HeaderState
  h_matching_connection_token_start : HeaderState
  h_matching_connection_keep_alive : HeaderState
  h_matching_connection_close : HeaderState
  h_matching_connection_upgrade : HeaderState
  h_matching_connection_token : HeaderState
  h_transfer_encoding_chunked : HeaderState
  h_connection_keep_alive : HeaderState
  h_connection_close : HeaderState
  h_connection_upgrade : HeaderState

-- `enum http_parser_type`.
pub data ParserType : Type 0 where
  http_request : ParserType
  http_response : ParserType
  http_both : ParserType

-- The bits of `enum flags`.
pub record Flags : Type 0 where
  pub chunked : Bool
  pub connection_keep_alive : Bool
  pub connection_close : Bool
  pub connection_upgrade : Bool
  pub trailing : Bool
  pub upgrade : Bool
  pub skipbody : Bool

pub record HttpParser : Type 0 where
  pub kind : ParserType  -- `type`
  pub flags : Flags
  pub state : State
  pub header_state : HeaderState
  pub index : ℕ
  pub nread : ℕ
  pub content_length : ℕ
  pub http_major : ℕ
  pub http_minor : ℕ
  pub status_code : ℕ
  pub method : ℕ
  pub http_errno : HttpErrno
  pub upgrade : Bool
  pub user_data : ℕ  -- `data`

abbrev pub no_flags : Flags
no_flags = record {
  chunked = false;
  connection_keep_alive = false;
  connection_close = false;
  connection_upgrade = false;
  trailing = false;
  upgrade = false;
  skipbody = false;
}

abbrev pub start_of : ParserType → State
start_of http_request = start_req
start_of http_response = start_res
start_of http_both = start_req_or_res

unfoldable pub http_parser_init : HttpParser → ParserType → HttpParser
http_parser_init p t = record {
  kind = t;
  flags = no_flags;
  state = start_of t;
  header_state = h_general;
  index = 0;
  nread = 0;
  content_length = 0;
  http_major = 0;
  http_minor = 0;
  status_code = 0;
  method = 0;
  http_errno = hpe_ok;
  upgrade = false;
  user_data = p.user_data;
}

-- OK or PAUSED.
abbrev pub is_pausable : HttpErrno → Bool
is_pausable hpe_ok = true
is_pausable hpe_paused = true
is_pausable _ = false

-- `none` is the failed assertion.
unfoldable pub http_parser_pause : HttpParser → Bool → Option HttpParser
http_parser_pause p paused =
    if is_pausable p.http_errno
    then some (record p { http_errno = if paused then hpe_paused else hpe_ok })
    else none

unfoldable pub http_body_is_final : HttpParser → Bool
http_body_is_final p = elim p.state [ message_done ↦ true | _ ↦ false ]

-- ULLONG_MAX, the content length of a message that states none.
abbrev pub ullong_max : ℕ
ullong_max = 2 ^ 64 - 1

abbrev pub is_request : ParserType → Bool
is_request http_request = true
is_request _ = false

unfoldable pub http_message_needs_eof : HttpParser → Bool
http_message_needs_eof p =
    if is_request p.kind
    then false
    else if p.status_code / 100 == 1
        || p.status_code == 204
        || p.status_code == 304
        || p.flags.skipbody
    then false
    else if p.flags.chunked || not (p.content_length == ullong_max)
    then false
    else true

unfoldable pub http_should_keep_alive : HttpParser → Bool
unfolding http_message_needs_eof
http_should_keep_alive p =
    if ltb 0 p.http_major && ltb 0 p.http_minor
    then (if p.flags.connection_close then false else not (http_message_needs_eof p))
    else if not p.flags.connection_keep_alive
    then false
    else not (http_message_needs_eof p)
