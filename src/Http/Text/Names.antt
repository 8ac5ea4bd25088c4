-- ===== src/Http/Text/Names.antt =====
-- The names of the errors of http_parser.h, which `http_errno_name` of http_parser.c returns.
use jia_tuan_server.Common.{
  ℕ, zero, suc, ◌≡◌, refl, sym, ap, ◌∙◌, Option, none, some, List, [], ◌∷◌, if◌then◌else◌, Bytes,
  same_bytes,
}
use jia_tuan_server.Http.Parser.{
  HttpErrno, hpe_ok, hpe_cb_message_begin, hpe_cb_url, hpe_cb_header_field, hpe_cb_header_value,
  hpe_cb_headers_complete, hpe_cb_body, hpe_cb_message_complete, hpe_cb_status, hpe_cb_chunk_header,
  hpe_cb_chunk_complete, hpe_invalid_eof_state, hpe_header_overflow, hpe_closed_connection,
  hpe_invalid_version, hpe_invalid_status, hpe_invalid_method, hpe_invalid_url, hpe_invalid_host,
  hpe_invalid_port, hpe_invalid_path, hpe_invalid_query_string, hpe_invalid_fragment,
  hpe_lf_expected, hpe_invalid_header_token, hpe_invalid_content_length, hpe_invalid_chunk_size,
  hpe_invalid_constant, hpe_invalid_internal_state, hpe_strict, hpe_paused, hpe_unknown,
}
use jia_tuan_server.Http.Text.{Strerror, http_strerror_tab, http_errno_name}

-- The number of the first entry with a name, and the error with a number.
abbrev index_of : Bytes → List Strerror → ℕ
index_of name [] = 0
index_of name (e ∷ es) =
    let rest = index_of name es in if same_bytes e.name name then 0 else suc rest

abbrev nth : ℕ → List HttpErrno → HttpErrno
nth i [] = hpe_unknown
nth zero (e ∷ es) = e
nth (suc i) (e ∷ es) = nth i es

abbrev all_errors : List HttpErrno
all_errors =
    hpe_ok ∷ hpe_cb_message_begin ∷ hpe_cb_url ∷ hpe_cb_header_field ∷ hpe_cb_header_value
    ∷ hpe_cb_headers_complete ∷ hpe_cb_body ∷ hpe_cb_message_complete ∷ hpe_cb_status
    ∷ hpe_cb_chunk_header ∷ hpe_cb_chunk_complete ∷ hpe_invalid_eof_state ∷ hpe_header_overflow
    ∷ hpe_closed_connection ∷ hpe_invalid_version ∷ hpe_invalid_status ∷ hpe_invalid_method
    ∷ hpe_invalid_url ∷ hpe_invalid_host ∷ hpe_invalid_port ∷ hpe_invalid_path
    ∷ hpe_invalid_query_string ∷ hpe_invalid_fragment ∷ hpe_lf_expected ∷ hpe_invalid_header_token
    ∷ hpe_invalid_content_length ∷ hpe_invalid_chunk_size ∷ hpe_invalid_constant
    ∷ hpe_invalid_internal_state ∷ hpe_strict ∷ hpe_paused ∷ hpe_unknown ∷ []

abbrev named : Option Bytes → HttpErrno
unfolding http_strerror_tab
named none = hpe_unknown
named (some name) = nth (index_of name http_strerror_tab) all_errors

named-http_errno_name : (e : HttpErrno) → named (http_errno_name e) ≡ e
unfolding http_errno_name
named-http_errno_name hpe_ok = refl
named-http_errno_name hpe_cb_message_begin = refl
named-http_errno_name hpe_cb_url = refl
named-http_errno_name hpe_cb_header_field = refl
named-http_errno_name hpe_cb_header_value = refl
named-http_errno_name hpe_cb_headers_complete = refl
named-http_errno_name hpe_cb_body = refl
named-http_errno_name hpe_cb_message_complete = refl
named-http_errno_name hpe_cb_status = refl
named-http_errno_name hpe_cb_chunk_header = refl
named-http_errno_name hpe_cb_chunk_complete = refl
named-http_errno_name hpe_invalid_eof_state = refl
named-http_errno_name hpe_header_overflow = refl
named-http_errno_name hpe_closed_connection = refl
named-http_errno_name hpe_invalid_version = refl
named-http_errno_name hpe_invalid_status = refl
named-http_errno_name hpe_invalid_method = refl
named-http_errno_name hpe_invalid_url = refl
named-http_errno_name hpe_invalid_host = refl
named-http_errno_name hpe_invalid_port = refl
named-http_errno_name hpe_invalid_path = refl
named-http_errno_name hpe_invalid_query_string = refl
named-http_errno_name hpe_invalid_fragment = refl
named-http_errno_name hpe_lf_expected = refl
named-http_errno_name hpe_invalid_header_token = refl
named-http_errno_name hpe_invalid_content_length = refl
named-http_errno_name hpe_invalid_chunk_size = refl
named-http_errno_name hpe_invalid_constant = refl
named-http_errno_name hpe_invalid_internal_state = refl
named-http_errno_name hpe_strict = refl
named-http_errno_name hpe_paused = refl
named-http_errno_name hpe_unknown = refl

-- Two errors whose names are the same are the same error.
pub http_errno_name-injective : (e e' : HttpErrno) → http_errno_name e ≡ http_errno_name e' → e ≡ e'
http_errno_name-injective e e' same =
    sym (named-http_errno_name e) ∙ ap named same ∙ named-http_errno_name e'
