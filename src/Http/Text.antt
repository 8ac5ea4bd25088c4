-- ===== src/Http/Text.antt =====
-- The texts of http_parser.c: the table `http_strerror_tab`, the functions that read it,
-- `http_method_str` and `http_parser_version`.
pub mod Names
use jia_tuan_server.Common.{
  ℕ, zero, suc, ◌+◌, ◌*◌, ◌≤◌, ◌<◌, ◌≡◌, refl, sym, ap, subst, ◌∙◌, Bool, true, false, ◌&&◌, Option,
  none, some, some_injective, none-ne-some, List, [], ◌∷◌, ◌++◌, ◌==◌, if◌then◌else◌, ltb, arith,
  Bytes, codes, length, Bool-cases, inl, inr,
}
use jia_tuan_server.Http.Parser.{
  HttpErrno, hpe_ok, hpe_cb_message_begin, hpe_cb_url, hpe_cb_header_field, hpe_cb_header_value,
  hpe_cb_headers_complete, hpe_cb_body, hpe_cb_message_complete, hpe_cb_status, hpe_cb_chunk_header,
  hpe_cb_chunk_complete, hpe_invalid_eof_state, hpe_header_overflow, hpe_closed_connection,
  hpe_invalid_version, hpe_invalid_status, hpe_invalid_method, hpe_invalid_url, hpe_invalid_host,
  hpe_invalid_port, hpe_invalid_path, hpe_invalid_query_string, hpe_invalid_fragment,
  hpe_lf_expected, hpe_invalid_header_token, hpe_invalid_content_length, hpe_invalid_chunk_size,
  hpe_invalid_constant, hpe_invalid_internal_state, hpe_strict, hpe_paused, hpe_unknown,
}
use jia_tuan_server.Http.Method.{method_strings, string_at}
use jia_tuan_server.Http.Execute.Macros.{Settings}

-- The number of an `enum http_errno`.
abbrev pub errno_code : HttpErrno → ℕ
errno_code hpe_ok = 0
errno_code hpe_cb_message_begin = 1
errno_code hpe_cb_url = 2
errno_code hpe_cb_header_field = 3
errno_code hpe_cb_header_value = 4
errno_code hpe_cb_headers_complete = 5
errno_code hpe_cb_body = 6
errno_code hpe_cb_message_complete = 7
errno_code hpe_cb_status = 8
errno_code hpe_cb_chunk_header = 9
errno_code hpe_cb_chunk_complete = 10
errno_code hpe_invalid_eof_state = 11
errno_code hpe_header_overflow = 12
errno_code hpe_closed_connection = 13
errno_code hpe_invalid_version = 14
errno_code hpe_invalid_status = 15
errno_code hpe_invalid_method = 16
errno_code hpe_invalid_url = 17
errno_code hpe_invalid_host = 18
errno_code hpe_invalid_port = 19
errno_code hpe_invalid_path = 20
errno_code hpe_invalid_query_string = 21
errno_code hpe_invalid_fragment = 22
errno_code hpe_lf_expected = 23
errno_code hpe_invalid_header_token = 24
errno_code hpe_invalid_content_length = 25
errno_code hpe_invalid_chunk_size = 26
errno_code hpe_invalid_constant = 27
errno_code hpe_invalid_internal_state = 28
errno_code hpe_strict = 29
errno_code hpe_paused = 30
errno_code hpe_unknown = 31

-- An entry of `http_strerror_tab`.
pub record Strerror : Type 0 where
  pub name : Bytes
  pub description : Bytes

-- HTTP_STRERROR_GEN
abbrev pub strerror_gen : (name description : Bytes) → Strerror
strerror_gen name description = record { name = codes "HPE_" ++ name; description = description }

unfoldable pub http_strerror_tab : List Strerror
http_strerror_tab =
    strerror_gen (codes "OK") (codes "success")
    ∷ strerror_gen (codes "CB_message_begin") (codes "the on_message_begin callback failed")
    ∷ strerror_gen (codes "CB_url") (codes "the on_url callback failed")
    ∷ strerror_gen (codes "CB_header_field") (codes "the on_header_field callback failed")
    ∷ strerror_gen (codes "CB_header_value") (codes "the on_header_value callback failed")
    ∷ strerror_gen (codes "CB_headers_complete") (codes "the on_headers_complete callback failed")
    ∷ strerror_gen (codes "CB_body") (codes "the on_body callback failed")
    ∷ strerror_gen (codes "CB_message_complete") (codes "the on_message_complete callback failed")
    ∷ strerror_gen (codes "CB_status") (codes "the on_status callback failed")
    ∷ strerror_gen (codes "CB_chunk_header") (codes "the on_chunk_header callback failed")
    ∷ strerror_gen (codes "CB_chunk_complete") (codes "the on_chunk_complete callback failed")
    ∷ strerror_gen (codes "INVALID_EOF_STATE") (codes "stream ended at an unexpected time")
    ∷ strerror_gen (codes "HEADER_OVERFLOW") (codes "too many header bytes seen; overflow detected")
    ∷ strerror_gen (codes "CLOSED_CONNECTION")
        (codes "data received after completed connection: close message")
    ∷ strerror_gen (codes "INVALID_VERSION") (codes "invalid HTTP version")
    ∷ strerror_gen (codes "INVALID_STATUS") (codes "invalid HTTP status code")
    ∷ strerror_gen (codes "INVALID_METHOD") (codes "invalid HTTP method")
    ∷ strerror_gen (codes "INVALID_URL") (codes "invalid URL")
    ∷ strerror_gen (codes "INVALID_HOST") (codes "invalid host")
    ∷ strerror_gen (codes "INVALID_PORT") (codes "invalid port")
    ∷ strerror_gen (codes "INVALID_PATH") (codes "invalid path")
    ∷ strerror_gen (codes "INVALID_QUERY_STRING") (codes "invalid query string")
    ∷ strerror_gen (codes "INVALID_FRAGMENT") (codes "invalid fragment")
    ∷ strerror_gen (codes "LF_EXPECTED") (codes "LF character expected")
    ∷ strerror_gen (codes "INVALID_HEADER_TOKEN") (codes "invalid character in header")
    ∷ strerror_gen (codes "INVALID_CONTENT_LENGTH")
        (codes "invalid character in content-length header")
    ∷ strerror_gen (codes "INVALID_CHUNK_SIZE") (codes "invalid character in chunk size header")
    ∷ strerror_gen (codes "INVALID_CONSTANT") (codes "invalid constant string")
    ∷ strerror_gen (codes "INVALID_INTERNAL_STATE") (codes "encountered unexpected internal state")
    ∷ strerror_gen (codes "STRICT") (codes "strict mode assertion failed")
    ∷ strerror_gen (codes "PAUSED") (codes "parser is paused")
    ∷ strerror_gen (codes "UNKNOWN") (codes "an unknown error occurred")
    ∷ []

abbrev pub entry_at : List Strerror → ℕ → Option Strerror
entry_at [] i = none
entry_at (e ∷ es) zero = some e
entry_at (e ∷ es) (suc i) = entry_at es i

-- `none` is the failed assertion.
unfoldable pub http_errno_name : HttpErrno → Option Bytes
unfolding http_strerror_tab
http_errno_name err = elim (entry_at http_strerror_tab (errno_code err)) [
  | none ↦ none
  | some e ↦ some e.name
]

unfoldable pub http_errno_description : HttpErrno → Option Bytes
unfolding http_strerror_tab
http_errno_description err = elim (entry_at http_strerror_tab (errno_code err)) [
  | none ↦ none
  | some e ↦ some e.description
]

-- ELEM_AT of `method_strings`, for any number that is given as an `enum http_method`.
unfoldable pub http_method_str : ℕ → Bytes
unfolding method_strings
http_method_str m =
    if ltb m (length method_strings) then string_at method_strings m else codes "<unknown>"

-- HTTP_PARSER_VERSION_MAJOR, HTTP_PARSER_VERSION_MINOR and HTTP_PARSER_VERSION_PATCH; the parts of
-- the version number share no bits.
abbrev pub version_major : ℕ
version_major = 2

abbrev pub version_minor : ℕ
version_minor = 5

abbrev pub version_patch : ℕ
version_patch = 0

unfoldable pub http_parser_version : ℕ
http_parser_version = version_major * 0x10000 + version_minor * 0x00100 + version_patch * 0x00001

-- All callbacks are NULL.
unfoldable pub http_parser_settings_init : (User : Type 0) → Settings
http_parser_settings_init User = record { User = User; on_notify = λ f. none; on_data = λ f. none }
