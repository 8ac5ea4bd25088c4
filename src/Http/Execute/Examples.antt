-- ===== src/Http/Execute/Examples.antt =====
-- Runs of `http_parser_execute` of http_parser.c on concrete texts.
use jia_tuan_server.Common.{
  ℕ, ◌≤◌, ◌<◌, ◌≡◌, ◌≢◌, ◌⊎◌, ◌↔◌, arith, subst, some_injective, refl, true, false, Option, none,
  some, List, [], ◌∷◌, ◌++◌, Bytes, codes, ℤ, pos,
}
use jia_tuan_server.Http.State.{dead}
use jia_tuan_server.Http.Parser.{
  HttpParser, http_request, http_response, no_flags, h_general, hpe_ok, http_parser_init,
}
use jia_tuan_server.Http.Execute.Macros.{Notify, DataField, Settings}
use jia_tuan_server.Http.Execute.{Executed, returned, http_parser_execute}
use jia_tuan_server.Http.Chars.{
  is_alpha, is_num, is_alphanum, is_hex, is_mark, is_userinfo_char, is_host_char, is_url_char,
}
use jia_tuan_server.Http.Tokens.{tokens, token, unhex_entries, unhex}
use jia_tuan_server.Http.Method.{
  method_strings, method_string, first_method, other_method, method_char,
}
use jia_tuan_server.Http.Parser.{http_message_needs_eof, http_should_keep_alive}
use jia_tuan_server.Http.Url.Char.{server_char, url_state, parse_url_char}
use jia_tuan_server.Http.Execute.Macros.{count_header_size, new_message, notify, data_call}
use jia_tuan_server.Http.Execute.Start.{
  at_dead, at_res_or_resp_h, at_req_method, at_start_req_or_res, at_start_res, at_start_req,
}
use jia_tuan_server.Http.Execute.Version.{
  at_letter, at_res_first_http_major, at_req_first_http_major, at_http_major, at_first_http_minor,
  minor_digit, at_res_http_minor, at_req_http_minor, at_req_http_start, at_req_line_almost_done,
}
use jia_tuan_server.Http.Execute.Line.{
  at_res_first_status_code, at_res_status_code, at_res_status_start, url_char,
  at_req_spaces_before_url, at_req_schema, at_res_status, at_req_url,
}
use jia_tuan_server.Http.Execute.Field.{
  match_char, first_header_state, name_char, name_loop, at_header_field_start, at_header_field,
}
use jia_tuan_server.Http.Execute.Value.{
  first_element, begin_value, at_header_value_start, at_header_value_discard_ws, at_header_value,
}
use jia_tuan_server.Http.Execute.Value.Scan.{
  flag_of, length_char, element_start, element_end, value_char, line_end, line_skip, value_loop,
}
use jia_tuan_server.Http.Execute.Headers.{
  framing, at_header_almost_done, at_header_value_lws, at_header_value_discard_lws,
  at_headers_almost_done, at_headers_done,
}
use jia_tuan_server.Http.Execute.Body.{
  at_body_identity_eof, at_chunk_size_start, at_chunk_size, at_chunk_parameters, at_chunk_data,
  at_body_identity, at_message_done, at_chunk_size_almost_done, at_chunk_data_almost_done,
  at_chunk_data_done,
}
use jia_tuan_server.Http.Execute.{
  dispatch, reexecute, turn, left_calls, finish, main_loop, execute_eof,
}
use jia_tuan_server.Http.Parser.{hpe_invalid_method, h_content_length}
use jia_tuan_server.Http.Execute.Macros.{
  is_ok, message_begin, headers_complete, message_complete, chunk_header, chunk_complete, url,
  header_field, header_value, body,
}
use jia_tuan_server.Http.Execute.{endless}
use jia_tuan_server.Http.Execute.Bounds.{parsed, http_parser_execute-le}
use jia_tuan_server.Http.Execute.Sound.{Steady}
use jia_tuan_server.Http.Execute.Field
use jia_tuan_server.Http.Execute.Field.{
  name_connection, name_proxy_connection, name_content_length, name_transfer_encoding, name_upgrade,
}
use jia_tuan_server.Http.Execute.Field.Names.{lower_case, header_name_iff}
use jia_tuan_server.Http.Parser.{HeaderState, h_transfer_encoding, h_upgrade, h_connection}
use jia_tuan_server.Http.Execute.Assertions.Safe.{IsPassive}
use jia_tuan_server.Http.Execute.Reach.{
  Reachable, started, executed, IsValid, reachable-IsValid, no_assertion_fails,
}
use jia_tuan_server.Http.Parser.{http_parser_pause}
use jia_tuan_server.Http.Execute.Pause.{pause_holds}
use jia_tuan_server.Http.Execute.Progress.{early_return_reason, http_parser_execute_ends}
use jia_tuan_server.Http.Execute.Value.Scan.{at_cr, at_bad_length}
use jia_tuan_server.Http.Execute.Value.Length.{decimal, max_length, content_length_exact}

-- A callback that is made.
pub data Call : Type 0 where
  notified : Notify → Call
  given : DataField → Bytes → Call

-- Callbacks that write down what they are given.
abbrev pub logging : Settings
logging = record {
  User = List Call;
  on_notify = λ f. some (λ r u. (pos 0, r, u ++ notified f ∷ []));
  on_data = λ f. some (λ text r u. (pos 0, r, u ++ given f text ∷ []));
}

abbrev raw : HttpParser
raw = record {
  kind = http_request;
  flags = no_flags;
  state = dead;
  header_state = h_general;
  index = 0;
  nread = 0;
  content_length = 0;
  http_major = 0;
  http_minor = 0;
  status_code = 0;
  method = 0;
  http_errno = hpe_ok;
  upgrade = false;
  user_data = 0;
}

abbrev pub calls : {User : Type 0} → Executed User → Option (ℕ × User)
calls (returned n r u) = some (n, u)
calls _ = none

abbrev pub request : HttpParser
request = http_parser_init raw http_request

abbrev parser_of : {User : Type 0} → Executed User → HttpParser → HttpParser
parser_of (returned n r u) other = r
parser_of _ other = other

abbrev user_of : Executed (List Call) → List Call
user_of (returned n r u) = u
user_of _ = []

-- A second call behind a first one.
abbrev more : Executed (List Call) → Bytes → Executed (List Call)
more (returned n r u) buf = http_parser_execute logging r u buf
more x buf = x

logging-Steady : Steady logging
logging-Steady = (
  λ f call e r u.
      subst
        (λ (c : HttpParser → List Call → ℤ × HttpParser × List Call).
          ((c r u).1.state ≡ r.state) × ((c r u).1.upgrade ≡ r.upgrade))
        (some_injective e) (refl, refl),
  λ f call e text r u.
      subst
        (λ (c : Bytes → HttpParser → List Call → ℤ × HttpParser × List Call).
          ((c text r u).1.state ≡ r.state) × ((c text r u).1.upgrade ≡ r.upgrade))
        (some_injective e) (refl, refl),
)

-- A body with a length, two calls, a body in chunks, the callback message_begin for each line end
-- before a response, and a blank that is left out inside a length.
runs :
    (calls (
        http_parser_execute logging request []
          (codes "PUT /a HTTP/1.1\r\nContent-Length: 3\r\n\r\nabc"))
      ≡ some (
        41,
        notified message_begin
            ∷ given url (codes "/a")
            ∷ given header_field (codes "Content-Length")
            ∷ given header_value (codes "3")
            ∷ notified headers_complete
            ∷ given body (codes "abc")
            ∷ notified message_complete
            ∷ [],
      ))
    × (calls (
          more
            (http_parser_execute logging request [] (codes "GET /a HTTP/1.1\nConn"))
            (codes "ection: close\n\n"))
        ≡ some (
          15,
          notified message_begin
              ∷ given url (codes "/a")
              ∷ given header_field (codes "Conn")
              ∷ given header_field (codes "ection")
              ∷ given header_value (codes "close")
              ∷ notified headers_complete
              ∷ notified message_complete
              ∷ [],
        ))
    × (calls (
          http_parser_execute logging request []
            (codes "POST / HTTP/1.1\r\nTransfer-Encoding: chunked\r\n\r\n3\r\nabc\r\n0\r\n\r\n"))
        ≡ some (
          60,
          notified message_begin
              ∷ given url (codes "/")
              ∷ given header_field (codes "Transfer-Encoding")
              ∷ given header_value (codes "chunked")
              ∷ notified headers_complete
              ∷ notified chunk_header
              ∷ given body (codes "abc")
              ∷ notified chunk_complete
              ∷ notified chunk_header
              ∷ notified chunk_complete
              ∷ notified message_complete
              ∷ [],
        ))
    × (calls (http_parser_execute logging (http_parser_init raw http_response) [] (codes "\r\nH"))
        ≡ some (3, notified message_begin ∷ notified message_begin ∷ notified message_begin ∷ []))
    × ((parser_of
          (http_parser_execute logging request []
            (codes "PUT /a HTTP/1.1\r\nContent-Length: 1 2\r\n\r\n"))
          raw).content_length
        ≡ 12)
unfolding is_alpha is_num is_alphanum is_hex is_mark is_userinfo_char is_host_char is_url_char
    tokens token unhex_entries unhex method_strings method_string first_method other_method
    method_char http_parser_init http_message_needs_eof http_should_keep_alive server_char url_state
    parse_url_char count_header_size new_message notify data_call at_dead at_res_or_resp_h
    at_req_method at_start_req_or_res at_start_res at_start_req at_letter at_res_first_http_major
    at_req_first_http_major at_http_major at_first_http_minor minor_digit at_res_http_minor
    at_req_http_minor at_req_http_start at_req_line_almost_done at_res_first_status_code
    at_res_status_code at_res_status_start url_char at_req_spaces_before_url at_req_schema
    at_res_status at_req_url match_char first_header_state name_char name_loop at_header_field_start
    at_header_field flag_of length_char element_start element_end value_char line_end line_skip
    value_loop first_element begin_value at_header_value_start at_header_value_discard_ws
    at_header_value framing at_header_almost_done at_header_value_lws at_header_value_discard_lws
    at_headers_almost_done at_headers_done at_body_identity_eof at_chunk_size_start at_chunk_size
    at_chunk_parameters at_chunk_data at_body_identity at_message_done at_chunk_size_almost_done
    at_chunk_data_almost_done at_chunk_data_done dispatch reexecute turn left_calls finish main_loop
    execute_eof http_parser_execute
runs = (refl, refl, refl, refl, refl)

http_parser_execute-le_example :
    parsed (http_parser_execute logging request [] (codes "GET /a HTTP/1.1\n\n")) ≤ 17
http_parser_execute-le_example =
    http_parser_execute-le logging request [] b'G' (codes "ET /a HTTP/1.1\n\n")

-- A request with no method.
abbrev unknown_method : Executed (List Call)
unknown_method = http_parser_execute logging request [] (codes "ab")

early_return_reason_example :
    (parsed unknown_method ≡ 2) ⊎ (is_ok hpe_invalid_method ≡ false) ⊎ (false ≡ true)
unfolding is_alpha is_num is_alphanum is_hex is_mark is_userinfo_char is_host_char is_url_char
    tokens token unhex_entries unhex method_strings method_string first_method other_method
    method_char http_parser_init http_message_needs_eof http_should_keep_alive server_char url_state
    parse_url_char count_header_size new_message notify data_call at_dead at_res_or_resp_h
    at_req_method at_start_req_or_res at_start_res at_start_req at_letter at_res_first_http_major
    at_req_first_http_major at_http_major at_first_http_minor minor_digit at_res_http_minor
    at_req_http_minor at_req_http_start at_req_line_almost_done at_res_first_status_code
    at_res_status_code at_res_status_start url_char at_req_spaces_before_url at_req_schema
    at_res_status at_req_url match_char first_header_state name_char name_loop at_header_field_start
    at_header_field flag_of length_char element_start element_end value_char line_end line_skip
    value_loop first_element begin_value at_header_value_start at_header_value_discard_ws
    at_header_value framing at_header_almost_done at_header_value_lws at_header_value_discard_lws
    at_headers_almost_done at_headers_done at_body_identity_eof at_chunk_size_start at_chunk_size
    at_chunk_parameters at_chunk_data at_body_identity at_message_done at_chunk_size_almost_done
    at_chunk_data_almost_done at_chunk_data_done dispatch reexecute turn left_calls finish main_loop
    execute_eof http_parser_execute
early_return_reason_example =
    early_return_reason logging logging-Steady request (parser_of unknown_method raw) [] [] b'a' 0
      (codes "b") refl

http_parser_execute_ends_example :
    http_parser_execute logging request [] (codes "GET /a HTTP/1.1\n\n") ≢ endless
http_parser_execute_ends_example =
    http_parser_execute_ends logging logging-Steady request [] (codes "GET /a HTTP/1.1\n\n")

abbrev no_length : HttpParser
no_length = record request { content_length = 0 }

content_length_exact_example :
    (42 ≤ max_length
      → value_loop 0 (codes "42\r\n") 0 h_content_length no_length
        ≡ at_cr 2 h_content_length (record no_length { content_length = 42 }))
    × (max_length < 42
        → (k : ℕ) × (r' : HttpParser) × (value_loop 0 (codes "42\r\n") 0 h_content_length no_length
            ≡ at_bad_length k h_content_length r'))
unfolding is_num decimal
content_length_exact_example =
    content_length_exact (codes "42") (codes "\n") 0 no_length (refl, (refl, tt)) (omega arith)

abbrev upper : Bytes
upper = codes "UpGRADE"

header_name_iff_example :
    (h : HeaderState) × (i : ℕ) × (name_loop (codes "pGRADE") 0 (first_header_state (token b'U')) 0
      ≡ Field.at_end 6 h i)
    × ((h ≡ h_content_length) ↔ (lower_case upper ≡ name_content_length))
    × ((h ≡ h_transfer_encoding) ↔ (lower_case upper ≡ name_transfer_encoding))
    × ((h ≡ h_upgrade) ↔ (lower_case upper ≡ name_upgrade))
    × ((h ≡ h_connection)
        ↔ ((lower_case upper ≡ name_connection) ⊎ (lower_case upper ≡ name_proxy_connection)))
unfolding token tokens
header_name_iff_example = header_name_iff b'U' (codes "pGRADE") (
  omega arith,
  refl,
  (
    omega arith,
    refl,
    (
      omega arith,
      refl,
      (omega arith, refl, (omega arith, refl, (omega arith, refl, (omega arith, refl, tt)))),
    ),
  ),
)

logging-IsPassive : IsPassive logging
logging-IsPassive = (
  λ f call e r u.
      subst
        (λ (c : HttpParser → List Call → ℤ × HttpParser × List Call).
          (c r u).1
          ≡ record r { http_errno = (c r u).1.http_errno; user_data = (c r u).1.user_data })
        (some_injective e) refl,
  λ f call e text r u.
      subst
        (λ (c : Bytes → HttpParser → List Call → ℤ × HttpParser × List Call).
          (c text r u).1 ≡ record r {
            http_errno = (c text r u).1.http_errno;
            user_data = (c text r u).1.user_data;
          })
        (some_injective e) refl,
)

-- The text ends inside a chunk.
abbrev first_half : Bytes
first_half = codes "PUT /a HTTP/1.1\r\nTransfer-Encoding: chunked\r\n\r\n5\r\nab"

abbrev second_half : Bytes
second_half = codes "cde\r\n0\r\n\r\n"

abbrev inside_chunk : HttpParser
inside_chunk = parser_of (http_parser_execute logging request [] first_half) raw

inside_chunk-Reachable : Reachable logging inside_chunk
unfolding is_alpha is_num is_alphanum is_hex is_mark is_userinfo_char is_host_char is_url_char
    tokens token unhex_entries unhex method_strings method_string first_method other_method
    method_char http_parser_init http_message_needs_eof http_should_keep_alive server_char url_state
    parse_url_char count_header_size new_message notify data_call at_dead at_res_or_resp_h
    at_req_method at_start_req_or_res at_start_res at_start_req at_letter at_res_first_http_major
    at_req_first_http_major at_http_major at_first_http_minor minor_digit at_res_http_minor
    at_req_http_minor at_req_http_start at_req_line_almost_done at_res_first_status_code
    at_res_status_code at_res_status_start url_char at_req_spaces_before_url at_req_schema
    at_res_status at_req_url match_char first_header_state name_char name_loop at_header_field_start
    at_header_field flag_of length_char element_start element_end value_char line_end line_skip
    value_loop first_element begin_value at_header_value_start at_header_value_discard_ws
    at_header_value framing at_header_almost_done at_header_value_lws at_header_value_discard_lws
    at_headers_almost_done at_headers_done at_body_identity_eof at_chunk_size_start at_chunk_size
    at_chunk_parameters at_chunk_data at_body_identity at_message_done at_chunk_size_almost_done
    at_chunk_data_almost_done at_chunk_data_done dispatch reexecute turn left_calls finish main_loop
    execute_eof http_parser_execute
inside_chunk-Reachable =
    executed {r = request} [] first_half 52 inside_chunk
      (user_of (http_parser_execute logging request [] first_half)) (started raw http_request) refl

reachable-IsValid_example : IsValid inside_chunk
reachable-IsValid_example =
    reachable-IsValid logging logging-IsPassive inside_chunk inside_chunk-Reachable

no_assertion_fails_example :
    (n : ℕ) × (r : HttpParser) × (u : List Call) × (http_parser_execute logging inside_chunk []
        second_half
      ≡ returned n r u)
no_assertion_fails_example =
    no_assertion_fails logging logging-IsPassive inside_chunk inside_chunk-Reachable [] second_half

pause_holds_example :
    (q : HttpParser) × (http_parser_pause request true ≡ some q)
    × (http_parser_execute logging q [] first_half ≡ returned 0 q [])
    × (http_parser_pause q false ≡ some request)
unfolding http_parser_init
pause_holds_example = pause_holds logging request [] first_half refl
