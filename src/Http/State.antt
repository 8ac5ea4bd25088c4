-- ===== src/Http/State.antt =====
-- `enum state` of http_parser.c, without the prefix `s_`.
use jia_tuan_server.Common.{ℕ, Bool, leb}

pub data State : Type 0 where
  dead : State
  start_req_or_res : State
  res_or_resp_h : State
  start_res : State
  res_h : State
  res_ht : State
  res_htt : State
  res_http : State
  res_first_http_major : State
  res_http_major : State
  res_first_http_minor : State
  res_http_minor : State
  res_first_status_code : State
  res_status_code : State
  res_status_start : State
  res_status : State
  res_line_almost_done : State
  start_req : State
  req_method : State
  req_spaces_before_url : State
  req_schema : State
  req_schema_slash : State
  req_schema_slash_slash : State
  req_server_start : State
  req_server : State
  req_server_with_at : State
  req_path : State
  req_query_string_start : State
  req_query_string : State
  req_fragment_start : State
  req_fragment : State
  req_http_start : State
  req_http_h : State
  req_http_ht : State
  req_http_htt : State
  req_http_http : State
  req_first_http_major : State
  req_http_major : State
  req_first_http_minor : State
  req_http_minor : State
  req_line_almost_done : State
  header_field_start : State
  header_field : State
  header_value_discard_ws : State
  header_value_discard_ws_almost_done : State
  header_value_discard_lws : State
  header_value_start : State
  header_value : State
  header_value_lws : State
  header_almost_done : State
  chunk_size_start : State
  chunk_size : State
  chunk_parameters : State
  chunk_size_almost_done : State
  headers_almost_done : State
  headers_done : State
  chunk_data : State
  chunk_data_almost_done : State
  chunk_data_done : State
  body_identity : State
  body_identity_eof : State
  message_done : State

-- The number of a state.
abbrev pub code : State → ℕ
code dead = 1
code start_req_or_res = 2
code res_or_resp_h = 3
code start_res = 4
code res_h = 5
code res_ht = 6
code res_htt = 7
code res_http = 8
code res_first_http_major = 9
code res_http_major = 10
code res_first_http_minor = 11
code res_http_minor = 12
code res_first_status_code = 13
code res_status_code = 14
code res_status_start = 15
code res_status = 16
code res_line_almost_done = 17
code start_req = 18
code req_method = 19
code req_spaces_before_url = 20
code req_schema = 21
code req_schema_slash = 22
code req_schema_slash_slash = 23
code req_server_start = 24
code req_server = 25
code req_server_with_at = 26
code req_path = 27
code req_query_string_start = 28
code req_query_string = 29
code req_fragment_start = 30
code req_fragment = 31
code req_http_start = 32
code req_http_h = 33
code req_http_ht = 34
code req_http_htt = 35
code req_http_http = 36
code req_first_http_major = 37
code req_http_major = 38
code req_first_http_minor = 39
code req_http_minor = 40
code req_line_almost_done = 41
code header_field_start = 42
code header_field = 43
code header_value_discard_ws = 44
code header_value_discard_ws_almost_done = 45
code header_value_discard_lws = 46
code header_value_start = 47
code header_value = 48
code header_value_lws = 49
code header_almost_done = 50
code chunk_size_start = 51
code chunk_size = 52
code chunk_parameters = 53
code chunk_size_almost_done = 54
code headers_almost_done = 55
code headers_done = 56
code chunk_data = 57
code chunk_data_almost_done = 58
code chunk_data_done = 59
code body_identity = 60
code body_identity_eof = 61
code message_done = 62

-- PARSING_HEADER
abbrev pub parsing_header : State → Bool
parsing_header s = leb (code s) (code headers_done)
