-- ===== src/Http/Examples.antt =====
-- Runs of the functions of http_parser.c on concrete texts.
use jia_tuan_server.Common.{
  ℕ, ◌+◌, ◌≤◌, ◌≡◌, refl, true, false, Option, none, some, List, [], ◌∷◌, arith, Bytes, codes,
}
use jia_tuan_server.Http.Parser.{hpe_strict}
use jia_tuan_server.Http.Text.{
  http_strerror_tab, http_errno_name, http_method_str, http_parser_version,
}
use jia_tuan_server.Http.Chars.{
  is_alpha, is_num, is_alphanum, is_hex, is_mark, is_userinfo_char, is_host_char, is_url_char,
}
use jia_tuan_server.Http.Chars.Table.{is_plain, is_url_char-is_plain}
use jia_tuan_server.Http.Url.Fields.{schema, host, port, path, query, fragment, userinfo, Url}
use jia_tuan_server.Http.Url.Parse.{
  parse_url, is_host_and_port, piece_of, scan_field, scan_piece, scan_char, scan_loop, strtoul,
  digits_value, check_host, convert_port, check_fields,
}
use jia_tuan_server.Http.Url.Host.{parse_host_char, host_step, host_loop, parse_host}
use jia_tuan_server.Http.Url.Char.{parse_url_char, server_char, url_state}
use jia_tuan_server.Http.Url.Result.{parse_url-Within, parse_url_fields}
use jia_tuan_server.Http.State.{message_done}
use jia_tuan_server.Http.Parser.{
  http_request, http_response, no_flags, h_general, hpe_ok, HttpParser, http_parser_init,
  http_should_keep_alive, http_message_needs_eof,
}
use jia_tuan_server.Http.Tokens.{token, unhex}
use jia_tuan_server.Http.Tokens.Table.{token_of, hex_value, token-token_of, unhex-hex_value}
use jia_tuan_server.Http.Method.{method_strings}

abbrev empty_url : Url
empty_url = record { is_set = λ f. false; port_number = 0; off = λ f. 0; len = λ f. 0 }

-- Each field that is set with its offset and its length, and the number of the port.
abbrev shown : Option Url → Option (List (ℕ × ℕ) × ℕ)
shown none = none
shown (some u) = some (
  (u.off schema, u.len schema)
      ∷ (u.off userinfo, u.len userinfo)
      ∷ (u.off host, u.len host)
      ∷ (u.off port, u.len port)
      ∷ (u.off path, u.len path)
      ∷ (u.off query, u.len query)
      ∷ (u.off fragment, u.len fragment)
      ∷ [],
  u.port_number,
)

abbrev or_empty : Option Url → Url
or_empty none = empty_url
or_empty (some u) = u

abbrev full_url : Bytes
full_url = codes "http://u@h.org:80/p?q=1#f"

full_url_parsed :
    shown (parse_url full_url 25 false empty_url)
    ≡ some ((0, 4) ∷ (7, 1) ∷ (9, 5) ∷ (15, 2) ∷ (17, 2) ∷ (20, 3) ∷ (24, 1) ∷ [], 80)
unfolding parse_url scan_loop scan_char scan_piece scan_field piece_of parse_url_char server_char
    url_state is_alpha is_num is_alphanum is_hex is_mark is_userinfo_char is_host_char is_url_char
    check_host parse_host parse_host_char host_loop host_step check_fields convert_port digits_value
    strtoul
full_url_parsed = refl

-- The number of the port is read past the end of a URL that a digit follows.
digits_behind_the_url :
    shown (parse_url (codes "h:801") 4 true empty_url)
    ≡ some ((0, 0) ∷ (0, 0) ∷ (0, 1) ∷ (2, 2) ∷ (0, 0) ∷ (0, 0) ∷ (0, 0) ∷ [], 801)
unfolding parse_url scan_loop scan_char scan_piece scan_field piece_of parse_url_char server_char
    url_state is_alpha is_num is_alphanum is_hex is_mark is_userinfo_char is_host_char is_url_char
    check_host parse_host parse_host_char host_loop host_step check_fields convert_port digits_value
    strtoul
digits_behind_the_url = refl

unfoldable host_and_port : Url
unfolding parse_url scan_loop scan_char scan_piece scan_field piece_of parse_url_char server_char
    url_state is_alpha is_num is_alphanum is_hex is_mark is_userinfo_char is_host_char is_url_char
    check_host parse_host parse_host_char host_loop host_step check_fields convert_port digits_value
    strtoul
host_and_port = or_empty (parse_url (codes "h:80") 4 true empty_url)

host_and_port_parsed : parse_url (codes "h:80") 4 true empty_url ≡ some host_and_port
unfolding parse_url scan_loop scan_char scan_piece scan_field piece_of parse_url_char server_char
    url_state is_alpha is_num is_alphanum is_hex is_mark is_userinfo_char is_host_char is_url_char
    check_host parse_host parse_host_char host_loop host_step check_fields convert_port digits_value
    strtoul host_and_port
host_and_port_parsed = refl

parse_url-Within_example : host_and_port.off port + host_and_port.len port ≤ 4
unfolding host_and_port
parse_url-Within_example =
    parse_url-Within (codes "h:80") 4 true empty_url host_and_port host_and_port_parsed port refl

parse_url_fields_example :
    (host_and_port.is_set schema ≡ true → host_and_port.is_set host ≡ true)
    × (true ≡ true → is_host_and_port host_and_port.is_set ≡ true)
    × (host_and_port.is_set port ≡ true → host_and_port.port_number ≤ 0xffff)
parse_url_fields_example =
    parse_url_fields (codes "h:80") 4 true empty_url host_and_port host_and_port_parsed

is_url_char-is_plain_example : is_url_char 0x7f ≡ is_plain 0x7f
is_url_char-is_plain_example = is_url_char-is_plain 0x7f (omega arith)

-- A parser of requests, and one of responses behind a status line "HTTP/1.1 204".
abbrev raw_parser : HttpParser
raw_parser = record {
  kind = http_request;
  flags = no_flags;
  state = message_done;
  header_state = h_general;
  index = 3;
  nread = 17;
  content_length = 5;
  http_major = 1;
  http_minor = 1;
  status_code = 204;
  method = 0;
  http_errno = hpe_ok;
  upgrade = false;
  user_data = 9;
}

abbrev response : HttpParser
response = record raw_parser { kind = http_response }

response_is_kept : http_should_keep_alive response ≡ true
unfolding http_should_keep_alive http_message_needs_eof
response_is_kept = refl

-- A parser that is set up keeps its user's data only.
parser_is_reset :
    http_parser_init raw_parser http_response
    ≡ http_parser_init (record response { method = 4 }) http_response
unfolding http_parser_init
parser_is_reset = refl

token-token_of_example : token b'A' ≡ token_of b'A'
token-token_of_example = token-token_of b'A' (omega arith)

unhex-hex_value_example : unhex b'f' ≡ hex_value b'f'
unhex-hex_value_example = unhex-hex_value b'f' (omega arith)

errno_text : http_errno_name hpe_strict ≡ some (codes "HPE_STRICT")
unfolding http_errno_name http_strerror_tab
errno_text = refl

method_texts : (http_method_str 24 ≡ codes "M-SEARCH") × (http_method_str 31 ≡ codes "<unknown>")
unfolding http_method_str method_strings
method_texts = (refl, refl)

version_number : http_parser_version ≡ 132352
unfolding http_parser_version
version_number = refl
