-- ===== src/Http/Url/Char.antt =====
-- `parse_url_char` of http_parser.c: one character of a URL.
use jia_tuan_server.Common.{ℕ, Bool, ◌||◌, ◌==◌, if◌then◌else◌}
use jia_tuan_server.Http.Chars.{is_alpha, is_userinfo_char, is_url_char}
use jia_tuan_server.Http.State.{
  State, dead, req_spaces_before_url, req_schema, req_schema_slash, req_schema_slash_slash,
  req_server_start, req_server, req_server_with_at, req_path, req_query_string_start,
  req_query_string, req_fragment_start, req_fragment,
}

-- Space, CR, LF, tab and form feed.
abbrev pub is_blank : ℕ → Bool
is_blank c = c == 0x20 || c == 0x0d || c == 0x0a || c == 0x09 || c == 0x0c

-- The cases of the states within the host part.
unfoldable pub server_char : ℕ → State
server_char c =
    if c == b'/'
    then req_path
    else if c == b'?'
    then req_query_string_start
    else if c == b'@'
    then req_server_with_at
    else if is_userinfo_char c || c == b'[' || c == b']'
    then req_server
    else dead

-- The `switch`, for a character that is not blank.
unfoldable pub url_state : State → ℕ → State
unfolding server_char
url_state req_spaces_before_url c =
    if c == b'/' || c == b'*' then req_path else if is_alpha c then req_schema else dead
url_state req_schema c =
    if is_alpha c then req_schema else if c == 0x3a then req_schema_slash else dead
url_state req_schema_slash c = if c == b'/' then req_schema_slash_slash else dead
url_state req_schema_slash_slash c = if c == b'/' then req_server_start else dead
url_state req_server_with_at c = if c == b'@' then dead else server_char c
url_state req_server_start c = server_char c
url_state req_server c = server_char c
url_state req_path c =
    if is_url_char c
    then req_path
    else if c == b'?'
    then req_query_string_start
    else if c == b'#'
    then req_fragment_start
    else dead
url_state req_query_string_start c =
    if is_url_char c
    then req_query_string
    else if c == b'?'
    then req_query_string
    else if c == b'#'
    then req_fragment_start
    else dead
url_state req_query_string c =
    if is_url_char c
    then req_query_string
    else if c == b'?'
    then req_query_string
    else if c == b'#'
    then req_fragment_start
    else dead
url_state req_fragment_start c =
    if is_url_char c
    then req_fragment
    else if c == b'?'
    then req_fragment
    else if c == b'#'
    then req_fragment_start
    else dead
url_state req_fragment c =
    if is_url_char c then req_fragment else if c == b'?' || c == b'#' then req_fragment else dead
url_state _ c = dead

unfoldable pub parse_url_char : State → ℕ → State
unfolding url_state
parse_url_char s c = if is_blank c then dead else url_state s c
