-- ===== src/Http/Execute/Line.antt =====
-- The cases of `http_parser_execute` for the status of a response and the URL of a request.
use jia_tuan_server.Common.{ℕ, Bool, true, false, ◌||◌, ◌==◌, ltb, if◌then◌else◌, Bytes}
use jia_tuan_server.Http.Chars.{is_num}
use jia_tuan_server.Http.State.{
  State, dead, res_status_code, res_status_start, res_status, res_line_almost_done,
  header_field_start, req_server_start, req_http_start, req_line_almost_done,
}
use jia_tuan_server.Http.Parser.{hpe_invalid_status, hpe_invalid_url}
use jia_tuan_server.Http.Method.{http_connect}
use jia_tuan_server.Http.Url.Char.{parse_url_char}
use jia_tuan_server.Http.Execute.Start.{is_line_end}
use jia_tuan_server.Http.Execute.Version.{digit, push_digit}
use jia_tuan_server.Http.Execute.Macros.{
  url, status, Settings, Exec, Step, go, to, with_parser, fail_with, mark_at, data_call,
}

abbrev pub is_dead : State → Bool
is_dead dead = true
is_dead _ = false

module _ {User : Type 0} where
  abbrev pub with_status : ℕ → Exec User → Exec User
  with_status n x = with_parser (record x.parser { status_code = n }) x

  unfoldable pub at_res_first_status_code : Exec User → ℕ → Step User
  at_res_first_status_code x ch =
      if is_num ch
      then go (to res_status_code (with_status (digit ch) x))
      else if ch == 0x20
      then go x
      else fail_with hpe_invalid_status x

  unfoldable pub at_res_status_code : Exec User → ℕ → Step User
  at_res_status_code x ch =
      if is_num ch
      then (let n = push_digit x.parser.status_code ch in
          if ltb 999 n
          then fail_with hpe_invalid_status (with_status n x)
          else go (with_status n x))
      else if ch == 0x20
      then go (to res_status_start x)
      else if ch == 0x0d
      then go (to res_line_almost_done x)
      else if ch == 0x0a
      then go (to header_field_start x)
      else fail_with hpe_invalid_status x

  unfoldable pub at_res_status_start : ℕ → Exec User → ℕ → Step User
  at_res_status_start p x ch =
      if ch == 0x0d
      then go (to res_line_almost_done x)
      else if ch == 0x0a
      then go (to header_field_start x)
      else go (to res_status (with_parser (record x.parser { index = 0 }) (mark_at status p x)))

  -- UPDATE_STATE(parse_url_char(CURRENT_STATE(), ch)), and the test behind it.
  unfoldable pub url_char : Exec User → ℕ → Step User
  url_char x ch =
      let s = parse_url_char x.at ch in
      if is_dead s then fail_with hpe_invalid_url (to s x) else go (to s x)

  unfoldable pub at_req_spaces_before_url : ℕ → Exec User → ℕ → Step User
  unfolding url_char
  at_req_spaces_before_url p x ch =
      if ch == 0x20
      then go x
      else let y : Exec User = mark_at url p x in
        url_char (if x.parser.method == http_connect then to req_server_start y else y) ch

  -- The states in which a URL may not end.
  unfoldable pub at_req_schema : Exec User → ℕ → Step User
  unfolding url_char
  at_req_schema x ch =
      if ch == 0x20 || is_line_end ch then fail_with hpe_invalid_url x else url_char x ch

module _ (st : Settings) (buf : Bytes) where
  open st use {User}

  unfoldable pub at_res_status : ℕ → Exec User → ℕ → Step User
  at_res_status p x ch =
      if ch == 0x0d
      then data_call st status buf p true (to res_line_almost_done x) go
      else if ch == 0x0a
      then data_call st status buf p true (to header_field_start x) go
      else go x

  -- The states in which a URL may end.
  unfoldable pub at_req_url : ℕ → Exec User → ℕ → Step User
  unfolding url_char
  at_req_url p x ch =
      if ch == 0x20
      then data_call st url buf p true (to req_http_start x) go
      else if is_line_end ch
      then data_call st url buf p true
          (to (if ch == 0x0d then req_line_almost_done else header_field_start)
            (with_parser (record x.parser { http_major = 0; http_minor = 9 }) x))
          go
      else url_char x ch
