-- ===== src/Http/Execute/Version.antt =====
-- The cases of `http_parser_execute` for the version, in a request and in a response.
use jia_tuan_server.Common.{ℕ, ◌+◌, ◌-◌, ◌*◌, ◌%◌, ◌^◌, not, ◌&&◌, ◌==◌, ltb, leb, if◌then◌else◌}
use jia_tuan_server.Http.Chars.{is_num}
use jia_tuan_server.Http.State.{
  State, res_http_major, res_first_status_code, req_http_h, req_http_major, req_line_almost_done,
  header_field_start,
}
use jia_tuan_server.Http.Parser.{hpe_invalid_version, hpe_invalid_constant, hpe_lf_expected}
use jia_tuan_server.Http.Execute.Macros.{Exec, Step, go, to, with_parser, fail_with, strict}

abbrev pub digit : ℕ → ℕ
digit ch = ch - b'0'

-- `n *= 10; n += ch - '0';` on an `unsigned short` or a field of 16 bits.
abbrev pub push_digit : ℕ → ℕ → ℕ
push_digit n ch = ((n * 10) % 2 ^ 16 + digit ch) % 2 ^ 16

module _ {User : Type 0} where
  -- A fixed character of "HTTP/", and the state behind it.
  unfoldable pub at_letter : ℕ → State → Exec User → ℕ → Step User
  at_letter wanted next x ch = strict (ch == wanted) x (go (to next x))

  abbrev pub with_major : ℕ → Exec User → Exec User
  with_major n x = with_parser (record x.parser { http_major = n }) x

  abbrev pub with_minor : ℕ → Exec User → Exec User
  with_minor n x = with_parser (record x.parser { http_minor = n }) x

  unfoldable pub at_res_first_http_major : Exec User → ℕ → Step User
  at_res_first_http_major x ch =
      if is_num ch
      then go (to res_http_major (with_major (digit ch) x))
      else fail_with hpe_invalid_version x

  -- The first digit in a request is not 0.
  unfoldable pub at_req_first_http_major : Exec User → ℕ → Step User
  at_req_first_http_major x ch =
      if leb b'1' ch && leb ch b'9'
      then go (to req_http_major (with_major (digit ch) x))
      else fail_with hpe_invalid_version x

  -- One more digit of the major number, or the dot, behind which `dot` follows.
  unfoldable pub at_http_major : (dot : State) → Exec User → ℕ → Step User
  at_http_major dot x ch =
      if ch == 0x2e
      then go (to dot x)
      else if not (is_num ch)
      then fail_with hpe_invalid_version x
      else let n = push_digit x.parser.http_major ch in
        if ltb 999 n then fail_with hpe_invalid_version (with_major n x) else go (with_major n x)

  unfoldable pub at_first_http_minor : (next : State) → Exec User → ℕ → Step User
  at_first_http_minor next x ch =
      if is_num ch then go (to next (with_minor (digit ch) x)) else fail_with hpe_invalid_version x

  -- One more digit of the minor number.
  unfoldable pub minor_digit : Exec User → ℕ → Step User
  minor_digit x ch =
      if not (is_num ch)
      then fail_with hpe_invalid_version x
      else let n = push_digit x.parser.http_minor ch in
        if ltb 999 n then fail_with hpe_invalid_version (with_minor n x) else go (with_minor n x)

  unfoldable pub at_res_http_minor : Exec User → ℕ → Step User
  unfolding minor_digit
  at_res_http_minor x ch = if ch == 0x20 then go (to res_first_status_code x) else minor_digit x ch

  unfoldable pub at_req_http_minor : Exec User → ℕ → Step User
  unfolding minor_digit
  at_req_http_minor x ch =
      if ch == 0x0d
      then go (to req_line_almost_done x)
      else if ch == 0x0a
      then go (to header_field_start x)
      else minor_digit x ch

  unfoldable pub at_req_http_start : Exec User → ℕ → Step User
  at_req_http_start x ch =
      if ch == b'H'
      then go (to req_http_h x)
      else if ch == 0x20
      then go x
      else fail_with hpe_invalid_constant x

  unfoldable pub at_req_line_almost_done : Exec User → ℕ → Step User
  at_req_line_almost_done x ch =
      if ch == 0x0a then go (to header_field_start x) else fail_with hpe_lf_expected x
