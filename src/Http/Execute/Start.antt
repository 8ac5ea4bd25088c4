-- ===== src/Http/Execute/Start.antt =====
-- The cases of `http_parser_execute` for the start of a message and for the method.
use jia_tuan_server.Common.{
  ℕ, ◌+◌, ◌%◌, ◌^◌, Bool, true, ◌||◌, Option, none, some, ◌==◌, if◌then◌else◌,
}
use jia_tuan_server.Http.Chars.{is_alpha}
use jia_tuan_server.Http.State.{
  start_req, res_or_resp_h, res_ht, req_method, res_h, req_spaces_before_url,
}
use jia_tuan_server.Http.Parser.{
  HttpParser, http_request, http_response, no_flags, ullong_max, hpe_closed_connection,
  hpe_invalid_constant, hpe_invalid_method,
}
use jia_tuan_server.Http.Method.{
  http_head, first_method, MethodStep, invalid, finished, onward, method_char,
}
use jia_tuan_server.Http.Execute.Macros.{
  message_begin, Settings, Exec, Step, go, again, to, with_parser, fail_with, notify,
}

-- CR and LF
abbrev pub is_line_end : ℕ → Bool
is_line_end ch = ch == 0x0d || ch == 0x0a

-- `parser->flags = 0; parser->content_length = ULLONG_MAX;`
abbrev pub fresh : HttpParser → HttpParser
fresh r = record r { flags = no_flags; content_length = ullong_max }

module _ {User : Type 0} where
  unfoldable pub at_dead : Exec User → ℕ → Step User
  at_dead x ch = if is_line_end ch then go x else fail_with hpe_closed_connection x

  unfoldable pub at_res_or_resp_h : Exec User → ℕ → Step User
  at_res_or_resp_h x ch =
      if ch == b'T'
      then go (to res_ht (with_parser (record x.parser { kind = http_response }) x))
      else if ch == b'E'
      then go (
          to req_method (
            with_parser (record x.parser { kind = http_request; method = http_head; index = 2 }) x))
      else fail_with hpe_invalid_constant x

  -- `++parser->index`
  abbrev pub next_index : Exec User → Exec User
  next_index x = with_parser (record x.parser { index = (x.parser.index + 1) % 2 ^ 8 }) x

  abbrev pub method_step : Exec User → MethodStep → Step User
  method_step x invalid = fail_with hpe_invalid_method x
  method_step x finished = go (next_index (to req_spaces_before_url x))
  method_step x (onward m) = go (next_index (with_parser (record x.parser { method = m }) x))

  unfoldable pub at_req_method : Exec User → ℕ → Step User
  unfolding method_char
  at_req_method x ch = method_step x (method_char x.parser.method x.parser.index ch)

module _ (st : Settings) where
  open st use {User}

  unfoldable pub at_start_req_or_res : Exec User → ℕ → Step User
  unfolding notify
  at_start_req_or_res x ch =
      if is_line_end ch
      then go x
      else let y : Exec User = with_parser (fresh x.parser) x in
        if ch == b'H'
        then notify st message_begin true (to res_or_resp_h y) go
        else again (to start_req (with_parser (record y.parser { kind = http_request }) y))

  unfoldable pub at_start_res : Exec User → ℕ → Step User
  unfolding notify
  at_start_res x ch =
      let y : Exec User = with_parser (fresh x.parser) x in
      if ch == b'H'
      then notify st message_begin true (to res_h y) go
      else if is_line_end ch
      then notify st message_begin true y go
      else fail_with hpe_invalid_constant y

  -- `index` is 1 and the method is the number 0 where no method begins with the character.
  abbrev pub begin_method : Exec User → Option ℕ → Step User
  begin_method y none =
      fail_with hpe_invalid_method (with_parser (record y.parser { method = 0; index = 1 }) y)
  begin_method y (some m) =
      notify st message_begin true
        (to req_method (with_parser (record y.parser { method = m; index = 1 }) y)) go

  unfoldable pub at_start_req : Exec User → ℕ → Step User
  unfolding notify first_method
  at_start_req x ch =
      if is_line_end ch
      then go x
      else let y : Exec User = with_parser (fresh x.parser) x in
        if is_alpha ch then begin_method y (first_method ch) else fail_with hpe_invalid_method y
