-- ===== src/Http/Execute/Headers.antt =====
-- The cases of `http_parser_execute` for the end of a header and of all headers.
use jia_tuan_server.Common.{
  ℕ, zero, suc, Bool, true, false, not, ◌&&◌, ◌||◌, none, some, ℤ, pos, ◌==◌, ltb, if◌then◌else◌,
  Bytes,
}
use jia_tuan_server.Http.State.{
  header_value_start, header_value_lws, header_field_start, header_value_discard_ws, headers_done,
  message_done, chunk_size_start, body_identity, body_identity_eof,
}
use jia_tuan_server.Http.Parser.{
  HttpParser, ullong_max, hpe_cb_headers_complete, http_message_needs_eof,
}
use jia_tuan_server.Http.Method.{http_connect}
use jia_tuan_server.Http.Execute.Value.Scan.{flag_of, with_flags}
use jia_tuan_server.Http.Execute.Macros.{
  headers_complete, message_complete, chunk_complete, header_value, Settings, Exec, Step, go, again,
  leave, to, with_parser, strict, mark_at, set_errno, new_message, notify, data_call, is_ok,
}

-- The bits F_UPGRADE and F_CONNECTION_UPGRADE together, or a CONNECT request.
abbrev pub asks_upgrade : HttpParser → Bool
asks_upgrade r = (r.flags.upgrade && r.flags.connection_upgrade) || r.method == http_connect

-- What comes behind the headers.
pub data Framing : Type 0 where
  other_protocol : Framing
  no_body : Framing
  in_chunks : Framing
  of_length : Framing
  until_eof : Framing

-- `hasBody`
abbrev pub has_body : HttpParser → Bool
has_body r = r.flags.chunked || (ltb 0 r.content_length && not (r.content_length == ullong_max))

-- The chain of tests of `s_headers_done`.
unfoldable pub framing : HttpParser → Framing
unfolding http_message_needs_eof
framing r =
    if r.upgrade && (r.method == http_connect || r.flags.skipbody || not (has_body r))
    then other_protocol
    else if r.flags.skipbody
    then no_body
    else if r.flags.chunked
    then in_chunks
    else if r.content_length == 0
    then no_body
    else if not (r.content_length == ullong_max)
    then of_length
    else if not (http_message_needs_eof r)
    then no_body
    else until_eof

module _ {User : Type 0} where
  unfoldable pub at_header_almost_done : Exec User → ℕ → Step User
  at_header_almost_done x ch = strict (ch == 0x0a) x (go (to header_value_lws x))

  unfoldable pub at_header_value_lws : Exec User → ℕ → Step User
  unfolding flag_of
  at_header_value_lws x ch =
      if ch == 0x20 || ch == 0x09
      then again (to header_value_start x)
      else again (to header_field_start (with_parser (flag_of x.parser.header_state x.parser) x))

  abbrev pub ok_or_leave : Exec User → Step User
  ok_or_leave y = if is_ok y.parser.http_errno then again y else leave false y

  -- The end of the callback on_headers_complete: 1 asks for no body.
  abbrev pub headers_called : Exec User → ℤ × HttpParser × User → Step User
  headers_called x (pos zero, r, u) = ok_or_leave (record x { parser = r; user = u })
  headers_called x (pos (suc zero), r, u) =
      ok_or_leave
        (record x { parser = with_flags (record r.flags { skipbody = true }) r; user = u })
  headers_called x (result, r, u) =
      leave false (record x { parser = set_errno hpe_cb_headers_complete r; user = u })

module _ (st : Settings) (buf : Bytes) where
  open st use {User, on_notify}

  unfoldable pub at_header_value_discard_lws : ℕ → Exec User → ℕ → Step User
  unfolding flag_of data_call
  at_header_value_discard_lws p x ch =
      if ch == 0x20 || ch == 0x09
      then go (to header_value_discard_ws x)
      else data_call st header_value buf p false
          (to header_field_start
            (mark_at header_value p (with_parser (flag_of x.parser.header_state x.parser) x)))
          again

  unfoldable pub at_headers_almost_done : Exec User → ℕ → Step User
  unfolding notify
  at_headers_almost_done x ch = strict (ch == 0x0a) x (
      if x.parser.flags.trailing
      then notify st chunk_complete false (to message_done x) again
      else (let y : Exec User =
            to headers_done (with_parser (record x.parser { upgrade = asks_upgrade x.parser }) x) in
          elim (on_notify headers_complete) [
            | none ↦ ok_or_leave y
            | some call ↦ headers_called y (call y.parser y.user)
          ]))

  -- What `s_headers_done` does for each way in which the message may go on.
  abbrev pub framed : Framing → Exec User → Step User
  framed other_protocol x =
      notify st message_complete true (to (new_message x.parser) x) (leave true)
  framed no_body x = notify st message_complete true (to (new_message x.parser) x) go
  framed in_chunks x = go (to chunk_size_start x)
  framed of_length x = go (to body_identity x)
  framed until_eof x = go (to body_identity_eof x)

  unfoldable pub at_headers_done : Exec User → ℕ → Step User
  unfolding notify framing new_message
  at_headers_done x ch = strict (ch == 0x0a) x (
      let y : Exec User = with_parser (record x.parser { nread = 0 }) x in
      framed (framing y.parser) y)
