-- ===== src/Http/Execute/Value.antt =====
-- The cases of `http_parser_execute` for the value of a header.
pub mod Length
pub mod Scan
use jia_tuan_server.Common.{
  ℕ, zero, suc, ◌+◌, ◌-◌, ◌*◌, ◌/◌, ◌%◌, ◌^◌, Bool, true, false, not, ◌&&◌, ◌||◌, Option, none,
  some, List, [], ◌∷◌, ◌==◌, ltb, leb, if◌then◌else◌, Bytes, codes, length, take, drop, has,
}
use jia_tuan_server.Http.Chars.{lower, is_num}
use jia_tuan_server.Http.Tokens.{token}
use jia_tuan_server.Http.State
use jia_tuan_server.Http.State.{
  State, header_almost_done, header_value_discard_ws_almost_done, header_value_discard_lws,
}
use jia_tuan_server.Http.Parser.{
  HttpParser, Flags, ullong_max, hpe_invalid_content_length, HeaderState, h_general, h_c, h_co,
  h_con, h_matching_connection, h_matching_proxy_connection, h_matching_content_length,
  h_matching_transfer_encoding, h_matching_upgrade, h_connection, h_content_length,
  h_transfer_encoding, h_upgrade, h_matching_transfer_encoding_chunked,
  h_matching_connection_token_start, h_matching_connection_keep_alive, h_matching_connection_close,
  h_matching_connection_upgrade, h_matching_connection_token, h_transfer_encoding_chunked,
  h_connection_keep_alive, h_connection_close, h_connection_upgrade,
}
use jia_tuan_server.Http.Execute.Field.{index_after, match_char, name_upgrade}
use jia_tuan_server.Http.Execute.Macros.{
  Notify, message_begin, headers_complete, message_complete, chunk_header, chunk_complete,
  DataField, url, status, header_field, header_value, body, Settings, Exec, Step, Jump, go, again,
  fail, leave, abort, to, with_parser, fail_with, strict, mark_at, set_errno, count_header_size,
  new_message, notify, data_call, after_call, is_ok, is_zero, max_header_size, notify_errno,
}
use Scan.{
  text_chunked, text_keep_alive, text_close, with_flags, flag_of, ValueStep, push_length,
  may_overflow, length_char, element_start, element_end, matched, value_char, line_end, line_skip,
  ValueEnd, value_loop, keep, to_line_end, bad_length, unexpected, at_end, at_cr, at_lf,
  at_bad_length, asserted,
}

-- The header state for the first character of a value of a Connection header.
unfoldable pub first_element : (c : ℕ) → HeaderState
first_element c =
    if c == b'k'
    then h_matching_connection_keep_alive
    else if c == b'c'
    then h_matching_connection_close
    else if c == b'u'
    then h_matching_connection_upgrade
    else h_matching_connection_token

module _ {User : Type 0} where
  abbrev pub with_state : HeaderState → Exec User → Exec User
  with_state h x = with_parser (record x.parser { header_state = h }) x

  -- The `switch` for the first character of a value.
  unfoldable pub begin_value : HeaderState → Exec User → ℕ → Step User
  unfolding first_element
  begin_value h_upgrade x ch = go (
      with_state h_general
        (with_parser (with_flags (record x.parser.flags { upgrade = true }) x.parser) x))
  begin_value h_transfer_encoding x ch =
      go (
        with_state (if lower ch == b'c' then h_matching_transfer_encoding_chunked else h_general) x)
  begin_value h_content_length x ch =
      if is_num ch
      then go (with_parser (record x.parser { content_length = ch - b'0' }) x)
      else fail_with hpe_invalid_content_length x
  begin_value h_connection x ch = go (with_state (first_element (lower ch)) x)
  begin_value h_matching_connection_token_start x ch = go x
  begin_value _ x ch = go (with_state h_general x)

  unfoldable pub at_header_value_start : ℕ → Exec User → ℕ → Step User
  unfolding begin_value
  at_header_value_start p x ch =
      begin_value x.parser.header_state
        (to State.header_value
          (with_parser (record x.parser { index = 0 }) (mark_at header_value p x)))
        ch

  unfoldable pub at_header_value_discard_ws : ℕ → Exec User → ℕ → Step User
  unfolding at_header_value_start
  at_header_value_discard_ws p x ch =
      if ch == 0x20 || ch == 0x09
      then go x
      else if ch == 0x0d
      then go (to header_value_discard_ws_almost_done x)
      else if ch == 0x0a
      then go (to header_value_discard_lws x)
      else at_header_value_start p x ch

module _ (st : Settings) (buf : Bytes) where
  open st use {User}

  -- The case, from the offset `p` on.
  abbrev pub value_step : ℕ → Exec User → (ch : ℕ) → ValueEnd → Jump User
  value_step p x ch asserted = record { taken = 0; ch = ch; step = abort }
  value_step p x ch (at_end n h r) = record {
    taken = if ltb max_header_size ((r.nread + n) % 2 ^ 32) then n else n - 1;
    ch = ch;
    step = count_header_size n (with_state h (with_parser r x)) go;
  }
  value_step p x ch (at_bad_length n h r) = record {
    taken = n;
    ch = ch;
    step = fail_with hpe_invalid_content_length (with_state h (with_parser r x));
  }
  value_step p x ch (at_cr n h r) = record {
    taken = n;
    ch = 0x0d;
    step =
        data_call st header_value buf (p + n) true
          (to header_almost_done (with_state h (with_parser r x)))
          (λ y. count_header_size n (with_state h y) go);
  }
  value_step p x ch (at_lf n h r) = record {
    taken = n;
    ch = 0x0a;
    step =
        count_header_size n (to header_almost_done (with_parser r x))
          (λ y. data_call st header_value buf (p + n) false (with_state h y) again);
  }

  unfoldable pub at_header_value : ℕ → Exec User → (ch : ℕ) → Bytes → Jump User
  unfolding count_header_size data_call value_loop
  at_header_value p x ch rest =
      value_step p x ch (value_loop 0 (ch ∷ rest) 0 x.parser.header_state x.parser)
