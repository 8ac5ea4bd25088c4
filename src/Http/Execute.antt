-- ===== src/Http/Execute.antt =====
-- `http_parser_execute` of http_parser.c: the `switch` over the states, the loop over the input and
-- the whole call.
pub mod Macros
pub mod Start
pub mod Version
pub mod Line
pub mod Field
pub mod Value
pub mod Headers
pub mod Body
mod Examples
pub mod Sound
pub mod Bounds
pub mod Progress
pub mod Identity
pub mod Assertions
pub mod Reach
pub mod Pause
use jia_tuan_server.Common.{
  ℕ, zero, suc, ◌+◌, ◌-◌, Bool, true, false, not, ◌&&◌, Option, none, some, List, [], ◌∷◌,
  if◌then◌else◌, leb, Bytes, drop,
}
use jia_tuan_server.Http.State
use jia_tuan_server.Http.State.{State, parsing_header}
use jia_tuan_server.Http.Parser.{HttpParser, HttpErrno, hpe_ok, hpe_unknown, hpe_invalid_eof_state}
use Macros.{
  message_complete, DataField, url, status, header_field, header_value, body, Settings, Exec, Step,
  Jump, go, again, fail, leave, abort, set_errno, count_header_size, notify, data_call, is_ok,
  with_parser,
}
use Start.{
  at_dead, at_start_req_or_res, at_res_or_resp_h, at_start_res, at_start_req, at_req_method,
}
use Version.{
  at_letter, at_res_first_http_major, at_req_first_http_major, at_http_major, at_first_http_minor,
  at_res_http_minor, at_req_http_minor, at_req_http_start, at_req_line_almost_done,
}
use Line.{
  at_res_first_status_code, at_res_status_code, at_res_status_start, at_res_status,
  at_req_spaces_before_url, at_req_schema, at_req_url,
}
use Field.{at_header_field_start, at_header_field}
use Value.{at_header_value_discard_ws, at_header_value_start, at_header_value}
use Headers.{
  at_header_almost_done, at_header_value_lws, at_header_value_discard_lws, at_headers_almost_done,
  at_headers_done,
}
use Body.{
  at_body_identity, at_body_identity_eof, at_message_done, at_chunk_size_start, at_chunk_size,
  at_chunk_parameters, at_chunk_size_almost_done, at_chunk_data, at_chunk_data_almost_done,
  at_chunk_data_done,
}

-- The result of a call: the number of bytes parsed, the parser and the user's state. `aborted` is a
-- failed assertion. `endless` is the end of the fuel for REEXECUTE.
pub data Executed (User : Type 0) : Type 0 where
  returned : (parsed : ℕ) → HttpParser → User → Executed User
  aborted : Executed User
  endless : Executed User

-- One round of the loop: it goes on behind the offset, the call returns, or it does neither.
pub data Turn (User : Type 0) : Type 0 where
  next : (offset : ℕ) → Exec User → Turn User
  ended : (parsed : ℕ) → Exec User → Turn User
  asserted : Turn User
  looped : Turn User

-- The states in which a URL is being read.
abbrev pub is_url_state : State → Bool
is_url_state State.req_path = true
is_url_state State.req_schema = true
is_url_state State.req_schema_slash = true
is_url_state State.req_schema_slash_slash = true
is_url_state State.req_server_start = true
is_url_state State.req_server = true
is_url_state State.req_server_with_at = true
is_url_state State.req_query_string_start = true
is_url_state State.req_query_string = true
is_url_state State.req_fragment_start = true
is_url_state State.req_fragment = true
is_url_state _ = false

-- The marks at the beginning of a call.
abbrev pub first_mark : State → DataField → Option ℕ
first_mark State.header_field header_field = some 0
first_mark State.header_value header_value = some 0
first_mark State.res_status status = some 0
first_mark s url = if is_url_state s then some 0 else none
first_mark _ _ = none

abbrev pub one_mark : Option ℕ → ℕ
one_mark none = 0
one_mark (some p) = 1

abbrev pub count_marks : (DataField → Option ℕ) → ℕ
count_marks mark =
    one_mark (mark header_field)
    + one_mark (mark header_value)
    + one_mark (mark url)
    + one_mark (mark body)
    + one_mark (mark status)

module _ {User : Type 0} where
  -- `error:`, without its `return`.
  abbrev pub errored : Exec User → Exec User
  errored x =
      if is_ok x.parser.http_errno then with_parser (set_errno hpe_unknown x.parser) x else x

  -- RETURN
  abbrev pub saved : Exec User → HttpParser
  saved x = record x.parser { state = x.at }

  abbrev pub still : ℕ → Step User → Jump User
  still ch s = record { taken = 0; ch = ch; step = s }

  -- What the call returns behind the loop.
  abbrev pub return_at : ℕ → Step User → Executed User
  return_at p (go y) = returned p (saved y) y.user
  return_at p (leave advance y) = returned p (saved y) y.user
  return_at p _ = aborted

  -- The variables at the beginning of the loop.
  abbrev pub opening : HttpParser → User → Exec User
  opening r u = record { parser = r; at = r.state; mark = first_mark r.state; user = u }

-- How often the `switch` may be entered for one byte.
abbrev pub fuel : ℕ
fuel = 8

module _ (st : Settings) (buf : Bytes) where
  open st use {User}

  -- The `switch`, at the offset `p`, with the bytes behind `ch`.
  unfoldable pub dispatch : State → ℕ → Exec User → (ch : ℕ) → (rest : Bytes) → Jump User
  dispatch State.dead p x ch rest = still ch (at_dead x ch)
  dispatch State.start_req_or_res p x ch rest = still ch (at_start_req_or_res st x ch)
  dispatch State.res_or_resp_h p x ch rest = still ch (at_res_or_resp_h x ch)
  dispatch State.start_res p x ch rest = still ch (at_start_res st x ch)
  dispatch State.res_h p x ch rest = still ch (at_letter b'T' State.res_ht x ch)
  dispatch State.res_ht p x ch rest = still ch (at_letter b'T' State.res_htt x ch)
  dispatch State.res_htt p x ch rest = still ch (at_letter b'P' State.res_http x ch)
  dispatch State.res_http p x ch rest = still ch (at_letter b'/' State.res_first_http_major x ch)
  dispatch State.res_first_http_major p x ch rest = still ch (at_res_first_http_major x ch)
  dispatch State.res_http_major p x ch rest =
      still ch (at_http_major State.res_first_http_minor x ch)
  dispatch State.res_first_http_minor p x ch rest =
      still ch (at_first_http_minor State.res_http_minor x ch)
  dispatch State.res_http_minor p x ch rest = still ch (at_res_http_minor x ch)
  dispatch State.res_first_status_code p x ch rest = still ch (at_res_first_status_code x ch)
  dispatch State.res_status_code p x ch rest = still ch (at_res_status_code x ch)
  dispatch State.res_status_start p x ch rest = still ch (at_res_status_start p x ch)
  dispatch State.res_status p x ch rest = still ch (at_res_status st buf p x ch)
  dispatch State.res_line_almost_done p x ch rest =
      still ch (at_letter 0x0a State.header_field_start x ch)
  dispatch State.start_req p x ch rest = still ch (at_start_req st x ch)
  dispatch State.req_method p x ch rest = still ch (at_req_method x ch)
  dispatch State.req_spaces_before_url p x ch rest = still ch (at_req_spaces_before_url p x ch)
  dispatch State.req_schema p x ch rest = still ch (at_req_schema x ch)
  dispatch State.req_schema_slash p x ch rest = still ch (at_req_schema x ch)
  dispatch State.req_schema_slash_slash p x ch rest = still ch (at_req_schema x ch)
  dispatch State.req_server_start p x ch rest = still ch (at_req_schema x ch)
  dispatch State.req_server p x ch rest = still ch (at_req_url st buf p x ch)
  dispatch State.req_server_with_at p x ch rest = still ch (at_req_url st buf p x ch)
  dispatch State.req_path p x ch rest = still ch (at_req_url st buf p x ch)
  dispatch State.req_query_string_start p x ch rest = still ch (at_req_url st buf p x ch)
  dispatch State.req_query_string p x ch rest = still ch (at_req_url st buf p x ch)
  dispatch State.req_fragment_start p x ch rest = still ch (at_req_url st buf p x ch)
  dispatch State.req_fragment p x ch rest = still ch (at_req_url st buf p x ch)
  dispatch State.req_http_start p x ch rest = still ch (at_req_http_start x ch)
  dispatch State.req_http_h p x ch rest = still ch (at_letter b'T' State.req_http_ht x ch)
  dispatch State.req_http_ht p x ch rest = still ch (at_letter b'T' State.req_http_htt x ch)
  dispatch State.req_http_htt p x ch rest = still ch (at_letter b'P' State.req_http_http x ch)
  dispatch State.req_http_http p x ch rest =
      still ch (at_letter b'/' State.req_first_http_major x ch)
  dispatch State.req_first_http_major p x ch rest = still ch (at_req_first_http_major x ch)
  dispatch State.req_http_major p x ch rest =
      still ch (at_http_major State.req_first_http_minor x ch)
  dispatch State.req_first_http_minor p x ch rest =
      still ch (at_first_http_minor State.req_http_minor x ch)
  dispatch State.req_http_minor p x ch rest = still ch (at_req_http_minor x ch)
  dispatch State.req_line_almost_done p x ch rest = still ch (at_req_line_almost_done x ch)
  dispatch State.header_field_start p x ch rest = still ch (at_header_field_start p x ch)
  dispatch State.header_field p x ch rest = at_header_field st buf p x ch rest
  dispatch State.header_value_discard_ws p x ch rest = still ch (at_header_value_discard_ws p x ch)
  dispatch State.header_value_discard_ws_almost_done p x ch rest =
      still ch (at_letter 0x0a State.header_value_discard_lws x ch)
  dispatch State.header_value_discard_lws p x ch rest =
      still ch (at_header_value_discard_lws st buf p x ch)
  dispatch State.header_value_start p x ch rest = still ch (at_header_value_start p x ch)
  dispatch State.header_value p x ch rest = at_header_value st buf p x ch rest
  dispatch State.header_value_lws p x ch rest = still ch (at_header_value_lws x ch)
  dispatch State.header_almost_done p x ch rest = still ch (at_header_almost_done x ch)
  dispatch State.chunk_size_start p x ch rest = still ch (at_chunk_size_start x ch)
  dispatch State.chunk_size p x ch rest = still ch (at_chunk_size x ch)
  dispatch State.chunk_parameters p x ch rest = still ch (at_chunk_parameters x ch)
  dispatch State.chunk_size_almost_done p x ch rest =
      still ch (at_chunk_size_almost_done st buf x ch)
  dispatch State.headers_almost_done p x ch rest = still ch (at_headers_almost_done st buf x ch)
  dispatch State.headers_done p x ch rest = still ch (at_headers_done st buf x ch)
  dispatch State.chunk_data p x ch rest = at_chunk_data p x ch rest
  dispatch State.chunk_data_almost_done p x ch rest =
      still ch (at_chunk_data_almost_done st buf p x ch)
  dispatch State.chunk_data_done p x ch rest = still ch (at_chunk_data_done st buf x ch)
  dispatch State.body_identity p x ch rest = at_body_identity st buf p x ch rest
  dispatch State.body_identity_eof p x ch rest = at_body_identity_eof p x ch rest
  dispatch State.message_done p x ch rest = still ch (at_message_done st buf x ch)

  unfoldable pub reexecute : (fuel : ℕ) → ℕ → Exec User → (ch : ℕ) → (rest : Bytes) → Turn User
  unfolding dispatch
  reexecute zero p x ch rest = looped
  reexecute (suc left) p x ch rest =
      let j = dispatch x.at p x ch rest in
      elim j.step [
        | go y ↦ next (p + j.taken) y
        | again y ↦ reexecute left (p + j.taken) y j.ch (drop j.taken rest)
        | fail y ↦ ended (p + j.taken) (errored y)
        | leave advance y ↦ ended (p + j.taken + (if advance then 1 else 0)) y
        | abort ↦ asserted
      ]

  -- One round, with the count of a header's byte.
  unfoldable pub turn : ℕ → Exec User → (ch : ℕ) → (rest : Bytes) → Turn User
  unfolding reexecute count_header_size
  turn p x ch rest =
      if parsing_header x.at
      then elim (count_header_size 1 x go) [
        | go y ↦ reexecute fuel p y ch rest
        | fail y ↦ ended p (errored y)
        | _ ↦ asserted
      ]
      else reexecute fuel p x ch rest

  -- The callbacks behind the loop, for the marks that are left.
  unfoldable pub left_calls : ℕ → Exec User → Step User
  unfolding data_call
  left_calls p x = data_call st header_field buf p false x λ x1.
      data_call st header_value buf p false x1 λ x2.
        data_call st url buf p false x2
          λ x3. data_call st body buf p false x3 λ x4. data_call st status buf p false x4 go

  unfoldable pub finish : ℕ → Exec User → Executed User
  unfolding left_calls
  finish p x = if leb (count_marks x.mark) 1 then return_at p (left_calls p x) else aborted

  -- The loop over the bytes that are left, of which the first has the offset `p`; `skip` of them
  -- are behind its counter already.
  unfoldable pub main_loop : (skip : ℕ) → Bytes → ℕ → Exec User → Executed User
  unfolding turn finish
  main_loop skip [] p x = finish p x
  main_loop (suc k) (ch ∷ rest) p x = main_loop k rest (p + 1) x
  main_loop zero (ch ∷ rest) p x = elim (turn p x ch rest) [
    | next p' y ↦ main_loop (p' - p) rest (p + 1) y
    | ended n y ↦ returned n (saved y) y.user
    | asserted ↦ aborted
    | looped ↦ endless
  ]

module _ (st : Settings) where
  open st use {User}

  -- What a call with no input returns behind its callback.
  abbrev pub return_eof : Step User → Executed User
  return_eof (go y) = returned 0 y.parser y.user
  return_eof (leave advance y) = returned 0 y.parser y.user
  return_eof _ = aborted

  -- A call with no input, which means the end of the stream, in the given state.
  unfoldable pub execute_eof : State → HttpParser → User → Executed User
  unfolding notify
  execute_eof State.body_identity_eof r u = return_eof (
      notify st message_complete false
        (record { parser = r; at = r.state; mark = λ f. none; user = u }) go)
  execute_eof State.dead r u = returned 0 r u
  execute_eof State.start_req_or_res r u = returned 0 r u
  execute_eof State.start_res r u = returned 0 r u
  execute_eof State.start_req r u = returned 0 r u
  execute_eof _ r u = returned 1 (set_errno hpe_invalid_eof_state r) u

  unfoldable pub http_parser_execute : HttpParser → User → Bytes → Executed User
  unfolding execute_eof main_loop
  http_parser_execute r u [] =
      if is_ok r.http_errno then execute_eof r.state r u else returned 0 r u
  http_parser_execute r u (ch ∷ rest) =
      if is_ok r.http_errno
      then main_loop st (ch ∷ rest) 0 (ch ∷ rest) 0 (opening r u)
      else returned 0 r u
