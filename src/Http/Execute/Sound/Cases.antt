-- ===== src/Http/Execute/Sound/Cases.antt =====
-- The cases of `http_parser_execute` of http_parser.c that make no callback.
use jia_tuan_server.Common.{ℕ, ◌==◌, arith, Bool-cases, inl, inr}
use jia_tuan_server.Http.State.{State, header_value_lws, header_field_start}
use jia_tuan_server.Http.Parser.{HeaderState, h_content_length}
use jia_tuan_server.Http.Execute.Macros.{Exec}
use jia_tuan_server.Http.Execute.Start.{at_dead, at_res_or_resp_h, at_req_method, method_step}
use jia_tuan_server.Http.Method.{method_char, MethodStep, invalid, finished, onward}
use jia_tuan_server.Http.Execute.Version.{
  at_letter, at_res_first_http_major, at_req_first_http_major, at_http_major, at_first_http_minor,
  minor_digit, at_res_http_minor, at_req_http_minor, at_req_http_start, at_req_line_almost_done,
}
use jia_tuan_server.Http.Execute.Value.{
  at_header_value_discard_ws, at_header_value_start, begin_value,
}
use jia_tuan_server.Http.Execute.Field.{at_header_field_start}
use jia_tuan_server.Http.Execute.Headers.{at_header_almost_done, at_header_value_lws}
use jia_tuan_server.Http.Execute.Body.{at_chunk_size_start, at_chunk_size, at_chunk_parameters}
use jia_tuan_server.Http.Execute.Line.{
  url_char, at_res_first_status_code, at_res_status_code, at_res_status_start,
  at_req_spaces_before_url, at_req_schema,
}
use jia_tuan_server.Http.Execute.Sound.{IsSound}

module _ {User : Type 0} where
  pub at_dead-IsSound : (s : State) (x : Exec User) (ch : ℕ) → IsSound s (at_dead x ch)
  unfolding at_dead
  at_dead-IsSound s x ch = ground arith

  pub at_res_or_resp_h-IsSound :
      (s : State) (x : Exec User) (ch : ℕ) → IsSound s (at_res_or_resp_h x ch)
  unfolding at_res_or_resp_h
  at_res_or_resp_h-IsSound s x ch = ground arith

  pub at_res_first_status_code-IsSound :
      (s : State) (x : Exec User) (ch : ℕ) → IsSound s (at_res_first_status_code x ch)
  unfolding at_res_first_status_code
  at_res_first_status_code-IsSound s x ch = ground arith

  pub at_res_status_code-IsSound :
      (s : State) (x : Exec User) (ch : ℕ) → IsSound s (at_res_status_code x ch)
  unfolding at_res_status_code
  at_res_status_code-IsSound s x ch = ground arith

  pub at_res_status_start-IsSound :
      (s : State) (p : ℕ) (x : Exec User) (ch : ℕ) → IsSound s (at_res_status_start p x ch)
  unfolding at_res_status_start
  at_res_status_start-IsSound s p x ch = ground arith

  pub at_res_first_http_major-IsSound :
      (s : State) (x : Exec User) (ch : ℕ) → IsSound s (at_res_first_http_major x ch)
  unfolding at_res_first_http_major
  at_res_first_http_major-IsSound s x ch = ground arith

  pub at_req_first_http_major-IsSound :
      (s : State) (x : Exec User) (ch : ℕ) → IsSound s (at_req_first_http_major x ch)
  unfolding at_req_first_http_major
  at_req_first_http_major-IsSound s x ch = ground arith

  pub minor_digit-IsSound : (s : State) (x : Exec User) (ch : ℕ) → IsSound s (minor_digit x ch)
  unfolding minor_digit
  minor_digit-IsSound s x ch = ground arith

  pub at_req_http_start-IsSound :
      (s : State) (x : Exec User) (ch : ℕ) → IsSound s (at_req_http_start x ch)
  unfolding at_req_http_start
  at_req_http_start-IsSound s x ch = ground arith

  pub at_req_line_almost_done-IsSound :
      (s : State) (x : Exec User) (ch : ℕ) → IsSound s (at_req_line_almost_done x ch)
  unfolding at_req_line_almost_done
  at_req_line_almost_done-IsSound s x ch = ground arith

  pub url_char-IsSound : (s : State) (x : Exec User) (ch : ℕ) → IsSound s (url_char x ch)
  unfolding url_char
  url_char-IsSound s x ch = ground arith

  pub at_header_almost_done-IsSound :
      (s : State) (x : Exec User) (ch : ℕ) → IsSound s (at_header_almost_done x ch)
  unfolding at_header_almost_done
  at_header_almost_done-IsSound s x ch = ground arith

  pub at_chunk_size_start-IsSound :
      (s : State) (x : Exec User) (ch : ℕ) → IsSound s (at_chunk_size_start x ch)
  unfolding at_chunk_size_start
  at_chunk_size_start-IsSound s x ch = ground arith

  pub at_chunk_size-IsSound : (s : State) (x : Exec User) (ch : ℕ) → IsSound s (at_chunk_size x ch)
  unfolding at_chunk_size
  at_chunk_size-IsSound s x ch = ground arith

  pub at_chunk_parameters-IsSound :
      (s : State) (x : Exec User) (ch : ℕ) → IsSound s (at_chunk_parameters x ch)
  unfolding at_chunk_parameters
  at_chunk_parameters-IsSound s x ch = ground arith

  pub at_letter-IsSound :
      (s : State) (wanted : ℕ) (next : State) (x : Exec User) (ch : ℕ)
      → IsSound s (at_letter wanted next x ch)
  unfolding at_letter
  at_letter-IsSound s wanted next x ch = ground arith

  pub at_http_major-IsSound :
      (s : State) (dot : State) (x : Exec User) (ch : ℕ) → IsSound s (at_http_major dot x ch)
  unfolding at_http_major
  at_http_major-IsSound s dot x ch = ground arith

  pub at_first_http_minor-IsSound :
      (s : State) (next : State) (x : Exec User) (ch : ℕ)
      → IsSound s (at_first_http_minor next x ch)
  unfolding at_first_http_minor
  at_first_http_minor-IsSound s next x ch = ground arith

  pub at_res_http_minor-IsSound :
      (s : State) (x : Exec User) (ch : ℕ) → IsSound s (at_res_http_minor x ch)
  unfolding at_res_http_minor
  at_res_http_minor-IsSound s x ch = let digit = minor_digit-IsSound s x ch in ground arith

  pub at_req_http_minor-IsSound :
      (s : State) (x : Exec User) (ch : ℕ) → IsSound s (at_req_http_minor x ch)
  unfolding at_req_http_minor
  at_req_http_minor-IsSound s x ch = let digit = minor_digit-IsSound s x ch in ground arith

  pub method_step-IsSound :
      (s : State) (x : Exec User) (m : MethodStep) → IsSound s (method_step x m)
  method_step-IsSound s x invalid = tt
  method_step-IsSound s x finished = tt
  method_step-IsSound s x (onward m) = tt

  pub at_req_method-IsSound : (s : State) (x : Exec User) (ch : ℕ) → IsSound s (at_req_method x ch)
  unfolding at_req_method
  at_req_method-IsSound s x ch =
      method_step-IsSound s x (method_char x.parser.method x.parser.index ch)

  pub at_req_spaces_before_url-IsSound :
      (s : State) (p : ℕ) (x : Exec User) (ch : ℕ) → IsSound s (at_req_spaces_before_url p x ch)
  unfolding at_req_spaces_before_url
  at_req_spaces_before_url-IsSound s p x ch = elim (Bool-cases (ch == 0x20)) [
    | inl e ↦ rw e tt
    | inr e ↦ rw e (url_char-IsSound s _ ch)
  ]

  pub at_req_schema-IsSound : (s : State) (x : Exec User) (ch : ℕ) → IsSound s (at_req_schema x ch)
  unfolding at_req_schema
  at_req_schema-IsSound s x ch = let url = url_char-IsSound s x ch in ground arith

  pub at_header_field_start-IsSound :
      (p : ℕ) (x : Exec User) (ch : ℕ) → IsSound header_field_start (at_header_field_start p x ch)
  unfolding at_header_field_start
  at_header_field_start-IsSound p x ch = ground arith

  pub at_header_value_lws-IsSound :
      (x : Exec User) (ch : ℕ) → IsSound header_value_lws (at_header_value_lws x ch)
  unfolding at_header_value_lws
  at_header_value_lws-IsSound x ch = ground arith

  pub begin_value-IsSound :
      (s : State) (h : HeaderState) (x : Exec User) (ch : ℕ) → IsSound s (begin_value h x ch)
  unfolding begin_value
  begin_value-IsSound s h_content_length x ch = ground arith
  begin_value-IsSound s h x ch = tt

  pub at_header_value_start-IsSound :
      (s : State) (p : ℕ) (x : Exec User) (ch : ℕ) → IsSound s (at_header_value_start p x ch)
  unfolding at_header_value_start
  at_header_value_start-IsSound s p x ch = begin_value-IsSound s x.parser.header_state _ ch

  pub at_header_value_discard_ws-IsSound :
      (s : State) (p : ℕ) (x : Exec User) (ch : ℕ) → IsSound s (at_header_value_discard_ws p x ch)
  unfolding at_header_value_discard_ws
  at_header_value_discard_ws-IsSound s p x ch =
      let start = at_header_value_start-IsSound s p x ch in ground arith
