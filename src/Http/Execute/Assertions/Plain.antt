-- ===== src/Http/Execute/Assertions/Plain.antt =====
-- The cases of `http_parser_execute` of http_parser.c that only move on.
use jia_tuan_server.Common.{◌≡◌, true, ℕ, arith}
use jia_tuan_server.Http.State.{State}
use jia_tuan_server.Http.Execute.Macros.{Exec}
use jia_tuan_server.Http.Execute.Start.{at_dead, at_res_or_resp_h}
use jia_tuan_server.Http.Execute.Version.{
  at_letter, at_res_first_http_major, at_req_first_http_major, at_http_major, at_first_http_minor,
  minor_digit, at_res_http_minor, at_req_http_minor, at_req_http_start, at_req_line_almost_done,
}
use jia_tuan_server.Http.Execute.Headers.{at_header_almost_done, at_header_value_lws}
use jia_tuan_server.Http.Execute.Line.{at_res_first_status_code, at_res_status_code}
use jia_tuan_server.Http.Execute.Assertions.Fit.{is_plain}
use jia_tuan_server.Http.Execute.Assertions.Safe.{IsQuiet}

module _ {User : Type 0} where
  pub at_dead-IsQuiet : (x : Exec User) (ch : ℕ) → is_plain x.at ≡ true → IsQuiet x (at_dead x ch)
  unfolding at_dead
  at_dead-IsQuiet x ch p0 = ground arith

  pub at_res_or_resp_h-IsQuiet :
      (x : Exec User) (ch : ℕ) → is_plain x.at ≡ true → IsQuiet x (at_res_or_resp_h x ch)
  unfolding at_res_or_resp_h
  at_res_or_resp_h-IsQuiet x ch p0 = ground arith

  pub at_res_first_status_code-IsQuiet :
      (x : Exec User) (ch : ℕ) → is_plain x.at ≡ true → IsQuiet x (at_res_first_status_code x ch)
  unfolding at_res_first_status_code
  at_res_first_status_code-IsQuiet x ch p0 = ground arith

  pub at_res_status_code-IsQuiet :
      (x : Exec User) (ch : ℕ) → is_plain x.at ≡ true → IsQuiet x (at_res_status_code x ch)
  unfolding at_res_status_code
  at_res_status_code-IsQuiet x ch p0 = ground arith

  pub at_res_first_http_major-IsQuiet :
      (x : Exec User) (ch : ℕ) → is_plain x.at ≡ true → IsQuiet x (at_res_first_http_major x ch)
  unfolding at_res_first_http_major
  at_res_first_http_major-IsQuiet x ch p0 = ground arith

  pub at_req_first_http_major-IsQuiet :
      (x : Exec User) (ch : ℕ) → is_plain x.at ≡ true → IsQuiet x (at_req_first_http_major x ch)
  unfolding at_req_first_http_major
  at_req_first_http_major-IsQuiet x ch p0 = ground arith

  pub minor_digit-IsQuiet :
      (x : Exec User) (ch : ℕ) → is_plain x.at ≡ true → IsQuiet x (minor_digit x ch)
  unfolding minor_digit
  minor_digit-IsQuiet x ch p0 = ground arith

  pub at_req_http_start-IsQuiet :
      (x : Exec User) (ch : ℕ) → is_plain x.at ≡ true → IsQuiet x (at_req_http_start x ch)
  unfolding at_req_http_start
  at_req_http_start-IsQuiet x ch p0 = ground arith

  pub at_req_line_almost_done-IsQuiet :
      (x : Exec User) (ch : ℕ) → is_plain x.at ≡ true → IsQuiet x (at_req_line_almost_done x ch)
  unfolding at_req_line_almost_done
  at_req_line_almost_done-IsQuiet x ch p0 = ground arith

  pub at_header_almost_done-IsQuiet :
      (x : Exec User) (ch : ℕ) → is_plain x.at ≡ true → IsQuiet x (at_header_almost_done x ch)
  unfolding at_header_almost_done
  at_header_almost_done-IsQuiet x ch p0 = ground arith

  pub at_header_value_lws-IsQuiet :
      (x : Exec User) (ch : ℕ) → is_plain x.at ≡ true → IsQuiet x (at_header_value_lws x ch)
  unfolding at_header_value_lws
  at_header_value_lws-IsQuiet x ch p0 = ground arith

  pub at_letter-IsQuiet :
      (wanted : ℕ) (next : State) (x : Exec User) (ch : ℕ)
      → is_plain next ≡ true
      → IsQuiet x (at_letter wanted next x ch)
  unfolding at_letter
  at_letter-IsQuiet wanted next x ch p0 = ground arith

  pub at_http_major-IsQuiet :
      (dot : State) (x : Exec User) (ch : ℕ)
      → is_plain x.at ≡ true
      → is_plain dot ≡ true
      → IsQuiet x (at_http_major dot x ch)
  unfolding at_http_major
  at_http_major-IsQuiet dot x ch p0 p1 = ground arith

  pub at_first_http_minor-IsQuiet :
      (next : State) (x : Exec User) (ch : ℕ)
      → is_plain next ≡ true
      → IsQuiet x (at_first_http_minor next x ch)
  unfolding at_first_http_minor
  at_first_http_minor-IsQuiet next x ch p0 = ground arith

  pub at_res_http_minor-IsQuiet :
      (x : Exec User) (ch : ℕ) → is_plain x.at ≡ true → IsQuiet x (at_res_http_minor x ch)
  unfolding at_res_http_minor minor_digit
  at_res_http_minor-IsQuiet x ch p0 = ground arith

  pub at_req_http_minor-IsQuiet :
      (x : Exec User) (ch : ℕ) → is_plain x.at ≡ true → IsQuiet x (at_req_http_minor x ch)
  unfolding at_req_http_minor minor_digit
  at_req_http_minor-IsQuiet x ch p0 = ground arith
