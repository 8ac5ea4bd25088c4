-- ===== src/Http/Execute/Assertions/Dispatch.antt =====
-- The `switch` of `http_parser_execute` of http_parser.c fails no assertion.
use jia_tuan_server.Common.{ℕ, ◌≡◌, refl, ◌∷◌, Bytes}
use jia_tuan_server.Http.State.{State}
use jia_tuan_server.Http.Execute.Macros.{Settings, Exec}
use jia_tuan_server.Http.Execute.{dispatch}
use jia_tuan_server.Http.Execute.Field.{name_loop, at_header_field}
use jia_tuan_server.Http.Execute.Value.Scan.{value_loop}
use jia_tuan_server.Http.Execute.Value.{at_header_value}
use jia_tuan_server.Http.Execute.Assertions.Fit.{IsOk, IsFit, Only, owner}
use jia_tuan_server.Http.Execute.Assertions.Safe.{IsSafe, IsPassive, quiet-IsSafe}
use jia_tuan_server.Http.Execute.Assertions.Plain.{
  at_letter-IsQuiet, at_http_major-IsQuiet, at_first_http_minor-IsQuiet, at_dead-IsQuiet,
  at_header_almost_done-IsQuiet, at_header_value_lws-IsQuiet, at_req_first_http_major-IsQuiet,
  at_req_http_minor-IsQuiet, at_req_http_start-IsQuiet, at_req_line_almost_done-IsQuiet,
  at_res_first_http_major-IsQuiet, at_res_first_status_code-IsQuiet, at_res_http_minor-IsQuiet,
  at_res_or_resp_h-IsQuiet, at_res_status_code-IsQuiet,
}
use jia_tuan_server.Http.Execute.Assertions.Names.{
  at_req_method-IsSafe, at_res_status_start-IsSafe, at_req_spaces_before_url-IsSafe,
  at_req_schema-IsSafe, at_header_field_start-IsSafe, name_loop-IsNameEnd,
}
use jia_tuan_server.Http.Execute.Assertions.Values.{
  at_header_value_discard_ws-IsSafe, at_header_value_start-IsSafe,
  at_header_value_discard_lws-IsSafe, value_step-IsSafe, value_loop-IsValueEnd,
}
use jia_tuan_server.Http.Execute.Assertions.Calls.{
  at_start_req_or_res-IsSafe, at_start_res-IsSafe, at_start_req-IsSafe, at_res_status-IsSafe,
  at_req_url-IsSafe, name_step-IsSafe,
}
use jia_tuan_server.Http.Execute.Assertions.Bodies.{
  at_headers_almost_done-IsSafe, at_headers_done-IsSafe, at_message_done-IsSafe,
  at_body_identity-IsSafe, at_body_identity_eof-IsSafe,
}
use jia_tuan_server.Http.Execute.Assertions.Chunks.{
  at_chunk_size_start-IsSafe, at_chunk_size-IsSafe, at_chunk_parameters-IsSafe,
  at_chunk_size_almost_done-IsSafe, at_chunk_data_done-IsSafe, at_chunk_data-IsSafe,
  at_chunk_data_almost_done-IsSafe,
}

module _ (st : Settings) (passive : IsPassive st) where
  open st use {User}

  pub dispatch-IsSafe :
      (buf : Bytes) (s : State) (p : ℕ) (x : Exec User) (ch : ℕ) (rest : Bytes)
      → IsOk x.parser
      → x.at ≡ s
      → IsFit 1 s x.parser
      → Only (owner s) x.mark
      → IsSafe (dispatch st buf s p x ch rest).step
  unfolding dispatch at_header_field at_header_value
  dispatch-IsSafe buf State.dead p x ch rest ok at' fit only =
      quiet-IsSafe x _ ok only (at_dead-IsQuiet x ch (rw at' refl))
  dispatch-IsSafe buf State.start_req_or_res p x ch rest ok at' fit only =
      at_start_req_or_res-IsSafe st passive x ch ok (rw at' refl) only
  dispatch-IsSafe buf State.res_or_resp_h p x ch rest ok at' fit only =
      quiet-IsSafe x _ ok only (at_res_or_resp_h-IsQuiet x ch (rw at' refl))
  dispatch-IsSafe buf State.start_res p x ch rest ok at' fit only =
      at_start_res-IsSafe st passive x ch ok (rw at' refl) only
  dispatch-IsSafe buf State.res_h p x ch rest ok at' fit only =
      quiet-IsSafe x _ ok only (at_letter-IsQuiet b'T' State.res_ht x ch refl)
  dispatch-IsSafe buf State.res_ht p x ch rest ok at' fit only =
      quiet-IsSafe x _ ok only (at_letter-IsQuiet b'T' State.res_htt x ch refl)
  dispatch-IsSafe buf State.res_htt p x ch rest ok at' fit only =
      quiet-IsSafe x _ ok only (at_letter-IsQuiet b'P' State.res_http x ch refl)
  dispatch-IsSafe buf State.res_http p x ch rest ok at' fit only =
      quiet-IsSafe x _ ok only (at_letter-IsQuiet b'/' State.res_first_http_major x ch refl)
  dispatch-IsSafe buf State.res_first_http_major p x ch rest ok at' fit only =
      quiet-IsSafe x _ ok only (at_res_first_http_major-IsQuiet x ch (rw at' refl))
  dispatch-IsSafe buf State.res_http_major p x ch rest ok at' fit only =
      quiet-IsSafe x _ ok only
        (at_http_major-IsQuiet State.res_first_http_minor x ch (rw at' refl) refl)
  dispatch-IsSafe buf State.res_first_http_minor p x ch rest ok at' fit only =
      quiet-IsSafe x _ ok only (at_first_http_minor-IsQuiet State.res_http_minor x ch refl)
  dispatch-IsSafe buf State.res_http_minor p x ch rest ok at' fit only =
      quiet-IsSafe x _ ok only (at_res_http_minor-IsQuiet x ch (rw at' refl))
  dispatch-IsSafe buf State.res_first_status_code p x ch rest ok at' fit only =
      quiet-IsSafe x _ ok only (at_res_first_status_code-IsQuiet x ch (rw at' refl))
  dispatch-IsSafe buf State.res_status_code p x ch rest ok at' fit only =
      quiet-IsSafe x _ ok only (at_res_status_code-IsQuiet x ch (rw at' refl))
  dispatch-IsSafe buf State.res_status_start p x ch rest ok at' fit only =
      at_res_status_start-IsSafe p x ch ok only
  dispatch-IsSafe buf State.res_status p x ch rest ok at' fit only =
      at_res_status-IsSafe st passive buf p x ch (ok, rw at' tt, rw at' only) only
  dispatch-IsSafe buf State.res_line_almost_done p x ch rest ok at' fit only =
      quiet-IsSafe x _ ok only (at_letter-IsQuiet 0x0a State.header_field_start x ch refl)
  dispatch-IsSafe buf State.start_req p x ch rest ok at' fit only =
      at_start_req-IsSafe st passive x ch ok (rw at' refl) only
  dispatch-IsSafe buf State.req_method p x ch rest ok at' fit only =
      at_req_method-IsSafe x ch ok (rw at' refl) only
  dispatch-IsSafe buf State.req_spaces_before_url p x ch rest ok at' fit only =
      at_req_spaces_before_url-IsSafe p x ch ok (rw at' refl) only
  dispatch-IsSafe buf State.req_schema p x ch rest ok at' fit only =
      at_req_schema-IsSafe x ch ok only
  dispatch-IsSafe buf State.req_schema_slash p x ch rest ok at' fit only =
      at_req_schema-IsSafe x ch ok only
  dispatch-IsSafe buf State.req_schema_slash_slash p x ch rest ok at' fit only =
      at_req_schema-IsSafe x ch ok only
  dispatch-IsSafe buf State.req_server_start p x ch rest ok at' fit only =
      at_req_schema-IsSafe x ch ok only
  dispatch-IsSafe buf State.req_server p x ch rest ok at' fit only =
      at_req_url-IsSafe st passive buf p x ch ok only
  dispatch-IsSafe buf State.req_server_with_at p x ch rest ok at' fit only =
      at_req_url-IsSafe st passive buf p x ch ok only
  dispatch-IsSafe buf State.req_path p x ch rest ok at' fit only =
      at_req_url-IsSafe st passive buf p x ch ok only
  dispatch-IsSafe buf State.req_query_string_start p x ch rest ok at' fit only =
      at_req_url-IsSafe st passive buf p x ch ok only
  dispatch-IsSafe buf State.req_query_string p x ch rest ok at' fit only =
      at_req_url-IsSafe st passive buf p x ch ok only
  dispatch-IsSafe buf State.req_fragment_start p x ch rest ok at' fit only =
      at_req_url-IsSafe st passive buf p x ch ok only
  dispatch-IsSafe buf State.req_fragment p x ch rest ok at' fit only =
      at_req_url-IsSafe st passive buf p x ch ok only
  dispatch-IsSafe buf State.req_http_start p x ch rest ok at' fit only =
      quiet-IsSafe x _ ok only (at_req_http_start-IsQuiet x ch (rw at' refl))
  dispatch-IsSafe buf State.req_http_h p x ch rest ok at' fit only =
      quiet-IsSafe x _ ok only (at_letter-IsQuiet b'T' State.req_http_ht x ch refl)
  dispatch-IsSafe buf State.req_http_ht p x ch rest ok at' fit only =
      quiet-IsSafe x _ ok only (at_letter-IsQuiet b'T' State.req_http_htt x ch refl)
  dispatch-IsSafe buf State.req_http_htt p x ch rest ok at' fit only =
      quiet-IsSafe x _ ok only (at_letter-IsQuiet b'P' State.req_http_http x ch refl)
  dispatch-IsSafe buf State.req_http_http p x ch rest ok at' fit only =
      quiet-IsSafe x _ ok only (at_letter-IsQuiet b'/' State.req_first_http_major x ch refl)
  dispatch-IsSafe buf State.req_first_http_major p x ch rest ok at' fit only =
      quiet-IsSafe x _ ok only (at_req_first_http_major-IsQuiet x ch (rw at' refl))
  dispatch-IsSafe buf State.req_http_major p x ch rest ok at' fit only =
      quiet-IsSafe x _ ok only
        (at_http_major-IsQuiet State.req_first_http_minor x ch (rw at' refl) refl)
  dispatch-IsSafe buf State.req_first_http_minor p x ch rest ok at' fit only =
      quiet-IsSafe x _ ok only (at_first_http_minor-IsQuiet State.req_http_minor x ch refl)
  dispatch-IsSafe buf State.req_http_minor p x ch rest ok at' fit only =
      quiet-IsSafe x _ ok only (at_req_http_minor-IsQuiet x ch (rw at' refl))
  dispatch-IsSafe buf State.req_line_almost_done p x ch rest ok at' fit only =
      quiet-IsSafe x _ ok only (at_req_line_almost_done-IsQuiet x ch (rw at' refl))
  dispatch-IsSafe buf State.header_field_start p x ch rest ok at' fit only =
      at_header_field_start-IsSafe p x ch ok only
  dispatch-IsSafe buf State.header_field p x ch rest ok at' fit only =
      name_step-IsSafe st passive buf p x ch
        (name_loop (ch ∷ rest) 0 x.parser.header_state x.parser.index) ok at' only
        (name_loop-IsNameEnd (ch ∷ rest) 0 x.parser.header_state x.parser.index fit)
  dispatch-IsSafe buf State.header_value_discard_ws p x ch rest ok at' fit only =
      at_header_value_discard_ws-IsSafe p x ch ok (rw at' refl) only
  dispatch-IsSafe buf State.header_value_discard_ws_almost_done p x ch rest ok at' fit only =
      quiet-IsSafe x _ ok only (at_letter-IsQuiet 0x0a State.header_value_discard_lws x ch refl)
  dispatch-IsSafe buf State.header_value_discard_lws p x ch rest ok at' fit only =
      at_header_value_discard_lws-IsSafe st passive buf p x ch ok only
  dispatch-IsSafe buf State.header_value_start p x ch rest ok at' fit only =
      at_header_value_start-IsSafe p x ch ok only
  dispatch-IsSafe buf State.header_value p x ch rest ok at' fit only =
      value_step-IsSafe st passive buf p x ch
        (value_loop 0 (ch ∷ rest) 0 x.parser.header_state x.parser) ok at' only
        (value_loop-IsValueEnd 0 (ch ∷ rest) 0 x.parser.header_state x.parser fit ok)
  dispatch-IsSafe buf State.header_value_lws p x ch rest ok at' fit only =
      quiet-IsSafe x _ ok only (at_header_value_lws-IsQuiet x ch (rw at' refl))
  dispatch-IsSafe buf State.header_almost_done p x ch rest ok at' fit only =
      quiet-IsSafe x _ ok only (at_header_almost_done-IsQuiet x ch (rw at' refl))
  dispatch-IsSafe buf State.chunk_size_start p x ch rest ok at' fit only =
      at_chunk_size_start-IsSafe x ch ok fit only
  dispatch-IsSafe buf State.chunk_size p x ch rest ok at' fit only =
      at_chunk_size-IsSafe x ch ok at' fit only
  dispatch-IsSafe buf State.chunk_parameters p x ch rest ok at' fit only =
      at_chunk_parameters-IsSafe x ch ok at' fit only
  dispatch-IsSafe buf State.chunk_size_almost_done p x ch rest ok at' fit only =
      at_chunk_size_almost_done-IsSafe st passive buf x ch ok fit only
  dispatch-IsSafe buf State.headers_almost_done p x ch rest ok at' fit only =
      at_headers_almost_done-IsSafe st passive buf x ch ok only
  dispatch-IsSafe buf State.headers_done p x ch rest ok at' fit only =
      at_headers_done-IsSafe st passive buf x ch ok only
  dispatch-IsSafe buf State.chunk_data p x ch rest ok at' fit only =
      at_chunk_data-IsSafe p x ch rest ok at' fit only
  dispatch-IsSafe buf State.chunk_data_almost_done p x ch rest ok at' fit only =
      at_chunk_data_almost_done-IsSafe st passive buf p x ch ok fit only
  dispatch-IsSafe buf State.chunk_data_done p x ch rest ok at' fit only =
      at_chunk_data_done-IsSafe st passive buf x ch ok fit only
  dispatch-IsSafe buf State.body_identity p x ch rest ok at' fit only =
      at_body_identity-IsSafe st passive buf p x ch rest ok at' fit only
  dispatch-IsSafe buf State.body_identity_eof p x ch rest ok at' fit only =
      at_body_identity_eof-IsSafe p x ch rest ok at' only
  dispatch-IsSafe buf State.message_done p x ch rest ok at' fit only =
      at_message_done-IsSafe st passive buf x ch ok only
