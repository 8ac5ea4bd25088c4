-- ===== src/Http/Execute/Sound/Dispatch.antt =====
-- The `switch` of `http_parser_execute` of http_parser.c.
use jia_tuan_server.Common.{ℕ, ◌∷◌, Bytes}
use jia_tuan_server.Http.State.{State}
use jia_tuan_server.Http.Execute.Macros.{Settings, Exec}
use jia_tuan_server.Http.Execute.Value.{at_header_value}
use jia_tuan_server.Http.Execute.Value.Scan.{value_loop}
use jia_tuan_server.Http.Execute.Field.{name_loop, at_header_field}
use jia_tuan_server.Http.Execute.Body.{at_body_identity_eof}
use jia_tuan_server.Http.Execute.{dispatch}
use jia_tuan_server.Http.Execute.Sound.{Steady, IsSound}
use jia_tuan_server.Http.Execute.Sound.Cases.{
  at_chunk_parameters-IsSound, at_chunk_size-IsSound, at_chunk_size_start-IsSound, at_dead-IsSound,
  at_first_http_minor-IsSound, at_header_almost_done-IsSound, at_header_field_start-IsSound,
  at_header_value_discard_ws-IsSound, at_header_value_lws-IsSound, at_header_value_start-IsSound,
  at_http_major-IsSound, at_letter-IsSound, at_req_first_http_major-IsSound,
  at_req_http_minor-IsSound, at_req_http_start-IsSound, at_req_line_almost_done-IsSound,
  at_req_method-IsSound, at_req_schema-IsSound, at_req_spaces_before_url-IsSound,
  at_res_first_http_major-IsSound, at_res_first_status_code-IsSound, at_res_http_minor-IsSound,
  at_res_or_resp_h-IsSound, at_res_status_code-IsSound, at_res_status_start-IsSound,
}
use jia_tuan_server.Http.Execute.Sound.Calls.{
  at_req_url-IsSound, at_res_status-IsSound, at_start_req-IsSound, at_start_req_or_res-IsSound,
  at_start_res-IsSound, name_step-IsSound, value_step-IsSound,
}
use jia_tuan_server.Http.Execute.Sound.Bodies.{
  at_body_identity-IsSound, at_chunk_data-IsSound, at_chunk_data_almost_done-IsSound,
  at_chunk_data_done-IsSound, at_chunk_size_almost_done-IsSound,
  at_header_value_discard_lws-IsSound, at_headers_almost_done-IsSound, at_headers_done-IsSound,
  at_message_done-IsSound,
}

module _ (st : Settings) (steady : Steady st) where
  open st use {User}

  pub dispatch-IsSound :
      (buf : Bytes) (s : State) (p : ℕ) (x : Exec User) (ch : ℕ) (rest : Bytes)
      → IsSound s (dispatch st buf s p x ch rest).step
  unfolding dispatch at_header_field at_header_value at_body_identity_eof
  dispatch-IsSound buf State.dead p x ch rest = at_dead-IsSound State.dead x ch
  dispatch-IsSound buf State.start_req_or_res p x ch rest =
      at_start_req_or_res-IsSound st steady x ch
  dispatch-IsSound buf State.res_or_resp_h p x ch rest =
      at_res_or_resp_h-IsSound State.res_or_resp_h x ch
  dispatch-IsSound buf State.start_res p x ch rest =
      at_start_res-IsSound st steady State.start_res x ch
  dispatch-IsSound buf State.res_h p x ch rest =
      at_letter-IsSound State.res_h b'T' State.res_ht x ch
  dispatch-IsSound buf State.res_ht p x ch rest =
      at_letter-IsSound State.res_ht b'T' State.res_htt x ch
  dispatch-IsSound buf State.res_htt p x ch rest =
      at_letter-IsSound State.res_htt b'P' State.res_http x ch
  dispatch-IsSound buf State.res_http p x ch rest =
      at_letter-IsSound State.res_http b'/' State.res_first_http_major x ch
  dispatch-IsSound buf State.res_first_http_major p x ch rest =
      at_res_first_http_major-IsSound State.res_first_http_major x ch
  dispatch-IsSound buf State.res_http_major p x ch rest =
      at_http_major-IsSound State.res_http_major State.res_first_http_minor x ch
  dispatch-IsSound buf State.res_first_http_minor p x ch rest =
      at_first_http_minor-IsSound State.res_first_http_minor State.res_http_minor x ch
  dispatch-IsSound buf State.res_http_minor p x ch rest =
      at_res_http_minor-IsSound State.res_http_minor x ch
  dispatch-IsSound buf State.res_first_status_code p x ch rest =
      at_res_first_status_code-IsSound State.res_first_status_code x ch
  dispatch-IsSound buf State.res_status_code p x ch rest =
      at_res_status_code-IsSound State.res_status_code x ch
  dispatch-IsSound buf State.res_status_start p x ch rest =
      at_res_status_start-IsSound State.res_status_start p x ch
  dispatch-IsSound buf State.res_status p x ch rest =
      at_res_status-IsSound st steady State.res_status buf p x ch
  dispatch-IsSound buf State.res_line_almost_done p x ch rest =
      at_letter-IsSound State.res_line_almost_done 0x0a State.header_field_start x ch
  dispatch-IsSound buf State.start_req p x ch rest =
      at_start_req-IsSound st steady State.start_req x ch
  dispatch-IsSound buf State.req_method p x ch rest = at_req_method-IsSound State.req_method x ch
  dispatch-IsSound buf State.req_spaces_before_url p x ch rest =
      at_req_spaces_before_url-IsSound State.req_spaces_before_url p x ch
  dispatch-IsSound buf State.req_schema p x ch rest = at_req_schema-IsSound State.req_schema x ch
  dispatch-IsSound buf State.req_schema_slash p x ch rest =
      at_req_schema-IsSound State.req_schema_slash x ch
  dispatch-IsSound buf State.req_schema_slash_slash p x ch rest =
      at_req_schema-IsSound State.req_schema_slash_slash x ch
  dispatch-IsSound buf State.req_server_start p x ch rest =
      at_req_schema-IsSound State.req_server_start x ch
  dispatch-IsSound buf State.req_server p x ch rest =
      at_req_url-IsSound st steady State.req_server buf p x ch
  dispatch-IsSound buf State.req_server_with_at p x ch rest =
      at_req_url-IsSound st steady State.req_server_with_at buf p x ch
  dispatch-IsSound buf State.req_path p x ch rest =
      at_req_url-IsSound st steady State.req_path buf p x ch
  dispatch-IsSound buf State.req_query_string_start p x ch rest =
      at_req_url-IsSound st steady State.req_query_string_start buf p x ch
  dispatch-IsSound buf State.req_query_string p x ch rest =
      at_req_url-IsSound st steady State.req_query_string buf p x ch
  dispatch-IsSound buf State.req_fragment_start p x ch rest =
      at_req_url-IsSound st steady State.req_fragment_start buf p x ch
  dispatch-IsSound buf State.req_fragment p x ch rest =
      at_req_url-IsSound st steady State.req_fragment buf p x ch
  dispatch-IsSound buf State.req_http_start p x ch rest =
      at_req_http_start-IsSound State.req_http_start x ch
  dispatch-IsSound buf State.req_http_h p x ch rest =
      at_letter-IsSound State.req_http_h b'T' State.req_http_ht x ch
  dispatch-IsSound buf State.req_http_ht p x ch rest =
      at_letter-IsSound State.req_http_ht b'T' State.req_http_htt x ch
  dispatch-IsSound buf State.req_http_htt p x ch rest =
      at_letter-IsSound State.req_http_htt b'P' State.req_http_http x ch
  dispatch-IsSound buf State.req_http_http p x ch rest =
      at_letter-IsSound State.req_http_http b'/' State.req_first_http_major x ch
  dispatch-IsSound buf State.req_first_http_major p x ch rest =
      at_req_first_http_major-IsSound State.req_first_http_major x ch
  dispatch-IsSound buf State.req_http_major p x ch rest =
      at_http_major-IsSound State.req_http_major State.req_first_http_minor x ch
  dispatch-IsSound buf State.req_first_http_minor p x ch rest =
      at_first_http_minor-IsSound State.req_first_http_minor State.req_http_minor x ch
  dispatch-IsSound buf State.req_http_minor p x ch rest =
      at_req_http_minor-IsSound State.req_http_minor x ch
  dispatch-IsSound buf State.req_line_almost_done p x ch rest =
      at_req_line_almost_done-IsSound State.req_line_almost_done x ch
  dispatch-IsSound buf State.header_field_start p x ch rest = at_header_field_start-IsSound p x ch
  dispatch-IsSound buf State.header_field p x ch rest =
      name_step-IsSound st steady State.header_field buf p x ch
        (name_loop (ch ∷ rest) 0 x.parser.header_state x.parser.index)
  dispatch-IsSound buf State.header_value_discard_ws p x ch rest =
      at_header_value_discard_ws-IsSound State.header_value_discard_ws p x ch
  dispatch-IsSound buf State.header_value_discard_ws_almost_done p x ch rest =
      at_letter-IsSound State.header_value_discard_ws_almost_done 0x0a
        State.header_value_discard_lws x ch
  dispatch-IsSound buf State.header_value_discard_lws p x ch rest =
      at_header_value_discard_lws-IsSound st steady buf p x ch
  dispatch-IsSound buf State.header_value_start p x ch rest =
      at_header_value_start-IsSound State.header_value_start p x ch
  dispatch-IsSound buf State.header_value p x ch rest =
      value_step-IsSound st steady buf p x ch
        (value_loop 0 (ch ∷ rest) 0 x.parser.header_state x.parser)
  dispatch-IsSound buf State.header_value_lws p x ch rest = at_header_value_lws-IsSound x ch
  dispatch-IsSound buf State.header_almost_done p x ch rest =
      at_header_almost_done-IsSound State.header_almost_done x ch
  dispatch-IsSound buf State.chunk_size_start p x ch rest =
      at_chunk_size_start-IsSound State.chunk_size_start x ch
  dispatch-IsSound buf State.chunk_size p x ch rest = at_chunk_size-IsSound State.chunk_size x ch
  dispatch-IsSound buf State.chunk_parameters p x ch rest =
      at_chunk_parameters-IsSound State.chunk_parameters x ch
  dispatch-IsSound buf State.chunk_size_almost_done p x ch rest =
      at_chunk_size_almost_done-IsSound st steady State.chunk_size_almost_done buf x ch
  dispatch-IsSound buf State.headers_almost_done p x ch rest =
      at_headers_almost_done-IsSound st steady buf x ch
  dispatch-IsSound buf State.headers_done p x ch rest =
      at_headers_done-IsSound st steady State.headers_done buf x ch
  dispatch-IsSound buf State.chunk_data p x ch rest =
      at_chunk_data-IsSound st steady State.chunk_data p x ch rest
  dispatch-IsSound buf State.chunk_data_almost_done p x ch rest =
      at_chunk_data_almost_done-IsSound st steady State.chunk_data_almost_done buf p x ch
  dispatch-IsSound buf State.chunk_data_done p x ch rest =
      at_chunk_data_done-IsSound st steady State.chunk_data_done buf x ch
  dispatch-IsSound buf State.body_identity p x ch rest =
      at_body_identity-IsSound st steady buf p x ch rest
  dispatch-IsSound buf State.body_identity_eof p x ch rest = tt
  dispatch-IsSound buf State.message_done p x ch rest =
      at_message_done-IsSound st steady State.message_done buf x ch
