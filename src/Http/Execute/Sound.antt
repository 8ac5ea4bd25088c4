-- ===== src/Http/Execute/Sound.antt =====
-- How the cases of `http_parser_execute` of http_parser.c end.
pub mod Cases
pub mod Calls
pub mod Bodies
pub mod Dispatch
use Prim.Native.Nat.{min}
use jia_tuan_server.Common.{
  pos, negsuc, length, ◌||◌, ◌&&◌, ℕ, zero, suc, ◌+◌, ◌-◌, ◌%◌, ◌^◌, ◌≤◌, ◌<◌, ◌≡◌, ◌⊎◌, refl, sym,
  ap, subst, Bool, true, false, Option, none, some, List, [], ◌∷◌, if◌then◌else◌, ◌==◌, ltb, leb,
  arith, Bytes, take, drop, ◌∙◌, Bool-cases, inl, inr, Option-cases, ℤ,
}
use jia_tuan_server.Http.State.{
  State, header_value_discard_lws, header_value_lws, header_field_start, headers_almost_done,
  body_identity, start_req_or_res,
}
use jia_tuan_server.Http.State
use jia_tuan_server.Http.Parser.{HttpParser, HttpErrno, HeaderState, h_content_length, hpe_ok}
use jia_tuan_server.Http.Execute.Macros
use jia_tuan_server.Http.Execute.Macros.{
  message_begin, to, message_complete, chunk_header, chunk_complete, headers_complete, url, status,
  header_field, header_value, body, with_parser, mark_at, Notify, DataField, Settings, Exec, Step,
  Jump, go, again, fail, leave, abort, is_ok, is_zero, after_call, returned_from, notify_errno,
  data_errno, notify, data_call, unmark, strict, count_header_size, max_header_size,
}
use jia_tuan_server.Http.Execute.Start.{
  begin_method, fresh, is_line_end, at_dead, at_start_req_or_res, at_res_or_resp_h, at_start_res,
  at_start_req, at_req_method, method_step,
}
use jia_tuan_server.Http.Method.{first_method, method_char, MethodStep, invalid, finished, onward}
use jia_tuan_server.Http.Execute.Version.{
  at_letter, at_res_first_http_major, at_req_first_http_major, at_http_major, at_first_http_minor,
  minor_digit, at_res_http_minor, at_req_http_minor, at_req_http_start, at_req_line_almost_done,
}
use jia_tuan_server.Http.Execute.Value.{
  at_header_value_discard_ws, at_header_value_start, begin_value, first_element, value_step,
  at_header_value,
}
use jia_tuan_server.Http.Execute.Value.Scan.{
  flag_of, ValueEnd, at_cr, at_lf, at_bad_length, value_loop,
}
use jia_tuan_server.Http.Execute.Value.Scan
use jia_tuan_server.Http.Execute.Field
use jia_tuan_server.Http.Execute.Field.{
  at_header_field_start, name_step, NameEnd, at_char, name_loop, at_header_field,
}
use jia_tuan_server.Http.Execute.Headers.{
  at_header_almost_done, at_header_value_lws, at_header_value_discard_lws, at_headers_almost_done,
  headers_called, framed, Framing, other_protocol, no_body, in_chunks, of_length, until_eof,
  framing, at_headers_done, ok_or_leave, asks_upgrade,
}
use jia_tuan_server.Http.Execute.Body.{
  assert, is_length, with_length, at_body_identity, at_body_identity_eof, at_message_done,
  at_chunk_size_start, at_chunk_size, at_chunk_parameters, at_chunk_size_almost_done, at_chunk_data,
  at_chunk_data_almost_done, at_chunk_data_done, chunk_start, chunk_digit,
}
use jia_tuan_server.Http.Tokens.{unhex}
use jia_tuan_server.Http.Execute.Line.{
  url_char, at_res_first_status_code, at_res_status_code, at_res_status_start, at_res_status,
  at_req_spaces_before_url, at_req_schema, at_req_url,
}

-- How often a state may still be followed by another one at the same byte.
abbrev pub rank : State → ℕ
rank header_value_discard_lws = 3
rank header_value_lws = 3
rank header_field_start = 2
rank headers_almost_done = 1
rank State.header_value = 1
rank body_identity = 1
rank start_req_or_res = 1
rank _ = 0

-- The callbacks leave the members `state` and `upgrade` of the parser as they are. They may pause
-- the parser, and fail.
abbrev pub Steady : Settings → Type 0
Steady st =
    ((f : Notify) (call : HttpParser → st.User → ℤ × HttpParser × st.User)
      → st.on_notify f ≡ some call
      → (r : HttpParser) (u : st.User)
      → ((call r u).1.state ≡ r.state) × ((call r u).1.upgrade ≡ r.upgrade))
    × ((f : DataField) (call : Bytes → HttpParser → st.User → ℤ × HttpParser × st.User)
        → st.on_data f ≡ some call
        → (text : Bytes) (r : HttpParser) (u : st.User)
        → ((call text r u).1.state ≡ r.state) × ((call text r u).1.upgrade ≡ r.upgrade))

upgrade-after_call :
    (e : HttpErrno) (result : ℤ) (r : HttpParser) → (after_call e result r).upgrade ≡ r.upgrade
upgrade-after_call e result r = ground arith

state-after_call :
    (e : HttpErrno) (result : ℤ) (r : HttpParser) → (after_call e result r).state ≡ r.state
state-after_call e result r = ground arith

module _ {User : Type 0} where
  -- REEXECUTE is reached only with a state of a lower rank, and `return` only with an error, a
  -- pause or an upgrade.
  abbrev pub IsSound : State → Step User → Type 0
  IsSound s (go x) = Unit
  IsSound s (again x) = rank x.at < rank s
  IsSound s (fail x) = Unit
  IsSound s (leave advance x) = (is_ok x.parser.http_errno ≡ false) ⊎ (x.parser.upgrade ≡ true)
  IsSound s abort = Unit

  -- The variables that a case goes on with have the state and the upgrade mark of the ones before.
  abbrev pub SameAt : Exec User → Exec User → Type 0
  SameAt x y = (y.at ≡ x.at) × (y.parser.upgrade ≡ x.parser.upgrade)

  pub count_header_size-IsSound :
      (s : State) (n : ℕ) (x : Exec User) (next : Exec User → Step User)
      → ((y : Exec User) → SameAt x y → IsSound s (next y))
      → IsSound s (count_header_size n x next)
  unfolding count_header_size
  count_header_size-IsSound s n x next sound =
      elim (Bool-cases (ltb max_header_size ((x.parser.nread + n) % 2 ^ 32))) [
        | inl e ↦ rw e tt
        | inr e ↦ rw e (sound _ (refl, refl))
      ]

module _ (st : Settings) (steady : Steady st) where
  open st use {User, on_notify, on_data}

  returned_from-IsSound :
      (s : State) (e : HttpErrno) (advance : Bool) (x : Exec User) (result : ℤ) (r : HttpParser)
      (u : User)
      → (next : Exec User → Step User) → (r.state ≡ x.at) × (r.upgrade ≡ x.parser.upgrade)
      → ((y : Exec User) → SameAt x y → IsSound s (next y))
      → IsSound s (returned_from st e advance x (result, r, u) next)
  returned_from-IsSound s e advance x result r u next (same_state, same_upgrade) sound =
      elim (Bool-cases (is_ok (after_call e result r).http_errno)) [
        | inl ok ↦ rw ok (
            sound _ (
              state-after_call e result r ∙ same_state,
              upgrade-after_call e result r ∙ same_upgrade,
            ))
        | inr bad ↦ rw bad (inl bad)
      ]

  pub notify-IsSound :
      (s : State) (f : Notify) (advance : Bool) (x : Exec User) (next : Exec User → Step User)
      → ((y : Exec User) → SameAt x y → IsSound s (next y))
      → IsSound s (notify st f advance x next)
  unfolding notify
  notify-IsSound s f advance x next sound = elim (Bool-cases (is_ok x.parser.http_errno)) [
    | inl ok ↦ elim (Option-cases (on_notify f)) [
      | inl e ↦ rw (ok, e) (sound x (refl, refl))
      | inr (call, e) ↦
          rw (ok, e)
            (let answer = call (record x.parser { state = x.at }) x.user in
              returned_from-IsSound s (notify_errno f) advance x answer.0 answer.1 answer.2 next
                (steady.0 f call e (record x.parser { state = x.at }) x.user) sound)
    ]
    | inr bad ↦ rw bad tt
  ]

  pub data_call-IsSound :
      (s : State) (f : DataField) (buf : Bytes) (end : ℕ) (advance : Bool)
      → (x : Exec User) (next : Exec User → Step User)
      → ((y : Exec User) → SameAt x y → IsSound s (next y))
      → IsSound s (data_call st f buf end advance x next)
  unfolding data_call
  data_call-IsSound s f buf end advance x next sound =
      elim (Bool-cases (is_ok x.parser.http_errno)) [
        | inl ok ↦ elim (Option-cases (x.mark f)) [
          | inl e ↦ rw (ok, e) (sound x (refl, refl))
          | inr (m, e) ↦ elim (Option-cases (on_data f)) [
            | inl d ↦ rw (ok, e, d) (sound (unmark f x) (refl, refl))
            | inr (call, d) ↦
                rw (ok, e, d)
                  (let answer =
                      call (take (end - m) (drop m buf)) (record x.parser { state = x.at })
                        x.user in
                    returned_from-IsSound s (data_errno f) advance x answer.0 answer.1 answer.2
                      (λ y. next (unmark f y))
                      (steady.1 f call d (take (end - m) (drop m buf))
                        (record x.parser { state = x.at }) x.user)
                      (λ y same. sound (unmark f y) same))
          ]
        ]
        | inr bad ↦ rw bad tt
      ]
