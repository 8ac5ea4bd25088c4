-- ===== src/Http/Execute/Sound/Calls.antt =====
-- The cases of `http_parser_execute` of http_parser.c that make callbacks before the end of a header.
use jia_tuan_server.Common.{
  ℕ, ◌+◌, true, false, Option, none, some, ◌==◌, arith, Bytes, Bool-cases, inl, inr,
}
use jia_tuan_server.Http.State.{State, start_req_or_res}
use jia_tuan_server.Http.Execute.Macros.{
  message_begin, url, status, header_field, header_value, with_parser, Settings, Exec, go, again,
}
use jia_tuan_server.Http.Execute.Start.{
  begin_method, fresh, is_line_end, at_start_req_or_res, at_start_res, at_start_req,
}
use jia_tuan_server.Http.Method.{first_method}
use jia_tuan_server.Http.Execute.Value.{value_step}
use jia_tuan_server.Http.Execute.Value.Scan.{
  flag_of, ValueEnd, at_cr, at_lf, at_bad_length, value_loop,
}
use jia_tuan_server.Http.Execute.Value.Scan
use jia_tuan_server.Http.Execute.Field
use jia_tuan_server.Http.Execute.Field.{
  at_header_field_start, name_step, NameEnd, at_char, name_loop, at_header_field,
}
use jia_tuan_server.Http.Execute.Line.{at_res_status, at_req_url}
use jia_tuan_server.Http.Execute.Sound.{
  Steady, IsSound, count_header_size-IsSound, notify-IsSound, data_call-IsSound,
}
use jia_tuan_server.Http.Execute.Sound.Cases.{url_char-IsSound}

module _ (st : Settings) (steady : Steady st) where
  open st use {User, on_notify, on_data}

  pub at_start_req_or_res-IsSound :
      (x : Exec User) (ch : ℕ) → IsSound start_req_or_res (at_start_req_or_res st x ch)
  unfolding at_start_req_or_res
  at_start_req_or_res-IsSound x ch = elim (Bool-cases (is_line_end ch)) [
    | inl e ↦ rw e tt
    | inr e ↦ elim (Bool-cases (ch == b'H')) [
      | inl h ↦
          rw (e, h)
            (notify-IsSound st steady start_req_or_res message_begin true _ go (λ y same. tt))
      | inr h ↦ rw (e, h) (omega arith)
    ]
  ]

  pub at_start_res-IsSound : (s : State) (x : Exec User) (ch : ℕ) → IsSound s (at_start_res st x ch)
  unfolding at_start_res
  at_start_res-IsSound s x ch = elim (Bool-cases (ch == b'H')) [
    | inl h ↦ rw h (notify-IsSound st steady s message_begin true _ go (λ y same. tt))
    | inr h ↦ elim (Bool-cases (is_line_end ch)) [
      | inl e ↦ rw (h, e) (notify-IsSound st steady s message_begin true _ go (λ y same. tt))
      | inr e ↦ rw (h, e) tt
    ]
  ]

  pub begin_method-IsSound :
      (s : State) (x : Exec User) (m : Option ℕ) → IsSound s (begin_method st x m)
  begin_method-IsSound s x none = tt
  begin_method-IsSound s x (some m) =
      notify-IsSound st steady s message_begin true _ go (λ y same. tt)

  pub at_start_req-IsSound : (s : State) (x : Exec User) (ch : ℕ) → IsSound s (at_start_req st x ch)
  unfolding at_start_req
  at_start_req-IsSound s x ch =
      let begun = begin_method-IsSound s (with_parser (fresh x.parser) x) (first_method ch) in
      ground arith

  pub at_res_status-IsSound :
      (s : State) (buf : Bytes) (p : ℕ) (x : Exec User) (ch : ℕ)
      → IsSound s (at_res_status st buf p x ch)
  unfolding at_res_status
  at_res_status-IsSound s buf p x ch = elim (Bool-cases (ch == 0x0d)) [
    | inl e ↦ rw e (data_call-IsSound st steady s status buf p true _ go (λ y same. tt))
    | inr e ↦ elim (Bool-cases (ch == 0x0a)) [
      | inl f ↦ rw (e, f) (data_call-IsSound st steady s status buf p true _ go (λ y same. tt))
      | inr f ↦ rw (e, f) tt
    ]
  ]

  pub at_req_url-IsSound :
      (s : State) (buf : Bytes) (p : ℕ) (x : Exec User) (ch : ℕ)
      → IsSound s (at_req_url st buf p x ch)
  unfolding at_req_url
  at_req_url-IsSound s buf p x ch = elim (Bool-cases (ch == 0x20)) [
    | inl e ↦ rw e (data_call-IsSound st steady s url buf p true _ go (λ y same. tt))
    | inr e ↦ elim (Bool-cases (is_line_end ch)) [
      | inl f ↦ rw (e, f) (data_call-IsSound st steady s url buf p true _ go (λ y same. tt))
      | inr f ↦ rw (e, f) (url_char-IsSound s x ch)
    ]
  ]

  pub name_step-IsSound :
      (s : State) (buf : Bytes) (p : ℕ) (x : Exec User) (ch : ℕ) (e : NameEnd)
      → IsSound s (name_step st buf p x ch e).step
  name_step-IsSound s buf p x ch Field.asserted = tt
  name_step-IsSound s buf p x ch (Field.at_end n h i) =
      count_header_size-IsSound s n _ go (λ y same. tt)
  name_step-IsSound s buf p x ch (at_char last n h i) = count_header_size-IsSound s n _ _ λ y same.
      elim (Bool-cases (last == 0x3a)) [
        | inl e ↦
            rw e (data_call-IsSound st steady s header_field buf (p + n) true _ go (λ z same. tt))
        | inr e ↦ rw e tt
      ]

  pub value_step-IsSound :
      (buf : Bytes) (p : ℕ) (x : Exec User) (ch : ℕ) (e : ValueEnd)
      → IsSound State.header_value (value_step st buf p x ch e).step
  value_step-IsSound buf p x ch Scan.asserted = tt
  value_step-IsSound buf p x ch (Scan.at_end n h r) =
      count_header_size-IsSound State.header_value n _ go (λ y same. tt)
  value_step-IsSound buf p x ch (at_bad_length n h r) = tt
  value_step-IsSound buf p x ch (at_cr n h r) =
      data_call-IsSound st steady State.header_value header_value buf (p + n) true _ _
        λ y same. count_header_size-IsSound State.header_value n _ go (λ y same. tt)
  value_step-IsSound buf p x ch (at_lf n h r) =
      count_header_size-IsSound State.header_value n _ _ λ y same.
        data_call-IsSound st steady State.header_value header_value buf (p + n) false _ again
          λ z later. rw (later.0, same.0) (omega arith)
