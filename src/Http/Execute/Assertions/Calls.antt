-- ===== src/Http/Execute/Assertions/Calls.antt =====
-- The cases of `http_parser_execute` of http_parser.c that make callbacks before a header's value.
use jia_tuan_server.Common.{
  ℕ, ◌+◌, ◌≡◌, refl, true, Option, none, some, ◌==◌, arith, Bytes, Bool-cases, inl, inr,
}
use jia_tuan_server.Http.State.{State}
use jia_tuan_server.Http.Execute.Assertions.Fit.{is_plain, Only, IsOk}
use jia_tuan_server.Http.Execute.Assertions.Safe.{IsGood, IsSafe, IsPassive, plain-IsGood}
use jia_tuan_server.Http.Execute.Assertions.Callbacks.{notify-IsSafe, data_call_go}
use jia_tuan_server.Http.Execute.Assertions.Names.{url_char-IsSafe, IsNameEnd}
use jia_tuan_server.Http.Execute.Assertions.Values.{count_header_size-IsSafe}
use jia_tuan_server.Http.Parser.{HttpParser}
use jia_tuan_server.Http.Execute.Macros.{Settings, Exec, notify, to, with_parser}
use jia_tuan_server.Http.Chars.{is_alpha}
use jia_tuan_server.Http.State.{State}
use jia_tuan_server.Http.Execute.Macros.{
  message_begin, url, status, header_field, with_parser, Settings, Exec, go,
}
use jia_tuan_server.Http.Execute.Start.{
  begin_method, fresh, is_line_end, at_start_req_or_res, at_start_res, at_start_req,
}
use jia_tuan_server.Http.Method.{first_method}
use jia_tuan_server.Http.Execute.Field
use jia_tuan_server.Http.Execute.Field.{
  at_header_field_start, name_step, NameEnd, at_char, name_loop, at_header_field,
}
use jia_tuan_server.Http.Execute.Line.{at_res_status, at_req_url}

fresh-IsOk : (r : HttpParser) → IsOk r → IsOk (fresh r)
fresh-IsOk r ok = (ok.0, omega arith)

module _ (st : Settings) (passive : IsPassive st) where
  open st use {User}

  message_begins :
      (x : Exec User)
      → IsOk x.parser
      → is_plain x.at ≡ true
      → Only none x.mark
      → IsSafe (notify st message_begin true x go)
  message_begins x ok plain clean =
      notify-IsSafe st passive message_begin true x go (plain-IsGood 0 x ok plain clean)
        λ y good at'. good

  pub at_start_req_or_res-IsSafe :
      (x : Exec User) (ch : ℕ)
      → IsOk x.parser
      → is_plain x.at ≡ true
      → Only none x.mark
      → IsSafe (at_start_req_or_res st x ch)
  unfolding at_start_req_or_res
  at_start_req_or_res-IsSafe x ch ok plain clean = elim (Bool-cases (is_line_end ch)) [
    | inl e ↦ rw e (plain-IsGood 0 x ok plain clean)
    | inr e ↦ elim (Bool-cases (ch == b'H')) [
      | inl h ↦
          rw (e, h)
            (message_begins (to State.res_or_resp_h (with_parser (fresh x.parser) x))
              (fresh-IsOk x.parser ok) refl clean)
      | inr h ↦ rw (e, h) (fresh-IsOk x.parser ok, tt, clean)
    ]
  ]

  pub at_start_res-IsSafe :
      (x : Exec User) (ch : ℕ)
      → IsOk x.parser
      → is_plain x.at ≡ true
      → Only none x.mark
      → IsSafe (at_start_res st x ch)
  unfolding at_start_res
  at_start_res-IsSafe x ch ok plain clean = elim (Bool-cases (ch == b'H')) [
    | inl h ↦ rw h (
        message_begins (to State.res_h (with_parser (fresh x.parser) x)) (fresh-IsOk x.parser ok)
          refl clean)
    | inr h ↦ elim (Bool-cases (is_line_end ch)) [
      | inl e ↦
          rw (h, e)
            (message_begins (with_parser (fresh x.parser) x) (fresh-IsOk x.parser ok) plain clean)
      | inr e ↦ rw (h, e) refl
    ]
  ]

  begin_method-IsSafe :
      (x : Exec User) (m : Option ℕ)
      → IsOk x.parser
      → Only none x.mark
      → IsSafe (begin_method st x m)
  begin_method-IsSafe x none ok clean = refl
  begin_method-IsSafe x (some m) ok clean = message_begins _ ok refl clean

  pub at_start_req-IsSafe :
      (x : Exec User) (ch : ℕ)
      → IsOk x.parser
      → is_plain x.at ≡ true
      → Only none x.mark
      → IsSafe (at_start_req st x ch)
  unfolding at_start_req
  at_start_req-IsSafe x ch ok plain clean = elim (Bool-cases (is_line_end ch)) [
    | inl e ↦ rw e (plain-IsGood 0 x ok plain clean)
    | inr e ↦ elim (Bool-cases (is_alpha ch)) [
      | inl a ↦
          rw (e, a)
            (begin_method-IsSafe (with_parser (fresh x.parser) x) (first_method ch)
              (fresh-IsOk x.parser ok) clean)
      | inr a ↦ rw (e, a) refl
    ]
  ]

  pub at_res_status-IsSafe :
      (buf : Bytes) (p : ℕ) (x : Exec User) (ch : ℕ)
      → IsGood 0 x
      → Only (some status) x.mark
      → IsSafe (at_res_status st buf p x ch)
  unfolding at_res_status
  at_res_status-IsSafe buf p x ch (ok, fit, good) only = elim (Bool-cases (ch == 0x0d)) [
    | inl e ↦ rw e (data_call_go st passive status buf p true _ ok tt only)
    | inr e ↦ elim (Bool-cases (ch == 0x0a)) [
      | inl f ↦ rw (e, f) (data_call_go st passive status buf p true _ ok tt only)
      | inr f ↦ rw (e, f) (ok, fit, good)
    ]
  ]

  pub at_req_url-IsSafe :
      (buf : Bytes) (p : ℕ) (x : Exec User) (ch : ℕ)
      → IsOk x.parser
      → Only (some url) x.mark
      → IsSafe (at_req_url st buf p x ch)
  unfolding at_req_url
  at_req_url-IsSafe buf p x ch ok only = elim (Bool-cases (ch == 0x20)) [
    | inl e ↦ rw e (data_call_go st passive url buf p true _ ok tt only)
    | inr e ↦ elim (Bool-cases (is_line_end ch)) [
      | inr f ↦ rw (e, f) (url_char-IsSafe x ch ok only)
      | inl f ↦ elim (Bool-cases (ch == 0x0d)) [
        | inl g ↦ rw (e, f, g) (data_call_go st passive url buf p true _ ok tt only)
        | inr g ↦ rw (e, f, g) (data_call_go st passive url buf p true _ ok tt only)
      ]
    ]
  ]

  pub name_step-IsSafe :
      (buf : Bytes) (p : ℕ) (x : Exec User) (ch : ℕ) (e : NameEnd)
      → IsOk x.parser
      → x.at ≡ State.header_field
      → Only (some header_field) x.mark
      → IsNameEnd e
      → IsSafe (name_step st buf p x ch e).step
  name_step-IsSafe buf p x ch Field.asserted ok at' only end = absurd end
  name_step-IsSafe buf p x ch (Field.at_end n h i) ok at' only end =
      count_header_size-IsSafe n _ go (ok, rw at' end, rw at' only)
  name_step-IsSafe buf p x ch (at_char last n h i) ok at' only end =
      count_header_size-IsSafe n _ _ (elim (Bool-cases (last == 0x3a)) [
        | inl e ↦ rw e (data_call_go st passive header_field buf (p + n) true _ ok tt only)
        | inr e ↦ rw e refl
      ])
