-- ===== src/Http/Execute/Assertions/Values.antt =====
-- The cases of `http_parser_execute` of http_parser.c for the value of a header.
use jia_tuan_server.Common.{
  ℕ, zero, suc, ◌+◌, ◌≡◌, ◌%◌, ◌^◌, refl, true, false, none, some, [], ◌∷◌, ◌==◌, ◌||◌, ltb, arith,
  Bytes, Bool-cases, inl, inr,
}
use jia_tuan_server.Http.Chars.{lower, is_num}
use jia_tuan_server.Http.State.{State, header_almost_done, header_field_start}
use jia_tuan_server.Http.Parser.{
  HttpParser, HeaderState, h_general, h_connection, h_content_length, h_transfer_encoding,
  h_upgrade, h_matching_connection_token_start, h_connection_keep_alive, h_connection_close,
  h_connection_upgrade,
}
use jia_tuan_server.Http.Execute.Field.{match_char}
use jia_tuan_server.Http.Execute.Value.Scan
use jia_tuan_server.Http.Execute.Value.Scan.{
  ValueStep, keep, to_line_end, bad_length, unexpected, ValueEnd, at_cr, at_lf, at_bad_length,
  value_char, length_char, push_length, element_start, element_end, flag_of, line_skip, value_loop,
}
use jia_tuan_server.Http.Execute.Bounds.Loops.{ValueStep-cases}
use jia_tuan_server.Http.Execute.Value.{
  begin_value, first_element, with_state, at_header_value_start, at_header_value_discard_ws,
  value_step,
}
use jia_tuan_server.Http.Execute.Headers.{at_header_value_discard_lws}
use jia_tuan_server.Http.Execute.Macros.{
  header_value, Settings, Exec, Step, go, to, with_parser, mark_at, count_header_size,
  max_header_size,
}
use jia_tuan_server.Http.Execute.Assertions.Fit.{is_plain, is_value_state, Only, IsOk}
use jia_tuan_server.Http.Execute.Assertions.Safe.{IsSafe, IsPassive, plain-IsGood}
use jia_tuan_server.Http.Execute.Assertions.Callbacks.{data_call-IsSafe, data_call_again}
use jia_tuan_server.Http.Execute.Assertions.Names.{mark_at_clean}

pub flag_of-IsOk : (h : HeaderState) (r : HttpParser) → IsOk r → IsOk (flag_of h r)
unfolding flag_of
flag_of-IsOk h_connection_keep_alive r ok = ok
flag_of-IsOk h r ok = ok

-- A step of the loop over a value makes no error and meets no header state that its `switch` does
-- not expect.
abbrev IsValueStep : ValueStep → Type 0
IsValueStep (keep h r) = (is_value_state h ≡ true) × IsOk r
IsValueStep to_line_end = Unit
IsValueStep bad_length = Unit
IsValueStep unexpected = ⊥

element_end-IsValueStep :
    (h : HeaderState) (r : HttpParser) (ch : ℕ)
    → is_value_state h ≡ true
    → IsOk r
    → IsValueStep (element_end h r ch)
unfolding element_end
element_end-IsValueStep h r ch e ok = let flagged = flag_of-IsOk h r ok in ground arith

value_char-IsValueStep :
    (h : HeaderState) (r : HttpParser) (ch c : ℕ)
    → is_value_state h ≡ true
    → IsOk r
    → IsValueStep (value_char h r ch c)
unfolding value_char match_char length_char element_start
value_char-IsValueStep h_general r ch c e ok = tt
value_char-IsValueStep h_connection_keep_alive r ch c e ok =
    element_end-IsValueStep h_connection_keep_alive r ch refl ok
value_char-IsValueStep h_connection_close r ch c e ok =
    element_end-IsValueStep h_connection_close r ch refl ok
value_char-IsValueStep h_connection_upgrade r ch c e ok =
    element_end-IsValueStep h_connection_upgrade r ch refl ok
value_char-IsValueStep h r ch c e ok = ground arith

abbrev pub IsValueEnd : ValueEnd → Type 0
IsValueEnd (Scan.at_end n h r) = (is_value_state h ≡ true) × IsOk r
IsValueEnd (at_cr n h r) = IsOk r
IsValueEnd (at_lf n h r) = IsOk r
IsValueEnd (at_bad_length n h r) = Unit
IsValueEnd Scan.asserted = ⊥

pub value_loop-IsValueEnd :
    (skip : ℕ) (text : Bytes) (n : ℕ) (h : HeaderState) (r : HttpParser)
    → is_value_state h ≡ true
    → IsOk r
    → IsValueEnd (value_loop skip text n h r)
unfolding value_loop
value_loop-IsValueEnd skip [] n h r e ok = (e, ok)
value_loop-IsValueEnd (suc k) (ch ∷ rest) n h r e ok = value_loop-IsValueEnd k rest (n + 1) h r e ok
value_loop-IsValueEnd zero (ch ∷ rest) n h r e ok =
    let step = value_char-IsValueStep h r ch (lower ch) e ok in
    elim (Bool-cases (ch == 0x0d)) [
      | inl f ↦ rw f ok
      | inr f ↦ elim (Bool-cases (ch == 0x0a)) [
        | inl g ↦ rw (f, g) ok
        | inr g ↦ elim (ValueStep-cases (value_char h r ch (lower ch))) [
          | inl (h', r', s) ↦
              let (e', ok') : IsValueStep (keep h' r') = rw s at step in
              rw (f, g, s) (value_loop-IsValueEnd 0 rest (n + 1) h' r' e' ok')
          | inr (inl s) ↦
              rw (f, g, s) (value_loop-IsValueEnd (line_skip (ch ∷ rest)) rest (n + 1) h r e ok)
          | inr (inr (inl s)) ↦ rw (f, g, s) tt
          | inr (inr (inr s)) ↦ absurd (rw s at step)
        ]
      ]
    ]

module _ {User : Type 0} where
  begin_value-IsSafe :
      (h : HeaderState) (x : Exec User) (ch : ℕ)
      → x.parser.header_state ≡ h
      → IsOk x.parser
      → x.at ≡ State.header_value
      → Only (some header_value) x.mark
      → IsSafe (begin_value h x ch)
  unfolding begin_value first_element is_num
  begin_value-IsSafe h_upgrade x ch e ok at' only = (ok, rw at' refl, rw at' only)
  begin_value-IsSafe h_transfer_encoding x ch e ok at' only =
      (ok, rw at' (ground arith), rw at' only)
  begin_value-IsSafe h_content_length x ch e ok at' only = elim (Bool-cases (is_num ch)) [
    | inl f ↦ rw f ((ok.0, ground arith), rw at' (rw e refl), rw at' only)
    | inr f ↦ rw f refl
  ]
  begin_value-IsSafe h_connection x ch e ok at' only = (ok, rw at' (ground arith), rw at' only)
  begin_value-IsSafe h_matching_connection_token_start x ch e ok at' only =
      (ok, rw at' (rw e refl), rw at' only)
  begin_value-IsSafe h x ch e ok at' only = (ok, rw at' refl, rw at' only)

  pub at_header_value_start-IsSafe :
      (p : ℕ) (x : Exec User) (ch : ℕ)
      → IsOk x.parser
      → Only none x.mark
      → IsSafe (at_header_value_start p x ch)
  unfolding at_header_value_start
  at_header_value_start-IsSafe p x ch ok clean =
      begin_value-IsSafe x.parser.header_state
        (to State.header_value
          (with_parser (record x.parser { index = 0 }) (mark_at header_value p x)))
        ch refl ok refl (mark_at_clean header_value p x clean)

  pub at_header_value_discard_ws-IsSafe :
      (p : ℕ) (x : Exec User) (ch : ℕ)
      → IsOk x.parser
      → is_plain x.at ≡ true
      → Only none x.mark
      → IsSafe (at_header_value_discard_ws p x ch)
  unfolding at_header_value_discard_ws
  at_header_value_discard_ws-IsSafe p x ch ok plain clean =
      elim (Bool-cases (ch == 0x20 || ch == 0x09)) [
        | inl e ↦ rw e (plain-IsGood 0 x ok plain clean)
        | inr e ↦ elim (Bool-cases (ch == 0x0d)) [
          | inl f ↦ rw (e, f) (ok, tt, clean)
          | inr f ↦ elim (Bool-cases (ch == 0x0a)) [
            | inl g ↦ rw (e, f, g) (ok, tt, clean)
            | inr g ↦ rw (e, f, g) (at_header_value_start-IsSafe p x ch ok clean)
          ]
        ]
      ]

  -- A header that is too large is an error.
  pub count_header_size-IsSafe :
      (n : ℕ) (x : Exec User) (next : Exec User → Step User)
      → IsSafe (next (with_parser (record x.parser { nread = (x.parser.nread + n) % 2 ^ 32 }) x))
      → IsSafe (count_header_size n x next)
  unfolding count_header_size
  count_header_size-IsSafe n x next safe =
      elim (Bool-cases (ltb max_header_size ((x.parser.nread + n) % 2 ^ 32))) [
        | inl e ↦ rw e refl
        | inr e ↦ rw e safe
      ]

module _ (st : Settings) (passive : IsPassive st) (buf : Bytes) where
  open st use {User}

  pub value_step-IsSafe :
      (p : ℕ) (x : Exec User) (ch : ℕ) (e : ValueEnd)
      → IsOk x.parser
      → x.at ≡ State.header_value
      → Only (some header_value) x.mark
      → IsValueEnd e
      → IsSafe (value_step st buf p x ch e).step
  value_step-IsSafe p x ch Scan.asserted ok at' only end = absurd end
  value_step-IsSafe p x ch (Scan.at_end n h r) ok at' only (value, ok') =
      count_header_size-IsSafe n (with_state h (with_parser r x)) go
        (ok', rw at' value, rw at' only)
  value_step-IsSafe p x ch (at_bad_length n h r) ok at' only end = refl
  value_step-IsSafe p x ch (at_cr n h r) ok at' only ok_r =
      data_call-IsSafe st passive header_value buf (p + n) true
        (to header_almost_done (with_state h (with_parser r x))) _ ok_r tt only
        λ y ok' fit at_done clean.
          count_header_size-IsSafe n (with_state h y) go (ok', rw at_done tt, rw at_done clean)
  value_step-IsSafe p x ch (at_lf n h r) ok at' only ok_r =
      count_header_size-IsSafe n (to header_almost_done (with_parser r x)) _
        (data_call_again st passive header_value buf (p + n) false _ ok_r refl only)

  pub at_header_value_discard_lws-IsSafe :
      (p : ℕ) (x : Exec User) (ch : ℕ)
      → IsOk x.parser
      → Only none x.mark
      → IsSafe (at_header_value_discard_lws st buf p x ch)
  unfolding at_header_value_discard_lws
  at_header_value_discard_lws-IsSafe p x ch ok clean =
      elim (Bool-cases (ch == 0x20 || ch == 0x09)) [
        | inl e ↦ rw e (ok, tt, clean)
        | inr e ↦ rw e (
            data_call_again st passive header_value buf p false
              (to header_field_start
                (mark_at header_value p (with_parser (flag_of x.parser.header_state x.parser) x)))
              (flag_of-IsOk x.parser.header_state x.parser ok) refl
              (mark_at_clean header_value p (with_parser (flag_of x.parser.header_state x.parser) x)
                clean))
      ]
