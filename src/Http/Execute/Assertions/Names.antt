-- ===== src/Http/Execute/Assertions/Names.antt =====
-- The cases of `http_parser_execute` of http_parser.c up to the end of a header's name.
use jia_tuan_server.Common.{
  ℕ, ◌+◌, ◌≡◌, ◌⊎◌, refl, true, false, Option, none, some, [], ◌∷◌, ◌==◌, ◌||◌, arith, Bytes,
  Bool-cases, Option-cases, inl, inr,
}
use jia_tuan_server.Http.State.{State}
use jia_tuan_server.Http.Execute.Macros.{url, status, header_field, with_parser, Exec}
use jia_tuan_server.Http.Execute.Start.{is_line_end}
use jia_tuan_server.Http.Execute.Field
use jia_tuan_server.Http.Execute.Field.{
  at_header_field_start, name_step, NameEnd, at_char, name_loop, at_header_field,
}
use jia_tuan_server.Http.State.{State}
use jia_tuan_server.Http.Url.Char.{parse_url_char, url_state, server_char}
use jia_tuan_server.Http.Parser.{HttpParser, HeaderState}
use jia_tuan_server.Http.Tokens.{token}
use jia_tuan_server.Http.Method.{method_char, MethodStep, invalid, finished, onward}
use jia_tuan_server.Http.Execute.{is_url_state}
use jia_tuan_server.Http.Execute.Start.{method_step, at_req_method, next_index}
use jia_tuan_server.Http.Execute.Line.{
  is_dead, url_char, at_res_status_start, at_req_spaces_before_url, at_req_schema,
}
use jia_tuan_server.Http.Parser.{h_general}
use jia_tuan_server.Http.Method.{http_connect}
use jia_tuan_server.Http.Execute.Field.{
  match_char, name_char, name_loop, first_header_state, at_header_field_start,
}
use jia_tuan_server.Http.Execute.Macros.{DataField, Exec, with_parser, mark_at}
use jia_tuan_server.Http.Execute.Assertions.Fit.{
  is_plain, is_name_state, owner, Only, Only-none, IsOk, IsFit,
}
use jia_tuan_server.Http.Execute.Assertions.Safe.{IsSafe, mark_at-Only, plain-IsGood}

parse_url_char_cases :
    (s : State) (c : ℕ)
    → (is_dead (parse_url_char s c) ≡ true)
      ⊎ (is_dead (parse_url_char s c) ≡ false) × (is_url_state (parse_url_char s c) ≡ true)
unfolding parse_url_char url_state server_char
parse_url_char_cases State.req_path c = ground arith
parse_url_char_cases s c = ground arith

url_owner : (s : State) → is_url_state s ≡ true → owner s ≡ some url
url_owner State.header_field e = cc
url_owner s e = ground arith

url-IsFit : (s : State) (r : HttpParser) → is_url_state s ≡ true → IsFit 0 s r
url-IsFit State.header_field r e = cc
url-IsFit s r e = ground arith

pub first_header_state_name : (c : ℕ) → is_name_state (first_header_state c) ≡ true
unfolding first_header_state
first_header_state_name c = ground arith

module _ {User : Type 0} where
  -- A mark is set where no other one is.
  pub mark_at_clean :
      (g : DataField) (p : ℕ) (x : Exec User)
      → Only none x.mark
      → Only (some g) (mark_at g p x).mark
  mark_at_clean g p x clean = mark_at-Only g p x (Only-none (some g) x.mark clean)

  pub method_step-IsSafe :
      (x : Exec User) (m : MethodStep)
      → IsOk x.parser
      → is_plain x.at ≡ true
      → Only none x.mark
      → IsSafe (method_step x m)
  method_step-IsSafe x invalid ok plain clean = refl
  method_step-IsSafe x finished ok plain clean = (ok, tt, clean)
  method_step-IsSafe x (onward m) ok plain clean =
      plain-IsGood 0 (next_index (with_parser (record x.parser { method = m }) x)) ok plain clean

  pub at_req_method-IsSafe :
      (x : Exec User) (ch : ℕ)
      → IsOk x.parser
      → is_plain x.at ≡ true
      → Only none x.mark
      → IsSafe (at_req_method x ch)
  unfolding at_req_method
  at_req_method-IsSafe x ch = method_step-IsSafe x (method_char x.parser.method x.parser.index ch)

  pub at_res_status_start-IsSafe :
      (p : ℕ) (x : Exec User) (ch : ℕ)
      → IsOk x.parser
      → Only none x.mark
      → IsSafe (at_res_status_start p x ch)
  unfolding at_res_status_start
  at_res_status_start-IsSafe p x ch ok clean = elim (Bool-cases (ch == 0x0d)) [
    | inl e ↦ rw e (ok, tt, clean)
    | inr e ↦ elim (Bool-cases (ch == 0x0a)) [
      | inl f ↦ rw (e, f) (ok, tt, clean)
      | inr f ↦ rw (e, f) (ok, tt, mark_at_clean status p x clean)
    ]
  ]

  pub url_char-IsSafe :
      (x : Exec User) (ch : ℕ) → IsOk x.parser → Only (some url) x.mark → IsSafe (url_char x ch)
  unfolding url_char
  url_char-IsSafe x ch ok only =
      let s = parse_url_char x.at ch in
      elim (parse_url_char_cases x.at ch) [
        | inl d ↦ rw d refl
        | inr (d, e) ↦ rw d (ok, url-IsFit s x.parser e, rw (url_owner s e) only)
      ]

  pub at_req_spaces_before_url-IsSafe :
      (p : ℕ) (x : Exec User) (ch : ℕ)
      → IsOk x.parser
      → is_plain x.at ≡ true
      → Only none x.mark
      → IsSafe (at_req_spaces_before_url p x ch)
  unfolding at_req_spaces_before_url
  at_req_spaces_before_url-IsSafe p x ch ok plain clean = elim (Bool-cases (ch == 0x20)) [
    | inl e ↦ rw e (plain-IsGood 0 x ok plain clean)
    | inr e ↦ elim (Bool-cases (x.parser.method == http_connect)) [
      | inl f ↦ rw (e, f) (url_char-IsSafe _ ch ok (mark_at_clean url p x clean))
      | inr f ↦ rw (e, f) (url_char-IsSafe _ ch ok (mark_at_clean url p x clean))
    ]
  ]

  pub at_req_schema-IsSafe :
      (x : Exec User) (ch : ℕ)
      → IsOk x.parser
      → Only (some url) x.mark
      → IsSafe (at_req_schema x ch)
  unfolding at_req_schema
  at_req_schema-IsSafe x ch ok only = elim (Bool-cases (ch == 0x20 || is_line_end ch)) [
    | inl e ↦ rw e refl
    | inr e ↦ rw e (url_char-IsSafe x ch ok only)
  ]

  pub at_header_field_start-IsSafe :
      (p : ℕ) (x : Exec User) (ch : ℕ)
      → IsOk x.parser
      → Only none x.mark
      → IsSafe (at_header_field_start p x ch)
  unfolding at_header_field_start
  at_header_field_start-IsSafe p x ch ok clean = elim (Bool-cases (ch == 0x0d)) [
    | inl e ↦ rw e (ok, tt, clean)
    | inr e ↦ elim (Bool-cases (ch == 0x0a)) [
      | inl f ↦ rw (e, f) (ok, tt, clean)
      | inr f ↦ elim (Bool-cases (token ch == 0)) [
        | inl g ↦ rw (e, f, g) refl
        | inr g ↦
            rw (e, f, g)
              (ok, first_header_state_name (token ch), mark_at_clean header_field p x clean)
      ]
    ]
  ]

-- The loop over a name meets none of the header states that its `switch` does not list.
abbrev pub IsNameEnd : NameEnd → Type 0
IsNameEnd (Field.at_end n h i) = is_name_state h ≡ true
IsNameEnd (at_char ch n h i) = is_name_state h ≡ true
IsNameEnd Field.asserted = ⊥

abbrev IsNameStep : Option (HeaderState × ℕ) → Type 0
IsNameStep none = ⊥
IsNameStep (some (h, i)) = is_name_state h ≡ true

name_char-IsNameStep :
    (h : HeaderState) (i ch c : ℕ) → is_name_state h ≡ true → IsNameStep (name_char h i ch c)
unfolding name_char match_char
name_char-IsNameStep h_general i ch c e = refl
name_char-IsNameStep h i ch c e = ground arith

pub name_loop-IsNameEnd :
    (text : Bytes) (n : ℕ) (h : HeaderState) (i : ℕ)
    → is_name_state h ≡ true
    → IsNameEnd (name_loop text n h i)
unfolding name_loop
name_loop-IsNameEnd [] n h i e = e
name_loop-IsNameEnd (ch ∷ rest) n h i e =
    let step = name_char-IsNameStep h i ch (token ch) e in
    elim (Bool-cases (token ch == 0)) [
      | inl z ↦ rw z e
      | inr z ↦ elim (Option-cases (name_char h i ch (token ch))) [
        | inl o ↦ absurd (rw o at step)
        | inr ((h', i'), o) ↦ rw (z, o) (name_loop-IsNameEnd rest (n + 1) h' i' (rw o at step))
      ]
    ]
