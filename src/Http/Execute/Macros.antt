-- ===== src/Http/Execute/Macros.antt =====
-- The macros of `http_parser_execute` of http_parser.c and what its cases work on. The callbacks of
-- `http_parser_settings` are the parameter `Settings`.
use jia_tuan_server.Common.{
  ℕ, zero, ◌+◌, ◌-◌, ◌*◌, ◌%◌, ◌^◌, Bool, true, false, Option, none, some, ltb, if◌then◌else◌,
  Bytes, take, drop, ℤ, pos,
}
use jia_tuan_server.Http.State.{State, start_req, start_res, dead}
use jia_tuan_server.Http.Parser.{
  HttpParser, HttpErrno, hpe_ok, hpe_cb_message_begin, hpe_cb_url, hpe_cb_header_field,
  hpe_cb_header_value, hpe_cb_headers_complete, hpe_cb_body, hpe_cb_message_complete, hpe_cb_status,
  hpe_cb_chunk_header, hpe_cb_chunk_complete, hpe_header_overflow, hpe_strict, is_request,
  http_should_keep_alive,
}

-- The members of `http_parser_settings` of type `http_cb`.
pub data Notify : Type 0 where
  message_begin : Notify
  headers_complete : Notify
  message_complete : Notify
  chunk_header : Notify
  chunk_complete : Notify

-- Those of type `http_data_cb`.
pub data DataField : Type 0 where
  url : DataField
  status : DataField
  header_field : DataField
  header_value : DataField
  body : DataField

-- The user's callbacks, `none` for a NULL pointer. Each may change the parser and the user's own
-- state, and returns a number.
pub record Settings : Type 1 where
  pub User : Type 0
  pub on_notify : Notify → Option (HttpParser → User → ℤ × HttpParser × User)
  pub on_data : DataField → Option (Bytes → HttpParser → User → ℤ × HttpParser × User)

-- The variables of a call: `at` is the local copy of the state, `mark f` the offset at which the
-- text of `f` begins.
pub record Exec (User : Type 0) : Type 0 where
  pub parser : HttpParser
  pub at : State
  pub mark : DataField → Option ℕ
  pub user : User

-- How a case ends: by `break`, REEXECUTE, `goto error`, `return` (behind the current byte or at
-- it), or a failed assertion.
pub data Step (User : Type 0) : Type 0 where
  go : Exec User → Step User
  again : Exec User → Step User
  fail : Exec User → Step User
  leave : (advance : Bool) → Exec User → Step User
  abort : Step User

-- How a case ends that moves on by itself: `taken` bytes behind the one that it began with, with
-- `ch` as its last character.
pub record Jump (User : Type 0) : Type 0 where
  pub taken : ℕ
  pub ch : ℕ
  pub step : Step User

abbrev pub is_ok : HttpErrno → Bool
is_ok hpe_ok = true
is_ok _ = false

abbrev pub same_field : DataField → DataField → Bool
same_field url url = true
same_field status status = true
same_field header_field header_field = true
same_field header_value header_value = true
same_field body body = true
same_field _ _ = false

abbrev pub is_zero : ℤ → Bool
is_zero (pos zero) = true
is_zero _ = false

abbrev pub notify_errno : Notify → HttpErrno
notify_errno message_begin = hpe_cb_message_begin
notify_errno headers_complete = hpe_cb_headers_complete
notify_errno message_complete = hpe_cb_message_complete
notify_errno chunk_header = hpe_cb_chunk_header
notify_errno chunk_complete = hpe_cb_chunk_complete

abbrev pub data_errno : DataField → HttpErrno
data_errno url = hpe_cb_url
data_errno status = hpe_cb_status
data_errno header_field = hpe_cb_header_field
data_errno header_value = hpe_cb_header_value
data_errno body = hpe_cb_body

-- HTTP_MAX_HEADER_SIZE
abbrev pub max_header_size : ℕ
max_header_size = 80 * 1024

-- SET_ERRNO
abbrev pub set_errno : HttpErrno → HttpParser → HttpParser
set_errno e r = record r { http_errno = e }

-- The parser behind a callback of which the result is `result`.
abbrev pub after_call : HttpErrno → ℤ → HttpParser → HttpParser
after_call e result r = if is_zero result then r else set_errno e r

module _ {User : Type 0} where
  -- UPDATE_STATE
  abbrev pub to : State → Exec User → Exec User
  to s x = record x { at = s }

  abbrev pub with_parser : HttpParser → Exec User → Exec User
  with_parser r x = record x { parser = r }

  -- SET_ERRNO and `goto error`
  abbrev pub fail_with : HttpErrno → Exec User → Step User
  fail_with e x = fail (with_parser (set_errno e x.parser) x)

  -- STRICT_CHECK, for the negation of its condition.
  abbrev pub strict : Bool → Exec User → Step User → Step User
  strict holds x next = if holds then next else fail_with hpe_strict x

  -- MARK, at the offset `p`.
  abbrev pub mark_at : DataField → ℕ → Exec User → Exec User
  mark_at f p x = record x {
    mark = λ g.
        if same_field f g then elim (x.mark f) [ none ↦ some p | some q ↦ some q ] else x.mark g;
  }

  abbrev pub unmark : DataField → Exec User → Exec User
  unmark f x = record x { mark = λ g. if same_field f g then none else x.mark g }

  -- COUNT_HEADER_SIZE
  unfoldable pub count_header_size : ℕ → Exec User → (Exec User → Step User) → Step User
  count_header_size n x next =
      let r = record x.parser { nread = (x.parser.nread + n) % 2 ^ 32 } in
      if ltb max_header_size r.nread
      then fail_with hpe_header_overflow (with_parser r x)
      else next (with_parser r x)

-- NEW_MESSAGE
unfoldable pub new_message : HttpParser → State
unfolding http_should_keep_alive
new_message r =
    if http_should_keep_alive r then (if is_request r.kind then start_req else start_res) else dead

module _ (st : Settings) where
  open st use {User, on_notify, on_data}

  -- The end of a call, and `return` if the parser is in an error or paused.
  abbrev pub returned_from :
      HttpErrno
      → (advance : Bool) → Exec User
      → ℤ × HttpParser × User
      → (Exec User → Step User)
      → Step User
  returned_from e advance x (result, r, u) next =
      let r' = after_call e result r in
      let x' : Exec User = record x { parser = r'; at = r'.state; user = u } in
      if is_ok r'.http_errno then next x' else leave advance x'

  -- CALLBACK_NOTIFY, and CALLBACK_NOTIFY_NOADVANCE if `advance` is false.
  unfoldable pub notify :
      Notify → (advance : Bool) → Exec User → (Exec User → Step User) → Step User
  notify f advance x next =
      if is_ok x.parser.http_errno
      then elim (on_notify f) [
        | none ↦ next x
        | some call ↦
            returned_from (notify_errno f) advance x
              (call (record x.parser { state = x.at }) x.user) next
      ]
      else abort

  -- CALLBACK_DATA, and CALLBACK_DATA_NOADVANCE if `advance` is false, of the bytes of `buf` from the
  -- mark up to the offset `end`.
  unfoldable pub data_call :
      DataField
      → (buf : Bytes) (end : ℕ) (advance : Bool) → Exec User
      → (Exec User → Step User)
      → Step User
  data_call f buf end advance x next =
      if is_ok x.parser.http_errno
      then elim (x.mark f) [
        | none ↦ next x
        | some m ↦ elim (on_data f) [
          | none ↦ next (unmark f x)
          | some call ↦
              returned_from (data_errno f) advance x
                (call (take (end - m) (drop m buf)) (record x.parser { state = x.at }) x.user)
                (λ x'. next (unmark f x'))
        ]
      ]
      else abort
