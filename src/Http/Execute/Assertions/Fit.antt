-- ===== src/Http/Execute/Assertions/Fit.antt =====
-- What holds of the parser and of the marks of `http_parser_execute` of http_parser.c between two
-- bytes.
use jia_tuan_server.Common.{
  ℕ, ◌-◌, ◌≤◌, ◌≡◌, ◌^◌, refl, Bool, true, false, not, Option, none, some, if◌then◌else◌, leb,
  arith,
}
use jia_tuan_server.Http.State.{State}
use jia_tuan_server.Http.Parser.{
  HttpParser, HttpErrno, ullong_max, HeaderState, h_general, h_c, h_co, h_con,
  h_matching_connection, h_matching_proxy_connection, h_matching_content_length,
  h_matching_transfer_encoding, h_matching_upgrade, h_connection, h_content_length,
  h_transfer_encoding, h_upgrade,
}
use jia_tuan_server.Http.Execute.Macros.{
  DataField, url, status, header_field, header_value, body, is_ok, same_field,
}
use jia_tuan_server.Http.Execute.Body.{is_length}
use jia_tuan_server.Http.Execute.{count_marks, one_mark, is_url_state}

-- The header states while a name is read.
abbrev pub is_name_state : HeaderState → Bool
is_name_state h_general = true
is_name_state h_c = true
is_name_state h_co = true
is_name_state h_con = true
is_name_state h_matching_connection = true
is_name_state h_matching_proxy_connection = true
is_name_state h_matching_content_length = true
is_name_state h_matching_transfer_encoding = true
is_name_state h_matching_upgrade = true
is_name_state h_connection = true
is_name_state h_content_length = true
is_name_state h_transfer_encoding = true
is_name_state h_upgrade = true
is_name_state _ = false

-- The header states while a value is read.
abbrev pub is_value_state : HeaderState → Bool
is_value_state h_connection = false
is_value_state h_transfer_encoding = false
is_value_state _ = true

-- The largest chunk size that the test against an overflow lets pass.
abbrev pub max_chunk : ℕ
max_chunk = 2 ^ 64 - 17

-- What the parser's members are in a state; `n` is the number of bytes that the header counter has
-- in the state chunk_size_start.
abbrev pub IsFit : (n : ℕ) → State → HttpParser → Type 0
IsFit n State.header_field r = is_name_state r.header_state ≡ true
IsFit n State.header_value r = is_value_state r.header_state ≡ true
IsFit n State.chunk_size_start r = (r.nread ≡ n) × (r.flags.chunked ≡ true)
IsFit n State.chunk_size r = (r.flags.chunked ≡ true) × (r.content_length ≤ max_chunk)
IsFit n State.chunk_parameters r = (r.flags.chunked ≡ true) × (r.content_length ≤ max_chunk)
IsFit n State.chunk_size_almost_done r = (r.flags.chunked ≡ true) × (r.content_length ≤ max_chunk)
IsFit n State.chunk_data r = (r.flags.chunked ≡ true) × (is_length r.content_length ≡ true)
IsFit n State.chunk_data_almost_done r = (r.flags.chunked ≡ true) × (r.content_length ≡ 0)
IsFit n State.chunk_data_done r = r.flags.chunked ≡ true
IsFit n State.body_identity r = is_length r.content_length ≡ true
IsFit n _ r = Unit

-- A content length of 64 bits.
abbrev pub IsBounded : HttpParser → Type 0
IsBounded r = r.content_length ≤ ullong_max

-- A parser with no error.
abbrev pub IsOk : HttpParser → Type 0
IsOk r = (is_ok r.http_errno ≡ true) × IsBounded r

-- The text that a state is in the middle of.
abbrev pub owner : State → Option DataField
owner State.header_field = some header_field
owner State.header_value = some header_value
owner State.res_status = some status
owner State.body_identity = some body
owner State.body_identity_eof = some body
owner State.chunk_data = some body
owner State.chunk_data_almost_done = some body
owner s = if is_url_state s then some url else none

-- No mark is set but the one of the given text.
abbrev pub Only : Option DataField → (DataField → Option ℕ) → Type 0
Only none mark = (f : DataField) → mark f ≡ none
Only (some g) mark = (f : DataField) → same_field g f ≡ false → mark f ≡ none

-- The states in which nothing is known and no mark is set.
abbrev pub is_plain : State → Bool
is_plain State.header_field = false
is_plain State.header_value = false
is_plain State.res_status = false
is_plain State.body_identity = false
is_plain State.body_identity_eof = false
is_plain State.chunk_data = false
is_plain State.chunk_data_almost_done = false
is_plain State.chunk_data_done = false
is_plain State.chunk_size_start = false
is_plain State.chunk_size = false
is_plain State.chunk_parameters = false
is_plain State.chunk_size_almost_done = false
is_plain s = not (is_url_state s)

pub plain-IsFit : (n : ℕ) (s : State) (r : HttpParser) → is_plain s ≡ true → IsFit n s r
plain-IsFit n State.header_field r e = cc
plain-IsFit n s r e = ground arith

pub Only-none : (o : Option DataField) (mark : DataField → Option ℕ) → Only none mark → Only o mark
Only-none none mark h = h
Only-none (some g) mark h = λ f e. h f

pub same_field_sound : (g f : DataField) → same_field g f ≡ true → g ≡ f
same_field_sound url url e = refl
same_field_sound status status e = refl
same_field_sound header_field header_field e = refl
same_field_sound header_value header_value e = refl
same_field_sound body body e = refl
same_field_sound g f e = cc

one_mark-le : (m : Option ℕ) → one_mark m ≤ 1
one_mark-le none = omega arith
one_mark-le (some p) = omega arith

pub count_marks-le :
    (o : Option DataField) (mark : DataField → Option ℕ)
    → Only o mark
    → leb (count_marks mark) 1 ≡ true
count_marks-le none mark h = rw (h header_field, h header_value, h url, h body, h status) refl
count_marks-le (some url) mark h =
    let le = one_mark-le (mark url) in
    rw (h header_field refl, h header_value refl, h body refl, h status refl) (ground arith)
count_marks-le (some status) mark h =
    let le = one_mark-le (mark status) in
    rw (h header_field refl, h header_value refl, h body refl, h url refl) (ground arith)
count_marks-le (some header_field) mark h =
    let le = one_mark-le (mark header_field) in
    rw (h url refl, h header_value refl, h body refl, h status refl) (ground arith)
count_marks-le (some header_value) mark h =
    let le = one_mark-le (mark header_value) in
    rw (h header_field refl, h url refl, h body refl, h status refl) (ground arith)
count_marks-le (some body) mark h =
    let le = one_mark-le (mark body) in
    rw (h header_field refl, h header_value refl, h url refl, h status refl) (ground arith)

pub plain_owner : (s : State) → is_plain s ≡ true → owner s ≡ none
plain_owner State.header_field e = cc
plain_owner s e = ground arith

pub IsFit-set :
    (n : ℕ) (s s' : State) (r : HttpParser) (e : HttpErrno) (d : ℕ)
    → IsFit n s r
    → IsFit n s (record r { state = s'; http_errno = e; user_data = d })
IsFit-set n State.header_field s' r e d fit = fit
IsFit-set n s s' r e d fit = fit
