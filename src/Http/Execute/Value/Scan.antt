-- ===== src/Http/Execute/Value/Scan.antt =====
-- The loop of `http_parser_execute` over the value of a header.
use jia_tuan_server.Common.{
  ℕ, zero, suc, ◌+◌, ◌-◌, ◌*◌, ◌/◌, ◌%◌, ◌^◌, Bool, true, not, ◌||◌, Option, none, some, [], ◌∷◌,
  ◌==◌, ltb, if◌then◌else◌, Bytes, codes, length, take,
}
use jia_tuan_server.Http.Chars.{lower, is_num}
use jia_tuan_server.Http.Tokens.{token}
use jia_tuan_server.Http.Parser.{
  HttpParser, Flags, ullong_max, HeaderState, h_general, h_connection, h_content_length,
  h_transfer_encoding, h_matching_transfer_encoding_chunked, h_matching_connection_token_start,
  h_matching_connection_keep_alive, h_matching_connection_close, h_matching_connection_upgrade,
  h_matching_connection_token, h_transfer_encoding_chunked, h_connection_keep_alive,
  h_connection_close, h_connection_upgrade,
}
use jia_tuan_server.Http.Execute.Field.{index_after, match_char, name_upgrade}
use jia_tuan_server.Http.Execute.Macros.{max_header_size}

abbrev pub text_chunked : Bytes
text_chunked = codes "chunked"

abbrev pub text_keep_alive : Bytes
text_keep_alive = codes "keep-alive"

abbrev pub text_close : Bytes
text_close = codes "close"

abbrev pub with_flags : Flags → HttpParser → HttpParser
with_flags f r = record r { flags = f }

-- The flag that a finished value of the header sets.
unfoldable pub flag_of : HeaderState → HttpParser → HttpParser
flag_of h_connection_keep_alive r = with_flags (record r.flags { connection_keep_alive = true }) r
flag_of h_connection_close r = with_flags (record r.flags { connection_close = true }) r
flag_of h_connection_upgrade r = with_flags (record r.flags { connection_upgrade = true }) r
flag_of h_transfer_encoding_chunked r = with_flags (record r.flags { chunked = true }) r
flag_of _ r = r

-- What one character of a value makes of the loop's header state and the parser.
pub data ValueStep : Type 0 where
  keep : HeaderState → HttpParser → ValueStep
  to_line_end : ValueStep
  bad_length : ValueStep
  unexpected : ValueStep

-- One more digit of a length to the base `base`, in 64 bits.
abbrev pub push_length : (base length digit : ℕ) → ℕ
push_length base n d = ((n * base) % 2 ^ 64 + d) % 2 ^ 64

-- The test behind the comment "Overflow?".
abbrev pub may_overflow : (base length : ℕ) → Bool
may_overflow base n = ltb ((ullong_max - base) / base) n

unfoldable pub length_char : HttpParser → (ch : ℕ) → ValueStep
length_char r ch =
    if ch == 0x20
    then keep h_content_length r
    else if not (is_num ch)
    then bad_length
    else if may_overflow 10 r.content_length
    then bad_length
    else keep h_content_length
        (record r { content_length = push_length 10 r.content_length (ch - b'0') })

-- The first character of an element of a Connection header; `c` is lowercase.
unfoldable pub element_start : (c : ℕ) → HeaderState
element_start c =
    if c == b'k'
    then h_matching_connection_keep_alive
    else if c == b'c'
    then h_matching_connection_close
    else if c == b'u'
    then h_matching_connection_upgrade
    else if not (token c == 0)
    then h_matching_connection_token
    else if c == 0x20 || c == 0x09
    then h_matching_connection_token_start
    else h_general

-- A character behind a complete element.
unfoldable pub element_end : HeaderState → HttpParser → (ch : ℕ) → ValueStep
unfolding flag_of
element_end h r ch =
    if ch == 0x2c
    then keep h_matching_connection_token_start (record (flag_of h r) { index = 0 })
    else if ch == 0x20
    then keep h r
    else keep h_matching_connection_token r

abbrev pub matched : HttpParser → (ℕ → HeaderState) → ValueStep
matched r h = let i = index_after r.index in keep (h i) (record r { index = i })

-- The `switch` of the loop; `c` is LOWER(ch).
unfoldable pub value_char : HeaderState → HttpParser → (ch c : ℕ) → ValueStep
unfolding match_char length_char element_start element_end
value_char h_general r ch c = to_line_end
value_char h_connection r ch c = unexpected
value_char h_transfer_encoding r ch c = unexpected
value_char h_content_length r ch c = length_char r ch
value_char h_matching_transfer_encoding_chunked r ch c = matched r λ i.
    match_char text_chunked h_general h_transfer_encoding_chunked
      h_matching_transfer_encoding_chunked i c
value_char h_matching_connection_token_start r ch c = keep (element_start c) r
value_char h_matching_connection_keep_alive r ch c = matched r λ i.
    match_char text_keep_alive h_matching_connection_token h_connection_keep_alive
      h_matching_connection_keep_alive i c
value_char h_matching_connection_close r ch c = matched r λ i.
    match_char text_close h_matching_connection_token h_connection_close h_matching_connection_close
      i c
value_char h_matching_connection_upgrade r ch c = matched r λ i.
    match_char name_upgrade h_matching_connection_token h_connection_upgrade
      h_matching_connection_upgrade i c
value_char h_matching_connection_token r ch c =
    if ch == 0x2c
    then keep h_matching_connection_token_start (record r { index = 0 })
    else keep h_matching_connection_token r
value_char h_transfer_encoding_chunked r ch c =
    keep (if ch == 0x20 then h_transfer_encoding_chunked else h_general) r
value_char h_connection_keep_alive r ch c = element_end h_connection_keep_alive r ch
value_char h_connection_close r ch c = element_end h_connection_close r ch
value_char h_connection_upgrade r ch c = element_end h_connection_upgrade r ch
value_char _ r ch c = keep h_general r

-- The offset of the first CR or LF.
unfoldable pub line_end : Bytes → Option ℕ
line_end [] = none
line_end (ch ∷ rest) =
    if ch == 0x0d || ch == 0x0a
    then some 0
    else elim (line_end rest) [ none ↦ none | some n ↦ some (n + 1) ]

-- How many bytes the loop leaves out behind the first one of `text`: all up to the end of the line,
-- or all if there is none within HTTP_MAX_HEADER_SIZE bytes.
unfoldable pub line_skip : Bytes → ℕ
unfolding line_end
line_skip text = elim (line_end (take max_header_size text)) [
  | none ↦ length text - 1
  | some n ↦ n - 1
]

-- How the loop ends: at the end of the input, at a CR or LF, at a character that is no part of a
-- length, or with a failed assertion; `taken` bytes behind its start.
pub data ValueEnd : Type 0 where
  at_end : (taken : ℕ) → HeaderState → HttpParser → ValueEnd
  at_cr : (taken : ℕ) → HeaderState → HttpParser → ValueEnd
  at_lf : (taken : ℕ) → HeaderState → HttpParser → ValueEnd
  at_bad_length : (taken : ℕ) → HeaderState → HttpParser → ValueEnd
  asserted : ValueEnd

-- The loop; `skip` bytes are left out first.
unfoldable pub value_loop : (skip : ℕ) → Bytes → (taken : ℕ) → HeaderState → HttpParser → ValueEnd
unfolding value_char line_skip
value_loop skip [] n h r = at_end n h r
value_loop (suc k) (ch ∷ rest) n h r = value_loop k rest (n + 1) h r
value_loop zero (ch ∷ rest) n h r =
    if ch == 0x0d
    then at_cr n h r
    else if ch == 0x0a
    then at_lf n h r
    else elim (value_char h r ch (lower ch)) [
      | keep h' r' ↦ value_loop 0 rest (n + 1) h' r'
      | to_line_end ↦ value_loop (line_skip (ch ∷ rest)) rest (n + 1) h r
      | bad_length ↦ at_bad_length n h r
      | unexpected ↦ asserted
    ]
