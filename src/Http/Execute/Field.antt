-- ===== src/Http/Execute/Field.antt =====
-- The cases of `http_parser_execute` for the name of a header.
pub mod Matching
pub mod Names
use jia_tuan_server.Common.{
  ℕ, ◌+◌, ◌-◌, ◌%◌, ◌^◌, true, not, ◌||◌, Option, none, some, [], ◌∷◌, ◌==◌, ltb, if◌then◌else◌,
  Bytes, codes, length,
}
use jia_tuan_server.Http.Chars.{entry}
use jia_tuan_server.Http.Tokens.{token}
use jia_tuan_server.Http.State.{State, headers_almost_done, header_value_discard_ws}
use jia_tuan_server.Http.Parser.{
  hpe_invalid_header_token, HeaderState, h_general, h_c, h_co, h_con, h_matching_connection,
  h_matching_proxy_connection, h_matching_content_length, h_matching_transfer_encoding,
  h_matching_upgrade, h_connection, h_content_length, h_transfer_encoding, h_upgrade,
}
use jia_tuan_server.Http.Execute.Macros.{
  header_field, Settings, Exec, Step, Jump, go, again, abort, to, with_parser, fail_with, mark_at,
  count_header_size, data_call, max_header_size,
}

abbrev pub name_connection : Bytes
name_connection = codes "connection"

abbrev pub name_proxy_connection : Bytes
name_proxy_connection = codes "proxy-connection"

abbrev pub name_content_length : Bytes
name_content_length = codes "content-length"

abbrev pub name_transfer_encoding : Bytes
name_transfer_encoding = codes "transfer-encoding"

abbrev pub name_upgrade : Bytes
name_upgrade = codes "upgrade"

-- `parser->index++`
abbrev pub index_after : ℕ → ℕ
index_after i = (i + 1) % 2 ^ 8

-- The comparison with the character of `text` at `index`, the terminator of the text included: the
-- state `other` if it fails, `last` if that was the last character, or else `same`.
unfoldable pub match_char {ℓ} :
    {A : Type ℓ} → (text : Bytes) (other last same : A) (index c : ℕ) → A
match_char text other last same index c =
    if ltb (length text) index || not (c == entry text index)
    then other
    else if index + 1 == length text
    then last
    else same

-- The header state for the first character of a name.
unfoldable pub first_header_state : ℕ → HeaderState
first_header_state c =
    if c == b'c'
    then h_c
    else if c == b'p'
    then h_matching_proxy_connection
    else if c == b't'
    then h_matching_transfer_encoding
    else if c == b'u'
    then h_matching_upgrade
    else h_general

-- One character of a name: `ch`, and `c` for its token. `none` is the failed assertion.
unfoldable pub name_char : HeaderState → (index ch c : ℕ) → Option (HeaderState × ℕ)
unfolding match_char
name_char h_general i ch c = some (h_general, i)
name_char h_c i ch c = some (if c == b'o' then h_co else h_general, index_after i)
name_char h_co i ch c = some (if c == b'n' then h_con else h_general, index_after i)
name_char h_con i ch c = some (
  if c == b'n'
      then h_matching_connection
      else if c == b't'
      then h_matching_content_length
      else h_general,
  index_after i,
)
name_char h_matching_connection i ch c = some (
  match_char name_connection h_general h_connection h_matching_connection (index_after i) c,
  index_after i,
)
name_char h_matching_proxy_connection i ch c = some (
  match_char name_proxy_connection h_general h_connection h_matching_proxy_connection
      (index_after i) c,
  index_after i,
)
name_char h_matching_content_length i ch c = some (
  match_char name_content_length h_general h_content_length h_matching_content_length
      (index_after i) c,
  index_after i,
)
name_char h_matching_transfer_encoding i ch c = some (
  match_char name_transfer_encoding h_general h_transfer_encoding h_matching_transfer_encoding
      (index_after i) c,
  index_after i,
)
name_char h_matching_upgrade i ch c = some (
  match_char name_upgrade h_general h_upgrade h_matching_upgrade (index_after i) c,
  index_after i,
)
name_char h_connection i ch c = some (if ch == 0x20 then h_connection else h_general, i)
name_char h_content_length i ch c = some (if ch == 0x20 then h_content_length else h_general, i)
name_char h_transfer_encoding i ch c =
    some (if ch == 0x20 then h_transfer_encoding else h_general, i)
name_char h_upgrade i ch c = some (if ch == 0x20 then h_upgrade else h_general, i)
name_char _ i ch c = none

-- How the loop over a name ends: at the end of the input or at a character that is no token, and
-- behind how many bytes.
pub data NameEnd : Type 0 where
  at_end : (taken : ℕ) → HeaderState → (index : ℕ) → NameEnd
  at_char : (ch taken : ℕ) → HeaderState → (index : ℕ) → NameEnd
  asserted : NameEnd

unfoldable pub name_loop : Bytes → (taken : ℕ) → HeaderState → (index : ℕ) → NameEnd
unfolding name_char
name_loop [] n h i = at_end n h i
name_loop (ch ∷ rest) n h i =
    if token ch == 0 then at_char ch n h i else elim (name_char h i ch (token ch)) [
      | none ↦ asserted
      | some (h', i') ↦ name_loop rest (n + 1) h' i'
    ]

module _ {User : Type 0} where
  unfoldable pub at_header_field_start : ℕ → Exec User → ℕ → Step User
  unfolding first_header_state
  at_header_field_start p x ch =
      if ch == 0x0d
      then go (to headers_almost_done x)
      else if ch == 0x0a
      then again (to headers_almost_done x)
      else if token ch == 0
      then fail_with hpe_invalid_header_token x
      else go (
          to State.header_field (
            with_parser
              (record x.parser { index = 0; header_state = first_header_state (token ch) })
              (mark_at header_field p x)))

  abbrev pub with_name : HeaderState → ℕ → Exec User → Exec User
  with_name h i x = with_parser (record x.parser { header_state = h; index = i }) x

module _ (st : Settings) (buf : Bytes) where
  open st use {User}

  -- The case, from the offset `p` on.
  abbrev pub name_step : ℕ → Exec User → (ch : ℕ) → NameEnd → Jump User
  name_step p x ch asserted = record { taken = 0; ch = ch; step = abort }
  name_step p x ch (at_end n h i) = record {
    taken = if ltb max_header_size ((x.parser.nread + n) % 2 ^ 32) then n else n - 1;
    ch = ch;
    step = count_header_size n (with_name h i x) go;
  }
  name_step p x ch (at_char last n h i) = record {
    taken = n;
    ch = last;
    step = count_header_size n (with_name h i x) λ y.
        if last == 0x3a
        then data_call st header_field buf (p + n) true (to header_value_discard_ws y) go
        else fail_with hpe_invalid_header_token y;
  }

  unfoldable pub at_header_field : ℕ → Exec User → (ch : ℕ) → Bytes → Jump User
  unfolding count_header_size data_call name_loop
  at_header_field p x ch rest =
      name_step p x ch (name_loop (ch ∷ rest) 0 x.parser.header_state x.parser.index)
