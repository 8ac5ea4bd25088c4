-- ===== src/Http/Url/Parse.antt =====
-- `http_parser_parse_url` of http_parser.c.
use Prim.Native.Nat.{min}
use jia_tuan_server.Common.{
  ℕ, ◌+◌, ◌*◌, ◌-◌, ◌^◌, ◌%◌, ◌==◌, leb, Bool, true, false, ◌&&◌, ◌||◌, not, Option, none, some, [],
  ◌∷◌, ltb, if◌then◌else◌, Bytes, take, drop, ◌>>=◌,
}
use jia_tuan_server.Http.Chars.{is_num}
use jia_tuan_server.Http.State.{
  State, req_spaces_before_url, req_schema, req_schema_slash, req_schema_slash_slash,
  req_server_start, req_server, req_server_with_at, req_path, req_query_string_start,
  req_query_string, req_fragment_start, req_fragment,
}
use jia_tuan_server.Http.Url.Char.{parse_url_char}
use jia_tuan_server.Http.Url.Fields.{
  Field, schema, host, port, path, query, fragment, userinfo, same, Url, set_off, set_len, grow,
  mark,
}
use jia_tuan_server.Http.Url.Host.{parse_host}

-- What the `switch` of the loop finds in the state behind a character.
pub data Piece : Type 0 where
  fail : Piece
  delimiter : Piece
  piece : Field → Piece

unfoldable pub piece_of : State → Piece
piece_of req_schema_slash = delimiter
piece_of req_schema_slash_slash = delimiter
piece_of req_server_start = delimiter
piece_of req_query_string_start = delimiter
piece_of req_fragment_start = delimiter
piece_of req_schema = piece schema
piece_of req_server_with_at = piece host
piece_of req_server = piece host
piece_of req_path = piece path
piece_of req_query_string = piece query
piece_of req_fragment = piece fragment
piece_of _ = fail

abbrev pub is_with_at : State → Bool
is_with_at req_server_with_at = true
is_with_at _ = false

-- The variables of the loop; `old_uf` is `none` for UF_MAX.
pub record Scan : Type 0 where
  pub at : State
  pub old_uf : Option Field
  pub found_at : Bool
  pub url : Url

abbrev pub continues : Option Field → Field → Bool
continues none f = false
continues (some g) f = same f g

-- One round for the field `f`, at the offset `p`.
unfoldable pub scan_field : Scan → State → Field → ℕ → Scan
scan_field v s f p = record {
  at = s;
  old_uf = some f;
  found_at = v.found_at || is_with_at s;
  url = if continues v.old_uf f then grow f v.url else mark f (set_len f 1 (set_off f p v.url));
}

unfoldable pub scan_piece : Scan → State → Piece → ℕ → Option Scan
scan_piece v s fail p = none
scan_piece v s delimiter p = some (record v { at = s })
scan_piece v s (piece f) p = some (scan_field v s f p)

-- One round of the loop.
unfoldable pub scan_char : Scan → ℕ → ℕ → Option Scan
scan_char v p c = let s = parse_url_char v.at c in scan_piece v s (piece_of s) p

-- The loop, over the bytes that are left, of which the first has the offset `p`.
unfoldable pub scan_loop : Scan → ℕ → Bytes → Option Scan
scan_loop v p [] = some v
scan_loop v p (c ∷ rest) = scan_char v p c >>= λ v'. scan_loop v' (p + 1) rest

-- The digits up to the first other character.
unfoldable pub digits_value : ℕ → Bytes → ℕ
digits_value acc [] = acc
digits_value acc (c ∷ rest) =
    let next = digits_value (acc * 10 + (c - b'0')) rest in if is_num c then next else acc

-- `isspace`
abbrev pub is_space : ℕ → Bool
is_space c = c == 0x20 || (leb 9 c && leb c 13)

unfoldable pub skip_spaces : Bytes → Bytes
skip_spaces [] = []
skip_spaces (c ∷ rest) = let left = skip_spaces rest in if is_space c then left else c ∷ rest

abbrev pub ulong_max : ℕ
ulong_max = 2 ^ 64 - 1

-- The value behind a minus sign.
abbrev pub negated : ℕ → ℕ
negated v = if ltb ulong_max v then ulong_max else (2 ^ 64 - v) % 2 ^ 64

-- `strtoul(…, NULL, 10)`: blanks, a sign, and digits; ULONG_MAX for a value that does not fit.
unfoldable pub strtoul : Bytes → ℕ
unfolding digits_value skip_spaces
strtoul text = elim (skip_spaces text) [
  | [] ↦ 0
  | c ∷ rest ↦
      if c == 0x2d
      then negated (digits_value 0 rest)
      else if c == 0x2b
      then min (digits_value 0 rest) ulong_max
      else min (digits_value 0 (c ∷ rest)) ulong_max
]

abbrev pub no_fields : Url → Url
no_fields u = record u { is_set = λ f. false; port_number = 0 }

abbrev pub first_scan : Bool → Url → Scan
first_scan is_connect u = record {
  at = if is_connect then req_server_start else req_spaces_before_url;
  old_uf = none;
  found_at = false;
  url = no_fields u;
}

-- The two tests behind the loop, with the call of `http_parse_host`.
unfoldable pub check_host : Bytes → Scan → Option Url
check_host buf v =
    if v.url.is_set schema && not (v.url.is_set host)
    then none
    else if v.url.is_set host
    then parse_host buf v.url v.found_at
    else some v.url

-- `u->field_set == ((1 << UF_HOST)|(1 << UF_PORT))`
abbrev pub is_host_and_port : (Field → Bool) → Bool
is_host_and_port g =
    not (g schema)
    && g host
    && g port
    && not (g path)
    && not (g query)
    && not (g fragment)
    && not (g userinfo)

-- The conversion of the port. The digits are read from `memory`, the bytes from the start of the
-- URL on, those behind its end included.
unfoldable pub convert_port : Bytes → Url → Option Url
convert_port memory u =
    let v = strtoul (drop (u.off port) memory) in
    if ltb 0xffff v then none else some (record u { port_number = v })

unfoldable pub check_fields : Bytes → Bool → Url → Option Url
check_fields memory is_connect u =
    if is_connect && not (is_host_and_port u.is_set)
    then none
    else if u.is_set port
    then convert_port memory u
    else some u

-- `http_parser_parse_url(memory, buflen, is_connect, u)`; `none` stands for the result 1.
unfoldable pub parse_url : (memory : Bytes) (buflen : ℕ) (is_connect : Bool) → Url → Option Url
parse_url memory buflen is_connect u = do
  v ← scan_loop (first_scan is_connect u) 0 (take buflen memory)
  u' ← check_host memory v
  check_fields memory is_connect u'
