-- ===== src/Http/Url/Fields.antt =====
-- `struct http_parser_url` of http_parser.h.
use jia_tuan_server.Common.{ℕ, ◌+◌, ◌%◌, ◌^◌, Bool, true, false, if◌then◌else◌}

-- `enum http_parser_url_fields`, without UF_MAX.
pub data Field : Type 0 where
  schema : Field
  host : Field
  port : Field
  path : Field
  query : Field
  fragment : Field
  userinfo : Field

abbrev pub same : Field → Field → Bool
same schema schema = true
same host host = true
same port port = true
same path path = true
same query query = true
same fragment fragment = true
same userinfo userinfo = true
same _ _ = false

-- `is_set f` is the bit `1 << f` of `field_set`; `off` and `len` are the members of `field_data`.
pub record Url : Type 0 where
  pub is_set : Field → Bool
  pub port_number : ℕ
  pub off : Field → ℕ
  pub len : Field → ℕ

abbrev pub u16 : ℕ → ℕ
u16 n = n % 2 ^ 16

abbrev pub put {ℓ} : {A : Type ℓ} → (Field → A) → Field → A → Field → A
put g f a h = if same h f then a else g h

abbrev pub set_off : Field → ℕ → Url → Url
set_off f n u = record u { off = put u.off f (u16 n) }

abbrev pub set_len : Field → ℕ → Url → Url
set_len f n u = record u { len = put u.len f (u16 n) }

-- `u->field_data[f].len++`
abbrev pub grow : Field → Url → Url
grow f u = set_len f (u.len f + 1) u

-- `u->field_set |= (1 << f)`
abbrev pub mark : Field → Url → Url
mark f u = record u { is_set = put u.is_set f true }
