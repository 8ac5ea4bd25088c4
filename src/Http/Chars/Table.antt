-- ===== src/Http/Chars/Table.antt =====
-- The table `normal_url_char` of http_parser.c against the characters that it stands for.
use jia_tuan_server.Common.{ℕ, ◌<◌, ◌≡◌, refl, Bool, true, not, ◌&&◌, ◌==◌}
use jia_tuan_server.Http.Chars.{between, is_url_char}
use jia_tuan_server.Common.{agree_to, agree_to_lem}

-- A printable character other than `#` and `?`.
abbrev pub is_plain : ℕ → Bool
is_plain c = between 0x21 0x7e c && not (c == b'#') && not (c == b'?')

the_bytes_agree : agree_to is_url_char is_plain 255 ≡ true
unfolding agree_to is_url_char
the_bytes_agree = refl

-- The table accepts exactly the printable ASCII characters other than `#` and `?`.
pub is_url_char-is_plain : (c : ℕ) → c < 256 → is_url_char c ≡ is_plain c
is_url_char-is_plain c byte = agree_to_lem is_url_char is_plain 255 c the_bytes_agree byte
