-- ===== src/Http/Chars.antt =====
-- The classes of characters of http_parser.c, in strict mode. A `char` is its byte.
pub mod Table
use Prim.Native.Nat.{bit_or}
use jia_tuan_server.Common.{
  ℕ, zero, suc, ◌/◌, ◌%◌, ◌^◌, Bool, true, false, ◌&&◌, ◌||◌, List, [], ◌∷◌, ◌==◌, leb,
}

abbrev pub between : ℕ → ℕ → ℕ → Bool
between lo hi c = leb lo c && leb c hi

-- LOWER
abbrev pub lower : ℕ → ℕ
lower c = bit_or c 0x20

-- IS_ALPHA
unfoldable pub is_alpha : ℕ → Bool
is_alpha c = between b'a' b'z' (lower c)

-- IS_NUM
unfoldable pub is_num : ℕ → Bool
is_num c = between b'0' b'9' c

-- IS_ALPHANUM
unfoldable pub is_alphanum : ℕ → Bool
is_alphanum c = is_alpha c || is_num c

-- IS_HEX
unfoldable pub is_hex : ℕ → Bool
is_hex c = is_num c || between b'a' b'f' (lower c)

-- IS_MARK
unfoldable pub is_mark : ℕ → Bool
is_mark c =
    c == 0x2d
    || c == 0x5f
    || c == 0x2e
    || c == 0x21
    || c == 0x7e
    || c == 0x2a
    || c == 0x27
    || c == 0x28
    || c == 0x29

-- IS_USERINFO_CHAR
unfoldable pub is_userinfo_char : ℕ → Bool
is_userinfo_char c =
    is_alphanum c
    || is_mark c
    || c == b'%'
    || c == 0x3b
    || c == 0x3a
    || c == b'&'
    || c == b'='
    || c == b'+'
    || c == b'$'
    || c == 0x2c

-- IS_HOST_CHAR
unfoldable pub is_host_char : ℕ → Bool
is_host_char c = is_alphanum c || c == 0x2e || c == 0x2d

-- normal_url_char, whose missing entries are 0
abbrev pub normal_url_char : List ℕ
normal_url_char =
    0 ∷ 0 ∷ 0 ∷ 0 ∷ 246 ∷ 255 ∷ 255 ∷ 127 ∷ 255 ∷ 255 ∷ 255 ∷ 255 ∷ 255 ∷ 255 ∷ 255 ∷ 127 ∷ []

abbrev pub entry : List ℕ → ℕ → ℕ
entry [] i = 0
entry (x ∷ xs) zero = x
entry (x ∷ xs) (suc i) = entry xs i

-- BIT_AT
abbrev pub bit_at : List ℕ → ℕ → Bool
bit_at a i = (entry a (i / 2 ^ 3) / 2 ^ (i % 2 ^ 3)) % 2 == 1

-- IS_URL_CHAR
unfoldable pub is_url_char : ℕ → Bool
is_url_char c = bit_at normal_url_char c
