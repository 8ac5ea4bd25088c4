-- ===== src/Http/Tokens/Table.antt =====
-- The tables `tokens` and `unhex` of http_parser.c against the characters that they stand for.
use jia_tuan_server.Common.{
  ℕ, ◌+◌, ◌-◌, ◌<◌, ◌≡◌, refl, ap, Bool, true, false, ◌||◌, Option, none, some, [], ◌∷◌, ◌++◌, ◌==◌,
  ==_iff, leb, if◌then◌else◌, has, codes, Bytes, holds_to, holds_to_lem, agree_to,
}
use jia_tuan_server.Http.Chars.{between}
use jia_tuan_server.Http.Tokens.{tokens, token, unhex, unhex_entries}

-- The separators of RFC 2616, with the double quote, the blank and the tab.
abbrev pub separators : Bytes
separators = codes "()<>@,;:\\/[]?={}" ++ 0x22 ∷ 0x20 ∷ 0x09 ∷ []

-- The token characters of RFC 2616 in lower case: ASCII with no control characters or separators.
abbrev pub token_of : ℕ → ℕ
token_of c =
    if leb c 0x1f || leb 0x7f c || has c separators
    then 0
    else if between b'A' b'Z' c
    then c + 0x20
    else c

tokens_agree : holds_to (λ c. token c == token_of c) 255 ≡ true
unfolding holds_to agree_to token tokens
tokens_agree = refl

-- The table `tokens` maps each token character of RFC 2616 to itself in lower case, and every other
-- byte to 0.
pub token-token_of : (c : ℕ) → c < 256 → token c ≡ token_of c
token-token_of c byte = (==_iff _ _).0 (holds_to_lem _ 255 c tokens_agree byte)

-- The value of a hexadecimal digit; a byte beyond ASCII counts as the digit 0.
abbrev pub hex_value : ℕ → Option ℕ
hex_value c =
    if between b'0' b'9' c
    then some (c - b'0')
    else if between b'A' b'F' c
    then some (c - b'A' + 10)
    else if between b'a' b'f' c
    then some (c - b'a' + 10)
    else if leb 128 c
    then some 0
    else none

abbrev same_option : Option ℕ → Option ℕ → Bool
same_option none none = true
same_option none (some b) = false
same_option (some a) none = false
same_option (some a) (some b) = a == b

same_option→eq : (a b : Option ℕ) → same_option a b ≡ true → a ≡ b
same_option→eq none none h = refl
same_option→eq none (some b) h = cc
same_option→eq (some a) none h = cc
same_option→eq (some a) (some b) h = ap some ((==_iff a b).0 h)

digits_agree : holds_to (λ c. same_option (unhex c) (hex_value c)) 255 ≡ true
unfolding holds_to agree_to unhex unhex_entries
digits_agree = refl

-- The table `unhex` gives each hexadecimal digit its value, and refuses every other byte of ASCII.
-- It gives the bytes from 128 on the value 0, since its initialiser ends there.
pub unhex-hex_value : (c : ℕ) → c < 256 → unhex c ≡ hex_value c
unhex-hex_value c byte = same_option→eq _ _ (holds_to_lem _ 255 c digits_agree byte)
