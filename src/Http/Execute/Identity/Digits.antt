-- ===== src/Http/Execute/Identity/Digits.antt =====
-- The numbers that the size of a chunk is written with, for `http_parser_execute` of http_parser.c.
use jia_tuan_server.Common.{
  ℕ, ◌+◌, ◌*◌, ◌≤◌, ◌<◌, ◌≡◌, true, false, none, some, [], ◌∷◌, ◌==◌, arith, Bytes,
}
use jia_tuan_server.Http.Tokens.Table.{hex_value}
use jia_tuan_server.Http.Execute.Value.Scan.{push_length, may_overflow}
use jia_tuan_server.Http.Execute.Assertions.Fit.{max_chunk}

-- The value of a digit; 0 for any other byte.
abbrev pub digit : ℕ → ℕ
digit c = elim (hex_value c) [ none ↦ 0 | some d ↦ d ]

-- The number of the hexadecimal digits `text` behind the number `n`.
unfoldable pub hexadecimal : ℕ → Bytes → ℕ
hexadecimal n [] = n
hexadecimal n (c ∷ cs) = hexadecimal (n * 16 + digit c) cs

pub hexadecimal_ge : (text : Bytes) (n : ℕ) → n ≤ hexadecimal n text
unfolding hexadecimal
hexadecimal_ge [] n = omega arith
hexadecimal_ge (c ∷ cs) n = omega (arith, hexadecimal_ge cs (n * 16 + digit c))

abbrev pub AllHex : Bytes → Type 0
AllHex [] = Unit
AllHex (c ∷ cs) = (c < 128) × (hex_value c ≡ some (digit c)) × AllHex cs

pub digit_lem :
    (c : ℕ) → c < 128 → hex_value c ≡ some (digit c) → (digit c ≤ 15) × ((c == 0x0d) ≡ false)
digit_lem c ascii e = (ground arith, ground arith)

pub push_length_exact :
    (n d : ℕ) → d ≤ 15 → n * 16 + d ≤ max_chunk → push_length 16 n d ≡ n * 16 + d
push_length_exact n d small fits = omega arith

pub may_overflow-false : (n d : ℕ) → d ≤ 15 → n * 16 + d ≤ max_chunk → may_overflow 16 n ≡ false
may_overflow-false n d small fits = ground arith

pub may_overflow-true : (n d : ℕ) → d ≤ 15 → max_chunk < n * 16 + d → may_overflow 16 n ≡ true
may_overflow-true n d small big = ground arith
