-- ===== src/Http/Execute/Value/Length.antt =====
-- The value of a Content-Length header in `http_parser_execute` of http_parser.c.
use jia_tuan_server.Common.{
  ℕ, ◌+◌, ◌-◌, ◌*◌, ◌^◌, ◌≤◌, ◌<◌, ◌≡◌, refl, ap, ◌∙◌, true, false, [], ◌∷◌, ◌++◌, ◌==◌, leb, arith,
  Bytes, length, Bool-cases, inl, inr,
}
use jia_tuan_server.Http.Chars.{is_num, lower}
use jia_tuan_server.Http.Parser.{HttpParser, HeaderState, h_content_length}
use jia_tuan_server.Http.Execute.Value.Scan.{
  keep, bad_length, length_char, value_char, at_cr, at_bad_length, value_loop,
}

-- The number of the decimal digits `text` behind the number `n`.
unfoldable pub decimal : ℕ → Bytes → ℕ
decimal n [] = n
decimal n (c ∷ cs) = decimal (n * 10 + (c - b'0')) cs

decimal_ge : (text : Bytes) (n : ℕ) → n ≤ decimal n text
unfolding decimal
decimal_ge [] n = omega arith
decimal_ge (c ∷ cs) n = omega (arith, decimal_ge cs (n * 10 + (c - b'0')))

abbrev pub AllDigits : Bytes → Type 0
AllDigits [] = Unit
AllDigits (c ∷ cs) = (is_num c ≡ true) × AllDigits cs

-- The largest number that the test against an overflow lets pass.
abbrev pub max_length : ℕ
max_length = 2 ^ 64 - 7

abbrev with_content : HttpParser → ℕ → HttpParser
with_content r n = record r { content_length = n }

length_char_fits :
    (r : HttpParser) (ch : ℕ)
    → is_num ch ≡ true
    → r.content_length * 10 + (ch - b'0') ≤ max_length
    → length_char r ch
      ≡ keep h_content_length (with_content r (r.content_length * 10 + (ch - b'0')))
unfolding length_char is_num
length_char_fits r ch d fits = ground arith

length_char_overflows :
    (r : HttpParser) (ch : ℕ)
    → is_num ch ≡ true
    → max_length < r.content_length * 10 + (ch - b'0')
    → length_char r ch ≡ bad_length
unfolding length_char is_num
length_char_overflows r ch d big = ground arith

-- A digit is no line end.
digit_cases : (ch : ℕ) → is_num ch ≡ true → ((ch == 0x0d) ≡ false) × ((ch == 0x0a) ≡ false)
unfolding is_num
digit_cases ch d = (ground arith, ground arith)

value_loop_keep :
    (ch : ℕ) (rest : Bytes) (n : ℕ) (h h' : HeaderState) (r r' : HttpParser)
    → ((ch == 0x0d) ≡ false) × ((ch == 0x0a) ≡ false)
    → value_char h r ch (lower ch) ≡ keep h' r'
    → value_loop 0 (ch ∷ rest) n h r ≡ value_loop 0 rest (n + 1) h' r'
unfolding value_loop
value_loop_keep ch rest n h h' r r' (cr, lf) e = rw (cr, lf, e) refl

value_loop_bad :
    (ch : ℕ) (rest : Bytes) (n : ℕ) (h : HeaderState) (r : HttpParser)
    → ((ch == 0x0d) ≡ false) × ((ch == 0x0a) ≡ false)
    → value_char h r ch (lower ch) ≡ bad_length
    → value_loop 0 (ch ∷ rest) n h r ≡ at_bad_length n h r
unfolding value_loop
value_loop_bad ch rest n h r (cr, lf) e = rw (cr, lf, e) refl

value_loop_cr :
    (rest : Bytes) (n : ℕ) (h : HeaderState) (r : HttpParser)
    → value_loop 0 (0x0d ∷ rest) n h r ≡ at_cr n h r
unfolding value_loop
value_loop_cr rest n h r = refl

value_char_length :
    (r : HttpParser) (ch c : ℕ) → value_char h_content_length r ch c ≡ length_char r ch
unfolding value_char
value_char_length r ch c = refl

-- The digits of a Content-Length header up to the CR: a number of at most 2 ^ 64 - 7 is read
-- exactly, and a larger one is an invalid content length. Nothing wraps around.
pub content_length_exact :
    (digits more : Bytes) (n : ℕ) (r : HttpParser)
    → AllDigits digits
    → r.content_length ≤ max_length
    → (decimal r.content_length digits ≤ max_length
        → value_loop 0 (digits ++ 0x0d ∷ more) n h_content_length r
          ≡ at_cr
              (n + length digits)
              h_content_length
              (record r { content_length = decimal r.content_length digits }))
      × (max_length < decimal r.content_length digits
          → (k : ℕ) × (r' : HttpParser) × (value_loop 0 (digits ++ 0x0d ∷ more) n h_content_length r
              ≡ at_bad_length k h_content_length r'))
unfolding decimal
content_length_exact [] more n r d small = (
  λ fits.
      value_loop_cr more n h_content_length r ∙ ap (λ k. at_cr k h_content_length r) (omega arith),
  λ big. absurd (omega arith),
)
content_length_exact (c ∷ cs) more n r (d, ds) small =
    let m = r.content_length * 10 + (c - b'0') in
    let rest = cs ++ 0x0d ∷ more in
    elim (Bool-cases (leb m max_length)) [
      | inl e ↦
          let step =
            value_loop_keep c rest n h_content_length h_content_length r (with_content r m)
              (digit_cases c d)
              (value_char_length r c (lower c) ∙ length_char_fits r c d (ground arith)) in
          let (exact, refused) =
            content_length_exact cs more (n + 1) (with_content r m) ds (ground arith) in
          (
            λ fits.
                step
                ∙ exact fits
                ∙ ap (λ k. at_cr k h_content_length (with_content r (decimal m cs))) (omega arith),
            λ big. let (k, r', bad) = refused big in (k, r', step ∙ bad),
          )
      | inr e ↦
          let bad =
            value_loop_bad c rest n h_content_length r (digit_cases c d)
              (value_char_length r c (lower c) ∙ length_char_overflows r c d (ground arith)) in
          (λ fits. absurd (ground (arith, decimal_ge cs m)), λ big. (n, r, bad))
    ]
