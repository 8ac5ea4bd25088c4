-- ===== src/Http/Execute/Bounds/Loops.antt =====
-- How far the loops of `http_parser_execute` of http_parser.c over a name and a value of a header
-- look.
use jia_tuan_server.Common.{
  ℕ, zero, suc, ◌+◌, ◌≤◌, ◌≡◌, ◌⊎◌, refl, [], ◌∷◌, ◌==◌, arith, Bytes, length, Bool-cases, inl, inr,
  Option-cases,
}
use jia_tuan_server.Http.Chars.{lower}
use jia_tuan_server.Http.Tokens.{token}
use jia_tuan_server.Http.Parser.{HttpParser, HeaderState}
use jia_tuan_server.Http.Execute.Field.{
  NameEnd, at_char, name_char, name_loop, name_step, at_header_field,
}
use jia_tuan_server.Http.Execute.Field
use jia_tuan_server.Http.Execute.Value.Scan
use jia_tuan_server.Http.Execute.Value.Scan.{
  ValueEnd, ValueStep, at_cr, at_lf, at_bad_length, keep, to_line_end, bad_length, unexpected,
  value_char, line_skip, value_loop,
}

-- How far a loop over a name or a value looks.
abbrev pub name_reach : NameEnd → ℕ
name_reach (Field.at_end n h i) = n
name_reach (at_char ch n h i) = n + 1
name_reach Field.asserted = 0

abbrev pub value_reach : ValueEnd → ℕ
value_reach (Scan.at_end n h r) = n
value_reach (at_cr n h r) = n + 1
value_reach (at_lf n h r) = n + 1
value_reach (at_bad_length n h r) = n + 1
value_reach Scan.asserted = 0

pub name_loop-le :
    (text : Bytes) (n : ℕ) (h : HeaderState) (i : ℕ)
    → name_reach (name_loop text n h i) ≤ n + length text
unfolding name_loop
name_loop-le [] n h i = omega arith
name_loop-le (ch ∷ rest) n h i = elim (Bool-cases (token ch == 0)) [
  | inl e ↦ rw e (omega arith)
  | inr e ↦ elim (Option-cases (name_char h i ch (token ch))) [
    | inl o ↦ rw (e, o) (omega arith)
    | inr ((h', i'), o) ↦ rw (e, o) (let rest_le = name_loop-le rest (n + 1) h' i' in omega arith)
  ]
]

pub ValueStep-cases :
    (s : ValueStep)
    → ((h : HeaderState) × (r : HttpParser) × (s ≡ keep h r))
      ⊎ (s ≡ to_line_end)
      ⊎ (s ≡ bad_length)
      ⊎ (s ≡ unexpected)
ValueStep-cases (keep h r) = inl (h, r, refl)
ValueStep-cases to_line_end = inr (inl refl)
ValueStep-cases bad_length = inr (inr (inl refl))
ValueStep-cases unexpected = inr (inr (inr refl))

pub value_loop-le :
    (skip : ℕ) (text : Bytes) (n : ℕ) (h : HeaderState) (r : HttpParser)
    → value_reach (value_loop skip text n h r) ≤ n + length text
unfolding value_loop
value_loop-le skip [] n h r = omega arith
value_loop-le (suc k) (ch ∷ rest) n h r =
    let rest_le = value_loop-le k rest (n + 1) h r in omega arith
value_loop-le zero (ch ∷ rest) n h r = elim (Bool-cases (ch == 0x0d)) [
  | inl e ↦ rw e (omega arith)
  | inr e ↦ elim (Bool-cases (ch == 0x0a)) [
    | inl f ↦ rw (e, f) (omega arith)
    | inr f ↦ elim (ValueStep-cases (value_char h r ch (lower ch))) [
      | inl (h', r', s) ↦
          rw (e, f, s) (let rest_le = value_loop-le 0 rest (n + 1) h' r' in omega arith)
      | inr (inl s) ↦
          rw (e, f, s)
            (let rest_le = value_loop-le (line_skip (ch ∷ rest)) rest (n + 1) h r in omega arith)
      | inr (inr (inl s)) ↦ rw (e, f, s) (omega arith)
      | inr (inr (inr s)) ↦ rw (e, f, s) (omega arith)
    ]
  ]
]
