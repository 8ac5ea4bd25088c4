-- ===== src/Http/Execute/Bounds.antt =====
-- `http_parser_execute` of http_parser.c parses no more bytes than it is given.
pub mod Loops
use Prim.Native.Nat.{min}
use jia_tuan_server.Common.{
  ℕ, zero, suc, ◌+◌, ◌-◌, ◌≤◌, ◌≡◌, ◌%◌, ◌^◌, ◌⊎◌, refl, Bool, [], ◌∷◌, if◌then◌else◌, ◌==◌, ltb,
  leb, arith, Bytes, length, drop, Bool-cases, inl, inr, Option-cases,
}
use jia_tuan_server.Http.Chars.{lower}
use jia_tuan_server.Http.State.{State, parsing_header}
use jia_tuan_server.Http.Tokens.{token}
use jia_tuan_server.Http.Parser.{HttpParser, HeaderState}
use jia_tuan_server.Http.Execute.Macros.{
  Settings, Exec, Step, go, again, fail, leave, abort, count_header_size, is_ok, max_header_size,
}
use jia_tuan_server.Http.Execute.Field.{
  NameEnd, at_char, name_char, name_loop, name_step, at_header_field,
}
use jia_tuan_server.Http.Execute.Field
use jia_tuan_server.Http.Execute.Value.Scan
use jia_tuan_server.Http.Execute.Value.{value_step, at_header_value}
use jia_tuan_server.Http.Execute.Value.Scan.{
  ValueEnd, ValueStep, at_cr, at_lf, at_bad_length, keep, to_line_end, bad_length, unexpected,
  value_char, line_skip, value_loop,
}
use jia_tuan_server.Http.Execute.Body.{at_body_identity, at_body_identity_eof, at_chunk_data}
use jia_tuan_server.Http.Execute.{
  Executed, returned, aborted, endless, Turn, next, ended, asserted, looped, dispatch, reexecute,
  turn, finish, main_loop, fuel, count_marks, return_at, left_calls, opening, http_parser_execute,
}
use Loops.{name_reach, value_reach, name_loop-le, value_loop-le}

module _ {User : Type 0} where
  -- A case takes at most the `n` bytes behind its first one, and one more only if it fails.
  abbrev Fits : ℕ → ℕ → Step User → Type 0
  Fits n taken (fail x) = taken ≤ n + 1
  Fits n taken _ = taken ≤ n

  within-Fits : (n taken : ℕ) (s : Step User) → taken ≤ n → Fits n taken s
  within-Fits n taken (go x) le = le
  within-Fits n taken (again x) le = le
  within-Fits n taken (fail x) le = omega arith
  within-Fits n taken (leave advance x) le = le
  within-Fits n taken abort le = le

  -- Behind the end of the input the counter is set back, unless the header is too large.
  counted-Fits :
      (n taken : ℕ) (x : Exec User)
      → taken ≤ n + 1
      → Fits n
          (if ltb max_header_size ((x.parser.nread + taken) % 2 ^ 32) then taken else taken - 1)
          (count_header_size taken x go)
  unfolding count_header_size
  counted-Fits n taken x le =
      elim (Bool-cases (ltb max_header_size ((x.parser.nread + taken) % 2 ^ 32))) [
        | inl e ↦ rw e le
        | inr e ↦ rw e (omega arith)
      ]

module _ (st : Settings) (buf : Bytes) where
  open st use {User}

  name_step-Fits :
      (n p : ℕ) (x : Exec User) (ch : ℕ) (e : NameEnd)
      → name_reach e ≤ n + 1
      → let j = name_step st buf p x ch e in Fits n j.taken j.step
  name_step-Fits n p x ch (Field.at_end k h i) le = counted-Fits n k _ le
  name_step-Fits n p x ch (at_char last k h i) le = within-Fits n k _ (omega arith)
  name_step-Fits n p x ch Field.asserted le = omega arith

  value_step-Fits :
      (n p : ℕ) (x : Exec User) (ch : ℕ) (e : ValueEnd)
      → value_reach e ≤ n + 1
      → let j = value_step st buf p x ch e in Fits n j.taken j.step
  value_step-Fits n p x ch (Scan.at_end k h r) le = counted-Fits n k _ le
  value_step-Fits n p x ch (at_cr k h r) le = within-Fits n k _ (omega arith)
  value_step-Fits n p x ch (at_lf k h r) le = within-Fits n k _ (omega arith)
  value_step-Fits n p x ch (at_bad_length k h r) le =
      within-Fits n k (value_step st buf p x ch (at_bad_length k h r)).step (omega arith)
  value_step-Fits n p x ch Scan.asserted le = omega arith

  dispatch-Fits :
      (s : State) (p : ℕ) (x : Exec User) (ch : ℕ) (rest : Bytes)
      → let j = dispatch st buf s p x ch rest in Fits (length rest) j.taken j.step
  unfolding dispatch at_header_field at_header_value at_body_identity at_body_identity_eof
      at_chunk_data
  dispatch-Fits State.header_field p x ch rest =
      name_step-Fits (length rest) p x ch
        (name_loop (ch ∷ rest) 0 x.parser.header_state x.parser.index)
        (let le = name_loop-le (ch ∷ rest) 0 x.parser.header_state x.parser.index in omega arith)
  dispatch-Fits State.header_value p x ch rest =
      value_step-Fits (length rest) p x ch
        (value_loop 0 (ch ∷ rest) 0 x.parser.header_state x.parser)
        (let le = value_loop-le 0 (ch ∷ rest) 0 x.parser.header_state x.parser in omega arith)
  dispatch-Fits State.body_identity p x ch rest =
      within-Fits (length rest) (min x.parser.content_length (length (ch ∷ rest)) - 1)
        (at_body_identity st buf p x ch rest).step (omega arith)
  dispatch-Fits State.chunk_data p x ch rest =
      within-Fits (length rest) (min x.parser.content_length (length (ch ∷ rest)) - 1)
        (at_chunk_data p x ch rest).step (omega arith)
  dispatch-Fits State.body_identity_eof p x ch rest = omega arith
  dispatch-Fits s p x ch rest =
      within-Fits (length rest) 0 (dispatch st buf s p x ch rest).step (omega arith)

abbrev turn_reach : {User : Type 0} → Turn User → ℕ
turn_reach (next p x) = p + 1
turn_reach (ended n x) = n
turn_reach asserted = 0
turn_reach looped = 0

length-drop : (n : ℕ) (xs : Bytes) → length (drop n xs) ≡ length xs - n
length-drop zero xs = omega arith
length-drop (suc n) [] = omega arith
length-drop (suc n) (x ∷ xs) = let e = length-drop n xs in omega arith

module _ {User : Type 0} where
  pub Step-cases :
      (s : Step User)
      → ((y : Exec User) × (s ≡ go y))
        ⊎ ((y : Exec User) × (s ≡ again y))
        ⊎ ((y : Exec User) × (s ≡ fail y))
        ⊎ ((advance : Bool) × (y : Exec User) × (s ≡ leave advance y))
        ⊎ (s ≡ abort)
  Step-cases (go y) = inl (y, refl)
  Step-cases (again y) = inr (inl (y, refl))
  Step-cases (fail y) = inr (inr (inl (y, refl)))
  Step-cases (leave advance y) = inr (inr (inr (inl (advance, y, refl))))
  Step-cases abort = inr (inr (inr (inr refl)))

module _ (st : Settings) (buf : Bytes) where
  open st use {User}

  reexecute-le :
      (left p : ℕ) (x : Exec User) (ch : ℕ) (rest : Bytes)
      → turn_reach (reexecute st buf left p x ch rest) ≤ p + length rest + 1
  unfolding reexecute
  reexecute-le zero p x ch rest = omega arith
  reexecute-le (suc left) p x ch rest =
      let j = dispatch st buf x.at p x ch rest in
      let fits = dispatch-Fits st buf x.at p x ch rest in
      elim (Step-cases j.step) [
        | inl (y, e) ↦
            rw (e, turn_reach, reexecute)
              (let le : j.taken ≤ length rest = rw e at fits in omega arith)
        | inr (inl (y, e)) ↦
            rw (e, turn_reach, reexecute)
              (let le : j.taken ≤ length rest = rw e at fits in
                let rest_le = reexecute-le left (p + j.taken) y j.ch (drop j.taken rest) in
                let shorter = length-drop j.taken rest in omega arith)
        | inr (inr (inl (y, e))) ↦
            rw (e, turn_reach, reexecute)
              (let le : j.taken ≤ length rest + 1 = rw e at fits in omega arith)
        | inr (inr (inr (inl (advance, y, e)))) ↦
            rw (e, turn_reach, reexecute)
              (let le : j.taken ≤ length rest = rw e at fits in
                elim (Bool-cases advance) [
                  | inl a ↦ rw a (omega arith)
                  | inr a ↦ rw a (omega arith)
                ])
        | inr (inr (inr (inr e))) ↦ rw (e, turn_reach, reexecute) (omega arith)
      ]

  turn-le :
      (p : ℕ) (x : Exec User) (ch : ℕ) (rest : Bytes)
      → turn_reach (turn st buf p x ch rest) ≤ p + length rest + 1
  unfolding turn count_header_size
  turn-le p x ch rest = elim (Bool-cases (parsing_header x.at)) [
    | inl e ↦ elim (Bool-cases (ltb max_header_size ((x.parser.nread + 1) % 2 ^ 32))) [
      | inl f ↦ rw (e, f) (omega arith)
      | inr f ↦ rw (e, f) (reexecute-le fuel p _ ch rest)
    ]
    | inr e ↦ rw e (reexecute-le fuel p x ch rest)
  ]

-- The number of the bytes parsed; 0 for a call that does not return.
abbrev pub parsed : {User : Type 0} → Executed User → ℕ
parsed (returned n r u) = n
parsed aborted = 0
parsed endless = 0

pub Turn-cases :
    {User : Type 0}
    → (t : Turn User)
    → ((p : ℕ) × (y : Exec User) × (t ≡ next p y))
      ⊎ ((n : ℕ) × (y : Exec User) × (t ≡ ended n y))
      ⊎ (t ≡ asserted)
      ⊎ (t ≡ looped)
Turn-cases (next p y) = inl (p, y, refl)
Turn-cases (ended n y) = inr (inl (n, y, refl))
Turn-cases asserted = inr (inr (inl refl))
Turn-cases looped = inr (inr (inr refl))

module _ (st : Settings) (buf : Bytes) where
  open st use {User}

  return_at-le : (p : ℕ) (s : Step User) → parsed (return_at p s) ≤ p
  return_at-le p (go x) = omega arith
  return_at-le p (again x) = omega arith
  return_at-le p (fail x) = omega arith
  return_at-le p (leave advance x) = omega arith
  return_at-le p abort = omega arith

  finish-le : (p : ℕ) (x : Exec User) → parsed (finish st buf p x) ≤ p
  unfolding finish
  finish-le p x = elim (Bool-cases (leb (count_marks x.mark) 1)) [
    | inl e ↦ rw e (return_at-le p (left_calls st buf p x))
    | inr e ↦ rw e (omega arith)
  ]

  main_loop-le :
      (skip : ℕ) (text : Bytes) (p : ℕ) (x : Exec User)
      → parsed (main_loop st buf skip text p x) ≤ p + length text
  unfolding main_loop
  main_loop-le skip [] p x = let le = finish-le p x in omega arith
  main_loop-le (suc k) (ch ∷ rest) p x = let le = main_loop-le k rest (p + 1) x in omega arith
  main_loop-le zero (ch ∷ rest) p x =
      let near = turn-le st buf p x ch rest in
      elim (Turn-cases (turn st buf p x ch rest)) [
        | inl (p', y, e) ↦
            rw (e, parsed, main_loop) (let le = main_loop-le (p' - p) rest (p + 1) y in omega arith)
        | inr (inl (n, y, e)) ↦
            rw (e, parsed, main_loop)
              (let le : n ≤ p + length rest + 1 = rw e at near in omega arith)
        | inr (inr (inl e)) ↦ rw (e, parsed, main_loop) (omega arith)
        | inr (inr (inr e)) ↦ rw (e, parsed, main_loop) (omega arith)
      ]

from_zero : (n k : ℕ) → n ≤ 0 + k → n ≤ k
from_zero n k le = omega arith

-- A call of http_parser_execute with at least one byte of input parses at most the bytes that it is
-- given, whatever its callbacks do and in whatever state the parser is.
pub http_parser_execute-le :
    (st : Settings) (r : HttpParser) (u : st.User) (ch : ℕ) (rest : Bytes)
    → parsed (http_parser_execute st r u (ch ∷ rest)) ≤ length (ch ∷ rest)
unfolding http_parser_execute
http_parser_execute-le st r u ch rest = elim (Bool-cases (is_ok r.http_errno)) [
  | inl e ↦ rw e (from_zero _ _ (main_loop-le st (ch ∷ rest) 0 (ch ∷ rest) 0 (opening r u)))
  | inr e ↦ rw e (omega arith)
]
