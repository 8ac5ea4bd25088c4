-- ===== src/Http/Execute/Progress.antt =====
-- How a call of `http_parser_execute` of http_parser.c ends.
use jia_tuan_server.Common.{
  ℕ, zero, suc, ◌+◌, ◌-◌, ◌<◌, ◌≡◌, ◌≢◌, ◌⊎◌, ◌%◌, ◌^◌, refl, subst, true, false, [], ◌∷◌, ltb, leb,
  arith, Bytes, length, drop, Bool-cases, inl, inr,
}
use jia_tuan_server.Http.State.{State, parsing_header}
use jia_tuan_server.Http.Parser.{HttpParser}
use jia_tuan_server.Http.Execute.Macros.{
  Settings, Exec, Step, go, again, fail, leave, abort, count_header_size, is_ok, max_header_size,
}
use jia_tuan_server.Http.Execute.{
  Executed, returned, aborted, endless, Turn, next, ended, asserted, looped, errored, return_at,
  return_eof, left_calls, opening, count_marks, fuel, dispatch, reexecute, turn, finish, main_loop,
  execute_eof, http_parser_execute,
}
use jia_tuan_server.Http.Execute.Bounds.{Step-cases, Turn-cases}
use jia_tuan_server.Http.Execute.Sound.{Steady, rank}
use jia_tuan_server.Http.Execute.Sound.Dispatch.{dispatch-IsSound}

-- A parser that makes a caller stop: it is in an error or paused, or has seen an upgrade.
abbrev pub IsStopped : HttpParser → Type 0
IsStopped r = (is_ok r.http_errno ≡ false) ⊎ (r.upgrade ≡ true)

errored-IsStopped : {User : Type 0} → (x : Exec User) → is_ok (errored x).parser.http_errno ≡ false
errored-IsStopped x = ground arith

rank-small : (s : State) → rank s < fuel
rank-small State.header_value_discard_lws = omega arith
rank-small State.header_value_lws = omega arith
rank-small State.header_field_start = omega arith
rank-small State.headers_almost_done = omega arith
rank-small State.header_value = omega arith
rank-small State.body_identity = omega arith
rank-small State.start_req_or_res = omega arith
rank-small s = omega arith

-- A round comes to an end, and it ends the call only with a parser that makes its caller stop.
abbrev IsDecided : {User : Type 0} → Turn User → Type 0
IsDecided (next p x) = Unit
IsDecided (ended n x) = IsStopped x.parser
IsDecided asserted = Unit
IsDecided looped = ⊥

-- A call comes to an end, and it parses all `total` bytes unless its caller has to stop.
abbrev pub IsComplete : {User : Type 0} → (total : ℕ) → Executed User → Type 0
IsComplete total (returned n r u) = (n ≡ total) ⊎ IsStopped r
IsComplete total aborted = Unit
IsComplete total endless = ⊥

module _ (st : Settings) (steady : Steady st) (buf : Bytes) where
  open st use {User}

  reexecute-IsDecided :
      (left p : ℕ) (x : Exec User) (ch : ℕ) (rest : Bytes)
      → rank x.at < left
      → IsDecided (reexecute st buf left p x ch rest)
  unfolding reexecute
  reexecute-IsDecided zero p x ch rest enough = absurd (omega arith)
  reexecute-IsDecided (suc left) p x ch rest enough =
      let j = dispatch st buf x.at p x ch rest in
      let sound = dispatch-IsSound st steady buf x.at p x ch rest in
      elim (Step-cases j.step) [
        | inl (y, e) ↦ rw (e, IsDecided, reexecute) tt
        | inr (inl (y, e)) ↦
            rw (e, IsDecided, reexecute)
              (let lower_rank : rank y.at < rank x.at = rw e at sound in
                reexecute-IsDecided left (p + j.taken) y j.ch (drop j.taken rest) (omega arith))
        | inr (inr (inl (y, e))) ↦ rw (e, IsDecided, reexecute) (inl (errored-IsStopped y))
        | inr (inr (inr (inl (advance, y, e)))) ↦ rw (e, IsDecided, reexecute) (rw e at sound)
        | inr (inr (inr (inr e))) ↦ rw (e, IsDecided, reexecute) tt
      ]

  turn-IsDecided :
      (p : ℕ) (x : Exec User) (ch : ℕ) (rest : Bytes) → IsDecided (turn st buf p x ch rest)
  unfolding turn count_header_size
  turn-IsDecided p x ch rest = elim (Bool-cases (parsing_header x.at)) [
    | inl e ↦ elim (Bool-cases (ltb max_header_size ((x.parser.nread + 1) % 2 ^ 32))) [
      | inl f ↦ rw (e, f) (inl refl)
      | inr f ↦ rw (e, f) (reexecute-IsDecided fuel p _ ch rest (rank-small x.at))
    ]
    | inr e ↦ rw e (reexecute-IsDecided fuel p x ch rest (rank-small x.at))
  ]

  return_at-IsComplete : (p : ℕ) (s : Step User) → IsComplete p (return_at p s)
  return_at-IsComplete p (go x) = inl refl
  return_at-IsComplete p (again x) = tt
  return_at-IsComplete p (fail x) = tt
  return_at-IsComplete p (leave advance x) = inl refl
  return_at-IsComplete p abort = tt

  finish-IsComplete : (p : ℕ) (x : Exec User) → IsComplete p (finish st buf p x)
  unfolding finish
  finish-IsComplete p x = elim (Bool-cases (leb (count_marks x.mark) 1)) [
    | inl e ↦ rw e (return_at-IsComplete p (left_calls st buf p x))
    | inr e ↦ rw e tt
  ]

  main_loop-IsComplete :
      (total skip : ℕ) (text : Bytes) (p : ℕ) (x : Exec User)
      → p + length text ≡ total
      → IsComplete total (main_loop st buf skip text p x)
  unfolding main_loop
  main_loop-IsComplete total skip [] p x e =
      let same : p ≡ total = omega arith in
      subst (λ k. IsComplete k (finish st buf p x)) same (finish-IsComplete p x)
  main_loop-IsComplete total (suc k) (ch ∷ rest) p x e =
      main_loop-IsComplete total k rest (p + 1) x (omega arith)
  main_loop-IsComplete total zero (ch ∷ rest) p x e =
      let decided = turn-IsDecided p x ch rest in
      elim (Turn-cases (turn st buf p x ch rest)) [
        | inl (p', y, t) ↦
            rw (t, IsComplete, main_loop)
              (main_loop-IsComplete total (p' - p) rest (p + 1) y (omega arith))
        | inr (inl (n, y, t)) ↦ rw (t, IsComplete, main_loop) (inr (rw t at decided))
        | inr (inr (inl t)) ↦ rw (t, IsComplete, main_loop) tt
        | inr (inr (inr t)) ↦ absurd (rw t at decided)
      ]

abbrev Ends : {User : Type 0} → Executed User → Type 0
Ends (returned n r u) = Unit
Ends aborted = Unit
Ends endless = ⊥

IsComplete-Ends : {User : Type 0} → (n : ℕ) (e : Executed User) → IsComplete n e → Ends e
IsComplete-Ends n (returned k r u) h = tt
IsComplete-Ends n aborted h = tt
IsComplete-Ends n endless h = h

module _ (st : Settings) where
  open st use {User}

  return_eof-Ends : (s : Step User) → Ends (return_eof st s)
  return_eof-Ends (go x) = tt
  return_eof-Ends (again x) = tt
  return_eof-Ends (fail x) = tt
  return_eof-Ends (leave advance x) = tt
  return_eof-Ends abort = tt

  execute_eof-Ends : (s : State) (r : HttpParser) (u : User) → Ends (execute_eof st s r u)
  unfolding execute_eof
  execute_eof-Ends State.body_identity_eof r u = return_eof-Ends _
  execute_eof-Ends s r u = tt

call-IsComplete :
    (st : Settings) (steady : Steady st) (r : HttpParser) (u : st.User) (ch : ℕ) (rest : Bytes)
    → IsComplete (length (ch ∷ rest)) (http_parser_execute st r u (ch ∷ rest))
unfolding http_parser_execute
call-IsComplete st steady r u ch rest = elim (Bool-cases (is_ok r.http_errno)) [
  | inl e ↦ rw e (
      main_loop-IsComplete st steady (ch ∷ rest) (length (ch ∷ rest)) 0 (ch ∷ rest) 0 (opening r u)
        (omega arith))
  | inr e ↦ rw e (inr (inl e))
]

-- If the callbacks leave the members `state` and `upgrade` of the parser as they are, a call of
-- http_parser_execute with some input that does not parse all of it leaves a parser that is in an
-- error, is paused or has seen an upgrade.
pub early_return_reason :
    (st : Settings) (steady : Steady st) (r r' : HttpParser) (u u' : st.User) (ch n : ℕ)
    (rest : Bytes)
    → http_parser_execute st r u (ch ∷ rest) ≡ returned n r' u'
    → (n ≡ length (ch ∷ rest)) ⊎ (is_ok r'.http_errno ≡ false) ⊎ (r'.upgrade ≡ true)
early_return_reason st steady r r' u u' ch n rest e =
    subst (IsComplete (length (ch ∷ rest))) e (call-IsComplete st steady r u ch rest)

call-Ends :
    (st : Settings) (steady : Steady st) (r : HttpParser) (u : st.User) (buf : Bytes)
    → Ends (http_parser_execute st r u buf)
unfolding http_parser_execute
call-Ends st steady r u [] = elim (Bool-cases (is_ok r.http_errno)) [
  | inl e ↦ rw e (execute_eof-Ends st r.state r u)
  | inr e ↦ rw e tt
]
call-Ends st steady r u (ch ∷ rest) = IsComplete-Ends _ _ (call-IsComplete st steady r u ch rest)

-- If the callbacks leave the members `state` and `upgrade` of the parser as they are, every call of
-- http_parser_execute returns or fails an assertion: no round of its loop enters the switch more
-- than the eight times that the model allows.
pub http_parser_execute_ends :
    (st : Settings) (steady : Steady st) (r : HttpParser) (u : st.User) (buf : Bytes)
    → http_parser_execute st r u buf ≢ endless
http_parser_execute_ends st steady r u buf e = subst Ends e (call-Ends st steady r u buf)
