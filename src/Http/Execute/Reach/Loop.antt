-- ===== src/Http/Execute/Reach/Loop.antt =====
-- The loop of `http_parser_execute` of http_parser.c, from a parser whose members are fit for its
-- state.
use jia_tuan_server.Common.{
  ℕ, zero, suc, ◌+◌, ◌-◌, ◌≡◌, ◌%◌, ◌^◌, refl, Bool, true, false, Option, none, some, [], ◌∷◌, ltb,
  arith, Bytes, drop, Bool-cases, inl, inr,
}
use jia_tuan_server.Http.State.{State, parsing_header}
use jia_tuan_server.Http.Parser.{HttpParser, is_pausable}
use jia_tuan_server.Http.Execute.Macros.{
  data_call, Settings, DataField, url, status, header_field, header_value, body, Exec, Step, go,
  again, fail, leave, abort, same_field, count_header_size, max_header_size,
}
use jia_tuan_server.Http.Execute.{
  Executed, returned, aborted, endless, Turn, next, ended, asserted, looped, errored, saved,
  return_at, left_calls, first_mark, fuel, dispatch, reexecute, turn, finish, main_loop,
}
use jia_tuan_server.Http.Execute.Bounds.{Step-cases, Turn-cases}
use jia_tuan_server.Http.Execute.Assertions.Fit.{
  IsOk, IsBounded, IsFit, IsFit-set, Only, owner, count_marks-le,
}
use jia_tuan_server.Http.Execute.Assertions.Safe.{IsGood, IsPassive}
use jia_tuan_server.Http.Execute.Assertions.Callbacks.{data_call_lem}
use jia_tuan_server.Http.Execute.Assertions.Dispatch.{dispatch-IsSafe}

-- A parser between two calls: unless it is in an error, its members are fit for its state.
abbrev pub IsValid : HttpParser → Type 0
IsValid r = is_pausable r.http_errno ≡ true → IsBounded r × IsFit 0 r.state r

abbrev IsSafeTurn : {User : Type 0} → Turn User → Type 0
IsSafeTurn (next p x) = IsGood 0 x
IsSafeTurn (ended n x) = IsValid (saved x)
IsSafeTurn asserted = ⊥
IsSafeTurn looped = Unit

abbrev pub IsDone : {User : Type 0} → Executed User → Type 0
IsDone (returned n r u) = IsValid r
IsDone aborted = ⊥
IsDone endless = Unit

module _ {User : Type 0} where
  pub saved-IsValid :
      (x : Exec User) → IsBounded x.parser × IsFit 0 x.at x.parser → IsValid (saved x)
  saved-IsValid x (bounded, fit) = λ pausable.
      (bounded, IsFit-set 0 x.at x.at x.parser x.parser.http_errno x.parser.user_data fit)

  errored-IsValid :
      (x : Exec User) → is_pausable x.parser.http_errno ≡ false → IsValid (saved (errored x))
  errored-IsValid x bad = λ pausable. absurd (ground arith)

-- The counter of a header's bytes at the next byte.
counted-IsFit :
    (s : State) (r : HttpParser)
    → IsFit 0 s r
    → IsFit 1 s (record r { nread = (r.nread + 1) % 2 ^ 32 })
counted-IsFit State.chunk_size_start r (none_read, chunked) = (rw none_read (omega arith), chunked)
counted-IsFit s r fit = fit

body-IsFit : (s : State) (r : HttpParser) → parsing_header s ≡ false → IsFit 0 s r → IsFit 1 s r
body-IsFit State.chunk_size_start r e fit = cc
body-IsFit s r e fit = fit

module _ (st : Settings) (passive : IsPassive st) (buf : Bytes) where
  open st use {User}

  reexecute-IsSafeTurn :
      (left p : ℕ) (x : Exec User) (ch : ℕ) (rest : Bytes)
      → IsGood 1 x
      → IsSafeTurn (reexecute st buf left p x ch rest)
  unfolding reexecute
  reexecute-IsSafeTurn zero p x ch rest good = tt
  reexecute-IsSafeTurn (suc left) p x ch rest (ok, fit, only) =
      let j = dispatch st buf x.at p x ch rest in
      let safe = dispatch-IsSafe st passive buf x.at p x ch rest ok refl fit only in
      elim (Step-cases j.step) [
        | inl (y, e) ↦ rw (e, IsSafeTurn, reexecute) (rw e at safe)
        | inr (inl (y, e)) ↦
            rw (e, IsSafeTurn, reexecute)
              (reexecute-IsSafeTurn left (p + j.taken) y j.ch (drop j.taken rest) (rw e at safe))
        | inr (inr (inl (y, e))) ↦ rw (e, IsSafeTurn, reexecute) (errored-IsValid y (rw e at safe))
        | inr (inr (inr (inl (advance, y, e)))) ↦
            rw (e, IsSafeTurn, reexecute) (saved-IsValid y (rw e at safe))
        | inr (inr (inr (inr e))) ↦ absurd (rw e at safe)
      ]

  turn-IsSafeTurn :
      (p : ℕ) (x : Exec User) (ch : ℕ) (rest : Bytes)
      → IsGood 0 x
      → IsSafeTurn (turn st buf p x ch rest)
  unfolding turn count_header_size
  turn-IsSafeTurn p x ch rest (ok, fit, only) = elim (Bool-cases (parsing_header x.at)) [
    | inl e ↦ elim (Bool-cases (ltb max_header_size ((x.parser.nread + 1) % 2 ^ 32))) [
      | inl f ↦ rw (e, f) (λ pausable. cc)
      | inr f ↦
          rw (e, f)
            (reexecute-IsSafeTurn fuel p _ ch rest (ok, counted-IsFit x.at x.parser fit, only))
    ]
    | inr e ↦
        rw e (reexecute-IsSafeTurn fuel p x ch rest (ok, body-IsFit x.at x.parser e fit, only))
  ]

  -- The callbacks behind the loop.
  abbrev IsReturn : Step User → Type 0
  IsReturn (go y) = IsBounded y.parser × IsFit 0 y.at y.parser
  IsReturn (leave advance y) = IsBounded y.parser × IsFit 0 y.at y.parser
  IsReturn (again y) = ⊥
  IsReturn (fail y) = ⊥
  IsReturn abort = ⊥

  return_at-IsDone : (p : ℕ) (s : Step User) → IsReturn s → IsDone (return_at p s)
  return_at-IsDone p (go y) safe = saved-IsValid y safe
  return_at-IsDone p (leave advance y) safe = saved-IsValid y safe
  return_at-IsDone p (again y) safe = safe
  return_at-IsDone p (fail y) safe = safe
  return_at-IsDone p abort safe = safe

  left_call :
      (f : DataField) (p : ℕ) (x : Exec User) (after : Exec User → Step User)
      → IsOk x.parser × IsFit 0 x.at x.parser
      → ((y : Exec User) → IsOk y.parser × IsFit 0 y.at y.parser → IsReturn (after y))
      → IsReturn (data_call st f buf p false x after)
  left_call f p x after (ok, fit) then_after =
      data_call_lem st passive IsReturn (λ advance y safe. safe) 0 f buf p false x after ok fit fit
        λ y (ok', fit', at') cleared. then_after y (ok', fit')

  left_calls-IsReturn :
      (p : ℕ) (x : Exec User)
      → IsOk x.parser × IsFit 0 x.at x.parser
      → IsReturn (left_calls st buf p x)
  unfolding left_calls
  left_calls-IsReturn p x good = left_call header_field p x _ good λ x1 good1.
      left_call header_value p x1 _ good1 λ x2 good2. left_call url p x2 _ good2 λ x3 good3.
        left_call body p x3 _ good3
          λ x4 good4. left_call status p x4 go good4 λ y (ok, fit). (ok.1, fit)

  finish-IsDone : (p : ℕ) (x : Exec User) → IsGood 0 x → IsDone (finish st buf p x)
  unfolding finish
  finish-IsDone p x (ok, fit, only) =
      rw (count_marks-le (owner x.at) x.mark only)
        (return_at-IsDone p (left_calls st buf p x) (left_calls-IsReturn p x (ok, fit)))

  pub main_loop-IsDone :
      (skip : ℕ) (text : Bytes) (p : ℕ) (x : Exec User)
      → IsGood 0 x
      → IsDone (main_loop st buf skip text p x)
  unfolding main_loop
  main_loop-IsDone skip [] p x good = finish-IsDone p x good
  main_loop-IsDone (suc k) (ch ∷ rest) p x good = main_loop-IsDone k rest (p + 1) x good
  main_loop-IsDone zero (ch ∷ rest) p x good =
      let safe = turn-IsSafeTurn p x ch rest good in
      elim (Turn-cases (turn st buf p x ch rest)) [
        | inl (p', y, t) ↦
            rw (t, IsDone, main_loop) (main_loop-IsDone (p' - p) rest (p + 1) y (rw t at safe))
        | inr (inl (n, y, t)) ↦ rw (t, IsDone, main_loop) (rw t at safe)
        | inr (inr (inl t)) ↦ absurd (rw t at safe)
        | inr (inr (inr t)) ↦ rw (t, IsDone, main_loop) tt
      ]

-- The marks at the beginning of a call belong to the state.
owned : Option DataField → DataField → Bool
owned none f = false
owned (some g) f = same_field g f

first_mark-owned : (s : State) (f : DataField) → owned (owner s) f ≡ false → first_mark s f ≡ none
unfolding owned
first_mark-owned State.header_field header_field e = cc
first_mark-owned s f e = ground arith

Only-owned :
    (o : Option DataField) (mark : DataField → Option ℕ)
    → ((f : DataField) → owned o f ≡ false → mark f ≡ none)
    → Only o mark
unfolding owned
Only-owned none mark h = λ f. h f refl
Only-owned (some g) mark h = h

pub first_mark-Only : (s : State) → Only (owner s) (first_mark s)
first_mark-Only s = Only-owned (owner s) (first_mark s) (first_mark-owned s)
