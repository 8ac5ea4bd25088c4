-- ===== src/Http/Execute/Reach.antt =====
-- The parsers that the functions of http_parser.c lead to, and what `http_parser_execute` does with
-- them.
pub mod Loop
use jia_tuan_server.Common.{
  ℕ, zero, suc, ◌+◌, ◌≤◌, ◌≡◌, ◌≢◌, refl, sym, ap, subst, ◌∙◌, Bool, true, false, Option, none,
  some, some_injective, none-ne-some, List, [], ◌∷◌, arith, Bytes, Bool-cases, Option-cases, inl,
  inr, ℤ,
}
use jia_tuan_server.Http.State
use jia_tuan_server.Http.State.{State}
use jia_tuan_server.Http.Parser.{
  HttpParser, HttpErrno, hpe_ok, ParserType, http_request, http_response, http_both, is_pausable,
  ullong_max, http_parser_init, http_parser_pause,
}
use jia_tuan_server.Http.Execute.Macros.{
  Settings, DataField, Notify, Exec, Step, go, again, fail, leave, abort, is_ok, after_call,
  notify_errno, notify, message_complete, returned_from,
}
use jia_tuan_server.Http.Execute.{
  Executed, returned, aborted, endless, saved, opening, first_mark, main_loop, return_eof,
  execute_eof, http_parser_execute,
}
use jia_tuan_server.Http.Execute.Sound.{Steady}
use jia_tuan_server.Http.Execute.Progress.{http_parser_execute_ends}
use jia_tuan_server.Http.Execute.Assertions.Fit.{IsBounded, IsFit, IsFit-set}
use jia_tuan_server.Http.Execute.Assertions.Safe.{IsPassive, SameParser, after_call-SameParser}
pub use Loop.{IsValid}
use Loop.{IsDone, main_loop-IsDone, first_mark-Only}

ok-pausable : (e : HttpErrno) → is_ok e ≡ true → is_pausable e ≡ true
ok-pausable hpe_ok ok = refl
ok-pausable e ok = cc

module _ (st : Settings) (passive : IsPassive st) where
  open st use {User}

  passive-Steady : Steady st
  passive-Steady = (
    λ f call e r u.
        let same = passive.0 f call e r u in
        (ap (λ (q : HttpParser). q.state) same, ap (λ (q : HttpParser). q.upgrade) same),
    λ f call e text r u.
        let same = passive.1 f call e text r u in
        (ap (λ (q : HttpParser). q.state) same, ap (λ (q : HttpParser). q.upgrade) same),
  )

  -- The members behind a callback.
  same-IsValid :
      (r r' : HttpParser) → SameParser r r' → IsBounded r × IsFit 0 r.state r → IsValid r'
  same-IsValid r r' same (bounded, fit) = λ pausable.
      subst (λ (q : HttpParser). IsBounded q × IsFit 0 q.state q) (sym same)
        (bounded, IsFit-set 0 r.state r.state r r'.http_errno r'.user_data fit)

  execute_eof-IsDone :
      (s : State) (r : HttpParser) (u : User)
      → is_ok r.http_errno ≡ true
      → IsBounded r × IsFit 0 r.state r
      → IsDone (execute_eof st s r u)
  unfolding execute_eof notify
  execute_eof-IsDone State.body_identity_eof r u ok fit =
      elim (Option-cases (st.on_notify message_complete)) [
        | inl e ↦ rw (ok, e) (λ pausable. fit)
        | inr (call, e) ↦
            let result = call r u in
            let same =
              after_call-SameParser (notify_errno message_complete) result.0 r result.1
                (passive.0 message_complete call e r u) in
            let valid = same-IsValid r _ same fit in
            elim (Bool-cases
              (is_ok (after_call (notify_errno message_complete) result.0 result.1).http_errno)) [
                | inl o ↦ rw (ok, e, o) valid
                | inr o ↦ rw (ok, e, o) valid
              ]
      ]
  execute_eof-IsDone State.dead r u ok fit = λ pausable. fit
  execute_eof-IsDone State.start_req_or_res r u ok fit = λ pausable. fit
  execute_eof-IsDone State.start_res r u ok fit = λ pausable. fit
  execute_eof-IsDone State.start_req r u ok fit = λ pausable. fit
  execute_eof-IsDone s r u ok fit = λ pausable. cc

  http_parser_execute-IsDone :
      (r : HttpParser) (u : User) (buf : Bytes)
      → IsValid r
      → IsDone (http_parser_execute st r u buf)
  unfolding http_parser_execute
  http_parser_execute-IsDone r u [] valid = elim (Bool-cases (is_ok r.http_errno)) [
    | inl ok ↦ rw ok (execute_eof-IsDone r.state r u ok (valid (ok-pausable r.http_errno ok)))
    | inr bad ↦ rw bad valid
  ]
  http_parser_execute-IsDone r u (ch ∷ rest) valid = elim (Bool-cases (is_ok r.http_errno)) [
    | inl ok ↦
        let fit = valid (ok-pausable r.http_errno ok) in
        rw ok (
          main_loop-IsDone st passive (ch ∷ rest) 0 (ch ∷ rest) 0 (opening r u)
            ((ok, fit.0), fit.1, first_mark-Only r.state))
    | inr bad ↦ rw bad valid
  ]

-- A parser that http_parser_init made, behind any number of calls of http_parser_execute and of
-- http_parser_pause, with any input.
pub data Reachable (st : Settings) : HttpParser → Type 0 where
  started : (raw : HttpParser) (t : ParserType) → Reachable st (http_parser_init raw t)
  executed :
      {r : HttpParser} (u : st.User) (buf : Bytes) (n : ℕ) (r' : HttpParser) (u' : st.User)
      → Reachable st r
      → http_parser_execute st r u buf ≡ returned n r' u'
      → Reachable st r'
  stopped :
      {r : HttpParser} (on : Bool) (r' : HttpParser)
      → Reachable st r
      → http_parser_pause r on ≡ some r'
      → Reachable st r'

init-IsValid : (raw : HttpParser) (t : ParserType) → IsValid (http_parser_init raw t)
unfolding http_parser_init
init-IsValid raw http_request pausable = (omega arith, tt)
init-IsValid raw http_response pausable = (omega arith, tt)
init-IsValid raw http_both pausable = (omega arith, tt)

http_parser_pause-IsValid :
    (r : HttpParser) (on : Bool) (r' : HttpParser)
    → IsValid r
    → http_parser_pause r on ≡ some r'
    → IsValid r'
unfolding http_parser_pause
http_parser_pause-IsValid r on r' valid e = elim (Bool-cases (is_pausable r.http_errno)) [
  | inl can ↦
      let fit = valid can in
      let same = some_injective (rw can at e) in
      subst IsValid same λ pausable. (fit.0, IsFit-set 0 r.state r.state r _ r.user_data fit.1)
  | inr cannot ↦ absurd (none-ne-some (rw cannot at e))
]

module _ (st : Settings) (passive : IsPassive st) where
  open st use {User}

  -- If the callbacks change nothing of the parser but its error and its user pointer, then in every
  -- reachable parser, unless it is in an error other than a pause, the content length fits into 64
  -- bits and the members are fit for the state: in the states of a chunk the flag for chunks is
  -- set, the counter of bytes is 0 where a size begins, the size read so far has no overflow, the
  -- chunk that is read has a length, and 0 bytes of it are left behind its data; a body that is
  -- read by length has one; and inside a header's name or value the header state is one of a name
  -- or of a value.
  pub reachable-IsValid : (r : HttpParser) → Reachable st r → IsValid r
  reachable-IsValid _ (started raw t) = init-IsValid raw t
  reachable-IsValid _ (executed {r} u buf n r' u' reach e) =
      subst IsDone e (http_parser_execute-IsDone st passive r u buf (reachable-IsValid r reach))
  reachable-IsValid _ (stopped {r} on r' reach e) =
      http_parser_pause-IsValid r on r' (reachable-IsValid r reach) e

  returned_lem :
      (x : Executed User)
      → IsDone x
      → x ≢ endless
      → (n : ℕ) × (r' : HttpParser) × (u' : User) × (x ≡ returned n r' u')
  returned_lem (returned n r u) done ends = (n, r, u, refl)
  returned_lem aborted done ends = absurd done
  returned_lem endless done ends = absurd (ends refl)

  -- If the callbacks change nothing of the parser but its error and its user pointer, then every
  -- call of http_parser_execute on a reachable parser, whatever the input is, returns: none of its
  -- assertions fails and its loop ends.
  pub no_assertion_fails :
      (r : HttpParser)
      → Reachable st r
      → (u : User) (buf : Bytes)
      → (n : ℕ) × (r' : HttpParser) × (u' : User) × (http_parser_execute st r u buf
          ≡ returned n r' u')
  no_assertion_fails r reach u buf =
      returned_lem (http_parser_execute st r u buf)
        (http_parser_execute-IsDone st passive r u buf (reachable-IsValid r reach))
        (http_parser_execute_ends st (passive-Steady st passive) r u buf)
