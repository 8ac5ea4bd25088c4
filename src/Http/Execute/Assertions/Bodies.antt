-- ===== src/Http/Execute/Assertions/Bodies.antt =====
-- The cases of `http_parser_execute` of http_parser.c from the end of all headers on.
use jia_tuan_server.Common.{
  ℕ, zero, suc, pos, negsuc, ℤ, length, ◌+◌, ◌-◌, ◌≡◌, ◌≤◌, refl, ap, subst, sym, true, false, none,
  some, ◌∷◌, ◌==◌, if◌then◌else◌, arith, Bytes, Bool-cases, Option-cases, inl, inr,
}
use jia_tuan_server.Http.State.{State}
use jia_tuan_server.Http.Execute.Assertions.Fit.{
  is_plain, Only, Only-none, IsOk, IsBounded, plain-IsFit,
}
use jia_tuan_server.Http.Execute.Assertions.Safe.{
  IsGood, IsSafe, IsPassive, mark_at-Only, plain-IsGood,
}
use jia_tuan_server.Http.Execute.Assertions.Callbacks.{notify-IsSafe, notify_again, data_call_again}
use jia_tuan_server.Http.Parser.{HttpParser, ullong_max}
use jia_tuan_server.Http.Execute.Macros.{
  Settings, Exec, Step, is_ok, new_message, notify, to, go, leave, with_parser,
}
use Prim.Native.Nat.{min}
use jia_tuan_server.Http.State.{State}
use jia_tuan_server.Http.Parser.{HttpParser}
use jia_tuan_server.Http.Execute.Macros.{
  to, message_complete, chunk_complete, headers_complete, body, with_parser, Settings, Exec, Step,
  go, leave, is_ok,
}
use jia_tuan_server.Http.Execute.Headers.{
  at_headers_almost_done, headers_called, framed, Framing, other_protocol, no_body, in_chunks,
  of_length, until_eof, framing, at_headers_done, ok_or_leave, asks_upgrade,
}
use jia_tuan_server.Http.Execute.Body.{is_length, at_body_identity, at_message_done}
use jia_tuan_server.Http.Execute.Body.{at_body_identity_eof}
use jia_tuan_server.Http.Execute.Assertions.Chunks.{
  left_length, assert-IsSafe, strict-IsSafe, if-IsSafe,
}

-- The state behind a message is the start of the next one, or dead.
new_message_plain : (r : HttpParser) → is_plain (new_message r) ≡ true
unfolding new_message
new_message_plain r = ground arith

framing_chunks : (r : HttpParser) → framing r ≡ in_chunks → r.flags.chunked ≡ true
unfolding framing
framing_chunks r e = ground arith

framing_length : (r : HttpParser) → framing r ≡ of_length → is_length r.content_length ≡ true
unfolding framing
framing_length r e = ground arith

module _ {User : Type 0} where
  ok_or_leave-IsSafe :
      (y : Exec User)
      → IsBounded y.parser
      → is_plain y.at ≡ true
      → Only none y.mark
      → IsSafe (ok_or_leave y)
  ok_or_leave-IsSafe y bounded plain clean = elim (Bool-cases (is_ok y.parser.http_errno)) [
    | inl e ↦ rw e (plain-IsGood 1 y (e, bounded) plain clean)
    | inr e ↦ rw e (bounded, plain-IsFit 0 y.at y.parser plain)
  ]

  headers_called-IsSafe :
      (x : Exec User) (result : ℤ) (r : HttpParser) (u : User)
      → IsBounded r
      → is_plain x.at ≡ true
      → Only none x.mark
      → IsSafe (headers_called x (result, r, u))
  headers_called-IsSafe x (pos zero) r u bounded plain clean =
      ok_or_leave-IsSafe _ bounded plain clean
  headers_called-IsSafe x (pos (suc zero)) r u bounded plain clean =
      ok_or_leave-IsSafe _ bounded plain clean
  headers_called-IsSafe x (pos (suc (suc n))) r u bounded plain clean =
      (bounded, plain-IsFit 0 x.at _ plain)
  headers_called-IsSafe x (negsuc n) r u bounded plain clean = (bounded, plain-IsFit 0 x.at _ plain)

  pub at_body_identity_eof-IsSafe :
      (p : ℕ) (x : Exec User) (ch : ℕ) (rest : Bytes)
      → IsOk x.parser
      → x.at ≡ State.body_identity_eof
      → Only (some body) x.mark
      → IsSafe (at_body_identity_eof p x ch rest).step
  unfolding at_body_identity_eof
  at_body_identity_eof-IsSafe p x ch rest ok at' only =
      (ok, rw at' tt, rw at' (mark_at-Only body p x only))

module _ (st : Settings) (passive : IsPassive st) where
  open st use {User, on_notify}

  pub at_headers_almost_done-IsSafe :
      (buf : Bytes) (x : Exec User) (ch : ℕ)
      → IsOk x.parser
      → Only none x.mark
      → IsSafe (at_headers_almost_done st buf x ch)
  unfolding at_headers_almost_done
  at_headers_almost_done-IsSafe buf x ch ok clean =
      strict-IsSafe (ch == 0x0a) x _ (elim (Bool-cases x.parser.flags.trailing) [
        | inl t ↦
            rw t
              (notify_again st passive chunk_complete false (to State.message_done x) ok refl clean)
        | inr t ↦
            let y : Exec User =
              to State.headers_done
                (with_parser (record x.parser { upgrade = asks_upgrade x.parser }) x) in
            elim (Option-cases (on_notify headers_complete)) [
              | inl c ↦ rw (t, c) (ok_or_leave-IsSafe y ok.1 refl clean)
              | inr (call, c) ↦
                  rw (t, c)
                    (let answer = call y.parser y.user in
                      let same = passive.0 headers_complete call c y.parser y.user in
                      let bounded : IsBounded answer.1 =
                        subst (λ k. k ≤ ullong_max)
                          (sym (ap (λ (q : HttpParser). q.content_length) same)) ok.1 in
                      headers_called-IsSafe y answer.0 answer.1 answer.2 bounded refl clean)
            ]
      ])

  message_ends :
      (x : Exec User) (next : Exec User → Step User)
      → IsOk x.parser
      → Only none x.mark
      → ((y : Exec User) → IsGood 0 y → IsSafe (next y))
      → IsSafe (notify st message_complete true (to (new_message x.parser) x) next)
  message_ends x next ok clean then_next =
      notify-IsSafe st passive message_complete true (to (new_message x.parser) x) next
        (plain-IsGood 0 (to (new_message x.parser) x) ok (new_message_plain x.parser) clean)
        λ y good at'. then_next y good

  framed-IsSafe :
      (buf : Bytes) (f : Framing) (x : Exec User)
      → IsOk x.parser
      → x.parser.nread ≡ 0
      → Only none x.mark
      → (f ≡ in_chunks → x.parser.flags.chunked ≡ true)
      → (f ≡ of_length → is_length x.parser.content_length ≡ true)
      → IsSafe (framed st buf f x)
  framed-IsSafe buf other_protocol x ok zero_read clean chunks some_length =
      message_ends x (leave true) ok clean λ y (ok', fit, only). (ok'.1, fit)
  framed-IsSafe buf no_body x ok zero_read clean chunks some_length =
      message_ends x go ok clean λ y good. good
  framed-IsSafe buf in_chunks x ok zero_read clean chunks some_length =
      (ok, (zero_read, chunks refl), clean)
  framed-IsSafe buf of_length x ok zero_read clean chunks some_length =
      (ok, some_length refl, Only-none (some body) x.mark clean)
  framed-IsSafe buf until_eof x ok zero_read clean chunks some_length =
      (ok, tt, Only-none (some body) x.mark clean)

  pub at_headers_done-IsSafe :
      (buf : Bytes) (x : Exec User) (ch : ℕ)
      → IsOk x.parser
      → Only none x.mark
      → IsSafe (at_headers_done st buf x ch)
  unfolding at_headers_done
  at_headers_done-IsSafe buf x ch ok clean =
      let r = record x.parser { nread = 0 } in
      strict-IsSafe (ch == 0x0a) x _ (
        framed-IsSafe buf (framing r) (with_parser r x) ok refl clean (framing_chunks r)
          (framing_length r))

  pub at_message_done-IsSafe :
      (buf : Bytes) (x : Exec User) (ch : ℕ)
      → IsOk x.parser
      → Only none x.mark
      → IsSafe (at_message_done st buf x ch)
  unfolding at_message_done
  at_message_done-IsSafe buf x ch ok clean =
      message_ends x (λ y. if y.parser.upgrade then leave true y else go y) ok clean
        λ y good. if-IsSafe y.parser.upgrade (leave true y) (go y) (good.0.1, good.1) good

  pub at_body_identity-IsSafe :
      (buf : Bytes) (p : ℕ) (x : Exec User) (ch : ℕ) (rest : Bytes)
      → IsOk x.parser
      → x.at ≡ State.body_identity
      → is_length x.parser.content_length ≡ true
      → Only (some body) x.mark
      → IsSafe (at_body_identity st buf p x ch rest).step
  unfolding at_body_identity
  at_body_identity-IsSafe buf p x ch rest ok at' some_length only =
      let n = x.parser.content_length in
      let to_read = min n (length (ch ∷ rest)) in
      let marked = mark_at-Only body p x only in
      let less : n - to_read ≤ ullong_max = (let bounded = ok.1 in omega arith) in
      let left_ok : (is_ok x.parser.http_errno ≡ true) × (n - to_read ≤ ullong_max) =
        (ok.0, less) in
      assert-IsSafe (is_length n) _ some_length (elim (Bool-cases (n - to_read == 0)) [
        | inl z ↦
            rw z (data_call_again st passive body buf (p + to_read) false _ left_ok refl marked)
        | inr z ↦ rw z (left_ok, rw at' (left_length n to_read ok.1 some_length z), rw at' marked)
      ])
