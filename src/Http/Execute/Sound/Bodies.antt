-- ===== src/Http/Execute/Sound/Bodies.antt =====
-- The cases of `http_parser_execute` of http_parser.c that make callbacks from the end of a header on.
use Prim.Native.Nat.{min}
use jia_tuan_server.Common.{
  pos, negsuc, length, ◌||◌, ℕ, zero, suc, ◌+◌, ◌-◌, ◌<◌, ◌≡◌, refl, Bool, true, false, ◌∷◌,
  if◌then◌else◌, ◌==◌, arith, Bytes, ◌∙◌, Bool-cases, inl, inr, Option-cases, ℤ,
}
use jia_tuan_server.Http.State.{
  State, header_value_discard_lws, header_field_start, headers_almost_done, body_identity,
}
use jia_tuan_server.Http.Parser.{HttpParser}
use jia_tuan_server.Http.Execute.Macros.{
  to, message_complete, chunk_header, chunk_complete, headers_complete, header_value, body,
  with_parser, mark_at, Settings, Exec, Step, go, again, leave, is_ok, strict,
}
use jia_tuan_server.Http.Execute.Value.Scan.{flag_of}
use jia_tuan_server.Http.Execute.Headers.{
  at_header_value_discard_lws, at_headers_almost_done, headers_called, framed, Framing,
  other_protocol, no_body, in_chunks, of_length, until_eof, framing, at_headers_done, ok_or_leave,
  asks_upgrade,
}
use jia_tuan_server.Http.Execute.Body.{
  assert, is_length, with_length, at_body_identity, at_message_done, at_chunk_size_almost_done,
  at_chunk_data, at_chunk_data_almost_done, at_chunk_data_done,
}
use jia_tuan_server.Http.Execute.Sound.{Steady, IsSound, notify-IsSound, data_call-IsSound, rank}

module _ (st : Settings) (steady : Steady st) where
  open st use {User, on_notify, on_data}

  pub at_header_value_discard_lws-IsSound :
      (buf : Bytes) (p : ℕ) (x : Exec User) (ch : ℕ)
      → IsSound header_value_discard_lws (at_header_value_discard_lws st buf p x ch)
  unfolding at_header_value_discard_lws
  at_header_value_discard_lws-IsSound buf p x ch = elim (Bool-cases (ch == 0x20 || ch == 0x09)) [
    | inl e ↦ rw e tt
    | inr e ↦ rw e (
        data_call-IsSound st steady header_value_discard_lws header_value buf p false
          (to header_field_start
            (mark_at header_value p (with_parser (flag_of x.parser.header_state x.parser) x)))
          again λ y same. rw (same.0) (omega arith))
  ]

  pub ok_or_leave-IsSound :
      (s : State) (y : Exec User) → rank y.at < rank s → IsSound s (ok_or_leave y)
  ok_or_leave-IsSound s y lower_rank = elim (Bool-cases (is_ok y.parser.http_errno)) [
    | inl e ↦ rw e lower_rank
    | inr e ↦ rw e (inl e)
  ]

  pub headers_called-IsSound :
      (x : Exec User) (result : ℤ) (r : HttpParser) (u : User)
      → x.at ≡ State.headers_done
      → IsSound headers_almost_done (headers_called x (result, r, u))
  headers_called-IsSound x (pos zero) r u e =
      ok_or_leave-IsSound headers_almost_done _ (rw e (omega arith))
  headers_called-IsSound x (pos (suc zero)) r u e =
      ok_or_leave-IsSound headers_almost_done _ (rw e (omega arith))
  headers_called-IsSound x (pos (suc (suc n))) r u e = inl refl
  headers_called-IsSound x (negsuc n) r u e = inl refl

  pub at_headers_almost_done-IsSound :
      (buf : Bytes) (x : Exec User) (ch : ℕ)
      → IsSound headers_almost_done (at_headers_almost_done st buf x ch)
  unfolding at_headers_almost_done
  at_headers_almost_done-IsSound buf x ch = elim (Bool-cases (ch == 0x0a)) [
    | inr e ↦ rw e tt
    | inl e ↦ elim (Bool-cases x.parser.flags.trailing) [
      | inl t ↦
          rw (e, t)
            (notify-IsSound st steady headers_almost_done chunk_complete false _ again
              λ y same. rw (same.0) (omega arith))
      | inr t ↦ elim (Option-cases (on_notify headers_complete)) [
        | inl c ↦ rw (e, t, c) (ok_or_leave-IsSound headers_almost_done _ (omega arith))
        | inr (call, c) ↦
            rw (e, t, c)
              (let r = record x.parser { upgrade = asks_upgrade x.parser } in
                let answer = call r x.user in
                headers_called-IsSound (to State.headers_done (with_parser r x)) answer.0 answer.1
                  answer.2 refl)
      ]
    ]
  ]

  pub framing_upgrade : (r : HttpParser) → framing r ≡ other_protocol → r.upgrade ≡ true
  unfolding framing
  framing_upgrade r e = ground arith

  pub framed-IsSound :
      (s : State) (buf : Bytes) (f : Framing) (x : Exec User)
      → (f ≡ other_protocol → x.parser.upgrade ≡ true)
      → IsSound s (framed st buf f x)
  framed-IsSound s buf other_protocol x up =
      notify-IsSound st steady s message_complete true _ (leave true)
        λ y same. inr (same.1 ∙ up refl)
  framed-IsSound s buf no_body x up =
      notify-IsSound st steady s message_complete true _ go (λ y same. tt)
  framed-IsSound s buf in_chunks x up = tt
  framed-IsSound s buf of_length x up = tt
  framed-IsSound s buf until_eof x up = tt

  pub at_headers_done-IsSound :
      (s : State) (buf : Bytes) (x : Exec User) (ch : ℕ) → IsSound s (at_headers_done st buf x ch)
  unfolding at_headers_done
  at_headers_done-IsSound s buf x ch = elim (Bool-cases (ch == 0x0a)) [
    | inl e ↦ rw e (framed-IsSound s buf _ _ (framing_upgrade (record x.parser { nread = 0 })))
    | inr e ↦ rw e tt
  ]

  pub at_body_identity-IsSound :
      (buf : Bytes) (p : ℕ) (x : Exec User) (ch : ℕ) (rest : Bytes)
      → IsSound body_identity (at_body_identity st buf p x ch rest).step
  unfolding at_body_identity
  at_body_identity-IsSound buf p x ch rest =
      let n = x.parser.content_length in
      let to_read = min n (length (ch ∷ rest)) in
      elim (Bool-cases (is_length n)) [
        | inr e ↦ rw e tt
        | inl e ↦ elim (Bool-cases (n - to_read == 0)) [
          | inl z ↦
              rw (e, z)
                (data_call-IsSound st steady body_identity body buf (p + to_read) false
                  (to State.message_done (with_length (n - to_read) (mark_at body p x))) again
                  λ y same. rw (same.0) (omega arith))
          | inr z ↦ rw (e, z) tt
        ]
      ]

  pub at_message_done-IsSound :
      (s : State) (buf : Bytes) (x : Exec User) (ch : ℕ) → IsSound s (at_message_done st buf x ch)
  unfolding at_message_done
  at_message_done-IsSound s buf x ch =
      notify-IsSound st steady s message_complete true _
        (λ y. if y.parser.upgrade then leave true y else go y)
        λ y same. elim (Bool-cases y.parser.upgrade) [ inl e ↦ rw e (inr refl) | inr e ↦ rw e tt ]

  pub assert-IsSound :
      (s : State) (holds : Bool) (next : Step User) → IsSound s next → IsSound s (assert holds next)
  assert-IsSound s true next sound = sound
  assert-IsSound s false next sound = tt

  pub strict-IsSound :
      (s : State) (holds : Bool) (x : Exec User) (next : Step User)
      → IsSound s next
      → IsSound s (strict holds x next)
  strict-IsSound s true x next sound = sound
  strict-IsSound s false x next sound = tt

  pub at_chunk_data-IsSound :
      (s : State) (p : ℕ) (x : Exec User) (ch : ℕ) (rest : Bytes)
      → IsSound s (at_chunk_data p x ch rest).step
  unfolding at_chunk_data
  at_chunk_data-IsSound s p x ch rest = ground arith

  pub at_chunk_size_almost_done-IsSound :
      (s : State) (buf : Bytes) (x : Exec User) (ch : ℕ)
      → IsSound s (at_chunk_size_almost_done st buf x ch)
  unfolding at_chunk_size_almost_done
  at_chunk_size_almost_done-IsSound s buf x ch = assert-IsSound s x.parser.flags.chunked _ (
      strict-IsSound s (ch == 0x0a) x _
        (notify-IsSound st steady s chunk_header true _ go (λ y same. tt)))

  pub at_chunk_data_almost_done-IsSound :
      (s : State) (buf : Bytes) (p : ℕ) (x : Exec User) (ch : ℕ)
      → IsSound s (at_chunk_data_almost_done st buf p x ch)
  unfolding at_chunk_data_almost_done
  at_chunk_data_almost_done-IsSound s buf p x ch = assert-IsSound s _ _ (
      strict-IsSound s (ch == 0x0d) x _ (
        data_call-IsSound st steady s body buf p true (to State.chunk_data_done x) go
          (λ y same. tt)))

  pub at_chunk_data_done-IsSound :
      (s : State) (buf : Bytes) (x : Exec User) (ch : ℕ)
      → IsSound s (at_chunk_data_done st buf x ch)
  unfolding at_chunk_data_done
  at_chunk_data_done-IsSound s buf x ch = assert-IsSound s x.parser.flags.chunked _ (
      strict-IsSound s (ch == 0x0a) x _
        (notify-IsSound st steady s chunk_complete true _ go (λ y same. tt)))
