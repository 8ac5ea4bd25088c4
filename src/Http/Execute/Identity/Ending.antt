-- ===== src/Http/Execute/Identity/Ending.antt =====
-- The last piece of a body with a Content-Length in `http_parser_execute` of http_parser.c.
use Prim.Native.Nat.{min}
use jia_tuan_server.Common.{
  ℕ, ◌+◌, ◌-◌, ◌<◌, ◌≡◌, refl, ap, ◌∙◌, false, ◌∷◌, arith, Bytes, length, take, drop,
}
use jia_tuan_server.Http.State.{State}
use jia_tuan_server.Http.Parser.{HttpParser, ullong_max}
use jia_tuan_server.Http.Execute.Macros.{
  Settings, Exec, body, go, again, notify, data_call, unmark, new_message, mark_at, to,
}
use jia_tuan_server.Http.Execute.Body.{at_body_identity, at_message_done, with_length}
use jia_tuan_server.Http.Execute.{
  returned, next, still, left_calls, opening, dispatch, turn, finish, main_loop,
  http_parser_execute,
}
use jia_tuan_server.Http.Execute.Identity.{
  HandlesBody, HandlesEnd, waiting, done_with_body, behind_message, main_loop-skip, behind,
  reexecute-behind, take-length, min-same, is_length_some,
}

module _ (st : Settings) (take_body : Bytes → st.User → st.User) (complete : st.User → st.User)
    (handles : HandlesBody st take_body) (ends : HandlesEnd st complete) where
  open st use {User}

  -- The variables behind the callback on_body, and behind on_message_complete.
  abbrev delivered : HttpParser → ℕ → Bytes → User → Exec User
  delivered r n buf u = unmark body (record {
    parser = done_with_body r;
    at = State.message_done;
    mark = (mark_at body 0 (opening (waiting r n) u)).mark;
    user = take_body buf u;
  })

  abbrev completed : HttpParser → ℕ → Bytes → User → Exec User
  completed r n buf u = record (delivered r n buf u) {
    parser = behind_message r;
    at = new_message (done_with_body r);
    user = complete (take_body buf u);
  }

  message_done_completes :
      (buf : Bytes) (r : HttpParser) (n : ℕ) (u : User) (ch : ℕ)
      → at_message_done st buf (delivered r n buf u) ch ≡ go (completed r n buf u)
  unfolding at_message_done notify
  message_done_completes buf r n u ch = rw ends refl

  -- `k` is the length that is left, and `end` the offset behind the body.
  abbrev delivered_at : HttpParser → (n k end : ℕ) → Bytes → User → Exec User
  delivered_at r n k end buf u =
      let y = delivered r n (take (end - 0) buf) u in
      record y { parser = record y.parser { content_length = k } }

  call_delivers :
      (buf : Bytes) (r : HttpParser) (n k end : ℕ) (u : User)
      → data_call st body buf end false
          (to State.message_done (with_length k (mark_at body 0 (opening (waiting r n) u))))
          again
        ≡ again (delivered_at r n k end buf u)
  unfolding data_call
  call_delivers buf r n k end u = rw handles refl

  dispatch_last :
      (r : HttpParser) (n : ℕ) (u : User) (ch : ℕ) (rest : Bytes)
      → length (ch ∷ rest) ≡ n
      → n < ullong_max
      → dispatch st (ch ∷ rest) State.body_identity 0 (opening (waiting r n) u) ch rest
        ≡ record { taken = n - 1; ch = ch; step = again (delivered r n (ch ∷ rest) u) }
  unfolding dispatch at_body_identity
  dispatch_last r n u ch rest e big =
      let buf = ch ∷ rest in
      let (m, none_left, done) = min-same n (length buf) e in
      let fine = is_length_some n (omega arith) big in
      let all_read : 0 + n - 0 ≡ length buf = omega arith in
      let whole : take (0 + n - 0) buf ≡ buf = ap (λ k. take k buf) all_read ∙ take-length buf in
      rw (fine, done)
        (ap (λ s. record { taken = min n (length buf) - 1; ch = ch; step = s })
            (call_delivers buf r n (n - min n (length buf)) (0 + min n (length buf)) u)
          ∙ ap
              (λ k. record {
                taken = k - 1;
                ch = ch;
                step = again (delivered_at r n (n - min n (length buf)) (0 + k) buf u);
              })
              m
          ∙ ap
              (λ k. record {
                taken = n - 1;
                ch = ch;
                step = again (delivered_at r n k (0 + n) buf u);
              })
              none_left
          ∙ ap (λ text. record { taken = n - 1; ch = ch; step = again (delivered r n text u) })
              whole)

  turn_last :
      (r : HttpParser) (n : ℕ) (u : User) (ch : ℕ) (rest : Bytes)
      → length (ch ∷ rest) ≡ n
      → n < ullong_max
      → turn st (ch ∷ rest) 0 (opening (waiting r n) u) ch rest
        ≡ next (0 + (n - 1) + 0) (completed r n (ch ∷ rest) u)
  unfolding turn dispatch
  turn_last r n u ch rest e big =
      let buf = ch ∷ rest in
      let y = delivered r n buf u in
      let left = drop (n - 1) rest in
      reexecute-behind st buf 7 0 (opening (waiting r n) u) ch rest
      ∙ ap (behind st buf 7 0 rest) (dispatch_last r n u ch rest e big)
      ∙ reexecute-behind st buf 6 (0 + (n - 1)) y ch left
      ∙ ap (λ s. behind st buf 6 (0 + (n - 1)) left (still ch s))
          (message_done_completes buf r n u ch)

  finish-completed :
      (buf : Bytes) (p : ℕ) (r : HttpParser) (n : ℕ) (text : Bytes) (u : User)
      → finish st buf p (completed r n text u)
        ≡ returned p (behind_message r) (complete (take_body text u))
  unfolding finish left_calls data_call
  finish-completed buf p r n text u = refl

  -- A call with the bytes of the body that are left, and no others, gives them to the callback
  -- on_body, makes the callback on_message_complete and is ready for the next message.
  pub end_of_body :
      (r : HttpParser) (u : User) (ch : ℕ) (rest : Bytes)
      → length (ch ∷ rest) < ullong_max
      → http_parser_execute st (waiting r (length (ch ∷ rest))) u (ch ∷ rest)
        ≡ returned (length (ch ∷ rest)) (behind_message r) (complete (take_body (ch ∷ rest) u))
  unfolding http_parser_execute main_loop
  end_of_body r u ch rest big =
      let buf = ch ∷ rest in
      let n = length buf in
      let y = completed r n buf u in
      let all : 0 + 1 + length rest ≡ n = omega arith in
      rw (turn_last r n u ch rest refl big, main_loop)
        (main_loop-skip st buf rest (0 + (n - 1) + 0 - 0) (0 + 1) y (omega arith)
          ∙ ap (λ q. finish st buf q y) all
          ∙ finish-completed buf n r n buf u)
