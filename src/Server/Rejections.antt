-- ===== src/Server/Rejections.antt =====
-- When `buffered_on_read` of src/server_threaded.c replies that it cannot read the request.
use jia_tuan_server.Common.{
  ℕ, arith, negsuc, ◌∷◌, ◌≡◌, refl, sym, ◌∙◌, ap, ◌≢◌, ◌⊎◌, ◌↔◌, inl, inr, Bool, true, false, none,
  some, [], if◌then◌else◌, Bytes, codes, same_bytes, Bool-cases, Option-cases,
}
use jia_tuan_server.Database.{Mysql, init_db}
use jia_tuan_server.Server.Request.{
  aborted, Run, done, or_stop, or_exit, Json, int, Reply, success, register_failure, login_failure,
  parse_failure, string_member, serve_register, serve_login, serve_named, serve, reply_parsed,
  reply_to,
}
use jia_tuan_server.Server.Replies.{closed_reply, >>=-eq-done, or_stop-eq-done}

-- The number behind the minus sign of a failure's code, less 1.
abbrev code_number : Reply → ℕ
code_number [] = 0
code_number ((name, int (negsuc n)) ∷ rest) = n
code_number (item ∷ rest) = 0

register-ne-parse : register_failure ≢ parse_failure
register-ne-parse e = absurd (omega (arith, ap code_number e))

login-ne-parse : login_failure ≢ parse_failure
login-ne-parse e = absurd (omega (arith, ap code_number e))

module _ (j : Json) (m : Mysql) where
  open j use {Value, parse}
  open m use {State}

  -- A text that does not parse, or a value whose function's name is missing.
  abbrev pub IsUnreadable : Bytes → Type 0
  IsUnreadable sdata =
      (parse sdata ≡ none)
      ⊎ ((value : Value) × (function : Value) × (parse sdata ≡ some value)
          × (j.member value (codes "FunctionName") ≡ some function)
          × (j.is_null function ≡ true))

  answer-ne-parse_failure :
      (answer : Bool × State) (code : Reply) (t : State)
      → code ≢ parse_failure
      → ◌≢◌ {A = Run (Reply × State)}
          (done (if answer.0 then success else code, answer.1))
          (done (parse_failure, t))
  answer-ne-parse_failure (true, s) code t ne h = cc
  answer-ne-parse_failure (false, s) code t ne h = ne cc

  serve_register-ne-parse_failure :
      (v : Value) (s t : State) → serve_register j m v s ≢ done (parse_failure, t)
  unfolding serve_register
  serve_register-ne-parse_failure v s t h =
      let (phone, sent, h1) = >>=-eq-done (string_member j m v (codes "PhoneNO")) _ _ h in
      let (pwd, sent', h2) = >>=-eq-done (string_member j m v (codes "Pwd")) _ _ h1 in
      answer-ne-parse_failure _ register_failure t register-ne-parse h2

  serve_login-ne-parse_failure :
      (v : Value) (s t : State) → serve_login j m v s ≢ done (parse_failure, t)
  unfolding serve_login
  serve_login-ne-parse_failure v s t h =
      let (login, sent, h1) = >>=-eq-done (string_member j m v (codes "User_login")) _ _ h in
      let (pass, sent', h2) = >>=-eq-done (string_member j m v (codes "User_pass")) _ _ h1 in
      answer-ne-parse_failure _ login_failure t login-ne-parse h2

  empty-ne-parse_failure :
      (s t : State) → ◌≢◌ {A = Run (Reply × State)} (done ([], s)) (done (parse_failure, t))
  empty-ne-parse_failure s t h = cc

  serve_named-ne-parse_failure :
      (name : Bytes) (v : Value) (s t : State) → serve_named j m name v s ≢ done (parse_failure, t)
  unfolding serve_named
  serve_named-ne-parse_failure name v s t h =
      elim (Bool-cases (same_bytes (codes "register") name)) [
        | inl a ↦ serve_register-ne-parse_failure v s t (rw a at h)
        | inr a ↦ elim (Bool-cases (same_bytes (codes "login") name)) [
          | inl b ↦ serve_login-ne-parse_failure v s t (rw (a, b) at h)
          | inr b ↦ empty-ne-parse_failure s t (rw (a, b) at h)
        ]
      ]

  serve-ne-parse_failure : (v f : Value) (s t : State) → serve j m v f s ≢ done (parse_failure, t)
  unfolding serve
  serve-ne-parse_failure v f s t h =
      let (s', opened, h1) =
        >>=-eq-done
          (or_exit
            (init_db m (codes "localhost") (codes "root") (codes "123456") (codes "JiaTuanSql") s))
          _ _ h in
      let (name, named, h2) = >>=-eq-done (or_stop aborted (j.as_string f)) _ _ h1 in
      let (answer, ran, h3) = >>=-eq-done (serve_named j m name v s') _ _ h2 in
      let (same_reply, same_state) = closed_reply j m answer parse_failure t h3 in
      serve_named-ne-parse_failure name v s' answer.1
        (ran ∙ ap (λ r. done (r, answer.1)) same_reply)

  parse_failure-state :
      (s t : State)
      → ◌≡◌ {A = Run (Reply × State)} (done (parse_failure, s)) (done (parse_failure, t))
      → t ≡ s
  parse_failure-state s t p = cc

  reply_parsed-Unreadable :
      (sdata : Bytes) (v : Value) (s t : State)
      → parse sdata ≡ some v
      → reply_parsed j m v s ≡ done (parse_failure, t)
      → IsUnreadable sdata × (t ≡ s)
  unfolding reply_parsed
  reply_parsed-Unreadable sdata v s t parsed h =
      let (f, got, h1) =
        >>=-eq-done (or_stop aborted (j.member v (codes "FunctionName")))
          (λ x. if j.is_null x then done (parse_failure, s) else serve j m v x s) _ h in
      elim (Bool-cases (j.is_null f)) [
        | inl e ↦
            (inr (v, f, parsed, or_stop-eq-done _ _ f got, e), parse_failure-state s t (rw e at h1))
        | inr e ↦ absurd (serve-ne-parse_failure v f s t (rw e at h1))
      ]

  Unreadable-reply_to :
      (sdata : Bytes) (s : State)
      → IsUnreadable sdata
      → reply_to j m sdata s ≡ done (parse_failure, s)
  unfolding reply_to reply_parsed or_stop
  Unreadable-reply_to sdata s (inl e) = rw (e, reply_to) refl
  Unreadable-reply_to sdata s (inr (v, f, e, got, null)) = rw (e, reply_to) (rw (got, null) refl)

  -- The reply with error code -11 is sent exactly for a text that does not parse or has no function's
  -- name, and then the database is as it was.
  pub reply_to-IsUnreadable :
      (sdata : Bytes) (s t : State)
      → (reply_to j m sdata s ≡ done (parse_failure, t)) ↔ (IsUnreadable sdata × (t ≡ s))
  unfolding reply_to
  reply_to-IsUnreadable sdata s t = (
    λ h. elim (Option-cases (parse sdata)) [
      | inl e ↦ (inl e, parse_failure-state s t (rw (e, reply_to) at h))
      | inr (v, e) ↦ reply_parsed-Unreadable sdata v s t e (rw (e, reply_to) at h)
    ],
    λ (unreadable, same_state).
        Unreadable-reply_to sdata s unreadable ∙ ap (λ x. done (parse_failure, x)) (sym same_state),
  )
