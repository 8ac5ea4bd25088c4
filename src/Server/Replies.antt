-- ===== src/Server/Replies.antt =====
-- When `buffered_on_read` of src/server_threaded.c reports a success.
use jia_tuan_server.Common.{
  subst, arith, not, ◌==◌, ◌∙◌, ap, ◌≡◌, refl, ◌≢◌, ◌⊎◌, inl, inr, Bool, true, false, Option, none,
  some, [], if◌then◌else◌, Bytes, codes, ℤ, same_bytes, Bool-cases, Option-cases,
}
use jia_tuan_server.Database.{
  register_sql, login_sql, close_db, Mysql, Outcome, returned, exited, init_db, user_register_func,
  user_login_func,
}
use jia_tuan_server.Server.Request.{
  Stop, aborted, Run, done, stopped, ◌>>=◌, or_stop, or_exit, Json, Reply, success, failure,
  register_failure, login_failure, parse_failure, string_member, serve_register, serve_login,
  serve_named, serve, reply_parsed, reply_to,
}

pub >>=-eq-done :
    {A B : Type 0} (r : Run A) (f : A → Run B) (b : B)
    → (r >>= f) ≡ done b
    → (a : A) × (r ≡ done a) × (f a ≡ done b)
>>=-eq-done (done a) f b h = (a, refl, h)
>>=-eq-done (stopped e) f b h = cc

failure-ne-success : (code : ℤ) (desc : Bytes) → failure code desc ≢ success
failure-ne-success code desc e = cc

pub or_stop-eq-done :
    {A : Type 0} (e : Stop) (o : Option A) (a : A) → or_stop e o ≡ done a → o ≡ some a
unfolding or_stop
or_stop-eq-done e none a h = cc
or_stop-eq-done e (some b) a h = cc

or_exit-eq-done : {A : Type 0} (o : Outcome A) (a : A) → or_exit o ≡ done a → o ≡ returned a
unfolding or_exit
or_exit-eq-done (returned b) a h = cc
or_exit-eq-done (exited code) a h = cc

module _ (j : Json) (m : Mysql) where
  open j use {Value, parse}
  open m use {State, query, field_count}

  -- The server has accepted the query that inserts the account that the request names.
  pub record Registered (v : Value) (before after : State) : Type 0 where
    pub phone : Bytes
    pub pwd : Bytes
    pub phone_sent : string_member j m v (codes "PhoneNO") ≡ done phone
    pub pwd_sent : string_member j m v (codes "Pwd") ≡ done pwd
    pub accepted : query (register_sql phone pwd) before ≡ (false, after)

  -- The server has accepted the query that selects the account that the request names, with a result
  -- of at least one column.
  pub record LoggedIn (v : Value) (before after : State) : Type 0 where
    pub login : Bytes
    pub pass : Bytes
    pub login_sent : string_member j m v (codes "User_login") ≡ done login
    pub pass_sent : string_member j m v (codes "User_pass") ≡ done pass
    pub accepted : query (login_sql login pass) before ≡ (false, after)
    pub has_columns : field_count after ≢ 0

  reply-success :
      (answer : Bool × State) (code : Reply) (after : State)
      → code ≢ success
      → ◌≡◌ {A = Run (Reply × State)}
          (done (if answer.0 then success else code, answer.1))
          (done (success, after))
      → answer ≡ (true, after)
  reply-success (true, s) code after ne h = cc
  reply-success (false, s) code after ne h = absurd (ne cc)

  -- The reply and the state at the end of the connection.
  pub closed_reply :
      (answer : Reply × State) (reply : Reply) (after : State)
      → ◌≡◌ {A = Run (Reply × State)} (done (answer.0, close_db m answer.1)) (done (reply, after))
      → (answer.0 ≡ reply) × (close_db m answer.1 ≡ after)
  closed_reply answer reply after h = (cc, cc)

  parse-ne-success :
      (s t : State)
      → ◌≡◌ {A = Run (Reply × State)} (done (parse_failure, s)) (done (success, t))
      → ⊥
  parse-ne-success s t p = cc

  not_lem :
      (r : Bool × State) (t : State)
      → ◌≡◌ {A = Bool × State} (not r.0, r.1) (true, t)
      → r ≡ (false, t)
  not_lem (true, s) t h = cc
  not_lem (false, s) t h = cc

  columns_lem :
      (r : Bool × State) (t : State)
      → ◌≡◌ {A = Bool × State}
          (if r.0 then (false, r.1) else if field_count r.1 == 0 then (false, r.1) else (true, r.1))
          (true, t)
      → (r ≡ (false, t)) × (field_count t ≢ 0)
  columns_lem (true, s) t h = cc
  columns_lem (false, s) t h = elim (Bool-cases (field_count s == 0)) [
    | inl e ↦ absurd (false-ne-success s t (rw e at h))
    | inr e ↦ some_columns s t e (rw e at h)
  ]
    where
      false-ne-success : (s t : State) → ◌≡◌ {A = Bool × State} (false, s) (true, t) → ⊥
      false-ne-success s t p = cc

      some_columns :
          (s t : State)
          → (field_count s == 0) ≡ false
          → ◌≡◌ {A = Bool × State} (true, s) (true, t)
          → (◌≡◌ {A = Bool × State} (false, s) (false, t)) × (field_count t ≢ 0)
      some_columns s t e p =
          let same : s ≡ t = ap (λ (r : Bool × State). r.1) p in
          (cc, subst (λ u. field_count u ≢ 0) same (λ z. ground arith))

  register-accepted :
      (phone pwd : Bytes) (s t : State)
      → user_register_func m phone pwd s ≡ (true, t)
      → query (register_sql phone pwd) s ≡ (false, t)
  unfolding user_register_func
  register-accepted phone pwd s t h = not_lem (query (register_sql phone pwd) s) t h

  login-accepted :
      (login pass : Bytes) (s t : State)
      → user_login_func m login pass s ≡ (true, t)
      → (query (login_sql login pass) s ≡ (false, t)) × (field_count t ≢ 0)
  unfolding user_login_func
  login-accepted login pass s t h = columns_lem (query (login_sql login pass) s) t h

  serve_register-success :
      (v : Value) (s t : State) → serve_register j m v s ≡ done (success, t) → Registered v s t
  unfolding serve_register
  serve_register-success v s t h =
      let (phone, sent, h1) = >>=-eq-done _ _ _ h in
      let (pwd, sent', h2) = >>=-eq-done _ _ _ h1 in
      record {
        phone = phone;
        pwd = pwd;
        phone_sent = sent;
        pwd_sent = sent';
        accepted =
            register-accepted phone pwd s t
              (reply-success _ register_failure t (failure-ne-success _ _) h2);
      }

  serve_login-success :
      (v : Value) (s t : State) → serve_login j m v s ≡ done (success, t) → LoggedIn v s t
  unfolding serve_login
  serve_login-success v s t h =
      let (login, sent, h1) = >>=-eq-done _ _ _ h in
      let (pass, sent', h2) = >>=-eq-done _ _ _ h1 in
      let (accepted, has_columns) =
        login-accepted login pass s t
          (reply-success _ login_failure t (failure-ne-success _ _) h2) in
      record {
        login = login;
        pass = pass;
        login_sent = sent;
        pass_sent = sent';
        accepted = accepted;
        has_columns = has_columns;
      }

  abbrev pub Confirmed : Bytes → Value → State → State → Type 0
  Confirmed name v before after =
      ((same_bytes (codes "register") name ≡ true) × Registered v before after)
      ⊎ ((same_bytes (codes "login") name ≡ true) × LoggedIn v before after)

  serve_named-success :
      (name : Bytes) (v : Value) (s t : State)
      → serve_named j m name v s ≡ done (success, t)
      → Confirmed name v s t
  unfolding serve_named
  serve_named-success name v s t h = elim (Bool-cases (same_bytes (codes "register") name)) [
    | inl e ↦ inl (e, serve_register-success v s t (rw e at h))
    | inr e ↦ elim (Bool-cases (same_bytes (codes "login") name)) [
      | inl f ↦ inr (f, serve_login-success v s t (rw (e, f) at h))
      | inr f ↦ absurd (empty-ne-success t (rw (e, f) at h))
    ]
  ]
    where
      empty-ne-success :
          (t : State) → ◌≡◌ {A = Run (Reply × State)} (done ([], s)) (done (success, t)) → ⊥
      empty-ne-success t p = cc

  -- Behind a success stands a request with a function's name, an open connection to the database,
  -- and a query that the server has accepted; then the connection is closed.
  pub record Honest (sdata : Bytes) (before after : State) : Type 0 where
    pub value : Value
    pub function : Value
    pub name : Bytes
    pub connected : State
    pub parsed : parse sdata ≡ some value
    pub has_function : j.member value (codes "FunctionName") ≡ some function
    pub nonnull : j.is_null function ≡ false
    pub named : j.as_string function ≡ some name
    pub opened :
        init_db m (codes "localhost") (codes "root") (codes "123456") (codes "JiaTuanSql") before
        ≡ returned connected
    pub answered : State
    pub confirmed : Confirmed name value connected answered
    pub closed : close_db m answered ≡ after

  reply_parsed-success :
      (sdata : Bytes) (v : Value) (s t : State)
      → parse sdata ≡ some v
      → reply_parsed j m v s ≡ done (success, t)
      → Honest sdata s t
  unfolding reply_parsed serve
  reply_parsed-success sdata v s t parsed h =
      let (f, got, h1) =
        >>=-eq-done (or_stop aborted (j.member v (codes "FunctionName")))
          (λ x. if j.is_null x then done (parse_failure, s) else serve j m v x s) _ h in
      elim (Bool-cases (j.is_null f)) [
        | inl e ↦ absurd (parse-ne-success s t (rw e at h1))
        | inr e ↦
            let h2 : serve j m v f s ≡ done (success, t) = rw e at h1 in
            let (s', opened, h3) = >>=-eq-done _ _ _ h2 in
            let (name, named, h4) = >>=-eq-done _ _ _ h3 in
            let (answer, ran, h5) = >>=-eq-done _ _ _ h4 in
            let (same_reply, same_state) = closed_reply answer success t h5 in
            record {
              value = v;
              function = f;
              name = name;
              connected = s';
              parsed = parsed;
              has_function = or_stop-eq-done _ _ f got;
              nonnull = e;
              named = or_stop-eq-done _ _ name named;
              opened = or_exit-eq-done _ s' opened;
              answered = answer.1;
              confirmed =
                  serve_named-success name v s' answer.1
                    (ran ∙ ap (λ r. done (r, answer.1)) same_reply);
              closed = same_state;
            }
      ]

  -- The reply with error code 0 is sent only if the text parses to a value with a function's name
  -- that is not null, the connection to the database is open, and the server has accepted the query:
  -- for "register" the insertion of the members PhoneNO and Pwd, for "login" the selection by the
  -- members User_login and User_pass, with a result of at least one column. The rows of that result
  -- are not looked at. Then the connection is closed.
  pub reply_to-Honest :
      (sdata : Bytes) (s t : State) → reply_to j m sdata s ≡ done (success, t) → Honest sdata s t
  unfolding reply_to
  reply_to-Honest sdata s t h = elim (Option-cases (parse sdata)) [
    | inl e ↦ absurd (parse-ne-success s t (rw (e, reply_to) at h))
    | inr (v, e) ↦ reply_parsed-success sdata v s t e (rw (e, reply_to) at h)
  ]
