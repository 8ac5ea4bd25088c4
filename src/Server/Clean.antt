-- ===== src/Server/Clean.antt =====
-- `buffered_on_read` of src/server_threaded.c stops, if it stops, for a reason in the request.
use jia_tuan_server.Common.{
  inl, inr, Bool, true, false, Option, none, some, if◌then◌else◌, Bytes, codes, same_bytes, leb,
  length, Option-cases,
}
use jia_tuan_server.Database.{Mysql, Outcome, returned, exited}
use jia_tuan_server.Server.Request.{
  Stop, unterminated, aborted, double_release, Run, done, stopped, ◌>>=◌, or_stop, or_exit, Json,
  buf_max_size, string_member, serve_named, serve_register, serve_login, serve, reply_parsed,
  received, reply_to,
}

-- A stop that is no fault of the resources.
abbrev pub IsRequestStop : Stop → Type 0
IsRequestStop double_release = ⊥
IsRequestStop _ = Unit

-- The run returns a value with `P`, or stops for a reason that lies in the request.
pub data Ends {A : Type 0} (P : A → Type 0) : Run A → Type 0 where
  returns : (a : A) → P a → Ends P (done a)
  stops : (e : Stop) → IsRequestStop e → Ends P (stopped e)

pub bind-Ends :
    {A B : Type 0} {P : A → Type 0} {Q : B → Type 0} {r : Run A} {f : A → Run B}
    → Ends P r
    → ((a : A) → P a → Ends Q (f a))
    → Ends Q (r >>= f)
bind-Ends (returns a p) k = k a p
bind-Ends (stops e h) k = stops e h

abbrev pub Any : {A : Type 0} → A → Type 0
Any a = Unit

abbrev pub IsClean : {A : Type 0} → Run A → Type 0
IsClean r = Ends Any r

bind-IsClean :
    {A B : Type 0} {r : Run A} {f : A → Run B}
    → Ends Any r
    → ((a : A) → Ends Any (f a))
    → Ends Any (r >>= f)
bind-IsClean h k = bind-Ends h (λ a p. k a)

or_stop-IsClean : {A : Type 0} (e : Stop) (o : Option A) → IsRequestStop e → IsClean (or_stop e o)
unfolding or_stop
or_stop-IsClean e none h = stops e h
or_stop-IsClean e (some a) h = returns a tt

or_exit-IsClean : {A : Type 0} (o : Outcome A) → IsClean (or_exit o)
unfolding or_exit
or_exit-IsClean (returned a) = returns a tt
or_exit-IsClean (exited code) = stops _ tt

aborted-IsClean : {A : Type 0} (o : Option A) → IsClean (or_stop aborted o)
aborted-IsClean o = or_stop-IsClean aborted o tt

branch-IsClean :
    {A : Type 0} {r q : Run A} (b : Bool) → Ends Any r → Ends Any q → Ends Any (if b then r else q)
branch-IsClean true h k = h
branch-IsClean false h k = k

pub received-IsClean : (input : Bytes) → IsClean (received input)
unfolding received
received-IsClean input =
    branch-IsClean (leb (length input) buf_max_size) (or_stop-IsClean unterminated _ tt)
      (stops _ tt)

module _ (j : Json) (m : Mysql) where
  string_member-IsClean : (v : j.Value) (name : Bytes) → IsClean (string_member j m v name)
  unfolding string_member
  string_member-IsClean v name = bind-IsClean (aborted-IsClean _) (λ f. aborted-IsClean _)

  serve_register-IsClean : (v : j.Value) (s : m.State) → IsClean (serve_register j m v s)
  unfolding serve_register
  serve_register-IsClean v s =
      bind-IsClean (string_member-IsClean v _)
        (λ a. bind-IsClean (string_member-IsClean v _) (λ b. returns _ tt))

  serve_login-IsClean : (v : j.Value) (s : m.State) → IsClean (serve_login j m v s)
  unfolding serve_login
  serve_login-IsClean v s =
      bind-IsClean (string_member-IsClean v _)
        (λ a. bind-IsClean (string_member-IsClean v _) (λ b. returns _ tt))

  serve_named-IsClean :
      (name : Bytes) (v : j.Value) (s : m.State) → IsClean (serve_named j m name v s)
  unfolding serve_named
  serve_named-IsClean name v s =
      branch-IsClean (same_bytes (codes "register") name) (serve_register-IsClean v s)
        (branch-IsClean (same_bytes (codes "login") name) (serve_login-IsClean v s) (returns _ tt))

  serve-IsClean : (v f : j.Value) (s : m.State) → IsClean (serve j m v f s)
  unfolding serve
  serve-IsClean v f s = bind-IsClean (or_exit-IsClean _) (λ t.
      bind-IsClean (aborted-IsClean _)
        (λ n. bind-IsClean (serve_named-IsClean n v t) (λ a. returns _ tt)))

  reply_parsed-IsClean : (v : j.Value) (s : m.State) → IsClean (reply_parsed j m v s)
  unfolding reply_parsed
  reply_parsed-IsClean v s =
      bind-IsClean (aborted-IsClean _)
        (λ f. branch-IsClean (j.is_null f) (returns _ tt) (serve-IsClean v f s))

  pub reply_to-IsClean : (sdata : Bytes) (s : m.State) → IsClean (reply_to j m sdata s)
  unfolding reply_to
  reply_to-IsClean sdata s = elim (Option-cases (j.parse sdata)) [
    | inl e ↦ rw (e, reply_to) (returns _ tt)
    | inr (v, e) ↦ rw (e, reply_to) (reply_parsed-IsClean v s)
  ]
