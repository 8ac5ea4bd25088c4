-- ===== src/Http/Execute/Identity.antt =====
-- The body of a message with a Content-Length in `http_parser_execute` of http_parser.c.
pub mod Ending
pub mod Pieces
pub mod Chunks
pub mod Digits
pub mod Sizes
mod Examples
use Prim.Native.Nat.{min}
use jia_tuan_server.Common.{
  ℕ, zero, suc, ◌+◌, ◌-◌, ◌≤◌, ◌<◌, ◌≡◌, refl, sym, ap, subst, ◌∙◌, Bool, true, false, Option, none,
  some, List, [], ◌∷◌, if◌then◌else◌, ltb, leb, ◌==◌, arith, Bytes, length, take, drop, Bool-cases,
  inl, inr, ℤ, pos,
}
use jia_tuan_server.Http.State.{State, parsing_header}
use jia_tuan_server.Http.Parser.{HttpParser, hpe_ok, ullong_max}
use jia_tuan_server.Http.Execute.Macros.{
  Settings, Exec, Step, Jump, DataField, Notify, body, message_complete, go, again, fail, leave,
  abort, notify, data_call, unmark, new_message, mark_at, to,
}
use jia_tuan_server.Http.Execute.Body.{is_length, at_body_identity, at_message_done, with_length}
use jia_tuan_server.Http.Execute.{
  Executed, returned, aborted, endless, Turn, next, ended, asserted, errored, still, saved,
  return_at, left_calls, opening, fuel, dispatch, reexecute, turn, finish, main_loop,
  http_parser_execute,
}

-- The callback on_body does not fail and leaves the parser as it is: it does `take_body` to the
-- user's state.
abbrev pub HandlesBody : (st : Settings) → (Bytes → st.User → st.User) → Type 0
HandlesBody st take_body = st.on_data body ≡ some (λ text r u. (pos 0, r, take_body text u))

-- The same of the callback on_message_complete.
abbrev pub HandlesEnd : (st : Settings) → (st.User → st.User) → Type 0
HandlesEnd st complete = st.on_notify message_complete ≡ some (λ r u. (pos 0, r, complete u))

-- A parser that waits for `n` bytes of the body of a message that is no upgrade.
abbrev pub waiting : HttpParser → ℕ → HttpParser
waiting r n = record r {
  state = State.body_identity;
  http_errno = hpe_ok;
  content_length = n;
  upgrade = false;
}

-- That parser behind the body, before NEW_MESSAGE and behind it.
abbrev pub done_with_body : HttpParser → HttpParser
done_with_body r = record (waiting r 0) { state = State.message_done }

abbrev pub behind_message : HttpParser → HttpParser
behind_message r = record (waiting r 0) { state = new_message (done_with_body r) }

module _ (st : Settings) (buf : Bytes) where
  open st use {User}

  pub main_loop-skip :
      (rest : Bytes) (k p : ℕ) (x : Exec User)
      → length rest ≤ k
      → main_loop st buf k rest p x ≡ finish st buf (p + length rest) x
  unfolding main_loop
  main_loop-skip [] k p x le = ap (λ q. finish st buf q x) (omega arith)
  main_loop-skip (ch ∷ rest) zero p x le = absurd (omega arith)
  main_loop-skip (ch ∷ rest) (suc k) p x le =
      main_loop-skip rest k (p + 1) x (omega arith) ∙ ap (λ q. finish st buf q x) (omega arith)

  -- What follows from the end of a case.
  abbrev pub behind : ℕ → ℕ → Bytes → Jump User → Turn User
  behind left p rest j = elim j.step [
    | go y ↦ next (p + j.taken) y
    | again y ↦ reexecute st buf left (p + j.taken) y j.ch (drop j.taken rest)
    | fail y ↦ ended (p + j.taken) (errored y)
    | leave advance y ↦ ended (p + j.taken + (if advance then 1 else 0)) y
    | abort ↦ asserted
  ]

  pub reexecute-behind :
      (left p : ℕ) (x : Exec User) (ch : ℕ) (rest : Bytes)
      → reexecute st buf (suc left) p x ch rest
        ≡ behind left p rest (dispatch st buf x.at p x ch rest)
  unfolding reexecute
  reexecute-behind left p x ch rest = refl

pub take-length : (xs : Bytes) → take (length xs) xs ≡ xs
take-length [] = refl
take-length (x ∷ xs) = ap (λ r. x ∷ r) (take-length xs)

pub min-same : (n m : ℕ) → m ≡ n → (min n m ≡ n) × (n - min n m ≡ 0) × ((n - min n m == 0) ≡ true)
min-same n m e = (omega arith, omega arith, ground arith)

pub is_length_some : (n : ℕ) → 0 < n → n < ullong_max → is_length n ≡ true
is_length_some n h k = ground arith

min-more : (n m : ℕ) → m < n → (min n m ≡ m) × ((n - m == 0) ≡ false)
min-more n m h = (omega arith, ground arith)

pub is_length_more : (n m : ℕ) → m < n → n < ullong_max → is_length n ≡ true
is_length_more n m h k = ground arith

module _ (st : Settings) (take_body : Bytes → st.User → st.User)
    (handles : HandlesBody st take_body) where
  open st use {User}

  -- The variables behind a piece of the body, of which `k` bytes are still to come.
  abbrev taken_up : HttpParser → (n k : ℕ) → User → Exec User
  taken_up r n k u = with_length k (mark_at body 0 (opening (waiting r n) u))

  finish-waiting :
      (buf : Bytes) (p : ℕ) (r : HttpParser) (n k : ℕ) (u : User)
      → finish st buf p (taken_up r n k u)
        ≡ returned p (waiting r k) (take_body (take (p - 0) buf) u)
  unfolding finish left_calls data_call
  finish-waiting buf p r n k u = rw handles refl

  dispatch-waiting :
      (buf : Bytes) (r : HttpParser) (n : ℕ) (u : User) (ch : ℕ) (rest : Bytes)
      → length (ch ∷ rest) < n
      → n < ullong_max
      → dispatch st buf State.body_identity 0 (opening (waiting r n) u) ch rest ≡ record {
        taken = length (ch ∷ rest) - 1;
        ch = ch;
        step = go (taken_up r n (n - length (ch ∷ rest)) u);
      }
  unfolding dispatch at_body_identity
  dispatch-waiting buf r n u ch rest short big =
      let (m, more) = min-more n (length (ch ∷ rest)) short in
      let fine = is_length_more n (length (ch ∷ rest)) short big in rw (m, more, fine) refl

  turn-waiting :
      (buf : Bytes) (r : HttpParser) (n : ℕ) (u : User) (ch : ℕ) (rest : Bytes)
      → length (ch ∷ rest) < n
      → n < ullong_max
      → turn st buf 0 (opening (waiting r n) u) ch rest
        ≡ next (0 + (length (ch ∷ rest) - 1)) (taken_up r n (n - length (ch ∷ rest)) u)
  unfolding turn
  turn-waiting buf r n u ch rest short big =
      reexecute-behind st buf 7 0 (opening (waiting r n) u) ch rest
      ∙ ap (behind st buf 7 0 rest) (dispatch-waiting buf r n u ch rest short big)

  -- A call with a piece of the body that does not end it gives the callback on_body the whole piece
  -- and waits for the bytes that are left.
  pub piece_of_body :
      (r : HttpParser) (n : ℕ) (u : User) (ch : ℕ) (rest : Bytes)
      → length (ch ∷ rest) < n
      → n < ullong_max
      → http_parser_execute st (waiting r n) u (ch ∷ rest)
        ≡ returned
            (length (ch ∷ rest))
            (waiting r (n - length (ch ∷ rest)))
            (take_body (ch ∷ rest) u)
  unfolding http_parser_execute main_loop
  piece_of_body r n u ch rest short big =
      let buf = ch ∷ rest in
      let y = taken_up r n (n - length buf) u in
      let all : 0 + 1 + length rest ≡ length buf = omega arith in
      let none_before : length buf - 0 ≡ length buf = omega arith in
      let whole : take (length buf - 0) buf ≡ buf =
        ap (λ k. take k buf) none_before ∙ take-length buf in
      rw (turn-waiting buf r n u ch rest short big, main_loop)
        (main_loop-skip st buf rest (0 + (length buf - 1) - 0) (0 + 1) y (omega arith)
          ∙ ap (λ q. finish st buf q y) all
          ∙ finish-waiting buf (length buf) r n (n - length buf) u
          ∙ ap (λ text. returned (length buf) (waiting r (n - length buf)) (take_body text u))
              whole)
