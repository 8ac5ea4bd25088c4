-- ===== src/Http/Execute/Assertions/Callbacks.antt =====
-- The callbacks of `http_parser_execute` of http_parser.c, for callbacks that leave the parser.
use jia_tuan_server.Common.{
  ℕ, ◌-◌, ◌≤◌, ◌≡◌, refl, sym, ap, subst, Bool, true, none, some, if◌then◌else◌, Bytes, take, drop,
  Bool-cases, Option-cases, inl, inr, ℤ,
}
use jia_tuan_server.Http.Parser.{HttpParser, HttpErrno, ullong_max}
use jia_tuan_server.Http.Execute.Macros.{
  DataField, Settings, Notify, Exec, Step, go, again, leave, is_ok, same_field, unmark, after_call,
  returned_from, notify, data_call, notify_errno, data_errno,
}
use jia_tuan_server.Http.Execute.Assertions.Fit.{
  IsFit, IsBounded, IsOk, owner, Only, is_plain, plain-IsFit, Only-none, IsFit-set,
}
use jia_tuan_server.Http.Execute.Assertions.Safe.{
  SameParser, IsPassive, after_call-SameParser, Cleared, Cleared-none, unset-Cleared, IsGood,
  IsSafe, plain-IsGood, Follows,
}

-- A predicate that holds of each `return` with members that are fit for the state.
module _ (st : Settings) (passive : IsPassive st) (P : Step st.User → Type 0)
    (on_leave : (advance : Bool) (y : Exec st.User)
      → IsBounded y.parser × IsFit 0 y.at y.parser
      → P (leave advance y)) where
  open st use {User, on_notify, on_data}

  returned_from_lem :
      (n : ℕ) (e : HttpErrno) (advance : Bool) (x : Exec User) (result : ℤ) (r : HttpParser)
      (u : User) (next : Exec User → Step User)
      → SameParser (record x.parser { state = x.at }) r
      → IsBounded x.parser
      → IsFit 0 x.at x.parser
      → IsFit n x.at x.parser
      → ((y : Exec User) → Follows n x y → y.mark ≡ x.mark → P (next y))
      → P (returned_from st e advance x (result, r, u) next)
  returned_from_lem n e advance x result r u next same bounded fit fit' then_next =
      let called = after_call-SameParser e result (record x.parser { state = x.at }) r same in
      let r' = after_call e result r in
      let at' : r'.state ≡ x.at = ap (λ (q : HttpParser). q.state) called in
      let bounded' : r'.content_length ≤ ullong_max =
        subst (λ k. k ≤ ullong_max) (sym (ap (λ (q : HttpParser). q.content_length) called))
          bounded in
      let keeps : (m : ℕ) → IsFit m x.at x.parser → IsFit m r'.state r' = λ m h.
        subst (λ (q : HttpParser). IsFit m q.state q) (sym called)
          (IsFit-set m x.at x.at x.parser r'.http_errno r'.user_data h) in
      elim (Bool-cases (is_ok r'.http_errno)) [
        | inl ok ↦ rw ok (
            then_next (record x { parser = r'; at = r'.state; user = u })
              ((ok, bounded'), keeps n fit', at') refl)
        | inr bad ↦ rw bad (
            on_leave advance (record x { parser = r'; at = r'.state; user = u })
              (bounded', keeps 0 fit))
      ]

  pub notify_lem :
      (n : ℕ) (f : Notify) (advance : Bool) (x : Exec User) (next : Exec User → Step User)
      → IsOk x.parser
      → IsFit 0 x.at x.parser
      → IsFit n x.at x.parser
      → ((y : Exec User) → Follows n x y → y.mark ≡ x.mark → P (next y))
      → P (notify st f advance x next)
  unfolding notify
  notify_lem n f advance x next ok fit fit' then_next = elim (Option-cases (on_notify f)) [
    | inl e ↦ rw (ok.0, e) (then_next x (ok, fit', refl) refl)
    | inr (call, e) ↦
        rw (ok.0, e)
          (let answer = call (record x.parser { state = x.at }) x.user in
            returned_from_lem n (notify_errno f) advance x answer.0 answer.1 answer.2 next
              (passive.0 f call e (record x.parser { state = x.at }) x.user) ok.1 fit fit'
              then_next)
  ]

  pub data_call_lem :
      (n : ℕ) (g : DataField) (buf : Bytes) (end : ℕ) (advance : Bool)
      → (x : Exec User) (next : Exec User → Step User) → IsOk x.parser
      → IsFit 0 x.at x.parser
      → IsFit n x.at x.parser
      → ((y : Exec User) → Follows n x y → Cleared g x.mark y.mark → P (next y))
      → P (data_call st g buf end advance x next)
  unfolding data_call
  data_call_lem n g buf end advance x next ok fit fit' then_next = elim (Option-cases (x.mark g)) [
    | inl e ↦ rw (ok.0, e) (then_next x (ok, fit', refl) (unset-Cleared g x.mark e))
    | inr (m, e) ↦ elim (Option-cases (on_data g)) [
      | inl d ↦ rw (ok.0, e, d) (then_next (unmark g x) (ok, fit', refl) (λ f. refl))
      | inr (call, d) ↦
          rw (ok.0, e, d)
            (let text = take (end - m) (drop m buf) in
              let answer = call text (record x.parser { state = x.at }) x.user in
              returned_from_lem n (data_errno g) advance x answer.0 answer.1 answer.2
                (λ y. next (unmark g y))
                (passive.1 g call d text (record x.parser { state = x.at }) x.user) ok.1 fit fit'
                λ y follows same.
                  then_next (unmark g y) follows
                    (λ f. ap (λ mark. if same_field g f then none else mark f) same))
    ]
  ]

module _ (st : Settings) (passive : IsPassive st) where
  open st use {User}

  IsSafe-leave :
      (advance : Bool) (y : Exec User)
      → IsBounded y.parser × IsFit 0 y.at y.parser
      → IsSafe (leave advance y)
  IsSafe-leave advance y fit = fit

  pub notify-IsSafe :
      (f : Notify) (advance : Bool) (x : Exec User) (next : Exec User → Step User)
      → IsGood 0 x
      → ((y : Exec User) → IsGood 0 y → y.at ≡ x.at → IsSafe (next y))
      → IsSafe (notify st f advance x next)
  notify-IsSafe f advance x next (ok, fit, only) then_next =
      notify_lem st passive IsSafe IsSafe-leave 0 f advance x next ok fit fit
        λ y (ok', fit', at') same.
          then_next y (ok', fit', rw at' (subst (λ mark. Only (owner x.at) mark) (sym same) only))
            at'

  pub notify_again :
      (f : Notify) (advance : Bool) (x : Exec User)
      → IsOk x.parser
      → is_plain x.at ≡ true
      → Only none x.mark
      → IsSafe (notify st f advance x again)
  notify_again f advance x ok plain clean =
      notify_lem st passive IsSafe IsSafe-leave 1 f advance x again ok
        (plain-IsFit 0 x.at x.parser plain) (plain-IsFit 1 x.at x.parser plain)
        λ y (ok', fit', at') same.
          plain-IsGood 1 y ok' (rw at' plain) (subst (λ mark. Only none mark) (sym same) clean)

  -- Behind a callback for a text that has come to its end.
  pub data_call-IsSafe :
      (g : DataField) (buf : Bytes) (end : ℕ) (advance : Bool)
      → (x : Exec User) (next : Exec User → Step User) → IsOk x.parser
      → IsFit 0 x.at x.parser
      → Only (some g) x.mark
      → ((y : Exec User)
          → IsOk y.parser
          → IsFit 0 y.at y.parser
          → y.at ≡ x.at
          → Only none y.mark
          → IsSafe (next y))
      → IsSafe (data_call st g buf end advance x next)
  data_call-IsSafe g buf end advance x next ok fit only then_next =
      data_call_lem st passive IsSafe IsSafe-leave 0 g buf end advance x next ok fit fit
        λ y (ok', fit', at') clears.
          then_next y ok' fit' at' (Cleared-none g x.mark y.mark only clears)

  pub data_call_go :
      (g : DataField) (buf : Bytes) (end : ℕ) (advance : Bool) (x : Exec User)
      → IsOk x.parser
      → IsFit 0 x.at x.parser
      → Only (some g) x.mark
      → IsSafe (data_call st g buf end advance x go)
  data_call_go g buf end advance x ok fit only =
      data_call-IsSafe g buf end advance x go ok fit only
        λ y ok' fit' at' clean. (ok', fit', Only-none (owner y.at) y.mark clean)

  pub data_call_again :
      (g : DataField) (buf : Bytes) (end : ℕ) (advance : Bool) (x : Exec User)
      → IsOk x.parser
      → is_plain x.at ≡ true
      → Only (some g) x.mark
      → IsSafe (data_call st g buf end advance x again)
  data_call_again g buf end advance x ok plain only =
      data_call-IsSafe g buf end advance x again ok (plain-IsFit 0 x.at x.parser plain) only
        λ y ok' fit' at' clean. plain-IsGood 1 y ok' (rw at' plain) clean
