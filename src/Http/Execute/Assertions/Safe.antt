-- ===== src/Http/Execute/Assertions/Safe.antt =====
-- What a case of `http_parser_execute` of http_parser.c leaves to the next byte, to the same byte
-- and to the next call.
use jia_tuan_server.Common.{
  ℕ, ◌≡◌, refl, sym, ap, subst, ◌∙◌, true, false, Option, none, some, if◌then◌else◌, Bytes,
  Bool-cases, inl, inr, ℤ,
}
use jia_tuan_server.Http.Parser.{HttpParser, HttpErrno, is_pausable}
use jia_tuan_server.Http.Execute.Macros.{
  DataField, Settings, Notify, Exec, Step, go, again, fail, leave, abort, is_ok, same_field,
  mark_at, is_zero, after_call, set_errno,
}
use jia_tuan_server.Http.Execute.Assertions.Fit.{
  same_field_sound, IsFit, IsBounded, IsOk, owner, Only, is_plain, plain-IsFit, plain_owner,
}

-- The callbacks leave the parser as it is, but for the error and the user's pointer: they may pause
-- the parser, and fail.
abbrev pub SameParser : HttpParser → HttpParser → Type 0
SameParser r r' = r' ≡ record r { http_errno = r'.http_errno; user_data = r'.user_data }

abbrev pub IsPassive : Settings → Type 0
IsPassive st =
    ((f : Notify) (call : HttpParser → st.User → ℤ × HttpParser × st.User)
      → st.on_notify f ≡ some call
      → (r : HttpParser) (u : st.User) → SameParser r (call r u).1)
    × ((f : DataField) (call : Bytes → HttpParser → st.User → ℤ × HttpParser × st.User)
        → st.on_data f ≡ some call
        → (text : Bytes) (r : HttpParser) (u : st.User) → SameParser r (call text r u).1)

pub after_call-SameParser :
    (e : HttpErrno) (result : ℤ) (r r' : HttpParser)
    → SameParser r r'
    → SameParser r (after_call e result r')
after_call-SameParser e result r r' same = elim (Bool-cases (is_zero result)) [
  | inl z ↦ rw z same
  | inr z ↦ rw z (ap (set_errno e) same)
]

-- The marks behind a callback for the text of `g`.
abbrev pub Cleared : DataField → (mark mark' : DataField → Option ℕ) → Type 0
Cleared g mark mark' = (f : DataField) → mark' f ≡ (if same_field g f then none else mark f)

pub Cleared-none :
    (g : DataField) (mark mark' : DataField → Option ℕ)
    → Only (some g) mark
    → Cleared g mark mark'
    → Only none mark'
Cleared-none g mark mark' h c =
    λ f. elim (Bool-cases (same_field g f)) [ inl e ↦ c f ∙ rw e refl | inr e ↦ c f ∙ rw e (h f e) ]

pub unset-Cleared :
    (g : DataField) (mark : DataField → Option ℕ) → mark g ≡ none → Cleared g mark mark
unset-Cleared g mark unset = λ f. elim (Bool-cases (same_field g f)) [
  | inl e ↦ rw e (ap mark (sym (same_field_sound g f e)) ∙ unset)
  | inr e ↦ rw e refl
]

module _ {User : Type 0} where
  pub mark_at-Only :
      (g : DataField) (p : ℕ) (x : Exec User)
      → Only (some g) x.mark
      → Only (some g) (mark_at g p x).mark
  mark_at-Only g p x h = λ f e. rw e (h f e)

  -- The variables between two bytes, with `n` for the counter in chunk_size_start.
  abbrev pub IsGood : ℕ → Exec User → Type 0
  IsGood n x = IsOk x.parser × IsFit n x.at x.parser × Only (owner x.at) x.mark

  -- No case fails an assertion, and what it leaves is good for the next byte, for the same byte, or
  -- for the next call.
  abbrev pub IsSafe : Step User → Type 0
  IsSafe (go y) = IsGood 0 y
  IsSafe (again y) = IsGood 1 y
  IsSafe (fail y) = is_pausable y.parser.http_errno ≡ false
  IsSafe (leave advance y) = IsBounded y.parser × IsFit 0 y.at y.parser
  IsSafe abort = ⊥

  pub plain-IsGood :
      (n : ℕ) (x : Exec User) → IsOk x.parser → is_plain x.at ≡ true → Only none x.mark → IsGood n x
  plain-IsGood n x ok plain clean =
      (ok, plain-IsFit n x.at x.parser plain, rw (plain_owner x.at plain) clean)

  -- What a callback leaves of the variables, its marks aside.
  abbrev pub Follows : ℕ → (x y : Exec User) → Type 0
  Follows n x y = IsOk y.parser × IsFit n y.at y.parser × (y.at ≡ x.at)

module _ {User : Type 0} where
  -- A case that goes on, or fails, with no callback and no new mark, to a plain state.
  abbrev pub IsQuiet : Exec User → Step User → Type 0
  IsQuiet x (go y) =
      (y.parser.http_errno ≡ x.parser.http_errno)
      × (y.parser.content_length ≡ x.parser.content_length)
      × (is_plain y.at ≡ true)
      × (y.mark ≡ x.mark)
  IsQuiet x (again y) =
      (y.parser.http_errno ≡ x.parser.http_errno)
      × (y.parser.content_length ≡ x.parser.content_length)
      × (is_plain y.at ≡ true)
      × (y.mark ≡ x.mark)
  IsQuiet x (fail y) = is_pausable y.parser.http_errno ≡ false
  IsQuiet x (leave advance y) = ⊥
  IsQuiet x abort = ⊥

  quiet-IsGood :
      (n : ℕ) (x y : Exec User)
      → IsOk x.parser
      → Only none x.mark
      → (y.parser.http_errno ≡ x.parser.http_errno)
        × (y.parser.content_length ≡ x.parser.content_length)
        × (is_plain y.at ≡ true)
        × (y.mark ≡ x.mark)
      → IsGood n y
  quiet-IsGood n x y ok clean (same, length, plain, marks) =
      plain-IsGood n y (ap is_ok same ∙ ok.0, rw length (ok.1)) plain
        (subst (λ mark. Only none mark) (sym marks) clean)

  pub quiet-IsSafe :
      (x : Exec User) (s : Step User) → IsOk x.parser → Only none x.mark → IsQuiet x s → IsSafe s
  quiet-IsSafe x (go y) ok clean quiet = quiet-IsGood 0 x y ok clean quiet
  quiet-IsSafe x (again y) ok clean quiet = quiet-IsGood 1 x y ok clean quiet
  quiet-IsSafe x (fail y) ok clean quiet = quiet
  quiet-IsSafe x (leave advance y) ok clean quiet = absurd quiet
  quiet-IsSafe x abort ok clean quiet = absurd quiet
