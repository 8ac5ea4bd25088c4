-- ===== src/Http/Execute/Assertions/Chunks.antt =====
-- The cases of `http_parser_execute` of http_parser.c for the chunks of a body.
use jia_tuan_server.Common.{
  ℕ, zero, suc, length, ◌-◌, ◌≡◌, ◌≤◌, refl, Bool, true, false, Option, none, some, List, [], ◌∷◌,
  ◌==◌, ◌||◌, ◌&&◌, if◌then◌else◌, arith, Bytes, leb, some_injective, none-ne-some, Bool-cases, inl,
  inr,
}
use jia_tuan_server.Http.State.{State}
use jia_tuan_server.Http.Execute.Assertions.Fit.{max_chunk, Only, Only-none, IsOk}
use jia_tuan_server.Http.Execute.Assertions.Safe.{IsGood, IsSafe, IsPassive, mark_at-Only}
use jia_tuan_server.Http.Execute.Assertions.Callbacks.{notify-IsSafe, data_call_go}
use jia_tuan_server.Http.Parser.{ullong_max}
use jia_tuan_server.Http.Execute.Macros.{Settings, Exec, Step, is_ok, to, go}
use Prim.Native.Nat.{min}
use jia_tuan_server.Http.State.{State}
use jia_tuan_server.Http.Execute.Macros.{
  to, chunk_header, chunk_complete, body, Settings, Exec, Step, go, is_ok, strict,
}
use jia_tuan_server.Http.Execute.Body.{
  assert, is_length, at_chunk_size_almost_done, at_chunk_data, at_chunk_data_almost_done,
  at_chunk_data_done,
}
use jia_tuan_server.Http.Execute.Body.{
  chunk_start, chunk_digit, at_chunk_size_start, at_chunk_size, at_chunk_parameters,
}
use jia_tuan_server.Http.Execute.Value.Scan.{push_length, may_overflow}
use jia_tuan_server.Http.Tokens.{unhex, unhex_entries, hex_entry}

-- What is left of a length is one, unless it is 0.
pub left_length :
    (n m : ℕ)
    → n ≤ ullong_max
    → is_length n ≡ true
    → (n - m == 0) ≡ false
    → is_length (n - m) ≡ true
left_length n m bounded e left = ground arith

-- The entries of `unhex` are digits.
abbrev all_digits : List (Option ℕ) → Bool
all_digits [] = true
all_digits (none ∷ xs) = all_digits xs
all_digits (some d ∷ xs) = leb d 15 && all_digits xs

digit-le :
    (xs : List (Option ℕ)) (i d : ℕ) → all_digits xs ≡ true → hex_entry xs i ≡ some d → d ≤ 15
digit-le [] i d h e = let zero_digit : 0 ≡ d = some_injective e in omega arith
digit-le (none ∷ xs) zero d h e = absurd (none-ne-some e)
digit-le (some k ∷ xs) zero d h e = let same : k ≡ d = some_injective e in ground arith
digit-le (none ∷ xs) (suc i) d h e = digit-le xs i d h e
digit-le (some k ∷ xs) (suc i) d h e = digit-le xs i d (ground arith) e

unhex-le : (ch d : ℕ) → unhex ch ≡ some d → d ≤ 15
unfolding unhex unhex_entries
unhex-le ch d e = digit-le unhex_entries ch d refl e

push_chunk : (n d : ℕ) → d ≤ 15 → may_overflow 16 n ≡ false → push_length 16 n d ≤ max_chunk
push_chunk n d small fits = ground arith

module _ {User : Type 0} where
  pub assert-IsSafe :
      (holds : Bool) (next : Step User) → holds ≡ true → IsSafe next → IsSafe (assert holds next)
  assert-IsSafe holds next e safe = rw e safe

  pub strict-IsSafe :
      (holds : Bool) (x : Exec User) (next : Step User) → IsSafe next → IsSafe (strict holds x next)
  strict-IsSafe true x next safe = safe
  strict-IsSafe false x next safe = refl

  -- A test that chooses between two ways to end.
  pub if-IsSafe : (b : Bool) (s t : Step User) → IsSafe s → IsSafe t → IsSafe (if b then s else t)
  if-IsSafe true s t safe_s safe_t = safe_s
  if-IsSafe false s t safe_s safe_t = safe_t

  pub if-IsGood :
      (b : Bool) (x y : Exec User)
      → (b ≡ true → IsGood 0 x)
      → (b ≡ false → IsGood 0 y)
      → IsGood 0 (if b then x else y)
  if-IsGood true x y good_x good_y = good_x refl
  if-IsGood false x y good_x good_y = good_y refl

  chunk_start-IsSafe :
      (x : Exec User) (d : Option ℕ)
      → IsOk x.parser
      → x.parser.flags.chunked ≡ true
      → Only none x.mark
      → ((k : ℕ) → d ≡ some k → k ≤ 15)
      → IsSafe (chunk_start x d)
  chunk_start-IsSafe x none ok chunked clean small = refl
  chunk_start-IsSafe x (some d) ok chunked clean small =
      let le = small d refl in ((ok.0, omega arith), (chunked, omega arith), clean)

  pub at_chunk_size_start-IsSafe :
      (x : Exec User) (ch : ℕ)
      → IsOk x.parser
      → (x.parser.nread ≡ 1) × (x.parser.flags.chunked ≡ true)
      → Only none x.mark
      → IsSafe (at_chunk_size_start x ch)
  unfolding at_chunk_size_start
  at_chunk_size_start-IsSafe x ch ok (one, chunked) clean =
      assert-IsSafe (x.parser.nread == 1 && x.parser.flags.chunked) _ (ground arith)
        (chunk_start-IsSafe x (unhex ch) ok chunked clean (unhex-le ch))

  chunk_digit-IsSafe :
      (x : Exec User) (ch : ℕ) (d : Option ℕ)
      → IsOk x.parser
      → x.at ≡ State.chunk_size
      → (x.parser.flags.chunked ≡ true) × (x.parser.content_length ≤ max_chunk)
      → Only none x.mark
      → ((k : ℕ) → d ≡ some k → k ≤ 15)
      → IsSafe (chunk_digit x ch d)
  chunk_digit-IsSafe x ch none ok at' fit clean small =
      elim (Bool-cases (ch == 0x3b || ch == 0x20)) [
        | inl e ↦ rw e (ok, fit, clean)
        | inr e ↦ rw e refl
      ]
  chunk_digit-IsSafe x ch (some d) ok at' (chunked, _) clean small =
      elim (Bool-cases (may_overflow 16 x.parser.content_length)) [
        | inl e ↦ rw e refl
        | inr e ↦
            let le = push_chunk x.parser.content_length d (small d refl) e in
            rw e ((ok.0, omega arith), rw at' (chunked, le), rw at' clean)
      ]

  pub at_chunk_size-IsSafe :
      (x : Exec User) (ch : ℕ)
      → IsOk x.parser
      → x.at ≡ State.chunk_size
      → (x.parser.flags.chunked ≡ true) × (x.parser.content_length ≤ max_chunk)
      → Only none x.mark
      → IsSafe (at_chunk_size x ch)
  unfolding at_chunk_size
  at_chunk_size-IsSafe x ch ok at' fit clean =
      assert-IsSafe x.parser.flags.chunked _ fit.0 (elim (Bool-cases (ch == 0x0d)) [
        | inl e ↦ rw e (ok, fit, clean)
        | inr e ↦ rw e (chunk_digit-IsSafe x ch (unhex ch) ok at' fit clean (unhex-le ch))
      ])

  pub at_chunk_parameters-IsSafe :
      (x : Exec User) (ch : ℕ)
      → IsOk x.parser
      → x.at ≡ State.chunk_parameters
      → (x.parser.flags.chunked ≡ true) × (x.parser.content_length ≤ max_chunk)
      → Only none x.mark
      → IsSafe (at_chunk_parameters x ch)
  unfolding at_chunk_parameters
  at_chunk_parameters-IsSafe x ch ok at' fit clean =
      assert-IsSafe x.parser.flags.chunked _ fit.0 (elim (Bool-cases (ch == 0x0d)) [
        | inl e ↦ rw e (ok, fit, clean)
        | inr e ↦ rw e (ok, rw at' fit, rw at' clean)
      ])

  pub at_chunk_data-IsSafe :
      (p : ℕ) (x : Exec User) (ch : ℕ) (rest : Bytes)
      → IsOk x.parser
      → x.at ≡ State.chunk_data
      → (x.parser.flags.chunked ≡ true) × (is_length x.parser.content_length ≡ true)
      → Only (some body) x.mark
      → IsSafe (at_chunk_data p x ch rest).step
  unfolding at_chunk_data
  at_chunk_data-IsSafe p x ch rest ok at' (chunked, some_length) only =
      let n = x.parser.content_length in
      let to_read = min n (length (ch ∷ rest)) in
      let marked = mark_at-Only body p x only in
      let less : n - to_read ≤ ullong_max = (let bounded = ok.1 in omega arith) in
      let left_ok : (is_ok x.parser.http_errno ≡ true) × (n - to_read ≤ ullong_max) =
        (ok.0, less) in
      assert-IsSafe (x.parser.flags.chunked && is_length n) _ (rw (chunked, some_length) refl)
        (elim (Bool-cases (n - to_read == 0)) [
          | inl z ↦ rw z (left_ok, (chunked, ground arith), marked)
          | inr z ↦
              rw z
                (left_ok, rw at' (chunked, left_length n to_read ok.1 some_length z), rw at' marked)
        ])

module _ (st : Settings) (passive : IsPassive st) where
  open st use {User, on_notify}

  pub at_chunk_size_almost_done-IsSafe :
      (buf : Bytes) (x : Exec User) (ch : ℕ)
      → IsOk x.parser
      → (x.parser.flags.chunked ≡ true) × (x.parser.content_length ≤ max_chunk)
      → Only none x.mark
      → IsSafe (at_chunk_size_almost_done st buf x ch)
  unfolding at_chunk_size_almost_done
  at_chunk_size_almost_done-IsSafe buf x ch ok (chunked, small) clean =
      assert-IsSafe x.parser.flags.chunked _ chunked (
        strict-IsSafe (ch == 0x0a) x _ (
          notify-IsSafe st passive chunk_header true _ go
            (if-IsGood (x.parser.content_length == 0) _ _ (λ z. (ok, tt, clean))
              λ z. (ok, (chunked, ground arith), Only-none (some body) x.mark clean))
            λ y good at'. good))

  pub at_chunk_data_almost_done-IsSafe :
      (buf : Bytes) (p : ℕ) (x : Exec User) (ch : ℕ)
      → IsOk x.parser
      → (x.parser.flags.chunked ≡ true) × (x.parser.content_length ≡ 0)
      → Only (some body) x.mark
      → IsSafe (at_chunk_data_almost_done st buf p x ch)
  unfolding at_chunk_data_almost_done
  at_chunk_data_almost_done-IsSafe buf p x ch ok (chunked, none_left) only =
      assert-IsSafe (x.parser.flags.chunked && x.parser.content_length == 0) _ (ground arith) (
        strict-IsSafe (ch == 0x0d) x _
          (data_call_go st passive body buf p true (to State.chunk_data_done x) ok chunked only))

  pub at_chunk_data_done-IsSafe :
      (buf : Bytes) (x : Exec User) (ch : ℕ)
      → IsOk x.parser
      → x.parser.flags.chunked ≡ true
      → Only none x.mark
      → IsSafe (at_chunk_data_done st buf x ch)
  unfolding at_chunk_data_done
  at_chunk_data_done-IsSafe buf x ch ok chunked clean =
      assert-IsSafe x.parser.flags.chunked _ chunked (
        strict-IsSafe (ch == 0x0a) x _ (
          notify-IsSafe st passive chunk_complete true _ go (ok, (refl, chunked), clean)
            λ y good at'. good))
