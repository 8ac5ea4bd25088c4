-- ===== src/Http/Execute/Identity/Sizes.antt =====
-- The size of a chunk in `http_parser_execute` of http_parser.c.
use jia_tuan_server.Common.{
  ℕ, ◌+◌, ◌-◌, ◌*◌, ◌%◌, ◌^◌, ◌≤◌, ◌<◌, ◌≡◌, refl, ap, ◌∙◌, true, false, some, [], ◌∷◌, leb, ltb,
  arith, Bytes, length, Bool-cases, inl, inr,
}
use jia_tuan_server.Http.State.{State}
use jia_tuan_server.Http.Parser.{HttpParser, hpe_ok, hpe_invalid_content_length}
use jia_tuan_server.Http.Tokens.Table.{hex_value, unhex-hex_value}
use jia_tuan_server.Http.Execute.Macros.{
  Settings, Exec, go, fail, max_header_size, count_header_size, data_call,
}
use jia_tuan_server.Http.Execute.Body.{at_chunk_size}
use jia_tuan_server.Http.Execute.{
  Executed, returned, next, ended, opening, still, saved, dispatch, reexecute, turn, left_calls,
  finish, main_loop, http_parser_execute,
}
use jia_tuan_server.Http.Execute.Assertions.Fit.{max_chunk}
use jia_tuan_server.Http.Execute.Identity.{behind, reexecute-behind}
use jia_tuan_server.Http.Execute.Identity.Digits.{
  digit, hexadecimal, AllHex, hexadecimal_ge, digit_lem, push_length_exact, may_overflow-false,
  may_overflow-true,
}

-- A parser inside the size of a chunk, of which the digits so far have the value `n`.
abbrev pub sizing : HttpParser → (n nread : ℕ) → HttpParser
sizing r n nread = record r {
  state = State.chunk_size;
  http_errno = hpe_ok;
  content_length = n;
  nread = nread;
  flags = record r.flags { chunked = true };
}

module _ (st : Settings) (buf : Bytes) where
  open st use {User}

  dispatch-digit :
      (p : ℕ) (r : HttpParser) (n k : ℕ) (u : User) (ch : ℕ) (rest : Bytes)
      → ch < 128
      → hex_value ch ≡ some (digit ch)
      → n * 16 + digit ch ≤ max_chunk
      → dispatch st buf State.chunk_size p (opening (sizing r n k) u) ch rest
        ≡ still ch (go (opening (sizing r (n * 16 + digit ch) k) u))
  unfolding dispatch at_chunk_size
  dispatch-digit p r n k u ch rest ascii e fits =
      let (small, cr) = digit_lem ch ascii e in
      let found = unhex-hex_value ch (omega arith) ∙ e in
      rw
        (
          cr,
          found,
          may_overflow-false n (digit ch) small fits,
          push_length_exact n (digit ch) small fits,
        )
        refl

  -- The parser at a digit with which the size is too large.
  abbrev too_large : HttpParser → (n k : ℕ) → HttpParser
  too_large r n k = record (sizing r n k) { http_errno = hpe_invalid_content_length }

  dispatch_overflow :
      (p : ℕ) (r : HttpParser) (n k : ℕ) (u : User) (ch : ℕ) (rest : Bytes)
      → ch < 128
      → hex_value ch ≡ some (digit ch)
      → max_chunk < n * 16 + digit ch
      → dispatch st buf State.chunk_size p (opening (sizing r n k) u) ch rest
        ≡ still ch (fail (record (opening (sizing r n k) u) { parser = too_large r n k }))
  unfolding dispatch at_chunk_size
  dispatch_overflow p r n k u ch rest ascii e big =
      let (small, cr) = digit_lem ch ascii e in
      let found = unhex-hex_value ch (omega arith) ∙ e in
      rw (cr, found, may_overflow-true n (digit ch) small big) refl

  -- The counter of bytes at a digit.
  turn_counted :
      (p : ℕ) (r : HttpParser) (n k : ℕ) (u : User) (ch : ℕ) (rest : Bytes)
      → k < max_header_size
      → turn st buf p (opening (sizing r n k) u) ch rest
        ≡ reexecute st buf 8 p (opening (sizing r n (k + 1)) u) ch rest
  unfolding turn count_header_size
  turn_counted p r n k u ch rest room =
      let same : (k + 1) % 2 ^ 32 ≡ k + 1 = omega arith in
      let small : ltb max_header_size (k + 1) ≡ false = ground arith in rw (same, small) refl

  turn-digit :
      (p : ℕ) (r : HttpParser) (n k : ℕ) (u : User) (ch : ℕ) (rest : Bytes)
      → k < max_header_size
      → ch < 128
      → hex_value ch ≡ some (digit ch)
      → n * 16 + digit ch ≤ max_chunk
      → turn st buf p (opening (sizing r n k) u) ch rest
        ≡ next (p + 0) (opening (sizing r (n * 16 + digit ch) (k + 1)) u)
  turn-digit p r n k u ch rest room ascii e fits =
      turn_counted p r n k u ch rest room
      ∙ reexecute-behind st buf 7 p (opening (sizing r n (k + 1)) u) ch rest
      ∙ ap (behind st buf 7 p rest) (dispatch-digit p r n (k + 1) u ch rest ascii e fits)

  turn_overflow :
      (p : ℕ) (r : HttpParser) (n k : ℕ) (u : User) (ch : ℕ) (rest : Bytes)
      → k < max_header_size
      → ch < 128
      → hex_value ch ≡ some (digit ch)
      → max_chunk < n * 16 + digit ch
      → turn st buf p (opening (sizing r n k) u) ch rest
        ≡ ended (p + 0) (record (opening (sizing r n (k + 1)) u) { parser = too_large r n (k + 1) })
  turn_overflow p r n k u ch rest room ascii e big =
      turn_counted p r n k u ch rest room
      ∙ reexecute-behind st buf 7 p (opening (sizing r n (k + 1)) u) ch rest
      ∙ ap (behind st buf 7 p rest) (dispatch_overflow p r n (k + 1) u ch rest ascii e big)

  finish_digits :
      (p : ℕ) (r : HttpParser) (n k : ℕ) (u : User)
      → finish st buf p (opening (sizing r n k) u) ≡ returned p (sizing r n k) u
  unfolding finish left_calls data_call
  finish_digits p r n k u = refl

  -- What a loop over digits ends with.
  abbrev pub Refused : Executed User → Type 0
  Refused x =
      (p : ℕ) × (r : HttpParser) × (u : User) × (x ≡ returned p r u)
      × (r.http_errno ≡ hpe_invalid_content_length)

  main_loop_digit :
      (rest : Bytes) (p : ℕ) (x y : Exec User) (ch : ℕ)
      → turn st buf p x ch rest ≡ next (p + 0) y
      → main_loop st buf 0 (ch ∷ rest) p x ≡ main_loop st buf 0 rest (p + 1) y
  unfolding main_loop
  main_loop_digit rest p x y ch e =
      let stays : p + 0 - p ≡ 0 = omega arith in rw (main_loop, e, stays) refl

  main_loop_overflow :
      (rest : Bytes) (p : ℕ) (x y : Exec User) (ch : ℕ)
      → turn st buf p x ch rest ≡ ended (p + 0) y
      → main_loop st buf 0 (ch ∷ rest) p x ≡ returned (p + 0) (saved y) y.user
  unfolding main_loop
  main_loop_overflow rest p x y ch e = rw (main_loop, e) refl

  main_loop_end :
      (p : ℕ) (r : HttpParser) (n k : ℕ) (u : User)
      → main_loop st buf 0 [] p (opening (sizing r n k) u) ≡ returned p (sizing r n k) u
  unfolding main_loop
  main_loop_end p r n k u = finish_digits p r n k u

  same_counts :
      (p q : ℕ) (r : HttpParser) (n k l : ℕ) (u : User)
      → p ≡ q
      → k ≡ l
      → ◌≡◌ {A = Executed User} (returned p (sizing r n k) u) (returned q (sizing r n l) u)
  same_counts p q r n k l u e f =
      ap (λ i. returned i (sizing r n k) u) e ∙ ap (λ i. returned q (sizing r n i) u) f

  digits_exact :
      (digits : Bytes) (p : ℕ) (r : HttpParser) (n k : ℕ) (u : User)
      → AllHex digits
      → k + length digits ≤ max_header_size
      → n ≤ max_chunk
      → (hexadecimal n digits ≤ max_chunk
          → main_loop st buf 0 digits p (opening (sizing r n k) u)
            ≡ returned (p + length digits) (sizing r (hexadecimal n digits) (k + length digits)) u)
        × (max_chunk < hexadecimal n digits
            → Refused (main_loop st buf 0 digits p (opening (sizing r n k) u)))
  unfolding hexadecimal
  digits_exact [] p r n k u hex room small = (
    λ fits.
        main_loop_end p r n k u ∙ same_counts p (p + 0) r n k (k + 0) u (omega arith) (omega arith),
    λ big. absurd (omega arith),
  )
  digits_exact (c ∷ cs) p r n k u (ascii, d, hex) room small =
      let m = n * 16 + digit c in
      elim (Bool-cases (leb m max_chunk)) [
        | inl e ↦
            let step =
              main_loop_digit cs p (opening (sizing r n k) u) (opening (sizing r m (k + 1)) u) c
                (turn-digit p r n k u c cs (omega arith) ascii d (ground arith)) in
            let (exact, refused) =
              digits_exact cs (p + 1) r m (k + 1) u hex (omega arith) (ground arith) in
            (
              λ fits.
                  step
                  ∙ exact fits
                  ∙ same_counts _ _ r (hexadecimal m cs) _ _ u (omega arith) (omega arith),
              λ big. let (q, r', u', e', bad) = refused big in (q, r', u', step ∙ e', bad),
            )
        | inr e ↦
            let bad =
              main_loop_overflow cs p (opening (sizing r n k) u)
                (record (opening (sizing r n (k + 1)) u) { parser = too_large r n (k + 1) }) c
                (turn_overflow p r n k u c cs (omega arith) ascii d (ground arith)) in
            (
              λ fits. absurd (ground (arith, hexadecimal_ge cs m)),
              λ big. (p + 0, too_large r n (k + 1), u, bad, refl),
            )
      ]

-- Inside the size of a chunk, of which the digits so far have the value n, a call with one or more
-- further hexadecimal digits, for which the header's limit has room, reads them all and leaves the
-- parser with exactly the value of all digits if that is at most 2 ^ 64 - 17, and otherwise returns
-- with the error HPE_INVALID_CONTENT_LENGTH. Nothing wraps around, whatever the callbacks are.
pub chunk_size_exact :
    (st : Settings) (digits : Bytes) (r : HttpParser) (n k : ℕ) (u : st.User)
    → 0 < length digits
    → AllHex digits
    → k + length digits ≤ max_header_size
    → n ≤ max_chunk
    → (hexadecimal n digits ≤ max_chunk
        → http_parser_execute st (sizing r n k) u digits
          ≡ returned (length digits) (sizing r (hexadecimal n digits) (k + length digits)) u)
      × (max_chunk < hexadecimal n digits
          → Refused st digits (http_parser_execute st (sizing r n k) u digits))
unfolding http_parser_execute
chunk_size_exact st [] r n k u some_digits hex room small = absurd (omega arith)
chunk_size_exact st (c ∷ cs) r n k u some_digits hex room small =
    let (exact, refused) = digits_exact st (c ∷ cs) (c ∷ cs) 0 r n k u hex room small in
    (
      λ fits.
          exact fits
          ∙ ap (λ i. returned i (sizing r (hexadecimal n (c ∷ cs)) (k + length (c ∷ cs))) u)
              (omega arith),
      refused,
    )
