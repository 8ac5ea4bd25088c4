-- ===== src/Http/Execute/Identity/Chunks.antt =====
-- The data of a chunk over several calls of `http_parser_execute` of http_parser.c.
use Prim.Native.Nat.{min}
use jia_tuan_server.Common.{
  ℕ, ◌+◌, ◌-◌, ◌≤◌, ◌<◌, ◌≡◌, refl, sym, ap, ◌∙◌, Bool, true, false, codes, some, List, [], ◌∷◌,
  ◌++◌, ◌==◌, arith, Bytes, length, take, Bool-cases, inl, inr, pos,
}
use jia_tuan_server.Http.State.{State}
use jia_tuan_server.Http.Parser.{HttpParser, hpe_ok, ullong_max}
use jia_tuan_server.Http.Execute.Macros.{
  Settings, Exec, body, chunk_complete, go, notify, data_call, mark_at, to,
}
use jia_tuan_server.Http.Execute.Body.{
  is_length, at_chunk_data, at_chunk_data_almost_done, at_chunk_data_done, with_length,
}
use jia_tuan_server.Http.Execute.{
  returned, next, opening, first_mark, still, dispatch, reexecute, turn, left_calls, finish,
  main_loop, http_parser_execute,
}
use jia_tuan_server.Http.Execute.Identity.{
  HandlesBody, main_loop-skip, behind, reexecute-behind, take-length,
}
use jia_tuan_server.Http.Execute.Identity.Pieces.{
  feed, feed_none, feed-++, Cuts, take_all, feed_returned, nothing_left,
}

-- A parser that waits for `n` bytes of a chunk.
abbrev pub in_chunk : HttpParser → ℕ → HttpParser
in_chunk r n = record r {
  state = State.chunk_data;
  http_errno = hpe_ok;
  content_length = n;
  flags = record r.flags { chunked = true };
}

-- That parser behind the data of the chunk.
abbrev pub behind_data : HttpParser → HttpParser
behind_data r = record (in_chunk r 0) { state = State.chunk_data_almost_done }

-- That parser behind the line end that follows the data.
abbrev pub behind_chunk : HttpParser → HttpParser
behind_chunk r = record (in_chunk r 0) { state = State.chunk_size_start; nread = 0 }

-- The callback on_chunk_complete does not fail and leaves the parser as it is.
abbrev pub HandlesChunk : (st : Settings) → (st.User → st.User) → Type 0
HandlesChunk st complete = st.on_notify chunk_complete ≡ some (λ r u. (pos 0, r, complete u))

-- The parser in front of the last `k` bytes of a chunk; the flag says that there are none.
abbrev left_of_chunk : Bool → HttpParser → ℕ → HttpParser
left_of_chunk true r k = record (in_chunk r k) { state = State.chunk_data_almost_done }
left_of_chunk false r k = in_chunk r k

some_length : (n m : ℕ) → 0 < m → m ≤ n → n < ullong_max → is_length n ≡ true
some_length n m some_bytes le big = ground arith

min-le : (n m : ℕ) → m ≤ n → min n m ≡ m
min-le n m le = omega arith

module _ (st : Settings) (take_body : Bytes → st.User → st.User)
    (handles : HandlesBody st take_body) where
  open st use {User}

  -- The variables behind a piece of the chunk, of which `k` bytes are still to come.
  abbrev kept : Bool → HttpParser → (n k : ℕ) → User → Exec User
  kept true r n k u =
      to State.chunk_data_almost_done (with_length k (mark_at body 0 (opening (in_chunk r n) u)))
  kept false r n k u = with_length k (mark_at body 0 (opening (in_chunk r n) u))

  finish-kept :
      (all : Bool) (buf : Bytes) (p : ℕ) (r : HttpParser) (n k : ℕ) (u : User)
      → finish st buf p (kept all r n k u)
        ≡ returned p (left_of_chunk all r k) (take_body (take (p - 0) buf) u)
  unfolding finish left_calls data_call
  finish-kept true buf p r n k u = rw handles refl
  finish-kept false buf p r n k u = rw handles refl

  dispatch-in_chunk :
      (buf : Bytes) (r : HttpParser) (n : ℕ) (u : User) (ch : ℕ) (rest : Bytes)
      → length (ch ∷ rest) ≤ n
      → n < ullong_max
      → dispatch st buf State.chunk_data 0 (opening (in_chunk r n) u) ch rest ≡ record {
        taken = length (ch ∷ rest) - 1;
        ch = ch;
        step = go (kept (n - length (ch ∷ rest) == 0) r n (n - length (ch ∷ rest)) u);
      }
  unfolding dispatch at_chunk_data
  dispatch-in_chunk buf r n u ch rest le big =
      let m = min-le n (length (ch ∷ rest)) le in
      let fine = some_length n (length (ch ∷ rest)) (omega arith) le big in
      elim (Bool-cases (n - length (ch ∷ rest) == 0)) [
        | inl e ↦ rw (m, fine, e) refl
        | inr e ↦ rw (m, fine, e) refl
      ]

  turn-in_chunk :
      (buf : Bytes) (r : HttpParser) (n : ℕ) (u : User) (ch : ℕ) (rest : Bytes)
      → length (ch ∷ rest) ≤ n
      → n < ullong_max
      → turn st buf 0 (opening (in_chunk r n) u) ch rest
        ≡ next
            (0 + (length (ch ∷ rest) - 1))
            (kept (n - length (ch ∷ rest) == 0) r n (n - length (ch ∷ rest)) u)
  unfolding turn
  turn-in_chunk buf r n u ch rest le big =
      reexecute-behind st buf 7 0 (opening (in_chunk r n) u) ch rest
      ∙ ap (behind st buf 7 0 rest) (dispatch-in_chunk buf r n u ch rest le big)

  -- A call with a piece of the chunk gives the callback on_body the whole piece.
  piece_of_chunk :
      (r : HttpParser) (n : ℕ) (u : User) (ch : ℕ) (rest : Bytes)
      → length (ch ∷ rest) ≤ n
      → n < ullong_max
      → http_parser_execute st (in_chunk r n) u (ch ∷ rest)
        ≡ returned
            (length (ch ∷ rest))
            (left_of_chunk (n - length (ch ∷ rest) == 0) r (n - length (ch ∷ rest)))
            (take_body (ch ∷ rest) u)
  unfolding http_parser_execute main_loop
  piece_of_chunk r n u ch rest le big =
      let buf = ch ∷ rest in
      let all_read = n - length buf == 0 in
      let y = kept all_read r n (n - length buf) u in
      let all : 0 + 1 + length rest ≡ length buf = omega arith in
      let none_before : length buf - 0 ≡ length buf = omega arith in
      let whole : take (length buf - 0) buf ≡ buf =
        ap (λ k. take k buf) none_before ∙ take-length buf in
      rw (turn-in_chunk buf r n u ch rest le big, main_loop)
        (main_loop-skip st buf rest (0 + (length buf - 1) - 0) (0 + 1) y (omega arith)
          ∙ ap (λ q. finish st buf q y) all
          ∙ finish-kept all_read buf (length buf) r n (n - length buf) u
          ∙ ap
              (λ text.
                returned (length buf) (left_of_chunk all_read r (n - length buf))
                  (take_body text u))
              whole)

  data_in_pieces :
      (bufs : List Bytes) (n : ℕ) (r : HttpParser) (u : User)
      → Cuts bufs n
      → 0 < n
      → n < ullong_max
      → feed st bufs (in_chunk r n) u ≡ some (behind_data r, take_all take_body bufs u)
  data_in_pieces [] n r u cuts some_bytes big = absurd (omega arith)
  data_in_pieces ([] ∷ bufs) n r u (full, _, _) some_bytes big = absurd (omega arith)
  data_in_pieces ((ch ∷ rest) ∷ bufs) n r u (full, fits, cuts) some_bytes big =
      let buf = ch ∷ rest in
      let u' = take_body buf u in
      let piece = piece_of_chunk r n u ch rest fits big in
      elim (Bool-cases (n - length buf == 0)) [
        | inl e ↦
            let none_left : n - length buf ≡ 0 = ground arith in
            let done : http_parser_execute st (in_chunk r n) u buf
                ≡ returned (length buf) (behind_data r) u' =
              piece
              ∙ ap (λ b. returned (length buf) (left_of_chunk b r (n - length buf)) u') e
              ∙ ap (λ k. returned (length buf) (left_of_chunk true r k) u') none_left in
            let (stays, no_more) =
              nothing_left st take_body bufs (n - length buf) (behind_data r) u' cuts none_left in
            feed_returned st buf bufs (in_chunk r n) (behind_data r) u u' done
            ∙ stays
            ∙ ap (λ v. some (behind_data r, v)) (sym no_more)
        | inr e ↦
            feed_returned st buf bufs (in_chunk r n) (in_chunk r (n - length buf)) u u'
              (piece ∙ ap (λ b. returned (length buf) (left_of_chunk b r (n - length buf)) u') e)
            ∙ data_in_pieces bufs (n - length buf) r u' cuts (ground arith) (omega arith)
      ]

module _ (st : Settings) (complete : st.User → st.User) (handles : HandlesChunk st complete) where
  open st use {User}

  -- The variables behind the first byte of the line end.
  abbrev half : HttpParser → User → Exec User
  half r u = to State.chunk_data_done (opening (behind_data r) u)

  abbrev ended_chunk : HttpParser → User → Exec User
  ended_chunk r u = record (opening (behind_chunk r) (complete u)) {
    mark = first_mark State.chunk_data_almost_done;
  }

  turn_cr :
      (buf rest : Bytes) (r : HttpParser) (u : User)
      → turn st buf 0 (opening (behind_data r) u) 0x0d rest ≡ next 0 (half r u)
  unfolding turn reexecute dispatch at_chunk_data_almost_done data_call
  turn_cr buf rest r u = refl

  dispatch_lf :
      (buf rest : Bytes) (r : HttpParser) (u : User)
      → dispatch st buf State.chunk_data_done 1 (half r u) 0x0a rest
        ≡ still 0x0a (go (ended_chunk r u))
  unfolding dispatch at_chunk_data_done notify
  dispatch_lf buf rest r u = rw handles refl

  turn_lf :
      (buf rest : Bytes) (r : HttpParser) (u : User)
      → turn st buf 1 (half r u) 0x0a rest ≡ next 1 (ended_chunk r u)
  unfolding turn
  turn_lf buf rest r u =
      reexecute-behind st buf 7 1 (half r u) 0x0a rest
      ∙ ap (behind st buf 7 1 rest) (dispatch_lf buf rest r u)

  finish_chunk :
      (buf : Bytes) (p : ℕ) (r : HttpParser) (u : User)
      → finish st buf p (ended_chunk r u) ≡ returned p (behind_chunk r) (complete u)
  unfolding finish left_calls data_call
  finish_chunk buf p r u = refl

  -- The line end behind the data.
  end_of_chunk :
      (r : HttpParser) (u : User)
      → http_parser_execute st (behind_data r) u (codes "\r\n")
        ≡ returned 2 (behind_chunk r) (complete u)
  unfolding http_parser_execute main_loop
  end_of_chunk r u =
      rw
        (
          turn_cr (codes "\r\n") (codes "\n") r u,
          main_loop,
          turn_lf (codes "\r\n") [] r u,
          main_loop,
        )
        (finish_chunk (codes "\r\n") 2 r u)

-- Let the callbacks on_body and on_chunk_complete not fail and leave the parser as it is. However
-- the n bytes of a chunk are cut into calls of http_parser_execute with at least one byte each, and
-- with a call for the line end behind them, every call parses its whole piece, the callback on_body
-- is given each piece once and in order, on_chunk_complete is called once, behind the last one, and
-- the parser waits for the size of the next chunk, with its counter of bytes at 0.
pub chunk_in_pieces :
    (st : Settings) (take_body : Bytes → st.User → st.User) (complete : st.User → st.User)
    → HandlesBody st take_body
    → HandlesChunk st complete
    → (bufs : List Bytes) (n : ℕ) (r : HttpParser) (u : st.User) → Cuts bufs n
    → 0 < n
    → n < ullong_max
    → feed st (bufs ++ codes "\r\n" ∷ []) (in_chunk r n) u
      ≡ some (behind_chunk r, complete (take_all take_body bufs u))
chunk_in_pieces st take_body complete handles ends bufs n r u cuts some_bytes big =
    let u' = take_all take_body bufs u in
    feed-++ st bufs (codes "\r\n" ∷ []) (in_chunk r n) (behind_data r) u u'
      (data_in_pieces st take_body handles bufs n r u cuts some_bytes big)
    ∙ feed_returned st (codes "\r\n") [] (behind_data r) (behind_chunk r) u' (complete u')
        (end_of_chunk st complete ends r u')
    ∙ feed_none st (behind_chunk r) (complete u')
