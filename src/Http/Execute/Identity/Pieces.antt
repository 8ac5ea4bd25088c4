-- ===== src/Http/Execute/Identity/Pieces.antt =====
-- A body with a Content-Length over several calls of `http_parser_execute` of http_parser.c.
use jia_tuan_server.Common.{
  ◌++◌, ◌⊎◌, some_injective, none-ne-some, Bool-cases, inl, inr, ℕ, ◌-◌, ◌≤◌, ◌<◌, ◌≡◌, refl, sym,
  ap, subst, ◌∙◌, true, Option, none, some, List, [], ◌∷◌, if◌then◌else◌, ◌==◌, arith, Bytes,
  length, Bool-cases, inl, inr,
}
use jia_tuan_server.Http.Parser.{HttpParser, ullong_max}
use jia_tuan_server.Http.Execute.Macros.{Settings}
use jia_tuan_server.Http.Execute.{Executed, returned, aborted, endless, http_parser_execute}
use jia_tuan_server.Http.Execute.Identity.{
  HandlesBody, HandlesEnd, waiting, behind_message, piece_of_body,
}
use jia_tuan_server.Http.Execute.Identity.Ending.{end_of_body}

-- One call for each piece of the input, as long as the calls parse their whole piece.
unfoldable pub feed :
    (st : Settings) → List Bytes → HttpParser → st.User → Option (HttpParser × st.User)
unfolding http_parser_execute
feed st [] r u = some (r, u)
feed st (buf ∷ bufs) r u = elim (http_parser_execute st r u buf) [
  | returned n r' u' ↦ let rest = feed st bufs r' u' in if n == length buf then rest else none
  | aborted ↦ none
  | endless ↦ none
]

-- The pieces are not empty and have `n` bytes together.
abbrev pub Cuts : List Bytes → ℕ → Type 0
Cuts [] n = n ≡ 0
Cuts (buf ∷ bufs) n = (0 < length buf) × (length buf ≤ n) × Cuts bufs (n - length buf)

abbrev pub take_all : {User : Type 0} → (Bytes → User → User) → List Bytes → User → User
take_all take_body [] u = u
take_all take_body (buf ∷ bufs) u = take_all take_body bufs (take_body buf u)

pub feed_returned :
    (st : Settings) (buf : Bytes) (bufs : List Bytes) (r r' : HttpParser) (u u' : st.User)
    → http_parser_execute st r u buf ≡ returned (length buf) r' u'
    → feed st (buf ∷ bufs) r u ≡ feed st bufs r' u'
unfolding feed
feed_returned st buf bufs r r' u u' e =
    let same : (length buf == length buf) ≡ true = ground arith in rw (e, same, feed) refl

pub nothing_left :
    (st : Settings) (take_body : Bytes → st.User → st.User) (bufs : List Bytes) (n : ℕ)
    (r : HttpParser)
    → (u : st.User) → Cuts bufs n
    → n ≡ 0
    → (feed st bufs r u ≡ some (r, u)) × (take_all take_body bufs u ≡ u)
unfolding feed
nothing_left st take_body [] n r u cuts e = (refl, refl)
nothing_left st take_body (buf ∷ bufs) n r u (full, fits, _) e = absurd (omega arith)

pub feed_none : (st : Settings) (r : HttpParser) (u : st.User) → feed st [] r u ≡ some (r, u)
unfolding feed
feed_none st r u = refl

Executed-cases :
    {User : Type 0}
    → (x : Executed User)
    → ((n : ℕ) × (r : HttpParser) × (u : User) × (x ≡ returned n r u))
      ⊎ (x ≡ aborted)
      ⊎ (x ≡ endless)
Executed-cases (returned n r u) = inl (n, r, u, refl)
Executed-cases aborted = inr (inl refl)
Executed-cases endless = inr (inr refl)

pub feed-++ :
    (st : Settings) (bufs tail : List Bytes) (r r' : HttpParser) (u u' : st.User)
    → feed st bufs r u ≡ some (r', u')
    → feed st (bufs ++ tail) r u ≡ feed st tail r' u'
unfolding feed
feed-++ st [] tail r r' u u' e =
    ap (λ (p : HttpParser × st.User). feed st tail p.0 p.1) (some_injective e)
feed-++ st (buf ∷ bufs) tail r r' u u' e = elim (Executed-cases (http_parser_execute st r u buf)) [
  | inl (n, r1, u1, x) ↦ elim (Bool-cases (n == length buf)) [
    | inl all ↦ rw (feed, x, all, feed) (feed-++ st bufs tail r1 r' u1 u' (rw (feed, x, all) at e))
    | inr less ↦ absurd (none-ne-some (rw (feed, x, less) at e))
  ]
  | inr (inl x) ↦ absurd (none-ne-some (rw (feed, x) at e))
  | inr (inr x) ↦ absurd (none-ne-some (rw (feed, x) at e))
]

-- Let the callback on_body and the callback on_message_complete not fail and leave the parser as it
-- is. However a body of n bytes with a Content-Length is cut into calls of http_parser_execute with
-- at least one byte each, every call parses its whole piece, the callback on_body is given each
-- piece once and in order, and on_message_complete is called once, behind the last one.
pub body_in_pieces :
    (st : Settings) (take_body : Bytes → st.User → st.User) (complete : st.User → st.User)
    → HandlesBody st take_body
    → HandlesEnd st complete
    → (bufs : List Bytes) (n : ℕ) (r : HttpParser) (u : st.User) → Cuts bufs n
    → 0 < n
    → n < ullong_max
    → feed st bufs (waiting r n) u ≡ some (behind_message r, complete (take_all take_body bufs u))
body_in_pieces st take_body complete handles ends [] n r u cuts some_bytes big =
    absurd (omega arith)
body_in_pieces st take_body complete handles ends ([] ∷ bufs) n r u (full, _, _) some_bytes big =
    absurd (omega arith)
body_in_pieces st take_body complete handles ends ((ch ∷ rest) ∷ bufs) n r u (full, fits, cuts)
      some_bytes big =
    let buf = ch ∷ rest in
    elim (Bool-cases (n == length buf)) [
      | inl e ↦
          let same : length buf ≡ n = ground arith in
          let done = end_of_body st take_body complete handles ends r u ch rest (omega arith) in
          let u' = complete (take_body buf u) in
          let stays =
            (nothing_left st take_body bufs (n - length buf) (behind_message r) u' cuts
              (omega arith)).0 in
          let no_more =
            (nothing_left st take_body bufs (n - length buf) r (take_body buf u) cuts
              (omega arith)).1 in
          feed_returned st buf bufs (waiting r n) (behind_message r) u u' (
            subst
              (λ k.
                http_parser_execute st (waiting r k) u buf
                ≡ returned (length buf) (behind_message r) u')
              same done)
          ∙ stays
          ∙ ap (λ v. some (behind_message r, complete v)) (sym no_more)
      | inr e ↦
          feed_returned st buf bufs (waiting r n) (waiting r (n - length buf)) u (take_body buf u)
            (piece_of_body st take_body handles r n u ch rest (ground arith) big)
          ∙ body_in_pieces st take_body complete handles ends bufs (n - length buf) r
              (take_body buf u) cuts (ground arith) (omega arith)
    ]
