-- ===== src/Http/Execute/Field/Names.antt =====
-- The names of headers that `http_parser_execute` of http_parser.c recognises.
use mathlib.Core.List.{append_assoc}
use jia_tuan_server.Common.{
  ℕ, ◌+◌, ◌<◌, ◌≡◌, ◌↔◌, ◌⊎◌, ◌∙◌, refl, sym, ap, subst, true, false, [], ◌∷◌, ◌++◌, ◌==◌, ==_iff,
  arith, Bytes, length, Bool-cases, Option-cases, inl, inr, holds_to, holds_to_lem, agree_to,
}
use jia_tuan_server.Http.Tokens.{tokens, token}
use jia_tuan_server.Http.Parser.{
  HeaderState, h_general, h_connection, h_content_length, h_transfer_encoding, h_upgrade,
}
use jia_tuan_server.Http.Execute.Field
use jia_tuan_server.Http.Execute.Field.{
  name_connection, name_proxy_connection, name_content_length, name_transfer_encoding, name_upgrade,
  index_after, match_char, first_header_state, name_char, NameEnd, name_loop,
}
use jia_tuan_server.Http.Execute.Field.Matching.{Recognised, append_nil, name_char-Recognised}

-- Bytes that are tokens, and the lower-case text of them.
abbrev pub AllTokens : Bytes → Type 0
AllTokens [] = Unit
AllTokens (c ∷ cs) = (c < 256) × ((token c == 0) ≡ false) × AllTokens cs

abbrev pub lower_case : Bytes → Bytes
lower_case [] = []
lower_case (c ∷ cs) = token c ∷ lower_case cs

blank_is_no_token : (c : ℕ) → (token c == 0) ≡ false → (c == 0x20) ≡ false
unfolding token tokens
blank_is_no_token c e = elim (Bool-cases (c == 0x20)) [
  | inl f ↦
      let bad : true ≡ false = ap (λ k. token k == 0) (sym ((==_iff c 0x20).0 f)) ∙ e in absurd cc
  | inr f ↦ f
]

name_loop-Recognised :
    (rest t : Bytes) (n : ℕ) (h : HeaderState) (i : ℕ)
    → AllTokens rest
    → Recognised t h i
    → (h' : HeaderState) × (i' : ℕ) × (name_loop rest n h i ≡ Field.at_end (n + length rest) h' i')
      × Recognised (t ++ lower_case rest) h' i'
unfolding name_loop
name_loop-Recognised [] t n h i all known = (
  h,
  i,
  ap (λ k. Field.at_end k h i) (omega arith),
  subst (λ l. Recognised l h i) (sym (append_nil t)) known,
)
name_loop-Recognised (c ∷ rest) t n h i (byte, is_token, all) known =
    let leads = name_char-Recognised t h i c (token c) known (blank_is_no_token c is_token) in
    elim (Option-cases (name_char h i c (token c))) [
      | inl e ↦ absurd (rw e at leads)
      | inr ((h1, i1), e) ↦
          let known1 : Recognised (t ++ token c ∷ []) h1 i1 = rw e at leads in
          let (h', i', runs, known') =
            name_loop-Recognised rest (t ++ token c ∷ []) (n + 1) h1 i1 all known1 in
          (
            h',
            i',
            rw (is_token, e, name_loop) (runs ∙ ap (λ k. Field.at_end k h' i') (omega arith)),
            subst (λ l. Recognised l h' i') (append_assoc t (token c ∷ []) (lower_case rest))
                known',
          )
    ]

first-Recognised : (c : ℕ) → Recognised (c ∷ []) (first_header_state c) 0
unfolding first_header_state
first-Recognised c = elim (Bool-cases (c == b'c')) [
  | inl e ↦ rw (e, (==_iff c b'c').0 e) (refl, refl)
  | inr e ↦ elim (Bool-cases (c == b'p')) [
    | inl f ↦ rw (e, f, (==_iff c b'p').0 f) (refl, omega arith, omega arith)
    | inr f ↦ elim (Bool-cases (c == b't')) [
      | inl g ↦ rw (e, f, g, (==_iff c b't').0 g) (refl, omega arith, omega arith)
      | inr g ↦ elim (Bool-cases (c == b'u')) [
        | inl k ↦ rw (e, f, g, k, (==_iff c b'u').0 k) (refl, omega arith, omega arith)
        | inr k ↦ rw (e, f, g, k) tt
      ]
    ]
  ]
]

tokens_are_lower : holds_to (λ c. token (token c) == token c) 255 ≡ true
unfolding holds_to agree_to token tokens
tokens_are_lower = refl

token-token : (c : ℕ) → c < 256 → token (token c) ≡ token c
token-token c byte = (==_iff _ _).0 (holds_to_lem _ 255 c tokens_are_lower byte)

name_char_lower :
    (h : HeaderState) (i c d k : ℕ)
    → (c == 0x20) ≡ false
    → (d == 0x20) ≡ false
    → name_char h i c k ≡ name_char h i d k
unfolding name_char
name_char_lower h_connection i c d k e f = rw (e, f) refl
name_char_lower h_content_length i c d k e f = rw (e, f) refl
name_char_lower h_transfer_encoding i c d k e f = rw (e, f) refl
name_char_lower h_upgrade i c d k e f = rw (e, f) refl
name_char_lower h i c d k e f = refl

-- The loop does not tell capital letters from small ones.
name_loop_lower :
    (rest : Bytes) (n : ℕ) (h : HeaderState) (i : ℕ)
    → AllTokens rest
    → name_loop rest n h i ≡ name_loop (lower_case rest) n h i
unfolding name_loop
name_loop_lower [] n h i all = refl
name_loop_lower (c ∷ rest) n h i (byte, is_token, all) =
    let same = token-token c byte in
    let is_token' : (token (token c) == 0) ≡ false = rw same is_token in
    let chars =
      name_char_lower h i c (token c) (token c) (blank_is_no_token c is_token)
        (blank_is_no_token (token c) is_token') in
    rw (same, is_token, chars)
      (elim (Option-cases (name_char h i (token c) (token c))) [
        | inl e ↦ rw e refl
        | inr ((h1, i1), e) ↦ rw e (name_loop_lower rest (n + 1) h1 i1 all)
      ])

abbrev end_state : NameEnd → HeaderState
end_state (Field.at_end n h i) = h
end_state _ = h_general

-- The header state behind a name in lower case.
recognise : Bytes → HeaderState
recognise [] = h_general
recognise (c ∷ cs) = end_state (name_loop cs 0 (first_header_state c) 0)

known_names :
    (recognise name_connection ≡ h_connection)
    × (recognise name_proxy_connection ≡ h_connection)
    × (recognise name_content_length ≡ h_content_length)
    × (recognise name_transfer_encoding ≡ h_transfer_encoding)
    × (recognise name_upgrade ≡ h_upgrade)
unfolding recognise name_loop name_char match_char first_header_state token tokens
known_names = (refl, refl, refl, refl, refl)

-- Let a header's name consist of token characters. The parser reads it to its end, and it takes it
-- for Content-Length, Transfer-Encoding or Upgrade exactly if it is that name with its letters in
-- any case, and for Connection exactly if it is Connection or Proxy-Connection.
pub header_name_iff :
    (ch : ℕ) (rest : Bytes)
    → AllTokens (ch ∷ rest)
    → let name = lower_case (ch ∷ rest) in
      (h : HeaderState) × (i : ℕ) × (name_loop rest 0 (first_header_state (token ch)) 0
        ≡ Field.at_end (length rest) h i)
      × ((h ≡ h_content_length) ↔ (name ≡ name_content_length))
      × ((h ≡ h_transfer_encoding) ↔ (name ≡ name_transfer_encoding))
      × ((h ≡ h_upgrade) ↔ (name ≡ name_upgrade))
      × ((h ≡ h_connection) ↔ ((name ≡ name_connection) ⊎ (name ≡ name_proxy_connection)))
unfolding recognise
header_name_iff ch rest (byte, is_token, all) =
    let c = token ch in
    let name = c ∷ lower_case rest in
    let (h, i, runs, known) =
      name_loop-Recognised rest (c ∷ []) 0 (first_header_state c) 0 all (first-Recognised c) in
    let ends : name_loop rest 0 (first_header_state c) 0 ≡ Field.at_end (length rest) h i =
      runs ∙ ap (λ k. Field.at_end k h i) (omega arith) in
    let found : h ≡ recognise name =
      sym (ap end_state ends)
      ∙ ap end_state (name_loop_lower rest 0 (first_header_state c) 0 all) in
    let (conn, proxy, len, enc, up) = known_names in
    let says : (g : HeaderState) → h ≡ g → Recognised name g i =
      λ g e. subst (λ k. Recognised name k i) e known in
    let is : (text : Bytes) (g : HeaderState) → recognise text ≡ g → name ≡ text → h ≡ g =
      λ text g e same. found ∙ ap recognise same ∙ e in
    (
      h,
      i,
      ends,
      (says h_content_length, is name_content_length h_content_length len),
      (says h_transfer_encoding, is name_transfer_encoding h_transfer_encoding enc),
      (says h_upgrade, is name_upgrade h_upgrade up),
      (
        says h_connection,
        λ either. elim either [
          | inl e ↦ is name_connection h_connection conn e
          | inr e ↦ is name_proxy_connection h_connection proxy e
        ],
      ),
    )
