-- ===== src/Http/Execute/Field/Matching.antt =====
-- What the header state of http_parser.c says of a header's name that is being read.
use mathlib.Core.List.{append_assoc}
use jia_tuan_server.Common.{
  ℕ, zero, suc, ◌+◌, ◌<◌, ◌≡◌, ◌⊎◌, ◌∙◌, refl, sym, ap, subst, false, Option, none, some, [], ◌∷◌,
  ◌++◌, ◌==◌, ==_iff, arith, Bytes, codes, length, drop, Bool-cases, inl, inr,
}
use jia_tuan_server.Http.Chars.{entry}
use jia_tuan_server.Http.Parser.{
  HeaderState, h_general, h_c, h_co, h_con, h_matching_connection, h_matching_proxy_connection,
  h_matching_content_length, h_matching_transfer_encoding, h_matching_upgrade, h_connection,
  h_content_length, h_transfer_encoding, h_upgrade,
}
use jia_tuan_server.Http.Execute.Field.{
  name_connection, name_proxy_connection, name_content_length, name_transfer_encoding, name_upgrade,
  index_after, match_char, name_char,
}

-- The text `t` has been read of `name`, up to the index `i`.
abbrev pub Matching : (name t : Bytes) → ℕ → Type 0
Matching name t i = (t ++ drop (i + 1) name ≡ name) × (i + 1 < length name) × (length name < 256)

-- What the header state and the index say of the lower-case text that was read.
abbrev pub Recognised : Bytes → HeaderState → ℕ → Type 0
Recognised t h_general i = Unit
Recognised t h_c i = (t ≡ codes "c") × (i ≡ 0)
Recognised t h_co i = (t ≡ codes "co") × (i ≡ 1)
Recognised t h_con i = (t ≡ codes "con") × (i ≡ 2)
Recognised t h_matching_connection i = Matching name_connection t i
Recognised t h_matching_proxy_connection i = Matching name_proxy_connection t i
Recognised t h_matching_content_length i = Matching name_content_length t i
Recognised t h_matching_transfer_encoding i = Matching name_transfer_encoding t i
Recognised t h_matching_upgrade i = Matching name_upgrade t i
Recognised t h_connection i = (t ≡ name_connection) ⊎ (t ≡ name_proxy_connection)
Recognised t h_content_length i = t ≡ name_content_length
Recognised t h_transfer_encoding i = t ≡ name_transfer_encoding
Recognised t h_upgrade i = t ≡ name_upgrade
Recognised t _ i = ⊥

drop-entry : (xs : Bytes) (i : ℕ) → i < length xs → drop i xs ≡ entry xs i ∷ drop (suc i) xs
drop-entry [] i h = absurd (omega arith)
drop-entry (x ∷ xs) zero h = refl
drop-entry (x ∷ xs) (suc i) h = drop-entry xs i (omega arith)

drop-all : (xs : Bytes) (i : ℕ) → length xs ≡ i → drop i xs ≡ []
drop-all [] zero e = refl
drop-all [] (suc i) e = refl
drop-all (x ∷ xs) zero e = absurd (omega arith)
drop-all (x ∷ xs) (suc i) e = drop-all xs i (omega arith)

pub append_nil : (xs : Bytes) → xs ++ [] ≡ xs
append_nil [] = refl
append_nil (x ∷ xs) = ap (λ r. x ∷ r) (append_nil xs)

module _ {ℓ} {A : Type ℓ} where
  match_char_cases :
      (name t : Bytes) (other last same : A) (i c : ℕ)
      → Matching name t i
      → (match_char name other last same (index_after i) c ≡ other)
        ⊎ ((match_char name other last same (index_after i) c ≡ last) × (t ++ c ∷ [] ≡ name))
        ⊎ ((match_char name other last same (index_after i) c ≡ same)
            × Matching name (t ++ c ∷ []) (index_after i))
  unfolding match_char
  match_char_cases name t other last same i c (reads, short, small) =
      let next : index_after i ≡ i + 1 = omega arith in
      elim (Bool-cases (c == entry name (i + 1))) [
        | inr e ↦ inl (rw (next, e) (ground arith))
        | inl e ↦
            let longer : (t ++ c ∷ []) ++ drop (suc (i + 1)) name ≡ name =
              append_assoc t (c ∷ []) (drop (suc (i + 1)) name)
              ∙ ap (λ k. t ++ k ∷ drop (suc (i + 1)) name) ((==_iff c (entry name (i + 1))).0 e)
              ∙ ap (λ l. t ++ l) (sym (drop-entry name (i + 1) short))
              ∙ reads in
            elim (Bool-cases (i + 1 + 1 == length name)) [
              | inl f ↦ inr (
                  inl (
                    rw (next, e, f) (ground arith),
                    sym (append_nil (t ++ c ∷ []))
                        ∙ ap (λ l. (t ++ c ∷ []) ++ l)
                            (sym (drop-all name (suc (i + 1)) (ground arith)))
                        ∙ longer,
                  ))
              | inr f ↦ inr (
                  inr (
                    rw (next, e, f) (ground arith),
                    rw next (
                      subst (λ k. (t ++ c ∷ []) ++ drop k name ≡ name)
                          (let s : suc (i + 1) ≡ i + 1 + 1 = omega arith in s) longer,
                      ground arith,
                      small,
                    ),
                  ))
            ]
      ]

-- The characters of a name lead on to what is said of the text with them.
Matching-Recognised :
    (name t : Bytes) (last same : HeaderState) (i c : ℕ)
    → Matching name t i
    → (t ++ c ∷ [] ≡ name → Recognised (t ++ c ∷ []) last (index_after i))
    → (Matching name (t ++ c ∷ []) (index_after i) → Recognised (t ++ c ∷ []) same (index_after i))
    → Recognised
        (t ++ c ∷ [])
        (match_char name h_general last same (index_after i) c)
        (index_after i)
Matching-Recognised name t last same i c matching ends goes_on =
    elim (match_char_cases name t h_general last same i c matching) [
      | inl e ↦ subst (λ h. Recognised (t ++ c ∷ []) h (index_after i)) (sym e) tt
      | inr (inl (e, whole)) ↦
          subst (λ h. Recognised (t ++ c ∷ []) h (index_after i)) (sym e) (ends whole)
      | inr (inr (e, more)) ↦
          subst (λ h. Recognised (t ++ c ∷ []) h (index_after i)) (sym e) (goes_on more)
    ]

-- What a character leads to.
abbrev pub LeadsTo : Bytes → Option (HeaderState × ℕ) → Type 0
LeadsTo t none = ⊥
LeadsTo t (some (h, i)) = Recognised t h i

pub name_char-Recognised :
    (t : Bytes) (h : HeaderState) (i ch c : ℕ)
    → Recognised t h i
    → (ch == 0x20) ≡ false
    → LeadsTo (t ++ c ∷ []) (name_char h i ch c)
unfolding name_char
name_char-Recognised t h_general i ch c known not_blank = tt
name_char-Recognised t h_c i ch c (read, at) not_blank = elim (Bool-cases (c == b'o')) [
  | inl e ↦
      rw e (ap (λ l. l ++ c ∷ []) read ∙ ap (λ k. b'c' ∷ k ∷ []) ((==_iff c b'o').0 e), rw at refl)
  | inr e ↦ rw e tt
]
name_char-Recognised t h_co i ch c (read, at) not_blank = elim (Bool-cases (c == b'n')) [
  | inl e ↦ rw e (
    ap (λ l. l ++ c ∷ []) read ∙ ap (λ k. b'c' ∷ b'o' ∷ k ∷ []) ((==_iff c b'n').0 e),
    rw at refl,
  )
  | inr e ↦ rw e tt
]
name_char-Recognised t h_con i ch c (read, at) not_blank = elim (Bool-cases (c == b'n')) [
  | inl e ↦ rw (e, read, at, (==_iff c b'n').0 e) (refl, omega arith, omega arith)
  | inr e ↦ elim (Bool-cases (c == b't')) [
    | inl f ↦ rw (e, f, read, at, (==_iff c b't').0 f) (refl, omega arith, omega arith)
    | inr f ↦ rw (e, f) tt
  ]
]
name_char-Recognised t h_matching_connection i ch c known not_blank =
    Matching-Recognised name_connection t h_connection h_matching_connection i c known
      (λ whole. inl whole) (λ more. more)
name_char-Recognised t h_matching_proxy_connection i ch c known not_blank =
    Matching-Recognised name_proxy_connection t h_connection h_matching_proxy_connection i c known
      (λ whole. inr whole) (λ more. more)
name_char-Recognised t h_matching_content_length i ch c known not_blank =
    Matching-Recognised name_content_length t h_content_length h_matching_content_length i c known
      (λ whole. whole) (λ more. more)
name_char-Recognised t h_matching_transfer_encoding i ch c known not_blank =
    Matching-Recognised name_transfer_encoding t h_transfer_encoding h_matching_transfer_encoding i
      c known (λ whole. whole) (λ more. more)
name_char-Recognised t h_matching_upgrade i ch c known not_blank =
    Matching-Recognised name_upgrade t h_upgrade h_matching_upgrade i c known (λ whole. whole)
      (λ more. more)
name_char-Recognised t h_connection i ch c known not_blank = rw not_blank tt
name_char-Recognised t h_content_length i ch c known not_blank = rw not_blank tt
name_char-Recognised t h_transfer_encoding i ch c known not_blank = rw not_blank tt
name_char-Recognised t h_upgrade i ch c known not_blank = rw not_blank tt
name_char-Recognised t h i ch c known not_blank = absurd known
