-- ===== src/Http/Url/Bounds.antt =====
-- The loop of `http_parser_parse_url` of http_parser.c keeps each field within the text read.
use jia_tuan_server.Common.{
  ℕ, ◌+◌, ◌≤◌, ◌≡◌, refl, sym, ap, subst, true, Option, none, some, [], ◌∷◌, arith, Bytes, length,
  Bool-cases, Option-cases, some_injective, none-ne-some, inl, inr,
}
use jia_tuan_server.Http.State.{State}
use jia_tuan_server.Http.Url.Fields.{
  Field, schema, host, port, path, query, fragment, userinfo, same, Url, set_off, set_len, grow,
  mark, put, u16,
}
use jia_tuan_server.Http.Url.Parse.{
  Scan, Piece, fail, delimiter, piece, continues, scan_field, scan_piece, scan_char, scan_loop,
}

pub same→eq : (f g : Field) → same f g ≡ true → f ≡ g
same→eq schema schema h = refl
same→eq host host h = refl
same→eq port port h = refl
same→eq path path h = refl
same→eq query query h = refl
same→eq fragment fragment h = refl
same→eq userinfo userinfo h = refl
same→eq _ _ h = cc

pub same_refl : (f : Field) → same f f ≡ true
same_refl schema = refl
same_refl _ = refl

-- Each field that is set ends at `n` at the latest.
abbrev pub Within : ℕ → Url → Type 0
Within n u = (f : Field) → u.is_set f ≡ true → u.off f + u.len f ≤ n

pub u16-le : (n : ℕ) → u16 n ≤ n
u16-le n = omega arith

pub record IsScan (p : ℕ) (v : Scan) : Type 0 where
  pub within : Within p v.url
  pub old_set : (f : Field) → v.old_uf ≡ some f → v.url.is_set f ≡ true

pub grow-Within :
    (p : ℕ) (f : Field) (u : Url) → Within p u → u.off f + u.len f ≤ p → Within (p + 1) (grow f u)
grow-Within p f u w fits g h = elim (Bool-cases (same g f)) [
  | inl e ↦ rw e (omega (arith, fits, u16-le (u.len f + 1), ap u.off (same→eq g f e)))
  | inr e ↦ rw e (omega (arith, w g h))
]

-- A field that starts at the offset `p` with one character.
start-Within :
    (p : ℕ) (f : Field) (u : Url)
    → Within p u
    → Within (p + 1) (mark f (set_len f 1 (set_off f p u)))
start-Within p f u w g h = elim (Bool-cases (same g f)) [
  | inl e ↦ rw e (omega (arith, u16-le p))
  | inr e ↦ rw e (omega (arith, w g (rw e at h)))
]

scan_field-IsScan :
    (p : ℕ) (v : Scan) (s : State) (f : Field) → IsScan p v → IsScan (p + 1) (scan_field v s f p)
unfolding scan_field
scan_field-IsScan p v s f inv = elim (Bool-cases (continues v.old_uf f)) [
  | inl e ↦ rw e (
      let old : v.url.is_set f ≡ true = inv.old_set f (old_eq v.old_uf e) in
      record {
        within = grow-Within p f v.url inv.within (inv.within f old);
        old_set = λ g h. subst (λ k. v.url.is_set k ≡ true) (some_injective h) old;
      })
  | inr e ↦ rw e (record {
    within = start-Within p f v.url inv.within;
    old_set =
        λ g h. subst (λ k. put v.url.is_set f true k ≡ true) (some_injective h) (rw (same_refl f));
  })
]
  where
    old_eq : (o : Option Field) → continues o f ≡ true → o ≡ some f
    old_eq none e = cc
    old_eq (some g) e = ap some (sym (same→eq f g e))

scan_piece-IsScan :
    (p : ℕ) (v v' : Scan) (s : State) (q : Piece)
    → IsScan p v
    → scan_piece v s q p ≡ some v'
    → IsScan (p + 1) v'
unfolding scan_piece
scan_piece-IsScan p v v' s fail inv h = absurd (ground arith)
scan_piece-IsScan p v v' s delimiter inv h =
    subst (IsScan (p + 1)) (some_injective h)
      (record { within = λ f is. omega (arith, inv.within f is); old_set = inv.old_set })
scan_piece-IsScan p v v' s (piece f) inv h =
    subst (IsScan (p + 1)) (some_injective h) (scan_field-IsScan p v s f inv)

pub scan_loop-IsScan :
    (rest : Bytes) (p : ℕ) (v v' : Scan)
    → IsScan p v
    → scan_loop v p rest ≡ some v'
    → IsScan (p + length rest) v'
unfolding scan_loop scan_char
scan_loop-IsScan [] p v v' inv h =
    subst (IsScan (p + 0)) (some_injective h)
      (record { within = λ f is. omega (arith, inv.within f is); old_set = inv.old_set })
scan_loop-IsScan (c ∷ rest) p v v' inv h = elim (Option-cases (scan_char v p c)) [
  | inl e ↦ absurd (none-ne-some (rw e at h))
  | inr (w, e) ↦
      let later =
        scan_loop-IsScan rest (p + 1) w v' (scan_piece-IsScan p v w _ _ inv e) (rw e at h) in
      subst (λ n. IsScan n v') (omega arith) later
]
