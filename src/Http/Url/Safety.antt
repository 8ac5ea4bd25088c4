-- ===== src/Http/Url/Safety.antt =====
-- `http_parser_parse_url` of http_parser.c: what the parse of the host keeps.
use jia_tuan_server.Common.{
  ℕ, zero, suc, ◌+◌, ◌≤◌, ◌≡◌, ◌≢◌, refl, sym, ◌∙◌, ap, subst, Bool, true, false, Option, none,
  some, List, [], ◌∷◌, arith, if◌then◌else◌, Bytes, length, take, drop, Bool-cases, some_injective,
  none-ne-some, inl, inr,
}
use jia_tuan_server.Http.Url.Fields.{Field, host, port, userinfo, same, Url, set_len, put}
use jia_tuan_server.Http.Url.Host.{
  HostState, userinfo_start, in_userinfo, in_host, host_v6, is_in_host, is_host_v6, host_port,
  host_start, parse_host_char, host_step, is_host_dead, is_host_port, is_in_userinfo, host_loop,
  host_end, may_end, parse_host,
}
use jia_tuan_server.Http.Url.Bounds.{Within}
use jia_tuan_server.Http.Url.HostBounds.{IsHost, Came-parse_host_char, step-IsHost}

pub length-take_le {ℓ} : {A : Type ℓ} (n : ℕ) (xs : List A) → length (take n xs) ≤ n
length-take_le zero xs = omega arith
length-take_le (suc n) [] = omega arith
length-take_le (suc n) (x ∷ xs) = omega (arith, length-take_le n xs)

host_loop-Within :
    (n : ℕ) (rest : Bytes) (p : ℕ) (s s' : HostState) (u u' : Url)
    → p + length rest ≤ n
    → IsHost n p s u
    → host_loop s p rest u ≡ some (s', u')
    → Within n u'
unfolding host_loop
host_loop-Within n [] p s s' u u' fits inv h =
    subst (Within n) (ap (λ x. x.1) (some_injective h)) inv.within
host_loop-Within n (c ∷ rest) p s s' u u' fits inv h =
    elim (Bool-cases (is_host_dead (parse_host_char s c))) [
      | inl e ↦ absurd (none-ne-some (rw e at h))
      | inr e ↦
          host_loop-Within n rest (p + 1) (parse_host_char s c) s' _ u' (omega arith)
            (step-IsHost n p (omega arith) s u inv (parse_host_char s c) (Came-parse_host_char s c)
              e)
            (rw e at h)
    ]

put_other : (f g : Field) (k : Field → Bool) → same g f ≡ false → put k f true g ≡ k g
put_other f g k h = rw h refl

-- Of the fields, `http_parse_host` sets the port and the userinfo only.
host_step_is_set :
    (s new : HostState) (p : ℕ) (u : Url) (g : Field)
    → same g port ≡ false
    → same g userinfo ≡ false
    → (host_step s new p u).is_set g ≡ u.is_set g
unfolding host_step
host_step_is_set s host_port p u g a b = elim (Bool-cases (is_host_port s)) [
  | inl e ↦ rw e refl
  | inr e ↦ rw e (put_other port g u.is_set a)
]
host_step_is_set s in_userinfo p u g a b = elim (Bool-cases (is_in_userinfo s)) [
  | inl e ↦ rw e refl
  | inr e ↦ rw e (put_other userinfo g u.is_set b)
]
host_step_is_set s in_host p u g a b = elim (Bool-cases (is_in_host s)) [
  | inl e ↦ rw e refl
  | inr e ↦ rw e refl
]
host_step_is_set s host_v6 p u g a b = elim (Bool-cases (is_host_v6 s)) [
  | inl e ↦ rw e refl
  | inr e ↦ rw e refl
]
host_step_is_set s _ p u g a b = refl

host_loop_is_set :
    (rest : Bytes) (p : ℕ) (s s' : HostState) (u u' : Url) (g : Field)
    → same g port ≡ false
    → same g userinfo ≡ false
    → host_loop s p rest u ≡ some (s', u')
    → u'.is_set g ≡ u.is_set g
unfolding host_loop
host_loop_is_set [] p s s' u u' g a b h = sym (ap (λ x. x.1.is_set g) (some_injective h))
host_loop_is_set (c ∷ rest) p s s' u u' g a b h =
    elim (Bool-cases (is_host_dead (parse_host_char s c))) [
      | inl e ↦ absurd (none-ne-some (rw e at h))
      | inr e ↦
          host_loop_is_set rest (p + 1) (parse_host_char s c) s' _ u' g a b (rw e at h)
          ∙ host_step_is_set s (parse_host_char s c) p u g a b
    ]

host_end-some :
    (o : Option (HostState × Url)) (u' : Url)
    → host_end o ≡ some u'
    → (s : HostState) × (o ≡ some (s, u'))
host_end-some none u' h = absurd (none-ne-some h)
host_end-some (some (s, u)) u' h = elim (Bool-cases (may_end s)) [
  | inl e ↦ (s, ap (λ v. some (s, v)) (some_injective (rw e at h)))
  | inr e ↦ absurd (none-ne-some (rw e at h))
]

-- The first state of `http_parse_host`.
abbrev start : Bool → HostState
start found_at = if found_at then userinfo_start else host_start

start-IsHost :
    (n : ℕ) (u : Url) (found_at : Bool)
    → Within n u
    → IsHost n (u.off host) (start found_at) (set_len host 0 u)
start-IsHost n u found_at w = record {
  within = λ g is. elim (Bool-cases (same g host)) [
    | inl e ↦ rw e (omega (arith, w g is))
    | inr e ↦ rw e (w g is)
  ];
  name_fits = omega arith;
  name_empty = λ h. refl;
  port_fits = λ h. absurd (no_port found_at h);
  user_fits = λ h. absurd (no_user found_at h);
}
  where
    no_port : (b : Bool) → is_host_port (start b) ≢ true
    no_port true h = cc
    no_port false h = cc

    no_user : (b : Bool) → is_in_userinfo (start b) ≢ true
    no_user true h = cc
    no_user false h = cc

pub parse_host-Within :
    (n : ℕ) (buf : Bytes) (u u' : Url) (found_at : Bool)
    → Within n u
    → u.off host + u.len host ≤ n
    → parse_host buf u found_at ≡ some u'
    → Within n u'
unfolding parse_host
parse_host-Within n buf u u' found_at w fits h =
    let text = take (u.len host) (drop (u.off host) buf) in
    let (s, looped) = host_end-some _ u' h in
    host_loop-Within n text (u.off host) (start found_at) s (set_len host 0 u) u'
      (omega (arith, length-take_le (u.len host) (drop (u.off host) buf)))
      (start-IsHost n u found_at w) looped

pub parse_host_is_set :
    (buf : Bytes) (u u' : Url) (found_at : Bool) (g : Field)
    → same g port ≡ false
    → same g userinfo ≡ false
    → parse_host buf u found_at ≡ some u'
    → u'.is_set g ≡ u.is_set g
unfolding parse_host
parse_host_is_set buf u u' found_at g a b h =
    let (s, looped) = host_end-some _ u' h in
    host_loop_is_set (take (u.len host) (drop (u.off host) buf)) (u.off host) (start found_at) s
      (set_len host 0 u) u' g a b looped
