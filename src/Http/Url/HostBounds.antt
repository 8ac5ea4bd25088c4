-- ===== src/Http/Url/HostBounds.antt =====
-- `http_parse_host` of http_parser.c keeps each field within the URL.
use jia_tuan_server.Common.{
  ℕ, ◌+◌, ◌≤◌, ◌≡◌, refl, ap, Bool, true, false, arith, if◌then◌else◌, Bool-cases, inl, inr,
}
use jia_tuan_server.Http.Url.Fields.{
  Field, host, port, userinfo, same, Url, set_off, set_len, grow, mark, u16,
}
use jia_tuan_server.Http.Url.Host.{
  HostState, host_dead, userinfo_start, in_userinfo, host_start, host_v6_start, in_host, host_v6,
  host_v6_end, host_v6_zone_start, host_v6_zone, host_port_start, host_port, parse_host_char,
  is_in_host, is_host_v6, is_host_port, is_in_userinfo, host_step, is_host_dead,
}
use jia_tuan_server.Http.Url.Bounds.{Within, u16-le, same→eq, same_refl}

-- Before the first character of the host's name.
abbrev pub is_before : HostState → Bool
is_before userinfo_start = true
is_before in_userinfo = true
is_before host_start = true
is_before host_v6_start = true
is_before _ = false

-- What a step between two states tells about the first one.
pub record Came (s new : HostState) : Type 0 where
  pub before : is_before new ≡ true → is_before s ≡ true
  pub to_host : is_in_host new ≡ true → is_in_host s ≡ false → is_before s ≡ true
  pub to_v6 : is_host_v6 new ≡ true → is_host_v6 s ≡ false → is_before s ≡ true

pub Came-parse_host_char : (s : HostState) (c : ℕ) → Came s (parse_host_char s c)
unfolding parse_host_char
Came-parse_host_char in_userinfo c = record {
  before = λ h. refl;
  to_host = λ h k. refl;
  to_v6 = λ h k. refl;
}
Came-parse_host_char userinfo_start c = record {
  before = λ h. refl;
  to_host = λ h k. refl;
  to_v6 = λ h k. refl;
}
Came-parse_host_char host_start c = record {
  before = λ h. refl;
  to_host = λ h k. refl;
  to_v6 = λ h k. refl;
}
Came-parse_host_char host_v6_start c = record {
  before = λ h. refl;
  to_host = λ h k. refl;
  to_v6 = λ h k. refl;
}
Came-parse_host_char _ c = record {
  before = λ h. ground arith;
  to_host = λ h k. ground arith;
  to_v6 = λ h k. ground arith;
}

pub record IsHost (n p : ℕ) (s : HostState) (u : Url) : Type 0 where
  pub within : Within n u
  pub name_fits : u.off host + u.len host ≤ p
  pub name_empty : is_before s ≡ true → u.len host ≡ 0
  pub port_fits : is_host_port s ≡ true → u.off port + u.len port ≤ p
  pub user_fits : is_in_userinfo s ≡ true → u.off userinfo + u.len userinfo ≤ p

-- `len++` in range.
grow_in-Within :
    (n : ℕ) (f : Field) (u : Url) → Within n u → u.off f + u.len f + 1 ≤ n → Within n (grow f u)
grow_in-Within n f u w fits g is = elim (Bool-cases (same g f)) [
  | inl e ↦ rw e (omega (arith, u16-le (u.len f + 1), ap u.off (same→eq g f e)))
  | inr e ↦ rw e (w g is)
]

-- The first character of a name, whose length was 0.
move-Within :
    (n p : ℕ) (f : Field) (u : Url)
    → Within n u
    → p + 1 ≤ n
    → u.len f ≡ 0
    → Within n (grow f (set_off f p u))
move-Within n p f u w room empty g is = elim (Bool-cases (same g f)) [
  | inl e ↦ rw e (omega (arith, u16-le p))
  | inr e ↦ rw e (w g is)
]

-- The first character of a port or of a userinfo.
fresh-Within :
    (n p : ℕ) (f : Field) (u : Url)
    → Within n u
    → p + 1 ≤ n
    → Within n (grow f (mark f (set_len f 0 (set_off f p u))))
fresh-Within n p f u w room g is = elim (Bool-cases (same g f)) [
  | inl e ↦ rw e (omega (arith, u16-le p, own_len))
  | inr e ↦ rw e (w g (rw e at is))
]
  where
    own_len : u16 ((if same f f then u16 0 else u.len f) + 1) ≤ 1
    own_len = rw (same_refl f) (omega arith)

module _ (n p : ℕ) (room : p + 1 ≤ n) (s : HostState) (u : Url) (inv : IsHost n p s u) where
  open inv use {within, name_fits, name_empty, port_fits, user_fits}

  keep-IsHost :
      (new : HostState)
      → Came s new
      → is_host_port new ≡ false
      → is_in_userinfo new ≡ false
      → IsHost n (p + 1) new u
  keep-IsHost new came no_port no_user = record {
    within = within;
    name_fits = omega arith;
    name_empty = λ h. name_empty (came.before h);
    port_fits = λ h. cc;
    user_fits = λ h. cc;
  }

  -- One more character of the name.
  grow-IsHost :
      (new : HostState)
      → is_before new ≡ false
      → is_host_port new ≡ false
      → is_in_userinfo new ≡ false
      → IsHost n (p + 1) new (grow host u)
  grow-IsHost new name no_port no_user = record {
    within = grow_in-Within n host u within (omega arith);
    name_fits = omega (arith, u16-le (u.len host + 1));
    name_empty = λ h. cc;
    port_fits = λ h. cc;
    user_fits = λ h. cc;
  }

  move-IsHost :
      (new : HostState)
      → is_before s ≡ true
      → is_before new ≡ false
      → is_host_port new ≡ false
      → is_in_userinfo new ≡ false
      → IsHost n (p + 1) new (grow host (set_off host p u))
  move-IsHost new first name no_port no_user = record {
    within = move-Within n p host u within room (name_empty first);
    name_fits = omega (arith, name_empty first);
    name_empty = λ h. cc;
    port_fits = λ h. cc;
    user_fits = λ h. cc;
  }

  pub step-IsHost :
      (new : HostState)
      → Came s new
      → is_host_dead new ≡ false
      → IsHost n (p + 1) new (host_step s new p u)
  unfolding host_step
  step-IsHost host_dead came alive = cc
  step-IsHost host_start came alive = keep-IsHost host_start came refl refl
  step-IsHost userinfo_start came alive = keep-IsHost userinfo_start came refl refl
  step-IsHost host_v6_start came alive = keep-IsHost host_v6_start came refl refl
  step-IsHost host_v6_end came alive = keep-IsHost host_v6_end came refl refl
  step-IsHost host_port_start came alive = keep-IsHost host_port_start came refl refl
  step-IsHost host_v6_zone came alive = grow-IsHost host_v6_zone refl refl refl
  step-IsHost host_v6_zone_start came alive = grow-IsHost host_v6_zone_start refl refl refl
  step-IsHost in_host came alive = elim (Bool-cases (is_in_host s)) [
    | inl e ↦ rw e (grow-IsHost in_host refl refl refl)
    | inr e ↦ rw e (move-IsHost in_host (came.to_host refl e) refl refl refl)
  ]
  step-IsHost host_v6 came alive = elim (Bool-cases (is_host_v6 s)) [
    | inl e ↦ rw e (grow-IsHost host_v6 refl refl refl)
    | inr e ↦ rw e (move-IsHost host_v6 (came.to_v6 refl e) refl refl refl)
  ]
  step-IsHost host_port came alive = elim (Bool-cases (is_host_port s)) [
    | inl e ↦ rw e (record {
      within = grow_in-Within n port u within (omega (arith, port_fits e));
      name_fits = omega arith;
      name_empty = λ h. cc;
      port_fits = λ h. omega (arith, port_fits e, u16-le (u.len port + 1));
      user_fits = λ h. cc;
    })
    | inr e ↦ rw e (record {
      within = fresh-Within n p port u within room;
      name_fits = omega arith;
      name_empty = λ h. cc;
      port_fits = λ h. omega (arith, u16-le p);
      user_fits = λ h. cc;
    })
  ]
  step-IsHost in_userinfo came alive = elim (Bool-cases (is_in_userinfo s)) [
    | inl e ↦ rw e (record {
      within = grow_in-Within n userinfo u within (omega (arith, user_fits e));
      name_fits = omega arith;
      name_empty = λ h. name_empty (came.before h);
      port_fits = λ h. cc;
      user_fits = λ h. omega (arith, user_fits e, u16-le (u.len userinfo + 1));
    })
    | inr e ↦ rw e (record {
      within = fresh-Within n p userinfo u within room;
      name_fits = omega arith;
      name_empty = λ h. name_empty (came.before h);
      port_fits = λ h. cc;
      user_fits = λ h. omega (arith, u16-le p);
    })
  ]
