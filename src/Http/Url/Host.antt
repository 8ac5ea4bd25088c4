-- ===== src/Http/Url/Host.antt =====
-- `http_parse_host_char` and `http_parse_host` of http_parser.c.
use jia_tuan_server.Common.{
  ℕ, ◌+◌, Bool, true, false, ◌||◌, Option, none, some, [], ◌∷◌, ◌==◌, if◌then◌else◌, Bytes, take,
  drop,
}
use jia_tuan_server.Http.Chars.{is_alphanum, is_num, is_hex, is_userinfo_char, is_host_char}
use jia_tuan_server.Http.Url.Fields.{Url, host, port, userinfo, set_off, set_len, grow, mark}

-- `enum http_host_state`, without the prefix `s_http_`.
pub data HostState : Type 0 where
  host_dead : HostState
  userinfo_start : HostState
  in_userinfo : HostState
  host_start : HostState
  host_v6_start : HostState
  in_host : HostState
  host_v6 : HostState
  host_v6_end : HostState
  host_v6_zone_start : HostState
  host_v6_zone : HostState
  host_port_start : HostState
  host_port : HostState

abbrev pub userinfo_char : ℕ → HostState
userinfo_char c =
    if c == b'@' then host_start else if is_userinfo_char c then in_userinfo else host_dead

abbrev pub zone_char : ℕ → HostState
zone_char c =
    if is_alphanum c || c == b'%' || c == 0x2e || c == 0x2d || c == 0x5f || c == 0x7e
    then host_v6_zone
    else host_dead

abbrev pub port_char : ℕ → HostState
port_char c = if is_num c then host_port else host_dead

abbrev pub v6_char : ℕ → Bool
v6_char c = is_hex c || c == 0x3a || c == 0x2e

unfoldable pub parse_host_char : HostState → ℕ → HostState
parse_host_char in_userinfo c = userinfo_char c
parse_host_char userinfo_start c = userinfo_char c
parse_host_char host_start c =
    if c == b'[' then host_v6_start else if is_host_char c then in_host else host_dead
parse_host_char in_host c =
    if is_host_char c then in_host else if c == 0x3a then host_port_start else host_dead
parse_host_char host_v6_end c = if c == 0x3a then host_port_start else host_dead
parse_host_char host_v6 c =
    if c == b']'
    then host_v6_end
    else if v6_char c
    then host_v6
    else if c == b'%'
    then host_v6_zone_start
    else host_dead
parse_host_char host_v6_start c = if v6_char c then host_v6 else host_dead
parse_host_char host_v6_zone c = if c == b']' then host_v6_end else zone_char c
parse_host_char host_v6_zone_start c = zone_char c
parse_host_char host_port c = port_char c
parse_host_char host_port_start c = port_char c
parse_host_char host_dead c = host_dead

abbrev pub is_in_host : HostState → Bool
is_in_host in_host = true
is_in_host _ = false

abbrev pub is_host_v6 : HostState → Bool
is_host_v6 host_v6 = true
is_host_v6 _ = false

abbrev pub is_host_port : HostState → Bool
is_host_port host_port = true
is_host_port _ = false

abbrev pub is_in_userinfo : HostState → Bool
is_in_userinfo in_userinfo = true
is_in_userinfo _ = false

-- The `switch` of the loop, from the state `s` to the state `new` at the offset `p`.
unfoldable pub host_step : (s new : HostState) → ℕ → Url → Url
host_step s in_host p u = grow host (if is_in_host s then u else set_off host p u)
host_step s host_v6 p u = grow host (if is_host_v6 s then u else set_off host p u)
host_step s host_v6_zone_start p u = grow host u
host_step s host_v6_zone p u = grow host u
host_step s host_port p u =
    grow port (if is_host_port s then u else mark port (set_len port 0 (set_off port p u)))
host_step s in_userinfo p u =
    grow userinfo
      (if is_in_userinfo s then u else mark userinfo (set_len userinfo 0 (set_off userinfo p u)))
host_step s _ p u = u

abbrev pub is_host_dead : HostState → Bool
is_host_dead host_dead = true
is_host_dead _ = false

-- The loop, over the bytes that are left, of which the first has the offset `p`.
unfoldable pub host_loop : HostState → ℕ → Bytes → Url → Option (HostState × Url)
host_loop s p [] u = some (s, u)
host_loop s p (c ∷ rest) u =
    let new = parse_host_char s c in
    let next = host_loop new (p + 1) rest (host_step s new p u) in
    if is_host_dead new then none else next

-- The `switch` behind the loop: the states in which a host may end.
abbrev pub may_end : HostState → Bool
may_end host_start = false
may_end host_v6_start = false
may_end host_v6 = false
may_end host_v6_zone_start = false
may_end host_v6_zone = false
may_end host_port_start = false
may_end in_userinfo = false
may_end userinfo_start = false
may_end _ = true

abbrev pub host_end : Option (HostState × Url) → Option Url
host_end none = none
host_end (some (s, u)) = if may_end s then some u else none

-- `http_parse_host`; `none` stands for the result 1.
unfoldable pub parse_host : Bytes → Url → (found_at : Bool) → Option Url
unfolding host_loop
parse_host buf u found_at = host_end (
    host_loop (if found_at then userinfo_start else host_start) (u.off host)
      (take (u.len host) (drop (u.off host) buf)) (set_len host 0 u))
