-- ===== src/Http/Url/Checks.antt =====
-- `http_parser_parse_url` of http_parser.c: what the tests behind its loop keep.
use jia_tuan_server.Common.{
  ℕ, ◌≤◌, ◌≡◌, ◌⊎◌, refl, sym, ◌∙◌, ap, subst, Bool, true, false, ◌&&◌, not, Option, none, some,
  arith, ltb, Bytes, drop, Bool-cases, some_injective, none-ne-some, inl, inr, ◌>>=◌,
}
use jia_tuan_server.Http.Url.Fields.{schema, host, port, Url}
use jia_tuan_server.Http.Url.Host.{parse_host}
use jia_tuan_server.Http.Url.Parse.{
  Scan, check_host, convert_port, check_fields, strtoul, is_host_and_port,
}
use jia_tuan_server.Http.Url.Bounds.{Within}
use jia_tuan_server.Http.Url.Safety.{parse_host-Within, parse_host_is_set}

convert_port-bounds :
    (memory : Bytes) (u u' : Url)
    → convert_port memory u ≡ some u'
    → (u'.port_number ≤ 0xffff) × (u' ≡ record u { port_number = u'.port_number })
unfolding convert_port
convert_port-bounds memory u u' h =
    elim (Bool-cases (ltb 0xffff (strtoul (drop (u.off port) memory)))) [
      | inl e ↦ absurd (none-ne-some (rw e at h))
      | inr e ↦
          let eq = some_injective (rw e at h) in
          subst (λ v. (v.port_number ≤ 0xffff) × (v ≡ record u { port_number = v.port_number })) eq
            (ground arith, refl)
    ]

pub bind_some {ℓ ℓ'} :
    {A : Type ℓ} {B : Type ℓ'} (o : Option A) (f : A → Option B) (b : B)
    → (o >>= f) ≡ some b
    → (a : A) × (o ≡ some a) × (f a ≡ some b)
bind_some none f b h = absurd (none-ne-some h)
bind_some (some a) f b h = (a, refl, h)

check_host_cases :
    (buf : Bytes) (v : Scan) (u : Url)
    → check_host buf v ≡ some u
    → ((v.url.is_set host ≡ true) × (parse_host buf v.url v.found_at ≡ some u))
      ⊎ ((v.url.is_set schema ≡ false) × (v.url ≡ u))
unfolding check_host
check_host_cases buf v u h = elim (Bool-cases (v.url.is_set host)) [
  | inl e ↦ elim (Bool-cases (v.url.is_set schema)) [
    | inl k ↦ inl (e, rw (e, k) at h)
    | inr k ↦ inl (e, rw (e, k) at h)
  ]
  | inr e ↦ elim (Bool-cases (v.url.is_set schema)) [
    | inl k ↦ absurd (none-ne-some (rw (e, k) at h))
    | inr k ↦ inr (k, some_injective (rw (e, k) at h))
  ]
]

pub check_host-Within :
    (n : ℕ) (buf : Bytes) (v : Scan) (u : Url)
    → Within n v.url
    → check_host buf v ≡ some u
    → Within n u
check_host-Within n buf v u w h = elim (check_host_cases buf v u h) [
  | inl (e, parsed) ↦ parse_host-Within n buf v.url u v.found_at w (w host e) parsed
  | inr (e, eq) ↦ subst (Within n) eq w
]

pub check_host_is_set :
    (buf : Bytes) (v : Scan) (u : Url)
    → check_host buf v ≡ some u
    → u.is_set schema ≡ true
    → u.is_set host ≡ true
check_host_is_set buf v u h is = elim (check_host_cases buf v u h) [
  | inl (e, parsed) ↦ parse_host_is_set buf v.url u v.found_at host refl refl parsed ∙ e
  | inr (e, eq) ↦
      let not_set : u.is_set schema ≡ false = sym (ap (λ k. k.is_set schema) eq) ∙ e in
      absurd (ground arith)
]

-- Behind the host only the number of the port is set.
pub check_fields_cases :
    (memory : Bytes) (is_connect : Bool) (u u' : Url)
    → check_fields memory is_connect u ≡ some u'
    → (u' ≡ record u { port_number = u'.port_number })
      × (is_connect ≡ true → is_host_and_port u.is_set ≡ true)
      × (u.is_set port ≡ true → u'.port_number ≤ 0xffff)
unfolding check_fields
check_fields_cases memory is_connect u u' h =
    elim (Bool-cases (is_connect && not (is_host_and_port u.is_set))) [
      | inl e ↦ absurd (none-ne-some (rw e at h))
      | inr e ↦ elim (Bool-cases (u.is_set port)) [
        | inl k ↦
            let (small, eq) = convert_port-bounds memory u u' (rw (e, k) at h) in
            (eq, λ c. ground arith, λ j. small)
        | inr k ↦
            let eq : u ≡ u' = some_injective (rw (e, k) at h) in
            (
              subst (λ v. v ≡ record u { port_number = v.port_number }) eq refl,
              λ c. ground arith,
              λ j. absurd (ground arith),
            )
      ]
    ]
