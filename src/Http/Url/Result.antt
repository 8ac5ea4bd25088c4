-- ===== src/Http/Url/Result.antt =====
-- `http_parser_parse_url` of http_parser.c: what a successful call promises of its result.
use jia_tuan_server.Common.{
  ℕ, ◌+◌, ◌≤◌, ◌≡◌, sym, subst, Bool, true, some, arith, Bytes, length, take,
}
use jia_tuan_server.Http.Url.Fields.{Field, schema, host, port, Url}
use jia_tuan_server.Http.Url.Parse.{first_scan, check_fields, parse_url, is_host_and_port}
use jia_tuan_server.Http.Url.Bounds.{Within, IsScan, scan_loop-IsScan}
use jia_tuan_server.Http.Url.Safety.{length-take_le}
use jia_tuan_server.Http.Url.Checks.{
  bind_some, check_host-Within, check_host_is_set, check_fields_cases,
}

first_scan-IsScan : (is_connect : Bool) (u : Url) → IsScan 0 (first_scan is_connect u)
first_scan-IsScan is_connect u = record { within = λ f is. cc; old_set = λ f is. cc }

module _ (memory : Bytes) (buflen : ℕ) (is_connect : Bool) (u u' : Url)
    (success : parse_url memory buflen is_connect u ≡ some u') where
  shorter : (w : Url) → Within (0 + length (take buflen memory)) w → Within buflen w
  shorter w fits f is = omega (arith, fits f is, length-take_le buflen memory)

  -- The result is that of the last tests on the fields that the host's parse leaves.
  checked :
      (w : Url) × Within buflen w
      × (w.is_set schema ≡ true → w.is_set host ≡ true)
      × (check_fields memory is_connect w ≡ some u')
  unfolding parse_url
  checked =
      let (v, scanned, rest) = bind_some _ _ u' success in
      let (w, hosted, tested) = bind_some _ _ u' rest in
      let inv : IsScan (0 + length (take buflen memory)) v =
        scan_loop-IsScan (take buflen memory) 0 _ v (first_scan-IsScan is_connect u) scanned in
      let within : Within buflen v.url = shorter v.url inv.within in
      (
        w,
        check_host-Within buflen memory v w within hosted,
        check_host_is_set memory v w hosted,
        tested,
      )

  -- After a successful call of `http_parser_parse_url` each field that is set ends within the
  -- `buflen` bytes of the URL.
  pub parse_url-Within : (f : Field) → u'.is_set f ≡ true → u'.off f + u'.len f ≤ buflen
  parse_url-Within =
      let (w, within, has_host, tested) = checked in
      let (eq, connect, small) = check_fields_cases memory is_connect w u' tested in
      subst (Within buflen) (sym eq) within

  -- After a successful call of `http_parser_parse_url` a URL with a schema has a host, a CONNECT
  -- request has a host and a port and no other field, and a port that is set has a number of 16
  -- bits.
  pub parse_url_fields :
      (u'.is_set schema ≡ true → u'.is_set host ≡ true)
      × (is_connect ≡ true → is_host_and_port u'.is_set ≡ true)
      × (u'.is_set port ≡ true → u'.port_number ≤ 0xffff)
  parse_url_fields =
      let (w, within, has_host, tested) = checked in
      let (eq, connect, small) = check_fields_cases memory is_connect w u' tested in
      subst
        (λ (v : Url).
          (v.is_set schema ≡ true → v.is_set host ≡ true)
          × (is_connect ≡ true → is_host_and_port v.is_set ≡ true)
          × (v.is_set port ≡ true → u'.port_number ≤ 0xffff))
        (sym eq) (has_host, connect, small)
