-- ===== src/Http/Execute/Pause.antt =====
-- `http_parser_pause` of http_parser.c beside `http_parser_execute`.
use jia_tuan_server.Common.{◌≡◌, refl, sym, ap, true, false, some, [], ◌∷◌, Bytes}
use jia_tuan_server.Http.Parser.{HttpParser, HttpErrno, hpe_ok, hpe_paused, http_parser_pause}
use jia_tuan_server.Http.Execute.Macros.{Settings, is_ok}
use jia_tuan_server.Http.Execute.{returned, http_parser_execute}

-- A parser with an error does not read.
execute_held :
    (st : Settings) (r : HttpParser) (u : st.User) (buf : Bytes)
    → is_ok r.http_errno ≡ false
    → http_parser_execute st r u buf ≡ returned 0 r u
unfolding http_parser_execute
execute_held st r u [] e = rw e refl
execute_held st r u (ch ∷ rest) e = rw e refl

abbrev paused : HttpParser → HttpParser
paused p = record p { http_errno = hpe_paused }

pause_on : (p : HttpParser) → p.http_errno ≡ hpe_ok → http_parser_pause p true ≡ some (paused p)
unfolding http_parser_pause
pause_on p ok = rw ok refl

pause_off : (p : HttpParser) → p.http_errno ≡ hpe_ok → http_parser_pause (paused p) false ≡ some p
unfolding http_parser_pause
pause_off p ok = ap (λ (e : HttpErrno). some (record p { http_errno = e })) (sym ok)

-- A parser with no error that is paused gives back every input unread: http_parser_execute parses 0
-- bytes, calls nothing back and leaves the parser and the user's state. When the pause is ended, the
-- parser is again what it was before the pause.
pub pause_holds :
    (st : Settings) (p : HttpParser) (u : st.User) (buf : Bytes)
    → p.http_errno ≡ hpe_ok
    → (q : HttpParser) × (http_parser_pause p true ≡ some q)
      × (http_parser_execute st q u buf ≡ returned 0 q u)
      × (http_parser_pause q false ≡ some p)
pause_holds st p u buf ok =
    (paused p, pause_on p ok, execute_held st (paused p) u buf refl, pause_off p ok)
