-- ===== src/Http/Execute/Identity/Examples.antt =====
-- Bodies, chunks and sizes of chunks, given to `http_parser_execute` of http_parser.c in pieces.
use jia_tuan_server.Common.{◌≤◌, ◌<◌, ◌≡◌, arith, refl, some, List, [], ◌∷◌, ◌++◌, Bytes, codes}
use jia_tuan_server.Http.Execute.{returned, http_parser_execute}
use jia_tuan_server.Http.Execute.Macros.{message_complete, chunk_complete, body}
use jia_tuan_server.Http.Execute.Identity.{waiting, behind_message}
use jia_tuan_server.Http.Execute.Assertions.Fit.{max_chunk}
use jia_tuan_server.Http.Execute.Identity.Digits.{hexadecimal}
use jia_tuan_server.Http.Execute.Identity.Sizes.{sizing, Refused, chunk_size_exact}
use jia_tuan_server.Http.Execute.Identity.Chunks.{in_chunk, behind_chunk, chunk_in_pieces}
use jia_tuan_server.Http.Execute.Identity.Pieces.{feed, body_in_pieces}
use jia_tuan_server.Http.Execute.Examples.{Call, notified, given, logging, request}

abbrev add_body : Bytes → List Call → List Call
add_body text u = u ++ given body text ∷ []

abbrev add_end : List Call → List Call
add_end u = u ++ notified message_complete ∷ []

body_in_pieces_example :
    feed logging (codes "ab" ∷ codes "c" ∷ []) (waiting request 3) []
    ≡ some (
      behind_message request,
      given body (codes "ab") ∷ given body (codes "c") ∷ notified message_complete ∷ [],
    )
body_in_pieces_example =
    body_in_pieces logging add_body add_end refl refl (codes "ab" ∷ codes "c" ∷ []) 3 request []
      (omega arith, omega arith, (omega arith, omega arith, omega arith)) (omega arith)
      (omega arith)

abbrev add_chunk : List Call → List Call
add_chunk u = u ++ notified chunk_complete ∷ []

chunk_in_pieces_example :
    feed logging (codes "ab" ∷ codes "c" ∷ codes "\r\n" ∷ []) (in_chunk request 3) []
    ≡ some (
      behind_chunk request,
      given body (codes "ab") ∷ given body (codes "c") ∷ notified chunk_complete ∷ [],
    )
chunk_in_pieces_example =
    chunk_in_pieces logging add_body add_chunk refl refl (codes "ab" ∷ codes "c" ∷ []) 3 request []
      (omega arith, omega arith, (omega arith, omega arith, omega arith)) (omega arith)
      (omega arith)

chunk_size_exact_example :
    (500 ≤ max_chunk
      → http_parser_execute logging (sizing request 1 1) [] (codes "f4")
        ≡ returned 2 (sizing request 500 3) [])
    × (max_chunk < 500
        → Refused logging
            (codes "f4")
            (http_parser_execute logging (sizing request 1 1) [] (codes "f4")))
unfolding hexadecimal
chunk_size_exact_example =
    chunk_size_exact logging (codes "f4") request 1 1 [] (omega arith)
      (omega arith, refl, (omega arith, refl, tt)) (omega arith) (omega arith)
