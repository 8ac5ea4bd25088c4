-- ===== src/Http/Method.antt =====
-- `enum http_method` of http_parser.h, `method_strings` of http_parser.c, and the state
-- `s_req_method` of `http_parser_execute`, which reads a method.
pub mod Names
use jia_tuan_server.Common.{
  ℕ, zero, suc, ◌+◌, Bool, true, false, ◌&&◌, ◌||◌, Option, none, some, List, [], ◌∷◌, ◌==◌,
  if◌then◌else◌, Bytes, codes,
}
use jia_tuan_server.Http.Chars.{entry}

abbrev pub http_delete : ℕ
http_delete = 0

abbrev pub http_get : ℕ
http_get = 1

abbrev pub http_head : ℕ
http_head = 2

abbrev pub http_post : ℕ
http_post = 3

abbrev pub http_put : ℕ
http_put = 4

abbrev pub http_connect : ℕ
http_connect = 5

abbrev pub http_options : ℕ
http_options = 6

abbrev pub http_trace : ℕ
http_trace = 7

abbrev pub http_copy : ℕ
http_copy = 8

abbrev pub http_lock : ℕ
http_lock = 9

abbrev pub http_mkcol : ℕ
http_mkcol = 10

abbrev pub http_move : ℕ
http_move = 11

abbrev pub http_propfind : ℕ
http_propfind = 12

abbrev pub http_proppatch : ℕ
http_proppatch = 13

abbrev pub http_search : ℕ
http_search = 14

abbrev pub http_unlock : ℕ
http_unlock = 15

abbrev pub http_bind : ℕ
http_bind = 16

abbrev pub http_rebind : ℕ
http_rebind = 17

abbrev pub http_unbind : ℕ
http_unbind = 18

abbrev pub http_acl : ℕ
http_acl = 19

abbrev pub http_report : ℕ
http_report = 20

abbrev pub http_mkactivity : ℕ
http_mkactivity = 21

abbrev pub http_checkout : ℕ
http_checkout = 22

abbrev pub http_merge : ℕ
http_merge = 23

abbrev pub http_msearch : ℕ
http_msearch = 24

abbrev pub http_notify : ℕ
http_notify = 25

abbrev pub http_subscribe : ℕ
http_subscribe = 26

abbrev pub http_unsubscribe : ℕ
http_unsubscribe = 27

abbrev pub http_patch : ℕ
http_patch = 28

abbrev pub http_purge : ℕ
http_purge = 29

abbrev pub http_mkcalendar : ℕ
http_mkcalendar = 30

unfoldable pub method_strings : List Bytes
method_strings =
    codes "DELETE"
    ∷ codes "GET"
    ∷ codes "HEAD"
    ∷ codes "POST"
    ∷ codes "PUT"
    ∷ codes "CONNECT"
    ∷ codes "OPTIONS"
    ∷ codes "TRACE"
    ∷ codes "COPY"
    ∷ codes "LOCK"
    ∷ codes "MKCOL"
    ∷ codes "MOVE"
    ∷ codes "PROPFIND"
    ∷ codes "PROPPATCH"
    ∷ codes "SEARCH"
    ∷ codes "UNLOCK"
    ∷ codes "BIND"
    ∷ codes "REBIND"
    ∷ codes "UNBIND"
    ∷ codes "ACL"
    ∷ codes "REPORT"
    ∷ codes "MKACTIVITY"
    ∷ codes "CHECKOUT"
    ∷ codes "MERGE"
    ∷ codes "M-SEARCH"
    ∷ codes "NOTIFY"
    ∷ codes "SUBSCRIBE"
    ∷ codes "UNSUBSCRIBE"
    ∷ codes "PATCH"
    ∷ codes "PURGE"
    ∷ codes "MKCALENDAR"
    ∷ []

abbrev pub string_at : List Bytes → ℕ → Bytes
string_at [] i = []
string_at (x ∷ xs) zero = x
string_at (x ∷ xs) (suc i) = string_at xs i

-- The text of a method.
unfoldable pub method_string : ℕ → Bytes
unfolding method_strings
method_string m = string_at method_strings m

-- The first character selects a method, or none.
unfoldable pub first_method : ℕ → Option ℕ
first_method ch =
    if ch == b'A'
    then some http_acl
    else if ch == b'B'
    then some http_bind
    else if ch == b'C'
    then some http_connect
    else if ch == b'D'
    then some http_delete
    else if ch == b'G'
    then some http_get
    else if ch == b'H'
    then some http_head
    else if ch == b'L'
    then some http_lock
    else if ch == b'M'
    then some http_mkcol
    else if ch == b'N'
    then some http_notify
    else if ch == b'O'
    then some http_options
    else if ch == b'P'
    then some http_post
    else if ch == b'R'
    then some http_report
    else if ch == b'S'
    then some http_subscribe
    else if ch == b'T'
    then some http_trace
    else if ch == b'U'
    then some http_unlock
    else none

-- The chain of tests for a character that the text of the method does not have at `index`: the
-- method to go on with.
unfoldable pub other_method : (method index ch : ℕ) → Option ℕ
other_method method index ch =
    if method == http_connect
    then (if index == 1 && ch == b'H'
        then some http_checkout
        else if index == 2 && ch == b'P'
        then some http_copy
        else none)
    else if method == http_mkcol
    then (if index == 1 && ch == b'O'
        then some http_move
        else if index == 1 && ch == b'E'
        then some http_merge
        else if index == 1 && ch == 0x2d
        then some http_msearch
        else if index == 2 && ch == b'A'
        then some http_mkactivity
        else if index == 3 && ch == b'A'
        then some http_mkcalendar
        else none)
    else if method == http_subscribe
    then (if index == 1 && ch == b'E' then some http_search else none)
    else if method == http_report
    then (if index == 2 && ch == b'B' then some http_rebind else none)
    else if index == 1 && method == http_post
    then (if ch == b'R'
        then some http_propfind
        else if ch == b'U'
        then some http_put
        else if ch == b'A'
        then some http_patch
        else none)
    else if index == 2
    then (if method == http_put
        then (if ch == b'R' then some http_purge else none)
        else if method == http_unlock
        then (if ch == b'S'
            then some http_unsubscribe
            else if ch == b'B'
            then some http_unbind
            else none)
        else none)
    else if index == 4 && method == http_propfind && ch == b'P'
    then some http_proppatch
    else none

-- What the state does at a character: an invalid one, the blank behind the method, or one more
-- character, with the method to go on with.
pub data MethodStep : Type 0 where
  invalid : MethodStep
  finished : MethodStep
  onward : (method : ℕ) → MethodStep

abbrev pub onward? : Option ℕ → MethodStep
onward? none = invalid
onward? (some m) = onward m

-- The text is read up to its terminator.
unfoldable pub method_char : (method index ch : ℕ) → MethodStep
unfolding method_string
method_char method index ch =
    if ch == 0
    then invalid
    else if ch == 0x20 && entry (method_string method) index == 0
    then finished
    else if ch == entry (method_string method) index
    then onward method
    else onward? (other_method method index ch)
