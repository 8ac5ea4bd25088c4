-- ===== src/Server/Request.antt =====
-- `buffered_on_read` of src/server_threaded.c. The library jsoncpp is the parameter `Json`, the
-- client library of MySQL the parameter `Mysql`.
use jia_tuan_server.Common.{
  ℕ, zero, suc, ◌-◌, Bool, Option, none, some, List, [], ◌∷◌, ◌++◌, leb, if◌then◌else◌, Bytes,
  codes, same_bytes, ℤ, pos, negsuc, length, replicate,
}
use jia_tuan_server.Database.{
  Mysql, Outcome, returned, exited, init_db, user_register_func, user_login_func, close_db,
}
use jia_tuan_server.Server.World.{World}
use jia_tuan_server.Server.Client.{Client, close_client}

abbrev pub buf_max_size : ℕ
buf_max_size = 4096

-- A member of the reply. A reply with no member is the value null.
pub data Item : Type 0 where
  int : ℤ → Item
  text : Bytes → Item

abbrev pub Reply : Type 0
Reply = List (Bytes × Item)

-- What is used of jsoncpp. `none` is the failure of one of its assertions, which aborts.
pub record Json : Type 1 where
  pub Value : Type 0
  pub parse : Bytes → Option Value  -- `reader.parse`; `none`: it returns false
  pub member : Value → Bytes → Option Value  -- `value["…"]`
  pub is_null : Value → Bool
  pub as_string : Value → Option Bytes
  pub write : Reply → Bytes  -- `FastWriter::write`

-- Why a callback does not return.
pub data Stop : Type 0 where
  overflow : Stop  -- a write behind the end of `data`
  unterminated : Stop  -- a read behind the end of `data`
  aborted : Stop  -- an assertion of jsoncpp
  exit : (code : ℕ) → Stop
  double_release : Stop

pub data Run (A : Type 0) : Type 0 where
  done : A → Run A
  stopped : Stop → Run A

infixl 5 ◌>>=◌
abbrev pub ◌>>=◌ : {A B : Type 0} → Run A → (A → Run B) → Run B
done a >>= f = f a
stopped e >>= f = stopped e

unfoldable pub or_stop : {A : Type 0} → Stop → Option A → Run A
or_stop e none = stopped e
or_stop e (some a) = done a

unfoldable pub or_exit : {A : Type 0} → Outcome A → Run A
or_exit (returned a) = done a
or_exit (exited code) = stopped (exit code)

-- The string that starts at the head of an array; `none` if the array has no terminator.
unfoldable pub c_string : Bytes → Option Bytes
c_string [] = none
c_string (zero ∷ rest) = some []
c_string (suc c ∷ rest) = elim (c_string rest) [ none ↦ none | some s ↦ some (suc c ∷ s) ]

-- The input in the zeroed array `data`, as a string.
unfoldable pub received : Bytes → Run Bytes
received input =
    if leb (length input) buf_max_size
    then or_stop unterminated (c_string (input ++ replicate (buf_max_size - length input) 0))
    else stopped overflow

abbrev pub success : Reply
success = (codes "error_code", int (pos 0)) ∷ []

abbrev pub failure : ℤ → Bytes → Reply
failure code desc = (codes "error_code", int code) ∷ (codes "error_desc", text desc) ∷ []

abbrev pub register_failure : Reply
register_failure = failure (negsuc 110) (codes "register failed,maybe user_login duplicate.")

abbrev pub login_failure : Reply
login_failure = failure (negsuc 120) (codes "login failed,maybe the account or password mistake.")

abbrev pub parse_failure : Reply
parse_failure = failure (negsuc 10) (codes "Error:json data parse.")

module _ (j : Json) (m : Mysql) where
  open j use {Value, parse, member, is_null, as_string, write}
  open m use {State}

  -- `value[name].asString()`
  unfoldable pub string_member : Value → Bytes → Run Bytes
  string_member v name = do
    field ← or_stop aborted (member v name)
    or_stop aborted (as_string field)

  -- The branch of "register".
  unfoldable pub serve_register : Value → State → Run (Reply × State)
  serve_register v s = do
    phone ← string_member v (codes "PhoneNO")
    pwd ← string_member v (codes "Pwd")
    let answer = user_register_func m phone pwd s
    done (if answer.0 then success else register_failure, answer.1)

  -- The branch of "login".
  unfoldable pub serve_login : Value → State → Run (Reply × State)
  serve_login v s = do
    login ← string_member v (codes "User_login")
    pass ← string_member v (codes "User_pass")
    let answer = user_login_func m login pass s
    done (if answer.0 then success else login_failure, answer.1)

  -- The chain of tests on the function's name, with the connection open.
  unfoldable pub serve_named : Bytes → Value → State → Run (Reply × State)
  serve_named name v s =
      if same_bytes (codes "register") name
      then serve_register v s
      else if same_bytes (codes "login") name
      then serve_login v s
      else done ([], s)

  -- The body of the first `if`, up to the end of the life of `MyDB`.
  unfoldable pub serve : Value → Value → State → Run (Reply × State)
  serve v function s = do
    s' ←
        or_exit
          (init_db m (codes "localhost") (codes "root") (codes "123456") (codes "JiaTuanSql") s)
    name ← or_stop aborted (as_string function)
    (reply, s'') ← serve_named name v s'
    done (reply, close_db m s'')

  -- The reply to a parsed request.
  unfoldable pub reply_parsed : Value → State → Run (Reply × State)
  reply_parsed v s = do
    function ← or_stop aborted (member v (codes "FunctionName"))
    if is_null function then done (parse_failure, s) else serve v function s

  -- The reply to a text.
  unfoldable pub reply_to : Bytes → State → Run (Reply × State)
  reply_to sdata s = elim (parse sdata) [
    | none ↦ done (parse_failure, s)
    | some v ↦ reply_parsed v s
  ]

  -- What a call of `buffered_on_read` leaves behind, and what it sends.
  pub record AfterRead : Type 0 where
    pub client : Client
    pub world : World
    pub state : State
    pub sent : Bytes

  -- `write_fails`: `bufferevent_write_buffer` returns non-zero.
  unfoldable pub buffered_on_read :
      (write_fails : Bool) → Bytes → Client → World → State → Run AfterRead
  buffered_on_read write_fails input c w s = do
    sdata ← received input
    (reply, s') ← reply_to sdata s
    (c', w') ← or_stop double_release (if write_fails then close_client c w else some (c, w))
    done (record { client = c'; world = w'; state = s'; sent = write reply })
