-- ===== src/Database.antt =====
-- src/dbmanager.cpp and src/dbmanager.h. The client library of MySQL is the parameter `Mysql`.
pub mod Laws
use jia_tuan_server.Common.{
  ℕ, zero, suc, Bool, true, false, not, Option, none, some, List, [], ◌∷◌, ◌++◌, ◌==◌,
  if◌then◌else◌, Bytes, codes,
}

-- A connection in some state of the server, as the library shows it.
pub record Mysql : Type 1 where
  pub State : Type 0
  pub init : State → Bool  -- `mysql_init` returns a handle
  pub real_connect : (host user pwd db_name : Bytes) → State → Option State
  pub query : Bytes → State → Bool × State  -- true: `mysql_query` returns non-zero
  pub field_count : State → ℕ  -- `mysql_field_count`
  -- `mysql_use_result`, with the rows that `mysql_fetch_row` will give; `none` stands for NULL, as a
  -- result and as a cell.
  pub use_result : State → Option (List (List (Option Bytes)))
  pub close : State → State  -- `mysql_close`

-- `exited` stands for a call of `exit`.
pub data Outcome (A : Type 0) : Type 0 where
  returned : A → Outcome A
  exited : (code : ℕ) → Outcome A

-- How `executeSQL` ends. `faulted` is the access through a NULL result.
pub data Execution (A : Type 0) : Type 0 where
  executed : A → Execution A
  ended : (code : ℕ) → Execution A
  faulted : Execution A

-- `cout`: what it was given while it was good.
pub record Cout : Type 0 where
  pub good : Bool
  pub text : Bytes

-- `cout <<` of a text; NULL sets the bad bit.
abbrev pub put : Option Bytes → Cout → Cout
put none out = record out { good = false }
put (some t) out = if out.good then record out { text = out.text ++ t } else out

-- The inner loop over the cells of a row, and `endl`.
unfoldable pub print_row : List (Option Bytes) → Cout → Cout
print_row [] out = put (some (codes "\n")) out
print_row (cell ∷ cells) out = print_row cells (put (some (codes " ")) (put cell out))

-- The loop over the rows, with `left` rounds to go.
unfoldable pub fetch_loop : (left : ℕ) → List (List (Option Bytes)) → Cout → Cout
unfolding print_row
fetch_loop zero rows out = out
fetch_loop (suc left) [] out = out
fetch_loop (suc left) (row ∷ rows) out = fetch_loop left rows (print_row row out)

unfoldable pub register_sql : (user_login user_pass : Bytes) → Bytes
register_sql user_login user_pass =
    codes "insert into jt_users (user_login,user_pass,user_registered) values ("
    ++ (user_login ++ (codes "," ++ (user_pass ++ codes ",now())")))

unfoldable pub login_sql : (user_login user_pass : Bytes) → Bytes
login_sql user_login user_pass =
    codes "select * from jt_users where user_login = "
    ++ (user_login ++ (codes " and user_pass = " ++ user_pass))

module _ (m : Mysql) where
  open m use {State, init, real_connect, query, field_count, use_result, close}

  -- The constructor, and then `initDB`.
  unfoldable pub init_db : (host user pwd db_name : Bytes) → State → Outcome State
  init_db host user pwd db_name s =
      if init s
      then elim (real_connect host user pwd db_name s) [ none ↦ exited 1 | some s' ↦ returned s' ]
      else exited 1

  -- The branch of `executeSQL` behind an accepted query. With no round of the loop a NULL result is
  -- only given to `mysql_free_result`, which allows it.
  unfoldable pub print_result :
      (fields : ℕ) → Option (List (List (Option Bytes))) → Cout → State → Execution (Cout × State)
  unfolding fetch_loop
  print_result zero none out s = executed (out, s)
  print_result (suc left) none out s = faulted
  print_result fields (some rows) out s = executed (fetch_loop fields rows out, s)

  -- `executeSQL`, without the printing of an error.
  unfoldable pub execute_sql : Bytes → Cout → State → Execution (Cout × State)
  unfolding print_result
  execute_sql sql out s =
      let (failed, s') = query sql s in
      if failed then ended 1 else print_result (field_count s') (use_result s') out s'

  unfoldable pub user_register_func : (user_login user_pass : Bytes) → State → Bool × State
  user_register_func user_login user_pass s =
      let (failed, s') = query (register_sql user_login user_pass) s in (not failed, s')

  unfoldable pub user_login_func : (user_login user_pass : Bytes) → State → Bool × State
  user_login_func user_login user_pass s =
      let (failed, s') = query (login_sql user_login user_pass) s in
      if failed then (false, s') else if field_count s' == 0 then (false, s') else (true, s')

  -- The destructor, of a connection that `initDB` has made.
  unfoldable pub close_db : State → State
  close_db s = close s
