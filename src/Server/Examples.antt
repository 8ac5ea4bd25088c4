-- ===== src/Server/Examples.antt =====
-- Connections and requests of src/server_threaded.c, and the theorems at them, with a library that
-- takes every text for a request to log in, and a database that accepts every query.
use jia_tuan_server.Common.{
  ℕ, ◌<◌, ◌≡◌, ◌↔◌, none, refl, Bool, true, false, Option, some, List, [], ◌∷◌, ◌++◌, arith, has,
  Bytes, codes, same_bytes, length,
}
use jia_tuan_server.Database.{
  Cout, executed, close_db, Mysql, execute_sql, user_login_func, init_db,
}
use jia_tuan_server.Database.Laws.{separator, login_is_ambiguous, execute_sql_prints}
use jia_tuan_server.Server.World.{socket, client, buffer, base, bufev, job, World}
use jia_tuan_server.Server.Client.{Client}
use jia_tuan_server.Server.Accept.{
  AcceptAnswers, Queued, setnonblock, on_accept, accept_answer, accept_client, accept_buffer,
  accept_base, accept_bufev, accept_job, base_set, set_timeout, enable_read,
}
use jia_tuan_server.Server.Balance.{Balanced, on_accept-Balanced}
use jia_tuan_server.Server.Request.{
  Json, done, stopped, overflow, unterminated, received, reply_to, success, parse_failure,
  buffered_on_read, reply_parsed, serve, serve_named, serve_login, string_member, or_stop, or_exit,
}
use jia_tuan_server.Server.Reading.{until_zero, received_cases, read_ignores_tail}
use jia_tuan_server.Server.Connection.{on_read, on_error, server_job_function}
use jia_tuan_server.Server.Clean.{Ends}
use jia_tuan_server.Server.Release.{connection_releases_all}
use jia_tuan_server.Server.Replies.{Honest, reply_to-Honest}
use jia_tuan_server.Server.Rejections.{IsUnreadable, reply_to-IsUnreadable}
use jia_tuan_server.Server.Main.{
  Action, printed, reported, loop_exit, shut_down, kill_server, sighandler, StartAnswers,
  run_server, died,
}
use jia_tuan_server.Server.Main
use jia_tuan_server.Server.Main.{
  handle, reuse_address, stop_workers, run_queue, run_socket, run_server_with,
}
use jia_tuan_server.Server.World.{release}

abbrev toy_json : Json
toy_json = record {
  Value = Bytes;
  parse = λ t. some t;
  member = λ v name. some name;
  is_null = λ v. false;
  as_string = λ v. if_name (same_bytes v (codes "FunctionName")) v;
  write = λ r. [];
}
  where
    if_name : Bool → Bytes → Option Bytes
    if_name true v = some (codes "login")
    if_name false v = some v

abbrev toy_mysql : Mysql
toy_mysql = record {
  State = ℕ;
  init = λ s. true;
  real_connect = λ host user pwd db_name s. some s;
  query = λ sql s. (false, s);
  field_count = λ s. 2;
  close = λ s. s;
  use_result =
      λ s. some ((some (codes "a") ∷ none ∷ []) ∷ (some (codes "b") ∷ some (codes "c") ∷ []) ∷ []);
}

abbrev answers : AcceptAnswers
answers = record {
  accepted = some 7;
  getfl = some 2;
  setfl = λ flags. true;
  client_at = 100;
  buffer_at = 101;
  base_at = 102;
  bufev_at = 103;
  job_at = 104;
}

on_accept-Balanced_example : Balanced answers (socket 3 ∷ []) (on_accept answers (socket 3 ∷ []))
on_accept-Balanced_example = on_accept-Balanced answers (socket 3 ∷ [])

abbrev queued : Queued
queued = record {
  job_at = 104;
  user_data = record { self = 100; fd = some 7; evbase = 102; buf_ev = 103; output_buffer = 101 };
  setup = base_set 102 103 ∷ set_timeout 103 10 10 ∷ enable_read 103 ∷ [];
}

abbrev with_client : World
with_client = job 104 ∷ bufev 103 ∷ base 102 ∷ buffer 101 ∷ client 100 ∷ socket 7 ∷ socket 3 ∷ []

accepts : on_accept answers (socket 3 ∷ []) ≡ some (with_client, some queued)
unfolding on_accept accept_answer accept_client accept_buffer accept_base accept_bufev accept_job
    setnonblock
accepts = refl

connection_releases_all_example :
    Ends
      (λ (r : World × ℕ). r.0 ≡ socket 3 ∷ [])
      (server_job_function toy_json toy_mysql
        (on_read false (codes "hello") ∷ on_error ∷ on_error ∷ [])
        queued
        with_client
        0)
connection_releases_all_example =
    connection_releases_all toy_json toy_mysql answers (socket 3 ∷ []) with_client queued accepts
      (on_read false (codes "hello") ∷ on_error ∷ on_error ∷ []) 0

logs_in : reply_to toy_json toy_mysql (codes "hello") 0 ≡ done (success, 0)
unfolding reply_to reply_parsed serve serve_named serve_login string_member or_stop or_exit init_db
    user_login_func close_db
logs_in = refl

reply_to-Honest_example : Honest toy_json toy_mysql (codes "hello") 0 0
reply_to-Honest_example = reply_to-Honest toy_json toy_mysql (codes "hello") 0 0 logs_in

received_cases_example :
    (4096 < length (codes "hi") → received (codes "hi") ≡ stopped overflow)
    × (length (codes "hi") ≡ 4096
        → has 0 (codes "hi") ≡ false
        → received (codes "hi") ≡ stopped unterminated)
    × (length (codes "hi") ≡ 4096
        → has 0 (codes "hi") ≡ true
        → received (codes "hi") ≡ done (until_zero (codes "hi")))
    × (length (codes "hi") < 4096 → received (codes "hi") ≡ done (until_zero (codes "hi")))
received_cases_example = received_cases (codes "hi")

abbrev a_client : Client
a_client = record { self = 100; fd = some 7; evbase = 102; buf_ev = 103; output_buffer = 101 }

read_ignores_tail_example :
    buffered_on_read toy_json toy_mysql true
      (codes "hi" ++ 0 ∷ codes "x")
      a_client
      (socket 7 ∷ [])
      0
    ≡ buffered_on_read toy_json toy_mysql true (codes "hi") a_client (socket 7 ∷ []) 0
read_ignores_tail_example =
    read_ignores_tail toy_json toy_mysql true (codes "hi") (codes "x") a_client (socket 7 ∷ []) 0
      (omega arith)

login_is_ambiguous_example :
    user_login_func toy_mysql (codes "1" ++ (separator ++ codes "2")) (codes "3") 0
    ≡ user_login_func toy_mysql (codes "1") (codes "2" ++ (separator ++ codes "3")) 0
login_is_ambiguous_example = login_is_ambiguous toy_mysql (codes "1") (codes "2") (codes "3") 0

abbrev two_rows : List (List (Option Bytes))
two_rows = (some (codes "a") ∷ none ∷ []) ∷ (some (codes "b") ∷ some (codes "c") ∷ []) ∷ []

execute_sql_prints_example :
    (out : Cout) × (execute_sql toy_mysql (codes "q") (record { good = true; text = codes "x" }) 0
      ≡ executed (out, 0))
    × (out.text ≡ codes "xa ")
execute_sql_prints_example =
    execute_sql_prints toy_mysql (codes "q") (codes "x") 0 two_rows refl refl

abbrev starts : StartAnswers
starts = record {
  current_at = 40;
  socket_at = some 3;
  bound = true;
  listening = true;
  getfl = some 2;
  setfl = λ flags. true;
  base_at = 50;
  started = λ n. false;
}

-- The work queue does not start.
leaves_bases :
    run_server starts []
    ≡ some (
        Main.returned 1
          (base 50 ∷ base 40 ∷ [])
          (handle 2 ∷ handle 15 ∷ reuse_address 3 ∷ stop_workers ∷ []))
unfolding run_server run_server_with run_socket run_queue setnonblock release
leaves_bases = refl

-- A library for which no text is a request.
abbrev deaf_json : Json
deaf_json = record toy_json { parse = λ t. none }

reply_to-IsUnreadable_example :
    (reply_to deaf_json toy_mysql (codes "hello") 4 ≡ done (parse_failure, 4))
    ↔ (IsUnreadable deaf_json toy_mysql (codes "hello") × (◌≡◌ {A = ℕ} 4 4))
reply_to-IsUnreadable_example = reply_to-IsUnreadable deaf_json toy_mysql (codes "hello") 4 4

-- The actions of the handler of a signal.
handled :
    sighandler (codes "15") (codes "Terminated") true
    ≡ printed (codes "Received signal 15: Terminated.  Shutting down.\n")
      ∷ printed (codes "Stopping socket listener event loop.\n")
      ∷ loop_exit
      ∷ reported (codes "Error shutting down server")
      ∷ printed (codes "Stopping workers.\n")
      ∷ shut_down
      ∷ []
unfolding sighandler kill_server
handled = refl
