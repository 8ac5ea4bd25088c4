-- ===== src/Lib.antt =====
-- Verification of JiaTuanServer, a server that takes requests in JSON over TCP, and of the HTTP
-- parser beside it.
--
-- The parts and their files:
-- - src/workqueue.c, src/workqueue.h: WorkQueue. A pool of threads that take jobs from a linked
--   list. WorkQueue.Links has LL_ADD (`ll_add`) and LL_REMOVE (`ll_remove`) on a store of nodes.
--   WorkQueue.Machine has the program points of `worker_function` (`worker_at`) and of
--   `workqueue_init`, `workqueue_shutdown` and `workqueue_add_job` (`caller_at`), the step relation
--   `Step` of all threads together and its runs `Reach`, which keep their events. WorkQueue.Stack
--   has the stack that the events describe, WorkQueue.Invariant what holds between the steps,
--   WorkQueue.Flags follows the walk of `workqueue_shutdown`, WorkQueue.Leaving, Wakeup and Progress
--   the way of the workers to a job that waits.
-- - src/server_threaded.c, src/server_threaded.h: Server. Server.Accept has `on_accept`, which
--   builds a client and queues its job; Server.Connection has `server_job_function` with the
--   callbacks that libevent makes for the client; Server.Request has `buffered_on_read`,
--   Server.Client `closeClient` and `closeAndFreeClient`, Server.Main `runServer`,
--   `killServer` and the handler of signals. Server.World is the list of
--   the live resources: a release of a resource that is not live is a fault.
-- - src/dbmanager.cpp, src/dbmanager.h: Database. `buffered_on_read` opens one connection for each
--   request that names a function.
-- - http_parser.c, http_parser.h: Http. Http.Chars has the character classes, Http.State the states
--   of the parser, Http.Url `parse_url_char`, `http_parse_host` and `http_parser_parse_url`,
--   Http.Parser the parser's record with `http_parser_init`, `http_parser_pause`,
--   `http_should_keep_alive`, `http_message_needs_eof` and `http_body_is_final`. Http.Tokens has the
--   tables `tokens` and `unhex`, Http.Method the methods and their names, Http.Text the
--   texts for methods and errors. Http.Execute has `http_parser_execute`: the `switch`
--   (`dispatch`), REEXECUTE, the loop and the whole call. Its macros are in Http.Execute.Macros,
--   and the cases of the `switch` in the modules Start, Version, Line, Field, Value, Headers and
--   Body below Http.Execute, one function for each, `at_` and the name of its state. About it are
--   Http.Execute.Bounds (how far a call reads), Sound and Progress (how the cases and the calls
--   end), Assertions (what each case keeps of the members and of the marks), Reach (the parsers
--   that init, execute and pause lead to), Identity (a body, a chunk and its size over several
--   calls), Field.Names (the names of headers) and Value.Length (the length of a body).
-- - public_function.cpp: PublicFunction. PublicFunction.Bcd has `AsciiStrToBcd`, PublicFunction.Crc
--   `GenerateCRC32`, which changes its buffer, the check byte of `get_bcc_data` and `DecTo2Hex`,
--   PublicFunction.Bcc what that check byte detects.
-- - Common: what these share.
--
-- How the code is read:
-- - An address is a natural number, and NULL is 0. `malloc` returns NULL or an address that no list
--   contains. A result that is negative or NULL on failure is an `Option` where its value counts.
-- - One thread calls the interface of the work queue, one call at a time, as the event loop of the
--   server does. A call from another thread, which the comment of `killServer` allows, or from the
--   signal handler inside another call is not modelled. A worker that is `gone` is freed: a walk
--   of `workqueue_shutdown` that touches it is `faulted`, and takes no further step. The condition
--   variable may wake a thread with no signal. A job's function is one step.
-- - What libevent and the system answer are arguments (`AcceptAnswers`, `StartAnswers`, `Callback`).
--   jsoncpp is the parameter `Json`, the client library of MySQL the parameter `Mysql`. No law is
--   assumed of either; a theorem that needs one has it among its hypotheses.
-- - The callbacks of `http_parser_settings` are the parameter `Settings`: each may change the parser
--   and a state of the user, and returns a number. An assertion that fails ends a call with
--   `aborted`. REEXECUTE recurs on fuel, 8 for each round of the loop: from a state it leads through
--   at most three others, unless a callback changes the state. The end of that fuel is `endless`.
--   `IsPassive` settings have callbacks that change only the error and the user pointer.
-- - A callback of libevent stops the process (`Stop`) where the code runs past an array, fails an
--   assertion or calls `exit`.
-- - A `char` is its byte, HTTP_PARSER_STRICT is 1, and a `uint16_t` wraps at 2 ^ 16. The loops of
--   the parser recur on the bytes that are left. Besides REEXECUTE only the loop of `AsciiStrToBcd`
--   runs on fuel: half the length and one more round are enough for up to 254 bytes, and none for
--   more.
-- - `strtoul` is written out for the base 10. `cout` prints nothing behind a NULL text.
-- - The text of `AsciiStrToBcd` is a function of the offset, which also gives what lies behind the
--   end of the text: a read there is not a fault of the model.
--
-- Not modelled: the mode of http_parser.c that is not strict; main.cpp, whose header is not in the
-- repository; client_test.cpp, a test program; the copies of libevent and jsoncpp; the logging, but
-- for that of `killServer`.
mod Common
pub mod WorkQueue
pub mod Database
pub mod Server
pub mod Http
pub mod PublicFunction
