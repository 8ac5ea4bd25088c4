-- ===== src/Server/Main.antt =====
-- `runServer`, `killServer` and `sighandler` of src/server_threaded.c.
use jia_tuan_server.Common.{
  ℕ, Bool, not, Option, none, some, ◌∷◌, ◌++◌, List, [], Bytes, codes, ◌==◌, ◌>>=◌, if◌then◌else◌,
}
use jia_tuan_server.WorkQueue.Links.{Ptr, null}
use jia_tuan_server.Server.World.{socket, base, World, release}
use jia_tuan_server.Server.Accept.{setnonblock}

abbrev pub server_port : ℕ
server_port = 8090

abbrev pub connection_backlog : ℕ
connection_backlog = 8

abbrev pub num_threads : ℕ
num_threads = 8

-- What the system and the libraries answer to the calls of `runServer`, in their order.
pub record StartAnswers : Type 0 where
  pub current_at : Ptr  -- `event_init`; NULL: it ends the process
  pub socket_at : Option ℕ  -- `socket`; `none`: negative
  pub bound : Bool  -- `bind` to the port does not fail
  pub listening : Bool  -- `listen` does not fail
  pub getfl : Option ℕ
  pub setfl : ℕ → Bool
  pub base_at : Ptr  -- `event_base_new`
  pub started : ℕ → Bool  -- `workqueue_init` with that many threads returns 0

-- The calls whose results `runServer` does not look at.
pub data StartCall : Type 0 where
  handle : (signal : ℕ) → StartCall  -- `sigaction` with `sighandler`
  reuse_address : (fd : ℕ) → StartCall  -- `setsockopt`
  watch : (fd : ℕ) (evbase : Ptr) → StartCall  -- `event_set`, `event_base_set`, `event_add`
  run_loop : (evbase : Ptr) → StartCall  -- `event_base_dispatch`
  stop_workers : StartCall  -- `workqueue_shutdown`

-- How `runServer` ends: `err` ends the process with its status.
pub data Ending : Type 0 where
  returned : (code : ℕ) → World → List StartCall → Ending
  died : (code : ℕ) → Ending

-- SIGINT and SIGTERM, and then the listening socket.
abbrev pub first_calls : ℕ → List StartCall
first_calls fd = handle 2 ∷ handle 15 ∷ reuse_address fd ∷ []

-- The part behind `event_base_new`: a failure of the work queue, or the event loop up to its end.
unfoldable pub run_queue : StartAnswers → ℕ → Ptr → World → Option Ending
run_queue a fd evbase w =
    if a.started num_threads
    then (release (base evbase) w >>= λ w1. release (socket fd) w1 >>= λ w2.
        some (returned 0 w2 (first_calls fd ++ watch fd evbase ∷ run_loop evbase ∷ [])))
    else (release (socket fd) w >>= λ w1.
        some (returned 1 w1 (first_calls fd ++ stop_workers ∷ [])))

-- From `bind` on, with the descriptor open.
unfoldable pub run_socket : StartAnswers → ℕ → World → Option Ending
run_socket a fd w =
    if not a.bound
    then some (died 1)
    else if not a.listening
    then some (died 1)
    else if not (setnonblock a.getfl a.setfl)
    then some (died 1)
    else if a.base_at == null
    then (release (socket fd) w >>= λ w1. some (returned 1 w1 (first_calls fd)))
    else run_queue a fd a.base_at (base a.base_at ∷ w)

unfoldable pub run_server_with : StartAnswers → Option ℕ → World → Option Ending
run_server_with a none w = some (died 1)
run_server_with a (some fd) w = run_socket a fd (socket fd ∷ w)

-- `runServer`; `none` as the result is the fault of a double release.
unfoldable pub run_server : StartAnswers → World → Option Ending
run_server a w =
    if a.current_at == null
    then some (died 1)
    else run_server_with a a.socket_at (base a.current_at ∷ w)

-- What `killServer` does, in its order.
pub data Action : Type 0 where
  printed : (line : Bytes) → Action  -- to the standard output
  reported : (line : Bytes) → Action  -- `perror`
  loop_exit : Action  -- `event_base_loopexit` of `evbase_accept`
  shut_down : Action  -- `workqueue_shutdown`

-- `loopexit_fails`: `event_base_loopexit` returns non-zero.
unfoldable pub kill_server : (loopexit_fails : Bool) → List Action
kill_server loopexit_fails =
    printed (codes "Stopping socket listener event loop.\n")
      ∷ loop_exit
      ∷ (if loopexit_fails then reported (codes "Error shutting down server") ∷ [] else [])
    ++ printed (codes "Stopping workers.\n") ∷ shut_down ∷ []

-- `signal` is the number as a text, and `name` what `strsignal` returns for it.
unfoldable pub sighandler : (signal name : Bytes) → (loopexit_fails : Bool) → List Action
unfolding kill_server
sighandler signal name loopexit_fails =
    printed (
      codes "Received signal " ++ (signal ++ (codes ": " ++ (name ++ codes ".  Shutting down.\n"))))
    ∷ kill_server loopexit_fails
