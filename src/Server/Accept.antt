-- ===== src/Server/Accept.antt =====
-- `setnonblock` and `on_accept` of src/server_threaded.c.
use Prim.Native.Nat.{bit_or}
use jia_tuan_server.Common.{
  ℕ, Bool, false, Option, none, some, List, [], ◌∷◌, ◌==◌, ◌>>=◌, if◌then◌else◌,
}
use jia_tuan_server.WorkQueue.Links.{Ptr, null}
use jia_tuan_server.Server.World.{socket, client, buffer, base, bufev, job, World, release}
use jia_tuan_server.Server.Client.{Client, close_and_free_client}

-- O_NONBLOCK
abbrev pub nonblock : ℕ
nonblock = 0x800

abbrev pub read_timeout : ℕ
read_timeout = 10

abbrev pub write_timeout : ℕ
write_timeout = 10

-- What the system and libevent answer to the calls of `on_accept`, in their order. NULL, and
-- `none` for a negative number, is a failure.
pub record AcceptAnswers : Type 0 where
  pub accepted : Option ℕ  -- `accept`
  pub getfl : Option ℕ  -- `fcntl(fd, F_GETFL)`
  pub setfl : ℕ → Bool  -- `fcntl(fd, F_SETFL, flags)` succeeds
  pub client_at : Ptr  -- `malloc` of the client
  pub buffer_at : Ptr  -- `evbuffer_new`
  pub base_at : Ptr  -- `event_base_new`
  pub bufev_at : Ptr  -- `bufferevent_new`
  pub job_at : Ptr  -- `malloc` of the job

-- The calls that configure the bufferevent.
pub data Setup : Type 0 where
  base_set : (evbase buf_ev : Ptr) → Setup
  set_timeout : (buf_ev : Ptr) (read write : ℕ) → Setup
  enable_read : (buf_ev : Ptr) → Setup

-- What is handed to `workqueue_add_job`.
pub record Queued : Type 0 where
  pub job_at : Ptr
  pub user_data : Client
  pub setup : List Setup

-- `setnonblock`: true stands for the result 0, false for a negative one.
unfoldable pub setnonblock : Option ℕ → (ℕ → Bool) → Bool
setnonblock none setfl = false
setnonblock (some flags) setfl = setfl (bit_or flags nonblock)

abbrev pub Accepted : Type 0
Accepted = Option (World × Option Queued)

-- The way out of a failure with a client.
abbrev pub give_up : Client → World → Accepted
give_up c w = close_and_free_client c w >>= λ w'. some (w', none)

module _ (a : AcceptAnswers) where
  -- From the `malloc` of the job on.
  unfoldable pub accept_job : Client → World → Accepted
  accept_job c w =
      if a.job_at == null
      then give_up c w
      else some (
        job a.job_at ∷ w,
        some (record {
          job_at = a.job_at;
          user_data = c;
          setup =
              base_set c.evbase c.buf_ev
              ∷ set_timeout c.buf_ev read_timeout write_timeout
              ∷ enable_read c.buf_ev
              ∷ [];
        }),
      )

  unfoldable pub accept_bufev : Client → World → Accepted
  accept_bufev c w =
      if a.bufev_at == null
      then give_up c w
      else accept_job (record c { buf_ev = a.bufev_at }) (bufev a.bufev_at ∷ w)

  unfoldable pub accept_base : Client → World → Accepted
  accept_base c w =
      if a.base_at == null
      then give_up c w
      else accept_bufev (record c { evbase = a.base_at }) (base a.base_at ∷ w)

  unfoldable pub accept_buffer : Client → World → Accepted
  accept_buffer c w =
      if a.buffer_at == null
      then give_up c w
      else accept_base (record c { output_buffer = a.buffer_at }) (buffer a.buffer_at ∷ w)

  -- From `setnonblock` on, with the descriptor open.
  unfoldable pub accept_client : ℕ → World → Accepted
  accept_client fd w =
      if setnonblock a.getfl a.setfl
      then (if a.client_at == null
          then (release (socket fd) w >>= λ w'. some (w', none))
          else accept_buffer
              (record {
                self = a.client_at;
                fd = some fd;
                evbase = null;
                buf_ev = null;
                output_buffer = null;
              })
              (client a.client_at ∷ w))
      else (release (socket fd) w >>= λ w'. some (w', none))

  -- From the answer of `accept` on.
  unfoldable pub accept_answer : Option ℕ → World → Accepted
  accept_answer none w = some (w, none)
  accept_answer (some fd) w = accept_client fd (socket fd ∷ w)

  -- The whole handler.
  unfoldable pub on_accept : World → Accepted
  on_accept w = accept_answer a.accepted w
