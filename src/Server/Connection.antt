-- ===== src/Server/Connection.antt =====
-- One connection of src/server_threaded.c: the callbacks that libevent makes for it while
-- `server_job_function` runs its event loop, and the end of the job.
use jia_tuan_server.Common.{Bool, List, [], ◌∷◌, Bytes}
use jia_tuan_server.Database.{Mysql}
use jia_tuan_server.Server.World.{job, World, release}
use jia_tuan_server.Server.Client.{Client, close_client, close_and_free_client}
use jia_tuan_server.Server.Accept.{Queued}
use jia_tuan_server.Server.Request.{
  double_release, Run, done, ◌>>=◌, or_stop, Json, buffered_on_read,
}

-- A callback that libevent makes.
pub data Callback : Type 0 where
  on_read : (write_fails : Bool) → Bytes → Callback
  on_write : Callback
  on_error : Callback

module _ (j : Json) (m : Mysql) where
  open m use {State}

  -- `buffered_on_read`, `buffered_on_write` and `buffered_on_error`: the client, what is live, and
  -- the database after one of them.
  unfoldable pub callback : Callback → Client → World → State → Run (Client × World × State)
  callback (on_read write_fails input) c w s = do
    r ← buffered_on_read j m write_fails input c w s
    done (r.client, r.world, r.state)
  callback on_write c w s = done (c, w, s)
  callback on_error c w s = do
    (c', w') ← or_stop double_release (close_client c w)
    done (c', w', s)

  -- `event_base_dispatch`, which makes the given callbacks and returns.
  unfoldable pub dispatch : List Callback → Client → World → State → Run (Client × World × State)
  dispatch [] c w s = done (c, w, s)
  dispatch (e ∷ es) c w s = do (c', w', s') ← callback e c w s; dispatch es c' w' s'

  -- `server_job_function`.
  unfoldable pub server_job_function : List Callback → Queued → World → State → Run (World × State)
  server_job_function es q w s = do
    (c, w1, s') ← dispatch es q.user_data w s
    w2 ← or_stop double_release (close_and_free_client c w1)
    w3 ← or_stop double_release (release (job q.job_at) w2)
    done (w3, s')
