-- ===== src/WorkQueue/Progress.antt =====
-- The threads of src/workqueue.c together: a job that waits can be taken.
use jia_tuan_server.Common.{◌≡◌, ◌≢◌, some, List, [], ◌∷◌, update}
use jia_tuan_server.WorkQueue.Links.{Ptr, null, ll_remove}
use jia_tuan_server.WorkQueue.Machine.{loop, leaving, worker, Event, took, System, worker_at, Reach}

-- One step of some worker.
abbrev pub Works : System → Event → System → Type 0
Works s e t = (w : Ptr) × (worker_at (s.pc w) w s ≡ some (e, t))

-- Steps of the workers alone, with their events, the last one first.
pub data Runs (s : System) : List Event → System → Type 0 where
  still : Runs s [] s
  onward :
      {es : List Event} {t u : System} {e : Event} → Runs s es t → Works t e u → Runs s (e ∷ es) u

-- Some steps lead to the one that takes the job at the head of the list.
abbrev Takes : System → Type 0
Takes s = (es : List Event) × (t : System) × Runs s (took s.jobs.list ∷ es) t

-- The steps of a worker on the way to a job.
module _ (s : System) (w : Ptr) (some_job : s.jobs.list ≢ null) where
  taken : System
  taken = record s { jobs = ll_remove s.jobs.list s.jobs; pc = update s.pc w (leaving s.jobs.list) }

-- The worker takes the mutex.
abbrev locked : System → Ptr → System
locked s w = record s { mutex = worker w; pc = update s.pc w loop }
