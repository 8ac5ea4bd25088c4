-- ===== src/WorkQueue/Machine.antt =====
-- The threads of src/workqueue.c, one shared access at a time: the loop of `worker_function`, and
-- the thread that calls `workqueue_init`, `workqueue_add_job` and `workqueue_shutdown`. A worker is
-- named by the address of its `struct worker`. Accesses that the mutex orders are one step with
-- the access before them; the flag `terminate` is written without the mutex, so its write, and
-- each step of the walk that writes it, is a step of its own.
use jia_tuan_server.Common.{
  ℕ, zero, suc, ◌≡◌, ◌≢◌, ◌⊎◌, Bool, true, false, Option, none, some, List, [], ◌∷◌, ◌==◌, ltb,
  if◌then◌else◌, update,
}
use jia_tuan_server.WorkQueue.Links.{Ptr, null, Store, Chained, ll_add, ll_remove}

-- Where a worker stands, with its local variable `job`.
pub data Pc : Type 0 where
  unborn : Pc  -- no thread has been started for this address
  start : Pc  -- head of `while (1)`, before the lock
  loop : Pc  -- mutex held, at the test of the inner `while`
  asleep : Pc  -- in `pthread_cond_wait`, mutex released
  woken : Pc  -- in `pthread_cond_wait`, woken, mutex not yet taken again
  check : Pc  -- mutex held, behind the inner `while`
  leaving : (job : Ptr) → Pc  -- mutex held, before the unlock
  running : (job : Ptr) → Pc  -- behind the unlock, with the job to execute
  exiting : Pc  -- behind the outer `while`
  gone : Pc  -- after `free(worker)` and `pthread_exit`

-- Where the thread stands that calls the functions of the header.
pub data CallerPc : Type 0 where
  idle : CallerPc
  init_loop : (left : ℕ) → CallerPc  -- `workqueue_init`, with `left` rounds to go
  init_link : (worker : Ptr) (left : ℕ) → CallerPc  -- thread started, before LL_ADD
  add_lock : (job : Ptr) → CallerPc
  add_link : (job : Ptr) → CallerPc
  add_signal : CallerPc
  add_unlock : CallerPc
  stop_walk : (worker : Ptr) → CallerPc  -- `workqueue_shutdown`, test of the `for`
  stop_next : (worker : Ptr) → CallerPc  -- flag written, before `worker = worker->next`
  stop_lock : CallerPc
  stop_clear : CallerPc
  stop_broadcast : CallerPc
  stop_unlock : CallerPc
  faulted : CallerPc  -- it has touched a worker that is freed: what follows is not described

-- Who holds `jobs_mutex`.
pub data Owner : Type 0 where
  free : Owner
  caller : Owner
  worker : Ptr → Owner

-- What a step does that can be seen from outside.
pub data Event : Type 0 where
  silent : Event
  init_returned : (code : ℕ) → Event
  added : (job : Ptr) → Event
  took : (job : Ptr) → Event
  cleared : Event

-- `struct workqueue` with its threads. `live` tells which job nodes are allocated.
pub record System : Type 0 where
  pub workers : Chained
  pub jobs : Chained
  pub mutex : Owner
  pub terminate : Ptr → Bool
  pub pc : Ptr → Pc
  pub at : CallerPc
  pub live : Ptr → Bool

-- What the environment answers to a step of the caller: the address that `malloc` returns or the
-- thread that `pthread_cond_signal` wakes, and whether `pthread_create` succeeds.
pub record Answer : Type 0 where
  pub address : Ptr
  pub created : Bool

abbrev pub is_free : Owner → Bool
is_free free = true
is_free _ = false

abbrev pub is_asleep : Pc → Bool
is_asleep asleep = true
is_asleep _ = false

-- `free(worker)` has been called.
abbrev pub is_gone : Pc → Bool
is_gone gone = true
is_gone _ = false

abbrev pub is_unborn : Pc → Bool
is_unborn unborn = true
is_unborn _ = false

abbrev pub wake : Pc → Pc
wake asleep = woken
wake p = p

abbrev pub move : System → Ptr → Pc → System
move s w p = record s { pc = update s.pc w p }

abbrev pub quiet : System → Option (Event × System)
quiet s = some (silent, s)

-- One step of `worker_function` of the worker `w`, which stands at the given point. `none` means
-- that the thread waits or has ended. `pthread_cond_wait` may return with no signal.
unfoldable pub worker_at : Pc → Ptr → System → Option (Event × System)
worker_at unborn w s = none
worker_at start w s =
    if is_free s.mutex then quiet (record s { mutex = worker w; pc = update s.pc w loop }) else none
worker_at loop w s =
    if s.jobs.list == null
    then (if s.terminate w
        then quiet (move s w check)
        else quiet (record s { mutex = free; pc = update s.pc w asleep }))
    else quiet (move s w check)
worker_at asleep w s = quiet (move s w woken)
worker_at woken w s =
    if is_free s.mutex then quiet (record s { mutex = worker w; pc = update s.pc w loop }) else none
worker_at check w s =
    if s.terminate w
    then quiet (move s w exiting)
    else let job = s.jobs.list in
      if job == null
      then quiet (move s w (leaving job))
      else some
          (took job, record s { jobs = ll_remove job s.jobs; pc = update s.pc w (leaving job) })
worker_at (leaving job) w s = quiet (record s { mutex = free; pc = update s.pc w (running job) })
worker_at (running job) w s =
    if job == null
    then quiet (move s w start)
    else quiet (record s { live = update s.live job false; pc = update s.pc w start })
worker_at exiting w s = quiet (move s w gone)
worker_at gone w s = none

-- One step of the caller.
unfoldable pub caller_at : CallerPc → Answer → System → Option (Event × System)
caller_at idle a s = none
caller_at (init_loop zero) a s = some (init_returned 0, record s { at = idle })
caller_at (init_loop (suc left)) a s =
    if a.address == null
    then some (init_returned 1, record s { at = idle })
    else if a.created
    then quiet (record s { pc = update s.pc a.address start; at = init_link a.address left })
    else some (init_returned 1, record s { at = idle })
caller_at (init_link w left) a s =
    quiet (record s { workers = ll_add w s.workers; at = init_loop left })
caller_at (add_lock job) a s =
    if is_free s.mutex then quiet (record s { mutex = caller; at = add_link job }) else none
caller_at (add_link job) a s =
    some (added job, record s { jobs = ll_add job s.jobs; at = add_signal })
caller_at add_signal a s =
    quiet (record s { pc = update s.pc a.address (wake (s.pc a.address)); at = add_unlock })
caller_at add_unlock a s = quiet (record s { mutex = free; at = idle })
caller_at (stop_walk w) a s =
    if w == null
    then quiet (record s { at = stop_lock })
    else if is_gone (s.pc w)
    then quiet (record s { at = faulted })
    else quiet (record s { terminate = update s.terminate w true; at = stop_next w })
caller_at (stop_next w) a s =
    if is_gone (s.pc w)
    then quiet (record s { at = faulted })
    else quiet (record s { at = stop_walk (s.workers.store w).next })
caller_at stop_lock a s =
    if is_free s.mutex then quiet (record s { mutex = caller; at = stop_clear }) else none
caller_at stop_clear a s = some (
  cleared,
  record s {
    workers = record { store = s.workers.store; list = null };
    jobs = record { store = s.jobs.store; list = null };
    at = stop_broadcast;
  },
)
caller_at stop_broadcast a s = quiet (record s { pc = λ w. wake (s.pc w); at = stop_unlock })
caller_at stop_unlock a s = quiet (record s { mutex = free; at = idle })
caller_at faulted a s = none

-- The documented behaviour of what answers: `malloc` returns no address in use, and
-- `pthread_cond_signal` wakes a thread if one waits.
abbrev pub Answers : CallerPc → Answer → System → Type 0
Answers (init_loop left) a s = is_unborn (s.pc a.address) ≡ true
Answers add_signal a s =
    (is_asleep (s.pc a.address) ≡ true) ⊎ ((w : Ptr) → is_asleep (s.pc w) ≡ false)
Answers _ a s = Unit

-- `workqueue_init(workqueue, num_workers)`, behind its `memset`. What `malloc` returns holds the
-- links that `memory` says.
unfoldable pub initial : ℕ → Store → System
initial num_workers memory = record {
  workers = record { store = memory; list = null };
  jobs = record { store = memory; list = null };
  mutex = free;
  terminate = λ w. false;
  pc = λ w. unborn;
  at = init_loop (if ltb num_workers 1 then 1 else num_workers);
  live = λ j. false;
}

-- One step of one thread, in any order.
pub data Step (s : System) : Event → System → Type 0 where
  work : (w : Ptr) {e : Event} {t : System} → worker_at (s.pc w) w s ≡ some (e, t) → Step s e t
  call :
      (a : Answer) {e : Event} {t : System}
      → Answers s.at a s
      → caller_at s.at a s ≡ some (e, t)
      → Step s e t
  submit :
      (job : Ptr)
      → s.at ≡ idle
      → job ≢ null
      → s.live job ≡ false
      → Step s silent (record s { at = add_lock job; live = update s.live job true })
  stop : s.at ≡ idle → Step s silent (record s { at = stop_walk s.workers.list })

-- A run of the machine, with its events, the last one first.
pub data Reach (n : ℕ) (memory : Store) : List Event → System → Type 0 where
  begin : Reach n memory [] (initial n memory)
  later :
      {es : List Event} {s t : System} {e : Event}
      → Reach n memory es s
      → Step s e t
      → Reach n memory (e ∷ es) t
