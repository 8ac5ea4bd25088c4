-- ===== src/WorkQueue/Invariant.antt =====
-- What holds in every state of the work queue of src/workqueue.c, and is kept by every step.
pub mod Workers
pub mod Callers
pub mod Reach
use jia_tuan_server.Common.{ℕ, ◌≡◌, ◌≢◌, ◌⊎◌, Bool, true, false, Option, none, some, List, has}
use jia_tuan_server.WorkQueue.Links.{Ptr, null, IsChain}
use jia_tuan_server.WorkQueue.Machine.{
  Pc, loop, check, leaving, running, exiting, gone, CallerPc, add_lock, add_link, add_signal,
  add_unlock, stop_clear, stop_broadcast, stop_unlock, Owner, caller, worker, Event, System,
}
use jia_tuan_server.WorkQueue.Stack.{apply}

-- The points of `worker_function` at which the worker holds the mutex. Nothing releases it behind
-- the outer loop.
abbrev pub holds : Pc → Bool
holds loop = true
holds check = true
holds (leaving j) = true
holds exiting = true
holds gone = true
holds _ = false

abbrev pub caller_holds : CallerPc → Bool
caller_holds (add_link j) = true
caller_holds add_signal = true
caller_holds add_unlock = true
caller_holds stop_clear = true
caller_holds stop_broadcast = true
caller_holds stop_unlock = true
caller_holds _ = false

-- The job that a worker has taken and not yet finished.
abbrev pub job_of : Pc → Option Ptr
job_of (leaving j) = some j
job_of (running j) = some j
job_of _ = none

-- The job that the caller is about to add.
abbrev pub offered : CallerPc → Option Ptr
offered (add_lock j) = some j
offered (add_link j) = some j
offered _ = none

abbrev pub is_check : Pc → Bool
is_check check = true
is_check _ = false

pub record Inv (s : System) (xs : List Ptr) : Type 0 where
  pub chain : IsChain s.jobs xs
  pub worker_lock : (w : Ptr) → holds (s.pc w) ≡ true → s.mutex ≡ worker w
  pub caller_lock : caller_holds s.at ≡ true → s.mutex ≡ caller
  pub worker_owner : (w : Ptr) → s.mutex ≡ worker w → holds (s.pc w) ≡ true
  pub caller_owner : s.mutex ≡ caller → caller_holds s.at ≡ true
  pub stocked : (w : Ptr) → is_check (s.pc w) ≡ true → (s.jobs.list ≢ null) ⊎ (s.terminate w ≡ true)
  pub waiting_live : (j : Ptr) → has j xs ≡ true → s.live j ≡ true
  pub taken_live :
      (w j : Ptr) → job_of (s.pc w) ≡ some j → (j ≢ null) × (s.live j ≡ true) × (has j xs ≡ false)
  pub taken_unique : (v w j : Ptr) → job_of (s.pc v) ≡ some j → job_of (s.pc w) ≡ some j → v ≡ w
  pub offer :
      (j : Ptr)
      → offered s.at ≡ some j
      → (j ≢ null) × (s.live j ≡ true) × (has j xs ≡ false) × ((w : Ptr) → job_of (s.pc w) ≢ some j)

-- The state after a step, and the stack after its event.
abbrev pub Good : List Ptr → Option (Event × System) → Type 0
Good xs none = Unit
Good xs (some (e, t)) = (ys : List Ptr) × (apply e xs ≡ some ys) × Inv t ys
