-- ===== src/WorkQueue/Safety.antt =====
-- What the jobs of src/workqueue.c can rely on, in every interleaving of the threads.
use jia_tuan_server.Common.{ℕ, ◌+◌, ◌≡◌, ◌≢◌, true, false, some, List, arith, has, count}
use jia_tuan_server.WorkQueue.Links.{Ptr, null, Store, IsChain}
use jia_tuan_server.WorkQueue.Machine.{Event, System, Reach}
use jia_tuan_server.WorkQueue.Stack.{replay, times_added, times_taken, times_dropped, balance}
use jia_tuan_server.WorkQueue.Invariant.{holds, caller_holds, job_of}
use jia_tuan_server.WorkQueue.Invariant.Reach.{Reach-Inv}

module _ {n : ℕ} {memory : Store} {es : List Event} {s : System} (r : Reach n memory es s) where
  -- In every reachable state, whatever the interleaving, the list of waiting jobs holds what an
  -- atomic stack holds after the same additions, removals and clearings in the same order; in
  -- particular each job taken was the one added last among those that waited.
  pub jobs_are_stack : (xs : List Ptr) × (replay es ≡ some xs) × IsChain s.jobs xs
  jobs_are_stack = let (xs, made, inv) = Reach-Inv r in (xs, made, inv.chain)

  -- In every reachable state the list of waiting jobs is a chain of some jobs `xs`, and for each
  -- job address the number of its additions is the number of its occurrences in `xs`, plus how
  -- often it was taken, plus how often `workqueue_shutdown` dropped it.
  pub jobs_conserved :
      (xs : List Ptr) × IsChain s.jobs xs
      × ((j : Ptr) → times_added j es ≡ count j xs + times_taken j es + times_dropped j es)
  jobs_conserved = let (xs, made, inv) = Reach-Inv r in (xs, inv.chain, λ j. balance j es xs made)

  -- In every reachable state two workers that are between the lock and the unlock of the mutex are
  -- one, and no worker is there together with the thread that adds jobs or shuts down.
  pub mutual_exclusion :
      ((v w : Ptr) → holds (s.pc v) ≡ true → holds (s.pc w) ≡ true → v ≡ w)
      × ((v : Ptr) → holds (s.pc v) ≡ true → caller_holds s.at ≡ false)
  mutual_exclusion =
      let (xs, made, inv) = Reach-Inv r in
      (
        λ v w a b. ground (arith, inv.worker_lock v, inv.worker_lock w),
        λ v a. ground (arith, inv.worker_lock v, inv.caller_lock),
      )

  -- In every reachable state a job that a worker has taken and not finished is not NULL, is
  -- allocated, is not in the list of waiting jobs, and is held by no other worker: so the `free`
  -- at its end frees no job that waits or that another worker executes.
  pub taken_job_is_exclusive :
      (w j : Ptr)
      → job_of (s.pc w) ≡ some j
      → (j ≢ null)
        × (s.live j ≡ true)
        × ((v : Ptr) → job_of (s.pc v) ≡ some j → v ≡ w)
        × ((xs : List Ptr) × IsChain s.jobs xs × (has j xs ≡ false))
  taken_job_is_exclusive w j h =
      let (xs, made, inv) = Reach-Inv r in
      let (nonnull, alive, out) = inv.taken_live w j h in
      (nonnull, alive, λ v k. inv.taken_unique v w j k h, (xs, inv.chain, out))
