-- ===== src/WorkQueue/Examples.antt =====
-- Runs of the work queue of src/workqueue.c, and its theorems at them.
use jia_tuan_server.Common.{
  ℕ, ◌+◌, ◌≡◌, refl, ◌≢◌, inl, true, false, some, List, [], ◌∷◌, arith, has, count,
}
use jia_tuan_server.WorkQueue.Links.{Ptr, null, Store, Chained, ll_add, ll_remove, IsChain}
use jia_tuan_server.WorkQueue.Stack.{replay, times_added, times_taken, times_dropped}
use jia_tuan_server.WorkQueue.Invariant.{holds, caller_holds, job_of}
use jia_tuan_server.WorkQueue.Safety.{
  jobs_are_stack, jobs_conserved, mutual_exclusion, taken_job_is_exclusive,
}
use jia_tuan_server.WorkQueue.Flags.{shutdown_flags_workers}
use jia_tuan_server.WorkQueue.Exit.{Later, now, after, AllIdle, exit_keeps_mutex}
use jia_tuan_server.WorkQueue.Wakeup.{is_awake, no_lost_wakeup}
use jia_tuan_server.WorkQueue.Links.Cut.{ll_remove-cut}
use jia_tuan_server.WorkQueue.Links.Head.{ll_remove-IsChain}
use jia_tuan_server.WorkQueue.Machine.{
  gone, faulted, Answer, Event, silent, init_returned, added, took, System, worker, worker_at,
  caller_at, initial, work, call, submit, stop, Reach, begin, later,
}

abbrev memory : Store
memory p = record { prev = 77; next = 78 }

-- An answer to a step that asks nothing.
abbrev any : Answer
any = record { address = 0; created = true }

abbrev first_events : List Event
first_events = silent ∷ silent ∷ init_returned 0 ∷ silent ∷ silent ∷ []

-- One worker, at address 10, that falls asleep.
abbrev to_sleep : (s : System) × Reach 1 memory first_events s
unfolding worker_at caller_at initial ll_add ll_remove
to_sleep = (
  _,
  later
      (later
        (later
          (later (later begin (call (record { address = 10; created = true }) refl refl))
            (call any tt refl))
          (call any refl refl))
        (work 10 refl))
      (work 10 refl),
)

abbrev add_events : List Event
add_events = silent ∷ silent ∷ added 5 ∷ silent ∷ silent ∷ first_events

-- The job at address 5 is added, which wakes the worker.
abbrev with_job : (s : System) × Reach 1 memory add_events s
unfolding worker_at caller_at initial ll_add ll_remove
with_job = (
  _,
  later
      (later
        (later (later (later to_sleep.1 (submit 5 refl (omega arith) refl)) (call any tt refl))
          (call any tt refl))
        (call (record { address = 10; created = true }) (inl refl) refl))
      (call any tt refl),
)

abbrev take_events : List Event
take_events = took 5 ∷ silent ∷ silent ∷ add_events

-- The worker takes the job, and holds the mutex.
abbrev with_taken : (s : System) × Reach 1 memory take_events s
unfolding worker_at caller_at initial ll_add ll_remove
with_taken = (_, later (later (later with_job.1 (work 10 refl)) (work 10 refl)) (work 10 refl))

jobs_are_stack_example :
    (xs : List Ptr) × (replay take_events ≡ some xs) × IsChain with_taken.0.jobs xs
unfolding worker_at caller_at initial ll_add ll_remove
jobs_are_stack_example = jobs_are_stack with_taken.1

jobs_conserved_example :
    (xs : List Ptr) × IsChain with_taken.0.jobs xs
    × ((j : Ptr)
        → times_added j take_events
          ≡ count j xs + times_taken j take_events + times_dropped j take_events)
unfolding worker_at caller_at initial ll_add ll_remove
jobs_conserved_example = jobs_conserved with_taken.1

mutual_exclusion_example :
    ((v w : Ptr) → holds (with_taken.0.pc v) ≡ true → holds (with_taken.0.pc w) ≡ true → v ≡ w)
    × ((v : Ptr) → holds (with_taken.0.pc v) ≡ true → caller_holds with_taken.0.at ≡ false)
unfolding worker_at caller_at initial ll_add ll_remove
mutual_exclusion_example = mutual_exclusion with_taken.1

taken_job_is_exclusive_example :
    ◌≢◌ {A = ℕ} 5 null
    × (with_taken.0.live 5 ≡ true)
    × ((v : Ptr) → job_of (with_taken.0.pc v) ≡ some 5 → v ≡ 10)
    × ((xs : List Ptr) × IsChain with_taken.0.jobs xs × (has 5 xs ≡ false))
unfolding worker_at caller_at initial ll_add ll_remove
taken_job_is_exclusive_example = taken_job_is_exclusive with_taken.1 10 5 refl

no_lost_wakeup_example : (w : Ptr) × (is_awake (with_job.0.pc w) ≡ true)
unfolding worker_at caller_at initial ll_add ll_remove
no_lost_wakeup_example = no_lost_wakeup 10 with_job.1 refl (λ e. omega arith) refl (λ w. refl)

-- `workqueue_shutdown` runs while the worker executes the job.
abbrev stopped : (es : List Event) × (s : System) × Reach 1 memory es s
unfolding worker_at caller_at initial ll_add ll_remove
stopped = (
  _,
  _,
  later
      (later
        (later
          (later
            (later
              (later
                (later (later (later with_taken.1 (work 10 refl)) (stop refl)) (call any tt refl))
                (call any tt refl))
              (call any tt refl))
            (call any tt refl))
          (call any tt refl))
        (call any tt refl))
      (call any tt refl),
)

-- `workqueue_shutdown` in front of its lock, while the worker holds the mutex.
abbrev walked : (es : List Event) × (s : System) × Reach 1 memory es s
unfolding worker_at caller_at initial ll_add ll_remove
walked = (
  _,
  _,
  later (later (later (later with_taken.1 (stop refl)) (call any tt refl)) (call any tt refl))
      (call any tt refl),
)

shutdown_flags_workers_example : walked.1.terminate 10 ≡ true
unfolding worker_at caller_at initial ll_add ll_remove
shutdown_flags_workers_example = shutdown_flags_workers 10 walked.2 refl refl

-- `workqueue_shutdown` has flagged a sleeping worker, which wakes up and exits before its link is
-- read.
abbrev walk_faults : (es : List Event) × (s : System) × Reach 1 memory es s
unfolding worker_at caller_at initial ll_add ll_remove
walk_faults = (
  _,
  _,
  later
      (later
        (later
          (later
            (later (later (later (later to_sleep.1 (stop refl)) (call any tt refl)) (work 10 refl))
              (work 10 refl))
            (work 10 refl))
          (work 10 refl))
        (work 10 refl))
      (call any tt refl),
)

walk_faults_at : walk_faults.1.at ≡ faulted
unfolding worker_at caller_at initial ll_add ll_remove
walk_faults_at = refl

-- Four steps of the worker later it has exited.
abbrev exited : (es : List Event) × (s : System) × Reach 1 memory es s
unfolding worker_at caller_at initial ll_add ll_remove
exited = (
  _,
  _,
  later
      (later (later (later (later stopped.2 (work 10 refl)) (work 10 refl)) (work 10 refl))
        (work 10 refl))
      (work 10 refl),
)

-- The next job is never added: its `workqueue_add_job` waits for the mutex.
abbrev past_exit : (es : List Event) × (t : System) × Later exited.1 es t
unfolding worker_at caller_at initial ll_add ll_remove
past_exit = (_, _, after now (submit 6 refl (omega arith) refl))

exit_keeps_mutex_example :
    AllIdle past_exit.0
    × (past_exit.1.mutex ≡ worker 10)
    × ((w : Ptr) → past_exit.1.pc w ≡ gone → w ≡ 10)
unfolding worker_at caller_at initial ll_add ll_remove
exit_keeps_mutex_example = exit_keeps_mutex 10 exited.2 refl past_exit.2

-- The nodes 3, 2 and 1, added in the order 1, 2, 3.
abbrev three : Chained
three = ll_add 3 (ll_add 2 (ll_add 1 (record { store = memory; list = null })))

three-IsChain : IsChain three (3 ∷ 2 ∷ 1 ∷ [])
unfolding ll_add
three-IsChain = (
  refl,
  omega arith,
  refl,
  refl,
  (refl, omega arith, refl, refl, (refl, omega arith, refl, refl, refl)),
)

ll_remove-IsChain_example : IsChain (ll_remove 3 three) (2 ∷ 1 ∷ [])
ll_remove-IsChain_example = ll_remove-IsChain 3 three (2 ∷ 1 ∷ []) three-IsChain

ll_remove-cut_example : IsChain (ll_remove 2 three) (3 ∷ 2 ∷ [])
ll_remove-cut_example = ll_remove-cut three 3 2 [] (1 ∷ []) three-IsChain
