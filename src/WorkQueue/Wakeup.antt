-- ===== src/WorkQueue/Wakeup.antt =====
-- The signal of `workqueue_add_job` and the wait of `worker_function` of src/workqueue.c: no
-- wake-up is lost.
use jia_tuan_server.Common.{
  ℕ, zero, suc, ◌≡◌, refl, sym, ◌∙◌, subst, ◌≢◌, inl, inr, Bool, true, false, Option, none, some,
  List, arith, ◌==◌, Bool-cases,
}
use jia_tuan_server.WorkQueue.Links.{Ptr, null, Store}
use jia_tuan_server.WorkQueue.Machine.{
  Pc, unborn, start, loop, asleep, woken, check, leaving, running, exiting, gone, Event, System,
  is_free, is_gone, faulted, is_unborn, is_asleep, wake, CallerPc, idle, init_loop, init_link,
  add_lock, add_link, add_signal, add_unlock, stop_walk, stop_next, stop_lock, stop_clear,
  stop_broadcast, stop_unlock, Answer, Answers, caller_at, worker_at, initial, work, call, submit,
  stop, Reach, begin, later,
}
use jia_tuan_server.WorkQueue.Leaving.{has_left, Reach-LeftFlagged}

-- A worker that has been started and does not wait for a signal.
abbrev is_up : Pc → Bool
is_up unborn = false
is_up asleep = false
is_up _ = true

abbrev SomeUp : System → Type 0
SomeUp s = (w : Ptr) × (is_up (s.pc w) ≡ true)

abbrev pub is_signalling : CallerPc → Bool
is_signalling add_signal = true
is_signalling _ = false

-- A job waits, and its addition is past the signal.
abbrev Pending : System → Type 0
Pending s = (s.jobs.list ≢ null) × (is_signalling s.at ≡ false)

-- In words: if some worker was started, a pending job has a worker awake.
abbrev Served : System → Type 0
Served s = (v : Ptr) → is_unborn (s.pc v) ≡ false → Pending s → SomeUp s

abbrev AllServed : Option (Event × System) → Type 0
AllServed none = Unit
AllServed (some (e, t)) = Served t

-- A step of a worker leaves that worker awake, or puts it to sleep with no job in the list.
worker_at-Served : (s : System) (w : Ptr) (p : Pc) → AllServed (worker_at p w s)
unfolding worker_at
worker_at-Served s w unborn = tt
worker_at-Served s w start = elim (Bool-cases (is_free s.mutex)) [
  | inl e ↦ rw e (λ v b p. (w, ground arith))
  | inr e ↦ rw e tt
]
worker_at-Served s w loop = elim (Bool-cases (s.jobs.list == null)) [
  | inl e ↦ elim (Bool-cases (s.terminate w)) [
    | inl ends ↦ rw (e, ends) (λ v b p. (w, ground arith))
    | inr go ↦ rw (e, go) (λ v b p. absurd (p.0 (ground arith)))
  ]
  | inr e ↦ rw e (λ v b p. (w, ground arith))
]
worker_at-Served s w asleep = λ v b p. (w, ground arith)
worker_at-Served s w woken = elim (Bool-cases (is_free s.mutex)) [
  | inl e ↦ rw e (λ v b p. (w, ground arith))
  | inr e ↦ rw e tt
]
worker_at-Served s w check = elim (Bool-cases (s.terminate w)) [
  | inl ends ↦ rw ends (λ v b p. (w, ground arith))
  | inr go ↦ elim (Bool-cases (s.jobs.list == null)) [
    | inl e ↦ rw (go, e) (λ v b p. (w, ground arith))
    | inr e ↦ rw (go, e) (λ v b p. (w, ground arith))
  ]
]
worker_at-Served s w (leaving job) = λ v b p. (w, ground arith)
worker_at-Served s w (running job) = elim (Bool-cases (job == null)) [
  | inl e ↦ rw e (λ v b p. (w, ground arith))
  | inr e ↦ rw e (λ v b p. (w, ground arith))
]
worker_at-Served s w exiting = λ v b p. (w, ground arith)
worker_at-Served s w gone = tt

is_up-wake : (p : Pc) → is_up p ≡ true → is_up (wake p) ≡ true
is_up-wake asleep h = refl
is_up-wake p h = ground arith

is_up_of_asleep : (p : Pc) → is_asleep p ≡ true → is_up (wake p) ≡ true
is_up_of_asleep asleep h = refl
is_up_of_asleep _ h = cc

is_unborn-wake : (p : Pc) → is_unborn (wake p) ≡ is_unborn p
is_unborn-wake asleep = refl
is_unborn-wake _ = refl

up_of_not_asleep : (p : Pc) → is_unborn p ≡ false → is_asleep p ≡ false → is_up p ≡ true
up_of_not_asleep unborn a b = cc
up_of_not_asleep asleep a b = cc
up_of_not_asleep _ a b = refl

caller_at-Served :
    (s : System) (a : Answer) (p : CallerPc)
    → s.at ≡ p
    → Answers p a s
    → Served s
    → AllServed (caller_at p a s)
unfolding caller_at
caller_at-Served s a idle at ok old = tt
caller_at-Served s a (init_loop zero) at ok old = λ v b p. old v b (p.0, rw at)
caller_at-Served s a (init_loop (suc left)) at ok old = elim (Bool-cases (a.address == null)) [
  | inl e ↦ rw e (λ v b p. old v b (p.0, rw at))
  | inr e ↦ elim (Bool-cases a.created) [
    | inl c ↦ rw (e, c) (λ v b p. (a.address, ground arith))
    | inr c ↦ rw (e, c) (λ v b p. old v b (p.0, rw at))
  ]
]
caller_at-Served s a (init_link w left) at ok old = λ v b p. old v b (p.0, rw at)
caller_at-Served s a (add_lock job) at ok old = elim (Bool-cases (is_free s.mutex)) [
  | inl e ↦ rw e (λ v b p. old v b (p.0, rw at))
  | inr e ↦ rw e tt
]
caller_at-Served s a (add_link job) at ok old = λ v b p. cc
caller_at-Served s a add_signal at (inl sleeps) old =
    λ v b p. (a.address, ground (arith, is_up_of_asleep (s.pc a.address) sleeps))
caller_at-Served s a add_signal at (inr none_sleeps) old = λ v b p. (
  v,
  ground (
    arith,
    none_sleeps v,
    is_unborn-wake (s.pc a.address),
    up_of_not_asleep (s.pc v),
    is_up-wake (s.pc v),
  ),
)
caller_at-Served s a add_unlock at ok old = λ v b p. old v b (p.0, rw at)
caller_at-Served s a (stop_walk w) at ok old = elim (Bool-cases (w == null)) [
  | inl e ↦ rw e (λ v b p. old v b (p.0, rw at))
  | inr e ↦ elim (Bool-cases (is_gone (s.pc w))) [
    | inl g ↦ rw (e, g) (λ v b p. old v b (p.0, rw at))
    | inr g ↦ rw (e, g) (λ v b p. old v b (p.0, rw at))
  ]
]
caller_at-Served s a (stop_next w) at ok old = elim (Bool-cases (is_gone (s.pc w))) [
  | inl g ↦ rw g (λ v b p. old v b (p.0, rw at))
  | inr g ↦ rw g (λ v b p. old v b (p.0, rw at))
]
caller_at-Served s a faulted at ok old = tt
caller_at-Served s a stop_lock at ok old = elim (Bool-cases (is_free s.mutex)) [
  | inl e ↦ rw e (λ v b p. old v b (p.0, rw at))
  | inr e ↦ rw e tt
]
caller_at-Served s a stop_clear at ok old = λ v b p. absurd (p.0 refl)
caller_at-Served s a stop_broadcast at ok old = λ v b p.
    let (w, up) = old v (sym (is_unborn-wake (s.pc v)) ∙ b) (p.0, rw at) in
    (w, is_up-wake (s.pc w) up)
caller_at-Served s a stop_unlock at ok old = λ v b p. old v b (p.0, rw at)

Reach-Served :
    {n : ℕ} {memory : Store} {es : List Event} {s : System} → Reach n memory es s → Served s
unfolding initial
Reach-Served begin = λ v b p. cc
Reach-Served (later r (work w run)) = subst AllServed run (worker_at-Served _ w _)
Reach-Served (later r (call a ok run)) =
    subst AllServed run (caller_at-Served _ a _ refl ok (Reach-Served r))
Reach-Served (later r (submit job at nonnull unused)) = λ v b p. Reach-Served r v b (p.0, rw at)
Reach-Served (later r (stop at)) = λ v b p. Reach-Served r v b (p.0, rw at)

-- A worker that will come to the test of the list with no further signal: it has been started, does
-- not wait for a signal, and has not left its outer loop.
abbrev pub is_awake : Pc → Bool
is_awake unborn = false
is_awake asleep = false
is_awake exiting = false
is_awake gone = false
is_awake _ = true

awake_lem : (p : Pc) → is_up p ≡ true → has_left p ≡ false → is_awake p ≡ true
awake_lem p up stays = ground arith

-- In every reachable state in which no worker has been told to terminate, at least one worker has
-- been started, the list of waiting jobs is not empty, and the caller does not stand right before
-- the signal of `workqueue_add_job`, some worker has been started, does not wait for a signal and
-- has not left its outer loop: the jobs do not wait with all workers asleep.
pub no_lost_wakeup :
    {n : ℕ} {memory : Store} {es : List Event} {s : System} (v : Ptr)
    → Reach n memory es s
    → is_unborn (s.pc v) ≡ false
    → s.jobs.list ≢ null
    → is_signalling s.at ≡ false
    → ((w : Ptr) → s.terminate w ≡ false)
    → (w : Ptr) × (is_awake (s.pc w) ≡ true)
no_lost_wakeup {s} v r born some_job past no_flags =
    let (w, up) = Reach-Served r v born (some_job, past) in
    (
      w,
      elim (Bool-cases (has_left (s.pc w))) [
        | inl left ↦ absurd (ground (arith, Reach-LeftFlagged r w left, no_flags w))
        | inr stays ↦ awake_lem (s.pc w) up stays
      ],
    )
