-- ===== src/WorkQueue/Leaving.antt =====
-- When `worker_function` of src/workqueue.c leaves its outer loop.
use jia_tuan_server.Common.{
  ℕ, suc, ◌≡◌, refl, sym, ◌∙◌, subst, inl, inr, Bool, true, false, Option, none, some, List, arith,
  ◌==◌, update, Bool-cases,
}
use jia_tuan_server.WorkQueue.Links.{Ptr, null, Store}
use jia_tuan_server.WorkQueue.Machine.{
  Pc, unborn, start, loop, asleep, woken, check, leaving, running, exiting, gone, Event, System,
  is_free, is_gone, faulted, wake, CallerPc, idle, init_loop, add_lock, add_signal, stop_walk,
  stop_next, stop_lock, stop_broadcast, Answer, caller_at, worker_at, initial, work, call, submit,
  stop, Reach, begin, later,
}

-- Behind the outer loop.
abbrev pub has_left : Pc → Bool
has_left exiting = true
has_left gone = true
has_left _ = false

-- Only a worker whose flag is set leaves its outer loop.
abbrev pub LeftFlagged : System → Type 0
LeftFlagged s = (w : Ptr) → has_left (s.pc w) ≡ true → s.terminate w ≡ true

abbrev AllLeftFlagged : Option (Event × System) → Type 0
AllLeftFlagged none = Unit
AllLeftFlagged (some (e, t)) = LeftFlagged t

left_elsewhere :
    (s : System) (w : Ptr) (q : Pc)
    → has_left q ≡ false
    → LeftFlagged s
    → (v : Ptr) → has_left (update s.pc w q v) ≡ true
    → s.terminate v ≡ true
left_elsewhere s w q stays old v h = ground (arith, old v)

left_here :
    (s : System) (w : Ptr) (q : Pc)
    → s.terminate w ≡ true
    → LeftFlagged s
    → (v : Ptr) → has_left (update s.pc w q v) ≡ true
    → s.terminate v ≡ true
left_here s w q flag old v h = ground (arith, old v)

worker_at-LeftFlagged :
    (s : System) (w : Ptr) (p : Pc) → s.pc w ≡ p → LeftFlagged s → AllLeftFlagged (worker_at p w s)
unfolding worker_at
worker_at-LeftFlagged s w unborn at old = tt
worker_at-LeftFlagged s w start at old = elim (Bool-cases (is_free s.mutex)) [
  | inl e ↦ rw e (left_elsewhere s w loop refl old)
  | inr e ↦ rw e tt
]
worker_at-LeftFlagged s w loop at old = elim (Bool-cases (s.jobs.list == null)) [
  | inl e ↦ elim (Bool-cases (s.terminate w)) [
    | inl f ↦ rw (e, f) (left_elsewhere s w check refl old)
    | inr f ↦ rw (e, f) (left_elsewhere s w asleep refl old)
  ]
  | inr e ↦ rw e (left_elsewhere s w check refl old)
]
worker_at-LeftFlagged s w asleep at old = left_elsewhere s w woken refl old
worker_at-LeftFlagged s w woken at old = elim (Bool-cases (is_free s.mutex)) [
  | inl e ↦ rw e (left_elsewhere s w loop refl old)
  | inr e ↦ rw e tt
]
worker_at-LeftFlagged s w check at old = elim (Bool-cases (s.terminate w)) [
  | inl f ↦ rw f (left_here s w exiting f old)
  | inr f ↦ elim (Bool-cases (s.jobs.list == null)) [
    | inl e ↦ rw (f, e) (left_elsewhere s w (leaving s.jobs.list) refl old)
    | inr e ↦ rw (f, e) (left_elsewhere s w (leaving s.jobs.list) refl old)
  ]
]
worker_at-LeftFlagged s w (leaving job) at old = left_elsewhere s w (running job) refl old
worker_at-LeftFlagged s w (running job) at old = elim (Bool-cases (job == null)) [
  | inl e ↦ rw e (left_elsewhere s w start refl old)
  | inr e ↦ rw e (left_elsewhere s w start refl old)
]
worker_at-LeftFlagged s w exiting at old = left_here s w gone (old w (rw at)) old
worker_at-LeftFlagged s w gone at old = tt

has_left-wake : (p : Pc) → has_left (wake p) ≡ has_left p
has_left-wake asleep = refl
has_left-wake _ = refl

caller_at-LeftFlagged :
    (s : System) (a : Answer) (p : CallerPc) → LeftFlagged s → AllLeftFlagged (caller_at p a s)
unfolding caller_at
caller_at-LeftFlagged s a (init_loop (suc left)) old = elim (Bool-cases (a.address == null)) [
  | inl e ↦ rw e old
  | inr e ↦ elim (Bool-cases a.created) [
    | inl c ↦ rw (e, c) (left_elsewhere s a.address start refl old)
    | inr c ↦ rw (e, c) old
  ]
]
caller_at-LeftFlagged s a (add_lock job) old = elim (Bool-cases (is_free s.mutex)) [
  | inl e ↦ rw e old
  | inr e ↦ rw e tt
]
caller_at-LeftFlagged s a add_signal old =
    λ v h. ground (arith, old v, has_left-wake (s.pc a.address))
caller_at-LeftFlagged s a (stop_walk w) old = elim (Bool-cases (w == null)) [
  | inl e ↦ rw e old
  | inr e ↦ elim (Bool-cases (is_gone (s.pc w))) [
    | inl g ↦ rw (e, g) old
    | inr g ↦ rw (e, g) (λ v h. ground (arith, old v))
  ]
]
caller_at-LeftFlagged s a (stop_next w) old = elim (Bool-cases (is_gone (s.pc w))) [
  | inl g ↦ rw g old
  | inr g ↦ rw g old
]
caller_at-LeftFlagged s a stop_lock old = elim (Bool-cases (is_free s.mutex)) [
  | inl e ↦ rw e old
  | inr e ↦ rw e tt
]
caller_at-LeftFlagged s a stop_broadcast old = λ v h. old v (sym (has_left-wake (s.pc v)) ∙ h)
caller_at-LeftFlagged s a idle old = tt
caller_at-LeftFlagged s a faulted old = tt
caller_at-LeftFlagged s a _ old = old

pub Reach-LeftFlagged :
    {n : ℕ} {memory : Store} {es : List Event} {s : System} → Reach n memory es s → LeftFlagged s
unfolding initial
Reach-LeftFlagged begin = λ w h. cc
Reach-LeftFlagged (later r (work w run)) =
    subst AllLeftFlagged run (worker_at-LeftFlagged _ w _ refl (Reach-LeftFlagged r))
Reach-LeftFlagged (later r (call a ok run)) =
    subst AllLeftFlagged run (caller_at-LeftFlagged _ a _ (Reach-LeftFlagged r))
Reach-LeftFlagged (later r (submit job at nonnull unused)) = Reach-LeftFlagged r
Reach-LeftFlagged (later r (stop at)) = Reach-LeftFlagged r
