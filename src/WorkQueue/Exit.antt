-- ===== src/WorkQueue/Exit.antt =====
-- What follows the exit of a worker: `worker_function` of src/workqueue.c leaves its outer loop
-- with `jobs_mutex` locked.
use jia_tuan_server.Common.{
  ℕ, zero, suc, ◌≡◌, refl, subst, inl, inr, Bool, true, false, Option, none, some, List, [], ◌∷◌,
  arith, ◌==◌, update, Bool-cases,
}
use jia_tuan_server.WorkQueue.Links.{Ptr, null, Store}
use jia_tuan_server.WorkQueue.Machine.{
  Pc, unborn, start, loop, asleep, woken, check, leaving, running, exiting, gone, worker, Event,
  silent, init_returned, System, is_free, is_gone, faulted, CallerPc, idle, init_loop, init_link,
  add_lock, add_link, add_signal, add_unlock, stop_walk, stop_next, stop_lock, stop_clear,
  stop_broadcast, stop_unlock, Answer, Answers, caller_at, worker_at, Step, work, call, submit,
  stop, Reach,
}
use jia_tuan_server.WorkQueue.Invariant.{Inv, holds, caller_holds}
use jia_tuan_server.WorkQueue.Invariant.Reach.{Reach-Inv, Step-Inv}

-- The steps from one state to another, with their events, the last one first.
pub data Later (s : System) : List Event → System → Type 0 where
  now : Later s [] s
  after :
      {es : List Event} {t u : System} {e : Event} → Later s es t → Step t e u → Later s (e ∷ es) u

-- No job is added, taken or dropped.
abbrev pub is_idle_event : Event → Bool
is_idle_event silent = true
is_idle_event (init_returned c) = true
is_idle_event _ = false

abbrev pub AllIdle : List Event → Type 0
AllIdle [] = Unit
AllIdle (e ∷ es) = (is_idle_event e ≡ true) × AllIdle es

abbrev Stuck : Ptr → Option (Event × System) → Type 0
Stuck v none = Unit
Stuck v (some (e, t)) = (is_idle_event e ≡ true) × (t.pc v ≡ gone)

module _ {s : System} {xs : List Ptr} (inv : Inv s xs) (v : Ptr) (out : s.pc v ≡ gone) where
  owned : s.mutex ≡ worker v
  owned = inv.worker_lock v (rw out)

  -- The mutex is not free for the lock of any thread.
  not_free : is_free s.mutex ≡ false
  not_free = rw owned

  kept : (w : Ptr) (p q : Pc) → s.pc w ≡ p → is_gone p ≡ false → update s.pc w q v ≡ gone
  kept w p q at still = ground arith

  -- No other worker stands at a point at which the mutex is held.
  no_holder : (w : Ptr) (p : Pc) → s.pc w ≡ p → is_gone p ≡ false → holds p ≡ false
  no_holder w p at still = ground (arith, owned, inv.worker_lock w)

  no_caller : caller_holds s.at ≡ false
  no_caller = ground (arith, owned, inv.caller_lock)

  worker_at-Stuck : (w : Ptr) (p : Pc) → s.pc w ≡ p → Stuck v (worker_at p w s)
  unfolding worker_at
  worker_at-Stuck w unborn at = tt
  worker_at-Stuck w start at = rw not_free tt
  worker_at-Stuck w loop at = absurd (ground (arith, no_holder w loop at refl))
  worker_at-Stuck w asleep at = (refl, kept w asleep woken at refl)
  worker_at-Stuck w woken at = rw not_free tt
  worker_at-Stuck w check at = absurd (ground (arith, no_holder w check at refl))
  worker_at-Stuck w (leaving job) at = absurd (ground (arith, no_holder w (leaving job) at refl))
  worker_at-Stuck w (running job) at = elim (Bool-cases (job == null)) [
    | inl e ↦ rw e (refl, kept w (running job) start at refl)
    | inr e ↦ rw e (refl, kept w (running job) start at refl)
  ]
  worker_at-Stuck w exiting at = absurd (ground (arith, no_holder w exiting at refl))
  worker_at-Stuck w gone at = tt

  caller_at-Stuck :
      (a : Answer) (p : CallerPc) → s.at ≡ p → Answers p a s → Stuck v (caller_at p a s)
  unfolding caller_at
  caller_at-Stuck a idle at ok = tt
  caller_at-Stuck a (init_loop zero) at ok = (refl, out)
  caller_at-Stuck a (init_loop (suc left)) at ok = elim (Bool-cases (a.address == null)) [
    | inl e ↦ rw e (refl, out)
    | inr e ↦ elim (Bool-cases a.created) [
      | inl c ↦ rw (e, c) (refl, ground arith)
      | inr c ↦ rw (e, c) (refl, out)
    ]
  ]
  caller_at-Stuck a (init_link w left) at ok = (refl, out)
  caller_at-Stuck a (add_lock job) at ok = rw not_free tt
  caller_at-Stuck a (add_link job) at ok = absurd (ground (arith, no_caller))
  caller_at-Stuck a add_signal at ok = absurd (ground (arith, no_caller))
  caller_at-Stuck a add_unlock at ok = absurd (ground (arith, no_caller))
  caller_at-Stuck a (stop_walk w) at ok = elim (Bool-cases (w == null)) [
    | inl e ↦ rw e (refl, out)
    | inr e ↦ elim (Bool-cases (is_gone (s.pc w))) [
      | inl g ↦ rw (e, g) (refl, out)
      | inr g ↦ rw (e, g) (refl, out)
    ]
  ]
  caller_at-Stuck a (stop_next w) at ok = elim (Bool-cases (is_gone (s.pc w))) [
    | inl g ↦ rw g (refl, out)
    | inr g ↦ rw g (refl, out)
  ]
  caller_at-Stuck a faulted at ok = tt
  caller_at-Stuck a stop_lock at ok = rw not_free tt
  caller_at-Stuck a stop_clear at ok = absurd (ground (arith, no_caller))
  caller_at-Stuck a stop_broadcast at ok = absurd (ground (arith, no_caller))
  caller_at-Stuck a stop_unlock at ok = absurd (ground (arith, no_caller))

Step-Stuck :
    {s t : System} {e : Event} {xs : List Ptr} (v : Ptr)
    → Inv s xs
    → s.pc v ≡ gone
    → Step s e t
    → (is_idle_event e ≡ true) × (t.pc v ≡ gone)
Step-Stuck v inv out (work w run) = subst (Stuck v) run (worker_at-Stuck inv v out w _ refl)
Step-Stuck v inv out (call a ok run) = subst (Stuck v) run (caller_at-Stuck inv v out a _ refl ok)
Step-Stuck v inv out (submit job at nonnull unused) = (refl, out)
Step-Stuck v inv out (stop at) = (refl, out)

Later-Stuck :
    {s t : System} {es : List Event} {xs : List Ptr} (v : Ptr)
    → Inv s xs
    → s.pc v ≡ gone
    → Later s es t
    → AllIdle es × (t.pc v ≡ gone) × ((ys : List Ptr) × Inv t ys)
Later-Stuck {xs} v inv out now = (tt, out, (xs, inv))
Later-Stuck v inv out (after l step) =
    let (calm, out', (ys, inv')) = Later-Stuck v inv out l in
    let (calm', out'') = Step-Stuck v inv' out' step in
    let (zs, _, inv'') = Step-Inv ys step inv' in ((calm', calm), out'', (zs, inv''))

-- Once a worker `v` of a reachable state has exited, then in every later state `v` owns the mutex,
-- no other worker has exited, and no job has been added, taken or dropped in between.
pub exit_keeps_mutex :
    {n : ℕ} {memory : Store} {before es : List Event} {s t : System} (v : Ptr)
    → Reach n memory before s
    → s.pc v ≡ gone
    → Later s es t
    → AllIdle es × (t.mutex ≡ worker v) × ((w : Ptr) → t.pc w ≡ gone → w ≡ v)
exit_keeps_mutex v r out l =
    let (xs, _, inv) = Reach-Inv r in
    let (calm, out', (ys, inv')) = Later-Stuck v inv out l in
    let mine = owned inv' v out' in
    (calm, mine, λ w other. ground (arith, owned inv' w other, mine))
