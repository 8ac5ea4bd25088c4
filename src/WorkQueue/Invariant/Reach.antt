-- ===== src/WorkQueue/Invariant/Reach.antt =====
-- The invariant holds in every state that the threads of src/workqueue.c can reach.
use jia_tuan_server.Common.{
  ℕ, zero, suc, ◌≡◌, refl, subst, inl, inr, some, List, [], ◌∷◌, arith, ◌==◌, update, Bool-cases,
}
use jia_tuan_server.WorkQueue.Links.{Ptr, null, Store}
use jia_tuan_server.WorkQueue.Machine.{
  Pc, Event, System, is_free, wake, CallerPc, idle, init_loop, init_link, add_lock, add_link,
  add_signal, add_unlock, is_gone, faulted, stop_walk, stop_next, stop_lock, stop_clear,
  stop_broadcast, stop_unlock, Answer, Answers, caller_at, initial, Step, work, call, submit, stop,
  Reach, begin, later,
}
use jia_tuan_server.WorkQueue.Stack.{apply, replay, replay_step, replay_begin}
use jia_tuan_server.WorkQueue.Invariant.{Inv, Good}
use jia_tuan_server.WorkQueue.Invariant.Workers.{worker_at-Good, is_free→eq}
use jia_tuan_server.WorkQueue.Invariant.Callers.{
  wake-holds, SamePcs, pcs-Inv, at-Inv, caller_lock-Inv, caller_unlock-Inv, link-Inv, clear-Inv,
  flag-Inv, born-Inv, grow-Inv, submit-Inv,
}

wake_all : (pc : Ptr → Pc) → SamePcs pc (λ w. wake (pc w))
wake_all pc = record {
  same_holds = λ w. (wake-holds (pc w)).0;
  same_job = λ w. (wake-holds (pc w)).1;
  same_check = λ w. (wake-holds (pc w)).2;
}

wake_one : (pc : Ptr → Pc) (v : Ptr) → SamePcs pc (update pc v (wake (pc v)))
wake_one pc v = record {
  same_holds = λ w. ground (arith, (wake-holds (pc v)).0);
  same_job = λ w. ground (arith, (wake-holds (pc v)).1);
  same_check = λ w. ground (arith, (wake-holds (pc v)).2);
}

caller_at-Good :
    {s : System} {xs : List Ptr}
    → Inv s xs
    → (a : Answer) (p : CallerPc) → s.at ≡ p
    → Answers p a s
    → Good xs (caller_at p a s)
unfolding caller_at apply
caller_at-Good inv a idle here ok = tt
caller_at-Good {xs} inv a (init_loop zero) here ok =
    (xs, refl, at-Inv inv idle (rw here) (λ j h. cc))
caller_at-Good {s} {xs} inv a (init_loop (suc left)) here ok =
    elim (Bool-cases (a.address == null)) [
      | inl e ↦ rw e (xs, refl, at-Inv inv idle (rw here) (λ j h. cc))
      | inr e ↦ elim (Bool-cases a.created) [
        | inl c ↦ rw (e, c) (xs, refl, born-Inv inv a.address left here ok)
        | inr c ↦ rw (e, c) (xs, refl, at-Inv inv idle (rw here) (λ j h. cc))
      ]
    ]
caller_at-Good {xs} inv a (init_link w left) here ok = (xs, refl, grow-Inv inv w left here)
caller_at-Good {s} {xs} inv a (add_lock job) here ok = elim (Bool-cases (is_free s.mutex)) [
  | inl e ↦
      rw e (
        xs,
        refl,
        caller_lock-Inv inv (add_link job) (is_free→eq s.mutex e) refl (λ j h. rw here h),
      )
  | inr e ↦ rw e tt
]
caller_at-Good {xs} inv a (add_link job) here ok = (job ∷ xs, refl, link-Inv inv job here)
caller_at-Good {s} {xs} inv a add_signal here ok =
    (xs, refl, at-Inv (pcs-Inv inv _ (wake_one s.pc a.address)) add_unlock (rw here) (λ j h. cc))
caller_at-Good {xs} inv a add_unlock here ok = (xs, refl, caller_unlock-Inv inv (rw here))
caller_at-Good {s} {xs} inv a (stop_walk w) here ok = elim (Bool-cases (w == null)) [
  | inl e ↦ rw e (xs, refl, at-Inv inv stop_lock (rw here) (λ j h. cc))
  | inr e ↦ elim (Bool-cases (is_gone (s.pc w))) [
    | inl g ↦ rw (e, g) (xs, refl, at-Inv inv faulted (rw here) (λ j h. cc))
    | inr g ↦ rw (e, g) (xs, refl, flag-Inv inv w here)
  ]
]
caller_at-Good {s} {xs} inv a (stop_next w) here ok = elim (Bool-cases (is_gone (s.pc w))) [
  | inl g ↦ rw g (xs, refl, at-Inv inv faulted (rw here) (λ j h. cc))
  | inr g ↦ rw g (xs, refl, at-Inv inv (stop_walk (s.workers.store w).next) (rw here) (λ j h. cc))
]
caller_at-Good inv a faulted here ok = tt
caller_at-Good {s} {xs} inv a stop_lock here ok = elim (Bool-cases (is_free s.mutex)) [
  | inl e ↦ rw e (xs, refl, caller_lock-Inv inv stop_clear (is_free→eq s.mutex e) refl (λ j h. cc))
  | inr e ↦ rw e tt
]
caller_at-Good inv a stop_clear here ok = ([], refl, clear-Inv inv here)
caller_at-Good {s} {xs} inv a stop_broadcast here ok =
    (xs, refl, at-Inv (pcs-Inv inv _ (wake_all s.pc)) stop_unlock (rw here) (λ j h. cc))
caller_at-Good {xs} inv a stop_unlock here ok = (xs, refl, caller_unlock-Inv inv (rw here))

-- Every step keeps the invariant, and does to the list what the stack does at its event.
pub Step-Inv :
    {s t : System} {e : Event} (xs : List Ptr)
    → Step s e t
    → Inv s xs
    → (ys : List Ptr) × (apply e xs ≡ some ys) × Inv t ys
unfolding apply
Step-Inv xs (work w run) inv = subst (Good xs) run (worker_at-Good inv w _ refl)
Step-Inv xs (call a ok run) inv = subst (Good xs) run (caller_at-Good inv a _ refl ok)
Step-Inv xs (submit job here nonnull unused) inv =
    (xs, refl, submit-Inv inv job here nonnull unused)
Step-Inv xs (stop here) inv = (xs, refl, at-Inv inv _ (rw here) (λ j h. cc))

initial-Inv : (n : ℕ) (memory : Store) → Inv (initial n memory) []
unfolding initial
initial-Inv n memory = record {
  chain = refl;
  worker_lock = λ v h. cc;
  caller_lock = λ h. cc;
  worker_owner = λ v h. cc;
  caller_owner = λ h. cc;
  stocked = λ v h. cc;
  waiting_live = λ j h. cc;
  taken_live = λ v j h. cc;
  taken_unique = λ u v j h k. cc;
  offer = λ j h. cc;
}

-- In every reachable state the events make a stack, whose jobs the list holds.
pub Reach-Inv :
    {n : ℕ} {memory : Store} {es : List Event} {s : System}
    → Reach n memory es s
    → (xs : List Ptr) × (replay es ≡ some xs) × Inv s xs
Reach-Inv {n} {memory} begin = ([], replay_begin, initial-Inv n memory)
Reach-Inv (later {es} {e} r step) =
    let (xs, old, inv) = Reach-Inv r in
    let (ys, next, inv') = Step-Inv xs step inv in (ys, replay_step e es xs ys old next, inv')
