-- ===== src/WorkQueue/Invariant/Workers.antt =====
-- A step of `worker_function` of src/workqueue.c keeps the invariant.
use jia_tuan_server.Common.{
  ◌≡◌, refl, sym, subst, ◌≢◌, ◌⊎◌, inl, inr, true, false, none, some, List, [], ◌∷◌, arith, ◌==◌,
  if◌then◌else◌, update, Bool-cases,
}
use jia_tuan_server.WorkQueue.Links.{Ptr, null, ll_remove}
use jia_tuan_server.WorkQueue.Links.Head.{ll_remove-IsChain}
use jia_tuan_server.WorkQueue.Machine.{
  Pc, unborn, start, loop, asleep, woken, check, leaving, running, exiting, gone, Owner, free,
  worker, silent, took, System, is_free, worker_at,
}
use jia_tuan_server.WorkQueue.Stack.{apply}
use jia_tuan_server.WorkQueue.Invariant.{Inv, Good, holds, job_of, is_check}

-- A move of a worker that leaves all else as it is, between points of one kind.
module _ {s : System} {xs : List Ptr} (inv : Inv s xs) (w : Ptr) where
  open inv use {worker_lock, worker_owner, stocked, taken_live, taken_unique, offer}

  move-Inv :
      (p : Pc)
      → holds p ≡ holds (s.pc w)
      → job_of p ≡ none
      → (is_check p ≡ true → (s.jobs.list ≢ null) ⊎ (s.terminate w ≡ true))
      → Inv (record s { pc = update s.pc w p }) xs
  move-Inv p same no_job ready = record {
    chain = inv.chain;
    worker_lock = λ v h. ground (arith, worker_lock v);
    caller_lock = inv.caller_lock;
    worker_owner = λ v h. ground (arith, worker_owner v);
    caller_owner = inv.caller_owner;
    stocked = λ v h. ground (arith, stocked v);
    waiting_live = inv.waiting_live;
    taken_live = λ v j h. ground (arith, taken_live v j);
    taken_unique = λ u v j h k. ground (arith, taken_unique u v j);
    offer = λ j h. let (a, b, c, d) = offer j h in (a, b, c, λ v. ground (arith, d v));
  }

  -- The lock of a free mutex.
  lock-Inv : s.mutex ≡ free → Inv (record s { mutex = worker w; pc = update s.pc w loop }) xs
  lock-Inv is = record {
    chain = inv.chain;
    worker_lock = λ v h. ground (arith, worker_lock v);
    caller_lock = λ h. ground (arith, inv.caller_lock h);
    worker_owner = λ v h. ground (arith, worker_owner v);
    caller_owner = λ h. ground arith;
    stocked = λ v h. ground (arith, stocked v);
    waiting_live = inv.waiting_live;
    taken_live = λ v j h. ground (arith, taken_live v j);
    taken_unique = λ u v j h k. ground (arith, taken_unique u v j);
    offer = λ j h. let (a, b, c, d) = offer j h in (a, b, c, λ v. ground (arith, d v));
  }

  -- The release of the mutex, to a point with the same job.
  unlock-Inv :
      (p : Pc)
      → holds (s.pc w) ≡ true
      → holds p ≡ false
      → is_check p ≡ false
      → job_of p ≡ job_of (s.pc w)
      → Inv (record s { mutex = free; pc = update s.pc w p }) xs
  unlock-Inv p held no_hold no_check same = record {
    chain = inv.chain;
    worker_lock = λ v h. ground (arith, worker_lock v, worker_lock w);
    caller_lock = λ h. ground (arith, inv.caller_lock h, worker_lock w);
    worker_owner = λ v h. ground arith;
    caller_owner = λ h. ground arith;
    stocked = λ v h. ground (arith, stocked v);
    waiting_live = inv.waiting_live;
    taken_live = λ v j h. ground (arith, taken_live v j, taken_live w j);
    taken_unique =
        λ u v j h k. ground (arith, taken_unique u v j, taken_unique w v j, taken_unique u w j);
    offer = λ j h. let (a, b, c, d) = offer j h in (a, b, c, λ v. ground (arith, d v, d w));
  }

  -- The end of a job, whose node is freed.
  finish-Inv :
      (job : Ptr)
      → s.pc w ≡ running job
      → Inv (record s { live = update s.live job false; pc = update s.pc w start }) xs
  finish-Inv job here = record {
    chain = inv.chain;
    worker_lock = λ v h. ground (arith, worker_lock v);
    caller_lock = inv.caller_lock;
    worker_owner = λ v h. ground (arith, worker_owner v);
    caller_owner = inv.caller_owner;
    stocked = λ v h. ground (arith, stocked v);
    waiting_live = λ j h. ground (arith, inv.waiting_live j h, taken_live w job);
    taken_live = λ v j h. ground (arith, taken_live v j, taken_unique v w job);
    taken_unique = λ u v j h k. ground (arith, taken_unique u v j);
    offer = λ j h.
        let (a, b, c, d) = offer j h in (a, ground (arith, b, d w), c, λ v. ground (arith, d v));
  }

take-Inv :
    {s : System} (job : Ptr) (xs : List Ptr)
    → Inv s (job ∷ xs)
    → (w : Ptr) → s.pc w ≡ check
    → Inv (record s { jobs = ll_remove job s.jobs; pc = update s.pc w (leaving job) }) xs
take-Inv {s} job xs inv w here = record {
  chain = ll_remove-IsChain job s.jobs xs inv.chain;
  worker_lock = λ v h. ground (arith, worker_lock v, worker_lock w);
  caller_lock = inv.caller_lock;
  worker_owner = λ v h. ground (arith, worker_owner v);
  caller_owner = inv.caller_owner;
  stocked = λ v h. ground (arith, worker_lock v, worker_lock w);
  waiting_live = λ j h. inv.waiting_live j (ground arith);
  taken_live =
      λ v j h. ground (arith, taken_live v j, inv.waiting_live job, inv.chain.1, inv.chain.3);
  taken_unique =
      λ u v j h k. ground (arith, taken_unique u v j, taken_live u job, taken_live v job);
  offer =
      λ j h. let (a, b, c, d) = offer j h in (a, b, ground (arith, c), λ v. ground (arith, d v, c));
}
  where
    open inv use {worker_lock, worker_owner, taken_live, taken_unique, offer}

pub is_free→eq : (o : Owner) → is_free o ≡ true → o ≡ free
is_free→eq free h = refl
is_free→eq _ h = cc

lock-Good :
    {s : System} {xs : List Ptr}
    → Inv s xs
    → (w : Ptr)
    → Good xs (
        if is_free s.mutex
        then some (silent, record s { mutex = worker w; pc = update s.pc w loop })
        else none)
unfolding apply
lock-Good {s} {xs} inv w = elim (Bool-cases (is_free s.mutex)) [
  | inl e ↦ rw e (xs, refl, lock-Inv inv w (is_free→eq s.mutex e))
  | inr e ↦ rw e tt
]

take-Good :
    {s : System} (xs : List Ptr)
    → Inv s xs
    → (w : Ptr) → s.pc w ≡ check
    → (s.jobs.list == null) ≡ false
    → Good xs (
        some (
          took s.jobs.list,
          record s {
            jobs = ll_remove s.jobs.list s.jobs;
            pc = update s.pc w (leaving s.jobs.list);
          },
        ))
unfolding apply
take-Good [] inv w here full = absurd (ground (arith, inv.chain))
take-Good {s} (x ∷ xs) inv w here full =
    let head : s.jobs.list ≡ x = inv.chain.0 in
    let inv' = subst (λ y. Inv s (y ∷ xs)) (sym head) inv in
    (xs, ground arith, take-Inv s.jobs.list xs inv' w here)

pub worker_at-Good :
    {s : System} {xs : List Ptr}
    → Inv s xs
    → (w : Ptr) (p : Pc) → s.pc w ≡ p
    → Good xs (worker_at p w s)
unfolding worker_at apply
worker_at-Good inv w unborn here = tt
worker_at-Good inv w start here = lock-Good inv w
worker_at-Good {s} {xs} inv w loop here = elim (Bool-cases (s.jobs.list == null)) [
  | inl e ↦ elim (Bool-cases (s.terminate w)) [
    | inl stop ↦ rw (e, stop) (xs, refl, move-Inv inv w check (rw here) refl (λ h. inr stop))
    | inr go ↦ rw (e, go) (xs, refl, unlock-Inv inv w asleep (rw here) refl refl (rw here))
  ]
  | inr e ↦ rw e (xs, refl, move-Inv inv w check (rw here) refl (λ h. inl (λ n. ground arith)))
]
worker_at-Good {s} {xs} inv w asleep here =
    (xs, refl, move-Inv inv w woken (rw here) refl (λ h. cc))
worker_at-Good inv w woken here = lock-Good inv w
worker_at-Good {s} {xs} inv w check here = elim (Bool-cases (s.terminate w)) [
  | inl stop ↦ rw stop (xs, refl, move-Inv inv w exiting (rw here) refl (λ h. cc))
  | inr go ↦ elim (Bool-cases (s.jobs.list == null)) [
    | inl e ↦ absurd (ground (arith, inv.stocked w))
    | inr e ↦ rw (go, e) (take-Good xs inv w here e)
  ]
]
worker_at-Good {s} {xs} inv w (leaving job) here =
    (xs, refl, unlock-Inv inv w (running job) (rw here) refl refl (rw here))
worker_at-Good {s} {xs} inv w (running job) here = elim (Bool-cases (job == null)) [
  | inl e ↦ absurd (ground (arith, inv.taken_live w job))
  | inr e ↦ rw e (xs, refl, finish-Inv inv w job here)
]
worker_at-Good {s} {xs} inv w exiting here =
    (xs, refl, move-Inv inv w gone (rw here) refl (λ h. cc))
worker_at-Good inv w gone here = tt
