-- ===== src/WorkQueue/Invariant/Callers.antt =====
-- A step of the thread that calls the functions of src/workqueue.h keeps the invariant.
use jia_tuan_server.Common.{
  ℕ, suc, ◌≡◌, refl, sym, ◌∙◌, ◌≢◌, inl, true, false, some, List, [], ◌∷◌, arith, update,
}
use jia_tuan_server.WorkQueue.Links.{Ptr, null, ll_add}
use jia_tuan_server.WorkQueue.Links.Head.{ll_add-IsChain}
use jia_tuan_server.WorkQueue.Machine.{
  Pc, start, asleep, free, caller, System, is_unborn, wake, CallerPc, idle, init_loop, init_link,
  add_lock, add_link, add_signal, stop_walk, stop_next, stop_clear, stop_broadcast,
}
use jia_tuan_server.WorkQueue.Invariant.{Inv, holds, caller_holds, offered, job_of, is_check}

pub wake-holds :
    (p : Pc)
    → (holds (wake p) ≡ holds p) × (job_of (wake p) ≡ job_of p) × (is_check (wake p) ≡ is_check p)
wake-holds asleep = (refl, refl, refl)
wake-holds _ = (refl, refl, refl)

-- What the invariant says of the workers' points.
pub record SamePcs (pc pc' : Ptr → Pc) : Type 0 where
  pub same_holds : (w : Ptr) → holds (pc' w) ≡ holds (pc w)
  pub same_job : (w : Ptr) → job_of (pc' w) ≡ job_of (pc w)
  pub same_check : (w : Ptr) → is_check (pc' w) ≡ is_check (pc w)

module _ {s : System} {xs : List Ptr} (inv : Inv s xs) where
  open inv use {worker_lock, worker_owner, stocked, taken_live, taken_unique, offer}

  pub pcs-Inv : (pc : Ptr → Pc) → SamePcs s.pc pc → Inv (record s { pc = pc }) xs
  pcs-Inv pc same = record {
    chain = inv.chain;
    worker_lock = λ v h. worker_lock v (sym (same.same_holds v) ∙ h);
    caller_lock = inv.caller_lock;
    worker_owner = λ v h. same.same_holds v ∙ worker_owner v h;
    caller_owner = inv.caller_owner;
    stocked = λ v h. stocked v (sym (same.same_check v) ∙ h);
    waiting_live = inv.waiting_live;
    taken_live = λ v j h. taken_live v j (sym (same.same_job v) ∙ h);
    taken_unique =
        λ u v j h k. taken_unique u v j (sym (same.same_job u) ∙ h) (sym (same.same_job v) ∙ k);
    offer =
        λ j h. let (a, b, c, d) = offer j h in (a, b, c, λ v k. d v (sym (same.same_job v) ∙ k));
  }

  -- A move of the caller that leaves the rest as it is.
  pub at-Inv :
      (p : CallerPc)
      → caller_holds p ≡ caller_holds s.at
      → ((j : Ptr) → offered p ≡ some j → offered s.at ≡ some j)
      → Inv (record s { at = p }) xs
  at-Inv p same offers = record {
    chain = inv.chain;
    worker_lock = worker_lock;
    caller_lock = λ h. inv.caller_lock (sym same ∙ h);
    worker_owner = worker_owner;
    caller_owner = λ h. same ∙ inv.caller_owner h;
    stocked = stocked;
    waiting_live = inv.waiting_live;
    taken_live = taken_live;
    taken_unique = taken_unique;
    offer = λ j h. offer j (offers j h);
  }

  pub caller_lock-Inv :
      (p : CallerPc)
      → s.mutex ≡ free
      → caller_holds p ≡ true
      → ((j : Ptr) → offered p ≡ some j → offered s.at ≡ some j)
      → Inv (record s { mutex = caller; at = p }) xs
  caller_lock-Inv p is held offers = record {
    chain = inv.chain;
    worker_lock = λ v h. ground (arith, worker_lock v);
    caller_lock = λ h. refl;
    worker_owner = λ v h. cc;
    caller_owner = λ h. held;
    stocked = stocked;
    waiting_live = inv.waiting_live;
    taken_live = taken_live;
    taken_unique = taken_unique;
    offer = λ j h. offer j (offers j h);
  }

  pub caller_unlock-Inv : caller_holds s.at ≡ true → Inv (record s { mutex = free; at = idle }) xs
  caller_unlock-Inv held = record {
    chain = inv.chain;
    worker_lock = λ v h. ground (arith, worker_lock v, inv.caller_lock);
    caller_lock = λ h. cc;
    worker_owner = λ v h. cc;
    caller_owner = λ h. cc;
    stocked = stocked;
    waiting_live = inv.waiting_live;
    taken_live = taken_live;
    taken_unique = taken_unique;
    offer = λ j h. cc;
  }

  pub link-Inv :
      (job : Ptr)
      → s.at ≡ add_link job
      → Inv (record s { jobs = ll_add job s.jobs; at = add_signal }) (job ∷ xs)
  link-Inv job here =
      let (nonnull, alive, out, untaken) = offer job (rw here) in
      let held = inv.caller_lock (rw here) in
      let chain = ll_add-IsChain job s.jobs xs nonnull out inv.chain in
      record {
        chain = chain;
        worker_lock = worker_lock;
        caller_lock = λ h. held;
        worker_owner = worker_owner;
        caller_owner = λ h. refl;
        stocked = λ v h. inl (λ e. nonnull (sym chain.0 ∙ e));
        waiting_live = λ j h. ground (arith, inv.waiting_live j);
        taken_live = λ v j h. ground (arith, taken_live v j, untaken v);
        taken_unique = taken_unique;
        offer = λ j h. cc;
      }

  pub clear-Inv :
      s.at ≡ stop_clear
      → Inv
          (record s {
            workers = record { store = s.workers.store; list = null };
            jobs = record { store = s.jobs.store; list = null };
            at = stop_broadcast;
          })
          []
  clear-Inv here =
      let held = inv.caller_lock (rw here) in
      record {
        chain = refl;
        worker_lock = worker_lock;
        caller_lock = λ h. held;
        worker_owner = worker_owner;
        caller_owner = λ h. refl;
        stocked = λ v h. ground (arith, worker_lock v, held);
        waiting_live = λ j h. cc;
        taken_live = λ v j h. ground (arith, taken_live v j);
        taken_unique = taken_unique;
        offer = λ j h. cc;
      }

  -- The flag that `workqueue_shutdown` writes without the mutex.
  pub flag-Inv :
      (w : Ptr)
      → s.at ≡ stop_walk w
      → Inv (record s { terminate = update s.terminate w true; at = stop_next w }) xs
  flag-Inv w here = record {
    chain = inv.chain;
    worker_lock = worker_lock;
    caller_lock = λ h. cc;
    worker_owner = worker_owner;
    caller_owner = λ h. ground (arith, inv.caller_owner h);
    stocked = λ v h. ground (arith, stocked v);
    waiting_live = inv.waiting_live;
    taken_live = taken_live;
    taken_unique = taken_unique;
    offer = λ j h. cc;
  }

  -- A thread starts.
  pub born-Inv :
      (w : Ptr) (left : ℕ)
      → s.at ≡ init_loop (suc left)
      → is_unborn (s.pc w) ≡ true
      → Inv (record s { pc = update s.pc w start; at = init_link w left }) xs
  born-Inv w left here fresh = record {
    chain = inv.chain;
    worker_lock = λ v h. ground (arith, worker_lock v);
    caller_lock = λ h. cc;
    worker_owner = λ v h. ground (arith, worker_owner v);
    caller_owner = λ h. ground (arith, inv.caller_owner h);
    stocked = λ v h. ground (arith, stocked v);
    waiting_live = inv.waiting_live;
    taken_live = λ v j h. ground (arith, taken_live v j);
    taken_unique = λ u v j h k. ground (arith, taken_unique u v j);
    offer = λ j h. cc;
  }

  pub grow-Inv :
      (w : Ptr) (left : ℕ)
      → s.at ≡ init_link w left
      → Inv (record s { workers = ll_add w s.workers; at = init_loop left }) xs
  grow-Inv w left here = record {
    chain = inv.chain;
    worker_lock = worker_lock;
    caller_lock = λ h. cc;
    worker_owner = worker_owner;
    caller_owner = λ h. ground (arith, inv.caller_owner h);
    stocked = stocked;
    waiting_live = inv.waiting_live;
    taken_live = taken_live;
    taken_unique = taken_unique;
    offer = λ j h. cc;
  }

  -- The node that `on_accept` gets from `malloc`.
  pub submit-Inv :
      (job : Ptr)
      → s.at ≡ idle
      → job ≢ null
      → s.live job ≡ false
      → Inv (record s { at = add_lock job; live = update s.live job true }) xs
  submit-Inv job here nonnull unused = record {
    chain = inv.chain;
    worker_lock = worker_lock;
    caller_lock = λ h. cc;
    worker_owner = worker_owner;
    caller_owner = λ h. ground (arith, inv.caller_owner h);
    stocked = stocked;
    waiting_live = λ j h. ground (arith, inv.waiting_live j);
    taken_live = λ v j h. ground (arith, taken_live v j);
    taken_unique = taken_unique;
    offer = λ j h. (
      ground arith,
      ground arith,
      ground (arith, inv.waiting_live j),
      λ v k. ground (arith, taken_live v j),
    );
  }
