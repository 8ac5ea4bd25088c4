-- ===== src/WorkQueue/Flags.antt =====
-- The walk of `workqueue_shutdown` of src/workqueue.c over the list of workers that
-- `workqueue_init` has linked.
pub mod Linked
pub mod Workers
pub mod Steps
use jia_tuan_server.Common.{ℕ, ◌≡◌, ◌⊎◌, Bool, true, false, List, inl, inr, arith}
use jia_tuan_server.WorkQueue.Links.{Ptr, Store}
use jia_tuan_server.WorkQueue.Machine.{
  Event, System, is_unborn, CallerPc, stop_lock, stop_clear, stop_broadcast, stop_unlock, Reach,
}
use Steps.{Pending, Reach-Known}

-- `workqueue_shutdown` has walked the list, and has not returned.
abbrev pub has_walked : CallerPc → Bool
has_walked stop_lock = true
has_walked stop_clear = true
has_walked stop_broadcast = true
has_walked stop_unlock = true
has_walked _ = false

none-Pending :
    (p : CallerPc) (s : System) (w : Ptr)
    → has_walked p ≡ true
    → (s.terminate w ≡ true) ⊎ Pending p s.workers w
    → s.terminate w ≡ true
none-Pending p s w walked (inl flag) = flag
none-Pending stop_lock s w walked (inr left) = absurd left
none-Pending stop_clear s w walked (inr left) = absurd left
none-Pending stop_broadcast s w walked (inr left) = absurd left
none-Pending stop_unlock s w walked (inr left) = absurd left
none-Pending p s w walked (inr left) = cc

-- Let one thread call the functions of the header, one call at a time. In every reachable state in
-- which a call of workqueue_shutdown has walked its list to the end, with no access to a worker that
-- was freed meanwhile, up to its return, each worker whose thread was ever started has its flag
-- `terminate` set, in whatever order the threads took their steps, and also if workqueue_init gave
-- up half-way.
pub shutdown_flags_workers :
    {n : ℕ} {memory : Store} {es : List Event} {s : System} (w : Ptr)
    → Reach n memory es s
    → has_walked s.at ≡ true
    → is_unborn (s.pc w) ≡ false
    → s.terminate w ≡ true
shutdown_flags_workers {s} w r walked started =
    none-Pending s.at s w walked ((Reach-Known r).0 w started)
