-- ===== src/WorkQueue/Flags/Workers.antt =====
-- The steps of the workers of src/workqueue.c leave the list of workers and the flags.
use jia_tuan_server.Common.{
  ◌≡◌, inl, inr, refl, false, Option, none, some, arith, ◌==◌, update, Bool-cases,
}
use jia_tuan_server.WorkQueue.Links.{Ptr, null}
use jia_tuan_server.WorkQueue.Machine.{
  Pc, unborn, start, loop, asleep, woken, check, leaving, running, exiting, gone, Event, System,
  is_free, is_unborn, worker_at,
}

-- A step of a worker changes neither the list nor the flags, and starts no thread.
abbrev pub Spares : System → Option (Event × System) → Type 0
Spares s none = Unit
Spares s (some (e, t)) =
    (t.workers ≡ s.workers)
    × (t.terminate ≡ s.terminate)
    × (t.at ≡ s.at)
    × ((v : Ptr) → is_unborn (t.pc v) ≡ is_unborn (s.pc v))

moved :
    (pc : Ptr → Pc) (w v : Ptr) (p q : Pc)
    → pc w ≡ p
    → is_unborn p ≡ false
    → is_unborn q ≡ false
    → is_unborn (update pc w q v) ≡ is_unborn (pc v)
moved pc w v p q at old new = ground arith

pub worker_at-Spares : (s : System) (w : Ptr) (p : Pc) → s.pc w ≡ p → Spares s (worker_at p w s)
unfolding worker_at
worker_at-Spares s w unborn at = tt
worker_at-Spares s w start at = elim (Bool-cases (is_free s.mutex)) [
  | inl e ↦ rw e (refl, refl, refl, λ v. moved s.pc w v start loop at refl refl)
  | inr e ↦ rw e tt
]
worker_at-Spares s w loop at = elim (Bool-cases (s.jobs.list == null)) [
  | inl e ↦ elim (Bool-cases (s.terminate w)) [
    | inl f ↦ rw (e, f) (refl, refl, refl, λ v. moved s.pc w v loop check at refl refl)
    | inr f ↦ rw (e, f) (refl, refl, refl, λ v. moved s.pc w v loop asleep at refl refl)
  ]
  | inr e ↦ rw e (refl, refl, refl, λ v. moved s.pc w v loop check at refl refl)
]
worker_at-Spares s w asleep at = (refl, refl, refl, λ v. moved s.pc w v asleep woken at refl refl)
worker_at-Spares s w woken at = elim (Bool-cases (is_free s.mutex)) [
  | inl e ↦ rw e (refl, refl, refl, λ v. moved s.pc w v woken loop at refl refl)
  | inr e ↦ rw e tt
]
worker_at-Spares s w check at = elim (Bool-cases (s.terminate w)) [
  | inl e ↦ rw e (refl, refl, refl, λ v. moved s.pc w v check exiting at refl refl)
  | inr e ↦ elim (Bool-cases (s.jobs.list == null)) [
    | inl f ↦
        rw (e, f) (refl, refl, refl, λ v. moved s.pc w v check (leaving s.jobs.list) at refl refl)
    | inr f ↦
        rw (e, f) (refl, refl, refl, λ v. moved s.pc w v check (leaving s.jobs.list) at refl refl)
  ]
]
worker_at-Spares s w (leaving job) at =
    (refl, refl, refl, λ v. moved s.pc w v (leaving job) (running job) at refl refl)
worker_at-Spares s w (running job) at = elim (Bool-cases (job == null)) [
  | inl e ↦ rw e (refl, refl, refl, λ v. moved s.pc w v (running job) start at refl refl)
  | inr e ↦ rw e (refl, refl, refl, λ v. moved s.pc w v (running job) start at refl refl)
]
worker_at-Spares s w exiting at = (refl, refl, refl, λ v. moved s.pc w v exiting gone at refl refl)
worker_at-Spares s w gone at = tt
