-- ===== src/WorkQueue/Flags/Steps.antt =====
-- What the steps of the threads of src/workqueue.c do to the list of workers and to the flags.
use jia_tuan_server.Common.{
  ℕ, zero, suc, ◌≡◌, ◌≢◌, ◌⊎◌, inl, inr, refl, sym, subst, ◌∙◌, Bool, true, false, Option, none,
  some, List, arith, ◌==◌, update, Bool-cases,
}
use jia_tuan_server.WorkQueue.Links.{Ptr, null, Store, Chained}
use jia_tuan_server.WorkQueue.Machine.{
  Pc, start, Event, System, is_free, is_gone, faulted, is_unborn, wake, CallerPc, idle, init_loop,
  init_link, add_lock, add_link, add_signal, add_unlock, stop_walk, stop_next, stop_lock,
  stop_clear, stop_broadcast, stop_unlock, Answer, Answers, caller_at, initial, Step, work, call,
  submit, stop, Reach, begin, later,
}
use jia_tuan_server.WorkQueue.Flags.Linked.{
  Linked, here, there, null-Linked, link-Linked, Linked-link,
}
use jia_tuan_server.WorkQueue.Flags.Workers.{Spares, worker_at-Spares}

-- The workers that are still to be flagged are found from here.
abbrev pub Pending : CallerPc → Chained → Ptr → Type 0
Pending (init_link w left) c v = (v ≡ w) ⊎ Linked c.store v c.list
Pending (stop_walk w) c v = Linked c.store v w
Pending (stop_next w) c v = Linked c.store v (c.store w).next
Pending stop_lock c v = ⊥
Pending stop_clear c v = ⊥
Pending stop_broadcast c v = ⊥
Pending stop_unlock c v = ⊥
Pending faulted c v = Unit
Pending _ c v = Linked c.store v c.list

abbrev pub Started : (Ptr → Pc) → Ptr → Type 0
Started pc v = is_unborn (pc v) ≡ false

-- The list while `workqueue_init` builds it.
abbrev Growing : CallerPc → Chained → (Ptr → Pc) → Type 0
Growing (init_loop left) c pc = (v : Ptr) → Linked c.store v c.list → Started pc v
Growing (init_link w left) c pc =
    (w ≢ null)
    × (¬ Linked c.store w c.list)
    × Started pc w
    × ((v : Ptr) → Linked c.store v c.list → Started pc v)
Growing _ c pc = Unit

abbrev pub Known : CallerPc → System → Type 0
Known at s =
    ((v : Ptr) → Started s.pc v → (s.terminate v ≡ true) ⊎ Pending at s.workers v)
    × Growing at s.workers s.pc

Growing-pc :
    (at : CallerPc) (c : Chained) (pc pc' : Ptr → Pc)
    → ((v : Ptr) → is_unborn (pc' v) ≡ is_unborn (pc v))
    → Growing at c pc
    → Growing at c pc'
Growing-pc (init_loop left) c pc pc' same grows = λ v l. same v ∙ grows v l
Growing-pc (init_link w left) c pc pc' same (nonnull, out, born, grows) =
    (nonnull, out, same w ∙ born, λ v l. same v ∙ grows v l)
Growing-pc at c pc pc' same grows = tt

-- A step of the caller.
abbrev pub Keeps : Option (Event × System) → Type 0
Keeps none = Unit
Keeps (some (e, t)) = Known t.at t

wake-unborn : (p : Pc) → is_unborn (wake p) ≡ is_unborn p
wake-unborn p = ground arith

signalled-unborn :
    (pc : Ptr → Pc) (a v : Ptr) → is_unborn (update pc a (wake (pc a)) v) ≡ is_unborn (pc v)
signalled-unborn pc a v = ground (arith, wake-unborn (pc a))

-- The flag of the worker at which the walk stands.
flag_step :
    (flags : Ptr → Bool) (w v : Ptr) (c : Chained)
    → (flags v ≡ true) ⊎ Linked c.store v w
    → (update flags w true v ≡ true) ⊎ Linked c.store v (c.store w).next
flag_step flags w v c (inl f) = inl (ground arith)
flag_step flags w v c (inr (here nonnull e)) = inl (ground arith)
flag_step flags w v c (inr (there nonnull next l)) =
    inr (subst (λ p. Linked c.store v p) (sym next) l)

module _ (s : System) where
  Started-update : (w v : Ptr) → Started s.pc v → Started (update s.pc w start) v
  Started-update w v st = ground arith

  Started-old : (w v : Ptr) → Started (update s.pc w start) v → (v ≡ w) ⊎ Started s.pc v
  Started-old w v st = elim (Bool-cases (v == w)) [
    | inl e ↦ inl (ground arith)
    | inr e ↦ inr (ground arith)
  ]

  -- A new worker, in front of its link.
  created-Known :
      (w : Ptr) (left : ℕ)
      → s.at ≡ init_loop (suc left)
      → is_unborn (s.pc w) ≡ true
      → w ≢ null
      → Known (init_loop (suc left)) s
      → Known (init_link w left) (record s { pc = update s.pc w start; at = init_link w left })
  created-Known w left at fresh nonnull (flagged, grows) = (
    λ v st. elim (Started-old w v st) [
      | inl e ↦ inr (inl e)
      | inr old ↦ elim (flagged v old) [ inl f ↦ inl f | inr l ↦ inr (inr l) ]
    ],
    (
      nonnull,
      λ l. absurd (ground (arith, grows w l)),
      ground arith,
      λ v l. Started-update w v (grows v l),
    ),
  )

  caller_at-Keeps :
      (a : Answer) (p : CallerPc) → s.at ≡ p → Answers p a s → Known p s → Keeps (caller_at p a s)
  unfolding caller_at
  caller_at-Keeps a idle at ok known = tt
  caller_at-Keeps a (init_loop zero) at ok (flagged, grows) = (flagged, tt)
  caller_at-Keeps a (init_loop (suc left)) at ok (flagged, grows) =
      elim (Bool-cases (a.address == null)) [
        | inl e ↦ rw e (flagged, tt)
        | inr e ↦ elim (Bool-cases a.created) [
          | inl c ↦ rw (e, c) (created-Known a.address left at ok (ground arith) (flagged, grows))
          | inr c ↦ rw (e, c) (flagged, tt)
        ]
      ]
  caller_at-Keeps a (init_link w left) at ok (flagged, (nonnull, out, born, grows)) = (
    λ v st. elim (flagged v st) [
      | inl e ↦ inl e
      | inr l ↦ inr (link-Linked w v s.workers nonnull out l)
    ],
    λ v l. elim (Linked-link w v s.workers out l) [ inl e ↦ rw e born | inr k ↦ grows v k ],
  )
  caller_at-Keeps a (add_lock job) at ok (flagged, grows) = elim (Bool-cases (is_free s.mutex)) [
    | inl e ↦ rw e (flagged, tt)
    | inr e ↦ rw e tt
  ]
  caller_at-Keeps a (add_link job) at ok (flagged, grows) = (flagged, tt)
  caller_at-Keeps a add_signal at ok (flagged, grows) =
      (λ v st. flagged v (sym (signalled-unborn s.pc a.address v) ∙ st), tt)
  caller_at-Keeps a add_unlock at ok (flagged, grows) = (flagged, tt)
  caller_at-Keeps a (stop_walk w) at ok (flagged, grows) = elim (Bool-cases (w == null)) [
    | inl e ↦ rw e (
      λ v st. elim (flagged v st) [ inl f ↦ inl f | inr l ↦ absurd (null-Linked (ground arith) l) ],
      tt,
    )
    | inr e ↦ elim (Bool-cases (is_gone (s.pc w))) [
      | inl g ↦ rw (e, g) (λ v st. inr tt, tt)
      | inr g ↦ rw (e, g) (λ v st. flag_step s.terminate w v s.workers (flagged v st), tt)
    ]
  ]
  caller_at-Keeps a faulted at ok known = tt
  caller_at-Keeps a (stop_next w) at ok (flagged, grows) = elim (Bool-cases (is_gone (s.pc w))) [
    | inl g ↦ rw g (λ v st. inr tt, tt)
    | inr g ↦ rw g (flagged, tt)
  ]
  caller_at-Keeps a stop_lock at ok (flagged, grows) = elim (Bool-cases (is_free s.mutex)) [
    | inl e ↦ rw e (flagged, tt)
    | inr e ↦ rw e tt
  ]
  caller_at-Keeps a stop_clear at ok (flagged, grows) = (flagged, tt)
  caller_at-Keeps a stop_broadcast at ok (flagged, grows) =
      (λ v st. flagged v (sym (wake-unborn (s.pc v)) ∙ st), tt)
  caller_at-Keeps a stop_unlock at ok (flagged, grows) =
      (λ v st. elim (flagged v st) [ inl f ↦ inl f | inr none_left ↦ absurd none_left ], tt)

initial-Known : (n : ℕ) (memory : Store) → Known (initial n memory).at (initial n memory)
unfolding initial
initial-Known n memory = (λ v st. cc, λ v l. absurd (null-Linked refl l))

Step-Known : {s t : System} {e : Event} → Step s e t → Known s.at s → Known t.at t
Step-Known {s} {t} (work w run) known =
    let (same_list, same_flags, same_at, born) =
      subst (Spares s) run (worker_at-Spares s w (s.pc w) refl) in
    (
      λ v st.
          let before = known.0 v (sym (born v) ∙ st) in rw (same_flags, same_list, same_at) before,
      rw (same_list, same_at) (Growing-pc s.at s.workers s.pc t.pc born known.1),
    )
Step-Known {s} (call a ok run) known = subst Keeps run (caller_at-Keeps s a s.at refl ok known)
Step-Known {s} (submit job at nonnull unused) known =
    let idle_known = subst (λ p. Known p s) at known in (idle_known.0, tt)
Step-Known {s} (stop at) known =
    let idle_known = subst (λ p. Known p s) at known in (idle_known.0, tt)

pub Reach-Known :
    {n : ℕ} {memory : Store} {es : List Event} {s : System} → Reach n memory es s → Known s.at s
Reach-Known {n} {memory} begin = initial-Known n memory
Reach-Known (later r step) = Step-Known step (Reach-Known r)
