-- ===== src/WorkQueue/Stack.antt =====
-- What the work queue of src/workqueue.c promises: an atomic stack of jobs.
use jia_tuan_server.Common.{
  ℕ, ◌+◌, ◌≡◌, refl, Option, none, some, List, [], ◌∷◌, ap, arith, ◌==◌, if◌then◌else◌, count, inl,
  inr, Option-cases,
}
use jia_tuan_server.WorkQueue.Links.{Ptr}
use jia_tuan_server.WorkQueue.Machine.{Event, silent, init_returned, added, took, cleared}

-- One event on the jobs that wait, the newest first. `none`: the stack does not allow it.
unfoldable pub apply : Event → List Ptr → Option (List Ptr)
apply (added job) xs = some (job ∷ xs)
apply (took job) [] = none
apply (took job) (x ∷ xs) = if job == x then some xs else none
apply cleared xs = some []
apply _ xs = some xs

apply_to : Event → Option (List Ptr) → Option (List Ptr)
apply_to e none = none
apply_to e (some xs) = apply e xs

-- The jobs that wait after a run, from its events, the last one first.
unfoldable pub replay : List Event → Option (List Ptr)
unfolding apply apply_to
replay [] = some []
replay (e ∷ es) = apply_to e (replay es)

-- How often a job was added, was taken, and was thrown away by a `cleared`.
unfoldable pub times_added : Ptr → List Event → ℕ
times_added j [] = 0
times_added j (added i ∷ es) = (if j == i then 1 else 0) + times_added j es
times_added j (e ∷ es) = times_added j es

unfoldable pub times_taken : Ptr → List Event → ℕ
times_taken j [] = 0
times_taken j (took i ∷ es) = (if j == i then 1 else 0) + times_taken j es
times_taken j (e ∷ es) = times_taken j es

waiting : Option (List Ptr) → Ptr → ℕ
waiting none j = 0
waiting (some xs) j = count j xs

unfoldable pub times_dropped : Ptr → List Event → ℕ
unfolding waiting
times_dropped j [] = 0
times_dropped j (cleared ∷ es) = waiting (replay es) j + times_dropped j es
times_dropped j (e ∷ es) = times_dropped j es

pub replay_begin : replay [] ≡ some []
unfolding replay
replay_begin = refl

pub replay_step :
    (e : Event) (es : List Event) (xs ys : List Ptr)
    → replay es ≡ some xs
    → apply e xs ≡ some ys
    → replay (e ∷ es) ≡ some ys
unfolding replay apply_to
replay_step e es xs ys h k = rw h k

replay_before :
    (e : Event) (es : List Event) (ys : List Ptr)
    → replay (e ∷ es) ≡ some ys
    → (xs : List Ptr) × (replay es ≡ some xs) × (apply e xs ≡ some ys)
unfolding replay apply_to
replay_before e es ys h = elim (Option-cases (replay es)) [
  | inl lost ↦ absurd (not_some (rw lost at h))
  | inr (xs, old) ↦ (xs, old, rw old at h)
]
  where
    not_some : none ≡ some ys → ⊥
    not_some p = cc

apply-took : (j : Ptr) (xs ys : List Ptr) → apply (took j) xs ≡ some ys → xs ≡ j ∷ ys
unfolding apply
apply-took j [] ys h = ground arith
apply-took j (x ∷ xs) ys h = ground arith

count_step :
    (j : Ptr) (e : Event) (es : List Event) (xs ys : List Ptr)
    → replay es ≡ some xs
    → apply e xs ≡ some ys
    → times_added j es ≡ count j xs + times_taken j es + times_dropped j es
    → times_added j (e ∷ es) ≡ count j ys + times_taken j (e ∷ es) + times_dropped j (e ∷ es)
unfolding apply times_added times_taken times_dropped
count_step j (added i) es xs ys old h ih = ground arith
count_step j (took i) es xs ys old h ih =
    let shape : xs ≡ i ∷ ys = apply-took i xs ys h in ground (arith, ap (count j) shape)
count_step j cleared es xs ys old h ih = rw old (ground arith)
count_step j silent es xs ys old h ih = ground arith
count_step j (init_returned c) es xs ys old h ih = ground arith

count_begin :
    (j : Ptr) (xs : List Ptr)
    → replay [] ≡ some xs
    → times_added j [] ≡ count j xs + times_taken j [] + times_dropped j []
unfolding replay times_added times_taken times_dropped
count_begin j xs h = ground arith

-- Each job that was added waits, was taken, or was dropped: none is lost and none is taken twice.
pub balance :
    (j : Ptr) (es : List Event) (xs : List Ptr)
    → replay es ≡ some xs
    → times_added j es ≡ count j xs + times_taken j es + times_dropped j es
balance j [] xs h = count_begin j xs h
balance j (e ∷ es) xs h =
    let (old, before, step) = replay_before e es xs h in
    count_step j e es old xs before step (balance j es old before)
