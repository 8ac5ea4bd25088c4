-- ===== src/WorkQueue/Flags/Linked.antt =====
-- The list of workers of src/workqueue.c, as its `next` links lead through it.
use jia_tuan_server.Common.{◌≡◌, ◌≢◌, ◌⊎◌, inl, inr, refl, sym, ap, subst, ◌∙◌, arith}
use jia_tuan_server.WorkQueue.Links.{Ptr, null, Store, Chained, ll_add}

-- The `next` links lead from an address to the node `v`.
pub data Linked (h : Store) (v : Ptr) : Ptr → Type 0 where
  here : {p : Ptr} → p ≢ null → p ≡ v → Linked h v p
  there : {p q : Ptr} → p ≢ null → (h p).next ≡ q → Linked h v q → Linked h v p

pub null-Linked : {h : Store} {v p : Ptr} → p ≡ null → ¬ Linked h v p
null-Linked e (here nonnull same) = nonnull e
null-Linked e (there nonnull next l) = nonnull e

-- The stores agree but for the node `w`, which is not on the list.
Linked-kept :
    (h g : Store) (w : Ptr) {v p : Ptr}
    → ((a : Ptr) → a ≢ w → (g a).next ≡ (h a).next)
    → ¬ Linked h w p
    → Linked h v p
    → Linked g v p
Linked-kept h g w same out (here nonnull e) = here nonnull e
Linked-kept h g w same out (there {p} nonnull next l) =
    there nonnull (same p (λ e. out (here nonnull e)) ∙ next)
      (Linked-kept h g w same (λ k. out (there nonnull next k)) l)

Linked-old :
    (h g : Store) (w : Ptr) {v p : Ptr}
    → ((a : Ptr) → a ≢ w → (g a).next ≡ (h a).next)
    → ¬ Linked h w p
    → Linked g v p
    → Linked h v p
Linked-old h g w same out (here nonnull e) = here nonnull e
Linked-old h g w same out (there {p} nonnull next l) =
    let next' = sym (same p (λ e. out (here nonnull e))) ∙ next in
    there nonnull next' (Linked-old h g w same (λ k. out (there nonnull next' k)) l)

ll_add-next : (w a : Ptr) (c : Chained) → a ≢ w → ((ll_add w c).store a).next ≡ (c.store a).next
unfolding ll_add
ll_add-next w a c other = ground arith

ll_add-first : (w : Ptr) (c : Chained) → ((ll_add w c).store w).next ≡ c.list
unfolding ll_add
ll_add-first w c = ground arith

ll_add-list : (w : Ptr) (c : Chained) → (ll_add w c).list ≡ w
unfolding ll_add
ll_add-list w c = refl

pub link-Linked :
    (w v : Ptr) (c : Chained)
    → w ≢ null
    → ¬ Linked c.store w c.list
    → (v ≡ w) ⊎ Linked c.store v c.list
    → Linked (ll_add w c).store v (ll_add w c).list
link-Linked w v c nonnull out (inl e) =
    subst (λ p. Linked (ll_add w c).store v p) (sym (ll_add-list w c)) (here nonnull (sym e))
link-Linked w v c nonnull out (inr l) =
    subst (λ p. Linked (ll_add w c).store v p) (sym (ll_add-list w c))
      (there nonnull (ll_add-first w c)
        (Linked-kept c.store (ll_add w c).store w (λ a. ll_add-next w a c) out l))

pub Linked-link :
    (w v : Ptr) (c : Chained)
    → ¬ Linked c.store w c.list
    → Linked (ll_add w c).store v (ll_add w c).list
    → (v ≡ w) ⊎ Linked c.store v c.list
Linked-link w v c out (here nonnull e) = inl (sym e ∙ ll_add-list w c)
Linked-link w v c out (there nonnull next l) = inr (
    Linked-old c.store (ll_add w c).store w (λ a. ll_add-next w a c) out
      (subst (λ p. Linked (ll_add w c).store v p)
        (sym next ∙ ap (λ p. ((ll_add w c).store p).next) (ll_add-list w c) ∙ ll_add-first w c) l))
