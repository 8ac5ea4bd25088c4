-- ===== src/WorkQueue/Links/Head.antt =====
-- LL_ADD and LL_REMOVE of src/workqueue.c at the head of a list: together they are a stack.
use jia_tuan_server.Common.{
  ◌≡◌, refl, ◌≢◌, true, false, List, [], ◌∷◌, arith, ◌==◌, ==_iff, if◌then◌else◌, has,
}
use jia_tuan_server.WorkQueue.Links.{
  Ptr, null, Store, Chained, ll_add, ll_remove, IsChain, Chain, Chain-frame,
}

-- LL_ADD writes only the node that it adds.
pub ll_add_frame : (item a : Ptr) (c : Chained) → a ≢ item → (ll_add item c).store a ≡ c.store a
unfolding ll_add
ll_add_frame item a c ne = ground arith

ne_of_has : (x a : Ptr) (xs : List Ptr) → has x xs ≡ false → has a xs ≡ true → a ≢ x
ne_of_has x a xs out mem = λ e. ground arith

-- LL_ADD of a node that is not in the list puts it in front.
pub ll_add-IsChain :
    (item : Ptr) (c : Chained) (xs : List Ptr)
    → item ≢ null
    → has item xs ≡ false
    → IsChain c xs
    → IsChain (ll_add item c) (item ∷ xs)
unfolding ll_add
ll_add-IsChain item c xs nonnull out chain = (
  refl,
  nonnull,
  ground arith,
  out,
  let old : (ll_add item c).store item ≡ record { prev = null; next = c.list } = ground arith in
      rw old (
        Chain-frame c.store (ll_add item c).store c.list xs chain
          (λ a i. ll_add_frame item a c (ne_of_has item a xs out i))),
)

-- LL_REMOVE of a node with no `prev`, before a node with no `prev`, writes only that node.
pub ll_remove_frame :
    (item a : Ptr) (c : Chained)
    → (c.store item).prev ≡ null
    → ((c.store item).next ≢ null → (c.store (c.store item).next).prev ≡ null)
    → a ≢ item
    → (ll_remove item c).store a ≡ c.store a
unfolding ll_remove
ll_remove_frame item a c back back' ne = ground arith

pub prev-null_of_Chain :
    (h : Store) (p : Ptr) (xs : List Ptr) → Chain h p xs → p ≢ null → (h p).prev ≡ null
prev-null_of_Chain h p [] e nonnull = absurd (nonnull e)
prev-null_of_Chain h p (x ∷ xs) (e, nonnull, back, out, rest) ne = rw e back

pub ll_remove-list :
    (item : Ptr) (c : Chained)
    → (c.store item).prev ≡ null
    → (ll_remove item c).list ≡ (if c.list == item then (c.store item).next else c.list)
unfolding ll_remove
ll_remove-list item c back = ground arith

-- LL_REMOVE clears the two links of the node.
pub ll_remove_clears :
    (item : Ptr) (c : Chained) → (ll_remove item c).store item ≡ record { prev = null; next = null }
unfolding ll_remove
ll_remove_clears item c = ground arith

-- LL_REMOVE of the head leaves the rest of the list.
pub ll_remove-IsChain :
    (item : Ptr) (c : Chained) (xs : List Ptr)
    → IsChain c (item ∷ xs)
    → IsChain (ll_remove item c) xs
ll_remove-IsChain item c xs (e, nonnull, back, out, rest) =
    rw (ll_remove-list item c back, (==_iff c.list item).1 e)
      (Chain-frame c.store (ll_remove item c).store (c.store item).next xs rest (λ a i.
        ll_remove_frame item a c back (prev-null_of_Chain c.store _ xs rest)
          (ne_of_has item a xs out i)))
