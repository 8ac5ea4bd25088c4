-- ===== src/WorkQueue/Links/Cut.antt =====
-- LL_REMOVE of src/workqueue.c behind the head of a list that LL_ADD built.
use jia_tuan_server.Common.{ℕ, ◌≡◌, refl, ◌≢◌, false, List, [], ◌∷◌, ◌++◌, arith, ◌==◌, has}
use jia_tuan_server.WorkQueue.Links.{Ptr, null, Store, Chained, ll_remove, IsChain, Chain}
use jia_tuan_server.WorkQueue.Links.Head.{
  prev-null_of_Chain, ll_remove_frame, ll_remove-list, ll_remove_clears,
}

has_middle :
    (a x : ℕ) (xs ys : List ℕ)
    → has a (xs ++ x ∷ ys) ≡ false
    → (a ≢ x) × (has a (xs ++ x ∷ []) ≡ false)
has_middle a x [] ys h = ground arith
has_middle a x (y ∷ xs) ys h = ground (arith, has_middle a x xs ys)

-- The part of a chain that starts at one of its nodes.
Chain-from :
    (h : Store) (p item : Ptr) (xs ys : List Ptr)
    → Chain h p (xs ++ item ∷ ys)
    → ((h item).prev ≡ null) × Chain h (h item).next ys
Chain-from h p item [] ys (e, nonnull, back, out, rest) = (back, rest)
Chain-from h p item (x ∷ xs) ys (e, nonnull, back, out, rest) =
    Chain-from h (h x).next item xs ys rest

-- A node with cleared links ends a chain.
Chain-cut :
    (h g : Store) (p item : Ptr) (xs ys : List Ptr)
    → Chain h p (xs ++ item ∷ ys)
    → ((a : Ptr) → a ≢ item → g a ≡ h a)
    → g item ≡ record { prev = null; next = null }
    → Chain g p (xs ++ item ∷ [])
Chain-cut h g p item [] ys (e, nonnull, back, out, rest) same cleared =
    (e, nonnull, rw cleared refl, refl, rw cleared refl)
Chain-cut h g p item (x ∷ xs) ys (e, nonnull, back, out, rest) same cleared =
    let (ne, out') = has_middle x item xs ys out in
    let here : g x ≡ h x = same x ne in
    (
      e,
      nonnull,
      rw here back,
      out',
      rw here (Chain-cut h g (h x).next item xs ys rest same cleared),
    )

-- On a list of two nodes or more that LL_ADD built, LL_REMOVE of a node behind the head does not
-- take the node out: the node stays as the last one, and all nodes behind it are lost.
pub ll_remove-cut :
    (c : Chained) (first item : Ptr) (xs ys : List Ptr)
    → IsChain c (first ∷ xs ++ item ∷ ys)
    → IsChain (ll_remove item c) (first ∷ xs ++ item ∷ [])
ll_remove-cut c first item xs ys chain =
    let (back, rest) = Chain-from c.store c.list item (first ∷ xs) ys chain in
    let back' = prev-null_of_Chain c.store (c.store item).next ys rest in
    let (ne, _) = has_middle first item xs ys chain.3 in
    let head : (c.list == item) ≡ false = ground arith in
    rw (ll_remove-list item c back, head)
      (Chain-cut c.store (ll_remove item c).store c.list item (first ∷ xs) ys chain
        (λ a other. ll_remove_frame item a c back back' other) (ll_remove_clears item c))
