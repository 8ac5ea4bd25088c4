-- ===== src/WorkQueue/Links.antt =====
-- The macros LL_ADD and LL_REMOVE of src/workqueue.c over an explicit store of list nodes.
pub mod Head
pub mod Cut
use jia_tuan_server.Common.{
  ℕ, ◌≡◌, ◌≢◌, true, false, List, [], ◌∷◌, arith, ◌==◌, if◌then◌else◌, has, update,
}

-- The address of a node; 0 is NULL.
abbrev pub Ptr : Type 0
Ptr = ℕ

abbrev pub null : Ptr
null = 0

-- The two link fields that `struct worker` and `struct job` share.
pub record Links : Type 0 where
  pub prev : Ptr
  pub next : Ptr

abbrev pub Store : Type 0
Store = Ptr → Links

-- A store with the variable `list` that a macro takes.
pub record Chained : Type 0 where
  pub store : Store
  pub list : Ptr

abbrev pub set_prev : Store → Ptr → Ptr → Store
set_prev h p v = update h p (record { prev = v; next = (h p).next })

abbrev pub set_next : Store → Ptr → Ptr → Store
set_next h p v = update h p (record { prev = (h p).prev; next = v })

-- LL_ADD: the old head is not made to point back at `item`.
unfoldable pub ll_add : Ptr → Chained → Chained
ll_add item c =
    let h1 = set_prev c.store item null in
    let h2 = set_next h1 item c.list in record { store = h2; list = item }

-- LL_REMOVE, one write after the other.
unfoldable pub ll_remove : Ptr → Chained → Chained
ll_remove item c =
    let h = c.store in
    let h1 : Store = if (h item).prev == null then h else set_next h (h item).prev (h item).next in
    let h2 : Store =
      if (h1 item).next == null then h1 else set_prev h1 (h1 item).next (h1 item).prev in
    let list = if c.list == item then (h2 item).next else c.list in
    record { store = set_prev (set_next h2 item null) item null; list = list }

-- From `p` the `next` links lead through the distinct nodes `xs` to NULL, and no node has a `prev`.
abbrev pub Chain : Store → Ptr → List Ptr → Type 0
Chain h p [] = p ≡ null
Chain h p (x ∷ xs) =
    (p ≡ x) × (x ≢ null) × ((h x).prev ≡ null) × (has x xs ≡ false) × Chain h (h x).next xs

abbrev pub IsChain : Chained → List Ptr → Type 0
IsChain c xs = Chain c.store c.list xs

-- A chain survives any change that spares its nodes.
pub Chain-frame :
    (h g : Store) (p : Ptr) (xs : List Ptr)
    → Chain h p xs
    → ((a : Ptr) → has a xs ≡ true → g a ≡ h a)
    → Chain g p xs
Chain-frame h g p [] c same = c
Chain-frame h g p (x ∷ xs) (e, nonnull, back, out, rest) same =
    let here : g x ≡ h x = same x (ground arith) in
    (
      e,
      nonnull,
      rw here back,
      out,
      rw here (Chain-frame h g (h x).next xs rest (λ a i. same a (ground arith))),
    )
