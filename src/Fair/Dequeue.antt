-- ===== src/Fair/Dequeue.antt =====
-- An entity leaves the tree, and the cached node moves on when it was that one.
use osandroid_kernel.Prelude.{
  ℕ, ◌≤◌, ◌≡◌, ◌≢◌, refl, sym, ap, ◌∙◌, false, List, [], ◌∷◌, ◌++◌, ◌==◌, ==-refl, if◌then◌else◌,
  arith,
}
use mathlib.Core.Path.{subst}
use osandroid_kernel.Prelude.Lists.{All, All-append}
use osandroid_kernel.Fair.{
  in_order, without, first, following, RbTree, CfsRq, is_node, dequeue_entity,
}
use osandroid_kernel.Fair.Order.{since, InWindow, Sorted, IsQueue, All-left, All-right}

not_same : (a b : ℕ) → a ≢ b → (a == b) ≡ false
not_same a b h = ground arith

without-absent : (se : ℕ) (xs : List ℕ) → All (λ e. e ≢ se) xs → without se xs ≡ xs
without-absent se [] h = refl
without-absent se (x ∷ xs) h = rw (not_same x se h.0) (ap (λ t. x ∷ t) (without-absent se xs h.1))

without-once :
    (se : ℕ) (xs ys : List ℕ)
    → All (λ e. e ≢ se) xs
    → All (λ e. e ≢ se) ys
    → without se (xs ++ se ∷ ys) ≡ xs ++ ys
without-once se [] ys hx hy = rw (==-refl se) (without-absent se ys hy)
without-once se (x ∷ xs) ys hx hy =
    rw (not_same x se hx.0) (ap (λ t. x ∷ t) (without-once se xs ys hx.1 hy))

Sorted-without :
    (key : ℕ → ℕ) (se : ℕ) (xs ys : List ℕ) → Sorted key (xs ++ se ∷ ys) → Sorted key (xs ++ ys)
Sorted-without key se [] ys h = h.1
Sorted-without key se (x ∷ xs) ys h =
    let right = All-right (λ y. key x ≤ key y) xs (se ∷ ys) h.0 in
    (
      All-append (λ y. key x ≤ key y) xs ys (All-left (λ y. key x ≤ key y) xs (se ∷ ys) h.0)
          right.1,
      Sorted-without key se xs ys h.1,
    )

-- The cached node after an entity has left.
next_first :
    (se : ℕ) (xs ys : List ℕ)
    → All (λ e. e ≢ se) xs
    → (if is_node se (first (xs ++ se ∷ ys))
        then following se (xs ++ se ∷ ys)
        else first (xs ++ se ∷ ys))
      ≡ first (xs ++ ys)
next_first se [] ys h = rw (==-refl se) refl
next_first se (x ∷ xs) ys h = rw (not_same x se h.0) refl

-- Dequeueing an entity that stands once in the tree takes it out and leaves the others in their
-- order; the queue stays sorted with its first node cached, also when that was the entity.
pub dequeue_entity-IsQueue :
    (vruntime : ℕ → ℕ) (base : ℕ) (rb : RbTree) (se : ℕ) (q : CfsRq) (xs ys : List ℕ)
    → IsQueue vruntime base q
    → in_order q.tasks_timeline ≡ xs ++ se ∷ ys
    → All (λ e. e ≢ se) xs
    → All (λ e. e ≢ se) ys
    → IsQueue vruntime base (dequeue_entity rb se q)
      × (in_order (dequeue_entity rb se q).tasks_timeline ≡ xs ++ ys)
unfolding dequeue_entity
dequeue_entity-IsQueue vruntime base rb se q xs ys (sorted, near_all, cached) at hx hy =
    let t = q.tasks_timeline in
    let key : ℕ → ℕ = λ e. since base (vruntime e) in
    let near : ℕ → Type 0 = λ e. InWindow base (vruntime e) in
    let sorted' = subst (Sorted key) at sorted in
    let near' = subst (All near) at near_all in
    let right = All-right near xs (se ∷ ys) near' in
    let order = rb.in_order-erase se t ∙ ap (without se) at ∙ without-once se xs ys hx hy in
    (
      (
        subst (Sorted key) (sym order) (Sorted-without key se xs ys sorted'),
        subst (All near) (sym order)
            (All-append near xs ys (All-left near xs (se ∷ ys) near') right.1),
        ap (λ o. if is_node se o then rb.next se t else o) cached
            ∙ ap (λ n. if is_node se (first (in_order t)) then n else first (in_order t))
                (rb.next_lem se t)
            ∙ ap (λ l. if is_node se (first l) then following se l else first l) at
            ∙ next_first se xs ys hx
            ∙ ap first (sym order),
      ),
      order,
    )
