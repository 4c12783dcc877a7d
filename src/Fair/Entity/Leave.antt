-- ===== src/Fair/Entity/Leave.antt =====
-- An entity that leaves a queue, from the tree or as the current one.
use osandroid_kernel.Prelude.{
  ℕ, ◌+◌, ◌^◌, ◌<◌, ◌≡◌, refl, sym, ap, ◌∙◌, Bool, true, false, Option, none, some, [], ◌∷◌, ◌++◌,
  ◌==◌, ==-refl, if◌then◌else◌, if_elim, arith,
}
use mathlib.Core.Path.{subst}
use osandroid_kernel.Prelude.Families.{put_at}
use osandroid_kernel.Fair.{in_order, is_node, RbTree, CfsRq, dequeue_entity}
use osandroid_kernel.Fair.Load.{SchedEntity}
use osandroid_kernel.Fair.Order.{IsQueue}
use osandroid_kernel.Fair.Dequeue.{dequeue_entity-IsQueue}
use osandroid_kernel.Fair.Entity.{FairRq, vruntimes, set_on_rq, put_queue, account_entity_dequeue}
use osandroid_kernel.Fair.Entity.Members.{
  sum_of, sum_of-append, sum_of-same, times_in, one_if, found_once, IsQueue-replace, current_of,
  members, IsFair,
}
use osandroid_kernel.Fair.Entity.Charge.{everywhere}
use osandroid_kernel.Fair.Entity.Join.{on_rq-time, on_rq-weight}

abbrev pub parted : (ℕ → SchedEntity) → ℕ → ℕ → SchedEntity
parted entity se = put_at se (record (entity se) { on_rq = false }) entity

module _ (base : ℕ) (s : FairRq) (se : ℕ) (fair : IsFair base s)
    (on : (s.entity se).on_rq ≡ true) where
  parted-on_rq :
      (x : ℕ) → one_if (s.entity x).on_rq ≡ one_if (se == x) + one_if (parted s.entity se x).on_rq
  parted-on_rq x = split (se == x) refl
    where
      split :
          (same : Bool)
          → (se == x) ≡ same
          → one_if (s.entity x).on_rq
            ≡ one_if same
              + one_if (if same then (record (s.entity se) { on_rq = false }) else s.entity x).on_rq
      split true e =
          let at : se ≡ x = ground (arith, e) in
          omega (arith, ap one_if (ap (λ y. (s.entity y).on_rq) (sym at) ∙ on))
      split false e = omega arith

  -- What a queue `q'` without the entity makes of the sums.
  abbrev pub Parts : CfsRq → Type 0
  Parts q' =
      (w : ℕ → ℕ)
      → sum_of w (members s)
        ≡ w se + sum_of w (current_of q'.curr (parted s.entity se) ++ in_order q'.tasks_timeline)

  pub parted-IsFair :
      (q' : CfsRq)
      → (s.entity se).load.weight < 2 ^ 64
      → IsQueue (vruntimes s.entity) base q'
      → Parts q'
      → IsFair base (account_entity_dequeue se (set_on_rq se false (put_queue q' s)))
  parted-IsFair q' small sorted sums =
      let (q, once, count, weight) = fair in
      let entity' = parted s.entity se in
      let es = current_of q'.curr entity' ++ in_order q'.tasks_timeline in
      let same =
        sum_of-same (λ e. (s.entity e).load.weight) (λ e. (entity' e).load.weight) es
          (everywhere (λ e. (s.entity e).load.weight ≡ (entity' e).load.weight) es
            (on_rq-weight s.entity se false)) in
      (
        IsQueue-replace (vruntimes s.entity) (vruntimes entity') base q'
            (everywhere (λ e. vruntimes s.entity e ≡ vruntimes entity' e)
              (in_order q'.tasks_timeline) (on_rq-time s.entity se false))
            sorted,
        λ x. omega (arith, sums (λ y. one_if (y == x)), once x, parted-on_rq x),
        omega (arith, count, sums (λ e. 1)),
        ground (
          arith,
          small,
          weight,
          same,
          sums (λ e. (s.entity e).load.weight),
          on_rq-weight s.entity se false se,
        ),
      )

  current-parted :
      (o : Option ℕ)
      → is_node se o ≡ false
      → (current_of o (parted s.entity se) ≡ current_of o s.entity)
        × (times_in se (current_of o s.entity) ≡ 0)
  current-parted none h = (refl, refl)
  current-parted (some c) h =
      let other : (se == c) ≡ false = ground (arith, h) in
      (
        rw other refl,
        if_elim (λ es. times_in se es ≡ 0) (s.entity c).on_rq (c ∷ []) []
            (omega (arith, ap one_if h)) refl,
      )

  pub current-leaves :
      (o : Option ℕ) (w : ℕ → ℕ)
      → is_node se o ≡ true
      → sum_of w (current_of o s.entity) ≡ w se + sum_of w (current_of o (parted s.entity se))
  current-leaves none w h = absurd (cc h)
  current-leaves (some c) w h =
      let at : se ≡ c = ground (arith, h) in
      subst
        (λ d.
          sum_of w (current_of (some d) s.entity)
          ≡ w se + sum_of w (current_of (some d) (parted s.entity se)))
        at (here w)
    where
      here :
          (w : ℕ → ℕ)
          → sum_of w (current_of (some se) s.entity)
            ≡ w se + sum_of w (current_of (some se) (parted s.entity se))
      here w = rw (==-refl se, on) (omega arith)

  -- An entity that is not the current one is once in the tree, and leaves it.
  pub out-Parts :
      (rb : RbTree)
      → is_node se s.queue.curr ≡ false
      → IsQueue (vruntimes s.entity) base (dequeue_entity rb se s.queue)
        × Parts (dequeue_entity rb se s.queue)
  unfolding dequeue_entity
  out-Parts rb h =
      let (q, once, count, weight) = fair in
      let (kept, none_there) = current-parted s.queue.curr h in
      let tree = in_order s.queue.tasks_timeline in
      let q' = dequeue_entity rb se s.queue in
      let (xs, ys, at, before, after) = found_once se tree (
        omega (
          arith,
          once se,
          ap one_if on,
          none_there,
          sum_of-append (λ x. one_if (x == se)) (current_of s.queue.curr s.entity) tree,
        )) in
      let (sorted, order) =
        dequeue_entity-IsQueue (vruntimes s.entity) base rb se s.queue xs ys q at before after in
      (
        sorted,
        λ w. omega (
          arith,
          sum_of-append w (current_of s.queue.curr s.entity) tree,
          sum_of-append w (current_of q'.curr (parted s.entity se)) (in_order q'.tasks_timeline),
          ap (sum_of w) kept,
          ap (sum_of w) at,
          ap (sum_of w) order,
          sum_of-append w xs (se ∷ ys),
          sum_of-append w xs ys,
        ),
      )
