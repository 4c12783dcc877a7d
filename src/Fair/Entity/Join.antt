-- ===== src/Fair/Entity/Join.antt =====
-- An entity that joins a queue, as the current one or into the tree.
use osandroid_kernel.Prelude.{
  ℕ, ◌+◌, ◌%◌, ◌^◌, ◌<◌, ◌≡◌, refl, sym, ap, ◌∙◌, Bool, true, false, Option, none, some, List, ◌++◌,
  ◌==◌, ==-refl, if◌then◌else◌, arith,
}
use mathlib.Core.Path.{subst}
use osandroid_kernel.Prelude.Families.{put_at}
use osandroid_kernel.Fair.{in_order, is_node, RbTree, CfsRq, enqueue_entity}
use osandroid_kernel.Fair.Load.{LoadWeight, SchedEntity, Tunables}
use osandroid_kernel.Fair.Order.{since, InWindow, IsQueue, enqueue_entity-IsQueue}
use osandroid_kernel.Fair.Entity.{FairRq, vruntimes, set_vruntime, set_on_rq, into_tree}
use osandroid_kernel.Fair.Entity.Members.{
  sum_of, sum_of-append, sum_of-same, sum_of-insert, times_in, one_if, IsQueue-replace, current_of,
  members, IsFair,
}
use osandroid_kernel.Fair.Entity.Charge.{everywhere, IsFair-Alike, put-Alike, put-IsQueue}

-- An entity off the queue is not in the tree.
pub off_tree :
    (base : ℕ) (s : FairRq) (se : ℕ)
    → IsFair base s
    → (s.entity se).on_rq ≡ false
    → times_in se (in_order s.queue.tasks_timeline) ≡ 0
off_tree base s se (q, once, nr, load) off = omega (
  arith,
  once se,
  ap one_if off,
  sum_of-append (λ x. one_if (x == se)) (current_of s.queue.curr s.entity)
      (in_order s.queue.tasks_timeline),
)

pub set_vruntime-IsFair :
    (base : ℕ) (s : FairRq) (se v : ℕ)
    → IsFair base s
    → times_in se (in_order s.queue.tasks_timeline) ≡ 0
    → IsFair base (set_vruntime se v s)
set_vruntime-IsFair base s se v fair out =
    let e = record (s.entity se) { vruntime = v } in
    IsFair-Alike base s (set_vruntime se v s) fair (put-Alike se e s.entity refl refl) refl refl
      refl refl (put-IsQueue base se e s.entity s out fair.0)

-- Whether an entity is on the queue does not change its time.
pub on_rq-time :
    (entity : ℕ → SchedEntity) (se : ℕ) (b : Bool) (x : ℕ)
    → vruntimes entity x ≡ vruntimes (put_at se (record (entity se) { on_rq = b }) entity) x
on_rq-time entity se b x = split (se == x) refl
  where
    split :
        (same : Bool)
        → (se == x) ≡ same
        → (entity x).vruntime
          ≡ (if same then (record (entity se) { on_rq = b }) else entity x).vruntime
    split true e = let at : se ≡ x = ground (arith, e) in ap (vruntimes entity) (sym at)
    split false e = refl

pub on_rq-weight :
    (entity : ℕ → SchedEntity) (se : ℕ) (b : Bool) (x : ℕ)
    → (entity x).load.weight ≡ (put_at se (record (entity se) { on_rq = b }) entity x).load.weight
on_rq-weight entity se b x = split (se == x) refl
  where
    split :
        (same : Bool)
        → (se == x) ≡ same
        → (entity x).load.weight
          ≡ (if same then (record (entity se) { on_rq = b }) else entity x).load.weight
    split true e = let at : se ≡ x = ground (arith, e) in ap (λ y. (entity y).load.weight) (sym at)
    split false e = refl

-- `p` is a fair queue but for its count and load, which take in an entity that is to join.
module _ (base : ℕ) (p : FairRq) (n : ℕ) (l : LoadWeight) (se : ℕ)
    (fair : IsFair base (record p { nr_running = n; load = l })) (nr : p.nr_running ≡ n + 1)
    (load : p.load.weight ≡ (l.weight + (p.entity se).load.weight) % 2 ^ 64)
    (off : (p.entity se).on_rq ≡ false) where
  abbrev joined : ℕ → SchedEntity
  joined = put_at se (record (p.entity se) { on_rq = true }) p.entity

  joined-on_rq : (x : ℕ) → one_if (joined x).on_rq ≡ one_if (se == x) + one_if (p.entity x).on_rq
  joined-on_rq x = split (se == x) refl
    where
      split :
          (same : Bool)
          → (se == x) ≡ same
          → one_if (if same then (record (p.entity se) { on_rq = true }) else p.entity x).on_rq
            ≡ one_if same + one_if (p.entity x).on_rq
      split true e =
          let at : se ≡ x = ground (arith, e) in
          omega (arith, ap one_if (ap (λ y. (p.entity y).on_rq) (sym at) ∙ off))
      split false e = omega arith

  joined-IsFair :
      (q' : CfsRq)
      → IsQueue (vruntimes p.entity) base q'
      → ((w : ℕ → ℕ)
          → sum_of w (current_of q'.curr joined ++ in_order q'.tasks_timeline)
            ≡ w se + sum_of w (members p))
      → IsFair base (record p { entity = joined; queue = q' })
  joined-IsFair q' sorted sums =
      let (q, once, count, weight) = fair in
      let es = current_of q'.curr joined ++ in_order q'.tasks_timeline in
      let same =
        sum_of-same (λ e. (p.entity e).load.weight) (λ e. (joined e).load.weight) es
          (everywhere (λ e. (p.entity e).load.weight ≡ (joined e).load.weight) es
            (on_rq-weight p.entity se true)) in
      (
        IsQueue-replace (vruntimes p.entity) (vruntimes joined) base q'
            (everywhere (λ e. vruntimes p.entity e ≡ vruntimes joined e)
              (in_order q'.tasks_timeline) (on_rq-time p.entity se true))
            sorted,
        λ x. omega (arith, sums (λ y. one_if (y == x)), once x, joined-on_rq x),
        omega (arith, nr, count, sums (λ e. 1)),
        omega (arith, load, weight, same, sums (λ e. (p.entity e).load.weight)),
      )

  current-joined :
      (o : Option ℕ) → is_node se o ≡ false → current_of o joined ≡ current_of o p.entity
  current-joined none h = refl
  current-joined (some c) h = let other : (se == c) ≡ false = ground (arith, h) in rw other refl

  -- The current entity joins as such.
  current-sums :
      (o : Option ℕ) (w : ℕ → ℕ)
      → is_node se o ≡ true
      → sum_of w (current_of o joined) ≡ w se + sum_of w (current_of o p.entity)
  current-sums none w h = absurd (cc h)
  current-sums (some c) w h =
      let at : se ≡ c = ground (arith, h) in
      subst
        (λ d.
          sum_of w (current_of (some d) joined) ≡ w se + sum_of w (current_of (some d) p.entity))
        at (here w)
    where
      here :
          (w : ℕ → ℕ)
          → sum_of w (current_of (some se) joined) ≡ w se + sum_of w (current_of (some se) p.entity)
      here w = rw (==-refl se, off) (omega arith)

  module _ (fits : base < 2 ^ 64) (rb : RbTree) (t : Tunables) (start_debit gentle : Bool)
      (near : InWindow base (p.entity se).vruntime) where
    -- One entity more, whatever is summed.
    abbrev pub Joined : FairRq → Type 0
    Joined f = (w : ℕ → ℕ) → sum_of w (members f) ≡ w se + sum_of w (members p)

    pub join-IsFair :
        let f =
          set_on_rq se true
            (if is_node se p.queue.curr then p else into_tree rb t start_debit gentle se p) in
        IsFair base f × Joined f
    unfolding enqueue_entity
    join-IsFair = split (is_node se p.queue.curr) refl
      where
        tree : List ℕ
        tree = in_order p.queue.tasks_timeline

        split :
            (b : Bool)
            → is_node se p.queue.curr ≡ b
            → let f = set_on_rq se true (if b then p else into_tree rb t start_debit gentle se p) in
              IsFair base f × Joined f
        split true h =
            let sums : Joined (set_on_rq se true p) = λ w. omega (
              arith,
              sum_of-append w (current_of p.queue.curr joined) tree,
              sum_of-append w (current_of p.queue.curr p.entity) tree,
              current-sums p.queue.curr w h,
            ) in
            (joined-IsFair p.queue fair.0 sums, sums)
        split false h =
            let q' = enqueue_entity (vruntimes p.entity) rb se p.queue in
            let (sorted, order) =
              enqueue_entity-IsQueue (vruntimes p.entity) base fits se near rb p.queue fair.0 in
            let sums : Joined (set_on_rq se true (into_tree rb t start_debit gentle se p)) = λ w.
              omega (
                arith,
                sum_of-append w (current_of p.queue.curr joined) (in_order q'.tasks_timeline),
                sum_of-append w (current_of p.queue.curr p.entity) tree,
                ap (sum_of w) order,
                ap (sum_of w) (current-joined p.queue.curr h),
                sum_of-insert w (λ e. since base (vruntimes p.entity e)) se tree,
              ) in
            (joined-IsFair q' sorted sums, sums)
