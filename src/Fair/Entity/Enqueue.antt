-- ===== src/Fair/Entity/Enqueue.antt =====
-- `enqueue_entity` adds an entity to the queue.
use osandroid_kernel.Prelude.{
  ℕ, ◌+◌, ◌%◌, ◌^◌, ◌<◌, ◌≡◌, refl, sym, ap, ◌∙◌, Bool, true, false, not, ◌||◌, ◌++◌, ◌==◌,
  if◌then◌else◌, if_elim, arith,
}
use osandroid_kernel.Fair.{in_order, is_node, RbTree, place_entity, Placing}
use osandroid_kernel.Fair.Load.{Tunables, sched_vslice}
use osandroid_kernel.Fair.Order.{InWindow}
use osandroid_kernel.Fair.Entity.{
  FairRq, set_vruntime, set_on_rq, into_tree, account_entity_enqueue, place_on, renormalize, arrive,
  enqueue_fair_entity, update_curr,
}
use osandroid_kernel.Fair.Entity.Members.{times_in, one_if, current_of, members, IsFair}
use osandroid_kernel.Fair.Entity.Charge.{
  current-Alike, put-Alike, Stays, update_curr-Stays, update_curr-IsFair,
}
use osandroid_kernel.Fair.Entity.Join.{off_tree, set_vruntime-IsFair, join-IsFair}

pub members-Stays : (s s' : FairRq) → Stays s s' → members s' ≡ members s
members-Stays s s' (like, curr, tree) =
    ap (λ t. current_of s'.queue.curr s'.entity ++ in_order t) tree
    ∙ ap (λ o. current_of o s'.entity ++ in_order s.queue.tasks_timeline) curr
    ∙ ap (λ es. es ++ in_order s.queue.tasks_timeline)
        (current-Alike s.queue.curr s.entity s'.entity like)

then_Stays : (s s' s'' : FairRq) → Stays s s' → Stays s' s'' → Stays s s''
then_Stays s s' s'' (like, curr, tree) (like', curr', tree') =
    ((λ e. ((like' e).0 ∙ (like e).0, (like' e).1 ∙ (like e).1)), curr' ∙ curr, tree' ∙ tree)

pub set_vruntime-Stays : (s : FairRq) (se v : ℕ) → Stays s (set_vruntime se v s)
set_vruntime-Stays s se v =
    (put-Alike se (record (s.entity se) { vruntime = v }) s.entity refl refl, refl, refl)

module _ (base : ℕ) (fits : base < 2 ^ 64) (rb : RbTree) (t : Tunables)
    (start_debit gentle_fair_sleepers : Bool) (wakeup waking : Bool) (se : ℕ) (s : FairRq)
    (fair : IsFair base s) (off : (s.entity se).on_rq ≡ false) where
  abbrev started : FairRq
  started = update_curr (renormalize rb t start_debit gentle_fair_sleepers wakeup waking se s)

  abbrev accounted : FairRq
  accounted = account_entity_enqueue se started

  renormalize-IsFair :
      IsFair base (renormalize rb t start_debit gentle_fair_sleepers wakeup waking se s)
      × Stays s (renormalize rb t start_debit gentle_fair_sleepers wakeup waking se s)
  renormalize-IsFair =
      let v = ((s.entity se).vruntime + s.queue.min_vruntime) % 2 ^ 64 in
      if_elim (λ s'. IsFair base s' × Stays s s') (not wakeup || waking) (set_vruntime se v s) s
        (
          set_vruntime-IsFair base s se v fair (off_tree base s se fair off),
          set_vruntime-Stays s se v,
        )
        (fair, ((λ e. (refl, refl)), refl, refl))

  started-IsFair : IsFair base started × Stays s started
  started-IsFair =
      let r = renormalize rb t start_debit gentle_fair_sleepers wakeup waking se s in
      let (fair', stays) = renormalize-IsFair in
      (update_curr-IsFair base r fair', then_Stays s r started stays (update_curr-Stays r))

  -- The entity is on the queue, and those that were.
  abbrev pub Enters : FairRq → Type 0
  Enters s' =
      IsFair base s'
      × ((e : ℕ) → times_in e (members s') ≡ one_if (se == e) + times_in e (members s))

  abbrev ended : FairRq → FairRq
  ended p =
      set_on_rq se true (
        if is_node se p.queue.curr then p else into_tree rb t start_debit gentle_fair_sleepers se p)

  ended-Enters :
      (p : FairRq)
      → IsFair base (record p { nr_running = started.nr_running; load = started.load })
      → p.nr_running ≡ started.nr_running + 1
      → p.load.weight ≡ (started.load.weight + (p.entity se).load.weight) % 2 ^ 64
      → Stays s p
      → InWindow base (p.entity se).vruntime
      → Enters (ended p)
  ended-Enters p fair' nr load stays near =
      let (fair'', sums) =
        join-IsFair base p started.nr_running started.load se fair' nr load ((stays.0 se).0 ∙ off)
          fits rb t start_debit gentle_fair_sleepers near in
      (
        fair'',
        λ e. omega (arith, sums (λ x. one_if (x == e)), ap (times_in e) (members-Stays s p stays)),
      )

  -- Enqueueing an entity that is not on a fair queue adds it and no other, and leaves the queue fair, with
  -- the tree in order and the number and the load those of its entities, whether the entity wakes
  -- up or moves, or is the current one, which is charged first; its new virtual run time is within
  -- half of the 64-bit range of that of the others.
  pub enqueue_fair_entity-IsFair :
      InWindow base
        ((arrive rb t start_debit gentle_fair_sleepers wakeup waking se s).entity se).vruntime
      → Enters (enqueue_fair_entity rb t start_debit gentle_fair_sleepers wakeup waking se s)
  unfolding enqueue_fair_entity arrive
  enqueue_fair_entity-IsFair = split wakeup
    where
      placed : FairRq
      placed = place_on rb t start_debit gentle_fair_sleepers false se accounted

      w : Placing
      w = record {
        start_debit = start_debit;
        gentle_fair_sleepers = gentle_fair_sleepers;
        sched_latency = t.latency;
        vslice = sched_vslice t accounted.nr_running accounted.load (started.entity se);
      }

      v : ℕ
      v = place_entity w false started.queue.min_vruntime (started.entity se).vruntime

      split :
          (b : Bool)
          → let p = if b then placed else accounted in
            InWindow base (p.entity se).vruntime → Enters (ended p)
      split true near =
          let (fair', stays) = started-IsFair in
          let moved = set_vruntime-Stays started se v in
          ended-Enters placed
            (set_vruntime-IsFair base started se v fair'
              (off_tree base started se fair' ((stays.0 se).0 ∙ off)))
            refl (ap (λ w. (started.load.weight + w) % 2 ^ 64) (sym (moved.0 se).1))
            (then_Stays s started (set_vruntime se v started) stays moved) near
      split false near =
          let (fair', stays) = started-IsFair in ended-Enters accounted fair' refl refl stays near
