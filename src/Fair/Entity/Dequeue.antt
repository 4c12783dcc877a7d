-- ===== src/Fair/Entity/Dequeue.antt =====
-- `dequeue_entity` takes an entity off the queue.
use osandroid_kernel.Prelude.{
  ℕ, ◌+◌, ◌^◌, ◌<◌, ◌≡◌, refl, sym, ap, ◌∙◌, Bool, true, false, ◌==◌, ==-refl, if◌then◌else◌,
  if_elim, arith,
}
use osandroid_kernel.Fair.{
  sub_u64, in_order, is_node, RbTree, CfsRq, dequeue_entity, update_min_vruntime,
}
use osandroid_kernel.Fair.Load.{Tunables}
use osandroid_kernel.Fair.Order.{IsQueue}
use osandroid_kernel.Fair.Entity.{
  FairRq, vruntimes, set_vruntime, set_on_rq, put_queue, clear_buddies, account_entity_dequeue,
  out_of_tree, dequeue_fair_entity, update_curr,
}
use osandroid_kernel.Fair.Entity.Members.{
  sum_of-append, times_in, one_if, current_of, members, IsFair,
}
use osandroid_kernel.Fair.Entity.Charge.{Stays, update_curr-Stays, update_curr-IsFair}
use osandroid_kernel.Fair.Entity.Join.{off_tree, set_vruntime-IsFair}
use osandroid_kernel.Fair.Entity.Leave.{parted, Parts, parted-IsFair, current-leaves, out-Parts}
use osandroid_kernel.Fair.Entity.Enqueue.{members-Stays, set_vruntime-Stays}

module _ (base : ℕ) (rb : RbTree) (t : Tunables) (start_debit gentle_fair_sleepers : Bool)
    (sleep : Bool) (se : ℕ) (s : FairRq) (fair : IsFair base s) (on : (s.entity se).on_rq ≡ true)
    (small : (s.entity se).load.weight < 2 ^ 64) where
  abbrev cleared : FairRq
  cleared = clear_buddies se (update_curr s)

  stays : Stays s cleared
  stays = update_curr-Stays s

  cleared-IsFair : IsFair base cleared
  cleared-IsFair = update_curr-IsFair base s fair

  still_on : (cleared.entity se).on_rq ≡ true
  still_on = (stays.0 se).0 ∙ on

  -- The entity is not on the queue, and the others are.
  abbrev pub Leaves : FairRq → Type 0
  Leaves s' =
      IsFair base s'
      × ((e : ℕ) → times_in e (members s) ≡ one_if (se == e) + times_in e (members s'))

  abbrev without_it : CfsRq → FairRq
  without_it q' = account_entity_dequeue se (set_on_rq se false (put_queue q' cleared))

  without-Leaves :
      (q' : CfsRq)
      → IsQueue (vruntimes cleared.entity) base q'
      → Parts base cleared se cleared-IsFair still_on q'
      → Leaves (without_it q')
  without-Leaves q' sorted sums = (
    parted-IsFair base cleared se cleared-IsFair still_on q' (omega (arith, small, (stays.0 se).1))
        sorted sums,
    λ e.
        omega (arith, sums (λ x. one_if (x == e)), ap (times_in e) (members-Stays s cleared stays)),
  )

  off-Leaves : Leaves (
      account_entity_dequeue se (
        set_on_rq se false (
          if is_node se cleared.queue.curr
          then cleared
          else out_of_tree rb t start_debit gentle_fair_sleepers se cleared)))
  off-Leaves = split (is_node se cleared.queue.curr) refl
    where
      split :
          (b : Bool)
          → is_node se cleared.queue.curr ≡ b
          → Leaves (
              account_entity_dequeue se (
                set_on_rq se false (
                  if b
                  then cleared
                  else out_of_tree rb t start_debit gentle_fair_sleepers se cleared)))
      split true h = without-Leaves cleared.queue cleared-IsFair.0 (λ w. omega (
        arith,
        sum_of-append w (current_of cleared.queue.curr cleared.entity)
            (in_order cleared.queue.tasks_timeline),
        sum_of-append w (current_of cleared.queue.curr (parted cleared.entity se))
            (in_order cleared.queue.tasks_timeline),
        current-leaves base cleared se cleared-IsFair still_on cleared.queue.curr w h,
      ))
      split false h =
          let (sorted, sums) = out-Parts base cleared se cleared-IsFair still_on rb h in
          without-Leaves (dequeue_entity rb se cleared.queue) sorted sums

  set_off : (x : FairRq) → ((set_on_rq se false x).entity se).on_rq ≡ false
  set_off x = rw (==-refl se) refl

  -- The time of the entity that has left, and `min_vruntime`, do not matter.
  settle :
      (gone : FairRq)
      → (gone.entity se).on_rq ≡ false
      → Leaves gone
      → let v = sub_u64 (gone.entity se).vruntime gone.queue.min_vruntime in
        let relative = if sleep then gone else set_vruntime se v gone in
        Leaves (put_queue (update_min_vruntime (vruntimes relative.entity) relative.queue) relative)
  unfolding update_min_vruntime
  settle gone off (fair', left) =
      let v = sub_u64 (gone.entity se).vruntime gone.queue.min_vruntime in
      if_elim Leaves sleep gone (set_vruntime se v gone) (fair', left)
        (
          set_vruntime-IsFair base gone se v fair' (off_tree base gone se fair' off),
          λ e.
              left e
              ∙ ap (λ n. one_if (se == e) + n)
                  (sym (
                    ap (times_in e) (
                      members-Stays gone (set_vruntime se v gone) (set_vruntime-Stays gone se v)))),
        )

  -- Dequeueing an entity of a fair queue takes it off and no other, whether it is in the tree or is the
  -- current one, which is charged first, and leaves the queue fair, with the tree in order and the
  -- number and the load those of the entities that are left; the weight of the entity has 64 bits.
  pub dequeue_fair_entity-IsFair :
      Leaves (dequeue_fair_entity rb t start_debit gentle_fair_sleepers sleep se s)
  unfolding dequeue_fair_entity
  dequeue_fair_entity-IsFair =
      let left : FairRq =
        if is_node se cleared.queue.curr
        then cleared
        else out_of_tree rb t start_debit gentle_fair_sleepers se cleared in
      settle (account_entity_dequeue se (set_on_rq se false left)) (set_off left) off-Leaves
