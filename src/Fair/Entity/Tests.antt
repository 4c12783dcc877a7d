-- ===== src/Fair/Entity/Tests.antt =====
-- A queue of the fair class at concrete inputs: entity 1 runs, 2 is in the tree, and 3 sleeps.
use osandroid_kernel.Prelude.{
  ◌↔◌, ℕ, ◌+◌, ◌*◌, ◌^◌, ◌≤◌, ◌<◌, ◌≡◌, refl, true, false, none, some, List, [], ◌∷◌, ◌==◌,
  if◌then◌else◌, arith,
}
use osandroid_kernel.Fair.{leaf, node, update_min_vruntime, least_vruntime, place_entity}
use osandroid_kernel.Fair.Tests.{leaning}
use osandroid_kernel.Fair.Load.{
  LoadWeight, SchedEntity, Tunables, calc_delta_fair, calc_delta_mine, sched_period, sched_slice,
}
use osandroid_kernel.Fair.Load.Shares.{slices, sched_slice-shares}
use osandroid_kernel.Fair.Entity.{
  FairRq, update_curr, arrive, enqueue_fair_entity, dequeue_fair_entity, pick_next_entity,
  set_next_entity, put_prev_entity, check_preempt_tick, entity_tick,
}
use osandroid_kernel.Fair.Entity.Members.{IsFair}
use osandroid_kernel.Fair.Entity.Once.{Charged, update_curr-Charged}
use osandroid_kernel.Fair.Entity.Enqueue.{Enters, enqueue_fair_entity-IsFair}
use osandroid_kernel.Fair.Entity.Dequeue.{Leaves, dequeue_fair_entity-IsFair}
use osandroid_kernel.Fair.Entity.Switch.{Regroups, switch-Regroups}
use osandroid_kernel.Fair.Entity.Choose.{Picks, pick_next_entity-IsNear}
use osandroid_kernel.Fair.Entity.Tick.{IsDue, entity_tick-IsDue}

abbrev nice_0 : LoadWeight
nice_0 = record { weight = 1024; inv_weight = 4194304 }

abbrev nice_19 : LoadWeight
nice_19 = record { weight = 15; inv_weight = 286331153 }

abbrev some_entities : ℕ → SchedEntity
some_entities e =
    if e == 1
    then record {
      load = nice_0;
      on_rq = true;
      exec_start = 20;
      sum_exec_runtime = 70;
      vruntime = 1000;
      prev_sum_exec_runtime = 50;
    }
    else if e == 2
    then record {
      load = nice_0;
      on_rq = true;
      exec_start = 0;
      sum_exec_runtime = 30;
      vruntime = 1010;
      prev_sum_exec_runtime = 30;
    }
    else record {
      load = nice_19;
      on_rq = false;
      exec_start = 0;
      sum_exec_runtime = 10;
      vruntime = 900;
      prev_sum_exec_runtime = 10;
    }

abbrev a_fair_rq : FairRq
a_fair_rq = record {
  queue = record {
    tasks_timeline = node leaf 2 leaf;
    rb_leftmost = some 2;
    curr = some 1;
    min_vruntime = 1000;
  };
  entity = some_entities;
  load = record { weight = 2048; inv_weight = 0 };
  nr_running = 2;
  next = none;
  last = none;
  skip = some 2;
  clock_task = 50;
  rq_load = record { weight = 2048; inv_weight = 0 };
  cfs_tasks = 1 ∷ 2 ∷ [];
  resched = false;
}

abbrev some_tunables : Tunables
some_tunables = record { latency = 24; min_granularity = 3; wakeup_granularity = 4; nr_latency = 8 }

a_fair_rq-IsFair : IsFair 900 a_fair_rq
a_fair_rq-IsFair =
    (((tt, tt), ((omega arith, omega arith), tt), refl), λ e. ground arith, refl, refl)

update_curr-Charged_example : Charged a_fair_rq 1 refl (update_curr a_fair_rq)
update_curr-Charged_example =
    update_curr-Charged a_fair_rq 1 refl (omega arith) (omega arith) (omega arith) (omega arith)
      (omega arith)

charged_time : ((update_curr a_fair_rq).entity 1).vruntime ≡ 1030
unfolding update_curr update_min_vruntime least_vruntime calc_delta_fair
charged_time = refl

woken_time :
    ((arrive leaning some_tunables true true true false 3 a_fair_rq).entity 3).vruntime ≡ 998
unfolding arrive update_curr update_min_vruntime least_vruntime calc_delta_fair place_entity
woken_time = refl

enqueue_fair_entity-IsFair_example :
    Enters 900
      (omega arith)
      leaning
      some_tunables
      true
      true
      true
      false
      3
      a_fair_rq
      a_fair_rq-IsFair
      refl
      (enqueue_fair_entity leaning some_tunables true true true false 3 a_fair_rq)
enqueue_fair_entity-IsFair_example =
    enqueue_fair_entity-IsFair 900 (omega arith) leaning some_tunables true true true false 3
      a_fair_rq a_fair_rq-IsFair refl (omega (arith, woken_time), omega (arith, woken_time))

dequeue_fair_entity-IsFair_example :
    Leaves 900 leaning some_tunables true true false 2 a_fair_rq a_fair_rq-IsFair refl
      (omega arith)
      (dequeue_fair_entity leaning some_tunables true true false 2 a_fair_rq)
dequeue_fair_entity-IsFair_example =
    dequeue_fair_entity-IsFair 900 leaning some_tunables true true false 2 a_fair_rq
      a_fair_rq-IsFair refl (omega arith)

switch-Regroups_example :
    Regroups 900 a_fair_rq (
      set_next_entity leaning some_tunables true true 2
        (put_prev_entity leaning some_tunables true true 1 a_fair_rq))
    × ((set_next_entity leaning some_tunables true true 2
          (put_prev_entity leaning some_tunables true true 1 a_fair_rq)).queue.curr
        ≡ some 2)
switch-Regroups_example =
    switch-Regroups 900 leaning some_tunables true true (omega arith) 1 2 a_fair_rq a_fair_rq-IsFair
      refl (λ on. (omega (arith, charged_time), omega (arith, charged_time)))

pick_next_entity-IsNear_example :
    Picks 900 leaning some_tunables true true a_fair_rq a_fair_rq-IsFair 2
      (pick_next_entity leaning some_tunables true true a_fair_rq).0
      (pick_next_entity leaning some_tunables true true a_fair_rq).1
pick_next_entity-IsNear_example =
    pick_next_entity-IsNear 900 leaning some_tunables true true a_fair_rq a_fair_rq-IsFair 2 refl
      (λ b e. absurd (cc e)) (λ b e. absurd (cc e))

entity_tick-IsDue_example :
    IsFair 900 (entity_tick leaning some_tunables true true 1 a_fair_rq)
    × (((entity_tick leaning some_tunables true true 1 a_fair_rq).resched ≡ true) ↔ (
        (1 < (update_curr a_fair_rq).nr_running)
        × IsDue leaning some_tunables true true 1 (update_curr a_fair_rq)))
entity_tick-IsDue_example =
    entity_tick-IsDue leaning some_tunables true true 1 900 a_fair_rq refl a_fair_rq-IsFair

-- Its slice is 12 of the period of 24, and it has run for 50.
tick_marks : (entity_tick leaning some_tunables true true 1 a_fair_rq).resched ≡ true
unfolding entity_tick check_preempt_tick sched_slice sched_period calc_delta_mine update_curr
    update_min_vruntime least_vruntime calc_delta_fair
tick_marks = refl

abbrev two_entities : List SchedEntity
two_entities = some_entities 1 ∷ some_entities 2 ∷ []

sched_slice-shares_example :
    2 * (slices some_tunables 2 a_fair_rq.load two_entities * 2048)
    ≤ 2 * (sched_period some_tunables 2 * 2048) + 2 * (2 ^ 16 + 2048)
sched_slice-shares_example =
    sched_slice-shares some_tunables a_fair_rq.load (omega arith, omega arith) two_entities
      ((refl, omega arith), ((refl, omega arith), tt)) refl
