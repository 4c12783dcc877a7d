-- ===== src/Fair/Tests.antt =====
-- The queue of the fair class at concrete inputs: times that wrap between entities 1 and 2.
use osandroid_kernel.Prelude.{
  ℕ, ◌-◌, ◌^◌, ◌≡◌, refl, ap, none, some, List, [], ◌∷◌, ◌==◌, if◌then◌else◌, arith, true,
}
use osandroid_kernel.Fair.{
  Tree, leaf, node, in_order, without, following, RbTree, CfsRq, link_entity, enqueue_entity,
  Placing,
}
use osandroid_kernel.Fair.Order.{since, IsQueue, insert_by, enqueue_entity-IsQueue}

-- Trees that lean to the right.
abbrev tree_of : List ℕ → Tree
tree_of [] = leaf
tree_of (e ∷ es) = node leaf e (tree_of es)

pub in_order-tree_of : (es : List ℕ) → in_order (tree_of es) ≡ es
in_order-tree_of [] = refl
in_order-tree_of (e ∷ es) = ap (λ t. e ∷ t) (in_order-tree_of es)

abbrev pub leaning : RbTree
leaning = record {
  insert_color = λ t. t;
  erase = λ se t. tree_of (without se (in_order t));
  next = λ se t. following se (in_order t);
  in_order-insert_color = λ t. refl;
  in_order-erase = λ se t. in_order-tree_of (without se (in_order t));
  next_lem = λ se t. refl;
}

abbrev base : ℕ
base = 2 ^ 64 - 100

abbrev times : ℕ → ℕ
times e = if e == 1 then 2 ^ 64 - 5 else if e == 2 then 40 else 10

abbrev a_queue : CfsRq
a_queue = record {
  tasks_timeline = node (node leaf 1 leaf) 2 leaf;
  rb_leftmost = some 1;
  curr = none;
  min_vruntime = 2 ^ 64 - 100;
}

a_queue-IsQueue : IsQueue times base a_queue
a_queue-IsQueue = (
  ((omega arith, tt), (tt, tt)),
  ((omega arith, omega arith), ((omega arith, omega arith), tt)),
  refl,
)

enqueue_entity-IsQueue_example :
    IsQueue times base (enqueue_entity times leaning 3 a_queue)
    × (in_order (enqueue_entity times leaning 3 a_queue).tasks_timeline
        ≡ insert_by (λ e. since base (times e)) 3 (1 ∷ 2 ∷ []))
enqueue_entity-IsQueue_example =
    enqueue_entity-IsQueue times base (omega arith) 3 (omega arith, omega arith) leaning a_queue
      a_queue-IsQueue

three_in_order : in_order (enqueue_entity times leaning 3 a_queue).tasks_timeline ≡ 1 ∷ 3 ∷ 2 ∷ []
unfolding enqueue_entity link_entity
three_in_order = refl

abbrev a_placing : Placing
a_placing = record {
  start_debit = true;
  gentle_fair_sleepers = true;
  sched_latency = 12;
  vslice = 3;
}
