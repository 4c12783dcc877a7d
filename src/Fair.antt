-- ===== src/Fair.antt =====
-- The queue of the fair class, hw4/kernel/sched/fair.c: virtual run times, which are 64-bit numbers
-- that wrap, and the red-black tree of the entities with its cached leftmost node. An entity is a
-- number, and `vruntime` the field of each. What lib/rbtree.c does to a tree is an argument; the
-- copy `min_vruntime_copy` of a 32-bit machine is left out.
pub mod Clock
pub mod Order
pub mod Dequeue
pub mod Load
pub mod Entity
mod Tests
use osandroid_kernel.Prelude.{
  ℕ, zero, suc, ◌+◌, ◌-◌, ◌/◌, ◌&&◌, ◌*◌, ◌%◌, ◌^◌, ◌≡◌, Bool, true, false, Option, none, some,
  List, [], ◌∷◌, ◌++◌, ltb, leb, ◌==◌, if◌then◌else◌,
}
use osandroid_kernel.Prelude.Families.{put_at}

-- The difference of two unsigned 64-bit numbers, and whether it is below 0 or above as a signed one.
abbrev pub sub_u64 : ℕ → ℕ → ℕ
sub_u64 a b = (a + 2 ^ 64 - b) % 2 ^ 64

abbrev pub is_negative : ℕ → Bool
is_negative d = leb (2 ^ 63) d

abbrev pub is_positive : ℕ → Bool
is_positive d = if is_negative d then false else ltb 0 d

abbrev pub max_vruntime : (min_vruntime vruntime : ℕ) → ℕ
max_vruntime min vruntime = if is_positive (sub_u64 vruntime min) then vruntime else min

abbrev pub min_vruntime_of : (min_vruntime vruntime : ℕ) → ℕ
min_vruntime_of min vruntime = if is_negative (sub_u64 vruntime min) then vruntime else min

-- The nodes of a tree, as their links make it.
pub data Tree : Type 0 where
  leaf : Tree
  node : Tree → ℕ → Tree → Tree

abbrev pub in_order : Tree → List ℕ
in_order leaf = []
in_order (node l e r) = in_order l ++ e ∷ in_order r

-- The list without an entity, and the entity that follows one.
abbrev pub without : ℕ → List ℕ → List ℕ
without se [] = []
without se (e ∷ es) = let rest = without se es in if e == se then rest else e ∷ rest

abbrev pub first : List ℕ → Option ℕ
first [] = none
first (e ∷ es) = some e

abbrev pub following : ℕ → List ℕ → Option ℕ
following se [] = none
following se (e ∷ es) = let rest = following se es in if e == se then first es else rest

-- `rb_insert_color`, `rb_erase` and `rb_next`, which keep the order of the nodes.
pub record RbTree : Type 0 where
  pub insert_color : Tree → Tree
  pub erase : ℕ → Tree → Tree
  pub next : ℕ → Tree → Option ℕ
  pub in_order-insert_color : (t : Tree) → in_order (insert_color t) ≡ in_order t
  pub in_order-erase : (se : ℕ) (t : Tree) → in_order (erase se t) ≡ without se (in_order t)
  pub next_lem : (se : ℕ) (t : Tree) → next se t ≡ following se (in_order t)

-- The fields of `struct cfs_rq`.
pub record CfsRq : Type 0 where
  pub tasks_timeline : Tree
  pub rb_leftmost : Option ℕ
  pub curr : Option ℕ
  pub min_vruntime : ℕ

module _ (vruntime : ℕ → ℕ) where
  abbrev pub entity_before : ℕ → ℕ → Bool
  entity_before a b = is_negative (sub_u64 (vruntime a) (vruntime b))

  -- The local `vruntime` of `update_min_vruntime`.
  unfoldable pub least_vruntime : (min : ℕ) (curr leftmost : Option ℕ) → ℕ
  least_vruntime min none none = min
  least_vruntime min (some c) none = vruntime c
  least_vruntime min none (some se) = vruntime se
  least_vruntime min (some c) (some se) = min_vruntime_of (vruntime c) (vruntime se)

  unfoldable pub update_min_vruntime : CfsRq → CfsRq
  update_min_vruntime q = record q {
    min_vruntime = max_vruntime q.min_vruntime (least_vruntime q.min_vruntime q.curr q.rb_leftmost);
  }

  -- The descent of `__enqueue_entity`, with the node linked where it ends.
  unfoldable pub link_entity : ℕ → Tree → Tree
  link_entity se leaf = node leaf se leaf
  link_entity se (node l e r) =
      let left = link_entity se l in
      let right = link_entity se r in if entity_before se e then node left e r else node l e right

  -- The flag `leftmost` at its end.
  unfoldable pub goes_leftmost : ℕ → Tree → Bool
  goes_leftmost se leaf = true
  goes_leftmost se (node l e r) =
      let left = goes_leftmost se l in if entity_before se e then left else false

  -- `__enqueue_entity`.
  unfoldable pub enqueue_entity : RbTree → ℕ → CfsRq → CfsRq
  enqueue_entity rb se q = record q {
    rb_leftmost = if goes_leftmost se q.tasks_timeline then some se else q.rb_leftmost;
    tasks_timeline = rb.insert_color (link_entity se q.tasks_timeline);
  }

-- What `place_entity` reads besides: whether the features START_DEBIT and GENTLE_FAIR_SLEEPERS are on,
-- `sysctl_sched_latency`, and what `sched_vslice` answers.
pub record Placing : Type 0 where
  pub start_debit : Bool
  pub gentle_fair_sleepers : Bool
  pub sched_latency : ℕ
  pub vslice : ℕ

-- `place_entity`: the virtual run time that an entity with `own` gets.
unfoldable pub place_entity : Placing → (initial : Bool) → (min own : ℕ) → ℕ
place_entity w initial min own =
    let debited = if initial && w.start_debit then (min + w.vslice) % 2 ^ 64 else min in
    let thresh = if w.gentle_fair_sleepers then w.sched_latency / 2 else w.sched_latency in
    let placed = if initial then debited else sub_u64 debited (thresh % 2 ^ 64) in
    max_vruntime own placed

abbrev pub is_node : ℕ → Option ℕ → Bool
is_node se none = false
is_node se (some e) = e == se

-- `__dequeue_entity`.
unfoldable pub dequeue_entity : RbTree → ℕ → CfsRq → CfsRq
dequeue_entity rb se q = record q {
  rb_leftmost = if is_node se q.rb_leftmost then rb.next se q.tasks_timeline else q.rb_leftmost;
  tasks_timeline = rb.erase se q.tasks_timeline;
}
