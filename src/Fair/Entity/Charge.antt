-- ===== src/Fair/Entity/Charge.antt =====
-- `update_curr` charges the current entity, once.
use osandroid_kernel.Prelude.{
  ℕ, ◌+◌, ◌%◌, ◌^◌, ◌≡◌, ◌≢◌, refl, sym, ap, ◌∙◌, Bool, true, false, Option, none, some, List, [],
  ◌∷◌, ◌++◌, ◌==◌, ==-refl, if◌then◌else◌, if_elim, arith,
}
use osandroid_kernel.Prelude.Lists.{All, All-map}
use osandroid_kernel.Prelude.Families.{put_at}
use osandroid_kernel.Fair.{sub_u64, in_order, update_min_vruntime}
use osandroid_kernel.Fair.Load.{
  LoadWeight, SchedEntity, inverse_of, nice_0_load, calc_delta_fair, calc_delta_mine,
}
use osandroid_kernel.Fair.Order.{IsQueue}
use osandroid_kernel.Fair.Entity.{FairRq, vruntimes, charged, charge_curr, update_of, update_curr}
use osandroid_kernel.Fair.Entity.Members.{
  sum_of, sum_of-append, sum_of-same, times_in, one_if, absent, IsQueue-replace, current_of,
  members, IsFair,
}

-- The same entities are on the queue, with the same weights.
abbrev pub Alike : (ℕ → SchedEntity) → (ℕ → SchedEntity) → Type 0
Alike entity entity' =
    (e : ℕ)
    → ((entity' e).on_rq ≡ (entity e).on_rq) × ((entity' e).load.weight ≡ (entity e).load.weight)

pub current-Alike :
    (curr : Option ℕ) (entity entity' : ℕ → SchedEntity)
    → Alike entity entity'
    → current_of curr entity' ≡ current_of curr entity
current-Alike none entity entity' h = refl
current-Alike (some c) entity entity' h = ap (λ b. if b then c ∷ [] else []) (h c).0

pub everywhere : (P : ℕ → Type 0) (es : List ℕ) → ((e : ℕ) → P e) → All P es
everywhere P [] h = tt
everywhere P (e ∷ es) h = (h e, everywhere P es h)

-- The time of the current entity, which is not in the tree, does not matter for the tree.
pub current_absent :
    (base : ℕ) (s : FairRq) (c : ℕ)
    → s.queue.curr ≡ some c
    → IsFair base s
    → times_in c (in_order s.queue.tasks_timeline) ≡ 0
current_absent base s c at (q, once, nr, load) =
    let here = once c in
    let parts =
      sum_of-append (λ x. one_if (x == c)) (current_of s.queue.curr s.entity)
        (in_order s.queue.tasks_timeline) in
    let there = ap (λ o. times_in c (current_of o s.entity)) at in
    split (s.entity c).on_rq here parts there
  where
    tree : List ℕ
    tree = in_order s.queue.tasks_timeline

    split :
        (b : Bool)
        → times_in c (members s) ≡ one_if b
        → times_in c (members s) ≡ times_in c (current_of s.queue.curr s.entity) + times_in c tree
        → times_in c (current_of s.queue.curr s.entity) ≡ times_in c (if b then c ∷ [] else [])
        → times_in c tree ≡ 0
    split true here parts there = omega (arith, here, parts, there, ap one_if (==-refl c))
    split false here parts there = omega (arith, here, parts, there)

weight-calc : (delta : ℕ) (load : LoadWeight) → (calc_delta_fair delta load).1.weight ≡ load.weight
unfolding calc_delta_fair calc_delta_mine
weight-calc delta load =
    if_elim (λ (p : ℕ × LoadWeight). p.1.weight ≡ load.weight) (load.weight == nice_0_load)
      (delta, load) (calc_delta_mine delta nice_0_load load) refl
      (if_elim (λ (lw : LoadWeight). lw.weight ≡ load.weight) (load.inv_weight == 0)
        (record load { inv_weight = inverse_of load.weight }) load refl refl)

-- What has the same tree, count and load, and like entities, is as fair.
pub IsFair-Alike :
    (base : ℕ) (s s' : FairRq)
    → IsFair base s
    → Alike s.entity s'.entity
    → s'.queue.curr ≡ s.queue.curr
    → s'.queue.tasks_timeline ≡ s.queue.tasks_timeline
    → s'.nr_running ≡ s.nr_running
    → s'.load.weight ≡ s.load.weight
    → IsQueue (vruntimes s'.entity) base s'.queue
    → IsFair base s'
IsFair-Alike base s s' (q, once, nr, load) like curr tree same_nr same_load q' = (
  q',
  λ e. ap (times_in e) same ∙ once e ∙ sym (ap one_if (like e).0),
  same_nr ∙ nr ∙ sym (ap (sum_of (λ e. 1)) same),
  same_load
      ∙ load
      ∙ ap (λ w. w % 2 ^ 64)
          (sum_of-same (λ e. (s.entity e).load.weight) (λ e. (s'.entity e).load.weight) (members s)
              (everywhere (λ e. (s.entity e).load.weight ≡ (s'.entity e).load.weight) (members s)
                (λ e. sym (like e).1))
            ∙ sym (ap (sum_of (λ e. (s'.entity e).load.weight)) same)),
)
  where
    same : members s' ≡ members s
    same =
        ap (λ t. current_of s'.queue.curr s'.entity ++ in_order t) tree
        ∙ ap (λ o. current_of o s'.entity ++ in_order s.queue.tasks_timeline) curr
        ∙ ap (λ es. es ++ in_order s.queue.tasks_timeline)
            (current-Alike s.queue.curr s.entity s'.entity like)

-- One entity that stays on the queue, or off it, with its weight.
pub put-Alike :
    (c : ℕ) (e : SchedEntity) (entity : ℕ → SchedEntity)
    → e.on_rq ≡ (entity c).on_rq
    → e.load.weight ≡ (entity c).load.weight
    → Alike entity (put_at c e entity)
put-Alike c e entity on weight x = split (c == x) refl
  where
    split :
        (b : Bool)
        → (c == x) ≡ b
        → let e' = if b then e else entity x in
          (e'.on_rq ≡ (entity x).on_rq) × (e'.load.weight ≡ (entity x).load.weight)
    split true same =
        let at : c ≡ x = ground (arith, same) in
        (on ∙ ap (λ y. (entity y).on_rq) at, weight ∙ ap (λ y. (entity y).load.weight) at)
    split false other = (refl, refl)

-- An entity that is not in the tree may change its time.
pub put-IsQueue :
    (base c : ℕ) (e : SchedEntity) (entity : ℕ → SchedEntity) (s : FairRq)
    → times_in c (in_order s.queue.tasks_timeline) ≡ 0
    → IsQueue (vruntimes entity) base s.queue
    → IsQueue (vruntimes (put_at c e entity)) base s.queue
put-IsQueue base c e entity s out q =
    IsQueue-replace (vruntimes entity) (vruntimes (put_at c e entity)) base s.queue
      (All-map (λ x other. not_there x other) (in_order s.queue.tasks_timeline)
        (absent c (in_order s.queue.tasks_timeline) out))
      q
  where
    not_there : (x : ℕ) → x ≢ c → vruntimes entity x ≡ vruntimes (put_at c e entity) x
    not_there x other = let no : (c == x) ≡ false = ground (arith, other) in rw (no, vruntimes) refl

module _ (base : ℕ) (s : FairRq) (fair : IsFair base s) where
  charge_curr-IsFair : (c delta : ℕ) → s.queue.curr ≡ some c → IsFair base (charge_curr c delta s)
  unfolding update_min_vruntime
  charge_curr-IsFair c delta at =
      let e = charged delta s.clock_task (s.entity c) in
      IsFair-Alike base s (charge_curr c delta s) fair
        (put-Alike c e s.entity refl (weight-calc delta (s.entity c).load)) refl refl refl refl
        (put-IsQueue base c e s.entity s (current_absent base s c at fair) fair.0)

  -- The charge of the current entity keeps the queue fair.
  pub update_curr-IsFair : IsFair base (update_curr s)
  unfolding update_curr
  update_curr-IsFair = split s.queue.curr refl
    where
      split : (o : Option ℕ) → s.queue.curr ≡ o → IsFair base (update_of o s)
      split none at = fair
      split (some c) at =
          let delta = sub_u64 s.clock_task (s.entity c).exec_start in
          if_elim (IsFair base) (delta == 0) s (charge_curr c delta s) fair
            (charge_curr-IsFair c delta at)

-- The charge changes neither the tree, nor which entities are on the queue, nor their weights.
abbrev pub Stays : FairRq → FairRq → Type 0
Stays s s' =
    Alike s.entity s'.entity
    × (s'.queue.curr ≡ s.queue.curr)
    × (s'.queue.tasks_timeline ≡ s.queue.tasks_timeline)

pub update_curr-Stays : (s : FairRq) → Stays s (update_curr s)
unfolding update_curr update_min_vruntime
update_curr-Stays s = split s.queue.curr
  where
    split : (o : Option ℕ) → Stays s (update_of o s)
    split none = ((λ e. (refl, refl)), refl, refl)
    split (some c) =
        let delta = sub_u64 s.clock_task (s.entity c).exec_start in
        let e = charged delta s.clock_task (s.entity c) in
        if_elim (Stays s) (delta == 0) s (charge_curr c delta s) ((λ e. (refl, refl)), refl, refl)
          (put-Alike c e s.entity refl (weight-calc delta (s.entity c).load), refl, refl)
