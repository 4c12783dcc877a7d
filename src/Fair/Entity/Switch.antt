-- ===== src/Fair/Entity/Switch.antt =====
-- `put_prev_entity` and `set_next_entity`: the current entity goes back into the tree, and another one
-- comes out of it.
use osandroid_kernel.Prelude.{
  ℕ, ◌^◌, ◌<◌, ◌≡◌, refl, sym, ap, ◌∙◌, Bool, true, false, none, some, List, [], ◌∷◌, ◌++◌, ◌==◌,
  if◌then◌else◌, arith,
}
use mathlib.Core.Path.{subst}
use osandroid_kernel.Prelude.Families.{put_at}
use osandroid_kernel.Fair.{in_order, RbTree, CfsRq, enqueue_entity, dequeue_entity}
use osandroid_kernel.Fair.Load.{SchedEntity, Tunables}
use osandroid_kernel.Fair.Order.{since, InWindow, IsQueue, enqueue_entity-IsQueue}
use osandroid_kernel.Fair.Dequeue.{dequeue_entity-IsQueue}
use osandroid_kernel.Fair.Entity.{
  FairRq, vruntimes, update_curr, into_tree, out_of_tree, put_entity, put_queue, set_next_entity,
  put_prev_entity,
}
use osandroid_kernel.Fair.Entity.Members.{
  sum_of, sum_of-append, sum_of-same, sum_of-insert, one_if, found_once, IsQueue-replace,
  current_of, members, IsFair,
}
use osandroid_kernel.Fair.Entity.Charge.{
  Alike, everywhere, put-Alike, Stays, update_curr-Stays, update_curr-IsFair,
}
use osandroid_kernel.Fair.Entity.Enqueue.{members-Stays}

-- A change that does not touch the time.
put-time :
    (entity : ℕ → SchedEntity) (se : ℕ) (e : SchedEntity) (x : ℕ)
    → e.vruntime ≡ (entity se).vruntime
    → vruntimes entity x ≡ vruntimes (put_at se e entity) x
put-time entity se e x h = split (se == x) refl
  where
    split :
        (same : Bool)
        → (se == x) ≡ same
        → (entity x).vruntime ≡ (if same then e else entity x).vruntime
    split true at = ap (vruntimes entity) (sym (ground (arith, at))) ∙ sym h
    split false at = refl

module _ (base : ℕ) where
  -- Entities that are shifted between the tree and the place of the current one.
  abbrev pub Regroups : FairRq → FairRq → Type 0
  Regroups s s' = IsFair base s' × ((w : ℕ → ℕ) → sum_of w (members s') ≡ sum_of w (members s))

  regroup :
      (s : FairRq) (entity' : ℕ → SchedEntity) (q' : CfsRq)
      → IsFair base s
      → Alike s.entity entity'
      → ((x : ℕ) → vruntimes s.entity x ≡ vruntimes entity' x)
      → IsQueue (vruntimes s.entity) base q'
      → ((w : ℕ → ℕ)
          → sum_of w (current_of q'.curr entity' ++ in_order q'.tasks_timeline)
            ≡ sum_of w (members s))
      → Regroups s (record s { entity = entity'; queue = q' })
  regroup s entity' q' (q, once, count, weight) like times sorted sums =
      let es = current_of q'.curr entity' ++ in_order q'.tasks_timeline in
      let same =
        sum_of-same (λ e. (s.entity e).load.weight) (λ e. (entity' e).load.weight) es
          (everywhere (λ e. (s.entity e).load.weight ≡ (entity' e).load.weight) es
            (λ e. sym (like e).1)) in
      (
        (
          IsQueue-replace (vruntimes s.entity) (vruntimes entity') base q'
              (everywhere (λ e. vruntimes s.entity e ≡ vruntimes entity' e)
                (in_order q'.tasks_timeline) times)
              sorted,
          λ x. sums (λ y. one_if (y == x)) ∙ once x ∙ sym (ap one_if (like x).0),
          count ∙ sym (sums (λ e. 1)),
          omega (arith, weight, same, sums (λ e. (s.entity e).load.weight)),
        ),
        sums,
      )

  module _ (rb : RbTree) (t : Tunables) (start_debit gentle_fair_sleepers : Bool) where
    set_next_entity-Regroups :
        (se : ℕ) (s : FairRq)
        → IsFair base s
        → s.queue.curr ≡ none
        → Regroups s (set_next_entity rb t start_debit gentle_fair_sleepers se s)
    unfolding set_next_entity dequeue_entity
    set_next_entity-Regroups se s fair idle = split (s.entity se).on_rq refl
      where
        tree : List ℕ
        tree = in_order s.queue.tasks_timeline

        e : SchedEntity
        e = record (s.entity se) {
          exec_start = s.clock_task;
          prev_sum_exec_runtime = (s.entity se).sum_exec_runtime;
        }

        started : FairRq → FairRq
        started off =
            put_queue (record off.queue { curr = some se })
              (put_entity se
                (record (off.entity se) {
                  exec_start = s.clock_task;
                  prev_sum_exec_runtime = (off.entity se).sum_exec_runtime;
                })
                off)

        like : Alike s.entity (put_at se e s.entity)
        like = put-Alike se e s.entity refl refl

        none_current : (w : ℕ → ℕ) → sum_of w (current_of s.queue.curr s.entity) ≡ 0
        none_current w = ap (λ o. sum_of w (current_of o s.entity)) idle

        current :
            (w : ℕ → ℕ) (b : Bool)
            → (s.entity se).on_rq ≡ b
            → sum_of w (current_of (some se) (put_at se e s.entity))
              ≡ sum_of w (if b then se ∷ [] else [])
        current w b on = ap (λ c. sum_of w (if c then se ∷ [] else [])) ((like se).0 ∙ on)

        split :
            (b : Bool)
            → (s.entity se).on_rq ≡ b
            → let off = if b then out_of_tree rb t start_debit gentle_fair_sleepers se s else s in
              Regroups s (started off)
        split true on =
            let (q, once, count, weight) = fair in
            let (xs, ys, at, before, after) = found_once se tree (
              omega (
                arith,
                once se,
                ap one_if on,
                none_current (λ x. one_if (x == se)),
                sum_of-append (λ x. one_if (x == se)) (current_of s.queue.curr s.entity) tree,
              )) in
            let (sorted, order) =
              dequeue_entity-IsQueue (vruntimes s.entity) base rb se s.queue xs ys q at before
                after in
            let q' = record (dequeue_entity rb se s.queue) { curr = some se } in
            regroup s (put_at se e s.entity) q' fair like (λ x. put-time s.entity se e x refl)
              sorted
              (λ w. omega (
                arith,
                none_current w,
                current w true on,
                sum_of-append w (current_of s.queue.curr s.entity) tree,
                sum_of-append w (current_of (some se) (put_at se e s.entity))
                    (in_order q'.tasks_timeline),
                ap (sum_of w) order,
                ap (sum_of w) at,
                sum_of-append w xs (se ∷ ys),
                sum_of-append w xs ys,
              ))
        split false off =
            regroup s (put_at se e s.entity) (record s.queue { curr = some se }) fair like
              (λ x. put-time s.entity se e x refl) fair.0
              (λ w. omega (
                arith,
                none_current w,
                current w false off,
                sum_of-append w (current_of s.queue.curr s.entity) tree,
                sum_of-append w (current_of (some se) (put_at se e s.entity)) tree,
              ))

    put_prev_entity-Regroups :
        (fits : base < 2 ^ 64) (prev : ℕ) (s : FairRq)
        → IsFair base s
        → s.queue.curr ≡ some prev
        → ((s.entity prev).on_rq ≡ true → InWindow base ((update_curr s).entity prev).vruntime)
        → Regroups s (put_prev_entity rb t start_debit gentle_fair_sleepers prev s)
          × ((put_prev_entity rb t start_debit gentle_fair_sleepers prev s).queue.curr ≡ none)
    unfolding put_prev_entity enqueue_entity
    put_prev_entity-Regroups fits prev s fair at near = (split (s.entity prev).on_rq refl, refl)
      where
        u : FairRq
        u = update_curr s

        stays : Stays s u
        stays = update_curr-Stays s

        alone :
            (x : FairRq) (w : ℕ → ℕ) (b : Bool)
            → x.queue.curr ≡ some prev
            → (x.entity prev).on_rq ≡ b
            → sum_of w (current_of x.queue.curr x.entity) ≡ sum_of w (if b then prev ∷ [] else [])
        alone x w b here on =
            ap (λ o. sum_of w (current_of o x.entity)) here
            ∙ ap (λ c. sum_of w (if c then prev ∷ [] else [])) on

        goes_back :
            (u.entity prev).on_rq ≡ true
            → InWindow base (u.entity prev).vruntime
            → let y = into_tree rb t start_debit gentle_fair_sleepers prev u in
              Regroups s (put_queue (record y.queue { curr = none }) y)
        goes_back on close =
            let here = stays.1 ∙ at in
            let charged = update_curr-IsFair base s fair in
            let ((sorted, near_all, cached), order) =
              enqueue_entity-IsQueue (vruntimes u.entity) base fits prev close rb u.queue
                charged.0 in
            let q' = record (enqueue_entity (vruntimes u.entity) rb prev u.queue) { curr = none } in
            let (fair', same) =
              regroup u u.entity q' charged (λ e. (refl, refl)) (λ x. refl)
                (sorted, near_all, cached)
                (λ w. omega (
                  arith,
                  ap (sum_of w) order,
                  sum_of-insert w (λ e. since base (vruntimes u.entity e)) prev
                      (in_order u.queue.tasks_timeline),
                  sum_of-append w (current_of u.queue.curr u.entity)
                      (in_order u.queue.tasks_timeline),
                  alone u w true here on,
                )) in
            (fair', λ w. same w ∙ ap (sum_of w) (members-Stays s u stays))

        back : FairRq → Bool → FairRq
        back x b = if b then into_tree rb t start_debit gentle_fair_sleepers prev x else x

        split :
            (b : Bool)
            → (s.entity prev).on_rq ≡ b
            → let x = if b then u else s in
              let y = back x (x.entity prev).on_rq in
              Regroups s (put_queue (record y.queue { curr = none }) y)
        split true on =
            subst (λ b. Regroups s (put_queue (record (back u b).queue { curr = none }) (back u b)))
              (sym ((stays.0 prev).0 ∙ on)) (goes_back ((stays.0 prev).0 ∙ on) (near on))
        split false off =
            subst (λ b. Regroups s (put_queue (record (back s b).queue { curr = none }) (back s b)))
              (sym off)
              (regroup s s.entity (record s.queue { curr = none }) fair (λ e. (refl, refl))
                (λ x. refl) fair.0
                (λ w. omega (
                  arith,
                  sum_of-append w (current_of s.queue.curr s.entity)
                      (in_order s.queue.tasks_timeline),
                  alone s w false at off,
                )))

    -- In a fair queue, taking the current entity back and running another, on the queue or not, keeps
    -- the queue fair: the entities on it are the same, and so are their number and load, the tree is
    -- in order, and the new one is current. The time of the old one after its charge is within half
    -- of the 64-bit range of that of the others, if it goes back into the tree.
    pub switch-Regroups :
        (fits : base < 2 ^ 64) (prev se : ℕ) (s : FairRq)
        → IsFair base s
        → s.queue.curr ≡ some prev
        → ((s.entity prev).on_rq ≡ true → InWindow base ((update_curr s).entity prev).vruntime)
        → let s' =
            set_next_entity rb t start_debit gentle_fair_sleepers se
              (put_prev_entity rb t start_debit gentle_fair_sleepers prev s) in
          Regroups s s' × (s'.queue.curr ≡ some se)
    unfolding set_next_entity
    switch-Regroups fits prev se s fair at near =
        let ((fair', same), idle) = put_prev_entity-Regroups fits prev s fair at near in
        let (fair'', same') =
          set_next_entity-Regroups se (put_prev_entity rb t start_debit gentle_fair_sleepers prev s)
            fair' idle in
        ((fair'', λ w. same' w ∙ same w), refl)
