-- ===== src/Fair/Entity/Choose.antt =====
-- The entity that `pick_next_entity` chooses.
use osandroid_kernel.Prelude.{
  ℕ, ◌+◌, ◌≤◌, ◌<◌, ◌≡◌, ◌≢◌, refl, sym, ◌∙◌, Bool, true, false, not, Option, none, some, List, [],
  ◌∷◌, ◌==◌, ltb, if◌then◌else◌, if_elim, arith,
}
use mathlib.Core.Path.{subst}
use osandroid_kernel.Prelude.Int.{pos, negsuc, ltb_ℤ}
use osandroid_kernel.Fair.{sub_u64, is_positive, in_order, first, following, RbTree, is_node}
use osandroid_kernel.Fair.Load.{Tunables, wakeup_gran}
use osandroid_kernel.Fair.Entity.{
  FairRq, clear_if, wakeup_preempt_entity, prefer, chosen, pick_from_left, pick_next_entity,
}
use osandroid_kernel.Fair.Entity.Members.{sum_of-append, times_in, one_if, current_of, IsFair}

following-in : (se x : ℕ) (es : List ℕ) → following se es ≡ some x → 0 < times_in x es
following-in se x [] h = absurd (cc h)
following-in se x (e ∷ es) h = split (e == se) (following-in se x es) h
  where
    first-in : (ys : List ℕ) → first ys ≡ some x → 0 < times_in x ys
    first-in [] h = absurd (cc h)
    first-in (y ∷ ys) h = let at : y ≡ x = cc h in ground (arith, at)

    split :
        (b : Bool)
        → (following se es ≡ some x → 0 < times_in x es)
        → (if b then first es else following se es) ≡ some x
        → 0 < one_if (e == x) + times_in x es
    split true ih h = omega (arith, first-in es h)
    split false ih h = omega (arith, ih h)

module _ (rb : RbTree) (t : Tunables) (start_debit gentle_fair_sleepers : Bool) (s : FairRq)
    (left : ℕ) where
  -- The entity is not later than the first one by more than the granularity.
  abbrev pub IsNear : ℕ → Type 0
  IsNear se =
      is_positive (sub_u64 (s.entity se).vruntime (s.entity left).vruntime) ≡ true
      → sub_u64 (s.entity se).vruntime (s.entity left).vruntime ≤ wakeup_gran t (s.entity left)

  preempt-IsNear :
      (se : ℕ)
      → ltb_ℤ
          (wakeup_preempt_entity rb t start_debit gentle_fair_sleepers
            (s.entity se)
            (s.entity left))
          (pos 1)
        ≡ true
      → IsNear se
  unfolding wakeup_preempt_entity
  preempt-IsNear se h late = split (is_positive d) (ltb g d) late refl h
    where
      d : ℕ
      d = sub_u64 (s.entity se).vruntime (s.entity left).vruntime

      g : ℕ
      g = wakeup_gran t (s.entity left)

      split :
          (b c : Bool)
          → b ≡ true
          → ltb g d ≡ c
          → ltb_ℤ (if not b then negsuc 0 else if c then pos 1 else pos 0) (pos 1) ≡ true
          → d ≤ g
      split false c late e h = absurd (cc late)
      split true true late e h = absurd (cc h)
      split true false late e h = ground (arith, e)

  -- What holds of the entity and of a buddy that may run holds of the preferred one.
  prefer_elim :
      (P : ℕ → Type 0) (buddy : Option ℕ) (se : ℕ)
      → P se
      → ((b : ℕ) → buddy ≡ some b → IsNear b → P b)
      → P (prefer rb t start_debit gentle_fair_sleepers s left buddy se)
  prefer_elim P none se here there = here
  prefer_elim P (some b) se here there =
      split
        (ltb_ℤ
          (wakeup_preempt_entity rb t start_debit gentle_fair_sleepers (s.entity b) (s.entity left))
          (pos 1))
        refl
    where
      split :
          (near : Bool)
          → ltb_ℤ
              (wakeup_preempt_entity rb t start_debit gentle_fair_sleepers
                (s.entity b)
                (s.entity left))
              (pos 1)
            ≡ near
          → P (if near then b else se)
      split true h = there b refl (preempt-IsNear b h)
      split false h = here

  chosen_elim :
      (P : ℕ → Type 0)
      → P left
      → ((b : ℕ) → rb.next left s.queue.tasks_timeline ≡ some b → IsNear b → P b)
      → ((b : ℕ) → s.last ≡ some b → IsNear b → P b)
      → ((b : ℕ) → s.next ≡ some b → IsNear b → P b)
      → P (chosen rb t start_debit gentle_fair_sleepers s left)
  chosen_elim P here second last next =
      let skipped = rb.next left s.queue.tasks_timeline in
      let skipping =
        if is_node left s.skip
        then prefer rb t start_debit gentle_fair_sleepers s left skipped left
        else left in
      prefer_elim P s.next (prefer rb t start_debit gentle_fair_sleepers s left s.last skipping)
        (prefer_elim P s.last skipping
          (if_elim P (is_node left s.skip)
            (prefer rb t start_debit gentle_fair_sleepers s left skipped left) left
            (prefer_elim P skipped left here second) here)
          last)
        next

clear_if-gone : (se : ℕ) (buddy : Option ℕ) → clear_if se buddy ≢ some se
clear_if-gone se none h = absurd (cc h)
clear_if-gone se (some b) h = split (b == se) refl h
  where
    split : (same : Bool) → (b == se) ≡ same → (if same then none else some b) ≡ some se → ⊥
    split true e h = absurd (cc h)
    split false e h = let at : b ≡ se = cc h in ground (arith, e, at)

-- A buddy is on the queue.
abbrev pub Queues : FairRq → Option ℕ → Type 0
Queues s buddy = (b : ℕ) → buddy ≡ some b → (s.entity b).on_rq ≡ true

module _ (base : ℕ) (rb : RbTree) (t : Tunables) (start_debit gentle_fair_sleepers : Bool)
    (s : FairRq) (fair : IsFair base s) where
  in_tree-on :
      (se : ℕ) → 0 < times_in se (in_order s.queue.tasks_timeline) → (s.entity se).on_rq ≡ true
  in_tree-on se h =
      let (q, once, nr, load) = fair in
      split (s.entity se).on_rq (
        omega (
          arith,
          h,
          once se,
          sum_of-append (λ x. one_if (x == se)) (current_of s.queue.curr s.entity)
              (in_order s.queue.tasks_timeline),
        ))
    where
      split : (b : Bool) → 0 < one_if b → b ≡ true
      split true h = refl
      split false h = absurd (omega (arith, h))

  first-on : (left : ℕ) → s.queue.rb_leftmost ≡ some left → (s.entity left).on_rq ≡ true
  first-on left at =
      in_tree-on left (first_in (in_order s.queue.tasks_timeline) (sym fair.0.2 ∙ at))
    where
      first_in : (es : List ℕ) → first es ≡ some left → 0 < times_in left es
      first_in [] h = absurd (cc h)
      first_in (e ∷ es) h = let same : e ≡ left = cc h in ground (arith, same)

  abbrev pub Picks : ℕ → Option ℕ → FairRq → Type 0
  Picks left picked s' =
      (se : ℕ) × (picked ≡ some se)
      × ((s.entity se).on_rq ≡ true)
      × IsNear rb t start_debit gentle_fair_sleepers s left se
      × (s'.last ≢ some se)
      × (s'.next ≢ some se)
      × (s'.skip ≢ some se)
      × (s'.queue ≡ s.queue)
      × (s'.entity ≡ s.entity)

  -- From a fair queue with entities in its tree, whose buddies are on it, `pick_next_entity` takes an
  -- entity that is on it and not later than the first one by more than the granularity of the wake-up,
  -- which no buddy is afterwards, and leaves the tree and the entities as they are.
  pub pick_next_entity-IsNear :
      (left : ℕ)
      → s.queue.rb_leftmost ≡ some left
      → Queues s s.last
      → Queues s s.next
      → Picks left
          (pick_next_entity rb t start_debit gentle_fair_sleepers s).0
          (pick_next_entity rb t start_debit gentle_fair_sleepers s).1
  unfolding pick_next_entity
  pick_next_entity-IsNear left at last next =
      subst
        (λ o.
          Picks left (pick_from_left rb t start_debit gentle_fair_sleepers s o).0
            (pick_from_left rb t start_debit gentle_fair_sleepers s o).1)
        (sym at)
        (
          se,
          refl,
          good.0,
          good.1,
          clear_if-gone se s.last,
          clear_if-gone se s.next,
          clear_if-gone se s.skip,
          refl,
          refl,
        )
    where
      se : ℕ
      se = chosen rb t start_debit gentle_fair_sleepers s left

      Good : ℕ → Type 0
      Good e = ((s.entity e).on_rq ≡ true) × IsNear rb t start_debit gentle_fair_sleepers s left e

      good : Good se
      good =
          chosen_elim rb t start_debit gentle_fair_sleepers s left Good
            (first-on left at, λ late. absurd (ground (arith, late)))
            (λ b e near. (
              in_tree-on b (
                  following-in left b (in_order s.queue.tasks_timeline)
                    (sym (rb.next_lem left s.queue.tasks_timeline) ∙ e)),
              near,
            ))
            (λ b e near. (last b e, near)) (λ b e near. (next b e, near))
