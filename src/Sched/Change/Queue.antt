-- ===== src/Sched/Change/Queue.antt =====
-- The queue over a change of policy, and that a change comes to an end.
use osandroid_kernel.Prelude.{
  ◌≡◌, refl, sym, ap, ◌∙◌, ◌⊎◌, inl, inr, Bool, true, false, ◌&&◌, ◌||◌, not, Option, is_some, List,
  [], ◌∷◌, ◌++◌, if◌then◌else◌, arith,
}
use osandroid_kernel.Prelude.Lists.{All}
use osandroid_kernel.Prelude.Int.{ℤ, pos, negsuc, eqb_ℤ, ltb_ℤ}
use osandroid_kernel.Sched.{
  Class, stop_class, rt_class, fair_class, mycfs_class, idle_class, Task, set_scheduler,
  enqueue_task_mycfs, dequeue_task_mycfs,
}
use osandroid_kernel.Sched.Change.{
  Request, Action, Verdict, fails, keeps, again, changes, dequeue, put_prev, set_curr, enqueue,
  class_changed, first_of, guards, once, dequeue_by, enqueue_by, when, reset_to, change_queued,
  change, answer, sched_setscheduler,
}

abbrev pub is_mycfs : Class → Bool
is_mycfs mycfs_class = true
is_mycfs _ = false

abbrev pub has_enqueue : List Action → Bool
has_enqueue [] = false
has_enqueue (enqueue c ∷ rest) = true
has_enqueue (_ ∷ rest) = has_enqueue rest

enqueues :
    (queued running : Bool) (a b c d e : Class) (n : ℤ)
    → has_enqueue (
        when queued (dequeue a) (
          when running
            (put_prev b)
            (when running (set_curr c) (when queued (enqueue d) (class_changed e n ∷ [])))))
      ≡ queued
enqueues true true a b c d e n = refl
enqueues true false a b c d e n = refl
enqueues false true a b c d e n = refl
enqueues false false a b c d e n = refl

enqueue_by_lem :
    (c : Class) (p : Task)
    → ((enqueue_by c p).on_rq ≡ (is_mycfs c || p.on_rq))
      × ((enqueue_by c p).sched_class ≡ p.sched_class)
unfolding enqueue_by enqueue_task_mycfs
enqueue_by_lem stop_class p = (refl, refl)
enqueue_by_lem rt_class p = (refl, refl)
enqueue_by_lem fair_class p = (refl, refl)
enqueue_by_lem mycfs_class p = (refl, refl)
enqueue_by_lem idle_class p = (refl, refl)

dequeue_by_lem : (c : Class) (p : Task) → (dequeue_by c p).on_rq ≡ (not (is_mycfs c) && p.on_rq)
unfolding dequeue_by dequeue_task_mycfs
dequeue_by_lem stop_class p = refl
dequeue_by_lem rt_class p = refl
dequeue_by_lem fair_class p = refl
dequeue_by_lem mycfs_class p = refl
dequeue_by_lem idle_class p = refl

set_scheduler-on_rq :
    (getprio : ℤ → ℤ) (p : Task) (policy prio : ℤ)
    → (set_scheduler getprio p policy prio).on_rq ≡ p.on_rq
unfolding set_scheduler
set_scheduler-on_rq getprio p policy prio = ground arith

either : (a b : Bool) → (a || (not b && true)) ≡ (true && (not b || a))
either a b = ground arith

abbrev Queues : Task → Task × List Action → Type 0
Queues p (p', actions) =
    (has_enqueue actions ≡ p.on_rq)
    × (p'.on_rq ≡ (p.on_rq && (not (is_mycfs p.sched_class) || is_mycfs p'.sched_class)))

change_queued-Queues :
    (queued : Bool) (getprio : ℤ → ℤ) (r : Request) (policy : ℤ) (reset : Bool) (p : Task)
    → p.on_rq ≡ queued
    → Queues p (change_queued queued getprio r policy reset p)
unfolding change_queued
change_queued-Queues true getprio r policy reset p e =
    let x : Task =
      set_scheduler getprio (reset_to reset (dequeue_by p.sched_class p)) policy r.priority in
    let (queue, class) = enqueue_by_lem x.sched_class x in
    let kept : x.on_rq ≡ (not (is_mycfs p.sched_class) && p.on_rq) =
      set_scheduler-on_rq getprio _ policy r.priority ∙ dequeue_by_lem p.sched_class p in
    (
      enqueues true r.running p.sched_class p.sched_class x.sched_class x.sched_class p.sched_class
            p.prio
          ∙ sym e,
      queue
          ∙ ap (λ b. is_mycfs x.sched_class || b) kept
          ∙ ap (λ b. is_mycfs x.sched_class || (not (is_mycfs p.sched_class) && b)) e
          ∙ either (is_mycfs x.sched_class) (is_mycfs p.sched_class)
          ∙ ap (λ b. b && (not (is_mycfs p.sched_class) || is_mycfs x.sched_class)) (sym e)
          ∙ ap (λ c. p.on_rq && (not (is_mycfs p.sched_class) || is_mycfs c)) (sym class),
    )
change_queued-Queues false getprio r policy reset p e =
    let x : Task = set_scheduler getprio (reset_to reset p) policy r.priority in
    (
      enqueues false r.running p.sched_class p.sched_class x.sched_class x.sched_class p.sched_class
            p.prio
          ∙ sym e,
      set_scheduler-on_rq getprio (reset_to reset p) policy r.priority
          ∙ e
          ∙ ap (λ b. b && (not (is_mycfs p.sched_class) || is_mycfs x.sched_class)) (sym e),
    )

-- A task is put into a queue by a change just if it was in one, but its `on_rq` is lost when the
-- queue it leaves is that of the new class and the queue it enters is not.
pub change-on_rq :
    (getprio : ℤ → ℤ) (r : Request) (policy : ℤ) (reset : Bool) (p : Task)
    → let (p', actions) = change getprio r policy reset p in
      (has_enqueue actions ≡ p.on_rq)
      × (p'.on_rq ≡ (p.on_rq && (not (is_mycfs p.sched_class) || is_mycfs p'.sched_class)))
unfolding change
change-on_rq getprio r policy reset p = change_queued-Queues p.on_rq getprio r policy reset p refl

is_again : Verdict → Bool
is_again again = true
is_again _ = false

first_of-calm :
    (guards : List (Bool × Verdict)) (otherwise : Verdict)
    → All (λ g. is_again g.1 ≡ false) guards
    → is_again otherwise ≡ false
    → is_again (first_of guards otherwise) ≡ false
unfolding first_of
first_of-calm [] otherwise h k = k
first_of-calm ((true, v) ∷ rest) otherwise h k = h.0
first_of-calm ((false, v) ∷ rest) otherwise h k = first_of-calm rest otherwise h.1 k

guards-calm :
    (r : Request) (inherits : Bool) (policy : ℤ) (reset : Bool) (p q : Task)
    → All (λ g. is_again g.1 ≡ false) (guards r inherits policy reset p q)
unfolding guards is_again
guards-calm r inherits policy reset p q = (refl, (refl, (refl, (refl, (refl, (refl, (refl, tt)))))))

no_more :
    (b : Bool) (policy : ℤ) (reset : Bool)
    → b ≡ false
    → is_again (if b then again else changes policy reset) ≡ false
unfolding is_again
no_more b policy reset e = rw e

once-steady :
    (r : Request) (policy : ℤ) (p q : Task)
    → p.policy ≡ q.policy
    → is_again (once r policy p q) ≡ false
unfolding once is_again
once-steady r policy p q same =
    let steady : (ltb_ℤ policy (pos 0)
          && not (eqb_ℤ (if ltb_ℤ policy (pos 0) then p.policy else policy) q.policy))
        ≡ false =
      ground (arith, same) in
    let inherits = ltb_ℤ policy (pos 0) in
    let pol = if inherits then p.policy else policy in
    let reset = if inherits then p.sched_reset_on_fork else r.reset_on_fork in
    first_of-calm (guards r inherits pol reset p q) _ (guards-calm r inherits pol reset p q)
      (no_more (inherits && not (eqb_ℤ pol q.policy)) pol reset steady)

answers :
    (getprio : ℤ → ℤ) (r : Request) (q : Task) (v : Verdict)
    (rest : Option (ℤ × Task × List Action))
    → (is_again v ≡ false) ⊎ (is_some rest ≡ true)
    → is_some (answer getprio r q v rest) ≡ true
unfolding answer is_again
answers getprio r q (fails e) rest h = refl
answers getprio r q keeps rest h = refl
answers getprio r q (changes policy reset) rest h = refl
answers getprio r q again rest (inl h) = absurd (cc)
answers getprio r q again rest (inr h) = h

-- A call comes to an end at the latest in the first round in which the policy of the task does not
-- change between the two looks at it.
pub sched_setscheduler-steady :
    (getprio : ℤ → ℤ) (r : Request) (policy : ℤ) (before : List (Task × Task)) (p q : Task)
    (after : List (Task × Task))
    → p.policy ≡ q.policy
    → is_some (sched_setscheduler getprio r policy (before ++ (p, q) ∷ after)) ≡ true
unfolding sched_setscheduler
sched_setscheduler-steady getprio r policy [] p q after same =
    answers getprio r q _ _ (inl (once-steady r policy p q same))
sched_setscheduler-steady getprio r policy ((p', q') ∷ before) p q after same =
    answers getprio r q' _ _
      (inr (sched_setscheduler-steady getprio r (negsuc 0) before p q after same))
