-- ===== src/Fair/Entity/Members.antt =====
-- The entities of a queue, counted and weighed: those in the tree and the current one while it is on the
-- queue.
use osandroid_kernel.Prelude.{
  ℕ, ◌+◌, ◌%◌, ◌^◌, ◌≤◌, ◌≡◌, ◌≢◌, refl, ap, Bool, true, false, Option, none, some, List, [], ◌∷◌,
  ◌++◌, ◌==◌, ltb, if◌then◌else◌, if_elim, arith,
}
use mathlib.Core.Path.{subst}
use osandroid_kernel.Prelude.Lists.{All}
use osandroid_kernel.Fair.{in_order, CfsRq}
use osandroid_kernel.Fair.Load.{SchedEntity}
use osandroid_kernel.Fair.Order.{since, InWindow, Sorted, insert_by, IsQueue}
use osandroid_kernel.Fair.Entity.{FairRq, vruntimes}

abbrev pub sum_of : (ℕ → ℕ) → List ℕ → ℕ
sum_of w [] = 0
sum_of w (e ∷ es) = w e + sum_of w es

pub sum_of-append : (w : ℕ → ℕ) (xs ys : List ℕ) → sum_of w (xs ++ ys) ≡ sum_of w xs + sum_of w ys
sum_of-append w [] ys = omega arith
sum_of-append w (x ∷ xs) ys = omega (arith, sum_of-append w xs ys)

pub sum_of-insert :
    (w key : ℕ → ℕ) (se : ℕ) (xs : List ℕ) → sum_of w (insert_by key se xs) ≡ w se + sum_of w xs
unfolding insert_by
sum_of-insert w key se [] = omega arith
sum_of-insert w key se (x ∷ xs) =
    if_elim (λ l. sum_of w l ≡ w se + (w x + sum_of w xs)) (ltb (key se) (key x)) (se ∷ x ∷ xs)
      (x ∷ insert_by key se xs) refl (omega (arith, sum_of-insert w key se xs))

abbrev pub one_if : Bool → ℕ
one_if b = if b then 1 else 0

abbrev pub times_in : ℕ → List ℕ → ℕ
times_in e es = sum_of (λ x. one_if (x == e)) es

pub absent : (e : ℕ) (es : List ℕ) → times_in e es ≡ 0 → All (λ x. x ≢ e) es
absent e [] h = tt
absent e (x ∷ es) h = (ground (arith, h), absent e es (ground (arith, h)))

-- Where an entity stands that is once on a list.
abbrev pub Stands : ℕ → List ℕ → Type 0
Stands e es =
    (xs : List ℕ) × (ys : List ℕ) × (es ≡ xs ++ e ∷ ys) × All (λ x. x ≢ e) xs × All (λ x. x ≢ e) ys

pub found_once : (e : ℕ) (es : List ℕ) → times_in e es ≡ 1 → Stands e es
found_once e [] h = absurd (omega (arith, h))
found_once e (x ∷ es) h = split (x == e) refl (found_once e es)
  where
    split : (b : Bool) → (x == e) ≡ b → (times_in e es ≡ 1 → Stands e es) → Stands e (x ∷ es)
    split true same ih =
        let here : x ≡ e = ground (arith, same) in
        ([], es, ap (λ a. a ∷ es) here, tt, absent e es (ground (arith, h, same)))
    split false other ih =
        let (xs, ys, at, before, after) = ih (ground (arith, h, other)) in
        (x ∷ xs, ys, ap (λ l. x ∷ l) at, (ground (arith, other), before), after)

-- What is equal at the entities of a list.
pub sum_of-same : (v w : ℕ → ℕ) (es : List ℕ) → All (λ e. v e ≡ w e) es → sum_of v es ≡ sum_of w es
sum_of-same v w [] h = refl
sum_of-same v w (e ∷ es) (here, there) = omega (arith, here, sum_of-same v w es there)

All-replace :
    (v w : ℕ → ℕ) (P : ℕ → Type 0) (es : List ℕ)
    → All (λ e. v e ≡ w e) es
    → All (λ e. P (v e)) es
    → All (λ e. P (w e)) es
All-replace v w P [] same h = tt
All-replace v w P (e ∷ es) (here, there) (p, ps) = (subst P here p, All-replace v w P es there ps)

Sorted-replace : (v w : ℕ → ℕ) (es : List ℕ) → All (λ e. v e ≡ w e) es → Sorted v es → Sorted w es
Sorted-replace v w [] same h = tt
Sorted-replace v w (e ∷ es) (here, there) (first, rest) = (
  All-replace v w (λ n. w e ≤ n) es there (subst (λ n. All (λ y. n ≤ v y) es) here first),
  Sorted-replace v w es there rest,
)

All-since :
    (base : ℕ) (v w : ℕ → ℕ) (es : List ℕ)
    → All (λ e. v e ≡ w e) es
    → All (λ e. since base (v e) ≡ since base (w e)) es
All-since base v w [] h = tt
All-since base v w (e ∷ es) (here, there) = (ap (since base) here, All-since base v w es there)

-- Only the times of the entities in the tree matter for its order.
pub IsQueue-replace :
    (v w : ℕ → ℕ) (base : ℕ) (q : CfsRq)
    → All (λ e. v e ≡ w e) (in_order q.tasks_timeline)
    → IsQueue v base q
    → IsQueue w base q
IsQueue-replace v w base q same (sorted, near, cached) =
    let es = in_order q.tasks_timeline in
    (
      Sorted-replace (λ e. since base (v e)) (λ e. since base (w e)) es (All-since base v w es same)
          sorted,
      All-replace v w (InWindow base) es same near,
      cached,
    )

-- The current entity, while it is on the queue.
abbrev pub current_of : Option ℕ → (ℕ → SchedEntity) → List ℕ
current_of none entity = []
current_of (some c) entity = if (entity c).on_rq then c ∷ [] else []

abbrev pub members : FairRq → List ℕ
members s = current_of s.queue.curr s.entity ++ in_order s.queue.tasks_timeline

-- The tree is in order, the members are the entities that are on the queue, once each, and their number
-- and their weight are those of the queue.
abbrev pub IsFair : ℕ → FairRq → Type 0
IsFair base s =
    IsQueue (vruntimes s.entity) base s.queue
    × ((e : ℕ) → times_in e (members s) ≡ one_if (s.entity e).on_rq)
    × (s.nr_running ≡ sum_of (λ e. 1) (members s))
    × (s.load.weight ≡ sum_of (λ e. (s.entity e).load.weight) (members s) % 2 ^ 64)
