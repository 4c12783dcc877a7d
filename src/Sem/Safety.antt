-- ===== src/Sem/Safety.antt =====
-- What holds in every state that threads reach with one semaphore of hw3/sync.c as their lock.
use osandroid_kernel.Prelude.{
  ℕ, zero, suc, ◌+◌, ◌<◌, ◌≤◌, ◌≡◌, ◌≢◌, refl, ◌⊎◌, Bool, true, false, List, [], ◌∷◌, ◌++◌, Option,
  Bool-cases, inl, inr, none, arith, if◌then◌else◌,
}
use mathlib.Core.Path.{subst}
use native.Mathlib.Decide.{dec_lt}
use osandroid_kernel.Prelude.Int.{ℤ, pos, ◌+ℤ◌, ◌-ℤ◌, eqb_ℤ}
use osandroid_kernel.Prelude.Families.{
  sum_below, le-sum_below, sum_below-le-sum_below, sum_below_pos,
}
use osandroid_kernel.Sem.{State, Run, ok, sthread_sem_up}
use osandroid_kernel.Sem.Refine.{
  Spec, down_spec, try_down_spec, up_spec, Represents, Refines, down-Refines, try_down-Refines,
  up-Refines, init-Refines,
}
use osandroid_kernel.Sem.System.{
  Place, outside, waking, parked, inside, Thread, System, after_up, move, Step, down, try_down,
  resume, up, deliver, Reach, start, later,
}
use osandroid_kernel.Sem.Invariant.{
  waits, share, Inv, take-Inv, queue-Inv, stay-Inv, resume-Inv, release-Inv, hand_over-Inv,
  deliver-Inv,
}

abbrev spec : ℕ → List ℕ → Spec
spec u ws = record { count = pos u; waiting = ws }

-- The memory holds a semaphore with some units and a queue, and both fit the threads.
pub record Good (n k : ℕ) (s : System) : Type 0 where
  pub units : ℕ
  pub queue : List ℕ
  pub rep : Represents s.mem (record { count = pos units; waiting = queue })
  pub inv : Inv n k units queue s.thread

-- A run has one outcome.
outcome :
    {A : Type 0} {e : A × Spec} {r : Run A} (x : A) (m : State)
    → Refines r e
    → r ≡ ok x m
    → (e.0 ≡ x) × Represents m e.1
outcome {e} x m (s', q, rep) p = (cc, subst (λ t. Represents t e.1) (cc) rep)

up-outcome : (s : State) (a : Spec) → Represents s a → Refines (sthread_sem_up s) (up_spec a)
up-outcome s a rep = let (s', e, rep', f) = up-Refines s a rep in (s', e, rep')

down_spec-suc :
    (i u : ℕ) (ws : List ℕ) → down_spec i (spec (suc u) ws) ≡ ((pos 0, false), spec u ws)
unfolding down_spec ◌-ℤ◌
down_spec-suc i u ws = ground arith

try_down_spec-suc : (u : ℕ) (ws : List ℕ) → try_down_spec (spec (suc u) ws) ≡ (pos 0, spec u ws)
unfolding try_down_spec ◌-ℤ◌
try_down_spec-suc u ws = ground arith

up_spec-nil : (u : ℕ) → up_spec (spec u []) ≡ ((pos 0, none), spec (u + 1) [])
unfolding up_spec ◌+ℤ◌
up_spec-nil u = ground arith

module _ {n k : ℕ} (mem : State) (th : ℕ → Thread) (i : ℕ) (lt : i < n) where
  down-Good :
      (u : ℕ) (ws : List ℕ) (r : ℤ) (wait : Bool) (m : State)
      → Inv n k u ws th
      → (th i).place ≡ outside
      → ((down_spec i (spec u ws)).0 ≡ (r, wait)) × Represents m (down_spec i (spec u ws)).1
      → Good n k (record { mem = m; thread = move i (if wait then parked else inside) th })
  unfolding down_spec
  down-Good zero ws r wait m v o (e, rep) = record {
    units = 0;
    queue = ws ++ i ∷ [];
    rep = rep;
    inv =
        subst (λ x. Inv n k 0 (ws ++ i ∷ []) (move i (if x.1 then parked else inside) th)) e
          (queue-Inv i lt v o);
  }
  down-Good (suc u) ws r wait m v o d =
      let d' : ((pos 0, false) ≡ (r, wait)) × Represents m (spec u ws) =
        subst (λ x. (x.0 ≡ (r, wait)) × Represents m x.1) (down_spec-suc i u ws) d in
      record {
        units = u;
        queue = ws;
        rep = d'.1;
        inv =
            subst (λ x. Inv n k u ws (move i (if x.1 then parked else inside) th)) d'.0
              (take-Inv i lt v o);
      }

  try_down-Good :
      (u : ℕ) (ws : List ℕ) (r : ℤ) (m : State)
      → Inv n k u ws th
      → (th i).place ≡ outside
      → ((try_down_spec (spec u ws)).0 ≡ r) × Represents m (try_down_spec (spec u ws)).1
      → Good n k
          (record { mem = m; thread = move i (if eqb_ℤ r (pos 0) then inside else outside) th })
  unfolding try_down_spec
  try_down-Good zero ws r m v o (e, rep) = record {
    units = 0;
    queue = ws;
    rep = rep;
    inv =
        subst (λ x. Inv n k 0 ws (move i (if eqb_ℤ x (pos 0) then inside else outside) th)) e
          (stay-Inv i lt v o);
  }
  try_down-Good (suc u) ws r m v o d =
      let d' : (pos 0 ≡ r) × Represents m (spec u ws) =
        subst (λ x. (x.0 ≡ r) × Represents m x.1) (try_down_spec-suc u ws) d in
      record {
        units = u;
        queue = ws;
        rep = d'.1;
        inv =
            subst (λ x. Inv n k u ws (move i (if eqb_ℤ x (pos 0) then inside else outside) th)) d'.0
              (take-Inv i lt v o);
      }

  up-Good :
      (u : ℕ) (ws : List ℕ) (r : ℤ) (woken : Option ℕ) (m : State)
      → Inv n k u ws th
      → (th i).place ≡ inside
      → ((up_spec (spec u ws)).0 ≡ (r, woken)) × Represents m (up_spec (spec u ws)).1
      → Good n k (record { mem = m; thread = move i (after_up woken) th })
  unfolding up_spec
  up-Good u [] r woken m v o d =
      let d' : ((pos 0, none) ≡ (r, woken)) × Represents m (spec (u + 1) []) =
        subst (λ x. (x.0 ≡ (r, woken)) × Represents m x.1) (up_spec-nil u) d in
      record {
        units = u + 1;
        queue = [];
        rep = d'.1;
        inv =
            subst (λ x. Inv n k (u + 1) [] (move i (after_up x.1) th)) d'.0 (release-Inv i lt v o);
      }
  up-Good u (t ∷ ts) r woken m v o (e, rep) = record {
    units = u;
    queue = ts;
    rep = rep;
    inv = subst (λ x. Inv n k u ts (move i (after_up x.1) th)) e (hand_over-Inv i lt t v o);
  }

Step-Good : {n k : ℕ} {s t : System} → Step n s t → Good n k s → Good n k t
Step-Good {s = s} (down i f junk r wait m lt o nf free e) g =
    down-Good s.mem s.thread i lt g.units g.queue r wait m g.inv o
      (outcome (r, wait) m (down-Refines i f junk s.mem _ g.rep nf free) e)
Step-Good {s = s} (try_down i r m lt o e) g =
    try_down-Good s.mem s.thread i lt g.units g.queue r m g.inv o
      (outcome r m (try_down-Refines s.mem _ g.rep) e)
Step-Good (resume i lt p q) g = record {
  units = g.units;
  queue = g.queue;
  rep = g.rep;
  inv = resume-Inv i lt g.inv p q;
}
Step-Good (deliver i t lt o) g = record {
  units = g.units;
  queue = g.queue;
  rep = g.rep;
  inv = deliver-Inv i lt t g.inv o;
}
Step-Good {s = s} (up i r woken m lt o e) g =
    up-Good s.mem s.thread i lt g.units g.queue r woken m g.inv o
      (outcome (r, woken) m (up-outcome s.mem _ g.rep) e)

sum_below-zero : (n : ℕ) → sum_below share n (λ _. record { place = outside; pipe = 0 }) ≡ 0
unfolding sum_below
sum_below-zero zero = refl
sum_below-zero (suc n) = omega (arith, sum_below-zero n)

pub Reach-Good : {n k : ℕ} {s : System} → Reach n k s → Good n k s
Reach-Good {n} {k} (start raw m free e) = record {
  units = k;
  queue = [];
  rep = (outcome (pos 0) m (init-Refines (pos k) raw free) e).1;
  inv = record {
    conserved = omega (arith, sum_below-zero n);
    busy = λ ne. absurd (ne refl);
    distinct = tt;
    settled = λ j. record { queued = λ w. absurd (cc); quiet = λ w. refl; single = omega arith };
    wakes = λ a t w. absurd (cc);
    alone = λ a b t w x. absurd (cc);
    remembered = λ t w. absurd (cc);
  };
}
Reach-Good (later r st) = Step-Good st (Reach-Good r)

abbrev pub is_inside : Thread → ℕ
is_inside th = elim (th.place) [ inside ↦ 1 | _ ↦ 0 ]

-- However `n` threads interleave, at most `k` of them are inside a semaphore initialised to `k`.
pub inside-le : {n k : ℕ} {s : System} → Reach n k s → sum_below is_inside n s.thread ≤ k
inside-le {n} {s = s} r = omega (
  arith,
  (Reach-Good r).inv.conserved,
  sum_below-le-sum_below is_inside share n s.thread (λ a. ground arith),
)

waits-ne-nil : (i : ℕ) (ws : List ℕ) → waits i ws ≡ true → ws ≢ []
waits-ne-nil i [] h e = cc
waits-ne-nil i (t ∷ ts) h e = cc

-- A suspended thread has a message, is about to be woken, or is queued, and then no unit is left.
held_units :
    {n k : ℕ} {s : System}
    → Good n k s
    → 0 < k
    → (i : ℕ) → i < n
    → (s.thread i).place ≡ parked
    → 0 < sum_below share n s.thread
held_units {n} {s = s} g pos_k i lt p = elim (dec_lt 0 (s.thread i).pipe) [
  | yes message ↦ ground (arith, le-sum_below share n i s.thread lt)
  | no none_yet ↦ elim (Bool-cases (waits i g.queue)) [
    | inl queued ↦ omega (arith, g.inv.conserved, g.inv.busy (waits-ne-nil i g.queue queued))
    | inr taken ↦
        let (w, below, at) = g.inv.remembered i p (omega arith) taken in
        ground (arith, le-sum_below share n w s.thread below)
  ]
]

-- A thread that has a share is inside, has a message, or is about to send one.
abbrev pub Moves : Thread → Type 0
Moves th =
    (th.place ≡ inside)
    ⊎ (((th.place ≡ parked) × (0 < th.pipe)) ⊎ ((t : ℕ) × (th.place ≡ waking t)))

share-Moves :
    (place : Place) (pipe : ℕ)
    → (let th : Thread = record { place = place; pipe = pipe } in 0 < share th → Moves th)
share-Moves outside pipe h = absurd (omega arith)
share-Moves (waking t) pipe h = inr (inr (t, refl))
share-Moves parked pipe h = inr (inl (refl, h))
share-Moves inside pipe h = inl refl

-- No wake-up is lost: with a semaphore initialised to more than 0, while a thread is suspended, some
-- thread is inside, is suspended with a message in its pipe, so that its next step is to go inside,
-- or has left and is about to write such a message.
pub no_lost_wakeup :
    {n k : ℕ} {s : System}
    → 0 < k
    → Reach n k s
    → (i : ℕ) → i < n
    → (s.thread i).place ≡ parked
    → (j : ℕ) × (j < n) × Moves (s.thread j)
no_lost_wakeup {n} {k} {s} pos_k r i lt p =
    let (j, below, held) =
      sum_below_pos share n s.thread (held_units (Reach-Good r) pos_k i lt p) in
    (j, below, share-Moves (s.thread j).place (s.thread j).pipe held)
