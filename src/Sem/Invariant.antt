-- ===== src/Sem/Invariant.antt =====
-- What holds between two steps of the threads that share a semaphore.
use osandroid_kernel.Prelude.{
  ℕ, suc, ◌+◌, ◌-◌, ◌<◌, ◌≤◌, ◌≡◌, ◌≢◌, refl, Bool, true, false, ◌||◌, List, [], ◌∷◌, ◌++◌, arith,
  ◌==◌, Bool-cases, inl, inr,
}
use osandroid_kernel.Prelude.Families.{put_at, sum_below, sum_below-put}
use osandroid_kernel.Sem.System.{outside, waking, parked, inside, Thread, wake, move}

abbrev pub waits : ℕ → List ℕ → Bool
waits i [] = false
waits i (t ∷ ts) = (i == t) || waits i ts

abbrev pub Distinct : List ℕ → Type 0
Distinct [] = Unit
Distinct (t ∷ ts) = (waits t ts ≡ false) × Distinct ts

-- The units that a thread holds, also to hand them over, or that a message in its pipe hands to it.
abbrev pub share : Thread → ℕ
share th = elim (th.place) [ outside ↦ 0 | waking t ↦ 1 | parked ↦ th.pipe | inside ↦ 1 ]

-- What one thread's place and pipe say, against the queue.
pub record Settled (n : ℕ) (ws : List ℕ) (i : ℕ) (th : Thread) : Type 0 where
  pub queued : waits i ws ≡ true → (i < n) × (th.place ≡ parked) × (th.pipe ≡ 0)
  pub quiet : th.place ≢ parked → th.pipe ≡ 0
  pub single : th.pipe ≤ 1

-- `u` units are left of `k`, and the threads `ws` are queued.
pub record Inv (n k u : ℕ) (ws : List ℕ) (th : ℕ → Thread) : Type 0 where
  pub conserved : u + sum_below share n th ≡ k
  pub busy : ws ≢ [] → u ≡ 0
  pub distinct : Distinct ws
  pub settled : (i : ℕ) → Settled n ws i (th i)
  pub wakes :
      (i t : ℕ)
      → (th i).place ≡ waking t
      → (t < n) × ((th t).place ≡ parked) × ((th t).pipe ≡ 0) × (waits t ws ≡ false)
  pub alone : (i j t : ℕ) → (th i).place ≡ waking t → (th j).place ≡ waking t → i ≡ j
  pub remembered :
      (t : ℕ)
      → (th t).place ≡ parked
      → (th t).pipe ≡ 0
      → waits t ws ≡ false
      → (w : ℕ) × (w < n) × ((th w).place ≡ waking t)

waits-snoc : (j i : ℕ) (ws : List ℕ) → waits j (ws ++ i ∷ []) ≡ (waits j ws || (j == i))
waits-snoc j i [] = ground arith
waits-snoc j i (t ∷ ts) = ground (arith, waits-snoc j i ts)

Distinct-snoc : (i : ℕ) (ws : List ℕ) → Distinct ws → waits i ws ≡ false → Distinct (ws ++ i ∷ [])
Distinct-snoc i [] d h = (refl, tt)
Distinct-snoc i (t ∷ ts) d h =
    (ground (arith, waits-snoc t i ts), Distinct-snoc i ts d.1 (ground arith))

-- A waker other than `i` stays one.
still :
    {n : ℕ} (th : ℕ → Thread) (i : ℕ) (x : Thread) (t : ℕ)
    → (th i).place ≢ waking t
    → (w : ℕ) × (w < n) × ((th w).place ≡ waking t)
    → (w : ℕ) × (w < n) × ((put_at i x th w).place ≡ waking t)
still th i x t ne (w, below, at) = (w, below, ground arith)

module _ {n k : ℕ} {th : ℕ → Thread} (i : ℕ) (lt : i < n) where
  pub take-Inv :
      {u : ℕ} {ws : List ℕ}
      → Inv n k (suc u) ws th
      → (th i).place ≡ outside
      → Inv n k u ws (move i inside th)
  take-Inv v o = record {
    conserved = ground (
      arith,
      v.conserved,
      v.settled i,
      sum_below-put share n i (record (th i) { place = inside }) th lt,
    );
    busy = λ ne. absurd (ground (arith, v.busy ne));
    distinct = v.distinct;
    settled = λ j. ground (arith, v.settled j);
    wakes = λ a t e. ground (arith, v.wakes a t, v.settled t);
    alone = λ a b t e f. ground (arith, v.alone a b t);
    remembered = λ t p z q.
        still th i _ t (λ e. ground arith)
          (v.remembered t (ground arith) (ground arith) (ground arith));
  }

  pub queue-Inv :
      {ws : List ℕ}
      → Inv n k 0 ws th
      → (th i).place ≡ outside
      → Inv n k 0 (ws ++ i ∷ []) (move i parked th)
  queue-Inv {ws} v o = record {
    conserved = ground (
      arith,
      v.conserved,
      v.settled i,
      sum_below-put share n i (record (th i) { place = parked }) th lt,
    );
    busy = λ ne. refl;
    distinct = Distinct-snoc i ws v.distinct (ground (arith, v.settled i));
    settled = λ j. ground (arith, v.settled j, waits-snoc j i ws);
    wakes = λ a t e. ground (arith, v.wakes a t, v.settled t, waits-snoc t i ws);
    alone = λ a b t e f. ground (arith, v.alone a b t);
    remembered = λ t p z q.
        still th i _ t (λ e. ground arith)
          (v.remembered t (ground (arith, waits-snoc t i ws)) (ground (arith, waits-snoc t i ws))
            (ground (arith, waits-snoc t i ws)));
  }

  pub stay-Inv :
      {u : ℕ} {ws : List ℕ}
      → Inv n k u ws th
      → (th i).place ≡ outside
      → Inv n k u ws (move i outside th)
  stay-Inv v o = record {
    conserved =
        ground
          (arith, v.conserved, sum_below-put share n i (record (th i) { place = outside }) th lt);
    busy = v.busy;
    distinct = v.distinct;
    settled = λ j. ground (arith, v.settled j);
    wakes = λ a t e. ground (arith, v.wakes a t, v.settled t);
    alone = λ a b t e f. ground (arith, v.alone a b t);
    remembered = λ t p z q.
        still th i _ t (λ e. ground arith)
          (v.remembered t (ground arith) (ground arith) (ground arith));
  }

  pub resume-Inv :
      {u : ℕ} {ws : List ℕ}
      → Inv n k u ws th
      → (th i).place ≡ parked
      → 0 < (th i).pipe
      → Inv n k u ws (put_at i (record { place = inside; pipe = (th i).pipe - 1 }) th)
  resume-Inv v o some_msg = record {
    conserved = ground (
      arith,
      v.conserved,
      v.settled i,
      sum_below-put share n i (record { place = inside; pipe = (th i).pipe - 1 }) th lt,
    );
    busy = v.busy;
    distinct = v.distinct;
    settled = λ j. ground (arith, v.settled j);
    wakes = λ a t e. ground (arith, v.wakes a t, v.settled t);
    alone = λ a b t e f. ground (arith, v.alone a b t);
    remembered = λ t p z q.
        still th i _ t (λ e. ground arith)
          (v.remembered t (ground arith) (ground arith) (ground arith));
  }

  pub release-Inv :
      {u : ℕ} → Inv n k u [] th → (th i).place ≡ inside → Inv n k (u + 1) [] (move i outside th)
  release-Inv v o = record {
    conserved = ground (
      arith,
      v.conserved,
      v.settled i,
      sum_below-put share n i (record (th i) { place = outside }) th lt,
    );
    busy = λ ne. absurd (ne refl);
    distinct = tt;
    settled = λ j. ground (arith, v.settled j);
    wakes = λ a t e. ground (arith, v.wakes a t, v.settled t);
    alone = λ a b t e f. ground (arith, v.alone a b t);
    remembered = λ t p z q.
        still th i _ t (λ e. ground arith)
          (v.remembered t (ground arith) (ground arith) (ground arith));
  }

  pub hand_over-Inv :
      (t : ℕ) {u : ℕ} {ts : List ℕ}
      → Inv n k u (t ∷ ts) th
      → (th i).place ≡ inside
      → Inv n k u ts (move i (waking t) th)
  hand_over-Inv t v o = record {
    conserved = ground (
      arith,
      v.conserved,
      v.settled i,
      sum_below-put share n i (record (th i) { place = waking t }) th lt,
    );
    busy = λ ne. v.busy (λ e. cc);
    distinct = v.distinct.1;
    settled = λ j. ground (arith, v.settled j, v.settled i, v.distinct);
    wakes = λ a b e. ground (arith, v.wakes a b, waiter, v.distinct);
    alone = λ a b c e f. ground (arith, v.alone a b c, v.wakes a c, v.wakes b c);
    remembered = λ b p z q. elim (Bool-cases (b == t)) [
      | inl same ↦ (i, lt, ground arith)
      | inr other ↦
          still th i _ b (λ e. ground arith)
            (v.remembered b (ground arith) (ground arith) (ground arith))
    ];
  }
    where
      waiter : (t < n) × ((th t).place ≡ parked) × ((th t).pipe ≡ 0)
      waiter = (v.settled t).queued (ground arith)

  pub deliver-Inv :
      (t : ℕ) {u : ℕ} {ws : List ℕ}
      → Inv n k u ws th
      → (th i).place ≡ waking t
      → Inv n k u ws (wake t (move i outside th))
  deliver-Inv t {ws = ws} v o = record {
    conserved = ground (
      arith,
      v.conserved,
      v.settled i,
      waiter,
      sum_below-put share n i (record (th i) { place = outside }) th lt,
      sum_below-put share n t (record (th t) { pipe = (th t).pipe + 1 }) (move i outside th),
    );
    busy = v.busy;
    distinct = v.distinct;
    settled = λ j. ground (arith, v.settled j, v.settled i, waiter);
    wakes = λ a b e. ground (arith, v.wakes a b, v.alone a i t, waiter);
    alone = λ a b c e f. ground (arith, v.alone a b c);
    remembered = λ b p z q.
        let (w, below, at) = v.remembered b (ground arith) (ground arith) q in
        (w, below, ground arith);
  }
    where
      waiter : (t < n) × ((th t).place ≡ parked) × ((th t).pipe ≡ 0) × (waits t ws ≡ false)
      waiter = v.wakes i t o
