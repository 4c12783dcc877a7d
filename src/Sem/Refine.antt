-- ===== src/Sem/Refine.antt =====
-- The semaphore against its abstract view: a count and a queue of threads.
use osandroid_kernel.Prelude.{
  ℕ, ◌+◌, ◌-◌, ◌≡◌, ◌≢◌, refl, sym, Bool, true, false, List, [], ◌∷◌, ◌++◌, map, Option, none, some,
  arith, if◌then◌else◌, ap, ◌∙◌, Bool-cases, inl, inr,
}
use mathlib.Core.List.{map-append}
use osandroid_kernel.Prelude.Int.{ℤ, pos, negsuc, ◌+ℤ◌, ◌-ℤ◌, ltb_ℤ}
use osandroid_kernel.Prelude.Lists.{length, length-append}
use osandroid_kernel.Sem.{
  Ptr, null, Node, node, Heap, write, State, Run, ok, fault, init_sem, insert_node, remove_node,
  sthread_sem_init, sthread_sem_destroy, sthread_sem_down, sthread_sem_try_down, sthread_sem_up,
}
use osandroid_kernel.Sem.Queue.{
  Nodes, has, first, last, Linked, EndsAt, IsQueue, Linked-frame, Linked-last, Linked-snoc,
}

not-has_of_none : (h : Heap) (f : Ptr) (xs : Nodes) → Linked h xs → h f ≡ none → has f xs ≡ false
not-has_of_none h f [] l e = refl
not-has_of_none h f ((p, d) ∷ xs) l e = ground (arith, not-has_of_none h f xs l.3 e)

-- The heap after a new node `f` for `d` is filled in, and after it is linked behind `l`.
abbrev filled : Heap → Ptr → Node → ℕ → Heap
filled h f junk d =
    write (write (write h f (some junk)) f (some (record junk { data' = d }))) f
      (some (node d null))

abbrev linked_in : Heap → Ptr × ℕ → Ptr → Node → ℕ → Heap
linked_in h l f junk d =
    write
      (write (write (write h f (some junk)) l.0 (some (node l.1 f))) f
        (some (record junk { data' = d })))
      f (some (node d null))

abbrev inserted : State → Nodes → Ptr → Node → ℕ → State
inserted s [] f junk d = record s {
  sem = record (s.sem) { head = f; start = f; sthread_count = s.sem.sthread_count + 1 };
  heap = filled s.heap f junk d;
}
inserted s (x ∷ xs) f junk d = record s {
  sem = record (s.sem) { head = f; sthread_count = s.sem.sthread_count + 1 };
  heap = linked_in s.heap (last x xs) f junk d;
}

insert_node-ok :
    (s : State) (xs : Nodes) (f : Ptr) (junk : Node) (d : ℕ)
    → IsQueue s.heap s.sem xs
    → f ≢ null
    → s.heap f ≡ none
    → insert_node f junk d s ≡ ok tt (inserted s xs f junk d)
unfolding insert_node
insert_node-ok s [] f junk d q nf free = ground arith
insert_node-ok s (x ∷ xs) f junk d q nf free = ground (arith, Linked-last s.heap x xs q.linked)

last-snoc : (x : Ptr × ℕ) (xs : Nodes) (y : Ptr × ℕ) → last x (xs ++ y ∷ []) ≡ y
last-snoc x [] y = refl
last-snoc x (z ∷ zs) y = last-snoc z zs y

inserted-IsQueue :
    (s : State) (xs : Nodes) (f : Ptr) (junk : Node) (d : ℕ)
    → IsQueue s.heap s.sem xs
    → f ≢ null
    → s.heap f ≡ none
    → let s' = inserted s xs f junk d in IsQueue s'.heap s'.sem (xs ++ (f, d) ∷ [])
inserted-IsQueue s [] f junk d q nf free = record {
  linked = (nf, refl, ground arith, tt);
  starts = refl;
  ends = refl;
  counted = ground arith;
}
inserted-IsQueue s (x ∷ xs) f junk d q nf free = record {
  linked =
      Linked-snoc _ s.heap x xs f d q.linked nf (not-has_of_none s.heap f (x ∷ xs) q.linked free)
        (ground (arith, old), ground arith, λ a x y. ground arith);
  starts = q.starts;
  ends = ap (λ e. e.0) (sym (last-snoc x xs (f, d)));
  counted = ground (arith, q.counted, length-append xs ((f, d) ∷ []));
}
  where
    old : ((last x xs).0 ≢ null) × (s.heap (last x xs).0 ≡ some (node (last x xs).1 null))
    old = Linked-last s.heap x xs q.linked

inserted-count :
    (s : State) (xs : Nodes) (f : Ptr) (junk : Node) (d : ℕ)
    → (inserted s xs f junk d).sem.count ≡ s.sem.count
inserted-count s [] f junk d = refl
inserted-count s (x ∷ xs) f junk d = refl

-- What the semaphore promises: a count, and the suspended threads in the order of their arrival.
pub record Spec : Type 0 where
  pub count : ℤ
  pub waiting : List ℕ

unfoldable pub down_spec : ℕ → Spec → (ℤ × Bool) × Spec
down_spec self a =
    if ltb_ℤ (pos 0) a.count
    then ((pos 0, false), record a { count = a.count -ℤ pos 1 })
    else ((negsuc 0, true), record a { waiting = a.waiting ++ self ∷ [] })

unfoldable pub try_down_spec : Spec → ℤ × Spec
try_down_spec a =
    if ltb_ℤ (pos 0) a.count then (pos 0, record a { count = a.count -ℤ pos 1 }) else (negsuc 0, a)

unfoldable pub up_spec : Spec → (ℤ × Option ℕ) × Spec
up_spec a = elim (a.waiting) [
  | [] ↦ ((pos 0, none), record a { count = a.count +ℤ pos 1 })
  | t ∷ ts ↦ ((pos 0, some t), record a { waiting = ts })
]

-- The state between two calls: the lock is free and the heap holds the queue.
pub record Represents (s : State) (a : Spec) : Type 0 where
  pub nodes : Nodes
  pub queue : IsQueue s.heap s.sem nodes
  pub same_count : s.sem.count ≡ a.count
  pub threads : map (λ x. x.1) nodes ≡ a.waiting
  pub unlocked : s.flag ≡ 0

-- A run that ends without fault or spinning, with the result and the abstract state that are named.
abbrev pub Refines : {A : Type 0} → Run A → A × Spec → Type 0
Refines r e = (s' : State) × (r ≡ ok e.0 s') × Represents s' e.1

-- With a fresh node at hand, `down` takes a unit, or queues its caller and has it suspended.
pub down-Refines :
    (self : ℕ) (f : Ptr) (junk : Node) (s : State) (a : Spec)
    → Represents s a
    → f ≢ null
    → s.heap f ≡ none
    → Refines (sthread_sem_down self f junk s) (down_spec self a)
unfolding sthread_sem_down down_spec
down-Refines self f junk s a r nf free = elim (Bool-cases (ltb_ℤ (pos 0) s.sem.count)) [
  | inl some_left ↦ (
    record s { sem = record (s.sem) { count = s.sem.count -ℤ pos 1 }; flag = 0 },
    ground arith,
    rw (← r.same_count, some_left)
        (record {
          nodes = r.nodes;
          queue = record {
            linked = r.queue.linked;
            starts = r.queue.starts;
            ends = r.queue.ends;
            counted = r.queue.counted;
          };
          same_count = refl;
          threads = r.threads;
          unlocked = refl;
        }),
  )
  | inr none_left ↦
      let held : State = record s { flag = 1 } in
      let q : IsQueue _ _ _ = inserted-IsQueue held r.nodes f junk self r.queue nf free in
      (
        record (inserted held r.nodes f junk self) { flag = 0 },
        ground (arith, insert_node-ok held r.nodes f junk self r.queue nf free, r.same_count),
        rw (← r.same_count, none_left)
            (record {
              nodes = r.nodes ++ (f, self) ∷ [];
              queue = q;
              same_count = inserted-count held r.nodes f junk self;
              threads =
                  map-append (λ x. x.1) r.nodes ((f, self) ∷ [])
                  ∙ ap (λ w. w ++ self ∷ []) r.threads;
              unlocked = refl;
            }),
      )
]

insert_node-null : (junk : Node) (d : ℕ) (s : State) → insert_node null junk d s ≡ fault
unfolding insert_node
insert_node-null junk d s = ground arith

insert_node-null_head :
    (f : Ptr) (junk : Node) (d : ℕ) (s : State)
    → s.sem.head ≡ null
    → s.sem.sthread_count ≢ 0
    → insert_node f junk d s ≡ fault
unfolding insert_node
insert_node-null_head f junk d s h c = ground arith

-- Without a fresh node a caller that has to wait dereferences NULL.
pub down-malloc_fails :
    (self : ℕ) (junk : Node) (s : State) (a : Spec)
    → Represents s a
    → ltb_ℤ (pos 0) a.count ≡ false
    → sthread_sem_down self null junk s ≡ fault
unfolding sthread_sem_down
down-malloc_fails self junk s a r h =
    ground (arith, r.same_count, r.unlocked, insert_node-null junk self (record s { flag = 1 }))

-- `try_down` takes a unit or fails, and never touches the queue.
pub try_down-Refines :
    (s : State) (a : Spec) → Represents s a → Refines (sthread_sem_try_down s) (try_down_spec a)
unfolding sthread_sem_try_down try_down_spec
try_down-Refines s a r = elim (Bool-cases (ltb_ℤ (pos 0) s.sem.count)) [
  | inl some_left ↦ (
    record s { sem = record (s.sem) { count = s.sem.count -ℤ pos 1 }; flag = 0 },
    ground arith,
    rw (← r.same_count, some_left)
        (record {
          nodes = r.nodes;
          queue = record {
            linked = r.queue.linked;
            starts = r.queue.starts;
            ends = r.queue.ends;
            counted = r.queue.counted;
          };
          same_count = refl;
          threads = r.threads;
          unlocked = refl;
        }),
  )
  | inr none_left ↦ (
    record s { flag = 0 },
    ground arith,
    rw (← r.same_count, none_left)
        (record {
          nodes = r.nodes;
          queue = record {
            linked = r.queue.linked;
            starts = r.queue.starts;
            ends = r.queue.ends;
            counted = r.queue.counted;
          };
          same_count = refl;
          threads = r.threads;
          unlocked = refl;
        }),
  )
]

EndsAt-tail : (p : Ptr) (x : Ptr × ℕ) (xs : Nodes) → EndsAt p (x ∷ xs) → EndsAt p xs
EndsAt-tail p x [] e = tt
EndsAt-tail p x (y ∷ ys) e = e

-- The heap after an `up`: the first node of the queue, if there is one, is free.
abbrev pub freed : List ℕ → State → Heap
freed [] s = s.heap
freed (t ∷ ts) s = write s.heap s.sem.start none

-- What an `up` does to the heap, too.
abbrev pub Releases : State → Spec → Type 0
Releases s a =
    (s' : State) × (sthread_sem_up s ≡ ok (up_spec a).0 s')
    × Represents s' (up_spec a).1
    × (s'.heap ≡ freed a.waiting s)

up-nodes :
    (s : State) (a : Spec) (xs : Nodes)
    → IsQueue s.heap s.sem xs
    → s.sem.count ≡ a.count
    → map (λ x. x.1) xs ≡ a.waiting
    → s.flag ≡ 0
    → Releases s a
unfolding sthread_sem_up up_spec remove_node
up-nodes s a [] q c t u = (
  record s { sem = record (s.sem) { count = s.sem.count +ℤ pos 1 }; flag = 0 },
  rw (← t) (ground (arith, q.counted)),
  rw (← t, ← c)
      (record {
        nodes = [];
        queue = record { linked = tt; starts = q.starts; ends = tt; counted = q.counted };
        same_count = refl;
        threads = refl;
        unlocked = refl;
      }),
  rw (← t) refl,
)
up-nodes s a ((p, d) ∷ xs) q c t u = (
  record s {
    sem = record (s.sem) { start = first xs; sthread_count = s.sem.sthread_count - 1 };
    heap = write s.heap p none;
    flag = 0;
  },
  rw (← t) (ground (arith, q.counted, q.linked, q.starts)),
  rw (← t, ← c)
      (record {
        nodes = xs;
        queue = record {
          linked = Linked-frame _ s.heap xs q.linked.3 (λ b m. ground (arith, q.linked));
          starts = refl;
          ends = EndsAt-tail s.sem.head (p, d) xs q.ends;
          counted = ground (arith, q.counted);
        };
        same_count = refl;
        threads = refl;
        unlocked = refl;
      }),
  rw (← t) (ap (λ x. write s.heap x none) (sym q.starts)),
)

-- `up` hands the unit to the thread that has waited longest and frees its node, or adds the unit to
-- the count; it changes no other part of the heap.
pub up-Refines : (s : State) (a : Spec) → Represents s a → Releases s a
up-Refines s a r = up-nodes s a r.nodes r.queue r.same_count r.threads r.unlocked

-- After `init` the semaphore holds its count and nobody waits, whatever stood in the memory.
pub init-Refines :
    (count : ℤ) (s : State)
    → s.flag ≡ 0
    → Refines (sthread_sem_init count s) (pos 0, record { count = count; waiting = [] })
unfolding sthread_sem_init
init-Refines count s u = (
  record s { sem = init_sem count; flag = 0 },
  ground arith,
  record {
    nodes = [];
    queue = record { linked = tt; starts = refl; ends = tt; counted = refl };
    same_count = refl;
    threads = refl;
    unlocked = refl;
  },
)

length-ne-zero : (xs : Nodes) (ts : List ℕ) → map (λ x. x.1) xs ≡ ts → ts ≢ [] → length xs ≢ 0
length-ne-zero [] ts e ne = absurd (ne (sym e))
length-ne-zero (x ∷ xs) ts e ne = omega arith

-- `destroy` keeps `sthread_count`: with a thread still queued, the next caller that has to wait
-- follows a NULL `head`, whatever node `malloc` gives it.
pub down-after-destroy :
    (self : ℕ) (f : Ptr) (junk : Node) (s : State) (a : Spec)
    → Represents s a
    → a.waiting ≢ []
    → (s' : State) × (sthread_sem_destroy s ≡ ok (pos 0) s')
      × (sthread_sem_down self f junk s' ≡ fault)
unfolding sthread_sem_down sthread_sem_destroy
down-after-destroy self f junk s a r some_wait = (
  record s { sem = record (s.sem) { count = pos 0; head = null }; flag = 0 },
  ground (arith, r.unlocked),
  ground (
    arith,
    r.queue.counted,
    length-ne-zero r.nodes a.waiting r.threads some_wait,
    insert_node-null_head f junk self left,
  ),
)
  where
    left : State
    left = record s { sem = record (s.sem) { count = pos 0; head = null }; flag = 1 }
