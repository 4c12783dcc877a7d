-- ===== src/Sem.antt =====
-- The counting semaphore of hw3/sync.c over a heap of queue nodes. A command runs from a state to a
-- result, to a fault (a bad pointer), or spins on the lock. `sthread_suspend` and `sthread_wake`,
-- which the code calls after it has released the lock, are reported in the result.
pub mod Queue
pub mod Refine
pub mod System
pub mod Invariant
pub mod Safety
mod Tests
use osandroid_kernel.Prelude.{
  ℕ, suc, ◌+◌, ◌-◌, ◌≡◌, Bool, true, false, ◌&&◌, Option, none, some, ◌==◌, if◌then◌else◌,
}
use osandroid_kernel.Prelude.Int.{ℤ, pos, negsuc, ◌+ℤ◌, ◌-ℤ◌, ltb_ℤ, eqb_ℤ}

abbrev pub Ptr : Type 0
Ptr = ℕ

abbrev pub null : Ptr
null = 0

-- `struct Node`; a thread is its number.
pub record Node : Type 0 where
  pub data' : ℕ
  pub next : Ptr

abbrev pub node : ℕ → Ptr → Node
node d q = record { data' = d; next = q }

abbrev pub Heap : Type 0
Heap = Ptr → Option Node

abbrev pub write : Heap → Ptr → Option Node → Heap
write h p c a = if a == p then c else h a

-- `struct sthread_sem_struct`. `sthread_count` is never decreased at 0.
pub record Sem : Type 0 where
  pub count : ℤ
  pub sthread_count : ℕ
  pub head : Ptr
  pub start : Ptr

-- A semaphore, the heap, and the global spin lock `flag`.
pub record State : Type 0 where
  pub sem : Sem
  pub heap : Heap
  pub flag : ℕ

pub data Run (A : Type 0) : Type 0 where
  ok : A → State → Run A
  fault : Run A
  spin : Run A

abbrev pub M : Type 0 → Type 0
M A = State → Run A

module _ {A B : Type 0} where
  abbrev pub and_then : Run A → (A → M B) → Run B
  and_then (ok a s) k = k a s
  and_then fault k = fault
  and_then spin k = spin

  infixl 5 ◌>>=◌ ◌>>◌
  abbrev pub ◌>>=◌ : M A → (A → M B) → M B
  ◌>>=◌ m k s = and_then (m s) k

  abbrev pub ◌>>◌ : M A → M B → M B
  ◌>>◌ m n s = and_then (m s) (λ _. n)

abbrev pub pure : {A : Type 0} → A → M A
pure = ok

abbrev pub get : M Sem
get s = ok s.sem s

abbrev pub put : Sem → M (Unit {0})
put x s = ok tt (record s { sem = x })

abbrev pub store : Ptr → Option Node → M (Unit {0})
store p c s = ok tt (record s { heap = write s.heap p c })

-- `*p`, a fault at `NULL` and at an address that holds no node.
abbrev pub load : Ptr → M Node
load p s = if p == null then fault else elim (s.heap p) [ none ↦ fault | some n ↦ ok n s ]

-- `malloc` answers `p`, a node of any content, or nothing if `p` is `NULL`.
abbrev pub malloc : Ptr → Node → M Ptr
malloc p junk = if p == null then pure p else do store p (some junk); pure p

abbrev pub set_data : Ptr → ℕ → M (Unit {0})
set_data p d = do n ← load p; store p (some (record n { data' = d }))

abbrev pub set_next : Ptr → Ptr → M (Unit {0})
set_next p q = do n ← load p; store p (some (record n { next = q }))

abbrev pub free : Ptr → M (Unit {0})
free p = do load p >> store p none

-- `while (test_and_set(&flag));`
pub lock : M (Unit {0})
lock s = if s.flag == 0 then ok tt (record s { flag = 1 }) else spin

pub unlock : M (Unit {0})
unlock s = ok tt (record s { flag = 0 })

pub insert_node : Ptr → Node → ℕ → M (Unit {0})
insert_node fresh junk d = do
  s ← get
  if s.sthread_count == 0
      then (do
        p ← malloc fresh junk
        put (record s { head = p; start = p })
        set_data p d
        set_next p null
        put (record s { head = p; start = p; sthread_count = s.sthread_count + 1 }))
      else (do
        temp ← malloc fresh junk
        set_next s.head temp
        set_data temp d
        set_next temp null
        put (record s { head = temp; sthread_count = s.sthread_count + 1 }))

pub remove_node : M Ptr
remove_node = do
  s ← get
  n ← load s.start
  put (record s { start = n.next; sthread_count = s.sthread_count - 1 })
  pure s.start

abbrev init_sem : ℤ → Sem
init_sem count = record { count = count; sthread_count = 0; head = null; start = null }

pub sthread_sem_init : ℤ → M ℤ
unfolding lock unlock
sthread_sem_init count = do
  lock
  put (init_sem count)
  s ← get
  let ret : ℤ = if eqb_ℤ s.count count && s.head == null then pos 0 else negsuc 0
  unlock
  pure ret

pub sthread_sem_destroy : M ℤ
unfolding lock unlock
sthread_sem_destroy = do
  lock
  s ← get
  put (record s { count = pos 0; head = null })
  s' ← get
  let ret : ℤ = if eqb_ℤ s'.count (pos 0) && s'.head == null then pos 0 else negsuc 0
  unlock
  pure ret

-- The result is the return value and whether the caller suspends itself before it returns.
pub sthread_sem_down : ℕ → Ptr → Node → M (ℤ × Bool)
unfolding lock unlock
sthread_sem_down self fresh junk = do
  lock
  s ← get
  if ltb_ℤ (pos 0) s.count
      then (do put (record s { count = s.count -ℤ pos 1 }); unlock; pure (pos 0, false))
      else (do insert_node fresh junk self; unlock; pure (negsuc 0, true))

pub sthread_sem_try_down : M ℤ
unfolding lock unlock
sthread_sem_try_down = do
  lock
  s ← get
  if ltb_ℤ (pos 0) s.count
      then (do put (record s { count = s.count -ℤ pos 1 }); unlock; pure (pos 0))
      else (do unlock; pure (negsuc 0))

-- The result is the return value and the thread that `sthread_wake` is called on, if any.
pub sthread_sem_up : M (ℤ × Option ℕ)
unfolding lock unlock
sthread_sem_up = do
  lock
  s ← get
  if s.sthread_count == 0
      then (do put (record s { count = s.count +ℤ pos 1 }); unlock; pure (pos 0, none))
      else (do
        longest ← remove_node
        n ← load longest
        free longest
        unlock
        pure (pos 0, some n.data'))
