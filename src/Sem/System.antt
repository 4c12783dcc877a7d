-- ===== src/Sem/System.antt =====
-- Threads that use one semaphore as a lock: each enters by `down` or `try_down` and leaves by `up`,
-- in any interleaving. `lock` makes each critical section one step; `sthread_wake`, which `up` calls after
-- the unlock, is a step of its own. The pipe that
-- `sthread_suspend` reads counts the messages that `sthread_wake` has written and nobody has read.
use osandroid_kernel.Prelude.{ℕ, ◌+◌, ◌-◌, ◌<◌, ◌≡◌, ◌≢◌, Bool, Option, none, some, if◌then◌else◌}
use osandroid_kernel.Prelude.Int.{ℤ, pos, eqb_ℤ}
use osandroid_kernel.Prelude.Families.{put_at}
use osandroid_kernel.Sem.{
  Ptr, null, Node, State, ok, sthread_sem_init, sthread_sem_down, sthread_sem_try_down,
  sthread_sem_up,
}

pub data Place : Type 0 where
  outside : Place  -- has not called `down`, or has called `up`
  waking : ℕ → Place  -- in `up`, after the unlock and before `sthread_wake` of that thread
  parked : Place  -- in `sthread_suspend`
  inside : Place  -- between `down` and `up`

pub record Thread : Type 0 where
  pub place : Place
  pub pipe : ℕ

pub record System : Type 0 where
  pub mem : State
  pub thread : ℕ → Thread

-- `sthread_wake`
abbrev pub wake : ℕ → (ℕ → Thread) → ℕ → Thread
wake t f = put_at t (record (f t) { pipe = (f t).pipe + 1 }) f

abbrev pub move : ℕ → Place → (ℕ → Thread) → ℕ → Thread
move i p f = put_at i (record (f i) { place = p }) f

-- Where `up` goes on, after the unlock.
abbrev pub after_up : Option ℕ → Place
after_up none = outside
after_up (some t) = waking t

pub data Step (n : ℕ) (s : System) : System → Type 0 where
  down :
      (i : ℕ) (f : Ptr) (junk : Node) (r : ℤ) (wait : Bool) (m : State)
      → i < n
      → (s.thread i).place ≡ outside
      → f ≢ null
      → s.mem.heap f ≡ none
      → sthread_sem_down i f junk s.mem ≡ ok (r, wait) m
      → Step n s (record { mem = m; thread = move i (if wait then parked else inside) s.thread })
  try_down :
      (i : ℕ) (r : ℤ) (m : State)
      → i < n
      → (s.thread i).place ≡ outside
      → sthread_sem_try_down s.mem ≡ ok r m
      → Step n s (record {
        mem = m;
        thread = move i (if eqb_ℤ r (pos 0) then inside else outside) s.thread;
      })
  resume :
      (i : ℕ)
      → i < n
      → (s.thread i).place ≡ parked
      → 0 < (s.thread i).pipe
      → Step n s (record s {
        thread = put_at i (record { place = inside; pipe = (s.thread i).pipe - 1 }) s.thread;
      })
  up :
      (i : ℕ) (r : ℤ) (woken : Option ℕ) (m : State)
      → i < n
      → (s.thread i).place ≡ inside
      → sthread_sem_up s.mem ≡ ok (r, woken) m
      → Step n s (record { mem = m; thread = move i (after_up woken) s.thread })
  deliver :
      (i t : ℕ)
      → i < n
      → (s.thread i).place ≡ waking t
      → Step n s (record s { thread = wake t (move i outside s.thread) })

-- The states that `n` threads reach from a semaphore that was initialised to `k`.
pub data Reach (n k : ℕ) : System → Type 0 where
  start :
      (raw m : State)
      → raw.flag ≡ 0
      → sthread_sem_init (pos k) raw ≡ ok (pos 0) m
      → Reach n k (record { mem = m; thread = λ _. record { place = outside; pipe = 0 } })
  later : {s t : System} → Reach n k s → Step n s t → Reach n k t
