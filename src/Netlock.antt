-- ===== src/Netlock.antt =====
-- The network lock of hw3/netlock.c: its counters, and what a system call does to them. The local
-- `DEFINE_WAIT(wait_queue)` of both calls hides the global queue. What `list_empty` answers of it is
-- an argument; the branch of a list that is not empty is not modelled. A caller that has to wait puts
-- itself on a queue head of its own, which nothing else refers to.
pub mod Calls
mod Tests
use osandroid_kernel.Prelude.{
  ℕ, zero, suc, ◌+◌, ◌-◌, ◌≡◌, Bool, true, false, ◌&&◌, not, Option, none, some, List, [], ◌∷◌, leb,
  if◌then◌else◌,
}

-- `netlock_t`; a system call may pass any other number.
pub data LockType : Type 0 where
  net_lock_n net_lock_r net_lock_e : LockType
  other_type : ℕ → LockType

-- `spinning`: the spin lock is held. The count does not wrap.
pub record Netlock : Type 0 where
  pub reader_count : ℕ
  pub read_lock_available : Bool
  pub write_lock_available : Bool
  pub spinning : Bool

abbrev pub boot : Netlock
boot = record {
  reader_count = 0;
  read_lock_available = true;
  write_lock_available = true;
  spinning = false;
}

-- How a call goes on: it returns -1, it returns 0 at once, or it returns 0 once `schedule` returns.
pub data Reply : Type 0 where
  refused at_once scheduled : Reply

acquire : LockType → Netlock → Reply × Netlock
acquire net_lock_r s =
    if s.write_lock_available
    then (at_once, record s { reader_count = s.reader_count + 1 })
    else (scheduled, s)
acquire net_lock_e s =
    if s.write_lock_available && s.read_lock_available
    then (at_once, record s { write_lock_available = false })
    else (scheduled, s)
acquire net_lock_n s = (refused, s)
acquire (other_type n) s = (at_once, record s { spinning = true })

-- `none`: the call spins for ever.
pub netlock_acquire : LockType → Netlock → Option (Reply × Netlock)
unfolding acquire
netlock_acquire type s = if s.spinning then none else some (acquire type s)

release : Netlock → Netlock
release s =
    if leb s.reader_count 1
    then record s { reader_count = 0; read_lock_available = true; write_lock_available = true }
    else record s { reader_count = s.reader_count - 1 }

-- `list_empty` is what the test of the local wait entry answers, and `otherwise` the branch for a
-- list that is not empty.
pub netlock_release : (list_empty : Bool) (otherwise : Netlock → Netlock) → Netlock → Option Netlock
unfolding release
netlock_release list_empty otherwise s =
    if s.spinning then none else some (if list_empty then release s else otherwise s)

-- The replies so far, and the state they lead to.
abbrev pub Run : Type 0
Run = Option (List Reply × Netlock)

before : Reply → Run → Run
before r none = none
before r (some (rs, s)) = some (r ∷ rs, s)

then_acquire : Option (Reply × Netlock) → (Netlock → Run) → Run
unfolding before
then_acquire none next = none
then_acquire (some (r, s)) next = before r (next s)

-- A run of requests, with the reply to each.
pub acquire_all : List LockType → Netlock → Run
unfolding then_acquire
acquire_all [] s = some ([], s)
acquire_all (t ∷ ts) s = then_acquire (netlock_acquire t s) (λ s'. acquire_all ts s')

then_release : Option Netlock → (Netlock → Option Netlock) → Option Netlock
then_release none next = none
then_release (some s) next = next s

pub release_all : ℕ → (otherwise : Netlock → Netlock) → Netlock → Option Netlock
unfolding then_release
release_all zero otherwise s = some s
release_all (suc n) otherwise s =
    then_release (netlock_release true otherwise s) (λ s'. release_all n otherwise s')
