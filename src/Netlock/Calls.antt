-- ===== src/Netlock/Calls.antt =====
-- What runs of the two calls do, where the local wait entry is empty, as `DEFINE_WAIT` makes it.
use osandroid_kernel.Prelude.{
  ℕ, zero, suc, ◌+◌, ◌-◌, ◌≤◌, ◌≡◌, refl, ap, ◌∙◌, Bool, true, false, none, some, List, [], ◌∷◌,
  leb, arith,
}
use osandroid_kernel.Prelude.Lists.{replicate, length, All}
use osandroid_kernel.Netlock.{
  LockType, net_lock_n, net_lock_r, net_lock_e, other_type, Netlock, boot, at_once, scheduled,
  acquire, release, netlock_acquire, netlock_release, before, then_acquire, then_release,
  acquire_all, release_all,
}

abbrev pub with_readers : ℕ → Netlock
with_readers n = record boot { reader_count = n }

readers :
    (n m : ℕ)
    → acquire_all (replicate n net_lock_r) (with_readers m)
      ≡ some (replicate n at_once, with_readers (m + n))
unfolding acquire_all netlock_acquire acquire then_acquire before
readers zero m = ap (λ k. some ([], with_readers k)) (omega arith)
readers (suc n) m =
    ap (before at_once) (readers n (m + 1))
    ∙ ap (λ k. some (at_once ∷ replicate n at_once, with_readers k)) (omega arith)

-- After `n` readers, the lock is granted to a writer at once, whatever `n` is.
pub acquire_all-readers-then-writer :
    (n : ℕ)
    → (s : Netlock) × (acquire_all (replicate n net_lock_r) boot ≡ some (replicate n at_once, s))
      × (s.reader_count ≡ n)
      × (netlock_acquire net_lock_e s ≡ some (at_once, record s { write_lock_available = false }))
unfolding netlock_acquire acquire
acquire_all-readers-then-writer n = (
  with_readers n,
  readers n 0 ∙ ap (λ k. some (replicate n at_once, with_readers k)) (omega arith),
  refl,
  refl,
)

-- `j` releases take `j` of the readers away.
releases :
    (j m : ℕ) (otherwise : Netlock → Netlock)
    → release_all j otherwise (with_readers (j + m)) ≡ some (with_readers m)
unfolding release_all then_release netlock_release release
releases zero m otherwise = ap (λ k. some (with_readers k)) (omega arith)
releases (suc zero) zero otherwise = refl
releases (suc j) (suc m) otherwise =
    let more : leb (suc j + suc m) 1 ≡ false = ground arith in
    let one_less : suc j + suc m - 1 ≡ j + suc m = omega arith in
    rw more
      (ap (λ k. release_all j otherwise (with_readers k)) one_less ∙ releases j (suc m) otherwise)
releases (suc (suc j)) zero otherwise =
    let more : leb (suc (suc j) + 0) 1 ≡ false = ground arith in
    let one_less : suc (suc j) + 0 - 1 ≡ suc j + 0 = omega arith in
    rw more (
      ap (λ k. release_all (suc j) otherwise (with_readers k)) one_less
      ∙ releases (suc j) zero otherwise)

-- `n` requests of readers are all granted at once. After `j` releases, at most `n`, there are `n - j`
-- readers and no other trace, so that after `n` releases the lock is as at first.
pub release_all-acquire_all :
    (n j : ℕ) (otherwise : Netlock → Netlock)
    → j ≤ n
    → (s : Netlock) × (acquire_all (replicate n net_lock_r) boot ≡ some (replicate n at_once, s))
      × (release_all j otherwise s ≡ some (record boot { reader_count = n - j }))
release_all-acquire_all n j otherwise le =
    let split : n ≡ j + (n - j) = omega (arith, le) in
    (
      with_readers n,
      readers n 0 ∙ ap (λ k. some (replicate n at_once, with_readers k)) (omega arith),
      ap (λ k. release_all j otherwise (with_readers k)) split ∙ releases j (n - j) otherwise,
    )

-- Whether a request asks for one of the two locks.
abbrev pub asks : LockType → Bool
asks net_lock_r = true
asks net_lock_e = true
asks net_lock_n = false
asks (other_type n) = false

-- While a writer has the lock, every request for a lock waits, and none of them leaves a trace in the
-- state: nobody can be granted the lock before a release.
pub acquire_all-under_writer :
    (ts : List LockType) (s : Netlock)
    → s.spinning ≡ false
    → s.write_lock_available ≡ false
    → All (λ t. asks t ≡ true) ts
    → acquire_all ts s ≡ some (replicate (length ts) scheduled, s)
unfolding acquire_all then_acquire before netlock_acquire acquire
acquire_all-under_writer [] s quiet taken h = refl
acquire_all-under_writer (t ∷ ts) s quiet taken h =
    ap (λ o. then_acquire o (λ s'. acquire_all ts s')) (waits t s quiet taken h.0)
    ∙ ap (before scheduled) (acquire_all-under_writer ts s quiet taken h.1)
  where
    waits :
        (t : LockType) (s : Netlock)
        → s.spinning ≡ false
        → s.write_lock_available ≡ false
        → asks t ≡ true
        → netlock_acquire t s ≡ some (scheduled, s)
    waits net_lock_r s quiet taken h = rw (quiet, taken)
    waits net_lock_e s quiet taken h = rw (quiet, taken)
    waits net_lock_n s quiet taken h = absurd (cc)
    waits (other_type n) s quiet taken h = absurd (cc)

-- A request of a type that is none of the three returns 0 and keeps the spin lock: from then on
-- every call spins for ever.
pub netlock_acquire-other_type :
    (n : ℕ) (s : Netlock) (t : LockType) (list_empty : Bool) (otherwise : Netlock → Netlock)
    → s.spinning ≡ false
    → (s' : Netlock) × (netlock_acquire (other_type n) s ≡ some (at_once, s'))
      × (netlock_acquire t s' ≡ none)
      × (netlock_release list_empty otherwise s' ≡ none)
unfolding netlock_acquire netlock_release acquire
netlock_acquire-other_type n s t list_empty otherwise quiet =
    (record s { spinning = true }, rw quiet refl, refl, refl)
