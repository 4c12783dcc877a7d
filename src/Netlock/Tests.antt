-- ===== src/Netlock/Tests.antt =====
-- The network lock at concrete inputs.
use osandroid_kernel.Prelude.{arith, ◌≡◌, false, some, [], ◌∷◌}
use osandroid_kernel.Prelude.Lists.{replicate}
use osandroid_kernel.Netlock.{
  net_lock_r, net_lock_e, Netlock, boot, at_once, netlock_acquire, acquire_all, release_all,
}
use osandroid_kernel.Netlock.Calls.{acquire_all-readers-then-writer, release_all-acquire_all}

acquire_all-readers-then-writer_example :
    (s : Netlock) × (acquire_all (net_lock_r ∷ net_lock_r ∷ []) boot
      ≡ some (at_once ∷ at_once ∷ [], s))
    × (s.reader_count ≡ 2)
    × (netlock_acquire net_lock_e s ≡ some (at_once, record s { write_lock_available = false }))
acquire_all-readers-then-writer_example = acquire_all-readers-then-writer 2

release_all-acquire_all_example :
    (s : Netlock) × (acquire_all (net_lock_r ∷ net_lock_r ∷ net_lock_r ∷ []) boot
      ≡ some (replicate 3 at_once, s))
    × (release_all 2 (λ x. x) s ≡ some (record boot { reader_count = 1 }))
release_all-acquire_all_example = release_all-acquire_all 3 2 (λ x. x) (omega arith)

abbrev written : Netlock
written = record boot { write_lock_available = false }
