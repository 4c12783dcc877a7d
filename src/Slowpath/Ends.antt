-- ===== src/Slowpath/Ends.antt =====
-- A request that may not wait, or not retry, is answered in its first round.
use osandroid_kernel.Prelude.{
  ℕ, zero, ◌+◌, ◌≡◌, refl, sym, ap, Bool, true, false, not, ◌&&◌, ◌⊎◌, inl, inr, Option, none, some,
  leb, ◌==◌, if◌then◌else◌, if_elim,
}
use mathlib.Core.Path.{subst}
use osandroid_kernel.Slowpath.{
  AllocFlags, Memory, Got, AllocRequest, Services, Looping, Next, returns, rebalances, restarts,
  tries_again, should_alloc_retry, gfp_to_alloc_flags, direct_compact, direct_reclaim, page_or,
  no_page, retry, after_reclaim_failed, reclaim, compact, balance, high_priority, rebalance,
  restart, go_rounds, alloc_pages_slowpath, very_high,
}
use osandroid_kernel.Slowpath.Calm.{skip, and_false}

abbrev IsOver : Next → Type 0
IsOver (returns g) = Unit
IsOver (rebalances l) = ⊥
IsOver (restarts l) = ⊥
IsOver (tries_again l) = ⊥

module _ (v : Services) (r : AllocRequest) where
  page_or-IsOver :
      (page : Option (ℕ × ℕ)) (mem : Memory) (otherwise : Memory → Next)
      → IsOver (otherwise mem)
      → IsOver (page_or v r page mem otherwise)
  page_or-IsOver none mem otherwise h = h
  page_or-IsOver (some page) mem otherwise h = tt

  module _ (once : r.gfp.noretry ≡ true) where
    no_retry :
        (progress reclaimed : ℕ)
        → should_alloc_retry r.gfp r.order v.suspended progress reclaimed ≡ false
    unfolding should_alloc_retry
    no_retry progress reclaimed = rw once refl

    retry-IsOver : (progress : ℕ) (l : Looping) → IsOver (retry v r progress l)
    retry-IsOver progress l =
        let reclaimed = l.pages_reclaimed + progress in
        let c = direct_compact v r l.alloc_flags l.sync_migration l.deferred_compaction l.memory in
        skip IsOver (should_alloc_retry r.gfp r.order v.suspended progress reclaimed) _ _
          (no_retry progress reclaimed) (page_or-IsOver c.page c.memory (no_page v r) tt)

    reclaim-IsOver : (l : Looping) → IsOver (reclaim v r l)
    reclaim-IsOver l =
        let f = direct_reclaim v r l.alloc_flags l.memory in
        let l' : Looping = record l { memory = f.memory } in
        if_elim IsOver (l.deferred_compaction && r.gfp.no_kswapd) (no_page v r l.memory)
          (page_or v r f.page f.memory
            (λ mem. after_reclaim_failed v r f.progress (record l { memory = mem })))
          tt
          (page_or-IsOver f.page f.memory
            (λ mem. after_reclaim_failed v r f.progress (record l { memory = mem }))
            (skip IsOver ((f.progress == 0) && (r.gfp.fs && not r.gfp.noretry)) _ _
              (and_false (f.progress == 0) (r.gfp.fs && not r.gfp.noretry)
                (and_false r.gfp.fs (not r.gfp.noretry) (ap not once)))
              (retry-IsOver f.progress l')))

    compact-IsOver : (l : Looping) → IsOver (compact v r l)
    compact-IsOver l =
        let c = direct_compact v r l.alloc_flags l.sync_migration l.deferred_compaction l.memory in
        page_or-IsOver c.page c.memory
          (λ mem.
            reclaim v r
              (record l { memory = mem; sync_migration = true; deferred_compaction = c.deferred }))
          (reclaim-IsOver (record l {
            memory = c.memory;
            sync_migration = true;
            deferred_compaction = c.deferred;
          }))

  module _ (hurries : (r.gfp.wait ≡ false) ⊎ (r.gfp.noretry ≡ true))
      (may_fail : r.gfp.nofail ≡ false) where
    balance-IsOver : (l : Looping) → IsOver (balance v r l)
    balance-IsOver l = elim hurries [
      | inl atomic ↦
          subst (λ b. IsOver (if not b then no_page v r l.memory else waiting)) (sym atomic) tt
      | inr once ↦ if_elim IsOver (not r.gfp.wait) (no_page v r l.memory) waiting tt (
          if_elim IsOver l.memory.task.pf_memalloc (no_page v r l.memory) killed tt (
            if_elim IsOver (l.memory.task.tif_memdie && not r.gfp.nofail) (no_page v r l.memory)
              (compact v r l) tt (compact-IsOver once l)))
    ]
      where
        killed : Next
        killed =
            if l.memory.task.tif_memdie && not r.gfp.nofail
            then no_page v r l.memory
            else compact v r l

        waiting : Next
        waiting = if l.memory.task.pf_memalloc then no_page v r l.memory else killed

    high_priority-IsOver : (l : Looping) → IsOver (high_priority v r l)
    unfolding high_priority
    high_priority-IsOver l =
        let flags : AllocFlags = record (very_high v r) {
          wmark = 0;
          cpuset = false;
          no_watermarks = true;
        } in
        let g = v.get_page flags l.memory in
        page_or-IsOver g.page g.memory
          (λ mem.
            if r.gfp.nofail
            then tries_again (record l { memory = v.wait_iff_congested mem })
            else balance v r (record l { memory = mem }))
          (skip IsOver r.gfp.nofail _ _ may_fail (balance-IsOver (record l { memory = g.memory })))

    restart-IsOver : (l : Looping) → IsOver (restart v r l)
    unfolding restart rebalance
    restart-IsOver l =
        let mem : Memory = if r.gfp.no_kswapd then l.memory else v.wake_all_kswapd l.memory in
        let all : AllocFlags = gfp_to_alloc_flags r mem.task in
        let l' : Looping = record l { memory = mem; alloc_flags = all } in
        let flags : AllocFlags = record all { no_watermarks = false } in
        let g = v.get_page flags mem in
        page_or-IsOver g.page g.memory
          (λ x.
            if all.no_watermarks
            then high_priority v r (record l' { memory = x })
            else balance v r (record l' { memory = x }))
          (if_elim IsOver all.no_watermarks (high_priority v r (record l' { memory = g.memory }))
            (balance v r (record l' { memory = g.memory }))
            (high_priority-IsOver (record l' { memory = g.memory }))
            (balance-IsOver (record l' { memory = g.memory })))

    over-some : (n : Next) → IsOver n → (g : Got) × (go_rounds v r zero n ≡ some g)
    unfolding go_rounds
    over-some (returns g) h = (g, refl)
    over-some (rebalances l) h = absurd h
    over-some (restarts l) h = absurd h
    over-some (tries_again l) h = absurd h

    -- A request that may not wait or is told not to retry, and may fail, is answered in the first round of
    -- the slow path, whatever compaction, reclaim and the allocator do.
    pub alloc_pages_slowpath-returns :
        (max_order : ℕ) (mem : Memory)
        → (g : Got) × (alloc_pages_slowpath v r zero max_order mem ≡ some g)
    unfolding alloc_pages_slowpath
    alloc_pages_slowpath-returns max_order mem = split (leb max_order r.order)
      where
        l : Looping
        l = record {
          memory = mem;
          alloc_flags = gfp_to_alloc_flags r mem.task;
          sync_migration = false;
          deferred_compaction = false;
          pages_reclaimed = 0;
        }

        split :
            (b : Bool)
            → (g : Got) × ((if b
                  then some (record { page = none; memory = mem })
                  else go_rounds v r zero (restart v r l))
                ≡ some g)
        split true = (record { page = none; memory = mem }, refl)
        split false = over-some (restart v r l) (restart-IsOver l)
