-- ===== src/Slowpath/Never.antt =====
-- A small allocation that may wait never fails: it gets a page or goes on trying.
use osandroid_kernel.Prelude.{
  ℕ, zero, suc, ◌+◌, ◌<◌, ◌≡◌, ◌≢◌, ◌⊎◌, inl, inr, Bool-cases, sym, ap, ◌∙◌, true, false, not, ◌&&◌,
  ◌||◌, Option, none, some, ltb, leb, ◌==◌, if◌then◌else◌, if_elim, arith,
}
use mathlib.Core.Path.{subst}
use osandroid_kernel.Slowpath.{
  AllocFlags, Memory, Got, AllocRequest, Services, Looping, Next, returns, rebalances, restarts,
  tries_again, costly_order, may_oom, gfp_to_alloc_flags, direct_compact, direct_reclaim, no_page,
  retry, go_oom, after_reclaim_failed, reclaim, compact, balance, high_priority, rebalance, restart,
  go_rounds, alloc_pages_slowpath, very_high,
}
use osandroid_kernel.Slowpath.Calm.{
  IsOrderly, IsPatient, IsCalm, IsPage, GoesWell, calm, page_or-GoesWell, skip, and_false,
  false_and, IsExcused, get_page-calm, compact-calm, reclaim-calm, oom-calm, always_retries,
}

module _ (v : Services) (r : AllocRequest) (o : IsOrderly v) (p : IsPatient r) where
  retry-GoesWell :
      (progress : ℕ) (l : Looping) → IsCalm l.memory.task → GoesWell (retry v r progress l)
  retry-GoesWell progress l h =
      rw (always_retries v r o p progress (l.pages_reclaimed + progress))
        (calm l.memory.task (v.wait_iff_congested l.memory).task (o.wait-task l.memory) h)

  oom-GoesWell : (l : Looping) → IsCalm l.memory.task → GoesWell (go_oom v r l)
  oom-GoesWell l h =
      let g = may_oom v r l.memory in
      let low : (ltb costly_order r.order || not r.normal) ≡ false =
        ap (λ b. ltb costly_order r.order || not b) p.not_low ∙ ground (arith, p.small) in
      skip GoesWell v.disabled _ _ o.enabled (
        skip GoesWell (l.memory.task.pf_dumpcore && not r.gfp.nofail) _ _
          (false_and l.memory.task.pf_dumpcore (not r.gfp.nofail) h.1)
          (page_or-GoesWell v r o p g.page g.memory
            (λ mem.
              if not r.gfp.nofail && (ltb costly_order r.order || not r.normal)
              then no_page v r mem
              else restarts (record l { memory = mem }))
            (skip GoesWell (not r.gfp.nofail && (ltb costly_order r.order || not r.normal)) _ _
              (and_false (not r.gfp.nofail) (ltb costly_order r.order || not r.normal) low)
              (oom-calm v r o p l.memory h))))

  reclaim-GoesWell : (l : Looping) → IsCalm l.memory.task → GoesWell (reclaim v r l)
  reclaim-GoesWell l h =
      let f = direct_reclaim v r l.alloc_flags l.memory in
      let l' : Looping = record l { memory = f.memory } in
      let after = reclaim-calm v r o p l.alloc_flags l.memory h in
      skip GoesWell (l.deferred_compaction && r.gfp.no_kswapd) _ _
        (and_false l.deferred_compaction r.gfp.no_kswapd p.no_no_kswapd)
        (page_or-GoesWell v r o p f.page f.memory
          (λ mem. after_reclaim_failed v r f.progress (record l { memory = mem }))
          (if_elim GoesWell ((f.progress == 0) && (r.gfp.fs && not r.gfp.noretry)) (go_oom v r l')
            (retry v r f.progress l') (oom-GoesWell l' after) (retry-GoesWell f.progress l' after)))

  compact-GoesWell : (l : Looping) → IsCalm l.memory.task → GoesWell (compact v r l)
  compact-GoesWell l h =
      let c = direct_compact v r l.alloc_flags l.sync_migration l.deferred_compaction l.memory in
      let l' : Looping = record l {
        memory = c.memory;
        sync_migration = true;
        deferred_compaction = c.deferred;
      } in
      page_or-GoesWell v r o p c.page c.memory
        (λ mem.
          reclaim v r
            (record l { memory = mem; sync_migration = true; deferred_compaction = c.deferred }))
        (reclaim-GoesWell l'
          (compact-calm v r o p l.alloc_flags l.sync_migration l.deferred_compaction l.memory h))

  balance-GoesWell : (l : Looping) → IsCalm l.memory.task → GoesWell (balance v r l)
  balance-GoesWell l h = skip GoesWell (not r.gfp.wait) _ _ (ap not p.waits) (
      skip GoesWell l.memory.task.pf_memalloc _ _ h.0
        (elim (Bool-cases (l.memory.task.tif_memdie && not r.gfp.nofail)) [
          | inl dying ↦ rw dying (inr (ground arith))
          | inr alive ↦ skip GoesWell _ _ _ alive (compact-GoesWell l h)
        ]))

  high_priority-GoesWell : (l : Looping) → IsCalm l.memory.task → GoesWell (high_priority v r l)
  unfolding high_priority
  high_priority-GoesWell l h =
      let flags : AllocFlags = record (very_high v r) {
        wmark = 0;
        cpuset = false;
        no_watermarks = true;
      } in
      let g = v.get_page flags l.memory in
      let after = get_page-calm v r o p flags l.memory h in
      page_or-GoesWell v r o p g.page g.memory
        (λ mem.
          if r.gfp.nofail
          then tries_again (record l { memory = v.wait_iff_congested mem })
          else balance v r (record l { memory = mem }))
        (if_elim GoesWell r.gfp.nofail
          (tries_again (record l { memory = v.wait_iff_congested g.memory }))
          (balance v r (record l { memory = g.memory }))
          (calm g.memory.task (v.wait_iff_congested g.memory).task (o.wait-task g.memory) after)
          (balance-GoesWell (record l { memory = g.memory }) after))

  rebalance-GoesWell : (l : Looping) → IsCalm l.memory.task → GoesWell (rebalance v r l)
  unfolding rebalance
  rebalance-GoesWell l h =
      let flags : AllocFlags = record l.alloc_flags { no_watermarks = false } in
      let g = v.get_page flags l.memory in
      let l' : Looping = record l { memory = g.memory } in
      let after = get_page-calm v r o p flags l.memory h in
      page_or-GoesWell v r o p g.page g.memory
        (λ mem.
          if l.alloc_flags.no_watermarks
          then high_priority v r (record l { memory = mem })
          else balance v r (record l { memory = mem }))
        (if_elim GoesWell l.alloc_flags.no_watermarks (high_priority v r l') (balance v r l')
          (high_priority-GoesWell l' after) (balance-GoesWell l' after))

  restart-GoesWell : (l : Looping) → IsCalm l.memory.task → GoesWell (restart v r l)
  unfolding restart
  restart-GoesWell l h =
      let mem : Memory = if r.gfp.no_kswapd then l.memory else v.wake_all_kswapd l.memory in
      rebalance-GoesWell (record l { memory = mem; alloc_flags = gfp_to_alloc_flags r mem.task })
        (if_elim (λ (x : Memory). IsCalm x.task) r.gfp.no_kswapd l.memory
          (v.wake_all_kswapd l.memory) h
          (calm l.memory.task (v.wake_all_kswapd l.memory).task (o.wake-task l.memory) h))

  -- A result, if there is one yet, has a page, unless the killer has chosen `current`.
  abbrev pub IsFound : Option Got → Type 0
  IsFound none = Unit
  IsFound (some g) = (g.page ≢ none) ⊎ (g.memory.task.tif_memdie ≡ true)

  found : (g : Got) → IsExcused g → IsFound (some g)
  found g (inl page) = inl (λ e. subst IsPage e page)
  found g (inr dying) = inr dying

  go_rounds-IsFound : (rounds : ℕ) (n : Next) → GoesWell n → IsFound (go_rounds v r rounds n)
  unfolding go_rounds
  go_rounds-IsFound zero (returns g) h = found g h
  go_rounds-IsFound zero (rebalances l) h = tt
  go_rounds-IsFound zero (restarts l) h = tt
  go_rounds-IsFound zero (tries_again l) h = tt
  go_rounds-IsFound (suc rounds) (returns g) h = found g h
  go_rounds-IsFound (suc rounds) (rebalances l) h =
      go_rounds-IsFound rounds (rebalance v r l) (rebalance-GoesWell l h)
  go_rounds-IsFound (suc rounds) (restarts l) h =
      go_rounds-IsFound rounds (restart v r l) (restart-GoesWell l h)
  go_rounds-IsFound (suc rounds) (tries_again l) h =
      go_rounds-IsFound rounds (high_priority v r l) (high_priority-GoesWell l h)

  -- A request of an order up to 3 that may wait, for no low zone, without `__GFP_NORETRY` and
  -- `__GFP_NO_KSWAPD`, never fails in the slow path, however long that takes: what it answers is a
  -- page, unless `current` has TIF_MEMDIE by then, being chosen by the killer. This is with the
  -- killer not disabled and storage not suspended, for a `current` without PF_MEMALLOC and
  -- PF_DUMPCORE, when no service changes these two flags of it.
  pub alloc_pages_slowpath-IsFound :
      (rounds max_order : ℕ) (mem : Memory)
      → r.order < max_order
      → IsCalm mem.task
      → IsFound (alloc_pages_slowpath v r rounds max_order mem)
  unfolding alloc_pages_slowpath
  alloc_pages_slowpath-IsFound rounds max_order mem lt h =
      let l : Looping = record {
        memory = mem;
        alloc_flags = gfp_to_alloc_flags r mem.task;
        sync_migration = false;
        deferred_compaction = false;
        pages_reclaimed = 0;
      } in
      let fits : leb max_order r.order ≡ false = ground (arith, lt) in
      subst
        (λ b. IsFound (
          if b
          then some (record { page = none; memory = mem })
          else go_rounds v r rounds (restart v r l)))
        (sym fits) (go_rounds-IsFound rounds (restart v r l) (restart-GoesWell l h))
