-- ===== src/Slowpath.antt =====
-- `__alloc_pages_slowpath` of hw5/mm/page_alloc.c and what it is made of: an allocation that found no
-- page tries compaction, reclaim and the out-of-memory killer in turn, and starts over. The
-- configuration has no NUMA nodes. The memory is the state, `current` with it, since others change
-- it meanwhile; what the functions of other files do to it is an interface.
pub mod Killer
pub mod Calm
pub mod Never
pub mod Ends
mod Tests
use osandroid_kernel.Prelude.{
  ℕ, zero, suc, ◌+◌, ◌^◌, Bool, true, false, not, ◌&&◌, ◌||◌, Option, none, some, List, ltb, leb,
  ◌==◌, if◌then◌else◌,
}
use osandroid_kernel.Buddy.{Machine, Migratetype}
use osandroid_kernel.Buddy.Bulk.{BulkRequest}
use osandroid_kernel.Buddy.Zonelist.{Zones, ScanFlags, Outside, get_page_from_freelist}
use osandroid_kernel.Oom.Zones.{Locks, try_set_zonelist_oom, clear_zonelist_oom}

-- The bits of `gfp_mask`, without the prefix.
pub record Gfp : Type 0 where
  pub wait : Bool
  pub high : Bool
  pub nomemalloc : Bool
  pub nofail : Bool
  pub noretry : Bool
  pub repeat : Bool
  pub fs : Bool
  pub no_kswapd : Bool
  pub thisnode : Bool

-- What is asked of `current`.
pub record Task : Type 0 where
  pub pf_memalloc : Bool
  pub pf_dumpcore : Bool
  pub tif_memdie : Bool
  pub rt_task : Bool
  pub in_interrupt : Bool

-- ALLOC_WMARK_MIN, ALLOC_WMARK_LOW and ALLOC_WMARK_HIGH are 0, 1 and 2.
pub record AllocFlags : Type 0 where
  pub wmark : ℕ
  pub cpuset : Bool
  pub high : Bool
  pub harder : Bool
  pub cma : Bool
  pub no_watermarks : Bool

pub record Memory : Type 0 where
  pub zones : Zones
  pub locks : Locks
  pub task : Task

-- A page is its number and its zone.
pub record Got : Type 0 where
  pub page : Option (ℕ × ℕ)
  pub memory : Memory

-- The arguments; `normal` is `high_zoneidx >= ZONE_NORMAL`, and `movable_cma` is whether the type is movable
-- and CONFIG_CMA is set.
pub record AllocRequest : Type 0 where
  pub gfp : Gfp
  pub order : ℕ
  pub zonelist : List ℕ
  pub normal : Bool
  pub movable_cma : Bool

-- `compaction_deferred`, whether `try_to_compact_pages` did not skip, what follows a compaction
-- without a page, `try_to_free_pages`, the waits, the wake-ups, and what `out_of_memory` does to the
-- memory. `disabled` is `oom_killer_disabled` and `suspended` is `pm_suspended_storage`.
pub record Services : Type 0 where
  pub get_page : AllocFlags → Memory → Got
  pub compaction : Bool
  pub compaction_deferred : Memory → Bool
  pub try_to_compact_pages : (sync : Bool) → Memory → Bool × Memory
  pub compaction_failed : (sync : Bool) → Memory → Memory
  pub drain_pages : Memory → Memory
  pub drain_all_pages : Memory → Memory
  pub try_to_free_pages : Memory → ℕ × Memory
  pub out_of_memory : Memory → Memory
  pub schedule_timeout : Memory → Memory
  pub wait_iff_congested : Memory → Memory
  pub wake_all_kswapd : Memory → Memory
  pub disabled : Bool
  pub suspended : Bool

-- `get_page_from_freelist` as such a service.
abbrev pub from_freelist :
    (ℕ → Machine)
    → ℕ
    → (Migratetype → ℕ)
    → BulkRequest
    → (ℕ → Bool)
    → (AllocFlags → Outside)
    → (write : Bool) → List ℕ
    → AllocFlags
    → Memory
    → Got
from_freelist m pcptypes encode r accepted outside write zonelist flags mem =
    let scan : ScanFlags = record {
      cpuset = flags.cpuset;
      wmark_low = flags.wmark == 1;
      no_watermarks = flags.no_watermarks;
      write = write;
    } in
    let found =
      get_page_from_freelist m pcptypes encode r accepted (outside flags) scan zonelist mem.zones in
    record { page = found.page; memory = record mem { zones = found.zones } }

abbrev pub set_memalloc : Bool → Memory → Memory
set_memalloc b mem = record mem { task = record mem.task { pf_memalloc = b } }

unfoldable pub gfp_to_alloc_flags : AllocRequest → Task → AllocFlags
gfp_to_alloc_flags r t =
    let harder = if not r.gfp.wait then not r.gfp.nomemalloc else t.rt_task && not t.in_interrupt in
    record {
      wmark = 0;
      cpuset = r.gfp.wait;
      high = r.gfp.high;
      harder = harder;
      cma = r.movable_cma;
      no_watermarks =
          not r.gfp.nomemalloc && (not t.in_interrupt && (t.pf_memalloc || t.tif_memdie));
    }

abbrev pub costly_order : ℕ
costly_order = 3

unfoldable pub should_alloc_retry :
    Gfp → (order : ℕ) → (suspended : Bool) → (progress reclaimed : ℕ) → Bool
should_alloc_retry gfp order suspended progress reclaimed =
    if gfp.noretry
    then false
    else if gfp.nofail
    then true
    else if (progress == 0) && suspended
    then false
    else if leb order costly_order
    then true
    else gfp.repeat && ltb reclaimed (2 ^ order)

-- What `__alloc_pages_direct_compact` answers, with `*deferred_compaction`.
pub record Compacted : Type 0 where
  pub page : Option (ℕ × ℕ)
  pub deferred : Bool
  pub memory : Memory

-- What `__alloc_pages_direct_reclaim` answers, with `*did_some_progress`.
pub record Freed : Type 0 where
  pub page : Option (ℕ × ℕ)
  pub progress : ℕ
  pub memory : Memory

-- The local variables of `__alloc_pages_slowpath`.
pub record Looping : Type 0 where
  pub memory : Memory
  pub alloc_flags : AllocFlags
  pub sync_migration : Bool
  pub deferred_compaction : Bool
  pub pages_reclaimed : ℕ

-- The end of a round: the function returns, goes on from a label, or stays in the loop of
-- `__alloc_pages_high_priority`.
pub data Next : Type 0 where
  returns : Got → Next
  rebalances : Looping → Next
  restarts : Looping → Next
  tries_again : Looping → Next

module _ (v : Services) (r : AllocRequest) where
  -- ALLOC_WMARK_HIGH | ALLOC_CPUSET.
  abbrev pub very_high : AllocFlags
  very_high = record {
    wmark = 2;
    cpuset = true;
    high = false;
    harder = false;
    cma = false;
    no_watermarks = false;
  }

  abbrev pub clear_oom : Memory → Memory
  clear_oom mem = record mem { locks = clear_zonelist_oom r.zonelist mem.locks }

  -- The killer is of no help.
  abbrev pub spares : Bool
  spares = not r.gfp.nofail && (ltb costly_order r.order || (not r.normal || r.gfp.thisnode))

  abbrev pub under_locks : Got → Got
  under_locks g = elim g.page [
    | some page ↦ record { page = some page; memory = clear_oom g.memory }
    | none ↦ record {
      page = none;
      memory = clear_oom (if spares then g.memory else v.out_of_memory g.memory);
    }
  ]

  -- `__alloc_pages_may_oom`.
  unfoldable pub may_oom : Memory → Got
  may_oom mem =
      let taken = try_set_zonelist_oom r.zonelist mem.locks in
      let locked : Memory = record mem { locks = taken.1 } in
      if taken.0
      then under_locks (v.get_page very_high locked)
      else record { page = none; memory = v.schedule_timeout locked }

  abbrev pub after_compaction : (sync deferred : Bool) → Got → Compacted
  after_compaction sync deferred g = elim g.page [
    | some page ↦ record { page = some page; deferred = deferred; memory = g.memory }
    | none ↦ record { page = none; deferred = deferred; memory = v.compaction_failed sync g.memory }
  ]

  -- `__alloc_pages_direct_compact`, which does nothing without CONFIG_COMPACTION. The fields that the
  -- preferred zone gets after a success are left out.
  unfoldable pub direct_compact : AllocFlags → (sync deferred : Bool) → Memory → Compacted
  direct_compact flags sync deferred mem =
      let c = v.try_to_compact_pages sync (set_memalloc true mem) in
      let compacted = set_memalloc false c.1 in
      if not v.compaction || r.order == 0
      then record { page = none; deferred = deferred; memory = mem }
      else if v.compaction_deferred mem
      then record { page = none; deferred = true; memory = mem }
      else if c.0
      then after_compaction sync deferred (v.get_page flags (v.drain_pages compacted))
      else record { page = none; deferred = deferred; memory = compacted }

  abbrev pub drain_and_retry : AllocFlags → Got → Got
  drain_and_retry flags g = elim g.page [
    | some page ↦ g
    | none ↦ v.get_page flags (v.drain_all_pages g.memory)
  ]

  -- `__alloc_pages_direct_reclaim`.
  unfoldable pub direct_reclaim : AllocFlags → Memory → Freed
  direct_reclaim flags mem =
      let p = v.try_to_free_pages (set_memalloc true mem) in
      let freed = set_memalloc false p.1 in
      let g = drain_and_retry flags (v.get_page flags freed) in
      if p.0 == 0
      then record { page = none; progress = 0; memory = freed }
      else record { page = g.page; progress = p.0; memory = g.memory }

  -- `nopage` and `got_pg`.
  abbrev pub no_page : Memory → Next
  no_page mem = returns (record { page = none; memory = mem })

  abbrev pub got_page : ℕ × ℕ → Memory → Next
  got_page page mem = returns (record { page = some page; memory = mem })

  abbrev pub page_or : Option (ℕ × ℕ) → Memory → (Memory → Next) → Next
  page_or none mem otherwise = otherwise mem
  page_or (some page) mem otherwise = got_page page mem

  -- The end of a round, from `pages_reclaimed += did_some_progress` on.
  abbrev pub retry : (progress : ℕ) → Looping → Next
  retry progress l =
      let reclaimed = l.pages_reclaimed + progress in
      let c = direct_compact l.alloc_flags l.sync_migration l.deferred_compaction l.memory in
      if should_alloc_retry r.gfp r.order v.suspended progress reclaimed
      then rebalances
          (record l { pages_reclaimed = reclaimed; memory = v.wait_iff_congested l.memory })
      else page_or c.page c.memory no_page

  -- What follows when nothing could be reclaimed.
  abbrev pub go_oom : Looping → Next
  go_oom l =
      let g = may_oom l.memory in
      if v.disabled
      then no_page l.memory
      else if l.memory.task.pf_dumpcore && not r.gfp.nofail
      then no_page l.memory
      else page_or g.page g.memory (λ mem.
        if not r.gfp.nofail && (ltb costly_order r.order || not r.normal)
        then no_page mem
        else restarts (record l { memory = mem }))

  abbrev pub after_reclaim_failed : (progress : ℕ) → Looping → Next
  after_reclaim_failed progress l =
      if (progress == 0) && (r.gfp.fs && not r.gfp.noretry) then go_oom l else retry progress l

  abbrev pub reclaim : Looping → Next
  reclaim l =
      let f = direct_reclaim l.alloc_flags l.memory in
      if l.deferred_compaction && r.gfp.no_kswapd
      then no_page l.memory
      else page_or f.page f.memory
          (λ mem. after_reclaim_failed f.progress (record l { memory = mem }))

  abbrev pub compact : Looping → Next
  compact l =
      let c = direct_compact l.alloc_flags l.sync_migration l.deferred_compaction l.memory in
      page_or c.page c.memory (λ mem.
        reclaim
          (record l { memory = mem; sync_migration = true; deferred_compaction = c.deferred }))

  -- The tests for contexts that cannot wait.
  abbrev pub balance : Looping → Next
  balance l =
      if not r.gfp.wait
      then no_page l.memory
      else if l.memory.task.pf_memalloc
      then no_page l.memory
      else if l.memory.task.tif_memdie && not r.gfp.nofail
      then no_page l.memory
      else compact l

  -- A round of `__alloc_pages_high_priority`.
  unfoldable pub high_priority : Looping → Next
  high_priority l =
      let flags = record very_high { wmark = 0; cpuset = false; no_watermarks = true } in
      let g = v.get_page flags l.memory in
      page_or g.page g.memory (λ mem.
        if r.gfp.nofail
        then tries_again (record l { memory = v.wait_iff_congested mem })
        else balance (record l { memory = mem }))

  -- A round from `rebalance` on.
  unfoldable pub rebalance : Looping → Next
  rebalance l =
      let g = v.get_page (record l.alloc_flags { no_watermarks = false }) l.memory in
      page_or g.page g.memory (λ mem.
        if l.alloc_flags.no_watermarks
        then high_priority (record l { memory = mem })
        else balance (record l { memory = mem }))

  -- From `restart` on.
  unfoldable pub restart : Looping → Next
  restart l =
      let mem : Memory = if r.gfp.no_kswapd then l.memory else v.wake_all_kswapd l.memory in
      rebalance (record l { memory = mem; alloc_flags = gfp_to_alloc_flags r mem.task })

  -- As many rounds, with the result if the function has returned by then.
  unfoldable pub go_rounds : ℕ → Next → Option Got
  go_rounds rounds (returns g) = some g
  go_rounds zero (rebalances l) = none
  go_rounds zero (restarts l) = none
  go_rounds zero (tries_again l) = none
  go_rounds (suc rounds) (rebalances l) = go_rounds rounds (rebalance l)
  go_rounds (suc rounds) (restarts l) = go_rounds rounds (restart l)
  go_rounds (suc rounds) (tries_again l) = go_rounds rounds (high_priority l)

  -- `__alloc_pages_slowpath`.
  unfoldable pub alloc_pages_slowpath : (rounds max_order : ℕ) → Memory → Option Got
  alloc_pages_slowpath rounds max_order mem =
      if leb max_order r.order
      then some (record { page = none; memory = mem })
      else go_rounds rounds (
          restart (record {
            memory = mem;
            alloc_flags = gfp_to_alloc_flags r mem.task;
            sync_migration = false;
            deferred_compaction = false;
            pages_reclaimed = 0;
          }))
