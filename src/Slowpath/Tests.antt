-- ===== src/Slowpath/Tests.antt =====
-- The slow path at concrete inputs: there is no page until one is reclaimed.
use osandroid_kernel.Prelude.{
  ℕ, ◌≡◌, refl, true, false, Option, none, some, [], ◌∷◌, inl, ◌==◌, if◌then◌else◌, arith,
}
use osandroid_kernel.Buddy.{movable}
use osandroid_kernel.Buddy.HotCold.{PerCpu}
use osandroid_kernel.Slowpath.{
  Gfp, Memory, Got, AllocRequest, Services, gfp_to_alloc_flags, direct_compact, direct_reclaim,
  rebalance, restart, go_rounds, alloc_pages_slowpath, may_oom,
}
use osandroid_kernel.Slowpath.Calm.{IsOrderly, IsPatient}
use osandroid_kernel.Slowpath.Never.{IsFound, alloc_pages_slowpath-IsFound}
use osandroid_kernel.Slowpath.Ends.{alloc_pages_slowpath-returns}
use osandroid_kernel.Slowpath.Killer.{KeepsLocks, EndsWell, may_oom-locks}

-- A zone with `n` pages on its list.
abbrev with_pages : ℕ → PerCpu
with_pages n = record {
  zone = record {
    free_list = λ o t. [];
    nr_free = λ o. 0;
    page_buddy = λ p. false;
    page_private = λ p. 0;
    pageblock_type = λ b. movable;
  };
  lists = λ t. [];
  count = n;
  high = 4;
  batch = 2;
}

abbrev tight : Memory
tight = record {
  zones = λ z. with_pages 0;
  locks = λ z. z == 7;
  task = record {
    pf_memalloc = false;
    pf_dumpcore = false;
    tif_memdie = false;
    rt_task = false;
    in_interrupt = false;
  };
}

-- Reclaim finds a page.
abbrev some_services : Services
some_services = record {
  get_page = λ flags mem. record {
    page = if (mem.zones 0).count == 0 then none else some (0, 9);
    memory = mem;
  };
  compaction = true;
  compaction_deferred = λ mem. false;
  try_to_compact_pages = λ sync mem. (true, mem);
  compaction_failed = λ sync mem. mem;
  drain_pages = λ mem. mem;
  drain_all_pages = λ mem. mem;
  try_to_free_pages = λ mem. (1, record mem { zones = λ z. with_pages 1 });
  out_of_memory = λ mem. record mem { task = record mem.task { tif_memdie = true } };
  schedule_timeout = λ mem. mem;
  wait_iff_congested = λ mem. mem;
  wake_all_kswapd = λ mem. mem;
  disabled = false;
  suspended = false;
}

abbrev patient_gfp : Gfp
patient_gfp = record {
  wait = true;
  high = false;
  nomemalloc = false;
  nofail = false;
  noretry = false;
  repeat = false;
  fs = true;
  no_kswapd = false;
  thisnode = false;
}

abbrev patient : AllocRequest
patient = record {
  gfp = patient_gfp;
  order = 1;
  zonelist = 0 ∷ 1 ∷ [];
  normal = true;
  movable_cma = false;
}

abbrev hasty : AllocRequest
hasty = record patient { gfp = record patient_gfp { wait = false } }

some_services-IsOrderly : IsOrderly some_services
some_services-IsOrderly = record {
  get_page-task = λ flags mem. (refl, refl);
  compact-task = λ sync mem. (refl, refl);
  failed-task = λ sync mem. (refl, refl);
  drain-task = λ mem. (refl, refl);
  drain_all-task = λ mem. (refl, refl);
  free-task = λ mem. (refl, refl);
  kill-task = λ mem. (refl, refl);
  timeout-task = λ mem. (refl, refl);
  wait-task = λ mem. (refl, refl);
  wake-task = λ mem. (refl, refl);
  enabled = refl;
  running = refl;
}

patient-IsPatient : IsPatient patient
patient-IsPatient = record {
  waits = refl;
  no_noretry = refl;
  no_no_kswapd = refl;
  small = omega arith;
  not_low = refl;
}

page_of : Option Got → Option (ℕ × ℕ)
page_of none = none
page_of (some g) = g.page

gets_page : page_of (alloc_pages_slowpath some_services patient 1 11 tight) ≡ some (0, 9)
unfolding page_of alloc_pages_slowpath go_rounds restart rebalance gfp_to_alloc_flags direct_compact
    direct_reclaim
gets_page = refl

alloc_pages_slowpath-IsFound_example :
    IsFound some_services patient some_services-IsOrderly patient-IsPatient
      (alloc_pages_slowpath some_services patient 1 11 tight)
alloc_pages_slowpath-IsFound_example =
    alloc_pages_slowpath-IsFound some_services patient some_services-IsOrderly patient-IsPatient 1
      11 tight (omega arith) (refl, refl)

alloc_pages_slowpath-returns_example :
    (g : Got) × (alloc_pages_slowpath some_services hasty 0 11 tight ≡ some g)
alloc_pages_slowpath-returns_example =
    alloc_pages_slowpath-returns some_services hasty (inl refl) refl 11 tight

some_services-KeepsLocks : KeepsLocks some_services
some_services-KeepsLocks = record {
  get_page-locks = λ flags mem. refl;
  kill-locks = λ mem. refl;
  timeout-locks = λ mem. refl;
}

-- The killer does not help an order of 5.
abbrev costly : AllocRequest
costly = record patient { order = 5 }

may_oom-locks_example :
    ((y : ℕ) → (may_oom some_services costly tight).memory.locks y ≡ (y == 7))
    × EndsWell some_services costly tight (may_oom some_services costly tight)
may_oom-locks_example = may_oom-locks some_services costly tight some_services-KeepsLocks
