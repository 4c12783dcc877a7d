-- ===== src/Oom/Tests.antt =====
-- The out-of-memory killer and the limit at concrete inputs: user 1000 with two processes.
use osandroid_kernel.Prelude.{
  ℕ, ◌+◌, ◌*◌, ◌^◌, ◌≤◌, ◌≡◌, refl, true, false, ◌&&◌, none, some, List, [], ◌∷◌, arith, ltb, ◌==◌,
  if◌then◌else◌,
}
use osandroid_kernel.Prelude.Int.{ℤ, pos, negsuc, s32}
use osandroid_kernel.UserCache.{Ptr, User, Hlist, World, without, zeroed, uidhashfn, with_ref}
use osandroid_kernel.UserCache.Table.{IsTable}
use osandroid_kernel.Oom.{Mm, Task, Tasks, Scope, oom_badness}
use osandroid_kernel.Oom.Badness.{may_be_killed, oom_badness_range}
use osandroid_kernel.Oom.Run.{Env, page_size}
use osandroid_kernel.Oom.Limit.{
  Limits, proceed, charge, set_mlimit, with_limit, pagefault_out_of_memory,
}
use osandroid_kernel.Oom.Limit.Charge.{Charged, charge-under}
use osandroid_kernel.Oom.Limit.Release.{Keeps, charge-Keeps}
use osandroid_kernel.Oom.Limit.Set.{set_mlimit_lem}

-- Hash lists that are lists.
abbrev lists : Hlist
lists = record {
  Head = List Ptr;
  entries = λ h. h;
  init_head = [];
  add_head = λ p h. p ∷ h;
  del_init = without;
  entries-init_head = refl;
  entries-add_head = λ p h. refl;
  entries-del_init = λ p h. refl;
}

abbrev a_user : ℤ → User
a_user mem_max = record zeroed { count = pos 1; uid = 1000; user_ns = 1; mem_max = mem_max }

-- User 1000 of namespace 1, at 20, in bucket 111.
abbrev a_world : ℤ → World lists
a_world mem_max = record {
  user = λ _. a_user mem_max;
  table = λ ns b. if (ns == 1) && (b == 111) then 20 ∷ [] else [];
  log = [];
}

a_world-IsTable : (m : ℤ) → IsTable {hl = lists} 7 (a_world m)
unfolding uidhashfn
a_world-IsTable m = record {
  placed = λ ns b p h. ground arith;
  distinct = λ ns b p q h h' e. ground arith;
}

abbrev a_mm : Ptr → ℕ → Mm
a_mm address rss = record { address = address; rss = rss; nr_ptes = 1; swapents = 0 }

abbrev a_task : (pid rss : ℕ) → Task
a_task pid rss = record {
  pid = pid;
  tgid = pid;
  uid = 1000;
  user = 20;
  mm = some (a_mm pid rss);
  oom_score_adj = pos 0;
  exit_state = false;
  kthread = false;
  exiting = false;
  memdie = false;
  trace_exit = false;
  is_global_init = false;
  cap_sys_admin = false;
  in_memcg = false;
  policy_intersects = true;
  cpuset_intersects = true;
}

abbrev two_tasks : Tasks
two_tasks = a_task 30 50 ∷ a_task 31 80 ∷ []

abbrev an_env : Env
an_env = record {
  freed = 0;
  fatal_signal_pending = false;
  numa = record {
    totalram_pages = 1000;
    total_swap_pages = 0;
    zones = none;
    this_node = false;
    nodemask = none;
    cpuset_nodes = [];
  };
  sysctl_panic_on_oom = 0;
  sysctl_oom_kill_allocating_task = false;
  force_kill = false;
  limited = 1000;
  current_ns = 1;
  current = a_task 30 50;
  all = two_tasks;
  children = λ _. [];
}

abbrev limits : Limits lists
limits = record { user = 1000; start = 1; world = a_world (pos 1000000) }

charge-under_example :
    (w' : World lists) × (charge {hl = lists} 7
        (λ _. an_env)
        1
        (3 ∷ [])
        2
        two_tasks
        limits
        (λ _. false)
      ≡ proceed w' (λ _. false) [])
    × Charged {hl = lists} 20
        (s32 (0 + 2 * (2 ^ 2 * page_size)))
        (with_ref {hl = lists} 20 limits.world)
        w'
unfolding uidhashfn
charge-under_example =
    charge-under {hl = lists} 7 (λ _. an_env) 1 (3 ∷ []) 2 two_tasks limits (λ _. false) 20 0
      1000000 refl (λ e. absurd (cc)) (a_world-IsTable _) refl refl refl refl (omega arith)
      (omega arith)

charge-Keeps_example :
    Keeps {hl = lists}
      (λ _. false)
      (charge {hl = lists} 7 (λ _. an_env) 1 (3 ∷ []) 9 two_tasks limits (λ _. false))
    × Keeps {hl = lists}
        (λ _. false)
        (pagefault_out_of_memory {hl = lists} 7 an_env (3 ∷ []) limits.world (λ _. false))
unfolding uidhashfn
charge-Keeps_example =
    charge-Keeps {hl = lists} 7 (λ _. an_env) 1 (3 ∷ []) 9 two_tasks limits (λ _. false) an_env

set_mlimit_lem_example :
    set_mlimit {hl = lists} 7 1 two_tasks 1000 (pos 5000) limits
    ≡ some (
      s32 (130 * page_size),
      record {
        user = 1000;
        start = 1;
        world =
            with_limit {hl = lists} 20
              (pos 5000)
              (s32 (130 * page_size))
              (with_ref {hl = lists} 20 limits.world);
      },
    )
unfolding uidhashfn
set_mlimit_lem_example =
    set_mlimit_lem {hl = lists} 7 1 two_tasks 1000 (pos 5000) limits 20 0 (a_world-IsTable _) refl
      refl refl (omega arith) (refl, (refl, tt))

abbrev no_scope : Scope
no_scope = record { memcg = false; masked = false }

oom_badness_range_example :
    (ltb 0 (oom_badness (λ _. negsuc 0) two_tasks (a_task 31 80) no_scope 1000)
      ≡ may_be_killed two_tasks (a_task 31 80) no_scope)
    × (oom_badness (λ _. negsuc 0) two_tasks (a_task 31 80) no_scope 1000 ≤ 1000)
unfolding uidhashfn
oom_badness_range_example = oom_badness_range (λ _. negsuc 0) two_tasks (a_task 31 80) no_scope 1000
