-- ===== src/Oom/Run.antt =====
-- `out_of_memory` and what it is made of. What the routines outside the repository answer is in
-- `Env`: the notifier chain, pending signals, and the sizes and masks of NUMA.
pub mod Laws
use osandroid_kernel.Prelude.{
  ℕ, zero, suc, ◌+◌, ◌*◌, ◌^◌, ◌≡◌, Bool, true, false, ◌&&◌, ◌||◌, not, Option, none, some, List,
  [], ◌∷◌, ◌++◌, ltb, ◌==◌, if◌then◌else◌, is_some,
}
use osandroid_kernel.Prelude.Int.{ℤ, pos, negsuc, ◌-ℤ◌, eqb_ℤ, wrap_long}
use osandroid_kernel.UserCache.{Hlist, World, User, set_user}
use osandroid_kernel.Oom.{Ptr, Mm, Task, Tasks, Scope, oom_unkillable_task, oom_badness}
use osandroid_kernel.Oom.Select.{Selection, fault, abort, chosen, mem_max_in, select_bad_process}
use osandroid_kernel.Oom.Kill.{Event, set_memdie, send_sigkill, oom_kill_process}

abbrev pub page_size : ℕ
page_size = 4096

pub data OomConstraint : Type 0 where
  constraint_none constraint_cpuset constraint_memory_policy constraint_memcg : OomConstraint

abbrev is_constraint_none : OomConstraint → Bool
is_constraint_none constraint_none = true
is_constraint_none _ = false

abbrev is_memory_policy : OomConstraint → Bool
is_memory_policy constraint_memory_policy = true
is_memory_policy _ = false

-- `zones`: for each zone of the list, whether the cpuset allows it; `none` for a NULL zonelist.
-- `nodemask`: the spanned pages of its nodes, and whether it holds all nodes with high memory.
pub record Numa : Type 0 where
  pub totalram_pages : ℕ
  pub total_swap_pages : ℕ
  pub zones : Option (List Bool)
  pub this_node : Bool  -- gfp_mask & __GFP_THISNODE
  pub nodemask : Option (List ℕ × Bool)
  pub cpuset_nodes : List ℕ

abbrev sum : List ℕ → ℕ
sum [] = 0
sum (n ∷ ns) = n + sum ns

abbrev all_true : List Bool → Bool
all_true [] = true
all_true (b ∷ bs) = b && all_true bs

cpuset_constraint : Numa → List Bool → OomConstraint × ℕ
cpuset_constraint a zones =
    if not (all_true zones)
    then (constraint_cpuset, a.total_swap_pages + sum a.cpuset_nodes)
    else (constraint_none, a.totalram_pages + a.total_swap_pages)

pub constrained_alloc : Numa → OomConstraint × ℕ
unfolding cpuset_constraint
constrained_alloc a = elim (a.zones) [
  | none ↦ (constraint_none, a.totalram_pages + a.total_swap_pages)
  | some zones ↦
      if a.this_node
      then (constraint_none, a.totalram_pages + a.total_swap_pages)
      else (elim (a.nodemask) [
        | none ↦ cpuset_constraint a zones
        | some (spanned, complete) ↦
            if not complete
            then (constraint_memory_policy, a.total_swap_pages + sum spanned)
            else cpuset_constraint a zones
      ])
]

-- Whether `check_panic_on_oom` panics.
pub check_panic_on_oom : (sysctl_panic_on_oom : ℕ) → OomConstraint → Bool
check_panic_on_oom sysctl c =
    if sysctl == 0
    then false
    else if not (sysctl == 2) && not (is_constraint_none c)
    then false
    else true

pub record Env : Type 0 where
  pub freed : ℕ
  pub fatal_signal_pending : Bool
  pub numa : Numa
  pub sysctl_panic_on_oom : ℕ
  pub sysctl_oom_kill_allocating_task : Bool
  pub force_kill : Bool
  pub limited : ℕ  -- the global `user`
  pub current_ns : Ptr
  pub current : Task
  pub all : Tasks
  pub children : Task → Tasks

-- `nodemask`, `mpol_mask`, and a memory cgroup without a mask.
abbrev pub nodemask_scope : Env → Scope
nodemask_scope e = record { memcg = false; masked = is_some e.numa.nodemask }

abbrev pub mpol_scope : Env → Scope
mpol_scope e = record {
  memcg = false;
  masked = is_memory_policy (constrained_alloc e.numa).0 && is_some e.numa.nodemask;
}

abbrev memcg_scope : Scope
memcg_scope = record { memcg = true; masked = false }

pub data Outcome (hl : Hlist) : Type 0 where
  returned : World hl → List Event → Outcome hl
  panicked : Outcome hl
  faulted : Outcome hl

-- `user->cumulative_mem -= get_mm_rss(mm) * PAGE_SIZE`
abbrev pub uncharge : {hl : Hlist} → Ptr → Mm → World hl → World hl
uncharge u m w = record w {
  user =
      set_user u
        (record (w.user u) {
          cumulative_mem = wrap_long ((w.user u).cumulative_mem -ℤ pos (m.rss * page_size));
        })
        w.user;
}

module _ {hl : Hlist} (bits : ℕ) where
  abbrev pub kill : (scope : Scope) → Env → Task → (totalpages : ℕ) → World hl → List Event
  kill scope e p totalpages w =
      oom_kill_process (λ t. oom_badness (mem_max_in w) e.all t scope totalpages) e.children e.all p

  -- The limited user is credited with the memory of the task before it is killed.
  pub settle : (scope : Scope) → Env → (totalpages : ℕ) → Task → Option Mm → World hl → Outcome hl
  settle scope e totalpages p none w = faulted
  settle scope e totalpages p (some m) w =
      let w' = uncharge p.user m w in returned w' (kill scope e p totalpages w')

  -- From the choice of `select_bad_process` on.
  pub kill_chosen : Env → (totalpages : ℕ) → Selection × World hl → Outcome hl
  unfolding settle
  kill_chosen e totalpages (fault, w) = faulted
  kill_chosen e totalpages (abort, w) = returned w []
  kill_chosen e totalpages (chosen none n, w) = panicked
  kill_chosen e totalpages (chosen (some p) n, w) =
      if p.uid == e.limited
      then settle (nodemask_scope e) e totalpages p p.mm w
      else returned w (kill (nodemask_scope e) e p totalpages w)

  -- The branch of `sysctl_oom_kill_allocating_task`: here the credit follows the kill.
  pub kill_current : Env → (totalpages : ℕ) → Mm → World hl → Outcome hl
  kill_current e totalpages m w =
      let events = kill (nodemask_scope e) e e.current totalpages w in
      returned (if e.current.uid == e.limited then uncharge e.current.user m w else w) events

  pub kill_one : Env → (totalpages : ℕ) → World hl → Outcome hl
  unfolding kill_chosen
  kill_one e totalpages w = kill_chosen e totalpages (
      select_bad_process bits e.current_ns e.limited e.current.pid e.all totalpages (mpol_scope e)
        e.force_kill w)

  pub choose_and_kill : Env → (totalpages : ℕ) → World hl → Outcome hl
  unfolding kill_current kill_one
  choose_and_kill e totalpages w =
      if e.sysctl_oom_kill_allocating_task
        && not (oom_unkillable_task e.all e.current (nodemask_scope e))
      then (elim (e.current.mm) [
        | none ↦ kill_one e totalpages w
        | some m ↦ kill_current e totalpages m w
      ])
      else kill_one e totalpages w

  pub out_of_memory : Env → World hl → Outcome hl
  unfolding choose_and_kill constrained_alloc check_panic_on_oom
  out_of_memory e w =
      if ltb 0 e.freed
      then returned w []
      else if e.fatal_signal_pending
      then returned w (set_memdie e.current.pid ∷ [])
      else if check_panic_on_oom e.sysctl_panic_on_oom (constrained_alloc e.numa).0
      then panicked
      else choose_and_kill e (constrained_alloc e.numa).1 w

  -- From the choice among the tasks of a memory cgroup on: whoever is chosen is credited.
  memcg_chosen : Env → (limit : ℕ) → Selection × World hl → Outcome hl
  unfolding settle
  memcg_chosen e limit (fault, w) = faulted
  memcg_chosen e limit (abort, w) = returned w []
  memcg_chosen e limit (chosen none n, w) = returned w []
  memcg_chosen e limit (chosen (some p) n, w) = settle memcg_scope e limit p p.mm w

  -- `limit` is the limit of the cgroup in pages.
  pub mem_cgroup_out_of_memory : Env → (limit : ℕ) → World hl → Outcome hl
  unfolding memcg_chosen check_panic_on_oom
  mem_cgroup_out_of_memory e limit w =
      if e.fatal_signal_pending
      then returned w (set_memdie e.current.pid ∷ [])
      else if check_panic_on_oom e.sysctl_panic_on_oom constraint_memcg
      then panicked
      else memcg_chosen e limit (
          select_bad_process bits e.current_ns e.limited e.current.pid e.all limit memcg_scope false
            w)
