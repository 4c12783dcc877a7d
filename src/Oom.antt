-- ===== src/Oom.antt =====
-- The out-of-memory killer of hw5/mm/oom_kill.c: tasks, which of them may be killed, and how bad
-- each one is. A task carries the answers of the routines that are not in the repository
-- (`has_capability_noaudit`, `task_in_mem_cgroup`, the NUMA mask tests) as fields.
-- Scores do not wrap here; the charge of a user has 32 bits.
pub mod Badness
pub mod Select
pub mod Kill
pub mod Zones
pub mod Run
pub mod Limit
pub mod ScoreAdj
mod Tests
use osandroid_kernel.Prelude.{
  ℕ, zero, suc, ◌+◌, ◌*◌, ◌/◌, ◌≡◌, Bool, true, false, ◌&&◌, ◌||◌, not, Option, none, some, List,
  [], ◌∷◌, ◌++◌, ◌==◌, if◌then◌else◌, is_some,
}
use osandroid_kernel.Prelude.Int.{ℤ, pos, negsuc, ◌+ℤ◌, ◌-ℤ◌, eqb_ℤ, leb_ℤ, ltb_ℤ, pos_part}

abbrev pub Ptr : Type 0
Ptr = ℕ

-- `struct mm_struct`: its address and counters, in pages.
pub record Mm : Type 0 where
  pub address : Ptr
  pub rss : ℕ
  pub nr_ptes : ℕ
  pub swapents : ℕ

-- `struct task_struct`, as far as these routines read it.
pub record Task : Type 0 where
  pub pid : ℕ
  pub tgid : ℕ
  pub uid : ℕ  -- real_cred->uid
  pub user : Ptr  -- real_cred->user
  pub mm : Option Mm
  pub oom_score_adj : ℤ  -- signal->oom_score_adj
  pub exit_state : Bool
  pub kthread : Bool  -- PF_KTHREAD
  pub exiting : Bool  -- PF_EXITING
  pub memdie : Bool  -- TIF_MEMDIE
  pub trace_exit : Bool  -- group_leader->ptrace & PT_TRACE_EXIT
  pub is_global_init : Bool
  pub cap_sys_admin : Bool
  pub in_memcg : Bool
  pub policy_intersects : Bool  -- mempolicy_nodemask_intersects, of the nodes of the allocation
  pub cpuset_intersects : Bool  -- cpuset_mems_allowed_intersects, of those of current

-- All threads in the order of `do_each_thread`. A process is its leader.
abbrev pub Tasks : Type 0
Tasks = List Task

abbrev pub filter_by : (Task → Bool) → Tasks → Tasks
filter_by p [] = []
filter_by p (t ∷ ts) = let rest = filter_by p ts in if p t then t ∷ rest else rest

-- `for_each_process`
abbrev pub processes : Tasks → Tasks
processes = filter_by (λ t. t.pid == t.tgid)

-- The tasks from the one with `pid` on, and those before it.
abbrev pub from_pid : ℕ → Tasks → Tasks
from_pid pid [] = []
from_pid pid (t ∷ ts) = let rest = from_pid pid ts in if t.pid == pid then t ∷ ts else rest

abbrev pub before_pid : ℕ → Tasks → Tasks
before_pid pid [] = []
before_pid pid (t ∷ ts) = let rest = before_pid pid ts in if t.pid == pid then [] else t ∷ rest

-- The round of `do { … } while_each_thread(p, t)`: the thread group of `p`, starting at `p`.
pub thread_round : Task → Tasks → Tasks
thread_round p all =
    let group = filter_by (λ t. t.tgid == p.tgid) all in
    from_pid p.pid group ++ before_pid p.pid group

-- What limits the choice: whether a memory cgroup is given, and whether a mask of nodes is.
pub record Scope : Type 0 where
  pub memcg : Bool
  pub masked : Bool

abbrev any_intersects : (masked : Bool) → Tasks → Bool
any_intersects masked [] = false
any_intersects masked (t ∷ ts) =
    (if masked then t.policy_intersects else t.cpuset_intersects) || any_intersects masked ts

-- With CONFIG_NUMA: some thread of the group shares nodes with the allocation.
pub has_intersects_mems_allowed : Tasks → Task → (masked : Bool) → Bool
unfolding thread_round
has_intersects_mems_allowed all p masked = any_intersects masked (thread_round p all)

first_with_mm : Tasks → Option Task
first_with_mm [] = none
first_with_mm (t ∷ ts) = let rest = first_with_mm ts in if is_some t.mm then some t else rest

pub find_lock_task_mm : Tasks → Task → Option Task
unfolding first_with_mm
find_lock_task_mm all p = first_with_mm (thread_round p all)

pub oom_unkillable_task : Tasks → Task → (scope : Scope) → Bool
oom_unkillable_task all p scope =
    if p.is_global_init
    then true
    else if p.kthread
    then true
    else if scope.memcg && not p.in_memcg
    then true
    else if not (has_intersects_mems_allowed all p scope.masked)
    then true
    else false

-- OOM_SCORE_ADJ_MIN
abbrev pub oom_score_adj_min : ℤ
oom_score_adj_min = negsuc 999

abbrev pub mm_points : (limited : Bool) → (totalpages : ℕ) → Mm → ℕ
mm_points limited totalpages m =
    if limited then m.rss else (m.rss + m.nr_ptes + m.swapents) * 1000 / totalpages

-- The score of a thread `p` from its baseline. `limited` says that its user has a memory limit.
pub adjusted : Task → (limited : Bool) → ℕ → ℕ
adjusted p limited base =
    let discounted = if p.cap_sys_admin then pos base -ℤ pos 30 else pos base in
    let points = if limited then discounted else discounted +ℤ p.oom_score_adj in
    if leb_ℤ points (pos 0) then 1 else if ltb_ℤ points (pos 1000) then pos_part points else 1000

-- The same from its memory `m`, once it is known that it may be killed.
pub score : Task → Mm → (limited : Bool) → (totalpages : ℕ) → ℕ
score p m limited totalpages =
    adjusted p limited (mm_points limited (if totalpages == 0 then 1 else totalpages) m)

-- The score of the thread that `find_lock_task_mm` answers. `mem_max` reads that field of a
-- `user_struct`.
pub thread_score : (mem_max : Ptr → ℤ) → (totalpages : ℕ) → Option Task → ℕ
unfolding score
thread_score mem_max totalpages none = 0
thread_score mem_max totalpages (some p) =
    if eqb_ℤ p.oom_score_adj oom_score_adj_min then 0 else (elim (p.mm) [
      | none ↦ 0
      | some m ↦ score p m (not (eqb_ℤ (mem_max p.user) (negsuc 0))) totalpages
    ])

pub oom_badness : (mem_max : Ptr → ℤ) → Tasks → Task → (scope : Scope) → (totalpages : ℕ) → ℕ
unfolding thread_score oom_unkillable_task find_lock_task_mm
oom_badness mem_max all p scope totalpages =
    if oom_unkillable_task all p scope
    then 0
    else thread_score mem_max totalpages (find_lock_task_mm all p)
