-- ===== src/Oom/Kill.antt =====
-- `oom_kill_process`: which tasks get SIGKILL and access to memory reserves.
pub mod Victim
use osandroid_kernel.Prelude.{
  ℕ, zero, suc, ◌≡◌, Bool, true, false, ◌&&◌, ◌||◌, not, Option, none, some, List, [], ◌∷◌, ◌++◌,
  ltb, ◌==◌, if◌then◌else◌, is_some,
}
use osandroid_kernel.Prelude.Int.{ℤ, negsuc, eqb_ℤ}
use osandroid_kernel.Oom.{
  Ptr, Mm, Task, Tasks, processes, thread_round, find_lock_task_mm, oom_score_adj_min,
}

-- `set_tsk_thread_flag(t, TIF_MEMDIE)` and `do_send_sig_info(SIGKILL, …, t, true)`, by pid.
pub data Event : Type 0 where
  set_memdie send_sigkill : ℕ → Event

-- `p->mm == q->mm`, where NULL equals NULL.
abbrev pub same_mm : Option Mm → Option Mm → Bool
same_mm none none = true
same_mm none (some m) = false
same_mm (some m) none = false
same_mm (some m) (some m') = m.address == m'.address

-- The children of all threads of a group, in the order of the two nested loops.
pub all_children : (children : Task → Tasks) → Tasks → Tasks
all_children children [] = []
all_children children (t ∷ ts) = children t ++ all_children children ts

-- The body of the loops, over one list: the victim so far and its points.
pub worst_child : (bad : Task → ℕ) → Task → Tasks → Task → ℕ → Task
worst_child bad p [] victim n = victim
worst_child bad p (c ∷ cs) victim n =
    let worse = not (same_mm c.mm p.mm) && ltb n (bad c) in
    worst_child bad p cs (if worse then c else victim) (if worse then bad c else n)

abbrev pub shares_memory : Task → Task → Bool
shares_memory victim p = same_mm p.mm victim.mm && not (p.tgid == victim.tgid) && not p.kthread

-- The processes that share the memory of the victim.
pub kill_sharing : Task → Tasks → List Event
kill_sharing victim [] = []
kill_sharing victim (p ∷ ps) =
    let rest = kill_sharing victim ps in
    if shares_memory victim p
    then (if eqb_ℤ p.oom_score_adj oom_score_adj_min then rest else send_sigkill p.pid ∷ rest)
    else rest

pub kill_victim : Tasks → Option Task → List Event
unfolding kill_sharing
kill_victim all none = []
kill_victim all (some v) =
    kill_sharing v (processes all) ++ set_memdie v.pid ∷ send_sigkill v.pid ∷ []

-- `bad` is `oom_badness` with the arguments of the call.
pub oom_kill_process : (bad : Task → ℕ) (children : Task → Tasks) → Tasks → Task → List Event
unfolding kill_victim
oom_kill_process bad children all p =
    if p.exiting
    then set_memdie p.pid ∷ []
    else kill_victim all
        (find_lock_task_mm all (worst_child bad p (all_children children (thread_round p all)) p 0))
