-- ===== src/Oom/Kill/Victim.antt =====
-- Who is killed.
use osandroid_kernel.Prelude.{ℕ, ◌≤◌, ◌<◌, ◌≡◌, ◌⊎◌, true, false, if◌then◌else◌}
use osandroid_kernel.Prelude.Lists.{All}
use osandroid_kernel.Prelude.Int.{eqb_ℤ}
use osandroid_kernel.Oom.{Task, Tasks, processes, oom_score_adj_min}
use osandroid_kernel.Oom.Select.Choice.{Among}
use osandroid_kernel.Oom.Kill.{Event, set_memdie, send_sigkill, same_mm, shares_memory}

-- A child scores for the choice of a victim unless it shares the memory of `p`.
abbrev pub child_weight : (bad : Task → ℕ) → Task → Task → ℕ
child_weight bad p c = if same_mm c.mm p.mm then 0 else bad c

-- The victim is `x`, and then no child weighs more than `n`; or it is a child that does, and none
-- weighs more than it.
abbrev pub Leads : (bad : Task → ℕ) → Task → Tasks → Task → ℕ → Task → Type 0
Leads bad p cs x n v =
    ((v ≡ x) × All (λ c. child_weight bad p c ≤ n) cs)
    ⊎ (Among v cs
        × (n < child_weight bad p v)
        × All (λ c. child_weight bad p c ≤ child_weight bad p v) cs)

-- Who may get SIGKILL when `v` is the victim: `v` itself, or a process of another group that shares
-- its memory, is no kernel thread and is not exempt.
abbrev pub IsTarget : Tasks → Task → Event → Type 0
IsTarget all v (set_memdie pid) = pid ≡ v.pid
IsTarget all v (send_sigkill pid) =
    (pid ≡ v.pid)
    ⊎ ((q : Task) × Among q (processes all)
        × (pid ≡ q.pid)
        × (shares_memory v q ≡ true)
        × (eqb_ℤ q.oom_score_adj oom_score_adj_min ≡ false))
