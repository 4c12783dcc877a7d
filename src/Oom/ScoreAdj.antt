-- ===== src/Oom/ScoreAdj.antt =====
-- `test_set_oom_score_adj` and `compare_swap_oom_score_adj`, on the current task.
use osandroid_kernel.Prelude.{if◌then◌else◌}
use osandroid_kernel.Prelude.Int.{ℤ, eqb_ℤ}
use osandroid_kernel.Oom.{Task}

pub compare_swap_oom_score_adj : (old_val new_val : ℤ) → Task → Task
compare_swap_oom_score_adj old_val new_val t =
    if eqb_ℤ t.oom_score_adj old_val then record t { oom_score_adj = new_val } else t

-- The old value, and the task.
pub test_set_oom_score_adj : (new_val : ℤ) → Task → ℤ × Task
test_set_oom_score_adj new_val t = (t.oom_score_adj, record t { oom_score_adj = new_val })
