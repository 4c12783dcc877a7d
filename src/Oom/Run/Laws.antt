-- ===== src/Oom/Run/Laws.antt =====
-- `out_of_memory` under a memory limit.
use osandroid_kernel.Prelude.{
  ℕ, ◌≤◌, ◌≡◌, ◌≢◌, ap, ◌∙◌, ◌⊎◌, true, false, none, some, arith, ltb, ◌==◌,
}
use osandroid_kernel.Prelude.Lists.{All}
use osandroid_kernel.Prelude.Int.{negsuc}
use osandroid_kernel.UserCache.{Hlist, World, uidhashfn}
use osandroid_kernel.UserCache.Table.{IsTable, Hashed}
use osandroid_kernel.Oom.{Ptr, Mm, Task, oom_badness}
use osandroid_kernel.Oom.Select.{Selection, mem_max_in, of_user, select_bad_process}
use osandroid_kernel.Oom.Select.Choice.{Among, select-unlimited}
use osandroid_kernel.Oom.Run.{
  Env, nodemask_scope, mpol_scope, Outcome, returned, panicked, faulted, constrained_alloc,
  check_panic_on_oom, uncharge, kill_chosen, kill_one, choose_and_kill, out_of_memory, kill,
}

-- The killer comes to choosing a task: nothing was freed, no fatal signal is pending, and the
-- sysctls are at their defaults.
abbrev pub Chooses : Env → Type 0
Chooses e =
    (e.freed ≡ 0)
    × (e.fatal_signal_pending ≡ false)
    × (e.sysctl_panic_on_oom ≡ 0)
    × (e.sysctl_oom_kill_allocating_task ≡ false)

module _ {hl : Hlist} (bits : ℕ) (e : Env) (w : World hl) where
  abbrev pub choice : Selection × World hl
  choice =
      select_bad_process bits e.current_ns e.limited e.current.pid e.all
        (constrained_alloc e.numa).1 (mpol_scope e) e.force_kill w

  out_of_memory-Chooses :
      Chooses e → out_of_memory bits e w ≡ kill_chosen bits e (constrained_alloc e.numa).1 choice
  unfolding out_of_memory choose_and_kill check_panic_on_oom kill_one
  out_of_memory-Chooses (freed, quiet, calm, choose) =
      let dry : ltb 0 e.freed ≡ false = ground (arith, freed) in
      let lenient : (e.sysctl_panic_on_oom == 0) ≡ true = ground (arith, calm) in
      rw (dry, quiet, lenient, choose)

-- The killer, its task chosen: the limited user gets back what it was charged for, and only then is
-- `oom_kill_process` called.
abbrev pub Settles :
    {hl : Hlist} → ℕ → Env → (totalpages : ℕ) → Task → World hl → Outcome hl → Type 0
Settles bits e totalpages p w o =
    ((p.mm ≡ none) × (o ≡ faulted))
    ⊎ ((m : Mm) × (p.mm ≡ some m)
        × (o
            ≡ returned (uncharge p.user m w)
                (kill bits (nodemask_scope e) e p totalpages (uncharge p.user m w))))

-- A run over a limit, for the answer `o` of the killer: with no process of the user to kill it
-- panics; otherwise one that scores worst is settled.
abbrev pub Enforces : {hl : Hlist} → ℕ → Env → World hl → Outcome hl → Type 0
Enforces {hl} bits e w o =
    let totalpages = (constrained_alloc e.numa).1 in
    let bad = λ (t : Task). oom_badness (mem_max_in w) e.all t (mpol_scope e) totalpages in
    (All (λ t. bad t ≤ 0) (of_user e.limited e.all) × (o ≡ panicked))
    ⊎ ((p : Task) × All (λ t. bad t ≤ bad p) (of_user e.limited e.all)
        × Among p (of_user e.limited e.all)
        × Settles bits e totalpages p w o)

-- Once the limit of the known user is lifted (-1), a killer that comes to choosing always panics.
pub out_of_memory-unlimited :
    {hl : Hlist} (bits : ℕ) (e : Env) (w : World hl) (u : Ptr)
    → Chooses e
    → e.limited ≢ 0
    → IsTable bits w
    → Hashed bits w e.current_ns (uidhashfn bits e.limited) u
    → (w.user u).uid ≡ e.limited
    → (w.user u).mem_max ≡ negsuc 0
    → out_of_memory bits e w ≡ panicked
unfolding kill_chosen
out_of_memory-unlimited bits e w u c nz t h own lim =
    out_of_memory-Chooses bits e w c
    ∙ ap (kill_chosen bits e (constrained_alloc e.numa).1) (
        select-unlimited bits e.current_ns e.limited e.current.pid e.all
          (constrained_alloc e.numa).1 (mpol_scope e) e.force_kill w u nz t h own lim)
