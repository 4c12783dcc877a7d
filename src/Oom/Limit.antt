-- ===== src/Oom/Limit.antt =====
-- The memory limit of one user: `set_mlimit` (hw5/arch/arm/kernel/set_mlimit.c) and the charge at
-- the head of `__alloc_pages_nodemask` (hw5/mm/page_alloc.c).
pub mod Charge
pub mod Release
pub mod Set
use osandroid_kernel.Prelude.{
  ℕ, zero, suc, ◌+◌, ◌-◌, ◌*◌, ◌%◌, ◌^◌, ◌≡◌, Bool, true, false, ◌&&◌, ◌||◌, not, Option, none,
  some, List, [], ◌∷◌, ◌++◌, ltb, ◌==◌, if◌then◌else◌, is_some,
}
use osandroid_kernel.Prelude.Int.{ℤ, pos, negsuc, ◌+ℤ◌, eqb_ℤ, u32, wrap_long}
use osandroid_kernel.UserCache.{Hlist, World, User, set_user, find_user}
use osandroid_kernel.Oom.{Ptr, Mm, Task, Tasks, filter_by, processes}
use osandroid_kernel.Oom.Select.{of_user}
use osandroid_kernel.Oom.Kill.{Event}
use osandroid_kernel.Oom.Zones.{Locks, try_set_zonelist_oom, clear_zonelist_oom}
use osandroid_kernel.Oom.Run.{Env, Outcome, returned, panicked, faulted, page_size, out_of_memory}

-- The globals `user` and `start`, and the memory.
pub record Limits (hl : Hlist) : Type 0 where
  pub user : ℕ
  pub start : ℕ
  pub world : World hl

rss_in : Option Mm → Option ℕ
rss_in none = none
rss_in (some m) = some m.rss

-- What one process adds: `none` for a process of the user that has no memory descriptor.
rss_of : (uid : ℕ) → Task → Option ℕ
unfolding rss_in
rss_of uid p = if p.uid == uid then rss_in p.mm else some 0

and_add : Option ℕ → ℤ → (ℤ → Option ℤ) → Option ℤ
and_add none c next = none
and_add (some r) c next = next (wrap_long (c +ℤ pos (r * page_size)))

-- The loop of `set_mlimit`.
pub add_rss : (uid : ℕ) → Tasks → ℤ → Option ℤ
unfolding rss_of and_add
add_rss uid [] c = some c
add_rss uid (p ∷ ps) c = and_add (rss_of uid p) c (λ c'. add_rss uid ps c')

abbrev pub with_limit : {hl : Hlist} → Ptr → (mem_max cumulative_mem : ℤ) → World hl → World hl
with_limit u mem_max c w = record w {
  user = set_user u (record (w.user u) { mem_max = mem_max; cumulative_mem = c }) w.user;
}

-- The result of the charge: go on to allocate, answer NULL, or no return.
pub data Hook (hl : Hlist) : Type 0 where
  proceed : World hl → Locks → List Event → Hook hl
  no_page : World hl → Locks → List Event → Hook hl
  hook_panicked : Hook hl
  hook_faulted : Hook hl

-- The next round of the loop, unless the function has returned.
go_on : {hl : Hlist} → Hook hl → List Event → (World hl → Locks → List Event → Hook hl) → Hook hl
go_on (proceed w locks ev') ev next = next w locks (ev ++ ev')
go_on (no_page w locks ev') ev next = no_page w locks (ev ++ ev')
go_on hook_panicked ev next = hook_panicked
go_on hook_faulted ev next = hook_faulted

-- The zone locks are released after the killer has returned.
after_kill : {hl : Hlist} → (zones : List ℕ) → Outcome hl → Locks → Hook hl
after_kill zones (returned w ev) locks = proceed w (clear_zonelist_oom zones locks) ev
after_kill zones panicked locks = hook_panicked
after_kill zones faulted locks = hook_faulted

module _ {hl : Hlist} (bits : ℕ) where
  limit_to : (uid : ℕ) (mem_max : ℤ) (u : Ptr) → World hl → Option ℤ → Option (ℤ × Limits hl)
  limit_to uid mem_max u w none = none
  limit_to uid mem_max u w (some c) =
      some (c, record { user = uid; start = 1; world = with_limit u mem_max c w })

  -- `set_mlimit` from the answer of `find_user` on.
  set_for : Tasks → (uid : ℕ) → (mem_max : ℤ) → Option Ptr × World hl → Option (ℤ × Limits hl)
  unfolding add_rss limit_to
  set_for all uid mem_max (none, w) = none
  set_for all uid mem_max (some u, w) =
      limit_to uid mem_max u w (add_rss uid (processes all) (w.user u).cumulative_mem)

  -- The returned total and the new state; `none` is a NULL dereference.
  pub set_mlimit :
      (current_ns : Ptr) → Tasks → (uid : ℕ) → (mem_max : ℤ) → Limits hl → Option (ℤ × Limits hl)
  unfolding set_for
  set_mlimit ns all uid mem_max l = set_for all uid mem_max (find_user bits ns uid l.world)

  -- The killer is called in the environment that `env` gives for each process.
  module _ (env : Task → Env) (zones : List ℕ) (u : Ptr) (required : ℕ) where
    over : Task → World hl → Bool × Locks → Hook hl
    unfolding after_kill
    over p w (false, locks) = no_page w locks []
    over p w (true, locks) = after_kill zones (out_of_memory bits (env p) w) locks

    -- One process of the limited user.
    visit_process : Task → World hl → Locks → Hook hl
    unfolding over
    visit_process p w locks =
        let v = w.user u in
        let c = wrap_long (v.cumulative_mem +ℤ pos required) in
        if ltb (u32 v.mem_max) (u32 c)
        then over p w (try_set_zonelist_oom zones locks)
        else proceed (with_limit u v.mem_max c w) locks []

    visit_processes : Tasks → World hl → Locks → List Event → Hook hl
    unfolding visit_process go_on
    visit_processes [] w locks ev = proceed w locks ev
    visit_processes (p ∷ ps) w locks ev =
        go_on (visit_process p w locks) ev (λ w' locks' ev'. visit_processes ps w' locks' ev')

  -- The charge from `this_user` on; `order` is below 20.
  charge_for :
      (Task → Env)
      → (zones : List ℕ) (order user : ℕ) → Tasks
      → Locks
      → Option Ptr × World hl
      → Hook hl
  unfolding visit_processes
  charge_for env zones order user all locks (none, w) = proceed w locks []
  charge_for env zones order user all locks (some u, w) =
      if eqb_ℤ (w.user u).mem_max (negsuc 0)
      then proceed w locks []
      else visit_processes env zones u (2 ^ order * page_size) (of_user user all) w locks []

  pub charge :
      (Task → Env)
      → (current_ns : Ptr) (zones : List ℕ) (order : ℕ) → Tasks
      → Limits hl
      → Locks
      → Hook hl
  unfolding charge_for
  charge env ns zones order all l locks =
      if l.start == 1 && not (l.user == 0)
      then charge_for env zones order l.user all locks (find_user bits ns l.user l.world)
      else proceed l.world locks []

  fault_over : Env → (populated : List ℕ) → World hl → Bool × Locks → Hook hl
  unfolding after_kill
  fault_over e populated w (false, locks) = proceed w locks []
  fault_over e populated w (true, locks) = after_kill populated (out_of_memory bits e w) locks

  -- The handler of page faults, with the list of all populated zones. `e` is to have no zone list, no
  -- mask and no force.
  pub pagefault_out_of_memory : Env → (populated : List ℕ) → World hl → Locks → Hook hl
  unfolding fault_over
  pagefault_out_of_memory e populated w locks =
      fault_over e populated w (try_set_zonelist_oom populated locks)
