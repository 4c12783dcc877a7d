-- ===== src/Oom/Select.antt =====
-- `select_bad_process`: with a memory limit in force the worst process of the limited user, and
-- otherwise the worst of all threads.
pub mod Choice
use osandroid_kernel.Prelude.{
  ℕ, zero, suc, ◌≡◌, Bool, true, false, ◌&&◌, ◌||◌, not, Option, none, some, List, [], ◌∷◌, ltb,
  ◌==◌, if◌then◌else◌, is_some,
}
use osandroid_kernel.Prelude.Int.{ℤ, negsuc, eqb_ℤ}
use osandroid_kernel.UserCache.{Hlist, World, find_user}
use osandroid_kernel.Oom.{
  Scope, Ptr, Task, Tasks, filter_by, processes, oom_unkillable_task, oom_badness,
}

-- `fault` is a NULL dereference, `abort` is ERR_PTR(-1), and `chosen none` is NULL.
pub data Selection : Type 0 where
  fault abort : Selection
  chosen : Option Task → ℕ → Selection

-- The loop over the processes of the limited user.
pub worst : (bad : Task → ℕ) → Tasks → Option Task → ℕ → Selection
worst bad [] c n = chosen c n
worst bad (t ∷ ts) c n =
    worst bad ts (if ltb n (bad t) then some t else c) (if ltb n (bad t) then bad t else n)

-- One round of the loop over all threads: leave it with ERR_PTR(-1), or go on.
pub data Visit : Type 0 where
  stop : Visit
  go : Option Task → ℕ → Visit

pub visit :
    (bad : Task → ℕ) (unkillable : Task → Bool) (current : ℕ) (force_kill : Bool)
    → Task
    → Option Task
    → ℕ
    → Visit
visit bad unkillable current force_kill t c n =
    let judge =
      λ (c' : Option Task) (n' : ℕ). if ltb n' (bad t) then go (some t) (bad t) else go c' n' in
    if t.exit_state
    then go c n
    else if unkillable t
    then go c n
    else if t.memdie && not force_kill
    then stop
    else if not (is_some t.mm)
    then go c n
    else if t.exiting
    then (if t.pid == current
        then judge (some t) 1000
        else if not force_kill && not t.trace_exit
        then stop
        else judge c n)
    else judge c n

pub worst_thread :
    (bad : Task → ℕ) (unkillable : Task → Bool) (current : ℕ) (force_kill : Bool)
    → Tasks
    → Option Task
    → ℕ
    → Selection
worst_thread bad unkillable current force_kill [] c n = chosen c n
worst_thread bad unkillable current force_kill (t ∷ ts) c n =
    elim (visit bad unkillable current force_kill t c n) [
      | stop ↦ abort
      | go c' n' ↦ worst_thread bad unkillable current force_kill ts c' n'
    ]

abbrev pub mem_max_in : {hl : Hlist} → World hl → Ptr → ℤ
mem_max_in w p = (w.user p).mem_max

abbrev pub of_user : ℕ → Tasks → Tasks
of_user user all = filter_by (λ t. t.uid == user) (processes all)

module _ {hl : Hlist} (bits : ℕ) where
  -- `limited` is the global `user` that `set_mlimit` sets. Its `user_struct` is printed before it is
  -- tested. `this_user` is what `find_user` answered, if it was called.
  pub select_for :
      (this_user : Option Ptr) (limited current : ℕ) (all : Tasks) (totalpages : ℕ)
      → (scope : Scope) (force_kill : Bool) → World hl
      → Selection
  select_for none limited current all totalpages scope force_kill w =
      worst_thread (λ t. oom_badness (mem_max_in w) all t scope totalpages)
        (λ t. oom_unkillable_task all t scope) current force_kill all none 0
  select_for (some u) limited current all totalpages scope force_kill w =
      if eqb_ℤ (mem_max_in w u) (negsuc 0)
      then chosen none 0
      else worst (λ t. oom_badness (mem_max_in w) all t scope totalpages) (of_user limited all) none
          0

  -- The result and the new state: `find_user` takes a reference.
  pub select_bad_process :
      (current_ns : Ptr) (limited current : ℕ) (all : Tasks) (totalpages : ℕ)
      → (scope : Scope) (force_kill : Bool) → World hl
      → Selection × World hl
  unfolding select_for
  select_bad_process ns limited current all totalpages scope force_kill w =
      if limited == 0
      then (select_for none limited current all totalpages scope force_kill w, w)
      else let (u, w') = find_user bits ns limited w in
        (
          if is_some u
              then select_for u limited current all totalpages scope force_kill w'
              else fault,
          w',
        )
