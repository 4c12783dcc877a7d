-- ===== src/Oom/Limit/Release.antt =====
-- The zone locks over a charge and over a page fault.
use osandroid_kernel.Prelude.{
  ℕ, ◌≡◌, refl, ◌∙◌, ◌⊎◌, inl, inr, Bool, true, false, ◌&&◌, not, Option, none, some, List, [], ◌∷◌,
  ◌++◌, ltb, ◌==◌, Bool-cases,
}
use osandroid_kernel.Prelude.Int.{negsuc, u32, wrap_long, eqb_ℤ, pos, ◌+ℤ◌}
use osandroid_kernel.UserCache.{Hlist, World, find_user}
use osandroid_kernel.Oom.{Ptr, Task, Tasks}
use osandroid_kernel.Oom.Kill.{Event}
use osandroid_kernel.Oom.Zones.{Locks, try_set_zonelist_oom, clear_zonelist_oom, try_set-clear}
use osandroid_kernel.Oom.Run.{Env, Outcome, returned, panicked, faulted}
use osandroid_kernel.Oom.Limit.{
  Limits, u32, Hook, proceed, no_page, hook_panicked, hook_faulted, go_on, after_kill, over,
  visit_process, visit_processes, charge_for, charge, fault_over, pagefault_out_of_memory,
}

abbrev pub Keeps : {hl : Hlist} → Locks → Hook hl → Type 0
Keeps locks (proceed w locks' ev) = (y : ℕ) → locks' y ≡ locks y
Keeps locks (no_page w locks' ev) = (y : ℕ) → locks' y ≡ locks y
Keeps locks hook_panicked = Unit
Keeps locks hook_faulted = Unit

-- What an attempt to take the locks answers: they are unchanged, or clearing them restores them.
abbrev Restorable : List ℕ → Locks → Bool × Locks → Type 0
Restorable zones locks (false, locks') = locks' ≡ locks
Restorable zones locks (true, locks') = (y : ℕ) → clear_zonelist_oom zones locks' y ≡ locks y

restorable :
    (zones : List ℕ) (locks : Locks) (r : Bool × Locks)
    → ((r.0 ≡ false) × (r.1 ≡ locks))
      ⊎ ((r.0 ≡ true) × ((y : ℕ) → clear_zonelist_oom zones r.1 y ≡ locks y))
    → Restorable zones locks r
restorable zones locks (false, l) (inl (e, f)) = f
restorable zones locks (true, l) (inl (e, f)) = absurd (cc)
restorable zones locks (false, l) (inr (e, f)) = absurd (cc)
restorable zones locks (true, l) (inr (e, f)) = f

try_set-Restorable :
    (zones : List ℕ) (locks : Locks) → Restorable zones locks (try_set_zonelist_oom zones locks)
try_set-Restorable zones locks = restorable zones locks _ (elim (try_set-clear zones locks) [
  | inl (e, same, _) ↦ inl (e, same)
  | inr (e, _, back) ↦ inr (e, back)
])

after_kill-Keeps :
    {hl : Hlist} (zones : List ℕ) (locks locks' : Locks) (o : Outcome hl)
    → ((y : ℕ) → clear_zonelist_oom zones locks' y ≡ locks y)
    → Keeps locks (after_kill zones o locks')
unfolding after_kill
after_kill-Keeps zones locks locks' (returned w ev) back = back
after_kill-Keeps zones locks locks' panicked back = tt
after_kill-Keeps zones locks locks' faulted back = tt

go_on-Keeps :
    {hl : Hlist} (locks : Locks) (h : Hook hl) (ev : List Event)
    (next : World hl → Locks → List Event → Hook hl)
    → Keeps locks h
    → ((w : World hl) (l : Locks) (ev' : List Event) → Keeps l (next w l ev'))
    → Keeps locks (go_on h ev next)
unfolding go_on
go_on-Keeps {hl = hl} locks (proceed w l ev') ev next k n =
    through (next w l (ev ++ ev')) (n w l (ev ++ ev'))
  where
    through : (h : Hook hl) → Keeps l h → Keeps locks h
    through (proceed v l' _) k' = λ y. k' y ∙ k y
    through (no_page v l' _) k' = λ y. k' y ∙ k y
    through hook_panicked k' = tt
    through hook_faulted k' = tt
go_on-Keeps locks (no_page w l ev') ev next k n = k
go_on-Keeps locks hook_panicked ev next k n = tt
go_on-Keeps locks hook_faulted ev next k n = tt

module _ {hl : Hlist} (bits : ℕ) where
  module _ (env : Task → Env) (zones : List ℕ) (u : Ptr) (required : ℕ) where
    over-Keeps :
        (p : Task) (w : World hl) (locks : Locks) (r : Bool × Locks)
        → Restorable zones locks r
        → Keeps locks (over bits env zones u required p w r)
    unfolding over
    over-Keeps p w locks (false, l) e = λ y. rw e
    over-Keeps p w locks (true, l) back = after_kill-Keeps zones locks l _ back

    visit_process-Keeps :
        (p : Task) (w : World hl) (locks : Locks)
        → Keeps locks (visit_process bits env zones u required p w locks)
    unfolding visit_process
    visit_process-Keeps p w locks =
        elim (Bool-cases (
          ltb (u32 (w.user u).mem_max)
            (u32 (wrap_long ((w.user u).cumulative_mem +ℤ pos required))))) [
              | inl e ↦ rw e (over-Keeps p w locks _ (try_set-Restorable zones locks))
              | inr e ↦ rw e (λ y. refl)
            ]

    visit_processes-Keeps :
        (ps : Tasks) (w : World hl) (locks : Locks) (ev : List Event)
        → Keeps locks (visit_processes bits env zones u required ps w locks ev)
    unfolding visit_processes
    visit_processes-Keeps [] w locks ev = λ y. refl
    visit_processes-Keeps (p ∷ ps) w locks ev =
        go_on-Keeps locks _ ev _ (visit_process-Keeps p w locks)
          (λ w' l' ev'. visit_processes-Keeps ps w' l' ev')

  charge_for-Keeps :
      (env : Task → Env) (zones : List ℕ) (order user : ℕ) (all : Tasks) (locks : Locks)
      (r : Option Ptr × World hl)
      → Keeps locks (charge_for bits env zones order user all locks r)
  unfolding charge_for
  charge_for-Keeps env zones order user all locks (none, w) = λ y. refl
  charge_for-Keeps env zones order user all locks (some u, w) =
      elim (Bool-cases (eqb_ℤ (w.user u).mem_max (negsuc 0))) [
        | inl e ↦ rw e (λ y. refl)
        | inr e ↦ rw e (visit_processes-Keeps env zones u _ _ w locks [])
      ]

  fault_over-Keeps :
      (e : Env) (populated : List ℕ) (w : World hl) (locks : Locks) (r : Bool × Locks)
      → Restorable populated locks r
      → Keeps locks (fault_over bits e populated w r)
  unfolding fault_over
  fault_over-Keeps e populated w locks (false, l) h = λ y. rw h
  fault_over-Keeps e populated w locks (true, l) back = after_kill-Keeps populated locks l _ back

-- However often the killer runs in it, the charge of an allocation and the handler of page faults
-- leave every zone lock as they found it, when they return.
pub charge-Keeps :
    {hl : Hlist} (bits : ℕ) (env : Task → Env) (ns : Ptr) (zones : List ℕ) (order : ℕ) (all : Tasks)
    (l : Limits hl) (locks : Locks) (e : Env)
    → Keeps locks (charge bits env ns zones order all l locks)
      × Keeps locks (pagefault_out_of_memory bits e zones l.world locks)
unfolding charge pagefault_out_of_memory
charge-Keeps bits env ns zones order all l locks e = (
  elim (Bool-cases (l.start == 1 && not (l.user == 0))) [
    | inl on ↦
        rw on (
          charge_for-Keeps bits env zones order l.user all locks (find_user bits ns l.user l.world))
    | inr off ↦ rw off (λ y. refl)
  ],
  fault_over-Keeps bits e zones l.world locks _ (try_set-Restorable zones locks),
)
