-- ===== src/Oom/Limit/Charge.antt =====
-- What an allocation charges to the limited user.
use osandroid_kernel.Prelude.{
  ℕ, suc, ◌+◌, ◌-◌, ◌*◌, ◌^◌, ◌≤◌, ◌<◌, ◌≡◌, ◌≢◌, refl, sym, ap, ◌∙◌, inl, inr, true, false, ◌&&◌,
  not, List, [], ◌∷◌, ltb, ◌==◌, arith, Bool-cases, ==-refl, ==→eq,
}
use osandroid_kernel.Prelude.Lists.{length}
use osandroid_kernel.Prelude.Int.{
  ℤ, pos, negsuc, ◌+ℤ◌, eqb_ℤ, u32, s32, wrap_long, u32-s32, wrap_long-+ℤ,
}
use osandroid_kernel.UserCache.{Hlist, World, User, set_user, with_ref, uidhashfn}
use osandroid_kernel.UserCache.Table.{IsTable, Hashed}
use osandroid_kernel.UserCache.Alloc.{find_user_lem}
use osandroid_kernel.Oom.{Ptr, Task, Tasks}
use osandroid_kernel.Oom.Select.{of_user}
use osandroid_kernel.Oom.Zones.{Locks}
use osandroid_kernel.Oom.Run.{Env, page_size}
use osandroid_kernel.Oom.Limit.{
  Limits, with_limit, proceed, go_on, visit_process, visit_processes, charge_for, charge,
}

-- `w'` is `w` with the charge of the user `u` at `c`.
abbrev pub Charged : {hl : Hlist} → Ptr → ℤ → World hl → World hl → Type 0
Charged u c w w' =
    (w'.table ≡ w.table)
    × (w'.log ≡ w.log)
    × ((q : Ptr) → w'.user q ≡ set_user u (record (w.user u) { cumulative_mem = c }) w.user q)

set_user_self :
    (u : Ptr) (v : User) (user : Ptr → User) (q : Ptr) → v ≡ user u → set_user u v user q ≡ user q
set_user_self u v user q e = elim (Bool-cases (u == q)) [
  | inl same ↦ rw same (e ∙ ap user (==→eq u q same))
  | inr apart ↦ rw apart
]

-- A second charge replaces the first.
recharge :
    (u : Ptr) (user : Ptr → User) (m c d : ℤ) (q : Ptr)
    → (user u).mem_max ≡ m
    → let first = set_user u (record (user u) { mem_max = m; cumulative_mem = c }) user in
      set_user u (record (first u) { cumulative_mem = d }) first q
      ≡ set_user u (record (user u) { cumulative_mem = d }) user q
recharge u user m c d q e = elim (Bool-cases (u == q)) [
  | inl same ↦
      rw (==-refl u, same) (ap (λ x. record (user u) { mem_max = x; cumulative_mem = d }) (sym e))
  | inr apart ↦ rw apart
]

module _ {hl : Hlist} (bits : ℕ) (env : Task → Env) (zones : List ℕ) (u : Ptr) (required : ℕ) where
  visit_process-under :
      (p : Task) (w : World hl) (locks : Locks) (c m : ℕ)
      → (w.user u).cumulative_mem ≡ s32 c
      → (w.user u).mem_max ≡ s32 m
      → c + required ≤ m
      → m < 2 ^ 32
      → visit_process bits env zones u required p w locks
        ≡ proceed (with_limit u (s32 m) (s32 (c + required)) w) locks []
  unfolding visit_process
  visit_process-under p w locks c m hc hm h small =
      let same : wrap_long (s32 c +ℤ pos required) ≡ s32 (c + required) =
        wrap_long-+ℤ c required (omega (arith, h, small)) ∙ ap s32 (omega (arith, h, small)) in
      let under : ltb (u32 (s32 m)) (u32 (s32 (c + required))) ≡ false =
        ground (arith, u32-s32 m small, u32-s32 (c + required), h) in
      rw (hc, hm, same, under)

  visit_processes-proceed :
      (p : Task) (ps : Tasks) (w w' : World hl) (locks : Locks)
      → visit_process bits env zones u required p w locks ≡ proceed w' locks []
      → visit_processes bits env zones u required (p ∷ ps) w locks []
        ≡ visit_processes bits env zones u required ps w' locks []
  unfolding visit_processes go_on
  visit_processes-proceed p ps w w' locks e =
      ap (λ h. go_on h [] (λ v l ev. visit_processes bits env zones u required ps v l ev)) e

  visit_processes-under :
      (ps : Tasks) (w : World hl) (locks : Locks) (c m : ℕ)
      → (w.user u).cumulative_mem ≡ s32 c
      → (w.user u).mem_max ≡ s32 m
      → c + length ps * required ≤ m
      → m < 2 ^ 32
      → (w' : World hl) × (visit_processes bits env zones u required ps w locks []
          ≡ proceed w' locks [])
        × Charged u (s32 (c + length ps * required)) w w'
  unfolding visit_processes
  visit_processes-under [] w locks c m hc hm h small =
      let none_more : c ≡ c + 0 * required = omega arith in
      (
        w,
        refl,
        (
          refl,
          refl,
          λ q. sym (
              set_user_self u _ w.user q (
                ap (λ x. record (w.user u) { cumulative_mem = x })
                  (ap s32 (sym none_more) ∙ sym hc))),
        ),
      )
  visit_processes-under (p ∷ ps) w locks c m hc hm h small =
      let more : c + required + length ps * required ≤ m = grind arith in
      let total : c + required + length ps * required ≡ c + suc (length ps) * required =
        grind arith in
      let self : (u == u) ≡ true = ==-refl u in
      let (w', e, (table, log, user)) =
        visit_processes-under ps (with_limit u (s32 m) (s32 (c + required)) w) locks (c + required)
          m (simp self) (simp self) more small in
      (
        w',
        visit_processes-proceed p ps w _ locks
              (visit_process-under p w locks c m hc hm (omega (arith, more)) small)
            ∙ e,
        (
          table,
          log,
          λ q.
              user q
              ∙ recharge u w.user (s32 m) (s32 (c + required)) _ q hm
              ∙ ap (λ x. set_user u (record (w.user u) { cumulative_mem = s32 x }) w.user q) total,
        ),
      )

-- An allocation under the limit of a known user, also after it is made, goes on, and calls no killer.
-- It is charged once for each process of the user; `k` is their number. The charge and the limit,
-- which is not the -1 of no limit, are read as unsigned numbers of 32 bits.
pub charge-under :
    {hl : Hlist} (bits : ℕ) (env : Task → Env) (ns : Ptr) (zones : List ℕ) (order : ℕ) (all : Tasks)
    (l : Limits hl) (locks : Locks) (u : Ptr) (c m : ℕ)
    → l.start ≡ 1
    → l.user ≢ 0
    → IsTable bits l.world
    → Hashed bits l.world ns (uidhashfn bits l.user) u
    → (l.world.user u).uid ≡ l.user
    → (l.world.user u).cumulative_mem ≡ s32 c
    → (l.world.user u).mem_max ≡ s32 m
    → m < 2 ^ 32 - 1
    → let k = length (of_user l.user all) in
      c + k * (2 ^ order * page_size) ≤ m
      → (w' : World hl) × (charge bits env ns zones order all l locks ≡ proceed w' locks [])
        × Charged u (s32 (c + k * (2 ^ order * page_size))) (with_ref u l.world) w'
unfolding charge charge_for
charge-under bits env ns zones order all l locks u c m on nz t h own hc hm small fits =
    let on' : (l.start == 1 && not (l.user == 0)) ≡ true = ground arith in
    let limited : eqb_ℤ ((with_ref u l.world).user u).mem_max (negsuc 0) ≡ false =
      rw (==-refl u, hm) (ground (arith, small)) in
    rw (on', find_user_lem bits ns l.user l.world u t h own)
      (rw limited (
        visit_processes-under bits env zones u (2 ^ order * page_size) (of_user l.user all)
          (with_ref u l.world) locks c m (simp (==-refl u, hc)) (simp (==-refl u, hm)) fits
          (omega (arith, small))))
