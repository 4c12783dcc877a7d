-- ===== src/Oom/Select/Choice.antt =====
-- What `select_bad_process` chooses.
use osandroid_kernel.Prelude.{
  ℕ, ◌≤◌, ◌<◌, ◌≡◌, ◌≢◌, refl, ◌⊎◌, inl, inr, Bool, true, false, ◌&&◌, not, Option, none, some, [],
  ◌∷◌, arith, ltb, ◌==◌, if◌then◌else◌, is_some, Bool-cases,
}
use osandroid_kernel.Prelude.Lists.{All}
use osandroid_kernel.Prelude.Int.{negsuc, eqb_ℤ}
use osandroid_kernel.UserCache.{Hlist, World, find_user, with_ref, uidhashfn}
use osandroid_kernel.UserCache.Table.{IsTable, Hashed}
use osandroid_kernel.UserCache.Alloc.{find_user_lem}
use osandroid_kernel.Oom.{Scope, Ptr, Task, Tasks, oom_unkillable_task, oom_badness}
use osandroid_kernel.Oom.Badness.{oom_badness_range}
use osandroid_kernel.Oom.Select.{
  Selection, fault, abort, chosen, worst, Visit, stop, go, visit, worst_thread, mem_max_in, of_user,
  select_bad_process,
}

abbrev pub Among : Task → Tasks → Type 0
Among t [] = ⊥
Among t (x ∷ xs) = (t ≡ x) ⊎ Among t xs

-- A chosen task is one of those looked at, and scores `n`; no task chosen means that `n` is 0.
abbrev pub Attained : (bad : Task → ℕ) → Tasks → Option Task → ℕ → Type 0
Attained bad ts none n = n ≡ 0
Attained bad ts (some t) n = Among t ts × (bad t ≡ n) × (0 < n)

abbrev pub IsWorst : (bad : Task → ℕ) → Tasks → Selection → Type 0
IsWorst bad ts fault = ⊥
IsWorst bad ts abort = ⊥
IsWorst bad ts (chosen c n) = All (λ t. bad t ≤ n) ts × Attained bad ts c n

worst-IsWorst :
    (bad : Task → ℕ) (all ts : Tasks) (c : Option Task) (n : ℕ)
    → ((t : Task) → Among t ts → Among t all)
    → Attained bad all c n
    → (m : ℕ) × (d : Option Task) × (worst bad ts c n ≡ chosen d m)
      × (n ≤ m)
      × All (λ t. bad t ≤ m) ts
      × Attained bad all d m
unfolding worst
worst-IsWorst bad all [] c n sub h = (n, c, refl, omega arith, tt, h)
worst-IsWorst bad all (t ∷ ts) c n sub h = elim (Bool-cases (ltb n (bad t))) [
  | inl worse ↦
      let (m, d, e, le, rest, att) =
        worst-IsWorst bad all ts (some t) (bad t) (λ x a. sub x (inr a))
          (sub t (inl refl), refl, ground arith) in
      (m, d, rw worse e, ground arith, (ground arith, rest), att)
  | inr better ↦
      let (m, d, e, le, rest, att) = worst-IsWorst bad all ts c n (λ x a. sub x (inr a)) h in
      (m, d, rw better e, ground arith, (ground arith, rest), att)
]

-- With a limit in force for a known user, the process chosen is one of the user's, no process of the
-- user scores more, and none is chosen only if all of them score 0. The user has one more reference.
pub select-limited :
    {hl : Hlist} (bits : ℕ) (ns : Ptr) (limited current : ℕ) (all : Tasks) (totalpages : ℕ)
    (scope : Scope) (force_kill : Bool) (w : World hl) (u : Ptr)
    → limited ≢ 0
    → IsTable bits w
    → Hashed bits w ns (uidhashfn bits limited) u
    → (w.user u).uid ≡ limited
    → eqb_ℤ (w.user u).mem_max (negsuc 0) ≡ false
    → let (r, w') = select_bad_process bits ns limited current all totalpages scope force_kill w in
      IsWorst (λ t. oom_badness (mem_max_in w') all t scope totalpages) (of_user limited all) r
      × (w' ≡ with_ref u w)
unfolding select_bad_process
select-limited bits ns limited current all totalpages scope force_kill w u nz t h e lim =
    let (m, d, e', le, upper, att) =
      worst-IsWorst bad (of_user limited all) (of_user limited all) none 0 (λ t a. a) refl in
    rw (nonzero, find_user_lem bits ns limited w u t h e) (rw still (rw e' ((upper, att), refl)))
  where
    nonzero : (limited == 0) ≡ false
    nonzero = ground arith

    bad : Task → ℕ
    bad t = oom_badness (mem_max_in (with_ref u w)) all t scope totalpages

    still : eqb_ℤ (mem_max_in (with_ref u w) u) (negsuc 0) ≡ false
    still = ground (arith, lim)

-- A limited user with no `user_struct` makes the killer print through NULL.
pub select-unknown_user :
    {hl : Hlist} (bits : ℕ) (ns : Ptr) (limited current : ℕ) (all : Tasks) (totalpages : ℕ)
    (scope : Scope) (force_kill : Bool) (w : World hl)
    → limited ≢ 0
    → find_user bits ns limited w ≡ (none, w)
    → select_bad_process bits ns limited current all totalpages scope force_kill w ≡ (fault, w)
unfolding select_bad_process
select-unknown_user bits ns limited current all totalpages scope force_kill w nz e =
    let nonzero : (limited == 0) ≡ false = ground arith in rw (nonzero, e)

-- Once the limit of the known user is lifted (-1), no task is ever chosen.
pub select-unlimited :
    {hl : Hlist} (bits : ℕ) (ns : Ptr) (limited current : ℕ) (all : Tasks) (totalpages : ℕ)
    (scope : Scope) (force_kill : Bool) (w : World hl) (u : Ptr)
    → limited ≢ 0
    → IsTable bits w
    → Hashed bits w ns (uidhashfn bits limited) u
    → (w.user u).uid ≡ limited
    → (w.user u).mem_max ≡ negsuc 0
    → select_bad_process bits ns limited current all totalpages scope force_kill w
      ≡ (chosen none 0, with_ref u w)
unfolding select_bad_process
select-unlimited bits ns limited current all totalpages scope force_kill w u nz t h e lim =
    let nonzero : (limited == 0) ≡ false = ground arith in
    let lifted : eqb_ℤ (mem_max_in (with_ref u w) u) (negsuc 0) ≡ true = ground (arith, lim) in
    rw (nonzero, find_user_lem bits ns limited w u t h e) (rw lifted)

-- The threads that the loop scores.
abbrev pub is_considered : (unkillable : Task → Bool) → Task → Bool
is_considered unkillable t = not t.exit_state && not (unkillable t) && is_some t.mm

module _ (bad : Task → ℕ) (unkillable : Task → Bool) where
  abbrev pub weight : Task → ℕ
  weight t = if is_considered unkillable t then bad t else 0

  abbrev pub IsConsidered : Option Task → Type 0
  IsConsidered none = Unit
  IsConsidered (some t) = is_considered unkillable t ≡ true

  abbrev Advances : Task → Option Task → ℕ → Visit → Type 0
  Advances t c n stop = ⊥
  Advances t c n (go c' n') =
      (n ≤ n')
      × (weight t ≤ n')
      × (n' ≤ 1000)
      × ((c' ≡ c) ⊎ ((c' ≡ some t) × (is_considered unkillable t ≡ true)))

  visit-Advances :
      (current : ℕ) (t : Task) (c : Option Task) (n : ℕ)
      → n ≤ 1000
      → bad t ≤ 1000
      → Advances t c n (visit bad unkillable current true t c n)
  unfolding visit
  visit-Advances current t c n h b = ground arith

  goes :
      (t : Task) (c : Option Task) (n : ℕ) (v : Visit)
      → Advances t c n v
      → (c' : Option Task) × (n' : ℕ) × (v ≡ go c' n') × Advances t c n (go c' n')
  goes t c n stop a = absurd a
  goes t c n (go c' n') a = (c', n', refl, a)

  kept :
      (c c' : Option Task) (t : Task)
      → IsConsidered c
      → (c' ≡ c) ⊎ ((c' ≡ some t) × (is_considered unkillable t ≡ true))
      → IsConsidered c'
  kept c c' t h (inl e) = rw e h
  kept c c' t h (inr (e, considered)) = rw e considered

  -- The forced loop never gives up, and no thread weighs more than what it answers.
  worst_thread-forced :
      (current : ℕ) (ts : Tasks) (c : Option Task) (n : ℕ)
      → n ≤ 1000
      → ((t : Task) → bad t ≤ 1000)
      → IsConsidered c
      → (d : Option Task) × (m : ℕ) × (worst_thread bad unkillable current true ts c n ≡ chosen d m)
        × (n ≤ m)
        × All (λ t. weight t ≤ m) ts
        × IsConsidered d
  unfolding worst_thread
  worst_thread-forced current [] c n h b k = (c, n, refl, omega arith, tt, k)
  worst_thread-forced current (t ∷ ts) c n h b k =
      let (c', n', e, a) = goes t c n _ (visit-Advances current t c n h (b t)) in
      let (d, m, e', le, upper, k') =
        worst_thread-forced current ts c' n' a.2 b (kept c c' t k a.3) in
      (d, m, rw (e, worst_thread) e', omega (arith, a), (omega (arith, a), upper), k')

-- Without a limited user, a forced choice never gives up; the task it chooses, if any, is alive, may
-- be killed and has memory, and no thread of that kind scores more than the points it answers.
pub select-forced :
    {hl : Hlist} (bits : ℕ) (ns : Ptr) (current : ℕ) (all : Tasks) (totalpages : ℕ) (scope : Scope)
    (w : World hl)
    → let unkillable = λ (t : Task). oom_unkillable_task all t scope in
      let bad = λ (t : Task). oom_badness (mem_max_in w) all t scope totalpages in
      (c : Option Task) × (n : ℕ) × (select_bad_process bits ns 0 current all totalpages scope true
          w
        ≡ (chosen c n, w))
      × All (λ t. weight bad unkillable t ≤ n) all
      × IsConsidered bad unkillable c
unfolding select_bad_process
select-forced bits ns current all totalpages scope w =
    let (c, n, e, le, upper, k) =
      worst_thread-forced (λ t. oom_badness (mem_max_in w) all t scope totalpages)
        (λ t. oom_unkillable_task all t scope) current all none 0 (omega arith)
        (λ t. (oom_badness_range (mem_max_in w) all t scope totalpages).1) tt in
    (c, n, rw e, upper, k)
