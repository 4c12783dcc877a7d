-- ===== src/SysFail/Arm.antt =====
-- An armed injector counts down to one failure.
use osandroid_kernel.Prelude.{
  ℕ, zero, suc, ◌+◌, ◌-◌, ◌^◌, ◌<◌, ◌≤◌, ◌≡◌, refl, List, ◌∷◌, ◌++◌, arith, ap,
}
use osandroid_kernel.Prelude.Int.{ℤ, pos, ◌+ℤ◌, ◌<ℤ◌, ◌≤ℤ◌}
use osandroid_kernel.Prelude.Lists.{replicate}
use osandroid_kernel.SysFail.{Injector, set_count, einval, sys_fail, vector_swi, uname_calls}

-- While nothing is armed every call runs its routine on the unchanged state.
pub vector_swi-idle :
    (t : ℕ) (routine : Injector → ℤ × Injector) (s : Injector)
    → s.ran ≡ 0
    → vector_swi t routine s ≡ routine s
unfolding vector_swi
vector_swi-idle t routine s h = ground arith

uname_calls-idle :
    (ret : ℤ) (t k : ℕ) (s : Injector) → s.ran ≡ 0 → uname_calls ret t k s ≡ (replicate k ret, s)
unfolding uname_calls
uname_calls-idle ret t zero s h = refl
uname_calls-idle ret t (suc k) s h = rw (vector_swi-idle t _ s h, uname_calls-idle ret t k s h)

-- The state after `should_fail` has counted a call of task `t`, for a count that does not wrap.
abbrev counted : ℕ → ℕ → Injector → Injector
counted t c s = record s { hw2_count = set_count s.hw2_count t (pos c) }

module _ (t : ℕ) (routine : Injector → ℤ × Injector) (s : Injector) (c m : ℕ) where
  pub vector_swi-counts :
      s.ran ≡ 1
      → s.hw2_count t ≡ pos c
      → s.n ≡ pos m
      → m < 2 ^ 31
      → suc c < m
      → vector_swi t routine s ≡ routine (counted t (suc c) s)
  unfolding vector_swi ◌+ℤ◌
  vector_swi-counts r hc hn small lt = ground arith

  pub vector_swi-fails :
      s.ran ≡ 1
      → s.hw2_count t ≡ pos c
      → s.n ≡ pos m
      → m < 2 ^ 31
      → c < m
      → m ≤ suc c
      → vector_swi t routine s ≡ (einval, record (counted t (suc c) s) { ran = 0 })
  unfolding vector_swi ◌+ℤ◌
  vector_swi-fails r hc hn small lt le = ground arith

abbrev pub one_failure : ℤ → ℕ → ℕ → List ℤ
one_failure ret before after = replicate before ret ++ einval ∷ replicate after ret

uname_calls-armed :
    (ret : ℤ) (t : ℕ) (k j l c : ℕ) (s : Injector)
    → l ≡ k + suc j
    → s.ran ≡ 1
    → s.hw2_count t ≡ pos c
    → s.n ≡ pos (c + suc k)
    → c + suc k < 2 ^ 31
    → ((uname_calls ret t l s).0 ≡ one_failure ret k j) × ((uname_calls ret t l s).1.ran ≡ 0)
unfolding uname_calls
uname_calls-armed ret t k j zero c s e r hc hn small = absurd (omega arith)
uname_calls-armed ret t zero j (suc l) c s e r hc hn small =
    let q : l ≡ j = omega arith in
    rw
      (vector_swi-fails t (λ x. (ret, x)) s c (c + 1) r hc (ground arith) (omega arith)
        (omega arith) (omega arith))
      (rw (uname_calls-idle ret t l (record (counted t (suc c) s) { ran = 0 }) refl)
        (rw q (refl, refl)))
uname_calls-armed ret t (suc k) j (suc l) c s e r hc hn small =
    let rest : _ =
      uname_calls-armed ret t k j l (suc c) (counted t (suc c) s) (omega arith) r (ground arith)
        (ground arith) (omega arith) in
    rw (vector_swi-counts t (λ x. (ret, x)) s c (c + suc (suc k)) r hc hn small (omega arith))
      (ap (λ xs. ret ∷ xs) rest.0, rest.1)

-- From a state whose `sys_fail_ran` is 0 or 1, `sys_fail(k + 1)` succeeds, and of the next
-- `k + 1 + j` calls of the same task exactly the (k + 1)-st fails, with -EINVAL; injection is
-- then off.
pub sys_fail-then-uname_calls :
    (ret : ℤ) (t k j : ℕ) (s : Injector)
    → s.ran ≤ 1
    → suc k < 2 ^ 31
    → let (r, s') = sys_fail t (pos (suc k)) s in
      let (rets, last) = uname_calls ret t (k + suc j) s' in
      (r ≡ pos 0) × (rets ≡ one_failure ret k j) × (last.ran ≡ 0)
unfolding sys_fail
sys_fail-then-uname_calls ret t k j s ok small =
    let (r, s') = sys_fail t (pos (suc k)) s in
    let run : _ =
      uname_calls-armed ret t k j (k + suc j) 0 s' refl (ground arith) (ground arith) (ground arith)
        (omega arith) in
    (ground arith, run.0, run.1)

-- While injection is off, a count that is not positive is refused with -EINVAL, and the caller's
-- next call runs its routine.
pub sys_fail-not_positive :
    (t : ℕ) (arg : ℤ) (routine : Injector → ℤ × Injector) (s : Injector)
    → s.ran ≡ 0
    → arg ≤ℤ pos 0
    → let (r, s') = sys_fail t arg s in (r ≡ einval) × (vector_swi t routine s' ≡ routine s')
unfolding sys_fail vector_swi
sys_fail-not_positive t arg routine s off h = ground arith

-- While injection is on, a negative count is accepted with result 0, and the next call of any task
-- whose count has not wrapped fails.
pub sys_fail-negative :
    (t u : ℕ) (arg : ℤ) (routine : Injector → ℤ × Injector) (s : Injector)
    → s.ran ≡ 1
    → arg <ℤ pos 0
    → pos 0 ≤ℤ s.hw2_count u
    → s.hw2_count u <ℤ pos (2 ^ 31 - 1)
    → let (r, s') = sys_fail t arg s in (r ≡ pos 0) × ((vector_swi u routine s').0 ≡ einval)
unfolding sys_fail vector_swi ◌+ℤ◌
sys_fail-negative t u arg routine s on h lo hi = ground arith
