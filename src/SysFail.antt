-- ===== src/SysFail.antt =====
-- Failure injection: sys_fail.c, its hook in entry-common.S, and the test program hw2.c.
pub mod Arm
mod Tests
use osandroid_kernel.Prelude.{
  ℕ, zero, suc, ◌≡◌, Bool, true, false, ◌&&◌, List, [], ◌∷◌, ◌==◌, if◌then◌else◌,
}
use osandroid_kernel.Prelude.Int.{ℤ, pos, negsuc, ltb_ℤ, leb_ℤ, eqb_ℤ, inc_int}

-- -EINVAL
abbrev pub einval : ℤ
einval = negsuc 21

-- The globals `n` and `sys_fail_ran`, and `hw2_count` of each task.
pub record Injector : Type 0 where
  pub n : ℤ
  pub ran : ℕ
  pub hw2_count : ℕ → ℤ

abbrev pub set_count : (ℕ → ℤ) → ℕ → ℤ → ℕ → ℤ
set_count f t v u = if t == u then v else f u

-- `sys_fail(N)` called by task `t`: its return value and the new state.
unfoldable pub sys_fail : ℕ → ℤ → Injector → ℤ × Injector
sys_fail t arg s0 =
    let s = record s0 { n = arg } in
    if ltb_ℤ (pos 0) arg && s.ran == 0
    then (pos 0, record s { hw2_count = set_count s.hw2_count t (pos 0); ran = 1 })
    else if leb_ℤ arg (pos 0) && s.ran == 0
    then (einval, s)
    else if eqb_ℤ arg (pos 0) && s.ran == 1
    then (pos 0, record s { ran = 0 })
    else if ltb_ℤ (pos 0) arg && s.ran == 1
    then (pos 0, record s { hw2_count = set_count s.hw2_count t (pos 0) })
    else (pos 0, s)

pub should_fail : ℕ → Injector → ℕ × Injector
should_fail t s =
    if s.ran == 1
    then (let s' = record s { hw2_count = set_count s.hw2_count t (inc_int (s.hw2_count t)) } in
        (if ltb_ℤ (s'.hw2_count t) s'.n then 0 else 1, s'))
    else (0, s)

pub fail_syscall : Injector → ℤ × Injector
fail_syscall s = (einval, record s { ran = 0 })

-- What `vector_swi` does for an untraced call of task `t` whose `sys_*` routine is `routine`.
pub vector_swi : ℕ → (Injector → ℤ × Injector) → Injector → ℤ × Injector
unfolding should_fail fail_syscall
vector_swi t routine s =
    let (failing, s') = should_fail t s in if failing == 0 then routine s' else fail_syscall s'

-- The loop of hw2.c: `k` calls of `uname`, which leaves the injector alone and returns `ret`.
pub uname_calls : ℤ → ℕ → ℕ → Injector → List ℤ × Injector
uname_calls ret t zero s = ([], s)
uname_calls ret t (suc k) s =
    let (r, s') = vector_swi t (λ x. (ret, x)) s in
    let (rs, s'') = uname_calls ret t k s' in (r ∷ rs, s'')
