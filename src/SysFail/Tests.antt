-- ===== src/SysFail/Tests.antt =====
-- Runs of the failure injector, and its theorems at concrete inputs.
use osandroid_kernel.Prelude.{◌≡◌, refl, arith}
use osandroid_kernel.Prelude.Int.{pos, ◌+ℤ◌}
use osandroid_kernel.SysFail.{Injector, sys_fail, vector_swi, uname_calls}
use osandroid_kernel.SysFail.Arm.{one_failure, sys_fail-then-uname_calls}

-- After boot: nothing is armed, and every task has counted nothing.
abbrev booted : Injector
booted = record { n = pos 0; ran = 0; hw2_count = λ _. pos 0 }

-- hw2.c: `inject_failure(5)`, then 20 calls.
hw2_run : (uname_calls (pos 0) 7 20 (sys_fail 7 (pos 5) booted).1).0 ≡ one_failure (pos 0) 4 15
unfolding uname_calls vector_swi sys_fail ◌+ℤ◌
hw2_run = refl

sys_fail-then-uname_calls_example :
    let (r, s') = sys_fail 7 (pos 5) booted in
    let (rets, last) = uname_calls (pos 0) 7 20 s' in
    (r ≡ pos 0) × (rets ≡ one_failure (pos 0) 4 15) × (last.ran ≡ 0)
sys_fail-then-uname_calls_example =
    sys_fail-then-uname_calls (pos 0) 7 4 15 booted (omega arith) (omega arith)

abbrev armed : Injector
armed = record { n = pos 5; ran = 1; hw2_count = λ _. pos 2 }
