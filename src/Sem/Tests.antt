-- ===== src/Sem/Tests.antt =====
-- Runs of the semaphore, and its theorems at concrete inputs.
use osandroid_kernel.Prelude.{ℕ, ◌≤◌, ◌<◌, ◌≡◌, refl, true, false, none, some, [], ◌∷◌, arith}
use osandroid_kernel.Prelude.Int.{pos, negsuc, ◌-ℤ◌}
use osandroid_kernel.Prelude.Families.{sum_below}
use osandroid_kernel.Sem.{
  Node, node, State, ok, write, insert_node, sthread_sem_init, sthread_sem_down,
}
use osandroid_kernel.Sem.Refine.{down_spec, Represents, Refines, Releases, down-Refines, up-Refines}
use osandroid_kernel.Sem.System.{System, outside, move, parked, inside, Reach, start, later, down}
use osandroid_kernel.Sem.Safety.{is_inside, Moves, inside-le, no_lost_wakeup}

-- Memory before `init`: the fields hold anything.
abbrev raw : State
raw = record {
  sem = record { count = pos 9; sthread_count = 4; head = 77; start = 78 };
  heap = λ _. none;
  flag = 0;
}

abbrev junk : Node
junk = node 55 66

-- Initialised to 1; taken by thread 0; thread 1 queued in a node at 100.
abbrev fresh : State
fresh = record raw { sem = record { count = pos 1; sthread_count = 0; head = 0; start = 0 } }

abbrev taken : State
taken = record raw { sem = record { count = pos 0; sthread_count = 0; head = 0; start = 0 } }

abbrev queued : State
queued = record {
  sem = record { count = pos 0; sthread_count = 1; head = 100; start = 100 };
  heap =
      write (write (write (λ _. none) 100 (some junk)) 100 (some (node 1 66))) 100
        (some (node 1 0));
  flag = 0;
}

init_run : sthread_sem_init (pos 1) raw ≡ ok (pos 0) fresh
unfolding sthread_sem_init
init_run = refl

down_run : sthread_sem_down 0 99 junk fresh ≡ ok (pos 0, false) taken
unfolding sthread_sem_down ◌-ℤ◌
down_run = refl

down_queues_run : sthread_sem_down 1 100 junk taken ≡ ok (negsuc 0, true) queued
unfolding sthread_sem_down insert_node
down_queues_run = refl

taken-Represents : Represents taken (record { count = pos 0; waiting = [] })
taken-Represents = record {
  nodes = [];
  queue = record { linked = tt; starts = refl; ends = tt; counted = refl };
  same_count = refl;
  threads = refl;
  unlocked = refl;
}

queued-Represents : Represents queued (record { count = pos 0; waiting = 1 ∷ [] })
queued-Represents = record {
  nodes = (100, 1) ∷ [];
  queue = record {
    linked = (omega arith, refl, refl, tt);
    starts = refl;
    ends = refl;
    counted = refl;
  };
  same_count = refl;
  threads = refl;
  unlocked = refl;
}

down-Refines_example :
    Refines
      (sthread_sem_down 1 100 junk taken)
      (down_spec 1 (record { count = pos 0; waiting = [] }))
down-Refines_example = down-Refines 1 100 junk taken _ taken-Represents (omega arith) refl

up-Refines_example : Releases queued (record { count = pos 0; waiting = 1 ∷ [] })
up-Refines_example = up-Refines queued _ queued-Represents

-- Thread 0 is inside, thread 1 is suspended behind it.
abbrev contended : System
contended = record {
  mem = queued;
  thread = move 1 parked (move 0 inside (λ _. record { place = outside; pipe = 0 }));
}

contended-Reach : Reach 2 1 contended
contended-Reach =
    later
      (later (start raw fresh refl init_run)
        (down 0 99 junk (pos 0) false taken (omega arith) refl (omega arith) refl down_run))
      (down 1 100 junk (negsuc 0) true queued (omega arith) refl (omega arith) refl down_queues_run)

inside-le_example : sum_below is_inside 2 contended.thread ≤ 1
inside-le_example = inside-le contended-Reach

no_lost_wakeup_example : (j : ℕ) × (j < 2) × Moves (contended.thread j)
no_lost_wakeup_example = no_lost_wakeup (omega arith) contended-Reach 1 (omega arith) refl
