-- ===== src/Sthread/Manager/Create.antt =====
-- What `do_create` leaves behind.
use osandroid_kernel.Prelude.{
  ◌≡◌, refl, ap, ◌∙◌, ◌⊎◌, inl, inr, Bool, true, false, not, ◌&&◌, is_some, Option, none, some, ◌∷◌,
  ◌==◌, Bool-cases, ==-refl,
}
use osandroid_kernel.Prelude.Int.{ℤ, pos, negsuc, eqb_ℤ}
use osandroid_kernel.Sthread.{
  Ptr, Thread, Threads, Result, done, then_do, update, threadlist_add, sthread_wake,
}
use osandroid_kernel.Sthread.Chain.{threadlist_del-head}
use osandroid_kernel.Sthread.Manager.{
  Answers, create_failed, create_clone, create_start, create_pipe, create_stack, do_create,
  def_stack_size, msg_create, handle,
}

-- No system call fails.
pub all_succeed : Answers → Bool
all_succeed a =
    is_some a.mmap_stack
    && (is_some a.pipe_ends && (is_some a.start_struct && not (eqb_ℤ a.clone_pid (negsuc 0))))

-- When no call fails, the new thread is first in the list, runs on the answered pid and is given its
-- routine, and the caller is told 0; otherwise the list is as it was and the caller is told -1.
abbrev pub Creates : (caller t main : Ptr) → Answers → Threads → Threads → Type 0
Creates caller t main a s s' =
    ((all_succeed a ≡ true)
      × (s'.list ≡ t ∷ s.list)
      × ((s'.thread t).pid ≡ a.clone_pid)
      × ((s'.thread t).main ≡ main)
      × ((s'.thread caller).status ≡ pos 0))
    ⊎ ((all_succeed a ≡ false) × (s'.list ≡ s.list) × ((s'.thread caller).status ≡ negsuc 0))

module _ (manager main_thread caller t : Ptr) (apart : (t == manager) ≡ false) where
  abbrev Result-Creates : (a : Answers) (main : Ptr) → Threads → Result → Type 0
  Result-Creates a main s r = (s' : Threads) × (r ≡ done s') × Creates caller t main a s s'

  gives_up :
      (a : Answers) (main : Ptr) (s s' : Threads)
      → all_succeed a ≡ false
      → s'.list ≡ s.list
      → Result-Creates a main s (done (create_failed manager main_thread caller s'))
  unfolding create_failed
  gives_up a main s s' failed e =
      (create_failed manager main_thread caller s', refl, inr (failed, e, rw (==-refl caller)))

  create_clone-Creates :
      (a : Answers) (main stack ss : Ptr) (s : Threads)
      → all_succeed a ≡ not (eqb_ℤ a.clone_pid (negsuc 0))
      → (s.thread caller).status ≡ pos 0
      → (s.thread t).status ≡ pos 0
      → (s.thread t).main ≡ main
      → Result-Creates a main s (create_clone manager main_thread a.clone_pid stack ss caller t s)
  unfolding create_clone threadlist_add
  create_clone-Creates a main stack ss s depends quiet ready routine =
      elim (Bool-cases (eqb_ℤ a.clone_pid (negsuc 0))) [
        | inl e ↦
            rw
              (
                e,
                threadlist_del-head manager
                    (update t (λ v. record v { pid = a.clone_pid }) (threadlist_add t s)) s.list t
                    refl apart,
              )
              (gives_up a main s _ (depends ∙ ap not e) refl)
        | inr e ↦ rw e (
          _,
          refl,
          inl (
            depends ∙ ap not e,
            refl,
            rw (==-refl t),
            rw (==-refl t) routine,
            elim (Bool-cases (t == caller)) [
              | inl same ↦ rw same ready
              | inr other ↦ rw other quiet
            ],
          ),
        )
      ]

  abbrev StandsReady : (main : Ptr) → Threads → Type 0
  StandsReady main s =
      ((s.thread caller).status ≡ pos 0)
      × ((s.thread t).status ≡ pos 0)
      × ((s.thread t).main ≡ main)

  start-StandsReady :
      (main : Ptr) (s : Threads)
      → StandsReady main (
          update t
            (λ v. record v {
              main = main;
              running = false;
              status = pos 0;
              stacksize = def_stack_size;
            })
            (update caller (λ v. record v { status = pos 0; err = pos 0 }) s))
  start-StandsReady main s = (
    elim (Bool-cases (t == caller)) [
      | inl same ↦ rw same refl
      | inr other ↦ rw (other, ==-refl caller)
    ],
    rw (==-refl t),
    rw (==-refl t),
  )

  -- A change of the new thread that touches neither its status nor its routine.
  update-StandsReady :
      (main : Ptr) (f : Thread → Thread) (s : Threads)
      → ((v : Thread) → ((f v).status ≡ v.status) × ((f v).main ≡ v.main))
      → StandsReady main s
      → StandsReady main (update t f s)
  update-StandsReady main f s same (quiet, ready, routine) = (
    elim (Bool-cases (t == caller)) [
      | inl e ↦ rw e ((same (s.thread t)).0 ∙ ready)
      | inr other ↦ rw other quiet
    ],
    rw (==-refl t) ((same (s.thread t)).0 ∙ ready),
    rw (==-refl t) ((same (s.thread t)).1 ∙ routine),
  )

  create_start-Creates :
      (o : Option Ptr) (a : Answers) (main stack : Ptr) (s : Threads)
      → a.start_struct ≡ o
      → is_some a.mmap_stack ≡ true
      → is_some a.pipe_ends ≡ true
      → StandsReady main s
      → Result-Creates a main s (create_start manager main_thread o a.clone_pid stack caller t s)
  unfolding create_start all_succeed
  create_start-Creates none a main stack s e mapped piped h =
      gives_up a main s _ (rw (mapped, piped, e) refl) refl
  create_start-Creates (some ss) a main stack s e mapped piped h =
      create_clone-Creates a main stack ss s (rw (mapped, piped, e) refl) h.0 h.1 h.2

  create_pipe-Creates :
      (o : Option (ℤ × ℤ)) (a : Answers) (main stack : Ptr) (s : Threads)
      → a.pipe_ends ≡ o
      → is_some a.mmap_stack ≡ true
      → StandsReady main s
      → Result-Creates a main s (create_pipe manager main_thread o a stack caller t s)
  unfolding create_pipe all_succeed
  create_pipe-Creates none a main stack s e mapped h =
      gives_up a main s _ (rw (mapped, e) refl) refl
  create_pipe-Creates (some (r, w)) a main stack s e mapped h =
      create_start-Creates a.start_struct a main stack _ refl mapped (rw e refl) (
        update-StandsReady main (λ v. record v { pipe_read = r; pipe_write = w }) s
          (λ v. (refl, refl)) h)

  create_stack-Creates :
      (o : Option Ptr) (a : Answers) (main : Ptr) (s : Threads)
      → a.mmap_stack ≡ o
      → StandsReady main s
      → Result-Creates a main s (create_stack manager main_thread o a caller t s)
  unfolding create_stack all_succeed
  create_stack-Creates none a main s e h = gives_up a main s _ (rw e refl) refl
  create_stack-Creates (some k) a main s e h =
      create_pipe-Creates a.pipe_ends a main k _ refl (rw e refl)
        (update-StandsReady main (λ v. record v { stack = k }) s (λ v. (refl, refl)) h)

-- Whatever mmap, pipe, malloc and clone answer, the making of a thread other than the manager comes
-- to an end. If none of them fails, the thread is first in the list, with its pid and routine, and
-- the caller's status is 0; if one fails, the list is as it was and the status is -1.
pub do_create-Creates :
    (manager main_thread caller t : Ptr) (a : Answers) (main : Ptr) (s : Threads)
    → (t == manager) ≡ false
    → (s' : Threads) × (do_create manager main_thread a caller t main s ≡ done s')
      × Creates caller t main a s s'
unfolding do_create
do_create-Creates manager main_thread caller t a main s apart =
    create_stack-Creates manager main_thread caller t apart a.mmap_stack a main _ refl
      (start-StandsReady manager main_thread caller t apart main s)

pub handle-msg_create :
    (manager main_thread caller t : Ptr) (a : Answers) (main : Ptr) (s s' : Threads)
    → do_create manager main_thread a caller t main s ≡ done s'
    → handle manager main_thread a (msg_create caller main t) s ≡ done (sthread_wake caller s')
unfolding handle
handle-msg_create manager main_thread caller t a main s s' e =
    ap (λ r. then_do r (λ x. done (sthread_wake caller x))) e
