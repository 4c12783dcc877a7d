-- ===== src/Sthread/Calls/Outcome.antt =====
-- What the callers of hw3/sthread.c get.
use osandroid_kernel.Prelude.{
  ◌≡◌, refl, sym, ap, ◌∙◌, ◌⊎◌, inl, inr, false, none, some, List, ◌∷◌, ◌==◌,
}
use mathlib.Core.Path.{subst}
use osandroid_kernel.Prelude.Int.{ℤ, pos, negsuc}
use osandroid_kernel.Sthread.{Ptr, Threads, Call, free, done, threadlist_findbypid, sthread_wake}
use osandroid_kernel.Sthread.Manager.{Answers}
use osandroid_kernel.Sthread.Manager.Create.{Creates, do_create-Creates, handle-msg_create}
use osandroid_kernel.Sthread.Calls.{
  Creation, created, stuck, create_returns, create_new, sthread_create,
}

-- The new thread is handed out with 0, first in the list; or -1 is returned, its memory is freed as
-- the last call, and the list is as it was.
abbrev pub Hands : (t : Ptr) → Threads → Creation → Type 0
Hands t s (created n o s') =
    ((n ≡ pos 0) × (o ≡ some t) × (s'.list ≡ t ∷ s.list))
    ⊎ ((n ≡ negsuc 0)
        × (o ≡ none)
        × (s'.list ≡ s.list)
        × ((log : List Call) × (s'.log ≡ free t ∷ log)))
Hands t s stuck = ⊥

module _ (manager main_thread : Ptr) where
  returns-Hands :
      (self t main : Ptr) (a : Answers) (s s' : Threads)
      → Creates self t main a s s'
      → Hands t s (create_returns manager main_thread self t (done (sthread_wake self s')))
  unfolding create_returns sthread_wake
  returns-Hands self t main a s s' (inl (_, l, _, _, quiet)) = rw quiet (inl (refl, refl, l))
  returns-Hands self t main a s s' (inr (_, l, failed)) = rw failed (inr (refl, refl, l, (_, refl)))

  -- A call from a thread in the list, with the manager's answer: whatever the system calls answer,
  -- it returns, and either hands out the new thread or frees it.
  pub sthread_create-Hands :
      (getpid : ℤ) (self t main : Ptr) (a : Answers) (s : Threads)
      → threadlist_findbypid getpid s ≡ some self
      → (t == manager) ≡ false
      → Hands t s (sthread_create manager main_thread getpid (some t) a main s)
  unfolding sthread_create create_new
  sthread_create-Hands getpid self t main a s known apart =
      let (s', e, c) = do_create-Creates manager main_thread self t a main s apart in
      subst (Hands t s)
        (sym (
          ap (λ o. create_new manager main_thread o (some t) a main s) known
          ∙ ap (create_returns manager main_thread self t)
              (handle-msg_create manager main_thread self t a main s s' e)))
        (returns-Hands self t main a s s' c)
