-- ===== src/Sthread/Chain.antt =====
-- Taking threads out of the list.
use osandroid_kernel.Prelude.{◌≡◌, ap, ◌∙◌, true, false, List, [], ◌∷◌, ◌++◌, ◌==◌, arith}
use osandroid_kernel.Prelude.Lists.{All}
use osandroid_kernel.Prelude.Int.{ℤ, eqb_ℤ}
use osandroid_kernel.Sthread.{
  Ptr, Thread, Threads, Call, munmap, close, free, done, aborted, then_do, note, removed,
  at_manager, remove_pid, removal, threadlist_del, thread_dealloc,
}

-- `thread_dealloc` of these two fields and ends: the calls it makes.
abbrev pub releases : Thread → Ptr → List Call
releases v t = free t ∷ close v.pipe_write ∷ close v.pipe_read ∷ munmap v.stack v.stacksize ∷ []

module _ (manager : Ptr) where
  -- A thread that the search for `pid` passes over.
  abbrev pub Passed : (Ptr → Thread) → ℤ → Ptr → Type 0
  Passed thread pid a = ((a == manager) ≡ false) × (eqb_ℤ (thread a).pid pid ≡ false)

  eqb_ℤ_refl : (x : ℤ) → eqb_ℤ x x ≡ true
  eqb_ℤ_refl x = ground arith

  remove_pid-first :
      (thread : Ptr → Thread) (before after : List Ptr) (t : Ptr)
      → All (Passed thread (thread t).pid) before
      → (t == manager) ≡ false
      → remove_pid manager thread (thread t).pid (before ++ t ∷ after) ≡ removed (before ++ after)
  unfolding remove_pid
  remove_pid-first thread [] after t h apart = rw (apart, eqb_ℤ_refl (thread t).pid)
  remove_pid-first thread (b ∷ bs) after t h apart =
      rw (h.0.0, h.0.1, remove_pid-first thread bs after t h.1 apart)

  remove_pid-absent :
      (thread : Ptr → Thread) (pid : ℤ) (before after : List Ptr)
      → All (Passed thread pid) before
      → remove_pid manager thread pid (before ++ manager ∷ after) ≡ at_manager
  unfolding remove_pid
  remove_pid-absent thread pid [] after h = ground arith
  remove_pid-absent thread pid (b ∷ bs) after h =
      rw (h.0.0, h.0.1, remove_pid-absent thread pid bs after h.1)

  pub threadlist_del-head :
      (s : Threads) (after : List Ptr) (t : Ptr)
      → s.list ≡ t ∷ after
      → (t == manager) ≡ false
      → threadlist_del manager t s ≡ done (record s { list = after })
  unfolding threadlist_del removal
  threadlist_del-head s after t e apart = ap (removal manager s) (
      ap (remove_pid manager s.thread (s.thread t).pid) e
      ∙ remove_pid-first s.thread [] after t tt apart)

  pub thread_dealloc-first :
      (s : Threads) (before after : List Ptr) (t : Ptr)
      → s.list ≡ before ++ t ∷ after
      → All (Passed s.thread (s.thread t).pid) before
      → (t == manager) ≡ false
      → thread_dealloc manager t s
        ≡ done (record s { list = before ++ after; log = releases (s.thread t) t ++ s.log })
  unfolding thread_dealloc threadlist_del removal
  thread_dealloc-first s before after t e h apart =
      ap (λ r. then_do (removal manager s r) (λ s'. done (note (releases (s.thread t) t) s')))
        (ap (remove_pid manager s.thread (s.thread t).pid) e
          ∙ remove_pid-first s.thread before after t h apart)

  pub thread_dealloc-absent :
      (s : Threads) (before after : List Ptr) (t : Ptr)
      → s.list ≡ before ++ manager ∷ after
      → All (Passed s.thread (s.thread t).pid) before
      → thread_dealloc manager t s ≡ aborted
  unfolding thread_dealloc threadlist_del removal
  thread_dealloc-absent s before after t e h =
      ap (λ r. then_do (removal manager s r) (λ s'. done (note (releases (s.thread t) t) s')))
        (ap (remove_pid manager s.thread (s.thread t).pid) e
          ∙ remove_pid-absent s.thread _ before after h)
