-- ===== src/Sthread/Manager/Exit.antt =====
-- The two messages that end threads.
use osandroid_kernel.Prelude.{
  ℕ, ◌≡◌, refl, sym, ap, ◌∙◌, inl, inr, true, false, List, [], ◌∷◌, ◌++◌, ◌==◌, if◌then◌else◌,
  arith, Bool-cases, ==-refl,
}
use osandroid_kernel.Prelude.Lists.{All, All-map}
use mathlib.Core.Path.{subst}
use osandroid_kernel.Sthread.{
  Ptr, Thread, Threads, Call, munmap, close, free, wake, Result, done, aborted, then_do, update,
  thread_dealloc, sthread_wake,
}
use osandroid_kernel.Sthread.Chain.{releases, Passed, thread_dealloc-first, thread_dealloc-absent}
use osandroid_kernel.Sthread.Manager.{
  Answers, msg_thread_exit, msg_all_exit, is_other, sigusr2, kill_others, dealloc_others, handle,
}

-- The calls that release the threads `ws` in turn, last first, after those of `log`.
abbrev pub released : (Ptr → Thread) → (ws : List Ptr) → (log : List Call) → List Call
released thread [] log = log
released thread (w ∷ ws) log =
    let v = thread w in
    released thread ws
      (free w ∷ close v.pipe_write ∷ close v.pipe_read ∷ munmap v.stack v.stacksize ∷ log)

module _ (manager main_thread : Ptr) where
  -- A thread that ends, with no thread before it of its pid, is woken and taken out of the list, and
  -- what it had is released once.
  pub handle-thread_exit :
      (a : Answers) (s : Threads) (before after : List Ptr) (t : Ptr)
      → s.list ≡ before ++ t ∷ after
      → All (Passed manager s.thread (s.thread t).pid) before
      → (t == manager) ≡ false
      → handle manager main_thread a (msg_thread_exit t) s
        ≡ done (record s {
          list = before ++ after;
          log = releases (s.thread t) t ++ wake (s.thread t).pipe_write ∷ s.log;
        })
  unfolding handle sthread_wake
  handle-thread_exit a s before after t e h apart =
      thread_dealloc-first manager (sthread_wake t s) before after t e h apart

  kill_others-same :
      (t : Ptr) (sig : ℕ) (ps : List Ptr) (s : Threads)
      → ((kill_others manager main_thread t sig ps s).list ≡ s.list)
        × ((kill_others manager main_thread t sig ps s).thread ≡ s.thread)
  unfolding kill_others
  kill_others-same t sig [] s = (refl, refl)
  kill_others-same t sig (p ∷ ps) s = elim (Bool-cases (is_other manager t p)) [
    | inl e ↦ rw (e, kill_others) (kill_others-same t sig ps _)
    | inr e ↦ rw (e, kill_others) (kill_others-same t sig ps _)
  ]

  dealloc_others-other :
      (t w : Ptr) (ps : List Ptr) (s s' : Threads)
      → is_other manager t w ≡ true
      → thread_dealloc manager w s ≡ done s'
      → dealloc_others manager main_thread t (w ∷ ps) s ≡ dealloc_others manager main_thread t ps s'
  unfolding dealloc_others
  dealloc_others-other t w ps s s' e d =
      ap
        (λ b.
          then_do (if b then thread_dealloc manager w s else done s)
            (λ x. dealloc_others manager main_thread t ps x))
        e
      ∙ ap (λ r. then_do r (λ x. dealloc_others manager main_thread t ps x)) d

  dealloc_others-spared :
      (t w : Ptr) (ps : List Ptr) (s : Threads)
      → is_other manager t w ≡ false
      → dealloc_others manager main_thread t (w ∷ ps) s ≡ dealloc_others manager main_thread t ps s
  unfolding dealloc_others
  dealloc_others-spared t w ps s e =
      ap
        (λ b.
          then_do (if b then thread_dealloc manager w s else done s)
            (λ x. dealloc_others manager main_thread t ps x))
        e

  -- The state after the loop over `ws`, which stand behind `kept` in the list.
  dealloc_others-list :
      (t : Ptr) (kept ws rest : List Ptr) (s : Threads)
      → s.list ≡ kept ++ (ws ++ rest)
      → All
          (λ w. (is_other manager t w ≡ true) × All (Passed manager s.thread (s.thread w).pid) kept)
          ws
      → (s' : Threads) × ((next : List Ptr)
          → dealloc_others manager main_thread t (ws ++ next) s
            ≡ dealloc_others manager main_thread t next s')
        × (s'.list ≡ kept ++ rest)
        × (s'.thread ≡ s.thread)
        × (s'.log ≡ released s.thread ws s.log)
  unfolding dealloc_others
  dealloc_others-list t kept [] rest s e h = (s, λ next. refl, e, refl, refl)
  dealloc_others-list t kept (w ∷ ws) rest s e h =
      let one : _ =
        thread_dealloc-first manager s kept (ws ++ rest) w e h.0.1 (ground (arith, h.0.0)) in
      let (s', go, l, th, calls) =
        dealloc_others-list t kept ws rest
          (record s { list = kept ++ (ws ++ rest); log = releases (s.thread w) w ++ s.log }) refl
          h.1 in
      (s', λ next. dealloc_others-other t w (ws ++ next) s _ h.0.0 one ∙ go next, l, th, calls)

  dealloc_others-aborts :
      (t w : Ptr) (ps : List Ptr) (s : Threads)
      → is_other manager t w ≡ true
      → thread_dealloc manager w s ≡ aborted
      → dealloc_others manager main_thread t (w ∷ ps) s ≡ aborted
  unfolding dealloc_others
  dealloc_others-aborts t w ps s e d =
      ap
        (λ b.
          then_do (if b then thread_dealloc manager w s else done s)
            (λ x. dealloc_others manager main_thread t ps x))
        e
      ∙ ap (λ r. then_do r (λ x. dealloc_others manager main_thread t ps x)) d

  -- The loop from the state after the signals.
  abbrev signalled : Ptr → Threads → Threads
  signalled t s = kill_others manager main_thread t sigusr2 s.list (sthread_wake t s)

  abbrev stops : Result → Result
  stops r = then_do r (λ s'. done (update manager (λ v. record v { running = false }) s'))

  -- A worker that the search for the pid of `w` passes over.
  abbrev pub Distinct : (Ptr → Thread) → (t w : Ptr) → Type 0
  Distinct thread t w = (is_other manager t w ≡ true) × Passed manager thread (thread w).pid t

  -- When a worker ends the process instead, the loop comes to the main thread, which stands behind
  -- the manager in the list, and the manager aborts.
  pub handle-worker_exits :
      (a : Answers) (s : Threads) (before after : List Ptr) (t : Ptr)
      → s.list ≡ before ++ (t ∷ (after ++ (manager ∷ main_thread ∷ [])))
      → All (λ w. is_other manager t w ≡ true) before
      → All (Distinct s.thread t) after
      → Distinct s.thread t main_thread
      → handle manager main_thread a (msg_all_exit t) s ≡ aborted
  unfolding handle dealloc_others sthread_wake
  handle-worker_exits a s before after t e others rest last =
      let k : Threads = signalled t s in
      let tail : List Ptr = manager ∷ main_thread ∷ [] in
      let (lk, tk) = kill_others-same t sigusr2 s.list (sthread_wake t s) in
      let (s', go, l, th, calls) =
        dealloc_others-list t [] before (t ∷ (after ++ tail)) k (lk ∙ e)
          (All-map (λ w o. (o, tt)) before others) in
      let same : s'.thread ≡ s.thread = th ∙ tk in
      let (s'', go', l', th', calls') = dealloc_others-list t (t ∷ []) after tail s' l (
        All-map (λ w d. (d.0, (subst (λ f. Passed manager f (f w).pid t) (sym same) d.1, tt))) after
          rest) in
      let gone : thread_dealloc manager main_thread s'' ≡ aborted =
        thread_dealloc-absent manager s'' (t ∷ []) (main_thread ∷ []) main_thread l'
          (subst (λ f. Passed manager f (f main_thread).pid t) (sym (th' ∙ same)) last.1, tt) in
      ap stops (
        ap (λ ps. dealloc_others manager main_thread t ps k) e
        ∙ go (t ∷ (after ++ tail))
        ∙ dealloc_others-spared t t (after ++ tail) s' (ground arith)
        ∙ go' tail
        ∙ dealloc_others-spared t manager (main_thread ∷ []) s'' (rw (==-refl manager))
        ∙ dealloc_others-aborts t main_thread [] s'' last.0 gone)
