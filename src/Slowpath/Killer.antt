-- ===== src/Slowpath/Killer.antt =====
-- `__alloc_pages_may_oom` and the locks of the zones.
use osandroid_kernel.Prelude.{
  ℕ, ◌≤◌, ◌≡◌, ◌≢◌, ◌⊎◌, ◌||◌, not, ltb, refl, sym, ap, ◌∙◌, Bool, true, false, inl, inr, Option,
  none, some, if◌then◌else◌, if_elim, Bool-cases, arith,
}
use mathlib.Core.Path.{subst}
use osandroid_kernel.Oom.Zones.{try_set_zonelist_oom, clear_zonelist_oom, try_set-clear}
use osandroid_kernel.Slowpath.{
  AllocFlags, Memory, Got, AllocRequest, Services, very_high, clear_oom, spares, under_locks,
  may_oom,
}

-- The services leave the locks of the zones as they are.
pub record KeepsLocks (v : Services) : Type 0 where
  pub get_page-locks :
      (flags : AllocFlags) (mem : Memory) → (v.get_page flags mem).memory.locks ≡ mem.locks
  pub kill-locks : (mem : Memory) → (v.out_of_memory mem).locks ≡ mem.locks
  pub timeout-locks : (mem : Memory) → (v.schedule_timeout mem).locks ≡ mem.locks

module _ (v : Services) (r : AllocRequest) (mem : Memory) where
  abbrev locked : Memory
  locked = record mem { locks = (try_set_zonelist_oom r.zonelist mem.locks).1 }

  abbrev found : Got
  found = v.get_page (very_high v r) locked

  -- Under the locks, only clearing them changes them.
  under_locks-locks :
      KeepsLocks v
      → (under_locks v r found).memory.locks ≡ clear_zonelist_oom r.zonelist locked.locks
  under_locks-locks k = split found.page
    where
      kept : found.memory.locks ≡ locked.locks
      kept = k.get_page-locks (very_high v r) locked

      split :
          (a : Option (ℕ × ℕ))
          → (let x : Got = elim a [
            | some page ↦ record { page = some page; memory = clear_oom v r found.memory }
            | none ↦ record {
              page = none;
              memory =
                  clear_oom v r (if spares v r then found.memory else v.out_of_memory found.memory);
            }
          ] in
              x.memory.locks ≡ clear_zonelist_oom r.zonelist locked.locks)
      split (some page) = ap (clear_zonelist_oom r.zonelist) kept
      split none = ap (clear_zonelist_oom r.zonelist) (
          if_elim (λ (x : Memory). x.locks ≡ locked.locks) (spares v r) found.memory
            (v.out_of_memory found.memory) kept (k.kill-locks found.memory ∙ kept))

  -- The killer is of help: the request may not fail, or it is for no more than 2 ^ 3 pages, for no
  -- low zone, and for any node.
  abbrev pub Helps : Type 0
  Helps = (r.gfp.nofail ≡ true) ⊎ ((r.order ≤ 3) × (r.normal ≡ true) × (r.gfp.thisnode ≡ false))

  -- The memory when the locks are cleared: the killer has run if the last look at the zones has
  -- found no page and the killer is of help, and only then.
  abbrev pub Killed : Memory → Type 0
  Killed x =
      ((found.page ≢ none) × (x ≡ found.memory))
      ⊎ ((found.page ≡ none)
          × ((Helps × (x ≡ v.out_of_memory found.memory)) ⊎ ((Helps → ⊥) × (x ≡ found.memory))))

  -- The last look has been answered.
  abbrev pub Answers : Got → Type 0
  Answers g = (x : Memory) × (g ≡ record { page = found.page; memory = clear_oom v r x }) × Killed x

  -- How `__alloc_pages_may_oom` ends: after a wait, as some zone is locked, or with what the last look
  -- at the zones has found.
  abbrev pub EndsWell : Got → Type 0
  EndsWell g =
      (((try_set_zonelist_oom r.zonelist mem.locks).0 ≡ false)
        × (g ≡ record { page = none; memory = v.schedule_timeout locked }))
      ⊎ (((try_set_zonelist_oom r.zonelist mem.locks).0 ≡ true) × Answers g)

  spares-Helps : ((spares v r ≡ false) × Helps) ⊎ ((spares v r ≡ true) × (Helps → ⊥))
  spares-Helps = elim (Bool-cases r.gfp.nofail) [
    | inl must ↦ inl (rw must refl, inl must)
    | inr may ↦ elim (Bool-cases (ltb 3 r.order || (not r.normal || r.gfp.thisnode))) [
      | inl hopeless ↦ inr (rw (may, hopeless) refl, λ h. no_help may hopeless h)
      | inr hopeful ↦ inl (rw (may, hopeful) refl, inr (ground arith, ground arith, ground arith))
    ]
  ]
    where
      no_help :
          r.gfp.nofail ≡ false
          → (ltb 3 r.order || (not r.normal || r.gfp.thisnode)) ≡ true
          → Helps
          → ⊥
      no_help may hopeless (inl must) = absurd (cc)
      no_help may hopeless (inr (small, normal, any)) = absurd (ground arith)

  under_locks-Killed : Answers (under_locks v r found)
  under_locks-Killed = split found.page refl
    where
      after : Memory
      after = if spares v r then found.memory else v.out_of_memory found.memory

      answer : Option (ℕ × ℕ) → Got
      answer a = elim a [
        | some page ↦ record { page = some page; memory = clear_oom v r found.memory }
        | none ↦ record { page = none; memory = clear_oom v r after }
      ]

      looked :
          (a : Option (ℕ × ℕ)) (x : Memory)
          → found.page ≡ a
          → Path Got
              (record { page = a; memory = clear_oom v r x })
              (record { page = found.page; memory = clear_oom v r x })
      looked a x e = ap (λ o. record { page = o; memory = clear_oom v r x }) (sym e)

      split : (a : Option (ℕ × ℕ)) → found.page ≡ a → Answers (answer a)
      split (some page) e = (found.memory, looked (some page) found.memory e, inl (λ n. cc, refl))
      split none e = (
        after,
        looked none after e,
        elim spares-Helps [
          | inl (runs, helps) ↦ inr (e, inl (helps, rw runs refl))
          | inr (spared, no_help) ↦ inr (e, inr (no_help, rw spared refl))
        ],
      )

  -- When the services leave the locks of the zones alone, `__alloc_pages_may_oom` leaves all of them
  -- as they were, also when some are taken. It waits if a zone of its list is locked. Otherwise it
  -- looks once more for a page, and without one it calls the killer, but for an order above
  -- PAGE_ALLOC_COSTLY_ORDER, a low zone or `__GFP_THISNODE`, these without `__GFP_NOFAIL`.
  pub may_oom-locks :
      KeepsLocks v
      → ((y : ℕ) → (may_oom v r mem).memory.locks y ≡ mem.locks y) × EndsWell (may_oom v r mem)
  unfolding may_oom
  may_oom-locks k = (
    restored,
    elim (Bool-cases taken) [
      | inl free ↦ inr (free, subst Looked (sym free) under_locks-Killed)
      | inr busy ↦ inl (busy, ap (λ b. if b then under_locks v r found else waited) busy)
    ],
  )
    where
      taken : Bool
      taken = (try_set_zonelist_oom r.zonelist mem.locks).0

      waited : Got
      waited = record { page = none; memory = v.schedule_timeout locked }

      Looked : Bool → Type 0
      Looked b = let g = if b then under_locks v r found else waited in Answers g

      restored :
          (y : ℕ) → (if taken then under_locks v r found else waited).memory.locks y ≡ mem.locks y
      restored y = elim (try_set-clear r.zonelist mem.locks) [
        | inl (busy, same, some_locked) ↦
            subst (λ b. (if b then under_locks v r found else waited).memory.locks y ≡ mem.locks y)
              (sym busy) (ap (λ f. f y) (k.timeout-locks locked ∙ same))
        | inr (free, all, cleared) ↦
            subst (λ b. (if b then under_locks v r found else waited).memory.locks y ≡ mem.locks y)
              (sym free) (ap (λ f. f y) (under_locks-locks k) ∙ cleared y)
      ]
