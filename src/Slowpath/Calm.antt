-- ===== src/Slowpath/Calm.antt =====
-- What compaction, reclaim and the killer leave of the state of `current`.
use osandroid_kernel.Prelude.{
  ℕ, ◌≤◌, ◌≡◌, ◌⊎◌, inl, refl, ap, ◌∙◌, Bool, true, false, not, ◌&&◌, ◌||◌, Option, none, some, leb,
  ◌==◌, if◌then◌else◌, if_elim, arith,
}
use osandroid_kernel.Oom.Zones.{try_set_zonelist_oom}
use osandroid_kernel.Slowpath.{
  Task, AllocFlags, Memory, Got, AllocRequest, Services, Compacted, Freed, Next, returns,
  rebalances, restarts, tries_again, set_memalloc, costly_order, should_alloc_retry, may_oom,
  under_locks, spares, direct_compact, after_compaction, direct_reclaim, drain_and_retry, page_or,
  very_high, clear_oom,
}

-- PF_MEMALLOC and PF_DUMPCORE of `current` are as they were. TIF_MEMDIE need not be.
abbrev pub Keeps : Task → Task → Type 0
Keeps t s = (t.pf_memalloc ≡ s.pf_memalloc) × (t.pf_dumpcore ≡ s.pf_dumpcore)

-- The services leave these two flags of `current` as they are, while the killer may choose it at any
-- time; storage is not suspended and the killer not disabled.
pub record IsOrderly (v : Services) : Type 0 where
  pub get_page-task :
      (flags : AllocFlags) (mem : Memory) → Keeps (v.get_page flags mem).memory.task mem.task
  pub compact-task :
      (sync : Bool) (mem : Memory) → Keeps (v.try_to_compact_pages sync mem).1.task mem.task
  pub failed-task :
      (sync : Bool) (mem : Memory) → Keeps (v.compaction_failed sync mem).task mem.task
  pub drain-task : (mem : Memory) → Keeps (v.drain_pages mem).task mem.task
  pub drain_all-task : (mem : Memory) → Keeps (v.drain_all_pages mem).task mem.task
  pub free-task : (mem : Memory) → Keeps (v.try_to_free_pages mem).1.task mem.task
  pub kill-task : (mem : Memory) → Keeps (v.out_of_memory mem).task mem.task
  pub timeout-task : (mem : Memory) → Keeps (v.schedule_timeout mem).task mem.task
  pub wait-task : (mem : Memory) → Keeps (v.wait_iff_congested mem).task mem.task
  pub wake-task : (mem : Memory) → Keeps (v.wake_all_kswapd mem).task mem.task
  pub enabled : v.disabled ≡ false
  pub running : v.suspended ≡ false

-- A request of a low order that may wait and is not told not to retry.
pub record IsPatient (r : AllocRequest) : Type 0 where
  pub waits : r.gfp.wait ≡ true
  pub no_noretry : r.gfp.noretry ≡ false
  pub no_no_kswapd : r.gfp.no_kswapd ≡ false
  pub small : r.order ≤ 3
  pub not_low : r.normal ≡ true

-- `current` is not freeing memory or dumping core.
abbrev pub IsCalm : Task → Type 0
IsCalm t = (t.pf_memalloc ≡ false) × (t.pf_dumpcore ≡ false)

abbrev pub IsPage : Option (ℕ × ℕ) → Type 0
IsPage none = ⊥
IsPage (some page) = Unit

-- A page, or the mark of a task that the killer has chosen.
abbrev pub IsExcused : Got → Type 0
IsExcused g = IsPage g.page ⊎ (g.memory.task.tif_memdie ≡ true)

abbrev pub GoesWell : Next → Type 0
GoesWell (returns g) = IsExcused g
GoesWell (rebalances l) = IsCalm l.memory.task
GoesWell (restarts l) = IsCalm l.memory.task
GoesWell (tries_again l) = IsCalm l.memory.task

pub calm : (s t : Task) → Keeps t s → IsCalm s → IsCalm t
calm s t e h = (e.0 ∙ h.0, e.1 ∙ h.1)

-- Outside of reclaim and compaction the flag is clear again.
cleared :
    (mem mem' : Memory)
    → Keeps mem'.task (set_memalloc true mem).task
    → IsCalm mem.task
    → IsCalm (set_memalloc false mem').task
cleared mem mem' e (here, dump) = (refl, e.1 ∙ dump)

-- A branch that is not taken.
pub skip : (P : Next → Type 0) (b : Bool) (x y : Next) → b ≡ false → P y → P (if b then x else y)
skip P true x y e h = absurd (cc e)
skip P false x y e h = h

pub and_false : (a b : Bool) → b ≡ false → (a && b) ≡ false
and_false true b e = e
and_false false b e = refl

pub false_and : (a b : Bool) → a ≡ false → (a && b) ≡ false
false_and a b e = ap (λ c. c && b) e

module _ (v : Services) (r : AllocRequest) (o : IsOrderly v) (p : IsPatient r) where
  pub page_or-GoesWell :
      (page : Option (ℕ × ℕ)) (mem : Memory) (otherwise : Memory → Next)
      → GoesWell (otherwise mem)
      → GoesWell (page_or v r page mem otherwise)
  page_or-GoesWell none mem otherwise h = h
  page_or-GoesWell (some page) mem otherwise h = inl tt

  pub get_page-calm :
      (flags : AllocFlags) (mem : Memory)
      → IsCalm mem.task
      → IsCalm (v.get_page flags mem).memory.task
  get_page-calm flags mem h =
      calm mem.task (v.get_page flags mem).memory.task (o.get_page-task flags mem) h

  after_compaction-calm :
      (sync deferred : Bool) (g : Got)
      → IsCalm g.memory.task
      → IsCalm (after_compaction v r sync deferred g).memory.task
  after_compaction-calm sync deferred g h = split g.page
    where
      found : ℕ × ℕ → Compacted
      found page = record { page = some page; deferred = deferred; memory = g.memory }

      missed : Compacted
      missed = record {
        page = none;
        deferred = deferred;
        memory = v.compaction_failed sync g.memory;
      }

      split :
          (a : Option (ℕ × ℕ))
          → (let x : Compacted = elim a [ some page ↦ found page | none ↦ missed ] in
              IsCalm x.memory.task)
      split (some page) = h
      split none = calm g.memory.task missed.memory.task (o.failed-task sync g.memory) h

  drain_and_retry-calm :
      (flags : AllocFlags) (g : Got)
      → IsCalm g.memory.task
      → IsCalm (drain_and_retry v r flags g).memory.task
  drain_and_retry-calm flags g h = split g.page
    where
      again : Got
      again = v.get_page flags (v.drain_all_pages g.memory)

      split :
          (a : Option (ℕ × ℕ))
          → (let x : Got = elim a [ some page ↦ g | none ↦ again ] in IsCalm x.memory.task)
      split (some page) = h
      split none =
          get_page-calm flags (v.drain_all_pages g.memory)
            (calm g.memory.task (v.drain_all_pages g.memory).task (o.drain_all-task g.memory) h)

  pub compact-calm :
      (flags : AllocFlags) (sync deferred : Bool) (mem : Memory)
      → IsCalm mem.task
      → IsCalm (direct_compact v r flags sync deferred mem).memory.task
  unfolding direct_compact
  compact-calm flags sync deferred mem h =
      let c = v.try_to_compact_pages sync (set_memalloc true mem) in
      let compacted = set_memalloc false c.1 in
      let after = cleared mem c.1 (o.compact-task sync (set_memalloc true mem)) h in
      let drained = v.drain_pages compacted in
      let P : Compacted → Type 0 = λ x. IsCalm x.memory.task in
      if_elim P (not v.compaction || r.order == 0)
        (record { page = none; deferred = deferred; memory = mem })
        (if v.compaction_deferred mem
          then record { page = none; deferred = true; memory = mem }
          else if c.0
          then after_compaction v r sync deferred (v.get_page flags drained)
          else record { page = none; deferred = deferred; memory = compacted })
        h
        (if_elim P (v.compaction_deferred mem)
          (record { page = none; deferred = true; memory = mem })
          (if c.0
            then after_compaction v r sync deferred (v.get_page flags drained)
            else record { page = none; deferred = deferred; memory = compacted })
          h
          (if_elim P c.0 (after_compaction v r sync deferred (v.get_page flags drained))
            (record { page = none; deferred = deferred; memory = compacted })
            (after_compaction-calm sync deferred (v.get_page flags drained) (
              get_page-calm flags drained
                (calm compacted.task drained.task (o.drain-task compacted) after)))
            after))

  pub reclaim-calm :
      (flags : AllocFlags) (mem : Memory)
      → IsCalm mem.task
      → IsCalm (direct_reclaim v r flags mem).memory.task
  unfolding direct_reclaim
  reclaim-calm flags mem h =
      let f = v.try_to_free_pages (set_memalloc true mem) in
      let freed = set_memalloc false f.1 in
      let after = cleared mem f.1 (o.free-task (set_memalloc true mem)) h in
      let g = drain_and_retry v r flags (v.get_page flags freed) in
      if_elim (λ (x : Freed). IsCalm x.memory.task) (f.0 == 0)
        (record { page = none; progress = 0; memory = freed })
        (record { page = g.page; progress = f.0; memory = g.memory }) after
        (drain_and_retry-calm flags (v.get_page flags freed) (get_page-calm flags freed after))

  pub oom-calm : (mem : Memory) → IsCalm mem.task → IsCalm (may_oom v r mem).memory.task
  unfolding may_oom
  oom-calm mem h =
      let taken = try_set_zonelist_oom r.zonelist mem.locks in
      let locked : Memory = record mem { locks = taken.1 } in
      let g = v.get_page (very_high v r) locked in
      if_elim (λ (x : Got). IsCalm x.memory.task) taken.0 (under_locks v r g)
        (record { page = none; memory = v.schedule_timeout locked })
        (split g (get_page-calm (very_high v r) locked h) g.page)
        (calm mem.task (v.schedule_timeout locked).task (o.timeout-task locked) h)
    where
      split :
          (g : Got)
          → IsCalm g.memory.task
          → (a : Option (ℕ × ℕ))
          → (let x : Got = elim a [
            | some page ↦ record { page = some page; memory = clear_oom v r g.memory }
            | none ↦ record {
              page = none;
              memory = clear_oom v r (if spares v r then g.memory else v.out_of_memory g.memory);
            }
          ] in
              IsCalm x.memory.task)
      split g here (some page) = here
      split g here none =
          if_elim (λ (x : Memory). IsCalm x.task) (spares v r) g.memory (v.out_of_memory g.memory)
            here (calm g.memory.task (v.out_of_memory g.memory).task (o.kill-task g.memory) here)

  pub always_retries :
      (progress reclaimed : ℕ)
      → should_alloc_retry r.gfp r.order v.suspended progress reclaimed ≡ true
  unfolding should_alloc_retry
  always_retries progress reclaimed =
      let low : leb r.order costly_order ≡ true = ground (arith, p.small) in
      rw (p.no_noretry, o.running, low) (split r.gfp.nofail (progress == 0))
    where
      split : (a b : Bool) → (if a then true else if b && false then false else true) ≡ true
      split true b = refl
      split false true = refl
      split false false = refl
