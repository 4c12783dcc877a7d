-- ===== src/Oom/Badness.antt =====
-- Which scores `oom_badness` gives.
use osandroid_kernel.Prelude.{
  ℕ, zero, suc, ◌/◌, ◌≤◌, ◌≡◌, refl, inl, inr, Bool, true, false, ◌&&◌, not, Option, none, some, [],
  ◌∷◌, arith, ◌==◌, if◌then◌else◌, is_some, Option-cases, ltb,
}
use osandroid_kernel.Prelude.Int.{ℤ, negsuc, ◌+ℤ◌, ◌-ℤ◌, eqb_ℤ}
use osandroid_kernel.Oom.{
  Scope, Ptr, Mm, Task, Tasks, thread_round, first_with_mm, find_lock_task_mm, oom_unkillable_task,
  oom_score_adj_min, mm_points, adjusted, score, thread_score, oom_badness,
}

score_bounds :
    (p : Task) (m : Mm) (limited : Bool) (totalpages : ℕ)
    → (1 ≤ score p m limited totalpages) × (score p m limited totalpages ≤ 1000)
unfolding score adjusted
score_bounds p m limited totalpages = ground arith

first_with_mm-some : (ts : Tasks) (t : Task) → first_with_mm ts ≡ some t → is_some t.mm ≡ true
unfolding first_with_mm
first_with_mm-some [] u h = absurd (cc)
first_with_mm-some (t ∷ ts) u h = ground (arith, first_with_mm-some ts u)

abbrev is_exempt : Option Task → Bool
is_exempt none = true
is_exempt (some t) = eqb_ℤ t.oom_score_adj oom_score_adj_min

-- The task is not unkillable, and the first thread of its group that has memory is there and is not
-- exempt by its score adjustment.
pub may_be_killed : Tasks → Task → Scope → Bool
may_be_killed all p scope =
    not (oom_unkillable_task all p scope) && not (is_exempt (find_lock_task_mm all p))

thread_score_lem :
    (mem_max : Ptr → ℤ) (totalpages : ℕ) (o : Option Task)
    → ((t : Task) → o ≡ some t → is_some t.mm ≡ true)
    → (ltb 0 (thread_score mem_max totalpages o) ≡ not (is_exempt o))
      × (thread_score mem_max totalpages o ≤ 1000)
unfolding thread_score
thread_score_lem mem_max totalpages none h = (refl, omega arith)
thread_score_lem mem_max totalpages (some t) h = elim (Option-cases t.mm) [
  | inl e ↦ absurd (ground (arith, h t refl))
  | inr (m, e) ↦
      let b : _ = score_bounds t m (not (eqb_ℤ (mem_max t.user) (negsuc 0))) totalpages in
      (ground (arith, b), ground (arith, b))
]

-- A task scores from 1 to 1000 if it may be killed, and 0 if not.
pub oom_badness_range :
    (mem_max : Ptr → ℤ) (all : Tasks) (p : Task) (scope : Scope) (totalpages : ℕ)
    → (ltb 0 (oom_badness mem_max all p scope totalpages) ≡ may_be_killed all p scope)
      × (oom_badness mem_max all p scope totalpages ≤ 1000)
unfolding oom_badness may_be_killed
oom_badness_range mem_max all p scope totalpages = ground (
  arith,
  thread_score_lem mem_max totalpages (find_lock_task_mm all p)
      (λ t e. first_with_mm-some (thread_round p all) t e),
)

div_mono : (a b n : ℕ) → a ≤ b → a / n ≤ b / n
div_mono a b zero h = omega arith
div_mono a b (suc n) h = grind arith

adjusted_mono :
    (p : Task) (limited : Bool) (a b : ℕ) → a ≤ b → adjusted p limited a ≤ adjusted p limited b
unfolding adjusted ◌-ℤ◌ ◌+ℤ◌
adjusted_mono p limited a b h = ground arith

-- With the same rights, score adjustment and kind of limit, more memory never scores less.
pub score_mono :
    (p : Task) (m m' : Mm) (limited : Bool) (totalpages : ℕ)
    → m.rss ≤ m'.rss
    → m.nr_ptes ≤ m'.nr_ptes
    → m.swapents ≤ m'.swapents
    → score p m limited totalpages ≤ score p m' limited totalpages
unfolding score
score_mono p m m' limited totalpages h e f =
    adjusted_mono p limited _ _ (mm_points_mono limited (if totalpages == 0 then 1 else totalpages))
  where
    mm_points_mono : (l : Bool) (n : ℕ) → mm_points l n m ≤ mm_points l n m'
    mm_points_mono true n = h
    mm_points_mono false n = div_mono _ _ n (omega arith)
