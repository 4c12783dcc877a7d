-- ===== src/Buddy/Fallback/Rmqueue.antt =====
-- The answers of `__rmqueue_fallback` and `__rmqueue`: the block they take, and that they find one
-- whenever a list they look at has one.
use osandroid_kernel.Prelude.{
  ℕ, zero, suc, ◌+◌, ◌-◌, ◌≤◌, ◌≡◌, refl, none, some, List, [], ◌∷◌, if◌then◌else◌, if_elim, arith,
}
use mathlib.Core.Path.{subst}
use osandroid_kernel.Buddy.{Machine, Zone, Migratetype, reserve, same_type, IsValid}
use osandroid_kernel.Buddy.Alloc.{Answer, first_or, rmqueue_smallest}
use osandroid_kernel.Buddy.Alloc.Effect.{
  Takes, TakesAnswer, first-is_head, rmqueue_smallest-TakesAnswer,
}
use osandroid_kernel.Buddy.Fallback.{
  fallbacks, take_fallback, fallback_types, fallback_from, rmqueue_fallback, or_else, rmqueue,
}
use osandroid_kernel.Buddy.Fallback.Effect.{take_fallback-Takes}

module _ (m : Machine) (z : Zone) (v : IsValid m z) (order : ℕ) where
  pub or_else-TakesAnswer :
      (a b : Answer)
      → TakesAnswer m z order a
      → TakesAnswer m z order b
      → TakesAnswer m z order (or_else a b)
  or_else-TakesAnswer none b ha hb = hb
  or_else-TakesAnswer (some found) b ha hb = ha

  first-TakesAnswer :
      (current_order : ℕ) (start type : Migratetype) (pages : List ℕ) (rest : Answer)
      → order ≤ current_order
      → z.free_list current_order type ≡ pages
      → TakesAnswer m z order rest
      → TakesAnswer m z order (
          first_or pages
            (λ page. some (page, take_fallback m order current_order start type page z))
            rest)
  first-TakesAnswer current_order start type [] rest le e h = h
  first-TakesAnswer current_order start type (page ∷ pages) rest le e h =
      take_fallback-Takes m order current_order page start type z le v
        (first-is_head m z v current_order page type pages e)

  fallback_types-TakesAnswer :
      (current_order : ℕ) (start : Migratetype) (types : List Migratetype) (other : Answer)
      → order ≤ current_order
      → TakesAnswer m z order other
      → TakesAnswer m z order (fallback_types m order current_order start types z other)
  unfolding fallback_types
  fallback_types-TakesAnswer current_order start [] other le h = h
  fallback_types-TakesAnswer current_order start (type ∷ types) other le h =
      let rest = fallback_types m order current_order start types z other in
      let go =
        first-TakesAnswer current_order start type (z.free_list current_order type) rest le refl
          (fallback_types-TakesAnswer current_order start types other le h) in
      if_elim (TakesAnswer m z order) (same_type type reserve) other
        (first_or (z.free_list current_order type)
          (λ page. some (page, take_fallback m order current_order start type page z)) rest)
        h go

  fallback_from-TakesAnswer :
      (rounds : ℕ) (start : Migratetype)
      → TakesAnswer m z order (fallback_from rounds m order start z)
  unfolding fallback_from
  fallback_from-TakesAnswer zero start = tt
  fallback_from-TakesAnswer (suc rounds) start =
      fallback_types-TakesAnswer (order + rounds) start (fallbacks m start)
        (fallback_from rounds m order start z) (omega arith)
        (fallback_from-TakesAnswer rounds start)

  pub rmqueue-TakesAnswer : (type : Migratetype) → TakesAnswer m z order (rmqueue m order type z)
  unfolding rmqueue rmqueue_fallback
  rmqueue-TakesAnswer type =
      or_else-TakesAnswer (rmqueue_smallest m order type z)
        (if same_type type reserve
          then none
          else or_else (rmqueue_fallback m order type z) (rmqueue_smallest m order reserve z))
        (rmqueue_smallest-TakesAnswer m z v order type)
        (if_elim (TakesAnswer m z order) (same_type type reserve) none
          (or_else (rmqueue_fallback m order type z) (rmqueue_smallest m order reserve z)) tt
          (or_else-TakesAnswer (rmqueue_fallback m order type z)
            (rmqueue_smallest m order reserve z)
            (fallback_from-TakesAnswer (m.max_order - order) type)
            (rmqueue_smallest-TakesAnswer m z v order reserve)))

-- When `__rmqueue` answers a page of a valid zone, the 2 ^ order pages there are an aligned block, all
-- were free and are free no more, no other page is taken or becomes free, and the zone stays valid,
-- whatever was split and whatever pages changed their type.
pub rmqueue-Takes :
    (m : Machine) (z z' : Zone) (page order : ℕ) (type : Migratetype)
    → IsValid m z
    → rmqueue m order type z ≡ some (page, z')
    → Takes m z page order z'
rmqueue-Takes m z z' page order type v e =
    subst (TakesAnswer m z order) e (rmqueue-TakesAnswer m z v order type)
