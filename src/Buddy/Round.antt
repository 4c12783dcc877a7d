-- ===== src/Buddy/Round.antt =====
-- `__rmqueue` and `__free_one_page` together.
use osandroid_kernel.Prelude.{ℕ, ◌<◌, ◌≡◌, false, some, arith}
use osandroid_kernel.Buddy.{Machine, Zone, Migratetype, free_count, free_pages, IsValid, Room}
use osandroid_kernel.Buddy.Alloc.Effect.{Takes}
use osandroid_kernel.Buddy.Free.{free_block}
use osandroid_kernel.Buddy.Free.Effect.{free_block-Frees}
use osandroid_kernel.Buddy.Fallback.{rmqueue}
use osandroid_kernel.Buddy.Fallback.Rmqueue.{rmqueue-Takes}

-- `z'` is valid, and the same pages are free in it as in `z`.
abbrev pub Restores : Machine → Zone → Zone → Type 0
Restores m z z' =
    IsValid m z'
    × ((q : ℕ) → free_count m z' q ≡ free_count m z q)
    × (free_pages m z' ≡ free_pages m z)

module _ (m : Machine) (z z' : Zone) (page order : ℕ) where
  pub taken-Room : IsValid m z → Takes m z page order z' → Room m z' page order
  taken-Room v (v', al, same, sum) q = omega (arith, same q, v.disjoint q)

  -- A block of an order below `max_order` that `__rmqueue` has taken from a valid zone and
  -- `__free_one_page` gives back, to whatever type of list, leaves the pages free that were free
  -- before, and the zone valid.
  pub rmqueue-free_block :
      (type back : Migratetype)
      → IsValid m z
      → order < m.max_order
      → rmqueue m order type z ≡ some (page, z')
      → Restores m z (free_block m false page order back z')
  rmqueue-free_block type back v lt e =
      let taken = rmqueue-Takes m z z' page order type v e in
      let (v', al, same, sum) = taken in
      let (v'', freed, added) =
        free_block-Frees m z' page order back lt al v' (taken-Room v taken) in
      (v'', λ q. omega (arith, same q, freed q), omega (arith, sum, added))
