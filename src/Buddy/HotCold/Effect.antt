-- ===== src/Buddy/HotCold/Effect.antt =====
-- What `free_hot_cold_page` does to the zone and to the lists of the processor.
use osandroid_kernel.Prelude.{
  ℕ, suc, ◌+◌, ◌-◌, ◌/◌, ◌^◌, ◌≤◌, ◌<◌, ◌≡◌, refl, Bool, true, false, ◌||◌, List, [], ◌∷◌, ◌++◌,
  leb, if◌then◌else◌, if_elim, arith,
}
use osandroid_kernel.Prelude.Lists.{length, length-append}
use osandroid_kernel.Prelude.Families.{put_at, sum_below-put}
use osandroid_kernel.Buddy.{
  Machine, Migratetype, movable, isolate, same_type, in_block, free_count, IsValid,
}
use osandroid_kernel.Buddy.Blocks.{marked-free_count}
use osandroid_kernel.Buddy.Free.Effect.{free_block-Frees}
use osandroid_kernel.Buddy.Fallback.{is_cma}
use osandroid_kernel.Buddy.Bulk.{set_page_private}
use osandroid_kernel.Buddy.Bulk.Mark.{free_count-set_private, set_page_private-IsValid}
use osandroid_kernel.Buddy.Bulk.Effect.{in_blocks, in_blocks-append}
use osandroid_kernel.Buddy.Pcp.{free_pcppages_bulk}
use osandroid_kernel.Buddy.Pcp.Effect.{held, total, free_pcppages_bulk-Drains}
use osandroid_kernel.Buddy.HotCold.{
  PerCpu, free_one_page, add_to_list, free_if_full, free_hot_cold_page,
}

-- The zone is valid, the count is that of the pages on the lists, and no page is free or on the lists
-- twice.
abbrev pub IsPerCpu : Machine → ℕ → PerCpu → Type 0
IsPerCpu m pcptypes s =
    IsValid m s.zone
    × (s.count ≡ total pcptypes s.lists)
    × ((q : ℕ) → free_count m s.zone q + held pcptypes s.lists q ≤ 1)

-- How often a page is free or on the lists.
abbrev pub owned : Machine → ℕ → PerCpu → ℕ → ℕ
owned m pcptypes s q = free_count m s.zone q + held pcptypes s.lists q

module _ (m : Machine) (pcptypes : ℕ) (encode : Migratetype → ℕ) (decode : ℕ → Migratetype)
    (top : 0 < m.max_order) where
  add_to_list-IsPerCpu :
      (index page : ℕ) (cold : Bool) (s : PerCpu)
      → index < pcptypes
      → IsPerCpu m pcptypes s
      → ((q : ℕ) → owned m pcptypes s q + in_block page 0 q ≤ 1)
      → IsPerCpu m pcptypes (add_to_list m pcptypes encode decode index page cold s)
        × ((q : ℕ)
            → owned m pcptypes (add_to_list m pcptypes encode decode index page cold s) q
              ≡ owned m pcptypes s q + in_block page 0 q)
  add_to_list-IsPerCpu index page cold s lt (v, sum, once) room = (
    (v, omega (arith, sum, total_more), λ q. omega (arith, room q, held_more q)),
    λ q. omega (arith, held_more q),
  )
    where
      more : List ℕ
      more = if cold then page ∷ s.lists index else s.lists index ++ page ∷ []

      more_blocks : (q : ℕ) → in_blocks 0 more q ≡ in_blocks 0 (s.lists index) q + in_block page 0 q
      more_blocks q =
          if_elim (λ ps. in_blocks 0 ps q ≡ in_blocks 0 (s.lists index) q + in_block page 0 q) cold
            (page ∷ s.lists index) (s.lists index ++ page ∷ []) (omega arith)
            (omega (arith, in_blocks-append 0 (s.lists index) (page ∷ []) q))

      more_length : length more ≡ suc (length (s.lists index))
      more_length =
          if_elim (λ ps. length ps ≡ suc (length (s.lists index))) cold (page ∷ s.lists index)
            (s.lists index ++ page ∷ []) refl
            (omega (arith, length-append (s.lists index) (page ∷ [])))

      held_more :
          (q : ℕ)
          → held pcptypes (put_at index more s.lists) q
            ≡ held pcptypes s.lists q + in_block page 0 q
      held_more q = omega (
        arith,
        sum_below-put (λ ps. in_blocks 0 ps q) pcptypes index more s.lists lt,
        more_blocks q,
      )

      total_more : total pcptypes (put_at index more s.lists) ≡ suc (total pcptypes s.lists)
      total_more = omega (arith, sum_below-put length pcptypes index more s.lists lt, more_length)

  free_if_full-IsPerCpu :
      (s : PerCpu)
      → 0 < pcptypes
      → s.batch ≤ s.high
      → IsPerCpu m pcptypes s
      → IsPerCpu m pcptypes (free_if_full m pcptypes encode decode s)
        × ((q : ℕ)
            → owned m pcptypes (free_if_full m pcptypes encode decode s) q ≡ owned m pcptypes s q)
  unfolding free_if_full
  free_if_full-IsPerCpu s pos fits (v, sum, once) = split (leb s.high s.count) refl
    where
      split :
          (b : Bool)
          → leb s.high s.count ≡ b
          → let d = free_pcppages_bulk m pcptypes decode s.batch s.lists s.zone in
            let drained : PerCpu = record s {
              zone = d.zone;
              lists = d.lists;
              count = s.count - s.batch;
            } in
            let s' = if b then drained else s in
            IsPerCpu m pcptypes s' × ((q : ℕ) → owned m pcptypes s' q ≡ owned m pcptypes s q)
      split false e = ((v, sum, once), λ q. refl)
      split true e =
          let enough : s.batch ≤ total pcptypes s.lists = ground (arith, e, fits, sum) in
          let ((v', same, fewer, free, lt), done) =
            free_pcppages_bulk-Drains m pcptypes decode s.batch s.lists s.zone top once pos v
              enough in
          (
            (v', omega (arith, fewer, done, sum, enough), λ q. omega (arith, same q, once q)),
            λ q. same q,
          )

  -- A page joins those of the zone and the processor.
  abbrev pub Joins : ℕ → PerCpu → PerCpu → Type 0
  Joins page s s' =
      IsPerCpu m pcptypes s'
      × ((q : ℕ) → owned m pcptypes s' q ≡ owned m pcptypes s q + in_block page 0 q)

  listed-Joins :
      (index page : ℕ) (cold : Bool) (s : PerCpu)
      → index < pcptypes
      → s.batch ≤ s.high
      → IsPerCpu m pcptypes s
      → ((q : ℕ) → owned m pcptypes s q + in_block page 0 q ≤ 1)
      → Joins page s (
          free_if_full m pcptypes encode decode
            (add_to_list m pcptypes encode decode index page cold s))
  listed-Joins index page cold s lt fits valid room =
      let (valid', more) = add_to_list-IsPerCpu index page cold s lt valid room in
      let (valid'', same) =
        free_if_full-IsPerCpu (add_to_list m pcptypes encode decode index page cold s)
          (omega (arith, lt)) fits valid' in
      (valid'', λ q. omega (arith, same q, more q))

  freed-Joins :
      (page : ℕ) (type : Migratetype) (s : PerCpu)
      → IsPerCpu m pcptypes s
      → ((q : ℕ) → owned m pcptypes s q + in_block page 0 q ≤ 1)
      → Joins page s (record s { zone = free_one_page m page 0 type s.zone })
  freed-Joins page type s (v, sum, once) room =
      let (v', freed, added) =
        free_block-Frees m s.zone page 0 type top (omega arith) v (λ q. omega (arith, room q)) in
      ((v', sum, λ q. omega (arith, freed q, room q)), λ q. omega (arith, freed q))

  not_free :
      (page : ℕ) (s : PerCpu)
      → IsValid m s.zone
      → owned m pcptypes s page + in_block page 0 page ≤ 1
      → s.zone.page_buddy page ≡ false
  unfolding in_block
  not_free page s v h = ground (arith, h, marked-free_count m s.zone v page)

  -- A page that is neither free nor on the lists of the processor is one or the other once, after
  -- `free_hot_cold_page` if it lets itself be prepared, and no other page changes sides; the zone
  -- stays valid and the count of the processor stays that of its lists, also when a batch goes back.
  -- The processor is in such a state at first and has a batch no greater than `high`, and movable
  -- pages have a list.
  pub free_hot_cold_page-Joins :
      (page : ℕ) (cold : Bool) (s : PerCpu)
      → encode movable < pcptypes
      → s.batch ≤ s.high
      → IsPerCpu m pcptypes s
      → ((q : ℕ) → owned m pcptypes s q + in_block page 0 q ≤ 1)
      → Joins page s (free_hot_cold_page m pcptypes encode decode true page cold s)
        × (free_hot_cold_page m pcptypes encode decode false page cold s ≡ s)
  unfolding free_hot_cold_page
  free_hot_cold_page-Joins page cold s mv fits (v, sum, once) room =
      (split (leb pcptypes (encode type)) (same_type type isolate || is_cma m type) refl, refl)
    where
      type : Migratetype
      type = s.zone.pageblock_type (page / 2 ^ m.pageblock_order)

      unmarked : s.zone.page_buddy page ≡ false
      unmarked = not_free page s v (room page)

      marked : PerCpu
      marked = record s { zone = set_page_private page (encode type) s.zone }

      same_free : (q : ℕ) → free_count m marked.zone q ≡ free_count m s.zone q
      same_free q = free_count-set_private m s.zone v page (encode type) unmarked q

      is_marked : IsPerCpu m pcptypes marked
      is_marked = (
        set_page_private-IsValid m s.zone v page (encode type) unmarked,
        sum,
        λ q. omega (arith, same_free q, once q),
      )

      marked_room : (q : ℕ) → owned m pcptypes marked q + in_block page 0 q ≤ 1
      marked_room q = omega (arith, same_free q, room q)

      back : (s' : PerCpu) → Joins page marked s' → Joins page s s'
      back s' (valid, more) = (valid, λ q. omega (arith, same_free q, more q))

      split :
          (other alone : Bool)
          → leb pcptypes (encode type) ≡ other
          → Joins page s (
              if other
              then (if alone
                  then record s { zone = free_one_page m page 0 type marked.zone }
                  else free_if_full m pcptypes encode decode
                      (add_to_list m pcptypes encode decode (encode movable) page cold marked))
              else free_if_full m pcptypes encode decode
                  (add_to_list m pcptypes encode decode (encode type) page cold marked))
      split true true e =
          back (record s { zone = free_one_page m page 0 type marked.zone })
            (freed-Joins page type marked is_marked marked_room)
      split true false e =
          back
            (free_if_full m pcptypes encode decode
              (add_to_list m pcptypes encode decode (encode movable) page cold marked))
            (listed-Joins (encode movable) page cold marked mv fits is_marked marked_room)
      split false alone e =
          back
            (free_if_full m pcptypes encode decode
              (add_to_list m pcptypes encode decode (encode type) page cold marked))
            (listed-Joins (encode type) page cold marked (ground (arith, e)) fits is_marked
              marked_room)
