-- ===== src/Buddy/Alloc/Effect.antt =====
-- What `expand` and `__rmqueue_smallest` do to the zone.
use osandroid_kernel.Prelude.{
  ℕ, zero, suc, ◌+◌, ◌-◌, ◌*◌, ◌/◌, ◌^◌, ◌≤◌, ◌<◌, ◌≡◌, refl, ap, Bool, true, false, inr, none,
  some, List, [], ◌∷◌, ltb, if◌then◌else◌, arith,
}
use osandroid_kernel.Buddy.{
  Machine, Zone, page_is_buddy, Migratetype, is_head, in_block, free_count, free_pages, Aligned,
  IsValid, Room, count, sum_types, unmovable, reclaimable, movable, reserve, cma, isolate,
}
use osandroid_kernel.Buddy.Bits.{twin, two_pow-suc}
use osandroid_kernel.Buddy.Pairs.{half-Aligned, other_half-Aligned, in_block-halves, twin_of_upper}
use osandroid_kernel.Buddy.Blocks.{marked-free_count, take_block, put_block, cons-IsAdded}
use osandroid_kernel.Buddy.Blocks.Take.{
  free_pages-take_block, free_count-take_block, take_block-IsValid, head_fits,
}
use osandroid_kernel.Buddy.Blocks.Put.{
  free_pages-put_block, free_count-put_block, put_block-IsValid,
}
use osandroid_kernel.Buddy.Alloc.{expand, smallest_from, rmqueue_smallest, Answer, first_or}

-- The block at `page` shrinks from order `high` to `low`, and what it loses is free in `z'`.
abbrev pub Shrinks : Machine → Zone → ℕ → (low high : ℕ) → Zone → Type 0
Shrinks m z page low high z' =
    IsValid m z'
    × Aligned page low
    × ((q : ℕ) → free_count m z' q + in_block page low q ≡ free_count m z q + in_block page high q)
    × (free_pages m z' + 2 ^ low ≡ free_pages m z + 2 ^ high)

module _ (m : Machine) (page : ℕ) (type : Migratetype) where
  same-Shrinks :
      (low high : ℕ) (z : Zone)
      → low ≡ high
      → Aligned page high
      → IsValid m z
      → Shrinks m z page low high z
  same-Shrinks low high z e al v = (v, rw e al, λ q. rw e refl, rw e refl)

  -- The upper half goes back.
  abbrev upper_back : ℕ → Zone → Zone
  upper_back high z =
      put_block (page + 2 ^ high) high type ((page + 2 ^ high) ∷ z.free_list high type) z

  module _ (high : ℕ) (z : Zone) (fits : suc high < m.max_order) (al : Aligned page (suc high))
      (v : IsValid m z) (room : Room m z page (suc high)) where
    upper_back-Room : Room m z (page + 2 ^ high) high
    upper_back-Room q = omega (arith, room q, in_block-halves page high al q)

    free_count-upper_back :
        (q : ℕ)
        → free_count m (upper_back high z) q + in_block page high q
          ≡ free_count m z q + in_block page (suc high) q
    free_count-upper_back q = omega (
      arith,
      in_block-halves page high al q,
      free_count-put_block m z v (page + 2 ^ high) high type
          ((page + 2 ^ high) ∷ z.free_list high type) (omega arith)
          (other_half-Aligned page high al) upper_back-Room
          (cons-IsAdded (page + 2 ^ high) (z.free_list high type)) q,
    )

    free_pages-upper_back : free_pages m (upper_back high z) ≡ free_pages m z + 2 ^ high
    free_pages-upper_back =
        free_pages-put_block m z v (page + 2 ^ high) high type
          ((page + 2 ^ high) ∷ z.free_list high type) (omega arith)
          (other_half-Aligned page high al) upper_back-Room
          (cons-IsAdded (page + 2 ^ high) (z.free_list high type))

    -- The buddy of the upper half is the lower one, which is not free.
    lower_unmarked : z.page_buddy page ≡ false
    unfolding in_block
    lower_unmarked = ground (arith, room page, marked-free_count m z v page)

    upper_alone :
        page_is_buddy m z (page + 2 ^ high) (twin ((page + 2 ^ high) / 2 ^ high) * 2 ^ high) high
        ≡ false
    unfolding page_is_buddy
    upper_alone =
        ground (arith, lower_unmarked, ap (λ p. z.page_buddy p) (twin_of_upper page high al))

    upper_back-IsValid : IsValid m (upper_back high z)
    upper_back-IsValid =
        put_block-IsValid m z v (page + 2 ^ high) high type
          ((page + 2 ^ high) ∷ z.free_list high type) (omega arith)
          (other_half-Aligned page high al) upper_back-Room
          (cons-IsAdded (page + 2 ^ high) (z.free_list high type)) (inr upper_alone)

    lower-Room : Room m (upper_back high z) page high
    lower-Room q = omega (arith, room q, free_count-upper_back q)

    then-Shrinks :
        (low : ℕ) (z' : Zone)
        → Shrinks m (upper_back high z) page low high z'
        → Shrinks m z page low (suc high) z'
    then-Shrinks low z' (v', al', same, sum) = (
      v',
      al',
      λ q. omega (arith, same q, free_count-upper_back q),
      omega (arith, sum, two_pow-suc high, free_pages-upper_back),
    )

  pub expand-Shrinks :
      (low high : ℕ) (z : Zone)
      → low ≤ high
      → high < m.max_order
      → Aligned page high
      → IsValid m z
      → Room m z page high
      → Shrinks m z page low high (expand page low high type z)
  unfolding expand
  expand-Shrinks low zero z le lt al v room = same-Shrinks low 0 z (omega arith) al v
  expand-Shrinks low (suc high) z le lt al v room = split (ltb low (suc high)) refl (λ less.
      expand-Shrinks low high (upper_back high z) less (omega arith) (half-Aligned page high al)
        (upper_back-IsValid high z lt al v room) (lower-Room high z lt al v room))
    where
      split :
          (b : Bool)
          → ltb low (suc high) ≡ b
          → (low ≤ high
              → Shrinks m
                  (upper_back high z)
                  page
                  low
                  high
                  (expand page low high type (upper_back high z)))
          → Shrinks m z page low
              (suc high)
              (if b then expand page low high type (upper_back high z) else z)
      split true e rest =
          then-Shrinks high z lt al v room low (expand page low high type (upper_back high z))
            (rest (ground arith))
      split false e rest = same-Shrinks low (suc high) z (ground arith) al v

abbrev pub Takes : Machine → Zone → ℕ → ℕ → Zone → Type 0
Takes m z page order z' =
    IsValid m z'
    × Aligned page order
    × ((q : ℕ) → free_count m z' q + in_block page order q ≡ free_count m z q)
    × (free_pages m z' + 2 ^ order ≡ free_pages m z)

-- An answer that is not NULL takes a block.
abbrev pub TakesAnswer : Machine → Zone → ℕ → Answer → Type 0
TakesAnswer m z order none = Unit
TakesAnswer m z order (some (page, z')) = Takes m z page order z'

le-sum_types : (f : Migratetype → ℕ) (t : Migratetype) → f t ≤ sum_types f
le-sum_types f unmovable = omega arith
le-sum_types f reclaimable = omega arith
le-sum_types f movable = omega arith
le-sum_types f reserve = omega arith
le-sum_types f cma = omega arith
le-sum_types f isolate = omega arith

module _ (m : Machine) (z : Zone) (v : IsValid m z) where
  pub first-is_head :
      (order page : ℕ) (type : Migratetype) (pages : List ℕ)
      → z.free_list order type ≡ page ∷ pages
      → is_head z page order ≡ true
  first-is_head order page type pages e = ground (
    arith,
    v.listed page order,
    le-sum_types (λ t. count page (z.free_list order t)) type,
    ap (λ ps. count page ps) e,
  )

  -- The block leaves its list, and all of it but the first 2 ^ order pages goes back.
  pub take-expand-Takes :
      (order high page : ℕ) (type : Migratetype)
      → order ≤ high
      → is_head z page high ≡ true
      → Takes m z page order (expand page order high type (take_block page high z))
  take-expand-Takes order high page type le head =
      let taken = free_count-take_block m z v page high head in
      let fits = head_fits m z v page high head in
      let room : Room m (take_block page high z) page high =
        λ q. omega (arith, taken q, v.disjoint q) in
      let (v', al, same, sum) =
        expand-Shrinks m page type order high (take_block page high z) le fits.0 fits.1
          (take_block-IsValid m z v page high head) room in
      (
        v',
        al,
        λ q. omega (arith, same q, taken q),
        omega (arith, sum, free_pages-take_block m z v page high head),
      )

  smallest_from-TakesAnswer :
      (rounds order current_order : ℕ) (type : Migratetype)
      → order ≤ current_order
      → TakesAnswer m z order (smallest_from rounds order current_order type z)
  unfolding smallest_from
  smallest_from-TakesAnswer zero order current_order type le = tt
  smallest_from-TakesAnswer (suc rounds) order current_order type le =
      split (z.free_list current_order type) refl
        (smallest_from-TakesAnswer rounds order (suc current_order) type (omega arith))
    where
      found : ℕ → Answer
      found page =
          some (page, expand page order current_order type (take_block page current_order z))

      split :
          (pages : List ℕ)
          → z.free_list current_order type ≡ pages
          → TakesAnswer m z order (smallest_from rounds order (suc current_order) type z)
          → TakesAnswer m z order
              (first_or pages found (smallest_from rounds order (suc current_order) type z))
      split [] e rest = rest
      split (page ∷ pages) e rest =
          take-expand-Takes order current_order page type le
            (first-is_head current_order page type pages e)

  pub rmqueue_smallest-TakesAnswer :
      (order : ℕ) (type : Migratetype) → TakesAnswer m z order (rmqueue_smallest m order type z)
  unfolding rmqueue_smallest
  rmqueue_smallest-TakesAnswer order type =
      smallest_from-TakesAnswer (m.max_order - order) order order type (omega arith)
