-- ===== src/Buddy/Alloc.antt =====
-- The allocation of a block in hw5/mm/page_alloc.c: `expand` and `__rmqueue_smallest`. A zone is left
-- as it is when the answer is NULL.
pub mod Effect
use osandroid_kernel.Prelude.{
  ℕ, zero, suc, ◌+◌, ◌-◌, ◌^◌, Bool, true, false, Option, none, some, List, [], ◌∷◌, ltb,
  if◌then◌else◌,
}
use osandroid_kernel.Buddy.{
  Machine, Zone, Migratetype, list_del, list_add, set_page_order, rmv_page_order, inc_nr_free,
  dec_nr_free,
}

-- `expand`: the upper halves of the block of order `high` go back until one of order `low` is left.
-- The size of the source is 1 << high in every round.
unfoldable pub expand : ℕ → (low high : ℕ) → Migratetype → Zone → Zone
expand page low zero type z = z
expand page low (suc high) type z =
    let size = 2 ^ high in
    let rest =
      expand page low high type (
        set_page_order (page + size) high
          (inc_nr_free high (list_add (page + size) high type z))) in
    if ltb low (suc high) then rest else z

-- A page and the zone it was taken from, or NULL.
abbrev pub Answer : Type 0
Answer = Option (ℕ × Zone)

-- The first page of a list, or what comes when the list is empty.
abbrev pub first_or : List ℕ → (ℕ → Answer) → Answer → Answer
first_or [] found other = other
first_or (page ∷ pages) found other = found page

-- `__rmqueue_smallest` from `current_order` on, with the orders that are left.
unfoldable pub smallest_from : ℕ → (order current_order : ℕ) → Migratetype → Zone → Answer
smallest_from zero order current_order type z = none
smallest_from (suc rounds) order current_order type z =
    first_or (z.free_list current_order type)
      (λ page. some (
        page,
        expand page order current_order type
            (dec_nr_free current_order (rmv_page_order page (list_del page z))),
      ))
      (smallest_from rounds order (suc current_order) type z)

unfoldable pub rmqueue_smallest : Machine → (order : ℕ) → Migratetype → Zone → Answer
rmqueue_smallest m order type z = smallest_from (m.max_order - order) order order type z
