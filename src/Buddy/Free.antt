-- ===== src/Buddy/Free.antt =====
-- `__free_one_page` of hw5/mm/page_alloc.c: a block goes back to the free lists and merges with its
-- buddy for as long as that one is free. Differences of indices are added to a page before they are
-- subtracted, as the unsigned arithmetic of the source comes to.
pub mod Merge
pub mod Effect
use Prim.Native.Nat.{bit_and, bit_xor}
use osandroid_kernel.Prelude.{
  ℕ, zero, suc, ◌+◌, ◌-◌, ◌^◌, Bool, true, false, not, ◌&&◌, ltb, ◌==◌, if◌then◌else◌,
}
use osandroid_kernel.Buddy.{
  Machine, Zone, Migratetype, list_del, list_add, list_add_tail, set_page_order, rmv_page_order,
  inc_nr_free, dec_nr_free, page_is_buddy,
}

-- `__find_buddy_index`.
abbrev pub find_buddy_index : ℕ → ℕ → ℕ
find_buddy_index page_idx order = bit_xor page_idx (2 ^ order)

-- The variables of the loop of `__free_one_page`, and the zone it works on.
pub record Freeing : Type 0 where
  pub page : ℕ
  pub page_idx : ℕ
  pub order : ℕ
  pub buddy_idx : ℕ
  pub buddy : ℕ
  pub zone : Zone

-- The head of the loop's body, up to the test.
abbrev pub look : Freeing → Freeing
look s =
    let buddy_idx = find_buddy_index s.page_idx s.order in
    record s { buddy_idx = buddy_idx; buddy = s.page + buddy_idx - s.page_idx }

-- The rest of the body, for a buddy that is free.
abbrev pub join : Freeing → Freeing
join s =
    let combined_idx = bit_and s.buddy_idx s.page_idx in
    record s {
      zone = rmv_page_order s.buddy (dec_nr_free s.order (list_del s.buddy s.zone));
      page = s.page + combined_idx - s.page_idx;
      page_idx = combined_idx;
      order = suc s.order;
    }

-- A round that has looked at the buddy: it stops, or the loop goes on with the two joined.
abbrev pub go_on_merging : Machine → (Freeing → Freeing) → Freeing → Freeing
go_on_merging m loop s = if page_is_buddy m s.zone s.page s.buddy s.order then loop (join s) else s

-- The loop, with the rounds that are left up to the greatest order.
unfoldable pub merge : Machine → ℕ → Freeing → Freeing
merge m zero s = s
merge m (suc rounds) s = go_on_merging m (merge m rounds) (look s)

-- The test for the tail of the list. `higher_buddy` is counted from `page`, as in the source, and
-- not from `higher_page`.
unfoldable pub at_tail : Machine → Freeing → Zone → Bool
at_tail m s z =
    let combined_idx = bit_and s.buddy_idx s.page_idx in
    let higher_page = s.page + combined_idx - s.page_idx in
    let buddy_idx = find_buddy_index combined_idx (suc s.order) in
    let higher_buddy = s.page + buddy_idx - combined_idx in
    ltb s.order (m.max_order - 2)
    && m.pfn_valid_within s.buddy
    && page_is_buddy m z higher_page higher_buddy (suc s.order)

unfoldable pub put_on_list : Machine → Migratetype → Freeing → Zone
put_on_list m type s =
    let z = set_page_order s.page s.order s.zone in
    inc_nr_free s.order (
      if at_tail m s z then list_add_tail s.page s.order type z else list_add s.page s.order type z)

-- The buddy and its index are not read before the loop sets them.
abbrev pub start_freeing : Machine → ℕ → ℕ → Zone → Freeing
start_freeing m page order z = record {
  page = page;
  page_idx = bit_and page (2 ^ m.max_order - 1);
  order = order;
  buddy_idx = 0;
  buddy = 0;
  zone = z;
}

-- `__free_one_page`; `bad_compound` is `PageCompound(page) && destroy_compound_page(page, order)`.
unfoldable pub free_block : Machine → (bad_compound : Bool) → ℕ → ℕ → Migratetype → Zone → Zone
free_block m bad_compound page order type z =
    if bad_compound
    then z
    else put_on_list m type (merge m (m.max_order - 1 - order) (start_freeing m page order z))
