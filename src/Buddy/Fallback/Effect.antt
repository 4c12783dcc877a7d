-- ===== src/Buddy/Fallback/Effect.antt =====
-- What `__rmqueue_fallback` and `__rmqueue` do to the zone: they take a block, as
-- `__rmqueue_smallest` does, whatever pages change their lists on the way.
use Prim.Native.Nat.{bit_and}
use osandroid_kernel.Prelude.{
  ℕ, zero, suc, ◌+◌, ◌-◌, ◌^◌, ◌≤◌, ◌≡◌, refl, sym, ap, ◌∙◌, true, not, ◌&&◌, ◌||◌, ltb, leb,
  if◌then◌else◌, if_elim,
}
use mathlib.Core.Path.{subst}
use osandroid_kernel.Buddy.{
  Machine, Zone, Migratetype, list_del, rmv_page_order, dec_nr_free, page_is_buddy, is_head,
  in_free_block, free_count, free_pages, IsValid,
}
use osandroid_kernel.Buddy.Blocks.{take_block}
use osandroid_kernel.Buddy.Alloc.{expand}
use osandroid_kernel.Buddy.Alloc.Effect.{Takes, take-expand-Takes}
use osandroid_kernel.Buddy.Fallback.{
  Areas, is_cma, move_freepages, move_freepages_block, set_pageblock_migratetype, change_pageblocks,
  changes_type, change_type, take_fallback,
}
use osandroid_kernel.Buddy.Fallback.Lists.{IsListed, Keeps, move_rounds-Keeps}

-- `z` with other lists and types of its pageblocks.
abbrev pub with_lists : Areas → (ℕ → Migratetype) → Zone → Zone
with_lists lists types z = record z { free_list = lists; pageblock_type = types }

-- `z'` is `z` with every block on one list of its order still.
abbrev pub Arranged : Zone → Zone → Type 0
Arranged z z' =
    (lists : Areas) × (types : ℕ → Migratetype) × (z' ≡ with_lists lists types z)
    × Keeps z z.free_list lists

module _ (m : Machine) where
  set_pageblock-Arranged :
      (page : ℕ) (type : Migratetype) (z z' : Zone)
      → Arranged z z'
      → Arranged z (set_pageblock_migratetype m page type z')
  unfolding set_pageblock_migratetype
  set_pageblock-Arranged page type z z' (lists, types, e, keeps) = (
    lists,
    (set_pageblock_migratetype m page type z').pageblock_type,
    ap (λ w. with_lists w.free_list (set_pageblock_migratetype m page type z').pageblock_type w) e,
    keeps,
  )

  -- The types of pageblocks are all that `change_pageblock_range` changes.
  change_pageblocks-types :
      (n page : ℕ) (type : Migratetype) (z : Zone)
      → (types : ℕ → Migratetype) × (change_pageblocks n m page type z
          ≡ record z { pageblock_type = types })
  unfolding change_pageblocks set_pageblock_migratetype
  change_pageblocks-types zero page type z = (z.pageblock_type, refl)
  change_pageblocks-types (suc n) page type z =
      change_pageblocks-types n (page + 2 ^ m.pageblock_order) type
        (set_pageblock_migratetype m page type z)

  same-Arranged : (z : Zone) → IsListed z z.free_list → Arranged z z
  same-Arranged z listed = (z.free_list, z.pageblock_type, refl, (listed, λ o. refl))

  move_freepages-Arranged :
      (start_page end_page : ℕ) (type : Migratetype) (z : Zone)
      → IsListed z z.free_list
      → Arranged z (move_freepages m start_page end_page type z).0
  unfolding move_freepages
  move_freepages-Arranged start_page end_page type z listed = (
    (move_freepages m start_page end_page type z).0.free_list,
    z.pageblock_type,
    refl,
    move_rounds-Keeps m z type (suc end_page - start_page) end_page
        (record { page = start_page; pages_moved = 0; lists = z.free_list }) z.free_list
        (listed, λ o. refl),
  )

  move_freepages_block-Arranged :
      (page : ℕ) (type : Migratetype) (z : Zone)
      → IsListed z z.free_list
      → Arranged z (move_freepages_block m page type z).0
  unfolding move_freepages_block
  move_freepages_block-Arranged page type z listed =
      let start_pfn = page - bit_and page (2 ^ m.pageblock_order - 1) in
      let end_pfn = start_pfn + 2 ^ m.pageblock_order - 1 in
      let start_page = if ltb start_pfn m.zone_start_pfn then page else start_pfn in
      if_elim (λ r. Arranged z r.0) (leb (m.zone_start_pfn + m.spanned_pages) end_pfn) (z, 0)
        (move_freepages m start_page end_pfn type z) (same-Arranged z listed)
        (move_freepages-Arranged start_page end_pfn type z listed)

  change_type-Arranged :
      (page : ℕ) (start : Migratetype) (z : Zone)
      → IsListed z z.free_list
      → Arranged z (change_type m page start z)
  unfolding change_type
  change_type-Arranged page start z listed =
      let a = move_freepages_block-Arranged page start z listed in
      if_elim (Arranged z)
        (leb (2 ^ (m.pageblock_order - 1)) ((move_freepages_block m page start z).1)
          || m.page_group_by_mobility_disabled)
        (set_pageblock_migratetype m page start ((move_freepages_block m page start z).0))
        ((move_freepages_block m page start z).0)
        (set_pageblock-Arranged page start z ((move_freepages_block m page start z).0) a) a

  -- A block taken from a zone with other lists is taken from the zone.
  with_lists-IsValid :
      (lists : Areas) (types : ℕ → Migratetype) (z : Zone)
      → IsValid m z
      → Keeps z z.free_list lists
      → IsValid m (with_lists lists types z)
  unfolding free_count in_free_block page_is_buddy
  with_lists-IsValid lists types z v (listed, same) = record {
    aligned = v.aligned;
    listed = listed;
    counted = λ o. v.counted o ∙ sym (same o);
    disjoint = v.disjoint;
    coalesced = v.coalesced;
  }

  with_lists-Takes :
      (lists : Areas) (types : ℕ → Migratetype) (z : Zone) (page order : ℕ) (z' : Zone)
      → Takes m (with_lists lists types z) page order z'
      → Takes m z page order z'
  unfolding free_count in_free_block free_pages
  with_lists-Takes lists types z page order z' t = t

  removed-Arranged :
      (page current_order : ℕ) (z z' : Zone)
      → Arranged (dec_nr_free current_order z) z'
      → (lists : Areas) × (types : ℕ → Migratetype) × (rmv_page_order page (list_del page z')
          ≡ take_block page current_order (with_lists lists types z))
        × Keeps z z.free_list lists
  removed-Arranged page current_order z z' (lists, types, e, keeps) =
      (lists, types, ap (λ w. rmv_page_order page (list_del page w)) e, keeps)

  -- The block has left its list, in a zone with other lists.
  abbrev TakenFrom : ℕ → ℕ → Zone → Zone → Type 0
  TakenFrom page current_order z z' =
      (lists : Areas) × (types : ℕ → Migratetype) × (z'
        ≡ take_block page current_order (with_lists lists types z))
      × Keeps z z.free_list lists

  owned-TakenFrom :
      (n page current_order : ℕ) (type : Migratetype) (z z' : Zone)
      → TakenFrom page current_order z z'
      → TakenFrom page current_order z (change_pageblocks n m page type z')
  owned-TakenFrom n page current_order type z z' (lists, types, e, keeps) =
      let (types', e') = change_pageblocks-types n page type z' in
      (lists, types', e' ∙ ap (λ w. with_lists w.free_list types' w) e, keeps)

  expand-TakenFrom :
      (order current_order page : ℕ) (type : Migratetype) (z z' : Zone)
      → order ≤ current_order
      → IsValid m z
      → is_head z page current_order ≡ true
      → TakenFrom page current_order z z'
      → Takes m z page order (expand page order current_order type z')
  expand-TakenFrom order current_order page type z z' le v head (lists, types, e, keeps) =
      subst (λ w. Takes m z page order (expand page order current_order type w)) (sym e)
        (with_lists-Takes lists types z page order
          (expand page order current_order type
            (take_block page current_order (with_lists lists types z)))
          (take-expand-Takes m (with_lists lists types z) (with_lists-IsValid lists types z v keeps)
            order current_order page type le head))

  pub take_fallback-Takes :
      (order current_order page : ℕ) (start type : Migratetype) (z : Zone)
      → order ≤ current_order
      → IsValid m z
      → is_head z page current_order ≡ true
      → Takes m z page order (take_fallback m order current_order start type page z)
  unfolding take_fallback
  take_fallback-Takes order current_order page start type z le v head =
      let changes = changes_type m current_order start type in
      let counted = dec_nr_free current_order z in
      let arranged = if changes then change_type m page start counted else counted in
      let now = if changes then start else type in
      let removed = rmv_page_order page (list_del page arranged) in
      let range = 2 ^ (current_order - m.pageblock_order) in
      let owned =
        if leb m.pageblock_order current_order && not (is_cma m now)
        then change_pageblocks range m page start removed
        else removed in
      let is_arranged =
        if_elim (Arranged counted) changes (change_type m page start counted) counted
          (change_type-Arranged page start counted v.listed) (same-Arranged counted v.listed) in
      let is_removed = removed-Arranged page current_order z arranged is_arranged in
      expand-TakenFrom order current_order page (if is_cma m now then now else start) z owned le v
        head
        (if_elim (TakenFrom page current_order z)
          (leb m.pageblock_order current_order && not (is_cma m now))
          (change_pageblocks range m page start removed) removed
          (owned-TakenFrom range page current_order start z removed is_removed) is_removed)
