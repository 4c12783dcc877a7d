-- ===== src/Buddy/HotCold.antt =====
-- `free_one_page` and `free_hot_cold_page` of hw5/mm/page_alloc.c: a single page goes to the lists of
-- the processor, from which a batch goes back to the zone when they are full. `encode` is the number
-- of a type and `decode` the type of a number.
pub mod Effect
use osandroid_kernel.Prelude.{
  ℕ, zero, suc, ◌+◌, ◌-◌, ◌/◌, ◌^◌, Bool, true, false, not, ◌||◌, List, [], ◌∷◌, ◌++◌, leb, ◌==◌,
  if◌then◌else◌,
}
use osandroid_kernel.Prelude.Families.{put_at}
use osandroid_kernel.Buddy.{Machine, Zone, Migratetype, movable, isolate, same_type}
use osandroid_kernel.Buddy.Free.{free_block}
use osandroid_kernel.Buddy.Fallback.{is_cma}
use osandroid_kernel.Buddy.Bulk.{set_page_private}
use osandroid_kernel.Buddy.Pcp.{Draining, free_pcppages_bulk}

-- `struct per_cpu_pages`, with the zone. `count` is the field, which the source keeps by hand.
pub record PerCpu : Type 0 where
  pub zone : Zone
  pub lists : ℕ → List ℕ
  pub count : ℕ
  pub high : ℕ
  pub batch : ℕ

-- What `free_one_page` does to the free lists, under the lock of the zone.
abbrev pub free_one_page : Machine → ℕ → (order : ℕ) → Migratetype → Zone → Zone
free_one_page m page order type z = free_block m false page order type z

module _ (m : Machine) (pcptypes : ℕ) (encode : Migratetype → ℕ) (decode : ℕ → Migratetype) where
  -- The page goes to the tail for `cold`, which is where a list is held from.
  abbrev pub add_to_list : (index page : ℕ) → (cold : Bool) → PerCpu → PerCpu
  add_to_list index page cold s = record s {
    lists =
        put_at index (if cold then page ∷ s.lists index else s.lists index ++ page ∷ []) s.lists;
    count = suc s.count;
  }

  -- A batch goes back when the lists are full.
  unfoldable pub free_if_full : PerCpu → PerCpu
  free_if_full s =
      let d = free_pcppages_bulk m pcptypes decode s.batch s.lists s.zone in
      let drained = record s { zone = d.zone; lists = d.lists; count = s.count - s.batch } in
      if leb s.high s.count then drained else s

  -- `free_hot_cold_page`; `prepared` is what `free_pages_prepare` answers.
  unfoldable pub free_hot_cold_page : (prepared : Bool) → ℕ → (cold : Bool) → PerCpu → PerCpu
  free_hot_cold_page prepared page cold s =
      let type = s.zone.pageblock_type (page / 2 ^ m.pageblock_order) in
      let marked = set_page_private page (encode type) s.zone in
      if not prepared
      then s
      else if leb pcptypes (encode type)
      then (if same_type type isolate || is_cma m type
          then record s { zone = free_one_page m page 0 type marked }
          else free_if_full (add_to_list (encode movable) page cold (record s { zone = marked })))
      else free_if_full (add_to_list (encode type) page cold (record s { zone = marked }))
