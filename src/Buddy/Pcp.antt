-- ===== src/Buddy/Pcp.antt =====
-- `free_pcppages_bulk` and its callers `drain_zone_pages` and `drain_pages` in hw5/mm/page_alloc.c:
-- pages on the lists of a processor go back to the zone. A list is held from its tail on, the end that
-- pages are taken from. `pcptypes` is MIGRATE_PCPTYPES, the number of the lists, and `decode` gives the
-- type that a number in a page's field stands for. The counters of the zone (NR_FREE_PAGES goes up by
-- `count`), `all_unreclaimable` and `pages_scanned` are left out. A page of these lists is a single one, not part
-- of a compound page.
pub mod Search
pub mod Effect
use osandroid_kernel.Prelude.{
  ℕ, zero, suc, ◌+◌, ◌-◌, ◌/◌, ◌^◌, Bool, true, false, not, ◌&&◌, List, [], ◌∷◌, leb, ◌==◌,
  if◌then◌else◌,
}
use osandroid_kernel.Prelude.Families.{put_at}
use osandroid_kernel.Buddy.{Machine, Zone, Migratetype}
use osandroid_kernel.Buddy.Free.{free_block}
use osandroid_kernel.Buddy.Fallback.{is_cma}

-- The variables of `free_pcppages_bulk`, with the zone and the lists it works on. `cma_freed` is what
-- NR_FREE_CMA_PAGES goes up by.
pub record Draining : Type 0 where
  pub zone : Zone
  pub lists : ℕ → List ℕ
  pub migratetype : ℕ
  pub batch_free : ℕ
  pub to_free : ℕ
  pub cma_freed : ℕ

abbrev pub list_empty : List ℕ → Bool
list_empty [] = true
list_empty (page ∷ pages) = false

module _ (m : Machine) (pcptypes : ℕ) (decode : ℕ → Migratetype) where
  abbrev pub next_list : Draining → Draining
  next_list s = record s {
    batch_free = suc s.batch_free;
    migratetype = if suc s.migratetype == pcptypes then 0 else suc s.migratetype;
  }

  -- The search for a list that is not empty, with a round for each list.
  unfoldable pub find_list : ℕ → Draining → Draining
  find_list zero s = s
  find_list (suc rounds) s =
      let rest = find_list rounds (next_list s) in
      if list_empty (s.lists ((next_list s).migratetype)) then rest else next_list s

  -- The only list with pages is freed whole.
  abbrev pub set_batch : Draining → Draining
  set_batch s = record s {
    batch_free = if s.batch_free == pcptypes then s.to_free else s.batch_free;
  }

  -- A page leaves its list and is freed; both counts go down as `--to_free && --batch_free` has it.
  abbrev pub free_first : ℕ → List ℕ → Draining → Draining
  free_first page pages s = record s {
    zone = free_block m false page 0 (decode (s.zone.page_private page)) s.zone;
    lists = put_at s.migratetype pages s.lists;
    to_free = s.to_free - 1;
    batch_free = if s.to_free - 1 == 0 then s.batch_free else s.batch_free - 1;
    cma_freed =
        if is_cma m (s.zone.pageblock_type (page / 2 ^ m.pageblock_order))
        then suc s.cma_freed
        else s.cma_freed;
  }

  -- After a page: the batch goes on, or it is over.
  abbrev pub go_on_freeing : (Draining → Draining) → List ℕ → Draining → Draining
  go_on_freeing loop pages s =
      if not (s.to_free == 0) && not (s.batch_free == 0) && not (list_empty pages)
      then loop s
      else s

  abbrev pub free_from : (Draining → Draining) → List ℕ → Draining → Draining
  free_from loop [] s = s
  free_from loop (page ∷ pages) s = go_on_freeing loop pages (free_first page pages s)

  -- The inner loop, with a round for each page that is still to be freed.
  unfoldable pub free_batch : ℕ → Draining → Draining
  free_batch zero s = s
  free_batch (suc rounds) s = free_from (free_batch rounds) (s.lists s.migratetype) s

  -- One pass of the outer loop.
  unfoldable pub drain_once : Draining → Draining
  drain_once s = let t = set_batch (find_list pcptypes s) in free_batch t.to_free t

  -- The outer loop, with as many rounds.
  unfoldable pub drain : ℕ → Draining → Draining
  drain zero s = s
  drain (suc rounds) s =
      let rest = drain rounds (drain_once s) in if s.to_free == 0 then s else rest

  unfoldable pub free_pcppages_bulk : (count : ℕ) → (ℕ → List ℕ) → Zone → Draining
  free_pcppages_bulk count lists z = drain count (record {
    zone = z;
    lists = lists;
    migratetype = 0;
    batch_free = 0;
    to_free = count;
    cma_freed = 0;
  })

  -- `drain_zone_pages`: at most a batch, for the count of the pages on the lists.
  unfoldable pub drain_zone_pages : (batch count : ℕ) → (ℕ → List ℕ) → Zone → Draining × ℕ
  drain_zone_pages batch count lists z =
      let to_drain = if leb batch count then batch else count in
      (free_pcppages_bulk to_drain lists z, count - to_drain)

  -- `drain_pages` for one zone: all of them.
  unfoldable pub drain_pages : (count : ℕ) → (ℕ → List ℕ) → Zone → Draining × ℕ
  drain_pages count lists z =
      let start : Draining = record {
        zone = z;
        lists = lists;
        migratetype = 0;
        batch_free = 0;
        to_free = 0;
        cma_freed = 0;
      } in
      if count == 0 then (start, count) else (free_pcppages_bulk count lists z, 0)
