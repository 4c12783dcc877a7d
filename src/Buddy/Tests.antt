-- ===== src/Buddy/Tests.antt =====
-- The buddy allocator at concrete inputs: a zone of 32 pages with four orders.
use osandroid_kernel.Prelude.{
  ℕ, ◌+◌, ◌≤◌, ◌<◌, ◌≡◌, refl, true, false, ◌||◌, none, some, is_some, List, [], ◌∷◌, arith, ◌==◌,
  if◌then◌else◌, Bool, not,
}
use osandroid_kernel.Prelude.Families.{sum_below}
use osandroid_kernel.Buddy.{
  Machine, Zone, unmovable, movable, in_block, in_free_block, free_count, IsValid, Room,
  page_is_buddy, Migratetype, reclaimable, free_pages,
}
use osandroid_kernel.Buddy.Alloc.{Answer, expand, smallest_from, rmqueue_smallest}
use osandroid_kernel.Buddy.Alloc.Effect.{Takes}
use osandroid_kernel.Buddy.Free.{merge, at_tail, put_on_list, free_block}
use osandroid_kernel.Buddy.Free.Effect.{Frees, free_block-Frees}
use osandroid_kernel.Buddy.Fallback.{
  fallbacks, fallback_types, fallback_from, rmqueue_fallback, rmqueue, take_fallback, change_type,
  move_freepages_block, move_freepages, move_rounds, move_one, set_pageblock_migratetype,
  change_pageblocks,
}
use osandroid_kernel.Buddy.Fallback.Found.{looks_at, stands_before_reserve, rmqueue-is_some}
use osandroid_kernel.Buddy.Fallback.Rmqueue.{rmqueue-Takes}
use osandroid_kernel.Buddy.Bulk.{BulkRequest, Filling, bulk_rounds, rmqueue_bulk}
use osandroid_kernel.Buddy.Pcp.{
  Draining, drain, drain_once, find_list, free_batch, free_pcppages_bulk,
}
use osandroid_kernel.Buddy.Pcp.Effect.{held}
use osandroid_kernel.Buddy.Watermark.{
  Watermark, watermark_rounds, watermark_ok, zone_watermark_ok, zone_watermark_ok_safe,
}
use osandroid_kernel.Buddy.Watermark.Laws.{zone_watermark_ok-has_block}
use osandroid_kernel.Prelude.Int.{◌-ℤ◌}
use osandroid_kernel.Buddy.HotCold.{PerCpu, free_if_full, free_hot_cold_page}
use osandroid_kernel.Buddy.HotCold.Effect.{IsPerCpu, owned, Joins, free_hot_cold_page-Joins}
use osandroid_kernel.Buddy.Buffered.{Grab, take_single, take_once, buffered_rmqueue}
use osandroid_kernel.Buddy.Buffered.Take.{stock}
use osandroid_kernel.Buddy.Buffered.Effect.{Allocates, buffered_rmqueue-Allocates}
use osandroid_kernel.Buddy.Zonelist.{
  Zones, noscan, ScanFlags, Outside, Found, try_this_zone, scan_zone, get_page_from_freelist,
}
use osandroid_kernel.Buddy.Zonelist.Find.{Finds, get_page_from_freelist-Finds}
use osandroid_kernel.Buddy.Round.{Restores, rmqueue-free_block}

abbrev a_machine : Machine
a_machine = record {
  max_order = 4;
  pageblock_order = 3;
  config_cma = true;
  page_group_by_mobility_disabled = false;
  zone_start_pfn = 0;
  spanned_pages = 32;
  pfn_valid_within = λ p. true;
  page_zone_id = λ p. 0;
}

abbrev empty_zone : Zone
empty_zone = record {
  free_list = λ o t. [];
  nr_free = λ o. 0;
  page_buddy = λ p. false;
  page_private = λ p. 0;
  pageblock_type = λ b. movable;
}

empty_count : (q : ℕ) → free_count a_machine empty_zone q ≡ 0
unfolding free_count in_free_block sum_below
empty_count q = refl

empty-IsValid : IsValid a_machine empty_zone
unfolding page_is_buddy
empty-IsValid = record {
  aligned = λ p b. absurd (ground (arith, b));
  listed = λ p o. refl;
  counted = λ o. refl;
  disjoint = λ q. omega (arith, empty_count q);
  coalesced = λ x o lt valid h. absurd (ground (arith, h));
}

-- Pages 8 to 11 are free.
abbrev half_zone : Zone
half_zone = free_block a_machine false 8 2 movable empty_zone

empty-Room : Room a_machine empty_zone 8 2
unfolding in_block
empty-Room q = ground (arith, empty_count q)

half-Frees : Frees a_machine empty_zone 8 2 half_zone
half-Frees =
    free_block-Frees a_machine empty_zone 8 2 movable (omega arith) refl empty-IsValid empty-Room

half-Room : Room a_machine half_zone 12 2
unfolding in_block
half-Room q = ground (arith, empty_count q, half-Frees.1 q)

-- The buddy of pages 12 to 15 is free.
free_block-Frees_example :
    Frees a_machine half_zone 12 2 (free_block a_machine false 12 2 unmovable half_zone)
free_block-Frees_example =
    free_block-Frees a_machine half_zone 12 2 unmovable (omega arith) refl half-Frees.0 half-Room

whole_zone : Zone
whole_zone = free_block a_machine false 12 2 movable half_zone

whole_list : whole_zone.free_list 3 movable ≡ 8 ∷ []
unfolding whole_zone free_block put_on_list at_tail merge page_is_buddy
whole_list = refl

whole-Frees : Frees a_machine half_zone 12 2 whole_zone
unfolding whole_zone
whole-Frees =
    free_block-Frees a_machine half_zone 12 2 movable (omega arith) refl half-Frees.0 half-Room

zone_of : Zone → Answer → Zone
zone_of z none = z
zone_of z (some (page, z')) = z'

-- An unmovable allocation falls back to the movable block.
taken_zone : Zone
taken_zone = zone_of whole_zone (rmqueue a_machine 1 unmovable whole_zone)

taken : rmqueue a_machine 1 unmovable whole_zone ≡ some (8, taken_zone)
unfolding taken_zone zone_of whole_zone free_block put_on_list at_tail merge page_is_buddy rmqueue
    rmqueue_smallest smallest_from rmqueue_fallback fallback_from fallback_types fallbacks
    take_fallback change_type move_freepages_block move_freepages move_rounds move_one
    set_pageblock_migratetype change_pageblocks expand
taken = refl

rmqueue-free_block_example :
    Restores a_machine whole_zone (free_block a_machine false 8 1 unmovable taken_zone)
rmqueue-free_block_example =
    rmqueue-free_block a_machine whole_zone taken_zone 8 1 unmovable unmovable whole-Frees.0
      (omega arith) taken

rmqueue-is_some_example : is_some (rmqueue a_machine 1 unmovable whole_zone) ≡ true
unfolding looks_at stands_before_reserve fallbacks
rmqueue-is_some_example =
    rmqueue-is_some a_machine whole_zone 1 3 8 [] unmovable movable refl (omega arith) (omega arith)
      whole_list

rmqueue-Takes_example : Takes a_machine whole_zone 8 1 taken_zone
rmqueue-Takes_example =
    rmqueue-Takes a_machine whole_zone taken_zone 8 1 unmovable whole-Frees.0 taken

-- Three pairs are asked for, and the fourth is left.
abbrev a_request : BulkRequest
a_request = record { order = 1; type = movable; cold = false; from_cma = false; cma_alloc = false }

three_pairs : Filling
three_pairs = rmqueue_bulk (λ t. 0) a_machine a_request 3 [] whole_zone

three_pairs_front : three_pairs.front ≡ 8 ∷ 10 ∷ 12 ∷ []
unfolding three_pairs whole_zone free_block put_on_list at_tail merge page_is_buddy rmqueue
    rmqueue_smallest smallest_from expand rmqueue_bulk bulk_rounds
three_pairs_front = refl

-- Pages 16 and 20 are on one list of a processor, and page 24 on another.
abbrev some_lists : ℕ → List ℕ
some_lists t = if t == 0 then 16 ∷ 20 ∷ [] else if t == 2 then 24 ∷ [] else []

drained : Draining
drained = free_pcppages_bulk a_machine 3 (λ n. movable) 3 some_lists empty_zone

drained_lists : drained.zone.free_list 0 movable ≡ 20 ∷ 16 ∷ 24 ∷ []
unfolding drained free_pcppages_bulk drain drain_once find_list free_batch free_block put_on_list
    at_tail merge page_is_buddy
drained_lists = refl

some_lists_once : (q : ℕ) → free_count a_machine empty_zone q + held 3 some_lists q ≤ 1
unfolding sum_below in_block
some_lists_once q = ground (arith, empty_count q)

-- A request for pairs against a mark of 3 pages.
abbrev a_watermark : Watermark
a_watermark = record {
  order = 1;
  mark = 3;
  alloc_high = false;
  alloc_harder = true;
  alloc_cma = true;
  lowmem_reserve = 1;
  nr_free_pages = 8;
  nr_free_snapshot = 8;
  nr_free_cma_pages = 0;
  percpu_drift_mark = 0;
  min_free_order_shift = 1;
}

eight_free : free_pages a_machine whole_zone ≡ 8
unfolding free_pages sum_below whole_zone free_block put_on_list at_tail merge page_is_buddy
eight_free = refl

passes :
    (zone_watermark_ok a_machine a_watermark whole_zone
      || zone_watermark_ok_safe a_machine a_watermark whole_zone)
    ≡ true
unfolding zone_watermark_ok zone_watermark_ok_safe watermark_ok watermark_rounds whole_zone
    free_block put_on_list at_tail merge page_is_buddy ◌-ℤ◌
passes = refl

zone_watermark_ok-has_block_example : (o : ℕ) × (1 ≤ o) × (o < 4) × (0 < whole_zone.nr_free o)
zone_watermark_ok-has_block_example =
    zone_watermark_ok-has_block a_machine a_watermark whole_zone (omega arith)
      (omega (arith, eight_free)) (omega (arith, eight_free)) passes

abbrev number_of : Migratetype → ℕ
number_of unmovable = 0
number_of reclaimable = 1
number_of movable = 2
number_of type = 3

-- A fourth page fills the lists, and two go back.
abbrev a_processor : PerCpu
a_processor = record { zone = empty_zone; lists = some_lists; count = 3; high = 4; batch = 2 }

after_free : PerCpu
after_free = free_hot_cold_page a_machine 3 number_of (λ n. movable) true 28 false a_processor

two_left : after_free.count ≡ 2
unfolding after_free free_hot_cold_page free_if_full
two_left = refl

a_processor-IsPerCpu : IsPerCpu a_machine 3 a_processor
unfolding sum_below
a_processor-IsPerCpu = (empty-IsValid, refl, some_lists_once)

page_is_new : (q : ℕ) → owned a_machine 3 a_processor q + in_block 28 0 q ≤ 1
unfolding sum_below in_block
page_is_new q = ground (arith, empty_count q)

free_hot_cold_page-Joins_example :
    Joins a_machine 3 number_of (λ n. movable) (omega arith) 28 a_processor after_free
    × (free_hot_cold_page a_machine 3 number_of (λ n. movable) false 28 false a_processor
        ≡ a_processor)
unfolding after_free
free_hot_cold_page-Joins_example =
    free_hot_cold_page-Joins a_machine 3 number_of (λ n. movable) (omega arith) 28 false a_processor
      (omega arith) (omega arith) a_processor-IsPerCpu page_is_new

-- Page 8 is bad, and the list of the processor is filled with it and with page 9.
abbrev single_request : BulkRequest
single_request = record {
  order = 0;
  type = movable;
  cold = false;
  from_cma = false;
  cma_alloc = false;
}

abbrev idle_processor : PerCpu
idle_processor = record { zone = whole_zone; lists = λ t. []; count = 0; high = 4; batch = 2 }

abbrev good_page : ℕ → Bool
good_page page = not (page == 8)

after_alloc : Grab
after_alloc = buffered_rmqueue number_of a_machine single_request good_page 9 idle_processor

bad_page_left : after_alloc.page ≡ some 9
unfolding after_alloc whole_zone free_block put_on_list at_tail merge page_is_buddy rmqueue
    rmqueue_smallest smallest_from expand rmqueue_bulk bulk_rounds buffered_rmqueue take_once
    take_single
bad_page_left = refl

idle-IsPerCpu : IsPerCpu a_machine 3 idle_processor
unfolding sum_below
idle-IsPerCpu = (whole-Frees.0, refl, λ q. omega (arith, whole-Frees.0.disjoint q))

idle_stock : stock a_machine 3 idle_processor ≡ 8
unfolding sum_below
idle_stock = omega (arith, eight_free)

buffered_rmqueue-Allocates_example :
    Allocates a_machine 3 number_of single_request good_page idle_processor after_alloc
unfolding after_alloc
buffered_rmqueue-Allocates_example =
    buffered_rmqueue-Allocates a_machine 3 number_of single_request good_page (omega arith) 9
      idle_processor (omega arith) idle-IsPerCpu (omega (arith, idle_stock))

-- Zone 0 is not allowed, and zone 1 gives a page.
abbrev some_zones : Zones
some_zones z = idle_processor

abbrev from_low : ScanFlags
from_low = record { cpuset = true; wmark_low = true; no_watermarks = false; write = false }

abbrev an_outside : Outside
an_outside = record {
  cpuset_zone_allowed = λ z. z == 1;
  zone_dirty_ok = λ z s. true;
  watermark = λ z s. a_watermark;
  zone_reclaim_mode = false;
  zone_reclaim = λ z s. (noscan, s);
}

found_page : Found
found_page =
    get_page_from_freelist (λ z. a_machine) 3 number_of single_request good_page an_outside from_low
      (0 ∷ 1 ∷ []) some_zones

found_in_second : found_page.page ≡ some (1, 9)
unfolding found_page get_page_from_freelist scan_zone try_this_zone free_pages sum_below
    zone_watermark_ok watermark_ok watermark_rounds whole_zone free_block put_on_list at_tail merge
    page_is_buddy ◌-ℤ◌ rmqueue rmqueue_smallest smallest_from expand rmqueue_bulk bulk_rounds
    buffered_rmqueue take_once take_single
found_in_second = refl

get_page_from_freelist-Finds_example :
    Finds
      (λ z. a_machine)
      3
      number_of
      single_request
      good_page
      an_outside
      from_low
      (0 ∷ 1 ∷ [])
      found_page
unfolding found_page
get_page_from_freelist-Finds_example =
    get_page_from_freelist-Finds (λ z. a_machine) 3 number_of single_request good_page an_outside
      from_low (omega arith) (λ z s right. right) (0 ∷ 1 ∷ []) some_zones
      (λ z. (idle-IsPerCpu, omega arith))
