-- ===== src/Buddy.antt =====
-- The buddy allocator of hw5/mm/page_alloc.c: the free lists of a zone and the marks that its free
-- pages carry. A page is its frame number, and a list of `list.h` is the sequence of its pages. The
-- configuration has no guard pages (CONFIG_DEBUG_PAGEALLOC); `struct zone` and the constants of
-- mmzone.h, which are not among the sources, appear as far as this file uses them.
mod Bits
pub mod Pairs
pub mod Alloc
pub mod Blocks
pub mod Free
pub mod Fallback
pub mod Round
pub mod Buffered
pub mod Zonelist
pub mod Bulk
pub mod Pcp
pub mod Watermark
pub mod HotCold
mod Tests
use osandroid_kernel.Prelude.{
  ℕ, suc, ◌+◌, ◌-◌, ◌*◌, ◌/◌, ◌^◌, ◌≤◌, ◌<◌, ◌≡◌, Bool, true, false, not, ◌&&◌, List, [], ◌∷◌, ◌++◌,
  ◌==◌, if◌then◌else◌,
}
use osandroid_kernel.Prelude.Lists.{length}
use osandroid_kernel.Prelude.Families.{put_at, sum_below}
use osandroid_kernel.Buddy.Bits.{twin}

-- The `MIGRATE_` types.
pub data Migratetype : Type 0 where
  unmovable reclaimable movable reserve cma isolate : Migratetype

abbrev pub same_type : Migratetype → Migratetype → Bool
same_type unmovable unmovable = true
same_type reclaimable reclaimable = true
same_type movable movable = true
same_type reserve reserve = true
same_type cma cma = true
same_type isolate isolate = true
same_type s t = false

-- What the machine and the configuration decide.
pub record Machine : Type 0 where
  pub max_order : ℕ
  pub pageblock_order : ℕ
  pub config_cma : Bool
  pub page_group_by_mobility_disabled : Bool
  pub zone_start_pfn : ℕ
  pub spanned_pages : ℕ
  pub pfn_valid_within : ℕ → Bool
  pub page_zone_id : ℕ → ℕ

-- `free_list order type` and `nr_free order` are `free_area[order]`; `page_buddy` and `page_private`
-- are the mark and the field of a `struct page` of the zone, and `pageblock_type` is the type of
-- each block of 2 ^ pageblock_order pages.
pub record Zone : Type 0 where
  pub free_list : ℕ → Migratetype → List ℕ
  pub nr_free : ℕ → ℕ
  pub page_buddy : ℕ → Bool
  pub page_private : ℕ → ℕ
  pub pageblock_type : ℕ → Migratetype

-- `list_del`: the page leaves the list it is in.
abbrev pub del : ℕ → List ℕ → List ℕ
del page [] = []
del page (q ∷ qs) = let rest = del page qs in if q == page then rest else q ∷ rest

abbrev pub list_del : ℕ → Zone → Zone
list_del page z = record z { free_list = λ o t. del page (z.free_list o t) }

abbrev pub put_list : ℕ → Migratetype → List ℕ → Zone → Zone
put_list order type pages z = record z {
  free_list = λ o t. if (o == order) && same_type t type then pages else z.free_list o t;
}

abbrev pub list_add : ℕ → ℕ → Migratetype → Zone → Zone
list_add page order type z = put_list order type (page ∷ z.free_list order type) z

abbrev pub list_add_tail : ℕ → ℕ → Migratetype → Zone → Zone
list_add_tail page order type z = put_list order type (z.free_list order type ++ page ∷ []) z

abbrev pub set_page_order : ℕ → ℕ → Zone → Zone
set_page_order page order z = record z {
  page_private = put_at page order z.page_private;
  page_buddy = put_at page true z.page_buddy;
}

abbrev pub rmv_page_order : ℕ → Zone → Zone
rmv_page_order page z = record z {
  page_buddy = put_at page false z.page_buddy;
  page_private = put_at page 0 z.page_private;
}

abbrev pub inc_nr_free : ℕ → Zone → Zone
inc_nr_free order z = record z { nr_free = put_at order (z.nr_free order + 1) z.nr_free }

abbrev pub dec_nr_free : ℕ → Zone → Zone
dec_nr_free order z = record z { nr_free = put_at order (z.nr_free order - 1) z.nr_free }

-- The page heads a free block of 2 ^ order pages.
abbrev pub is_head : Zone → ℕ → ℕ → Bool
is_head z page order = z.page_buddy page && (z.page_private page == order)

unfoldable pub page_is_buddy : Machine → Zone → ℕ → ℕ → ℕ → Bool
page_is_buddy m z page buddy order =
    if not (m.pfn_valid_within buddy)
    then false
    else if not (m.page_zone_id page == m.page_zone_id buddy)
    then false
    else is_head z buddy order

abbrev pub one_if : Bool → ℕ
one_if true = 1
one_if false = 0

-- 1 for the pages of the block of 2 ^ order pages around `page`, and 0 for the others.
unfoldable pub in_block : ℕ → ℕ → ℕ → ℕ
in_block page order q = one_if (q / 2 ^ order == page / 2 ^ order)

-- 1 when page `q` is in a free block of that order.
unfoldable pub in_free_block : Zone → ℕ → ℕ → ℕ
in_free_block z q order = one_if (is_head z (q / 2 ^ order * 2 ^ order) order)

-- How many free blocks page `q` is in.
unfoldable pub free_count : Machine → Zone → ℕ → ℕ
free_count m z q = sum_below (λ n. n) m.max_order (in_free_block z q)

-- How many pages the counters of the lists stand for.
unfoldable pub free_pages : Machine → Zone → ℕ
free_pages m z = sum_below (λ n. n) m.max_order (λ o. z.nr_free o * 2 ^ o)

abbrev pub count : ℕ → List ℕ → ℕ
count page [] = 0
count page (q ∷ qs) = one_if (q == page) + count page qs

abbrev pub sum_types : (Migratetype → ℕ) → ℕ
sum_types f = f unmovable + f reclaimable + f movable + f reserve + f cma + f isolate

abbrev pub Aligned : ℕ → ℕ → Type 0
Aligned page order = page / 2 ^ order * 2 ^ order ≡ page

-- The lists, the counters and the marks agree, no page is in two free blocks, and no free block has a
-- buddy that it could merge with.
pub record IsValid (m : Machine) (z : Zone) : Type 0 where
  pub aligned :
      (p : ℕ)
      → z.page_buddy p ≡ true
      → (z.page_private p < m.max_order) × Aligned p (z.page_private p)
  pub listed : (p o : ℕ) → sum_types (λ t. count p (z.free_list o t)) ≡ one_if (is_head z p o)
  pub counted : (o : ℕ) → z.nr_free o ≡ sum_types (λ t. length (z.free_list o t))
  pub disjoint : (q : ℕ) → free_count m z q ≤ 1
  pub coalesced :
      (x o : ℕ)
      → suc o < m.max_order
      → m.pfn_valid_within (x * 2 ^ o) ≡ true
      → is_head z (x * 2 ^ o) o ≡ true
      → page_is_buddy m z (x * 2 ^ o) (twin x * 2 ^ o) o ≡ false

-- No page of the block is free.
abbrev pub Room : Machine → Zone → ℕ → ℕ → Type 0
Room m z page order = (q : ℕ) → free_count m z q + in_block page order q ≤ 1
