-- ===== src/Buddy/Fallback.antt =====
-- `__rmqueue_fallback` and `__rmqueue` of hw5/mm/page_alloc.c: a block of another type is taken when
-- the lists of the type asked for are empty.
pub mod Lists
pub mod Effect
pub mod Rmqueue
pub mod Found
use Prim.Native.Nat.{bit_and}
use osandroid_kernel.Prelude.{
  ℕ, zero, suc, ◌+◌, ◌-◌, ◌/◌, ◌^◌, Bool, true, false, not, ◌&&◌, ◌||◌, Option, none, some, List,
  [], ◌∷◌, ltb, leb, ◌==◌, if◌then◌else◌,
}
use osandroid_kernel.Prelude.Families.{put_at}
use osandroid_kernel.Buddy.{
  Machine, Zone, Migratetype, unmovable, reclaimable, movable, reserve, cma, isolate, same_type,
  del, list_del, rmv_page_order, dec_nr_free,
}
use osandroid_kernel.Buddy.Alloc.{expand, Answer, first_or, rmqueue_smallest}

-- `is_migrate_cma`.
abbrev pub is_cma : Machine → Migratetype → Bool
is_cma m type = m.config_cma && same_type type cma

-- The rows of `fallbacks`; the row of `MIGRATE_CMA` is there with CONFIG_CMA only.
unfoldable pub fallbacks : Machine → Migratetype → List Migratetype
fallbacks m unmovable = reclaimable ∷ movable ∷ reserve ∷ []
fallbacks m reclaimable = unmovable ∷ movable ∷ reserve ∷ []
fallbacks m movable =
    if m.config_cma
    then cma ∷ reclaimable ∷ unmovable ∷ reserve ∷ []
    else reclaimable ∷ unmovable ∷ reserve ∷ []
fallbacks m cma = reserve ∷ []
fallbacks m reserve = reserve ∷ []
fallbacks m isolate = reserve ∷ []

-- The lists of the free areas.
abbrev pub Areas : Type 0
Areas = ℕ → Migratetype → List ℕ

abbrev pub list_move : ℕ → (order : ℕ) → Migratetype → Areas → Areas
list_move page order type lists o t =
    let rest = del page (lists o t) in
    if (o == order) && same_type t type then page ∷ rest else rest

-- The variables of the loop of `move_freepages`, with the lists, which are all it changes.
pub record Moving : Type 0 where
  pub page : ℕ
  pub pages_moved : ℕ
  pub lists : Areas

unfoldable pub move_one : Machine → Zone → Migratetype → Moving → Moving
move_one m z type s =
    if not (m.pfn_valid_within s.page)
    then record s { page = suc s.page }
    else if not (z.page_buddy s.page)
    then record s { page = suc s.page }
    else (let order = z.page_private s.page in
        record {
          page = s.page + 2 ^ order;
          pages_moved = s.pages_moved + 2 ^ order;
          lists = list_move s.page order type s.lists;
        })

unfoldable pub move_rounds : ℕ → Machine → Zone → (end_page : ℕ) → Migratetype → Moving → Moving
move_rounds zero m z end_page type s = s
move_rounds (suc rounds) m z end_page type s =
    let rest = move_rounds rounds m z end_page type (move_one m z type s) in
    if leb s.page end_page then rest else s

-- With a round for each page of the range.
unfoldable pub move_freepages : Machine → (start_page end_page : ℕ) → Migratetype → Zone → Zone × ℕ
move_freepages m start_page end_page type z =
    let s =
      move_rounds (suc end_page - start_page) m z end_page type
        (record { page = start_page; pages_moved = 0; lists = z.free_list }) in
    (record z { free_list = s.lists }, s.pages_moved)

unfoldable pub move_freepages_block : Machine → ℕ → Migratetype → Zone → Zone × ℕ
move_freepages_block m page type z =
    let start_pfn = page - bit_and page (2 ^ m.pageblock_order - 1) in
    let end_pfn = start_pfn + 2 ^ m.pageblock_order - 1 in
    let start_page = if ltb start_pfn m.zone_start_pfn then page else start_pfn in
    if leb (m.zone_start_pfn + m.spanned_pages) end_pfn
    then (z, 0)
    else move_freepages m start_page end_pfn type z

unfoldable pub set_pageblock_migratetype : Machine → ℕ → Migratetype → Zone → Zone
set_pageblock_migratetype m page type z = record z {
  pageblock_type =
      put_at (page / 2 ^ m.pageblock_order)
        (if m.page_group_by_mobility_disabled then unmovable else type) z.pageblock_type;
}

-- The loop of `change_pageblock_range`, and the call of it.
unfoldable pub change_pageblocks : ℕ → Machine → ℕ → Migratetype → Zone → Zone
change_pageblocks zero m page type z = z
change_pageblocks (suc nr_pageblocks) m page type z =
    change_pageblocks nr_pageblocks m (page + 2 ^ m.pageblock_order) type
      (set_pageblock_migratetype m page type z)

abbrev pub change_pageblock_range : Machine → ℕ → (start_order : ℕ) → Migratetype → Zone → Zone
change_pageblock_range m page start_order type z =
    change_pageblocks (2 ^ (start_order - m.pageblock_order)) m page type z

-- Whether the free pages around a block that is broken up change their type.
abbrev pub changes_type : Machine → (current_order : ℕ) → (start type : Migratetype) → Bool
changes_type m current_order start type =
    not (is_cma m type)
    && (leb (m.pageblock_order / 2) current_order
        || same_type start reclaimable
        || m.page_group_by_mobility_disabled)

-- The free pages of the block change their list, and over half of it claims it whole.
unfoldable pub change_type : Machine → ℕ → Migratetype → Zone → Zone
change_type m page start z =
    let (moved, pages) = move_freepages_block m page start z in
    if leb (2 ^ (m.pageblock_order - 1)) pages || m.page_group_by_mobility_disabled
    then set_pageblock_migratetype m page start moved
    else moved

-- What `__rmqueue_fallback` does with the page it has found on a list of `type`.
unfoldable pub take_fallback :
    Machine → (order current_order : ℕ) → (start type : Migratetype) → ℕ → Zone → Zone
take_fallback m order current_order start type page z =
    let changes = changes_type m current_order start type in
    let counted = dec_nr_free current_order z in
    let arranged = if changes then change_type m page start counted else counted in
    let now = if changes then start else type in
    let removed = rmv_page_order page (list_del page arranged) in
    let owned =
      if leb m.pageblock_order current_order && not (is_cma m now)
      then change_pageblock_range m page current_order start removed
      else removed in
    expand page order current_order (if is_cma m now then now else start) owned

-- The inner loop; `MIGRATE_RESERVE` ends it.
unfoldable pub fallback_types :
    Machine
    → (order current_order : ℕ) → (start : Migratetype) → List Migratetype
    → Zone
    → Answer
    → Answer
fallback_types m order current_order start [] z other = other
fallback_types m order current_order start (type ∷ types) z other =
    let rest = fallback_types m order current_order start types z other in
    if same_type type reserve
    then other
    else first_or (z.free_list current_order type)
        (λ page. some (page, take_fallback m order current_order start type page z)) rest

-- The outer loop, from the greatest order down, with the orders that are left.
unfoldable pub fallback_from : ℕ → Machine → (order : ℕ) → (start : Migratetype) → Zone → Answer
fallback_from zero m order start z = none
fallback_from (suc rounds) m order start z =
    fallback_types m order (order + rounds) start (fallbacks m start) z
      (fallback_from rounds m order start z)

unfoldable pub rmqueue_fallback : Machine → (order : ℕ) → (start : Migratetype) → Zone → Answer
rmqueue_fallback m order start z = fallback_from (m.max_order - order) m order start z

-- What comes when the answer is NULL.
abbrev pub or_else : Answer → Answer → Answer
or_else none other = other
or_else (some found) other = some found

-- `__rmqueue`.
unfoldable pub rmqueue : Machine → (order : ℕ) → Migratetype → Zone → Answer
rmqueue m order type z = or_else (rmqueue_smallest m order type z) (
    if same_type type reserve
    then none
    else or_else (rmqueue_fallback m order type z) (rmqueue_smallest m order reserve z))
