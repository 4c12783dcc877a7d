-- ===== src/Buddy/Bulk.antt =====
-- `__rmqueue_cma` and `rmqueue_bulk` of hw5/mm/page_alloc.c: many blocks under a single hold of the
-- lock. The cursor `list` of the source stands between `front` and `back`. What
-- `get_pageblock_migratetype` tells is the type of the page's block, and `encode` is the number of
-- a type.
pub mod Mark
pub mod Effect
use osandroid_kernel.Prelude.{
  ℕ, zero, suc, ◌+◌, ◌-◌, ◌*◌, ◌/◌, ◌^◌, Bool, true, false, not, ◌&&◌, Option, none, some, List, [],
  ◌∷◌, ◌++◌, if◌then◌else◌,
}
use osandroid_kernel.Prelude.Families.{put_at}
use osandroid_kernel.Buddy.{Machine, Zone, Migratetype, movable, cma, isolate, same_type}
use osandroid_kernel.Buddy.Alloc.{Answer, rmqueue_smallest}
use osandroid_kernel.Buddy.Fallback.{is_cma, or_else, rmqueue}

-- `__rmqueue_cma`; `cma_alloc` is the field of the zone.
unfoldable pub rmqueue_cma :
    Machine → (cma_alloc : Bool) → (order : ℕ) → Migratetype → Zone → Answer
rmqueue_cma m cma_alloc order type z =
    or_else
      (if m.config_cma && same_type type movable && not cma_alloc
        then rmqueue_smallest m order cma z
        else none)
      (rmqueue m order type z)

-- The arguments of `rmqueue_bulk`, with the field `cma_alloc` of the zone.
pub record BulkRequest : Type 0 where
  pub order : ℕ
  pub type : Migratetype
  pub cold : Bool
  pub from_cma : Bool
  pub cma_alloc : Bool

-- `taken` is `i`; `cma_taken` is what NR_FREE_CMA_PAGES goes down by, and the count of free pages goes
-- down by `taken << order`.
pub record Filling : Type 0 where
  pub zone : Zone
  pub front : List ℕ
  pub back : List ℕ
  pub taken : ℕ
  pub cma_taken : ℕ

-- The type that a page of the request is marked with.
abbrev pub marked_type : Machine → BulkRequest → Migratetype → Migratetype
marked_type m r block_type =
    if m.config_cma
    then (if not (is_cma m block_type) && not (same_type block_type isolate)
        then r.type
        else block_type)
    else r.type

abbrev pub set_page_private : ℕ → ℕ → Zone → Zone
set_page_private page n z = record z { page_private = put_at page n z.page_private }

abbrev pub remove : Machine → BulkRequest → Zone → Answer
remove m r z =
    if r.from_cma then rmqueue_cma m r.cma_alloc r.order r.type z else rmqueue m r.order r.type z

module _ (encode : Migratetype → ℕ) where
  -- The page goes to the list, next to the cursor, which moves to it.
  abbrev pub add_page : Machine → BulkRequest → ℕ → Zone → Filling → Filling
  add_page m r page z s =
      let mt = marked_type m r (z.pageblock_type (page / 2 ^ m.pageblock_order)) in
      record {
        zone = set_page_private page (encode mt) z;
        front = if r.cold then s.front else s.front ++ page ∷ [];
        back = if r.cold then page ∷ s.back else s.back;
        taken = suc s.taken;
        cma_taken = if is_cma m mt then s.cma_taken + 2 ^ r.order else s.cma_taken;
      }

  -- The loop goes on after a page, and stops at NULL.
  abbrev pub add_answer : Machine → BulkRequest → Answer → (Filling → Filling) → Filling → Filling
  add_answer m r none loop s = s
  add_answer m r (some (page, z)) loop s = loop (add_page m r page z s)

  unfoldable pub bulk_rounds : ℕ → Machine → BulkRequest → Filling → Filling
  bulk_rounds zero m r s = s
  bulk_rounds (suc rounds) m r s = add_answer m r (remove m r s.zone) (bulk_rounds rounds m r) s

  -- At the tail for `cold`, and else at the head.
  unfoldable pub rmqueue_bulk : Machine → BulkRequest → (count : ℕ) → List ℕ → Zone → Filling
  rmqueue_bulk m r count list z = bulk_rounds count m r (record {
    zone = z;
    front = if r.cold then list else [];
    back = if r.cold then [] else list;
    taken = 0;
    cma_taken = 0;
  })
