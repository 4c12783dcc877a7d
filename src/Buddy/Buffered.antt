-- ===== src/Buddy/Buffered.antt =====
-- `buffered_rmqueue` of hw5/mm/page_alloc.c: a single page comes from the list of the processor, which
-- is filled from the zone when it is empty, and a larger block from the zone. The lists are held from
-- the tail on, as for `free_hot_cold_page`, and `accepted` is whether `prep_new_page` answers 0.
pub mod Take
pub mod Empty
pub mod Effect
use osandroid_kernel.Prelude.{
  ℕ, zero, suc, ◌+◌, ◌-◌, Bool, true, false, Option, none, some, List, [], ◌∷◌, ◌++◌, ◌==◌,
  if◌then◌else◌,
}
use osandroid_kernel.Prelude.Families.{put_at}
use osandroid_kernel.Buddy.{Machine, Migratetype}
use osandroid_kernel.Buddy.Alloc.{Answer}
use osandroid_kernel.Buddy.Bulk.{BulkRequest, remove, rmqueue_bulk}
use osandroid_kernel.Buddy.HotCold.{PerCpu}

-- A list from its tail on.
abbrev pub from_tail : List ℕ → List ℕ
from_tail [] = []
from_tail (page ∷ pages) = from_tail pages ++ page ∷ []

-- The page at the head of a list that is held from the tail on, and the others.
abbrev pub list_next : ℕ → List ℕ → ℕ × List ℕ
list_next page [] = (page, [])
list_next page (next ∷ pages) = let rest = list_next next pages in (rest.0, page ∷ rest.1)

abbrev pub take_page : (cold : Bool) → List ℕ → Option (ℕ × List ℕ)
take_page cold [] = none
take_page true (page ∷ pages) = some (page, pages)
take_page false (page ∷ pages) = some (list_next page pages)

-- What a function answers, with the state that it leaves.
pub record Grab : Type 0 where
  pub page : Option ℕ
  pub state : PerCpu

module _ (encode : Migratetype → ℕ) (m : Machine) (r : BulkRequest) where
  -- `rmqueue_bulk` on an empty list.
  abbrev pub fill_list : PerCpu → PerCpu
  fill_list s =
      let f = rmqueue_bulk encode m r s.batch [] s.zone in
      record s {
        zone = f.zone;
        lists = put_at (encode r.type) (from_tail (f.front ++ f.back)) s.lists;
        count = s.count + f.taken;
      }

  abbrev pub fill_if_empty : List ℕ → PerCpu → PerCpu
  fill_if_empty [] s = fill_list s
  fill_if_empty (page ∷ pages) s = s

  abbrev pub take_from_list : Option (ℕ × List ℕ) → PerCpu → Grab
  take_from_list none s = record { page = none; state = s }
  take_from_list (some (page, rest)) s = record {
    page = some page;
    state = record s { lists = put_at (encode r.type) rest s.lists; count = s.count - 1 };
  }

  -- The branch for a single page.
  unfoldable pub take_single : PerCpu → Grab
  take_single s =
      let filled : PerCpu = fill_if_empty (s.lists (encode r.type)) s in
      take_from_list (take_page r.cold (filled.lists (encode r.type))) filled

  -- The branch for a larger block.
  abbrev pub take_answer : Answer → PerCpu → Grab
  take_answer none s = record { page = none; state = s }
  take_answer (some (page, z)) s = record { page = some page; state = record s { zone = z } }

  unfoldable pub take_once : PerCpu → Grab
  take_once s = if r.order == 0 then take_single s else take_answer (remove m r s.zone) s

  module _ (accepted : ℕ → Bool) where
    -- `again` for a page that `prep_new_page` refuses, which stays out of all lists.
    abbrev pub try_again : (PerCpu → Grab) → Option ℕ → PerCpu → Grab
    try_again loop none s = record { page = none; state = s }
    try_again loop (some page) s =
        let next = loop s in
        if accepted page then (record { page = some page; state = s }) else next

    unfoldable pub buffered_rmqueue : (rounds : ℕ) → PerCpu → Grab
    buffered_rmqueue zero s = record { page = none; state = s }
    buffered_rmqueue (suc rounds) s =
        let g = take_once s in try_again (buffered_rmqueue rounds) g.page g.state
