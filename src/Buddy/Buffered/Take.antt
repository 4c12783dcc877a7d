-- ===== src/Buddy/Buffered/Take.antt =====
-- What a page that is taken from a list of the processor, and a list that is filled, leave in the zone
-- and on the lists.
use osandroid_kernel.Prelude.{
  ℕ, suc, ◌+◌, ◌*◌, ◌^◌, ◌<◌, ◌≡◌, refl, sym, ap, Bool, true, false, Option, none, some, List, [],
  ◌∷◌, ◌++◌, ◌==◌, if◌then◌else◌, arith,
}
use mathlib.Core.Path.{subst}
use osandroid_kernel.Prelude.Lists.{length, length-append}
use osandroid_kernel.Prelude.Families.{put_at, sum_below-put}
use osandroid_kernel.Buddy.{Machine, Migratetype, in_block, free_pages, Aligned}
use osandroid_kernel.Buddy.Alloc.{Answer}
use osandroid_kernel.Buddy.Alloc.Effect.{TakesAnswer}
use osandroid_kernel.Buddy.Bulk.{BulkRequest, remove, rmqueue_bulk}
use osandroid_kernel.Buddy.Bulk.Effect.{
  in_blocks, in_blocks-append, remove-TakesAnswer, rmqueue_bulk-Fills,
}
use osandroid_kernel.Buddy.Pcp.Effect.{held, total}
use osandroid_kernel.Buddy.HotCold.{PerCpu}
use osandroid_kernel.Buddy.HotCold.Effect.{IsPerCpu, owned}
use osandroid_kernel.Buddy.Buffered.{
  from_tail, list_next, take_page, Grab, fill_list, fill_if_empty, take_from_list, take_single,
  take_answer, take_once,
}

in_blocks-from_tail : (ps : List ℕ) (q : ℕ) → in_blocks 0 (from_tail ps) q ≡ in_blocks 0 ps q
in_blocks-from_tail [] q = refl
in_blocks-from_tail (p ∷ ps) q =
    omega (arith, in_blocks-append 0 (from_tail ps) (p ∷ []) q, in_blocks-from_tail ps q)

pub length-from_tail : (ps : List ℕ) → length (from_tail ps) ≡ length ps
length-from_tail [] = refl
length-from_tail (p ∷ ps) =
    omega (arith, length-append (from_tail ps) (p ∷ []), length-from_tail ps)

-- `page` and the pages of `rest` are those of `pages`.
abbrev Parts : List ℕ → ℕ × List ℕ → Type 0
Parts pages (page, rest) =
    ((q : ℕ) → in_blocks 0 pages q ≡ in_block page 0 q + in_blocks 0 rest q)
    × (length pages ≡ suc (length rest))

list_next-Parts : (page : ℕ) (pages : List ℕ) → Parts (page ∷ pages) (list_next page pages)
list_next-Parts page [] = (λ q. refl, refl)
list_next-Parts page (next ∷ pages) =
    let (same, len) = list_next-Parts next pages in (λ q. omega (arith, same q), omega (arith, len))

abbrev pub PartsAnswer : List ℕ → Option (ℕ × List ℕ) → Type 0
PartsAnswer pages none = pages ≡ []
PartsAnswer pages (some taken) = Parts pages taken

pub take_page-Parts : (cold : Bool) (pages : List ℕ) → PartsAnswer pages (take_page cold pages)
take_page-Parts true [] = refl
take_page-Parts false [] = refl
take_page-Parts true (page ∷ pages) = (λ q. refl, refl)
take_page-Parts false (page ∷ pages) = list_next-Parts page pages

module _ (m : Machine) (pcptypes : ℕ) where
  -- How many pages are free or on the lists.
  abbrev pub stock : PerCpu → ℕ
  stock s = free_pages m s.zone + total pcptypes s.lists

  -- `s'` holds the pages of `s` but those of the answered block.
  abbrev pub Leaves : ℕ → PerCpu → Option ℕ → PerCpu → Type 0
  Leaves order s none s' =
      ((q : ℕ) → owned m pcptypes s' q ≡ owned m pcptypes s q) × (stock s' ≡ stock s)
  Leaves order s (some page) s' =
      ((q : ℕ) → owned m pcptypes s' q + in_block page order q ≡ owned m pcptypes s q)
      × (stock s' + 2 ^ order ≡ stock s)
      × Aligned page order

  abbrev pub Grabs : ℕ → PerCpu → Grab → Type 0
  Grabs order s g = IsPerCpu m pcptypes g.state × Leaves order s g.page g.state

  module _ (encode : Migratetype → ℕ) (r : BulkRequest) where
    put_held :
        (index : ℕ) (pages : List ℕ) (lists : ℕ → List ℕ) (q : ℕ)
        → index < pcptypes
        → held pcptypes (put_at index pages lists) q + in_blocks 0 (lists index) q
          ≡ held pcptypes lists q + in_blocks 0 pages q
    put_held index pages lists q lt =
        sum_below-put (λ ps. in_blocks 0 ps q) pcptypes index pages lists lt

    put_total :
        (index : ℕ) (pages : List ℕ) (lists : ℕ → List ℕ)
        → index < pcptypes
        → total pcptypes (put_at index pages lists) + length (lists index)
          ≡ total pcptypes lists + length pages
    put_total index pages lists lt = sum_below-put length pcptypes index pages lists lt

    module _ (single : r.order ≡ 0) (lt : encode r.type < pcptypes) where
      fill_list-Grabs :
          (s : PerCpu)
          → IsPerCpu m pcptypes s
          → s.lists (encode r.type) ≡ []
          → Grabs 0 s (record { page = none; state = fill_list encode m r s })
      fill_list-Grabs s (v, sum, once) e =
          let ((v', same, fewer, len), ends) = rmqueue_bulk-Fills encode m r [] s.zone s.batch v in
          let f = rmqueue_bulk encode m r s.batch [] s.zone in
          let pages : List ℕ = f.front ++ f.back in
          let more = put_total (encode r.type) (from_tail pages) s.lists lt in
          let none_there = ap length e in
          let moved : (q : ℕ) → owned m pcptypes (fill_list encode m r s) q ≡ owned m pcptypes s q =
            λ q. omega (
              arith,
              same q,
              ap (λ o. in_blocks o pages q) single,
              put_held (encode r.type) (from_tail pages) s.lists q lt,
              in_blocks-from_tail pages q,
              ap (λ ps. in_blocks 0 ps q) e,
            ) in
          let grown = length-from_tail pages in
          (
            (
              v',
              omega (arith, sum, more, grown, len, none_there),
              λ q. omega (arith, moved q, once q),
            ),
            (
              moved,
              omega (arith, fewer, ap (λ o. f.taken * 2 ^ o) single, more, grown, len, none_there),
            ),
          )

      fill_if_empty-Grabs :
          (s : PerCpu) (pages : List ℕ)
          → IsPerCpu m pcptypes s
          → s.lists (encode r.type) ≡ pages
          → Grabs 0 s (record { page = none; state = fill_if_empty encode m r pages s })
      fill_if_empty-Grabs s [] valid e = fill_list-Grabs s valid e
      fill_if_empty-Grabs s (page ∷ pages) valid e = (valid, (λ q. refl, refl))

      take_from_list-Grabs :
          (s : PerCpu) (taken : Option (ℕ × List ℕ))
          → IsPerCpu m pcptypes s
          → PartsAnswer (s.lists (encode r.type)) taken
          → Grabs 0 s (take_from_list encode m r taken s)
      take_from_list-Grabs s none valid e = (valid, (λ q. refl, refl))
      take_from_list-Grabs s (some (page, rest)) (v, sum, once) (same, len) =
          let fewer = put_total (encode r.type) rest s.lists lt in
          let left : (q : ℕ)
              → held pcptypes (put_at (encode r.type) rest s.lists) q + in_block page 0 q
                ≡ held pcptypes s.lists q =
            λ q. omega (arith, put_held (encode r.type) rest s.lists q lt, same q) in
          (
            (v, omega (arith, sum, fewer, len), λ q. omega (arith, once q, left q)),
            (λ q. omega (arith, left q), omega (arith, fewer, len), omega arith),
          )

      then_Leaves :
          (s s' s'' : PerCpu) (page : Option ℕ)
          → Leaves 0 s none s'
          → Leaves 0 s' page s''
          → Leaves 0 s page s''
      then_Leaves s s' s'' none (same, size) (same', size') =
          (λ q. omega (arith, same q, same' q), omega (arith, size, size'))
      then_Leaves s s' s'' (some page) (same, size) (same', size', al) =
          (λ q. omega (arith, same q, same' q), omega (arith, size, size'), al)

      take_single-Grabs :
          (s : PerCpu) → IsPerCpu m pcptypes s → Grabs 0 s (take_single encode m r s)
      unfolding take_single
      take_single-Grabs s valid =
          let filled = fill_if_empty encode m r (s.lists (encode r.type)) s in
          let (valid', same) = fill_if_empty-Grabs s (s.lists (encode r.type)) valid refl in
          let pages = filled.lists (encode r.type) in
          let (valid'', left) =
            take_from_list-Grabs filled (take_page r.cold pages) valid'
              (take_page-Parts r.cold pages) in
          let g = take_from_list encode m r (take_page r.cold pages) filled in
          (valid'', then_Leaves s filled g.state g.page same left)

    take_answer-Grabs :
        (s : PerCpu) (a : Answer)
        → IsPerCpu m pcptypes s
        → TakesAnswer m s.zone r.order a
        → Grabs r.order s (take_answer encode m r a s)
    take_answer-Grabs s none valid t = (valid, (λ q. refl, refl))
    take_answer-Grabs s (some (page, z)) (v, sum, once) (v', al, same, fewer) = (
      (v', sum, λ q. omega (arith, once q, same q)),
      (λ q. omega (arith, same q), omega (arith, fewer), al),
    )

    -- What a single round of `buffered_rmqueue` does.
    pub take_once-Grabs :
        (s : PerCpu)
        → encode r.type < pcptypes
        → IsPerCpu m pcptypes s
        → Grabs r.order s (take_once encode m r s)
    unfolding take_once
    take_once-Grabs s lt valid = split (r.order == 0) refl
      where
        split :
            (b : Bool)
            → (r.order == 0) ≡ b
            → Grabs r.order s (
                if b
                then take_single encode m r s
                else take_answer encode m r (remove m r s.zone) s)
        split true e =
            let single : r.order ≡ 0 = ground (arith, e) in
            subst (λ o. Grabs o s (take_single encode m r s)) (sym single)
              (take_single-Grabs single lt s valid)
        split false e =
            take_answer-Grabs s (remove m r s.zone) valid (remove-TakesAnswer m r s.zone valid.0)
