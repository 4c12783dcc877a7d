-- ===== src/Buddy/Bulk/Effect.antt =====
-- What `rmqueue_bulk` does to the zone and to the list.
use osandroid_kernel.Prelude.{
  ℕ, zero, suc, ◌+◌, ◌*◌, ◌/◌, ◌^◌, ◌≡◌, refl, Bool, true, false, not, ◌&&◌, none, some, List, [],
  ◌∷◌, ◌++◌, ◌⊎◌, inl, inr, if◌then◌else◌, if_elim, arith,
}
use mathlib.Core.Path.{subst}
use osandroid_kernel.Prelude.Lists.{length, length-append}
use osandroid_kernel.Buddy.{
  Machine, Zone, Migratetype, movable, cma, same_type, in_block, free_count, free_pages, IsValid,
}
use osandroid_kernel.Buddy.Blocks.{marked-free_count}
use osandroid_kernel.Buddy.Alloc.{Answer, rmqueue_smallest}
use osandroid_kernel.Buddy.Alloc.Effect.{Takes, TakesAnswer, rmqueue_smallest-TakesAnswer}
use osandroid_kernel.Buddy.Fallback.{rmqueue}
use osandroid_kernel.Buddy.Fallback.Rmqueue.{or_else-TakesAnswer, rmqueue-TakesAnswer}
use osandroid_kernel.Buddy.Bulk.Mark.{
  free_count-set_private, free_pages-set_private, set_page_private-IsValid,
}
use osandroid_kernel.Buddy.Bulk.{
  rmqueue_cma, BulkRequest, Filling, marked_type, remove, add_page, add_answer, bulk_rounds,
  rmqueue_bulk,
}

-- How many of the blocks of the order at `pages` hold page `q`.
abbrev pub in_blocks : ℕ → List ℕ → ℕ → ℕ
in_blocks order [] q = 0
in_blocks order (page ∷ pages) q = in_block page order q + in_blocks order pages q

pub in_blocks-append :
    (order : ℕ) (ps qs : List ℕ) (q : ℕ)
    → in_blocks order (ps ++ qs) q ≡ in_blocks order ps q + in_blocks order qs q
in_blocks-append order [] qs q = omega arith
in_blocks-append order (p ∷ ps) qs q = omega (arith, in_blocks-append order ps qs q)

module _ (m : Machine) where
  rmqueue_cma-TakesAnswer :
      (cma_alloc : Bool) (order : ℕ) (type : Migratetype) (z : Zone)
      → IsValid m z
      → TakesAnswer m z order (rmqueue_cma m cma_alloc order type z)
  unfolding rmqueue_cma
  rmqueue_cma-TakesAnswer cma_alloc order type z v =
      or_else-TakesAnswer m z v order
        (if m.config_cma && same_type type movable && not cma_alloc
          then rmqueue_smallest m order cma z
          else none)
        (rmqueue m order type z)
        (if_elim (TakesAnswer m z order) (m.config_cma && same_type type movable && not cma_alloc)
          (rmqueue_smallest m order cma z) none (rmqueue_smallest-TakesAnswer m z v order cma) tt)
        (rmqueue-TakesAnswer m z v order type)

  pub remove-TakesAnswer :
      (r : BulkRequest) (z : Zone) → IsValid m z → TakesAnswer m z r.order (remove m r z)
  remove-TakesAnswer r z v =
      if_elim (TakesAnswer m z r.order) r.from_cma (rmqueue_cma m r.cma_alloc r.order r.type z)
        (rmqueue m r.order r.type z) (rmqueue_cma-TakesAnswer r.cma_alloc r.order r.type z v)
        (rmqueue-TakesAnswer m z v r.order r.type)

-- The zone of `s` and the blocks on its list are what `z` and the list were, and the counts are right.
abbrev pub Fills : Machine → BulkRequest → List ℕ → Zone → Filling → Type 0
Fills m r list z s =
    IsValid m s.zone
    × ((q : ℕ)
        → free_count m s.zone q + in_blocks r.order (s.front ++ s.back) q
          ≡ free_count m z q + in_blocks r.order list q)
    × (free_pages m s.zone + s.taken * 2 ^ r.order ≡ free_pages m z)
    × (length (s.front ++ s.back) ≡ s.taken + length list)

-- The loop has gone through its rounds, or there is no block left for the request.
abbrev pub Ends : Machine → BulkRequest → ℕ → Filling → Type 0
Ends m r goal s = (s.taken ≡ goal) ⊎ (remove m r s.zone ≡ none)

module _ (encode : Migratetype → ℕ) (m : Machine) (r : BulkRequest) (list : List ℕ) (z : Zone) where
  page_unmarked :
      (page : ℕ) (old new : Zone)
      → IsValid m old
      → Takes m old page r.order new
      → new.page_buddy page ≡ false
  unfolding in_block
  page_unmarked page old new v (v', al, same, sum) =
      ground (arith, same page, v.disjoint page, marked-free_count m new v' page)

  in_blocks-add :
      (page : ℕ) (s : Filling) (new : Zone) (q : ℕ)
      → in_blocks r.order
          ((add_page encode m r page new s).front ++ (add_page encode m r page new s).back)
          q
        ≡ in_block page r.order q + in_blocks r.order (s.front ++ s.back) q
  in_blocks-add page s new q = split r.cold
    where
      split :
          (cold : Bool)
          → in_blocks r.order
              ((if cold then s.front else s.front ++ page ∷ [])
                ++ (if cold then page ∷ s.back else s.back))
              q
            ≡ in_block page r.order q + in_blocks r.order (s.front ++ s.back) q
      split true = omega (
        arith,
        in_blocks-append r.order s.front (page ∷ s.back) q,
        in_blocks-append r.order s.front s.back q,
      )
      split false = omega (
        arith,
        in_blocks-append r.order (s.front ++ page ∷ []) s.back q,
        in_blocks-append r.order s.front (page ∷ []) q,
        in_blocks-append r.order s.front s.back q,
      )

  length-add :
      (page : ℕ) (s : Filling) (new : Zone)
      → length ((add_page encode m r page new s).front ++ (add_page encode m r page new s).back)
        ≡ suc (length (s.front ++ s.back))
  length-add page s new = split r.cold
    where
      split :
          (cold : Bool)
          → length (
              (if cold then s.front else s.front ++ page ∷ [])
              ++ (if cold then page ∷ s.back else s.back))
            ≡ suc (length (s.front ++ s.back))
      split true =
          omega (arith, length-append s.front (page ∷ s.back), length-append s.front s.back)
      split false = omega (
        arith,
        length-append (s.front ++ page ∷ []) s.back,
        length-append s.front (page ∷ []),
        length-append s.front s.back,
      )

  add_page-Fills :
      (page : ℕ) (s : Filling) (new : Zone)
      → Fills m r list z s
      → Takes m s.zone page r.order new
      → Fills m r list z (add_page encode m r page new s)
  add_page-Fills page s new (v, same, sum, len) t =
      let mt = marked_type m r (new.pageblock_type (page / 2 ^ m.pageblock_order)) in
      let free = page_unmarked page s.zone new v t in
      let (v', al, taken, removed) = t in
      (
        set_page_private-IsValid m new v' page (encode mt) free,
        λ q. omega (
          arith,
          same q,
          taken q,
          in_blocks-add page s new q,
          free_count-set_private m new v' page (encode mt) free q,
        ),
        omega (arith, sum, removed, free_pages-set_private m new v' page (encode mt) free),
        omega (arith, len, length-add page s new),
      )

  bulk_rounds-Fills :
      (rounds : ℕ) (s : Filling)
      → Fills m r list z s
      → Fills m r list z (bulk_rounds encode rounds m r s)
  unfolding bulk_rounds
  bulk_rounds-Fills zero s h = h
  bulk_rounds-Fills (suc rounds) s h =
      go (remove m r s.zone) (remove-TakesAnswer m r s.zone h.0)
        (λ s' h'. bulk_rounds-Fills rounds s' h')
    where
      go :
          (a : Answer)
          → TakesAnswer m s.zone r.order a
          → ((s' : Filling)
              → Fills m r list z s'
              → Fills m r list z (bulk_rounds encode rounds m r s'))
          → Fills m r list z (add_answer encode m r a (bulk_rounds encode rounds m r) s)
      go none t ih = h
      go (some (page, new)) t ih =
          ih (add_page encode m r page new s) (add_page-Fills page s new h t)

  bulk_rounds-Ends :
      (rounds : ℕ) (s : Filling) → Ends m r (rounds + s.taken) (bulk_rounds encode rounds m r s)
  unfolding bulk_rounds
  bulk_rounds-Ends zero s = inl (omega arith)
  bulk_rounds-Ends (suc rounds) s = go (remove m r s.zone) refl (λ s'. bulk_rounds-Ends rounds s')
    where
      go :
          (a : Answer)
          → remove m r s.zone ≡ a
          → ((s' : Filling) → Ends m r (rounds + s'.taken) (bulk_rounds encode rounds m r s'))
          → Ends m r
              (suc rounds + s.taken)
              (add_answer encode m r a (bulk_rounds encode rounds m r) s)
      go none e ih = inr e
      go (some (page, new)) e ih =
          subst (λ n. Ends m r n (bulk_rounds encode rounds m r (add_page encode m r page new s)))
            (omega arith) (ih (add_page encode m r page new s))

  -- In a valid zone `rmqueue_bulk` moves blocks from the free lists to the list and loses none: each page is in as
  -- many blocks of the two as before, and the number it answers is that of the blocks added and
  -- accounts for the pages that have left. It falls short of `count` only when the zone has no block
  -- left for the request.
  pub rmqueue_bulk-Fills :
      (count : ℕ)
      → IsValid m z
      → Fills m r list z (rmqueue_bulk encode m r count list z)
        × Ends m r count (rmqueue_bulk encode m r count list z)
  unfolding rmqueue_bulk
  rmqueue_bulk-Fills count v = (
    bulk_rounds-Fills count (first r.cold) (start r.cold),
    subst (λ n. Ends m r n (bulk_rounds encode count m r (first r.cold))) (omega arith)
        (bulk_rounds-Ends count (first r.cold)),
  )
    where
      first : Bool → Filling
      first cold = record {
        zone = z;
        front = if cold then list else [];
        back = if cold then [] else list;
        taken = 0;
        cma_taken = 0;
      }

      start : (cold : Bool) → Fills m r list z (first cold)
      start true = (
        v,
        λ q. omega (arith, in_blocks-append r.order list [] q),
        omega arith,
        omega (arith, length-append list []),
      )
      start false = (v, λ q. refl, omega arith, omega arith)
