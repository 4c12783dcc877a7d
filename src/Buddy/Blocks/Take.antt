-- ===== src/Buddy/Blocks/Take.antt =====
-- A block leaves the free lists: its pages are free no more, and the zone stays valid.
use osandroid_kernel.Prelude.{
  ℕ, suc, ◌+◌, ◌*◌, ◌/◌, ◌^◌, ◌≤◌, ◌<◌, ◌≡◌, ◌≢◌, sym, ap, true, false, ◌==◌, if◌then◌else◌, arith,
}
use osandroid_kernel.Buddy.Bits.{twin}
use osandroid_kernel.Buddy.{
  Machine, page_is_buddy, Zone, unmovable, reclaimable, movable, reserve, cma, isolate, is_head,
  in_block, in_free_block, free_count, free_pages, Aligned, IsValid,
}
use osandroid_kernel.Buddy.Blocks.{
  sum-change, count-del, length-del, count-le-length, base-block, take_block, head_buddy,
  head_private,
}

module _ (m : Machine) (z : Zone) (v : IsValid m z) (page order : ℕ) where
  module _ (head : is_head z page order ≡ true) where
    pub head_fits : (order < m.max_order) × Aligned page order
    head_fits =
        rw (sym (head_private z page order head)) (v.aligned page (head_buddy z page order head))

    is_head-take :
        (p o : ℕ)
        → is_head (take_block page order z) p o ≡ (if p == page then false else is_head z p o)
    is_head-take p o = ground arith

    in_free_block-take :
        (q o : ℕ) → o ≢ order → in_free_block (take_block page order z) q o ≡ in_free_block z q o
    unfolding in_free_block
    in_free_block-take q o ne = ground (
      arith,
      is_head-take (q / 2 ^ o * 2 ^ o) o,
      head_private z page order head,
      head_private z (q / 2 ^ o * 2 ^ o) o,
    )

    in_free_block-take_here :
        (q : ℕ)
        → in_free_block z q order
          ≡ in_free_block (take_block page order z) q order + in_block page order q
    unfolding in_free_block in_block
    in_free_block-take_here q = ground (
      arith,
      is_head-take (q / 2 ^ order * 2 ^ order) order,
      base-block page q order head_fits.1,
      head,
    )

    pub free_count-take_block :
        (q : ℕ)
        → free_count m z q ≡ free_count m (take_block page order z) q + in_block page order q
    unfolding free_count
    free_count-take_block q =
        sum-change (in_free_block (take_block page order z) q) (in_free_block z q) m.max_order order
          (in_block page order q) head_fits.0 (in_free_block-take_here q)
          (λ o ne. sym (in_free_block-take q o ne))

    was_counted : 1 ≤ z.nr_free order
    was_counted = ground (
      arith,
      v.counted order,
      v.listed page order,
      count-le-length page (z.free_list order unmovable),
      count-le-length page (z.free_list order reclaimable),
      count-le-length page (z.free_list order movable),
      count-le-length page (z.free_list order reserve),
      count-le-length page (z.free_list order cma),
      count-le-length page (z.free_list order isolate),
    )

    pub free_pages-take_block : free_pages m z ≡ free_pages m (take_block page order z) + 2 ^ order
    unfolding free_pages
    free_pages-take_block =
        sum-change (λ o. (take_block page order z).nr_free o * 2 ^ o) (λ o. z.nr_free o * 2 ^ o)
          m.max_order order (2 ^ order) head_fits.0
          (omega (arith, ap (λ n. n * 2 ^ order) (one_fewer was_counted))) (λ o ne. ground arith)
      where
        one_fewer :
            1 ≤ z.nr_free order → z.nr_free order ≡ (take_block page order z).nr_free order + 1
        one_fewer h = ground arith

    take-coalesced :
        (x o : ℕ)
        → suc o < m.max_order
        → m.pfn_valid_within (x * 2 ^ o) ≡ true
        → is_head (take_block page order z) (x * 2 ^ o) o ≡ true
        → page_is_buddy m (take_block page order z) (x * 2 ^ o) (twin x * 2 ^ o) o ≡ false
    unfolding page_is_buddy
    take-coalesced x o lt valid h = ground (
      arith,
      v.coalesced x o lt valid,
      is_head-take (x * 2 ^ o) o,
      is_head-take (twin x * 2 ^ o) o,
    )

    pub take_block-IsValid : IsValid m (take_block page order z)
    take_block-IsValid = record {
      aligned = λ p b. ground (arith, v.aligned p);
      listed = λ p o. ground (
        arith,
        is_head-take p o,
        v.listed p o,
        count-del p page (z.free_list o unmovable),
        count-del p page (z.free_list o reclaimable),
        count-del p page (z.free_list o movable),
        count-del p page (z.free_list o reserve),
        count-del p page (z.free_list o cma),
        count-del p page (z.free_list o isolate),
      );
      counted = λ o. ground (
        arith,
        v.counted o,
        v.listed page o,
        head,
        head_private z page order head,
        head_buddy z page order head,
        length-del page (z.free_list o unmovable),
        length-del page (z.free_list o reclaimable),
        length-del page (z.free_list o movable),
        length-del page (z.free_list o reserve),
        length-del page (z.free_list o cma),
        length-del page (z.free_list o isolate),
      );
      disjoint = λ q. omega (arith, free_count-take_block q, v.disjoint q);
      coalesced = take-coalesced;
    }
