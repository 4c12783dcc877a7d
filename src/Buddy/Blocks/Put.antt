-- ===== src/Buddy/Blocks/Put.antt =====
-- A block enters the free lists: its pages become free, and the zone stays valid if no page of the
-- block was free and no buddy of it is.
use osandroid_kernel.Prelude.{
  ℕ, suc, ◌+◌, ◌*◌, ◌/◌, ◌^◌, ◌<◌, ◌≡◌, ◌≢◌, inl, inr, sym, ap, true, false, List, ◌==◌,
  if◌then◌else◌, arith,
}
use osandroid_kernel.Prelude.Families.{put_at}
use native.Mathlib.Decide.{ℕ_discrete}
use osandroid_kernel.Buddy.Bits.{twin}
use osandroid_kernel.Buddy.{
  Machine, page_is_buddy, Zone, Migratetype, is_head, in_block, in_free_block, free_count,
  free_pages, Aligned, IsValid, Room,
}
use osandroid_kernel.Buddy.Blocks.{
  sum-change, base-block, put_block, marked-free_count, Alone, alone_at, twin-twin, twin-other,
  IsAdded,
}

module _ (m : Machine) (z : Zone) (v : IsValid m z) (page order : ℕ) (type : Migratetype)
    (pages : List ℕ) (fits : order < m.max_order) (a : Aligned page order)
    (room : Room m z page order) (added : IsAdded page (z.free_list order type) pages) where
  was_unmarked : z.page_buddy page ≡ false
  unfolding in_block
  was_unmarked = ground (arith, room page, marked-free_count m z v page)

  is_head-put :
      (p o : ℕ)
      → is_head (put_block page order type pages z) p o
        ≡ (if p == page then order == o else is_head z p o)
  is_head-put p o = ground arith

  in_free_block-put :
      (q o : ℕ)
      → o ≢ order
      → in_free_block (put_block page order type pages z) q o ≡ in_free_block z q o
  unfolding in_free_block
  in_free_block-put q o ne = ground (arith, is_head-put (q / 2 ^ o * 2 ^ o) o, was_unmarked)

  in_free_block-put_here :
      (q : ℕ)
      → in_free_block (put_block page order type pages z) q order
        ≡ in_free_block z q order + in_block page order q
  unfolding in_free_block in_block
  in_free_block-put_here q = ground (
    arith,
    is_head-put (q / 2 ^ order * 2 ^ order) order,
    base-block page q order a,
    was_unmarked,
  )

  pub free_count-put_block :
      (q : ℕ)
      → free_count m (put_block page order type pages z) q
        ≡ free_count m z q + in_block page order q
  unfolding free_count
  free_count-put_block q =
      sum-change (in_free_block z q) (in_free_block (put_block page order type pages z) q)
        m.max_order order (in_block page order q) fits (in_free_block-put_here q)
        (in_free_block-put q)

  pub free_pages-put_block :
      free_pages m (put_block page order type pages z) ≡ free_pages m z + 2 ^ order
  unfolding free_pages
  free_pages-put_block =
      sum-change (λ o. z.nr_free o * 2 ^ o)
        (λ o. (put_block page order type pages z).nr_free o * 2 ^ o) m.max_order order (2 ^ order)
        fits (omega (arith, ap (λ n. n * 2 ^ order) one_more)) (λ o ne. ground arith)
    where
      one_more : (put_block page order type pages z).nr_free order ≡ z.nr_free order + 1
      one_more = ground arith

  private-put_here : (p : ℕ) → p ≡ page → put_at page order z.page_private p ≡ order
  private-put_here p e = ground arith

  put-Aligned :
      (p : ℕ)
      → (put_block page order type pages z).page_buddy p ≡ true
      → ((put_block page order type pages z).page_private p < m.max_order)
        × Aligned p ((put_block page order type pages z).page_private p)
  put-Aligned p b = elim (ℕ_discrete p page) [
    | yes e ↦ rw (private-put_here p e, e) (fits, a)
    | no ne ↦ ground (arith, v.aligned p)
  ]

  same_order :
      (x o : ℕ)
      → x * 2 ^ o ≡ page
      → is_head (put_block page order type pages z) (x * 2 ^ o) o ≡ true
      → order ≡ o
  same_order x o here h = ground (arith, is_head-put (x * 2 ^ o) o)

  there_alone :
      (x o : ℕ)
      → m.pfn_valid_within (x * 2 ^ o) ≡ true
      → is_head (put_block page order type pages z) (x * 2 ^ o) o ≡ true
      → x * 2 ^ o ≢ page
      → twin x * 2 ^ o ≡ page
      → page_is_buddy m z page (twin (page / 2 ^ order) * 2 ^ order) order ≡ false
      → Dec (order ≡ o)
      → page_is_buddy m (put_block page order type pages z) (x * 2 ^ o) (twin x * 2 ^ o) o ≡ false
  unfolding page_is_buddy
  there_alone x o valid h other there alone (yes eo) = ground (
    arith,
    is_head-put (x * 2 ^ o) o,
    is_head-put (twin x * 2 ^ o) o,
    alone_at m z page order (twin x) o eo (sym there),
    ap (λ y. y * 2 ^ o) (twin-twin x),
  )
  there_alone x o valid h other there alone (no ne) =
      ground (arith, is_head-put (x * 2 ^ o) o, is_head-put (twin x * 2 ^ o) o)

  put_alone :
      (x o : ℕ)
      → suc o < m.max_order
      → m.pfn_valid_within (x * 2 ^ o) ≡ true
      → is_head (put_block page order type pages z) (x * 2 ^ o) o ≡ true
      → page_is_buddy m z page (twin (page / 2 ^ order) * 2 ^ order) order ≡ false
      → page_is_buddy m (put_block page order type pages z) (x * 2 ^ o) (twin x * 2 ^ o) o ≡ false
  unfolding page_is_buddy
  put_alone x o lt valid h alone = elim (ℕ_discrete (x * 2 ^ o) page) [
    | yes here ↦ ground (
      arith,
      is_head-put (x * 2 ^ o) o,
      is_head-put (twin x * 2 ^ o) o,
      twin-other x o,
      alone_at m z page order x o (same_order x o here h) (sym here),
    )
    | no other ↦ elim (ℕ_discrete (twin x * 2 ^ o) page) [
      | yes there ↦ there_alone x o valid h other there alone (ℕ_discrete order o)
      | no else_where ↦ ground (
        arith,
        v.coalesced x o lt valid,
        is_head-put (x * 2 ^ o) o,
        is_head-put (twin x * 2 ^ o) o,
      )
    ]
  ]

  put_coalesced :
      (x o : ℕ)
      → suc o < m.max_order
      → m.pfn_valid_within (x * 2 ^ o) ≡ true
      → is_head (put_block page order type pages z) (x * 2 ^ o) o ≡ true
      → Alone m page order z
      → page_is_buddy m (put_block page order type pages z) (x * 2 ^ o) (twin x * 2 ^ o) o ≡ false
  unfolding page_is_buddy
  put_coalesced x o lt valid h (inr alone) = put_alone x o lt valid h alone
  put_coalesced x o lt valid h (inl top) =
      ground
        (arith, v.coalesced x o lt valid, is_head-put (x * 2 ^ o) o, is_head-put (twin x * 2 ^ o) o)

  pub put_block-IsValid : Alone m page order z → IsValid m (put_block page order type pages z)
  put_block-IsValid alone = record {
    aligned = put-Aligned;
    listed = λ p o. ground (arith, is_head-put p o, v.listed p o, added.0 p, was_unmarked);
    counted = λ o. ground (arith, v.counted o, added.1);
    disjoint = λ q. omega (arith, free_count-put_block q, room q);
    coalesced = λ x o lt valid h. put_coalesced x o lt valid h alone;
  }
