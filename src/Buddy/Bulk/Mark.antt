-- ===== src/Buddy/Bulk/Mark.antt =====
-- The field of a page that is not free may be written to: `rmqueue_bulk` keeps a type there.
use osandroid_kernel.Prelude.{ℕ, ◌*◌, ◌/◌, ◌^◌, ◌≡◌, refl, false, arith}
use osandroid_kernel.Buddy.{
  Machine, Zone, is_head, in_free_block, free_count, free_pages, page_is_buddy, IsValid,
}
use osandroid_kernel.Buddy.Bits.{twin}
use osandroid_kernel.Buddy.Blocks.{sum-same}
use osandroid_kernel.Buddy.Bulk.{set_page_private}

module _ (m : Machine) where
  -- A page that is not free may be written to.
  module _ (z : Zone) (v : IsValid m z) (page n : ℕ) (unmarked : z.page_buddy page ≡ false) where
    is_head-set_private : (p o : ℕ) → is_head (set_page_private page n z) p o ≡ is_head z p o
    is_head-set_private p o = ground arith

    in_free_block-set_private :
        (q o : ℕ) → in_free_block (set_page_private page n z) q o ≡ in_free_block z q o
    unfolding in_free_block
    in_free_block-set_private q o = ground (arith, is_head-set_private (q / 2 ^ o * 2 ^ o) o)

    pub free_count-set_private :
        (q : ℕ) → free_count m (set_page_private page n z) q ≡ free_count m z q
    unfolding free_count
    free_count-set_private q =
        sum-same (in_free_block z q) (in_free_block (set_page_private page n z) q) m.max_order
          (λ o lt. in_free_block-set_private q o)

    pub free_pages-set_private : free_pages m (set_page_private page n z) ≡ free_pages m z
    unfolding free_pages
    free_pages-set_private = refl

    pub set_page_private-IsValid : IsValid m (set_page_private page n z)
    unfolding page_is_buddy
    set_page_private-IsValid = record {
      aligned = λ p b. ground (arith, v.aligned p);
      listed = λ p o. ground (arith, v.listed p o, is_head-set_private p o);
      counted = v.counted;
      disjoint = λ q. omega (arith, free_count-set_private q, v.disjoint q);
      coalesced = λ x o lt valid h. ground (
        arith,
        v.coalesced x o lt valid,
        is_head-set_private (x * 2 ^ o) o,
        is_head-set_private (twin x * 2 ^ o) o,
      );
    }
