-- ===== src/Buddy/Free/Merge.antt =====
-- The loop of `__free_one_page` on block numbers: each round takes the twin of the block from the free
-- lists, and the block it carries covers the pages of both.
use osandroid_kernel.Prelude.{
  ℕ, zero, suc, ◌+◌, ◌-◌, ◌*◌, ◌/◌, ◌^◌, ◌<◌, ◌≡◌, refl, sym, ap, ◌∙◌, Bool, true, false, inl, inr,
  if◌then◌else◌, arith,
}
use mathlib.Core.Path.{subst}
use osandroid_kernel.Buddy.{
  page_is_buddy, Machine, Zone, is_head, in_block, free_count, free_pages, Aligned, IsValid, Room,
}
use osandroid_kernel.Buddy.Bits.{two_pow-suc, mul-two_pow_suc, twin, bit_xor-two_pow, bit_and-twin}
use osandroid_kernel.Buddy.Pairs.{block_number, block-Aligned, in_block-pair}
use osandroid_kernel.Buddy.Blocks.{Alone, take_block}
use osandroid_kernel.Buddy.Blocks.Take.{
  free_pages-take_block, free_count-take_block, take_block-IsValid,
}
use osandroid_kernel.Buddy.Free.{Freeing, look, join, go_on_merging, merge}

move : (x y x' y' c : ℕ) → x + y' ≡ x' + y → x * c + y' * c - y * c ≡ x' * c
move x y x' y' c h = omega (arith, ap (λ t. t * c) h)

-- The block `x` of its order, and its number `y` within the largest blocks.
abbrev pub carried : ℕ → ℕ → ℕ → ℕ → ℕ → Zone → Freeing
carried x y order buddy_idx buddy z = record {
  page = x * 2 ^ order;
  page_idx = y * 2 ^ order;
  order = order;
  buddy_idx = buddy_idx;
  buddy = buddy;
  zone = z;
}

module _ (x y w o : ℕ) (h : x ≡ y + 2 * w) (z : Zone) where
  look-carried :
      (bi b : ℕ) → look (carried x y o bi b z) ≡ carried x y o (twin y * 2 ^ o) (twin x * 2 ^ o) z
  look-carried bi b =
      rw (bit_xor-two_pow o y, move x y (twin x) (twin y) (2 ^ o) (ground arith)) refl

  join-carried :
      join (carried x y o (twin y * 2 ^ o) (twin x * 2 ^ o) z)
      ≡ carried
          (x / 2)
          (y / 2)
          (suc o)
          (twin y * 2 ^ o)
          (twin x * 2 ^ o)
          (take_block (twin x * 2 ^ o) o z)
  join-carried = rw (bit_and-twin o y, joined) refl
    where
      joined : x * 2 ^ o + y / 2 * 2 ^ suc o - y * 2 ^ o ≡ x / 2 * 2 ^ suc o
      joined = omega (
        arith,
        mul-two_pow_suc (y / 2) o,
        mul-two_pow_suc (x / 2) o,
        move x y (x / 2 * 2) (y / 2 * 2) (2 ^ o) (ground arith),
      )

-- `s` carries a block, no page of which is free, and which with the free pages makes up those that
-- were free and those of the block of 2 ^ order pages at `page`.
abbrev pub Carries : Machine → Zone → ℕ → ℕ → Freeing → Type 0
Carries m z page order s =
    IsValid m s.zone
    × (s.order < m.max_order)
    × Aligned s.page s.order
    × ((q : ℕ)
        → free_count m s.zone q + in_block s.page s.order q
          ≡ free_count m z q + in_block page order q)
    × (free_pages m s.zone + 2 ^ s.order ≡ free_pages m z + 2 ^ order)
    × Alone m s.page s.order s.zone

page_is_buddy-is_head :
    (m : Machine) (z : Zone) (page buddy order : ℕ)
    → page_is_buddy m z page buddy order ≡ true
    → is_head z buddy order ≡ true
unfolding page_is_buddy
page_is_buddy-is_head m z page buddy order h = ground arith

module _ (m : Machine) where
  here-Carries :
      (x y o bi b : ℕ) (z : Zone)
      → o < m.max_order
      → IsValid m z
      → Alone m (x * 2 ^ o) o z
      → Carries m z (x * 2 ^ o) o (carried x y o bi b z)
  here-Carries x y o bi b z lt v stop = (v, lt, block-Aligned x o, λ q. refl, refl, stop)

  joined-Carries :
      (x o : ℕ) (z : Zone) (v : IsValid m z) (s : Freeing)
      → is_head z (twin x * 2 ^ o) o ≡ true
      → Carries m (take_block (twin x * 2 ^ o) o z) (x / 2 * 2 ^ suc o) (suc o) s
      → Carries m z (x * 2 ^ o) o s
  joined-Carries x o z v s head (vs, lt, al, same, sum, stop) = (
    vs,
    lt,
    al,
    λ q.
        omega (
          arith,
          same q,
          in_block-pair x o q,
          free_count-take_block m z v (twin x * 2 ^ o) o head q,
        ),
    omega (arith, sum, two_pow-suc o, free_pages-take_block m z v (twin x * 2 ^ o) o head),
    stop,
  )

  joined-Room :
      (x o : ℕ) (z : Zone) (v : IsValid m z)
      → is_head z (twin x * 2 ^ o) o ≡ true
      → Room m z (x * 2 ^ o) o
      → Room m (take_block (twin x * 2 ^ o) o z) (x / 2 * 2 ^ suc o) (suc o)
  joined-Room x o z v head room q =
      omega
        (arith, room q, in_block-pair x o q, free_count-take_block m z v (twin x * 2 ^ o) o head q)

  -- A round: the block stays as it is, or the loop has the rest for the pair.
  round-Carries :
      (x y w o bi b : ℕ) (z : Zone) (loop : Freeing → Freeing)
      → x ≡ y + 2 * w
      → o < m.max_order
      → IsValid m z
      → (is_head z (twin x * 2 ^ o) o ≡ true
          → Carries m (take_block (twin x * 2 ^ o) o z) (x / 2 * 2 ^ suc o) (suc o) (
              loop (
                carried
                  (x / 2)
                  (y / 2)
                  (suc o)
                  (twin y * 2 ^ o)
                  (twin x * 2 ^ o)
                  (take_block (twin x * 2 ^ o) o z))))
      → Carries m z (x * 2 ^ o) o (go_on_merging m loop (look (carried x y o bi b z)))
  round-Carries x y w o bi b z loop h lt v rest =
      subst (λ t. Carries m z (x * 2 ^ o) o (go_on_merging m loop t))
        (sym (look-carried x y w o h z bi b))
        (split (page_is_buddy m z (x * 2 ^ o) (twin x * 2 ^ o) o) refl)
    where
      looked : Freeing
      looked = carried x y o (twin y * 2 ^ o) (twin x * 2 ^ o) z

      split :
          (found : Bool)
          → page_is_buddy m z (x * 2 ^ o) (twin x * 2 ^ o) o ≡ found
          → Carries m z (x * 2 ^ o) o (if found then loop (join looked) else looked)
      split false no_buddy = here-Carries x y o (twin y * 2 ^ o) (twin x * 2 ^ o) z lt v (
          inr (
            ap (λ x'. page_is_buddy m z (x * 2 ^ o) (twin x' * 2 ^ o) o) (block_number x o)
            ∙ no_buddy))
      split true found_buddy =
          let head = page_is_buddy-is_head m z (x * 2 ^ o) (twin x * 2 ^ o) o found_buddy in
          subst (λ s. Carries m z (x * 2 ^ o) o (loop s)) (sym (join-carried x y w o h z))
            (joined-Carries x o z v
              (loop (
                carried (x / 2) (y / 2) (suc o) (twin y * 2 ^ o) (twin x * 2 ^ o)
                  (take_block (twin x * 2 ^ o) o z)))
              head (rest head))

  pub merge-Carries :
      (k x y n o bi b : ℕ) (z : Zone)
      → m.max_order ≡ suc (o + k)
      → x ≡ y + n * 2 ^ suc k
      → IsValid m z
      → Room m z (x * 2 ^ o) o
      → Carries m z (x * 2 ^ o) o (merge m k (carried x y o bi b z))
  unfolding merge
  merge-Carries zero x y n o bi b z top h v room =
      here-Carries x y o bi b z (omega arith) v (inl (omega arith))
  merge-Carries (suc k) x y n o bi b z top h v room =
      round-Carries x y (n * 2 ^ suc k) o bi b z (merge m k)
        (omega (arith, h, mul-two_pow_suc n (suc k))) (omega arith) v
        (λ head.
          merge-Carries k (x / 2) (y / 2) n (suc o) (twin y * 2 ^ o) (twin x * 2 ^ o)
            (take_block (twin x * 2 ^ o) o z) (omega arith)
            (omega (arith, h, mul-two_pow_suc n (suc k)))
            (take_block-IsValid m z v (twin x * 2 ^ o) o head) (joined-Room x o z v head room))
