-- ===== src/Buddy/Free/Effect.antt =====
-- What `__free_one_page` does to the zone: the pages of the block become free, and no others do.
use Prim.Native.Nat.{bit_and}
use osandroid_kernel.Prelude.{
  ℕ, suc, ◌+◌, ◌-◌, ◌*◌, ◌/◌, ◌%◌, ◌^◌, ◌<◌, ◌≡◌, refl, sym, ap, ◌∙◌, Bool, true, false, List, [],
  ◌∷◌, ◌++◌, arith,
}
use mathlib.Core.Path.{subst}
use native.Mathlib.Nat.{one-le-pow}
use osandroid_kernel.Buddy.{
  Machine, Zone, Migratetype, in_block, free_count, free_pages, Aligned, IsValid, Room,
  set_page_order,
}
use osandroid_kernel.Buddy.Bits.{bit_and_mask, two_pow-add, mul-mod_cancel}
use osandroid_kernel.Buddy.Blocks.{put_block, IsAdded, cons-IsAdded, append-IsAdded}
use osandroid_kernel.Buddy.Blocks.Put.{
  free_pages-put_block, free_count-put_block, put_block-IsValid,
}
use osandroid_kernel.Buddy.Free.{Freeing, merge, start_freeing, at_tail, put_on_list, free_block}
use osandroid_kernel.Buddy.Free.Merge.{carried, Carries, merge-Carries}

-- The zone `z'` is valid, and its free pages are those of `z` and the block's.
abbrev pub Frees : Machine → Zone → ℕ → ℕ → Zone → Type 0
Frees m z page order z' =
    IsValid m z'
    × ((q : ℕ) → free_count m z' q ≡ free_count m z q + in_block page order q)
    × (free_pages m z' ≡ free_pages m z + 2 ^ order)

module _ (m : Machine) (z : Zone) where
  carried-Room :
      (page order : ℕ) (s : Freeing)
      → Room m z page order
      → Carries m z page order s
      → Room m s.zone s.page s.order
  carried-Room page order s room (v, lt, al, same, _, _) q = omega (arith, same q, room q)

  put-Frees :
      (page order : ℕ) (type : Migratetype) (pages : List ℕ) (s : Freeing)
      → Room m s.zone s.page s.order
      → Carries m z page order s
      → IsAdded s.page (s.zone.free_list s.order type) pages
      → Frees m z page order (put_block s.page s.order type pages s.zone)
  put-Frees page order type pages s room (v, lt, al, same, sum, stop) added = (
    put_block-IsValid m s.zone v s.page s.order type pages lt al room added stop,
    λ q. omega (
      arith,
      same q,
      free_count-put_block m s.zone v s.page s.order type pages lt al room added q,
    ),
    omega (arith, sum, free_pages-put_block m s.zone v s.page s.order type pages lt al room added),
  )

  put_on_list-Frees :
      (page order : ℕ) (type : Migratetype) (s : Freeing)
      → Room m s.zone s.page s.order
      → Carries m z page order s
      → Frees m z page order (put_on_list m type s)
  unfolding put_on_list
  put_on_list-Frees page order type s room c =
      split (at_tail m s (set_page_order s.page s.order s.zone)) refl
    where
      old : List ℕ
      old = s.zone.free_list s.order type

      split :
          (tail : Bool)
          → at_tail m s (set_page_order s.page s.order s.zone) ≡ tail
          → Frees m z page order (put_on_list m type s)
      split true e =
          rw e (put-Frees page order type (old ++ s.page ∷ []) s room c (append-IsAdded s.page old))
      split false e =
          rw e (put-Frees page order type (s.page ∷ old) s room c (cons-IsAdded s.page old))

start_idx :
    (page order k top : ℕ)
    → top ≡ suc (order + k)
    → Aligned page order
    → bit_and page (2 ^ top - 1) ≡ page / 2 ^ order % 2 ^ suc k * 2 ^ order
start_idx page order k top e al =
    bit_and_mask top page
    ∙ ap (λ t. page % 2 ^ t) (by_sum order k top e)
    ∙ ap (λ t. page % t) (two_pow-add (suc k) order)
    ∙ ap (λ t. t % (2 ^ suc k * 2 ^ order)) (sym al)
    ∙ mul-mod_cancel (page / 2 ^ order) (2 ^ suc k) (2 ^ order) (one-le-pow (suc k) 2 (omega arith))
        (one-le-pow order 2 (omega arith))
  where
    by_sum : (order k top : ℕ) → top ≡ suc (order + k) → top ≡ suc k + order
    by_sum order k top e = omega arith

start_freeing-carried :
    (m : Machine) (page order k : ℕ) (z : Zone)
    → m.max_order ≡ suc (order + k)
    → Aligned page order
    → start_freeing m page order z
      ≡ carried (page / 2 ^ order) (page / 2 ^ order % 2 ^ suc k) order 0 0 z
start_freeing-carried m page order k z top al =
    rw (start_idx page order k m.max_order top al, al) refl

module _ (m : Machine) (z : Zone) (page order : ℕ) where
  merge_start-Carries :
      (k : ℕ)
      → m.max_order ≡ suc (order + k)
      → Aligned page order
      → IsValid m z
      → Room m z page order
      → Carries m z page order (merge m k (start_freeing m page order z))
  merge_start-Carries k top al v room =
      subst (λ s. Carries m z page order (merge m k s))
        (sym (start_freeing-carried m page order k z top al))
        (subst
          (λ p.
            Carries m z p order
              (merge m k (carried (page / 2 ^ order) (page / 2 ^ order % 2 ^ suc k) order 0 0 z)))
          al
          (merge-Carries m k (page / 2 ^ order) (page / 2 ^ order % 2 ^ suc k)
            (page / 2 ^ order / 2 ^ suc k) order 0 0 z top (omega arith) v
            (subst (λ p. Room m z p order) (sym al) room)))

  -- Freeing an aligned block of an order below `max_order`, no page of which is free and whose compound
  -- page, if it is one, is sound, in a valid zone and to whatever type of list makes its pages free
  -- and no others, in the count of the lists too; the zone stays valid: no page is in two free blocks,
  -- and no free block could merge with its buddy.
  pub free_block-Frees :
      (type : Migratetype)
      → order < m.max_order
      → Aligned page order
      → IsValid m z
      → Room m z page order
      → Frees m z page order (free_block m false page order type z)
  unfolding free_block
  free_block-Frees type lt al v room =
      let c = merge_start-Carries (m.max_order - 1 - order) (omega arith) al v room in
      put_on_list-Frees m z page order type
        (merge m (m.max_order - 1 - order) (start_freeing m page order z))
        (carried-Room m z page order
          (merge m (m.max_order - 1 - order) (start_freeing m page order z)) room c)
        c
