-- ===== src/Buddy/Blocks.antt =====
-- A block enters or leaves the free lists: what that does to the pages that are free, and that the
-- zone stays valid.
pub mod Take
pub mod Put
use osandroid_kernel.Prelude.{
  ℕ, zero, suc, ◌+◌, ◌-◌, ◌*◌, ◌/◌, ◌^◌, ◌≤◌, ◌<◌, ◌≡◌, ◌≢◌, ◌⊎◌, inl, inr, not, refl, sym, ap, ◌∙◌,
  Bool, true, false, List, [], ◌∷◌, ◌++◌, ◌&&◌, ◌==◌, if◌then◌else◌, arith,
}
use osandroid_kernel.Prelude.Lists.{length, length-append}
use osandroid_kernel.Prelude.Families.{put_at, sum_below, le-sum_below}
use native.Mathlib.Decide.{ℕ_discrete}
use native.Mathlib.Nat.{one-le-pow, mul-div_cancel}
use osandroid_kernel.Buddy.Bits.{twin}
use osandroid_kernel.Buddy.{
  Machine, page_is_buddy, Zone, Migratetype, unmovable, reclaimable, movable, reserve, cma, isolate,
  same_type, del, put_list, list_del, list_add, list_add_tail, set_page_order, rmv_page_order,
  inc_nr_free, dec_nr_free, is_head, one_if, in_block, in_free_block, free_count, free_pages, count,
  sum_types, Aligned, IsValid, Room,
}

module _ (f g : ℕ → ℕ) where
  pub sum-same :
      (n : ℕ) → ((j : ℕ) → j < n → g j ≡ f j) → sum_below (λ k. k) n g ≡ sum_below (λ k. k) n f
  unfolding sum_below
  sum-same zero same = refl
  sum-same (suc n) same =
      omega (arith, same n (omega arith), sum-same n (λ j lt. same j (omega arith)))

  -- A sum of which the term at `i` grows by `d`.
  sum-change :
      (n i d : ℕ)
      → i < n
      → g i ≡ f i + d
      → ((j : ℕ) → j ≢ i → g j ≡ f j)
      → sum_below (λ k. k) n g ≡ sum_below (λ k. k) n f + d
  unfolding sum_below
  sum-change zero i d lt here other = absurd (omega arith)
  sum-change (suc n) i d lt here other = elim (ℕ_discrete i n) [
    | yes last ↦
        omega (arith, ap g last, ap f last, sum-same n (λ j lt. other j (λ e. omega arith)))
    | no before ↦
        omega (arith, other n (λ e. before (sym e)), sum-change n i d (omega arith) here other)
  ]

pub count-del : (p q : ℕ) (qs : List ℕ) → count p (del q qs) ≡ (if p == q then 0 else count p qs)
count-del p q [] = ground arith
count-del p q (r ∷ qs) = ground (arith, count-del p q qs)

pub length-del : (p : ℕ) (qs : List ℕ) → length (del p qs) + count p qs ≡ length qs
length-del p [] = refl
length-del p (q ∷ qs) = ground (arith, length-del p qs)

count-le-length : (p : ℕ) (qs : List ℕ) → count p qs ≤ length qs
count-le-length p qs = omega (arith, length-del p qs)

count-append_one : (p q : ℕ) (qs : List ℕ) → count p (qs ++ q ∷ []) ≡ count p qs + one_if (q == p)
count-append_one p q [] = ground arith
count-append_one p q (r ∷ qs) = ground (arith, count-append_one p q qs)

base-block : (p q o : ℕ) → Aligned p o → (q / 2 ^ o * 2 ^ o == p) ≡ (q / 2 ^ o == p / 2 ^ o)
base-block p q o h = ground (arith, mul-div_cancel (q / 2 ^ o) (one-le-pow o 2 (omega arith)))

-- The page leaves its list, the count of the list's order goes down, and the mark is cleared.
abbrev pub take_block : ℕ → ℕ → Zone → Zone
take_block page order z = rmv_page_order page (dec_nr_free order (list_del page z))

abbrev pub put_block : ℕ → ℕ → Migratetype → List ℕ → Zone → Zone
put_block page order type pages z =
    inc_nr_free order (put_list order type pages (set_page_order page order z))

head_buddy : (z : Zone) (p o : ℕ) → is_head z p o ≡ true → z.page_buddy p ≡ true
head_buddy z p o h = ground arith

head_private : (z : Zone) (p o : ℕ) → is_head z p o ≡ true → z.page_private p ≡ o
head_private z p o h = ground arith

marked-in_free_block :
    (z : Zone) (p : ℕ)
    → z.page_buddy p ≡ true
    → Aligned p (z.page_private p)
    → in_free_block z p (z.page_private p) ≡ 1
unfolding in_free_block
marked-in_free_block z p b a = ground (arith, ap (λ r. is_head z r (z.page_private p)) a)

-- The head of a free block is free.
pub marked-free_count :
    (m : Machine) (z : Zone) (v : IsValid m z) (p : ℕ)
    → z.page_buddy p ≡ true
    → 1 ≤ free_count m z p
unfolding free_count
marked-free_count m z v p b = omega (
  arith,
  marked-in_free_block z p b (v.aligned p b).1,
  le-sum_below (λ n. n) m.max_order (z.page_private p) (in_free_block z p) (v.aligned p b).0,
)

-- Nothing that the block of 2 ^ order pages at `page` could merge with is free.
abbrev pub Alone : Machine → ℕ → ℕ → Zone → Type 0
Alone m page order z =
    (suc order ≡ m.max_order)
    ⊎ (page_is_buddy m z page (twin (page / 2 ^ order) * 2 ^ order) order ≡ false)

-- What is known of a block, for its number.
alone_at :
    (m : Machine) (z : Zone) (page order x o : ℕ)
    → order ≡ o
    → page ≡ x * 2 ^ o
    → page_is_buddy m z page (twin (page / 2 ^ order) * 2 ^ order) order
      ≡ page_is_buddy m z (x * 2 ^ o) (twin x * 2 ^ o) o
alone_at m z page order x o eo ep =
    ap (λ k. page_is_buddy m z page (twin (page / 2 ^ k) * 2 ^ k) k) eo
    ∙ ap (λ p. page_is_buddy m z p (twin (p / 2 ^ o) * 2 ^ o) o) ep
    ∙ ap (λ y. page_is_buddy m z (x * 2 ^ o) (twin y * 2 ^ o) o)
        (mul-div_cancel x (one-le-pow o 2 (omega arith)))

twin-twin : (x : ℕ) → twin (twin x) ≡ x
twin-twin x = ground arith

twin-other : (x o : ℕ) → twin x * 2 ^ o ≢ x * 2 ^ o
twin-other x o e = ground (
  arith,
  ap (λ p. p / 2 ^ o) e,
  mul-div_cancel x (one-le-pow o 2 (omega arith)),
  mul-div_cancel (twin x) (one-le-pow o 2 (omega arith)),
)

-- `pages` is the list with `page` added to it somewhere.
abbrev pub IsAdded : ℕ → List ℕ → List ℕ → Type 0
IsAdded page qs pages =
    ((p : ℕ) → count p pages ≡ count p qs + one_if (page == p)) × (length pages ≡ suc (length qs))

pub cons-IsAdded : (page : ℕ) (qs : List ℕ) → IsAdded page qs (page ∷ qs)
cons-IsAdded page qs = (λ p. ground arith, refl)

pub append-IsAdded : (page : ℕ) (qs : List ℕ) → IsAdded page qs (qs ++ page ∷ [])
append-IsAdded page qs =
    (λ p. count-append_one p page qs, omega (arith, length-append qs (page ∷ [])))
