-- ===== src/Buddy/Fallback/Lists.antt =====
-- Free pages change their lists: every block stays on one list of its order.
use osandroid_kernel.Prelude.{
  ℕ, zero, suc, ◌+◌, ◌^◌, ◌≤◌, ◌<◌, ◌≡◌, refl, ◌∙◌, Bool, true, false, leb, if◌then◌else◌, arith,
}
use native.Mathlib.Nat.{one-le-pow}
use osandroid_kernel.Prelude.Lists.{length}
use osandroid_kernel.Buddy.{
  Machine, Zone, Migratetype, unmovable, reclaimable, movable, reserve, cma, isolate, is_head,
  one_if, count, sum_types,
}
use osandroid_kernel.Buddy.Blocks.{count-del, length-del}
use osandroid_kernel.Buddy.Fallback.{Areas, list_move, Moving, move_one, move_rounds}

-- The lists hold each free block of `z` once, on a list of its order.
abbrev pub IsListed : Zone → Areas → Type 0
IsListed z lists = (p o : ℕ) → sum_types (λ t. count p (lists o t)) ≡ one_if (is_head z p o)

abbrev pub SameSizes : Areas → Areas → Type 0
SameSizes old new = (o : ℕ) → sum_types (λ t. length (new o t)) ≡ sum_types (λ t. length (old o t))

module _ (z : Zone) (lists : Areas) (listed : IsListed z lists) (page order : ℕ)
    (type : Migratetype) where
  module _ (head : is_head z page order ≡ true) where
    list_move-IsListed : IsListed z (list_move page order type lists)
    list_move-IsListed p o = ground (
      arith,
      listed p o,
      head,
      count-del p page (lists o unmovable),
      count-del p page (lists o reclaimable),
      count-del p page (lists o movable),
      count-del p page (lists o reserve),
      count-del p page (lists o cma),
      count-del p page (lists o isolate),
    )

    list_move-SameSizes : SameSizes lists (list_move page order type lists)
    list_move-SameSizes o = ground (
      arith,
      listed page o,
      head,
      length-del page (lists o unmovable),
      length-del page (lists o reclaimable),
      length-del page (lists o movable),
      length-del page (lists o reserve),
      length-del page (lists o cma),
      length-del page (lists o isolate),
    )

-- The lists of the state `s` hold the blocks of `z`, as many to an order as `lists`.
abbrev pub Keeps : Zone → Areas → Areas → Type 0
Keeps z lists new = IsListed z new × SameSizes lists new

module _ (m : Machine) (z : Zone) (type : Migratetype) where
  move_one-Keeps :
      (s : Moving) (lists : Areas)
      → Keeps z lists s.lists
      → Keeps z lists ((move_one m z type s).lists)
  unfolding move_one
  move_one-Keeps s lists (listed, same) =
      split (m.pfn_valid_within s.page) (z.page_buddy s.page) refl refl
    where
      split :
          (valid marked : Bool)
          → m.pfn_valid_within s.page ≡ valid
          → z.page_buddy s.page ≡ marked
          → Keeps z lists ((move_one m z type s).lists)
      split false marked e f = rw e (listed, same)
      split true false e f = rw (e, f) (listed, same)
      split true true e f =
          rw (e, f)
            (
              list_move-IsListed z s.lists listed s.page (z.page_private s.page) type
                  (ground arith),
              λ o.
                  list_move-SameSizes z s.lists listed s.page (z.page_private s.page) type
                    (ground arith) o
                  ∙ same o,
            )

  pub move_rounds-Keeps :
      (rounds end_page : ℕ) (s : Moving) (lists : Areas)
      → Keeps z lists s.lists
      → Keeps z lists ((move_rounds rounds m z end_page type s).lists)
  unfolding move_rounds
  move_rounds-Keeps zero end_page s lists k = k
  move_rounds-Keeps (suc rounds) end_page s lists k =
      split (leb s.page end_page)
        (move_rounds-Keeps rounds end_page (move_one m z type s) lists (move_one-Keeps s lists k))
    where
      split :
          (b : Bool)
          → Keeps z lists ((move_rounds rounds m z end_page type (move_one m z type s)).lists)
          → Keeps z lists
              ((if b then move_rounds rounds m z end_page type (move_one m z type s) else s).lists)
      split true rest = rest
      split false rest = k

  one-le-two_pow : (n : ℕ) → 1 ≤ 2 ^ n
  one-le-two_pow n = one-le-pow n 2 (omega arith)

  move_one-advances : (s : Moving) → s.page < (move_one m z type s).page
  unfolding move_one
  move_one-advances s = ground (arith, one-le-two_pow (z.page_private s.page))

  -- The loop of `move_freepages` ends past the range, if it has a round for each page left in it.
  pub move_rounds-ends :
      (rounds end_page : ℕ) (s : Moving)
      → end_page < rounds + s.page
      → end_page < (move_rounds rounds m z end_page type s).page
  unfolding move_rounds
  move_rounds-ends zero end_page s h = omega arith
  move_rounds-ends (suc rounds) end_page s h =
      ground (arith, move_one-advances s, move_rounds-ends rounds end_page (move_one m z type s))
