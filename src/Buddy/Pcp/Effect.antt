-- ===== src/Buddy/Pcp/Effect.antt =====
-- What `free_pcppages_bulk` does: as many pages as it is told leave the lists of the processor and
-- become free, and no page is lost.
use osandroid_kernel.Prelude.{
  ℕ, zero, suc, ◌+◌, ◌-◌, ◌≤◌, ◌<◌, ◌≡◌, inl, inr, refl, ap, ◌∙◌, Bool, true, false, not, ◌&&◌,
  List, [], ◌∷◌, ◌==◌, if◌then◌else◌, if_elim, ==-refl, arith,
}
use native.Mathlib.Decide.{dec_lt}
use osandroid_kernel.Prelude.Lists.{length}
use osandroid_kernel.Prelude.Families.{put_at, sum_below, sum_below-put, sum_below_pos}
use osandroid_kernel.Buddy.{Machine, Zone, Migratetype, in_block, free_count, free_pages, IsValid}
use osandroid_kernel.Buddy.Free.Effect.{free_block-Frees}
use osandroid_kernel.Buddy.Bulk.Effect.{in_blocks}
use osandroid_kernel.Buddy.Pcp.{
  Draining, list_empty, next_list, find_list, set_batch, free_first, free_from, free_batch,
  drain_once, drain, free_pcppages_bulk,
}
use osandroid_kernel.Buddy.Pcp.Search.{find_list-to_free, find_list_full}

-- How often page `q` is on the lists, and how many pages are on them.
abbrev pub held : ℕ → (ℕ → List ℕ) → ℕ → ℕ
held pcptypes lists q = sum_below (λ pages. in_blocks 0 pages q) pcptypes lists

abbrev pub total : ℕ → (ℕ → List ℕ) → ℕ
total pcptypes lists = sum_below length pcptypes lists

put_at-here : (i : ℕ) (ps : List ℕ) (f : ℕ → List ℕ) → put_at i ps f i ≡ ps
put_at-here i ps f = rw (==-refl i) refl

module _ (m : Machine) (pcptypes : ℕ) (decode : ℕ → Migratetype) (count : ℕ) (lists : ℕ → List ℕ)
    (z : Zone) where
  -- The pages on the lists of `s` and the free ones are those of the start, and the counts are right.
  abbrev pub Drains : Draining → Type 0
  Drains s =
      IsValid m s.zone
      × ((q : ℕ)
          → free_count m s.zone q + held pcptypes s.lists q
            ≡ free_count m z q + held pcptypes lists q)
      × (total pcptypes s.lists + count ≡ total pcptypes lists + s.to_free)
      × (free_pages m s.zone + s.to_free ≡ free_pages m z + count)
      × (s.migratetype < pcptypes)

  module _ (top : 0 < m.max_order)
      (once : (q : ℕ) → free_count m z q + held pcptypes lists q ≤ 1) where
    free_first-Drains :
        (s : Draining) (page : ℕ) (pages : List ℕ)
        → s.lists s.migratetype ≡ page ∷ pages
        → 0 < s.to_free
        → Drains s
        → Drains (free_first m pcptypes decode page pages s)
    free_first-Drains s page pages e some_left (v, same, sum, free, lt) =
        let (v', freed, added) =
          free_block-Frees m s.zone page 0 (decode (s.zone.page_private page)) top (omega arith) v
            room in
        (
          v',
          λ q. omega (arith, freed q, same q, held_rest q),
          omega (arith, sum, total_rest, some_left),
          omega (arith, added, free, some_left),
          lt,
        )
      where
        held_rest :
            (q : ℕ)
            → held pcptypes (put_at s.migratetype pages s.lists) q + in_block page 0 q
              ≡ held pcptypes s.lists q
        held_rest q = omega (
          arith,
          sum_below-put (λ ps. in_blocks 0 ps q) pcptypes s.migratetype pages s.lists lt,
          ap (λ ps. in_blocks 0 ps q) e,
        )

        total_rest :
            total pcptypes (put_at s.migratetype pages s.lists) + 1 ≡ total pcptypes s.lists
        total_rest = omega (
          arith,
          sum_below-put length pcptypes s.migratetype pages s.lists lt,
          ap (λ ps. length ps) e,
        )

        room : (q : ℕ) → free_count m s.zone q + in_block page 0 q ≤ 1
        room q = omega (arith, same q, once q, held_rest q)

    free_from-Drains :
        (loop : Draining → Draining) (ps : List ℕ) (s : Draining)
        → s.lists s.migratetype ≡ ps
        → list_empty ps ≡ false
        → 0 < s.to_free
        → Drains s
        → ((t : Draining)
            → list_empty (t.lists t.migratetype) ≡ false
            → 0 < t.to_free
            → Drains t
            → Drains (loop t) × ((loop t).to_free ≤ t.to_free))
        → Drains (free_from m pcptypes decode loop ps s)
          × ((free_from m pcptypes decode loop ps s).to_free < s.to_free)
    free_from-Drains loop [] s e full some_left d rest = absurd (ground (arith, full))
    free_from-Drains loop (page ∷ pages) s e full some_left d rest =
        split (t.to_free == 0) (t.batch_free == 0) (list_empty pages) refl refl
      where
        t : Draining
        t = free_first m pcptypes decode page pages s

        dt : Drains t
        dt = free_first-Drains s page pages e some_left d

        split :
            (a b c : Bool)
            → (t.to_free == 0) ≡ a
            → list_empty pages ≡ c
            → let t' = if not a && not b && not c then loop t else t in
              Drains t' × (t'.to_free < s.to_free)
        split true b c ea ec = (dt, omega (arith, some_left))
        split false true c ea ec = (dt, omega (arith, some_left))
        split false false true ea ec = (dt, omega (arith, some_left))
        split false false false ea ec =
            let (d', le) =
              rest t (ap list_empty (put_at-here s.migratetype pages s.lists) ∙ ec)
                (ground (arith, ea)) dt in
            (d', omega (arith, le, some_left))

    free_batch-Drains :
        (rounds : ℕ) (s : Draining)
        → list_empty (s.lists s.migratetype) ≡ false
        → 0 < s.to_free
        → Drains s
        → Drains (free_batch m pcptypes decode rounds s)
          × ((free_batch m pcptypes decode rounds s).to_free ≤ s.to_free)
    unfolding free_batch
    free_batch-Drains zero s full some_left d = (d, omega arith)
    free_batch-Drains (suc rounds) s full some_left d =
        let (d', less) =
          free_from-Drains (free_batch m pcptypes decode rounds) (s.lists s.migratetype) s refl full
            some_left d (λ t. free_batch-Drains rounds t) in
        (d', omega (arith, less))

    free_batch_less :
        (rounds : ℕ) (s : Draining)
        → 0 < rounds
        → list_empty (s.lists s.migratetype) ≡ false
        → 0 < s.to_free
        → Drains s
        → Drains (free_batch m pcptypes decode rounds s)
          × ((free_batch m pcptypes decode rounds s).to_free < s.to_free)
    unfolding free_batch
    free_batch_less zero s pos full some_left d = absurd (omega (arith, pos))
    free_batch_less (suc rounds) s pos full some_left d =
        free_from-Drains (free_batch m pcptypes decode rounds) (s.lists s.migratetype) s refl full
          some_left d (λ t. free_batch-Drains rounds t)

    -- The search ends at a list with pages, if there is one.
    find_list-Drains :
        (rounds : ℕ) (s : Draining) → Drains s → Drains (find_list m pcptypes decode rounds s)
    unfolding find_list
    find_list-Drains zero s d = d
    find_list-Drains (suc rounds) s (v, same, sum, free, lt) =
        let next : Drains (next_list m pcptypes decode s) = (v, same, sum, free, ground arith) in
        if_elim Drains (list_empty (s.lists ((next_list m pcptypes decode s).migratetype)))
          (find_list m pcptypes decode rounds (next_list m pcptypes decode s))
          (next_list m pcptypes decode s)
          (find_list-Drains rounds (next_list m pcptypes decode s) next) next

    full_length : (ps : List ℕ) → 0 < length ps → list_empty ps ≡ false
    full_length [] h = absurd (omega arith)
    full_length (p ∷ ps) h = refl

    found_full :
        (s : Draining)
        → 0 < s.to_free
        → count ≤ total pcptypes lists
        → Drains s
        → let t = find_list m pcptypes decode pcptypes s in
          list_empty (t.lists t.migratetype) ≡ false
    found_full s some_left enough (v, same, sum, free, lt) =
        let (i, i_lt, full) = sum_below_pos length pcptypes s.lists (omega (arith, sum)) in
        let is_full = full_length (s.lists i) full in
        elim (dec_lt s.migratetype i) [
          | yes ahead ↦
              find_list_full m pcptypes decode pcptypes (i - s.migratetype) i s lt
                (inl (omega arith)) i_lt (omega arith) (omega arith) is_full
          | no behind ↦
              find_list_full m pcptypes decode pcptypes (i + pcptypes - s.migratetype) i s lt
                (inr (omega arith)) i_lt (omega arith) (omega arith) is_full
        ]

    drain_once-Drains :
        (s : Draining)
        → 0 < s.to_free
        → count ≤ total pcptypes lists
        → Drains s
        → Drains (drain_once m pcptypes decode s)
          × ((drain_once m pcptypes decode s).to_free < s.to_free)
    unfolding drain_once
    drain_once-Drains s some_left enough d =
        let t = find_list m pcptypes decode pcptypes s in
        let left : 0 < t.to_free =
          omega (arith, find_list-to_free m pcptypes decode pcptypes s, some_left) in
        let (d', less) =
          free_batch_less t.to_free (set_batch m pcptypes decode t) left
            (found_full s some_left enough d) left (find_list-Drains pcptypes s d) in
        (d', omega (arith, less, find_list-to_free m pcptypes decode pcptypes s))

    drain-Drains :
        (rounds : ℕ) (s : Draining)
        → s.to_free ≤ rounds
        → count ≤ total pcptypes lists
        → Drains s
        → Drains (drain m pcptypes decode rounds s)
          × ((drain m pcptypes decode rounds s).to_free ≡ 0)
    unfolding drain
    drain-Drains zero s le enough d = (d, omega (arith, le))
    drain-Drains (suc rounds) s le enough d = split (s.to_free == 0) refl (λ some_left.
        let (d', less) = drain_once-Drains s some_left enough d in
        drain-Drains rounds (drain_once m pcptypes decode s) (omega (arith, less, le)) enough d')
      where
        split :
            (b : Bool)
            → (s.to_free == 0) ≡ b
            → (0 < s.to_free
                → Drains (drain m pcptypes decode rounds (drain_once m pcptypes decode s))
                  × ((drain m pcptypes decode rounds (drain_once m pcptypes decode s)).to_free ≡ 0))
            → let t =
                if b then s else drain m pcptypes decode rounds (drain_once m pcptypes decode s) in
              Drains t × (t.to_free ≡ 0)
        split true e rest = (d, ground (arith, e))
        split false e rest = rest (ground (arith, e))

    -- `free_pcppages_bulk`, told of no more pages than are on the lists of a processor, ends with all
    -- of them freed: that many pages fewer are on the lists and as many more are free, each page is on
    -- the lists or free as it was, and the zone stays valid. The zone is valid at first, no page is
    -- free or on the lists twice, and there is an order and a list.
    pub free_pcppages_bulk-Drains :
        0 < pcptypes
        → IsValid m z
        → count ≤ total pcptypes lists
        → Drains (free_pcppages_bulk m pcptypes decode count lists z)
          × ((free_pcppages_bulk m pcptypes decode count lists z).to_free ≡ 0)
    unfolding free_pcppages_bulk
    free_pcppages_bulk-Drains pos v enough =
        drain-Drains count
          (record {
            zone = z;
            lists = lists;
            migratetype = 0;
            batch_free = 0;
            to_free = count;
            cma_freed = 0;
          })
          (omega arith) enough (v, λ q. refl, refl, refl, pos)
