-- ===== src/Buddy/Buffered/Effect.antt =====
-- What `buffered_rmqueue` does to the zone and to the lists of the processor.
use osandroid_kernel.Prelude.{
  ℕ, zero, suc, ◌+◌, ◌<◌, ◌≡◌, refl, Bool, true, false, Option, none, some, List, [], ◌∷◌,
  if◌then◌else◌, if_elim, ◌∙◌, arith,
}
use native.Mathlib.Nat.{one-le-pow}
use osandroid_kernel.Prelude.Lists.{All}
use osandroid_kernel.Buddy.{Machine, Migratetype, in_block, Aligned}
use osandroid_kernel.Buddy.Bulk.{BulkRequest, remove}
use osandroid_kernel.Buddy.Bulk.Effect.{in_blocks}
use osandroid_kernel.Buddy.HotCold.{PerCpu}
use osandroid_kernel.Buddy.HotCold.Effect.{IsPerCpu, owned}
use osandroid_kernel.Buddy.Buffered.{Grab, take_once, try_again, buffered_rmqueue}
use osandroid_kernel.Buddy.Buffered.Take.{stock, Leaves, take_once-Grabs}
use osandroid_kernel.Buddy.Buffered.Empty.{take_once-none, take_once-batch}

module _ (m : Machine) (pcptypes : ℕ) (encode : Migratetype → ℕ) (r : BulkRequest)
    (accepted : ℕ → Bool) where
  -- The block at the answer, if there is one, and those at `refused` are what `s'` has less than `s`.
  abbrev pub Answers : PerCpu → List ℕ → Option ℕ → PerCpu → Type 0
  Answers s refused none s' =
      ((q : ℕ) → owned m pcptypes s' q + in_blocks r.order refused q ≡ owned m pcptypes s q)
      × (remove m r s'.zone ≡ none)
  Answers s refused (some page) s' =
      ((q : ℕ)
        → owned m pcptypes s' q + in_block page r.order q + in_blocks r.order refused q
          ≡ owned m pcptypes s q)
      × Aligned page r.order
      × (accepted page ≡ true)

  abbrev pub Allocates : PerCpu → Grab → Type 0
  Allocates s g =
      IsPerCpu m pcptypes g.state
      × ((refused : List ℕ) × All (λ page. accepted page ≡ false) refused
          × Answers s refused g.page g.state)

  -- A block that is refused is one more that is missing.
  refuse :
      (s s' s'' : PerCpu) (bad : ℕ) (refused : List ℕ) (page : Option ℕ)
      → ((q : ℕ) → owned m pcptypes s' q + in_block bad r.order q ≡ owned m pcptypes s q)
      → Answers s' refused page s''
      → Answers s (bad ∷ refused) page s''
  refuse s s' s'' bad refused none left (same, no_block) =
      (λ q. omega (arith, left q, same q), no_block)
  refuse s s' s'' bad refused (some page) left (same, al, ok) =
      (λ q. omega (arith, left q, same q), al, ok)

  module _ (lt : encode r.type < pcptypes) where
    go :
        (s s' : PerCpu) (page : Option ℕ) (loop : PerCpu → Grab)
        → IsPerCpu m pcptypes s'
        → Leaves m pcptypes r.order s page s'
        → (page ≡ none → remove m r s'.zone ≡ none)
        → (stock m pcptypes s' < stock m pcptypes s → Allocates s' (loop s'))
        → Allocates s (try_again encode m r accepted loop page s')
    go s s' none loop valid (same, size) no_block again =
        (valid, ([], tt, ((λ q. omega (arith, same q)), no_block refl)))
    go s s' (some page) loop valid (same, size, al) no_block again = split (accepted page) refl
      where
        split :
            (b : Bool)
            → accepted page ≡ b
            → Allocates s (if b then (record { page = some page; state = s' }) else loop s')
        split true e = (valid, ([], tt, ((λ q. omega (arith, same q)), al, e)))
        split false e =
            let (valid', (refused, all_refused, answer)) =
              again (omega (arith, size, one-le-pow r.order 2 (omega arith))) in
            let g = loop s' in
            (
              valid',
              (
                page ∷ refused,
                (e, all_refused),
                refuse s s' g.state page refused g.page same answer,
              ),
            )

    -- With more rounds than there are pages in the zone and on the lists of the processor, which has
    -- a batch and a list for the type, `buffered_rmqueue` ends: it answers an aligned block of pages
    -- that were free or on the lists and are so no more, and that `prep_new_page` accepts, or none,
    -- and then the zone has no block for the request. But for the blocks that `prep_new_page` has
    -- refused, no other page is lost or gained; the zone stays valid and the count of the processor
    -- that of its lists.
    pub buffered_rmqueue-Allocates :
        (rounds : ℕ) (s : PerCpu)
        → 0 < s.batch
        → IsPerCpu m pcptypes s
        → stock m pcptypes s < rounds
        → Allocates s (buffered_rmqueue encode m r accepted rounds s)
    unfolding buffered_rmqueue
    buffered_rmqueue-Allocates zero s some_batch valid enough = absurd (omega (arith, enough))
    buffered_rmqueue-Allocates (suc rounds) s some_batch valid enough =
        let (valid', left) = take_once-Grabs m pcptypes encode r s lt valid in
        let g = take_once encode m r s in
        let kept = take_once-batch m encode r s in
        go s g.state g.page (buffered_rmqueue encode m r accepted rounds) valid' left
          (take_once-none m encode r s some_batch valid.0)
          (λ fewer.
            buffered_rmqueue-Allocates rounds g.state (omega (arith, kept, some_batch)) valid'
              (omega (arith, fewer, enough)))

    try_again-batch :
        (s s' : PerCpu) (page : Option ℕ) (loop : PerCpu → Grab)
        → s'.batch ≡ s.batch
        → (loop s').state.batch ≡ s'.batch
        → (try_again encode m r accepted loop page s').state.batch ≡ s.batch
    try_again-batch s s' none loop e again = e
    try_again-batch s s' (some page) loop e again =
        if_elim (λ (g : Grab). g.state.batch ≡ s.batch) (accepted page)
          (record { page = some page; state = s' }) (loop s') e (again ∙ e)

    pub buffered_rmqueue-batch :
        (rounds : ℕ) (s : PerCpu)
        → (buffered_rmqueue encode m r accepted rounds s).state.batch ≡ s.batch
    unfolding buffered_rmqueue
    buffered_rmqueue-batch zero s = refl
    buffered_rmqueue-batch (suc rounds) s =
        let g = take_once encode m r s in
        try_again-batch s g.state g.page (buffered_rmqueue encode m r accepted rounds)
          (take_once-batch m encode r s) (buffered_rmqueue-batch rounds g.state)
