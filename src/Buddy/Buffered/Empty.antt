-- ===== src/Buddy/Buffered/Empty.antt =====
-- When a round of `buffered_rmqueue` finds no page, the zone has none for the request.
use osandroid_kernel.Prelude.{
  ℕ, ◌+◌, ◌<◌, ◌≡◌, refl, sym, ap, ◌∙◌, Bool, true, false, Option, none, some, List, [], ◌∷◌, ◌++◌,
  inl, inr, ◌==◌, ==-refl, if◌then◌else◌, if_elim, arith,
}
use mathlib.Core.Path.{subst}
use osandroid_kernel.Prelude.Lists.{length}
use osandroid_kernel.Prelude.Families.{put_at}
use osandroid_kernel.Buddy.{Machine, Migratetype, IsValid}
use osandroid_kernel.Buddy.Alloc.{Answer}
use osandroid_kernel.Buddy.Bulk.{BulkRequest, Filling, remove, rmqueue_bulk}
use osandroid_kernel.Buddy.Bulk.Effect.{Ends, rmqueue_bulk-Fills}
use osandroid_kernel.Buddy.HotCold.{PerCpu}
use osandroid_kernel.Buddy.Buffered.{
  from_tail, take_page, Grab, fill_list, fill_if_empty, take_from_list, take_single, take_answer,
  take_once,
}
use osandroid_kernel.Buddy.Buffered.Take.{PartsAnswer, take_page-Parts, length-from_tail}

list_empty : (cold : Bool) (pages : List ℕ) → take_page cold pages ≡ none → pages ≡ []
list_empty cold pages e = subst (PartsAnswer pages) e (take_page-Parts cold pages)

put_at-here : (i : ℕ) (ps : List ℕ) (f : ℕ → List ℕ) → put_at i ps f i ≡ ps
put_at-here i ps f = rw (==-refl i) refl

module _ (m : Machine) (encode : Migratetype → ℕ) (r : BulkRequest) where
  from_list-none :
      (s : PerCpu) (taken : Option (ℕ × List ℕ))
      → (take_from_list encode m r taken s).page ≡ none
      → (taken ≡ none) × ((take_from_list encode m r taken s).state ≡ s)
  from_list-none s none e = (refl, refl)
  from_list-none s (some taken) e = absurd (cc e)

  from_answer-none :
      (s : PerCpu) (a : Answer)
      → (take_answer encode m r a s).page ≡ none
      → (a ≡ none) × ((take_answer encode m r a s).state ≡ s)
  from_answer-none s none e = (refl, refl)
  from_answer-none s (some taken) e = absurd (cc e)

  -- A list that is empty after it has been filled.
  fill_list-none :
      (s : PerCpu)
      → 0 < s.batch
      → IsValid m s.zone
      → (fill_list encode m r s).lists (encode r.type) ≡ []
      → remove m r (fill_list encode m r s).zone ≡ none
  fill_list-none s some_batch v e =
      let ((v', same, fewer, len), ends) = rmqueue_bulk-Fills encode m r [] s.zone s.batch v in
      split ends len
    where
      f : Filling
      f = rmqueue_bulk encode m r s.batch [] s.zone

      no_pages : length (f.front ++ f.back) ≡ 0
      no_pages = omega (
        arith,
        length-from_tail (f.front ++ f.back),
        ap length (sym (put_at-here (encode r.type) (from_tail (f.front ++ f.back)) s.lists) ∙ e),
      )

      split :
          Ends m r s.batch f → length (f.front ++ f.back) ≡ f.taken + 0 → remove m r f.zone ≡ none
      split (inr h) len = h
      split (inl h) len = absurd (omega (arith, h, len, no_pages, some_batch))

  filled-none :
      (s : PerCpu) (pages : List ℕ)
      → 0 < s.batch
      → IsValid m s.zone
      → s.lists (encode r.type) ≡ pages
      → (fill_if_empty encode m r pages s).lists (encode r.type) ≡ []
      → remove m r (fill_if_empty encode m r pages s).zone ≡ none
  filled-none s [] some_batch v at e = fill_list-none s some_batch v e
  filled-none s (page ∷ pages) some_batch v at e = absurd (omega (arith, ap length (sym at ∙ e)))

  take_single-none :
      (s : PerCpu)
      → 0 < s.batch
      → IsValid m s.zone
      → (take_single encode m r s).page ≡ none
      → remove m r (take_single encode m r s).state.zone ≡ none
  unfolding take_single
  take_single-none s some_batch v e =
      let filled = fill_if_empty encode m r (s.lists (encode r.type)) s in
      let pages = filled.lists (encode r.type) in
      let (no_page, same) = from_list-none filled (take_page r.cold pages) e in
      subst (λ (t : PerCpu). remove m r t.zone ≡ none) (sym same)
        (filled-none s (s.lists (encode r.type)) some_batch v refl
          (list_empty r.cold pages no_page))

  pub take_once-none :
      (s : PerCpu)
      → 0 < s.batch
      → IsValid m s.zone
      → (take_once encode m r s).page ≡ none
      → remove m r (take_once encode m r s).state.zone ≡ none
  unfolding take_once
  take_once-none s some_batch v = split (r.order == 0)
    where
      split :
          (b : Bool)
          → let g =
              if b
              then take_single encode m r s
              else take_answer encode m r (remove m r s.zone) s in
            g.page ≡ none → remove m r g.state.zone ≡ none
      split true e = take_single-none s some_batch v e
      split false e =
          let (no_page, same) = from_answer-none s (remove m r s.zone) e in
          subst (λ (t : PerCpu). remove m r t.zone ≡ none) (sym same) no_page

  fill_if_empty-batch :
      (s : PerCpu) (pages : List ℕ) → (fill_if_empty encode m r pages s).batch ≡ s.batch
  fill_if_empty-batch s [] = refl
  fill_if_empty-batch s (page ∷ pages) = refl

  take_from_list-batch :
      (s : PerCpu) (taken : Option (ℕ × List ℕ))
      → (take_from_list encode m r taken s).state.batch ≡ s.batch
  take_from_list-batch s none = refl
  take_from_list-batch s (some taken) = refl

  take_answer-batch : (s : PerCpu) (a : Answer) → (take_answer encode m r a s).state.batch ≡ s.batch
  take_answer-batch s none = refl
  take_answer-batch s (some taken) = refl

  pub take_once-batch : (s : PerCpu) → (take_once encode m r s).state.batch ≡ s.batch
  unfolding take_once take_single
  take_once-batch s =
      let filled = fill_if_empty encode m r (s.lists (encode r.type)) s in
      if_elim (λ (g : Grab). g.state.batch ≡ s.batch) (r.order == 0) (take_single encode m r s)
        (take_answer encode m r (remove m r s.zone) s)
        (take_from_list-batch filled (take_page r.cold (filled.lists (encode r.type)))
          ∙ fill_if_empty-batch s (s.lists (encode r.type)))
        (take_answer-batch s (remove m r s.zone))
