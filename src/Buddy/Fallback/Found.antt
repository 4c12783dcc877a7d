-- ===== src/Buddy/Fallback/Found.antt =====
-- A block is found whenever a list that the allocation looks at has one that is large enough.
use osandroid_kernel.Prelude.{
  ℕ, zero, suc, ◌+◌, ◌-◌, ◌≤◌, ◌<◌, ◌≡◌, refl, sym, ap, ◌∙◌, Bool, true, false, ◌||◌, none, some,
  List, [], ◌∷◌, is_some, if◌then◌else◌, if_elim, arith,
}
use mathlib.Core.Path.{subst}
use native.Mathlib.Decide.{ℕ_discrete}
use osandroid_kernel.Buddy.{
  Machine, Zone, Migratetype, unmovable, reclaimable, movable, cma, isolate, reserve, same_type,
}
use osandroid_kernel.Buddy.Alloc.{expand, Answer, first_or, smallest_from, rmqueue_smallest}
use osandroid_kernel.Buddy.Blocks.{take_block}
use osandroid_kernel.Buddy.Fallback.{
  fallbacks, take_fallback, fallback_types, fallback_from, rmqueue_fallback, or_else, rmqueue,
}

-- `type` stands in the row before `MIGRATE_RESERVE`.
unfoldable pub stands_before_reserve : Migratetype → List Migratetype → Bool
stands_before_reserve type [] = false
stands_before_reserve type (t ∷ ts) =
    let rest = stands_before_reserve type ts in
    if same_type t reserve then false else same_type t type || rest

-- The types whose lists an allocation of `type` looks at.
unfoldable pub looks_at : Machine → (type other : Migratetype) → Bool
looks_at m type other =
    same_type type other
    || same_type other reserve
    || stands_before_reserve other (fallbacks m type)

same_type→eq : (s t : Migratetype) → same_type s t ≡ true → s ≡ t
same_type→eq s t h = ground (arith, h)

first_or-is_some :
    (pages : List ℕ) (found : ℕ → ℕ × Zone) (other : Answer)
    → is_some other ≡ true
    → is_some (first_or pages (λ p. some (found p)) other) ≡ true
first_or-is_some [] found other h = h
first_or-is_some (page ∷ pages) found other h = refl

first_or_found :
    (page : ℕ) (ps pages : List ℕ) (found : ℕ → ℕ × Zone) (other : Answer)
    → ps ≡ page ∷ pages
    → is_some (first_or ps (λ p. some (found p)) other) ≡ true
first_or_found page [] pages found other h = ground arith
first_or_found page (p ∷ ps) pages found other h = refl

or_else-is_some_left : (a b : Answer) → is_some a ≡ true → is_some (or_else a b) ≡ true
or_else-is_some_left none b h = ground (arith, h)
or_else-is_some_left (some a) b h = refl

or_else-is_some_right : (a b : Answer) → is_some b ≡ true → is_some (or_else a b) ≡ true
or_else-is_some_right none b h = h
or_else-is_some_right (some a) b h = refl

-- `MIGRATE_RESERVE` looks at its own lists alone.
looks_at-reserve :
    (m : Machine) (type other : Migratetype)
    → same_type type reserve ≡ true
    → looks_at m type other ≡ true
    → same_type type other ≡ true
unfolding looks_at stands_before_reserve fallbacks
looks_at-reserve m unmovable other e h = ground arith
looks_at-reserve m reclaimable other e h = ground arith
looks_at-reserve m movable other e h = ground arith
looks_at-reserve m cma other e h = ground arith
looks_at-reserve m isolate other e h = ground arith
looks_at-reserve m reserve other e h = ground arith

module _ (m : Machine) (z : Zone) (order o page : ℕ) (pages : List ℕ) where
  smallest_from-is_some :
      (rounds current_order : ℕ) (type : Migratetype)
      → current_order ≤ o
      → o < current_order + rounds
      → z.free_list o type ≡ page ∷ pages
      → is_some (smallest_from rounds order current_order type z) ≡ true
  unfolding smallest_from
  smallest_from-is_some zero current_order type le lt e = absurd (omega arith)
  smallest_from-is_some (suc rounds) current_order type le lt e =
      elim (ℕ_discrete current_order o) [
        | yes here ↦
            first_or_found page (z.free_list current_order type) pages
              (λ p. (p, expand p order current_order type (take_block p current_order z)))
              (smallest_from rounds order (suc current_order) type z)
              (ap (λ k. z.free_list k type) here ∙ e)
        | no later ↦
            first_or-is_some (z.free_list current_order type)
              (λ p. (p, expand p order current_order type (take_block p current_order z)))
              (smallest_from rounds order (suc current_order) type z)
              (smallest_from-is_some rounds (suc current_order) type (omega arith) (omega arith) e)
      ]

  fallback_types-rest :
      (current_order : ℕ) (start : Migratetype) (types : List Migratetype) (other : Answer)
      → is_some other ≡ true
      → is_some (fallback_types m order current_order start types z other) ≡ true
  unfolding fallback_types
  fallback_types-rest current_order start [] other h = h
  fallback_types-rest current_order start (t ∷ ts) other h =
      let rest = fallback_types m order current_order start ts z other in
      if_elim (λ a. is_some a ≡ true) (same_type t reserve) other
        (first_or (z.free_list current_order t)
          (λ p. some (p, take_fallback m order current_order start t p z)) rest)
        h
        (first_or-is_some (z.free_list current_order t)
          (λ p. (p, take_fallback m order current_order start t p z)) rest
          (fallback_types-rest current_order start ts other h))

  fallback_types-is_some :
      (start type : Migratetype) (types : List Migratetype) (other : Answer)
      → z.free_list o type ≡ page ∷ pages
      → stands_before_reserve type types ≡ true
      → is_some (fallback_types m order o start types z other) ≡ true
  unfolding fallback_types stands_before_reserve
  fallback_types-is_some start type [] other e h = ground arith
  fallback_types-is_some start type (t ∷ ts) other e h =
      let rest = fallback_types m order o start ts z other in
      let ih = fallback_types-is_some start type ts other e in
      split (same_type t reserve) (same_type t type) refl refl h ih
    where
      found : ℕ → ℕ × Zone
      found p = (p, take_fallback m order o start t p z)

      split :
          (r s : Bool)
          → same_type t reserve ≡ r
          → same_type t type ≡ s
          → (if r then false else s || stands_before_reserve type ts) ≡ true
          → (stands_before_reserve type ts ≡ true
              → is_some (fallback_types m order o start ts z other) ≡ true)
          → is_some (
              if r
              then other
              else first_or
                  (z.free_list o t)
                  (λ p. some (found p))
                  (fallback_types m order o start ts z other))
            ≡ true
      split true s er es h ih = ground arith
      split false true er es h ih =
          first_or_found page (z.free_list o t) pages found
            (fallback_types m order o start ts z other)
            (ap (λ k. z.free_list o k) (same_type→eq t type es) ∙ e)
      split false false er es h ih =
          first_or-is_some (z.free_list o t) found (fallback_types m order o start ts z other)
            (ih h)

  fallback_from-is_some :
      (rounds : ℕ) (start type : Migratetype)
      → order ≤ o
      → o < order + rounds
      → z.free_list o type ≡ page ∷ pages
      → stands_before_reserve type (fallbacks m start) ≡ true
      → is_some (fallback_from rounds m order start z) ≡ true
  unfolding fallback_from
  fallback_from-is_some zero start type le lt e h = absurd (omega arith)
  fallback_from-is_some (suc rounds) start type le lt e h = elim (ℕ_discrete o (order + rounds)) [
    | yes here ↦
        subst
          (λ k.
            is_some (
              fallback_types m order k start (fallbacks m start) z
                (fallback_from rounds m order start z))
            ≡ true)
          here
          (fallback_types-is_some start type (fallbacks m start)
            (fallback_from rounds m order start z) e h)
    | no later ↦
        fallback_types-rest (order + rounds) start (fallbacks m start)
          (fallback_from rounds m order start z)
          (fallback_from-is_some rounds start type le (omega arith) e h)
  ]

  -- An allocation succeeds when a list of a type that it looks at (its own, those in its row of
  -- `fallbacks`, and `MIGRATE_RESERVE`) has a block of the order or a greater one below `max_order`.
  pub rmqueue-is_some :
      (type other : Migratetype)
      → looks_at m type other ≡ true
      → order ≤ o
      → o < m.max_order
      → z.free_list o other ≡ page ∷ pages
      → is_some (rmqueue m order type z) ≡ true
  unfolding rmqueue looks_at rmqueue_fallback rmqueue_smallest
  rmqueue-is_some type other h le lt e =
      split (same_type type other) refl (same_type type reserve) refl (same_type other reserve) refl
    where
      smallest : Migratetype → Answer
      smallest t = smallest_from (m.max_order - order) order order t z

      fallback : Answer
      fallback = fallback_from (m.max_order - order) m order type z

      split :
          (s : Bool)
          → same_type type other ≡ s
          → (r : Bool) → same_type type reserve ≡ r
          → (k : Bool) → same_type other reserve ≡ k
          → is_some
              (or_else (smallest type) (if r then none else or_else fallback (smallest reserve)))
            ≡ true
      split true es r er k ek =
          or_else-is_some_left (smallest type)
            (if r then none else or_else fallback (smallest reserve))
            (smallest_from-is_some (m.max_order - order) order type le (omega arith)
              (ap (λ t. z.free_list o t) (same_type→eq type other es) ∙ e))
      split false es true er k ek = absurd (ground (arith, looks_at-reserve m type other er h, es))
      split false es false er true ek =
          or_else-is_some_right (smallest type) (or_else fallback (smallest reserve)) (
            or_else-is_some_right fallback (smallest reserve) (
              smallest_from-is_some (m.max_order - order) order reserve le (omega arith)
                (ap (λ t. z.free_list o t) (sym (same_type→eq other reserve ek)) ∙ e)))
      split false es false er false ek =
          or_else-is_some_right (smallest type) (or_else fallback (smallest reserve)) (
            or_else-is_some_left fallback (smallest reserve) (
              fallback_from-is_some (m.max_order - order) type other le (omega arith) e
                (ground (arith, h))))
