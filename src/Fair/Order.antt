-- ===== src/Fair/Order.antt =====
-- The tree keeps the entities in the order of their virtual run times, and the cached node is the
-- first one.
use osandroid_kernel.Prelude.{
  ℕ, ◌^◌, ◌≤◌, ◌<◌, ◌≡◌, refl, sym, ap, ◌∙◌, Bool, true, false, Option, none, some, List, [], ◌∷◌,
  ◌++◌, ltb, ltb→lt, if◌then◌else◌, if_elim, arith,
}
use mathlib.Core.Path.{subst}
use osandroid_kernel.Prelude.Lists.{All, All-map}
use osandroid_kernel.Fair.{
  sub_u64, is_negative, Tree, leaf, node, in_order, first, RbTree, CfsRq, entity_before,
  link_entity, goes_leftmost, enqueue_entity,
}

-- The time of `v` since `base`, both 64-bit numbers.
abbrev pub since : ℕ → ℕ → ℕ
since base v = sub_u64 v base

-- Within half of the range from `base`.
abbrev pub InWindow : ℕ → ℕ → Type 0
InWindow base v = (v < 2 ^ 64) × (since base v < 2 ^ 63)

before-since :
    (base a b : ℕ)
    → base < 2 ^ 64
    → InWindow base a
    → InWindow base b
    → is_negative (sub_u64 a b) ≡ ltb (since base a) (since base b)
before-since base a b h ha hb = ground arith

pub All-left {ℓ κ} : {A : Type ℓ} (P : A → Type κ) (xs ys : List A) → All P (xs ++ ys) → All P xs
All-left P [] ys h = tt
All-left P (x ∷ xs) ys h = (h.0, All-left P xs ys h.1)

pub All-right {ℓ κ} : {A : Type ℓ} (P : A → Type κ) (xs ys : List A) → All P (xs ++ ys) → All P ys
All-right P [] ys h = h
All-right P (x ∷ xs) ys h = All-right P xs ys h.1

module _ (key : ℕ → ℕ) where
  abbrev pub Sorted : List ℕ → Type 0
  Sorted [] = Unit
  Sorted (x ∷ xs) = All (λ y. key x ≤ key y) xs × Sorted xs

  -- Where an entity goes in a sorted list: after all that are not later.
  unfoldable pub insert_by : ℕ → List ℕ → List ℕ
  insert_by se [] = se ∷ []
  insert_by se (e ∷ es) =
      let rest = insert_by se es in if ltb (key se) (key e) then se ∷ e ∷ es else e ∷ rest

  Sorted-left : (xs ys : List ℕ) → Sorted (xs ++ ys) → Sorted xs
  Sorted-left [] ys h = tt
  Sorted-left (x ∷ xs) ys h = (All-left (λ y. key x ≤ key y) xs ys h.0, Sorted-left xs ys h.1)

  Sorted-right : (xs ys : List ℕ) → Sorted (xs ++ ys) → Sorted ys
  Sorted-right [] ys h = h
  Sorted-right (x ∷ xs) ys h = Sorted-right xs ys h.1

  not_later :
      (xs : List ℕ) (e : ℕ) (ys : List ℕ) → Sorted (xs ++ e ∷ ys) → All (λ x. key x ≤ key e) xs
  not_later [] e ys h = tt
  not_later (x ∷ xs) e ys h =
      let later = All-right (λ y. key x ≤ key y) xs (e ∷ ys) h.0 in (later.0, not_later xs e ys h.1)

  insert_left :
      (se e : ℕ) (xs ys : List ℕ)
      → ltb (key se) (key e) ≡ true
      → insert_by se (xs ++ e ∷ ys) ≡ insert_by se xs ++ e ∷ ys
  unfolding insert_by
  insert_left se e [] ys h = rw h refl
  insert_left se e (x ∷ xs) ys h = split (ltb (key se) (key x)) (insert_left se e xs ys h)
    where
      split :
          (b : Bool)
          → insert_by se (xs ++ e ∷ ys) ≡ insert_by se xs ++ e ∷ ys
          → (if b then se ∷ x ∷ (xs ++ e ∷ ys) else x ∷ insert_by se (xs ++ e ∷ ys))
            ≡ (if b then se ∷ x ∷ xs else x ∷ insert_by se xs) ++ e ∷ ys
      split true ih = refl
      split false ih = ap (λ t. x ∷ t) ih

  insert_right :
      (se e : ℕ) (xs ys : List ℕ)
      → ltb (key se) (key e) ≡ false
      → All (λ x. key x ≤ key e) xs
      → insert_by se (xs ++ e ∷ ys) ≡ xs ++ e ∷ insert_by se ys
  unfolding insert_by
  insert_right se e [] ys h a = rw h refl
  insert_right se e (x ∷ xs) ys h a =
      rw (later (key se) (key e) (key x) h a.0) (ap (λ t. x ∷ t) (insert_right se e xs ys h a.1))
    where
      later : (s k j : ℕ) → ltb s k ≡ false → j ≤ k → ltb s j ≡ false
      later s k j h le = ground arith

  insert_by-All :
      (P : ℕ → Type 0) (se : ℕ) (xs : List ℕ) → P se → All P xs → All P (insert_by se xs)
  unfolding insert_by
  insert_by-All P se [] p h = (p, tt)
  insert_by-All P se (x ∷ xs) p h =
      if_elim (All P) (ltb (key se) (key x)) (se ∷ x ∷ xs) (x ∷ insert_by se xs) (p, h)
        (h.0, insert_by-All P se xs p h.1)

  insert_by-Sorted : (se : ℕ) (xs : List ℕ) → Sorted xs → Sorted (insert_by se xs)
  unfolding insert_by
  insert_by-Sorted se [] h = (tt, tt)
  insert_by-Sorted se (x ∷ xs) h = split (ltb (key se) (key x)) refl (insert_by-Sorted se xs h.1)
    where
      split :
          (b : Bool)
          → ltb (key se) (key x) ≡ b
          → Sorted (insert_by se xs)
          → Sorted (if b then se ∷ x ∷ xs else x ∷ insert_by se xs)
      split true e ih = (
        (ground (arith, e), All-map (λ y le. omega (arith, le, ltb→lt (key se) (key x) e)) xs h.0),
        h,
      )
      split false e ih = (insert_by-All (λ y. key x ≤ key y) se xs (ground (arith, e)) h.0, ih)

or_first : Option ℕ → Option ℕ → Option ℕ
or_first none o = o
or_first (some e) o = some e

first-append : (xs ys : List ℕ) → first (xs ++ ys) ≡ or_first (first xs) (first ys)
unfolding or_first
first-append [] ys = refl
first-append (x ∷ xs) ys = refl

-- The tree of `q` is sorted by the time since `base`, which no entity is out of the window of, and its
-- cached node is the first.
abbrev pub IsQueue : (ℕ → ℕ) → ℕ → CfsRq → Type 0
IsQueue vruntime base q =
    Sorted (λ e. since base (vruntime e)) (in_order q.tasks_timeline)
    × All (λ e. InWindow base (vruntime e)) (in_order q.tasks_timeline)
    × (q.rb_leftmost ≡ first (in_order q.tasks_timeline))

module _ (vruntime : ℕ → ℕ) (base : ℕ) (fits : base < 2 ^ 64) (se : ℕ)
    (near : InWindow base (vruntime se)) where
  abbrev key : ℕ → ℕ
  key e = since base (vruntime e)

  link_lem :
      (t : Tree)
      → Sorted (λ e. since base (vruntime e)) (in_order t)
      → All (λ e. InWindow base (vruntime e)) (in_order t)
      → in_order (link_entity vruntime se t)
        ≡ insert_by (λ e. since base (vruntime e)) se (in_order t)
  unfolding link_entity insert_by
  link_lem leaf sorted near_all = refl
  link_lem (node l e r) sorted near_all =
      split (entity_before vruntime se e) refl
        (link_lem l (Sorted-left key (in_order l) (e ∷ in_order r) sorted)
          (All-left (λ k. InWindow base (vruntime k)) (in_order l) (e ∷ in_order r) near_all))
        (link_lem r right_sorted.1 right_near.1)
    where
      right_sorted : Sorted key (e ∷ in_order r)
      right_sorted = Sorted-right key (in_order l) (e ∷ in_order r) sorted

      right_near : All (λ k. InWindow base (vruntime k)) (e ∷ in_order r)
      right_near =
          All-right (λ k. InWindow base (vruntime k)) (in_order l) (e ∷ in_order r) near_all

      same : entity_before vruntime se e ≡ ltb (key se) (key e)
      same = before-since base (vruntime se) (vruntime e) fits near right_near.0

      split :
          (b : Bool)
          → entity_before vruntime se e ≡ b
          → in_order (link_entity vruntime se l) ≡ insert_by key se (in_order l)
          → in_order (link_entity vruntime se r) ≡ insert_by key se (in_order r)
          → in_order (
              if b
              then node (link_entity vruntime se l) e r
              else node l e (link_entity vruntime se r))
            ≡ insert_by key se (in_order l ++ e ∷ in_order r)
      split true eb left right =
          ap (λ xs. xs ++ e ∷ in_order r) left
          ∙ sym (insert_left key se e (in_order l) (in_order r) (sym same ∙ eb))
      split false eb left right =
          ap (λ ys. in_order l ++ e ∷ ys) right
          ∙ sym (
              insert_right key se e (in_order l) (in_order r) (sym same ∙ eb)
                (not_later key (in_order l) e (in_order r) sorted))

  goes_leftmost_lem :
      (t : Tree)
      → (if goes_leftmost vruntime se t then some se else first (in_order t))
        ≡ first (in_order (link_entity vruntime se t))
  unfolding goes_leftmost link_entity or_first
  goes_leftmost_lem leaf = refl
  goes_leftmost_lem (node l e r) =
      split (entity_before vruntime se e) (goes_leftmost vruntime se l) (goes_leftmost_lem l)
    where
      split :
          (b g : Bool)
          → (if g then some se else first (in_order l))
            ≡ first (in_order (link_entity vruntime se l))
          → (if (if b then g else false) then some se else first (in_order l ++ e ∷ in_order r))
            ≡ first (
                in_order (
                  if b
                  then node (link_entity vruntime se l) e r
                  else node l e (link_entity vruntime se r)))
      split true true ih =
          ap (λ o. or_first o (some e)) ih
          ∙ sym (first-append (in_order (link_entity vruntime se l)) (e ∷ in_order r))
      split true false ih =
          first-append (in_order l) (e ∷ in_order r)
          ∙ ap (λ o. or_first o (some e)) ih
          ∙ sym (first-append (in_order (link_entity vruntime se l)) (e ∷ in_order r))
      split false g ih =
          first-append (in_order l) (e ∷ in_order r)
          ∙ sym (first-append (in_order l) (e ∷ in_order (link_entity vruntime se r)))

  -- Enqueueing an entity puts it in the sorted list of the tree where the reference insertion does,
  -- after all that are not later, and the queue stays sorted with its first node cached, if it was
  -- and all virtual run times are within half of the 64-bit range.
  pub enqueue_entity-IsQueue :
      (rb : RbTree) (q : CfsRq)
      → IsQueue vruntime base q
      → IsQueue vruntime base (enqueue_entity vruntime rb se q)
        × (in_order (enqueue_entity vruntime rb se q).tasks_timeline
            ≡ insert_by (λ e. since base (vruntime e)) se (in_order q.tasks_timeline))
  unfolding enqueue_entity
  enqueue_entity-IsQueue rb q (sorted, near_all, cached) =
      let t = q.tasks_timeline in
      let linked = link_lem t sorted near_all in
      let order = rb.in_order-insert_color (link_entity vruntime se t) ∙ linked in
      (
        (
          subst (Sorted key) (sym order) (insert_by-Sorted key se (in_order t) sorted),
          subst (All (λ e. InWindow base (vruntime e))) (sym order)
              (insert_by-All key (λ e. InWindow base (vruntime e)) se (in_order t) near near_all),
          ap (λ o. if goes_leftmost vruntime se t then some se else o) cached
              ∙ goes_leftmost_lem t
              ∙ ap first (sym (rb.in_order-insert_color (link_entity vruntime se t))),
        ),
        order,
      )
