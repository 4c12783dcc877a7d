-- ===== src/Buddy/Pcp/Search.antt =====
-- The search of `free_pcppages_bulk` goes round the lists, and ends at one with pages if there is one.
use osandroid_kernel.Prelude.{
  ℕ, zero, suc, ◌+◌, ◌-◌, ◌≤◌, ◌<◌, ◌≡◌, ◌≢◌, ◌⊎◌, inl, inr, refl, ap, Bool, true, false, ◌==◌,
  if◌then◌else◌, if_elim, arith,
}
use native.Mathlib.Decide.{ℕ_discrete}
use osandroid_kernel.Buddy.{Machine, Migratetype}
use osandroid_kernel.Buddy.Pcp.{Draining, list_empty, next_list, find_list}

-- The next index in the round, and how far it is from `i`.
module _ (t d i n : ℕ) (lt : t < n) (i_lt : i < n) (pos : 0 < d)
    (at : (t + d ≡ i) ⊎ (t + d ≡ i + n)) (elsewhere : (if suc t == n then 0 else suc t) ≢ i) where
  further : 1 < d
  further = elim at [ inl here ↦ ground arith | inr past ↦ ground arith ]

  still :
      ((if suc t == n then 0 else suc t) + (d - 1) ≡ i)
      ⊎ ((if suc t == n then 0 else suc t) + (d - 1) ≡ i + n)
  still = elim (ℕ_discrete (suc t) n) [
    | yes last ↦ inl (elim at [ inl here ↦ ground arith | inr past ↦ ground arith ])
    | no before ↦ elim at [ inl here ↦ inl (ground arith) | inr past ↦ inr (ground arith) ]
  ]

module _ (m : Machine) (pcptypes : ℕ) (decode : ℕ → Migratetype) where
  pub find_list-to_free :
      (rounds : ℕ) (s : Draining) → (find_list m pcptypes decode rounds s).to_free ≡ s.to_free
  unfolding find_list
  find_list-to_free zero s = refl
  find_list-to_free (suc rounds) s =
      if_elim (λ t. t.to_free ≡ s.to_free)
        (list_empty (s.lists ((next_list m pcptypes decode s).migratetype)))
        (find_list m pcptypes decode rounds (next_list m pcptypes decode s))
        (next_list m pcptypes decode s) (find_list-to_free rounds (next_list m pcptypes decode s))
        refl

  pub find_list_full :
      (rounds d i : ℕ) (s : Draining)
      → s.migratetype < pcptypes
      → (s.migratetype + d ≡ i) ⊎ (s.migratetype + d ≡ i + pcptypes)
      → i < pcptypes
      → 0 < d
      → d ≤ rounds
      → list_empty (s.lists i) ≡ false
      → let t = find_list m pcptypes decode rounds s in list_empty (t.lists t.migratetype) ≡ false
  unfolding find_list
  find_list_full zero d i s lt at i_lt pos le full = absurd (omega (arith, pos, le))
  find_list_full (suc rounds) d i s lt at i_lt pos le full =
      split (list_empty (s.lists ((next_list m pcptypes decode s).migratetype))) refl (λ ne at'.
        find_list_full rounds (d - 1) i (next_list m pcptypes decode s) (ground arith) at' i_lt
          (omega (arith, ne)) (omega (arith, le)) full)
    where
      split :
          (b : Bool)
          → list_empty (s.lists ((next_list m pcptypes decode s).migratetype)) ≡ b
          → ((1 < d)
              → ((next_list m pcptypes decode s).migratetype + (d - 1) ≡ i)
                ⊎ ((next_list m pcptypes decode s).migratetype + (d - 1) ≡ i + pcptypes)
              → let t = find_list m pcptypes decode rounds (next_list m pcptypes decode s) in
                list_empty (t.lists t.migratetype) ≡ false)
          → let t =
              if b
              then find_list m pcptypes decode rounds (next_list m pcptypes decode s)
              else next_list m pcptypes decode s in
            list_empty (t.lists t.migratetype) ≡ false
      split false e rest = e
      split true e rest =
          rest (further s.migratetype d i pcptypes lt i_lt pos at elsewhere)
            (still s.migratetype d i pcptypes lt i_lt pos at elsewhere)
        where
          elsewhere : (if suc s.migratetype == pcptypes then 0 else suc s.migratetype) ≢ i
          elsewhere same = ground (arith, ap (λ j. list_empty (s.lists j)) same, e, full)
