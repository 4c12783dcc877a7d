-- ===== src/Oom/Limit/Set.antt =====
-- What `set_mlimit` sets.
use osandroid_kernel.Prelude.{
  ℕ, ◌+◌, ◌*◌, ◌%◌, ◌^◌, ◌<◌, ◌≡◌, refl, sym, ap, ◌∙◌, Bool, true, false, Option, none, some, [],
  ◌∷◌, ◌==◌, if◌then◌else◌, is_some, arith, ==-refl,
}
use osandroid_kernel.Prelude.Lists.{All}
use osandroid_kernel.Prelude.Int.{ℤ, s32, wrap_long-+ℤ}
use osandroid_kernel.UserCache.{Hlist, with_ref, uidhashfn}
use osandroid_kernel.UserCache.Table.{IsTable, Hashed}
use osandroid_kernel.UserCache.Alloc.{find_user_lem}
use osandroid_kernel.Oom.{Ptr, Mm, Task, Tasks, filter_by, processes}
use osandroid_kernel.Oom.Select.{of_user}
use osandroid_kernel.Oom.Run.{page_size}
use osandroid_kernel.Oom.Limit.{
  Limits, rss_in, rss_of, limit_to, and_add, add_rss, with_limit, set_for, set_mlimit,
}

abbrev pub rss_or_zero : Option Mm → ℕ
rss_or_zero none = 0
rss_or_zero (some m) = m.rss

abbrev pub rss : Task → ℕ
rss p = rss_or_zero p.mm

rss_in-some : (o : Option Mm) → is_some o ≡ true → rss_in o ≡ some (rss_or_zero o)
unfolding rss_in
rss_in-some none h = absurd (cc)
rss_in-some (some m) h = refl

abbrev pub total_rss : Tasks → ℕ
total_rss [] = 0
total_rss (p ∷ ps) = rss p + total_rss ps

sum_step :
    (c a b : ℕ)
    → ((c + a * page_size) % 2 ^ 32 + b * page_size) % 2 ^ 32 ≡ (c + (a + b) * page_size) % 2 ^ 32
sum_step c a b = omega arith

sum_zero : (c : ℕ) → c < 2 ^ 32 → (c + 0 * page_size) % 2 ^ 32 ≡ c
sum_zero c h = omega (arith, h)

sum_lt : (n : ℕ) → n % 2 ^ 32 < 2 ^ 32
sum_lt n = omega arith

module _ (uid : ℕ) where
  abbrev own : Task → Bool
  own t = t.uid == uid

  rss_of-none : (p : Task) → own p ≡ false → rss_of uid p ≡ some 0
  unfolding rss_of
  rss_of-none p e = rw e

  rss_of-some : (p : Task) → own p ≡ true → is_some p.mm ≡ true → rss_of uid p ≡ some (rss p)
  unfolding rss_of
  rss_of-some p e h = rw e (rss_in-some p.mm h)

  adds :
      (p : Task) (ps : Tasks) (c r : ℕ)
      → rss_of uid p ≡ some r
      → c < 2 ^ 32
      → add_rss uid (p ∷ ps) (s32 c) ≡ add_rss uid ps (s32 ((c + r * page_size) % 2 ^ 32))
  unfolding add_rss and_add
  adds p ps c r e small =
      ap (λ o. and_add o (s32 c) (λ c'. add_rss uid ps c')) e
      ∙ ap (add_rss uid ps) (wrap_long-+ℤ c (r * page_size) small)

  abbrev Adds : (ps kept : Tasks) → Type 0
  Adds ps kept =
      (c : ℕ)
      → c < 2 ^ 32
      → add_rss uid ps (s32 c) ≡ some (s32 ((c + total_rss kept * page_size) % 2 ^ 32))

  Adds-if :
      (p : Task) (ps kept : Tasks) (b : Bool)
      → own p ≡ b
      → (All (λ t. is_some t.mm ≡ true) kept → Adds ps kept)
      → All (λ t. is_some t.mm ≡ true) (if b then p ∷ kept else kept)
      → Adds (p ∷ ps) (if b then p ∷ kept else kept)
  Adds-if p ps kept true e rest h c small =
      adds p ps c (rss p) (rss_of-some p e h.0) small
      ∙ rest h.1 ((c + rss p * page_size) % 2 ^ 32) (sum_lt _)
      ∙ ap (λ n. some (s32 n)) (sum_step c (rss p) (total_rss kept))
  Adds-if p ps kept false e rest h c small =
      adds p ps c 0 (rss_of-none p e) small
      ∙ ap (λ n. add_rss uid ps (s32 n)) (sum_zero c small)
      ∙ rest h c small

  add_rss-filter_by :
      (ps : Tasks) → All (λ p. is_some p.mm ≡ true) (filter_by own ps) → Adds ps (filter_by own ps)
  unfolding add_rss
  add_rss-filter_by [] h c small = ap (λ n. some (s32 n)) (sym (sum_zero c small))
  add_rss-filter_by (p ∷ ps) h c small =
      Adds-if p ps (filter_by own ps) (own p) refl (add_rss-filter_by ps) h c small

-- Setting a limit for a known user whose processes all have memory: the user and the limit are set,
-- the check of allocations is switched on, and the memory resident in the user's processes is added
-- to the charge there was, which is the result, all modulo 2 ^ 32 as a signed number.
pub set_mlimit_lem :
    {hl : Hlist} (bits : ℕ) (ns : Ptr) (all : Tasks) (uid : ℕ) (mem_max : ℤ) (l : Limits hl)
    (u : Ptr) (c : ℕ)
    → IsTable bits l.world
    → Hashed bits l.world ns (uidhashfn bits uid) u
    → (l.world.user u).uid ≡ uid
    → (l.world.user u).cumulative_mem ≡ s32 c
    → c < 2 ^ 32
    → All (λ p. is_some p.mm ≡ true) (of_user uid all)
    → let total = s32 ((c + total_rss (of_user uid all) * page_size) % 2 ^ 32) in
      set_mlimit bits ns all uid mem_max l
      ≡ some (
        total,
        record { user = uid; start = 1; world = with_limit u mem_max total (with_ref u l.world) },
      )
unfolding set_mlimit set_for limit_to
set_mlimit_lem bits ns all uid mem_max l u c t h own charged small has =
    let w = with_ref u l.world in
    let same : (w.user u).cumulative_mem ≡ s32 c = rw (==-refl u) charged in
    ap (set_for bits all uid mem_max) (find_user_lem bits ns uid l.world u t h own)
    ∙ ap (limit_to bits uid mem_max u w)
        (ap (add_rss uid (processes all)) same ∙ add_rss-filter_by uid (processes all) has c small)
