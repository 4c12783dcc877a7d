-- ===== src/Buddy/Zonelist/Find.antt =====
-- Where the page of `get_page_from_freelist` comes from.
use osandroid_kernel.Prelude.{
  ℕ, suc, ◌<◌, ◌≡◌, refl, sym, Bool, true, false, not, ◌&&◌, Option, none, some, List, [], ◌∷◌, ◌⊎◌,
  inl, inr, ◌==◌, ==-refl, if◌then◌else◌, arith,
}
use mathlib.Core.Path.{subst}
use osandroid_kernel.Prelude.Families.{put_at}
use osandroid_kernel.Buddy.{Machine, Migratetype}
use osandroid_kernel.Buddy.Bulk.{BulkRequest}
use osandroid_kernel.Buddy.HotCold.{PerCpu}
use osandroid_kernel.Buddy.HotCold.Effect.{IsPerCpu}
use osandroid_kernel.Buddy.Buffered.{Grab, buffered_rmqueue}
use osandroid_kernel.Buddy.Buffered.Take.{stock}
use osandroid_kernel.Buddy.Buffered.Effect.{
  Allocates, buffered_rmqueue-Allocates, buffered_rmqueue-batch,
}
use osandroid_kernel.Buddy.Zonelist.{
  Zones, Reclaimed, noscan, full, scanned, ScanFlags, Outside, Found, passes, break_at,
  try_this_zone, after_reclaim, scan_zone, get_page_from_freelist,
}

abbrev pub IsIn : ℕ → List ℕ → Type 0
IsIn z [] = ⊥
IsIn z (y ∷ ys) = (y ≡ z) ⊎ IsIn z ys

module _ (m : ℕ → Machine) (pcptypes : ℕ) (encode : Migratetype → ℕ) (r : BulkRequest)
    (accepted : ℕ → Bool) (o : Outside) (flags : ScanFlags) where
  -- Every zone is right, and the processor has a batch for it.
  abbrev pub AreRight : Zones → Type 0
  AreRight s = (z : ℕ) → IsPerCpu (m z) pcptypes (s z) × (0 < (s z).batch)

  -- The page has been taken out of a zone of the list that may be used, when it had the pages that
  -- its watermark wants.
  abbrev pub ComesFrom : List ℕ → Option (ℕ × ℕ) → Zones → Type 0
  ComesFrom zonelist none after = Unit
  ComesFrom zonelist (some (z, page)) after =
      IsIn z zonelist
      × (flags.cpuset ≡ true → o.cpuset_zone_allowed z ≡ true)
      × ((s : Zones) × AreRight s
          × ((flags.no_watermarks ≡ true)
              ⊎ (passes m pcptypes encode r accepted o flags z s ≡ true))
          × Allocates (m z) pcptypes encode r accepted (s z)
              (record { page = some page; state = after z }))

  abbrev pub Finds : List ℕ → Found → Type 0
  Finds zonelist f = AreRight f.zones × ComesFrom zonelist f.page f.zones

  put_at-here : (z : ℕ) (a : PerCpu) (s : Zones) → put_at z a s z ≡ a
  put_at-here z a s = rw (==-refl z) refl

  AreRight-put :
      (z : ℕ) (a : PerCpu) (s : Zones)
      → IsPerCpu (m z) pcptypes a × (0 < a.batch)
      → AreRight s
      → AreRight (put_at z a s)
  AreRight-put z a s h right x = split (z == x) refl
    where
      split :
          (b : Bool)
          → (z == x) ≡ b
          → let y = if b then a else s x in IsPerCpu (m x) pcptypes y × (0 < y.batch)
      split true e =
          let at : z ≡ x = ground (arith, e) in
          subst (λ i. IsPerCpu (m i) pcptypes a × (0 < a.batch)) at h
      split false e = right x

  module _ (lt : encode r.type < pcptypes)
      (kept : (z : ℕ) (s : Zones) → AreRight s → AreRight (o.zone_reclaim z s).1) where
    module _ (z : ℕ) (zonelist : List ℕ) (rest : Zones → Found)
        (later : (s : Zones) → AreRight s → Finds zonelist (rest s)) where
      -- What the rest of the list finds is found in the whole list.
      skip : (s : Zones) → AreRight s → Finds (z ∷ zonelist) (rest s)
      skip s right = let (right', from) = later s right in (right', widen (rest s).page from)
        where
          widen :
              (page : Option (ℕ × ℕ))
              → ComesFrom zonelist page (rest s).zones
              → ComesFrom (z ∷ zonelist) page (rest s).zones
          widen none h = tt
          widen (some (y, page)) (at, allowed, from) = (inr at, allowed, from)

      try-Finds :
          (s : Zones)
          → (flags.cpuset ≡ true → o.cpuset_zone_allowed z ≡ true)
          → AreRight s
          → (flags.no_watermarks ≡ true) ⊎ (passes m pcptypes encode r accepted o flags z s ≡ true)
          → Finds (z ∷ zonelist) (try_this_zone m pcptypes encode r accepted o flags z rest s)
      unfolding try_this_zone
      try-Finds s allowed right mark =
          breaks g.page g.state allocates (omega (arith, kept_batch, (right z).1))
        where
          g : Grab
          g = buffered_rmqueue encode (m z) r accepted (suc (stock (m z) pcptypes (s z))) (s z)

          allocates : Allocates (m z) pcptypes encode r accepted (s z) g
          allocates =
              buffered_rmqueue-Allocates (m z) pcptypes encode r accepted lt
                (suc (stock (m z) pcptypes (s z))) (s z) (right z).1 (right z).0 (omega arith)

          kept_batch : g.state.batch ≡ (s z).batch
          kept_batch =
              buffered_rmqueue-batch (m z) pcptypes encode r accepted lt
                (suc (stock (m z) pcptypes (s z))) (s z)

          breaks :
              (page : Option ℕ) (a : PerCpu)
              → Allocates (m z) pcptypes encode r accepted (s z) (record { page = page; state = a })
              → 0 < a.batch
              → Finds
                  (z ∷ zonelist)
                  (break_at m pcptypes encode r accepted o flags page z rest (put_at z a s))
          breaks none a h some_batch =
              skip (put_at z a s) (AreRight-put z a s (h.0, some_batch) right)
          breaks (some page) a h some_batch = (
            AreRight-put z a s (h.0, some_batch) right,
            (
              inl refl,
              allowed,
              (
                s,
                right,
                mark,
                subst
                    (λ x.
                      Allocates (m z) pcptypes encode r accepted (s z)
                        (record { page = some page; state = x }))
                    (sym (put_at-here z a s)) h,
              ),
            ),
          )

      after_reclaim-Finds :
          (a : Reclaimed) (s : Zones)
          → (flags.cpuset ≡ true → o.cpuset_zone_allowed z ≡ true)
          → AreRight s
          → Finds (z ∷ zonelist) (after_reclaim m pcptypes encode r accepted o flags a z rest s)
      after_reclaim-Finds noscan s allowed right = skip s right
      after_reclaim-Finds full s allowed right = skip s right
      after_reclaim-Finds scanned s allowed right =
          split (passes m pcptypes encode r accepted o flags z s) refl
        where
          split :
              (b : Bool)
              → passes m pcptypes encode r accepted o flags z s ≡ b
              → Finds (z ∷ zonelist) (
                  if b then try_this_zone m pcptypes encode r accepted o flags z rest s else rest s)
          split true e = try-Finds s allowed right (inr e)
          split false e = skip s right

      scan_zone-Finds :
          (s : Zones)
          → AreRight s
          → Finds (z ∷ zonelist) (scan_zone m pcptypes encode r accepted o flags z rest s)
      unfolding scan_zone
      scan_zone-Finds s right =
          split flags.cpuset (o.cpuset_zone_allowed z)
            (flags.wmark_low && (flags.write && not (o.zone_dirty_ok z s))) flags.no_watermarks
            (passes m pcptypes encode r accepted o flags z s) o.zone_reclaim_mode refl refl refl
            refl
        where
          tried : Found
          tried = try_this_zone m pcptypes encode r accepted o flags z rest s

          reclaimed : Reclaimed × Zones
          reclaimed = o.zone_reclaim z s

          found_after : Found
          found_after =
              after_reclaim m pcptypes encode r accepted o flags reclaimed.0 z rest reclaimed.1

          may_use :
              (c a : Bool)
              → flags.cpuset ≡ c
              → o.cpuset_zone_allowed z ≡ a
              → (c && not a) ≡ false
              → flags.cpuset ≡ true
              → o.cpuset_zone_allowed z ≡ true
          may_use true true ec ea h on = ea
          may_use true false ec ea h on = absurd (cc h)
          may_use false a ec ea h on = absurd (cc (ec, on))

          inner :
              (n p w : Bool)
              → flags.no_watermarks ≡ n
              → passes m pcptypes encode r accepted o flags z s ≡ p
              → (flags.cpuset ≡ true → o.cpuset_zone_allowed z ≡ true)
              → Finds
                  (z ∷ zonelist)
                  (if n then tried else if p then tried else if not w then rest s else found_after)
          inner true p w en ep allowed = try-Finds s allowed right (inl en)
          inner false true w en ep allowed = try-Finds s allowed right (inr ep)
          inner false false false en ep allowed = skip s right
          inner false false true en ep allowed =
              after_reclaim-Finds reclaimed.0 reclaimed.1 allowed (kept z s right)

          split :
              (c a d n p w : Bool)
              → flags.cpuset ≡ c
              → o.cpuset_zone_allowed z ≡ a
              → flags.no_watermarks ≡ n
              → passes m pcptypes encode r accepted o flags z s ≡ p
              → Finds (z ∷ zonelist) (
                  if c && not a
                  then rest s
                  else if d
                  then rest s
                  else if n
                  then tried
                  else if p
                  then tried
                  else if not w
                  then rest s
                  else found_after)
          split true false d n p w ec ea en ep = skip s right
          split true true true n p w ec ea en ep = skip s right
          split true true false n p w ec ea en ep = inner n p w en ep (may_use true true ec ea refl)
          split false a true n p w ec ea en ep = skip s right
          split false a false n p w ec ea en ep = inner n p w en ep (may_use false a ec ea refl)

    -- When all zones are right, and stay so whatever `zone_reclaim` does, they are right after
    -- `get_page_from_freelist`, and a page that it finds has been taken out of a zone of the list that
    -- the request may use, with all that `buffered_rmqueue` promises, at a time when the zone passed its
    -- watermark or none was asked for. The processor has a batch for each zone and a list for the type.
    pub get_page_from_freelist-Finds :
        (zonelist : List ℕ) (s : Zones)
        → AreRight s
        → Finds zonelist (get_page_from_freelist m pcptypes encode r accepted o flags zonelist s)
    unfolding get_page_from_freelist
    get_page_from_freelist-Finds [] s right = (right, tt)
    get_page_from_freelist-Finds (z ∷ zonelist) s right =
        scan_zone-Finds z zonelist
          (get_page_from_freelist m pcptypes encode r accepted o flags zonelist)
          (λ s' right'. get_page_from_freelist-Finds zonelist s' right') s right
