-- ===== src/Buddy/Watermark.antt =====
-- `__zone_watermark_ok`, `zone_watermark_ok` and `zone_watermark_ok_safe` of hw5/mm/page_alloc.c:
-- whether an allocation may go on in a zone. The bits of `alloc_flags` are Booleans, and the numbers
-- do not overflow a `long`.
pub mod Laws
use osandroid_kernel.Prelude.{
  ℕ, zero, suc, ◌+◌, ◌-◌, ◌*◌, ◌/◌, ◌^◌, Bool, true, false, not, ◌&&◌, ltb, ◌==◌, if◌then◌else◌,
}
use osandroid_kernel.Prelude.Int.{ℤ, pos, ◌-ℤ◌, leb_ℤ, ltb_ℤ}
use osandroid_kernel.Buddy.{Machine, Zone}

-- The arguments, and what is read of the zone besides its free areas: the counters that
-- `zone_page_state` answers, their exact values as of `zone_page_state_snapshot`, and
-- `lowmem_reserve[classzone_idx]`.
pub record Watermark : Type 0 where
  pub order : ℕ
  pub mark : ℕ
  pub alloc_high : Bool
  pub alloc_harder : Bool
  pub alloc_cma : Bool
  pub lowmem_reserve : ℕ
  pub nr_free_pages : ℕ
  pub nr_free_snapshot : ℕ
  pub nr_free_cma_pages : ℕ
  pub percpu_drift_mark : ℕ
  pub min_free_order_shift : ℕ

-- The loop, with the orders that are left.
unfoldable pub watermark_rounds :
    (rounds o : ℕ) (shift : ℕ) → Zone → (free_pages : ℤ) (min : ℕ) → Bool
watermark_rounds zero o shift z free_pages min = true
watermark_rounds (suc rounds) o shift z free_pages min =
    let free_pages' = free_pages -ℤ pos (z.nr_free o * 2 ^ o) in
    let min' = min / 2 ^ shift in
    let rest = watermark_rounds rounds (suc o) shift z free_pages' min' in
    if leb_ℤ free_pages' (pos min') then false else rest

abbrev pub lower_by : Bool → ℕ → ℕ → ℕ
lower_by b part min = if b then min - min / part else min

-- `__zone_watermark_ok`.
unfoldable pub watermark_ok : Machine → Watermark → Zone → (free_pages : ℕ) → Bool
watermark_ok m w z free_pages =
    let free1 = pos free_pages -ℤ pos (2 ^ w.order - 1) in
    let min = lower_by w.alloc_harder 4 (lower_by w.alloc_high 2 w.mark) in
    let free2 =
      if m.config_cma && not w.alloc_cma then free1 -ℤ pos w.nr_free_cma_pages else free1 in
    if leb_ℤ free2 (pos (min + w.lowmem_reserve))
    then false
    else watermark_rounds w.order 0 w.min_free_order_shift z free2 min

unfoldable pub zone_watermark_ok : Machine → Watermark → Zone → Bool
zone_watermark_ok m w z = watermark_ok m w z w.nr_free_pages

unfoldable pub zone_watermark_ok_safe : Machine → Watermark → Zone → Bool
zone_watermark_ok_safe m w z = watermark_ok m w z (
    if not (w.percpu_drift_mark == 0) && ltb w.nr_free_pages w.percpu_drift_mark
    then w.nr_free_snapshot
    else w.nr_free_pages)
