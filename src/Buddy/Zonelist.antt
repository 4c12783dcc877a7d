-- ===== src/Buddy/Zonelist.antt =====
-- `get_page_from_freelist` of hw5/mm/page_alloc.c: the zones of a zonelist are tried in turn. The
-- configuration has no NUMA nodes, so that nothing is cached about full zones. What a nodemask leaves
-- of the zonelist is a list, and what other files tell of a zone are arguments.
pub mod Find
use osandroid_kernel.Prelude.{
  ℕ, suc, Bool, true, false, not, ◌&&◌, Option, none, some, List, [], ◌∷◌, if◌then◌else◌,
}
use osandroid_kernel.Prelude.Families.{put_at}
use osandroid_kernel.Buddy.{Machine, Migratetype}
use osandroid_kernel.Buddy.Bulk.{BulkRequest}
use osandroid_kernel.Buddy.HotCold.{PerCpu}
use osandroid_kernel.Buddy.Watermark.{Watermark, zone_watermark_ok}
use osandroid_kernel.Buddy.Buffered.{buffered_rmqueue}
use osandroid_kernel.Buddy.Buffered.Take.{stock}

-- Each zone, with the lists of the processor.
abbrev pub Zones : Type 0
Zones = ℕ → PerCpu

-- What `zone_reclaim` answers.
pub data Reclaimed : Type 0 where
  noscan : Reclaimed
  full : Reclaimed
  scanned : Reclaimed

-- The flags that matter here, of `alloc_flags` and, for `write`, of `gfp_mask`.
pub record ScanFlags : Type 0 where
  pub cpuset : Bool
  pub wmark_low : Bool
  pub no_watermarks : Bool
  pub write : Bool

-- What the other files tell: `cpuset_zone_allowed_softwall`, `zone_dirty_ok`, what is read of a zone
-- for its watermark, `zone_reclaim_mode` and `zone_reclaim`.
pub record Outside : Type 0 where
  pub cpuset_zone_allowed : ℕ → Bool
  pub zone_dirty_ok : ℕ → Zones → Bool
  pub watermark : ℕ → PerCpu → Watermark
  pub zone_reclaim_mode : Bool
  pub zone_reclaim : ℕ → Zones → Reclaimed × Zones

-- The page that is found, with its zone.
pub record Found : Type 0 where
  pub page : Option (ℕ × ℕ)
  pub zones : Zones

module _ (m : ℕ → Machine) (pcptypes : ℕ) (encode : Migratetype → ℕ) (r : BulkRequest)
    (accepted : ℕ → Bool) (o : Outside) (flags : ScanFlags) where
  abbrev pub passes : ℕ → Zones → Bool
  passes z s = zone_watermark_ok (m z) (o.watermark z (s z)) (s z).zone

  abbrev pub break_at : Option ℕ → ℕ → (Zones → Found) → Zones → Found
  break_at none z rest s = rest s
  break_at (some page) z rest s = record { page = some (z, page); zones = s }

  -- `try_this_zone`, with rounds that are enough.
  unfoldable pub try_this_zone : ℕ → (rest : Zones → Found) → Zones → Found
  try_this_zone z rest s =
      let g = buffered_rmqueue encode (m z) r accepted (suc (stock (m z) pcptypes (s z))) (s z) in
      break_at g.page z rest (put_at z g.state s)

  abbrev pub after_reclaim : Reclaimed → ℕ → (rest : Zones → Found) → Zones → Found
  after_reclaim noscan z rest s = rest s
  after_reclaim full z rest s = rest s
  after_reclaim scanned z rest s = if passes z s then try_this_zone z rest s else rest s

  -- One round of the loop.
  unfoldable pub scan_zone : ℕ → (rest : Zones → Found) → Zones → Found
  scan_zone z rest s =
      let reclaimed = o.zone_reclaim z s in
      if flags.cpuset && not (o.cpuset_zone_allowed z)
      then rest s
      else if flags.wmark_low && (flags.write && not (o.zone_dirty_ok z s))
      then rest s
      else if flags.no_watermarks
      then try_this_zone z rest s
      else if passes z s
      then try_this_zone z rest s
      else if not o.zone_reclaim_mode
      then rest s
      else after_reclaim reclaimed.0 z rest reclaimed.1

  unfoldable pub get_page_from_freelist : List ℕ → Zones → Found
  get_page_from_freelist [] s = record { page = none; zones = s }
  get_page_from_freelist (z ∷ zonelist) s = scan_zone z (get_page_from_freelist zonelist) s
