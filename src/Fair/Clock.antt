-- ===== src/Fair/Clock.antt =====
-- Virtual run times never go back.
use osandroid_kernel.Prelude.{ℕ, ◌+◌, ◌/◌, ◌%◌, ◌^◌, ◌<◌, Bool, ◌&&◌, if◌then◌else◌, arith}
use osandroid_kernel.Fair.{
  sub_u64, max_vruntime, CfsRq, least_vruntime, update_min_vruntime, Placing, place_entity,
}

max_vruntime_forward : (min v : ℕ) → min < 2 ^ 64 → sub_u64 (max_vruntime min v) min < 2 ^ 63
max_vruntime_forward min v h = ground arith

-- From 64-bit values, `min_vruntime` goes forward or stays in `update_min_vruntime`, and so does the run
-- time of an entity in `place_entity`, new or woken, as the signed differences tell, whatever the
-- other run times, the features and the slices are.
pub vruntime_forward :
    (vruntime : ℕ → ℕ) (q : CfsRq) (w : Placing) (initial : Bool) (se : ℕ)
    → q.min_vruntime < 2 ^ 64
    → vruntime se < 2 ^ 64
    → (sub_u64 (update_min_vruntime vruntime q).min_vruntime q.min_vruntime < 2 ^ 63)
      × (sub_u64 (place_entity w initial q.min_vruntime (vruntime se)) (vruntime se) < 2 ^ 63)
unfolding update_min_vruntime place_entity
vruntime_forward vruntime q w initial se h hse =
    let debited =
      if initial && w.start_debit then (q.min_vruntime + w.vslice) % 2 ^ 64 else q.min_vruntime in
    let thresh = if w.gentle_fair_sleepers then w.sched_latency / 2 else w.sched_latency in
    (
      max_vruntime_forward q.min_vruntime
          (least_vruntime vruntime q.min_vruntime q.curr q.rb_leftmost) h,
      max_vruntime_forward (vruntime se)
          (if initial then debited else sub_u64 debited (thresh % 2 ^ 64)) hse,
    )
