-- ===== src/Attachment/Aggregate/Examples.antt =====
-- internal/attachment/aggregate.go on concrete inputs.
use vibe_bridge.Base.{◌-◌, ◌^◌, ◌≤◌, ◌<◌, ◌≡◌, some, List, [], ◌∷◌, arith, ok}
use vibe_bridge.Attachment.Aggregate.{
  AggregateTracker, new_aggregate_tracker, reserve, total_bytes_of, max_bytes_of,
}
use vibe_bridge.Attachment.Aggregate.Ceiling.{
  Op, reserves, releases, run, run_below_ceiling, reserve_wraps,
}

abbrev ops : List Op
ops = reserves 60 ∷ reserves 50 ∷ releases 20 ∷ reserves 50 ∷ []

abbrev used : AggregateTracker
used = record { total_bytes = 60; max_bytes = 100 }

run_below_ceiling_example :
    let t = run (some (new_aggregate_tracker 100)) ops in
    (total_bytes_of t ≤ 100) × (max_bytes_of t ≡ 100)
run_below_ceiling_example = run_below_ceiling 100 ops (omega arith)

reserve_wraps_example :
    ((reserve (some used) (2 ^ 64 - 50)).1 ≡ ok tt)
    × (total_bytes_of (reserve (some used) (2 ^ 64 - 50)).0 < 60)
reserve_wraps_example =
    reserve_wraps used (2 ^ 64 - 50) (omega arith) (omega arith) (omega arith) (omega arith)
