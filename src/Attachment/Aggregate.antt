-- ===== src/Attachment/Aggregate.antt =====
-- internal/attachment/aggregate.go: the byte ceiling that all transfer managers share. Amounts are
-- uint64, so an addition wraps around; a nil tracker is `none`.
pub mod Ceiling
pub mod Examples
use vibe_bridge.Base.{
  ℕ, ◌+◌, ◌-◌, ◌*◌, ◌%◌, ◌^◌, Option, none, some, ltb, leb, ◌==◌, if◌then◌else◌, Result, ok, err,
}

pub data Error : Type 0 where
  aggregate_quota_exceeded : Error

pub record AggregateTracker : Type 0 where
  pub total_bytes : ℕ
  pub max_bytes : ℕ

abbrev pub default_max_aggregate_bytes : ℕ
default_max_aggregate_bytes = 500 * 1024 * 1024

pub new_aggregate_tracker : ℕ → AggregateTracker
new_aggregate_tracker max_bytes = record { total_bytes = 0; max_bytes = max_bytes }

pub new_default_aggregate_tracker : AggregateTracker
unfolding new_aggregate_tracker
new_default_aggregate_tracker = new_aggregate_tracker default_max_aggregate_bytes

unfoldable pub reserve_locked : AggregateTracker → ℕ → AggregateTracker × Result Error (Unit {0})
reserve_locked t bytes =
    if ltb t.max_bytes ((t.total_bytes + bytes) % 2 ^ 64)
    then (t, err aggregate_quota_exceeded)
    else (record t { total_bytes = (t.total_bytes + bytes) % 2 ^ 64 }, ok tt)

unfoldable pub reserve :
    Option AggregateTracker → ℕ → Option AggregateTracker × Result Error (Unit {0})
unfolding reserve_locked
reserve none bytes = (none, ok tt)
reserve (some t) bytes =
    if t.max_bytes == 0
    then (some t, ok tt)
    else let (t', answer) = reserve_locked t bytes in (some t', answer)

unfoldable pub release_locked : AggregateTracker → ℕ → AggregateTracker
release_locked t bytes =
    if leb bytes t.total_bytes
    then record t { total_bytes = t.total_bytes - bytes }
    else record t { total_bytes = 0 }

unfoldable pub release : Option AggregateTracker → ℕ → Option AggregateTracker
unfolding release_locked
release none bytes = none
release (some t) bytes = if t.max_bytes == 0 then some t else some (release_locked t bytes)

unfoldable pub total_bytes_of : Option AggregateTracker → ℕ
total_bytes_of none = 0
total_bytes_of (some t) = t.total_bytes

pub max_bytes_of : Option AggregateTracker → ℕ
max_bytes_of none = 0
max_bytes_of (some t) = t.max_bytes
