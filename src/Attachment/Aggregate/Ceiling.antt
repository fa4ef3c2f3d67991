-- ===== src/Attachment/Aggregate/Ceiling.antt =====
-- internal/attachment/aggregate.go: when the ceiling holds, and when it does not.
use Prim.Native.Nat.{max}
use vibe_bridge.Base.{
  ℕ, ◌+◌, ◌-◌, ◌^◌, ◌≤◌, ◌<◌, ◌≡◌, leb, if◌then◌else◌, err, refl, Option, some, List, [], ◌∷◌,
  arith, ok, ◌∙◌, ◌↔◌,
}
use vibe_bridge.Attachment.Aggregate.{
  AggregateTracker, new_aggregate_tracker, reserve, release, total_bytes_of, max_bytes_of,
  aggregate_quota_exceeded,
}

pub data Op : Type 0 where
  reserves releases : ℕ → Op

unfoldable pub step : Option AggregateTracker → Op → Option AggregateTracker
step t (reserves bytes) = (reserve t bytes).0
step t (releases bytes) = release t bytes

unfoldable pub run : Option AggregateTracker → List Op → Option AggregateTracker
run t [] = t
run t (op ∷ ops) = run (step t op) ops

-- The largest amount that is reserved.
abbrev pub largest : List Op → ℕ
largest [] = 0
largest (reserves bytes ∷ ops) = max bytes (largest ops)
largest (releases bytes ∷ ops) = largest ops

-- What one call keeps.
abbrev Keeps : Option AggregateTracker → Option AggregateTracker → Type 0
Keeps t t' =
    (max_bytes_of t' ≡ max_bytes_of t)
    × (total_bytes_of t ≤ max_bytes_of t → total_bytes_of t' ≤ max_bytes_of t')

reserve-Keeps :
    (t : Option AggregateTracker) (bytes : ℕ)
    → max_bytes_of t + bytes < 2 ^ 64
    → Keeps t (reserve t bytes).0
unfolding reserve max_bytes_of total_bytes_of
reserve-Keeps t bytes room = ground arith

release-Keeps : (t : Option AggregateTracker) (bytes : ℕ) → Keeps t (release t bytes)
unfolding release max_bytes_of total_bytes_of
release-Keeps t bytes = ground arith

run-Keeps :
    (t : Option AggregateTracker) (ops : List Op)
    → max_bytes_of t + largest ops < 2 ^ 64
    → Keeps t (run t ops)
unfolding run step
run-Keeps t [] room = (refl, λ h. h)
run-Keeps t (reserves bytes ∷ ops) room =
    let (limit, below) = reserve-Keeps t bytes (omega arith) in
    let (limit', below') = run-Keeps (reserve t bytes).0 ops (omega arith) in
    (limit' ∙ limit, λ h. below' (below h))
run-Keeps t (releases bytes ∷ ops) room =
    let (limit, below) = release-Keeps t bytes in
    let (limit', below') = run-Keeps (release t bytes) ops (omega arith) in
    (limit' ∙ limit, λ h. below' (below h))

-- From a new tracker on, whatever is reserved and released in whatever order, and as long as no
-- single reservation reaches 2 ^ 64 less the ceiling: the total never exceeds the ceiling, which
-- stays as it was set.
pub run_below_ceiling :
    (ceiling : ℕ) (ops : List Op)
    → ceiling + largest ops < 2 ^ 64
    → let t = run (some (new_aggregate_tracker ceiling)) ops in
      (total_bytes_of t ≤ ceiling) × (max_bytes_of t ≡ ceiling)
unfolding new_aggregate_tracker max_bytes_of total_bytes_of
run_below_ceiling ceiling ops room =
    let (limit, below) = run-Keeps (some (new_aggregate_tracker ceiling)) ops room in
    (omega (arith, limit, below (omega arith)), limit)

-- A reservation below the wrap-around is granted exactly if the new total keeps the ceiling, and a
-- release of the same amount takes a granted one back.
pub reserve-release :
    (t : AggregateTracker) (bytes : ℕ)
    → 0 < t.max_bytes
    → t.total_bytes + bytes < 2 ^ 64
    → ((reserve (some t) bytes).1 ≡ ok tt ↔ t.total_bytes + bytes ≤ t.max_bytes)
      × ((reserve (some t) bytes).1 ≡ ok tt → release (reserve (some t) bytes).0 bytes ≡ some t)
unfolding reserve release
reserve-release t bytes limited room =
    ((λ granted. ground arith, λ fits. ground arith), λ granted. ground arith)

-- A reservation that wraps around is granted although it is far above the ceiling, and lowers the
-- total.
pub reserve_wraps :
    (t : AggregateTracker) (bytes : ℕ)
    → 0 < t.max_bytes
    → t.total_bytes ≤ t.max_bytes
    → bytes < 2 ^ 64
    → 2 ^ 64 ≤ t.total_bytes + bytes
    → ((reserve (some t) bytes).1 ≡ ok tt)
      × (total_bytes_of (reserve (some t) bytes).0 < t.total_bytes)
unfolding reserve total_bytes_of
reserve_wraps t bytes limited below word wraps = ground arith

pub reserve-granted :
    (t : AggregateTracker) (bytes : ℕ)
    → 0 < t.max_bytes
    → t.total_bytes + bytes ≤ t.max_bytes
    → t.max_bytes < 2 ^ 64
    → reserve (some t) bytes ≡ (some (record t { total_bytes = t.total_bytes + bytes }), ok tt)
unfolding reserve
reserve-granted t bytes limited room word = ground arith

pub reserve-refused :
    (t : AggregateTracker) (bytes : ℕ)
    → 0 < t.max_bytes
    → t.max_bytes < t.total_bytes + bytes
    → t.total_bytes + bytes < 2 ^ 64
    → reserve (some t) bytes ≡ (some t, err aggregate_quota_exceeded)
unfolding reserve
reserve-refused t bytes limited over word = ground arith

pub release-amount :
    (t : AggregateTracker) (bytes : ℕ)
    → 0 < t.max_bytes
    → total_bytes_of (release (some t) bytes)
      ≡ (if leb bytes t.total_bytes then t.total_bytes - bytes else 0)
unfolding release total_bytes_of
release-amount t bytes limited = ground arith
