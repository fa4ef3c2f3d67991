-- ===== src/Attachment/Transfer/Ledger.antt =====
-- internal/attachment/transfer.go: where the aggregate of all sessions is counted wrongly.
use vibe_bridge.Base.{
  ◌+◌, ◌-◌, ◌^◌, ◌≡◌, ◌≤◌, ◌<◌, refl, ap, ◌∙◌, true, Option, none, some, ok, err, arith, leb,
  if◌then◌else◌,
}
use vibe_bridge.Attachment.Aggregate.{AggregateTracker, release, total_bytes_of}
use vibe_bridge.Attachment.Aggregate.Ceiling.{reserve-granted, reserve-refused, release-amount}
use vibe_bridge.Attachment.Content.{ContentPolicy}
use vibe_bridge.Attachment.Transfer.Quota.{new_transfer_manager-empty}
use vibe_bridge.Attachment.Upload.{
  aggregate_exceeded, partial_failed, BeginRequest, ManagerLimits, SessionStaging, Manager,
  Directory, Surroundings,
}
use vibe_bridge.Attachment.Receive.{
  storage_name_attempts, create_partial, check_begin, open_partial, reserve_partial, begin_checked,
  begin,
}
use vibe_bridge.Attachment.Retire.{
  close_active, finish_close, close, default_limits, empty_manager, new_manager, adopted, adopt,
  new_manager_with_aggregate,
}

-- A Begin that the aggregate grants and for which no partial file can be created leaves the size
-- reserved in the aggregate, although the manager counts no transfer for it.
pub begin_leaks :
    (w : Surroundings) (m : Manager) (d : Directory) (r : BeginRequest) (policy : ContentPolicy)
    (t : AggregateTracker)
    → m.aggregate ≡ some t
    → 0 < t.max_bytes
    → t.total_bytes + r.total_size_bytes ≤ t.max_bytes
    → t.max_bytes < 2 ^ 64
    → check_begin w m r ≡ ok policy
    → create_partial storage_name_attempts d.attempts ≡ none
    → let m' = (begin w m d r).0 in
      ((begin w m d r).1 ≡ err partial_failed)
      × (total_bytes_of m'.aggregate ≡ t.total_bytes + r.total_size_bytes)
      × (m'.reserved_bytes ≡ m.reserved_bytes)
      × (m'.active ≡ m.active)
unfolding begin begin_checked reserve_partial open_partial total_bytes_of
begin_leaks w m d r policy t shared limited room word fine none_made =
    let granted = reserve-granted t r.total_size_bytes limited room word in ground (arith, granted)

close-empty :
    (s : SessionStaging) (l : ManagerLimits) (a : Option AggregateTracker) (d : Directory)
    → (close (record (empty_manager s l) { aggregate = a }) d).0.aggregate
      ≡ release a s.completed_bytes_reserved
unfolding close close_active finish_close
close-empty s l a d = refl

-- A manager that is refused because the aggregate has no room for what its staging has completed
-- takes that amount out of the aggregate all the same, though it was never put in.
pub refused_releases :
    (s s' : SessionStaging) (t : AggregateTracker) (d : Directory) (m : Manager)
    → 0 < t.max_bytes
    → t.total_bytes ≤ t.max_bytes
    → t.max_bytes < t.total_bytes + s.completed_bytes_reserved
    → t.total_bytes + s.completed_bytes_reserved < 2 ^ 64
    → new_manager s true ≡ (s', ok m)
    → ((new_manager_with_aggregate s (some t) d true).1 ≡ err aggregate_exceeded)
      × (total_bytes_of (new_manager_with_aggregate s (some t) d true).0 ≡ (
          if leb s.completed_bytes_reserved t.total_bytes
          then t.total_bytes - s.completed_bytes_reserved
          else 0))
unfolding new_manager_with_aggregate adopt new_manager
refused_releases s s' t d m limited below over word made =
    let s₁ : SessionStaging = record s { transfer_manager_open = true } in
    let m₁ : Manager = empty_manager s₁ default_limits in
    let same : (new_manager s true).1 ≡ ok m₁ =
      ap (λ q. q.1) made
      ∙ ap (λ x. ok x) (new_transfer_manager-empty s s' default_limits true m made) in
    let refused = reserve-refused t s.completed_bytes_reserved limited over word in
    let answer : new_manager_with_aggregate s (some t) d true
        ≡ (release (some t) s.completed_bytes_reserved, err aggregate_exceeded) =
      ap (adopt (some t) d) same
      ∙ ap (adopted m₁ d) refused
      ∙ ap (λ a. (a, err aggregate_exceeded)) (close-empty s₁ default_limits (some t) d) in
    (
      ap (λ q. q.1) answer,
      ap (λ q. total_bytes_of q.0) answer ∙ release-amount t s.completed_bytes_reserved limited,
    )
