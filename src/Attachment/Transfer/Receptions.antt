-- ===== src/Attachment/Transfer/Receptions.antt =====
-- internal/attachment/transfer.go: Begin, Chunk and Complete are sequences of moves.
use mathlib.Core.Path.{subst}
use vibe_bridge.Base.{
  ◌≡◌, refl, sym, ◌++◌, Option, none, some, Bytes, Result, ok, err, Result-cases, Option-cases,
  if_cases, inl, inr, arith,
}
use vibe_bridge.Base.Map.{lookup}
use vibe_bridge.Attachment.Aggregate
use vibe_bridge.Attachment.Aggregate.{AggregateTracker, reserve, release}
use vibe_bridge.Attachment.Content.{ContentPolicy}
use vibe_bridge.Attachment.Upload.{
  Error, BeginRequest, ChunkRequest, CompletedAttachment, ActiveTransfer, Manager, Directory,
  Surroundings,
}
use vibe_bridge.Attachment.Staging.{fail_transfer_locked, abort_after_write_failure_locked}
use vibe_bridge.Attachment.Receive.{
  check_begin, open_partial, reserve_partial, begin_checked, begin, check_chunk, failing,
  chunk_checked,
}
use vibe_bridge.Attachment.Finish.{
  verify_transfer, publish, rejecting, complete_verified, complete_active, complete_known,
  complete_checked,
}
use vibe_bridge.Attachment.Transfer.{
  Move, rebooks, opens, advances, attempts, publishes, releases, Reach, here, next,
}

abbrev pub move : {w : Surroundings} {m m' : Manager} → Move w m m' → Reach w m m'
move s = next here s

-- What a method leaves of the manager.
abbrev pub After : {A : Type 0} (w : Surroundings) → Manager → Manager × A → Type 0
After w m q = Reach w m q.0

pub join : {w : Surroundings} {m m' m'' : Manager} → Reach w m m' → Reach w m' m'' → Reach w m m''
join r here = r
join r (next q s) = next (join r q) s

reserve_partial-Reach :
    (w : Surroundings) (m : Manager) (r : BeginRequest) (policy : ContentPolicy)
    (prefix : Option Bytes) (granted : Option AggregateTracker × Result Aggregate.Error (Unit {0}))
    → check_begin w m r ≡ ok policy
    → reserve m.aggregate r.total_size_bytes ≡ granted
    → Reach w m (reserve_partial m r policy prefix granted).0
unfolding reserve_partial open_partial check_begin
reserve_partial-Reach w m r policy prefix (t, err e) fine g = move (rebooks m t)
reserve_partial-Reach w m r policy none (t, ok u) fine g = move (rebooks m t)
reserve_partial-Reach w m r policy (some prefix) (t, ok u) fine g =
    let m' : Manager = record m { aggregate = t } in
    next (move (rebooks m t)) (opens m' r policy prefix fine)

pub begin-Reach :
    (w : Surroundings) (m : Manager) (d : Directory) (r : BeginRequest)
    → Reach w m (begin w m d r).0
unfolding begin begin_checked
begin-Reach w m d r = elim (Result-cases (check_begin w m r)) [
  | inr (e, h) ↦ subst (λ q. Reach w m (begin_checked m d r q).0) (sym h) here
  | inl (policy, h) ↦
      subst (λ q. Reach w m (begin_checked m d r q).0) (sym h)
        (reserve_partial-Reach w m r policy _ _ h refl)
]

-- A check that has found an active transfer has looked it up.
pub check_chunk-found :
    (w : Surroundings) (m : Manager) (r : ChunkRequest) (t : ActiveTransfer)
    → check_chunk w m r ≡ ok t
    → lookup r.transfer_id m.active ≡ some t
unfolding check_chunk
check_chunk-found w m r t e = elim (Option-cases (lookup r.transfer_id m.active)) [
  | inl h ↦ absurd (ground arith)
  | inr (t', h) ↦ ground arith
]

pub chunk_checked-Reach :
    (w : Surroundings) (m : Manager) (d : Directory) (r : ChunkRequest)
    (q : Result Error ActiveTransfer)
    → check_chunk w m r ≡ q
    → Reach w m (chunk_checked m d r q).0
unfolding chunk_checked abort_after_write_failure_locked
chunk_checked-Reach w m d r (err e) h = here
chunk_checked-Reach w m d r (ok t) h =
    if_cases (After w m) d.write_fails _ _
      (λ failed.
        if_cases (λ q. Reach w m (failing q).0) (d.remove_fails t.partial_name) _ _ (λ kept. here)
          (λ gone. move (releases m r.transfer_id t (check_chunk-found w m r t h))))
      (λ written. move (advances m r t h))

publish-Reach :
    (w : Surroundings) (m : Manager) (d : Directory) (key : Bytes) (t : ActiveTransfer)
    (path : Option Bytes)
    → lookup key m.active ≡ some t
    → lookup key m.completed ≡ none
    → verify_transfer w t ≡ ok tt
    → Reach w m (publish w m d key t path).0
unfolding publish
publish-Reach w m d key t none found new verified = here
publish-Reach w m d key t (some path) found new verified =
    if_cases (After w m) d.rename_fails _ _ (λ failed. move (attempts m key t found))
      (λ renamed. move (publishes m key path t found new verified))

complete_verified-Reach :
    (w : Surroundings) (m : Manager) (d : Directory) (key : Bytes) (t : ActiveTransfer)
    (q : Result Error (Unit {0}))
    → lookup key m.active ≡ some t
    → lookup key m.completed ≡ none
    → verify_transfer w t ≡ q
    → Reach w m (complete_verified w m d key t q).0
unfolding complete_verified fail_transfer_locked
complete_verified-Reach w m d key t (err cause) found new verified =
    if_cases (λ q. Reach w m (rejecting q).0) (d.remove_fails t.partial_name) _ _ (λ kept. here)
      (λ gone. move (releases m key t found))
complete_verified-Reach w m d key t (ok u) found new verified =
    publish-Reach w m d key t (d.relative (t.storage_prefix ++ t.policy.extension)) found new
      verified

complete_known-Reach :
    (w : Surroundings) (m : Manager) (d : Directory) (key : Bytes) (c : Option CompletedAttachment)
    (t : Option ActiveTransfer)
    → lookup key m.completed ≡ c
    → lookup key m.active ≡ t
    → Reach w m (complete_known w m d key c).0
unfolding complete_known complete_active
complete_known-Reach w m d key (some c) t known found = here
complete_known-Reach w m d key none none new found =
    subst (λ q. Reach w m (complete_active w m d key q).0) (sym found) here
complete_known-Reach w m d key none (some t) new found =
    subst (λ q. Reach w m (complete_active w m d key q).0) (sym found)
      (complete_verified-Reach w m d key t (verify_transfer w t) found new refl)

pub complete_checked-Reach :
    (w : Surroundings) (m : Manager) (d : Directory) (id : Bytes) (q : Result Error (Unit {0}))
    → Reach w m (complete_checked w m d id q).0
unfolding complete_checked
complete_checked-Reach w m d id (err e) = here
complete_checked-Reach w m d id (ok u) = complete_known-Reach w m d id _ _ refl refl
