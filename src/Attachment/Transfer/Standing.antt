-- ===== src/Attachment/Transfer/Standing.antt =====
-- internal/attachment/transfer.go: what Begin, Chunk and Complete leave of a completed attachment.
use vibe_bridge.Base.{◌≡◌, refl, Bool, Option, none, some, Bytes, Result, ok, err, arith, if_cases}
use vibe_bridge.Base.Map.{lookup, lookup-insert}
use vibe_bridge.Attachment.Aggregate
use vibe_bridge.Attachment.Aggregate.{AggregateTracker, reserve}
use vibe_bridge.Attachment.Content.{ContentPolicy}
use vibe_bridge.Attachment.Upload.{
  Error, BeginRequest, ChunkRequest, CompletedAttachment, ActiveTransfer, Manager, Directory,
  Surroundings,
}
use vibe_bridge.Attachment.Staging.{
  fail_transfer_locked, abort_after_write_failure_locked, release_active_locked,
}
use vibe_bridge.Attachment.Receive.{
  open_partial, reserve_partial, begin_checked, chunk_checked, failing,
}
use vibe_bridge.Attachment.Finish.{
  published, publish, rejecting, complete_verified, complete_active, complete_known,
  complete_checked,
}

-- The attachment of an ID, and whether the manager is closed.
pub record Standing (id : Bytes) (c : CompletedAttachment) (closed closing : Bool) (m : Manager)
    : Type 0 where
  pub known : lookup id m.completed ≡ some c
  pub same_closed : m.closed ≡ closed
  pub same_closing : m.closing ≡ closing

module _ (id : Bytes) (c : CompletedAttachment) (closed closing : Bool) where
  abbrev pub Stands : Manager → Type 0
  Stands m = Standing id c closed closing m

  pub same-Stands :
      (m m' : Manager)
      → m'.completed ≡ m.completed
      → m'.closed ≡ m.closed
      → m'.closing ≡ m.closing
      → Stands m
      → Stands m'
  same-Stands m m' e f g s = record {
    known = ground (arith, s.known);
    same_closed = ground (arith, s.same_closed);
    same_closing = ground (arith, s.same_closing);
  }

  reserve_partial-Stands :
      (m : Manager) (r : BeginRequest) (policy : ContentPolicy) (prefix : Option Bytes)
      (granted : Option AggregateTracker × Result Aggregate.Error (Unit {0}))
      → Stands m
      → Stands (reserve_partial m r policy prefix granted).0
  unfolding reserve_partial open_partial
  reserve_partial-Stands m r policy prefix (t, err e) s = same-Stands m _ refl refl refl s
  reserve_partial-Stands m r policy none (t, ok u) s = same-Stands m _ refl refl refl s
  reserve_partial-Stands m r policy (some prefix) (t, ok u) s = same-Stands m _ refl refl refl s

  pub begin_checked-Stands :
      (m : Manager) (d : Directory) (r : BeginRequest) (q : Result Error ContentPolicy)
      → Stands m
      → Stands (begin_checked m d r q).0
  unfolding begin_checked
  begin_checked-Stands m d r (err e) s = s
  begin_checked-Stands m d r (ok policy) s = reserve_partial-Stands m r policy _ _ s

  pub chunk_checked-Stands :
      (m : Manager) (d : Directory) (r : ChunkRequest) (q : Result Error ActiveTransfer)
      → Stands m
      → Stands (chunk_checked m d r q).0
  unfolding chunk_checked abort_after_write_failure_locked release_active_locked
  chunk_checked-Stands m d r (err e) s = s
  chunk_checked-Stands m d r (ok t) s =
      if_cases (λ (q : Manager × Result Error (Unit {0})). Stands q.0) d.write_fails _ _
        (λ failed.
          if_cases (λ q. Stands (failing q).0) (d.remove_fails t.partial_name) _ _ (λ kept. s)
            (λ gone. same-Stands m _ refl refl refl s))
        (λ written. same-Stands m _ refl refl refl s)

  publish-Stands :
      (w : Surroundings) (m : Manager) (d : Directory) (key : Bytes) (t : ActiveTransfer)
      (path : Option Bytes)
      → lookup key m.completed ≡ none
      → Stands m
      → Stands (publish w m d key t path).0
  unfolding publish
  publish-Stands w m d key t none new s = s
  publish-Stands w m d key t (some path) new s =
      if_cases (λ (q : Manager × Result Error CompletedAttachment). Stands q.0) d.rename_fails _ _
        (λ failed. same-Stands m _ refl refl refl s)
        (λ renamed. record {
          known =
              ground (arith, s.known, new, lookup-insert key id (published w t path) m.completed);
          same_closed = s.same_closed;
          same_closing = s.same_closing;
        })

  complete_verified-Stands :
      (w : Surroundings) (m : Manager) (d : Directory) (key : Bytes) (t : ActiveTransfer)
      (q : Result Error (Unit {0}))
      → lookup key m.completed ≡ none
      → Stands m
      → Stands (complete_verified w m d key t q).0
  unfolding complete_verified fail_transfer_locked release_active_locked
  complete_verified-Stands w m d key t (err cause) new s =
      if_cases (λ q. Stands (rejecting q).0) (d.remove_fails t.partial_name) _ _ (λ kept. s)
        (λ gone. same-Stands m _ refl refl refl s)
  complete_verified-Stands w m d key t (ok u) new s = publish-Stands w m d key t _ new s

  complete_active-Stands :
      (w : Surroundings) (m : Manager) (d : Directory) (key : Bytes) (t : Option ActiveTransfer)
      → lookup key m.completed ≡ none
      → Stands m
      → Stands (complete_active w m d key t).0
  unfolding complete_active
  complete_active-Stands w m d key none new s = s
  complete_active-Stands w m d key (some t) new s = complete_verified-Stands w m d key t _ new s

  complete_known-Stands :
      (w : Surroundings) (m : Manager) (d : Directory) (key : Bytes)
      (o : Option CompletedAttachment)
      → lookup key m.completed ≡ o
      → Stands m
      → Stands (complete_known w m d key o).0
  unfolding complete_known
  complete_known-Stands w m d key (some c) new s = s
  complete_known-Stands w m d key none new s =
      complete_active-Stands w m d key (lookup key m.active) new s

  pub complete_checked-Stands :
      (w : Surroundings) (m : Manager) (d : Directory) (key : Bytes) (q : Result Error (Unit {0}))
      → Stands m
      → Stands (complete_checked w m d key q).0
  unfolding complete_checked
  complete_checked-Stands w m d key (err e) s = s
  complete_checked-Stands w m d key (ok u) s = complete_known-Stands w m d key _ refl s
