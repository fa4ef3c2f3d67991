-- ===== src/Attachment/Transfer.antt =====
-- internal/attachment/transfer.go: the manager of one session's transfers, whose code is in
-- Attachment/Upload, Staging, Receive, Finish and Retire.antt, as a system of small moves. The
-- staging directory answers each operation, and is a parameter, like SHA-256, `unicode.C` and the
-- media types. Each method holds the lock. A nil manager is left out.
pub mod Standing
pub mod Sparing
pub mod Receptions
pub mod Cancelled
pub mod Sending
pub mod Honesty
pub mod Limits
pub mod Moves
pub mod Quota
pub mod Integrity
pub mod Progress
pub mod Remembered
pub mod Ledger
pub mod Declared
pub mod Examples
use vibe_bridge.Base.{
  ℕ, ◌+◌, ◌%◌, ◌^◌, ◌≡◌, true, List, [], ◌∷◌, ◌++◌, Option, none, some, Bytes, Result, ok, err,
}
use vibe_bridge.Base.Map.{lookup, insert, delete}
use vibe_bridge.Attachment.Aggregate.{AggregateTracker, reserve, release}
use vibe_bridge.Attachment.Content.{ContentPolicy}
use vibe_bridge.Attachment.Upload.{
  max_transfer_id_bytes, max_display_name_bytes, content_sniff_bytes, max_selection,
  max_cancelled_outcomes, sha256_size, Error, invalid_transfer, invalid_metadata,
  file_limit_exceeded, unsupported_content, active_transfer_limit, session_quota_exceeded,
  aggregate_exceeded, transfer_exists, transfer_not_found, chunk_checksum_mismatch,
  chunk_offset_mismatch, chunk_limit_exceeded, total_size_mismatch, total_checksum_mismatch,
  content_type_mismatch, manager_closed, invalid_selection, selection_limit, duplicate_attachment,
  attachment_not_completed, partial_failed, write_failed, reference_failed, publish_failed,
  cleanup_failed, close_failed, limits_invalid, storage_claimed, storage_unopened, joined,
  BeginRequest, ChunkRequest, TransferOutcome, unknown, completed_transfer, cancelled_transfer,
  active_transfer, CompletedAttachment, ManagerLimits, ActiveTransfer, SessionStaging, Manager,
  Attempt, no_entropy, name_taken, create_failed, created, Directory, Surroundings, answer,
  valid_transfer_id, valid_display_name, equal_hash, minus, less,
}
use vibe_bridge.Attachment.Staging.{
  claim_transfer_manager, release_transfer_manager, record_completed_bytes, release_completed_bytes,
  release_active_locked, release_completed_locked, cleanup_fails, fail_transfer_locked,
  abort_after_write_failure_locked, remove_first, trim_cancelled, record_cancelled_locked,
}
use vibe_bridge.Attachment.Receive.{
  storage_name_attempts, create_partial, partial_suffix, started, policy_result, check_begin,
  open_partial, reserve_partial, begin_checked, begin, found_active, check_chunk, advance, failing,
  chunk_checked, chunk,
}
use vibe_bridge.Attachment.Finish.{
  verify_transfer, published, publish, rejecting, complete_verified, complete_active,
  complete_known, check_id, complete, outcome, check_selection, check_batch, resolve,
  completed_attachments,
}
use vibe_bridge.Attachment.Retire.{
  drop_active, drop_completed, discard_one, discard_all, discard, cancel, close_active,
  finish_close, close, default_limits, empty_manager, new_transfer_manager, new_manager,
  new_manager_with_aggregate,
}

-- What is called on a manager, with the answers of the directory; and what other sessions make of the
-- aggregate that they share, in between.
pub data Op : Type 0 where
  begins : Directory → BeginRequest → Op
  chunks : Directory → ChunkRequest → Op
  completes : Directory → Bytes → Op
  discards : Directory → List Bytes → Op
  cancels : Directory → Bytes → Op
  closes : Directory → Op
  shares : Option AggregateTracker → Op

unfoldable pub step : Surroundings → Manager → Op → Manager
step w m (begins d r) = (begin w m d r).0
step w m (chunks d r) = (chunk w m d r).0
step w m (completes d id) = (complete w m d id).0
step w m (discards d ids) = (discard m d ids).0
step w m (cancels d id) = (cancel m d id).0
step w m (closes d) = (close m d).0
step w m (shares t) = record m { aggregate = t }

unfoldable pub run : Surroundings → Manager → List Op → Manager
run w m [] = m
run w m (op ∷ ops) = run w (step w m op) ops

-- The changes that the methods are made of, each with what the code has checked.
pub data Move (w : Surroundings) : Manager → Manager → Type 0 where
  rebooks : (m : Manager) (t : Option AggregateTracker) → Move w m (record m { aggregate = t })
  opens :
      (m : Manager) (r : BeginRequest) (policy : ContentPolicy) (prefix : Bytes)
      → check_begin w m r ≡ ok policy
      → Move w m (record m {
        active = insert r.transfer_id (started r policy prefix) m.active;
        reserved_bytes = (m.reserved_bytes + r.total_size_bytes) % 2 ^ 64;
      })
  advances :
      (m : Manager) (r : ChunkRequest) (t : ActiveTransfer)
      → check_chunk w m r ≡ ok t
      → Move w m (record m { active = insert r.transfer_id (advance t r.content) m.active })
  attempts :
      (m : Manager) (key : Bytes) (t : ActiveTransfer)
      → lookup key m.active ≡ some t
      → Move w m
          (record m { active = insert key (record t { publication_attempted = true }) m.active })
  publishes :
      (m : Manager) (key path : Bytes) (t : ActiveTransfer)
      → lookup key m.active ≡ some t
      → lookup key m.completed ≡ none
      → verify_transfer w t ≡ ok tt
      → Move w m (record m {
        staging = record_completed_bytes m.staging t.total_size;
        active = delete key m.active;
        completed = insert key (published w t path) m.completed;
      })
  releases :
      (m : Manager) (key : Bytes) (t : ActiveTransfer)
      → lookup key m.active ≡ some t
      → Move w m (release_active_locked m key t)
  removes :
      (m : Manager) (key : Bytes) (c : CompletedAttachment)
      → lookup key m.completed ≡ some c
      → Move w m
          (release_completed_locked (record m { completed = delete key m.completed }) c.size_bytes)
  remembers : (m : Manager) (key : Bytes) → Move w m (record_cancelled_locked m key)
  starts_closing : (m : Manager) → Move w m (record m { closing = true })
  finishes : (m : Manager) (d : Directory) → Move w m (finish_close m d).0

pub data Reach (w : Surroundings) (m : Manager) : Manager → Type 0 where
  here : Reach w m m
  next : {m' m'' : Manager} → Reach w m m' → Move w m' m'' → Reach w m m''
