-- ===== src/Attachment/Staging.antt =====
-- internal/attachment/staging.go and transfer.go: what is released, and the outcomes remembered.
use vibe_bridge.Base.{
  ℕ, ◌+◌, ◌%◌, ◌^◌, Bool, true, false, ◌&&◌, ◌||◌, List, [], ◌∷◌, ◌++◌, Option, none, some, Bytes,
  leb, if◌then◌else◌, length, dec_bytes, ite, is_some,
}
use vibe_bridge.Base.Map.{lookup, insert, delete}
use vibe_bridge.Attachment.Aggregate.{release}
use vibe_bridge.Attachment.Upload.{
  max_cancelled_outcomes, Error, write_failed, cleanup_failed, joined, ActiveTransfer,
  SessionStaging, Manager, Directory, less,
}

unfoldable pub claim_transfer_manager : SessionStaging → Option SessionStaging
claim_transfer_manager s =
    if s.cleaned || s.transfer_manager_open
    then none
    else some (record s { transfer_manager_open = true })

unfoldable pub release_transfer_manager : SessionStaging → SessionStaging
release_transfer_manager s = record s { transfer_manager_open = false }

unfoldable pub record_completed_bytes : SessionStaging → ℕ → SessionStaging
record_completed_bytes s size = record s {
  completed_bytes_reserved = (s.completed_bytes_reserved + size) % 2 ^ 64;
}

unfoldable pub release_completed_bytes : SessionStaging → ℕ → SessionStaging
release_completed_bytes s size = record s {
  completed_bytes_reserved = less s.completed_bytes_reserved size;
}

unfoldable pub release_active_locked : Manager → Bytes → ActiveTransfer → Manager
release_active_locked m key t = record m {
  active = delete key m.active;
  reserved_bytes = less m.reserved_bytes t.total_size;
  aggregate = release m.aggregate t.total_size;
}

unfoldable pub release_completed_locked : Manager → ℕ → Manager
unfolding release_completed_bytes
release_completed_locked m size = record m {
  reserved_bytes = less m.reserved_bytes size;
  staging = release_completed_bytes m.staging size;
  aggregate = release m.aggregate size;
}

-- Whether the cleanup of an active transfer fails.
unfoldable pub cleanup_fails : Directory → ActiveTransfer → Bool
cleanup_fails d t =
    (t.publication_attempted && d.link_fails t.partial_name) || d.remove_fails t.partial_name

-- `failTransferLocked`.
unfoldable pub fail_transfer_locked :
    Manager → Directory → Bytes → ActiveTransfer → Error → Manager × Error
unfolding release_active_locked
fail_transfer_locked m d key t cause =
    if d.remove_fails t.partial_name
    then (m, joined cause cleanup_failed)
    else (release_active_locked m key t, cause)

unfoldable pub abort_after_write_failure_locked :
    Manager → Directory → Bytes → ActiveTransfer → Manager × Error
unfolding release_active_locked
abort_after_write_failure_locked m d key t =
    if d.remove_fails t.partial_name
    then (m, joined write_failed cleanup_failed)
    else (release_active_locked m key t, write_failed)

unfoldable pub remove_first : Bytes → List Bytes → List Bytes
remove_first key [] = []
remove_first key (k ∷ keys) = ite (dec_bytes k key) keys (k ∷ remove_first key keys)

-- The oldest goes if there are more than the limit.
unfoldable pub trim_cancelled : Manager → List Bytes → Manager
trim_cancelled m [] = record m { cancelled_order = [] }
trim_cancelled m (oldest ∷ order) =
    if leb (length (oldest ∷ order)) max_cancelled_outcomes
    then record m { cancelled_order = oldest ∷ order }
    else record m { cancelled_order = order; cancelled = delete oldest m.cancelled }

unfoldable pub record_cancelled_locked : Manager → Bytes → Manager
unfolding trim_cancelled remove_first
record_cancelled_locked m key =
    if is_some (lookup key m.cancelled)
    then trim_cancelled m (remove_first key m.cancelled_order ++ key ∷ [])
    else trim_cancelled (record m { cancelled = insert key tt m.cancelled })
        (m.cancelled_order ++ key ∷ [])
