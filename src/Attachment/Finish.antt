-- ===== src/Attachment/Finish.antt =====
-- internal/attachment/transfer.go: Complete, Outcome and CompletedAttachments.
use vibe_bridge.Base.{
  true, not, ◌||◌, List, [], ◌∷◌, ◌++◌, Option, none, some, Bytes, leb, ◌==◌, if◌then◌else◌, length,
  is_empty, is_some, Result, ok, err, ◌>>=◌, ◌>>◌, require,
}
use vibe_bridge.Base.Map.{lookup, insert, delete}
use vibe_bridge.Attachment.Text.{valid}
use vibe_bridge.Attachment.Content.{matches_bytes}
use vibe_bridge.Attachment.Upload.{
  max_selection, Error, invalid_transfer, transfer_not_found, total_size_mismatch,
  total_checksum_mismatch, content_type_mismatch, manager_closed, invalid_selection,
  selection_limit, duplicate_attachment, attachment_not_completed, reference_failed, publish_failed,
  TransferOutcome, unknown, completed_transfer, cancelled_transfer, active_transfer,
  CompletedAttachment, ActiveTransfer, Manager, Directory, Surroundings, valid_transfer_id,
  equal_hash,
}
use vibe_bridge.Attachment.Staging.{record_completed_bytes, fail_transfer_locked}

-- What is verified before the publication.
unfoldable pub verify_transfer : Surroundings → ActiveTransfer → Result Error (Unit {0})
verify_transfer w t =
    require (t.received_bytes == t.total_size) total_size_mismatch
    >> require (equal_hash (w.sha256 t.hashed) t.expected_sha256) total_checksum_mismatch
    >> require (matches_bytes w.mime t.policy t.sniff t.total_size (valid t.text))
        content_type_mismatch

abbrev pub published : Surroundings → ActiveTransfer → Bytes → CompletedAttachment
published w t path = record {
  transfer_id = t.transfer_id;
  display_name = t.display_name;
  relative_path = path;
  content_type = t.policy.content_type;
  extension = t.policy.extension;
  size_bytes = t.total_size;
  sha256 = w.sha256 t.hashed;
}

-- The publication under the final name.
unfoldable pub publish :
    Surroundings
    → Manager
    → Directory
    → Bytes
    → ActiveTransfer
    → Option Bytes
    → Manager × Result Error CompletedAttachment
unfolding record_completed_bytes
publish w m d key t none = (m, err reference_failed)
publish w m d key t (some path) =
    if d.rename_fails
    then (
      record m { active = insert key (record t { publication_attempted = true }) m.active },
      err publish_failed,
    )
    else (
      record m {
        staging = record_completed_bytes m.staging t.total_size;
        active = delete key m.active;
        completed = insert key (published w t path) m.completed;
      },
      ok (published w t path),
    )

abbrev pub rejecting : Manager × Error → Manager × Result Error CompletedAttachment
rejecting (m, e) = (m, err e)

unfoldable pub complete_verified :
    Surroundings
    → Manager
    → Directory
    → Bytes
    → ActiveTransfer
    → Result Error (Unit {0})
    → Manager × Result Error CompletedAttachment
unfolding fail_transfer_locked publish
complete_verified w m d key t (err cause) = rejecting (fail_transfer_locked m d key t cause)
complete_verified w m d key t (ok u) =
    publish w m d key t (d.relative (t.storage_prefix ++ t.policy.extension))

unfoldable pub complete_active :
    Surroundings
    → Manager
    → Directory
    → Bytes
    → Option ActiveTransfer
    → Manager × Result Error CompletedAttachment
unfolding verify_transfer complete_verified
complete_active w m d key none = (m, err transfer_not_found)
complete_active w m d key (some t) = complete_verified w m d key t (verify_transfer w t)

unfoldable pub complete_known :
    Surroundings
    → Manager
    → Directory
    → Bytes
    → Option CompletedAttachment
    → Manager × Result Error CompletedAttachment
unfolding complete_active
complete_known w m d key (some c) = (m, ok c)
complete_known w m d key none = complete_active w m d key (lookup key m.active)

-- The first checks that the methods on one ID share.
unfoldable pub check_id : Manager → Bytes → Result Error (Unit {0})
check_id m id =
    require (not (m.closed || m.closing)) manager_closed
    >> require (valid_transfer_id id) invalid_transfer

unfoldable pub complete_checked :
    Surroundings
    → Manager
    → Directory
    → Bytes
    → Result Error (Unit {0})
    → Manager × Result Error CompletedAttachment
unfolding complete_known
complete_checked w m d id (err e) = (m, err e)
complete_checked w m d id (ok u) = complete_known w m d id (lookup id m.completed)

unfoldable pub complete :
    Surroundings → Manager → Directory → Bytes → Manager × Result Error CompletedAttachment
unfolding check_id complete_checked
complete w m d id = complete_checked w m d id (check_id m id)

abbrev outcome_of :
    Option ActiveTransfer → Option CompletedAttachment → Option (Unit {0}) → TransferOutcome
outcome_of (some t) completed cancelled = active_transfer t.received_bytes
outcome_of none (some c) cancelled = completed_transfer
outcome_of none none (some u) = cancelled_transfer
outcome_of none none none = unknown

unfoldable pub outcome : Manager → Bytes → Result Error TransferOutcome
unfolding check_id
outcome m id =
    check_id m id
    >> ok (outcome_of (lookup id m.active) (lookup id m.completed) (lookup id m.cancelled))

-- The loop that validates a selection.
unfoldable pub check_selection : List Bytes → List (Bytes × Unit {0}) → Result Error (Unit {0})
check_selection [] seen = ok tt
check_selection (id ∷ ids) seen =
    let rest = check_selection ids (insert id tt seen) in
    require (valid_transfer_id id) invalid_transfer
    >> require (not (is_some (lookup id seen))) duplicate_attachment
    >> rest

unfoldable pub check_batch : Manager → List Bytes → Result Error (Unit {0})
unfolding check_selection
check_batch m ids =
    require (not (m.closed || m.closing)) manager_closed
    >> require (not (is_empty ids)) invalid_selection
    >> require (leb (length ids) max_selection) selection_limit
    >> check_selection ids []

unfoldable pub resolve :
    List (Bytes × CompletedAttachment) → List Bytes → Result Error (List CompletedAttachment)
resolve m [] = ok []
resolve m (id ∷ ids) =
    let rest = resolve m ids in
    elim (lookup id m) [ none ↦ err attachment_not_completed | some c ↦ rest >>= λ cs. ok (c ∷ cs) ]

unfoldable pub completed_attachments :
    Manager → List Bytes → Result Error (List CompletedAttachment)
unfolding check_batch resolve
completed_attachments m ids = check_batch m ids >> resolve m.completed ids
