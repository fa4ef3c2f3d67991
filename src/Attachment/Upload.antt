-- ===== src/Attachment/Upload.antt =====
-- internal/attachment/transfer.go and staging.go: the data of the transfers.
use vibe_bridge.Base.{
  ℕ, ◌+◌, ◌-◌, ◌^◌, Bool, true, false, not, ◌&&◌, List, Option, Bytes, ltb, leb, ◌==◌,
  if◌then◌else◌, length, is_empty, dec_bytes, ite, Result,
}
use vibe_bridge.Base.Utf8.{valid_string}
use vibe_bridge.Attachment.Aggregate.{AggregateTracker}
use vibe_bridge.Attachment.Text.{Utf8StreamValidator}
use vibe_bridge.Attachment.Content.{ContentPolicy, Mime}

abbrev pub max_transfer_id_bytes : ℕ
max_transfer_id_bytes = 64

abbrev pub max_display_name_bytes : ℕ
max_display_name_bytes = 255

abbrev pub content_sniff_bytes : ℕ
content_sniff_bytes = 512

abbrev pub max_selection : ℕ
max_selection = 10

abbrev pub max_cancelled_outcomes : ℕ
max_cancelled_outcomes = 256

abbrev pub sha256_size : ℕ
sha256_size = 32

-- An error that only a cleanup has, or the cause of a rejection with one, is made by wrapping.
pub data Error : Type 0 where
  invalid_transfer invalid_metadata file_limit_exceeded unsupported_content : Error
  active_transfer_limit session_quota_exceeded aggregate_exceeded transfer_exists : Error
  transfer_not_found chunk_checksum_mismatch chunk_offset_mismatch chunk_limit_exceeded : Error
  total_size_mismatch total_checksum_mismatch content_type_mismatch manager_closed : Error
  invalid_selection selection_limit duplicate_attachment attachment_not_completed : Error
  partial_failed write_failed reference_failed publish_failed cleanup_failed close_failed : Error
  limits_invalid storage_claimed storage_unopened : Error
  joined : Error → Error → Error

pub record BeginRequest : Type 0 where
  pub transfer_id : Bytes
  pub display_name : Bytes
  pub declared_content_type : Bytes
  pub declared_extension : Bytes
  pub total_size_bytes : ℕ
  pub total_sha256 : Bytes

pub record ChunkRequest : Type 0 where
  pub transfer_id : Bytes
  pub offset_bytes : ℕ
  pub content : Bytes
  pub chunk_sha256 : Bytes

-- `TransferOutcome`, its disposition with the offset that an active transfer has.
pub data TransferOutcome : Type 0 where
  unknown completed_transfer cancelled_transfer : TransferOutcome
  active_transfer : ℕ → TransferOutcome

pub record CompletedAttachment : Type 0 where
  pub transfer_id : Bytes
  pub display_name : Bytes
  pub relative_path : Bytes
  pub content_type : Bytes
  pub extension : Bytes
  pub size_bytes : ℕ
  pub sha256 : Bytes

pub record ManagerLimits : Type 0 where
  pub max_file_bytes : ℕ
  pub max_session_bytes : ℕ
  pub max_chunk_bytes : ℕ
  pub max_active : ℕ

-- `hashed` is what the hasher has been fed.
pub record ActiveTransfer : Type 0 where
  pub transfer_id : Bytes
  pub display_name : Bytes
  pub policy : ContentPolicy
  pub total_size : ℕ
  pub expected_sha256 : Bytes
  pub received_bytes : ℕ
  pub hashed : Bytes
  pub sniff : Bytes
  pub text : Utf8StreamValidator
  pub storage_prefix : Bytes
  pub partial_name : Bytes
  pub publication_attempted : Bool

-- The counter of the staging, and whether a manager is open on it.
pub record SessionStaging : Type 0 where
  pub cleaned : Bool
  pub transfer_manager_open : Bool
  pub completed_bytes_reserved : ℕ

-- `cancelled_order` is the list, of which `cancelled` is the set.
pub record Manager : Type 0 where
  pub staging : SessionStaging
  pub limits : ManagerLimits
  pub aggregate : Option AggregateTracker
  pub active : List (Bytes × ActiveTransfer)
  pub completed : List (Bytes × CompletedAttachment)
  pub cancelled : List (Bytes × Unit {0})
  pub cancelled_order : List Bytes
  pub reserved_bytes : ℕ
  pub closing : Bool
  pub closed : Bool

-- What one attempt to create a partial file comes to.
pub data Attempt : Type 0 where
  no_entropy name_taken create_failed : Attempt
  created : Bytes → Attempt

-- The answers of the staging directory during one call, `true` for a failure, and the path of a
-- name relative to the workspace, if it is local.
pub record Directory : Type 0 where
  pub attempts : List Attempt
  pub write_fails : Bool
  pub remove_fails : Bytes → Bool
  pub link_fails : Bytes → Bool
  pub rename_fails : Bool
  pub close_fails : Bool
  pub relative : Bytes → Option Bytes

-- The code that the manager calls and that has no state.
pub record Surroundings : Type 0 where
  pub sha256 : Bytes → Bytes
  pub is_other : Bytes → Bool
  pub mime : Mime

abbrev pub answer {ℓ} : {A : Type ℓ} → Manager → Result Error A → Manager × Result Error A
answer m r = (m, r)

unfoldable pub valid_transfer_id : Bytes → Bool
valid_transfer_id id = ltb 0 (length id) && leb (length id) max_transfer_id_bytes

-- `is_other` tells whether a rune of the string lies in `unicode.C`.
unfoldable pub valid_display_name : Surroundings → Bytes → Bool
valid_display_name w name =
    not (is_empty name)
    && leb (length name) max_display_name_bytes
    && valid_string name
    && not (w.is_other name)

unfoldable pub equal_hash : Bytes → Bytes → Bool
equal_hash left right =
    length left == sha256_size
    && length right == sha256_size
    && ite (dec_bytes left right) true false

-- `a - b` of uint64.
abbrev pub minus : ℕ → ℕ → ℕ
minus a b = if leb b a then a - b else a + 2 ^ 64 - b

-- A counter less an amount, or 0.
abbrev pub less : ℕ → ℕ → ℕ
less total amount = if leb amount total then total - amount else 0
