-- ===== src/Attachment/Receive.antt =====
-- internal/attachment/transfer.go: Begin and Chunk.
use vibe_bridge.Base.{
  ℕ, zero, suc, ◌+◌, ◌-◌, ◌%◌, ◌^◌, false, not, ◌&&◌, ◌||◌, List, [], ◌∷◌, ◌++◌, Option, none, some,
  Bytes, ltb, leb, ◌==◌, if◌then◌else◌, length, take, is_empty, is_some, Result, ok, err, ◌>>=◌,
  ◌>>◌, require,
}
use vibe_bridge.Base.Map.{lookup, insert}
use vibe_bridge.Attachment.Aggregate
use vibe_bridge.Attachment.Aggregate.{AggregateTracker, reserve, release}
use vibe_bridge.Attachment.Text.{new_validator, write}
use vibe_bridge.Attachment.Content.{ContentPolicy, parse_content_policy}
use vibe_bridge.Attachment.Upload.{
  content_sniff_bytes, sha256_size, Error, invalid_transfer, invalid_metadata, file_limit_exceeded,
  unsupported_content, active_transfer_limit, session_quota_exceeded, aggregate_exceeded,
  transfer_exists, transfer_not_found, chunk_checksum_mismatch, chunk_offset_mismatch,
  chunk_limit_exceeded, total_size_mismatch, manager_closed, partial_failed, BeginRequest,
  ChunkRequest, ActiveTransfer, Manager, Attempt, no_entropy, name_taken, create_failed, created,
  Directory, Surroundings, valid_transfer_id, valid_display_name, equal_hash, minus,
}
use vibe_bridge.Attachment.Staging.{abort_after_write_failure_locked}

abbrev pub storage_name_attempts : ℕ
storage_name_attempts = 4

unfoldable pub create_partial : ℕ → List Attempt → Option Bytes
create_partial zero attempts = none
create_partial (suc n) [] = none
create_partial (suc n) (no_entropy ∷ attempts) = none
create_partial (suc n) (create_failed ∷ attempts) = none
create_partial (suc n) (name_taken ∷ attempts) = create_partial n attempts
create_partial (suc n) (created prefix ∷ attempts) = some prefix

-- ".partial".
abbrev pub partial_suffix : Bytes
partial_suffix = 46 ∷ 112 ∷ 97 ∷ 114 ∷ 116 ∷ 105 ∷ 97 ∷ 108 ∷ []

abbrev pub started : BeginRequest → ContentPolicy → Bytes → ActiveTransfer
started r policy prefix = record {
  transfer_id = r.transfer_id;
  display_name = r.display_name;
  policy = policy;
  total_size = r.total_size_bytes;
  expected_sha256 = r.total_sha256;
  received_bytes = 0;
  hashed = [];
  sniff = [];
  text = new_validator;
  storage_prefix = prefix;
  partial_name = prefix ++ partial_suffix;
  publication_attempted = false;
}

abbrev pub policy_result : Option ContentPolicy → Result Error ContentPolicy
policy_result none = err unsupported_content
policy_result (some p) = ok p

-- The checks up to the aggregate.
unfoldable pub check_begin : Surroundings → Manager → BeginRequest → Result Error ContentPolicy
check_begin w m r = do
  require (not (m.closed || m.closing)) manager_closed
  require (valid_transfer_id r.transfer_id && length r.total_sha256 == sha256_size) invalid_transfer
  require (valid_display_name w r.display_name) invalid_metadata
  require (not (r.total_size_bytes == 0) && leb r.total_size_bytes m.limits.max_file_bytes)
      file_limit_exceeded
  policy ← policy_result (parse_content_policy w.mime r.declared_extension r.declared_content_type)
  require (not (is_some (lookup r.transfer_id m.active))) transfer_exists
  require (not (is_some (lookup r.transfer_id m.completed))) transfer_exists
  require (ltb (length m.active) m.limits.max_active) active_transfer_limit
  require
      (leb m.reserved_bytes m.limits.max_session_bytes
        && leb r.total_size_bytes (m.limits.max_session_bytes - m.reserved_bytes))
      session_quota_exceeded
  ok policy

-- After the aggregate has granted the size.
unfoldable pub open_partial :
    Manager → BeginRequest → ContentPolicy → Option Bytes → Manager × Result Error (Unit {0})
open_partial m r policy none = (m, err partial_failed)
open_partial m r policy (some prefix) = (
  record m {
    active = insert r.transfer_id (started r policy prefix) m.active;
    reserved_bytes = (m.reserved_bytes + r.total_size_bytes) % 2 ^ 64;
  },
  ok tt,
)

unfoldable pub reserve_partial :
    Manager
    → BeginRequest
    → ContentPolicy
    → Option Bytes
    → Option AggregateTracker × Result Aggregate.Error (Unit {0})
    → Manager × Result Error (Unit {0})
unfolding open_partial
reserve_partial m r policy prefix (t, err e) = (record m { aggregate = t }, err aggregate_exceeded)
reserve_partial m r policy prefix (t, ok u) =
    open_partial (record m { aggregate = t }) r policy prefix

unfoldable pub begin_checked :
    Manager
    → Directory
    → BeginRequest
    → Result Error ContentPolicy
    → Manager × Result Error (Unit {0})
unfolding reserve_partial create_partial
begin_checked m d r (err e) = (m, err e)
begin_checked m d r (ok policy) =
    reserve_partial m r policy (create_partial storage_name_attempts d.attempts)
      (reserve m.aggregate r.total_size_bytes)

unfoldable pub begin :
    Surroundings → Manager → Directory → BeginRequest → Manager × Result Error (Unit {0})
unfolding check_begin begin_checked
begin w m d r = begin_checked m d r (check_begin w m r)

-- Looking an active transfer up, and what follows it.
abbrev pub found_active : Option ActiveTransfer → Result Error ActiveTransfer
found_active none = err transfer_not_found
found_active (some t) = ok t

unfoldable pub check_chunk : Surroundings → Manager → ChunkRequest → Result Error ActiveTransfer
check_chunk w m r = do
  require (not (m.closed || m.closing)) manager_closed
  require
      (valid_transfer_id r.transfer_id
        && length r.chunk_sha256 == sha256_size
        && not (is_empty r.content))
      invalid_transfer
  t ← found_active (lookup r.transfer_id m.active)
  require (leb (length r.content) m.limits.max_chunk_bytes) chunk_limit_exceeded
  require (r.offset_bytes == t.received_bytes) chunk_offset_mismatch
  require (leb (length r.content) (minus t.total_size t.received_bytes)) total_size_mismatch
  require (equal_hash (w.sha256 r.content) r.chunk_sha256) chunk_checksum_mismatch
  ok t

-- The transfer after the write of a chunk.
unfoldable pub advance : ActiveTransfer → Bytes → ActiveTransfer
advance t content = record t {
  hashed = t.hashed ++ content;
  sniff = t.sniff ++ take (content_sniff_bytes - length t.sniff) content;
  text = if t.policy.text then write t.text content else t.text;
  received_bytes = (t.received_bytes + length content) % 2 ^ 64;
}

abbrev pub failing : Manager × Error → Manager × Result Error (Unit {0})
failing (m, e) = (m, err e)

unfoldable pub chunk_checked :
    Manager
    → Directory
    → ChunkRequest
    → Result Error ActiveTransfer
    → Manager × Result Error (Unit {0})
unfolding abort_after_write_failure_locked advance
chunk_checked m d r (err e) = (m, err e)
chunk_checked m d r (ok t) =
    if d.write_fails
    then failing (abort_after_write_failure_locked m d r.transfer_id t)
    else (record m { active = insert r.transfer_id (advance t r.content) m.active }, ok tt)

unfoldable pub chunk :
    Surroundings → Manager → Directory → ChunkRequest → Manager × Result Error (Unit {0})
unfolding check_chunk chunk_checked
chunk w m d r = chunk_checked m d r (check_chunk w m r)
