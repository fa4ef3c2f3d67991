-- ===== src/Attachment/Transfer/Progress.antt =====
-- internal/attachment/transfer.go: an upload that nothing disturbs completes.
use vibe_bridge.Base.{
  ◌^◌, ◌≡◌, ◌<◌, refl, ◌∙◌, true, false, ◌||◌, List, ◌++◌, some, Bytes, ok, arith, length, take,
  concat, All,
}
use vibe_bridge.Base.Map.{lookup-insert}
use vibe_bridge.Attachment.Aggregate.{reserve}
use vibe_bridge.Attachment.Text.{valid}
use vibe_bridge.Attachment.Text.Stream.{valid_text}
use vibe_bridge.Attachment.Content.{ContentPolicy, matches_bytes}
use vibe_bridge.Attachment.Content.Binary.{matches_bytes-same}
use vibe_bridge.Attachment.Upload.{
  content_sniff_bytes, sha256_size, BeginRequest, CompletedAttachment, ManagerLimits,
  ActiveTransfer, Manager, Directory, Surroundings, valid_transfer_id, equal_hash,
}
use vibe_bridge.Attachment.Receive.{
  storage_name_attempts, create_partial, started, check_begin, open_partial, reserve_partial,
  begin_checked, begin,
}
use vibe_bridge.Attachment.Finish.{
  verify_transfer, published, publish, complete_verified, complete_active, complete_known, check_id,
  complete_checked, complete,
}
use vibe_bridge.Attachment.Transfer.Limits.{check_begin-ok}
use vibe_bridge.Attachment.Transfer.Honesty.{valid-Texted}
use vibe_bridge.Attachment.Transfer.Integrity.{started-Honest}
use vibe_bridge.Attachment.Transfer.Sending.{
  send_all, Sound, Fits, Under, advance_all, Grown, advance_all-Grown, send_all-Under,
}

check_begin-open :
    (w : Surroundings) (m : Manager) (r : BeginRequest) (policy : ContentPolicy)
    → check_begin w m r ≡ ok policy
    → ((m.closed || m.closing) ≡ false) × (valid_transfer_id r.transfer_id ≡ true)
unfolding check_begin
check_begin-open w m r policy e = ground arith

begin-Under :
    (w : Surroundings) (m : Manager) (d : Directory) (r : BeginRequest) (policy : ContentPolicy)
    (prefix : Bytes)
    → check_begin w m r ≡ ok policy
    → (reserve m.aggregate r.total_size_bytes).1 ≡ ok tt
    → create_partial storage_name_attempts d.attempts ≡ some prefix
    → Under r.transfer_id m.limits (begin w m d r).0 (started r policy prefix)
unfolding begin begin_checked reserve_partial open_partial
begin-Under w m d r policy prefix fine granted made =
    let (new, fresh, room, quota, positive, small, full) = check_begin-ok w m r policy fine in
    let (open_still, valid_id) = check_begin-open w m r policy fine in
    let honest = started-Honest w m.limits m r policy prefix refl fine in
    record {
      fixed = ground arith;
      open_still = ground arith;
      found =
          ground
            (arith, lookup-insert r.transfer_id r.transfer_id (started r policy prefix) m.active);
      new = ground arith;
      honest = honest;
    }

complete-publishes :
    (w : Surroundings) (m : Manager) (d : Directory) (id path : Bytes) (l : ManagerLimits)
    (t : ActiveTransfer)
    → ((b : Bytes) → length (w.sha256 b) ≡ sha256_size)
    → d.rename_fails ≡ false
    → valid_transfer_id id ≡ true
    → d.relative (t.storage_prefix ++ t.policy.extension) ≡ some path
    → t.received_bytes ≡ t.total_size
    → w.sha256 t.hashed ≡ t.expected_sha256
    → matches_bytes w.mime t.policy t.sniff t.total_size (valid t.text) ≡ true
    → Under id l m t
    → (complete w m d id).1 ≡ ok (published w t path)
unfolding complete complete_checked complete_known complete_active complete_verified publish
    check_id verify_transfer equal_hash
complete-publishes w m d id path l t full renames valid_id local all checksum matching u =
    ground (arith, full t.hashed, u.open_still, u.found, u.new)

abbrev pub attachment_of :
    Surroundings → BeginRequest → ContentPolicy → Bytes → Bytes → CompletedAttachment
attachment_of w r policy path content = record {
  transfer_id = r.transfer_id;
  display_name = r.display_name;
  relative_path = path;
  content_type = policy.content_type;
  extension = policy.extension;
  size_bytes = r.total_size_bytes;
  sha256 = w.sha256 content;
}

-- The completion of a transfer that has grown to the whole content.
complete-Grown :
    (w : Surroundings) (m : Manager) (d : Directory) (r : BeginRequest) (policy : ContentPolicy)
    (prefix path content : Bytes) (l : ManagerLimits) (end : ActiveTransfer)
    → ((b : Bytes) → length (w.sha256 b) ≡ sha256_size)
    → d.rename_fails ≡ false
    → valid_transfer_id r.transfer_id ≡ true
    → d.relative (prefix ++ policy.extension) ≡ some path
    → length content ≡ r.total_size_bytes
    → w.sha256 content ≡ r.total_sha256
    → matches_bytes w.mime policy
        (take content_sniff_bytes content)
        r.total_size_bytes
        (valid_text content)
      ≡ true
    → Grown (started r policy prefix) content end
    → Under r.transfer_id l m end
    → (complete w m d r.transfer_id).1 ≡ ok (attachment_of w r policy path content)
complete-Grown w m d r policy prefix path content l end full renames valid_id local size sum
      matching (hashed, total, expected, same_policy, same_id, same_name, same_prefix) u =
    let same_text =
      matches_bytes-same w.mime end.policy end.sniff end.total_size (valid end.text)
        (valid_text end.hashed) (valid-Texted end u.honest.texted) in
    let matched : matches_bytes w.mime end.policy end.sniff end.total_size (valid_text end.hashed)
        ≡ true =
      ground (arith, matching, u.honest.sniffed) in
    complete-publishes w m d r.transfer_id path l end full renames valid_id (ground (arith, local))
      (ground (arith, u.honest.counted)) (ground (arith, sum)) (same_text ∙ matched) u
    ∙ ground arith

-- An upload completes: a transfer whose Begin passes the checks, to which the aggregate grants its
-- size and the directory a partial file, and whose content is then sent in order in parts that fit
-- into chunks, is published as declared, provided that the content has the declared size and
-- checksum and matches the policy and that no write and no rename fails.
pub upload_completes :
    (w : Surroundings) (m : Manager) (d : Directory) (r : BeginRequest) (policy : ContentPolicy)
    (prefix path : Bytes) (parts : List Bytes)
    → ((b : Bytes) → length (w.sha256 b) ≡ sha256_size)
    → Sound d
    → m.limits.max_file_bytes < 2 ^ 64
    → check_begin w m r ≡ ok policy
    → (reserve m.aggregate r.total_size_bytes).1 ≡ ok tt
    → create_partial storage_name_attempts d.attempts ≡ some prefix
    → d.relative (prefix ++ policy.extension) ≡ some path
    → All (Fits m.limits) parts
    → length (concat parts) ≡ r.total_size_bytes
    → w.sha256 (concat parts) ≡ r.total_sha256
    → matches_bytes w.mime policy
        (take content_sniff_bytes (concat parts))
        r.total_size_bytes
        (valid_text (concat parts))
      ≡ true
    → (complete w (send_all w d r.transfer_id 0 (begin w m d r).0 parts) d r.transfer_id).1
      ≡ ok (attachment_of w r policy path (concat parts))
upload_completes w m d r policy prefix path parts full sound word fine granted made local fit size
      sum matching =
    let t = started r policy prefix in
    let (open_still, valid_id) = check_begin-open w m r policy fine in
    let sent = send_all w d r.transfer_id 0 (begin w m d r).0 parts in
    let u =
      send_all-Under w d r.transfer_id m.limits (begin w m d r).0 t parts full sound.writes word
        valid_id fit (ground (arith, size)) (begin-Under w m d r policy prefix fine granted made) in
    complete-Grown w sent d r policy prefix path (concat parts) m.limits (advance_all t parts) full
      sound.renames valid_id local size sum matching (advance_all-Grown t parts) u
