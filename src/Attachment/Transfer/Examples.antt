-- ===== src/Attachment/Transfer/Examples.antt =====
-- internal/attachment/transfer.go on concrete inputs.
use vibe_bridge.Base.{
  ℕ, zero, suc, ◌+◌, ◌-◌, ◌≡◌, ◌≤◌, refl, true, false, List, [], ◌∷◌, ◌++◌, none, some, Bytes,
  arith, ok, err, length, take, dec_bytes, concat, leb, if◌then◌else◌,
}
use vibe_bridge.Base.Map.{lookup}
use vibe_bridge.Base.Trim.{trim_space}
use vibe_bridge.Base.Utf8.{valid_string, valid_after, following, full_rune, decode_rune}
use vibe_bridge.Attachment.Aggregate.{AggregateTracker, reserve, total_bytes_of}
use vibe_bridge.Attachment.Text.{new_validator, scan, write, valid}
use vibe_bridge.Attachment.Text.Stream.{valid_text, has_nul}
use vibe_bridge.Attachment.Content.{
  none_kind, ContentPolicy, lower_all, to_lower, contains_string, well_formed_extension,
  parameters_allowed, check_media_type, check_extension, parse_content_policy,
  looks_like_active_markup, matches_bytes,
}
use vibe_bridge.Attachment.Content.Words.{txt, text_plain}
use vibe_bridge.Attachment.Upload.{
  content_sniff_bytes, aggregate_exceeded, partial_failed, BeginRequest, ChunkRequest,
  CompletedAttachment, ActiveTransfer, SessionStaging, Manager, name_taken, create_failed, created,
  Directory, Surroundings, valid_transfer_id, valid_display_name, equal_hash,
}
use vibe_bridge.Attachment.Staging.{claim_transfer_manager}
use vibe_bridge.Attachment.Receive.{
  create_partial, check_begin, open_partial, reserve_partial, begin_checked, begin, check_chunk,
  advance, chunk_checked, chunk,
}
use vibe_bridge.Attachment.Finish.{
  verify_transfer, publish, complete_verified, complete_active, complete_known, check_id,
  complete_checked, complete,
}
use vibe_bridge.Attachment.Retire.{
  default_limits, empty_manager, new_transfer_manager, new_manager, adopt,
  new_manager_with_aggregate,
}
use vibe_bridge.Attachment.Transfer.{
  Op, shares, begins, chunks, completes, cancels, discards, step, run,
}
use vibe_bridge.Attachment.Transfer.Limits.{held}
use vibe_bridge.Attachment.Transfer.Quota.{run_within_quota}
use vibe_bridge.Attachment.Transfer.Sending.{send_all}
use vibe_bridge.Attachment.Transfer.Progress.{attachment_of, upload_completes}
use vibe_bridge.Attachment.Transfer.Sparing.{Spares}
use vibe_bridge.Attachment.Transfer.Declared.{CameFrom, complete-complete}
use vibe_bridge.Attachment.Transfer.Ledger.{begin_leaks, refused_releases}

abbrev repeated : ℕ → ℕ → Bytes
repeated zero b = []
repeated (suc n) b = b ∷ repeated n b

abbrev surroundings : Surroundings
surroundings = record {
  sha256 = λ b. repeated 32 (length b);
  is_other = λ name. false;
  mime = record { parse_media_type = λ s. some (s, []); detect_content_type = λ s. text_plain };
}

-- "a".
abbrev name : Bytes
name = 97 ∷ []

abbrev id : Bytes
id = 5 ∷ []

abbrev directory : Directory
directory = record {
  attempts = name_taken ∷ created name ∷ [];
  write_fails = false;
  remove_fails = λ b. false;
  link_fails = λ b. false;
  rename_fails = false;
  close_fails = false;
  relative = λ b. some b;
}

abbrev staging : SessionStaging
staging = record { cleaned = false; transfer_manager_open = false; completed_bytes_reserved = 0 }

abbrev manager : Manager
manager = empty_manager (record staging { transfer_manager_open = true }) default_limits

abbrev request : BeginRequest
request = record {
  transfer_id = id;
  display_name = name;
  declared_content_type = text_plain;
  declared_extension = txt;
  total_size_bytes = 3;
  total_sha256 = repeated 32 3;
}

abbrev policy : ContentPolicy
policy = record {
  extension = 46 ∷ txt;
  content_type = text_plain;
  text = true;
  binary_kind = none_kind;
}

begin_fine : check_begin surroundings manager request ≡ ok policy
unfolding check_begin parse_content_policy well_formed_extension check_extension check_media_type
    to_lower lower_all contains_string parameters_allowed trim_space valid_display_name
    valid_transfer_id valid_string valid_after following dec_bytes
begin_fine = refl

-- "hé", cut inside the second letter.
abbrev parts : List Bytes
parts = (104 ∷ 195 ∷ []) ∷ (169 ∷ []) ∷ []

abbrev path : Bytes
path = name ++ 46 ∷ txt

matching :
    matches_bytes surroundings.mime policy
      (take content_sniff_bytes (concat parts))
      3
      (valid_text (concat parts))
    ≡ true
unfolding matches_bytes looks_like_active_markup to_lower lower_all trim_space valid_text has_nul
    valid_string valid_after following dec_bytes
matching = refl

upload_completes_example :
    (complete surroundings
      (send_all surroundings directory id 0 (begin surroundings manager directory request).0 parts)
      directory
      id).1
    ≡ ok (attachment_of surroundings request policy path (concat parts))
unfolding reserve create_partial
upload_completes_example =
    upload_completes surroundings manager directory request policy name path parts (λ b. refl)
      (record { writes = refl; renames = refl }) (omega arith) begin_fine refl refl refl
      ((omega arith, omega arith), ((omega arith, omega arith), tt)) refl refl matching

abbrev sends : ℕ → Bytes → ChunkRequest
sends offset part = record {
  transfer_id = id;
  offset_bytes = offset;
  content = part;
  chunk_sha256 = repeated 32 (length part);
}

abbrev ops : List Op
ops =
    begins directory request
    ∷ chunks directory (sends 0 (104 ∷ 195 ∷ []))
    ∷ chunks directory (sends 0 (104 ∷ []))
    ∷ chunks directory (sends 2 (169 ∷ []))
    ∷ completes directory id
    ∷ cancels directory (6 ∷ [])
    ∷ []

-- A manager that shares an aggregate of 1000 bytes.
abbrev sharing : Manager
sharing = record manager { aggregate = some (record { max_bytes = 1000; total_bytes = 10 }) }

sharing_made :
    new_manager_with_aggregate staging
      (some (record { max_bytes = 1000; total_bytes = 10 }))
      directory
      true
    ≡ (sharing.aggregate, ok sharing)
unfolding new_manager_with_aggregate adopt new_manager new_transfer_manager claim_transfer_manager
    reserve
sharing_made = refl

-- The aggregate has been filled by others when the first Begin comes, and is emptied after that.
abbrev shared_ops : List Op
shared_ops =
    shares (some (record { max_bytes = 1000; total_bytes = 999 }))
    ∷ begins directory request
    ∷ shares (some (record { max_bytes = 1000; total_bytes = 0 }))
    ∷ ops

run_within_quota_example :
    let m = run surroundings sharing shared_ops in
    (m.reserved_bytes ≡ 0 + held m)
    × (m.reserved_bytes ≤ default_limits.max_session_bytes)
    × (length m.active ≤ default_limits.max_active)
run_within_quota_example =
    run_within_quota surroundings staging (some (record { max_bytes = 1000; total_bytes = 10 }))
      sharing.aggregate directory true sharing shared_ops sharing_made (omega arith)

abbrev attachment : CompletedAttachment
attachment = attachment_of surroundings request policy path (concat parts)

abbrev tracker : AggregateTracker
tracker = record { total_bytes = 10; max_bytes = 100 }

abbrev shared : Manager
shared = record manager { aggregate = some tracker }

abbrev full_disk : Directory
full_disk = record directory { attempts = create_failed ∷ [] }

begin_leaks_example :
    let m = (begin surroundings shared full_disk request).0 in
    ((begin surroundings shared full_disk request).1 ≡ err partial_failed)
    × (total_bytes_of m.aggregate ≡ 10 + 3)
    × (m.reserved_bytes ≡ 0)
    × (m.active ≡ [])
unfolding create_partial check_begin
begin_leaks_example =
    begin_leaks surroundings shared full_disk request policy tracker refl (omega arith)
      (omega arith) (omega arith) begin_fine refl

-- A staging with ninety-five bytes completed, under a ceiling of a hundred of which ten are taken.
abbrev used : SessionStaging
used = record staging { completed_bytes_reserved = 95 }

abbrev over_used : Manager
over_used = empty_manager (record used { transfer_manager_open = true }) default_limits

over_used_made : new_manager used true ≡ (over_used.staging, ok over_used)
unfolding new_manager new_transfer_manager claim_transfer_manager
over_used_made = refl

refused_releases_example :
    ((new_manager_with_aggregate used (some tracker) directory true).1 ≡ err aggregate_exceeded)
    × (total_bytes_of (new_manager_with_aggregate used (some tracker) directory true).0
        ≡ (if leb 95 10 then 10 - 95 else 0))
refused_releases_example =
    refused_releases used over_used.staging tracker directory over_used (omega arith) (omega arith)
      (omega arith) (omega arith) over_used_made

abbrev uploaded : Manager
uploaded = run surroundings manager (
    begins directory request
    ∷ chunks directory (sends 0 (104 ∷ 195 ∷ []))
    ∷ chunks directory (sends 2 (169 ∷ []))
    ∷ [])

uploaded_completes : (complete surroundings uploaded directory id).1 ≡ ok attachment
unfolding run step begin begin_checked reserve_partial open_partial reserve create_partial
    check_begin chunk chunk_checked check_chunk advance complete complete_checked complete_known
    complete_active complete_verified verify_transfer publish check_id equal_hash new_validator scan
    write valid full_rune decode_rune parse_content_policy well_formed_extension check_extension
    check_media_type to_lower lower_all contains_string parameters_allowed trim_space
    valid_display_name valid_transfer_id valid_string valid_after following dec_bytes matches_bytes
    looks_like_active_markup
uploaded_completes = refl

-- What may come between two completions.
abbrev between : List Op
between =
    shares none
    ∷ begins directory (record request { transfer_id = 6 ∷ [] })
    ∷ cancels directory (6 ∷ [])
    ∷ completes directory id
    ∷ cancels directory id
    ∷ discards directory ((7 ∷ []) ∷ [])
    ∷ []

between_spare : Spares id between
between_spare = ((λ e. absurd (ground (arith, e)), tt), tt)

complete-complete_example :
    let m = run surroundings (complete surroundings uploaded directory id).0 between in
    ((t : ActiveTransfer) × (lookup id uploaded.active ≡ some t)
      × CameFrom surroundings t attachment)
    × (lookup id m.completed ≡ some attachment)
    × (complete surroundings m full_disk id ≡ (m, ok attachment))
unfolding run step begin begin_checked reserve_partial open_partial reserve create_partial
    check_begin chunk chunk_checked check_chunk equal_hash parse_content_policy
    well_formed_extension check_extension check_media_type to_lower lower_all contains_string
    parameters_allowed trim_space valid_display_name valid_transfer_id valid_string valid_after
    following dec_bytes
complete-complete_example =
    complete-complete surroundings uploaded directory full_disk id attachment between refl
      uploaded_completes between_spare
