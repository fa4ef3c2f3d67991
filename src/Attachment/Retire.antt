-- ===== src/Attachment/Retire.antt =====
-- internal/attachment/transfer.go: Discard, Cancel, Close, and the making of a manager.
use vibe_bridge.Base.{
  ◌*◌, ◌^◌, Bool, true, false, not, ◌&&◌, List, [], ◌∷◌, Option, none, some, Bytes, ltb,
  if◌then◌else◌, is_some, Result, ok, err,
}
use vibe_bridge.Base.Map.{lookup, delete}
use vibe_bridge.Attachment.Aggregate
use vibe_bridge.Attachment.Aggregate.{AggregateTracker, reserve, release}
use vibe_bridge.Attachment.Upload.{
  Error, aggregate_exceeded, cleanup_failed, close_failed, limits_invalid, storage_claimed,
  storage_unopened, CompletedAttachment, ManagerLimits, ActiveTransfer, SessionStaging, Manager,
  Directory,
}
use vibe_bridge.Attachment.Staging.{
  claim_transfer_manager, release_transfer_manager, release_active_locked, release_completed_locked,
  cleanup_fails, record_cancelled_locked,
}
use vibe_bridge.Attachment.Finish.{check_id, check_batch}

-- The active transfer of an ID goes; `none` where its cleanup fails.
unfoldable pub drop_active : Manager → Directory → Bytes → Option ActiveTransfer → Option Manager
unfolding cleanup_fails release_active_locked
drop_active m d key none = some m
drop_active m d key (some t) =
    if cleanup_fails d t then none else some (release_active_locked m key t)

-- `filepath.Base(completed.RelativePath)` is the name that was published.
unfoldable pub drop_completed :
    Manager → Directory → Bytes → Option CompletedAttachment → Option Manager
unfolding release_completed_locked
drop_completed m d key none = some m
drop_completed m d key (some c) =
    if d.remove_fails c.relative_path
    then none
    else some
        (release_completed_locked (record m { completed = delete key m.completed }) c.size_bytes)

-- The end of a round of the loop of `Discard`: the manager after it, and whether it failed.
unfoldable pub discarded : Manager → Bytes → Option Manager → Manager × Bool
unfolding record_cancelled_locked
discarded m key none = (m, true)
discarded m key (some m') = (record_cancelled_locked m' key, false)

-- What follows the cleanup of an active transfer.
unfoldable pub discard_completed : Manager → Directory → Bytes → Option Manager → Manager × Bool
unfolding drop_completed discarded
discard_completed m d key none = (m, true)
discard_completed m d key (some m') =
    discarded m' key (drop_completed m' d key (lookup key m'.completed))

unfoldable pub discard_one : Manager → Directory → Bytes → Manager × Bool
unfolding drop_active discard_completed
discard_one m d key = discard_completed m d key (drop_active m d key (lookup key m.active))

unfoldable pub discard_all : Manager → Directory → List Bytes → Manager × Result Error (Unit {0})
unfolding discard_one
discard_all m d [] = (m, ok tt)
discard_all m d (id ∷ ids) =
    let (m', failed) = discard_one m d id in
    let rest = discard_all m' d ids in if failed then (m', err cleanup_failed) else rest

unfoldable pub discard_checked :
    Manager → Directory → List Bytes → Result Error (Unit {0}) → Manager × Result Error (Unit {0})
unfolding discard_all
discard_checked m d ids (err e) = (m, err e)
discard_checked m d ids (ok u) = discard_all m d ids

unfoldable pub discard : Manager → Directory → List Bytes → Manager × Result Error (Unit {0})
unfolding check_batch discard_checked
discard m d ids = discard_checked m d ids (check_batch m ids)

unfoldable pub cancelled_one : Manager → Bytes → Option Manager → Manager × Result Error (Unit {0})
unfolding record_cancelled_locked
cancelled_one m key none = (m, err cleanup_failed)
cancelled_one m key (some m') = (record_cancelled_locked m' key, ok tt)

unfoldable pub cancel_checked :
    Manager → Directory → Bytes → Result Error (Unit {0}) → Manager × Result Error (Unit {0})
unfolding drop_active cancelled_one
cancel_checked m d id (err e) = (m, err e)
cancel_checked m d id (ok u) =
    if is_some (lookup id m.completed)
    then (m, ok tt)
    else cancelled_one m id (drop_active m d id (lookup id m.active))

unfoldable pub cancel : Manager → Directory → Bytes → Manager × Result Error (Unit {0})
unfolding check_id cancel_checked
cancel m d id = cancel_checked m d id (check_id m id)

-- The loop over the active transfers: the manager after it, and whether a cleanup failed.
unfoldable pub close_active : Manager → Directory → List (Bytes × ActiveTransfer) → Manager × Bool
unfolding cleanup_fails release_active_locked
close_active m d [] = (m, false)
close_active m d ((key, t) ∷ transfers) =
    if cleanup_fails d t
    then ((close_active m d transfers).0, true)
    else close_active (release_active_locked m key t) d transfers

unfoldable pub finish_close : Manager → Directory → Manager × Result Error (Unit {0})
unfolding release_transfer_manager
finish_close m d = (
  record m {
    aggregate = release m.aggregate m.reserved_bytes;
    staging = release_transfer_manager m.staging;
    closed = true;
    closing = false;
  },
  if d.close_fails then err close_failed else ok tt,
)

unfoldable pub close : Manager → Directory → Manager × Result Error (Unit {0})
unfolding close_active finish_close
close m d =
    if m.closed
    then (m, ok tt)
    else let (m', failed) = close_active (record m { closing = true }) d m.active in
      if failed then (m', err cleanup_failed) else finish_close m' d

abbrev pub default_limits : ManagerLimits
default_limits = record {
  max_file_bytes = 25 * 1024 * 1024;
  max_session_bytes = 100 * 1024 * 1024;
  max_chunk_bytes = 256 * 1024;
  max_active = 4;
}

abbrev valid_limits : ManagerLimits → Bool
valid_limits l =
    ltb 0 l.max_file_bytes
    && ltb 0 l.max_session_bytes
    && ltb l.max_file_bytes (2 ^ 63)
    && ltb 0 l.max_chunk_bytes
    && ltb 0 l.max_active

abbrev pub empty_manager : SessionStaging → ManagerLimits → Manager
empty_manager s limits = record {
  staging = s;
  limits = limits;
  aggregate = none;
  active = [];
  completed = [];
  cancelled = [];
  cancelled_order = [];
  reserved_bytes = s.completed_bytes_reserved;
  closing = false;
  closed = false;
}

-- The staging after the call, with the manager, of which it is part. `opens` tells whether the
-- directory can be opened.
unfoldable pub new_transfer_manager :
    SessionStaging → ManagerLimits → Bool → SessionStaging × Result Error Manager
unfolding claim_transfer_manager release_transfer_manager
new_transfer_manager s limits opens =
    if not (valid_limits limits) then (s, err limits_invalid) else elim (claim_transfer_manager s) [
      | none ↦ (s, err storage_claimed)
      | some s' ↦
          if opens
          then (s', ok (empty_manager s' limits))
          else (release_transfer_manager s', err storage_unopened)
    ]

unfoldable pub new_manager : SessionStaging → Bool → SessionStaging × Result Error Manager
unfolding new_transfer_manager
new_manager s opens = new_transfer_manager s default_limits opens

-- The aggregate is shared, so that it is part of the result. The last step reserves what the staging
-- has completed already, and closes the manager if the aggregate refuses it.
abbrev pub adopted :
    Manager
    → Directory
    → Option AggregateTracker × Result Aggregate.Error (Unit {0})
    → Option AggregateTracker × Result Error Manager
adopted m d (t, ok u) = (t, ok (record m { aggregate = t }))
adopted m d (t, err e) =
    ((close (record m { aggregate = t }) d).0.aggregate, err aggregate_exceeded)

unfoldable pub adopt :
    Option AggregateTracker
    → Directory
    → Result Error Manager
    → Option AggregateTracker × Result Error Manager
unfolding close
adopt aggregate d (err e) = (aggregate, err e)
adopt aggregate d (ok m) = adopted m d (reserve aggregate m.staging.completed_bytes_reserved)

unfoldable pub new_manager_with_aggregate :
    SessionStaging
    → Option AggregateTracker
    → Directory
    → Bool
    → Option AggregateTracker × Result Error Manager
unfolding new_manager adopt
new_manager_with_aggregate s aggregate d opens = adopt aggregate d (new_manager s opens).1
