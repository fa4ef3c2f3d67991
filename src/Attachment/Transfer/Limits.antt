-- ===== src/Attachment/Transfer/Limits.antt =====
-- internal/attachment/transfer.go: the quota, and the moves of a single transfer within it.
use vibe_bridge.Base.{
  ℕ, ◌+◌, ◌%◌, ◌^◌, ◌≡◌, ◌≤◌, ◌<◌, ◌∙◌, List, [], ◌∷◌, ◌++◌, none, some, Bytes, ok, if_cases, arith,
  is_some, leb, length,
}
use vibe_bridge.Base.Map.{
  lookup, insert, delete, total, Distinct, total-insert, total-delete, insert-Distinct,
  delete-Distinct, length-insert, length-delete,
}
use vibe_bridge.Attachment.Content.{ContentPolicy}
use vibe_bridge.Attachment.Upload.{
  max_cancelled_outcomes, sha256_size, BeginRequest, CompletedAttachment, ManagerLimits,
  ActiveTransfer, SessionStaging, Manager, Surroundings,
}
use vibe_bridge.Attachment.Staging.{
  release_active_locked, remove_first, trim_cancelled, record_cancelled_locked,
}
use vibe_bridge.Attachment.Receive.{started, check_begin}
use vibe_bridge.Attachment.Finish.{published}

abbrev declared : ActiveTransfer → ℕ
declared t = t.total_size

abbrev pub stored : CompletedAttachment → ℕ
stored c = c.size_bytes

-- What the manager holds, apart from the bytes of an earlier one on the same staging.
abbrev pub held : Manager → ℕ
held m = total declared m.active + total stored m.completed

-- The quota under the given limits, with the bytes of an earlier manager.
pub record Quota (inherited : ℕ) (l : ManagerLimits) (m : Manager) : Type 0 where
  pub distinct_active : Distinct m.active
  pub distinct_completed : Distinct m.completed
  pub exact : m.reserved_bytes ≡ inherited + held m
  pub fixed : m.limits ≡ l
  pub within : m.reserved_bytes ≤ l.max_session_bytes
  pub word : l.max_session_bytes < 2 ^ 64
  pub few : length m.active ≤ l.max_active

trim_cases {ℓ} :
    (P : Manager → Type ℓ) (m : Manager) (order : List Bytes) (c : List (Bytes × Unit {0}))
    → ((c : List (Bytes × Unit {0})) (o : List Bytes)
        → P (record m { cancelled = c; cancelled_order = o }))
    → P (trim_cancelled (record m { cancelled = c }) order)
unfolding trim_cancelled
trim_cases P m [] c all = all c []
trim_cases P m (oldest ∷ order) c all =
    if_cases P (leb (length (oldest ∷ order)) max_cancelled_outcomes) _ _
      (λ few. all c (oldest ∷ order)) (λ many. all (delete oldest c) order)

-- Remembering an outcome touches nothing else.
pub record_cancelled_cases {ℓ} :
    (P : Manager → Type ℓ) (m : Manager) (key : Bytes)
    → ((c : List (Bytes × Unit {0})) (o : List Bytes)
        → P (record m { cancelled = c; cancelled_order = o }))
    → P (record_cancelled_locked m key)
unfolding record_cancelled_locked
record_cancelled_cases P m key all =
    if_cases P (is_some (lookup key m.cancelled)) _ _
      (λ known. trim_cases P m (remove_first key m.cancelled_order ++ key ∷ []) m.cancelled all)
      (λ new. trim_cases P m (m.cancelled_order ++ key ∷ []) (insert key tt m.cancelled) all)

-- What the checks of `Begin` and `Chunk` let through.
pub check_begin-ok :
    (w : Surroundings) (m : Manager) (r : BeginRequest) (policy : ContentPolicy)
    → check_begin w m r ≡ ok policy
    → (lookup r.transfer_id m.active ≡ none)
      × (lookup r.transfer_id m.completed ≡ none)
      × (length m.active < m.limits.max_active)
      × (m.reserved_bytes + r.total_size_bytes ≤ m.limits.max_session_bytes)
      × (0 < r.total_size_bytes)
      × (r.total_size_bytes ≤ m.limits.max_file_bytes)
      × (length r.total_sha256 ≡ sha256_size)
unfolding check_begin
check_begin-ok w m r policy e = ground arith

-- A transfer that is replaced by one of its size.
pub same_size-Quota :
    (i : ℕ) (l : ManagerLimits) (m : Manager) (key : Bytes) (t t' : ActiveTransfer)
    → lookup key m.active ≡ some t
    → t'.total_size ≡ t.total_size
    → Quota i l m
    → Quota i l (record m { active = insert key t' m.active })
same_size-Quota i l m key t t' found same q = record {
  distinct_active = insert-Distinct key t' m.active q.distinct_active;
  distinct_completed = q.distinct_completed;
  exact = ground (arith, q.exact, total-insert declared key t' m.active);
  fixed = q.fixed;
  within = q.within;
  word = q.word;
  few = ground (arith, q.few, length-insert key t' m.active);
}

pub opens-Quota :
    (w : Surroundings) (i : ℕ) (l : ManagerLimits) (m : Manager) (r : BeginRequest)
    (policy : ContentPolicy) (prefix : Bytes)
    → check_begin w m r ≡ ok policy
    → Quota i l m
    → Quota i l (record m {
      active = insert r.transfer_id (started r policy prefix) m.active;
      reserved_bytes = (m.reserved_bytes + r.total_size_bytes) % 2 ^ 64;
    })
opens-Quota w i l m r policy prefix fine q =
    let (new, fresh, room, quota, positive, small, full) = check_begin-ok w m r policy fine in
    let key = r.transfer_id in
    let t = started r policy prefix in
    let no_wrap : (m.reserved_bytes + r.total_size_bytes) % 2 ^ 64
        ≡ m.reserved_bytes + r.total_size_bytes =
      ground (arith, quota, q.word, q.fixed) in
    record {
      distinct_active = insert-Distinct key t m.active q.distinct_active;
      distinct_completed = q.distinct_completed;
      exact = no_wrap ∙ ground (arith, q.exact, new, total-insert declared key t m.active);
      fixed = q.fixed;
      within = rw no_wrap (ground (arith, quota, q.fixed));
      word = q.word;
      few = ground (arith, room, q.fixed, new, length-insert key t m.active);
    }

pub publishes-Quota :
    (w : Surroundings) (i : ℕ) (l : ManagerLimits) (m : Manager) (key path : Bytes)
    (t : ActiveTransfer) (s : SessionStaging)
    → lookup key m.active ≡ some t
    → lookup key m.completed ≡ none
    → Quota i l m
    → Quota i l (record m {
      staging = s;
      active = delete key m.active;
      completed = insert key (published w t path) m.completed;
    })
publishes-Quota w i l m key path t s found new q =
    let c = published w t path in
    record {
      distinct_active = delete-Distinct key m.active q.distinct_active;
      distinct_completed = insert-Distinct key c m.completed q.distinct_completed;
      exact = ground (
        arith,
        q.exact,
        found,
        new,
        total-insert stored key c m.completed,
        total-delete declared key m.active q.distinct_active,
      );
      fixed = q.fixed;
      within = q.within;
      word = q.word;
      few = omega (arith, q.few, length-delete key m.active);
    }

pub releases-Quota :
    (i : ℕ) (l : ManagerLimits) (m : Manager) (key : Bytes) (t : ActiveTransfer)
    → lookup key m.active ≡ some t
    → Quota i l m
    → Quota i l (release_active_locked m key t)
unfolding release_active_locked
releases-Quota i l m key t found q =
    let gone : total declared (delete key m.active) + t.total_size ≡ total declared m.active =
      ground (arith, found, total-delete declared key m.active q.distinct_active) in
    record {
      distinct_active = delete-Distinct key m.active q.distinct_active;
      distinct_completed = q.distinct_completed;
      exact = ground (arith, q.exact, gone);
      fixed = q.fixed;
      within = ground (arith, q.within);
      word = q.word;
      few = omega (arith, q.few, length-delete key m.active);
    }
