-- ===== src/Attachment/Transfer/Declared.antt =====
-- internal/attachment/transfer.go: what Complete answers, and what it answers again.
use mathlib.Core.Path.{subst}
use vibe_bridge.Base.{
  ◌≡◌, ◌≢◌, refl, ap, sym, ◌∙◌, ◌++◌, List, Option, none, some, Bytes, Result, ok, err, arith,
  Result-cases, Option-cases, inl, inr, if_cases,
}
use vibe_bridge.Base.Map.{lookup, lookup-insert}
use vibe_bridge.Attachment.Upload.{
  Error, CompletedAttachment, ActiveTransfer, Manager, Directory, Surroundings,
}
use vibe_bridge.Attachment.Staging.{fail_transfer_locked}
use vibe_bridge.Attachment.Finish.{
  verify_transfer, published, publish, rejecting, complete_verified, complete_active,
  complete_known, check_id, complete_checked, complete,
}
use vibe_bridge.Attachment.Transfer.{Op, run}
use vibe_bridge.Attachment.Transfer.Standing.{Standing}
use vibe_bridge.Attachment.Transfer.Sparing.{Spares, run-Stands}
use vibe_bridge.Attachment.Transfer.Honesty.{verify_transfer-ok}

-- The transfer that a completion came from, and what was found of it.
abbrev pub CameFrom : Surroundings → ActiveTransfer → CompletedAttachment → Type 0
CameFrom w t c =
    (t.received_bytes ≡ t.total_size)
    × (w.sha256 t.hashed ≡ t.expected_sha256)
    × (c.sha256 ≡ t.expected_sha256)
    × (c.size_bytes ≡ t.total_size)
    × (c.transfer_id ≡ t.transfer_id)
    × (c.display_name ≡ t.display_name)

abbrev Settled :
    Surroundings
    → Manager
    → Bytes
    → ActiveTransfer
    → CompletedAttachment
    → Manager × Result Error CompletedAttachment
    → Type 0
Settled w m id t c q =
    q.1 ≡ ok c
    → CameFrom w t c
      × (lookup id q.0.completed ≡ some c)
      × (q.0.closed ≡ m.closed)
      × (q.0.closing ≡ m.closing)

publish-Settled :
    (w : Surroundings) (m : Manager) (d : Directory) (id : Bytes) (t : ActiveTransfer)
    (path : Option Bytes) (c : CompletedAttachment)
    → verify_transfer w t ≡ ok tt
    → Settled w m id t c (publish w m d id t path)
unfolding publish
publish-Settled w m d id t none c verified = λ e. absurd (ground arith)
publish-Settled w m d id t (some path) c verified =
    let (full, checksum, matching) = verify_transfer-ok w t verified in
    if_cases (Settled w m id t c) d.rename_fails _ _ (λ failed e. absurd (ground arith))
      (λ renamed e. ground (arith, lookup-insert id id (published w t path) m.completed))

verified-Settled :
    (w : Surroundings) (m : Manager) (d : Directory) (id : Bytes) (t : ActiveTransfer)
    (c : CompletedAttachment) (r : Result Error (Unit {0}))
    → verify_transfer w t ≡ r
    → Settled w m id t c (complete_verified w m d id t r)
unfolding complete_verified fail_transfer_locked
verified-Settled w m d id t c (err cause) verified =
    if_cases (λ q. Settled w m id t c (rejecting q)) (d.remove_fails t.partial_name) _ _
      (λ kept e. absurd (ground arith)) (λ gone e. absurd (ground arith))
verified-Settled w m d id t c (ok u) verified =
    publish-Settled w m d id t (d.relative (t.storage_prefix ++ t.policy.extension)) c verified

known-Settled :
    (w : Surroundings) (m : Manager) (d : Directory) (id : Bytes) (t : ActiveTransfer)
    (c : CompletedAttachment)
    → lookup id m.active ≡ some t
    → Settled w m id t c (complete_known w m d id none)
unfolding complete_known complete_active complete_verified
known-Settled w m d id t c found =
    subst (λ o. Settled w m id t c (complete_active w m d id o)) (sym found)
      (verified-Settled w m d id t c (verify_transfer w t) refl)

-- A completed transfer is answered again, whatever the directory answers.
repeat-complete :
    (w : Surroundings) (m : Manager) (d : Directory) (id : Bytes) (c : CompletedAttachment)
    → check_id m id ≡ ok tt
    → lookup id m.completed ≡ some c
    → complete w m d id ≡ (m, ok c)
unfolding complete complete_checked complete_known
repeat-complete w m d id c fine known =
    ap (complete_checked w m d id) fine ∙ ap (complete_known w m d id) known

check_id-same :
    (m m' : Manager) (id : Bytes)
    → m'.closed ≡ m.closed
    → m'.closing ≡ m.closing
    → check_id m id ≡ ok tt
    → check_id m' id ≡ ok tt
unfolding check_id
check_id-same m m' id closed closing fine = ground arith

checked :
    (w : Surroundings) (m : Manager) (d : Directory) (id : Bytes) (c : CompletedAttachment)
    → (complete w m d id).1 ≡ ok c
    → check_id m id ≡ ok tt
unfolding complete complete_checked
checked w m d id c done = elim (Result-cases (check_id m id)) [
  | inl (u, h) ↦ h
  | inr (e, h) ↦ absurd (ground arith)
]

complete-new :
    (w : Surroundings) (m : Manager) (d : Directory) (id : Bytes)
    → check_id m id ≡ ok tt
    → lookup id m.completed ≡ none
    → complete w m d id ≡ complete_known w m d id none
unfolding complete complete_checked
complete-new w m d id fine new =
    ap (complete_checked w m d id) fine ∙ ap (complete_known w m d id) new

missing_refused :
    (w : Surroundings) (m : Manager) (d : Directory) (id : Bytes) (c : CompletedAttachment)
    → lookup id m.active ≡ none
    → (complete_known w m d id none).1 ≢ ok c
unfolding complete_known complete_active
missing_refused w m d id c missing done = ground arith

-- A completion that is new was of an active transfer all of whose bytes had been received, with the
-- checksum and the size declared for it, and the record says so under its ID and name. As long as
-- the manager is not closed and the ID is not discarded, and whatever else is called and the
-- directory answers, the record is kept, and Complete of the ID answers it again and changes
-- nothing.
pub complete-complete :
    (w : Surroundings) (m : Manager) (d d' : Directory) (id : Bytes) (c : CompletedAttachment)
    (ops : List Op)
    → lookup id m.completed ≡ none
    → (complete w m d id).1 ≡ ok c
    → Spares id ops
    → let m' = run w (complete w m d id).0 ops in
      ((t : ActiveTransfer) × (lookup id m.active ≡ some t) × CameFrom w t c)
      × (lookup id m'.completed ≡ some c)
      × (complete w m' d' id ≡ (m', ok c))
complete-complete w m d d' id c ops new done spares =
    let fine = checked w m d id c done in
    let same = complete-new w m d id fine new in
    let done' : (complete_known w m d id none).1 ≡ ok c = subst (λ q. q.1 ≡ ok c) same done in
    elim (Option-cases (lookup id m.active)) [
      | inl missing ↦ absurd (missing_refused w m d id c missing done')
      | inr (t, found) ↦
          let (from, known, closed, closing) = known-Settled w m d id t c found done' in
          let first : Standing id c m.closed m.closing (complete w m d id).0 =
            subst (λ q. Standing id c m.closed m.closing q.0) (sym same)
              (record { known = known; same_closed = closed; same_closing = closing }) in
          let last = run-Stands id c m.closed m.closing w (complete w m d id).0 ops spares first in
          let m' = run w (complete w m d id).0 ops in
          (
            (t, found, from),
            last.known,
            repeat-complete w m' d' id c
                (check_id-same m m' id last.same_closed last.same_closing fine) last.known,
          )
    ]
