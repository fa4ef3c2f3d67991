-- ===== src/Attachment/Transfer/Quota.antt =====
-- internal/attachment/transfer.go: the session's quota is counted exactly and kept.
use mathlib.Core.Path.{subst}
use vibe_bridge.Base.{
  ℕ, ◌+◌, ◌^◌, ◌≡◌, ◌≤◌, ◌<◌, refl, sym, true, false, List, [], ◌∷◌, Option, some, Bytes, ok, arith,
  Bool, length, Result-cases, inl, inr,
}
use vibe_bridge.Base.Map.{lookup, delete, total, total-delete, delete-Distinct}
use vibe_bridge.Attachment.Aggregate.{AggregateTracker, reserve}
use vibe_bridge.Attachment.Upload.{
  CompletedAttachment, ManagerLimits, SessionStaging, Manager, Surroundings, Directory,
}
use vibe_bridge.Attachment.Staging.{claim_transfer_manager, release_completed_locked}
use vibe_bridge.Attachment.Receive.{advance}
use vibe_bridge.Attachment.Retire.{
  finish_close, empty_manager, new_transfer_manager, new_manager, new_manager_with_aggregate, adopt,
  default_limits,
}
use vibe_bridge.Attachment.Transfer.{
  Op, step, run, Move, rebooks, opens, advances, attempts, publishes, releases, removes, remembers,
  starts_closing, finishes, Reach, here, next,
}
use vibe_bridge.Attachment.Transfer.Receptions.{check_chunk-found}
use vibe_bridge.Attachment.Transfer.Moves.{step-Reach}
use vibe_bridge.Attachment.Transfer.Limits.{
  stored, held, Quota, record_cancelled_cases, same_size-Quota, opens-Quota, publishes-Quota,
  releases-Quota,
}

removes-Quota :
    (i : ℕ) (l : ManagerLimits) (m : Manager) (key : Bytes) (c : CompletedAttachment)
    → lookup key m.completed ≡ some c
    → Quota i l m
    → Quota i l
        (release_completed_locked (record m { completed = delete key m.completed }) c.size_bytes)
unfolding release_completed_locked
removes-Quota i l m key c found q =
    let gone : total stored (delete key m.completed) + c.size_bytes ≡ total stored m.completed =
      ground (arith, found, total-delete stored key m.completed q.distinct_completed) in
    record {
      distinct_active = q.distinct_active;
      distinct_completed = delete-Distinct key m.completed q.distinct_completed;
      exact = ground (arith, q.exact, gone);
      fixed = q.fixed;
      within = ground (arith, q.within);
      word = q.word;
      few = q.few;
    }

-- The rest of the state does not matter.
other-Quota :
    (i : ℕ) (l : ManagerLimits) (m : Manager) (s : SessionStaging) (a : Option AggregateTracker)
    (c : List (Bytes × Unit {0})) (o : List Bytes) (closing closed : Bool)
    → Quota i l m
    → Quota i l (record m {
      staging = s;
      aggregate = a;
      cancelled = c;
      cancelled_order = o;
      closing = closing;
      closed = closed;
    })
other-Quota i l m s a c o closing closed q = record {
  distinct_active = q.distinct_active;
  distinct_completed = q.distinct_completed;
  exact = q.exact;
  fixed = q.fixed;
  within = q.within;
  word = q.word;
  few = q.few;
}

pub Move-Quota :
    (w : Surroundings) (i : ℕ) (l : ManagerLimits) {m m' : Manager}
    → Move w m m'
    → Quota i l m
    → Quota i l m'
unfolding finish_close advance
Move-Quota w i l (rebooks m t) q = other-Quota i l m _ t _ _ _ _ q
Move-Quota w i l (opens m r policy prefix fine) q = opens-Quota w i l m r policy prefix fine q
Move-Quota w i l (advances m r t fine) q =
    same_size-Quota i l m r.transfer_id t (advance t r.content) (check_chunk-found w m r t fine)
      refl q
Move-Quota w i l (attempts m key t found) q =
    same_size-Quota i l m key t (record t { publication_attempted = true }) found refl q
Move-Quota w i l (publishes m key path t found new verified) q =
    publishes-Quota w i l m key path t _ found new q
Move-Quota w i l (releases m key t found) q = releases-Quota i l m key t found q
Move-Quota w i l (removes m key c found) q = removes-Quota i l m key c found q
Move-Quota w i l (remembers m key) q =
    record_cancelled_cases (Quota i l) m key (λ c o. other-Quota i l m _ _ c o _ _ q)
Move-Quota w i l (starts_closing m) q = other-Quota i l m _ _ _ _ true _ q
Move-Quota w i l (finishes m d) q = other-Quota i l m _ _ _ _ false true q

pub Reach-Quota :
    (w : Surroundings) (i : ℕ) (l : ManagerLimits) {m m' : Manager}
    → Reach w m m'
    → Quota i l m
    → Quota i l m'
Reach-Quota w i l here q = q
Reach-Quota w i l (next r s) q = Move-Quota w i l s (Reach-Quota w i l r q)

run-Quota :
    (w : Surroundings) (i : ℕ) (l : ManagerLimits) (m : Manager) (ops : List Op)
    → Quota i l m
    → Quota i l (run w m ops)
unfolding run
run-Quota w i l m [] q = q
run-Quota w i l m (op ∷ ops) q =
    run-Quota w i l (step w m op) ops (Reach-Quota w i l (step-Reach w m op q.distinct_active) q)

pub new_transfer_manager-empty :
    (s s' : SessionStaging) (l : ManagerLimits) (opened : Bool) (m : Manager)
    → new_transfer_manager s l opened ≡ (s', ok m)
    → m ≡ empty_manager (record s { transfer_manager_open = true }) l
unfolding new_transfer_manager claim_transfer_manager
new_transfer_manager-empty s s' l opened m made = ground arith

pub new_transfer_manager-Quota :
    (s s' : SessionStaging) (l : ManagerLimits) (opened : Bool) (m : Manager)
    → l.max_session_bytes < 2 ^ 64
    → new_transfer_manager s l opened ≡ (s', ok m)
    → s.completed_bytes_reserved ≤ l.max_session_bytes
    → Quota s.completed_bytes_reserved l m
new_transfer_manager-Quota s s' l opened m word made room =
    subst (Quota s.completed_bytes_reserved l)
      (sym (new_transfer_manager-empty s s' l opened m made))
      (record {
        distinct_active = tt;
        distinct_completed = tt;
        exact = omega arith;
        fixed = refl;
        within = room;
        word = word;
        few = omega arith;
      })

-- A manager that shares an aggregate starts as one of its own, but for the aggregate.
new_manager_with_aggregate-Quota :
    (s : SessionStaging) (a t : Option AggregateTracker) (d : Directory) (opened : Bool)
    (m : Manager)
    → new_manager_with_aggregate s a d opened ≡ (t, ok m)
    → s.completed_bytes_reserved ≤ default_limits.max_session_bytes
    → Quota s.completed_bytes_reserved default_limits m
unfolding new_manager_with_aggregate adopt new_manager
new_manager_with_aggregate-Quota s a t d opened m made room =
    elim (Result-cases (new_transfer_manager s default_limits opened).1) [
      | inr (e, h) ↦ absurd (ground arith)
      | inl (m₀, h) ↦
          let q =
            new_transfer_manager-Quota s (new_transfer_manager s default_limits opened).0
              default_limits opened m₀ (omega arith) (ground (arith, h)) room in
          elim (Result-cases (reserve a m₀.staging.completed_bytes_reserved).1) [
            | inr (e, g) ↦ absurd (ground arith)
            | inl (u, g) ↦ subst (Quota s.completed_bytes_reserved default_limits) (ground arith) (
                other-Quota s.completed_bytes_reserved default_limits m₀ m₀.staging t m₀.cancelled
                  m₀.cancelled_order m₀.closing m₀.closed q)
          ]
    ]

-- Over any sequence of calls on a manager that shares an aggregate, or has none, whatever the
-- directory answers and whatever other sessions make of the aggregate in between, the reserved bytes
-- are exactly those that an earlier manager left completed and those of the active and completed
-- transfers, whether the aggregate grants a size or refuses it; they never exceed the session's
-- limit, and no more transfers are active than may be. The staging starts within the limit.
pub run_within_quota :
    (w : Surroundings) (s : SessionStaging) (a t : Option AggregateTracker) (d : Directory)
    (opened : Bool) (m : Manager) (ops : List Op)
    → new_manager_with_aggregate s a d opened ≡ (t, ok m)
    → s.completed_bytes_reserved ≤ default_limits.max_session_bytes
    → let m' = run w m ops in
      (m'.reserved_bytes ≡ s.completed_bytes_reserved + held m')
      × (m'.reserved_bytes ≤ default_limits.max_session_bytes)
      × (length m'.active ≤ default_limits.max_active)
run_within_quota w s a t d opened m ops made room =
    let start = new_manager_with_aggregate-Quota s a t d opened m made room in
    let q = run-Quota w s.completed_bytes_reserved default_limits m ops start in
    (q.exact, q.within, q.few)
