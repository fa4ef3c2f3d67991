-- ===== src/Attachment/Transfer/Sparing.antt =====
-- internal/attachment/transfer.go: a completed attachment under Discard, Cancel and the runs of all calls.
use vibe_bridge.Base.{
  ◌≢◌, refl, Bool, List, [], ◌∷◌, Option, none, some, Bytes, Result, ok, err, arith, if_cases,
  is_some,
}
use vibe_bridge.Base.Map.{lookup, lookup-delete}
use vibe_bridge.Attachment.Upload.{
  Error, CompletedAttachment, ActiveTransfer, Manager, Directory, Surroundings,
}
use vibe_bridge.Attachment.Staging.{
  cleanup_fails, release_active_locked, release_completed_locked, record_cancelled_locked,
}
use vibe_bridge.Attachment.Receive.{check_begin, begin, check_chunk, chunk}
use vibe_bridge.Attachment.Finish.{check_id, check_batch, complete}
use vibe_bridge.Attachment.Retire.{
  drop_active, drop_completed, discarded, discard_completed, discard_one, discard_all,
  discard_checked, discard, cancelled_one, cancel_checked, cancel,
}
use vibe_bridge.Attachment.Transfer.{
  Op, begins, chunks, completes, discards, cancels, closes, shares, step, run,
}
use vibe_bridge.Attachment.Transfer.Limits.{record_cancelled_cases}
use vibe_bridge.Attachment.Transfer.Standing.{
  Standing, same-Stands, begin_checked-Stands, chunk_checked-Stands, complete_checked-Stands,
}

-- The ID is not in the list.
abbrev Others : Bytes → List Bytes → Type 0
Others id [] = Unit {0}
Others id (key ∷ keys) = (key ≢ id) × Others id keys

-- No call closes the manager or discards the ID.
abbrev pub Spares : Bytes → List Op → Type 0
Spares id [] = Unit {0}
Spares id (begins d r ∷ ops) = Spares id ops
Spares id (chunks d r ∷ ops) = Spares id ops
Spares id (completes d key ∷ ops) = Spares id ops
Spares id (discards d keys ∷ ops) = Others id keys × Spares id ops
Spares id (cancels d key ∷ ops) = Spares id ops
Spares id (closes d ∷ ops) = ⊥
Spares id (shares t ∷ ops) = Spares id ops

module _ (id : Bytes) (c : CompletedAttachment) (closed closing : Bool) where
  abbrev Here : Manager → Type 0
  Here m = Standing id c closed closing m

  record_cancelled_locked-Stands :
      (m : Manager) (key : Bytes) → Here m → Here (record_cancelled_locked m key)
  record_cancelled_locked-Stands m key s =
      record_cancelled_cases Here m key
        (λ x o. same-Stands id c closed closing m _ refl refl refl s)

  abbrev Maybe : Option Manager → Type 0
  Maybe none = Unit {0}
  Maybe (some m) = Here m

  drop_active-Stands :
      (m : Manager) (d : Directory) (key : Bytes) (t : Option ActiveTransfer)
      → Here m
      → Maybe (drop_active m d key t)
  unfolding drop_active release_active_locked
  drop_active-Stands m d key none s = s
  drop_active-Stands m d key (some t) s =
      if_cases Maybe (cleanup_fails d t) _ _ (λ failed. tt)
        (λ gone. same-Stands id c closed closing m _ refl refl refl s)

  drop_completed-Stands :
      (m : Manager) (d : Directory) (key : Bytes) (o : Option CompletedAttachment)
      → key ≢ id
      → Here m
      → Maybe (drop_completed m d key o)
  unfolding drop_completed release_completed_locked
  drop_completed-Stands m d key none other s = s
  drop_completed-Stands m d key (some x) other s =
      if_cases Maybe (d.remove_fails x.relative_path) _ _ (λ failed. tt)
        (λ gone. record {
          known = ground (arith, s.known, other, lookup-delete key id m.completed);
          same_closed = s.same_closed;
          same_closing = s.same_closing;
        })

  discarded-Stands :
      (m : Manager) (key : Bytes) (o : Option Manager)
      → Here m
      → Maybe o
      → Here (discarded m key o).0
  unfolding discarded
  discarded-Stands m key none s t = s
  discarded-Stands m key (some m') s t = record_cancelled_locked-Stands m' key t

  discard_completed-Stands :
      (m : Manager) (d : Directory) (key : Bytes) (o : Option Manager)
      → key ≢ id
      → Here m
      → Maybe o
      → Here (discard_completed m d key o).0
  unfolding discard_completed
  discard_completed-Stands m d key none other s t = s
  discard_completed-Stands m d key (some m') other s t =
      let o = lookup key m'.completed in
      discarded-Stands m' key (drop_completed m' d key o) t
        (drop_completed-Stands m' d key o other t)

  discard_one-Stands :
      (m : Manager) (d : Directory) (key : Bytes) → key ≢ id → Here m → Here (discard_one m d key).0
  unfolding discard_one
  discard_one-Stands m d key other s =
      let t = lookup key m.active in
      discard_completed-Stands m d key (drop_active m d key t) other s
        (drop_active-Stands m d key t s)

  discard_all-Stands :
      (m : Manager) (d : Directory) (keys : List Bytes)
      → Others id keys
      → Here m
      → Here (discard_all m d keys).0
  unfolding discard_all
  discard_all-Stands m d [] others s = s
  discard_all-Stands m d (key ∷ keys) others s =
      let first = discard_one-Stands m d key others.0 s in
      if_cases (λ (q : Manager × Result Error (Unit {0})). Here q.0) (discard_one m d key).1 _ _
        (λ failed. first) (λ gone. discard_all-Stands (discard_one m d key).0 d keys others.1 first)

  discard_checked-Stands :
      (m : Manager) (d : Directory) (keys : List Bytes) (q : Result Error (Unit {0}))
      → Others id keys
      → Here m
      → Here (discard_checked m d keys q).0
  unfolding discard_checked
  discard_checked-Stands m d keys (err e) others s = s
  discard_checked-Stands m d keys (ok u) others s = discard_all-Stands m d keys others s

  cancelled_one-Stands :
      (m : Manager) (key : Bytes) (o : Option Manager)
      → Here m
      → Maybe o
      → Here (cancelled_one m key o).0
  unfolding cancelled_one
  cancelled_one-Stands m key none s t = s
  cancelled_one-Stands m key (some m') s t = record_cancelled_locked-Stands m' key t

  cancel_checked-Stands :
      (m : Manager) (d : Directory) (key : Bytes) (q : Result Error (Unit {0}))
      → Here m
      → Here (cancel_checked m d key q).0
  unfolding cancel_checked
  cancel_checked-Stands m d key (err e) s = s
  cancel_checked-Stands m d key (ok u) s =
      if_cases (λ (q : Manager × Result Error (Unit {0})). Here q.0)
        (is_some (lookup key m.completed)) _ _ (λ known. s)
        (λ new.
          let t = lookup key m.active in
          cancelled_one-Stands m key (drop_active m d key t) s (drop_active-Stands m d key t s))

  pub run-Stands :
      (w : Surroundings) (m : Manager) (ops : List Op) → Spares id ops → Here m → Here (run w m ops)
  unfolding run step begin chunk complete discard cancel
  run-Stands w m [] spares s = s
  run-Stands w m (begins d r ∷ ops) spares s =
      run-Stands w (begin w m d r).0 ops spares
        (begin_checked-Stands id c closed closing m d r (check_begin w m r) s)
  run-Stands w m (chunks d r ∷ ops) spares s =
      run-Stands w (chunk w m d r).0 ops spares
        (chunk_checked-Stands id c closed closing m d r (check_chunk w m r) s)
  run-Stands w m (completes d key ∷ ops) spares s =
      run-Stands w (complete w m d key).0 ops spares
        (complete_checked-Stands id c closed closing w m d key (check_id m key) s)
  run-Stands w m (discards d keys ∷ ops) spares s =
      run-Stands w (discard m d keys).0 ops spares.1
        (discard_checked-Stands m d keys (check_batch m keys) spares.0 s)
  run-Stands w m (cancels d key ∷ ops) spares s =
      run-Stands w (cancel m d key).0 ops spares (cancel_checked-Stands m d key (check_id m key) s)
  run-Stands w m (closes d ∷ ops) spares s = absurd spares
  run-Stands w m (shares t ∷ ops) spares s =
      run-Stands w (record m { aggregate = t }) ops spares
        (same-Stands id c closed closing m _ refl refl refl s)
