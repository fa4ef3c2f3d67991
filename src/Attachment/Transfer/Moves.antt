-- ===== src/Attachment/Transfer/Moves.antt =====
-- internal/attachment/transfer.go: each method is a sequence of moves.
use mathlib.Core.Path.{subst}
use vibe_bridge.Base.{
  ◌≡◌, refl, true, List, [], ◌∷◌, Option, none, some, Bytes, Result, ok, err, if_cases, arith,
  is_some,
}
use vibe_bridge.Base.Map.{lookup, delete, lookup-delete, Distinct}
use vibe_bridge.Attachment.Upload.{
  Error, CompletedAttachment, ActiveTransfer, Manager, Directory, Surroundings,
}
use vibe_bridge.Attachment.Staging.{release_active_locked, cleanup_fails}
use vibe_bridge.Attachment.Receive.{check_chunk, chunk}
use vibe_bridge.Attachment.Finish.{check_id, complete, check_batch}
use vibe_bridge.Attachment.Retire.{
  drop_active, drop_completed, discarded, discard_completed, discard_one, discard_all,
  discard_checked, discard, cancelled_one, cancel_checked, cancel, close_active, close,
}
use vibe_bridge.Attachment.Transfer.{
  shares, rebooks, Op, begins, chunks, completes, discards, cancels, closes, step, releases,
  removes, remembers, starts_closing, finishes, Reach, here, next,
}
use vibe_bridge.Attachment.Transfer.Receptions.{
  move, After, join, begin-Reach, chunk_checked-Reach, complete_checked-Reach,
}

drop_active-Reach :
    (w : Surroundings) (m m' : Manager) (d : Directory) (key : Bytes) (t : Option ActiveTransfer)
    → lookup key m.active ≡ t
    → drop_active m d key t ≡ some m'
    → Reach w m m'
unfolding drop_active
drop_active-Reach w m m' d key none found = λ e. subst (Reach w m) (ground arith) here
drop_active-Reach w m m' d key (some t) found =
    if_cases (λ q. q ≡ some m' → Reach w m m') (cleanup_fails d t) _ _
      (λ failed e. absurd (ground arith))
      (λ gone e. subst (Reach w m) (ground arith) (move (releases m key t found)))

drop_completed-Reach :
    (w : Surroundings) (m m' : Manager) (d : Directory) (key : Bytes)
    (c : Option CompletedAttachment)
    → lookup key m.completed ≡ c
    → drop_completed m d key c ≡ some m'
    → Reach w m m'
unfolding drop_completed
drop_completed-Reach w m m' d key none found = λ e. subst (Reach w m) (ground arith) here
drop_completed-Reach w m m' d key (some c) found =
    if_cases (λ q. q ≡ some m' → Reach w m m') (d.remove_fails c.relative_path) _ _
      (λ failed e. absurd (ground arith))
      (λ gone e. subst (Reach w m) (ground arith) (move (removes m key c found)))

discarded-Reach :
    (w : Surroundings) (m m' : Manager) (key : Bytes) (o : Option Manager)
    → ((m'' : Manager) → o ≡ some m'' → Reach w m m'')
    → Reach w m m'
    → Reach w m (discarded m' key o).0
unfolding discarded
discarded-Reach w m m' key none dropped so_far = so_far
discarded-Reach w m m' key (some m'') dropped so_far = next (dropped m'' refl) (remembers m'' key)

discard_completed-Reach :
    (w : Surroundings) (m : Manager) (d : Directory) (key : Bytes) (o : Option Manager)
    → ((m' : Manager) → o ≡ some m' → Reach w m m')
    → Reach w m (discard_completed m d key o).0
unfolding discard_completed
discard_completed-Reach w m d key none dropped = here
discard_completed-Reach w m d key (some m') dropped =
    discarded-Reach w m m' key (drop_completed m' d key (lookup key m'.completed))
      (λ m'' e.
        join (dropped m' refl)
          (drop_completed-Reach w m' m'' d key (lookup key m'.completed) refl e))
      (dropped m' refl)

discard_one-Reach :
    (w : Surroundings) (m : Manager) (d : Directory) (key : Bytes)
    → Reach w m (discard_one m d key).0
unfolding discard_one
discard_one-Reach w m d key =
    discard_completed-Reach w m d key (drop_active m d key (lookup key m.active))
      (λ m' e. drop_active-Reach w m m' d key (lookup key m.active) refl e)

discard_all-Reach :
    (w : Surroundings) (m : Manager) (d : Directory) (ids : List Bytes)
    → Reach w m (discard_all m d ids).0
unfolding discard_all
discard_all-Reach w m d [] = here
discard_all-Reach w m d (id ∷ ids) =
    let one = discard_one-Reach w m d id in
    if_cases (After w m) (discard_one m d id).1 _ _ (λ failed. one)
      (λ dropped. join one (discard_all-Reach w (discard_one m d id).0 d ids))

discard_checked-Reach :
    (w : Surroundings) (m : Manager) (d : Directory) (ids : List Bytes)
    (q : Result Error (Unit {0}))
    → Reach w m (discard_checked m d ids q).0
unfolding discard_checked
discard_checked-Reach w m d ids (err e) = here
discard_checked-Reach w m d ids (ok u) = discard_all-Reach w m d ids

cancelled_one-Reach :
    (w : Surroundings) (m : Manager) (key : Bytes) (o : Option Manager)
    → ((m' : Manager) → o ≡ some m' → Reach w m m')
    → Reach w m (cancelled_one m key o).0
unfolding cancelled_one
cancelled_one-Reach w m key none dropped = here
cancelled_one-Reach w m key (some m') dropped = next (dropped m' refl) (remembers m' key)

cancel_checked-Reach :
    (w : Surroundings) (m : Manager) (d : Directory) (id : Bytes) (q : Result Error (Unit {0}))
    → Reach w m (cancel_checked m d id q).0
unfolding cancel_checked
cancel_checked-Reach w m d id (err e) = here
cancel_checked-Reach w m d id (ok u) =
    if_cases (After w m) (is_some (lookup id m.completed)) _ _ (λ known. here)
      (λ new.
        cancelled_one-Reach w m id (drop_active m d id (lookup id m.active))
          (λ m' e. drop_active-Reach w m m' d id (lookup id m.active) refl e))

-- The transfers of a snapshot still stand in a map.
abbrev Present : List (Bytes × ActiveTransfer) → List (Bytes × ActiveTransfer) → Type 0
Present [] m = Unit {0}
Present ((key, t) ∷ transfers) m = (lookup key m ≡ some t) × Present transfers m

Present-delete :
    (key : Bytes) (transfers m : List (Bytes × ActiveTransfer))
    → lookup key transfers ≡ none
    → Present transfers m
    → Present transfers (delete key m)
Present-delete key [] m new p = tt
Present-delete key ((k, t) ∷ transfers) m new p =
    (ground (arith, lookup-delete key k m), Present-delete key transfers m (ground arith) p.1)

Present-insert :
    (key : Bytes) (t : ActiveTransfer) (transfers m : List (Bytes × ActiveTransfer))
    → lookup key transfers ≡ none
    → Present transfers m
    → Present transfers ((key, t) ∷ m)
Present-insert key t [] m new p = tt
Present-insert key t ((k, u) ∷ transfers) m new p =
    (ground arith, Present-insert key t transfers m (ground arith) p.1)

Present-self : (m : List (Bytes × ActiveTransfer)) → Distinct m → Present m m
Present-self [] d = tt
Present-self ((key, t) ∷ m) d = (ground arith, Present-insert key t m m d.0 (Present-self m d.1))

close_active-Reach :
    (w : Surroundings) (d : Directory) (transfers : List (Bytes × ActiveTransfer)) (m : Manager)
    → Distinct transfers
    → Present transfers m.active
    → Reach w m (close_active m d transfers).0
unfolding close_active release_active_locked
close_active-Reach w d [] m distinct present = here
close_active-Reach w d ((key, t) ∷ transfers) m distinct present =
    if_cases (After w m) (cleanup_fails d t) _ _
      (λ failed. close_active-Reach w d transfers m distinct.1 present.1)
      (λ gone. join (move (releases m key t present.0)) (
        close_active-Reach w d transfers (release_active_locked m key t) distinct.1
          (Present-delete key transfers m.active distinct.0 present.1)))

close-Reach :
    (w : Surroundings) (m : Manager) (d : Directory) → Distinct m.active → Reach w m (close m d).0
unfolding close
close-Reach w m d distinct =
    let m' : Manager = record m { closing = true } in
    let released = close_active-Reach w d m.active m' distinct (Present-self m.active distinct) in
    if_cases (After w m) m.closed _ _ (λ closed_already. here)
      (λ open_still.
        if_cases (After w m) (close_active m' d m.active).1 _ _
          (λ failed. join (move (starts_closing m)) released)
          (λ cleaned.
            next (join (move (starts_closing m)) released)
              (finishes (close_active m' d m.active).0 d)))

-- Every call is a sequence of moves.
pub step-Reach :
    (w : Surroundings) (m : Manager) (op : Op) → Distinct m.active → Reach w m (step w m op)
unfolding step chunk complete discard cancel
step-Reach w m (begins d r) distinct = begin-Reach w m d r
step-Reach w m (chunks d r) distinct = chunk_checked-Reach w m d r (check_chunk w m r) refl
step-Reach w m (completes d id) distinct = complete_checked-Reach w m d id (check_id m id)
step-Reach w m (discards d ids) distinct = discard_checked-Reach w m d ids (check_batch m ids)
step-Reach w m (cancels d id) distinct = cancel_checked-Reach w m d id (check_id m id)
step-Reach w m (closes d) distinct = close-Reach w m d distinct
step-Reach w m (shares t) distinct = move (rebooks m t)
