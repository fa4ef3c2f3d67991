-- ===== src/Pairing/Manager/Refusals.antt =====
-- internal/pairing/manager.go: when an invitation can be used, and by whom.
use vibe_bridge.Base.{
  ℕ, ◌+◌, ◌≤◌, ◌<◌, ◌≡◌, ◌≢◌, refl, Bool, false, List, [], ◌∷◌, Option, none, some, Bytes, arith,
  Result, ok, err, ◌⊎◌, length,
}
use vibe_bridge.Base.Int.{ℤ}
use vibe_bridge.Pairing.Invitation.{
  Surroundings, PairingInvitation, invitation_id_bytes, bootstrap_secret_bytes,
}
use vibe_bridge.Pairing.Manager.{
  ActiveInvitation, Manager, Error, Status, invitation_expired, invitation_rejected,
  invitation_in_use, clear_active, install, create, with_active, with_reservation, active_status,
  reserve, begin_active, begin, approve, reject, release, authenticate, consume, new_manager, draft,
}
use vibe_bridge.Pairing.Manager.Invariant.{Inv, with_active_cases, create_cases}
use vibe_bridge.Pairing.Manager.Spending.{Op, step, run, step-Inv}

run-Inv : (m : Manager) (ops : List Op) → Inv m → Inv (run m ops)
unfolding run
run-Inv m [] v = v
run-Inv m (op ∷ ops) v = run-Inv (step m op) ops (step-Inv m op v)

-- Over any sequence of calls on a new manager, the reservations that it owns are the one of the
-- active invitation, if there is one, and its number is below the next to be issued.
pub run-new_manager-Inv :
    (has_agent : Bool) (ttl : ℤ) (m : Manager) (ops : List Op)
    → new_manager has_agent ttl ≡ ok m
    → Inv (run m ops)
unfolding new_manager
run-new_manager-Inv has_agent ttl m ops e = run-Inv m ops (ground arith)

with_active_late :
    {A : Type 0} (m : Manager) (a : ActiveInvitation) (now : ℕ)
    (f : ActiveInvitation → Manager × Result Error A)
    → m.active ≡ some a
    → a.invitation.expires_at ≤ now
    → with_active m now f ≡ (clear_active m, err invitation_expired)
with_active_late m a now f e late =
    with_active_cases (λ q. q ≡ (clear_active m, err invitation_expired)) m now f
      (λ absent. absurd (ground arith)) refl (λ b h current. absurd (ground arith))

-- Once the invitation has expired, no call uses it: each is refused as expired, and the invitation
-- and its reservation are gone.
pub expired_refused :
    (m : Manager) (a : ActiveInvitation) (id secret : Bytes) (use_secret : Bytes → Bool)
    (r : Option ℕ) (fails : Bool) (now : ℕ)
    → m.active ≡ some a
    → a.invitation.expires_at ≤ now
    → (active_status m now ≡ (clear_active m, err invitation_expired))
      × (begin m id (some use_secret) now ≡ (clear_active m, err invitation_expired))
      × (approve m r (some fails) now ≡ (clear_active m, err invitation_expired))
      × (reject m r now ≡ (clear_active m, err invitation_expired))
      × (release m r now ≡ (clear_active m, err invitation_expired))
      × (authenticate m id secret now ≡ (clear_active m, err invitation_expired))
      × (consume m id secret now ≡ (clear_active m, err invitation_expired))
      × ((clear_active m).active ≡ none)
unfolding active_status begin approve reject release authenticate consume with_reservation
    clear_active
expired_refused m a id secret use_secret r fails now e late = (
  with_active_late m a now _ e late,
  with_active_late m a now _ e late,
  with_active_late m a now _ e late,
  with_active_late m a now _ e late,
  with_active_late m a now _ e late,
  with_active_late m a now _ e late,
  with_active_late m a now _ e late,
  ground arith,
)

-- While a flow holds the invitation and it has not expired, another flow with the same id is refused
-- as in use and changes nothing; once the first is released, the other begins with a reservation of
-- its own, provided that its handshake succeeds.
pub begin_exclusive :
    (m : Manager) (a : ActiveInvitation) (id : Bytes) (use_secret use_secret' : Bytes → Bool)
    (r : ℕ) (status : Status) (now later : ℕ)
    → m.active ≡ some a
    → (begin m id (some use_secret) now).1 ≡ ok (r, status)
    → later < a.invitation.expires_at
    → let m' = (begin m id (some use_secret) now).0 in
      let m'' = (release m' (some r) later).0 in
      (begin m' id (some use_secret') later ≡ (m', err invitation_in_use))
      × ((release m' (some r) later).1 ≡ ok tt)
      × (use_secret' a.secret ≡ false
          → (begin m'' id (some use_secret') later).1 ≡ ok (r + 1, status))
unfolding begin begin_active reserve release with_reservation with_active
begin_exclusive m a id use_secret use_secret' r status now later e begun current = ground arith

-- What `Create` hands out is what the manager accepts until it expires: authentication with its ID
-- and secret succeeds and changes nothing, consumption succeeds and leaves no invitation, and both
-- reject any other pair and change nothing. The random source fills what it is asked for.
pub create-consume :
    (w : Surroundings) (m m' : Manager) (hints : List Bytes) (now later : ℕ)
    (made : PairingInvitation)
    → ((b : Bytes) → w.random_id ≡ some b → length b ≡ invitation_id_bytes)
    → ((b : Bytes) → w.random_secret ≡ some b → length b ≡ bootstrap_secret_bytes)
    → create w m hints now ≡ (m', ok made)
    → later < now + m.ttl
    → let id = made.invitation_id in
      let secret = made.bootstrap_secret in
      (authenticate m' id secret later ≡ (m', ok tt))
      × (consume m' id secret later ≡ (clear_active m', ok tt))
      × ((clear_active m').active ≡ none)
      × ((id' secret' : Bytes)
          → (id' ≢ id) ⊎ (secret' ≢ secret)
          → (authenticate m' id' secret' later ≡ (m', err invitation_rejected))
            × (consume m' id' secret' later ≡ (m', err invitation_rejected)))
unfolding authenticate consume with_active install clear_active draft
create-consume w m m' hints now later made full_id full_secret created current =
    create_cases
      (λ q.
        q ≡ (m', ok made)
        → let id = made.invitation_id in
          let secret = made.bootstrap_secret in
          (authenticate m' id secret later ≡ (m', ok tt))
          × (consume m' id secret later ≡ (clear_active m', ok tt))
          × ((clear_active m').active ≡ none)
          × ((id' secret' : Bytes)
              → (id' ≢ id) ⊎ (secret' ≢ secret)
              → (authenticate m' id' secret' later ≡ (m', err invitation_rejected))
                × (consume m' id' secret' later ≡ (m', err invitation_rejected))))
      w m hints now (λ x e. absurd (ground arith))
      (λ d id secret code e f g.
        let fits_id : length id ≡ 16 = full_id id e in
        let fits_secret : length secret ≡ 32 = full_secret secret f in
        (ground arith, ground arith, ground arith, λ id' secret' other. ground arith))
      created
