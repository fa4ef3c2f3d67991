-- ===== src/Relay/Ticket/Calls.antt =====
-- internal/relay/ticket.go: the calls on a verifier, and how a call ends.
use vibe_bridge.Base.{
  ℕ, ◌+◌, ◌≤◌, ◌≡◌, refl, true, List, [], ◌∷◌, Option, none, some, Bytes, arith, Result, ok, err,
  if_cases,
}
use vibe_bridge.Base.Map.{lookup, insert}
use vibe_bridge.Relay.Epoch.{Authorizer}
use vibe_bridge.Relay.Ticket.{
  Error, RelayTicket, Ticket, Scheme, Verifier, ticket_replay_ttl, set_authorizer, sweep_locked,
  sweep_now, check_and_record_replay, recorded_claim, record_replay, forget_replay, settle, claim,
  verify, replayed, verify_signature, authorized, signature, revoked,
}

-- What a call on a verifier is, with the clocks' readings.
pub data Op : Type 0 where
  presents : Option RelayTicket → ℕ → ℕ → Op
  sweeps : ℕ → Op
  authorizes : Option Authorizer → Op

unfoldable pub step : Scheme → Verifier → Op → Verifier
step s v (presents w now clock) = (verify s v w now clock).0
step s v (sweeps clock) = sweep_now v clock
step s v (authorizes authorizer) = set_authorizer v authorizer

unfoldable pub run : Scheme → Verifier → List Op → Verifier
run s v [] = v
run s v (op ∷ ops) = run s (step s v op) ops

-- Every reading of the replay set's clock is at most the given time.
abbrev pub Until : ℕ → List Op → Type 0
Until t [] = Unit {0}
Until t (presents w now clock ∷ ops) = (clock ≤ t) × Until t ops
Until t (sweeps clock ∷ ops) = (clock ≤ t) × Until t ops
Until t (authorizes a ∷ ops) = Until t ops

pub sweep_keeps :
    (clock recorded : ℕ) (id : Bytes) (m : List (Bytes × ℕ))
    → lookup id m ≡ some recorded
    → clock ≤ recorded + ticket_replay_ttl
    → lookup id (sweep_locked clock m) ≡ some recorded
unfolding sweep_locked
sweep_keeps clock recorded id [] found young = ground arith
sweep_keeps clock recorded id ((key, other) ∷ m) found young =
    ground (arith, sweep_keeps clock recorded id m)

-- How a call ends once the shape and the expiry are checked: the ID is taken, or the record is
-- taken back, or the ticket is accepted.
abbrev pub swept : Verifier → ℕ → Verifier
swept v clock = record v { replay = sweep_locked clock v.replay }

abbrev pub claimed : Verifier → RelayTicket → ℕ → Verifier
claimed v w clock = record v { replay = insert w.ticket_id clock (sweep_locked clock v.replay) }

settle_cases {ℓ} :
    (P : Verifier × Result Error Ticket → Type ℓ) (v : Verifier) (w : RelayTicket) (expires : ℕ)
    (signer : Option Bytes)
    → ((e : Error) → P (forget_replay v w.ticket_id, err e))
    → ((issuer : Bytes)
        → signer ≡ some issuer
        → authorized v.authorizer w ≡ true
        → P (v, ok (record { wire = w; issuer = issuer; expires = expires })))
    → P (settle v w expires signer)
unfolding settle
settle_cases P v w expires none back accepted = back signature
settle_cases P v w expires (some issuer) back accepted =
    if_cases P (authorized v.authorizer w) _ _ (λ t. accepted issuer refl t) (λ f. back revoked)

recorded_cases {ℓ} :
    (P : Verifier × Result Error Ticket → Type ℓ) (s : Scheme) (v : Verifier) (w : RelayTicket)
    (expires clock : ℕ) (o : Option ℕ)
    → ((r : ℕ) → o ≡ some r → P (swept v clock, err replayed))
    → ((e : Error) → o ≡ none → P (forget_replay (claimed v w clock) w.ticket_id, err e))
    → ((issuer : Bytes)
        → o ≡ none
        → verify_signature s (claimed v w clock) w ≡ some issuer
        → authorized v.authorizer w ≡ true
        → P (claimed v w clock, ok (record { wire = w; issuer = issuer; expires = expires })))
    → P (
        recorded_claim s w expires
          (record_replay v w.ticket_id clock (sweep_locked clock v.replay) o))
unfolding recorded_claim record_replay
recorded_cases P s v w expires clock (some r) taken back accepted = taken r refl
recorded_cases P s v w expires clock none taken back accepted =
    settle_cases P (claimed v w clock) w expires (verify_signature s (claimed v w clock) w)
      (λ e. back e refl) (λ issuer. accepted issuer refl)

pub claim_cases {ℓ} :
    (P : Verifier × Result Error Ticket → Type ℓ) (s : Scheme) (v : Verifier) (w : RelayTicket)
    (expires clock : ℕ)
    → ((r : ℕ)
        → lookup w.ticket_id (sweep_locked clock v.replay) ≡ some r
        → P (swept v clock, err replayed))
    → ((e : Error)
        → lookup w.ticket_id (sweep_locked clock v.replay) ≡ none
        → P (forget_replay (claimed v w clock) w.ticket_id, err e))
    → ((issuer : Bytes)
        → lookup w.ticket_id (sweep_locked clock v.replay) ≡ none
        → verify_signature s (claimed v w clock) w ≡ some issuer
        → authorized v.authorizer w ≡ true
        → P (claimed v w clock, ok (record { wire = w; issuer = issuer; expires = expires })))
    → P (claim s v w expires clock)
unfolding claim check_and_record_replay recorded_claim
claim_cases P s v w expires clock =
    recorded_cases P s v w expires clock (lookup w.ticket_id (sweep_locked clock v.replay))
