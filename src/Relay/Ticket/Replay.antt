-- ===== src/Relay/Ticket/Replay.antt =====
-- internal/relay/ticket.go: a ticket is honoured once.
use vibe_bridge.Base.{
  ℕ, ◌+◌, ◌≤◌, ◌<◌, ◌≡◌, ◌≢◌, refl, List, [], ◌∷◌, none, some, Bytes, arith, Result, ok, err, ◌>>◌,
  dec_le,
}
use vibe_bridge.Base.Map.{lookup, insert, lookup-insert, lookup-delete}
use vibe_bridge.Relay.Ticket.{
  Error, RelayTicket, Ticket, Scheme, Verifier, ticket_replay_ttl, set_authorizer, sweep_locked,
  sweep_now, checked, forget_replay, claim, verify, check_shape, check_expiry,
}
use vibe_bridge.Relay.Ticket.Calls.{
  Op, presents, sweeps, authorizes, step, run, Until, sweep_keeps, claim_cases,
}

-- While an ID stands in the replay set and is not old enough to be swept, no call removes it.
claim-keeps :
    (s : Scheme) (v : Verifier) (w : RelayTicket) (expires clock recorded : ℕ) (id : Bytes)
    → lookup id v.replay ≡ some recorded
    → clock ≤ recorded + ticket_replay_ttl
    → lookup id (claim s v w expires clock).0.replay ≡ some recorded
unfolding forget_replay
claim-keeps s v w expires clock recorded id found young =
    let kept = sweep_keeps clock recorded id v.replay found young in
    let after = sweep_locked clock v.replay in
    claim_cases (λ q. lookup id q.0.replay ≡ some recorded) s v w expires clock (λ r e. kept)
      (λ x absent. ground (
        arith,
        lookup-delete w.ticket_id id (insert w.ticket_id clock after),
        lookup-insert w.ticket_id id clock after,
      ))
      (λ issuer absent e h. ground (arith, lookup-insert w.ticket_id id clock after))

pub checked_cases {ℓ} :
    (P : Verifier × Result Error Ticket → Type ℓ) (s : Scheme) (v : Verifier) (w : RelayTicket)
    (clock : ℕ) (r : Result Error ℕ)
    → ((e : Error) → r ≡ err e → P (v, err e))
    → ((expires : ℕ) → r ≡ ok expires → P (claim s v w expires clock))
    → P (checked s v w clock r)
unfolding checked
checked_cases P s v w clock (err e) refused goes_on = refused e refl
checked_cases P s v w clock (ok expires) refused goes_on = goes_on expires refl

step-keeps :
    (s : Scheme) (v : Verifier) (op : Op) (recorded : ℕ) (id : Bytes)
    → lookup id v.replay ≡ some recorded
    → Until (recorded + ticket_replay_ttl) (op ∷ [])
    → lookup id (step s v op).replay ≡ some recorded
unfolding step verify sweep_now set_authorizer
step-keeps s v (presents none now clock) recorded id found young = found
step-keeps s v (presents (some w) now clock) recorded id found young =
    checked_cases (λ q. lookup id q.0.replay ≡ some recorded) s v w clock _ (λ e h. found)
      (λ expires h. claim-keeps s v w expires clock recorded id found young.0)
step-keeps s v (sweeps clock) recorded id found young =
    sweep_keeps clock recorded id v.replay found young.0
step-keeps s v (authorizes a) recorded id found young = found

run-keeps :
    (s : Scheme) (v : Verifier) (ops : List Op) (recorded : ℕ) (id : Bytes)
    → lookup id v.replay ≡ some recorded
    → Until (recorded + ticket_replay_ttl) ops
    → lookup id (run s v ops).replay ≡ some recorded
unfolding run
run-keeps s v [] recorded id found young = found
run-keeps s v (presents w now clock ∷ ops) recorded id found young =
    run-keeps s (step s v (presents w now clock)) ops recorded id
      (step-keeps s v (presents w now clock) recorded id found (young.0, tt)) young.1
run-keeps s v (sweeps clock ∷ ops) recorded id found young =
    run-keeps s (step s v (sweeps clock)) ops recorded id
      (step-keeps s v (sweeps clock) recorded id found (young.0, tt)) young.1
run-keeps s v (authorizes a ∷ ops) recorded id found young =
    run-keeps s (step s v (authorizes a)) ops recorded id
      (step-keeps s v (authorizes a) recorded id found tt) young

-- What the checks let through.
pub checks_ok :
    (w : RelayTicket) (now expires : ℕ)
    → (check_shape w >> check_expiry w.expires_at now) ≡ ok expires
    → (w.expires_at ≡ some expires)
      × (0 < expires)
      × (now ≤ expires)
      × (expires ≤ now + ticket_replay_ttl)
unfolding check_expiry
checks_ok w now expires e = ground arith

-- An accepted call records its ID at the clock's reading.
verify-records :
    (s : Scheme) (v : Verifier) (w : RelayTicket) (now clock : ℕ) (t : Ticket)
    → (verify s v (some w) now clock).1 ≡ ok t
    → (lookup w.ticket_id (verify s v (some w) now clock).0.replay ≡ some clock)
      × (w.expires_at ≡ some t.expires)
      × (now ≤ t.expires)
      × (t.expires ≤ now + ticket_replay_ttl)
unfolding verify
verify-records s v w now clock t =
    let Good : Verifier × Result Error Ticket → Type 0 = λ q.
      q.1 ≡ ok t
      → (lookup w.ticket_id q.0.replay ≡ some clock)
        × (w.expires_at ≡ some t.expires)
        × (now ≤ t.expires)
        × (t.expires ≤ now + ticket_replay_ttl) in
    checked_cases Good s v w clock (check_shape w >> check_expiry w.expires_at now)
      (λ e h x. absurd (ground arith))
      (λ expires h.
        claim_cases Good s v w expires clock (λ r e x. absurd (ground arith))
          (λ e absent x. absurd (ground arith))
          (λ issuer absent signed open_gate x.
            let same : expires ≡ t.expires = ground arith in
            let (at, positive, live, near) = checks_ok w now expires h in
            (
              ground (
                arith,
                lookup-insert w.ticket_id w.ticket_id clock (sweep_locked clock v.replay),
              ),
              ground (arith, at, same),
              ground (arith, live, same),
              ground (arith, near, same),
            )))

taken_refused :
    (s : Scheme) (v : Verifier) (w : RelayTicket) (now clock recorded : ℕ) (t : Ticket)
    → lookup w.ticket_id v.replay ≡ some recorded
    → clock ≤ recorded + ticket_replay_ttl
    → (verify s v (some w) now clock).1 ≢ ok t
unfolding verify
taken_refused s v w now clock recorded t found young =
    let kept = sweep_keeps clock recorded w.ticket_id v.replay found young in
    let Refused : Verifier × Result Error Ticket → Type 0 = λ q. q.1 ≢ ok t in
    checked_cases Refused s v w clock (check_shape w >> check_expiry w.expires_at now)
      (λ e h x. absurd (ground arith))
      (λ expires h.
        claim_cases Refused s v w expires clock (λ r e x. absurd (ground arith))
          (λ e absent x. absurd (ground arith)) (λ issuer absent. absurd (cc)))

Until-le : (t u : ℕ) (ops : List Op) → t ≤ u → Until t ops → Until u ops
Until-le t u [] le h = tt
Until-le t u (presents w now clock ∷ ops) le h = (omega arith, Until-le t u ops le h.1)
Until-le t u (sweeps clock ∷ ops) le h = (omega arith, Until-le t u ops le h.1)
Until-le t u (authorizes a ∷ ops) le h = Until-le t u ops le h

-- Once a ticket has been accepted, and whatever is called on the verifier until then, a ticket with
-- the same ID is accepted again only when the replay set's clock has passed the ten minutes after
-- the first acceptance, which the expiry of the first does not exceed. The same ticket, or another
-- with its expiry, is then accepted only by a call of which the first clock reading has not passed
-- the expiry and the second has.
pub accepted_once :
    (s : Scheme) (v : Verifier) (w w' : RelayTicket) (now clock now' clock' : ℕ) (t t' : Ticket)
    (ops : List Op)
    → (verify s v (some w) now clock).1 ≡ ok t
    → now ≤ clock
    → Until clock' ops
    → w'.ticket_id ≡ w.ticket_id
    → let v' = run s (verify s v (some w) now clock).0 ops in
      (verify s v' (some w') now' clock').1 ≡ ok t'
      → (t.expires ≤ clock + ticket_replay_ttl)
        × (clock + ticket_replay_ttl < clock')
        × (w'.expires_at ≡ w.expires_at → now' ≤ t.expires)
accepted_once s v w w' now clock now' clock' t t' ops first order until same again =
    let (at, place, live, near) = verify-records s v w now clock t first in
    let v₁ = (verify s v (some w) now clock).0 in
    let (at', place', live', near') = verify-records s (run s v₁ ops) w' now' clock' t' again in
    (
      omega arith,
      elim (dec_le clock' (clock + ticket_replay_ttl)) [
        | yes young ↦
            let kept =
              run-keeps s v₁ ops clock w.ticket_id at
                (Until-le clock' (clock + ticket_replay_ttl) ops young until) in
            absurd
              (taken_refused s (run s v₁ ops) w' now' clock' clock t' (rw same kept) young again)
        | no late ↦ omega arith
      ],
      λ e. ground arith,
    )
