-- ===== src/Relay/Ticket/Genuine.antt =====
-- internal/relay/ticket.go: which tickets are accepted, and what a refusal leaves behind.
use mathlib.Core.Path.{subst}
use vibe_bridge.Base.{
  ℕ, ◌+◌, ◌≤◌, ◌<◌, ◌≡◌, ◌≢◌, refl, true, List, [], ◌∷◌, Option, none, some, Bytes, arith, Result,
  ok, err, ◌>>◌, ◌⊎◌, inl, inr, if_cases, Option-cases, length, ◌==◌, if◌then◌else◌, ap,
}
use vibe_bridge.Base.Map.{insert, delete-insert, AllEntries, insert-AllEntries}
use vibe_bridge.Relay.Epoch.{Authorizer, store_authorizer, store_authorizer-open}
use vibe_bridge.Relay.Router.{unspecified}
use vibe_bridge.Relay.Ticket.{
  Error, RelayTicket, Ticket, Scheme, Verifier, ticket_replay_ttl, sweep_locked, sweep_now,
  forget_replay, verify, new_verifier, add_issuers, encode_ticket_body, signed_by, verify_signature,
  check_shape, check_expiry, authorized, public_key_size,
}
use vibe_bridge.Relay.Ticket.Calls.{claimed, claim_cases}
use vibe_bridge.Relay.Ticket.Replay.{checked_cases, checks_ok}

abbrev pub Among : Bytes → List Bytes → Type 0
Among key [] = ⊥
Among key (k ∷ ks) = (k ≡ key) ⊎ Among key ks

-- A key that the verifier was made with, of the right size.
abbrev pub Configured : List Bytes → Bytes → Bytes → Type 0
Configured keys name key = Among key keys × (length key ≡ public_key_size)

add_issuers-Configured :
    (keys ks : List Bytes) (m : List (Bytes × Bytes))
    → ((key : Bytes) → Among key ks → Among key keys)
    → AllEntries (Configured keys) m
    → AllEntries (Configured keys) (add_issuers ks m)
unfolding add_issuers
add_issuers-Configured keys [] m within a = a
add_issuers-Configured keys (k ∷ ks) m within a =
    add_issuers-Configured keys ks (if length k == public_key_size then insert k k m else m)
      (λ key i. within key (inr i))
      (if_cases (AllEntries (Configured keys)) (length k == public_key_size) _ _
        (λ t. insert-AllEntries (Configured keys) k k m (within k (inl refl), ground arith) a)
        (λ f. a))

signed_by-Configured :
    (s : Scheme) (body mark key : Bytes) (keys : List Bytes) (m : List (Bytes × Bytes))
    → AllEntries (Configured keys) m
    → signed_by s body mark m ≡ some key
    → Among key keys × (s.verifies key body mark ≡ true)
unfolding signed_by
signed_by-Configured s body mark key keys [] a = λ e. absurd (ground arith)
signed_by-Configured s body mark key keys ((name, k) ∷ m) a =
    if_cases (λ o. o ≡ some key → Among key keys × (s.verifies key body mark ≡ true))
      (s.verifies k body mark) (some k) (signed_by s body mark m)
      (λ t e.
        let same : k ≡ key = ground arith in
        (subst (λ x. Among x keys) same a.0.0, subst (λ x. s.verifies x body mark ≡ true) same t))
      (λ f. signed_by-Configured s body mark key keys m a.1)

-- What a signature that is found tells.
abbrev pub SignedBy : Scheme → RelayTicket → Bytes → Type 0
SignedBy s w key =
    (body : Bytes) × (encode_ticket_body s w ≡ some body)
    × (s.verifies key body w.issuer_signature ≡ true)

verify_signature-SignedBy :
    (s : Scheme) (v : Verifier) (keys : List Bytes) (w : RelayTicket) (key : Bytes)
    → v.issuers ≡ (new_verifier keys).issuers
    → verify_signature s v w ≡ some key
    → Among key keys × SignedBy s w key
unfolding verify_signature new_verifier
verify_signature-SignedBy s v keys w key e found = elim (Option-cases (encode_ticket_body s w)) [
  | inl h ↦ absurd (ground arith)
  | inr (body, h) ↦
      let signed : signed_by s body w.issuer_signature (add_issuers keys []) ≡ some key =
        ground arith in
      let (among, verified) =
        signed_by-Configured s body w.issuer_signature key keys (add_issuers keys [])
          (add_issuers-Configured keys keys [] (λ k i. i) tt) signed in
      (among, (body, h, verified))
]

gate_open :
    (a : Option Authorizer) (epoch : ℕ) (w : RelayTicket)
    → a ≡ some (store_authorizer (some epoch))
    → authorized a w ≡ true
    → (0 < w.issuer_epoch) × (epoch ≤ w.issuer_epoch)
gate_open a epoch w e h = (store_authorizer-open epoch w.issuer_epoch w.device_id).0 (ground arith)

shape_ok :
    (w : RelayTicket) (now expires : ℕ)
    → (check_shape w >> check_expiry w.expires_at now) ≡ ok expires
    → (w.endpoint ≢ unspecified) × (0 < w.max_connections)
unfolding check_shape
shape_ok w now expires e = ground arith

-- On a verifier made with some keys whose gate reads a revocation epoch, a ticket that is accepted
-- carries a signature that verifies under one of these keys over its own encoding; it names an
-- endpoint and a cap above 0, has not expired, expires within ten minutes, and was stamped with an
-- epoch above 0 that is not behind the gate's.
pub accepted_genuine :
    (s : Scheme) (v : Verifier) (keys : List Bytes) (w : RelayTicket) (now clock epoch : ℕ)
    (t : Ticket)
    → v.issuers ≡ (new_verifier keys).issuers
    → v.authorizer ≡ some (store_authorizer (some epoch))
    → (verify s v (some w) now clock).1 ≡ ok t
    → (t.wire ≡ w)
      × (Among t.issuer keys × SignedBy s w t.issuer)
      × ((w.endpoint ≢ unspecified) × (0 < w.max_connections))
      × ((now ≤ t.expires) × (t.expires ≤ now + ticket_replay_ttl))
      × ((0 < w.issuer_epoch) × (epoch ≤ w.issuer_epoch))
unfolding verify
accepted_genuine s v keys w now clock epoch t made gate =
    let Good : Verifier × Result Error Ticket → Type 0 = λ q.
      q.1 ≡ ok t
      → (t.wire ≡ w)
        × (Among t.issuer keys × SignedBy s w t.issuer)
        × ((w.endpoint ≢ unspecified) × (0 < w.max_connections))
        × ((now ≤ t.expires) × (t.expires ≤ now + ticket_replay_ttl))
        × ((0 < w.issuer_epoch) × (epoch ≤ w.issuer_epoch)) in
    checked_cases Good s v w clock (check_shape w >> check_expiry w.expires_at now)
      (λ e h x. absurd (ground arith))
      (λ expires h.
        claim_cases Good s v w expires clock (λ r e x. absurd (ground arith))
          (λ e absent x. absurd (ground arith))
          (λ issuer absent signed open_gate x.
            let same : issuer ≡ t.issuer = ground arith in
            let same' : expires ≡ t.expires = ground arith in
            let (at, positive, live, near) = checks_ok w now expires h in
            (
              ground arith,
              subst (λ k. Among k keys × SignedBy s w k) same
                  (verify_signature-SignedBy s (claimed v w clock) keys w issuer made signed),
              shape_ok w now expires h,
              subst (λ k. (now ≤ k) × (k ≤ now + ticket_replay_ttl)) same' (live, near),
              gate_open v.authorizer epoch w gate open_gate,
            )))

-- A refused ticket burns no ID: the refusal leaves the verifier as it was, or as a sweep at the
-- clock's reading leaves it.
pub refused_unburnt :
    (s : Scheme) (v : Verifier) (w : Option RelayTicket) (now clock : ℕ) (e : Error)
    → (verify s v w now clock).1 ≡ err e
    → ((verify s v w now clock).0 ≡ v) ⊎ ((verify s v w now clock).0 ≡ sweep_now v clock)
unfolding verify sweep_now forget_replay
refused_unburnt s v none now clock e h = inl refl
refused_unburnt s v (some w) now clock e h =
    let Good : Verifier × Result Error Ticket → Type 0 =
      λ q. q.1 ≡ err e → (q.0 ≡ v) ⊎ (q.0 ≡ sweep_now v clock) in
    checked_cases Good s v w clock (check_shape w >> check_expiry w.expires_at now)
      (λ x h r. inl refl)
      (λ expires h.
        claim_cases Good s v w expires clock (λ r x y. inr refl)
          (λ x absent y. inr (
            ap (λ m. record v { replay = m })
              (delete-insert w.ticket_id clock (sweep_locked clock v.replay) absent)))
          (λ issuer absent signed gate x. absurd (ground arith)))
      h
