-- ===== src/Relay/Ticket/Roundtrip.antt =====
-- internal/relay/ticket.go: a ticket that the Agent issues is one that the relay accepts.
use mathlib.Core.Path.{subst}
use vibe_bridge.Base.{
  ℕ, ◌+◌, ◌≤◌, ◌<◌, ◌≡◌, refl, true, List, [], ◌∷◌, none, some, Bytes, arith, ok, inl, inr,
  if_cases, Option-cases, Result-cases, length, sym,
}
use vibe_bridge.Base.Map.{lookup}
use vibe_bridge.Relay.Ticket.{
  RelayTicket, Scheme, Issuer, IssueInput, Verifier, ticket_replay_ttl, sweep_locked, claim, verify,
  new_issuer, issue, check_input, expiry_of, sign_ticket, checked, check_and_record_replay,
  record_replay, recorded_claim, settle, ticket_id_bytes, ticket_nonce_bytes, signature_size,
  encode_ticket_body, signed_by, verify_signature, check_shape, check_expiry, authorized, unsigned,
}
use vibe_bridge.Relay.Ticket.Calls.{claimed}

signed_by-listed :
    (s : Scheme) (body mark key : Bytes) (m : List (Bytes × Bytes))
    → lookup key m ≡ some key
    → s.verifies key body mark ≡ true
    → (issuer : Bytes) × (signed_by s body mark m ≡ some issuer)
unfolding signed_by
signed_by-listed s body mark key [] listed good = absurd (ground arith)
signed_by-listed s body mark key ((name, k) ∷ m) listed good =
    if_cases (λ o. (issuer : Bytes) × (o ≡ some issuer)) (s.verifies k body mark) (some k)
      (signed_by s body mark m) (λ t. (k, refl))
      (λ f. signed_by-listed s body mark key m (ground arith) good)

sweep_absent :
    (clock : ℕ) (id : Bytes) (m : List (Bytes × ℕ))
    → lookup id m ≡ none
    → lookup id (sweep_locked clock m) ≡ none
unfolding sweep_locked
sweep_absent clock id [] h = refl
sweep_absent clock id ((key, r) ∷ m) h = ground (arith, sweep_absent clock id m)

-- What `Issue` builds.
issue-signed :
    (s : Scheme) (issuer : Issuer) (input : IssueInput) (minted : ℕ) (id nonce : Bytes)
    (w : RelayTicket)
    → issue s issuer input minted (some id) (some nonce) ≡ ok w
    → (check_input input ≡ ok tt)
      × ((body : Bytes) × (encode_ticket_body s (unsigned input (expiry_of input minted) id nonce)
            ≡ some body)
          × (w ≡ record (unsigned input (expiry_of input minted) id nonce) {
            issuer_signature = s.sign issuer.private body;
          }))
unfolding issue sign_ticket
issue-signed s issuer input minted id nonce w e = elim (Result-cases (check_input input)) [
  | inr (x, h) ↦ absurd (ground arith)
  | inl (u, h) ↦
      elim (Option-cases
        (encode_ticket_body s (unsigned input (expiry_of input minted) id nonce))) [
          | inl g ↦ absurd (ground arith)
          | inr (body, g) ↦ (h, (body, g, ground arith))
        ]
]

-- A ticket that passes each check is accepted.
verify-accepts :
    (s : Scheme) (v : Verifier) (w : RelayTicket) (now clock expires : ℕ) (issuer : Bytes)
    → check_shape w ≡ ok tt
    → check_expiry w.expires_at now ≡ ok expires
    → lookup w.ticket_id (sweep_locked clock v.replay) ≡ none
    → verify_signature s (claimed v w clock) w ≡ some issuer
    → authorized v.authorizer w ≡ true
    → verify s v (some w) now clock
      ≡ (claimed v w clock, ok (record { wire = w; issuer = issuer; expires = expires }))
unfolding verify checked claim check_and_record_replay record_replay recorded_claim settle
verify-accepts s v w now clock expires issuer shape live fresh signed gate =
    rw (shape, live, fresh, signed, gate) refl

verify_signature-found :
    (s : Scheme) (v : Verifier) (w : RelayTicket) (body issuer : Bytes)
    → encode_ticket_body s w ≡ some body
    → signed_by s body w.issuer_signature v.issuers ≡ some issuer
    → verify_signature s v w ≡ some issuer
unfolding verify_signature
verify_signature-found s v w body issuer e found = ground arith

issued_shape :
    (input : IssueInput) (expires : ℕ) (id nonce mark : Bytes)
    → check_input input ≡ ok tt
    → length id ≡ ticket_id_bytes
    → length nonce ≡ ticket_nonce_bytes
    → length mark ≡ signature_size
    → check_shape (record (unsigned input expires id nonce) { issuer_signature = mark }) ≡ ok tt
unfolding check_input check_shape
issued_shape input expires id nonce mark fine full_id full_nonce full_mark = ground arith

live_expiry :
    (expires now : ℕ)
    → 0 < expires
    → now ≤ expires
    → expires ≤ now + ticket_replay_ttl
    → check_expiry (some expires) now ≡ ok expires
unfolding check_expiry
live_expiry expires now some_time live near = ground arith

-- What `Ed25519` and the issuer's key give.
pub record Sound (s : Scheme) : Type 0 where
  pub mark_size : (key body : Bytes) → length (s.sign key body) ≡ signature_size
  pub mark_verifies :
      (key body : Bytes) → s.verifies (s.public_of key) body (s.sign key body) ≡ true

-- With a sound signature scheme, a ticket issued over a full ID and nonce is accepted by a verifier
-- that knows the issuer's key, up to its expiry and not more than ten minutes before it, provided
-- that its ID is new and that the gate lets it through; it is accepted as issued, and its ID
-- recorded.
pub issue-verify :
    (s : Scheme) (issuer : Issuer) (key : Bytes) (input : IssueInput) (v : Verifier)
    (w : RelayTicket) (id nonce : Bytes) (minted now clock : ℕ)
    → Sound s
    → new_issuer s key ≡ some issuer
    → issue s issuer input minted (some id) (some nonce) ≡ ok w
    → length id ≡ ticket_id_bytes
    → length nonce ≡ ticket_nonce_bytes
    → lookup issuer.public v.issuers ≡ some issuer.public
    → (0 < expiry_of input minted)
      × (now ≤ expiry_of input minted)
      × (expiry_of input minted ≤ now + ticket_replay_ttl)
    → lookup id v.replay ≡ none
    → authorized v.authorizer w ≡ true
    → (signer : Bytes) × (verify s v (some w) now clock ≡ (
      claimed v w clock,
      ok (record { wire = w; issuer = signer; expires = expiry_of input minted }),
    ))
unfolding new_issuer encode_ticket_body
issue-verify s issuer key input v w id nonce minted now clock sound made minted_ok full_id
      full_nonce known times fresh gate =
    let (fine, built) = issue-signed s issuer input minted id nonce w minted_ok in
    let body = built.0 in
    let mark = s.sign issuer.private body in
    let public : issuer.public ≡ s.public_of issuer.private = ground arith in
    let good : s.verifies issuer.public body mark ≡ true =
      ground (arith, sound.mark_verifies issuer.private body, public) in
    let ticket : RelayTicket = record (unsigned input (expiry_of input minted) id nonce) {
      issuer_signature = mark;
    } in
    let Accepted : RelayTicket → Type 0 = λ x.
      authorized v.authorizer x ≡ true
      → (signer : Bytes) × (verify s v (some x) now clock ≡ (
        claimed v x clock,
        ok (record { wire = x; issuer = signer; expires = expiry_of input minted }),
      )) in
    let (signer, found) = signed_by-listed s body mark issuer.public v.issuers known good in
    subst Accepted (sym built.2)
      (λ open_gate. (
        signer,
        verify-accepts s v ticket now clock (expiry_of input minted) signer
            (issued_shape input (expiry_of input minted) id nonce mark fine full_id full_nonce
              (sound.mark_size issuer.private body))
            (live_expiry (expiry_of input minted) now times.0 times.1 times.2)
            (sweep_absent clock id v.replay fresh)
            (verify_signature-found s (claimed v ticket clock) ticket body signer built.1 found)
            open_gate,
      ))
      gate
