-- ===== src/Relay/Ticket/Examples.antt =====
-- internal/relay/ticket.go and internal/relay/epoch.go on concrete inputs.
use vibe_bridge.Base.{
  ℕ, zero, suc, ◌+◌, ◌≤◌, ◌<◌, ◌≡◌, ◌≢◌, refl, List, [], ◌∷◌, none, some, Bytes, arith, ok, err,
  ◌⊎◌, dec_bytes, length, ◌==◌,
}
use vibe_bridge.Base.Int.{pos}
use vibe_bridge.Relay.Epoch.{store_authorizer}
use vibe_bridge.Relay.Router.{agent, unspecified}
use vibe_bridge.Relay.Ticket.{
  RelayTicket, Ticket, Scheme, Issuer, IssueInput, Verifier, ticket_replay_ttl, set_authorizer,
  sweep_locked, sweep_now, verify, new_issuer, new_verifier, add_issuers, issue, check_input,
  expiry_of, sign_ticket, checked, claim, check_and_record_replay, record_replay, recorded_claim,
  settle, encode_ticket_body, signed_by, verify_signature, check_shape, check_expiry, replayed,
  revoked,
}
use vibe_bridge.Relay.Ticket.Calls.{Op, presents, sweeps, step, run, claimed}
use vibe_bridge.Relay.Ticket.Replay.{accepted_once}
use vibe_bridge.Relay.Ticket.Genuine.{Among, SignedBy, accepted_genuine, refused_unburnt}
use vibe_bridge.Relay.Ticket.Roundtrip.{Sound, issue-verify}

abbrev repeated : ℕ → ℕ → Bytes
repeated zero b = []
repeated (suc n) b = b ∷ repeated n b

abbrev scheme : Scheme
scheme = record {
  public_of = λ key. repeated 32 1;
  sign = λ key body. repeated 64 5;
  verifies = λ key body mark. length mark == 64;
  marshal = λ w. some w.nonce;
}

abbrev private : Bytes
private = repeated 64 2

abbrev issuer : Issuer
issuer = record { private = private; public = repeated 32 1 }

abbrev input : IssueInput
input = record {
  route_id = repeated 16 3;
  device_id = repeated 16 4;
  endpoint = agent;
  max_connections = 2;
  lifetime = pos ticket_replay_ttl;
  expires_at = 0;
  issuer_epoch = 5;
}

abbrev ticket : RelayTicket
ticket = record {
  version = 1;
  ticket_id = repeated 16 6;
  route_id = repeated 16 3;
  endpoint = agent;
  device_id = repeated 16 4;
  expires_at = some (1000 + ticket_replay_ttl);
  max_connections = 2;
  nonce = repeated 16 7;
  issuer_epoch = 5;
  issuer_signature = repeated 64 5;
}

ticket_issued :
    issue scheme issuer input 1000 (some (repeated 16 6)) (some (repeated 16 7)) ≡ ok ticket
unfolding issue check_input expiry_of sign_ticket encode_ticket_body
ticket_issued = refl

abbrev keys : List Bytes
keys = repeated 32 1 ∷ []

abbrev verifier : Verifier
verifier = set_authorizer (new_verifier keys) (some (store_authorizer (some 4)))

abbrev accepted : Ticket
accepted = record { wire = ticket; issuer = repeated 32 1; expires = 1000 + ticket_replay_ttl }

first : (verify scheme verifier (some ticket) 1000 1000).1 ≡ ok accepted
unfolding verify check_shape check_expiry checked claim check_and_record_replay record_replay
    sweep_locked recorded_claim settle verify_signature encode_ticket_body signed_by set_authorizer
    new_verifier add_issuers dec_bytes store_authorizer
first = refl

abbrev late : ℕ
late = 1000 + ticket_replay_ttl

abbrev between : List Op
between = presents (some ticket) 2000 2000 ∷ sweeps 5000 ∷ presents none 6000 6000 ∷ []

abbrev accepting : Verifier
accepting = run scheme (verify scheme verifier (some ticket) 1000 1000).0 between

-- The clock passes the expiry within the second call.
again : (verify scheme accepting (some ticket) late (late + 1)).1 ≡ ok accepted
unfolding run step verify check_shape check_expiry checked claim check_and_record_replay
    record_replay sweep_locked sweep_now recorded_claim settle verify_signature encode_ticket_body
    signed_by set_authorizer new_verifier add_issuers dec_bytes store_authorizer
again = refl

accepted_once_example :
    (late ≤ 1000 + ticket_replay_ttl)
    × (1000 + ticket_replay_ttl < late + 1)
    × (ticket.expires_at ≡ ticket.expires_at → late ≤ late)
accepted_once_example =
    accepted_once scheme verifier ticket ticket 1000 1000 late (late + 1) accepted accepted between
      first (omega arith) (omega arith, (omega arith, (omega arith, tt))) refl again

-- The second presentation of the ticket within its life.
replayed_second :
    (verify scheme (verify scheme verifier (some ticket) 1000 1000).0 (some ticket) 2000 2000).1
    ≡ err replayed
unfolding verify check_shape check_expiry checked claim check_and_record_replay record_replay
    sweep_locked recorded_claim settle verify_signature encode_ticket_body signed_by set_authorizer
    new_verifier add_issuers dec_bytes store_authorizer
replayed_second = refl

accepted_genuine_example :
    (accepted.wire ≡ ticket)
    × (Among accepted.issuer keys × SignedBy scheme ticket accepted.issuer)
    × ((ticket.endpoint ≢ unspecified) × (0 < ticket.max_connections))
    × ((1000 ≤ accepted.expires) × (accepted.expires ≤ 1000 + ticket_replay_ttl))
    × ((0 < ticket.issuer_epoch) × (4 ≤ ticket.issuer_epoch))
unfolding set_authorizer
accepted_genuine_example =
    accepted_genuine scheme verifier keys ticket 1000 1000 4 accepted refl refl first

abbrev behind : Verifier
behind = set_authorizer (new_verifier keys) (some (store_authorizer (some 6)))

refused : (verify scheme behind (some ticket) 1000 1000).1 ≡ err revoked
unfolding verify check_shape check_expiry checked claim check_and_record_replay record_replay
    sweep_locked recorded_claim settle verify_signature encode_ticket_body signed_by set_authorizer
    new_verifier add_issuers dec_bytes store_authorizer
refused = refl

refused_unburnt_example :
    let v = (verify scheme behind (some ticket) 1000 1000).0 in
    (v ≡ behind) ⊎ (v ≡ sweep_now behind 1000)
refused_unburnt_example = refused_unburnt scheme behind (some ticket) 1000 1000 revoked refused

scheme-Sound : Sound scheme
scheme-Sound = record { mark_size = λ key body. refl; mark_verifies = λ key body. refl }

issue-verify_example :
    (signer : Bytes) × (verify scheme verifier (some ticket) 2000 2000 ≡ (
      claimed verifier ticket 2000,
      ok (record { wire = ticket; issuer = signer; expires = expiry_of input 1000 }),
    ))
unfolding set_authorizer new_verifier add_issuers dec_bytes store_authorizer expiry_of new_issuer
issue-verify_example =
    issue-verify scheme issuer private input verifier ticket (repeated 16 6) (repeated 16 7) 1000
      2000 2000 scheme-Sound refl ticket_issued refl refl refl
      (omega arith, omega arith, omega arith) refl refl
