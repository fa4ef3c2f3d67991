-- ===== src/Server/PairedSession/Examples.antt =====
-- internal/server/pairedsession.go: the gates on concrete inputs.
use vibe_bridge.Base.{
  Bool, ℕ, zero, suc, ◌≡◌, ◌≢◌, refl, true, false, List, [], ◌∷◌, none, some, Bytes, ok, arith,
  dec_bytes,
}
use vibe_bridge.Base.Hex.{encode_to_string, decode_string}
use vibe_bridge.Base.Trim.{is_trimmed}
use vibe_bridge.Devices.Descriptor.{
  fingerprint, verify_signed_descriptor, verify_descriptor, validate_descriptor,
  new_signed_descriptor, sign_encoded, check_versions, check_ends,
}
use vibe_bridge.Devices.Agent.{agent_options, signed_descriptor_locked}
use vibe_bridge.Devices.Records.{authorized_device, search, authorization_view, id_of}
use vibe_bridge.Devices.Store.{revoke}
use vibe_bridge.Devices.Store.Kept.{Op, revokes, authorizes, run, Spares}
use vibe_bridge.Devices.Store.Examples.{
  tablet_signed, repeated, phone, codec, codec-Lawful, store, attempt, standing, standing_found,
  gone, phone_revoked,
}
use vibe_bridge.Server.Nonces.{NonceStore, host_from_addr, evict_locked, consume_found, consume}
use vibe_bridge.Server.PairedSession.{
  World, Credentials, Request, PairedSessionResult, session_signature_message, check_device,
  check_signature, admit, check_state, bound_device, consumed, spend, verify_device, verify,
  verify_web_device, verify_web_session,
}
use vibe_bridge.Server.PairedSession.Spending.{SignedWith, IsBound}
use vibe_bridge.Server.PairedSession.Bound.{
  Presents, verify-IsBound, revoked_no_session, web_session_own, web_session_unburnt,
}

abbrev world : World
world = record { codec = codec; base64 = λ b. some b; split = λ addr. none }

abbrev nonce : Bytes
nonce = repeated 64 53

abbrev entry : Bool → NonceStore
entry used = record {
  ttl = 30000000000;
  items = (nonce, record { expires_at = 30000000000; host = 1 ∷ []; consumed = used }) ∷ [];
}

abbrev credentials : Bytes → Credentials
credentials device = record { device = device; nonce = nonce; signature = repeated 64 3 }

abbrev empty : Credentials
empty = record { device = []; nonce = []; signature = [] }

abbrev hex : ℕ → ℕ → Bytes
hex zero digit = []
hex (suc n) digit = 48 ∷ digit ∷ hex n digit

abbrev request : Request
request = record { header = empty; query = credentials (hex 16 55); remote_addr = 1 ∷ [] }

abbrev own_request : Request
own_request = record { header = empty; query = credentials (hex 16 57); remote_addr = 1 ∷ [] }

-- "010101010101".
abbrev mark : Bytes
mark = hex 6 49

abbrev accepted : PairedSessionResult
accepted = record { device_id = phone; fingerprint = mark; epoch = 3 }

abbrev own_accepted : PairedSessionResult
own_accepted = record { device_id = repeated 16 9; fingerprint = mark; epoch = 3 }

upgrade_passes :
    verify world (some store) (some (entry false)) request 1 ≡ (some (entry true), ok accepted)
unfolding fingerprint verify_signed_descriptor verify_descriptor encode_to_string
    validate_descriptor check_versions check_ends is_trimmed verify verify_device check_device
    check_signature spend consumed bound_device check_state admit session_signature_message
    decode_string consume consume_found evict_locked host_from_addr dec_bytes authorized_device
    search authorization_view id_of
upgrade_passes = refl

verify-IsBound_example :
    (k : Credentials) × Presents request k
    × IsBound world store (entry false) (entry true) request k 1 accepted
verify-IsBound_example =
    verify-IsBound world store (entry false) (entry true) request 1 accepted upgrade_passes

abbrev ops : List Op
ops =
    revokes attempt phone ∷ authorizes attempt tablet_signed ∷ revokes attempt (repeated 16 8) ∷ []

ops_spare : Spares phone ops
ops_spare = (λ d named same. absurd (ground (arith, named, same)), tt)

revoked_no_session_example :
    verify world
      (some (run codec (revoke codec attempt store phone).0 ops))
      (some (entry false))
      request
      1
    ≢ (some (entry true), ok accepted)
revoked_no_session_example =
    revoked_no_session world attempt store phone standing gone ops (entry false) (entry true)
      request 1 accepted codec-Lawful standing_found refl phone_revoked ops_spare refl

own_upgrade_passes :
    verify_web_session world (some store) (some (entry false)) own_request 1
    ≡ (some (entry true), ok own_accepted)
unfolding fingerprint verify_signed_descriptor verify_descriptor encode_to_string verify_web_session
    verify_web_device signed_descriptor_locked agent_options new_signed_descriptor
    validate_descriptor sign_encoded check_versions check_ends is_trimmed check_device
    check_signature spend consumed admit session_signature_message decode_string consume
    consume_found evict_locked host_from_addr dec_bytes
own_upgrade_passes = refl

web_session_own_example :
    (repeated 16 9 ≡ store.device_id)
    × (decode_string (hex 16 57) ≡ some (repeated 16 9))
    × SignedWith world (codec.ed25519_public store.signing_private_key) own_request.query
    × (consume (entry false) nonce (host_from_addr world.split (1 ∷ [])) 1 ≡ (entry true, ok tt))
    × (3 ≡ store.revocation_epoch)
web_session_own_example =
    web_session_own world store (entry false) (entry true) own_request 1 own_accepted
      own_upgrade_passes

phone_foreign : decode_string (hex 16 55) ≢ some (repeated 16 9)
unfolding decode_string
phone_foreign same = absurd (ground (arith, same))

web_session_unburnt_example :
    verify world
      (some store)
      (verify_web_session world (some store) (some (entry false)) request 1).0
      request
      2
    ≡ verify world (some store) (some (entry false)) request 2
web_session_unburnt_example =
    web_session_unburnt world store (entry false) request 1 2 phone_foreign
