-- ===== src/Relay/Ticket.antt =====
-- internal/relay/ticket.go: the tickets that an Agent issues and the relay verifies. Times are
-- nanoseconds since Go's zero time; `verify` takes the readings of its two clocks. Calls on a
-- verifier follow one another. The Ed25519 scheme, the Protobuf encoder and SHA-256 are parameters.
pub mod Calls
pub mod Replay
pub mod Genuine
pub mod Roundtrip
pub mod Examples
use vibe_bridge.Base.{
  ℕ, ◌+◌, ◌*◌, Bool, true, false, not, ◌&&◌, List, [], ◌∷◌, Option, none, some, Bytes, ltb, leb,
  ◌==◌, if◌then◌else◌, length, Result, ok, err, ◌>>=◌, ◌>>◌, require,
}
use vibe_bridge.Base.Int.{ℤ, pos, negsuc}
use vibe_bridge.Base.Map.{lookup, insert, delete}
use vibe_bridge.Relay.Epoch.{Authorizer}
use vibe_bridge.Relay.Router.{Endpoint, unspecified, agent, client, second}
use vibe_bridge.Relay.Router

pub data Error : Type 0 where
  version signature expired malformed unspecified_endpoint replayed issued revoked : Error

abbrev pub current_ticket_version : ℕ
current_ticket_version = 1

abbrev pub ticket_id_bytes : ℕ
ticket_id_bytes = 16

abbrev pub route_id_bytes : ℕ
route_id_bytes = 16

abbrev pub ticket_nonce_bytes : ℕ
ticket_nonce_bytes = 16

-- `deviceidentity.DeviceIDBytes`.
abbrev pub device_id_bytes : ℕ
device_id_bytes = 16

abbrev pub ticket_replay_ttl : ℕ
ticket_replay_ttl = 10 * 60 * second

abbrev pub skew_allowance : ℕ
skew_allowance = 30 * second

-- The message on the wire.
pub record RelayTicket : Type 0 where
  pub version : ℕ
  pub ticket_id : Bytes
  pub route_id : Bytes
  pub endpoint : Endpoint
  pub device_id : Bytes
  pub expires_at : Option ℕ
  pub max_connections : ℕ
  pub nonce : Bytes
  pub issuer_epoch : ℕ
  pub issuer_signature : Bytes

pub record Ticket : Type 0 where
  pub wire : RelayTicket
  pub issuer : Bytes
  pub expires : ℕ

-- What the router reads of a ticket.
pub route_ticket : Ticket → Router.Ticket
route_ticket t = record {
  route_id = t.wire.route_id;
  endpoint = t.wire.endpoint;
  max_connections = t.wire.max_connections;
}

-- `crypto/ed25519` and the deterministic encoder.
pub record Scheme : Type 0 where
  pub public_of : Bytes → Bytes
  pub sign : Bytes → Bytes → Bytes
  pub verifies : Bytes → Bytes → Bytes → Bool
  pub marshal : RelayTicket → Option Bytes

pub encode_ticket_body : Scheme → RelayTicket → Option Bytes
encode_ticket_body s w = s.marshal (record w { issuer_signature = [] })

abbrev pub named_endpoint : Endpoint → Bool
named_endpoint unspecified = false
named_endpoint agent = true
named_endpoint client = true

-- Issuing ------------------------------------------------------------------------------------

pub record Issuer : Type 0 where
  pub private : Bytes
  pub public : Bytes

pub new_issuer : Scheme → Bytes → Option Issuer
new_issuer s private =
    if length private == 64
    then some (record { private = private; public = s.public_of private })
    else none

pub record IssueInput : Type 0 where
  pub route_id : Bytes
  pub device_id : Bytes
  pub endpoint : Endpoint
  pub max_connections : ℕ
  pub lifetime : ℤ
  pub expires_at : ℕ
  pub issuer_epoch : ℕ

pub data IssueError : Type 0 where
  route_id_size device_id_size endpoint_unspecified no_connections : IssueError
  random_failed encode_failed : IssueError

abbrev pub lifetime_of : ℤ → ℕ
lifetime_of (pos n) = if n == 0 then 2 * 60 * second else n
lifetime_of (negsuc n) = 2 * 60 * second

pub expiry_of : IssueInput → ℕ → ℕ
expiry_of input now =
    if input.expires_at == 0 then now + lifetime_of input.lifetime else input.expires_at

pub check_input : IssueInput → Result IssueError (Unit {0})
check_input input =
    require (length input.route_id == route_id_bytes) route_id_size
    >> require (length input.device_id == device_id_bytes) device_id_size
    >> require (named_endpoint input.endpoint) endpoint_unspecified
    >> require (not (input.max_connections == 0)) no_connections

abbrev pub drawn : Option Bytes → Result IssueError Bytes
drawn none = err random_failed
drawn (some b) = ok b

pub sign_ticket : Scheme → Bytes → RelayTicket → Result IssueError Bytes
unfolding encode_ticket_body
sign_ticket s private w = elim (encode_ticket_body s w) [
  | none ↦ err encode_failed
  | some body ↦ ok (s.sign private body)
]

abbrev pub unsigned : IssueInput → ℕ → Bytes → Bytes → RelayTicket
unsigned input expires id nonce = record {
  version = current_ticket_version;
  ticket_id = id;
  route_id = input.route_id;
  endpoint = input.endpoint;
  device_id = input.device_id;
  expires_at = some expires;
  max_connections = input.max_connections;
  nonce = nonce;
  issuer_epoch = input.issuer_epoch;
  issuer_signature = [];
}

-- The random source answers twice: for the ID and for the nonce.
pub issue :
    Scheme → Issuer → IssueInput → ℕ → Option Bytes → Option Bytes → Result IssueError RelayTicket
unfolding check_input expiry_of sign_ticket
issue s issuer input now random_id random_nonce = do
  check_input input
  id ← drawn random_id
  nonce ← drawn random_nonce
  let ticket = unsigned input (expiry_of input now) id nonce
  signed ← sign_ticket s issuer.private ticket
  ok (record ticket { issuer_signature = signed })

-- Verifying ----------------------------------------------------------------------------------

pub record Verifier : Type 0 where
  pub issuers : List (Bytes × Bytes)
  pub replay : List (Bytes × ℕ)
  pub authorizer : Option Authorizer

abbrev pub public_key_size : ℕ
public_key_size = 32

abbrev pub signature_size : ℕ
signature_size = 64

pub add_issuers : List Bytes → List (Bytes × Bytes) → List (Bytes × Bytes)
add_issuers [] m = m
add_issuers (k ∷ ks) m = add_issuers ks (if length k == public_key_size then insert k k m else m)

pub new_verifier : List Bytes → Verifier
unfolding add_issuers
new_verifier keys = record { issuers = add_issuers keys []; replay = []; authorizer = none }

pub set_authorizer : Verifier → Option Authorizer → Verifier
set_authorizer v authorizer = record v { authorizer = authorizer }

-- The loop of `sweepLocked`: an entry goes if `recorded.Before(now.Add(-ticketReplayTTL))`.
pub sweep_locked : ℕ → List (Bytes × ℕ) → List (Bytes × ℕ)
sweep_locked now [] = []
sweep_locked now ((key, recorded) ∷ m) =
    let rest = sweep_locked now m in
    if ltb (recorded + ticket_replay_ttl) now then rest else (key, recorded) ∷ rest

pub sweep_now : Verifier → ℕ → Verifier
sweep_now v clock = record v { replay = sweep_locked clock v.replay }

pub replay_size : Verifier → ℕ
replay_size v = length v.replay

-- After the sweep, given what the set holds for the ID.
pub record_replay : Verifier → Bytes → ℕ → List (Bytes × ℕ) → Option ℕ → Verifier × Bool
record_replay v id clock swept (some recorded) = (record v { replay = swept }, false)
record_replay v id clock swept none = (record v { replay = insert id clock swept }, true)

pub check_and_record_replay : Verifier → Bytes → ℕ → Verifier × Bool
unfolding record_replay
check_and_record_replay v id clock =
    record_replay v id clock (sweep_locked clock v.replay) (lookup id (sweep_locked clock v.replay))

pub forget_replay : Verifier → Bytes → Verifier
forget_replay v id = record v { replay = delete id v.replay }

-- The loop over the issuers' keys, in the order that the map yields.
pub signed_by : Scheme → Bytes → Bytes → List (Bytes × Bytes) → Option Bytes
signed_by s body mark [] = none
signed_by s body mark ((name, key) ∷ m) =
    let rest = signed_by s body mark m in if s.verifies key body mark then some key else rest

pub verify_signature : Scheme → Verifier → RelayTicket → Option Bytes
unfolding encode_ticket_body signed_by
verify_signature s v w = elim (encode_ticket_body s w) [
  | none ↦ none
  | some body ↦ signed_by s body w.issuer_signature v.issuers
]

-- The checks of `Verify` up to the signature's size.
pub check_shape : RelayTicket → Result Error (Unit {0})
check_shape w =
    require (w.version == current_ticket_version) version
    >> require (length w.ticket_id == ticket_id_bytes) malformed
    >> require (length w.route_id == route_id_bytes) malformed
    >> require (length w.device_id == device_id_bytes) malformed
    >> require (length w.nonce == ticket_nonce_bytes) malformed
    >> require (named_endpoint w.endpoint) unspecified_endpoint
    >> require (not (w.max_connections == 0)) malformed
    >> require (length w.issuer_signature == signature_size) signature

-- The checks of the expiry.
pub check_expiry : Option ℕ → ℕ → Result Error ℕ
check_expiry none now = err malformed
check_expiry (some expires) now =
    if expires == 0
    then err malformed
    else if not (ltb (now + skew_allowance) expires) && ltb expires now
    then err expired
    else if ltb (now + ticket_replay_ttl) expires
    then err issued
    else ok expires

abbrev pub authorized : Option Authorizer → RelayTicket → Bool
authorized none w = true
authorized (some authorizer) w = elim (authorizer w.device_id w.issuer_epoch) [
  | ok u ↦ true
  | err e ↦ false
]

-- What follows the recording: the signature and the gate, which take the record back on failure.
pub settle : Verifier → RelayTicket → ℕ → Option Bytes → Verifier × Result Error Ticket
settle v w expires none = (forget_replay v w.ticket_id, err signature)
settle v w expires (some issuer) =
    if authorized v.authorizer w
    then (v, ok (record { wire = w; issuer = issuer; expires = expires }))
    else (forget_replay v w.ticket_id, err revoked)

pub recorded_claim : Scheme → RelayTicket → ℕ → Verifier × Bool → Verifier × Result Error Ticket
unfolding verify_signature settle
recorded_claim s w expires (v, false) = (v, err replayed)
recorded_claim s w expires (v, true) = settle v w expires (verify_signature s v w)

pub claim : Scheme → Verifier → RelayTicket → ℕ → ℕ → Verifier × Result Error Ticket
unfolding check_and_record_replay recorded_claim
claim s v w expires clock = recorded_claim s w expires (check_and_record_replay v w.ticket_id clock)

-- What follows the checks.
pub checked : Scheme → Verifier → RelayTicket → ℕ → Result Error ℕ → Verifier × Result Error Ticket
unfolding claim
checked s v w clock (err e) = (v, err e)
checked s v w clock (ok expires) = claim s v w expires clock

pub verify : Scheme → Verifier → Option RelayTicket → ℕ → ℕ → Verifier × Result Error Ticket
unfolding check_shape check_expiry checked
verify s v none now clock = (v, err malformed)
verify s v (some w) now clock = checked s v w clock (check_shape w >> check_expiry w.expires_at now)
