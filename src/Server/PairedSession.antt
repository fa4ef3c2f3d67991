-- ===== src/Server/PairedSession.antt =====
-- internal/server/pairedsession.go: the gate that binds the upgrade of a connection to a device.
-- Base64 and `net.SplitHostPort` are parameters. `none` for the gate's store or
-- nonces is a nil pointer.
pub mod Spending
pub mod Bound
pub mod Examples
use vibe_bridge.Base.{
  ℕ, ◌+◌, ◌*◌, Bool, true, false, not, ◌&&◌, ◌||◌, List, [], ◌∷◌, ◌++◌, Option, none, some, Bytes,
  ltb, leb, if◌then◌else◌, length, is_empty, is_some, dec_bytes, ite, Result, ok, err, ◌==◌, ◌>>=◌,
  ◌>>◌, require,
}
use vibe_bridge.Base.Hex.{decode_string}
use vibe_bridge.Devices.Descriptor.{
  device_id_bytes, DeviceDescriptor, SignedDeviceDescriptor, Codec, DescriptorError, fingerprint,
}
use vibe_bridge.Devices.Agent.{signed_descriptor_locked}
use vibe_bridge.Devices.Records.{Store, AuthorizedDevice, Error, authorized_device, is_authorized}
use vibe_bridge.Server.Nonces.{
  session_nonce_bytes, NonceError, nonce_unknown, nonce_replayed, nonce_remote, NonceStore,
  host_from_addr, consume,
}

-- What the gate calls.
pub record World : Type 0 where
  pub codec : Codec
  pub base64 : Bytes → Option Bytes
  pub split : Bytes → Option Bytes

-- Of a request: the credentials in the headers and in the query of the URL.
pub record Credentials : Type 0 where
  pub device : Bytes
  pub nonce : Bytes
  pub signature : Bytes

pub record Request : Type 0 where
  pub header : Credentials
  pub query : Credentials
  pub remote_addr : Bytes

pub data GateError : Type 0 where
  headers_missing device_malformed signature_malformed nonce_malformed : GateError
  nonce_refused : NonceError → GateError
  device_unknown device_revoked signature_invalid : GateError

pub record PairedSessionResult : Type 0 where
  pub device_id : Bytes
  pub fingerprint : Bytes
  pub epoch : ℕ

abbrev signature_size : ℕ
signature_size = 64

-- "VibeBridge session upgrade v1" and a byte 0.
abbrev pub session_signature_domain : Bytes
session_signature_domain =
    86 ∷ 105 ∷ 98 ∷ 101 ∷ 66 ∷ 114 ∷ 105 ∷ 100 ∷ 103 ∷ 101 ∷ 32 ∷ 115 ∷ 101 ∷ 115 ∷ 115 ∷ 105 ∷ 111
    ∷ 110 ∷ 32 ∷ 117 ∷ 112 ∷ 103 ∷ 114 ∷ 97 ∷ 100 ∷ 101 ∷ 32 ∷ 118 ∷ 49 ∷ 0 ∷ []

abbrev pub paired_credential : Bytes → Bytes → Bytes
paired_credential header query = if not (is_empty header) then header else query

abbrev pub credentials_of : Request → Credentials
credentials_of r = record {
  device = paired_credential r.header.device r.query.device;
  nonce = paired_credential r.header.nonce r.query.nonce;
  signature = paired_credential r.header.signature r.query.signature;
}

-- An error of `hex.DecodeString` comes with what has been decoded, which is not modelled: the gates
-- make the message only of a nonce that they have decoded.
abbrev decoded_or_empty : Option Bytes → Bytes
decoded_or_empty none = []
decoded_or_empty (some b) = b

unfoldable pub session_signature_message : Bytes → Bytes
session_signature_message nonce = session_signature_domain ++ decoded_or_empty (decode_string nonce)

abbrev present : Credentials → Bool
present k = not (is_empty k.device || is_empty k.nonce || is_empty k.signature)

abbrev sized : ℕ → GateError → Option Bytes → Result GateError Bytes
sized n e none = err e
sized n e (some b) = if length b == n then ok b else err e

unfoldable pub check_device : Credentials → Result GateError Bytes
check_device k =
    require (present k) headers_missing
    >> sized device_id_bytes device_malformed (decode_string k.device)

unfoldable pub check_signature : World → Credentials → Result GateError Bytes
check_signature w k =
    require (length k.nonce == session_nonce_bytes * 2) nonce_malformed
    >> require (is_some (decode_string k.nonce)) nonce_malformed
    >> sized signature_size signature_malformed (w.base64 k.signature)

-- The key of a descriptor; the descriptors of the store always have one.
abbrev pub signing_key : SignedDeviceDescriptor → Bytes
signing_key s = elim s.device_descriptor [ none ↦ [] | some d ↦ d.signing_public_key ]

-- The end of both gates.
unfoldable pub admit :
    World
    → Store
    → SignedDeviceDescriptor
    → Bytes
    → Bytes
    → Bytes
    → Result GateError PairedSessionResult
admit w s signed device nonce signature =
    require
      (w.codec.ed25519_verify (signing_key signed) (session_signature_message nonce) signature)
      signature_invalid
    >> elim (fingerprint w.codec signed) [
      | none ↦ err signature_invalid
      | some f ↦ ok (record { device_id = device; fingerprint = f; epoch = s.revocation_epoch })
    ]

unfoldable pub check_state : AuthorizedDevice → Result GateError SignedDeviceDescriptor
check_state v = if not (is_authorized v.state) then err device_revoked else ok v.device

unfoldable pub bound_device : World → Store → Bytes → Result GateError SignedDeviceDescriptor
bound_device w s device = elim (authorized_device w.codec s device) [
  | err e ↦ err device_unknown
  | ok v ↦ check_state v
]

-- After the consumption of the nonce.
unfoldable pub consumed :
    World
    → Store
    → Result GateError SignedDeviceDescriptor
    → Bytes
    → Bytes
    → Bytes
    → NonceStore × Result NonceError (Unit {0})
    → NonceStore × Result GateError PairedSessionResult
consumed w s found device nonce signature (n, err e) = (n, err (nonce_refused e))
consumed w s found device nonce signature (n, ok t) =
    (n, found >>= λ signed. admit w s signed device nonce signature)

unfoldable pub spend :
    World
    → Store
    → NonceStore
    → Result GateError SignedDeviceDescriptor
    → Bytes
    → Bytes
    → Bytes
    → ℕ
    → Result GateError Bytes
    → NonceStore × Result GateError PairedSessionResult
spend w s n found device nonce addr now (err e) = (n, err e)
spend w s n found device nonce addr now (ok signature) =
    consumed w s found device nonce signature (consume n nonce (host_from_addr w.split addr) now)

unfoldable pub verify_device :
    World
    → Store
    → NonceStore
    → Request
    → Credentials
    → ℕ
    → Result GateError Bytes
    → NonceStore × Result GateError PairedSessionResult
verify_device w s n r k now (err e) = (n, err e)
verify_device w s n r k now (ok device) =
    spend w s n (bound_device w s device) device k.nonce r.remote_addr now (check_signature w k)

unfoldable pub verify :
    World
    → Option Store
    → Option NonceStore
    → Request
    → ℕ
    → Option NonceStore × Result GateError PairedSessionResult
verify w none n r now = (n, err headers_missing)
verify w (some s) none r now = (none, err headers_missing)
verify w (some s) (some n) r now =
    let k = credentials_of r in
    let (n', answer) = verify_device w s n r k now (check_device k) in (some n', answer)

-- The Agent's own descriptor.
abbrev pub own_descriptor :
    Result DescriptorError SignedDeviceDescriptor → Result GateError SignedDeviceDescriptor
own_descriptor (err e) = err signature_invalid
own_descriptor (ok d) = ok d

unfoldable pub verify_web_device :
    World
    → Store
    → NonceStore
    → Request
    → ℕ
    → Result GateError Bytes
    → NonceStore × Result GateError PairedSessionResult
verify_web_device w s n r now (err e) = (n, err e)
verify_web_device w s n r now (ok device) =
    if not (ite (dec_bytes device s.device_id) true false)
    then (n, err device_unknown)
    else spend w s n (own_descriptor (signed_descriptor_locked w.codec s)) device r.query.nonce
        r.remote_addr now (check_signature w r.query)

unfoldable pub verify_web_session :
    World
    → Option Store
    → Option NonceStore
    → Request
    → ℕ
    → Option NonceStore × Result GateError PairedSessionResult
verify_web_session w none n r now = (n, err headers_missing)
verify_web_session w (some s) none r now = (none, err headers_missing)
verify_web_session w (some s) (some n) r now =
    let (n', answer) = verify_web_device w s n r now (check_device r.query) in (some n', answer)
