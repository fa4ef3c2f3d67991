-- ===== src/Server/PairedSession/Spending.antt =====
-- internal/server/pairedsession.go: an upgrade that is accepted has spent its nonce.
use vibe_bridge.Base.{
  ◌++◌, length, ℕ, ◌≡◌, refl, true, some, Bytes, Result, ok, err, arith, Option-cases, Result-cases,
  inl, inr,
}
use vibe_bridge.Base.Hex.{decode_string}
use vibe_bridge.Devices.Descriptor.{SignedDeviceDescriptor, fingerprint}
use vibe_bridge.Devices.Records.{authorized, Store, AuthorizedDevice, same, authorized_device}
use vibe_bridge.Server.Nonces.{NonceError, NonceStore, host_from_addr, consume}
use vibe_bridge.Server.PairedSession.{
  World, Credentials, session_signature_domain, check_device, Request, GateError,
  PairedSessionResult, session_signature_message, check_signature, signing_key, admit, check_state,
  bound_device, consumed, spend, verify_device,
}

-- The nonce was spent, and the signature that was checked for its form passed the end of the gate.
pub record Spent (w : World) (s : Store) (n n' : NonceStore) (nonce addr : Bytes) (now : ℕ)
    (found : Result GateError SignedDeviceDescriptor) (checked : Result GateError Bytes)
    (q : PairedSessionResult) : Type 0 where
  pub left : consume n nonce (host_from_addr w.split addr) now ≡ (n', ok tt)
  pub signed : SignedDeviceDescriptor
  pub signature : Bytes
  pub is_found : found ≡ ok signed
  pub is_checked : checked ≡ ok signature
  pub verified :
      w.codec.ed25519_verify (signing_key signed) (session_signature_message nonce) signature ≡ true
  pub printed : fingerprint w.codec signed ≡ some q.fingerprint
  pub epoch : q.epoch ≡ s.revocation_epoch

admitted :
    (w : World) (s : Store) (signed : SignedDeviceDescriptor) (device nonce signature : Bytes)
    (q : PairedSessionResult)
    → admit w s signed device nonce signature ≡ ok q
    → (w.codec.ed25519_verify (signing_key signed) (session_signature_message nonce) signature
        ≡ true)
      × (fingerprint w.codec signed ≡ some q.fingerprint)
      × (q.epoch ≡ s.revocation_epoch)
      × (q.device_id ≡ device)
unfolding admit
admitted w s signed device nonce signature q = elim (Option-cases (fingerprint w.codec signed)) [
  | inl h ↦ λ e. absurd (ground arith)
  | inr (f, h) ↦ λ e. ground arith
]

consumed-Spent :
    (w : World) (s : Store) (n : NonceStore) (found : Result GateError SignedDeviceDescriptor)
    (device nonce signature addr : Bytes) (now : ℕ) (n' : NonceStore) (q : PairedSessionResult)
    (x : NonceStore × Result NonceError (Unit {0}))
    → consume n nonce (host_from_addr w.split addr) now ≡ x
    → consumed w s found device nonce signature x ≡ (n', ok q)
    → Spent w s n n' nonce addr now found (ok signature) q × (q.device_id ≡ device)
unfolding consumed
consumed-Spent w s n found device nonce signature addr now n' q (m, err e) same done =
    absurd (ground arith)
consumed-Spent w s n (err e) device nonce signature addr now n' q (m, ok tt) same done =
    absurd (ground arith)
consumed-Spent w s n (ok signed) device nonce signature addr now n' q (m, ok tt) same done =
    let (verified, printed, epoch, named) =
      admitted w s signed device nonce signature q (ground arith) in
    (
      record {
        left = ground arith;
        signed = signed;
        signature = signature;
        is_found = refl;
        is_checked = refl;
        verified = verified;
        printed = printed;
        epoch = epoch;
      },
      named,
    )

pub spend-Spent :
    (w : World) (s : Store) (n : NonceStore) (found : Result GateError SignedDeviceDescriptor)
    (device nonce addr : Bytes) (now : ℕ) (checked : Result GateError Bytes) (n' : NonceStore)
    (q : PairedSessionResult)
    → spend w s n found device nonce addr now checked ≡ (n', ok q)
    → Spent w s n n' nonce addr now found checked q × (q.device_id ≡ device)
unfolding spend
spend-Spent w s n found device nonce addr now (err e) n' q done = absurd (ground arith)
spend-Spent w s n found device nonce addr now (ok signature) n' q done =
    consumed-Spent w s n found device nonce signature addr now n' q _ refl done

-- Of the paired gate: the device is authorized.
pub bound :
    (w : World) (s : Store) (device : Bytes) (signed : SignedDeviceDescriptor)
    → bound_device w s device ≡ ok signed
    → (v : AuthorizedDevice) × (authorized_device w.codec s device ≡ ok v)
      × (v.state ≡ authorized)
      × (v.device ≡ signed)
unfolding bound_device check_state
bound w s device signed e = elim (Result-cases (authorized_device w.codec s device)) [
  | inr (x, h) ↦ absurd (ground arith)
  | inl (v, h) ↦ (v, h, ground (arith, h, e), ground (arith, h, e))
]

-- What the checks of the credentials let through.
pub check_signature-ok :
    (w : World) (k : Credentials) (mark : Bytes)
    → check_signature w k ≡ ok mark
    → (length k.nonce ≡ 64)
      × ((raw : Bytes) × (decode_string k.nonce ≡ some raw))
      × (w.base64 k.signature ≡ some mark)
unfolding check_signature
check_signature-ok w k mark fine = elim (Option-cases (decode_string k.nonce)) [
  | inl h ↦ absurd (ground (arith, fine, h))
  | inr (raw, h) ↦ elim (Option-cases (w.base64 k.signature)) [
    | inl g ↦ absurd (ground (arith, fine, h, g))
    | inr (b, g) ↦ (ground (arith, fine, h, g), (raw, h), ground (arith, fine, h, g))
  ]
]

pub check_device-ok :
    (k : Credentials) (device : Bytes)
    → check_device k ≡ ok device
    → decode_string k.device ≡ some device
unfolding check_device
check_device-ok k device fine = elim (Option-cases (decode_string k.device)) [
  | inl h ↦ absurd (ground (arith, fine, h))
  | inr (b, h) ↦ ground (arith, fine, h)
]

-- The credentials carry a nonce and a signature of it that verifies under the key.
abbrev pub SignedWith : World → Bytes → Credentials → Type 0
SignedWith w key k =
    (raw : Bytes) × (mark : Bytes) × (decode_string k.nonce ≡ some raw)
    × (length k.nonce ≡ 64)
    × (w.base64 k.signature ≡ some mark)
    × (w.codec.ed25519_verify key (session_signature_domain ++ raw) mark ≡ true)

pub Spent-SignedWith :
    (w : World) (s : Store) (n n' : NonceStore) (k : Credentials) (addr : Bytes) (now : ℕ)
    (found : Result GateError SignedDeviceDescriptor) (q : PairedSessionResult)
    (spent : Spent w s n n' k.nonce addr now found (check_signature w k) q)
    → SignedWith w (signing_key spent.signed) k
unfolding session_signature_message
Spent-SignedWith w s n n' k addr now found q spent =
    let (full, (raw, read), sent) = check_signature-ok w k spent.signature spent.is_checked in
    (raw, spent.signature, read, full, sent, ground (arith, spent.verified, read))

abbrev pub IsBound :
    World
    → Store
    → NonceStore
    → NonceStore
    → Request
    → Credentials
    → ℕ
    → PairedSessionResult
    → Type 0
IsBound w s n n' r k now q =
    (v : AuthorizedDevice) × (authorized_device w.codec s q.device_id ≡ ok v)
    × (v.state ≡ authorized)
    × (decode_string k.device ≡ some q.device_id)
    × SignedWith w (signing_key v.device) k
    × (consume n k.nonce (host_from_addr w.split r.remote_addr) now ≡ (n', ok tt))
    × (q.epoch ≡ s.revocation_epoch)

pub verify_device-IsBound :
    (w : World) (s : Store) (n : NonceStore) (r : Request) (k : Credentials) (now : ℕ)
    (checked : Result GateError Bytes) (n' : NonceStore) (q : PairedSessionResult)
    → check_device k ≡ checked
    → verify_device w s n r k now checked ≡ (n', ok q)
    → IsBound w s n n' r k now q
unfolding verify_device
verify_device-IsBound w s n r k now (err e) n' q fine done = absurd (ground arith)
verify_device-IsBound w s n r k now (ok device) n' q fine done =
    let (spent, named) =
      spend-Spent w s n (bound_device w s device) device k.nonce r.remote_addr now
        (check_signature w k) n' q done in
    let (v, found, stands, same) = bound w s device spent.signed spent.is_found in
    let marked = Spent-SignedWith w s n n' k r.remote_addr now (bound_device w s device) q spent in
    (
      v,
      ground (arith, found, named),
      stands,
      ground (arith, check_device-ok k device fine, named),
      rw same marked,
      spent.left,
      spent.epoch,
    )
