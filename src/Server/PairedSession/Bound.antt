-- ===== src/Server/PairedSession/Bound.antt =====
-- internal/server/pairedsession.go: what an accepted upgrade is bound to.
use mathlib.Core.Path.{subst}
use vibe_bridge.Base.{
  ◌⊎◌, inl, inr, [], ◌∷◌, sym, ℕ, ◌≡◌, ◌≢◌, refl, ap, true, false, not, List, some, Bytes,
  dec_bytes, ite, Result, ok, err, arith, if_cases,
}
use vibe_bridge.Base.Hex.{decode_string}
use vibe_bridge.Devices.Descriptor.{
  SignedDeviceDescriptor, Codec, new_signed_descriptor, sign_encoded,
}
use vibe_bridge.Devices.Records.{authorized, Store, AuthorizedDevice, Attempt, authorized_device}
use vibe_bridge.Devices.Store.{revoke}
use vibe_bridge.Devices.Store.Epoch.{Lawful}
use vibe_bridge.Devices.Store.Kept.{Op, run, Spares}
use vibe_bridge.Devices.Store.Lasting.{revoke_lasts}
use vibe_bridge.Server.Nonces.{NonceStore, host_from_addr, consume}
use vibe_bridge.Server.PairedSession.{
  World, Credentials, paired_credential, Request, GateError, PairedSessionResult, credentials_of,
  check_device, check_signature, signing_key, verify, own_descriptor, verify_web_device,
  verify_web_session,
}
use vibe_bridge.Server.PairedSession.Spending.{
  Spent, spend-Spent, SignedWith, Spent-SignedWith, check_device-ok, IsBound, verify_device-IsBound,
}
use vibe_bridge.Devices.Agent.{agent_options, signed_descriptor_locked}

-- A credential is the header's if there is one, and the query's if not.
abbrev pub Chosen : Bytes → Bytes → Bytes → Type 0
Chosen header query c = ((header ≢ []) × (c ≡ header)) ⊎ ((header ≡ []) × (c ≡ query))

abbrev pub Presents : Request → Credentials → Type 0
Presents r k =
    Chosen r.header.device r.query.device k.device
    × Chosen r.header.nonce r.query.nonce k.nonce
    × Chosen r.header.signature r.query.signature k.signature

chosen : (header query : Bytes) → Chosen header query (paired_credential header query)
chosen [] query = inr (refl, refl)
chosen (b ∷ header) query = inl (λ e. absurd (ground (arith, e)), refl)

-- The gate over a store and nonces binds an upgrade that it accepts to a device that the store has
-- as authorized: of the credentials that the request presents, each in its header or else in its
-- query, the device names it, the signature decodes to one that verifies under its key over the
-- domain and the decoded nonce, and the nonce was consumed for the host of the request; the epoch is
-- the store's.
pub verify-IsBound :
    (w : World) (s : Store) (n n' : NonceStore) (r : Request) (now : ℕ) (q : PairedSessionResult)
    → verify w (some s) (some n) r now ≡ (some n', ok q)
    → (k : Credentials) × Presents r k × IsBound w s n n' r k now q
unfolding verify
verify-IsBound w s n n' r now q done =
    let k = credentials_of r in
    (
      k,
      (
        chosen r.header.device r.query.device,
        chosen r.header.nonce r.query.nonce,
        chosen r.header.signature r.query.signature,
      ),
      verify_device-IsBound w s n r k now (check_device k) n' q refl (ground (arith, done)),
    )

-- Once an authorized device has been revoked, the gate accepts no upgrade of it, whatever devices
-- are authorized and revoked after that, as long as no device is authorized under its ID again.
-- The decoder reads what the encoder wrote.
pub revoked_no_session :
    (w : World) (a : Attempt) (s : Store) (id : Bytes) (u v : AuthorizedDevice) (ops : List Op)
    (n n' : NonceStore) (r : Request) (now : ℕ) (q : PairedSessionResult)
    → Lawful w.codec
    → authorized_device w.codec s id ≡ ok u
    → u.state ≡ authorized
    → (revoke w.codec a s id).1 ≡ ok v
    → Spares id ops
    → q.device_id ≡ id
    → verify w (some (run w.codec (revoke w.codec a s id).0 ops)) (some n) r now ≢ (some n', ok q)
revoked_no_session w a s id u v ops n n' r now q law before stands done spares named accepted =
    let s' = run w.codec (revoke w.codec a s id).0 ops in
    let (x, found, state) = revoke_lasts w.codec a s id u v ops law before stands done spares in
    let (k, presented, (y, found', state', named', key, left, epoch)) =
      verify-IsBound w s' n n' r now q accepted in
    absurd (ground arith)

-- The device that was checked is that of the answer.
abbrev Checked : Result GateError Bytes → PairedSessionResult → Type 0
Checked checked q = checked ≡ ok q.device_id

verify_web_device-own :
    (w : World) (s : Store) (n : NonceStore) (r : Request) (now : ℕ)
    (checked : Result GateError Bytes) (n' : NonceStore) (q : PairedSessionResult)
    → verify_web_device w s n r now checked ≡ (n', ok q)
    → Spent w s n n' r.query.nonce r.remote_addr now
        (own_descriptor (signed_descriptor_locked w.codec s))
        (check_signature w r.query)
        q
      × (q.device_id ≡ s.device_id)
      × Checked checked q
unfolding verify_web_device
verify_web_device-own w s n r now (err e) n' q = λ done. absurd (ground arith)
verify_web_device-own w s n r now (ok device) n' q =
    if_cases
      (λ (x : NonceStore × Result GateError PairedSessionResult).
        x ≡ (n', ok q)
        → Spent w s n n' r.query.nonce r.remote_addr now
            (own_descriptor (signed_descriptor_locked w.codec s)) (check_signature w r.query) q
          × (q.device_id ≡ s.device_id)
          × Checked (ok device) q)
      (not (ite (dec_bytes device s.device_id) true false)) _ _
      (λ foreign done. absurd (ground arith))
      (λ same done.
        let (spent, named) =
          spend-Spent w s n (own_descriptor (signed_descriptor_locked w.codec s)) device
            r.query.nonce r.remote_addr now (check_signature w r.query) n' q done in
        (spent, ground (arith, named, same), ap ok (sym named)))

-- The Agent's descriptor carries the public half of the store's signing key.
own_key :
    (c : Codec) (s : Store) (signed : SignedDeviceDescriptor)
    → own_descriptor (signed_descriptor_locked c s) ≡ ok signed
    → signing_key signed ≡ c.ed25519_public s.signing_private_key
unfolding signed_descriptor_locked new_signed_descriptor sign_encoded agent_options
own_key c s signed made = ground (arith, made)

web_foreign :
    (w : World) (s : Store) (n : NonceStore) (r : Request) (now : ℕ)
    (checked : Result GateError Bytes)
    → checked ≢ ok s.device_id
    → (verify_web_device w s n r now checked).0 ≡ n
unfolding verify_web_device
web_foreign w s n r now (err e) foreign = refl
web_foreign w s n r now (ok device) foreign =
    if_cases (λ (x : NonceStore × Result GateError PairedSessionResult). x.0 ≡ n)
      (not (ite (dec_bytes device s.device_id) true false)) _ _ (λ other. refl)
      (λ same. absurd (ground arith))

-- The gate for the local web client accepts an upgrade only in the Agent's own name: the device of
-- the query is the Agent's, the query's signature decodes to one that verifies, over the domain and
-- the decoded nonce, under the public half of the signing key in the store, and the nonce was
-- consumed for the host of the request.
pub web_session_own :
    (w : World) (s : Store) (n n' : NonceStore) (r : Request) (now : ℕ) (q : PairedSessionResult)
    → verify_web_session w (some s) (some n) r now ≡ (some n', ok q)
    → (q.device_id ≡ s.device_id)
      × (decode_string r.query.device ≡ some q.device_id)
      × SignedWith w (w.codec.ed25519_public s.signing_private_key) r.query
      × (consume n r.query.nonce (host_from_addr w.split r.remote_addr) now ≡ (n', ok tt))
      × (q.epoch ≡ s.revocation_epoch)
unfolding verify_web_session
web_session_own w s n n' r now q done =
    let (spent, own, named) =
      verify_web_device-own w s n r now (check_device r.query) n' q (ground (arith, done)) in
    let marked =
      Spent-SignedWith w s n n' r.query r.remote_addr now
        (own_descriptor (signed_descriptor_locked w.codec s)) q spent in
    (
      own,
      check_device-ok r.query q.device_id named,
      subst (λ key. SignedWith w key r.query) (own_key w.codec s spent.signed spent.is_found)
          marked,
      spent.left,
      spent.epoch,
    )

-- A request that does not name the Agent burns no nonce at the gate for the local web client, so
-- that the other gate, which is asked next, can still accept it.
pub web_session_unburnt :
    (w : World) (s : Store) (n : NonceStore) (r : Request) (now later : ℕ)
    → decode_string r.query.device ≢ some s.device_id
    → let next = (verify_web_session w (some s) (some n) r now).0 in
      verify w (some s) next r later ≡ verify w (some s) (some n) r later
unfolding verify_web_session check_device
web_session_unburnt w s n r now later foreign =
    ap (λ x. verify w (some s) x r later)
      (ap some (web_foreign w s n r now (check_device r.query) (λ same. absurd (ground arith))))
