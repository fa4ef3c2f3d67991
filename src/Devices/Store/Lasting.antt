-- ===== src/Devices/Store/Lasting.antt =====
-- internal/deviceidentity/authorization.go with internal/relay/epoch.go: what a revocation ends.
use mathlib.Core.Path.{subst}
use vibe_bridge.Base.{
  ◌∷◌, [], ◌++◌, ℕ, ◌+◌, ◌^◌, ◌%◌, ◌≡◌, ◌≢◌, ◌≤◌, refl, not, ◌&&◌, List, [], ◌∷◌, Option, none,
  some, Bytes, ltb, leb, ◌==◌, length, Result, ok, err, arith, if_cases, inl, inr,
}
use vibe_bridge.Relay.Epoch.{store_authorizer, store_authorizer-open}
use vibe_bridge.Devices.Descriptor.{
  device_id_bytes, DeviceDescriptor, SignedDeviceDescriptor, Codec,
}
use vibe_bridge.Devices.Records.{
  set_at, authorized, revoked, Store, AuthorizedDevice, Error, max_authorized_devices, Attempt,
  same, search, authorized_device, is_authorized,
}
use vibe_bridge.Devices.Store.{
  with_records, granted, grant, key_of, version_of, authorize_found, check_authorize,
  authorize_checked, authorize, revoke_found, revoke,
}
use vibe_bridge.Devices.Store.Search.{Search}
use vibe_bridge.Devices.Store.Epoch.{
  Revoked, persist_cases, revoked_cases, revoke_found-Revoked, Lawful,
}
use vibe_bridge.Devices.Store.Kept.{Op, authorizes, revokes, step, run, Spares, run-keeps}

abbrev SameEpoch : Store → Store × Result Error AuthorizedDevice → Type 0
SameEpoch s q = q.0.revocation_epoch ≡ s.revocation_epoch

-- The epoch never goes back.
grant-epoch :
    (c : Codec) (a : Attempt) (s : Store) (encoded : Bytes) (o : Option ℕ)
    → (grant c a s encoded o).0.revocation_epoch ≡ s.revocation_epoch
unfolding grant
grant-epoch c a s encoded none =
    if_cases (SameEpoch s) ((s.authorization_counter + 1) % 2 ^ 64 == 0) _ _ (λ full. refl)
      (λ room.
        persist_cases (SameEpoch s) c a s
          (with_records s (s.authorized ++ granted a s encoded ∷ [])) (granted a s encoded)
          (λ e. refl) (λ v h. refl))
grant-epoch c a s encoded (some n) =
    if_cases (SameEpoch s) ((s.authorization_counter + 1) % 2 ^ 64 == 0) _ _ (λ full. refl)
      (λ room.
        persist_cases (SameEpoch s) c a s
          (with_records s (set_at n (granted a s encoded) s.authorized)) (granted a s encoded)
          (λ e. refl) (λ v h. refl))

authorize_found-epoch :
    (c : Codec) (a : Attempt) (s : Store) (signed : SignedDeviceDescriptor) (d : DeviceDescriptor)
    (encoded : Bytes) (q : Search)
    → SameEpoch s (authorize_found c a s signed d encoded q)
unfolding authorize_found
authorize_found-epoch c a s signed d encoded (err e) = refl
authorize_found-epoch c a s signed d encoded (ok none) =
    if_cases (SameEpoch s) (leb max_authorized_devices (length s.authorized)) _ _ (λ full. refl)
      (λ room. grant-epoch c a s encoded none)
authorize_found-epoch c a s signed d encoded (ok (some (n, r, v))) =
    if_cases (SameEpoch s) (not (same (key_of v) d.signing_public_key)) _ _ (λ h. refl)
      (λ h.
        if_cases (SameEpoch s) (is_authorized v.state && c.equal v.device signed) _ _ (λ g. refl)
          (λ g.
            if_cases (SameEpoch s) (ltb d.key_version (version_of v)) _ _ (λ f. refl)
              (λ f. grant-epoch c a s encoded (some n))))

authorize_checked-epoch :
    (c : Codec) (a : Attempt) (s : Store) (signed : SignedDeviceDescriptor)
    (q : Result Error (DeviceDescriptor × Bytes))
    → SameEpoch s (authorize_checked c a s signed q)
unfolding authorize_checked
authorize_checked-epoch c a s signed (err e) = refl
authorize_checked-epoch c a s signed (ok (d, encoded)) =
    authorize_found-epoch c a s signed d encoded (search c d.device_id s.authorized)

revoke_found-epoch :
    (c : Codec) (a : Attempt) (s : Store) (q : Search)
    → s.revocation_epoch ≤ (revoke_found c a s q).0.revocation_epoch
revoke_found-epoch c a s q =
    revoked_cases (λ x. s.revocation_epoch ≤ x.0.revocation_epoch) c a s q (λ e. omega arith)
      (λ n r v found gone. omega arith) (λ n r v u found stands room view. omega arith)

run-epoch :
    (c : Codec) (s : Store) (ops : List Op) → s.revocation_epoch ≤ (run c s ops).revocation_epoch
unfolding run step authorize revoke
run-epoch c s [] = omega arith
run-epoch c s (authorizes a signed ∷ ops) = omega (
  arith,
  authorize_checked-epoch c a s signed (check_authorize c s signed),
  run-epoch c (authorize c a s signed).0 ops,
)
run-epoch c s (revokes a id ∷ ops) =
    let once : s.revocation_epoch ≤ (revoke c a s id).0.revocation_epoch =
      if_cases
        (λ (q : Store × Result Error AuthorizedDevice). s.revocation_epoch ≤ q.0.revocation_epoch)
        (length id == device_id_bytes) _ _
        (λ h. revoke_found-epoch c a s (search c id s.authorized)) (λ h. omega arith) in
    omega (arith, once, run-epoch c (revoke c a s id).0 ops)

not_both :
    (c : Codec) (s : Store) (id : Bytes) (u u' : AuthorizedDevice)
    → authorized_device c s id ≡ ok u
    → authorized_device c s id ≡ ok u'
    → u.state ≡ authorized
    → u'.state ≢ revoked
not_both c s id u u' e e' stands gone = ground arith

-- What a successful revocation of an authorized device leaves.
revoke-Revoked :
    (c : Codec) (a : Attempt) (s : Store) (id : Bytes) (u v : AuthorizedDevice)
    → authorized_device c s id ≡ ok u
    → u.state ≡ authorized
    → (revoke c a s id).1 ≡ ok v
    → Revoked c (revoke c a s id).0 id
      × ((revoke c a s id).0.revocation_epoch ≡ s.revocation_epoch + 1)
unfolding revoke
revoke-Revoked c a s id u v before stands =
    if_cases
      (λ (q : Store × Result Error AuthorizedDevice).
        q.1 ≡ ok v → Revoked c q.0 id × (q.0.revocation_epoch ≡ s.revocation_epoch + 1))
      (length id == device_id_bytes) _ _
      (λ h done.
        let (gone, how) = revoke_found-Revoked c a s id v done in
        (
          gone,
          elim how [
            | inl same ↦
                let (u', before', gone') = subst (λ x. Revoked c x id) same gone in
                absurd (not_both c s id u u' before before' stands gone')
            | inr next ↦ next
          ],
        ))
      (λ h done. absurd (ground arith))

-- The ID looks up as revoked as long as no device is authorized under it again.
pub revoke_lasts :
    (c : Codec) (a : Attempt) (s : Store) (id : Bytes) (u v : AuthorizedDevice) (ops : List Op)
    → Lawful c
    → authorized_device c s id ≡ ok u
    → u.state ≡ authorized
    → (revoke c a s id).1 ≡ ok v
    → Spares id ops
    → Revoked c (run c (revoke c a s id).0 ops) id
revoke_lasts c a s id u v ops law before stands done spares =
    run-keeps c (revoke c a s id).0 ops id law spares
      (revoke-Revoked c a s id u v before stands done).0

-- Once an authorized device has been revoked, and whatever devices are authorized and revoked after
-- that, the relay's gate over the store refuses every ticket, of any device, that was stamped with
-- the epoch before the revocation or an earlier one.
pub stamps_refused :
    (c : Codec) (a : Attempt) (s : Store) (id device : Bytes) (u v : AuthorizedDevice)
    (ops : List Op) (stamp : ℕ)
    → authorized_device c s id ≡ ok u
    → u.state ≡ authorized
    → (revoke c a s id).1 ≡ ok v
    → stamp ≤ s.revocation_epoch
    → store_authorizer (some (run c (revoke c a s id).0 ops).revocation_epoch) device stamp ≢ ok tt
stamps_refused c a s id device u v ops stamp before stands done old passed =
    let next = (revoke-Revoked c a s id u v before stands done).1 in
    let s₁ = (revoke c a s id).0 in
    let (stamped, current) =
      (store_authorizer-open (run c s₁ ops).revocation_epoch stamp device).0 passed in
    absurd (omega (arith, run-epoch c s₁ ops, next, old, current))
