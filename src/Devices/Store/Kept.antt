-- ===== src/Devices/Store/Kept.antt =====
-- internal/deviceidentity/authorization.go: runs of calls, which keep a revoked device revoked.
use vibe_bridge.Base.{
  ◌≡◌, ◌≢◌, refl, not, ◌&&◌, List, [], ◌∷◌, Option, none, some, Bytes, ltb, leb, ◌==◌, length,
  Result, ok, err, arith, if_cases, Option-cases, Result-cases, inl, inr,
}
use vibe_bridge.Devices.Descriptor.{
  device_id_bytes, DeviceDescriptor, SignedDeviceDescriptor, Codec, verify_descriptor,
  verify_signed_descriptor,
}
use vibe_bridge.Devices.Records.{
  Store, AuthorizedDevice, Error, max_authorized_devices, Attempt, same, search, is_authorized,
}
use vibe_bridge.Devices.Store.{
  key_of, version_of, authorize_found, check_authorize, authorize_checked, authorize, revoke,
}
use vibe_bridge.Devices.Store.Search.{Search}
use vibe_bridge.Devices.Store.Epoch.{Revoked, revoke_found-keeps, Lawful, grant-keeps}

pub data Op : Type 0 where
  authorizes : Attempt → SignedDeviceDescriptor → Op
  revokes : Attempt → Bytes → Op

unfoldable pub step : Codec → Store → Op → Store
step c s (authorizes a signed) = (authorize c a s signed).0
step c s (revokes a id) = (revoke c a s id).0

unfoldable pub run : Codec → Store → List Op → Store
run c s [] = s
run c s (op ∷ ops) = run c (step c s op) ops

-- No call authorizes a device under the ID.
abbrev pub Spares : Bytes → List Op → Type 0
Spares id [] = Unit {0}
Spares id (revokes a other ∷ ops) = Spares id ops
Spares id (authorizes a signed ∷ ops) =
    ((d : DeviceDescriptor) → signed.device_descriptor ≡ some d → d.device_id ≢ id) × Spares id ops

verified_descriptor :
    (c : Codec) (mark : Bytes) (o : Option DeviceDescriptor) (d : DeviceDescriptor)
    → verify_descriptor c mark o ≡ ok d
    → o ≡ some d
unfolding verify_descriptor
verified_descriptor c mark none d e = absurd (ground arith)
verified_descriptor c mark (some x) d e = ground arith

checked_authorize :
    (c : Codec) (s : Store) (signed : SignedDeviceDescriptor) (d : DeviceDescriptor)
    (encoded : Bytes)
    → check_authorize c s signed ≡ ok (d, encoded)
    → (signed.device_descriptor ≡ some d) × (c.marshal signed ≡ some encoded)
unfolding check_authorize verify_signed_descriptor
checked_authorize c s signed d encoded e =
    elim (Result-cases (verify_descriptor c signed.signature signed.device_descriptor)) [
      | inr (x, h) ↦ absurd (ground arith)
      | inl (x, h) ↦ elim (Option-cases (c.marshal signed)) [
        | inl g ↦ absurd (ground arith)
        | inr (b, g) ↦ (
          ground (arith, verified_descriptor c signed.signature signed.device_descriptor x h),
          ground arith,
        )
      ]
    ]

authorize_found-keeps :
    (c : Codec) (a : Attempt) (s : Store) (id : Bytes) (signed : SignedDeviceDescriptor)
    (d : DeviceDescriptor) (encoded : Bytes) (q : Search)
    → search c d.device_id s.authorized ≡ q
    → c.decode encoded ≡ some signed
    → signed.device_descriptor ≡ some d
    → d.device_id ≢ id
    → Revoked c s id
    → Revoked c (authorize_found c a s signed d encoded q).0 id
unfolding authorize_found
authorize_found-keeps c a s id signed d encoded (err e) found read named differs gone = gone
authorize_found-keeps c a s id signed d encoded (ok none) found read named differs gone =
    if_cases (λ (q : Store × Result Error AuthorizedDevice). Revoked c q.0 id)
      (leb max_authorized_devices (length s.authorized)) _ _ (λ full. gone)
      (λ room. (grant-keeps c a s id signed d encoded read named differs gone).0)
authorize_found-keeps c a s id signed d encoded (ok (some (n, r, v))) found read named differs
      gone =
    let Keeps : Store × Result Error AuthorizedDevice → Type 0 = λ q. Revoked c q.0 id in
    if_cases Keeps (not (same (key_of v) d.signing_public_key)) _ _ (λ h. gone)
      (λ h.
        if_cases Keeps (is_authorized v.state && c.equal v.device signed) _ _ (λ g. gone)
          (λ g.
            if_cases Keeps (ltb d.key_version (version_of v)) _ _ (λ f. gone)
              (λ f. (grant-keeps c a s id signed d encoded read named differs gone).1 n r v found)))

authorize_checked-keeps :
    (c : Codec) (a : Attempt) (s : Store) (id : Bytes) (signed : SignedDeviceDescriptor)
    (q : Result Error (DeviceDescriptor × Bytes))
    → Lawful c
    → check_authorize c s signed ≡ q
    → ((d : DeviceDescriptor) → signed.device_descriptor ≡ some d → d.device_id ≢ id)
    → Revoked c s id
    → Revoked c (authorize_checked c a s signed q).0 id
unfolding authorize_checked
authorize_checked-keeps c a s id signed (err e) law fine spares gone = gone
authorize_checked-keeps c a s id signed (ok (d, encoded)) law fine spares gone =
    let (named, written) = checked_authorize c s signed d encoded fine in
    authorize_found-keeps c a s id signed d encoded (search c d.device_id s.authorized) refl
      (law.reads signed encoded written) named (spares d named) gone

pub run-keeps :
    (c : Codec) (s : Store) (ops : List Op) (id : Bytes)
    → Lawful c
    → Spares id ops
    → Revoked c s id
    → Revoked c (run c s ops) id
unfolding run step authorize revoke
run-keeps c s [] id law spares gone = gone
run-keeps c s (authorizes a signed ∷ ops) id law spares gone =
    run-keeps c (authorize c a s signed).0 ops id law spares.1
      (authorize_checked-keeps c a s id signed (check_authorize c s signed) law refl spares.0 gone)
run-keeps c s (revokes a other ∷ ops) id law spares gone =
    run-keeps c (revoke c a s other).0 ops id law spares (
      if_cases (λ (q : Store × Result Error AuthorizedDevice). Revoked c q.0 id)
        (length other == device_id_bytes) _ _ (λ h. revoke_found-keeps c a s id other gone)
        (λ h. gone))
