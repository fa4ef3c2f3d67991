-- ===== src/Devices/Store.antt =====
-- internal/deviceidentity/authorization.go: Authorize and Revoke. The decoder of stored descriptors and the
-- writing of the state file are parameters. Each method holds the lock of the store.
pub mod Search
pub mod Kept
pub mod Epoch
pub mod Lasting
pub mod Examples
use vibe_bridge.Base.{
  ℕ, ◌+◌, ◌-◌, ◌*◌, ◌^◌, ◌%◌, Bool, true, false, not, ◌&&◌, ◌||◌, List, [], ◌∷◌, ◌++◌, Option, none,
  some, Bytes, ltb, leb, ◌==◌, if◌then◌else◌, length, is_empty, Result, ok, err, ◌>>=◌, ◌>>◌,
  require, dec_bytes, ite, is_some,
}
use vibe_bridge.Pairing.Invitation.{DeviceClass, class_unspecified, agent, client}
use vibe_bridge.Devices.Descriptor.{
  DeviceDescriptor, SignedDeviceDescriptor, Codec, DescriptorError, device_id_bytes,
  verify_signed_descriptor,
}
use vibe_bridge.Devices.Records.{
  authorization_unspecified, authorized, revoked, PersistedAuthorization, Store, AuthorizedDevice,
  Error, descriptor_error, only_clients, encode_failed, too_large, own_device, decode_failed,
  key_changed, version_backwards, too_many_devices, version_exhausted, invalid_state,
  persist_failed, bad_device_id, device_not_found, counters_exhausted, max_authorized_devices,
  max_signed_descriptor_bytes, Attempt, same, authorization_view, search, set_at, is_revoked,
  is_authorized,
}
use vibe_bridge.Devices.Validation.{is_client, validate_state}

-- The end of `Authorize` and `Revoke`: the state is checked and written before it takes effect.
unfoldable pub persist :
    Codec → Attempt → Store → Store → PersistedAuthorization → Store × Result Error AuthorizedDevice
unfolding validate_state authorization_view
persist c a s next changed =
    if not (validate_state c next)
    then (s, err invalid_state)
    else if a.save_fails
    then (s, err persist_failed)
    else elim (authorization_view c changed) [
      | none ↦ (s, err decode_failed)
      | some v ↦ (next, ok v)
    ]

unfoldable pub granted : Attempt → Store → Bytes → PersistedAuthorization
granted a s encoded = record {
  device = encoded;
  authorization_version = s.authorization_counter + 1;
  state = authorized;
  authorized_at = a.now;
  revoked_at = none;
  revocation_epoch = 0;
}

-- The state with the new record, after the others or in the place of the one at an index.
abbrev pub with_records : Store → List PersistedAuthorization → Store
with_records s records = record s {
  authorization_counter = s.authorization_counter + 1;
  authorized = records;
}

unfoldable pub grant :
    Codec → Attempt → Store → Bytes → Option ℕ → Store × Result Error AuthorizedDevice
unfolding persist granted
grant c a s encoded index =
    if (s.authorization_counter + 1) % 2 ^ 64 == 0 then (s, err version_exhausted) else elim index [
      | none ↦
          persist c a s (with_records s (s.authorized ++ granted a s encoded ∷ []))
            (granted a s encoded)
      | some n ↦
          persist c a s (with_records s (set_at n (granted a s encoded) s.authorized))
            (granted a s encoded)
    ]

abbrev pub key_of : AuthorizedDevice → Bytes
key_of v = elim v.device.device_descriptor [ none ↦ [] | some d ↦ d.signing_public_key ]

abbrev pub version_of : AuthorizedDevice → ℕ
version_of v = elim v.device.device_descriptor [ none ↦ 0 | some d ↦ d.key_version ]

-- What follows the search.
unfoldable pub authorize_found :
    Codec
    → Attempt
    → Store
    → SignedDeviceDescriptor
    → DeviceDescriptor
    → Bytes
    → Result Error (Option (ℕ × PersistedAuthorization × AuthorizedDevice))
    → Store × Result Error AuthorizedDevice
unfolding grant
authorize_found c a s signed d encoded (err e) = (s, err e)
authorize_found c a s signed d encoded (ok none) =
    if leb max_authorized_devices (length s.authorized)
    then (s, err too_many_devices)
    else grant c a s encoded none
authorize_found c a s signed d encoded (ok (some (n, r, v))) =
    if not (same (key_of v) d.signing_public_key)
    then (s, err key_changed)
    else if is_authorized v.state && c.equal v.device signed
    then (s, ok v)
    else if ltb d.key_version (version_of v)
    then (s, err version_backwards)
    else grant c a s encoded (some n)

abbrev encoded_or : Option Bytes → Result Error Bytes
encoded_or none = err encode_failed
encoded_or (some b) = ok b

abbrev pub described : Result DescriptorError DeviceDescriptor → Result Error DeviceDescriptor
described (err e) = err (descriptor_error e)
described (ok d) = ok d

-- The checks before the lock and of the Agent's own ID.
unfoldable pub check_authorize :
    Codec → Store → SignedDeviceDescriptor → Result Error (DeviceDescriptor × Bytes)
check_authorize c s signed = do
  d ← described (verify_signed_descriptor c signed)
  require (is_client d.device_class) only_clients
  encoded ← encoded_or (c.marshal signed)
  require (leb (length encoded) max_signed_descriptor_bytes) too_large
  require (not (same d.device_id s.device_id)) own_device
  ok (d, encoded)

unfoldable pub authorize_checked :
    Codec
    → Attempt
    → Store
    → SignedDeviceDescriptor
    → Result Error (DeviceDescriptor × Bytes)
    → Store × Result Error AuthorizedDevice
unfolding authorize_found search
authorize_checked c a s signed (err e) = (s, err e)
authorize_checked c a s signed (ok (d, encoded)) =
    authorize_found c a s signed d encoded (search c d.device_id s.authorized)

unfoldable pub authorize :
    Codec → Attempt → Store → SignedDeviceDescriptor → Store × Result Error AuthorizedDevice
unfolding check_authorize authorize_checked
authorize c a s signed = authorize_checked c a s signed (check_authorize c s signed)

unfoldable pub withdrawn : Attempt → Store → PersistedAuthorization → PersistedAuthorization
withdrawn a s r = record r {
  authorization_version = s.authorization_counter + 1;
  state = revoked;
  revoked_at = some a.now;
  revocation_epoch = s.revocation_epoch + 1;
}

abbrev largest_uint64 : ℕ
largest_uint64 = 2 ^ 64 - 1

unfoldable pub revoke_found :
    Codec
    → Attempt
    → Store
    → Result Error (Option (ℕ × PersistedAuthorization × AuthorizedDevice))
    → Store × Result Error AuthorizedDevice
unfolding persist withdrawn
revoke_found c a s (err e) = (s, err e)
revoke_found c a s (ok none) = (s, err device_not_found)
revoke_found c a s (ok (some (n, r, v))) =
    if is_revoked v.state
    then (s, ok v)
    else if s.authorization_counter == largest_uint64 || s.revocation_epoch == largest_uint64
    then (s, err counters_exhausted)
    else persist c a s
        (record s {
          authorization_counter = s.authorization_counter + 1;
          revocation_epoch = s.revocation_epoch + 1;
          authorized = set_at n (withdrawn a s r) s.authorized;
        })
        (withdrawn a s r)

unfoldable pub revoke : Codec → Attempt → Store → Bytes → Store × Result Error AuthorizedDevice
unfolding search revoke_found
revoke c a s id =
    if length id == device_id_bytes
    then revoke_found c a s (search c id s.authorized)
    else (s, err bad_device_id)
