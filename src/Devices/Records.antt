-- ===== src/Devices/Records.antt =====
-- internal/deviceidentity/store.go and authorization.go: the records of the authorized devices and the
-- lookups. The decoder of stored descriptors is a parameter.
use vibe_bridge.Base.{
  ℕ, ◌+◌, ◌-◌, ◌*◌, Bool, true, false, not, ◌&&◌, List, [], ◌∷◌, Option, none, some, Bytes, ◌==◌,
  if◌then◌else◌, Result, ok, err, ◌>>=◌, dec_bytes, ite,
}
use vibe_bridge.Pairing.Invitation.{DeviceClass}
use vibe_bridge.Devices.Descriptor.{SignedDeviceDescriptor, Codec, DescriptorError}

pub data AuthorizationState : Type 0 where
  authorization_unspecified authorized revoked : AuthorizationState

-- A record of the state file.
pub record PersistedAuthorization : Type 0 where
  pub device : Bytes
  pub authorization_version : ℕ
  pub state : AuthorizationState
  pub authorized_at : ℕ
  pub revoked_at : Option ℕ
  pub revocation_epoch : ℕ

-- The Agent's state, `persistedState`. Times are nanoseconds.
pub record Store : Type 0 where
  pub version : ℕ
  pub device_id : Bytes
  pub signing_private_key : Bytes
  pub key_agreement_private_key : Bytes
  pub display_name : Bytes
  pub platform : Bytes
  pub device_class : DeviceClass
  pub created_at : ℕ
  pub key_version : ℕ
  pub authorization_counter : ℕ
  pub revocation_epoch : ℕ
  pub authorized : List PersistedAuthorization

pub record AuthorizedDevice : Type 0 where
  pub device : SignedDeviceDescriptor
  pub authorization_version : ℕ
  pub state : AuthorizationState
  pub authorized_at : ℕ
  pub revoked_at : Option ℕ
  pub revocation_epoch : ℕ

pub data Error : Type 0 where
  descriptor_error : DescriptorError → Error
  only_clients encode_failed too_large own_device decode_failed : Error
  key_changed version_backwards too_many_devices version_exhausted : Error
  invalid_state persist_failed : Error
  bad_device_id device_not_found counters_exhausted : Error

abbrev pub max_authorized_devices : ℕ
max_authorized_devices = 256

abbrev pub max_signed_descriptor_bytes : ℕ
max_signed_descriptor_bytes = 64 * 1024

-- What a call meets outside: the clock, and whether writing the state fails.
pub record Attempt : Type 0 where
  pub now : ℕ
  pub save_fails : Bool

abbrev pub same : Bytes → Bytes → Bool
same a b = ite (dec_bytes a b) true false

abbrev pub view_of : PersistedAuthorization → SignedDeviceDescriptor → AuthorizedDevice
view_of r s = record {
  device = s;
  authorization_version = r.authorization_version;
  state = r.state;
  authorized_at = r.authorized_at;
  revoked_at = r.revoked_at;
  revocation_epoch = r.revocation_epoch;
}

unfoldable pub authorization_view : Codec → PersistedAuthorization → Option AuthorizedDevice
authorization_view c r = elim (c.decode r.device) [ none ↦ none | some s ↦ some (view_of r s) ]

-- The ID in a view; a stored descriptor always has one.
unfoldable pub id_of : AuthorizedDevice → Bytes
id_of v = elim v.device.device_descriptor [ none ↦ [] | some d ↦ d.device_id ]

-- The loops over the records, up to the one of an ID: its index, the record and its view. A record before it that
-- cannot be decoded is an error.
abbrev pub shifted :
    Result Error (Option (ℕ × PersistedAuthorization × AuthorizedDevice))
    → Result Error (Option (ℕ × PersistedAuthorization × AuthorizedDevice))
shifted (err e) = err e
shifted (ok none) = ok none
shifted (ok (some (n, r, v))) = ok (some (n + 1, r, v))

unfoldable pub search :
    Codec
    → Bytes
    → List PersistedAuthorization
    → Result Error (Option (ℕ × PersistedAuthorization × AuthorizedDevice))
unfolding authorization_view id_of
search c id [] = ok none
search c id (r ∷ rs) =
    let rest = search c id rs in
    elim (authorization_view c r) [
      | none ↦ err decode_failed
      | some v ↦ if same (id_of v) id then ok (some (0, r, v)) else shifted rest
    ]

abbrev pub set_at :
    ℕ → PersistedAuthorization → List PersistedAuthorization → List PersistedAuthorization
set_at n r [] = []
set_at n r (x ∷ xs) = if n == 0 then r ∷ xs else x ∷ set_at (n - 1) r xs

abbrev found_device :
    Option (ℕ × PersistedAuthorization × AuthorizedDevice) → Result Error AuthorizedDevice
found_device none = err device_not_found
found_device (some (n, r, v)) = ok v

unfoldable pub authorized_device : Codec → Store → Bytes → Result Error AuthorizedDevice
unfolding search
authorized_device c s id = search c id s.authorized >>= found_device

abbrev pub is_revoked : AuthorizationState → Bool
is_revoked revoked = true
is_revoked authorized = false
is_revoked authorization_unspecified = false

abbrev pub is_authorized : AuthorizationState → Bool
is_authorized authorized = true
is_authorized revoked = false
is_authorized authorization_unspecified = false

-- The loop of `AuthorizedDevices`.
authorized_devices_in :
    Codec → Bool → List PersistedAuthorization → Result Error (List AuthorizedDevice)
unfolding authorization_view
authorized_devices_in c include_revoked [] = ok []
authorized_devices_in c include_revoked (r ∷ rs) =
    let rest = authorized_devices_in c include_revoked rs in
    if not include_revoked && is_revoked r.state then rest else elim (authorization_view c r) [
      | none ↦ err decode_failed
      | some v ↦ rest >>= λ vs. ok (v ∷ vs)
    ]

pub authorized_devices : Codec → Store → Bool → Result Error (List AuthorizedDevice)
unfolding authorized_devices_in
authorized_devices c s include_revoked = authorized_devices_in c include_revoked s.authorized
