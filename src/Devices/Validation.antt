-- ===== src/Devices/Validation.antt =====
-- internal/deviceidentity/store.go: the check of a state that is to be written.
use vibe_bridge.Base.{
  ℕ, Bool, true, false, not, ◌&&◌, ◌||◌, List, [], ◌∷◌, Option, none, some, Bytes, ltb, leb, ◌==◌,
  if◌then◌else◌, length, Result, ok, err, is_some, take,
}
use vibe_bridge.Pairing.Invitation.{DeviceClass, class_unspecified, agent, client}
use vibe_bridge.Devices.Descriptor.{
  DeviceDescriptor, Codec, DescriptorError, device_id_bytes, verify_signed_descriptor,
}
use vibe_bridge.Devices.Agent.{signed_descriptor_locked}
use vibe_bridge.Devices.Records.{
  authorization_unspecified, authorized, revoked, PersistedAuthorization, Store,
  max_authorized_devices, max_signed_descriptor_bytes, same,
}

abbrev current_state_version : ℕ
current_state_version = 1

abbrev none_or_zero : Option ℕ → Bool
none_or_zero none = true
none_or_zero (some t) = t == 0

abbrev valid_metadata : Store → PersistedAuthorization → Bool
valid_metadata s r =
    not (r.authorization_version == 0)
    && leb r.authorization_version s.authorization_counter
    && not (r.authorized_at == 0)

abbrev valid_revocation : Store → PersistedAuthorization → Bool
valid_revocation s r = elim r.state [
  | authorization_unspecified ↦ false
  | authorized ↦ not (is_some r.revoked_at) && r.revocation_epoch == 0
  | revoked ↦
      not (none_or_zero r.revoked_at)
      && not (r.revocation_epoch == 0)
      && leb r.revocation_epoch s.revocation_epoch
]

abbrev pub is_client : DeviceClass → Bool
is_client class_unspecified = false
is_client agent = false
is_client client = true

abbrev listed : Bytes → List Bytes → Bool
listed id [] = false
listed id (x ∷ xs) = same x id || listed id xs

-- The descriptor of a record, if it verifies as a client's.
unfoldable pub valid_device : Codec → Bytes → Option DeviceDescriptor
valid_device c device = elim (c.decode device) [
  | none ↦ none
  | some signed ↦ elim (verify_signed_descriptor c signed) [
    | err e ↦ none
    | ok d ↦ if is_client d.device_class then some d else none
  ]
]

unfoldable pub valid_records : Codec → Store → List Bytes → List PersistedAuthorization → Bool
unfolding valid_device
valid_records c s seen [] = true
valid_records c s seen (r ∷ rs) =
    ltb 0 (length r.device)
    && leb (length r.device) max_signed_descriptor_bytes
    && elim (valid_device c r.device) [
      | none ↦ false
      | some d ↦
          not (listed d.device_id seen)
          && valid_metadata s r
          && valid_revocation s r
          && valid_records c s (d.device_id ∷ seen) rs
    ]

abbrev is_agent : DeviceClass → Bool
is_agent class_unspecified = false
is_agent agent = true
is_agent client = false

-- The checks of the Agent's own keys and metadata, its descriptor excepted.
unfoldable pub valid_agent : Codec → Store → Bool
valid_agent c s =
    s.version == current_state_version
    && length s.device_id == device_id_bytes
    && length s.signing_private_key == 64
    && same (c.ed25519_from_seed (take 32 s.signing_private_key)) s.signing_private_key
    && length s.key_agreement_private_key == 32
    && is_some (c.x25519_public s.key_agreement_private_key)
    && is_agent s.device_class
    && not (s.created_at == 0 || s.key_version == 0)

abbrev succeeds : {A : Type 0} → Result DescriptorError A → Bool
succeeds (ok a) = true
succeeds (err e) = false

unfoldable pub validate_state : Codec → Store → Bool
unfolding valid_records valid_agent
validate_state c s =
    valid_agent c s
    && leb (length s.authorized) max_authorized_devices
    && succeeds (signed_descriptor_locked c s)
    && valid_records c s [] s.authorized
