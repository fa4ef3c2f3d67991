-- ===== src/Devices/Store/Examples.antt =====
-- internal/deviceidentity on concrete inputs.
use vibe_bridge.Base.{
  ℕ, zero, suc, ◌≡◌, ◌≢◌, refl, true, false, List, [], ◌∷◌, none, some, Bytes, ok, arith, dec_bytes,
  leb, length, Bool, Option, if◌then◌else◌, ◌&&◌, ◌==◌,
}
use vibe_bridge.Base.Trim.{is_trimmed}
use vibe_bridge.Pairing.Invitation.{DeviceClass, class_unspecified, agent, client}
use vibe_bridge.Protocol.Envelope.{ProtocolVersion, ProtocolVersionRange}
use vibe_bridge.Relay.Epoch.{store_authorizer}
use vibe_bridge.Devices.Descriptor.{
  DeviceDescriptor, SignedDeviceDescriptor, Codec, validate_descriptor, check_signature,
  check_versions, check_ends, new_signed_descriptor, sign_encoded, verify_descriptor,
  verify_signed_descriptor,
}
use vibe_bridge.Devices.Records.{
  authorized, revoked, PersistedAuthorization, Store, AuthorizedDevice, Attempt, same, view_of,
  authorization_view, id_of, search, authorized_device,
}
use vibe_bridge.Devices.Agent.{agent_options, signed_descriptor_locked}
use vibe_bridge.Devices.Validation.{
  is_client, valid_agent, valid_device, valid_records, validate_state,
}
use vibe_bridge.Devices.Store.{
  authorize, check_authorize, authorize_checked, authorize_found, grant, granted, persist,
  withdrawn, revoke_found, revoke,
}
use vibe_bridge.Devices.Store.Epoch.{Lawful}
use vibe_bridge.Devices.Store.Kept.{Op, authorizes, revokes, run}
use vibe_bridge.Devices.Store.Lasting.{stamps_refused}

abbrev pub repeated : ℕ → ℕ → Bytes
repeated zero b = []
repeated (suc n) b = b ∷ repeated n b

abbrev pub phone : Bytes
phone = repeated 16 7

abbrev v : ProtocolVersion
v = record { major = 1; minor = 0 }

abbrev descriptor : DeviceDescriptor
descriptor = record {
  device_id = phone;
  display_name = 112 ∷ [];
  platform = 97 ∷ [];
  device_class = client;
  signing_public_key = repeated 32 1;
  key_agreement_public_key = repeated 32 2;
  created_at = some 1;
  key_version = 1;
  supported_versions = some (record { minimum = some v; maximum = some v });
}

abbrev pub signed : SignedDeviceDescriptor
signed = record { device_descriptor = some descriptor; signature = repeated 64 3 }

-- Another device, which is authorized later.
abbrev pub tablet : Bytes
tablet = repeated 16 6

abbrev pub tablet_signed : SignedDeviceDescriptor
tablet_signed = record {
  device_descriptor = some (record descriptor { device_id = tablet });
  signature = repeated 64 3;
}

-- Whether a descriptor is the tablet's.
abbrev is_end : Option ProtocolVersion → Bool
is_end none = false
is_end (some x) = x.major == 1 && x.minor == 0

abbrev is_range : Option ProtocolVersionRange → Bool
is_range none = false
is_range (some r) = is_end r.minimum && is_end r.maximum

abbrev is_one : Option ℕ → Bool
is_one none = false
is_one (some t) = t == 1

abbrev is_tablet : Option DeviceDescriptor → Bool
is_tablet none = false
is_tablet (some d) =
    same d.device_id tablet
    && same d.display_name (112 ∷ [])
    && same d.platform (97 ∷ [])
    && is_client d.device_class
    && same d.signing_public_key (repeated 32 1)
    && same d.key_agreement_public_key (repeated 32 2)
    && is_one d.created_at
    && d.key_version == 1
    && is_range d.supported_versions

end_lem : (o : Option ProtocolVersion) → is_end o ≡ true → o ≡ some v
end_lem none h = absurd (ground arith)
end_lem (some x) h = ground arith

range_lem :
    (o : Option ProtocolVersionRange)
    → is_range o ≡ true
    → o ≡ some (record { minimum = some v; maximum = some v })
range_lem none h = absurd (ground arith)
range_lem (some r) h = ground (arith, end_lem r.minimum, end_lem r.maximum)

one_lem : (o : Option ℕ) → is_one o ≡ true → o ≡ some 1
one_lem none h = absurd (ground arith)
one_lem (some t) h = ground arith

class_lem : (x : DeviceClass) → is_client x ≡ true → x ≡ client
class_lem class_unspecified h = absurd (ground arith)
class_lem agent h = absurd (ground arith)
class_lem client h = refl

tablet_lem :
    (o : Option DeviceDescriptor) → is_tablet o ≡ true → o ≡ tablet_signed.device_descriptor
tablet_lem none h = absurd (ground arith)
tablet_lem (some d) h =
    ground (arith, class_lem d.device_class, one_lem d.created_at, range_lem d.supported_versions)

-- An encoder that knows the tablet, and a decoder that knows both.
abbrev pub codec : Codec
codec = record {
  marshal_descriptor = λ d. some [];
  marshal = λ s.
      if is_tablet s.device_descriptor && same s.signature (repeated 64 3)
      then some (2 ∷ [])
      else none;
  decode = λ b. some (if same b (2 ∷ []) then tablet_signed else signed);
  equal = λ s t. false;
  x25519_public_key = λ k. true;
  ed25519_verify = λ k m s. leb (length k) (length m) && length s == 64;
  ed25519_sign = λ k m. repeated 64 3;
  ed25519_public = λ k. repeated 32 1;
  ed25519_from_seed = λ seed. repeated 64 4;
  x25519_public = λ k. some (repeated 32 2);
  sha256 = λ b. repeated 32 1;
}

pub codec-Lawful : Lawful codec
unfolding dec_bytes
codec-Lawful = record { reads = λ s b e. ground (arith, e, tablet_lem s.device_descriptor) }

abbrev entry : PersistedAuthorization
entry = record {
  device = 1 ∷ [];
  authorization_version = 1;
  state = authorized;
  authorized_at = 5;
  revoked_at = none;
  revocation_epoch = 0;
}

abbrev pub store : Store
store = record {
  version = 1;
  device_id = repeated 16 9;
  signing_private_key = repeated 64 4;
  key_agreement_private_key = repeated 32 5;
  display_name = 97 ∷ [];
  platform = 97 ∷ [];
  device_class = agent;
  created_at = 1;
  key_version = 1;
  authorization_counter = 1;
  revocation_epoch = 3;
  authorized = entry ∷ [];
}

abbrev pub attempt : Attempt
attempt = record { now = 10; save_fails = false }

abbrev pub standing : AuthorizedDevice
standing = view_of entry signed

pub standing_found : authorized_device codec store phone ≡ ok standing
unfolding authorized_device search authorization_view id_of dec_bytes
standing_found = refl

abbrev pub gone : AuthorizedDevice
gone = record standing {
  authorization_version = 2;
  state = revoked;
  revoked_at = some 10;
  revocation_epoch = 4;
}

pub phone_revoked : (revoke codec attempt store phone).1 ≡ ok gone
unfolding revoke revoke_found search authorization_view id_of persist withdrawn validate_state
    valid_agent signed_descriptor_locked agent_options new_signed_descriptor sign_encoded
    valid_records valid_device verify_signed_descriptor verify_descriptor validate_descriptor
    check_signature is_trimmed dec_bytes
phone_revoked = refl

-- The tablet is authorized after the phone has been revoked.
tablet_stands :
    (authorize codec attempt
      (revoke codec attempt store phone).0
      tablet_signed).0.authorization_counter
    ≡ 3
unfolding authorize check_authorize authorize_checked authorize_found grant granted search revoke
    revoke_found authorization_view id_of persist withdrawn validate_state valid_agent
    signed_descriptor_locked agent_options new_signed_descriptor sign_encoded valid_records
    valid_device verify_signed_descriptor verify_descriptor validate_descriptor check_signature
    check_versions check_ends is_trimmed dec_bytes
tablet_stands = refl

abbrev ops : List Op
ops =
    revokes attempt phone ∷ authorizes attempt tablet_signed ∷ revokes attempt (repeated 16 8) ∷ []

stamps_refused_example :
    store_authorizer
      (some (run codec (revoke codec attempt store phone).0 ops).revocation_epoch)
      phone
      3
    ≢ ok tt
stamps_refused_example =
    stamps_refused codec attempt store phone phone standing gone ops 3 standing_found refl
      phone_revoked (omega arith)
