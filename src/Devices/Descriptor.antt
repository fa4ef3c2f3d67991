-- ===== src/Devices/Descriptor.antt =====
-- internal/deviceidentity/descriptor.go: the making and the check of a signed device descriptor.
-- Ed25519, X25519, SHA-256 and the Protobuf encoder are parameters. Times are nanoseconds since Go's zero time.
use vibe_bridge.Base.{
  ◌-◌, take, if◌then◌else◌, ℕ, ◌*◌, Bool, true, false, not, ◌&&◌, [], ◌∷◌, ◌++◌, Option, none, some,
  Bytes, ltb, leb, ◌==◌, length, is_empty, Result, ok, err, ◌>>◌, require, dec_bytes, ite,
}
use vibe_bridge.Base.Hex.{encode_to_string}
use vibe_bridge.Base.Trim.{is_trimmed}
use vibe_bridge.Protocol.Envelope.{ProtocolVersion, ProtocolVersionRange}
use vibe_bridge.Pairing.Invitation.{DeviceClass, class_unspecified, agent, client}

abbrev pub device_id_bytes : ℕ
device_id_bytes = 16

abbrev key_agreement_bytes : ℕ
key_agreement_bytes = 32

abbrev max_display_name_bytes : ℕ
max_display_name_bytes = 128

abbrev max_platform_bytes : ℕ
max_platform_bytes = 32

-- The end of the year 9999, up to which a timestamp is valid.
abbrev max_time : ℕ
max_time = 315537897600 * 1000000000

pub record DeviceDescriptor : Type 0 where
  pub device_id : Bytes
  pub display_name : Bytes
  pub platform : Bytes
  pub device_class : DeviceClass
  pub signing_public_key : Bytes
  pub key_agreement_public_key : Bytes
  pub created_at : Option ℕ
  pub key_version : ℕ
  pub supported_versions : Option ProtocolVersionRange

pub record SignedDeviceDescriptor : Type 0 where
  pub device_descriptor : Option DeviceDescriptor
  pub signature : Bytes

-- `none` of a marshalling is an error; `decode` is `proto.Unmarshal`, and `equal` `proto.Equal`.
-- `x25519_public` is the public key of a private one, `none` if the private key is refused.
pub record Codec : Type 0 where
  pub marshal_descriptor : DeviceDescriptor → Option Bytes
  pub marshal : SignedDeviceDescriptor → Option Bytes
  pub decode : Bytes → Option SignedDeviceDescriptor
  pub equal : SignedDeviceDescriptor → SignedDeviceDescriptor → Bool
  pub x25519_public_key : Bytes → Bool
  pub ed25519_verify : Bytes → Bytes → Bytes → Bool
  pub ed25519_sign : Bytes → Bytes → Bytes
  pub ed25519_public : Bytes → Bytes
  pub ed25519_from_seed : Bytes → Bytes
  pub x25519_public : Bytes → Option Bytes
  pub sha256 : Bytes → Bytes

pub data DescriptorError : Type 0 where
  descriptor_required id_size signing_key_size agreement_key_size agreement_key_invalid :
      DescriptorError
  display_name_invalid platform_invalid class_invalid created_at_invalid : DescriptorError
  key_version_invalid versions_required versions_invalid : DescriptorError
  signature_size encode_failed signature_invalid key_mismatch : DescriptorError

abbrev known_class : DeviceClass → Bool
known_class class_unspecified = false
known_class agent = true
known_class client = true

abbrev valid_time : Option ℕ → Bool
valid_time none = false
valid_time (some t) = ltb 0 t && ltb t max_time

abbrev valid_text : Bytes → ℕ → Bool
valid_text s limit = is_trimmed s && not (is_empty s) && leb (length s) limit

-- The ends of the version range.
unfoldable pub check_ends :
    Option ProtocolVersion → Option ProtocolVersion → Result DescriptorError (Unit {0})
check_ends none maximum = err versions_required
check_ends (some low) none = err versions_required
check_ends (some low) (some high) =
    require (not (low.major == 0) && low.major == high.major && leb low.minor high.minor)
      versions_invalid

unfoldable pub check_versions : Option ProtocolVersionRange → Result DescriptorError (Unit {0})
unfolding check_ends
check_versions none = err versions_required
check_versions (some r) = check_ends r.minimum r.maximum

unfoldable pub validate_descriptor : Codec → DeviceDescriptor → Result DescriptorError (Unit {0})
unfolding check_versions
validate_descriptor c d =
    require (length d.device_id == device_id_bytes) id_size
    >> require (length d.signing_public_key == 32) signing_key_size
    >> require (length d.key_agreement_public_key == key_agreement_bytes) agreement_key_size
    >> require (c.x25519_public_key d.key_agreement_public_key) agreement_key_invalid
    >> require (valid_text d.display_name max_display_name_bytes) display_name_invalid
    >> require (valid_text d.platform max_platform_bytes) platform_invalid
    >> require (known_class d.device_class) class_invalid
    >> require (valid_time d.created_at) created_at_invalid
    >> require (not (d.key_version == 0)) key_version_invalid
    >> check_versions d.supported_versions

-- "VibeBridge device descriptor v1\x00".
abbrev descriptor_signature_domain : Bytes
descriptor_signature_domain =
    86 ∷ 105 ∷ 98 ∷ 101 ∷ 66 ∷ 114 ∷ 105 ∷ 100 ∷ 103 ∷ 101 ∷ 32 ∷ 100 ∷ 101 ∷ 118 ∷ 105 ∷ 99 ∷ 101
    ∷ 32 ∷ 100 ∷ 101 ∷ 115 ∷ 99 ∷ 114 ∷ 105 ∷ 112 ∷ 116 ∷ 111 ∷ 114 ∷ 32 ∷ 118 ∷ 49 ∷ 0 ∷ []

unfoldable pub check_signature :
    Codec → DeviceDescriptor → Bytes → Option Bytes → Result DescriptorError (Unit {0})
check_signature c d mark none = err encode_failed
check_signature c d mark (some encoded) =
    require (c.ed25519_verify d.signing_public_key (descriptor_signature_domain ++ encoded) mark)
      signature_invalid

unfoldable pub verify_descriptor :
    Codec → Bytes → Option DeviceDescriptor → Result DescriptorError DeviceDescriptor
unfolding validate_descriptor check_signature
verify_descriptor c mark none = err descriptor_required
verify_descriptor c mark (some d) =
    validate_descriptor c d
    >> require (length mark == 64) signature_size
    >> check_signature c d mark (c.marshal_descriptor d)
    >> ok d

-- The descriptor, if it verifies.
unfoldable pub verify_signed_descriptor :
    Codec → SignedDeviceDescriptor → Result DescriptorError DeviceDescriptor
unfolding verify_descriptor
verify_signed_descriptor c s = verify_descriptor c s.signature s.device_descriptor

pub record DescriptorOptions : Type 0 where
  pub device_id : Bytes
  pub display_name : Bytes
  pub platform : Bytes
  pub device_class : DeviceClass
  pub signing_public_key : Bytes
  pub key_agreement_public_key : Bytes
  pub created_at : ℕ
  pub key_version : ℕ
  pub protocol_major : ℕ
  pub protocol_minor : ℕ

abbrev pub described_by : DescriptorOptions → DeviceDescriptor
described_by o =
    let version : ProtocolVersion = record { major = o.protocol_major; minor = o.protocol_minor } in
    record {
      device_id = o.device_id;
      display_name = o.display_name;
      platform = o.platform;
      device_class = o.device_class;
      signing_public_key = o.signing_public_key;
      key_agreement_public_key = o.key_agreement_public_key;
      created_at = some o.created_at;
      key_version = o.key_version;
      supported_versions = some (record { minimum = some version; maximum = some version });
    }

-- With the descriptor encoded, or not.
unfoldable pub sign_encoded :
    Codec → DeviceDescriptor → Bytes → Option Bytes → Result DescriptorError SignedDeviceDescriptor
sign_encoded c d key none = err encode_failed
sign_encoded c d key (some encoded) = ok (record {
  device_descriptor = some d;
  signature = c.ed25519_sign key (descriptor_signature_domain ++ encoded);
})

unfoldable pub new_signed_descriptor :
    Codec → DescriptorOptions → Bytes → Result DescriptorError SignedDeviceDescriptor
unfolding validate_descriptor sign_encoded
new_signed_descriptor c o key =
    validate_descriptor c (described_by o)
    >> require
        (length key == 64 && ite (dec_bytes (c.ed25519_public key) o.signing_public_key) true false)
        key_mismatch
    >> sign_encoded c (described_by o) key (c.marshal_descriptor (described_by o))

-- `strings.ToUpper`, of hexadecimal digits.
abbrev to_upper : Bytes → Bytes
to_upper [] = []
to_upper (b ∷ s) = (if leb 97 b && leb b 122 then b - 32 else b) ∷ to_upper s

abbrev printed : Codec → Option Bytes → Option Bytes
printed c none = none
printed c (some encoded) = some (to_upper (encode_to_string (take 6 (c.sha256 encoded))))

unfoldable pub fingerprint : Codec → SignedDeviceDescriptor → Option Bytes
unfolding verify_signed_descriptor
fingerprint c s = elim (verify_signed_descriptor c s) [
  | err e ↦ none
  | ok d ↦ printed c (c.marshal_descriptor d)
]
