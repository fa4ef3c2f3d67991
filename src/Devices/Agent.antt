-- ===== src/Devices/Agent.antt =====
-- internal/deviceidentity/store.go: the Agent's own signed descriptor, made from its keys.
use vibe_bridge.Base.{Bytes, none, some, Result, err}
use vibe_bridge.Protocol.Envelope.{current_major, current_minor}
use vibe_bridge.Devices.Descriptor.{
  SignedDeviceDescriptor, Codec, DescriptorError, agreement_key_invalid, DescriptorOptions,
  new_signed_descriptor,
}
use vibe_bridge.Devices.Records.{Store}

unfoldable pub agent_options : Codec → Store → Bytes → DescriptorOptions
agent_options c s agreement_key = record {
  device_id = s.device_id;
  display_name = s.display_name;
  platform = s.platform;
  device_class = s.device_class;
  signing_public_key = c.ed25519_public s.signing_private_key;
  key_agreement_public_key = agreement_key;
  created_at = s.created_at;
  key_version = s.key_version;
  protocol_major = current_major;
  protocol_minor = current_minor;
}

-- `Descriptor`, and `signedDescriptorLocked` under its lock.
unfoldable pub signed_descriptor_locked :
    Codec → Store → Result DescriptorError SignedDeviceDescriptor
unfolding agent_options new_signed_descriptor
signed_descriptor_locked c s = elim (c.x25519_public s.key_agreement_private_key) [
  | none ↦ err agreement_key_invalid
  | some k ↦ new_signed_descriptor c (agent_options c s k) s.signing_private_key
]
