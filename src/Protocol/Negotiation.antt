-- ===== src/Protocol/Negotiation.antt =====
-- internal/protocol/negotiation.go: what the Agent asks of a client's Hello, and the Hello that it
-- sends itself. The Protobuf decoder is a parameter.
pub mod Accepted
pub mod Examples
use vibe_bridge.Base.{
  ℕ, Bool, true, false, not, ◌&&◌, ◌||◌, List, [], ◌∷◌, Option, none, some, Bytes, dec_bytes, ite,
  ltb, leb, ◌==◌, if◌then◌else◌, length, Result, ok, err, is_empty,
}
use vibe_bridge.Base.Trim.{is_trimmed}
use vibe_bridge.Protocol.Envelope.{
  Envelope, Payload, Hello, PeerRole, ProtocolVersion, ProtocolVersionRange, client_role,
  agent_role, current_major, current_minor, max_envelope_bytes, connection_id_bytes,
}
use vibe_bridge.Protocol.Names.{
  capability_terminal_binary_output, capability_terminal_sequenced_io,
  capability_terminal_resize_end, capability_session_process_exit, capability_session_resume,
  capability_control_error, capability_control_health, capability_attachment_transfer,
  capability_attachment_prompt_action,
}

abbrev pub max_capabilities : ℕ
max_capabilities = 64

abbrev pub max_capability_len : ℕ
max_capability_len = 128

pub record NegotiatedHello : Type 0 where
  pub major : ℕ
  pub minor : ℕ
  pub peer_max_envelope_bytes : ℕ
  pub connection_id : Bytes
  pub capabilities : List Bytes

pub data Error : Type 0 where
  envelope_size envelope_undecodable unsupported_version connection_id_size : Error
  metadata_invalid hello_missing role_invalid limit_zero : Error
  range_missing range_invalid range_excludes_current : Error
  too_many_capabilities capability_invalid capability_duplicate dependency_missing : Error
  device_id_missing fingerprint_missing : Error

-- Whether a name is in the set of names.
unfoldable pub has : List Bytes → Bytes → Bool
has [] name = false
has (c ∷ cs) name = ite (dec_bytes c name) true (has cs name)

unfoldable pub has_capability : NegotiatedHello → Bytes → Bool
unfolding has
has_capability h name = has h.capabilities name

abbrev pub invalid_name : Bytes → Bool
invalid_name c = is_empty c || ltb max_capability_len (length c) || not (is_trimmed c)

-- The loop over the names, with those that the set has already.
pub check_names : List Bytes → List Bytes → Option Error
check_names seen [] = none
check_names seen (c ∷ cs) =
    let rest = check_names (c ∷ seen) cs in
    if invalid_name c
    then some capability_invalid
    else if has seen c
    then some capability_duplicate
    else rest

-- An advertised capability without the one that it depends on.
abbrev pub lacks : List Bytes → Bytes → Bytes → Bool
lacks caps dependent base = has caps dependent && not (has caps base)

-- The capabilities that need terminal.sequenced_io_v1.
abbrev pub dependents : List Bytes
dependents =
    capability_terminal_resize_end ∷ capability_session_process_exit ∷ capability_control_error
    ∷ capability_control_health ∷ capability_attachment_transfer
    ∷ capability_attachment_prompt_action ∷ []

-- The loop over the dependents.
abbrev pub any_lacks : List Bytes → Bytes → List Bytes → Bool
any_lacks caps base [] = false
any_lacks caps base (d ∷ ds) = lacks caps d base || any_lacks caps base ds

pub dependency_missing_in : List Bytes → Bool
dependency_missing_in caps =
    any_lacks caps capability_terminal_sequenced_io dependents
    || lacks caps capability_attachment_transfer capability_control_error
    || lacks caps capability_attachment_prompt_action capability_attachment_transfer
    || lacks caps capability_attachment_prompt_action capability_control_error

pub version_range_check : ProtocolVersion → ProtocolVersion → Option Error
version_range_check low high =
    if not (low.major == high.major) || not (low.major == current_major) || ltb high.minor low.minor
    then some range_invalid
    else if ltb current_minor low.minor || ltb high.minor current_minor
    then some range_excludes_current
    else none

pub bounds_check : Option ProtocolVersion → Option ProtocolVersion → Option Error
bounds_check none high = some range_missing
bounds_check (some low) none = some range_missing
bounds_check (some low) (some high) = version_range_check low high

pub range_check : Option ProtocolVersionRange → Option Error
range_check none = some range_missing
range_check (some r) = bounds_check r.minimum r.maximum

pub capabilities_check : List Bytes → Option Error
capabilities_check caps =
    if ltb max_capabilities (length caps)
    then some too_many_capabilities
    else elim (check_names [] caps) [
      | some x ↦ some x
      | none ↦ if dependency_missing_in caps then some dependency_missing else none
    ]

pub hello_check : Hello → Option Error
hello_check h = elim h.peer_role [
  | client_role ↦
      if h.max_envelope_bytes == 0
      then some limit_zero
      else elim (range_check h.supported_versions) [
        | some x ↦ some x
        | none ↦ capabilities_check h.capabilities
      ]
  | other ↦ some role_invalid
]

pub accept_hello : Envelope → Hello → Result Error NegotiatedHello
accept_hello e h = elim (hello_check h) [
  | some x ↦ err x
  | none ↦ ok (record {
    major = current_major;
    minor = current_minor;
    peer_max_envelope_bytes = h.max_envelope_bytes;
    connection_id = e.connection_id;
    capabilities = h.capabilities;
  })
]

pub accept_payload : Envelope → Payload → Result Error NegotiatedHello
accept_payload e (Payload.hello (some h)) = accept_hello e h
accept_payload e _ = err hello_missing

pub accept_envelope : Envelope → Result Error NegotiatedHello
accept_envelope e =
    if not (e.protocol_major == current_major) || not (e.protocol_minor == current_minor)
    then err unsupported_version
    else if not (length e.connection_id == connection_id_bytes)
    then err connection_id_size
    else if not (is_empty e.session_id)
        || not (e.session_generation == 0)
        || not (e.sequence == 1)
        || not (e.acknowledge == 0)
    then err metadata_invalid
    else accept_payload e e.payload

pub accept_client_hello : (Bytes → Option Envelope) → Bytes → Result Error NegotiatedHello
accept_client_hello unmarshal encoded =
    if length encoded == 0 || ltb max_envelope_bytes (length encoded)
    then err envelope_size
    else elim (unmarshal encoded) [ none ↦ err envelope_undecodable | some e ↦ accept_envelope e ]

pub record AgentIdentity : Type 0 where
  pub device_id : Bytes
  pub public_key_fingerprint : Bytes
  pub revocation_epoch : ℕ

pub validate_agent_identity : AgentIdentity → Option Error
validate_agent_identity i =
    if is_empty i.device_id
    then some device_id_missing
    else if is_empty i.public_key_fingerprint
    then some fingerprint_missing
    else none

abbrev current_version : ProtocolVersion
current_version = record { major = current_major; minor = current_minor }

-- What the Agent advertises, without an identity.
abbrev pub agent_hello : Hello
agent_hello = record {
  peer_role = agent_role;
  supported_versions =
      some (record { minimum = some current_version; maximum = some current_version });
  capabilities =
      capability_terminal_binary_output ∷ capability_terminal_sequenced_io
      ∷ capability_terminal_resize_end ∷ capability_session_process_exit ∷ capability_session_resume
      ∷ capability_control_error ∷ capability_control_health ∷ capability_attachment_transfer
      ∷ capability_attachment_prompt_action ∷ [];
  max_envelope_bytes = max_envelope_bytes;
  device_id = [];
  public_key_fingerprint = [];
  revocation_epoch = 0;
}

pub identified : Option AgentIdentity → Result Error Hello
unfolding validate_agent_identity
identified none = ok agent_hello
identified (some i) = elim (validate_agent_identity i) [
  | some x ↦ err x
  | none ↦ ok (record agent_hello {
    device_id = i.device_id;
    public_key_fingerprint = i.public_key_fingerprint;
    revocation_epoch = i.revocation_epoch;
  })
]

abbrev pub hello_envelope : Bytes → ℕ → Hello → Envelope
hello_envelope connection_id sent_at h = record {
  protocol_major = current_major;
  protocol_minor = current_minor;
  connection_id = connection_id;
  session_id = [];
  session_generation = 0;
  sequence = 1;
  acknowledge = 0;
  sent_at = sent_at;
  payload = Payload.hello (some h);
}

pub new_agent_hello : Bytes → ℕ → ℕ → ℕ → Option AgentIdentity → Result Error Envelope
unfolding identified
new_agent_hello connection_id major minor sent_at identity =
    if not (length connection_id == connection_id_bytes)
    then err connection_id_size
    else if not (major == current_major) || not (minor == current_minor)
    then err unsupported_version
    else elim (identified identity) [
      | err x ↦ err x
      | ok h ↦ ok (hello_envelope connection_id sent_at h)
    ]
