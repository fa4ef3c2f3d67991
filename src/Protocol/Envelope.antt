-- ===== src/Protocol/Envelope.antt =====
-- gen/go/vibebridge/v1/envelope.pb.go: the messages, as the code that handles them reads them. A
-- message that the code tests for nil is an `Option`. The wire format is a parameter of the stream.
use vibe_bridge.Base.{ℕ, ◌*◌, Bool, List, Option, Bytes}

pub record AttachmentBegin : Type 0 where
  pub transfer_id : Bytes
  pub display_name : Bytes
  pub declared_content_type : Bytes
  pub declared_extension : Bytes
  pub total_size_bytes : ℕ
  pub total_sha256 : Bytes

pub record AttachmentChunk : Type 0 where
  pub transfer_id : Bytes
  pub offset_bytes : ℕ
  pub content : Bytes
  pub chunk_sha256 : Bytes

pub record AttachmentPromptPrepare : Type 0 where
  pub action_id : Bytes
  pub transfer_ids : List Bytes
  pub prompt : Bytes
  pub append_enter : Bool

pub data ResumeDisposition : Type 0 where
  resume_unspecified fresh resumed resync_required : ResumeDisposition

pub data ProcessExitOutcome : Type 0 where
  outcome_unspecified success failure : ProcessExitOutcome

pub data ErrorCode : Type 0 where
  code_unspecified session_start_failed session_already_active terminal_input_failed : ErrorCode
  terminal_resize_failed unsupported_message attachment_transfer_failed : ErrorCode
  attachment_prompt_action_failed : ErrorCode

pub data AttachmentTransferDisposition : Type 0 where
  transfer_unspecified unknown active completed cancelled : AttachmentTransferDisposition

pub data AttachmentPromptDisposition : Type 0 where
  prompt_unspecified prepared committed : AttachmentPromptDisposition

pub record AttachmentTransferStatus : Type 0 where
  pub transfer_id : Bytes
  pub disposition : AttachmentTransferDisposition
  pub next_offset_bytes : ℕ

pub record AttachmentPromptPreview : Type 0 where
  pub action_id : Bytes
  pub disposition : AttachmentPromptDisposition
  pub preview : Bytes
  pub append_enter : Bool

pub data PeerRole : Type 0 where
  role_unspecified agent_role client_role relay_role : PeerRole
  other_role : ℕ → PeerRole

pub record ProtocolVersion : Type 0 where
  pub major : ℕ
  pub minor : ℕ

pub record ProtocolVersionRange : Type 0 where
  pub minimum : Option ProtocolVersion
  pub maximum : Option ProtocolVersion

pub record Hello : Type 0 where
  pub peer_role : PeerRole
  pub supported_versions : Option ProtocolVersionRange
  pub capabilities : List Bytes
  pub max_envelope_bytes : ℕ
  pub device_id : Bytes
  pub public_key_fingerprint : Bytes
  pub revocation_epoch : ℕ

-- The `oneof payload`; `other` stands for no payload and for those that the stream does not name.
pub data Payload : Type 0 where
  hello : Option Hello → Payload
  attach_session : ℕ → Payload
  terminal_input : Bytes → Payload
  terminal_resize : ℕ → ℕ → Payload
  end_session acknowledgement ping : Payload
  attachment_begin : Option AttachmentBegin → Payload
  attachment_chunk : Option AttachmentChunk → Payload
  attachment_complete : Option Bytes → Payload
  attachment_cancel : Option Bytes → Payload
  attachment_discard : Option (List Bytes) → Payload
  attachment_transfer_status_request : Option Bytes → Payload
  attachment_prompt_prepare : Option AttachmentPromptPrepare → Payload
  attachment_prompt_commit : Option Bytes → Payload
  attachment_prompt_cancel : Option Bytes → Payload
  terminal_output : Bytes → Payload
  session_status : ResumeDisposition → Payload
  process_exit : ProcessExitOutcome → Payload
  attachment_transfer_status : AttachmentTransferStatus → Payload
  attachment_prompt_preview : AttachmentPromptPreview → Payload
  error : ErrorCode → Payload
  pong : Payload
  other : Payload

pub record Envelope : Type 0 where
  pub protocol_major : ℕ
  pub protocol_minor : ℕ
  pub connection_id : Bytes
  pub session_id : Bytes
  pub session_generation : ℕ
  pub sequence : ℕ
  pub acknowledge : ℕ
  pub sent_at : ℕ
  pub payload : Payload

abbrev pub current_major : ℕ
current_major = 1

abbrev pub current_minor : ℕ
current_minor = 0

abbrev pub max_envelope_bytes : ℕ
max_envelope_bytes = 64 * 1024

abbrev pub connection_id_bytes : ℕ
connection_id_bytes = 16
