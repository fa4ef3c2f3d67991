-- ===== src/Protocol/Message.antt =====
-- internal/protocol/stream.go: a decoded client message.
use vibe_bridge.Base.{ℕ, Bool, true, false, List, [], Bytes}

pub data Kind : Type 0 where
  attach_session terminal_input terminal_resize end_session acknowledgement ping : Kind
  attachment_begin attachment_chunk attachment_complete attachment_cancel : Kind
  attachment_discard attachment_transfer_status_request : Kind
  attachment_prompt_prepare attachment_prompt_commit attachment_prompt_cancel : Kind

pub record ClientStreamMessage : Type 0 where
  pub kind : Kind
  pub sequence : ℕ
  pub content : Bytes
  pub session_id : Bytes
  pub session_generation : ℕ
  pub last_acknowledged_sequence : ℕ
  pub columns : ℕ
  pub rows : ℕ
  pub transfer_id : Bytes
  pub display_name : Bytes
  pub declared_content_type : Bytes
  pub declared_extension : Bytes
  pub total_size_bytes : ℕ
  pub total_sha256 : Bytes
  pub offset_bytes : ℕ
  pub chunk_sha256 : Bytes
  pub action_id : Bytes
  pub transfer_ids : List Bytes
  pub prompt : Bytes
  pub append_enter : Bool

-- A message with its kind and sequence, and the zero value in every other field.
abbrev pub message : Kind → ℕ → ClientStreamMessage
message kind sequence = record {
  kind = kind;
  sequence = sequence;
  content = [];
  session_id = [];
  session_generation = 0;
  last_acknowledged_sequence = 0;
  columns = 0;
  rows = 0;
  transfer_id = [];
  display_name = [];
  declared_content_type = [];
  declared_extension = [];
  total_size_bytes = 0;
  total_sha256 = [];
  offset_bytes = 0;
  chunk_sha256 = [];
  action_id = [];
  transfer_ids = [];
  prompt = [];
  append_enter = false;
}

abbrev pub is_ping : Kind → Bool
is_ping ping = true
is_ping _ = false
