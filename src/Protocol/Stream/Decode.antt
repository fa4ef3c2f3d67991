-- ===== src/Protocol/Stream/Decode.antt =====
-- internal/protocol/stream.go, DecodeClientMessage: from the bytes of an envelope to a message. The
-- switch on the payload has one function for each family of payloads.
use vibe_bridge.Base.{
  ℕ, ◌*◌, Bool, true, false, not, ◌&&◌, ◌||◌, List, [], ◌∷◌, Option, none, some, Bytes, dec_bytes,
  ite, ltb, leb, ◌==◌, if◌then◌else◌, length, Result, ok, err,
}
use vibe_bridge.Protocol.Envelope.{
  Envelope, Payload, AttachmentBegin, AttachmentChunk, AttachmentPromptPrepare, max_envelope_bytes,
}
use vibe_bridge.Protocol.Message.{ClientStreamMessage, Kind, message}
use vibe_bridge.Protocol.Stream.{
  AgentStream, Error, validate_inbound_envelope, envelope_size, envelope_undecodable,
  attach_not_valid, terminal_input_size, not_negotiated, dimensions_out_of_range, invalid_metadata,
  duplicate_transfer, unsupported_payload,
}

abbrev pub max_terminal_input_bytes : ℕ
max_terminal_input_bytes = 32 * 1024

abbrev pub max_terminal_dimension : ℕ
max_terminal_dimension = 65535

abbrev pub max_attachment_prompt_bytes : ℕ
max_attachment_prompt_bytes = 32 * 1024

abbrev pub max_attachment_prompt_transfers : ℕ
max_attachment_prompt_transfers = 10

abbrev pub max_attachment_discard_transfers : ℕ
max_attachment_discard_transfers = 10

abbrev pub sha256_size : ℕ
sha256_size = 32

-- maxAttachmentTransferIDBytes and maxAttachmentPromptActionIDBytes are both 64.
unfoldable pub valid_attachment_transfer_id : Bytes → Bool
valid_attachment_transfer_id id = ltb 0 (length id) && leb (length id) 64

unfoldable pub valid_attachment_prompt_action_id : Bytes → Bool
valid_attachment_prompt_action_id id = ltb 0 (length id) && leb (length id) 64

abbrev pub Decoded : Type 0
Decoded = Result Error ClientStreamMessage

abbrev pub member : Bytes → List Bytes → Bool
member k [] = false
member k (j ∷ js) = ite (dec_bytes j k) true (member k js)

-- The loop over the IDs of a discard: each valid, and none seen before.
pub check_discard : List Bytes → List Bytes → Option Error
unfolding valid_attachment_transfer_id
check_discard seen [] = none
check_discard seen (id ∷ ids) =
    let rest = check_discard (id ∷ seen) ids in
    if not (valid_attachment_transfer_id id)
    then some invalid_metadata
    else if member id seen
    then some duplicate_transfer
    else rest

-- The loop over the IDs of a prompt action.
pub check_transfer_ids : List Bytes → Option Error
unfolding valid_attachment_transfer_id
check_transfer_ids [] = none
check_transfer_ids (id ∷ ids) =
    let rest = check_transfer_ids ids in
    if not (valid_attachment_transfer_id id) then some invalid_metadata else rest

pub unless : Option Error → ClientStreamMessage → Decoded
unless none m = ok m
unless (some x) m = err x

pub decode_begin : ℕ → Option AttachmentBegin → Decoded
unfolding valid_attachment_transfer_id
decode_begin n none = err invalid_metadata
decode_begin n (some b) =
    if not (valid_attachment_transfer_id b.transfer_id)
      || b.total_size_bytes == 0
      || not (length b.total_sha256 == sha256_size)
    then err invalid_metadata
    else ok (record (message Kind.attachment_begin n) {
      transfer_id = b.transfer_id;
      display_name = b.display_name;
      declared_content_type = b.declared_content_type;
      declared_extension = b.declared_extension;
      total_size_bytes = b.total_size_bytes;
      total_sha256 = b.total_sha256;
    })

pub decode_chunk : ℕ → Option AttachmentChunk → Decoded
unfolding valid_attachment_transfer_id
decode_chunk n none = err invalid_metadata
decode_chunk n (some c) =
    if not (valid_attachment_transfer_id c.transfer_id)
      || length c.content == 0
      || not (length c.chunk_sha256 == sha256_size)
    then err invalid_metadata
    else ok (record (message Kind.attachment_chunk n) {
      transfer_id = c.transfer_id;
      offset_bytes = c.offset_bytes;
      content = c.content;
      chunk_sha256 = c.chunk_sha256;
    })

-- Complete, cancel and status request carry a transfer ID only.
pub decode_transfer : Kind → ℕ → Option Bytes → Decoded
unfolding valid_attachment_transfer_id
decode_transfer kind n none = err invalid_metadata
decode_transfer kind n (some id) =
    if not (valid_attachment_transfer_id id)
    then err invalid_metadata
    else ok (record (message kind n) { transfer_id = id })

pub decode_discard : ℕ → Option (List Bytes) → Decoded
unfolding unless check_discard
decode_discard n none = err invalid_metadata
decode_discard n (some ids) =
    if length ids == 0 || ltb max_attachment_discard_transfers (length ids)
    then err invalid_metadata
    else unless (check_discard [] ids)
        (record (message Kind.attachment_discard n) { transfer_ids = ids })

pub decode_prepare : ℕ → Option AttachmentPromptPrepare → Decoded
unfolding unless check_transfer_ids valid_attachment_prompt_action_id
decode_prepare n none = err invalid_metadata
decode_prepare n (some p) =
    if not (valid_attachment_prompt_action_id p.action_id)
      || length p.transfer_ids == 0
      || ltb max_attachment_prompt_transfers (length p.transfer_ids)
      || length p.prompt == 0
      || ltb max_attachment_prompt_bytes (length p.prompt)
    then err invalid_metadata
    else unless (check_transfer_ids p.transfer_ids)
        (record (message Kind.attachment_prompt_prepare n) {
          action_id = p.action_id;
          transfer_ids = p.transfer_ids;
          prompt = p.prompt;
          append_enter = p.append_enter;
        })

pub decode_action : Kind → ℕ → Option Bytes → Decoded
unfolding valid_attachment_prompt_action_id
decode_action kind n none = err invalid_metadata
decode_action kind n (some id) =
    if not (valid_attachment_prompt_action_id id)
    then err invalid_metadata
    else ok (record (message kind n) { action_id = id })

pub in_dimension : ℕ → Bool
in_dimension n = not (n == 0) && leb n max_terminal_dimension

pub decode_attach : AgentStream → Envelope → ℕ → Decoded
decode_attach s e cursor =
    if not s.session_resume || s.session_bound
    then err attach_not_valid
    else ok (record (message Kind.attach_session e.sequence) {
      session_id = e.session_id;
      session_generation = e.session_generation;
      last_acknowledged_sequence = cursor;
    })

pub decode_input : ℕ → Bytes → Decoded
decode_input n content =
    if length content == 0 || ltb max_terminal_input_bytes (length content)
    then err terminal_input_size
    else ok (record (message Kind.terminal_input n) { content = content })

pub decode_resize : ℕ → ℕ → ℕ → Decoded
unfolding in_dimension
decode_resize n columns rows =
    if not (in_dimension columns) || not (in_dimension rows)
    then err dimensions_out_of_range
    else ok (record (message Kind.terminal_resize n) { columns = columns; rows = rows })

pub negotiated : Bool → Decoded → Decoded
negotiated true d = d
negotiated false d = err not_negotiated

-- The switch on the payload.
unfoldable pub decode_payload : AgentStream → Envelope → Payload → Decoded
unfolding decode_attach decode_input decode_resize decode_begin decode_chunk decode_transfer
    decode_discard decode_prepare decode_action negotiated
decode_payload s e (Payload.attach_session cursor) = decode_attach s e cursor
decode_payload s e (Payload.terminal_input content) = decode_input e.sequence content
decode_payload s e (Payload.terminal_resize columns rows) =
    negotiated s.terminal_resize_end (decode_resize e.sequence columns rows)
decode_payload s e Payload.end_session =
    negotiated s.terminal_resize_end (ok (message Kind.end_session e.sequence))
decode_payload s e Payload.acknowledgement = ok (message Kind.acknowledgement e.sequence)
decode_payload s e Payload.ping = negotiated s.control_health (ok (message Kind.ping e.sequence))
decode_payload s e (Payload.attachment_begin p) =
    negotiated s.attachment_transfer (decode_begin e.sequence p)
decode_payload s e (Payload.attachment_chunk p) =
    negotiated s.attachment_transfer (decode_chunk e.sequence p)
decode_payload s e (Payload.attachment_complete p) =
    negotiated s.attachment_transfer (decode_transfer Kind.attachment_complete e.sequence p)
decode_payload s e (Payload.attachment_cancel p) =
    negotiated s.attachment_transfer (decode_transfer Kind.attachment_cancel e.sequence p)
decode_payload s e (Payload.attachment_discard p) =
    negotiated s.attachment_transfer (decode_discard e.sequence p)
decode_payload s e (Payload.attachment_transfer_status_request p) =
    negotiated s.attachment_transfer
      (decode_transfer Kind.attachment_transfer_status_request e.sequence p)
decode_payload s e (Payload.attachment_prompt_prepare p) =
    negotiated s.attachment_prompt_action (decode_prepare e.sequence p)
decode_payload s e (Payload.attachment_prompt_commit p) =
    negotiated s.attachment_prompt_action (decode_action Kind.attachment_prompt_commit e.sequence p)
decode_payload s e (Payload.attachment_prompt_cancel p) =
    negotiated s.attachment_prompt_action (decode_action Kind.attachment_prompt_cancel e.sequence p)
decode_payload s e _ = err unsupported_payload

-- An acknowledgement is kept once the envelope and the payload are accepted.
pub finish_decode : AgentStream → Envelope → Decoded → AgentStream × Decoded
finish_decode s e (ok m) = (record s { highest_peer_ack = e.acknowledge }, ok m)
finish_decode s e (err x) = (s, err x)

pub decode_envelope : AgentStream → Envelope → AgentStream × Decoded
unfolding finish_decode
decode_envelope s e = elim (validate_inbound_envelope s e) [
  | some x ↦ (s, err x)
  | none ↦ finish_decode s e (decode_payload s e e.payload)
]

unfoldable pub decode_client_message :
    (Bytes → Option Envelope) → AgentStream → Bytes → AgentStream × Decoded
unfolding decode_envelope
decode_client_message unmarshal s encoded =
    if length encoded == 0 || ltb max_envelope_bytes (length encoded)
    then (s, err envelope_size)
    else elim (unmarshal encoded) [
      | none ↦ (s, err envelope_undecodable)
      | some e ↦ decode_envelope s e
    ]
