-- ===== src/Protocol/Stream.antt =====
-- internal/protocol/stream.go: the ordering state of one connection, and what it asks of an inbound
-- envelope. The Protobuf wire format is a pair of functions that the operations take.
pub mod Decode
pub mod Encode
pub mod Chunk
pub mod Send
pub mod Accept
pub mod Order
pub mod Run
pub mod Gate
pub mod Opening
pub mod Examples
use vibe_bridge.Base.{
  ℕ, ◌+◌, ◌-◌, ◌*◌, ◌%◌, ◌^◌, Bool, true, false, not, ◌&&◌, ◌||◌, List, [], ◌∷◌, ◌++◌, Option, none,
  some, Bytes, dec_bytes, ite, ltb, leb, ◌==◌, if◌then◌else◌, length, Result, ok, err, is_empty,
}
use vibe_bridge.Protocol.Envelope.{
  Envelope, Payload, attach_session, current_major, current_minor, connection_id_bytes,
}
use vibe_bridge.Protocol.Names.{
  capability_session_resume, capability_terminal_resize_end, capability_session_process_exit,
  capability_control_error, capability_control_health, capability_attachment_transfer,
  capability_attachment_prompt_action,
}
use vibe_bridge.Protocol.Negotiation.{NegotiatedHello, has_capability}
use vibe_bridge.Protocol.Message.{ClientStreamMessage, is_ping}

abbrev pub u64 : ℕ → ℕ
u64 n = n % 2 ^ 64

-- The capabilities that the stream looks up in the negotiated Hello.
pub record Capabilities : Type 0 where
  pub session_resume : Bool
  pub terminal_resize_end : Bool
  pub session_process_exit : Bool
  pub control_error : Bool
  pub control_health : Bool
  pub attachment_transfer : Bool
  pub attachment_prompt_action : Bool

pub record AgentStream : Type 0 where
  pub connection_id : Bytes
  pub peer_max_envelope_size : ℕ
  pub next_outbound : ℕ
  pub next_inbound : ℕ
  pub highest_inbound : ℕ
  pub highest_peer_ack : ℕ
  pub pending_ping_sequences : List ℕ
  pub capabilities : Capabilities
  pub open capabilities use *
  pub session_bound : Bool
  pub session_id : Bytes
  pub session_generation : ℕ

-- One constructor for each refusal of stream.go.
pub data Error : Type 0 where
  connection_id_size peer_limit_zero : Error
  envelope_size envelope_undecodable unsupported_version connection_mismatch : Error
  session_mismatch attach_required attach_metadata fresh_with_cursor : Error
  unexpected_session_metadata sequence_mismatch acknowledgement_invalid : Error
  attach_not_valid terminal_input_size dimensions_out_of_range not_negotiated : Error
  invalid_metadata duplicate_transfer unsupported_payload : Error
  commit_out_of_order already_bound attach_not_committed identity_invalid : Error
  empty_output not_bound disposition_invalid offset_not_allowed preview_invalid : Error
  code_invalid error_before_binding no_pending_ping : Error
  encode_failed envelope_too_large limit_too_small : Error

-- The stream right after the Hello.
pub opening : NegotiatedHello → AgentStream
opening h = record {
  connection_id = h.connection_id;
  peer_max_envelope_size = h.peer_max_envelope_bytes;
  next_outbound = 2;
  next_inbound = 2;
  highest_inbound = 1;
  highest_peer_ack = 0;
  pending_ping_sequences = [];
  capabilities = record {
    session_resume = has_capability h capability_session_resume;
    terminal_resize_end = has_capability h capability_terminal_resize_end;
    session_process_exit = has_capability h capability_session_process_exit;
    control_error = has_capability h capability_control_error;
    control_health = has_capability h capability_control_health;
    attachment_transfer = has_capability h capability_attachment_transfer;
    attachment_prompt_action = has_capability h capability_attachment_prompt_action;
  };
  session_bound = false;
  session_id = [];
  session_generation = 0;
}

pub new_agent_stream : NegotiatedHello → Result Error AgentStream
new_agent_stream h =
    if not (length h.connection_id == connection_id_bytes)
    then err connection_id_size
    else if h.peer_max_envelope_bytes == 0
    then err peer_limit_zero
    else ok (opening h)

abbrev pub same_bytes : Bytes → Bytes → Bool
same_bytes a b = ite (dec_bytes a b) true false

abbrev pub attach_cursor : Payload → Option ℕ
attach_cursor (attach_session n) = some n
attach_cursor _ = none

-- The session part of `validateInboundEnvelope`; `none` is acceptance.
pub session_check : AgentStream → Envelope → Option Error
session_check s e =
    if s.session_resume
    then if s.session_bound
      then if same_bytes e.session_id s.session_id && e.session_generation == s.session_generation
        then none
        else some session_mismatch
      else elim (attach_cursor e.payload) [
        | none ↦ some attach_required
        | some cursor ↦
            let fresh = is_empty e.session_id && e.session_generation == 0 in
            let resume = length e.session_id == connection_id_bytes && ltb 0 e.session_generation in
            if not fresh && not resume
            then some attach_metadata
            else if fresh && not (cursor == 0)
            then some fresh_with_cursor
            else none
      ]
    else if not (is_empty e.session_id) || not (e.session_generation == 0)
    then some unexpected_session_metadata
    else none

pub order_check : AgentStream → Envelope → Option Error
order_check s e =
    if not (e.sequence == s.next_inbound)
    then some sequence_mismatch
    else if ltb e.acknowledge s.highest_peer_ack || leb s.next_outbound e.acknowledge
    then some acknowledgement_invalid
    else none

pub validate_inbound_envelope : AgentStream → Envelope → Option Error
unfolding session_check order_check
validate_inbound_envelope s e =
    if not (e.protocol_major == current_major) || not (e.protocol_minor == current_minor)
    then some unsupported_version
    else if not (same_bytes e.connection_id s.connection_id)
    then some connection_mismatch
    else elim (session_check s e) [ some x ↦ some x | none ↦ order_check s e ]

pub commit_client_message : AgentStream → ClientStreamMessage → Result Error AgentStream
commit_client_message s m =
    if not (m.sequence == s.next_inbound)
    then err commit_out_of_order
    else ok (record s {
      highest_inbound = m.sequence;
      next_inbound = u64 (s.next_inbound + 1);
      pending_ping_sequences =
          if is_ping m.kind
          then s.pending_ping_sequences ++ (m.sequence ∷ [])
          else s.pending_ping_sequences;
    })

pub bind_session : AgentStream → Bytes → ℕ → Result Error AgentStream
bind_session s id generation =
    if not s.session_resume
    then err not_negotiated
    else if s.session_bound
    then err already_bound
    else if ltb s.highest_inbound 2
    then err attach_not_committed
    else if not (length id == connection_id_bytes) || generation == 0
    then err identity_invalid
    else ok (record s { session_id = id; session_generation = generation; session_bound = true })

pub highest_outbound_sequence : AgentStream → ℕ
highest_outbound_sequence s = u64 (s.next_outbound + 2 ^ 64 - 1)
