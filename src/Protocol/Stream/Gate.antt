-- ===== src/Protocol/Stream/Gate.antt =====
-- internal/protocol/stream.go: nothing passes that was not negotiated, and little before a session
-- is bound.
use vibe_bridge.Base.{ℕ, ◌≡◌, Bool, true, false, Option, none, some, Bytes, arith, ok, ◌⊎◌}
use vibe_bridge.Protocol.Envelope.{Envelope, Payload, ErrorCode}
use vibe_bridge.Protocol.Message.{ClientStreamMessage, Kind}
use vibe_bridge.Protocol.Stream.{AgentStream}
use vibe_bridge.Protocol.Stream.Decode.{decode_payload, decode_client_message}
use vibe_bridge.Protocol.Stream.Encode.{unbound}
use vibe_bridge.Protocol.Stream.Send.{
  Send, output, output_chunk, status, exit, transfer_status, prompt_preview, failure, pong,
  acknowledgement, send,
}
use vibe_bridge.Protocol.Stream.Accept.{decode-Fitting}

-- Whether the connection negotiated what a client message of this kind needs.
abbrev pub allows : AgentStream → Kind → Bool
allows s Kind.attach_session = s.session_resume
allows s Kind.terminal_input = true
allows s Kind.terminal_resize = s.terminal_resize_end
allows s Kind.end_session = s.terminal_resize_end
allows s Kind.acknowledgement = true
allows s Kind.ping = s.control_health
allows s Kind.attachment_begin = s.attachment_transfer
allows s Kind.attachment_chunk = s.attachment_transfer
allows s Kind.attachment_complete = s.attachment_transfer
allows s Kind.attachment_cancel = s.attachment_transfer
allows s Kind.attachment_discard = s.attachment_transfer
allows s Kind.attachment_transfer_status_request = s.attachment_transfer
allows s Kind.attachment_prompt_prepare = s.attachment_prompt_action
allows s Kind.attachment_prompt_commit = s.attachment_prompt_action
allows s Kind.attachment_prompt_cancel = s.attachment_prompt_action

decode_payload-allowed :
    (s : AgentStream) (e : Envelope) (p : Payload) {m : ClientStreamMessage}
    → decode_payload s e p ≡ ok m
    → allows s m.kind ≡ true
unfolding decode_payload
decode_payload-allowed s e (Payload.attach_session cursor) h = ground arith
decode_payload-allowed s e (Payload.attachment_begin none) h = ground arith
decode_payload-allowed s e (Payload.attachment_begin (some b)) h = ground arith
decode_payload-allowed s e (Payload.attachment_chunk none) h = ground arith
decode_payload-allowed s e (Payload.attachment_chunk (some b)) h = ground arith
decode_payload-allowed s e _ h = ground arith

-- A message that is decoded is of a kind that the connection negotiated.
pub decode_allowed :
    (unmarshal : Bytes → Option Envelope) (s s' : AgentStream) (encoded : Bytes)
    (m : ClientStreamMessage)
    → decode_client_message unmarshal s encoded ≡ (s', ok m)
    → allows s m.kind ≡ true
decode_allowed unmarshal s s' encoded m h =
    let (e, _, _, _, payload, _, _) = decode-Fitting unmarshal s s' encoded m h in
    decode_payload-allowed s e e.payload payload

-- Whether the connection negotiated what an Agent envelope needs.
abbrev pub sendable : AgentStream → Send → Bool
sendable s (output content) = true
sendable s (output_chunk content) = true
sendable s (status d) = s.session_resume
sendable s (exit o) = s.session_process_exit
sendable s (transfer_status id d offset) = s.attachment_transfer
sendable s (prompt_preview id d preview append_enter) = s.attachment_prompt_action
sendable s (failure code) = s.control_error
sendable s pong = s.control_health
sendable s acknowledgement = true

-- What may go out while the session is still to be bound.
abbrev pub before_binding : Send → Bool
before_binding (failure ErrorCode.session_start_failed) = true
before_binding (failure ErrorCode.session_already_active) = true
before_binding acknowledgement = true
before_binding _ = false

-- An envelope that goes out was negotiated, and until a resumable session is bound only an
-- acknowledgement or a start-up error goes out.
pub send_allowed :
    (marshal : Envelope → Option Bytes) (s : AgentStream) (sent_at : ℕ) (op : Send)
    (encoded : Bytes)
    → (send marshal s sent_at op).1 ≡ ok encoded
    → (sendable s op ≡ true) × ((unbound s ≡ false) ⊎ (before_binding op ≡ true))
unfolding send
send_allowed marshal s sent_at (output content) encoded h = ground arith
send_allowed marshal s sent_at (failure ErrorCode.session_start_failed) encoded h = ground arith
send_allowed marshal s sent_at (failure ErrorCode.code_unspecified) encoded h = ground arith
send_allowed marshal s sent_at (failure _) encoded h = ground arith
send_allowed marshal s sent_at (output_chunk content) encoded h = ground arith
send_allowed marshal s sent_at _ encoded h = ground arith
