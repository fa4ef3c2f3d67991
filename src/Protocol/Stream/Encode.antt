-- ===== src/Protocol/Stream/Encode.antt =====
-- internal/protocol/stream.go: the envelopes that the Agent sends. Each operation returns the
-- stream after it and the encoded envelope, or the refusal. `marshal` is the Protobuf encoder,
-- with `none` for its error.
use vibe_bridge.Base.{
  ℕ, suc, zero, ◌+◌, ◌-◌, ◌*◌, ◌/◌, Bool, true, false, not, ◌&&◌, ◌||◌, List, [], ◌∷◌, Option, none,
  some, Bytes, ltb, leb, ◌==◌, if◌then◌else◌, length, take, Result, ok, err, is_empty,
}
use Prim.Native.Nat.{min}
use vibe_bridge.Protocol.Envelope.{
  Envelope, Payload, ResumeDisposition, ProcessExitOutcome, ErrorCode,
  AttachmentTransferDisposition, AttachmentPromptDisposition, terminal_output, session_status,
  process_exit, attachment_transfer_status, attachment_prompt_preview, error, pong, acknowledgement,
  current_major, current_minor, max_envelope_bytes,
}
use vibe_bridge.Protocol.Stream.{
  AgentStream, Error, u64, empty_output, not_bound, not_negotiated, disposition_invalid,
  offset_not_allowed, invalid_metadata, preview_invalid, code_invalid, error_before_binding,
  no_pending_ping, encode_failed, envelope_too_large, limit_too_small,
}
use vibe_bridge.Protocol.Stream.Decode.{
  valid_attachment_transfer_id, valid_attachment_prompt_action_id,
}

abbrev pub max_attachment_prompt_preview_bytes : ℕ
max_attachment_prompt_preview_bytes = 48 * 1024

-- The metadata that every outbound envelope carries.
pub stamp : AgentStream → ℕ → Payload → Envelope
stamp s sent_at payload = record {
  protocol_major = current_major;
  protocol_minor = current_minor;
  connection_id = s.connection_id;
  session_id = s.session_id;
  session_generation = s.session_generation;
  sequence = s.next_outbound;
  acknowledge = s.highest_inbound;
  sent_at = sent_at;
  payload = payload;
}

abbrev pub Encoded : Type 0
Encoded = AgentStream × Result Error Bytes

-- Not bound though resume was negotiated.
abbrev pub unbound : AgentStream → Bool
unbound s = s.session_resume && not s.session_bound

transfer_status_check : AttachmentTransferDisposition → ℕ → Option Error
transfer_status_check AttachmentTransferDisposition.transfer_unspecified offset =
    some disposition_invalid
transfer_status_check AttachmentTransferDisposition.active offset = none
transfer_status_check _ offset = if offset == 0 then none else some offset_not_allowed

preview_check : AttachmentPromptDisposition → Bytes → Bool → Option Error
preview_check AttachmentPromptDisposition.prompt_unspecified preview append_enter =
    some disposition_invalid
preview_check AttachmentPromptDisposition.prepared preview append_enter =
    if is_empty preview || ltb max_attachment_prompt_preview_bytes (length preview)
    then some preview_invalid
    else none
preview_check AttachmentPromptDisposition.committed preview append_enter =
    if not (is_empty preview) || append_enter then some preview_invalid else none

-- A failed check returns early.
unfoldable pub reject_or : AgentStream → Option Error → Encoded → Encoded
reject_or s none encoded = encoded
reject_or s (some x) encoded = (s, err x)

-- The error codes that may be sent before a session is bound.
startup_code : ErrorCode → Bool
startup_code ErrorCode.session_start_failed = true
startup_code ErrorCode.session_already_active = true
startup_code _ = false

unfoldable pub pop_ping : List ℕ → Encoded → Encoded
pop_ping rest (s, ok encoded) = (record s { pending_ping_sequences = rest }, ok encoded)
pop_ping rest (s, err x) = (s, err x)

pub advance : AgentStream → Result Error Bytes → Encoded
advance s (ok encoded) = (record s { next_outbound = u64 (s.next_outbound + 1) }, ok encoded)
advance s (err x) = (s, err x)

-- The binary search of `EncodeTerminalOutputChunk`, over the prefix lengths `low` to `high`; the
-- best prefix so far is `none` for `bestLength == 0`. The fuel bounds the rounds.
unfoldable pub search_prefix :
    (ℕ → Result Error Bytes) → ℕ → ℕ → ℕ → Option (ℕ × Bytes) → Option (ℕ × Bytes)
search_prefix attempt zero low high best = best
search_prefix attempt (suc fuel) low high best =
    let middle = low + (high - low) / 2 in
    let step : Option (ℕ × Bytes) = elim (attempt middle) [
      | ok encoded ↦ search_prefix attempt fuel (middle + 1) high (some (middle, encoded))
      | err x ↦ search_prefix attempt fuel low (middle - 1) best
    ] in
    if leb low high then step else best

-- After the search: `bestLength == 0` is an error, and a chunk takes one sequence number.
unfoldable pub chunk_outcome :
    AgentStream → Option (ℕ × Bytes) → AgentStream × Result Error (Bytes × ℕ)
chunk_outcome s none = (s, err limit_too_small)
chunk_outcome s (some (n, encoded)) =
    (record s { next_outbound = u64 (s.next_outbound + 1) }, ok (encoded, n))

module _ (marshal : Envelope → Option Bytes) where
  pub marshal_locked : AgentStream → Envelope → Result Error Bytes
  marshal_locked s e = elim (marshal e) [
    | none ↦ err encode_failed
    | some encoded ↦
        if ltb (min max_envelope_bytes s.peer_max_envelope_size) (length encoded)
        then err envelope_too_large
        else ok encoded
  ]

  unfoldable pub encode_locked : AgentStream → ℕ → Payload → Encoded
  unfolding marshal_locked advance stamp
  encode_locked s sent_at payload = advance s (marshal_locked s (stamp s sent_at payload))

  unfoldable pub encode_terminal_output : AgentStream → Bytes → ℕ → Encoded
  unfolding encode_locked
  encode_terminal_output s content sent_at =
      if is_empty content
      then (s, err empty_output)
      else if unbound s
      then (s, err not_bound)
      else encode_locked s sent_at (terminal_output content)

  unfoldable pub encode_session_status : AgentStream → ResumeDisposition → ℕ → Encoded
  unfolding encode_locked
  encode_session_status s d sent_at =
      if not s.session_resume || not s.session_bound then (s, err not_bound) else elim d [
        | ResumeDisposition.resume_unspecified ↦ (s, err disposition_invalid)
        | known ↦ encode_locked s sent_at (session_status known)
      ]

  unfoldable pub encode_process_exit : AgentStream → ProcessExitOutcome → ℕ → Encoded
  unfolding encode_locked
  encode_process_exit s o sent_at =
      if not s.session_process_exit
      then (s, err not_negotiated)
      else if unbound s
      then (s, err not_bound)
      else elim o [
        | ProcessExitOutcome.outcome_unspecified ↦ (s, err disposition_invalid)
        | known ↦ encode_locked s sent_at (process_exit known)
      ]

  unfoldable pub encode_attachment_transfer_status :
      AgentStream → Bytes → AttachmentTransferDisposition → ℕ → ℕ → Encoded
  unfolding encode_locked reject_or transfer_status_check valid_attachment_transfer_id
  encode_attachment_transfer_status s id d offset sent_at =
      if not s.attachment_transfer
      then (s, err not_negotiated)
      else if unbound s
      then (s, err not_bound)
      else if not (valid_attachment_transfer_id id)
      then (s, err invalid_metadata)
      else reject_or s (transfer_status_check d offset) (
          encode_locked s sent_at (
            attachment_transfer_status
              (record { transfer_id = id; disposition = d; next_offset_bytes = offset })))

  unfoldable pub encode_attachment_prompt_preview :
      AgentStream → Bytes → AttachmentPromptDisposition → Bytes → Bool → ℕ → Encoded
  unfolding encode_locked reject_or preview_check valid_attachment_prompt_action_id
  encode_attachment_prompt_preview s id d preview append_enter sent_at =
      if not s.attachment_prompt_action
      then (s, err not_negotiated)
      else if unbound s
      then (s, err not_bound)
      else if not (valid_attachment_prompt_action_id id)
      then (s, err invalid_metadata)
      else reject_or s (preview_check d preview append_enter) (
          encode_locked s sent_at (
            attachment_prompt_preview (record {
              action_id = id;
              disposition = d;
              preview = preview;
              append_enter = append_enter;
            })))

  unfoldable pub encode_error : AgentStream → ErrorCode → ℕ → Encoded
  unfolding encode_locked startup_code
  encode_error s code sent_at = if not s.control_error then (s, err not_negotiated) else elim code [
    | ErrorCode.code_unspecified ↦ (s, err code_invalid)
    | known ↦
        if unbound s && not (startup_code known)
        then (s, err error_before_binding)
        else encode_locked s sent_at (error known)
  ]

  unfoldable pub answer_ping : AgentStream → ℕ → List ℕ → Encoded
  unfolding encode_locked pop_ping
  answer_ping s sent_at [] = (s, err no_pending_ping)
  answer_ping s sent_at (p ∷ rest) = pop_ping rest (encode_locked s sent_at pong)

  unfoldable pub encode_pong : AgentStream → ℕ → Encoded
  unfolding answer_ping
  encode_pong s sent_at =
      if not s.control_health
      then (s, err not_negotiated)
      else if unbound s
      then (s, err not_bound)
      else answer_ping s sent_at s.pending_ping_sequences

  unfoldable pub encode_acknowledgement : AgentStream → ℕ → Encoded
  unfolding encode_locked
  encode_acknowledgement s sent_at = encode_locked s sent_at acknowledgement

  -- The envelope that carries the first `n` bytes.
  unfoldable pub attempt_prefix : AgentStream → Bytes → ℕ → ℕ → Result Error Bytes
  unfolding marshal_locked stamp
  attempt_prefix s content sent_at n =
      marshal_locked s (stamp s sent_at (terminal_output (take n content)))

  unfoldable pub encode_terminal_output_chunk :
      AgentStream → Bytes → ℕ → AgentStream × Result Error (Bytes × ℕ)
  unfolding attempt_prefix search_prefix chunk_outcome
  encode_terminal_output_chunk s content sent_at =
      if is_empty content
      then (s, err empty_output)
      else if unbound s
      then (s, err not_bound)
      else chunk_outcome s (
          search_prefix (attempt_prefix s content sent_at) (length content + 1) 1 (length content)
            none)
