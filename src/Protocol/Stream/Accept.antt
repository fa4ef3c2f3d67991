-- ===== src/Protocol/Stream/Accept.antt =====
-- internal/protocol/stream.go, DecodeClientMessage: what an accepted message tells.
use vibe_bridge.Base.{
  ℕ, ◌≤◌, ◌<◌, ◌≡◌, ◌∙◌, true, false, Option, none, some, [], Bytes, arith, length, ok, err, ◌⊎◌,
  inl, inr, Option-cases,
}
use vibe_bridge.Protocol.Envelope.{Envelope, Payload, max_envelope_bytes, connection_id_bytes}
use vibe_bridge.Protocol.Message.{ClientStreamMessage}
use vibe_bridge.Protocol.Stream.{AgentStream, Error, attach_cursor, validate_inbound_envelope}
use vibe_bridge.Protocol.Stream.Decode.{decode_payload, decode_client_message}

decode_payload-sequence :
    (s : AgentStream) (e : Envelope) (p : Payload) {m : ClientStreamMessage}
    → decode_payload s e p ≡ ok m
    → m.sequence ≡ e.sequence
unfolding decode_payload
decode_payload-sequence s e (Payload.attach_session cursor) h = ground arith
decode_payload-sequence s e (Payload.attachment_begin none) h = ground arith
decode_payload-sequence s e (Payload.attachment_begin (some b)) h = ground arith
decode_payload-sequence s e (Payload.attachment_chunk none) h = ground arith
decode_payload-sequence s e (Payload.attachment_chunk (some b)) h = ground arith
decode_payload-sequence s e _ h = ground arith

-- What an envelope must be to be accepted by a stream.
pub record Fitting (s : AgentStream) (e : Envelope) : Type 0 where
  pub version : (e.protocol_major ≡ 1) × (e.protocol_minor ≡ 0)
  pub connection : e.connection_id ≡ s.connection_id
  pub in_order : e.sequence ≡ s.next_inbound
  pub ack_keeps : s.highest_peer_ack ≤ e.acknowledge
  pub ack_sent : e.acknowledge < s.next_outbound
  -- Without resume an envelope carries no session; a bound stream wants its own session.
  pub no_session : s.session_resume ≡ false → (e.session_id ≡ []) × (e.session_generation ≡ 0)
  pub own_session :
      s.session_resume ≡ true
      → s.session_bound ≡ true
      → (e.session_id ≡ s.session_id) × (e.session_generation ≡ s.session_generation)
  -- A stream that waits for its session takes an AttachSession only: a fresh one with no cursor, or
  -- one with a whole session identity.
  pub attaches :
      s.session_resume ≡ true
      → s.session_bound ≡ false
      → (cursor : ℕ) × (e.payload ≡ Payload.attach_session cursor)
        × ((e.session_id ≡ []) × (e.session_generation ≡ 0) × (cursor ≡ 0)
            ⊎ (length e.session_id ≡ connection_id_bytes) × (0 < e.session_generation))

attach_cursor_lem :
    (p : Payload) (cursor : ℕ) → attach_cursor p ≡ some cursor → p ≡ Payload.attach_session cursor
attach_cursor_lem (Payload.attach_session n) cursor h = cc
attach_cursor_lem _ cursor h = cc

validate-Fitting :
    (s : AgentStream) (e : Envelope) → validate_inbound_envelope s e ≡ none → Fitting s e
unfolding validate_inbound_envelope
validate-Fitting s e h = record {
  version = ground arith;
  connection = ground arith;
  in_order = ground arith;
  ack_keeps = ground arith;
  ack_sent = ground arith;
  no_session = λ r. ground arith;
  own_session = λ r b. ground arith;
  attaches = λ r b. elim (Option-cases (attach_cursor e.payload)) [
    | inl absent ↦ absurd (ground arith)
    | inr (cursor, found) ↦ (cursor, attach_cursor_lem e.payload cursor found, ground arith)
  ];
}

pub decode-Fitting :
    (unmarshal : Bytes → Option Envelope) (s s' : AgentStream) (encoded : Bytes)
    (m : ClientStreamMessage)
    → decode_client_message unmarshal s encoded ≡ (s', ok m)
    → (e : Envelope) × (unmarshal encoded ≡ some e)
      × (length encoded ≤ max_envelope_bytes)
      × Fitting s e
      × (decode_payload s e e.payload ≡ ok m)
      × (m.sequence ≡ s.next_inbound)
      × (s' ≡ record s { highest_peer_ack = e.acknowledge })
unfolding decode_client_message
decode-Fitting unmarshal s s' encoded m h = elim (Option-cases (unmarshal encoded)) [
  | inl absent ↦ absurd (ground arith)
  | inr (e, found) ↦
      let valid : validate_inbound_envelope s e ≡ none = ground arith in
      let payload : decode_payload s e e.payload ≡ ok m = ground arith in
      let fits = validate-Fitting s e valid in
      (
        e,
        found,
        ground arith,
        fits,
        payload,
        decode_payload-sequence s e e.payload payload ∙ fits.in_order,
        ground arith,
      )
]

-- A decode that is refused leaves the stream as it was.
pub decode_error_unchanged :
    (unmarshal : Bytes → Option Envelope) (s s' : AgentStream) (encoded : Bytes) (x : Error)
    → decode_client_message unmarshal s encoded ≡ (s', err x)
    → s' ≡ s
unfolding decode_client_message
decode_error_unchanged unmarshal s s' encoded x h = ground arith
