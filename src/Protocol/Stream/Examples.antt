-- ===== src/Protocol/Stream/Examples.antt =====
-- internal/protocol/stream.go on concrete inputs.
use vibe_bridge.Base.{
  ℕ, ◌≤◌, ◌≡◌, refl, true, false, Option, some, List, [], ◌∷◌, Bytes, arith, length-take, ok, err,
  dec_bytes,
}
use vibe_bridge.Protocol.Envelope.{Envelope, Payload}
use vibe_bridge.Protocol.Message.{ClientStreamMessage, Kind, message}
use vibe_bridge.Protocol.Negotiation.{NegotiatedHello, has, has_capability}
use vibe_bridge.Protocol.Names.{
  capability_terminal_sequenced_io, capability_terminal_resize_end, capability_session_process_exit,
  capability_control_error, capability_control_health,
}
use vibe_bridge.Protocol.Stream.{
  AgentStream, sequence_mismatch, new_agent_stream, opening, validate_inbound_envelope,
}
use vibe_bridge.Protocol.Stream.Decode.{decode_client_message}
use vibe_bridge.Protocol.Stream.Encode.{attempt_prefix, chunk_outcome, encode_terminal_output_chunk}
use vibe_bridge.Protocol.Stream.Chunk.{is_ok, Longest, chunk-Longest}
use vibe_bridge.Protocol.Stream.Send.{output_chunk, send}
use vibe_bridge.Protocol.Stream.Order.{Op, decodes, commits, binds, sends, run, Inv}
use vibe_bridge.Protocol.Stream.Run.{Consecutive, run-new_agent_stream}

abbrev sixteen : Bytes
sixteen = 1 ∷ 2 ∷ 3 ∷ 4 ∷ 5 ∷ 6 ∷ 7 ∷ 8 ∷ 9 ∷ 10 ∷ 11 ∷ 12 ∷ 13 ∷ 14 ∷ 15 ∷ 16 ∷ []

abbrev hello : NegotiatedHello
hello = record {
  major = 1;
  minor = 0;
  peer_max_envelope_bytes = 2;
  connection_id = sixteen;
  capabilities =
      capability_terminal_sequenced_io ∷ capability_terminal_resize_end
      ∷ capability_session_process_exit ∷ capability_control_error ∷ capability_control_health ∷ [];
}

abbrev stream : AgentStream
stream = record {
  connection_id = sixteen;
  peer_max_envelope_size = 2;
  next_outbound = 2;
  next_inbound = 2;
  highest_inbound = 1;
  highest_peer_ack = 0;
  pending_ping_sequences = [];
  capabilities = record {
    session_resume = false;
    terminal_resize_end = true;
    session_process_exit = true;
    control_error = true;
    control_health = true;
    attachment_transfer = false;
    attachment_prompt_action = false;
  };
  session_bound = false;
  session_id = [];
  session_generation = 0;
}

hello_accepted : new_agent_stream hello ≡ ok stream
unfolding new_agent_stream opening has_capability has dec_bytes
hello_accepted = refl

-- A wire format that carries nothing but the terminal's bytes.
abbrev payload_bytes : Payload → Bytes
payload_bytes (Payload.terminal_output content) = content
payload_bytes (Payload.terminal_input content) = content
payload_bytes _ = []

abbrev bare_marshal : Envelope → Option Bytes
bare_marshal e = some (payload_bytes e.payload)

abbrev input_envelope : ℕ → Bytes → Envelope
input_envelope sequence content = record {
  protocol_major = 1;
  protocol_minor = 0;
  connection_id = sixteen;
  session_id = [];
  session_generation = 0;
  sequence = sequence;
  acknowledge = 1;
  sent_at = 0;
  payload = Payload.terminal_input content;
}

abbrev bare_unmarshal : Bytes → Option Envelope
bare_unmarshal encoded = some (input_envelope 2 encoded)

abbrev late_unmarshal : Bytes → Option Envelope
late_unmarshal encoded = some (input_envelope 3 encoded)

abbrev typed : Bytes
typed = 108 ∷ 115 ∷ 13 ∷ []

abbrev typed_message : ClientStreamMessage
typed_message = record (message Kind.terminal_input 2) { content = typed }

abbrev acknowledged : AgentStream
acknowledged = record stream { highest_peer_ack = 1 }

late_refused : decode_client_message late_unmarshal stream typed ≡ (stream, err sequence_mismatch)
unfolding decode_client_message validate_inbound_envelope dec_bytes
late_refused = refl

abbrev ops : List Op
ops =
    decodes typed
    ∷ commits typed_message
    ∷ commits typed_message
    ∷ sends 7 (output_chunk typed)
    ∷ binds sixteen 1
    ∷ commits (record typed_message { sequence = 3 })
    ∷ []

run-new_agent_stream_example :
    Inv (run bare_unmarshal bare_marshal stream ops).0
    × Consecutive 2 (run bare_unmarshal bare_marshal stream ops).1
run-new_agent_stream_example =
    run-new_agent_stream bare_unmarshal bare_marshal hello stream ops hello_accepted (omega arith)

prefix_shorter :
    (s : AgentStream) (content : Bytes) (m n : ℕ)
    → m ≤ n
    → is_ok (attempt_prefix bare_marshal s content 7 n) ≡ true
    → is_ok (attempt_prefix bare_marshal s content 7 m) ≡ true
unfolding attempt_prefix
prefix_shorter s content m n le fits = ground (arith, length-take m content, length-take n content)

chunk-Longest_example :
    (best : Option (ℕ × Bytes)) × Longest (attempt_prefix bare_marshal stream typed 7) 3 best
    × (encode_terminal_output_chunk bare_marshal stream typed 7 ≡ chunk_outcome stream best)
chunk-Longest_example =
    chunk-Longest bare_marshal stream typed 7 (prefix_shorter stream typed) refl refl

-- Two of the three bytes fit.
typed_chunk :
    encode_terminal_output_chunk bare_marshal stream typed 7
    ≡ (record stream { next_outbound = 3 }, ok (108 ∷ 115 ∷ [], 2))
unfolding encode_terminal_output_chunk
typed_chunk = refl

chunk_sent : (send bare_marshal stream 7 (output_chunk typed)).1 ≡ ok (108 ∷ 115 ∷ [])
unfolding send encode_terminal_output_chunk
chunk_sent = refl
