-- ===== src/Protocol/Negotiation/Examples.antt =====
-- internal/protocol/negotiation.go on concrete inputs.
use vibe_bridge.Base.{
  ◌≤◌, ◌≡◌, refl, true, Option, some, [], ◌∷◌, Bytes, length, ok, err, dec_bytes,
}
use vibe_bridge.Base.Trim.{is_trimmed}
use vibe_bridge.Protocol.Envelope.{Envelope, Hello, client_role, max_envelope_bytes}
use vibe_bridge.Protocol.Names.{capability_terminal_sequenced_io, capability_attachment_transfer}
use vibe_bridge.Protocol.Negotiation.{
  NegotiatedHello, dependency_missing, has, check_names, dependency_missing_in, version_range_check,
  bounds_check, range_check, capabilities_check, hello_check, accept_hello, accept_payload,
  accept_envelope, accept_client_hello, agent_hello, hello_envelope,
}
use vibe_bridge.Protocol.Negotiation.Accepted.{Acceptable, accept-Acceptable}
use vibe_bridge.Protocol.Stream.{AgentStream, new_agent_stream}
use vibe_bridge.Protocol.Stream.Opening.{accepted_opens}

abbrev sixteen : Bytes
sixteen = 1 ∷ 2 ∷ 3 ∷ 4 ∷ 5 ∷ 6 ∷ 7 ∷ 8 ∷ 9 ∷ 10 ∷ 11 ∷ 12 ∷ 13 ∷ 14 ∷ 15 ∷ 16 ∷ []

abbrev wire : Bytes
wire = 1 ∷ []

-- The Agent's own capabilities, asked for by a client.
abbrev client_hello : Hello
client_hello = record agent_hello { peer_role = client_role }

abbrev unmarshal : Bytes → Option Envelope
unmarshal encoded = some (hello_envelope sixteen 0 client_hello)

abbrev negotiated : NegotiatedHello
negotiated = record {
  major = 1;
  minor = 0;
  peer_max_envelope_bytes = max_envelope_bytes;
  connection_id = sixteen;
  capabilities = agent_hello.capabilities;
}

hello_accepted : accept_client_hello unmarshal wire ≡ ok negotiated
unfolding has check_names dependency_missing_in version_range_check bounds_check range_check
    capabilities_check hello_check accept_hello accept_payload accept_envelope accept_client_hello
    is_trimmed dec_bytes
hello_accepted = refl

-- Attachments without control.error_v1 are refused.
abbrev careless : Bytes → Option Envelope
careless encoded = some (
    hello_envelope sixteen 0 (record client_hello {
      capabilities = capability_terminal_sequenced_io ∷ capability_attachment_transfer ∷ [];
    }))

careless_refused : accept_client_hello careless wire ≡ err dependency_missing
unfolding has check_names dependency_missing_in version_range_check bounds_check range_check
    capabilities_check hello_check accept_hello accept_payload accept_envelope accept_client_hello
    is_trimmed dec_bytes
careless_refused = refl

accept-Acceptable_example :
    (e : Envelope) × (h : Hello) × (unmarshal wire ≡ some e)
    × (length wire ≤ max_envelope_bytes)
    × Acceptable e h negotiated
accept-Acceptable_example = accept-Acceptable unmarshal wire negotiated hello_accepted

accepted_opens_example :
    (s : AgentStream) × (new_agent_stream negotiated ≡ ok s)
    × (s.connection_id ≡ sixteen)
    × (s.peer_max_envelope_size ≡ max_envelope_bytes)
    × (s.attachment_prompt_action ≡ true → s.attachment_transfer ≡ true)
    × (s.attachment_transfer ≡ true → s.control_error ≡ true)
accepted_opens_example = accepted_opens unmarshal wire negotiated hello_accepted
