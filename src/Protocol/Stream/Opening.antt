-- ===== src/Protocol/Stream/Opening.antt =====
-- internal/protocol/negotiation.go and stream.go: the stream that an accepted Hello opens.
use vibe_bridge.Base.{◌<◌, ◌≡◌, refl, sym, ap, ◌∙◌, true, Option, Bytes, arith, length, ok}
use vibe_bridge.Protocol.Envelope.{Envelope}
use vibe_bridge.Protocol.Names.{
  capability_control_error, capability_attachment_transfer, capability_attachment_prompt_action,
}
use vibe_bridge.Protocol.Negotiation.{NegotiatedHello, has, has_capability, accept_client_hello}
use vibe_bridge.Protocol.Negotiation.Accepted.{accept-Acceptable}
use vibe_bridge.Protocol.Stream.{AgentStream, new_agent_stream, opening}

opens :
    (n : NegotiatedHello)
    → length n.connection_id ≡ 16
    → 0 < n.peer_max_envelope_bytes
    → new_agent_stream n ≡ ok (opening n)
unfolding new_agent_stream
opens n sized receives = ground arith

-- An accepted Hello opens a stream, under the Hello's connection ID and limit, and a stream that may
-- take prompt actions may take attachments, and one that may take attachments may report errors.
pub accepted_opens :
    (unmarshal : Bytes → Option Envelope) (encoded : Bytes) (n : NegotiatedHello)
    → accept_client_hello unmarshal encoded ≡ ok n
    → (s : AgentStream) × (new_agent_stream n ≡ ok s)
      × (s.connection_id ≡ n.connection_id)
      × (s.peer_max_envelope_size ≡ n.peer_max_envelope_bytes)
      × (s.attachment_prompt_action ≡ true → s.attachment_transfer ≡ true)
      × (s.attachment_transfer ≡ true → s.control_error ≡ true)
unfolding opening has_capability
accepted_opens unmarshal encoded n a =
    let (e, h, _, _, fits) = accept-Acceptable unmarshal encoded n a in
    let caps : n.capabilities ≡ h.capabilities = ap (λ m. m.capabilities) fits.kept in
    (
      opening n,
      opens n (ap (λ m. length m.connection_id) fits.kept ∙ fits.connection_sized)
          (rw fits.kept fits.receives),
      refl,
      refl,
      λ prompts.
          sym (ap (λ c. has c capability_attachment_transfer) (sym caps))
          ∙ fits.consistent.prompt_transfers
              (ap (λ c. has c capability_attachment_prompt_action) (sym caps) ∙ prompts),
      λ transfers.
          sym (ap (λ c. has c capability_control_error) (sym caps))
          ∙ fits.consistent.transfer_errors
              (ap (λ c. has c capability_attachment_transfer) (sym caps) ∙ transfers),
    )
