-- ===== src/Protocol/Stream/Order.antt =====
-- internal/protocol/stream.go: any sequence of decodes, commits, bindings and sends on one stream.
use Prim.Native.Nat.{max}
use vibe_bridge.Base.{
  ℕ, ◌+◌, ◌^◌, ◌≤◌, ◌<◌, ◌≡◌, true, false, Option, List, [], ◌∷◌, ◌++◌, Bytes, arith, length,
  Result, ok, err,
}
use vibe_bridge.Protocol.Envelope.{Envelope, connection_id_bytes}
use vibe_bridge.Protocol.Message.{ClientStreamMessage}
use vibe_bridge.Protocol.Negotiation.{NegotiatedHello}
use vibe_bridge.Protocol.Stream.{
  AgentStream, Error, new_agent_stream, opening, commit_client_message, bind_session,
}
use vibe_bridge.Protocol.Stream.Decode.{decode_client_message, Decoded}
use vibe_bridge.Protocol.Stream.Send.{
  Send, Outbound, refused, sent, pings_after, pong, send, send-Outbound,
}
use vibe_bridge.Protocol.Stream.Accept.{decode-Fitting, decode_error_unchanged}

pub data Op : Type 0 where
  decodes : Bytes → Op
  commits : ClientStreamMessage → Op
  binds : Bytes → ℕ → Op
  sends : ℕ → Send → Op

-- A refused call leaves the stream as it was.
abbrev pub or_same : AgentStream → Result Error AgentStream → AgentStream
or_same s (ok s') = s'
or_same s (err x) = s

-- The sequences that an operation commits.
abbrev pub committed_by : ClientStreamMessage → Result Error AgentStream → List ℕ
committed_by m (ok s') = m.sequence ∷ []
committed_by m (err x) = []

module _ (unmarshal : Bytes → Option Envelope) (marshal : Envelope → Option Bytes) where
  unfoldable pub step : AgentStream → Op → AgentStream × List ℕ
  step s (decodes encoded) = ((decode_client_message unmarshal s encoded).0, [])
  step s (commits m) =
      (or_same s (commit_client_message s m), committed_by m (commit_client_message s m))
  step s (binds id generation) = (or_same s (bind_session s id generation), [])
  step s (sends sent_at op) = ((send marshal s sent_at op).0, [])

  unfoldable pub run : AgentStream → List Op → AgentStream × List ℕ
  run s [] = (s, [])
  run s (op ∷ ops) =
      let (s', now) = step s op in let (last, later) = run s' ops in (last, now ++ later)

-- The highest number of a list.
abbrev pub latest : List ℕ → ℕ
latest [] = 0
latest (q ∷ qs) = max q (latest qs)

-- What holds of a stream between two calls.
pub record Inv (s : AgentStream) : Type 0 where
  pub inbound_next : s.next_inbound ≡ s.highest_inbound + 1
  pub inbound_started : 1 ≤ s.highest_inbound
  pub outbound_started : 2 ≤ s.next_outbound
  -- The peer never acknowledges what was not sent.
  pub ack_below : s.highest_peer_ack < s.next_outbound
  pub connection_sized : length s.connection_id ≡ connection_id_bytes
  pub bound_negotiated : s.session_bound ≡ true → s.session_resume ≡ true
  pub bound_identity :
      s.session_bound ≡ true
      → (length s.session_id ≡ connection_id_bytes)
        × (0 < s.session_generation)
        × (2 ≤ s.highest_inbound)
  pub unbound_blank : s.session_bound ≡ false → (s.session_id ≡ []) × (s.session_generation ≡ 0)
  -- Every waiting Ping was committed.
  pub pings_committed : latest s.pending_ping_sequences ≤ s.highest_inbound

-- Both counters stay clear of the end of 64 bits for this many more calls.
abbrev pub Room : AgentStream → ℕ → Type 0
Room s n = (s.next_inbound + n < 2 ^ 64) × (s.next_outbound + n < 2 ^ 64)

pub new_agent_stream-Inv :
    (h : NegotiatedHello) (s : AgentStream) → new_agent_stream h ≡ ok s → Inv s
unfolding new_agent_stream opening
new_agent_stream-Inv h s e = ground arith

latest-snoc : (q : ℕ) (qs : List ℕ) → latest (qs ++ (q ∷ [])) ≡ max (latest qs) q
latest-snoc q [] = omega arith
latest-snoc q (p ∷ qs) = omega (arith, latest-snoc q qs)

latest-pings_after : (op : Send) (qs : List ℕ) → latest (pings_after op qs) ≤ latest qs
latest-pings_after pong [] = omega arith
latest-pings_after pong (q ∷ qs) = omega arith
latest-pings_after _ qs = omega arith

pub commit-Inv :
    (s s' : AgentStream) (m : ClientStreamMessage)
    → Inv s
    → s.next_inbound + 1 < 2 ^ 64
    → commit_client_message s m ≡ ok s'
    → Inv s'
unfolding commit_client_message
commit-Inv s s' m v room e = ground (arith, latest-snoc m.sequence s.pending_ping_sequences)

pub bind-Inv :
    (s s' : AgentStream) (id : Bytes) (generation : ℕ)
    → Inv s
    → bind_session s id generation ≡ ok s'
    → Inv s'
unfolding bind_session
bind-Inv s s' id generation v e = ground arith

pub send-Inv :
    (marshal : Envelope → Option Bytes) (s : AgentStream) (sent_at : ℕ) (op : Send)
    → Inv s
    → s.next_outbound + 1 < 2 ^ 64
    → Inv (send marshal s sent_at op).0
send-Inv marshal s sent_at op v room = from (send-Outbound marshal s sent_at op)
  where
    from :
        Outbound marshal s sent_at
          (pings_after op s.pending_ping_sequences)
          (send marshal s sent_at op)
        → Inv (send marshal s sent_at op).0
    from (refused x e) = rw e v
    from (sent p encoded m fits e) =
        rw e (ground (arith, latest-pings_after op s.pending_ping_sequences))

pub decode-Inv :
    (unmarshal : Bytes → Option Envelope) (s : AgentStream) (encoded : Bytes)
    (r : AgentStream × Decoded)
    → decode_client_message unmarshal s encoded ≡ r
    → Inv s
    → Inv r.0
decode-Inv unmarshal s encoded (s', ok m) e v =
    let (envelope, _, _, fits, _, _, kept) = decode-Fitting unmarshal s s' encoded m e in
    rw kept (ground (arith, fits.ack_sent))
decode-Inv unmarshal s encoded (s', err x) e v =
    rw (decode_error_unchanged unmarshal s s' encoded x e) v
