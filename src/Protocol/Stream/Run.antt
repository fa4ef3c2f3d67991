-- ===== src/Protocol/Stream/Run.antt =====
-- internal/protocol/stream.go: the order of the committed messages over a whole connection.
use native.Mathlib.Nat.{add-zero}
use vibe_bridge.Base.{
  ℕ, ◌+◌, ◌^◌, ◌≤◌, ◌<◌, ◌≡◌, refl, Option, List, [], ◌∷◌, ◌++◌, Bytes, arith, length,
  length-append, Result, ok, err,
}
use vibe_bridge.Protocol.Envelope.{Envelope}
use vibe_bridge.Protocol.Message.{ClientStreamMessage}
use vibe_bridge.Protocol.Negotiation.{NegotiatedHello}
use vibe_bridge.Protocol.Stream.{
  AgentStream, Error, new_agent_stream, opening, commit_client_message, bind_session,
}
use vibe_bridge.Protocol.Stream.Decode.{decode_client_message, Decoded}
use vibe_bridge.Protocol.Stream.Send.{
  Send, Outbound, refused, sent, pings_after, send, send-Outbound,
}
use vibe_bridge.Protocol.Stream.Accept.{decode-Fitting, decode_error_unchanged}
use vibe_bridge.Protocol.Stream.Order.{
  Op, decodes, commits, binds, sends, or_same, committed_by, step, run, Inv, Room,
  new_agent_stream-Inv, commit-Inv, bind-Inv, send-Inv, decode-Inv,
}

-- The numbers from `n` on, with no gap and none twice.
abbrev pub Consecutive : ℕ → List ℕ → Type 0
Consecutive n [] = Unit {0}
Consecutive n (q ∷ qs) = (q ≡ n) × Consecutive (n + 1) qs

-- What an operation keeps, and that it commits at most the next sequence.
record Kept (s s' : AgentStream) (committed : List ℕ) : Type 0 where
  inv : Inv s'
  inbound : s'.next_inbound ≡ s.next_inbound + length committed
  outbound : s'.next_outbound ≤ s.next_outbound + 1
  short : length committed ≤ 1
  follows : Consecutive s.next_inbound committed

commit-Kept :
    (s : AgentStream) (m : ClientStreamMessage) (r : Result Error AgentStream)
    → commit_client_message s m ≡ r
    → Inv s
    → s.next_inbound + 1 < 2 ^ 64
    → Kept s (or_same s r) (committed_by m r)
unfolding commit_client_message
commit-Kept s m (err x) e v room = record {
  inv = v;
  inbound = omega arith;
  outbound = omega arith;
  short = omega arith;
  follows = tt;
}
commit-Kept s m (ok s') e v room = record {
  inv = commit-Inv s s' m v room e;
  inbound = ground arith;
  outbound = ground arith;
  short = omega arith;
  follows = (ground arith, tt);
}

idle-Kept :
    (s s' : AgentStream)
    → Inv s'
    → s'.next_inbound ≡ s.next_inbound
    → s'.next_outbound ≤ s.next_outbound + 1
    → Kept s s' []
idle-Kept s s' v i o = record {
  inv = v;
  inbound = omega arith;
  outbound = o;
  short = omega arith;
  follows = tt;
}

bind-Kept :
    (s : AgentStream) (id : Bytes) (generation : ℕ) (r : Result Error AgentStream)
    → bind_session s id generation ≡ r
    → Inv s
    → Kept s (or_same s r) []
unfolding bind_session
bind-Kept s id generation (err x) e v = idle-Kept s s v refl (omega arith)
bind-Kept s id generation (ok s') e v =
    idle-Kept s s' (bind-Inv s s' id generation v e) (ground arith) (ground arith)

send-Kept :
    (marshal : Envelope → Option Bytes) (s : AgentStream) (sent_at : ℕ) (op : Send)
    → Inv s
    → s.next_outbound + 1 < 2 ^ 64
    → Kept s (send marshal s sent_at op).0 []
send-Kept marshal s sent_at op v room = from (send-Outbound marshal s sent_at op)
  where
    from :
        Outbound marshal s sent_at
          (pings_after op s.pending_ping_sequences)
          (send marshal s sent_at op)
        → Kept s (send marshal s sent_at op).0 []
    from (refused x e) =
        idle-Kept s _ (send-Inv marshal s sent_at op v room) (rw e) (rw e (omega arith))
    from (sent p encoded m fits e) =
        idle-Kept s _ (send-Inv marshal s sent_at op v room) (rw e) (rw e (omega arith))

decode-Kept :
    (unmarshal : Bytes → Option Envelope) (s : AgentStream) (encoded : Bytes)
    (r : AgentStream × Decoded)
    → decode_client_message unmarshal s encoded ≡ r
    → Inv s
    → Kept s r.0 []
decode-Kept unmarshal s encoded (s', ok m) e v =
    let (envelope, _, _, fits, _, _, kept) = decode-Fitting unmarshal s s' encoded m e in
    idle-Kept s s' (decode-Inv unmarshal s encoded (s', ok m) e v) (rw kept) (rw kept (omega arith))
decode-Kept unmarshal s encoded (s', err x) e v =
    let same = decode_error_unchanged unmarshal s s' encoded x e in
    idle-Kept s s' (decode-Inv unmarshal s encoded (s', err x) e v) (rw same)
      (rw same (omega arith))

new_agent_stream-starts :
    (h : NegotiatedHello) (s : AgentStream)
    → new_agent_stream h ≡ ok s
    → (s.next_inbound ≡ 2) × (s.next_outbound ≡ 2)
unfolding new_agent_stream opening
new_agent_stream-starts h s e = ground arith

module _ (unmarshal : Bytes → Option Envelope) (marshal : Envelope → Option Bytes) where
  step-Kept :
      (s : AgentStream) (op : Op)
      → Inv s
      → Room s 1
      → Kept s (step unmarshal marshal s op).0 (step unmarshal marshal s op).1
  unfolding step
  step-Kept s (decodes encoded) v room = decode-Kept unmarshal s encoded _ refl v
  step-Kept s (commits m) v room = commit-Kept s m _ refl v room.0
  step-Kept s (binds id generation) v room = bind-Kept s id generation _ refl v
  step-Kept s (sends sent_at op) v room = send-Kept marshal s sent_at op v room.1

  Consecutive-append :
      (n : ℕ) (xs ys : List ℕ)
      → length xs ≤ 1
      → Consecutive n xs
      → Consecutive (n + length xs) ys
      → Consecutive n (xs ++ ys)
  Consecutive-append n [] ys h a b = rw (← add-zero n) b
  Consecutive-append n (x ∷ []) ys h a b = (a.0, b)
  Consecutive-append n (x ∷ y ∷ xs) ys h a b = absurd (omega arith)

  run-Kept :
      (s : AgentStream) (ops : List Op)
      → Inv s
      → Room s (length ops)
      → Inv (run unmarshal marshal s ops).0
        × Consecutive s.next_inbound (run unmarshal marshal s ops).1
        × ((run unmarshal marshal s ops).0.next_inbound
            ≡ s.next_inbound + length (run unmarshal marshal s ops).1)
  unfolding run
  run-Kept s [] v room = (v, tt, omega arith)
  run-Kept s (op ∷ ops) v room =
      let kept = step-Kept s op v (omega arith, omega arith) in
      let next = (step unmarshal marshal s op).0 in
      let now = (step unmarshal marshal s op).1 in
      let rest = run unmarshal marshal next ops in
      let (inv, follows, count) =
        run-Kept next ops kept.inv
          (omega (arith, kept.inbound, kept.short), omega (arith, kept.outbound)) in
      (
        inv,
        Consecutive-append s.next_inbound now rest.1 kept.short kept.follows
            (rw (← kept.inbound) follows),
        omega (arith, count, kept.inbound, length-append now rest.1),
      )

  -- From a new stream on, whatever is decoded, committed, bound and sent in whatever order, and
  -- as long as the counters stay below 2 ^ 64: the stream keeps its invariant, and the sequences
  -- that it commits are 2, 3, 4 and so on, with no gap and none twice.
  pub run-new_agent_stream :
      (h : NegotiatedHello) (s : AgentStream) (ops : List Op)
      → new_agent_stream h ≡ ok s
      → length ops + 2 < 2 ^ 64
      → Inv (run unmarshal marshal s ops).0 × Consecutive 2 (run unmarshal marshal s ops).1
  run-new_agent_stream h s ops e room =
      let (i, o) = new_agent_stream-starts h s e in
      let (inv, follows, _) =
        run-Kept s ops (new_agent_stream-Inv h s e) (omega arith, omega arith) in
      (inv, rw (← i) follows)
