-- ===== src/Protocol/Stream/Send.antt =====
-- internal/protocol/stream.go: all the envelopes that the Agent can send, as one operation.
use Prim.Native.Nat.{min}
use vibe_bridge.Base.{
  ℕ, zero, suc, ◌+◌, ◌-◌, ◌/◌, ◌≤◌, ◌≡◌, refl, Bool, true, false, Option, none, some, List, [], ◌∷◌,
  Bytes, arith, length, Result, ok, err, inl, inr, Option-cases, Bool-cases, take, ltb, leb,
  if◌then◌else◌,
}
use vibe_bridge.Protocol.Envelope.{
  Envelope, Payload, ResumeDisposition, ProcessExitOutcome, ErrorCode,
  AttachmentTransferDisposition, AttachmentPromptDisposition, max_envelope_bytes, terminal_output,
}
use vibe_bridge.Protocol.Stream.{
  AgentStream, Error, u64, encode_failed, envelope_too_large, no_pending_ping, limit_too_small,
  empty_output, not_bound,
}
use vibe_bridge.Protocol.Stream.Encode.{
  stamp, Encoded, encode_locked, reject_or, pop_ping, answer_ping, chunk_outcome, search_prefix,
  attempt_prefix, encode_terminal_output, encode_terminal_output_chunk, encode_session_status,
  encode_process_exit, encode_attachment_transfer_status, encode_attachment_prompt_preview,
  encode_error, encode_pong, encode_acknowledgement,
}

pub data Send : Type 0 where
  output output_chunk : Bytes → Send
  status : ResumeDisposition → Send
  exit : ProcessExitOutcome → Send
  transfer_status : Bytes → AttachmentTransferDisposition → ℕ → Send
  prompt_preview : Bytes → AttachmentPromptDisposition → Bytes → Bool → Send
  failure : ErrorCode → Send
  pong acknowledgement : Send

-- A chunk's encoding, without the number of bytes that it took.
pub encoding : AgentStream × Result Error (Bytes × ℕ) → Encoded
encoding (s, ok (encoded, n)) = (s, ok encoded)
encoding (s, err x) = (s, err x)

-- What a send leaves of the waiting pings.
abbrev pub pings_after : Send → List ℕ → List ℕ
pings_after pong (p ∷ rest) = rest
pings_after _ pings = pings

module _ (marshal : Envelope → Option Bytes) where
  unfoldable pub send : AgentStream → ℕ → Send → Encoded
  unfolding encoding encode_terminal_output encode_terminal_output_chunk encode_session_status
      encode_process_exit encode_attachment_transfer_status encode_attachment_prompt_preview
      encode_error encode_pong encode_acknowledgement
  send s sent_at (output content) = encode_terminal_output marshal s content sent_at
  send s sent_at (output_chunk content) =
      encoding (encode_terminal_output_chunk marshal s content sent_at)
  send s sent_at (status d) = encode_session_status marshal s d sent_at
  send s sent_at (exit o) = encode_process_exit marshal s o sent_at
  send s sent_at (transfer_status id d offset) =
      encode_attachment_transfer_status marshal s id d offset sent_at
  send s sent_at (prompt_preview id d preview append_enter) =
      encode_attachment_prompt_preview marshal s id d preview append_enter sent_at
  send s sent_at (failure code) = encode_error marshal s code sent_at
  send s sent_at pong = encode_pong marshal s sent_at
  send s sent_at acknowledgement = encode_acknowledgement marshal s sent_at

  -- What a send may come to. Refused, it leaves the stream as it was. Sent, the bytes encode some
  -- payload under the stream's own metadata (connection, session, next sequence, highest inbound
  -- sequence), they keep the negotiated size, and the sequence moves on by one.
  pub data Outbound (s : AgentStream) (sent_at : ℕ) (pings : List ℕ) (r : Encoded) : Type 0 where
    refused : (x : Error) → r ≡ (s, err x) → Outbound s sent_at pings r
    sent :
        (p : Payload) (encoded : Bytes)
        → marshal (stamp s sent_at p) ≡ some encoded
        → length encoded ≤ min max_envelope_bytes s.peer_max_envelope_size
        → r ≡ (
          record s { next_outbound = u64 (s.next_outbound + 1); pending_ping_sequences = pings },
          ok encoded,
        )
        → Outbound s sent_at pings r

-- The answer of the binary search is a prefix that was tried and fitted.
abbrev Fits : (ℕ → Result Error Bytes) → Option (ℕ × Bytes) → Type 0
Fits attempt none = Unit {0}
Fits attempt (some (n, encoded)) = attempt n ≡ ok encoded

module _ (attempt : ℕ → Result Error Bytes) where
  -- What a search with this much fuel keeps.
  abbrev KeepsFits : ℕ → Type 0
  KeepsFits fuel =
      (low high : ℕ) (best : Option (ℕ × Bytes))
      → Fits attempt best
      → Fits attempt (search_prefix attempt fuel low high best)

  one_round :
      (fuel low high middle : ℕ) (best : Option (ℕ × Bytes)) (r : Result Error Bytes)
      → KeepsFits fuel
      → attempt middle ≡ r
      → Fits attempt best
      → Fits attempt (elim r [
        | ok encoded ↦ search_prefix attempt fuel (middle + 1) high (some (middle, encoded))
        | err x ↦ search_prefix attempt fuel low (middle - 1) best
      ])
  one_round fuel low high middle best (ok encoded) ih e h =
      ih (middle + 1) high (some (middle, encoded)) e
  one_round fuel low high middle best (err x) ih e h = ih low (middle - 1) best h

  search_prefix-Fits : (fuel : ℕ) → KeepsFits fuel
  unfolding search_prefix
  search_prefix-Fits zero low high best h = h
  search_prefix-Fits (suc fuel) low high best h = elim (Bool-cases (leb low high)) [
    | inr past ↦ rw past h
    | inl more ↦
        rw more
          (one_round fuel low high (low + (high - low) / 2) best _ (search_prefix-Fits fuel) refl h)
  ]

module _ (marshal : Envelope → Option Bytes) (s : AgentStream) (sent_at : ℕ) where
  abbrev Goes : List ℕ → Encoded → Type 0
  Goes = Outbound marshal s sent_at

  refusal : (pings : List ℕ) (x : Error) → Goes pings (s, err x)
  refusal pings x = refused x refl

  branch :
      (pings : List ℕ) (b : Bool) (r t : Encoded)
      → Goes pings r
      → Goes pings t
      → Goes pings (if b then r else t)
  branch pings true r t h k = h
  branch pings false r t h k = k

  encode_locked-Outbound :
      (p : Payload) → Goes s.pending_ping_sequences (encode_locked marshal s sent_at p)
  unfolding encode_locked
  encode_locked-Outbound p = elim (Option-cases (marshal (stamp s sent_at p))) [
    | inl e ↦ refused encode_failed (ground arith)
    | inr (encoded, e) ↦
        elim (Bool-cases (ltb (min max_envelope_bytes s.peer_max_envelope_size) (length encoded))) [
          | inl big ↦ refused envelope_too_large (ground arith)
          | inr fits ↦ sent p encoded e (ground arith) (ground arith)
        ]
  ]

  guarded :
      (o : Option Error) (t : Encoded)
      → Goes s.pending_ping_sequences t
      → Goes s.pending_ping_sequences (reject_or s o t)
  unfolding reject_or
  guarded none t h = h
  guarded (some x) t h = refusal s.pending_ping_sequences x

  ruleset outcomes = (branch, refusal, encode_locked-Outbound, guarded)

  output-Outbound :
      (content : Bytes)
      → Goes s.pending_ping_sequences (encode_terminal_output marshal s content sent_at)
  unfolding encode_terminal_output
  output-Outbound content = search outcomes

  status-Outbound :
      (d : ResumeDisposition)
      → Goes s.pending_ping_sequences (encode_session_status marshal s d sent_at)
  unfolding encode_session_status
  status-Outbound ResumeDisposition.resume_unspecified = search outcomes
  status-Outbound _ = search outcomes

  exit-Outbound :
      (o : ProcessExitOutcome)
      → Goes s.pending_ping_sequences (encode_process_exit marshal s o sent_at)
  unfolding encode_process_exit
  exit-Outbound ProcessExitOutcome.outcome_unspecified = search outcomes
  exit-Outbound _ = search outcomes

  transfer_status-Outbound :
      (id : Bytes) (d : AttachmentTransferDisposition) (offset : ℕ)
      → Goes s.pending_ping_sequences
          (encode_attachment_transfer_status marshal s id d offset sent_at)
  unfolding encode_attachment_transfer_status
  transfer_status-Outbound id d offset = search outcomes

  prompt_preview-Outbound :
      (id : Bytes) (d : AttachmentPromptDisposition) (preview : Bytes) (append_enter : Bool)
      → Goes s.pending_ping_sequences
          (encode_attachment_prompt_preview marshal s id d preview append_enter sent_at)
  unfolding encode_attachment_prompt_preview
  prompt_preview-Outbound id d preview append_enter = search outcomes

  error-Outbound :
      (code : ErrorCode) → Goes s.pending_ping_sequences (encode_error marshal s code sent_at)
  unfolding encode_error
  error-Outbound ErrorCode.code_unspecified = search outcomes
  error-Outbound _ = search outcomes

  acknowledgement-Outbound :
      Goes s.pending_ping_sequences (encode_acknowledgement marshal s sent_at)
  unfolding encode_acknowledgement
  acknowledgement-Outbound = search outcomes

  popped :
      (rest : List ℕ) (r : Encoded) → Goes s.pending_ping_sequences r → Goes rest (pop_ping rest r)
  unfolding pop_ping
  popped rest r (refused x e) = refused x (rw e)
  popped rest r (sent p encoded m fits e) = sent p encoded m fits (rw e)

  answer_ping-Outbound :
      (pings : List ℕ) → Goes (pings_after pong pings) (answer_ping marshal s sent_at pings)
  unfolding answer_ping
  answer_ping-Outbound [] = refusal [] no_pending_ping
  answer_ping-Outbound (p ∷ rest) = popped rest _ (encode_locked-Outbound Payload.pong)

  pong-Outbound : Goes (pings_after pong s.pending_ping_sequences) (encode_pong marshal s sent_at)
  unfolding encode_pong
  pong-Outbound = search (branch, refusal, answer_ping-Outbound)

  attempt_fits :
      (content encoded : Bytes) (n : ℕ)
      → attempt_prefix marshal s content sent_at n ≡ ok encoded
      → (marshal (stamp s sent_at (terminal_output (take n content))) ≡ some encoded)
        × (length encoded ≤ min max_envelope_bytes s.peer_max_envelope_size)
  unfolding attempt_prefix
  attempt_fits content encoded n e = ground arith

  chunk_refusal : (x : Error) → Goes s.pending_ping_sequences (encoding (s, err x))
  unfolding encoding
  chunk_refusal x = refusal s.pending_ping_sequences x

  chunk_branch :
      (b : Bool) (r t : AgentStream × Result Error (Bytes × ℕ))
      → Goes s.pending_ping_sequences (encoding r)
      → Goes s.pending_ping_sequences (encoding t)
      → Goes s.pending_ping_sequences (encoding (if b then r else t))
  chunk_branch true r t h k = h
  chunk_branch false r t h k = k

  chunk_outcome-Outbound :
      (content : Bytes) (best : Option (ℕ × Bytes))
      → Fits (attempt_prefix marshal s content sent_at) best
      → Goes s.pending_ping_sequences (encoding (chunk_outcome s best))
  unfolding chunk_outcome encoding
  chunk_outcome-Outbound content none f = refusal s.pending_ping_sequences limit_too_small
  chunk_outcome-Outbound content (some (n, encoded)) f =
      let (m, fits) = attempt_fits content encoded n f in
      sent (terminal_output (take n content)) encoded m fits refl

  chunk-Outbound :
      (content : Bytes)
      → Goes s.pending_ping_sequences
          (encoding (encode_terminal_output_chunk marshal s content sent_at))
  unfolding encode_terminal_output_chunk
  chunk-Outbound content = chunk_branch _ _ _ (chunk_refusal empty_output) (
      chunk_branch _ _ _ (chunk_refusal not_bound) (
        chunk_outcome-Outbound content _ (
          search_prefix-Fits (attempt_prefix marshal s content sent_at) (length content + 1) 1
            (length content) none tt)))

  pub send-Outbound :
      (op : Send)
      → Outbound marshal s sent_at
          (pings_after op s.pending_ping_sequences)
          (send marshal s sent_at op)
  unfolding send
  send-Outbound (output content) = output-Outbound content
  send-Outbound (output_chunk content) = chunk-Outbound content
  send-Outbound (status d) = status-Outbound d
  send-Outbound (exit o) = exit-Outbound o
  send-Outbound (transfer_status id d offset) = transfer_status-Outbound id d offset
  send-Outbound (prompt_preview id d preview append_enter) =
      prompt_preview-Outbound id d preview append_enter
  send-Outbound (failure code) = error-Outbound code
  send-Outbound pong = pong-Outbound
  send-Outbound acknowledgement = acknowledgement-Outbound
