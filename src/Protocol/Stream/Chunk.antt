-- ===== src/Protocol/Stream/Chunk.antt =====
-- internal/protocol/stream.go, EncodeTerminalOutputChunk: the binary search finds the longest
-- prefix of the output that the negotiated envelope limit can carry.
use vibe_bridge.Base.{
  ℕ, zero, suc, ◌+◌, ◌-◌, ◌/◌, ◌≤◌, ◌<◌, ◌≡◌, refl, Bool, true, false, Option, none, some, Bytes,
  arith, leb, length, is_empty, Result, ok, err, Bool-cases, inl, inr,
}
use vibe_bridge.Protocol.Envelope.{Envelope}
use vibe_bridge.Protocol.Stream.{AgentStream, Error}
use vibe_bridge.Protocol.Stream.Encode.{
  search_prefix, attempt_prefix, chunk_outcome, encode_terminal_output_chunk, unbound,
}

abbrev pub is_ok {ℓ} : {A : Type ℓ} → Result Error A → Bool
is_ok (ok a) = true
is_ok (err x) = false

-- What a search over the prefixes of at most `size` bytes may answer: nothing fits, or the longest
-- prefix that fits and its encoding.
abbrev pub Longest : (ℕ → Result Error Bytes) → ℕ → Option (ℕ × Bytes) → Type 0
Longest attempt size none = (m : ℕ) → 0 < m → m ≤ size → is_ok (attempt m) ≡ false
Longest attempt size (some (n, encoded)) =
    (0 < n)
    × (n ≤ size)
    × (attempt n ≡ ok encoded)
    × ((m : ℕ) → n < m → m ≤ size → is_ok (attempt m) ≡ false)

-- The best prefix so far ends just below `low`.
abbrev Below : (ℕ → Result Error Bytes) → ℕ → Option (ℕ × Bytes) → Type 0
Below attempt low none = low ≡ 1
Below attempt low (some (n, encoded)) = (0 < n) × (n + 1 ≡ low) × (attempt n ≡ ok encoded)

module _ (attempt : ℕ → Result Error Bytes)
    (shorter_fits : (m n : ℕ) → m ≤ n → is_ok (attempt n) ≡ true → is_ok (attempt m) ≡ true)
    (size : ℕ) where
  too_long : (k m : ℕ) → is_ok (attempt k) ≡ false → k ≤ m → is_ok (attempt m) ≡ false
  too_long k m e h = elim (Bool-cases (is_ok (attempt m))) [
    | inl fits ↦ ground (arith, shorter_fits k m h fits)
    | inr fails ↦ fails
  ]

  finish :
      (low high : ℕ) (best : Option (ℕ × Bytes))
      → high < low
      → low ≤ size + 1
      → Below attempt low best
      → ((m : ℕ) → high < m → m ≤ size → is_ok (attempt m) ≡ false)
      → Longest attempt size best
  finish low high none lt le b above = λ m pos inside. above m (omega arith) inside
  finish low high (some (n, encoded)) lt le b above =
      (b.0, omega arith, b.2, λ m more inside. above m (omega arith) inside)

  -- What a search with this much fuel gives, from any range that it can cover.
  abbrev Searches : ℕ → Type 0
  Searches fuel =
      (low high : ℕ) (best : Option (ℕ × Bytes))
      → high + 1 ≤ low + fuel
      → 0 < low
      → low ≤ size + 1
      → high ≤ size
      → Below attempt low best
      → ((m : ℕ) → high < m → m ≤ size → is_ok (attempt m) ≡ false)
      → Longest attempt size (search_prefix attempt fuel low high best)

  round :
      (fuel : ℕ)
      → Searches fuel
      → (low high middle : ℕ) (best : Option (ℕ × Bytes)) (r : Result Error Bytes)
      → attempt middle ≡ r
      → low ≤ middle
      → middle ≤ high
      → high + 1 ≤ low + suc fuel
      → 0 < low
      → high ≤ size
      → Below attempt low best
      → ((m : ℕ) → high < m → m ≤ size → is_ok (attempt m) ≡ false)
      → Longest attempt size (elim r [
        | ok encoded ↦ search_prefix attempt fuel (middle + 1) high (some (middle, encoded))
        | err x ↦ search_prefix attempt fuel low (middle - 1) best
      ])
  round fuel ih low high middle best (ok encoded) e a c enough pos hs b above =
      ih (middle + 1) high (some (middle, encoded)) (omega arith) (omega arith) (omega arith) hs
        (omega arith, refl, e) above
  round fuel ih low high middle best (err x) e a c enough pos hs b above =
      ih low (middle - 1) best (omega arith) pos (omega arith) (omega arith) b
        (λ m more inside. too_long middle m (rw e) (omega arith))

  search_prefix-Longest : (fuel : ℕ) → Searches fuel
  unfolding search_prefix
  search_prefix-Longest zero low high best enough pos le hs b above =
      finish low high best (omega arith) le b above
  search_prefix-Longest (suc fuel) low high best enough pos le hs b above =
      elim (Bool-cases (leb low high)) [
        | inr past ↦ rw past (finish low high best (ground arith) le b above)
        | inl more ↦ rw more (
            round fuel (search_prefix-Longest fuel) low high (low + (high - low) / 2) best _ refl
              (ground arith) (ground arith) enough pos hs b above)
      ]

module _ (marshal : Envelope → Option Bytes) (s : AgentStream) (content : Bytes) (sent_at : ℕ) where
  -- Where an envelope that carries fewer bytes never fails if one that carries more fits, and the
  -- output is not empty and the stream not waiting for its session: the search ends with the
  -- longest prefix that fits, or with nothing only if not even one byte fits, and that is what
  -- the operation sends or refuses.
  pub chunk-Longest :
      ((m n : ℕ)
        → m ≤ n
        → is_ok (attempt_prefix marshal s content sent_at n) ≡ true
        → is_ok (attempt_prefix marshal s content sent_at m) ≡ true)
      → is_empty content ≡ false
      → unbound s ≡ false
      → (best : Option (ℕ × Bytes)) × Longest
          (attempt_prefix marshal s content sent_at)
          (length content)
          best
        × (encode_terminal_output_chunk marshal s content sent_at ≡ chunk_outcome s best)
  unfolding encode_terminal_output_chunk
  chunk-Longest shorter_fits filled bound = (
    search_prefix (attempt_prefix marshal s content sent_at) (length content + 1) 1 (length content)
        none,
    search_prefix-Longest (attempt_prefix marshal s content sent_at) shorter_fits (length content)
        (length content + 1) 1 (length content) none (omega arith) (omega arith) (omega arith)
        (omega arith) refl (λ m more inside. absurd (omega arith)),
    rw (filled, bound),
  )
