-- ===== src/Server/Nonces/Once.antt =====
-- internal/server/pairedsession.go: a nonce is used once, and the store is bounded.
use vibe_bridge.Base.{
  ℕ, ◌+◌, ◌≡◌, ◌≢◌, ◌≤◌, true, false, List, [], ◌∷◌, Option, none, some, Bytes, leb, length, Result,
  ok, arith, if_cases,
}
use vibe_bridge.Base.Int.{ℤ}
use vibe_bridge.Base.Hex.{encode_to_string}
use vibe_bridge.Base.Map.{lookup, lookup-insert}
use vibe_bridge.Server.Nonces.{
  max_active_session_nonces, NonceError, NonceRecord, NonceStore, new_nonce_store, evict_locked,
  issue, consume_found, consume,
}
use vibe_bridge.Server.Nonces.Bounded.{
  Op, issues, consumes, step, run, Fresh, Valid, usable, evict-spent, issue-Valid, new-Valid,
  consume-Valid, run-Valid,
}

-- Neither call makes a spent nonce usable, unless it is drawn again.
issue-spent :
    (s : NonceStore) (host raw key : Bytes) (now later : ℕ)
    → Valid s
    → encode_to_string raw ≢ key
    → usable (lookup key s.items) ≡ false
    → usable (lookup key (issue s host (some raw) now later).0.items) ≡ false
unfolding issue
issue-spent s host raw key now later v other spent =
    let m = evict_locked now s.items in
    let gone = evict-spent now key s.items v.distinct spent in
    if_cases
      (λ (q : NonceStore × Result NonceError (Bytes × ℕ)). usable (lookup key q.0.items) ≡ false)
      (leb max_active_session_nonces (length m)) _ _ (λ full. gone)
      (λ room. ground (
        arith,
        lookup-insert (encode_to_string raw) key
            (record { expires_at = later + s.ttl; host = host; consumed = false }) m,
      ))

found-spent :
    (s : NonceStore) (nonce host key : Bytes) (o : Option NonceRecord)
    → usable (lookup key s.items) ≡ false
    → usable (lookup key (consume_found s nonce host o).0.items) ≡ false
unfolding consume_found
found-spent s nonce host key none spent = spent
found-spent s nonce host key (some r) spent =
    ground (arith, lookup-insert nonce key (record r { consumed = true }) s.items)

consume-spent :
    (s : NonceStore) (nonce host key : Bytes) (now : ℕ)
    → Valid s
    → usable (lookup key s.items) ≡ false
    → usable (lookup key (consume s nonce host now).0.items) ≡ false
unfolding consume
consume-spent s nonce host key now v spent =
    found-spent _ nonce host key (lookup nonce (evict_locked now s.items))
      (evict-spent now key s.items v.distinct spent)

run-spent :
    (s : NonceStore) (ops : List Op) (key : Bytes)
    → Valid s
    → Fresh key ops
    → usable (lookup key s.items) ≡ false
    → usable (lookup key (run s ops).items) ≡ false
unfolding run step issue
run-spent s [] key v fresh spent = spent
run-spent s (issues host none now later ∷ ops) key v fresh spent = run-spent s ops key v fresh spent
run-spent s (issues host (some raw) now later ∷ ops) key v fresh spent =
    run-spent (issue s host (some raw) now later).0 ops key
      (issue-Valid s host (some raw) now later v) fresh.1
      (issue-spent s host raw key now later v fresh.0 spent)
run-spent s (consumes nonce host now ∷ ops) key v fresh spent =
    run-spent (consume s nonce host now).0 ops key (consume-Valid s nonce host now v) fresh
      (consume-spent s nonce host key now v spent)

-- What a consumption that succeeds tells, and what it leaves.
found-consumed :
    (s : NonceStore) (nonce host : Bytes) (o : Option NonceRecord)
    → (consume_found s nonce host o).1 ≡ ok tt
    → (usable o ≡ true) × (usable (lookup nonce (consume_found s nonce host o).0.items) ≡ false)
unfolding consume_found
found-consumed s nonce host none done = absurd (ground arith)
found-consumed s nonce host (some r) done =
    ground (arith, lookup-insert nonce nonce (record r { consumed = true }) s.items)

pub consume-consumed :
    (s : NonceStore) (nonce host : Bytes) (now : ℕ)
    → (consume s nonce host now).1 ≡ ok tt
    → (usable (lookup nonce (evict_locked now s.items)) ≡ true)
      × (usable (lookup nonce (consume s nonce host now).0.items) ≡ false)
unfolding consume
consume-consumed s nonce host now done =
    found-consumed _ nonce host (lookup nonce (evict_locked now s.items)) done

-- On a store that has seen any calls since it was made, a nonce that has been consumed is never
-- consumed again, whatever is called in between, unless the random source draws it again; and the
-- store never holds more than 4096 nonces.
pub consumed_once :
    (ttl : ℤ) (before after : List Op) (nonce host host' : Bytes) (now now' : ℕ)
    → let s = run (new_nonce_store ttl) before in
      (consume s nonce host now).1 ≡ ok tt
      → Fresh nonce after
      → let s = run (new_nonce_store ttl) before in
        let s' = run (consume s nonce host now).0 after in
        ((consume s' nonce host' now').1 ≢ ok tt) × (length s'.items ≤ max_active_session_nonces)
consumed_once ttl before after nonce host host' now now' done fresh =
    let s = run (new_nonce_store ttl) before in
    let v = run-Valid (new_nonce_store ttl) before (new-Valid ttl) in
    let v₁ = consume-Valid s nonce host now v in
    let s₁ = (consume s nonce host now).0 in
    let v' = run-Valid s₁ after v₁ in
    let spent = run-spent s₁ after nonce v₁ fresh (consume-consumed s nonce host now done).1 in
    let gone = evict-spent now' nonce (run s₁ after).items v'.distinct spent in
    (
      λ again. absurd (ground (arith, (consume-consumed (run s₁ after) nonce host' now' again).0)),
      v'.bounded,
    )
