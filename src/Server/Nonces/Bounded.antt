-- ===== src/Server/Nonces/Bounded.antt =====
-- internal/server/pairedsession.go: runs of calls, which keep the store bounded.
use vibe_bridge.Base.{
  ℕ, ◌+◌, ◌≡◌, ◌≢◌, ◌≤◌, refl, Bool, true, false, List, [], ◌∷◌, Option, none, some, Bytes, ltb,
  leb, length, dec_bytes, ite, not, Result, arith, if_cases,
}
use vibe_bridge.Base.Int.{ℤ}
use vibe_bridge.Base.Hex.{encode_to_string}
use vibe_bridge.Base.Map.{lookup, insert, Distinct, insert-Distinct, length-insert}
use vibe_bridge.Server.Nonces.{
  max_active_session_nonces, NonceError, NonceRecord, NonceStore, new_nonce_store, evict_locked,
  issue, consume_found, consume,
}

pub data Op : Type 0 where
  issues : Bytes → Option Bytes → ℕ → ℕ → Op
  consumes : Bytes → Bytes → ℕ → Op

unfoldable pub step : NonceStore → Op → NonceStore
step s (issues host raw now later) = (issue s host raw now later).0
step s (consumes nonce host now) = (consume s nonce host now).0

unfoldable pub run : NonceStore → List Op → NonceStore
run s [] = s
run s (op ∷ ops) = run (step s op) ops

-- The random source does not draw the nonce again.
abbrev pub Fresh : Bytes → List Op → Type 0
Fresh nonce [] = Unit {0}
Fresh nonce (issues host none now later ∷ ops) = Fresh nonce ops
Fresh nonce (issues host (some raw) now later ∷ ops) =
    (encode_to_string raw ≢ nonce) × Fresh nonce ops
Fresh nonce (consumes other host now ∷ ops) = Fresh nonce ops

-- The store holds no nonce twice and not too many.
pub record Valid (s : NonceStore) : Type 0 where
  pub distinct : Distinct s.items
  pub bounded : length s.items ≤ max_active_session_nonces

-- Whether what the store holds for a nonce can be used.
abbrev pub usable : Option NonceRecord → Bool
usable none = false
usable (some r) = not r.consumed

evict-lookup :
    (now : ℕ) (key : Bytes) (m : List (Bytes × NonceRecord))
    → lookup key m ≡ none
    → lookup key (evict_locked now m) ≡ none
unfolding evict_locked
evict-lookup now key [] h = refl
evict-lookup now key ((k, r) ∷ m) h = ground (arith, evict-lookup now key m)

evict-Distinct :
    (now : ℕ) (m : List (Bytes × NonceRecord)) → Distinct m → Distinct (evict_locked now m)
unfolding evict_locked
evict-Distinct now [] d = tt
evict-Distinct now ((k, r) ∷ m) d =
    if_cases Distinct (ltb r.expires_at now) _ _ (λ old. evict-Distinct now m d.1)
      (λ young. (evict-lookup now k m d.0, evict-Distinct now m d.1))

evict-length : (now : ℕ) (m : List (Bytes × NonceRecord)) → length (evict_locked now m) ≤ length m
unfolding evict_locked
evict-length now [] = omega arith
evict-length now ((k, r) ∷ m) = ground (arith, evict-length now m)

pub evict-spent :
    (now : ℕ) (key : Bytes) (m : List (Bytes × NonceRecord))
    → Distinct m
    → usable (lookup key m) ≡ false
    → usable (lookup key (evict_locked now m)) ≡ false
unfolding evict_locked
evict-spent now key [] d s = s
evict-spent now key ((k, r) ∷ m) d s =
    ground (arith, evict-spent now key m d.1, evict-lookup now k m d.0)

pub issue-Valid :
    (s : NonceStore) (host : Bytes) (raw : Option Bytes) (now later : ℕ)
    → Valid s
    → Valid (issue s host raw now later).0
unfolding issue
issue-Valid s host none now later v = v
issue-Valid s host (some raw) now later v =
    let m = evict_locked now s.items in
    let d = evict-Distinct now s.items v.distinct in
    if_cases (λ (q : NonceStore × Result NonceError (Bytes × ℕ)). Valid q.0)
      (leb max_active_session_nonces (length m)) _ _
      (λ full. record {
        distinct = d;
        bounded = omega (arith, evict-length now s.items, v.bounded);
      })
      (λ room. record {
        distinct = insert-Distinct (encode_to_string raw) _ m d;
        bounded = ground (
          arith,
          room,
          length-insert (encode_to_string raw)
              (record { expires_at = later + s.ttl; host = host; consumed = false }) m,
        );
      })

pub new-Valid : (ttl : ℤ) → Valid (new_nonce_store ttl)
unfolding new_nonce_store
new-Valid ttl = record { distinct = tt; bounded = omega arith }

used_up :
    (s : NonceStore) (nonce : Bytes) (r : NonceRecord)
    → lookup nonce s.items ≡ some r
    → Valid s
    → Valid (record s { items = insert nonce (record r { consumed = true }) s.items })
used_up s nonce r found v =
    let r' : NonceRecord = record r { consumed = true } in
    record {
      distinct = insert-Distinct nonce r' s.items v.distinct;
      bounded = ground (arith, found, v.bounded, length-insert nonce r' s.items);
    }

found-Valid :
    (s : NonceStore) (nonce host : Bytes) (o : Option NonceRecord)
    → lookup nonce s.items ≡ o
    → Valid s
    → Valid (consume_found s nonce host o).0
unfolding consume_found
found-Valid s nonce host none found v = v
found-Valid s nonce host (some r) found v =
    let Fine : NonceStore × Result NonceError (Unit {0}) → Type 0 = λ q. Valid q.0 in
    if_cases Fine r.consumed _ _ (λ used. v)
      (λ unused.
        if_cases Fine (ite (dec_bytes r.host host) true false) _ _
          (λ here. used_up s nonce r found v) (λ elsewhere. v))

pub consume-Valid :
    (s : NonceStore) (nonce host : Bytes) (now : ℕ) → Valid s → Valid (consume s nonce host now).0
unfolding consume
consume-Valid s nonce host now v =
    let m = evict_locked now s.items in
    let s₁ : NonceStore = record s { items = m } in
    let v₁ : Valid s₁ = record {
      distinct = evict-Distinct now s.items v.distinct;
      bounded = omega (arith, evict-length now s.items, v.bounded);
    } in
    found-Valid s₁ nonce host (lookup nonce m) refl v₁

step-Valid : (s : NonceStore) (op : Op) → Valid s → Valid (step s op)
unfolding step
step-Valid s (issues host raw now later) v = issue-Valid s host raw now later v
step-Valid s (consumes nonce host now) v = consume-Valid s nonce host now v

pub run-Valid : (s : NonceStore) (ops : List Op) → Valid s → Valid (run s ops)
unfolding run
run-Valid s [] v = v
run-Valid s (op ∷ ops) v = run-Valid (step s op) ops (step-Valid s op v)
