-- ===== src/Server/Nonces/Examples.antt =====
-- internal/server/pairedsession.go: the nonces on concrete inputs.
use vibe_bridge.Base.{◌≡◌, ◌≢◌, ◌≤◌, refl, List, [], ◌∷◌, some, ok, err, arith, dec_bytes, length}
use vibe_bridge.Base.Int.{pos}
use vibe_bridge.Base.Hex.{encode_to_string}
use vibe_bridge.Server.Nonces.{
  max_active_session_nonces, nonce_unknown, nonce_remote, new_nonce_store, evict_locked, issue,
  consume_found, consume,
}
use vibe_bridge.Server.Nonces.Bounded.{Op, issues, consumes, step, run}
use vibe_bridge.Server.Nonces.Once.{consumed_once}

abbrev before : List Op
before = issues (1 ∷ []) (some (5 ∷ [])) 0 0 ∷ issues (2 ∷ []) (some (6 ∷ [])) 1 2 ∷ []

abbrev after : List Op
after = consumes (48 ∷ 53 ∷ []) (1 ∷ []) 11 ∷ issues (1 ∷ []) (some (7 ∷ [])) 12 13 ∷ []

first_consumed :
    (consume (run (new_nonce_store (pos 0)) before) (48 ∷ 53 ∷ []) (1 ∷ []) 10).1 ≡ ok tt
unfolding run step issue consume consume_found evict_locked new_nonce_store encode_to_string
    dec_bytes
first_consumed = refl

-- Expired, foreign.
late_refused :
    (consume (run (new_nonce_store (pos 0)) before) (48 ∷ 53 ∷ []) (1 ∷ []) 30000000001).1
    ≡ err nonce_unknown
unfolding run step issue consume consume_found evict_locked new_nonce_store encode_to_string
    dec_bytes
late_refused = refl

foreign_refused :
    (consume (run (new_nonce_store (pos 0)) before) (48 ∷ 53 ∷ []) (2 ∷ []) 10).1 ≡ err nonce_remote
unfolding run step issue consume consume_found evict_locked new_nonce_store encode_to_string
    dec_bytes
foreign_refused = refl

seven_differs : encode_to_string (7 ∷ []) ≢ 48 ∷ 53 ∷ []
unfolding encode_to_string
seven_differs e = absurd (ground (arith, e))

consumed_once_example :
    let s = (consume (run (new_nonce_store (pos 0)) before) (48 ∷ 53 ∷ []) (1 ∷ []) 10).0 in
    ((consume (run s after) (48 ∷ 53 ∷ []) (1 ∷ []) 20).1 ≢ ok tt)
    × (length (run s after).items ≤ max_active_session_nonces)
consumed_once_example =
    consumed_once (pos 0) before after (48 ∷ 53 ∷ []) (1 ∷ []) (1 ∷ []) 10 20 first_consumed
      (seven_differs, tt)
