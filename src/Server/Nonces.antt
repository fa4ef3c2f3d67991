-- ===== src/Server/Nonces.antt =====
-- internal/server/pairedsession.go: the nonces that the Agent issues for the upgrade of a connection.
-- The random source and `net.SplitHostPort` are parameters; times are nanoseconds.
pub mod Bounded
pub mod Once
pub mod Examples
use vibe_bridge.Base.{
  ℕ, ◌+◌, ◌*◌, Bool, true, false, List, [], ◌∷◌, Option, none, some, Bytes, ltb, leb, if◌then◌else◌,
  length, is_empty, dec_bytes, ite, Result, ok, err, ◌==◌,
}
use vibe_bridge.Base.Int.{ℤ, pos, negsuc}
use vibe_bridge.Base.Hex.{encode_to_string}
use vibe_bridge.Base.Map.{lookup, insert}

abbrev pub session_nonce_bytes : ℕ
session_nonce_bytes = 32

abbrev session_nonce_default_ttl : ℕ
session_nonce_default_ttl = 30 * 1000000000

abbrev pub max_active_session_nonces : ℕ
max_active_session_nonces = 4096

pub data NonceError : Type 0 where
  random_failed store_full nonce_unknown nonce_replayed nonce_remote : NonceError

pub record NonceRecord : Type 0 where
  pub expires_at : ℕ
  pub host : Bytes
  pub consumed : Bool

pub record NonceStore : Type 0 where
  pub ttl : ℕ
  pub items : List (Bytes × NonceRecord)

abbrev ttl_of : ℤ → ℕ
ttl_of (pos n) = if n == 0 then session_nonce_default_ttl else n
ttl_of (negsuc n) = session_nonce_default_ttl

unfoldable pub new_nonce_store : ℤ → NonceStore
new_nonce_store ttl = record { ttl = ttl_of ttl; items = [] }

unfoldable pub evict_locked : ℕ → List (Bytes × NonceRecord) → List (Bytes × NonceRecord)
evict_locked now [] = []
evict_locked now ((key, r) ∷ m) =
    let rest = evict_locked now m in if ltb r.expires_at now then rest else (key, r) ∷ rest

-- `split` is `net.SplitHostPort` without the port, `none` for an error.
unfoldable pub host_from_addr : (Bytes → Option Bytes) → Bytes → Bytes
host_from_addr split addr =
    if is_empty addr then [] else elim (split addr) [ none ↦ addr | some host ↦ host ]

abbrev fresh_record : NonceStore → Bytes → ℕ → NonceRecord
fresh_record s host now = record { expires_at = now + s.ttl; host = host; consumed = false }

-- Reads the clock for the eviction and again for the record.
unfoldable pub issue :
    NonceStore → Bytes → Option Bytes → ℕ → ℕ → NonceStore × Result NonceError (Bytes × ℕ)
unfolding evict_locked
issue s host none now later = (s, err random_failed)
issue s host (some raw) now later =
    let items = evict_locked now s.items in
    if leb max_active_session_nonces (length items)
    then (record s { items = items }, err store_full)
    else (
      record s { items = insert (encode_to_string raw) (fresh_record s host later) items },
      ok (encode_to_string raw, s.ttl),
    )

-- After the eviction, given what the store holds for the nonce.
unfoldable pub consume_found :
    NonceStore → Bytes → Bytes → Option NonceRecord → NonceStore × Result NonceError (Unit {0})
consume_found s nonce host none = (s, err nonce_unknown)
consume_found s nonce host (some r) =
    if r.consumed
    then (s, err nonce_replayed)
    else if ite (dec_bytes r.host host) true false
    then (record s { items = insert nonce (record r { consumed = true }) s.items }, ok tt)
    else (s, err nonce_remote)

unfoldable pub consume : NonceStore → Bytes → Bytes → ℕ → NonceStore × Result NonceError (Unit {0})
unfolding evict_locked consume_found
consume s nonce host now =
    consume_found (record s { items = evict_locked now s.items }) nonce host
      (lookup nonce (evict_locked now s.items))
